-- ===== src/Ks/Memoria/Pasos.antt =====
-- Which process holds which CPU while the scheduler runs: kernel_scheduler/src/main.c.
-- The descriptor of a CPU that is lost is not closed, so no other CPU gets it. A round of the planner
-- counts as one step.
use ssoo.Common.{ℕ, ◌+◌, ◌≡◌, List, [], ◌∷◌, ◌++◌, Bool, ℤ}
use ssoo.Ks.Planificador.{
  Proceso, EstadoKs, encolar_en_ready, encolar_al_frente_en_ready, planificar, sacar_de_exec,
}
use ssoo.Ks.Memoria.{
  Sistema, conectar_cpu, desconectar_cpu, pedir_memoria, manejar_mem_alloc, manejar_mem_free,
}
use ssoo.Ks.Memoria.Reparto.{libres, en_cpu}

-- How often a CPU is free, runs a process, or is reserved for one that waits for memory.
abbrev pub uso_ks : ℤ → EstadoKs → ℕ
uso_ks fd s = libres fd s.lista_cpus + en_cpu fd s.cola_exec

abbrev pub uso : ℤ → Sistema → ℕ
uso fd s = uso_ks fd s.ks + en_cpu fd s.en_memoria

-- The steps of the scheduler. A CPU connects with a descriptor that nobody holds.
pub data Paso (s : Sistema) : Sistema → Type 0 where
  conectar : (fd : ℤ) → uso fd s ≡ 0 → Paso s (record s { ks = conectar_cpu s.ks fd })
  desconectar : (fd : ℤ) → Paso s (record s { ks = desconectar_cpu s.ks fd })
  encolar : (p : Proceso) → Paso s (record s { ks = encolar_en_ready s.ks p })
  al_frente : (p : Proceso) → Paso s (record s { ks = encolar_al_frente_en_ready s.ks p })
  ronda : Paso s (record s { ks = planificar s.ks })
  sacar : (pid : ℤ) → Paso s (record s { ks = (sacar_de_exec s.ks pid).1 })
  pedir : (pid : ℤ) → Paso s (pedir_memoria s pid)
  alloc :
      (antes : List Proceso) (p : Proceso) (despues : List Proceso) (tabla : Bool)
      → s.en_memoria ≡ antes ++ p ∷ despues
      → Paso s (manejar_mem_alloc (record s { en_memoria = antes ++ despues }) p tabla)
  free :
      (antes : List Proceso) (p : Proceso) (despues : List Proceso)
      → s.en_memoria ≡ antes ++ p ∷ despues
      → Paso s (manejar_mem_free (record s { en_memoria = antes ++ despues }) p)

abbrev pub al_inicio : List (List Proceso) → Bool → Sistema
al_inicio colas queue_preemption = record {
  ks = record {
    colas_ready = colas;
    cola_exec = [];
    lista_cpus = [];
    queue_preemption = queue_preemption;
    enviados = [];
  };
  en_memoria = [];
  cola_exit = [];
  avisos_km = [];
}

-- The states that the steps reach from a start without CPUs.
pub data Alcanzable : Sistema → Type 0 where
  inicio :
      (colas : List (List Proceso)) (queue_preemption : Bool)
      → Alcanzable (al_inicio colas queue_preemption)
  sigue : (s t : Sistema) → Alcanzable s → Paso s t → Alcanzable t
