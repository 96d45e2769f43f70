-- ===== src/Ensayos/Prioridad.antt =====
-- Tests of the effective priorities: kernel_scheduler/src/main.c.
use ssoo.Common.{◌≡◌, refl, some, List, [], ◌∷◌, false, codes, strcmp, ℤ, pos, menos_uno, arith}
use ssoo.Ks.Mutex.{KsMutex}
use ssoo.Ks.Planificador.{Estado, Proceso, nivel_de}
use ssoo.Ks.Prioridad.{
  EstadoProcesos, buscar_pid_en_queue, buscar_en_niveles, buscar_proceso_activo,
  recalcular_prioridad_efectiva,
}
use ssoo.Ks.Prioridad.Niveles.{veces, veces_niveles}
use ssoo.Ks.Prioridad.Quitar.{Colocados}
use ssoo.Ks.Prioridad.Cambio.{Cambiado}
use ssoo.Ks.Prioridad.Efectiva.{Efectiva, recalcular_prioridad_efectiva-Cambiado}

abbrev duenio : Proceso
duenio = record {
  pid = pos 1;
  estado = Estado.ready;
  prioridad = pos 1;
  prioridad_base = pos 1;
  fd_cpu = menos_uno;
  preemptado = false;
  gen_despacho = 0;
  gen_bloqueo = 0;
}

abbrev mutexes : List KsMutex
mutexes =
    record {
      nombre = codes "m";
      owner_pid = pos 1;
      owner_prioridad_original = pos 1;
      cola_espera = record { pid = 4; prioridad = pos 0 } ∷ [];
    }
    ∷ []

abbrev procesos : EstadoProcesos
procesos = record {
  algoritmo = codes "CMN";
  ks = record {
    colas_ready = [] ∷ (duenio ∷ []) ∷ [];
    cola_exec = [];
    lista_cpus = [];
    queue_preemption = false;
    enviados = [];
  };
  cola_block = [];
  cola_susp_block = [];
  cola_susp_ready = [];
}

en_su_cola : Colocados 2 0 procesos.ks.colas_ready
unfolding nivel_de
en_su_cola = (tt, ((refl, tt), tt))

hallado : buscar_proceso_activo procesos (pos 1) ≡ some duenio
unfolding buscar_proceso_activo buscar_en_niveles buscar_pid_en_queue
hallado = refl

una_vez : veces_niveles (pos 1) procesos.ks.colas_ready ≡ 1
unfolding veces_niveles veces
una_vez = refl

recalcular_prioridad_efectiva-Cambiado_example :
    (efectiva : ℤ) × Efectiva mutexes duenio efectiva
    × Cambiado procesos duenio efectiva
        (recalcular_prioridad_efectiva procesos mutexes (some duenio))
unfolding strcmp
recalcular_prioridad_efectiva-Cambiado_example =
    recalcular_prioridad_efectiva-Cambiado procesos mutexes duenio refl (omega arith) en_su_cola
      hallado (let e = una_vez in omega arith) refl ((refl, tt), tt)
