-- ===== src/Ks/Planificador.antt =====
-- The ready queues and the dispatch: kernel_scheduler/src/main.c and proceso.h.
-- The state is that of the queues, of the CPUs and of the running processes, with the messages sent
-- to the CPUs. The locks make each operation one step; logs, timers and semaphores are left out. A
-- process stands in one queue at a time, so the pointer in the queue is modelled by its value.
pub mod Desalojo
pub mod Regreso
pub mod Seleccion
use ssoo.Common.{
  ℕ, zero, suc, ◌+◌, ◌-◌, Option, none, some, List, [], ◌∷◌, ◌++◌, length, Bool, true, false, not,
  ◌&&◌, ◌||◌, leb, ltb, ◌==◌, Texto, codes, strcmp, if◌then◌else◌, ℤ, pos, negsuc, menos_uno,
  int_eq, int_ltb, get_elem?, set,
}

pub data Estado : Type 0 where
  new ready exec block susp_block susp_ready exit : Estado

-- The fields of t_proceso that the queues and the dispatch use.
pub record Proceso : Type 0 where
  pub pid : ℤ
  pub estado : Estado
  pub prioridad : ℤ
  pub prioridad_base : ℤ
  pub fd_cpu : ℤ
  pub preemptado : Bool
  pub gen_despacho : ℕ
  pub gen_bloqueo : ℕ

pub record CpuEntry : Type 0 where
  pub fd : ℤ
  pub ocupada : Bool

-- A message sent to the CPU behind a descriptor.
pub data Envio : Type 0 where
  despachar_proceso : (fd pid : ℤ) → Envio
  interrupcion_desalojo : (fd pid : ℤ) → Envio

pub record EstadoKs : Type 0 where
  pub colas_ready : List (List Proceso)
  pub cola_exec : List Proceso
  pub lista_cpus : List CpuEntry
  pub queue_preemption : Bool
  pub enviados : List Envio

-- The level of a priority among `n_colas` queues.
unfoldable pub nivel_de : ℕ → ℤ → ℕ
nivel_de n_colas (negsuc p) = n_colas - 1
nivel_de n_colas (pos p) = if leb n_colas p then n_colas - 1 else p

-- The queues with the one at a level changed.
unfoldable pub en_nivel :
    (List Proceso → List Proceso) → ℕ → List (List Proceso) → List (List Proceso)
en_nivel f n [] = []
en_nivel f zero (c ∷ cs) = f c ∷ cs
en_nivel f (suc n) (c ∷ cs) = c ∷ en_nivel f n cs

unfoldable pub encolar_al_frente_en_ready : EstadoKs → Proceso → EstadoKs
encolar_al_frente_en_ready s p = record s {
  colas_ready = en_nivel (λ c. p ∷ c) (nivel_de (length s.colas_ready) p.prioridad) s.colas_ready;
}

pub hay_cpu_libre : List CpuEntry → Bool
hay_cpu_libre [] = false
hay_cpu_libre (c ∷ cs) = not c.ocupada || hay_cpu_libre cs

-- The test of the loop of verificar_preemption on one running process.
abbrev pub es_victima : ℤ → Proceso → Option Proceso → Bool
es_victima entrante p none = not p.preemptado && int_ltb entrante p.prioridad
es_victima entrante p (some v) =
    not p.preemptado && (int_ltb entrante p.prioridad && int_ltb v.prioridad p.prioridad)

-- The loop: the victim so far, then the rest of the queue.
pub elegir_victima : ℤ → List Proceso → Option Proceso → Option Proceso
elegir_victima entrante [] victima = victima
elegir_victima entrante (p ∷ ps) victima =
    elegir_victima entrante ps (if es_victima entrante p victima then some p else victima)

-- The queue after `victima->preemptado = 1`, for the process with the PID of the victim.
unfoldable pub marcar : ℤ → List Proceso → List Proceso
marcar pid [] = []
marcar pid (p ∷ ps) =
    if int_eq p.pid pid then record p { preemptado = true } ∷ ps else p ∷ marcar pid ps

-- The victim is marked and its CPU interrupted.
abbrev pub desalojar : EstadoKs → Option Proceso → EstadoKs
desalojar s none = s
desalojar s (some v) = record s {
  cola_exec = marcar v.pid s.cola_exec;
  enviados = s.enviados ++ interrupcion_desalojo v.fd_cpu v.pid ∷ [];
}

unfoldable pub verificar_preemption : EstadoKs → Proceso → EstadoKs
verificar_preemption s entrante =
    if not s.queue_preemption
    then s
    else if hay_cpu_libre s.lista_cpus
    then s
    else desalojar s (elegir_victima entrante.prioridad s.cola_exec none)

unfoldable pub encolar_en_ready : EstadoKs → Proceso → EstadoKs
encolar_en_ready s p =
    verificar_preemption
      (record s {
        colas_ready =
            en_nivel (λ c. c ++ p ∷ []) (nivel_de (length s.colas_ready) p.prioridad) s.colas_ready;
      })
      p

-- The search for the first queue that is not empty: its level, its first process and the queues
-- without that process.
unfoldable pub elegir : List (List Proceso) → Option (ℕ × Proceso × List (List Proceso))
elegir [] = none
elegir ((p ∷ c) ∷ cs) = some (zero, p, c ∷ cs)
elegir ([] ∷ cs) = elim (elegir cs) [
  | none ↦ none
  | some (n, p, resto) ↦ some (suc n, p, [] ∷ resto)
]

-- The first CPU that is free, and the list with that CPU taken.
unfoldable pub tomar_cpu : List CpuEntry → Option (ℤ × List CpuEntry)
tomar_cpu [] = none
tomar_cpu (c ∷ cs) =
    let resto = tomar_cpu cs in
    if not c.ocupada
    then some (c.fd, record c { ocupada = true } ∷ cs)
    else elim resto [ none ↦ none | some (fd, libres) ↦ some (fd, c ∷ libres) ]

unfoldable pub despachar : EstadoKs → Proceso → ℤ → EstadoKs
despachar s p fd = record s {
  cola_exec =
      s.cola_exec
      ++ record p { estado = exec; fd_cpu = fd; gen_despacho = p.gen_despacho + 1 } ∷ [];
  enviados = s.enviados ++ despachar_proceso fd p.pid ∷ [];
}

-- One round of thread_planificador after its waits, when there is no BSOD.
unfoldable pub planificar : EstadoKs → EstadoKs
planificar s = elim (elegir s.colas_ready) [
  | none ↦ s
  | some (nivel, p, resto) ↦ elim (tomar_cpu s.lista_cpus) [
    | some (fd, cpus) ↦ despachar (record s { colas_ready = resto; lista_cpus = cpus }) p fd
    | none ↦ record s { colas_ready = en_nivel (λ c. p ∷ c) nivel resto }
  ]
]

-- The first CPU with a descriptor, free again.
unfoldable pub liberar_cpu : ℤ → List CpuEntry → List CpuEntry
liberar_cpu fd [] = []
liberar_cpu fd (c ∷ cs) =
    if int_eq c.fd fd then record c { ocupada = false } ∷ cs else c ∷ liberar_cpu fd cs

-- The loop that turns the queue once: the last process with the PID, and the others in order.
unfoldable pub separar :
    ℤ → List Proceso → Option Proceso → List Proceso → Option Proceso × List Proceso
separar pid [] hallado otros = (hallado, otros)
separar pid (q ∷ qs) hallado otros =
    separar pid qs (if int_eq q.pid pid then some q else hallado)
      (if int_eq q.pid pid then otros else otros ++ q ∷ [])

-- The process that was found leaves with no CPU, and the CPU it had is free again; the semaphore
-- of a compaction is left out.
abbrev pub salir_de_exec : EstadoKs → Option Proceso × List Proceso → Option Proceso × EstadoKs
salir_de_exec s (none, otros) = (none, record s { cola_exec = otros })
salir_de_exec s (some p, otros) = (
  some (record p { fd_cpu = menos_uno }),
  record s { cola_exec = otros; lista_cpus = liberar_cpu p.fd_cpu s.lista_cpus },
)

unfoldable pub sacar_de_exec : EstadoKs → ℤ → Option Proceso × EstadoKs
sacar_de_exec s pid = salir_de_exec s (separar pid s.cola_exec none [])
