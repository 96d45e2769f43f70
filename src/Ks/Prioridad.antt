-- ===== src/Ks/Prioridad.antt =====
-- The effective priority of a process that owns mutexes: kernel_scheduler/src/main.c,
-- buscar_proceso_activo to recalcular_prioridad_efectiva, and ks_queue_search.c.
-- A pointer to a process is its PID with the fields it has: a write through it reaches the process
-- with that PID in whichever queue it stands. The locks make each operation a step, and the logs are
-- left out.
pub mod Busqueda
pub mod Niveles
pub mod Quitar
pub mod Empuje
pub mod Cambio
pub mod Efectiva
use ssoo.Common.{
  ℕ, ◌-◌, Option, none, some, List, [], ◌∷◌, ◌++◌, length, Bool, true, false, ◌&&◌, ltb, Texto,
  codes, strcmp, if◌then◌else◌, ℤ, pos, negsuc, int_eq, int_ltb,
}
use ssoo.Ks.Mutex.{KsMutex, mutex_ks_prioridad_heredada}
use ssoo.Ks.Planificador.{Proceso, EstadoKs, en_nivel, separar}

abbrev pub max_colas : ℕ
max_colas = 16

-- The queues in which a process with an owner's rights may stand, and the algorithm.
pub record EstadoProcesos : Type 0 where
  pub algoritmo : Texto
  pub ks : EstadoKs
  pub cola_block : List Proceso
  pub cola_susp_block : List Proceso
  pub cola_susp_ready : List Proceso

unfoldable pub sacar_de_susp_block : List Proceso → ℤ → Option Proceso × List Proceso
sacar_de_susp_block cola_susp_block pid = separar pid cola_susp_block none []

unfoldable pub buscar_pid_en_queue : List Proceso → ℤ → Option Proceso
buscar_pid_en_queue [] pid = none
buscar_pid_en_queue (p ∷ c) pid = if int_eq p.pid pid then some p else buscar_pid_en_queue c pid

-- `if (p) return p;` before the next search.
abbrev pub o_bien : Option Proceso → Option Proceso → Option Proceso
o_bien none q = q
o_bien (some p) q = some p

-- The search through the ready queues, level by level.
unfoldable pub buscar_en_niveles : List (List Proceso) → ℤ → Option Proceso
buscar_en_niveles [] pid = none
buscar_en_niveles (c ∷ cs) pid = o_bien (buscar_pid_en_queue c pid) (buscar_en_niveles cs pid)

unfoldable pub buscar_proceso_activo : EstadoProcesos → ℤ → Option Proceso
buscar_proceso_activo s pid = o_bien (buscar_pid_en_queue s.ks.cola_exec pid) (
    o_bien (buscar_en_niveles s.ks.colas_ready pid) (
      o_bien (buscar_pid_en_queue s.cola_block pid) (
        o_bien (buscar_pid_en_queue s.cola_susp_block pid)
          (buscar_pid_en_queue s.cola_susp_ready pid))))

-- A queue after `proc->prioridad = nueva_prioridad`.
unfoldable pub con_prioridad : ℤ → ℤ → List Proceso → List Proceso
con_prioridad pid nueva [] = []
con_prioridad pid nueva (p ∷ c) =
    (if int_eq p.pid pid then record p { prioridad = nueva } else p) ∷ con_prioridad pid nueva c

unfoldable pub con_prioridad_niveles : ℤ → ℤ → List (List Proceso) → List (List Proceso)
con_prioridad_niveles pid nueva [] = []
con_prioridad_niveles pid nueva (c ∷ cs) =
    con_prioridad pid nueva c ∷ con_prioridad_niveles pid nueva cs

-- All queues after that write.
abbrev pub escribir_prioridad : EstadoProcesos → ℤ → ℤ → EstadoProcesos
escribir_prioridad s pid nueva = record s {
  ks = record s.ks {
    colas_ready = con_prioridad_niveles pid nueva s.ks.colas_ready;
    cola_exec = con_prioridad pid nueva s.ks.cola_exec;
  };
  cola_block = con_prioridad pid nueva s.cola_block;
  cola_susp_block = con_prioridad pid nueva s.cola_susp_block;
  cola_susp_ready = con_prioridad pid nueva s.cola_susp_ready;
}

-- list_remove_element on one queue: the queue without the process, if it stood there.
unfoldable pub quitar : List Proceso → ℤ → Option (List Proceso)
quitar [] pid = none
quitar (p ∷ c) pid =
    let resto = quitar c pid in
    if int_eq p.pid pid then some c else elim resto [ none ↦ none | some d ↦ some (p ∷ d) ]

-- One round of the loop over the ready queues: this queue without the process, or the rest.
abbrev pub o_el_resto :
    List Proceso
    → List (List Proceso)
    → Option (List Proceso)
    → Option (List (List Proceso))
    → Option (List (List Proceso))
o_el_resto c cs (some d) resto = some (d ∷ cs)
o_el_resto c cs none none = none
o_el_resto c cs none (some ds) = some (c ∷ ds)

-- The loop, up to the queue that has the process.
unfoldable pub quitar_de_niveles : List (List Proceso) → ℤ → Option (List (List Proceso))
quitar_de_niveles [] pid = none
quitar_de_niveles (c ∷ cs) pid = o_el_resto c cs (quitar c pid) (quitar_de_niveles cs pid)

-- `0 <= z && z < n_colas`
abbrev pub es_nivel : ℕ → ℤ → Bool
es_nivel n_colas (pos k) = ltb k n_colas
es_nivel n_colas (negsuc k) = false

-- The index of a valid level.
abbrev pub nivel_natural : ℤ → ℕ
nivel_natural (pos k) = k
nivel_natural (negsuc k) = 0

abbrev pub mover_a_nivel :
    EstadoProcesos → Proceso → ℤ → Option (List (List Proceso)) → EstadoProcesos
mover_a_nivel s p nueva none = escribir_prioridad s p.pid nueva
mover_a_nivel s p nueva (some niveles) =
    let t =
      escribir_prioridad (record s { ks = record s.ks { colas_ready = niveles } }) p.pid nueva in
    record t {
      ks = record t.ks {
        colas_ready =
            en_nivel (λ c. c ++ record p { prioridad = nueva } ∷ []) (nivel_natural nueva)
              t.ks.colas_ready;
      };
    }

unfoldable pub aplicar_cambio_prioridad : EstadoProcesos → Option Proceso → ℤ → EstadoProcesos
aplicar_cambio_prioridad s none nueva = s
aplicar_cambio_prioridad s (some p) nueva =
    if int_eq p.prioridad nueva
    then s
    else if strcmp s.algoritmo (codes "CMN") && es_nivel (length s.ks.colas_ready) nueva
    then mover_a_nivel s p nueva (quitar_de_niveles s.ks.colas_ready p.pid)
    else escribir_prioridad s p.pid nueva

-- `(uint32_t)proc->PID`
abbrev pub pid_uint32 : ℤ → ℕ
pid_uint32 (pos n) = n
pid_uint32 (negsuc n) = 4294967295 - n

-- The better of the base priority and the inherited one.
abbrev pub prioridad_efectiva : List KsMutex → Proceso → ℤ
prioridad_efectiva ms p =
    let heredada = mutex_ks_prioridad_heredada ms (pid_uint32 p.pid) in
    if int_ltb heredada p.prioridad_base then heredada else p.prioridad_base

unfoldable pub recalcular_prioridad_efectiva :
    EstadoProcesos → List KsMutex → Option Proceso → EstadoProcesos
recalcular_prioridad_efectiva s ms none = s
recalcular_prioridad_efectiva s ms (some p) =
    let efectiva = prioridad_efectiva ms p in
    if int_eq efectiva p.prioridad then s else aplicar_cambio_prioridad s (some p) efectiva
