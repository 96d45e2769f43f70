-- ===== src/Ks/Bloqueo.antt =====
-- The queue of the blocked processes: mover_a_block, sacar_de_block and sacar_de_block_generacion of
-- kernel_scheduler/src/main.c. The lock of the queue makes each a step; that a timer is created is
-- assumed, and the signal to the planner is left out.
pub mod Generaciones
use ssoo.Common.{
  ℕ, ◌+◌, Option, none, some, List, [], ◌∷◌, ◌++◌, Bool, true, false, ◌&&◌, ◌==◌, if◌then◌else◌, ℤ,
  int_eq,
}
use ssoo.Ks.Planificador.{Estado, Proceso, separar}

-- The process and the generation that a suspension timer waits for.
pub record SuspensionArgs : Type 0 where
  pub pid : ℤ
  pub gen_bloqueo : ℕ

-- The process as it stands in the queue.
abbrev pub bloqueado : Proceso → Proceso
bloqueado p = record p {
  preemptado = false;
  gen_bloqueo = p.gen_bloqueo + 1;
  estado = Estado.block;
}

-- The queue, and the arguments of the timer that is started.
unfoldable pub mover_a_block : List Proceso → Proceso → List Proceso × SuspensionArgs
mover_a_block cola_block p =
    let b = bloqueado p in
    (cola_block ++ b ∷ [], record { pid = b.pid; gen_bloqueo = b.gen_bloqueo })

-- The end of an IO takes the process out whatever its generation.
unfoldable pub sacar_de_block : List Proceso → ℤ → Option Proceso × List Proceso
sacar_de_block cola_block pid = separar pid cola_block none []

abbrev pub falta : Option Proceso → Bool
falta none = true
falta (some p) = false

-- The loop of a timer: the first process with the PID and the generation, and the others in order.
pub separar_generacion :
    ℤ → ℕ → List Proceso → Option Proceso → List Proceso → Option Proceso × List Proceso
separar_generacion pid gen [] hallado otros = (hallado, otros)
separar_generacion pid gen (q ∷ qs) hallado otros =
    let este = falta hallado && (int_eq q.pid pid && q.gen_bloqueo == gen) in
    separar_generacion pid gen qs (if este then some q else hallado)
      (if este then otros else otros ++ q ∷ [])

unfoldable pub sacar_de_block_generacion :
    List Proceso → SuspensionArgs → Option Proceso × List Proceso
sacar_de_block_generacion cola_block t = separar_generacion t.pid t.gen_bloqueo cola_block none []
