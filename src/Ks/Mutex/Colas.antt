-- ===== src/Ks/Mutex/Colas.antt =====
-- The calls of the mutex module and their specification by queues of turns:
-- kernel_scheduler/src/ks_mutex.c.
use ssoo.Common.{
  ℕ, ◌<◌, Option, none, some, List, [], ◌∷◌, ◌++◌, Texto, if◌then◌else◌, ℤ, pos, menos_uno, ◌==◌,
}
use ssoo.Ks.Mutex.{
  MutexWaiter, KsMutex, buscar_mutex, mutex_ks_create, mutex_ks_lock, mutex_ks_unlock,
}
use ssoo.Ks.Mutex.Turnos.{pid_max, turnos}

-- A call of the module.
pub data Llamada : Type 0 where
  crear : Texto → Llamada
  tomar : ℕ → ℤ → Texto → Llamada
  soltar : ℕ → Texto → Llamada

-- The result of a call, and the priority that unlock gives back to its caller; -1 stands for none.
pub record Respuesta : Type 0 where
  pub resultado : ℤ
  pub prioridad_restaurar : ℤ

-- The answer of a call that has only its result to tell.
abbrev pub sola : ℤ → Respuesta
sola z = record { resultado = z; prioridad_restaurar = menos_uno }

-- The list after a call, and its answer. The signal of lock to its caller is in Avisos.
unfoldable pub llamar : List KsMutex → Llamada → List KsMutex × Respuesta
llamar ms (crear n) = let (l, z) = mutex_ks_create ms n in (l, sola z)
llamar ms (tomar pid prioridad n) =
    let s = mutex_ks_lock ms pid prioridad n in (s.mutexes, sola s.resultado)
llamar ms (soltar pid n) =
    let s = mutex_ks_unlock ms pid n in
    (s.mutexes, record { resultado = s.resultado; prioridad_restaurar = s.prioridad_restaurar })

abbrev pub LlamadaBien : Llamada → Type 0
LlamadaBien (crear n) = Unit {0}
LlamadaBien (tomar pid prioridad n) = pid < pid_max
LlamadaBien (soltar pid n) = pid < pid_max

-- The specification: each name has a queue of turns, or is no mutex.
abbrev pub Colas : Type 0
Colas = Texto → Option (List MutexWaiter)

abbrev pub crear_cola : Option (List MutexWaiter) → Option (List MutexWaiter) × Respuesta
crear_cola none = (some [], sola (pos 0))
crear_cola (some t) = (some t, sola menos_uno)

abbrev pub tomar_cola :
    MutexWaiter → Option (List MutexWaiter) → Option (List MutexWaiter) × Respuesta
tomar_cola w none = (none, sola menos_uno)
tomar_cola w (some []) = (some (w ∷ []), sola (pos 0))
tomar_cola w (some (v ∷ t)) = (some (v ∷ t ++ w ∷ []), sola (pos 1))

-- The result of a hand-over: the PID of the new owner, or -1.
abbrev pub heredero : List MutexWaiter → ℤ
heredero [] = menos_uno
heredero (w ∷ t) = pos w.pid

abbrev pub soltar_cola : ℕ → Option (List MutexWaiter) → Option (List MutexWaiter) × Respuesta
soltar_cola pid none = (none, sola menos_uno)
soltar_cola pid (some []) = (some [], sola menos_uno)
soltar_cola pid (some (v ∷ t)) =
    if v.pid == pid
    then (some t, record { resultado = heredero t; prioridad_restaurar = v.prioridad })
    else (some (v ∷ t), sola menos_uno)

unfoldable pub nombre_llamado : Llamada → Texto
nombre_llamado (crear n) = n
nombre_llamado (tomar pid prioridad n) = n
nombre_llamado (soltar pid n) = n

unfoldable pub especificar :
    Llamada → Option (List MutexWaiter) → Option (List MutexWaiter) × Respuesta
especificar (crear n) = crear_cola
especificar (tomar pid prioridad n) = tomar_cola (record { pid = pid; prioridad = prioridad })
especificar (soltar pid n) = soltar_cola pid

abbrev pub turnos_opcion : Option KsMutex → Option (List MutexWaiter)
turnos_opcion none = none
turnos_opcion (some m) = some (turnos m)

-- The abstract view of the list.
unfoldable pub colas : List KsMutex → Colas
colas ms n = turnos_opcion (buscar_mutex ms n)
