-- ===== src/Ks/Mutex/Secuencia.antt =====
-- Sequences of calls on the mutexes, from the empty list on: kernel_scheduler/src/ks_mutex.c.
use mathlib.Core.Path.{fun_ext}
use ssoo.Common.{
  ◌≡◌, refl, sym, ap, ◌∙◌, Option, none, List, [], ◌∷◌, All, Texto, strcmp, strcmp→eq,
  if◌then◌else◌, Bool-cases, inl, inr,
}
use ssoo.Ks.Mutex.{MutexWaiter, KsMutex, mutexes_init, buscar_mutex}
use ssoo.Ks.Mutex.Colas.{
  Llamada, Respuesta, llamar, LlamadaBien, Colas, nombre_llamado, especificar, colas,
}
use ssoo.Ks.Mutex.Turnos.{Sano}
use ssoo.Ks.Mutex.Refinamiento.{Refina, llamar-Refina}

-- The list after a sequence of calls, and their answers in order.
unfoldable pub llamar_todas : List KsMutex → List Llamada → List KsMutex × List Respuesta
llamar_todas ms [] = (ms, [])
llamar_todas ms (l ∷ ls) =
    let (sigue, r) = llamar ms l in let (final, rs) = llamar_todas sigue ls in (final, r ∷ rs)

-- The queues after one name has been given another.
pub actualizar_cola : Colas → Texto → Option (List MutexWaiter) → Colas
actualizar_cola f n v k = if strcmp n k then v else f k

-- The specification of a sequence of calls.
pub especificar_todas : Colas → List Llamada → Colas × List Respuesta
especificar_todas f [] = (f, [])
especificar_todas f (l ∷ ls) =
    let (v, r) = especificar l (f (nombre_llamado l)) in
    let (final, rs) = especificar_todas (actualizar_cola f (nombre_llamado l) v) ls in
    (final, r ∷ rs)

una :
    (ms : List KsMutex) (l : Llamada)
    → Refina ms l (llamar ms l)
    → colas (llamar ms l).0
      ≡ actualizar_cola
          (colas ms)
          (nombre_llamado l)
          (especificar l (colas ms (nombre_llamado l))).0
unfolding actualizar_cola
una ms l h = fun_ext λ k. elim (Bool-cases (strcmp (nombre_llamado l) k)) [
  | inl q ↦
      rw q (
        ap (colas (llamar ms l).0) (sym (strcmp→eq (nombre_llamado l) k q))
        ∙ ap (λ p. p.0) h.propia)
  | inr q ↦ rw q (h.ajenas k q)
]

todas-Refina :
    (ms : List KsMutex) (ls : List Llamada)
    → All Sano ms
    → All LlamadaBien ls
    → (colas (llamar_todas ms ls).0 ≡ (especificar_todas (colas ms) ls).0)
      × ((llamar_todas ms ls).1 ≡ (especificar_todas (colas ms) ls).1)
      × All Sano (llamar_todas ms ls).0
unfolding llamar_todas especificar_todas
todas-Refina ms [] h k = (refl, refl, h)
todas-Refina ms (l ∷ ls) h (kl, k) =
    let r = llamar-Refina ms l h kl in
    let (a, b, c) = todas-Refina (llamar ms l).0 ls r.sanos k in
    let e : (llamar ms l).1 ≡ (especificar l (colas ms (nombre_llamado l))).1 =
      ap (λ (p : Option (List MutexWaiter) × Respuesta). p.1) r.propia in
    (rw (sym (una ms l r)) a, rw (sym (una ms l r)) (cc (b, e)), c)

-- Any sequence of calls, from the empty list on and for PIDs below 2 ^ 31, gives the results, and
-- the priorities that unlock gives back, of the named FIFO queues that start with no name, and
-- leaves the turns that they leave. The signal of inheritance is no part of these answers.
pub llamar_todas-especificar_todas :
    (ls : List Llamada)
    → All LlamadaBien ls
    → (colas (llamar_todas mutexes_init ls).0 ≡ (especificar_todas (λ n. none) ls).0)
      × ((llamar_todas mutexes_init ls).1 ≡ (especificar_todas (λ n. none) ls).1)
unfolding colas buscar_mutex
llamar_todas-especificar_todas ls h = let (a, b, c) = todas-Refina mutexes_init ls tt h in (a, b)
