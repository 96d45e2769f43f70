-- ===== src/Ks/Mutex/Herencia.antt =====
-- Priority inheritance: mutex_ks_prioridad_heredada of kernel_scheduler/src/ks_mutex.c.
use ssoo.Common.{
  ℕ, ◌≡◌, refl, sym, ◌∙◌, subst, List, [], ◌∷◌, true, if◌then◌else◌, ℤ, int_eq, int_ltb, int_max,
  a_int, IntLe, IntLe-refl, IntLe-lt, IntLe-trans, Bool-cases, inl, inr, ◌⊎◌,
}
use ssoo.Ks.Mutex.{
  MutexWaiter, KsMutex, mejor_en_cola, mejor_en_mutexes, mutex_ks_prioridad_heredada,
}

-- Somebody in the queue has this priority.
pub data EnCola (z : ℤ) : List MutexWaiter → Type 0 where
  primero : (w : MutexWaiter) (ws : List MutexWaiter) → w.prioridad ≡ z → EnCola z (w ∷ ws)
  despues : (w : MutexWaiter) (ws : List MutexWaiter) → EnCola z ws → EnCola z (w ∷ ws)

-- Somebody with this priority waits for a mutex of the process.
pub data Espera (pid : ℕ) (z : ℤ) : List KsMutex → Type 0 where
  propio :
      (m : KsMutex) (ms : List KsMutex)
      → int_eq m.owner_pid (a_int pid) ≡ true
      → EnCola z m.cola_espera
      → Espera pid z (m ∷ ms)
  otro : (m : KsMutex) (ms : List KsMutex) → Espera pid z ms → Espera pid z (m ∷ ms)

-- The smaller of the priority so far and the next.
paso : (w mejor : ℤ) → IntLe (if int_ltb w mejor then w else mejor) mejor
paso w mejor = elim (Bool-cases (int_ltb w mejor)) [
  | inl q ↦ rw q (IntLe-lt w mejor q)
  | inr q ↦ rw q (IntLe-refl mejor)
]

paso-otro : (w mejor : ℤ) → IntLe (if int_ltb w mejor then w else mejor) w
paso-otro w mejor = elim (Bool-cases (int_ltb w mejor)) [
  | inl q ↦ rw q (IntLe-refl w)
  | inr q ↦ rw q q
]

mejor_en_cola-le : (ws : List MutexWaiter) (mejor : ℤ) → IntLe (mejor_en_cola ws mejor) mejor
unfolding mejor_en_cola
mejor_en_cola-le [] mejor = IntLe-refl mejor
mejor_en_cola-le (w ∷ ws) mejor =
    let sig : ℤ = if int_ltb w.prioridad mejor then w.prioridad else mejor in
    IntLe-trans (mejor_en_cola ws sig) sig mejor (mejor_en_cola-le ws sig) (paso w.prioridad mejor)

mejor_en_cola-EnCola :
    (z : ℤ) (ws : List MutexWaiter) (mejor : ℤ) → EnCola z ws → IntLe (mejor_en_cola ws mejor) z
unfolding mejor_en_cola
mejor_en_cola-EnCola z _ mejor (EnCola.primero w ws e) =
    let sig : ℤ = if int_ltb w.prioridad mejor then w.prioridad else mejor in
    subst (IntLe (mejor_en_cola ws sig)) e (
      IntLe-trans (mejor_en_cola ws sig) sig w.prioridad (mejor_en_cola-le ws sig)
        (paso-otro w.prioridad mejor))
mejor_en_cola-EnCola z _ mejor (EnCola.despues w ws h) =
    mejor_en_cola-EnCola z ws (if int_ltb w.prioridad mejor then w.prioridad else mejor) h

mejor_en_cola-alcanza :
    (ws : List MutexWaiter) (mejor : ℤ)
    → (mejor_en_cola ws mejor ≡ mejor) ⊎ EnCola (mejor_en_cola ws mejor) ws
unfolding mejor_en_cola
mejor_en_cola-alcanza [] mejor = inl refl
mejor_en_cola-alcanza (w ∷ ws) mejor = elim (Bool-cases (int_ltb w.prioridad mejor)) [
  | inl q ↦ rw q (elim (mejor_en_cola-alcanza ws w.prioridad) [
    | inl e ↦ inr (EnCola.primero w ws (sym e))
    | inr e ↦ inr (EnCola.despues w ws e)
  ])
  | inr q ↦ rw q (elim (mejor_en_cola-alcanza ws mejor) [
    | inl e ↦ inl e
    | inr e ↦ inr (EnCola.despues w ws e)
  ])
]

mejor_en_mutexes-le :
    (ms : List KsMutex) (pid : ℕ) (mejor : ℤ) → IntLe (mejor_en_mutexes ms pid mejor) mejor
unfolding mejor_en_mutexes
mejor_en_mutexes-le [] pid mejor = IntLe-refl mejor
mejor_en_mutexes-le (m ∷ ms) pid mejor = elim (Bool-cases (int_eq m.owner_pid (a_int pid))) [
  | inl q ↦ rw q (
      let sig : ℤ = mejor_en_cola m.cola_espera mejor in
      IntLe-trans (mejor_en_mutexes ms pid sig) sig mejor (mejor_en_mutexes-le ms pid sig)
        (mejor_en_cola-le m.cola_espera mejor))
  | inr q ↦ rw q (mejor_en_mutexes-le ms pid mejor)
]

mejor_en_mutexes-Espera :
    (pid : ℕ) (z : ℤ) (ms : List KsMutex) (mejor : ℤ)
    → Espera pid z ms
    → IntLe (mejor_en_mutexes ms pid mejor) z
unfolding mejor_en_mutexes
mejor_en_mutexes-Espera pid z _ mejor (Espera.propio m ms q h) = rw q (
    let sig : ℤ = mejor_en_cola m.cola_espera mejor in
    IntLe-trans (mejor_en_mutexes ms pid sig) sig z (mejor_en_mutexes-le ms pid sig)
      (mejor_en_cola-EnCola z m.cola_espera mejor h))
mejor_en_mutexes-Espera pid z _ mejor (Espera.otro m ms h) =
    mejor_en_mutexes-Espera pid z ms
      (if int_eq m.owner_pid (a_int pid) then mejor_en_cola m.cola_espera mejor else mejor) h

mejor_en_mutexes-alcanza :
    (ms : List KsMutex) (pid : ℕ) (mejor : ℤ)
    → (mejor_en_mutexes ms pid mejor ≡ mejor) ⊎ Espera pid (mejor_en_mutexes ms pid mejor) ms
unfolding mejor_en_mutexes
mejor_en_mutexes-alcanza [] pid mejor = inl refl
mejor_en_mutexes-alcanza (m ∷ ms) pid mejor = elim (Bool-cases (int_eq m.owner_pid (a_int pid))) [
  | inl q ↦ rw q (elim (mejor_en_mutexes-alcanza ms pid (mejor_en_cola m.cola_espera mejor)) [
    | inr e ↦ inr (Espera.otro m ms e)
    | inl e ↦ elim (mejor_en_cola-alcanza m.cola_espera mejor) [
      | inl d ↦ inl (e ∙ d)
      | inr d ↦ inr (Espera.propio m ms q (subst (λ (z : ℤ). EnCola z m.cola_espera) (sym e) d))
    ]
  ])
  | inr q ↦ rw q (elim (mejor_en_mutexes-alcanza ms pid mejor) [
    | inl e ↦ inl e
    | inr e ↦ inr (Espera.otro m ms e)
  ])
]

-- The inherited priority is at most INT_MAX and at most the priority of every process that waits
-- for a mutex of the process. It is INT_MAX or the priority of one that waits.
pub mutex_ks_prioridad_heredada-Espera :
    (ms : List KsMutex) (pid : ℕ)
    → IntLe (mutex_ks_prioridad_heredada ms pid) int_max
      × ((z : ℤ) → Espera pid z ms → IntLe (mutex_ks_prioridad_heredada ms pid) z)
      × ((mutex_ks_prioridad_heredada ms pid ≡ int_max)
          ⊎ Espera pid (mutex_ks_prioridad_heredada ms pid) ms)
unfolding mutex_ks_prioridad_heredada
mutex_ks_prioridad_heredada-Espera ms pid = (
  mejor_en_mutexes-le ms pid int_max,
  (λ z. mejor_en_mutexes-Espera pid z ms int_max),
  mejor_en_mutexes-alcanza ms pid int_max,
)
