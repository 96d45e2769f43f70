-- ===== src/Ks/Mutex/Turnos.antt =====
-- The abstract view of the mutexes, and that view after each write: kernel_scheduler/src/ks_mutex.c.
-- A mutex is the queue of its turns: its owner first, then those that wait, in order of arrival.
use ssoo.Common.{
  ℕ, ◌≡◌, ◌<◌, refl, sym, ap, ◌∙◌, none, some, List, [], ◌∷◌, ◌++◌, All, false, Texto, strcmp,
  strcmp_refl, strcmp_sym, subst, strcmp→eq, if◌then◌else◌, ℤ, pos, negsuc, menos_uno, Bool-cases,
  inl, inr, arith,
}
use ssoo.Ks.Mutex.{MutexWaiter, KsMutex, buscar_mutex, escribir_mutex}

-- A PID that the cast to int keeps.
abbrev pub pid_max : ℕ
pid_max = 2147483648

abbrev pub PidCabe : MutexWaiter → Type 0
PidCabe w = w.pid < pid_max

-- A free mutex has nobody waiting; the owner of a taken one is a PID.
pub data Sano (m : KsMutex) : Type 0 where
  libre :
      m.owner_pid ≡ menos_uno → m.owner_prioridad_original ≡ menos_uno → m.cola_espera ≡ [] → Sano m
  tomado : (n : ℕ) → m.owner_pid ≡ pos n → n < pid_max → All PidCabe m.cola_espera → Sano m

abbrev pub turnos_de : ℤ → ℤ → List MutexWaiter → List MutexWaiter
turnos_de (pos n) prioridad cola = record { pid = n; prioridad = prioridad } ∷ cola
turnos_de (negsuc n) prioridad cola = []

-- The turns of a mutex.
abbrev pub turnos : KsMutex → List MutexWaiter
turnos m = turnos_de m.owner_pid m.owner_prioridad_original m.cola_espera

pub buscar-nombre :
    (ms : List KsMutex) (n : Texto) (m : KsMutex) → buscar_mutex ms n ≡ some m → m.nombre ≡ n
unfolding buscar_mutex
buscar-nombre [] n m e = absurd (cc)
buscar-nombre (a ∷ ms) n m e = elim (Bool-cases (strcmp a.nombre n)) [
  | inl q ↦
      let p : a ≡ m = ground (arith, e, q) in
      ap (λ (x : KsMutex). x.nombre) (sym p) ∙ strcmp→eq a.nombre n q
  | inr q ↦ buscar-nombre ms n m (ground (arith, e, q))
]

pub buscar-Sano :
    (ms : List KsMutex) (n : Texto) (m : KsMutex)
    → All Sano ms
    → buscar_mutex ms n ≡ some m
    → Sano m
unfolding buscar_mutex
buscar-Sano [] n m h e = absurd (cc)
buscar-Sano (a ∷ ms) n m (ha, h) e = elim (Bool-cases (strcmp a.nombre n)) [
  | inl q ↦ let p : a ≡ m = ground (arith, e, q) in subst Sano p ha
  | inr q ↦ buscar-Sano ms n m h (ground (arith, e, q))
]

pub escribir-Sano :
    (ms : List KsMutex) (n : Texto) (nuevo : KsMutex)
    → All Sano ms
    → Sano nuevo
    → All Sano (escribir_mutex ms n nuevo)
unfolding escribir_mutex
escribir-Sano [] n nuevo h k = h
escribir-Sano (a ∷ ms) n nuevo (ha, h) k = elim (Bool-cases (strcmp a.nombre n)) [
  | inl q ↦ rw q (k, h)
  | inr q ↦ rw q (ha, escribir-Sano ms n nuevo h k)
]

-- A write through the pointer is read back under its name.
pub buscar-escribir :
    (ms : List KsMutex) (n : Texto) (m nuevo : KsMutex)
    → buscar_mutex ms n ≡ some m
    → nuevo.nombre ≡ n
    → buscar_mutex (escribir_mutex ms n nuevo) n ≡ some nuevo
unfolding buscar_mutex escribir_mutex
buscar-escribir [] n m nuevo e p = absurd (cc)
buscar-escribir (a ∷ ms) n m nuevo e p = elim (Bool-cases (strcmp a.nombre n)) [
  | inl q ↦ rw (q, p, strcmp_refl n) refl
  | inr q ↦ rw (q, q) (buscar-escribir ms n m nuevo (ground (arith, e, q)) p)
]

-- Under another name it changes nothing.
pub buscar-escribir_otro :
    (ms : List KsMutex) (n k : Texto) (nuevo : KsMutex)
    → nuevo.nombre ≡ n
    → strcmp n k ≡ false
    → buscar_mutex (escribir_mutex ms n nuevo) k ≡ buscar_mutex ms k
unfolding buscar_mutex escribir_mutex
buscar-escribir_otro [] n k nuevo p d = refl
buscar-escribir_otro (a ∷ ms) n k nuevo p d = elim (Bool-cases (strcmp a.nombre n)) [
  | inl q ↦ rw (q, p, d, strcmp→eq a.nombre n q, d) refl
  | inr q ↦ rw (q, buscar-escribir_otro ms n k nuevo p d) refl
]

pub buscar-append :
    (ms : List KsMutex) (nuevo : KsMutex) (k : Texto)
    → buscar_mutex ms nuevo.nombre ≡ none
    → buscar_mutex (ms ++ nuevo ∷ []) k
      ≡ (if strcmp nuevo.nombre k then some nuevo else buscar_mutex ms k)
unfolding buscar_mutex
buscar-append [] nuevo k e = refl
buscar-append (a ∷ ms) nuevo k e = elim (Bool-cases (strcmp a.nombre nuevo.nombre)) [
  | inl q ↦ absurd (ground (arith, e, q))
  | inr q ↦
      let r : buscar_mutex ms nuevo.nombre ≡ none = ground (arith, e, q) in
      elim (Bool-cases (strcmp a.nombre k)) [
        | inl t ↦
            let d : strcmp nuevo.nombre k ≡ false =
              rw (sym (strcmp→eq a.nombre k t)) (strcmp_sym a.nombre nuevo.nombre q) in
            rw (t, d) refl
        | inr t ↦ rw t (buscar-append ms nuevo k r)
      ]
]
