-- ===== src/Ks/Mutex/Espera.antt =====
-- How long a process waits for a mutex: kernel_scheduler/src/ks_mutex.c.
use ssoo.Common.{
  ℕ, suc, ◌+◌, ◌≤◌, ◌≡◌, refl, sym, ap, ◌∙◌, ◌⊎◌, inl, inr, Option, some, List, [], ◌∷◌, ◌++◌,
  append_assoc, All, length, Texto, strcmp, strcmp→eq, strcmp_refl, ◌==◌, Bool, Bool-cases, false,
  uno_si, uno_si-le, not, ◌&&◌, menos_uno, int_eq, arith,
}
use ssoo.Ks.Mutex.{MutexWaiter, KsMutex}
use ssoo.Ks.Mutex.Turnos.{Sano}
use ssoo.Ks.Mutex.Colas.{
  Llamada, crear, tomar, soltar, Respuesta, llamar, LlamadaBien, nombre_llamado, especificar, colas,
}
use ssoo.Ks.Mutex.Refinamiento.{Refina, llamar-Refina}
use ssoo.Ks.Mutex.Secuencia.{llamar_todas}

-- The call has handed the mutex of that name to a process that waited.
abbrev pub es_entrega : Texto → Llamada → Respuesta → Bool
es_entrega n (crear m) r = false
es_entrega n (tomar pid prioridad m) r = false
es_entrega n (soltar pid m) r = strcmp m n && not (int_eq r.resultado menos_uno)

-- The hand-overs of a mutex in a sequence of calls.
unfoldable pub entregas : Texto → List KsMutex → List Llamada → ℕ
entregas n ms [] = 0
entregas n ms (l ∷ ls) = uno_si (es_entrega n l (llamar ms l).1) + entregas n (llamar ms l).0 ls

-- After a call, `w` has lost the turn before it by a hand-over, or there was none and it stands where
-- it stood.
abbrev Avanza :
    MutexWaiter → List MutexWaiter → MutexWaiter → Bool → Option (List MutexWaiter) → Type 0
Avanza v ante w entrega cola =
    (post : List MutexWaiter) × ((cola ≡ some (ante ++ w ∷ post))
      ⊎ ((entrega ≡ false) × (cola ≡ some (v ∷ (ante ++ w ∷ post)))))

especificar-Avanza :
    (l : Llamada) (v : MutexWaiter) (ante : List MutexWaiter) (w : MutexWaiter)
    (post : List MutexWaiter)
    → let s = especificar l (some (v ∷ (ante ++ w ∷ post))) in
      Avanza v ante w (es_entrega (nombre_llamado l) l s.1) s.0
unfolding especificar nombre_llamado
especificar-Avanza (crear n) v ante w post = (post, inr (refl, refl))
especificar-Avanza (tomar pid prioridad n) v ante w post =
    let x : MutexWaiter = record { pid = pid; prioridad = prioridad } in
    (
      post ++ x ∷ [],
      inr (
        refl,
        ap (λ (t : List MutexWaiter). some (v ∷ t)) (append_assoc ante (w ∷ post) (x ∷ [])),
      ),
    )
especificar-Avanza (soltar pid n) v ante w post = elim (Bool-cases (v.pid == pid)) [
  | inl e ↦ (post, inl (rw e refl))
  | inr e ↦ (post, inr (rw (e, strcmp_refl n) (refl, refl)))
]

ajena :
    (n : Texto) (l : Llamada) (r : Respuesta)
    → strcmp (nombre_llamado l) n ≡ false
    → es_entrega n l r ≡ false
unfolding nombre_llamado
ajena n (crear m) r d = refl
ajena n (tomar pid prioridad m) r d = refl
ajena n (soltar pid m) r d = rw d refl

-- One call moves a process that waits by at most the hand-over it makes.
llamar-Avanza :
    (n : Texto) (ms : List KsMutex) (l : Llamada) (v : MutexWaiter) (ante : List MutexWaiter)
    (w : MutexWaiter) (post : List MutexWaiter)
    → Refina ms l (llamar ms l)
    → colas ms n ≡ some (v ∷ (ante ++ w ∷ post))
    → Avanza v ante w (es_entrega n l (llamar ms l).1) (colas (llamar ms l).0 n)
llamar-Avanza n ms l v ante w post h e = elim (Bool-cases (strcmp (nombre_llamado l) n)) [
  | inr d ↦ (post, inr (ajena n l (llamar ms l).1 d, h.ajenas n d ∙ e))
  | inl q ↦
      let nombre : nombre_llamado l ≡ n = strcmp→eq (nombre_llamado l) n q in
      let s = especificar l (some (v ∷ (ante ++ w ∷ post))) in
      let p : (colas (llamar ms l).0 n, (llamar ms l).1) ≡ s =
        rw (sym nombre) (h.propia ∙ ap (especificar l) (ap (colas ms) nombre ∙ e)) in
      let c : colas (llamar ms l).0 n ≡ s.0 =
        ap (λ (t : Option (List MutexWaiter) × Respuesta). t.0) p in
      let r : (llamar ms l).1 ≡ s.1 = ap (λ (t : Option (List MutexWaiter) × Respuesta). t.1) p in
      rw (c, r, sym nombre) (especificar-Avanza l v ante w post)
]

-- On sound mutexes and for PIDs below 2 ^ 31, a process that waits for a mutex behind some others gets
-- it in any sequence of calls that hands the mutex over as often as there are processes before it:
-- some beginning of the sequence leaves it first in the queue of turns, which is the owner.
pub entregas-turno :
    (n : Texto) (w : MutexWaiter) (ls : List Llamada) (ms : List KsMutex)
    (ante post : List MutexWaiter)
    → All Sano ms
    → All LlamadaBien ls
    → colas ms n ≡ some (ante ++ w ∷ post)
    → length ante ≤ entregas n ms ls
    → (antes despues : List Llamada) × (resto : List MutexWaiter) × (ls ≡ antes ++ despues)
      × (colas (llamar_todas ms antes).0 n ≡ some (w ∷ resto))
unfolding entregas llamar_todas
entregas-turno n w ls ms [] post h k e c = ([], ls, post, refl, e)
entregas-turno n w [] ms (v ∷ ante) post h k e c = absurd (omega arith)
entregas-turno n w (l ∷ ls) ms (v ∷ ante) post h (kl, k) e c =
    let r = llamar-Refina ms l h kl in
    let sigue : List KsMutex = (llamar ms l).0 in
    let b : Bool = es_entrega n l (llamar ms l).1 in
    let cabe : uno_si b ≤ 1 = uno_si-le b in
    let (post', avanza) = llamar-Avanza n ms l v ante w post r e in
    elim avanza [
      | inl e' ↦
          let (as1, ds, resto, p, q) =
            entregas-turno n w ls sigue ante post' r.sanos k e' (omega arith) in
          (l ∷ as1, ds, resto, ap (λ (t : List Llamada). l ∷ t) p, q)
      | inr (nada, e') ↦
          let cero : uno_si b ≡ 0 = ap uno_si nada in
          let c' : suc (length ante) ≤ entregas n sigue ls = omega arith in
          let (as1, ds, resto, p, q) =
            entregas-turno n w ls sigue (v ∷ ante) post' r.sanos k e' c' in
          (l ∷ as1, ds, resto, ap (λ (t : List Llamada). l ∷ t) p, q)
    ]
