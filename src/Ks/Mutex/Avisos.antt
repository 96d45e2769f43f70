-- ===== src/Ks/Mutex/Avisos.antt =====
-- The signal of mutex_ks_lock to its caller: kernel_scheduler/src/ks_mutex.c, ks_mutex.h and
-- kernel_scheduler/tests/test_ks_mutex.c.
use ssoo.Common.{
  ℕ, ◌≡◌, ◌↔◌, refl, ap, Option, none, some, List, [], ◌∷◌, All, Bool, false, not, Texto,
  if◌then◌else◌, ℤ, pos, negsuc, menos_uno, int_ltb, Bool-cases, Option-cases, inl, inr,
}
use ssoo.Ks.Mutex.{MutexWaiter, KsMutex, buscar_mutex, mutex_ks_lock}
use ssoo.Ks.Mutex.Turnos.{Sano, buscar-Sano}
use ssoo.Ks.Mutex.Colas.{Llamada, crear, tomar, soltar, llamar, LlamadaBien, nombre_llamado, colas}
use ssoo.Ks.Mutex.Refinamiento.{Refina, llamar-Refina}

-- The two output parameters of mutex_ks_lock.
pub record Aviso : Type 0 where
  pub owner_a_elevar : ℤ
  pub nueva_prioridad_owner : ℤ

abbrev pub sin_aviso : Aviso
sin_aviso = record { owner_a_elevar = menos_uno; nueva_prioridad_owner = menos_uno }

-- The signal of a call; only lock has one.
unfoldable pub avisar : List KsMutex → Llamada → Aviso
avisar ms (crear n) = sin_aviso
avisar ms (tomar pid prioridad n) =
    let s = mutex_ks_lock ms pid prioridad n in
    record { owner_a_elevar = s.owner_a_elevar; nueva_prioridad_owner = s.nueva_prioridad_owner }
avisar ms (soltar pid n) = sin_aviso

-- The signal that ks_mutex.h documents and the tests expect: the owner is to be raised exactly if
-- the process that waits has a better priority, that is, a smaller number.
abbrev pub aviso_al_tomar : ℤ → Option (List MutexWaiter) → Aviso
aviso_al_tomar prioridad none = sin_aviso
aviso_al_tomar prioridad (some []) = sin_aviso
aviso_al_tomar prioridad (some (v ∷ t)) =
    if int_ltb prioridad v.prioridad
    then record { owner_a_elevar = pos v.pid; nueva_prioridad_owner = prioridad }
    else sin_aviso

unfoldable pub aviso_documentado : Llamada → Option (List MutexWaiter) → Aviso
aviso_documentado (crear n) q = sin_aviso
aviso_documentado (tomar pid prioridad n) q = aviso_al_tomar prioridad q
aviso_documentado (soltar pid n) q = sin_aviso

-- The process must wait, and its priority is not better than the one the owner came with.
abbrev pub espera_peor : ℤ → Option (List MutexWaiter) → Bool
espera_peor prioridad none = false
espera_peor prioridad (some []) = false
espera_peor prioridad (some (v ∷ t)) = not (int_ltb prioridad v.prioridad)

unfoldable pub sin_herencia : Llamada → Option (List MutexWaiter) → Bool
sin_herencia (crear n) q = false
sin_herencia (tomar pid prioridad n) q = espera_peor prioridad q
sin_herencia (soltar pid n) q = false

-- The signal is the documented one.
abbrev pub Avisa : List KsMutex → Llamada → Type 0
Avisa ms l = avisar ms l ≡ aviso_documentado l (colas ms (nombre_llamado l))

ambos : {A B : Type 0} → A → B → A ↔ B
ambos a b = ((λ x. b), (λ y. a))

avisado :
    (o : ℕ) (prio p : ℤ) (t : List MutexWaiter)
    → let q = some (record { pid = o; prioridad = p } ∷ t) in
      (record { owner_a_elevar = pos o; nueva_prioridad_owner = prio } ≡ aviso_al_tomar prio q)
      ↔ (espera_peor prio q ≡ false)
avisado o prio p t = elim (Bool-cases (int_ltb prio p)) [
  | inl e ↦ rw e (ambos refl refl)
  | inr e ↦ rw e (
    (λ x. absurd (let y : pos o ≡ menos_uno = ap (λ (a : Aviso). a.owner_a_elevar) x in cc)),
    (λ y. absurd (cc)),
  )
]

tomar-mutex :
    (ms : List KsMutex) (n : Texto) (pid : ℕ) (prio : ℤ) (nm : Texto) (o p : ℤ)
    (c : List MutexWaiter)
    → buscar_mutex ms n
      ≡ some (record { nombre = nm; owner_pid = o; owner_prioridad_original = p; cola_espera = c })
    → Sano (record { nombre = nm; owner_pid = o; owner_prioridad_original = p; cola_espera = c })
    → Avisa ms (tomar pid prio n) ↔ (sin_herencia (tomar pid prio n) (colas ms n) ≡ false)
unfolding avisar aviso_documentado sin_herencia nombre_llamado mutex_ks_lock colas
tomar-mutex ms n pid prio nm (pos o) p c e (Sano.libre eo ep ec) = absurd (cc)
tomar-mutex ms n pid prio nm (pos o) p c e (Sano.tomado i eo co k) =
    rw (e, mutex_ks_lock) (avisado o prio p c)
tomar-mutex ms n pid prio nm (negsuc o) p c e (Sano.tomado i eo co k) = absurd (cc)
tomar-mutex ms n pid prio nm (negsuc o) p c e (Sano.libre eo ep ec) =
    let q : o ≡ 0 = cc in rw (e, mutex_ks_lock, q) (ambos refl refl)

avisar-Avisa :
    (ms : List KsMutex) (l : Llamada)
    → All Sano ms
    → Avisa ms l ↔ (sin_herencia l (colas ms (nombre_llamado l)) ≡ false)
unfolding avisar aviso_documentado sin_herencia nombre_llamado mutex_ks_lock colas
avisar-Avisa ms (crear n) h = ambos refl refl
avisar-Avisa ms (soltar pid n) h = ambos refl refl
avisar-Avisa ms (tomar pid prio n) h = elim (Option-cases (buscar_mutex ms n)) [
  | inl e ↦ rw (e, mutex_ks_lock) (ambos refl refl)
  | inr (m, e) ↦
      tomar-mutex ms n pid prio m.nombre m.owner_pid m.owner_prioridad_original m.cola_espera e
        (buscar-Sano ms n m h e)
]

-- On mutexes of which each free one has nobody waiting, and for PIDs below 2 ^ 31, a call of
-- create, lock or unlock refines the FIFO queue of turns of its name: lock puts the process last
-- and takes the mutex only if it is first, unlock by the first drops it and hands the mutex to the
-- next, unlock by another process is refused, and a name that is no mutex is refused. The result
-- and the priority that unlock gives back are the specified ones, no other mutex changes, and the
-- mutexes stay sound. The signal of inheritance is the one that ks_mutex.h documents exactly if the
-- call is not a lock by a process that must wait with a priority that is no better than the
-- one the owner came with: there the documented signal is -1 and that of the code is another.
pub llamar-Cumple :
    (ms : List KsMutex) (l : Llamada)
    → All Sano ms
    → LlamadaBien l
    → Refina ms l (llamar ms l)
      × (Avisa ms l ↔ (sin_herencia l (colas ms (nombre_llamado l)) ≡ false))
llamar-Cumple ms l h k = (llamar-Refina ms l h k, avisar-Avisa ms l h)
