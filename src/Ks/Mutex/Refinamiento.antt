-- ===== src/Ks/Mutex/Refinamiento.antt =====
-- The mutexes are named FIFO queues of turns: kernel_scheduler/src/ks_mutex.c.
use ssoo.Common.{
  ℕ, ◌≡◌, ◌<◌, refl, ap, ◌∙◌, some, List, [], ◌∷◌, ◌++◌, All, All-append, false, Texto, strcmp,
  strcmp_refl, ℤ, pos, negsuc, menos_uno, a_int, a_int-pos, Bool-cases, Option-cases, inl, inr,
  ◌==◌,
}
use ssoo.Ks.Mutex.{
  MutexWaiter, KsMutex, buscar_mutex, escribir_mutex, ceder, mutex_ks_create, mutex_ks_lock,
  mutex_ks_unlock,
}
use ssoo.Ks.Mutex.Colas.{
  Llamada, crear, tomar, soltar, Respuesta, sola, llamar, LlamadaBien, heredero, nombre_llamado,
  especificar, turnos_opcion, colas,
}
use ssoo.Ks.Mutex.Turnos.{
  pid_max, PidCabe, Sano, turnos, buscar-nombre, buscar-Sano, escribir-Sano, buscar-escribir,
  buscar-escribir_otro, buscar-append,
}

-- One call does to the queue of its name what the specification says, with the same answer.
pub record Refina (ms : List KsMutex) (l : Llamada) (salida : List KsMutex × Respuesta)
    : Type 0 where
  pub propia :
      (colas salida.0 (nombre_llamado l), salida.1) ≡ especificar l (colas ms (nombre_llamado l))
  pub ajenas : (k : Texto) → strcmp (nombre_llamado l) k ≡ false → colas salida.0 k ≡ colas ms k
  pub sanos : All Sano salida.0

-- A call that leaves the list as it is.
sin_cambio :
    (ms : List KsMutex) (l : Llamada) (z : Respuesta)
    → All Sano ms
    → (colas ms (nombre_llamado l), z) ≡ especificar l (colas ms (nombre_llamado l))
    → Refina ms l (ms, z)
sin_cambio ms l z h e = record { propia = e; ajenas = λ k d. refl; sanos = h }

-- A call that writes one mutex that is there.
con_escritura :
    (ms : List KsMutex) (l : Llamada) (m nuevo : KsMutex) (z : Respuesta)
    → All Sano ms
    → buscar_mutex ms (nombre_llamado l) ≡ some m
    → nuevo.nombre ≡ m.nombre
    → Sano nuevo
    → (some (turnos nuevo), z) ≡ especificar l (some (turnos m))
    → Refina ms l (escribir_mutex ms (nombre_llamado l) nuevo, z)
unfolding colas
con_escritura ms l m nuevo z h e p s q =
    let p' : nuevo.nombre ≡ nombre_llamado l = p ∙ buscar-nombre ms (nombre_llamado l) m e in
    record {
      propia = rw (buscar-escribir ms (nombre_llamado l) m nuevo e p', e) q;
      ajenas = λ k d. ap turnos_opcion (buscar-escribir_otro ms (nombre_llamado l) k nuevo p' d);
      sanos = escribir-Sano ms (nombre_llamado l) nuevo h s;
    }

crear-Refina :
    (ms : List KsMutex) (n : Texto) → All Sano ms → Refina ms (crear n) (llamar ms (crear n))
unfolding llamar mutex_ks_create colas especificar nombre_llamado
crear-Refina ms n h = elim (Option-cases (buscar_mutex ms n)) [
  | inl e ↦
      let nuevo : KsMutex = record {
        nombre = n;
        owner_pid = menos_uno;
        owner_prioridad_original = menos_uno;
        cola_espera = [];
      } in
      rw (e, mutex_ks_create)
        (record {
          propia = rw (buscar-append ms nuevo n e, strcmp_refl n, e) refl;
          ajenas = λ k d. ap turnos_opcion (rw (buscar-append ms nuevo k e, d) refl);
          sanos = All-append Sano ms (nuevo ∷ []) h (Sano.libre refl refl refl, tt);
        })
  | inr (m, e) ↦ rw (e, mutex_ks_create) (sin_cambio ms (crear n) (sola menos_uno) h (rw e refl))
]

tomar-mutex :
    (ms : List KsMutex) (n : Texto) (pid : ℕ) (prio : ℤ)
    → All Sano ms
    → pid < pid_max
    → (nm : Texto) (o p : ℤ) (c : List MutexWaiter)
    → buscar_mutex ms n
      ≡ some (record { nombre = nm; owner_pid = o; owner_prioridad_original = p; cola_espera = c })
    → Sano (record { nombre = nm; owner_pid = o; owner_prioridad_original = p; cola_espera = c })
    → Refina ms (tomar pid prio n) (llamar ms (tomar pid prio n))
unfolding llamar mutex_ks_lock especificar nombre_llamado
tomar-mutex ms n pid prio h k nm (pos o) p c e (Sano.libre eo ep ec) = absurd (cc)
tomar-mutex ms n pid prio h k nm (pos o) p c e (Sano.tomado i eo co cc1) =
    rw (e, mutex_ks_lock)
      (con_escritura ms (tomar pid prio n)
        (record { nombre = nm; owner_pid = pos o; owner_prioridad_original = p; cola_espera = c })
        (record {
          nombre = nm;
          owner_pid = pos o;
          owner_prioridad_original = p;
          cola_espera = c ++ record { pid = pid; prioridad = prio } ∷ [];
        })
        (sola (pos 1)) h e refl
        (Sano.tomado i eo co
          (All-append PidCabe c (record { pid = pid; prioridad = prio } ∷ []) cc1 (k, tt)))
        refl)
tomar-mutex ms n pid prio h k nm (negsuc o) p c e (Sano.tomado i eo co cc1) = absurd (cc)
tomar-mutex ms n pid prio h k nm (negsuc o) p c e (Sano.libre eo ep ec) =
    let q : o ≡ 0 = cc in
    rw (e, mutex_ks_lock, q)
      (con_escritura ms (tomar pid prio n)
        (record {
          nombre = nm;
          owner_pid = negsuc o;
          owner_prioridad_original = p;
          cola_espera = c;
        })
        (record {
          nombre = nm;
          owner_pid = a_int pid;
          owner_prioridad_original = prio;
          cola_espera = c;
        })
        (sola (pos 0)) h e refl (Sano.tomado pid (a_int-pos pid k) k (rw ec tt))
        (rw (a_int-pos pid k, ec) refl))

tomar-Refina :
    (ms : List KsMutex) (pid : ℕ) (prio : ℤ) (n : Texto)
    → All Sano ms
    → pid < pid_max
    → Refina ms (tomar pid prio n) (llamar ms (tomar pid prio n))
unfolding llamar mutex_ks_lock colas especificar nombre_llamado
tomar-Refina ms pid prio n h k = elim (Option-cases (buscar_mutex ms n)) [
  | inl e ↦ rw (e, mutex_ks_lock) (sin_cambio ms (tomar pid prio n) (sola menos_uno) h (rw e refl))
  | inr (m, e) ↦
      tomar-mutex ms n pid prio h k m.nombre m.owner_pid m.owner_prioridad_original m.cola_espera e
        (buscar-Sano ms n m h e)
]

-- The mutex that a hand-over leaves is sound, and its turns are those after the first.
ceder-Sano :
    (nm : Texto) (o : ℕ) (p : ℤ) (c : List MutexWaiter)
    → All PidCabe c
    → let s = ceder (record {
      nombre = nm;
      owner_pid = pos o;
      owner_prioridad_original = p;
      cola_espera = c;
    }) in
      Sano s.0 × (turnos s.0 ≡ c) × (s.1 ≡ heredero c) × (s.0.nombre ≡ nm)
unfolding ceder
ceder-Sano nm o p [] h = (Sano.libre refl refl refl, refl, refl, refl)
ceder-Sano nm o p (w ∷ c) (hw, h) = (
  Sano.tomado w.pid (a_int-pos w.pid hw) hw h,
  rw (a_int-pos w.pid hw) refl,
  a_int-pos w.pid hw,
  refl,
)

soltar-mutex :
    (ms : List KsMutex) (n : Texto) (pid : ℕ)
    → All Sano ms
    → pid < pid_max
    → (nm : Texto) (o p : ℤ) (c : List MutexWaiter)
    → buscar_mutex ms n
      ≡ some (record { nombre = nm; owner_pid = o; owner_prioridad_original = p; cola_espera = c })
    → Sano (record { nombre = nm; owner_pid = o; owner_prioridad_original = p; cola_espera = c })
    → Refina ms (soltar pid n) (llamar ms (soltar pid n))
unfolding llamar mutex_ks_unlock colas especificar nombre_llamado
soltar-mutex ms n pid h k nm (negsuc o) p c e s =
    rw (e, mutex_ks_unlock, a_int-pos pid k)
      (sin_cambio ms (soltar pid n) (sola menos_uno) h (rw e refl))
soltar-mutex ms n pid h k nm (pos o) p c e (Sano.libre eo ep ec) = absurd (cc)
soltar-mutex ms n pid h k nm (pos o) p c e (Sano.tomado i eo co caben) =
    elim (Bool-cases (o == pid)) [
      | inl q ↦
          let m : KsMutex = record {
            nombre = nm;
            owner_pid = pos o;
            owner_prioridad_original = p;
            cola_espera = c;
          } in
          let (sano, t, r, nom) = ceder-Sano nm o p c caben in
          rw (e, mutex_ks_unlock, a_int-pos pid k, q)
            (con_escritura ms (soltar pid n) m (ceder m).0
              (record { resultado = (ceder m).1; prioridad_restaurar = p }) h e nom sano
              (rw (t, r, q) refl))
      | inr q ↦
          rw (e, mutex_ks_unlock, a_int-pos pid k, q)
            (sin_cambio ms (soltar pid n) (sola menos_uno) h (rw (e, q) refl))
    ]

soltar-Refina :
    (ms : List KsMutex) (pid : ℕ) (n : Texto)
    → All Sano ms
    → pid < pid_max
    → Refina ms (soltar pid n) (llamar ms (soltar pid n))
unfolding llamar mutex_ks_unlock colas especificar nombre_llamado
soltar-Refina ms pid n h k = elim (Option-cases (buscar_mutex ms n)) [
  | inl e ↦ rw (e, mutex_ks_unlock) (sin_cambio ms (soltar pid n) (sola menos_uno) h (rw e refl))
  | inr (m, e) ↦
      soltar-mutex ms n pid h k m.nombre m.owner_pid m.owner_prioridad_original m.cola_espera e
        (buscar-Sano ms n m h e)
]

-- On mutexes of which each free one has nobody waiting, and for PIDs below 2 ^ 31, a call of
-- create, lock or unlock refines the FIFO queue of turns of its name: lock puts the process last
-- and takes the mutex only if it is first, unlock by the first drops it and hands the mutex to the
-- next, unlock by another process is refused, and a name that is no mutex is refused. The answer
-- is the specified one. No other mutex changes, and the mutexes stay sound.
pub llamar-Refina :
    (ms : List KsMutex) (l : Llamada) → All Sano ms → LlamadaBien l → Refina ms l (llamar ms l)
llamar-Refina ms (crear n) h k = crear-Refina ms n h
llamar-Refina ms (tomar pid prio n) h k = tomar-Refina ms pid prio n h k
llamar-Refina ms (soltar pid n) h k = soltar-Refina ms pid n h k
