-- ===== src/Ks/Prioridad/Quitar.antt =====
-- What a process leaves behind when it is taken out of the ready queues: aplicar_cambio_prioridad of
-- kernel_scheduler/src/main.c.
use ssoo.Common.{
  ℕ, suc, ◌≡◌, refl, ap, Option, none, some, Option-cases, List, [], ◌∷◌, length, All, true, false,
  ℤ, int_eq, int_eq→eq, Bool-cases, inl, inr,
}
use ssoo.Ks.Planificador.{Proceso, nivel_de}
use ssoo.Ks.Prioridad.{
  buscar_pid_en_queue, buscar_en_niveles, o_el_resto, quitar, quitar_de_niveles,
}

-- The priority of the process has this level.
abbrev pub EnNivel : ℕ → ℕ → Proceso → Type 0
EnNivel n_colas nivel p = nivel_de n_colas p.prioridad ≡ nivel

-- Every process stands in the queue of its priority; the first queue has this level.
abbrev pub Colocados : ℕ → ℕ → List (List Proceso) → Type 0
Colocados n_colas nivel [] = Unit {0}
Colocados n_colas nivel (c ∷ cs) = All (EnNivel n_colas nivel) c × Colocados n_colas (suc nivel) cs

record Resto (pid : ℤ) (c d : List Proceso) : Type 0 where
  ajenos : (k : ℤ) → int_eq pid k ≡ false → buscar_pid_en_queue d k ≡ buscar_pid_en_queue c k
  nivel : (n i : ℕ) → All (EnNivel n i) c → All (EnNivel n i) d

-- The queues without the process find every other process as before, each in the queue of its
-- priority.
pub record RestoNiveles (pid : ℤ) (cs ds : List (List Proceso)) : Type 0 where
  pub ajenos : (k : ℤ) → int_eq pid k ≡ false → buscar_en_niveles ds k ≡ buscar_en_niveles cs k
  pub colocados : (n i : ℕ) → Colocados n i cs → Colocados n i ds
  pub largo : length ds ≡ length cs

-- The property, if something was taken out.
abbrev pub Si : {A : Type 0} → (A → Type 0) → Option A → Type 0
Si P none = Unit {0}
Si P (some d) = P d

Resto-primero :
    (p : Proceso) (c : List Proceso) (pid : ℤ) → int_eq p.pid pid ≡ true → Resto pid (p ∷ c) c
unfolding buscar_pid_en_queue
Resto-primero p c pid e =
    let q : p.pid ≡ pid = int_eq→eq p.pid pid e in
    record { ajenos = λ k d. rw (q, d) refl; nivel = λ n i h. h.1 }

Resto-cons :
    (p : Proceso) (c d : List Proceso) (pid : ℤ) → Resto pid c d → Resto pid (p ∷ c) (p ∷ d)
unfolding buscar_pid_en_queue
Resto-cons p c d pid r = record {
  ajenos = λ k x. rw (r.ajenos k x) refl;
  nivel = λ n i h. (h.0, r.nivel n i h.1);
}

quitar-Resto : (c : List Proceso) (pid : ℤ) → Si (Resto pid c) (quitar c pid)
unfolding quitar
quitar-Resto [] pid = tt
quitar-Resto (p ∷ c) pid = elim (Bool-cases (int_eq p.pid pid)) [
  | inl e ↦ rw e (Resto-primero p c pid e)
  | inr e ↦
      let m = quitar-Resto c pid in
      elim (Option-cases (quitar c pid)) [
        | inl q ↦ rw (e, q) tt
        | inr (d, q) ↦ let r : Resto pid c d = rw q at m in rw (e, q) (Resto-cons p c d pid r)
      ]
]

o_el_resto-RestoNiveles :
    (pid : ℤ) (c : List Proceso) (cs : List (List Proceso)) (a : Option (List Proceso))
    (b : Option (List (List Proceso)))
    → Si (Resto pid c) a
    → Si (RestoNiveles pid cs) b
    → Si (RestoNiveles pid (c ∷ cs)) (o_el_resto c cs a b)
unfolding buscar_en_niveles
o_el_resto-RestoNiveles pid c cs (some d) b m ms = record {
  ajenos = λ k x. rw (m.ajenos k x) refl;
  colocados = λ n i h. (m.nivel n i h.0, h.1);
  largo = refl;
}
o_el_resto-RestoNiveles pid c cs none none m ms = tt
o_el_resto-RestoNiveles pid c cs none (some ds) m ms = record {
  ajenos = λ k x. rw (ms.ajenos k x) refl;
  colocados = λ n i h. (h.0, ms.colocados n (suc i) h.1);
  largo = ap suc ms.largo;
}

pub quitar_de_niveles-RestoNiveles :
    (cs : List (List Proceso)) (pid : ℤ) → Si (RestoNiveles pid cs) (quitar_de_niveles cs pid)
unfolding quitar_de_niveles
quitar_de_niveles-RestoNiveles [] pid = tt
quitar_de_niveles-RestoNiveles (c ∷ cs) pid =
    o_el_resto-RestoNiveles pid c cs (quitar c pid) (quitar_de_niveles cs pid) (quitar-Resto c pid)
      (quitar_de_niveles-RestoNiveles cs pid)
