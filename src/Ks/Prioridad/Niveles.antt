-- ===== src/Ks/Prioridad/Niveles.antt =====
-- The ready queues without a process, and with it at the end of another:
-- aplicar_cambio_prioridad of kernel_scheduler/src/main.c.
use ssoo.Common.{
  ℕ, ◌+◌, ◌≡◌, refl, Option, none, some, Option-cases, List, [], ◌∷◌, if◌then◌else◌, ℤ, int_eq,
  Bool-cases, inl, inr, arith,
}
use ssoo.Ks.Planificador.{Proceso}
use ssoo.Ks.Prioridad.{
  buscar_pid_en_queue, con_prioridad, con_prioridad_niveles, o_el_resto, quitar, quitar_de_niveles,
}

-- How often a PID stands in a queue, and in the ready queues.
unfoldable pub veces : ℤ → List Proceso → ℕ
veces pid [] = 0
veces pid (p ∷ c) = if int_eq p.pid pid then 1 + veces pid c else veces pid c

unfoldable pub veces_niveles : ℤ → List (List Proceso) → ℕ
veces_niveles pid [] = 0
veces_niveles pid (c ∷ cs) = veces pid c + veces_niveles pid cs

-- What is taken away is counted.
abbrev pub Menos : {A : Type 0} → ℕ → (A → ℕ) → Option A → Type 0
Menos n f none = n ≡ 0
Menos n f (some d) = n ≡ 1 + f d

quitar-Menos : (c : List Proceso) (pid : ℤ) → Menos (veces pid c) (veces pid) (quitar c pid)
unfolding veces quitar
quitar-Menos [] pid = refl
quitar-Menos (p ∷ c) pid = elim (Bool-cases (int_eq p.pid pid)) [
  | inl e ↦ rw e refl
  | inr e ↦
      let m = quitar-Menos c pid in
      elim (Option-cases (quitar c pid)) [
        | inl q ↦ let z : veces pid c ≡ 0 = rw q at m in rw (e, q) z
        | inr (d, q) ↦ let z : veces pid c ≡ 1 + veces pid d = rw q at m in rw (e, q, e) z
      ]
]

o_el_resto-Menos :
    (pid : ℤ) (c : List Proceso) (cs : List (List Proceso)) (a : Option (List Proceso))
    (b : Option (List (List Proceso)))
    → Menos (veces pid c) (veces pid) a
    → Menos (veces_niveles pid cs) (veces_niveles pid) b
    → Menos (veces pid c + veces_niveles pid cs) (veces_niveles pid) (o_el_resto c cs a b)
unfolding veces_niveles
o_el_resto-Menos pid c cs (some d) b m ms = omega arith
o_el_resto-Menos pid c cs none none m ms = omega arith
o_el_resto-Menos pid c cs none (some ds) m ms = omega arith

pub quitar_de_niveles-Menos :
    (cs : List (List Proceso)) (pid : ℤ)
    → Menos (veces_niveles pid cs) (veces_niveles pid) (quitar_de_niveles cs pid)
unfolding veces_niveles quitar_de_niveles
quitar_de_niveles-Menos [] pid = refl
quitar_de_niveles-Menos (c ∷ cs) pid =
    o_el_resto-Menos pid c cs (quitar c pid) (quitar_de_niveles cs pid) (quitar-Menos c pid)
      (quitar_de_niveles-Menos cs pid)

con_prioridad-ausente :
    (c : List Proceso) (pid nueva : ℤ) → veces pid c ≡ 0 → con_prioridad pid nueva c ≡ c
unfolding veces con_prioridad
con_prioridad-ausente [] pid nueva z = refl
con_prioridad-ausente (p ∷ c) pid nueva z = elim (Bool-cases (int_eq p.pid pid)) [
  | inl e ↦ absurd (let y : 1 + veces pid c ≡ 0 = rw e at z in omega arith)
  | inr e ↦ let y : veces pid c ≡ 0 = rw e at z in rw (e, con_prioridad-ausente c pid nueva y) refl
]

pub con_prioridad_niveles-ausente :
    (cs : List (List Proceso)) (pid nueva : ℤ)
    → veces_niveles pid cs ≡ 0
    → con_prioridad_niveles pid nueva cs ≡ cs
unfolding veces_niveles con_prioridad_niveles
con_prioridad_niveles-ausente [] pid nueva z = refl
con_prioridad_niveles-ausente (c ∷ cs) pid nueva z =
    rw
      (
        con_prioridad-ausente c pid nueva (omega arith),
        con_prioridad_niveles-ausente cs pid nueva (omega arith),
      )
      refl

pub buscar-ausente :
    (c : List Proceso) (pid : ℤ) → veces pid c ≡ 0 → buscar_pid_en_queue c pid ≡ none
unfolding veces buscar_pid_en_queue
buscar-ausente [] pid z = refl
buscar-ausente (p ∷ c) pid z = elim (Bool-cases (int_eq p.pid pid)) [
  | inl e ↦ absurd (let y : 1 + veces pid c ≡ 0 = rw e at z in omega arith)
  | inr e ↦ let y : veces pid c ≡ 0 = rw e at z in rw (e, buscar-ausente c pid y) refl
]
