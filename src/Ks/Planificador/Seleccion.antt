-- ===== src/Ks/Planificador/Seleccion.antt =====
-- Which process a round of the planner dispatches: kernel_scheduler/src/main.c.
use ssoo.Common.{
  ℕ, suc, ◌+◌, ◌≡◌, refl, sym, ap, none, some, List, [], ◌∷◌, ◌++◌, All, true, false, ℤ,
  Option-cases, Bool-cases, inl, inr, arith,
}
use ssoo.Ks.Planificador.{
  Estado, Proceso, CpuEntry, Envio, EstadoKs, en_nivel, elegir, tomar_cpu, despachar, planificar,
}

abbrev pub Vacia : List Proceso → Type 0
Vacia c = c ≡ []

abbrev pub Ocupada : CpuEntry → Type 0
Ocupada c = c.ocupada ≡ true

-- What one round may do to a state. A dispatch takes the first process of the first queue that is
-- not empty, and the first CPU that is free.
pub data Ronda (s : EstadoKs) : EstadoKs → Type 0 where
  nada_listo : All Vacia s.colas_ready → Ronda s s
  sin_cpu : All Ocupada s.lista_cpus → Ronda s s
  despacho :
      (antes : List (List Proceso)) (p : Proceso) (c : List Proceso) (despues : List (List Proceso))
      (tomadas : List CpuEntry) (fd : ℤ) (otras : List CpuEntry) (s' : EstadoKs)
      → s.colas_ready ≡ antes ++ ((p ∷ c) ∷ despues)
      → All Vacia antes
      → s.lista_cpus ≡ tomadas ++ (record { fd = fd; ocupada = false } ∷ otras)
      → All Ocupada tomadas
      → s'.colas_ready ≡ antes ++ (c ∷ despues)
      → s'.lista_cpus ≡ tomadas ++ (record { fd = fd; ocupada = true } ∷ otras)
      → s'.cola_exec
        ≡ s.cola_exec
          ++ record p { estado = Estado.exec; fd_cpu = fd; gen_despacho = p.gen_despacho + 1 } ∷ []
      → s'.queue_preemption ≡ s.queue_preemption
      → s'.enviados ≡ s.enviados ++ Envio.despachar_proceso fd p.pid ∷ []
      → Ronda s s'

elegir-none : (cs : List (List Proceso)) → elegir cs ≡ none → All Vacia cs
unfolding elegir
elegir-none [] e = tt
elegir-none ((p ∷ c) ∷ cs) e = absurd (cc)
elegir-none ([] ∷ cs) e = elim (Option-cases (elegir cs)) [
  | inl q ↦ (refl, elegir-none cs q)
  | inr (r, q) ↦ absurd (ground (arith, e, q))
]

-- The queues around the one that was chosen.
pub data Eleccion (cs : List (List Proceso)) (n : ℕ) (p : Proceso) (resto : List (List Proceso))
    : Type 0 where
  eleccion :
      (antes : List (List Proceso)) (c : List Proceso) (despues : List (List Proceso))
      → cs ≡ antes ++ ((p ∷ c) ∷ despues)
      → All Vacia antes
      → resto ≡ antes ++ (c ∷ despues)
      → en_nivel (λ d. p ∷ d) n resto ≡ cs
      → Eleccion cs n p resto

elegir-Eleccion :
    (cs : List (List Proceso)) (n : ℕ) (p : Proceso) (resto : List (List Proceso))
    → elegir cs ≡ some (n, p, resto)
    → Eleccion cs n p resto
unfolding elegir en_nivel
elegir-Eleccion [] n p resto e = absurd (cc)
elegir-Eleccion ((q ∷ c) ∷ cs) n p resto e =
    let en : 0 ≡ n = cc in
    let ep : q ≡ p = cc in
    let er : c ∷ cs ≡ resto = cc in rw (sym en, sym ep, sym er) (eleccion [] c cs refl tt refl refl)
elegir-Eleccion ([] ∷ cs) n p resto e = elim (Option-cases (elegir cs)) [
  | inl q ↦ absurd (ground (arith, e, q))
  | inr ((m, o, r), q) ↦
      let en : suc m ≡ n = ground (arith, e, q) in
      let ep : o ≡ p = ground (arith, e, q) in
      let er : [] ∷ r ≡ resto = ground (arith, e, q) in
      elim (elegir-Eleccion cs m o r q) [
        | eleccion antes c despues a b d f ↦
            rw (sym en, sym ep, sym er)
              (eleccion ([] ∷ antes) c despues (ap (◌∷◌ []) a) (refl, b) (ap (◌∷◌ []) d)
                (ap (◌∷◌ []) f))
      ]
]

tomar_cpu-none : (cs : List CpuEntry) → tomar_cpu cs ≡ none → All Ocupada cs
unfolding tomar_cpu
tomar_cpu-none [] e = tt
tomar_cpu-none (c ∷ cs) e = elim (Bool-cases c.ocupada) [
  | inr q ↦ absurd (ground (arith, e, q))
  | inl q ↦ (
    q,
    tomar_cpu-none cs (elim (Option-cases (tomar_cpu cs)) [
      | inl r ↦ r
      | inr ((fd, l), r) ↦ absurd (ground (arith, e, q, r))
    ]),
  )
]

pub data Toma (cs : List CpuEntry) (fd : ℤ) (cs' : List CpuEntry) : Type 0 where
  toma :
      (tomadas otras : List CpuEntry)
      → cs ≡ tomadas ++ (record { fd = fd; ocupada = false } ∷ otras)
      → All Ocupada tomadas
      → cs' ≡ tomadas ++ (record { fd = fd; ocupada = true } ∷ otras)
      → Toma cs fd cs'

tomar_cpu-Toma :
    (cs : List CpuEntry) (fd : ℤ) (cs' : List CpuEntry)
    → tomar_cpu cs ≡ some (fd, cs')
    → Toma cs fd cs'
unfolding tomar_cpu
tomar_cpu-Toma [] fd cs' e = absurd (cc)
tomar_cpu-Toma (c ∷ cs) fd cs' e = elim (Bool-cases c.ocupada) [
  | inr q ↦
      let ef : c.fd ≡ fd = ground (arith, e, q) in
      let er : (record { fd = fd; ocupada = true }) ∷ cs ≡ cs' = ground (arith, e, q) in
      toma [] cs (ground (arith, q, ef)) tt (sym er)
  | inl q ↦ elim (Option-cases (tomar_cpu cs)) [
    | inl r ↦ absurd (ground (arith, e, q, r))
    | inr ((g, l), r) ↦
        let ef : g ≡ fd = ground (arith, e, q, r) in
        let er : c ∷ l ≡ cs' = ground (arith, e, q, r) in
        elim (tomar_cpu-Toma cs g l r) [
          | toma tomadas otras a b d ↦
              rw (sym ef, sym er) (toma (c ∷ tomadas) otras (ap (◌∷◌ c) a) (q, b) (ap (◌∷◌ c) d))
        ]
  ]
]

-- A round of the planner leaves the state as it is when no process is ready, and also when no CPU
-- is free, the order of the queues included. Otherwise the first process of the first queue that
-- is not empty goes to the first free CPU: it leaves its queue, joins EXEC with its descriptor and
-- its generation advanced, that CPU is taken, and the CPU is told.
pub planificar-Ronda : (s : EstadoKs) → Ronda s (planificar s)
unfolding planificar despachar
planificar-Ronda s = elim (Option-cases (elegir s.colas_ready)) [
  | inl e ↦ rw (e, planificar) (nada_listo (elegir-none s.colas_ready e))
  | inr ((n, p, resto), e) ↦ elim (elegir-Eleccion s.colas_ready n p resto e) [
    | eleccion antes c despues a b d f ↦ elim (Option-cases (tomar_cpu s.lista_cpus)) [
      | inl t ↦ rw (e, planificar, t, f) (sin_cpu (tomar_cpu-none s.lista_cpus t))
      | inr ((fd, cpus), t) ↦ elim (tomar_cpu-Toma s.lista_cpus fd cpus t) [
        | toma tomadas otras x y z ↦
            rw (e, planificar, t)
              (despacho antes p c despues tomadas fd otras _ a b x y d z refl refl refl)
      ]
    ]
  ]
]
