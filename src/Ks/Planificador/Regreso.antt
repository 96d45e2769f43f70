-- ===== src/Ks/Planificador/Regreso.antt =====
-- A process that is dispatched and leaves EXEC again: kernel_scheduler/src/main.c.
use ssoo.Common.{
  ℕ, ◌+◌, ◌≡◌, refl, sym, ap, ◌∙◌, Option, none, some, List, [], ◌∷◌, ◌++◌, append_assoc,
  append-nil, All, true, false, ℤ, menos_uno, int_eq, int_eq_refl, Option-cases, Bool-cases, inl,
  inr, arith,
}
use ssoo.Ks.Planificador.{
  Estado, Proceso, CpuEntry, EstadoKs, elegir, tomar_cpu, despachar, planificar, liberar_cpu,
  separar, salir_de_exec, sacar_de_exec,
}

-- No process of the queue has the PID; no CPU of the list has the descriptor.
abbrev pub SinPid : ℤ → List Proceso → Type 0
SinPid pid = All (λ q. int_eq q.pid pid ≡ false)

abbrev pub SinFd : ℤ → List CpuEntry → Type 0
SinFd fd = All (λ c. int_eq fd c.fd ≡ false)

-- The descriptors of the CPUs are distinct.
abbrev pub FdDistintos : List CpuEntry → Type 0
FdDistintos [] = Unit {0}
FdDistintos (c ∷ cs) = SinFd c.fd cs × FdDistintos cs

separar-ajenos :
    (pid : ℤ) (qs rs : List Proceso) (hallado : Option Proceso) (otros : List Proceso)
    → SinPid pid qs
    → separar pid (qs ++ rs) hallado otros ≡ separar pid rs hallado (otros ++ qs)
unfolding separar
separar-ajenos pid [] rs hallado otros h = ap (separar pid rs hallado) (sym (append-nil otros))
separar-ajenos pid (q ∷ qs) rs hallado otros (hq, h) =
    rw (separar, hq)
      (separar-ajenos pid qs rs hallado (otros ++ q ∷ []) h
        ∙ ap (separar pid rs hallado) (append_assoc otros (q ∷ []) qs))

pub separar-ultimo :
    (pid : ℤ) (qs : List Proceso) (p : Proceso)
    → SinPid pid qs
    → p.pid ≡ pid
    → separar pid (qs ++ p ∷ []) none [] ≡ (some p, qs)
unfolding separar
separar-ultimo pid qs p h e =
    separar-ajenos pid qs (p ∷ []) none [] h ∙ rw (e, int_eq_refl pid) refl

-- The CPU that is taken is one of the list.
tomar_cpu-fd :
    (otro : ℤ) (cs : List CpuEntry) (fd : ℤ) (cs' : List CpuEntry)
    → tomar_cpu cs ≡ some (fd, cs')
    → SinFd otro cs
    → int_eq otro fd ≡ false
unfolding tomar_cpu
tomar_cpu-fd otro [] fd cs' e h = absurd (cc)
tomar_cpu-fd otro (d ∷ cs) fd cs' e (hd, h) = elim (Bool-cases d.ocupada) [
  | inr q ↦ let ef : d.fd ≡ fd = ground (arith, e, q) in ap (int_eq otro) (sym ef) ∙ hd
  | inl q ↦ elim (Option-cases (tomar_cpu cs)) [
    | inl r ↦ absurd (ground (arith, e, q, r))
    | inr ((g, l), r) ↦
        let ef : g ≡ fd = ground (arith, e, q, r) in
        ap (int_eq otro) (sym ef) ∙ tomar_cpu-fd otro cs g l r h
  ]
]

liberar-tomar :
    (cs : List CpuEntry) (fd : ℤ) (cs' : List CpuEntry)
    → tomar_cpu cs ≡ some (fd, cs')
    → FdDistintos cs
    → liberar_cpu fd cs' ≡ cs
unfolding tomar_cpu liberar_cpu
liberar-tomar [] fd cs' e h = absurd (cc)
liberar-tomar (c ∷ cs) fd cs' e (hc, h) = elim (Bool-cases c.ocupada) [
  | inr q ↦
      let ef : c.fd ≡ fd = ground (arith, e, q) in
      let er : (record c { ocupada = true }) ∷ cs ≡ cs' = ground (arith, e, q) in
      rw (sym er, ef, int_eq_refl fd) (ground (arith, q, ef))
  | inl q ↦ elim (Option-cases (tomar_cpu cs)) [
    | inl r ↦ absurd (ground (arith, e, q, r))
    | inr ((g, l), r) ↦
        let ef : g ≡ fd = ground (arith, e, q, r) in
        let er : c ∷ l ≡ cs' = ground (arith, e, q, r) in
        let d : int_eq c.fd g ≡ false = tomar_cpu-fd c.fd cs g l r hc in
        rw (sym ef, sym er, d) (ap (◌∷◌ c) (liberar-tomar cs g l r h))
  ]
]

planificar-despachar :
    (s : EstadoKs) (n : ℕ) (p : Proceso) (resto : List (List Proceso)) (fd : ℤ)
    (cpus : List CpuEntry)
    → elegir s.colas_ready ≡ some (n, p, resto)
    → tomar_cpu s.lista_cpus ≡ some (fd, cpus)
    → planificar s ≡ despachar (record s { colas_ready = resto; lista_cpus = cpus }) p fd
unfolding planificar
planificar-despachar s n p resto fd cpus e t = rw (e, planificar, t) refl

despachar-sacar :
    (s : EstadoKs) (p : Proceso) (fd : ℤ)
    → SinPid p.pid s.cola_exec
    → sacar_de_exec (despachar s p fd) p.pid ≡ (
      some (record p {
        estado = Estado.exec;
        fd_cpu = menos_uno;
        gen_despacho = p.gen_despacho + 1;
      }),
      record (despachar s p fd) {
        cola_exec = s.cola_exec;
        lista_cpus = liberar_cpu fd s.lista_cpus;
      },
    )
unfolding sacar_de_exec despachar
despachar-sacar s p fd h =
    let q : Proceso = record p {
      estado = Estado.exec;
      fd_cpu = fd;
      gen_despacho = p.gen_despacho + 1;
    } in
    ap (salir_de_exec (despachar s p fd)) (separar-ultimo p.pid s.cola_exec q h refl)

-- A process that a round of the planner dispatches, and that then leaves EXEC, comes out with no
-- CPU and its generation advanced. The running processes and the CPUs are again what they were
-- before the round, and the process has left its ready queue. The PID ran on no CPU before, and
-- the descriptors of the CPUs are distinct.
pub sacar_de_exec-planificar :
    (s : EstadoKs) (n : ℕ) (p : Proceso) (resto : List (List Proceso)) (fd : ℤ)
    (cpus : List CpuEntry)
    → elegir s.colas_ready ≡ some (n, p, resto)
    → tomar_cpu s.lista_cpus ≡ some (fd, cpus)
    → SinPid p.pid s.cola_exec
    → FdDistintos s.lista_cpus
    → let r = sacar_de_exec (planificar s) p.pid in
      (r.0
        ≡ some (record p {
          estado = Estado.exec;
          fd_cpu = menos_uno;
          gen_despacho = p.gen_despacho + 1;
        }))
      × (r.1.cola_exec ≡ s.cola_exec)
      × (r.1.lista_cpus ≡ s.lista_cpus)
      × (r.1.colas_ready ≡ resto)
unfolding despachar
sacar_de_exec-planificar s n p resto fd cpus e t h d =
    let s' : EstadoKs = record s { colas_ready = resto; lista_cpus = cpus } in
    rw (planificar-despachar s n p resto fd cpus e t, despachar-sacar s' p fd h)
      (refl, refl, liberar-tomar s.lista_cpus fd cpus t d, refl)
