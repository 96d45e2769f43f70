-- ===== src/Ks/Planificador/Desalojo.antt =====
-- Which running process a ready one displaces: verificar_preemption of kernel_scheduler/src/main.c.
use ssoo.Common.{
  ◌≡◌, refl, subst, Option, none, some, List, [], ◌∷◌, ◌++◌, All, Bool, true, false, not, ◌&&◌,
  if◌then◌else◌, ℤ, int_ltb, IntLe, IntLe-refl, IntLe-lt, IntLe-trans, Bool-cases, inl, inr, ◌⊎◌,
  arith,
}
use ssoo.Ks.Planificador.{
  Proceso, Envio, EstadoKs, hay_cpu_libre, es_victima, elegir_victima, marcar, desalojar,
  verificar_preemption,
}

-- The process is being displaced already, or its priority is at most this number.
abbrev pub Cede : ℤ → Proceso → Type 0
Cede z p = (p.preemptado ≡ true) ⊎ IntLe p.prioridad z

-- A process that may be displaced by one of this priority.
abbrev pub Desalojable : ℤ → Proceso → Type 0
Desalojable z p = (p.preemptado ≡ false) × (int_ltb z p.prioridad ≡ true)

pub data Esta (p : Proceso) : List Proceso → Type 0 where
  primero : (q : Proceso) (ps : List Proceso) → q ≡ p → Esta p (q ∷ ps)
  despues : (q : Proceso) (ps : List Proceso) → Esta p ps → Esta p (q ∷ ps)

-- The choice among processes, after the choice so far.
abbrev Final : ℤ → List Proceso → Option Proceso → Option Proceso → Type 0
Final z ps previa none = (previa ≡ none) × All (Cede z) ps
Final z ps none (some v) = Esta v ps × Desalojable z v × All (Cede v.prioridad) ps
Final z ps (some u) (some v) =
    ((u ≡ v) ⊎ (Esta v ps × Desalojable z v))
    × IntLe u.prioridad v.prioridad
    × All (Cede v.prioridad) ps

-- The process is not chosen: it yields to this priority, or to the choice so far.
no_elegido : (z : ℤ) (p : Proceso) → (not p.preemptado && int_ltb z p.prioridad) ≡ false → Cede z p
no_elegido z p e = elim (Bool-cases p.preemptado) [
  | inl q ↦ inl q
  | inr q ↦ inr (ground (arith, e, q))
]

no_elegido_some :
    (z : ℤ) (p u : Proceso)
    → (not p.preemptado && (int_ltb z p.prioridad && int_ltb u.prioridad p.prioridad)) ≡ false
    → (p.preemptado ≡ true) ⊎ (IntLe p.prioridad z ⊎ IntLe p.prioridad u.prioridad)
no_elegido_some z p u e = elim (Bool-cases p.preemptado) [
  | inl q ↦ inl q
  | inr q ↦ elim (Bool-cases (int_ltb z p.prioridad)) [
    | inr r ↦ inr (inl r)
    | inl r ↦ inr (inr (ground (arith, e, q, r)))
  ]
]

elegido-none :
    (z : ℤ) (p : Proceso) (ps : List Proceso) (o : Option Proceso)
    → Desalojable z p
    → Final z ps (some p) o
    → Final z (p ∷ ps) none o
elegido-none z p ps none d f = absurd (let e = f.0 in cc)
elegido-none z p ps (some v) d (inl e, k, a) =
    (primero p ps e, subst (Desalojable z) e d, (inr k, a))
elegido-none z p ps (some v) d (inr (en, c), k, a) = (despues p ps en, c, (inr k, a))

pasado-none :
    (z : ℤ) (p : Proceso) (ps : List Proceso) (o : Option Proceso)
    → Cede z p
    → Final z ps none o
    → Final z (p ∷ ps) none o
pasado-none z p ps none d (e, a) = (refl, (d, a))
pasado-none z p ps (some v) (inl d) (en, c, a) = (despues p ps en, c, (inl d, a))
pasado-none z p ps (some v) (inr d) (en, c, a) = (
  despues p ps en,
  c,
  (inr (IntLe-trans p.prioridad z v.prioridad d (IntLe-lt z v.prioridad c.1)), a),
)

elegido-some :
    (z : ℤ) (p u : Proceso) (ps : List Proceso) (o : Option Proceso)
    → Desalojable z p
    → IntLe u.prioridad p.prioridad
    → Final z ps (some p) o
    → Final z (p ∷ ps) (some u) o
elegido-some z p u ps none d m f = absurd (let e = f.0 in cc)
elegido-some z p u ps (some v) d m (inl e, k, a) = (
  inr (primero p ps e, subst (Desalojable z) e d),
  IntLe-trans u.prioridad p.prioridad v.prioridad m k,
  (inr k, a),
)
elegido-some z p u ps (some v) d m (inr (en, c), k, a) =
    (inr (despues p ps en, c), IntLe-trans u.prioridad p.prioridad v.prioridad m k, (inr k, a))

pasado-some :
    (z : ℤ) (p u : Proceso) (ps : List Proceso) (o : Option Proceso)
    → (p.preemptado ≡ true) ⊎ IntLe p.prioridad u.prioridad
    → Final z ps (some u) o
    → Final z (p ∷ ps) (some u) o
pasado-some z p u ps none d f = absurd (let e = f.0 in cc)
pasado-some z p u ps (some v) d (w, k, a) = (
  elim w [ inl e ↦ inl e | inr (en, c) ↦ inr (despues p ps en, c) ],
  k,
  (elim d [ inl e ↦ inl e | inr e ↦ inr (IntLe-trans p.prioridad u.prioridad v.prioridad e k) ], a),
)

abbrev Previa : ℤ → Option Proceso → Type 0
Previa z none = Unit {0}
Previa z (some u) = Desalojable z u

elegir_victima-Final :
    (z : ℤ) (ps : List Proceso) (previa : Option Proceso)
    → Previa z previa
    → Final z ps previa (elegir_victima z ps previa)
unfolding elegir_victima
elegir_victima-Final z [] none h = (refl, tt)
elegir_victima-Final z [] (some u) h = (inl refl, IntLe-refl u.prioridad, tt)
elegir_victima-Final z (p ∷ ps) none h = elim (Bool-cases (es_victima z p none)) [
  | inl q ↦
      let d : Desalojable z p = ground (arith, q) in
      rw q (
        elegido-none z p ps (elegir_victima z ps (some p)) d (elegir_victima-Final z ps (some p) d))
  | inr q ↦ rw q (
      pasado-none z p ps (elegir_victima z ps none) (no_elegido z p q)
        (elegir_victima-Final z ps none tt))
]
elegir_victima-Final z (p ∷ ps) (some u) h = elim (Bool-cases (es_victima z p (some u))) [
  | inl q ↦
      let d : Desalojable z p = ground (arith, q) in
      let m : int_ltb u.prioridad p.prioridad ≡ true = ground (arith, q) in
      rw q (
        elegido-some z p u ps (elegir_victima z ps (some p)) d (IntLe-lt u.prioridad p.prioridad m)
          (elegir_victima-Final z ps (some p) d))
  | inr q ↦
      let d : (p.preemptado ≡ true) ⊎ IntLe p.prioridad u.prioridad =
        elim (no_elegido_some z p u q) [
          | inl e ↦ inl e
          | inr (inl e) ↦ inr (IntLe-trans p.prioridad z u.prioridad e (IntLe-lt z u.prioridad h.1))
          | inr (inr e) ↦ inr e
        ] in
      rw q (
        pasado-some z p u ps (elegir_victima z ps (some u)) d
          (elegir_victima-Final z ps (some u) h))
]

-- What the entry of a process into READY may do to the processes that run.
pub data Desalojo (s : EstadoKs) (z : ℤ) : EstadoKs → Type 0 where
  sin_desalojo : s.queue_preemption ≡ false → Desalojo s z s
  cpu_libre : hay_cpu_libre s.lista_cpus ≡ true → Desalojo s z s
  nadie : All (Cede z) s.cola_exec → Desalojo s z s
  desalojo :
      (v : Proceso)
      → Esta v s.cola_exec
      → Desalojable z v
      → All (Cede v.prioridad) s.cola_exec
      → hay_cpu_libre s.lista_cpus ≡ false
      → Desalojo s z (record s {
        cola_exec = marcar v.pid s.cola_exec;
        enviados = s.enviados ++ Envio.interrupcion_desalojo v.fd_cpu v.pid ∷ [];
      })

por_casos :
    (s : EstadoKs) (z : ℤ) (b libre : Bool) (o : Option Proceso)
    → s.queue_preemption ≡ b
    → hay_cpu_libre s.lista_cpus ≡ libre
    → Final z s.cola_exec none o
    → Desalojo s z (if not b then s else if libre then s else desalojar s o)
por_casos s z false libre o q r f = sin_desalojo q
por_casos s z true true o q r f = cpu_libre r
por_casos s z true false none q r f = nadie f.1
por_casos s z true false (some v) q r f = desalojo v f.0 f.1 f.2 r

-- A process that enters READY displaces one that runs only with preemption on and no free CPU. It
-- is one that is not being displaced already, whose priority is worse than that of the process
-- that enters and at least as bad as that of every other not being displaced; it is marked and its
-- CPU is interrupted. Where there is none such, the state stays as it is.
pub verificar_preemption-Desalojo :
    (s : EstadoKs) (p : Proceso) → Desalojo s p.prioridad (verificar_preemption s p)
unfolding verificar_preemption
verificar_preemption-Desalojo s p =
    por_casos s p.prioridad s.queue_preemption (hay_cpu_libre s.lista_cpus)
      (elegir_victima p.prioridad s.cola_exec none) refl refl
      (elegir_victima-Final p.prioridad s.cola_exec none tt)
