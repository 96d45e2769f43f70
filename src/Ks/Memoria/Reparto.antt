-- ===== src/Ks/Memoria/Reparto.antt =====
-- How often a CPU is free or held by a process: kernel_scheduler/src/main.c.
use ssoo.Common.{
  ℕ, ◌+◌, ◌≤◌, ◌≡◌, refl, sym, Option, none, some, Option-cases, List, [], ◌∷◌, ◌++◌, true, uno_si,
  not, ◌&&◌, ℤ, int_eq, int_eq→eq, Bool-cases, inl, inr, arith,
}
use ssoo.Ks.Memoria.{quitar_cpu, separar_fd}
use ssoo.Ks.Planificador.{Proceso, CpuEntry, tomar_cpu, liberar_cpu, marcar, separar}

-- The entries of a free CPU with this descriptor.
unfoldable pub libres : ℤ → List CpuEntry → ℕ
libres fd [] = 0
libres fd (c ∷ cs) = uno_si (not c.ocupada && int_eq c.fd fd) + libres fd cs

-- The processes that hold the CPU with this descriptor.
unfoldable pub en_cpu : ℤ → List Proceso → ℕ
en_cpu fd [] = 0
en_cpu fd (p ∷ ps) = uno_si (int_eq p.fd_cpu fd) + en_cpu fd ps

abbrev pub en_cpu_opcion : ℤ → Option Proceso → ℕ
en_cpu_opcion fd none = 0
en_cpu_opcion fd (some p) = uno_si (int_eq p.fd_cpu fd)

pub en_cpu-append :
    (fd : ℤ) (ps qs : List Proceso) → en_cpu fd (ps ++ qs) ≡ en_cpu fd ps + en_cpu fd qs
unfolding en_cpu
en_cpu-append fd [] qs = omega arith
en_cpu-append fd (p ∷ ps) qs = let e = en_cpu-append fd ps qs in omega arith

pub en_cpu-uno : (fd : ℤ) (p : Proceso) → en_cpu fd (p ∷ []) ≡ uno_si (int_eq p.fd_cpu fd)
unfolding en_cpu
en_cpu-uno fd p = omega arith

pub libres-append :
    (fd : ℤ) (cs ds : List CpuEntry) → libres fd (cs ++ ds) ≡ libres fd cs + libres fd ds
unfolding libres
libres-append fd [] ds = omega arith
libres-append fd (c ∷ cs) ds = let e = libres-append fd cs ds in omega arith

pub en_cpu-marcar : (fd pid : ℤ) (ps : List Proceso) → en_cpu fd (marcar pid ps) ≡ en_cpu fd ps
unfolding en_cpu marcar
en_cpu-marcar fd pid [] = refl
en_cpu-marcar fd pid (p ∷ ps) = elim (Bool-cases (int_eq p.pid pid)) [
  | inl e ↦ rw e refl
  | inr e ↦ rw (e, en_cpu-marcar fd pid ps) refl
]

-- The CPU that is taken was free.
pub libres-tomar_cpu :
    (fd : ℤ) (cs : List CpuEntry) (g : ℤ) (cs' : List CpuEntry)
    → tomar_cpu cs ≡ some (g, cs')
    → libres fd cs ≡ uno_si (int_eq g fd) + libres fd cs'
unfolding libres tomar_cpu
libres-tomar_cpu fd [] g cs' e = absurd (cc)
libres-tomar_cpu fd (c ∷ cs) g cs' e = elim (Bool-cases c.ocupada) [
  | inr q ↦
      let eg : c.fd ≡ g = ground (arith, e, q) in
      let el : record c { ocupada = true } ∷ cs ≡ cs' = ground (arith, e, q) in
      rw (sym el, sym eg, q) (omega arith)
  | inl q ↦ elim (Option-cases (tomar_cpu cs)) [
    | inl r ↦ absurd (ground (arith, e, q, r))
    | inr ((h, l), r) ↦
        let eg : h ≡ g = ground (arith, e, q, r) in
        let el : c ∷ l ≡ cs' = ground (arith, e, q, r) in
        let k = libres-tomar_cpu fd cs h l r in rw (sym el, sym eg, q) (omega arith)
  ]
]

pub libres-liberar_cpu :
    (fd g : ℤ) (cs : List CpuEntry)
    → libres fd (liberar_cpu g cs) ≤ uno_si (int_eq g fd) + libres fd cs
unfolding libres liberar_cpu
libres-liberar_cpu fd g [] = omega arith
libres-liberar_cpu fd g (c ∷ cs) = elim (Bool-cases (int_eq c.fd g)) [
  | inl e ↦ let q : c.fd ≡ g = int_eq→eq c.fd g e in rw (e, q) (omega arith)
  | inr e ↦ let h = libres-liberar_cpu fd g cs in rw e (omega arith)
]

pub en_cpu-separar :
    (fd pid : ℤ) (qs : List Proceso) (hallado : Option Proceso) (otros : List Proceso)
    → let r = separar pid qs hallado otros in
      en_cpu_opcion fd r.0 + en_cpu fd r.1
      ≤ en_cpu_opcion fd hallado + (en_cpu fd otros + en_cpu fd qs)
unfolding separar en_cpu
en_cpu-separar fd pid [] hallado otros = omega arith
en_cpu-separar fd pid (q ∷ qs) hallado otros = elim (Bool-cases (int_eq q.pid pid)) [
  | inl e ↦ let h = en_cpu-separar fd pid qs (some q) otros in rw (separar, e) (omega arith)
  | inr e ↦
      let h = en_cpu-separar fd pid qs hallado (otros ++ q ∷ []) in
      let a = en_cpu-append fd otros (q ∷ []) in rw (separar, e) (omega arith)
]

pub libres-quitar_cpu : (fd g : ℤ) (cs : List CpuEntry) → libres fd (quitar_cpu g cs) ≤ libres fd cs
unfolding libres quitar_cpu
libres-quitar_cpu fd g [] = omega arith
libres-quitar_cpu fd g (c ∷ cs) = elim (Bool-cases (int_eq c.fd g)) [
  | inl e ↦ rw e (omega arith)
  | inr e ↦ let h = libres-quitar_cpu fd g cs in rw e (omega arith)
]

-- A lost CPU adds no process to those that run.
pub en_cpu-separar_fd :
    (fd g : ℤ) (qs : List Proceso) (hallado : Option Proceso) (otros : List Proceso)
    → en_cpu fd (separar_fd g qs hallado otros).1 ≤ en_cpu fd otros + en_cpu fd qs
unfolding separar_fd en_cpu
en_cpu-separar_fd fd g [] hallado otros = omega arith
en_cpu-separar_fd fd g (q ∷ qs) (some p) otros =
    let h = en_cpu-separar_fd fd g qs (some p) (otros ++ q ∷ []) in
    let a = en_cpu-append fd otros (q ∷ []) in omega arith
en_cpu-separar_fd fd g (q ∷ qs) none otros = elim (Bool-cases (int_eq q.fd_cpu g)) [
  | inl e ↦ let h = en_cpu-separar_fd fd g qs (some q) otros in rw (separar_fd, e) (omega arith)
  | inr e ↦
      let h = en_cpu-separar_fd fd g qs none (otros ++ q ∷ []) in
      let a = en_cpu-append fd otros (q ∷ []) in rw (separar_fd, e) (omega arith)
]
