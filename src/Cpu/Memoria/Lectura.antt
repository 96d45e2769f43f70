-- ===== src/Cpu/Memoria/Lectura.antt =====
-- `memoria_read_fragmentada` reads the flat memory, over as many sticks as the range has.
use ssoo.Common.{
  ℕ, zero, suc, ◌+◌, ◌-◌, ◌≤◌, ◌<◌, ◌≡◌, refl, sym, ap, subst, Option, some, List, Bool-cases, inl,
  inr, ltb, ltb→lt, ltb→ge, ◌==◌, ◌||◌, slice, slice-add, u32, u32_mod, uint32_max, true, false,
  arith,
}
use ssoo.Km.Sticks.{MemoryStick}
use ssoo.Km.Fisica.{Red}
use ssoo.Km.Fisica.Plana.{plana}
use ssoo.Km.Endpoints.Busqueda.{stick_por_id}
use ssoo.Cpu.MemorySticks.Tabla.{RegistroSticks}
use ssoo.Cpu.MemorySticks.Conexion.{Entorno}
use ssoo.Cpu.MemorySticks.Resolver.{StickResuelto}
use ssoo.Cpu.MemorySticks.Fidelidad.{RegistroFiel, EsStick}
use ssoo.Cpu.MemorySticks.Resuelve.{resolver_id-Resuelta}
use ssoo.Cpu.Memoria.{
  memoria_read, stick_para, resolver_inicio, tamanio_fragmento, anteponer_leido, leer_fragmentos,
  memoria_read_fragmentada,
}
use ssoo.Cpu.Memoria.Acceso.{Mundo, memoria_read-slice}
use ssoo.Cpu.Memoria.Tramos.{stick_para-Alcanza, tamanio_fragmento_bounds}

paso_lectura :
    (f : ℕ) (env : Entorno) (red : Red) (r r' : RegistroSticks) (s s' : StickResuelto)
    (dir tamanio p : ℕ) (chunk : List ℕ)
    → ltb p tamanio ≡ true
    → dir + tamanio < u32_mod
    → stick_para env r s (dir + p) ≡ (r', some s')
    → 0 < tamanio_fragmento s' (dir + p) (tamanio - p)
    → tamanio_fragmento s' (dir + p) (tamanio - p) ≤ tamanio - p
    → memoria_read env red s'.socket (dir + p) (tamanio_fragmento s' (dir + p) (tamanio - p))
      ≡ some chunk
    → leer_fragmentos (suc f) env red r s dir tamanio p
      ≡ anteponer_leido chunk (
          leer_fragmentos f env red r' s' dir tamanio
            (p + tamanio_fragmento s' (dir + p) (tamanio - p)))
unfolding leer_fragmentos
paso_lectura f env red r r' s s' dir tamanio p chunk mas h e a b g =
    let n = tamanio_fragmento s' (dir + p) (tamanio - p) in
    let menor = ltb→lt p tamanio mas in
    let e₁ : u32 (dir + p) ≡ dir + p = omega arith in
    let e₂ : u32 (p + n) ≡ p + n = omega (arith, b) in
    let e₃ : (n == 0) ≡ false = ground (arith, a) in
    rw (mas, e₁, e, leer_fragmentos) (rw (e₃, g, e₂))

module _ (env : Entorno) (red : Red) (sticks : List MemoryStick) (fin : ℕ)
    (m : Mundo env red sticks fin) where
  -- What a read that started at `dir` gives, and that the table still agrees.
  abbrev Leida : ℕ → ℕ → RegistroSticks × Option (List ℕ) → Type 0
  Leida dir n (r, o) = (o ≡ some (slice dir n (plana red sticks))) × RegistroFiel env sticks r

  anteponer-Leida :
      (dir n k : ℕ) (o : RegistroSticks × Option (List ℕ))
      → Leida (dir + n) k o
      → Leida dir (n + k) (anteponer_leido (slice dir n (plana red sticks)) o)
  anteponer-Leida dir n k (r, o) (e, f) = (rw e (ap some (slice-add dir n k (plana red sticks))), f)

  leer_fragmentos-Leida :
      (f : ℕ) (r : RegistroSticks) (s : StickResuelto) (dir tamanio p : ℕ)
      → RegistroFiel env sticks r
      → EsStick env sticks s
      → tamanio - p < f
      → p ≤ tamanio
      → dir + tamanio ≤ fin
      → Leida (dir + p) (tamanio - p) (leer_fragmentos f env red r s dir tamanio p)
  unfolding leer_fragmentos
  leer_fragmentos-Leida zero r s dir tamanio p w es h k l = absurd (omega arith)
  leer_fragmentos-Leida (suc f) r s dir tamanio p w es h k l = elim (Bool-cases (ltb p tamanio)) [
    | inl mas ↦
        let menor = ltb→lt p tamanio mas in
        let q = stick_para-Alcanza env sticks fin m.publicada r w s (dir + p) es (omega arith) in
        let s' = q.resuelta.stick in
        let r' = q.resuelta.registro in
        let es' = q.resuelta.es_stick in
        let n = tamanio_fragmento s' (dir + p) (tamanio - p) in
        let (a, b, c) =
          tamanio_fragmento_bounds s' (dir + p) (tamanio - p) es'.conocido q.arriba (omega arith) in
        let g = memoria_read-slice env red sticks fin m s' es' (dir + p) n a q.abajo c in
        let ih =
          leer_fragmentos-Leida f r' s' dir tamanio (p + n) q.resuelta.fiel es' (omega (arith, a))
            (omega (arith, b)) l in
        let e₁ : dir + (p + n) ≡ dir + p + n = omega arith in
        let e₂ : n + (tamanio - (p + n)) ≡ tamanio - p = omega (arith, b) in
        let paso =
          paso_lectura f env red r r' s s' dir tamanio p (slice (dir + p) n (plana red sticks)) mas
            (omega (arith, m.memoria.fin_cabe)) q.resuelta.resultado a b g in
        subst (Leida (dir + p) (tamanio - p)) (sym paso) (
          subst
            (λ k. Leida (dir + p) k (
              anteponer_leido (slice (dir + p) n (plana red sticks))
                (leer_fragmentos f env red r' s' dir tamanio (p + n))))
            e₂
            (anteponer-Leida (dir + p) n (tamanio - (p + n))
              (leer_fragmentos f env red r' s' dir tamanio (p + n))
              (subst
                (λ k.
                  Leida k (tamanio - (p + n)) (leer_fragmentos f env red r' s' dir tamanio (p + n)))
                e₁ ih)))
    | inr ultimo ↦
        let nada : tamanio - p ≡ 0 = omega (arith, ltb→ge p tamanio ultimo) in
        rw (ultimo, nada, leer_fragmentos) (refl, w)
  ]

-- A CPU that reads a range of physical memory, from the stick of the segment's table on, ends and
-- gets the bytes of that range, however many sticks it crosses and whether the CPU knew them before
-- or asks Kernel Memory for them; its table of sticks goes on agreeing with Kernel Memory's. The
-- sticks are connected and have ids of their own, the range is not empty and within the memory, and
-- the first stick asked for is one of them.
pub memoria_read_fragmentada-slice :
    (env : Entorno) (red : Red) (sticks : List MemoryStick) (fin : ℕ) (r : RegistroSticks)
    (id dir tamanio : ℕ) (ms : MemoryStick)
    → Mundo env red sticks fin
    → RegistroFiel env sticks r
    → stick_por_id id sticks ≡ some ms
    → 0 < tamanio
    → dir + tamanio ≤ fin
    → let o = memoria_read_fragmentada env red r id dir tamanio in
      (o.1 ≡ some (slice dir tamanio (plana red sticks))) × RegistroFiel env sticks o.0
unfolding memoria_read_fragmentada resolver_inicio
memoria_read_fragmentada-slice env red sticks fin r id dir tamanio ms m w h p l =
    let q = resolver_id-Resuelta env sticks fin m.publicada r w id ms h in
    let r₁ = q.registro in
    let t =
      stick_para-Alcanza env sticks fin m.publicada r₁ q.fiel q.stick dir q.es_stick
        (omega arith) in
    let e : dir + 0 ≡ dir = omega arith in
    let e' : tamanio - 0 ≡ tamanio = omega arith in
    let ih =
      leer_fragmentos-Leida env red sticks fin m (suc tamanio) t.resuelta.registro t.resuelta.stick
        dir tamanio 0 t.resuelta.fiel t.resuelta.es_stick (omega arith) (omega arith) l in
    rw (prueba p l m.memoria.fin_cabe, q.resultado, t.resuelta.resultado) (rw (e, e') at ih)
  where
    prueba :
        0 < tamanio
        → dir + tamanio ≤ fin
        → fin < u32_mod
        → (tamanio == 0 || ltb (uint32_max - (tamanio - 1)) dir) ≡ false
    prueba a b c = ground (arith, a, b, c)
