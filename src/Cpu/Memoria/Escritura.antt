-- ===== src/Cpu/Memoria/Escritura.antt =====
-- `memoria_write_fragmentada` writes the flat memory, over as many sticks as the range has.
use ssoo.Common.{
  ℕ, zero, suc, ◌+◌, ◌-◌, ◌≤◌, ◌<◌, ◌≡◌, refl, sym, ap, subst, ◌∙◌, some, List, ◌++◌, Bool-cases,
  inl, inr, ltb, ltb→lt, ltb→ge, ◌==◌, ◌||◌, length, length-take, length-drop, drop, drop-all,
  drop-drop, take-append-drop, slice, splice, splice-append, splice-nil, u32, u32_mod, uint32_max,
  true, false, arith,
}
use ssoo.Km.Sticks.{MemoryStick}
use ssoo.Km.Fisica.{Red}
use ssoo.Km.Fisica.Plana.{plana, length-plana}
use ssoo.Km.Endpoints.Busqueda.{stick_por_id}
use ssoo.Cpu.MemorySticks.Tabla.{RegistroSticks}
use ssoo.Cpu.MemorySticks.Conexion.{Entorno}
use ssoo.Cpu.MemorySticks.Resolver.{StickResuelto}
use ssoo.Cpu.MemorySticks.Fidelidad.{RegistroFiel, EsStick}
use ssoo.Cpu.MemorySticks.Resuelve.{resolver_id-Resuelta}
use ssoo.Cpu.Memoria.{
  memoria_write, stick_para, resolver_inicio, tamanio_fragmento, Escritura, escribir_fragmentos,
  memoria_write_fragmentada,
}
use ssoo.Cpu.Memoria.Acceso.{Mundo, memoria_write-splice}
use ssoo.Cpu.Memoria.Tramos.{stick_para-Alcanza, tamanio_fragmento_bounds}

paso_escritura :
    (f : ℕ) (env : Entorno) (red red' : Red) (r r' : RegistroSticks) (s s' : StickResuelto)
    (dir : ℕ) (datos : List ℕ) (p : ℕ)
    → ltb p (length datos) ≡ true
    → dir + length datos < u32_mod
    → stick_para env r s (dir + p) ≡ (r', some s')
    → 0 < tamanio_fragmento s' (dir + p) (length datos - p)
    → tamanio_fragmento s' (dir + p) (length datos - p) ≤ length datos - p
    → memoria_write env red s'.socket
        (dir + p)
        (slice p (tamanio_fragmento s' (dir + p) (length datos - p)) datos)
      ≡ (red', true)
    → escribir_fragmentos (suc f) env red r s dir datos p
      ≡ escribir_fragmentos f env red' r' s' dir datos
          (p + tamanio_fragmento s' (dir + p) (length datos - p))
unfolding escribir_fragmentos
paso_escritura f env red red' r r' s s' dir datos p mas h e a b g =
    let n = tamanio_fragmento s' (dir + p) (length datos - p) in
    let menor = ltb→lt p (length datos) mas in
    let e₁ : u32 (dir + p) ≡ dir + p = omega arith in
    let e₂ : u32 (p + n) ≡ p + n = omega (arith, b) in
    let e₃ : (n == 0) ≡ false = ground (arith, a) in
    rw (mas, e₁, e, escribir_fragmentos) (rw (e₃, g, e₂))

module _ (env : Entorno) (sticks : List MemoryStick) (fin : ℕ) where
  -- After a write: it succeeded, the memory has `xs` from `dir` on, and all goes on working.
  abbrev Escrita : Red → ℕ → List ℕ → Escritura → Type 0
  Escrita red dir xs ((red', r), ok) =
      (ok ≡ true)
      × (plana red' sticks ≡ splice dir xs (plana red sticks))
      × Mundo env red' sticks fin
      × RegistroFiel env sticks r

  -- Two writes in a row, the second from where the first ends.
  juntar :
      (red red' : Red) (dir p n : ℕ) (datos : List ℕ) (o : Escritura)
      → p + n ≤ length datos
      → dir + length datos ≤ length (plana red sticks)
      → plana red' sticks ≡ splice (dir + p) (slice p n datos) (plana red sticks)
      → Escrita red' (dir + (p + n)) (drop (p + n) datos) o
      → Escrita red (dir + p) (drop p datos) o
  juntar red red' dir p n datos ((red'', r), ok) h l pl (t, pl', m, w) =
      let xs = slice p n datos in
      let lx : length xs ≡ n = omega (arith, length-take n (drop p datos), length-drop p datos) in
      let e : dir + (p + n) ≡ dir + p + length xs = omega (arith, lx) in
      (
        t,
        pl'
            ∙ ap (λ k. splice k (drop (p + n) datos) (plana red' sticks)) e
            ∙ ap (splice (dir + p + length xs) (drop (p + n) datos)) pl
            ∙ splice-append (dir + p) xs (drop (p + n) datos) (plana red sticks) (omega arith)
            ∙ ap (λ (u : List ℕ). splice (dir + p) u (plana red sticks))
                (ap (◌++◌ xs) (sym (drop-drop p n datos)) ∙ take-append-drop n (drop p datos)),
        m,
        w,
      )

  escribir_fragmentos-Escrita :
      (f : ℕ) (red : Red) (r : RegistroSticks) (s : StickResuelto) (dir : ℕ) (datos : List ℕ)
      (p : ℕ)
      → Mundo env red sticks fin
      → RegistroFiel env sticks r
      → EsStick env sticks s
      → length datos - p < f
      → p ≤ length datos
      → dir + length datos ≤ fin
      → length datos < u32_mod - 8
      → Escrita red (dir + p) (drop p datos) (escribir_fragmentos f env red r s dir datos p)
  unfolding escribir_fragmentos
  escribir_fragmentos-Escrita zero red r s dir datos p m w es h k l c = absurd (omega arith)
  escribir_fragmentos-Escrita (suc f) red r s dir datos p m w es h k l c =
      elim (Bool-cases (ltb p (length datos))) [
        | inl mas ↦
            let menor = ltb→lt p (length datos) mas in
            let q =
              stick_para-Alcanza env sticks fin m.publicada r w s (dir + p) es (omega arith) in
            let s' = q.resuelta.stick in
            let r' = q.resuelta.registro in
            let es' = q.resuelta.es_stick in
            let n = tamanio_fragmento s' (dir + p) (length datos - p) in
            let (a, b, d) =
              tamanio_fragmento_bounds s' (dir + p) (length datos - p) es'.conocido q.arriba
                (omega arith) in
            let xs = slice p n datos in
            let lx : length xs ≡ n =
              omega (arith, length-take n (drop p datos), length-drop p datos, b) in
            let (red', g, pl, m') =
              memoria_write-splice env red sticks fin m s' es' (dir + p) xs (omega (arith, lx, a))
                q.abajo (omega (arith, lx, d)) (omega (arith, lx, b)) in
            let mem = m.memoria in
            let lp = length-plana 0 red sticks fin mem.contiguos mem.cableado in
            subst (Escrita red (dir + p) (drop p datos))
              (sym (
                paso_escritura f env red red' r r' s s' dir datos p mas
                  (omega (arith, mem.fin_cabe)) q.resuelta.resultado a b g))
              (juntar red red' dir p n datos _ (omega (arith, b)) (omega (arith, lp)) pl (
                escribir_fragmentos-Escrita f red' r' s' dir datos (p + n) m' q.resuelta.fiel es'
                  (omega (arith, a)) (omega (arith, b)) l c))
        | inr ultimo ↦
            let nada : p ≡ length datos = omega (arith, ltb→ge p (length datos) ultimo) in
            rw (ultimo, escribir_fragmentos)
              (
                refl,
                sym (
                    ap (λ (x : List ℕ). splice (dir + p) x (plana red sticks))
                      (drop-all p datos (omega arith))
                    ∙ splice-nil (dir + p) (plana red sticks)),
                m,
                w,
              )
      ]

-- A CPU that writes a range of physical memory, from the stick of the segment's table on, ends with
-- success, puts the bytes in that range and changes nothing else, however many sticks it crosses
-- and whether the CPU knew them before or asks Kernel Memory for them; the sticks go on working and
-- the table of the CPU agreeing with Kernel Memory's. The sticks are connected and have ids of their
-- own, the range is not empty and within the memory, the data short enough for one message, and the
-- first stick asked for is one of them.
pub memoria_write_fragmentada-splice :
    (env : Entorno) (red : Red) (sticks : List MemoryStick) (fin : ℕ) (r : RegistroSticks)
    (id dir : ℕ) (datos : List ℕ) (ms : MemoryStick)
    → Mundo env red sticks fin
    → RegistroFiel env sticks r
    → stick_por_id id sticks ≡ some ms
    → 0 < length datos
    → dir + length datos ≤ fin
    → length datos < u32_mod - 8
    → let o = memoria_write_fragmentada env red r id dir datos in
      (o.1 ≡ true)
      × (plana o.0.0 sticks ≡ splice dir datos (plana red sticks))
      × Mundo env o.0.0 sticks fin
      × RegistroFiel env sticks o.0.1
unfolding memoria_write_fragmentada resolver_inicio
memoria_write_fragmentada-splice env red sticks fin r id dir datos ms m w h p l c =
    let q = resolver_id-Resuelta env sticks fin m.publicada r w id ms h in
    let r₁ = q.registro in
    let t =
      stick_para-Alcanza env sticks fin m.publicada r₁ q.fiel q.stick dir q.es_stick
        (omega arith) in
    let e : dir + 0 ≡ dir = omega arith in
    let ih =
      escribir_fragmentos-Escrita env sticks fin (suc (length datos)) red t.resuelta.registro
        t.resuelta.stick dir datos 0 m t.resuelta.fiel t.resuelta.es_stick (omega arith)
        (omega arith) l c in
    rw (prueba p l m.memoria.fin_cabe, q.resultado, t.resuelta.resultado) (rw e at ih)
  where
    prueba :
        0 < length datos
        → dir + length datos ≤ fin
        → fin < u32_mod
        → (length datos == 0 || ltb (uint32_max - (length datos - 1)) dir) ≡ false
    prueba a b k = ground (arith, a, b, k)
