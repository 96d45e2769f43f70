-- ===== src/Km/Fisica/Escritura.antt =====
-- `escribir_fisico` writes the abstract memory, over as many sticks as the range has.
use ssoo.Common.{
  ℕ, zero, suc, ◌+◌, ◌-◌, ◌≤◌, ◌<◌, ◌≡◌, refl, sym, ap, subst, ◌∙◌, inl, inr, some, List, ◌++◌,
  length, length-take, length-drop, ltb, ◌==◌, slice, splice, splice-middle, splice-append,
  splice-nil, length-splice, drop-all, drop-drop, take-append-drop, drop, uint32_max, u32_mod, u32,
  Bool, true, false, ◌||◌, arith, Bool-cases, ltb→lt, ltb→ge,
}
use ssoo.MemoryStick.{EstadoStick}
use ssoo.MemoryStick.Pedidos.{atender_kernel_memory-write}
use ssoo.Km.Sticks.{MemoryStick, ms_para_direccion}
use ssoo.Km.Fisica.{Red, actualizar, ms_escribir, tramo, escribir_desde, escribir_fisico}
use ssoo.Km.Fisica.Plana.{plana, Memoria, hallar, length-plana, tramo_bounds, length-buffer}

abbrev escrito_en : EstadoStick → ℕ → List ℕ → EstadoStick
escrito_en e d xs = record e { buffer = splice d xs e.buffer }

-- A request within a stick writes its buffer.
ms_escribir-splice :
    (red : Red) (ms : MemoryStick) (d : ℕ) (xs : List ℕ)
    → 0 < length xs
    → d + length xs ≤ length (red ms.fd).buffer
    → length (red ms.fd).buffer < u32_mod
    → length xs < u32_mod - 8
    → ms_escribir red ms d xs ≡ (actualizar red ms.fd (escrito_en (red ms.fd) d xs), true)
unfolding ms_escribir splice
ms_escribir-splice red ms d xs p h k l =
    rw (atender_kernel_memory-write (red ms.fd) d xs p h (omega arith) l) (ground (arith, p, l))

module _ (sticks : List MemoryStick) (fin : ℕ) where
  -- After a write: it succeeded, the memory still works and has `xs` from `dir` on.
  abbrev Escrita : Red → ℕ → List ℕ → Red × Bool → Type 0
  Escrita red dir xs (red', ok) =
      (ok ≡ true) × (plana red' sticks ≡ splice dir xs (plana red sticks)) × Memoria red' sticks fin

  pub ronda_escritura :
      (red : Red) (dir falta : ℕ)
      → Memoria red sticks fin
      → dir < fin
      → 0 < falta
      → (ms : MemoryStick) × (d : ℕ) × (ms_para_direccion dir sticks ≡ some (ms, d))
        × (0 < tramo ms d falta)
        × (tramo ms d falta ≤ falta)
        × ((xs : List ℕ)
            → length xs ≡ tramo ms d falta
            → length xs < u32_mod - 8
            → (red' : Red) × (ms_escribir red ms d xs ≡ (red', true))
              × (plana red' sticks ≡ splice dir xs (plana red sticks))
              × Memoria red' sticks fin)
  ronda_escritura red dir falta m h p =
      let r = hallar red 0 sticks fin dir m.contiguos m.activos m.cableado (omega arith) h in
      let d = dir - r.ms.offset_global in
      let (a, b, c) = tramo_bounds r.ms d falta (omega (arith, r.arriba, r.abajo)) p in
      (
        r.ms,
        d,
        r.hallado,
        a,
        b,
        λ xs l k.
            let buf = (red r.ms.fd).buffer in
            let lb = length-buffer red sticks fin dir m r in
            let cabe : d + length xs ≤ length buf = omega (arith, c, r.mide, l) in
            let e = escrito_en (red r.ms.fd) d xs in
            let lugar : dir ≡ length r.antes + d = omega (arith, r.desde, r.abajo) in
            let (pl, w) = r.cambio e (length-splice d xs buf cabe ∙ r.mide) in
            let trozo : plana (actualizar red r.ms.fd e) sticks ≡ splice dir xs (plana red sticks) =
              pl
              ∙ sym (splice-middle r.antes buf r.despues xs d cabe)
              ∙ ap (λ k. splice k xs (r.antes ++ (buf ++ r.despues))) (sym lugar)
              ∙ ap (splice dir xs) (sym r.partes) in
            (
              actualizar red r.ms.fd e,
              ms_escribir-splice red r.ms d xs (omega (arith, a, l)) cabe
                  (omega (arith, lb, m.fin_cabe)) k,
              trozo,
              record {
                contiguos = m.contiguos;
                activos = m.activos;
                cableado = w;
                fin_cabe = m.fin_cabe;
              },
            ),
      )

  paso_escritura :
      (f : ℕ) (red red' : Red) (dir : ℕ) (datos : List ℕ) (escrito : ℕ)
      → ltb escrito (length datos) ≡ true
      → dir + length datos ≤ fin
      → fin < u32_mod
      → (ms : MemoryStick) (d : ℕ) → ms_para_direccion (dir + escrito) sticks ≡ some (ms, d)
      → tramo ms d (length datos - escrito) ≤ length datos - escrito
      → ms_escribir red ms d (slice escrito (tramo ms d (length datos - escrito)) datos)
        ≡ (red', true)
      → escribir_desde (suc f) red sticks dir datos escrito
        ≡ escribir_desde f red' sticks dir datos (escrito + tramo ms d (length datos - escrito))
  unfolding escribir_desde
  paso_escritura f red red' dir datos escrito mas l cabe ms d e b w =
      let n = tramo ms d (length datos - escrito) in
      let menor = ltb→lt escrito (length datos) mas in
      let e₁ : u32 (dir + escrito) ≡ dir + escrito = omega arith in
      let e₂ : u32 (escrito + n) ≡ escrito + n = omega (arith, b) in
      rw (mas, e₁, e, w, e₂, escribir_desde)
        (ap (λ (r : Red × Bool). escribir_desde f r.0 sticks dir datos (escrito + n)) w)

  -- Two writes in a row, the second from where the first ends.
  juntar :
      (red red' : Red) (dir escrito n : ℕ) (datos : List ℕ) (r : Red × Bool)
      → escrito + n ≤ length datos
      → dir + length datos ≤ length (plana red sticks)
      → plana red' sticks ≡ splice (dir + escrito) (slice escrito n datos) (plana red sticks)
      → Escrita red' (dir + (escrito + n)) (drop (escrito + n) datos) r
      → Escrita red (dir + escrito) (drop escrito datos) r
  juntar red red' dir escrito n datos (red'', ok) h l pl (t, pl', m) =
      let xs = slice escrito n datos in
      let lx : length xs ≡ n =
        omega (arith, length-take n (drop escrito datos), length-drop escrito datos) in
      let e : dir + (escrito + n) ≡ dir + escrito + length xs = omega (arith, lx) in
      (
        t,
        pl'
            ∙ ap (λ k. splice k (drop (escrito + n) datos) (plana red' sticks)) e
            ∙ ap (splice (dir + escrito + length xs) (drop (escrito + n) datos)) pl
            ∙ splice-append (dir + escrito) xs (drop (escrito + n) datos) (plana red sticks)
                (omega arith)
            ∙ ap (λ (u : List ℕ). splice (dir + escrito) u (plana red sticks))
                (ap (◌++◌ xs) (sym (drop-drop escrito n datos))
                  ∙ take-append-drop n (drop escrito datos)),
        m,
      )

  escribir_desde-splice :
      (f : ℕ) (red : Red) (dir : ℕ) (datos : List ℕ) (escrito : ℕ)
      → Memoria red sticks fin
      → length datos - escrito < f
      → escrito ≤ length datos
      → dir + length datos ≤ fin
      → length datos < u32_mod - 8
      → Escrita red
          (dir + escrito)
          (drop escrito datos)
          (escribir_desde f red sticks dir datos escrito)
  unfolding escribir_desde
  escribir_desde-splice zero red dir datos escrito m h k l c = absurd (omega arith)
  escribir_desde-splice (suc f) red dir datos escrito m h k l c =
      elim (Bool-cases (ltb escrito (length datos))) [
        | inl mas ↦
            let menor = ltb→lt escrito (length datos) mas in
            let (ms, d, e, a, b, g) =
              ronda_escritura red (dir + escrito) (length datos - escrito) m (omega arith)
                (omega arith) in
            let n = tramo ms d (length datos - escrito) in
            let xs = slice escrito n datos in
            let lx : length xs ≡ n =
              omega (arith, length-take n (drop escrito datos), length-drop escrito datos, b) in
            let (red', w, pl, m') = g xs lx (omega (arith, lx, b)) in
            let lp = length-plana 0 red sticks fin m.contiguos m.cableado in
            subst (Escrita red (dir + escrito) (drop escrito datos))
              (sym (paso_escritura f red red' dir datos escrito mas l m.fin_cabe ms d e b w))
              (juntar red red' dir escrito n datos _ (omega (arith, b)) (omega (arith, lp)) pl (
                escribir_desde-splice f red' dir datos (escrito + n) m' (omega (arith, a))
                  (omega (arith, b)) l c))
        | inr ultimo ↦
            let nada : escrito ≡ length datos =
              omega (arith, ltb→ge escrito (length datos) ultimo) in
            rw (ultimo, escribir_desde)
              (
                refl,
                sym (
                    ap (λ (x : List ℕ). splice (dir + escrito) x (plana red sticks))
                      (drop-all escrito datos (omega arith))
                    ∙ splice-nil (dir + escrito) (plana red sticks)),
                m,
              )
      ]

-- Writing a range of physical memory ends with success, puts the bytes in that range, changes
-- nothing else, and leaves the memory working, however many sticks the range crosses, as long as
-- every stick is connected, the range is not empty and within the memory, and the data is short
-- enough for one message.
pub escribir_fisico-splice :
    (red : Red) (sticks : List MemoryStick) (fin dir : ℕ) (datos : List ℕ)
    → Memoria red sticks fin
    → 0 < length datos
    → dir + length datos ≤ fin
    → length datos < u32_mod - 8
    → let r = escribir_fisico red sticks dir datos in
      (r.1 ≡ true)
      × (plana r.0 sticks ≡ splice dir datos (plana red sticks))
      × Memoria r.0 sticks fin
unfolding escribir_fisico
escribir_fisico-splice red sticks fin dir datos m p h c =
    let e : dir + 0 ≡ dir = omega arith in
    let prueba : (length datos == 0 || ltb (uint32_max - (length datos - 1)) dir) ≡ false =
      cabe p h m.fin_cabe in
    rw prueba (
      subst
        (λ k.
          Escrita sticks fin red k datos
            (escribir_desde (suc (length datos)) red sticks dir datos 0))
        e
        (escribir_desde-splice sticks fin (suc (length datos)) red dir datos 0 m (omega arith)
          (omega arith) h c))
  where
    cabe :
        0 < length datos
        → dir + length datos ≤ fin
        → fin < u32_mod
        → (length datos == 0 || ltb (uint32_max - (length datos - 1)) dir) ≡ false
    cabe q k l = ground (arith, q, k, l)
