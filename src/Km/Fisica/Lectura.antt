-- ===== src/Km/Fisica/Lectura.antt =====
-- `leer_fisico` reads the abstract memory, over as many sticks as the range has.
use ssoo.Common.{
  ℕ, zero, suc, ◌+◌, ◌-◌, ◌≤◌, ◌<◌, ◌≡◌, sym, ap, ◌∙◌, inl, inr, some, List, ◌++◌, length,
  length-take, length-drop, ltb, slice, slice-middle, slice-add, drop, u32_mod, u32, true, arith,
  Bool-cases, ltb→lt, ltb→ge,
}
use ssoo.MemoryStick.Pedidos.{atender_kernel_memory-read}
use ssoo.Km.Sticks.{MemoryStick, ms_para_direccion}
use ssoo.Km.Fisica.{Red, ms_leer, tramo, leer_desde, leer_fisico}
use ssoo.Km.Fisica.Plana.{plana, Memoria, hallar, tramo_bounds, length-buffer}

-- A request within a stick brings the bytes of its buffer.
ms_leer-slice :
    (red : Red) (ms : MemoryStick) (d n : ℕ)
    → 0 < n
    → d + n ≤ length (red ms.fd).buffer
    → length (red ms.fd).buffer < u32_mod
    → ms_leer red ms d n ≡ some (slice d n (red ms.fd).buffer)
unfolding ms_leer
ms_leer-slice red ms d n p h k =
    let l : length (slice d n (red ms.fd).buffer) ≡ n =
      omega (arith, length-take n (drop d (red ms.fd).buffer), length-drop d (red ms.fd).buffer) in
    rw (atender_kernel_memory-read (red ms.fd) d n p h (omega arith) (omega arith), l)
      (ground (arith, p))

module _ (red : Red) (sticks : List MemoryStick) (fin : ℕ) (m : Memoria red sticks fin) where
  -- One round: a stick holds the address, and what is asked of it is a slice of the memory.
  pub ronda_lectura :
      (dir falta : ℕ)
      → dir < fin
      → 0 < falta
      → (ms : MemoryStick) × (d : ℕ) × (ms_para_direccion dir sticks ≡ some (ms, d))
        × (0 < tramo ms d falta)
        × (tramo ms d falta ≤ falta)
        × (ms_leer red ms d (tramo ms d falta)
            ≡ some (slice dir (tramo ms d falta) (plana red sticks)))
  ronda_lectura dir falta h p =
      let r = hallar red 0 sticks fin dir m.contiguos m.activos m.cableado (omega arith) h in
      let d = dir - r.ms.offset_global in
      let n = tramo r.ms d falta in
      let buf = (red r.ms.fd).buffer in
      let (a, b, c) = tramo_bounds r.ms d falta (omega (arith, r.arriba, r.abajo)) p in
      let cabe : d + n ≤ length buf = omega (arith, c, r.mide) in
      let lb = length-buffer red sticks fin dir m r in
      let lugar : dir ≡ length r.antes + d = omega (arith, r.desde, r.abajo) in
      let trozo : slice dir n (plana red sticks) ≡ slice d n buf =
        ap (slice dir n) r.partes
        ∙ ap (λ k. slice k n (r.antes ++ (buf ++ r.despues))) lugar
        ∙ slice-middle r.antes buf r.despues d n cabe in
      (
        r.ms,
        d,
        r.hallado,
        a,
        b,
        ms_leer-slice red r.ms d n a cabe (omega (arith, m.fin_cabe, lb)) ∙ ap some (sym trozo),
      )

  paso_lectura :
      (f dir tamanio leido : ℕ)
      → ltb leido tamanio ≡ true
      → dir + tamanio ≤ fin
      → (ms : MemoryStick) (d : ℕ) → ms_para_direccion (dir + leido) sticks ≡ some (ms, d)
      → 0 < tramo ms d (tamanio - leido)
      → tramo ms d (tamanio - leido) ≤ tamanio - leido
      → ms_leer red ms d (tramo ms d (tamanio - leido))
        ≡ some (slice (dir + leido) (tramo ms d (tamanio - leido)) (plana red sticks))
      → leer_desde f red sticks dir tamanio (leido + tramo ms d (tamanio - leido))
        ≡ some (
            slice
              (dir + (leido + tramo ms d (tamanio - leido)))
              (tamanio - (leido + tramo ms d (tamanio - leido)))
              (plana red sticks))
      → leer_desde (suc f) red sticks dir tamanio leido
        ≡ some (slice (dir + leido) (tamanio - leido) (plana red sticks))
  unfolding leer_desde
  paso_lectura f dir tamanio leido mas l ms d e a b g ih =
      let n = tramo ms d (tamanio - leido) in
      let p = plana red sticks in
      let menor = ltb→lt leido tamanio mas in
      let cabe = m.fin_cabe in
      let e₁ : u32 (dir + leido) ≡ dir + leido = omega arith in
      let e₂ : u32 (leido + n) ≡ leido + n = omega arith in
      let e₃ : dir + (leido + n) ≡ dir + leido + n = omega arith in
      let e₄ : n + (tamanio - (leido + n)) ≡ tamanio - leido = omega arith in
      rw (mas, e₁, e, g, e₂, ih, leer_desde)
        (ap some (
          ap (λ k. slice (dir + leido) n p ++ slice k (tamanio - (leido + n)) p) e₃
          ∙ slice-add (dir + leido) n (tamanio - (leido + n)) p
          ∙ ap (λ k. slice (dir + leido) k p) e₄))

  leer_desde-slice :
      (f dir tamanio leido : ℕ)
      → tamanio - leido < f
      → leido ≤ tamanio
      → dir + tamanio ≤ fin
      → leer_desde f red sticks dir tamanio leido
        ≡ some (slice (dir + leido) (tamanio - leido) (plana red sticks))
  unfolding leer_desde
  leer_desde-slice zero dir tamanio leido h k l = absurd (omega arith)
  leer_desde-slice (suc f) dir tamanio leido h k l = elim (Bool-cases (ltb leido tamanio)) [
    | inl mas ↦
        let (ms, d, e, a, b, g) =
          ronda_lectura (dir + leido) (tamanio - leido) (omega (arith, ltb→lt leido tamanio mas))
            (omega (arith, ltb→lt leido tamanio mas)) in
        paso_lectura f dir tamanio leido mas l ms d e a b g (
          leer_desde-slice f dir tamanio (leido + tramo ms d (tamanio - leido)) (omega arith)
            (omega arith) l)
    | inr ultimo ↦
        let nada : tamanio - leido ≡ 0 = omega (arith, ltb→ge leido tamanio ultimo) in
        rw (ultimo, nada, leer_desde)
  ]

-- Reading a range of physical memory ends, and gives the bytes of that range, however many sticks
-- it crosses, as long as every stick is connected and the range is not empty and within the memory.
pub leer_fisico-slice :
    (red : Red) (sticks : List MemoryStick) (fin dir tamanio : ℕ)
    → Memoria red sticks fin
    → 0 < tamanio
    → dir + tamanio ≤ fin
    → leer_fisico red sticks dir tamanio ≡ some (slice dir tamanio (plana red sticks))
unfolding leer_fisico
leer_fisico-slice red sticks fin dir tamanio m p h =
    let e : dir + 0 ≡ dir = omega arith in
    let e' : tamanio - 0 ≡ tamanio = omega arith in
    let r =
      leer_desde-slice red sticks fin m (suc tamanio) dir tamanio 0 (omega arith) (omega arith) h in
    rw (rw (e, e') at r) (ground (arith, p, h, m.fin_cabe))
