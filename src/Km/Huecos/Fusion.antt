-- ===== src/Km/Huecos/Fusion.antt =====
-- `fusionar_huecos`: what it keeps, and that its loop ends with no two ranges left to merge.
use ssoo.Common.{
  ℕ, zero, suc, ◌+◌, ◌≤◌, ◌≡◌, ◌≢◌, refl, ap, subst, ◌∙◌, ◌⊎◌, inl, inr, none, some, List, [], ◌∷◌,
  length, length-set, get_elem?, get_elem?-set_ne, set, All, ◌==◌, Bool-cases, Option-cases, u32,
  arith,
}
use ssoo.Km.Huecos.{
  Hueco, list_remove, buscar_contiguo, buscar_fusion, unir, fusionar_rondas, fusionar_huecos,
}
use ssoo.Km.Huecos.Cobertura.{
  cubre, libre, HuecoEnRango, cubre-add, libre-list_remove, libre-set, All-get, All-list_remove,
  All-set,
}

-- What the inner loop finds stands in the list, is not the `i`-th range, and starts at `fin`.
abbrev Contiguo : ℕ → ℕ → ℕ → List Hueco → ℕ × Hueco → Type 0
Contiguo fin i j hs (k, b) =
    (m : ℕ) × (k ≡ j + m) × (get_elem? hs m ≡ some b) × (i ≢ k) × (fin ≡ b.base_global)

buscar_contiguo-some :
    (fin i j : ℕ) (hs : List Hueco) (k : ℕ) (b : Hueco)
    → buscar_contiguo fin i j hs ≡ some (k, b)
    → Contiguo fin i j hs (k, b)
unfolding buscar_contiguo
buscar_contiguo-some fin i j [] k b e = absurd (cc)
buscar_contiguo-some fin i j (c ∷ hs) k b e = elim (Bool-cases (i == j)) [
  | inl mismo ↦ despues (buscar_contiguo-some fin i (suc j) hs k b (ground (arith, e, mismo)))
  | inr otro ↦ elim (Bool-cases (fin == c.base_global)) [
    | inl toca ↦ (
      0,
      ground (arith, e, otro, toca),
      ground (arith, e, otro, toca),
      ground (arith, e, otro, toca),
      ground (arith, e, otro, toca),
    )
    | inr lejos ↦
        despues (buscar_contiguo-some fin i (suc j) hs k b (ground (arith, e, otro, lejos)))
  ]
]
  where
    despues : Contiguo fin i (suc j) hs (k, b) → Contiguo fin i j (c ∷ hs) (k, b)
    despues (m, l, g, d, f) = (suc m, omega arith, g, d, f)

-- What it does not find is not there.
buscar_contiguo-none :
    (fin i j : ℕ) (hs : List Hueco) (k : ℕ) (b : Hueco)
    → buscar_contiguo fin i j hs ≡ none
    → get_elem? hs k ≡ some b
    → i ≢ j + k
    → fin ≢ b.base_global
unfolding buscar_contiguo
buscar_contiguo-none fin i j [] k b e g = absurd (cc)
buscar_contiguo-none fin i j (c ∷ hs) zero b e g = ground arith
buscar_contiguo-none fin i j (c ∷ hs) (suc k) b e g =
    ground (arith, buscar_contiguo-none fin i (suc j) hs k b)

-- What the outer loop finds, from index `i` on: two different ranges that touch.
abbrev Tocan : List Hueco → ℕ → List Hueco → ℕ × Hueco × ℕ × Hueco → Type 0
Tocan todos i hs (i', a, j, b) =
    (m : ℕ) × (i' ≡ i + m)
    × (get_elem? hs m ≡ some a)
    × (get_elem? todos j ≡ some b)
    × (i' ≢ j)
    × (u32 (a.base_global + a.tamanio) ≡ b.base_global)

buscar_fusion-some :
    (todos hs : List Hueco) (i : ℕ) (par : ℕ × Hueco × ℕ × Hueco)
    → buscar_fusion todos i hs ≡ some par
    → Tocan todos i hs par
unfolding buscar_fusion
buscar_fusion-some todos [] i par e = absurd (cc)
buscar_fusion-some todos (c ∷ hs) i par e =
    con (Option-cases (buscar_contiguo (u32 (c.base_global + c.tamanio)) i 0 todos))
      (buscar_fusion-some todos hs (suc i) par)
  where
    con :
        (buscar_contiguo (u32 (c.base_global + c.tamanio)) i 0 todos ≡ none)
          ⊎ ((kd : ℕ × Hueco) × (buscar_contiguo (u32 (c.base_global + c.tamanio)) i 0 todos
                ≡ some kd))
        → (buscar_fusion todos (suc i) hs ≡ some par → Tocan todos (suc i) hs par)
        → Tocan todos i (c ∷ hs) par
    con (inl nada) ih =
        let (m, l, g, g', d, f) = ih (ground (arith, e, nada)) in (suc m, omega arith, g, g', d, f)
    con (inr ((k, d), hay)) ih =
        let (m, l, g, n, f) = buscar_contiguo-some _ i 0 todos k d hay in
        let igual : (i, c, k, d) ≡ par = ground (arith, e, hay) in
        subst (Tocan todos i (c ∷ hs)) igual
          (0, omega arith, refl, subst (λ x. get_elem? todos x ≡ some d) (omega arith) g, n, f)

buscar_fusion-none :
    (todos hs : List Hueco) (i m j : ℕ) (a b : Hueco)
    → buscar_fusion todos i hs ≡ none
    → get_elem? hs m ≡ some a
    → get_elem? todos j ≡ some b
    → (i + m) ≢ j
    → u32 (a.base_global + a.tamanio) ≢ b.base_global
unfolding buscar_fusion
buscar_fusion-none todos [] i m j a b e g g' d = absurd (cc)
buscar_fusion-none todos (c ∷ hs) i zero j a b e g g' d =
    buscar_contiguo-none (u32 (a.base_global + a.tamanio)) i 0 todos j b (ground (arith, e, g)) g'
      (λ q. d (omega arith))
buscar_fusion-none todos (c ∷ hs) i (suc m) j a b e g g' d =
    buscar_fusion-none todos hs (suc i) m j a b (ground (arith, e)) g g' (λ q. d (omega arith))

module _ (a b : Hueco) (ha : HuecoEnRango a) where
  inicio :
      u32 (a.base_global + a.tamanio) ≡ b.base_global → a.base_global + a.tamanio ≡ b.base_global
  inicio f = omega arith

  juntos :
      HuecoEnRango b
      → u32 (a.base_global + a.tamanio) ≡ b.base_global
      → u32 (a.tamanio + b.tamanio) ≡ a.tamanio + b.tamanio
  juntos hb f = omega arith

-- One merge keeps every address as often free as it was.
unir-libre :
    (x : ℕ) (hs : List Hueco) (par : ℕ × Hueco × ℕ × Hueco)
    → All HuecoEnRango hs
    → Tocan hs 0 hs par
    → libre x (unir hs par) ≡ libre x hs
unfolding unir
unir-libre x hs (i, a, j, b) ok (m, l, g, g', d, f) =
    let gi : get_elem? hs i ≡ some a = subst (λ n. get_elem? hs n ≡ some a) (omega arith) g in
    let ha = All-get HuecoEnRango hs i gi ok in
    let hb = All-get HuecoEnRango hs j g' ok in
    let k : Hueco = record a { tamanio = u32 (a.tamanio + b.tamanio) } in
    omega (
      arith,
      libre-set x i a k hs gi,
      libre-list_remove x j b (set hs i k) (get_elem?-set_ne hs i j k d ∙ g'),
      cubre-add x a.base_global a.tamanio b.tamanio,
      ap (cubre x a.base_global) (juntos a b ha hb f),
      ap (λ n. cubre x n b.tamanio) (inicio a b ha f),
    )

unir-EnRango :
    (hs : List Hueco) (par : ℕ × Hueco × ℕ × Hueco)
    → All HuecoEnRango hs
    → Tocan hs 0 hs par
    → All HuecoEnRango (unir hs par)
unfolding unir
unir-EnRango hs (i, a, j, b) ok (m, l, g, g', d, f) =
    let gi : get_elem? hs i ≡ some a = subst (λ n. get_elem? hs n ≡ some a) (omega arith) g in
    let ha = All-get HuecoEnRango hs i gi ok in
    let hb = All-get HuecoEnRango hs j g' ok in
    All-list_remove HuecoEnRango _ j
      (All-set HuecoEnRango hs i _ (omega (arith, juntos a b ha hb f, inicio a b ha f)) ok)

length-list_remove :
    (hs : List Hueco) (j : ℕ) (b : Hueco)
    → get_elem? hs j ≡ some b
    → length hs ≡ suc (length (list_remove hs j))
unfolding list_remove
length-list_remove [] j b e = absurd (cc)
length-list_remove (h ∷ hs) zero b e = refl
length-list_remove (h ∷ hs) (suc j) b e = omega (arith, length-list_remove hs j b e)

length-unir :
    (hs : List Hueco) (par : ℕ × Hueco × ℕ × Hueco)
    → Tocan hs 0 hs par
    → length hs ≡ suc (length (unir hs par))
unfolding unir
length-unir hs (i, a, j, b) (m, l, g, g', d, f) =
    let k : Hueco = record a { tamanio = u32 (a.tamanio + b.tamanio) } in
    omega (
      arith,
      length-list_remove (set hs i k) j b (get_elem?-set_ne hs i j k d ∙ g'),
      length-set hs i k,
    )

module _ {ℓ} (P : List Hueco → Type ℓ) where
  -- What holds of a list and is kept by a merge of two ranges that touch holds after the loop.
  fusionar_rondas-keeps :
      ((hs : List Hueco) (par : ℕ × Hueco × ℕ × Hueco) → Tocan hs 0 hs par → P hs → P (unir hs par))
      → (n : ℕ) (hs : List Hueco) → P hs
      → P (fusionar_rondas n hs)
  unfolding fusionar_rondas
  fusionar_rondas-keeps keep zero hs p = p
  fusionar_rondas-keeps keep (suc n) hs p = elim (Option-cases (buscar_fusion hs 0 hs)) [
    | inl nada ↦ rw (nada, fusionar_rondas) p
    | inr (par, hay) ↦
        rw (hay, fusionar_rondas)
          (fusionar_rondas-keeps keep n (unir hs par)
            (keep hs par (buscar_fusion-some hs hs 0 par hay) p))
  ]

fusionar_rondas-fin :
    (n : ℕ) (hs : List Hueco)
    → length hs ≤ n
    → let r = fusionar_rondas n hs in buscar_fusion r 0 r ≡ none
unfolding fusionar_rondas
fusionar_rondas-fin zero [] h = unfold buscar_fusion in refl
fusionar_rondas-fin zero (x ∷ hs) h = absurd (omega arith)
fusionar_rondas-fin (suc n) hs h = elim (Option-cases (buscar_fusion hs 0 hs)) [
  | inl nada ↦ rw (nada, fusionar_rondas) nada
  | inr (par, hay) ↦
      rw (hay, fusionar_rondas)
        (fusionar_rondas-fin n (unir hs par)
          (omega (arith, length-unir hs par (buscar_fusion-some hs hs 0 par hay))))
]

-- Merging leaves every address as often free as it was and the ranges within 32 bits, provided that
-- they were non-empty ranges within 32 bits.
pub fusionar_huecos-libre :
    (hs : List Hueco)
    → All HuecoEnRango hs
    → ((x : ℕ) → libre x (fusionar_huecos hs) ≡ libre x hs) × All HuecoEnRango (fusionar_huecos hs)
unfolding fusionar_huecos
fusionar_huecos-libre hs ok =
    fusionar_rondas-keeps (λ ks. ((x : ℕ) → libre x ks ≡ libre x hs) × All HuecoEnRango ks)
      (λ ks par t (l, k). ((λ x. unir-libre x ks par k t ∙ l x), unir-EnRango ks par k t))
      (length hs) hs ((λ x. refl), ok)

-- The loop ends, and when it does no range ends where another one begins.
pub fusionar_huecos-fin :
    (hs : List Hueco) (i j : ℕ) (a b : Hueco)
    → get_elem? (fusionar_huecos hs) i ≡ some a
    → get_elem? (fusionar_huecos hs) j ≡ some b
    → i ≢ j
    → u32 (a.base_global + a.tamanio) ≢ b.base_global
unfolding fusionar_huecos
fusionar_huecos-fin hs i j a b g g' d =
    buscar_fusion-none _ _ 0 i j a b (fusionar_rondas-fin (length hs) hs (omega arith)) g g'
      (λ e. d (omega arith))
