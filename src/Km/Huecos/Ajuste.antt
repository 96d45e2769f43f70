-- ===== src/Km/Huecos/Ajuste.antt =====
-- What best fit and worst fit choose.
use ssoo.Common.{
  ℕ, ◌≤◌, ◌<◌, ◌≡◌, subst, inl, inr, Option, true, false, none, some, List, [], ◌∷◌, ◌++◌, length,
  length-append, get_elem?, get_elem?-append, get_elem?-length, All, All-append, All-map,
  append_assoc, append-nil, leb, ltb, ◌&&◌, Bool-cases, Texto, arith, strcmp, codes,
}
use ssoo.Km.Huecos.{
  Hueco, mejor_de, best_fit_desde, best_fit, peor_de, worst_fit_desde, worst_fit, seleccionar_hueco,
}

-- A choice among the ranges `hs`: a range that stands in the list and holds `tamanio` bytes, and
-- `R`-before every other such range; or none, because every range is too small.
abbrev pub Elegido : (ℕ → ℕ → Type 0) → ℕ → List Hueco → Option (ℕ × Hueco) → Type 0
Elegido R tamanio hs none = All (λ h. h.tamanio < tamanio) hs
Elegido R tamanio hs (some (k, m)) =
    (get_elem? hs k ≡ some m)
    × (tamanio ≤ m.tamanio)
    × All (λ h. tamanio ≤ h.tamanio → R m.tamanio h.tamanio) hs

abbrev pub MenorIgual : ℕ → ℕ → Type 0
MenorIgual a b = a ≤ b

abbrev pub MayorIgual : ℕ → ℕ → Type 0
MayorIgual a b = b ≤ a

module _ (R : ℕ → ℕ → Type 0) (tamanio : ℕ) (vs : List Hueco) (h : Hueco) where
  -- The new range is chosen.
  nuevo :
      tamanio ≤ h.tamanio
      → All (λ k. tamanio ≤ k.tamanio → R h.tamanio k.tamanio) vs
      → R h.tamanio h.tamanio
      → Elegido R tamanio (vs ++ h ∷ []) (some (length vs, h))
  nuevo le a r = (
    get_elem?-length vs [] h,
    le,
    All-append (λ k. tamanio ≤ k.tamanio → R h.tamanio k.tamanio) vs (h ∷ []) a ((λ _. r), tt),
  )

  -- The old choice stands.
  viejo :
      (k : ℕ) (m : Hueco)
      → Elegido R tamanio vs (some (k, m))
      → (tamanio ≤ h.tamanio → R m.tamanio h.tamanio)
      → Elegido R tamanio (vs ++ h ∷ []) (some (k, m))
  viejo k m (e, le, a) r = (
    get_elem?-append vs (h ∷ []) k e,
    le,
    All-append (λ k. tamanio ≤ k.tamanio → R m.tamanio k.tamanio) vs (h ∷ []) a (r, tt),
  )

  ninguno : Elegido R tamanio vs none → h.tamanio < tamanio → Elegido R tamanio (vs ++ h ∷ []) none
  ninguno a lt = All-append (λ k. k.tamanio < tamanio) vs (h ∷ []) a (lt, tt)

mejor_de-Elegido :
    (t : ℕ) (vs : List Hueco) (h : Hueco) (o : Option (ℕ × Hueco))
    → Elegido MenorIgual t vs o
    → Elegido MenorIgual t (vs ++ h ∷ []) (mejor_de t (length vs) h o)
mejor_de-Elegido t vs h none a = elim (Bool-cases (leb t h.tamanio)) [
  | inl e ↦ rw e (
      nuevo MenorIgual t vs h (ground (arith, e))
        (All-map _ _ vs (λ k lt le. absurd (omega arith)) a) (omega arith))
  | inr e ↦ rw e (ninguno MenorIgual t vs h a (ground (arith, e)))
]
mejor_de-Elegido t vs h (some (k, m)) (g, le, a) =
    elim (Bool-cases (leb t h.tamanio && ltb h.tamanio m.tamanio)) [
      | inl e ↦ rw e (
          nuevo MenorIgual t vs h (ground (arith, e))
            (All-map _ _ vs (λ l r q. ground (arith, e, r q)) a) (omega arith))
      | inr e ↦ rw e (viejo MenorIgual t vs h k m (g, le, a) (λ q. ground (arith, e)))
    ]

best_fit_desde-Elegido :
    (t : ℕ) (vs hs : List Hueco) (o : Option (ℕ × Hueco))
    → Elegido MenorIgual t vs o
    → Elegido MenorIgual t (vs ++ hs) (best_fit_desde t (length vs) hs o)
unfolding best_fit_desde
best_fit_desde-Elegido t vs [] o e = rw (append-nil vs) e
best_fit_desde-Elegido t vs (h ∷ hs) o e =
    subst (λ l. Elegido MenorIgual t l (best_fit_desde t (length vs) (h ∷ hs) o))
      (append_assoc vs (h ∷ []) hs)
      (subst
        (λ n.
          Elegido MenorIgual t ((vs ++ h ∷ []) ++ hs)
            (best_fit_desde t n hs (mejor_de t (length vs) h o)))
        (omega (arith, length-append vs (h ∷ [])))
        (best_fit_desde-Elegido t (vs ++ h ∷ []) hs _ (mejor_de-Elegido t vs h o e)))

-- Best fit answers with a free range that holds the size and is no larger than any other that does;
-- it answers with none only if every range is smaller than the size.
pub best_fit-Elegido :
    (tamanio : ℕ) (hs : List Hueco) → Elegido MenorIgual tamanio hs (best_fit tamanio hs)
unfolding best_fit
best_fit-Elegido tamanio hs = best_fit_desde-Elegido tamanio [] hs none tt

peor_de-Elegido :
    (t : ℕ) (vs : List Hueco) (h : Hueco) (o : Option (ℕ × Hueco))
    → Elegido MayorIgual t vs o
    → Elegido MayorIgual t (vs ++ h ∷ []) (peor_de t (length vs) h o)
peor_de-Elegido t vs h none a = elim (Bool-cases (leb t h.tamanio)) [
  | inl e ↦ rw e (
      nuevo MayorIgual t vs h (ground (arith, e))
        (All-map _ _ vs (λ k lt le. absurd (omega arith)) a) (omega arith))
  | inr e ↦ rw e (ninguno MayorIgual t vs h a (ground (arith, e)))
]
peor_de-Elegido t vs h (some (k, m)) (g, le, a) =
    elim (Bool-cases (leb t h.tamanio && ltb m.tamanio h.tamanio)) [
      | inl e ↦ rw e (
          nuevo MayorIgual t vs h (ground (arith, e))
            (All-map _ _ vs (λ l r q. ground (arith, e, r q)) a) (omega arith))
      | inr e ↦ rw e (viejo MayorIgual t vs h k m (g, le, a) (λ q. ground (arith, e)))
    ]

worst_fit_desde-Elegido :
    (t : ℕ) (vs hs : List Hueco) (o : Option (ℕ × Hueco))
    → Elegido MayorIgual t vs o
    → Elegido MayorIgual t (vs ++ hs) (worst_fit_desde t (length vs) hs o)
unfolding worst_fit_desde
worst_fit_desde-Elegido t vs [] o e = rw (append-nil vs) e
worst_fit_desde-Elegido t vs (h ∷ hs) o e =
    subst (λ l. Elegido MayorIgual t l (worst_fit_desde t (length vs) (h ∷ hs) o))
      (append_assoc vs (h ∷ []) hs)
      (subst
        (λ n.
          Elegido MayorIgual t ((vs ++ h ∷ []) ++ hs)
            (worst_fit_desde t n hs (peor_de t (length vs) h o)))
        (omega (arith, length-append vs (h ∷ [])))
        (worst_fit_desde-Elegido t (vs ++ h ∷ []) hs _ (peor_de-Elegido t vs h o e)))

-- Worst fit answers with a free range that holds the size and is no smaller than any other.
pub worst_fit-Elegido :
    (tamanio : ℕ) (hs : List Hueco) → Elegido MayorIgual tamanio hs (worst_fit tamanio hs)
unfolding worst_fit
worst_fit-Elegido tamanio hs = worst_fit_desde-Elegido tamanio [] hs none tt

-- Under the strategy WORST the chosen free range holds the size and is no smaller than any other;
-- under every other strategy it holds the size and is no larger than any other that does. Under
-- either, none is chosen only if every free range is smaller than the size.
pub seleccionar_hueco-Elegido :
    (estrategia : Texto) (tamanio : ℕ) (hs : List Hueco)
    → ((strcmp estrategia (codes "WORST") ≡ true)
        → Elegido MayorIgual tamanio hs (seleccionar_hueco estrategia tamanio hs))
      × ((strcmp estrategia (codes "WORST") ≡ false)
          → Elegido MenorIgual tamanio hs (seleccionar_hueco estrategia tamanio hs))
unfolding seleccionar_hueco
seleccionar_hueco-Elegido estrategia tamanio hs =
    ((λ e. rw e (worst_fit-Elegido tamanio hs)), λ e. rw e (best_fit-Elegido tamanio hs))

-- What either strategy gives: an entry of the list that holds the size.
pub seleccionar_hueco-some :
    (estrategia : Texto) (tamanio : ℕ) (hs : List Hueco) (i : ℕ) (h : Hueco)
    → seleccionar_hueco estrategia tamanio hs ≡ some (i, h)
    → (get_elem? hs i ≡ some h) × (tamanio ≤ h.tamanio)
seleccionar_hueco-some estrategia tamanio hs i h e =
    let (peor, mejor) = seleccionar_hueco-Elegido estrategia tamanio hs in
    elim (Bool-cases (strcmp estrategia (codes "WORST"))) [
      | inl w ↦ let q = subst (Elegido MayorIgual tamanio hs) e (peor w) in (q.0, q.1)
      | inr w ↦ let q = subst (Elegido MenorIgual tamanio hs) e (mejor w) in (q.0, q.1)
    ]

pub seleccionar_hueco-none :
    (estrategia : Texto) (tamanio : ℕ) (hs : List Hueco)
    → seleccionar_hueco estrategia tamanio hs ≡ none
    → All (λ h. h.tamanio < tamanio) hs
seleccionar_hueco-none estrategia tamanio hs e =
    let (peor, mejor) = seleccionar_hueco-Elegido estrategia tamanio hs in
    elim (Bool-cases (strcmp estrategia (codes "WORST"))) [
      | inl w ↦ subst (Elegido MayorIgual tamanio hs) e (peor w)
      | inr w ↦ subst (Elegido MenorIgual tamanio hs) e (mejor w)
    ]
