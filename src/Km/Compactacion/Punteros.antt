-- ===== src/Km/Compactacion/Punteros.antt =====
-- Reads and writes through the pointers to the segments, and the list of all of them.
use ssoo.Common.{
  ℕ, zero, suc, ◌+◌, ◌≤◌, ◌<◌, ◌≡◌, ◌≢◌, refl, sym, ap, subst, ◌∙◌, ◌⊎◌, inl, inr, Option, some,
  List, [], ◌∷◌, get_elem?, get_elem?-set_ne, set, ◌==◌, ==_iff, Bool-cases, Option-cases, arith,
}
use mathlib.Core.Logic.Or
use mathlib.Core.HLevel.{¬_prop}
use mathlib.Core.List.{
  Mem, Mem-prop, Nodup, Pairwise, eq-or-mem_of_mem-cons, mem-cons_of_mem, mem-append, not-mem-nil,
  mem-cons_self, mem-append_left, mem-append_right, Nodup-append,
}
use ssoo.Utils.Contexto.{ContextoCpu, EntradaSegmento}
use ssoo.Km.Compactacion.{
  Puntero, punteros_de, punteros, tabla_en, leer_puntero, escribir_en, escribir_puntero,
}

pub get_elem?-set_same {ℓ} :
    {A : Type ℓ} (xs : List A) (i : ℕ) (v a : A)
    → get_elem? xs i ≡ some a
    → get_elem? (set xs i v) i ≡ some v
get_elem?-set_same [] i v a h = absurd (cc)
get_elem?-set_same (x ∷ xs) zero v a h = refl
get_elem?-set_same (x ∷ xs) (suc i) v a h = get_elem?-set_same xs i v a h

pub Puntero-cases : (p q : Puntero) → (p ≡ q) ⊎ (p ≢ q)
Puntero-cases (c, s) (d, t) = elim (Bool-cases (c == d)) [
  | inl e ↦ elim (Bool-cases (s == t)) [
    | inl g ↦ inl (cc ((==_iff c d).0 e, (==_iff s t).0 g))
    | inr g ↦ inr (λ (h : (c, s) ≡ (d, t)). ground (arith, g, ap (λ (x : Puntero). x.1) h))
  ]
  | inr e ↦ inr (λ (h : (c, s) ≡ (d, t)). ground (arith, e, ap (λ (x : Puntero). x.0) h))
]

-- A pointer that points to a segment reads what is written through it.
pub leer-escribir_puntero :
    (ctxs : List ContextoCpu) (p : Puntero) (seg nuevo : EntradaSegmento)
    → leer_puntero ctxs p ≡ some seg
    → leer_puntero (escribir_puntero ctxs p nuevo) p ≡ some nuevo
unfolding leer_puntero escribir_puntero
leer-escribir_puntero ctxs (c, s) seg nuevo h = elim (Option-cases (get_elem? ctxs c)) [
  | inl e ↦
      let q : get_elem? {A = EntradaSegmento} [] s ≡ some seg =
        ap (λ (o : Option ContextoCpu). get_elem? (tabla_en o) s) (sym e) ∙ h in
      absurd (cc)
  | inr (ctx, e) ↦
      let q : get_elem? ctx.segmentos s ≡ some seg =
        ap (λ (o : Option ContextoCpu). get_elem? (tabla_en o) s) (sym e) ∙ h in
      let nuevo_ctx : ContextoCpu = record ctx { segmentos = set ctx.segmentos s nuevo } in
      ap
        (λ (o : Option ContextoCpu).
          get_elem? (tabla_en (get_elem? (escribir_en ctxs (c, s) nuevo o) c)) s)
        e
      ∙ ap (λ (o : Option ContextoCpu). get_elem? (tabla_en o) s)
          (get_elem?-set_same ctxs c nuevo_ctx ctx e)
      ∙ get_elem?-set_same ctx.segmentos s nuevo seg q
]

-- Another pointer reads what it read.
pub leer-escribir_puntero_ne :
    (ctxs : List ContextoCpu) (p q : Puntero) (nuevo : EntradaSegmento)
    → p ≢ q
    → leer_puntero (escribir_puntero ctxs p nuevo) q ≡ leer_puntero ctxs q
unfolding leer_puntero escribir_puntero
leer-escribir_puntero_ne ctxs (c, s) (d, t) nuevo n = elim (Option-cases (get_elem? ctxs c)) [
  | inl e ↦
      ap
        (λ (o : Option ContextoCpu).
          get_elem? (tabla_en (get_elem? (escribir_en ctxs (c, s) nuevo o) d)) t)
        e
  | inr (ctx, e) ↦
      let nuevo_ctx : ContextoCpu = record ctx { segmentos = set ctx.segmentos s nuevo } in
      ap
        (λ (o : Option ContextoCpu).
          get_elem? (tabla_en (get_elem? (escribir_en ctxs (c, s) nuevo o) d)) t)
        e
      ∙ elim (Bool-cases (c == d)) [
        | inl g ↦
            let k : c ≡ d = (==_iff c d).0 g in
            let st : s ≢ t = λ (h : s ≡ t). n (cc (k, h)) in
            ap (λ (i : ℕ). get_elem? (tabla_en (get_elem? (set ctxs c nuevo_ctx) i)) t) (sym k)
            ∙ ap (λ (o : Option ContextoCpu). get_elem? (tabla_en o) t)
                (get_elem?-set_same ctxs c nuevo_ctx ctx e)
            ∙ get_elem?-set_ne ctx.segmentos s t nuevo st
            ∙ ap (λ (o : Option ContextoCpu). get_elem? (tabla_en o) t) (sym e)
            ∙ ap (λ (i : ℕ). get_elem? (tabla_en (get_elem? ctxs i)) t) k
        | inr g ↦
            ap (λ (o : Option ContextoCpu). get_elem? (tabla_en o) t)
              (get_elem?-set_ne ctxs c d nuevo_ctx (λ (h : c ≡ d). ground (arith, g, h)))
      ]
]

-- A member that is not the head.
pub Mem-resto : {p q : Puntero} {ps : List Puntero} → Mem q (p ∷ ps) → q ≢ p → Mem q ps
Mem-resto m n = Or.elim Mem-prop (eq-or-mem_of_mem-cons m) (λ e. absurd (n e)) (λ k. k)

punteros_de-ne :
    (c s d t : ℕ) (segs : List EntradaSegmento)
    → Mem (d, t) (punteros_de c s segs)
    → (d ≡ c) × (s ≤ t)
unfolding punteros_de
punteros_de-ne c s d t [] m = absurd (not-mem-nil m)
punteros_de-ne c s d t (seg ∷ segs) m = elim (Puntero-cases (d, t) (c, s)) [
  | inl e ↦
      (ap (λ (x : Puntero). x.0) e, (let g : t ≡ s = ap (λ (x : Puntero). x.1) e in omega arith))
  | inr n ↦ let (a, b) = punteros_de-ne c (suc s) d t segs (Mem-resto m n) in (a, omega (arith, b))
]

punteros-le : (c d t : ℕ) (ctxs : List ContextoCpu) → Mem (d, t) (punteros c ctxs) → ¬ (d < c)
unfolding punteros
punteros-le c d t [] m = absurd (not-mem-nil m)
punteros-le c d t (ctx ∷ ctxs) m =
    Or.elim ¬_prop (mem-append.0 m)
      (λ k l. let (a, b) = punteros_de-ne c 0 d t ctx.segmentos k in absurd (omega (arith, a, l)))
      (λ k l. punteros-le (suc c) d t ctxs k (omega (arith, l)))

punteros_de-Nodup : (c s : ℕ) (segs : List EntradaSegmento) → Nodup (punteros_de c s segs)
unfolding punteros_de
punteros_de-Nodup c s [] = Pairwise.nil
punteros_de-Nodup c s (seg ∷ segs) =
    Pairwise.cons
      (λ q m e.
        let k : s ≡ q.1 = ap (λ (x : Puntero). x.1) e in
        let b = (punteros_de-ne c (suc s) q.0 q.1 segs m).1 in absurd (omega (arith, k, b)))
      (punteros_de-Nodup c (suc s) segs)

-- No pointer stands twice in the list.
pub punteros-Nodup : (c : ℕ) (ctxs : List ContextoCpu) → Nodup (punteros c ctxs)
unfolding punteros
punteros-Nodup c [] = Pairwise.nil
punteros-Nodup c (ctx ∷ ctxs) = Nodup-append.1 (
  punteros_de-Nodup c 0 ctx.segmentos,
  punteros-Nodup (suc c) ctxs,
  λ q m k.
      punteros-le (suc c) q.0 q.1 ctxs k
        (let a = (punteros_de-ne c 0 q.0 q.1 ctx.segmentos m).0 in omega (arith, a)),
)

punteros_de-Mem :
    (c s t : ℕ) (segs : List EntradaSegmento) (seg : EntradaSegmento)
    → get_elem? segs t ≡ some seg
    → Mem (c, s + t) (punteros_de c s segs)
unfolding punteros_de
punteros_de-Mem c s t [] seg h = absurd (cc)
punteros_de-Mem c s zero (x ∷ segs) seg h =
    subst (λ (i : ℕ). Mem (c, i) ((c, s) ∷ punteros_de c (suc s) segs))
      (let e : s ≡ s + 0 = omega arith in e) mem-cons_self
punteros_de-Mem c s (suc t) (x ∷ segs) seg h =
    mem-cons_of_mem (c, s)
      (subst (λ (i : ℕ). Mem (c, i) (punteros_de c (suc s) segs))
        (let e : suc s + t ≡ s + suc t = omega arith in e) (punteros_de-Mem c (suc s) t segs seg h))

punteros-Mem_desde :
    (b c t : ℕ) (ctxs : List ContextoCpu) (seg : EntradaSegmento)
    → get_elem? (tabla_en (get_elem? ctxs c)) t ≡ some seg
    → Mem (b + c, t) (punteros b ctxs)
unfolding punteros
punteros-Mem_desde b c t [] seg h = absurd (cc)
punteros-Mem_desde b zero t (ctx ∷ ctxs) seg h = mem-append_left (punteros (suc b) ctxs) (
    subst (λ (x : Puntero). Mem x (punteros_de b 0 ctx.segmentos))
      (cc ((let e : b ≡ b + 0 = omega arith in e), (let e : 0 + t ≡ t = omega arith in e)))
      (punteros_de-Mem b 0 t ctx.segmentos seg h))
punteros-Mem_desde b (suc c) t (ctx ∷ ctxs) seg h =
    mem-append_right (punteros_de b 0 ctx.segmentos) (
      subst (λ (i : ℕ). Mem (i, t) (punteros (suc b) ctxs))
        (let e : suc b + c ≡ b + suc c = omega arith in e)
        (punteros-Mem_desde (suc b) c t ctxs seg h))

-- Every pointer to a segment stands in it.
pub punteros-Mem :
    (ctxs : List ContextoCpu) (p : Puntero) (seg : EntradaSegmento)
    → leer_puntero ctxs p ≡ some seg
    → Mem p (punteros 0 ctxs)
unfolding leer_puntero
punteros-Mem ctxs (c, t) seg h =
    subst (λ (i : ℕ). Mem (i, t) (punteros 0 ctxs)) (let e : 0 + c ≡ c = omega arith in e)
      (punteros-Mem_desde 0 c t ctxs seg h)
