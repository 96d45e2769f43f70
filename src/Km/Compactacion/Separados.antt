-- ===== src/Km/Compactacion/Separados.antt =====
-- In a partitioned memory the segments lie apart.
use ssoo.Common.{
  ℕ, zero, suc, ◌+◌, ◌-◌, ◌≤◌, ◌<◌, ◌≡◌, ◌≢◌, refl, ap, subst, inl, inr, some, List, [], ◌∷◌,
  get_elem?, All, ltb, Bool-cases, ltb→ge, arith,
}
use ssoo.Utils.Contexto.{ContextoCpu, EntradaSegmento}
use ssoo.Km.Huecos.Cobertura.{cubre}
use ssoo.Km.Segmentos.Particion.{ocupado, SegmentoFisico}
use ssoo.Km.Procesos.{EstadoKm}
use ssoo.Km.Procesos.Particion.{ocupado_total, ContextoFisico, existe, Particionada}
use ssoo.Km.Compactacion.{Puntero, tabla_en, leer_puntero}

module _ (x : ℕ) where
  ocupado-get :
      (ss : List EntradaSegmento) (i : ℕ) (s : EntradaSegmento)
      → get_elem? ss i ≡ some s
      → cubre x s.base s.limite ≤ ocupado x ss
  unfolding ocupado
  ocupado-get [] i s h = absurd (cc)
  ocupado-get (y ∷ ss) zero s h =
      let e : y ≡ s = cc in omega (arith, ap (λ (z : EntradaSegmento). cubre x z.base z.limite) e)
  ocupado-get (y ∷ ss) (suc i) s h = omega (arith, ocupado-get ss i s h)

  ocupado-get_dos :
      (ss : List EntradaSegmento) (i j : ℕ) (s t : EntradaSegmento)
      → i ≢ j
      → get_elem? ss i ≡ some s
      → get_elem? ss j ≡ some t
      → cubre x s.base s.limite + cubre x t.base t.limite ≤ ocupado x ss
  unfolding ocupado
  ocupado-get_dos [] i j s t n h k = absurd (cc)
  ocupado-get_dos (y ∷ ss) zero zero s t n h k = absurd (n refl)
  ocupado-get_dos (y ∷ ss) zero (suc j) s t n h k =
      let e : y ≡ s = cc in
      omega (arith, ap (λ (z : EntradaSegmento). cubre x z.base z.limite) e, ocupado-get ss j t k)
  ocupado-get_dos (y ∷ ss) (suc i) zero s t n h k =
      let e : y ≡ t = cc in
      omega (arith, ap (λ (z : EntradaSegmento). cubre x z.base z.limite) e, ocupado-get ss i s h)
  ocupado-get_dos (y ∷ ss) (suc i) (suc j) s t n h k =
      omega (arith, ocupado-get_dos ss i j s t (λ (e : i ≡ j). n (ap suc e)) h k)

  ocupado_total-leer :
      (cs : List ContextoCpu) (c i : ℕ) (s : EntradaSegmento)
      → get_elem? (tabla_en (get_elem? cs c)) i ≡ some s
      → cubre x s.base s.limite ≤ ocupado_total x cs
  unfolding ocupado_total
  ocupado_total-leer [] c i s h = absurd (cc)
  ocupado_total-leer (d ∷ cs) zero i s h = omega (arith, ocupado-get d.segmentos i s h)
  ocupado_total-leer (d ∷ cs) (suc c) i s h = omega (arith, ocupado_total-leer cs c i s h)

  ocupado_total-leer_dos :
      (cs : List ContextoCpu) (c d i j : ℕ) (s t : EntradaSegmento)
      → (c ≡ d → i ≢ j)
      → get_elem? (tabla_en (get_elem? cs c)) i ≡ some s
      → get_elem? (tabla_en (get_elem? cs d)) j ≡ some t
      → cubre x s.base s.limite + cubre x t.base t.limite ≤ ocupado_total x cs
  unfolding ocupado_total
  ocupado_total-leer_dos [] c d i j s t n h k = absurd (cc)
  ocupado_total-leer_dos (y ∷ cs) zero zero i j s t n h k =
      omega (arith, ocupado-get_dos y.segmentos i j s t (n refl) h k)
  ocupado_total-leer_dos (y ∷ cs) zero (suc d) i j s t n h k =
      omega (arith, ocupado-get y.segmentos i s h, ocupado_total-leer cs d j t k)
  ocupado_total-leer_dos (y ∷ cs) (suc c) zero i j s t n h k =
      omega (arith, ocupado-get y.segmentos j t k, ocupado_total-leer cs c i s h)
  ocupado_total-leer_dos (y ∷ cs) (suc c) (suc d) i j s t n h k =
      omega (arith, ocupado_total-leer_dos cs c d i j s t (λ (e : c ≡ d). n (ap suc e)) h k)

get_elem?-All {ℓ κ} :
    {A : Type ℓ} (P : A → Type κ) (xs : List A) (i : ℕ) (a : A)
    → get_elem? xs i ≡ some a
    → All P xs
    → P a
get_elem?-All P [] i a h q = absurd (cc)
get_elem?-All P (y ∷ xs) zero a h (p, q) = subst P (cc) p
get_elem?-All P (y ∷ xs) (suc i) a h (p, q) = get_elem?-All P xs i a h q

leer_puntero-Fisico :
    (cs : List ContextoCpu) (c i : ℕ) (s : EntradaSegmento)
    → All ContextoFisico cs
    → get_elem? (tabla_en (get_elem? cs c)) i ≡ some s
    → SegmentoFisico s
leer_puntero-Fisico [] c i s f h = absurd (cc)
leer_puntero-Fisico (d ∷ cs) zero i s (f, fs) h =
    get_elem?-All SegmentoFisico d.segmentos i s h f.segmentos_fisicos
leer_puntero-Fisico (d ∷ cs) (suc c) i s (f, fs) h = leer_puntero-Fisico cs c i s fs h

cubre-dentro : (x base limite : ℕ) → base ≤ x → x < base + limite → cubre x base limite ≡ 1
unfolding cubre
cubre-dentro x base limite h k = ground (arith, h, k)

existe-le : (x fin : ℕ) → existe x fin ≤ 1
existe-le x fin = ground arith

existe-lt : (x fin : ℕ) → 0 < existe x fin → x < fin
existe-lt x fin h = ground (arith, h)

module _ (e : EstadoKm) (fin : ℕ) (part : Particionada e fin) where
  -- A segment has bytes, all of them in the memory.
  pub segmento-dentro :
      (p : Puntero) (s : EntradaSegmento)
      → leer_puntero e.contextos p ≡ some s
      → (0 < s.limite) × (s.base + s.limite ≤ fin)
  unfolding leer_puntero
  segmento-dentro (c, i) s h =
      let f = leer_puntero-Fisico e.contextos c i s part.fisicos h in
      let n = f.no_vacio in
      let x = s.base + s.limite - 1 in
      let k = ocupado_total-leer x e.contextos c i s h in
      let u = cubre-dentro x s.base s.limite (omega (arith, n)) (omega (arith, n)) in
      let w = part.reparto x in (n, omega (arith, existe-lt x fin (omega (arith, k, u, w)), n))

  -- Of two segments the one with the lower base ends before the other begins.
  pub segmentos-separados :
      (p q : Puntero) (s t : EntradaSegmento)
      → p ≢ q
      → leer_puntero e.contextos p ≡ some s
      → leer_puntero e.contextos q ≡ some t
      → s.base ≤ t.base
      → s.base + s.limite ≤ t.base
  unfolding leer_puntero
  segmentos-separados (c, i) (d, j) s t n h k l =
      elim (Bool-cases (ltb t.base (s.base + s.limite))) [
        | inr z ↦ ltb→ge t.base (s.base + s.limite) z
        | inl z ↦
            let x = t.base in
            let nt = (segmento-dentro (d, j) t k).0 in
            let a = cubre-dentro x s.base s.limite l (ground (arith, z)) in
            let b = cubre-dentro x t.base t.limite (omega arith) (omega (arith, nt)) in
            let o =
              ocupado_total-leer_dos x e.contextos c d i j s t
                (λ (u : c ≡ d) (v : i ≡ j). n (cc (u, v))) h k in
            absurd (omega (arith, a, b, o, part.reparto x, existe-le x fin))
      ]
