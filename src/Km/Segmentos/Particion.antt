-- ===== src/Km/Segmentos/Particion.antt =====
-- Creating and removing a segment moves addresses between the free ranges and the segment table.
use ssoo.Common.{
  ℕ, ◌+◌, ◌<◌, ◌≡◌, refl, ap, inl, inr, Option, none, some, List, [], ◌∷◌, ◌++◌, length, All,
  All-append, leb, ltb, ◌==◌, if◌then◌else◌, ◌||◌, Bool-cases, Option-cases, u32_mod, ℤ, pos,
  negsuc, arith,
}
use ssoo.Utils.Contexto.{ContextoCpu, EntradaSegmento}
use ssoo.Km.Huecos.{Hueco, seleccionar_hueco, ocupar_hueco}
use ssoo.Km.Huecos.Cobertura.{
  cubre, libre, HuecoEnRango, libre-ocupar_hueco, ocupar_hueco-EnRango, All-get,
}
use ssoo.Km.Huecos.Ajuste.{seleccionar_hueco-some}
use ssoo.Km.Sticks.{MemoryStick, ms_para_direccion}
use ssoo.Km.Segmentos.{
  KmConfig, buscar_segmento, libre_total, crear_con, Creacion, creado, compactar, fallo, asignar,
  agregar_segmento, crear_segmento, quitar_segmento,
}

-- The number of segments of a table that hold the address `x`.
unfoldable pub ocupado : ℕ → List EntradaSegmento → ℕ
ocupado x [] = 0
ocupado x (s ∷ ss) = cubre x s.base s.limite + ocupado x ss

-- A segment of at least one byte that ends within the 32-bit addresses.
pub record SegmentoFisico (s : EntradaSegmento) : Type 0 where
  pub no_vacio : 0 < s.limite
  pub cabe : s.base + s.limite < u32_mod

-- No two entries of a table have the same id.
abbrev pub IdsDistintos : List EntradaSegmento → Type 0
IdsDistintos [] = Unit {0}
IdsDistintos (s ∷ ss) = (buscar_segmento s.id_segmento ss ≡ none) × IdsDistintos ss

pub record TablaEnRango (ss : List EntradaSegmento) (hs : List Hueco) : Type 0 where
  pub huecos_en_rango : All HuecoEnRango hs
  pub segmentos_en_rango : All SegmentoFisico ss
  pub ids_distintos : IdsDistintos ss

-- Between `(ss, hs)` and `(ss', hs')` no address is lost or given twice.
abbrev pub Conserva : List EntradaSegmento → List Hueco → List EntradaSegmento → List Hueco → Type 0
Conserva ss hs ss' hs' = (x : ℕ) → libre x hs' + ocupado x ss' ≡ libre x hs + ocupado x ss

ocupado-append :
    (x : ℕ) (ss : List EntradaSegmento) (s : EntradaSegmento)
    → ocupado x (ss ++ s ∷ []) ≡ ocupado x ss + cubre x s.base s.limite
unfolding ocupado
ocupado-append x [] s = omega arith
ocupado-append x (t ∷ ss) s = omega (arith, ocupado-append x ss s)

pub ocupado-quitar_segmento :
    (x id : ℕ) (ss : List EntradaSegmento) (s : EntradaSegmento)
    → buscar_segmento id ss ≡ some s
    → ocupado x ss ≡ cubre x s.base s.limite + ocupado x (quitar_segmento id ss)
unfolding ocupado buscar_segmento quitar_segmento
ocupado-quitar_segmento x id [] s e = absurd (cc)
ocupado-quitar_segmento x id (t ∷ ss) s e = ground (arith, ocupado-quitar_segmento x id ss s)

pub quitar_segmento-none :
    (id : ℕ) (ss : List EntradaSegmento) → buscar_segmento id ss ≡ none → quitar_segmento id ss ≡ ss
unfolding buscar_segmento quitar_segmento
quitar_segmento-none id [] e = refl
quitar_segmento-none id (t ∷ ss) e = ground (arith, quitar_segmento-none id ss)

buscar_segmento-append :
    (id : ℕ) (ss : List EntradaSegmento) (s : EntradaSegmento)
    → buscar_segmento id ss ≡ none
    → buscar_segmento id (ss ++ s ∷ []) ≡ (if s.id_segmento == id then some s else none)
unfolding buscar_segmento
buscar_segmento-append id [] s e = refl
buscar_segmento-append id (t ∷ ss) s e = ground (arith, buscar_segmento-append id ss s)

IdsDistintos-append :
    (ss : List EntradaSegmento) (s : EntradaSegmento)
    → buscar_segmento s.id_segmento ss ≡ none
    → IdsDistintos ss
    → IdsDistintos (ss ++ s ∷ [])
unfolding buscar_segmento
IdsDistintos-append [] s e d = (refl, tt)
IdsDistintos-append (t ∷ ss) s e (n, d) = (
  ground (arith, e, buscar_segmento-append t.id_segmento ss s n),
  IdsDistintos-append ss s (ground (arith, e)) d,
)

pub buscar_segmento-All :
    (id : ℕ) (ss : List EntradaSegmento) (s : EntradaSegmento)
    → buscar_segmento id ss ≡ some s
    → All SegmentoFisico ss
    → SegmentoFisico s
unfolding buscar_segmento
buscar_segmento-All id [] s e a = absurd (cc)
buscar_segmento-All id (t ∷ ss) s e (ht, a) = ground (arith, buscar_segmento-All id ss s)

abbrev con_segmento : ContextoCpu → EntradaSegmento → ContextoCpu
con_segmento ctx s = record ctx { segmentos = ctx.segmentos ++ s ∷ [] }

-- What a call did: it made one segment out of the first bytes of the selected free range, or it
-- changed nothing.
abbrev pub Efecto :
    KmConfig
    → List MemoryStick
    → ContextoCpu
    → ℕ
    → ℕ
    → List Hueco
    → Creacion × ContextoCpu × List Hueco
    → Type 0
Efecto config sticks ctx id_seg tamanio hs (creado, ctx', hs') =
    (i : ℕ) × (h : Hueco) × (ms : MemoryStick) × (local : ℕ) × (seleccionar_hueco
        config.allocation_strategy tamanio hs
      ≡ some (i, h))
    × (ms_para_direccion h.base_global sticks ≡ some (ms, local))
    × (buscar_segmento id_seg ctx.segmentos ≡ none)
    × (0 < tamanio)
    × (ctx'
        ≡ con_segmento ctx (record {
          id_segmento = id_seg;
          id_memory_stick = ms.id;
          base = h.base_global;
          limite = tamanio;
        }))
    × (hs' ≡ ocupar_hueco tamanio (i, h) hs)
Efecto config sticks ctx id_seg tamanio hs (compactar, ctx', hs') = (ctx' ≡ ctx) × (hs' ≡ hs)
Efecto config sticks ctx id_seg tamanio hs (fallo, ctx', hs') = (ctx' ≡ ctx) × (hs' ≡ hs)

module _ (config : KmConfig) (sticks : List MemoryStick) (ctx : ContextoCpu) (id_seg tamanio : ℕ)
    (hs : List Hueco) where
  agregar-Efecto :
      (i : ℕ) (h : Hueco) (o : Option (MemoryStick × ℕ))
      → seleccionar_hueco config.allocation_strategy tamanio hs ≡ some (i, h)
      → ms_para_direccion h.base_global sticks ≡ o
      → buscar_segmento id_seg ctx.segmentos ≡ none
      → 0 < tamanio
      → Efecto config sticks ctx id_seg tamanio hs (agregar_segmento id_seg tamanio ctx (i, h) hs o)
  agregar-Efecto i h none e f n t = (refl, refl)
  agregar-Efecto i h (some (ms, local)) e f n t =
      elim (Bool-cases (length ctx.segmentos == 4294967295)) [
        | inl lleno ↦ rw lleno (refl, refl)
        | inr cabe ↦ rw cabe (i, h, ms, local, e, f, n, t, refl, refl)
      ]

  asignar-Efecto :
      (o : Option (ℕ × Hueco))
      → seleccionar_hueco config.allocation_strategy tamanio hs ≡ o
      → buscar_segmento id_seg ctx.segmentos ≡ none
      → 0 < tamanio
      → Efecto config sticks ctx id_seg tamanio hs (asignar sticks id_seg tamanio ctx hs o)
  asignar-Efecto none e n t = elim (Bool-cases (leb tamanio (libre_total 0 hs))) [
    | inl b ↦ rw b (refl, refl)
    | inr b ↦ rw b (refl, refl)
  ]
  asignar-Efecto (some (i, h)) e n t =
      agregar-Efecto i h (ms_para_direccion h.base_global sticks) e refl n t

  crear_con-Efecto :
      (m : ℤ)
      → Efecto config sticks ctx id_seg tamanio hs (crear_con m config sticks ctx id_seg tamanio hs)
  crear_con-Efecto (negsuc k) = (refl, refl)
  crear_con-Efecto (pos k) = elim (Bool-cases (k == 0 || (tamanio == 0 || ltb k tamanio))) [
    | inl b ↦ rw b (refl, refl)
    | inr b ↦ elim (Option-cases (buscar_segmento id_seg ctx.segmentos)) [
      | inl e ↦ rw (b, e) (asignar-Efecto _ refl e (ground (arith, b)))
      | inr (s, e) ↦ rw (b, e) (refl, refl)
    ]
  ]

  crear_segmento-Efecto :
      Efecto config sticks ctx id_seg tamanio hs
        (crear_segmento config sticks ctx id_seg tamanio hs)
  unfolding crear_segmento
  crear_segmento-Efecto = crear_con-Efecto config.segment_max_size

  -- From what a call did to what it keeps.
  Efecto-Conserva :
      TablaEnRango ctx.segmentos hs
      → (r : Creacion × ContextoCpu × List Hueco) → Efecto config sticks ctx id_seg tamanio hs r
      → Conserva ctx.segmentos hs r.1.segmentos r.2 × TablaEnRango r.1.segmentos r.2
  Efecto-Conserva ok (compactar, ctx', hs') (e, f) =
      rw (ap (λ (c : ContextoCpu). c.segmentos) e, f) ((λ x. refl), ok)
  Efecto-Conserva ok (fallo, ctx', hs') (e, f) =
      rw (ap (λ (c : ContextoCpu). c.segmentos) e, f) ((λ x. refl), ok)
  Efecto-Conserva ok (creado, ctx', hs') (i, h, ms, local, e, f, n, t, q, r) =
      let (g, le) = seleccionar_hueco-some config.allocation_strategy tamanio hs i h e in
      let hh = All-get HuecoEnRango hs i g ok.huecos_en_rango in
      let s : EntradaSegmento = record {
        id_segmento = id_seg;
        id_memory_stick = ms.id;
        base = h.base_global;
        limite = tamanio;
      } in
      rw (ap (λ (c : ContextoCpu). c.segmentos) q, r)
        (
          (λ x. omega (
            arith,
            libre-ocupar_hueco x tamanio i h hs g le hh,
            ocupado-append x ctx.segmentos s,
          )),
          record {
            huecos_en_rango = ocupar_hueco-EnRango tamanio i h hs le hh ok.huecos_en_rango;
            segmentos_en_rango =
                All-append SegmentoFisico ctx.segmentos (s ∷ []) ok.segmentos_en_rango
                  (record { no_vacio = t; cabe = omega arith }, tt);
            ids_distintos = IdsDistintos-append ctx.segmentos s n ok.ids_distintos;
          },
        )

-- On a table and free ranges of non-empty ranges within 32 bits, with distinct ids: whatever the
-- request and its outcome, creating a segment keeps each address free or in the table as often as
-- it was before, and keeps the ranges within 32 bits and the ids distinct.
pub crear_segmento-Conserva :
    (config : KmConfig) (sticks : List MemoryStick) (ctx : ContextoCpu) (id_seg tamanio : ℕ)
    (hs : List Hueco)
    → TablaEnRango ctx.segmentos hs
    → let r = crear_segmento config sticks ctx id_seg tamanio hs in
      Conserva ctx.segmentos hs r.1.segmentos r.2 × TablaEnRango r.1.segmentos r.2
crear_segmento-Conserva config sticks ctx id_seg tamanio hs ok =
    Efecto-Conserva config sticks ctx id_seg tamanio hs ok _
      (crear_segmento-Efecto config sticks ctx id_seg tamanio hs)
