-- ===== src/Km/Segmentos/Creado.antt =====
-- When Kernel Memory creates a segment: kernel_memory/src/main.c.
use ssoo.Common.{
  ℕ, ◌≤◌, ◌<◌, ◌≡◌, refl, inl, inr, none, some, List, [], ◌∷◌, ◌++◌, length, get_elem?, All, ltb,
  ◌==◌, false, ◌||◌, Option-cases, uint32_max, pos, arith, Texto,
}
use ssoo.Utils.Contexto.{ContextoCpu, EntradaSegmento}
use ssoo.Km.Huecos.{Hueco, seleccionar_hueco}
use ssoo.Km.Huecos.Cobertura.{All-get}
use ssoo.Km.Huecos.Ajuste.{seleccionar_hueco-some, seleccionar_hueco-none}
use ssoo.Km.Sticks.{MemoryStick}
use ssoo.Km.Sticks.Rango.{Contiguos, Activos, ms_para_direccion-Contiguos}
use ssoo.Km.Segmentos.{buscar_segmento, Creacion, creado, crear_segmento}

buscar_segmento-nuevo :
    (id : ℕ) (ss : List EntradaSegmento) (s : EntradaSegmento)
    → buscar_segmento id ss ≡ none
    → s.id_segmento ≡ id
    → buscar_segmento id (ss ++ s ∷ []) ≡ some s
unfolding buscar_segmento
buscar_segmento-nuevo id [] s e p = ground (arith, p)
buscar_segmento-nuevo id (t ∷ ss) s e p = ground (arith, e, p, buscar_segmento-nuevo id ss s)

-- The result is `creado`, and the table has the segment under its id, with the size that was asked
-- for and a base that is the start of a free range.
abbrev pub Creado : ℕ → ℕ → List Hueco → Creacion × ContextoCpu × List Hueco → Type 0
Creado id_seg tamanio hs (c, ctx, hs') =
    (c ≡ creado)
    × (s : EntradaSegmento) × (buscar_segmento id_seg ctx.segmentos ≡ some s)
    × (s.limite ≡ tamanio)
    × (j : ℕ) × (k : Hueco) × (get_elem? hs j ≡ some k)
    × (s.base ≡ k.base_global)

elegido :
    (estrategia : Texto) (tamanio : ℕ) (hs : List Hueco) (i : ℕ) (h : Hueco)
    → get_elem? hs i ≡ some h
    → tamanio ≤ h.tamanio
    → (j : ℕ) × (k : Hueco) × (seleccionar_hueco estrategia tamanio hs ≡ some (j, k))
elegido estrategia tamanio hs i h g le =
    elim (Option-cases (seleccionar_hueco estrategia tamanio hs)) [
      | inr ((j, k), e) ↦ (j, k, e)
      | inl e ↦
          let q =
            All-get (λ (k : Hueco). k.tamanio < tamanio) hs i g
              (seleccionar_hueco-none estrategia tamanio hs e) in
          absurd (omega arith)
    ]

-- A request for a segment is granted when its size is positive and at most the maximum, its id is
-- new, the table is not full, some free range holds it and every free range starts within the
-- memory of connected sticks. The table then has the segment under its id, with that size, at the
-- start of a free range.
pub crear_segmento-Creado :
    (seg_max : ℕ) (estrategia : Texto) (sticks : List MemoryStick) (fin : ℕ) (ctx : ContextoCpu)
    (id_seg tamanio : ℕ) (hs : List Hueco) (i : ℕ) (h : Hueco)
    → Contiguos 0 sticks fin
    → Activos sticks
    → All (λ k. k.base_global < fin) hs
    → 0 < tamanio
    → tamanio ≤ seg_max
    → buscar_segmento id_seg ctx.segmentos ≡ none
    → length ctx.segmentos < uint32_max
    → get_elem? hs i ≡ some h
    → tamanio ≤ h.tamanio
    → Creado id_seg tamanio hs (
        crear_segmento
          (record { segment_max_size = pos seg_max; allocation_strategy = estrategia })
          sticks
          ctx
          id_seg
          tamanio
          hs)
unfolding crear_segmento
crear_segmento-Creado seg_max estrategia sticks fin ctx id_seg tamanio hs i h c a bs t m e n g le =
    let (j, k, el) = elegido estrategia tamanio hs i h g le in
    let (gk, lk) = seleccionar_hueco-some estrategia tamanio hs j k el in
    let kb = All-get (λ (k : Hueco). k.base_global < fin) hs j gk bs in
    let (ms, em, l1, l2) =
      ms_para_direccion-Contiguos 0 sticks fin k.base_global c a (omega arith) kb in
    let valido : (seg_max == 0 || (tamanio == 0 || ltb seg_max tamanio)) ≡ false =
      ground (arith, t, m) in
    let cabe : (length ctx.segmentos == 4294967295) ≡ false = ground (arith, n) in
    let s : EntradaSegmento = record {
      id_segmento = id_seg;
      id_memory_stick = ms.id;
      base = k.base_global;
      limite = tamanio;
    } in
    rw (valido, e, el, em, cabe)
      (refl, s, buscar_segmento-nuevo id_seg ctx.segmentos s e refl, refl, j, k, gk, refl)
