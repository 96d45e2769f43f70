-- ===== src/Km/Segmentos/Liberacion.antt =====
-- Removing a segment: its addresses are free again.
use ssoo.Common.{
  ℕ, ◌+◌, ◌<◌, ◌≡◌, refl, ap, ◌∙◌, inl, inr, Option, Option-cases, none, some, List, [], ◌∷◌, ◌++◌,
  All, All-append, ◌==◌, Bool-cases, u32_mod, arith,
}
use ssoo.Utils.Contexto.{ContextoCpu, EntradaSegmento}
use ssoo.Km.Huecos.{Hueco, agregar_hueco}
use ssoo.Km.Huecos.Cobertura.{cubre, libre, HuecoEnRango, libre-agregar_hueco}
use ssoo.Km.Huecos.Fusion.{fusionar_huecos-libre}
use ssoo.Km.Segmentos.{buscar_segmento, quitar_segmento, liberar, eliminar_segmento}
use ssoo.Km.Segmentos.Particion.{
  SegmentoFisico, IdsDistintos, TablaEnRango, Conserva, buscar_segmento-All,
  ocupado-quitar_segmento, quitar_segmento-none,
}

quitar-All :
    (id : ℕ) (ss : List EntradaSegmento)
    → All SegmentoFisico ss
    → All SegmentoFisico (quitar_segmento id ss)
unfolding quitar_segmento
quitar-All id [] a = tt
quitar-All id (s ∷ ss) (h, a) = elim (Bool-cases (s.id_segmento == id)) [
  | inl e ↦ rw e a
  | inr e ↦ rw e (h, quitar-All id ss a)
]

buscar-quitar :
    (id id' : ℕ) (ss : List EntradaSegmento)
    → buscar_segmento id ss ≡ none
    → buscar_segmento id (quitar_segmento id' ss) ≡ none
unfolding quitar_segmento buscar_segmento
buscar-quitar id id' [] e = refl
buscar-quitar id id' (s ∷ ss) e = ground (arith, buscar-quitar id id' ss)

quitar-IdsDistintos :
    (id : ℕ) (ss : List EntradaSegmento) → IdsDistintos ss → IdsDistintos (quitar_segmento id ss)
unfolding quitar_segmento
quitar-IdsDistintos id [] d = tt
quitar-IdsDistintos id (s ∷ ss) (n, d) = elim (Bool-cases (s.id_segmento == id)) [
  | inl e ↦ rw e d
  | inr e ↦ rw e (buscar-quitar s.id_segmento id ss n, quitar-IdsDistintos id ss d)
]

quitar_segmento_self :
    (id : ℕ) (ss : List EntradaSegmento)
    → IdsDistintos ss
    → buscar_segmento id (quitar_segmento id ss) ≡ none
unfolding quitar_segmento buscar_segmento
quitar_segmento_self id [] d = refl
quitar_segmento_self id (s ∷ ss) (n, d) = ground (arith, n, quitar_segmento_self id ss d)

agregar_hueco-EnRango :
    (base tamanio : ℕ) (hs : List Hueco)
    → 0 < tamanio
    → base + tamanio < u32_mod
    → All HuecoEnRango hs
    → All HuecoEnRango (agregar_hueco base tamanio hs)
unfolding agregar_hueco
agregar_hueco-EnRango base tamanio hs p c a =
    All-append HuecoEnRango hs _ a (record { no_vacio = p; cabe = c }, tt)

quitar-liberar :
    (ss : List EntradaSegmento) (id : ℕ) (hs : List Hueco) (o : Option EntradaSegmento)
    → buscar_segmento id ss ≡ o
    → TablaEnRango ss hs
    → Conserva ss hs (quitar_segmento id ss) (liberar o hs)
      × TablaEnRango (quitar_segmento id ss) (liberar o hs)
quitar-liberar ss id hs none e ok = rw (quitar_segmento-none id ss e) ((λ x. refl), ok)
quitar-liberar ss id hs (some s) e ok =
    let hs₁ = agregar_hueco s.base s.limite hs in
    let fis = buscar_segmento-All id ss s e ok.segmentos_en_rango in
    let (l, r) =
      fusionar_huecos-libre hs₁
        (agregar_hueco-EnRango s.base s.limite hs fis.no_vacio fis.cabe ok.huecos_en_rango) in
    (
      (λ x. omega (
        arith,
        l x,
        libre-agregar_hueco x s.base s.limite hs,
        ocupado-quitar_segmento x id ss s e,
      )),
      record {
        huecos_en_rango = r;
        segmentos_en_rango = quitar-All id ss ok.segmentos_en_rango;
        ids_distintos = quitar-IdsDistintos id ss ok.ids_distintos;
      },
    )

-- The table around the first entry with an id.
quitar-partes :
    (id : ℕ) (ss : List EntradaSegmento) (s : EntradaSegmento)
    → buscar_segmento id ss ≡ some s
    → (antes despues : List EntradaSegmento) × (ss ≡ antes ++ s ∷ despues)
      × (s.id_segmento ≡ id)
      × (quitar_segmento id ss ≡ antes ++ despues)
unfolding buscar_segmento quitar_segmento
quitar-partes id [] s e = absurd (cc)
quitar-partes id (t ∷ ss) s e = elim (Bool-cases (t.id_segmento == id)) [
  | inl q ↦
      let p : t ≡ s = ground (arith, e, q) in
      ([], ss, ap (λ (u : EntradaSegmento). u ∷ ss) p, ground (arith, q, p), rw q refl)
  | inr q ↦
      let y : buscar_segmento id ss ≡ some s = rw q at e in
      let (antes, despues, a, b, c) = quitar-partes id ss s y in
      (
        t ∷ antes,
        despues,
        ap (λ (l : List EntradaSegmento). t ∷ l) a,
        b,
        rw q (ap (λ (l : List EntradaSegmento). t ∷ l) c),
      )
]

-- What a removal may do: nothing where the table has no entry with the id, and else one entry with
-- the id leaves the table and exactly its addresses become free.
pub data Eliminado (ctx : ContextoCpu) (id : ℕ) (hs : List Hueco)
    : ContextoCpu × List Hueco → Type 0 where
  ausente : buscar_segmento id ctx.segmentos ≡ none → Eliminado ctx id hs (ctx, hs)
  quitado :
      (antes : List EntradaSegmento) (s : EntradaSegmento) (despues : List EntradaSegmento)
      (ctx' : ContextoCpu) (hs' : List Hueco)
      → ctx.segmentos ≡ antes ++ s ∷ despues
      → s.id_segmento ≡ id
      → ctx' ≡ record ctx { segmentos = antes ++ despues }
      → ((x : ℕ) → libre x hs' ≡ libre x hs + cubre x s.base s.limite)
      → Eliminado ctx id hs (ctx', hs')

liberar-libre :
    (s : EntradaSegmento) (hs : List Hueco)
    → SegmentoFisico s
    → All HuecoEnRango hs
    → (x : ℕ) → libre x (liberar (some s) hs) ≡ libre x hs + cubre x s.base s.limite
liberar-libre s hs fis a x =
    let (l, r) =
      fusionar_huecos-libre (agregar_hueco s.base s.limite hs)
        (agregar_hueco-EnRango s.base s.limite hs fis.no_vacio fis.cabe a) in
    l x ∙ libre-agregar_hueco x s.base s.limite hs

eliminar_segmento-Eliminado :
    (ctx : ContextoCpu) (id : ℕ) (hs : List Hueco)
    → TablaEnRango ctx.segmentos hs
    → Eliminado ctx id hs (eliminar_segmento ctx id hs)
unfolding eliminar_segmento
eliminar_segmento-Eliminado ctx id hs ok = elim (Option-cases (buscar_segmento id ctx.segmentos)) [
  | inl e ↦ rw (e, quitar_segmento-none id ctx.segmentos e) (Eliminado.ausente e)
  | inr (s, e) ↦
      let (antes, despues, a, b, c) = quitar-partes id ctx.segmentos s e in
      let fis = buscar_segmento-All id ctx.segmentos s e ok.segmentos_en_rango in
      rw e (
        Eliminado.quitado antes s despues _ _ a b
          (ap (λ (l : List EntradaSegmento). record ctx { segmentos = l }) c)
          (liberar-libre s hs fis ok.huecos_en_rango))
]

-- On a table and free ranges of non-empty ranges within 32 bits, with distinct ids: the removal
-- of a segment changes nothing where the table has no entry with that id. Else one entry with the
-- id leaves the table, the other entries and the registers stay as they were and in order, and each
-- address is free as often as before and once more exactly if it lies in that segment. So each
-- address is free or in the table as often as before; the ranges stay within 32 bits and the ids
-- distinct, and the table holds no entry with that id any more.
pub eliminar_segmento-Conserva :
    (ctx : ContextoCpu) (id_seg : ℕ) (hs : List Hueco)
    → TablaEnRango ctx.segmentos hs
    → let r = eliminar_segmento ctx id_seg hs in
      Eliminado ctx id_seg hs r
      × Conserva ctx.segmentos hs r.0.segmentos r.1
      × TablaEnRango r.0.segmentos r.1
      × (buscar_segmento id_seg r.0.segmentos ≡ none)
unfolding eliminar_segmento
eliminar_segmento-Conserva ctx id_seg hs ok =
    let (c, t) = quitar-liberar ctx.segmentos id_seg hs _ refl ok in
    (
      eliminar_segmento-Eliminado ctx id_seg hs ok,
      c,
      t,
      quitar_segmento_self id_seg ctx.segmentos ok.ids_distintos,
    )
