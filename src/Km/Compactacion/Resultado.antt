-- ===== src/Km/Compactacion/Resultado.antt =====
-- The whole compaction: `compactar` of kernel_memory/src/main.c.
use ssoo.Common.{
  ℕ, ◌-◌, ◌≤◌, ◌<◌, ◌≡◌, refl, sym, ap, subst, inl, inr, Option, none, some, List, [], ◌∷◌, ltb,
  Option-cases, u32_mod, Bool, arith,
}
use mathlib.Core.List.{Nodup, Pairwise, Perm, mem-cons_self, not-mem-nil}
use mathlib.Core.List.Pairwise
use mathlib.Core.List.Perm
use ssoo.Utils.Contexto.{ContextoCpu, EntradaSegmento}
use ssoo.Km.Sticks.{MemoryStick}
use ssoo.Km.Sticks.Rango.{memoria_total-Contiguos}
use ssoo.Km.Fisica.{Red}
use ssoo.Km.Fisica.Plana.{Memoria}
use ssoo.Km.Procesos.{EstadoKm}
use ssoo.Km.Procesos.Particion.{Particionada}
use ssoo.Km.Compactacion.{
  Puntero, ListSort, punteros, leer_puntero, base_de, comparar_base_segmento, mover,
  compactar_desde, hueco_final, compactar,
}
use ssoo.Km.Compactacion.Punteros.{punteros-Nodup, punteros-Mem}
use ssoo.Km.Compactacion.Separados.{segmento-dentro, segmentos-separados}
use ssoo.Km.Compactacion.Mudanza.{mover-Mudado}
use ssoo.Km.Compactacion.Contenido.{
  Juntos, Conservado, Pendiente, Compactada, resto-Pendiente, sin_segmento-Compactada,
  siguiente-Pendiente, con_segmento-Compactada,
}

-- What `list_sort` is documented to do: it orders the elements of the list by the comparator.
pub record Ordena (list_sort : ListSort) : Type 0 where
  pub mismos : (cmp : Puntero → Puntero → Bool) (l : List Puntero) → Perm (list_sort cmp l) l
  pub ordenados :
      (clave : Puntero → ℕ) (l : List Puntero)
      → Pairwise (λ p q. clave p ≤ clave q) (list_sort (λ p q. ltb (clave p) (clave q)) l)

compactar_desde-Compactada :
    (sticks : List MemoryStick) (fin : ℕ) (chico : fin < u32_mod - 8) (ps : List Puntero)
    (red : Red) (ctxs : List ContextoCpu) (cursor : ℕ)
    → Pendiente sticks fin chico red ctxs cursor ps
    → let o = compactar_desde sticks ps ((red, ctxs), cursor) in
      Compactada sticks fin chico red ctxs cursor ps o.0.0 o.0.1 o.1
unfolding compactar_desde
compactar_desde-Compactada sticks fin chico [] red ctxs cursor w = record {
  sigue = w.memoria;
  segmentos = λ q s m e. absurd (not-mem-nil m);
  ajenos = λ q n. refl;
  abajo = λ c k l. refl;
  juntos = refl;
}
compactar_desde-Compactada sticks fin chico (p ∷ ps) red ctxs cursor w =
    elim (Option-cases (leer_puntero ctxs p)) [
      | inl h ↦ subst hecho (sym (paso none h)) (
          sin_segmento-Compactada sticks fin chico red ctxs cursor p ps w _ _ _ h (
            compactar_desde-Compactada sticks fin chico ps red ctxs cursor
              (resto-Pendiente sticks fin chico red ctxs cursor p ps h w)))
      | inr (s, h) ↦
          let o = mover red sticks ctxs cursor p (some s) in
          let (v, l, t) = w.dentro p s mem-cons_self h in
          let (mu, c) =
            mover-Mudado sticks fin red ctxs cursor p s w.memoria h l t v chico o refl in
          let sig =
            siguiente-Pendiente sticks fin chico red ctxs cursor p ps w s h o.0.0 o.0.1 mu in
          let k =
            compactar_desde-Compactada sticks fin chico ps o.0.0 o.0.1 o.1
              (subst (λ (n : ℕ). Pendiente sticks fin chico o.0.0 o.0.1 n ps) (sym c) sig) in
          let r = compactar_desde sticks ps o in
          subst hecho (sym (paso (some s) h)) (
            con_segmento-Compactada sticks fin chico red ctxs cursor p ps w s h o.0.0 o.0.1 mu r.0.0
              r.0.1 r.1
              (subst (λ (n : ℕ). Compactada sticks fin chico o.0.0 o.0.1 n ps r.0.0 r.0.1 r.1) c k))
    ]
  where
    hecho : (Red × List ContextoCpu) × ℕ → Type 0
    hecho o = Compactada sticks fin chico red ctxs cursor (p ∷ ps) o.0.0 o.0.1 o.1

    paso :
        (o : Option EntradaSegmento)
        → leer_puntero ctxs p ≡ o
        → compactar_desde sticks (p ∷ ps) ((red, ctxs), cursor)
          ≡ compactar_desde sticks ps (mover red sticks ctxs cursor p o)
    paso o h =
        ap
          (λ (x : Option EntradaSegmento).
            compactar_desde sticks ps (mover red sticks ctxs cursor p x))
          h

module _ (list_sort : ListSort) (ord : Ordena list_sort) (red : Red) (e : EstadoKm) (fin : ℕ)
    (part : Particionada e fin) (chico : fin < u32_mod - 8) where
  abbrev orden_de : List Puntero
  orden_de = list_sort (comparar_base_segmento e.contextos) (punteros 0 e.contextos)

  orden-Pendiente :
      Memoria red e.memoria.memory_sticks fin
      → Pendiente e.memoria.memory_sticks fin chico red e.contextos 0 orden_de
  orden-Pendiente m =
      let mismos = ord.mismos (comparar_base_segmento e.contextos) (punteros 0 e.contextos) in
      let n : Nodup orden_de = Perm.nodup (Perm.symm mismos) (punteros-Nodup 0 e.contextos) in
      record {
        memoria = m;
        distintos = n;
        en_orden =
            Pairwise.imp
              (λ p q r s t h k.
                segmentos-separados e fin part p q s t r.1 h k
                  (omega (arith, r.0, ap base_de h, ap base_de k)))
              (Pairwise.and
                (ord.ordenados (λ p. base_de (leer_puntero e.contextos p)) (punteros 0 e.contextos))
                n);
        dentro = λ q s k h. let (v, t) = segmento-dentro e fin part q s h in (v, omega arith, t);
      }

-- Compaction ends, and every segment of every process keeps its id, its size and its bytes, wherever
-- it moves and however many sticks it crosses. In the order of their old bases the segments lie one
-- behind the other from address 0, the free ranges are the rest of the memory behind them, at most
-- one range, and the memory goes on working. Before, each address was in exactly one free range or
-- segment; the memory is smaller than one message, and `list_sort` orders by the comparator.
pub compactar-Conservado :
    (list_sort : ListSort) (red : Red) (e : EstadoKm) (fin : ℕ)
    → Ordena list_sort
    → Particionada e fin
    → Memoria red e.memoria.memory_sticks fin
    → fin < u32_mod - 8
    → let (red', e') = compactar list_sort red e in
      Memoria red' e.memoria.memory_sticks fin
      × ((q : Puntero) (s : EntradaSegmento)
          → leer_puntero e.contextos q ≡ some s
          → Conservado e.memoria.memory_sticks red red' e'.contextos q s)
      × ((cursor : ℕ) × Juntos 0 e'.contextos
            (list_sort (comparar_base_segmento e.contextos) (punteros 0 e.contextos))
            cursor
          × (e'.memoria.huecos ≡ hueco_final cursor fin))
unfolding compactar
compactar-Conservado list_sort red e fin ord part m chico =
    let ps = list_sort (comparar_base_segmento e.contextos) (punteros 0 e.contextos) in
    let sticks = e.memoria.memory_sticks in
    let o = compactar_desde sticks ps ((red, e.contextos), 0) in
    let c =
      compactar_desde-Compactada sticks fin chico ps red e.contextos 0
        (orden-Pendiente list_sort ord red e fin part chico m) in
    let mismos = ord.mismos (comparar_base_segmento e.contextos) (punteros 0 e.contextos) in
    (
      c.sigue,
      λ q s h. c.segmentos q s ((Perm.mem_iff mismos).1 (punteros-Mem e.contextos q s h)) h,
      (
        o.1,
        c.juntos,
        ap (hueco_final o.1) (memoria_total-Contiguos sticks fin m.contiguos m.fin_cabe),
      ),
    )
