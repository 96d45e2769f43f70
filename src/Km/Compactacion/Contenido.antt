-- ===== src/Km/Compactacion/Contenido.antt =====
-- The compaction moves the segments together and keeps their contents.
use ssoo.Common.{
  ℕ, ◌+◌, ◌-◌, ◌≤◌, ◌<◌, ◌≡◌, ◌≢◌, refl, sym, ap, subst, ◌∙◌, inl, inr, Option, none, some, List,
  [], ◌∷◌, slice, u32_mod, arith,
}
use mathlib.Core.List.{Mem, Nodup, Pairwise, mem-cons_self, mem-cons_of_mem, rel_of_Pairwise-cons}
use mathlib.Core.List.Pairwise
use ssoo.Utils.Contexto.{ContextoCpu, EntradaSegmento}
use ssoo.Km.Sticks.{MemoryStick}
use ssoo.Km.Fisica.{Red}
use ssoo.Km.Fisica.Plana.{plana, Memoria}
use ssoo.Km.Compactacion.{Puntero, leer_puntero}
use ssoo.Km.Compactacion.Punteros.{Puntero-cases, Mem-resto}
use ssoo.Km.Compactacion.Mudanza.{Mudado}

abbrev pub limite_de : Option EntradaSegmento → ℕ
limite_de none = 0
limite_de (some s) = s.limite

-- The segments of the pointers, in this order, lie one behind the other from `inicio` to `fin`.
abbrev pub Juntos : ℕ → List ContextoCpu → List Puntero → ℕ → Type 0
Juntos inicio ctxs [] fin = fin ≡ inicio
Juntos inicio ctxs (p ∷ ps) fin =
    ((s : EntradaSegmento) → leer_puntero ctxs p ≡ some s → s.base ≡ inicio)
    × Juntos (inicio + limite_de (leer_puntero ctxs p)) ctxs ps fin

-- The segment `s` of a pointer has the same id, size and bytes afterwards.
pub record Conservado (sticks : List MemoryStick) (red red' : Red) (ctxs' : List ContextoCpu)
    (q : Puntero) (s : EntradaSegmento) : Type 0 where
  pub nuevo : EntradaSegmento
  pub leido : leer_puntero ctxs' q ≡ some nuevo
  pub mismo_id : nuevo.id_segmento ≡ s.id_segmento
  pub mismo_limite : nuevo.limite ≡ s.limite
  pub contenido :
      slice nuevo.base nuevo.limite (plana red' sticks) ≡ slice s.base s.limite (plana red sticks)

-- Of two segments of the list the earlier one ends before the later one begins.
abbrev pub Antes : List ContextoCpu → Puntero → Puntero → Type 0
Antes ctxs p q =
    (s t : EntradaSegmento)
    → leer_puntero ctxs p ≡ some s
    → leer_puntero ctxs q ≡ some t
    → s.base + s.limite ≤ t.base

module _ (sticks : List MemoryStick) (fin : ℕ) (chico : fin < u32_mod - 8) where
  -- What the loop finds: pointers in the order of their segments, which lie from the cursor on.
  pub record Pendiente (red : Red) (ctxs : List ContextoCpu) (cursor : ℕ) (ps : List Puntero)
      : Type 0 where
    pub memoria : Memoria red sticks fin
    pub distintos : Nodup ps
    pub en_orden : Pairwise (Antes ctxs) ps
    pub dentro :
        (q : Puntero) (s : EntradaSegmento)
        → Mem q ps
        → leer_puntero ctxs q ≡ some s
        → (0 < s.limite) × (cursor ≤ s.base) × (s.base + s.limite ≤ fin)

  -- What it leaves.
  pub record Compactada (red : Red) (ctxs : List ContextoCpu) (cursor : ℕ) (ps : List Puntero)
      (red' : Red) (ctxs' : List ContextoCpu) (cursor' : ℕ) : Type 0 where
    pub sigue : Memoria red' sticks fin
    pub segmentos :
        (q : Puntero) (s : EntradaSegmento)
        → Mem q ps
        → leer_puntero ctxs q ≡ some s
        → Conservado sticks red red' ctxs' q s
    pub ajenos : (q : Puntero) → ¬ Mem q ps → leer_puntero ctxs' q ≡ leer_puntero ctxs q
    pub abajo :
        (c k : ℕ) → c + k ≤ cursor → slice c k (plana red' sticks) ≡ slice c k (plana red sticks)
    pub juntos : Juntos cursor ctxs' ps cursor'

  abbrev Tras : Red → List ContextoCpu → ℕ → List Puntero → (Red × List ContextoCpu) × ℕ → Type 0
  Tras red ctxs cursor ps ((red', ctxs'), cursor') =
      Compactada red ctxs cursor ps red' ctxs' cursor'

  pub resto-Pendiente :
      (red : Red) (ctxs : List ContextoCpu) (cursor : ℕ) (p : Puntero) (ps : List Puntero)
      → leer_puntero ctxs p ≡ none
      → Pendiente red ctxs cursor (p ∷ ps)
      → Pendiente red ctxs cursor ps
  resto-Pendiente red ctxs cursor p ps h w = record {
    memoria = w.memoria;
    distintos = Pairwise.of_cons w.distintos;
    en_orden = Pairwise.of_cons w.en_orden;
    dentro = λ q s m e. w.dentro q s (mem-cons_of_mem p m) e;
  }

  module _ (red : Red) (ctxs : List ContextoCpu) (cursor : ℕ) (p : Puntero) (ps : List Puntero)
      (w : Pendiente red ctxs cursor (p ∷ ps)) where
    cabeza_ne : (q : Puntero) → Mem q ps → p ≢ q
    cabeza_ne q m = rel_of_Pairwise-cons w.distintos m

    cabeza_fuera : ¬ Mem p ps
    cabeza_fuera m = cabeza_ne p m refl

    -- A pointer that points nowhere is passed over.
    pub sin_segmento-Compactada :
        (red' : Red) (ctxs' : List ContextoCpu) (cursor' : ℕ)
        → leer_puntero ctxs p ≡ none
        → Compactada red ctxs cursor ps red' ctxs' cursor'
        → Compactada red ctxs cursor (p ∷ ps) red' ctxs' cursor'
    sin_segmento-Compactada red' ctxs' cursor' h c =
        let nada : leer_puntero ctxs' p ≡ none = c.ajenos p cabeza_fuera ∙ h in
        let mismo : cursor + 0 ≡ cursor = omega arith in
        record {
          sigue = c.sigue;
          segmentos = λ q s m e.
              c.segmentos q s
                (Mem-resto m (λ (g : q ≡ p).
                  let k : leer_puntero ctxs q ≡ none = ap (leer_puntero ctxs) g ∙ h in cc))
                e;
          ajenos = λ q n. c.ajenos q (λ m. n (mem-cons_of_mem p m));
          abajo = c.abajo;
          juntos = (λ s e. absurd (cc (nada, e)), rw (nada, mismo) c.juntos);
        }

    module _ (s : EntradaSegmento) (h : leer_puntero ctxs p ≡ some s) (red1 : Red)
        (ctxs1 : List ContextoCpu) (mu : Mudado sticks fin red ctxs cursor p s red1 ctxs1) where
      antes_que :
          (q : Puntero) (t : EntradaSegmento)
          → Mem q ps
          → leer_puntero ctxs1 q ≡ some t
          → (leer_puntero ctxs q ≡ some t) × (s.base + s.limite ≤ t.base) × (cursor ≤ s.base)
      antes_que q t m e =
          let e' : leer_puntero ctxs q ≡ some t = sym (mu.otros q (cabeza_ne q m)) ∙ e in
          (e', rel_of_Pairwise-cons w.en_orden m s t h e', (w.dentro p s mem-cons_self h).1)

      pub siguiente-Pendiente : Pendiente red1 ctxs1 (cursor + s.limite) ps
      siguiente-Pendiente = record {
        memoria = mu.memoria;
        distintos = Pairwise.of_cons w.distintos;
        en_orden =
            Pairwise.imp_of_mem
              (λ a b ma mb r u v e f.
                r u v (sym (mu.otros a (cabeza_ne a ma)) ∙ e)
                  (sym (mu.otros b (cabeza_ne b mb)) ∙ f))
              (Pairwise.of_cons w.en_orden);
        dentro = λ q t m e.
            let (e', b, l) = antes_que q t m e in
            let (v, l', d) = w.dentro q t (mem-cons_of_mem p m) e' in (v, omega (arith, b, l), d);
      }

      module _ (red' : Red) (ctxs' : List ContextoCpu) (cursor' : ℕ)
          (c : Compactada red1 ctxs1 (cursor + s.limite) ps red' ctxs' cursor') where
        cabeza_leida : leer_puntero ctxs' p ≡ some mu.nuevo
        cabeza_leida = c.ajenos p cabeza_fuera ∙ mu.leido

        cabeza-Conservado : Conservado sticks red red' ctxs' p s
        cabeza-Conservado = record {
          nuevo = mu.nuevo;
          leido = cabeza_leida;
          mismo_id = mu.mismo_id;
          mismo_limite = mu.mismo_limite;
          contenido =
              ap (λ (b : ℕ). slice b mu.nuevo.limite (plana red' sticks)) mu.en_cursor
              ∙ ap (λ (n : ℕ). slice cursor n (plana red' sticks)) mu.mismo_limite
              ∙ c.abajo cursor s.limite (omega arith)
              ∙ mu.copia;
        }

        resto-Conservado :
            (q : Puntero) (t : EntradaSegmento)
            → Mem q ps
            → leer_puntero ctxs q ≡ some t
            → Conservado sticks red red' ctxs' q t
        resto-Conservado q t m e =
            let e1 : leer_puntero ctxs1 q ≡ some t = mu.otros q (cabeza_ne q m) ∙ e in
            let (e', b, l) = antes_que q t m e1 in
            let k = c.segmentos q t m e1 in
            record {
              nuevo = k.nuevo;
              leido = k.leido;
              mismo_id = k.mismo_id;
              mismo_limite = k.mismo_limite;
              contenido = k.contenido ∙ mu.arriba t.base t.limite (omega (arith, b, l));
            }

        pub con_segmento-Compactada : Compactada red ctxs cursor (p ∷ ps) red' ctxs' cursor'
        con_segmento-Compactada = record {
          sigue = c.sigue;
          segmentos = λ q t m e. elim (Puntero-cases q p) [
            | inl g ↦
                let k : leer_puntero ctxs p ≡ some t = ap (leer_puntero ctxs) (sym g) ∙ e in
                let ts : s ≡ t = cc (h, k) in
                subst (λ (x : Puntero). Conservado sticks red red' ctxs' x t) (sym g)
                  (subst (Conservado sticks red red' ctxs' p) ts cabeza-Conservado)
            | inr n ↦ resto-Conservado q t (Mem-resto m n) e
          ];
          ajenos = λ q n.
              c.ajenos q (λ m. n (mem-cons_of_mem p m))
              ∙ mu.otros q
                  (λ (g : p ≡ q). n (subst (λ (x : Puntero). Mem x (p ∷ ps)) g mem-cons_self));
          abajo = λ b k l. c.abajo b k (omega (arith, l)) ∙ mu.abajo b k l;
          juntos = (
            λ t e.
                let ts : mu.nuevo ≡ t = cc (cabeza_leida, e) in
                ap (λ (x : EntradaSegmento). x.base) (sym ts) ∙ mu.en_cursor,
            subst (λ (n : ℕ). Juntos (cursor + n) ctxs' ps cursor')
                (sym (ap limite_de cabeza_leida ∙ mu.mismo_limite)) c.juntos,
          );
        }
