-- ===== src/Km/Compactacion/Mudanza.antt =====
-- One round of the compaction: a segment moves down to the cursor.
use ssoo.Common.{
  ℕ, ◌+◌, ◌-◌, ◌≤◌, ◌<◌, ◌≡◌, ◌≢◌, refl, sym, ap, subst, ◌∙◌, inl, inr, some, List, length,
  length-take, length-drop, drop, slice, splice, slice-splice_same, slice-splice_before,
  slice-splice_after, ◌==◌, ==_iff, Bool-cases, u32, u32_mod, arith,
}
use ssoo.Utils.Contexto.{ContextoCpu, EntradaSegmento}
use ssoo.Km.Sticks.{MemoryStick, ms_para_direccion}
use ssoo.Km.Fisica.{Red, leer_fisico}
use ssoo.Km.Fisica.Plana.{plana, Memoria, length-plana}
use ssoo.Km.Fisica.Lectura.{leer_fisico-slice}
use ssoo.Km.Fisica.Escritura.{escribir_fisico-splice}
use ssoo.Km.Compactacion.{Puntero, leer_puntero, escribir_puntero, stick_en, copiar_datos, mover}
use ssoo.Km.Compactacion.Punteros.{leer-escribir_puntero, leer-escribir_puntero_ne}

module _ (sticks : List MemoryStick) (fin : ℕ) where
  -- The segment `s` of the pointer `p` has moved to the cursor.
  pub record Mudado (red : Red) (ctxs : List ContextoCpu) (cursor : ℕ) (p : Puntero)
      (s : EntradaSegmento) (red' : Red) (ctxs' : List ContextoCpu) : Type 0 where
    pub memoria : Memoria red' sticks fin
    pub nuevo : EntradaSegmento
    pub leido : leer_puntero ctxs' p ≡ some nuevo
    pub en_cursor : nuevo.base ≡ cursor
    pub mismo_limite : nuevo.limite ≡ s.limite
    pub mismo_id : nuevo.id_segmento ≡ s.id_segmento
    pub otros : (q : Puntero) → p ≢ q → leer_puntero ctxs' q ≡ leer_puntero ctxs q
    pub copia : slice cursor s.limite (plana red' sticks) ≡ slice s.base s.limite (plana red sticks)
    pub abajo :
        (c k : ℕ) → c + k ≤ cursor → slice c k (plana red' sticks) ≡ slice c k (plana red sticks)
    pub arriba :
        (c k : ℕ)
        → cursor + s.limite ≤ c
        → slice c k (plana red' sticks) ≡ slice c k (plana red sticks)

  module _ (red : Red) (ctxs : List ContextoCpu) (cursor : ℕ) (p : Puntero) (s : EntradaSegmento)
      (m : Memoria red sticks fin) (h : leer_puntero ctxs p ≡ some s) (l : cursor ≤ s.base)
      (t : s.base + s.limite ≤ fin) (v : 0 < s.limite) (chico : fin < u32_mod - 8) where
    abbrev movido : EntradaSegmento
    movido = record s {
      base = cursor;
      id_memory_stick = stick_en (ms_para_direccion cursor sticks) s.id_memory_stick;
    }

    abbrev copiada : Red
    copiada = copiar_datos red sticks cursor (leer_fisico red sticks s.base s.limite)

    copiar_datos-splice :
        (plana copiada sticks
          ≡ splice cursor (slice s.base s.limite (plana red sticks)) (plana red sticks))
        × Memoria copiada sticks fin
        × (length (slice s.base s.limite (plana red sticks)) ≡ s.limite)
        × (length (plana red sticks) ≡ fin)
    copiar_datos-splice =
        let xs = slice s.base s.limite (plana red sticks) in
        let lp : length (plana red sticks) ≡ fin =
          omega (arith, length-plana 0 red sticks fin m.contiguos m.cableado) in
        let lx : length xs ≡ s.limite = omega (
          arith,
          length-take s.limite (drop s.base (plana red sticks)),
          length-drop s.base (plana red sticks),
          lp,
          t,
        ) in
        let (ok, pl, w) =
          escribir_fisico-splice red sticks fin cursor xs m (omega (arith, lx, v))
            (omega (arith, lx, l, t)) (omega (arith, lx, t, chico)) in
        rw (leer_fisico-slice red sticks fin s.base s.limite m v t) (pl, w, lx, lp)

    copiada-Mudado : Mudado red ctxs cursor p s copiada (escribir_puntero ctxs p movido)
    copiada-Mudado =
        let xs = slice s.base s.limite (plana red sticks) in
        let (pl, w, lx, lp) = copiar_datos-splice in
        record {
          memoria = w;
          nuevo = movido;
          leido = leer-escribir_puntero ctxs p s movido h;
          en_cursor = refl;
          mismo_limite = refl;
          mismo_id = refl;
          otros = λ q n. leer-escribir_puntero_ne ctxs p q movido n;
          copia =
              ap (slice cursor s.limite) pl
              ∙ ap (λ (n : ℕ). slice cursor n (splice cursor xs (plana red sticks))) (sym lx)
              ∙ slice-splice_same cursor xs (plana red sticks) (omega (arith, lx, lp, l, t));
          abajo = λ c k a.
              ap (slice c k) pl
              ∙ slice-splice_before c k cursor xs (plana red sticks) a (omega (arith, lp, l, t));
          arriba = λ c k a.
              ap (slice c k) pl
              ∙ slice-splice_after c k cursor xs (plana red sticks) (omega (arith, lx, a))
                  (omega (arith, lp, l, t));
        }

    -- A round moves the segment, and the cursor behind it.
    pub mover-Mudado :
        (o : (Red × List ContextoCpu) × ℕ)
        → mover red sticks ctxs cursor p (some s) ≡ o
        → Mudado red ctxs cursor p s o.0.0 o.0.1 × (o.1 ≡ cursor + s.limite)
    mover-Mudado o e =
        let cabe : u32 (cursor + s.limite) ≡ cursor + s.limite = omega (arith, l, t, chico) in
        elim (Bool-cases (s.base == cursor)) [
          | inl z ↦
              let q : s.base ≡ cursor = (==_iff s.base cursor).0 z in
              let f : ((red, ctxs), cursor + s.limite) ≡ o = rw (z, cabe) at e in
              subst
                (λ (r : (Red × List ContextoCpu) × ℕ).
                  Mudado red ctxs cursor p s r.0.0 r.0.1 × (r.1 ≡ cursor + s.limite))
                f
                (
                  record {
                    memoria = m;
                    nuevo = s;
                    leido = h;
                    en_cursor = q;
                    mismo_limite = refl;
                    mismo_id = refl;
                    otros = λ r n. refl;
                    copia = ap (λ (c : ℕ). slice c s.limite (plana red sticks)) (sym q);
                    abajo = λ c k a. refl;
                    arriba = λ c k a. refl;
                  },
                  refl,
                )
          | inr z ↦
              let f : ((copiada, escribir_puntero ctxs p movido), cursor + s.limite) ≡ o =
                rw (z, cabe) at e in
              subst
                (λ (r : (Red × List ContextoCpu) × ℕ).
                  Mudado red ctxs cursor p s r.0.0 r.0.1 × (r.1 ≡ cursor + s.limite))
                f (copiada-Mudado, refl)
        ]
