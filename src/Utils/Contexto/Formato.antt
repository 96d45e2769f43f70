-- ===== src/Utils/Contexto/Formato.antt =====
-- The wire format of a context: round trip, and when the deserialiser leaves its payload.
use ssoo.Common.{
  ℕ, zero, suc, ◌+◌, ◌*◌, ◌≤◌, ◌<◌, ◌≡◌, refl, ◌⊎◌, inl, inr, ◌↔◌, Option, none, some, List, [],
  ◌∷◌, ◌++◌, length, All, append_assoc, u32_mod, u32, htonl, ntohl, ntohl-htonl, ntohl-cases,
  ge→ltb, length-append, arith,
}
use ssoo.Utils.Contexto.{
  EntradaSegmento, ContextoCpu, SegmentoEnRango, ContextoEnRango, leer_entrada, leer_byte, ◌>>=◌,
  serializar_segmentos, serializar_contexto, leer_cabecera, leer_segmentos, desborde, leido,
  deserializar_contexto,
}

leer-serializar_segmentos :
    (ss : List EntradaSegmento) (p : List ℕ)
    → All SegmentoEnRango ss
    → leer_segmentos (length ss) (serializar_segmentos ss ++ p) ≡ some ss
unfolding leer_segmentos serializar_segmentos
leer-serializar_segmentos [] p h = refl
leer-serializar_segmentos (s ∷ ss) p (h, hs) = simp (
  append_assoc,
  ntohl-htonl s.id_segmento _ h.id_cabe,
  ntohl-htonl s.id_memory_stick _ h.stick_cabe,
  ntohl-htonl s.base _ h.base_cabe,
  ntohl-htonl s.limite _ h.limite_cabe,
  leer-serializar_segmentos ss p hs,
)

length-serializar_segmentos :
    (ss : List EntradaSegmento) → length (serializar_segmentos ss) ≡ 16 * length ss
unfolding serializar_segmentos htonl
length-serializar_segmentos [] = omega arith
length-serializar_segmentos (s ∷ ss) = omega (arith, length-serializar_segmentos ss)

length-serializar_contexto :
    (c : ContextoCpu) → length (serializar_contexto c) ≡ 40 + 16 * length c.segmentos
unfolding serializar_contexto htonl
length-serializar_contexto c = omega (arith, length-serializar_segmentos c.segmentos)

leer_cabecera-serializar :
    (c : ContextoCpu) (p : List ℕ)
    → ContextoEnRango c
    → length c.segmentos < u32_mod
    → leer_cabecera (serializar_contexto c ++ p)
      ≡ some
          ((record c { segmentos = [] }, length c.segmentos), serializar_segmentos c.segmentos ++ p)
unfolding leer_cabecera serializar_contexto
leer_cabecera-serializar c p h cabe =
    let r = c.registros in
    let hr = h.registros_caben in
    simp (
      append_assoc,
      ntohl-htonl c.pid _ h.pid_cabe,
      ntohl-htonl r.pc _ hr.pc_cabe,
      ntohl-htonl r.eax _ hr.eax_cabe,
      ntohl-htonl r.ebx _ hr.ebx_cabe,
      ntohl-htonl r.ecx _ hr.ecx_cabe,
      ntohl-htonl r.edx _ hr.edx_cabe,
      ntohl-htonl r.si _ hr.si_cabe,
      ntohl-htonl r.di _ hr.di_cabe,
      ntohl-htonl (length c.segmentos) _ cabe,
    )

-- Reading back a serialised context gives the context, whatever bytes follow it in the payload,
-- provided that each field fits its C type and that the size, 40 bytes and 16 for each segment,
-- fits 32 bits.
pub deserializar-serializar_contexto :
    (c : ContextoCpu) (p : List ℕ)
    → ContextoEnRango c
    → 40 + 16 * length c.segmentos < u32_mod
    → deserializar_contexto (serializar_contexto c ++ p) ≡ leido c
unfolding deserializar_contexto
deserializar-serializar_contexto c p h cabe =
    let l = length-append (serializar_contexto c) p in
    let m = length-serializar_contexto c in
    rw (
      ge→ltb (length (serializar_contexto c ++ p)) 40 (omega arith),
      leer_cabecera-serializar c p h (omega arith),
      ge→ltb (length (serializar_contexto c ++ p)) (u32 (40 + u32 (length c.segmentos * 16)))
          (omega arith),
      leer-serializar_segmentos c.segmentos p h.segmentos_caben,
    )

-- A reader takes `k` bytes off the payload, or fails because fewer are left.
abbrev Consume : {A : Type 0} → ℕ → List ℕ → Option (A × List ℕ) → Type 0
Consume {A} k p r =
    ((length p < k) × (r ≡ none))
    ⊎ ((a : A) × (q : List ℕ) × (length p ≡ k + length q) × (r ≡ some (a, q)))

Consume-bind :
    {A B : Type 0} (k m : ℕ) (p : List ℕ) (r : Option (A × List ℕ))
    (g : A × List ℕ → Option (B × List ℕ))
    → Consume k p r
    → ((a : A) (q : List ℕ) → Consume m q (g (a, q)))
    → Consume (k + m) p (r >>= g)
Consume-bind k m p r g (inl (l, e)) h = inl (omega arith, rw e)
Consume-bind k m p r g (inr (a, q, l, e)) h = siguiente (h a q)
  where
    siguiente : Consume m q (g (a, q)) → Consume (k + m) p (r >>= g)
    siguiente (inl (l', e')) = inl (omega arith, rw (e, e'))
    siguiente (inr (b, q', l', e')) = inr (b, q', omega arith, rw (e, e'))

leer_byte-Consume : (p : List ℕ) → Consume 1 p (leer_byte p)
leer_byte-Consume [] = inl (omega arith, refl)
leer_byte-Consume (b ∷ p) = inr (b, p, omega arith, refl)

word :
    {B : Type 0} (m : ℕ) (p : List ℕ) (g : ℕ × List ℕ → Option (B × List ℕ))
    → ((a : ℕ) (q : List ℕ) → Consume m q (g (a, q)))
    → Consume (4 + m) p (ntohl p >>= g)
word m p g = Consume-bind 4 m p (ntohl p) g (ntohl-cases p)

byte :
    {B : Type 0} (m : ℕ) (p : List ℕ) (g : ℕ × List ℕ → Option (B × List ℕ))
    → ((a : ℕ) (q : List ℕ) → Consume m q (g (a, q)))
    → Consume (1 + m) p (leer_byte p >>= g)
byte m p g = Consume-bind 1 m p (leer_byte p) g (leer_byte-Consume p)

leer_entrada-Consume : (p : List ℕ) → Consume 16 p (leer_entrada p)
unfolding leer_entrada
leer_entrada-Consume p =
    word 12 p _ λ a p₁.
      word 8 p₁ _ λ b p₂. word 4 p₂ _ λ c p₃. word 0 p₃ _ λ d q. inr (_, q, omega arith, refl)

leer_cabecera-Consume : (p : List ℕ) → Consume 40 p (leer_cabecera p)
unfolding leer_cabecera
leer_cabecera-Consume p = word 36 p _ λ a p₁. word 32 p₁ _ λ b p₂. byte 31 p₂ _ λ c p₃.
    byte 30 p₃ _ λ d p₄. byte 29 p₄ _ λ e p₅. byte 28 p₅ _ λ f p₆. word 24 p₆ _ λ g p₇.
      word 20 p₇ _ λ h p₈. word 16 p₈ _ λ i p₉. word 12 p₉ _ λ j p₁₀.
        word 8 p₁₀ _
          λ k p₁₁. word 4 p₁₁ _ λ l p₁₂. word 0 p₁₂ _ λ m q. inr (_, q, omega arith, refl)

leer_segmentos-cases :
    (n : ℕ) (p : List ℕ)
    → ((length p < 16 * n) × (leer_segmentos n p ≡ none))
      ⊎ ((ss : List EntradaSegmento) × (16 * n ≤ length p) × (leer_segmentos n p ≡ some ss))
unfolding leer_segmentos
leer_segmentos-cases zero p = inr ([], omega arith, refl)
leer_segmentos-cases (suc n) p = con (leer_entrada-Consume p) (leer_segmentos-cases n)
  where
    con :
        Consume 16 p (leer_entrada p)
        → ((q : List ℕ)
            → ((length q < 16 * n) × (leer_segmentos n q ≡ none))
              ⊎ ((ss : List EntradaSegmento) × (16 * n ≤ length q)
                  × (leer_segmentos n q ≡ some ss)))
        → ((length p < 16 * suc n) × (leer_segmentos (suc n) p ≡ none))
          ⊎ ((ss : List EntradaSegmento) × (16 * suc n ≤ length p)
              × (leer_segmentos (suc n) p ≡ some ss))
    con (inl (l, e)) h = inl (omega arith, rw e)
    con (inr (s, q, l, e)) h = resto (h q)
      where
        resto :
            ((length q < 16 * n) × (leer_segmentos n q ≡ none))
              ⊎ ((ss : List EntradaSegmento) × (16 * n ≤ length q) × (leer_segmentos n q ≡ some ss))
            → ((length p < 16 * suc n) × (leer_segmentos (suc n) p ≡ none))
              ⊎ ((ss : List EntradaSegmento) × (16 * suc n ≤ length p)
                  × (leer_segmentos (suc n) p ≡ some ss))
        resto (inl (k, f)) = inl (omega arith, rw (e, f))
        resto (inr (ss, k, f)) = inr (s ∷ ss, omega arith, rw (e, f))

length-leer_cabecera :
    (p q : List ℕ) (x : ContextoCpu × ℕ) → leer_cabecera p ≡ some (x, q) → length p ≡ 40 + length q
length-leer_cabecera p q x e = con (leer_cabecera-Consume p)
  where
    con : Consume 40 p (leer_cabecera p) → length p ≡ 40 + length q
    con (inl (l, f)) = cc
    con (inr (y, r, l, f)) = ground (arith, e, f, l)

-- When the fixed part of a payload is read with the count `cant`, the deserialiser reads outside
-- the payload exactly when the payload is shorter than 40 bytes and 16 for each segment, while the
-- size that it computes in 32 bits, which wraps, is no more than the payload's.
pub deserializar_contexto-desborde :
    (p q : List ℕ) (c : ContextoCpu) (cant : ℕ)
    → leer_cabecera p ≡ some ((c, cant), q)
    → (deserializar_contexto p ≡ desborde)
      ↔ ((length p < 40 + 16 * cant) × (u32 (40 + u32 (cant * 16)) ≤ length p))
unfolding deserializar_contexto
deserializar_contexto-desborde p q c cant e =
    let l = length-leer_cabecera p q (c, cant) e in
    let corto = ge→ltb (length p) 40 (omega arith) in
    elim (leer_segmentos-cases cant q) [
      | inl (k, f) ↦ rw (corto, e, f) ((λ d. ground arith), λ d. ground arith)
      | inr (ss, k, f) ↦ rw (corto, e, f) ((λ d. ground arith), λ d. ground arith)
    ]
