-- ===== src/Utils/Mensaje/Trama.antt =====
-- Framing: what is received does not depend on how the bytes were cut.
use ssoo.Common.{
  ℕ, suc, ◌-◌, ◌≤◌, ◌<◌, ◌≡◌, refl, sym, ap, ◌∙◌, inl, inr, some, List, [], ◌∷◌, ◌++◌, length, take,
  drop, All, append_assoc, append-nil, u32_mod, htonl, ntohl, ntohl-htonl, length-htonl,
  length-append, leb, Bool-cases, leb→le, take-all, take-append-drop, true, false, arith,
}
use ssoo.Utils.Mensaje.{devolver, recibir_bytes, recibir_mensaje, enviar_mensaje, palabra}

-- The connection is open: no chunk is empty.
abbrev pub SinFin : List (List ℕ) → Type 0
SinFin cs = All (λ c. 0 < length c) cs

abbrev pub bytes : List (List ℕ) → List ℕ
bytes [] = []
bytes (c ∷ cs) = c ++ bytes cs

bytes-devolver : (c : List ℕ) (cs : List (List ℕ)) → bytes (devolver c cs) ≡ c ++ bytes cs
bytes-devolver [] cs = refl
bytes-devolver (b ∷ c) cs = refl

devolver-SinFin : (c : List ℕ) (cs : List (List ℕ)) → SinFin cs → SinFin (devolver c cs)
devolver-SinFin [] cs h = h
devolver-SinFin (b ∷ c) cs h = (omega arith, h)

append-split :
    (c d bs r : List ℕ)
    → c ++ bs ≡ d ++ r
    → length d ≤ length c
    → (take (length d) c ≡ d) × (drop (length d) c ++ bs ≡ r)
append-split c [] bs r e h = (refl, e)
append-split [] (y ∷ d) bs r e h = absurd (omega arith)
append-split (x ∷ c) (y ∷ d) bs r e h =
    let ih = append-split c d bs r (ground (arith, e)) (omega arith) in
    (ground (arith, e, ih), ih.1)

recibir_bytes-largo :
    (c d d' : List ℕ) (cs cs' : List (List ℕ))
    → 0 < length c
    → leb (length d) (length c) ≡ false
    → c ++ d' ≡ d
    → recibir_bytes (length d') cs ≡ some (d', cs')
    → recibir_bytes (length d) (c ∷ cs) ≡ some (d, cs')
unfolding recibir_bytes
recibir_bytes-largo c d d' cs cs' hc falta e f =
    let l : length d - length c ≡ length d' = omega (arith, length-append c d', ap length e) in
    rw l (ground (arith, hc, falta, e, f))

-- Reading as many bytes as `d` has, when the bytes on the way begin with `d`, gives `d`.
recibir_bytes-prefix :
    (cs : List (List ℕ)) (d r : List ℕ)
    → SinFin cs
    → bytes cs ≡ d ++ r
    → (cs' : List (List ℕ)) × (recibir_bytes (length d) cs ≡ some (d, cs'))
      × (bytes cs' ≡ r)
      × SinFin cs'
unfolding recibir_bytes
recibir_bytes-prefix [] [] r h e = ([], refl, e, tt)
recibir_bytes-prefix [] (x ∷ d) r h e = absurd (cc)
recibir_bytes-prefix (c ∷ cs) [] r h e = (c ∷ cs, refl, e, h)
recibir_bytes-prefix (c ∷ cs) (x ∷ d) r (hc, hs) e =
    elim (Bool-cases (leb (suc (length d)) (length c))) [
      | inl cabe ↦
          let (t, dr) = append-split c (x ∷ d) (bytes cs) r e (leb→le _ _ cabe) in
          (
            devolver (drop (suc (length d)) c) cs,
            ground (arith, cabe, t),
            bytes-devolver (drop (suc (length d)) c) cs ∙ dr,
            devolver-SinFin (drop (suc (length d)) c) cs hs,
          )
      | inr falta ↦
          let (t, dr) = append-split (x ∷ d) c r (bytes cs) (sym e) (ground (arith, falta)) in
          let (cs', f, b, h') = recibir_bytes-prefix cs (drop (length c) (x ∷ d)) r hs (sym dr) in
          (
            cs',
            recibir_bytes-largo c (x ∷ d) (drop (length c) (x ∷ d)) cs cs' hc falta
                (ap (λ u. u ++ drop (length c) (x ∷ d)) (sym t)
                  ∙ take-append-drop (length c) (x ∷ d))
                f,
            b,
            h',
          )
    ]

-- Whatever the way in which TCP cuts the bytes of a message and of what follows it, as long as the
-- connection stays open, `recibir_mensaje` returns the message that `enviar_mensaje` was given and
-- leaves the bytes that follow. The operation code and the size fit 32 bits.
pub recibir-enviar_mensaje :
    (op : ℕ) (payload r : List ℕ) (cs : List (List ℕ))
    → op < u32_mod
    → length payload < u32_mod
    → SinFin cs
    → bytes cs ≡ enviar_mensaje true op (some payload) (length payload) ++ r
    → (cs' : List (List ℕ)) × (recibir_mensaje cs
        ≡ some (record { op_code = op; payload = payload }, cs'))
      × (bytes cs' ≡ r)
      × SinFin cs'
unfolding recibir_mensaje enviar_mensaje
recibir-enviar_mensaje op payload r cs hop hp h e =
    let resto₂ = htonl (length payload) ++ (payload ++ r) in
    let e₁ : bytes cs ≡ htonl op ++ resto₂ =
      e ∙ simp (append_assoc, take-all (length payload) payload (omega arith)) in
    let (cs₁, f₁, b₁, h₁) = recibir_bytes-prefix cs (htonl op) resto₂ h e₁ in
    let (cs₂, f₂, b₂, h₂) =
      recibir_bytes-prefix cs₁ (htonl (length payload)) (payload ++ r) h₁ b₁ in
    let (cs₃, f₃, b₃, h₃) = recibir_bytes-prefix cs₂ payload r h₂ b₂ in
    (cs₃, armar cs₁ cs₂ cs₃ f₁ f₂ f₃, b₃, h₃)
  where
    leida : (n : ℕ) → n < u32_mod → palabra (htonl n) ≡ some n
    leida n k =
        let e : ntohl (htonl n) ≡ some (n, []) =
          ap ntohl (sym (append-nil (htonl n))) ∙ ntohl-htonl n [] k in
        rw e

    armar :
        (cs₁ cs₂ cs₃ : List (List ℕ))
        → recibir_bytes (length (htonl op)) cs ≡ some (htonl op, cs₁)
        → recibir_bytes (length (htonl (length payload))) cs₁ ≡ some (htonl (length payload), cs₂)
        → recibir_bytes (length payload) cs₂ ≡ some (payload, cs₃)
        → recibir_mensaje cs ≡ some (record { op_code = op; payload = payload }, cs₃)
    armar cs₁ cs₂ cs₃ f₁ f₂ f₃ = rw (
      rw (length-htonl op) at f₁,
      rw (length-htonl (length payload)) at f₂,
      leida op hop,
      leida (length payload) hp,
      f₃,
    )
