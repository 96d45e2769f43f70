-- ===== src/Utils/Mensaje.antt =====
-- Messages over a TCP connection: utils/src/utils/sockets.c. What a peer has sent reaches `recv` as
-- a list of chunks, cut anywhere; an empty chunk is the end of the connection.
pub mod Trama
use ssoo.Common.{
  ℕ, suc, ◌+◌, ◌-◌, Option, none, some, List, [], ◌∷◌, ◌++◌, length, take, drop, htonl, ntohl, leb,
  ltb, ◌==◌, if◌then◌else◌, Bool, true, false, ◌&&◌, ◌||◌,
}

pub record Mensaje : Type 0 where
  pub op_code : ℕ
  pub payload : List ℕ

-- What a chunk leaves for the next `recv`: nothing, if it was read whole.
abbrev pub devolver : List ℕ → List (List ℕ) → List (List ℕ)
devolver [] cs = cs
devolver (b ∷ c) cs = (b ∷ c) ∷ cs

abbrev pub anteponer : List ℕ → Option (List ℕ × List (List ℕ)) → Option (List ℕ × List (List ℕ))
anteponer c none = none
anteponer c (some (d, cs)) = some (c ++ d, cs)

-- The loop of `recibir_bytes`: `falta` is `size - recibido`, and `none` the result -1.
unfoldable pub recibir_bytes : ℕ → List (List ℕ) → Option (List ℕ × List (List ℕ))
recibir_bytes falta [] = if falta == 0 then some ([], []) else none
recibir_bytes falta (c ∷ cs) =
    let resto = anteponer c (recibir_bytes (falta - length c) cs) in
    if falta == 0
    then some ([], c ∷ cs)
    else if length c == 0
    then none
    else if leb falta (length c)
    then some (take falta c, devolver (drop falta c) cs)
    else resto

infixl 5 ◌>>=◌
abbrev pub ◌>>=◌ : {A B : Type 0} → Option A → (A → Option B) → Option B
none >>= f = none
some a >>= f = f a

-- A word in network order; `recibir_bytes` has returned four bytes.
abbrev pub palabra : List ℕ → Option ℕ
palabra p = do (n, q) ← ntohl p; some n

-- `none` is NULL.
unfoldable pub recibir_mensaje : List (List ℕ) → Option (Mensaje × List (List ℕ))
recibir_mensaje cs = do
  (op_code_n, cs₁) ← recibir_bytes 4 cs
  (size_n, cs₂) ← recibir_bytes 4 cs₁
  op_code ← palabra op_code_n
  payload_size ← palabra size_n
  (payload, cs₃) ← recibir_bytes payload_size cs₂
  some (record { op_code = op_code; payload = payload }, cs₃)

-- The bytes that `enviar_mensaje` puts on the connection. `abierto` is `fd >= 0`; a payload that is
-- `none` is a NULL pointer.
unfoldable pub enviar_mensaje : Bool → ℕ → Option (List ℕ) → ℕ → List ℕ
enviar_mensaje false op_code payload payload_size = []
enviar_mensaje true op_code none payload_size =
    if ltb 0 payload_size then [] else htonl op_code ++ htonl payload_size
enviar_mensaje true op_code (some payload) payload_size =
    htonl op_code ++ (htonl payload_size ++ take payload_size payload)
