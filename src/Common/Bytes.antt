-- ===== src/Common/Bytes.antt =====
-- Machine words and their big-endian bytes: `htonl` followed by `memcpy` of four bytes.
use Prim.Native.Nat.{ℕ, ◌+◌, ◌*◌, ◌/◌, ◌%◌, ◌<◌}
use mathlib.Core.Path.{◌≡◌, refl}
use mathlib.Core.Option.{Option, none, some}
use mathlib.Core.List.{List, [], ◌∷◌, ◌++◌}
use mathlib.Core.Logic.{◌⊎◌, inl, inr}
use native.Mathlib.Omega.{arith}
use ssoo.Common.Lists.{length}

abbrev pub u32_mod : ℕ
u32_mod = 4294967296

-- `UINT32_MAX`.
abbrev pub uint32_max : ℕ
uint32_max = 4294967295

abbrev pub u8 : ℕ → ℕ
u8 n = n % 256

abbrev pub u32 : ℕ → ℕ
u32 n = n % 4294967296

-- The bytes of `n` in network order.
unfoldable pub htonl : ℕ → List ℕ
htonl n = n / 16777216 % 256 ∷ n / 65536 % 256 ∷ n / 256 % 256 ∷ n % 256 ∷ []

-- The word that four bytes of a payload hold, and the bytes behind it.
unfoldable pub ntohl : List ℕ → Option (ℕ × List ℕ)
ntohl (a ∷ b ∷ c ∷ d ∷ p) = some (a * 16777216 + b * 65536 + c * 256 + d, p)
ntohl p = none

pub ntohl-htonl : (n : ℕ) (p : List ℕ) → n < u32_mod → ntohl (htonl n ++ p) ≡ some (n, p)
unfolding htonl ntohl
ntohl-htonl n p h = ground arith

-- `ntohl` fails exactly when fewer than four bytes are left.
pub ntohl-cases :
    (p : List ℕ)
    → ((length p < 4) × (ntohl p ≡ none))
      ⊎ ((n : ℕ) × (q : List ℕ) × (length p ≡ 4 + length q) × (ntohl p ≡ some (n, q)))
unfolding ntohl
ntohl-cases [] = inl (omega arith, refl)
ntohl-cases (a ∷ []) = inl (omega arith, refl)
ntohl-cases (a ∷ b ∷ []) = inl (omega arith, refl)
ntohl-cases (a ∷ b ∷ c ∷ []) = inl (omega arith, refl)
ntohl-cases (a ∷ b ∷ c ∷ d ∷ q) = inr (_, q, omega arith, refl)

pub length-htonl : (n : ℕ) → length (htonl n) ≡ 4
unfolding htonl
length-htonl n = omega arith
