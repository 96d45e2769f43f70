-- ===== src/Common/Tests.antt =====
-- Boolean tests on numbers and C strings, and the conditional.
use Prim.Native.Nat.{ℕ, ◌≤◌, ◌<◌, compare, Ordering}
use Prim.Native.Char.{code}
use Prim.Native.String.{String}
use mathlib.Core.Path.{◌≡◌, refl, sym, ap}
use mathlib.Core.Logic.{◌↔◌, ◌⊎◌, inl, inr}
use mathlib.Core.Bool.{Bool, true, false, ◌&&◌}
use mathlib.Core.Option.{Option, none, some}
use mathlib.Core.List.{List, [], ◌∷◌}
use native.Mathlib.Omega.{arith}

abbrev pub ltb : ℕ → ℕ → Bool
ltb a b = elim (compare a b) [ Ordering.lt ↦ true | _ ↦ false ]

abbrev pub leb : ℕ → ℕ → Bool
leb a b = elim (compare a b) [ Ordering.gt ↦ false | _ ↦ true ]

infix 50 ◌==◌
abbrev pub ◌==◌ : ℕ → ℕ → Bool
a == b = elim (compare a b) [ Ordering.eq ↦ true | _ ↦ false ]

infix 1 if◌then◌else◌
abbrev pub if◌then◌else◌ {ℓ} : {A : Type ℓ} → Bool → A → A → A
if true then x else y = x
if false then x else y = y

pub ltb→lt : (a b : ℕ) → ltb a b ≡ true → a < b
ltb→lt a b h = ground arith

pub lt→ltb : (a b : ℕ) → a < b → ltb a b ≡ true
lt→ltb a b h = ground arith

pub leb→le : (a b : ℕ) → leb a b ≡ true → a ≤ b
leb→le a b h = ground arith

pub ltb→ge : (a b : ℕ) → ltb a b ≡ false → b ≤ a
ltb→ge a b h = ground arith

pub ge→ltb : (a b : ℕ) → b ≤ a → ltb a b ≡ false
ge→ltb a b h = ground arith

pub le→leb : (a b : ℕ) → a ≤ b → leb a b ≡ true
le→leb a b h = ground arith

pub ==_iff : (a b : ℕ) → ((a == b) ≡ true) ↔ (a ≡ b)
==_iff a b = ground arith

pub Bool-cases : (b : Bool) → (b ≡ true) ⊎ (b ≡ false)
Bool-cases true = inl refl
Bool-cases false = inr refl

pub Option-cases {ℓ} : {A : Type ℓ} (o : Option A) → (o ≡ none) ⊎ ((a : A) × (o ≡ some a))
Option-cases none = inl refl
Option-cases (some a) = inr (a, refl)

-- 1 for a test that holds.
abbrev pub uno_si : Bool → ℕ
uno_si true = 1
uno_si false = 0

pub uno_si-le : (b : Bool) → uno_si b ≤ 1
uno_si-le true = omega arith
uno_si-le false = omega arith

-- A C string: its bytes, without the final NUL.
abbrev pub Texto : Type 0
Texto = List ℕ

-- A string literal of the source.
abbrev pub codes : String → Texto
codes String.[] = []
codes (String.◌∷◌ c s) = code c ∷ codes s

-- `strcmp(s, t) == 0`.
unfoldable pub strcmp : Texto → Texto → Bool
strcmp [] [] = true
strcmp [] (c ∷ t) = false
strcmp (b ∷ s) [] = false
strcmp (b ∷ s) (c ∷ t) = b == c && strcmp s t

pub strcmp_refl : (s : Texto) → strcmp s s ≡ true
unfolding strcmp
strcmp_refl [] = refl
strcmp_refl (b ∷ s) = ground (arith, strcmp_refl s)

pub strcmp→eq : (s t : Texto) → strcmp s t ≡ true → s ≡ t
unfolding strcmp
strcmp→eq [] [] h = refl
strcmp→eq [] (c ∷ t) h = cc
strcmp→eq (b ∷ s) [] h = cc
strcmp→eq (b ∷ s) (c ∷ t) h = ground (arith, strcmp→eq s t)

pub strcmp_sym : (s t : Texto) → strcmp s t ≡ false → strcmp t s ≡ false
strcmp_sym s t h = elim (Bool-cases (strcmp t s)) [
  | inl e ↦
      let q : strcmp s s ≡ false = rw (ap (strcmp s) (sym (strcmp→eq t s e))) h in
      cc (q, strcmp_refl s)
  | inr e ↦ e
]
