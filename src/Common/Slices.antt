-- ===== src/Common/Slices.antt =====
-- Reading and overwriting a range of a list.
use Prim.Native.Nat.{ℕ, zero, suc, ◌+◌, ◌-◌, ◌≤◌}
use mathlib.Core.Path.{◌≡◌, refl, sym, ap, ◌∙◌}
use mathlib.Core.List.{List, [], ◌∷◌, ◌++◌, append_assoc}
use native.Mathlib.Omega.{arith}
use ssoo.Common.Lists.{
  length, length-append, length-take, length-drop, take, drop, take-append-drop, take-all,
  take-append,
}

module _ {ℓ} {A : Type ℓ} where
  -- The `n` entries from `d` on.
  abbrev pub slice : ℕ → ℕ → List A → List A
  slice d n l = take n (drop d l)

  -- The list with `xs` written over it from `d` on.
  unfoldable pub splice : ℕ → List A → List A → List A
  splice d xs l = take d l ++ (xs ++ drop (d + length xs) l)

  pub drop-nil : (n : ℕ) → drop {A = A} n [] ≡ []
  drop-nil zero = refl
  drop-nil (suc n) = refl

  pub take-nil : (n : ℕ) → take {A = A} n [] ≡ []
  take-nil zero = refl
  take-nil (suc n) = refl

  pub drop-drop : (a b : ℕ) (l : List A) → drop b (drop a l) ≡ drop (a + b) l
  drop-drop zero b l = ap (λ n. drop n l) (omega arith)
  drop-drop (suc a) b [] = drop-nil b ∙ sym (drop-nil (suc a + b))
  drop-drop (suc a) b (x ∷ l) =
      drop-drop a b l
      ∙ ap (λ n. drop n (x ∷ l)) (let e : suc (a + b) ≡ suc a + b = omega arith in e)

  pub take-add : (a b : ℕ) (l : List A) → take a l ++ take b (drop a l) ≡ take (a + b) l
  take-add zero b l = ap (λ n. take n l) (omega arith)
  take-add (suc a) b [] = take-nil b ∙ sym (take-nil (suc a + b))
  take-add (suc a) b (x ∷ l) =
      ap (◌∷◌ x) (take-add a b l)
      ∙ ap (λ n. take n (x ∷ l)) (let e : suc (a + b) ≡ suc a + b = omega arith in e)

  -- A slice cut in two.
  pub slice-add : (d a b : ℕ) (l : List A) → slice d a l ++ slice (d + a) b l ≡ slice d (a + b) l
  slice-add d a b l =
      ap (λ m. slice d a l ++ take b m) (sym (drop-drop d a l)) ∙ take-add a b (drop d l)

  pub drop-append_ge : (xs ys : List A) (n : ℕ) → drop (length xs + n) (xs ++ ys) ≡ drop n ys
  drop-append_ge [] ys n = ap (λ k. drop k ys) (omega arith)
  drop-append_ge (x ∷ xs) ys n =
      ap (λ k. drop k (x ∷ (xs ++ ys)))
        (let e : suc (length xs) + n ≡ suc (length xs + n) = omega arith in e)
      ∙ drop-append_ge xs ys n

  pub take-append_ge : (xs ys : List A) (n : ℕ) → take (length xs + n) (xs ++ ys) ≡ xs ++ take n ys
  take-append_ge [] ys n = ap (λ k. take k ys) (omega arith)
  take-append_ge (x ∷ xs) ys n =
      ap (λ k. take k (x ∷ (xs ++ ys)))
        (let e : suc (length xs) + n ≡ suc (length xs + n) = omega arith in e)
      ∙ ap (◌∷◌ x) (take-append_ge xs ys n)

  pub take-append_le : (xs ys : List A) (n : ℕ) → n ≤ length xs → take n (xs ++ ys) ≡ take n xs
  take-append_le xs ys zero h = refl
  take-append_le [] ys (suc n) h = absurd (omega arith)
  take-append_le (x ∷ xs) ys (suc n) h = ap (◌∷◌ x) (take-append_le xs ys n (omega arith))

  pub drop-append_le :
      (xs ys : List A) (n : ℕ) → n ≤ length xs → drop n (xs ++ ys) ≡ drop n xs ++ ys
  drop-append_le xs ys zero h = refl
  drop-append_le [] ys (suc n) h = absurd (omega arith)
  drop-append_le (x ∷ xs) ys (suc n) h = drop-append_le xs ys n (omega arith)

  -- A slice within the middle part.
  pub slice-middle :
      (ps bs qs : List A) (d n : ℕ)
      → d + n ≤ length bs
      → slice (length ps + d) n (ps ++ (bs ++ qs)) ≡ slice d n bs
  slice-middle ps bs qs d n h =
      ap (take n) (drop-append_ge ps (bs ++ qs) d ∙ drop-append_le bs qs d (omega arith))
      ∙ take-append_le (drop d bs) qs n (omega (arith, length-drop d bs))

  pub splice-middle :
      (ps bs qs xs : List A) (d : ℕ)
      → d + length xs ≤ length bs
      → splice (length ps + d) xs (ps ++ (bs ++ qs)) ≡ ps ++ (splice d xs bs ++ qs)
  unfolding splice
  splice-middle ps bs qs xs d h =
      rw
        (
          take-append_ge ps (bs ++ qs) d,
          take-append_le bs qs d (omega arith),
          (let e : length ps + d + length xs ≡ length ps + (d + length xs) = omega arith in e),
          drop-append_ge ps (bs ++ qs) (d + length xs),
          drop-append_le bs qs (d + length xs) h,
        )
        (simp append_assoc)

  pub length-splice :
      (d : ℕ) (xs l : List A) → d + length xs ≤ length l → length (splice d xs l) ≡ length l
  unfolding splice
  length-splice d xs l h = omega (
    arith,
    length-append (take d l) (xs ++ drop (d + length xs) l),
    length-append xs (drop (d + length xs) l),
    length-take d l,
    length-drop (d + length xs) l,
  )

  splice-cons :
      (d : ℕ) (xs : List A) (x : A) (l : List A) → splice (suc d) xs (x ∷ l) ≡ x ∷ splice d xs l
  unfolding splice
  splice-cons d xs x l =
      ap (λ k. (x ∷ take d l) ++ (xs ++ drop k (x ∷ l)))
        (let e : suc d + length xs ≡ suc (d + length xs) = omega arith in e)

  splice-zero : (xs l : List A) → splice zero xs l ≡ xs ++ drop (length xs) l
  unfolding splice
  splice-zero xs l = ap (λ k. xs ++ drop k l) (let e : 0 + length xs ≡ length xs = omega arith in e)

  splice-append_zero :
      (xs ys l : List A)
      → splice (length xs) ys (xs ++ drop (length xs) l) ≡ (xs ++ ys) ++ drop (length (xs ++ ys)) l
  unfolding splice
  splice-append_zero xs ys l =
      rw
        (
          take-append xs (drop (length xs) l),
          drop-append_ge xs (drop (length xs) l) (length ys),
          drop-drop (length xs) (length ys) l,
          length-append xs ys,
        )
        (sym (append_assoc xs ys (drop (length xs + length ys) l)))

  -- Writing two adjacent ranges is writing their bytes at once.
  pub splice-append :
      (d : ℕ) (xs ys l : List A)
      → d ≤ length l
      → splice (d + length xs) ys (splice d xs l) ≡ splice d (xs ++ ys) l
  splice-append zero xs ys l h =
      rw
        (
          splice-zero xs l,
          (let e : 0 + length xs ≡ length xs = omega arith in e),
          splice-zero (xs ++ ys) l,
        )
        (splice-append_zero xs ys l)
  splice-append (suc d) xs ys [] h = absurd (omega arith)
  splice-append (suc d) xs ys (x ∷ l) h =
      rw
        (
          splice-cons d xs x l,
          (let e : suc d + length xs ≡ suc (d + length xs) = omega arith in e),
          splice-cons (d + length xs) ys x (splice d xs l),
          splice-cons d (xs ++ ys) x l,
        )
        (ap (◌∷◌ x) (splice-append d xs ys l (omega arith)))

  pub splice-nil : (d : ℕ) (l : List A) → splice d [] l ≡ l
  unfolding splice
  splice-nil d l =
      ap (λ k. take d l ++ drop k l) (let e : d + 0 ≡ d = omega arith in e) ∙ take-append-drop d l

  pub drop-all : (n : ℕ) (l : List A) → length l ≤ n → drop n l ≡ []
  drop-all zero [] h = refl
  drop-all zero (x ∷ l) h = absurd (omega arith)
  drop-all (suc n) [] h = refl
  drop-all (suc n) (x ∷ l) h = drop-all n l (omega arith)

  -- What was written is read back.
  pub slice-splice_same :
      (d : ℕ) (xs l : List A) → d + length xs ≤ length l → slice d (length xs) (splice d xs l) ≡ xs
  unfolding splice
  slice-splice_same d xs l h =
      let e : length (take d l) + 0 ≡ d = omega (arith, length-take d l) in
      ap (λ (k : ℕ). slice k (length xs) (splice d xs l)) (sym e)
      ∙ (slice-middle (take d l) xs (drop (d + length xs) l) 0 (length xs) (omega arith)
          ∙ take-all (length xs) xs (omega arith))

  -- A slice that ends before the overwritten range.
  pub slice-splice_before :
      (c n d : ℕ) (xs l : List A)
      → c + n ≤ d
      → d ≤ length l
      → slice c n (splice d xs l) ≡ slice c n l
  unfolding splice
  slice-splice_before c n d xs l h k =
      let m = λ (qs : List A). slice-middle [] (take d l) qs c n (omega (arith, length-take d l)) in
      let e : 0 + c ≡ c = omega arith in
      ap (λ (i : ℕ). slice i n (splice d xs l)) (sym e)
      ∙ (m (xs ++ drop (d + length xs) l)
          ∙ (sym (m (drop d l))
              ∙ (ap (λ (i : ℕ). slice i n (take d l ++ drop d l)) e
                  ∙ ap (slice c n) (take-append-drop d l))))

  -- A slice that starts after it.
  pub slice-splice_after :
      (c n d : ℕ) (xs l : List A)
      → d + length xs ≤ c
      → d ≤ length l
      → slice c n (splice d xs l) ≡ slice c n l
  unfolding splice
  slice-splice_after c n d xs l h k =
      let ps = take d l ++ xs in
      let e : c ≡ length ps + (c - (d + length xs)) =
        omega (arith, length-append (take d l) xs, length-take d l) in
      let f : d + length xs + (c - (d + length xs)) ≡ c = omega arith in
      ap (take n) (
        ap (drop c) (sym (append_assoc (take d l) xs (drop (d + length xs) l)))
        ∙ (ap (λ (i : ℕ). drop i (ps ++ drop (d + length xs) l)) e
            ∙ (drop-append_ge ps (drop (d + length xs) l) (c - (d + length xs))
                ∙ (drop-drop (d + length xs) (c - (d + length xs)) l
                    ∙ ap (λ (i : ℕ). drop i l) f))))
