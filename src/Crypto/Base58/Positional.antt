-- ===== src/Crypto/Base58/Positional.antt =====
-- Numbers by their digits in a base, from the most and from the least significant digit.
use rex_coin.Base.{
  ℕ, ◌+◌, ◌*◌, ◌≤◌, ◌<◌, ◌≡◌, ◌≢◌, ◌⊎◌, inl, inr, refl, ap, sym, ◌∙◌, List, [], ◌∷◌, ◌++◌, arith,
  All, Bytes, IsByte,
}
use rex_coin.Crypto.Base58.{reverse_onto}
use mathlib.Core.List.{append-nil}

-- The number that bytes stand for, the most significant first, after `acc`.
unfoldable pub horner_256 : ℕ → Bytes → ℕ
horner_256 acc [] = acc
horner_256 acc (b ∷ bs) = horner_256 (acc * 256 + b) bs

unfoldable pub horner_58 : ℕ → List ℕ → ℕ
horner_58 acc [] = acc
horner_58 acc (d ∷ ds) = horner_58 (acc * 58 + d) ds

-- The least significant first.
unfoldable pub little_256 : Bytes → ℕ
little_256 [] = 0
little_256 (b ∷ bs) = little_256 bs * 256 + b

unfoldable pub little_58 : List ℕ → ℕ
little_58 [] = 0
little_58 (d ∷ ds) = little_58 ds * 58 + d

-- The first digit, if there is one, is not 0.
abbrev pub IsLean : List ℕ → Type 0
IsLean [] = Unit {0}
IsLean (b ∷ bs) = 0 < b

-- The last digit, if there is one, is not 0.
abbrev pub IsTopped : List ℕ → Type 0
IsTopped [] = Unit {0}
IsTopped (b ∷ []) = 0 < b
IsTopped (b ∷ c ∷ bs) = IsTopped (c ∷ bs)

pub horner_256-reverse_onto :
    (zs xs : Bytes) → horner_256 (little_256 zs) xs ≡ little_256 (reverse_onto zs xs)
unfolding horner_256 little_256 reverse_onto
horner_256-reverse_onto zs [] = refl
horner_256-reverse_onto zs (x ∷ xs) = horner_256-reverse_onto (x ∷ zs) xs

pub horner_58-reverse_onto :
    (zs xs : List ℕ) → little_58 (reverse_onto zs xs) ≡ horner_58 (little_58 zs) xs
unfolding horner_58 little_58 reverse_onto
horner_58-reverse_onto zs [] = refl
horner_58-reverse_onto zs (x ∷ xs) = horner_58-reverse_onto (x ∷ zs) xs

pub reverse_onto-reverse_onto :
    (ys zs xs : Bytes) → reverse_onto ys (reverse_onto zs xs) ≡ reverse_onto (xs ++ ys) zs
unfolding reverse_onto
reverse_onto-reverse_onto ys zs [] = refl
reverse_onto-reverse_onto ys zs (x ∷ xs) = reverse_onto-reverse_onto ys (x ∷ zs) xs

pub reverse_onto-append :
    (acc xs ys : Bytes) → reverse_onto acc (xs ++ ys) ≡ reverse_onto (reverse_onto acc xs) ys
unfolding reverse_onto
reverse_onto-append acc [] ys = refl
reverse_onto-append acc (x ∷ xs) ys = reverse_onto-append (x ∷ acc) xs ys

pub horner_256-le : (acc : ℕ) (bs : Bytes) → acc ≤ horner_256 acc bs
unfolding horner_256
horner_256-le acc [] = omega arith
horner_256-le acc (b ∷ bs) = omega (arith, horner_256-le (acc * 256 + b) bs)

pub IsTopped-positive : (b : ℕ) (bs : Bytes) → IsTopped (b ∷ bs) → 0 < little_256 (b ∷ bs)
unfolding little_256
IsTopped-positive b [] t = omega arith
IsTopped-positive b (c ∷ bs) t = omega (arith, IsTopped-positive c bs t)

-- Bytes with a non-zero last one are determined by their number.
little_256_injective :
    (xs ys : Bytes)
    → All IsByte xs
    → All IsByte ys
    → IsTopped xs
    → IsTopped ys
    → little_256 xs ≡ little_256 ys
    → xs ≡ ys
unfolding little_256
little_256_injective [] [] hx hy tx ty e = refl
little_256_injective [] (y ∷ ys) hx hy tx ty e = absurd (omega (arith, IsTopped-positive y ys ty))
little_256_injective (x ∷ xs) [] hx hy tx ty e = absurd (omega (arith, IsTopped-positive x xs tx))
little_256_injective (x ∷ xs) (y ∷ ys) hx hy tx ty e =
    let head : x ≡ y = omega arith in
    let rest : little_256 xs ≡ little_256 ys = omega arith in
    let tail =
      little_256_injective xs ys hx.1 hy.1 (tail_topped x xs tx) (tail_topped y ys ty) rest in
    λ i. head i ∷ tail i
  where
    tail_topped : (z : ℕ) (zs : Bytes) → IsTopped (z ∷ zs) → IsTopped zs
    tail_topped z [] t = tt
    tail_topped z (w ∷ zs) t = t

pub reverse_onto-All :
    (P : ℕ → Type 0) (zs xs : List ℕ) → All P zs → All P xs → All P (reverse_onto zs xs)
unfolding reverse_onto
reverse_onto-All P zs [] hz hx = hz
reverse_onto-All P zs (x ∷ xs) hz hx = reverse_onto-All P (x ∷ zs) xs (hx.0, hz) hx.1

-- The last digit comes first when a list is turned round.
pub reverse-IsLean :
    (zs xs : List ℕ) → IsTopped xs → (xs ≢ [] ⊎ IsLean zs) → IsLean (reverse_onto zs xs)
unfolding reverse_onto
reverse-IsLean zs [] t (inl some_digit) = absurd (some_digit refl)
reverse-IsLean zs [] t (inr lean) = lean
reverse-IsLean zs (x ∷ []) t h = t
reverse-IsLean zs (x ∷ y ∷ xs) t h = reverse-IsLean (x ∷ zs) (y ∷ xs) t (inl (λ e. cc))

reverse_onto-IsTopped :
    (z : ℕ) (zs xs : Bytes) → IsTopped (z ∷ zs) → IsTopped (reverse_onto (z ∷ zs) xs)
unfolding reverse_onto
reverse_onto-IsTopped z zs [] t = t
reverse_onto-IsTopped z zs (x ∷ xs) t = reverse_onto-IsTopped x (z ∷ zs) xs t

reverse-IsTopped : (xs : Bytes) → IsLean xs → IsTopped (reverse_onto [] xs)
unfolding reverse_onto
reverse-IsTopped [] h = tt
reverse-IsTopped (x ∷ xs) h = reverse_onto-IsTopped x [] xs h

-- Bytes with a non-zero first one are determined by their number.
pub horner_256_injective :
    (xs ys : Bytes)
    → All IsByte xs
    → All IsByte ys
    → IsLean xs
    → IsLean ys
    → horner_256 0 xs ≡ horner_256 0 ys
    → xs ≡ ys
unfolding little_256 reverse_onto
horner_256_injective xs ys hx hy lx ly e =
    let turned =
      little_256_injective (reverse_onto [] xs) (reverse_onto [] ys)
        (reverse_onto-All IsByte [] xs tt hx) (reverse_onto-All IsByte [] ys tt hy)
        (reverse-IsTopped xs lx) (reverse-IsTopped ys ly)
        (sym (horner_256-reverse_onto [] xs) ∙ e ∙ horner_256-reverse_onto [] ys) in
    let back = λ (s : Bytes). reverse_onto-reverse_onto [] [] s ∙ append-nil s in
    sym (back xs) ∙ ap (reverse_onto []) turned ∙ back ys
