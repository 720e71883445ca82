-- ===== src/Crypto/Base58/Digits.antt =====
-- src/crypto/base58.cpp, the loop of `encode`: the digits that it writes.
use native.Mathlib.Nat.{pow-suc}
use rex_coin.Base.{
  ℕ, zero, suc, ◌+◌, ◌*◌, ◌/◌, ◌%◌, ◌^◌, ◌<◌, ◌≡◌, refl, ap, ◌∙◌, ◌⊎◌, inl, inr, List, [], ◌∷◌,
  ◌++◌, arith, All, All-append, length, ltb, Bytes, IsByte, u8, Bool-cases,
}
use rex_coin.Crypto.Base58.{push_quotient, divide, digits_loop}
use rex_coin.Crypto.Base58.Positional.{horner_256, little_58, IsLean, IsTopped, horner_256-le}

horner_256-snoc :
    (acc : ℕ) (xs : Bytes) (y : ℕ) → horner_256 acc (xs ++ y ∷ []) ≡ horner_256 acc xs * 256 + y
unfolding horner_256
horner_256-snoc acc [] y = refl
horner_256-snoc acc (x ∷ xs) y = horner_256-snoc (acc * 256 + x) xs y

-- A pushed quotient is the next byte of the number, and no zero comes first.
push_quotient_lem :
    (next : Bytes) (q : ℕ)
    → q < 256
    → All IsByte next
    → IsLean next
    → (horner_256 0 (push_quotient next q) ≡ horner_256 0 next * 256 + q)
      × All IsByte (push_quotient next q)
      × IsLean (push_quotient next q)
unfolding push_quotient horner_256
push_quotient_lem [] q h bytes lean = elim (Bool-cases (ltb 0 q)) [
  | inl some_digit ↦ rw some_digit (ground arith, (ground arith, tt), ground arith)
  | inr zero_digit ↦ rw zero_digit (ground arith, tt, tt)
]
push_quotient_lem (b ∷ next) q h bytes lean =
    let same : u8 q ≡ q = omega arith in
    (
      rw (same, horner_256-snoc 0 (b ∷ next) q) refl,
      All-append IsByte (b ∷ next) (u8 q ∷ []) bytes (omega arith, tt),
      lean,
    )

-- One pass divides the number by 58.
divide_lem :
    (rem : ℕ) (next tmp : Bytes)
    → rem < 58
    → All IsByte next
    → IsLean next
    → All IsByte tmp
    → let r = divide rem next tmp in
      (horner_256 0 r.0 * 58 + r.1 ≡ horner_256 (horner_256 0 next * 58 + rem) tmp)
      × (r.1 < 58)
      × All IsByte r.0
      × IsLean r.0
unfolding divide
divide_lem rem next [] h bytes lean all = (unfold horner_256 in refl, h, bytes, lean)
divide_lem rem next (b ∷ tmp) h bytes lean all =
    let q = (rem * 256 + b) / 58 in
    let pushed = push_quotient_lem next q (omega (arith, all.0)) bytes lean in
    let rest =
      divide_lem ((rem * 256 + b) % 58) (push_quotient next q) tmp (omega arith) pushed.1 pushed.2
        all.1 in
    let joined : horner_256 0 (push_quotient next q) * 58 + (rem * 256 + b) % 58
        ≡ (horner_256 0 next * 58 + rem) * 256 + b =
      omega (arith, pushed.0) in
    (
      rest.0 ∙ ap (λ (n : ℕ). horner_256 n tmp) joined ∙ (unfold horner_256 in refl),
      rest.1,
      rest.2,
      rest.3,
    )

-- Bytes that make a number other than 0, or none at all.
abbrev pub IsNumber : Bytes → Type 0
IsNumber tmp = (tmp ≡ []) ⊎ (0 < horner_256 0 tmp)

lean-IsNumber : (tmp : Bytes) → IsLean tmp → IsNumber tmp
unfolding horner_256
lean-IsNumber [] lean = inl refl
lean-IsNumber (b ∷ tmp) lean = inr (omega (arith, horner_256-le (0 * 256 + b) tmp))

-- What the loop gives: digits below 58 with a non-zero last one, that make the number.
pub record IsDigits (n : ℕ) (ds : List ℕ) : Type 0 where
  pub below : All (λ d. d < 58) ds
  pub topped : IsTopped ds
  pub value : little_58 ds ≡ n

-- A digit in front of the digits of a quotient.
IsDigits-cons :
    (n m d : ℕ) (ds : List ℕ)
    → IsDigits m ds
    → d < 58
    → m * 58 + d ≡ n
    → 0 < n
    → IsDigits n (d ∷ ds)
unfolding little_58
IsDigits-cons n m d [] i h e positive =
    let v = i.value in record { below = (h, tt); topped = omega arith; value = omega arith }
IsDigits-cons n m d (d' ∷ ds) i h e positive =
    let v = i.value in record { below = (h, i.below); topped = i.topped; value = omega arith }

pub digits_loop-IsDigits :
    (fuel : ℕ) (tmp : Bytes)
    → All IsByte tmp
    → IsNumber tmp
    → horner_256 0 tmp < 58 ^ fuel
    → IsDigits (horner_256 0 tmp) (digits_loop fuel tmp)
unfolding digits_loop
digits_loop-IsDigits fuel [] all number enough = record {
  below = tt;
  topped = tt;
  value = unfold little_58 horner_256 in refl;
}
digits_loop-IsDigits zero (b ∷ tmp) all number enough = elim number [
  | inl none_left ↦ cc
  | inr positive ↦ absurd (omega arith)
]
digits_loop-IsDigits (suc fuel) (b ∷ tmp) all number enough =
    let pass = divide_lem 0 [] (b ∷ tmp) (omega arith) tt tt all in
    let next = (divide 0 [] (b ∷ tmp)).0 in
    let rem = (divide 0 [] (b ∷ tmp)).1 in
    let start : horner_256 (horner_256 0 [] * 58 + 0) (b ∷ tmp) ≡ horner_256 0 (b ∷ tmp) =
      unfold horner_256 in refl in
    let ih =
      digits_loop-IsDigits fuel next pass.2 (lean-IsNumber next pass.3)
        (omega (arith, pass.0, start, pow-suc 58 fuel)) in
    let positive : 0 < horner_256 0 (b ∷ tmp) = elim number [ inl none_left ↦ cc | inr p ↦ p ] in
    IsDigits-cons (horner_256 0 (b ∷ tmp)) (horner_256 0 next) rem (digits_loop fuel next) ih pass.1
      (pass.0 ∙ start) positive

-- Two digits for each byte are enough.
pub horner_256-lt :
    (acc k : ℕ) (bs : Bytes)
    → acc < 58 ^ k
    → All IsByte bs
    → horner_256 acc bs < 58 ^ (k + 2 * length bs)
unfolding horner_256
horner_256-lt acc k [] h all = let e : k + 2 * 0 ≡ k = omega arith in rw e h
horner_256-lt acc k (b ∷ bs) h all =
    let e : k + 2 * suc (length bs) ≡ suc (suc k) + 2 * length bs = omega arith in
    rw e (
      horner_256-lt (acc * 256 + b) (suc (suc k)) bs
        (omega (arith, pow-suc 58 k, pow-suc 58 (suc k), all.0)) all.1)
