-- ===== src/Crypto/Base58/MulAdd.antt =====
-- src/crypto/base58.cpp: the loops of `decode` over the bytes of its number.
use rex_coin.Base.{
  ℕ, ◌+◌, ◌*◌, ◌/◌, ◌%◌, ◌<◌, ◌≡◌, refl, ap, ◌∙◌, inl, inr, [], ◌∷◌, arith, All, ◌==◌,
  if◌then◌else◌, Bytes, IsByte, Bool-cases,
}
use rex_coin.Crypto.Base58.{mul_add, push_carry, add_digit}
use rex_coin.Crypto.Base58.Positional.{horner_256, IsLean}

-- Multiplying by 58 and adding, with the carry that is left: `x` stands for bytes in front.
mul_add_lem :
    (x carry : ℕ) (bs : Bytes)
    → let r = mul_add bs carry in horner_256 (58 * x + r.1) r.0 ≡ 58 * horner_256 x bs + carry
unfolding mul_add horner_256
mul_add_lem x carry [] = refl
mul_add_lem x carry (b ∷ bs) =
    let c = (mul_add bs carry).1 in
    let e : (58 * x + (c + 58 * b) / 256) * 256 + (c + 58 * b) % 256 ≡ 58 * (x * 256 + b) + c =
      omega arith in
    ap (λ (n : ℕ). horner_256 n (mul_add bs carry).0) e ∙ mul_add_lem (x * 256 + b) carry bs

-- What is left is less than 58, and the bytes are bytes.
mul_add_bounds :
    (carry : ℕ) (bs : Bytes)
    → carry < 58
    → All IsByte bs
    → ((mul_add bs carry).1 < 58) × All IsByte (mul_add bs carry).0
unfolding mul_add
mul_add_bounds carry [] h all = (h, tt)
mul_add_bounds carry (b ∷ bs) h all =
    let rest = mul_add_bounds carry bs h all.1 in
    (omega (arith, all.0, rest.0), (omega arith, rest.1))

push_carry_small :
    (carry : ℕ) (bs : Bytes)
    → carry < 58
    → push_carry 4 carry bs ≡ (if carry == 0 then bs else carry ∷ bs)
unfolding push_carry
push_carry_small carry bs h = elim (Bool-cases (carry == 0)) [
  | inl done ↦ rw (done, push_carry)
  | inr more ↦
      let e : carry / 256 ≡ 0 = omega arith in
      let e' : carry % 256 ≡ carry = omega arith in rw (more, push_carry, e, e')
]

-- Bytes with no zero in front, that make this number.
pub record IsBytes (n : ℕ) (bs : Bytes) : Type 0 where
  pub bytes : All IsByte bs
  pub lean : IsLean bs
  pub value : horner_256 0 bs ≡ n

pub add_digit_empty : (d : ℕ) → d < 58 → add_digit [] d ≡ (if d == 0 then [] else d ∷ [])
unfolding add_digit mul_add
add_digit_empty d h = push_carry_small d [] h

add_digit_cons :
    (b : ℕ) (bs : Bytes) (d : ℕ)
    → d < 58
    → IsByte b
    → All IsByte bs
    → let c = (mul_add bs d).1 in
      let low = (mul_add bs d).0 in
      add_digit (b ∷ bs) d ≡ (
        if (c + 58 * b) / 256 == 0
        then (c + 58 * b) % 256 ∷ low
        else (c + 58 * b) / 256 ∷ (c + 58 * b) % 256 ∷ low)
unfolding add_digit mul_add
add_digit_cons b bs d h byte all =
    let bounds = mul_add_bounds d bs h all in push_carry_small _ _ (omega (arith, bounds.0))

-- The body of the loop multiplies the number by 58 and adds the digit.
pub add_digit-IsBytes :
    (n : ℕ) (bs : Bytes) (d : ℕ) → d < 58 → IsBytes n bs → IsBytes (n * 58 + d) (add_digit bs d)
unfolding horner_256
add_digit-IsBytes n [] d h i =
    let v = i.value in
    elim (Bool-cases (d == 0)) [
      | inl nothing ↦
          rw (add_digit_empty d h, nothing) (record { bytes = tt; lean = tt; value = ground arith })
      | inr digit ↦
          rw (add_digit_empty d h, digit)
            (record { bytes = (ground arith, tt); lean = ground arith; value = ground arith })
    ]
add_digit-IsBytes n (b ∷ bs) d h i =
    let c = (mul_add bs d).1 in
    let low = (mul_add bs d).0 in
    let bounds = mul_add_bounds d bs h i.bytes.1 in
    let times = mul_add_lem (0 * 256 + b) d bs in
    let v = i.value in
    let e = add_digit_cons b bs d h i.bytes.0 i.bytes.1 in
    let lead = i.lean in
    elim (Bool-cases ((c + 58 * b) / 256 == 0)) [
      | inl short ↦
          let n0 : 0 * 256 + (c + 58 * b) % 256 ≡ 58 * (0 * 256 + b) + c = ground arith in
          rw (e, short)
            (record {
              bytes = (omega arith, bounds.1);
              lean = ground arith;
              value = ap (λ (m : ℕ). horner_256 m low) n0 ∙ times ∙ omega arith;
            })
      | inr long ↦
          let n1 : (0 * 256 + (c + 58 * b) / 256) * 256 + (c + 58 * b) % 256
              ≡ 58 * (0 * 256 + b) + c =
            omega arith in
          rw (e, long)
            (record {
              bytes = (omega (arith, bounds.0, i.bytes.0), (omega arith, bounds.1));
              lean = ground arith;
              value = ap (λ (m : ℕ). horner_256 m low) n1 ∙ times ∙ omega arith;
            })
    ]
