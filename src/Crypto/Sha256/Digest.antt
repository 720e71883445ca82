-- ===== src/Crypto/Sha256/Digest.antt =====
-- src/crypto/sha256.cpp: the size of the padded message, and the form of a digest.
use rex_coin.Base.{
  ℕ, zero, suc, ◌+◌, ◌-◌, ◌*◌, ◌/◌, ◌%◌, ◌^◌, ◌≤◌, ◌<◌, ◌≡◌, refl, ap, ◌∷◌, ◌++◌, inl, inr, arith,
  All, All-append, length, length-append, ◌==◌, Bytes, u64, take, take-append, Bool-cases,
}
use rex_coin.Hasher.{Hasher, IsHexDigit}
use rex_coin.Crypto.Hex.RoundTrip.{hex_digit-IsHexDigit}
use rex_coin.Crypto.Sha256.{Words, zero_padding, big_endian, pad, word_hex, to_hex, hash}

-- The zeros that bring a size to 56 modulo 64.
abbrev needed : ℕ → ℕ
needed size = (120 - size % 64) % 64

length-zero_padding :
    (fuel size : ℕ) → needed size ≤ fuel → length (zero_padding fuel size) ≡ needed size
unfolding zero_padding
length-zero_padding zero size h = omega arith
length-zero_padding (suc fuel) size h = elim (Bool-cases (size % 64 == 56)) [
  | inl done ↦ rw done (ground arith)
  | inr more ↦ rw more (ground (arith, length-zero_padding fuel (size + 1)))
]

length-big_endian : (i n : ℕ) → length (big_endian i n) ≡ i
unfolding big_endian
length-big_endian zero n = refl
length-big_endian (suc i) n = ap suc (length-big_endian i n)

length-pad : (s : Bytes) → length (pad s) ≡ length s + 9 + needed (length s + 1)
unfolding pad
length-pad s =
    let zeros = zero_padding 64 (length s + 1) in
    let size = big_endian 8 (u64 (length s * 8)) in
    omega (
      arith,
      length-append s (0x80 ∷ (zeros ++ size)),
      length-append zeros size,
      length-zero_padding 64 (length s + 1) (omega arith),
      length-big_endian 8 (u64 (length s * 8)),
    )

-- `pad` keeps the message at the front, adds at least nine bytes and fewer than 73, and makes the
-- size a multiple of the block.
pad_lem :
    (s : Bytes)
    → (length (pad s) % 64 ≡ 0)
      × (length s + 9 ≤ length (pad s))
      × (length (pad s) < length s + 73)
      × (take (length s) (pad s) ≡ s)
pad_lem s = (
  omega (arith, length-pad s),
  omega (arith, length-pad s),
  omega (arith, length-pad s),
  unfold pad in
      take-append s (0x80 ∷ (zero_padding 64 (length s + 1) ++ big_endian 8 (u64 (length s * 8)))),
)

word_hex-IsHexDigit : (w : ℕ) → All IsHexDigit (word_hex w)
unfolding word_hex
word_hex-IsHexDigit w =
    let digit = λ (n : ℕ). hex_digit-IsHexDigit (n % 16) (omega arith) in
    (
      digit (w / 16 ^ 7),
      (
        digit (w / 16 ^ 6),
        (
          digit (w / 16 ^ 5),
          (
            digit (w / 16 ^ 4),
            (digit (w / 16 ^ 3), (digit (w / 16 ^ 2), (digit (w / 16), (digit w, tt)))),
          ),
        ),
      ),
    )

to_hex-IsHexDigit : (w : Words) → All IsHexDigit (to_hex w)
unfolding to_hex
to_hex-IsHexDigit w =
    let join = All-append IsHexDigit in
    join _ _
      (join _ _
        (join _ _
          (join _ _
            (join _ _
              (join _ _ (join _ _ (word_hex-IsHexDigit w.a) (word_hex-IsHexDigit w.b))
                (word_hex-IsHexDigit w.c))
              (word_hex-IsHexDigit w.d))
            (word_hex-IsHexDigit w.e))
          (word_hex-IsHexDigit w.f))
        (word_hex-IsHexDigit w.g))
      (word_hex-IsHexDigit w.hh)

-- A digest has 64 characters, whatever the message.
pub length-hash : (s : Bytes) → length (hash s) ≡ 64
unfolding hash to_hex word_hex
length-hash s = refl

-- Every character of a digest is a lower-case hex digit.
pub hash-IsHexDigit : (s : Bytes) → All IsHexDigit (hash s)
unfolding hash
hash-IsHexDigit s = to_hex-IsHexDigit _

-- The hash of the program as the components use it.
instance pub sha256_hasher : Hasher
sha256_hasher = record { hash = hash; length-hash = length-hash; hash-IsHexDigit = hash-IsHexDigit }
