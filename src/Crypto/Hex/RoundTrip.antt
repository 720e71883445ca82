-- ===== src/Crypto/Hex/RoundTrip.antt =====
-- src/crypto/ecdsa.cpp: `hexToBytes` after `bytesToHex`.
use rex_coin.Base.{
  ℕ, zero, suc, ◌+◌, ◌-◌, ◌*◌, ◌/◌, ◌%◌, ◌<◌, ◌≡◌, refl, inl, inr, some, [], ◌∷◌, ◌++◌, arith, All,
  Bytes, IsByte, length, ◌∙◌, ap,
}
use rex_coin.Hasher.{IsHexDigit}
use rex_coin.Crypto.Hex.{
  hex_digit, byte_hex, bytes_to_hex, digit_value, digits_from, unsigned_hex, stoi_byte,
  hex_to_bytes,
}

pub hex_digit-IsHexDigit : (d : ℕ) → d < 16 → IsHexDigit (hex_digit d)
unfolding hex_digit
hex_digit-IsHexDigit d h = ground arith

digit_value-hex_digit : (d : ℕ) → d < 16 → digit_value (hex_digit d) ≡ some d
unfolding digit_value hex_digit
digit_value-hex_digit d h = ground arith

pub stoi_byte-byte_hex : (b : ℕ) → b < 256 → stoi_byte (byte_hex b) ≡ some b
unfolding stoi_byte byte_hex
stoi_byte-byte_hex b h = ground (
  arith,
  digit_value-hex_digit (b / 16 % 16) (omega arith),
  digit_value-hex_digit (b % 16) (omega arith),
  hex_digit-IsHexDigit (b / 16 % 16) (omega arith),
)

hex_to_bytes_cons :
    (b : ℕ) (bs : Bytes)
    → b < 256
    → hex_to_bytes (bytes_to_hex bs) ≡ some bs
    → hex_to_bytes (byte_hex b ++ bytes_to_hex bs) ≡ some (b ∷ bs)
unfolding hex_to_bytes byte_hex
hex_to_bytes_cons b bs h ih = rw (stoi_byte-byte_hex b h, ih)

-- Every sequence of bytes comes back from its hex text.
pub hex_to_bytes-bytes_to_hex :
    (bs : Bytes) → All IsByte bs → hex_to_bytes (bytes_to_hex bs) ≡ some bs
unfolding hex_to_bytes bytes_to_hex
hex_to_bytes-bytes_to_hex [] h = refl
hex_to_bytes-bytes_to_hex (b ∷ bs) h = hex_to_bytes_cons b bs h.0 (hex_to_bytes-bytes_to_hex bs h.1)

digit_value-IsHexDigit : (c : ℕ) → IsHexDigit c → (d : ℕ) × (digit_value c ≡ some d) × (d < 16)
unfolding digit_value
digit_value-IsHexDigit c h = elim h [
  | inl digit ↦ (c - 48, ground arith, omega arith)
  | inr letter ↦ (c - 87, ground arith, omega arith)
]

unsigned_hex_two :
    (c c' d d' : ℕ)
    → digit_value c ≡ some d
    → digit_value c' ≡ some d'
    → unsigned_hex (c ∷ c' ∷ []) ≡ some (d * 16 + d')
unfolding unsigned_hex digits_from
unsigned_hex_two c c' d d' e e' = rw (unsigned_hex, e, digits_from, e', digits_from)

-- A lower-case hex digit begins neither a sign nor a space.
stoi_byte-unsigned_hex :
    (c : ℕ) (s : Bytes) → IsHexDigit c → stoi_byte (c ∷ s) ≡ unsigned_hex (c ∷ s)
unfolding stoi_byte
stoi_byte-unsigned_hex c s h = ground arith

-- Two hex digits are a byte.
pub stoi_byte-IsHexDigit :
    (c c' : ℕ)
    → IsHexDigit c
    → IsHexDigit c'
    → (b : ℕ) × (stoi_byte (c ∷ c' ∷ []) ≡ some b) × (b < 256)
stoi_byte-IsHexDigit c c' h h' =
    let (d, e, lt) = digit_value-IsHexDigit c h in
    let (d', e', lt') = digit_value-IsHexDigit c' h' in
    (
      d * 16 + d',
      stoi_byte-unsigned_hex c (c' ∷ []) h ∙ unsigned_hex_two c c' d d' e e',
      omega arith,
    )

-- A text of `2 * n` hex digits is one of `n` bytes.
pub hex_to_bytes-IsHexDigit :
    (n : ℕ) (s : Bytes)
    → length s ≡ 2 * n
    → All IsHexDigit s
    → (bs : Bytes) × (hex_to_bytes s ≡ some bs) × (length bs ≡ n) × All IsByte bs
unfolding hex_to_bytes
hex_to_bytes-IsHexDigit zero [] e h = ([], refl, refl, tt)
hex_to_bytes-IsHexDigit zero (c ∷ s) e h = absurd (omega arith)
hex_to_bytes-IsHexDigit (suc n) [] e h = absurd (omega arith)
hex_to_bytes-IsHexDigit (suc n) (c ∷ []) e h = absurd (omega arith)
hex_to_bytes-IsHexDigit (suc n) (c ∷ c' ∷ s) e h =
    let (b, eb, lt) = stoi_byte-IsHexDigit c c' h.0 h.1.0 in
    let (bs, ebs, len, all) = hex_to_bytes-IsHexDigit n s (omega arith) h.1.1 in
    (b ∷ bs, rw eb (rw ebs refl), ap suc len, (lt, all))

-- A sequence of `n` bytes is a text of `2 * n` hex digits.
pub bytes_to_hex-IsHexDigit :
    (bs : Bytes) → (length (bytes_to_hex bs) ≡ 2 * length bs) × All IsHexDigit (bytes_to_hex bs)
unfolding bytes_to_hex byte_hex
bytes_to_hex-IsHexDigit [] = (omega arith, tt)
bytes_to_hex-IsHexDigit (b ∷ bs) =
    let (len, all) = bytes_to_hex-IsHexDigit bs in
    (
      omega arith,
      (
        hex_digit-IsHexDigit (b / 16 % 16) (omega arith),
        (hex_digit-IsHexDigit (b % 16) (omega arith), all),
      ),
    )
