-- ===== src/Crypto/Hex.antt =====
-- Hex texts: `bytesToHex` and `hexToBytes` of src/crypto/ecdsa.cpp, which Hash160 and Base58 repeat
-- in line, and the standard library's `std::stoi(s, nullptr, 16)` on the two characters of a byte.
pub mod RoundTrip
use rex_coin.Base.{
  ℕ, zero, suc, ◌+◌, ◌-◌, ◌*◌, ◌/◌, ◌%◌, ◌^◌, Bool, true, false, ◌&&◌, ◌||◌, Option, none, some,
  List, [], ◌∷◌, ◌++◌, ltb, leb, ◌==◌, if◌then◌else◌, Bytes, u8, ◌>>=◌,
}

-- The character of a hex digit.
unfoldable pub hex_digit : ℕ → ℕ
hex_digit d = if ltb d 10 then 48 + d else 87 + d

-- `std::hex << std::setw(2) << std::setfill('0')` on a byte
unfoldable pub byte_hex : ℕ → Bytes
byte_hex b = hex_digit (b / 16 % 16) ∷ hex_digit (b % 16) ∷ []

-- `ECDSA::bytesToHex`
unfoldable pub bytes_to_hex : Bytes → Bytes
bytes_to_hex [] = []
bytes_to_hex (b ∷ bs) = byte_hex b ++ bytes_to_hex bs

-- The value of a hex digit of either case.
pub digit_value : ℕ → Option ℕ
digit_value c =
    if leb 48 c && leb c 57
    then some (c - 48)
    else if leb 97 c && leb c 102
    then some (c - 87)
    else if leb 65 c && leb c 70
    then some (c - 55)
    else none

-- The hex digits at the head of a text, after `acc`.
digits_from : ℕ → Bytes → ℕ
digits_from acc [] = acc
digits_from acc (c ∷ s) = elim (digit_value c) [
  | none ↦ acc
  | some d ↦ digits_from (acc * 16 + d) s
]

-- A text that begins with a digit; `std::stoi` throws on any other.
unsigned_hex : Bytes → Option ℕ
unfolding digits_from
unsigned_hex [] = none
unsigned_hex (c ∷ s) = elim (digit_value c) [ none ↦ none | some d ↦ some (digits_from d s) ]

negate_u8 : Option ℕ → Option ℕ
negate_u8 none = none
negate_u8 (some n) = some (u8 (256 - u8 n))

-- `(uint8_t) std::stoi(s, nullptr, 16)` on a text of at most two characters, where a prefix `0x`
-- reads as its zero; `none` for the exception.
pub stoi_byte : Bytes → Option ℕ
unfolding unsigned_hex negate_u8
stoi_byte [] = none
stoi_byte (c ∷ s) =
    if c == 32 || (leb 9 c && leb c 13)
    then stoi_byte s
    else if c == 43
    then unsigned_hex s
    else if c == 45
    then negate_u8 (unsigned_hex s)
    else unsigned_hex (c ∷ s)

-- `ECDSA::hexToBytes`: an odd last character is left out.
pub hex_to_bytes : Bytes → Option Bytes
hex_to_bytes [] = some []
hex_to_bytes (c ∷ []) = some []
hex_to_bytes (c ∷ c' ∷ s) = do b ← stoi_byte (c ∷ c' ∷ []); bs ← hex_to_bytes s; some (b ∷ bs)
