-- ===== src/Crypto/Base58.antt =====
-- src/crypto/base58.h and src/crypto/base58.cpp. The exceptions of `decode` and of `std::stoi` are
-- `none`. The loop of `encode` takes one unit of fuel for each digit, and two for each byte are
-- enough (Crypto.Base58.Digits); a carry is an `int`, which four bytes hold.
pub mod Positional
pub mod Digits
pub mod Letters
pub mod MulAdd
pub mod RoundTrip
pub mod Check
use rex_coin.Base.{
  ℕ, zero, suc, ◌+◌, ◌-◌, ◌*◌, ◌/◌, ◌%◌, Bool, true, false, ◌&&◌, ◌||◌, Option, none, some, List,
  [], ◌∷◌, ◌++◌, ltb, ◌==◌, length, take, drop, get_or, replicate, if◌then◌else◌, Bytes, codes, eqb,
  u8, ◌>>=◌,
}
use rex_coin.Hasher.{Hasher, sha256}
use rex_coin.Crypto.Hex.{hex_to_bytes}

-- `Base58::ALPHABET`
abbrev pub alphabet : Bytes
alphabet = codes "123456789ABCDEFGHJKLMNPQRSTUVWXYZabcdefghijkmnopqrstuvwxyz"

-- `for (c : s) { if (c == x) count++; else break; }`
unfoldable pub count_leading : ℕ → Bytes → ℕ
count_leading x [] = 0
count_leading x (c ∷ s) = let rest = count_leading x s in if c == x then suc rest else 0

-- `if (!next.empty() || cur/58 > 0) next.push_back((uint8_t)(cur/58));`
pub push_quotient : Bytes → ℕ → Bytes
push_quotient [] q = if ltb 0 q then u8 q ∷ [] else []
push_quotient (b ∷ next) q = (b ∷ next) ++ u8 q ∷ []

-- One pass of `encode` over the number: the quotient by 58 and the remainder.
pub divide : ℕ → Bytes → Bytes → Bytes × ℕ
divide rem next [] = (next, rem)
divide rem next (b ∷ tmp) =
    divide ((rem * 256 + b) % 58) (push_quotient next ((rem * 256 + b) / 58)) tmp

-- `while (!tmp.empty())`: the remainders, in their order.
pub digits_loop : ℕ → Bytes → List ℕ
digits_loop fuel [] = []
digits_loop zero (b ∷ tmp) = []
digits_loop (suc fuel) (b ∷ tmp) =
    let (next, rem) = divide 0 [] (b ∷ tmp) in rem ∷ digits_loop fuel next

-- `ALPHABET[rem]` for each remainder
pub letters : List ℕ → Bytes
letters [] = []
letters (d ∷ ds) = get_or alphabet d 0 ∷ letters ds

-- `std::reverse`, onto what has been turned round
pub reverse_onto : Bytes → Bytes → Bytes
reverse_onto acc [] = acc
reverse_onto acc (c ∷ s) = reverse_onto (c ∷ acc) s

-- `Base58::encode`
pub encode : Bytes → Bytes
encode data' =
    reverse_onto []
      (letters (digits_loop (2 * length data') data') ++ replicate (count_leading 0 data') b'1')

-- `ALPHABET.find(c)`
pub find_letter : ℕ → Bytes → Option ℕ
find_letter c [] = none
find_letter c (x ∷ xs) =
    if x == c then some 0 else elim (find_letter c xs) [ none ↦ none | some i ↦ some (suc i) ]

-- `for (it = result.rbegin(); …) { carry += 58 * *it; *it = carry & 0xFF; carry >>= 8; }`
pub mul_add : Bytes → ℕ → Bytes × ℕ
mul_add [] carry = ([], carry)
mul_add (b ∷ result) carry =
    let (low, c) = mul_add result carry in ((c + 58 * b) % 256 ∷ low, (c + 58 * b) / 256)

-- `while (carry) { result.insert(result.begin(), carry & 0xFF); carry >>= 8; }`
pub push_carry : ℕ → ℕ → Bytes → Bytes
push_carry zero carry result = result
push_carry (suc fuel) carry result = elim (carry == 0) [
  | true ↦ result
  | false ↦ push_carry fuel (carry / 256) (carry % 256 ∷ result)
]

-- The body of the loop of `decode` for a digit.
pub add_digit : Bytes → ℕ → Bytes
add_digit result pos = let (low, carry) = mul_add result pos in push_carry 4 carry low

-- The loop of `decode` over the characters.
pub decode_loop : Bytes → Bytes → Option Bytes
decode_loop result [] = some result
decode_loop result (c ∷ encoded) = elim (find_letter c alphabet) [
  | none ↦ none
  | some pos ↦ decode_loop (add_digit result pos) encoded
]

-- `Base58::decode`
pub decode : Bytes → Option Bytes
decode encoded = do
  result ← decode_loop [] encoded
  some (replicate (count_leading b'1' encoded) 0 ++ result)

-- The hash of the bytes of the hash, as a hex text.
pub check_hash : ⦃h : Hasher⦄ → Bytes → Option Bytes
check_hash data' = do h1bytes ← hex_to_bytes (sha256 data'); some (sha256 h1bytes)

-- The four bytes of the checksum of some bytes.
pub checksum : ⦃h : Hasher⦄ → Bytes → Option Bytes
checksum data' = do h2 ← check_hash data'; hex_to_bytes (take 8 h2)

-- `Base58::encodeCheck`
pub encode_check : ⦃h : Hasher⦄ → ℕ → Bytes → Option Bytes
encode_check version payload = do
  sum ← checksum (version ∷ payload)
  some (encode ((version ∷ payload) ++ sum))

-- `Base58::decodeCheck` once the bytes are there: the result, and what it leaves in `version` and
-- `payload`.
pub check_bytes : ⦃h : Hasher⦄ → Bytes → ℕ × Bytes → Bool × (ℕ × Bytes)
check_bytes data' before =
    if ltb (length data') 5
    then (false, before)
    else let body = take (length data' - 4) data' in
      let after : ℕ × Bytes = (get_or data' 0 0, drop 1 body) in
      elim (checksum body) [
        | none ↦ (false, after)
        | some sum ↦ (eqb (drop (length data' - 4) data') sum, after)
      ]

-- `Base58::decodeCheck`, with what its arguments hold before.
pub decode_check : ⦃h : Hasher⦄ → Bytes → ℕ × Bytes → Bool × (ℕ × Bytes)
decode_check encoded before = elim (decode encoded) [
  | none ↦ (false, before)
  | some data' ↦ check_bytes data' before
]

-- `Base58::isValid`
pub is_valid : ⦃h : Hasher⦄ → Bytes → Bool
is_valid address = (decode_check address (0, [])).0
