-- ===== src/Crypto/Ripemd160.antt =====
-- src/crypto/ripemd160.cpp. A `uint32_t` is a number below 2^32, and each sum is cut to 32 bits.
pub mod Length
use Prim.Native.Nat.{bit_and, bit_or, bit_xor}
use rex_coin.Base.{
  ℕ, zero, suc, ◌+◌, ◌-◌, ◌*◌, ◌/◌, ◌%◌, ◌^◌, Bool, true, false, List, [], ◌∷◌, ◌++◌, ◌==◌, ltb,
  length, drop, get_or, if◌then◌else◌, Bytes, u32, u64, ◌<<<◌, ◌>>>◌,
}
use rex_coin.Crypto.Hex.{bytes_to_hex}
use rex_coin.Crypto.Sha256.{zero_padding}

-- `RIPEMD160::K1`
abbrev left_constants : List ℕ
left_constants = 0x00000000 ∷ 0x5A827999 ∷ 0x6ED9EBA1 ∷ 0x8F1BBCDC ∷ 0xA953FD4E ∷ []

-- `RIPEMD160::K2`
abbrev right_constants : List ℕ
right_constants = 0x50A28BE6 ∷ 0x5C4DD124 ∷ 0x6D703EF3 ∷ 0x7A6D76E9 ∷ 0x00000000 ∷ []

-- `RIPEMD160::R1`
abbrev left_words : List ℕ
left_words =
    0 ∷ 1 ∷ 2 ∷ 3 ∷ 4 ∷ 5 ∷ 6 ∷ 7 ∷ 8 ∷ 9 ∷ 10 ∷ 11 ∷ 12 ∷ 13 ∷ 14 ∷ 15 ∷ 7 ∷ 4 ∷ 13 ∷ 1 ∷ 10 ∷ 6
    ∷ 15 ∷ 3 ∷ 12 ∷ 0 ∷ 9 ∷ 5 ∷ 2 ∷ 14 ∷ 11 ∷ 8 ∷ 3 ∷ 10 ∷ 14 ∷ 4 ∷ 9 ∷ 15 ∷ 8 ∷ 1 ∷ 2 ∷ 7 ∷ 0 ∷ 6
    ∷ 13 ∷ 11 ∷ 5 ∷ 12 ∷ 1 ∷ 9 ∷ 11 ∷ 10 ∷ 0 ∷ 8 ∷ 12 ∷ 4 ∷ 13 ∷ 3 ∷ 7 ∷ 15 ∷ 14 ∷ 5 ∷ 6 ∷ 2 ∷ 4 ∷ 0
    ∷ 5 ∷ 9 ∷ 7 ∷ 12 ∷ 2 ∷ 10 ∷ 14 ∷ 1 ∷ 3 ∷ 8 ∷ 11 ∷ 6 ∷ 15 ∷ 13 ∷ []

-- `RIPEMD160::R2`
abbrev right_words : List ℕ
right_words =
    5 ∷ 14 ∷ 7 ∷ 0 ∷ 9 ∷ 2 ∷ 11 ∷ 4 ∷ 13 ∷ 6 ∷ 15 ∷ 8 ∷ 1 ∷ 10 ∷ 3 ∷ 12 ∷ 6 ∷ 11 ∷ 3 ∷ 7 ∷ 0 ∷ 13
    ∷ 5 ∷ 10 ∷ 14 ∷ 15 ∷ 8 ∷ 12 ∷ 4 ∷ 9 ∷ 1 ∷ 2 ∷ 15 ∷ 5 ∷ 1 ∷ 3 ∷ 7 ∷ 14 ∷ 6 ∷ 9 ∷ 11 ∷ 8 ∷ 12 ∷ 2
    ∷ 10 ∷ 0 ∷ 4 ∷ 13 ∷ 8 ∷ 6 ∷ 4 ∷ 1 ∷ 3 ∷ 11 ∷ 15 ∷ 0 ∷ 5 ∷ 12 ∷ 2 ∷ 13 ∷ 9 ∷ 7 ∷ 10 ∷ 14 ∷ 12
    ∷ 15 ∷ 10 ∷ 4 ∷ 1 ∷ 5 ∷ 8 ∷ 7 ∷ 6 ∷ 2 ∷ 13 ∷ 14 ∷ 0 ∷ 3 ∷ 9 ∷ 11 ∷ []

-- `RIPEMD160::S1`
abbrev left_shifts : List ℕ
left_shifts =
    11 ∷ 14 ∷ 15 ∷ 12 ∷ 5 ∷ 8 ∷ 7 ∷ 9 ∷ 11 ∷ 13 ∷ 14 ∷ 15 ∷ 6 ∷ 7 ∷ 9 ∷ 8 ∷ 7 ∷ 6 ∷ 8 ∷ 13 ∷ 11 ∷ 9
    ∷ 7 ∷ 15 ∷ 7 ∷ 12 ∷ 15 ∷ 9 ∷ 11 ∷ 7 ∷ 13 ∷ 12 ∷ 11 ∷ 13 ∷ 6 ∷ 7 ∷ 14 ∷ 9 ∷ 13 ∷ 15 ∷ 14 ∷ 8 ∷ 13
    ∷ 6 ∷ 5 ∷ 12 ∷ 7 ∷ 5 ∷ 11 ∷ 12 ∷ 14 ∷ 15 ∷ 14 ∷ 15 ∷ 9 ∷ 8 ∷ 9 ∷ 14 ∷ 5 ∷ 6 ∷ 8 ∷ 6 ∷ 5 ∷ 12 ∷ 9
    ∷ 15 ∷ 5 ∷ 11 ∷ 6 ∷ 8 ∷ 13 ∷ 12 ∷ 5 ∷ 12 ∷ 13 ∷ 14 ∷ 11 ∷ 8 ∷ 5 ∷ 6 ∷ []

-- `RIPEMD160::S2`
abbrev right_shifts : List ℕ
right_shifts =
    8 ∷ 9 ∷ 9 ∷ 11 ∷ 13 ∷ 15 ∷ 15 ∷ 5 ∷ 7 ∷ 7 ∷ 8 ∷ 11 ∷ 14 ∷ 14 ∷ 12 ∷ 6 ∷ 9 ∷ 13 ∷ 15 ∷ 7 ∷ 12 ∷ 8
    ∷ 9 ∷ 11 ∷ 7 ∷ 7 ∷ 12 ∷ 7 ∷ 6 ∷ 15 ∷ 13 ∷ 11 ∷ 9 ∷ 7 ∷ 15 ∷ 11 ∷ 8 ∷ 6 ∷ 6 ∷ 14 ∷ 12 ∷ 13 ∷ 5
    ∷ 14 ∷ 13 ∷ 13 ∷ 7 ∷ 5 ∷ 15 ∷ 5 ∷ 8 ∷ 11 ∷ 14 ∷ 14 ∷ 6 ∷ 14 ∷ 6 ∷ 9 ∷ 12 ∷ 9 ∷ 12 ∷ 5 ∷ 15 ∷ 8
    ∷ 8 ∷ 5 ∷ 12 ∷ 9 ∷ 12 ∷ 5 ∷ 14 ∷ 6 ∷ 8 ∷ 13 ∷ 6 ∷ 5 ∷ 15 ∷ 13 ∷ 11 ∷ 11 ∷ []

-- `RIPEMD160::rol`
rol : ℕ → ℕ → ℕ
rol x n = bit_or (u32 (x <<< n)) (x >>> (32 - n))

-- `~x` on 32 bits
abbrev not32 : ℕ → ℕ
not32 x = 0xffffffff - x

-- `RIPEMD160::f`
mix : ℕ → ℕ → ℕ → ℕ → ℕ
mix j x y z =
    if ltb j 16
    then bit_xor (bit_xor x y) z
    else if ltb j 32
    then bit_or (bit_and x y) (bit_and (not32 x) z)
    else if ltb j 48
    then bit_xor (bit_or x (not32 y)) z
    else if ltb j 64
    then bit_or (bit_and x z) (bit_and y (not32 z))
    else bit_xor x (bit_or y (not32 z))

-- `uint32_t h[5]`, and the five words of a line.
record Words : Type 0 where
  a : ℕ
  b : ℕ
  c : ℕ
  d : ℕ
  e : ℕ

-- The initial hash values.
abbrev initial_words : Words
initial_words = record {
  a = 0x67452301;
  b = 0xEFCDAB89;
  c = 0x98BADCFE;
  d = 0x10325476;
  e = 0xC3D2E1F0;
}

-- `(uint8_t)(n>>(8*i))` for `i` from `from` on, `count` times
little_endian : ℕ → ℕ → ℕ → Bytes
little_endian zero from n = []
little_endian (suc count) from n = (n >>> (8 * from)) % 256 ∷ little_endian count (from + 1) n

-- The message with its padding.
pad : Bytes → Bytes
unfolding zero_padding little_endian
pad input =
    input
    ++ 0x80 ∷ (zero_padding 64 (length input + 1) ++ little_endian 8 0 (u64 (length input * 8)))

-- `X[i] = msg[i*4] | (msg[i*4+1]<<8) | (msg[i*4+2]<<16) | (msg[i*4+3]<<24)` for 16 words
message_words : ℕ → Bytes → List ℕ
message_words zero msg = []
message_words (suc n) msg =
    bit_or (bit_or (bit_or (get_or msg 0 0) (get_or msg 1 0 <<< 8)) (get_or msg 2 0 <<< 16))
      (get_or msg 3 0 <<< 24)
    ∷ message_words n (drop 4 msg)

-- One line of a step: `f` at `fj`, then the word, the constant and the shift of the step `j`.
line_step : ℕ → ℕ → ℕ → ℕ → Words → Words
unfolding rol mix
line_step fj word constant shift s =
    let t = u32 (rol (u32 (s.a + mix fj s.b s.c s.d + word + constant)) shift + s.e) in
    record { a = s.e; b = t; c = s.b; d = rol s.c 10; e = s.d }

-- The loop over `j`, from `80 - n` on.
steps : ℕ → List ℕ → Words → Words → Words × Words
unfolding line_step
steps zero x left right = (left, right)
steps (suc n) x left right =
    let j = 79 - n in
    steps n x
      (line_step j (get_or x (get_or left_words j 0) 0) (get_or left_constants (j / 16) 0)
        (get_or left_shifts j 0) left)
      (line_step (79 - j) (get_or x (get_or right_words j 0) 0) (get_or right_constants (j / 16) 0)
        (get_or right_shifts j 0) right)

-- The sums at the end of a block.
combine : Words → Words × Words → Words
combine h (l, r) = record {
  a = u32 (h.b + l.c + r.d);
  b = u32 (h.c + l.d + r.e);
  c = u32 (h.d + l.e + r.a);
  d = u32 (h.e + l.a + r.b);
  e = u32 (h.a + l.b + r.c);
}

-- The loop over the blocks of the message, of which there are at most as many as bytes.
block_loop : ℕ → Bytes → Words → Words
unfolding message_words steps combine
block_loop fuel [] h = h
block_loop zero (c ∷ msg) h = h
block_loop (suc fuel) (c ∷ msg) h =
    block_loop fuel (drop 64 (c ∷ msg)) (combine h (steps 80 (message_words 16 (c ∷ msg)) h h))

-- The bytes of the result.
result_bytes : Words → Bytes
unfolding little_endian
result_bytes h =
    little_endian 4 0 h.a
    ++ little_endian 4 0 h.b
    ++ little_endian 4 0 h.c
    ++ little_endian 4 0 h.d
    ++ little_endian 4 0 h.e

-- `RIPEMD160::hashBytes`
unfoldable pub hash_bytes : Bytes → Bytes
unfolding pad block_loop result_bytes
hash_bytes input = let msg = pad input in result_bytes (block_loop (length msg) msg initial_words)

-- `RIPEMD160::hash`
unfoldable pub hash : Bytes → Bytes
unfolding hash_bytes bytes_to_hex
hash input = bytes_to_hex (hash_bytes input)
