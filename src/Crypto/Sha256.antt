-- ===== src/Crypto/Sha256.antt =====
-- src/crypto/sha256.cpp. A `uint32_t` is a number below 2^32, and each sum is cut to 32 bits.
pub mod Digest
use Prim.Native.Nat.{bit_and, bit_or, bit_xor}
use rex_coin.Base.{
  ℕ, zero, suc, ◌+◌, ◌-◌, ◌*◌, ◌/◌, ◌%◌, ◌^◌, Bool, true, false, List, [], ◌∷◌, ◌++◌, ◌==◌, length,
  take, drop, get_or, if◌then◌else◌, Bytes, u32, u64, ◌<<<◌, ◌>>>◌,
}
use rex_coin.Crypto.Hex.{hex_digit}

-- `SHA256::K`
abbrev round_constants : List ℕ
round_constants =
    0x428a2f98 ∷ 0x71374491 ∷ 0xb5c0fbcf ∷ 0xe9b5dba5 ∷ 0x3956c25b ∷ 0x59f111f1 ∷ 0x923f82a4
    ∷ 0xab1c5ed5 ∷ 0xd807aa98 ∷ 0x12835b01 ∷ 0x243185be ∷ 0x550c7dc3 ∷ 0x72be5d74 ∷ 0x80deb1fe
    ∷ 0x9bdc06a7 ∷ 0xc19bf174 ∷ 0xe49b69c1 ∷ 0xefbe4786 ∷ 0x0fc19dc6 ∷ 0x240ca1cc ∷ 0x2de92c6f
    ∷ 0x4a7484aa ∷ 0x5cb0a9dc ∷ 0x76f988da ∷ 0x983e5152 ∷ 0xa831c66d ∷ 0xb00327c8 ∷ 0xbf597fc7
    ∷ 0xc6e00bf3 ∷ 0xd5a79147 ∷ 0x06ca6351 ∷ 0x14292967 ∷ 0x27b70a85 ∷ 0x2e1b2138 ∷ 0x4d2c6dfc
    ∷ 0x53380d13 ∷ 0x650a7354 ∷ 0x766a0abb ∷ 0x81c2c92e ∷ 0x92722c85 ∷ 0xa2bfe8a1 ∷ 0xa81a664b
    ∷ 0xc24b8b70 ∷ 0xc76c51a3 ∷ 0xd192e819 ∷ 0xd6990624 ∷ 0xf40e3585 ∷ 0x106aa070 ∷ 0x19a4c116
    ∷ 0x1e376c08 ∷ 0x2748774c ∷ 0x34b0bcb5 ∷ 0x391c0cb3 ∷ 0x4ed8aa4a ∷ 0x5b9cca4f ∷ 0x682e6ff3
    ∷ 0x748f82ee ∷ 0x78a5636f ∷ 0x84c87814 ∷ 0x8cc70208 ∷ 0x90befffa ∷ 0xa4506ceb ∷ 0xbef9a3f7
    ∷ 0xc67178f2 ∷ []

-- The eight words of the state.
pub record Words : Type 0 where
  pub a : ℕ
  pub b : ℕ
  pub c : ℕ
  pub d : ℕ
  pub e : ℕ
  pub f : ℕ
  pub g : ℕ
  pub hh : ℕ

-- `SHA256::H0`
abbrev initial_words : Words
initial_words = record {
  a = 0x6a09e667;
  b = 0xbb67ae85;
  c = 0x3c6ef372;
  d = 0xa54ff53a;
  e = 0x510e527f;
  f = 0x9b05688c;
  g = 0x1f83d9ab;
  hh = 0x5be0cd19;
}

-- `~x` on 32 bits
abbrev not32 : ℕ → ℕ
not32 x = 0xffffffff - x

rotr : ℕ → ℕ → ℕ
rotr x n = bit_or (x >>> n) (u32 (x <<< (32 - n)))

ch : ℕ → ℕ → ℕ → ℕ
ch x y z = bit_xor (bit_and x y) (bit_and (not32 x) z)

maj : ℕ → ℕ → ℕ → ℕ
maj x y z = bit_xor (bit_xor (bit_and x y) (bit_and x z)) (bit_and y z)

sigma0 : ℕ → ℕ
unfolding rotr
sigma0 x = bit_xor (bit_xor (rotr x 2) (rotr x 13)) (rotr x 22)

sigma1 : ℕ → ℕ
unfolding rotr
sigma1 x = bit_xor (bit_xor (rotr x 6) (rotr x 11)) (rotr x 25)

gamma0 : ℕ → ℕ
unfolding rotr
gamma0 x = bit_xor (bit_xor (rotr x 7) (rotr x 18)) (x >>> 3)

gamma1 : ℕ → ℕ
unfolding rotr
gamma1 x = bit_xor (bit_xor (rotr x 17) (rotr x 19)) (x >>> 10)

-- `while (msg.size() % 64 != 56) msg.push_back(0x00);` from a size on: the zeros pushed. 64 rounds
-- are enough.
unfoldable pub zero_padding : ℕ → ℕ → Bytes
zero_padding zero size = []
zero_padding (suc fuel) size =
    let rest = 0 ∷ zero_padding fuel (size + 1) in if size % 64 == 56 then [] else rest

-- `(bitLen >> (i*8)) & 0xFF` for `i` from 7 down to 0
pub big_endian : ℕ → ℕ → Bytes
big_endian zero n = []
big_endian (suc i) n = (n >>> (8 * i)) % 256 ∷ big_endian i n

-- `SHA256::pad`
pub pad : Bytes → Bytes
pad input =
    input ++ (0x80 ∷ (zero_padding 64 (length input + 1) ++ big_endian 8 (u64 (length input * 8))))

-- `w[j] = (msg[i+j*4]<<24) | (msg[i+j*4+1]<<16) | (msg[i+j*4+2]<<8) | msg[i+j*4+3]` for 16 words
message_words : ℕ → Bytes → List ℕ
message_words zero msg = []
message_words (suc n) msg =
    bit_or (bit_or (bit_or (get_or msg 0 0 <<< 24) (get_or msg 1 0 <<< 16)) (get_or msg 2 0 <<< 8))
      (get_or msg 3 0)
    ∷ message_words n (drop 4 msg)

-- The loop over `j` from 16 to 63.
extend_words : ℕ → ℕ → List ℕ → List ℕ
unfolding gamma0 gamma1
extend_words zero j w = w
extend_words (suc n) j w = extend_words n (j + 1) (
    w
    ++ u32 (
        gamma1 (get_or w (j - 2) 0)
        + get_or w (j - 7) 0
        + gamma0 (get_or w (j - 15) 0)
        + get_or w (j - 16) 0)
      ∷ [])

-- One round of the compression.
round : ℕ → ℕ → Words → Words
unfolding sigma0 sigma1 ch maj
round k w s =
    let t1 = u32 (s.hh + sigma1 s.e + ch s.e s.f s.g + k + w) in
    let t2 = u32 (sigma0 s.a + maj s.a s.b s.c) in
    record {
      a = u32 (t1 + t2);
      b = s.a;
      c = s.b;
      d = s.c;
      e = u32 (s.d + t1);
      f = s.e;
      g = s.f;
      hh = s.g;
    }

-- The loop over `j` from 0 to 63.
rounds : List ℕ → List ℕ → Words → Words
unfolding round
rounds (k ∷ ks) (w ∷ ws) s = rounds ks ws (round k w s)
rounds _ _ s = s

-- `h[0]+=a; … h[7]+=hh;`
add_words : Words → Words → Words
add_words h s = record {
  a = u32 (h.a + s.a);
  b = u32 (h.b + s.b);
  c = u32 (h.c + s.c);
  d = u32 (h.d + s.d);
  e = u32 (h.e + s.e);
  f = u32 (h.f + s.f);
  g = u32 (h.g + s.g);
  hh = u32 (h.hh + s.hh);
}

-- The body of the loop over the blocks of 64 bytes.
compress : Words → Bytes → Words
unfolding message_words extend_words rounds add_words
compress h chunk =
    add_words h (rounds round_constants (extend_words 48 16 (message_words 16 chunk)) h)

-- `for (i = 0; i < msg.size(); i += 64)`, with the number of blocks left.
compress_all : ℕ → Bytes → Words → Words
unfolding compress
compress_all zero msg h = h
compress_all (suc n) msg h = compress_all n (drop 64 msg) (compress h (take 64 msg))

-- `std::hex << std::setw(8) << std::setfill('0')` on a word
pub word_hex : ℕ → Bytes
word_hex w =
    hex_digit (w / 16 ^ 7 % 16)
    ∷ hex_digit (w / 16 ^ 6 % 16)
    ∷ hex_digit (w / 16 ^ 5 % 16)
    ∷ hex_digit (w / 16 ^ 4 % 16)
    ∷ hex_digit (w / 16 ^ 3 % 16)
    ∷ hex_digit (w / 16 ^ 2 % 16)
    ∷ hex_digit (w / 16 % 16)
    ∷ hex_digit (w % 16)
    ∷ []

-- `SHA256::toHex`
pub to_hex : Words → Bytes
to_hex h =
    word_hex h.a
    ++ word_hex h.b
    ++ word_hex h.c
    ++ word_hex h.d
    ++ word_hex h.e
    ++ word_hex h.f
    ++ word_hex h.g
    ++ word_hex h.hh

-- `SHA256::hash`
unfoldable pub hash : Bytes → Bytes
unfolding pad zero_padding big_endian compress_all to_hex word_hex
hash input = let msg = pad input in to_hex (compress_all (length msg / 64) msg initial_words)
