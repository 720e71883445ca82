-- ===== src/Crypto/Sha3.antt =====
-- src/crypto/sha3.h and src/crypto/sha3.cpp. The state is a list of 25 lanes, and a `uint64_t` is a
-- number below 2^64.
use Prim.Native.Nat.{bit_and, bit_or, bit_xor}
use rex_coin.Base.{
  ℕ, zero, suc, ◌+◌, ◌-◌, ◌*◌, ◌/◌, ◌%◌, List, [], ◌∷◌, ◌++◌, ◌==◌, length, take, drop, get_or, set,
  replicate, map, if◌then◌else◌, Bytes, u64, ◌<<<◌, ◌>>>◌,
}
use rex_coin.Crypto.Hex.{bytes_to_hex}

-- `SHA3::RC`
abbrev round_constants : List ℕ
round_constants =
    0x0000000000000001 ∷ 0x0000000000008082 ∷ 0x800000000000808A ∷ 0x8000000080008000
    ∷ 0x000000000000808B ∷ 0x0000000080000001 ∷ 0x8000000080008081 ∷ 0x8000000000008009
    ∷ 0x000000000000008A ∷ 0x0000000000000088 ∷ 0x0000000080008009 ∷ 0x000000008000000A
    ∷ 0x000000008000808B ∷ 0x800000000000008B ∷ 0x8000000000008089 ∷ 0x8000000000008003
    ∷ 0x8000000000008002 ∷ 0x8000000000000080 ∷ 0x000000000000800A ∷ 0x800000008000000A
    ∷ 0x8000000080008081 ∷ 0x8000000000008080 ∷ 0x0000000080000001 ∷ 0x8000000080008008 ∷ []

-- `SHA3::ROT`, one row after the other: `ROT[x][y]` is the entry `5 * x + y`.
abbrev rotations : List ℕ
rotations =
    0 ∷ 36 ∷ 3 ∷ 41 ∷ 18 ∷ 1 ∷ 44 ∷ 10 ∷ 45 ∷ 2 ∷ 62 ∷ 6 ∷ 43 ∷ 15 ∷ 61 ∷ 28 ∷ 55 ∷ 25 ∷ 21 ∷ 56
    ∷ 27 ∷ 20 ∷ 39 ∷ 8 ∷ 14 ∷ []

-- `rotl64`; a shift of `x` by 64, which the source writes for `n = 0`, gives `x` or 0, and `x | x`
-- is `x | 0`.
rotl64 : ℕ → ℕ → ℕ
rotl64 x n = bit_or (u64 (x <<< n)) (x >>> (64 - n))

-- `~x` on 64 bits
abbrev not64 : ℕ → ℕ
not64 x = 0xffffffffffffffff - x

-- The numbers below `n`, in order.
below : ℕ → List ℕ
below zero = []
below (suc n) = below n ++ n ∷ []

-- A lane of the state.
abbrev lane : List ℕ → ℕ → ℕ
lane a i = get_or a i 0

-- `C[x]`
column : List ℕ → ℕ → ℕ
column a x =
    bit_xor
      (bit_xor (bit_xor (bit_xor (lane a x) (lane a (x + 5))) (lane a (x + 10))) (lane a (x + 15)))
      (lane a (x + 20))

-- `D[x]`
parity : List ℕ → ℕ → ℕ
unfolding rotl64
parity c x = bit_xor (lane c ((x + 4) % 5)) (rotl64 (lane c ((x + 1) % 5)) 1)

-- `A[x+5*y] ^= D[x]` at every lane
theta : List ℕ → List ℕ
unfolding column parity below
theta a =
    let c = map (column a) (below 5) in
    let d = map (parity c) (below 5) in
    map (λ (i : ℕ). bit_xor (lane a i) (lane d (i % 5))) (below 25)

-- `B[y+5*((2*x+3*y)%5)] = rotl64(A[x+5*y], ROT[x][y])` at every lane `i = x+5*y`
rho_pi : List ℕ → List ℕ → List ℕ → List ℕ
unfolding rotl64
rho_pi a [] b = b
rho_pi a (i ∷ is) b =
    let x = i % 5 in
    let y = i / 5 in
    rho_pi a is
      (set b (y + 5 * ((2 * x + 3 * y) % 5)) (rotl64 (lane a i) (lane rotations (5 * x + y))))

-- `A[x+5*y] = B[x+5*y] ^ ((~B[(x+1)%5+5*y]) & B[(x+2)%5+5*y])`
chi : List ℕ → ℕ → ℕ
chi b i =
    let x = i % 5 in
    let y = i / 5 in
    bit_xor (lane b i)
      (bit_and (not64 (lane b ((x + 1) % 5 + 5 * y))) (lane b ((x + 2) % 5 + 5 * y)))

-- A round of `keccakF`.
keccak_round : List ℕ → ℕ → List ℕ
unfolding theta rho_pi chi below
keccak_round a constant =
    let b = rho_pi (theta a) (below 25) (replicate 25 0) in
    let a' = map (chi b) (below 25) in set a' 0 (bit_xor (lane a' 0) constant)

rounds_from : List ℕ → List ℕ → List ℕ
unfolding keccak_round
rounds_from [] a = a
rounds_from (constant ∷ constants) a = rounds_from constants (keccak_round a constant)

-- `SHA3::keccakF`
keccak_f : List ℕ → List ℕ
unfolding rounds_from
keccak_f a = rounds_from round_constants a

-- `while (msg.size() % rate != 0) msg.push_back(0x00);` from a size on; 136 rounds are enough.
zeros_from : ℕ → ℕ → Bytes
zeros_from zero size = []
zeros_from (suc fuel) size =
    let rest = 0 ∷ zeros_from fuel (size + 1) in if size % 136 == 0 then [] else rest

-- `msg.back() |= 0x80;`
mark_last : Bytes → Bytes
mark_last [] = []
mark_last (b ∷ []) = bit_or b 0x80 ∷ []
mark_last (b ∷ b' ∷ bs) = b ∷ mark_last (b' ∷ bs)

-- The padded message of `hash256`.
pad : Bytes → Bytes
unfolding zeros_from mark_last
pad input = mark_last (input ++ 0x06 ∷ zeros_from 136 (length input + 1))

-- `lane |= (uint64_t) msg[i + j*8 + k] << (8*k)` for eight bytes
lane_of : ℕ → Bytes → ℕ
lane_of k [] = 0
lane_of k (b ∷ bs) = bit_or (b <<< (8 * k)) (lane_of (k + 1) bs)

-- `state[j] ^= lane;` for the lanes of a block
absorb : ℕ → Bytes → List ℕ → List ℕ
unfolding lane_of
absorb zero block state = state
absorb (suc n) block [] = []
absorb (suc n) block (s ∷ state) =
    bit_xor s (lane_of 0 (take 8 block)) ∷ absorb n (drop 8 block) state

-- The loop over the blocks.
absorb_all : ℕ → Bytes → List ℕ → List ℕ
unfolding keccak_f absorb
absorb_all zero msg state = state
absorb_all (suc n) msg state =
    absorb_all n (drop 136 msg) (keccak_f (absorb 17 (take 136 msg) state))

-- The bytes of a lane, the lowest first, as `memcpy` finds them.
lane_bytes : ℕ → ℕ → Bytes
lane_bytes zero w = []
lane_bytes (suc n) w = w % 256 ∷ lane_bytes n (w / 256)

-- `memcpy(output, state, outputLen)`
output_bytes : List ℕ → Bytes
unfolding lane_bytes
output_bytes state =
    lane_bytes 8 (lane state 0)
    ++ lane_bytes 8 (lane state 1)
    ++ lane_bytes 8 (lane state 2)
    ++ lane_bytes 8 (lane state 3)

-- `SHA3::hash256`
unfoldable pub hash256 : Bytes → Bytes
unfolding pad absorb_all output_bytes
hash256 input =
    let msg = pad input in
    bytes_to_hex (output_bytes (absorb_all (length msg / 136) msg (replicate 25 0)))

-- `SHA3::hash512`
pub hash512 : Bytes → Bytes
hash512 input = hash256 (hash256 input)
