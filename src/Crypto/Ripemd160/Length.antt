-- ===== src/Crypto/Ripemd160/Length.antt =====
-- src/crypto/ripemd160.cpp: the result is 20 bytes.
use rex_coin.Base.{
  ℕ, zero, suc, ◌+◌, ◌≡◌, refl, ap, ◌++◌, arith, All, All-append, length, length-append, Bytes,
  IsByte,
}
use rex_coin.Crypto.Ripemd160.{
  little_endian, Words, initial_words, pad, block_loop, result_bytes, hash_bytes,
}

length-little_endian : (count from n : ℕ) → length (little_endian count from n) ≡ count
unfolding little_endian
length-little_endian zero from n = refl
length-little_endian (suc count) from n = ap suc (length-little_endian count (from + 1) n)

little_endian-IsByte : (count from n : ℕ) → All IsByte (little_endian count from n)
unfolding little_endian
little_endian-IsByte zero from n = tt
little_endian-IsByte (suc count) from n = (omega arith, little_endian-IsByte count (from + 1) n)

-- Four bytes in front of some more.
IsWord-append :
    (n k : ℕ) (bs : Bytes)
    → (length bs ≡ k) × All IsByte bs
    → (length (little_endian 4 0 n ++ bs) ≡ 4 + k) × All IsByte (little_endian 4 0 n ++ bs)
IsWord-append n k bs h =
    let e = length-append (little_endian 4 0 n) bs in
    let e' = length-little_endian 4 0 n in
    let e'' = h.0 in
    (omega arith, All-append IsByte (little_endian 4 0 n) bs (little_endian-IsByte 4 0 n) h.1)

result_bytes_lem : (h : Words) → (length (result_bytes h) ≡ 20) × All IsByte (result_bytes h)
unfolding result_bytes
result_bytes_lem h =
    let e : Bytes = little_endian 4 0 h.e in
    let de : Bytes = little_endian 4 0 h.d ++ e in
    let cde : Bytes = little_endian 4 0 h.c ++ de in
    let bcde : Bytes = little_endian 4 0 h.b ++ cde in
    IsWord-append h.a 16 bcde (
      IsWord-append h.b 12 cde (
        IsWord-append h.c 8 de
          (IsWord-append h.d 4 e (length-little_endian 4 0 h.e, little_endian-IsByte 4 0 h.e))))

-- The result is 20 bytes, whatever the input.
pub length-hash_bytes :
    (input : Bytes) → (length (hash_bytes input) ≡ 20) × All IsByte (hash_bytes input)
unfolding hash_bytes
length-hash_bytes input =
    let msg = pad input in result_bytes_lem (block_loop (length msg) msg initial_words)
