-- ===== src/Crypto/Base58/Check.antt =====
-- src/crypto/base58.cpp: `decodeCheck` after `encodeCheck`.
use rex_coin.Base.{
  ℕ, zero, suc, ◌-◌, ◌<◌, ◌≡◌, ap, ◌∙◌, true, false, some, [], ◌∷◌, ◌++◌, arith, All, All-append,
  length, length-append, length-take, ltb, take, drop, take-append, drop-append, get_or, Bytes,
  IsByte, eqb_refl,
}
use rex_coin.Hasher.{Hasher, IsHexDigit, sha256}
use rex_coin.Crypto.Hex.RoundTrip.{hex_to_bytes-IsHexDigit}
use rex_coin.Crypto.Base58.{
  encode, decode, check_hash, checksum, encode_check, check_bytes, decode_check, is_valid,
}
use rex_coin.Crypto.Base58.RoundTrip.{decode-encode_head}

All-take : (n : ℕ) (s : Bytes) → All IsHexDigit s → All IsHexDigit (take n s)
All-take zero s all = tt
All-take (suc n) [] all = tt
All-take (suc n) (c ∷ s) all = (all.0, All-take n s all.1)

-- Every sequence of bytes has a checksum of four bytes.
checksum-total :
    ⦃h : Hasher⦄ (bs : Bytes)
    → (sum : Bytes) × (checksum bs ≡ some sum) × (length sum ≡ 4) × All IsByte sum
unfolding checksum check_hash
checksum-total ⦃h⦄ bs =
    let (inner, e, _, _) =
      hex_to_bytes-IsHexDigit 32 (sha256 bs) (h.length-hash bs) (h.hash-IsHexDigit bs) in
    let outer = sha256 inner in
    let len = length-take 8 outer in
    let len_outer = h.length-hash inner in
    let (sum, e', n, all) =
      hex_to_bytes-IsHexDigit 4 (take 8 outer) (omega arith)
        (All-take 8 outer (h.hash-IsHexDigit inner)) in
    (sum, rw (e, e'), n, all)

check_bytes_at :
    ⦃h : Hasher⦄ (bs body sum : Bytes) (before : ℕ × Bytes)
    → ltb (length bs) 5 ≡ false
    → take (length bs - 4) bs ≡ body
    → drop (length bs - 4) bs ≡ sum
    → checksum body ≡ some sum
    → check_bytes bs before ≡ (true, (get_or bs 0 0, drop 1 body))
unfolding check_bytes
check_bytes_at bs body sum before long e_body e_sum e =
    rw (long, e_body, e, e_body, e_sum, eqb_refl sum)

check_bytes-append :
    ⦃h : Hasher⦄ (version : ℕ) (payload sum : Bytes) (before : ℕ × Bytes)
    → length sum ≡ 4
    → checksum (version ∷ payload) ≡ some sum
    → check_bytes ((version ∷ payload) ++ sum) before ≡ (true, (version, payload))
check_bytes-append version payload sum before len e =
    let body : Bytes = version ∷ payload in
    let all = length-append body sum in
    let n : length (body ++ sum) - 4 ≡ length body = omega arith in
    check_bytes_at (body ++ sum) body sum before (ground arith)
      (ap (λ (k : ℕ). take k (body ++ sum)) n ∙ take-append body sum)
      (ap (λ (k : ℕ). drop k (body ++ sum)) n ∙ drop-append body sum) e

-- An address of a version other than 0 comes back from its text: `decodeCheck` accepts what
-- `encodeCheck` writes, and gives the version and the payload, whatever its arguments held.
pub decode_check-encode_check :
    ⦃h : Hasher⦄ (version : ℕ) (payload : Bytes) (before : ℕ × Bytes)
    → 0 < version
    → IsByte version
    → All IsByte payload
    → (text : Bytes) × (encode_check version payload ≡ some text)
      × (decode_check text before ≡ (true, (version, payload)))
unfolding encode_check decode_check
decode_check-encode_check version payload before positive byte all =
    let (sum, e, len, all_sum) = checksum-total (version ∷ payload) in
    let bs : Bytes = (version ∷ payload) ++ sum in
    let back : decode (encode bs) ≡ some bs =
      decode-encode_head version (payload ++ sum) positive
        (byte, All-append IsByte payload sum all all_sum) in
    (
      encode bs,
      rw (encode_check, e),
      rw (decode_check, back, check_bytes-append version payload sum before len e),
    )

-- `isValid` accepts what `encodeCheck` writes.
pub is_valid-encode_check :
    ⦃h : Hasher⦄ (version : ℕ) (payload text : Bytes)
    → 0 < version
    → IsByte version
    → All IsByte payload
    → encode_check version payload ≡ some text
    → is_valid text ≡ true
unfolding is_valid
is_valid-encode_check version payload text positive byte all e =
    let (text', made, back) = decode_check-encode_check version payload (0, []) positive byte all in
    let same : text ≡ text' = cc (e, made) in rw (is_valid, same, back)
