-- ===== src/Crypto/Ecdsa/Signing.antt =====
-- src/crypto/ecdsa.cpp: `verify` after `sign`.
use rex_coin.Base.{
  ℕ, suc, ◌==◌, ◌≡◌, ◌≢◌, refl, ap, sym, inl, inr, true, false, ◌||◌, some, [], ◌∷◌, arith, ltb,
  length, take, All, Bytes, Option-cases,
}
use rex_coin.Hasher.{IsHexDigit}
use rex_coin.Crypto.Hex.{bytes_to_hex, hex_to_bytes}
use rex_coin.Crypto.Hex.RoundTrip.{hex_to_bytes-bytes_to_hex, bytes_to_hex-IsHexDigit}
use rex_coin.Crypto.Ecdsa.{Curve, resize_hash, derive_public_key, sign, read_numbers, verify}
use rex_coin.Core.Transaction.{Signature, no_signature}

take-all : (s : Bytes) (n : ℕ) → length s ≡ n → take n s ≡ s
take-all [] n e = let none_left : n ≡ 0 = omega arith in rw none_left refl
take-all (c ∷ s) n e =
    let more : n ≡ suc (length s) = omega arith in rw more (ap (◌∷◌ c) (take-all s (length s) refl))

module _ ⦃curve : Curve⦄ where
  read_numbers-32 : (r s : Bytes) → length r ≡ 32 → length s ≡ 32 → read_numbers r s ≡ some (r, s)
  unfolding read_numbers
  read_numbers-32 r s er es =
      let enough : (ltb (length r) 32 || ltb (length s) 32) ≡ false = ground arith in
      rw (read_numbers, enough, take-all r 32 er, take-all s 32 es)

  -- A signature that the curve made, in its texts.
  verify-texts :
      (pb hash_hex hb r s der : Bytes)
      → hex_to_bytes hash_hex ≡ some hb
      → curve.sign pb (resize_hash hb) ≡ some (r, (s, der))
      → verify
          (bytes_to_hex (curve.public_point pb))
          hash_hex
          (record { r = bytes_to_hex r; s = bytes_to_hex s; der = der })
        ≡ some true
  unfolding verify
  verify-texts pb hash_hex hb r s der eh made =
      let (er, es, br, bs) = curve.length-sign pb (resize_hash hb) r s der made in
      let back = hex_to_bytes-bytes_to_hex (curve.public_point pb) (curve.public_point-IsByte pb) in
      let (len_r, _) = bytes_to_hex-IsHexDigit r in
      let (len_s, _) = bytes_to_hex-IsHexDigit s in
      let full : (length (bytes_to_hex r) == 0 || length (bytes_to_hex s) == 0) ≡ false =
        ground arith in
      let back_r = hex_to_bytes-bytes_to_hex r br in
      let back_s = hex_to_bytes-bytes_to_hex s bs in
      let valid = curve.check-sign pb (resize_hash hb) r s der made in
      rw (verify, full, back, eh, back_r, back_s, read_numbers-32 r s er es, valid)

  -- What `sign` gives, unless the library fails and the fields stay empty, `verify` accepts for the
  -- public key of the same private key and for the same hash.
  pub verify-sign :
      (priv_hex pub_hex hash_hex : Bytes) (sig : Signature)
      → derive_public_key priv_hex ≡ some pub_hex
      → sign priv_hex hash_hex ≡ some sig
      → sig.r ≢ []
      → verify pub_hex hash_hex sig ≡ some true
  unfolding derive_public_key sign
  verify-sign priv_hex pub_hex hash_hex sig derived signed made =
      elim (Option-cases (hex_to_bytes priv_hex)) [
        | inl e ↦ absurd (cc (rw (derive_public_key, e) at derived))
        | inr (pb, e) ↦
            let own : bytes_to_hex (curve.public_point pb) ≡ pub_hex =
              cc (rw (derive_public_key, e) at derived) in
            elim (Option-cases (hex_to_bytes hash_hex)) [
              | inl e' ↦ absurd (cc (rw (sign, e, e') at signed))
              | inr (hb, e') ↦ elim (Option-cases (curve.sign pb (resize_hash hb))) [
                | inl failed ↦
                    let none_made : no_signature ≡ sig = cc (rw (sign, e, e', failed) at signed) in
                    absurd (made (ap (λ (x : Signature). x.r) (sym none_made)))
                | inr ((r, (s, der)), done) ↦
                    let same : record { r = bytes_to_hex r; s = bytes_to_hex s; der = der } ≡ sig =
                      cc (rw (sign, e, e', done) at signed) in
                    rw (← own) (rw (← same) (verify-texts pb hash_hex hb r s der e' done))
              ]
            ]
      ]

  -- What `sign` gives are two texts of 64 digits, unless the fields are empty.
  pub sign-IsHexDigit :
      (priv_hex hash_hex : Bytes) (sig : Signature)
      → sign priv_hex hash_hex ≡ some sig
      → sig.r ≢ []
      → (length sig.r ≡ 64) × (length sig.s ≡ 64) × All IsHexDigit sig.r × All IsHexDigit sig.s
  unfolding sign
  sign-IsHexDigit priv_hex hash_hex sig signed made = elim (Option-cases (hex_to_bytes priv_hex)) [
    | inl e ↦ absurd (cc (rw (sign, e) at signed))
    | inr (pb, e) ↦ elim (Option-cases (hex_to_bytes hash_hex)) [
      | inl e' ↦ absurd (cc (rw (sign, e, e') at signed))
      | inr (hb, e') ↦ elim (Option-cases (curve.sign pb (resize_hash hb))) [
        | inl failed ↦
            let none_made : no_signature ≡ sig = cc (rw (sign, e, e', failed) at signed) in
            absurd (made (ap (λ (x : Signature). x.r) (sym none_made)))
        | inr ((r, (s, der)), done) ↦
            let same : record { r = bytes_to_hex r; s = bytes_to_hex s; der = der } ≡ sig =
              cc (rw (sign, e, e', done) at signed) in
            let (er, es, _, _) = curve.length-sign pb (resize_hash hb) r s der done in
            let (len_r, hex_r) = bytes_to_hex-IsHexDigit r in
            let (len_s, hex_s) = bytes_to_hex-IsHexDigit s in
            rw (← same) (omega arith, omega arith, hex_r, hex_s)
      ]
    ]
  ]

  -- The DER form plays no part.
  pub verify-der :
      (pub_hex hash_hex : Bytes) (sig : Signature)
      → verify pub_hex hash_hex (record sig { der = [] }) ≡ verify pub_hex hash_hex sig
  unfolding verify
  verify-der pub_hex hash_hex sig = refl
