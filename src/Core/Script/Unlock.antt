-- ===== src/Core/Script/Unlock.antt =====
-- src/core/script.cpp: the scripts of a payment to the hash of a public key.
use rex_coin.Base.{
  ℕ, suc, ◌+◌, ◌-◌, ◌≡◌, ◌≢◌, refl, ap, sym, ◌∙◌, true, false, some, [], ◌∷◌, ◌++◌, arith, leb, ltb,
  length, length-append, take, drop, take-append, drop-append, All, All-append, Bytes, codes,
  eqb_refl, eqb-head_ne, substr,
}
use mathlib.Core.List.{append-nil}
use rex_coin.Base.Text.{eqb}
use rex_coin.Hasher.{Hasher, IsHexDigit}
use rex_coin.Crypto.Hex.{hex_to_bytes}
use rex_coin.Crypto.Hash160
use rex_coin.Crypto.Hash160.Address.{hash-IsHexDigit}
use rex_coin.Crypto.Ecdsa.{Curve, derive_public_key, sign, verify}
use rex_coin.Crypto.Ecdsa.Signing.{sign-IsHexDigit, verify-der, verify-sign}
use rex_coin.Core.Script.{
  build_p2pkh, build_unlock_p2pkh, find, between, verify_parts, verify_p2pkh,
}
use rex_coin.Core.Transaction.{Signature}

-- A text is found where it stands, behind characters that differ from its first one.
pub find-skip :
    (c : ℕ) (p s rest : Bytes)
    → All (λ x. x ≢ c) s
    → find (c ∷ p) (s ++ ((c ∷ p) ++ rest)) ≡ some (length s)
unfolding find
find-skip c p [] rest all = rw (find, take-append (c ∷ p) rest, eqb_refl (c ∷ p))
find-skip c p (x ∷ s) rest all = rw (
  find,
  eqb-head_ne x c (take (length p) (s ++ ((c ∷ p) ++ rest))) p all.0,
  find-skip c p s rest all.1,
)

not_blank : (s : Bytes) → All IsHexDigit s → All (λ x. x ≢ b' ') s
not_blank [] all = tt
not_blank (x ∷ s) all = (λ e. omega (arith, all.0), not_blank s all.1)

word-differs :
    (s rest : Bytes)
    → All IsHexDigit s
    → eqb (take 14 (s ++ (b' ' ∷ rest))) (codes "OP_EQUALVERIFY") ≡ false
word-differs [] rest all =
    eqb-head_ne b' ' b'O' (take 13 rest) (codes "P_EQUALVERIFY") (λ e. omega arith)
word-differs (x ∷ s) rest all =
    eqb-head_ne x b'O' (take 13 (s ++ (b' ' ∷ rest))) (codes "P_EQUALVERIFY")
      (λ e. omega (arith, all.0))

-- Behind the first opcodes, too: the blank in front of the hash begins another word.
find-equalverify :
    (s rest : Bytes)
    → All IsHexDigit s
    → find
        (codes " OP_EQUALVERIFY")
        (codes "OP_DUP OP_HASH160 " ++ (s ++ (codes " OP_EQUALVERIFY" ++ rest)))
      ≡ some (18 + length s)
unfolding find eqb
find-equalverify s rest all =
    let apart = word-differs s (codes "OP_EQUALVERIFY" ++ rest) all in
    let here = find-skip b' ' (codes "OP_EQUALVERIFY") s rest (not_blank s all) in
    let n : suc (
          suc (
            suc (
              suc (
                suc (
                  suc (
                    suc (
                      suc (
                        suc (suc (suc (suc (suc (suc (suc (suc (suc (suc (length s))))))))))))))))))
        ≡ 18 + length s =
      omega arith in
    rw (apart, here) (ap some n)

find-hash160 : (s : Bytes) → find (codes "OP_HASH160 ") (codes "OP_DUP OP_HASH160 " ++ s) ≡ some 7
unfolding find eqb
find-hash160 s = refl

-- The hash stands between the two words.
between-p2pkh :
    (s rest : Bytes) → between 18 (18 + length s) (codes "OP_DUP OP_HASH160 " ++ (s ++ rest)) ≡ s
unfolding between
between-p2pkh s rest =
    let after : leb 18 (18 + length s) ≡ true = ground arith in
    let count : 18 + length s - 18 ≡ length s = omega arith in
    rw (between, after, count, take-append s rest)

drop-past : (c : ℕ) (s rest : Bytes) → drop (length s + 1) (s ++ (c ∷ rest)) ≡ rest
drop-past c [] rest = refl
drop-past c (x ∷ s) rest =
    let n : length (x ∷ s) + 1 ≡ suc (length s + 1) = omega arith in rw n (drop-past c s rest)

substr-right : (r s : Bytes) → length r ≡ 64 → length s ≡ 64 → substr (r ++ s) 64 64 ≡ s
substr-right r s er es =
    ap (λ (n : ℕ). take 64 (drop n (r ++ s))) (sym er)
    ∙ ap (take 64) (drop-append r s)
    ∙ ap (λ (n : ℕ). take n s) (sym es)
    ∙ ap (take (length s)) (sym (append-nil s))
    ∙ take-append s []

verify_parts-halves :
    ⦃h : Hasher⦄ ⦃curve : Curve⦄ (hash key_bytes key_hex r s tx_hash : Bytes)
    → hex_to_bytes key_hex ≡ some key_bytes
    → Hash160.hash key_bytes ≡ some hash
    → length r ≡ 64
    → length s ≡ 64
    → verify_parts hash (r ++ s) key_hex tx_hash
      ≡ verify key_hex tx_hash (record { r = r; s = s; der = [] })
unfolding verify_parts
verify_parts-halves hash key_bytes key_hex r s tx_hash e_key e_hash er es =
    let len = length-append r s in
    let long : ltb (length (r ++ s)) 64 ≡ false = ground arith in
    let left : substr (r ++ s) 0 64 ≡ r =
      ap (λ (n : ℕ). take n (r ++ s)) (sym er) ∙ take-append r s in
    rw (verify_parts, e_key, e_hash, eqb_refl hash, long, left, substr-right r s er es)

verify_p2pkh_at :
    ⦃h : Hasher⦄ ⦃curve : Curve⦄ (lock unlock tx_hash : Bytes) (i end sp : ℕ)
    → find (codes "OP_HASH160 ") lock ≡ some i
    → find (codes " OP_EQUALVERIFY") lock ≡ some end
    → find (codes " ") unlock ≡ some sp
    → verify_p2pkh lock unlock tx_hash
      ≡ verify_parts (between (i + 11) end lock) (take sp unlock) (drop (sp + 1) unlock) tx_hash
unfolding verify_p2pkh
verify_p2pkh_at lock unlock tx_hash i end sp e e' e'' = rw (verify_p2pkh, e', e'', e)

-- The script that pays to the hash of a public key is unlocked by a signature of 128 digits and that
-- key exactly when `verify` accepts the two halves of the signature.
pub verify_p2pkh-build_p2pkh :
    ⦃h : Hasher⦄ ⦃curve : Curve⦄ (hash key_bytes key_hex r s tx_hash : Bytes)
    → hex_to_bytes key_hex ≡ some key_bytes
    → Hash160.hash key_bytes ≡ some hash
    → All IsHexDigit hash
    → All IsHexDigit (r ++ s)
    → length r ≡ 64
    → length s ≡ 64
    → verify_p2pkh (build_p2pkh hash) (build_unlock_p2pkh (r ++ s) key_hex) tx_hash
      ≡ verify key_hex tx_hash (record { r = r; s = s; der = [] })
unfolding build_p2pkh build_unlock_p2pkh
verify_p2pkh-build_p2pkh hash key_bytes key_hex r s tx_hash e_key e_hash hex_hash hex_sig er es =
    let sig : Bytes = r ++ s in
    let lock : Bytes =
      codes "OP_DUP OP_HASH160 " ++ (hash ++ codes " OP_EQUALVERIFY OP_CHECKSIG") in
    let unlock : Bytes = sig ++ (b' ' ∷ key_hex) in
    let blank : find (codes " ") unlock ≡ some (length sig) =
      find-skip b' ' [] sig key_hex (not_blank sig hex_sig) in
    let word = find-equalverify hash (codes " OP_CHECKSIG") hex_hash in
    let parts =
      verify_p2pkh_at lock unlock tx_hash 7 (18 + length hash) (length sig) (find-hash160 _) word
        blank in
    let middle = between-p2pkh hash (codes " OP_EQUALVERIFY OP_CHECKSIG") in
    parts
    ∙ ap
        (λ (m : Bytes).
          verify_parts m (take (length sig) unlock) (drop (length sig + 1) unlock) tx_hash)
        middle
    ∙ ap (λ (m : Bytes). verify_parts hash m (drop (length sig + 1) unlock) tx_hash)
        (take-append sig (b' ' ∷ key_hex))
    ∙ ap (λ (m : Bytes). verify_parts hash sig m tx_hash) (drop-past b' ' sig key_hex)
    ∙ verify_parts-halves hash key_bytes key_hex r s tx_hash e_key e_hash er es

-- Whoever signs a transaction with a private key unlocks the script that pays to the hash of its
-- public key, unless the library fails and the fields of the signature stay empty.
pub verify_p2pkh-sign :
    ⦃h : Hasher⦄ ⦃curve : Curve⦄ (priv_hex key_hex key_bytes hash tx_hash : Bytes) (sig : Signature)
    → derive_public_key priv_hex ≡ some key_hex
    → hex_to_bytes key_hex ≡ some key_bytes
    → Hash160.hash key_bytes ≡ some hash
    → sign priv_hex tx_hash ≡ some sig
    → sig.r ≢ []
    → verify_p2pkh (build_p2pkh hash) (build_unlock_p2pkh (sig.r ++ sig.s) key_hex) tx_hash
      ≡ some true
verify_p2pkh-sign priv_hex key_hex key_bytes hash tx_hash sig derived e_key e_hash signed made =
    let (er, es, hex_r, hex_s) = sign-IsHexDigit priv_hex tx_hash sig signed made in
    verify_p2pkh-build_p2pkh hash key_bytes key_hex sig.r sig.s tx_hash e_key e_hash
      (hash-IsHexDigit key_bytes hash e_hash) (All-append IsHexDigit sig.r sig.s hex_r hex_s) er es
    ∙ verify-der key_hex tx_hash sig
    ∙ verify-sign priv_hex key_hex tx_hash sig derived signed made
