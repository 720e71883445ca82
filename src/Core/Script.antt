-- ===== src/Core/Script.antt =====
-- src/core/script.h and src/core/script.cpp. `none` is an exception, of `substr` or of the texts of
-- the key and the signature.
pub mod Unlock
use rex_coin.Base.{
  ℕ, suc, ◌+◌, ◌-◌, leb, ◌&&◌, Option, none, some, [], ◌∷◌, ◌++◌, if◌then◌else◌, length, take, drop,
  Bytes, codes, eqb, Bool, true, false, not, ltb, substr, ◌>>=◌,
}
use rex_coin.Dict.{is_some}
use rex_coin.Hasher.{Hasher}
use rex_coin.Crypto.Hex.{hex_to_bytes}
use rex_coin.Crypto.Hash160
use rex_coin.Crypto.Ecdsa.{Curve, verify}
use rex_coin.Core.Transaction.{Signature}

-- `enum class ScriptType`
pub data ScriptType : Type 0 where
  p2pkh p2sh p2pk unknown : ScriptType

-- `Script::buildP2PKH`
unfoldable pub build_p2pkh : Bytes → Bytes
build_p2pkh pub_key_hash =
    codes "OP_DUP OP_HASH160 " ++ pub_key_hash ++ codes " OP_EQUALVERIFY OP_CHECKSIG"

-- `Script::buildP2SH`
pub build_p2sh : Bytes → Bytes
build_p2sh script_hash = codes "OP_HASH160 " ++ script_hash ++ codes " OP_EQUAL"

-- `Script::buildUnlockP2PKH`
unfoldable pub build_unlock_p2pkh : Bytes → Bytes → Bytes
build_unlock_p2pkh sig_hex pub_key_hex = sig_hex ++ b' ' ∷ pub_key_hex

-- `std::string::find`; `none` for `npos`.
unfoldable pub find : Bytes → Bytes → Option ℕ
find pattern [] = if eqb pattern [] then some 0 else none
find pattern (c ∷ s) =
    if eqb (take (length pattern) (c ∷ s)) pattern
    then some 0
    else elim (find pattern s) [ none ↦ none | some i ↦ some (suc i) ]

-- `Script::detectType`
unfoldable pub detect_type : Bytes → ScriptType
detect_type script =
    if is_some (find (codes "OP_DUP OP_HASH160") script)
    then p2pkh
    else if is_some (find (codes "OP_HASH160") script) && is_some (find (codes "OP_EQUAL") script)
    then p2sh
    else if is_some (find (codes "OP_CHECKSIG") script)
    then p2pk
    else unknown

-- The length argument of `substr` is unsigned: with `end` before `start` it is beyond any text.
between : ℕ → ℕ → Bytes → Bytes
between start end script =
    if leb start end then take (end - start) (drop start script) else drop start script

-- The body of `extractAddress` under its test; a script of that type has "OP_HASH160" but perhaps no
-- blank after it, and then `npos + 11` wraps to 10.
p2pkh_address : Bytes → Bytes
unfolding between
p2pkh_address script =
    let start : ℕ = elim (find (codes "OP_HASH160 ") script) [ none ↦ 10 | some i ↦ i + 11 ] in
    elim (find (codes " OP_EQUALVERIFY") script) [ none ↦ [] | some end ↦ between start end script ]

-- `Script::extractAddress`
unfoldable pub extract_address : Bytes → Bytes
unfolding p2pkh_address
extract_address lock_script = elim (detect_type lock_script) [
  | p2pkh ↦ p2pkh_address lock_script
  | p2sh ↦ []
  | p2pk ↦ []
  | unknown ↦ []
]

-- `verifyP2PKH` once the hash and the two parts of the unlocking script are there.
verify_parts : ⦃h : Hasher⦄ ⦃curve : Curve⦄ → Bytes → Bytes → Bytes → Bytes → Option Bool
verify_parts expected_hash sig_hex pub_key_hex tx_hash = do
  pub_bytes ← hex_to_bytes pub_key_hex
  computed_hash ← Hash160.hash pub_bytes
  if not (eqb computed_hash expected_hash)
      then some false
      else if ltb (length sig_hex) 64
      then none
      else verify pub_key_hex tx_hash
          (record { r = substr sig_hex 0 64; s = substr sig_hex 64 64; der = [] })

-- `Script::verifyP2PKH`; a script without "OP_HASH160 " wraps `npos + 11` to 10.
unfoldable pub verify_p2pkh : ⦃h : Hasher⦄ ⦃curve : Curve⦄ → Bytes → Bytes → Bytes → Option Bool
unfolding between verify_parts
verify_p2pkh lock_script unlock_script tx_hash =
    let start : ℕ = elim (find (codes "OP_HASH160 ") lock_script) [ none ↦ 10 | some i ↦ i + 11 ] in
    elim (find (codes " OP_EQUALVERIFY") lock_script) [
      | none ↦ some false
      | some end ↦ elim (find (codes " ") unlock_script) [
        | none ↦ some false
        | some sp ↦
            verify_parts (between start end lock_script) (take sp unlock_script)
              (drop (sp + 1) unlock_script) tx_hash
      ]
    ]
