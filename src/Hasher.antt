-- ===== src/Hasher.antt =====
-- The interface of a hash that returns a hex digest, as `SHA256::hash` does: the components that
-- hash take it as an instance, and Crypto.Sha256.Digest fills it.
use rex_coin.Base.{ℕ, ◌≡◌, Bytes, length, All, ◌≤◌, ◌⊎◌}

-- A lower-case hex digit.
abbrev pub IsHexDigit : ℕ → Type 0
IsHexDigit c = ((48 ≤ c) × (c ≤ 57)) ⊎ ((97 ≤ c) × (c ≤ 102))

pub record Hasher : Type 0 where
  pub hash : Bytes → Bytes
  pub length-hash : (s : Bytes) → length (hash s) ≡ 64
  pub hash-IsHexDigit : (s : Bytes) → All IsHexDigit (hash s)

-- `SHA256::hash(s)`
abbrev pub sha256 : ⦃h : Hasher⦄ → Bytes → Bytes
sha256 ⦃h⦄ s = h.hash s

-- `SHA256::hash(SHA256::hash(s))`
abbrev pub double_sha256 : ⦃h : Hasher⦄ → Bytes → Bytes
double_sha256 s = sha256 (sha256 s)
