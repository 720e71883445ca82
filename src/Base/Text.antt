-- ===== src/Base/Text.antt =====
-- `std::string` as the list of its bytes: literals, equality, `substr`.
use Prim.Native.Char.{code}
use Prim.Native.String.{String}
use Prim.Native.Nat.{ℕ, ◌<◌}
use mathlib.Core.Path.{◌≡◌, refl}
use mathlib.Core.Logic.{◌↔◌, ◌≢◌}
use mathlib.Core.Bool.{Bool, true, false, ◌&&◌}
use mathlib.Core.List.{List, [], ◌∷◌, ◌++◌}
use native.Mathlib.Omega.{arith}
use rex_coin.Base.Tests.{◌==◌}
use rex_coin.Base.Lists.{take, drop}

abbrev pub Bytes : Type 0
Bytes = List ℕ

-- A literal of the source, all of whose characters are ASCII.
abbrev pub codes : String → Bytes
codes String.[] = []
codes (String.◌∷◌ c s) = code c ∷ codes s

-- `a == b` on strings.
unfoldable pub eqb : Bytes → Bytes → Bool
eqb [] [] = true
eqb (x ∷ xs) (y ∷ ys) = x == y && eqb xs ys
eqb _ _ = false

pub eqb_refl : (a : Bytes) → eqb a a ≡ true
unfolding eqb
eqb_refl [] = refl
eqb_refl (x ∷ xs) = ground (arith, eqb_refl xs)

pub eqb→eq : (a b : Bytes) → eqb a b ≡ true → a ≡ b
unfolding eqb
eqb→eq [] [] h = refl
eqb→eq [] (y ∷ ys) h = cc
eqb→eq (x ∷ xs) [] h = cc
eqb→eq (x ∷ xs) (y ∷ ys) h = ground (arith, eqb→eq xs ys)

pub eqb_iff : (a b : Bytes) → (eqb a b ≡ true) ↔ (a ≡ b)
eqb_iff a b = (eqb→eq a b, λ e. cc (e, eqb_refl a))

-- `s.substr(from, count)`, for a `from` within the string.
abbrev pub substr : Bytes → ℕ → ℕ → Bytes
substr s from count = take count (drop from s)

-- Every element is a byte.
abbrev pub IsByte : ℕ → Type 0
IsByte b = b < 256

-- Strings that begin with different bytes differ.
pub eqb-head_ne : (c c' : ℕ) (s s' : Bytes) → c ≢ c' → eqb (c ∷ s) (c' ∷ s') ≡ false
unfolding eqb
eqb-head_ne c c' s s' ne = ground arith

-- A common head makes no difference.
pub eqb-append_left : (p s s' : Bytes) → eqb (p ++ s) (p ++ s') ≡ eqb s s'
unfolding eqb
eqb-append_left [] s s' = refl
eqb-append_left (c ∷ p) s s' = ground (arith, eqb-append_left p s s')
