-- ===== src/Base/Decimal.antt =====
-- `std::to_string` on an unsigned number, `std::stoul`, and how they relate.
use native.Mathlib.Nat.{pow-suc}
use rex_coin.Base.Tests.{lt→ltb, ltb, leb, ◌==◌, if◌then◌else◌, Bool-cases}
use rex_coin.Base.Lists.{All, All-append, length, length-append}
use rex_coin.Base.Text.{Bytes}
use Prim.Native.Nat.{ℕ, zero, suc, ◌+◌, ◌-◌, ◌*◌, ◌/◌, ◌%◌, ◌^◌, ◌≤◌, ◌<◌}
use mathlib.Core.Path.{◌≡◌, refl, ap, sym, ◌∙◌}
use mathlib.Core.Logic.{inl, inr}
use mathlib.Core.Bool.{Bool, true, false, ◌&&◌, ◌||◌}
use mathlib.Core.Option.{Option, none, some}
use mathlib.Core.List.{[], ◌∷◌, ◌++◌}
use native.Mathlib.Omega.{arith}

decimal_fuel : ℕ → ℕ → Bytes
decimal_fuel zero n = []
decimal_fuel (suc f) n =
    let rest = decimal_fuel f (n / 10) ++ (48 + n % 10) ∷ [] in
    if ltb n 10 then (48 + n) ∷ [] else rest

-- `std::to_string(n)`
unfoldable pub decimal : ℕ → Bytes
unfolding decimal_fuel
decimal n = decimal_fuel (suc n) n

-- The number that a run of digits stands for, after `acc`.
pub read_digits : ℕ → Bytes → ℕ
read_digits acc [] = acc
read_digits acc (c ∷ s) = read_digits (acc * 10 + (c - 48)) s

read_digits-append :
    (acc : ℕ) (s : Bytes) (c : ℕ)
    → read_digits acc (s ++ c ∷ []) ≡ read_digits acc s * 10 + (c - 48)
unfolding read_digits
read_digits-append acc [] c = refl
read_digits-append acc (x ∷ s) c = read_digits-append (acc * 10 + (x - 48)) s c

read_digits-decimal_fuel : (f n : ℕ) → n < f → read_digits 0 (decimal_fuel f n) ≡ n
unfolding decimal_fuel
read_digits-decimal_fuel zero n h = absurd (omega arith)
read_digits-decimal_fuel (suc f) n h = elim (Bool-cases (ltb n 10)) [
  | inl small ↦ rw small (unfold read_digits in omega arith)
  | inr large ↦
      rw (large, read_digits-append 0 (decimal_fuel f (n / 10)) (48 + n % 10))
        (let ih = read_digits-decimal_fuel f (n / 10) (ground arith) in omega arith)
]

pub read_digits-decimal : (n : ℕ) → read_digits 0 (decimal n) ≡ n
unfolding decimal
read_digits-decimal n = read_digits-decimal_fuel (suc n) n (omega arith)

-- Two numbers print alike only if they are one.
pub decimal_injective : (m n : ℕ) → decimal m ≡ decimal n → m ≡ n
decimal_injective m n e = sym (read_digits-decimal m) ∙ ap (read_digits 0) e ∙ read_digits-decimal n

abbrev pub IsDigit : ℕ → Type 0
IsDigit c = (48 ≤ c) × (c ≤ 57)

decimal_fuel-IsDigit : (f n : ℕ) → All IsDigit (decimal_fuel f n)
unfolding decimal_fuel
decimal_fuel-IsDigit zero n = tt
decimal_fuel-IsDigit (suc f) n = elim (Bool-cases (ltb n 10)) [
  | inl small ↦ rw small (ground arith)
  | inr large ↦ rw large (
      All-append IsDigit (decimal_fuel f (n / 10)) _ (decimal_fuel-IsDigit f (n / 10))
        (omega arith))
]

pub decimal-IsDigit : (n : ℕ) → All IsDigit (decimal n)
unfolding decimal
decimal-IsDigit n = decimal_fuel-IsDigit (suc n) n

decimal_fuel_head :
    (f n : ℕ) → n < f → 0 < n → (c : ℕ) × (s : Bytes) × (decimal_fuel f n ≡ c ∷ s) × (48 < c)
unfolding decimal_fuel
decimal_fuel_head zero n h p = absurd (omega arith)
decimal_fuel_head (suc f) n h p = elim (Bool-cases (ltb n 10)) [
  | inl small ↦ (48 + n, [], rw small, omega arith)
  | inr large ↦
      let (c, s, e, nonzero) = decimal_fuel_head f (n / 10) (ground arith) (ground arith) in
      (c, s ++ (48 + n % 10) ∷ [], rw (large, e), nonzero)
]

decimal_fuel_enough : (f g n : ℕ) → n < f → n < g → decimal_fuel f n ≡ decimal_fuel g n
unfolding decimal_fuel
decimal_fuel_enough zero g n p q = absurd (omega arith)
decimal_fuel_enough (suc f) zero n p q = absurd (omega arith)
decimal_fuel_enough (suc f) (suc g) n p q = elim (Bool-cases (ltb n 10)) [
  | inl small ↦ rw small
  | inr large ↦ rw (large, decimal_fuel_enough f g (n / 10) (ground arith) (ground arith))
]

-- The last digit stands at the end.
pub decimal_snoc : (a d : ℕ) → 0 < a → d < 10 → decimal (a * 10 + d) ≡ decimal a ++ (48 + d) ∷ []
unfolding decimal decimal_fuel
decimal_snoc a d p digit =
    let large : ltb (a * 10 + d) 10 ≡ false = ground arith in
    let up : (a * 10 + d) / 10 ≡ a = omega arith in
    let last : (a * 10 + d) % 10 ≡ d = omega arith in
    rw (large, up, last, decimal_fuel_enough (a * 10 + d) (suc a) a (omega arith) (omega arith))

-- A number other than 0 is printed without a leading zero.
pub decimal_head : (n : ℕ) → 0 < n → (c : ℕ) × (s : Bytes) × (decimal n ≡ c ∷ s) × (48 < c)
unfolding decimal
decimal_head n p = decimal_fuel_head (suc n) n (omega arith) p

length-decimal_fuel : (f n k : ℕ) → n < 10 ^ suc k → length (decimal_fuel f n) ≤ suc k
unfolding decimal_fuel
length-decimal_fuel zero n k h = omega arith
length-decimal_fuel (suc f) n zero h =
    let small = lt→ltb n 10 (omega arith) in rw small (omega arith)
length-decimal_fuel (suc f) n (suc k) h = elim (Bool-cases (ltb n 10)) [
  | inl small ↦ rw small (omega arith)
  | inr large ↦
      let rest = length-decimal_fuel f (n / 10) k (omega (arith, pow-suc 10 (suc k))) in
      rw (large, length-append (decimal_fuel f (n / 10)) ((48 + n % 10) ∷ [])) (omega arith)
]

-- A number below `10 ^ k` has at most `k` digits.
pub length-decimal : (n k : ℕ) → n < 10 ^ suc k → length (decimal n) ≤ suc k
unfolding decimal
length-decimal n k h = length-decimal_fuel (suc n) n k h

abbrev is_digit : ℕ → Bool
is_digit c = leb 48 c && leb c 57

-- The digits at the head of a string, after `acc`; `std::isspace` and the sign come before.
unfoldable pub leading_digits : ℕ → Bytes → ℕ
leading_digits acc [] = acc
leading_digits acc (c ∷ s) =
    let rest = leading_digits (acc * 10 + (c - 48)) s in if is_digit c then rest else acc

unfoldable pub starts_with_digit : Bytes → Bool
starts_with_digit [] = false
starts_with_digit (c ∷ s) = is_digit c

-- The number at the head of a string, in 64 bits; `none` for the exceptions of `std::stoul`.
unsigned_at : Bool → Bytes → Option ℕ
unfolding leading_digits starts_with_digit
unsigned_at minus s =
    let n = leading_digits 0 s in
    if starts_with_digit s && ltb n (2 ^ 64)
    then some (if minus then (2 ^ 64 - n) % 2 ^ 64 else n)
    else none

-- `std::stoul(s)`: white space, a sign, digits, and then anything.
unfoldable pub stoul : Bytes → Option ℕ
unfolding unsigned_at
stoul [] = none
stoul (c ∷ s) =
    if c == 32 || (leb 9 c && leb c 13)
    then stoul s
    else if c == 43
    then unsigned_at false s
    else if c == 45
    then unsigned_at true s
    else unsigned_at false (c ∷ s)

leading_digits-IsDigit :
    (acc : ℕ) (s : Bytes) → All IsDigit s → leading_digits acc s ≡ read_digits acc s
unfolding leading_digits read_digits
leading_digits-IsDigit acc [] h = refl
leading_digits-IsDigit acc (c ∷ s) h =
    ground (arith, leading_digits-IsDigit (acc * 10 + (c - 48)) s h.1)

decimal_fuel_cons : (f n : ℕ) → n < f → (c : ℕ) × (s : Bytes) × (decimal_fuel f n ≡ c ∷ s)
unfolding decimal_fuel
decimal_fuel_cons zero n h = absurd (omega arith)
decimal_fuel_cons (suc f) n h = elim (Bool-cases (ltb n 10)) [
  | inl small ↦ (48 + n, [], rw small)
  | inr large ↦
      let (c, s, e) = decimal_fuel_cons f (n / 10) (ground arith) in
      (c, s ++ (48 + n % 10) ∷ [], rw (large, e))
]

stoul_digits :
    (c : ℕ) (s : Bytes) (n : ℕ)
    → All IsDigit (c ∷ s)
    → leading_digits 0 (c ∷ s) ≡ n
    → n < 2 ^ 64
    → stoul (c ∷ s) ≡ some n
unfolding stoul starts_with_digit
stoul_digits c s n digits value small = ground arith

-- What `std::to_string` writes: digits, which stand for the number.
pub decimal-cases :
    (n : ℕ)
    → (c : ℕ) × (s : Bytes) × (decimal n ≡ c ∷ s)
      × All IsDigit (c ∷ s)
      × (leading_digits 0 (c ∷ s) ≡ n)
unfolding decimal
decimal-cases n =
    let (c, s, e) = decimal_fuel_cons (suc n) n (omega arith) in
    let digits = rw e at (decimal_fuel-IsDigit (suc n) n) in
    (
      c,
      s,
      e,
      digits,
      leading_digits-IsDigit 0 (c ∷ s) digits
          ∙ (rw e at (read_digits-decimal_fuel (suc n) n (omega arith))),
    )

-- `std::stoul` reads back what `std::to_string` writes.
pub stoul-decimal : (n : ℕ) → n < 2 ^ 64 → stoul (decimal n) ≡ some n
stoul-decimal n h =
    let (c, s, e, digits, value) = decimal-cases n in rw e (stoul_digits c s n digits value h)
