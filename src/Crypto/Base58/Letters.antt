-- ===== src/Crypto/Base58/Letters.antt =====
-- src/crypto/base58.cpp, `ALPHABET`: each letter against its place.
use rex_coin.Base.{
  ℕ, zero, suc, ◌≡◌, ◌<◌, refl, Bool, true, false, ◌&&◌, Option, none, some, arith, ltb, ◌==◌,
  get_or, if◌then◌else◌,
}
use rex_coin.Crypto.Base58.{alphabet, find_letter}

is_at : Option ℕ → ℕ → Bool
is_at none d = false
is_at (some i) d = i == d

is_one : ℕ → ℕ → Bool
is_one c d = if c == b'1' then d == 0 else ltb 0 d

-- Each letter is found at its digit, and only the digit 0 has the letter 1.
letter_test : ℕ → Bool
letter_test d =
    is_at (find_letter (get_or alphabet d 0) alphabet) d && is_one (get_or alphabet d 0) d

-- The letters of the digits under a bound pass.
letters_pass : ℕ → Bool
letters_pass zero = true
letters_pass (suc bound) = if letters_pass bound then letter_test bound else false

letter_table : letters_pass 58 ≡ true
unfolding letters_pass letter_test is_at is_one find_letter
letter_table = refl

letters_pass-lt : (bound d : ℕ) → d < bound → letters_pass bound ≡ true → letter_test d ≡ true
unfolding letters_pass
letters_pass-lt zero d below passed = absurd (omega arith)
letters_pass-lt (suc bound) d below passed = ground (arith, letters_pass-lt bound d)

both : (a b : Bool) → (a && b) ≡ true → (a ≡ true) × (b ≡ true)
both true true h = (refl, refl)
both true false h = cc
both false b h = cc

is_at_sound : (o : Option ℕ) (d : ℕ) → is_at o d ≡ true → o ≡ some d
unfolding is_at
is_at_sound none d h = cc
is_at_sound (some i) d h = ground arith

is_one_sound : (c d : ℕ) → is_one c d ≡ true → 0 < d → (c == b'1') ≡ false
unfolding is_one
is_one_sound c d h p = ground arith

letter_lem :
    (d : ℕ)
    → d < 58
    → (is_at (find_letter (get_or alphabet d 0) alphabet) d ≡ true)
      × (is_one (get_or alphabet d 0) d ≡ true)
unfolding letter_test
letter_lem d h = both _ _ (letters_pass-lt 58 d h letter_table)

pub find_letter-get_or : (d : ℕ) → d < 58 → find_letter (get_or alphabet d 0) alphabet ≡ some d
find_letter-get_or d h = is_at_sound _ d (letter_lem d h).0

pub letter_one : (d : ℕ) → d < 58 → 0 < d → (get_or alphabet d 0 == b'1') ≡ false
letter_one d h positive = is_one_sound _ d (letter_lem d h).1 positive
