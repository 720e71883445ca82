-- ===== src/Crypto/Base58/RoundTrip.antt =====
-- src/crypto/base58.cpp: `decode` after `encode`.
use rex_coin.Base.{
  ℕ, zero, suc, ◌+◌, ◌*◌, ◌^◌, ◌<◌, ◌≡◌, refl, ap, sym, ◌∙◌, ◌⊎◌, inl, inr, Bool, true, false, not,
  ◌&&◌, some, List, [], ◌∷◌, ◌++◌, arith, All, length, ◌==◌, replicate, if◌then◌else◌, Bytes,
  IsByte, Bool-cases,
}
use mathlib.Core.List.{append-nil}
use rex_coin.Crypto.Base58.{
  count_leading, push_quotient, divide, digits_loop, letters, reverse_onto, encode, add_digit,
  decode_loop, decode,
}
use rex_coin.Crypto.Base58.Positional.{
  horner_256, horner_58, little_58, IsLean, IsTopped, horner_256-le, horner_256_injective,
  horner_58-reverse_onto, reverse_onto-append, reverse_onto-reverse_onto, reverse_onto-All,
  reverse-IsLean,
}
use rex_coin.Crypto.Base58.Letters.{find_letter-get_or, letter_one}
use rex_coin.Crypto.Base58.Digits.{IsNumber, digits_loop-IsDigits, horner_256-lt}
use rex_coin.Crypto.Base58.MulAdd.{IsBytes, add_digit_empty, add_digit-IsBytes}

letters-reverse_onto :
    (acc ds : List ℕ) → letters (reverse_onto acc ds) ≡ reverse_onto (letters acc) (letters ds)
unfolding letters reverse_onto
letters-reverse_onto acc [] = refl
letters-reverse_onto acc (d ∷ ds) = letters-reverse_onto (d ∷ acc) ds

replicate-shift : (n c : ℕ) (s : Bytes) → replicate n c ++ (c ∷ s) ≡ c ∷ (replicate n c ++ s)
replicate-shift zero c s = refl
replicate-shift (suc n) c s = ap (◌∷◌ c) (replicate-shift n c s)

reverse_onto-replicate :
    (acc : Bytes) (n c : ℕ) → reverse_onto acc (replicate n c) ≡ replicate n c ++ acc
unfolding reverse_onto
reverse_onto-replicate acc zero c = refl
reverse_onto-replicate acc (suc n) c =
    reverse_onto-replicate (c ∷ acc) n c ∙ replicate-shift n c acc

-- The text that `encode` makes of some digits and a number of zeros.
abbrev text_of : ℕ → List ℕ → Bytes
text_of zeros ds = replicate zeros b'1' ++ letters (reverse_onto [] ds)

encode-text_of :
    (bs : Bytes) → encode bs ≡ text_of (count_leading 0 bs) (digits_loop (2 * length bs) bs)
unfolding encode letters
encode-text_of bs =
    let ds = digits_loop (2 * length bs) bs in
    reverse_onto-append [] (letters ds) (replicate (count_leading 0 bs) b'1')
    ∙ reverse_onto-replicate (reverse_onto [] (letters ds)) (count_leading 0 bs) b'1'
    ∙ ap (λ t. replicate (count_leading 0 bs) b'1' ++ t) (sym (letters-reverse_onto [] ds))

count_leading-replicate :
    (n c : ℕ) (s : Bytes) → count_leading c (replicate n c ++ s) ≡ n + count_leading c s
unfolding count_leading
count_leading-replicate zero c s = omega arith
count_leading-replicate (suc n) c s = ground (arith, count_leading-replicate n c s)

count_leading-letters :
    (ms : List ℕ) → All (λ d. d < 58) ms → IsLean ms → count_leading b'1' (letters ms) ≡ 0
unfolding count_leading letters
count_leading-letters [] below lean = refl
count_leading-letters (m ∷ ms) below lean = rw (letter_one m below.0 lean)

decode_loop_ones : (n : ℕ) (s : Bytes) → decode_loop [] (replicate n b'1' ++ s) ≡ decode_loop [] s
unfolding decode_loop
decode_loop_ones zero s = refl
decode_loop_ones (suc n) s =
    rw (find_letter-get_or 0 (omega arith), decode_loop, add_digit_empty 0 (omega arith))
      (decode_loop_ones n s)

-- The loop reads the digits of a number.
decode_loop-letters :
    (n : ℕ) (bs : Bytes) (ms : List ℕ)
    → All (λ d. d < 58) ms
    → IsBytes n bs
    → (result : Bytes) × (decode_loop bs (letters ms) ≡ some result)
      × IsBytes (horner_58 n ms) result
unfolding decode_loop letters horner_58
decode_loop-letters n bs [] below i = (bs, refl, i)
decode_loop-letters n bs (m ∷ ms) below i =
    let (result, e, j) =
      decode_loop-letters (n * 58 + m) (add_digit bs m) ms below.1
        (add_digit-IsBytes n bs m below.0 i) in
    (result, rw (find_letter-get_or m below.0, decode_loop) e, j)

-- Nothing but zeros.
pub only_zeros : Bytes → Bool
only_zeros [] = true
only_zeros (b ∷ bs) = b == 0 && only_zeros bs

-- The zeros in front, and the rest.
strip :
    (bs : Bytes)
    → All IsByte bs
    → (rest : Bytes) × (bs ≡ replicate (count_leading 0 bs) 0 ++ rest)
      × All IsByte rest
      × IsLean rest
      × (horner_256 0 bs ≡ horner_256 0 rest)
      × (only_zeros bs ≡ true ⊎ 0 < horner_256 0 bs)
unfolding count_leading horner_256 only_zeros
strip [] all = ([], refl, tt, tt, refl, inl refl)
strip (b ∷ bs) all = elim (Bool-cases (b == 0)) [
  | inl nil ↦
      let (rest, e, bytes, lean, v, z) = strip bs all.1 in
      let e0 : 0 ≡ b = ground arith in
      let start : 0 * 256 + b ≡ 0 = ground arith in
      rw (nil, start) (rest, (λ i. (sym e0) i ∷ e i), bytes, lean, v, z)
  | inr more ↦
      rw more (
        b ∷ bs,
        refl,
        all,
        ground arith,
        refl,
        inr (ground (arith, horner_256-le (0 * 256 + b) bs)),
      )
]

-- Reversing twice.
reversed-value : (ds : List ℕ) → horner_58 0 (reverse_onto [] ds) ≡ little_58 ds
unfolding little_58 reverse_onto
reversed-value ds =
    sym (horner_58-reverse_onto [] (reverse_onto [] ds))
    ∙ ap little_58 (reverse_onto-reverse_onto [] [] ds ∙ append-nil ds)

decode-text_of :
    (zeros : ℕ) (ds : List ℕ)
    → All (λ d. d < 58) ds
    → IsTopped ds
    → (result : Bytes) × (decode (text_of zeros ds) ≡ some (replicate zeros 0 ++ result))
      × IsBytes (little_58 ds) result
unfolding decode reverse_onto horner_256
decode-text_of zeros ds below topped =
    let ms = reverse_onto [] ds in
    let below' = reverse_onto-All (λ d. d < 58) [] ds tt below in
    let lean = reverse-IsLean [] ds topped (inr tt) in
    let start : IsBytes 0 [] = record { bytes = tt; lean = tt; value = refl } in
    let (result, e, i) = decode_loop-letters 0 [] ms below' start in
    let count : count_leading b'1' (text_of zeros ds) ≡ zeros =
      count_leading-replicate zeros b'1' (letters ms)
      ∙ ap (λ (n : ℕ). zeros + n) (count_leading-letters ms below' lean)
      ∙ omega arith in
    let v = i.value in
    (
      result,
      rw (decode_loop_ones zeros (letters ms), e, count),
      record { bytes = i.bytes; lean = i.lean; value = v ∙ reversed-value ds },
    )

-- A number other than 0, or no bytes at all.
decode-encode_number : (bs : Bytes) → All IsByte bs → IsNumber bs → decode (encode bs) ≡ some bs
decode-encode_number bs all number =
    let (rest, e, bytes, lean, same, z) = strip bs all in
    let fits : horner_256 0 bs < 58 ^ (2 * length bs) =
      let k : 0 + 2 * length bs ≡ 2 * length bs = omega arith in
      rw k at (horner_256-lt 0 0 bs (omega arith) all) in
    let ds = digits_loop-IsDigits (2 * length bs) bs all number fits in
    let (result, d, i) =
      decode-text_of (count_leading 0 bs) (digits_loop (2 * length bs) bs) ds.below ds.topped in
    let eq : result ≡ rest =
      horner_256_injective result rest i.bytes bytes i.lean lean (i.value ∙ ds.value ∙ same) in
    ap decode (encode-text_of bs)
    ∙ d
    ∙ ap (λ r. some (replicate (count_leading 0 bs) 0 ++ r)) eq
    ∙ ap some (sym e)

divide_zeros : (bs : Bytes) → only_zeros bs ≡ true → divide 0 [] bs ≡ ([], 0)
unfolding divide only_zeros push_quotient
divide_zeros [] z = refl
divide_zeros (b ∷ bs) z = let e : b ≡ 0 = ground arith in rw e (divide_zeros bs (ground arith))

zeros-replicate : (bs : Bytes) → only_zeros bs ≡ true → bs ≡ replicate (count_leading 0 bs) 0
unfolding only_zeros count_leading
zeros-replicate [] z = refl
zeros-replicate (b ∷ bs) z =
    let e : b ≡ 0 = ground arith in
    let hit : (b == 0) ≡ true = ground arith in
    rw hit (λ i. e i ∷ zeros-replicate bs (ground arith) i)

digits_loop_zeros :
    (b : ℕ) (bs : Bytes)
    → only_zeros (b ∷ bs) ≡ true
    → digits_loop (2 * length (b ∷ bs)) (b ∷ bs) ≡ 0 ∷ []
unfolding digits_loop
digits_loop_zeros b bs z =
    let e : 2 * length (b ∷ bs) ≡ suc (2 * length bs + 1) = omega arith in
    rw (e, divide_zeros (b ∷ bs) z)

decode-ones : (n : ℕ) → decode (replicate n b'1') ≡ some (replicate n 0)
unfolding decode decode_loop count_leading
decode-ones n =
    let ones : Bytes = replicate n b'1' in
    let e : ones ++ [] ≡ ones = append-nil ones in
    let count = rw e at (count_leading-replicate n b'1' []) in
    let none_left : n + 0 ≡ n = omega arith in
    let loop = rw e at (decode_loop_ones n []) in
    rw (loop, count, none_left, append-nil {A = ℕ} (replicate n 0))

text_of_zero : (n : ℕ) → text_of n (0 ∷ []) ≡ replicate (suc n) b'1'
unfolding reverse_onto letters
text_of_zero n = replicate-shift n b'1' [] ∙ ap (◌∷◌ b'1') (append-nil (replicate n b'1'))

decode-encode_zeros :
    (b : ℕ) (bs : Bytes) → only_zeros (b ∷ bs) ≡ true → decode (encode (b ∷ bs)) ≡ some (0 ∷ b ∷ bs)
decode-encode_zeros b bs z =
    let n = count_leading 0 (b ∷ bs) in
    ap decode (encode-text_of (b ∷ bs) ∙ ap (text_of n) (digits_loop_zeros b bs z) ∙ text_of_zero n)
    ∙ decode-ones (suc n)
    ∙ ap (λ s. some (0 ∷ s)) (sym (zeros-replicate (b ∷ bs) z))

-- Some byte is not 0, or there is none.
abbrev pub has_value : Bytes → Bool
has_value [] = true
has_value (b ∷ bs) = not (only_zeros (b ∷ bs))

-- `decode` reads back every sequence of bytes that `encode` writes, with one exception: a sequence of
-- zeros alone, which comes back with one zero more.
pub decode-encode :
    (bs : Bytes) → All IsByte bs → decode (encode bs) ≡ some (if has_value bs then bs else 0 ∷ bs)
decode-encode [] all = decode-encode_number [] all (inl refl)
decode-encode (b ∷ bs) all =
    let (rest, e, bytes, lean, same, cases) = strip (b ∷ bs) all in
    elim (Bool-cases (only_zeros (b ∷ bs))) [
      | inl z ↦ rw z (decode-encode_zeros b bs z)
      | inr some_digit ↦ rw some_digit (
          decode-encode_number (b ∷ bs) all
            (elim cases [ inl z ↦ absurd (cc (z, some_digit)) | inr positive ↦ inr positive ]))
    ]

-- With a first byte other than 0 there is no exception.
pub decode-encode_head :
    (b : ℕ) (bs : Bytes) → 0 < b → All IsByte (b ∷ bs) → decode (encode (b ∷ bs)) ≡ some (b ∷ bs)
unfolding only_zeros
decode-encode_head b bs positive all =
    let digit : only_zeros (b ∷ bs) ≡ false = ground arith in
    decode-encode (b ∷ bs) all ∙ rw digit refl
