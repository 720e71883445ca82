-- ===== src/Network/Frame/RoundTrip.antt =====
-- src/network/node.cpp: `unframe` after `frame`.
use rex_coin.Base.{
  ℕ, zero, suc, ◌+◌, ◌-◌, ◌^◌, ◌≤◌, ◌<◌, ◌≡◌, ◌≢◌, refl, ap, sym, ◌∙◌, false, some, [], ◌∷◌, ◌++◌,
  arith, ltb, ◌==◌, length, length-append, length-take, length-replicate, take, drop, take-append,
  drop-append, replicate, Bytes, get_last?, u32, substr,
}
use rex_coin.Network.Frame.{resize, length_bytes, frame, said_length, trim, unframe}

-- A type that a frame carries: up to 16 characters, of which the last is no space.
pub record IsType (type : Bytes) : Type 0 where
  pub short : length type ≤ 16
  pub unpadded : get_last? type ≢ some b' '

trim-spaces : (n : ℕ) → trim (replicate n b' ') ≡ []
unfolding trim
trim-spaces zero = refl
trim-spaces (suc n) = rw (trim, trim-spaces n)

not_space : (c : ℕ) → c ≢ b' ' → (c == b' ') ≡ false
not_space c ne = ground arith

trim-append : (s : Bytes) (n : ℕ) → get_last? s ≢ some b' ' → trim (s ++ replicate n b' ') ≡ s
unfolding trim
trim-append [] n ne = trim-spaces n
trim-append (c ∷ []) n ne =
    let other : (c == b' ') ≡ false = not_space c (λ e. ne (ap some e)) in
    rw (trim, trim-spaces n, other)
trim-append (c ∷ c' ∷ s) n ne = rw (trim, trim-append (c' ∷ s) n ne)

take-length : (s : Bytes) (n : ℕ) → length s ≤ n → take n s ≡ s
take-length [] zero h = refl
take-length [] (suc n) h = refl
take-length (c ∷ s) zero h = absurd (omega arith)
take-length (c ∷ s) (suc n) h = ap (◌∷◌ c) (take-length s n (omega arith))

-- A type padded to 16 characters.
pub length-resize : (n : ℕ) (s : Bytes) → length (resize n s) ≡ n
unfolding resize
length-resize n s =
    let e = length-append (take n s) (replicate (n - length s) b' ') in
    let e' = length-take n s in
    let e'' = length-replicate {A = ℕ} (n - length s) b' ' in omega arith

trim-resize : (type : Bytes) → IsType type → trim (resize 16 type) ≡ type
unfolding resize
trim-resize type h =
    ap (λ (s : Bytes). trim (s ++ replicate (16 - length type) b' ')) (take-length type 16 h.short)
    ∙ trim-append type (16 - length type) h.unpadded

-- The length comes back from its four bytes.
pub said_length-length_bytes :
    (len : ℕ) (s : Bytes) → len < 2 ^ 32 → said_length (length_bytes len ++ s) ≡ len
unfolding said_length length_bytes
said_length-length_bytes len s h = omega arith

length-message :
    (len : ℕ) (fixed payload : Bytes)
    → length fixed ≡ 16
    → length (length_bytes len ++ (fixed ++ payload)) ≡ 4 + (16 + length payload)
unfolding length_bytes
length-message len fixed payload e = let e' = length-append fixed payload in omega arith

substr-fixed :
    (len : ℕ) (fixed payload : Bytes)
    → length fixed ≡ 16
    → substr (length_bytes len ++ (fixed ++ payload)) 4 16 ≡ fixed
unfolding length_bytes
substr-fixed len fixed payload e =
    ap (λ (n : ℕ). take n (fixed ++ payload)) (sym e) ∙ take-append fixed payload

substr-payload :
    (len : ℕ) (fixed payload : Bytes)
    → length fixed ≡ 16
    → substr (length_bytes len ++ (fixed ++ payload)) 20 (length payload) ≡ payload
unfolding length_bytes
substr-payload len fixed payload e =
    ap (λ (n : ℕ). take (length payload) (drop n (fixed ++ payload))) (sym e)
    ∙ ap (take (length payload)) (drop-append fixed payload)
    ∙ take-length payload (length payload) (omega arith)

-- `unframe` of any header before 16 characters and a payload.
unframe_at :
    (len : ℕ) (fixed payload : Bytes)
    → length fixed ≡ 16
    → len ≡ 16 + length payload
    → len < 2 ^ 32 - 4
    → unframe (length_bytes len ++ (fixed ++ payload)) ≡ some (trim fixed, payload)
unfolding unframe
unframe_at len fixed payload e16 e h =
    let body : Bytes = fixed ++ payload in
    let raw : Bytes = length_bytes len ++ body in
    let size : length raw ≡ 4 + len =
      length-message len fixed payload e16 ∙ ap (λ (n : ℕ). 4 + n) (sym e) in
    let said : said_length raw ≡ len = said_length-length_bytes len body (omega arith) in
    let long : ltb (length raw) 20 ≡ false = ground arith in
    let complete : ltb (length raw) (u32 (4 + len)) ≡ false = ground arith in
    let rest : u32 (2 ^ 32 + len - 16) ≡ length payload = omega arith in
    rw (
      long,
      said,
      complete,
      rest,
      substr-fixed len fixed payload e16,
      substr-payload len fixed payload e16,
    )

-- `unframe` reads back the type and the payload of what `frame` writes, for a payload of less than
-- 4 GB and a type that fits.
pub unframe-frame :
    (type payload : Bytes)
    → IsType type
    → length payload < 2 ^ 32 - 20
    → unframe (frame type payload) ≡ some (type, payload)
unfolding frame
unframe-frame type payload h small =
    let len = length-append (resize 16 type) payload in
    let fixed = length-resize 16 type in
    let fits : u32 (length (resize 16 type ++ payload)) ≡ 16 + length payload = omega arith in
    rw fits (
      unframe_at (16 + length payload) (resize 16 type) payload fixed refl (omega arith)
      ∙ ap (λ (t : Bytes). some (t, payload)) (trim-resize type h))
