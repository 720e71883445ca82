-- ===== src/Network/Frame.antt =====
-- src/network/node.cpp: the frames in which the messages of the nodes travel. A `char` is a number
-- below 256; the bytes of the length stand at different bits, so that `|` is a sum.
pub mod RoundTrip
use rex_coin.Base.{
  ℕ, zero, suc, ◌+◌, ◌-◌, ◌*◌, ◌/◌, ◌%◌, ◌^◌, Bool, true, false, ◌&&◌, Option, none, some, List, [],
  ◌∷◌, ◌++◌, ltb, ◌==◌, length, take, drop, get_or, replicate, if◌then◌else◌, Bytes, codes, u32,
  substr,
}
use rex_coin.Base.Decimal.{decimal}
use rex_coin.Hasher.{Hasher, sha256}

-- `Node::makePeerId`
pub make_peer_id : ⦃h : Hasher⦄ → Bytes → ℕ → Bytes
make_peer_id ip port = take 16 (sha256 (ip ++ codes ":" ++ decimal port))

-- `typeFixed.resize(16,' ')`
unfoldable pub resize : ℕ → Bytes → Bytes
resize n s = take n s ++ replicate (n - length s) b' '

-- The four bytes of a length.
unfoldable pub length_bytes : ℕ → Bytes
length_bytes len = len % 256 ∷ len / 256 % 256 ∷ len / 65536 % 256 ∷ len / 16777216 % 256 ∷ []

-- `Node::frame`
unfoldable pub frame : Bytes → Bytes → Bytes
frame type payload =
    let body : Bytes = resize 16 type ++ payload in length_bytes (u32 (length body)) ++ body

-- The length that the first four bytes say.
unfoldable pub said_length : Bytes → ℕ
said_length raw =
    get_or raw 0 0 + get_or raw 1 0 * 256 + get_or raw 2 0 * 65536 + get_or raw 3 0 * 16777216

-- `while (!type.empty() && type.back()==' ') type.pop_back();`
unfoldable pub trim : Bytes → Bytes
trim [] = []
trim (c ∷ s) = elim (trim s) [ [] ↦ if c == b' ' then [] else c ∷ [] | (c' ∷ s') ↦ c ∷ c' ∷ s' ]

-- `Node::unframe`: the type and the payload; `none` for false. The sum and the difference are of
-- 32 bits.
unfoldable pub unframe : Bytes → Option (Bytes × Bytes)
unframe raw =
    if ltb (length raw) 20
    then none
    else let len = said_length raw in
      if ltb (length raw) (u32 (4 + len))
      then none
      else some (trim (substr raw 4 16), substr raw 20 (u32 (2 ^ 32 + len - 16)))
