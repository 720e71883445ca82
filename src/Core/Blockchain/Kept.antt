-- ===== src/Core/Blockchain/Kept.antt =====
-- src/core/blockchain.cpp, `Blockchain::addBlock`: what every chain keeps.
use rex_coin.Base.{
  ℕ, zero, suc, ◌+◌, ◌≡◌, refl, sym, ap, ◌∙◌, ◌⊎◌, inl, inr, true, some, List, [], ◌∷◌, ◌++◌,
  if◌then◌else◌, length, length-append, get_elem?, get_last?, get_last?-append, Bytes, codes, eqb,
  eqb_refl, eqb_iff, u32, ◌%◌, ◌==◌, ◌&&◌, ltb, Bool-cases, Option-cases,
}
use rex_coin.Base.Decimal.{decimal}
use rex_coin.Base.Int.{ℤ}
use rex_coin.Hasher.{Hasher}
use rex_coin.Core.Transaction.{Transaction}
use rex_coin.Core.Block.{Block, mine}
use rex_coin.Core.Block.Mining.{mine-returned, new_block-IsHashed, new_block_lem}
use rex_coin.Storage.Db.{Db, get_block, get_meta}
use rex_coin.Core.Blockchain.{
  Blockchain, add_block, append_block, before_block, adjust_difficulty, is_valid, serialize_block,
  difficulty_window,
}
use rex_coin.Core.Blockchain.Growth.{
  is_valid-append, before_block-chain, append_block-chain, candidate,
}
use rex_coin.Core.Blockchain.Writes.{record_meta-opened, record_meta-get_block}
use rex_coin.Core.Blockchain.Written.{Written, append_block-Written}

-- A block that stands somewhere in a chain.
abbrev pub InChain : Block → List Block → Type 0
InChain b chain = (i : ℕ) × (get_elem? chain i ≡ some b)

-- The database gives a block of the chain under the hash of `b`.
abbrev pub IsStored : List Block → Db → Block → Type 0
IsStored chain db b =
    (b' : Block) × InChain b' chain
    × (b'.hash ≡ b.hash)
    × (get_block b.hash db ≡ some (serialize_block b'))

-- What holds of every chain that the program makes.
pub record Kept ⦃h : Hasher⦄ (c : Blockchain) : Type 0 where
  pub opened : c.db.opened ≡ true
  pub valid : is_valid c ≡ true
  pub stored : (b : Block) → InChain b c.chain → IsStored c.chain c.db b
  pub height : get_meta (codes "height") c.db ≡ some (decimal (length c.chain))
  pub best :
      (last : Block) × (get_last? c.chain ≡ some last)
      × (get_meta (codes "bestHash") c.db ≡ some last.hash)

pub get_elem?-append_old :
    (xs : List Block) (i : ℕ) (x y : Block)
    → get_elem? xs i ≡ some x
    → get_elem? (xs ++ y ∷ []) i ≡ some x
get_elem?-append_old [] i x y e = absurd (cc e)
get_elem?-append_old (z ∷ xs) zero x y e = e
get_elem?-append_old (z ∷ xs) (suc i) x y e = get_elem?-append_old xs i x y e

pub get_elem?-append_last :
    (xs : List Block) (y : Block) → get_elem? (xs ++ y ∷ []) (length xs) ≡ some y
get_elem?-append_last [] y = refl
get_elem?-append_last (z ∷ xs) y = get_elem?-append_last xs y

get_elem?-append_or :
    (xs : List Block) (i : ℕ) (x y : Block)
    → get_elem? (xs ++ y ∷ []) i ≡ some x
    → (get_elem? xs i ≡ some x) ⊎ (x ≡ y)
get_elem?-append_or [] zero x y e = inr (cc e)
get_elem?-append_or [] (suc i) x y e = absurd (cc e)
get_elem?-append_or (z ∷ xs) zero x y e = inl e
get_elem?-append_or (z ∷ xs) (suc i) x y e = get_elem?-append_or xs i x y e

-- One block more in the chain and in the database.
module _ (b : Block) (c c' : Blockchain) (w : Written b (length c.chain + 1) c c') where
  IsStored-Written :
      (x : Block)
      → ((y : Block) → InChain y c.chain → IsStored c.chain c.db y)
      → InChain x (c.chain ++ b ∷ [])
      → IsStored (c.chain ++ b ∷ []) c'.db x
  IsStored-Written x before (i, at_i) = elim (Bool-cases (eqb b.hash x.hash)) [
    | inl same ↦ (
      b,
      (length c.chain, get_elem?-append_last c.chain b),
      (eqb_iff b.hash x.hash).0 same,
      w.blocks x.hash ∙ rw same refl,
    )
    | inr other ↦ elim (get_elem?-append_or c.chain i x b at_i) [
      | inr new ↦ absurd (let e = rw new at other in let r = eqb_refl b.hash in cc)
      | inl old ↦
          let (b', (j, at_j), hash, found) = before x (i, old) in
          (
            b',
            (j, get_elem?-append_old c.chain j b' b at_j),
            hash,
            w.blocks x.hash ∙ rw other found,
          )
    ]
  ]

module _ ⦃h : Hasher⦄ where
  -- What `addBlock` has done when it returns.
  pub add_block-cases :
      (fuel : ℕ) (now block_time : ℤ) (txs : List Transaction) (c c' : Blockchain)
      → add_block fuel now block_time txs c ≡ some c'
      → (last : Block) × (b : Block) × (get_last? c.chain ≡ some last)
        × (mine fuel (candidate now block_time txs c last) ≡ some b)
        × (c' ≡ append_block b (before_block now c))
  unfolding add_block
  add_block-cases fuel now block_time txs c c' e =
      let same = before_block-chain now c in
      elim (Option-cases (get_last? c.chain)) [
        | inl empty ↦ absurd (cc (rw (add_block, same, empty) at e))
        | inr (last, l) ↦ elim (Option-cases (mine fuel (candidate now block_time txs c last))) [
          | inl spent ↦ absurd (cc (rw (add_block, same, l, spent) at e))
          | inr (b, mined) ↦
              let made : append_block b (before_block now c) ≡ c' =
                cc (rw (add_block, same, l, mined) at e) in
              (last, b, l, mined, sym made)
        ]
      ]

  before_block-opened :
      (now : ℤ) (c : Blockchain) → c.db.opened ≡ true → (before_block now c).db.opened ≡ true
  unfolding before_block adjust_difficulty
  before_block-opened now c up =
      elim (Bool-cases (length c.chain % difficulty_window == 0 && ltb 0 (length c.chain))) [
        | inl due ↦ rw (before_block, due) (record_meta-opened _ up _ _)
        | inr not_yet ↦ rw (before_block, not_yet) up
      ]

  before_block-get_block :
      (now : ℤ) (c : Blockchain) (hash : Bytes)
      → c.db.opened ≡ true
      → get_block hash (before_block now c).db ≡ get_block hash c.db
  unfolding before_block adjust_difficulty
  before_block-get_block now c hash up =
      elim (Bool-cases (length c.chain % difficulty_window == 0 && ltb 0 (length c.chain))) [
        | inl due ↦ rw (before_block, due) (record_meta-get_block _ up _ _ hash)
        | inr not_yet ↦ rw (before_block, not_yet) refl
      ]

  -- What `addBlock` writes, from the chain before it.
  add_block-Written :
      (now : ℤ) (b : Block) (c : Blockchain)
      → c.db.opened ≡ true
      → Written b (length c.chain + 1) c (append_block b (before_block now c))
  add_block-Written now b c up =
      let w = append_block-Written b (before_block now c) (before_block-opened now c up) in
      let same = ap length (before_block-chain now c) in
      record {
        opened = w.opened;
        blocks = λ hash.
            w.blocks hash
            ∙ ap (λ o. if eqb b.hash hash then some (serialize_block b) else o)
                (before_block-get_block now c hash up);
        height = w.height ∙ ap (λ n. some (decimal (n + 1))) same;
        best = w.best;
      }

  pub Kept-add_block :
      (fuel : ℕ) (now block_time : ℤ) (txs : List Transaction) (c c' : Blockchain)
      → Kept c
      → add_block fuel now block_time txs c ≡ some c'
      → Kept c'
  Kept-add_block fuel now block_time txs c c' k e =
      let (last, b, l, mined, made) = add_block-cases fuel now block_time txs c c' e in
      let (ok, same) =
        mine-returned fuel (candidate now block_time txs c last) b
          (new_block-IsHashed block_time _ _ txs _) mined in
      let parts = new_block_lem block_time (u32 (length c.chain)) last.hash txs _ in
      let grown : c'.chain ≡ c.chain ++ b ∷ [] =
        ap (λ (x : Blockchain). x.chain) made
        ∙ append_block-chain b (before_block now c)
        ∙ ap (λ bs. bs ++ b ∷ []) (before_block-chain now c) in
      let w : Written b (length c.chain + 1) c c' = rw made (add_block-Written now b c k.opened) in
      record {
        opened = w.opened;
        valid = is_valid-append c c' last b k.valid grown l ok (same.previous_hash ∙ parts.1);
        stored = λ x here. rw grown (IsStored-Written b c c' w x k.stored (rw grown at here));
        height =
            w.height
            ∙ ap (λ n. some (decimal n)) (sym (ap length grown ∙ length-append c.chain (b ∷ [])));
        best = (b, rw grown (get_last?-append c.chain b), w.best);
      }
