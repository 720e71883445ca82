-- ===== src/Core/Merkle/Proof.antt =====
-- src/core/merkle.cpp: `generateProof` and `verifyProof` against `buildRoot`.
use rex_coin.Base.{
  ℕ, zero, suc, ◌+◌, ◌-◌, ◌*◌, ◌/◌, ◌%◌, ◌≤◌, ◌<◌, ◌≡◌, ◌≢◌, ◌↔◌, refl, ap, sym, ◌∙◌, true, false,
  some, List, [], ◌∷◌, inl, inr, arith, length, get_or, ltb, ◌==◌, if◌then◌else◌, Bytes, eqb,
  eqb_iff, eqb_refl, Bool-cases, Option-cases,
}
use rex_coin.Hasher.{Hasher}
use rex_coin.Core.Merkle.{
  hash_pair, even_out, next_layer, root_loop, build_root, index_of, sibling, proof_loop,
  generate_proof, climb, verify_proof,
}
use rex_coin.Core.Merkle.Layers.{
  length-even_out, get_or-even_out, get_or-next_layer, length-pass, build_root-root_loop,
}

-- The reference way up the tree: the index says on which side the sibling stands.
pub climb_at : ⦃h : Hasher⦄ → ℕ → Bytes → List Bytes → Bytes
climb_at idx current [] = current
climb_at idx current (s ∷ proof) =
    climb_at (idx / 2) (if idx % 2 == 0 then hash_pair current s else hash_pair s current) proof

pub index_of_sound :
    (tx : Bytes) (txs : List Bytes) (i : ℕ)
    → index_of tx txs ≡ some i
    → (i < length txs) × (get_or txs i [] ≡ tx)
unfolding index_of
index_of_sound tx [] i e = cc
index_of_sound tx (x ∷ txs) i e = elim (Bool-cases (eqb x tx)) [
  | inl hit ↦ (ground arith, ground (arith, eqb_iff x tx))
  | inr miss ↦ elim (Option-cases (index_of tx txs)) [
    | inl gone ↦ absurd (ground arith)
    | inr (j, found) ↦ let ih = index_of_sound tx txs j found in (ground arith, ground arith)
  ]
]

module _ ⦃h : Hasher⦄ where
  -- One pass: hashing with the sibling gives the entry of the next layer.
  pass_at :
      (l : List Bytes) (idx : ℕ)
      → idx < length l
      → (if idx % 2 == 0
          then hash_pair (get_or l idx []) (get_or (even_out l) (sibling idx) [])
          else hash_pair (get_or (even_out l) (sibling idx) []) (get_or l idx []))
        ≡ get_or (next_layer (even_out l)) (idx / 2) []
  unfolding sibling
  pass_at l idx p =
      let same = get_or-even_out l (omega arith) idx p in
      let len = length-even_out l (omega arith) in
      let up = get_or-next_layer (even_out l) (idx / 2) (omega arith) in
      elim (Bool-cases (idx % 2 == 0)) [
        | inl even ↦ let e : 2 * (idx / 2) ≡ idx = ground arith in rw (even, up, e, same)
        | inr odd ↦
            let e : 2 * (idx / 2) ≡ idx - 1 = ground arith in
            let e' : idx - 1 + 1 ≡ idx = ground arith in rw (odd, up, e, e', same)
      ]

  climb_at-proof_loop :
      (fuel : ℕ) (l : List Bytes) (idx : ℕ)
      → idx < length l
      → length l ≤ fuel
      → climb_at idx (get_or l idx []) (proof_loop fuel l idx) ≡ get_or (root_loop fuel l) 0 []
  unfolding climb_at proof_loop root_loop
  climb_at-proof_loop zero l idx p enough = absurd (omega arith)
  climb_at-proof_loop (suc fuel) l idx p enough = elim (Bool-cases (ltb 1 (length l))) [
    | inl more ↦
        rw (more, proof_loop, root_loop, pass_at l idx p)
          (climb_at-proof_loop fuel (next_layer (even_out l)) (idx / 2)
            (ground (arith, length-pass l (omega arith)))
            (ground (arith, length-pass l (omega arith))))
    | inr done ↦ let e : idx ≡ 0 = ground arith in rw (done, proof_loop, root_loop, e)
  ]

  -- For every transaction of a block, the hashes that `generateProof` lists are the siblings on
  -- its way up: hashing them in, each on the side that the index tells, gives `buildRoot`.
  pub climb_at-generate_proof :
      (txs : List Bytes) (tx : Bytes) (idx : ℕ)
      → index_of tx txs ≡ some idx
      → climb_at idx tx (generate_proof txs tx) ≡ build_root txs
  unfolding generate_proof
  climb_at-generate_proof txs tx idx e =
      let (inside, at) = index_of_sound tx txs idx e in
      let up = climb_at-proof_loop (length txs) txs idx inside (omega arith) in
      let root = ap (λ l. get_or l 0 []) (build_root-root_loop txs (omega arith)) in
      rw (e, generate_proof)
        (ap (λ x. climb_at idx x (proof_loop (length txs) txs idx)) (sym at) ∙ up ∙ root)

  climb-climb_at :
      (current : Bytes) (proof : List Bytes) → climb current proof ≡ climb_at 0 current proof
  unfolding climb climb_at
  climb-climb_at current [] = refl
  climb-climb_at current (s ∷ proof) = climb-climb_at (hash_pair current s) proof

  -- `verifyProof` accepts the proof that `generateProof` makes for the first transaction.
  pub verify_proof-generate_proof_first :
      (tx : Bytes) (txs : List Bytes)
      → verify_proof (build_root (tx ∷ txs)) tx (generate_proof (tx ∷ txs) tx) ≡ true
  unfolding verify_proof
  verify_proof-generate_proof_first tx txs =
      let at_first : index_of tx (tx ∷ txs) ≡ some 0 = unfold index_of in rw (eqb_refl tx) in
      rw
        (
          climb-climb_at tx (generate_proof (tx ∷ txs) tx),
          climb_at-generate_proof (tx ∷ txs) tx 0 at_first,
        )
        (eqb_refl _)

  -- For the second of two different transactions `verifyProof` hashes the pair in the wrong
  -- order: it accepts the proof exactly when the two orders have one hash.
  pub verify_proof-generate_proof_second :
      (tx tx' : Bytes)
      → tx ≢ tx'
      → (verify_proof (build_root (tx ∷ tx' ∷ [])) tx' (generate_proof (tx ∷ tx' ∷ []) tx') ≡ true)
        ↔ (hash_pair tx' tx ≡ hash_pair tx tx')
  unfolding verify_proof build_root root_loop climb even_out next_layer
  verify_proof-generate_proof_second tx tx' ne = rw proof_lem (eqb_iff _ _)
    where
      other : eqb tx tx' ≡ false
      other = ground (arith, eqb_iff tx tx')

      found : index_of tx' (tx ∷ tx' ∷ []) ≡ some 1
      found = unfold index_of in rw (other, eqb_refl tx')

      proof_lem : generate_proof (tx ∷ tx' ∷ []) tx' ≡ tx ∷ []
      proof_lem =
          unfold generate_proof in
          rw (found, generate_proof) (unfold proof_loop even_out sibling in refl)
