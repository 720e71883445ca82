-- ===== src/Core/Merkle/Layers.antt =====
-- src/core/merkle.cpp, the layers: lengths, and what stands at an index of the next layer.
use rex_coin.Base.{
  ℕ, zero, suc, ◌+◌, ◌*◌, ◌/◌, ◌%◌, ◌≤◌, ◌<◌, ◌≡◌, refl, List, [], ◌∷◌, inl, inr, arith, length,
  get_or, get_last?_total, length-append, get_or-append_left, ltb, ◌==◌, Bytes, Bool-cases,
}
use rex_coin.Hasher.{Hasher}
use rex_coin.Core.Merkle.{hash_pair, even_out, next_layer, root_loop, build_root}

module _ (layer : List Bytes) (pos : 0 < length layer) where
  pub length-even_out : length (even_out layer) ≡ (length layer + 1) / 2 * 2
  unfolding even_out
  length-even_out = elim (Bool-cases (length layer % 2 == 0)) [
    | inl even ↦ rw even (ground arith)
    | inr odd ↦
        let (x, e) = get_last?_total layer pos in
        rw (odd, e) (ground (arith, length-append layer (x ∷ [])))
  ]

  pub get_or-even_out :
      (i : ℕ) → i < length layer → get_or (even_out layer) i [] ≡ get_or layer i []
  unfolding even_out
  get_or-even_out i h = elim (Bool-cases (length layer % 2 == 0)) [
    | inl even ↦ rw even
    | inr odd ↦
        let (x, e) = get_last?_total layer pos in
        rw (odd, e) (get_or-append_left layer (x ∷ []) i [] h)
  ]

module _ ⦃h : Hasher⦄ where
  pub length-next_layer : (l : List Bytes) → length (next_layer l) ≡ length l / 2
  unfolding next_layer
  length-next_layer [] = refl
  length-next_layer (a ∷ []) = refl
  length-next_layer (a ∷ b ∷ l) = omega (arith, length-next_layer l)

  pub get_or-next_layer :
      (l : List Bytes) (i : ℕ)
      → 2 * i + 1 < length l
      → get_or (next_layer l) i [] ≡ hash_pair (get_or l (2 * i) []) (get_or l (2 * i + 1) [])
  unfolding next_layer
  get_or-next_layer [] i p = absurd (omega arith)
  get_or-next_layer (a ∷ []) i p = absurd (omega arith)
  get_or-next_layer (a ∷ b ∷ l) zero p = refl
  get_or-next_layer (a ∷ b ∷ l) (suc i) p =
      let e : 2 * suc i ≡ suc (suc (2 * i)) = omega arith in
      let e' : 2 * suc i + 1 ≡ suc (suc (2 * i + 1)) = omega arith in
      rw (e', e) (get_or-next_layer l i (omega arith))

  -- The length of the layer after one pass of the loop.
  pub length-pass :
      (l : List Bytes) → 0 < length l → length (next_layer (even_out l)) ≡ (length l + 1) / 2
  length-pass l pos = omega (arith, length-next_layer (even_out l), length-even_out l pos)

  pub length-root_loop :
      (fuel : ℕ) (l : List Bytes) → 0 < length l → length l ≤ fuel → length (root_loop fuel l) ≡ 1
  unfolding root_loop
  length-root_loop zero l pos enough = absurd (omega arith)
  length-root_loop (suc fuel) l pos enough = elim (Bool-cases (ltb 1 (length l))) [
    | inl more ↦
        rw (more, root_loop)
          (length-root_loop fuel (next_layer (even_out l)) (ground (arith, length-pass l pos))
            (ground (arith, length-pass l pos)))
    | inr done ↦ rw (done, root_loop) (ground arith)
  ]

  -- `buildRoot` leaves its loop with one digest, which it returns.
  pub build_root-root_loop :
      (txs : List Bytes) → 0 < length txs → root_loop (length txs) txs ≡ build_root txs ∷ []
  unfolding build_root root_loop
  build_root-root_loop [] pos = absurd (omega arith)
  build_root-root_loop (tx ∷ []) pos = refl
  build_root-root_loop (tx ∷ tx' ∷ txs) pos =
      singleton _ (length-root_loop (length (tx ∷ tx' ∷ txs)) (tx ∷ tx' ∷ txs) pos (omega arith))
    where
      singleton : (l : List Bytes) → length l ≡ 1 → l ≡ get_or l 0 [] ∷ []
      singleton [] e = absurd (omega arith)
      singleton (x ∷ []) e = refl
      singleton (x ∷ y ∷ l) e = absurd (omega arith)
