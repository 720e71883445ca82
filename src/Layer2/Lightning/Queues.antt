-- ===== src/Layer2/Lightning/Queues.antt =====
-- src/layer2/lightning.cpp: what the queue of `findRoute` lists, and its order, with one node more.
use rex_coin.Base.{
  ℕ, ◌≡◌, ◌⊎◌, inl, inr, true, List, [], ◌∷◌, ◌++◌, arith, Bytes, eqb, eqb_iff, eqb_refl,
  Bool-cases,
}
use rex_coin.Layer2.Lightning.Routes.{listed, listed-cons}
use rex_coin.Layer2.Lightning.Walks.{IsSorted}

pub listed-append_old :
    (k x : Bytes) (q : List Bytes) → listed k q ≡ true → listed k (q ++ x ∷ []) ≡ true
unfolding listed
listed-append_old k x [] h = absurd (cc h)
listed-append_old k x (y ∷ q) h = elim (Bool-cases (eqb k y)) [
  | inl same ↦ rw (listed, same)
  | inr other ↦ rw (listed, other) (listed-append_old k x q (rw (listed, other) at h))
]

pub listed-append_or :
    (k x : Bytes) (q : List Bytes) → listed k (q ++ x ∷ []) ≡ true → (listed k q ≡ true) ⊎ (k ≡ x)
unfolding listed
listed-append_or k x [] h = elim (Bool-cases (eqb k x)) [
  | inl same ↦ inr ((eqb_iff k x).0 same)
  | inr other ↦ absurd (cc (rw (listed, other) at h))
]
listed-append_or k x (y ∷ q) h = elim (Bool-cases (eqb k y)) [
  | inl same ↦ inl (rw (listed, same))
  | inr other ↦ elim (listed-append_or k x q (rw (listed, other) at h)) [
    | inl old ↦ inl (rw (listed, other) old)
    | inr new ↦ inr new
  ]
]

pub listed-append_last : (x : Bytes) (q : List Bytes) → listed x (q ++ x ∷ []) ≡ true
unfolding listed
listed-append_last x [] = rw (listed, eqb_refl x)
listed-append_last x (y ∷ q) = elim (Bool-cases (eqb x y)) [
  | inl same ↦ rw (listed, same)
  | inr other ↦ rw (listed, other) (listed-append_last x q)
]

pub IsSorted-append :
    (depth : Bytes → ℕ) (low high : ℕ) (q : List Bytes) (x : Bytes)
    → IsSorted depth low high q
    → depth x ≡ high
    → IsSorted depth low high (q ++ x ∷ [])
IsSorted-append depth low high [] x h e = (omega arith, omega arith)
IsSorted-append depth low high (y ∷ q) x h e = (h.0, IsSorted-append depth (depth y) high q x h.1 e)

-- The order of a queue depends only on the depths of its members.
pub IsSorted-same :
    (depth depth' : Bytes → ℕ) (low high : ℕ) (q : List Bytes)
    → ((x : Bytes) → listed x q ≡ true → depth' x ≡ depth x)
    → IsSorted depth low high q
    → IsSorted depth' low high q
unfolding listed
IsSorted-same depth depth' low high [] same h = h
IsSorted-same depth depth' low high (x ∷ q) same h =
    let e : depth' x ≡ depth x = same x (rw (listed, eqb_refl x)) in
    rw e
      (h.0, IsSorted-same depth depth' (depth x) high q (λ y l. same y (listed-cons y x q l)) h.1)
