-- ===== src/Network/Node/Threads/Exclusion.antt =====
-- src/network/node.cpp: at most one thread of a node receives, and when it waits for its own lock the
-- node stands still.
use rex_coin.Base.{ℕ, ◌≡◌, refl, inl, inr, Bool, true, false, ◌==◌, ==_iff, none, some, Bool-cases}
use rex_coin.Network.Socket.{Sockets}
use rex_coin.Network.Node.{Node}
use rex_coin.Network.Node.Threads.{Pc, System, update, IsStart, Step, Reach}

-- Whether a thread has_lock the lock.
abbrev pub has_lock : Pc → Bool
has_lock Pc.idle = false
has_lock (Pc.detached id) = false
has_lock (Pc.receiving id) = true
has_lock (Pc.blocked id) = true
has_lock (Pc.calling calls) = false

IsStart-has_lock : (p : Pc) → IsStart p → has_lock p ≡ false
IsStart-has_lock Pc.idle h = refl
IsStart-has_lock (Pc.detached id) h = refl
IsStart-has_lock (Pc.receiving id) h = absurd h
IsStart-has_lock (Pc.blocked id) h = absurd h
IsStart-has_lock (Pc.calling calls) h = refl

module _ (pc : ℕ → Pc) (i : ℕ) (p : Pc) where
  pub update_self : update pc i p i ≡ p
  unfolding update
  update_self = let e : (i == i) ≡ true = (==_iff i i).1 refl in rw (update, e) refl

  pub update_ne : (j : ℕ) → (j == i) ≡ false → update pc i p j ≡ pc j
  unfolding update
  update_ne j ne = rw (update, ne) refl

  -- A property of all threads after one of them went on.
  pub update-cases :
      (P : ℕ → Pc → Type 0)
      → P i p
      → ((j : ℕ) → (j == i) ≡ false → P j (pc j))
      → (j : ℕ) → P j (update pc i p j)
  unfolding update
  update-cases P own others j = elim (Bool-cases (j == i)) [
    | inl same ↦ rw ((==_iff j i).0 same, update_self) own
    | inr other ↦ rw (update_ne j other) (others j other)
  ]

module _ {W : Type 0} where
  -- A thread that has_lock the lock is its owner.
  abbrev pub IsExclusive : System W → Type 0
  IsExclusive s = (j : ℕ) → has_lock (s.pc j) ≡ true → s.owner ≡ some j

module _ {W : Type 0} ⦃sys : Sockets W⦄ (clock : W → ℕ) where
  pub Step-IsExclusive : {s t : System W} → IsExclusive s → Step clock s t → IsExclusive t
  Step-IsExclusive {s = s} h (Step.begun i p e start) =
      update-cases s.pc i p (λ j q. has_lock q ≡ true → s.owner ≡ some j)
        (λ held. absurd (cc (IsStart-has_lock p start))) (λ j ne. h j)
  Step-IsExclusive {s = s} h (Step.locked i id e free) =
      update-cases s.pc i (Pc.receiving id) (λ j q. has_lock q ≡ true → some i ≡ some j)
        (λ held. refl) (λ j ne held. absurd (cc (h j held)))
  Step-IsExclusive {s = s} h (Step.served i id node w e r) = h
  Step-IsExclusive {s = s} h (Step.released i id node w e r) =
      update-cases s.pc i Pc.idle (λ j q. has_lock q ≡ true → none ≡ some j)
        (λ held. absurd (cc held))
        (λ j ne held.
          let own : s.owner ≡ some i = h i (rw e refl) in
          let same : j ≡ i = cc (h j held) in absurd (cc ((==_iff j i).1 same)))
  Step-IsExclusive {s = s} h (Step.self_locked i id peer e known r) =
      update-cases s.pc i (Pc.blocked id) (λ j q. has_lock q ≡ true → s.owner ≡ some j)
        (λ held. h i (rw e refl)) (λ j ne held. h j held)
  Step-IsExclusive {s = s} h (Step.called i call calls node w e free r) =
      update-cases s.pc i (Pc.calling calls) (λ j q. has_lock q ≡ true → none ≡ some j)
        (λ held. absurd (cc held)) (λ j ne held. absurd (cc (h j held)))
  Step-IsExclusive {s = s} h Step.halted = h

  pub Reach-IsExclusive :
      {node : Node W} {w : W} {s : System W} → Reach clock node w s → IsExclusive s
  Reach-IsExclusive Reach.start = λ j held. absurd (cc held)
  Reach-IsExclusive (Reach.later r step) = Step-IsExclusive (Reach-IsExclusive r) step

  -- At most one thread of a node receives at any time: one peer is served, all others wait.
  Reach-one :
      (node : Node W) (w : W) (s : System W) (i j : ℕ)
      → Reach clock node w s
      → has_lock (s.pc i) ≡ true
      → has_lock (s.pc j) ≡ true
      → i ≡ j
  Reach-one node w s i j r held_i held_j =
      let own_i = Reach-IsExclusive r i held_i in let own_j = Reach-IsExclusive r j held_j in cc
