-- ===== src/Tests/Broadcast.antt =====
-- src/network/node.cpp: a broadcast to two peers, one of them inactive, over a system with one
-- connection that takes a byte in each call.
use rex_coin.Base.{
  ℕ, ◌≡◌, ◌≢◌, ◌≤◌, ◌<◌, refl, sym, ◌∙◌, Bool, true, false, Option, none, some, List, [], ◌∷◌, ◌++◌,
  codes, arith, Bytes, length, take, drop, zero, suc, ◌==◌, ==_iff, if◌then◌else◌, inl, inr,
  Bool-cases,
}
use rex_coin.Base.Int.{ℤ, pos, negsuc}
use rex_coin.Network.Frame.{frame}
use rex_coin.Network.Socket.{Sockets}
use rex_coin.Network.Node.{PeerConn, Node, broadcast}
use rex_coin.Network.Node.Broadcast.{trues, AllReceived, broadcast-AllReceived}

abbrev is_five : ℤ → Bool
is_five (pos n) = n == 5
is_five (negsuc n) = false

abbrev send_five : ℤ → Bytes → Bytes → Option ℕ × Bytes
send_five fd [] w = (none, w)
send_five fd (c ∷ s) w = if is_five fd then (some 1, w ++ c ∷ []) else (none, w)

abbrev line : ℤ → Bytes → Bytes
line fd w = if is_five fd then w else []

line_taken :
    (fd : ℤ) (s : Bytes) (w : Bytes) (n : ℕ)
    → (send_five fd s w).0 ≡ some n
    → (0 < n) × (n ≤ length s) × (line fd (send_five fd s w).1 ≡ line fd w ++ take n s)
line_taken fd [] w n e = absurd (cc e)
line_taken fd (c ∷ s) w n e = elim (Bool-cases (is_five fd)) [
  | inl five ↦
      let n1 : 1 ≡ n = cc (rw five at e) in rw (five, ← n1) (omega arith, omega arith, refl)
  | inr other ↦ absurd (cc (rw other at e))
]

line_failed :
    (fd : ℤ) (s w : Bytes) → (send_five fd s w).0 ≡ none → line fd (send_five fd s w).1 ≡ line fd w
line_failed fd [] w e = refl
line_failed fd (c ∷ s) w e = elim (Bool-cases (is_five fd)) [
  | inl five ↦ absurd (cc (rw five at e))
  | inr other ↦ rw other refl
]

five_only : (fd : ℤ) → is_five fd ≡ true → fd ≡ pos 5
five_only (pos n) e = let n5 = (==_iff n 5).0 e in rw n5 refl
five_only (negsuc n) e = absurd (cc e)

line_apart :
    (fd other : ℤ) (s w : Bytes) → other ≢ fd → line other (send_five fd s w).1 ≡ line other w
line_apart fd other [] w ne = refl
line_apart fd other (c ∷ s) w ne = elim (Bool-cases (is_five fd)) [
  | inr not_five ↦ rw not_five refl
  | inl five ↦ elim (Bool-cases (is_five other)) [
    | inl also ↦ absurd (ne (five_only other also ∙ sym (five_only fd five)))
    | inr not_five ↦ rw (five, not_five) refl
  ]
]

none_taken : (n : ℕ) → [] ≡ take {A = ℕ} n []
none_taken zero = refl
none_taken (suc n) = refl

none_dropped : (n : ℕ) → [] ≡ drop {A = ℕ} n []
none_dropped zero = refl
none_dropped (suc n) = refl

-- `incoming` holds nothing, so that only a read of nothing finds enough.
instance one_line : Sockets Bytes
one_line = record {
  send = send_five;
  recv = λ fd n w. ([], w);
  close = λ fd w. w;
  outgoing = line;
  incoming = λ fd w. [];
  send_taken = line_taken;
  send_failed = line_failed;
  recv_all = λ fd n w h. (none_taken n, none_dropped n);
}

abbrev peer : ℕ → Bool → PeerConn
peer fd active = record {
  fd = pos fd;
  ip = codes "10.0.0.2";
  port = 8333;
  node_id = codes "peer";
  outbound = true;
  last_seen = 0;
  active = active;
}

abbrev node : Node Bytes
node = record {
  listen_ip = codes "0.0.0.0";
  listen_port = 8333;
  node_id = codes "own";
  running = true;
  peers = (codes "first", peer 5 true) ∷ (codes "second", peer 6 false) ∷ [];
  msg_handler = none;
}

six-five : pos 6 ≢ pos 5
six-five e = absurd (cc e)

broadcast-AllReceived_example :
    (count : ℕ) × (w' : Bytes) × (flags : List Bool) × (broadcast {W = Bytes} false
        (codes "NEW_BLOCK")
        (codes "00ff")
        node
        []
      ≡ some (count, w'))
    × AllReceived {W = Bytes} (frame (codes "NEW_BLOCK") (codes "00ff")) [] w' node.peers flags
    × (count ≡ trues flags)
unfolding one_line
broadcast-AllReceived_example =
    broadcast-AllReceived {W = Bytes} line_apart (codes "NEW_BLOCK") (codes "00ff") node []
      ((six-five, tt), (tt, tt))
