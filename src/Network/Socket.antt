-- ===== src/Network/Socket.antt =====
-- src/network/node.cpp: sending and receiving on a socket. The system's calls are the interface
-- `Sockets`, over a type `W` of the states of the system.
pub mod Transmit
use rex_coin.Base.{
  ℕ, zero, suc, ◌+◌, ◌-◌, ◌≤◌, ◌<◌, ◌≡◌, Bool, true, false, not, ◌&&◌, Option, none, some, [], ◌∷◌,
  ◌++◌, ltb, ◌==◌, length, take, drop, if◌then◌else◌, Bytes,
}
use rex_coin.Base.Int.{ℤ}
use rex_coin.Network.Frame.{said_length}

-- POSIX sockets. `send` gives the number of the bytes that were taken, `none` for a result of 0 or
-- less; `recv`, with the flag MSG_WAITALL, gives the bytes that were read. `outgoing` are the bytes
-- that a connection has taken, and `incoming` those that wait for `recv`.
pub record Sockets (W : Type 0) : Type 0 where
  pub send : ℤ → Bytes → W → Option ℕ × W
  pub recv : ℤ → ℕ → W → Bytes × W
  pub close : ℤ → W → W
  pub outgoing : ℤ → W → Bytes
  pub incoming : ℤ → W → Bytes
  pub send_taken :
      (fd : ℤ) (s : Bytes) (w : W) (n : ℕ)
      → (send fd s w).0 ≡ some n
      → (0 < n) × (n ≤ length s) × (outgoing fd (send fd s w).1 ≡ outgoing fd w ++ take n s)
  pub send_failed :
      (fd : ℤ) (s : Bytes) (w : W)
      → (send fd s w).0 ≡ none
      → outgoing fd (send fd s w).1 ≡ outgoing fd w
  pub recv_all :
      (fd : ℤ) (n : ℕ) (w : W)
      → n ≤ length (incoming fd w)
      → ((recv fd n w).0 ≡ take n (incoming fd w))
        × (incoming fd (recv fd n w).1 ≡ drop n (incoming fd w))

module _ {W : Type 0} ⦃sys : Sockets W⦄ where
  -- `while (sent < data.size())`, with the bytes that are left.
  unfoldable pub send_loop : ℕ → ℤ → Bytes → W → Bool × W
  send_loop fuel fd [] w = (true, w)
  send_loop zero fd (c ∷ s) w = (false, w)
  send_loop (suc fuel) fd (c ∷ s) w = elim (sys.send fd (c ∷ s) w).0 [
    | none ↦ (false, (sys.send fd (c ∷ s) w).1)
    | some n ↦ send_loop fuel fd (drop n (c ∷ s)) (sys.send fd (c ∷ s) w).1
  ]

  -- `Node::sendRaw`; each call of `send` takes a byte, so that there are no more calls than bytes.
  unfoldable pub send_raw : ℤ → Bytes → W → Bool × W
  send_raw fd data' w = send_loop (length data') fd data' w

  -- `Node::recvRaw`
  unfoldable pub recv_raw : ℤ → W → Bytes × W
  recv_raw fd w =
      let (hdr, w1) = sys.recv fd 4 w in
      if not (length hdr == 4)
      then ([], w1)
      else let len = said_length hdr in
        if ltb 4194304 len
        then ([], w1)
        else let (body, w2) = sys.recv fd len w1 in
          if not (length body == len) then ([], w2) else (hdr ++ body, w2)
