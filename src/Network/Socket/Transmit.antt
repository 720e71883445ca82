-- ===== src/Network/Socket/Transmit.antt =====
-- src/network/node.cpp: what `sendRaw` sends and `recvRaw` receives.
use rex_coin.Base.{
  ℕ, zero, suc, ◌+◌, ◌-◌, ◌^◌, ◌≤◌, ◌<◌, ◌≡◌, refl, ap, sym, ◌∙◌, ◌⊎◌, inl, inr, Bool, true, false,
  none, some, [], ◌∷◌, ◌++◌, arith, ltb, ◌==◌, length, length-append, length-drop, take, drop,
  take-append-drop, take-append, drop-append, if◌then◌else◌, Bytes, Option-cases, Bool-cases, u32,
}
use mathlib.Core.List.{append_assoc, append-nil}
use rex_coin.Base.Int.{ℤ}
use rex_coin.Network.Frame.{resize, length_bytes, frame, said_length, unframe}
use rex_coin.Network.Frame.RoundTrip.{
  IsType, length-resize, said_length-length_bytes, unframe-frame,
}
use rex_coin.Network.Socket.{Sockets, send_loop, send_raw, recv_raw}

take-drop-append :
    (n k : ℕ) (s : Bytes) → n ≤ length s → take n s ++ take k (drop n s) ≡ take (n + k) s
take-drop-append zero k s h = let e : 0 + k ≡ k = omega arith in rw e refl
take-drop-append (suc n) k [] h = absurd (omega arith)
take-drop-append (suc n) k (c ∷ s) h =
    let e : suc n + k ≡ suc (n + k) = omega arith in
    rw e (ap (◌∷◌ c) (take-drop-append n k s (omega arith)))

drop-drop : (n k : ℕ) (s : Bytes) → n ≤ length s → drop k (drop n s) ≡ drop (n + k) s
drop-drop zero k s h = let e : 0 + k ≡ k = omega arith in rw e refl
drop-drop (suc n) k [] h = absurd (omega arith)
drop-drop (suc n) k (c ∷ s) h =
    let e : suc n + k ≡ suc (n + k) = omega arith in rw e (drop-drop n k s (omega arith))

-- The header and the body of a frame.
frame-parts :
    (type payload : Bytes)
    → length payload < 2 ^ 32 - 20
    → (hdr : Bytes) × (body : Bytes) × (frame type payload ≡ hdr ++ body)
      × (length hdr ≡ 4)
      × (length body ≡ 16 + length payload)
      × (said_length hdr ≡ length body)
unfolding frame length_bytes
frame-parts type payload h =
    let body : Bytes = resize 16 type ++ payload in
    let size : length body ≡ 16 + length payload =
      length-append (resize 16 type) payload
      ∙ ap (λ (n : ℕ). n + length payload) (length-resize 16 type) in
    let fits : u32 (length body) ≡ length body = omega arith in
    let hdr = length_bytes (length body) in
    let said = said_length-length_bytes (length body) [] (omega arith) in
    (hdr, body, rw fits refl, refl, size, said)

module _ {W : Type 0} ⦃sys : Sockets W⦄ where
  -- `send` has failed on bytes that were still to be sent, where the connection had taken what it has
  -- taken in the end.
  pub record FailedOn (fd : ℤ) (rest : Bytes) (w' : W) : Type 0 where
    pub world : W
    pub taken : sys.outgoing fd world ≡ sys.outgoing fd w'
    pub failed : (sys.send fd rest world).0 ≡ none

  -- Either all was sent, or a part in front and no more, because `send` failed on the rest.
  abbrev pub Sent : ℤ → Bytes → W → Bool × W → Type 0
  Sent fd s w r =
      ((r.0 ≡ true) × (sys.outgoing fd r.1 ≡ sys.outgoing fd w ++ s))
      ⊎ ((r.0 ≡ false)
          × ((k : ℕ) × (k < length s)
              × (sys.outgoing fd r.1 ≡ sys.outgoing fd w ++ take k s)
              × FailedOn fd (drop k s) r.1))

  -- A call that took `n` bytes, before those that send the rest.
  Sent-step :
      (fd : ℤ) (s : Bytes) (w w' : W) (n : ℕ) (r : Bool × W)
      → n ≤ length s
      → sys.outgoing fd w' ≡ sys.outgoing fd w ++ take n s
      → Sent fd (drop n s) w' r
      → Sent fd s w r
  Sent-step fd s w w' n r le e h = elim h [
    | inl (done, out) ↦ inl (
      done,
      out
          ∙ ap (λ (o : Bytes). o ++ drop n s) e
          ∙ append_assoc (sys.outgoing fd w) (take n s) (drop n s)
          ∙ ap (λ (t : Bytes). sys.outgoing fd w ++ t) (take-append-drop n s),
    )
    | inr (failed, (k, lt, out, stop)) ↦
        let len = length-drop n s in
        inr (
          failed,
          (
            n + k,
            omega arith,
            out
                ∙ ap (λ (o : Bytes). o ++ take k (drop n s)) e
                ∙ append_assoc (sys.outgoing fd w) (take n s) (take k (drop n s))
                ∙ ap (λ (t : Bytes). sys.outgoing fd w ++ t) (take-drop-append n k s le),
            rw (drop-drop n k s le) at stop,
          ),
        )
  ]

  send_loop-Sent :
      (fuel : ℕ) (fd : ℤ) (s : Bytes) (w : W)
      → length s ≤ fuel
      → Sent fd s w (send_loop fuel fd s w)
  unfolding send_loop
  send_loop-Sent fuel fd [] w h = inl (refl, sym (append-nil (sys.outgoing fd w)))
  send_loop-Sent zero fd (c ∷ s) w h = absurd (omega arith)
  send_loop-Sent (suc fuel) fd (c ∷ s) w h = elim (Option-cases (sys.send fd (c ∷ s) w).0) [
    | inl failed ↦
        rw (send_loop, failed)
          (inr (
            refl,
            (
              0,
              omega arith,
              sys.send_failed fd (c ∷ s) w failed ∙ sym (append-nil (sys.outgoing fd w)),
              record {
                world = w;
                taken = sym (sys.send_failed fd (c ∷ s) w failed);
                failed = failed;
              },
            ),
          ))
    | inr (n, taken) ↦
        let (positive, le, out) = sys.send_taken fd (c ∷ s) w n taken in
        let w' = (sys.send fd (c ∷ s) w).1 in
        let len = length-drop n (c ∷ s) in
        let rest = send_loop-Sent fuel fd (drop n (c ∷ s)) w' (omega arith) in
        rw (send_loop, taken)
          (Sent-step fd (c ∷ s) w w' n (send_loop fuel fd (drop n (c ∷ s)) w') le out rest)
  ]

  -- `sendRaw` gives true when the connection has taken every byte, and else false, after a part of
  -- them that is shorter, where `send` has failed on the rest.
  pub send_raw-Sent : (fd : ℤ) (s : Bytes) (w : W) → Sent fd s w (send_raw fd s w)
  unfolding send_raw
  send_raw-Sent fd s w = send_loop-Sent (length s) fd s w (omega arith)

  -- A read of all that a connection holds in front of `rest`.
  recv-append :
      (fd : ℤ) (s rest : Bytes) (w : W) (n : ℕ)
      → n ≡ length s
      → sys.incoming fd w ≡ s ++ rest
      → ((sys.recv fd n w).0 ≡ s) × (sys.incoming fd (sys.recv fd n w).1 ≡ rest)
  recv-append fd s rest w n n_s e =
      let le : n ≤ length (sys.incoming fd w) =
        let len = length-append s rest in let waiting = ap length e in omega arith in
      let (got, left) = sys.recv_all fd n w le in
      (
        got ∙ ap (take n) e ∙ ap (λ (m : ℕ). take m (s ++ rest)) n_s ∙ take-append s rest,
        left ∙ ap (drop n) e ∙ ap (λ (m : ℕ). drop m (s ++ rest)) n_s ∙ drop-append s rest,
      )

  -- `recvRaw` on a header and the body whose length it says.
  recv_raw-message :
      (fd : ℤ) (hdr body rest : Bytes) (w : W)
      → length hdr ≡ 4
      → said_length hdr ≡ length body
      → sys.incoming fd w ≡ hdr ++ (body ++ rest)
      → length body ≤ 4194304
      → ((recv_raw fd w).0 ≡ hdr ++ body) × (sys.incoming fd (recv_raw fd w).1 ≡ rest)
  unfolding recv_raw
  recv_raw-message fd hdr body rest w four said e small =
      let (got, left) = recv-append fd hdr (body ++ rest) w 4 (sym four) e in
      let w1 = (sys.recv fd 4 w).1 in
      let (got', left') = recv-append fd body rest w1 (length body) refl left in
      let a_header : (length hdr == 4) ≡ true = ground arith in
      let allowed : ltb 4194304 (length body) ≡ false = ground arith in
      let whole : (length body == length body) ≡ true = ground arith in
      (
        rw (got, a_header, said, allowed, got', whole),
        rw (got, a_header, said, allowed, got', whole, left'),
      )

  recv_raw-too_long :
      (fd : ℤ) (hdr body rest : Bytes) (w : W)
      → length hdr ≡ 4
      → said_length hdr ≡ length body
      → sys.incoming fd w ≡ hdr ++ (body ++ rest)
      → 4194304 < length body
      → (recv_raw fd w).0 ≡ []
  unfolding recv_raw
  recv_raw-too_long fd hdr body rest w four said e large =
      let (got, left) = recv-append fd hdr (body ++ rest) w 4 (sym four) e in
      let a_header : (length hdr == 4) ≡ true = ground arith in
      let refused : ltb 4194304 (length body) ≡ true = ground arith in
      rw (got, a_header, said, refused)

  -- A message that `recvRaw` reads from the head of a stream is the one that was framed, if its type has
  -- at most 16 characters and ends in no blank, up to 4 MB for the padded type and the payload; a longer
  -- one, of less than 2^32 - 20 bytes, reads as a lost connection.
  pub recv_raw-frame :
      (fd : ℤ) (type payload rest : Bytes) (w : W)
      → IsType type
      → length payload < 2 ^ 32 - 20
      → sys.incoming fd w ≡ frame type payload ++ rest
      → (if ltb 4194304 (16 + length payload)
          then (recv_raw fd w).0 ≡ []
          else ((unframe (recv_raw fd w).0 ≡ some (type, payload))
              × (sys.incoming fd (recv_raw fd w).1 ≡ rest)))
  recv_raw-frame fd type payload rest w h small e =
      let (hdr, body, parts, four, size, said) = frame-parts type payload small in
      let stream : sys.incoming fd w ≡ hdr ++ (body ++ rest) =
        e ∙ ap (λ (s : Bytes). s ++ rest) parts ∙ append_assoc hdr body rest in
      elim (Bool-cases (ltb 4194304 (16 + length payload))) [
        | inl large ↦
            rw large (recv_raw-too_long fd hdr body rest w four said stream (ground arith))
        | inr fits ↦
            let (got, left) = recv_raw-message fd hdr body rest w four said stream (ground arith) in
            rw fits (ap unframe (got ∙ sym parts) ∙ unframe-frame type payload h small, left)
      ]

  -- A message that `sendRaw` sends whole, on a connection that has carried nothing before, is the one
  -- that `recvRaw` and `unframe` give at the other end, and nothing else waits there. Its type has at
  -- most 16 characters and ends in no blank, and padded it has at most 4 MB with the payload.
  pub transmit :
      (fd fd' : ℤ) (type payload : Bytes) (w w' : W)
      → IsType type
      → 16 + length payload ≤ 4194304
      → sys.outgoing fd w ≡ []
      → (send_raw fd (frame type payload) w).0 ≡ true
      → sys.incoming fd' w' ≡ sys.outgoing fd (send_raw fd (frame type payload) w).1
      → (unframe (recv_raw fd' w').0 ≡ some (type, payload))
        × (sys.incoming fd' (recv_raw fd' w').1 ≡ [])
  transmit fd fd' type payload w w' h small fresh done stream =
      let fits : ltb 4194304 (16 + length payload) ≡ false = ground arith in
      let msg = frame type payload in
      elim (send_raw-Sent fd msg w) [
        | inr (failed, _) ↦ absurd (cc (done, failed))
        | inl (_, out) ↦
            let all : sys.incoming fd' w' ≡ msg ++ [] =
              stream ∙ out ∙ ap (λ (s : Bytes). s ++ msg) fresh ∙ sym (append-nil msg) in
            rw fits at (recv_raw-frame fd' type payload [] w' h (omega arith) all)
      ]
