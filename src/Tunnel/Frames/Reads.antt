-- ===== src/Tunnel/Frames/Reads.antt =====
-- How `Read` ends, whatever the peer sends.
use dproxy.Base.{
  ℕ, ◌+◌, ◌≤◌, ◌<◌, ◌≡◌, refl, ◌∙◌, inl, inr, Bool, true, false, ltb, ◌==◌, if◌then◌else◌, Result,
  ok, err, length, take, arith, Bool-cases, length-take_le,
}
use dproxy.Tunnel.Frames.{
  FrameError, WebSocketConn, ReadOutcome, received, broken_off, read_payload, min_of, unmasked,
  start_frame, finish_read, read, next_data_frame, max_web_socket_frame_payload,
}
use dproxy.Tunnel.Frames.Delivery.{length-unmasked}
use dproxy.Tunnel.Frames.Consumed.{is_real, Sound}
use dproxy.Tunnel.Frames.Loop.{HasFrame, frame_turns-HasFrame}

-- Bytes, n at most, and one at least unless there is an error, which is one of the code's. What the
-- open frame has left stays within the limit.
abbrev pub Settled : ℕ → ReadOutcome → Type 0
Settled n (received b d) =
    (0 < length b) × (length b ≤ n) × (d.read_remaining ≤ max_web_socket_frame_payload)
Settled n (broken_off b e) = (length b ≤ n) × (is_real e ≡ true)

choose_Settled :
    (n : ℕ) (b : Bool) (x y : ReadOutcome)
    → (b ≡ true → Settled n x)
    → (b ≡ false → Settled n y)
    → Settled n (if b then x else y)
choose_Settled n true x y p q = p refl
choose_Settled n false x y p q = q refl

read_payload-Settled :
    (c : WebSocketConn) (n : ℕ) → 0 < n → HasFrame c → Settled n (read_payload c n)
unfolding read_payload
read_payload-Settled c n h (some_left, few) =
    let want = min_of n c.read_remaining in
    let wanted : (0 < want) × (want ≤ n) = ground (arith, h, some_left) in
    choose_Settled n (ltb (length c.input) want) _ _
      (λ e. (ground (arith, e, wanted, length-unmasked c c.input), refl))
      (λ e.
        let taken : length (unmasked c (take want c.input)) ≡ want =
          length-unmasked c (take want c.input) ∙ length-take_le want c.input (ground (arith, e)) in
        (omega (arith, taken, wanted), omega (arith, taken, wanted), omega (arith, few)))

finish_read-Settled :
    (n : ℕ) (r : Result FrameError WebSocketConn)
    → 0 < n
    → Sound HasFrame r
    → Settled n (finish_read n r)
unfolding finish_read
finish_read-Settled n (ok d) h s = read_payload-Settled d n h s
finish_read-Settled n (err e) h s = (omega arith, s)

start_frame-HasFrame :
    (c : WebSocketConn)
    → c.read_remaining ≤ max_web_socket_frame_payload
    → Sound HasFrame (start_frame c)
unfolding start_frame next_data_frame
start_frame-HasFrame c few = elim (Bool-cases (c.read_remaining == 0)) [
  | inl e ↦ rw (e, start_frame) (frame_turns-HasFrame (length c.input + 1) c (omega arith))
  | inr e ↦ rw (e, start_frame) (ground (arith, e), few)
]

-- Whatever bytes the peer sends, `Read` with a buffer of n bytes, not 0, comes to an end: it gives
-- between 1 and n bytes, or an error of the code with n bytes at most. What the open frame has left
-- never goes above the limit for a frame.
pub read-Settled :
    (c : WebSocketConn) (n : ℕ)
    → 0 < n
    → c.read_remaining ≤ max_web_socket_frame_payload
    → Settled n (read c n)
unfolding read
read-Settled c n h few = elim (Bool-cases (n == 0)) [
  | inl e ↦ absurd (ground (arith, e, h))
  | inr e ↦ rw (e, read) (finish_read-Settled n (start_frame c) h (start_frame-HasFrame c few))
]
