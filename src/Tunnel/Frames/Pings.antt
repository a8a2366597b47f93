-- ===== src/Tunnel/Frames/Pings.antt =====
-- A ping in front of the data that `Read` waits for.
use dproxy.Base.{
  ℕ, suc, ◌+◌, ◌≤◌, ◌<◌, ◌≡◌, refl, sym, ap, ◌∙◌, Bool, true, false, not, [], ◌++◌, ltb,
  if◌then◌else◌, ok, length, take, arith, length-append, take-append,
}
use dproxy.Base.Text.{Bytes}
use dproxy.Base.Outcomes.{OkWith-ok}
use dproxy.Tunnel.Frames.{
  WebSocketConn, apply_mask, write_frame, read_header, on_frame, on_control, answer_ping,
  frame_turns, next_data_frame, again, control_payload, read, finish_read,
}
use dproxy.Tunnel.Frames.Masking.{apply_mask-apply_mask}
use dproxy.Tunnel.Frames.Headers.{header_of, mask_taken, read_header-frame_length}
use dproxy.Tunnel.Frames.Wire.{Mask, mask_bytes, body, frame_bytes}
use dproxy.Tunnel.Frames.Stream.{step_again}
use dproxy.Tunnel.Frames.Turns.{length-body, drop-body, differs_self, length-frame}
use dproxy.Tunnel.Frames.Delivery.{read-next_data_frame}
use dproxy.Tunnel.Frames.Written.{SendsFrame, write_frame-SendsFrame}
use dproxy.Tunnel.Frames.Consumed.{Sound-ok, SameInput, write_frame-SameInput}
use dproxy.Tunnel.Frames.Loop.{frame_turns-fuel}

take-body :
    (masked : Bool) (mask p s : Bytes)
    → take (length p) (body masked mask p ++ s) ≡ body masked mask p
take-body masked mask p s =
    rw (sym (length-body masked mask p)) (take-append (body masked mask p) s)

unmask-body :
    (masked : Bool) (mask p : Bytes)
    → (if masked
        then apply_mask (body masked mask p) (mask_taken masked mask) 0
        else body masked mask p)
      ≡ p
unmask-body true mask p = apply_mask-apply_mask mask p 0
unmask-body false mask p = refl

module _ (c : WebSocketConn) (k : Mask) (p s : Bytes) (small : length p ≤ 125) where
  ping_payload :
      control_payload
        (header_of (not c.client) true 9 (length p) (mask_bytes k))
        (body (not c.client) (mask_bytes k) p ++ s)
      ≡ p
  ping_payload =
      let m = not c.client in
      ap (λ b. if m then apply_mask b (mask_taken m (mask_bytes k)) 0 else b)
        (take-body m (mask_bytes k) p s)
      ∙ unmask-body m (mask_bytes k) p

  on_frame-ping :
      c.input ≡ frame_bytes (not c.client) true 9 k p s
      → on_frame c (read_header c.input) ≡ answer_ping (write_frame (record c { input = s }) 10 p)
  unfolding on_frame on_control
  on_frame-ping e =
      let payload = body (not c.client) (mask_bytes k) p in
      let short : ltb 125 (length p) ≡ false = ground (arith, small) in
      let there : ltb (length (payload ++ s)) (length p) ≡ false =
        ground (arith, length-append payload s, length-body (not c.client) (mask_bytes k) p) in
      ap (λ i. on_frame c (read_header i)) e
      ∙ ap (on_frame c) (
          read_header-frame_length (not c.client) true 9 (length p) k.m0 k.m1 k.m2 k.m3
            (payload ++ s) (omega arith) (omega (arith, small)))
      ∙ rw (differs_self (not c.client), short, there, on_frame, on_control)
          (ap
              (λ i. answer_ping (
                write_frame (record c { input = i }) 10
                  (control_payload (header_of (not c.client) true 9 (length p) (mask_bytes k))
                    (payload ++ s))))
              (drop-body (not c.client) (mask_bytes k) p s)
            ∙ ap (λ b. answer_ping (write_frame (record c { input = s }) 10 b)) ping_payload)

-- Where a ping stands in front of the next frame and the pong can be written, `Read` answers it by a
-- pong with the same payload and then goes on as on the connection behind it.
pub read-ping :
    (c d : WebSocketConn) (k : Mask) (p s : Bytes) (n : ℕ)
    → length p ≤ 125
    → 0 < n
    → c.read_remaining ≡ 0
    → c.input ≡ frame_bytes (not c.client) true 9 k p s
    → write_frame (record c { input = s }) 10 p ≡ ok d
    → (read c n ≡ read d n)
      × (d.input ≡ s)
      × ((pong_mask : Mask) × (d.sent ≡ c.sent ++ frame_bytes c.client true 10 pong_mask p []))
unfolding next_data_frame answer_ping
read-ping c d k p s n small h idle e wrote =
    let asked : WebSocketConn = record c { input = s } in
    let same : SameInput asked d =
      Sound-ok (SameInput asked) (write_frame asked 10 p) (write_frame-SameInput asked 10 p)
        wrote in
    let (pong_mask, sends) =
      OkWith-ok (SendsFrame asked 10 p) (write_frame asked 10 p) (write_frame-SendsFrame asked 10 p)
        wrote in
    let turn : on_frame c (read_header c.input) ≡ again d =
      on_frame-ping c k p s small e ∙ ap answer_ping wrote in
    let less : length d.input < length c.input =
      omega (arith, ap length same.0, ap length e, length-frame (not c.client) true 9 k p s) in
    let turns : frame_turns (length c.input + 1) c ≡ frame_turns (length d.input + 1) d =
      frame_turns-fuel (length c.input + 1) (suc (length c.input)) c (omega arith) (omega arith)
      ∙ step_again c d (length c.input) turn
      ∙ frame_turns-fuel (length c.input) (length d.input + 1) d less (omega arith) in
    (
      read-next_data_frame c n h idle
          ∙ ap (finish_read n) turns
          ∙ sym (read-next_data_frame d n h (same.1 ∙ idle)),
      same.0,
      (pong_mask, sends.added),
    )
