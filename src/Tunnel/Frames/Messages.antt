-- ===== src/Tunnel/Frames/Messages.antt =====
-- A connection that reads what another has written.
use dproxy.Base.{
  ℕ, ◌+◌, ◌<◌, ◌≡◌, refl, sym, ap, ◌∙◌, Bool, true, false, not, List, [], ◌∷◌, ◌++◌, ltb, ◌==◌,
  Result, ok, err, ◌>>=◌, length, All, arith, append_assoc, append-nil,
}
use dproxy.Base.Text.{Bytes}
use dproxy.Base.Outcomes.{OkWith, ok-OkWith, OkWith-ok, choose_OkWith, bind-OkWith}
use dproxy.Tunnel.Frames.{
  FrameError, WebSocketConn, frame_length, write_frame, write, new_conn, payload_too_large,
  max_web_socket_frame_payload,
}
use dproxy.Tunnel.Frames.Headers.{flag_bit, mask_field}
use dproxy.Tunnel.Frames.Wire.{
  Mask, mask_bytes, Frame, part, body, frame_bytes, wire, payloads, IsSized,
}
use dproxy.Tunnel.Frames.Delivery.{unmasked_nil, read_all, read_all-Carries}
use dproxy.Tunnel.Frames.Written.{SendsFrame, write_frame-SendsFrame}

-- Messages of one frame each.
abbrev messages : List (Mask × Bytes) → List Frame
messages [] = []
messages ((k, p) ∷ ms) = part true k p ∷ messages ms

frame_bytes-append :
    (client : Bool) (op : ℕ) (k : Mask) (p s t : Bytes)
    → frame_bytes client true op k p s ++ t ≡ frame_bytes client true op k p (s ++ t)
frame_bytes-append client op k p s t =
    let len = frame_length (flag_bit client) (length p) in
    let mask = mask_field client (mask_bytes k) in
    let b = body client (mask_bytes k) p in
    ap (◌∷◌ (128 + op)) (
      append_assoc len (mask ++ (b ++ s)) t
      ∙ ap (◌++◌ len) (append_assoc mask (b ++ s) t ∙ ap (◌++◌ mask) (append_assoc b s t)))

wire-messages :
    (client : Bool) (ms ns : List (Mask × Bytes))
    → wire client false (messages (ms ++ ns))
      ≡ wire client false (messages ms) ++ wire client false (messages ns)
wire-messages client [] ns = refl
wire-messages client ((k, p) ∷ ms) ns =
    ap (frame_bytes client true 2 k p) (wire-messages client ms ns)
    ∙ sym (frame_bytes-append client 2 k p (wire client false (messages ms)) _)

payloads-messages :
    (ms ns : List (Mask × Bytes))
    → payloads (messages (ms ++ ns)) ≡ payloads (messages ms) ++ payloads (messages ns)
payloads-messages [] ns = refl
payloads-messages ((k, p) ∷ ms) ns =
    ap (◌++◌ p) (payloads-messages ms ns) ∙ sym (append_assoc p _ _)

messages-IsSized :
    (ms ns : List (Mask × Bytes))
    → All IsSized (messages ms)
    → All IsSized (messages ns)
    → All IsSized (messages (ms ++ ns))
messages-IsSized [] ns a b = b
messages-IsSized ((k, p) ∷ ms) ns (h, a) b = (h, messages-IsSized ms ns a b)

-- Messages that are sent and hold p.
record Queued (c : WebSocketConn) (p : Bytes) (d : WebSocketConn) : Type 0 where
  side : d.client ≡ c.client
  sent_now : List (Mask × Bytes)
  added : d.sent ≡ c.sent ++ wire c.client false (messages sent_now)
  carried : payloads (messages sent_now) ≡ p
  sized : All IsSized (messages sent_now)

-- What a successful write says and does.
abbrev Wrote : WebSocketConn → Bytes → ℕ × WebSocketConn → Type 0
Wrote c p (n, d) = (n ≡ length p) × Queued c p d

nothing-Queued : (c : WebSocketConn) → Queued c [] c
nothing-Queued c = record {
  side = refl;
  sent_now = [];
  added = sym (append-nil c.sent);
  carried = refl;
  sized = tt;
}

write-Wrote : (c : WebSocketConn) (p : Bytes) → OkWith (Wrote c p) (write c p)
unfolding write
write-Wrote c [] = (refl, nothing-Queued c)
write-Wrote c (b ∷ s) =
    let p = b ∷ s in
    choose_OkWith (Wrote c p) (length p == 0) (ok (0, c)) _ (λ e. absurd (ground (arith, e)))
      (λ _.
        choose_OkWith (Wrote c p) (ltb max_web_socket_frame_payload (length p))
          (err payload_too_large) _ (λ e. tt)
          (λ e.
            bind-OkWith (SendsFrame c 2 p) (Wrote c p) (write_frame c 2 p) _
              (write_frame-SendsFrame c 2 p)
              (λ d (k, s). (
                refl,
                record {
                  side = s.side;
                  sent_now = (k, p) ∷ [];
                  added = s.added;
                  carried = append-nil p;
                  sized = (ground (arith, e), tt);
                },
              ))))

-- Several writes.
unfoldable pub write_all : WebSocketConn → List Bytes → Result FrameError WebSocketConn
unfolding write
write_all c [] = ok c
write_all c (p ∷ ps) = write c p >>= λ (n, d). write_all d ps

abbrev pub joined : List Bytes → Bytes
joined [] = []
joined (p ∷ ps) = p ++ joined ps

chain-Queued :
    (c d e : WebSocketConn) (p q : Bytes) → Queued c p d → Queued d q e → Queued c (p ++ q) e
chain-Queued c d e p q a b = record {
  side = b.side ∙ a.side;
  sent_now = a.sent_now ++ b.sent_now;
  added =
      b.added
      ∙ ap (λ s. s ++ wire d.client false (messages b.sent_now)) a.added
      ∙ append_assoc c.sent (wire c.client false (messages a.sent_now))
          (wire d.client false (messages b.sent_now))
      ∙ ap (◌++◌ c.sent) (
          ap (λ k. wire c.client false (messages a.sent_now) ++ wire k false (messages b.sent_now))
            a.side
          ∙ sym (wire-messages c.client a.sent_now b.sent_now));
  carried =
      payloads-messages a.sent_now b.sent_now
      ∙ ap (λ s. s ++ payloads (messages b.sent_now)) a.carried
      ∙ ap (◌++◌ p) b.carried;
  sized = messages-IsSized a.sent_now b.sent_now a.sized b.sized;
}

write_all-Queued :
    (ps : List Bytes) (c : WebSocketConn) → OkWith (Queued c (joined ps)) (write_all c ps)
unfolding write_all
write_all-Queued [] c = nothing-Queued c
write_all-Queued (p ∷ ps) c =
    bind-OkWith (Wrote c p) (Queued c (joined (p ∷ ps))) (write c p) _ (write-Wrote c p)
      (λ (n, d) w. ok-OkWith (Queued c (joined (p ∷ ps))) (write_all d ps) (λ e x.
        chain-Queued c d e p (joined ps) w.1
          (OkWith-ok (Queued d (joined ps)) (write_all d ps) (write_all-Queued ps d) x)))

-- Whatever one side writes, in writes of any sizes, the other side reads to the end of the stream as
-- the same bytes, with buffers of any size n that is not 0, and so with the message boundaries
-- gone: the reader holds the bytes that were sent, from either side of the connection.
pub read_all-write_all :
    (c d : WebSocketConn) (ps : List Bytes) (n : ℕ) (entropy : Bytes) (can_write : Bool)
    → c.sent ≡ []
    → write_all c ps ≡ ok d
    → 0 < n
    → read_all (length (joined ps) + 1) n (new_conn (not c.client) d.sent entropy can_write)
      ≡ ok (joined ps)
read_all-write_all c d ps n entropy can_write fresh e h =
    let q = OkWith-ok (Queued c (joined ps)) (write_all c ps) (write_all-Queued ps c) e in
    let sent : d.sent ≡ wire (not (not c.client)) false (messages q.sent_now) =
      q.added
      ∙ ap (λ s. s ++ wire c.client false (messages q.sent_now)) fresh
      ∙ ap (λ k. wire k false (messages q.sent_now)) (sym (twice c.client)) in
    read_all-Carries (length (joined ps) + 1) (new_conn (not c.client) d.sent entropy can_write) n
      (joined ps) [] (messages q.sent_now)
      (record {
        remaining = refl;
        bytes =
            sent
            ∙ sym (
                ap (λ b. b ++ wire (not (not c.client)) false (messages q.sent_now))
                  (unmasked_nil (new_conn (not c.client) d.sent entropy can_write)));
        sized = q.sized;
      })
      (sym q.carried) h (omega arith)
  where
    twice : (b : Bool) → not (not b) ≡ b
    twice true = refl
    twice false = refl
