-- ===== src/Tunnel/Frames/Stream.antt =====
-- `nextDataFrame` on the frames that the peer writes.
use dproxy.Base.{
  ℕ, zero, suc, ◌≤◌, ◌<◌, ◌≡◌, refl, sym, ap, ◌∙◌, Bool, true, false, not, List, [], ◌∷◌, ◌++◌,
  ◌==◌, if◌then◌else◌, Result, ok, err, length, All, arith,
}
use dproxy.Base.Text.{Bytes}
use dproxy.Tunnel.Frames.{
  FrameError, WebSocketConn, apply_mask, on_frame, frame_turns, accept_frame, read_header,
  end_of_stream, again, ready, unmasked,
}
use dproxy.Tunnel.Frames.Headers.{mask_taken}
use dproxy.Tunnel.Frames.Wire.{
  mask_bytes, Frame, part, pong, body, part_opcode, wire, payloads, IsSized,
}
use dproxy.Tunnel.Frames.Turns.{on_frame-part, on_frame-pong, length-frame}

-- The connection has q of the open frame to come, and behind it the frames.
pub record Carries (c : WebSocketConn) (q : Bytes) (fs : List Frame) : Type 0 where
  pub remaining : c.read_remaining ≡ length q
  pub bytes : c.input ≡ unmasked c q ++ wire (not c.client) c.fragmented fs
  pub sized : All IsSized fs

-- What reading leaves alone.
pub record Kept (c d : WebSocketConn) : Type 0 where
  pub client_kept : d.client ≡ c.client
  pub sent_kept : d.sent ≡ c.sent
  pub entropy_kept : d.entropy ≡ c.entropy
  pub can_write_kept : d.can_write ≡ c.can_write

-- An open frame, once one is found.
pub record Opened (c d : WebSocketConn) (fs : List Frame) : Type 0 where
  pub now : Bytes
  pub later : List Frame
  pub carried : Carries d now later
  pub kept : Kept c d
  pub some_bytes : 0 < length now
  pub joined : payloads fs ≡ now ++ payloads later

-- How the loop ends: without data at the end of the stream, or with an open frame.
pub data Next (c : WebSocketConn) (fs : List Frame) (r : Result FrameError WebSocketConn)
    : Type 0 where
  at_end : payloads fs ≡ [] → r ≡ err end_of_stream → Next c fs r
  found : (d : WebSocketConn) → r ≡ ok d → Opened c d fs → Next c fs r

kept_again :
    (c d : WebSocketConn) (i : Bytes) (f : Bool) (fs : List Frame)
    → Opened (record c { input = i; fragmented = f }) d fs
    → Opened c d fs
kept_again c d i f fs o = record {
  now = o.now;
  later = o.later;
  carried = o.carried;
  some_bytes = o.some_bytes;
  joined = o.joined;
  kept = record {
    client_kept = o.kept.client_kept;
    sent_kept = o.kept.sent_kept;
    entropy_kept = o.kept.entropy_kept;
    can_write_kept = o.kept.can_write_kept;
  };
}

body_nil : (masked : Bool) (mask : Bytes) → body masked mask [] ≡ []
unfolding apply_mask
body_nil true mask = refl
body_nil false mask = refl

unmasked_body :
    (client : Bool) (mask p : Bytes)
    → (if not client then apply_mask p (mask_taken (not client) mask) 0 else p)
      ≡ body (not client) mask p
unmasked_body true mask p = refl
unmasked_body false mask p = refl

-- A turn that goes on.
pub step_again :
    (c d : WebSocketConn) (fuel : ℕ)
    → on_frame c (read_header c.input) ≡ again d
    → frame_turns (suc fuel) c ≡ frame_turns fuel d
unfolding frame_turns
step_again c d fuel e = rw (e, frame_turns) refl

step_ready :
    (c d : WebSocketConn) (fuel : ℕ)
    → on_frame c (read_header c.input) ≡ ready d
    → frame_turns (suc fuel) c ≡ ok d
unfolding frame_turns
step_ready c d fuel e = rw (e, frame_turns) refl

step_end :
    (c : WebSocketConn) (fuel : ℕ) → c.input ≡ [] → frame_turns (suc fuel) c ≡ err end_of_stream
unfolding frame_turns on_frame read_header
step_end c fuel e = rw (e, frame_turns) refl

next_skipped :
    (c : WebSocketConn) (i : Bytes) (f : Bool) (g : Frame) (fs : List Frame) (fuel : ℕ)
    → frame_turns (suc fuel) c ≡ frame_turns fuel (record c { input = i; fragmented = f })
    → payloads (g ∷ fs) ≡ payloads fs
    → Next
        (record c { input = i; fragmented = f })
        fs
        (frame_turns fuel (record c { input = i; fragmented = f }))
    → Next c (g ∷ fs) (frame_turns (suc fuel) c)
next_skipped c i f g fs fuel e same (at_end p r) = at_end (same ∙ p) (e ∙ r)
next_skipped c i f g fs fuel e same (found d r o) = found d (e ∙ r) (record {
  now = o.now;
  later = o.later;
  carried = o.carried;
  some_bytes = o.some_bytes;
  joined = same ∙ o.joined;
  kept = (kept_again c d i f fs o).kept;
})

some_there : (p : Bytes) → (suc (length p) == 0) ≡ false
some_there p = ground arith

pub frame_turns-wire :
    (fs : List Frame) (c : WebSocketConn) (fuel : ℕ)
    → All IsSized fs
    → c.input ≡ wire (not c.client) c.fragmented fs
    → length fs < fuel
    → Next c fs (frame_turns fuel c)
unfolding accept_frame
frame_turns-wire fs c zero sized e h = absurd (omega (arith, h))
frame_turns-wire [] c (suc fuel) sized e h = at_end refl (step_end c fuel e)
frame_turns-wire (pong k p ∷ fs) c (suc fuel) (small, sized) e h =
    let s = wire (not c.client) c.fragmented fs in
    next_skipped c s c.fragmented (pong k p) fs fuel
      (step_again c (record c { input = s }) fuel (on_frame-pong c k p s small e)) refl
      (frame_turns-wire fs (record c { input = s }) fuel sized refl (omega (arith, h)))
frame_turns-wire (part fin k [] ∷ fs) c (suc fuel) (small, sized) e h =
    let s = wire (not c.client) (not fin) fs in
    let d : WebSocketConn = record c {
      input = body (not c.client) (mask_bytes k) [] ++ s;
      fragmented = not fin;
    } in
    next_skipped c (body (not c.client) (mask_bytes k) [] ++ s) (not fin) (part fin k []) fs fuel
      (step_again c d fuel (on_frame-part c k [] s fin small e)) refl
      (frame_turns-wire fs d fuel sized (ap (λ b. b ++ s) (body_nil (not c.client) (mask_bytes k)))
        (omega (arith, h)))
frame_turns-wire (part fin k (b ∷ p) ∷ fs) c (suc fuel) (small, sized) e h =
    let s = wire (not c.client) (not fin) fs in
    let d : WebSocketConn = record c {
      input = body (not c.client) (mask_bytes k) (b ∷ p) ++ s;
      fragmented = not fin;
      read_remaining = length (b ∷ p);
      read_mask = mask_taken (not c.client) (mask_bytes k);
      read_mask_at = 0;
    } in
    found d (step_ready c d fuel (on_frame-part c k (b ∷ p) s fin small e ∙ rw (some_there p) refl))
      (record {
        now = b ∷ p;
        later = fs;
        some_bytes = omega arith;
        joined = refl;
        carried = record {
          remaining = refl;
          bytes = sym (ap (λ b. b ++ s) (unmasked_body c.client (mask_bytes k) (b ∷ p)));
          sized = sized;
        };
        kept = record {
          client_kept = refl;
          sent_kept = refl;
          entropy_kept = refl;
          can_write_kept = refl;
        };
      })

-- A frame is a byte at least.
pub length-wire :
    (masked inside : Bool) (fs : List Frame) → length fs ≤ length (wire masked inside fs)
length-wire masked inside [] = omega arith
length-wire masked inside (part fin k p ∷ fs) =
    let s = wire masked (not fin) fs in
    omega
      (arith, length-wire masked (not fin) fs, length-frame masked fin (part_opcode inside) k p s)
length-wire masked inside (pong k p ∷ fs) =
    let s = wire masked inside fs in
    omega (arith, length-wire masked inside fs, length-frame masked true 10 k p s)
