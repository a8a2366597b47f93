-- ===== src/Tunnel/Frames/Loop.antt =====
-- The loop of `nextDataFrame`: each turn takes bytes from the reader, so the loop ends.
use dproxy.Base.{
  ℕ, zero, suc, ◌≤◌, ◌<◌, ◌≡◌, refl, ap, Bool, true, false, not, ◌||◌, ltb, leb, ◌==◌,
  if◌then◌else◌, Result, ok, err, length, drop, arith, length-drop,
}
use dproxy.Base.Text.{Bytes}
use dproxy.Tunnel.Frames.{
  FrameError, FrameHeader, WebSocketConn, FrameTurn, write_frame, read_header, on_frame, on_data,
  on_control, accept_frame, answer_ping, frame_turns, max_web_socket_frame_payload, malformed_frame,
  end_of_stream, again, ready, failed, control_payload,
}
use dproxy.Tunnel.Frames.Consumed.{
  is_real, Sound, Header, read_header-Header, SameInput, write_frame-SameInput,
}

-- A turn that fails as the code does, finds a frame, or goes on with fewer than n bytes.
abbrev Moves : ℕ → FrameTurn → Type 0
Moves n (failed e) = is_real e ≡ true
Moves n (ready d) = (0 < d.read_remaining) × (d.read_remaining ≤ max_web_socket_frame_payload)
Moves n (again d) = length d.input < n

choose_Moves :
    (n : ℕ) (b : Bool) (x y : FrameTurn)
    → (b ≡ true → Moves n x)
    → (b ≡ false → Moves n y)
    → Moves n (if b then x else y)
choose_Moves n true x y p q = p refl
choose_Moves n false x y p q = q refl

module _ (n : ℕ) (c : WebSocketConn) (h : FrameHeader) (rest : Bytes)
    (short : length rest < n) where
  answer_ping-settled :
      (d : WebSocketConn) (r : Result FrameError WebSocketConn)
      → length d.input < n
      → Sound (SameInput d) r
      → Moves n (answer_ping r)
  unfolding answer_ping
  answer_ping-settled d (ok e) l (i, _) = omega (arith, l, ap length i)
  answer_ping-settled d (err e) l s = s

  on_control-Moves : Moves n (on_control c h rest)
  unfolding on_control
  on_control-Moves =
      let d : WebSocketConn = record c { input = drop h.size rest } in
      let less : length (drop h.size rest) < n = omega (arith, short, length-drop h.size rest) in
      let closed = if h.opcode == 8 then failed end_of_stream else failed malformed_frame in
      let unanswered = if h.opcode == 10 then again d else closed in
      let reply = answer_ping (write_frame d 10 (control_payload h rest)) in
      let whole = if h.opcode == 9 then reply else unanswered in
      let bad = failed malformed_frame in
      let cut_off = ltb (length rest) h.size in
      choose_Moves n (not h.fin || ltb 125 h.size) bad (if cut_off then bad else whole) (λ _. refl)
        (λ _.
          choose_Moves n cut_off bad whole (λ _. refl)
            (λ _.
              choose_Moves n (h.opcode == 9) reply unanswered
                (λ _.
                  answer_ping-settled d _ less
                    (write_frame-SameInput d 10 (control_payload h rest)))
                (λ _.
                  choose_Moves n (h.opcode == 10) (again d) closed (λ _. less)
                    (λ _.
                      choose_Moves n (h.opcode == 8) (failed end_of_stream) bad (λ _. refl)
                        (λ _. refl)))))

  module _ (fits : h.size ≤ max_web_socket_frame_payload) where
    accept_frame-Moves : Moves n (accept_frame c h rest)
    unfolding accept_frame
    accept_frame-Moves =
        choose_Moves n (h.size == 0) _ _ (λ _. short) (λ e. (ground (arith, e), fits))

    on_data-Moves : Moves n (on_data c h rest)
    unfolding on_data
    on_data-Moves =
        choose_Moves n (h.opcode == 2) _ _
          (λ _.
            choose_Moves n c.fragmented (failed malformed_frame) _ (λ _. refl)
              (λ _. accept_frame-Moves))
          (λ _.
            choose_Moves n (h.opcode == 0) _ (failed malformed_frame)
              (λ _.
                choose_Moves n (not c.fragmented) (failed malformed_frame) _ (λ _. refl)
                  (λ _. accept_frame-Moves))
              (λ _. refl))

on_frame-Moves :
    (n : ℕ) (c : WebSocketConn) (r : Result FrameError (FrameHeader × Bytes))
    → Sound (Header n) r
    → Moves n (on_frame c r)
unfolding on_frame
on_frame-Moves n c (err e) s = s
on_frame-Moves n c (ok (h, rest)) (fits, short) =
    let less : length rest < n = omega (arith, short) in
    choose_Moves n _ (failed malformed_frame) _ (λ _. refl)
      (λ _.
        choose_Moves n (leb 8 h.opcode) _ _ (λ _. on_control-Moves n c h rest less)
          (λ _. on_data-Moves n c h rest less fits))

turn-Moves : (c : WebSocketConn) → Moves (length c.input) (on_frame c (read_header c.input))
turn-Moves c = on_frame-Moves (length c.input) c (read_header c.input) (read_header-Header c.input)

-- A frame of one byte at least, and of no more than the limit.
abbrev pub HasFrame : WebSocketConn → Type 0
HasFrame d = (0 < d.read_remaining) × (d.read_remaining ≤ max_web_socket_frame_payload)

settle :
    (n fuel : ℕ) (t : FrameTurn)
    → Moves n t
    → ((d : WebSocketConn) → length d.input < n → Sound HasFrame (frame_turns fuel d))
    → Sound HasFrame (elim t [ failed e ↦ err e | ready d ↦ ok d | again d ↦ frame_turns fuel d ])
settle n fuel (failed e) m f = m
settle n fuel (ready d) m f = m
settle n fuel (again d) m f = f d m

pub frame_turns-HasFrame :
    (fuel : ℕ) (c : WebSocketConn) → length c.input < fuel → Sound HasFrame (frame_turns fuel c)
unfolding frame_turns
frame_turns-HasFrame zero c h = absurd (omega (arith, h))
frame_turns-HasFrame (suc fuel) c h =
    settle (length c.input) fuel (on_frame c (read_header c.input)) (turn-Moves c)
      (λ d l. frame_turns-HasFrame fuel d (omega (arith, h, l)))

same_turns :
    (n f g : ℕ) (t : FrameTurn)
    → Moves n t
    → ((d : WebSocketConn) → length d.input < n → frame_turns f d ≡ frame_turns g d)
    → ◌≡◌ {A = Result FrameError WebSocketConn}
        (elim t [ failed e ↦ err e | ready d ↦ ok d | again d ↦ frame_turns f d ])
        (elim t [ failed e ↦ err e | ready d ↦ ok d | again d ↦ frame_turns g d ])
same_turns n f g (failed e) m k = refl
same_turns n f g (ready d) m k = refl
same_turns n f g (again d) m k = k d m

-- More fuel than bytes makes no difference.
pub frame_turns-fuel :
    (f g : ℕ) (c : WebSocketConn)
    → length c.input < f
    → length c.input < g
    → frame_turns f c ≡ frame_turns g c
unfolding frame_turns
frame_turns-fuel zero g c h k = absurd (omega (arith, h))
frame_turns-fuel (suc f) zero c h k = absurd (omega (arith, k))
frame_turns-fuel (suc f) (suc g) c h k =
    same_turns (length c.input) f g (on_frame c (read_header c.input)) (turn-Moves c)
      (λ d l. frame_turns-fuel f g d (omega (arith, h, l)) (omega (arith, k, l)))
