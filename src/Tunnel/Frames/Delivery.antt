-- ===== src/Tunnel/Frames/Delivery.antt =====
-- `Read` on the frames that the peer writes, with buffers of any size.
use dproxy.Base.{
  ℕ, zero, suc, ◌+◌, ◌-◌, ◌≤◌, ◌<◌, ◌≡◌, refl, sym, ap, ◌∙◌, true, false, not, List, [], ◌∷◌, ◌++◌,
  ltb, ◌==◌, Result, ok, err, ◌>>=◌, length, take, drop, arith, length-append, append_assoc,
  take-append-drop, length-take_le, length-drop, take-append_le, drop-append_le,
}
use dproxy.Base.Text.{Bytes}
use dproxy.Tunnel.Frames.{
  FrameError, WebSocketConn, next_data_frame, frame_turns, read, read_payload, finish_read,
  start_frame, received, broken_off, end_of_stream, no_fuel, unmasked, min_of,
}
use dproxy.Tunnel.Frames.Masking.{
  moved, plain_nil, length-plain, plain-plain, take-plain, drop-plain,
}
use dproxy.Tunnel.Frames.Wire.{Frame, wire, payloads}
use dproxy.Tunnel.Frames.Stream.{Carries, Kept, Next, at_end, found, frame_turns-wire, length-wire}

module _ (c : WebSocketConn) (q : Bytes) (fs : List Frame) (k : Carries c q fs) where
  abbrev advance : ℕ → WebSocketConn
  advance m = record c {
    input = drop m c.input;
    read_remaining = c.read_remaining - m;
    read_mask_at = moved c.client c.read_mask_at m;
  }

  taken : (m : ℕ) → m ≤ length q → unmasked c (take m c.input) ≡ take m q
  taken m h =
      let p = unmasked c q in
      ap (λ i. unmasked c (take m i)) k.bytes
      ∙ ap (unmasked c) (
          take-append_le m p _
            (omega (arith, h, length-plain c.read_mask c.read_mask_at c.client q))
          ∙ take-plain c.read_mask c.read_mask_at c.client m q)
      ∙ plain-plain c.read_mask c.read_mask_at c.client (take m q)

  advanced : (m : ℕ) → m ≤ length q → Carries (advance m) (drop m q) fs
  advanced m h = record {
    remaining = omega (arith, k.remaining, length-drop m q);
    bytes =
        ap (drop m) k.bytes
        ∙ drop-append_le m (unmasked c q) _
            (omega (arith, h, length-plain c.read_mask c.read_mask_at c.client q))
        ∙ ap (λ b. b ++ wire (not c.client) c.fragmented fs)
            (drop-plain c.read_mask c.read_mask_at c.client m q);
    sized = k.sized;
  }

  read_payload-min :
      (n : ℕ)
      → read_payload c n ≡ received (take (min_of n (length q)) q) (advance (min_of n (length q)))
  unfolding read_payload
  read_payload-min n =
      let m = min_of n (length q) in
      let within_q : m ≤ length q = ground arith in
      let there : ltb (length c.input) (min_of n c.read_remaining) ≡ false = ground (
        arith,
        k.remaining,
        ap length k.bytes,
        length-append (unmasked c q) (wire (not c.client) c.fragmented fs),
        length-plain c.read_mask c.read_mask_at c.client q,
      ) in
      let same : min_of n c.read_remaining ≡ m = ap (min_of n) k.remaining in
      rw (there, read_payload)
        (ap (λ w. received (unmasked c (take w c.input)) (advance w)) same
          ∙ ap (λ b. received b (advance m)) (taken m within_q))

-- What reading n bytes gives where the peer has sent p and no more.
pub data Delivered (c : WebSocketConn) (n : ℕ) (p : Bytes) : Type 0 where
  finished : p ≡ [] → read c n ≡ broken_off [] end_of_stream → Delivered c n p
  delivered :
      (b rest : Bytes) (d : WebSocketConn)
      → read c n ≡ received b d
      → p ≡ b ++ rest
      → 0 < length b
      → length b ≤ n
      → (q : Bytes) (fs : List Frame) → Carries d q fs
      → rest ≡ q ++ payloads fs
      → Kept c d
      → Delivered c n p

nonzero : (n : ℕ) → 0 < n → (n == 0) ≡ false
nonzero n h = ground (arith, h)

take_some :
    (n : ℕ) (q : Bytes)
    → 0 < n
    → 0 < length q
    → 0 < length (take (min_of n (length q)) q) × length (take (min_of n (length q)) q) ≤ n
take_some n q h l =
    let e = length-take_le (min_of n (length q)) q (ground arith) in ground (arith, e, h, l)

-- Bytes of the open frame.
from_open :
    (c : WebSocketConn) (n : ℕ) (q : Bytes) (fs : List Frame) (k : Carries c q fs)
    → 0 < n
    → 0 < length q
    → (e : WebSocketConn) → Kept e c
    → read e n ≡ read_payload c n
    → Delivered e n (q ++ payloads fs)
from_open c n q fs k h l e kept step =
    let m = min_of n (length q) in
    let within_q : m ≤ length q = ground arith in
    let (some_taken, few) = take_some n q h l in
    delivered (take m q) (drop m q ++ payloads fs) (advance c q fs k m)
      (step ∙ read_payload-min c q fs k n)
      (ap (λ x. x ++ payloads fs) (sym (take-append-drop m q))
        ∙ append_assoc (take m q) (drop m q) (payloads fs))
      some_taken few (drop m q) fs (advanced c q fs k m within_q) refl
      (record {
        client_kept = kept.client_kept;
        sent_kept = kept.sent_kept;
        entropy_kept = kept.entropy_kept;
        can_write_kept = kept.can_write_kept;
      })

pub length-unmasked : (c : WebSocketConn) (p : Bytes) → length (unmasked c p) ≡ length p
length-unmasked c p = length-plain c.read_mask c.read_mask_at c.client p

pub unmasked_nil : (c : WebSocketConn) → unmasked c [] ≡ []
unmasked_nil c = plain_nil c.read_mask c.read_mask_at c.client

same_conn : (c : WebSocketConn) → Kept c c
same_conn c = record {
  client_kept = refl;
  sent_kept = refl;
  entropy_kept = refl;
  can_write_kept = refl;
}

from_next :
    (c : WebSocketConn) (n : ℕ) (fs : List Frame) (r : Result FrameError WebSocketConn)
    → 0 < n
    → read c n ≡ finish_read n r
    → Next c fs r
    → Delivered c n (payloads fs)
unfolding finish_read
from_next c n fs r h e (at_end p x) = finished p (e ∙ ap (finish_read n) x)
from_next c n fs r h e (found d x o) =
    rw o.joined
      (from_open d n o.now o.later o.carried h o.some_bytes c o.kept (e ∙ ap (finish_read n) x))

pub read-next_data_frame :
    (c : WebSocketConn) (n : ℕ)
    → 0 < n
    → c.read_remaining ≡ 0
    → read c n ≡ finish_read n (next_data_frame c)
unfolding read start_frame finish_read
read-next_data_frame c n h idle =
    let none_left : (c.read_remaining == 0) ≡ true = ground (arith, idle) in
    rw (nonzero n h, none_left, read, start_frame) refl

pub read-Carries :
    (c : WebSocketConn) (n : ℕ) (q : Bytes) (fs : List Frame)
    → Carries c q fs
    → 0 < n
    → Delivered c n (q ++ payloads fs)
unfolding read start_frame finish_read next_data_frame
read-Carries c n [] fs k h =
    let e : c.input ≡ wire (not c.client) c.fragmented fs =
      k.bytes ∙ ap (λ b. b ++ wire (not c.client) c.fragmented fs) (unmasked_nil c) in
    from_next c n fs (frame_turns (length c.input + 1) c) h (read-next_data_frame c n h k.remaining)
      (frame_turns-wire fs c (length c.input + 1) k.sized e
        (omega (arith, ap length e, length-wire (not c.client) c.fragmented fs)))
read-Carries c n (x ∷ q) fs k h =
    let busy : (c.read_remaining == 0) ≡ false = ground (arith, k.remaining) in
    from_open c n (x ∷ q) fs k h (omega arith) c (same_conn c)
      (rw (nonzero n h, busy, read, start_frame, finish_read) refl)

-- What reading with buffers of n bytes to the end of the stream gives.
unfoldable pub read_all : ℕ → ℕ → WebSocketConn → Result FrameError Bytes
read_all zero n c = err no_fuel
read_all (suc fuel) n c = elim (read c n) [
  | received b d ↦ (read_all fuel n d >>= λ rest. ok (b ++ rest))
  | broken_off b e ↦ elim e [ end_of_stream ↦ ok b | other ↦ err other ]
]

pub read_all-Carries :
    (fuel : ℕ) (c : WebSocketConn) (n : ℕ) (p : Bytes) (q : Bytes) (fs : List Frame)
    → Carries c q fs
    → p ≡ q ++ payloads fs
    → 0 < n
    → length p < fuel
    → read_all fuel n c ≡ ok p
unfolding read_all
read_all-Carries zero c n p q fs k e h l = absurd (omega (arith, l))
read_all-Carries (suc fuel) c n p q fs k e h l = elim (read-Carries c n q fs k h) [
  | finished over e2 ↦ rw (e2, read_all) (ap ok (sym (e ∙ over)))
  | delivered b rest d e2 joined full few q2 fs2 k2 same kept ↦
      let ih =
        read_all-Carries fuel d n rest q2 fs2 k2 same h
          (omega (arith, l, ap length e, ap length joined, length-append b rest, full)) in
      rw (e2, ih, read_all) (ap ok (sym (e ∙ joined)))
]
