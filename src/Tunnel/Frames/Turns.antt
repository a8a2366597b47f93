-- ===== src/Tunnel/Frames/Turns.antt =====
-- One turn of `nextDataFrame` on a frame that the peer writes.
use dproxy.Base.{
  ℕ, ◌*◌, ◌^◌, ◌≤◌, ◌<◌, ◌≡◌, refl, sym, ap, ◌∙◌, inl, inr, Bool, true, false, not, ◌++◌, ltb, ok,
  length, drop, arith, Bool-cases, length-append, drop-append,
}
use dproxy.Base.Text.{Bytes}
use dproxy.Tunnel.Frames.{
  WebSocketConn, frame_length, on_frame, on_data, on_control, accept_frame, read_header, again,
  differs,
}
use dproxy.Tunnel.Frames.Masking.{length-apply_mask}
use dproxy.Tunnel.Frames.Headers.{flag_bit, mask_field, header_of, read_header-frame_length}
use dproxy.Tunnel.Frames.Wire.{Mask, mask_bytes, body, frame_bytes, part_opcode}

pub length-body : (masked : Bool) (mask p : Bytes) → length (body masked mask p) ≡ length p
length-body true mask p = length-apply_mask mask p 0
length-body false mask p = refl

pub differs_self : (b : Bool) → differs b b ≡ false
differs_self true = refl
differs_self false = refl

-- The rest behind a frame's payload.
pub drop-body : (masked : Bool) (mask p s : Bytes) → drop (length p) (body masked mask p ++ s) ≡ s
drop-body masked mask p s =
    rw (sym (length-body masked mask p)) (drop-append (body masked mask p) s)

module _ (c : WebSocketConn) (k : Mask) (p s : Bytes) where
  on_data-part :
      (inside fin : Bool)
      → c.fragmented ≡ inside
      → on_frame c (
          ok (
            header_of (not c.client) fin (part_opcode inside) (length p) (mask_bytes k),
            body (not c.client) (mask_bytes k) p ++ s,
          ))
        ≡ accept_frame c
            (header_of (not c.client) fin (part_opcode inside) (length p) (mask_bytes k))
            (body (not c.client) (mask_bytes k) p ++ s)
  unfolding on_frame on_data
  on_data-part true fin e = rw (differs_self (not c.client), e, on_data) refl
  on_data-part false fin e = rw (differs_self (not c.client), e, on_data) refl

  pub on_frame-part :
      (fin : Bool)
      → length p ≤ 16 * 2 ^ 20
      → c.input ≡ frame_bytes (not c.client) fin (part_opcode c.fragmented) k p s
      → on_frame c (read_header c.input)
        ≡ accept_frame c
            (header_of (not c.client) fin (part_opcode c.fragmented) (length p) (mask_bytes k))
            (body (not c.client) (mask_bytes k) p ++ s)
  on_frame-part fin h e =
      let small : part_opcode c.fragmented < 16 = elim (Bool-cases c.fragmented) [
        | inl e ↦ rw e (omega arith)
        | inr e ↦ rw e (omega arith)
      ] in
      ap (λ i. on_frame c (read_header i)) e
      ∙ ap (on_frame c) (
          read_header-frame_length (not c.client) fin (part_opcode c.fragmented) (length p) k.m0
            k.m1 k.m2 k.m3 (body (not c.client) (mask_bytes k) p ++ s) small h)
      ∙ on_data-part c.fragmented fin refl

  pub on_frame-pong :
      length p ≤ 125
      → c.input ≡ frame_bytes (not c.client) true 10 k p s
      → on_frame c (read_header c.input) ≡ again (record c { input = s })
  unfolding on_frame on_control
  on_frame-pong h e =
      let payload = body (not c.client) (mask_bytes k) p in
      let short : ltb 125 (length p) ≡ false = ground (arith, h) in
      let there : ltb (length (payload ++ s)) (length p) ≡ false =
        ground (arith, length-append payload s, length-body (not c.client) (mask_bytes k) p) in
      ap (λ i. on_frame c (read_header i)) e
      ∙ ap (on_frame c) (
          read_header-frame_length (not c.client) true 10 (length p) k.m0 k.m1 k.m2 k.m3
            (payload ++ s) (omega arith) (omega (arith, h)))
      ∙ rw
          (
            differs_self (not c.client),
            short,
            there,
            drop-body (not c.client) (mask_bytes k) p s,
            on_frame,
            on_control,
          )
          refl

pub length-frame :
    (masked fin : Bool) (op : ℕ) (k : Mask) (p s : Bytes)
    → length s < length (frame_bytes masked fin op k p s)
length-frame masked fin op k p s =
    let mask = mask_field masked (mask_bytes k) in
    let b = body masked (mask_bytes k) p in
    omega (
      arith,
      length-append (frame_length (flag_bit masked) (length p)) (mask ++ (b ++ s)),
      length-append mask (b ++ s),
      length-append b s,
    )
