-- ===== src/Tunnel/Frames/Wire.antt =====
-- Frames as the two sides write them: data in parts, and pongs between them.
use dproxy.Base.{ℕ, ◌+◌, ◌*◌, ◌^◌, ◌≤◌, Bool, true, false, not, List, [], ◌∷◌, ◌++◌, length}
use dproxy.Base.Text.{Bytes}
use dproxy.Tunnel.Frames.{apply_mask, frame_length}
use dproxy.Tunnel.Frames.Headers.{flag_bit, mask_field}

-- The four bytes of a mask.
pub record Mask : Type 0 where
  pub m0 : ℕ
  pub m1 : ℕ
  pub m2 : ℕ
  pub m3 : ℕ

abbrev pub mask_bytes : Mask → Bytes
mask_bytes k = k.m0 ∷ k.m1 ∷ k.m2 ∷ k.m3 ∷ []

-- A part of a message, which says whether it is the last one, or a pong.
pub data Frame : Type 0 where
  part : Bool → Mask → Bytes → Frame
  pong : Mask → Bytes → Frame

abbrev pub body : Bool → Bytes → Bytes → Bytes
body true mask p = apply_mask p mask 0
body false mask p = p

-- A frame in front of s.
abbrev pub frame_bytes : Bool → Bool → ℕ → Mask → Bytes → Bytes → Bytes
frame_bytes masked fin op k p s =
    (flag_bit fin + op)
    ∷ (frame_length (flag_bit masked) (length p)
        ++ (mask_field masked (mask_bytes k) ++ (body masked (mask_bytes k) p ++ s)))

abbrev pub part_opcode : Bool → ℕ
part_opcode true = 0
part_opcode false = 2

-- The frames as bytes, from inside a message or from between two.
abbrev pub wire : Bool → Bool → List Frame → Bytes
wire masked inside [] = []
wire masked inside (part fin k p ∷ fs) =
    frame_bytes masked fin (part_opcode inside) k p (wire masked (not fin) fs)
wire masked inside (pong k p ∷ fs) = frame_bytes masked true 10 k p (wire masked inside fs)

-- The bytes that the frames carry.
abbrev pub payloads : List Frame → Bytes
payloads [] = []
payloads (part fin k p ∷ fs) = p ++ payloads fs
payloads (pong k p ∷ fs) = payloads fs

abbrev pub IsSized : Frame → Type 0
IsSized (part fin k p) = length p ≤ 16 * 2 ^ 20
IsSized (pong k p) = length p ≤ 125
