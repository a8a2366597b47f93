-- ===== src/Tunnel/Frames/Headers.antt =====
-- `readHeader` on the frames that `writeFrame` writes.
use dproxy.Base.{
  ℕ, ◌+◌, ◌*◌, ◌/◌, ◌%◌, ◌^◌, ◌≤◌, ◌<◌, ◌≡◌, refl, inl, inr, Bool, true, false, [], ◌∷◌, ◌++◌, ltb,
  leb, ◌==◌, ok, arith, Bool-cases,
}
use dproxy.Base.Binary.{be16, put16, be32, put64}
use dproxy.Base.Text.{Bytes}
use dproxy.Tunnel.Frames.{
  FrameHeader, frame_length, read_length, read_length16, read_length64, read_frame_mask,
  finish_header, read_header, max_web_socket_frame_payload,
}

-- The highest bit of a byte.
abbrev pub flag_bit : Bool → ℕ
flag_bit true = 128
flag_bit false = 0

-- How a length is written and read back.
record Length (masked : Bool) (len : ℕ) : Type 0 where
  second : ℕ
  extension : Bytes
  written : frame_length (flag_bit masked) len ≡ second ∷ extension
  flagged : leb 128 second ≡ masked
  read_back : (s : Bytes) → read_length (second % 128) (extension ++ s) ≡ ok (len, s)

short-Length : (masked : Bool) (len : ℕ) → len ≤ 125 → Length masked len
unfolding frame_length read_length
short-Length true len h = record {
  second = 128 + len;
  extension = [];
  written = ground arith;
  flagged = ground arith;
  read_back = λ s. ground arith;
}
short-Length false len h = record {
  second = len;
  extension = [];
  written = ground arith;
  flagged = ground arith;
  read_back = λ s. ground arith;
}

big16 : (len : ℕ) → len ≤ 65535 → be16 (len / 2 ^ 8 % 256) (len % 256) ≡ len
big16 len h = omega arith

read_length16-put16 :
    (len : ℕ) (s : Bytes) → 126 ≤ len → len ≤ 65535 → read_length16 (put16 len ++ s) ≡ ok (len, s)
unfolding read_length16
read_length16-put16 len s l h = rw (big16 len h) (ground arith)

medium-Length : (masked : Bool) (len : ℕ) → 126 ≤ len → len ≤ 65535 → Length masked len
unfolding frame_length read_length
medium-Length true len l h = record {
  second = 254;
  extension = put16 len;
  written = ground arith;
  flagged = refl;
  read_back = λ s. read_length16-put16 len s l h;
}
medium-Length false len l h = record {
  second = 126;
  extension = put16 len;
  written = ground arith;
  flagged = refl;
  read_back = λ s. read_length16-put16 len s l h;
}

big64 :
    (len : ℕ)
    → len < 2 ^ 32
    → be32 (len / 2 ^ 56 % 256) (len / 2 ^ 48 % 256) (len / 2 ^ 40 % 256) (len / 2 ^ 32 % 256)
          * 2 ^ 32
        + be32 (len / 2 ^ 24 % 256) (len / 2 ^ 16 % 256) (len / 2 ^ 8 % 256) (len % 256)
      ≡ len
big64 len h = omega arith

read_length64-put64 :
    (len : ℕ) (s : Bytes)
    → 65536 ≤ len
    → len < 2 ^ 32
    → read_length64 (put64 len ++ s) ≡ ok (len, s)
unfolding read_length64
read_length64-put64 len s l h = rw (big64 len h) (ground arith)

long-Length : (masked : Bool) (len : ℕ) → 65536 ≤ len → len < 2 ^ 32 → Length masked len
unfolding frame_length read_length
long-Length true len l h = record {
  second = 255;
  extension = put64 len;
  written = ground arith;
  flagged = refl;
  read_back = λ s. read_length64-put64 len s l h;
}
long-Length false len l h = record {
  second = 127;
  extension = put64 len;
  written = ground arith;
  flagged = refl;
  read_back = λ s. read_length64-put64 len s l h;
}

any-Length : (masked : Bool) (len : ℕ) → len ≤ 16 * 2 ^ 20 → Length masked len
any-Length masked len h = elim (Bool-cases (leb len 125)) [
  | inl e ↦ short-Length masked len (ground (arith, e))
  | inr e ↦ elim (Bool-cases (leb len 65535)) [
    | inl f ↦ medium-Length masked len (ground (arith, e)) (ground (arith, f))
    | inr f ↦ long-Length masked len (ground (arith, f)) (omega arith)
  ]
]

-- The mask that stands in a frame.
abbrev pub mask_field : Bool → Bytes → Bytes
mask_field true mask = mask
mask_field false mask = []

-- The mask that the reader takes from it.
abbrev pub mask_taken : Bool → Bytes → Bytes
mask_taken true mask = mask
mask_taken false mask = 0 ∷ 0 ∷ 0 ∷ 0 ∷ []

read_frame_mask-mask_field :
    (masked : Bool) (a b c d : ℕ) (s : Bytes)
    → read_frame_mask masked (mask_field masked (a ∷ b ∷ c ∷ d ∷ []) ++ s)
      ≡ ok (mask_taken masked (a ∷ b ∷ c ∷ d ∷ []), s)
unfolding read_frame_mask
read_frame_mask-mask_field true a b c d s = refl
read_frame_mask-mask_field false a b c d s = refl

finish_header-mask_field :
    (masked : Bool) (first second len a b c d : ℕ) (s : Bytes)
    → len ≤ 16 * 2 ^ 20
    → leb 128 second ≡ masked
    → finish_header first second (len, mask_field masked (a ∷ b ∷ c ∷ d ∷ []) ++ s)
      ≡ ok (
        record {
          fin = leb 128 first;
          opcode = first % 16;
          masked = masked;
          size = len;
          mask = mask_taken masked (a ∷ b ∷ c ∷ d ∷ []);
        },
        s,
      )
unfolding finish_header
finish_header-mask_field masked first second len a b c d s h flag =
    let fits : ltb max_web_socket_frame_payload len ≡ false = ground (arith, h) in
    rw (fits, flag, finish_header) (rw (read_frame_mask-mask_field masked a b c d s) refl)

abbrev pub header_of : Bool → Bool → ℕ → ℕ → Bytes → FrameHeader
header_of masked fin opcode size mask = record {
  fin = fin;
  opcode = opcode;
  masked = masked;
  size = size;
  mask = mask_taken masked mask;
}

first_byte :
    (fin : Bool) (op : ℕ)
    → op < 16
    → (((flag_bit fin + op) / 16 % 8 == 0) ≡ true)
      × (leb 128 (flag_bit fin + op) ≡ fin)
      × ((flag_bit fin + op) % 16 ≡ op)
first_byte true op h = ground arith
first_byte false op h = ground arith

pub read_header-frame_length :
    (masked fin : Bool) (op len a b c d : ℕ) (s : Bytes)
    → op < 16
    → len ≤ 16 * 2 ^ 20
    → read_header (
        (flag_bit fin + op)
        ∷ (frame_length (flag_bit masked) len ++ (mask_field masked (a ∷ b ∷ c ∷ d ∷ []) ++ s)))
      ≡ ok (header_of masked fin op len (a ∷ b ∷ c ∷ d ∷ []), s)
unfolding read_header
read_header-frame_length masked fin op len a b c d s small h =
    let l = any-Length masked len h in
    let (reserved, final, same) = first_byte fin op small in
    rw
      (
        l.written,
        reserved,
        l.read_back (mask_field masked (a ∷ b ∷ c ∷ d ∷ []) ++ s),
        finish_header-mask_field masked (flag_bit fin + op) l.second len a b c d s h l.flagged,
        final,
        same,
      )
      refl
