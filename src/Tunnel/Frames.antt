-- ===== src/Tunnel/Frames.antt =====
-- internal/tunnel/websocket_conn.go: WebSocket frames around a byte stream. The reader gives its
-- bytes and then the end, `entropy` is what the random source still gives, and the transport takes
-- every write or none. A connection that has failed is not used again, so an error keeps no state.
pub mod Masking
pub mod Headers
pub mod Wire
pub mod Turns
pub mod Stream
pub mod Delivery
pub mod Written
pub mod Messages
pub mod Consumed
pub mod Loop
pub mod Pings
pub mod Reads
use Prim.Native.Nat.{bit_xor}
use dproxy.Base.{
  ℕ, zero, suc, ◌+◌, ◌-◌, ◌*◌, ◌/◌, ◌%◌, ◌^◌, Bool, true, false, not, ◌||◌, Option, none, some, [],
  ◌∷◌, ◌++◌, ltb, leb, ◌==◌, if◌then◌else◌, Result, ok, err, ◌>>=◌, length, get_elem?, take, drop,
}
use dproxy.Base.Binary.{be16, put16, be32, put64}
use dproxy.Base.Text.{Bytes}

abbrev pub max_web_socket_frame_payload : ℕ
max_web_socket_frame_payload = 16 * 2 ^ 20

-- `no_fuel` is no error of the code: it stands for a loop that was cut off.
pub data FrameError : Type 0 where
  end_of_stream malformed_frame payload_too_large write_failed no_entropy no_fuel : FrameError

pub record WebSocketConn : Type 0 where
  pub client : Bool
  pub input : Bytes
  pub sent : Bytes
  pub entropy : Bytes
  pub can_write : Bool
  pub read_remaining : ℕ
  pub read_mask : Bytes
  pub read_mask_at : ℕ
  pub fragmented : Bool

-- `newWebSocketConn`
abbrev pub new_conn : Bool → Bytes → Bytes → Bool → WebSocketConn
new_conn client input entropy can_write = record {
  client = client;
  input = input;
  sent = [];
  entropy = entropy;
  can_write = can_write;
  read_remaining = 0;
  read_mask = 0 ∷ 0 ∷ 0 ∷ 0 ∷ [];
  read_mask_at = 0;
  fragmented = false;
}

-- `peerFramesAreMasked`
abbrev pub peer_frames_are_masked : WebSocketConn → Bool
peer_frames_are_masked c = not c.client

-- A byte of a mask, which has four.
abbrev pub mask_byte : Bytes → ℕ → ℕ
mask_byte mask i = elim (get_elem? mask (i % 4)) [ none ↦ 0 | some b ↦ b ]

unfoldable pub apply_mask : Bytes → Bytes → ℕ → Bytes
apply_mask [] mask offset = []
apply_mask (c ∷ payload) mask offset =
    bit_xor c (mask_byte mask offset) ∷ apply_mask payload mask (offset + 1)

-- `writeFull`: with nothing to write it does not touch the transport.
unfoldable pub write_full : WebSocketConn → Bytes → Result FrameError WebSocketConn
write_full c bytes =
    if length bytes == 0
    then ok c
    else if not c.can_write
    then err write_failed
    else ok (record c { sent = c.sent ++ bytes })

-- The second byte of a header, whose highest bit is the mask bit, and the extended length.
unfoldable pub frame_length : ℕ → ℕ → Bytes
frame_length mask_bit len =
    if leb len 125
    then (mask_bit + len) ∷ []
    else if leb len 65535
    then (mask_bit + 126) ∷ put16 len
    else (mask_bit + 127) ∷ put64 len

-- The four bytes that `io.ReadFull` takes from the random source.
take_entropy : Bytes → Option (Bytes × Bytes)
take_entropy (a ∷ b ∷ c ∷ d ∷ rest) = some (a ∷ b ∷ c ∷ d ∷ [], rest)
take_entropy _ = none

write_masked : WebSocketConn → ℕ → Bytes → Option (Bytes × Bytes) → Result FrameError WebSocketConn
unfolding write_full apply_mask frame_length
write_masked c opcode payload none = err no_entropy
write_masked c opcode payload (some (mask, entropy)) =
    write_full (record c { entropy = entropy })
      ((128 + opcode) ∷ (frame_length 128 (length payload) ++ mask))
    >>= λ d. write_full d (apply_mask payload mask 0)

unfoldable pub write_frame : WebSocketConn → ℕ → Bytes → Result FrameError WebSocketConn
unfolding write_masked take_entropy write_full frame_length
write_frame c opcode payload =
    if not c.client
    then (write_full c ((128 + opcode) ∷ frame_length 0 (length payload)) >>= λ d.
        write_full d payload)
    else write_masked c opcode payload (take_entropy c.entropy)

-- `Write`: how many bytes were written.
unfoldable pub write : WebSocketConn → Bytes → Result FrameError (ℕ × WebSocketConn)
unfolding write_frame
write c payload =
    if length payload == 0
    then ok (0, c)
    else if ltb max_web_socket_frame_payload (length payload)
    then err payload_too_large
    else write_frame c 2 payload >>= λ d. ok (length payload, d)

pub record FrameHeader : Type 0 where
  pub fin : Bool
  pub opcode : ℕ
  pub masked : Bool
  pub size : ℕ
  pub mask : Bytes

read_length16 : Bytes → Result FrameError (ℕ × Bytes)
read_length16 (a ∷ b ∷ rest) =
    if ltb (be16 a b) 126 then err malformed_frame else ok (be16 a b, rest)
read_length16 _ = err malformed_frame

read_length64 : Bytes → Result FrameError (ℕ × Bytes)
read_length64 (a ∷ b ∷ c ∷ d ∷ e ∷ f ∷ g ∷ h ∷ rest) =
    let size = be32 a b c d * 2 ^ 32 + be32 e f g h in
    if ltb size 65536 || not (size / 2 ^ 63 == 0) then err malformed_frame else ok (size, rest)
read_length64 _ = err malformed_frame

-- The switch over the seven bits of the length.
unfoldable pub read_length : ℕ → Bytes → Result FrameError (ℕ × Bytes)
unfolding read_length16 read_length64
read_length size rest =
    if size == 126
    then read_length16 rest
    else if size == 127
    then read_length64 rest
    else ok (size, rest)

unfoldable pub read_frame_mask : Bool → Bytes → Result FrameError (Bytes × Bytes)
read_frame_mask false rest = ok (0 ∷ 0 ∷ 0 ∷ 0 ∷ [], rest)
read_frame_mask true (a ∷ b ∷ c ∷ d ∷ rest) = ok (a ∷ b ∷ c ∷ d ∷ [], rest)
read_frame_mask true _ = err malformed_frame

-- Behind the length.
finish_header : ℕ → ℕ → ℕ × Bytes → Result FrameError (FrameHeader × Bytes)
unfolding read_frame_mask
finish_header first second (size, rest) =
    if ltb max_web_socket_frame_payload size
    then err malformed_frame
    else read_frame_mask (leb 128 second) rest >>= λ (mask, rest). ok (
      record {
        fin = leb 128 first;
        opcode = first % 16;
        masked = leb 128 second;
        size = size;
        mask = mask;
      },
      rest,
    )

-- `readHeader`
unfoldable pub read_header : Bytes → Result FrameError (FrameHeader × Bytes)
unfolding read_length finish_header
read_header [] = err end_of_stream
read_header (first ∷ []) = err malformed_frame
read_header (first ∷ second ∷ rest) =
    if not (first / 16 % 8 == 0)
    then err malformed_frame
    else read_length (second % 128) rest >>= finish_header first second

-- One turn of the loop of `nextDataFrame`.
pub data FrameTurn : Type 0 where
  failed : FrameError → FrameTurn
  ready : WebSocketConn → FrameTurn
  again : WebSocketConn → FrameTurn

-- What a control frame carries.
abbrev pub control_payload : FrameHeader → Bytes → Bytes
control_payload h rest =
    if h.masked then apply_mask (take h.size rest) h.mask 0 else take h.size rest

answer_ping : Result FrameError WebSocketConn → FrameTurn
answer_ping (err e) = failed e
answer_ping (ok c) = again c

unfoldable pub on_control : WebSocketConn → FrameHeader → Bytes → FrameTurn
unfolding write_frame answer_ping
on_control c h rest =
    if not h.fin || ltb 125 h.size
    then failed malformed_frame
    else if ltb (length rest) h.size
    then failed malformed_frame
    else if h.opcode == 9
    then answer_ping
        (write_frame (record c { input = drop h.size rest }) 10 (control_payload h rest))
    else if h.opcode == 10
    then again (record c { input = drop h.size rest })
    else if h.opcode == 8
    then failed end_of_stream
    else failed malformed_frame

pub accept_frame : WebSocketConn → FrameHeader → Bytes → FrameTurn
accept_frame c h rest =
    if h.size == 0
    then again (record c { input = rest; fragmented = not h.fin })
    else ready (record c {
      input = rest;
      fragmented = not h.fin;
      read_remaining = h.size;
      read_mask = h.mask;
      read_mask_at = 0;
    })

unfoldable pub on_data : WebSocketConn → FrameHeader → Bytes → FrameTurn
unfolding accept_frame
on_data c h rest =
    if h.opcode == 2
    then (if c.fragmented then failed malformed_frame else accept_frame c h rest)
    else if h.opcode == 0
    then (if not c.fragmented then failed malformed_frame else accept_frame c h rest)
    else failed malformed_frame

-- Whether two truth values differ.
abbrev pub differs : Bool → Bool → Bool
differs true b = not b
differs false b = b

unfoldable pub on_frame : WebSocketConn → Result FrameError (FrameHeader × Bytes) → FrameTurn
unfolding on_control on_data
on_frame c (err e) = failed e
on_frame c (ok (h, rest)) =
    if differs h.masked (peer_frames_are_masked c)
    then failed malformed_frame
    else if leb 8 h.opcode
    then on_control c h rest
    else on_data c h rest

unfoldable pub frame_turns : ℕ → WebSocketConn → Result FrameError WebSocketConn
unfolding on_frame read_header
frame_turns zero c = err no_fuel
frame_turns (suc fuel) c = elim (on_frame c (read_header c.input)) [
  | failed e ↦ err e
  | ready d ↦ ok d
  | again d ↦ frame_turns fuel d
]

-- `nextDataFrame`. Every turn reads two bytes or more.
unfoldable pub next_data_frame : WebSocketConn → Result FrameError WebSocketConn
unfolding frame_turns
next_data_frame c = frame_turns (length c.input + 1) c

-- The bytes and the state, or the bytes and the error.
pub data ReadOutcome : Type 0 where
  received : Bytes → WebSocketConn → ReadOutcome
  broken_off : Bytes → FrameError → ReadOutcome

abbrev pub min_of : ℕ → ℕ → ℕ
min_of a b = if ltb b a then b else a

-- Bytes of the payload, as the peer meant them.
abbrev pub unmasked : WebSocketConn → Bytes → Bytes
unmasked c bytes =
    if peer_frames_are_masked c then apply_mask bytes c.read_mask c.read_mask_at else bytes

unfoldable pub read_payload : WebSocketConn → ℕ → ReadOutcome
read_payload c n =
    let want = min_of n c.read_remaining in
    if ltb (length c.input) want
    then broken_off (unmasked c c.input) malformed_frame
    else received (unmasked c (take want c.input)) (record c {
      input = drop want c.input;
      read_remaining = c.read_remaining - want;
      read_mask_at = (if peer_frames_are_masked c then c.read_mask_at + want else c.read_mask_at);
    })

start_frame : WebSocketConn → Result FrameError WebSocketConn
unfolding next_data_frame
start_frame c = if c.read_remaining == 0 then next_data_frame c else ok c

pub finish_read : ℕ → Result FrameError WebSocketConn → ReadOutcome
unfolding read_payload
finish_read n (err e) = broken_off [] e
finish_read n (ok c) = read_payload c n

-- `Read` into a buffer of n bytes. The loop over `nextDataFrame` runs at most once, since a frame
-- that it returns for has bytes.
unfoldable pub read : WebSocketConn → ℕ → ReadOutcome
unfolding start_frame finish_read
read c n = if n == 0 then received [] c else finish_read n (start_frame c)
