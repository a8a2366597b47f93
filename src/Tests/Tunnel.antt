-- ===== src/Tests/Tunnel.antt =====
-- Runs of the WebSocket connection, and its theorems at concrete inputs.
use dproxy.Base.{Option, none, some, ◌≡◌, refl, true, false, List, [], ◌∷◌, ◌++◌, ok, arith}
use dproxy.Base.Text.{Bytes, codes, equal, split, trim}
use dproxy.Tunnel.Handshake.{
  fold, HttpResponse, refused, accepted, switched, equal_fold, header_has_token, upgrade_header,
  accept_web_socket, validate_upgrade, failure_redirect,
}
use dproxy.Tunnel.Handshake.Agreement.{validate_upgrade-accept_web_socket}
use dproxy.Tunnel.Frames.{
  apply_mask, frame_length, WebSocketConn, new_conn, read, broken_off, write_frame, malformed_frame,
  end_of_stream,
}
use dproxy.Tunnel.Frames.Wire.{Mask, frame_bytes}
use dproxy.Tunnel.Frames.Delivery.{read_all}
use dproxy.Tunnel.Frames.Messages.{write_all, read_all-write_all}
use dproxy.Tunnel.Frames.Pings.{read-ping}
use dproxy.Tunnel.Frames.Reads.{Settled, read-Settled}

-- The client's side, with random bytes for two frames.
abbrev client_side : WebSocketConn
client_side = new_conn true [] (1 ∷ 2 ∷ 3 ∷ 4 ∷ 5 ∷ 6 ∷ 7 ∷ 8 ∷ []) true

abbrev two_writes : List Bytes
two_writes = codes "hi" ∷ codes "!" ∷ []

-- What the two writes leave.
abbrev client_done : WebSocketConn
client_done = record client_side {
  entropy = [];
  sent = 130 ∷ 130 ∷ 1 ∷ 2 ∷ 3 ∷ 4 ∷ 105 ∷ 107 ∷ 130 ∷ 129 ∷ 5 ∷ 6 ∷ 7 ∷ 8 ∷ 36 ∷ [];
}

client_writes : write_all client_side two_writes ≡ ok client_done
unfolding write_all
client_writes = refl

-- The server reads them a byte at a time.
read_all-write_all_example :
    read_all 4 1 (new_conn false client_done.sent [] true) ≡ ok (codes "hi!")
read_all-write_all_example =
    read_all-write_all client_side client_done two_writes 1 [] true refl client_writes (omega arith)

-- A server's connection that holds a ping of the client and then the end.
abbrev ping_mask : Mask
ping_mask = record { m0 = 0; m1 = 0; m2 = 0; m3 = 0 }

abbrev pinged : WebSocketConn
pinged = new_conn false (137 ∷ 129 ∷ 0 ∷ 0 ∷ 0 ∷ 0 ∷ 7 ∷ []) [] true

abbrev answered : WebSocketConn
answered = record pinged { input = []; sent = 138 ∷ 1 ∷ 7 ∷ [] }

pong_written : write_frame (record pinged { input = [] }) 10 (7 ∷ []) ≡ ok answered
unfolding write_frame
pong_written = refl

read-ping_example :
    (read pinged 5 ≡ read answered 5)
    × (answered.input ≡ [])
    × ((m : Mask) × (answered.sent ≡ pinged.sent ++ frame_bytes false true 10 m (7 ∷ []) []))
unfolding frame_length apply_mask
read-ping_example =
    read-ping pinged answered ping_mask (7 ∷ []) [] 5 (omega arith) (omega arith) refl refl
      pong_written

read-Settled_example : Settled 5 (read pinged 5)
read-Settled_example = read-Settled pinged 5 (omega arith) (omega arith)

-- A frame from a client that is not masked, one whose length is not written the shortest way, a
-- continuation of nothing, and half a header.
bad_frames :
    (read (new_conn false (130 ∷ 1 ∷ 7 ∷ []) [] true) 5 ≡ broken_off [] malformed_frame)
    × (read (new_conn true (130 ∷ 126 ∷ 0 ∷ 5 ∷ []) [] true) 5 ≡ broken_off [] malformed_frame)
    × (read (new_conn true (128 ∷ 1 ∷ 7 ∷ []) [] true) 5 ≡ broken_off [] malformed_frame)
    × (read (new_conn true (130 ∷ []) [] true) 5 ≡ broken_off [] malformed_frame)
    × (read (new_conn true (136 ∷ 0 ∷ []) [] true) 5 ≡ broken_off [] end_of_stream)
unfolding read
bad_frames = (refl, refl, refl, refl, refl)

-- A base64 and a SHA-1 that leave their bytes as they are.
abbrev same_bytes : Bytes → Bytes
same_bytes s = s

abbrev all_bytes : Bytes → Option Bytes
all_bytes s = some s

abbrev nonce : Bytes
nonce = codes "0123456789abcdef"

validate_upgrade-accept_web_socket_example :
    (r : HttpResponse) × (accept_web_socket same_bytes same_bytes all_bytes
        (record { http_method = codes "GET"; header = upgrade_header (codes "r.io") nonce })
        switched
      ≡ accepted r)
    × (validate_upgrade same_bytes same_bytes all_bytes r nonce ≡ none)
validate_upgrade-accept_web_socket_example =
    validate_upgrade-accept_web_socket same_bytes same_bytes all_bytes nonce (codes "r.io") refl
      refl

-- Tokens in other letters, a redirect, and a method that is not GET.
handshakes :
    (equal_fold (codes "WebSocket") (codes "websocket") ≡ true)
    × (header_has_token (codes "keep-alive, Upgrade") (codes "upgrade") ≡ true)
    × (header_has_token (codes "keep-alive") (codes "upgrade") ≡ false)
    × (validate_upgrade same_bytes same_bytes all_bytes
          (record { status_code = 302; response_header = [] })
          nonce
        ≡ some failure_redirect)
    × (accept_web_socket same_bytes same_bytes all_bytes
          (record { http_method = codes "POST"; header = [] })
          switched
        ≡ refused 405 ((codes "Allow", codes "GET") ∷ []))
unfolding equal_fold header_has_token fold equal trim split validate_upgrade accept_web_socket
handshakes = (refl, refl, refl, refl, refl)
