-- ===== src/Tunnel/Handshake.antt =====
-- internal/tunnel/websocket.go: the opening handshake of both sides. SHA-1 and base64 are parameters;
-- net/http makes headers of the bytes and gives them by `Get`. Deadlines are left out.
pub mod Agreement
use dproxy.Base.{
  ℕ, ◌+◌, Bool, true, false, not, ◌||◌, ◌&&◌, Option, none, some, List, [], ◌∷◌, ◌++◌, leb, ltb,
  ◌==◌, within, if◌then◌else◌, length,
}
use dproxy.Base.Text.{Bytes, codes, equal, split, trim}

abbrev pub websocket_guid : Bytes
websocket_guid = codes "258EAFA5-E914-47DA-95CA-5AB0DC85B11F"

abbrev pub websocket_version : Bytes
websocket_version = codes "13"

-- The header of a message, and its `Get` of a name in its canonical form.
abbrev pub Header : Type 0
Header = List (Bytes × Bytes)

unfoldable pub get_header : Bytes → Header → Bytes
unfolding equal
get_header name [] = []
get_header name ((n, value) ∷ rest) =
    let later = get_header name rest in if equal n name then value else later

-- `unicode.SimpleFold` as far as it meets ASCII: the capital letters, U+017F as s and U+212A as k.
unfoldable pub fold : Bytes → Bytes
fold [] = []
fold (c ∷ []) = (if within b'A' b'Z' c then c + 32 else c) ∷ []
fold (c ∷ d ∷ []) =
    let rest = fold (d ∷ []) in
    if within b'A' b'Z' c
    then (c + 32) ∷ rest
    else if c == 0xc5 && d == 0xbf
    then b's' ∷ []
    else c ∷ rest
fold (c ∷ d ∷ e ∷ s) =
    let rest = fold (d ∷ e ∷ s) in
    let after_two = fold (e ∷ s) in
    let after_three = fold s in
    if within b'A' b'Z' c
    then (c + 32) ∷ rest
    else if c == 0xc5 && d == 0xbf
    then b's' ∷ after_two
    else if c == 0xe2 && (d == 0x84 && e == 0xaa)
    then b'k' ∷ after_three
    else c ∷ rest

-- `strings.EqualFold` with a token of lower-case ASCII
unfoldable pub equal_fold : Bytes → Bytes → Bool
unfolding equal fold
equal_fold value token = equal (fold value) token

-- The bytes that `textproto.TrimString` trims.
abbrev is_header_space : ℕ → Bool
is_header_space c = c == b' ' || (c == 9 || (c == 10 || c == 13))

any_token : Bytes → List Bytes → Bool
unfolding equal_fold trim
any_token token [] = false
any_token token (c ∷ candidates) =
    equal_fold (trim is_header_space c) token || any_token token candidates

-- `headerHasToken`
unfoldable pub header_has_token : Bytes → Bytes → Bool
unfolding any_token split
header_has_token value token = any_token token (split b',' value)

pub record HttpRequest : Type 0 where
  pub http_method : Bytes
  pub header : Header

pub record HttpResponse : Type 0 where
  pub status_code : ℕ
  pub response_header : Header

-- What the server does with the request: an answer of `http.Error`, with a header that it sets, or
-- the switch to frames, or nothing where the connection cannot be had or written.
pub data Acceptance : Type 0 where
  refused : ℕ → Header → Acceptance
  accepted : HttpResponse → Acceptance
  lost : Acceptance

pub data UpgradeFailure : Type 0 where
  failure_redirect failure_handshake : UpgradeFailure

-- How taking over the connection ends.
pub data Hijacking : Type 0 where
  no_hijacker hijack_failed unwritten switched : Hijacking

-- The header of `Upgrader.request`.
unfoldable pub upgrade_header : Bytes → Bytes → Header
upgrade_header host key =
    (codes "Host", host)
    ∷ (codes "Upgrade", codes "websocket")
    ∷ (codes "Connection", codes "Upgrade")
    ∷ (codes "Sec-Websocket-Key", key)
    ∷ (codes "Sec-Websocket-Version", websocket_version)
    ∷ []

module _ (sha1 encode : Bytes → Bytes) (decode : Bytes → Option Bytes) where
  -- `acceptToken`
  unfoldable pub accept_token : Bytes → Bytes
  accept_token key = encode (sha1 (key ++ websocket_guid))

  -- `err != nil || len(decodedKey) != 16 || EncodeToString(decodedKey) != key`
  unfoldable pub key_is_invalid : Bytes → Bool
  unfolding equal
  key_is_invalid key = elim (decode key) [
    | none ↦ true
    | some decoded ↦ not (length decoded == 16) || not (equal (encode decoded) key)
  ]

  switching : Bytes → HttpResponse
  unfolding accept_token
  switching key = record {
    status_code = 101;
    response_header =
        (codes "Upgrade", codes "websocket")
        ∷ (codes "Connection", codes "Upgrade")
        ∷ (codes "Sec-Websocket-Accept", accept_token key)
        ∷ [];
  }

  take_over : Bytes → Hijacking → Acceptance
  unfolding switching
  take_over key no_hijacker = refused 500 []
  take_over key hijack_failed = lost
  take_over key unwritten = lost
  take_over key switched = accepted (switching key)

  -- `AcceptWebSocket`
  unfoldable pub accept_web_socket : HttpRequest → Hijacking → Acceptance
  unfolding take_over get_header equal header_has_token equal_fold key_is_invalid
  accept_web_socket r h =
      let get = λ (name : Bytes). get_header name r.header in
      let key = get (codes "Sec-Websocket-Key") in
      if not (equal r.http_method (codes "GET"))
      then refused 405 ((codes "Allow", codes "GET") ∷ [])
      else if not (header_has_token (get (codes "Connection")) (codes "upgrade"))
          || not (equal_fold (get (codes "Upgrade")) (codes "websocket"))
      then refused 426 []
      else if not (equal (get (codes "Sec-Websocket-Version")) websocket_version)
      then refused 400 ((codes "Sec-Websocket-Version", websocket_version) ∷ [])
      else if key_is_invalid key
      then refused 400 []
      else if not (equal (get (codes "Sec-Websocket-Protocol")) [])
          || not (equal (get (codes "Sec-Websocket-Extensions")) [])
      then refused 400 []
      else take_over key h

  -- `validateUpgrade`
  unfoldable pub validate_upgrade : HttpResponse → Bytes → Option UpgradeFailure
  unfolding get_header equal header_has_token equal_fold accept_token
  validate_upgrade r key =
      let get = λ (name : Bytes). get_header name r.response_header in
      if not (r.status_code == 101)
      then (if leb 300 r.status_code && ltb r.status_code 400
          then some failure_redirect
          else some failure_handshake)
      else if not (equal_fold (get (codes "Upgrade")) (codes "websocket"))
      then some failure_handshake
      else if not (header_has_token (get (codes "Connection")) (codes "upgrade"))
      then some failure_handshake
      else if not (equal (get (codes "Sec-Websocket-Accept")) (accept_token key))
      then some failure_handshake
      else if not (equal (get (codes "Sec-Websocket-Extensions")) [])
      then some failure_handshake
      else if not (equal (get (codes "Sec-Websocket-Protocol")) [])
      then some failure_handshake
      else none
