-- ===== src/Tunnel/Handshake/Agreement.antt =====
-- The two sides of the opening handshake, one against the other.
use dproxy.Base.{◌≡◌, refl, true, false, Option, none, some, ◌==◌, length, ==_iff}
use dproxy.Base.Text.{Bytes, codes, equal, equal_iff, split, trim}
use dproxy.Tunnel.Handshake.{
  get_header, fold, equal_fold, header_has_token, HttpResponse, accepted, switched, accept_token,
  upgrade_header, key_is_invalid, accept_web_socket, validate_upgrade, switching,
}

module _ (sha1 encode : Bytes → Bytes) (decode : Bytes → Option Bytes) where
  valid_key :
      (nonce : Bytes)
      → decode (encode nonce) ≡ some nonce
      → length nonce ≡ 16
      → key_is_invalid sha1 encode decode (encode nonce) ≡ false
  unfolding key_is_invalid
  valid_key nonce e size =
      let right : (length nonce == 16) ≡ true = (==_iff (length nonce) 16).1 size in
      rw (e, right, (equal_iff (encode nonce) (encode nonce)).1 refl, key_is_invalid) refl

  answered :
      (key host : Bytes)
      → key_is_invalid sha1 encode decode key ≡ false
      → accept_web_socket sha1 encode decode
          (record { http_method = codes "GET"; header = upgrade_header host key })
          switched
        ≡ accepted (switching sha1 encode decode key)
  unfolding accept_web_socket upgrade_header get_header equal header_has_token equal_fold fold split
      trim
  answered key host valid = rw (valid, accept_web_socket) refl

  checked_answer :
      (key : Bytes)
      → validate_upgrade sha1 encode decode (switching sha1 encode decode key) key ≡ none
  unfolding validate_upgrade switching get_header equal header_has_token equal_fold fold split trim
  checked_answer key =
      rw
        (
          (equal_iff (accept_token sha1 encode decode key) (accept_token sha1 encode decode key)).1
              refl,
          validate_upgrade,
        )
        refl

  -- What the client sends for a nonce of 16 bytes is accepted by the server, given that base64 decodes
  -- what it encodes; and the client then accepts the server's response, which proves the key.
  pub validate_upgrade-accept_web_socket :
      (nonce host : Bytes)
      → decode (encode nonce) ≡ some nonce
      → length nonce ≡ 16
      → (r : HttpResponse) × (accept_web_socket sha1 encode decode
            (record { http_method = codes "GET"; header = upgrade_header host (encode nonce) })
            switched
          ≡ accepted r)
        × (validate_upgrade sha1 encode decode r (encode nonce) ≡ none)
  validate_upgrade-accept_web_socket nonce host e size = (
    switching sha1 encode decode (encode nonce),
    answered (encode nonce) host (valid_key nonce e size),
    checked_answer (encode nonce),
  )
