-- ===== src/Tests/Relay.antt =====
-- The theorems of a session and of the dialer at concrete inputs: a client with the right token
-- that opens api.example.com.
use dproxy.Base.{arith, ◌≤◌, ◌==◌, ◌≡◌, refl, Bool, true, false, some, ok, List, [], ◌∷◌, ◌++◌, All}
use dproxy.Base.Text.{Bytes, codes}
use dproxy.Net.Addr.{Addr, v4}
use dproxy.Policy.Addresses.{check_addresses, classify_address, classify_unmapped}
use dproxy.Policy.Checker.{Checker, Resolver}
use dproxy.Protocol.Message.{Message, hello_ok}
use dproxy.Relay.Dialer.{Endpoint, dial, Connected, dial-Connected}
use dproxy.Relay.Session.{Session, established, handle_session, authenticated}
use dproxy.Relay.Session.Authentication.{Outcome, handle_session-Outcome}
use dproxy.Relay.Session.Destinations.{
  IsSafe, IsAnswer, replies, handle_session-IsSafe, authenticated-replies,
}

abbrev digest : Bytes → Bytes
digest s = s

-- 8.8.8.8 and 9.9.9.9
abbrev addresses : List Addr
addresses = v4 0x08080808 ∷ v4 0x09090909 ∷ []

-- Only the second address accepts.
abbrev connect : Endpoint → Bool
connect (v4 n, port) = n == 0x09090909
connect (_, port) = false

second-connected : (dial connect addresses 443 5).1 ≡ ok (v4 0x09090909, 443)
unfolding dial check_addresses classify_address classify_unmapped
second-connected = refl

dial-Connected_example :
    Connected connect 443 addresses (dial connect addresses 443 5).0 (v4 0x09090909, 443)
dial-Connected_example =
    dial-Connected connect addresses 443 5 (v4 0x09090909, 443) second-connected

abbrev lookup : Resolver
lookup host = some addresses

abbrev checker : Checker
checker = record { allowlist = record { patterns = []; all_hosts = true }; resolver = some lookup }

abbrev open_frame : Bytes
open_frame = 0 ∷ 0 ∷ 0 ∷ 20 ∷ 3 ∷ 0 ∷ 15 ∷ (codes "api.example.com" ++ 1 ∷ 187 ∷ [])

abbrev hello_frame : Bytes
hello_frame = 0 ∷ 0 ∷ 0 ∷ 34 ∷ 1 ∷ 1 ∷ codes "0123456789abcdef0123456789abcdef"

abbrev session : Session digest
session = record {
  handshake = established;
  client_pins = 0;
  max_control_message_bytes = 4096;
  tokens = record { digests = codes "0123456789abcdef0123456789abcdef" ∷ [] };
  checker = checker;
  input = hello_frame ++ open_frame;
  deadline_set = true;
  can_write = λ m. true;
  dial_succeeds = λ dialed port. true;
  deadline_cleared = true;
}

handle_session-Outcome_example : Outcome digest session (handle_session digest session)
handle_session-Outcome_example = handle_session-Outcome digest session

handle_session-IsSafe_example : All (IsSafe digest session) (handle_session digest session)
handle_session-IsSafe_example = handle_session-IsSafe digest session

default_limit : 4096 ≤ session.max_control_message_bytes
default_limit = omega arith

session-writes : (m : Message) → session.can_write m ≡ true
session-writes m = refl

authenticated-replies_example :
    (m : Message) × IsAnswer m
    × (replies (authenticated digest session open_frame) ≡ hello_ok 1 ∷ m ∷ [])
authenticated-replies_example =
    authenticated-replies digest session default_limit session-writes open_frame
