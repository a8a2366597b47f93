-- ===== src/Tests/LocalProxy.antt =====
-- Runs of the local proxy, and its theorems at concrete inputs.
use dproxy.Base.{◌≡◌, refl, ◌⊎◌, true, false, none, some, [], ◌∷◌}
use dproxy.Base.Text.{Bytes, codes, trim, trim_suffix, split, to_lower}
use dproxy.Base.Space.{trim_space}
use dproxy.Net.ParseAddr.{parse_addr}
use dproxy.Net.HostPort.{split_host_port}
use dproxy.Policy.Hostname.{canonical_hostname, is_label_byte}
use dproxy.Policy.Destination.{parse_authority, parse_port}
use dproxy.Policy.Checker.{check_authority, check_destination}
use dproxy.LocalProxy.{
  Request, OpenError, taken, Server, allow_header, reply, track, untrack, open_remote, close_remote,
  close_local, greet, relay, serve_http,
}
use dproxy.LocalProxy.Answers.{IsServed, serve_http-IsServed}
use dproxy.LocalProxy.Sessions.{
  Sessions, new_sessions, none_active, has_session, track_session, set_connection, untrack_session,
  close_active,
}
use dproxy.LocalProxy.Sessions.Waiting.{start, after, tracks, connects, untrack_session-Reached}

-- A proxy that lets all hosts through and whose tunnels open.
abbrev server : Server
server = record {
  draining = false;
  checker = record { allowlist = record { patterns = []; all_hosts = true }; resolver = none };
  open_tunnel = λ d. none;
  takeover = taken;
  greeting_written = true;
  greeting_flushed = true;
}

abbrev connect_request : Bytes → Request
connect_request uri = record {
  method = codes "CONNECT";
  proto_major = 1;
  proto_minor = 1;
  content_length = none;
  transfer_encoding = [];
  request_uri = uri;
}

abbrev forbidden : OpenError
forbidden = record {
  deadline_exceeded = false;
  timeout = false;
  canceled = false;
  authentication_failed = false;
  remote_code = some 2;
}

served :
    (serve_http server (connect_request (codes "a.io:443"))
      ≡ track
        ∷ open_remote (record { host = codes "a.io"; port = 443 })
        ∷ greet
        ∷ relay
        ∷ close_local
        ∷ close_remote
        ∷ untrack
        ∷ [])
    × (serve_http server (connect_request (codes "a.io:80")) ≡ reply 403 ∷ [])
    × (serve_http server (connect_request (codes "a.io")) ≡ reply 400 ∷ [])
    × (serve_http
          (record server { open_tunnel = λ d. some forbidden })
          (connect_request (codes "a.io:443"))
        ≡ track
          ∷ open_remote (record { host = codes "a.io"; port = 443 })
          ∷ reply 403
          ∷ untrack
          ∷ [])
    × (serve_http server (record (connect_request (codes "a.io:443")) { method = codes "GET" })
        ≡ allow_header ∷ reply 405 ∷ [])
unfolding serve_http check_authority parse_authority trim_space parse_addr trim split_host_port
    parse_port canonical_hostname trim_suffix split to_lower is_label_byte check_destination
served = (refl, refl, refl, refl, refl)

serve_http-IsServed_example :
    IsServed server
      (connect_request (codes "a.io:443"))
      (serve_http server (connect_request (codes "a.io:443")))
serve_http-IsServed_example = serve_http-IsServed server (connect_request (codes "a.io:443"))

-- Session 7, with a connection.
abbrev one_session : Sessions
unfolding track_session set_connection
one_session = set_connection 7 3 (track_session 7 new_sessions)

sessions :
    (one_session
      ≡ record { active = record { session_id = 7; conn = some 3 } ∷ []; zero_closed = false })
    × (untrack_session 7 one_session ≡ some new_sessions)
    × (untrack_session 7 new_sessions ≡ none)
    × (close_active one_session ≡ (7 ∷ [], 3 ∷ []))
unfolding one_session untrack_session close_active
sessions = (refl, refl, refl, refl)

untrack_session-Reached_example :
    (one_session.zero_closed ≡ none_active one_session.active)
    × ((has_session 7 one_session.active ≡ false)
        ⊎ ((t : Sessions) × (untrack_session 7 one_session ≡ some t)))
unfolding one_session
untrack_session-Reached_example =
    untrack_session-Reached one_session 7
      (after (after start (tracks 7 new_sessions)) (connects 7 3 (track_session 7 new_sessions)))
