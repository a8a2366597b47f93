-- ===== src/LocalProxy/Answers.antt =====
-- What a request makes the local proxy do.
use dproxy.Base.{
  ℕ, suc, ◌≤◌, ◌≡◌, refl, ◌⊎◌, Bool, true, false, not, ◌||◌, Option, none, some, List, [], ◌∷◌,
  ◌==◌, if◌then◌else◌, ok, All, arith,
}
use dproxy.Base.Text.{codes, equal, equal_iff}
use dproxy.Base.Outcomes.{choose_lem}
use dproxy.Policy.Destination.{Destination, parse_authority}
use dproxy.Policy.Destination.Authority.{IsDestination}
use dproxy.Policy.Allowlist.Matching.{AnyMatches}
use dproxy.Policy.Checker.{check_authority}
use dproxy.Policy.Checker.Guarantee.{check_authority_sound}
use dproxy.LocalProxy.{
  Request, OpenError, Takeover, unavailable, broken, taken, Server, ProxyAction, allow_header,
  reply, track, untrack, open_remote, close_remote, close_local, greet, relay, greeted, taken_over,
  on_open, on_decision, has_body, serve_http, proxy_status,
}

counted : (ProxyAction → Bool) → List ProxyAction → ℕ
counted p [] = 0
counted p (a ∷ later) = if p a then suc (counted p later) else counted p later

-- An error, or the success response.
abbrev is_answer : ProxyAction → Bool
is_answer (reply status) = true
is_answer greet = true
is_answer _ = false

abbrev is_track : ProxyAction → Bool
is_track track = true
is_track _ = false

abbrev is_untrack : ProxyAction → Bool
is_untrack untrack = true
is_untrack _ = false

module _ (s : Server) (r : Request) where
  -- A destination that a request may open: it is a CONNECT of HTTP/1.1 without a body, to a server
  -- that is not shutting down, and its target is a canonical hostname on port 443 that the
  -- allowlist lets through.
  record IsTarget (d : Destination) : Type 0 where
    serving : s.draining ≡ false
    connect : r.method ≡ codes "CONNECT"
    major : r.proto_major ≡ 1
    minor : r.proto_minor ≡ 1
    no_body : has_body r ≡ false
    parsed : parse_authority r.request_uri ≡ ok d
    canonical : IsDestination d
    listed : (s.checker.allowlist.all_hosts ≡ true) ⊎ AnyMatches s.checker.allowlist.patterns d.host

  -- Success and the relayed bytes want an open tunnel to the target.
  abbrev IsRight : ProxyAction → Type 0
  IsRight (open_remote d) = IsTarget d
  IsRight greet = (d : Destination) × IsTarget d × (s.open_tunnel d ≡ none)
  IsRight relay = (d : Destination) × IsTarget d × (s.open_tunnel d ≡ none)
  IsRight _ = Unit

  pub record IsServed (actions : List ProxyAction) : Type 0 where
    right : All IsRight actions
    one_answer : counted is_answer actions ≤ 1
    balanced : counted is_track actions ≡ counted is_untrack actions

  -- One response and nothing else.
  only_reply : (status : ℕ) → IsServed (reply status ∷ [])
  unfolding counted
  only_reply status = record { right = (tt, tt); one_answer = omega arith; balanced = refl }

  module _ (d : Destination) (k : IsTarget d) where
    behind :
        (later : List ProxyAction)
        → All IsRight later
        → counted is_answer later ≤ 1
        → counted is_track later ≡ 0
        → counted is_untrack later ≡ 1
        → IsServed (track ∷ open_remote d ∷ later)
    unfolding counted
    behind later right few none_tracked one_untracked = record {
      right = (tt, (k, right));
      one_answer = few;
      balanced = omega (arith, none_tracked, one_untracked);
    }

    greeted-IsServed : s.open_tunnel d ≡ none → IsServed (track ∷ open_remote d ∷ greeted s)
    unfolding greeted counted
    greeted-IsServed h =
        let P = λ (later : List ProxyAction). IsServed (track ∷ open_remote d ∷ later) in
        let closed = close_local ∷ close_remote ∷ untrack ∷ [] in
        let broken_off : P closed = behind closed (tt, (tt, (tt, tt))) (omega arith) refl refl in
        let relayed = greet ∷ relay ∷ closed in
        choose_lem P (not s.greeting_written) closed _ (λ _. broken_off)
          (λ _.
            choose_lem P (not s.greeting_flushed) closed relayed (λ _. broken_off)
              (λ _.
                behind relayed ((d, k, h), ((d, k, h), (tt, (tt, (tt, tt))))) (omega arith) refl
                  refl))

    taken_over-IsServed :
        (t : Takeover) → s.open_tunnel d ≡ none → IsServed (track ∷ open_remote d ∷ taken_over s t)
    unfolding taken_over counted
    taken_over-IsServed unavailable h =
        behind (reply 500 ∷ close_remote ∷ untrack ∷ []) (tt, (tt, (tt, tt))) (omega arith) refl
          refl
    taken_over-IsServed broken h =
        behind (close_remote ∷ untrack ∷ []) (tt, (tt, tt)) (omega arith) refl refl
    taken_over-IsServed taken h = greeted-IsServed h

    on_open-IsServed :
        (o : Option OpenError)
        → s.open_tunnel d ≡ o
        → IsServed (track ∷ open_remote d ∷ on_open s o)
    unfolding on_open counted
    on_open-IsServed (some e) h =
        behind (reply (proxy_status e) ∷ untrack ∷ []) (tt, (tt, tt)) (omega arith) refl refl
    on_open-IsServed none h = taken_over-IsServed s.takeover h

  on_decision-IsServed :
      s.draining ≡ false
      → r.method ≡ codes "CONNECT"
      → r.proto_major ≡ 1
      → r.proto_minor ≡ 1
      → has_body r ≡ false
      → IsServed (on_decision s (check_authority s.checker r.request_uri))
  unfolding on_decision
  on_decision-IsServed serving connect major minor no_body =
      let c = check_authority s.checker r.request_uri in
      choose_lem IsServed (not c.1.allowed) _
        (track ∷ open_remote c.0 ∷ on_open s (s.open_tunnel c.0)) (λ _. only_reply _)
        (λ e.
          let (canonical, parsed, listed) =
            check_authority_sound s.checker r.request_uri (ground (arith, e)) in
          on_open-IsServed c.0
            (record {
              serving = serving;
              connect = connect;
              major = major;
              minor = minor;
              no_body = no_body;
              parsed = parsed;
              canonical = canonical;
              listed = listed;
            })
            (s.open_tunnel c.0) refl)

  -- Whatever the request, and however the tunnel and the takeover end: a tunnel is opened only for
  -- a target that may be opened, the success response and the relayed bytes come only where the
  -- tunnel to one is open, at most one response is given, and a tracked session is untracked.
  pub serve_http-IsServed : IsServed (serve_http s r)
  unfolding serve_http counted
  serve_http-IsServed =
      let connect = equal r.method (codes "CONNECT") in
      let version = not (r.proto_major == 1) || not (r.proto_minor == 1) in
      let behind_version =
        if has_body r
        then reply 400 ∷ []
        else on_decision s (check_authority s.checker r.request_uri) in
      let behind_method = if version then reply 505 ∷ [] else behind_version in
      choose_lem IsServed s.draining (reply 503 ∷ []) _ (λ _. only_reply 503)
        (λ serving.
          choose_lem IsServed (not connect) (allow_header ∷ reply 405 ∷ []) behind_method
            (λ _. record { right = (tt, (tt, tt)); one_answer = omega arith; balanced = refl })
            (λ m.
              choose_lem IsServed version (reply 505 ∷ []) behind_version (λ _. only_reply 505)
                (λ v.
                  choose_lem IsServed (has_body r) (reply 400 ∷ []) _ (λ _. only_reply 400)
                    (λ no_body.
                      on_decision-IsServed serving
                        ((equal_iff r.method (codes "CONNECT")).0 (ground (arith, m)))
                        (ground (arith, v)) (ground (arith, v)) no_body))))
