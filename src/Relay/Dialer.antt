-- ===== src/Relay/Dialer.antt =====
-- internal/relay/dialer.go: `TCPDialer.Dial`. `connect` stands for `net.Dialer.DialContext` on one
-- endpoint; a duration is a number of nanoseconds, 0 for one that is not positive.
use dproxy.Base.{
  ℕ, ◌≡◌, refl, ap, inl, inr, Bool, true, false, not, List, [], ◌∷◌, ◌++◌, map, arith, ◌==◌,
  if◌then◌else◌, ==_iff, Bool-cases, Result, ok, err, all, All,
}
use dproxy.Net.Addr.{Addr}
use dproxy.Policy.Destination.{allowed_port}
use dproxy.Policy.Addresses.{check_addresses}
use dproxy.Policy.Addresses.Internet.{IsInternet, InRange, check_addresses_iff}
use dproxy.Policy.Checker.Guarantee.{all-Internet}

pub data DialError : Type 0 where
  not_public port_not_permitted timeout_not_positive no_address_accepted : DialError

-- A connection in the model is the endpoint that accepted it.
abbrev pub Endpoint : Type 0
Endpoint = Addr × ℕ

module _ (connect : Endpoint → Bool) where
  -- The loop over the addresses, with the endpoints it tried.
  unfoldable pub dial_each : ℕ → List Addr → List Endpoint × Result DialError Endpoint
  dial_each port [] = ([], err no_address_accepted)
  dial_each port (a ∷ rest) =
      let later = dial_each port rest in
      if connect (a, port) then ((a, port) ∷ [], ok (a, port)) else ((a, port) ∷ later.0, later.1)

  -- The endpoints that `Dial` tried, and its result.
  unfoldable pub dial : List Addr → ℕ → ℕ → List Endpoint × Result DialError Endpoint
  unfolding dial_each
  dial addresses port timeout =
      if not (check_addresses addresses).allowed
      then ([], err not_public)
      else if not (port == allowed_port)
      then ([], err port_not_permitted)
      else if timeout == 0
      then ([], err timeout_not_positive)
      else dial_each port addresses

  -- An endpoint on port 443 whose address, if in range, lies in no special block.
  abbrev pub IsSafeEndpoint : Endpoint → Type 0
  IsSafeEndpoint e = (InRange e.0 → IsInternet e.0) × (e.1 ≡ 443)

  dial_each-IsSafe :
      (port : ℕ) (addresses : List Addr)
      → port ≡ 443
      → All (λ a. InRange a → IsInternet a) addresses
      → All IsSafeEndpoint (dial_each port addresses).0
  unfolding dial_each
  dial_each-IsSafe port [] p s = tt
  dial_each-IsSafe port (a ∷ rest) p (here, later) = elim (Bool-cases (connect (a, port))) [
    | inl e ↦ rw e ((here, p), tt)
    | inr e ↦ rw e ((here, p), dial_each-IsSafe port rest p later)
  ]

  -- Whatever list of addresses and port it is given, `Dial` tries only port 443 of addresses
  -- that, if they fit their address family, lie outside the special blocks.
  pub dial-IsSafe :
      (addresses : List Addr) (port timeout : ℕ)
      → All IsSafeEndpoint (dial addresses port timeout).0
  unfolding dial
  dial-IsSafe addresses port timeout = elim (Bool-cases (check_addresses addresses).allowed) [
    | inr e ↦ rw e tt
    | inl e ↦ elim (Bool-cases (port == 443)) [
      | inr f ↦ rw (e, f) tt
      | inl f ↦ elim (Bool-cases (timeout == 0)) [
        | inl g ↦ rw (e, f, g) tt
        | inr g ↦
            rw (e, f, g)
              (dial_each-IsSafe port addresses ((==_iff port 443).0 f)
                (all-Internet addresses ((check_addresses_iff addresses).0 e).1))
      ]
    ]
  ]

  -- What the loop did: it was refused by every endpoint before the one that accepted, in order.
  pub record Connected (port : ℕ) (addresses : List Addr) (tried : List Endpoint) (e : Endpoint)
      : Type 0 where
    pub before : List Addr
    pub after : List Addr
    pub splits : addresses ≡ before ++ e.0 ∷ after
    pub refused : all (λ a. not (connect (a, port))) before ≡ true
    pub accepted : connect e ≡ true
    pub on_port : e.1 ≡ port
    pub in_order : tried ≡ map (λ a. (a, port)) before ++ e ∷ []

  Connected-cons :
      (port : ℕ) (a : Addr) (rest : List Addr) (tried : List Endpoint) (e : Endpoint)
      → connect (a, port) ≡ false
      → Connected port rest tried e
      → Connected port (a ∷ rest) ((a, port) ∷ tried) e
  Connected-cons port a rest tried e no_answer c = record {
    before = a ∷ c.before;
    after = c.after;
    splits = ap (◌∷◌ a) c.splits;
    refused = rw (no_answer) c.refused;
    accepted = c.accepted;
    on_port = c.on_port;
    in_order = ap (◌∷◌ (a, port)) c.in_order;
  }

  first-Connected :
      (port : ℕ) (a : Addr) (rest : List Addr) (e : Endpoint)
      → connect (a, port) ≡ true
      → (a, port) ≡ e
      → Connected port (a ∷ rest) ((a, port) ∷ []) e
  first-Connected port a rest e y same = rw (← same) (record {
    before = [];
    after = rest;
    splits = refl;
    refused = refl;
    accepted = y;
    on_port = refl;
    in_order = refl;
  })

  dial_each-Connected :
      (port : ℕ) (addresses : List Addr) (e : Endpoint)
      → (dial_each port addresses).1 ≡ ok e
      → Connected port addresses (dial_each port addresses).0 e
  unfolding dial_each
  dial_each-Connected port [] e h = absurd (ground arith)
  dial_each-Connected port (a ∷ rest) e h = elim (Bool-cases (connect (a, port))) [
    | inl y ↦
        let made : ◌≡◌ {A = Result DialError Endpoint} (ok (a, port)) (ok e) = rw y at h in
        rw y (first-Connected port a rest e y (ground arith))
    | inr n ↦ rw n (Connected-cons port a rest _ e n (dial_each-Connected port rest e (rw n at h)))
  ]

  Chosen : ℕ → List Addr → List Endpoint × Result DialError Endpoint → Type 0
  Chosen port addresses r = (e : Endpoint) → r.1 ≡ ok e → Connected port addresses r.0 e

  choose_Chosen :
      (port : ℕ) (addresses : List Addr) (b : Bool) (x : DialError)
      (r : List Endpoint × Result DialError Endpoint)
      → Chosen port addresses r
      → Chosen port addresses (if b then ([], err x) else r)
  unfolding Chosen
  choose_Chosen port addresses true x r c e h = absurd (ground arith)
  choose_Chosen port addresses false x r c e h = c e h

  -- A connection that `Dial` returns is to the first address, in resolver order, that accepts on
  -- the port: every address before it was tried and refused, and none behind it was tried.
  pub dial-Connected :
      (addresses : List Addr) (port timeout : ℕ) (e : Endpoint)
      → (dial addresses port timeout).1 ≡ ok e
      → Connected port addresses (dial addresses port timeout).0 e
  unfolding dial Chosen
  dial-Connected addresses port timeout =
      choose_Chosen port addresses (not (check_addresses addresses).allowed) not_public _ (
        choose_Chosen port addresses (not (port == allowed_port)) port_not_permitted _ (
          choose_Chosen port addresses (timeout == 0) timeout_not_positive _
            (dial_each-Connected port addresses)))
