-- ===== src/Protocol/Codec/Decoded.antt =====
-- The messages that `Decode` returns, and what it reads.
use dproxy.Base.{
  ℕ, ◌+◌, ◌*◌, ◌≤◌, ◌<◌, ◌≡◌, ◌↔◌, sym, ap, ◌∙◌, inl, inr, true, [], ◌∷◌, ◌++◌, arith, ◌==◌,
  Bool-cases, ok, Result-cases, length, take, drop, take-append-drop, take-append, drop-append,
  length-append, length-take_le,
}
use dproxy.Base.Binary.{be16, be32}
use dproxy.Base.Text.{Bytes}
use dproxy.Policy.Destination.{new_destination}
use dproxy.Config.Token.{new_token, min_token_bytes, max_token_bytes}
use dproxy.Protocol.Message.{
  Message, hello, hello_ok, open_to, open_ok, open_error, validate, code_valid, type_valid,
}
use dproxy.Protocol.Codec.{
  unmarshal_hello, unmarshal_hello_ok, open_at_port, unmarshal_open, unmarshal_open_ok,
  unmarshal_open_error, validated, unmarshal_payload, unmarshal_message, decode_body, decode,
}
use dproxy.Policy.Destination.Authority.{IsDestination, new_destination-IsDestination}

-- A message that its constructor functions in the source can build.
abbrev pub IsMessage : Message → Type 0
IsMessage (hello version token) =
    (version ≡ 1) × (min_token_bytes ≤ length token.value) × (length token.value ≤ max_token_bytes)
IsMessage (hello_ok version) = version ≡ 1
IsMessage (open_to d) = IsDestination d
IsMessage open_ok = Unit {0}
IsMessage (open_error code) = code_valid code ≡ true

-- Before the last `Validate`: the message is one of its own type's constructor functions.
abbrev Drafted : Message → Type 0
Drafted (hello version token) =
    (version ≡ 1) × (min_token_bytes ≤ length token.value) × (length token.value ≤ max_token_bytes)
Drafted (open_to d) = IsDestination d
Drafted _ = Unit

validated-ok : (m n : Message) → Drafted m → validated m ≡ ok n → (m ≡ n) × IsMessage m
unfolding validated validate
validated-ok (hello v t) n d e = ground arith
validated-ok (hello_ok v) n d e = ground arith
validated-ok (open_to x) n d e = (ground arith, d)
validated-ok open_ok n d e = ground arith
validated-ok (open_error c) n d e = ground arith

unmarshal_hello-Drafted : (p : Bytes) {m : Message} → unmarshal_hello p ≡ ok m → Drafted m
unfolding unmarshal_hello new_token
unmarshal_hello-Drafted [] e = cc
unmarshal_hello-Drafted (v ∷ s) {m} e = rw (shape e) (draft e)
  where
    shape : unmarshal_hello (v ∷ s) ≡ ok m → m ≡ hello v (record { value = s })
    shape x = ground arith

    draft :
        unmarshal_hello (v ∷ s) ≡ ok m
        → (v ≡ 1) × (min_token_bytes ≤ length s) × (length s ≤ max_token_bytes)
    draft x = ground arith

open_at_port-Drafted : (host p : Bytes) {m : Message} → open_at_port host p ≡ ok m → Drafted m
unfolding open_at_port
open_at_port-Drafted host [] e = cc
open_at_port-Drafted host (a ∷ []) e = cc
open_at_port-Drafted host (a ∷ b ∷ []) {m} e =
    elim (Result-cases (new_destination host (be16 a b))) [
      | inl (d, n) ↦
          let same : ok (open_to d) ≡ ok m = rw (n, open_at_port) at e in
          let made : m ≡ open_to d = ground arith in
          rw made (new_destination-IsDestination host (be16 a b) n)
      | inr (r, n) ↦ cc (rw (n, open_at_port) at e)
    ]
open_at_port-Drafted host (a ∷ b ∷ c ∷ p) e = cc

unmarshal_open-Drafted : (p : Bytes) {m : Message} → unmarshal_open p ≡ ok m → Drafted m
unfolding unmarshal_open
unmarshal_open-Drafted [] e = cc
unmarshal_open-Drafted (a ∷ []) e = cc
unmarshal_open-Drafted (a ∷ b ∷ p) {m} e =
    open_at_port-Drafted (take (be16 a b) p) (drop (be16 a b) p) (second e)
  where
    second :
        unmarshal_open (a ∷ b ∷ p) ≡ ok m
        → open_at_port (take (be16 a b) p) (drop (be16 a b) p) ≡ ok m
    second x = ground arith

hello_ok-Drafted : (p : Bytes) {m : Message} → unmarshal_hello_ok p ≡ ok m → Drafted m
unfolding unmarshal_hello_ok
hello_ok-Drafted [] e = cc
hello_ok-Drafted (v ∷ []) {m} e = let made : m ≡ hello_ok v = cc in rw made tt
hello_ok-Drafted (v ∷ w ∷ p) e = cc

open_ok-Drafted : (p : Bytes) {m : Message} → unmarshal_open_ok p ≡ ok m → Drafted m
unfolding unmarshal_open_ok
open_ok-Drafted [] {m} e = let made : m ≡ open_ok = cc in rw made tt
open_ok-Drafted (v ∷ p) e = cc

open_error-Drafted : (p : Bytes) {m : Message} → unmarshal_open_error p ≡ ok m → Drafted m
unfolding unmarshal_open_error
open_error-Drafted [] e = cc
open_error-Drafted (v ∷ []) e = cc
open_error-Drafted (v ∷ w ∷ []) {m} e = let made : m ≡ open_error (be16 v w) = cc in rw made tt
open_error-Drafted (v ∷ w ∷ x ∷ p) e = cc

payload-Drafted : (t : ℕ) (p : Bytes) {m : Message} → unmarshal_payload t p ≡ ok m → Drafted m
unfolding unmarshal_payload
payload-Drafted t p {m} e = elim (Bool-cases (t == 1)) [
  | inl a ↦ unmarshal_hello-Drafted p (rw a at e)
  | inr a ↦ elim (Bool-cases (t == 2)) [
    | inl b ↦ hello_ok-Drafted p (rw (a, b) at e)
    | inr b ↦ elim (Bool-cases (t == 3)) [
      | inl c ↦ unmarshal_open-Drafted p (rw (a, b, c) at e)
      | inr c ↦ elim (Bool-cases (t == 4)) [
        | inl d ↦ open_ok-Drafted p (rw (a, b, c, d) at e)
        | inr d ↦ open_error-Drafted p (rw (a, b, c, d) at e)
      ]
    ]
  ]
]

unmarshal-IsMessage : (body : Bytes) {m : Message} → unmarshal_message body ≡ ok m → IsMessage m
unfolding unmarshal_message
unmarshal-IsMessage [] e = cc
unmarshal-IsMessage (t ∷ p) {m} e = elim (Bool-cases (type_valid t)) [
  | inl known ↦ elim (Result-cases (unmarshal_payload t p)) [
    | inl (n, u) ↦
        let (same, good) = validated-ok n m (payload-Drafted t p u) (rw (known, u) at e) in
        good_of same good
    | inr (x, u) ↦ cc (rw (known, u) at e)
  ]
  | inr other ↦ cc (rw other at e)
]
  where
    good_of : {n : Message} → n ≡ m → IsMessage n → IsMessage m
    good_of same good = rw (sym same) good

-- The reader held one frame: a length in four bytes, the highest first, and a body of exactly that
-- length, not empty and within the limit; behind it stands what is left.
pub record Read (max : ℕ) (s : Bytes) (m : Message) (rest : Bytes) : Type 0 where
  pub highest : ℕ
  pub high : ℕ
  pub low : ℕ
  pub lowest : ℕ
  pub body : Bytes
  pub splits : s ≡ highest ∷ high ∷ low ∷ lowest ∷ body ++ rest
  pub body_length : length body ≡ ((highest * 256 + high) * 256 + low) * 256 + lowest
  pub within_limit : length body ≤ max
  pub read_as : unmarshal_message body ≡ ok m

body_facts :
    (max len : ℕ) (s : Bytes) (m : Message) (rest : Bytes)
    → decode_body max len s ≡ (ok m, rest)
    → (len ≤ max) × (len ≤ length s) × (unmarshal_message (take len s) ≡ ok m) × (drop len s ≡ rest)
unfolding decode_body
body_facts max len s m rest e = ground arith

decode-Read :
    (max : ℕ) (s : Bytes) (m : Message) (rest : Bytes)
    → decode max s ≡ (ok m, rest)
    → Read max s m rest
unfolding decode
decode-Read max [] m rest e = absurd (ground arith)
decode-Read max (a ∷ []) m rest e = absurd (ground arith)
decode-Read max (a ∷ b ∷ []) m rest e = absurd (ground arith)
decode-Read max (a ∷ b ∷ c ∷ []) m rest e = absurd (ground arith)
decode-Read max (a ∷ b ∷ c ∷ d ∷ s) m rest e =
    let (fits, there, body_read, left) = body_facts max (be32 a b c d) s m rest e in
    record {
      highest = a;
      high = b;
      low = c;
      lowest = d;
      body = take (be32 a b c d) s;
      splits =
          ap (λ r. a ∷ b ∷ c ∷ d ∷ r)
            (sym (take-append-drop (be32 a b c d) s) ∙ ap (◌++◌ (take (be32 a b c d) s)) left);
      body_length = omega (arith, length-take_le (be32 a b c d) s there);
      within_limit = omega (arith, length-take_le (be32 a b c d) s there);
      read_as = body_read;
    }

body-ne_nil : (body : Bytes) {m : Message} → unmarshal_message body ≡ ok m → 0 < length body
unfolding unmarshal_message
body-ne_nil [] e = cc
body-ne_nil (t ∷ p) e = omega arith

-- A body of the announced length at the front is what is unmarshalled.
decode_body-append :
    (max : ℕ) (body rest : Bytes) (m : Message)
    → length body ≤ max
    → unmarshal_message body ≡ ok m
    → decode_body max (length body) (body ++ rest) ≡ (ok m, rest)
unfolding decode_body
decode_body-append max body rest m fits e = ground (
  arith,
  body-ne_nil body e,
  length-append body rest,
  take-append body rest,
  drop-append body rest,
)

Read-decode :
    (max : ℕ) (s : Bytes) (m : Message) (rest : Bytes)
    → Read max s m rest
    → decode max s ≡ (ok m, rest)
unfolding decode
Read-decode max s m rest r =
    let announced : be32 r.highest r.high r.low r.lowest ≡ length r.body =
      omega (arith, r.body_length) in
    rw (r.splits, announced) (decode_body-append max r.body rest m r.within_limit r.read_as)

-- `Decode` returns a message and leaves a rest in the reader exactly if the reader held one frame
-- before that rest: four bytes that give the length of the body, the highest first, and then a body
-- of that length, within the limit, that unmarshals to the message.
pub decode_iff :
    (max : ℕ) (s : Bytes) (m : Message) (rest : Bytes)
    → (decode max s ≡ (ok m, rest)) ↔ Read max s m rest
decode_iff max s m rest = (decode-Read max s m rest, Read-decode max s m rest)

-- Whatever bytes a peer sends, a message that `Decode` returns is valid: version 1, a token of 32
-- to 4094 bytes, a canonical destination on port 443, a known error code.
pub decode-IsMessage :
    (max : ℕ) (s : Bytes) (m : Message) (rest : Bytes) → decode max s ≡ (ok m, rest) → IsMessage m
decode-IsMessage max s m rest e =
    let r = decode-Read max s m rest e in unmarshal-IsMessage r.body r.read_as
