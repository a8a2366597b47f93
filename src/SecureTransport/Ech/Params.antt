-- ===== src/SecureTransport/Ech/Params.antt =====
-- The SvcParams that `parseSvcParams` accepts, and their bytes.
use dproxy.Base.{
  ℕ, zero, suc, ◌+◌, ◌/◌, ◌%◌, ◌^◌, ◌≤◌, ◌<◌, ◌≡◌, ◌↔◌, refl, sym, ap, ◌∙◌, Bool, true, false, ◌&&◌,
  List, [], ◌∷◌, ◌++◌, ltb, all, and_true, ok, err, length, take, drop, arith, length-take_le,
  take-append-drop, take-append, drop-append, length-append,
}
use dproxy.Base.Binary.{be16, put16}
use dproxy.Base.Text.{Bytes}
use dproxy.Base.Predicates.{all-append}
use dproxy.Base.Outcomes.{OkWith, OkWith-ok, choose_OkWith, bind-OkWith}
use dproxy.SecureTransport.Ech.{
  param_overrun, unordered_param, take_param, svc_params, parse_svc_params,
}

-- A key, the length of the value, and the value.
abbrev pub param_bytes : ℕ × Bytes → Bytes → Bytes
param_bytes (key, value) rest = put16 key ++ (put16 (length value) ++ (value ++ rest))

abbrev pub params_bytes : List (ℕ × Bytes) → Bytes
params_bytes [] = []
params_bytes (p ∷ ps) = param_bytes p (params_bytes ps)

-- Keys of 16 bits that grow from `lowest` on, and values of less than 2 ^ 16 bytes.
abbrev pub IsParams : ℕ → List (ℕ × Bytes) → Type 0
IsParams lowest [] = Unit
IsParams lowest ((key, value) ∷ ps) =
    (lowest ≤ key) × (key < 65536) × (length value < 65536) × IsParams (key + 1) ps

abbrev pub is_byte : ℕ → Bool
is_byte c = ltb c 256

two_bytes : (n : ℕ) → n < 65536 → be16 (n / 2 ^ 8 % 256) (n % 256) ≡ n
two_bytes n h = omega arith

put16-be16 : (a b : ℕ) → a < 256 → b < 256 → put16 (be16 a b) ≡ a ∷ b ∷ []
put16-be16 a b ha hb =
    let high : be16 a b / 256 % 256 ≡ a = omega (arith, ha, hb) in
    let low : be16 a b % 256 ≡ b = omega (arith, hb) in rw (high, low) refl

take_param-param_bytes :
    (lowest key : ℕ) (value rest : Bytes)
    → lowest ≤ key
    → key < 65536
    → length value < 65536
    → take_param lowest (param_bytes (key, value) rest) ≡ ok ((key, value), rest)
unfolding take_param
take_param-param_bytes lowest key value rest low few short =
    let there : ltb (length (value ++ rest)) (length value) ≡ false =
      ground (arith, length-append value rest) in
    let ordered : ltb key lowest ≡ false = ground (arith, low) in
    rw
      (
        two_bytes key few,
        two_bytes (length value) short,
        there,
        ordered,
        take-append value rest,
        drop-append value rest,
        take_param,
      )
      refl

svc_params-params_bytes :
    (ps : List (ℕ × Bytes)) (fuel lowest : ℕ)
    → IsParams lowest ps
    → length (params_bytes ps) ≤ fuel
    → svc_params fuel lowest (params_bytes ps) ≡ ok ps
unfolding svc_params
svc_params-params_bytes [] fuel lowest h few = refl
svc_params-params_bytes ((key, value) ∷ ps) zero lowest h few = absurd (omega (arith, few))
svc_params-params_bytes ((key, value) ∷ ps) (suc fuel) lowest (low, small, short, h) few =
    let rest =
      svc_params-params_bytes ps fuel (key + 1) h
        (omega (arith, few, length-append value (params_bytes ps))) in
    rw (take_param-param_bytes lowest key value (params_bytes ps) low small short, rest, svc_params)
      refl

-- A param in front of the bytes, as it is taken.
IsTaken : ℕ → Bytes → (ℕ × Bytes) × Bytes → Type 0
IsTaken lowest bytes ((key, value), rest) =
    (bytes ≡ param_bytes (key, value) rest)
    × (lowest ≤ key)
    × (key < 65536)
    × (length value < 65536)
    × (all is_byte rest ≡ true)

take_param-IsTaken :
    (lowest : ℕ) (bytes : Bytes)
    → all is_byte bytes ≡ true
    → OkWith (IsTaken lowest bytes) (take_param lowest bytes)
unfolding take_param IsTaken
take_param-IsTaken lowest [] h = tt
take_param-IsTaken lowest (a ∷ []) h = tt
take_param-IsTaken lowest (a ∷ b ∷ []) h = tt
take_param-IsTaken lowest (a ∷ b ∷ c ∷ []) h = tt
take_param-IsTaken lowest (a ∷ b ∷ c ∷ d ∷ rest) h =
    let bytes = a ∷ b ∷ c ∷ d ∷ rest in
    let (ha, hb, hc, hd, more) = four_bytes a b c d rest h in
    choose_OkWith (IsTaken lowest bytes) (ltb (length rest) (be16 c d))
      (err (param_overrun (be16 a b))) _ (λ _. tt)
      (λ e.
        choose_OkWith (IsTaken lowest bytes) (ltb (be16 a b) lowest)
          (err (unordered_param (be16 a b))) _ (λ _. tt)
          (λ f.
            let size = length-take_le (be16 c d) rest (ground (arith, e)) in
            let v = take (be16 c d) rest in
            let w = drop (be16 c d) rest in
            (
              ap (λ r. a ∷ b ∷ c ∷ d ∷ r) (sym (take-append-drop (be16 c d) rest))
                  ∙ ap (λ (s : Bytes). s ++ (c ∷ d ∷ (v ++ w))) (sym (put16-be16 a b ha hb))
                  ∙ ap (λ (s : Bytes). put16 (be16 a b) ++ (s ++ (v ++ w)))
                      (sym (put16-be16 c d hc hd) ∙ ap put16 (sym size)),
              ground (arith, f),
              omega (arith, ha, hb),
              omega (arith, hc, hd, size),
              and_right (all is_byte v) (all is_byte w) (
                  sym (all-append is_byte v w)
                  ∙ ap (all is_byte) (take-append-drop (be16 c d) rest)
                  ∙ more),
            )))
  where
    four_bytes :
        (a b c d : ℕ) (rest : Bytes)
        → all is_byte (a ∷ b ∷ c ∷ d ∷ rest) ≡ true
        → (a < 256) × (b < 256) × (c < 256) × (d < 256) × (all is_byte rest ≡ true)
    four_bytes a b c d rest h = ground (arith, h)

    and_right : (a b : Bool) → a && b ≡ true → b ≡ true
    and_right a b h = (and_true a b h).1

-- Params with their bytes.
Are : ℕ → Bytes → List (ℕ × Bytes) → Type 0
Are lowest bytes ps = IsParams lowest ps × (bytes ≡ params_bytes ps)

svc_params-Are :
    (fuel lowest : ℕ) (bytes : Bytes)
    → all is_byte bytes ≡ true
    → OkWith (Are lowest bytes) (svc_params fuel lowest bytes)
unfolding svc_params IsTaken Are
svc_params-Are zero lowest [] h = (tt, refl)
svc_params-Are (suc fuel) lowest [] h = (tt, refl)
svc_params-Are zero lowest (x ∷ xs) h = tt
svc_params-Are (suc fuel) lowest (x ∷ xs) h =
    bind-OkWith (IsTaken lowest (x ∷ xs)) (Are lowest (x ∷ xs)) (take_param lowest (x ∷ xs)) _
      (take_param-IsTaken lowest (x ∷ xs) h)
      (λ ((key, value), rest) (bytes, low, small, short, more).
        bind-OkWith (Are (key + 1) rest) (Are lowest (x ∷ xs)) (svc_params fuel (key + 1) rest) _
          (svc_params-Are fuel (key + 1) rest more)
          (λ ps (later, same).
            ((low, small, short, later), bytes ∙ ap (param_bytes (key, value)) same)))

-- The bytes of a record's SvcParams are accepted exactly if they are the params that are given, one
-- behind the other, with keys that grow: no key comes twice, and none behind a larger one.
pub parse_svc_params_iff :
    (bytes : Bytes) (ps : List (ℕ × Bytes))
    → all is_byte bytes ≡ true
    → (parse_svc_params bytes ≡ ok ps) ↔ (IsParams 0 ps × (bytes ≡ params_bytes ps))
unfolding parse_svc_params Are
parse_svc_params_iff bytes ps h = (
  λ e.
      OkWith-ok (Are 0 bytes) (svc_params (length bytes) 0 bytes)
        (svc_params-Are (length bytes) 0 bytes h) e,
  λ (k, same).
      ap (svc_params (length bytes) 0) same
      ∙ svc_params-params_bytes ps (length bytes) 0 k (omega (arith, ap length same)),
)
