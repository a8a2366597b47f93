-- ===== src/Config/Token/Rotation.antt =====
-- Which tokens a server accepts.
use dproxy.Base.{
  suc, ◌≤◌, ◌<◌, ◌≡◌, refl, ap, ◌≢◌, ◌↔◌, ◌⊎◌, inl, inr, Bool, true, false, not, ◌||◌, List, [],
  ◌∷◌, arith, Bool-cases, ok, Result-cases, length, all,
}
use dproxy.Base.Text.{Bytes, equal, equal_iff}
use dproxy.Config.Token.{Token, token_is_zero}
use dproxy.Config.Token.{
  max_server_tokens, TokenSet, digest_all, new_token_set, match_any, token_set_contains,
}

module _ (sha256 : Bytes → Bytes) where
  -- One of the tokens has the digest.
  abbrev pub SameDigest : Bytes → List Token → Type 0
  SameDigest d [] = ⊥
  SameDigest d (t ∷ ts) = (sha256 t.value ≡ d) ⊎ SameDigest d ts

  abbrev digests_of : List Token → List Bytes
  digests_of [] = []
  digests_of (t ∷ ts) = sha256 t.value ∷ digests_of ts

  match_any-true : (ds : List Bytes) (d : Bytes) → match_any sha256 ds d true ≡ true
  unfolding match_any
  match_any-true [] d = refl
  match_any-true (x ∷ ds) d = match_any-true ds d

  match_any-or :
      (ds : List Bytes) (d : Bytes) (b : Bool)
      → match_any sha256 ds d b ≡ (b || match_any sha256 ds d false)
  match_any-or ds d true = match_any-true ds d
  match_any-or ds d false = refl

  match_any_iff :
      (ts : List Token) (d : Bytes)
      → (match_any sha256 (digests_of ts) d false ≡ true) ↔ SameDigest d ts
  unfolding match_any
  match_any_iff [] d = (λ h. absurd (ground arith), λ h. absurd h)
  match_any_iff (t ∷ ts) d =
      let step = match_any-or (digests_of ts) d (equal (sha256 t.value) d) in
      (
        λ h. elim (Bool-cases (equal (sha256 t.value) d)) [
          | inl e ↦ inl ((equal_iff (sha256 t.value) d).0 e)
          | inr e ↦ inr ((match_any_iff ts d).0 (ground arith))
        ],
        λ h. elim h [
          | inl e ↦ ground (arith, (equal_iff (sha256 t.value) d).1 e)
          | inr m ↦ ground (arith, (match_any_iff ts d).1 m)
        ],
      )

  digest_all-ok :
      (ts : List Token) {ds : List Bytes}
      → digest_all sha256 ts ≡ ok ds
      → (ds ≡ digests_of ts) × (all (λ t. not (token_is_zero t)) ts ≡ true)
  unfolding digest_all
  digest_all-ok [] h = ground arith
  digest_all-ok (t ∷ ts) h = elim (Result-cases (digest_all sha256 ts)) [
    | inl (ds, e) ↦ ground (arith, digest_all-ok ts e, e)
    | inr (x, e) ↦ ground (arith, e)
  ]

  new_token_set-ok :
      (ts : List Token) {s : TokenSet sha256}
      → new_token_set sha256 ts ≡ ok s
      → (s.digests ≡ digests_of ts)
        × (0 < length ts)
        × (length ts ≤ max_server_tokens)
        × (all (λ t. not (token_is_zero t)) ts ≡ true)
  unfolding new_token_set
  new_token_set-ok ts {s} h = elim (Result-cases (digest_all sha256 ts)) [
    | inl (ds, e) ↦ ground (arith, digest_all-ok ts e, e)
    | inr (x, e) ↦ ground (arith, e)
  ]

  length-digests_of : (ts : List Token) → length (digests_of ts) ≡ length ts
  length-digests_of [] = refl
  length-digests_of (t ∷ ts) = ap suc (length-digests_of ts)

  nonempty : (s : Bytes) → s ≢ [] → 0 < length s
  nonempty [] h = absurd (h refl)
  nonempty (c ∷ s) h = omega arith

  contains_guard :
      (s : TokenSet sha256) (candidate : Token)
      → token_set_contains sha256 s candidate ≡ true
      → (candidate.value ≢ []) × (match_any sha256 s.digests (sha256 candidate.value) false ≡ true)
  unfolding token_set_contains token_is_zero
  contains_guard s candidate h = (λ e. ground (arith, ap length e), ground arith)

  -- A set that could be built has one or two tokens, and accepts a token exactly if the token is
  -- loaded and has the digest of one of them.
  pub token_set_contains_iff :
      (ts : List Token) (s : TokenSet sha256) (candidate : Token)
      → new_token_set sha256 ts ≡ ok s
      → (0 < length ts)
        × (length ts ≤ 2)
        × ((token_set_contains sha256 s candidate ≡ true)
            ↔ ((candidate.value ≢ []) × SameDigest (sha256 candidate.value) ts))
  unfolding token_set_contains token_is_zero
  token_set_contains_iff ts s candidate h =
      let (digests, some_token, few, loaded) = new_token_set-ok ts h in
      let found = match_any_iff ts (sha256 candidate.value) in
      (
        some_token,
        few,
        (
          λ c.
              let (not_empty, matched) = contains_guard s candidate c in
              (not_empty, found.0 (rw digests at matched)),
          λ c.
              ground
                (arith, digests, length-digests_of ts, nonempty candidate.value c.0, found.1 c.1),
        ),
      )
