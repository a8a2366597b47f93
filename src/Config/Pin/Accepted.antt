-- ===== src/Config/Pin/Accepted.antt =====
-- The keys that a set of pins accepts, and `ParsePin` on the text of a pin.
use dproxy.Base.{
  ℕ, ◌+◌, ◌≤◌, ◌≡◌, ◌≢◌, ◌↔◌, ◌⊎◌, inl, inr, refl, sym, ap, ◌∙◌, Bool, true, false, not, ◌||◌,
  Option, none, some, List, [], ◌∷◌, ◌++◌, ltb, ◌==◌, Result, ok, err, ◌>>=◌, length, all, arith,
  Bool-cases,
}
use dproxy.Base.Text.{Bytes, codes, equal, equal_iff, cut, to_lower}
use dproxy.Base.Space.{trim_space}
use dproxy.Base.Outcomes.{ok_inj, OkWith, OkWith-ok, choose_OkWith, bind-OkWith}
use dproxy.Base.Graphic.{is_graphic, trim_space-graphic}
use dproxy.Config.Pin.{
  Pin, PinError, PinSet, PinSetError, invalid_entry, pin_matches, new_pin_set, pin_string,
  pin_from_spki, matches_spki, decode_digest, finish_pin, parse_cut, parse_pin, parse_pins,
  parse_pin_set, match_pins, contains_spki, has_zero,
}

-- A pin as it is configured: loaded, of SHA-256, with a digest of 32 bytes.
pub record IsPin (p : Pin) : Type 0 where
  pub loaded : p.set ≡ true
  pub of_sha256 : p.algorithm ≡ codes "sha256"
  pub whole : length p.digest ≡ 32

module _ (sha256 : Bytes → Bytes) (hex_decode base64_decode : Bytes → Option Bytes)
    (base64_encode : Bytes → Bytes) where
  finish_pin-OkWith :
      (d : Option Bytes) → OkWith IsPin (finish_pin sha256 hex_decode base64_decode base64_encode d)
  unfolding finish_pin
  finish_pin-OkWith none = tt
  finish_pin-OkWith (some d) =
      choose_OkWith IsPin (not (length d == 32)) _ _ (λ e. tt)
        (λ e. record { loaded = refl; of_sha256 = refl; whole = ground arith })

  parse_cut-OkWith :
      (parts : Option (Bytes × Bytes))
      → OkWith IsPin (parse_cut sha256 hex_decode base64_decode base64_encode parts)
  unfolding parse_cut
  parse_cut-OkWith none = tt
  parse_cut-OkWith (some (algorithm, encoded)) =
      choose_OkWith IsPin (not (equal (to_lower algorithm) (codes "sha256"))) _ _ (λ e. tt)
        (λ e.
          finish_pin-OkWith (decode_digest sha256 hex_decode base64_decode base64_encode encoded))

  -- Every pin that is accepted is loaded, of SHA-256, and has a digest of 32 bytes.
  pub parse_pin-IsPin :
      (raw : Bytes) {p : Pin}
      → parse_pin sha256 hex_decode base64_decode base64_encode raw ≡ ok p
      → IsPin p
  unfolding parse_pin
  parse_pin-IsPin raw e =
      OkWith-ok IsPin (parse_pin sha256 hex_decode base64_decode base64_encode raw)
        (choose_OkWith IsPin (equal (trim_space raw) []) _ _ (λ f. tt)
          (λ f. parse_cut-OkWith (cut b':' (trim_space raw))))
        e

  matches_spki_iff :
      (p : Pin) (spki : Bytes)
      → IsPin p
      → (matches_spki sha256 hex_decode base64_decode base64_encode p spki ≡ true)
        ↔ (p.digest ≡ sha256 spki)
  unfolding matches_spki pin_matches
  matches_spki_iff p spki v = (
    λ e. (equal_iff p.digest (sha256 spki)).0 (ground (arith, v.loaded, e)),
    λ e. rw (v.loaded, sym e) (ground (arith, v.whole, (equal_iff p.digest p.digest).1 refl)),
  )

  match_pins-or :
      (ps : List Pin) (spki : Bytes) (b : Bool)
      → match_pins sha256 hex_decode base64_decode base64_encode ps spki b
        ≡ (b || match_pins sha256 hex_decode base64_decode base64_encode ps spki false)
  unfolding match_pins
  match_pins-or [] spki b = ground arith
  match_pins-or (p ∷ ps) spki b = ground (
    arith,
    match_pins-or ps spki (matches_spki sha256 hex_decode base64_decode base64_encode p spki || b),
    match_pins-or ps spki
        (matches_spki sha256 hex_decode base64_decode base64_encode p spki || false),
  )

  -- One of the entries is a pin with the digest.
  abbrev pub AnyPin : List Bytes → Bytes → Type 0
  AnyPin [] d = ⊥
  AnyPin (entry ∷ entries) d =
      ((p : Pin) × (parse_pin sha256 hex_decode base64_decode base64_encode entry ≡ ok p)
        × (p.digest ≡ d))
      ⊎ AnyPin entries d

  -- What the loop over the entries gives for them.
  abbrev Read : List Bytes → List Pin → Type 0
  Read [] [] = Unit {0}
  Read (entry ∷ entries) (p ∷ ps) =
      (parse_pin sha256 hex_decode base64_decode base64_encode entry ≡ ok p) × Read entries ps
  Read _ _ = ⊥

  parse_pins-Read :
      (position : ℕ) (raw : List Bytes)
      → OkWith (Read raw) (parse_pins sha256 hex_decode base64_decode base64_encode position raw)
  unfolding parse_pins
  parse_pins-Read position [] = tt
  parse_pins-Read position (entry ∷ entries) =
      of_entry (parse_pin sha256 hex_decode base64_decode base64_encode entry) refl
        (parse_pins sha256 hex_decode base64_decode base64_encode (position + 1) entries)
        (parse_pins-Read (position + 1) entries)
    where
      of_entry :
          (x : Result PinError Pin)
          → parse_pin sha256 hex_decode base64_decode base64_encode entry ≡ x
          → (rest : Result PinSetError (List Pin)) → OkWith (Read entries) rest
          → OkWith
              (Read (entry ∷ entries))
              (elim x [ err e ↦ err (invalid_entry position) | ok p ↦ rest >>= λ ps. ok (p ∷ ps) ])
      of_entry (err e) f rest v = tt
      of_entry (ok p) f rest v =
          bind-OkWith (Read entries) (Read (entry ∷ entries)) rest _ v (λ ps w. (f, w))

  match_pins_iff :
      (raw : List Bytes) (ps : List Pin) (spki : Bytes)
      → Read raw ps
      → (match_pins sha256 hex_decode base64_decode base64_encode ps spki false ≡ true)
        ↔ AnyPin raw (sha256 spki)
  unfolding match_pins
  match_pins_iff [] [] spki v = (λ h. absurd (ground arith), λ h. absurd h)
  match_pins_iff (entry ∷ entries) (p ∷ ps) spki (e, v) =
      let same = matches_spki_iff p spki (parse_pin-IsPin entry e) in
      let step =
        match_pins-or ps spki
          (matches_spki sha256 hex_decode base64_decode base64_encode p spki || false) in
      (
        λ h. elim (Bool-cases (matches_spki sha256 hex_decode base64_decode base64_encode p spki)) [
          | inl f ↦ inl (p, e, same.0 f)
          | inr f ↦ inr ((match_pins_iff entries ps spki v).0 (ground (arith, step, f, h)))
        ],
        λ h. elim h [
          | inl (q, f, g) ↦
              ground (arith, step, same.1 (ap (λ x. x.digest) (ok_inj p q (sym e ∙ f)) ∙ g))
          | inr m ↦ ground (arith, step, (match_pins_iff entries ps spki v).1 m)
        ],
      )
  match_pins_iff [] (p ∷ ps) spki v = absurd v
  match_pins_iff (entry ∷ entries) [] spki v = absurd v

  abbrev Accepts : List Bytes → PinSet → Type 0
  Accepts raw s =
      (length s.pins ≤ 16)
      × ((spki : Bytes)
          → (contains_spki sha256 hex_decode base64_decode base64_encode s spki ≡ true)
            ↔ ((spki ≢ []) × AnyPin raw (sha256 spki)))

  contains_spki_iff :
      (raw : List Bytes) (ps : List Pin) (spki : Bytes)
      → Read raw ps
      → (contains_spki sha256 hex_decode base64_decode base64_encode (record { pins = ps }) spki
          ≡ true)
        ↔ ((spki ≢ []) × AnyPin raw (sha256 spki))
  unfolding contains_spki
  contains_spki_iff [] [] spki v = (λ h. absurd (ground arith), λ (n, a). absurd a)
  contains_spki_iff [] (p ∷ ps) spki v = absurd v
  contains_spki_iff (entry ∷ entries) [] spki v = absurd v
  contains_spki_iff (entry ∷ entries) (p ∷ ps) [] v =
      (λ h. absurd (ground arith), λ (n, a). absurd (n refl))
  contains_spki_iff (entry ∷ entries) (p ∷ ps) (c ∷ spki) v =
      let all_pins = match_pins_iff (entry ∷ entries) (p ∷ ps) (c ∷ spki) v in
      (λ h. (λ e. cc, all_pins.0 (ground (arith, h))), λ (n, a). ground (arith, all_pins.1 a))

  new_pin_set-Accepts :
      (raw : List Bytes) (ps : List Pin) → Read raw ps → OkWith (Accepts raw) (new_pin_set ps)
  unfolding new_pin_set
  new_pin_set-Accepts raw ps v =
      choose_OkWith (Accepts raw) (length ps == 0) _ _ (λ e. tt)
        (λ e.
          choose_OkWith (Accepts raw) (ltb 16 (length ps)) _ _ (λ f. tt)
            (λ f.
              choose_OkWith (Accepts raw) (has_zero ps) _ _ (λ g. tt)
                (λ g. (ground arith, λ spki. contains_spki_iff raw ps spki v))))

  parse_pin_set-OkWith :
      (raw : List Bytes)
      → OkWith (Accepts raw) (parse_pin_set sha256 hex_decode base64_decode base64_encode raw)
  unfolding parse_pin_set
  parse_pin_set-OkWith [] = (omega arith, λ spki. contains_spki_iff [] [] spki tt)
  parse_pin_set-OkWith (entry ∷ entries) =
      choose_OkWith (Accepts (entry ∷ entries)) (length (entry ∷ entries) == 0) _ _
        (λ e. absurd (ground arith))
        (λ e.
          bind-OkWith (Read (entry ∷ entries)) (Accepts (entry ∷ entries))
            (parse_pins sha256 hex_decode base64_decode base64_encode 1 (entry ∷ entries))
            new_pin_set (parse_pins-Read 1 (entry ∷ entries))
            (new_pin_set-Accepts (entry ∷ entries)))

  -- A set that was read from configured entries has at most 16 pins, and accepts a key exactly if
  -- the key is not empty and one of the entries is a pin with the key's digest. No entries make a
  -- set that accepts nothing.
  pub parse_pin_set_iff :
      (raw : List Bytes) {s : PinSet} (spki : Bytes)
      → parse_pin_set sha256 hex_decode base64_decode base64_encode raw ≡ ok s
      → (length s.pins ≤ 16)
        × ((contains_spki sha256 hex_decode base64_decode base64_encode s spki ≡ true)
            ↔ ((spki ≢ []) × AnyPin raw (sha256 spki)))
  parse_pin_set_iff raw spki e =
      let (short, keys) =
        OkWith-ok (Accepts raw) (parse_pin_set sha256 hex_decode base64_decode base64_encode raw)
          (parse_pin_set-OkWith raw) e in
      (short, keys spki)

  -- The text of the pin that is reported for a key is parsed back into that pin, if the digest has
  -- 32 bytes, and its base64 has 44 bytes of visible ASCII and is decoded to the digest.
  pub parse_pin-pin_string :
      (spki : Bytes)
      → length (sha256 spki) ≡ 32
      → length (base64_encode (sha256 spki)) ≡ 44
      → all is_graphic (base64_encode (sha256 spki)) ≡ true
      → base64_decode (base64_encode (sha256 spki)) ≡ some (sha256 spki)
      → parse_pin sha256 hex_decode base64_decode base64_encode (
          pin_string sha256 hex_decode base64_decode base64_encode
            (pin_from_spki sha256 hex_decode base64_decode base64_encode spki))
        ≡ ok (pin_from_spki sha256 hex_decode base64_decode base64_encode spki)
  unfolding pin_string pin_from_spki parse_pin parse_cut finish_pin decode_digest equal cut to_lower
  parse_pin-pin_string spki whole size graphic decoded =
      rw
        (
          trim_space-graphic (codes "sha256:" ++ base64_encode (sha256 spki)) graphic,
          size,
          decoded,
          whole,
        )
        refl
