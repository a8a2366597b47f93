-- ===== src/SecureTransport/Ech/Concealed.antt =====
-- What `validateECHConfigList` accepts, and the name that `echPublicName` then reports.
use dproxy.Base.{
  ℕ, zero, suc, ◌+◌, ◌≤◌, ◌<◌, ◌≡◌, ◌≢◌, refl, sym, ap, inl, inr, ◌⊎◌, true, false, ◌||◌, Option,
  none, some, List, [], ◌∷◌, ◌++◌, ◌==◌, ltb, All, ==_iff, if◌then◌else◌, Result, ok, err, length,
  take, drop, arith, Bool-cases, length-take_le, take-append-drop,
}
use dproxy.Base.Binary.{be16}
use dproxy.Base.Text.{Bytes, equal, equal_iff}
use dproxy.Base.Outcomes.{OkWith, ok-OkWith, OkWith-ok, choose_OkWith, bind-OkWith}
use dproxy.SecureTransport.Ech.{
  EchFault, bad_body_length, not_concealed, take_config, ech_config_public_name, ech_config_version,
  public_turns, ech_public_name, canonical_dns_name, check_config, check_configs, count_configs,
  validate_ech_config_list, outer_length_is_wrong,
}

-- The bytes of the configurations: each has a version, the length of its body, and a body that is
-- not empty.
abbrev pub IsLayout : Bytes → List (ℕ × Bytes) → Type 0
IsLayout remaining [] = remaining ≡ []
IsLayout remaining ((version, contents) ∷ cs) =
    (a b c d : ℕ) × (rest : Bytes) × (remaining ≡ a ∷ b ∷ c ∷ d ∷ (contents ++ rest))
    × (be16 a b ≡ version)
    × (be16 c d ≡ length contents)
    × (0 < length contents)
    × IsLayout rest cs

-- How many configurations are of the version that can be used.
abbrev pub supported_count : List (ℕ × Bytes) → ℕ
supported_count [] = 0
supported_count ((version, contents) ∷ cs) =
    if version == ech_config_version then suc (supported_count cs) else supported_count cs

-- A configuration in front, as it is taken.
Taken : Bytes → (ℕ × Bytes) × Bytes → Type 0
Taken remaining ((version, contents), rest) =
    (a b c d : ℕ) × (remaining ≡ a ∷ b ∷ c ∷ d ∷ (contents ++ rest))
    × (be16 a b ≡ version)
    × (be16 c d ≡ length contents)
    × (0 < length contents)

take_config-Taken : (remaining : Bytes) → OkWith (Taken remaining) (take_config remaining)
unfolding take_config Taken
take_config-Taken [] = tt
take_config-Taken (a ∷ []) = tt
take_config-Taken (a ∷ b ∷ []) = tt
take_config-Taken (a ∷ b ∷ c ∷ []) = tt
take_config-Taken (a ∷ b ∷ c ∷ d ∷ rest) =
    let all_bytes = a ∷ b ∷ c ∷ d ∷ rest in
    choose_OkWith (Taken all_bytes) (be16 c d == 0 || ltb (length rest) (be16 c d))
      (err bad_body_length) _ (λ _. tt)
      (λ e.
        let there : be16 c d ≤ length rest = ground (arith, e) in
        let size = length-take_le (be16 c d) rest there in
        let some_bytes : 0 < length (take (be16 c d) rest) = ground (arith, e, size) in
        (
          a,
          b,
          c,
          d,
          ap (λ r. a ∷ b ∷ c ∷ d ∷ r) (sym (take-append-drop (be16 c d) rest)),
          refl,
          sym size,
          some_bytes,
        ))

unequal : (s t : Bytes) → equal s t ≡ false → s ≢ t
unequal s t h same = let e = (equal_iff s t).1 same in absurd (ground (arith, e, h))

module _ (to_lower : Bytes → Bytes) (server : Bytes) where
  -- The name is not the server's, however it is written.
  abbrev pub Differs : Bytes → Type 0
  Differs name = canonical_dns_name to_lower name ≢ canonical_dns_name to_lower server

  -- A configuration that is not used, or does not tell the server's name.
  abbrev pub Hidden : ℕ × Bytes → Type 0
  Hidden (version, contents) =
      (version ≢ ech_config_version)
      ⊎ ((name : Bytes) × (ech_config_public_name contents ≡ ok name) × Differs name)

  IsChecked : ℕ × Bytes → ℕ → Type 0
  IsChecked (version, contents) one =
      ((version == ech_config_version ≡ true)
        × (one ≡ 1)
        × ((name : Bytes) × (ech_config_public_name contents ≡ ok name) × Differs name))
      ⊎ ((version == ech_config_version ≡ false) × (one ≡ 0))

  check_config-IsChecked : (c : ℕ × Bytes) → OkWith (IsChecked c) (check_config to_lower server c)
  unfolding check_config IsChecked
  check_config-IsChecked (version, contents) =
      let named = ech_config_public_name contents in
      choose_OkWith (IsChecked (version, contents)) (version == ech_config_version) _ (ok 0)
        (λ v.
          bind-OkWith (λ name. named ≡ ok name) (IsChecked (version, contents)) named _
            (ok-OkWith (λ name. named ≡ ok name) named (λ name e. e))
            (λ name e.
              choose_OkWith (IsChecked (version, contents))
                (equal (canonical_dns_name to_lower name) (canonical_dns_name to_lower server))
                (err not_concealed) (ok 1) (λ _. tt)
                (λ u. inl (v, refl, (name, e, unequal _ _ u)))))
        (λ v. inr (v, refl))

  checked-Hidden : (c : ℕ × Bytes) (one : ℕ) → IsChecked c one → Hidden c
  unfolding IsChecked
  checked-Hidden (version, contents) one (inl (v, o, named)) = inr named
  checked-Hidden (version, contents) one (inr (v, o)) =
      inl (λ same. absurd (ground (arith, v, (==_iff version ech_config_version).1 same)))

  checked_count :
      (c : ℕ × Bytes) (one : ℕ) (cs : List (ℕ × Bytes))
      → IsChecked c one
      → supported_count (c ∷ cs) ≡ one + supported_count cs
  unfolding IsChecked
  checked_count (version, contents) one cs (inl (v, o, named)) = rw v (omega (arith, o))
  checked_count (version, contents) one cs (inr (v, o)) = rw v (omega (arith, o))

  -- What the loops see from here.
  Seen : ℕ → Bytes → ℕ × ℕ → Type 0
  Seen fuel remaining (n, s) =
      (cs : List (ℕ × Bytes)) × IsLayout remaining cs
      × All Hidden cs
      × (n ≡ length cs)
      × (s ≡ supported_count cs)
      × ((s ≡ 0) ⊎ Differs (public_turns fuel remaining))

  reported :
      (fuel : ℕ) (remaining : Bytes) (c : ℕ × Bytes) (rest : Bytes) (one s : ℕ)
      → take_config remaining ≡ ok (c, rest)
      → IsChecked c one
      → (s ≡ 0) ⊎ Differs (public_turns fuel rest)
      → (one + s ≡ 0) ⊎ Differs (public_turns (suc fuel) remaining)
  unfolding IsChecked public_turns
  reported fuel remaining (version, contents) rest one s t (inl (v, o, (name, e, differs))) later =
      inr (rw (t, v, e, public_turns) differs)
  reported fuel remaining (version, contents) rest one s t (inr (v, o)) (inl none_left) =
      inl (omega (arith, o, none_left))
  reported fuel remaining (version, contents) rest one s t (inr (v, o)) (inr differs) =
      inr (rw (t, v, public_turns) differs)

  check_configs-Seen :
      (fuel : ℕ) (remaining : Bytes)
      → OkWith (Seen fuel remaining) (check_configs to_lower server fuel remaining)
  unfolding check_configs Seen Taken
  check_configs-Seen zero [] = ([], refl, tt, refl, refl, inl refl)
  check_configs-Seen (suc fuel) [] = ([], refl, tt, refl, refl, inl refl)
  check_configs-Seen zero (x ∷ xs) = tt
  check_configs-Seen (suc fuel) (x ∷ xs) =
      let all_bytes = x ∷ xs in
      bind-OkWith (λ r. take_config all_bytes ≡ ok r) (Seen (suc fuel) all_bytes)
        (take_config all_bytes) _
        (ok-OkWith (λ r. take_config all_bytes ≡ ok r) (take_config all_bytes) (λ r e. e))
        (λ (c, rest) t.
          bind-OkWith (IsChecked c) (Seen (suc fuel) all_bytes) (check_config to_lower server c) _
            (check_config-IsChecked c)
            (λ one checked.
              bind-OkWith (Seen fuel rest) (Seen (suc fuel) all_bytes)
                (check_configs to_lower server fuel rest) _ (check_configs-Seen fuel rest)
                (λ (n, s) (cs, layout, hidden, count, uses, later).
                  let (a, b, c2, d, bytes, version, size, some_bytes) =
                    OkWith-ok (Taken all_bytes) (take_config all_bytes)
                      (take_config-Taken all_bytes) t in
                  (
                    c ∷ cs,
                    (a, b, c2, d, rest, bytes, version, size, some_bytes, layout),
                    (checked-Hidden c one checked, hidden),
                    omega (arith, count),
                    omega (arith, uses, checked_count c one cs checked),
                    reported fuel all_bytes c rest one s t checked later,
                  ))))

-- A list of configurations with its length, where one or more can be used, each that can be used
-- hides the server's name, and so does the name that is reported.
pub record IsConcealed (to_lower : Bytes → Bytes) (list server : Bytes) : Type 0 where
  pub outer : Bytes
  pub configs : List (ℕ × Bytes)
  pub layout : IsLayout outer configs
  pub usable : 0 < supported_count configs
  pub hidden : All (Hidden to_lower server) configs
  pub reported_name : Differs to_lower server (ech_public_name list)
  pub whole : drop 2 list ≡ outer
  pub outer_length : outer_length_is_wrong list ≡ false

from_counts :
    (to_lower : Bytes → Bytes) (list server : Bytes) (r : Result EchFault (ℕ × ℕ))
    → outer_length_is_wrong list ≡ false
    → OkWith (Seen to_lower server (length list) (drop 2 list)) r
    → elim r as (λ x. Option EchFault) [
      | err e ↦ some e
      | ok counts ↦ count_configs to_lower counts
    ]
      ≡ none
    → IsConcealed to_lower list server
unfolding count_configs Seen ech_public_name
from_counts to_lower list server (err e) right s h = cc
from_counts to_lower list server (ok (n, zero)) right s h = absurd (ground (arith, h))
from_counts to_lower list server (ok (n, suc k)) right
      (cs, layout, hidden, count, uses, inl none_left) h =
    absurd (omega (arith, none_left))
from_counts to_lower list server (ok (n, suc k)) right
      (cs, layout, hidden, count, uses, inr differs) h =
    record {
      outer = drop 2 list;
      configs = cs;
      layout = layout;
      usable = omega (arith, uses);
      hidden = hidden;
      reported_name = rw (right, ech_public_name) differs;
      whole = refl;
      outer_length = right;
    }

-- An ECHConfigList that is accepted for a server consists, behind its length, of configurations with
-- bodies that are not empty; one at least can be used, each that can be used has a public name that
-- differs from the server's name when both are folded, and so does the public name that is then
-- reported for the list.
pub validate_ech_config_list-IsConcealed :
    (to_lower : Bytes → Bytes) (list server : Bytes)
    → validate_ech_config_list to_lower list server ≡ none
    → IsConcealed to_lower list server
unfolding validate_ech_config_list
validate_ech_config_list-IsConcealed to_lower list server h =
    elim (Bool-cases (ltb (length list) 6)) [
      | inl e ↦ let clash = rw (e, validate_ech_config_list) at h in cc
      | inr e ↦ elim (Bool-cases (outer_length_is_wrong list)) [
        | inl w ↦ let clash = rw (e, w, validate_ech_config_list) at h in cc
        | inr w ↦
            from_counts to_lower list server
              (check_configs to_lower server (length list) (drop 2 list)) w
              (check_configs-Seen to_lower server (length list) (drop 2 list))
              (rw (e, w, validate_ech_config_list) at h)
      ]
    ]
