-- ===== src/Policy/Destination/RoundTrip.antt =====
-- `ParseAuthority` on the text that `Authority` writes.
use dproxy.Base.{
  ℕ, ◌≡◌, refl, sym, ap, ◌∙◌, ◌≢◌, true, false, not, none, some, [], ◌∷◌, ◌++◌, arith, ok, all,
}
use dproxy.Base.Text.{Bytes, codes, equal, equal_iff, trim}
use dproxy.Net.ParseAddr.{parse_addr}
use dproxy.Net.HostPort.{split_host_port}
use dproxy.Base.Predicates.{all-append, all_weaken, trim-all}
use dproxy.Policy.Hostname.{is_label_byte, is_bracket}
use dproxy.Policy.Destination.{Destination, new_destination, parse_authority, authority, parse_port}
use dproxy.Base.Graphic.{is_graphic, trim_space-graphic}
use dproxy.Net.HostPort.Port.{is_inner, split_host_port-port}
use dproxy.Net.ParseAddr.Port.{is_plain, parse_addr-port}
use dproxy.Policy.Hostname.Canonical.{IsHostname, host_bytes}
use dproxy.Policy.Hostname.Lowering.{is_host_byte}
use dproxy.Policy.Destination.{parse_parts, parse_port_of, starts_with_bracket, is_address}
use dproxy.Policy.Destination.Authority.{IsDestination, new_destination_self, authority-text}

pub host-graphic : (c : ℕ) → is_host_byte c ≡ true → is_graphic c ≡ true
unfolding is_label_byte
host-graphic c h = ground arith

host-plain : (c : ℕ) → is_host_byte c ≡ true → is_plain c ≡ true
unfolding is_label_byte
host-plain c h = ground arith

host-inner : (c : ℕ) → is_host_byte c ≡ true → is_inner c ≡ true
unfolding is_label_byte
host-inner c h = ground arith

host_not_bracket : (c : ℕ) → is_host_byte c ≡ true → not (is_bracket c) ≡ true
unfolding is_label_byte
host_not_bracket c h = ground arith

module _ (h : Bytes) (v : IsHostname h) where
  bytes : all is_host_byte h ≡ true
  bytes = host_bytes h v.labels_valid

  text : Bytes
  text = h ++ codes ":443"

  graphic : all is_graphic text ≡ true
  unfolding text
  graphic = rw (
    all-append is_graphic h (codes ":443"),
    all_weaken is_host_byte is_graphic host-graphic h bytes,
  )

  -- Nothing in the text is a bracket.
  no_bracket : all (λ c. not (is_bracket c)) text ≡ true
  unfolding text
  no_bracket = rw (
    all-append (λ c. not (is_bracket c)) h (codes ":443"),
    all_weaken is_host_byte (λ c. not (is_bracket c)) host_not_bracket h bytes,
  )

  trimmed : trim is_bracket text ≡ text
  trimmed = trim-all (λ c. not (is_bracket c)) is_bracket (λ c p. ground arith) text no_bracket

  no_front_bracket : starts_with_bracket text ≡ false
  unfolding text starts_with_bracket
  no_front_bracket = front h no_bracket
    where
      front :
          (s : Bytes)
          → all (λ c. not (is_bracket c)) (s ++ codes ":443") ≡ true
          → starts_with_bracket (s ++ codes ":443") ≡ false
      front [] p = refl
      front (c ∷ s) p = ground arith

  not_address : parse_addr text ≡ none
  unfolding text
  not_address = parse_addr-port h v.not_nil (all_weaken is_host_byte is_plain host-plain h bytes)

  text_parts : split_host_port text ≡ some (h, codes "443")
  unfolding text
  text_parts = split_host_port-port h (all_weaken is_host_byte is_inner host-inner h bytes)

  text_not_nil : equal text [] ≡ false
  unfolding text
  text_not_nil = ground (arith, equal_iff (h ++ codes ":443") [], not_nil h)
    where
      not_nil : (s : Bytes) → s ++ codes ":443" ≢ []
      not_nil [] e = cc
      not_nil (c ∷ s) e = cc

  parse_text : {d : Destination} → new_destination h 443 ≡ ok d → parse_authority text ≡ ok d
  unfolding parse_authority parse_parts parse_port_of is_address parse_port
  parse_text n =
      rw
        (
          text_not_nil,
          trim_space-graphic text graphic,
          (equal_iff text text).1 refl,
          trimmed,
          not_address,
          text_parts,
        )
        (rw no_front_bracket n)

-- Parsing the authority text of a valid destination gives that destination back.
pub parse_authority-authority :
    (d : Destination) → IsDestination d → parse_authority (authority d) ≡ ok d
unfolding text
parse_authority-authority d v = rw (authority-text d v) (
    parse_text d.host v.hostname
      (ap (new_destination d.host) (sym v.port_allowed) ∙ new_destination_self d v))
