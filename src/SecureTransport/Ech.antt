-- ===== src/SecureTransport/Ech.antt =====
-- internal/securetransport/ech.go: HTTPS records, and the ECHConfigList in them. `strings.ToLower`,
-- which folds names for comparison, is a parameter.
pub mod Concealed
pub mod Params
use dproxy.Base.{
  ℕ, zero, suc, ◌+◌, ◌-◌, Bool, true, false, not, ◌||◌, Option, none, some, List, [], ◌∷◌, ◌==◌,
  ltb, if◌then◌else◌, Result, ok, err, ◌>>=◌, length, take, drop,
}
use dproxy.Base.Binary.{be16}
use dproxy.Base.Text.{Bytes, equal, trim_suffix}
use dproxy.SecureTransport.Dns.{DnsError, DnsRecord, decode_name, uint16_at, byte_at}

-- `no_fuel` is no error of the code: it stands for a loop that was cut off.
pub data HttpsFault : Type 0 where
  short_record target_overrun truncated_param no_fuel : HttpsFault
  bad_target : DnsError → HttpsFault
  param_overrun unordered_param : ℕ → HttpsFault

pub record HttpsRecord : Type 0 where
  pub priority : ℕ
  pub target : Bytes
  pub ech : Bytes
  pub ttl : ℕ

-- `alias`
unfoldable pub is_alias : HttpsRecord → Bool
is_alias r = r.priority == 0

-- A SvcParam in front of the data. Its key is to be `lowest` or above, which is one more than the
-- key before.
unfoldable pub take_param : ℕ → Bytes → Result HttpsFault ((ℕ × Bytes) × Bytes)
take_param lowest (a ∷ b ∷ c ∷ d ∷ rest) =
    if ltb (length rest) (be16 c d)
    then err (param_overrun (be16 a b))
    else if ltb (be16 a b) lowest
    then err (unordered_param (be16 a b))
    else ok ((be16 a b, take (be16 c d) rest), drop (be16 c d) rest)
take_param lowest _ = err truncated_param

unfoldable pub svc_params : ℕ → ℕ → Bytes → Result HttpsFault (List (ℕ × Bytes))
unfolding take_param
svc_params fuel lowest [] = ok []
svc_params zero lowest (x ∷ xs) = err no_fuel
svc_params (suc fuel) lowest (x ∷ xs) =
    take_param lowest (x ∷ xs) >>= λ (p, rest). svc_params fuel (p.0 + 1) rest >>= λ ps. ok (p ∷ ps)

-- `parseSvcParams`: the map, as the list of its entries in the order of the record.
unfoldable pub parse_svc_params : Bytes → Result HttpsFault (List (ℕ × Bytes))
unfolding svc_params
parse_svc_params bytes = svc_params (length bytes) 0 bytes

abbrev svc_param_ech : ℕ
svc_param_ech = 5

-- `params[key]`, which is nil where there is none.
param_value : ℕ → List (ℕ × Bytes) → Bytes
param_value key [] = []
param_value key ((k, value) ∷ ps) =
    let rest = param_value key ps in if k == key then value else rest

record_behind : Bytes → DnsRecord → Bytes × ℕ → Result HttpsFault HttpsRecord
unfolding uint16_at parse_svc_params param_value
record_behind message r (target, next) =
    let end = r.data_offset + length r.data_bytes in
    if ltb end next
    then err target_overrun
    else parse_svc_params (take (end - next) (drop next message)) >>= λ params. ok (record {
      priority = uint16_at r.data_bytes 0;
      target = target;
      ech = param_value svc_param_ech params;
      ttl = r.ttl;
    })

-- `parseHTTPSRecord`
unfoldable pub parse_https_record : Bytes → DnsRecord → Result HttpsFault HttpsRecord
unfolding decode_name record_behind
parse_https_record message r =
    if ltb (length r.data_bytes) 3
    then err short_record
    else elim (decode_name message (r.data_offset + 2)) [
      | err e ↦ err (bad_target e)
      | ok named ↦ record_behind message r named
    ]

pub data EchFault : Type 0 where
  too_short bad_outer_length truncated_header bad_body_length bad_contents : EchFault
  not_concealed no_configs none_supported cut_off : EchFault

abbrev pub ech_config_version : ℕ
ech_config_version = 0xfe0d

-- A field of a length of two bytes: where it ends.
skip_field : Bytes → ℕ → Result EchFault ℕ
unfolding uint16_at
skip_field contents cursor =
    if ltb (length contents) (cursor + 2)
    then err bad_contents
    else if ltb (length contents) (cursor + 2 + uint16_at contents cursor)
    then err bad_contents
    else ok (cursor + 2 + uint16_at contents cursor)

-- The name and the extensions behind it.
name_at : Bytes → ℕ → Result EchFault Bytes
unfolding uint16_at byte_at
name_at contents cursor =
    let size = byte_at contents (cursor + 1) in
    let end = cursor + 2 + size in
    if ltb (length contents) (cursor + 2)
    then err bad_contents
    else if ltb (length contents) end
    then err bad_contents
    else if ltb (length contents) (end + 2)
    then err bad_contents
    else if not (length contents == end + 2 + uint16_at contents end)
    then err bad_contents
    else ok (take size (drop (cursor + 2) contents))

-- `echConfigPublicName`
unfoldable pub ech_config_public_name : Bytes → Result EchFault Bytes
unfolding skip_field name_at
ech_config_public_name contents =
    if ltb (length contents) 3
    then err bad_contents
    else skip_field contents 3 >>= skip_field contents >>= name_at contents

-- A configuration in front of the rest: its version and its body.
unfoldable pub take_config : Bytes → Result EchFault ((ℕ × Bytes) × Bytes)
take_config (a ∷ b ∷ c ∷ d ∷ rest) =
    if be16 c d == 0 || ltb (length rest) (be16 c d)
    then err bad_body_length
    else ok ((be16 a b, take (be16 c d) rest), drop (be16 c d) rest)
take_config _ = err truncated_header

-- `int(binary.BigEndian.Uint16(list[:2])) != len(list)-2`
abbrev outer_length_is_wrong : Bytes → Bool
outer_length_is_wrong (a ∷ b ∷ rest) = not (be16 a b == length rest)
outer_length_is_wrong _ = true

-- The loop of `echPublicName`.
unfoldable pub public_turns : ℕ → Bytes → Bytes
unfolding take_config ech_config_public_name
public_turns zero remaining = []
public_turns (suc fuel) remaining = elim (take_config remaining) [
  | err e ↦ []
  | ok ((version, contents), rest) ↦ elim (version == ech_config_version) [
    | false ↦ public_turns fuel rest
    | true ↦ elim (ech_config_public_name contents) [ err e ↦ [] | ok name ↦ name ]
  ]
]

-- `echPublicName`
unfoldable pub ech_public_name : Bytes → Bytes
unfolding public_turns
ech_public_name list =
    if outer_length_is_wrong list then [] else public_turns (length list) (drop 2 list)

module _ (to_lower : Bytes → Bytes) where
  -- `canonicalDNSName`
  unfoldable pub canonical_dns_name : Bytes → Bytes
  unfolding trim_suffix
  canonical_dns_name name = to_lower (trim_suffix b'.' name)

  -- A configuration in the loop of `validateECHConfigList`: whether it is supported, as 1 or 0.
  unfoldable pub check_config : Bytes → ℕ × Bytes → Result EchFault ℕ
  unfolding ech_config_public_name canonical_dns_name equal
  check_config server (version, contents) =
      if version == ech_config_version
      then (ech_config_public_name contents >>= λ name.
          if equal (canonical_dns_name name) (canonical_dns_name server)
          then err not_concealed
          else ok 1)
      else ok 0

  -- How many configurations there are, and how many are supported.
  unfoldable pub check_configs : Bytes → ℕ → Bytes → Result EchFault (ℕ × ℕ)
  unfolding take_config check_config
  check_configs server fuel [] = ok (0, 0)
  check_configs server zero (x ∷ xs) = err cut_off
  check_configs server (suc fuel) (x ∷ xs) = take_config (x ∷ xs) >>= λ (config, rest).
      check_config server config >>= λ one.
      check_configs server fuel rest >>= λ (configs, supported). ok (configs + 1, one + supported)

  count_configs : ℕ × ℕ → Option EchFault
  count_configs (configs, supported) =
      if configs == 0 then some no_configs else if supported == 0 then some none_supported else none

  -- `validateECHConfigList`
  unfoldable pub validate_ech_config_list : Bytes → Bytes → Option EchFault
  unfolding check_configs count_configs
  validate_ech_config_list list server =
      if ltb (length list) 6
      then some too_short
      else if outer_length_is_wrong list
      then some bad_outer_length
      else elim (check_configs server (length list) (drop 2 list)) [
        | err e ↦ some e
        | ok counts ↦ count_configs counts
      ]
