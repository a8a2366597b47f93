-- ===== src/Tests/Ech.antt =====
-- Runs of the ECH parsing, and its theorems at concrete inputs.
use dproxy.Base.{ℕ, ◌+◌, ◌≡◌, ◌↔◌, refl, none, some, [], ◌∷◌, ◌++◌, ok, err, length}
use dproxy.Base.Text.{Bytes, codes}
use dproxy.SecureTransport.Dns.{decode_name}
use dproxy.SecureTransport.Ech.{
  unordered_param, truncated_param, parse_svc_params, parse_https_record, ech_public_name,
  validate_ech_config_list, not_concealed, none_supported,
}
use dproxy.SecureTransport.Ech.Params.{IsParams, params_bytes, parse_svc_params_iff}
use dproxy.SecureTransport.Ech.Concealed.{IsConcealed, validate_ech_config_list-IsConcealed}

abbrev alpn_and_ech : Bytes
alpn_and_ech = 0 ∷ 1 ∷ 0 ∷ 2 ∷ 7 ∷ 8 ∷ 0 ∷ 5 ∷ 0 ∷ 1 ∷ 9 ∷ []

parse_svc_params_iff_example :
    (parse_svc_params alpn_and_ech ≡ ok ((1, 7 ∷ 8 ∷ []) ∷ (5, 9 ∷ []) ∷ [])) ↔ (
      IsParams 0 ((1, 7 ∷ 8 ∷ []) ∷ (5, 9 ∷ []) ∷ [])
      × (alpn_and_ech ≡ params_bytes ((1, 7 ∷ 8 ∷ []) ∷ (5, 9 ∷ []) ∷ [])))
parse_svc_params_iff_example =
    parse_svc_params_iff alpn_and_ech ((1, 7 ∷ 8 ∷ []) ∷ (5, 9 ∷ []) ∷ []) refl

params_read :
    (parse_svc_params alpn_and_ech ≡ ok ((1, 7 ∷ 8 ∷ []) ∷ (5, 9 ∷ []) ∷ []))
    × (parse_svc_params (0 ∷ 5 ∷ 0 ∷ 0 ∷ 0 ∷ 5 ∷ 0 ∷ 0 ∷ []) ≡ err (unordered_param 5))
    × (parse_svc_params (0 ∷ 5 ∷ 0 ∷ []) ≡ err truncated_param)
unfolding parse_svc_params
params_read = (refl, refl, refl)

-- A record for the root with an ech value, at the front of its message.
abbrev https_data : Bytes
https_data = 0 ∷ 1 ∷ 0 ∷ 0 ∷ 5 ∷ 0 ∷ 2 ∷ 3 ∷ 4 ∷ []

https_read :
    parse_https_record https_data (record {
      name = [];
      rtype = 65;
      class = 1;
      ttl = 60;
      data_bytes = https_data;
      data_offset = 0;
    })
    ≡ ok (record { priority = 1; target = []; ech = 3 ∷ 4 ∷ []; ttl = 60 })
unfolding parse_https_record decode_name
https_read = refl

-- A configuration: an id, a key, suites, the public name and no extensions.
abbrev config_bytes : ℕ → Bytes → Bytes
config_bytes version name =
    254
    ∷ version
    ∷ 0
    ∷ (12 + length name)
    ∷ 1
    ∷ 0
    ∷ 32
    ∷ 0
    ∷ 1
    ∷ 9
    ∷ 0
    ∷ 0
    ∷ 0
    ∷ length name
    ∷ (name ++ 0 ∷ 0 ∷ [])

abbrev list_bytes : Bytes → Bytes
list_bytes body = 0 ∷ length body ∷ body

-- A configuration of an older version, and one that can be used.
abbrev two_configs : Bytes
two_configs = list_bytes (config_bytes 10 (codes "old.io") ++ config_bytes 13 (codes "front.io"))

abbrev keep : Bytes → Bytes
keep s = s

lists :
    (validate_ech_config_list keep two_configs (codes "relay.io") ≡ none)
    × (ech_public_name two_configs ≡ codes "front.io")
    × (validate_ech_config_list keep two_configs (codes "front.io.") ≡ some not_concealed)
    × (validate_ech_config_list keep (list_bytes (config_bytes 10 (codes "a.io"))) []
        ≡ some none_supported)
unfolding validate_ech_config_list ech_public_name
lists = (refl, refl, refl, refl)

validate_ech_config_list-IsConcealed_example : IsConcealed keep two_configs (codes "relay.io")
validate_ech_config_list-IsConcealed_example =
    validate_ech_config_list-IsConcealed keep two_configs (codes "relay.io") lists.0
