-- ===== src/Tests/SecureTransport.antt =====
-- The theorems of the DNS codec at a response for "a.b" whose answer's name is a pointer.
use dproxy.Base.{◌++◌, true, false, ◌≡◌, refl, ok, [], ◌∷◌, ◌≢◌, err}
use dproxy.Base.Text.{Bytes, codes, split}
use dproxy.SecureTransport.Dns.{
  no_fuel, DnsMessage, decode_name, encode_name, build_dns_query, uint32_at,
}
use dproxy.Base.Text.{trim_suffix}
use dproxy.SecureTransport.Dns.{lower_ascii}
use dproxy.SecureTransport.Dns.RoundTrip.{decode_name-encode_name}
use dproxy.SecureTransport.Dns.Names.{decode_name-fuel}
use dproxy.SecureTransport.Dns.Bounds.{IsDecoded, decode_name-IsDecoded}
use dproxy.SecureTransport.Dns.Parse.{parse_dns_message}
use dproxy.SecureTransport.Dns.Parse.Records.{IsParsed, parse_dns_message-IsParsed}

abbrev response : Bytes
response =
    0x12 ∷ 0x34 ∷ 0x81 ∷ 0x80 ∷ 0 ∷ 1 ∷ 0 ∷ 1 ∷ 0 ∷ 0 ∷ 0 ∷ 0 ∷ 1 ∷ b'a' ∷ 1 ∷ b'B' ∷ 0 ∷ 0 ∷ 1 ∷ 0
    ∷ 1 ∷ 0xc0 ∷ 12 ∷ 0 ∷ 1 ∷ 0 ∷ 1 ∷ 0 ∷ 0 ∷ 0 ∷ 60 ∷ 0 ∷ 4 ∷ 8 ∷ 8 ∷ 8 ∷ 8 ∷ []

abbrev parsed : DnsMessage
parsed = record {
  header = record {
    id = 0x1234;
    response = true;
    truncated = false;
    rcode = 0;
    questions = 1;
    answers = 1;
  };
  questions = record { name = codes "a.b"; qtype = 1; class = 1 } ∷ [];
  answers =
      record {
        name = codes "a.b";
        rtype = 1;
        class = 1;
        ttl = 60;
        data_bytes = 8 ∷ 8 ∷ 8 ∷ 8 ∷ [];
        data_offset = 33;
      }
      ∷ [];
  wire = response;
}

response-parsed : parse_dns_message response ≡ ok parsed
unfolding parse_dns_message decode_name uint32_at
response-parsed = refl

parse_dns_message-IsParsed_example : IsParsed response parsed
parse_dns_message-IsParsed_example = parse_dns_message-IsParsed response response-parsed

name-decoded : decode_name response 21 ≡ ok (codes "a.b", 23)
unfolding decode_name
name-decoded = refl

decode_name-IsDecoded_example : IsDecoded response 21 (codes "a.b") 23
decode_name-IsDecoded_example = decode_name-IsDecoded response 21 (codes "a.b") 23 name-decoded

decode_name-fuel_example : decode_name response 21 ≢ err no_fuel
decode_name-fuel_example = decode_name-fuel response 21

query_run :
    build_dns_query 0x1234 (record { name = codes "a.b."; qtype = 28; class = 1 })
    ≡ ok (
        0x12 ∷ 0x34 ∷ 1 ∷ 0 ∷ 0 ∷ 1 ∷ 0 ∷ 0 ∷ 0 ∷ 0 ∷ 0 ∷ 0 ∷ 1 ∷ b'a' ∷ 1 ∷ b'b' ∷ 0 ∷ 0 ∷ 28 ∷ 0
        ∷ 1 ∷ [])
unfolding build_dns_query encode_name split
query_run = refl

abbrev name_wire : Bytes
name_wire = 1 ∷ b'A' ∷ 1 ∷ b'b' ∷ 0 ∷ []

name-encoded : encode_name (codes "A.b.") ≡ ok name_wire
unfolding encode_name split
name-encoded = refl

decode_name-encode_name_example :
    decode_name (7 ∷ (name_wire ++ 9 ∷ [])) 1
    ≡ ok (lower_ascii (trim_suffix b'.' (codes "A.b.")), 6)
decode_name-encode_name_example =
    decode_name-encode_name (codes "A.b.") (7 ∷ []) (9 ∷ []) name-encoded
