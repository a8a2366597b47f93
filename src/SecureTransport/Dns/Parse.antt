-- ===== src/SecureTransport/Dns/Parse.antt =====
-- `parseDNSMessage` of internal/securetransport/dns.go.
pub mod Records
use dproxy.Base.{
  ℕ, zero, suc, ◌+◌, ◌%◌, ◌^◌, List, [], ◌∷◌, ltb, leb, if◌then◌else◌, Result, ok, err, ◌>>=◌,
  length, take, drop,
}
use dproxy.Base.Text.{Bytes}
use dproxy.SecureTransport.Dns.{
  DnsError, dns_malformed, DnsHeader, DnsQuestion, DnsRecord, DnsMessage, dns_message_limit,
  decode_name, uint16_at, uint32_at,
}

-- The 12 bytes of the header.
unfoldable pub read_header : Bytes → DnsHeader
unfolding uint16_at
read_header wire =
    let flags = uint16_at wire 2 in
    record {
      id = uint16_at wire 0;
      response = leb 0x8000 (flags % 2 ^ 16);
      truncated = leb 0x200 (flags % 0x400);
      rcode = flags % 16;
      questions = uint16_at wire 4;
      answers = uint16_at wire 6;
    }

-- A question behind its name, and where the next begins.
question_at : Bytes → Bytes × ℕ → Result DnsError (DnsQuestion × ℕ)
unfolding uint16_at
question_at wire (name, next) =
    if ltb (length wire) (next + 4)
    then err dns_malformed
    else ok (
      record { name = name; qtype = uint16_at wire next; class = uint16_at wire (next + 2) },
      next + 4,
    )

-- The first loop: as many questions as the header counts.
unfoldable pub parse_questions : Bytes → ℕ → ℕ → Result DnsError (List DnsQuestion × ℕ)
unfolding question_at
parse_questions wire zero offset = ok ([], offset)
parse_questions wire (suc n) offset =
    (decode_name wire offset >>= question_at wire) >>= λ (q, next).
    parse_questions wire n next >>= λ (qs, end). ok (q ∷ qs, end)

-- A record behind its name, and where the next begins.
unfoldable pub record_at : Bytes → Bytes × ℕ → Result DnsError (DnsRecord × ℕ)
unfolding uint16_at uint32_at
record_at wire (name, next) =
    if ltb (length wire) (next + 10)
    then err dns_malformed
    else if ltb (length wire) (next + 10 + uint16_at wire (next + 8))
    then err dns_malformed
    else ok (
      record {
        name = name;
        rtype = uint16_at wire next;
        class = uint16_at wire (next + 2);
        ttl = uint32_at wire (next + 4);
        data_bytes = take (uint16_at wire (next + 8)) (drop (next + 10) wire);
        data_offset = next + 10;
      },
      next + 10 + uint16_at wire (next + 8),
    )

-- The second loop: as many answers as the header counts.
unfoldable pub parse_answers : Bytes → ℕ → ℕ → Result DnsError (List DnsRecord × ℕ)
unfolding record_at
parse_answers wire zero offset = ok ([], offset)
parse_answers wire (suc n) offset = (decode_name wire offset >>= record_at wire) >>= λ (r, next).
    parse_answers wire n next >>= λ (rs, end). ok (r ∷ rs, end)

unfoldable pub parse_sections : Bytes → DnsHeader → Result DnsError DnsMessage
unfolding parse_questions parse_answers
parse_sections wire header = parse_questions wire header.questions 12 >>= λ (qs, start).
    parse_answers wire header.answers start >>= λ (rs, end).
    ok (record { header = header; questions = qs; answers = rs; wire = wire })

-- `parseDNSMessage`
unfoldable pub parse_dns_message : Bytes → Result DnsError DnsMessage
unfolding parse_sections read_header
parse_dns_message wire =
    if ltb (length wire) 12
    then err dns_malformed
    else if ltb dns_message_limit (length wire)
    then err dns_malformed
    else parse_sections wire (read_header wire)
