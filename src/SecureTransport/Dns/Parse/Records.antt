-- ===== src/SecureTransport/Dns/Parse/Records.antt =====
-- What a response that `parseDNSMessage` accepts looks like.
use dproxy.Base.{
  ℕ, zero, suc, ◌+◌, ◌≤◌, ◌≡◌, refl, true, false, ltb, ok, ◌>>=◌, length, take, drop, all, All,
  arith, length-drop, length-take_le,
}
use dproxy.Base.Text.{Bytes}
use dproxy.Base.Outcomes.{OkWith, ok-OkWith, OkWith-ok, choose_OkWith, bind-OkWith}
use dproxy.SecureTransport.Dns.{DnsRecord, DnsMessage, decode_name, uint16_at}
use dproxy.SecureTransport.Dns.Bounds.{is_folded, decode_name-IsDecoded}
use dproxy.SecureTransport.Dns.Parse.{
  read_header, question_at, parse_questions, record_at, parse_answers, parse_sections,
  parse_dns_message,
}

-- A record of a message: its name is folded, and its data are the bytes of the message from the
-- offset on that is kept with them.
pub record IsRecord (wire : Bytes) (r : DnsRecord) : Type 0 where
  pub name_folded : all is_folded r.name ≡ true
  pub copied : r.data_bytes ≡ take (length r.data_bytes) (drop r.data_offset wire)
  pub inside : r.data_offset + length r.data_bytes ≤ length wire

-- A response as it was accepted: within the limits of its size, with the header that stands at its
-- front, as many questions and answers as that header counts, and records that lie inside it.
pub record IsParsed (wire : Bytes) (m : DnsMessage) : Type 0 where
  pub has_header : 12 ≤ length wire
  pub within_limit : length wire ≤ 65535
  pub header_read : m.header ≡ read_header wire
  pub question_count : length m.questions ≡ m.header.questions
  pub answer_count : length m.answers ≡ m.header.answers
  pub records : All (IsRecord wire) m.answers
  pub kept : m.wire ≡ wire

module _ (wire : Bytes) where
  decode_name-OkWith :
      (offset : ℕ) → OkWith (λ p. all is_folded p.0 ≡ true) (decode_name wire offset)
  decode_name-OkWith offset =
      ok-OkWith (λ p. all is_folded p.0 ≡ true) (decode_name wire offset)
        (λ (name, next) e. (decode_name-IsDecoded wire offset name next e).folded)

  record_at-OkWith :
      (p : Bytes × ℕ)
      → all is_folded p.0 ≡ true
      → OkWith (λ q. IsRecord wire q.0) (record_at wire p)
  unfolding record_at
  record_at-OkWith (name, next) v =
      choose_OkWith (λ q. IsRecord wire q.0) (ltb (length wire) (next + 10)) _ _ (λ e. tt)
        (λ e.
          choose_OkWith (λ q. IsRecord wire q.0)
            (ltb (length wire) (next + 10 + uint16_at wire (next + 8))) _ _ (λ f. tt)
            (λ f.
              let len = data_length (next + 10) (uint16_at wire (next + 8)) f in
              record { name_folded = v; copied = rw len refl; inside = ground (arith, len, f) }))
    where
      data_length :
          (start len : ℕ)
          → ltb (length wire) (start + len) ≡ false
          → length (take len (drop start wire)) ≡ len
      data_length start len f =
          length-take_le len (drop start wire) (ground (arith, length-drop start wire, f))

  parse_answers-OkWith :
      (n offset : ℕ)
      → OkWith (λ q. (length q.0 ≡ n) × All (IsRecord wire) q.0) (parse_answers wire n offset)
  unfolding parse_answers
  parse_answers-OkWith zero offset = (refl, tt)
  parse_answers-OkWith (suc n) offset =
      bind-OkWith (λ q. IsRecord wire q.0) (λ q. (length q.0 ≡ suc n) × All (IsRecord wire) q.0)
        (decode_name wire offset >>= record_at wire) _
        (bind-OkWith (λ p. all is_folded p.0 ≡ true) (λ q. IsRecord wire q.0)
          (decode_name wire offset) (record_at wire) (decode_name-OkWith offset) record_at-OkWith)
        (λ (r, next) v.
          bind-OkWith (λ q. (length q.0 ≡ n) × All (IsRecord wire) q.0)
            (λ q. (length q.0 ≡ suc n) × All (IsRecord wire) q.0) (parse_answers wire n next) _
            (parse_answers-OkWith n next) (λ (rs, end) (k, vs). (omega (arith, k), (v, vs))))

  parse_questions-OkWith :
      (n offset : ℕ) → OkWith (λ q. length q.0 ≡ n) (parse_questions wire n offset)
  unfolding parse_questions
  parse_questions-OkWith zero offset = refl
  parse_questions-OkWith (suc n) offset =
      bind-OkWith (λ q. Unit {0}) (λ q. length q.0 ≡ suc n)
        (decode_name wire offset >>= question_at wire) _
        (ok-OkWith (λ q. Unit {0}) (decode_name wire offset >>= question_at wire) (λ q e. tt))
        (λ (q, next) v.
          bind-OkWith (λ q. length q.0 ≡ n) (λ q. length q.0 ≡ suc n) (parse_questions wire n next)
            _ (parse_questions-OkWith n next) (λ (qs, end) k. omega (arith, k)))

  parse_dns_message-OkWith : OkWith (IsParsed wire) (parse_dns_message wire)
  unfolding parse_dns_message parse_sections
  parse_dns_message-OkWith =
      choose_OkWith (IsParsed wire) (ltb (length wire) 12) _ _ (λ e. tt)
        (λ e.
          choose_OkWith (IsParsed wire) (ltb 65535 (length wire)) _ _ (λ f. tt)
            (λ f.
              bind-OkWith (λ q. length q.0 ≡ (read_header wire).questions) (IsParsed wire)
                (parse_questions wire (read_header wire).questions 12) _
                (parse_questions-OkWith (read_header wire).questions 12)
                (λ (qs, start) k.
                  bind-OkWith
                    (λ q. (length q.0 ≡ (read_header wire).answers) × All (IsRecord wire) q.0)
                    (IsParsed wire) (parse_answers wire (read_header wire).answers start) _
                    (parse_answers-OkWith (read_header wire).answers start)
                    (λ (rs, end) (l, vs). record {
                      has_header = ground arith;
                      within_limit = ground arith;
                      header_read = refl;
                      question_count = k;
                      answer_count = l;
                      records = vs;
                      kept = refl;
                    }))))

-- A response that `parseDNSMessage` accepts has 12 to 65535 bytes, the header at its front, as many
-- questions and answers as the header counts, and only answers with a folded name whose data are
-- the bytes of the response at the kept offset, all inside the response.
pub parse_dns_message-IsParsed :
    (wire : Bytes) {m : DnsMessage} → parse_dns_message wire ≡ ok m → IsParsed wire m
parse_dns_message-IsParsed wire e =
    OkWith-ok (IsParsed wire) (parse_dns_message wire) (parse_dns_message-OkWith wire) e
