-- ===== src/SecureTransport/Dns.antt =====
-- internal/securetransport/dns.go: the DNS wire format. Bytes are numbers below 256, so a byte has
-- its two highest bits set exactly if it is 192 or more.
pub mod Names
pub mod Bounds
pub mod Labels
pub mod RoundTrip
pub mod Parse
use dproxy.Base.{
  ℕ, zero, suc, ◌+◌, ◌-◌, ◌*◌, ◌/◌, ◌%◌, ◌^◌, Bool, not, ◌&&◌, Option, none, some, List, [], ◌∷◌,
  ◌++◌, ltb, leb, ◌==◌, within, if◌then◌else◌, Result, ok, err, ◌>>=◌, length, get_elem?, take,
  drop, all,
}
use dproxy.Base.Text.{Bytes, split, trim_suffix}

-- `errDNSMalformed` and `errDNSName`. `no_fuel` is no error of the code: it stands
-- for a loop that was cut off.
pub data DnsError : Type 0 where
  dns_malformed dns_name no_fuel : DnsError

abbrev pub dns_message_limit : ℕ
dns_message_limit = 65535

abbrev pub dns_name_limit : ℕ
dns_name_limit = 255

abbrev pub dns_label_limit : ℕ
dns_label_limit = 63

abbrev pub dns_pointer_budget : ℕ
dns_pointer_budget = 16

-- `dnsHeader`
pub record DnsHeader : Type 0 where
  pub id : ℕ
  pub response : Bool
  pub truncated : Bool
  pub rcode : ℕ
  pub questions : ℕ
  pub answers : ℕ

-- `dnsQuestion`
pub record DnsQuestion : Type 0 where
  pub name : Bytes
  pub qtype : ℕ
  pub class : ℕ

-- `dnsRecord`
pub record DnsRecord : Type 0 where
  pub name : Bytes
  pub rtype : ℕ
  pub class : ℕ
  pub ttl : ℕ
  pub data_bytes : Bytes
  pub data_offset : ℕ

-- `dnsMessage`
pub record DnsMessage : Type 0 where
  pub header : DnsHeader
  pub questions : List DnsQuestion
  pub answers : List DnsRecord
  pub wire : Bytes

abbrev is_printable : ℕ → Bool
is_printable c = ltb 0x20 c && ltb c 0x7f

-- The loop of `encodeName` over the labels.
unfoldable pub encode_labels : List Bytes → Result DnsError Bytes
encode_labels [] = ok (0 ∷ [])
encode_labels (label ∷ labels) =
    let rest = encode_labels labels in
    if length label == 0
    then err dns_name
    else if ltb dns_label_limit (length label)
    then err dns_name
    else if not (all is_printable label)
    then err dns_name
    else rest >>= λ bytes. ok (length label ∷ (label ++ bytes))

encode_trimmed : Bytes → Result DnsError Bytes
unfolding encode_labels
encode_trimmed name =
    if length name == 0
    then ok (0 ∷ [])
    else if ltb (dns_name_limit - 2) (length name)
    then err dns_name
    else encode_labels (split b'.' name)

-- `encodeName`, without the destination that it appends to.
unfoldable pub encode_name : Bytes → Result DnsError Bytes
unfolding encode_trimmed trim_suffix
encode_name name = encode_trimmed (trim_suffix b'.' name)

-- `lowerASCII`
unfoldable pub lower_byte : ℕ → ℕ
lower_byte c = if within b'A' b'Z' c then c + 32 else c

unfoldable pub lower_ascii : Bytes → Bytes
unfolding lower_byte
lower_ascii [] = []
lower_ascii (c ∷ label) = lower_byte c ∷ lower_ascii label

-- The variables of the loop of `decodeName`.
pub record Cursor : Type 0 where
  pub offset : ℕ
  pub next : Option ℕ
  pub budget : ℕ
  pub total : ℕ
  pub built : Bytes

-- One turn of that loop: it returns, or goes on.
pub data Turn : Type 0 where
  stop : Result DnsError (Bytes × ℕ) → Turn
  again : Cursor → Turn

abbrev pub is_decoded : ℕ → Bool
is_decoded c = ltb 0x20 c && (ltb c 0x7f && not (c == b'.'))

-- `if next < 0 { next = ... }`
abbrev pub first_end : Option ℕ → ℕ → ℕ
first_end none position = position
first_end (some n) position = n

-- `builder` with a label.
unfoldable pub with_label : Bytes → Bytes → Bytes
unfolding lower_ascii
with_label [] label = lower_ascii label
with_label (c ∷ built) label = c ∷ (built ++ b'.' ∷ lower_ascii label)

unfoldable pub follow_pointer : Cursor → ℕ → Option ℕ → Turn
follow_pointer c high none = stop (err dns_malformed)
follow_pointer c high (some low) =
    let target = (high * 256 + low) % 2 ^ 14 in
    if leb c.offset target
    then stop (err dns_malformed)
    else if c.budget == 0
    then stop (err dns_malformed)
    else again (record {
      offset = target;
      next = some (first_end c.next (c.offset + 2));
      budget = c.budget - 1;
      total = c.total;
      built = c.built;
    })

unfoldable pub take_label : Bytes → Cursor → ℕ → Turn
unfolding with_label
take_label message c len =
    if ltb (length message) (c.offset + 1 + len)
    then stop (err dns_malformed)
    else if ltb dns_name_limit (c.total + len + 1)
    then stop (err dns_malformed)
    else if not (all is_decoded (take len (drop (c.offset + 1) message)))
    then stop (err dns_name)
    else again (record {
      offset = c.offset + 1 + len;
      next = c.next;
      budget = c.budget;
      total = c.total + len + 1;
      built = with_label c.built (take len (drop (c.offset + 1) message));
    })

-- The switch over the length byte.
unfoldable pub turn_at : Bytes → Cursor → Option ℕ → Turn
unfolding follow_pointer take_label
turn_at message c none = stop (err dns_malformed)
turn_at message c (some len) =
    if len == 0
    then stop (ok (c.built, first_end c.next (c.offset + 1)))
    else if leb 192 len
    then follow_pointer c len (get_elem? message (c.offset + 1))
    else if ltb dns_label_limit len
    then stop (err dns_malformed)
    else take_label message c len

unfoldable pub decode_turns : Bytes → ℕ → Cursor → Result DnsError (Bytes × ℕ)
unfolding turn_at
decode_turns message zero c = err no_fuel
decode_turns message (suc fuel) c = elim (turn_at message c (get_elem? message c.offset)) [
  | stop r ↦ r
  | again d ↦ decode_turns message fuel d
]

abbrev pub start_at : ℕ → Cursor
start_at offset = record {
  offset = offset;
  next = none;
  budget = dns_pointer_budget;
  total = 0;
  built = [];
}

-- `decodeName`. Every turn but the last uses up a pointer or a byte of the name limit.
unfoldable pub decode_name : Bytes → ℕ → Result DnsError (Bytes × ℕ)
unfolding decode_turns
decode_name message offset = decode_turns message 272 (start_at offset)

-- `binary.BigEndian.AppendUint16`
abbrev pub append16 : ℕ → Bytes
append16 n = (n / 256 % 256) ∷ (n % 256) ∷ []

-- `buildDNSQuery`
unfoldable pub build_dns_query : ℕ → DnsQuestion → Result DnsError Bytes
unfolding encode_name
build_dns_query id question = encode_name question.name >>= λ name. ok (
    append16 id
    ++ (1
        ∷ 0
        ∷ 0
        ∷ 1
        ∷ 0
        ∷ 0
        ∷ 0
        ∷ 0
        ∷ 0
        ∷ 0
        ∷ (name ++ (append16 question.qtype ++ append16 question.class))))

-- The big-endian number of the bytes from an offset on; an index past the end counts as 0, and
-- the callers check it before.
unfoldable pub byte_at : Bytes → ℕ → ℕ
byte_at message offset = elim (get_elem? message offset) [ none ↦ 0 | some c ↦ c ]

unfoldable pub uint16_at : Bytes → ℕ → ℕ
unfolding byte_at
uint16_at message offset = byte_at message offset * 256 + byte_at message (offset + 1)

unfoldable pub uint32_at : Bytes → ℕ → ℕ
unfolding uint16_at
uint32_at message offset = uint16_at message offset * 2 ^ 16 + uint16_at message (offset + 2)
