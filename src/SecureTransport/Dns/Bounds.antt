-- ===== src/SecureTransport/Dns/Bounds.antt =====
-- Where `decodeName` reads, and the names that it gives.
use dproxy.Base.{
  ℕ, zero, suc, ◌+◌, ◌*◌, ◌%◌, ◌^◌, ◌≤◌, ◌<◌, ◌≡◌, refl, sym, inl, inr, Bool, true, false, not,
  ◌&&◌, Option, none, some, [], ◌∷◌, ltb, leb, ◌==◌, within, if◌then◌else◌, Result, ok, err, length,
  get_elem?, take, drop, all, arith, Bool-cases, length-append, length-take_le, length-drop,
}
use dproxy.Base.Text.{Bytes}
use dproxy.Base.Predicates.{all-append}
use dproxy.SecureTransport.Dns.{
  DnsError, lower_byte, lower_ascii, Cursor, Turn, stop, again, is_decoded, first_end, with_label,
  follow_pointer, take_label, turn_at, decode_turns, start_at, decode_name,
}

pub get_elem?-lt : (xs : Bytes) (i : ℕ) {c : ℕ} → get_elem? xs i ≡ some c → i < length xs
get_elem?-lt [] zero e = cc
get_elem?-lt [] (suc i) e = cc
get_elem?-lt (x ∷ xs) zero e = omega arith
get_elem?-lt (x ∷ xs) (suc i) e = omega (arith, get_elem?-lt xs i e)

-- The bytes of a name: printable ASCII with no capital letter.
abbrev pub is_folded : ℕ → Bool
is_folded c = ltb 0x20 c && (ltb c 0x7f && not (within b'A' b'Z' c))

lower_ascii-length : (label : Bytes) → length (lower_ascii label) ≡ length label
unfolding lower_ascii
lower_ascii-length [] = refl
lower_ascii-length (c ∷ label) = omega (arith, lower_ascii-length label)

lower_byte-folded : (c : ℕ) → is_decoded c ≡ true → is_folded (lower_byte c) ≡ true
unfolding lower_byte
lower_byte-folded c e = elim (Bool-cases (within b'A' b'Z' c)) [
  | inl f ↦ rw f (ground arith)
  | inr f ↦ rw f (ground arith)
]

lower_ascii-folded :
    (label : Bytes) → all is_decoded label ≡ true → all is_folded (lower_ascii label) ≡ true
unfolding lower_ascii
lower_ascii-folded [] e = refl
lower_ascii-folded (c ∷ label) e = ground (arith, lower_byte-folded c, lower_ascii-folded label)

with_label-folded :
    (built label : Bytes)
    → all is_folded built ≡ true
    → all is_decoded label ≡ true
    → all is_folded (with_label built label) ≡ true
unfolding with_label
with_label-folded [] label e f = lower_ascii-folded label f
with_label-folded (c ∷ built) label e f =
    ground
      (arith, all-append is_folded built (b'.' ∷ lower_ascii label), lower_ascii-folded label f)

with_label-length :
    (built label : Bytes) → length (with_label built label) ≤ length built + length label + 1
unfolding with_label
with_label-length [] label = omega (arith, lower_ascii-length label)
with_label-length (c ∷ built) label =
    omega (arith, length-append built (b'.' ∷ lower_ascii label), lower_ascii-length label)

-- What `decodeName` gives for a name at an offset: folded bytes, no more than 255, and an end
-- behind the offset and in the message.
pub record IsDecoded (message : Bytes) (offset : ℕ) (name : Bytes) (next : ℕ) : Type 0 where
  pub folded : all is_folded name ≡ true
  pub short : length name ≤ 255
  pub forward : offset < next
  pub inside : next ≤ length message

module _ (message : Bytes) (start : ℕ) where
  abbrev EndsInside : Option ℕ → ℕ → Type 0
  EndsInside none offset = start ≤ offset
  EndsInside (some n) offset = (start < n) × (n ≤ length message)

  record Sound (c : Cursor) : Type 0 where
    folded : all is_folded c.built ≡ true
    counted : length c.built ≤ c.total
    bounded : c.total ≤ 255
    ends : EndsInside c.next c.offset

  abbrev SoundTurn : Turn → Type 0
  SoundTurn (stop (err e)) = Unit {0}
  SoundTurn (stop (ok (name, next))) = IsDecoded message start name next
  SoundTurn (again d) = Sound d

  choose_SoundTurn :
      (b : Bool) (s t : Turn)
      → (b ≡ true → SoundTurn s)
      → (b ≡ false → SoundTurn t)
      → SoundTurn (if b then s else t)
  choose_SoundTurn true s t p q = p refl
  choose_SoundTurn false s t p q = q refl

  first_end-inside :
      (next : Option ℕ) (offset n : ℕ)
      → EndsInside next offset
      → offset < n
      → n ≤ length message
      → (start < first_end next n) × (first_end next n ≤ length message)
  first_end-inside none offset n e p q = (omega (arith, e, p), q)
  first_end-inside (some m) offset n e p q = e

  follow_pointer-Sound :
      (c : Cursor)
      → Sound c
      → (high : ℕ) (low : Option ℕ) → get_elem? message (c.offset + 1) ≡ low
      → SoundTurn (follow_pointer c high low)
  unfolding follow_pointer
  follow_pointer-Sound c v high none e = tt
  follow_pointer-Sound c v high (some low) e =
      choose_SoundTurn (leb c.offset ((high * 256 + low) % 2 ^ 14)) _ _ (λ f. tt)
        (λ f.
          choose_SoundTurn (c.budget == 0) _ _ (λ g. tt)
            (λ g. record {
              folded = v.folded;
              counted = v.counted;
              bounded = v.bounded;
              ends =
                  first_end-inside c.next c.offset (c.offset + 2) v.ends (omega arith)
                    (omega (arith, get_elem?-lt message (c.offset + 1) e));
            }))

  later_inside :
      (next : Option ℕ) (offset n : ℕ) → EndsInside next offset → offset ≤ n → EndsInside next n
  later_inside none offset n e p = omega (arith, e, p)
  later_inside (some m) offset n e p = e

  label-length :
      (len offset : ℕ)
      → ltb (length message) (offset + 1 + len) ≡ false
      → length (take len (drop (offset + 1) message)) ≡ len
  label-length len offset f =
      length-take_le len (drop (offset + 1) message)
        (ground (arith, length-drop (offset + 1) message, f))

  take_label-Sound : (c : Cursor) → Sound c → (len : ℕ) → SoundTurn (take_label message c len)
  unfolding take_label
  take_label-Sound c v len =
      choose_SoundTurn (ltb (length message) (c.offset + 1 + len)) _ _ (λ f. tt)
        (λ f.
          choose_SoundTurn (ltb 255 (c.total + len + 1)) _ _ (λ g. tt)
            (λ g.
              choose_SoundTurn (not (all is_decoded (take len (drop (c.offset + 1) message)))) _ _
                (λ h. tt)
                (λ h. record {
                  folded =
                      with_label-folded c.built (take len (drop (c.offset + 1) message)) v.folded
                        (ground arith);
                  counted = omega (
                    arith,
                    with_label-length c.built (take len (drop (c.offset + 1) message)),
                    v.counted,
                    label-length len c.offset f,
                  );
                  bounded = ground (arith, g);
                  ends = later_inside c.next c.offset (c.offset + 1 + len) v.ends (omega arith);
                })))

  turn_at-Sound :
      (c : Cursor)
      → Sound c
      → (byte : Option ℕ) → get_elem? message c.offset ≡ byte
      → SoundTurn (turn_at message c byte)
  unfolding turn_at
  turn_at-Sound c v none e = tt
  turn_at-Sound c v (some len) e =
      choose_SoundTurn (len == 0) _ _
        (λ z.
          let (p, q) =
            first_end-inside c.next c.offset (c.offset + 1) v.ends (omega arith)
              (omega (arith, get_elem?-lt message c.offset e)) in
          record {
            folded = v.folded;
            short = omega (arith, v.counted, v.bounded);
            forward = p;
            inside = q;
          })
        (λ z.
          choose_SoundTurn (leb 192 len) _ _
            (λ f. follow_pointer-Sound c v len (get_elem? message (c.offset + 1)) refl)
            (λ f. choose_SoundTurn (ltb 63 len) _ _ (λ g. tt) (λ g. take_label-Sound c v len)))

  ok_pair :
      (n name : Bytes) (k next : ℕ)
      → ◌≡◌ {A = Result DnsError (Bytes × ℕ)} (ok (n, k)) (ok (name, next))
      → (n ≡ name) × (k ≡ next)
  ok_pair n name k next e = (cc, cc)

  after_turn :
      (fuel : ℕ)
      → ((d : Cursor) (name : Bytes) (next : ℕ)
          → Sound d
          → decode_turns message fuel d ≡ ok (name, next)
          → IsDecoded message start name next)
      → (t : Turn) → SoundTurn t
      → (name : Bytes) (next : ℕ)
      → elim t [ stop r ↦ r | again d ↦ decode_turns message fuel d ] ≡ ok (name, next)
      → IsDecoded message start name next
  after_turn fuel later (stop (err x)) v name next e = cc
  after_turn fuel later (stop (ok (n, k))) v name next e =
      let (p, q) = ok_pair n name k next e in rw (sym p, sym q) v
  after_turn fuel later (again d) v name next e = later d name next v e

  decode_turns-IsDecoded :
      (fuel : ℕ) (c : Cursor) (name : Bytes) (next : ℕ)
      → Sound c
      → decode_turns message fuel c ≡ ok (name, next)
      → IsDecoded message start name next
  unfolding decode_turns
  decode_turns-IsDecoded zero c name next v e = cc
  decode_turns-IsDecoded (suc fuel) c name next v e =
      after_turn fuel (decode_turns-IsDecoded fuel) (turn_at message c (get_elem? message c.offset))
        (turn_at-Sound c v (get_elem? message c.offset) refl) name next e

-- A name that `decodeName` gives consists of at most 255 printable bytes with no capital letter,
-- and what it read ends behind the offset and inside the message, whatever pointers it followed.
pub decode_name-IsDecoded :
    (message : Bytes) (offset : ℕ) (name : Bytes) (next : ℕ)
    → decode_name message offset ≡ ok (name, next)
    → IsDecoded message offset name next
unfolding decode_name
decode_name-IsDecoded message offset name next e =
    decode_turns-IsDecoded message offset 272 (start_at offset) name next
      (record { folded = refl; counted = omega arith; bounded = omega arith; ends = omega arith }) e
