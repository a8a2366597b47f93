-- ===== src/SecureTransport/Dns/Labels.antt =====
-- `decodeName` at labels that stand in a message with no pointer.
use dproxy.Base.{
  ℕ, zero, suc, ◌+◌, ◌≤◌, ◌<◌, ◌≡◌, refl, sym, ap, ◌∙◌, true, false, not, Option, none, some, List,
  [], ◌∷◌, ◌++◌, ltb, leb, ◌==◌, Result, ok, length, append_assoc, get_elem?, take, drop, all,
  arith, length-append, take-append, get_elem?-append,
}
use dproxy.Base.Text.{Bytes}
use dproxy.SecureTransport.Dns.{
  DnsError, Cursor, stop, again, is_decoded, with_label, take_label, turn_at, decode_turns,
  decode_name,
}

-- A label that `encodeName` lets through and `decodeName` does.
pub record IsLabel (l : Bytes) : Type 0 where
  pub not_nil : 0 < length l
  pub fits : length l ≤ 63
  pub decoded : all is_decoded l ≡ true

abbrev pub AllLabels : List Bytes → Type 0
AllLabels [] = Unit {0}
AllLabels (l ∷ ls) = IsLabel l × AllLabels ls

-- The labels on the wire, with the byte that ends them.
abbrev pub wire_of : List Bytes → Bytes
wire_of [] = 0 ∷ []
wire_of (l ∷ ls) = length l ∷ (l ++ wire_of ls)

abbrev pub AllDotless : List Bytes → Type 0
AllDotless [] = Unit {0}
AllDotless (l ∷ ls) = (all (λ c. not (c == b'.')) l ≡ true) × AllDotless ls

-- The bytes of a name that the labels use up.
abbrev pub used_by : List Bytes → ℕ
used_by [] = 0
used_by (l ∷ ls) = length l + 1 + used_by ls

abbrev pub with_labels : Bytes → List Bytes → Bytes
with_labels built [] = built
with_labels built (l ∷ ls) = with_labels (with_label built l) ls

abbrev cursor_at : ℕ → ℕ → Bytes → Cursor
cursor_at offset total built = record {
  offset = offset;
  next = none;
  budget = 16;
  total = total;
  built = built;
}

drop_past : (pre : Bytes) (x : ℕ) (s : Bytes) → drop (length pre + 1) (pre ++ x ∷ s) ≡ s
drop_past [] x s = refl
drop_past (c ∷ pre) x s =
    ap (λ n. drop n (c ∷ (pre ++ x ∷ s))) (one_more (length pre)) ∙ drop_past pre x s
  where
    one_more : (n : ℕ) → suc n + 1 ≡ suc (n + 1)
    one_more n = omega arith

take_label-again :
    (pre l s : Bytes) (total : ℕ) (built : Bytes)
    → IsLabel l
    → total + length l + 1 ≤ 255
    → take_label (pre ++ length l ∷ (l ++ s)) (cursor_at (length pre) total built) (length l)
      ≡ again (cursor_at (length pre + 1 + length l) (total + length l + 1) (with_label built l))
unfolding take_label
take_label-again pre l s total built v h = rw (inside, room, label, letters) refl
  where
    inside : ltb (length (pre ++ length l ∷ (l ++ s))) (length pre + 1 + length l) ≡ false
    inside = ground (arith, length-append pre (length l ∷ (l ++ s)), length-append l s)

    room : ltb 255 (total + length l + 1) ≡ false
    room = ground arith

    label : take (length l) (drop (length pre + 1) (pre ++ length l ∷ (l ++ s))) ≡ l
    label = ap (take (length l)) (drop_past pre (length l) (l ++ s)) ∙ take-append l s

    letters : all is_decoded l ≡ true
    letters = v.decoded

turn_at-label :
    (pre l s : Bytes) (total : ℕ) (built : Bytes)
    → IsLabel l
    → total + length l + 1 ≤ 255
    → turn_at (pre ++ length l ∷ (l ++ s)) (cursor_at (length pre) total built) (some (length l))
      ≡ again (cursor_at (length pre + 1 + length l) (total + length l + 1) (with_label built l))
unfolding turn_at
turn_at-label pre l s total built v h =
    rw (nonzero, no_pointer, short) (take_label-again pre l s total built v h)
  where
    nonzero : (length l == 0) ≡ false
    nonzero = ground (arith, v.not_nil)

    no_pointer : leb 192 (length l) ≡ false
    no_pointer = ground (arith, v.fits)

    short : ltb 63 (length l) ≡ false
    short = ground (arith, v.fits)

decode_turns-stop :
    (m : Bytes) (fuel : ℕ) (c : Cursor) (b : Option ℕ) (r : Result DnsError (Bytes × ℕ))
    → get_elem? m c.offset ≡ b
    → turn_at m c b ≡ stop r
    → decode_turns m (suc fuel) c ≡ r
unfolding decode_turns
decode_turns-stop m fuel c b r e f = rw (decode_turns, e, f) refl

decode_turns-again :
    (m : Bytes) (fuel : ℕ) (c d : Cursor) (b : Option ℕ)
    → get_elem? m c.offset ≡ b
    → turn_at m c b ≡ again d
    → decode_turns m (suc fuel) c ≡ decode_turns m fuel d
unfolding decode_turns
decode_turns-again m fuel c d b e f = rw (decode_turns, e, f) refl

turn_at-end :
    (m : Bytes) (offset total : ℕ) (built : Bytes)
    → turn_at m (cursor_at offset total built) (some 0) ≡ stop (ok (built, offset + 1))
unfolding turn_at
turn_at-end m offset total built = refl

decode_turns-wire_of :
    (ls : List Bytes) (fuel : ℕ) (pre rest : Bytes) (total : ℕ) (built : Bytes)
    → AllLabels ls
    → total + used_by ls ≤ 255
    → length ls < fuel
    → decode_turns (pre ++ (wire_of ls ++ rest)) fuel (cursor_at (length pre) total built)
      ≡ ok (with_labels built ls, length pre + length (wire_of ls))
decode_turns-wire_of ls zero pre rest total built v h f = absurd (omega (arith, f))
decode_turns-wire_of [] (suc fuel) pre rest total built v h f =
    decode_turns-stop (pre ++ 0 ∷ rest) fuel (cursor_at (length pre) total built) (some 0)
      (ok (built, length pre + 1)) (get_elem?-append pre 0 rest)
      (turn_at-end (pre ++ 0 ∷ rest) (length pre) total built)
decode_turns-wire_of (l ∷ ls) (suc fuel) pre rest total built (v, vs) h f =
    ap (λ m. decode_turns m (suc fuel) (cursor_at (length pre) total built)) flat
    ∙ decode_turns-again (pre ++ length l ∷ (l ++ (wire_of ls ++ rest))) fuel
        (cursor_at (length pre) total built) _ (some (length l))
        (get_elem?-append pre (length l) (l ++ (wire_of ls ++ rest)))
        (turn_at-label pre l (wire_of ls ++ rest) total built v (omega (arith, h)))
    ∙ ap2 moved ends
    ∙ decode_turns-wire_of ls fuel (pre ++ length l ∷ l) rest (total + length l + 1)
        (with_label built l) vs (omega (arith, h)) (omega (arith, f))
    ∙ ap (λ n. ok (with_labels (with_label built l) ls, n)) whole
  where
    flat : pre ++ (wire_of (l ∷ ls) ++ rest) ≡ pre ++ length l ∷ (l ++ (wire_of ls ++ rest))
    flat = ap (λ s. pre ++ length l ∷ s) (append_assoc l (wire_of ls) rest)

    moved :
        pre ++ length l ∷ (l ++ (wire_of ls ++ rest))
        ≡ (pre ++ length l ∷ l) ++ (wire_of ls ++ rest)
    moved = sym (append_assoc pre (length l ∷ l) (wire_of ls ++ rest))

    ends : length pre + 1 + length l ≡ length (pre ++ length l ∷ l)
    ends = omega (arith, length-append pre (length l ∷ l))

    ap2 :
        {m n : Bytes} {i j : ℕ}
        → m ≡ n
        → i ≡ j
        → decode_turns m fuel (cursor_at i (total + length l + 1) (with_label built l))
          ≡ decode_turns n fuel (cursor_at j (total + length l + 1) (with_label built l))
    ap2 {m} {n} {i} {j} p q =
        ap (λ x. decode_turns x fuel (cursor_at i (total + length l + 1) (with_label built l))) p
        ∙ ap (λ k. decode_turns n fuel (cursor_at k (total + length l + 1) (with_label built l))) q

    whole :
        length (pre ++ length l ∷ l) + length (wire_of ls) ≡ length pre + length (wire_of (l ∷ ls))
    whole = omega (arith, length-append pre (length l ∷ l), length-append l (wire_of ls))

length-used_by : (ls : List Bytes) → length ls ≤ used_by ls
length-used_by [] = omega arith
length-used_by (l ∷ ls) = omega (arith, length-used_by ls)

pub wire_of-read :
    (ls : List Bytes) (pre rest : Bytes)
    → AllLabels ls
    → used_by ls ≤ 255
    → decode_name (pre ++ (wire_of ls ++ rest)) (length pre)
      ≡ ok (with_labels [] ls, length pre + length (wire_of ls))
unfolding decode_name
wire_of-read ls pre rest v h =
    decode_turns-wire_of ls 272 pre rest 0 [] v (omega (arith, h))
      (omega (arith, length-used_by ls, h))
