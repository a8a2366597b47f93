-- ===== src/SecureTransport/Dns/RoundTrip.antt =====
-- `decodeName` on what `encodeName` wrote.
use dproxy.Base.{
  ℕ, ◌+◌, ◌≤◌, ◌<◌, ◌≡◌, refl, sym, ap, ◌∙◌, Bool, true, false, not, List, [], ◌∷◌, ◌++◌, ltb, ◌==◌,
  if◌then◌else◌, ok, length, append-nil, append_assoc, all, arith, ==_iff,
}
use dproxy.Base.Outcomes.{OkWith, ok-OkWith, OkWith-ok, choose_OkWith, bind-OkWith}
use dproxy.Base.Text.{Bytes, split, cons_head, trim_suffix}
use dproxy.SecureTransport.Dns.{
  is_decoded, is_printable, with_label, decode_name, lower_ascii, lower_byte, encode_labels,
  encode_trimmed, encode_name,
}
use dproxy.SecureTransport.Dns.Labels.{
  AllLabels, AllDotless, wire_of, used_by, with_labels, wire_of-read,
}

-- The folded labels with a dot before each.
lower_tail : List Bytes → Bytes
lower_tail [] = []
lower_tail (l ∷ ls) = b'.' ∷ (lower_ascii l ++ lower_tail ls)

-- The folded labels with a dot between each two.
joined : List Bytes → Bytes
unfolding lower_tail
joined [] = []
joined (l ∷ ls) = lower_ascii l ++ lower_tail ls

-- A splitting of a text: labels with no dot, whose folded bytes with the dots are the folded text.
record Splits (s : Bytes) (ls : List Bytes) : Type 0 where
  dotless : AllDotless ls
  folded : joined ls ≡ lower_ascii s
  used : used_by ls ≡ length s + 1

split_head :
    (c : ℕ) (s : Bytes) (ls : List Bytes) (b : Bool)
    → (c == b'.') ≡ b
    → 0 < length ls
    → Splits s ls
    → Splits (c ∷ s) (if b then [] ∷ ls else cons_head c ls)
unfolding joined lower_tail lower_ascii lower_byte
split_head c s [] b e n v = absurd (omega (arith, n))
split_head c s (l ∷ ls) true e n v = record {
  dotless = (refl, v.dotless);
  folded = ap2_cons (dot c e) v.folded;
  used = omega (arith, v.used);
}
  where
    dot : (c : ℕ) → (c == b'.') ≡ true → b'.' ≡ lower_byte c
    dot c e = rw ((==_iff c b'.').0 e) refl

    ap2_cons : {x y : ℕ} {xs ys : Bytes} → x ≡ y → xs ≡ ys → x ∷ xs ≡ y ∷ ys
    ap2_cons {x} {y} {xs} {ys} p q = ap (λ z. z ∷ xs) p ∙ ap (λ zs. y ∷ zs) q
split_head c s (l ∷ ls) false e n v = record {
  dotless = (rw e v.dotless.0, v.dotless.1);
  folded = ap (λ zs. lower_byte c ∷ zs) v.folded;
  used = omega (arith, v.used);
}

length-split : (s : Bytes) → 0 < length (split b'.' s)
unfolding split
length-split [] = omega arith
length-split (c ∷ s) = of_head (c == b'.') (split b'.' s)
  where
    of_head : (b : Bool) (ls : List Bytes) → 0 < length (if b then [] ∷ ls else cons_head c ls)
    of_head true ls = omega arith
    of_head false [] = omega arith
    of_head false (l ∷ ls) = omega arith

split-Splits : (s : Bytes) → Splits s (split b'.' s)
unfolding split joined lower_tail lower_ascii
split-Splits [] = record { dotless = (refl, tt); folded = refl; used = omega arith }
split-Splits (c ∷ s) =
    split_head c s (split b'.' s) (c == b'.') refl (length-split s) (split-Splits s)

decoded_label :
    (l : Bytes)
    → all is_printable l ≡ true
    → all (λ c. not (c == b'.')) l ≡ true
    → all is_decoded l ≡ true
decoded_label [] p d = refl
decoded_label (c ∷ l) p d = ground (arith, decoded_label l)

-- What the loop of `encodeName` checked and wrote.
abbrev Written : List Bytes → Bytes → Type 0
Written ls bytes = (bytes ≡ wire_of ls) × AllLabels ls

encode_labels-Written : (ls : List Bytes) → AllDotless ls → OkWith (Written ls) (encode_labels ls)
unfolding encode_labels
encode_labels-Written [] d = (refl, tt)
encode_labels-Written (l ∷ ls) (d, ds) =
    choose_OkWith (Written (l ∷ ls)) (length l == 0) _ _ (λ e. tt)
      (λ e.
        choose_OkWith (Written (l ∷ ls)) (ltb 63 (length l)) _ _ (λ f. tt)
          (λ f.
            choose_OkWith (Written (l ∷ ls)) (not (all is_printable l)) _ _ (λ g. tt)
              (λ g.
                bind-OkWith (Written ls) (Written (l ∷ ls)) (encode_labels ls) _
                  (encode_labels-Written ls ds)
                  (λ w (same, labels). (
                    ap (λ x. length l ∷ (l ++ x)) same,
                    (
                      record {
                        not_nil = ground (arith, e);
                        fits = ground (arith, f);
                        decoded = decoded_label l (ground (arith, g)) d;
                      },
                      labels,
                    ),
                  )))))

with_labels-tail :
    (c : ℕ) (built : Bytes) (ls : List Bytes)
    → with_labels (c ∷ built) ls ≡ c ∷ (built ++ lower_tail ls)
unfolding lower_tail with_label
with_labels-tail c built [] = ap (λ s. c ∷ s) (sym (append-nil built))
with_labels-tail c built (l ∷ ls) =
    with_labels-tail c (built ++ b'.' ∷ lower_ascii l) ls
    ∙ ap (λ s. c ∷ s) (append_assoc built (b'.' ∷ lower_ascii l) (lower_tail ls))

with_labels-joined : (ls : List Bytes) → AllLabels ls → with_labels [] ls ≡ joined ls
unfolding joined lower_tail with_label lower_ascii
with_labels-joined [] v = refl
with_labels-joined ([] ∷ ls) (v, vs) = absurd (omega (arith, v.not_nil))
with_labels-joined ((c ∷ l) ∷ ls) (v, vs) = with_labels-tail (lower_byte c) (lower_ascii l) ls

abbrev Reads : Bytes → Bytes → Type 0
Reads name bytes =
    (pre rest : Bytes)
    → decode_name (pre ++ (bytes ++ rest)) (length pre)
      ≡ ok (lower_ascii name, length pre + length bytes)

encode_trimmed-Reads : (name : Bytes) → OkWith (Reads name) (encode_trimmed name)
unfolding encode_trimmed
encode_trimmed-Reads name =
    choose_OkWith (Reads name) (length name == 0) _ _ (λ e. empty_read name (ground (arith, e)))
      (λ e.
        choose_OkWith (Reads name) (ltb 253 (length name)) _ _ (λ f. tt)
          (λ f. ok-OkWith (Reads name) (encode_labels (split b'.' name)) (λ bytes g.
            labels_read bytes (ground (arith, f)) (
              OkWith-ok (Written (split b'.' name)) (encode_labels (split b'.' name))
                (encode_labels-Written (split b'.' name) (split-Splits name).dotless) g))))
  where
    empty_read : (n : Bytes) → length n ≡ 0 → Reads n (0 ∷ [])
    empty_read [] e pre rest = unfold lower_ascii in wire_of-read [] pre rest tt (omega arith)
    empty_read (c ∷ n) e pre rest = absurd (omega (arith, e))

    labels_read :
        (bytes : Bytes) → length name ≤ 253 → Written (split b'.' name) bytes → Reads name bytes
    labels_read bytes short (same, labels) pre rest = rw same (
        wire_of-read (split b'.' name) pre rest labels
          (omega (arith, (split-Splits name).used, short))
        ∙ ap (λ n. ok (n, length pre + length (wire_of (split b'.' name))))
            (with_labels-joined (split b'.' name) labels ∙ (split-Splits name).folded))

-- `decodeName` reads what `encodeName` wrote anywhere in a message, gives the name without its last
-- dot and with its capital letters lowered, and ends exactly behind it.
pub decode_name-encode_name :
    (name : Bytes) {bytes : Bytes} (pre rest : Bytes)
    → encode_name name ≡ ok bytes
    → decode_name (pre ++ (bytes ++ rest)) (length pre)
      ≡ ok (lower_ascii (trim_suffix b'.' name), length pre + length bytes)
unfolding encode_name
decode_name-encode_name name pre rest e =
    OkWith-ok (Reads (trim_suffix b'.' name)) (encode_trimmed (trim_suffix b'.' name))
      (encode_trimmed-Reads (trim_suffix b'.' name)) e pre rest
