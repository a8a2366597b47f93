-- ===== src/SecureTransport/Dns/Names.antt =====
-- The turns that `decodeName` takes.
use dproxy.Base.{
  ℕ, zero, suc, ◌+◌, ◌-◌, ◌*◌, ◌%◌, ◌^◌, ◌<◌, ◌≡◌, ◌≢◌, refl, Bool, true, false, not, Option, none,
  some, ltb, leb, ◌==◌, if◌then◌else◌, err, length, get_elem?, take, drop, all, arith,
}
use dproxy.Base.Text.{Bytes}
use dproxy.SecureTransport.Dns.{
  dns_malformed, dns_name, no_fuel, Cursor, Turn, stop, again, is_decoded, follow_pointer,
  take_label, turn_at, decode_turns, start_at, decode_name,
}

-- What is left of the pointers and of the bytes of the name.
abbrev left : Cursor → ℕ
left c = c.budget + (255 - c.total)

abbrev Decreases : Cursor → Turn → Type 0
Decreases c (stop r) = r ≢ err no_fuel
Decreases c (again d) = (left d < left c)

choose_Decreases :
    (c : Cursor) (b : Bool) (s t : Turn)
    → (b ≡ true → Decreases c s)
    → (b ≡ false → Decreases c t)
    → Decreases c (if b then s else t)
choose_Decreases c true s t p q = p refl
choose_Decreases c false s t p q = q refl

malformed_Decreases : (c : Cursor) → Decreases c (stop (err dns_malformed))
malformed_Decreases c e = cc

name_Decreases : (c : Cursor) → Decreases c (stop (err dns_name))
name_Decreases c e = cc

follow_pointer-Decreases :
    (c : Cursor) (high : ℕ) (low : Option ℕ) → Decreases c (follow_pointer c high low)
unfolding follow_pointer
follow_pointer-Decreases c high none = malformed_Decreases c
follow_pointer-Decreases c high (some low) =
    choose_Decreases c (leb c.offset ((high * 256 + low) % 2 ^ 14)) _ _ (λ e. malformed_Decreases c)
      (λ e. choose_Decreases c (c.budget == 0) _ _ (λ e. malformed_Decreases c) (λ e. ground arith))

take_label-Decreases :
    (message : Bytes) (c : Cursor) (len : ℕ) → 0 < len → Decreases c (take_label message c len)
unfolding take_label
take_label-Decreases message c len p =
    choose_Decreases c (ltb (length message) (c.offset + 1 + len)) _ _ (λ e. malformed_Decreases c)
      (λ e.
        choose_Decreases c (ltb 255 (c.total + len + 1)) _ _ (λ e. malformed_Decreases c)
          (λ fits.
            choose_Decreases c (not (all is_decoded (take len (drop (c.offset + 1) message)))) _ _
              (λ e. name_Decreases c) (λ e. ground arith)))

turn_at-Decreases :
    (message : Bytes) (c : Cursor) (byte : Option ℕ) → Decreases c (turn_at message c byte)
unfolding turn_at
turn_at-Decreases message c none = malformed_Decreases c
turn_at-Decreases message c (some len) =
    choose_Decreases c (len == 0) _ _ (λ e. λ f. cc)
      (λ z.
        choose_Decreases c (leb 192 len) _ _ (λ e. follow_pointer-Decreases c len _)
          (λ e.
            choose_Decreases c (ltb 63 len) _ _ (λ e. malformed_Decreases c)
              (λ e. take_label-Decreases message c len (ground arith))))

after_turn :
    (message : Bytes) (fuel : ℕ) (c : Cursor)
    → ((d : Cursor) → left d < fuel → decode_turns message fuel d ≢ err no_fuel)
    → (t : Turn) → left c < suc fuel
    → Decreases c t
    → elim t [ stop r ↦ r | again d ↦ decode_turns message fuel d ] ≢ err no_fuel
after_turn message fuel c later (stop r) p q = q
after_turn message fuel c later (again d) p q = later d (omega (arith, p, q))

decode_turns-fuel :
    (message : Bytes) (fuel : ℕ) (c : Cursor)
    → left c < fuel
    → decode_turns message fuel c ≢ err no_fuel
unfolding decode_turns
decode_turns-fuel message zero c p = omega (arith, p)
decode_turns-fuel message (suc fuel) c p =
    after_turn message fuel c (decode_turns-fuel message fuel)
      (turn_at message c (get_elem? message c.offset)) p
      (turn_at-Decreases message c (get_elem? message c.offset))

-- Whatever the message and the offset, `decodeName` returns: its loop takes at most 272 turns.
pub decode_name-fuel : (message : Bytes) (offset : ℕ) → decode_name message offset ≢ err no_fuel
unfolding decode_name
decode_name-fuel message offset = decode_turns-fuel message 272 (start_at offset) (omega arith)
