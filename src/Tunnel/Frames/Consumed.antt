-- ===== src/Tunnel/Frames/Consumed.antt =====
-- What `readHeader` and `writeFrame` do to the reader.
use dproxy.Base.{
  ℕ, ◌+◌, ◌*◌, ◌/◌, ◌%◌, ◌^◌, ◌≤◌, ◌≡◌, refl, sym, ◌∙◌, Bool, true, false, not, ◌||◌, Option, none,
  some, [], ◌∷◌, ◌++◌, ltb, leb, ◌==◌, if◌then◌else◌, Result, ok, err, ◌>>=◌, length, arith,
}
use dproxy.Base.Binary.{be16, be32}
use dproxy.Base.Text.{Bytes}
use dproxy.Base.Outcomes.{ok_inj}
use dproxy.Tunnel.Frames.{
  FrameError, FrameHeader, WebSocketConn, apply_mask, write_full, write_masked, take_entropy,
  write_frame, frame_length, read_length, read_length16, read_length64, read_frame_mask,
  finish_header, read_header, write_failed, max_web_socket_frame_payload, malformed_frame, no_fuel,
}

-- An error of the code.
abbrev pub is_real : FrameError → Bool
is_real no_fuel = false
is_real _ = true

module _ {A : Type 0} where
  -- A result that is an error of the code, or has the property.
  abbrev pub Sound : (A → Type 0) → Result FrameError A → Type 0
  Sound P (ok a) = P a
  Sound P (err e) = is_real e ≡ true

  choose_Sound :
      (P : A → Type 0) (b : Bool) (x y : Result FrameError A)
      → Sound P x
      → (b ≡ false → Sound P y)
      → Sound P (if b then x else y)
  choose_Sound P true x y p q = p
  choose_Sound P false x y p q = q refl

bind-Sound :
    {A B : Type 0} (P : A → Type 0) (Q : B → Type 0) (x : Result FrameError A)
    → (f : A → Result FrameError B) → Sound P x
    → ((a : A) → P a → Sound Q (f a))
    → Sound Q (x >>= f)
bind-Sound P Q (ok a) f p g = g a p
bind-Sound P Q (err e) f p g = p

weaken-Sound :
    {A : Type 0} (P Q : A → Type 0) (x : Result FrameError A)
    → Sound P x
    → ((a : A) → P a → Q a)
    → Sound Q x
weaken-Sound P Q (ok a) p f = f a p
weaken-Sound P Q (err e) p f = p

pub Sound-ok :
    {A : Type 0} (P : A → Type 0) (x : Result FrameError A) {a : A} → Sound P x → x ≡ ok a → P a
Sound-ok P (ok b) {a} p e = rw (sym (ok_inj b a e)) p
Sound-ok P (err b) {a} p e = cc

-- No more bytes than n are left.
module _ {A : Type 0} (n : ℕ) where
  abbrev Within : A × Bytes → Type 0
  Within (a, s) = length s ≤ n

read_length16-Within : (s : Bytes) → Sound (Within (length s)) (read_length16 s)
unfolding read_length16
read_length16-Within [] = refl
read_length16-Within (a ∷ []) = refl
read_length16-Within (a ∷ b ∷ s) =
    choose_Sound (Within (length (a ∷ b ∷ s))) (ltb (be16 a b) 126) (err malformed_frame) _ refl
      (λ _. omega arith)

read_length64-Within : (s : Bytes) → Sound (Within (length s)) (read_length64 s)
unfolding read_length64
read_length64-Within [] = refl
read_length64-Within (a ∷ []) = refl
read_length64-Within (a ∷ b ∷ []) = refl
read_length64-Within (a ∷ b ∷ c ∷ []) = refl
read_length64-Within (a ∷ b ∷ c ∷ d ∷ []) = refl
read_length64-Within (a ∷ b ∷ c ∷ d ∷ e ∷ []) = refl
read_length64-Within (a ∷ b ∷ c ∷ d ∷ e ∷ f ∷ []) = refl
read_length64-Within (a ∷ b ∷ c ∷ d ∷ e ∷ f ∷ g ∷ []) = refl
read_length64-Within (a ∷ b ∷ c ∷ d ∷ e ∷ f ∷ g ∷ h ∷ s) =
    let all = a ∷ b ∷ c ∷ d ∷ e ∷ f ∷ g ∷ h ∷ s in
    let size = be32 a b c d * 2 ^ 32 + be32 e f g h in
    choose_Sound (Within (length all)) (ltb size 65536 || not (size / 2 ^ 63 == 0))
      (err malformed_frame) (ok (size, s)) refl (λ _. omega arith)

read_length-Within : (size : ℕ) (s : Bytes) → Sound (Within (length s)) (read_length size s)
unfolding read_length
read_length-Within size s =
    choose_Sound (Within (length s)) (size == 126) (read_length16 s) _ (read_length16-Within s)
      (λ _.
        choose_Sound (Within (length s)) (size == 127) (read_length64 s) _ (read_length64-Within s)
          (λ _. omega arith))

read_frame_mask-Within :
    (masked : Bool) (s : Bytes) → Sound (Within (length s)) (read_frame_mask masked s)
unfolding read_frame_mask
read_frame_mask-Within false s = omega arith
read_frame_mask-Within true [] = refl
read_frame_mask-Within true (a ∷ []) = refl
read_frame_mask-Within true (a ∷ b ∷ []) = refl
read_frame_mask-Within true (a ∷ b ∷ c ∷ []) = refl
read_frame_mask-Within true (a ∷ b ∷ c ∷ d ∷ s) = omega arith

-- A header that can be used: the frame is not too large, and n bytes or more were read.
abbrev Bounded : ℕ → FrameHeader × Bytes → Type 0
Bounded n (h, s) = (h.size ≤ max_web_socket_frame_payload) × (length s ≤ n)

finish_header-Bounded :
    (first second size : ℕ) (s : Bytes)
    → Sound (Bounded (length s)) (finish_header first second (size, s))
unfolding finish_header
finish_header-Bounded first second size s =
    choose_Sound (Bounded (length s)) (ltb max_web_socket_frame_payload size) (err malformed_frame)
      _ refl
      (λ e.
        bind-Sound (Within (length s)) (Bounded (length s)) (read_frame_mask (leb 128 second) s) _
          (read_frame_mask-Within (leb 128 second) s) (λ (mask, r) l. (ground (arith, e), l)))

-- A header, and what is left behind it.
abbrev pub Header : ℕ → FrameHeader × Bytes → Type 0
Header n (h, s) = (h.size ≤ max_web_socket_frame_payload) × (length s + 2 ≤ n)

pub read_header-Header : (s : Bytes) → Sound (Header (length s)) (read_header s)
unfolding read_header
read_header-Header [] = refl
read_header-Header (a ∷ []) = refl
read_header-Header (a ∷ b ∷ s) =
    let all = a ∷ b ∷ s in
    choose_Sound (Header (length all)) _ (err malformed_frame) _ refl (λ _.
      bind-Sound (Within (length s)) (Header (length all)) (read_length (b % 128) s)
        (finish_header a b) (read_length-Within (b % 128) s)
        (λ (size, r) l.
          weaken-Sound (Bounded (length r)) (Header (length all)) (finish_header a b (size, r))
            (finish_header-Bounded a b size r) (λ (h, t) (small, m). (small, omega (arith, l, m)))))

-- Writing leaves the reader alone.
abbrev pub SameInput : WebSocketConn → WebSocketConn → Type 0
SameInput c d = (d.input ≡ c.input) × (d.read_remaining ≡ c.read_remaining)

write_full-SameInput : (c : WebSocketConn) (s : Bytes) → Sound (SameInput c) (write_full c s)
unfolding write_full
write_full-SameInput c s =
    choose_Sound (SameInput c) (length s == 0) (ok c) _ (refl, refl)
      (λ _.
        choose_Sound (SameInput c) (not c.can_write) (err write_failed) _ refl (λ _. (refl, refl)))

pair-SameInput :
    (c : WebSocketConn) (s t : Bytes) → Sound (SameInput c) (write_full c s >>= λ d. write_full d t)
pair-SameInput c s t =
    bind-Sound (SameInput c) (SameInput c) (write_full c s) (λ d. write_full d t)
      (write_full-SameInput c s)
      (λ d (i, r).
        weaken-Sound (SameInput d) (SameInput c) (write_full d t) (write_full-SameInput d t)
          (λ e (j, q). (j ∙ i, q ∙ r)))

write_masked-SameInput :
    (c : WebSocketConn) (op : ℕ) (p : Bytes) (r : Option (Bytes × Bytes))
    → Sound (SameInput c) (write_masked c op p r)
unfolding write_masked
write_masked-SameInput c op p none = refl
write_masked-SameInput c op p (some (k, e)) =
    pair-SameInput (record c { entropy = e }) ((128 + op) ∷ (frame_length 128 (length p) ++ k))
      (apply_mask p k 0)

pub write_frame-SameInput :
    (c : WebSocketConn) (op : ℕ) (p : Bytes) → Sound (SameInput c) (write_frame c op p)
unfolding write_frame
write_frame-SameInput c op p =
    choose_Sound (SameInput c) (not c.client) _ (write_masked c op p (take_entropy c.entropy))
      (pair-SameInput c ((128 + op) ∷ frame_length 0 (length p)) p)
      (λ _. write_masked-SameInput c op p (take_entropy c.entropy))
