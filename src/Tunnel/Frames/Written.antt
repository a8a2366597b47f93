-- ===== src/Tunnel/Frames/Written.antt =====
-- `writeFrame`: what reaches the transport.
use dproxy.Base.{
  ℕ, suc, ◌+◌, ◌≡◌, refl, sym, ap, ◌∙◌, inl, inr, Bool, true, false, not, [], ◌∷◌, ◌++◌, ◌==◌,
  ◌>>=◌, length, arith, Bool-cases, append_assoc, append-nil,
}
use dproxy.Base.Text.{Bytes}
use dproxy.Base.Outcomes.{OkWith, ok-OkWith, OkWith-ok, choose_OkWith, bind-OkWith}
use dproxy.Tunnel.Frames.{
  WebSocketConn, apply_mask, frame_length, write_full, write_masked, take_entropy, write_frame,
}
use dproxy.Tunnel.Frames.Wire.{Mask, mask_bytes, frame_bytes}

-- A write that adds s to what is sent.
pub record Sends (c : WebSocketConn) (s : Bytes) (d : WebSocketConn) : Type 0 where
  pub side : d.client ≡ c.client
  pub added : d.sent ≡ c.sent ++ s

write_full-Sends : (c : WebSocketConn) (s : Bytes) → OkWith (Sends c s) (write_full c s)
unfolding write_full
write_full-Sends c [] = record { side = refl; added = sym (append-nil c.sent) }
write_full-Sends c (b ∷ s) =
    rw (nonzero s, write_full)
      (elim (Bool-cases c.can_write) [
        | inl e ↦ rw e (record { side = refl; added = refl })
        | inr e ↦ rw e tt
      ])
  where
    nonzero : (s : Bytes) → (suc (length s) == 0) ≡ false
    nonzero s = ground arith

-- One write behind another.
pair-Sends :
    (c : WebSocketConn) (s t : Bytes)
    → OkWith (Sends c (s ++ t)) (write_full c s >>= λ d. write_full d t)
pair-Sends c s t =
    bind-OkWith (Sends c s) (Sends c (s ++ t)) (write_full c s) (λ d. write_full d t)
      (write_full-Sends c s)
      (λ d a. ok-OkWith (Sends c (s ++ t)) (write_full d t) (λ e x.
        let b = OkWith-ok (Sends d t) (write_full d t) (write_full-Sends d t) x in
        record {
          side = b.side ∙ a.side;
          added = b.added ∙ ap (λ i. i ++ t) a.added ∙ append_assoc c.sent s t;
        }))

-- A whole frame, with some mask.
abbrev pub SendsFrame : WebSocketConn → ℕ → Bytes → WebSocketConn → Type 0
SendsFrame c op p d = (k : Mask) × Sends c (frame_bytes c.client true op k p []) d

-- The frame of each side, as it is put together.
client_bytes :
    (client : Bool) (op : ℕ) (k : Mask) (p : Bytes)
    → client ≡ true
    → ((128 + op) ∷ (frame_length 128 (length p) ++ mask_bytes k)) ++ apply_mask p (mask_bytes k) 0
      ≡ frame_bytes client true op k p []
client_bytes client op k p e = rw e (
    ap (◌∷◌ (128 + op)) (
      append_assoc (frame_length 128 (length p)) (mask_bytes k) (apply_mask p (mask_bytes k) 0)
      ∙ ap (λ b. frame_length 128 (length p) ++ (mask_bytes k ++ b))
          (sym (append-nil (apply_mask p (mask_bytes k) 0)))))

server_bytes :
    (client : Bool) (op : ℕ) (k : Mask) (p : Bytes)
    → client ≡ false
    → ((128 + op) ∷ frame_length 0 (length p)) ++ p ≡ frame_bytes client true op k p []
server_bytes client op k p e =
    rw e (ap (λ b. (128 + op) ∷ (frame_length 0 (length p) ++ b)) (sym (append-nil p)))

write_masked-Sends :
    (c : WebSocketConn) (op : ℕ) (p e : Bytes)
    → c.client ≡ true
    → OkWith (SendsFrame c op p) (write_masked c op p (take_entropy e))
unfolding write_masked take_entropy
write_masked-Sends c op p [] h = tt
write_masked-Sends c op p (k0 ∷ []) h = tt
write_masked-Sends c op p (k0 ∷ k1 ∷ []) h = tt
write_masked-Sends c op p (k0 ∷ k1 ∷ k2 ∷ []) h = tt
write_masked-Sends c op p (k0 ∷ k1 ∷ k2 ∷ k3 ∷ e) h =
    let k : Mask = record { m0 = k0; m1 = k1; m2 = k2; m3 = k3 } in
    let d : WebSocketConn = record c { entropy = e } in
    let head = (128 + op) ∷ (frame_length 128 (length p) ++ mask_bytes k) in
    let rest = apply_mask p (mask_bytes k) 0 in
    let out = write_full d head >>= λ d. write_full d rest in
    ok-OkWith (SendsFrame c op p) out (λ f x.
      let s = OkWith-ok (Sends d (head ++ rest)) out (pair-Sends d head rest) x in
      (
        k,
        record {
          side = s.side;
          added = s.added ∙ ap (◌++◌ c.sent) (client_bytes c.client op k p h);
        },
      ))

no_mask : Mask
no_mask = record { m0 = 0; m1 = 0; m2 = 0; m3 = 0 }

pub write_frame-SendsFrame :
    (c : WebSocketConn) (op : ℕ) (p : Bytes) → OkWith (SendsFrame c op p) (write_frame c op p)
unfolding write_frame
write_frame-SendsFrame c op p =
    let head = (128 + op) ∷ frame_length 0 (length p) in
    let out = write_full c head >>= λ d. write_full d p in
    choose_OkWith (SendsFrame c op p) (not c.client) out _
      (λ e. ok-OkWith (SendsFrame c op p) out (λ f x.
        let s = OkWith-ok (Sends c (head ++ p)) out (pair-Sends c head p) x in
        let bytes = server_bytes c.client op no_mask p (ground (arith, e)) in
        (no_mask, record { side = s.side; added = s.added ∙ ap (◌++◌ c.sent) bytes })))
      (λ e. write_masked-Sends c op p c.entropy (ground (arith, e)))
