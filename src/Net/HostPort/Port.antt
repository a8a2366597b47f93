-- ===== src/Net/HostPort/Port.antt =====
-- Splitting a name that has a port behind it.
use dproxy.Base.{ℕ, ◌≡◌, refl, Bool, true, not, ◌&&◌, some, [], ◌∷◌, ◌++◌, arith, ◌==◌, all}
use dproxy.Base.Text.{Bytes, codes}
use dproxy.Base.Predicates.{contains-all}
use dproxy.Net.HostPort.{cut_last, split_front, split_plain, split_host_port}

-- No byte that `SplitHostPort` treats apart.
abbrev pub is_inner : ℕ → Bool
is_inner c = not (c == b':') && (not (c == b'[') && not (c == b']'))

cut_last-colon : (h : Bytes) → cut_last b':' (h ++ codes ":443") ≡ some (h, codes "443")
unfolding cut_last
cut_last-colon [] = refl
cut_last-colon (c ∷ h) = rw (cut_last-colon h)

split_front-inner :
    (h : Bytes) → all is_inner h ≡ true → split_front h (codes "443") ≡ some (h, codes "443")
unfolding split_front split_plain
split_front-inner [] p = refl
split_front-inner (c ∷ h) p = ground (
  arith,
  contains-all is_inner b':' refl (c ∷ h) p,
  contains-all is_inner b'[' refl (c ∷ h) p,
  contains-all is_inner b']' refl (c ∷ h) p,
)

-- A name without colons and brackets is split off its port.
pub split_host_port-port :
    (h : Bytes)
    → all is_inner h ≡ true
    → split_host_port (h ++ codes ":443") ≡ some (h, codes "443")
unfolding split_host_port
split_host_port-port h p = rw (cut_last-colon h, split_host_port) (split_front-inner h p)
