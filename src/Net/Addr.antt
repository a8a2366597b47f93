-- ===== src/Net/Addr.antt =====
-- `netip.Addr` and `netip.Prefix`. An address is its value as a number.
use dproxy.Base.{
  ℕ, ◌+◌, ◌*◌, ◌/◌, ◌%◌, ◌^◌, Bool, true, false, not, ◌&&◌, ◌||◌, [], ◌∷◌, ◌==◌, if◌then◌else◌,
}
use dproxy.Base.Text.{Bytes}

-- `invalid` is the zero `netip.Addr`; `v6` has its zone, empty for none.
pub data Addr : Type 0 where
  invalid : Addr
  v4 : ℕ → Addr
  v6 : ℕ → Bytes → Addr

-- a.b.c.d
abbrev pub quad : ℕ → ℕ → ℕ → ℕ → ℕ
quad a b c d = a * 2 ^ 24 + b * 2 ^ 16 + c * 2 ^ 8 + d

-- The first two groups of an IPv6 address, the others 0.
abbrev pub groups2 : ℕ → ℕ → ℕ
groups2 a b = a * 2 ^ 112 + b * 2 ^ 96

abbrev pub is_valid : Addr → Bool
is_valid invalid = false
is_valid _ = true

unfoldable pub zone : Addr → Bytes
zone (v6 n z) = z
zone _ = []

-- `Unmap`: ::ffff:0:0/96 is IPv4.
unfoldable pub unmap : Addr → Addr
unmap (v6 n z) = if n / 2 ^ 32 == 0xffff then v4 (n % 2 ^ 32) else v6 n z
unmap a = a

unfoldable pub is_unspecified : Addr → Bool
is_unspecified invalid = false
is_unspecified (v4 n) = n == 0
is_unspecified (v6 n []) = n == 0
is_unspecified (v6 n (_ ∷ _)) = false

-- The `Is` methods look through an IPv4-mapped address; `plain` ones do not.
plain_is_loopback : Addr → Bool
plain_is_loopback invalid = false
plain_is_loopback (v4 n) = n / 2 ^ 24 == 127
plain_is_loopback (v6 n z) = n == 1

unfoldable pub is_loopback : Addr → Bool
unfolding plain_is_loopback unmap
is_loopback a = plain_is_loopback (unmap a)

plain_is_private : Addr → Bool
plain_is_private invalid = false
plain_is_private (v4 n) =
    n / 2 ^ 24 == 10 || (n / 2 ^ 20 == 172 * 16 + 1 || n / 2 ^ 16 == 192 * 256 + 168)
plain_is_private (v6 n z) = n / 2 ^ 121 == 0x7e

unfoldable pub is_private : Addr → Bool
unfolding plain_is_private unmap
is_private a = plain_is_private (unmap a)

plain_is_link_local_unicast : Addr → Bool
plain_is_link_local_unicast invalid = false
plain_is_link_local_unicast (v4 n) = n / 2 ^ 16 == 169 * 256 + 254
plain_is_link_local_unicast (v6 n z) = n / 2 ^ 118 == 0x3fa

unfoldable pub is_link_local_unicast : Addr → Bool
unfolding plain_is_link_local_unicast unmap
is_link_local_unicast a = plain_is_link_local_unicast (unmap a)

-- 224.0.0.0/24, and `first group & 0xff0f == 0xff02`
plain_is_link_local_multicast : Addr → Bool
plain_is_link_local_multicast invalid = false
plain_is_link_local_multicast (v4 n) = n / 2 ^ 8 == 224 * 65536
plain_is_link_local_multicast (v6 n z) = n / 2 ^ 120 == 0xff && n / 2 ^ 112 % 16 == 2

unfoldable pub is_link_local_multicast : Addr → Bool
unfolding plain_is_link_local_multicast unmap
is_link_local_multicast a = plain_is_link_local_multicast (unmap a)

plain_is_multicast : Addr → Bool
plain_is_multicast invalid = false
plain_is_multicast (v4 n) = n / 2 ^ 28 == 14
plain_is_multicast (v6 n z) = n / 2 ^ 120 == 0xff

unfoldable pub is_multicast : Addr → Bool
unfolding plain_is_multicast unmap
is_multicast a = plain_is_multicast (unmap a)

plain_is_global_unicast : Addr → Bool
unfolding is_unspecified plain_is_loopback plain_is_multicast plain_is_link_local_unicast
plain_is_global_unicast invalid = false
plain_is_global_unicast (v4 n) =
    not (n == 0)
    && (not (n == quad 255 255 255 255)
        && (not (plain_is_loopback (v4 n))
            && (not (plain_is_multicast (v4 n)) && not (plain_is_link_local_unicast (v4 n)))))
plain_is_global_unicast (v6 n z) =
    not (is_unspecified (v6 n z))
    && (not (plain_is_loopback (v6 n z))
        && (not (plain_is_multicast (v6 n z)) && not (plain_is_link_local_unicast (v6 n z))))

unfoldable pub is_global_unicast : Addr → Bool
unfolding plain_is_global_unicast unmap
is_global_unicast a = plain_is_global_unicast (unmap a)

-- `netip.Prefix`, by the number that its leading bits spell and the count of the bits below.
pub data Prefix : Type 0 where
  prefix4 prefix6 : ℕ → ℕ → Prefix

-- `Contains`: same family, no zone, same leading bits.
unfoldable pub prefix_contains : Prefix → Addr → Bool
prefix_contains (prefix4 base low) (v4 n) = n / 2 ^ low == base / 2 ^ low
prefix_contains (prefix6 base low) (v6 n []) = n / 2 ^ low == base / 2 ^ low
prefix_contains (prefix4 _ _) _ = false
prefix_contains (prefix6 _ _) _ = false
