-- ===== src/Tests/Net.antt =====
-- Runs of the address parsers.
use dproxy.Base.{◌+◌, ◌*◌, ◌^◌, ◌≡◌, refl, none, some, []}
use dproxy.Base.Text.{codes}
use dproxy.Net.Addr.{v4, v6}
use dproxy.Net.ParseAddr.{parse_addr}
use dproxy.Net.HostPort.{split_host_port}

parses :
    (parse_addr (codes "192.0.2.7") ≡ some (v4 0xc0000207))
    × (parse_addr (codes "::1") ≡ some (v6 1 []))
    × (parse_addr (codes "2001:db8::a:1%eth0")
        ≡ some (v6 (0x20010db8 * 2 ^ 96 + 0xa0001) (codes "eth0")))
    × (parse_addr (codes "::ffff:127.0.0.1") ≡ some (v6 0xffff7f000001 []))
    × (parse_addr (codes "01.2.3.4") ≡ none)
    × (parse_addr (codes "1:2:3:4:5:6:7:8::") ≡ none)
    × (parse_addr (codes "api.example.com") ≡ none)
unfolding parse_addr
parses = (refl, refl, refl, refl, refl, refl, refl)

splits :
    (split_host_port (codes "a.b:443") ≡ some (codes "a.b", codes "443"))
    × (split_host_port (codes "[::1]:443") ≡ some (codes "::1", codes "443"))
    × (split_host_port (codes "a:b:443") ≡ none)
    × (split_host_port (codes "[a]b:443") ≡ none)
    × (split_host_port (codes "a.b") ≡ none)
unfolding split_host_port
splits = (refl, refl, refl, refl, refl)
