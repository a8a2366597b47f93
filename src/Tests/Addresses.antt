-- ===== src/Tests/Addresses.antt =====
-- The theorems of the address classes at concrete inputs.
use dproxy.Base.{◌≡◌, ◌↔◌, arith}
use dproxy.Net.Addr.{Addr, v4}
use dproxy.Policy.Addresses.{public, classify_address}
use dproxy.Policy.Addresses.Internet.{IsInternet, classify_address_iff}

-- 8.8.8.8
abbrev resolver_address : Addr
resolver_address = v4 0x08080808

classify_address_iff_example :
    (classify_address resolver_address ≡ public) ↔ IsInternet resolver_address
classify_address_iff_example = classify_address_iff resolver_address (omega arith)
