-- ===== src/ClientIp/Tests.antt =====
-- Concrete headers for the resolution of client addresses, and the witnesses of its theorems. The
-- address library here knows addresses and networks of one character.
use telegram_br.Base.{◌≡◌, refl, true, Option, none, some, List, [], ◌∷◌, any}
use telegram_br.Texts.{Text, lstrip, rstrip, strip, split, before, is_space}
use telegram_br.ClientIp.{
  IpLibrary, Address, Network, v4, normalize_ip, ip_in_trusted, contains, fallback, stripped_parts,
  hops, reversed, walk, resolve_client_ip, trusted_proxy_networks, parse_trusted_proxies,
}
use telegram_br.ClientIp.Spoofing.{resolve_client_ip-spoofed, stops_at}

abbrev address_of : Text → Option Address
address_of [] = none
address_of (c ∷ []) = some (record { version = v4; bits = c })
address_of (c ∷ d ∷ t) = none

abbrev network_of : Text → Option Network
network_of [] = none
network_of (c ∷ t) = some (record { version = v4; base = c; prefix_len = 32 })

abbrev library : IpLibrary
library = record { ip_address = address_of; ip_network = network_of; str = λ a. a.bits ∷ [] }

-- The proxies are "1" and "2".
abbrev proxies : List Network
proxies =
    record { version = v4; base = 49; prefix_len = 32 }
    ∷ record { version = v4; base = 50; prefix_len = 32 }
    ∷ []

program : Unit {0}
unfolding lstrip rstrip strip split before is_space normalize_ip ip_in_trusted contains fallback
    stripped_parts hops reversed walk resolve_client_ip stops_at trusted_proxy_networks
    parse_trusted_proxies
program = tt

-- "9, 7, 2" from the proxy "1" comes from "7".
resolve-header :
    resolve_client_ip library proxies
      (some (49 ∷ []))
      (some (57 ∷ 44 ∷ 32 ∷ 55 ∷ 44 ∷ 32 ∷ 50 ∷ []))
    ≡ 55 ∷ []
unfolding program
resolve-header = refl

stops-outside : any (stops_at library proxies) (hops (some (55 ∷ 44 ∷ 50 ∷ []))) ≡ true
unfolding program
stops-outside = refl

stops-peer : stops_at library proxies (fallback (some (56 ∷ []))) ≡ true
unfolding program
stops-peer = refl

resolve_client_ip-spoofed_example :
    resolve_client_ip library proxies (some (49 ∷ [])) (some (57 ∷ 44 ∷ 55 ∷ 44 ∷ 50 ∷ []))
    ≡ resolve_client_ip library proxies (some (49 ∷ [])) (some (55 ∷ 44 ∷ 50 ∷ []))
resolve_client_ip-spoofed_example =
    resolve_client_ip-spoofed library proxies (some (49 ∷ [])) (57 ∷ []) (55 ∷ 44 ∷ 50 ∷ [])
      stops-outside
