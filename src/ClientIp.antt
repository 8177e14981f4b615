-- ===== src/ClientIp.antt =====
-- The client address behind trusted proxies, as security.py resolves it from the peer and the
-- header X-Forwarded-For. An address is a number of its version; parsing one, parsing a network and
-- printing an address are the parameter `IpLibrary`.
pub mod Spoofing
pub mod Cache
mod Tests
use Prim.Native.Nat.{◌^◌}
use telegram_br.Base.{
  ℕ, zero, suc, ◌+◌, ◌-◌, ◌*◌, ◌/◌, ◌%◌, ◌≤◌, ◌<◌, min, max, ◌≡◌, refl, sym, ap, ◌∙◌, ◌≢◌, ◌↔◌, ◌⊎◌,
  inl, inr, Bool, true, false, not, ◌&&◌, ◌||◌, Option, none, some, List, [], ◌∷◌, ◌++◌, map, arith,
  ltb, leb, ◌==◌, if◌then◌else◌, is_some, Bool-cases, Option-cases, Time, seconds, length,
  get_elem?, take, drop, keep, any, count_by, All, length-append, length-drop, elem, distinct, Dict,
  lookup, insert, erase, insert_last, keep_last, lookup-insert, lookup-insert_self, lookup-erase,
  lookup-insert_last, length-insert-le, length-erase-le, ==_iff, ==_refl, leb_iff, ltb_iff,
  length-keep-le, lookup-append,
}
use telegram_br.Texts.{Text, is_empty, strip, split, before, count_char}

pub data Version : Type 0 where
  v4 v6 : Version

pub record Address : Type 0 where
  pub version : Version
  pub bits : ℕ

pub record Network : Type 0 where
  pub version : Version
  pub base : ℕ
  pub prefix_len : ℕ

-- What is used of the module `ipaddress`; `none` is its `ValueError`.
pub record IpLibrary : Type 0 where
  pub ip_address : Text → Option Address
  pub ip_network : Text → Option Network
  pub str : Address → Text

abbrev width : Version → ℕ
width v4 = 32
width v6 = 128

abbrev same_version : Version → Version → Bool
same_version v4 v4 = true
same_version v4 v6 = false
same_version v6 v4 = false
same_version v6 v6 = true

-- `addr in net`, for one of its version
unfoldable pub contains : Address → Network → Bool
contains addr net =
    let hosts = 2 ^ (width net.version - net.prefix_len) in
    same_version net.version addr.version && (addr.bits / hosts == net.base / hosts)

-- `addr.ipv4_mapped or addr`
abbrev unmap : Version → ℕ → Address
unmap v4 bits = record { version = v4; bits = bits }
unmap v6 bits =
    if bits / 2 ^ 32 == 65535
    then record { version = v4; bits = bits % 2 ^ 32 }
    else record { version = v6; bits = bits }

-- The text between the bracket and the first `]`, if there is one.
in_brackets : Text → Option Text
in_brackets t = if any (λ c. c == 93) t then some (before 93 t) else none

-- The host part of an address with a port, in brackets or without.
abbrev without_port : Text → Option Text
without_port [] = none
without_port (c ∷ t) =
    if c == 91
    then in_brackets t
    else (if count_char 58 (c ∷ t) == 1 && any (λ d. d == 46) (c ∷ t)
        then some (before 58 (c ∷ t))
        else some (c ∷ t))

abbrev show_unmapped : IpLibrary → Option Address → Option Text
show_unmapped lib none = none
show_unmapped lib (some addr) = some (lib.str (unmap addr.version addr.bits))

abbrev parse_host : IpLibrary → Option Text → Option Text
parse_host lib none = none
parse_host lib (some host) = show_unmapped lib (lib.ip_address (before 37 host))

-- `_normalize_ip`
unfoldable pub normalize_ip : IpLibrary → Text → Option Text
unfolding in_brackets
normalize_ip lib raw = parse_host lib (without_port (strip raw))

abbrev in_some : List Network → Option Address → Bool
in_some nets none = false
in_some nets (some addr) = any (contains addr) nets

-- `_ip_in_trusted`
unfoldable pub ip_in_trusted : IpLibrary → List Network → Text → Bool
ip_in_trusted lib nets ip = not (is_empty ip) && in_some nets (lib.ip_address ip)

abbrev or_unknown : Text → Text
or_unknown [] = 117 ∷ 110 ∷ 107 ∷ 110 ∷ 111 ∷ 119 ∷ 110 ∷ []
or_unknown (c ∷ t) = c ∷ t

abbrev text_or_empty : Option Text → Text
text_or_empty none = []
text_or_empty (some t) = t

-- `(str(direct) if direct else "unknown").strip() or "unknown"`
unfoldable pub fallback : Option Text → Text
fallback direct = or_unknown (strip (or_unknown (text_or_empty direct)))

-- The stripped parts that are not empty.
unfoldable pub stripped_parts : List Text → List Text
stripped_parts [] = []
stripped_parts (p ∷ ps) =
    let rest = stripped_parts ps in if is_empty (strip p) then rest else strip p ∷ rest

unfoldable pub hops : Option Text → List Text
hops xff = stripped_parts (split 44 (text_or_empty xff))

unfoldable pub reversed : List Text → List Text
reversed [] = []
reversed (h ∷ hs) = reversed hs ++ h ∷ []

module _ (lib : IpLibrary) (nets : List Network) where
  choose_hop : Text → Option Text → Text → Text
  choose_hop direct_ip none rest = direct_ip
  choose_hop direct_ip (some ip) rest = if ip_in_trusted lib nets ip then rest else ip

  -- The loop over the hops, from the last one.
  unfoldable pub walk : Text → List Text → Text
  unfolding choose_hop
  walk direct_ip [] = direct_ip
  walk direct_ip (h ∷ hs) = choose_hop direct_ip (normalize_ip lib h) (walk direct_ip hs)

  resolve_from : Text → Option Text → Option Text → Text
  resolve_from peer none xff = peer
  resolve_from peer (some direct_ip) xff =
      if ip_in_trusted lib nets direct_ip then walk direct_ip (reversed (hops xff)) else direct_ip

  unfoldable pub resolve_client_ip : Option Text → Option Text → Text
  unfolding resolve_from
  resolve_client_ip direct xff =
      take 64 (resolve_from (fallback direct) (normalize_ip lib (fallback direct)) xff)

abbrev pub add_network : Option Network → List Network → List Network
add_network none nets = nets
add_network (some net) nets = net ∷ nets

abbrev parse_piece : IpLibrary → Text → Option Network
parse_piece lib [] = none
parse_piece lib (c ∷ t) = lib.ip_network (c ∷ t)

abbrev parse_pieces : IpLibrary → List Text → List Network
parse_pieces lib [] = []
parse_pieces lib (p ∷ ps) = add_network (parse_piece lib (strip p)) (parse_pieces lib ps)

unfoldable pub parse_trusted_proxies : IpLibrary → Text → List Network
parse_trusted_proxies lib raw = parse_pieces lib (split 44 raw)

-- "127.0.0.0/8,10.0.0.0/8,172.16.0.0/12,192.168.0.0/16,::1/128,fc00::/7"
abbrev default_trusted_proxies : Text
default_trusted_proxies =
    49 ∷ 50 ∷ 55 ∷ 46 ∷ 48 ∷ 46 ∷ 48 ∷ 46 ∷ 48 ∷ 47 ∷ 56 ∷ 44 ∷ 49 ∷ 48 ∷ 46 ∷ 48 ∷ 46 ∷ 48 ∷ 46
    ∷ 48 ∷ 47 ∷ 56 ∷ 44 ∷ 49 ∷ 55 ∷ 50 ∷ 46 ∷ 49 ∷ 54 ∷ 46 ∷ 48 ∷ 46 ∷ 48 ∷ 47 ∷ 49 ∷ 50 ∷ 44 ∷ 49
    ∷ 57 ∷ 50 ∷ 46 ∷ 49 ∷ 54 ∷ 56 ∷ 46 ∷ 48 ∷ 46 ∷ 48 ∷ 47 ∷ 49 ∷ 54 ∷ 44 ∷ 58 ∷ 58 ∷ 49 ∷ 47 ∷ 49
    ∷ 50 ∷ 56 ∷ 44 ∷ 102 ∷ 99 ∷ 48 ∷ 48 ∷ 58 ∷ 58 ∷ 47 ∷ 55 ∷ []

abbrev or_default : Text → Text
or_default [] = default_trusted_proxies
or_default (c ∷ t) = c ∷ t

-- The cache of the networks: when they were read, and what they were.
pub record ProxyCache : Type 0 where
  pub read_at : Time
  pub networks : List Network

-- `trusted_proxy_networks`, of what the environment holds now
unfoldable pub trusted_proxy_networks :
    IpLibrary → Text → Time → ProxyCache → ProxyCache × List Network
trusted_proxy_networks lib env now c =
    if ltb 0 c.read_at && ltb (now - c.read_at) (seconds 60)
    then (c, c.networks)
    else (let nets = parse_trusted_proxies lib (or_default (strip env)) in
        (record { read_at = now; networks = nets }, nets))
