-- ===== src/ClientIp/Cache.antt =====
-- The cache of the trusted networks (security.py).
use telegram_br.Base.{◌-◌, ◌<◌, ◌≡◌, [], arith, ltb, if◌then◌else◌, Time, seconds}
use telegram_br.Texts.{Text}
use telegram_br.ClientIp.{IpLibrary, ProxyCache, trusted_proxy_networks}

abbrev pub empty_cache : ProxyCache
empty_cache = record { read_at = 0; networks = [] }

-- After the networks were read, at a time that is not zero, a change of the environment is not seen
-- within a minute, and is seen by the first call from then on, as by a call with no cache.
pub trusted_proxy_networks_again :
    (lib : IpLibrary) (env changed : Text) (now later : Time)
    → 0 < now
    → (trusted_proxy_networks lib changed later
        (trusted_proxy_networks lib env now empty_cache).0).1
      ≡ (if ltb (later - now) (seconds 60)
          then (trusted_proxy_networks lib env now empty_cache).1
          else (trusted_proxy_networks lib changed later empty_cache).1)
unfolding trusted_proxy_networks
trusted_proxy_networks_again lib env changed now later started = ground arith
