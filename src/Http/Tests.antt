-- ===== src/Http/Tests.antt =====
-- Concrete requests: a token bucket of one token that is never refilled, and addresses that are
-- texts, one of which is the trusted proxy.
use ortus.Common.{
  ℕ, ◌-◌, ◌*◌, ◌≡◌, refl, Bool, Option, none, some, [], ◌∷◌, Str, bytes, str_eq, elem, ltb,
}
use ortus.Common.Maps.{lookup}
use ortus.Common.Clock.{Time}
use ortus.Common.Float.{Float}
use ortus.Common.Int.{ℤ, pos}
use ortus.Http.RateLimit.{IpRateLimiter, new_ip_rate_limiter, is_older, allow, allow_keeps_recent}
use ortus.Http.ClientIp.{
  host_of, split_commas, trim_left, trim_space, ip_in_any, is_untrusted, right_most,
  peer_is_trusted, client_ip,
}

abbrev one_token : Float → ℤ → ℕ
one_token r burst = 1

abbrev take_token : ℕ → Time → Bool × ℕ
take_token n clock = (ltb 0 n, n - 1)

-- Two clients, one of which was seen 700 seconds ago.
abbrev two_clients : IpRateLimiter ℕ
two_clients = record (new_ip_rate_limiter 0 (pos 5)) {
  buckets =
      (bytes "1.2.3.4", record { limiter = 1; last_seen = 300 * 1000000000 })
      ∷ (bytes "5.6.7.8", record { limiter = 1; last_seen = 900 * 1000000000 })
      ∷ [];
}

abbrev later : Time
later = 1000 * 1000000000

allow_keeps_recent_example :
    lookup
      (bytes "5.6.7.8")
      (allow one_token take_token later 0 (bytes "9.9.9.9") two_clients).1.buckets
    ≡ some (record { limiter = 1; last_seen = 900 * 1000000000 })
unfolding new_ip_rate_limiter str_eq elem lookup is_older
allow_keeps_recent_example =
    allow_keeps_recent one_token take_token later 0 (bytes "9.9.9.9") (bytes "5.6.7.8") _
      two_clients (refl, (refl, tt)) refl refl refl

abbrev as_text : Str → Option Str
as_text [] = none
as_text (c ∷ s) = some (c ∷ s)

abbrev client : Str → Str
client header = client_ip as_text str_eq some (bytes "10.0.0.1") header (bytes "10.0.0.1" ∷ [])

client_runs : client (bytes "6.6.6.6, 1.2.3.4 ,10.0.0.1") ≡ bytes "1.2.3.4"
unfolding client_ip peer_is_trusted right_most is_untrusted ip_in_any trim_space trim_left
    split_commas str_eq host_of
client_runs = refl
