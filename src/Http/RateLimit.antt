-- ===== src/Http/RateLimit.antt =====
-- The limiter per client address of internal/adapters/http/ratelimit.go. The token bucket is
-- golang.org/x/time/rate: a type `L` with its constructor and its `Allow`, which reads a clock of
-- its own.
use ortus.Common.{
  ◌*◌, ◌≡◌, refl, sym, ap, ◌∙◌, Bool, true, false, none, some, [], ◌∷◌, Str, arith, str_eq,
  str_eq_iff, elem, if◌then◌else◌, if_cases, inl, inr, Bool-cases, Option-cases, subst,
}
use ortus.Common.Maps.{Map, lookup, insert, lookup-insert}
use ortus.Common.Keys.{Distinct, keys, insert-Distinct, lookup_absent}
use ortus.Common.Clock.{Time, sub_time}
use ortus.Common.Int.{ℤ, pos, ltb_ℤ}
use ortus.Common.Float.{Float}

pub record IpBucket (L : Type 0) : Type 0 where
  pub limiter : L
  pub last_seen : Time

pub record IpRateLimiter (L : Type 0) : Type 0 where
  pub buckets : Map (IpBucket L)
  pub rate : Float
  pub burst : ℤ
  pub ttl : ℤ
  pub last_sweep : Time

unfoldable pub new_ip_rate_limiter : {L : Type 0} → Float → ℤ → IpRateLimiter L
new_ip_rate_limiter r burst = record {
  buckets = [];
  rate = r;
  burst = if ltb_ℤ burst (pos 1) then pos 1 else burst;
  ttl = pos (10 * 60 * 1000000000);
  last_sweep = 0;
}

-- `now.Sub(t) > ttl`
unfoldable pub is_older : Time → ℤ → Time → Bool
is_older now ttl t = ltb_ℤ ttl (sub_time now t)

seen_now : (now : Time) (ttl : ℤ) → ltb_ℤ ttl (pos 0) ≡ false → is_older now ttl now ≡ false
unfolding is_older
seen_now now ttl h = ground (arith, h)

module _ {L : Type 0} where
  unfoldable pub sweep : Time → ℤ → Map (IpBucket L) → Map (IpBucket L)
  sweep now ttl [] = []
  sweep now ttl ((k, b) ∷ m) =
      if is_older now ttl b.last_seen then sweep now ttl m else (k, b) ∷ sweep now ttl m

  -- The buckets that a request finds.
  unfoldable pub current_buckets : Time → IpRateLimiter L → Map (IpBucket L)
  current_buckets now l =
      if is_older now l.ttl l.last_sweep then sweep now l.ttl l.buckets else l.buckets

  module _ (new_limiter : Float → ℤ → L) (allow_one : L → Time → Bool × L) where
    -- `allow`, at the time `now` of the limiter and `clock` of the token buckets.
    unfoldable pub allow : Time → Time → Str → IpRateLimiter L → Bool × IpRateLimiter L
    allow now clock ip l =
        let buckets = current_buckets now l in
        let limiter : L = elim (lookup ip buckets) [
          | none ↦ new_limiter l.rate l.burst
          | some b ↦ b.limiter
        ] in
        let (allowed, used) = allow_one limiter clock in
        (
          allowed,
          record l {
            buckets = insert ip (record { limiter = used; last_seen = now }) buckets;
            last_sweep = if is_older now l.ttl l.last_sweep then now else l.last_sweep;
          },
        )

  -- One bucket for each address, each seen within the time to live.
  abbrev pub AllRecent : Time → ℤ → Map (IpBucket L) → Type 0
  AllRecent now ttl m =
      Distinct (keys m)
      × ((k : Str) (b : IpBucket L) → lookup k m ≡ some b → is_older now ttl b.last_seen ≡ false)

  sweep-absent :
      (now : Time) (ttl : ℤ) (k : Str) (m : Map (IpBucket L))
      → elem k (keys m) ≡ false
      → elem k (keys (sweep now ttl m)) ≡ false
  unfolding sweep elem
  sweep-absent now ttl k [] h = refl
  sweep-absent now ttl k ((j, b) ∷ m) h = ground (arith, h, sweep-absent now ttl k m)

  sweep-Distinct :
      (now : Time) (ttl : ℤ) (m : Map (IpBucket L))
      → Distinct (keys m)
      → Distinct (keys (sweep now ttl m))
  unfolding sweep
  sweep-Distinct now ttl [] d = tt
  sweep-Distinct now ttl ((j, b) ∷ m) d = elim (Bool-cases (is_older now ttl b.last_seen)) [
    | inl old ↦ rw (sweep, old) (sweep-Distinct now ttl m d.1)
    | inr new ↦ rw (sweep, new) (sweep-absent now ttl j m d.0, sweep-Distinct now ttl m d.1)
  ]

  lookup-sweep :
      (now : Time) (ttl : ℤ) (k : Str) (m : Map (IpBucket L))
      → Distinct (keys m)
      → lookup k (sweep now ttl m) ≡ elim (lookup k m) [
        | none ↦ none
        | some b ↦ if is_older now ttl b.last_seen then none else some b
      ]
  unfolding sweep lookup
  lookup-sweep now ttl k [] d = refl
  lookup-sweep now ttl k ((j, b) ∷ m) d =
      ground (arith, lookup-sweep now ttl k m d.1, lookup_absent j m d.0, str_eq_iff j k)

  inserted :
      (k j : Str) {x b : IpBucket L} (m : Map (IpBucket L))
      → str_eq k j ≡ true
      → lookup j (insert k x m) ≡ some b
      → x ≡ b
  inserted k j {x = x} m own h = ground (arith, lookup-insert k j x m, own, h)

  swept_recent :
      (now : Time) (ttl : ℤ) (k : Str) (b : IpBucket L) (m : Map (IpBucket L))
      → Distinct (keys m)
      → lookup k (sweep now ttl m) ≡ some b
      → is_older now ttl b.last_seen ≡ false
  swept_recent now ttl k b m d h = elim (Option-cases (lookup k m)) [
    | inl absent ↦ absurd (ground (arith, lookup-sweep now ttl k m d, absent, h))
    | inr (c, found) ↦ elim (Bool-cases (is_older now ttl c.last_seen)) [
      | inl old ↦ absurd (ground (arith, lookup-sweep now ttl k m d, found, old, h))
      | inr new ↦ ground (arith, lookup-sweep now ttl k m d, found, new, h)
    ]
  ]

  current_buckets-Distinct :
      (now : Time) (l : IpRateLimiter L)
      → Distinct (keys l.buckets)
      → Distinct (keys (current_buckets now l))
  unfolding current_buckets
  current_buckets-Distinct now l d =
      if_cases (λ (m : Map (IpBucket L)). Distinct (keys m)) (is_older now l.ttl l.last_sweep)
        (λ due. sweep-Distinct now l.ttl l.buckets d) (λ early. d)

  lookup-current_buckets :
      (now : Time) (k : Str) (b : IpBucket L) (l : IpRateLimiter L)
      → Distinct (keys l.buckets)
      → (lookup k l.buckets ≡ some b
          → is_older now l.ttl b.last_seen ≡ false
          → lookup k (current_buckets now l) ≡ some b)
        × (lookup k (current_buckets now l) ≡ some b
            → is_older now l.ttl l.last_sweep ≡ true
            → is_older now l.ttl b.last_seen ≡ false)
  unfolding current_buckets
  lookup-current_buckets now k b l d =
      let swept = lookup-sweep now l.ttl k l.buckets d in
      (
        λ h recent.
            if_cases (λ (m : Map (IpBucket L)). lookup k m ≡ some b)
              (is_older now l.ttl l.last_sweep) (λ due. swept ∙ rw h (rw recent refl)) (λ early. h),
        λ h due. swept_recent now l.ttl k b l.buckets d (
            subst (λ c. lookup k (if c then sweep now l.ttl l.buckets else l.buckets) ≡ some b) due
              h),
      )

  module _ (new_limiter : Float → ℤ → L) (allow_one : L → Time → Bool × L) where
    -- With one bucket for each address, a request leaves every other client that was seen within the
    -- time to live with its bucket, whether the sweep is due or not.
    pub allow_keeps_recent :
        (now clock : Time) (ip k : Str) (b : IpBucket L) (l : IpRateLimiter L)
        → Distinct (keys l.buckets)
        → str_eq ip k ≡ false
        → lookup k l.buckets ≡ some b
        → is_older now l.ttl b.last_seen ≡ false
        → lookup k (allow new_limiter allow_one now clock ip l).1.buckets ≡ some b
    unfolding allow
    allow_keeps_recent now clock ip k b l d other h recent =
        lookup-insert ip k _ (current_buckets now l)
        ∙ rw other ((lookup-current_buckets now k b l d).0 h recent)

    -- With one bucket for each address and a time to live that is not negative, a request at which
    -- the sweep is due leaves no bucket that was not seen within the time to live, and still one for
    -- each address.
    pub allow_drops_idle :
        (now clock : Time) (ip : Str) (l : IpRateLimiter L)
        → Distinct (keys l.buckets)
        → ltb_ℤ l.ttl (pos 0) ≡ false
        → is_older now l.ttl l.last_sweep ≡ true
        → AllRecent now l.ttl (allow new_limiter allow_one now clock ip l).1.buckets
    unfolding allow
    allow_drops_idle now clock ip l d ttl due =
        let current = current_buckets now l in
        (
          insert-Distinct ip _ current (current_buckets-Distinct now l d),
          λ k b h. elim (Bool-cases (str_eq ip k)) [
            | inl own ↦
                let same = ap (λ (c : IpBucket L). c.last_seen) (inserted ip k current own h) in
                subst (λ t. is_older now l.ttl t ≡ false) same (seen_now now l.ttl ttl)
            | inr other ↦
                (lookup-current_buckets now k b l d).1
                  (sym (lookup-insert ip k _ current ∙ rw other refl) ∙ h) due
          ],
        )
