-- ===== src/Http/Cors/Origins.antt =====
-- The origins that internal/adapters/http/cors.go allows.
use mathlib.Core.List.{append-nil, reverse, reverse-append, reverse-reverse}
use mathlib.Core.Option.{some-injective}
use ortus.Common.{
  ℕ, zero, suc, ◌≡◌, ◌≢◌, ◌↔◌, ◌⊎◌, refl, sym, ap, ◌∙◌, subst, Bool, true, false, ◌&&◌, some, List,
  [], ◌∷◌, ◌++◌, Str, bytes, str_eq, str_eq_iff, length, length-append, drop, ltb, ◌==◌, arith, inl,
  inr, Bool-cases, subst₂, tests, get_elem?,
}
use ortus.Common.Sort.{All}
use ortus.Domain.Paths.{has_prefix, has_suffix}
use ortus.Http.Cors.{
  behind_scheme, before_byte, extract_host, match_origin, is_origin_allowed, cors_middleware,
}

abbrev Prefixed : Str → Str → Type 0
Prefixed s p = (t : Str) × (s ≡ p ++ t)

prefix_of : (s p : Str) → has_prefix s p ≡ true → Prefixed s p
unfolding has_prefix
prefix_of s [] h = (s, refl)
prefix_of [] (c ∷ p) h = absurd (cc)
prefix_of (d ∷ s) (c ∷ p) h =
    let (t, e) = prefix_of s p (ground (arith, h)) in (t, ground (arith, h, e))

has_prefix-append : (p t : Str) → has_prefix (p ++ t) p ≡ true
unfolding has_prefix
has_prefix-append [] t = refl
has_prefix-append (c ∷ p) t = ground (arith, has_prefix-append p t)

abbrev Suffixed : Str → Str → Type 0
Suffixed s p = (t : Str) × (s ≡ t ++ p)

suffix_of : (s p : Str) → has_suffix s p ≡ true → Suffixed s p
unfolding has_suffix
suffix_of s p h =
    let (t, e) = prefix_of (reverse s) (reverse p) h in
    (
      reverse t,
      sym (reverse-reverse s)
          ∙ ap reverse e
          ∙ reverse-append (reverse p) t
          ∙ ap (◌++◌ (reverse t)) (reverse-reverse p),
    )

has_suffix-append : (t p : Str) → has_suffix (t ++ p) p ≡ true
unfolding has_suffix
has_suffix-append t p =
    subst (λ s. has_prefix s (reverse p) ≡ true) (sym (reverse-append t p))
      (has_prefix-append (reverse p) (reverse t))

-- No byte `c` stands in the text.
abbrev pub Without : ℕ → Str → Type 0
Without c s = All (λ d. (d == c) ≡ false) s

before_byte_all : (c : ℕ) (s : Str) → Without c s → before_byte c s ≡ s
unfolding before_byte
before_byte_all c [] h = refl
before_byte_all c (d ∷ s) h = ground (arith, h.0, before_byte_all c s h.1)

before_byte-append : (c : ℕ) (s t : Str) → Without c s → before_byte c (s ++ (c ∷ t)) ≡ s
unfolding before_byte
before_byte-append c [] t h = ground arith
before_byte-append c (d ∷ s) t h = ground (arith, h.0, before_byte-append c s t h.1)

behind_scheme-append :
    (scheme t : Str) → Without b':' scheme → behind_scheme (scheme ++ (bytes "://" ++ t)) ≡ some t
unfolding behind_scheme has_prefix
behind_scheme-append [] t h = refl
behind_scheme-append (c ∷ s) t h = ground (arith, h.0, behind_scheme-append s t h.1)

-- An origin as a browser sends it: a scheme, a host and perhaps a port.
pub record IsOrigin (origin host : Str) : Type 0 where
  pub scheme : Str
  pub port : Str
  pub written : origin ≡ scheme ++ (bytes "://" ++ (host ++ port))
  pub scheme_plain : Without b':' scheme
  pub host_plain : Without b':' host
  pub no_slash : Without b'/' host
  pub port_plain : (port ≡ []) ⊎ ((digits : Str) × (port ≡ b':' ∷ digits))

before_port :
    (host port : Str)
    → Without b':' host
    → (port ≡ []) ⊎ ((digits : Str) × (port ≡ b':' ∷ digits))
    → before_byte b':' (host ++ port) ≡ host
before_port host port h (inl e) =
    ap (λ p. before_byte b':' (host ++ p)) e
    ∙ ap (before_byte b':') (append-nil host)
    ∙ before_byte_all b':' host h
before_port host port h (inr (digits, e)) =
    ap (λ p. before_byte b':' (host ++ p)) e ∙ before_byte-append b':' host digits h

extract_host-IsOrigin : (origin host : Str) → IsOrigin origin host → extract_host origin ≡ host
unfolding extract_host
extract_host-IsOrigin origin host o =
    let found =
      ap behind_scheme o.written ∙ behind_scheme-append o.scheme (host ++ o.port) o.scheme_plain in
    rw (found, extract_host)
      (ap (before_byte b'/') (before_port host o.port o.host_plain o.port_plain)
        ∙ before_byte_all b'/' host o.no_slash)

-- A pattern allows the host: `*.` and a domain, of which the host is a proper part.
abbrev pub IsUnder : Str → Str → Type 0
IsUnder pattern host =
    (domain : Str) × (sub : Str) × (pattern ≡ bytes "*." ++ domain)
    × (sub ≢ [])
    × (host ≡ sub ++ (bytes "." ++ domain))

longer : (t p : Str) → ltb (length p) (length (t ++ p)) ≡ true → t ≢ []
longer [] p h = λ e. omega (tests, h)
longer (c ∷ t) p h = λ e. cc

is_longer : (t p : Str) → t ≢ [] → ltb (length p) (length (t ++ p)) ≡ true
is_longer [] p h = absurd (h refl)
is_longer (c ∷ t) p h = omega (tests, length-append t p)

abbrev wildcard : Str → Str → Bool
wildcard pattern host =
    has_prefix pattern (bytes "*.")
    && (has_suffix host (drop 1 pattern) && ltb (length (drop 1 pattern)) (length host))

wildcard-IsUnder : (pattern host : Str) → wildcard pattern host ≡ true → IsUnder pattern host
wildcard-IsUnder pattern host h =
    let (domain, is) = prefix_of pattern (bytes "*.") (ground (arith, h)) in
    let (sub, e) = suffix_of host (drop 1 pattern) (ground (arith, h)) in
    let e' : host ≡ sub ++ (bytes "." ++ domain) = e ∙ ap (λ p. sub ++ drop 1 p) is in
    let long =
      subst₂ (λ p k. ltb (length (drop 1 p)) (length k) ≡ true) is e' (ground (arith, h)) in
    (domain, sub, is, longer sub (bytes "." ++ domain) long, e')

wildcard_of : (pattern host : Str) → IsUnder pattern host → wildcard pattern host ≡ true
wildcard_of pattern host (domain, sub, is, some_sub, e) =
    subst₂ (λ p k. wildcard p k ≡ true) (sym is) (sym e)
      (ground (
        arith,
        has_prefix-append (bytes "*.") domain,
        has_suffix-append sub (bytes "." ++ domain),
        is_longer sub (bytes "." ++ domain) some_sub,
      ))

match_origin_iff :
    (origin pattern : Str)
    → (match_origin origin pattern ≡ true)
      ↔ ((origin ≡ pattern) ⊎ IsUnder pattern (extract_host origin))
unfolding match_origin
match_origin_iff origin pattern = (
  λ h. elim (Bool-cases (str_eq origin pattern)) [
    | inl same ↦ inl ((str_eq_iff origin pattern).0 same)
    | inr other ↦ inr (wildcard-IsUnder pattern (extract_host origin) (ground (arith, h, other)))
  ],
  λ h. elim h [
    | inl same ↦ ground (arith, (str_eq_iff origin pattern).1 same)
    | inr under ↦ ground (arith, wildcard_of pattern (extract_host origin) under)
  ],
)

-- One of the patterns is the origin, or has its host under it.
abbrev pub IsAllowed : List Str → Str → Str → Type 0
IsAllowed patterns origin host =
    (i : ℕ) × (pattern : Str) × (get_elem? patterns i ≡ some pattern)
    × ((origin ≡ pattern) ⊎ IsUnder pattern host)

is_origin_allowed-IsAllowed :
    (patterns : List Str) (origin : Str)
    → is_origin_allowed patterns origin ≡ true
    → IsAllowed patterns origin (extract_host origin)
unfolding is_origin_allowed
is_origin_allowed-IsAllowed [] origin h = absurd (cc)
is_origin_allowed-IsAllowed (pattern ∷ patterns) origin h =
    elim (Bool-cases (match_origin origin pattern)) [
      | inl matched ↦ (zero, pattern, refl, (match_origin_iff origin pattern).0 matched)
      | inr failed ↦
          let (i, found, at, fits) =
            is_origin_allowed-IsAllowed patterns origin (ground (arith, h, failed)) in
          (suc i, found, at, fits)
    ]

is_allowed :
    (patterns : List Str) (origin pattern : Str) (i : ℕ)
    → get_elem? patterns i ≡ some pattern
    → match_origin origin pattern ≡ true
    → is_origin_allowed patterns origin ≡ true
unfolding is_origin_allowed
is_allowed [] origin pattern i at h = absurd (cc)
is_allowed (q ∷ patterns) origin pattern zero at h =
    ground (arith, subst (λ p. match_origin origin p ≡ true) (sym (some-injective q pattern at)) h)
is_allowed (q ∷ patterns) origin pattern (suc i) at h =
    ground (arith, is_allowed patterns origin pattern i at h)

not_empty : (origin host : Str) → IsOrigin origin host → str_eq origin [] ≡ false
unfolding str_eq
not_empty origin host o =
    subst (λ s. str_eq s [] ≡ false) (sym o.written) (written o.scheme (host ++ o.port))
  where
    written : (scheme rest : Str) → str_eq (scheme ++ (bytes "://" ++ rest)) [] ≡ false
    written [] rest = refl
    written (c ∷ s) rest = refl

-- A request with an origin of a scheme, a host and perhaps a port: the response allows it exactly if
-- one of the configured patterns is the whole origin, or is `*.` with a domain of which the host is
-- a proper subdomain.
pub cors_middleware_iff :
    (patterns : List Str) (method origin host : Str)
    → IsOrigin origin host
    → ((cors_middleware patterns method origin).allow_origin ≡ some origin)
      ↔ IsAllowed patterns origin host
unfolding cors_middleware
cors_middleware_iff patterns method origin host o = (
  λ h.
      subst (IsAllowed patterns origin) (extract_host-IsOrigin origin host o)
        (is_origin_allowed-IsAllowed patterns origin (ground (arith, h))),
  λ h.
      let (i, pattern, at, fits) =
        subst (IsAllowed patterns origin) (sym (extract_host-IsOrigin origin host o)) h in
      ground (
        arith,
        not_empty origin host o,
        is_allowed patterns origin pattern i at ((match_origin_iff origin pattern).1 fits),
      ),
)
