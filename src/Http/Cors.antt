-- ===== src/Http/Cors.antt =====
-- internal/adapters/http/cors.go: which origins may read the responses, with what it uses of Go's
-- package strings.
pub mod Origins
use ortus.Common.{
  ℕ, suc, ◌+◌, Bool, true, false, not, ◌&&◌, ◌||◌, Option, none, some, List, [], ◌∷◌, ◌++◌, Str,
  bytes, str_eq, length, drop, ltb, ◌==◌, if◌then◌else◌,
}
use ortus.Domain.Paths.{has_prefix, has_suffix}

-- What stands behind the first `://`, if there is one.
unfoldable pub behind_scheme : Str → Option Str
behind_scheme [] = none
behind_scheme (c ∷ s) =
    if has_prefix (c ∷ s) (bytes "://") then some (drop 2 s) else behind_scheme s

-- What stands before the first byte `c`: all, if there is none.
unfoldable pub before_byte : ℕ → Str → Str
before_byte c [] = []
before_byte c (d ∷ s) = if d == c then [] else d ∷ before_byte c s

unfoldable pub extract_host : Str → Str
extract_host origin =
    let host : Str = elim (behind_scheme origin) [ none ↦ origin | some rest ↦ rest ] in
    before_byte b'/' (before_byte b':' host)

-- `pattern[1:]` is the pattern without its `*`.
unfoldable pub match_origin : Str → Str → Bool
match_origin origin pattern =
    let suffix = drop 1 pattern in
    let host = extract_host origin in
    if str_eq origin pattern
    then true
    else has_prefix pattern (bytes "*.")
      && (has_suffix host suffix && ltb (length suffix) (length host))

unfoldable pub is_origin_allowed : List Str → Str → Bool
is_origin_allowed [] origin = false
is_origin_allowed (pattern ∷ patterns) origin =
    if match_origin origin pattern then true else is_origin_allowed patterns origin

-- What the middleware does with a request: the origin that it allows in the response's headers, if
-- it allows one, and whether the request goes on to the next handler or ends with 204.
pub record CorsOutcome : Type 0 where
  pub allow_origin : Option Str
  pub goes_on : Bool

unfoldable pub cors_middleware : List Str → Str → Str → CorsOutcome
cors_middleware patterns method origin = record {
  allow_origin =
      if not (str_eq origin []) && is_origin_allowed patterns origin then some origin else none;
  goes_on = not (str_eq method (bytes "OPTIONS"));
}
