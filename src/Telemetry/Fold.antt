-- ===== src/Telemetry/Fold.antt =====
-- `containsFold` of internal/adapters/telemetry/ringbuffer.go: an ASCII case-insensitive
-- substring test, its two loops over byte indices as recursions over the rest of each text.
pub mod Occurs
use ortus.Common.{
  ℕ, ◌+◌, ◌-◌, Bool, true, false, ◌&&◌, [], ◌∷◌, Str, ltb, leb, ◌==◌, if◌then◌else◌, length,
}

-- `if a >= 'A' && a <= 'Z' { a += 'a' - 'A' }`
unfoldable pub fold_byte : ℕ → ℕ
fold_byte a = if leb b'A' a && leb a b'Z' then a + (b'a' - b'A') else a

-- The inner loop at one position: every byte of `sub` against the bytes of `s` from there.
unfoldable pub match_at : Str → Str → Bool
match_at s [] = true
match_at [] (b ∷ sub) = false
match_at (a ∷ s) (b ∷ sub) = if fold_byte a == fold_byte b then match_at s sub else false

-- The outer loop: while `i + len(sub) <= len(s)`. The list is what is left of `s` from `i`.
unfoldable pub scan : Str → Str → Bool
scan [] sub = if leb (length sub) 0 then match_at [] sub else false
scan (a ∷ s) sub =
    let rest = scan s sub in
    if leb (length sub) (length (a ∷ s))
    then (if match_at (a ∷ s) sub then true else rest)
    else false

unfoldable pub contains_fold : Str → Str → Bool
unfolding scan
contains_fold s [] = true
contains_fold s (b ∷ sub) = if ltb (length s) (length (b ∷ sub)) then false else scan s (b ∷ sub)
