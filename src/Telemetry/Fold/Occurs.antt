-- ===== src/Telemetry/Fold/Occurs.antt =====
-- `containsFold` of internal/adapters/telemetry/ringbuffer.go against substrings.
use ortus.Common.{
  ℕ, ◌+◌, ◌≤◌, ◌⊎◌, ◌≡◌, ◌↔◌, refl, ap, ap₂, true, [], ◌∷◌, ◌++◌, map, Str, arith, length,
  length-append, length-map, inl, inr, Bool-cases,
}
use ortus.Telemetry.Fold.{fold_byte, match_at, scan, contains_fold}

abbrev IsUpper : ℕ → Type 0
IsUpper a = (b'A' ≤ a) × (a ≤ b'Z')

-- The same byte, or the two cases of one ASCII letter: the capital is 32 below the other.
abbrev pub SameLetter : ℕ → ℕ → Type 0
SameLetter a b = (a ≡ b) ⊎ ((IsUpper a × (b ≡ a + 32)) ⊎ (IsUpper b × (a ≡ b + 32)))

-- Equal up to the case of ASCII letters.
abbrev pub SameText : Str → Str → Type 0
SameText [] [] = Unit
SameText (a ∷ xs) (b ∷ ys) = SameLetter a b × SameText xs ys
SameText _ _ = ⊥

-- `sub` stands in `s`, up to the case of ASCII letters.
abbrev pub Occurs : Str → Str → Type 0
Occurs sub s = (pre mid post : Str) × (s ≡ pre ++ (mid ++ post)) × SameText mid sub

abbrev FoldsTo : Str → Str → Type 0
FoldsTo a b = map fold_byte a ≡ map fold_byte b

abbrev Stands : Str → Str → Type 0
Stands sub s = (pre mid post : Str) × (s ≡ pre ++ (mid ++ post)) × FoldsTo mid sub

fold_byte_iff : (a b : ℕ) → (fold_byte a ≡ fold_byte b) ↔ SameLetter a b
unfolding fold_byte
fold_byte_iff a b = ground arith

FoldsTo-SameText : (a b : Str) → FoldsTo a b → SameText a b
FoldsTo-SameText [] [] e = tt
FoldsTo-SameText [] (b ∷ ys) e = cc
FoldsTo-SameText (a ∷ xs) [] e = cc
FoldsTo-SameText (a ∷ xs) (b ∷ ys) e =
    let tail : map fold_byte xs ≡ map fold_byte ys = cc in
    let head : fold_byte a ≡ fold_byte b = cc in
    ((fold_byte_iff a b).0 head, FoldsTo-SameText xs ys tail)

SameText-FoldsTo : (a b : Str) → SameText a b → FoldsTo a b
SameText-FoldsTo [] [] e = refl
SameText-FoldsTo [] (b ∷ ys) e = elim e [ ]
SameText-FoldsTo (a ∷ xs) [] e = elim e [ ]
SameText-FoldsTo (a ∷ xs) (b ∷ ys) e =
    ap₂ ◌∷◌ ((fold_byte_iff a b).1 e.0) (SameText-FoldsTo xs ys e.1)

match_at_sound :
    (s sub : Str) → match_at s sub ≡ true → (mid post : Str) × (s ≡ mid ++ post) × FoldsTo mid sub
unfolding match_at
match_at_sound s [] h = ([], s, refl, refl)
match_at_sound [] (b ∷ sub) h = cc
match_at_sound (a ∷ s) (b ∷ sub) h =
    let rest = match_at_sound s sub (ground (arith, h)) in
    (a ∷ rest.0, rest.1, ap (◌∷◌ a) rest.2, ap₂ ◌∷◌ (ground (arith, h)) rest.3)

match_at_complete : (mid post sub : Str) → FoldsTo mid sub → match_at (mid ++ post) sub ≡ true
unfolding match_at
match_at_complete [] post [] e = refl
match_at_complete [] post (b ∷ sub) e = cc
match_at_complete (a ∷ mid) post [] e = refl
match_at_complete (a ∷ mid) post (b ∷ sub) e =
    let tail : map fold_byte mid ≡ map fold_byte sub = cc in
    let head : fold_byte a ≡ fold_byte b = cc in
    ground (arith, head, match_at_complete mid post sub tail)

scan_sound : (s sub : Str) → scan s sub ≡ true → Stands sub s
unfolding scan
scan_sound [] sub h = let m = match_at_sound [] sub (ground (arith, h)) in ([], m.0, m.1, m.2, m.3)
scan_sound (a ∷ s) sub h = elim (Bool-cases (match_at (a ∷ s) sub)) [
  | inl e ↦ (let m = match_at_sound (a ∷ s) sub e in ([], m.0, m.1, m.2, m.3))
  | inr e ↦
      (let m = scan_sound s sub (ground (arith, h, e)) in (a ∷ m.0, m.1, m.2, ap (◌∷◌ a) m.3, m.4))
]

length-FoldsTo : (a b : Str) → FoldsTo a b → length a ≡ length b
length-FoldsTo a b e = omega (arith, length-map a fold_byte, length-map b fold_byte, ap length e)

scan_complete : (pre mid post sub : Str) → FoldsTo mid sub → scan (pre ++ (mid ++ post)) sub ≡ true
unfolding scan
scan_complete [] [] [] sub e =
    ground (arith, length-FoldsTo [] sub e, match_at_complete [] [] sub e)
scan_complete [] [] (p ∷ post) sub e =
    ground (arith, length-FoldsTo [] sub e, match_at_complete [] (p ∷ post) sub e)
scan_complete [] (a ∷ mid) post sub e = ground (
  arith,
  length-FoldsTo (a ∷ mid) sub e,
  length-append mid post,
  match_at_complete (a ∷ mid) post sub e,
)
scan_complete (x ∷ pre) mid post sub e = ground (
  arith,
  length-FoldsTo mid sub e,
  length-append pre (mid ++ post),
  length-append mid post,
  scan_complete pre mid post sub e,
)

contains_fold_sound : (s sub : Str) → contains_fold s sub ≡ true → Stands sub s
unfolding contains_fold
contains_fold_sound s [] h = ([], [], s, refl, refl)
contains_fold_sound s (b ∷ sub) h = scan_sound s (b ∷ sub) (ground (arith, h))

contains_fold_complete : (s sub : Str) → Stands sub s → contains_fold s sub ≡ true
unfolding contains_fold
contains_fold_complete s [] o = refl
contains_fold_complete s (b ∷ sub) (pre, mid, post, e, f) = ground (
  arith,
  ap length e,
  ap (λ t. scan t (b ∷ sub)) e,
  length-append pre (mid ++ post),
  length-append mid post,
  length-FoldsTo mid (b ∷ sub) f,
  scan_complete pre mid post (b ∷ sub) f,
)

-- `containsFold` accepts exactly the texts in which the other stands somewhere, up to the case of
-- ASCII letters.
pub contains_fold_iff : (s sub : Str) → (contains_fold s sub ≡ true) ↔ Occurs sub s
contains_fold_iff s sub = (
  λ h.
      let (pre, mid, post, e, f) = contains_fold_sound s sub h in
      (pre, mid, post, e, FoldsTo-SameText mid sub f),
  λ (pre, mid, post, e, f).
      contains_fold_complete s sub (pre, mid, post, e, SameText-FoldsTo mid sub f),
)
