-- ===== src/Domain/Stems.antt =====
-- `DeriveSourceID` of internal/domain/sourceid.go gives the name of a file without its extension.
use mathlib.Core.List.{reverse, reverse-cons, reverse-append, reverse-reverse}
use ortus.Common.{
  ℕ, suc, ◌+◌, ◌-◌, ◌≡◌, ◌≢◌, refl, sym, subst, ap, ◌∙◌, false, some, [], ◌∷◌, ◌++◌, arith, Str,
  str_eq, length, length-append, take, ◌==◌, if◌then◌else◌, if_cases, ◌||◌,
}
use ortus.Common.Sort.{All, All-append}
use ortus.Domain.Paths.{
  slash, dot, last_element, strip_slashes, base_name, find_dot, ext_length, derive_source_id,
}

-- The byte does not stand in the text.
abbrev pub Lacks : ℕ → Str → Type 0
Lacks b s = All (λ c. (c == b) ≡ false) s

All-reverse : (P : ℕ → Type 0) (s : Str) → All P s → All P (reverse s)
All-reverse P [] h = tt
All-reverse P (c ∷ s) h =
    subst (All P) (sym (reverse-cons c s))
      (All-append P (reverse s) (c ∷ []) (All-reverse P s h.1) (h.0, tt))

length-reverse : (s : Str) → length (reverse s) ≡ length s
length-reverse [] = refl
length-reverse (c ∷ s) =
    ap length (reverse-cons c s)
    ∙ length-append (reverse s) (c ∷ [])
    ∙ ground (arith, length-reverse s)

last_element-append : (s t : Str) → Lacks slash s → last_element (s ++ (slash ∷ t)) ≡ s
unfolding last_element
last_element-append [] t h = refl
last_element-append (c ∷ s) t h =
    rw (last_element, h.0) (ap (λ u. c ∷ u) (last_element-append s t h.1))

strip_slashes-append : (s t : Str) → s ≢ [] → Lacks slash s → strip_slashes (s ++ t) ≡ s ++ t
unfolding strip_slashes
strip_slashes-append [] t ne h = absurd (ne refl)
strip_slashes-append (c ∷ s) t ne h = rw (strip_slashes, h.0) refl

find_dot-append :
    (s t : Str) → Lacks slash s → Lacks b'.' s → find_dot (s ++ (b'.' ∷ t)) ≡ some (suc (length s))
unfolding find_dot
find_dot-append [] t h k = refl
find_dot-append (c ∷ s) t h k = rw (find_dot, h.0) (rw k.0 (rw (find_dot-append s t h.1 k.1) refl))

take_all : (s t : Str) → take (length s) (s ++ t) ≡ s
take_all [] t = ground arith
take_all (c ∷ s) t = ap (λ u. c ∷ u) (take_all s t)

snoc-append : (s t : Str) (c : ℕ) → (s ++ (c ∷ [])) ++ t ≡ s ++ (c ∷ t)
snoc-append [] t c = refl
snoc-append (d ∷ s) t c = ap (λ u. d ∷ u) (snoc-append s t c)

reverse-around : (s t : Str) (c : ℕ) → reverse (s ++ (c ∷ t)) ≡ reverse t ++ (c ∷ reverse s)
reverse-around s t c =
    reverse-append s (c ∷ t)
    ∙ ap (λ u. u ++ reverse s) (reverse-cons c t)
    ∙ snoc-append (reverse t) (reverse s) c

-- What `base_name` does behind its test for the empty path.
last_part :
    (dir name : Str)
    → name ≢ []
    → Lacks slash name
    → reverse (last_element (strip_slashes (reverse (dir ++ (slash ∷ name))))) ≡ name
last_part dir name ne h =
    let lacks = All-reverse (λ c. (c == slash) ≡ false) name h in
    ap (λ u. reverse (last_element (strip_slashes u))) (reverse-around dir name slash)
    ∙ ap (λ u. reverse (last_element u))
        (strip_slashes-append (reverse name) (slash ∷ reverse dir)
          (λ e. ne (sym (reverse-reverse name) ∙ ap reverse e)) lacks)
    ∙ ap reverse (last_element-append (reverse name) (reverse dir) lacks)
    ∙ reverse-reverse name

base_name-file :
    (dir : Str) (c : ℕ) (s : Str) → Lacks slash (c ∷ s) → base_name (dir ++ (slash ∷ c ∷ s)) ≡ c ∷ s
unfolding base_name
base_name-file [] c s h = rw (base_name, last_part [] (c ∷ s) (λ e. cc) h) refl
base_name-file (d ∷ dir) c s h = rw (base_name, last_part (d ∷ dir) (c ∷ s) (λ e. cc) h) refl

ext_length-file :
    (stem ext : Str)
    → Lacks slash ext
    → Lacks b'.' ext
    → ext_length (stem ++ (b'.' ∷ ext)) ≡ suc (length ext)
unfolding ext_length
ext_length-file stem ext h k =
    let found : find_dot (reverse (stem ++ (b'.' ∷ ext))) ≡ some (suc (length ext)) =
      ap find_dot (reverse-around stem ext b'.')
      ∙ find_dot-append (reverse ext) (reverse stem) (All-reverse (λ c. (c == slash) ≡ false) ext h)
          (All-reverse (λ c. (c == b'.') ≡ false) ext k)
      ∙ ap (λ n. some (suc n)) (length-reverse ext) in
    rw (ext_length, found) refl

not_dot : (c : ℕ) (s ext : Str) → str_eq (c ∷ s ++ (b'.' ∷ ext)) dot ≡ false
unfolding str_eq
not_dot c [] ext = ground arith
not_dot c (d ∷ s) ext = ground arith

-- What `derive_source_id` does with the base name and the length of its extension.
cut :
    (c : ℕ) (s ext : Str)
    → (let base = c ∷ s ++ (b'.' ∷ ext) in
        let n = suc (length ext) in
        if str_eq base [] || str_eq base dot
        then []
        else if n == 0 || length base == n
        then base
        else take (length base - n) base)
      ≡ c ∷ s
unfolding str_eq
cut c s ext =
    let size : length (s ++ (b'.' ∷ ext)) ≡ length s + suc (length ext) =
      length-append s (b'.' ∷ ext) in
    let rest : suc (length (s ++ (b'.' ∷ ext))) - suc (length ext) ≡ suc (length s) =
      omega (arith, size) in
    rw (not_dot c s ext) (
      if_cases (λ u. u ≡ c ∷ s)
        (suc (length ext) == 0 || suc (length (s ++ (b'.' ∷ ext))) == suc (length ext))
        (λ same. absurd (ground (arith, size, same)))
        (λ longer. rw rest (take_all (c ∷ s) (b'.' ∷ ext))))

-- The id of a file `dir/stem.ext` is its stem, whatever the directory and the extension, if the stem
-- is not empty and has no slash, and the extension has no slash and no dot.
pub derive_source_id-file :
    (dir : Str) (c : ℕ) (s ext : Str)
    → Lacks slash (c ∷ s)
    → Lacks slash ext
    → Lacks b'.' ext
    → derive_source_id (dir ++ (slash ∷ c ∷ s ++ (b'.' ∷ ext))) ≡ c ∷ s
unfolding derive_source_id
derive_source_id-file dir c s ext h k l =
    let base : base_name (dir ++ (slash ∷ c ∷ s ++ (b'.' ∷ ext))) ≡ c ∷ s ++ (b'.' ∷ ext) =
      base_name-file dir c (s ++ (b'.' ∷ ext))
        (All-append (λ d. (d == slash) ≡ false) (c ∷ s) (b'.' ∷ ext) h (refl, k)) in
    rw (derive_source_id, base) (rw (ext_length-file (c ∷ s) ext k l) (cut c s ext))
