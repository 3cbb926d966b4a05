-- ===== src/Domain/Paths.antt =====
-- internal/domain/sourceid.go and `safeLocalPath` of internal/application/registry.go, with what
-- they use of Go's `path/filepath` (on Unix) and `strings`.
use mathlib.Core.List.{reverse}
use ortus.Common.{
  ℕ, suc, ◌+◌, ◌-◌, Bool, true, false, not, ◌&&◌, ◌||◌, Option, none, some, List, [], ◌∷◌, ◌++◌,
  map, Str, bytes, str_eq, length, take, leb, ◌==◌, if◌then◌else◌,
}
use ortus.Domain.Errors.{Result, ok, err, escapes_cache_dir}

abbrev pub slash : ℕ
slash = b'/'

-- `strings.Split(s, "/")`, the first part and the others.
unfoldable pub split : Str → Str × List Str
split [] = ([], [])
split (c ∷ s) =
    let (first, others) = split s in
    if c == slash then ([], first ∷ others) else (c ∷ first, others)

abbrev pub parts : Str → List Str
parts s = let (first, others) = split s in first ∷ others

-- `strings.Join(elems, "/")`
unfoldable pub join_parts : List Str → Str
join_parts [] = []
join_parts (p ∷ []) = p
join_parts (p ∷ q ∷ ps) = p ++ (slash ∷ join_parts (q ∷ ps))

abbrev pub dot : Str
dot = bytes "."

abbrev pub dotdot : Str
dotdot = bytes ".."

-- One element of the path, on the elements kept so far, the last one first.
unfoldable pub push_part : Bool → Str → List Str → List Str
push_part rooted p [] =
    if str_eq p [] || str_eq p dot
    then []
    else if str_eq p dotdot
    then (if rooted then [] else dotdot ∷ [])
    else p ∷ []
push_part rooted p (top ∷ kept) =
    if str_eq p [] || str_eq p dot
    then top ∷ kept
    else if str_eq p dotdot
    then (if str_eq top dotdot then dotdot ∷ top ∷ kept else kept)
    else p ∷ top ∷ kept

unfoldable pub push_parts : Bool → List Str → List Str → List Str
push_parts rooted [] kept = kept
push_parts rooted (p ∷ ps) kept = push_parts rooted ps (push_part rooted p kept)

-- `filepath.IsAbs`
unfoldable pub is_abs : Str → Bool
is_abs [] = false
is_abs (c ∷ s) = c == slash

-- What `Clean` writes for the elements that are left.
unfoldable pub render : Bool → List Str → Str
render true ps = slash ∷ join_parts ps
render false [] = dot
render false (p ∷ ps) = join_parts (p ∷ ps)

-- `filepath.Clean`
unfoldable pub clean : Str → Str
clean s = render (is_abs s) (reverse (push_parts (is_abs s) (parts s) []))

-- `filepath.Join(a, b)`: empty elements are ignored.
unfoldable pub join : Str → Str → Str
join [] [] = []
join [] (c ∷ b) = clean (c ∷ b)
join (c ∷ a) [] = clean (c ∷ a)
join (c ∷ a) (d ∷ b) = clean ((c ∷ a) ++ (slash ∷ d ∷ b))

-- `strings.HasPrefix(s, p)`
unfoldable pub has_prefix : Str → Str → Bool
has_prefix s [] = true
has_prefix [] (c ∷ p) = false
has_prefix (d ∷ s) (c ∷ p) = if d == c then has_prefix s p else false

unfoldable pub safe_local_path : Str → Str → Result Str
safe_local_path local key =
    let cleaned = clean key in
    let joined = join local cleaned in
    let base = clean local in
    if is_abs cleaned || (str_eq cleaned dotdot || has_prefix cleaned (bytes "../"))
    then err escapes_cache_dir
    else if not (str_eq joined base) && not (has_prefix joined (base ++ (slash ∷ [])))
    then err escapes_cache_dir
    else ok joined

-- The bytes behind the last slash, over the reversed text.
unfoldable pub last_element : Str → Str
last_element [] = []
last_element (c ∷ s) = if c == slash then [] else c ∷ last_element s

unfoldable pub strip_slashes : Str → Str
strip_slashes [] = []
strip_slashes (c ∷ s) = if c == slash then strip_slashes s else c ∷ s

-- `filepath.Base`
unfoldable pub base_name : Str → Str
unfolding last_element strip_slashes
base_name [] = dot
base_name (c ∷ s) = elim (reverse (last_element (strip_slashes (reverse (c ∷ s))))) [
  | [] ↦ slash ∷ []
  | d ∷ b ↦ d ∷ b
]

-- The extension, over the reversed text: the bytes up to the last dot, if there is one before the
-- last slash.
unfoldable pub find_dot : Str → Option ℕ
find_dot [] = none
find_dot (c ∷ s) =
    if c == slash
    then none
    else if c == b'.'
    then some 1
    else elim (find_dot s) [ none ↦ none | some n ↦ some (suc n) ]

-- `len(filepath.Ext(path))`
unfoldable pub ext_length : Str → ℕ
unfolding find_dot
ext_length s = elim (find_dot (reverse s)) [ none ↦ 0 | some n ↦ n ]

-- `strings.TrimSuffix(base, ext)` cuts the last bytes, since `ext` is a suffix of `base`.
unfoldable pub derive_source_id : Str → Str
derive_source_id path =
    let base = base_name path in
    let ext = ext_length base in
    if str_eq base [] || str_eq base dot
    then []
    else if ext == 0 || length base == ext
    then base
    else take (length base - ext) base

-- `strings.HasSuffix(s, p)`
unfoldable pub has_suffix : Str → Str → Bool
unfolding has_prefix
has_suffix s p = has_prefix (reverse s) (reverse p)

-- `strings.ToLower` on ASCII letters; other bytes stay.
unfoldable pub lower_byte : ℕ → ℕ
lower_byte c = if leb b'A' c && leb c b'Z' then c + 32 else c

abbrev pub supported_source_extensions : List Str
supported_source_extensions = bytes ".gpkg" ∷ bytes ".zip" ∷ []

has_any_suffix : Str → List Str → Bool
has_any_suffix s [] = false
has_any_suffix s (ext ∷ exts) = if has_suffix s ext then true else has_any_suffix s exts

unfoldable pub is_supported_source_file : Str → Bool
unfolding has_any_suffix
is_supported_source_file name = has_any_suffix (map lower_byte name) supported_source_extensions
