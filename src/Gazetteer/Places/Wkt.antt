-- ===== src/Gazetteer/Places/Wkt.antt =====
-- The text of a coordinate, `Coordinate.String` of internal/domain/coordinate.go, read back by
-- `parsePointWKT` of internal/application/gazetteer/bearing.go.
use ortus.Common.{
  ℕ, ◌≡◌, ◌≢◌, refl, ◌∙◌, ap, Bool, true, not, ◌&&◌, none, some, List, [], ◌∷◌, ◌++◌, Str, bytes,
  arith, ◌==◌, if◌then◌else◌, if_cases,
}
use ortus.Common.Sort.{All}
use ortus.Common.Int.{ℤ}
use ortus.Common.Float.{Float, float_eq, f_zero}
use ortus.Domain.Types.{Coordinate}
use ortus.Gazetteer.Compass.{Arithmetic}
use ortus.Gazetteer.Places.{
  cut_at, is_blank, put_word, words, fields, coordinate_of, wgs84_coordinate, parse_point_wkt,
}

-- `%f` and `%d` are those of Go's package fmt.
module _ (format_float : Float → Str) (format_int : ℤ → Str) where
  abbrev pub srid_text : Coordinate → Str
  srid_text c = bytes ") SRID=" ++ format_int c.srid

  abbrev pub space_float : Float → Str → Str
  space_float x s = bytes " " ++ (format_float x ++ s)

  -- `Coordinate.String`
  unfoldable pub coordinate_text : Coordinate → Str
  coordinate_text c =
      if not (float_eq c.z f_zero)
      then bytes "POINT Z(" ++ (format_float c.x ++ space_float c.y (space_float c.z (srid_text c)))
      else bytes "POINT(" ++ (format_float c.x ++ space_float c.y (srid_text c))

-- A number as it is printed: a word without a parenthesis.
abbrev pub is_inner : ℕ → Bool
is_inner c = not (c == b')') && not (is_blank c)

abbrev pub IsPrinted : Str → Type 0
IsPrinted s = (s ≢ []) × All (λ c. is_inner c ≡ true) s

cut_at-append :
    (w s before behind : Str)
    → All (λ c. is_inner c ≡ true) w
    → cut_at b')' s ≡ some (before, behind)
    → cut_at b')' (w ++ s) ≡ some (w ++ before, behind)
unfolding cut_at
cut_at-append [] s before behind h e = e
cut_at-append (c ∷ w) s before behind h e =
    ground (arith, h.0, cut_at-append w s before behind h.1 e)

-- A number, and a blank behind it.
cut_at-next :
    (w s before behind : Str)
    → All (λ c. is_inner c ≡ true) w
    → cut_at b')' s ≡ some (before, behind)
    → cut_at b')' (w ++ (b' ' ∷ s)) ≡ some (w ++ (b' ' ∷ before), behind)
unfolding cut_at
cut_at-next w s before behind h e =
    cut_at-append w (b' ' ∷ s) (b' ' ∷ before) behind h (ground (arith, e))

words-append :
    (w s : Str)
    → All (λ c. is_inner c ≡ true) w
    → words (w ++ (b' ' ∷ s)) ≡ (w, put_word (words s).0 (words s).1)
unfolding words
words-append [] s h = refl
words-append (c ∷ w) s h = ground (arith, h.0, words-append w s h.1)

words_all : (w : Str) → All (λ c. is_inner c ≡ true) w → words w ≡ (w, [])
unfolding words
words_all [] h = refl
words_all (c ∷ w) h = ground (arith, h.0, words_all w h.1)

put_word_nonempty : (w : Str) (ws : List Str) → w ≢ [] → put_word w ws ≡ w ∷ ws
put_word_nonempty [] ws h = absurd (h refl)
put_word_nonempty (c ∷ w) ws h = refl

fields_all : (w : Str) → IsPrinted w → fields w ≡ w ∷ []
fields_all w h =
    ap (λ (q : Str × List Str). put_word q.0 q.1) (words_all w h.1) ∙ put_word_nonempty w [] h.0

fields-append : (w s : Str) → IsPrinted w → fields (w ++ (b' ' ∷ s)) ≡ w ∷ fields s
fields-append w s h =
    ap (λ (q : Str × List Str). put_word q.0 q.1) (words-append w s h.1)
    ∙ put_word_nonempty w (fields s) h.0

-- What `parsePointWKT` does behind the first parenthesis.
parse_inner :
    (a : Arithmetic) (head inner behind rest : Str)
    → cut_at b'(' (head ++ (b'(' ∷ rest)) ≡ some (head, rest)
    → cut_at b')' head ≡ none
    → cut_at b')' rest ≡ some (inner, behind)
    → parse_point_wkt a (head ++ (b'(' ∷ rest)) ≡ coordinate_of a (fields inner)
unfolding parse_point_wkt
parse_inner a head inner behind rest h k e = rw (h, parse_point_wkt) (rw k (rw e refl))

read_two :
    (a : Arithmetic) (x y : Str) (rest : List Str) {lon lat : Float}
    → a.parse_float x ≡ some lon
    → a.parse_float y ≡ some lat
    → coordinate_of a (x ∷ y ∷ rest) ≡ some (wgs84_coordinate lon lat)
unfolding coordinate_of
read_two a x y rest h k = rw (h, coordinate_of) (rw k refl)

-- The last number before the closing parenthesis.
cut_at-last :
    (w behind : Str)
    → All (λ c. is_inner c ≡ true) w
    → cut_at b')' (w ++ (b')' ∷ behind)) ≡ some (w, behind)
unfolding cut_at
cut_at-last [] behind h = refl
cut_at-last (c ∷ w) behind h = ground (arith, h.0, cut_at-last w behind h.1)

module _ (a : Arithmetic) (format_float : Float → Str) (format_int : ℤ → Str) (c : Coordinate) where
  -- A coordinate whose numbers are printed as words without a parenthesis, and whose x and y are
  -- read back from what is printed: the place of its text has that x and y, in WGS 84.
  pub parse_point_wkt-coordinate_text :
      IsPrinted (format_float c.x)
      → IsPrinted (format_float c.y)
      → IsPrinted (format_float c.z)
      → a.parse_float (format_float c.x) ≡ some c.x
      → a.parse_float (format_float c.y) ≡ some c.y
      → parse_point_wkt a (coordinate_text format_float format_int c)
        ≡ some (wgs84_coordinate c.x c.y)
  unfolding coordinate_text cut_at
  parse_point_wkt-coordinate_text px py pz read_x read_y =
      if_cases (λ t. parse_point_wkt a t ≡ some (wgs84_coordinate c.x c.y))
        (not (float_eq c.z f_zero))
        (λ high.
          parse_inner a (bytes "POINT Z") (x ++ (b' ' ∷ (y ++ (b' ' ∷ z)))) srid _ refl refl (
            cut_at-next x (y ++ (b' ' ∷ closed z)) _ srid px.1
              (cut_at-next y (closed z) z srid py.1 (cut_at-last z srid pz.1)))
          ∙ ap (coordinate_of a) (
              fields-append x _ px
              ∙ ap (◌∷◌ x) (fields-append y z py ∙ ap (◌∷◌ y) (fields_all z pz)))
          ∙ read_two a x y (z ∷ []) read_x read_y)
        (λ flat.
          parse_inner a (bytes "POINT") (x ++ (b' ' ∷ y)) srid _ refl refl
            (cut_at-next x (closed y) y srid px.1 (cut_at-last y srid py.1))
          ∙ ap (coordinate_of a) (fields-append x y px ∙ ap (◌∷◌ x) (fields_all y py))
          ∙ read_two a x y [] read_x read_y)
    where
      x : Str
      x = format_float c.x

      y : Str
      y = format_float c.y

      z : Str
      z = format_float c.z

      srid : Str
      srid = bytes " SRID=" ++ format_int c.srid

      closed : Str → Str
      closed w = w ++ (b')' ∷ srid)
