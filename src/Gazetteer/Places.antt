-- ===== src/Gazetteer/Places.antt =====
-- Places as features: `placeFromFeature` and `parsePointWKT` of
-- internal/application/gazetteer/bearing.go, the classes of internal/domain/gazetteer.go and
-- `GetIntProperty` of internal/domain/feature.go. Blanks are the ASCII ones.
pub mod Wkt
use ortus.Common.{
  ℕ, Bool, true, false, ◌&&◌, ◌||◌, Option, none, some, List, [], ◌∷◌, Str, bytes, str_eq, leb,
  ◌==◌, if◌then◌else◌,
}
use ortus.Common.Maps.{lookup}
use ortus.Common.Int.{ℤ, pos}
use ortus.Common.Float.{Float, f_zero}
use ortus.Domain.Types.{
  Coordinate, Feature, int_value, int64_value, float_value, get_string_property,
}
use ortus.Domain.Coordinates.{srid_wgs84}
use ortus.Gazetteer.Salience.{
  PlaceClass, class_unknown, class_village, class_town, class_city, Place,
}
use ortus.Gazetteer.Compass.{Arithmetic}
use ortus.Gazetteer.Service.{Service, resolve_name_source}

-- `PlaceClass.String` and `ParsePlaceClass`
unfoldable pub class_text : PlaceClass → Str
class_text class_village = bytes "village"
class_text class_town = bytes "town"
class_text class_city = bytes "city"
class_text class_unknown = bytes "unknown"

unfoldable pub parse_place_class : Str → PlaceClass × Bool
parse_place_class s =
    if str_eq s (bytes "village")
    then (class_village, true)
    else if str_eq s (bytes "town")
    then (class_town, true)
    else if str_eq s (bytes "city")
    then (class_city, true)
    else (class_unknown, false)

-- `strings.IndexByte(s, c)` cuts a text there: what stands before it, and behind it.
unfoldable pub cut_at : ℕ → Str → Option (Str × Str)
cut_at c [] = none
cut_at c (d ∷ s) =
    if d == c
    then some ([], s)
    else elim (cut_at c s) [ none ↦ none | some (before, behind) ↦ some (d ∷ before, behind) ]

abbrev pub is_blank : ℕ → Bool
is_blank c = (leb 9 c && leb c 13) || (c == 32)

abbrev pub put_word : Str → List Str → List Str
put_word [] words = words
put_word (c ∷ w) words = (c ∷ w) ∷ words

-- `strings.Fields(s)`, the word that `s` begins with, or an empty one, and the others.
unfoldable pub words : Str → Str × List Str
words [] = ([], [])
words (c ∷ s) =
    let (first, others) = words s in
    if is_blank c then ([], put_word first others) else (c ∷ first, others)

abbrev pub fields : Str → List Str
fields s = let (first, others) = words s in put_word first others

abbrev pub wgs84_coordinate : Float → Float → Coordinate
wgs84_coordinate x y = record { x = x; y = y; z = f_zero; srid = srid_wgs84 }

module _ (a : Arithmetic) where
  unfoldable pub coordinate_of : List Str → Option Coordinate
  coordinate_of [] = none
  coordinate_of (x ∷ []) = none
  coordinate_of (x ∷ y ∷ _) = elim (a.parse_float x) [
    | none ↦ none
    | some lon ↦ elim (a.parse_float y) [ none ↦ none | some lat ↦ some (wgs84_coordinate lon lat) ]
  ]

  -- What `parsePointWKT` reads between the first `(` and the first `)`, if that stands behind it.
  unfoldable pub parse_point_wkt : Str → Option Coordinate
  parse_point_wkt wkt = elim (cut_at b'(' wkt) [
    | none ↦ none
    | some (before, behind) ↦ elim (cut_at b')' before) [
      | some closed ↦ none
      | none ↦ elim (cut_at b')' behind) [
        | none ↦ none
        | some (inner, rest) ↦ coordinate_of (fields inner)
      ]
    ]
  ]

  unfoldable pub get_int_property : Str → Feature → ℤ
  get_int_property key f = elim (lookup key f.properties) [
    | none ↦ pos 0
    | some v ↦ elim v [
      | int_value i ↦ i
      | int64_value i ↦ i
      | float_value x ↦ a.to_int x
      | _ ↦ pos 0
    ]
  ]

  unfoldable pub place_from_feature : Service → Feature → Option Place
  place_from_feature s f = elim (parse_point_wkt f.geometry.wkt) [
    | none ↦ none
    | some coord ↦
        let m = s.manifest in
        some (record {
          name = get_string_property m.name_column f;
          name_native = get_string_property m.name_native_column f;
          name_source = resolve_name_source (get_string_property m.name_source_column f) s;
          class = (parse_place_class (get_string_property m.rank_column f)).0;
          admin_id = get_int_property m.admin_fk_column f;
          country_iso = get_string_property m.country_column f;
          at = coord;
          population = get_int_property m.population_column f;
          capital = get_string_property m.capital_column f;
          wikidata = get_string_property m.notability_column f;
        })
  ]
