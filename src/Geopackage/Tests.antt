-- ===== src/Geopackage/Tests.antt =====
-- Runs of the merging of internal/adapters/geopackage/repository.go.
use ortus.Common.{
  ◌≡◌, refl, true, false, ◌↔◌, none, some, List, [], ◌∷◌, ◌++◌, Str, bytes, str_eq, elem,
}
use ortus.Common.Int.{ℤ, pos}
use ortus.Common.Float.{f_zero}
use ortus.Common.Maps.{Map, lookup, insert}
use ortus.Common.Keys.{Distinct, keys}
use ortus.Common.Sort.{All, sort_stable}
use ortus.Common.Decimal.{itoa, decimal}
use ortus.Domain.Types.{PropValue, text_value, Feature}
use ortus.Geopackage.Dedup.{
  write_field, sorted_properties, write_properties, feature_property_key, better_representative,
  dedup_loop, dedup_features, dedup_features_by_properties,
}
use ortus.Geopackage.Dedup.Reference.{values}
use ortus.Geopackage.Dedup.Chosen.{IsKept, IsFrom, dedup_features_by_properties_lem}
use ortus.Geopackage.Dedup.Keys.{feature_property_key_iff}
use ortus.Geopackage.Dedup.Sorted.{SameTexts}

-- The type and value of a text; no other values are used here.
abbrev render : PropValue → Str
render (text_value s) = bytes "string=" ++ s
render _ = []

abbrev fragment : ℤ → Str → Feature
fragment id name = record {
  id = id;
  layer_name = bytes "lakes";
  geometry = record {
    type_name = [];
    wkt = [];
    wkb = [];
    srid = pos 4326;
    coordinates = record { x = f_zero; y = f_zero; z = f_zero; srid = pos 4326 };
  };
  properties = (bytes "name", text_value name) ∷ [];
}

abbrev fragments : List Feature
fragments =
    fragment (pos 7) (bytes "Garda")
    ∷ fragment (pos 5) (bytes "Como")
    ∷ fragment (pos 3) (bytes "Garda")
    ∷ []

feature_property_key_runs :
    feature_property_key render (fragment (pos 7) (bytes "Garda"))
    ≡ bytes "5:lakes4:name12:string=Garda"
unfolding feature_property_key sorted_properties write_properties write_field itoa decimal
    sort_stable ortus.Common.Sort.insert_stable
feature_property_key_runs = refl

dedup_runs :
    dedup_features_by_properties render fragments
    ≡ some (fragment (pos 3) (bytes "Garda") ∷ fragment (pos 5) (bytes "Como") ∷ [])
unfolding dedup_features_by_properties dedup_features dedup_loop better_representative lookup insert
    str_eq feature_property_key sorted_properties write_properties write_field itoa decimal
    sort_stable ortus.Common.Sort.insert_stable
dedup_runs = refl

dedup_features_by_properties_lem_example :
    (m : Map Feature) × (dedup_features_by_properties render fragments ≡ some (values m))
    × Distinct (keys m)
    × All (IsFrom (feature_property_key render) fragments) m
    × All (IsKept (feature_property_key render) m) fragments
dedup_features_by_properties_lem_example = dedup_features_by_properties_lem render fragments

-- The same two properties in both orders.
abbrev depth_first : Feature
depth_first = record (fragment (pos 7) []) {
  properties =
      (bytes "depth", text_value (bytes "346")) ∷ (bytes "name", text_value (bytes "Garda")) ∷ [];
}

abbrev name_first : Feature
name_first = record (fragment (pos 3) []) {
  properties =
      (bytes "name", text_value (bytes "Garda")) ∷ (bytes "depth", text_value (bytes "346")) ∷ [];
}

feature_property_key_iff_example :
    (feature_property_key render depth_first ≡ feature_property_key render name_first) ↔ (
      (bytes "lakes" ≡ bytes "lakes")
      × SameTexts render depth_first.properties name_first.properties)
unfolding elem str_eq
feature_property_key_iff_example =
    feature_property_key_iff render depth_first name_first (refl, (refl, tt)) (refl, (refl, tt))

one_key : feature_property_key render depth_first ≡ feature_property_key render name_first
unfolding feature_property_key sorted_properties write_properties write_field itoa decimal
    sort_stable ortus.Common.Sort.insert_stable ortus.Gazetteer.Salience.str_lt
one_key = refl
