-- ===== src/Gazetteer/Requests.antt =====
-- Requests about a point in Ochsenfurt, and about one on a border.
use mathlib.Core.List.Perm
use ortus.Common.{ℕ, ◌≡◌, refl, true, none, some, List, [], ◌∷◌, Str, bytes, str_eq}
use ortus.Common.Maps.{Map, lookup}
use ortus.Common.Int.{pos}
use ortus.Common.Decimal.{atoi, natural, digits}
use ortus.Common.Float.{f_zero, f_90, float_lt, float_le, float_eq}
use ortus.Fixtures.{origin}
use ortus.Domain.Types.{Feature, PropValue, text_value, int_value, get_string_property}
use ortus.Domain.Errors.{ok}
use ortus.Gazetteer.Salience.{
  class_town, str_lt, select_ranked, gather_radius_km, reach_km, candidate_limit, most_salient,
  best_of, eligible, more_salient, nearer, nearest_prominent,
}
use ortus.Gazetteer.Types.{SpatialIndex, AdminRow, Fix}
use ortus.Gazetteer.Places.{
  parse_point_wkt, wgs84_coordinate, place_from_feature, cut_at, coordinate_of, words,
  get_int_property, parse_place_class,
}
use ortus.Gazetteer.Places.Wkt.{IsPrinted, coordinate_text, parse_point_wkt-coordinate_text}
use ortus.Gazetteer.Service.{
  Service, locate_loop, ready, require_wgs84, checked, nothing_found, resolve_name_source,
}
use ortus.Gazetteer.Bearing.{
  bearing, country_of, country_loop, constraint_ancestor_in, bearing_from, gather_classes,
  candidates_in_class, candidates_of, build_fix, contains_admin_unit, has_id, is_permitted, is_tier,
  reaches, same_tier, tier_unit,
}
use ortus.Gazetteer.Bearing.Tiers.{IsConstrained}
use ortus.Gazetteer.Bearing.Anchors.{IsHome, bearing_anchor}
use ortus.Gazetteer.Bearing.Ranked.{select_ranked-Selects}
use ortus.Gazetteer.Samples.{manifest, levels, arithmetic, policy}

abbrev feature : ℕ → Str → Map PropValue → Feature
feature id wkt properties = record {
  id = pos id;
  layer_name = [];
  geometry = record { type_name = []; wkt = wkt; wkb = []; srid = pos 4326; coordinates = origin };
  properties = properties;
}

abbrev unit : ℕ → Str → Str → Str → Feature
unit id name level country = feature id [] (
    (bytes "n", text_value name)
    ∷ (bytes "l", text_value level)
    ∷ (bytes "c", text_value country)
    ∷ [])

abbrev bavaria : Feature
bavaria = unit 4 (bytes "Bayern") (bytes "4") (bytes "DE")

abbrev town : Feature
town = unit 8 (bytes "Ochsenfurt") (bytes "8") (bytes "DE")

abbrev fill : Feature
fill = unit 9 (bytes "Europe") [] (bytes "DE")

abbrev ochsenfurt : Feature
ochsenfurt = feature 77 (bytes "POINT(1 4)") (
    (bytes "n", text_value (bytes "Ochsenfurt"))
    ∷ (bytes "p", text_value (bytes "town"))
    ∷ (bytes "c", text_value (bytes "DE"))
    ∷ (bytes "f", int_value (pos 8))
    ∷ [])

abbrev chain_row : ℕ → ℕ → ℕ → AdminRow
chain_row fid parent level = record {
  fid = pos fid;
  parent_fid = pos parent;
  level = pos level;
  name = [];
  country_iso = bytes "DE";
}

abbrev index : List Feature → SpatialIndex
index rows = record {
  query_knn = λ layer p k radius f. ok (record { feature = ochsenfurt; distance_km = f_zero } ∷ []);
  point_in_polygon = λ layer p. ok rows;
  resolve_chain = λ layer fid columns. ok (chain_row 8 4 8 ∷ chain_row 4 0 4 ∷ []);
  azimuth = λ from to. ok f_90;
}

abbrev service : List Feature → Service
service rows = record {
  index = some (index rows);
  manifest = manifest;
  levels = levels;
  name_sources = none;
  salience = select_ranked;
  enabled = true;
  elevation = none;
  elev_meta = record {
    vertical_datum = [];
    accuracy_m = f_zero;
    accuracy_basis = [];
    per_point_accuracy_basis = [];
    horizontal_m = f_zero;
    surface_model = [];
  };
}

abbrev rows : List Feature
rows = bavaria ∷ fill ∷ town ∷ []

-- Two units of one level with different codes: what Locate takes as the country depends on their
-- order.
abbrev left : Feature
left = unit 11 (bytes "A") (bytes "2") (bytes "IL")

abbrev right : Feature
right = unit 12 (bytes "B") (bytes "2") (bytes "PS")

abbrev country_found : List Feature → Str
country_found fs = (locate_loop (service []) fs nothing_found).country_iso

country_found_runs :
    (country_found (left ∷ right ∷ []) ≡ bytes "IL")
    × (country_found (right ∷ left ∷ []) ≡ bytes "PS")
unfolding locate_loop get_string_property lookup str_eq atoi natural digits
country_found_runs = (refl, refl)

abbrev in_town : Fix
in_town = record {
  reference = record {
    name = bytes "Ochsenfurt";
    name_native = [];
    name_source = record { code = []; short = []; long = []; standard = [] };
    class = class_town;
    admin_id = pos 8;
    country_iso = bytes "DE";
    at = wgs84_coordinate f_zero f_zero;
    population = pos 0;
    capital = [];
    wikidata = [];
  };
  distance_km = f_zero;
  azimuth = f_zero;
  compass = [];
  label = bytes "in Ochsenfurt";
  inside = true;
}

bearing_runs : bearing arithmetic origin policy (service rows) ≡ ok (some in_town)
unfolding bearing checked ready require_wgs84 bearing_from gather_classes float_le gather_radius_km
    float_lt reach_km candidates_in_class candidates_of place_from_feature parse_point_wkt cut_at
    coordinate_of words str_eq country_of country_loop get_string_property atoi digits natural
    float_eq lookup build_fix constraint_ancestor_in contains_admin_unit has_id is_permitted is_tier
    reaches same_tier tier_unit get_int_property parse_place_class candidate_limit str_lt
    resolve_name_source select_ranked most_salient best_of eligible more_salient nearer
    nearest_prominent
bearing_runs = refl

bearing_anchor_example :
    (index : SpatialIndex) × (containing : List Feature) × ((service rows).index ≡ some index)
    × (index.point_in_polygon (service rows).manifest.admin_layer origin ≡ ok containing)
    × IsHome (country_of (service rows) containing) in_town.reference
    × IsConstrained (service rows) index policy.constraint_tier containing in_town.reference
bearing_anchor_example =
    bearing_anchor arithmetic (service rows) origin policy in_town select_ranked-Selects
      bearing_runs

parse_point_wkt-coordinate_text_example :
    parse_point_wkt arithmetic (coordinate_text (λ x. bytes "0.000000") (λ i. bytes "4326") origin)
    ≡ some (wgs84_coordinate origin.x origin.y)
parse_point_wkt-coordinate_text_example =
    parse_point_wkt-coordinate_text arithmetic (λ x. bytes "0.000000") (λ i. bytes "4326") origin
      printed printed printed refl refl
  where
    printed : IsPrinted (bytes "0.000000")
    printed = (λ e. cc, (refl, (refl, (refl, (refl, (refl, (refl, (refl, (refl, tt)))))))))
