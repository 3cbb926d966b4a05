-- ===== src/Gazetteer/Samples.antt =====
-- A manifest, level meanings, an arithmetic and a policy for the tests of the gazetteer.
use ortus.Common.{Option, none, some, [], Str, bytes, if◌then◌else◌}
use ortus.Common.Int.{ℤ, pos}
use ortus.Common.Float.{f_zero, f_180}
use ortus.Domain.Coordinates.{eq_ℤ}
use ortus.Gazetteer.Salience.{class_town, BearingPolicy}
use ortus.Gazetteer.Types.{Manifest, LevelMeaning}
use ortus.Gazetteer.Compass.{Arithmetic}

abbrev pub manifest : Manifest
manifest = record {
  places_layer = bytes "places";
  rank_column = bytes "p";
  name_column = bytes "n";
  admin_fk_column = bytes "f";
  population_column = [];
  capital_column = [];
  notability_column = [];
  admin_layer = bytes "a";
  level_column = bytes "l";
  admin_name_column = bytes "n";
  parent_fk_column = bytes "parent_id";
  islands_layer = [];
  islands_name_column = [];
  country_column = bytes "c";
  name_native_column = [];
  name_source_column = [];
  constraint_tier = bytes "state";
  license = record { name = []; url = []; attribution = [] };
}

abbrev pub levels : Str → ℤ → Option LevelMeaning
levels country level =
    if eq_ℤ level (pos 4)
    then some (record { equivalent = bytes "state"; description = []; local_term = bytes "Land" })
    else none

-- Every text is read as 0, and a rose is not turned.
abbrev pub arithmetic : Arithmetic
arithmetic = record {
  f_mod = λ x y. x;
  f_add = λ x y. x;
  f_div = λ x y. x;
  f_mul = λ x y. x;
  f_round = λ x. x;
  f_trunc = λ x. x;
  of_int = λ n. n;
  to_int = λ x. pos 0;
  format_fixed = λ d x. bytes "0";
  parse_float = λ s. some f_zero;
}

abbrev pub policy : BearingPolicy
policy = record {
  reach = λ c. elim c [ class_town ↦ some f_180 | _ ↦ none ];
  prefer_nearest_km = f_zero;
  constraint_tier = bytes "state";
  inside_label_km = f_zero;
  compass_points = pos 8;
  candidate_radius_km = f_zero;
}
