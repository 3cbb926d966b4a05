-- ===== src/Gazetteer/Tests.antt =====
-- A city, a town and a village near a point.
use ortus.Common.{◌≡◌, refl, some, List, [], ◌∷◌, bytes}
use ortus.Common.Int.{pos}
use ortus.Common.Float.{Float, f_zero, f_90, f_180, float_lt, float_le, float_eq}
use ortus.Fixtures.{origin}
use ortus.Gazetteer.Salience.{
  PlaceClass, class_town, class_city, class_village, Candidate, BearingPolicy, select_ranked,
  nearest_prominent, most_salient, best_of, eligible, reach_km, nearer, more_salient,
}
use ortus.Gazetteer.Salience.Chosen.{IsChosen, select_ranked_lem}

abbrev candidate : PlaceClass → Float → Candidate
candidate c d = record {
  place = record {
    name = bytes "A";
    name_native = [];
    name_source = record { code = []; short = []; long = []; standard = [] };
    class = c;
    admin_id = pos 0;
    country_iso = bytes "DE";
    at = origin;
    population = pos 0;
    capital = [];
    wikidata = [];
  };
  distance_km = d;
}

abbrev policy : BearingPolicy
policy = record {
  reach = λ c. some f_180;
  prefer_nearest_km = f_zero;
  constraint_tier = bytes "state";
  inside_label_km = f_zero;
  compass_points = pos 8;
  candidate_radius_km = f_zero;
}

abbrev places : List Candidate
places =
    candidate class_village f_zero ∷ candidate class_city f_90 ∷ candidate class_town f_zero ∷ []

select_ranked_runs : select_ranked places policy ≡ some (candidate class_city f_90)
unfolding select_ranked nearest_prominent most_salient best_of eligible reach_km more_salient nearer
    float_lt float_le float_eq
select_ranked_runs = refl

select_ranked_lem_example : IsChosen policy places (select_ranked places policy)
select_ranked_lem_example = select_ranked_lem places policy (refl, (refl, (refl, tt)))
