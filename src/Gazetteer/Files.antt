-- ===== src/Gazetteer/Files.antt =====
-- A manifest without a country column in its admin layer, and a reference with one level.
use ortus.Common.{◌≡◌, ◌↔◌, refl, [], ◌∷◌, bytes, str_eq}
use ortus.Common.Int.{pos}
use ortus.Domain.Errors.{ok, err, missing_fields}
use ortus.Gazetteer.Types.{LevelMeaning}
use ortus.Gazetteer.Manifests.{
  ManifestYaml, LevelRefYaml, LevelReference, manifest_of, parse_manifest, validate_manifest,
  missing,
}
use ortus.Gazetteer.Manifests.Complete.{IsComplete, IsRead, parse_manifest_iff}

abbrev yaml : ManifestYaml
yaml = record {
  places = record {
    layer = bytes "places";
    name_column = bytes "name";
    name_native_column = [];
    name_source_column = [];
    rank_column = bytes "place";
    admin_fk = bytes "admin_id";
    country_column = bytes "country_iso";
    population_column = [];
    capital_column = [];
    notability_column = [];
  };
  admin = record {
    layer = bytes "admin_levels";
    level_column = bytes "admin_level";
    name_column = bytes "name";
    parent_fk = bytes "parent_id";
    country_column = [];
    constraint_tier = [];
  };
  islands = record { layer = bytes "islands"; name_column = [] };
  license = record { name = []; url = []; attribution = [] };
}

parse_manifest_iff_example :
    (parse_manifest yaml ≡ ok (manifest_of yaml))
    ↔ (IsComplete yaml × IsRead yaml (manifest_of yaml))
parse_manifest_iff_example = parse_manifest_iff yaml (manifest_of yaml)

parse_manifest_runs : parse_manifest yaml ≡ ok (manifest_of yaml)
unfolding parse_manifest validate_manifest missing str_eq manifest_of
parse_manifest_runs = refl

parse_manifest_fails :
    parse_manifest (record yaml { places = record yaml.places { layer = []; country_column = [] } })
    ≡ err (missing_fields (bytes "places.layer" ∷ bytes "country_column" ∷ []))
unfolding parse_manifest validate_manifest missing str_eq manifest_of
parse_manifest_fails = refl

abbrev levels : LevelRefYaml
levels = record {
  equivalent_levels = (bytes "state", bytes "a state of a federation") ∷ [];
  countries =
      (
        bytes "DE",
        (pos 4, record { name = bytes "Land"; equivalent = bytes "state" })
            ∷ (pos 5, record { name = bytes "Bezirk"; equivalent = [] })
            ∷ [],
      )
      ∷ [];
}

abbrev land : LevelMeaning
land = record {
  equivalent = bytes "state";
  description = bytes "a state of a federation";
  local_term = bytes "Land";
}

abbrev reference : LevelReference
reference = (bytes "DE", (pos 4, land) ∷ []) ∷ []
