-- ===== src/Gazetteer/Manifests/Complete.antt =====
-- What a manifest that internal/application/gazetteer/manifest.go accepts has, field by field.
use ortus.Common.{
  ◌≡◌, ◌≢◌, ◌↔◌, ◌⊎◌, refl, sym, ◌∙◌, ap, subst, false, not, ◌&&◌, none, some, List, [], ◌∷◌, Str,
  bytes, str_eq_iff, arith, inl, inr, Option-cases, if◌then◌else◌,
}
use ortus.Common.Sort.{All}
use ortus.Domain.Errors.{Error, ok, err}
use ortus.Gazetteer.Types.{Manifest}
use ortus.Gazetteer.Manifests.{
  ManifestYaml, is_empty, manifest_of, required, missing, validate_manifest, parse_manifest,
}

-- The layers and columns that a query needs have names; the country column may be that of the admin
-- layer or that of the places.
pub record IsComplete (y : ManifestYaml) : Type 0 where
  pub places_layer : y.places.layer ≢ []
  pub places_rank : y.places.rank_column ≢ []
  pub places_name : y.places.name_column ≢ []
  pub places_admin : y.places.admin_fk ≢ []
  pub admin_layer : y.admin.layer ≢ []
  pub admin_level : y.admin.level_column ≢ []
  pub admin_name : y.admin.name_column ≢ []
  pub admin_parent : y.admin.parent_fk ≢ []
  pub country : (y.admin.country_column ≢ []) ⊎ (y.places.country_column ≢ [])

-- The first text, or the second if the first is empty.
abbrev pub IsOr : Str → Str → Str → Type 0
IsOr given default value = ((given ≢ []) × (value ≡ given)) ⊎ ((given ≡ []) × (value ≡ default))

-- The columns are those that were read, with the country column of the places, the tier "state" and,
-- for an islands layer, the name column of the admin layer where the file gives none.
pub record IsRead (y : ManifestYaml) (m : Manifest) : Type 0 where
  pub places_layer_is : m.places_layer ≡ y.places.layer
  pub rank_is : m.rank_column ≡ y.places.rank_column
  pub name_is : m.name_column ≡ y.places.name_column
  pub admin_fk_is : m.admin_fk_column ≡ y.places.admin_fk
  pub population_is : m.population_column ≡ y.places.population_column
  pub capital_is : m.capital_column ≡ y.places.capital_column
  pub notability_is : m.notability_column ≡ y.places.notability_column
  pub admin_layer_is : m.admin_layer ≡ y.admin.layer
  pub level_is : m.level_column ≡ y.admin.level_column
  pub admin_name_is : m.admin_name_column ≡ y.admin.name_column
  pub parent_fk_is : m.parent_fk_column ≡ y.admin.parent_fk
  pub islands_layer_is : m.islands_layer ≡ y.islands.layer
  pub islands_name_is :
      ((y.islands.layer ≢ [])
        × IsOr y.islands.name_column y.admin.name_column m.islands_name_column)
      ⊎ ((y.islands.layer ≡ []) × (m.islands_name_column ≡ y.islands.name_column))
  pub country_is : IsOr y.admin.country_column y.places.country_column m.country_column
  pub name_native_is : m.name_native_column ≡ y.places.name_native_column
  pub name_source_is : m.name_source_column ≡ y.places.name_source_column
  pub tier_is : IsOr y.admin.constraint_tier (bytes "state") m.constraint_tier
  pub license_is : m.license ≡ y.license

is_empty-IsOr :
    (given default : Str) → IsOr given default (if is_empty given then default else given)
is_empty-IsOr given default = ground (arith, str_eq_iff given [])

IsOr-or :
    (given default value : Str)
    → IsOr given default value
    → value ≡ (if is_empty given then default else given)
IsOr-or given default value h = ground (arith, h, str_eq_iff given [])

manifest_of-IsRead : (y : ManifestYaml) → IsRead y (manifest_of y)
unfolding manifest_of
manifest_of-IsRead y = record {
  places_layer_is = refl;
  rank_is = refl;
  name_is = refl;
  admin_fk_is = refl;
  population_is = refl;
  capital_is = refl;
  notability_is = refl;
  admin_layer_is = refl;
  level_is = refl;
  admin_name_is = refl;
  parent_fk_is = refl;
  islands_layer_is = refl;
  islands_name_is =
      ground (arith, str_eq_iff y.islands.layer [], str_eq_iff y.islands.name_column []);
  country_is = is_empty-IsOr y.admin.country_column y.places.country_column;
  name_native_is = refl;
  name_source_is = refl;
  tier_is = is_empty-IsOr y.admin.constraint_tier (bytes "state");
  license_is = refl;
}

IsRead-manifest_of : (y : ManifestYaml) (m : Manifest) → IsRead y m → m ≡ manifest_of y
unfolding manifest_of
IsRead-manifest_of y m r =
    let country =
      IsOr-or y.admin.country_column y.places.country_column m.country_column r.country_is in
    let tier = IsOr-or y.admin.constraint_tier (bytes "state") m.constraint_tier r.tier_is in
    let islands : m.islands_name_column ≡ (
        if not (is_empty y.islands.layer) && is_empty y.islands.name_column
        then y.admin.name_column
        else y.islands.name_column) =
      ground (
        arith,
        r.islands_name_is,
        str_eq_iff y.islands.layer [],
        str_eq_iff y.islands.name_column [],
      ) in
    cc (
      country, tier, islands, r.places_layer_is, r.rank_is, r.name_is, r.admin_fk_is,
      r.population_is, r.capital_is, r.notability_is, r.admin_layer_is, r.level_is, r.admin_name_is,
      r.parent_fk_is, r.islands_layer_is, r.name_native_is, r.name_source_is, r.license_is,
    )

abbrev Named : Str × Str → Type 0
Named f = is_empty f.1 ≡ false

missing_none : (fields : List (Str × Str)) → All Named fields → missing fields ≡ []
unfolding missing
missing_none [] h = refl
missing_none ((name, value) ∷ fields) h = ground (arith, h.0, missing_none fields h.1)

none_missing : (fields : List (Str × Str)) → missing fields ≡ [] → All Named fields
unfolding missing
none_missing [] h = tt
none_missing ((name, value) ∷ fields) h =
    (ground (arith, h), none_missing fields (ground (arith, h)))

named : (s : Str) → (is_empty s ≡ false) ↔ (s ≢ [])
named s = ground (arith, str_eq_iff s [])

country_named :
    (given default : Str)
    → (is_empty (if is_empty given then default else given) ≡ false)
      ↔ ((given ≢ []) ⊎ (default ≢ []))
country_named given default = ground (arith, str_eq_iff given [], str_eq_iff default [])

manifest_of-IsComplete : (y : ManifestYaml) → All Named (required (manifest_of y)) → IsComplete y
unfolding manifest_of
manifest_of-IsComplete y (a, (b, (c, (d, (e, (f, (g, (h, (i, _))))))))) = record {
  places_layer = (named y.places.layer).0 a;
  places_rank = (named y.places.rank_column).0 b;
  places_name = (named y.places.name_column).0 c;
  places_admin = (named y.places.admin_fk).0 d;
  admin_layer = (named y.admin.layer).0 e;
  admin_level = (named y.admin.level_column).0 f;
  admin_name = (named y.admin.name_column).0 g;
  admin_parent = (named y.admin.parent_fk).0 h;
  country = (country_named y.admin.country_column y.places.country_column).0 i;
}

required-manifest_of : (y : ManifestYaml) → IsComplete y → All Named (required (manifest_of y))
unfolding manifest_of
required-manifest_of y c =
    let country = (country_named y.admin.country_column y.places.country_column).1 c.country in
    let parent = (named y.admin.parent_fk).1 c.admin_parent in
    let name = (named y.admin.name_column).1 c.admin_name in
    let level = (named y.admin.level_column).1 c.admin_level in
    let admin = (named y.admin.layer).1 c.admin_layer in
    let key = (named y.places.admin_fk).1 c.places_admin in
    let place_name = (named y.places.name_column).1 c.places_name in
    let rank = (named y.places.rank_column).1 c.places_rank in
    let layer = (named y.places.layer).1 c.places_layer in
    (layer, (rank, (place_name, (key, (admin, (level, (name, (parent, (country, tt)))))))))

validate_manifest-IsComplete :
    (y : ManifestYaml) → validate_manifest (manifest_of y) ≡ none → IsComplete y
unfolding validate_manifest
validate_manifest-IsComplete y h =
    manifest_of-IsComplete y (none_missing (required (manifest_of y)) (ground (arith, h)))

complete_validates : (y : ManifestYaml) → IsComplete y → validate_manifest (manifest_of y) ≡ none
unfolding validate_manifest
complete_validates y c =
    ground (arith, missing_none (required (manifest_of y)) (required-manifest_of y c))

parse_valid :
    (y : ManifestYaml)
    → validate_manifest (manifest_of y) ≡ none
    → parse_manifest y ≡ ok (manifest_of y)
unfolding parse_manifest
parse_valid y h = ground (arith, h)

parse_invalid :
    (y : ManifestYaml) {e : Error}
    → validate_manifest (manifest_of y) ≡ some e
    → parse_manifest y ≡ err e
unfolding parse_manifest
parse_invalid y h = ground (arith, h)

-- A manifest file is accepted exactly if every layer and column that a query needs has a name, where
-- the country column is that of the admin layer or, if this is empty, of the places. The result then
-- has each layer and column as the file gives it, this country column, the tier "state" if the file
-- names none, and, if it has an islands layer without a name column, that of the admin layer.
pub parse_manifest_iff :
    (y : ManifestYaml) (m : Manifest) → (parse_manifest y ≡ ok m) ↔ (IsComplete y × IsRead y m)
parse_manifest_iff y m = (
  λ h. elim (Option-cases (validate_manifest (manifest_of y))) [
    | inl valid ↦
        let same : m ≡ manifest_of y =
          ap (λ r. elim r [ ok q ↦ q | err _ ↦ m ]) (sym h ∙ parse_valid y valid) in
        (validate_manifest-IsComplete y valid, subst (IsRead y) (sym same) (manifest_of-IsRead y))
    | inr (e, invalid) ↦ absurd (cc (h, parse_invalid y invalid))
  ],
  λ h. parse_valid y (complete_validates y h.0) ∙ ap ok (sym (IsRead-manifest_of y m h.1)),
)
