-- ===== src/Domain/Tests.antt =====
-- Concrete paths, coordinates and requests.
use ortus.Domain.Types.{Coordinate}
use ortus.Domain.Stems.{derive_source_id-file}
use ortus.Common.Float.{Float}
use ortus.Common.Int.{pos}
use ortus.Common.{◌≡◌, refl, true, [], bytes, str_eq}
use ortus.Domain.Errors.{ok, err, escapes_cache_dir}
use ortus.Domain.Paths.{
  split, join_parts, push_part, push_parts, is_abs, render, clean, join, has_prefix,
  safe_local_path, last_element, strip_slashes, base_name, find_dot, ext_length, derive_source_id,
  has_suffix, lower_byte, is_supported_source_file,
}

clean_runs :
    (clean (bytes "a//b/./c/../d/") ≡ bytes "a/b/d")
    × (clean (bytes "/../x") ≡ bytes "/x")
    × (clean (bytes "../../x/..") ≡ bytes "../..")
    × (clean [] ≡ bytes ".")
unfolding clean split join_parts push_part push_parts is_abs render str_eq
clean_runs = (refl, refl, refl, refl)

safe_local_path_runs :
    (safe_local_path (bytes "./data") (bytes "sub/x.gpkg") ≡ ok (bytes "data/sub/x.gpkg"))
    × (safe_local_path (bytes "./data") (bytes "sub/../../x") ≡ err escapes_cache_dir)
    × (safe_local_path (bytes ".") (bytes "x.gpkg") ≡ err escapes_cache_dir)
unfolding safe_local_path join clean split join_parts push_part push_parts is_abs render str_eq
    has_prefix
safe_local_path_runs = (refl, refl, refl)

derive_source_id_runs :
    (derive_source_id (bytes "data/x.y.gpkg") ≡ bytes "x.y")
    × (derive_source_id (bytes "data/.gpkg") ≡ bytes ".gpkg")
    × (derive_source_id [] ≡ [])
    × (derive_source_id (bytes "a/b/") ≡ bytes "b")
unfolding derive_source_id base_name last_element strip_slashes ext_length find_dot str_eq
derive_source_id_runs = (refl, refl, refl, refl)

supported_runs : is_supported_source_file (bytes "A.GPKG") ≡ true
unfolding is_supported_source_file has_suffix has_prefix lower_byte
supported_runs = refl

abbrev nan : Float
nan = 0x7FF8000000000001

abbrev point : Float → Coordinate
point x = record { x = x; y = x; z = 0; srid = pos 4326 }

derive_source_id-file_example : derive_source_id (bytes "data/lakes.v2.gpkg") ≡ bytes "lakes.v2"
derive_source_id-file_example =
    derive_source_id-file (bytes "data") b'l' (bytes "akes.v2") (bytes "gpkg")
      (refl, (refl, (refl, (refl, (refl, (refl, (refl, (refl, tt))))))))
      (refl, (refl, (refl, (refl, tt)))) (refl, (refl, (refl, (refl, tt))))
