-- ===== src/Geopackage/Dedup.antt =====
-- The merging of the fragments of a feature: dedupFeaturesByProperties and what it calls, in
-- internal/adapters/geopackage/repository.go.
pub mod Chosen
pub mod Keys
pub mod Reference
pub mod Sorted
use ortus.Common.{
  ℕ, Bool, true, false, not, ◌&&◌, ◌||◌, Option, none, some, List, [], ◌∷◌, ◌++◌, map, Str, bytes,
  length, get_elem?, set, if◌then◌else◌, ltb,
}
use ortus.Common.Int.{ℤ, pos, ltb_ℤ}
use ortus.Common.Maps.{Map, lookup, insert}
use ortus.Common.Sort.{sort_stable}
use ortus.Common.Decimal.{itoa}
use ortus.Domain.Types.{PropValue, Feature}
use ortus.Domain.Coordinates.{eq_ℤ}
use ortus.Gazetteer.Salience.{str_lt}

-- `writeField`
unfoldable pub write_field : Str → Str
write_field s = itoa (length s) ++ (bytes ":" ++ s)

-- `fmt.Sprintf("%T=%v", v, v)` is the parameter `render`.
module _ (render : PropValue → Str) where
  -- The names of the properties in order, each with its value.
  unfoldable pub sorted_properties : Feature → Map PropValue
  sorted_properties f = sort_stable (λ a b. str_lt a.0 b.0) f.properties

  unfoldable pub write_properties : Map PropValue → Str
  write_properties [] = []
  write_properties ((k, v) ∷ properties) =
      write_field k ++ (write_field (render v) ++ write_properties properties)

  unfoldable pub feature_property_key : Feature → Str
  feature_property_key f = write_field f.layer_name ++ write_properties (sorted_properties f)

unfoldable pub better_representative : Feature → Feature → Bool
better_representative c k =
    if not (eq_ℤ c.id (pos 0)) || not (eq_ℤ k.id (pos 0))
    then (if eq_ℤ c.id (pos 0) then false else if eq_ℤ k.id (pos 0) then true else ltb_ℤ c.id k.id)
    else str_lt c.geometry.wkt k.geometry.wkt

module _ (key : Feature → Str) where
  -- The loop, with `pos` and `out`. `none` is an index out of range.
  unfoldable pub dedup_loop : List Feature → Map ℕ → List Feature → Option (List Feature)
  dedup_loop [] positions out = some out
  dedup_loop (f ∷ fs) positions out = elim (lookup (key f) positions) [
    | none ↦ dedup_loop fs (insert (key f) (length out) positions) (out ++ (f ∷ []))
    | some i ↦ elim (get_elem? out i) [
      | none ↦ none
      | some kept ↦
          dedup_loop fs positions (if better_representative f kept then set out i f else out)
    ]
  ]

  unfoldable pub dedup_features : List Feature → Option (List Feature)
  dedup_features features =
      if ltb (length features) 2 then some features else dedup_loop features [] []

-- `dedupFeaturesByProperties`
unfoldable pub dedup_features_by_properties :
    (PropValue → Str) → List Feature → Option (List Feature)
dedup_features_by_properties render features = dedup_features (feature_property_key render) features
