-- ===== src/Geopackage/Dedup/Keys.antt =====
-- featurePropertyKey of internal/adapters/geopackage/repository.go tells features apart.
use mathlib.Core.List.{append_assoc}
use mathlib.Core.Option.{some-injective}
use ortus.Common.{
  ℕ, zero, suc, ◌+◌, ◌/◌, ◌%◌, ◌≡◌, refl, sym, ap, ap₂, ◌∙◌, ◌↔◌, false, none, some, List, [], ◌∷◌,
  ◌++◌, Str, bytes, length, take, drop, ltb, ◌==◌, arith, if_cases,
}
use ortus.Common.Decimal.{decimal, itoa, natural}
use ortus.Common.Decimal.Print.{natural-itoa}
use ortus.Common.Maps.{Map, lookup}
use ortus.Common.Keys.{Distinct, keys}
use ortus.Common.Sort.{All, All-append}
use ortus.Domain.Types.{PropValue, Feature}
use ortus.Gazetteer.Places.{cut_at}
use ortus.Geopackage.Dedup.Sorted.{rendered, SameTexts, lookup-sort_stable, sorted-SameTexts}
use ortus.Geopackage.Dedup.{write_field, sorted_properties, write_properties, feature_property_key}

abbrev IsNoColon : ℕ → Type 0
IsNoColon c = (c == b':') ≡ false

decimal-IsNoColon : (fuel n : ℕ) → All IsNoColon (decimal fuel n)
unfolding decimal
decimal-IsNoColon zero n = (ground arith, tt)
decimal-IsNoColon (suc fuel) n =
    if_cases (All IsNoColon) (ltb n 10) (λ small. (ground (arith, small), tt))
      (λ large.
        All-append IsNoColon (decimal fuel (n / 10)) ((b'0' + n % 10) ∷ [])
          (decimal-IsNoColon fuel (n / 10)) (ground arith, tt))

cut_at-append : (xs s : Str) → All IsNoColon xs → cut_at b':' (xs ++ (b':' ∷ s)) ≡ some (xs, s)
unfolding cut_at
cut_at-append [] s h = refl
cut_at-append (c ∷ xs) s h = ground (arith, h.0, cut_at-append xs s h.1)

take-length : (s r : Str) → take (length s) (s ++ r) ≡ s
take-length [] r = refl
take-length (c ∷ s) r = ap (◌∷◌ c) (take-length s r)

drop-length : (s r : Str) → drop (length s) (s ++ r) ≡ r
drop-length [] r = refl
drop-length (c ∷ s) r = drop-length s r

-- The length that a field starts with, and what follows on the colon.
split_field : (s r : Str) → cut_at b':' (write_field s ++ r) ≡ some (itoa (length s), s ++ r)
unfolding write_field itoa
split_field s r =
    ap (cut_at b':') (append_assoc (itoa (length s)) (bytes ":" ++ s) r)
    ∙ cut_at-append (itoa (length s)) (s ++ r) (decimal-IsNoColon (length s) (length s))

write_field-injective :
    (s t r q : Str) → write_field s ++ r ≡ write_field t ++ q → (s ≡ t) × (r ≡ q)
write_field-injective s t r q e =
    let cut = some-injective _ _ (sym (split_field s r) ∙ (ap (cut_at b':') e ∙ split_field t q)) in
    let size =
      some-injective _ _
        (sym (natural-itoa (length s)) ∙ (ap (λ p. natural p.0) cut ∙ natural-itoa (length t))) in
    (
      sym (take-length s r) ∙ (ap₂ take size (ap (λ p. p.1) cut) ∙ take-length t q),
      sym (drop-length s r) ∙ (ap₂ drop size (ap (λ p. p.1) cut) ∙ drop-length t q),
    )

-- The text of properties that are rendered.
unfoldable written : List (Str × Str) → Str
written [] = []
written ((k, v) ∷ properties) = write_field k ++ (write_field v ++ written properties)

no_colon : cut_at b':' [] ≡ none
unfolding cut_at
no_colon = refl

module _ (render : PropValue → Str) where
  write_properties-injective :
      (m n : Map PropValue)
      → write_properties render m ≡ write_properties render n
      → rendered render m ≡ rendered render n
  unfolding write_properties
  write_properties-injective [] [] e = refl
  write_properties-injective [] ((k, v) ∷ n) e =
      cc (e, split_field k (write_field (render v) ++ write_properties render n), no_colon)
  write_properties-injective ((k, v) ∷ m) [] e =
      cc (e, split_field k (write_field (render v) ++ write_properties render m), no_colon)
  write_properties-injective ((k, v) ∷ m) ((j, w) ∷ n) e =
      let (name, behind) = write_field-injective k j _ _ e in
      let (value, rest) = write_field-injective (render v) (render w) _ _ behind in
      ap₂ ◌∷◌ (ap₂ (λ x y. (x, y)) name value) (write_properties-injective m n rest)

  same : (m : Map PropValue) → write_properties render m ≡ written (rendered render m)
  unfolding write_properties written
  same [] = refl
  same ((k, v) ∷ m) = ap (λ p. write_field k ++ (write_field (render v) ++ p)) (same m)

  write_properties-rendered :
      (m n : Map PropValue)
      → rendered render m ≡ rendered render n
      → write_properties render m ≡ write_properties render n
  unfolding write_properties
  write_properties-rendered m n e = same m ∙ (ap written e ∙ sym (same n))

  -- Of two features whose properties have one value under each name: they have one key exactly if
  -- they have the same layer, and under every name both have no property or both have properties
  -- whose values are rendered the same, whatever the order of the properties.
  pub feature_property_key_iff :
      (f g : Feature)
      → Distinct (keys f.properties)
      → Distinct (keys g.properties)
      → (feature_property_key render f ≡ feature_property_key render g)
        ↔ ((f.layer_name ≡ g.layer_name) × SameTexts render f.properties g.properties)
  unfolding feature_property_key sorted_properties
  feature_property_key_iff f g d c = (
    λ e.
        let (layer, rest) = write_field-injective f.layer_name g.layer_name _ _ e in
        let same = write_properties-injective _ _ rest in
        (
          layer,
          λ name.
              sym (lookup-sort_stable render name f.properties d)
              ∙ (ap (lookup name) same ∙ lookup-sort_stable render name g.properties c),
        ),
    λ (layer, same).
        ap₂ (λ l p. write_field l ++ p) layer
          (write_properties-rendered _ _ (sorted-SameTexts render _ _ d c same)),
  )
