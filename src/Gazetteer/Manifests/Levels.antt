-- ===== src/Gazetteer/Manifests/Levels.antt =====
-- What a level reference that internal/application/gazetteer/manifest.go accepts knows.
use mathlib.Core.Option.{some-injective}
use ortus.Common.{◌≡◌, subst, false, some, List, [], ◌∷◌, Str, str_eq, if_cases, option_cases}
use ortus.Common.Maps.{Map, lookup}
use ortus.Common.Sort.{All}
use ortus.Common.Int.{ℤ}
use ortus.Domain.Coordinates.{eq_ℤ}
use ortus.Domain.Errors.{Result, ok, err}
use ortus.Gazetteer.Types.{LevelMeaning}
use ortus.Gazetteer.Manifests.{
  is_empty, LevelYaml, LevelRefYaml, LevelReference, lookup_level, resolve_level, levels_of,
  add_country, countries_of, parse_level_reference,
}

abbrev pub IsDefined : Map Str → LevelMeaning → Type 0
IsDefined equivalents m =
    (is_empty m.equivalent ≡ false) × (lookup m.equivalent equivalents ≡ some m.description)

abbrev AllDefined : Map Str → Result (List (ℤ × LevelMeaning)) → Type 0
AllDefined equivalents (err e) = Unit
AllDefined equivalents (ok ms) = All (λ (m : ℤ × LevelMeaning). IsDefined equivalents m.1) ms

levels_of-AllDefined :
    (equivalents : Map Str) (ds : List (ℤ × LevelYaml))
    → AllDefined equivalents (levels_of equivalents ds)
unfolding levels_of
levels_of-AllDefined equivalents [] = tt
levels_of-AllDefined equivalents ((level, d) ∷ ds) =
    let others = levels_of-AllDefined equivalents ds in
    if_cases (AllDefined equivalents) (is_empty d.equivalent) (λ skipped. others)
      λ named.
        option_cases (AllDefined equivalents) (lookup d.equivalent equivalents) (λ unknown. tt)
          (λ description found.
            kept
              (record { equivalent = d.equivalent; description = description; local_term = d.name })
              (levels_of equivalents ds) (named, found) others)
  where
    kept :
        (m : LevelMeaning) (r : Result (List (ℤ × LevelMeaning)))
        → IsDefined equivalents m
        → AllDefined equivalents r
        → AllDefined equivalents (elim r [ err e ↦ err e | ok ms ↦ ok ((level, m) ∷ ms) ])
    kept m (err e) h hs = tt
    kept m (ok ms) h hs = (h, hs)

abbrev Defined : Map Str → LevelReference → Type 0
Defined equivalents ref =
    All
      (λ (c : Str × List (ℤ × LevelMeaning)).
        All (λ (m : ℤ × LevelMeaning). IsDefined equivalents m.1) c.1)
      ref

abbrev IfParsed : Map Str → Result LevelReference → Type 0
IfParsed equivalents (err e) = Unit
IfParsed equivalents (ok ref) = Defined equivalents ref

add_country-Defined :
    (equivalents : Map Str) (iso : Str) (q : Result (List (ℤ × LevelMeaning)))
    (r : Result LevelReference)
    → AllDefined equivalents q
    → IfParsed equivalents r
    → IfParsed equivalents (elim q [
      | err e ↦ err e
      | ok levels ↦ elim r [ err e ↦ err e | ok ref ↦ ok (add_country iso levels ref) ]
    ])
add_country-Defined equivalents iso (err e) r h hs = tt
add_country-Defined equivalents iso (ok ms) (err e) h hs = tt
add_country-Defined equivalents iso (ok []) (ok ref) h hs = hs
add_country-Defined equivalents iso (ok (m ∷ ms)) (ok ref) h hs = (h, hs)

countries_of-Defined :
    (equivalents : Map Str) (countries : Map (List (ℤ × LevelYaml)))
    → IfParsed equivalents (countries_of equivalents countries)
unfolding countries_of
countries_of-Defined equivalents [] = tt
countries_of-Defined equivalents ((iso, ds) ∷ countries) =
    add_country-Defined equivalents iso (levels_of equivalents ds) _
      (levels_of-AllDefined equivalents ds) (countries_of-Defined equivalents countries)

lookup_level-IsDefined :
    (equivalents : Map Str) (level : ℤ) (ms : List (ℤ × LevelMeaning)) (m : LevelMeaning)
    → All (λ (m : ℤ × LevelMeaning). IsDefined equivalents m.1) ms
    → lookup_level level ms ≡ some m
    → IsDefined equivalents m
unfolding lookup_level
lookup_level-IsDefined equivalents level [] m h = λ e. cc
lookup_level-IsDefined equivalents level ((l, d) ∷ ms) m h =
    if_cases (λ o. o ≡ some m → IsDefined equivalents m) (eq_ℤ l level)
      (λ here e. subst (IsDefined equivalents) (some-injective d m e) h.0)
      (λ there. lookup_level-IsDefined equivalents level ms m h.1)

lookup-All :
    {V : Type 0} (P : V → Type 0) (k : Str) (m : Map V) (v : V)
    → All (λ (e : Str × V). P e.1) m
    → lookup k m ≡ some v
    → P v
unfolding lookup
lookup-All P k [] v h = λ e. cc
lookup-All P k ((j, w) ∷ m) v h =
    if_cases (λ o. o ≡ some v → P v) (str_eq j k) (λ here e. subst P (some-injective w v e) h.0)
      (λ there. lookup-All P k m v h.1)

-- Every level that a reference which was accepted knows has a class that the file defines, and the
-- description of that class.
pub parse_level_reference_lem :
    (y : LevelRefYaml) (ref : LevelReference) (iso : Str) (level : ℤ) (m : LevelMeaning)
    → parse_level_reference y ≡ ok ref
    → resolve_level ref iso level ≡ some m
    → IsDefined y.equivalent_levels m
unfolding parse_level_reference resolve_level
parse_level_reference_lem y ref iso level m parsed =
    let defined =
      subst (IfParsed y.equivalent_levels) parsed
        (countries_of-Defined y.equivalent_levels y.countries) in
    option_cases (λ o. o ≡ some m → IsDefined y.equivalent_levels m) (lookup iso ref)
      (λ unknown e. cc)
      (λ levels found. lookup_level-IsDefined y.equivalent_levels level levels m (
        lookup-All (All (λ (m : ℤ × LevelMeaning). IsDefined y.equivalent_levels m.1)) iso ref
          levels defined found))
