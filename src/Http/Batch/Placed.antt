-- ===== src/Http/Batch/Placed.antt =====
-- Where the points of internal/adapters/http/batch.go lie: by their numbers, not by the code.
use ortus.Common.{
  ℕ, ◌≡◌, ◌≢◌, ◌⊎◌, refl, ap, true, false, not, ◌||◌, Option, none, some, [], Str, str_eq_iff,
  arith, inl, inr, if◌then◌else◌, if_cases, option_cases, Bool-cases, bytes,
}
use ortus.Common.Decimal.{itoa}
use ortus.Common.Float.{Float, float_lt, f_zero, f_90, f_180, negate}
use ortus.Common.Int.{ℤ, pos}
use ortus.Domain.Types.{Coordinate}
use ortus.Domain.Coordinates.{eq_ℤ, eq_ℤ→eq, eq_ℤ_refl, srid_wgs84, validate}
use ortus.Domain.Errors.{Error, Result, ok, err, invalid_coordinate, result_cases}
use ortus.Http.Batch.{
  BatchPoint, BatchServer, both, srid_of, coordinates_required, validated, coordinate, id_or,
  wgs84_or_log,
}

-- The point's own id, or its index.
abbrev pub IsId : ℕ → BatchPoint → Str → Type 0
IsId i p id = ((p.id ≢ []) × (id ≡ p.id)) ⊎ ((p.id ≡ []) × (id ≡ itoa i))

pub id_or-IsId : (i : ℕ) (p : BatchPoint) → IsId i p (id_or p i)
unfolding id_or
id_or-IsId i p = ground (arith, str_eq_iff p.id [])

-- The reference system that a number asks for; zero is WGS 84.
abbrev IsSystem : ℤ → ℤ → Type 0
IsSystem asked srid = ((asked ≡ pos 0) × (srid ≡ pos 4326)) ⊎ ((asked ≢ pos 0) × (srid ≡ asked))

-- The reference system of the point, or of the request.
abbrev IsSrid : Option ℤ → ℤ → ℤ → Type 0
IsSrid (some own) asked srid = IsSystem own srid
IsSrid none asked srid = IsSystem asked srid

IsSrid-srid_of : (p : BatchPoint) (srid : ℤ) → IsSrid p.srid srid (srid_of p srid)
IsSrid-srid_of p srid = own p.srid srid
  where
    zero_first : (asked : ℤ) → IsSystem asked (if eq_ℤ asked (pos 0) then srid_wgs84 else asked)
    zero_first asked =
        if_cases (IsSystem asked) (eq_ℤ asked (pos 0))
          (λ unset. inl (eq_ℤ→eq asked (pos 0) unset, refl))
          (λ given. inr (λ e. absurd (cc (given, ap (λ k. eq_ℤ k (pos 0)) e)), refl))

    own :
        (o : Option ℤ) (asked : ℤ)
        → IsSrid o asked (
            let srid : ℤ = elim o [ none ↦ asked | some s ↦ s ] in
            if eq_ℤ srid (pos 0) then srid_wgs84 else srid)
    own none asked = zero_first asked
    own (some s) asked = zero_first s

-- One of the two is missing.
abbrev Lacks : Option Float → Option Float → Type 0
Lacks a b = (a ≡ none) ⊎ (b ≡ none)

-- The numbers are lon and lat if both are given, otherwise x and y.
abbrev pub IsPlace : BatchPoint → ℤ → Coordinate → Type 0
IsPlace p srid c =
    IsSrid p.srid srid c.srid
    × (((p.lon ≡ some c.x) × (p.lat ≡ some c.y))
        ⊎ (Lacks p.lon p.lat × (p.x ≡ some c.x) × (p.y ≡ some c.y)))

-- Beyond the degrees of longitude, or of latitude.
abbrev BeyondLon : Coordinate → Type 0
BeyondLon c = (float_lt c.x (negate f_180) ≡ true) ⊎ (float_lt f_180 c.x ≡ true)

abbrev BeyondLat : Coordinate → Type 0
BeyondLat c = (float_lt c.y (negate f_90) ≡ true) ⊎ (float_lt f_90 c.y ≡ true)

-- Only the degrees of WGS 84 have bounds.
abbrev pub IsInside : Coordinate → Type 0
IsInside c =
    (c.srid ≢ pos 4326)
    ⊎ ((float_lt c.x (negate f_180) ≡ false)
        × (float_lt f_180 c.x ≡ false)
        × (float_lt c.y (negate f_90) ≡ false)
        × (float_lt f_90 c.y ≡ false))

abbrev IsOutside : Coordinate → Error → Type 0
IsOutside c e =
    (c.srid ≡ pos 4326)
    × (((e ≡ invalid_coordinate (bytes "longitude")) × BeyondLon c)
        ⊎ ((e ≡ invalid_coordinate (bytes "latitude")) × BeyondLat c))

-- Neither pair of numbers is given, or the place is out of bounds.
abbrev pub IsUnplaced : BatchPoint → ℤ → Error → Type 0
IsUnplaced p srid e =
    (Lacks p.lon p.lat × Lacks p.x p.y × (e ≡ coordinates_required))
    ⊎ ((c : Coordinate) × IsPlace p srid c × IsOutside c e)

abbrev pub IsPlaced : BatchPoint → ℤ → Result Coordinate → Type 0
IsPlaced p srid (ok c) = IsPlace p srid c × IsInside c
IsPlaced p srid (err e) = IsUnplaced p srid e

validate-IsInside : (c : Coordinate) → validate c ≡ none → IsInside c
unfolding validate
validate-IsInside c h = elim (Bool-cases (eq_ℤ c.srid srid_wgs84)) [
  | inl wgs84 ↦ ground (arith, h, wgs84)
  | inr other ↦ inl (λ e. absurd (cc (other, ap (λ k. eq_ℤ k (pos 4326)) e)))
]

validate-IsOutside : (c : Coordinate) (e : Error) → validate c ≡ some e → IsOutside c e
unfolding validate
validate-IsOutside c e h = elim (Bool-cases (eq_ℤ c.srid srid_wgs84)) [
  | inl wgs84 ↦ (eq_ℤ→eq c.srid srid_wgs84 wgs84, ground (arith, h, wgs84))
  | inr other ↦ absurd (ground (arith, h, other))
]

validated-IsPlaced :
    (p : BatchPoint) (srid : ℤ) (c : Coordinate) → IsPlace p srid c → IsPlaced p srid (validated c)
validated-IsPlaced p srid c is =
    option_cases (IsPlaced p srid) (validate c) (λ valid. (is, validate-IsInside c valid))
      (λ e invalid. inr (c, is, validate-IsOutside c e invalid))

both-some :
    (a b : Option Float) (q : Float × Float) → both a b ≡ some q → (a ≡ some q.0) × (b ≡ some q.1)
both-some none b q h = cc
both-some (some x) none q h = cc
both-some (some x) (some y) q h = (cc, cc)

both-none : (a b : Option Float) → both a b ≡ none → Lacks a b
both-none none b h = inl refl
both-none (some x) none h = inr refl
both-none (some x) (some y) h = cc

pub coordinate-IsPlaced : (p : BatchPoint) (srid : ℤ) → IsPlaced p srid (coordinate p srid)
unfolding coordinate
coordinate-IsPlaced p srid =
    let system = IsSrid-srid_of p srid in
    option_cases (IsPlaced p srid) (both p.lon p.lat)
      (λ no_degrees.
        option_cases (IsPlaced p srid) (both p.x p.y)
          (λ no_pair. inl (both-none p.lon p.lat no_degrees, both-none p.x p.y no_pair, refl))
          (λ q given. validated-IsPlaced p srid _ (
            system,
            inr (
              both-none p.lon p.lat no_degrees,
              (both-some p.x p.y q given).0,
              (both-some p.x p.y q given).1,
            ),
          )))
      (λ q given. validated-IsPlaced p srid _ (system, inl (both-some p.lon p.lat q given)))

module _ {W G : Type 0} (s : BatchServer W G) (c : Coordinate) where
  -- What a transformer that may be missing or fail makes of the place.
  abbrev IsConverted : Option (Coordinate → ℤ → Result Coordinate) → Option Coordinate → Type 0
  IsConverted none w = w ≡ none
  IsConverted (some transform) none =
      (s.is_supported c.srid (pos 4326) ≡ false) ⊎ ((e : Error) × (transform c (pos 4326) ≡ err e))
  IsConverted (some transform) (some w) =
      (s.is_supported c.srid (pos 4326) ≡ true) × (transform c (pos 4326) ≡ ok w)

  -- The place in WGS 84: its own numbers, or what the transformer makes of them.
  abbrev pub IsWgs84 : Option Coordinate → Type 0
  IsWgs84 w =
      (((c.srid ≡ pos 0) ⊎ (c.srid ≡ pos 4326))
        × (w ≡ some (record { x = c.x; y = c.y; z = f_zero; srid = pos 4326 })))
      ⊎ ((c.srid ≢ pos 0) × (c.srid ≢ pos 4326) × IsConverted s.transformer w)

  differs : (k : ℤ) → eq_ℤ c.srid k ≡ false → c.srid ≢ k
  differs k h e = absurd (cc (h, ap (λ j. eq_ℤ j k) e, eq_ℤ_refl k))

  pub wgs84_or_log-IsWgs84 : IsWgs84 (wgs84_or_log s c)
  unfolding wgs84_or_log
  wgs84_or_log-IsWgs84 =
      if_cases IsWgs84 (eq_ℤ c.srid (pos 0) || eq_ℤ c.srid srid_wgs84)
        (λ degrees.
          inl (ground (arith, degrees, eq_ℤ→eq c.srid (pos 0), eq_ℤ→eq c.srid srid_wgs84), refl))
        (λ other. inr (
          differs (pos 0) (ground (arith, other)),
          differs srid_wgs84 (ground (arith, other)),
          converted s.transformer,
        ))
    where
      converted :
          (o : Option (Coordinate → ℤ → Result Coordinate))
          → IsConverted o (elim o [
            | none ↦ none
            | some transform ↦
                if not (s.is_supported c.srid srid_wgs84)
                then none
                else elim (transform c srid_wgs84) [ err e ↦ none | ok w ↦ some w ]
          ])
      converted none = refl
      converted (some transform) =
          if_cases (IsConverted (some transform)) (not (s.is_supported c.srid srid_wgs84))
            (λ unsupported. inl (ground (arith, unsupported)))
            (λ supported.
              result_cases (IsConverted (some transform)) (transform c srid_wgs84)
                (λ e failed. inr (e, failed)) (λ w found. (ground (arith, supported), found)))
