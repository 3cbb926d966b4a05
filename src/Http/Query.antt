-- ===== src/Http/Query.antt =====
-- The point queries of internal/adapters/http/handlers.go, with attachGazetteer of enrich.go and
-- gazetteerSections of gazetteer.go. The parameters of a request are a function from their names,
-- empty for one that is missing; the terrain exposure, of a type `E`, is a parameter.
pub mod Endpoint
pub mod Origin
pub mod Sections
use ortus.Common.{
  ℕ, Bool, true, false, not, ◌&&◌, ◌||◌, Option, none, some, List, [], ◌∷◌, map, elem, Str, bytes,
  str_eq, ◌==◌, if◌then◌else◌,
}
use ortus.Common.Int.{ℤ}
use ortus.Common.Decimal.{atoi}
use ortus.Common.Float.{Float, float_eq, f_zero}
use ortus.Domain.Types.{Coordinate, QueryRequest, QueryResponse}
use ortus.Domain.Coordinates.{srid_wgs84}
use ortus.Domain.Errors.{Error, Result, ok, err, is_not_found}
use ortus.Domain.Paths.{lower_byte}
use ortus.Gazetteer.Salience.{BearingPolicy}
use ortus.Gazetteer.Types.{Locality, Island, Fix, Elevation}
use ortus.Gazetteer.Service.{Service, locate, islands, sample_elevation}
use ortus.Gazetteer.Compass.{Arithmetic}
use ortus.Gazetteer.Bearing.{bearing}
use ortus.Services.Query.{query_point}
use ortus.Http.Batch.{BatchServer, wgs84_or_log, status_of}

pub record QueryParams : Type 0 where
  pub lon : Float
  pub lat : Float
  pub x : Float
  pub y : Float
  pub srid : ℤ
  pub properties : List Str

-- The messages of `parseQueryParams`.
pub data BadParams : Type 0 where
  invalid_number : Str → BadParams
  no_coordinates invalid_srid : BadParams

pub data Parsed (A : Type 0) : Type 0 where
  good : A → Parsed A
  bad : BadParams → Parsed A

-- `strings.Split(s, ",")`
unfoldable pub split_commas : Str → Str × List Str
split_commas [] = ([], [])
split_commas (c ∷ s) =
    let (first, others) = split_commas s in
    if c == b',' then ([], first ∷ others) else (c ∷ first, others)

module _ (a : Arithmetic) where
  -- A coordinate that is missing is zero.
  unfoldable pub parse_number : (Str → Str) → Str → Option Float
  parse_number q name = if str_eq (q name) [] then some f_zero else a.parse_float (q name)

  unfoldable pub parse_srid : (Str → Str) → Option ℤ
  parse_srid q = if str_eq (q (bytes "srid")) [] then some srid_wgs84 else atoi (q (bytes "srid"))

  unfoldable pub parse_properties : (Str → Str) → List Str
  parse_properties q =
      if str_eq (q (bytes "properties")) []
      then []
      else (let (first, others) = split_commas (q (bytes "properties")) in first ∷ others)

  abbrev pub all_zero : Float → Float → Float → Float → Bool
  all_zero lon lat x y =
      float_eq lon f_zero && (float_eq lat f_zero && (float_eq x f_zero && float_eq y f_zero))

  unfoldable pub parse_query_params : (Str → Str) → Parsed QueryParams
  parse_query_params q = elim (parse_number q (bytes "lon")) [
    | none ↦ bad (invalid_number (bytes "lon"))
    | some lon ↦ elim (parse_number q (bytes "lat")) [
      | none ↦ bad (invalid_number (bytes "lat"))
      | some lat ↦ elim (parse_number q (bytes "x")) [
        | none ↦ bad (invalid_number (bytes "x"))
        | some x ↦ elim (parse_number q (bytes "y")) [
          | none ↦ bad (invalid_number (bytes "y"))
          | some y ↦ if all_zero lon lat x y then bad no_coordinates else elim (parse_srid q) [
            | none ↦ bad invalid_srid
            | some srid ↦ good (record {
              lon = lon;
              lat = lat;
              x = x;
              y = y;
              srid = srid;
              properties = parse_properties q;
            })
          ]
        ]
      ]
    ]
  ]

unfoldable pub params_to_coordinate : QueryParams → Coordinate
params_to_coordinate p =
    if not (float_eq p.lon f_zero) || not (float_eq p.lat f_zero)
    then record { x = p.lon; y = p.lat; z = f_zero; srid = p.srid }
    else record { x = p.x; y = p.y; z = f_zero; srid = p.srid }

-- `gazetteerEnrichmentRequested`
unfoldable pub enrichment_requested : (Str → Str) → Bool
enrichment_requested q = not (
    elem (map lower_byte (q (bytes "with-gazetteer")))
      (bytes "0" ∷ bytes "false" ∷ bytes "no" ∷ bytes "off" ∷ []))

-- What an answer carries beside the response: the place in WGS 84, if it is known, and the block of
-- the gazetteer.
pub data Reply (G : Type 0) : Type 0 where
  refusal : ℕ → Reply G
  answer : QueryResponse → Option Coordinate → Option G → Reply G

module _ {W G : Type 0} (a : Arithmetic) (s : BatchServer W G) where
  -- `attachGazetteer`
  unfoldable pub attach_gazetteer : (Str → Str) → Coordinate → Option G
  attach_gazetteer q wgs = elim s.sections [
    | none ↦ none
    | some sections ↦
        if not (enrichment_requested q)
        then none
        else elim (sections wgs) [ err e ↦ none | ok g ↦ some g ]
  ]

  abbrev pub request_of : Str → QueryParams → QueryRequest
  request_of source_id p = record {
    coordinate = params_to_coordinate p;
    source_srid = p.srid;
    properties = p.properties;
    source_id = source_id;
  }

  -- `handleQuery`; `none` is a panic.
  unfoldable pub handle_query : (Str → Str) → Option (Reply G)
  handle_query q = elim (parse_query_params a q) [
    | bad e ↦ some (refusal 400)
    | good p ↦ elim (query_point s.query_service (request_of [] p)) [
      | none ↦ none
      | some (err e) ↦ some (refusal (status_of e))
      | some (ok response) ↦ elim (wgs84_or_log s (params_to_coordinate p)) [
        | none ↦ some (answer response none none)
        | some wgs ↦ some (answer response (some wgs) (attach_gazetteer q wgs))
      ]
    ]
  ]

  -- `handleQuerySource`, whose answer has no block of the gazetteer.
  unfoldable pub handle_query_source : Str → (Str → Str) → Option (Reply G)
  handle_query_source source_id q = elim (parse_query_params a q) [
    | bad e ↦ some (refusal 400)
    | good p ↦ elim (query_point s.query_service (request_of source_id p)) [
      | none ↦ none
      | some (err e) ↦ some (refusal (status_of e))
      | some (ok response) ↦ some (answer response (wgs84_or_log s (params_to_coordinate p)) none)
    ]
  ]

-- The parts of the block of the gazetteer, each absent where there is none. The excerpt of the name
-- sources and the license, which cannot fail, are left out.
pub record GazetteerSections (E : Type 0) : Type 0 where
  pub admin : Option Locality
  pub island_list : List Island
  pub fix : Option Fix
  pub exposure : Option E
  pub elevation : Option Elevation

-- The answer of a part that may find nothing.
abbrev pub found_or_none {ℓ} : {A : Type ℓ} → Result A → Result (Option A)
found_or_none (ok a) = ok (some a)
found_or_none (err e) = if is_not_found e then ok none else err e

module _ {E : Type 0} (a : Arithmetic) (s : Service) (policy : BearingPolicy)
    (exposure_at : Coordinate → Result (Option E)) where
  -- What `gazetteerSections` does behind the bearing.
  unfoldable pub remaining_sections :
      Option Locality → List Island → Option Fix → Coordinate → Result (GazetteerSections E)
  remaining_sections admin island_list fix p = elim (exposure_at p) [
    | err e ↦ err e
    | ok exposure ↦ elim (sample_elevation p s) [
      | err e ↦ err e
      | ok elevation ↦ ok (record {
        admin = admin;
        island_list = island_list;
        fix = fix;
        exposure = exposure;
        elevation = elevation;
      })
    ]
  ]

  -- `gazetteerSections`; the outer `none` is a panic of `Bearing`.
  unfoldable pub gazetteer_sections : Coordinate → Option (Result (GazetteerSections E))
  gazetteer_sections p = elim (found_or_none (locate p s)) [
    | err e ↦ some (err e)
    | ok admin ↦ elim (islands p s) [
      | err e ↦ some (err e)
      | ok island_list ↦ elim (found_or_none (bearing a p policy s)) [
        | err e ↦ some (err e)
        | ok found ↦ elim found [
          | none ↦ some (remaining_sections admin island_list none p)
          | some fix ↦ elim fix [
            | none ↦ none
            | some f ↦ some (remaining_sections admin island_list (some f) p)
          ]
        ]
      ]
    ]
  ]
