-- ===== src/Http/Requests.antt =====
-- A batch of two points, one without coordinates, and an origin under a wildcard.
use ortus.Common.{
  ◌==◌, Bool, ℕ, ◌≡◌, ◌↔◌, inr, refl, true, false, none, some, List, [], ◌∷◌, Str, bytes, str_eq,
  arith,
}
use ortus.Common.Maps.{lookup, insert}
use ortus.Common.Int.{pos}
use ortus.Common.Float.{f_zero}
use ortus.Domain.Errors.{ok}
use ortus.Domain.Paths.{
  derive_source_id, has_suffix, has_prefix, base_name, last_element, strip_slashes, ext_length,
  find_dot,
}
use ortus.Fixtures.{gpkg_adapter, storage}
use ortus.Registry.Types.{SourceRegistry}
use ortus.Registry.Load.{
  load_source, loaded_source_path, load_fresh, provider_for, register, mark_ready, prepare_layers,
  update_metrics, ready_ids,
}
use ortus.Registry.Invariant.{IsValid}
use ortus.Registry.History.{new_source_registry, run, step, load, run-new_source_registry-IsValid}
use ortus.Services.Batch.{resolve_batch_sources}
use ortus.Services.Batch.Layers.{AnswersEach}
use ortus.Http.Batch.{
  BatchPoint, BatchRequest, BatchServer, BatchReply, decoded, handle_query_batch, prefers_ndjson,
}
use ortus.Http.Batch.Items.{Replies, handle_query_batch_lem}
use ortus.Http.Cors.{cors_middleware}
use ortus.Http.Cors.Origins.{IsOrigin, IsAllowed, cors_middleware_iff}

abbrev loaded : SourceRegistry ℕ
loaded =
    run storage (load (bytes "data/lakes.gpkg") ∷ [])
      (new_source_registry (gpkg_adapter ∷ []) (bytes "data") 7)

loaded-IsValid : IsValid AnswersEach loaded
loaded-IsValid =
    run-new_source_registry-IsValid storage AnswersEach (gpkg_adapter ∷ []) (bytes "data") 7
      (load (bytes "data/lakes.gpkg") ∷ []) ((λ batch is. absurd (cc)), tt)

abbrev server : BatchServer ℕ Str
server = record {
  query_service = record { registry = loaded; transformer = none; max_features = pos 10 };
  transformer = none;
  is_supported = λ from to. false;
  sections = some (λ c. ok (bytes "Ochsenfurt"));
  batch_max_points = 100;
  batch_max_sync = 10;
}

abbrev point : BatchPoint
point = record { id = []; lon = some f_zero; lat = some f_zero; x = none; y = none; srid = none }

abbrev request : BatchRequest
request = record {
  srid = pos 0;
  sources = [];
  properties = [];
  with_gazetteer = true;
  points = point ∷ record point { id = bytes "b"; lat = none } ∷ [];
}

-- The connection breaks after the first line.
abbrev one_line : ℕ → Bool
one_line i = i == 0

handle_query_batch_lem_example :
    (reply : BatchReply Str) × (handle_query_batch storage server
        (λ i. true)
        one_line
        (decoded request)
        (bytes "application/x-ndjson")
      ≡ some reply)
    × Replies server one_line
        (bytes "lakes" ∷ [])
        request
        (prefers_ndjson (bytes "application/x-ndjson"))
        reply
unfolding load_source loaded_source_path load_fresh provider_for register mark_ready prepare_layers
    update_metrics has_suffix has_prefix lookup insert str_eq derive_source_id base_name
    last_element strip_slashes ext_length find_dot run step new_source_registry
    resolve_batch_sources ready_ids
handle_query_batch_lem_example =
    handle_query_batch_lem storage server (λ i. true) one_line request
      (bytes "application/x-ndjson") (bytes "lakes" ∷ []) loaded-IsValid refl (omega arith)
      (omega arith) (inr (omega arith))

abbrev patterns : List Str
patterns = bytes "https://example.com" ∷ bytes "*.example.com" ∷ []

sub-IsOrigin : IsOrigin (bytes "https://sub.example.com:8080") (bytes "sub.example.com")
sub-IsOrigin = record {
  scheme = bytes "https";
  port = bytes ":8080";
  written = refl;
  scheme_plain = (refl, (refl, (refl, (refl, (refl, tt)))));
  host_plain = (
    refl,
    (
      refl,
      (
        refl,
        (
          refl,
          (
            refl,
            (refl, (refl, (refl, (refl, (refl, (refl, (refl, (refl, (refl, (refl, tt)))))))))),
          ),
        ),
      ),
    ),
  );
  no_slash = (
    refl,
    (
      refl,
      (
        refl,
        (
          refl,
          (
            refl,
            (refl, (refl, (refl, (refl, (refl, (refl, (refl, (refl, (refl, (refl, tt)))))))))),
          ),
        ),
      ),
    ),
  );
  port_plain = inr (bytes "8080", refl);
}

cors_middleware_iff_example :
    ((cors_middleware patterns (bytes "GET") (bytes "https://sub.example.com:8080")).allow_origin
      ≡ some (bytes "https://sub.example.com:8080"))
    ↔ IsAllowed patterns (bytes "https://sub.example.com:8080") (bytes "sub.example.com")
cors_middleware_iff_example =
    cors_middleware_iff patterns (bytes "GET") (bytes "https://sub.example.com:8080")
      (bytes "sub.example.com") sub-IsOrigin
