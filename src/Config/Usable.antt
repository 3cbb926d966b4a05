-- ===== src/Config/Usable.antt =====
-- What settings pass Validate of internal/config/config.go.
use ortus.Common.{
  ◌≡◌, ◌≢◌, ◌⊎◌, ◌↔◌, Bool, true, false, Option, none, [], Str, bytes, str_eq_iff, elem, arith,
}
use ortus.Common.Int.{ℤ, pos, ◌≤ℤ◌, eq_of_parts}
use ortus.Common.Float.{float_lt, f_zero}
use ortus.Config.{
  ServerConfig, StorageConfig, QueryBatchConfig, TlsConfig, TracingConfig, McpConfig,
  GazetteerConfig, Config, Invalid, first, is_slash, is_transport, is_loopback, validate_server,
  validate_tls, validate_s3, validate_azure, validate_storage, validate_tracing,
  metrics_otlp_endpoint, validate_metrics_otlp, validate_mcp, validate_query_batch,
  validate_gazetteer, validate_config,
}

abbrev IsPort : ℤ → Type 0
IsPort port = (pos 1 ≤ℤ port) × (port ≤ℤ pos 65535)

abbrev Disabled : Bool → Type 0
Disabled enabled = enabled ≡ false

abbrev IsTls : TlsConfig → Type 0
IsTls t =
    (t.domains ≢ [])
    × (t.email ≢ [])
    × (t.dns.provider ≡ bytes "azure")
    × (t.dns.subscription_id ≢ [])
    × (t.dns.resource_group_name ≢ [])

validate_server_iff : (s : ServerConfig) → (validate_server s ≡ none) ↔ IsPort s.port
unfolding validate_server
validate_server_iff s = ground arith

validate_tls_iff : (t : TlsConfig) → (validate_tls t ≡ none) ↔ (Disabled t.enabled ⊎ IsTls t)
unfolding validate_tls
validate_tls_iff t = ground (
  arith,
  str_eq_iff t.email [],
  str_eq_iff t.dns.provider (bytes "azure"),
  str_eq_iff t.dns.subscription_id [],
  str_eq_iff t.dns.resource_group_name [],
)

abbrev IsLocal : StorageConfig → Type 0
IsLocal s = (s.type_name ≡ bytes "local") × (s.local_path ≢ [])

abbrev IsS3 : StorageConfig → Type 0
IsS3 s = (s.type_name ≡ bytes "s3") × (s.s3.bucket ≢ []) × (s.s3.region ≢ [])

abbrev IsAzure : StorageConfig → Type 0
IsAzure s =
    (s.type_name ≡ bytes "azure")
    × (s.azure.container ≢ [])
    × ((s.azure.account_name ≢ []) ⊎ (s.azure.connection_string ≢ []))

abbrev IsHttp : StorageConfig → Type 0
IsHttp s = (s.type_name ≡ bytes "http") × (s.base_url ≢ [])

abbrev IsStorage : StorageConfig → Type 0
IsStorage s = IsLocal s ⊎ (IsS3 s ⊎ (IsAzure s ⊎ IsHttp s))

validate_storage_iff : (s : StorageConfig) → (validate_storage s ≡ none) ↔ IsStorage s
unfolding validate_storage validate_s3 validate_azure
validate_storage_iff s = ground (
  arith,
  str_eq_iff s.type_name (bytes "local"),
  str_eq_iff s.type_name (bytes "s3"),
  str_eq_iff s.type_name (bytes "azure"),
  str_eq_iff s.type_name (bytes "http"),
  str_eq_iff s.local_path [],
  str_eq_iff s.s3.bucket [],
  str_eq_iff s.s3.region [],
  str_eq_iff s.azure.container [],
  str_eq_iff s.azure.account_name [],
  str_eq_iff s.azure.connection_string [],
  str_eq_iff s.base_url [],
)

abbrev IsTransport : Str → Type 0
IsTransport t = (t ≡ []) ⊎ ((t ≡ bytes "http") ⊎ (t ≡ bytes "grpc"))

is_transport_iff : (t : Str) → (is_transport t ≡ true) ↔ IsTransport t
unfolding elem
is_transport_iff t =
    ground (arith, str_eq_iff [] t, str_eq_iff (bytes "http") t, str_eq_iff (bytes "grpc") t)

-- A ratio of NaN counts as one.
abbrev IsTracing : TracingConfig → Type 0
IsTracing t =
    IsTransport t.transport
    × (pos 0 ≤ℤ t.buffer_size)
    × (float_lt t.sample_ratio f_zero ≡ false)
    × (float_lt 0x3FF0000000000000 t.sample_ratio ≡ false)

validate_tracing_iff :
    (t : TracingConfig) → (validate_tracing t ≡ none) ↔ (Disabled t.enabled ⊎ IsTracing t)
unfolding validate_tracing
validate_tracing_iff t = ground (arith, is_transport_iff t.transport)

abbrev IsExport : Config → Type 0
IsExport c =
    ((c.otlp.endpoint ≢ []) ⊎ (c.tracing.endpoint ≢ []))
    × IsTransport c.otlp.transport
    × (pos 0 ≤ℤ c.otlp.interval)

validate_metrics_otlp_iff :
    (c : Config) → (validate_metrics_otlp c ≡ none) ↔ (Disabled c.otlp.enabled ⊎ IsExport c)
unfolding validate_metrics_otlp metrics_otlp_endpoint
validate_metrics_otlp_iff c = ground (
  arith,
  is_transport_iff c.otlp.transport,
  str_eq_iff c.otlp.endpoint [],
  str_eq_iff c.tracing.endpoint [],
)

abbrev IsLoopback : Str → Type 0
IsLoopback host = (host ≡ bytes "127.0.0.1") ⊎ ((host ≡ bytes "localhost") ⊎ (host ≡ bytes "::1"))

is_loopback_iff : (host : Str) → (is_loopback host ≡ true) ↔ IsLoopback host
unfolding elem
is_loopback_iff host = ground (
  arith,
  str_eq_iff (bytes "127.0.0.1") host,
  str_eq_iff (bytes "localhost") host,
  str_eq_iff (bytes "::1") host,
)

abbrev IsMcp : McpConfig → Type 0
IsMcp m = IsPort m.port × (is_slash m.path ≡ true) × (IsLoopback m.host ⊎ (m.token ≢ []))

validate_mcp_iff : (m : McpConfig) → (validate_mcp m ≡ none) ↔ (Disabled m.enabled ⊎ IsMcp m)
unfolding validate_mcp
validate_mcp_iff m =
    ground (arith, is_loopback_iff m.host, str_eq_iff m.path [], str_eq_iff m.token [])

abbrev IsBatch : QueryBatchConfig → Type 0
IsBatch b =
    (pos 0 ≤ℤ b.max_points)
    × (pos 0 ≤ℤ b.max_sync_points)
    × (pos 0 ≤ℤ b.concurrency)
    × ((b.max_points ≡ pos 0) ⊎ (b.max_sync_points ≤ℤ b.max_points))

validate_query_batch_iff : (b : QueryBatchConfig) → (validate_query_batch b ≡ none) ↔ IsBatch b
unfolding validate_query_batch
validate_query_batch_iff b = ground (arith, eq_of_parts b.max_points (pos 0))

abbrev IsGazetteer : GazetteerConfig → Type 0
IsGazetteer g = (g.geopackage_path ≢ []) × (g.manifest_path ≢ [])

validate_gazetteer_iff :
    (g : GazetteerConfig) → (validate_gazetteer g ≡ none) ↔ (Disabled g.enabled ⊎ IsGazetteer g)
unfolding validate_gazetteer
validate_gazetteer_iff g =
    ground (arith, str_eq_iff g.geopackage_path [], str_eq_iff g.manifest_path [])

pub record IsUsable (c : Config) : Type 0 where
  pub server : IsPort c.server.port
  pub tls : Disabled c.tls.enabled ⊎ IsTls c.tls
  pub storage : IsStorage c.storage
  pub tracing : Disabled c.tracing.enabled ⊎ IsTracing c.tracing
  pub export : Disabled c.otlp.enabled ⊎ IsExport c
  pub mcp : Disabled c.mcp.enabled ⊎ IsMcp c.mcp
  pub batch : IsBatch c.batch
  pub gazetteer : Disabled c.gazetteer.enabled ⊎ IsGazetteer c.gazetteer

first_iff : (o p : Option Invalid) → (first o p ≡ none) ↔ ((o ≡ none) × (p ≡ none))
first_iff o p = ground arith

-- The settings pass exactly if the server has a port, the storage is of a known type with what that
-- type needs, the limits on batches are not negative and agree, and each of TLS, tracing, the export
-- of metrics, MCP and the gazetteer is off or has what it needs: MCP an address on this host or a
-- token.
pub validate_config_iff : (c : Config) → (validate_config c ≡ none) ↔ IsUsable c
unfolding validate_config
validate_config_iff c = (
  λ h.
      let a = (first_iff (validate_server c.server) _).0 h in
      let b = (first_iff (validate_tls c.tls) _).0 a.1 in
      let d = (first_iff (validate_storage c.storage) _).0 b.1 in
      let e = (first_iff (validate_tracing c.tracing) _).0 d.1 in
      let f = (first_iff (validate_metrics_otlp c) _).0 e.1 in
      let g = (first_iff (validate_mcp c.mcp) _).0 f.1 in
      let i = (first_iff (validate_query_batch c.batch) (validate_gazetteer c.gazetteer)).0 g.1 in
      record {
        server = (validate_server_iff c.server).0 a.0;
        tls = (validate_tls_iff c.tls).0 b.0;
        storage = (validate_storage_iff c.storage).0 d.0;
        tracing = (validate_tracing_iff c.tracing).0 e.0;
        export = (validate_metrics_otlp_iff c).0 f.0;
        mcp = (validate_mcp_iff c.mcp).0 g.0;
        batch = (validate_query_batch_iff c.batch).0 i.0;
        gazetteer = (validate_gazetteer_iff c.gazetteer).0 i.1;
      },
  λ u. cc (
    (validate_server_iff c.server).1 u.server,
    (validate_tls_iff c.tls).1 u.tls,
    (validate_storage_iff c.storage).1 u.storage,
    (validate_tracing_iff c.tracing).1 u.tracing,
    (validate_metrics_otlp_iff c).1 u.export,
    (validate_mcp_iff c.mcp).1 u.mcp,
    (validate_query_batch_iff c.batch).1 u.batch,
    (validate_gazetteer_iff c.gazetteer).1 u.gazetteer,
  ),
)
