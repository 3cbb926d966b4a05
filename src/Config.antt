-- ===== src/Config.antt =====
-- The settings that Validate of internal/config/config.go checks.
pub mod Usable
mod Tests
use ortus.Common.{
  ℕ, Bool, true, false, not, ◌&&◌, ◌||◌, Option, none, some, List, [], ◌∷◌, Str, bytes, str_eq,
  elem, if◌then◌else◌, ◌==◌, length,
}
use ortus.Common.Int.{ℤ, pos, ltb_ℤ}
use ortus.Common.Float.{Float, float_lt, f_zero}

-- The records have the fields that `Validate` reads.
pub record ServerConfig : Type 0 where
  pub port : ℤ

pub record S3Config : Type 0 where
  pub bucket : Str
  pub region : Str

pub record AzureConfig : Type 0 where
  pub container : Str
  pub account_name : Str
  pub connection_string : Str

pub record StorageConfig : Type 0 where
  pub type_name : Str
  pub local_path : Str
  pub base_url : Str
  pub s3 : S3Config
  pub azure : AzureConfig

pub record QueryBatchConfig : Type 0 where
  pub max_points : ℤ
  pub max_sync_points : ℤ
  pub concurrency : ℤ

pub record DnsConfig : Type 0 where
  pub provider : Str
  pub subscription_id : Str
  pub resource_group_name : Str

pub record TlsConfig : Type 0 where
  pub enabled : Bool
  pub domains : List Str
  pub email : Str
  pub dns : DnsConfig

pub record OtlpConfig : Type 0 where
  pub enabled : Bool
  pub endpoint : Str
  pub transport : Str
  pub interval : ℤ

pub record TracingConfig : Type 0 where
  pub enabled : Bool
  pub endpoint : Str
  pub transport : Str
  pub sample_ratio : Float
  pub buffer_size : ℤ

pub record McpConfig : Type 0 where
  pub enabled : Bool
  pub host : Str
  pub port : ℤ
  pub path : Str
  pub token : Str

pub record GazetteerConfig : Type 0 where
  pub enabled : Bool
  pub geopackage_path : Str
  pub manifest_path : Str

pub record Config : Type 0 where
  pub server : ServerConfig
  pub storage : StorageConfig
  pub batch : QueryBatchConfig
  pub tls : TlsConfig
  pub otlp : OtlpConfig
  pub tracing : TracingConfig
  pub mcp : McpConfig
  pub gazetteer : GazetteerConfig

-- The errors, one for each message.
pub data Invalid : Type 0 where
  invalid_port no_domains no_email unsupported_dns no_subscription no_resource_group : Invalid
  unknown_storage no_local_path no_bucket no_region no_container no_account no_base_url : Invalid
  invalid_transport invalid_buffer_size invalid_sample_ratio : Invalid
  no_endpoint invalid_otlp_transport invalid_interval : Invalid
  invalid_mcp_port no_mcp_path invalid_mcp_path no_token : Invalid
  negative_batch sync_over_points : Invalid
  no_geopackage no_manifest : Invalid

-- `if bad { return e }`, then the rest.
abbrev pub guard : Bool → Invalid → Option Invalid → Option Invalid
guard bad e rest = if bad then some e else rest

-- `if err := v; err != nil { return err }`, then the rest.
abbrev pub first : Option Invalid → Option Invalid → Option Invalid
first (some e) rest = some e
first none rest = rest

abbrev pub is_empty : Str → Bool
is_empty s = str_eq s []

abbrev pub is_port : ℤ → Bool
is_port port = not (ltb_ℤ port (pos 1) || ltb_ℤ (pos 65535) port)

unfoldable pub validate_server : ServerConfig → Option Invalid
validate_server s = guard (not (is_port s.port)) invalid_port none

unfoldable pub validate_tls : TlsConfig → Option Invalid
validate_tls t =
    if not t.enabled
    then none
    else guard (length t.domains == 0) no_domains (
        guard (is_empty t.email) no_email (
          guard (not (str_eq t.dns.provider (bytes "azure"))) unsupported_dns (
            guard (is_empty t.dns.subscription_id) no_subscription
              (guard (is_empty t.dns.resource_group_name) no_resource_group none))))

unfoldable pub validate_s3 : S3Config → Option Invalid
validate_s3 s = guard (is_empty s.bucket) no_bucket (guard (is_empty s.region) no_region none)

unfoldable pub validate_azure : AzureConfig → Option Invalid
validate_azure a =
    guard (is_empty a.container) no_container
      (guard (is_empty a.account_name && is_empty a.connection_string) no_account none)

unfoldable pub validate_storage : StorageConfig → Option Invalid
validate_storage s =
    if str_eq s.type_name (bytes "local")
    then guard (is_empty s.local_path) no_local_path none
    else if str_eq s.type_name (bytes "s3")
    then validate_s3 s.s3
    else if str_eq s.type_name (bytes "azure")
    then validate_azure s.azure
    else if str_eq s.type_name (bytes "http")
    then guard (is_empty s.base_url) no_base_url none
    else some unknown_storage

abbrev pub is_transport : Str → Bool
is_transport t = elem t ([] ∷ bytes "http" ∷ bytes "grpc" ∷ [])

-- NaN is neither less than 0 nor more than 1.
unfoldable pub validate_tracing : TracingConfig → Option Invalid
validate_tracing t =
    if not t.enabled
    then none
    else guard (not (is_transport t.transport)) invalid_transport (
        guard (ltb_ℤ t.buffer_size (pos 0)) invalid_buffer_size (
          guard (float_lt t.sample_ratio f_zero || float_lt 0x3FF0000000000000 t.sample_ratio)
            invalid_sample_ratio none))

unfoldable pub metrics_otlp_endpoint : Config → Str
metrics_otlp_endpoint c =
    if not (is_empty c.otlp.endpoint) then c.otlp.endpoint else c.tracing.endpoint

unfoldable pub validate_metrics_otlp : Config → Option Invalid
validate_metrics_otlp c =
    if not c.otlp.enabled
    then none
    else guard (is_empty (metrics_otlp_endpoint c)) no_endpoint (
        guard (not (is_transport c.otlp.transport)) invalid_otlp_transport
          (guard (ltb_ℤ c.otlp.interval (pos 0)) invalid_interval none))

abbrev pub is_slash : Str → Bool
is_slash [] = false
is_slash (c ∷ s) = c == b'/'

abbrev pub is_loopback : Str → Bool
is_loopback host = elem host (bytes "127.0.0.1" ∷ bytes "localhost" ∷ bytes "::1" ∷ [])

unfoldable pub validate_mcp : McpConfig → Option Invalid
validate_mcp m =
    if not m.enabled
    then none
    else guard (not (is_port m.port)) invalid_mcp_port (
        guard (is_empty m.path) no_mcp_path (
          guard (not (is_slash m.path)) invalid_mcp_path
            (guard (not (is_loopback m.host) && is_empty m.token) no_token none)))

unfoldable pub validate_query_batch : QueryBatchConfig → Option Invalid
validate_query_batch b =
    guard
      (ltb_ℤ b.max_points (pos 0)
        || (ltb_ℤ b.max_sync_points (pos 0) || ltb_ℤ b.concurrency (pos 0)))
      negative_batch
      (guard (ltb_ℤ (pos 0) b.max_points && ltb_ℤ b.max_points b.max_sync_points) sync_over_points
        none)

unfoldable pub validate_gazetteer : GazetteerConfig → Option Invalid
validate_gazetteer g =
    if not g.enabled
    then none
    else guard (is_empty g.geopackage_path) no_geopackage
        (guard (is_empty g.manifest_path) no_manifest none)

-- `Validate`
unfoldable pub validate_config : Config → Option Invalid
validate_config c = first (validate_server c.server) (
    first (validate_tls c.tls) (
      first (validate_storage c.storage) (
        first (validate_tracing c.tracing) (
          first (validate_metrics_otlp c) (
            first (validate_mcp c.mcp)
              (first (validate_query_batch c.batch) (validate_gazetteer c.gazetteer)))))))
