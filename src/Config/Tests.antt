-- ===== src/Config/Tests.antt =====
-- Settings that Validate of internal/config/config.go takes and refuses.
use ortus.Common.{◌≡◌, refl, ◌↔◌, true, false, none, some, [], bytes, str_eq, elem}
use ortus.Common.Int.{pos}
use ortus.Common.Float.{float_lt, f_zero}
use ortus.Config.{
  Config, no_token, validate_config, validate_server, validate_tls, validate_storage,
  validate_tracing, validate_metrics_otlp, validate_mcp, validate_query_batch, validate_gazetteer,
}
use ortus.Config.Usable.{IsUsable, validate_config_iff}

abbrev local_config : Config
local_config = record {
  server = record { port = pos 8080 };
  storage = record {
    type_name = bytes "local";
    local_path = bytes "data";
    base_url = [];
    s3 = record { bucket = []; region = [] };
    azure = record { container = []; account_name = []; connection_string = [] };
  };
  batch = record { max_points = pos 0; max_sync_points = pos 1000; concurrency = pos 4 };
  tls = record {
    enabled = false;
    domains = [];
    email = [];
    dns = record { provider = []; subscription_id = []; resource_group_name = [] };
  };
  otlp = record { enabled = false; endpoint = []; transport = []; interval = pos 0 };
  tracing = record {
    enabled = true;
    endpoint = [];
    transport = bytes "http";
    sample_ratio = f_zero;
    buffer_size = pos 100;
  };
  mcp = record {
    enabled = true;
    host = bytes "127.0.0.1";
    port = pos 9000;
    path = bytes "/mcp";
    token = [];
  };
  gazetteer = record { enabled = false; geopackage_path = []; manifest_path = [] };
}

accepted : validate_config local_config ≡ none
unfolding validate_config validate_server validate_tls validate_storage validate_tracing
    validate_metrics_otlp validate_mcp validate_query_batch validate_gazetteer str_eq elem float_lt
accepted = refl

-- Without a host MCP listens on all addresses, and needs a token.
exposed :
    validate_config (record local_config { mcp = record local_config.mcp { host = [] } })
    ≡ some no_token
unfolding validate_config validate_server validate_tls validate_storage validate_tracing
    validate_metrics_otlp validate_mcp validate_query_batch validate_gazetteer str_eq elem float_lt
exposed = refl

validate_config_iff_example : (validate_config local_config ≡ none) ↔ IsUsable local_config
validate_config_iff_example = validate_config_iff local_config
