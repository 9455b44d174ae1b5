-- ===== src/Config.antt =====
-- pkg/config/config.go: the `Validate` methods. The records hold the fields that the checks read. Go's ints
-- are integers here; the two comparisons of the float `SeedRatio` are given by their results.
pub mod Valid
use afd.Prelude.{
  ℕ, ◌*◌, ◌^◌, Bool, true, false, not, ◌&&◌, ◌||◌, Option, none, some, String, str_eq, arith,
  if◌then◌else◌, ℤ, pos, ltb_ℤ,
}

-- The errors, in the source's order; the wrapped ones carry their cause.
pub data ConfigError : Type 0 where
  bt_port bt_speed_limits bt_max_connections bt_max_peers bt_seed_ratio : ConfigError
  max_connections_range min_chunk_negative max_chunk_low default_chunk_range buffer_small :
      ConfigError
  timeout_short retry_range min_speed_timeout_negative per_server_negative speed_limit_negative :
      ConfigError
  node_id_empty node_name_empty data_dir_empty : ConfigError
  port_range rate_limit_negative tls_files_missing : ConfigError
  grpc_port_range discovery_port_range node_timeout_short nat_no_server : ConfigError
  in_bt in_node in_api in_cluster in_download : ConfigError → ConfigError

pub record BtConfig : Type 0 where
  pub port : ℤ
  pub download_speed_limit : ℤ
  pub upload_speed_limit : ℤ
  pub max_connections : ℤ
  pub max_peers : ℤ
  pub seed_ratio_negative : Bool
  pub seed_ratio_above_100 : Bool

pub record DownloadLimits : Type 0 where
  pub max_connections : ℤ
  pub min_chunk_size : ℤ
  pub max_chunk_size : ℤ
  pub default_chunk_size : ℤ
  pub buffer_size : ℤ
  pub timeout : ℤ
  pub retry_count : ℤ
  pub min_speed_timeout : ℤ
  pub max_per_server_conn : ℤ
  pub speed_limit : ℤ
  pub bt : Option BtConfig

pub record NodeConfig : Type 0 where
  pub id : String
  pub name : String
  pub data_dir : String

pub record ApiSettings : Type 0 where
  pub port : ℤ
  pub rate_limit : ℤ
  pub tls_enabled : Bool
  pub tls_cert_file : String
  pub tls_key_file : String

pub record ClusterConfig : Type 0 where
  pub grpc_port : ℤ
  pub discovery_port : ℤ
  pub node_timeout : ℤ

pub record NatConfig : Type 0 where
  pub enabled : Bool
  pub stun_server : String
  pub signaling_server : String
  pub relay_server : String

pub record Config : Type 0 where
  pub node : NodeConfig
  pub api : ApiSettings
  pub cluster : ClusterConfig
  pub download : DownloadLimits

abbrev pub second : ℕ
second = 10 ^ 9

-- A value out of the bounds.
unfoldable pub outside : ℤ → ℕ → ℕ → Bool
outside v low high = ltb_ℤ v (pos low) || ltb_ℤ (pos high) v

unfoldable pub negative : ℤ → Bool
negative v = ltb_ℤ v (pos 0)

-- The first check that fails; a chain of `if ... { return err }`.
infixr 40 ◌orelse◌
unfoldable pub ◌orelse◌ : Option ConfigError → Option ConfigError → Option ConfigError
none orelse next = next
some e orelse next = some e

abbrev pub check : Bool → ConfigError → Option ConfigError
check bad e = if bad then some e else none

-- `fmt.Errorf("...: %w", err)` of an error, nil of nil.
unfoldable pub wrap : (ConfigError → ConfigError) → Option ConfigError → Option ConfigError
wrap f none = none
wrap f (some e) = some (f e)

unfoldable pub validate_bt : BtConfig → Option ConfigError
unfolding outside negative ◌orelse◌
validate_bt c =
    check (outside c.port 0 65535) bt_port
    orelse check (negative c.download_speed_limit || negative c.upload_speed_limit) bt_speed_limits
    orelse check (outside c.max_connections 0 1000) bt_max_connections
    orelse check (outside c.max_peers 0 1000) bt_max_peers
    orelse check (c.seed_ratio_negative || c.seed_ratio_above_100) bt_seed_ratio

unfoldable pub validate_optional_bt : Option BtConfig → Option ConfigError
unfolding validate_bt wrap
validate_optional_bt none = none
validate_optional_bt (some c) = wrap in_bt (validate_bt c)

unfoldable pub validate_download : DownloadLimits → Option ConfigError
unfolding outside negative ◌orelse◌ validate_optional_bt
validate_download c =
    check (outside c.max_connections 1 64) max_connections_range
    orelse check (negative c.min_chunk_size) min_chunk_negative
    orelse check (ltb_ℤ c.max_chunk_size c.min_chunk_size) max_chunk_low
    orelse check
        (ltb_ℤ c.default_chunk_size c.min_chunk_size || ltb_ℤ c.max_chunk_size c.default_chunk_size)
        default_chunk_range
    orelse check (ltb_ℤ c.buffer_size (pos 1024)) buffer_small
    orelse check (ltb_ℤ c.timeout (pos second)) timeout_short
    orelse check (outside c.retry_count 0 100) retry_range
    orelse check (negative c.min_speed_timeout) min_speed_timeout_negative
    orelse check (negative c.max_per_server_conn) per_server_negative
    orelse check (negative c.speed_limit) speed_limit_negative
    orelse validate_optional_bt c.bt

unfoldable pub validate_node : NodeConfig → Option ConfigError
unfolding ◌orelse◌
validate_node c =
    check (str_eq c.id "") node_id_empty
    orelse check (str_eq c.name "") node_name_empty
    orelse check (str_eq c.data_dir "") data_dir_empty

unfoldable pub validate_api : ApiSettings → Option ConfigError
unfolding outside negative ◌orelse◌
validate_api c =
    check (outside c.port 1 65535) port_range
    orelse check (negative c.rate_limit) rate_limit_negative
    orelse check (c.tls_enabled && (str_eq c.tls_cert_file "" || str_eq c.tls_key_file ""))
        tls_files_missing

unfoldable pub validate_cluster : ClusterConfig → Option ConfigError
unfolding outside ◌orelse◌
validate_cluster c =
    check (outside c.grpc_port 1 65535) grpc_port_range
    orelse check (outside c.discovery_port 1 65535) discovery_port_range
    orelse check (ltb_ℤ c.node_timeout (pos second)) node_timeout_short

unfoldable pub validate_nat : NatConfig → Option ConfigError
validate_nat c =
    check
      (c.enabled
        && str_eq c.stun_server ""
        && str_eq c.signaling_server ""
        && str_eq c.relay_server "")
      nat_no_server

unfoldable pub validate_config : Config → Option ConfigError
unfolding ◌orelse◌ wrap validate_node validate_api validate_cluster validate_download
validate_config c =
    wrap in_node (validate_node c.node)
    orelse wrap in_api (validate_api c.api)
    orelse wrap in_cluster (validate_cluster c.cluster)
    orelse wrap in_download (validate_download c.download)
