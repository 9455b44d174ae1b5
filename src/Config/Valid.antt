-- ===== src/Config/Valid.antt =====
-- What a configuration that passes its checks is like.
use afd.Prelude.{
  ◌≡◌, ◌↔◌, refl, true, false, Option, none, some, str_eq, arith, pos, ◌≤ℤ◌, Bool-cases, inl, inr,
}
use afd.Config.{
  ConfigError, BtConfig, DownloadLimits, NodeConfig, ApiSettings, ClusterConfig, Config, second,
  outside, negative, ◌orelse◌, wrap, in_bt, in_node, in_api, in_cluster, in_download, validate_bt,
  validate_optional_bt, validate_download, validate_node, validate_api, validate_cluster,
  validate_config,
}

pub record BtValid (c : BtConfig) : Type 0 where
  pub port : (pos 0 ≤ℤ c.port) × (c.port ≤ℤ pos 65535)
  pub speeds : (pos 0 ≤ℤ c.download_speed_limit) × (pos 0 ≤ℤ c.upload_speed_limit)
  pub connections : (pos 0 ≤ℤ c.max_connections) × (c.max_connections ≤ℤ pos 1000)
  pub peers : (pos 0 ≤ℤ c.max_peers) × (c.max_peers ≤ℤ pos 1000)
  pub seed_ratio : (c.seed_ratio_negative ≡ false) × (c.seed_ratio_above_100 ≡ false)

validate_bt-none : (c : BtConfig) → (validate_bt c ≡ none) ↔ BtValid c
unfolding validate_bt outside negative ◌orelse◌
validate_bt-none c = (
  λ h. record {
    port = ground (arith, h);
    speeds = ground (arith, h);
    connections = ground (arith, h);
    peers = ground (arith, h);
    seed_ratio = ground (arith, h);
  },
  λ v. ground (arith, v.port, v.speeds, v.connections, v.peers, v.seed_ratio),
)

unfoldable pub BtPartValid : Option BtConfig → Type 0
BtPartValid none = Unit
BtPartValid (some c) = BtValid c

wrap-none :
    (f : ConfigError → ConfigError) (o : Option ConfigError) → (wrap f o ≡ none) ↔ (o ≡ none)
unfolding wrap
wrap-none f none = (λ h. refl, λ h. refl)
wrap-none f (some e) = (λ h. absurd (ground (arith, h)), λ h. absurd (ground (arith, h)))

validate_optional_bt-none : (o : Option BtConfig) → (validate_optional_bt o ≡ none) ↔ BtPartValid o
unfolding validate_optional_bt BtPartValid
validate_optional_bt-none none = (λ h. tt, λ h. refl)
validate_optional_bt-none (some c) = (
  λ h. (validate_bt-none c).0 ((wrap-none in_bt (validate_bt c)).0 h),
  λ v. (wrap-none in_bt (validate_bt c)).1 ((validate_bt-none c).1 v),
)

pub record DownloadValid (c : DownloadLimits) : Type 0 where
  pub connections : (pos 1 ≤ℤ c.max_connections) × (c.max_connections ≤ℤ pos 64)
  pub chunks :
      (pos 0 ≤ℤ c.min_chunk_size)
      × (c.min_chunk_size ≤ℤ c.default_chunk_size)
      × (c.default_chunk_size ≤ℤ c.max_chunk_size)
  pub buffer : pos 1024 ≤ℤ c.buffer_size
  pub times : (pos second ≤ℤ c.timeout) × (pos 0 ≤ℤ c.min_speed_timeout)
  pub retries : (pos 0 ≤ℤ c.retry_count) × (c.retry_count ≤ℤ pos 100)
  pub limits : (pos 0 ≤ℤ c.max_per_server_conn) × (pos 0 ≤ℤ c.speed_limit)
  pub bt_part : BtPartValid c.bt

validate_download-none : (c : DownloadLimits) → (validate_download c ≡ none) ↔ DownloadValid c
unfolding validate_download outside negative ◌orelse◌
validate_download-none c = (
  λ h. record {
    connections = ground (arith, h);
    chunks = ground (arith, h);
    buffer = ground (arith, h);
    times = ground (arith, h);
    retries = ground (arith, h);
    limits = ground (arith, h);
    bt_part = (validate_optional_bt-none c.bt).0 (ground (arith, h));
  },
  λ v. ground (
    arith,
    v.connections,
    v.chunks,
    v.buffer,
    v.times,
    v.retries,
    v.limits,
    (validate_optional_bt-none c.bt).1 v.bt_part,
  ),
)

pub record NodeValid (c : NodeConfig) : Type 0 where
  pub id : str_eq c.id "" ≡ false
  pub name : str_eq c.name "" ≡ false
  pub data_dir : str_eq c.data_dir "" ≡ false

validate_node-none : (c : NodeConfig) → (validate_node c ≡ none) ↔ NodeValid c
unfolding validate_node ◌orelse◌
validate_node-none c = (
  λ h. record { id = ground (arith, h); name = ground (arith, h); data_dir = ground (arith, h) },
  λ v. ground (arith, v.id, v.name, v.data_dir),
)

-- With TLS both files are named.
pub record ApiValid (c : ApiSettings) : Type 0 where
  pub port : (pos 1 ≤ℤ c.port) × (c.port ≤ℤ pos 65535)
  pub rate : pos 0 ≤ℤ c.rate_limit
  pub files :
      c.tls_enabled ≡ true
      → (str_eq c.tls_cert_file "" ≡ false) × (str_eq c.tls_key_file "" ≡ false)

validate_api-none : (c : ApiSettings) → (validate_api c ≡ none) ↔ ApiValid c
unfolding validate_api outside negative ◌orelse◌
validate_api-none c = (
  λ h. record {
    port = ground (arith, h);
    rate = ground (arith, h);
    files = λ on. (ground (arith, h, on), ground (arith, h, on));
  },
  λ v. elim (Bool-cases c.tls_enabled) [
    | inl on ↦ ground (arith, v.port, v.rate, v.files on, on)
    | inr off ↦ ground (arith, v.port, v.rate, off)
  ],
)

pub record ClusterValid (c : ClusterConfig) : Type 0 where
  pub grpc : (pos 1 ≤ℤ c.grpc_port) × (c.grpc_port ≤ℤ pos 65535)
  pub discovery : (pos 1 ≤ℤ c.discovery_port) × (c.discovery_port ≤ℤ pos 65535)
  pub timeout : pos second ≤ℤ c.node_timeout

validate_cluster-none : (c : ClusterConfig) → (validate_cluster c ≡ none) ↔ ClusterValid c
unfolding validate_cluster outside ◌orelse◌
validate_cluster-none c = (
  λ h. record {
    grpc = ground (arith, h);
    discovery = ground (arith, h);
    timeout = ground (arith, h);
  },
  λ v. ground (arith, v.grpc, v.discovery, v.timeout),
)

pub record ConfigValid (c : Config) : Type 0 where
  pub node : NodeValid c.node
  pub api : ApiValid c.api
  pub cluster : ClusterValid c.cluster
  pub download : DownloadValid c.download

orelse-none : (a b : Option ConfigError) → (a orelse b ≡ none) ↔ ((a ≡ none) × (b ≡ none))
unfolding ◌orelse◌
orelse-none none b = (λ h. (refl, h), λ h. h.1)
orelse-none (some e) b = (λ h. absurd (ground (arith, h)), λ h. absurd (ground (arith, h)))

-- `Config.Validate` accepts a configuration exactly if every part of it lies within its bounds.
pub validate_config-none : (c : Config) → (validate_config c ≡ none) ↔ ConfigValid c
unfolding validate_config
validate_config-none c = (
  λ h.
      let (n, rest) = (orelse-none (wrap in_node (validate_node c.node)) _).0 h in
      let (a, rest') = (orelse-none (wrap in_api (validate_api c.api)) _).0 rest in
      let (k, d) = (orelse-none (wrap in_cluster (validate_cluster c.cluster)) _).0 rest' in
      record {
        node = (validate_node-none c.node).0 ((wrap-none in_node _).0 n);
        api = (validate_api-none c.api).0 ((wrap-none in_api _).0 a);
        cluster = (validate_cluster-none c.cluster).0 ((wrap-none in_cluster _).0 k);
        download = (validate_download-none c.download).0 ((wrap-none in_download _).0 d);
      },
  λ v. (orelse-none _ _).1 (
    (wrap-none in_node _).1 ((validate_node-none c.node).1 v.node),
    (orelse-none _ _).1 (
      (wrap-none in_api _).1 ((validate_api-none c.api).1 v.api),
      (orelse-none _ _).1 (
        (wrap-none in_cluster _).1 ((validate_cluster-none c.cluster).1 v.cluster),
        (wrap-none in_download _).1 ((validate_download-none c.download).1 v.download),
      ),
    ),
  ),
)
