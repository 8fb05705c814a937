-- ===== src/Config/Network.antt =====
-- `NetworkConfig` and its validation, gbnet/src/config.rs. The floats, which are f32, are a
-- parameter.
use gbnet.Prelude.{
  ℕ, ◌+◌, ◌-◌, ◌*◌, ◌≤◌, ◌<◌, ◌≡◌, Bool, true, false, not, ◌&&◌, ◌||◌, Option, none, List, [], ◌++◌,
  Result, ok, err, ◌↔◌, arith, ltb, leb, ◌==◌, if◌then◌else◌, length, set, replicate,
}
use gbnet.Float.{Float}
use gbnet.Config.{
  ChannelConfig, default_channel_config, secs, millis, default_max_sequence_distance,
  default_max_in_flight, default_max_tracked_tokens,
}

abbrev pub min_mtu : ℕ
min_mtu = 576

abbrev pub max_mtu : ℕ
max_mtu = 65535

abbrev pub max_channel_count : ℕ
max_channel_count = 256

pub data ConfigError : Type 0 where
  fragment_threshold_exceeds_mtu invalid_channel_count invalid_packet_buffer_size invalid_mtu :
      ConfigError
  timeout_not_greater_than_keepalive invalid_max_clients channel_configs_exceed_max_channels :
      ConfigError
  invalid_send_rate invalid_max_packet_rate invalid_max_in_flight invalid_fragment_threshold :
      ConfigError
  send_rate_exceeds_max_packet_rate invalid_congestion_threshold : ConfigError

-- `SimulationConfig` of gbnet/src/simulator.rs
pub record SimulationConfig {ℓ} (V : Type ℓ) : Type ℓ where
  pub packet_loss : V
  pub latency_ms : ℕ
  pub jitter_ms : ℕ
  pub duplicate_chance : V
  pub out_of_order_chance : V
  pub bandwidth_limit_bytes_per_sec : ℕ

pub record NetworkConfig {ℓ} (V : Type ℓ) : Type ℓ where
  pub protocol_id : ℕ
  pub max_clients : ℕ
  pub connection_timeout : ℕ
  pub keepalive_interval : ℕ
  pub connection_request_timeout : ℕ
  pub connection_request_max_retries : ℕ
  pub mtu : ℕ
  pub fragment_threshold : ℕ
  pub fragment_timeout : ℕ
  pub max_fragments : ℕ
  pub max_reassembly_buffer_size : ℕ
  pub packet_buffer_size : ℕ
  pub ack_buffer_size : ℕ
  pub max_sequence_distance : ℕ
  pub reliable_retry_time : ℕ
  pub max_reliable_retries : ℕ
  pub max_in_flight : ℕ
  pub max_channels : ℕ
  pub default_channel : ChannelConfig
  pub channel_configs : List ChannelConfig
  pub send_rate : V
  pub max_packet_rate : V
  pub congestion_threshold : V
  pub encryption : Bool
  pub encryption_key : Option (List ℕ)
  pub max_tracked_tokens : ℕ
  pub congestion_good_rtt_threshold : V
  pub congestion_bad_loss_threshold : V
  pub congestion_recovery_time : ℕ
  pub simulation : Option (SimulationConfig V)
  pub disconnect_retries : ℕ
  pub disconnect_retry_timeout : ℕ
  pub max_bandwidth_bytes_per_sec : ℕ
  pub max_pending : ℕ
  pub rate_limit_per_second : ℕ
  pub enable_stateless_cookie : Bool
  pub use_cwnd_congestion : Bool
  pub delta_baseline_timeout : ℕ
  pub max_baseline_snapshots : ℕ
  pub enable_connection_migration : Bool

module _ {ℓ} {V : Type ℓ} ⦃v : Float V⦄ where
  abbrev pub is_valid_positive_f32 : V → Bool
  is_valid_positive_f32 x = v.lt (v.ratio 0 1) x && not (v.is_nan x)

  unfoldable pub validate : NetworkConfig V → Result (Unit {0}) ConfigError
  validate c =
      if ltb c.mtu c.fragment_threshold
      then err fragment_threshold_exceeds_mtu
      else if c.max_channels == 0 || ltb max_channel_count c.max_channels
      then err invalid_channel_count
      else if c.packet_buffer_size == 0
      then err invalid_packet_buffer_size
      else if ltb c.mtu min_mtu || ltb max_mtu c.mtu
      then err invalid_mtu
      else if leb c.connection_timeout c.keepalive_interval
      then err timeout_not_greater_than_keepalive
      else if c.max_clients == 0
      then err invalid_max_clients
      else if ltb c.max_channels (length c.channel_configs)
      then err channel_configs_exceed_max_channels
      else if not (is_valid_positive_f32 c.send_rate)
      then err invalid_send_rate
      else if not (is_valid_positive_f32 c.max_packet_rate)
      then err invalid_max_packet_rate
      else if c.max_in_flight == 0
      then err invalid_max_in_flight
      else if c.fragment_threshold == 0
      then err invalid_fragment_threshold
      else if v.lt c.max_packet_rate c.send_rate
      then err send_rate_exceeds_max_packet_rate
      else if not (v.is_finite c.congestion_good_rtt_threshold)
          || not (v.is_finite c.congestion_bad_loss_threshold)
          || not (v.is_finite c.congestion_threshold)
      then err invalid_congestion_threshold
      else ok tt

  -- `NetworkConfig::default()`
  unfoldable pub default_network_config : NetworkConfig V
  unfolding default_channel_config
  default_network_config = record {
    protocol_id = 0x12345678;
    max_clients = 64;
    connection_timeout = secs 10;
    keepalive_interval = secs 1;
    connection_request_timeout = secs 5;
    connection_request_max_retries = 5;
    mtu = 1200;
    fragment_threshold = 1024;
    fragment_timeout = secs 5;
    max_fragments = 256;
    max_reassembly_buffer_size = 1024 * 1024;
    packet_buffer_size = 256;
    ack_buffer_size = 256;
    max_sequence_distance = default_max_sequence_distance;
    reliable_retry_time = millis 100;
    max_reliable_retries = 10;
    max_in_flight = default_max_in_flight;
    max_channels = 8;
    default_channel = default_channel_config;
    channel_configs = [];
    send_rate = v.ratio 60 1;
    max_packet_rate = v.ratio 120 1;
    congestion_threshold = v.ratio 1 10;
    encryption = false;
    encryption_key = none;
    max_tracked_tokens = default_max_tracked_tokens;
    congestion_good_rtt_threshold = v.ratio 250 1;
    congestion_bad_loss_threshold = v.ratio 1 10;
    congestion_recovery_time = secs 10;
    simulation = none;
    disconnect_retries = 3;
    disconnect_retry_timeout = millis 500;
    max_bandwidth_bytes_per_sec = 0;
    max_pending = 256;
    rate_limit_per_second = 10;
    enable_stateless_cookie = true;
    use_cwnd_congestion = false;
    delta_baseline_timeout = secs 2;
    max_baseline_snapshots = 32;
    enable_connection_migration = false;
  }

  -- `resize` with the default: `with_channel_config` fills up to the index.
  unfoldable pub with_channel_config : NetworkConfig V → ℕ → ChannelConfig → NetworkConfig V
  unfolding default_channel_config
  with_channel_config c index config =
      let missing = index + 1 - length c.channel_configs in
      let filled = c.channel_configs ++ replicate missing default_channel_config in
      record c { channel_configs = set filled index config }

  -- What a client and a server rely on of a configuration.
  pub record IsUsable (c : NetworkConfig V) : Type 0 where
    pub fragments_fit : (0 < c.fragment_threshold) × (c.fragment_threshold ≤ c.mtu)
    pub mtu_range : (min_mtu ≤ c.mtu) × (c.mtu ≤ max_mtu)
    pub channels : (0 < c.max_channels) × (c.max_channels ≤ max_channel_count)
    pub configured : length c.channel_configs ≤ c.max_channels
    pub buffered : 0 < c.packet_buffer_size
    pub in_flight : 0 < c.max_in_flight
    pub clients : 0 < c.max_clients
    pub alive : c.keepalive_interval < c.connection_timeout
    pub rate : is_valid_positive_f32 c.send_rate ≡ true
    pub packet_rate : is_valid_positive_f32 c.max_packet_rate ≡ true
    pub rates : v.lt c.max_packet_rate c.send_rate ≡ false
    pub good_rtt : v.is_finite c.congestion_good_rtt_threshold ≡ true
    pub bad_loss : v.is_finite c.congestion_bad_loss_threshold ≡ true
    pub threshold : v.is_finite c.congestion_threshold ≡ true

  -- Validation accepts exactly the configurations that meet every condition.
  pub validate_iff : (c : NetworkConfig V) → (validate c ≡ ok tt) ↔ IsUsable c
  unfolding validate
  validate_iff c = (
    λ h. record {
      fragments_fit = ground (arith, h);
      mtu_range = ground (arith, h);
      channels = ground (arith, h);
      configured = ground (arith, h);
      buffered = ground (arith, h);
      in_flight = ground (arith, h);
      clients = ground (arith, h);
      alive = ground (arith, h);
      rate = ground (arith, h);
      packet_rate = ground (arith, h);
      rates = ground (arith, h);
      good_rtt = ground (arith, h);
      bad_loss = ground (arith, h);
      threshold = ground (arith, h);
    },
    λ u. ground (
      arith, u.fragments_fit, u.mtu_range, u.channels, u.configured, u.buffered, u.in_flight,
      u.clients, u.alive, u.rate, u.packet_rate, u.rates, u.good_rtt, u.bad_loss, u.threshold,
    ),
  )
