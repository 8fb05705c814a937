-- ===== src/Config.antt =====
-- Configuration, gbnet/src/config.rs. A duration is a number of nanoseconds.
pub mod Network
mod Tests
use gbnet.Prelude.{ℕ, ◌*◌, ◌^◌, Bool, true, false}

-- `Duration::from_secs` and `Duration::from_millis`
abbrev pub secs : ℕ → ℕ
secs n = n * 10 ^ 9

abbrev pub millis : ℕ → ℕ
millis n = n * 10 ^ 6

abbrev pub max_backoff_exponent : ℕ
max_backoff_exponent = 5

abbrev default_max_message_size : ℕ
default_max_message_size = 1024 * 1024

abbrev pub default_max_tracked_tokens : ℕ
default_max_tracked_tokens = 4096

abbrev pub default_max_sequence_distance : ℕ
default_max_sequence_distance = 32768

abbrev pub default_max_in_flight : ℕ
default_max_in_flight = 256

pub data DeliveryMode : Type 0 where
  unreliable unreliable_sequenced reliable_unordered reliable_ordered reliable_sequenced :
      DeliveryMode

abbrev pub is_reliable : DeliveryMode → Bool
is_reliable reliable_unordered = true
is_reliable reliable_ordered = true
is_reliable reliable_sequenced = true
is_reliable _ = false

abbrev pub is_sequenced : DeliveryMode → Bool
is_sequenced unreliable_sequenced = true
is_sequenced reliable_sequenced = true
is_sequenced _ = false

abbrev pub is_ordered : DeliveryMode → Bool
is_ordered reliable_ordered = true
is_ordered _ = false

pub record ChannelConfig : Type 0 where
  pub delivery_mode : DeliveryMode
  pub max_message_size : ℕ
  pub message_buffer_size : ℕ
  pub block_on_full : Bool
  pub ordered_buffer_timeout : ℕ
  pub max_ordered_buffer_size : ℕ
  pub max_reliable_retries : ℕ
  pub priority : ℕ

-- `ChannelConfig::default()`
unfoldable pub default_channel_config : ChannelConfig
default_channel_config = record {
  delivery_mode = reliable_ordered;
  max_message_size = default_max_message_size;
  message_buffer_size = 1024;
  block_on_full = false;
  ordered_buffer_timeout = secs 5;
  max_ordered_buffer_size = 1024;
  max_reliable_retries = 10;
  priority = 128;
}

-- The presets `ChannelConfig::unreliable()` and so on, by the mode that each one sets.
unfoldable pub preset : DeliveryMode → ChannelConfig
unfolding default_channel_config
preset mode = record default_channel_config { delivery_mode = mode }
