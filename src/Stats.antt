-- ===== src/Stats.antt =====
-- The statistics of a connection, gbnet/src/stats.rs. Floats are a parameter.
use gbnet.Prelude.{ℕ, ◌&&◌, if◌then◌else◌}
use gbnet.Float.{Float}

pub data ConnectionQuality : Type 0 where
  good fair poor : ConnectionQuality

-- `NetworkStats` of gbnet/src/stats.rs
pub record NetworkStats {ℓ} (V : Type ℓ) : Type ℓ where
  pub packets_sent : ℕ
  pub packets_received : ℕ
  pub bytes_sent : ℕ
  pub bytes_received : ℕ
  pub packet_loss : V
  pub rtt : V
  pub bandwidth_up : V
  pub bandwidth_down : V
  pub send_errors : ℕ
  pub connection_quality : ConnectionQuality

module _ {ℓ} {V : Type ℓ} ⦃v : Float V⦄ where
  unfoldable pub assess_connection_quality : V → V → ConnectionQuality
  assess_connection_quality rtt_ms loss_percent =
      if v.lt rtt_ms (v.ratio 100 1) && v.lt loss_percent (v.ratio 2 100)
      then good
      else if v.lt rtt_ms (v.ratio 250 1) && v.lt loss_percent (v.ratio 1 10)
      then fair
      else poor

  -- `NetworkStats::default()`
  unfoldable pub default_stats : NetworkStats V
  default_stats = record {
    packets_sent = 0;
    packets_received = 0;
    bytes_sent = 0;
    bytes_received = 0;
    packet_loss = v.ratio 0 1;
    rtt = v.ratio 0 1;
    bandwidth_up = v.ratio 0 1;
    bandwidth_down = v.ratio 0 1;
    send_errors = 0;
    connection_quality = good;
  }
