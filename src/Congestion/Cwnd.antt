-- ===== src/Congestion/Cwnd.antt =====
-- `CongestionWindow` of gbnet/src/congestion.rs, which computes with f64. The count of the bytes in
-- flight is a u64 that a program does not exhaust.
use gbnet.Prelude.{
  ℕ, ◌+◌, ◌-◌, ◌*◌, Bool, true, not, ◌&&◌, Option, none, some, leb, ◌==◌, if◌then◌else◌,
}
use gbnet.Float.{Float}

abbrev initial_cwnd_packets : ℕ
initial_cwnd_packets = 10

abbrev min_cwnd_bytes : ℕ
min_cwnd_bytes = 1200

pub data CongestionPhase : Type 0 where
  slow_start avoidance recovery : CongestionPhase

pub record CongestionWindow {ℓ} (W : Type ℓ) : Type ℓ where
  pub phase : CongestionPhase
  pub cwnd : W
  pub ssthresh : W
  pub bytes_in_flight : ℕ
  pub mtu : ℕ
  pub last_send_time : Option ℕ
  pub min_inter_packet_delay : ℕ

module _ {ℓ} {W : Type ℓ} ⦃f : Float W⦄ where
  unfoldable pub new : ℕ → CongestionWindow W
  new mtu = record {
    phase = slow_start;
    cwnd = f.ratio (initial_cwnd_packets * mtu) 1;
    ssthresh = f.maximum;
    bytes_in_flight = 0;
    mtu = mtu;
    last_send_time = none;
    min_inter_packet_delay = 0;
  }

  unfoldable pub on_ack : CongestionWindow W → ℕ → CongestionWindow W
  on_ack w bytes =
      let w' = record w { bytes_in_flight = w.bytes_in_flight - bytes } in
      let grown = f.add w.cwnd (f.ratio bytes 1) in
      elim w.phase [
        | slow_start ↦ record w' {
          cwnd = grown;
          phase = (if f.le w.ssthresh grown then avoidance else slow_start);
        }
        | avoidance ↦ record w' {
          cwnd = f.add w.cwnd (f.div (f.mul (f.ratio w.mtu 1) (f.ratio bytes 1)) w.cwnd);
        }
        | recovery ↦ w'
      ]

  unfoldable pub on_loss : CongestionWindow W → CongestionWindow W
  on_loss w =
      let half = f.div w.cwnd (f.ratio 2 1) in
      let ssthresh =
        if f.lt half (f.ratio min_cwnd_bytes 1) then f.ratio min_cwnd_bytes 1 else half in
      record w { ssthresh = ssthresh; cwnd = ssthresh; phase = recovery }

  unfoldable pub exit_recovery : CongestionWindow W → CongestionWindow W
  exit_recovery w = elim w.phase [ recovery ↦ record w { phase = avoidance } | _ ↦ w ]

  unfoldable pub on_send : CongestionWindow W → ℕ → ℕ → CongestionWindow W
  on_send w now bytes = record w {
    bytes_in_flight = w.bytes_in_flight + bytes;
    last_send_time = some now;
  }

  unfoldable pub can_send : CongestionWindow W → ℕ → Bool
  can_send w packet_bytes = leb (w.bytes_in_flight + packet_bytes) (f.to_u64 w.cwnd)

  unfoldable pub update_pacing : CongestionWindow W → ℕ → CongestionWindow W
  update_pacing w rtt =
      let packets_in_window = f.div w.cwnd (f.ratio w.mtu 1) in
      if f.lt (f.ratio 0 1) w.cwnd && not (rtt == 0) && f.lt (f.ratio 0 1) packets_in_window
      then record w { min_inter_packet_delay = f.of_secs (f.div (f.as_secs rtt) packets_in_window) }
      else w

  unfoldable pub can_send_paced : CongestionWindow W → ℕ → Bool
  can_send_paced w now = elim w.last_send_time [
    | none ↦ true
    | some last ↦ leb w.min_inter_packet_delay (now - last)
  ]
