-- ===== src/Congestion.antt =====
-- The binary congestion controller of gbnet/src/congestion.rs. Floats are a parameter: `V` stands
-- for f32 and `W` for f64.
pub mod Cwnd
pub mod Bandwidth
use gbnet.Prelude.{
  ℕ, zero, suc, ◌+◌, ◌-◌, ◌*◌, ◌≡◌, Bool, true, false, not, ◌&&◌, ◌||◌, min, Option, none, some,
  List, [], ◌∷◌, ◌++◌, ltb, leb, ◌==◌, if◌then◌else◌,
}
use gbnet.Prelude.Int.{ℤ, pos, ◌-ℤ◌, ltb_ℤ, as_i64}
use gbnet.Float.{Float, at_most, at_least}

pub data CongestionMode : Type 0 where
  good bad : CongestionMode

pub record CongestionController {ℓ κ} (V : Type ℓ) (W : Type κ) : Type (ℓ ⊔ κ) where
  pub mode : CongestionMode
  pub good_conditions_start : Option ℕ
  pub loss_threshold : V
  pub rtt_threshold_ms : V
  pub base_send_rate : V
  pub current_send_rate : V
  pub budget_bytes_remaining : ℤ
  pub bytes_per_tick : ℕ
  pub adaptive_recovery_secs : W
  pub last_good_entry : Option ℕ
  pub last_bad_entry : Option ℕ

module _ {ℓ} {W : Type ℓ} ⦃f : Float W⦄ where
  unfoldable pub halve : ℕ → W → W
  halve zero secs = secs
  halve (suc n) secs = halve n (at_least (f.div secs (f.ratio 2 1)) (f.ratio 1 1))

module _ {ℓ κ} {V : Type ℓ} {W : Type κ} ⦃v : Float V⦄ ⦃f : Float W⦄ where
  unfoldable pub new_controller : V → V → V → ℕ → CongestionController V W
  new_controller base_send_rate loss_threshold rtt_threshold_ms recovery_time = record {
    mode = good;
    good_conditions_start = none;
    loss_threshold = loss_threshold;
    rtt_threshold_ms = rtt_threshold_ms;
    base_send_rate = base_send_rate;
    current_send_rate = base_send_rate;
    budget_bytes_remaining = pos 0;
    bytes_per_tick = 0;
    adaptive_recovery_secs = f.as_secs recovery_time;
    last_good_entry = none;
    last_bad_entry = none;
  }

  unfoldable pub refill_budget : CongestionController V W → ℕ → CongestionController V W
  refill_budget c mtu =
      let bytes = v.to_u64 (v.mul c.current_send_rate (v.ratio mtu 1)) in
      record c { bytes_per_tick = bytes; budget_bytes_remaining = as_i64 bytes }

  unfoldable pub deduct_budget : CongestionController V W → ℕ → CongestionController V W
  deduct_budget c bytes = record c {
    budget_bytes_remaining = c.budget_bytes_remaining -ℤ as_i64 bytes;
  }

  -- `packet_loss > self.loss_threshold || rtt_ms > self.rtt_threshold_ms`
  abbrev pub is_bad : CongestionController V W → V → V → Bool
  is_bad c packet_loss rtt_ms = v.lt c.loss_threshold packet_loss || v.lt c.rtt_threshold_ms rtt_ms

  -- A drop soon after the last recovery doubles the time that the next one takes.
  unfoldable pub recovery_after_drop : CongestionController V W → ℕ → W
  recovery_after_drop c now = elim c.last_good_entry [
    | none ↦ c.adaptive_recovery_secs
    | some good_entry ↦
        if f.lt (f.as_secs (now - good_entry)) (f.ratio 10 1)
        then at_most (f.mul c.adaptive_recovery_secs (f.ratio 2 1)) (f.ratio 60 1)
        else c.adaptive_recovery_secs
  ]

  -- good, and the conditions are bad
  unfoldable pub enter_bad : CongestionController V W → ℕ → CongestionController V W
  unfolding recovery_after_drop
  enter_bad c now = record c {
    adaptive_recovery_secs = recovery_after_drop c now;
    mode = bad;
    last_bad_entry = some now;
    current_send_rate = at_least (v.mul c.base_send_rate (v.ratio 1 2)) (v.ratio 1 1);
    good_conditions_start = none;
  }

  -- good, and the conditions are good: each ten seconds halve the recovery time
  unfoldable pub stay_good : CongestionController V W → ℕ → CongestionController V W
  unfolding halve
  stay_good c now = elim c.last_good_entry [
    | none ↦ c
    | some good_entry ↦
        let elapsed = f.as_secs (now - good_entry) in
        let intervals = min (f.to_u64 (f.div elapsed (f.ratio 10 1))) 0xFFFFFFFF in
        if ltb 0 intervals
        then record c {
          adaptive_recovery_secs = halve intervals c.adaptive_recovery_secs;
          last_good_entry = some now;
        }
        else c
  ]

  -- bad, and the conditions are good
  unfoldable pub recover : CongestionController V W → ℕ → CongestionController V W
  recover c now = elim c.good_conditions_start [
    | none ↦ record c { good_conditions_start = some now }
    | some start ↦
        if leb (f.of_secs c.adaptive_recovery_secs) (now - start)
        then record c {
          mode = good;
          last_good_entry = some now;
          current_send_rate = c.base_send_rate;
          good_conditions_start = none;
        }
        else c
  ]

  unfoldable pub update : CongestionController V W → ℕ → V → V → CongestionController V W
  unfolding enter_bad stay_good recover
  update c now packet_loss rtt_ms =
      let worse = is_bad c packet_loss rtt_ms in
      elim c.mode [
        | good ↦ if worse then enter_bad c now else stay_good c now
        | bad ↦ if worse then record c { good_conditions_start = none } else recover c now
      ]

  unfoldable pub can_send : CongestionController V W → ℕ → ℕ → Bool
  can_send c packets_sent_this_cycle packet_bytes =
      v.lt (v.ratio packets_sent_this_cycle 1) c.current_send_rate
      && not (ltb_ℤ c.budget_bytes_remaining (as_i64 packet_bytes))
