-- ===== src/Congestion/Bandwidth.antt =====
-- `BandwidthTracker` of gbnet/src/congestion.rs.
use gbnet.Prelude.{ℕ, ◌+◌, ◌-◌, List, [], ◌∷◌, ◌++◌, leb, if◌then◌else◌}
use gbnet.Float.{Float}

pub record BandwidthTracker : Type 0 where
  pub window : List (ℕ × ℕ)
  pub window_duration : ℕ

unfoldable pub new : ℕ → BandwidthTracker
new window_duration = record { window = []; window_duration = window_duration }

-- The oldest entries leave as long as they are outside of the window.
unfoldable pub drop_old : ℕ → ℕ → List (ℕ × ℕ) → List (ℕ × ℕ)
drop_old duration now [] = []
drop_old duration now ((t, bytes) ∷ entries) =
    let rest = drop_old duration now entries in
    if leb duration (now - t) then rest else (t, bytes) ∷ entries

unfoldable pub cleanup : BandwidthTracker → ℕ → BandwidthTracker
unfolding drop_old
cleanup b now = record b { window = drop_old b.window_duration now b.window }

unfoldable pub recorded : BandwidthTracker → ℕ → ℕ → BandwidthTracker
unfolding cleanup
recorded b now bytes = cleanup (record b { window = b.window ++ ((now, bytes) ∷ []) }) now

abbrev total_bytes : List (ℕ × ℕ) → ℕ
total_bytes [] = 0
total_bytes ((_, bytes) ∷ entries) = bytes + total_bytes entries

module _ {ℓ} {W : Type ℓ} ⦃f : Float W⦄ where
  unfoldable pub bytes_per_second : BandwidthTracker → W
  bytes_per_second b = elim b.window [
    | [] ↦ f.ratio 0 1
    | _ ∷ _ ↦
        let elapsed = f.as_secs b.window_duration in
        if f.lt (f.ratio 0 1) elapsed
        then f.div (f.ratio (total_bytes b.window) 1) elapsed
        else f.ratio 0 1
  ]
