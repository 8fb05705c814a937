-- ===== src/Interpolation/Tests.antt =====
-- Runs of the buffer of snapshots of gbnet/src/interpolation.rs, with fixed-point numbers for
-- floats: times in milliseconds, and numbers as states.
use gbnet.Prelude.{ℕ, ◌*◌, ◌≤◌, ◌≡◌, refl, sym, some, none, List, [], ◌∷◌, length}
use gbnet.Prelude.Int.{ℤ, pos}
use gbnet.Float.Fixed.{fixed_float, fixed_narrowing}
use gbnet.Interpolation.{
  Interpolatable, TimestampedSnapshot, SnapshotBuffer, new, with_config, push, append, keep_newest,
  between, bracketed, outside, sample,
}
use gbnet.Interpolation.Order.{IsOrdered, pushes, pushes-IsOrdered}
use gbnet.Interpolation.Sampled.{Around, Interpolates, sample-between}

instance abbrev linear : Interpolatable ℤ ℤ
linear = record { lerp = λ a b t. fixed_float.add a (fixed_float.mul (fixed_float.sub b a) t) }

abbrev at : ℕ → ℕ → TimestampedSnapshot ℤ ℤ
at t x = record { timestamp = pos (t * 1000); state = pos (x * 1000) }

-- One snapshot comes late.
abbrev arrivals : List (TimestampedSnapshot ℤ ℤ)
arrivals = at 0 10 ∷ at 100 20 ∷ at 50 15 ∷ at 200 40 ∷ []

abbrev held : SnapshotBuffer ℤ ℤ
held = record {
  snapshots = at 0 10 ∷ at 100 20 ∷ at 200 40 ∷ [];
  buffer_depth = 3;
  playback_delay_ms = pos 100000;
}

pushes-new : pushes new arrivals ≡ held
unfolding push append keep_newest new with_config
pushes-new = refl

pushes-IsOrdered_example :
    IsOrdered (pushes (with_config 3 (pos 100000)) arrivals).snapshots
    × (length (pushes (with_config 3 (pos 100000)) arrivals).snapshots ≤ 6)
pushes-IsOrdered_example = pushes-IsOrdered 3 (pos 100000) arrivals

sample-half : sample ℤ held (pos 250000) ≡ some (pos 30000)
unfolding sample bracketed between
sample-half = refl

sample-beyond : sample ℤ held (pos 450000) ≡ some (pos 40000)
unfolding sample bracketed outside
sample-beyond = refl

sample-few : sample ℤ (record held { snapshots = at 0 10 ∷ [] }) (pos 250000) ≡ none
unfolding sample
sample-few = refl

sample-between_example :
    (a : TimestampedSnapshot ℤ ℤ) × (b : TimestampedSnapshot ℤ ℤ) × Around
      (pos 150000)
      held.snapshots
      a
      b
    × (x : ℤ) × (sample ℤ held (pos 250000) ≡ some x)
    × Interpolates ℤ (pos 150000) a b x
sample-between_example =
    sample-between ℤ held (pos 250000) (at 0 10) (at 100 20) (at 200 40 ∷ []) (at 200 40) refl refl
      ((λ _. refl), ((λ _. refl), ((λ h. sym h), tt))) refl refl
