-- ===== src/Priority/Tests.antt =====
-- A run of the priorities of gbnet/src/priority.rs, with fixed-point numbers for floats.
use gbnet.Prelude.{ℕ, ◌≡◌, ◌*◌, refl, [], ◌∷◌}
use gbnet.Prelude.Maps.{insert}
use gbnet.Prelude.Int.{ℤ, pos}
use gbnet.Float.Fixed.{fixed_float}
use gbnet.Priority.{PriorityAccumulator, new, register, accumulate, drain_top}

abbrev three : PriorityAccumulator ℤ
unfolding register accumulate
three =
    accumulate (register (register (register new 1 (pos 1000)) 2 (pos 5000)) 3 (pos 3000))
      (pos 2000)

abbrev size_fn : ℕ → ℕ
size_fn id = id * 10

drain_top-three : (drain_top three 45 size_fn).1 ≡ 2 ∷ 1 ∷ []
unfolding drain_top register accumulate insert
drain_top-three = refl
