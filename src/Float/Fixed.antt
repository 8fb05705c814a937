-- ===== src/Float/Fixed.antt =====
-- Fixed-point numbers in thousandths, which meet the laws: the carrier of the runs.
use gbnet.Prelude.{ℕ, ◌+◌, ◌*◌, ◌/◌, ◌^◌, ◌≡◌, refl, true, false, not, arith}
use gbnet.Prelude.Int.{ℤ, pos, negsuc, pos_part, neg_part, ◌+ℤ◌, ◌-ℤ◌, ltb_ℤ}
use gbnet.Float.{Float, Narrowing, IsFloat}

abbrev magnitude : ℤ → ℕ
magnitude a = pos_part a + neg_part a

-- A number with the sign of the product of two others.
abbrev signed : ℤ → ℤ → ℕ → ℤ
signed (pos _) (pos _) n = pos n
signed (negsuc _) (negsuc _) n = pos n
signed _ _ n = pos 0 -ℤ pos n

abbrev truncate : ℤ → ℕ
truncate (pos n) = n / 1000
truncate (negsuc _) = 0

instance abbrev pub fixed_float : Float ℤ
fixed_float = record {
  ratio = λ p q. pos (p * 1000 / q);
  add = λ a b. a +ℤ b;
  sub = λ a b. a -ℤ b;
  mul = λ a b. signed a b (magnitude a * magnitude b / 1000);
  div = λ a b. signed a b (magnitude a * 1000 / magnitude b);
  abs = λ a. pos (magnitude a);
  maximum = pos (10 ^ 30);
  is_nan = λ _. false;
  is_finite = λ _. true;
  le = λ a b. not (ltb_ℤ b a);
  lt = ltb_ℤ;
  to_u64 = truncate;
  as_secs = λ d. pos (d / 1000000);
  of_secs = λ a. pos_part a * 1000000;
}

truncate-ratio : (n : ℕ) → truncate (pos (n * 1000 / 1)) ≡ n
truncate-ratio n = omega arith

pub Fixed-IsFloat : IsFloat ℤ
Fixed-IsFloat = record {
  to_u64-ratio = λ n _. truncate-ratio n;
  to_u64-not-lt = ground arith;
  is_nan-ratio = λ n _. refl;
}

instance abbrev pub fixed_narrowing : Narrowing ℤ ℤ
fixed_narrowing = record { narrow = λ x. x }
