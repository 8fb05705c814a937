-- ===== src/Prelude/Bits.antt =====
-- The bits of a machine word: `&`, `|`, `<<` and the test of one bit.
use Prim.Native.Nat.{
  ℕ, zero, suc, ◌+◌, ◌-◌, ◌*◌, ◌/◌, ◌%◌, ◌^◌, ◌≤◌, ◌<◌, min, max, bit_and, bit_or, digits,
  bit_and-bitwise, bit_or-bitwise,
}
use mathlib.Core.Path.{◌≡◌, refl, sym, ◌∙◌}
use mathlib.Core.Bool.{Bool, false, not, ◌||◌}
use native.Mathlib.Omega.{arith}
use native.Mathlib.Nat.{
  pow-suc, one-le-pow, mod-add-div', mod-lt, mod-eq_of_lt, add-mul-mod_self_right,
}
use gbnet.Prelude.Tests.{◌==◌, ltb, if◌then◌else◌}

-- `(x & (1 << i)) != 0`
unfoldable pub test_bit : ℕ → ℕ → Bool
test_bit x i = not (bit_and x (2 ^ i) == 0)

-- The law for the lowest digit of an operation that agrees with its second argument at 0.
same_fuel :
    (f : ℕ → ℕ → ℕ) (z : ℕ → ℕ)
    → ((b : ℕ) → z b ≡ z (b / 2) * 2 + f 0 (b % 2))
    → (n m a b : ℕ) → a ≤ n
    → a ≤ m
    → digits z f n a b ≡ digits z f m a b
same_fuel f z law zero zero a b p q = refl
same_fuel f z law zero (suc m) zero b p q = refl
same_fuel f z law zero (suc m) (suc a) b p q = absurd (omega arith)
same_fuel f z law (suc n) zero zero b p q = refl
same_fuel f z law (suc n) zero (suc a) b p q = absurd (omega arith)
same_fuel f z law (suc n) (suc m) zero b p q = refl
same_fuel f z law (suc n) (suc m) (suc a) b p q =
    rw (same_fuel f z law n m (suc a / 2) (b / 2) (omega arith) (omega arith)) refl

pub digits_step :
    (f : ℕ → ℕ → ℕ) (z : ℕ → ℕ)
    → ((b : ℕ) → z b ≡ z (b / 2) * 2 + f 0 (b % 2))
    → (a b : ℕ) → digits z f a a b ≡ digits z f (a / 2) (a / 2) (b / 2) * 2 + f (a % 2) (b % 2)
digits_step f z law zero b = law b
digits_step f z law (suc a) b =
    rw (same_fuel f z law a (suc a / 2) (suc a / 2) (b / 2) (omega arith) (omega arith)) refl

bit_and_step : (a b : ℕ) → bit_and a b ≡ bit_and (a / 2) (b / 2) * 2 + min (a % 2) (b % 2)
bit_and_step a b =
    rw (bit_and-bitwise a b, bit_and-bitwise (a / 2) (b / 2))
      (digits_step min (λ _. 0) (λ b. omega arith) a b)

pub bit_or_step : (a b : ℕ) → bit_or a b ≡ bit_or (a / 2) (b / 2) * 2 + max (a % 2) (b % 2)
bit_or_step a b =
    rw (bit_or-bitwise a b, bit_or-bitwise (a / 2) (b / 2))
      (digits_step max (λ b. b) (λ b. omega arith) a b)

and-zero_fuel : (n a : ℕ) → a ≤ n → bit_and a 0 ≡ 0
and-zero_fuel n zero h = refl
and-zero_fuel zero (suc a) h = absurd (omega arith)
and-zero_fuel (suc n) (suc a) h =
    omega (arith, bit_and_step (suc a) 0, and-zero_fuel n (suc a / 2) (omega arith))

-- the lowest bit, and the bits above it
test_bit-zero : (x : ℕ) → test_bit x 0 ≡ (x % 2 == 1)
unfolding test_bit
test_bit-zero x = ground (arith, bit_and_step x 1, and-zero_fuel (x / 2) (x / 2))

test_bit-suc : (x i : ℕ) → test_bit x (suc i) ≡ test_bit (x / 2) i
unfolding test_bit
test_bit-suc x i =
    let half : 2 ^ suc i / 2 ≡ 2 ^ i = omega (arith, pow-suc 2 i) in
    let step : bit_and x (2 ^ suc i)
        ≡ bit_and (x / 2) (2 ^ suc i / 2) * 2 + min (x % 2) (2 ^ suc i % 2) =
      bit_and_step x (2 ^ suc i) in
    ground (arith, (rw half at step), pow-suc 2 i)

pub test_bit-or : (a b i : ℕ) → test_bit (bit_or a b) i ≡ (test_bit a i || test_bit b i)
test_bit-or a b zero =
    rw (test_bit-zero (bit_or a b), test_bit-zero a, test_bit-zero b)
      (ground (arith, bit_or_step a b))
test_bit-or a b (suc i) =
    let half : bit_or a b / 2 ≡ bit_or (a / 2) (b / 2) = omega (arith, bit_or_step a b) in
    rw (test_bit-suc (bit_or a b) i, test_bit-suc a i, test_bit-suc b i, half)
      (test_bit-or (a / 2) (b / 2) i)

pub test_bit-nought : (i : ℕ) → test_bit 0 i ≡ false
unfolding test_bit
test_bit-nought zero = refl
test_bit-nought (suc i) = rw (test_bit-suc 0 i) (test_bit-nought i)

even : (x p : ℕ) → x * (p * 2) % 2 ≡ 0
even x p = let e : x * (p * 2) ≡ x * p * 2 = grind arith in omega (arith, e)

-- `x << d`, before it is cut to a word
pub test_bit-shift :
    (x d i : ℕ) → test_bit (x * 2 ^ d) i ≡ (if ltb i d then false else test_bit x (i - d))
test_bit-shift x zero i =
    let (e, k) : (x * 2 ^ 0 ≡ x) × (i - 0 ≡ i) = (omega arith, omega arith) in
    rw (e, k) (ground arith)
test_bit-shift x (suc d) zero =
    let low : x * 2 ^ suc d % 2 ≡ 0 = rw (pow-suc 2 d) (even x (2 ^ d)) in
    rw (test_bit-zero (x * 2 ^ suc d), low) (ground arith)
test_bit-shift x (suc d) (suc i) =
    let half : x * 2 ^ suc d / 2 ≡ x * 2 ^ d = rw (pow-suc 2 d) (grind arith) in
    rw (test_bit-suc (x * 2 ^ suc d) i, half, test_bit-shift x d i) (ground arith)

pub test_bit-pow : (k i : ℕ) → test_bit (2 ^ k) i ≡ (k == i)
test_bit-pow zero zero = test_bit-zero 1
test_bit-pow zero (suc i) =
    let e : (0 == suc i) ≡ false = ground arith in rw (test_bit-suc 1 i, e) (test_bit-nought i)
test_bit-pow (suc k) zero = rw (test_bit-zero (2 ^ suc k)) (ground (arith, pow-suc 2 k))
test_bit-pow (suc k) (suc i) =
    let half : 2 ^ suc k / 2 ≡ 2 ^ k = omega (arith, pow-suc 2 k) in
    rw (test_bit-suc (2 ^ suc k) i, half, test_bit-pow k i) (ground arith)

-- A number is a multiple of twice a power and its remainder, which lies below that.
mod_halves : (x p : ℕ) → 0 < p → (x % (p * 2) % 2 ≡ x % 2) × (x % (p * 2) / 2 ≡ x / 2 % p)
mod_halves x p h =
    let r = x % (p * 2) in
    let whole : r + x / (p * 2) * (p * 2) ≡ x = mod-add-div' x (p * 2) in
    let small : r < p * 2 = mod-lt x (omega arith) in
    let twice : x / (p * 2) * (p * 2) ≡ x / (p * 2) * p * 2 = grind arith in
    let half : x / 2 ≡ r / 2 + x / (p * 2) * p = omega (arith, whole, twice) in
    let cut : (r / 2 + x / (p * 2) * p) % p ≡ r / 2 % p = add-mul-mod_self_right (r / 2) _ p in
    let below : r / 2 % p ≡ r / 2 = mod-eq_of_lt (omega (arith, small)) in
    (omega (arith, whole, twice), rw half (sym (cut ∙ below)))

pub test_bit-mod : (x w i : ℕ) → i < w → test_bit (x % 2 ^ w) i ≡ test_bit x i
test_bit-mod x zero i h = absurd (omega arith)
test_bit-mod x (suc w) zero h =
    rw (test_bit-zero (x % 2 ^ suc w), test_bit-zero x, pow-suc 2 w)
      (ground (arith, (mod_halves x (2 ^ w) (one-le-pow w 2 (omega arith))).0))
test_bit-mod x (suc w) (suc i) h =
    let half : x % 2 ^ suc w / 2 ≡ x / 2 % 2 ^ w =
      rw (pow-suc 2 w) (mod_halves x (2 ^ w) (one-le-pow w 2 (omega arith))).1 in
    rw (test_bit-suc (x % 2 ^ suc w) i, test_bit-suc x i, half)
      (test_bit-mod (x / 2) w i (omega arith))
