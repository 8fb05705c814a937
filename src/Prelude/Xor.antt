-- ===== src/Prelude/Xor.antt =====
-- The exclusive or of two numbers, bit by bit.
use Prim.Native.Nat.{
  ℕ, zero, suc, ◌+◌, ◌*◌, ◌/◌, ◌%◌, ◌^◌, ◌<◌, min, bit_xor, differ, bit_xor-bitwise,
}
use mathlib.Core.Path.{◌≡◌, refl}
use native.Mathlib.Omega.{arith}
use native.Mathlib.Nat.{pow-suc}
use gbnet.Prelude.Bits.{digits_step}

bit_xor_step : (a b : ℕ) → bit_xor a b ≡ bit_xor (a / 2) (b / 2) * 2 + differ (a % 2) (b % 2)
bit_xor_step a b =
    rw (bit_xor-bitwise a b, bit_xor-bitwise (a / 2) (b / 2))
      (digits_step differ (λ b. b) (λ b. omega arith) a b)

differ-bit : (x y : ℕ) → x < 2 → y < 2 → differ x y + 2 * min x y ≡ x + y
differ-bit zero y h k = omega arith
differ-bit (suc zero) zero h k = refl
differ-bit (suc zero) (suc zero) h k = refl
differ-bit (suc zero) (suc (suc y)) h k = absurd (omega arith)
differ-bit (suc (suc x)) y h k = absurd (omega arith)

bits-xor : (a b : ℕ) → differ (a % 2) (b % 2) + 2 * min (a % 2) (b % 2) ≡ a % 2 + b % 2
bits-xor a b = differ-bit (a % 2) (b % 2) (omega arith) (omega arith)

-- Numbers of `w` bits are told apart by their exclusive or with a third.
pub bit_xor-cancel : (w a b c : ℕ) → a < 2 ^ w → b < 2 ^ w → bit_xor a c ≡ bit_xor b c → a ≡ b
bit_xor-cancel zero a b c h k e = omega arith
bit_xor-cancel (suc w) a b c h k e =
    let above =
      bit_xor-cancel w (a / 2) (b / 2) (c / 2) (omega (arith, pow-suc 2 w))
        (omega (arith, pow-suc 2 w))
        (omega (arith, bit_xor_step a c, bit_xor_step b c, bits-xor a c, bits-xor b c)) in
    omega (arith, above, bit_xor_step a c, bit_xor_step b c, bits-xor a c, bits-xor b c)

pub bit_xor-lt : (w a b : ℕ) → a < 2 ^ w → b < 2 ^ w → bit_xor a b < 2 ^ w
bit_xor-lt zero a b h k =
    let (e, g) : (a ≡ 0) × (b ≡ 0) = (omega arith, omega arith) in rw (e, g) (omega arith)
bit_xor-lt (suc w) a b h k =
    let below =
      bit_xor-lt w (a / 2) (b / 2) (omega (arith, pow-suc 2 w)) (omega (arith, pow-suc 2 w)) in
    omega (arith, pow-suc 2 w, bit_xor_step a b, bits-xor a b, below)
