-- ===== src/Prelude/Slices.antt =====
-- A run of bits of a number: `k` bits, from the bit `s` on, by division.
use Prim.Native.Nat.{ℕ, zero, suc, ◌+◌, ◌*◌, ◌/◌, ◌%◌, ◌^◌, ◌≤◌, ◌<◌, bit_or, max}
use mathlib.Core.Path.{◌≡◌, refl, sym, ap, ◌∙◌}
use native.Mathlib.Omega.{arith}
use native.Mathlib.Nat.{
  pow-suc, one-le-pow, div-add-mod', mod-lt, mod-eq_of_lt, mul-add-mod_self_right,
  div-div-eq-div-mul, mul-add-div_right, div-eq_of_lt, mul-le-mul_right, add-suc,
}
use gbnet.Prelude.Bits.{bit_or_step}

pub pow-pos : (k : ℕ) → 0 < 2 ^ k
pow-pos k = one-le-pow k 2 (omega arith)

pub pow-add : (a b : ℕ) → 2 ^ (a + b) ≡ 2 ^ a * 2 ^ b
pow-add a zero = grind arith
pow-add a (suc b) =
    let twice : 2 ^ a * (2 ^ b * 2) ≡ 2 ^ a * 2 ^ b * 2 = grind arith in
    rw (add-suc a b, pow-suc 2 (a + b), pow-suc 2 b, twice) (ap (λ t. t * 2) (pow-add a b))

-- The quotient and the remainder are the parts of a number that is written so.
pub mod_of_parts : (q m r : ℕ) → r < m → (q * m + r) % m ≡ r
mod_of_parts q m r h = mul-add-mod_self_right q m r ∙ mod-eq_of_lt h

pub div_of_parts : (q m r : ℕ) → r < m → (q * m + r) / m ≡ q
div_of_parts q m r h = omega (arith, mul-add-div_right {m = m} (omega arith) q r, div-eq_of_lt h)

-- A remainder by a product, digit by digit.
pub mod-mul : (x a b : ℕ) → 0 < a → 0 < b → x % (a * b) ≡ x / a % b * a + x % a
mod-mul x a b h k =
    let q = x / a in
    let p = q / b in
    let t = q % b in
    let r = x % a in
    let outer : q * a + r ≡ x = div-add-mod' x a in
    let inner : p * b + t ≡ q = div-add-mod' q b in
    let spread : (p * b + t) * a ≡ p * (a * b) + t * a = grind arith in
    let whole : x ≡ p * (a * b) + (t * a + r) =
      omega (arith, outer, spread, ap (λ (n : ℕ). n * a) inner) in
    let top : (t + 1) * a ≤ b * a = mul-le-mul_right a (omega (arith, mod-lt q k)) in
    let grown : (t + 1) * a ≡ t * a + a = grind arith in
    let flip : b * a ≡ a * b = grind arith in
    let small : t * a + r < a * b = omega (arith, mod-lt x h, top, grown, flip) in
    ap (λ (n : ℕ). n % (a * b)) whole ∙ mod_of_parts p (a * b) (t * a + r) small

abbrev pub slice : ℕ → ℕ → ℕ → ℕ
slice v s k = v / 2 ^ s % 2 ^ k

pub slice-lt : (v s k : ℕ) → slice v s k < 2 ^ k
slice-lt v s k = mod-lt (v / 2 ^ s) (pow-pos k)

pub slice-zero : (v k : ℕ) → slice v 0 k ≡ v % 2 ^ k
slice-zero v k = let e : v / 2 ^ 0 ≡ v = omega arith in ap (λ (n : ℕ). n % 2 ^ k) e

div_pow_add : (v s b : ℕ) → v / 2 ^ (s + b) ≡ v / 2 ^ s / 2 ^ b
div_pow_add v s b = rw (pow-add s b) (sym (div-div-eq-div-mul v (2 ^ s) (2 ^ b)))

-- Two runs, one behind the other, are one.
pub slice-append : (v s a b : ℕ) → slice v (s + b) a * 2 ^ b + slice v s b ≡ slice v s (b + a)
slice-append v s a b =
    rw (div_pow_add v s b, pow-add b a)
      (sym (mod-mul (v / 2 ^ s) (2 ^ b) (2 ^ a) (pow-pos b) (pow-pos a)))

-- A run of a run.
pub slice-slice : (v s a b c : ℕ) → slice (slice v s (a + (b + c))) a b ≡ slice v (s + a) b
slice-slice v s a b c =
    let y = v / 2 ^ s in
    let z = y / 2 ^ a in
    let low : y % (2 ^ a * 2 ^ (b + c)) / 2 ^ a ≡ z % 2 ^ (b + c) =
      ap (λ (n : ℕ). n / 2 ^ a) (mod-mul y (2 ^ a) (2 ^ (b + c)) (pow-pos a) (pow-pos (b + c)))
      ∙ div_of_parts (z % 2 ^ (b + c)) (2 ^ a) (y % 2 ^ a) (mod-lt y (pow-pos a)) in
    let cut : z % (2 ^ b * 2 ^ c) % 2 ^ b ≡ z % 2 ^ b =
      ap (λ (n : ℕ). n % 2 ^ b) (mod-mul z (2 ^ b) (2 ^ c) (pow-pos b) (pow-pos c))
      ∙ mod_of_parts (z / 2 ^ b % 2 ^ c) (2 ^ b) (z % 2 ^ b) (mod-lt z (pow-pos b)) in
    rw (pow-add a (b + c), low, pow-add b c, cut, div_pow_add v s a) refl

bit_or-zero_fuel : (n a : ℕ) → a ≤ n → bit_or a 0 ≡ a
bit_or-zero_fuel n zero h = refl
bit_or-zero_fuel zero (suc a) h = absurd (omega arith)
bit_or-zero_fuel (suc n) (suc a) h =
    omega (arith, bit_or_step (suc a) 0, bit_or-zero_fuel n (suc a / 2) (omega arith))

-- Where the bits do not meet, `|` is the sum.
pub bit_or-disjoint : (q k x : ℕ) → x < 2 ^ k → bit_or (q * 2 ^ k) x ≡ q * 2 ^ k + x
bit_or-disjoint q zero x h =
    let e : x ≡ 0 = omega arith in rw (e) (omega (arith, bit_or-zero_fuel (q * 1) (q * 1)))
bit_or-disjoint q (suc k) x h =
    let twice : q * 2 ^ suc k ≡ q * 2 ^ k * 2 = rw (pow-suc 2 k) (grind arith) in
    let half : q * 2 ^ suc k / 2 ≡ q * 2 ^ k = omega (arith, twice) in
    let step : bit_or (q * 2 ^ suc k) x
        ≡ bit_or (q * 2 ^ suc k / 2) (x / 2) * 2 + max (q * 2 ^ suc k % 2) (x % 2) =
      bit_or_step (q * 2 ^ suc k) x in
    omega
      (arith, (rw half at step), twice, bit_or-disjoint q k (x / 2) (omega (arith, pow-suc 2 k)))
