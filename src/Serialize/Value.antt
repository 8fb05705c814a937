-- ===== src/Serialize/Value.antt =====
-- The bytes of a bit buffer, gbnet/src/serialize/mod.rs, as one number, the first byte highest.
use gbnet.Prelude.{
  ℕ, zero, suc, ◌+◌, ◌-◌, ◌*◌, ◌%◌, ◌^◌, ◌<◌, ◌≤◌, ◌≡◌, refl, sym, ap, ◌∙◌, List, [], ◌∷◌, ◌++◌,
  length, length-append, get_or, All, arith,
}
use gbnet.Prelude.Bytes.{IsByte}
use gbnet.Prelude.Slices.{
  pow-pos, pow-add, mod-mul, mod_of_parts, div_of_parts, slice, slice-slice, slice-zero,
}
use native.Mathlib.Nat.{zero-add, mul-le-mul_right, mod-eq_of_lt}
use gbnet.Serialize.{be_bytes}

-- 8 bits for each byte
abbrev pub bits_in : List ℕ → ℕ
bits_in bytes = 8 * length bytes

unfoldable pub value : List ℕ → ℕ
value [] = 0
value (x ∷ xs) = x * 2 ^ bits_in xs + value xs

pow_next : (n : ℕ) → 2 ^ (8 * suc n) ≡ 2 ^ (8 * n) * 256
pow_next n = let e : 8 * suc n ≡ 8 * n + 8 = omega arith in rw (e) (pow-add (8 * n) 8)

pub value-lt : (xs : List ℕ) → All IsByte xs → value xs < 2 ^ bits_in xs
unfolding value
value-lt [] h = omega arith
value-lt (x ∷ xs) (h, hs) =
    let p = 2 ^ bits_in xs in
    let top : (x + 1) * p ≤ 256 * p = mul-le-mul_right p (omega arith) in
    let grown : (x + 1) * p ≡ x * p + p = grind arith in
    omega (arith, value-lt xs hs, top, grown, pow_next (length xs))

pub value-append : (xs ys : List ℕ) → value (xs ++ ys) ≡ value xs * 2 ^ bits_in ys + value ys
unfolding value
value-append [] ys = omega arith
value-append (x ∷ xs) ys =
    let e : bits_in (xs ++ ys) ≡ bits_in xs + bits_in ys = omega (arith, length-append xs ys) in
    let spread : (x * 2 ^ bits_in xs + value xs) * 2 ^ bits_in ys
        ≡ x * (2 ^ bits_in xs * 2 ^ bits_in ys) + value xs * 2 ^ bits_in ys =
      grind arith in
    let split : x * 2 ^ bits_in (xs ++ ys) ≡ x * (2 ^ bits_in xs * 2 ^ bits_in ys) =
      rw (e, pow-add (bits_in xs) (bits_in ys)) refl in
    omega (arith, value-append xs ys, spread, split)

-- A byte of the list is its eight bits of the number.
pub get_or-value :
    (xs : List ℕ) (i : ℕ)
    → All IsByte xs
    → i < length xs
    → get_or xs i 0 ≡ slice (value xs) (8 * (length xs - 1 - i)) 8
unfolding value
get_or-value [] i hs h = absurd (omega arith)
get_or-value (x ∷ xs) zero (hx, hs) h =
    let e : length (x ∷ xs) - 1 - 0 ≡ length xs = omega arith in
    rw (e, div_of_parts x (2 ^ bits_in xs) (value xs) (value-lt xs hs)) (sym (mod-eq_of_lt hx))
get_or-value (x ∷ xs) (suc i) (hx, hs) h =
    let a = 8 * (length xs - 1 - i) in
    let e : length (x ∷ xs) - 1 - suc i ≡ length xs - 1 - i = omega arith in
    let width : a + (8 + 8 * i) ≡ bits_in xs = omega arith in
    let low : slice (value (x ∷ xs)) 0 (a + (8 + 8 * i)) ≡ value xs =
      slice-zero (value (x ∷ xs)) (a + (8 + 8 * i))
      ∙ (rw (width) (mod_of_parts x (2 ^ bits_in xs) (value xs) (value-lt xs hs))) in
    rw (e) (
      get_or-value xs i hs (omega arith)
      ∙ ap (λ (n : ℕ). slice n a 8) (sym low)
      ∙ slice-slice (value (x ∷ xs)) 0 a 8 (8 * i)
      ∙ ap (λ (n : ℕ). slice (value (x ∷ xs)) n 8) (zero-add a))

pub length-be_bytes : (n v : ℕ) → length (be_bytes n v) ≡ n
unfolding be_bytes
length-be_bytes zero v = refl
length-be_bytes (suc n) v = ap suc (length-be_bytes n v)

pub be_bytes-IsByte : (n v : ℕ) → All IsByte (be_bytes n v)
unfolding be_bytes
be_bytes-IsByte zero v = tt
be_bytes-IsByte (suc n) v = (omega arith, be_bytes-IsByte n v)

pub value-be_bytes : (n v : ℕ) → value (be_bytes n v) ≡ v % 2 ^ (8 * n)
unfolding be_bytes value
value-be_bytes zero v = omega arith
value-be_bytes (suc n) v =
    rw (length-be_bytes n v, value-be_bytes n v, pow_next n)
      (sym (mod-mul v (2 ^ (8 * n)) 256 (pow-pos (8 * n)) (omega arith)))
