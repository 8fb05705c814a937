-- ===== src/Serialize/Numbers.antt =====
-- Fields as one number, and what a bit buffer of gbnet/src/serialize/mod.rs holds once they are
-- written.
use gbnet.Prelude.{
  ℕ, ◌+◌, ◌-◌, ◌*◌, ◌^◌, ◌<◌, ◌≤◌, ◌≡◌, refl, ap, ◌∙◌, false, ◌&&◌, ok, ltb, List, [], ◌∷◌, ◌++◌,
  All, arith,
}
use gbnet.Prelude.Slices.{pow-add}
use native.Mathlib.Nat.{mod-eq_of_lt, zero-mul, mul-le-mul_right, pow-le-pow_right}
use gbnet.Serialize.{BitBuffer}
use gbnet.Serialize.Fields.{write_field, write_fields, total}
use gbnet.Serialize.Piece.{Holds}
use gbnet.Serialize.Write.{Wrote, write_bits-Wrote}

-- The fields as one number, the first highest.
unfoldable pub number : List (ℕ × ℕ) → ℕ
number [] = 0
number ((_, val) ∷ fields) = val * 2 ^ total fields + number fields

abbrev pub Fits : ℕ × ℕ → Type 0
Fits (bits, val) = (bits ≤ 64) × (val < 2 ^ bits)

pub number-lt : (fields : List (ℕ × ℕ)) → All Fits fields → number fields < 2 ^ total fields
unfolding number
number-lt [] h = omega arith
number-lt ((bits, val) ∷ fields) ((k, l), h) =
    let p = 2 ^ total fields in
    let top : (val + 1) * p ≤ 2 ^ bits * p = mul-le-mul_right p (omega arith) in
    let grown : (val + 1) * p ≡ val * p + p = grind arith in
    omega (arith, pow-add bits (total fields), top, grown, number-lt fields h)

pub total-append : (xs ys : List (ℕ × ℕ)) → total (xs ++ ys) ≡ total xs + total ys
total-append [] ys = omega arith
total-append ((bits, val) ∷ xs) ys = omega (arith, total-append xs ys)

pub number-append :
    (xs ys : List (ℕ × ℕ)) → number (xs ++ ys) ≡ number xs * 2 ^ total ys + number ys
unfolding number
number-append [] ys = omega (arith, zero-mul (2 ^ total ys))
number-append ((bits, val) ∷ xs) ys =
    let (s, t) : ℕ × ℕ = (total xs, total ys) in
    let spread : (val * 2 ^ s + number xs) * 2 ^ t ≡ val * (2 ^ s * 2 ^ t) + number xs * 2 ^ t =
      grind arith in
    let power : val * 2 ^ total (xs ++ ys) ≡ val * (2 ^ s * 2 ^ t) =
      ap (λ (k : ℕ). val * k) (ap (λ (k : ℕ). 2 ^ k) (total-append xs ys) ∙ pow-add s t) in
    omega (arith, spread, power, number-append xs ys)

pub write_field-Wrote :
    (b : BitBuffer) (n bits val : ℕ)
    → Holds b n
    → Fits (bits, val)
    → (b' : BitBuffer) × (write_field b bits val ≡ ok b') × Wrote b n bits val b'
unfolding write_field
write_field-Wrote b n bits val h (k, l) =
    let range : (ltb bits 64 && ltb (2 ^ bits - 1) val) ≡ false = ground arith in
    let word : 2 ^ bits ≤ 2 ^ 64 = pow-le-pow_right {n = 2} (omega arith) k in
    let (b', e, w) = write_bits-Wrote b n val bits h k (omega (arith, l, word)) in
    (b', rw (range) e, rw (mod-eq_of_lt l) at w)

-- Fields that fit are written without an error, one behind the other.
pub write_fields-Wrote :
    (fields : List (ℕ × ℕ)) (b : BitBuffer) (n : ℕ)
    → Holds b n
    → All Fits fields
    → (b' : BitBuffer) × (write_fields b fields ≡ ok b')
      × Wrote b n (total fields) (number fields) b'
unfolding write_fields number
write_fields-Wrote [] b n h fits =
    let same : n ≡ n * 2 ^ 0 + 0 = omega arith in
    (b, refl, record { holds = rw (same) at h; moved = omega arith })
write_fields-Wrote ((bits, val) ∷ fields) b n h (fit, fits) =
    let (b', e, w) = write_field-Wrote b n bits val h fit in
    let (b'', e', w') = write_fields-Wrote fields b' (n * 2 ^ bits + val) w.holds fits in
    let (t, m) : ℕ × ℕ = (total fields, number fields) in
    let spread : (n * 2 ^ bits + val) * 2 ^ t ≡ n * (2 ^ bits * 2 ^ t) + val * 2 ^ t =
      grind arith in
    let power : n * 2 ^ (bits + t) ≡ n * (2 ^ bits * 2 ^ t) =
      ap (λ (k : ℕ). n * k) (pow-add bits t) in
    let same : (n * 2 ^ bits + val) * 2 ^ t + m ≡ n * 2 ^ (bits + t) + (val * 2 ^ t + m) =
      omega (arith, spread, power) in
    (
      b'',
      rw (e) e',
      record { holds = rw (same) at w'.holds; moved = omega (arith, w.moved, w'.moved) },
    )
