-- ===== src/Float.antt =====
-- What the code does with an `f32` or an `f64`: the operations are a parameter of the parts that
-- compute with floats, and so are the laws that a theorem needs.
pub mod Fixed
use gbnet.Prelude.{ℕ, ◌<◌, ◌≤◌, ◌^◌, ◌≡◌, ◌⊎◌, Bool, true, false, if◌then◌else◌}

pub record Float {ℓ} (W : Type ℓ) : Type ℓ where
  -- the literal p / q
  pub ratio : ℕ → ℕ → W
  pub add : W → W → W
  pub sub : W → W → W
  pub mul : W → W → W
  pub div : W → W → W
  pub abs : W → W
  -- the greatest finite value, `MAX`
  pub maximum : W
  -- `is_nan` and `is_finite`
  pub is_nan : W → Bool
  pub is_finite : W → Bool
  -- `<=`, and `<`, each of which is false where one side is NaN
  pub le : W → W → Bool
  pub lt : W → W → Bool
  -- `as u64`, which rounds towards 0, saturates, and makes 0 of NaN
  pub to_u64 : W → ℕ
  -- `as_secs_f64` of a duration, and `Duration::from_secs_f64`
  pub as_secs : ℕ → W
  pub of_secs : W → ℕ

-- `as f32` of an `f64`
pub record Narrowing {ℓ κ} (W : Type ℓ) (V : Type κ) : Type (ℓ ⊔ κ) where
  pub narrow : W → V

-- The documented behaviour of `as u64`, and of literals, that the bounds rest on.
pub record IsFloat {ℓ} (W : Type ℓ) ⦃f : Float W⦄ : Type ℓ where
  pub to_u64-ratio : (n : ℕ) → n < 2 ^ 24 → f.to_u64 (f.ratio n 1) ≡ n
  pub to_u64-not-lt :
      (x y : W)
      → f.lt x y ≡ false
      → (f.is_nan x ≡ true) ⊎ (f.is_nan y ≡ true) ⊎ (f.to_u64 y ≤ f.to_u64 x)
  pub is_nan-ratio : (n : ℕ) → n < 2 ^ 24 → f.is_nan (f.ratio n 1) ≡ false

-- `clamp` of a float
abbrev pub clamp {ℓ} : {W : Type ℓ} ⦃f : Float W⦄ → W → W → W → W
clamp ⦃f⦄ x low high = if f.lt x low then low else if f.lt high x then high else x

-- `min` and `max` with a constant
abbrev pub at_most {ℓ} : {W : Type ℓ} ⦃f : Float W⦄ → W → W → W
at_most ⦃f⦄ x high = if f.lt x high then x else high

abbrev pub at_least {ℓ} : {W : Type ℓ} ⦃f : Float W⦄ → W → W → W
at_least ⦃f⦄ x low = if f.lt low x then x else low
