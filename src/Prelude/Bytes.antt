-- ===== src/Prelude/Bytes.antt =====
-- Fixed-width integers as bytes: Rust's `to_be_bytes`, `to_le_bytes` and their inverses.
use Prim.Native.Nat.{ℕ, ◌+◌, ◌*◌, ◌/◌, ◌%◌, ◌<◌}
use mathlib.Core.Path.{◌≡◌}
use mathlib.Core.Logic.{◌↔◌}
use mathlib.Core.Bool.{Bool, true, false, ◌&&◌}
use mathlib.Core.List.{List, [], ◌∷◌}
use native.Mathlib.Omega.{arith}
use gbnet.Prelude.Tests.{◌==◌}

abbrev pub IsByte : ℕ → Type 0
IsByte b = b < 256

abbrev pub u16_to_be_bytes : ℕ → List ℕ
u16_to_be_bytes x = (x / 256 % 256) ∷ (x % 256) ∷ []

abbrev pub u16_from_be_bytes : ℕ → ℕ → ℕ
u16_from_be_bytes a b = a * 256 + b

abbrev pub u32_to_be_bytes : ℕ → List ℕ
u32_to_be_bytes x = (x / 0x1000000 % 256) ∷ (x / 0x10000 % 256) ∷ (x / 0x100 % 256) ∷ (x % 256) ∷ []

abbrev pub u32_from_be_bytes : ℕ → ℕ → ℕ → ℕ → ℕ
u32_from_be_bytes a b c d = a * 0x1000000 + b * 0x10000 + c * 0x100 + d

abbrev pub u32_to_le_bytes : ℕ → List ℕ
u32_to_le_bytes x = (x % 256) ∷ (x / 0x100 % 256) ∷ (x / 0x10000 % 256) ∷ (x / 0x1000000 % 256) ∷ []

abbrev pub u32_from_le_bytes : ℕ → ℕ → ℕ → ℕ → ℕ
u32_from_le_bytes a b c d = a + b * 0x100 + c * 0x10000 + d * 0x1000000

abbrev pub u16_to_le_bytes : ℕ → List ℕ
u16_to_le_bytes x = (x % 256) ∷ (x / 256 % 256) ∷ []

abbrev pub u64_to_le_bytes : ℕ → List ℕ
u64_to_le_bytes x =
    (x % 256)
    ∷ (x / 0x100 % 256)
    ∷ (x / 0x10000 % 256)
    ∷ (x / 0x1000000 % 256)
    ∷ (x / 0x100000000 % 256)
    ∷ (x / 0x10000000000 % 256)
    ∷ (x / 0x1000000000000 % 256)
    ∷ (x / 0x100000000000000 % 256)
    ∷ []

-- from the lower four bytes and the upper four
abbrev pub u64_from_le_bytes : ℕ → ℕ → ℕ → ℕ → ℕ → ℕ → ℕ → ℕ → ℕ
u64_from_le_bytes a b c d e f g h =
    u32_from_le_bytes a b c d + u32_from_le_bytes e f g h * 0x100000000

pub u16_from-to_be_bytes : (x : ℕ) → x < 0x10000 → u16_from_be_bytes (x / 256 % 256) (x % 256) ≡ x
u16_from-to_be_bytes x h = omega arith

pub u32_from-to_be_bytes :
    (x : ℕ)
    → x < 0x100000000
    → u32_from_be_bytes (x / 0x1000000 % 256) (x / 0x10000 % 256) (x / 0x100 % 256) (x % 256) ≡ x
u32_from-to_be_bytes x h = omega arith

pub u32_from-to_le_bytes :
    (x : ℕ)
    → x < 0x100000000
    → u32_from_le_bytes (x % 256) (x / 0x100 % 256) (x / 0x10000 % 256) (x / 0x1000000 % 256) ≡ x
u32_from-to_le_bytes x h = omega arith

-- `==` on byte arrays
abbrev pub bytes_eq : List ℕ → List ℕ → Bool
bytes_eq [] [] = true
bytes_eq [] (b ∷ bs) = false
bytes_eq (a ∷ as_) [] = false
bytes_eq (a ∷ as_) (b ∷ bs) = a == b && bytes_eq as_ bs

pub bytes_eq_iff : (xs ys : List ℕ) → (bytes_eq xs ys ≡ true) ↔ (xs ≡ ys)
bytes_eq_iff [] [] = ground arith
bytes_eq_iff [] (y ∷ ys) = ground arith
bytes_eq_iff (x ∷ xs) [] = ground arith
bytes_eq_iff (x ∷ xs) (y ∷ ys) = ground (arith, bytes_eq_iff xs ys)
