-- ===== src/Serialize/Fields.antt =====
-- What the code does that `NetworkSerialize` derives for a struct or for a variant of an enum, from
-- gbnet_macros/src/lib.rs: its fields are written one after another, and read in the same order.
use gbnet.Prelude.{ℕ, ◌+◌, ◌-◌, ◌^◌, ◌&&◌, Result, ok, err, ltb, if◌then◌else◌, List, [], ◌∷◌}
use gbnet.Serialize.{BitBuffer, IoError, invalid_data, write_bits, read_bits}

infixl 5 ◌>>=◌
abbrev pub ◌>>=◌ {ℓ κ} :
    {A : Type ℓ} {B : Type κ} → Result A IoError → (A → Result B IoError) → Result B IoError
ok a >>= f = f a
err e >>= f = err e

-- A field with its number of bits, as the derived code writes it.
unfoldable pub write_field : BitBuffer → ℕ → ℕ → Result BitBuffer IoError
write_field b bits val =
    if ltb bits 64 && ltb (2 ^ bits - 1) val then err invalid_data else write_bits b val bits

unfoldable pub write_fields : BitBuffer → List (ℕ × ℕ) → Result BitBuffer IoError
write_fields b [] = ok b
write_fields b ((bits, val) ∷ fields) = write_field b bits val >>= λ b'. write_fields b' fields

unfoldable pub read_fields : BitBuffer → List ℕ → Result (List ℕ × BitBuffer) IoError
read_fields b [] = ok ([], b)
read_fields b (bits ∷ widths) = read_bits b bits >>= λ (r : ℕ × BitBuffer).
    read_fields r.1 widths >>= λ (s : List ℕ × BitBuffer). ok (r.0 ∷ s.0, s.1)

abbrev pub total : List (ℕ × ℕ) → ℕ
total [] = 0
total ((bits, _) ∷ fields) = bits + total fields
