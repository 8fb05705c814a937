-- ===== src/Serialize/Tests.antt =====
-- Runs of the bit buffer of gbnet/src/serialize/mod.rs.
use gbnet.Prelude.{ℕ, ◌≡◌, ◌++◌, refl, ok, err, true, Result, List, [], ◌∷◌, arith}
use gbnet.Serialize.{
  BitBuffer, IoError, invalid_input, new, from_bytes, write_bits, read_bits, into_bytes,
}
use gbnet.Serialize.Fields.{write_fields, read_fields, total}
use gbnet.Serialize.Read.{taken, read_bits-taken}
use gbnet.Serialize.RoundTrip.{widths, values, advance, read_fields-write_fields}

abbrev after : Result BitBuffer IoError → BitBuffer
after (ok b) = b
after (err e) = new

abbrev mixed : BitBuffer
unfolding write_bits
mixed = after (write_bits (after (write_bits (after (write_bits new 5 3)) 1000 13)) 70000 24)

-- 101 0001111101000 000000010001000101110000
into_bytes-mixed : into_bytes mixed true ≡ 0xA3 ∷ 0xE8 ∷ 1 ∷ 17 ∷ 112 ∷ []
unfolding into_bytes write_bits
into_bytes-mixed = refl

read_bits-odd :
    read_bits (record (from_bytes (0xA3 ∷ 0xE8 ∷ 1 ∷ [])) { read_pos = 3 }) 13
    ≡ ok (1000, record (from_bytes (0xA3 ∷ 0xE8 ∷ 1 ∷ [])) { read_pos = 16 })
unfolding read_bits
read_bits-odd = refl

write_bits-wide : write_bits new 0 65 ≡ err invalid_input
unfolding write_bits
write_bits-wide = refl

abbrev odd : BitBuffer
odd = record (from_bytes (0xA3 ∷ 0xE8 ∷ 1 ∷ [])) { read_pos = 3 }

read_bits-taken_example : read_bits odd 13 ≡ taken odd 13
read_bits-taken_example =
    read_bits-taken odd 13 (omega arith, (omega arith, (omega arith, tt))) (omega arith)
      (omega arith)

abbrev fields : List (ℕ × ℕ)
fields = (3, 5) ∷ (13, 1000) ∷ (24, 70000) ∷ []

read_fields-write_fields_example :
    (b : BitBuffer) × (write_fields new fields ≡ ok b)
    × (read_fields (from_bytes (into_bytes b true ++ 9 ∷ [])) (widths fields)
        ≡ ok (values fields, advance (from_bytes (into_bytes b true ++ 9 ∷ [])) (total fields)))
read_fields-write_fields_example =
    read_fields-write_fields fields (9 ∷ [])
      ((omega arith, omega arith), ((omega arith, omega arith), ((omega arith, omega arith), tt)))
      refl (omega arith, tt)
