-- ===== src/Packet/RoundTrip.antt =====
-- What is written of a packet is read back, gbnet/src/packet.rs.
use gbnet.Prelude.{
  ℕ, ◌+◌, ◌-◌, ◌*◌, ◌/◌, ◌%◌, ◌^◌, ◌<◌, ◌≡◌, refl, sym, ap, ◌∙◌, true, false, ok, Bool-cases, inl,
  inr, List, [], ◌∷◌, ◌++◌, ltb, if◌then◌else◌, length, length-append, drop, drop-append, All,
  All-append, arith,
}
use gbnet.Prelude.Bytes.{IsByte}
use gbnet.Prelude.Slices.{pow-pos, pow-add}
use native.Mathlib.Nat.{zero-mod, zero-mul, add-zero, zero-add}
use gbnet.Serialize.{BitBuffer, new, from_bytes, into_bytes}
use gbnet.Serialize.Fields.{write_field, write_fields, total}
use gbnet.Serialize.Value.{bits_in, value, value-lt}
use gbnet.Serialize.Piece.{Holds}
use gbnet.Serialize.Write.{Wrote, write_bits-Wrote}
use gbnet.Serialize.Numbers.{number, number-append, total-append, Fits, write_fields-Wrote}
use gbnet.Serialize.RoundTrip.{new-Holds, Holds-Comes, into_bytes-aligned}
use gbnet.Packet.{PacketHeader, PacketType, connection_request, Packet}
use gbnet.Packet.Wire.{
  header_fields, variant_index, variant_fields, write_type, read_type, read_header, pad, serialize,
  align_rounds, with_rest, deserialize,
}
use gbnet.Packet.Reading.{index-Fits, read_type_lem, read_header_lem, align_rounds_lem}

-- Every field fits into its bits.
pub record IsWritable (p : Packet) : Type 0 where
  pub header_fits : All Fits (header_fields p.header)
  pub type_fits : All Fits (variant_fields p.packet_type)
  pub payload_bytes : All IsByte p.payload

write_type-eq-write_fields :
    (b : BitBuffer) (t : PacketType)
    → write_type b t ≡ write_fields b ((4, variant_index t) ∷ variant_fields t)
unfolding write_type write_fields write_field
write_type-eq-write_fields b connection_request = refl
write_type-eq-write_fields b t = refl

-- The padding is a field with the value 0.
padding_of : ℕ → ℕ
padding_of pos = (8 - pos % 8) % 8

pad-Wrote :
    (b : BitBuffer) (n : ℕ)
    → Holds b n
    → (b' : BitBuffer) × (pad b ≡ ok b') × Wrote b n (padding_of b.bit_pos) 0 b'
unfolding pad padding_of
pad-Wrote b n h = elim (Bool-cases (ltb 0 (padding_of b.bit_pos))) [
  | inl e ↦
      let (b', e', w) =
        write_bits-Wrote b n 0 (padding_of b.bit_pos) h (omega arith) (omega arith) in
      (b', rw (e) e', rw (zero-mod (2 ^ padding_of b.bit_pos)) at w)
  | inr e ↦
      let none : padding_of b.bit_pos ≡ 0 = ground arith in
      let same : n ≡ n * 2 ^ padding_of b.bit_pos + 0 = rw (none) (omega arith) in
      (b, rw (e) refl, record { holds = rw (same) at h; moved = omega (arith, none) })
]

rest_of_bytes :
    (xs ys : List ℕ)
    → (if ltb (length xs) (length (xs ++ ys)) then drop (length xs) (xs ++ ys) else []) ≡ ys
rest_of_bytes xs [] =
    let e : ltb (length xs) (length (xs ++ [])) ≡ false = ground (arith, length-append xs []) in
    rw (e) refl
rest_of_bytes xs (y ∷ ys) =
    let e : ltb (length xs) (length (xs ++ y ∷ ys)) ≡ true =
      ground (arith, length-append xs (y ∷ ys)) in
    rw (e) (drop-append xs (y ∷ ys))

deserialize_lem :
    (bytes : List ℕ) (h : PacketHeader) (t : PacketType) (b c d : BitBuffer)
    → 0 < length bytes
    → read_header (from_bytes bytes) ≡ ok (h, b)
    → read_type b ≡ ok (t, c)
    → align_rounds 7 c ≡ ok d
    → deserialize bytes ≡ ok (with_rest bytes h t d)
unfolding deserialize
deserialize_lem [] h t b c d l e e' e'' = absurd (omega arith)
deserialize_lem (x ∷ bytes) h t b c d l e e' e'' = simp (e, e', e'') refl

numbers :
    (n m p s t : ℕ)
    → ((0 * 2 ^ p + n) * 2 ^ s + m) * 2 ^ t + 0
      ≡ n * 2 ^ (s + (t + 0)) + (m * 2 ^ (t + 0) + (0 * 2 ^ 0 + 0))
numbers n m p s t =
    let (a, b) : ℕ × ℕ = (2 ^ s, 2 ^ t) in
    let spread : (n * a + m) * b ≡ n * (a * b) + m * b = grind arith in
    rw (zero-mul (2 ^ p), zero-add n, add-zero t, pow-add s t) (omega (arith, spread))

-- What is written of a packet, before the payload.
record Written (p : Packet) (b : BitBuffer) (padding : ℕ) : Type 0 where
  made : serialize p ≡ ok (into_bytes b true ++ p.payload)
  holds : Holds b (
      number (
        header_fields p.header
        ++ ((4, variant_index p.packet_type)
            ∷ (variant_fields p.packet_type ++ (padding, 0) ∷ []))))
  moved : b.bit_pos ≡ 132 + total (variant_fields p.packet_type) + padding
  filled : padding ≡ padding_of (132 + total (variant_fields p.packet_type))

serialize-Written :
    (p : Packet) → IsWritable p → (b : BitBuffer) × (padding : ℕ) × Written p b padding
unfolding serialize number
serialize-Written p w =
    let h = header_fields p.header in
    let t : List (ℕ × ℕ) = (4, variant_index p.packet_type) ∷ variant_fields p.packet_type in
    let fits : All Fits t = (index-Fits p.packet_type, w.type_fits) in
    let (b, e, wb) = write_fields-Wrote h new 0 new-Holds w.header_fits in
    let (c, e', wc) = write_fields-Wrote t b _ wb.holds fits in
    let (d, e'', wd) = pad-Wrote c _ wc.holds in
    let padding = padding_of c.bit_pos in
    let tail : List (ℕ × ℕ) = (padding, 0) ∷ [] in
    let same : ((0 * 2 ^ total h + number h) * 2 ^ total t + number t) * 2 ^ padding + 0
        ≡ number (h ++ (t ++ tail)) =
      numbers (number h) (number t) (total h) (total t) padding
      ∙ sym (
          number-append h (t ++ tail)
          ∙ ap (λ (k : ℕ). number h * 2 ^ k + number (t ++ tail)) (total-append t tail)
          ∙ ap (λ (k : ℕ). number h * 2 ^ (total t + total tail) + k) (number-append t tail)) in
    let sum : c.bit_pos ≡ 132 + total (variant_fields p.packet_type) =
      omega (arith, wb.moved, wc.moved) in
    (
      d,
      padding,
      record {
        made = simp (e, write_type-eq-write_fields, e', e'') refl;
        holds = rw (same) at wd.holds;
        moved = omega (arith, wb.moved, wc.moved, wd.moved);
        filled = ap padding_of sum;
      },
    )

-- A packet each of whose fields fits into its bits is serialized, and deserialized from these bytes.
pub deserialize-serialize_packet :
    (p : Packet)
    → IsWritable p
    → (bytes : List ℕ) × (serialize p ≡ ok bytes) × (deserialize bytes ≡ ok p)
unfolding with_rest padding_of
deserialize-serialize_packet p w =
    let (b, padding, wr) = serialize-Written p w in
    let v = variant_fields p.packet_type in
    let tail : List (ℕ × ℕ) = (padding, 0) ∷ [] in
    let mid : List (ℕ × ℕ) = (4, variant_index p.packet_type) ∷ (v ++ tail) in
    let tail_fits : All Fits tail = ((omega (arith, wr.filled), pow-pos padding), tt) in
    let mid_fits : All Fits mid =
      (index-Fits p.packet_type, All-append Fits v tail w.type_fits tail_fits) in
    let aligned : b.bit_pos % 8 ≡ 0 = omega (arith, wr.moved, wr.filled) in
    let size : b.bit_pos ≡ total (header_fields p.header ++ mid) =
      omega (arith, wr.moved, total-append v tail) in
    let bytes = b.buffer ++ p.payload in
    let written : into_bytes b true ≡ b.buffer = into_bytes-aligned b aligned in
    let comes =
      Holds-Comes b (header_fields p.header ++ mid) p.payload wr.holds size aligned
        w.payload_bytes in
    let below = value-lt p.payload w.payload_bytes in
    let (c, e, m) =
      read_header_lem (bits_in p.payload) (value p.payload) below mid mid_fits p.header
        (from_bytes bytes) comes w.header_fits in
    let (d, e', m') =
      read_type_lem (bits_in p.payload) (value p.payload) below tail tail_fits p.packet_type c
        m.comes w.type_fits in
    let end = (d.read_pos + 7) / 8 * 8 in
    let up : end ≡ b.bit_pos = omega (arith, m.moved, m'.moved, wr.moved, wr.filled) in
    let e'' =
      align_rounds_lem 7 d (omega arith)
        (omega (arith, m'.comes.inside, m.moved, m'.moved, up, wr.moved)) in
    let header_size : end / 8 ≡ length b.buffer =
      omega (arith, up, aligned, wr.holds.covered, wr.holds.tight) in
    let long : 0 < length bytes =
      omega (arith, length-append b.buffer p.payload, wr.moved, wr.holds.covered) in
    let kept : ok (with_rest bytes p.header p.packet_type (record d { read_pos = end })) ≡ ok p =
      rw (header_size, rest_of_bytes b.buffer p.payload) refl in
    (
      bytes,
      rw (written) at wr.made,
      deserialize_lem bytes p.header p.packet_type c d (record d { read_pos = end }) long e e' e''
          ∙ kept,
    )
