-- ===== src/Serialize/Write.antt =====
-- One write to the bit buffer of gbnet/src/serialize/mod.rs, on either of its paths.
use gbnet.Prelude.{
  ℕ, zero, suc, ◌+◌, ◌-◌, ◌*◌, ◌/◌, ◌%◌, ◌^◌, ◌<◌, ◌≤◌, ◌≡◌, refl, sym, ap, ◌∙◌, Bool, true, false,
  ◌&&◌, ok, Bool-cases, inl, inr, ltb, leb, ◌==◌, if◌then◌else◌, ◌++◌, length, length-append,
  All-append, arith,
}
use mathlib.Core.Path.{subst}
use gbnet.Prelude.Bytes.{IsByte}
use gbnet.Prelude.Slices.{pow-pos, pow-add}
use native.Mathlib.Nat.{mod-lt, mod-eq_of_lt, div-add-mod'}
use gbnet.Serialize.{
  BitBuffer, piece, rest_of, write_piece, write_pieces, write_bits_optimized, write_bytes_fast,
  write_bits, be_bytes,
}
use gbnet.Serialize.Value.{
  bits_in, value, value-append, value-be_bytes, length-be_bytes, be_bytes-IsByte,
}
use gbnet.Serialize.Piece.{padding, Holds, write_piece-Holds}

-- A write of `bits` bits with the value `v` to a buffer that holds `n` ends in `b'`.
pub record Wrote (b : BitBuffer) (n bits v : ℕ) (b' : BitBuffer) : Type 0 where
  pub holds : Holds b' (n * 2 ^ bits + v)
  pub moved : b'.bit_pos ≡ b.bit_pos + bits

rest_of-eq-mod : (val c : ℕ) → c < 64 → rest_of val c ≡ val % 2 ^ c
rest_of-eq-mod val zero h = omega arith
rest_of-eq-mod val (suc c) h = ground arith

Wrote-nothing : (b : BitBuffer) (n val : ℕ) → Holds b n → val < 1 → Wrote b n 0 val b
Wrote-nothing b n val h hv =
    let same : n ≡ n * 2 ^ 0 + val = omega arith in
    record { holds = rw (same) at h; moved = omega arith }

write_pieces-Wrote :
    (rounds : ℕ) (b : BitBuffer) (n val remaining : ℕ)
    → Holds b n
    → remaining ≤ rounds
    → remaining ≤ 64
    → val < 2 ^ remaining
    → Wrote b n remaining val (write_pieces rounds b val remaining)
unfolding write_pieces
write_pieces-Wrote zero b n val zero h r k hv = Wrote-nothing b n val h hv
write_pieces-Wrote (suc rounds) b n val zero h r k hv = Wrote-nothing b n val h hv
write_pieces-Wrote zero b n val (suc m) h r k hv = absurd (omega arith)
write_pieces-Wrote (suc rounds) b n val (suc m) h r k hv =
    let remaining = suc m in
    let w = piece b.bit_pos remaining in
    let c = remaining - w in
    let x = val / 2 ^ c in
    let more : ltb 0 remaining ≡ true = ground arith in
    let width : c + w ≡ remaining = omega arith in
    let power : n * 2 ^ remaining ≡ n * (2 ^ w * 2 ^ c) =
      ap (λ (t : ℕ). n * t) (ap (λ (t : ℕ). 2 ^ t) (omega arith) ∙ pow-add w c) in
    let spread : (n * 2 ^ w + x) * 2 ^ c ≡ n * (2 ^ w * 2 ^ c) + x * 2 ^ c = grind arith in
    let whole : x * 2 ^ c + val % 2 ^ c ≡ val = div-add-mod' val (2 ^ c) in
    let rest =
      write_pieces-Wrote rounds (write_piece b val remaining) (n * 2 ^ w + x) (val % 2 ^ c) c
        (write_piece-Holds b n val remaining h (omega arith) k hv) (omega arith) (omega arith)
        (mod-lt val (pow-pos c)) in
    let total : (n * 2 ^ w + x) * 2 ^ c + val % 2 ^ c ≡ n * 2 ^ remaining + val =
      omega (arith, power, spread, whole) in
    rw (more, rest_of-eq-mod val c (omega arith))
      (record { holds = rw (total) at rest.holds; moved = rest.moved ∙ omega arith })

if-false {ℓ} : {A : Type ℓ} (c : Bool) (x y : A) → c ≡ false → (if c then x else y) ≡ y
if-false true x y h = cc
if-false false x y h = refl

write_bytes-Wrote :
    (b : BitBuffer) (n val bytes : ℕ)
    → Holds b n
    → b.bit_pos % 8 ≡ 0
    → val < 2 ^ (8 * bytes)
    → Wrote b n (bytes * 8) val (write_bytes_fast b val bytes)
unfolding write_bytes_fast
write_bytes-Wrote b n val bytes h a hv =
    let b' = record b {
      buffer = b.buffer ++ be_bytes bytes val;
      bit_pos = b.bit_pos + bytes * 8;
      unpadded_length = b.unpadded_length + bytes * 8;
    } in
    let free : padding b ≡ 0 = omega (arith, h.covered, h.tight) in
    let count : length b'.buffer ≡ length b.buffer + bytes =
      omega (arith, length-append b.buffer (be_bytes bytes val), length-be_bytes bytes val) in
    let free' : padding b' ≡ 0 = omega (arith, count, h.covered, h.tight) in
    let width : bits_in (be_bytes bytes val) ≡ bytes * 8 =
      omega (arith, length-be_bytes bytes val) in
    let low : value (be_bytes bytes val) ≡ val = value-be_bytes bytes val ∙ mod-eq_of_lt hv in
    let old : value b.buffer ≡ n = omega (arith, (rw (free) at h.number)) in
    let number : value b'.buffer ≡ n * 2 ^ (bytes * 8) + val =
      value-append b.buffer (be_bytes bytes val)
      ∙ ap (λ (t : ℕ). value b.buffer * 2 ^ t + value (be_bytes bytes val)) width
      ∙ ap (λ (t : ℕ). t * 2 ^ (bytes * 8) + value (be_bytes bytes val)) old
      ∙ ap (λ (t : ℕ). n * 2 ^ (bytes * 8) + t) low in
    let wrote : Wrote b n (bytes * 8) val b' = record {
      holds = record {
        writing = h.writing;
        covered = omega (arith, count, h.covered);
        tight = omega (arith, count, h.tight);
        bytes = All-append IsByte b.buffer (be_bytes bytes val) h.bytes (be_bytes-IsByte bytes val);
        number = rw (free') (omega (arith, number));
      };
      moved = refl;
    } in
    subst (λ (t : BitBuffer). Wrote b n (bytes * 8) val t)
      (sym (if-false b.measure_only _ _ h.writing)) wrote

optimized-Wrote :
    (b : BitBuffer) (n val bits : ℕ)
    → Holds b n
    → bits ≤ 64
    → val < 2 ^ bits
    → Wrote b n bits val (write_bits_optimized b val bits)
unfolding write_bits_optimized
optimized-Wrote b n val bits h k hv =
    let w = write_pieces bits b val bits in
    let wrote = write_pieces-Wrote bits b n val bits h (omega arith) k hv in
    let inner = wrote.holds in
    let counted : Wrote b n bits val (record w { unpadded_length = w.unpadded_length + bits }) =
      record {
        holds = record {
          writing = inner.writing;
          covered = inner.covered;
          tight = inner.tight;
          bytes = inner.bytes;
          number = inner.number;
        };
        moved = wrote.moved;
      } in
    subst (λ (t : BitBuffer). Wrote b n bits val t) (sym (if-false b.measure_only _ _ h.writing))
      counted

masked :
    (val bits : ℕ)
    → bits ≤ 64
    → val < 2 ^ 64
    → (if leb 64 bits then val else val % 2 ^ bits) ≡ val % 2 ^ bits
masked val bits k hv = elim (Bool-cases (leb 64 bits)) [
  | inl e ↦
      let full : bits ≡ 64 = ground arith in
      rw (e) (sym (ap (λ (t : ℕ). val % 2 ^ t) full ∙ mod-eq_of_lt hv))
  | inr e ↦ rw (e) refl
]

-- A write of at most 64 bits to a buffer that holds some bits succeeds, on either of its paths: then
-- the lowest bits of the value stand behind those that were there, and zeros fill the last byte.
pub write_bits-Wrote :
    (b : BitBuffer) (n val bits : ℕ)
    → Holds b n
    → bits ≤ 64
    → val < 2 ^ 64
    → (b' : BitBuffer) × (write_bits b val bits ≡ ok b') × Wrote b n bits (val % 2 ^ bits) b'
unfolding write_bits
write_bits-Wrote b n val zero h k hv = (b, refl, Wrote-nothing b n (val % 2 ^ 0) h (omega arith))
write_bits-Wrote b n val (suc m) h k hv =
    let bits = suc m in
    let narrow : ltb 64 bits ≡ false = ground arith in
    let some : (bits == 0) ≡ false = ground arith in
    let cut : (if leb 64 bits then val else val % 2 ^ bits) ≡ val % 2 ^ bits =
      masked val bits k hv in
    let below : val % 2 ^ bits < 2 ^ bits = mod-lt val (pow-pos bits) in
    elim (Bool-cases ((b.bit_pos % 8 == 0) && (bits % 8 == 0))) [
      | inl e ↦
          let whole : 8 * (bits / 8) ≡ bits = ground arith in
          let whole' : bits / 8 * 8 ≡ bits = ground arith in
          (
            write_bytes_fast b (val % 2 ^ bits) (bits / 8),
            rw (narrow, some, e, cut) refl,
            subst
                (λ (t : ℕ).
                  Wrote b n t (val % 2 ^ bits) (write_bytes_fast b (val % 2 ^ bits) (bits / 8)))
                whole'
                (write_bytes-Wrote b n (val % 2 ^ bits) (bits / 8) h (ground arith)
                  (rw (whole) below)),
          )
      | inr e ↦ (
        write_bits_optimized b (val % 2 ^ bits) bits,
        rw (narrow, some, e, cut) refl,
        optimized-Wrote b n (val % 2 ^ bits) bits h k below,
      )
    ]
