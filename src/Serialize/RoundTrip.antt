-- ===== src/Serialize/RoundTrip.antt =====
-- Fields that are written to the bit buffer of gbnet/src/serialize/mod.rs one after another, as the
-- code that `NetworkSerialize` derives does, and read back.
use gbnet.Prelude.{
  ℕ, ◌+◌, ◌-◌, ◌*◌, ◌/◌, ◌%◌, ◌^◌, ◌<◌, ◌≤◌, ◌≡◌, refl, sym, ap, ◌∙◌, true, false, ok, ◌==◌, ltb,
  List, [], ◌∷◌, ◌++◌, length, length-append, All, All-append, arith,
}
use gbnet.Prelude.Bytes.{IsByte}
use gbnet.Prelude.Slices.{pow-pos, pow-add, slice, mod_of_parts, div_of_parts, mod-mul}
use native.Mathlib.Nat.{mod-lt, mod-eq_of_lt, add-zero, zero-mul, mul-le-mul_right}
use gbnet.Serialize.{BitBuffer, read_bits, from_bytes, into_bytes, new}
use gbnet.Serialize.Fields.{write_fields, read_fields, total}
use gbnet.Serialize.Value.{bits_in, value, value-append, value-lt}
use gbnet.Serialize.Piece.{Holds, padding}
use gbnet.Serialize.Read.{left_in, read_bits-taken}
use gbnet.Serialize.Numbers.{number, Fits, number-lt, write_fields-Wrote}

abbrev pub advance : BitBuffer → ℕ → BitBuffer
advance b bits = record b { read_pos = b.read_pos + bits }

-- The `q` bits that are still to be read are those of a number.
pub record Ahead (b : BitBuffer) (q n : ℕ) : Type 0 where
  pub bytes : All IsByte b.buffer
  pub inside : b.read_pos + q ≡ bits_in b.buffer
  pub coming : value b.buffer % 2 ^ q ≡ n

pub read_bits-Ahead :
    (b : BitBuffer) (bits val q rest : ℕ)
    → Ahead b (bits + q) (val * 2 ^ q + rest)
    → Fits (bits, val)
    → rest < 2 ^ q
    → (read_bits b bits ≡ ok (val, advance b bits)) × Ahead (advance b bits) q rest
read_bits-Ahead b bits val q rest a (k, l) r =
    let v = value b.buffer in
    let digits : slice v q bits * 2 ^ q + v % 2 ^ q ≡ val * 2 ^ q + rest =
      sym (mod-mul v (2 ^ q) (2 ^ bits) (pow-pos q) (pow-pos bits))
      ∙ ap (λ (t : ℕ). v % t) (sym (pow-add q bits) ∙ ap (λ (t : ℕ). 2 ^ t) (omega arith))
      ∙ a.coming in
    let low = mod-lt v (pow-pos q) in
    let high : slice v q bits ≡ val =
      sym (div_of_parts (slice v q bits) (2 ^ q) (v % 2 ^ q) low)
      ∙ ap (λ (t : ℕ). t / 2 ^ q) digits
      ∙ div_of_parts val (2 ^ q) rest r in
    let under : v % 2 ^ q ≡ rest =
      sym (mod_of_parts (slice v q bits) (2 ^ q) (v % 2 ^ q) low)
      ∙ ap (λ (t : ℕ). t % 2 ^ q) digits
      ∙ mod_of_parts val (2 ^ q) rest r in
    let place : left_in b - bits ≡ q = omega (arith, a.inside) in
    let enough : ltb (bits_in b.buffer) (b.read_pos + bits) ≡ false = ground (arith, a.inside) in
    (
      read_bits-taken b bits a.bytes (omega (arith, a.inside)) k ∙ (rw (enough, place, high) refl),
      record { bytes = a.bytes; inside = omega (arith, a.inside); coming = under },
    )

-- A buffer of bytes that starts with fields, and has other bits behind them.
pub from_bytes-Ahead :
    (bytes : List ℕ) → All IsByte bytes → Ahead (from_bytes bytes) (bits_in bytes) (value bytes)
from_bytes-Ahead bytes h = record {
  bytes = h;
  inside = omega arith;
  coming = mod-eq_of_lt (value-lt bytes h);
}

abbrev pub widths : List (ℕ × ℕ) → List ℕ
widths [] = []
widths ((bits, _) ∷ fields) = bits ∷ widths fields

abbrev pub values : List (ℕ × ℕ) → List ℕ
values [] = []
values ((_, val) ∷ fields) = val ∷ values fields

-- The fields come next, and then `q` bits with the number `rest`.
abbrev pub Comes : BitBuffer → List (ℕ × ℕ) → ℕ → ℕ → Type 0
Comes b fields q rest = Ahead b (total fields + q) (number fields * 2 ^ q + rest)

pub read_bits-Comes :
    (b : BitBuffer) (bits val : ℕ) (fields : List (ℕ × ℕ)) (q rest : ℕ)
    → Comes b ((bits, val) ∷ fields) q rest
    → Fits (bits, val)
    → All Fits fields
    → rest < 2 ^ q
    → (read_bits b bits ≡ ok (val, advance b bits)) × Comes (advance b bits) fields q rest
unfolding number
read_bits-Comes b bits val fields q rest a fit fits r =
    let t = total fields in
    let m = number fields in
    let spread : (val * 2 ^ t + m) * 2 ^ q + rest ≡ val * (2 ^ t * 2 ^ q) + (m * 2 ^ q + rest) =
      grind arith in
    let power : val * (2 ^ t * 2 ^ q) ≡ val * 2 ^ (t + q) =
      ap (λ (k : ℕ). val * k) (sym (pow-add t q)) in
    let under : m * 2 ^ q + rest < 2 ^ (t + q) =
      let top : (m + 1) * 2 ^ q ≤ 2 ^ t * 2 ^ q =
        mul-le-mul_right (2 ^ q) (omega (arith, number-lt fields fits)) in
      let grown : (m + 1) * 2 ^ q ≡ m * 2 ^ q + 2 ^ q = grind arith in
      omega (arith, top, grown, pow-add t q) in
    read_bits-Ahead b bits val (t + q) (m * 2 ^ q + rest)
      (record {
        bytes = a.bytes;
        inside = omega (arith, a.inside);
        coming =
            ap (λ (k : ℕ). value b.buffer % 2 ^ k) (omega arith)
            ∙ a.coming
            ∙ omega (arith, spread, power);
      })
      fit under

pub read_fields-Comes :
    (fields : List (ℕ × ℕ)) (b : BitBuffer) (q rest : ℕ)
    → Comes b fields q rest
    → All Fits fields
    → rest < 2 ^ q
    → (read_fields b (widths fields) ≡ ok (values fields, advance b (total fields)))
      × Ahead (advance b (total fields)) q rest
unfolding read_fields number
read_fields-Comes [] b q rest a fits r = (
  rw (add-zero b.read_pos) refl,
  record {
    bytes = a.bytes;
    inside = omega (arith, a.inside);
    coming = ap (λ (k : ℕ). value b.buffer % 2 ^ k) (omega arith) ∙ a.coming ∙ omega arith;
  },
)
read_fields-Comes ((bits, val) ∷ fields) b q rest a (fit, fits) r =
    let (e, a') = read_bits-Comes b bits val fields q rest a fit fits r in
    let (e', a'') = read_fields-Comes fields (advance b bits) q rest a' fits r in
    let end : b.read_pos + bits + total fields ≡ b.read_pos + (bits + total fields) = omega arith in
    (rw (e, e', end) refl, rw (end) at a'')

pub new-Holds : Holds new 0
unfolding value
new-Holds = record {
  writing = refl;
  covered = omega arith;
  tight = omega arith;
  bytes = tt;
  number = omega arith;
}

-- Where whole bytes were written, nothing is added to them.
pub into_bytes-aligned : (b : BitBuffer) → b.bit_pos % 8 ≡ 0 → into_bytes b true ≡ b.buffer
unfolding into_bytes
into_bytes-aligned b a =
    let e : (b.bit_pos % 8 == 0) ≡ true = ground arith in rw (e, into_bytes) refl

-- What was written comes when it is read, and then the bytes behind it.
pub Holds-Comes :
    (b : BitBuffer) (fields : List (ℕ × ℕ)) (rest : List ℕ)
    → Holds b (number fields)
    → b.bit_pos ≡ total fields
    → b.bit_pos % 8 ≡ 0
    → All IsByte rest
    → Comes (from_bytes (b.buffer ++ rest)) fields (bits_in rest) (value rest)
Holds-Comes b fields rest h p a hr =
    let free : padding b ≡ 0 = omega (arith, h.covered, h.tight) in
    let count : length (b.buffer ++ rest) ≡ length b.buffer + length rest =
      length-append b.buffer rest in
    let whole : value b.buffer ≡ number fields = omega (arith, (rw (free) at h.number)) in
    let size : total fields + bits_in rest ≡ bits_in (b.buffer ++ rest) =
      omega (arith, count, h.covered, h.tight) in
    let bytes = from_bytes-Ahead (b.buffer ++ rest) (All-append IsByte b.buffer rest h.bytes hr) in
    record {
      bytes = bytes.bytes;
      inside = omega (arith, size);
      coming =
          ap (λ (k : ℕ). value (b.buffer ++ rest) % 2 ^ k) size
          ∙ bytes.coming
          ∙ value-append b.buffer rest
          ∙ ap (λ (k : ℕ). k * 2 ^ bits_in rest + value rest) whole;
    }

-- What was written comes when it is read, and then the zeros of the last byte.
pub Holds-Comes-padded :
    (b : BitBuffer) (fields : List (ℕ × ℕ))
    → Holds b (number fields)
    → b.bit_pos ≡ total fields
    → Comes (from_bytes b.buffer) fields (padding b) 0
Holds-Comes-padded b fields h p =
    let bytes = from_bytes-Ahead b.buffer h.bytes in
    let size : total fields + padding b ≡ bits_in b.buffer = omega (arith, h.covered) in
    record {
      bytes = bytes.bytes;
      inside = omega (arith, size);
      coming = ap (λ (k : ℕ). value b.buffer % 2 ^ k) size ∙ bytes.coming ∙ omega (arith, h.number);
    }

-- Fields that fit into their widths and make up whole bytes, written to a new buffer one after
-- another, are read back from its bytes, whatever bytes follow them.
pub read_fields-write_fields :
    (fields : List (ℕ × ℕ)) (rest : List ℕ)
    → All Fits fields
    → total fields % 8 ≡ 0
    → All IsByte rest
    → (b : BitBuffer) × (write_fields new fields ≡ ok b)
      × (read_fields (from_bytes (into_bytes b true ++ rest)) (widths fields)
          ≡ ok (values fields, advance (from_bytes (into_bytes b true ++ rest)) (total fields)))
read_fields-write_fields fields rest fits a hr =
    let (b, e, w) = write_fields-Wrote fields new 0 new-Holds fits in
    let same : 0 * 2 ^ total fields + number fields ≡ number fields =
      omega (arith, zero-mul (2 ^ total fields)) in
    let aligned : b.bit_pos % 8 ≡ 0 = omega (arith, w.moved) in
    let comes =
      Holds-Comes b fields rest (rw (same) at w.holds) (omega (arith, w.moved)) aligned hr in
    let bytes : into_bytes b true ≡ b.buffer = into_bytes-aligned b aligned in
    (
      b,
      e,
      rw (bytes)
          (read_fields-Comes fields _ (bits_in rest) (value rest) comes fits (value-lt rest hr)).0,
    )
