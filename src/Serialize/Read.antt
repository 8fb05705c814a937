-- ===== src/Serialize/Read.antt =====
-- One read from the bit buffer of gbnet/src/serialize/mod.rs, on either of its paths.
use Prim.Native.Nat.{bit_or}
use gbnet.Prelude.{
  ℕ, zero, suc, ◌+◌, ◌-◌, ◌*◌, ◌/◌, ◌%◌, ◌^◌, ◌<◌, ◌≤◌, ◌≡◌, refl, sym, ap, ◌∙◌, true, false, ◌&&◌,
  Result, ok, err, Bool-cases, inl, inr, ltb, leb, ◌==◌, if◌then◌else◌, List, length, All, arith,
}
use gbnet.Prelude.Bytes.{IsByte}
use gbnet.Prelude.Slices.{
  pow-pos, pow-add, slice, slice-lt, slice-slice, slice-append, bit_or-disjoint,
}
use native.Mathlib.Nat.{
  add-zero, zero-add, zero-mul, mul-lt-mul_of_pos_right, pow-le-pow_right, mod-eq_of_lt,
}
use gbnet.Serialize.{
  IoError, unexpected_eof, BitBuffer, piece, read_bytes, read_bytes_fast, read_piece, read_pieces,
  read_bits,
}
use gbnet.Serialize.Value.{bits_in, value, get_or-value}

-- `value |= x << shift`, where the value has nothing below.
join :
    (high x w shift : ℕ)
    → x < 2 ^ w
    → w + shift ≤ 64
    → bit_or (high * 2 ^ (w + shift)) (x * 2 ^ shift % 2 ^ 64) ≡ (high * 2 ^ w + x) * 2 ^ shift
join high x w shift hx h =
    let small : x * 2 ^ shift < 2 ^ (w + shift) =
      rw (pow-add w shift) (mul-lt-mul_of_pos_right hx (pow-pos shift)) in
    let word : 2 ^ (w + shift) ≤ 2 ^ 64 = pow-le-pow_right {n = 2} (omega arith) h in
    let whole : x * 2 ^ shift % 2 ^ 64 ≡ x * 2 ^ shift =
      mod-eq_of_lt (omega (arith, small, word)) in
    let spread : (high * 2 ^ w + x) * 2 ^ shift ≡ high * (2 ^ w * 2 ^ shift) + x * 2 ^ shift =
      grind arith in
    rw (whole, bit_or-disjoint high (w + shift) (x * 2 ^ shift) small, spread, pow-add w shift) refl

-- What is still to be read, from the position on.
abbrev pub left_in : BitBuffer → ℕ
left_in b = bits_in b.buffer - b.read_pos

piece_mask : (w : ℕ) → w ≤ 8 → (if leb 8 w then 256 else 2 ^ w) ≡ 2 ^ w
piece_mask w h = elim (Bool-cases (leb 8 w)) [
  | inl e ↦ let full : w ≡ 8 = ground arith in rw (full) refl
  | inr e ↦ rw (e) refl
]

read_piece_lem :
    (b : BitBuffer) (remaining : ℕ)
    → All IsByte b.buffer
    → b.read_pos < bits_in b.buffer
    → read_piece b remaining
      ≡ slice (value b.buffer) (left_in b - piece b.read_pos remaining) (piece b.read_pos remaining)
unfolding read_piece
read_piece_lem b remaining hs h =
    let r = b.read_pos in
    let v = value b.buffer in
    let w = piece r remaining in
    let s = 8 - r % 8 - w in
    let base = 8 * (length b.buffer - 1 - r / 8) in
    let full : s + (w + r % 8) ≡ 8 = omega arith in
    let place : base + s ≡ left_in b - w = omega arith in
    rw (piece_mask w (omega arith)) (
      ap (λ (n : ℕ). n / 2 ^ s % 2 ^ w) (get_or-value b.buffer (r / 8) hs (omega arith))
      ∙ ap (λ (n : ℕ). slice (slice v base n) s w) (sym full)
      ∙ slice-slice v base s w (r % 8)
      ∙ ap (λ (n : ℕ). slice v n w) place)

-- To read nothing changes nothing.
slice-nothing : (v s : ℕ) → slice v s 0 ≡ 0
slice-nothing v s = omega arith

read-nothing :
    (b : BitBuffer) (v s high remaining : ℕ)
    → remaining ≡ 0
    → ◌≡◌ {A = Result (ℕ × BitBuffer) IoError} (ok (high * 2 ^ remaining, b)) (
        ok (
          high * 2 ^ remaining + slice v s remaining,
          record b { read_pos = b.read_pos + remaining },
        ))
read-nothing b v s high remaining e =
    rw (e, slice-nothing v s, add-zero b.read_pos, add-zero (high * 2 ^ 0)) refl

read-same :
    (b : BitBuffer) (n n' p p' : ℕ)
    → n ≡ n'
    → p ≡ p'
    → ◌≡◌ {A = Result (ℕ × BitBuffer) IoError}
        (ok (n, record b { read_pos = p }))
        (ok (n', record b { read_pos = p' }))
read-same b n n' p p' e f = rw (e, f) refl

-- A round and what follows it read the run together.
round_and_rest :
    (v s a c high : ℕ)
    → (high * 2 ^ a + slice v (s + c) a) * 2 ^ c + slice v s c
      ≡ high * 2 ^ (c + a) + slice v s (c + a)
round_and_rest v s a c high =
    let spread : (high * 2 ^ a + slice v (s + c) a) * 2 ^ c
        ≡ high * (2 ^ c * 2 ^ a) + slice v (s + c) a * 2 ^ c =
      grind arith in
    let power : high * 2 ^ (c + a) ≡ high * (2 ^ c * 2 ^ a) = rw (pow-add c a) refl in
    omega (arith, spread, power, slice-append v s a c)

-- Each way to read gives the run of bits at the position.
read_pieces_lem :
    (n : ℕ) (b : BitBuffer) (remaining high : ℕ)
    → All IsByte b.buffer
    → remaining ≤ n
    → remaining ≤ 64
    → b.read_pos + remaining ≤ bits_in b.buffer
    → read_pieces n b remaining (high * 2 ^ remaining)
      ≡ ok (
        high * 2 ^ remaining + slice (value b.buffer) (left_in b - remaining) remaining,
        record b { read_pos = b.read_pos + remaining },
      )
unfolding read_pieces
read_pieces_lem zero b remaining high hs h k l =
    read-nothing b (value b.buffer) (left_in b - remaining) high remaining (omega arith)
read_pieces_lem (suc n) b zero high hs h k l =
    read-nothing b (value b.buffer) (left_in b - 0) high 0 refl
read_pieces_lem (suc n) b (suc m) high hs h k l =
    let remaining = suc m in
    let v = value b.buffer in
    let w = piece b.read_pos remaining in
    let c = remaining - w in
    let x = slice v (left_in b - w) w in
    let width : w + c ≡ remaining = omega arith in
    let width' : c + w ≡ remaining = omega arith in
    let inside : leb (length b.buffer) (b.read_pos / 8) ≡ false = ground arith in
    let word : ltb c 64 ≡ true = ground arith in
    let more : ltb 0 remaining ≡ true = ground arith in
    let joined : bit_or (high * 2 ^ remaining) (x * 2 ^ c % 2 ^ 64) ≡ (high * 2 ^ w + x) * 2 ^ c =
      rw (width) at (join high x w c (slice-lt v (left_in b - w) w) (omega arith)) in
    let s = left_in b - remaining in
    let b' = record b { read_pos = b.read_pos + w } in
    let start : left_in b' - c ≡ s = omega arith in
    let above : left_in b - w ≡ s + c = omega arith in
    let end : b.read_pos + w + c ≡ b.read_pos + remaining = omega arith in
    let number : (high * 2 ^ w + x) * 2 ^ c + slice v (left_in b' - c) c
        ≡ high * 2 ^ remaining + slice v s remaining =
      ap (λ (t : ℕ). (high * 2 ^ w + slice v t w) * 2 ^ c + slice v (left_in b' - c) c) above
      ∙ ap (λ (t : ℕ). (high * 2 ^ w + slice v (s + c) w) * 2 ^ c + slice v t c) start
      ∙ round_and_rest v s w c high
      ∙ ap (λ (t : ℕ). high * 2 ^ t + slice v s t) width' in
    rw (more, inside, word, read_piece_lem b remaining hs (omega arith), joined)
      (read_pieces_lem n b' c (high * 2 ^ w + x) hs (omega arith) (omega arith) (omega arith)
        ∙ read-same b _ _ _ _ number end)

read_bytes_lem :
    (n : ℕ) (bytes : List ℕ) (start high : ℕ)
    → All IsByte bytes
    → n ≤ 8
    → start + n ≤ length bytes
    → read_bytes bytes start n (high * 2 ^ (8 * n))
      ≡ high * 2 ^ (8 * n) + slice (value bytes) (8 * (length bytes - start - n)) (8 * n)
unfolding read_bytes
read_bytes_lem zero bytes start high hs h l =
    sym (rw (slice-nothing (value bytes) (8 * (length bytes - start - 0))) (add-zero (high * 1)))
read_bytes_lem (suc n) bytes start high hs h l =
    let v = value bytes in
    let c = 8 * n in
    let s = 8 * (length bytes - start - suc n) in
    let x = slice v (8 * (length bytes - 1 - start)) 8 in
    let width : 8 + c ≡ 8 * suc n = omega arith in
    let width' : c + 8 ≡ 8 * suc n = omega arith in
    let above : 8 * (length bytes - 1 - start) ≡ s + c = omega arith in
    let start' : 8 * (length bytes - (start + 1) - n) ≡ s = omega arith in
    let joined : bit_or (high * 2 ^ (8 * suc n)) (x * 2 ^ c % 2 ^ 64) ≡ (high * 2 ^ 8 + x) * 2 ^ c =
      rw (width) at
        (join high x 8 c (slice-lt v (8 * (length bytes - 1 - start)) 8) (omega arith)) in
    rw (get_or-value bytes start hs (omega arith), joined)
      (read_bytes_lem n bytes (start + 1) (high * 2 ^ 8 + x) hs (omega arith) (omega arith)
        ∙ ap (λ (t : ℕ). (high * 2 ^ 8 + x) * 2 ^ c + slice v t c) start'
        ∙ ap (λ (t : ℕ). (high * 2 ^ 8 + slice v t 8) * 2 ^ c + slice v s c) above
        ∙ round_and_rest v s 8 c high
        ∙ ap (λ (t : ℕ). high * 2 ^ t + slice v s t) width')

-- What `read_bits` gives at a position: the bits from there on, the first highest, or an error where
-- there are too few.
abbrev pub taken : BitBuffer → ℕ → Result (ℕ × BitBuffer) IoError
taken b bits =
    if ltb (bits_in b.buffer) (b.read_pos + bits)
    then err unexpected_eof
    else ok
        (slice (value b.buffer) (left_in b - bits) bits, record b { read_pos = b.read_pos + bits })

read_pieces-eof :
    (n : ℕ) (b : BitBuffer) (remaining val : ℕ)
    → remaining ≤ n
    → 0 < remaining
    → bits_in b.buffer < b.read_pos + remaining
    → read_pieces n b remaining val ≡ err unexpected_eof
unfolding read_pieces
read_pieces-eof zero b remaining val h p l = absurd (omega arith)
read_pieces-eof (suc n) b remaining val h p l =
    let w = piece b.read_pos remaining in
    let more : ltb 0 remaining ≡ true = ground arith in
    elim (Bool-cases (leb (length b.buffer) (b.read_pos / 8))) [
      | inl e ↦ rw (more, e) refl
      | inr e ↦
          let inside : b.read_pos / 8 < length b.buffer = ground arith in
          rw (more, e)
            (read_pieces-eof n (record b { read_pos = b.read_pos + w }) (remaining - w) _
              (omega arith) (omega arith) (omega arith))
    ]

pieces-taken :
    (b : BitBuffer) (bits : ℕ)
    → All IsByte b.buffer
    → 0 < bits
    → bits ≤ 64
    → read_pieces bits b bits 0 ≡ taken b bits
pieces-taken b bits hs p h = elim (Bool-cases (ltb (bits_in b.buffer) (b.read_pos + bits))) [
  | inl e ↦ rw (e) (read_pieces-eof bits b bits 0 (omega arith) p (ground arith))
  | inr e ↦
      let read = read_pieces_lem bits b bits 0 hs (omega arith) h (ground arith) in
      rw (e) (rw (zero-mul (2 ^ bits), zero-add) at read)
]

bytes-taken :
    (b : BitBuffer) (n : ℕ)
    → All IsByte b.buffer
    → b.read_pos % 8 ≡ 0
    → n ≤ 8
    → read_bytes_fast b n ≡ taken b (n * 8)
unfolding read_bytes_fast
bytes-taken b n hs a h =
    let same : ltb (length b.buffer) (b.read_pos / 8 + n)
        ≡ ltb (bits_in b.buffer) (b.read_pos + n * 8) =
      ground arith in
    elim (Bool-cases (ltb (bits_in b.buffer) (b.read_pos + n * 8))) [
      | inl e ↦ rw (same, e) refl
      | inr e ↦
          let place : 8 * (length b.buffer - b.read_pos / 8 - n) ≡ left_in b - n * 8 =
            omega arith in
          let width : 8 * n ≡ n * 8 = omega arith in
          let read : read_bytes b.buffer (b.read_pos / 8) n 0
              ≡ slice (value b.buffer) (8 * (length b.buffer - b.read_pos / 8 - n)) (8 * n) =
            rw (zero-mul (2 ^ (8 * n)), zero-add) at
              (read_bytes_lem n b.buffer (b.read_pos / 8) 0 hs h (ground arith)) in
          rw (same, e)
            (read-same b _ _ _ _
              (read
                ∙ ap (λ (t : ℕ). slice (value b.buffer) t (8 * n)) place
                ∙ ap (λ (t : ℕ). slice (value b.buffer) (left_in b - n * 8) t) width)
              refl)
    ]

-- On a buffer of bytes, at a position within it, and for at most 64 bits, read_bits gives the number
-- that the next bits make up, the first highest, and moves on by as many, on either of its paths;
-- it fails exactly where there are too few.
pub read_bits-taken :
    (b : BitBuffer) (bits : ℕ)
    → All IsByte b.buffer
    → b.read_pos ≤ bits_in b.buffer
    → bits ≤ 64
    → read_bits b bits ≡ taken b bits
unfolding read_bits
read_bits-taken b zero hs l h =
    let inside : ltb (bits_in b.buffer) (b.read_pos + 0) ≡ false = ground arith in
    rw (inside, slice-nothing (value b.buffer) (left_in b - 0), add-zero b.read_pos) refl
read_bits-taken b (suc m) hs l h =
    let bits = suc m in
    let narrow : ltb 64 bits ≡ false = ground arith in
    let some : (bits == 0) ≡ false = ground arith in
    elim (Bool-cases ((b.read_pos % 8 == 0) && (bits % 8 == 0))) [
      | inl e ↦
          let whole : bits / 8 * 8 ≡ bits = ground arith in
          rw (narrow, some, e)
            (bytes-taken b (bits / 8) hs (ground arith) (omega arith) ∙ ap (taken b) whole)
      | inr e ↦ rw (narrow, some, e) (pieces-taken b bits hs (omega arith) h)
    ]
