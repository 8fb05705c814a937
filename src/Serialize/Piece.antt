-- ===== src/Serialize/Piece.antt =====
-- What a bit buffer of gbnet/src/serialize/mod.rs holds, and one round of a write, which stays
-- within a byte.
use Prim.Native.Nat.{bit_or}
use gbnet.Prelude.{
  ℕ, ◌+◌, ◌-◌, ◌*◌, ◌/◌, ◌%◌, ◌^◌, ◌<◌, ◌≤◌, ◌≡◌, refl, sym, ap, ◌∙◌, true, false, Bool-cases, inl,
  inr, ltb, ◌==◌, List, [], ◌∷◌, ◌++◌, length, length-append, set, get_or, All, All-append,
  append-nil, arith,
}
use gbnet.Prelude.Bytes.{IsByte}
use gbnet.Prelude.Slices.{pow-pos, pow-add, bit_or-disjoint}
use native.Mathlib.Nat.{
  mul-le-mul_right, mul-lt-mul_of_pos_right, lt_of_mul-lt-mul_right, pow-le-pow_right, mod-eq_of_lt,
  div-add-mod', mul-add-mod_self_right, mul-mod_left, div-lt_iff_lt-mul,
}
use gbnet.Serialize.{BitBuffer, extend, piece, write_piece}
use gbnet.Serialize.Value.{bits_in, value, value-append}

-- The free bits of the last byte.
abbrev pub padding : BitBuffer → ℕ
padding b = bits_in b.buffer - b.bit_pos

-- The buffer holds the bits of a number, the first bit highest, with zeros after them up to the
-- end of the last byte.
pub record Holds (b : BitBuffer) (n : ℕ) : Type 0 where
  pub writing : b.measure_only ≡ false
  pub covered : b.bit_pos ≤ bits_in b.buffer
  pub tight : bits_in b.buffer < b.bit_pos + 8
  pub bytes : All IsByte b.buffer
  pub number : value b.buffer ≡ n * 2 ^ padding b

-- The byte that is written next stands last.
record Extended (b : BitBuffer) (n : ℕ) : Type 0 where
  front : List ℕ
  byte : ℕ
  split : extend b.buffer (b.bit_pos / 8) ≡ front ++ byte ∷ []
  place : length front ≡ b.bit_pos / 8
  bytes : All IsByte front
  small : byte < 256
  number : value front * 256 + byte ≡ n * 2 ^ (8 - b.bit_pos % 8)

pub snoc :
    (l : List ℕ)
    → 0 < length l
    → All IsByte l
    → (front : List ℕ) × (byte : ℕ) × (l ≡ front ++ byte ∷ []) × All IsByte front × (byte < 256)
snoc [] h a = absurd (omega arith)
snoc (x ∷ []) h (a, as_) = ([], x, refl, tt, a)
snoc (x ∷ y ∷ l) h (a, as_) =
    let (front, byte, e, f, s) = snoc (y ∷ l) (omega arith) as_ in
    (x ∷ front, byte, ap (λ t. x ∷ t) e, (a, f), s)

pub value-snoc : (front : List ℕ) (byte : ℕ) → value (front ++ byte ∷ []) ≡ value front * 256 + byte
unfolding value
value-snoc front byte = omega (arith, value-append front (byte ∷ []))

Extended-aligned : (b : BitBuffer) (n : ℕ) → Holds b n → b.bit_pos % 8 ≡ 0 → Extended b n
unfolding extend
Extended-aligned b n h a =
    let none_free : padding b ≡ 0 = omega (arith, h.covered, h.tight) in
    let one : b.bit_pos / 8 + 1 - length b.buffer ≡ 1 = omega (arith, h.covered, h.tight) in
    record {
      front = b.buffer;
      byte = 0;
      split = rw (one) refl;
      place = omega (arith, h.covered, h.tight);
      bytes = h.bytes;
      small = omega arith;
      number = rw (a) (omega (arith, (rw (none_free) at h.number)));
    }

Extended-within : (b : BitBuffer) (n : ℕ) → Holds b n → 0 < b.bit_pos % 8 → Extended b n
unfolding extend
Extended-within b n h a =
    let (front, byte, e, f, s) = snoc b.buffer (omega (arith, h.covered)) h.bytes in
    let none : b.bit_pos / 8 + 1 - length b.buffer ≡ 0 = omega (arith, h.covered, h.tight) in
    let free : padding b ≡ 8 - b.bit_pos % 8 = omega (arith, h.covered, h.tight) in
    record {
      front = front;
      byte = byte;
      split = rw (none) (append-nil b.buffer ∙ e);
      place = omega (arith, h.covered, h.tight, ap length e, length-append front (byte ∷ []));
      bytes = f;
      small = s;
      number = sym (value-snoc front byte) ∙ ap value (sym e) ∙ (rw (free) at h.number);
    }

Holds-Extended : (b : BitBuffer) (n : ℕ) → Holds b n → Extended b n
Holds-Extended b n h = elim (Bool-cases (b.bit_pos % 8 == 0)) [
  | inl e ↦ Extended-aligned b n h (ground arith)
  | inr e ↦ Extended-within b n h (ground arith)
]

set-last : (front : List ℕ) (x y : ℕ) → set (front ++ x ∷ []) (length front) y ≡ front ++ y ∷ []
set-last [] x y = refl
set-last (z ∷ front) x y = ap (λ t. z ∷ t) (set-last front x y)

pub get_or-last : (front : List ℕ) (x : ℕ) → get_or (front ++ x ∷ []) (length front) 0 ≡ x
get_or-last [] x = refl
get_or-last (z ∷ front) x = get_or-last front x

-- The free bits of the last byte take a piece.
pub fill :
    (high byte n o w s x : ℕ)
    → o + (w + s) ≡ 8
    → byte < 256
    → high * 256 + byte ≡ n * 2 ^ (w + s)
    → x < 2 ^ w
    → (bit_or byte (x % 256 * 2 ^ s % 256) ≡ byte + x * 2 ^ s) × (byte + x * 2 ^ s < 256)
fill high byte n o w s x e hb number hx =
    let a = 2 ^ (w + s) in
    let q = byte / a in
    let whole : 2 ^ o * a ≡ 256 = sym (pow-add o (w + s)) ∙ ap (λ (k : ℕ). 2 ^ k) e in
    let spread : high * (2 ^ o * a) ≡ high * 2 ^ o * a = grind arith in
    let above : high * 256 ≡ high * 2 ^ o * a = ap (λ (k : ℕ). high * k) (sym whole) ∙ spread in
    let zeros : byte % a ≡ 0 =
      sym (mul-add-mod_self_right (high * 2 ^ o) a byte)
      ∙ ap (λ (k : ℕ). k % a) (omega (arith, above, number))
      ∙ mul-mod_left n a in
    let parts : q * a ≡ byte = omega (arith, div-add-mod' byte a, zeros) in
    let small : x * 2 ^ s < a = rw (pow-add w s) (mul-lt-mul_of_pos_right hx (pow-pos s)) in
    let fits : q < 2 ^ o = lt_of_mul-lt-mul_right a (omega (arith, parts, whole)) in
    let top : (q + 1) * a ≤ 2 ^ o * a = mul-le-mul_right a (omega (arith, fits)) in
    let grown : (q + 1) * a ≡ q * a + a = grind arith in
    let narrow : 2 ^ w ≤ 2 ^ 8 = pow-le-pow_right {n = 2} (omega arith) {j = 8} (omega arith) in
    let cut : x % 256 ≡ x = mod-eq_of_lt (omega (arith, narrow)) in
    let under : byte + x * 2 ^ s < 256 = omega (arith, parts, small, top, grown, whole) in
    let cut' : x * 2 ^ s % 256 ≡ x * 2 ^ s = mod-eq_of_lt (omega (arith, under)) in
    let joined : bit_or (q * a) (x * 2 ^ s) ≡ q * a + x * 2 ^ s =
      bit_or-disjoint q (w + s) (x * 2 ^ s) small in
    (rw (cut, cut') (rw (parts) at joined), under)

-- A piece of a value: its highest bits.
top_bits : (val w c : ℕ) → val < 2 ^ (w + c) → val / 2 ^ c < 2 ^ w
top_bits val w c h = (div-lt_iff_lt-mul (pow-pos c)).1 (rw (pow-add w c) at h)

pub write_piece-Holds :
    (b : BitBuffer) (n val remaining : ℕ)
    → Holds b n
    → 0 < remaining
    → remaining ≤ 64
    → val < 2 ^ remaining
    → Holds
        (write_piece b val remaining)
        (n * 2 ^ piece b.bit_pos remaining + val / 2 ^ (remaining - piece b.bit_pos remaining))
unfolding write_piece
write_piece-Holds b n val remaining h p k hv =
    let w = piece b.bit_pos remaining in
    let c = remaining - w in
    let o = b.bit_pos % 8 in
    let s = 8 - o - w in
    let x = val / 2 ^ c in
    let e = Holds-Extended b n h in
    let width : w + c ≡ remaining = omega arith in
    let free : 8 - o ≡ w + s = omega arith in
    let hx : x < 2 ^ w = top_bits val w c (rw (sym width) at hv) in
    let word : ltb c 64 ≡ true = ground arith in
    let mask : x % 2 ^ w ≡ x = mod-eq_of_lt hx in
    let (joined, under) =
      fill (value e.front) e.byte n o w s x (omega arith) e.small (rw (free) at e.number) hx in
    let y = e.byte + x * 2 ^ s in
    let at_end : set (e.front ++ e.byte ∷ []) (b.bit_pos / 8) y ≡ e.front ++ y ∷ [] =
      ap (λ (i : ℕ). set (e.front ++ e.byte ∷ []) i y) (sym e.place) ∙ set-last e.front e.byte y in
    let last : get_or (e.front ++ e.byte ∷ []) (b.bit_pos / 8) 0 ≡ e.byte =
      ap (λ (i : ℕ). get_or (e.front ++ e.byte ∷ []) i 0) (sym e.place)
      ∙ get_or-last e.front e.byte in
    let buffer : (write_piece b val remaining).buffer ≡ e.front ++ y ∷ [] =
      rw (word, mask, e.split, last, joined) at_end in
    let b' = write_piece b val remaining in
    let count : length b'.buffer ≡ b.bit_pos / 8 + 1 =
      omega (arith, ap length buffer, length-append e.front (y ∷ []), e.place) in
    let free' : padding b' ≡ s = omega (arith, count) in
    let spread : (n * 2 ^ w + x) * 2 ^ s ≡ n * (2 ^ w * 2 ^ s) + x * 2 ^ s = grind arith in
    let power : n * 2 ^ (8 - o) ≡ n * (2 ^ w * 2 ^ s) =
      ap (λ (t : ℕ). n * 2 ^ t) free ∙ ap (λ (t : ℕ). n * t) (pow-add w s) in
    record {
      writing = h.writing;
      covered = omega (arith, count);
      tight = omega (arith, count);
      bytes = rw (buffer) (All-append IsByte e.front (y ∷ []) e.bytes (under, tt));
      number =
          ap value buffer
          ∙ value-snoc e.front y
          ∙ omega (arith, e.number, spread, power)
          ∙ ap (λ (t : ℕ). (n * 2 ^ w + x) * 2 ^ t) (sym free');
    }
