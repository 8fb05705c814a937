-- ===== src/Serialize/Padding.antt =====
-- `BitBuffer::flush` of gbnet/src/serialize/mod.rs: the bits of 0 up to a whole byte are there already.
use Prim.Native.Nat.{bit_and}
use gbnet.Prelude.{
  ℕ, zero, suc, ◌+◌, ◌-◌, ◌*◌, ◌/◌, ◌%◌, ◌^◌, ◌<◌, ◌≡◌, inl, inr, refl, sym, ap, ◌∙◌, Bool, true,
  false, not, ◌&&◌, ◌||◌, ◌==◌, leb, Bool-cases, List, [], ◌∷◌, ◌++◌, length, length-append, set,
  get_or, arith,
}
use gbnet.Prelude.Slices.{pow-add}
use native.Mathlib.Nat.{mul-add-mod_self_right, mul-mod_left, pow-suc}
use gbnet.Serialize.{BitBuffer, write_bit, flush_rounds, into_bytes, is_multiple_of_8}
use gbnet.Serialize.Value.{bits_in, value}
use gbnet.Serialize.Piece.{Holds, padding, snoc, value-snoc, get_or-last}

-- A test that every number below a bound passes.
all_below : ℕ → (ℕ → Bool) → Bool
all_below zero test = true
all_below (suc n) test = test n && all_below n test

all_below_lem : (n : ℕ) (test : ℕ → Bool) (i : ℕ) → all_below n test ≡ true → i < n → test i ≡ true
unfolding all_below
all_below_lem zero test i h l = absurd (omega arith)
all_below_lem (suc n) test i h l = elim (Bool-cases (i == n)) [
  | inl e ↦ let same : i ≡ n = ground arith in rw (same) (ground (arith, h))
  | inr e ↦ all_below_lem n test i (ground (arith, h)) (ground arith)
]

-- The bit that is cleared is 0 where the bits from it on are.
is_clear : ℕ → ℕ → Bool
is_clear byte offset =
    offset == 0
    || not (byte % 2 ^ (8 - offset) == 0)
    || bit_and byte (255 - 2 ^ (7 - offset)) == byte

all_clear : all_below 256 (λ byte. all_below 8 (λ offset. is_clear byte offset)) ≡ true
unfolding all_below is_clear
all_clear = refl

clear_lem :
    (byte offset : ℕ)
    → byte < 256
    → 0 < offset
    → offset < 8
    → byte % 2 ^ (8 - offset) ≡ 0
    → bit_and byte (255 - 2 ^ (7 - offset)) ≡ byte
unfolding is_clear
clear_lem byte offset h k l z =
    let row = all_below_lem 256 (λ b. all_below 8 (λ o. is_clear b o)) byte all_clear h in
    let here = all_below_lem 8 (λ o. is_clear byte o) offset row l in ground (arith, here)

low_zero : (high byte n o p : ℕ) → o + p ≡ 8 → high * 256 + byte ≡ n * 2 ^ p → byte % 2 ^ p ≡ 0
low_zero high byte n o p e number =
    let a = 2 ^ p in
    let whole : 2 ^ o * a ≡ 256 = sym (pow-add o p) ∙ ap (λ (k : ℕ). 2 ^ k) e in
    let spread : high * (2 ^ o * a) ≡ high * 2 ^ o * a = grind arith in
    let above : high * 256 ≡ high * 2 ^ o * a = ap (λ (k : ℕ). high * k) (sym whole) ∙ spread in
    sym (mul-add-mod_self_right (high * 2 ^ o) a byte)
    ∙ ap (λ (k : ℕ). k % a) (omega (arith, above, number))
    ∙ mul-mod_left n a

set-same : (l : List ℕ) (i : ℕ) → set l i (get_or l i 0) ≡ l
set-same [] i = refl
set-same (x ∷ l) zero = refl
set-same (x ∷ l) (suc i) = ap (λ t. x ∷ t) (set-same l i)

-- A position further on in the last byte: one more of its zeros belongs to the number.
Holds-moved :
    (b b' : BitBuffer) (n : ℕ)
    → Holds b n
    → 0 < b.bit_pos % 8
    → b'.measure_only ≡ false
    → b'.buffer ≡ b.buffer
    → b'.bit_pos ≡ b.bit_pos + 1
    → Holds b' (n * 2)
Holds-moved b b' n h a writes kept moved =
    let size : bits_in b'.buffer ≡ bits_in b.buffer = ap bits_in kept in
    let less : padding b ≡ suc (padding b') = omega (arith, h.covered, h.tight, size, moved) in
    let power : n * 2 ^ suc (padding b') ≡ n * 2 * 2 ^ padding b' =
      let twice : 2 ^ suc (padding b') ≡ 2 * 2 ^ padding b' =
        omega (arith, pow-suc 2 (padding b')) in
      ap (λ (k : ℕ). n * k) twice ∙ grind arith in
    record {
      writing = writes;
      covered = omega (arith, h.covered, h.tight, size, moved);
      tight = omega (arith, h.tight, size, moved);
      bytes = rw (kept) h.bytes;
      number = ap value kept ∙ h.number ∙ ap (λ (k : ℕ). n * 2 ^ k) less ∙ power;
    }

-- Within a byte, a bit of 0 is written where one stands.
write_bit-Holds :
    (b : BitBuffer) (n : ℕ)
    → Holds b n
    → 0 < b.bit_pos % 8
    → ((write_bit b false).buffer ≡ b.buffer) × Holds (write_bit b false) (n * 2)
unfolding write_bit
write_bit-Holds b n h a =
    let (front, byte, e, f, s) = snoc b.buffer (omega (arith, h.covered)) h.bytes in
    let off = b.bit_pos % 8 in
    let free : padding b ≡ 8 - off = omega (arith, h.covered, h.tight) in
    let number : value front * 256 + byte ≡ n * 2 ^ (8 - off) =
      sym (value-snoc front byte) ∙ ap value (sym e) ∙ (rw (free) at h.number) in
    let place : length front ≡ b.bit_pos / 8 =
      omega (arith, h.covered, h.tight, ap length e, length-append front (byte ∷ [])) in
    let last : get_or b.buffer (b.bit_pos / 8) 0 ≡ byte =
      ap (λ (l : List ℕ). get_or l (b.bit_pos / 8) 0) e
      ∙ ap (λ (i : ℕ). get_or (front ++ byte ∷ []) i 0) (sym place)
      ∙ get_or-last front byte in
    let zeros = low_zero (value front) byte n off (8 - off) (omega (arith, a)) number in
    let clear = clear_lem byte off s a (omega arith) zeros in
    let there : leb (length b.buffer) (b.bit_pos / 8) ≡ false = ground (arith, h.covered) in
    let kept : (write_bit b false).buffer ≡ b.buffer =
      simp (h.writing, there, write_bit)
        (ap (λ (x : ℕ). set b.buffer (b.bit_pos / 8) x)
            (ap (λ (x : ℕ). bit_and x (255 - 2 ^ (7 - off))) last ∙ clear ∙ sym last)
          ∙ set-same b.buffer (b.bit_pos / 8)) in
    let moved : (write_bit b false).bit_pos ≡ b.bit_pos + 1 = simp (h.writing, write_bit) refl in
    let writes : (write_bit b false).measure_only ≡ false = simp (h.writing, write_bit) refl in
    (kept, Holds-moved b (write_bit b false) n h a writes kept moved)

flush_rounds-buffer :
    (rounds : ℕ) (b : BitBuffer) (n : ℕ) → Holds b n → (flush_rounds rounds b).buffer ≡ b.buffer
unfolding flush_rounds
flush_rounds-buffer zero b n h = refl
flush_rounds-buffer (suc rounds) b n h = elim (Bool-cases (is_multiple_of_8 b.bit_pos)) [
  | inl e ↦ simp (e, flush_rounds) refl
  | inr e ↦
      let (kept, next) = write_bit-Holds b n h (ground arith) in
      simp (e, flush_rounds) (flush_rounds-buffer rounds (write_bit b false) (n * 2) next ∙ kept)
]

-- The bytes of a buffer that holds some bits are what is in it: padding adds nothing.
pub into_bytes-Holds : (b : BitBuffer) (n : ℕ) → Holds b n → into_bytes b true ≡ b.buffer
unfolding into_bytes
into_bytes-Holds b n h = flush_rounds-buffer 7 b n h
