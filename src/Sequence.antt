-- ===== src/Sequence.antt =====
-- The circular comparison of u16 sequence numbers, gbnet/src/util.rs.
pub mod Order
mod Tests
use gbnet.Prelude.{ℕ, ◌+◌, ◌-◌, ◌*◌, ◌%◌, ◌<◌, Bool, ◌&&◌, ◌||◌, ltb, leb, if◌then◌else◌}
use gbnet.Prelude.Int.{ℤ, pos, negsuc, ◌+ℤ◌, ◌-ℤ◌, ltb_ℤ}

abbrev sequence_half_range : ℕ
sequence_half_range = 32768

abbrev u16_mod : ℕ
u16_mod = 65536

-- A sequence number is a u16.
abbrev pub IsSeq : ℕ → Type 0
IsSeq s = s < u16_mod

-- `wrapping_add(1)` on a u16
abbrev pub next_seq : ℕ → ℕ
next_seq s = (s + 1) % u16_mod

unfoldable pub sequence_greater_than : ℕ → ℕ → Bool
sequence_greater_than s1 s2 =
    (ltb s2 s1 && leb (s1 - s2) sequence_half_range)
    || (ltb s1 s2 && ltb sequence_half_range (s2 - s1))

-- The i32 arithmetic stays far inside the range of an i32.
unfoldable pub sequence_diff : ℕ → ℕ → ℤ
sequence_diff s1 s2 =
    let half = pos sequence_half_range in
    let full = pos (sequence_half_range * 2) in
    let diff = pos s1 -ℤ pos s2 in
    if ltb_ℤ half diff
    then diff -ℤ full
    else if ltb_ℤ diff (pos 0 -ℤ half)
    then diff +ℤ full
    else diff
