-- ===== src/Sequence/Order.antt =====
-- What the circular comparison of gbnet/src/util.rs means.
use gbnet.Prelude.{ℕ, ◌+◌, ◌%◌, ◌≤◌, ◌≡◌, ◌≢◌, true, false, not, arith, ltb}
use gbnet.Prelude.Int.{pos, pos_part, neg_part}
use gbnet.Sequence.{IsSeq, sequence_greater_than, sequence_diff}

-- Of two different sequence numbers exactly one is the greater, and none is greater than itself.
pub sequence_greater_than_total :
    (a b : ℕ)
    → IsSeq a
    → IsSeq b
    → a ≢ b
    → (sequence_greater_than a b ≡ not (sequence_greater_than b a))
      × (sequence_greater_than a a ≡ false)
unfolding sequence_greater_than
sequence_greater_than_total a b ha hb ne = (ground arith, ground arith)

-- `s1` is `s2` plus the signed difference, modulo 2^16; the difference lies between -32768 and
-- 32768, and it is positive exactly when `s1` is the greater.
pub sequence_diff_lem :
    (s1 s2 : ℕ)
    → IsSeq s1
    → IsSeq s2
    → let d = sequence_diff s1 s2 in
      ((s2 + pos_part d) % 65536 ≡ (s1 + neg_part d) % 65536)
      × (pos_part d ≤ 32768)
      × (neg_part d ≤ 32768)
      × (sequence_greater_than s1 s2 ≡ ltb 0 (pos_part d))
unfolding sequence_diff sequence_greater_than
sequence_diff_lem s1 s2 h1 h2 = ground arith

-- A number up to 32767 steps ahead, across the wrap or not, is greater, and the difference is
-- the number of steps.
pub sequence_ahead :
    (s d : ℕ)
    → IsSeq s
    → 1 ≤ d
    → d ≤ 32767
    → (sequence_greater_than ((s + d) % 65536) s ≡ true)
      × (sequence_diff ((s + d) % 65536) s ≡ pos d)
unfolding sequence_diff sequence_greater_than
sequence_ahead s d hs lo hi = ground arith
