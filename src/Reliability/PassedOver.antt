-- ===== src/Reliability/PassedOver.antt =====
-- Which packets in flight an acknowledgment passes over, gbnet/src/reliability.rs.
use gbnet.Prelude.{ℕ, ◌+◌, ◌-◌, ◌%◌, ◌≤◌, ◌<◌, ◌≡◌, true, false, arith}
use gbnet.Sequence.{IsSeq, sequence_greater_than, sequence_diff}
use gbnet.Reliability.{is_passed_over}
use gbnet.Reliability.Acks.{acknowledges}

-- What an acknowledgment does not name is passed over where it lies at most 64 behind.
pub passed_over :
    (ack bits s : ℕ)
    → IsSeq s
    → IsSeq ack
    → acknowledges ack bits s ≡ false
    → 0 < (ack + 65536 - s) % 65536
    → (ack + 65536 - s) % 65536 ≤ 64
    → is_passed_over ack bits s ≡ true
unfolding is_passed_over acknowledges sequence_greater_than sequence_diff
passed_over ack bits s h k a p q = ground (arith, a)

pub passed_over-behind :
    (ack bits s : ℕ)
    → IsSeq s
    → IsSeq ack
    → is_passed_over ack bits s ≡ true
    → (0 < (ack + 65536 - s) % 65536) × ((ack + 65536 - s) % 65536 ≤ 64)
unfolding is_passed_over sequence_greater_than sequence_diff
passed_over-behind ack bits s h k a = ground (arith, a)
