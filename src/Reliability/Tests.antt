-- ===== src/Reliability/Tests.antt =====
-- Runs of the reliable endpoint of gbnet/src/reliability.rs, with fixed-point numbers for floats.
use gbnet.Prelude.{
  ℕ, ◌+◌, ◌≡◌, ◌<◌, ◌≤◌, ◌%◌, ◌-◌, ◌↔◌, refl, inl, true, false, some, [], ◌∷◌, arith,
}
use gbnet.Prelude.Int.{ℤ}
use gbnet.Prelude.Bits.{test_bit}
use gbnet.Prelude.Maps.{lookup, remove}
use gbnet.Float.Fixed.{fixed_float, Fixed-IsFloat}
use gbnet.Sequence.{sequence_greater_than, sequence_diff}
use gbnet.SequenceBuffer
use gbnet.SequenceBuffer.{exists}
use gbnet.Reliability.{
  SentPacketRecord, ReliableEndpoint, new, with_max_in_flight, sent_record, process_acks,
  on_packet_received, channel_pair, is_passed_over, nacked, ack_window, ack_all, acked_seqs,
  ack_single, acked_from, record_loss_sample, update_rtt, nack_all, nack_one,
}
use gbnet.Reliability.Acks.{acknowledges, passed, lookup-process_acks}
use gbnet.Reliability.Reported.{In}
use gbnet.Reliability.Result.{IsSent, process_acks-acked_iff, process_acks-fast_retransmit_iff}
use gbnet.Reliability.Bookkeeping.{sent, received, acks, IsTracked, run}
use gbnet.Reliability.InFlight.{run-new-IsTracked}
use gbnet.Reliability.Window.{acknowledges-on_packet_received}

-- Three packets in flight, of which the first has been passed over twice.
abbrev sender : ReliableEndpoint ℤ
sender = record (new 256) {
  sent_packets =
      (4, record (sent_record 0 0 7 100) { nack_count = 2 })
      ∷ (5, sent_record 0 0 8 100)
      ∷ (6, sent_record 0 1 0 100)
      ∷ [];
}

sender-IsSent : IsSent sender.sent_packets
unfolding lookup
sender-IsSent = ((refl, (refl, (refl, tt))), λ s r h. ground (arith, h))

lookup-process_acks_example :
    lookup 4 (process_acks sender 1000 6 1).0.sent_packets
    ≡ some (nacked (record (sent_record 0 0 7 100) { nack_count = 2 }))
unfolding acknowledges test_bit lookup passed is_passed_over sequence_greater_than sequence_diff
lookup-process_acks_example =
    lookup-process_acks 4 1000 6 1 sender (omega arith) (omega arith) sender-IsSent.0

process_acks-acked_iff_example : In (0, 8) (process_acks sender 1000 6 1).1 ↔ (
    (s : ℕ) × (r : SentPacketRecord) × (lookup s sender.sent_packets ≡ some r)
    × (acknowledges 6 1 s ≡ true)
    × ((0, 8) ≡ channel_pair r))
process_acks-acked_iff_example =
    process_acks-acked_iff (0, 8) 1000 6 1 sender sender-IsSent (omega arith)

process_acks-fast_retransmit_iff_example : In (0, 7) (process_acks sender 1000 6 1).2 ↔ (
    (s : ℕ) × (r : SentPacketRecord) × (lookup s sender.sent_packets ≡ some r)
    × (acknowledges 6 1 s ≡ false)
    × (0 < (6 + 65536 - s) % 65536)
    × ((6 + 65536 - s) % 65536 ≤ 64)
    × (r.nack_count + 1 ≡ 3)
    × ((0, 7) ≡ channel_pair r))
process_acks-fast_retransmit_iff_example =
    process_acks-fast_retransmit_iff (0, 7) 1000 6 1 sender sender-IsSent (omega arith)

-- Packet 4 is passed over for the third time, and 5 and 6 are acknowledged.
process_acks-run :
    ((process_acks sender 1000 6 1).1 ≡ ((1, 0) ∷ (0, 8) ∷ []))
    × ((process_acks sender 1000 6 1).2 ≡ ((0, 7) ∷ []))
unfolding process_acks ack_all acked_seqs lookup ack_single acked_from test_bit record_loss_sample
    update_rtt remove nack_all nack_one is_passed_over sequence_greater_than sequence_diff
process_acks-run = (refl, refl)

run-new-IsTracked_example : IsTracked {W = ℤ} 1 (
    run
      (with_max_in_flight (new 256) 1)
      (sent 0 5 0 0 100 ∷ sent 1 6 0 1 100 ∷ received 3 ∷ acks 50 1 0 ∷ []))
run-new-IsTracked_example = run-new-IsTracked Fixed-IsFloat 256 1 _ (omega arith)

acknowledges-on_packet_received_example :
    let e : ReliableEndpoint ℤ = new 256 in
    acknowledges (on_packet_received e 3).remote_sequence (on_packet_received e 3).ack_bits 3 ≡ true
unfolding new on_packet_received exists ack_window SequenceBuffer.new sequence_diff
    sequence_greater_than
acknowledges-on_packet_received_example =
    acknowledges-on_packet_received {W = ℤ} 3 3 (new 256) (omega arith) (omega arith) (omega arith)
      refl refl (inl (omega arith)) (omega arith)
