-- ===== src/Reliability/Result.antt =====
-- The two lists that `process_acks` of gbnet/src/reliability.rs returns.
use gbnet.Prelude.{ℕ, ◌+◌, ◌-◌, ◌%◌, ◌<◌, ◌≤◌, ◌≡◌, ◌↔◌, sym, ◌∙◌, true, false, some, List, arith}
use gbnet.Prelude.Maps.{Map, lookup, contains_key, Distinct}
use gbnet.Float.{Float}
use gbnet.Sequence.{IsSeq}
use gbnet.Reliability.{
  SentPacketRecord, ReliableEndpoint, channel_pair, acked_seqs, keys, ack_all, process_acks,
}
use gbnet.Reliability.Acks.{
  acknowledges, mem, mem-keys, keys-NoRepeat, lookup-ack_all, ack_all-Distinct, mem-acked_seqs,
}
use gbnet.Reliability.PassedOver.{passed_over, passed_over-behind}
use gbnet.Reliability.Reported.{
  In, ack_all-reports, ack_all-reported, nack_all-reports, nack_all-reported,
}

-- The packets in flight have different numbers, which are u16.
abbrev pub IsSent : Map SentPacketRecord → Type 0
IsSent sent = Distinct sent × ((s : ℕ) (r : SentPacketRecord) → lookup s sent ≡ some r → IsSeq s)

module _ {ℓ} {W : Type ℓ} ⦃f : Float W⦄ where
  -- What the first loop leaves in flight was in flight, and was not listed.
  left_over :
      (s now : ℕ) (seqs : List ℕ) (e : ReliableEndpoint W) (r : SentPacketRecord)
      → Distinct e.sent_packets
      → lookup s (ack_all e now seqs).0.sent_packets ≡ some r
      → (lookup s e.sent_packets ≡ some r) × (mem s seqs ≡ false)
  left_over s now seqs e r d h = ground (arith, lookup-ack_all s now seqs e d)

  -- The acknowledged messages that `process_acks` returns are exactly those of the packets in
  -- flight that the acknowledgment names. Numbers are u16, and the packets in flight have
  -- different numbers.
  pub process_acks-acked_iff :
      (pair : ℕ × ℕ) (now ack bits : ℕ) (e : ReliableEndpoint W)
      → IsSent e.sent_packets
      → IsSeq ack
      → In pair (process_acks e now ack bits).1 ↔ (
          (s : ℕ) × (r : SentPacketRecord) × (lookup s e.sent_packets ≡ some r)
          × (acknowledges ack bits s ≡ true)
          × (pair ≡ channel_pair r))
  unfolding process_acks
  process_acks-acked_iff pair now ack bits e (d, small) q =
      let seqs = acked_seqs e.sent_packets ack bits in
      (
        λ i.
            let (s, r, g, m, p) = ack_all-reported pair now seqs e d i in
            let held : contains_key s e.sent_packets ≡ true = ground (arith, g) in
            let named = mem-acked_seqs s ack bits e.sent_packets (small s r g) q held in
            (s, r, g, sym named ∙ m, p),
        λ (s, r, g, a, p).
            let held : contains_key s e.sent_packets ≡ true = ground (arith, g) in
            let named = mem-acked_seqs s ack bits e.sent_packets (small s r g) q held in
            rw p (ack_all-reports s now seqs e r d g (named ∙ a)),
      )

  -- The messages that `process_acks` returns for a fast retransmission are exactly those of the
  -- packets in flight that the acknowledgment does not name although they lie from 1 to 64 numbers
  -- behind it, for the third time. Numbers are u16, and the packets in flight have different
  -- numbers.
  pub process_acks-fast_retransmit_iff :
      (pair : ℕ × ℕ) (now ack bits : ℕ) (e : ReliableEndpoint W)
      → IsSent e.sent_packets
      → IsSeq ack
      → In pair (process_acks e now ack bits).2 ↔ (
          (s : ℕ) × (r : SentPacketRecord) × (lookup s e.sent_packets ≡ some r)
          × (acknowledges ack bits s ≡ false)
          × (0 < (ack + 65536 - s) % 65536)
          × ((ack + 65536 - s) % 65536 ≤ 64)
          × (r.nack_count + 1 ≡ 3)
          × (pair ≡ channel_pair r))
  unfolding process_acks
  process_acks-fast_retransmit_iff pair now ack bits e (d, small) q =
      let seqs = acked_seqs e.sent_packets ack bits in
      let left = (ack_all e now seqs).0.sent_packets in
      let single = keys-NoRepeat left (ack_all-Distinct now seqs e d) in
      (
        λ i.
            let (s, r, g, m, o, c, p) = nack_all-reported pair ack bits (keys left) left single i in
            let (was, off) = left_over s now seqs e r d g in
            let held : contains_key s e.sent_packets ≡ true = ground (arith, was) in
            let named = mem-acked_seqs s ack bits e.sent_packets (small s r was) q held in
            let (ahead, near) = passed_over-behind ack bits s (small s r was) q o in
            (s, r, was, sym named ∙ off, ahead, near, c, p),
        λ (s, r, g, a, ahead, near, c, p).
            let held : contains_key s e.sent_packets ≡ true = ground (arith, g) in
            let named = mem-acked_seqs s ack bits e.sent_packets (small s r g) q held in
            let o = passed_over ack bits s (small s r g) q a ahead near in
            let first = lookup-ack_all s now seqs e d in
            let stays : lookup s left ≡ some r = (rw (named ∙ a) at first) ∙ g in
            let listed : mem s (keys left) ≡ true = mem-keys s left ∙ ground (arith, stays) in
            rw p (nack_all-reports s ack bits (keys left) left r single stays listed o c),
      )
