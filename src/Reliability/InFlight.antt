-- ===== src/Reliability/InFlight.antt =====
-- The bookkeeping of `ReliableEndpoint`, gbnet/src/reliability.rs, over any run of its operations
-- with acknowledgments, and the bounds of the retransmission timeout.
use gbnet.Prelude.{
  ℕ, suc, ◌<◌, ◌≡◌, ◌⊎◌, refl, ◌∙◌, inl, inr, true, false, List, [], ◌∷◌, arith, length, length-set,
  Option-cases,
}
use gbnet.Prelude.Maps.{lookup, remove, remove-Distinct, length-remove}
use gbnet.Config.{millis}
use gbnet.Float.{Float, IsFloat, clamp}
use gbnet.Reliability.{
  SentPacketRecord, ReliableEndpoint, min_rto_ms, max_rto_ms, new, with_max_in_flight, update_rtt,
  record_loss_sample, acknowledged, ack_single, ack_all, acked_seqs, keys, process_acks,
}
use gbnet.Reliability.Acks.{nack_all-Distinct, length-nack_all}
use gbnet.Reliability.Bookkeeping.{
  Event, sent, received, acks, lost, IsTimeout, IsTracked, after, run, on_packet_sent-IsTracked,
  on_packet_received-IsTracked, record_loss_sample-IsTracked,
}

module _ {ℓ} {W : Type ℓ} ⦃f : Float W⦄ (laws : IsFloat W) where
  open laws use {to_u64-ratio, to_u64-not-lt, is_nan-ratio}

  -- What a sample makes of the timeout.
  clamp-bounds :
      (x : W)
      → let ms = f.to_u64 (clamp x (f.ratio min_rto_ms 1) (f.ratio max_rto_ms 1)) in
        (f.is_nan x ≡ true) ⊎ IsTimeout (millis ms)
  clamp-bounds x = ground (
    arith,
    is_nan-ratio min_rto_ms,
    is_nan-ratio max_rto_ms,
    to_u64-ratio min_rto_ms,
    to_u64-ratio max_rto_ms,
    to_u64-not-lt x (f.ratio min_rto_ms 1),
    to_u64-not-lt (f.ratio max_rto_ms 1) x,
  )

  acknowledged-IsTracked :
      (max now seq : ℕ) (r : SentPacketRecord) (e : ReliableEndpoint W)
      → IsTracked max e
      → length e.sent_packets ≡ suc (length (remove seq e.sent_packets))
      → IsTracked max (acknowledged e now seq r)
  unfolding record_loss_sample update_rtt
  acknowledged-IsTracked max now seq r e t less = record {
    limit = t.limit;
    distinct = remove-Distinct seq e.sent_packets t.distinct;
    bounded = omega (arith, less, t.bounded);
    accounted = omega (arith, less, t.accounted);
    window = length-set e.loss_window _ false ∙ t.window;
    counted = ground (arith, t.counted);
    timeout = clamp-bounds _;
  }

  ack_single-IsTracked :
      (max now seq : ℕ) (e : ReliableEndpoint W)
      → IsTracked max e
      → IsTracked max (ack_single e now seq).0
  unfolding ack_single
  ack_single-IsTracked max now seq e t = elim (Option-cases (lookup seq e.sent_packets)) [
    | inl n ↦ rw (n, ack_single) t
    | inr (r, g) ↦
        let shorter = length-remove seq e.sent_packets in
        let less : length e.sent_packets ≡ suc (length (remove seq e.sent_packets)) =
          ground (arith, shorter, g) in
        rw (g, ack_single) (acknowledged-IsTracked max now seq r e t less)
  ]

  ack_all-IsTracked :
      (max now : ℕ) (seqs : List ℕ) (e : ReliableEndpoint W)
      → IsTracked max e
      → IsTracked max (ack_all e now seqs).0
  unfolding ack_all
  ack_all-IsTracked max now [] e t = t
  ack_all-IsTracked max now (seq ∷ seqs) e t =
      ack_all-IsTracked max now seqs (ack_single e now seq).0 (ack_single-IsTracked max now seq e t)

  process_acks-IsTracked :
      (max now ack bits : ℕ) (e : ReliableEndpoint W)
      → IsTracked max e
      → IsTracked max (process_acks e now ack bits).0
  unfolding process_acks
  process_acks-IsTracked max now ack bits e t =
      let a = ack_all-IsTracked max now (acked_seqs e.sent_packets ack bits) e t in
      let left = (ack_all e now (acked_seqs e.sent_packets ack bits)).0.sent_packets in
      let same = length-nack_all ack bits (keys left) left in
      record {
        limit = a.limit;
        window = a.window;
        counted = a.counted;
        timeout = a.timeout;
        distinct = nack_all-Distinct ack bits (keys left) left a.distinct;
        bounded = rw same a.bounded;
        accounted = rw same a.accounted;
      }

  after-IsTracked :
      (max : ℕ) (event : Event) (e : ReliableEndpoint W)
      → 0 < max
      → IsTracked max e
      → IsTracked max (after e event)
  unfolding after
  after-IsTracked max (sent seq now ch ch_seq size) e h t =
      on_packet_sent-IsTracked max seq now ch ch_seq size e h t
  after-IsTracked max (received seq) e h t = on_packet_received-IsTracked max seq e t
  after-IsTracked max (acks now ack bits) e h t = process_acks-IsTracked max now ack bits e t
  after-IsTracked max (lost b) e h t = record_loss_sample-IsTracked max b e t

  run-IsTracked :
      (max : ℕ) (events : List Event) (e : ReliableEndpoint W)
      → 0 < max
      → IsTracked max e
      → IsTracked max (run e events)
  unfolding run
  run-IsTracked max [] e h t = t
  run-IsTracked max (event ∷ events) e h t =
      run-IsTracked max events (after e event) h (after-IsTracked max event e h t)

  -- Whatever an endpoint with a positive limit sends, receives and has acknowledged: the
  -- packets in flight have different numbers and are within the limit, they and those that were
  -- acknowledged or evicted are no more than were sent, the loss window keeps its 256 places,
  -- and the retransmission timeout lies between 50 ms and 2 s, unless the estimate that it was
  -- computed from is NaN.
  pub run-new-IsTracked :
      (buffer_size max : ℕ) (events : List Event)
      → 0 < max
      → IsTracked {W = W} max (run (with_max_in_flight (new buffer_size) max) events)
  unfolding new
  run-new-IsTracked buffer_size max events h =
      run-IsTracked max events (with_max_in_flight (new buffer_size) max) h (record {
        limit = refl;
        distinct = tt;
        bounded = omega arith;
        accounted = omega arith;
        window = refl;
        counted = omega arith;
        timeout = inr (omega arith, omega arith);
      })
