-- ===== src/Reliability/Bookkeeping.antt =====
-- The operations of `ReliableEndpoint` as events, and that each keeps its books,
-- gbnet/src/reliability.rs.
use gbnet.Prelude.{
  ℕ, suc, ◌+◌, ◌≤◌, ◌<◌, ◌≡◌, ◌⊎◌, refl, ◌∙◌, inl, inr, Bool, true, some, List, [], ◌∷◌, arith, leb,
  length, length-set, Bool-cases, Option-cases,
}
use gbnet.Prelude.Maps.{
  Map, remove, contains_key, min_by_key, Distinct, insert-Distinct, remove-Distinct, length-insert,
  length-remove, contains_key-min_by_key,
}
use gbnet.Config.{millis}
use gbnet.Float.{Float}
use gbnet.Reliability.{
  SentPacketRecord, ReliableEndpoint, loss_window_size, evict_worst_in_flight, make_room,
  sent_record, on_packet_sent, ack_window, on_packet_received, record_loss_sample, process_acks,
}

-- What happens to an endpoint, with the arguments of the operation.
pub data Event : Type 0 where
  sent : ℕ → ℕ → ℕ → ℕ → ℕ → Event
  received : ℕ → Event
  acks : ℕ → ℕ → ℕ → Event
  lost : Bool → Event

-- A timeout from 50 ms to 2 s.
abbrev pub IsTimeout : ℕ → Type 0
IsTimeout rto = (millis 50 ≤ rto) × (rto ≤ millis 2000)

-- What the timeout is computed from: the smoothed time and four times its deviation.
abbrev pub estimate {ℓ} : {W : Type ℓ} ⦃f : Float W⦄ → ReliableEndpoint W → W
estimate ⦃f⦄ e = f.add e.srtt (f.mul (f.ratio 4 1) e.rttvar)

pub record IsTracked {ℓ} {W : Type ℓ} ⦃f : Float W⦄ (max : ℕ) (e : ReliableEndpoint W)
    : Type 0 where
  pub limit : e.max_in_flight ≡ max
  pub distinct : Distinct e.sent_packets
  pub bounded : length e.sent_packets ≤ max
  pub accounted :
      e.total_packets_acked + e.packets_evicted + length e.sent_packets ≤ e.total_packets_sent
  pub window : length e.loss_window ≡ loss_window_size
  pub counted : e.loss_window_count ≤ loss_window_size
  pub timeout : (f.is_nan (estimate e) ≡ true) ⊎ IsTimeout e.rto

-- Where packets are in flight, one of them is the oldest.
pub oldest :
    (m : Map SentPacketRecord)
    → 0 < length m
    → (seq : ℕ) × (min_by_key (λ r. r.send_time) m ≡ some seq) × (contains_key seq m ≡ true)
unfolding min_by_key
oldest [] h = absurd (omega arith)
oldest ((k, r) ∷ m) h = elim (Option-cases (min_by_key (λ r. r.send_time) ((k, r) ∷ m))) [
  | inr (seq, g) ↦ (seq, g, contains_key-min_by_key (λ r. r.send_time) ((k, r) ∷ m) seq g)
  | inl n ↦ absurd (ground (arith, n))
]

module _ {ℓ} {W : Type ℓ} ⦃f : Float W⦄ where
  unfoldable pub after : ReliableEndpoint W → Event → ReliableEndpoint W
  after e (sent seq now ch ch_seq size) = on_packet_sent e seq now ch ch_seq size
  after e (received seq) = on_packet_received e seq
  after e (acks now ack bits) = (process_acks e now ack bits).0
  after e (lost b) = record_loss_sample e b

  unfoldable pub run : ReliableEndpoint W → List Event → ReliableEndpoint W
  run e [] = e
  run e (event ∷ events) = run (after e event) events

  pub make_room-IsTracked :
      (max : ℕ) (e : ReliableEndpoint W)
      → 0 < max
      → IsTracked max e
      → IsTracked max (make_room e)
        × (length (make_room e).sent_packets < max)
        × ((make_room e).total_packets_sent ≡ e.total_packets_sent)
  unfolding evict_worst_in_flight
  make_room-IsTracked max e h t = elim (Bool-cases (leb e.max_in_flight (length e.sent_packets))) [
    | inr room ↦ rw room (t, ground (arith, t.limit, room), refl)
    | inl full ↦
        let (seq, g, held) = oldest e.sent_packets (ground (arith, t.limit, full)) in
        let shorter = length-remove seq e.sent_packets in
        let less : length e.sent_packets ≡ suc (length (remove seq e.sent_packets)) =
          (rw held at shorter) in
        rw full (
          rw (g, evict_worst_in_flight)
            (
              record {
                limit = t.limit;
                window = t.window;
                counted = t.counted;
                timeout = t.timeout;
                distinct = remove-Distinct seq e.sent_packets t.distinct;
                bounded = omega (arith, less, t.bounded);
                accounted = omega (arith, less, t.accounted);
              },
              omega (arith, less, t.bounded),
              refl,
            ))
  ]

  pub on_packet_sent-IsTracked :
      (max seq now ch ch_seq size : ℕ) (e : ReliableEndpoint W)
      → 0 < max
      → IsTracked max e
      → IsTracked max (on_packet_sent e seq now ch ch_seq size)
  unfolding on_packet_sent
  on_packet_sent-IsTracked max seq now ch ch_seq size e h t =
      let (room, less, same) = make_room-IsTracked max e h t in
      let r = sent_record now ch ch_seq size in
      let longer = length-insert seq r (make_room e).sent_packets in
      record {
        limit = room.limit;
        window = room.window;
        counted = room.counted;
        timeout = room.timeout;
        distinct = insert-Distinct seq r (make_room e).sent_packets room.distinct;
        bounded = ground (arith, longer, less);
        accounted = ground (arith, longer, room.accounted);
      }

  pub on_packet_received-IsTracked :
      (max seq : ℕ) (e : ReliableEndpoint W)
      → IsTracked max e
      → IsTracked max (on_packet_received e seq)
  unfolding on_packet_received ack_window
  on_packet_received-IsTracked max seq e t =
      ground (arith, t.limit, t.distinct, t.bounded, t.accounted, t.window, t.counted, t.timeout)

  pub record_loss_sample-IsTracked :
      (max : ℕ) (b : Bool) (e : ReliableEndpoint W)
      → IsTracked max e
      → IsTracked max (record_loss_sample e b)
  unfolding record_loss_sample
  record_loss_sample-IsTracked max b e t = record {
    limit = t.limit;
    distinct = t.distinct;
    bounded = t.bounded;
    accounted = t.accounted;
    timeout = t.timeout;
    window = length-set e.loss_window _ b ∙ t.window;
    counted = ground (arith, t.counted);
  }
