-- ===== src/Reliability.antt =====
-- Tracking of sent packets and of what has been received, `ReliableEndpoint` of
-- gbnet/src/reliability.rs. The floats of the RTT estimate are a parameter. The counters are u64
-- that a program does not exhaust, and are plain numbers here.
pub mod PassedOver
pub mod Acks
pub mod Reported
pub mod Result
pub mod Bookkeeping
pub mod InFlight
pub mod Window
mod Tests
use Prim.Native.Nat.{bit_or}
use gbnet.Prelude.{
  ℕ, zero, suc, ◌+◌, ◌-◌, ◌*◌, ◌%◌, ◌^◌, min, Bool, true, false, not, ◌&&◌, ◌||◌, Option, none,
  some, List, [], ◌∷◌, map, ltb, leb, ◌==◌, if◌then◌else◌, length, set, take, replicate,
}
use gbnet.Prelude.Int.{ℤ, pos, pos_part, neg_part, ltb_ℤ}
use gbnet.Prelude.Bits.{test_bit}
use gbnet.Prelude.Maps.{Map, lookup, insert, remove, contains_key, min_by_key}
use gbnet.Float.{Float, clamp}
use gbnet.Config.{millis, default_max_sequence_distance, default_max_in_flight}
use gbnet.Sequence.{next_seq, sequence_greater_than, sequence_diff}
use gbnet.SequenceBuffer
use gbnet.SequenceBuffer.{SequenceBuffer, exists}

abbrev initial_rto_millis : ℕ
initial_rto_millis = 100

abbrev pub ack_bits_window : ℕ
ack_bits_window = 64

abbrev pub min_rto_ms : ℕ
min_rto_ms = 50

abbrev pub max_rto_ms : ℕ
max_rto_ms = 2000

abbrev pub loss_window_size : ℕ
loss_window_size = 256

abbrev pub fast_retransmit_threshold : ℕ
fast_retransmit_threshold = 3

pub record SentPacketRecord : Type 0 where
  pub channel_id : ℕ
  pub channel_sequence : ℕ
  pub send_time : ℕ
  pub size : ℕ
  pub nack_count : ℕ

pub record ReliableEndpoint {ℓ} (W : Type ℓ) : Type ℓ where
  pub local_sequence : ℕ
  pub remote_sequence : ℕ
  pub ack_bits : ℕ
  pub sent_packets : Map SentPacketRecord
  pub received_packets : SequenceBuffer Bool
  pub max_sequence_distance : ℕ
  pub max_in_flight : ℕ
  pub srtt : W
  pub rttvar : W
  pub rto : ℕ
  pub has_rtt_sample : Bool
  pub loss_window : List Bool
  pub loss_window_index : ℕ
  pub loss_window_count : ℕ
  pub total_packets_sent : ℕ
  pub total_packets_acked : ℕ
  pub total_packets_lost : ℕ
  pub packets_evicted : ℕ
  pub bytes_sent : ℕ
  pub bytes_acked : ℕ

-- `wrapping_sub` on a u16
abbrev pub wrapping_sub : ℕ → ℕ → ℕ
wrapping_sub a b = (a + 65536 - b) % 65536

-- `x << d` on a u64, as a release build does it: the count is taken modulo 64
abbrev pub shift_left : ℕ → ℕ → ℕ
shift_left x d = x * 2 ^ (d % 64) % 2 ^ 64

abbrev pub one_bit : ℕ → ℕ
one_bit d = 2 ^ (d % 64)

-- One packet that an acknowledgment passes over.
abbrev pub nacked : SentPacketRecord → SentPacketRecord
nacked r = record r { nack_count = min 255 (r.nack_count + 1) }

abbrev pub channel_pair : SentPacketRecord → ℕ × ℕ
channel_pair r = (r.channel_id, r.channel_sequence)

-- The numbers that `ack_bits` acknowledges and that are in flight, from bit `i` on, for the
-- `n` bits that are left.
unfoldable pub acked_from : ℕ → ℕ → Map SentPacketRecord → ℕ → ℕ → List ℕ
acked_from zero i sent ack bits = []
acked_from (suc n) i sent ack bits =
    let seq = wrapping_sub ack (i + 1) in
    let rest = acked_from n (suc i) sent ack bits in
    if test_bit bits i && contains_key seq sent then seq ∷ rest else rest

unfoldable pub acked_seqs : Map SentPacketRecord → ℕ → ℕ → List ℕ
acked_seqs sent ack bits =
    let rest = acked_from ack_bits_window 0 sent ack bits in
    if contains_key ack sent then ack ∷ rest else rest

-- Whether an acknowledgment passes over a packet in flight.
unfoldable pub is_passed_over : ℕ → ℕ → ℕ → Bool
is_passed_over ack bits seq =
    let diff = sequence_diff ack seq in
    sequence_greater_than ack seq
    && not (leb (pos_part diff) 0 || ltb ack_bits_window (pos_part diff))
    && not (test_bit bits (pos_part diff - 1))

-- One number in flight: the packets, and a candidate for a fast retransmission.
unfoldable pub nack_one : ℕ → ℕ → ℕ → Map SentPacketRecord → Map SentPacketRecord × Option (ℕ × ℕ)
nack_one ack bits seq sent = elim (lookup seq sent) [
  | none ↦ (sent, none)
  | some r ↦
      if is_passed_over ack bits seq
      then (
        insert seq (nacked r) sent,
        if (nacked r).nack_count == fast_retransmit_threshold then some (channel_pair r) else none,
      )
      else (sent, none)
]

abbrev pub prepend {ℓ} : {A : Type ℓ} → Option A → List A → List A
prepend none xs = xs
prepend (some x) xs = x ∷ xs

-- The second loop of `process_acks`, over the numbers in flight.
unfoldable pub nack_all :
    ℕ → ℕ → List ℕ → Map SentPacketRecord → Map SentPacketRecord × List (ℕ × ℕ)
nack_all ack bits [] sent = (sent, [])
nack_all ack bits (seq ∷ seqs) sent =
    let one = nack_one ack bits seq sent in
    let rest = nack_all ack bits seqs one.0 in (rest.0, prepend one.1 rest.1)

abbrev pub keys : Map SentPacketRecord → List ℕ
keys sent = map (λ kv. kv.0) sent

abbrev pub sent_record : ℕ → ℕ → ℕ → ℕ → SentPacketRecord
sent_record now channel_id channel_sequence size = record {
  channel_id = channel_id;
  channel_sequence = channel_sequence;
  send_time = now;
  size = size;
  nack_count = 0;
}

module _ {ℓ} {W : Type ℓ} ⦃f : Float W⦄ where
  unfoldable pub new : ℕ → ReliableEndpoint W
  new buffer_size = record {
    local_sequence = 0;
    remote_sequence = 0;
    ack_bits = 0;
    sent_packets = [];
    received_packets = SequenceBuffer.new buffer_size;
    max_sequence_distance = default_max_sequence_distance;
    max_in_flight = default_max_in_flight;
    srtt = f.ratio 0 1;
    rttvar = f.ratio 0 1;
    rto = millis initial_rto_millis;
    has_rtt_sample = false;
    loss_window = replicate loss_window_size false;
    loss_window_index = 0;
    loss_window_count = 0;
    total_packets_sent = 0;
    total_packets_acked = 0;
    total_packets_lost = 0;
    packets_evicted = 0;
    bytes_sent = 0;
    bytes_acked = 0;
  }

  abbrev pub with_max_in_flight : ReliableEndpoint W → ℕ → ReliableEndpoint W
  with_max_in_flight e max = record e { max_in_flight = max }

  unfoldable pub next_sequence : ReliableEndpoint W → ReliableEndpoint W × ℕ
  next_sequence e = (record e { local_sequence = next_seq e.local_sequence }, e.local_sequence)

  unfoldable pub evict_worst_in_flight : ReliableEndpoint W → ReliableEndpoint W
  evict_worst_in_flight e = elim (min_by_key (λ r. r.send_time) e.sent_packets) [
    | none ↦ e
    | some seq ↦ record e {
      sent_packets = remove seq e.sent_packets;
      packets_evicted = e.packets_evicted + 1;
    }
  ]

  -- room for one more
  abbrev pub make_room : ReliableEndpoint W → ReliableEndpoint W
  make_room e = if leb e.max_in_flight (length e.sent_packets) then evict_worst_in_flight e else e

  unfoldable pub on_packet_sent : ReliableEndpoint W → ℕ → ℕ → ℕ → ℕ → ℕ → ReliableEndpoint W
  unfolding evict_worst_in_flight
  on_packet_sent e sequence now channel_id channel_sequence size =
      let room = make_room e in
      record room {
        sent_packets =
            insert sequence (sent_record now channel_id channel_sequence size) room.sent_packets;
        total_packets_sent = room.total_packets_sent + 1;
        bytes_sent = room.bytes_sent + size;
      }

  -- `ack_bits` and `remote_sequence` after a packet that was not yet in the buffer
  unfoldable pub ack_window : ReliableEndpoint W → ℕ → ReliableEndpoint W
  ack_window e sequence =
      let ahead = pos_part (sequence_diff sequence e.remote_sequence) in
      let behind = pos_part (sequence_diff e.remote_sequence sequence) in
      if sequence_greater_than sequence e.remote_sequence
      then record e {
        ack_bits =
            (if leb ahead ack_bits_window
              then bit_or (shift_left e.ack_bits ahead) (one_bit (ahead - 1))
              else 0);
        remote_sequence = sequence;
      }
      else if ltb 0 behind && leb behind ack_bits_window
      then record e { ack_bits = bit_or e.ack_bits (one_bit (behind - 1)) }
      else e

  unfoldable pub on_packet_received : ReliableEndpoint W → ℕ → ReliableEndpoint W
  on_packet_received e sequence =
      let diff = sequence_diff sequence e.remote_sequence in
      if ltb e.max_sequence_distance (pos_part diff + neg_part diff)
      then e
      else if exists e.received_packets sequence
      then e
      else ack_window
          (record e { received_packets = SequenceBuffer.insert e.received_packets sequence true })
          sequence

  -- The Jacobson/Karels estimate, with a gain of 1/8 for the mean and of 1/4 for the deviation.
  unfoldable pub update_rtt : ReliableEndpoint W → W → ReliableEndpoint W
  update_rtt e sample =
      let rttvar =
        if e.has_rtt_sample
        then f.add (f.mul (f.sub (f.ratio 1 1) (f.ratio 1 4)) e.rttvar)
            (f.mul (f.ratio 1 4) (f.abs (f.sub sample e.srtt)))
        else f.div sample (f.ratio 2 1) in
      let srtt =
        if e.has_rtt_sample
        then f.add (f.mul (f.sub (f.ratio 1 1) (f.ratio 1 8)) e.srtt) (f.mul (f.ratio 1 8) sample)
        else sample in
      let rto_ms =
        clamp (f.add srtt (f.mul (f.ratio 4 1) rttvar)) (f.ratio min_rto_ms 1)
          (f.ratio max_rto_ms 1) in
      record e {
        srtt = srtt;
        rttvar = rttvar;
        has_rtt_sample = true;
        rto = millis (f.to_u64 rto_ms);
      }

  unfoldable pub record_loss_sample : ReliableEndpoint W → Bool → ReliableEndpoint W
  record_loss_sample e lost = record e {
    loss_window = set e.loss_window (e.loss_window_index % loss_window_size) lost;
    loss_window_index = e.loss_window_index + 1;
    loss_window_count =
        (if ltb e.loss_window_count loss_window_size
          then e.loss_window_count + 1
          else e.loss_window_count);
  }

  -- `ack_single` where the packet is in flight
  abbrev pub acknowledged : ReliableEndpoint W → ℕ → ℕ → SentPacketRecord → ReliableEndpoint W
  acknowledged e now sequence r =
      let sample = f.mul (f.as_secs (now - r.send_time)) (f.ratio 1000 1) in
      let timed = update_rtt (record e { sent_packets = remove sequence e.sent_packets }) sample in
      record_loss_sample
        (record timed {
          total_packets_acked = timed.total_packets_acked + 1;
          bytes_acked = timed.bytes_acked + r.size;
        })
        false

  unfoldable pub ack_single : ReliableEndpoint W → ℕ → ℕ → ReliableEndpoint W × Option (ℕ × ℕ)
  ack_single e now sequence = elim (lookup sequence e.sent_packets) [
    | none ↦ (e, none)
    | some r ↦ (acknowledged e now sequence r, some (channel_pair r))
  ]

  -- The first loop of `process_acks`, with the pairs that it returns.
  unfoldable pub ack_all : ReliableEndpoint W → ℕ → List ℕ → ReliableEndpoint W × List (ℕ × ℕ)
  ack_all e now [] = (e, [])
  ack_all e now (seq ∷ seqs) =
      let one = ack_single e now seq in
      let rest = ack_all one.0 now seqs in (rest.0, prepend one.1 rest.1)

  unfoldable pub process_acks :
      ReliableEndpoint W → ℕ → ℕ → ℕ → ReliableEndpoint W × List (ℕ × ℕ) × List (ℕ × ℕ)
  process_acks e now ack bits =
      let acked = ack_all e now (acked_seqs e.sent_packets ack bits) in
      let nacks = nack_all ack bits (keys acked.0.sent_packets) acked.0.sent_packets in
      (record acked.0 { sent_packets = nacks.0 }, acked.1, nacks.1)

  abbrev pub get_ack_info : ReliableEndpoint W → ℕ × ℕ
  get_ack_info e = (e.remote_sequence, e.ack_bits)

  abbrev pub is_in_flight : ReliableEndpoint W → ℕ → Bool
  is_in_flight e sequence = contains_key sequence e.sent_packets

abbrev count_lost : List Bool → ℕ
count_lost [] = 0
count_lost (true ∷ samples) = suc (count_lost samples)
count_lost (false ∷ samples) = count_lost samples

module _ {ℓ κ} {V : Type ℓ} {W : Type κ} ⦃v : Float V⦄ ⦃f : Float W⦄ where
  unfoldable pub packet_loss_percent : ReliableEndpoint W → V
  packet_loss_percent e =
      let lost = count_lost (take (min e.loss_window_count loss_window_size) e.loss_window) in
      if e.loss_window_count == 0
      then v.ratio 0 1
      else v.div (v.ratio lost 1) (v.ratio e.loss_window_count 1)
