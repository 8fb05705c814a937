-- ===== src/Channel/Receive.antt =====
-- The receiving side of a channel, gbnet/src/channel.rs.
use gbnet.Prelude.{
  ℕ, zero, suc, ◌+◌, ◌-◌, Bool, false, ◌&&◌, ◌||◌, Option, none, some, List, [], ◌∷◌, ◌++◌, ltb,
  leb, ◌==◌, if◌then◌else◌, length, get_or, drop,
}
use gbnet.Prelude.Bytes.{u16_from_be_bytes}
use gbnet.Prelude.Maps.{Map, lookup, insert, remove, min_by_key}
use gbnet.Config.{
  DeliveryMode, unreliable, unreliable_sequenced, reliable_unordered, reliable_ordered,
  reliable_sequenced, is_ordered,
}
use gbnet.Sequence.{next_seq, sequence_greater_than}
use gbnet.Channel.{Channel, sequence_bytes}

-- `delivery_queue.push_back(data); messages_received += 1`
unfoldable pub deliver : Channel → List ℕ → Channel
deliver ch payload = record ch {
  delivery_queue = ch.delivery_queue ++ (payload ∷ []);
  messages_received = ch.messages_received + 1;
}

-- A buffered message that was waited for is taken out and delivered.
unfoldable pub deliver_buffered : Channel → List ℕ → Channel
deliver_buffered ch payload = record ch {
  ordered_receive_buffer = remove ch.receive_sequence ch.ordered_receive_buffer;
  delivery_queue = ch.delivery_queue ++ (payload ∷ []);
  messages_received = ch.messages_received + 1;
  receive_sequence = next_seq ch.receive_sequence;
}

-- `while let Some(..) = ordered_receive_buffer.remove(&receive_sequence)`. Each round takes an
-- entry out of the buffer, so as many rounds as it has entries are enough.
unfoldable pub drain_rounds : ℕ → Channel → Channel
drain_rounds zero ch = ch
drain_rounds (suc n) ch = elim (lookup ch.receive_sequence ch.ordered_receive_buffer) [
  | none ↦ ch
  | some (payload, t) ↦ drain_rounds n (deliver_buffered ch payload)
]

unfoldable pub drain : Channel → Channel
drain ch = drain_rounds (length ch.ordered_receive_buffer) ch

-- `evict_oldest_buffered`, where `min_by_key` has found the key
unfoldable pub evict : Channel → ℕ → Channel
evict ch seq =
    let ch' = record ch {
      ordered_receive_buffer = remove seq ch.ordered_receive_buffer;
      gap_sequences_skipped = ch.gap_sequences_skipped + 1;
      messages_dropped = ch.messages_dropped + 1;
    } in
    if seq == ch.receive_sequence
    then drain (record ch' { receive_sequence = next_seq ch.receive_sequence })
    else ch'

unfoldable pub evict_oldest_buffered : Channel → Channel
evict_oldest_buffered ch = elim (min_by_key (λ e. e.1) ch.ordered_receive_buffer) [
  | none ↦ ch
  | some seq ↦ evict ch seq
]

-- the room that `on_packet_received` makes for one more buffered message
unfoldable pub make_room : Channel → Channel
make_room ch =
    if leb ch.config.max_ordered_buffer_size (length ch.ordered_receive_buffer)
    then evict_oldest_buffered ch
    else ch

unfoldable pub buffer_message : Channel → ℕ → ℕ → List ℕ → Channel
buffer_message ch now seq payload = record ch {
  ordered_receive_buffer = insert seq (payload, now) ch.ordered_receive_buffer;
}

-- the arm for `ReliableOrdered`
unfoldable pub receive_ordered : Channel → ℕ → ℕ → List ℕ → Channel
receive_ordered ch now seq payload =
    if seq == ch.receive_sequence
    then drain (record (deliver ch payload) { receive_sequence = next_seq ch.receive_sequence })
    else if sequence_greater_than seq ch.receive_sequence
    then buffer_message (make_room ch) now seq payload
    else ch

-- the arm for the two sequenced modes
unfoldable pub receive_sequenced : Channel → ℕ → List ℕ → Channel
receive_sequenced ch seq payload =
    if sequence_greater_than seq ch.last_received_sequence || ch.messages_received == 0
    then deliver (record ch { last_received_sequence = seq }) payload
    else ch

unfoldable pub receive_by_mode : DeliveryMode → Channel → ℕ → ℕ → List ℕ → Channel
receive_by_mode unreliable ch now seq payload = deliver ch payload
receive_by_mode unreliable_sequenced ch now seq payload = receive_sequenced ch seq payload
receive_by_mode reliable_unordered ch now seq payload = deliver ch payload
receive_by_mode reliable_ordered ch now seq payload = receive_ordered ch now seq payload
receive_by_mode reliable_sequenced ch now seq payload = receive_sequenced ch seq payload

unfoldable pub on_packet_received : Channel → ℕ → List ℕ → Channel
on_packet_received ch now wire =
    let seq = u16_from_be_bytes (get_or wire 0 0) (get_or wire 1 0) in
    let payload = drop sequence_bytes wire in
    let ch' = record ch { bytes_received = ch.bytes_received + length payload } in
    if ltb (length wire) sequence_bytes
    then deliver ch wire
    else receive_by_mode ch.config.delivery_mode ch' now seq payload

unfoldable pub receive : Channel → Channel × Option (List ℕ)
receive ch = elim ch.delivery_queue [
  | [] ↦ (ch, none)
  | m ∷ rest ↦ (record ch { delivery_queue = rest }, some m)
]

-- `find_earliest_buffered` over the keys, `best` being the earliest so far
unfoldable pub earliest_from : ℕ → Map (List ℕ × ℕ) → ℕ
earliest_from best [] = best
earliest_from best ((k, e) ∷ m) = earliest_from (if sequence_greater_than best k then k else best) m

unfoldable pub find_earliest_buffered : Map (List ℕ × ℕ) → Option ℕ
find_earliest_buffered [] = none
find_earliest_buffered ((k, e) ∷ m) = some (earliest_from k m)

-- `while seq != first_seq { gap += 1; seq = seq.wrapping_add(1); }`; 65536 rounds reach every u16.
unfoldable pub gap_rounds : ℕ → ℕ → ℕ → ℕ → ℕ
gap_rounds zero seq first gap = gap
gap_rounds (suc n) seq first gap =
    let rest = gap_rounds n (next_seq seq) first (gap + 1) in if seq == first then gap else rest

unfoldable pub flush_ordered_buffer : Channel → Channel
flush_ordered_buffer ch = elim (find_earliest_buffered ch.ordered_receive_buffer) [
  | none ↦ ch
  | some first ↦ drain (record ch {
    gap_sequences_skipped = gap_rounds 65536 ch.receive_sequence first ch.gap_sequences_skipped;
    receive_sequence = first;
  })
]

abbrev any_older : ℕ → ℕ → Map (List ℕ × ℕ) → Bool
any_older now timeout [] = false
any_older now timeout ((k, e) ∷ m) = ltb timeout (now - e.1) || any_older now timeout m

unfoldable pub update : Channel → ℕ → Channel
update ch now =
    if is_ordered ch.config.delivery_mode
      && any_older now ch.config.ordered_buffer_timeout ch.ordered_receive_buffer
    then flush_ordered_buffer ch
    else ch

unfoldable pub reset : Channel → Channel
reset ch = record ch {
  send_sequence = 0;
  receive_sequence = 0;
  last_received_sequence = 0;
  send_buffer = [];
  pending_ack = [];
  ordered_receive_buffer = [];
  delivery_queue = [];
  messages_sent = 0;
  messages_received = 0;
  bytes_sent = 0;
  bytes_received = 0;
  gap_sequences_skipped = 0;
  messages_dropped = 0;
}
