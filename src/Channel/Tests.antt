-- ===== src/Channel/Tests.antt =====
-- Runs of the channels of gbnet/src/channel.rs.
use gbnet.Prelude.{
  ◌⊎◌, none, some, ◌+◌, ◌++◌, ℕ, ◌≤◌, ◌%◌, ◌≡◌, refl, true, List, [], ◌∷◌, arith, length,
}
use gbnet.Prelude.Maps.{lookup, insert, remove}
use gbnet.Config.{preset, reliable_ordered, unreliable_sequenced}
use gbnet.Sequence.{sequence_greater_than}
use gbnet.Channel.{
  Channel, ChannelMessage, new, queued_message, enqueue, send, track_sent, get_outgoing_message,
  sweep, verdict, remove_all, get_retransmit_messages, wire_data,
}
use gbnet.Channel.Receive.{
  earliest_from, find_earliest_buffered, flush_ordered_buffer, deliver, deliver_buffered,
  drain_rounds, drain, make_room, buffer_message, receive_ordered, receive_by_mode,
  on_packet_received,
}
use gbnet.Channel.Drain.{upto}
use gbnet.Channel.Ordered.{reliable_ordered_prefix, arrive}
use gbnet.Channel.Complete.{reliable_ordered_complete}
use gbnet.Channel.Flush.{flush_ordered_buffer_lem, steps_to}
use gbnet.Channel.Sequenced.{sequenced_newest, newest}
use gbnet.Channel.Enqueue.{send-HasSent, HasSent}
use gbnet.Channel.Sweeping.{framed}
use gbnet.Channel.Sending.{get_retransmit_messages-lookup, IsTreated}
use gbnet.Channel.Retries.{retransmit_at-WithinRetries, WithinRetries, retransmit_at}

abbrev numbered : ℕ → List ℕ
numbered i = i ∷ []

abbrev ordered : Channel
ordered = new 0 (preset reliable_ordered)

-- Message 2 comes early, 1 twice, and 0 last.
abbrev shuffled : List (ℕ × ℕ)
shuffled = (2, 10) ∷ (1, 20) ∷ (1, 30) ∷ (0, 40) ∷ []

shuffled-delivered :
    (arrive numbered ordered shuffled).delivery_queue ≡ (0 ∷ []) ∷ (1 ∷ []) ∷ (2 ∷ []) ∷ []
unfolding on_packet_received receive_by_mode new preset receive_ordered sequence_greater_than
    buffer_message make_room insert drain drain_rounds deliver lookup deliver_buffered remove
shuffled-delivered = refl

reliable_ordered_prefix_example :
    ((arrive numbered ordered shuffled).delivery_queue
      ≡ upto numbered (arrive numbered ordered shuffled).messages_received)
    × ((arrive numbered ordered shuffled).receive_sequence
        ≡ (arrive numbered ordered shuffled).messages_received % 65536)
unfolding on_packet_received receive_by_mode new preset receive_ordered sequence_greater_than
    buffer_message make_room insert
reliable_ordered_prefix_example =
    reliable_ordered_prefix numbered 0 (preset reliable_ordered) shuffled refl (
      omega arith,
      omega arith,
      (omega arith, omega arith, (omega arith, omega arith, (omega arith, omega arith, tt))),
    )

reliable_ordered_complete_example :
    ((arrive numbered ordered shuffled).delivery_queue
      ≡ upto numbered (arrive numbered ordered shuffled).messages_received)
    × (3 ≤ (arrive numbered ordered shuffled).messages_received)
unfolding on_packet_received receive_by_mode new preset receive_ordered sequence_greater_than
    buffer_message make_room insert
reliable_ordered_complete_example =
    reliable_ordered_complete numbered 0 3 (preset reliable_ordered) shuffled refl
      (
        omega arith,
        omega arith,
        (omega arith, omega arith, (omega arith, omega arith, (omega arith, omega arith, tt))),
      )
      (omega arith) (λ i lt. ground arith)

abbrev sequenced : Channel
sequenced = new 1 (preset unreliable_sequenced)

sequenced_newest_example :
    (gbnet.Channel.Sequenced.arrive numbered sequenced (5 ∷ 3 ∷ 7 ∷ 7 ∷ [])).delivery_queue
    ≡ newest numbered (5 ∷ 3 ∷ 7 ∷ 7 ∷ [])
unfolding preset
sequenced_newest_example =
    sequenced_newest numbered 1 5 (preset unreliable_sequenced) (3 ∷ 7 ∷ 7 ∷ []) refl
      (omega arith, omega arith, (omega arith, omega arith, (omega arith, omega arith, tt)))

send-HasSent_example :
    (length (send ordered (9 ∷ []) true).0.send_buffer ≤ 1024)
    × HasSent ordered (9 ∷ []) true (send ordered (9 ∷ []) true)
unfolding new preset
send-HasSent_example = send-HasSent ordered (9 ∷ []) true (omega arith) (omega arith)

-- A reliable message has been sent at the time 0.
abbrev sent : Channel
sent = (get_outgoing_message (send ordered (9 ∷ []) true).0 0).0

abbrev first : ChannelMessage
first = record (queued_message 0 (9 ∷ []) true) { send_time = some 0 }

get_retransmit_messages-lookup_example :
    ((lookup 0 sent.pending_ack ≡ none)
      × (lookup 0 (get_retransmit_messages sent 100 50).0.pending_ack ≡ none)
      × (framed 0 (get_retransmit_messages sent 100 50).1 ≡ []))
    ⊎ ((m : ChannelMessage) × (lookup 0 sent.pending_ack ≡ some m)
        × IsTreated 10 100 50 0 m
            (lookup 0 (get_retransmit_messages sent 100 50).0.pending_ack)
            (framed 0 (get_retransmit_messages sent 100 50).1))
unfolding new preset send enqueue queued_message get_outgoing_message track_sent insert lookup
get_retransmit_messages-lookup_example =
    get_retransmit_messages-lookup sent 100 50 0 refl (refl, tt)

retransmit_at-WithinRetries_example :
    let (ch, frames) = retransmit_at sent ((100, 50) ∷ (300, 50) ∷ []) in
    WithinRetries 10 0 first ch frames
unfolding new preset send enqueue queued_message get_outgoing_message track_sent insert lookup
retransmit_at-WithinRetries_example =
    retransmit_at-WithinRetries sent ((100, 50) ∷ (300, 50) ∷ []) 0 first refl (refl, tt) refl
      (omega arith)

-- The message is due at both times, and so is sent twice.
retransmit_at-run :
    framed 0 (retransmit_at sent ((100, 50) ∷ (300, 50) ∷ [])).1
    ≡ (wire_data 0 (9 ∷ []) ∷ wire_data 0 (9 ∷ []) ∷ [])
unfolding new preset send enqueue queued_message get_outgoing_message track_sent insert lookup sweep
    verdict remove_all get_retransmit_messages
retransmit_at-run = refl

-- Messages 65535 and 1 wait, while 65534 is missing.
abbrev waiting : Channel
waiting = record ordered {
  receive_sequence = 65534;
  ordered_receive_buffer = (1, (8 ∷ [], 0)) ∷ (65535, (9 ∷ [], 0)) ∷ [];
}

flush_ordered_buffer_lem_example :
    (steps_to 65534 65535 ≤ steps_to 65534 1)
    × ((flush_ordered_buffer waiting).gap_sequences_skipped ≡ 0 + steps_to 65534 65535)
    × ((v : List ℕ) × (t : ℕ) × (rest : List (List ℕ)) × (lookup 65535
            waiting.ordered_receive_buffer
          ≡ some (v, t))
        × ((flush_ordered_buffer waiting).delivery_queue ≡ [] ++ (v ∷ rest)))
unfolding new lookup find_earliest_buffered earliest_from sequence_greater_than
flush_ordered_buffer_lem_example =
    flush_ordered_buffer_lem waiting 65535 1 (omega arith)
      ((omega arith, omega arith), ((omega arith, omega arith), tt)) refl refl
