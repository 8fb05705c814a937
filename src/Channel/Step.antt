-- ===== src/Channel/Step.antt =====
-- One packet at a reliable-ordered channel of gbnet/src/channel.rs.
use gbnet.Prelude.{
  ℕ, ◌+◌, ◌%◌, ◌<◌, ◌≡◌, refl, true, false, none, some, List, inl, inr, arith, leb, ltb, ◌==◌,
  length, Bool-cases, Option-cases, sym, ap, ◌∙◌,
}
use mathlib.Core.Bool.{false≢true}
use gbnet.Prelude.Maps.{
  lookup, remove, min_by_key, lookup-insert-some, lookup-remove-some, insert-Distinct,
  remove-Distinct, Fresh-insert, Fresh-remove, contains_key, contains_key-min_by_key,
}
use gbnet.Config.{DeliveryMode, reliable_ordered}
use gbnet.Sequence.{next_seq, sequence_greater_than}
use gbnet.Channel.{Channel, wire_data}
use gbnet.Channel.Framing.{counted, on_packet_received-wire_data}
use gbnet.Channel.Receive.{
  deliver, drain, evict, evict_oldest_buffered, make_room, buffer_message, receive_ordered,
  receive_by_mode, on_packet_received,
}
use gbnet.Channel.Drain.{
  IsPrefix, Waits, upto_next, drain_rounds-IsPrefix, IsOrdered, drain_rounds-config,
}

-- The evicted message is never the one that is waited for, so nothing is drained.
evict_lem :
    (ch : Channel) (k : ℕ)
    → Waits ch
    → min_by_key (λ e. e.1) ch.ordered_receive_buffer ≡ some k
    → evict ch k ≡ record ch {
      ordered_receive_buffer = remove k ch.ordered_receive_buffer;
      gap_sequences_skipped = ch.gap_sequences_skipped + 1;
      messages_dropped = ch.messages_dropped + 1;
    }
unfolding evict
evict_lem ch k w e =
    let c = contains_key-min_by_key (λ e. e.1) ch.ordered_receive_buffer k e in
    elim (Bool-cases (k == ch.receive_sequence)) [
      | inl eq ↦
          let same : k ≡ ch.receive_sequence = ground arith in
          let none_there = ap (λ o. elim o [ none ↦ false | some _ ↦ true ]) w in
          absurd (
            false≢true (
              sym none_there ∙ (ap (λ j. contains_key j ch.ordered_receive_buffer) (sym same) ∙ c)))
      | inr ne ↦ rw ne refl
    ]

make_room-IsOrdered :
    (m : ℕ → List ℕ) (ch : Channel)
    → IsOrdered m ch
    → IsOrdered m (make_room ch) × ((make_room ch).messages_received ≡ ch.messages_received)
unfolding make_room evict_oldest_buffered
make_room-IsOrdered m ch ((q, r, d, h), w, c) =
    elim (Bool-cases (leb ch.config.max_ordered_buffer_size (length ch.ordered_receive_buffer))) [
      | inr no_need ↦ rw (no_need, make_room) (((q, r, d, h), w, c), refl)
      | inl full ↦ elim (Option-cases (min_by_key (λ e. e.1) ch.ordered_receive_buffer)) [
        | inl e ↦ rw (full, e, make_room, evict_oldest_buffered) (((q, r, d, h), w, c), refl)
        | inr (k, e) ↦
            rw (full, e, make_room, evict_oldest_buffered, evict_lem ch k w e)
              (
                (
                  (
                    q,
                    r,
                    remove-Distinct k ch.ordered_receive_buffer d,
                    λ j v l. h j v (lookup-remove-some k j v ch.ordered_receive_buffer d l).0,
                  ),
                  Fresh-remove ch.receive_sequence k ch.ordered_receive_buffer w,
                  c,
                ),
                refl,
              )
      ]
    ]

buffer_message-IsOrdered :
    (m : ℕ → List ℕ) (ch : Channel) (now i : ℕ)
    → ch.messages_received < i
    → i < ch.messages_received + 32768
    → IsOrdered m ch
    → IsOrdered m (buffer_message ch now (i % 65536) (m i))
unfolding buffer_message
buffer_message-IsOrdered m ch now i lo hi ((q, r, d, h), w, c) = (
  (
    q,
    r,
    insert-Distinct (i % 65536) (m i, now) ch.ordered_receive_buffer d,
    λ k v l. elim (lookup-insert-some (i % 65536) k (m i, now) v ch.ordered_receive_buffer l) [
      | inl (at, is) ↦ (i, omega arith, hi, at, ap (λ e. e.0) (sym is))
      | inr (ne, was) ↦ h k v was
    ],
  ),
  Fresh-insert ch.receive_sequence (i % 65536) (m i, now) ch.ordered_receive_buffer (ground arith)
      w,
  c,
)

-- How the numbers of the messages compare, on the wire.
pub old_lem :
    (i n s : ℕ)
    → s ≡ n % 65536
    → n < i + 32768
    → i < n
    → ((i % 65536 == s) ≡ false) × (sequence_greater_than (i % 65536) s ≡ false)
unfolding sequence_greater_than
old_lem i n s r lo hi = ground arith

pub later_lem :
    (i n s : ℕ)
    → s ≡ n % 65536
    → n < i
    → i < n + 32768
    → ((i % 65536 == s) ≡ false) × (sequence_greater_than (i % 65536) s ≡ true)
unfolding sequence_greater_than
later_lem i n s r lo hi = ground arith

-- The message that is waited for is delivered, and the next one is waited for.
abbrev pub advance : Channel → List ℕ → Channel
advance ch p = record (deliver ch p) { receive_sequence = next_seq ch.receive_sequence }

pub advance-IsPrefix :
    (m : ℕ → List ℕ) (ch : Channel)
    → IsPrefix m ch
    → Waits ch
    → IsPrefix m (advance ch (m ch.messages_received))
unfolding deliver
advance-IsPrefix m ch (q, r, d, h) w = (
  rw (upto_next, q) refl,
  omega arith,
  d,
  λ k v l.
      let (x, lo, hi, at, is) = h k v l in
      elim (Bool-cases (x == ch.messages_received)) [
        | inl eq ↦
            let same : k ≡ ch.receive_sequence = ground arith in
            let clash : lookup k ch.ordered_receive_buffer ≡ none = rw same w in absurd cc
        | inr ne ↦ (x, ground arith, omega arith, at, is)
      ],
)

advance-config : (ch : Channel) (p : List ℕ) → (advance ch p).config ≡ ch.config
unfolding deliver
advance-config ch p = refl

drain-IsOrdered :
    (m : ℕ → List ℕ) (ch : Channel)
    → IsPrefix m ch
    → ch.config.delivery_mode ≡ reliable_ordered
    → IsOrdered m (drain ch)
unfolding drain
drain-IsOrdered m ch p c =
    let (q, w) = drain_rounds-IsPrefix m (length ch.ordered_receive_buffer) ch (omega arith) p in
    (q, w, rw (drain_rounds-config (length ch.ordered_receive_buffer) ch) c)

receive_ordered-IsOrdered :
    (m : ℕ → List ℕ) (ch : Channel) (now i : ℕ)
    → ch.messages_received < i + 32768
    → i < ch.messages_received + 32768
    → IsOrdered m ch
    → IsOrdered m (receive_ordered ch now (i % 65536) (m i))
unfolding receive_ordered
receive_ordered-IsOrdered m ch now i lo hi ((q, r, d, h), w, c) =
    elim (Bool-cases (ltb i ch.messages_received)) [
      | inl old ↦
          let (e, g) = old_lem i ch.messages_received ch.receive_sequence r lo (ground arith) in
          rw (e, g, receive_ordered) ((q, r, d, h), w, c)
      | inr not_old ↦ elim (Bool-cases (i == ch.messages_received)) [
        | inl eq ↦
            let at : i ≡ ch.messages_received = ground arith in
            let e : (i % 65536 == ch.receive_sequence) ≡ true = ground arith in
            rw (e, at, receive_ordered)
              (drain-IsOrdered m (advance ch (m ch.messages_received))
                (advance-IsPrefix m ch (q, r, d, h) w)
                (rw (advance-config ch (m ch.messages_received)) c))
        | inr ne ↦
            let (e, g) = later_lem i ch.messages_received ch.receive_sequence r (ground arith) hi in
            let (o, n) = make_room-IsOrdered m ch ((q, r, d, h), w, c) in
            rw (e, g, receive_ordered)
              (buffer_message-IsOrdered m (make_room ch) now i (ground arith) (rw n hi) o)
      ]
    ]

pub by_mode :
    (d : DeliveryMode) (ch : Channel) (now seq : ℕ) (payload : List ℕ)
    → d ≡ reliable_ordered
    → receive_by_mode d ch now seq payload ≡ receive_ordered ch now seq payload
unfolding receive_by_mode
by_mode d ch now seq payload e = rw e refl

pub on_packet_received-IsOrdered :
    (m : ℕ → List ℕ) (ch : Channel) (now i : ℕ)
    → ch.messages_received < i + 32768
    → i < ch.messages_received + 32768
    → IsOrdered m ch
    → IsOrdered m (on_packet_received ch now (wire_data (i % 65536) (m i)))
on_packet_received-IsOrdered m ch now i lo hi (p, w, c) =
    rw
      (
        on_packet_received-wire_data ch now (i % 65536) (m i) (omega arith),
        by_mode ch.config.delivery_mode (counted ch (m i)) now (i % 65536) (m i) c,
      )
      (receive_ordered-IsOrdered m (counted ch (m i)) now i lo hi (p, w, c))
