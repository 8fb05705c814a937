-- ===== src/Channel/Keep.antt =====
-- What the steps of a reliable-ordered channel of gbnet/src/channel.rs keep of what has arrived.
use gbnet.Prelude.{
  ℕ, zero, suc, ◌+◌, ◌%◌, ◌≤◌, ◌<◌, ◌≡◌, ◌⊎◌, true, List, inl, inr, arith, ==_refl, length,
  Option-cases,
}
use gbnet.Prelude.Maps.{lookup, contains_key, lookup-insert, lookup-remove, length-remove}
use gbnet.Channel.{Channel}
use gbnet.Channel.Receive.{deliver, deliver_buffered, drain_rounds, buffer_message}
use gbnet.Channel.Drain.{IsPrefix, deliver_buffered-IsPrefix}
use gbnet.Channel.Step.{advance}

-- Message `i` has been delivered, or it waits in the buffer.
abbrev pub Got : Channel → ℕ → Type 0
Got ch i =
    (i < ch.messages_received)
    ⊎ ((i < ch.messages_received + 32768)
        × (contains_key (i % 65536) ch.ordered_receive_buffer ≡ true))

deliver_buffered-Got :
    (m : ℕ → List ℕ) (ch : Channel) (p : List ℕ) (i : ℕ)
    → IsPrefix m ch
    → Got ch i
    → Got (deliver_buffered ch p) i
unfolding deliver_buffered
deliver_buffered-Got m ch p i (q, r, d, h) g =
    let l = lookup-remove ch.receive_sequence (i % 65536) ch.ordered_receive_buffer d in
    ground (arith, l, r)

pub drain_rounds-Got :
    (m : ℕ → List ℕ) (n i : ℕ) (ch : Channel) → IsPrefix m ch → Got ch i → Got (drain_rounds n ch) i
unfolding drain_rounds
drain_rounds-Got m zero i ch p g = g
drain_rounds-Got m (suc n) i ch p g =
    elim (Option-cases (lookup ch.receive_sequence ch.ordered_receive_buffer)) [
      | inl e ↦ rw (e, drain_rounds) g
      | inr ((v, t), e) ↦
          rw (e, drain_rounds)
            (drain_rounds-Got m n i (deliver_buffered ch v) (deliver_buffered-IsPrefix m ch v t e p)
              (deliver_buffered-Got m ch v i p g))
    ]

pub drain_rounds-length :
    (n : ℕ) (ch : Channel)
    → length (drain_rounds n ch).ordered_receive_buffer ≤ length ch.ordered_receive_buffer
unfolding drain_rounds deliver_buffered
drain_rounds-length zero ch = omega arith
drain_rounds-length (suc n) ch =
    elim (Option-cases (lookup ch.receive_sequence ch.ordered_receive_buffer)) [
      | inl e ↦ rw (e, drain_rounds) (omega arith)
      | inr ((v, t), e) ↦
          rw (e, drain_rounds)
            (ground (
              arith,
              drain_rounds-length n (deliver_buffered ch v),
              length-remove ch.receive_sequence ch.ordered_receive_buffer,
            ))
    ]

pub advance-Got :
    (m : ℕ → List ℕ) (ch : Channel) (i : ℕ)
    → Got ch i ⊎ (i ≡ ch.messages_received)
    → Got (advance ch (m ch.messages_received)) i
unfolding deliver
advance-Got m ch i g = ground arith

pub buffer_message-Got :
    (m : ℕ → List ℕ) (ch : Channel) (now i j : ℕ)
    → i < ch.messages_received + 32768
    → Got ch j ⊎ (j ≡ i)
    → Got (buffer_message ch now (i % 65536) (m i)) j
unfolding buffer_message
buffer_message-Got m ch now i j hi g = ground (
  arith,
  ==_refl (i % 65536),
  lookup-insert (i % 65536) (j % 65536) (m i, now) ch.ordered_receive_buffer,
)
