-- ===== src/Channel/Enqueue.antt =====
-- What `Channel::send` of gbnet/src/channel.rs does.
use gbnet.Prelude.{
  ℕ, ◌-◌, ◌≤◌, ◌<◌, ◌≡◌, refl, Bool, ◌&&◌, List, [], ◌∷◌, ◌++◌, Result, ok, err, inl, inr, arith,
  ltb, if◌then◌else◌, length, tail, length-append, Bool-cases,
}
use gbnet.Channel.{
  ChannelError, buffer_full, message_too_large, ChannelMessage, Channel, queued_message, is_full,
  enqueue, send,
}

-- What `send` has done to a channel, by its result.
abbrev pub HasSent : Channel → List ℕ → Bool → Channel × Result (Unit {0}) ChannelError → Type 0
HasSent ch payload reliable (ch', ok _) =
    (length payload ≤ ch.config.max_message_size)
    × ((rest : List ChannelMessage) × (ch'.send_buffer
          ≡ rest ++ (queued_message ch.send_sequence payload reliable ∷ [])))
HasSent ch payload reliable (ch', err message_too_large) =
    (ch' ≡ ch) × (ch.config.max_message_size < length payload)
HasSent ch payload reliable (ch', err buffer_full) =
    (ch' ≡ ch) × (ch.config.message_buffer_size ≤ length ch.send_buffer)
HasSent ch payload reliable (ch', err _) = ⊥

length-tail : (l : List ChannelMessage) → length (tail l) ≡ length l - 1
length-tail [] = omega arith
length-tail (m ∷ l) = omega arith

enqueue-IsBounded :
    (ch : Channel) (payload : List ℕ) (reliable : Bool)
    → 0 < ch.config.message_buffer_size
    → length ch.send_buffer ≤ ch.config.message_buffer_size
    → length (enqueue ch payload reliable).send_buffer ≤ ch.config.message_buffer_size
unfolding enqueue
enqueue-IsBounded ch payload reliable pos le = ground (
  arith,
  length-tail ch.send_buffer,
  length-append (tail ch.send_buffer) (queued_message ch.send_sequence payload reliable ∷ []),
  length-append ch.send_buffer (queued_message ch.send_sequence payload reliable ∷ []),
)

enqueued :
    (ch : Channel) (payload : List ℕ) (reliable : Bool)
    → (rest : List ChannelMessage) × ((enqueue ch payload reliable).send_buffer
        ≡ rest ++ (queued_message ch.send_sequence payload reliable ∷ []))
unfolding enqueue
enqueued ch payload reliable = ((if is_full ch then tail ch.send_buffer else ch.send_buffer), refl)

-- `send` keeps the buffer within `message_buffer_size`, where that is positive. It refuses only
-- a message that is too long or one for which there is no room, and then nothing changes; any
-- other message stands last in the buffer afterwards.
pub send-HasSent :
    (ch : Channel) (payload : List ℕ) (reliable : Bool)
    → 0 < ch.config.message_buffer_size
    → length ch.send_buffer ≤ ch.config.message_buffer_size
    → (length (send ch payload reliable).0.send_buffer ≤ ch.config.message_buffer_size)
      × HasSent ch payload reliable (send ch payload reliable)
unfolding send
send-HasSent ch payload reliable pos le =
    elim (Bool-cases (ltb ch.config.max_message_size (length payload))) [
      | inl long ↦ rw (long, send) (le, (refl, ground arith))
      | inr short ↦ elim (Bool-cases (is_full ch && ch.config.block_on_full)) [
        | inl full ↦ rw (short, full, send) (le, (refl, ground arith))
        | inr room ↦
            rw (short, room, send)
              (
                enqueue-IsBounded ch payload reliable pos le,
                (ground arith, enqueued ch payload reliable),
              )
      ]
    ]
