-- ===== src/Channel/Complete.antt =====
-- A reliable-ordered channel of gbnet/src/channel.rs delivers all that arrives.
use gbnet.Prelude.{
  ℕ, ◌+◌, ◌%◌, ◌≤◌, ◌<◌, ◌≡◌, ◌⊎◌, refl, true, false, List, [], ◌∷◌, inl, inr, arith, leb, ltb,
  ◌==◌, length, Bool-cases,
}
use gbnet.Prelude.Maps.{length-insert}
use gbnet.Config.{ChannelConfig, reliable_ordered}
use gbnet.Channel.{Channel, new, wire_data}
use gbnet.Channel.Framing.{counted, on_packet_received-wire_data}
use gbnet.Channel.Receive.{
  deliver, drain, make_room, buffer_message, receive_ordered, on_packet_received,
}
use gbnet.Channel.Drain.{upto, IsPrefix, Waits, IsOrdered, drain_rounds-config}
use gbnet.Channel.Step.{
  advance, advance-IsPrefix, old_lem, later_lem, by_mode, on_packet_received-IsOrdered,
}
use gbnet.Channel.Ordered.{arrive, arrive-IsOrdered, IsNear, new-IsOrdered}
use gbnet.Channel.Keep.{Got, drain_rounds-Got, drain_rounds-length, advance-Got, buffer_message-Got}

-- Nothing is evicted while there is room.
make_room_lem :
    (ch : Channel)
    → length ch.ordered_receive_buffer < ch.config.max_ordered_buffer_size
    → make_room ch ≡ ch
unfolding make_room
make_room_lem ch room =
    let fits : leb ch.config.max_ordered_buffer_size (length ch.ordered_receive_buffer) ≡ false =
      ground arith in
    rw (fits, make_room) refl

-- What a step keeps: the messages that it has got, and room in the buffer.
abbrev Keeps : Channel → Channel → ℕ → Type 0
Keeps ch ch' i =
    ((j : ℕ) → Got ch j ⊎ (j ≡ i) → Got ch' j)
    × (length ch'.ordered_receive_buffer ≤ length ch.ordered_receive_buffer + 1)
    × (ch'.config ≡ ch.config)

drained :
    (m : ℕ → List ℕ) (ch : Channel)
    → IsPrefix m ch
    → Waits ch
    → Keeps ch (drain (advance ch (m ch.messages_received))) ch.messages_received
unfolding drain deliver
drained m ch p w =
    let ch' = advance ch (m ch.messages_received) in
    let n = length ch.ordered_receive_buffer in
    (
      (λ j got. drain_rounds-Got m n j ch' (advance-IsPrefix m ch p w) (advance-Got m ch j got)),
      omega (arith, drain_rounds-length n ch'),
      drain_rounds-config n ch',
    )

buffer_message-length :
    (ch : Channel) (now seq : ℕ) (payload : List ℕ)
    → length (buffer_message ch now seq payload).ordered_receive_buffer
      ≤ length ch.ordered_receive_buffer + 1
unfolding buffer_message
buffer_message-length ch now seq payload =
    ground (arith, length-insert seq (payload, now) ch.ordered_receive_buffer)

receive_ordered-Keeps :
    (m : ℕ → List ℕ) (ch : Channel) (now i : ℕ)
    → ch.messages_received < i + 32768
    → i < ch.messages_received + 32768
    → length ch.ordered_receive_buffer < ch.config.max_ordered_buffer_size
    → IsOrdered m ch
    → Keeps ch (receive_ordered ch now (i % 65536) (m i)) i
unfolding receive_ordered drain
receive_ordered-Keeps m ch now i lo hi room (p, w, c) =
    let r = p.1 in
    elim (Bool-cases (ltb i ch.messages_received)) [
      | inl old ↦
          let (e, g) = old_lem i ch.messages_received ch.receive_sequence r lo (ground arith) in
          rw (e, g, receive_ordered) ((λ j got. ground arith), omega arith, refl)
      | inr not_old ↦ elim (Bool-cases (i == ch.messages_received)) [
        | inl eq ↦
            let at : i ≡ ch.messages_received = ground arith in
            let e : (i % 65536 == ch.receive_sequence) ≡ true = ground arith in
            rw (e, at, receive_ordered) (drained m ch p w)
        | inr ne ↦
            let (e, g) = later_lem i ch.messages_received ch.receive_sequence r (ground arith) hi in
            rw (e, g, receive_ordered, make_room_lem ch room)
              (
                (λ j got. buffer_message-Got m ch now i j hi got),
                buffer_message-length ch now (i % 65536) (m i),
                unfold buffer_message in refl,
              )
      ]
    ]

on_packet_received-Keeps :
    (m : ℕ → List ℕ) (ch : Channel) (now i : ℕ)
    → ch.messages_received < i + 32768
    → i < ch.messages_received + 32768
    → length ch.ordered_receive_buffer < ch.config.max_ordered_buffer_size
    → IsOrdered m ch
    → Keeps ch (on_packet_received ch now (wire_data (i % 65536) (m i))) i
on_packet_received-Keeps m ch now i lo hi room (p, w, c) =
    rw
      (
        on_packet_received-wire_data ch now (i % 65536) (m i) (omega arith),
        by_mode ch.config.delivery_mode (counted ch (m i)) now (i % 65536) (m i) c,
      )
      (receive_ordered-Keeps m (counted ch (m i)) now i lo hi room (p, w, c))

-- Message `i` is one of those that arrive.
abbrev Arrives : ℕ → List (ℕ × ℕ) → Type 0
Arrives i [] = ⊥
Arrives i ((j, now) ∷ arrivals) = (i ≡ j) ⊎ Arrives i arrivals

arrive-Got :
    (m : ℕ → List ℕ) (ch : Channel) (arrivals : List (ℕ × ℕ)) (i : ℕ)
    → IsNear m ch arrivals
    → length ch.ordered_receive_buffer + length arrivals ≤ ch.config.max_ordered_buffer_size
    → IsOrdered m ch
    → Got ch i ⊎ Arrives i arrivals
    → Got (arrive m ch arrivals) i
arrive-Got m ch [] i near room o (inl got) = got
arrive-Got m ch [] i near room o (inr none_left) = elim none_left [ ]
arrive-Got m ch ((j, now) ∷ arrivals) i (lo, hi, near) room o g =
    let ch' = on_packet_received ch now (wire_data (j % 65536) (m j)) in
    let (keeps, grown, same) = on_packet_received-Keeps m ch now j lo hi (omega arith) o in
    let o' = on_packet_received-IsOrdered m ch now j lo hi o in
    let room' : length ch'.ordered_receive_buffer + length arrivals
        ≤ ch'.config.max_ordered_buffer_size =
      rw same (omega arith) in
    elim g [
      | inl got ↦ arrive-Got m ch' arrivals i near room' o' (inl (keeps i (inl got)))
      | inr (inl here) ↦ arrive-Got m ch' arrivals i near room' o' (inl (keeps i (inr here)))
      | inr (inr later) ↦ arrive-Got m ch' arrivals i near room' o' (inr later)
    ]

-- The message that is waited for has not been got.
waits_lem :
    (ch : Channel)
    → ch.receive_sequence ≡ ch.messages_received % 65536
    → Waits ch
    → Got ch ch.messages_received
    → ⊥
waits_lem ch r w (inl less) = absurd (omega arith)
waits_lem ch r w (inr (near, there)) = absurd (ground (arith, r, w, there))

-- Let messages arrive at a new reliable-ordered channel in any order or repeated, each less than
-- 2^15 away from the one that is waited for, and no more of them than its buffer has room for.
-- Once the first `n` messages are all among them, the channel has delivered them: what it has
-- delivered is the sender's messages in order, each once, and at least `n` of them.
pub reliable_ordered_complete :
    (m : ℕ → List ℕ) (id n : ℕ) (config : ChannelConfig) (arrivals : List (ℕ × ℕ))
    → config.delivery_mode ≡ reliable_ordered
    → IsNear m (new id config) arrivals
    → length arrivals ≤ config.max_ordered_buffer_size
    → ((i : ℕ) → i < n → Arrives i arrivals)
    → let ch = arrive m (new id config) arrivals in
      (ch.delivery_queue ≡ upto m ch.messages_received) × (n ≤ ch.messages_received)
reliable_ordered_complete m id n config arrivals c near room all =
    let ch = arrive m (new id config) arrivals in
    let o = new-IsOrdered m id config c in
    let ((q, r, d, h), w, c') = arrive-IsOrdered m (new id config) arrivals near o in
    let room' : length {A = ℕ × (List ℕ × ℕ)} [] + length arrivals
        ≤ config.max_ordered_buffer_size =
      omega arith in
    (
      q,
      elim (Bool-cases (ltb ch.messages_received n)) [
        | inr enough ↦ ground arith
        | inl short ↦ absurd (
            waits_lem ch r w (
              arrive-Got m (new id config) arrivals ch.messages_received near (unfold new in room')
                o (inr (all ch.messages_received (ground arith)))))
      ],
    )
