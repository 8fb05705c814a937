-- ===== src/Connection/Rounds.antt =====
-- The loop over the messages of one channel in a tick, gbnet/src/connection/io.rs, has rounds
-- enough.
use gbnet.Prelude.{
  ℕ, zero, suc, ◌+◌, ◌%◌, ◌^◌, ◌≤◌, ◌≡◌, refl, sym, inl, inr, true, none, some, List, [], ◌∷◌, ltb,
  Bool-cases, Option-cases, length, arith,
}
use gbnet.Float.{Float}
use gbnet.Config.{is_reliable}
use gbnet.Channel
use gbnet.Channel.{Channel, ChannelMessage}
use gbnet.Congestion
use gbnet.Fragment.{fragment_message}
use gbnet.Packet.{payload_of}
use gbnet.Connection.{Connection, find_channel, at_channel}
use gbnet.Connection.Operations.{create_header}
use gbnet.Connection.Handshake.{push_packet}
use gbnet.Connection.Sending.{push_fragments, send_fragmented, send_message, send_rounds, buffered}
use gbnet.Connection.Still.{Result-cases}

module _ {ℓ κ} {V : Type ℓ} {W : Type κ} ⦃v : Float V⦄ ⦃f : Float W⦄ where
  push_fragments-channels :
      (c : Connection V W) (ch_idx frag_idx : ℕ) (fragments : List (List ℕ))
      → (push_fragments c ch_idx frag_idx fragments).0.channels ≡ c.channels
  unfolding push_fragments push_packet create_header
  push_fragments-channels c ch_idx frag_idx [] = refl
  push_fragments-channels c ch_idx frag_idx (fragment ∷ fragments) =
      push_fragments-channels (push_packet c (payload_of ch_idx true) fragment) ch_idx
        (frag_idx + 1) fragments

  send_fragmented-channels :
      (c : Connection V W) (ch_idx : ℕ) (wire : List ℕ)
      → (send_fragmented c ch_idx wire).channels ≡ c.channels
  unfolding send_fragmented
  send_fragmented-channels c ch_idx wire =
      let r = fragment_message c.next_fragment_id wire c.config.fragment_threshold in
      elim (Result-cases r) [
        | inr (_, e) ↦ simp (e, send_fragmented) refl
        | inl (fragments, e) ↦
            let c' = record c { next_fragment_id = (c.next_fragment_id + 1) % 2 ^ 32 } in
            simp (e, send_fragmented) (push_fragments-channels c' ch_idx 0 fragments)
      ]

  send_message-channels :
      (c : Connection V W) (now ch_idx : ℕ) (ch : Channel) (msg_seq : ℕ) (wire : List ℕ)
      → (send_message c now ch_idx ch msg_seq wire).channels ≡ c.channels
  unfolding send_message push_packet create_header
  send_message-channels c now ch_idx ch msg_seq wire =
      let c1 = record c { congestion = Congestion.deduct_budget c.congestion (length wire) } in
      let split = send_fragmented-channels (create_header c1).0 ch_idx wire in
      elim (Bool-cases (ltb c.config.fragment_threshold (length wire))) [
        | inl long ↦ elim (Bool-cases (is_reliable ch.config.delivery_mode)) [
          | inl b ↦ simp (long, b, send_message) split
          | inr b ↦ simp (long, b, send_message) split
        ]
        | inr short ↦ elim (Bool-cases (is_reliable ch.config.delivery_mode)) [
          | inl b ↦ simp (short, b, send_message) refl
          | inr b ↦ simp (short, b, send_message) refl
        ]
      ]

-- A message that goes out leaves the send buffer.
outgoing-shorter :
    (ch : Channel) (now : ℕ) (message : ℕ × List ℕ)
    → (Channel.get_outgoing_message ch now).1 ≡ some message
    → length ch.send_buffer ≡ suc (length (Channel.get_outgoing_message ch now).0.send_buffer)
unfolding Channel.get_outgoing_message Channel.track_sent
outgoing-shorter ch now message e = ground (arith, e)

find_channel-at_channel :
    (i : ℕ) (g : Channel → Channel) (chs : List Channel) (ch : Channel)
    → find_channel i chs ≡ some ch
    → find_channel i (at_channel i g chs) ≡ some (g ch)
unfolding find_channel at_channel
find_channel-at_channel zero g [] ch e = cc
find_channel-at_channel (suc i) g [] ch e = cc
find_channel-at_channel zero g (x ∷ chs) ch e = cc
find_channel-at_channel (suc i) g (x ∷ chs) ch e = find_channel-at_channel i g chs ch e

-- A channel without messages has none to send.
none_buffered :
    (ch : Channel) (now : ℕ)
    → length ch.send_buffer ≡ 0
    → (Channel.get_outgoing_message ch now).1 ≡ none
unfolding Channel.get_outgoing_message
none_buffered ch now e = ground (arith, e)

module _ {ℓ κ} {V : Type ℓ} {W : Type κ} ⦃v : Float V⦄ ⦃f : Float W⦄ where
  -- The loop is at its end where the channel has no messages.
  send_rounds-empty :
      (n : ℕ) (c : Connection V W) (now ch_idx sent : ℕ)
      → buffered c.channels ch_idx ≤ 0
      → send_rounds n c now ch_idx sent ≡ (c, sent)
  unfolding send_rounds
  send_rounds-empty zero c now ch_idx sent h = refl
  send_rounds-empty (suc n) c now ch_idx sent h =
      elim (Option-cases (find_channel ch_idx c.channels)) [
        | inl e ↦ simp (e, send_rounds) refl
        | inr (ch, e) ↦
            let few : length ch.send_buffer ≡ 0 = ground (arith, h, e) in
            let empty = none_buffered ch now few in simp (e, empty, send_rounds) refl
      ]

  -- As many rounds as the channel has messages are enough: with more of them the loop ends with
  -- the same connection and the same count.
  pub send_rounds_enough :
      (n m : ℕ) (c : Connection V W) (now ch_idx sent : ℕ)
      → buffered c.channels ch_idx ≤ n
      → buffered c.channels ch_idx ≤ m
      → send_rounds n c now ch_idx sent ≡ send_rounds m c now ch_idx sent
  unfolding send_rounds
  send_rounds_enough zero m c now ch_idx sent h k = sym (send_rounds-empty m c now ch_idx sent h)
  send_rounds_enough (suc n) zero c now ch_idx sent h k =
      send_rounds-empty (suc n) c now ch_idx sent k
  send_rounds_enough (suc n) (suc m) c now ch_idx sent h k =
      elim (Option-cases (find_channel ch_idx c.channels)) [
        | inl e ↦ simp (e, send_rounds) refl
        | inr (ch, e) ↦ elim (Option-cases (Channel.get_outgoing_message ch now).1) [
          | inl empty ↦ simp (e, empty, send_rounds) refl
          | inr (message, g) ↦
              let take_one = λ (ch : Channel). (Channel.get_outgoing_message ch now).0 in
              let c' = record c { channels = at_channel ch_idx take_one c.channels } in
              let next = send_message c' now ch_idx ch message.0 message.1 in
              let same = send_message-channels c' now ch_idx ch message.0 message.1 in
              let found = find_channel-at_channel ch_idx take_one c.channels ch e in
              let shorter = outgoing-shorter ch now message g in
              let fewer : suc (buffered next.channels ch_idx) ≡ buffered c.channels ch_idx =
                rw same (rw (e, buffered) (rw (found, buffered) (sym shorter))) in
              let below =
                send_rounds_enough n m next now ch_idx (sent + 1) (omega (arith, fewer, h))
                  (omega (arith, fewer, k)) in
              simp (e, g, send_rounds) (rw below refl)
        ]
      ]
