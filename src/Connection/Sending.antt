-- ===== src/Connection/Sending.antt =====
-- The sending loop of a connected peer's tick, gbnet/src/connection/io.rs: for each channel in the
-- order of priority the messages that congestion control lets through, then the retransmissions.
use gbnet.Prelude.{
  ℕ, zero, suc, ◌+◌, ◌%◌, ◌^◌, Bool, true, false, ◌&&◌, Option, none, some, List, [], ◌∷◌, ok, err,
  ltb, if◌then◌else◌, length,
}
use gbnet.Prelude.Maps.{insert}
use gbnet.Float.{Float}
use gbnet.Config.{is_reliable}
use gbnet.Channel
use gbnet.Channel.{Channel}
use gbnet.Congestion
use gbnet.Congestion.Cwnd
use gbnet.Congestion.Cwnd.{CongestionWindow}
use gbnet.Fragment.{fragment_message}
use gbnet.Packet.{payload_of}
use gbnet.Reliability
use gbnet.Connection.{Connection, at_channel, find_channel}
use gbnet.Connection.Operations.{create_header, Entries}
use gbnet.Connection.Handshake.{push_packet}

abbrev pub buffered : List Channel → ℕ → ℕ
buffered chs ch_idx = elim (find_channel ch_idx chs) [ none ↦ 0 | some ch ↦ length ch.send_buffer ]

module _ {ℓ} {W : Type ℓ} ⦃f : Float W⦄ where
  abbrev window_allows : Option (CongestionWindow W) → ℕ → ℕ → Bool
  window_allows none now size = true
  window_allows (some w) now size = Cwnd.can_send w size && Cwnd.can_send_paced w now

  abbrev sent_window : Option (CongestionWindow W) → ℕ → ℕ → Option (CongestionWindow W)
  sent_window none now size = none
  sent_window (some w) now size = some (Cwnd.on_send w now size)

module _ {ℓ κ} {V : Type ℓ} {W : Type κ} ⦃v : Float V⦄ ⦃f : Float W⦄ where
  -- Whether one more packet may go out in this tick, in which `sent` have.
  unfoldable pub may_send : Connection V W → ℕ → ℕ → Bool
  may_send c now sent =
      Congestion.can_send c.congestion sent c.config.mtu && window_allows c.cwnd now c.config.mtu

  -- A packet for each fragment, and the entries that remember them.
  unfoldable pub push_fragments : Connection V W → ℕ → ℕ → List (List ℕ) → Connection V W × Entries
  push_fragments c ch_idx frag_idx [] = (c, [])
  push_fragments c ch_idx frag_idx (fragment ∷ fragments) =
      let (c', entries) =
        push_fragments (push_packet c (payload_of ch_idx true) fragment) ch_idx (frag_idx + 1)
          fragments in
      (c', (c.local_sequence, frag_idx, fragment) ∷ entries)

  -- A message that is too long for a packet.
  unfoldable pub send_fragmented : Connection V W → ℕ → List ℕ → Connection V W
  unfolding push_fragments
  send_fragmented c ch_idx wire =
      let frag_id = c.next_fragment_id in
      let c' = record c { next_fragment_id = (frag_id + 1) % 2 ^ 32 } in
      elim (fragment_message frag_id wire c.config.fragment_threshold) [
        | err _ ↦ c'
        | ok fragments ↦
            let (c'', entries) = push_fragments c' ch_idx 0 fragments in
            record c'' { pending_fragments = insert frag_id entries c''.pending_fragments }
      ]

  -- One message of a channel goes out. The number that is tracked is the one of the header that
  -- was made first: a fragmented message goes out under later numbers.
  unfoldable pub send_message : Connection V W → ℕ → ℕ → Channel → ℕ → List ℕ → Connection V W
  unfolding send_fragmented create_header
  send_message c now ch_idx ch msg_seq wire =
      let size = length wire in
      let c1 = record c { congestion = Congestion.deduct_budget c.congestion size } in
      let pkt_seq = c1.local_sequence in
      let c2 =
        if ltb c.config.fragment_threshold size
        then send_fragmented (create_header c1).0 ch_idx wire
        else push_packet c1 (payload_of ch_idx false) wire in
      let c3 = record c2 { data_sent_this_tick = true; cwnd = sent_window c2.cwnd now size } in
      if is_reliable ch.config.delivery_mode
      then record c3 {
        reliability = Reliability.on_packet_sent c3.reliability pkt_seq now ch_idx msg_seq size;
      }
      else c3

  -- The loop over the messages of one channel. Each round takes one out of the send buffer, so
  -- that as many rounds as it has messages are enough.
  unfoldable pub send_rounds : ℕ → Connection V W → ℕ → ℕ → ℕ → Connection V W × ℕ
  unfolding may_send send_message
  send_rounds zero c now ch_idx sent = (c, sent)
  send_rounds (suc n) c now ch_idx sent = elim (find_channel ch_idx c.channels) [
    | none ↦ (c, sent)
    | some ch ↦ elim (Channel.get_outgoing_message ch now).1 [
      | none ↦ (c, sent)
      | some message ↦
          let c' = record c {
            channels = at_channel ch_idx (λ ch. (Channel.get_outgoing_message ch now).0) c.channels;
          } in
          let next =
            send_rounds n (send_message c' now ch_idx ch message.0 message.1) now ch_idx
              (sent + 1) in
          if may_send c now sent then next else (c, sent)
    ]
  ]

  unfoldable pub push_retransmits : Connection V W → ℕ → List (ℕ × List ℕ) → Connection V W
  push_retransmits c ch_idx [] = c
  push_retransmits c ch_idx ((_, wire) ∷ retransmits) =
      push_retransmits (push_packet c (payload_of ch_idx false) wire) ch_idx retransmits

  unfoldable pub retransmit : Connection V W → ℕ → ℕ → Connection V W
  unfolding push_retransmits
  retransmit c now ch_idx = elim (find_channel ch_idx c.channels) [
    | none ↦ c
    | some ch ↦
        let (ch', retransmits) = Channel.get_retransmit_messages ch now c.reliability.rto in
        push_retransmits (record c { channels = at_channel ch_idx (λ _. ch') c.channels }) ch_idx
          retransmits
  ]

  -- The channels in the order of their priority; the count of packets runs on.
  unfoldable pub send_channels : Connection V W → ℕ → ℕ → List ℕ → Connection V W
  unfolding send_rounds retransmit
  send_channels c now sent [] = c
  send_channels c now sent (ch_idx ∷ order) =
      let (c', sent') = send_rounds (buffered c.channels ch_idx) c now ch_idx sent in
      send_channels (retransmit c' now ch_idx) now sent' order
