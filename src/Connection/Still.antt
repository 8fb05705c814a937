-- ===== src/Connection/Still.antt =====
-- What the sending side of a tick leaves alone, gbnet/src/connection/io.rs: the state of the state
-- machine.
use gbnet.Prelude.{
  ℕ, zero, suc, ◌+◌, ◌%◌, ◌^◌, ◌≡◌, ◌⊎◌, refl, ◌∙◌, inl, inr, true, false, List, [], ◌∷◌, Result,
  ok, err, ltb, Bool-cases, Option-cases, length, map, not, ◌&&◌, ◌-◌,
}
use gbnet.Float.{Float}
use gbnet.Config.{is_reliable}
use gbnet.Channel
use gbnet.Channel.Receive
use gbnet.Mtu
use gbnet.Channel.{Channel}
use gbnet.Congestion
use gbnet.Fragment.{fragment_message}
use gbnet.Packet.{payload_of}
use gbnet.Connection.{Connection, find_channel, at_channel}
use gbnet.Connection.Operations.{create_header}
use gbnet.Connection.Handshake.{push_packet}
use gbnet.Connection.Sending.{
  may_send, push_fragments, send_fragmented, send_message, send_rounds, push_retransmits,
  retransmit, send_channels, buffered,
}
use gbnet.Connection.Tick.{tick_congestion, tick_keepalive, tick_probe, tick_acks, tick_connected}

pub Result-cases {ℓ κ} :
    {A : Type ℓ} {E : Type κ} (r : Result A E) → ((a : A) × (r ≡ ok a)) ⊎ ((e : E) × (r ≡ err e))
Result-cases (ok a) = inl (a, refl)
Result-cases (err e) = inr (e, refl)

module _ {ℓ κ} {V : Type ℓ} {W : Type κ} ⦃v : Float V⦄ ⦃f : Float W⦄ where
  push_fragments-state :
      (c : Connection V W) (ch_idx frag_idx : ℕ) (fragments : List (List ℕ))
      → (push_fragments c ch_idx frag_idx fragments).0.state ≡ c.state
  unfolding push_fragments push_packet create_header
  push_fragments-state c ch_idx frag_idx [] = refl
  push_fragments-state c ch_idx frag_idx (fragment ∷ fragments) =
      push_fragments-state (push_packet c (payload_of ch_idx true) fragment) ch_idx (frag_idx + 1)
        fragments

  send_fragmented-state :
      (c : Connection V W) (ch_idx : ℕ) (wire : List ℕ)
      → (send_fragmented c ch_idx wire).state ≡ c.state
  unfolding send_fragmented
  send_fragmented-state c ch_idx wire =
      let r = fragment_message c.next_fragment_id wire c.config.fragment_threshold in
      elim (Result-cases r) [
        | inr (_, e) ↦ simp (e, send_fragmented) refl
        | inl (fragments, e) ↦
            let c' = record c { next_fragment_id = (c.next_fragment_id + 1) % 2 ^ 32 } in
            simp (e, send_fragmented) (push_fragments-state c' ch_idx 0 fragments)
      ]

  send_message-state :
      (c : Connection V W) (now ch_idx : ℕ) (ch : Channel) (msg_seq : ℕ) (wire : List ℕ)
      → (send_message c now ch_idx ch msg_seq wire).state ≡ c.state
  unfolding send_message push_packet create_header
  send_message-state c now ch_idx ch msg_seq wire =
      let c1 = record c { congestion = Congestion.deduct_budget c.congestion (length wire) } in
      elim (Bool-cases (ltb c.config.fragment_threshold (length wire))) [
        | inl long ↦ elim (Bool-cases (is_reliable ch.config.delivery_mode)) [
          | inl b ↦
              simp (long, b, send_message) (send_fragmented-state (create_header c1).0 ch_idx wire)
          | inr b ↦
              simp (long, b, send_message) (send_fragmented-state (create_header c1).0 ch_idx wire)
        ]
        | inr short ↦ elim (Bool-cases (is_reliable ch.config.delivery_mode)) [
          | inl b ↦ simp (short, b, send_message) refl
          | inr b ↦ simp (short, b, send_message) refl
        ]
      ]

  send_rounds-state :
      (n : ℕ) (c : Connection V W) (now ch_idx sent : ℕ)
      → (send_rounds n c now ch_idx sent).0.state ≡ c.state
  unfolding send_rounds
  send_rounds-state zero c now ch_idx sent = refl
  send_rounds-state (suc n) c now ch_idx sent =
      elim (Option-cases (find_channel ch_idx c.channels)) [
        | inl none_there ↦ simp (none_there, send_rounds) refl
        | inr (ch, e) ↦ elim (Option-cases (Channel.get_outgoing_message ch now).1) [
          | inl empty ↦ simp (e, empty, send_rounds) refl
          | inr (message, g) ↦ elim (Bool-cases (may_send c now sent)) [
            | inr b ↦ simp (e, g, b, send_rounds) refl
            | inl b ↦
                let c' = record c {
                  channels =
                      at_channel ch_idx (λ ch. (Channel.get_outgoing_message ch now).0) c.channels;
                } in
                let next = send_message c' now ch_idx ch message.0 message.1 in
                simp (e, g, b, send_rounds)
                  (send_rounds-state n next now ch_idx (sent + 1)
                    ∙ send_message-state c' now ch_idx ch message.0 message.1)
          ]
        ]
      ]

  push_retransmits-state :
      (c : Connection V W) (ch_idx : ℕ) (retransmits : List (ℕ × List ℕ))
      → (push_retransmits c ch_idx retransmits).state ≡ c.state
  unfolding push_retransmits push_packet create_header
  push_retransmits-state c ch_idx [] = refl
  push_retransmits-state c ch_idx ((_, wire) ∷ retransmits) =
      push_retransmits-state (push_packet c (payload_of ch_idx false) wire) ch_idx retransmits

  retransmit-state :
      (c : Connection V W) (now ch_idx : ℕ) → (retransmit c now ch_idx).state ≡ c.state
  unfolding retransmit
  retransmit-state c now ch_idx = elim (Option-cases (find_channel ch_idx c.channels)) [
    | inl e ↦ simp (e, retransmit) refl
    | inr (ch, e) ↦
        let swept = Channel.get_retransmit_messages ch now c.reliability.rto in
        let c' = record c { channels = at_channel ch_idx (λ _. swept.0) c.channels } in
        simp (e, retransmit) (push_retransmits-state c' ch_idx swept.1)
  ]

  send_channels-state :
      (c : Connection V W) (now sent : ℕ) (order : List ℕ)
      → (send_channels c now sent order).state ≡ c.state
  unfolding send_channels
  send_channels-state c now sent [] = refl
  send_channels-state c now sent (ch_idx ∷ order) =
      let (c', sent') = send_rounds (buffered c.channels ch_idx) c now ch_idx sent in
      send_channels-state (retransmit c' now ch_idx) now sent' order
      ∙ retransmit-state c' now ch_idx
      ∙ send_rounds-state (buffered c.channels ch_idx) c now ch_idx sent

  tick_keepalive-state : (c : Connection V W) (now : ℕ) → (tick_keepalive c now).state ≡ c.state
  unfolding tick_keepalive push_packet create_header
  tick_keepalive-state c now =
      elim (Bool-cases (ltb c.config.keepalive_interval (now - c.last_packet_send_time))) [
        | inl b ↦ simp (b, tick_keepalive) refl
        | inr b ↦ simp (b, tick_keepalive) refl
      ]

  tick_probe-state : (c : Connection V W) (now : ℕ) → (tick_probe c now).state ≡ c.state
  unfolding tick_probe push_packet create_header
  tick_probe-state c now = elim (Option-cases (Mtu.next_probe c.mtu_discovery now).1) [
    | inl e ↦ simp (e, tick_probe) refl
    | inr (size, e) ↦ simp (e, tick_probe) refl
  ]

  tick_acks-state : (c : Connection V W) → (tick_acks c).state ≡ c.state
  unfolding tick_acks push_packet create_header
  tick_acks-state c = elim (Bool-cases (c.pending_ack_send && not c.data_sent_this_tick)) [
    | inl b ↦ simp (b, tick_acks) refl
    | inr b ↦ simp (b, tick_acks) refl
  ]

  pub tick_connected-state : (c : Connection V W) (now : ℕ) → (tick_connected c now).state ≡ c.state
  unfolding tick_connected tick_congestion
  tick_connected-state c now =
      let kept = tick_keepalive (tick_congestion c now) now in
      let probed = record (tick_probe kept now) { data_sent_this_tick = false } in
      let sent = send_channels probed now 0 probed.channel_priority_order in
      let swept = record sent { channels = map (λ ch. Receive.update ch now) sent.channels } in
      tick_acks-state swept
      ∙ send_channels-state probed now 0 probed.channel_priority_order
      ∙ tick_probe-state kept now
      ∙ tick_keepalive-state (tick_congestion c now) now
