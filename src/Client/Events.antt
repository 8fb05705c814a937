-- ===== src/Client/Events.antt =====
-- What a client tells of its connection, gbnet/src/client.rs.
use gbnet.Prelude.{
  ℕ, suc, ◌+◌, ◌≡◌, refl, inl, inr, Bool, true, false, List, [], ◌∷◌, ◌++◌, length, ltb, arith,
  Bool-cases, Option-cases,
}
use gbnet.Float.{Float}
use gbnet.Batch.{unbatch_messages}
use gbnet.Packet.{
  Packet, PacketType, connection_accept, connection_deny, disconnect, payload_of, batched_payload,
}
use gbnet.Connection.Operations.{record_bytes_received}
use gbnet.Client.{
  ClientState, connecting, challenge_response, connected, disconnecting, disconnected, ClientEvent,
  has_connected, has_disconnected, message, NetClient, Outcome, heard, handle_payload,
  handle_connected, handle_accept, handle_packet, handle_all,
}

-- How often a client has said that it is connected.
abbrev pub announced : List ClientEvent → ℕ
announced [] = 0
announced (has_connected ∷ events) = suc (announced events)
announced (has_disconnected _ ∷ events) = announced events
announced (message _ _ ∷ events) = announced events

abbrev pub notified : Bool → ℕ
notified true = 1
notified false = 0

pub announced-append :
    (xs ys : List ClientEvent) → announced (xs ++ ys) ≡ announced xs + announced ys
announced-append [] ys = omega arith
announced-append (has_connected ∷ xs) ys = omega (arith, announced-append xs ys)
announced-append (has_disconnected _ ∷ xs) ys = announced-append xs ys
announced-append (message _ _ ∷ xs) ys = announced-append xs ys

module _ {ℓ κ} {V : Type ℓ} {W : Type κ} ⦃v : Float V⦄ ⦃f : Float W⦄ where
  -- An outcome that announces exactly what the flag of the client gains.
  abbrev pub IsTold : NetClient V W → Outcome V W → Type 0
  IsTold c o =
      announced o.events + notified c.connected_notified ≡ notified o.client.connected_notified

  handle_payload-notified :
      (c : NetClient V W) (now channel : ℕ) (is_fragment : Bool) (p : Packet)
      → (handle_payload c now channel is_fragment p).connected_notified ≡ c.connected_notified
  unfolding handle_payload heard
  handle_payload-notified c now channel is_fragment p =
      elim (Bool-cases
        (ltb c.connection.config.default_channel.max_message_size (length p.payload))) [
          | inl b ↦ simp (b, handle_payload) refl
          | inr b ↦ elim (Bool-cases is_fragment) [
            | inl g ↦ simp (b, g, handle_payload) refl
            | inr g ↦ simp (b, g, handle_payload) refl
          ]
        ]

  handle_connected-IsTold :
      (c : NetClient V W) (now : ℕ) (p : Packet) (t : PacketType)
      → p.packet_type ≡ t
      → IsTold c (handle_connected c now p)
  unfolding handle_connected heard
  handle_connected-IsTold c now p (payload_of channel is_fragment) h =
      simp (h, handle_connected)
        (simp (handle_payload-notified c now channel is_fragment p) (omega arith))
  handle_connected-IsTold c now p (batched_payload channel) h =
      elim (Option-cases (unbatch_messages p.payload)) [
        | inl e ↦ simp (h, e, handle_connected) (omega arith)
        | inr (_, e) ↦ simp (h, e, handle_connected) (omega arith)
      ]
  handle_connected-IsTold c now p _ h = simp (h, handle_connected) (omega arith)

  handle_accept-IsTold : (c : NetClient V W) (now : ℕ) → IsTold c (handle_accept c now)
  unfolding handle_accept
  handle_accept-IsTold c now = elim (Bool-cases c.connected_notified) [
    | inl e ↦ simp (e, handle_accept) (omega arith)
    | inr e ↦ simp (e, handle_accept) (omega arith)
  ]

  -- What a client announces in the states of the handshake and of the end.
  connecting-IsTold :
      (c : NetClient V W) (now : ℕ) (p : Packet) (t : PacketType)
      → c.state ≡ connecting
      → p.packet_type ≡ t
      → IsTold c (handle_packet c now p)
  unfolding handle_packet
  connecting-IsTold c now p (connection_deny _) e h = simp (e, h, handle_packet) (omega arith)
  connecting-IsTold c now p _ e h = simp (e, h, handle_packet) (omega arith)

  challenge_response-IsTold :
      (c : NetClient V W) (now : ℕ) (p : Packet) (t : PacketType)
      → c.state ≡ challenge_response
      → p.packet_type ≡ t
      → IsTold c (handle_packet c now p)
  unfolding handle_packet
  challenge_response-IsTold c now p connection_accept e h =
      simp (e, h, handle_packet) (handle_accept-IsTold c now)
  challenge_response-IsTold c now p (connection_deny _) e h =
      simp (e, h, handle_packet) (omega arith)
  challenge_response-IsTold c now p _ e h = simp (e, h, handle_packet) (omega arith)

  disconnecting-IsTold :
      (c : NetClient V W) (now : ℕ) (p : Packet) (t : PacketType)
      → c.state ≡ disconnecting
      → p.packet_type ≡ t
      → IsTold c (handle_packet c now p)
  unfolding handle_packet
  disconnecting-IsTold c now p (disconnect _) e h = simp (e, h, handle_packet) (omega arith)
  disconnecting-IsTold c now p _ e h = simp (e, h, handle_packet) (omega arith)

  pub handle_packet-IsTold :
      (s : ClientState) (c : NetClient V W) (now : ℕ) (p : Packet)
      → c.state ≡ s
      → IsTold c (handle_packet c now p)
  unfolding handle_packet
  handle_packet-IsTold connecting c now p e = connecting-IsTold c now p p.packet_type e refl
  handle_packet-IsTold challenge_response c now p e =
      challenge_response-IsTold c now p p.packet_type e refl
  handle_packet-IsTold connected c now p e =
      simp (e, handle_packet) (handle_connected-IsTold c now p p.packet_type refl)
  handle_packet-IsTold disconnecting c now p e = disconnecting-IsTold c now p p.packet_type e refl
  handle_packet-IsTold disconnected c now p e = simp (e, handle_packet) (omega arith)

  -- Whatever arrives, a client says that it is connected when its flag is set, and never again:
  -- what it announces and the flag before make up the flag after.
  pub handle_all-announced :
      (c : NetClient V W) (now : ℕ) (arrivals : List (ℕ × Packet))
      → let o = handle_all c now arrivals in
        announced o.events + notified c.connected_notified ≡ notified o.client.connected_notified
  unfolding handle_all
  handle_all-announced c now [] = omega arith
  handle_all-announced c now ((bytes, p) ∷ arrivals) =
      let counted = record c { connection = record_bytes_received c.connection now bytes } in
      let one = handle_packet counted now p in
      let first = handle_packet-IsTold c.state counted now p refl in
      let rest = handle_all-announced one.client now arrivals in
      omega (
        arith,
        first,
        rest,
        announced-append one.events (handle_all one.client now arrivals).events,
      )
