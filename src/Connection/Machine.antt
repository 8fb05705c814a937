-- ===== src/Connection/Machine.antt =====
-- The state machine that a connection implements, gbnet/src/connection/handshake.rs and io.rs.
use gbnet.Prelude.{
  ℕ, ◌≡◌, ◌≢◌, ◌⊎◌, refl, inl, inr, Bool, true, false, List, [], ◌∷◌, Option-cases, ◌∙◌,
}
use gbnet.Float.{Float}
use gbnet.Packet.{
  Packet, PacketType, connection_challenge, connection_accept, connection_deny, disconnect,
  batched_payload,
}
use gbnet.Batch.{unbatch_messages}
use gbnet.Connection.{
  Connection, ConnectionState, disconnected, connecting, challenge_response, connected,
  disconnecting,
}
use gbnet.Connection.Operations.{create_header, process_incoming_header, receive_payload_direct}
use gbnet.Connection.Handshake.{
  push_packet, reset_connection, deliver_all, handle_connected, handle_packet,
}

-- What happens to a connection, and when.
pub data Event : Type 0 where
  connect_at : ℕ → Event
  disconnect_at : ℕ → ℕ → Event
  arrives : ℕ → Packet → Event
  tick_at : ℕ → Event
  sets : ConnectionState → Event

-- The packets that change the state of a connection.
abbrev pub moves : ConnectionState → PacketType → Bool
moves connecting (connection_challenge _) = true
moves connecting (connection_deny _) = true
moves challenge_response connection_accept = true
moves challenge_response (connection_deny _) = true
moves connected (disconnect _) = true
moves disconnecting (disconnect _) = true
moves _ _ = false

-- How the state may change.
pub data Step : ConnectionState → Event → ConnectionState → Type 0 where
  opens : (now : ℕ) → Step disconnected (connect_at now) connecting
  challenged :
      (now salt : ℕ) (p : Packet)
      → p.packet_type ≡ connection_challenge salt
      → Step connecting (arrives now p) challenge_response
  accepted :
      (now : ℕ) (p : Packet)
      → p.packet_type ≡ connection_accept
      → Step challenge_response (arrives now p) connected
  denied :
      (s : ConnectionState) (now reason : ℕ) (p : Packet)
      → (s ≡ connecting) ⊎ (s ≡ challenge_response)
      → p.packet_type ≡ connection_deny reason
      → Step s (arrives now p) disconnected
  ended :
      (s : ConnectionState) (now reason : ℕ) (p : Packet)
      → (s ≡ connected) ⊎ (s ≡ disconnecting)
      → p.packet_type ≡ disconnect reason
      → Step s (arrives now p) disconnected
  closes :
      (s : ConnectionState) (now reason : ℕ)
      → s ≢ disconnected
      → Step s (disconnect_at now reason) disconnecting
  gives_up : (s : ConnectionState) (now : ℕ) → s ≢ disconnected → Step s (tick_at now) disconnected
  assigned : (s t : ConnectionState) → Step s (sets t) t
  refused : (s : ConnectionState) (now : ℕ) → s ≢ disconnected → Step s (connect_at now) s
  remains : (now reason : ℕ) → Step disconnected (disconnect_at now reason) disconnected
  idles : (s : ConnectionState) (now : ℕ) → Step s (tick_at now) s
  ignores :
      (s : ConnectionState) (now : ℕ) (p : Packet)
      → moves s p.packet_type ≡ false
      → Step s (arrives now p) s

module _ {ℓ κ} {V : Type ℓ} {W : Type κ} ⦃v : Float V⦄ ⦃f : Float W⦄ where
  deliver_all-state :
      (c : Connection V W) (now channel : ℕ) (messages : List (List ℕ))
      → (deliver_all c now channel messages).state ≡ c.state
  unfolding deliver_all receive_payload_direct
  deliver_all-state c now channel [] = refl
  deliver_all-state c now channel (message ∷ messages) =
      deliver_all-state (receive_payload_direct c now channel message) now channel messages

  connecting-Step :
      (c : Connection V W) (now : ℕ) (p : Packet) (t : PacketType)
      → c.state ≡ connecting
      → p.packet_type ≡ t
      → Step connecting (arrives now p) (handle_packet c now p).0.state
  unfolding handle_packet push_packet create_header
  connecting-Step c now p (connection_challenge salt) e h =
      let next : (handle_packet c now p).0.state ≡ challenge_response =
        rw (e, handle_packet) (rw (h, handle_packet) refl) in
      rw next (challenged now salt p h)
  connecting-Step c now p (connection_deny reason) e h =
      let next : (handle_packet c now p).0.state ≡ disconnected =
        rw (e, handle_packet) (rw (h, handle_packet) refl) in
      rw next (denied connecting now reason p (inl refl) h)
  connecting-Step c now p _ e h =
      let next : (handle_packet c now p).0.state ≡ connecting =
        rw (e, handle_packet) (rw (h, handle_packet) e) in
      rw next (ignores connecting now p (rw h refl))

  challenge_response-Step :
      (c : Connection V W) (now : ℕ) (p : Packet) (t : PacketType)
      → c.state ≡ challenge_response
      → p.packet_type ≡ t
      → Step challenge_response (arrives now p) (handle_packet c now p).0.state
  unfolding handle_packet
  challenge_response-Step c now p connection_accept e h =
      let next : (handle_packet c now p).0.state ≡ connected =
        rw (e, handle_packet) (rw (h, handle_packet) refl) in
      rw next (accepted now p h)
  challenge_response-Step c now p (connection_deny reason) e h =
      let next : (handle_packet c now p).0.state ≡ disconnected =
        rw (e, handle_packet) (rw (h, handle_packet) refl) in
      rw next (denied challenge_response now reason p (inr refl) h)
  challenge_response-Step c now p _ e h =
      let next : (handle_packet c now p).0.state ≡ challenge_response =
        rw (e, handle_packet) (rw (h, handle_packet) e) in
      rw next (ignores challenge_response now p (rw h refl))

  disconnecting-Step :
      (c : Connection V W) (now : ℕ) (p : Packet) (t : PacketType)
      → c.state ≡ disconnecting
      → p.packet_type ≡ t
      → Step disconnecting (arrives now p) (handle_packet c now p).0.state
  unfolding handle_packet reset_connection
  disconnecting-Step c now p (disconnect reason) e h =
      let next : (handle_packet c now p).0.state ≡ disconnected =
        rw (e, handle_packet) (rw (h, handle_packet) refl) in
      rw next (ended disconnecting now reason p (inr refl) h)
  disconnecting-Step c now p _ e h =
      let next : (handle_packet c now p).0.state ≡ disconnecting =
        rw (e, handle_packet) (rw (h, handle_packet) e) in
      rw next (ignores disconnecting now p (rw h refl))

  -- What a connected peer does with a packet leaves the state alone, but for a disconnect.
  handle_connected-Step :
      (c : Connection V W) (now : ℕ) (p : Packet) (t : PacketType)
      → c.state ≡ connected
      → p.packet_type ≡ t
      → Step connected (arrives now p) (handle_connected c now p).state
  unfolding handle_connected receive_payload_direct push_packet create_header reset_connection
  handle_connected-Step c now p (disconnect reason) e h =
      let next : (handle_connected c now p).state ≡ disconnected = rw (h, handle_connected) refl in
      rw next (ended connected now reason p (inl refl) h)
  handle_connected-Step c now p (batched_payload channel) e h =
      let next : (handle_connected c now p).state ≡ connected =
        rw (h, handle_connected)
          (elim (Option-cases (unbatch_messages p.payload)) [
            | inl n ↦ rw (n, handle_connected) e
            | inr (messages, g) ↦
                rw (g, handle_connected) (deliver_all-state c now channel messages ∙ e)
          ]) in
      rw next (ignores connected now p (rw h refl))
  handle_connected-Step c now p _ e h =
      let next : (handle_connected c now p).state ≡ connected = rw (h, handle_connected) e in
      rw next (ignores connected now p (rw h refl))

  connected-handle_packet :
      (c : Connection V W) (now : ℕ) (p : Packet)
      → c.state ≡ connected
      → (handle_packet c now p).0 ≡ handle_connected (process_incoming_header c now p.header) now p
  unfolding handle_packet
  connected-handle_packet c now p e = simp (e, handle_packet) refl

  process_incoming_header-state :
      (c : Connection V W) (now : ℕ) (p : Packet)
      → (process_incoming_header c now p.header).state ≡ c.state
  unfolding process_incoming_header
  process_incoming_header-state c now p = refl

  connected-Step :
      (c : Connection V W) (now : ℕ) (p : Packet)
      → c.state ≡ connected
      → Step connected (arrives now p) (handle_packet c now p).0.state
  connected-Step c now p e =
      let c' = process_incoming_header c now p.header in
      rw (connected-handle_packet c now p e) (
        handle_connected-Step c' now p p.packet_type (process_incoming_header-state c now p ∙ e)
          refl)

  pub handle_packet-Step :
      (s : ConnectionState) (c : Connection V W) (now : ℕ) (p : Packet)
      → c.state ≡ s
      → Step s (arrives now p) (handle_packet c now p).0.state
  unfolding handle_packet
  handle_packet-Step disconnected c now p e =
      let next : (handle_packet c now p).0.state ≡ disconnected = rw (e, handle_packet) e in
      rw next (ignores disconnected now p refl)
  handle_packet-Step connecting c now p e = connecting-Step c now p p.packet_type e refl
  handle_packet-Step challenge_response c now p e =
      challenge_response-Step c now p p.packet_type e refl
  handle_packet-Step connected c now p e = connected-Step c now p e
  handle_packet-Step disconnecting c now p e = disconnecting-Step c now p p.packet_type e refl
