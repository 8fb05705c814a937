-- ===== src/Client/Update.antt =====
-- `NetClient::connect` and the whole of `NetClient::update`, gbnet/src/client.rs. The address of the
-- server is a number; the socket says of each datagram whether it could be sent, and the datagrams
-- that wait at it are an argument.
use gbnet.Prelude.{
  ℕ, zero, suc, ◌+◌, ◌%◌, Bool, true, false, Option, none, some, Result, ok, err, List, [], ◌∷◌,
  ◌++◌, ◌==◌, if◌then◌else◌, length,
}
use gbnet.Float.{Float, Narrowing}
use gbnet.Config.Network.{NetworkConfig, ConfigError, validate}
use gbnet.Packet.{Packet, PacketType}
use gbnet.Packet.Wire.{deserialize}
use gbnet.Security.Crc.{validate_and_strip_crc32}
use gbnet.Connection.{Connection, timed_out}
use gbnet.Connection.Operations.{receive, drain_send_queue, record_bytes_received}
use gbnet.Connection.Tick.{update_tick}
use gbnet.Server.Tick.{send_packets, waiting_in}
use gbnet.Client.{
  ClientState, connected, disconnected, ClientEvent, has_disconnected, message, NetClient, Outcome,
  quiet, start, handle_packet, tick_timers,
}

-- A client after an update, the types of the packets that `send_raw` sends, the datagrams of the
-- connection, and the events.
pub record Updated {ℓ κ} (V : Type ℓ) (W : Type κ) : Type (ℓ ⊔ κ) where
  pub client : NetClient V W
  pub sent : List PacketType
  pub wires : List (List ℕ)
  pub events : List ClientEvent

-- What one call of `update` meets: what the socket takes, the time, and the datagrams at the socket.
pub record Round : Type 0 where
  pub takes : List ℕ → Bool
  pub now : ℕ
  pub waiting : List (ℕ × List ℕ)

abbrev pub is_connected : ClientState → Bool
is_connected connected = true
is_connected _ = false

module _ {ℓ κ} {V : Type ℓ} {W : Type κ} ⦃v : Float V⦄ ⦃f : Float W⦄ where
  unfoldable pub connect : NetworkConfig V → ℕ → ℕ → Result (Outcome V W) ConfigError
  unfolding start
  connect config now salt = elim (validate config) [
    | err e ↦ err e
    | ok _ ↦ ok (start config now salt)
  ]

  -- What a datagram is taken for: a packet of the protocol, with the length that is counted.
  unfoldable pub accepted : NetClient V W → ℕ → ℕ → List ℕ → Option (ℕ × Packet)
  accepted c server sender bytes =
      if sender == server
      then elim (validate_and_strip_crc32 bytes) [
        | none ↦ none
        | some validated ↦ elim (deserialize validated) [
          | err _ ↦ none
          | ok packet ↦
              if packet.header.protocol_id == c.connection.config.protocol_id
              then some (length validated, packet)
              else none
        ]
      ]
      else none

  -- The loop over the datagrams.
  unfoldable pub receive_all : NetClient V W → ℕ → ℕ → List (ℕ × List ℕ) → Outcome V W
  unfolding accepted handle_packet
  receive_all c server now [] = quiet c
  receive_all c server now ((sender, bytes) ∷ waiting) =
      let skipped = receive_all c server now waiting in
      elim (accepted c server sender bytes) [
        | none ↦ skipped
        | some (size, packet) ↦
            let counted = record c { connection = record_bytes_received c.connection now size } in
            let one = handle_packet counted now packet in
            let rest = receive_all one.client server now waiting in
            record {
              client = rest.client;
              sent = one.sent ++ rest.sent;
              events = one.events ++ rest.events;
            }
      ]

  -- `while let Some(data) = self.connection.receive(ch)`, with as many rounds as messages wait
  unfoldable pub receive_rounds : ℕ → Connection V W → ℕ → Connection V W × List ClientEvent
  receive_rounds zero c ch = (c, [])
  receive_rounds (suc rounds) c ch =
      let (c', next) = receive c ch in
      elim next [
        | none ↦ (c', [])
        | some payload ↦
            let (c'', events) = receive_rounds rounds c' ch in (c'', message ch payload ∷ events)
      ]

  -- the channels from `ch` on
  unfoldable pub receive_channels : ℕ → Connection V W → ℕ → Connection V W × List ClientEvent
  unfolding receive_rounds
  receive_channels zero c ch = (c, [])
  receive_channels (suc n) c ch =
      let (c', events) = receive_rounds (waiting_in c ch + 1) c ch in
      let (c'', later) = receive_channels n c' (ch + 1) in (c'', events ++ later)

module _ {ℓ κ} {V : Type ℓ} {W : Type κ} ⦃v : Float V⦄ ⦃f : Float W⦄ ⦃n : Narrowing W V⦄ where
  -- the end of `update` for a connected client; `channel_count as u8` is 0 for 256 channels
  unfoldable pub tick_connected : (List ℕ → Bool) → NetClient V W → ℕ → Updated V W
  unfolding update_tick send_packets receive_channels
  tick_connected takes c now =
      let (c1, result) = update_tick c.connection now in
      let (c2, packets) = drain_send_queue c1 in
      let (c3, wires) = send_packets takes c2 now packets in
      let (c4, messages) = receive_channels (length c3.channels % 256) c3 0 in
      elim result [
        | err _ ↦ record {
          client = record c { connection = c1; state = disconnected };
          sent = [];
          wires = [];
          events = has_disconnected timed_out ∷ [];
        }
        | ok _ ↦ record {
          client = record c { connection = c4 };
          sent = [];
          wires = wires;
          events = messages;
        }
      ]

  unfoldable pub update : NetClient V W → ℕ → Round → Updated V W
  unfolding tick_timers receive_all tick_connected
  update c server r =
      let (timers, over) = tick_timers c r.now in
      let heard = receive_all timers.client server r.now r.waiting in
      let ticked = tick_connected r.takes heard.client r.now in
      let sent = timers.sent ++ heard.sent in
      let events = timers.events ++ heard.events in
      if over
      then record { client = timers.client; sent = timers.sent; wires = []; events = timers.events }
      else if is_connected heard.client.state
      then record ticked { sent = sent; events = events ++ ticked.events }
      else record { client = heard.client; sent = sent; wires = []; events = events }

  -- The client after some updates, and all that it has told.
  unfoldable pub updates : NetClient V W → ℕ → List Round → NetClient V W × List ClientEvent
  unfolding update
  updates c server [] = (c, [])
  updates c server (r ∷ rounds) =
      let now = update c server r in
      let (c', later) = updates now.client server rounds in (c', now.events ++ later)
