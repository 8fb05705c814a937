-- ===== src/Client.antt =====
-- The client's side of a connection, gbnet/src/client.rs: its timers and its handler of packets.
-- A packet that `send_raw` puts on the wire is an output: its type, under a header with sequence
-- number 0 and nothing acknowledged. The socket and the address of the server are left out; the
-- whole of `update` is in Client/Update, and what a client tells in Client/Events and Announced.
mod Tests
pub mod Events
pub mod Update
pub mod Announced
use gbnet.Prelude.{
  ℕ, ◌+◌, ◌-◌, Bool, true, false, Option, none, some, List, [], ◌∷◌, ◌++◌, Result, ok, err, ltb,
  leb, if◌then◌else◌, length,
}
use gbnet.Float.{Float}
use gbnet.Batch.{unbatch_messages}
use gbnet.Config.Network.{NetworkConfig}
use gbnet.Fragment.{process_fragment}
use gbnet.Mtu
use gbnet.Packet.{
  Packet, PacketType, connection_request, connection_challenge, connection_response,
  connection_accept, connection_deny, disconnect, keep_alive, payload_of, batched_payload,
  mtu_probe, mtu_probe_ack, ack_only, connection_cookie, connection_request_with_cookie,
  reason_requested,
}
use gbnet.Stats.{default_stats}
use gbnet.Connection
use gbnet.Connection.{
  Connection, ConnectionError, not_connected, DisconnectReason, timed_out, requested, unknown,
  reason_of,
}
use gbnet.Connection.Operations
use gbnet.Connection.Operations.{
  new, record_bytes_received, process_incoming_header, receive_payload_direct,
}
use gbnet.Connection.Handshake.{reset_connection, deliver_all}
use gbnet.Connection.Tick.{has_passed}

pub data ClientState : Type 0 where
  connecting challenge_response connected disconnecting disconnected : ClientState

pub data ClientEvent : Type 0 where
  has_connected : ClientEvent
  has_disconnected : DisconnectReason → ClientEvent
  message : ℕ → List ℕ → ClientEvent

pub record NetClient {ℓ κ} (V : Type ℓ) (W : Type κ) : Type (ℓ ⊔ κ) where
  pub connection : Connection V W
  pub connected_notified : Bool
  pub state : ClientState
  pub connect_time : ℕ
  pub disconnect_time : Option ℕ
  pub disconnect_retry_count : ℕ

-- A client after an operation, the packets that it sends, and the events that it emits.
pub record Outcome {ℓ κ} (V : Type ℓ) (W : Type κ) : Type (ℓ ⊔ κ) where
  pub client : NetClient V W
  pub sent : List PacketType
  pub events : List ClientEvent

module _ {ℓ κ} {V : Type ℓ} {W : Type κ} ⦃v : Float V⦄ ⦃f : Float W⦄ where
  abbrev pub quiet : NetClient V W → Outcome V W
  quiet c = record { client = c; sent = []; events = [] }

  -- `NetClient::connect` past the validation and the socket
  unfoldable pub start : NetworkConfig V → ℕ → ℕ → Outcome V W
  start config now salt = record {
    client = record {
      connection = new config now salt;
      connected_notified = false;
      state = connecting;
      connect_time = now;
      disconnect_time = none;
      disconnect_retry_count = 0;
    };
    sent = connection_request ∷ [];
    events = [];
  }

  -- A data packet from the server has arrived: `touch_recv_time` and `process_incoming_header`.
  unfoldable pub heard : NetClient V W → ℕ → Packet → NetClient V W
  unfolding process_incoming_header
  heard c now p =
      let touched = record c.connection { last_packet_recv_time = now } in
      record c { connection = process_incoming_header touched now p.header }

  -- `ClientState::Connected`, `PacketType::Payload`
  unfoldable pub handle_payload : NetClient V W → ℕ → ℕ → Bool → Packet → NetClient V W
  unfolding heard receive_payload_direct
  handle_payload c now channel is_fragment p =
      let c' = heard c now p in
      let (assembler, assembled) =
        process_fragment c'.connection.fragment_assembler now p.payload in
      let held = record c'.connection { fragment_assembler = assembler } in
      if ltb c.connection.config.default_channel.max_message_size (length p.payload)
      then c
      else if is_fragment
      then record c' {
        connection = elim assembled [
          | none ↦ held
          | some payload ↦ receive_payload_direct held now channel payload
        ];
      }
      else record c' { connection = receive_payload_direct c'.connection now channel p.payload }

  unfoldable pub handle_connected : NetClient V W → ℕ → Packet → Outcome V W
  unfolding heard handle_payload
  handle_connected c now p =
      let c' = heard c now p in
      elim p.packet_type [
        | disconnect reason ↦ record {
          client = record c { state = disconnected };
          sent = [];
          events = has_disconnected (reason_of reason) ∷ [];
        }
        | payload_of channel is_fragment ↦ quiet (handle_payload c now channel is_fragment p)
        | mtu_probe probe_size ↦ record {
          client = c';
          sent = mtu_probe_ack probe_size ∷ [];
          events = [];
        }
        | mtu_probe_ack probe_size ↦ quiet (record c' {
          connection = record c'.connection {
            mtu_discovery = Mtu.on_probe_success c'.connection.mtu_discovery probe_size;
          };
        })
        | batched_payload channel ↦ elim (unbatch_messages p.payload) [
          | none ↦ quiet c'
          | some messages ↦
              quiet (record c' { connection = deliver_all c'.connection now channel messages })
        ]
        | keep_alive ↦ quiet c'
        | ack_only ↦ quiet c'
        | _ ↦ quiet c
      ]

  -- `ClientState::ChallengeResponse`, `PacketType::ConnectionAccept`
  unfoldable pub handle_accept : NetClient V W → ℕ → Outcome V W
  handle_accept c now =
      let connection = record c.connection {
        state = Connection.connected;
        last_packet_recv_time = now;
      } in
      record {
        client = record c { state = connected; connection = connection; connected_notified = true };
        sent = [];
        events = (if c.connected_notified then [] else has_connected ∷ []);
      }

  abbrev pub denied : NetClient V W → ℕ → Outcome V W
  denied c reason = record {
    client = record c { state = disconnected };
    sent = [];
    events = has_disconnected (unknown reason) ∷ [];
  }

  unfoldable pub handle_packet : NetClient V W → ℕ → Packet → Outcome V W
  handle_packet c now p = elim c.state [
    | connecting ↦ elim p.packet_type [
      | connection_cookie high low ↦ record {
        client = c;
        sent = connection_request_with_cookie high low ∷ [];
        events = [];
      }
      | connection_challenge server_salt ↦ record {
        client = record c {
          connection = record c.connection { server_salt = server_salt };
          state = challenge_response;
        };
        sent = connection_response c.connection.client_salt ∷ [];
        events = [];
      }
      | connection_deny reason ↦ denied c reason
      | _ ↦ quiet c
    ]
    | challenge_response ↦ elim p.packet_type [
      | connection_challenge _ ↦ record {
        client = c;
        sent = connection_response c.connection.client_salt ∷ [];
        events = [];
      }
      | connection_accept ↦ handle_accept c now
      | connection_deny reason ↦ denied c reason
      | _ ↦ quiet c
    ]
    | connected ↦ handle_connected c now p
    | disconnecting ↦ elim p.packet_type [
      | disconnect reason ↦ record {
        client = record c { state = disconnected };
        sent = [];
        events = has_disconnected (reason_of reason) ∷ [];
      }
      | _ ↦ quiet c
    ]
    | disconnected ↦ quiet c
  ]

  -- The packets that the socket has, with their lengths: the loop of `update` over them.
  unfoldable pub handle_all : NetClient V W → ℕ → List (ℕ × Packet) → Outcome V W
  handle_all c now [] = quiet c
  handle_all c now ((bytes, p) ∷ arrivals) =
      let counted = record c { connection = record_bytes_received c.connection now bytes } in
      let one = handle_packet counted now p in
      let rest = handle_all one.client now arrivals in
      record {
        client = rest.client;
        sent = one.sent ++ rest.sent;
        events = one.events ++ rest.events;
      }

  -- The timers at the start of `update`; the flag says that the update ends there.
  unfoldable pub tick_connecting : NetClient V W → ℕ → Outcome V W × Bool
  tick_connecting c now =
      if ltb c.connection.config.connection_timeout (now - c.connect_time)
      then (
        record {
          client = record c { state = disconnected };
          sent = [];
          events = has_disconnected timed_out ∷ [];
        },
        true,
      )
      else (quiet c, false)

  unfoldable pub tick_disconnecting : NetClient V W → ℕ → Outcome V W × Bool
  tick_disconnecting c now =
      let config = c.connection.config in
      if has_passed c.disconnect_time now config.disconnect_retry_timeout
      then if leb config.disconnect_retries c.disconnect_retry_count
        then (
          record {
            client = record c { state = disconnected };
            sent = [];
            events = has_disconnected requested ∷ [];
          },
          true,
        )
        else (
          record {
            client = record c {
              disconnect_retry_count = c.disconnect_retry_count + 1;
              disconnect_time = some now;
            };
            sent = disconnect reason_requested ∷ [];
            events = [];
          },
          false,
        )
      else (quiet c, false)

  unfoldable pub tick_timers : NetClient V W → ℕ → Outcome V W × Bool
  tick_timers c now = elim c.state [
    | connecting ↦ tick_connecting c now
    | challenge_response ↦ tick_connecting c now
    | disconnecting ↦ tick_disconnecting c now
    | _ ↦ (quiet c, false)
  ]

  unfoldable pub start_disconnect : NetClient V W → ℕ → Outcome V W
  start_disconnect c now = record {
    client = record c {
      state = disconnecting;
      disconnect_time = some now;
      disconnect_retry_count = 0;
    };
    sent = disconnect reason_requested ∷ [];
    events = [];
  }

  unfoldable pub reconnect : NetClient V W → ℕ → Outcome V W
  unfolding reset_connection
  reconnect c now = record {
    client = record c {
      connection = record (reset_connection c.connection) {
        state = Connection.disconnected;
        stats = default_stats;
      };
      connected_notified = false;
      state = connecting;
      connect_time = now;
      disconnect_time = none;
      disconnect_retry_count = 0;
    };
    sent = connection_request ∷ [];
    events = [];
  }

  unfoldable pub shutdown : NetClient V W → Outcome V W
  shutdown c =
      let out : Outcome V W = record {
        client = record c { state = disconnected };
        sent = disconnect reason_requested ∷ [];
        events = [];
      } in
      elim c.state [ connected ↦ out | disconnecting ↦ out | _ ↦ quiet c ]

  -- `NetClient::send_with_reliability`
  unfoldable pub send :
      NetClient V W → ℕ → List ℕ → Bool → NetClient V W × Result (Unit {0}) ConnectionError
  send c channel payload reliable =
      let (connection, result) = Operations.send c.connection channel payload reliable in
      elim c.state [
        | connected ↦ (record c { connection = connection }, result)
        | _ ↦ (c, err not_connected)
      ]
