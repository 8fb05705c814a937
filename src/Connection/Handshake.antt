-- ===== src/Connection/Handshake.antt =====
-- The state machine of a connection, gbnet/src/connection/handshake.rs.
use gbnet.Prelude.{ℕ, false, none, some, List, [], ◌∷◌, ◌++◌, Result, ok, err, map}
use gbnet.Float.{Float}
use gbnet.Config.{secs}
use gbnet.Batch.{unbatch_messages}
use gbnet.Channel
use gbnet.Channel.Receive
use gbnet.Congestion.{new_controller}
use gbnet.Congestion.Bandwidth
use gbnet.Fragment.{new_assembler}
use gbnet.Mtu
use gbnet.Mtu.{min_mtu_bytes}
use gbnet.Packet
use gbnet.Packet.{
  Packet, PacketHeader, PacketType, connection_request, connection_challenge, connection_response,
  connection_accept, connection_deny, disconnect, payload_of, batched_payload, mtu_probe,
  mtu_probe_ack, reason_requested,
}
use gbnet.Connection.{
  Connection, disconnected, connecting, challenge_response, connected, disconnecting,
  ConnectionError, already_connected, connection_denied,
}
use gbnet.Connection.Operations.{create_header, process_incoming_header, receive_payload_direct}

module _ {ℓ κ} {V : Type ℓ} {W : Type κ} ⦃v : Float V⦄ ⦃f : Float W⦄ where
  -- A packet of a type goes to the end of the queue, under the next header.
  unfoldable pub push_packet : Connection V W → PacketType → List ℕ → Connection V W
  unfolding create_header
  push_packet c packet_type payload =
      let (c', header) = create_header c in
      record c' {
        send_queue =
            c.send_queue ++ (Packet.with_payload (Packet.new header packet_type) payload ∷ []);
      }

  unfoldable pub send_connection_request : Connection V W → Connection V W
  send_connection_request c =
      let header : PacketHeader = record {
        protocol_id = c.config.protocol_id;
        sequence = 0;
        ack = 0;
        ack_bits = 0;
      } in
      record c { send_queue = c.send_queue ++ (Packet.new header connection_request ∷ []) }

  unfoldable pub connect : Connection V W → ℕ → Connection V W × Result (Unit {0}) ConnectionError
  unfolding send_connection_request
  connect c now = elim c.state [
    | disconnected ↦ (
      send_connection_request (record c {
        state = connecting;
        connection_request_time = some now;
        connection_retry_count = 0;
      }),
      ok tt,
    )
    | _ ↦ (c, err already_connected)
  ]

  unfoldable pub start_disconnect : Connection V W → ℕ → ℕ → Connection V W
  unfolding push_packet
  start_disconnect c now reason = elim c.state [
    | disconnected ↦ c
    | _ ↦ record (push_packet c (disconnect reason) []) {
      state = disconnecting;
      disconnect_time = some now;
      disconnect_retry_count = 0;
    }
  ]

  unfoldable pub reset_connection : Connection V W → Connection V W
  reset_connection c = record c {
    connection_start_time = none;
    connection_request_time = none;
    local_sequence = 0;
    remote_sequence = 0;
    ack_bits = 0;
    send_queue = [];
    recv_queue = [];
    disconnect_time = none;
    disconnect_retry_count = 0;
    pending_ack_send = false;
    data_sent_this_tick = false;
    next_fragment_id = 0;
    pending_fragments = [];
    channels = map (λ ch. Channel.Receive.reset ch) c.channels;
    congestion =
        new_controller c.config.send_rate c.config.congestion_bad_loss_threshold
          c.config.congestion_good_rtt_threshold c.config.congestion_recovery_time;
    bandwidth_up = Bandwidth.new (secs 1);
    bandwidth_down = Bandwidth.new (secs 1);
    fragment_assembler =
        new_assembler c.config.fragment_timeout c.config.max_reassembly_buffer_size;
    mtu_discovery = Mtu.new min_mtu_bytes c.config.mtu;
  }

  unfoldable pub deliver_all : Connection V W → ℕ → ℕ → List (List ℕ) → Connection V W
  unfolding receive_payload_direct
  deliver_all c now channel [] = c
  deliver_all c now channel (message ∷ messages) =
      deliver_all (receive_payload_direct c now channel message) now channel messages

  -- What a connected peer does with a packet once its header has been processed.
  unfoldable pub handle_connected : Connection V W → ℕ → Packet → Connection V W
  unfolding push_packet receive_payload_direct deliver_all reset_connection
  handle_connected c now packet = elim packet.packet_type [
    | payload_of channel is_fragment ↦ receive_payload_direct c now channel packet.payload
    | batched_payload channel ↦ elim (unbatch_messages packet.payload) [
      | none ↦ c
      | some messages ↦ deliver_all c now channel messages
    ]
    | mtu_probe probe_size ↦ push_packet c (mtu_probe_ack probe_size) []
    | mtu_probe_ack probe_size ↦ record c {
      mtu_discovery = Mtu.on_probe_success c.mtu_discovery probe_size;
    }
    | disconnect reason ↦
        reset_connection
          (record (push_packet c (disconnect reason_requested) []) { state = disconnected })
    | _ ↦ c
  ]

  unfoldable pub handle_packet :
      Connection V W → ℕ → Packet → Connection V W × Result (Unit {0}) ConnectionError
  unfolding push_packet handle_connected process_incoming_header reset_connection
  handle_packet c now packet = elim c.state [
    | connecting ↦ elim packet.packet_type [
      | connection_challenge server_salt ↦ (
        push_packet (record c { server_salt = server_salt; state = challenge_response })
            (connection_response c.client_salt) [],
        ok tt,
      )
      | connection_deny reason ↦ (record c { state = disconnected }, err (connection_denied reason))
      | _ ↦ (c, ok tt)
    ]
    | challenge_response ↦ elim packet.packet_type [
      | connection_accept ↦ (
        record c {
          state = connected;
          connection_start_time = some now;
          last_packet_recv_time = now;
          local_sequence = 0;
          remote_sequence = 0;
        },
        ok tt,
      )
      | connection_deny reason ↦ (record c { state = disconnected }, err (connection_denied reason))
      | _ ↦ (c, ok tt)
    ]
    | connected ↦ (handle_connected (process_incoming_header c now packet.header) now packet, ok tt)
    | disconnecting ↦ elim packet.packet_type [
      | disconnect reason ↦ (reset_connection (record c { state = disconnected }), ok tt)
      | _ ↦ (c, ok tt)
    ]
    | disconnected ↦ (c, ok tt)
  ]
