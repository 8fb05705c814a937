-- ===== src/Connection/Operations.antt =====
-- The operations of a connection that do not depend on its state machine,
-- gbnet/src/connection/mod.rs.
use Prim.Native.Nat.{bit_xor}
use gbnet.Prelude.{
  ℕ, ◌+◌, ◌-◌, ◌*◌, Bool, true, false, Option, none, some, List, [], ◌∷◌, ◌++◌, Result, ok, err,
  ltb, if◌then◌else◌, length, map,
}
use gbnet.Prelude.Maps.{Map}
use gbnet.Float.{Float}
use gbnet.Config.{secs}
use gbnet.Config.Network.{NetworkConfig}
use gbnet.Sequence.{next_seq, sequence_greater_than}
use gbnet.Channel
use gbnet.Channel.{Channel}
use gbnet.Channel.Receive
use gbnet.Congestion.{new_controller}
use gbnet.Congestion.Cwnd
use gbnet.Congestion.Cwnd.{CongestionWindow}
use gbnet.Congestion.Bandwidth
use gbnet.Fragment.{new_assembler}
use gbnet.Mtu
use gbnet.Mtu.{min_mtu_bytes}
use gbnet.Packet.{Packet, PacketHeader}
use gbnet.Stats.{default_stats}
use gbnet.Reliability
use gbnet.Reliability.{ReliableEndpoint, get_ack_info, is_in_flight}
use gbnet.Connection.{
  Connection, ConnectionState, disconnected, connected, ConnectionError, not_connected,
  channel_error, invalid_channel, default_channels, configured_channels, sort_by_priority,
  at_channel, find_channel,
}

-- The packets of a fragmented message that are in flight.
abbrev pub Entries : Type 0
Entries = List (ℕ × ℕ × List ℕ)

module _ {ℓ} {W : Type ℓ} ⦃f : Float W⦄ where
  unfoldable pub still_in_flight : ReliableEndpoint W → Entries → Entries
  still_in_flight e [] = []
  still_in_flight e ((seq, index, fragment) ∷ entries) =
      let rest = still_in_flight e entries in
      if is_in_flight e seq then (seq, index, fragment) ∷ rest else rest

  -- `pending_fragments.retain(..)`
  unfoldable pub retain_fragments : ReliableEndpoint W → Map Entries → Map Entries
  unfolding still_in_flight
  retain_fragments e [] = []
  retain_fragments e ((id, entries) ∷ groups) =
      let rest = retain_fragments e groups in
      elim (still_in_flight e entries) [
        | [] ↦ rest
        | entry ∷ entries' ↦ (id, entry ∷ entries') ∷ rest
      ]

unfoldable pub acknowledge_all : List (ℕ × ℕ) → List Channel → List Channel
acknowledge_all [] chs = chs
acknowledge_all ((channel_id, seq) ∷ pairs) chs =
    acknowledge_all pairs (at_channel channel_id (λ ch. Channel.acknowledge_message ch seq) chs)

unfoldable pub mark_all : ℕ → List (ℕ × ℕ) → List Channel → List Channel
mark_all now [] chs = chs
mark_all now ((channel_id, seq) ∷ pairs) chs =
    mark_all now pairs
      (at_channel channel_id (λ ch. Channel.mark_for_fast_retransmit ch now seq) chs)

unfoldable pub new_channels {ℓ} : {V : Type ℓ} → NetworkConfig V → List Channel
unfolding default_channels configured_channels
new_channels config =
    let configured = length config.channel_configs in
    configured_channels 0 config.channel_configs
    ++ default_channels (config.max_channels - configured) configured config.default_channel

module _ {ℓ κ} {V : Type ℓ} {W : Type κ} ⦃v : Float V⦄ ⦃f : Float W⦄ where
  unfoldable pub new : NetworkConfig V → ℕ → ℕ → Connection V W
  unfolding sort_by_priority
  new config now salt = record {
    config = config;
    state = disconnected;
    client_salt = salt;
    server_salt = 0;
    last_packet_send_time = now;
    last_packet_recv_time = now;
    connection_start_time = none;
    connection_request_time = none;
    connection_retry_count = 0;
    local_sequence = 0;
    remote_sequence = 0;
    ack_bits = 0;
    reliability =
        Reliability.with_max_in_flight (Reliability.new config.packet_buffer_size)
          config.max_in_flight;
    channels = new_channels config;
    send_queue = [];
    recv_queue = [];
    congestion =
        new_controller config.send_rate config.congestion_bad_loss_threshold
          config.congestion_good_rtt_threshold config.congestion_recovery_time;
    cwnd = (if config.use_cwnd_congestion then some (Cwnd.new config.mtu) else none);
    bandwidth_up = Bandwidth.new (secs 1);
    bandwidth_down = Bandwidth.new (secs 1);
    fragment_assembler = new_assembler config.fragment_timeout config.max_reassembly_buffer_size;
    mtu_discovery = Mtu.new min_mtu_bytes config.mtu;
    channel_priority_order = map (λ x. x.0) (sort_by_priority 0 (new_channels config));
    stats = default_stats;
    disconnect_retry_count = 0;
    disconnect_time = none;
    pending_ack_send = false;
    data_sent_this_tick = false;
    next_fragment_id = 0;
    pending_fragments = [];
  }

  abbrev pub is_connected : Connection V W → Bool
  is_connected c = elim c.state [ connected ↦ true | _ ↦ false ]

  unfoldable pub send :
      Connection V W → ℕ → List ℕ → Bool → Connection V W × Result (Unit {0}) ConnectionError
  send c channel_id payload reliable = elim c.state [
    | connected ↦ elim (find_channel channel_id c.channels) [
      | none ↦ (c, err (invalid_channel channel_id))
      | some ch ↦ (
        record c {
          channels = at_channel channel_id (λ ch. (Channel.send ch payload reliable).0) c.channels;
        },
        elim (Channel.send ch payload reliable).1 [ ok _ ↦ ok tt | err e ↦ err (channel_error e) ],
      )
    ]
    | _ ↦ (c, err not_connected)
  ]

  unfoldable pub receive : Connection V W → ℕ → Connection V W × Option (List ℕ)
  receive c channel_id = elim (find_channel channel_id c.channels) [
    | none ↦ (c, none)
    | some ch ↦ (
      record c {
        channels = at_channel channel_id (λ ch. (Channel.Receive.receive ch).0) c.channels;
      },
      (Channel.Receive.receive ch).1,
    )
  ]

  unfoldable pub create_header : Connection V W → Connection V W × PacketHeader
  create_header c =
      let (ack, ack_bits) = get_ack_info c.reliability in
      (
        record c { local_sequence = next_seq c.local_sequence },
        record {
          protocol_id = c.config.protocol_id;
          sequence = c.local_sequence;
          ack = ack;
          ack_bits = ack_bits;
        },
      )

  -- `cw.on_ack` for the packets that were acknowledged
  abbrev acknowledge_window :
      NetworkConfig V → List (ℕ × ℕ) → Option (CongestionWindow W) → Option (CongestionWindow W)
  acknowledge_window config acked none = none
  acknowledge_window config acked (some w) =
      let bytes = length acked * config.mtu in some (if ltb 0 bytes then Cwnd.on_ack w bytes else w)

  unfoldable pub set_state : Connection V W → ConnectionState → Connection V W
  set_state c state = record c { state = state }

  unfoldable pub process_incoming_header : Connection V W → ℕ → PacketHeader → Connection V W
  unfolding retain_fragments acknowledge_all mark_all
  process_incoming_header c now header =
      let heard = Reliability.on_packet_received c.reliability header.sequence in
      let (reliability, acked, fast) =
        Reliability.process_acks heard now header.ack header.ack_bits in
      record c {
        reliability = reliability;
        pending_ack_send = true;
        remote_sequence =
            (if sequence_greater_than header.sequence c.remote_sequence
              then header.sequence
              else c.remote_sequence);
        cwnd = acknowledge_window c.config acked c.cwnd;
        channels = mark_all now fast (acknowledge_all acked c.channels);
        pending_fragments = retain_fragments reliability c.pending_fragments;
      }

  -- Deliver a payload to a channel, where there is one with this number.
  unfoldable pub receive_payload_direct : Connection V W → ℕ → ℕ → List ℕ → Connection V W
  receive_payload_direct c now channel payload = record c {
    channels =
        at_channel channel (λ ch. Channel.Receive.on_packet_received ch now payload) c.channels;
  }

  -- The next message of a channel, where there is a channel with this number.
  unfoldable get_channel_outgoing : Connection V W → ℕ → ℕ → Connection V W × Option (ℕ × List ℕ)
  get_channel_outgoing c now channel = elim (find_channel channel c.channels) [
    | none ↦ (c, none)
    | some ch ↦ (
      record c {
        channels = at_channel channel (λ ch. (Channel.get_outgoing_message ch now).0) c.channels;
      },
      (Channel.get_outgoing_message ch now).1,
    )
  ]

  abbrev pub migration_token : Connection V W → ℕ
  migration_token c = bit_xor c.client_salt c.server_salt

  unfoldable pub drain_send_queue : Connection V W → Connection V W × List Packet
  drain_send_queue c = (record c { send_queue = [] }, c.send_queue)

  unfoldable pub record_bytes_sent : Connection V W → ℕ → ℕ → Connection V W
  record_bytes_sent c now bytes = record c {
    bandwidth_up = Bandwidth.recorded c.bandwidth_up now bytes;
    last_packet_send_time = now;
    stats = record c.stats {
      packets_sent = c.stats.packets_sent + 1;
      bytes_sent = c.stats.bytes_sent + bytes;
    };
  }

  unfoldable pub record_bytes_received : Connection V W → ℕ → ℕ → Connection V W
  record_bytes_received c now bytes = record c {
    bandwidth_down = Bandwidth.recorded c.bandwidth_down now bytes;
    stats = record c.stats {
      packets_received = c.stats.packets_received + 1;
      bytes_received = c.stats.bytes_received + bytes;
    };
  }
