-- ===== src/Connection/Tests.antt =====
-- Runs of a connection, gbnet/src/connection, with fixed-point numbers for floats.
use gbnet.Prelude.{true, ok, ℕ, ◌≡◌, ◌⊎◌, refl, some, List, [], ◌∷◌, map, arith}
use gbnet.Prelude.Int.{ℤ}
use gbnet.Float.Fixed.{fixed_float, fixed_narrowing}
use gbnet.Config.{millis}
use gbnet.Config.Network.{NetworkConfig, default_network_config}
use gbnet.Packet
use gbnet.Packet.{
  Packet, PacketHeader, PacketType, connection_challenge, connection_accept, disconnect, payload_of,
}
use gbnet.Channel
use gbnet.Connection.{find_channel, at_channel, Connection, disconnected, connected, disconnecting}
use gbnet.Connection.Operations.{new, new_channels, send}
use gbnet.Connection.Handshake.{handle_packet, connect}
use gbnet.Connection.Machine.{Event, connect_at, arrives, tick_at, sets}
use gbnet.Connection.Run.{Trace, WholeHandshake, HasSet, run, run-Trace, run-WholeHandshake}
use gbnet.Connection.Sending.{buffered}
use gbnet.Connection.Closing.{ticks-closing}
use gbnet.Packet.Wire.{serialize}
use gbnet.Security.Crc.{append_crc32}
use gbnet.Connection.Io.{accepted, receive_packets}
use gbnet.Connection.Datagrams.{accepted-append_crc32, receive_packets-others}

abbrev config : NetworkConfig ℤ
config = default_network_config

abbrev client : Connection ℤ ℤ
client = new config 0 77

abbrev header : PacketHeader
header = record { protocol_id = 0x12345678; sequence = 0; ack = 0; ack_bits = 0 }

abbrev handshake : List Event
handshake =
    connect_at 1
    ∷ arrives 2 (Packet.new header (connection_challenge 99))
    ∷ arrives 3 (Packet.new header connection_accept)
    ∷ []

-- The state is set after a packet that is ignored.
abbrev admitted : List Event
admitted =
    arrives 1 (Packet.new header connection_accept)
    ∷ sets connected
    ∷ arrives 2 (Packet.new header (disconnect 7))
    ∷ connect_at 3
    ∷ []

run-Trace_example : Trace disconnected admitted (run client admitted).state
unfolding new
run-Trace_example = run-Trace client admitted

run-WholeHandshake_example : WholeHandshake handshake ⊎ HasSet handshake
unfolding new run handle_packet connect
run-WholeHandshake_example = run-WholeHandshake client handshake refl refl

abbrev closing : Connection ℤ ℤ
closing = record client { state = disconnecting; disconnect_time = some 0 }

abbrev times : List ℕ
times = millis 600 ∷ millis 1200 ∷ millis 1800 ∷ millis 2400 ∷ []

ticks-closing_example : (run closing (map (λ t. tick_at t) times)).state ≡ disconnected
unfolding new default_network_config
ticks-closing_example =
    ticks-closing closing 0 times refl refl
      (omega arith, (omega arith, (omega arith, (omega arith, tt)))) (omega arith) (omega arith)

-- A connected peer with one message to send.
abbrev busy : Connection ℤ ℤ
busy = (send (record client { state = connected }) 0 (1 ∷ 2 ∷ []) true).0

busy-buffered : buffered busy.channels 0 ≡ 1
unfolding find_channel send new new_channels default_network_config at_channel Channel.send
    Channel.new Channel.enqueue
busy-buffered = refl

abbrev payload_packet : Packet
payload_packet = record (Packet.new header (payload_of 5 true)) { payload = 1 ∷ 2 ∷ 3 ∷ [] }

accepted-append_crc32_example :
    (bytes : List ℕ) × (serialize payload_packet ≡ ok bytes)
    × (accepted client 4 4 (append_crc32 bytes) ≡ some payload_packet)
unfolding new default_network_config
accepted-append_crc32_example =
    accepted-append_crc32 client 4 payload_packet
      record {
        header_fits = (
          (omega arith, omega arith),
          (
            (omega arith, omega arith),
            ((omega arith, omega arith), ((omega arith, omega arith), tt)),
          ),
        );
        type_fits = ((omega arith, omega arith), ((omega arith, omega arith), tt));
        payload_bytes = (omega arith, (omega arith, (omega arith, tt)));
      }
      refl

abbrev waiting : List (ℕ × List ℕ)
waiting = (7, 1 ∷ 2 ∷ []) ∷ (8, []) ∷ []

receive_packets-others_example :
    receive_packets closing 4 9 waiting
    ≡ record { connection = closing; sent = []; waiting = []; result = ok tt }
receive_packets-others_example = receive_packets-others closing 4 9 waiting (refl, (refl, tt))
