-- ===== src/Client/Tests.antt =====
-- Runs of a client, gbnet/src/client.rs, with fixed-point numbers for floats.
use gbnet.Prelude.{ℕ, ◌+◌, ◌≡◌, refl, true, ok, err, List, [], ◌∷◌}
use gbnet.Prelude.Int.{ℤ}
use gbnet.Float.Fixed.{fixed_float, fixed_narrowing}
use gbnet.Config.Network.{default_network_config}
use gbnet.Packet
use gbnet.Packet.{
  Packet, PacketHeader, connection_challenge, connection_accept, connection_response,
  connection_cookie, connection_request_with_cookie,
}
use gbnet.Connection.Operations.{record_bytes_received, new}
use gbnet.Client.{
  NetClient, has_connected, handle_packet, handle_all, start, handle_accept, handle_connected,
}
use gbnet.Client.Events.{announced, notified}
use gbnet.Client.Update.{Round, updates}
use gbnet.Client.Announced.{updates-announced}
use gbnet.Packet.Wire.{serialize}
use gbnet.Security.Crc.{append_crc32}

abbrev client : NetClient ℤ ℤ
client = (start default_network_config 0 77).client

abbrev header : PacketHeader
header = record { protocol_id = 0x12345678; sequence = 0; ack = 0; ack_bits = 0 }

abbrev arrivals : List (ℕ × Packet)
arrivals =
    (20, Packet.new header (connection_cookie 1 2))
    ∷ (20, Packet.new header (connection_challenge 99))
    ∷ (20, Packet.new header connection_accept)
    ∷ (20, Packet.new header connection_accept)
    ∷ []

-- The datagram of a packet.
abbrev datagram : Packet → List ℕ
datagram p = elim (serialize p) [ ok bytes ↦ append_crc32 bytes | err _ ↦ [] ]

abbrev round : ℕ → Packet → Round
round now p = record {
  takes = λ bytes. true;
  now = now;
  waiting = (4, datagram p) ∷ (9, datagram p) ∷ [];
}

abbrev rounds : List Round
rounds =
    round 1 (Packet.new header (connection_challenge 99))
    ∷ round 2 (Packet.new header connection_accept)
    ∷ []

updates-announced_example :
    announced (updates client 4 rounds).1 + 0
    ≡ notified (updates client 4 rounds).0.connected_notified
unfolding start
updates-announced_example = updates-announced client 4 rounds

handshake-run :
    ((handle_all client 5 arrivals).events ≡ (has_connected ∷ []))
    × ((handle_all client 5 arrivals).sent
        ≡ (connection_request_with_cookie 1 2 ∷ connection_response 77 ∷ []))
unfolding start handle_all handle_packet handle_accept handle_connected record_bytes_received new
handshake-run = (refl, refl)
