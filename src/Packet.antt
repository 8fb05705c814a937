-- ===== src/Packet.antt =====
-- Packets, gbnet/src/packet.rs: the header, the types of packets, and the reason codes.
pub mod Wire
pub mod Reading
pub mod RoundTrip
mod Tests
use gbnet.Prelude.{ℕ, Bool, List, []}

-- An u32, two u16 and an u64.
pub record PacketHeader : Type 0 where
  pub protocol_id : ℕ
  pub sequence : ℕ
  pub ack : ℕ
  pub ack_bits : ℕ

pub data PacketType : Type 0 where
  connection_request : PacketType
  connection_challenge : ℕ → PacketType
  connection_response : ℕ → PacketType
  connection_accept : PacketType
  connection_deny : ℕ → PacketType
  disconnect : ℕ → PacketType
  keep_alive : PacketType
  -- the channel, and whether it is a fragment
  payload_of : ℕ → Bool → PacketType
  batched_payload : ℕ → PacketType
  mtu_probe : ℕ → PacketType
  mtu_probe_ack : ℕ → PacketType
  ack_only : PacketType
  connection_cookie : ℕ → ℕ → PacketType
  connection_request_with_cookie : ℕ → ℕ → PacketType

pub record Packet : Type 0 where
  pub header : PacketHeader
  pub packet_type : PacketType
  pub payload : List ℕ

abbrev pub new : PacketHeader → PacketType → Packet
new header packet_type = record { header = header; packet_type = packet_type; payload = [] }

abbrev pub with_payload : Packet → List ℕ → Packet
with_payload p payload = record p { payload = payload }

abbrev pub reason_timeout : ℕ
reason_timeout = 0

abbrev pub reason_requested : ℕ
reason_requested = 1

abbrev pub reason_kicked : ℕ
reason_kicked = 2

abbrev pub reason_server_full : ℕ
reason_server_full = 3

abbrev pub reason_protocol_mismatch : ℕ
reason_protocol_mismatch = 4
