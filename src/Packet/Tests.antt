-- ===== src/Packet/Tests.antt =====
-- Runs of the wire format of gbnet/src/packet.rs.
use gbnet.Prelude.{ℕ, ◌≡◌, arith, refl, ok, err, true, List, [], ◌∷◌}
use gbnet.Serialize.{invalid_data, into_bytes, write_bits, read_bits, read_bit}
use gbnet.Serialize.Fields.{write_field}
use gbnet.Packet.{Packet, payload_of, batched_payload}
use gbnet.Packet.Wire.{serialize, deserialize}
use gbnet.Packet.RoundTrip.{deserialize-serialize_packet}

abbrev sent : Packet
sent = record {
  header = record { protocol_id = 0x12345678; sequence = 7; ack = 65535; ack_bits = 1 };
  packet_type = payload_of 5 true;
  payload = 1 ∷ 2 ∷ 3 ∷ [];
}

abbrev wire : List ℕ
wire =
    0x12 ∷ 0x34 ∷ 0x56 ∷ 0x78 ∷ 0 ∷ 7 ∷ 255 ∷ 255 ∷ 0 ∷ 0 ∷ 0 ∷ 0 ∷ 0 ∷ 0 ∷ 0 ∷ 1 ∷ 0x7B ∷ 1 ∷ 2 ∷ 3
    ∷ []

serialize-sent : serialize sent ≡ ok wire
unfolding serialize write_bits into_bytes write_field
serialize-sent = refl

deserialize-wire : deserialize wire ≡ ok sent
unfolding deserialize read_bits read_bit
deserialize-wire = refl

serialize-channel_8 : serialize (record sent { packet_type = batched_payload 8 }) ≡ err invalid_data
unfolding serialize write_bits into_bytes write_field
serialize-channel_8 = refl

deserialize-serialize_packet_example :
    (bytes : List ℕ) × (serialize sent ≡ ok bytes) × (deserialize bytes ≡ ok sent)
deserialize-serialize_packet_example = deserialize-serialize_packet sent record {
  header_fits = (
    (omega arith, omega arith),
    ((omega arith, omega arith), ((omega arith, omega arith), ((omega arith, omega arith), tt))),
  );
  type_fits = ((omega arith, omega arith), ((omega arith, omega arith), tt));
  payload_bytes = (omega arith, (omega arith, (omega arith, tt)));
}
