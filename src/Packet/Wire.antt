-- ===== src/Packet/Wire.antt =====
-- The wire format of packets, gbnet/src/packet.rs: the code that `NetworkSerialize` derives for the
-- header and for the type, and `Packet::serialize` and `Packet::deserialize`.
use gbnet.Prelude.{
  ℕ, zero, suc, ◌-◌, ◌/◌, ◌%◌, Bool, true, false, not, Result, ok, err, List, [], ◌∷◌, ◌++◌, ltb,
  ◌==◌, if◌then◌else◌, length, drop,
}
use gbnet.Serialize.{
  BitBuffer, IoError, invalid_data, new, from_bytes, is_multiple_of_8, write_bits, into_bytes,
  read_bits, read_bit,
}
use gbnet.Serialize.Fields.{◌>>=◌, write_fields}
use gbnet.Packet.{
  PacketHeader, PacketType, connection_request, connection_challenge, connection_response,
  connection_accept, connection_deny, disconnect, keep_alive, payload_of, batched_payload,
  mtu_probe, mtu_probe_ack, ack_only, connection_cookie, connection_request_with_cookie, Packet,
}

abbrev pub header_fields : PacketHeader → List (ℕ × ℕ)
header_fields h = (32, h.protocol_id) ∷ (16, h.sequence) ∷ (16, h.ack) ∷ (64, h.ack_bits) ∷ []

abbrev pub variant_index : PacketType → ℕ
variant_index connection_request = 0
variant_index (connection_challenge _) = 1
variant_index (connection_response _) = 2
variant_index connection_accept = 3
variant_index (connection_deny _) = 4
variant_index (disconnect _) = 5
variant_index keep_alive = 6
variant_index (payload_of _ _) = 7
variant_index (batched_payload _) = 8
variant_index (mtu_probe _) = 9
variant_index (mtu_probe_ack _) = 10
variant_index ack_only = 11
variant_index (connection_cookie _ _) = 12
variant_index (connection_request_with_cookie _ _) = 13

-- `as u64` of a `bool`
abbrev pub bit_of : Bool → ℕ
bit_of true = 1
bit_of false = 0

abbrev pub variant_fields : PacketType → List (ℕ × ℕ)
variant_fields connection_request = []
variant_fields (connection_challenge server_salt) = (64, server_salt) ∷ []
variant_fields (connection_response client_salt) = (64, client_salt) ∷ []
variant_fields connection_accept = []
variant_fields (connection_deny reason) = (8, reason) ∷ []
variant_fields (disconnect reason) = (8, reason) ∷ []
variant_fields keep_alive = []
variant_fields (payload_of channel is_fragment) = (3, channel) ∷ (1, bit_of is_fragment) ∷ []
variant_fields (batched_payload channel) = (3, channel) ∷ []
variant_fields (mtu_probe probe_size) = (16, probe_size) ∷ []
variant_fields (mtu_probe_ack probe_size) = (16, probe_size) ∷ []
variant_fields ack_only = []
variant_fields (connection_cookie high low) = (64, high) ∷ (64, low) ∷ []
variant_fields (connection_request_with_cookie high low) = (64, high) ∷ (64, low) ∷ []

unfoldable pub write_type : BitBuffer → PacketType → Result BitBuffer IoError
unfolding write_fields
write_type b t = write_bits b (variant_index t) 4 >>= λ b'. write_fields b' (variant_fields t)

-- a variant with one field, and one with two
unfoldable pub read_one {ℓ} :
    {A : Type ℓ} → BitBuffer → ℕ → (ℕ → A) → Result (A × BitBuffer) IoError
read_one b bits f = read_bits b bits >>= λ (r : ℕ × BitBuffer). ok (f r.0, r.1)

unfoldable pub read_two {ℓ} :
    {A : Type ℓ} → BitBuffer → ℕ → ℕ → (ℕ → ℕ → A) → Result (A × BitBuffer) IoError
unfolding read_one
read_two b bits bits' f = read_bits b bits >>= λ (r : ℕ × BitBuffer). read_one r.1 bits' (f r.0)

unfoldable pub read_variant : BitBuffer → ℕ → Result (PacketType × BitBuffer) IoError
unfolding read_one read_two
read_variant b index =
    if index == 0
    then ok (connection_request, b)
    else if index == 1
    then read_one b 64 connection_challenge
    else if index == 2
    then read_one b 64 connection_response
    else if index == 3
    then ok (connection_accept, b)
    else if index == 4
    then read_one b 8 connection_deny
    else if index == 5
    then read_one b 8 disconnect
    else if index == 6
    then ok (keep_alive, b)
    else if index == 7
    then read_two b 3 1 (λ channel bit. payload_of channel (not (bit == 0)))
    else if index == 8
    then read_one b 3 batched_payload
    else if index == 9
    then read_one b 16 mtu_probe
    else if index == 10
    then read_one b 16 mtu_probe_ack
    else if index == 11
    then ok (ack_only, b)
    else if index == 12
    then read_two b 64 64 connection_cookie
    else if index == 13
    then read_two b 64 64 connection_request_with_cookie
    else err invalid_data

unfoldable pub read_type : BitBuffer → Result (PacketType × BitBuffer) IoError
unfolding read_variant
read_type b = read_bits b 4 >>= λ (r : ℕ × BitBuffer). read_variant r.1 r.0

unfoldable pub read_header : BitBuffer → Result (PacketHeader × BitBuffer) IoError
read_header b = read_bits b 32 >>= λ (p : ℕ × BitBuffer).
    read_bits p.1 16 >>= λ (s : ℕ × BitBuffer). read_bits s.1 16 >>= λ (a : ℕ × BitBuffer).
    read_bits a.1 64 >>= λ (k : ℕ × BitBuffer).
    ok (record { protocol_id = p.0; sequence = s.0; ack = a.0; ack_bits = k.0 }, k.1)

unfoldable pub pad : BitBuffer → Result BitBuffer IoError
pad b =
    let padding = (8 - b.bit_pos % 8) % 8 in if ltb 0 padding then write_bits b 0 padding else ok b

unfoldable pub serialize : Packet → Result (List ℕ) IoError
unfolding write_type pad
serialize p = write_fields new (header_fields p.header) >>= λ (b : BitBuffer).
    write_type b p.packet_type >>= λ (c : BitBuffer).
    pad c >>= λ (d : BitBuffer). ok (into_bytes d true ++ p.payload)

-- `while !BitRead::bit_pos(&buffer).is_multiple_of(8)`: at most seven rounds
unfoldable pub align_rounds : ℕ → BitBuffer → Result BitBuffer IoError
align_rounds zero b = ok b
align_rounds (suc rounds) b = elim (is_multiple_of_8 b.read_pos) [
  | true ↦ ok b
  | false ↦ read_bit b >>= λ (r : Bool × BitBuffer). align_rounds rounds r.1
]

unfoldable pub with_rest : List ℕ → PacketHeader → PacketType → BitBuffer → Packet
with_rest bytes header packet_type b =
    let header_size = b.read_pos / 8 in
    record {
      header = header;
      packet_type = packet_type;
      payload = (if ltb header_size (length bytes) then drop header_size bytes else []);
    }

unfoldable pub deserialize : List ℕ → Result Packet IoError
unfolding read_header read_type align_rounds with_rest
deserialize [] = err invalid_data
deserialize (byte ∷ bytes) =
    read_header (from_bytes (byte ∷ bytes)) >>= λ (h : PacketHeader × BitBuffer).
    read_type h.1 >>= λ (t : PacketType × BitBuffer).
    align_rounds 7 t.1 >>= λ (b : BitBuffer). ok (with_rest (byte ∷ bytes) h.0 t.0 b)
