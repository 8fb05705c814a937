-- ===== src/Server/Traffic.antt =====
-- What a server does with the packets of its connections, gbnet/src/server.rs, and with one that
-- may be of a connection whose address has changed.
use gbnet.Prelude.{
  ℕ, ◌+◌, ◌-◌, Bool, true, Option, none, some, [], ◌∷◌, ltb, leb, if◌then◌else◌, length,
}
use gbnet.Prelude.Int.{pos_part, neg_part}
use gbnet.Prelude.Maps.{Map, lookup, contains_key, insert, remove}
use gbnet.Float.{Float}
use gbnet.Batch.{unbatch_messages}
use gbnet.Fragment.{process_fragment}
use gbnet.Mtu
use gbnet.Packet.{
  Packet, PacketHeader, connection_request, connection_response, disconnect, keep_alive, payload_of,
  batched_payload, mtu_probe, mtu_probe_ack, ack_only, connection_request_with_cookie,
}
use gbnet.Sequence.{sequence_diff}
use gbnet.Security.Cookie.{SocketAddr}
use gbnet.Connection.{Connection, connected}
use gbnet.Connection.Operations.{process_incoming_header, receive_payload_direct, migration_token}
use gbnet.Connection.Handshake.{deliver_all}
use gbnet.Server.{
  client_migrated, NetServer, Inputs, Outcome, quiet, addr_key, migration_cooldown, handle_request,
  handle_request_with_cookie, handle_response, handle_disconnect,
}

-- The cooldown of a connection has passed, or it has none.
unfoldable pub is_cool : Map ℕ → ℕ → ℕ → Bool
is_cool cooldowns token now = elim (lookup token cooldowns) [
  | none ↦ true
  | some last ↦ leb migration_cooldown (now - last)
]

module _ {ℓ κ} {V : Type ℓ} {W : Type κ} ⦃v : Float V⦄ ⦃f : Float W⦄ where
  -- `connections.iter().find_map`: the first connection that the header may belong to
  unfoldable pub find_migrating :
      Map ℕ → ℕ → PacketHeader → Map (Connection V W) → Option (ℕ × Connection V W)
  find_migrating cooldowns now header [] = none
  find_migrating cooldowns now header ((key, c) ∷ rest) =
      let diff = sequence_diff header.sequence c.remote_sequence in
      let later = find_migrating cooldowns now header rest in
      elim c.state [
        | connected ↦
            if ltb c.config.max_sequence_distance (pos_part diff + neg_part diff)
            then later
            else if is_cool cooldowns (migration_token c) now
            then some (key, c)
            else later
        | _ ↦ later
      ]

  unfoldable pub try_migrate : NetServer V W → ℕ → ℕ → PacketHeader → NetServer V W × Option ℕ
  unfolding find_migrating is_cool
  try_migrate s now new_key header =
      if s.config.enable_connection_migration
      then elim (find_migrating s.migration_cooldowns now header s.connections) [
        | none ↦ (s, none)
        | some (old_key, c) ↦ (
          record s {
            connections = insert new_key c (remove old_key s.connections);
            migration_cooldowns = insert (migration_token c) now s.migration_cooldowns;
          },
          some old_key,
        )
      ]
      else (s, none)

  -- `touch_recv_time` and `process_incoming_header`
  unfoldable pub heard : Connection V W → ℕ → PacketHeader → Connection V W
  unfolding process_incoming_header
  heard c now header = process_incoming_header (record c { last_packet_recv_time = now }) now header

  unfoldable pub take_payload : Connection V W → ℕ → ℕ → Bool → Packet → Connection V W
  unfolding heard receive_payload_direct
  take_payload c now channel is_fragment p =
      let c' = heard c now p.header in
      let (assembler, assembled) = process_fragment c'.fragment_assembler now p.payload in
      let held = record c' { fragment_assembler = assembler } in
      if ltb c.config.default_channel.max_message_size (length p.payload)
      then c
      else if is_fragment
      then elim assembled [
        | none ↦ held
        | some payload ↦ receive_payload_direct held now channel payload
      ]
      else receive_payload_direct c' now channel p.payload

  -- `if let Some(conn) = self.connections.get_mut(&addr)`
  unfoldable pub at_connection :
      NetServer V W → ℕ → (Connection V W → Connection V W) → NetServer V W
  at_connection s key change = elim (lookup key s.connections) [
    | none ↦ s
    | some c ↦ record s { connections = insert key (change c) s.connections }
  ]

  unfoldable pub handle_payload : NetServer V W → ℕ → ℕ → ℕ → Bool → Packet → Outcome V W
  unfolding try_migrate take_payload at_connection
  handle_payload s now key channel is_fragment p =
      let take = λ (c : Connection V W). take_payload c now channel is_fragment p in
      let (moved, old) = try_migrate s now key p.header in
      if contains_key key s.connections then quiet (at_connection s key take) else elim old [
        | none ↦ quiet s
        | some old_key ↦ record {
          server = at_connection moved key take;
          sent = [];
          events = client_migrated old_key key ∷ [];
        }
      ]

  unfoldable pub take_batch : Connection V W → ℕ → ℕ → Packet → Connection V W
  unfolding heard deliver_all
  take_batch c now channel p = elim (unbatch_messages p.payload) [
    | none ↦ heard c now p.header
    | some messages ↦ deliver_all (heard c now p.header) now channel messages
  ]

  unfoldable pub handle_server_packet : NetServer V W → Inputs → SocketAddr → Packet → Outcome V W
  unfolding handle_request handle_request_with_cookie handle_response handle_disconnect
      handle_payload take_batch heard at_connection
  handle_server_packet s i addr p =
      let key = addr_key addr in
      let hear = λ (c : Connection V W). heard c i.now p.header in
      elim p.packet_type [
        | connection_request ↦ handle_request s i addr
        | connection_request_with_cookie high low ↦ handle_request_with_cookie s i addr high low
        | connection_response client_salt ↦ handle_response s i key client_salt
        | disconnect reason ↦ handle_disconnect s key reason
        | payload_of channel is_fragment ↦ handle_payload s i.now key channel is_fragment p
        | batched_payload channel ↦ quiet (at_connection s key (λ c. take_batch c i.now channel p))
        | mtu_probe probe_size ↦ record {
          server = at_connection s key hear;
          sent =
              (if contains_key key s.connections then (key, mtu_probe_ack probe_size) ∷ [] else []);
          events = [];
        }
        | mtu_probe_ack probe_size ↦ quiet (
            at_connection s key (λ c. record (hear c) {
              mtu_discovery = Mtu.on_probe_success (hear c).mtu_discovery probe_size;
            }))
        | keep_alive ↦ quiet (at_connection s key hear)
        | ack_only ↦ quiet (at_connection s key hear)
        | _ ↦ quiet s
      ]
