-- ===== src/Server.antt =====
-- The server, gbnet/src/server.rs: its state, and how a client gets in and leaves. A packet that
-- `send_raw` puts on the wire is an output, the address with the type. Times, the random salts and
-- the seconds of the system's clock are arguments. A map by addresses has their numbers as keys.
-- Server/Traffic has the handler of packets, Server/Tick the rest of `update` and the calls of the
-- application, Server/Table and Server/Room are about the bounds, and Server/Admission, Admitting and
-- Entry about who gets in. Server/Update is `bind` and the whole of `update`.
pub mod Traffic
pub mod Tick
pub mod Table
pub mod Room
pub mod Run
pub mod Admission
pub mod Admitting
pub mod Entry
pub mod Update
mod Tests
use gbnet.Prelude.{
  ℕ, ◌+◌, ◌-◌, ◌*◌, ◌/◌, ◌||◌, max, Bool, true, false, Option, none, some, List, [], ◌∷◌, ◌++◌, ltb,
  leb, ◌==◌, if◌then◌else◌, length,
}
use gbnet.Prelude.Int.{pos_part, neg_part}
use gbnet.Prelude.Maps.{Map, lookup, contains_key, insert, remove}
use gbnet.Float.{Float}
use gbnet.Batch.{unbatch_messages}
use gbnet.Config.{secs}
use gbnet.Config.Network.{NetworkConfig}
use gbnet.Fragment.{process_fragment}
use gbnet.Mtu
use gbnet.Packet.{
  Packet, PacketHeader, PacketType, connection_request, connection_challenge, connection_response,
  connection_accept, connection_deny, disconnect, keep_alive, payload_of, batched_payload,
  mtu_probe, mtu_probe_ack, ack_only, connection_cookie, connection_request_with_cookie,
  reason_requested,
}
use gbnet.Sequence.{sequence_diff}
use gbnet.Security.Cookie.{
  SocketAddr, generate_cookie, validate_cookie, cookie_to_u64_pair, cookie_from_u64_pair,
}
use gbnet.Security.RateLimit
use gbnet.Security.RateLimit.{ConnectionRateLimiter, ip_key, allow}
use gbnet.Connection
use gbnet.Connection.{Connection, connected, DisconnectReason, reason_of}
use gbnet.Connection.Operations.{
  new, process_incoming_header, receive_payload_direct, migration_token,
}
use gbnet.Connection.Handshake.{deliver_all}

abbrev pub addr_key : SocketAddr → ℕ
addr_key addr = ip_key addr.ip * 65536 + addr.port

pub data ServerEvent : Type 0 where
  client_connected : ℕ → ServerEvent
  client_disconnected : ℕ → DisconnectReason → ServerEvent
  message : ℕ → ℕ → List ℕ → ServerEvent
  -- the old address and the new one
  client_migrated : ℕ → ℕ → ServerEvent

pub record PendingConnection : Type 0 where
  pub server_salt : ℕ
  pub created_at : ℕ

pub record NetServer {ℓ κ} (V : Type ℓ) (W : Type κ) : Type (ℓ ⊔ κ) where
  pub connections : Map (Connection V W)
  pub pending : Map PendingConnection
  pub disconnecting : Map (Connection V W)
  pub config : NetworkConfig V
  pub rate_limiter : ConnectionRateLimiter
  pub cookie_secret : List ℕ
  pub migration_cooldowns : Map ℕ

-- What a handler reads: the clock, the seconds of the system's clock, and two random numbers.
pub record Inputs : Type 0 where
  pub now : ℕ
  pub unix_secs : ℕ
  pub server_salt : ℕ
  pub client_salt : ℕ

-- The server after a step, what it sends, and what it tells.
pub record Outcome {ℓ κ} (V : Type ℓ) (W : Type κ) : Type (ℓ ⊔ κ) where
  pub server : NetServer V W
  pub sent : List (ℕ × PacketType)
  pub events : List ServerEvent

abbrev pub reason_server_full : ℕ
reason_server_full = 0

abbrev pub reason_invalid_challenge : ℕ
reason_invalid_challenge = 4

abbrev pub default_cookie_window_secs : ℕ
default_cookie_window_secs = 5

abbrev pub migration_cooldown : ℕ
migration_cooldown = secs 5

module _ {ℓ κ} {V : Type ℓ} {W : Type κ} where
  abbrev pub quiet : NetServer V W → Outcome V W
  quiet s = record { server = s; sent = []; events = [] }

  abbrev pub reply : NetServer V W → ℕ → PacketType → Outcome V W
  reply s key packet_type = record { server = s; sent = (key, packet_type) ∷ []; events = [] }

  -- A challenge, where there is room: the end of both handlers of a request.
  unfoldable pub challenge : NetServer V W → Inputs → ℕ → Outcome V W
  challenge s i key = elim (lookup key s.pending) [
    | some p ↦ reply s key (connection_challenge p.server_salt)
    | none ↦
        if leb s.config.max_pending (length s.pending)
        then quiet s
        else if leb s.config.max_clients (length s.connections)
        then reply s key (connection_deny reason_server_full)
        else reply
            (record s {
              pending =
                  insert key (record { server_salt = i.server_salt; created_at = i.now }) s.pending;
            })
            key (connection_challenge i.server_salt)
  ]

  abbrev pub limited : NetServer V W → SocketAddr → ℕ → NetServer V W
  limited s addr now = record s { rate_limiter = (allow s.rate_limiter addr now).0 }

  unfoldable pub handle_request : NetServer V W → Inputs → SocketAddr → Outcome V W
  unfolding challenge
  handle_request s i addr =
      let key = addr_key addr in
      let s' = limited s addr i.now in
      let cookie =
        generate_cookie addr (i.unix_secs / default_cookie_window_secs) s.cookie_secret in
      let (high, low) = cookie_to_u64_pair cookie in
      if (allow s.rate_limiter addr i.now).1
      then if contains_key key s.connections
        then reply s' key connection_accept
        else if s.config.enable_stateless_cookie
        then reply s' key (connection_cookie high low)
        else challenge s' i key
      else quiet s'

  unfoldable pub handle_request_with_cookie :
      NetServer V W → Inputs → SocketAddr → ℕ → ℕ → Outcome V W
  unfolding challenge
  handle_request_with_cookie s i addr high low =
      let key = addr_key addr in
      let s' = limited s addr i.now in
      let valid =
        validate_cookie (cookie_from_u64_pair high low) addr i.unix_secs s.cookie_secret
          default_cookie_window_secs in
      if (allow s.rate_limiter addr i.now).1
      then if contains_key key s.connections
        then reply s' key connection_accept
        else if valid
        then challenge s' i key
        else quiet s'
      else quiet s'

  -- A peer has left.
  unfoldable pub handle_disconnect : NetServer V W → ℕ → ℕ → Outcome V W
  handle_disconnect s key reason =
      if contains_key key s.connections
      then record {
        server = record s { connections = remove key s.connections };
        sent = (key, disconnect reason_requested) ∷ [];
        events = client_disconnected key (reason_of reason) ∷ [];
      }
      else quiet s

module _ {ℓ κ} {V : Type ℓ} {W : Type κ} ⦃v : Float V⦄ ⦃f : Float W⦄ where
  -- The answer to the challenge; any salt but 0 and the server's own is taken.
  unfoldable pub handle_response : NetServer V W → Inputs → ℕ → ℕ → Outcome V W
  handle_response s i key client_salt =
      let c : Connection V W = record (new s.config i.now i.client_salt) {
        state = connected;
        last_packet_recv_time = i.now;
      } in
      if contains_key key s.connections
      then reply s key connection_accept
      else elim (lookup key s.pending) [
        | none ↦ quiet s
        | some p ↦
            let s' = record s { pending = remove key s.pending } in
            if client_salt == 0 || client_salt == p.server_salt
            then reply s' key (connection_deny reason_invalid_challenge)
            else record {
              server = record s' { connections = insert key c s.connections };
              sent = (key, connection_accept) ∷ [];
              events = client_connected key ∷ [];
            }
      ]
