-- ===== src/Server/Tick.antt =====
-- The rest of `NetServer::update` of gbnet/src/server.rs, and the calls of the application. The
-- socket says of each datagram whether it could be sent; the datagrams that wait at it when a
-- connection that is being closed reads them are an argument.
use gbnet.Prelude.{
  ℕ, zero, suc, ◌+◌, ◌-◌, ◌%◌, Bool, Option, none, some, Result, ok, err, List, [], ◌∷◌, ◌++◌, map,
  ltb, ◌==◌, if◌then◌else◌, length,
}
use gbnet.Prelude.Maps.{Map, lookup, insert, remove, retain}
use gbnet.Float.{Float, Narrowing}
use gbnet.Packet.{Packet, reason_requested}
use gbnet.Packet.Wire.{serialize, deserialize}
use gbnet.Security.Crc.{append_crc32, validate_and_strip_crc32}
use gbnet.Security.Cookie.{SocketAddr}
use gbnet.Security.RateLimit
use gbnet.Connection.{
  Connection, ConnectionError, not_connected, disconnected, timed_out, find_channel,
}
use gbnet.Connection.Operations
use gbnet.Connection.Operations.{
  receive, drain_send_queue, record_bytes_sent, record_bytes_received,
}
use gbnet.Connection.Handshake
use gbnet.Connection.Tick.{update_tick}
use gbnet.Connection.Io
use gbnet.Connection.Io.{Io}
use gbnet.Server.{
  ServerEvent, client_disconnected, message, NetServer, addr_key, migration_cooldown,
}
use gbnet.Server.Traffic.{at_connection}

-- A server after a step, the datagrams that it sends, and what it tells.
pub record Ticked {ℓ κ} (V : Type ℓ) (W : Type κ) : Type (ℓ ⊔ κ) where
  pub server : NetServer V W
  pub sent : List (ℕ × List ℕ)
  pub events : List ServerEvent

module _ {ℓ κ} {V : Type ℓ} {W : Type κ} ⦃v : Float V⦄ ⦃f : Float W⦄ where
  abbrev pub send_failed : Connection V W → Connection V W
  send_failed c = record c { stats = record c.stats { send_errors = c.stats.send_errors + 1 } }

  -- The packets that a connection has queued; one that cannot be written is dropped.
  unfoldable pub send_packets :
      (List ℕ → Bool) → Connection V W → ℕ → List Packet → Connection V W × List (List ℕ)
  send_packets takes c now [] = (c, [])
  send_packets takes c now (packet ∷ packets) = elim (serialize packet) [
    | err _ ↦ send_packets takes c now packets
    | ok written ↦
        let wire = append_crc32 written in
        let (done, sent) = send_packets takes (record_bytes_sent c now (length wire)) now packets in
        let failed = send_packets takes (send_failed c) now packets in
        if takes wire then (done, wire ∷ sent) else failed
  ]

  -- `while let Some(data) = conn.receive(ch)`, with as many rounds as messages wait
  unfoldable pub receive_rounds : ℕ → Connection V W → ℕ → ℕ → Connection V W × List ServerEvent
  receive_rounds zero c key ch = (c, [])
  receive_rounds (suc rounds) c key ch =
      let (c', next) = receive c ch in
      elim next [
        | none ↦ (c', [])
        | some payload ↦
            let (c'', events) = receive_rounds rounds c' key ch in
            (c'', message key ch payload ∷ events)
      ]

  abbrev pub waiting_in : Connection V W → ℕ → ℕ
  waiting_in c ch = elim (find_channel ch c.channels) [
    | none ↦ 0
    | some channel ↦ length channel.delivery_queue
  ]

  -- the channels from `ch` on
  unfoldable pub receive_channels : ℕ → Connection V W → ℕ → ℕ → Connection V W × List ServerEvent
  unfolding receive_rounds
  receive_channels zero c key ch = (c, [])
  receive_channels (suc n) c key ch =
      let (c', events) = receive_rounds (waiting_in c ch + 1) c key ch in
      let (c'', later) = receive_channels n c' key (ch + 1) in (c'', events ++ later)

module _ {ℓ κ} {V : Type ℓ} {W : Type κ} ⦃v : Float V⦄ ⦃f : Float W⦄ ⦃n : Narrowing W V⦄ where
  -- The loop over the connections: what they are afterwards, what they send, the messages, and the
  -- keys of those that have timed out. `max_channels as u8` is 0 for 256 channels.
  unfoldable pub tick_connections :
      (ℕ → List ℕ → Bool)
      → ℕ
      → Map (Connection V W)
      → Map (Connection V W) × List (ℕ × List ℕ) × List ServerEvent × List ℕ
  unfolding update_tick send_packets receive_channels
  tick_connections takes now [] = ([], [], [], [])
  tick_connections takes now ((key, c) ∷ rest) =
      let (cs, sent, events, lost) = tick_connections takes now rest in
      let (c1, result) = update_tick c now in
      let (c2, packets) = drain_send_queue c1 in
      let (c3, wires) = send_packets (takes key) c2 now packets in
      let (c4, messages) = receive_channels (length c3.channels % 256) c3 key 0 in
      elim result [
        | err _ ↦ ((key, c1) ∷ cs, sent, events, key ∷ lost)
        | ok _ ↦ ((key, c4) ∷ cs, map (λ wire. (key, wire)) wires ++ sent, messages ++ events, lost)
      ]

  abbrev pub remove_keys : List ℕ → Map (Connection V W) → Map (Connection V W)
  remove_keys [] m = m
  remove_keys (key ∷ keys) m = remove_keys keys (remove key m)

  abbrev is_disconnected : Connection V W → Bool
  is_disconnected c = elim c.state [ disconnected ↦ Bool.true | _ ↦ Bool.false ]

  -- The connections that are being closed: each reads what waits at the socket.
  unfoldable pub tick_disconnecting :
      ℕ → List (ℕ × List ℕ) → Map (Connection V W) → Map (Connection V W) × List (ℕ × List ℕ)
  tick_disconnecting now waiting [] = ([], [])
  tick_disconnecting now waiting ((key, c) ∷ rest) =
      let io = Io.update c key now waiting in
      let (cs, sent) = tick_disconnecting now io.waiting rest in
      let out = map (λ wire. (key, wire)) io.sent ++ sent in
      if is_disconnected io.connection then (cs, out) else ((key, io.connection) ∷ cs, out)

  -- `update` after the packets have been handled
  unfoldable pub tick : (ℕ → List ℕ → Bool) → NetServer V W → ℕ → List (ℕ × List ℕ) → Ticked V W
  unfolding tick_connections tick_disconnecting
  tick takes s now waiting =
      let (cs, sent, events, lost) = tick_connections takes now s.connections in
      let (closing, sent') = tick_disconnecting now waiting s.disconnecting in
      record {
        server = record s {
          connections = remove_keys lost cs;
          disconnecting = closing;
          pending =
              retain (λ _ p. ltb (now - p.created_at) s.config.connection_request_timeout)
                s.pending;
          rate_limiter = RateLimit.cleanup s.rate_limiter now;
          migration_cooldowns =
              retain (λ _ last. ltb (now - last) migration_cooldown) s.migration_cooldowns;
        };
        sent = sent ++ sent';
        events = events ++ map (λ key. client_disconnected key timed_out) lost;
      }

  -- `NetServer::disconnect`
  unfoldable pub disconnect :
      NetServer V W → ℕ → ℕ → ℕ → List (ℕ × List ℕ) → NetServer V W × List (ℕ × List ℕ)
  disconnect s now key reason waiting = elim (lookup key s.connections) [
    | none ↦ (s, [])
    | some c ↦
        let io = Io.update (Handshake.start_disconnect c now reason) key now waiting in
        (
          record s {
            connections = remove key s.connections;
            disconnecting = insert key io.connection s.disconnecting;
          },
          map (λ wire. (key, wire)) io.sent,
        )
  ]

  unfoldable pub shutdown_keys :
      NetServer V W → ℕ → (ℕ → List (ℕ × List ℕ)) → List ℕ → NetServer V W × List (ℕ × List ℕ)
  unfolding disconnect
  shutdown_keys s now waiting [] = (s, [])
  shutdown_keys s now waiting (key ∷ keys) =
      let (s', sent) = disconnect s now key reason_requested (waiting key) in
      let (s'', later) = shutdown_keys s' now waiting keys in (s'', sent ++ later)

  -- `NetServer::shutdown`, with what waits at the socket when each connection reads it
  unfoldable pub shutdown :
      NetServer V W → ℕ → (ℕ → List (ℕ × List ℕ)) → NetServer V W × List (ℕ × List ℕ)
  unfolding shutdown_keys
  shutdown s now waiting = shutdown_keys s now waiting (map (λ entry. entry.0) s.connections)

module _ {ℓ κ} {V : Type ℓ} {W : Type κ} ⦃v : Float V⦄ ⦃f : Float W⦄ where
  -- `NetServer::send_with_reliability`
  unfoldable pub send :
      NetServer V W → ℕ → ℕ → List ℕ → Bool → NetServer V W × Result (Unit {0}) ConnectionError
  send s key channel payload reliable = elim (lookup key s.connections) [
    | none ↦ (s, err not_connected)
    | some c ↦
        let (c', result) = Operations.send c channel payload reliable in
        (record s { connections = insert key c' s.connections }, result)
  ]

  -- `NetServer::broadcast`, over the keys
  unfoldable pub broadcast_to : NetServer V W → ℕ → List ℕ → Option ℕ → List ℕ → NetServer V W
  unfolding send
  broadcast_to s channel payload except [] = s
  broadcast_to s channel payload except (key ∷ keys) =
      let sent = (send s key channel payload Bool.true).0 in
      let skip : Bool = elim except [ none ↦ Bool.false | some other ↦ other == key ] in
      broadcast_to (if skip then s else sent) channel payload except keys

  unfoldable pub broadcast : NetServer V W → ℕ → List ℕ → Option ℕ → NetServer V W
  unfolding broadcast_to
  broadcast s channel payload except =
      broadcast_to s channel payload except (map (λ entry. entry.0) s.connections)

  -- The packets that `recv_from` gives, as far as they are valid, with the lengths that are counted.
  unfoldable pub read_datagrams :
      NetServer V W → ℕ → List (SocketAddr × List ℕ) → NetServer V W × List (SocketAddr × Packet)
  read_datagrams s now [] = (s, [])
  read_datagrams s now ((addr, bytes) ∷ waiting) =
      let skipped = read_datagrams s now waiting in
      elim (validate_and_strip_crc32 bytes) [
        | none ↦ skipped
        | some validated ↦ elim (deserialize validated) [
          | err _ ↦ skipped
          | ok packet ↦
              let counted =
                at_connection s (addr_key addr)
                  (λ c. record_bytes_received c now (length validated)) in
              let (s', packets) = read_datagrams counted now waiting in
              if packet.header.protocol_id == s.config.protocol_id
              then (s', (addr, packet) ∷ packets)
              else skipped
        ]
      ]
