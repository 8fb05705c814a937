-- ===== src/Server/Room.antt =====
-- How many clients a server, gbnet/src/server.rs, has and waits for.
use gbnet.Prelude.{
  ℕ, ◌+◌, ◌≤◌, ◌<◌, ◌≡◌, refl, ap, ◌∙◌, Bool, ◌||◌, inl, inr, Bool-cases, Option-cases, leb, ◌==◌,
  length, arith,
}
use gbnet.Prelude.Maps.{lookup, contains_key, remove}
use gbnet.Float.{Float}
use gbnet.Packet.{
  Packet, PacketHeader, PacketType, connection_request, connection_response, disconnect, keep_alive,
  payload_of, batched_payload, mtu_probe, mtu_probe_ack, ack_only, connection_request_with_cookie,
}
use gbnet.Security.Cookie.{SocketAddr, validate_cookie, cookie_from_u64_pair}
use gbnet.Config.Network.{NetworkConfig}
use gbnet.Connection.{Connection}
use gbnet.Security.RateLimit.{allow}
use gbnet.Server.{
  NetServer, limited, default_cookie_window_secs, Inputs, PendingConnection, addr_key, challenge,
  handle_request, handle_request_with_cookie, handle_response, handle_disconnect,
}
use gbnet.Server.Traffic.{
  find_migrating, try_migrate, at_connection, handle_payload, handle_server_packet, take_payload,
}
use gbnet.Server.Table.{
  length-remove-here, length-insert-here, length-insert-le, contains-some,
  find_migrating-contains_key,
}

module _ {ℓ κ} {V : Type ℓ} {W : Type κ} where
  -- The clients that the server has and waits for are within the limits of a configuration, which
  -- is the server's.
  pub record HasRoom (limits : NetworkConfig V) (s : NetServer V W) : Type ℓ where
    pub same : s.config ≡ limits
    pub waiting : length s.pending ≤ limits.max_pending
    pub together : length s.connections + length s.pending < limits.max_clients + limits.max_pending

  -- The cookie that a request carries is one of the server's.
  abbrev pub is_valid : NetServer V W → Inputs → SocketAddr → ℕ → ℕ → Bool
  is_valid s i addr high low =
      validate_cookie (cookie_from_u64_pair high low) addr i.unix_secs s.cookie_secret
        default_cookie_window_secs

module _ {ℓ κ} {V : Type ℓ} {W : Type κ} {limits : NetworkConfig V} where
  -- What a step must show: the configuration stays, and no more is added than was taken.
  pub shrunk :
      (s s' : NetServer V W)
      → s'.config ≡ s.config
      → length s'.pending ≤ length s.pending
      → length s'.connections + length s'.pending ≤ length s.connections + length s.pending
      → HasRoom limits s
      → HasRoom limits s'
  shrunk s s' e p t h = record {
    same = e ∙ h.same;
    waiting = omega (arith, h.waiting);
    together = omega (arith, h.together);
  }

  challenge-HasRoom :
      (s : NetServer V W) (i : Inputs) (key : ℕ)
      → HasRoom limits s
      → HasRoom limits (challenge s i key).server
  unfolding challenge
  challenge-HasRoom s i key h = elim (Option-cases (lookup key s.pending)) [
    | inr (p, e) ↦ simp (e, challenge) h
    | inl e ↦ elim (Bool-cases (leb s.config.max_pending (length s.pending))) [
      | inl full ↦ simp (e, full, challenge) h
      | inr some_left ↦ elim (Bool-cases (leb s.config.max_clients (length s.connections))) [
        | inl full ↦ simp (e, some_left, full, challenge) h
        | inr room ↦
            let p : PendingConnection = record {
              server_salt = i.server_salt;
              created_at = i.now;
            } in
            simp (e, some_left, room, challenge)
              (record {
                same = h.same;
                waiting =
                    ground
                      (arith, length-insert-le key p s.pending, ap (λ c. c.max_pending) h.same);
                together = ground (
                  arith,
                  length-insert-le key p s.pending,
                  h.waiting,
                  ap (λ c. c.max_pending) h.same,
                  ap (λ c. c.max_clients) h.same,
                );
              })
      ]
    ]
  ]

  limited-HasRoom :
      (s : NetServer V W) (addr : SocketAddr) (now : ℕ)
      → HasRoom limits s
      → HasRoom limits (limited s addr now)
  limited-HasRoom s addr now h = record {
    same = h.same;
    waiting = h.waiting;
    together = h.together;
  }

  handle_request-HasRoom :
      (s : NetServer V W) (i : Inputs) (addr : SocketAddr)
      → HasRoom limits s
      → HasRoom limits (handle_request s i addr).server
  unfolding handle_request
  handle_request-HasRoom s i addr h =
      let h' = limited-HasRoom s addr i.now h in
      elim (Bool-cases (allow s.rate_limiter addr i.now).1) [
        | inr e ↦ simp (e, handle_request) h'
        | inl e ↦ elim (Bool-cases (contains_key (addr_key addr) s.connections)) [
          | inl c ↦ simp (e, c, handle_request) h'
          | inr c ↦ elim (Bool-cases s.config.enable_stateless_cookie) [
            | inl k ↦ simp (e, c, k, handle_request) h'
            | inr k ↦
                simp (e, c, k, handle_request)
                  (challenge-HasRoom (limited s addr i.now) i (addr_key addr) h')
          ]
        ]
      ]

  handle_request_with_cookie-HasRoom :
      (s : NetServer V W) (i : Inputs) (addr : SocketAddr) (high low : ℕ)
      → HasRoom limits s
      → HasRoom limits (handle_request_with_cookie s i addr high low).server
  unfolding handle_request_with_cookie
  handle_request_with_cookie-HasRoom s i addr high low h =
      let h' = limited-HasRoom s addr i.now h in
      let valid = is_valid s i addr high low in
      elim (Bool-cases (allow s.rate_limiter addr i.now).1) [
        | inr e ↦ simp (e, handle_request_with_cookie) h'
        | inl e ↦ elim (Bool-cases (contains_key (addr_key addr) s.connections)) [
          | inl c ↦ simp (e, c, handle_request_with_cookie) h'
          | inr c ↦ elim (Bool-cases valid) [
            | inl k ↦
                simp (e, c, k, handle_request_with_cookie)
                  (challenge-HasRoom (limited s addr i.now) i (addr_key addr) h')
            | inr k ↦ simp (e, c, k, handle_request_with_cookie) h'
          ]
        ]
      ]

  handle_disconnect-HasRoom :
      (s : NetServer V W) (key reason : ℕ)
      → HasRoom limits s
      → HasRoom limits (handle_disconnect s key reason).server
  unfolding handle_disconnect
  handle_disconnect-HasRoom s key reason h = elim (Bool-cases (contains_key key s.connections)) [
    | inr e ↦ simp (e, handle_disconnect) h
    | inl e ↦
        simp (e, handle_disconnect)
          (shrunk s _ refl (omega arith) (omega (arith, length-remove-here key s.connections e)) h)
  ]

module _ {ℓ κ} {V : Type ℓ} {W : Type κ} {limits : NetworkConfig V} ⦃v : Float V⦄
    ⦃f : Float W⦄ where
  handle_response-HasRoom :
      (s : NetServer V W) (i : Inputs) (key client_salt : ℕ)
      → HasRoom limits s
      → HasRoom limits (handle_response s i key client_salt).server
  unfolding handle_response
  handle_response-HasRoom s i key client_salt h =
      elim (Bool-cases (contains_key key s.connections)) [
        | inl e ↦ simp (e, handle_response) h
        | inr e ↦ elim (Option-cases (lookup key s.pending)) [
          | inl g ↦ simp (e, g, handle_response) h
          | inr (p, g) ↦
              let one = length-remove-here key s.pending (contains-some key p s.pending g) in
              elim (Bool-cases (client_salt == 0 || client_salt == p.server_salt)) [
                | inl k ↦
                    simp (e, g, k, handle_response)
                      (shrunk s _ refl (omega (arith, one)) (omega (arith, one)) h)
                | inr k ↦
                    simp (e, g, k, handle_response)
                      (shrunk s _ refl (omega (arith, one))
                        (omega (arith, one, length-insert-le key _ s.connections)) h)
              ]
        ]
      ]

  pub at_connection-HasRoom :
      (s : NetServer V W) (key : ℕ) (change : Connection V W → Connection V W)
      → HasRoom limits s
      → HasRoom limits (at_connection s key change)
  unfolding at_connection
  at_connection-HasRoom s key change h = elim (Option-cases (lookup key s.connections)) [
    | inl e ↦ simp (e, at_connection) h
    | inr (c, e) ↦
        let same =
          length-insert-here key (change c) s.connections (contains-some key c s.connections e) in
        simp (e, at_connection) (shrunk s _ refl (omega arith) (omega (arith, same)) h)
  ]

  try_migrate-HasRoom :
      (s : NetServer V W) (now new_key : ℕ) (header : PacketHeader)
      → HasRoom limits s
      → HasRoom limits (try_migrate s now new_key header).0
  unfolding try_migrate
  try_migrate-HasRoom s now new_key header h =
      elim (Bool-cases s.config.enable_connection_migration) [
        | inr e ↦ simp (e, try_migrate) h
        | inl e ↦
            elim (Option-cases (find_migrating s.migration_cooldowns now header s.connections)) [
              | inl g ↦ simp (e, g, try_migrate) h
              | inr ((old_key, c), g) ↦
                  let there =
                    find_migrating-contains_key s.migration_cooldowns now header s.connections
                      old_key c g in
                  simp (e, g, try_migrate)
                    (shrunk s _ refl (omega arith)
                      (omega (
                        arith,
                        length-remove-here old_key s.connections there,
                        length-insert-le new_key c (remove old_key s.connections),
                      ))
                      h)
            ]
      ]

  handle_payload-HasRoom :
      (s : NetServer V W) (now key channel : ℕ) (is_fragment : Bool) (p : Packet)
      → HasRoom limits s
      → HasRoom limits (handle_payload s now key channel is_fragment p).server
  unfolding handle_payload
  handle_payload-HasRoom s now key channel is_fragment p h =
      let take = λ (c : Connection V W). take_payload c now channel is_fragment p in
      elim (Bool-cases (contains_key key s.connections)) [
        | inl e ↦ simp (e, handle_payload) (at_connection-HasRoom s key take h)
        | inr e ↦ elim (Option-cases (try_migrate s now key p.header).1) [
          | inl g ↦ simp (e, g, handle_payload) h
          | inr (old_key, g) ↦
              simp (e, g, handle_payload)
                (at_connection-HasRoom (try_migrate s now key p.header).0 key take
                  (try_migrate-HasRoom s now key p.header h))
        ]
      ]

  pub packet-HasRoom :
      (s : NetServer V W) (i : Inputs) (addr : SocketAddr) (p : Packet) (t : PacketType)
      → p.packet_type ≡ t
      → HasRoom limits s
      → HasRoom limits (handle_server_packet s i addr p).server
  unfolding handle_server_packet
  packet-HasRoom s i addr p connection_request e h =
      simp (e, handle_server_packet) (handle_request-HasRoom s i addr h)
  packet-HasRoom s i addr p (connection_request_with_cookie high low) e h =
      simp (e, handle_server_packet) (handle_request_with_cookie-HasRoom s i addr high low h)
  packet-HasRoom s i addr p (connection_response salt) e h =
      simp (e, handle_server_packet) (handle_response-HasRoom s i (addr_key addr) salt h)
  packet-HasRoom s i addr p (disconnect reason) e h =
      simp (e, handle_server_packet) (handle_disconnect-HasRoom s (addr_key addr) reason h)
  packet-HasRoom s i addr p (payload_of channel is_fragment) e h =
      simp (e, handle_server_packet)
        (handle_payload-HasRoom s i.now (addr_key addr) channel is_fragment p h)
  packet-HasRoom s i addr p (batched_payload channel) e h =
      simp (e, handle_server_packet) (at_connection-HasRoom s (addr_key addr) _ h)
  packet-HasRoom s i addr p (mtu_probe _) e h =
      simp (e, handle_server_packet) (at_connection-HasRoom s (addr_key addr) _ h)
  packet-HasRoom s i addr p (mtu_probe_ack _) e h =
      simp (e, handle_server_packet) (at_connection-HasRoom s (addr_key addr) _ h)
  packet-HasRoom s i addr p keep_alive e h =
      simp (e, handle_server_packet) (at_connection-HasRoom s (addr_key addr) _ h)
  packet-HasRoom s i addr p ack_only e h =
      simp (e, handle_server_packet) (at_connection-HasRoom s (addr_key addr) _ h)
  packet-HasRoom s i addr p _ e h = simp (e, handle_server_packet) h
