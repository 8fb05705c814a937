-- ===== src/Server/Admitting.antt =====
-- What the handler of packets of a server, gbnet/src/server.rs, admits.
use gbnet.Prelude.{
  ℕ, ◌≡◌, refl, ◌∙◌, Bool, true, ◌||◌, inl, inr, Option-cases, Bool-cases, [], leb, ◌==◌, length,
}
use mathlib.Core.Path.{subst}
use gbnet.Prelude.Maps.{lookup, contains_key}
use gbnet.Float.{Float}
use gbnet.Packet.{
  Packet, PacketHeader, PacketType, connection_request, connection_response, disconnect, keep_alive,
  payload_of, batched_payload, mtu_probe, mtu_probe_ack, ack_only, connection_request_with_cookie,
}
use gbnet.Security.Cookie.{SocketAddr}
use gbnet.Security.RateLimit.{allow}
use gbnet.Connection.{Connection}
use gbnet.Server.{
  NetServer, Inputs, Outcome, addr_key, limited, challenge, handle_request,
  handle_request_with_cookie, handle_response, handle_disconnect,
}
use gbnet.Server.Traffic.{
  try_migrate, at_connection, handle_payload, handle_server_packet, take_payload, find_migrating,
}
use gbnet.Server.Room.{is_valid}
use gbnet.Server.Table.{contains-some}
use gbnet.Server.Admission.{shows, Admits, nothing_told, contains-insert, contains-remove}

module _ {ℓ κ} {V : Type ℓ} {W : Type κ} (Shown : ℕ → Type 0) where
  abbrev AdmitsOut : NetServer V W → Outcome V W → Type 0
  AdmitsOut s o = Admits Shown s o.server o.events

  challenge-Admits :
      (s : NetServer V W) (i : Inputs) (key : ℕ) → Shown key → AdmitsOut s (challenge s i key)
  unfolding challenge
  challenge-Admits s i key shown = elim (Option-cases (lookup key s.pending)) [
    | inr (p, e) ↦ simp (e, challenge) (nothing_told Shown s s refl refl refl)
    | inl e ↦ elim (Bool-cases (leb s.config.max_pending (length s.pending))) [
      | inl full ↦ simp (e, full, challenge) (nothing_told Shown s s refl refl refl)
      | inr left ↦ elim (Bool-cases (leb s.config.max_clients (length s.connections))) [
        | inl full ↦ simp (e, left, full, challenge) (nothing_told Shown s s refl refl refl)
        | inr room ↦
            simp (e, left, room, challenge)
              (record {
                secret = refl;
                cookies = refl;
                pending = λ k h. elim (contains-insert k key _ s.pending h) [
                  | inl g ↦ inl g
                  | inr g ↦ inr (subst Shown g shown)
                ];
                told = λ k t. absurd t;
              })
      ]
    ]
  ]

  handle_request-Admits :
      (s : NetServer V W) (i : Inputs) (addr : SocketAddr)
      → s.config.enable_stateless_cookie ≡ true
      → AdmitsOut s (handle_request s i addr)
  unfolding handle_request
  handle_request-Admits s i addr cookies =
      let none_in = nothing_told Shown s (limited s addr i.now) refl refl refl in
      elim (Bool-cases (allow s.rate_limiter addr i.now).1) [
        | inr e ↦ simp (e, handle_request) none_in
        | inl e ↦ elim (Bool-cases (contains_key (addr_key addr) s.connections)) [
          | inl c ↦ simp (e, c, handle_request) none_in
          | inr c ↦ simp (e, c, cookies, handle_request) none_in
        ]
      ]

  handle_request_with_cookie-Admits :
      (s : NetServer V W) (i : Inputs) (addr : SocketAddr) (high low : ℕ)
      → (is_valid s i addr high low ≡ true → Shown (addr_key addr))
      → AdmitsOut s (handle_request_with_cookie s i addr high low)
  unfolding handle_request_with_cookie
  handle_request_with_cookie-Admits s i addr high low shown =
      let none_in = nothing_told Shown s (limited s addr i.now) refl refl refl in
      elim (Bool-cases (allow s.rate_limiter addr i.now).1) [
        | inr e ↦ simp (e, handle_request_with_cookie) none_in
        | inl e ↦ elim (Bool-cases (contains_key (addr_key addr) s.connections)) [
          | inl c ↦ simp (e, c, handle_request_with_cookie) none_in
          | inr c ↦ elim (Bool-cases (is_valid s i addr high low)) [
            | inr k ↦ simp (e, c, k, handle_request_with_cookie) none_in
            | inl k ↦
                let in_ = challenge-Admits (limited s addr i.now) i (addr_key addr) (shown k) in
                simp (e, c, k, handle_request_with_cookie)
                  (record {
                    secret = in_.secret;
                    cookies = in_.cookies;
                    pending = in_.pending;
                    told = in_.told;
                  })
          ]
        ]
      ]

  handle_disconnect-Admits :
      (s : NetServer V W) (key reason : ℕ) → AdmitsOut s (handle_disconnect s key reason)
  unfolding handle_disconnect
  handle_disconnect-Admits s key reason = elim (Bool-cases (contains_key key s.connections)) [
    | inr e ↦ simp (e, handle_disconnect) (nothing_told Shown s s refl refl refl)
    | inl e ↦
        simp (e, handle_disconnect)
          (record { secret = refl; cookies = refl; pending = λ k h. inl h; told = λ k t. absurd t })
  ]

module _ {ℓ κ} {V : Type ℓ} {W : Type κ} (Shown : ℕ → Type 0) ⦃v : Float V⦄ ⦃f : Float W⦄ where
  handle_response-Admits :
      (s : NetServer V W) (i : Inputs) (key client_salt : ℕ)
      → Admits Shown s
          (handle_response s i key client_salt).server
          (handle_response s i key client_salt).events
  unfolding handle_response
  handle_response-Admits s i key client_salt = elim (Bool-cases (contains_key key s.connections)) [
    | inl e ↦ simp (e, handle_response) (nothing_told Shown s s refl refl refl)
    | inr e ↦ elim (Option-cases (lookup key s.pending)) [
      | inl g ↦ simp (e, g, handle_response) (nothing_told Shown s s refl refl refl)
      | inr (p, g) ↦ elim (Bool-cases (client_salt == 0 || client_salt == p.server_salt)) [
        | inl k ↦
            simp (e, g, k, handle_response)
              (record {
                secret = refl;
                cookies = refl;
                pending = λ j h. inl (contains-remove j key s.pending h);
                told = λ j t. absurd t;
              })
        | inr k ↦
            simp (e, g, k, handle_response)
              (record {
                secret = refl;
                cookies = refl;
                pending = λ j h. inl (contains-remove j key s.pending h);
                told = λ j t. elim t [
                  | inl same ↦
                      subst (λ (t : ℕ). contains_key t s.pending ≡ true) same
                        (contains-some key p s.pending g)
                  | inr absent ↦ absurd absent
                ];
              })
      ]
    ]
  ]

  -- The handlers of a connection's packets leave alone what a client gets in by.
  at_connection-Admits :
      (s : NetServer V W) (key : ℕ) (change : Connection V W → Connection V W)
      → Admits Shown s (at_connection s key change) []
  unfolding at_connection
  at_connection-Admits s key change = elim (Option-cases (lookup key s.connections)) [
    | inl e ↦ simp (e, at_connection) (nothing_told Shown s s refl refl refl)
    | inr (c, e) ↦ simp (e, at_connection) (nothing_told Shown s _ refl refl refl)
  ]

  try_migrate-Admits :
      (s : NetServer V W) (now key : ℕ) (header : PacketHeader)
      → Admits Shown s (try_migrate s now key header).0 []
  unfolding try_migrate
  try_migrate-Admits s now key header = elim (Bool-cases s.config.enable_connection_migration) [
    | inr e ↦ simp (e, try_migrate) (nothing_told Shown s s refl refl refl)
    | inl e ↦ elim (Option-cases (find_migrating s.migration_cooldowns now header s.connections)) [
      | inl g ↦ simp (e, g, try_migrate) (nothing_told Shown s s refl refl refl)
      | inr ((old_key, c), g) ↦ simp (e, g, try_migrate) (nothing_told Shown s _ refl refl refl)
    ]
  ]

  handle_payload-Admits :
      (s : NetServer V W) (now key channel : ℕ) (is_fragment : Bool) (p : Packet)
      → Admits Shown s
          (handle_payload s now key channel is_fragment p).server
          (handle_payload s now key channel is_fragment p).events
  unfolding handle_payload
  handle_payload-Admits s now key channel is_fragment p =
      let take = λ (c : Connection V W). take_payload c now channel is_fragment p in
      elim (Bool-cases (contains_key key s.connections)) [
        | inl e ↦ simp (e, handle_payload) (at_connection-Admits s key take)
        | inr e ↦ elim (Option-cases (try_migrate s now key p.header).1) [
          | inl g ↦ simp (e, g, handle_payload) (nothing_told Shown s s refl refl refl)
          | inr (old_key, g) ↦
              let moved = try_migrate-Admits s now key p.header in
              let taken = at_connection-Admits (try_migrate s now key p.header).0 key take in
              simp (e, g, handle_payload)
                (record {
                  secret = taken.secret ∙ moved.secret;
                  cookies = taken.cookies ∙ moved.cookies;
                  pending = λ k h. elim (taken.pending k h) [
                    | inl old ↦ moved.pending k old
                    | inr shown ↦ inr shown
                  ];
                  told = λ k t. absurd t;
                })
        ]
      ]

  pub packet-Admits :
      (s : NetServer V W) (i : Inputs) (addr : SocketAddr) (p : Packet) (t : PacketType)
      → p.packet_type ≡ t
      → s.config.enable_stateless_cookie ≡ true
      → (shows s.cookie_secret i addr t ≡ true → Shown (addr_key addr))
      → Admits Shown s
          (handle_server_packet s i addr p).server
          (handle_server_packet s i addr p).events
  unfolding handle_server_packet
  packet-Admits s i addr p connection_request e c shown =
      simp (e, handle_server_packet) (handle_request-Admits Shown s i addr c)
  packet-Admits s i addr p (connection_request_with_cookie high low) e c shown =
      simp (e, handle_server_packet)
        (handle_request_with_cookie-Admits Shown s i addr high low shown)
  packet-Admits s i addr p (connection_response salt) e c shown =
      simp (e, handle_server_packet) (handle_response-Admits s i (addr_key addr) salt)
  packet-Admits s i addr p (disconnect reason) e c shown =
      simp (e, handle_server_packet) (handle_disconnect-Admits Shown s (addr_key addr) reason)
  packet-Admits s i addr p (payload_of channel is_fragment) e c shown =
      simp (e, handle_server_packet)
        (handle_payload-Admits s i.now (addr_key addr) channel is_fragment p)
  packet-Admits s i addr p (batched_payload channel) e c shown =
      simp (e, handle_server_packet) (at_connection-Admits s (addr_key addr) _)
  packet-Admits s i addr p (mtu_probe _) e c shown =
      simp (e, handle_server_packet) (at_connection-Admits s (addr_key addr) _)
  packet-Admits s i addr p (mtu_probe_ack _) e c shown =
      simp (e, handle_server_packet) (at_connection-Admits s (addr_key addr) _)
  packet-Admits s i addr p keep_alive e c shown =
      simp (e, handle_server_packet) (at_connection-Admits s (addr_key addr) _)
  packet-Admits s i addr p ack_only e c shown =
      simp (e, handle_server_packet) (at_connection-Admits s (addr_key addr) _)
  packet-Admits s i addr p _ e c shown =
      simp (e, handle_server_packet) (nothing_told Shown s s refl refl refl)
