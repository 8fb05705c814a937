-- ===== src/Server/Update.antt =====
-- `NetServer::bind` and the whole of `NetServer::update`, gbnet/src/server.rs, and the life of a
-- server. That the socket can be bound is taken for granted; the random bytes of the secret are
-- an argument of `bind`, and what each packet's handler reads of clock and random numbers is one of
-- `update`.
use gbnet.Prelude.{
  ℕ, ◌+◌, ◌%◌, ◌≡◌, refl, sym, ◌∙◌, Bool, inl, inr, Bool-cases, Option-cases, Result, ok, err, List,
  [], ◌∷◌, ◌++◌, ◌==◌, length, arith,
}
use mathlib.Core.Path.{subst}
use gbnet.Float.{Float, Narrowing}
use gbnet.Config.Network.{NetworkConfig, ConfigError, validate, validate_iff}
use gbnet.Packet.{Packet}
use gbnet.Packet.Wire.{deserialize}
use gbnet.Security.Crc.{validate_and_strip_crc32}
use gbnet.Security.Cookie.{SocketAddr}
use gbnet.Security.RateLimit
use gbnet.Connection.{Connection}
use gbnet.Connection.Still.{Result-cases}
use gbnet.Connection.Operations.{record_bytes_received}
use gbnet.Server.{NetServer, Inputs, ServerEvent, addr_key}
use gbnet.Server.Traffic.{handle_server_packet, at_connection}
use gbnet.Server.Tick.{tick, read_datagrams}
use gbnet.Server.Room.{HasRoom, packet-HasRoom, at_connection-HasRoom}
use gbnet.Server.Run.{Action, step, tick-HasRoom, step-HasRoom}

-- `*byte = random::<u8>().wrapping_add(i as u8)`, from the index `i` on
abbrev salted : ℕ → List ℕ → List ℕ
salted i [] = []
salted i (byte ∷ bytes) = (byte + i) % 256 ∷ salted (i + 1) bytes

-- What one call of `update` meets: the inputs for the n-th packet, what the socket takes, the time,
-- the datagrams at the socket, and those that come for the connections that are closing.
pub record Round : Type 0 where
  pub inputs : ℕ → Inputs
  pub takes : ℕ → List ℕ → Bool
  pub now : ℕ
  pub datagrams : List (SocketAddr × List ℕ)
  pub waiting : List (ℕ × List ℕ)

-- A call of `update`, or one of the application's others.
pub data Call : Type 0 where
  updates : Round → Call
  acts : Action → Call

module _ {ℓ κ} {V : Type ℓ} {W : Type κ} ⦃v : Float V⦄ where
  abbrev start : NetworkConfig V → List ℕ → NetServer V W
  start config random = record {
    connections = [];
    pending = [];
    disconnecting = [];
    config = config;
    rate_limiter = RateLimit.new config.rate_limit_per_second;
    cookie_secret = salted 0 random;
    migration_cooldowns = [];
  }

  unfoldable pub bind : NetworkConfig V → List ℕ → Result (NetServer V W) ConfigError
  bind config random = elim (validate config) [ err e ↦ err e | ok _ ↦ ok (start config random) ]

module _ {ℓ κ} {V : Type ℓ} {W : Type κ} ⦃v : Float V⦄ ⦃f : Float W⦄ where
  -- `for (addr, packet) in incoming`, with the replies that go out
  unfoldable pub handle_all :
      NetServer V W
      → (ℕ → Inputs)
      → ℕ
      → List (SocketAddr × Packet)
      → NetServer V W × List ServerEvent
  unfolding handle_server_packet
  handle_all s inputs i [] = (s, [])
  handle_all s inputs i ((addr, packet) ∷ packets) =
      let out = handle_server_packet s (inputs i) addr packet in
      let (s', later) = handle_all out.server inputs (i + 1) packets in (s', out.events ++ later)

module _ {ℓ κ} {V : Type ℓ} {W : Type κ} ⦃v : Float V⦄ ⦃f : Float W⦄ ⦃n : Narrowing W V⦄ where
  unfoldable pub update : NetServer V W → Round → NetServer V W × List ServerEvent
  unfolding handle_all read_datagrams tick
  update s r =
      let (s1, packets) = read_datagrams s r.now r.datagrams in
      let (s2, events) = handle_all s1 r.inputs 0 packets in
      let ticked = tick r.takes s2 r.now r.waiting in (ticked.server, events ++ ticked.events)

  unfoldable pub calls : NetServer V W → List Call → NetServer V W
  unfolding update step
  calls s [] = s
  calls s (updates r ∷ later) = calls (update s r).0 later
  calls s (acts a ∷ later) = calls (step s a).0 later

module _ {ℓ κ} {V : Type ℓ} {W : Type κ} {limits : NetworkConfig V} ⦃v : Float V⦄
    ⦃f : Float W⦄ where
  read_datagrams-HasRoom :
      (s : NetServer V W) (now : ℕ) (waiting : List (SocketAddr × List ℕ))
      → HasRoom limits s
      → HasRoom limits (read_datagrams s now waiting).0
  unfolding read_datagrams
  read_datagrams-HasRoom s now [] h = h
  read_datagrams-HasRoom s now ((addr, bytes) ∷ waiting) h =
      let skipped = read_datagrams-HasRoom s now waiting h in
      elim (Option-cases (validate_and_strip_crc32 bytes)) [
        | inl e ↦ simp (e, read_datagrams) skipped
        | inr (valid, e) ↦ elim (Result-cases (deserialize valid)) [
          | inr (_, g) ↦ simp (e, g, read_datagrams) skipped
          | inl (packet, g) ↦
              elim (Bool-cases (packet.header.protocol_id == s.config.protocol_id)) [
                | inr k ↦ simp (e, g, k, read_datagrams) skipped
                | inl k ↦
                    let count =
                      λ (c : Connection V W). record_bytes_received c now (length valid) in
                    let counted = at_connection s (addr_key addr) count in
                    simp (e, g, k, read_datagrams)
                      (read_datagrams-HasRoom counted now waiting
                        (at_connection-HasRoom s (addr_key addr) count h))
              ]
        ]
      ]

  handle_all-HasRoom :
      (s : NetServer V W) (inputs : ℕ → Inputs) (i : ℕ) (packets : List (SocketAddr × Packet))
      → HasRoom limits s
      → HasRoom limits (handle_all s inputs i packets).0
  unfolding handle_all
  handle_all-HasRoom s inputs i [] h = h
  handle_all-HasRoom s inputs i ((addr, packet) ∷ packets) h =
      handle_all-HasRoom (handle_server_packet s (inputs i) addr packet).server inputs (i + 1)
        packets (packet-HasRoom s (inputs i) addr packet packet.packet_type refl h)

module _ {ℓ κ} {V : Type ℓ} {W : Type κ} {limits : NetworkConfig V} ⦃v : Float V⦄ ⦃f : Float W⦄
    ⦃n : Narrowing W V⦄ where
  update-HasRoom :
      (s : NetServer V W) (r : Round) → HasRoom limits s → HasRoom limits (update s r).0
  unfolding update
  update-HasRoom s r h =
      let read = read_datagrams s r.now r.datagrams in
      tick-HasRoom r.takes (handle_all read.0 r.inputs 0 read.1).0 r.now r.waiting
        (handle_all-HasRoom read.0 r.inputs 0 read.1 (read_datagrams-HasRoom s r.now r.datagrams h))

  calls-HasRoom :
      (s : NetServer V W) (later : List Call) → HasRoom limits s → HasRoom limits (calls s later)
  unfolding calls
  calls-HasRoom s [] h = h
  calls-HasRoom s (updates r ∷ later) h = calls-HasRoom (update s r).0 later (update-HasRoom s r h)
  calls-HasRoom s (acts a ∷ later) h = calls-HasRoom (step s a).0 later (step-HasRoom s a h)

module _ {ℓ κ} {V : Type ℓ} {W : Type κ} ⦃v : Float V⦄ ⦃f : Float W⦄ ⦃n : Narrowing W V⦄ where
  bound-HasRoom :
      (config : NetworkConfig V) (random : List ℕ) (s : NetServer V W)
      → bind config random ≡ ok s
      → HasRoom config s
  unfolding bind
  bound-HasRoom config random s e = elim (Result-cases (validate config)) [
    | inr (refused, g) ↦ let no : err refused ≡ ok s = rw (g, bind) at e in cc no
    | inl (_, g) ↦
        let usable = (validate_iff config).0 g in
        let made : bind config random ≡ ok (start config random) = simp (g, bind) refl in
        let same : start config random ≡ s = cc (sym made ∙ e) in
        subst (HasRoom config) same
          (record { same = refl; waiting = omega arith; together = omega (arith, usable.clients) })
  ]

  -- A server that could be bound stays within the limits of its configuration, whatever its updates
  -- meet and whatever the application does between them: it waits for at most max_pending clients,
  -- and has, with those, fewer than max_clients and max_pending together.
  pub bind-HasRoom :
      (config : NetworkConfig V) (random : List ℕ) (s : NetServer V W) (later : List Call)
      → bind config random ≡ ok s
      → HasRoom config (calls s later)
  bind-HasRoom config random s later e = calls-HasRoom s later (bound-HasRoom config random s e)
