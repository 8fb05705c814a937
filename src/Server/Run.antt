-- ===== src/Server/Run.antt =====
-- Runs of a server, gbnet/src/server.rs: packets that arrive, ticks, and calls of the application.
use gbnet.Prelude.{
  ℕ, suc, ◌-◌, ◌≤◌, ◌≡◌, refl, ap, Bool, inl, inr, Option-cases, List, [], ◌∷◌, ◌++◌, ltb, length,
  arith,
}
use gbnet.Prelude.Maps.{Map, lookup, remove, length-remove, length-retain}
use gbnet.Float.{Float, Narrowing}
use gbnet.Config.Network.{NetworkConfig}
use gbnet.Packet.{Packet}
use gbnet.Security.Cookie.{SocketAddr}
use gbnet.Connection.{Connection}
use gbnet.Connection.Still.{Result-cases}
use gbnet.Connection.Tick.{update_tick}
use gbnet.Server.{PendingConnection, NetServer, Inputs, ServerEvent}
use gbnet.Server.Traffic.{handle_server_packet}
use gbnet.Server.Tick
use gbnet.Server.Tick.{tick, tick_connections, remove_keys, disconnect}
use gbnet.Server.Room.{HasRoom, shrunk, packet-HasRoom}
use gbnet.Server.Table.{length-insert-here, contains-some}

pub data Action : Type 0 where
  arrives : Inputs → SocketAddr → Packet → Action
  -- what the socket takes, the time, and the datagrams that wait for the connections that are closing
  ticks : (ℕ → List ℕ → Bool) → ℕ → List (ℕ × List ℕ) → Action
  disconnects : ℕ → ℕ → ℕ → List (ℕ × List ℕ) → Action
  sends : ℕ → ℕ → List ℕ → Bool → Action

module _ {ℓ κ} {V : Type ℓ} {W : Type κ} ⦃v : Float V⦄ ⦃f : Float W⦄ ⦃n : Narrowing W V⦄ where
  unfoldable pub step : NetServer V W → Action → NetServer V W × List ServerEvent
  step s (arrives i addr p) = let out = handle_server_packet s i addr p in (out.server, out.events)
  step s (ticks takes now waiting) = let out = tick takes s now waiting in (out.server, out.events)
  step s (disconnects now key reason waiting) = ((disconnect s now key reason waiting).0, [])
  step s (sends key channel payload reliable) = ((Tick.send s key channel payload reliable).0, [])

  -- The server after a run, and all that it tells.
  unfoldable pub run : NetServer V W → List Action → NetServer V W × List ServerEvent
  unfolding step
  run s [] = (s, [])
  run s (a ∷ as_) =
      let (s', events) = step s a in let (s'', later) = run s' as_ in (s'', events ++ later)

module _ {ℓ κ} {V : Type ℓ} {W : Type κ} ⦃v : Float V⦄ ⦃f : Float W⦄ ⦃n : Narrowing W V⦄ where
  length-tick_connections :
      (takes : ℕ → List ℕ → Bool) (now : ℕ) (m : Map (Connection V W))
      → length (tick_connections takes now m).0 ≡ length m
  unfolding tick_connections
  length-tick_connections takes now [] = refl
  length-tick_connections takes now ((key, c) ∷ m) =
      let below = length-tick_connections takes now m in
      elim (Result-cases (update_tick c now).1) [
        | inl (a, e) ↦ simp (e, tick_connections) (ap suc below)
        | inr (a, e) ↦ simp (e, tick_connections) (ap suc below)
      ]

  length-remove-le : (k : ℕ) (m : Map (Connection V W)) → length (remove k m) ≤ length m
  length-remove-le k m = ground (arith, length-remove k m)

  length-remove_keys-le :
      (keys : List ℕ) (m : Map (Connection V W)) → length (remove_keys keys m) ≤ length m
  length-remove_keys-le [] m = omega arith
  length-remove_keys-le (key ∷ keys) m =
      omega (arith, length-remove_keys-le keys (remove key m), length-remove-le key m)

module _ {ℓ κ} {V : Type ℓ} {W : Type κ} {limits : NetworkConfig V} ⦃v : Float V⦄ ⦃f : Float W⦄
    ⦃n : Narrowing W V⦄ where
  pub tick-HasRoom :
      (takes : ℕ → List ℕ → Bool) (s : NetServer V W) (now : ℕ) (waiting : List (ℕ × List ℕ))
      → HasRoom limits s
      → HasRoom limits (tick takes s now waiting).server
  unfolding tick
  tick-HasRoom takes s now waiting h =
      let (cs, sent, events, lost) = tick_connections takes now s.connections in
      let alive = λ (_ : ℕ) (p : PendingConnection).
        ltb (now - p.created_at) s.config.connection_request_timeout in
      let fewer = length-retain alive s.pending in
      let left = length-remove_keys-le lost cs in
      let same = length-tick_connections takes now s.connections in
      shrunk s _ refl fewer (omega (arith, fewer, left, same)) h

  disconnect-HasRoom :
      (s : NetServer V W) (now key reason : ℕ) (waiting : List (ℕ × List ℕ))
      → HasRoom limits s
      → HasRoom limits (disconnect s now key reason waiting).0
  unfolding disconnect
  disconnect-HasRoom s now key reason waiting h = elim (Option-cases (lookup key s.connections)) [
    | inl e ↦ simp (e, disconnect) h
    | inr (c, e) ↦
        simp (e, disconnect)
          (shrunk s _ refl (omega arith) (omega (arith, length-remove-le key s.connections)) h)
  ]

  send-HasRoom :
      (s : NetServer V W) (key channel : ℕ) (payload : List ℕ) (reliable : Bool)
      → HasRoom limits s
      → HasRoom limits (Tick.send s key channel payload reliable).0
  unfolding Tick.send
  send-HasRoom s key channel payload reliable h = elim (Option-cases (lookup key s.connections)) [
    | inl e ↦ simp (e, Tick.send) h
    | inr (c, e) ↦
        let here = contains-some key c s.connections e in
        simp (e, Tick.send)
          (shrunk s _ refl (omega arith)
            (omega (arith, length-insert-here key _ s.connections here)) h)
  ]

  pub step-HasRoom :
      (s : NetServer V W) (a : Action) → HasRoom limits s → HasRoom limits (step s a).0
  unfolding step
  step-HasRoom s (arrives i addr p) h = packet-HasRoom s i addr p p.packet_type refl h
  step-HasRoom s (ticks takes now waiting) h = tick-HasRoom takes s now waiting h
  step-HasRoom s (disconnects now key reason waiting) h =
      disconnect-HasRoom s now key reason waiting h
  step-HasRoom s (sends key channel payload reliable) h =
      send-HasRoom s key channel payload reliable h
