-- ===== src/Server/Entry.antt =====
-- Runs of a server, gbnet/src/server.rs, that answers a first request with a cookie.
use mathlib.Core.Path.{subst}
use gbnet.Prelude.{
  ℕ, zero, suc, ◌+◌, ◌%◌, ◌≡◌, refl, ◌∙◌, Bool, true, ◌⊎◌, inl, inr, Option-cases, List, [], ◌∷◌,
  map, length,
}
use gbnet.Prelude.Maps.{Map, lookup}
use gbnet.Float.{Float, Narrowing}
use gbnet.Connection.{Connection}
use gbnet.Connection.Still.{Result-cases}
use gbnet.Connection.Operations.{receive, drain_send_queue}
use gbnet.Connection.Tick.{update_tick}
use gbnet.Server.{client_disconnected, NetServer, addr_key}
use gbnet.Connection.{timed_out}
use gbnet.Server.Tick
use gbnet.Server.Tick.{
  tick, tick_connections, receive_rounds, receive_channels, waiting_in, disconnect, send_packets,
}
use gbnet.Server.Run.{Action, arrives, ticks, disconnects, sends, step, run}
use gbnet.Server.Admitting.{packet-Admits}
use gbnet.Server.Admission.{
  Shows, HasShown, Tells, Tells-append, IsPending, Admits, nothing_told, contains-retain,
}

lost-Tells :
    (key : ℕ) (lost : List ℕ) → Tells key (map (λ k. client_disconnected k timed_out) lost) → ⊥
lost-Tells key [] h = h
lost-Tells key (k ∷ lost) h = lost-Tells key lost h

module _ {ℓ κ} {V : Type ℓ} {W : Type κ} ⦃v : Float V⦄ ⦃f : Float W⦄ where
  rounds-Tells :
      (n : ℕ) (c : Connection V W) (k ch key : ℕ) → Tells key (receive_rounds n c k ch).1 → ⊥
  unfolding receive_rounds
  rounds-Tells zero c k ch key h = h
  rounds-Tells (suc n) c k ch key h = elim (Option-cases (receive c ch).1) [
    | inl e ↦ simp (e, receive_rounds) at h
    | inr (payload, e) ↦ rounds-Tells n (receive c ch).0 k ch key (simp (e, receive_rounds) at h)
  ]

  channels-Tells :
      (n : ℕ) (c : Connection V W) (k ch key : ℕ) → Tells key (receive_channels n c k ch).1 → ⊥
  unfolding receive_channels
  channels-Tells zero c k ch key h = h
  channels-Tells (suc n) c k ch key h =
      let first = receive_rounds (waiting_in c ch + 1) c k ch in
      elim (Tells-append key first.1 (receive_channels n first.0 k (ch + 1)).1 h) [
        | inl g ↦ rounds-Tells (waiting_in c ch + 1) c k ch key g
        | inr g ↦ channels-Tells n first.0 k (ch + 1) key g
      ]

module _ {ℓ κ} {V : Type ℓ} {W : Type κ} ⦃v : Float V⦄ ⦃f : Float W⦄ ⦃n : Narrowing W V⦄ where
  -- the connection before it receives
  abbrev ready : (ℕ → List ℕ → Bool) → ℕ → ℕ → Connection V W → Connection V W
  ready takes now k c =
      let drained = drain_send_queue (update_tick c now).0 in
      (send_packets (takes k) drained.0 now drained.1).0

  connections-Tells :
      (takes : ℕ → List ℕ → Bool) (now : ℕ) (m : Map (Connection V W)) (key : ℕ)
      → Tells key (tick_connections takes now m).2
      → ⊥
  unfolding tick_connections
  connections-Tells takes now [] key h = h
  connections-Tells takes now ((k, c) ∷ m) key h = elim (Result-cases (update_tick c now).1) [
    | inr (a, e) ↦ connections-Tells takes now m key (simp (e, tick_connections) at h)
    | inl (a, e) ↦
        let c' = ready takes now k c in
        let n = length c'.channels % 256 in
        let told = receive_channels n c' k 0 in
        let later = (tick_connections takes now m).2 in
        elim (Tells-append key told.1 later (simp (e, tick_connections) at h)) [
          | inl g ↦ channels-Tells n c' k 0 key g
          | inr g ↦ connections-Tells takes now m key g
        ]
  ]

module _ {ℓ κ} {V : Type ℓ} {W : Type κ} (Shown : ℕ → Type 0) ⦃v : Float V⦄ ⦃f : Float W⦄
    ⦃n : Narrowing W V⦄ where
  tick-Admits :
      (takes : ℕ → List ℕ → Bool) (s : NetServer V W) (now : ℕ) (waiting : List (ℕ × List ℕ))
      → Admits Shown s (tick takes s now waiting).server (tick takes s now waiting).events
  unfolding tick
  tick-Admits takes s now waiting = record {
    secret = refl;
    cookies = refl;
    pending = λ k h. inl (contains-retain k _ s.pending h);
    told = λ k t. elim (Tells-append k (tick_connections takes now s.connections).2 _ t) [
      | inl g ↦ absurd (connections-Tells takes now s.connections k g)
      | inr g ↦ absurd (lost-Tells k (tick_connections takes now s.connections).3 g)
    ];
  }

  disconnect-Admits :
      (s : NetServer V W) (now key reason : ℕ) (waiting : List (ℕ × List ℕ))
      → Admits Shown s (disconnect s now key reason waiting).0 []
  unfolding disconnect
  disconnect-Admits s now key reason waiting = elim (Option-cases (lookup key s.connections)) [
    | inl e ↦ simp (e, disconnect) (nothing_told Shown s s refl refl refl)
    | inr (c, e) ↦ simp (e, disconnect) (nothing_told Shown s _ refl refl refl)
  ]

  send-Admits :
      (s : NetServer V W) (key channel : ℕ) (payload : List ℕ) (reliable : Bool)
      → Admits Shown s (Tick.send s key channel payload reliable).0 []
  unfolding Tick.send
  send-Admits s key channel payload reliable = elim (Option-cases (lookup key s.connections)) [
    | inl e ↦ simp (e, Tick.send) (nothing_told Shown s s refl refl refl)
    | inr (c, e) ↦ simp (e, Tick.send) (nothing_told Shown s _ refl refl refl)
  ]

  step-Admits :
      (s : NetServer V W) (a : Action)
      → s.config.enable_stateless_cookie ≡ true
      → ((key : ℕ) → Shows s.cookie_secret key a → Shown key)
      → Admits Shown s (step s a).0 (step s a).1
  unfolding step
  step-Admits s (arrives i addr p) c shown =
      packet-Admits Shown s i addr p p.packet_type refl c (λ h. shown (addr_key addr) (refl, h))
  step-Admits s (ticks takes now waiting) c shown = tick-Admits takes s now waiting
  step-Admits s (disconnects now key reason waiting) c shown =
      disconnect-Admits s now key reason waiting
  step-Admits s (sends key channel payload reliable) c shown =
      send-Admits s key channel payload reliable

module _ {ℓ κ} {V : Type ℓ} {W : Type κ} ⦃v : Float V⦄ ⦃f : Float W⦄ ⦃n : Narrowing W V⦄ where
  -- Let a server answer first requests with a cookie. Whatever arrives and whatever the application
  -- does, a client that it says has connected is one that it was waiting for from the start, or one
  -- from whose address a packet came with a valid cookie.
  pub run-HasShown :
      (s : NetServer V W) (actions : List Action) (key : ℕ)
      → s.config.enable_stateless_cookie ≡ true
      → Tells key (run s actions).1
      → IsPending key s ⊎ HasShown s.cookie_secret key actions
  unfolding run
  run-HasShown s [] key c t = absurd t
  run-HasShown s (a ∷ actions) key c t =
      let s' = (step s a).0 in
      let ad = step-Admits (λ k. Shows s.cookie_secret k a) s a c (λ k h. h) in
      elim (Tells-append key (step s a).1 (run s' actions).1 t) [
        | inl now ↦ inl (ad.told key now)
        | inr later ↦ elim (run-HasShown s' actions key (ad.cookies ∙ c) later) [
          | inr shown ↦ inr (inr (subst (λ x. HasShown x key actions) ad.secret shown))
          | inl waited ↦ elim (ad.pending key waited) [
            | inl old ↦ inl old
            | inr shown ↦ inr (inl shown)
          ]
        ]
      ]
