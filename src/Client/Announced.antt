-- ===== src/Client/Announced.antt =====
-- What the updates of a client tell of its connection, gbnet/src/client.rs.
use gbnet.Prelude.{
  ℕ, zero, suc, ◌+◌, ◌-◌, ◌%◌, ◌≡◌, refl, inl, inr, Bool, Bool-cases, Option-cases, List, [], ◌∷◌,
  ◌++◌, ltb, leb, length, arith,
}
use gbnet.Float.{Float, Narrowing}
use gbnet.Connection.{Connection}
use gbnet.Connection.Still.{Result-cases}
use gbnet.Connection.Operations.{receive, drain_send_queue, record_bytes_received}
use gbnet.Connection.Tick.{update_tick, has_passed}
use gbnet.Server.Tick.{send_packets, waiting_in}
use gbnet.Client.{
  ClientState, connecting, challenge_response, disconnecting, NetClient, handle_packet,
  tick_connecting, tick_disconnecting, tick_timers,
}
use gbnet.Client.Events.{announced, notified, announced-append, handle_packet-IsTold, IsTold}
use gbnet.Client.Update.{
  Updated, Round, is_connected, accepted, receive_all, receive_rounds, receive_channels,
  tick_connected, update, updates,
}

module _ {ℓ κ} {V : Type ℓ} {W : Type κ} ⦃v : Float V⦄ ⦃f : Float W⦄ where
  receive_all-IsTold :
      (c : NetClient V W) (server now : ℕ) (waiting : List (ℕ × List ℕ))
      → IsTold c (receive_all c server now waiting)
  unfolding receive_all
  receive_all-IsTold c server now [] = omega arith
  receive_all-IsTold c server now ((sender, bytes) ∷ waiting) =
      elim (Option-cases (accepted c server sender bytes)) [
        | inl e ↦ simp (e, receive_all) (receive_all-IsTold c server now waiting)
        | inr ((size, p), e) ↦
            let counted = record c { connection = record_bytes_received c.connection now size } in
            let one = handle_packet counted now p in
            let rest = receive_all one.client server now waiting in
            let joined = announced-append one.events rest.events in
            let first = handle_packet-IsTold c.state counted now p refl in
            let later = receive_all-IsTold one.client server now waiting in
            simp (e, receive_all) (omega (arith, first, later, joined))
      ]

  announced-receive_rounds :
      (n : ℕ) (c : Connection V W) (ch : ℕ) → announced (receive_rounds n c ch).1 ≡ 0
  unfolding receive_rounds
  announced-receive_rounds zero c ch = refl
  announced-receive_rounds (suc n) c ch = elim (Option-cases (receive c ch).1) [
    | inl e ↦ simp (e, receive_rounds) refl
    | inr (payload, e) ↦ simp (e, receive_rounds) (announced-receive_rounds n (receive c ch).0 ch)
  ]

  announced-receive_channels :
      (n : ℕ) (c : Connection V W) (ch : ℕ) → announced (receive_channels n c ch).1 ≡ 0
  unfolding receive_channels
  announced-receive_channels zero c ch = refl
  announced-receive_channels (suc n) c ch =
      let first = receive_rounds (waiting_in c ch + 1) c ch in
      let later = receive_channels n first.0 (ch + 1) in
      let joined = announced-append first.1 later.1 in
      let none = announced-receive_rounds (waiting_in c ch + 1) c ch in
      omega (arith, joined, none, announced-receive_channels n first.0 (ch + 1))

  tick_connecting-IsTold : (c : NetClient V W) (now : ℕ) → IsTold c (tick_connecting c now).0
  unfolding tick_connecting
  tick_connecting-IsTold c now =
      elim (Bool-cases (ltb c.connection.config.connection_timeout (now - c.connect_time))) [
        | inl e ↦ simp (e, tick_connecting) (omega arith)
        | inr e ↦ simp (e, tick_connecting) (omega arith)
      ]

  tick_disconnecting-IsTold : (c : NetClient V W) (now : ℕ) → IsTold c (tick_disconnecting c now).0
  unfolding tick_disconnecting
  tick_disconnecting-IsTold c now =
      let config = c.connection.config in
      elim (Bool-cases (has_passed c.disconnect_time now config.disconnect_retry_timeout)) [
        | inr e ↦ simp (e, tick_disconnecting) (omega arith)
        | inl e ↦ elim (Bool-cases (leb config.disconnect_retries c.disconnect_retry_count)) [
          | inl g ↦ simp (e, g, tick_disconnecting) (omega arith)
          | inr g ↦ simp (e, g, tick_disconnecting) (omega arith)
        ]
      ]

  tick_timers-IsTold :
      (c : NetClient V W) (now : ℕ) (s : ClientState) → c.state ≡ s → IsTold c (tick_timers c now).0
  unfolding tick_timers
  tick_timers-IsTold c now connecting e = simp (e, tick_timers) (tick_connecting-IsTold c now)
  tick_timers-IsTold c now challenge_response e =
      simp (e, tick_timers) (tick_connecting-IsTold c now)
  tick_timers-IsTold c now disconnecting e = simp (e, tick_timers) (tick_disconnecting-IsTold c now)
  tick_timers-IsTold c now _ e = simp (e, tick_timers) (omega arith)

module _ {ℓ κ} {V : Type ℓ} {W : Type κ} ⦃v : Float V⦄ ⦃f : Float W⦄ ⦃n : Narrowing W V⦄ where
  -- An update announces exactly what the flag of the client gains.
  abbrev HasTold : NetClient V W → Updated V W → Type 0
  HasTold c u =
      announced u.events + notified c.connected_notified ≡ notified u.client.connected_notified

  tick_connected-HasTold :
      (takes : List ℕ → Bool) (c : NetClient V W) (now : ℕ) → HasTold c (tick_connected takes c now)
  unfolding tick_connected
  tick_connected-HasTold takes c now = elim (Result-cases (update_tick c.connection now).1) [
    | inr (_, e) ↦ simp (e, tick_connected) (omega arith)
    | inl (_, e) ↦
        let drained = drain_send_queue (update_tick c.connection now).0 in
        let c' = (send_packets takes drained.0 now drained.1).0 in
        let quiet = announced-receive_channels (length c'.channels % 256) c' 0 in
        simp (e, tick_connected) (omega (arith, quiet))
  ]

  update-HasTold : (c : NetClient V W) (server : ℕ) (r : Round) → HasTold c (update c server r)
  unfolding update
  update-HasTold c server r =
      let timers = (tick_timers c r.now).0 in
      let heard = receive_all timers.client server r.now r.waiting in
      let ticked = tick_connected r.takes heard.client r.now in
      let timed = tick_timers-IsTold c r.now c.state refl in
      let told = receive_all-IsTold timers.client server r.now r.waiting in
      let last = tick_connected-HasTold r.takes heard.client r.now in
      let joined = announced-append timers.events heard.events in
      let all = announced-append (timers.events ++ heard.events) ticked.events in
      elim (Bool-cases (tick_timers c r.now).1) [
        | inl e ↦ simp (e, update) timed
        | inr e ↦ elim (Bool-cases (is_connected heard.client.state)) [
          | inl g ↦ simp (e, g, update) (omega (arith, timed, told, last, joined, all))
          | inr g ↦ simp (e, g, update) (omega (arith, timed, told, joined))
        ]
      ]

  -- Over any updates, a client says that it is connected when its flag is set, and never again: what
  -- it announces and the flag before make up the flag after.
  pub updates-announced :
      (c : NetClient V W) (server : ℕ) (rounds : List Round)
      → announced (updates c server rounds).1 + notified c.connected_notified
        ≡ notified (updates c server rounds).0.connected_notified
  unfolding updates
  updates-announced c server [] = omega arith
  updates-announced c server (r ∷ rounds) =
      let now = update c server r in
      let later = updates now.client server rounds in
      let joined = announced-append now.events later.1 in
      omega (arith, joined, update-HasTold c server r, updates-announced now.client server rounds)
