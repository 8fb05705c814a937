-- ===== src/Connection/Refine.antt =====
-- A connection runs as its state machine does, gbnet/src/connection/handshake.rs and io.rs.
use mathlib.Core.Bool.{false≢true}
use gbnet.Prelude.{
  ℕ, ◌+◌, ◌≡◌, ◌≢◌, refl, sym, ap, ◌∙◌, inl, inr, Bool, true, false, Result, ok, err, Bool-cases,
  ltb, leb,
}
use gbnet.Float.{Float, Narrowing}
use gbnet.Fragment
use gbnet.Connection.{
  Connection, ConnectionState, disconnected, connecting, challenge_response, connected,
  disconnecting, ConnectionError,
}
use gbnet.Connection.Operations.{create_header}
use gbnet.Connection.Handshake.{
  push_packet, send_connection_request, connect, start_disconnect, reset_connection,
}
use gbnet.Connection.Tick.{
  has_passed, is_silent, tick_connecting, tick_disconnecting, tick_stats, with_stats, tick_by_state,
  update_tick,
}
use gbnet.Connection.Machine.{
  connect_at, disconnect_at, tick_at, Step, opens, closes, gives_up, refused, remains, idles,
}
use gbnet.Connection.Still.{tick_connected-state}

-- Every state but disconnected.
abbrev pub is_open : ConnectionState → Bool
is_open disconnected = false
is_open _ = true

pub open-ne : (s : ConnectionState) → is_open s ≡ true → s ≢ disconnected
open-ne s o e = absurd (false≢true (sym (ap is_open e) ∙ o))

-- A tick that gives up on an open connection, or leaves it as it is.
stopped :
    (s t : ConnectionState) (now : ℕ) → is_open s ≡ true → t ≡ disconnected → Step s (tick_at now) t
stopped s t now o e = rw e (gives_up s now (open-ne s o))

kept : (s t : ConnectionState) (now : ℕ) → t ≡ s → Step s (tick_at now) t
kept s t now e = rw e (idles s now)

module _ {ℓ κ} {V : Type ℓ} {W : Type κ} ⦃v : Float V⦄ ⦃f : Float W⦄ ⦃n : Narrowing W V⦄ where
  pub connect-Step :
      (s : ConnectionState) (c : Connection V W) (now : ℕ)
      → c.state ≡ s
      → Step s (connect_at now) (connect c now).0.state
  unfolding connect send_connection_request
  connect-Step disconnected c now e =
      let next : (connect c now).0.state ≡ connecting = simp (e, connect) refl in
      rw next (opens now)
  connect-Step connecting c now e =
      let next : (connect c now).0.state ≡ connecting = simp (e, connect) refl in
      rw next (refused _ now (open-ne _ refl))
  connect-Step challenge_response c now e =
      let next : (connect c now).0.state ≡ challenge_response = simp (e, connect) refl in
      rw next (refused _ now (open-ne _ refl))
  connect-Step connected c now e =
      let next : (connect c now).0.state ≡ connected = simp (e, connect) refl in
      rw next (refused _ now (open-ne _ refl))
  connect-Step disconnecting c now e =
      let next : (connect c now).0.state ≡ disconnecting = simp (e, connect) refl in
      rw next (refused _ now (open-ne _ refl))

  pub start_disconnect-Step :
      (s : ConnectionState) (c : Connection V W) (now reason : ℕ)
      → c.state ≡ s
      → Step s (disconnect_at now reason) (start_disconnect c now reason).state
  unfolding start_disconnect
  start_disconnect-Step disconnected c now reason e =
      let next : (start_disconnect c now reason).state ≡ disconnected =
        simp (e, start_disconnect) refl in
      rw next (remains now reason)
  start_disconnect-Step connecting c now reason e =
      let next : (start_disconnect c now reason).state ≡ disconnecting =
        simp (e, start_disconnect) refl in
      rw next (closes _ now reason (open-ne _ refl))
  start_disconnect-Step challenge_response c now reason e =
      let next : (start_disconnect c now reason).state ≡ disconnecting =
        simp (e, start_disconnect) refl in
      rw next (closes _ now reason (open-ne _ refl))
  start_disconnect-Step connected c now reason e =
      let next : (start_disconnect c now reason).state ≡ disconnecting =
        simp (e, start_disconnect) refl in
      rw next (closes _ now reason (open-ne _ refl))
  start_disconnect-Step disconnecting c now reason e =
      let next : (start_disconnect c now reason).state ≡ disconnecting =
        simp (e, start_disconnect) refl in
      rw next (closes _ now reason (open-ne _ refl))

  tick_connecting-Step :
      (c : Connection V W) (now : ℕ)
      → c.state ≡ connecting
      → Step connecting (tick_at now) (tick_connecting c now).0.state
  unfolding tick_connecting send_connection_request
  tick_connecting-Step c now e =
      let late = has_passed c.connection_request_time now c.config.connection_request_timeout in
      let over = ltb c.config.connection_request_max_retries (c.connection_retry_count + 1) in
      elim (Bool-cases late) [
        | inr b ↦ kept _ _ now (simp (b, tick_connecting) e)
        | inl b ↦ elim (Bool-cases over) [
          | inl g ↦ stopped _ _ now refl (simp (b, g, tick_connecting) refl)
          | inr g ↦ kept _ _ now (simp (b, g, tick_connecting) e)
        ]
      ]

  tick_disconnecting-Step :
      (c : Connection V W) (now : ℕ)
      → c.state ≡ disconnecting
      → Step disconnecting (tick_at now) (tick_disconnecting c now).state
  unfolding tick_disconnecting push_packet create_header reset_connection
  tick_disconnecting-Step c now e =
      let late = has_passed c.disconnect_time now c.config.disconnect_retry_timeout in
      let over = leb c.config.disconnect_retries c.disconnect_retry_count in
      elim (Bool-cases late) [
        | inr b ↦ kept _ _ now (simp (b, tick_disconnecting) e)
        | inl b ↦ elim (Bool-cases over) [
          | inl g ↦ stopped _ _ now refl (simp (b, g, tick_disconnecting) refl)
          | inr g ↦ kept _ _ now (simp (b, g, tick_disconnecting) e)
        ]
      ]

  is_open-is_silent :
      (s : ConnectionState) (c : Connection V W) (now : ℕ)
      → c.state ≡ s
      → is_silent c now ≡ true
      → is_open s ≡ true
  is_open-is_silent disconnected c now e b = absurd (false≢true (simp (e, is_silent) at b))
  is_open-is_silent connecting c now e b = refl
  is_open-is_silent challenge_response c now e b = refl
  is_open-is_silent connected c now e b = refl
  is_open-is_silent disconnecting c now e b = refl

  with_stats-state :
      (x : Connection V W × Result (Unit {0}) ConnectionError) → (with_stats x).0.state ≡ x.0.state
  unfolding tick_stats
  with_stats-state (c, ok _) = refl
  with_stats-state (c, err _) = refl

  tick_by_state-Step :
      (s : ConnectionState) (c : Connection V W) (now : ℕ)
      → c.state ≡ s
      → Step s (tick_at now) (tick_by_state c now).0.state
  unfolding tick_by_state tick_stats
  tick_by_state-Step disconnected c now e = kept _ _ now (simp (e, tick_by_state) refl)
  tick_by_state-Step challenge_response c now e = kept _ _ now (simp (e, tick_by_state) refl)
  tick_by_state-Step connected c now e =
      kept _ _ now (simp (e, tick_by_state) (tick_connected-state c now ∙ e))
  tick_by_state-Step disconnecting c now e =
      let same : (tick_by_state c now).0.state ≡ (tick_disconnecting c now).state =
        simp (e, tick_by_state) refl in
      rw same (tick_disconnecting-Step c now e)
  tick_by_state-Step connecting c now e =
      let same : (tick_by_state c now).0.state ≡ (tick_connecting c now).0.state =
        simp (e, tick_by_state) (with_stats-state (tick_connecting c now)) in
      rw same (tick_connecting-Step c now e)

  pub update_tick-Step :
      (s : ConnectionState) (c : Connection V W) (now : ℕ)
      → c.state ≡ s
      → Step s (tick_at now) (update_tick c now).0.state
  unfolding update_tick reset_connection
  update_tick-Step s c now e =
      let cleaned = record c { fragment_assembler = Fragment.cleanup c.fragment_assembler now } in
      elim (Bool-cases (is_silent c now)) [
        | inr b ↦
            let same : (update_tick c now).0 ≡ (tick_by_state cleaned now).0 = rw b refl in
            rw same (tick_by_state-Step s cleaned now e)
        | inl b ↦
            let over : (update_tick c now).0.state ≡ disconnected = rw b refl in
            stopped s _ now (is_open-is_silent s c now e b) over
      ]
