-- ===== src/Connection/Closing.antt =====
-- A connection that is being closed comes to an end, gbnet/src/connection/io.rs.
use gbnet.Prelude.{
  ℕ, ◌+◌, ◌≤◌, ◌<◌, ◌≡◌, ◌⊎◌, refl, inl, inr, true, false, some, List, [], ◌∷◌, map, length, arith,
  leb, Bool-cases,
}
use gbnet.Float.{Float, Narrowing}
use gbnet.Fragment
use gbnet.Connection.{Connection, disconnected, disconnecting}
use gbnet.Connection.Operations.{create_header}
use gbnet.Connection.Handshake.{push_packet, reset_connection}
use gbnet.Connection.Tick.{
  has_passed, is_silent, tick_disconnecting, tick_stats, tick_by_state, update_tick,
}
use gbnet.Connection.Machine.{tick_at}
use gbnet.Connection.Run.{after, run}

-- Each time lies more than a duration after the one before.
abbrev pub IsSpaced : ℕ → ℕ → List ℕ → Type 0
IsSpaced previous duration [] = Unit
IsSpaced previous duration (t ∷ ts) = (previous + duration < t) × IsSpaced t duration ts

module _ {ℓ κ} {V : Type ℓ} {W : Type κ} ⦃v : Float V⦄ ⦃f : Float W⦄ ⦃n : Narrowing W V⦄ where
  cleaned : Connection V W → ℕ → Connection V W
  cleaned c now = record c { fragment_assembler = Fragment.cleanup c.fragment_assembler now }

  quiet-tick :
      (c : Connection V W) (now : ℕ)
      → is_silent c now ≡ false
      → (update_tick c now).0 ≡ (tick_by_state (cleaned c now) now).0
  unfolding update_tick cleaned
  quiet-tick c now b = rw b refl

  closing_quiet :
      (c : Connection V W) (now : ℕ)
      → (c.state ≡ disconnected) ⊎ (c.state ≡ disconnecting)
      → is_silent c now ≡ false
  closing_quiet c now (inl e) = simp (e, is_silent) refl
  closing_quiet c now (inr e) = simp (e, is_silent) refl

  tick-disconnected :
      (c : Connection V W) (now : ℕ)
      → c.state ≡ disconnected
      → (update_tick c now).0.state ≡ disconnected
  unfolding tick_by_state tick_stats cleaned
  tick-disconnected c now e =
      rw (quiet-tick c now (closing_quiet c now (inl e))) (simp (e, tick_by_state) refl)

  ticks-disconnected :
      (c : Connection V W) (ts : List ℕ)
      → c.state ≡ disconnected
      → (run c (map (λ t. tick_at t) ts)).state ≡ disconnected
  unfolding run after
  ticks-disconnected c [] e = e
  ticks-disconnected c (t ∷ ts) e =
      ticks-disconnected (update_tick c t).0 ts (tick-disconnected c t e)

  -- The last tick of a connection that is being closed.
  tick-last :
      (c : Connection V W) (now : ℕ)
      → c.state ≡ disconnecting
      → has_passed c.disconnect_time now c.config.disconnect_retry_timeout ≡ true
      → leb c.config.disconnect_retries c.disconnect_retry_count ≡ true
      → (update_tick c now).0.state ≡ disconnected
  unfolding tick_by_state tick_stats cleaned tick_disconnecting reset_connection
  tick-last c now e late over =
      rw (quiet-tick c now (closing_quiet c now (inr e)))
        (simp (e, late, over, tick_by_state, tick_disconnecting) refl)

  -- A tick that repeats the disconnect.
  tick-repeat :
      (c : Connection V W) (now : ℕ)
      → c.state ≡ disconnecting
      → has_passed c.disconnect_time now c.config.disconnect_retry_timeout ≡ true
      → leb c.config.disconnect_retries c.disconnect_retry_count ≡ false
      → let c' = (update_tick c now).0 in
        (c'.state ≡ disconnecting)
        × (c'.disconnect_time ≡ some now)
        × (c'.disconnect_retry_count ≡ c.disconnect_retry_count + 1)
        × (c'.config ≡ c.config)
  unfolding tick_by_state tick_stats cleaned tick_disconnecting push_packet create_header
  tick-repeat c now e late over =
      let tick = quiet-tick c now (closing_quiet c now (inr e)) in
      (
        rw tick (simp (e, late, over, tick_by_state, tick_disconnecting) refl),
        rw tick (simp (e, late, over, tick_by_state, tick_disconnecting) refl),
        rw tick (simp (e, late, over, tick_by_state, tick_disconnecting) refl),
        rw tick (simp (e, late, over, tick_by_state, tick_disconnecting) refl),
      )

  -- A connection that is being closed, and hears nothing, is disconnected after ticks that each
  -- come more than the retry timeout after the one before, once there are more of them than
  -- retries are left.
  pub ticks-closing :
      (c : Connection V W) (since : ℕ) (ts : List ℕ)
      → c.state ≡ disconnecting
      → c.disconnect_time ≡ some since
      → IsSpaced since c.config.disconnect_retry_timeout ts
      → c.config.disconnect_retries < c.disconnect_retry_count + length ts
      → c.disconnect_retry_count ≤ c.config.disconnect_retries
      → (run c (map (λ t. tick_at t) ts)).state ≡ disconnected
  unfolding run after
  ticks-closing c since [] e at sp more within = absurd (omega (arith, more, within))
  ticks-closing c since (t ∷ ts) e at sp more within =
      let late : has_passed c.disconnect_time t c.config.disconnect_retry_timeout ≡ true =
        rw at (ground (arith, sp.0)) in
      elim (Bool-cases (leb c.config.disconnect_retries c.disconnect_retry_count)) [
        | inl over ↦ ticks-disconnected (update_tick c t).0 ts (tick-last c t e late over)
        | inr not_over ↦
            let (e', at', count, same) = tick-repeat c t e late not_over in
            let spaced : IsSpaced t c.config.disconnect_retry_timeout ts = sp.1 in
            ticks-closing (update_tick c t).0 t ts e' at' (rw same spaced)
              (rw same (omega (arith, count, more))) (rw same (ground (arith, count, not_over)))
      ]
