-- ===== src/Connection/Run.antt =====
-- Runs of a connection and of its state machine, gbnet/src/connection/handshake.rs and io.rs.
use gbnet.Prelude.{ℕ, ◌≡◌, ◌≢◌, ◌⊎◌, refl, inl, inr, List, [], ◌∷◌}
use gbnet.Float.{Float, Narrowing}
use gbnet.Packet.{connection_challenge, connection_accept}
use gbnet.Connection.{
  Connection, ConnectionState, disconnected, connecting, challenge_response, connected,
  disconnecting,
}
use gbnet.Connection.Operations.{set_state}
use gbnet.Connection.Handshake.{connect, start_disconnect, handle_packet}
use gbnet.Connection.Tick.{update_tick}
use gbnet.Connection.Machine.{
  Event, connect_at, disconnect_at, arrives, Step, opens, challenged, accepted, denied, tick_at,
  sets, ended, closes, gives_up, assigned, refused, remains, idles, ignores, handle_packet-Step,
}
use gbnet.Connection.Refine.{open-ne, connect-Step, start_disconnect-Step, update_tick-Step}

-- A run of the state machine, from a state to a state.
pub data Trace : ConnectionState → List Event → ConnectionState → Type 0 where
  done : (s : ConnectionState) → Trace s [] s
  step :
      (s t u : ConnectionState) (event : Event) (events : List Event)
      → Step s event t
      → Trace t events u
      → Trace s (event ∷ events) u

-- An event of one kind happens, and after it something else.
abbrev pub Then : (Event → Type 0) → (List Event → Type 0) → List Event → Type 0
Then P Q [] = ⊥
Then P Q (event ∷ events) = (P event × Q events) ⊎ Then P Q events

abbrev pub IsConnect : Event → Type 0
IsConnect (connect_at _) = Unit
IsConnect _ = ⊥

abbrev pub IsChallenge : Event → Type 0
IsChallenge (arrives now p) = (salt : ℕ) × (p.packet_type ≡ connection_challenge salt)
IsChallenge _ = ⊥

abbrev pub IsAccept : Event → Type 0
IsAccept (arrives now p) = p.packet_type ≡ connection_accept
IsAccept _ = ⊥

-- The handshake, or what is left of it: a call of connect, then a challenge, then an accept.
abbrev pub AcceptLeft : List Event → Type 0
AcceptLeft = Then IsAccept (λ _. Unit)

abbrev pub ChallengeLeft : List Event → Type 0
ChallengeLeft = Then IsChallenge AcceptLeft

abbrev pub WholeHandshake : List Event → Type 0
WholeHandshake = Then IsConnect ChallengeLeft

-- set_state is called, with a state other than disconnected.
abbrev pub HasSet : List Event → Type 0
HasSet [] = ⊥
HasSet (sets s ∷ events) = (s ≢ disconnected) ⊎ HasSet events
HasSet (_ ∷ events) = HasSet events

abbrev Left : ConnectionState → List Event → Type 0
Left disconnected = WholeHandshake
Left connecting = ChallengeLeft
Left challenge_response = AcceptLeft
Left connected = λ _. Unit
Left disconnecting = WholeHandshake

abbrev Needs : ConnectionState → List Event → Type 0
Needs s events = Left s events ⊎ HasSet events

HasSet-later : (event : Event) (events : List Event) → HasSet events → HasSet (event ∷ events)
HasSet-later (connect_at _) events h = h
HasSet-later (disconnect_at _ _) events h = h
HasSet-later (arrives _ _) events h = h
HasSet-later (tick_at _) events h = h
HasSet-later (sets s) events h = inr h

-- What comes after holds already of the whole, where it is of this form itself.
later :
    (P P' : Event → Type 0) (Q : List Event → Type 0) (events : List Event)
    → Then P (Then P' Q) events
    → Then P' Q events
later P P' Q [] h = h
later P P' Q (event ∷ events) (inl (_, h)) = inr h
later P P' Q (event ∷ events) (inr h) = inr (later P P' Q events h)

from_start : (s : ConnectionState) (events : List Event) → WholeHandshake events → Left s events
from_start disconnected events h = h
from_start connecting events h = later IsConnect IsChallenge AcceptLeft events h
from_start challenge_response events h =
    later IsChallenge IsAccept (λ _. Unit) events (later IsConnect IsChallenge AcceptLeft events h)
from_start connected events h = tt
from_start disconnecting events h = h

one_more :
    (s : ConnectionState) (event : Event) (events : List Event)
    → Left s events
    → Left s (event ∷ events)
one_more disconnected event events h = inr h
one_more connecting event events h = inr h
one_more challenge_response event events h = inr h
one_more connected event events h = tt
one_more disconnecting event events h = inr h

-- Any state but disconnected, once set, is a state that was set.
set-Needs :
    (s t : ConnectionState) (events : List Event) → Left t events → Needs s (sets t ∷ events)
set-Needs s disconnected events h = inl (from_start s (sets disconnected ∷ events) (inr h))
set-Needs s connecting events h = inr (inl (open-ne connecting refl))
set-Needs s challenge_response events h = inr (inl (open-ne challenge_response refl))
set-Needs s connected events h = inr (inl (open-ne connected refl))
set-Needs s disconnecting events h = inr (inl (open-ne disconnecting refl))

Step-Left :
    (s t : ConnectionState) (event : Event) (events : List Event)
    → Step s event t
    → Left t events
    → Needs s (event ∷ events)
Step-Left _ _ _ events (opens now) h = inl (inl (tt, h))
Step-Left _ _ _ events (challenged now salt p e) h = inl (inl ((salt, e), h))
Step-Left _ _ _ events (accepted now p e) h = inl (inl (e, tt))
Step-Left s _ event events (denied _ now reason p _ _) h =
    inl (from_start s (event ∷ events) (inr h))
Step-Left s _ event events (ended _ now reason p _ _) h =
    inl (from_start s (event ∷ events) (inr h))
Step-Left s _ event events (closes _ now reason _) h = inl (from_start s (event ∷ events) (inr h))
Step-Left s _ event events (gives_up _ now _) h = inl (from_start s (event ∷ events) (inr h))
Step-Left s t _ events (assigned _ _) h = set-Needs s t events h
Step-Left s _ event events (refused _ _ _) h = inl (one_more s event events h)
Step-Left _ _ event events (remains _ _) h = inl (one_more disconnected event events h)
Step-Left s _ event events (idles _ _) h = inl (one_more s event events h)
Step-Left s _ event events (ignores _ _ _ _) h = inl (one_more s event events h)

trace-Needs :
    (s : ConnectionState) (events : List Event) → Trace s events connected → Needs s events
trace-Needs _ _ (done _) = inl tt
trace-Needs s _ (step _ t _ event events now rest) = elim (trace-Needs t events rest) [
  | inl h ↦ Step-Left s t event events now h
  | inr h ↦ inr (HasSet-later event events h)
]

module _ {ℓ κ} {V : Type ℓ} {W : Type κ} ⦃v : Float V⦄ ⦃f : Float W⦄ ⦃n : Narrowing W V⦄ where
  unfoldable pub after : Connection V W → Event → Connection V W
  after c (connect_at now) = (connect c now).0
  after c (disconnect_at now reason) = start_disconnect c now reason
  after c (arrives now p) = (handle_packet c now p).0
  after c (tick_at now) = (update_tick c now).0
  after c (sets s) = set_state c s

  unfoldable pub run : Connection V W → List Event → Connection V W
  unfolding after
  run c [] = c
  run c (event ∷ events) = run (after c event) events

  after-Step : (c : Connection V W) (event : Event) → Step c.state event (after c event).state
  unfolding after set_state
  after-Step c (connect_at now) = connect-Step c.state c now refl
  after-Step c (disconnect_at now reason) = start_disconnect-Step c.state c now reason refl
  after-Step c (arrives now p) = handle_packet-Step c.state c now p refl
  after-Step c (tick_at now) = update_tick-Step c.state c now refl
  after-Step c (sets s) = assigned c.state s

  -- Whatever calls of connect, disconnect, update_tick and set_state there are, and whatever packets
  -- are handled, the state of the connection runs as the state machine does.
  pub run-Trace :
      (c : Connection V W) (events : List Event) → Trace c.state events (run c events).state
  unfolding run
  run-Trace c [] = done c.state
  run-Trace c (event ∷ events) =
      step _ _ _ event events (after-Step c event) (run-Trace (after c event) events)

  -- In such a run, a connection that starts out disconnected is connected only after a call of
  -- connect, after that a challenge and after that an accept, or if set_state was called with a
  -- state other than disconnected.
  pub run-WholeHandshake :
      (c : Connection V W) (events : List Event)
      → c.state ≡ disconnected
      → (run c events).state ≡ connected
      → WholeHandshake events ⊎ HasSet events
  run-WholeHandshake c events e h =
      let trace : Trace c.state events (run c events).state = run-Trace c events in
      trace-Needs disconnected events (rw e at (rw h at trace))
