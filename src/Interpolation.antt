-- ===== src/Interpolation.antt =====
-- Snapshot interpolation, gbnet/src/interpolation.rs: the buffer of snapshots and its sampling. The
-- interpolation of two states is a parameter, and so are the floats: `V` is f64, `W` is f32.
-- Interpolation/Order is about what the buffer holds, Interpolation/Sampled about what it gives.
pub mod Order
pub mod Sampled
mod Tests
use gbnet.Prelude.{
  ℕ, ◌*◌, Bool, ◌&&◌, Option, none, some, List, [], ◌∷◌, ◌++◌, ltb, leb, if◌then◌else◌, length,
}
use gbnet.Float.{Float, Narrowing, clamp}

pub record Interpolatable {ℓ κ} (W : Type ℓ) (T : Type κ) : Type (ℓ ⊔ κ) where
  pub lerp : T → T → W → T

pub record TimestampedSnapshot {ℓ κ} (V : Type ℓ) (T : Type κ) : Type (ℓ ⊔ κ) where
  pub timestamp : V
  pub state : T

pub record SnapshotBuffer {ℓ κ} (V : Type ℓ) (T : Type κ) : Type (ℓ ⊔ κ) where
  pub snapshots : List (TimestampedSnapshot V T)
  pub buffer_depth : ℕ
  pub playback_delay_ms : V

-- `back` of a VecDeque
abbrev pub back {ℓ} : {A : Type ℓ} → List A → Option A
back [] = none
back (x ∷ []) = some x
back (x ∷ y ∷ l) = back (y ∷ l)

-- `while self.snapshots.len() > max_entries`
unfoldable pub keep_newest {ℓ} : {A : Type ℓ} → ℕ → List A → List A
keep_newest max_entries [] = []
keep_newest max_entries (s ∷ rest) =
    let shorter = keep_newest max_entries rest in
    if ltb max_entries (length (s ∷ rest)) then shorter else s ∷ rest

module _ {ℓ κ} {V : Type ℓ} {T : Type κ} where
  unfoldable pub with_config : ℕ → V → SnapshotBuffer V T
  with_config buffer_depth playback_delay_ms = record {
    snapshots = [];
    buffer_depth = buffer_depth;
    playback_delay_ms = playback_delay_ms;
  }

  unfoldable pub reset : SnapshotBuffer V T → SnapshotBuffer V T
  reset b = record b { snapshots = [] }

  unfoldable pub set_playback_delay_ms : SnapshotBuffer V T → V → SnapshotBuffer V T
  set_playback_delay_ms b delay = record b { playback_delay_ms = delay }

  unfoldable pub ready : SnapshotBuffer V T → Bool
  ready b = leb b.buffer_depth (length b.snapshots)

module _ {ℓ κ} {V : Type ℓ} {T : Type κ} ⦃v : Float V⦄ where
  unfoldable pub new : SnapshotBuffer V T
  unfolding with_config
  new = with_config 3 (v.ratio 100 1)

  unfoldable pub append : SnapshotBuffer V T → TimestampedSnapshot V T → SnapshotBuffer V T
  append b s = record b { snapshots = keep_newest (b.buffer_depth * 2) (b.snapshots ++ s ∷ []) }

  unfoldable pub push : SnapshotBuffer V T → TimestampedSnapshot V T → SnapshotBuffer V T
  push b s = elim (back b.snapshots) [
    | none ↦ append b s
    | some last ↦ if v.le s.timestamp last.timestamp then b else append b s
  ]

module _ {ℓ κ} {V : Type ℓ} {T : Type κ} ⦃v : Float V⦄ where
  -- `target_time >= a.timestamp && target_time <= b.timestamp`
  abbrev pub brackets : V → TimestampedSnapshot V T → TimestampedSnapshot V T → Bool
  brackets target a b = v.le a.timestamp target && v.le target b.timestamp

  -- beyond all snapshots the latest, and before all of them the oldest
  unfoldable pub outside : V → List (TimestampedSnapshot V T) → Option T
  outside target [] = none
  outside target (front ∷ rest) = elim (back (front ∷ rest)) [
    | none ↦ none
    | some last ↦ if v.lt last.timestamp target then some last.state else some front.state
  ]

module _ {ℓ κ μ} {V : Type ℓ} {T : Type μ} (W : Type κ) ⦃v : Float V⦄ ⦃f : Float W⦄
    ⦃n : Narrowing V W⦄ ⦃i : Interpolatable W T⦄ where
  unfoldable pub between : V → TimestampedSnapshot V T → TimestampedSnapshot V T → T
  between target a b =
      let duration = v.sub b.timestamp a.timestamp in
      let t = n.narrow (v.div (v.sub target a.timestamp) duration) in
      if v.le duration (v.ratio 0 1)
      then a.state
      else i.lerp a.state b.state (clamp t (f.ratio 0 1) (f.ratio 1 1))

  -- the loop over neighbours
  unfoldable pub bracketed : V → List (TimestampedSnapshot V T) → Option T
  bracketed target [] = none
  bracketed target (a ∷ []) = none
  bracketed target (a ∷ b ∷ rest) =
      let later = bracketed target (b ∷ rest) in
      if brackets target a b then some (between target a b) else later

  unfoldable pub sample : SnapshotBuffer V T → V → Option T
  sample b render_time =
      let target = v.sub render_time b.playback_delay_ms in
      if ltb (length b.snapshots) 2 then none else elim (bracketed target b.snapshots) [
        | some state ↦ some state
        | none ↦ outside target b.snapshots
      ]
