-- ===== src/Delta.antt =====
-- Delta compression, gbnet/src/delta.rs: the sender's snapshots and the receiver's baselines. What a
-- type brings for it is a parameter: its deltas, and how it and they are written to a bit buffer and
-- read from one. A message is the bytes of a buffer that starts with the baseline number.
-- Delta/RoundTrip is about the decoding of what was encoded.
pub mod RoundTrip
mod Tests
use gbnet.Prelude.{
  ℕ, ◌-◌, ◌%◌, true, replicate, Option, Result, ok, err, none, some, List, [], ◌∷◌, ◌++◌, ltb, leb,
  ◌==◌, if◌then◌else◌, length, tail,
}
use gbnet.Prelude.Int.{pos, ltb_ℤ}
use gbnet.Sequence.{sequence_diff}
use gbnet.Serialize.{
  BitBuffer, IoError, invalid_data, new, from_bytes, into_bytes, write_bits, read_bits,
}
use gbnet.Serialize.Fields.{◌>>=◌}

-- `NetworkDelta`, with the delta's type as `D`
pub record NetworkDelta {ℓ κ} (T : Type ℓ) (D : Type κ) : Type (ℓ ⊔ κ) where
  pub diff : T → T → D
  pub apply : T → D → T

-- `BitSerialize` and `BitDeserialize`
pub record BitCodec {ℓ} (A : Type ℓ) : Type ℓ where
  pub bit_serialize : A → BitBuffer → Result BitBuffer IoError
  pub bit_deserialize : BitBuffer → Result (A × BitBuffer) IoError

abbrev pub baseline_seq_bits : ℕ
baseline_seq_bits = 16

abbrev pub no_baseline : ℕ
no_baseline = 65535

pub record DeltaTracker {ℓ} (T : Type ℓ) : Type ℓ where
  pub pending : List (ℕ × T)
  pub confirmed_baseline : Option (ℕ × T)
  pub max_pending : ℕ

pub record BaselineManager {ℓ} (T : Type ℓ) : Type ℓ where
  pub snapshots : List (ℕ × T × ℕ)
  pub max_snapshots : ℕ
  pub timeout : ℕ

module _ {ℓ} {T : Type ℓ} where
  unfoldable pub new_tracker : ℕ → DeltaTracker T
  new_tracker max_pending = record {
    pending = [];
    confirmed_baseline = none;
    max_pending = max_pending;
  }

  unfoldable pub store_pending : DeltaTracker T → ℕ → T → DeltaTracker T
  store_pending t seq current = record t {
    pending =
        (if leb t.max_pending (length t.pending) then tail t.pending else t.pending)
        ++ (seq, current) ∷ [];
  }

  -- `position` and `remove`: the first snapshot with the number, and the others
  unfoldable pub take_out : ℕ → List (ℕ × T) → Option (T × List (ℕ × T))
  take_out seq [] = none
  take_out seq ((s, snapshot) ∷ rest) =
      let later = take_out seq rest in
      if s == seq
      then some (snapshot, rest)
      else elim later [ none ↦ none | some (found, others) ↦ some (found, (s, snapshot) ∷ others) ]

  unfoldable pub drop_older : ℕ → List (ℕ × T) → List (ℕ × T)
  drop_older ack_seq [] = []
  drop_older ack_seq ((s, snapshot) ∷ rest) =
      let younger = drop_older ack_seq rest in
      if ltb_ℤ (sequence_diff s ack_seq) (pos 0) then younger else (s, snapshot) ∷ rest

  unfoldable pub on_ack : DeltaTracker T → ℕ → DeltaTracker T
  on_ack t seq = elim (take_out seq t.pending) [
    | none ↦ t
    | some (snapshot, others) ↦ record t {
      pending = drop_older seq others;
      confirmed_baseline = some (seq, snapshot);
    }
  ]

  unfoldable pub reset_tracker : DeltaTracker T → DeltaTracker T
  reset_tracker t = record t { pending = []; confirmed_baseline = none }

  unfoldable pub new_manager : ℕ → ℕ → BaselineManager T
  new_manager max_snapshots timeout = record {
    snapshots = [];
    max_snapshots = max_snapshots;
    timeout = timeout;
  }

  unfoldable pub evict_expired : ℕ → ℕ → List (ℕ × T × ℕ) → List (ℕ × T × ℕ)
  evict_expired now timeout [] = []
  evict_expired now timeout ((s, state, ts) ∷ rest) =
      let younger = evict_expired now timeout rest in
      if ltb timeout (now - ts) then younger else (s, state, ts) ∷ rest

  unfoldable pub push_snapshot : BaselineManager T → ℕ → ℕ → T → BaselineManager T
  push_snapshot m now seq state =
      let alive = evict_expired now m.timeout m.snapshots in
      record m {
        snapshots =
            (if leb m.max_snapshots (length alive) then tail alive else alive)
            ++ (seq, state, now) ∷ [];
      }

  -- `iter().rev().find`: the youngest with the number
  unfoldable pub youngest : ℕ → List (ℕ × T × ℕ) → Option T
  youngest seq [] = none
  youngest seq ((s, state, ts) ∷ rest) = elim (youngest seq rest) [
    | some younger ↦ some younger
    | none ↦ if s == seq then some state else none
  ]

  unfoldable pub get_baseline : BaselineManager T → ℕ → Option T
  get_baseline m seq = youngest seq m.snapshots

  unfoldable pub reset_manager : BaselineManager T → BaselineManager T
  reset_manager m = record m { snapshots = [] }

module _ {ℓ κ} {T : Type ℓ} (D : Type κ) ⦃n : NetworkDelta T D⦄ ⦃t : BitCodec T⦄
    ⦃d : BitCodec D⦄ where
  -- what is written for a state against the confirmed baseline
  unfoldable pub write_message : Option (ℕ × T) → T → Result BitBuffer IoError
  write_message none current =
      write_bits new no_baseline baseline_seq_bits >>= λ b. t.bit_serialize current b
  write_message (some (base_seq, baseline)) current =
      write_bits new base_seq baseline_seq_bits >>= λ b. d.bit_serialize (n.diff current baseline) b

  unfoldable pub encode : DeltaTracker T → ℕ → T → DeltaTracker T × Result (List ℕ) IoError
  unfolding write_message
  encode tracker seq current = elim (write_message tracker.confirmed_baseline current) [
    | err e ↦ (tracker, err e)
    | ok buf ↦ (store_pending tracker seq current, ok (into_bytes buf true))
  ]

  -- the state from what is left in the buffer, under a baseline number
  unfoldable pub read_state : ℕ → BitBuffer → BaselineManager T → Result T IoError
  read_state base_seq buf baselines =
      if base_seq == no_baseline
      then (t.bit_deserialize buf >>= λ (r : T × BitBuffer). ok r.0)
      else elim (get_baseline baselines base_seq) [
        | none ↦ err invalid_data
        | some baseline ↦ d.bit_deserialize buf >>= λ (r : D × BitBuffer). ok (n.apply baseline r.0)
      ]

  -- `read_bits(..)? as BaselineSeq` keeps 16 bits.
  unfoldable pub decode : List ℕ → BaselineManager T → Result T IoError
  unfolding read_state
  decode bytes baselines = read_bits (from_bytes bytes) baseline_seq_bits >>= λ (r : ℕ × BitBuffer).
      read_state (r.0 % 65536) r.1 baselines
