-- ===== src/SequenceBuffer.antt =====
-- The circular buffer that remembers sequence numbers, `SequenceBuffer` of
-- gbnet/src/reliability.rs.
pub mod Window
mod Tests
use gbnet.Prelude.{
  ℕ, zero, suc, ◌%◌, ◌≡◌, Bool, true, false, Option, none, some, List, map, ltb, ◌==◌,
  if◌then◌else◌, get_or, set, replicate,
}
use gbnet.Prelude.Int.{pos_part}
use gbnet.Sequence.{next_seq, sequence_greater_than, sequence_diff}

pub record SequenceBuffer {ℓ} (T : Type ℓ) : Type ℓ where
  pub entries : List (Option (ℕ × T))
  pub sequence : ℕ
  pub size : ℕ

module _ {ℓ} {T : Type ℓ} where
  unfoldable pub new : ℕ → SequenceBuffer T
  new size = record { entries = replicate size none; sequence = 0; size = size }

  -- one round of the loop that moves `sequence` on
  abbrev pub step : SequenceBuffer T → SequenceBuffer T
  step b = record b {
    sequence = next_seq b.sequence;
    entries = set b.entries (next_seq b.sequence % b.size) none;
  }

  unfoldable pub steps : ℕ → SequenceBuffer T → SequenceBuffer T
  steps zero b = b
  steps (suc n) b = steps n (step b)

  abbrev clear : SequenceBuffer T → ℕ → SequenceBuffer T
  clear b sequence = record b { entries = map (λ _. none) b.entries; sequence = sequence }

  -- Room is made for a newer number. Where it is newer, the difference is positive.
  unfoldable pub advance : SequenceBuffer T → ℕ → SequenceBuffer T
  advance b sequence =
      let diff = pos_part (sequence_diff sequence b.sequence) in
      if sequence_greater_than sequence b.sequence
      then if ltb diff b.size then steps diff b else clear b sequence
      else b

  abbrev pub write : SequenceBuffer T → ℕ → T → SequenceBuffer T
  write b sequence item = record b {
    entries = set b.entries (sequence % b.size) (some (sequence, item));
  }

  unfoldable pub insert : SequenceBuffer T → ℕ → T → SequenceBuffer T
  insert b sequence item = write (advance b sequence) sequence item

  -- an entry, where it is that of the number
  abbrev pub found : ℕ → Option (ℕ × T) → Option T
  found sequence none = none
  found sequence (some (stored_seq, item)) = if stored_seq == sequence then some item else none

  unfoldable pub get : SequenceBuffer T → ℕ → Option T
  get b sequence = found sequence (get_or b.entries (sequence % b.size) none)

  unfoldable pub exists : SequenceBuffer T → ℕ → Bool
  exists b sequence = elim (get_or b.entries (sequence % b.size) none) [
    | none ↦ false
    | some (stored_seq, item) ↦ stored_seq == sequence
  ]
