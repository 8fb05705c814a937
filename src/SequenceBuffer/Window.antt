-- ===== src/SequenceBuffer/Window.antt =====
-- What the circular buffer of gbnet/src/reliability.rs remembers.
use gbnet.Prelude.{
  ℕ, zero, suc, ◌+◌, ◌-◌, ◌%◌, ◌≤◌, ◌<◌, ◌≡◌, ◌≢◌, refl, sym, ◌∙◌, ap, true, false, Option, none,
  some, inl, inr, Bool-cases, ==_refl, ltb, length, get_or, length-set, get_or-set_self,
  get_or-set_ne, arith,
}
use gbnet.Prelude.Int.{pos}
use gbnet.Sequence.{sequence_greater_than, sequence_diff}
use gbnet.Sequence.Order.{sequence_ahead}
use gbnet.SequenceBuffer.{SequenceBuffer, step, steps, advance, insert, found, get}

index_ne : (now i : ℕ) → i ≤ now → now + 1 < i + 256 → (now % 65536 + 1) % 65536 % 256 ≢ i % 256
index_ne now i le lt e = absurd (omega arith)

ahead :
    (now j s : ℕ)
    → s ≡ now % 65536
    → now < j
    → j < now + 256
    → (sequence_greater_than (j % 65536) s ≡ true) × (sequence_diff (j % 65536) s ≡ pos (j - now))
ahead now j s at lt near =
    let e : (s + (j - now)) % 65536 ≡ j % 65536 = omega arith in
    rw e at (sequence_ahead s (j - now) (omega arith) (omega arith) (omega arith))

behind :
    (now j s : ℕ)
    → s ≡ now % 65536
    → j ≤ now
    → now < j + 256
    → sequence_greater_than (j % 65536) s ≡ false
unfolding sequence_greater_than
behind now j s at le near = ground arith

index_apart : (i j : ℕ) → j < i + 256 → i < j + 256 → i ≢ j → j % 65536 % 256 ≢ i % 65536 % 256
index_apart i j lt gt ne e = ne (omega arith)

module _ {ℓ} {T : Type ℓ} where
  -- a buffer of 256 entries, the size that connections use
  abbrev IsWhole : SequenceBuffer T → Type 0
  IsWhole b = (b.size ≡ 256) × (length b.entries ≡ 256)

  steps_lem :
      (n now i : ℕ) (b : SequenceBuffer T)
      → IsWhole b
      → b.sequence ≡ now % 65536
      → i ≤ now
      → now + n < i + 256
      → (get_or (steps n b).entries (i % 256) none ≡ get_or b.entries (i % 256) none)
        × IsWhole (steps n b)
  unfolding steps
  steps_lem zero now i b w at le lt = (refl, w)
  steps_lem (suc n) now i b (size, len) at le lt =
      let index = (b.sequence + 1) % 65536 % b.size in
      let other : index ≢ i % 256 = rw (at, size) (index_ne now i (omega arith) (omega arith)) in
      let kept = get_or-set_ne b.entries index (i % 256) none none other in
      let (below, whole) =
        steps_lem n (now + 1) i (step b) (size, length-set b.entries index none ∙ len) (omega arith)
          (omega arith) (omega arith) in
      (below ∙ kept, whole)

  -- Making room for message `j` keeps what is stored for message `i`, less than 256 older.
  advance_lem :
      (now i j : ℕ) (b : SequenceBuffer T)
      → IsWhole b
      → b.sequence ≡ now % 65536
      → i ≤ now
      → now < j + 256
      → j < i + 256
      → (get_or (advance b (j % 65536)).entries (i % 256) none ≡ get_or b.entries (i % 256) none)
        × IsWhole (advance b (j % 65536))
  unfolding advance
  advance_lem now i j b (size, len) at le near lt = elim (Bool-cases (ltb now j)) [
    | inl newer ↦
        let (greater, diff) = ahead now j b.sequence at (ground arith) (omega arith) in
        let small : ltb (j - now) b.size ≡ true = rw size (ground arith) in
        rw (greater, diff, small, advance)
          (steps_lem (j - now) now i b (size, len) at le (ground arith))
    | inr older ↦
        let not_greater = behind now j b.sequence at (ground arith) near in
        rw (not_greater, advance) (refl, (size, len))
  ]

  -- In a buffer of 256 entries whose newest number is that of message `now`, insert message `j`,
  -- at most 255 older or newer. Then `get` finds it, and it finds what it found before for each
  -- other message `i` that is at most 255 older than both; 16 bits are kept of each number.
  pub get-insert :
      (now i j : ℕ) (b : SequenceBuffer T) (item : T)
      → IsWhole b
      → b.sequence ≡ now % 65536
      → i ≤ now
      → now < j + 256
      → j < i + 256
      → i < j + 256
      → i ≢ j
      → (get (insert b (j % 65536) item) (j % 65536) ≡ some item)
        × (get (insert b (j % 65536) item) (i % 65536) ≡ get b (i % 65536))
  unfolding get insert
  get-insert now i j b item whole at le near lt gt ne =
      let (kept, (size, len)) = advance_lem now i j b whole at le near lt in
      let b' = advance b (j % 65536) in
      let index = j % 65536 % b'.size in
      let value : Option (ℕ × T) = some (j % 65536, item) in
      let within : index < length b'.entries = rw (size, len) (omega arith) in
      let at_i : i % 65536 % b'.size ≡ i % 256 = rw size (omega arith) in
      let was_at_i : i % 65536 % b.size ≡ i % 256 = rw (whole.0) (omega arith) in
      let other : index ≢ i % 65536 % b'.size = rw size (index_apart i j lt gt ne) in
      (
        ap (found (j % 65536)) (get_or-set_self b'.entries index value none within)
            ∙ rw (==_refl (j % 65536)) refl,
        ap (found (i % 65536)) (
            get_or-set_ne b'.entries index (i % 65536 % b'.size) value none other
            ∙ (ap (λ k. get_or b'.entries k none) at_i
                ∙ (kept ∙ ap (λ k. get_or b.entries k none) (sym was_at_i)))),
      )
