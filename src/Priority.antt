-- ===== src/Priority.antt =====
-- Priorities of entities, gbnet/src/priority.rs. An entity is a number. `sort_by` is a stable sort,
-- and gives the same list as any other; two priorities that do not compare count as equal.
pub mod Drain
mod Tests
use gbnet.Prelude.{
  ℕ, ◌+◌, ◌-◌, Bool, true, false, ◌||◌, Option, none, some, List, [], ◌∷◌, map, ltb, ◌==◌,
  if◌then◌else◌, length,
}
use gbnet.Prelude.Maps.{Map, lookup, insert, remove}
use gbnet.Float.{Float}

pub record PriorityEntry {ℓ} (V : Type ℓ) : Type ℓ where
  pub base : V
  pub accumulated : V

pub record PriorityAccumulator {ℓ} (V : Type ℓ) : Type ℓ where
  pub entries : Map (PriorityEntry V)

module _ {ℓ} {V : Type ℓ} ⦃v : Float V⦄ where
  abbrev pub new : PriorityAccumulator V
  new = record { entries = [] }

  unfoldable pub register : PriorityAccumulator V → ℕ → V → PriorityAccumulator V
  register a id base_priority = record {
    entries = insert id (record { base = base_priority; accumulated = v.ratio 0 1 }) a.entries;
  }

  unfoldable pub unregister : PriorityAccumulator V → ℕ → PriorityAccumulator V
  unregister a id = record { entries = remove id a.entries }

  unfoldable pub accumulate : PriorityAccumulator V → V → PriorityAccumulator V
  accumulate a dt = record {
    entries =
        map
          (λ (entry : ℕ × PriorityEntry V). (
            entry.0,
            record entry.1 { accumulated = v.add entry.1.accumulated (v.mul entry.1.base dt) },
          ))
          a.entries;
  }

  -- `if let Some(entry) = self.entries.get_mut(id)`
  unfoldable pub at_entry :
      ℕ → (PriorityEntry V → PriorityEntry V) → Map (PriorityEntry V) → Map (PriorityEntry V)
  at_entry id change m = elim (lookup id m) [ none ↦ m | some entry ↦ insert id (change entry) m ]

  unfoldable pub apply_modifier : PriorityAccumulator V → ℕ → V → PriorityAccumulator V
  unfolding at_entry
  apply_modifier a id modifier = record {
    entries =
        at_entry id (λ entry. record entry { accumulated = v.mul entry.accumulated modifier })
          a.entries;
  }

  -- an entity among those that are sorted: behind the ones with a higher priority
  unfoldable pub place : ℕ × V → List (ℕ × V) → List (ℕ × V)
  place x [] = x ∷ []
  place x (y ∷ ys) = if v.lt x.1 y.1 then y ∷ place x ys else x ∷ y ∷ ys

  -- `sort_by(|a, b| b.1.partial_cmp(&a.1))`
  unfoldable pub sort : List (ℕ × V) → List (ℕ × V)
  unfolding place
  sort [] = []
  sort (x ∷ xs) = place x (sort xs)

  -- The entities that fit, one after another.
  unfoldable pub select : (ℕ → ℕ) → ℕ → List (ℕ × V) → List ℕ
  select size_fn remaining [] = []
  select size_fn remaining ((id, _) ∷ rest) =
      let skipped = select size_fn remaining rest in
      let taken = id ∷ select size_fn (remaining - size_fn id) rest in
      if ltb remaining (size_fn id) then skipped else taken

  abbrev pub cleared : PriorityEntry V → PriorityEntry V
  cleared entry = record entry { accumulated = v.ratio 0 1 }

  unfoldable pub reset : List ℕ → Map (PriorityEntry V) → Map (PriorityEntry V)
  unfolding at_entry
  reset [] m = m
  reset (id ∷ ids) m = reset ids (at_entry id cleared m)

  unfoldable pub drain_top : PriorityAccumulator V → ℕ → (ℕ → ℕ) → PriorityAccumulator V × List ℕ
  unfolding sort select reset
  drain_top a budget_bytes size_fn =
      let priorities = map (λ (e : ℕ × PriorityEntry V). (e.0, e.1.accumulated)) a.entries in
      let selected = select size_fn budget_bytes (sort priorities) in
      (record { entries = reset selected a.entries }, selected)

  unfoldable pub get_priority : PriorityAccumulator V → ℕ → Option V
  get_priority a id = elim (lookup id a.entries) [
    | none ↦ none
    | some entry ↦ some entry.accumulated
  ]
