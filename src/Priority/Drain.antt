-- ===== src/Priority/Drain.antt =====
-- What `drain_top` of gbnet/src/priority.rs selects, and what it leaves.
use gbnet.Prelude.{
  ℕ, ◌+◌, ◌≤◌, ◌<◌, ◌≡◌, Bool, true, false, ◌||◌, Option, none, some, List, [], ◌∷◌, map, ◌==◌,
  if◌then◌else◌,
}
use gbnet.Prelude.Maps.{lookup, contains_key}
use gbnet.Float.{Float}
use gbnet.Priority.{PriorityEntry, PriorityAccumulator, cleared, reset}

unfoldable pub is_in : ℕ → List ℕ → Bool
is_in id [] = false
is_in id (x ∷ xs) = x == id || is_in id xs

-- the bytes of some entities
unfoldable pub total : (ℕ → ℕ) → List ℕ → ℕ
total size_fn [] = 0
total size_fn (id ∷ ids) = size_fn id + total size_fn ids

module _ {ℓ} {V : Type ℓ} where
  abbrev keys : List (ℕ × V) → List ℕ
  keys xs = map (λ x. x.0) xs

module _ {ℓ} {V : Type ℓ} ⦃v : Float V⦄ where
  -- the entry of an entity when those in a list have been reset
  abbrev left : List ℕ → ℕ → Option (PriorityEntry V) → Option (PriorityEntry V)
  left ids id none = none
  left ids id (some e) = some (if is_in id ids then cleared e else e)

  -- What `drain_top` promises: the entities fit, none that it leaves out would fit beside them, and
  -- it clears those that it selects, and no others.
  pub record HasDrained (size_fn : ℕ → ℕ) (budget : ℕ) (a a' : PriorityAccumulator V)
      (selected : List ℕ) : Type ℓ where
    pub fits : total size_fn selected ≤ budget
    pub full :
        (id : ℕ)
        → contains_key id a.entries ≡ true
        → is_in id selected ≡ false
        → budget < total size_fn selected + size_fn id
    pub reset : (id : ℕ) → lookup id a'.entries ≡ left selected id (lookup id a.entries)
