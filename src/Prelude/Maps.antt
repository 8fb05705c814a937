-- ===== src/Prelude/Maps.antt =====
-- Rust's `HashMap` with integer keys, as an association list in iteration order. A new key goes
-- to the end; a map whose keys stand in any other order is another list, and the theorems that
-- range over all lists range over all orders of iteration.
use Prim.Native.Nat.{ℕ, suc, ◌≤◌}
use mathlib.Core.Path.{◌≡◌, refl}
use mathlib.Core.Logic.{◌⊎◌, inl}
use mathlib.Core.Bool.{Bool, true, false}
use mathlib.Core.List.{List, [], ◌∷◌}
use mathlib.Core.Option.{Option, none, some}
use native.Mathlib.Omega.{arith}
use gbnet.Prelude.Tests.{◌==◌, ==_refl, ltb, if◌then◌else◌}
use gbnet.Prelude.Lists.{length}

abbrev pub Map {ℓ} : Type ℓ → Type ℓ
Map V = List (ℕ × V)

module _ {ℓ} {V : Type ℓ} where
  unfoldable pub lookup : ℕ → Map V → Option V
  lookup k [] = none
  lookup k ((j, v) ∷ m) = if j == k then some v else lookup k m

  abbrev pub contains_key : ℕ → Map V → Bool
  contains_key k m = elim (lookup k m) [ none ↦ false | some _ ↦ true ]

  unfoldable pub insert : ℕ → V → Map V → Map V
  insert k new [] = (k, new) ∷ []
  insert k new ((j, old) ∷ rest) = if j == k then (k, new) ∷ rest else (j, old) ∷ insert k new rest

  unfoldable pub remove : ℕ → Map V → Map V
  remove k [] = []
  remove k ((j, w) ∷ m) = if j == k then m else (j, w) ∷ remove k m

  -- `retain`, with the test on a key and its value
  unfoldable pub retain : (ℕ → V → Bool) → Map V → Map V
  retain p [] = []
  retain p ((j, w) ∷ m) = if p j w then (j, w) ∷ retain p m else retain p m

  min_from : (V → ℕ) → ℕ → ℕ → Map V → ℕ
  min_from f best t [] = best
  min_from f best t ((k, v) ∷ m) =
      min_from f (if ltb (f v) t then k else best) (if ltb (f v) t then f v else t) m

  -- The key of the first least value, as `iter().min_by_key(..)` finds it.
  unfoldable pub min_by_key : (V → ℕ) → Map V → Option ℕ
  unfolding min_from
  min_by_key f [] = none
  min_by_key f ((k, v) ∷ m) = some (min_from f k (f v) m)

  -- The keys are distinct: `k` is not among them, and so on.
  abbrev pub Fresh : ℕ → Map V → Type ℓ
  Fresh k m = lookup k m ≡ none

  abbrev pub Distinct : Map V → Type ℓ
  Distinct [] = Unit
  Distinct ((k, v) ∷ m) = Fresh k m × Distinct m

module _ {ℓ} {V : Type ℓ} where
  pub lookup-insert :
      (here there : ℕ) (new : V) (m : Map V)
      → lookup there (insert here new m) ≡ (if here == there then some new else lookup there m)
  unfolding insert lookup
  lookup-insert here there new [] = refl
  lookup-insert here there new ((i, old) ∷ rest) =
      let below = lookup-insert here there new rest in ground (arith, below)

  -- Removing a key takes away exactly that key, where no key stands twice.
  pub lookup-remove :
      (k j : ℕ) (m : Map V)
      → Distinct m
      → lookup j (remove k m) ≡ (if k == j then none else lookup j m)
  unfolding lookup remove
  lookup-remove k j [] d = ground arith
  lookup-remove k j ((i, w) ∷ m) d = ground (arith, lookup-remove k j m d.1, d.0)

  -- What is left after a removal was there, under another key.
  pub lookup-remove-some :
      (k j : ℕ) (v : V) (m : Map V)
      → Distinct m
      → lookup j (remove k m) ≡ some v
      → (lookup j m ≡ some v) × ((k == j) ≡ false)
  lookup-remove-some k j v m d e = ground (arith, lookup-remove k j m d)

  -- What is found after an insertion is the new value at its key, and the old ones elsewhere.
  pub lookup-insert-some :
      (k j : ℕ) (w v : V) (m : Map V)
      → lookup j (insert k w m) ≡ some v
      → ((k ≡ j) × (w ≡ v)) ⊎ (((k == j) ≡ false) × (lookup j m ≡ some v))
  lookup-insert-some k j w v m e = ground (arith, lookup-insert k j w m)

  pub Fresh-insert :
      (i k : ℕ) (v : V) (m : Map V) → (k == i) ≡ false → Fresh i m → Fresh i (insert k v m)
  Fresh-insert i k v m ne f = ground (arith, lookup-insert k i v m)

  pub lookup-retain :
      (k : ℕ) (p : ℕ → V → Bool) (m : Map V) (v : V)
      → lookup k m ≡ some v
      → p k v ≡ true
      → lookup k (retain p m) ≡ some v
  unfolding lookup retain
  lookup-retain k p [] v h t = cc
  lookup-retain k p ((i, w) ∷ m) v h t = ground (arith, lookup-retain k p m v)

  pub insert-Distinct : (k : ℕ) (v : V) (m : Map V) → Distinct m → Distinct (insert k v m)
  unfolding insert lookup
  insert-Distinct k v [] d = (refl, tt)
  insert-Distinct k v ((i, w) ∷ m) d =
      ground (arith, d.0, insert-Distinct k v m d.1, lookup-insert k i v m)

  pub Fresh-remove : (i k : ℕ) (m : Map V) → Fresh i m → Fresh i (remove k m)
  unfolding remove lookup
  Fresh-remove i k [] f = refl
  Fresh-remove i k ((j, w) ∷ m) f = ground (arith, Fresh-remove i k m)

  pub remove-Distinct : (k : ℕ) (m : Map V) → Distinct m → Distinct (remove k m)
  unfolding remove
  remove-Distinct k [] d = tt
  remove-Distinct k ((i, w) ∷ m) d =
      ground (arith, d.0, d.1, remove-Distinct k m d.1, Fresh-remove i k m d.0)

  pub Fresh-retain : (i : ℕ) (p : ℕ → V → Bool) (m : Map V) → Fresh i m → Fresh i (retain p m)
  unfolding retain lookup
  Fresh-retain i p [] f = refl
  Fresh-retain i p ((j, w) ∷ m) f = ground (arith, Fresh-retain i p m)

  pub length-insert :
      (k : ℕ) (v : V) (m : Map V)
      → length (insert k v m) ≡ (if contains_key k m then length m else suc (length m))
  unfolding insert lookup
  length-insert k v [] = refl
  length-insert k v ((i, w) ∷ m) = ground (arith, length-insert k v m)

  pub length-remove :
      (k : ℕ) (m : Map V)
      → length m ≡ (if contains_key k m then suc (length (remove k m)) else length (remove k m))
  unfolding remove lookup
  length-remove k [] = refl
  length-remove k ((i, w) ∷ m) = ground (arith, length-remove k m)

  pub length-retain : (p : ℕ → V → Bool) (m : Map V) → length (retain p m) ≤ length m
  unfolding retain
  length-retain p [] = omega arith
  length-retain p ((i, w) ∷ m) = ground (arith, length-retain p m)

  lookup-min_from :
      (f : V → ℕ) (best t : ℕ) (m : Map V)
      → (min_from f best t m ≡ best) ⊎ (contains_key (min_from f best t m) m ≡ true)
  unfolding min_from lookup
  lookup-min_from f best t [] = inl refl
  lookup-min_from f best t ((k, v) ∷ m) =
      ground (arith, lookup-min_from f best t m, lookup-min_from f k (f v) m, ==_refl k)

  -- The key that `min_by_key` finds is in the map.
  pub contains_key-min_by_key :
      (f : V → ℕ) (m : Map V) (k : ℕ) → min_by_key f m ≡ some k → contains_key k m ≡ true
  unfolding min_by_key lookup
  contains_key-min_by_key f [] k h = cc
  contains_key-min_by_key f ((j, v) ∷ m) k h =
      ground (arith, lookup-min_from f j (f v) m, ==_refl j)
