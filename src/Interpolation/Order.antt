-- ===== src/Interpolation/Order.antt =====
-- What the buffer of snapshots of gbnet/src/interpolation.rs holds.
use gbnet.Prelude.{
  ℕ, ◌*◌, ◌≤◌, ◌≡◌, refl, sym, false, Option, none, some, List, [], ◌∷◌, ◌++◌, length, arith,
  Bool-cases, Option-cases, ltb, inl, inr,
}
use gbnet.Float.{Float}
use gbnet.Interpolation.{
  TimestampedSnapshot, SnapshotBuffer, back, keep_newest, append, push, with_config,
}

pub length-keep_newest {ℓ} : {A : Type ℓ} (n : ℕ) (l : List A) → length (keep_newest n l) ≤ n
unfolding keep_newest
length-keep_newest n [] = omega arith
length-keep_newest n (s ∷ rest) = ground (arith, length-keep_newest n rest)

module _ {ℓ κ} {V : Type ℓ} {T : Type κ} ⦃v : Float V⦄ where
  -- No snapshot is as old as the one before it.
  abbrev pub IsOrdered : List (TimestampedSnapshot V T) → Type 0
  IsOrdered [] = Unit
  IsOrdered (x ∷ []) = Unit
  IsOrdered (x ∷ y ∷ l) = (v.le y.timestamp x.timestamp ≡ false) × IsOrdered (y ∷ l)

  abbrev IsNewer : TimestampedSnapshot V T → Option (TimestampedSnapshot V T) → Type 0
  IsNewer s none = Unit
  IsNewer s (some last) = v.le s.timestamp last.timestamp ≡ false

  abbrev pub pushes : SnapshotBuffer V T → List (TimestampedSnapshot V T) → SnapshotBuffer V T
  pushes b [] = b
  pushes b (s ∷ rest) = pushes (push b s) rest

module _ {ℓ κ} {V : Type ℓ} {T : Type κ} ⦃v : Float V⦄ where
  rest-IsOrdered :
      (x : TimestampedSnapshot V T) (l : List (TimestampedSnapshot V T))
      → IsOrdered (x ∷ l)
      → IsOrdered l
  rest-IsOrdered x [] h = tt
  rest-IsOrdered x (y ∷ l) (h, hs) = hs

  append-IsOrdered :
      (l : List (TimestampedSnapshot V T)) (s : TimestampedSnapshot V T)
      → IsOrdered l
      → IsNewer s (back l)
      → IsOrdered (l ++ s ∷ [])
  append-IsOrdered [] s h k = tt
  append-IsOrdered (x ∷ []) s h k = (k, tt)
  append-IsOrdered (x ∷ y ∷ l) s (h, hs) k = (h, append-IsOrdered (y ∷ l) s hs k)

  keep_newest-IsOrdered :
      (n : ℕ) (l : List (TimestampedSnapshot V T)) → IsOrdered l → IsOrdered (keep_newest n l)
  unfolding keep_newest
  keep_newest-IsOrdered n [] h = tt
  keep_newest-IsOrdered n (x ∷ l) h = elim (Bool-cases (ltb n (length (x ∷ l)))) [
    | inl e ↦ rw (e) (keep_newest-IsOrdered n l (rest-IsOrdered x l h))
    | inr e ↦ rw (e) h
  ]

  -- What holds of a buffer of this depth.
  record Held (depth : ℕ) (b : SnapshotBuffer V T) : Type 0 where
    ordered : IsOrdered b.snapshots
    bounded : length b.snapshots ≤ depth * 2
    fixed : b.buffer_depth ≡ depth

  append-Held :
      (d : ℕ) (b : SnapshotBuffer V T) (s : TimestampedSnapshot V T)
      → Held d b
      → IsNewer s (back b.snapshots)
      → Held d (append b s)
  unfolding append
  append-Held d b s h k = record {
    ordered = keep_newest-IsOrdered _ _ (append-IsOrdered b.snapshots s h.ordered k);
    bounded = rw (sym h.fixed) (length-keep_newest (b.buffer_depth * 2) (b.snapshots ++ s ∷ []));
    fixed = h.fixed;
  }

  push-Held :
      (d : ℕ) (b : SnapshotBuffer V T) (s : TimestampedSnapshot V T) → Held d b → Held d (push b s)
  unfolding push
  push-Held d b s h = elim (Option-cases (back b.snapshots)) [
    | inl e ↦ simp (e, push) (append-Held d b s h (simp (e) tt))
    | inr (last, e) ↦ elim (Bool-cases (v.le s.timestamp last.timestamp)) [
      | inl f ↦ simp (e, f, push) h
      | inr f ↦ simp (e, f, push) (append-Held d b s h (simp (e) f))
    ]
  ]

  pushes-Held :
      (d : ℕ) (l : List (TimestampedSnapshot V T)) (b : SnapshotBuffer V T)
      → Held d b
      → Held d (pushes b l)
  pushes-Held d [] b h = h
  pushes-Held d (s ∷ l) b h = pushes-Held d l (push b s) (push-Held d b s h)

  -- Whatever is pushed to a new buffer, it holds at most twice its depth, and no snapshot in it is
  -- as old as the one before it.
  pub pushes-IsOrdered :
      (depth : ℕ) (delay : V) (l : List (TimestampedSnapshot V T))
      → IsOrdered (pushes (with_config depth delay) l).snapshots
        × (length (pushes (with_config depth delay) l).snapshots ≤ depth * 2)
  unfolding with_config
  pushes-IsOrdered depth delay l =
      let h =
        pushes-Held depth l (with_config depth delay)
          (record { ordered = tt; bounded = omega arith; fixed = refl }) in
      (h.ordered, h.bounded)
