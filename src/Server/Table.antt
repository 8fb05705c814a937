-- ===== src/Server/Table.antt =====
-- The table of the connections of a server, gbnet/src/server.rs: its size after a change, and what
-- the search for a connection that has moved finds.
use gbnet.Prelude.{
  ℕ, suc, ◌+◌, ◌≤◌, ◌≡◌, refl, sym, ap, ◌∙◌, true, false, none, some, [], ◌∷◌, ◌⊎◌, inl, inr,
  ==_refl, Bool-cases, ltb, length, arith,
}
use gbnet.Prelude.Int.{pos_part, neg_part}
use gbnet.Prelude.Maps.{Map, lookup, contains_key, insert, remove, length-insert, length-remove}
use gbnet.Float.{Float}
use gbnet.Sequence.{sequence_diff}
use gbnet.Packet.{PacketHeader}
use gbnet.Connection.{Connection, ConnectionState, connected}
use gbnet.Connection.Operations.{migration_token}
use gbnet.Server.Traffic.{is_cool, find_migrating}

module _ {ℓ} {A : Type ℓ} where
  pub length-remove-here :
      (k : ℕ) (m : Map A) → contains_key k m ≡ true → suc (length (remove k m)) ≡ length m
  length-remove-here k m h = sym (length-remove k m ∙ (rw (h) refl))

  pub length-insert-here :
      (k : ℕ) (a : A) (m : Map A) → contains_key k m ≡ true → length (insert k a m) ≡ length m
  length-insert-here k a m h = length-insert k a m ∙ (rw (h) refl)

  pub length-insert-le : (k : ℕ) (a : A) (m : Map A) → length (insert k a m) ≤ suc (length m)
  length-insert-le k a m = ground (arith, length-insert k a m)

  pub contains-some : (k : ℕ) (a : A) (m : Map A) → lookup k m ≡ some a → contains_key k m ≡ true
  contains-some k a m e = ap (λ o. elim o [ none ↦ false | some _ ↦ true ]) e

module _ {ℓ κ} {V : Type ℓ} {W : Type κ} ⦃v : Float V⦄ ⦃f : Float W⦄ where
  -- The first connection is found or passed over.
  find_migrating-cons :
      (cooldowns : Map ℕ) (now : ℕ) (header : PacketHeader) (m : Map (Connection V W)) (j : ℕ)
      (d : Connection V W) (state : ConnectionState)
      → d.state ≡ state
      → (find_migrating cooldowns now header ((j, d) ∷ m) ≡ find_migrating cooldowns now header m)
        ⊎ (find_migrating cooldowns now header ((j, d) ∷ m) ≡ some (j, d))
  unfolding find_migrating
  find_migrating-cons cooldowns now header m j d connected e =
      let diff = sequence_diff header.sequence d.remote_sequence in
      elim (Bool-cases (ltb d.config.max_sequence_distance (pos_part diff + neg_part diff))) [
        | inl far ↦ inl (simp (e, far, find_migrating) refl)
        | inr near ↦ elim (Bool-cases (is_cool cooldowns (migration_token d) now)) [
          | inl cool ↦ inr (simp (e, near, cool, find_migrating) refl)
          | inr hot ↦ inl (simp (e, near, hot, find_migrating) refl)
        ]
      ]
  find_migrating-cons cooldowns now header m j d _ e = inl (simp (e, find_migrating) refl)

  contains-cons :
      (k j : ℕ) (d : Connection V W) (m : Map (Connection V W))
      → contains_key k m ≡ true
      → contains_key k ((j, d) ∷ m) ≡ true
  unfolding lookup
  contains-cons k j d m h = ground arith

  contains-head :
      (k j : ℕ) (d : Connection V W) (m : Map (Connection V W))
      → j ≡ k
      → contains_key k ((j, d) ∷ m) ≡ true
  unfolding lookup
  contains-head k j d m e = ground (arith, ==_refl k)

  -- A connection that may have moved is one of the server's.
  pub find_migrating-contains_key :
      (cooldowns : Map ℕ) (now : ℕ) (header : PacketHeader) (m : Map (Connection V W)) (key : ℕ)
      (c : Connection V W)
      → find_migrating cooldowns now header m ≡ some (key, c)
      → contains_key key m ≡ true
  unfolding find_migrating lookup
  find_migrating-contains_key cooldowns now header [] key c e = cc
  find_migrating-contains_key cooldowns now header ((j, d) ∷ m) key c e =
      elim (find_migrating-cons cooldowns now header m j d d.state refl) [
        | inl g ↦
            contains-cons key j d m
              (find_migrating-contains_key cooldowns now header m key c (sym g ∙ e))
        | inr g ↦
            contains-head key j d m (ap (λ o. elim o [ none ↦ key | some x ↦ x.0 ]) (sym g ∙ e))
      ]
