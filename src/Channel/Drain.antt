-- ===== src/Channel/Drain.antt =====
-- What a reliable-ordered channel of gbnet/src/channel.rs has delivered, and the draining of its buffer.
use gbnet.Prelude.{
  ℕ, zero, suc, ◌+◌, ◌%◌, ◌≤◌, ◌<◌, ◌≡◌, refl, some, List, [], ◌∷◌, ◌++◌, inl, inr, arith, length,
  Option-cases,
}
use gbnet.Prelude.Maps.{
  Map, lookup, Distinct, Fresh, lookup-remove-some, remove-Distinct, length-remove,
}
use gbnet.Config.{reliable_ordered}
use gbnet.Channel.{Channel}
use gbnet.Channel.Receive.{deliver_buffered, drain_rounds}

-- the first `n` messages of a sender
abbrev pub upto : (ℕ → List ℕ) → ℕ → List (List ℕ)
upto m zero = []
upto m (suc n) = upto m n ++ (m n ∷ [])

-- Every buffered entry is one of the messages `from` to `from + 32767`, under its number.
abbrev pub Holds : (ℕ → List ℕ) → ℕ → Map (List ℕ × ℕ) → Type 0
Holds m from b =
    (k : ℕ) (v : List ℕ × ℕ)
    → lookup k b ≡ some v
    → (i : ℕ) × (from ≤ i) × (i < from + 32768) × (i % 65536 ≡ k) × (v.0 ≡ m i)

-- What was delivered is a prefix of what was sent, and what waits lies ahead of it.
abbrev pub IsPrefix : (ℕ → List ℕ) → Channel → Type 0
IsPrefix m ch =
    (ch.delivery_queue ≡ upto m ch.messages_received)
    × (ch.receive_sequence ≡ ch.messages_received % 65536)
    × Distinct ch.ordered_receive_buffer
    × Holds m ch.messages_received ch.ordered_receive_buffer

abbrev pub Waits : Channel → Type 0
Waits ch = Fresh ch.receive_sequence ch.ordered_receive_buffer

pub upto_next : (m : ℕ → List ℕ) (n : ℕ) → upto m (n + 1) ≡ upto m n ++ (m n ∷ [])
upto_next m n = let e : n + 1 ≡ suc n = omega arith in rw e refl

pub deliver_buffered-IsPrefix :
    (m : ℕ → List ℕ) (ch : Channel) (p : List ℕ) (t : ℕ)
    → lookup ch.receive_sequence ch.ordered_receive_buffer ≡ some (p, t)
    → IsPrefix m ch
    → IsPrefix m (deliver_buffered ch p)
unfolding deliver_buffered
deliver_buffered-IsPrefix m ch p t e (q, r, d, h) =
    let (i, lo, hi, at, is) = h ch.receive_sequence (p, t) e in
    let here : i ≡ ch.messages_received = omega arith in
    let said : p ≡ m ch.messages_received = cc in
    (
      rw (upto_next, q, said) refl,
      omega arith,
      remove-Distinct ch.receive_sequence ch.ordered_receive_buffer d,
      λ k v l.
          let (was, ne) =
            lookup-remove-some ch.receive_sequence k v ch.ordered_receive_buffer d l in
          let (x, lo', hi', at', is') = h k v was in (x, ground arith, omega arith, at', is'),
    )

empty_lem : (k : ℕ) (b : Map (List ℕ × ℕ)) → length b ≤ 0 → Fresh k b
unfolding lookup
empty_lem k [] h = refl
empty_lem k (e ∷ b) h = absurd (omega arith)

pub shorter :
    (ch : Channel) (v : List ℕ) (t n : ℕ)
    → lookup ch.receive_sequence ch.ordered_receive_buffer ≡ some (v, t)
    → length ch.ordered_receive_buffer ≤ suc n
    → length (deliver_buffered ch v).ordered_receive_buffer ≤ n
unfolding deliver_buffered
shorter ch v t n e h = ground (arith, length-remove ch.receive_sequence ch.ordered_receive_buffer)

pub drain_rounds-IsPrefix :
    (m : ℕ → List ℕ) (n : ℕ) (ch : Channel)
    → length ch.ordered_receive_buffer ≤ n
    → IsPrefix m ch
    → IsPrefix m (drain_rounds n ch) × Waits (drain_rounds n ch)
unfolding drain_rounds
drain_rounds-IsPrefix m zero ch le p =
    (p, empty_lem ch.receive_sequence ch.ordered_receive_buffer le)
drain_rounds-IsPrefix m (suc n) ch le p =
    elim (Option-cases (lookup ch.receive_sequence ch.ordered_receive_buffer)) [
      | inl e ↦ rw (e, drain_rounds) (p, e)
      | inr ((v, t), e) ↦
          rw (e, drain_rounds)
            (drain_rounds-IsPrefix m n (deliver_buffered ch v) (shorter ch v t n e le)
              (deliver_buffered-IsPrefix m ch v t e p))
    ]

-- Between two packets: the invariant, and the channel waits for a message that it does not have.
abbrev pub IsOrdered : (ℕ → List ℕ) → Channel → Type 0
IsOrdered m ch = IsPrefix m ch × Waits ch × (ch.config.delivery_mode ≡ reliable_ordered)

pub drain_rounds-config : (n : ℕ) (ch : Channel) → (drain_rounds n ch).config ≡ ch.config
unfolding drain_rounds deliver_buffered
drain_rounds-config zero ch = refl
drain_rounds-config (suc n) ch =
    elim (Option-cases (lookup ch.receive_sequence ch.ordered_receive_buffer)) [
      | inl e ↦ rw (e, drain_rounds) refl
      | inr ((v, t), e) ↦ rw (e, drain_rounds) (drain_rounds-config n (deliver_buffered ch v))
    ]
