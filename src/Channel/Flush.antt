-- ===== src/Channel/Flush.antt =====
-- How a channel of gbnet/src/channel.rs skips a gap in ordered delivery.
use mathlib.Core.Bool.{false≢true}
use gbnet.Prelude.{
  ℕ, zero, suc, ◌+◌, ◌-◌, ◌%◌, ◌≤◌, ◌<◌, ◌≡◌, ◌⊎◌, refl, sym, ◌∙◌, ap, true, false, none, some,
  List, [], ◌∷◌, ◌++◌, append-nil, append_assoc, inl, inr, arith, ltb, ◌==◌, ==_refl, length,
  Bool-cases, Option-cases,
}
use gbnet.Prelude.Maps.{Map, lookup, contains_key}
use gbnet.Sequence.{IsSeq, next_seq, sequence_greater_than}
use gbnet.Channel.{Channel}
use gbnet.Channel.Receive.{
  deliver_buffered, earliest_from, find_earliest_buffered, gap_rounds, drain_rounds, drain,
  flush_ordered_buffer,
}

-- The rounds are enough where they are more than the steps from `seq` to `first`, and they count
-- those steps.
gap_rounds_lem :
    (n seq first gap : ℕ)
    → IsSeq seq
    → IsSeq first
    → (first + 65536 - seq) % 65536 < n
    → gap_rounds n seq first gap ≡ gap + (first + 65536 - seq) % 65536
unfolding gap_rounds
gap_rounds_lem zero seq first gap hs hf h = absurd (omega arith)
gap_rounds_lem (suc n) seq first gap hs hf h = elim (Bool-cases (seq == first)) [
  | inl eq ↦ rw (eq, gap_rounds) (ground arith)
  | inr ne ↦
      let below : gap_rounds n (next_seq seq) first (gap + 1)
          ≡ gap + 1 + (first + 65536 - next_seq seq) % 65536 =
        gap_rounds_lem n (next_seq seq) first (gap + 1) (omega arith) hf (ground arith) in
      rw (ne, gap_rounds) (below ∙ ground arith)
]

earliest_from-contained :
    (best : ℕ) (m : Map (List ℕ × ℕ))
    → (earliest_from best m ≡ best) ⊎ (contains_key (earliest_from best m) m ≡ true)
unfolding earliest_from lookup
earliest_from-contained best [] = inl refl
earliest_from-contained best ((k, v) ∷ m) =
    ground (arith, earliest_from-contained best m, earliest_from-contained k m, ==_refl k)

find_earliest_buffered-contained :
    (m : Map (List ℕ × ℕ)) (first : ℕ)
    → find_earliest_buffered m ≡ some first
    → contains_key first m ≡ true
unfolding find_earliest_buffered lookup
find_earliest_buffered-contained [] first e = absurd cc
find_earliest_buffered-contained ((k, v) ∷ m) first e =
    ground (arith, earliest_from-contained k m, ==_refl k)

-- the number of steps from `s` up to `k`, across the wrap or not
abbrev pub steps_to : ℕ → ℕ → ℕ
steps_to s k = (k + 65536 - s) % 65536

-- A number that is less than half the number space ahead of `s`.
abbrev IsAhead : ℕ → ℕ → Type 0
IsAhead s k = IsSeq k × (steps_to s k < 32768)

abbrev AreAhead : ℕ → Map (List ℕ × ℕ) → Type 0
AreAhead s [] = Unit
AreAhead s ((k, v) ∷ m) = IsAhead s k × AreAhead s m

compare_lem :
    (s a b : ℕ)
    → IsSeq s
    → IsAhead s a
    → IsAhead s b
    → sequence_greater_than a b ≡ ltb (steps_to s b) (steps_to s a)
unfolding sequence_greater_than
compare_lem s a b hs (ha, na) (hb, nb) = ground arith

earliest_from_lem :
    (s best k : ℕ) (m : Map (List ℕ × ℕ))
    → IsSeq s
    → IsAhead s best
    → AreAhead s m
    → (steps_to s (earliest_from best m) ≤ steps_to s best)
      × (contains_key k m ≡ true → steps_to s (earliest_from best m) ≤ steps_to s k)
unfolding earliest_from lookup
earliest_from_lem s best k [] hs hb all = (omega arith, λ c. absurd cc)
earliest_from_lem s best k ((j, v) ∷ m) hs hb (hj, all) =
    let c = compare_lem s best j hs hb hj in
    elim (Bool-cases (sequence_greater_than best j)) [
      | inl later ↦
          let (le, rest) = earliest_from_lem s j k m hs hj all in
          rw (later, earliest_from) (ground arith, λ there. ground (arith, rest))
      | inr sooner ↦
          let (le, rest) = earliest_from_lem s best k m hs hb all in
          rw (sooner, earliest_from) (ground arith, λ there. ground (arith, rest))
    ]

-- Draining keeps the count of what was skipped, and delivers after what is there.
drain_rounds_lem :
    (n : ℕ) (ch : Channel)
    → ((drain_rounds n ch).gap_sequences_skipped ≡ ch.gap_sequences_skipped)
      × ((rest : List (List ℕ)) × ((drain_rounds n ch).delivery_queue ≡ ch.delivery_queue ++ rest))
unfolding drain_rounds deliver_buffered
drain_rounds_lem zero ch = (refl, ([], sym (append-nil ch.delivery_queue)))
drain_rounds_lem (suc n) ch =
    elim (Option-cases (lookup ch.receive_sequence ch.ordered_receive_buffer)) [
      | inl e ↦ rw (e, drain_rounds) (refl, ([], sym (append-nil ch.delivery_queue)))
      | inr ((v, t), e) ↦
          let (gap, (rest, q)) = drain_rounds_lem n (deliver_buffered ch v) in
          rw (e, drain_rounds) (gap, (v ∷ rest, q ∙ append_assoc ch.delivery_queue (v ∷ []) rest))
    ]

-- A round that finds a message delivers it first.
drain_rounds_found :
    (n : ℕ) (ch : Channel) (v : List ℕ) (t : ℕ)
    → lookup ch.receive_sequence ch.ordered_receive_buffer ≡ some (v, t)
    → (rest : List (List ℕ)) × ((drain_rounds (suc n) ch).delivery_queue
        ≡ ch.delivery_queue ++ (v ∷ rest))
unfolding drain_rounds deliver_buffered
drain_rounds_found n ch v t e =
    let (gap, (rest, q)) = drain_rounds_lem n (deliver_buffered ch v) in
    rw (e, drain_rounds) (rest, q ∙ append_assoc ch.delivery_queue (v ∷ []) rest)

AreAhead-contained :
    (s k : ℕ) (m : Map (List ℕ × ℕ)) → AreAhead s m → contains_key k m ≡ true → IsAhead s k
unfolding lookup
AreAhead-contained s k [] all there = absurd cc
AreAhead-contained s k ((j, v) ∷ m) (h, all) there = ground (arith, h, AreAhead-contained s k m all)

find_earliest_buffered_lem :
    (s first k : ℕ) (m : Map (List ℕ × ℕ))
    → IsSeq s
    → AreAhead s m
    → find_earliest_buffered m ≡ some first
    → contains_key k m ≡ true
    → steps_to s first ≤ steps_to s k
unfolding find_earliest_buffered lookup
find_earliest_buffered_lem s first k [] hs all e there = absurd cc
find_earliest_buffered_lem s first k ((j, v) ∷ m) hs (h, all) e there =
    let (le, rest) = earliest_from_lem s j k m hs h all in
    let same : earliest_from j m ≡ first = ground (arith, e) in
    rw (sym same) (ground (arith, le, rest))

contains_key-length :
    (k : ℕ) (m : Map (List ℕ × ℕ)) → contains_key k m ≡ true → (n : ℕ) × (length m ≡ suc n)
unfolding lookup
contains_key-length k [] there = absurd cc
contains_key-length k (e ∷ m) there = (length m, refl)

contains_key-lookup :
    (k : ℕ) (m : Map (List ℕ × ℕ))
    → contains_key k m ≡ true
    → (v : List ℕ) × (t : ℕ) × (lookup k m ≡ some (v, t))
contains_key-lookup k m there = elim (Option-cases (lookup k m)) [
  | inl e ↦ absurd (false≢true (sym (ap (λ o. elim o [ none ↦ false | some _ ↦ true ]) e) ∙ there))
  | inr ((v, t), e) ↦ (v, t, e)
]

-- A buffer that holds a message `k`, and whose numbers are all less than 2^15 ahead of the one
-- that is waited for, is flushed from its earliest message `first` on, which is no further than
-- `k`: the channel delivers that message next, and counts as skipped the numbers between.
pub flush_ordered_buffer_lem :
    (ch : Channel) (first k : ℕ)
    → IsSeq ch.receive_sequence
    → AreAhead ch.receive_sequence ch.ordered_receive_buffer
    → find_earliest_buffered ch.ordered_receive_buffer ≡ some first
    → contains_key k ch.ordered_receive_buffer ≡ true
    → let ch' = flush_ordered_buffer ch in
      let s = ch.receive_sequence in
      (steps_to s first ≤ steps_to s k)
      × (ch'.gap_sequences_skipped ≡ ch.gap_sequences_skipped + steps_to s first)
      × ((v : List ℕ) × (t : ℕ) × (rest : List (List ℕ)) × (lookup first ch.ordered_receive_buffer
            ≡ some (v, t))
          × (ch'.delivery_queue ≡ ch.delivery_queue ++ (v ∷ rest)))
unfolding flush_ordered_buffer drain
flush_ordered_buffer_lem ch first k hs all e there =
    let b = ch.ordered_receive_buffer in
    let s = ch.receive_sequence in
    let it = find_earliest_buffered-contained b first e in
    let (n, len) = contains_key-length first b it in
    let (v, t, l) = contains_key-lookup first b it in
    let ahead = AreAhead-contained s first b all it in
    let gap = gap_rounds_lem 65536 s first ch.gap_sequences_skipped hs ahead.0 (omega arith) in
    let ch' : Channel = record ch {
      gap_sequences_skipped = gap_rounds 65536 s first ch.gap_sequences_skipped;
      receive_sequence = first;
    } in
    let (rest, q) = drain_rounds_found n ch' v t l in
    (
      find_earliest_buffered_lem s first k b hs all e there,
      rw (e, len, flush_ordered_buffer, drain) ((drain_rounds_lem (suc n) ch').0 ∙ gap),
      (v, t, rest, l, rw (e, len, flush_ordered_buffer, drain) q),
    )
