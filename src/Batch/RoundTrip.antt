-- ===== src/Batch/RoundTrip.antt =====
-- `batch_messages` of gbnet/src/congestion.rs: nothing is lost, and how large a batch is.
use gbnet.Prelude.{
  ℕ, ◌+◌, ◌≤◌, ◌<◌, ◌≡◌, refl, sym, ap, ◌∙◌, ◌⊎◌, inl, inr, Bool-cases, ◌&&◌, some, List, [], ◌∷◌,
  ◌++◌, append-nil, append_assoc, length, arith, ltb, ◌==◌, All,
}
use gbnet.Batch.{
  Batching, start, flush, push, flush_before, flush_after, add, add_all, finish, batch_messages,
}
use gbnet.Batch.Decode.{IsShort}
use gbnet.Batch.Loop.{unbatch_all, IsBatch, Holds, start-Holds, flush-Holds, push-Holds}

-- `b` holds what `written` and `held` say, in two parts of its own.
abbrev Continues : ℕ → List (List ℕ) → (Batching → Type 0) → Batching → Type 0
Continues max_size all P b =
    (written held : List (List ℕ)) × (written ++ held ≡ all) × Holds max_size written held b × P b

flush_before-Holds :
    (max_size : ℕ) (written held : List (List ℕ)) (b : Batching) (msg : List ℕ)
    → Holds max_size written held b
    → b.msg_count < 255
    → Continues max_size
        (written ++ held)
        (λ c.
          (c.msg_count < 255)
          × ((c.current_size + (2 + length msg) ≤ max_size) ⊎ (c.msg_count ≡ 0)))
        (flush_before max_size b msg)
unfolding flush_before
flush_before-Holds max_size written held b msg h few =
    elim (Bool-cases (ltb max_size (b.current_size + (2 + length msg)) && ltb 0 b.msg_count)) [
      | inl e ↦
          rw (e, flush_before)
            (
              written ++ held,
              [],
              append-nil (written ++ held),
              flush-Holds max_size written held b h (ground arith),
              (unfold flush in omega arith, unfold flush in inr refl),
            )
      | inr e ↦ rw (e, flush_before) (written, held, refl, h, (few, ground arith))
    ]

flush_after-Holds :
    (max_size : ℕ) (written held : List (List ℕ)) (b : Batching)
    → Holds max_size written held b
    → Continues max_size (written ++ held) (λ c. c.msg_count < 255) (flush_after b)
unfolding flush_after
flush_after-Holds max_size written held b h = elim (Bool-cases (b.msg_count == 255)) [
  | inl e ↦
      rw (e, flush_after)
        (
          written ++ held,
          [],
          append-nil (written ++ held),
          flush-Holds max_size written held b h (ground arith),
          unfold flush in omega arith,
        )
  | inr e ↦ rw (e, flush_after) (written, held, refl, h, ground (arith, h.few))
]

-- One round of the loop.
add-Holds :
    (max_size : ℕ) (written held : List (List ℕ)) (b : Batching) (msg : List ℕ)
    → Holds max_size written held b
    → b.msg_count < 255
    → IsShort msg
    → Continues max_size
        ((written ++ held) ++ (msg ∷ []))
        (λ c. c.msg_count < 255)
        (add max_size b msg)
unfolding add
add-Holds max_size written held b msg h few short =
    let (w1, h1, e1, k1, f1) = flush_before-Holds max_size written held b msg h few in
    let b1 = flush_before max_size b msg in
    let k2 = push-Holds max_size w1 h1 b1 msg k1 f1.0 short f1.1 in
    let (w3, h3, e3, k3, few3) =
      flush_after-Holds max_size w1 (h1 ++ (msg ∷ [])) (push b1 msg) k2 in
    (w3, h3, e3 ∙ sym (append_assoc w1 h1 (msg ∷ [])) ∙ ap (λ t. t ++ (msg ∷ [])) e1, k3, few3)

add_all-Holds :
    (max_size : ℕ) (msgs written held : List (List ℕ)) (b : Batching)
    → Holds max_size written held b
    → b.msg_count < 255
    → All IsShort msgs
    → Continues max_size
        ((written ++ held) ++ msgs)
        (λ c. c.msg_count < 255)
        (add_all max_size b msgs)
unfolding add_all
add_all-Holds max_size [] written held b h few shorts =
    (written, held, sym (append-nil (written ++ held)), h, few)
add_all-Holds max_size (msg ∷ msgs) written held b h few (short, shorts) =
    let (w1, h1, e1, k1, few1) = add-Holds max_size written held b msg h few short in
    let (w2, h2, e2, k2, few2) =
      add_all-Holds max_size msgs w1 h1 (add max_size b msg) k1 few1 shorts in
    (w2, h2, e2 ∙ ap (λ t. t ++ msgs) e1 ∙ append_assoc (written ++ held) (msg ∷ []) msgs, k2, few2)

finish-Holds :
    (max_size : ℕ) (written held : List (List ℕ)) (b : Batching)
    → Holds max_size written held b
    → (unbatch_all (finish b) ≡ some (written ++ held)) × All (IsBatch max_size) (finish b)
unfolding finish
finish-Holds max_size written held b h = elim (Bool-cases (ltb 0 b.msg_count)) [
  | inl e ↦
      rw (e, finish)
        (let f = flush-Holds max_size written held b h (ground arith) in (f.out, f.fit))
  | inr e ↦ rw (e, finish) (rw (nothing held (ground (arith, h.count)), append-nil) h.out, h.fit)
]
  where
    nothing : (xs : List (List ℕ)) → length xs ≡ 0 → xs ≡ []
    nothing [] z = refl
    nothing (x ∷ xs) z = absurd (omega (arith, z))

-- Messages shorter than 65536 bytes are all in the batches, in order, whatever the size of a
-- batch may be: reading the batches one after another gives the messages back. Each batch says
-- that it holds at most 255 messages, and has at most `max_size` bytes or a single message.
pub batch_messages_roundtrip :
    (msgs : List (List ℕ)) (max_size : ℕ)
    → All IsShort msgs
    → (unbatch_all (batch_messages msgs max_size) ≡ some msgs)
      × All (IsBatch max_size) (batch_messages msgs max_size)
unfolding batch_messages
batch_messages_roundtrip msgs max_size shorts =
    let (w, h, e, k, _) =
      add_all-Holds max_size msgs [] [] start (start-Holds max_size) (unfold start in omega arith)
        shorts in
    let (read, fit) = finish-Holds max_size w h (add_all max_size start msgs) k in
    (read ∙ ap some e, fit)
