-- ===== src/Batch/Loop.antt =====
-- What the loop of `batch_messages` in gbnet/src/congestion.rs keeps true.
use gbnet.Prelude.{
  ℕ, suc, ◌+◌, ◌%◌, ◌≤◌, ◌<◌, ◌≡◌, refl, ◌⊎◌, inl, inr, Option, Option-cases, none, some, List, [],
  ◌∷◌, ◌++◌, append-nil, append_assoc, length, get_or, length-append, arith, All, All-append,
}
use gbnet.Prelude.Bytes.{u16_to_be_bytes}
use gbnet.Batch.{Batching, start, flush, push, unbatch_messages}
use gbnet.Batch.Decode.{IsShort, encoded, encoded-append, unbatch_messages-encoded}

-- All batches, read one after another.
unfoldable pub unbatch_all : List (List ℕ) → Option (List (List ℕ))
unbatch_all [] = some []
unbatch_all (b ∷ bs) = elim (unbatch_messages b) [
  | none ↦ none
  | some ms ↦ elim (unbatch_all bs) [ none ↦ none | some rest ↦ some (ms ++ rest) ]
]

unbatch_all-snoc :
    (bs : List (List ℕ)) (b : List ℕ) (xs ys : List (List ℕ))
    → unbatch_all bs ≡ some xs
    → unbatch_messages b ≡ some ys
    → unbatch_all (bs ++ (b ∷ [])) ≡ some (xs ++ ys)
unfolding unbatch_all
unbatch_all-snoc [] b xs ys h k = ground (arith, append-nil ys)
unbatch_all-snoc (c ∷ bs) b xs ys h k = elim (Option-cases (unbatch_messages c)) [
  | inl e ↦ ground arith
  | inr (ms, e) ↦ elim (Option-cases (unbatch_all bs)) [
    | inl e' ↦ ground arith
    | inr (rest, e') ↦ ground (arith, unbatch_all-snoc bs b rest ys e' k, append_assoc ms rest ys)
  ]
]

-- A batch says that it holds at most 255 messages, and it fits into `max_size` bytes or holds a
-- single message.
abbrev pub IsBatch : ℕ → List ℕ → Type 0
IsBatch max_size b = (get_or b 0 0 ≤ 255) × ((length b ≤ max_size) ⊎ (get_or b 0 0 ≡ 1))

-- The state of the loop when it has written `written` and holds `held`.
pub record Holds (max_size : ℕ) (written held : List (List ℕ)) (b : Batching) : Type 0 where
  pub out : unbatch_all b.batches ≡ some written
  pub fit : All (IsBatch max_size) b.batches
  pub short : All IsShort held
  pub current : b.current_batch ≡ encoded held
  pub count : b.msg_count ≡ length held
  pub size : b.current_size ≡ suc (length b.current_batch)
  pub few : b.msg_count ≤ 255
  pub bounded : (b.current_size ≤ max_size) ⊎ (b.msg_count ≤ 1)

pub start-Holds : (max_size : ℕ) → Holds max_size [] [] start
unfolding start unbatch_all
start-Holds max_size = record {
  out = refl;
  fit = tt;
  short = tt;
  current = refl;
  count = refl;
  size = refl;
  few = omega arith;
  bounded = inr (omega arith);
}

pub flush-Holds :
    (max_size : ℕ) (written held : List (List ℕ)) (b : Batching)
    → Holds max_size written held b
    → 0 < b.msg_count
    → Holds max_size (written ++ held) [] (flush b)
unfolding flush
flush-Holds max_size written held b h some_ = record {
  out =
      unbatch_all-snoc b.batches (b.msg_count ∷ b.current_batch) written held h.out
        (rw (h.count, h.current) (rw append-nil at (unbatch_messages-encoded held [] h.short)));
  fit =
      All-append (IsBatch max_size) b.batches ((b.msg_count ∷ b.current_batch) ∷ []) h.fit
        ((h.few, (ground (arith, h.size, h.bounded))), tt);
  short = tt;
  current = refl;
  count = refl;
  size = refl;
  few = omega arith;
  bounded = inr (omega arith);
}

pub push-Holds :
    (max_size : ℕ) (written held : List (List ℕ)) (b : Batching) (msg : List ℕ)
    → Holds max_size written held b
    → b.msg_count < 255
    → IsShort msg
    → (b.current_size + (2 + length msg) ≤ max_size) ⊎ (b.msg_count ≡ 0)
    → Holds max_size written (held ++ (msg ∷ [])) (push b msg)
unfolding push
push-Holds max_size written held b msg h few short room =
    let item = u16_to_be_bytes (length msg % 0x10000) ++ msg in
    record {
      out = h.out;
      fit = h.fit;
      short = All-append IsShort held (msg ∷ []) h.short (short, tt);
      current = rw (h.current, encoded-append held (msg ∷ []), append-nil item) refl;
      count = omega (arith, h.count, length-append held (msg ∷ []));
      size = omega (arith, h.size, length-append b.current_batch item);
      few = omega arith;
      bounded = ground arith;
    }
