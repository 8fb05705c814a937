-- ===== src/Batch.antt =====
-- Packing small messages into packets, `batch_messages` and `unbatch_messages` of
-- gbnet/src/congestion.rs. The wire format of a batch is [u8 count] and then, for each message,
-- [u16 length, big endian][bytes].
pub mod Decode
pub mod Loop
pub mod RoundTrip
mod Tests
use gbnet.Prelude.{
  ℕ, zero, suc, ◌+◌, ◌%◌, Bool, ◌&&◌, Option, none, some, List, [], ◌∷◌, ◌++◌, ltb, ◌==◌,
  if◌then◌else◌, length, get_or, take, drop,
}
use gbnet.Prelude.Bytes.{u16_to_be_bytes, u16_from_be_bytes}

abbrev batch_header_size : ℕ
batch_header_size = 1

abbrev batch_length_size : ℕ
batch_length_size = 2

abbrev max_batch_messages : ℕ
max_batch_messages = 255

-- The variables of the loop of `batch_messages`.
pub record Batching : Type 0 where
  pub batches : List (List ℕ)
  pub current_batch : List ℕ
  pub current_size : ℕ
  pub msg_count : ℕ

unfoldable pub start : Batching
start = record { batches = []; current_batch = []; current_size = batch_header_size; msg_count = 0 }

-- The batch is complete: it is written, and the next one is begun.
unfoldable pub flush : Batching → Batching
flush b = record {
  batches = b.batches ++ ((b.msg_count ∷ b.current_batch) ∷ []);
  current_batch = [];
  current_size = batch_header_size;
  msg_count = 0;
}

-- `msg.len() as u16` keeps the low 16 bits.
unfoldable pub push : Batching → List ℕ → Batching
push b msg = record b {
  current_batch = b.current_batch ++ (u16_to_be_bytes (length msg % 0x10000) ++ msg);
  current_size = b.current_size + (batch_length_size + length msg);
  msg_count = b.msg_count + 1;
}

unfoldable pub flush_before : ℕ → Batching → List ℕ → Batching
flush_before max_size b msg =
    if ltb max_size (b.current_size + (batch_length_size + length msg)) && ltb 0 b.msg_count
    then flush b
    else b

unfoldable pub flush_after : Batching → Batching
flush_after b = if b.msg_count == max_batch_messages then flush b else b

-- the body of the loop
unfoldable pub add : ℕ → Batching → List ℕ → Batching
add max_size b msg = flush_after (push (flush_before max_size b msg) msg)

unfoldable pub add_all : ℕ → Batching → List (List ℕ) → Batching
add_all max_size b [] = b
add_all max_size b (msg ∷ msgs) = add_all max_size (add max_size b msg) msgs

unfoldable pub finish : Batching → List (List ℕ)
finish b = if ltb 0 b.msg_count then (flush b).batches else b.batches

unfoldable pub batch_messages : List (List ℕ) → ℕ → List (List ℕ)
batch_messages messages max_size = finish (add_all max_size start messages)

-- `n` rounds of the loop of `unbatch_messages`
unfoldable pub unbatch_from : ℕ → List ℕ → ℕ → List (List ℕ) → Option (List (List ℕ))
unbatch_from zero d offset messages = some messages
unbatch_from (suc n) d offset messages =
    let len = u16_from_be_bytes (get_or d offset 0) (get_or d (offset + 1) 0) in
    let rest =
      unbatch_from n d (offset + 2 + len) (messages ++ (take len (drop (offset + 2) d) ∷ [])) in
    if ltb (length d) (offset + 2)
    then none
    else if ltb (length d) (offset + 2 + len)
    then none
    else rest

unfoldable pub unbatch_messages : List ℕ → Option (List (List ℕ))
unbatch_messages [] = none
unbatch_messages (count ∷ rest) = unbatch_from count (count ∷ rest) 1 []
