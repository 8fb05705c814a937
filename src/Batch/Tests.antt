-- ===== src/Batch/Tests.antt =====
-- Runs of the batching of gbnet/src/congestion.rs.
use gbnet.Prelude.{ℕ, ◌≡◌, some, List, [], ◌∷◌, All, arith}
use gbnet.Batch.{batch_messages}
use gbnet.Batch.Loop.{IsBatch, unbatch_all}
use gbnet.Batch.RoundTrip.{batch_messages_roundtrip}

abbrev messages : List (List ℕ)
messages = (1 ∷ 2 ∷ []) ∷ [] ∷ (3 ∷ []) ∷ []

batch_messages_roundtrip_example :
    (unbatch_all (batch_messages messages 8) ≡ some messages)
    × All (IsBatch 8) (batch_messages messages 8)
batch_messages_roundtrip_example =
    batch_messages_roundtrip messages 8 (omega arith, (omega arith, (omega arith, tt)))
