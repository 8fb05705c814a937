-- ===== src/Fragment/Tests.antt =====
-- Runs of the fragmentation of gbnet/src/fragment.rs.
use gbnet.Prelude.{
  ℕ, ◌+◌, ◌*◌, ◌<◌, ◌≡◌, ◌↔◌, refl, none, some, List, [], ◌∷◌, ok, err, arith, length, get_or,
  replicate,
}
use gbnet.Prelude.Maps.{lookup, retain}
use gbnet.Fragment.{
  FragmentHeader, FragmentAssembler, too_many_fragments, serialize, deserialize, chunk,
  fragments_from, fragment_message, max_fragment_count, new_assembler, total_sizes, cleanup,
  process_fragment,
}
use gbnet.Fragment.Split.{fragment_message_err}
use gbnet.Fragment.RoundTrip.{fragment_roundtrip, deliver}
use gbnet.Fragment.Sizes.{process_fragment-IsTracked, process_fragment_repeated, IsTracked, drift}

abbrev header : FragmentHeader
header = record { message_id = 258; fragment_index = 1; fragment_count = 3 }

abbrev message : List ℕ
message = 1 ∷ 2 ∷ 3 ∷ 4 ∷ 5 ∷ []

-- The message in payloads of two bytes.
abbrev pieces : List (List ℕ)
pieces =
    (0 ∷ 0 ∷ 0 ∷ 7 ∷ 0 ∷ 3 ∷ 1 ∷ 2 ∷ [])
    ∷ (0 ∷ 0 ∷ 0 ∷ 7 ∷ 1 ∷ 3 ∷ 3 ∷ 4 ∷ [])
    ∷ (0 ∷ 0 ∷ 0 ∷ 7 ∷ 2 ∷ 3 ∷ 5 ∷ [])
    ∷ []

message-pieces : fragment_message 7 message 2 ≡ ok pieces
unfolding fragment_message fragments_from chunk serialize
message-pieces = refl

fragment_message_err_example :
    (fragment_message 7 message 2 ≡ err too_many_fragments)
    ↔ (max_fragment_count * 2 < length message)
fragment_message_err_example = fragment_message_err 7 message 2 (λ e. absurd (omega arith))

abbrev chunks : List (List ℕ)
chunks = (1 ∷ 2 ∷ []) ∷ (3 ∷ []) ∷ []

abbrev assembler : FragmentAssembler
assembler = new_assembler 100 1000

-- The last fragment comes first and twice; the middle one completes the message.
fragment_roundtrip_example :
    ((deliver assembler pieces ((2, 10) ∷ (0, 20) ∷ (2, 30) ∷ [])).1 ≡ replicate 3 none)
    × ((process_fragment
          (deliver assembler pieces ((2, 10) ∷ (0, 20) ∷ (2, 30) ∷ [])).0
          40
          (get_or pieces 1 [])).1
        ≡ some message)
unfolding new_assembler lookup
fragment_roundtrip_example =
    fragment_roundtrip 7 message 2 assembler ((2, 10) ∷ (0, 20) ∷ (2, 30) ∷ []) 1 40 10 40
      (omega arith) (λ e. absurd (omega arith)) (λ e. absurd (omega arith)) message-pieces refl
      (omega arith) (omega arith)
      (
        (omega arith, omega arith, omega arith),
        ((omega arith, omega arith, omega arith), ((omega arith, omega arith, omega arith), tt)),
      )
      (omega arith, omega arith, omega arith) refl refl

process_fragment-IsTracked_example :
    IsTracked (process_fragment assembler 10 (get_or pieces 0 [])).0
unfolding new_assembler total_sizes
process_fragment-IsTracked_example =
    process_fragment-IsTracked assembler 10 (get_or pieces 0 []) (omega arith)

-- One fragment of the message has arrived.
abbrev started : FragmentAssembler
started = record {
  buffers =
      (
        7,
        record {
          fragments = some (1 ∷ 2 ∷ []) ∷ none ∷ none ∷ [];
          fragment_count = 3;
          received_count = 1;
          created_at = 10;
          total_size = 2;
        },
      )
      ∷ [];
  timeout = 100;
  max_buffer_size = 1000;
  current_buffer_size = 2;
}

process_fragment_repeated_example :
    drift (process_fragment started 20 (get_or pieces 0 [])).0 ≡ drift started + 2
unfolding cleanup retain lookup total_sizes deserialize
process_fragment_repeated_example =
    process_fragment_repeated started 20 (get_or pieces 0 []) (1 ∷ 2 ∷ [])
      (record { message_id = 7; fragment_index = 0; fragment_count = 3 })
      (record {
        fragments = some (1 ∷ 2 ∷ []) ∷ none ∷ none ∷ [];
        fragment_count = 3;
        received_count = 1;
        created_at = 10;
        total_size = 2;
      })
      (omega arith) refl refl refl (omega arith) refl (omega arith)
