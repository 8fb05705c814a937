-- ===== src/Fragment.antt =====
-- Splitting and reassembly of messages, gbnet/src/fragment.rs. A byte slice is a list of numbers,
-- `Instant::now()` is the argument `now`, and `elapsed()` is `now` less the instant, 0 at least.
pub mod Split
pub mod Buffer
pub mod Reassembly
pub mod RoundTrip
pub mod Sizes
mod Tests
use gbnet.Prelude.{
  ℕ, zero, suc, ◌+◌, ◌-◌, ◌*◌, ◌/◌, ◌%◌, ◌≡◌, min, Bool, true, false, not, ◌||◌, Option, none, some,
  List, [], ◌∷◌, ◌++◌, Result, ok, err, ltb, leb, ◌==◌, if◌then◌else◌, length, get_or, set, take,
  drop, replicate,
}
use gbnet.Prelude.Bytes.{u32_to_be_bytes, u32_from_be_bytes}
use gbnet.Prelude.Maps.{Map, lookup, insert, remove, retain, min_by_key}

abbrev pub fragment_header_size : ℕ
fragment_header_size = 6

abbrev pub max_fragment_count : ℕ
max_fragment_count = 255

pub data FragmentError : Type 0 where
  too_many_fragments : FragmentError

pub record FragmentHeader : Type 0 where
  pub message_id : ℕ
  pub fragment_index : ℕ
  pub fragment_count : ℕ

unfoldable pub serialize : FragmentHeader → List ℕ
serialize h = u32_to_be_bytes h.message_id ++ (h.fragment_index ∷ h.fragment_count ∷ [])

unfoldable pub deserialize : List ℕ → Option FragmentHeader
deserialize d =
    if ltb (length d) fragment_header_size
    then none
    else some (record {
      message_id = u32_from_be_bytes (get_or d 0 0) (get_or d 1 0) (get_or d 2 0) (get_or d 3 0);
      fragment_index = get_or d 4 0;
      fragment_count = get_or d 5 0;
    })

-- `usize::div_ceil`
abbrev pub div_ceil : ℕ → ℕ → ℕ
div_ceil a b = if a % b == 0 then a / b else a / b + 1

-- `data[start..end]` of the loop's round `i`
unfoldable pub chunk : List ℕ → ℕ → ℕ → List ℕ
chunk d max_payload i =
    let start = i * max_payload in
    let end = min ((i + 1) * max_payload) (length d) in take (end - start) (drop start d)

-- `n` rounds of the loop of `fragment_message`, from round `i` on
unfoldable pub fragments_from : ℕ → ℕ → ℕ → List ℕ → ℕ → ℕ → List (List ℕ)
fragments_from zero i message_id d max_payload count = []
fragments_from (suc n) i message_id d max_payload count =
    (serialize (record { message_id = message_id; fragment_index = i; fragment_count = count })
      ++ chunk d max_payload i)
    ∷ fragments_from n (i + 1) message_id d max_payload count

unfoldable pub fragment_message : ℕ → List ℕ → ℕ → Result (List (List ℕ)) FragmentError
fragment_message message_id d max_payload =
    if length d == 0 || max_payload == 0
    then ok []
    else let count = div_ceil (length d) max_payload in
      if ltb max_fragment_count count
      then err too_many_fragments
      else ok (fragments_from count 0 message_id d max_payload count)

pub record FragmentBuffer : Type 0 where
  pub fragments : List (Option (List ℕ))
  pub fragment_count : ℕ
  pub received_count : ℕ
  pub created_at : ℕ
  pub total_size : ℕ

unfoldable pub new_buffer : ℕ → ℕ → FragmentBuffer
new_buffer count now = record {
  fragments = replicate count none;
  fragment_count = count;
  received_count = 0;
  created_at = now;
  total_size = 0;
}

abbrev pub is_complete : FragmentBuffer → Bool
is_complete b = b.received_count == b.fragment_count

-- The write of a slot that is empty.
unfoldable pub fill : FragmentBuffer → ℕ → List ℕ → FragmentBuffer
fill b index payload = elim (get_or b.fragments index none) [
  | none ↦ record b {
    fragments = set b.fragments index (some payload);
    received_count = b.received_count + 1;
    total_size = b.total_size + length payload;
  }
  | some _ ↦ b
]

-- `FragmentBuffer::insert`, with what it returns
unfoldable pub insert_fragment : FragmentBuffer → ℕ → List ℕ → FragmentBuffer × Bool
insert_fragment b index payload =
    if leb b.fragment_count index
    then (b, false)
    else let b' = fill b index payload in (b', is_complete b')

-- The loop of `assemble`.
unfoldable pub collect : List (Option (List ℕ)) → List ℕ → Option (List ℕ)
collect [] acc = some acc
collect (none ∷ fs) acc = none
collect (some d ∷ fs) acc = collect fs (acc ++ d)

unfoldable pub assemble : FragmentBuffer → Option (List ℕ)
assemble b = if is_complete b then collect b.fragments [] else none

pub record FragmentAssembler : Type 0 where
  pub buffers : Map FragmentBuffer
  pub timeout : ℕ
  pub max_buffer_size : ℕ
  pub current_buffer_size : ℕ

unfoldable pub new_assembler : ℕ → ℕ → FragmentAssembler
new_assembler timeout max_buffer_size = record {
  buffers = [];
  timeout = timeout;
  max_buffer_size = max_buffer_size;
  current_buffer_size = 0;
}

-- the sum of `total_size` over the buffers
unfoldable pub total_sizes : Map FragmentBuffer → ℕ
total_sizes [] = 0
total_sizes ((k, b) ∷ m) = b.total_size + total_sizes m

abbrev pub is_young : ℕ → ℕ → FragmentBuffer → Bool
is_young now timeout b = ltb (now - b.created_at) timeout

-- The `removed_size` of `cleanup` is the sum over the buffers that are not kept.
unfoldable pub cleanup : FragmentAssembler → ℕ → FragmentAssembler
cleanup a now = record a {
  buffers = retain (λ _ b. is_young now a.timeout b) a.buffers;
  current_buffer_size =
      a.current_buffer_size
      - total_sizes (retain (λ _ b. not (is_young now a.timeout b)) a.buffers);
}

-- `buffers.remove(id)`, and the subtraction of what is removed
unfoldable pub drop_buffer : FragmentAssembler → ℕ → FragmentAssembler
drop_buffer a id = elim (lookup id a.buffers) [
  | none ↦ a
  | some b ↦ record a {
    buffers = remove id a.buffers;
    current_buffer_size = a.current_buffer_size - b.total_size;
  }
]

unfoldable pub expire_oldest : FragmentAssembler → FragmentAssembler
expire_oldest a = elim (min_by_key (λ b. b.created_at) a.buffers) [
  | none ↦ a
  | some id ↦ drop_buffer a id
]

abbrev pub count_differs : FragmentAssembler → FragmentHeader → Bool
count_differs a h = elim (lookup h.message_id a.buffers) [
  | none ↦ false
  | some existing ↦ not (existing.fragment_count == h.fragment_count)
]

abbrev pub entry_or_new : FragmentAssembler → FragmentHeader → ℕ → FragmentBuffer
entry_or_new a h now = elim (lookup h.message_id a.buffers) [
  | none ↦ new_buffer h.fragment_count now
  | some b ↦ b
]

-- the budget test of `process_fragment`
unfoldable pub make_room : FragmentAssembler → ℕ → FragmentAssembler
make_room a size =
    if ltb a.max_buffer_size (a.current_buffer_size + size) then expire_oldest a else a

-- `process_fragment` from the budget test on
unfoldable pub store_fragment :
    FragmentAssembler → ℕ → FragmentHeader → List ℕ → FragmentAssembler × Option (List ℕ)
store_fragment a now h payload =
    let a' = make_room a (length payload) in
    let (b, complete) = insert_fragment (entry_or_new a' h now) h.fragment_index payload in
    let a'' = record a' {
      buffers = insert h.message_id b a'.buffers;
      current_buffer_size = a'.current_buffer_size + length payload;
    } in
    if complete then (drop_buffer a'' h.message_id, assemble b) else (a'', none)

unfoldable pub process_fragment :
    FragmentAssembler → ℕ → List ℕ → FragmentAssembler × Option (List ℕ)
process_fragment a now d =
    let a' = cleanup a now in
    elim (deserialize d) [
      | none ↦ (a', none)
      | some h ↦
          if count_differs a' h
          then (a', none)
          else store_fragment a' now h (drop fragment_header_size d)
    ]
