-- ===== src/Fragment/Sizes.antt =====
-- The accounting of `current_buffer_size` in gbnet/src/fragment.rs.
use gbnet.Prelude.{
  ℕ, ◌+◌, ◌-◌, ◌≤◌, ◌<◌, ◌≡◌, refl, inl, inr, ◌∙◌, Bool, Bool-cases, false, not, Option-cases, none,
  some, List, [], ◌∷◌, length, get_or, drop, arith, leb, if◌then◌else◌,
}
use gbnet.Prelude.Maps.{Map, lookup, insert, remove, retain, min_by_key}
use gbnet.Fragment.Reassembly.{process_fragment_accepts}
use gbnet.Fragment.{
  FragmentHeader, FragmentBuffer, FragmentAssembler, fragment_header_size, deserialize, new_buffer,
  fill, insert_fragment, total_sizes, is_young, cleanup, drop_buffer, expire_oldest, count_differs,
  entry_or_new, make_room, store_fragment, process_fragment,
}

-- The size that is counted under an id.
abbrev size_at : ℕ → Map FragmentBuffer → ℕ
size_at k m = elim (lookup k m) [ none ↦ 0 | some b ↦ b.total_size ]

total_sizes-insert :
    (k : ℕ) (b : FragmentBuffer) (m : Map FragmentBuffer)
    → total_sizes (insert k b m) + size_at k m ≡ total_sizes m + b.total_size
unfolding total_sizes insert lookup
total_sizes-insert k b [] = omega arith
total_sizes-insert k b ((j, c) ∷ m) = ground (arith, total_sizes-insert k b m)

total_sizes-remove :
    (k : ℕ) (m : Map FragmentBuffer) → total_sizes (remove k m) + size_at k m ≡ total_sizes m
unfolding total_sizes remove lookup
total_sizes-remove k [] = refl
total_sizes-remove k ((j, c) ∷ m) = ground (arith, total_sizes-remove k m)

total_sizes-retain :
    (p : FragmentBuffer → Bool) (m : Map FragmentBuffer)
    → total_sizes (retain (λ _ b. p b) m) + total_sizes (retain (λ _ b. not (p b)) m)
      ≡ total_sizes m
unfolding total_sizes retain
total_sizes-retain p [] = refl
total_sizes-retain p ((j, c) ∷ m) = ground (arith, total_sizes-retain p m)

-- The tracked size is at least what the buffers hold.
abbrev pub IsTracked : FragmentAssembler → Type 0
IsTracked a = total_sizes a.buffers ≤ a.current_buffer_size

-- How far the tracked size is above what the buffers hold.
abbrev pub drift : FragmentAssembler → ℕ
drift a = a.current_buffer_size - total_sizes a.buffers

cleanup-IsTracked :
    (a : FragmentAssembler) (now : ℕ)
    → IsTracked a
    → IsTracked (cleanup a now) × (drift (cleanup a now) ≡ drift a)
unfolding cleanup
cleanup-IsTracked a now h =
    omega (arith, total_sizes-retain (λ b. is_young now a.timeout b) a.buffers)

drop_buffer-IsTracked :
    (a : FragmentAssembler) (id : ℕ)
    → IsTracked a
    → IsTracked (drop_buffer a id) × (drift (drop_buffer a id) ≡ drift a)
unfolding drop_buffer
drop_buffer-IsTracked a id h = ground (arith, total_sizes-remove id a.buffers)

expire_oldest-IsTracked :
    (a : FragmentAssembler)
    → IsTracked a
    → IsTracked (expire_oldest a) × (drift (expire_oldest a) ≡ drift a)
unfolding expire_oldest
expire_oldest-IsTracked a h =
    elim (Option-cases (min_by_key (λ (b : FragmentBuffer). b.created_at) a.buffers)) [
      | inl e ↦ rw (e, expire_oldest) (h, refl)
      | inr (id, e) ↦ rw (e, expire_oldest) (drop_buffer-IsTracked a id h)
    ]

-- What a fragment adds to its buffer.
abbrev added_size : FragmentBuffer → ℕ → List ℕ → ℕ
added_size b i payload =
    if leb b.fragment_count i
    then 0
    else elim (get_or b.fragments i none) [ none ↦ length payload | some _ ↦ 0 ]

insert_fragment_size :
    (b : FragmentBuffer) (i : ℕ) (payload : List ℕ)
    → ((insert_fragment b i payload).0.total_size ≡ b.total_size + added_size b i payload)
      × (added_size b i payload ≤ length payload)
unfolding insert_fragment fill
insert_fragment_size b i payload = ground arith

make_room-IsTracked :
    (a : FragmentAssembler) (n : ℕ)
    → IsTracked a
    → IsTracked (make_room a n) × (drift (make_room a n) ≡ drift a)
unfolding make_room
make_room-IsTracked a n h = ground (arith, expire_oldest-IsTracked a h)

total_size-entry_or_new :
    (a : FragmentAssembler) (h : FragmentHeader) (now : ℕ)
    → (entry_or_new a h now).total_size ≡ size_at h.message_id a.buffers
unfolding new_buffer
total_size-entry_or_new a h now = ground arith

-- The size before a fragment that is accepted, past the budget test.
abbrev pub before : FragmentAssembler → List ℕ → FragmentAssembler
before a payload = make_room a (length payload)

store_fragment-drift :
    (a : FragmentAssembler) (now : ℕ) (h : FragmentHeader) (payload : List ℕ)
    → IsTracked a
    → let b = entry_or_new (before a payload) h now in
      let a' = (store_fragment a now h payload).0 in
      IsTracked a' × (drift a' ≡ drift a + (length payload - added_size b h.fragment_index payload))
unfolding store_fragment
store_fragment-drift a now h payload t =
    let a' = before a payload in
    let (t', d) = make_room-IsTracked a (length payload) t in
    let b = entry_or_new a' h now in
    let b' = (insert_fragment b h.fragment_index payload).0 in
    let (grown, most) = insert_fragment_size b h.fragment_index payload in
    let same = total_size-entry_or_new a' h now in
    let sum = total_sizes-insert h.message_id b' a'.buffers in
    let a'' : FragmentAssembler = record a' {
      buffers = insert h.message_id b' a'.buffers;
      current_buffer_size = a'.current_buffer_size + length payload;
    } in
    let t'' : IsTracked a'' = omega (arith, t', grown, same, sum, most) in
    let d'' : drift a'' ≡ drift a + (length payload - added_size b h.fragment_index payload) =
      omega (arith, t', d, grown, same, sum, most) in
    let (t3, d3) = drop_buffer-IsTracked a'' h.message_id t'' in
    elim (Bool-cases (insert_fragment b h.fragment_index payload).1) [
      | inl e ↦ rw e (t3, d3 ∙ d'')
      | inr e ↦ rw e (t'', d'')
    ]

-- The tracked size never falls below what the buffers hold, whatever arrives.
pub process_fragment-IsTracked :
    (a : FragmentAssembler) (now : ℕ) (w : List ℕ)
    → IsTracked a
    → IsTracked (process_fragment a now w).0
unfolding process_fragment
process_fragment-IsTracked a now w t =
    let t' = (cleanup-IsTracked a now t).0 in
    elim (Option-cases (deserialize w)) [
      | inl e ↦ rw (e, process_fragment) t'
      | inr (h, e) ↦
          rw (e, process_fragment)
            (elim (Bool-cases (count_differs (cleanup a now) h)) [
              | inl x ↦ rw x t'
              | inr x ↦ rw x (store_fragment-drift (cleanup a now) now h _ t').0
            ])
    ]

-- A fragment that has arrived already is counted once more, though nothing is stored: a repeated
-- fragment of a message in progress, within the timeout and the budget, moves the tracked size
-- above what the buffers hold by the length of its payload.
pub process_fragment_repeated :
    (a : FragmentAssembler) (now : ℕ) (w payload : List ℕ) (h : FragmentHeader) (b : FragmentBuffer)
    → IsTracked a
    → deserialize w ≡ some h
    → lookup h.message_id (cleanup a now).buffers ≡ some b
    → b.fragment_count ≡ h.fragment_count
    → h.fragment_index < b.fragment_count
    → get_or b.fragments h.fragment_index none ≡ some payload
    → (cleanup a now).current_buffer_size + length (drop fragment_header_size w) ≤ a.max_buffer_size
    → drift (process_fragment a now w).0 ≡ drift a + length (drop fragment_header_size w)
process_fragment_repeated a now w payload h b t read found same within held room =
    let (t', d') = cleanup-IsTracked a now t in
    let rest = drop fragment_header_size w in
    let agrees : count_differs (cleanup a now) h ≡ false = ground arith in
    let enough : before (cleanup a now) rest ≡ cleanup a now =
      unfold make_room cleanup in ground arith in
    let entry : entry_or_new (before (cleanup a now) rest) h now ≡ b =
      rw (enough, entry_or_new) (rw found refl) in
    let none_ : added_size b h.fragment_index rest ≡ 0 = ground arith in
    let d = (store_fragment-drift (cleanup a now) now h rest t').1 in
    rw (process_fragment_accepts now a w h read agrees) (omega (arith, d', none_, rw entry at d))
