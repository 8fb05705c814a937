-- ===== src/Fragment/Reassembly.antt =====
-- `FragmentAssembler::process_fragment` of gbnet/src/fragment.rs, given the fragments of one
-- message in any order, with repetitions, and with fragments of other messages in progress.
use mathlib.Core.List.{flatten}
use gbnet.Prelude.{
  ℕ, ◌+◌, ◌-◌, ◌≤◌, ◌<◌, ◌≡◌, refl, false, none, some, List, [], ◌∷◌, ◌++◌, length, drop, get_or,
  ==_refl, arith, ltb, if◌then◌else◌,
}
use gbnet.Prelude.Maps.{lookup, lookup-insert, lookup-retain, Fresh-retain}
use gbnet.Fragment.{
  fragment_header_size, FragmentHeader, FragmentBuffer, FragmentAssembler, serialize, deserialize,
  new_buffer, insert_fragment, cleanup, count_differs, entry_or_new, store_fragment, make_room,
  process_fragment, drop_buffer, fill, expire_oldest,
}
use gbnet.Fragment.Split.{deserialize-serialize}
use gbnet.Fragment.Buffer.{
  covers, Received, new_buffer-Received, insert_fragment-Received, insert_fragment_complete,
  assemble-Received,
}

-- The fragment `i` of the message `id` with the chunks `cs`, as `fragment_message` writes it.
abbrev pub wire_fragment : ℕ → List (List ℕ) → ℕ → List ℕ
wire_fragment id cs i =
    serialize (record { message_id = id; fragment_index = i; fragment_count = length cs })
    ++ get_or cs i []

-- The assembler has got the fragments `is` of the message, the first of them at `t0` or later.
pub data InProgress (id t0 : ℕ) (cs : List (List ℕ)) : List ℕ → FragmentAssembler → Type 0 where
  unseen : (a : FragmentAssembler) → lookup id a.buffers ≡ none → InProgress id t0 cs [] a
  partial :
      (is : List ℕ) (a : FragmentAssembler) (b : FragmentBuffer)
      → lookup id a.buffers ≡ some b
      → Received cs is b
      → t0 ≤ b.created_at
      → InProgress id t0 cs is a

abbrev header_of : ℕ → List (List ℕ) → ℕ → FragmentHeader
header_of id cs i = record { message_id = id; fragment_index = i; fragment_count = length cs }

created_at-insert_fragment :
    (b : FragmentBuffer) (i : ℕ) (d : List ℕ) → (insert_fragment b i d).0.created_at ≡ b.created_at
unfolding insert_fragment fill
created_at-insert_fragment b i d = ground arith

pub process_fragment_accepts :
    (now : ℕ) (a : FragmentAssembler) (w : List ℕ) (h : FragmentHeader)
    → deserialize w ≡ some h
    → count_differs (cleanup a now) h ≡ false
    → process_fragment a now w ≡ store_fragment (cleanup a now) now h (drop fragment_header_size w)
unfolding process_fragment
process_fragment_accepts now a w h e same = rw (e, process_fragment) (rw same refl)

module _ (id t0 t1 : ℕ) (cs : List (List ℕ)) where
  cleanup-InProgress :
      {is : List ℕ} {a : FragmentAssembler} (now : ℕ)
      → now ≤ t1
      → t1 - t0 < a.timeout
      → InProgress id t0 cs is a
      → InProgress id t0 cs is (cleanup a now)
  unfolding cleanup
  cleanup-InProgress now h k (unseen a e) = unseen _ (Fresh-retain id _ a.buffers e)
  cleanup-InProgress now h k (partial is a b e r c) =
      partial is _ b (lookup-retain id _ a.buffers b e (ground arith)) r c

  -- What `process_fragment` finds under the message's id.
  entry_lem :
      (now i : ℕ) {is : List ℕ} {a : FragmentAssembler}
      → t0 ≤ now
      → InProgress id t0 cs is a
      → Received cs is (entry_or_new a (header_of id cs i) now)
        × (t0 ≤ (entry_or_new a (header_of id cs i) now).created_at)
        × (count_differs a (header_of id cs i) ≡ false)
  unfolding new_buffer
  entry_lem now i h (unseen a e) =
      rw (e, entry_or_new, count_differs) (new_buffer-Received cs now, h, refl)
  entry_lem now i h (partial is a b e r c) =
      rw (e, entry_or_new, count_differs) (r, c, ground (arith, r.count))

  -- One fragment, past `cleanup` and the test on the count.
  store_fragment_lem :
      (now i : ℕ) {is : List ℕ} {a : FragmentAssembler}
      → i < length cs
      → t0 ≤ now
      → a.current_buffer_size + length (get_or cs i []) ≤ a.max_buffer_size
      → InProgress id t0 cs is a
      → let (a', out) = store_fragment a now (header_of id cs i) (get_or cs i []) in
        (out ≡ (if covers (i ∷ is) (length cs) 0 then some (flatten cs) else none))
        × (covers (i ∷ is) (length cs) 0 ≡ false → InProgress id t0 cs (i ∷ is) a')
  unfolding store_fragment make_room
  store_fragment_lem now i {is} {a} lt h room p =
      let (r, c, _) = entry_lem now i h p in
      let b = entry_or_new a (header_of id cs i) now in
      let got = insert_fragment-Received cs is i b lt r in
      let done = insert_fragment_complete cs is i b lt r in
      let text = assemble-Received cs (i ∷ is) (insert_fragment b i (get_or cs i [])).0 got in
      let fits : ltb a.max_buffer_size (a.current_buffer_size + length (get_or cs i [])) ≡ false =
        ground arith in
      rw fits (
        ground (arith, done, text),
        λ open_.
            rw (done, open_)
              (partial (i ∷ is) _ (insert_fragment b i (get_or cs i [])).0
                (rw (lookup-insert, ==_refl id) refl) got
                (rw (created_at-insert_fragment b i (get_or cs i [])) c)),
      )

  -- What `process_fragment` leaves of the sizes and the bounds.
  store_fragment_frame :
      (now : ℕ) (h : FragmentHeader) (payload : List ℕ) (a : FragmentAssembler)
      → let a' = (store_fragment a now h payload).0 in
        (a'.timeout ≡ a.timeout)
        × (a'.max_buffer_size ≡ a.max_buffer_size)
        × (a'.current_buffer_size ≤ a.current_buffer_size + length payload)
  unfolding store_fragment make_room drop_buffer expire_oldest
  store_fragment_frame now h payload a = ground arith

  -- The fragment `i` arrives at the time `now`.
  pub process_fragment_lem :
      (now i : ℕ) {is : List ℕ} {a : FragmentAssembler}
      → id < 0x100000000
      → i < length cs
      → t0 ≤ now
      → now ≤ t1
      → t1 - t0 < a.timeout
      → a.current_buffer_size + length (get_or cs i []) ≤ a.max_buffer_size
      → InProgress id t0 cs is a
      → let (a', out) = process_fragment a now (wire_fragment id cs i) in
        (out ≡ (if covers (i ∷ is) (length cs) 0 then some (flatten cs) else none))
        × (covers (i ∷ is) (length cs) 0 ≡ false → InProgress id t0 cs (i ∷ is) a')
        × (a'.timeout ≡ a.timeout)
        × (a'.max_buffer_size ≡ a.max_buffer_size)
        × (a'.current_buffer_size ≤ a.current_buffer_size + length (get_or cs i []))
  unfolding cleanup
  process_fragment_lem now i {is} {a} small lt lo hi young room p =
      let q = cleanup-InProgress now hi young p in
      let (read, rest) = deserialize-serialize (header_of id cs i) (get_or cs i []) small in
      let (_, _, same) = entry_lem now i lo q in
      let room' : (cleanup a now).current_buffer_size + length (get_or cs i [])
          ≤ (cleanup a now).max_buffer_size =
        omega arith in
      let (out, next) = store_fragment_lem now i lt lo room' q in
      let (f0, f1, f2) =
        store_fragment_frame now (header_of id cs i) (get_or cs i []) (cleanup a now) in
      rw
        (process_fragment_accepts now a (wire_fragment id cs i) (header_of id cs i) read same, rest)
        (out, next, f0, f1, omega (arith, f2))
