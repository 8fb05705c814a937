-- ===== src/Fragment/RoundTrip.antt =====
-- Fragmentation and reassembly together, gbnet/src/fragment.rs: whatever the network does to the
-- order of the fragments, the message comes out.
use mathlib.Core.List.{flatten}
use mathlib.Core.Path.{ap₂}
use gbnet.Prelude.{
  ℕ, zero, suc, ◌+◌, ◌-◌, ◌*◌, ◌≤◌, ◌<◌, ◌≡◌, ◌≢◌, refl, ap, ◌∙◌, true, false, Option, none, some,
  ok, List, [], ◌∷◌, ◌++◌, length, get_or, replicate, arith, All,
}
use gbnet.Prelude.Maps.{lookup}
use gbnet.Fragment.{
  FragmentAssembler, serialize, process_fragment, fragments_from, fragment_message, div_ceil,
}
use gbnet.Fragment.Split.{
  chunks_from, fragment_message-eq-ok, length-fragments_from, length-chunks_from, length-chunk,
  flatten-chunks,
}
use gbnet.Fragment.Buffer.{covers}
use gbnet.Fragment.Reassembly.{wire_fragment, InProgress, unseen, process_fragment_lem}

-- Deliveries of fragments: which one, and when.
abbrev Deliveries : Type 0
Deliveries = List (ℕ × ℕ)

-- The indices that have arrived, the latest first.
abbrev pub seen : List ℕ → Deliveries → List ℕ
seen is [] = is
seen is ((i, t) ∷ ps) = seen (i ∷ is) ps

-- What the assembler returns for each delivery.
unfoldable pub deliver :
    FragmentAssembler → List (List ℕ) → Deliveries → FragmentAssembler × List (Option (List ℕ))
deliver a fs [] = (a, [])
deliver a fs ((i, t) ∷ ps) =
    let (a', out) = process_fragment a t (get_or fs i []) in
    let (a'', outs) = deliver a' fs ps in (a'', out ∷ outs)

-- The bytes of payload that are delivered.
abbrev delivered_bytes : List (List ℕ) → Deliveries → ℕ
delivered_bytes cs [] = 0
delivered_bytes cs ((i, t) ∷ ps) = length (get_or cs i []) + delivered_bytes cs ps

-- The deliveries name fragments that there are, at times from `t0` to `t1`.
abbrev IsWithin : ℕ → ℕ → ℕ → ℕ × ℕ → Type 0
IsWithin n t0 t1 p = (p.0 < n) × (t0 ≤ p.1) × (p.1 ≤ t1)

covers_mono : (i : ℕ) (is : List ℕ) (n k : ℕ) → covers (i ∷ is) n k ≡ false → covers is n k ≡ false
covers_mono i is zero k h = h
covers_mono i is (suc n) k h = ground (arith, covers_mono i is n (k + 1))

covers-seen :
    (is : List ℕ) (ps : Deliveries) (n : ℕ)
    → covers (seen is ps) n 0 ≡ false
    → covers is n 0 ≡ false
covers-seen is [] n h = h
covers-seen is ((i, t) ∷ ps) n h = covers_mono i is n 0 (covers-seen (i ∷ is) ps n h)

module _ (id t0 t1 : ℕ) (cs fs : List (List ℕ)) where
  -- Until every fragment has been seen, each delivery returns nothing.
  deliver-InProgress :
      (ps : Deliveries) {is : List ℕ} {a : FragmentAssembler}
      → id < 0x100000000
      → ((i : ℕ) → i < length cs → get_or fs i [] ≡ wire_fragment id cs i)
      → All (IsWithin (length cs) t0 t1) ps
      → t1 - t0 < a.timeout
      → a.current_buffer_size + delivered_bytes cs ps ≤ a.max_buffer_size
      → covers (seen is ps) (length cs) 0 ≡ false
      → InProgress id t0 cs is a
      → let (a', outs) = deliver a fs ps in
        (outs ≡ replicate (length ps) none)
        × InProgress id t0 cs (seen is ps) a'
        × (a'.timeout ≡ a.timeout)
        × (a'.max_buffer_size ≡ a.max_buffer_size)
        × (a'.current_buffer_size ≤ a.current_buffer_size + delivered_bytes cs ps)
  unfolding deliver
  deliver-InProgress [] small wire ws young room nc p = (refl, p, refl, refl, omega arith)
  deliver-InProgress ((i, t) ∷ ps) {is} {a} small wire ((lt, lo, hi), ws) young room nc p =
      let open_ = covers-seen (i ∷ is) ps (length cs) nc in
      let (out, next, f0, f1, f2) =
        process_fragment_lem id t0 t1 cs t i small lt lo hi young (omega arith) p in
      let (outs, q, g0, g1, g2) =
        deliver-InProgress ps small wire ws (rw f0 young) (omega (arith, f1, f2)) nc (next open_) in
      let nothing : (process_fragment a t (wire_fragment id cs i)).1 ≡ none = rw open_ at out in
      rw (wire i lt) (ap₂ ◌∷◌ nothing outs, q, g0 ∙ f0, g1 ∙ f1, omega (arith, g2, f2))

  -- The delivery after which every fragment has been seen returns the message.
  deliver_last :
      (ps : Deliveries) (i t : ℕ) (a : FragmentAssembler)
      → id < 0x100000000
      → ((j : ℕ) → j < length cs → get_or fs j [] ≡ wire_fragment id cs j)
      → lookup id a.buffers ≡ none
      → t1 - t0 < a.timeout
      → a.current_buffer_size + delivered_bytes cs ps + length (get_or cs i []) ≤ a.max_buffer_size
      → All (IsWithin (length cs) t0 t1) ps
      → IsWithin (length cs) t0 t1 (i, t)
      → covers (seen [] ps) (length cs) 0 ≡ false
      → covers (i ∷ seen [] ps) (length cs) 0 ≡ true
      → let (a', outs) = deliver a fs ps in
        (outs ≡ replicate (length ps) none)
        × ((process_fragment a' t (get_or fs i [])).1 ≡ some (flatten cs))
  deliver_last ps i t a small wire fresh young room ws (lt, lo, hi) open_ full =
      let (outs, q, f0, f1, f2) =
        deliver-InProgress ps small wire ws young (omega arith) open_ (unseen a fresh) in
      let out =
        (process_fragment_lem id t0 t1 cs t i small lt lo hi (rw f0 young) (omega (arith, f1, f2))
          q).0 in
      (outs, rw (wire i lt) (rw full at out))

get_or-fragments_from :
    (n k id : ℕ) (d : List ℕ) (m count i : ℕ)
    → i < n
    → get_or (fragments_from n k id d m count) i []
      ≡ serialize (record { message_id = id; fragment_index = k + i; fragment_count = count })
        ++ get_or (chunks_from n k d m) i []
unfolding fragments_from
get_or-fragments_from zero k id d m count i h = absurd (omega arith)
get_or-fragments_from (suc n) k id d m count zero h = let e : k + 0 ≡ k = omega arith in rw e
get_or-fragments_from (suc n) k id d m count (suc i) h =
    let e : k + suc i ≡ k + 1 + i = omega arith in
    rw e (get_or-fragments_from n (k + 1) id d m count i (omega arith))

fragment_of_chunks :
    (n id : ℕ) (d : List ℕ) (m j : ℕ)
    → j < length (chunks_from n 0 d m)
    → get_or (fragments_from n 0 id d m n) j [] ≡ wire_fragment id (chunks_from n 0 d m) j
fragment_of_chunks n id d m j h =
    let e : 0 + j ≡ j = omega arith in
    rw (length-chunks_from n 0 d m)
      (rw e at (get_or-fragments_from n 0 id d m n j (rw (length-chunks_from n 0 d m) at h)))

length-get_or-chunks_from :
    (n k : ℕ) (d : List ℕ) (m i : ℕ) → length (get_or (chunks_from n k d m) i []) ≤ m
length-get_or-chunks_from zero k d m i = omega arith
length-get_or-chunks_from (suc n) k d m zero = omega (arith, length-chunk d m k)
length-get_or-chunks_from (suc n) k d m (suc i) = length-get_or-chunks_from n (k + 1) d m i

delivered_bytes-le :
    (n : ℕ) (d : List ℕ) (m : ℕ) (ps : Deliveries)
    → delivered_bytes (chunks_from n 0 d m) ps ≤ m * length ps
delivered_bytes-le n d m [] = omega arith
delivered_bytes-le n d m ((i, t) ∷ ps) =
    omega (arith, length-get_or-chunks_from n 0 d m i, delivered_bytes-le n d m ps)

-- The fragments of a message, delivered in any order, with any repetitions and with other
-- messages in progress, give back the message: as long as one fragment is missing, each delivery
-- returns nothing, and the delivery of the last one missing returns the message. The message id
-- is a u32 that is not in progress, the deliveries lie within the timeout of the first, and the
-- payloads delivered fit into the budget.
pub fragment_roundtrip :
    (id : ℕ) (d : List ℕ) (m : ℕ) (a : FragmentAssembler) (ps : Deliveries) (i t t0 t1 : ℕ)
    {fs : List (List ℕ)}
    → id < 0x100000000
    → length d ≢ 0
    → m ≢ 0
    → fragment_message id d m ≡ ok fs
    → lookup id a.buffers ≡ none
    → t1 - t0 < a.timeout
    → a.current_buffer_size + m * (length ps + 1) ≤ a.max_buffer_size
    → All (IsWithin (length fs) t0 t1) ps
    → IsWithin (length fs) t0 t1 (i, t)
    → covers (seen [] ps) (length fs) 0 ≡ false
    → covers (i ∷ seen [] ps) (length fs) 0 ≡ true
    → let (a', outs) = deliver a fs ps in
      (outs ≡ replicate (length ps) none) × ((process_fragment a' t (get_or fs i [])).1 ≡ some d)
fragment_roundtrip id d m a ps i t t0 t1 {fs} small nd nm made fresh young room ws w open_ full =
    let n = div_ceil (length d) m in
    let cs = chunks_from n 0 d m in
    let (e, _) = fragment_message-eq-ok id d m nd nm made in
    let l : length fs ≡ length cs =
      rw (← e, length-fragments_from n 0 id d m n, length-chunks_from n 0 d m) in
    let (outs, out) =
      deliver_last id t0 t1 cs fs ps i t a small (λ j h. rw (← e) (fragment_of_chunks n id d m j h))
        fresh young
        (omega (arith, delivered_bytes-le n d m ps, length-get_or-chunks_from n 0 d m i))
        (rw l at ws) (rw l at w) (rw l at open_) (rw l at full) in
    (outs, out ∙ ap some (flatten-chunks d m nm))
