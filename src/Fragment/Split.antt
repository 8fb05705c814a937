-- ===== src/Fragment/Split.antt =====
-- `fragment_message` and `FragmentHeader` of gbnet/src/fragment.rs: what the fragments hold.
use mathlib.Core.List.{flatten}
use gbnet.Prelude.{
  ℕ, zero, suc, ◌+◌, ◌-◌, ◌*◌, ◌≤◌, ◌<◌, ◌≡◌, ◌≢◌, ◌↔◌, refl, sym, ap, ◌∙◌, min, some, List, [],
  ◌∷◌, ◌++◌, map, ok, err, length, take, drop, length-take, length-drop, mul_mono, arith,
  take-append-drop,
}
use native.Mathlib.Nat.{zero-add}
use native.Mathlib.Decide.{dec_lt}
use gbnet.Prelude.Bytes.{u32_from-to_be_bytes}
use gbnet.Fragment.{
  FragmentHeader, too_many_fragments, serialize, deserialize, div_ceil, chunk, fragments_from,
  fragment_message, fragment_header_size, max_fragment_count,
}

-- A header that is written is read back, whatever follows it.
pub deserialize-serialize :
    (h : FragmentHeader) (rest : List ℕ)
    → h.message_id < 0x100000000
    → (deserialize (serialize h ++ rest) ≡ some h)
      × (drop fragment_header_size (serialize h ++ rest) ≡ rest)
unfolding deserialize serialize
deserialize-serialize h rest lt = (ground (arith, u32_from-to_be_bytes h.message_id lt), refl)

take-nil : (n : ℕ) → take {A = ℕ} n [] ≡ []
take-nil zero = refl
take-nil (suc n) = refl

drop-nil : (n : ℕ) → drop {A = ℕ} n [] ≡ []
drop-nil zero = refl
drop-nil (suc n) = refl

take-min-length : (m : ℕ) (d : List ℕ) → take (min m (length d)) d ≡ take m d
take-min-length zero d = let e : min 0 (length d) ≡ 0 = omega arith in rw e
take-min-length (suc m) [] = take-nil (min (suc m) 0)
take-min-length (suc m) (x ∷ xs) =
    let e : min (suc m) (suc (length xs)) ≡ suc (min m (length xs)) = omega arith in
    rw e (ap (λ t. x ∷ t) (take-min-length m xs))

-- The part of `d` from `s` to `s + m`, or to the end, and what follows it.
take-drop-min :
    (s m : ℕ) (d : List ℕ)
    → take (min (s + m) (length d) - s) (drop s d) ++ drop (s + m) d ≡ drop s d
take-drop-min zero m d =
    let e : min (0 + m) (length d) - 0 ≡ min m (length d) = omega arith in
    let e' : 0 + m ≡ m = omega arith in rw (e, e', take-min-length m d) (take-append-drop m d)
take-drop-min (suc s) m [] = rw (take-nil, drop-nil)
take-drop-min (suc s) m (x ∷ xs) =
    let e : min (suc s + m) (suc (length xs)) - suc s ≡ min (s + m) (length xs) - s = omega arith in
    let e' : suc s + m ≡ suc (s + m) = omega arith in rw (e, e') (take-drop-min s m xs)

drop_all : (n : ℕ) (d : List ℕ) → length d ≤ n → drop n d ≡ []
drop_all zero [] h = refl
drop_all zero (x ∷ xs) h = absurd (omega arith)
drop_all (suc n) [] h = refl
drop_all (suc n) (x ∷ xs) h = drop_all n xs (omega arith)

-- The payloads of `n` fragments from the one with index `i` on.
abbrev pub chunks_from : ℕ → ℕ → List ℕ → ℕ → List (List ℕ)
chunks_from zero i d m = []
chunks_from (suc n) i d m = chunk d m i ∷ chunks_from n (i + 1) d m

pub length-chunks_from : (n i : ℕ) (d : List ℕ) (m : ℕ) → length (chunks_from n i d m) ≡ n
length-chunks_from zero i d m = refl
length-chunks_from (suc n) i d m = ap suc (length-chunks_from n (i + 1) d m)

chunk-append : (d : List ℕ) (m i : ℕ) → chunk d m i ++ drop ((i + 1) * m) d ≡ drop (i * m) d
unfolding chunk
chunk-append d m i =
    let e : (i + 1) * m ≡ i * m + m = omega arith in rw e (take-drop-min (i * m) m d)

flatten-chunks_from :
    (n i : ℕ) (d : List ℕ) (m : ℕ)
    → length d ≤ (i + n) * m
    → flatten (chunks_from n i d m) ≡ drop (i * m) d
unfolding flatten
flatten-chunks_from zero i d m h =
    let e : i + 0 ≡ i = omega arith in sym (drop_all (i * m) d (rw e at h))
flatten-chunks_from (suc n) i d m h =
    let e : i + suc n ≡ i + 1 + n = omega arith in
    ap (λ t. chunk d m i ++ t) (flatten-chunks_from n (i + 1) d m (rw e at h)) ∙ chunk-append d m i

div_ceil_covers : (a b : ℕ) → b ≢ 0 → a ≤ div_ceil a b * b
div_ceil_covers a b h = grind arith

div_ceil_least : (a b : ℕ) → b ≢ 0 → a ≢ 0 → (div_ceil a b - 1) * b < a
div_ceil_least a b h k = grind arith

div_ceil_pos : (a b : ℕ) → 255 < div_ceil a b → a ≢ 0
div_ceil_pos a b h = grind arith

div_ceil_past : (a b : ℕ) → b ≢ 0 → 255 < div_ceil a b → 255 * b < a
div_ceil_past a b h k = omega (
  arith,
  mul_mono 255 (div_ceil a b - 1) b (omega (arith, k)),
  div_ceil_least a b h (div_ceil_pos a b k),
)

past-div_ceil : (a b : ℕ) → b ≢ 0 → 255 * b < a → 255 < div_ceil a b
past-div_ceil a b h k = elim (dec_lt 255 (div_ceil a b)) [
  | yes p ↦ p
  | no p ↦
      absurd (omega (arith, mul_mono (div_ceil a b) 255 b (omega arith), div_ceil_covers a b h))
]

-- `fragment_message` as a list of headers and chunks.
fragments_from-chunks_from :
    (n i id : ℕ) (d : List ℕ) (m count : ℕ)
    → id < 0x100000000
    → map (drop fragment_header_size) (fragments_from n i id d m count) ≡ chunks_from n i d m
unfolding fragments_from serialize
fragments_from-chunks_from zero i id d m count lt = refl
fragments_from-chunks_from (suc n) i id d m count lt =
    ap (λ t. chunk d m i ∷ t) (fragments_from-chunks_from n (i + 1) id d m count lt)

pub length-fragments_from :
    (n i id : ℕ) (d : List ℕ) (m count : ℕ) → length (fragments_from n i id d m count) ≡ n
unfolding fragments_from
length-fragments_from zero i id d m count = refl
length-fragments_from (suc n) i id d m count = ap suc (length-fragments_from n (i + 1) id d m count)

pub length-chunk : (d : List ℕ) (m i : ℕ) → length (chunk d m i) ≡ min m (length d - i * m)
unfolding chunk
length-chunk d m i =
    let e : (i + 1) * m ≡ i * m + m = omega arith in
    rw e (
      omega (
        arith,
        length-take (min (i * m + m) (length d) - i * m) (drop (i * m) d),
        length-drop (i * m) d,
      ))

-- `f` is the fragment `i` of `count` of the message `id`, with 1 to `m` bytes of payload.
abbrev IsFragment : ℕ → ℕ → ℕ → ℕ → List ℕ → Type 0
IsFragment id m count i f =
    (deserialize f ≡ some (record { message_id = id; fragment_index = i; fragment_count = count }))
    × (1 ≤ length (drop fragment_header_size f))
    × (length (drop fragment_header_size f) ≤ m)

abbrev pub AreFragments : ℕ → ℕ → ℕ → ℕ → List (List ℕ) → Type 0
AreFragments id m count i [] = Unit
AreFragments id m count i (f ∷ fs) = IsFragment id m count i f × AreFragments id m count (i + 1) fs

below_end : (n i l m : ℕ) → (i + suc n - 1) * m < l → i * m < l
below_end n i l m h = grind arith

fragments_from-AreFragments :
    (n i id : ℕ) (d : List ℕ) (m count : ℕ)
    → id < 0x100000000
    → m ≢ 0
    → (n ≢ 0 → (i + n - 1) * m < length d)
    → AreFragments id m count i (fragments_from n i id d m count)
unfolding fragments_from serialize
fragments_from-AreFragments zero i id d m count lt ne h = tt
fragments_from-AreFragments (suc n) i id d m count lt ne h =
    let within : (i + suc n - 1) * m < length d = h (omega arith) in
    let e : i + suc n ≡ i + 1 + n = omega arith in
    let header : FragmentHeader = record {
      message_id = id;
      fragment_index = i;
      fragment_count = count;
    } in
    let (read, rest) = deserialize-serialize header (chunk d m i) lt in
    (
      (
        read,
        omega (arith, length-chunk d m i, below_end n i (length d) m within),
        omega (arith, length-chunk d m i),
      ),
      fragments_from-AreFragments n (i + 1) id d m count lt ne (λ _. rw e at within),
    )

-- `fragment_message` where it returns fragments.
pub fragment_message-eq-ok :
    (id : ℕ) (d : List ℕ) (m : ℕ) {fs : List (List ℕ)}
    → length d ≢ 0
    → m ≢ 0
    → fragment_message id d m ≡ ok fs
    → (fragments_from (div_ceil (length d) m) 0 id d m (div_ceil (length d) m) ≡ fs)
      × (div_ceil (length d) m ≤ max_fragment_count)
unfolding fragment_message
fragment_message-eq-ok id d m nd nm h = ground arith

-- The chunks make up the message.
pub flatten-chunks :
    (d : List ℕ) (m : ℕ) → m ≢ 0 → flatten (chunks_from (div_ceil (length d) m) 0 d m) ≡ d
flatten-chunks d m nm =
    let e0 : 0 * m ≡ 0 = omega arith in
    flatten-chunks_from (div_ceil (length d) m) 0 d m
      (rw (zero-add _) (div_ceil_covers (length d) m nm))
    ∙ ap (λ k. drop k d) e0

-- What `fragment_message` returns for a message that is not empty and a payload size that is not
-- 0: at most 255 fragments, whose headers give the message, their place and their number, whose
-- payloads have 1 to `m` bytes, and whose payloads in order make up the message.
pub fragment_message_ok :
    (id : ℕ) (d : List ℕ) (m : ℕ) {fs : List (List ℕ)}
    → id < 0x100000000
    → length d ≢ 0
    → m ≢ 0
    → fragment_message id d m ≡ ok fs
    → (length fs ≤ max_fragment_count)
      × AreFragments id m (length fs) 0 fs
      × (flatten (map (drop fragment_header_size) fs) ≡ d)
fragment_message_ok id d m lt nd nm h =
    let n = div_ceil (length d) m in
    let (e, small) = fragment_message-eq-ok id d m nd nm h in
    rw (← e, length-fragments_from n 0 id d m n, fragments_from-chunks_from n 0 id d m n lt)
      (
        small,
        fragments_from-AreFragments n 0 id d m n lt nm
            (λ _. rw (zero-add n) (div_ceil_least (length d) m nm nd)),
        flatten-chunks d m nm,
      )

-- It refuses exactly the messages that do not fit into 255 payloads of `m` bytes.
pub fragment_message_err :
    (id : ℕ) (d : List ℕ) (m : ℕ)
    → m ≢ 0
    → (fragment_message id d m ≡ err too_many_fragments) ↔ (max_fragment_count * m < length d)
unfolding fragment_message
fragment_message_err id d m nm = (
  (λ h. div_ceil_past (length d) m nm (ground arith)),
  (λ h. ground (arith, past-div_ceil (length d) m nm h)),
)
