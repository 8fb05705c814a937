-- ===== src/Fragment/Buffer.antt =====
-- `FragmentBuffer` of gbnet/src/fragment.rs, given fragments of one message in any order and as
-- often as the network likes.
use mathlib.Core.List.{flatten}
use gbnet.Prelude.{
  ℕ, zero, suc, ◌+◌, ◌≤◌, ◌<◌, ◌≡◌, refl, sym, ap, Bool, true, false, ◌&&◌, Option, none, some,
  List, [], ◌∷◌, ◌++◌, append-nil, append_assoc, length, get_or, set, replicate, arith, ◌==◌,
  if◌then◌else◌,
}
use gbnet.Fragment.{FragmentBuffer, new_buffer, fill, insert_fragment, collect, assemble}

abbrev pub has : List ℕ → ℕ → Bool
has [] j = false
has (i ∷ is) j = if i == j then true else has is j

-- Every index from `k` on, `n` of them, is among `is`.
abbrev pub covers : List ℕ → ℕ → ℕ → Bool
covers is zero k = true
covers is (suc n) k = has is k && covers is n (k + 1)

-- The slots after the fragments `is` of a message with the chunks `cs`, from index `k` on.
abbrev slots : List (List ℕ) → List ℕ → ℕ → List (Option (List ℕ))
slots [] is k = []
slots (c ∷ cs) is k = (if has is k then some c else none) ∷ slots cs is (k + 1)

abbrev filled : List (Option (List ℕ)) → ℕ
filled [] = 0
filled (none ∷ fs) = filled fs
filled (some d ∷ fs) = suc (filled fs)

slots-nil : (cs : List (List ℕ)) (k : ℕ) → slots cs [] k ≡ replicate (length cs) none
slots-nil [] k = refl
slots-nil (c ∷ cs) k = ap (λ t. none ∷ t) (slots-nil cs (k + 1))

get_or-slots :
    (cs : List (List ℕ)) (is : List ℕ) (k i : ℕ)
    → i < length cs
    → get_or (slots cs is k) i none ≡ (if has is (k + i) then some (get_or cs i []) else none)
get_or-slots [] is k i h = absurd (omega arith)
get_or-slots (c ∷ cs) is k zero h = let e : k + 0 ≡ k = omega arith in rw e
get_or-slots (c ∷ cs) is k (suc i) h =
    let e : k + suc i ≡ k + 1 + i = omega arith in rw e (get_or-slots cs is (k + 1) i (omega arith))

-- An index that stands before `k` changes no slot from `k` on.
slots_past :
    (cs : List (List ℕ)) (is : List ℕ) (k j : ℕ) → j < k → slots cs (j ∷ is) k ≡ slots cs is k
slots_past [] is k j h = refl
slots_past (c ∷ cs) is k j h = ground (arith, slots_past cs is (k + 1) j)

slots_again :
    (cs : List (List ℕ)) (is : List ℕ) (k j : ℕ)
    → has is j ≡ true
    → slots cs (j ∷ is) k ≡ slots cs is k
slots_again [] is k j h = refl
slots_again (c ∷ cs) is k j h = ground (arith, slots_again cs is (k + 1) j h)

set-slots :
    (cs : List (List ℕ)) (is : List ℕ) (k i j : ℕ)
    → i < length cs
    → j ≡ k + i
    → set (slots cs is k) i (some (get_or cs i [])) ≡ slots cs (j ∷ is) k
set-slots [] is k i j h e = absurd (omega arith)
set-slots (c ∷ cs) is k zero j h e = ground (arith, slots_past cs is (k + 1) j)
set-slots (c ∷ cs) is k (suc i) j h e =
    ground (arith, set-slots cs is (k + 1) i j (omega arith) (omega arith))

filled-set :
    (fs : List (Option (List ℕ))) (i : ℕ) (d : List ℕ)
    → i < length fs
    → get_or fs i none ≡ none
    → filled (set fs i (some d)) ≡ suc (filled fs)
filled-set [] i d h e = absurd (omega arith)
filled-set (none ∷ fs) zero d h e = refl
filled-set (some x ∷ fs) zero d h e = cc
filled-set (none ∷ fs) (suc i) d h e = filled-set fs i d (omega arith) e
filled-set (some x ∷ fs) (suc i) d h e = ap suc (filled-set fs i d (omega arith) e)

length-slots : (cs : List (List ℕ)) (is : List ℕ) (k : ℕ) → length (slots cs is k) ≡ length cs
length-slots [] is k = refl
length-slots (c ∷ cs) is k = ap suc (length-slots cs is (k + 1))

filled-slots :
    (cs : List (List ℕ)) (is : List ℕ) (k : ℕ)
    → (filled (slots cs is k) ≤ length cs)
      × ((filled (slots cs is k) == length cs) ≡ covers is (length cs) k)
filled-slots [] is k = (omega arith, refl)
filled-slots (c ∷ cs) is k = ground (arith, filled-slots cs is (k + 1))

collect-slots :
    (cs : List (List ℕ)) (is : List ℕ) (k : ℕ) (acc : List ℕ)
    → covers is (length cs) k ≡ true
    → collect (slots cs is k) acc ≡ some (acc ++ flatten cs)
unfolding collect flatten
collect-slots [] is k acc h = ap some (sym (append-nil acc))
collect-slots (c ∷ cs) is k acc h =
    ground (arith, collect-slots cs is (k + 1) (acc ++ c), append_assoc acc c (flatten cs))

-- A buffer that has got the fragments `is` of the message with the chunks `cs`.
pub record Received (cs : List (List ℕ)) (is : List ℕ) (b : FragmentBuffer) : Type 0 where
  pub count : b.fragment_count ≡ length cs
  pub held : b.fragments ≡ slots cs is 0
  pub received : b.received_count ≡ filled (slots cs is 0)

pub new_buffer-Received :
    (cs : List (List ℕ)) (now : ℕ) → Received cs [] (new_buffer (length cs) now)
unfolding new_buffer
new_buffer-Received cs now = record {
  count = refl;
  held = sym (slots-nil cs 0);
  received = rw (slots-nil cs 0) (filled-replicate (length cs));
}
  where
    filled-replicate : (n : ℕ) → 0 ≡ filled (replicate n none)
    filled-replicate zero = refl
    filled-replicate (suc n) = filled-replicate n

fill-Received :
    (cs : List (List ℕ)) (is : List ℕ) (i : ℕ) (b : FragmentBuffer)
    → i < length cs
    → Received cs is b
    → Received cs (i ∷ is) (fill b i (get_or cs i []))
unfolding fill
fill-Received cs is i b h r =
    let z : 0 + i ≡ i = omega arith in
    ground (
      arith,
      r.count,
      r.held,
      r.received,
      z,
      get_or-slots cs is 0 i h,
      set-slots cs is 0 i i h (omega arith),
      slots_again cs is 0 i,
      filled-set (slots cs is 0) i (get_or cs i []),
      length-slots cs is 0,
    )

pub insert_fragment-Received :
    (cs : List (List ℕ)) (is : List ℕ) (i : ℕ) (b : FragmentBuffer)
    → i < length cs
    → Received cs is b
    → Received cs (i ∷ is) (insert_fragment b i (get_or cs i [])).0
unfolding insert_fragment
insert_fragment-Received cs is i b h r =
    let f = fill-Received cs is i b h r in ground (arith, f.count, f.held, f.received, r.count)

-- `insert` says that the message is complete exactly when every index has been seen.
pub insert_fragment_complete :
    (cs : List (List ℕ)) (is : List ℕ) (i : ℕ) (b : FragmentBuffer)
    → i < length cs
    → Received cs is b
    → (insert_fragment b i (get_or cs i [])).1 ≡ covers (i ∷ is) (length cs) 0
unfolding insert_fragment
insert_fragment_complete cs is i b h r =
    let f = fill-Received cs is i b h r in
    ground (arith, f.count, f.received, r.count, (filled-slots cs (i ∷ is) 0).1)

-- A buffer yields the message exactly when every index has been seen.
pub assemble-Received :
    (cs : List (List ℕ)) (is : List ℕ) (b : FragmentBuffer)
    → Received cs is b
    → assemble b ≡ (if covers is (length cs) 0 then some (flatten cs) else none)
unfolding assemble
assemble-Received cs is b r =
    ground (arith, r.count, r.held, r.received, (filled-slots cs is 0).1, collect-slots cs is 0 [])
