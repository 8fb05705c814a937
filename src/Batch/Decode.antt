-- ===== src/Batch/Decode.antt =====
-- `unbatch_messages` of gbnet/src/congestion.rs reads what a batch holds.
use mathlib.Core.Path.{ap₂}
use gbnet.Prelude.{
  ℕ, suc, ◌+◌, ◌*◌, ◌/◌, ◌%◌, ◌<◌, ◌≡◌, refl, sym, ap, ◌∙◌, false, some, List, [], ◌∷◌, ◌++◌,
  append-nil, append_assoc, length, get_or, drop, length-append, take-append, arith, ltb, All,
}
use gbnet.Prelude.Bytes.{u16_to_be_bytes}
use gbnet.Batch.{unbatch_from, unbatch_messages}

-- A message whose length a u16 can hold.
abbrev pub IsShort : List ℕ → Type 0
IsShort msg = length msg < 0x10000

-- What a batch holds behind its count.
abbrev pub encoded : List (List ℕ) → List ℕ
encoded [] = []
encoded (m ∷ ms) = (u16_to_be_bytes (length m % 0x10000) ++ m) ++ encoded ms

pub encoded-append : (xs ys : List (List ℕ)) → encoded (xs ++ ys) ≡ encoded xs ++ encoded ys
encoded-append [] ys = refl
encoded-append (x ∷ xs) ys =
    ap (λ t. (u16_to_be_bytes (length x % 0x10000) ++ x) ++ t) (encoded-append xs ys)
    ∙ sym (append_assoc (u16_to_be_bytes (length x % 0x10000) ++ x) (encoded xs) (encoded ys))

get_or-append : (xs ys : List ℕ) (i : ℕ) → get_or (xs ++ ys) (length xs + i) 0 ≡ get_or ys i 0
get_or-append [] ys i = let e : 0 + i ≡ i = omega arith in rw e
get_or-append (x ∷ xs) ys i =
    let e : suc (length xs) + i ≡ suc (length xs + i) = omega arith in rw e (get_or-append xs ys i)

drop-append_more : (xs ys : List ℕ) (i : ℕ) → drop (length xs + i) (xs ++ ys) ≡ drop i ys
drop-append_more [] ys i = let e : 0 + i ≡ i = omega arith in rw e
drop-append_more (x ∷ xs) ys i =
    let e : suc (length xs) + i ≡ suc (length xs + i) = omega arith in
    rw e (drop-append_more xs ys i)

-- One round on a message behind `front`.
unbatch_from_step :
    (n : ℕ) (front m rest : List ℕ) (acc : List (List ℕ))
    → IsShort m
    → let d = front ++ ((u16_to_be_bytes (length m % 0x10000) ++ m) ++ rest) in
      unbatch_from (suc n) d (length front) acc
      ≡ unbatch_from n d (length front + 2 + length m) (acc ++ (m ∷ []))
unfolding unbatch_from
unbatch_from_step n front m rest acc h =
    let hi = length m % 0x10000 / 256 % 256 in
    let lo = length m % 0x10000 % 256 in
    let body = hi ∷ lo ∷ (m ++ rest) in
    let z : length front + 0 ≡ length front = omega arith in
    let first : get_or (front ++ body) (length front) 0 ≡ hi =
      rw z at (get_or-append front body 0) in
    let second : get_or (front ++ body) (length front + 1) 0 ≡ lo = get_or-append front body 1 in
    let len : hi * 256 + lo ≡ length m = omega arith in
    let behind : drop (length front + 2) (front ++ body) ≡ m ++ rest =
      drop-append_more front body 2 in
    let size : length (front ++ body) ≡ length front + 2 + length m + length rest =
      omega (arith, length-append front body, length-append m rest) in
    let header : ltb (length (front ++ body)) (length front + 2) ≡ false = ground arith in
    let whole : ltb (length (front ++ body)) (length front + 2 + length m) ≡ false = ground arith in
    rw (first, second, len, behind, take-append m rest, header, whole)

-- The rounds on the messages `ms`, with anything behind them.
unbatch_from-encoded :
    (ms : List (List ℕ)) (front rest : List ℕ) (acc : List (List ℕ))
    → All IsShort ms
    → unbatch_from (length ms) (front ++ (encoded ms ++ rest)) (length front) acc ≡ some (acc ++ ms)
unbatch_from-encoded [] front rest acc h = unfold unbatch_from in rw append-nil
unbatch_from-encoded (m ∷ ms) front rest acc (h, hs) =
    let item = u16_to_be_bytes (length m % 0x10000) ++ m in
    let regroup : (item ++ encoded ms) ++ rest ≡ item ++ (encoded ms ++ rest) =
      append_assoc item (encoded ms) rest in
    let shift : front ++ (item ++ (encoded ms ++ rest)) ≡ (front ++ item) ++ (encoded ms ++ rest) =
      sym (append_assoc front item (encoded ms ++ rest)) in
    let next : length front + 2 + length m ≡ length (front ++ item) =
      omega (arith, length-append front item) in
    ap (λ t. unbatch_from (suc (length ms)) (front ++ t) (length front) acc) regroup
    ∙ unbatch_from_step (length ms) front m (encoded ms ++ rest) acc h
    ∙ ap₂ (λ d o. unbatch_from (length ms) d o (acc ++ (m ∷ []))) shift next
    ∙ unbatch_from-encoded ms (front ++ item) rest (acc ++ (m ∷ [])) hs
    ∙ ap some (append_assoc acc (m ∷ []) ms)

-- A batch whose count is right is read back, whatever follows it.
pub unbatch_messages-encoded :
    (ms : List (List ℕ)) (rest : List ℕ)
    → All IsShort ms
    → unbatch_messages (length ms ∷ (encoded ms ++ rest)) ≡ some ms
unfolding unbatch_messages
unbatch_messages-encoded ms rest h = unbatch_from-encoded ms (length ms ∷ []) rest [] h
