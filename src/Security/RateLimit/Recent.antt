-- ===== src/Security/RateLimit/Recent.antt =====
-- The recent timestamps that `ConnectionRateLimiter` of gbnet/src/security.rs keeps.
use gbnet.Prelude.{
  ℕ, ◌+◌, ◌≤◌, ◌≡◌, refl, sym, ◌∙◌, List, [], ◌∷◌, ◌++◌, ◌⊎◌, inl, inr, Bool-cases, ◌==◌,
  if◌then◌else◌, length, length-append, arith,
}
use gbnet.Prelude.Maps.{Map, lookup, insert, Distinct, Fresh, lookup-insert}
use gbnet.Security.RateLimit.{recent, timestamps_of, retain_recent}

-- What is not recent any more stays so.
recent-recent : (t now w : ℕ) (l : List ℕ) → t ≤ now → recent now w (recent t w l) ≡ recent now w l
unfolding recent
recent-recent t now w [] h = refl
recent-recent t now w (x ∷ l) h = ground (arith, recent-recent t now w l h)

recent-append :
    (now w : ℕ) (l k : List ℕ) → recent now w (l ++ k) ≡ recent now w l ++ recent now w k
unfolding recent
recent-append now w [] k = refl
recent-append now w (x ∷ l) k = ground (arith, recent-append now w l k)

pub length-recent : (now w : ℕ) (l : List ℕ) → length (recent now w l) ≤ length l
unfolding recent
length-recent now w [] = omega arith
length-recent now w (x ∷ l) = ground (arith, length-recent now w l)

List-cases : (l : List ℕ) → (l ≡ []) ⊎ ((x : ℕ) × (xs : List ℕ) × (l ≡ x ∷ xs))
List-cases [] = inl refl
List-cases (x ∷ xs) = inr (x, xs, refl)

pub timestamps_of-insert :
    (k j : ℕ) (ts : List ℕ) (m : Map (List ℕ))
    → timestamps_of j (insert k ts m) ≡ (if k == j then ts else timestamps_of j m)
unfolding timestamps_of
timestamps_of-insert k j ts m = ground (arith, lookup-insert k j ts m)

Fresh-retain_recent : (k now w : ℕ) (m : Map (List ℕ)) → Fresh k m → Fresh k (retain_recent now w m)
unfolding retain_recent lookup
Fresh-retain_recent k now w [] f = refl
Fresh-retain_recent k now w ((j, ts) ∷ m) f =
    let below = Fresh-retain_recent k now w m in
    elim (List-cases (recent now w ts)) [
      | inl e ↦ rw (e, retain_recent) (ground (arith, below))
      | inr (x, xs, e) ↦ rw (e, retain_recent) (ground (arith, below))
    ]

pub retain_recent-Distinct :
    (now w : ℕ) (m : Map (List ℕ)) → Distinct m → Distinct (retain_recent now w m)
unfolding retain_recent
retain_recent-Distinct now w [] d = tt
retain_recent-Distinct now w ((j, ts) ∷ m) (f, d) = elim (List-cases (recent now w ts)) [
  | inl e ↦ rw (e, retain_recent) (retain_recent-Distinct now w m d)
  | inr (x, xs, e) ↦
      rw (e, retain_recent) (Fresh-retain_recent j now w m f, retain_recent-Distinct now w m d)
]

timestamps_of-Fresh : (k : ℕ) (m : Map (List ℕ)) → Fresh k m → timestamps_of k m ≡ []
unfolding timestamps_of
timestamps_of-Fresh k m f = rw (f, timestamps_of) refl

-- the timestamps in a map with one entry more in front
timestamps_of-cons :
    (k j : ℕ) (ts : List ℕ) (m : Map (List ℕ))
    → timestamps_of k ((j, ts) ∷ m) ≡ (if j == k then ts else timestamps_of k m)
unfolding timestamps_of lookup
timestamps_of-cons k j ts m = elim (Bool-cases (j == k)) [
  | inl eq ↦ rw (eq, timestamps_of, lookup) refl
  | inr ne ↦ rw (ne, timestamps_of, lookup) refl
]

pub timestamps_of-retain_recent :
    (k now w : ℕ) (m : Map (List ℕ))
    → Distinct m
    → timestamps_of k (retain_recent now w m) ≡ recent now w (timestamps_of k m)
unfolding retain_recent
timestamps_of-retain_recent k now w [] d = unfold recent timestamps_of lookup in refl
timestamps_of-retain_recent k now w ((j, ts) ∷ m) (f, d) =
    let below = timestamps_of-retain_recent k now w m d in
    let gone : timestamps_of j (retain_recent now w m) ≡ [] =
      timestamps_of-Fresh j (retain_recent now w m) (Fresh-retain_recent j now w m f) in
    elim (List-cases (recent now w ts)) [
      | inl e ↦ rw (e, retain_recent, timestamps_of-cons k j ts m) (ground (arith, below, gone, e))
      | inr (x, xs, e) ↦
          rw
            (
              e,
              retain_recent,
              timestamps_of-cons k j ts m,
              timestamps_of-cons k j (x ∷ xs) (retain_recent now w m),
            )
            (ground (arith, below, e))
    ]

-- Of what has passed, `ts` still tells what is recent, and it has at most `limit` items.
pub record Known (w limit last : ℕ) (log ts : List ℕ) : Type 0 where
  pub same : (now : ℕ) → last ≤ now → recent now w log ≡ recent now w ts
  pub few : length ts ≤ limit

module _ (w limit last now : ℕ) (log ts : List ℕ) (later : last ≤ now) where
  pub Known-later : Known w limit last log ts → Known w limit now log ts
  Known-later k = record { same = λ t le. k.same t (omega arith); few = k.few }

  pub Known-recent : Known w limit last log ts → Known w limit now log (recent now w ts)
  Known-recent k = record {
    same = λ t le. k.same t (omega arith) ∙ sym (recent-recent now t w ts le);
    few = omega (arith, length-recent now w ts, k.few);
  }

  pub Known-pass :
      length (recent now w ts) + 1 ≤ limit
      → Known w limit last log ts
      → Known w limit now (log ++ (now ∷ [])) (recent now w ts ++ (now ∷ []))
  Known-pass room k = record {
    same = λ t le.
        rw
          (
            recent-append t w log (now ∷ []),
            recent-append,
            recent-recent now t w ts le,
            k.same t (omega arith),
          )
          refl;
    few = omega (arith, length-append (recent now w ts) (now ∷ []), room);
  }
