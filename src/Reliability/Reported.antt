-- ===== src/Reliability/Reported.antt =====
-- What `process_acks` of gbnet/src/reliability.rs returns: the acknowledged messages, and the
-- messages to retransmit at once.
use gbnet.Prelude.{
  ℕ, ◌+◌, min, ◌≡◌, ◌⊎◌, refl, sym, ◌∙◌, inl, inr, true, false, Option, none, some, List, [], ◌∷◌,
  arith, ◌==◌, ==_refl, Bool-cases, Option-cases,
}
use mathlib.Core.Bool.{false≢true}
use gbnet.Prelude.Maps.{
  Map, lookup, remove, Distinct, lookup-remove, lookup-remove-some, remove-Distinct,
}
use gbnet.Float.{Float}
use gbnet.Reliability.{
  SentPacketRecord, ReliableEndpoint, channel_pair, is_passed_over, nack_one, nack_all, ack_single,
  ack_all, acknowledged, update_rtt, record_loss_sample, prepend, fast_retransmit_threshold,
}
use gbnet.Reliability.Acks.{mem, NoRepeat, lookup-nack_one}

-- A pair of a channel and a number is listed.
abbrev pub In : ℕ × ℕ → List (ℕ × ℕ) → Type 0
In x [] = ⊥
In x (y ∷ ys) = (x ≡ y) ⊎ In x ys

module _ {ℓ} {W : Type ℓ} ⦃f : Float W⦄ where
  -- A listed number that is in flight is reported.
  pub ack_all-reports :
      (s now : ℕ) (seqs : List ℕ) (e : ReliableEndpoint W) (r : SentPacketRecord)
      → Distinct e.sent_packets
      → lookup s e.sent_packets ≡ some r
      → mem s seqs ≡ true
      → In (channel_pair r) (ack_all e now seqs).1
  unfolding ack_all ack_single remove record_loss_sample update_rtt
  ack_all-reports s now [] e r d h m = absurd (ground arith)
  ack_all-reports s now (k ∷ ks) e r d h m = elim (Bool-cases (k == s)) [
    | inl here ↦
        let same : lookup k e.sent_packets ≡ some r = (let at : k ≡ s = ground arith in rw at h) in
        rw (same, ack_single) (inl refl)
    | inr there ↦
        let later : mem s ks ≡ true = ground (arith, there) in
        elim (Option-cases (lookup k e.sent_packets)) [
          | inl n ↦ rw (n, ack_single) (ack_all-reports s now ks e r d h later)
          | inr (w, g) ↦
              let kept : lookup s (remove k e.sent_packets) ≡ some r =
                lookup-remove k s e.sent_packets d ∙ rw there h in
              rw (g, ack_single)
                (inr (
                  ack_all-reports s now ks (acknowledged e now k w) r
                    (remove-Distinct k e.sent_packets d) kept later))
        ]
  ]

  -- What is reported was in flight under a listed number.
  pub ack_all-reported :
      (pair : ℕ × ℕ) (now : ℕ) (seqs : List ℕ) (e : ReliableEndpoint W)
      → Distinct e.sent_packets
      → In pair (ack_all e now seqs).1
      → (s : ℕ) × (r : SentPacketRecord) × (lookup s e.sent_packets ≡ some r)
        × (mem s seqs ≡ true)
        × (pair ≡ channel_pair r)
  unfolding ack_all ack_single remove record_loss_sample update_rtt
  ack_all-reported pair now [] e d i = elim i [ ]
  ack_all-reported pair now (k ∷ ks) e d i = elim (Option-cases (lookup k e.sent_packets)) [
    | inl n ↦
        let (s, r, g, m, p) = ack_all-reported pair now ks e d (rw (n, ack_single) at i) in
        (s, r, g, ground (arith, m), p)
    | inr (w, g) ↦
        let e' = acknowledged e now k w in
        let first : (pair ≡ channel_pair w) ⊎ In pair (ack_all e' now ks).1 =
          (rw (g, ack_single) at i) in
        elim first [
          | inl p ↦ (k, w, g, ground (arith, ==_refl k), p)
          | inr later ↦
              let (s, r, h, m, p) =
                ack_all-reported pair now ks e' (remove-Distinct k e.sent_packets d) later in
              let was = (lookup-remove-some k s r e.sent_packets d h).0 in
              (s, r, was, ground (arith, m), p)
        ]
  ]

In-prepend :
    (pair : ℕ × ℕ) (o : Option (ℕ × ℕ)) (xs : List (ℕ × ℕ)) → In pair xs → In pair (prepend o xs)
In-prepend pair none xs i = i
In-prepend pair (some _) xs i = inr i

-- A number that is passed over for the third time is a candidate.
pub nack_all-reports :
    (s ack bits : ℕ) (ks : List ℕ) (m : Map SentPacketRecord) (r : SentPacketRecord)
    → NoRepeat ks
    → lookup s m ≡ some r
    → mem s ks ≡ true
    → is_passed_over ack bits s ≡ true
    → r.nack_count + 1 ≡ fast_retransmit_threshold
    → In (channel_pair r) (nack_all ack bits ks m).1
unfolding nack_all nack_one
nack_all-reports s ack bits [] m r u h i o c = absurd (ground arith)
nack_all-reports s ack bits (k ∷ ks) m r u h i o c = elim (Bool-cases (k == s)) [
  | inl here ↦
      let at : k ≡ s = ground arith in
      let count : (min 255 (r.nack_count + 1) == 3) ≡ true = ground arith in
      let found : lookup k m ≡ some r = rw at h in
      let over : is_passed_over ack bits k ≡ true = rw at o in
      rw (found, nack_one) (rw (over, nack_one) (rw (count, nack_one) (inl refl)))
  | inr there ↦
      let step = lookup-nack_one s ack bits k m in
      let kept : lookup s (nack_one ack bits k m).0 ≡ some r = ground (arith, step, there) in
      let below =
        nack_all-reports s ack bits ks (nack_one ack bits k m).0 r u.1 kept (ground arith) o c in
      In-prepend (channel_pair r) (nack_one ack bits k m).1 _ below
]

-- The candidate that one number gives.
nack_one-reported :
    (pair : ℕ × ℕ) (ack bits k : ℕ) (m : Map SentPacketRecord)
    → In pair (prepend (nack_one ack bits k m).1 [])
    → (r : SentPacketRecord) × (lookup k m ≡ some r)
      × (is_passed_over ack bits k ≡ true)
      × (r.nack_count + 1 ≡ fast_retransmit_threshold)
      × (pair ≡ channel_pair r)
unfolding nack_one
nack_one-reported pair ack bits k m i = elim (Option-cases (lookup k m)) [
  | inl n ↦ elim (rw (n, nack_one) at i) [ ]
  | inr (r, g) ↦ elim (Bool-cases (is_passed_over ack bits k)) [
    | inr not ↦ elim (rw (not, nack_one) at (rw (g, nack_one) at i)) [ ]
    | inl over ↦
        let one = (rw (over, nack_one) at (rw (g, nack_one) at i)) in
        elim (Bool-cases (min 255 (r.nack_count + 1) == fast_retransmit_threshold)) [
          | inr other ↦ elim (rw (other, nack_one) at one) [ ]
          | inl third ↦
              let same : (pair ≡ channel_pair r) ⊎ ⊥ = (rw (third, nack_one) at one) in
              (r, g, over, ground (arith, third), elim same [ inl p ↦ p | inr x ↦ elim x [ ] ])
        ]
  ]
]

In-prepend_cases :
    (pair : ℕ × ℕ) (o : Option (ℕ × ℕ)) (xs : List (ℕ × ℕ))
    → In pair (prepend o xs)
    → In pair (prepend o []) ⊎ In pair xs
In-prepend_cases pair none xs i = inr i
In-prepend_cases pair (some p) xs (inl e) = inl (inl e)
In-prepend_cases pair (some p) xs (inr i) = inr i

pub nack_all-reported :
    (pair : ℕ × ℕ) (ack bits : ℕ) (ks : List ℕ) (m : Map SentPacketRecord)
    → NoRepeat ks
    → In pair (nack_all ack bits ks m).1
    → (s : ℕ) × (r : SentPacketRecord) × (lookup s m ≡ some r)
      × (mem s ks ≡ true)
      × (is_passed_over ack bits s ≡ true)
      × (r.nack_count + 1 ≡ fast_retransmit_threshold)
      × (pair ≡ channel_pair r)
unfolding nack_all
nack_all-reported pair ack bits [] m u i = elim i [ ]
nack_all-reported pair ack bits (k ∷ ks) m u i =
    elim (In-prepend_cases pair (nack_one ack bits k m).1 _ i) [
      | inl here ↦
          let (r, g, o, c, p) = nack_one-reported pair ack bits k m here in
          (k, r, g, ground (arith, ==_refl k), o, c, p)
      | inr later ↦
          let (s, r, h, i, o, c, p) =
            nack_all-reported pair ack bits ks (nack_one ack bits k m).0 u.1 later in
          let apart : (k == s) ≡ false = elim (Bool-cases (k == s)) [
            | inr ne ↦ ne
            | inl e ↦ let at : k ≡ s = ground arith in absurd (false≢true (sym (rw at at u.0) ∙ i))
          ] in
          let step = lookup-nack_one s ack bits k m in
          (s, r, sym (rw apart at step) ∙ h, ground (arith, i), o, c, p)
    ]
