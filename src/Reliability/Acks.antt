-- ===== src/Reliability/Acks.antt =====
-- What `process_acks` of gbnet/src/reliability.rs does to the packets in flight.
use gbnet.Prelude.{
  ℕ, zero, suc, ◌+◌, ◌-◌, ◌≤◌, ◌≡◌, ◌≢◌, refl, ◌∙◌, inl, inr, Bool, true, false, ◌&&◌, ◌||◌, Option,
  none, some, List, [], ◌∷◌, arith, ltb, leb, ◌==◌, if◌then◌else◌, length, Bool-cases, Option-cases,
}
use gbnet.Prelude.Bits.{test_bit}
use gbnet.Prelude.Maps.{
  Map, lookup, contains_key, Distinct, lookup-insert, lookup-remove, remove-Distinct,
  insert-Distinct, length-insert,
}
use gbnet.Float.{Float}
use gbnet.Sequence.{IsSeq}
use gbnet.Reliability.{
  SentPacketRecord, ReliableEndpoint, wrapping_sub, nacked, acked_from, acked_seqs, is_passed_over,
  nack_one, nack_all, keys, ack_single, ack_all, process_acks, update_rtt, record_loss_sample,
  ack_bits_window, acknowledged,
}

-- Whether an acknowledgment names a number: it is the number `ack`, or it lies at most 64 behind
-- it and its bit is set.
unfoldable pub acknowledges : ℕ → ℕ → ℕ → Bool
acknowledges ack bits seq =
    let behind = wrapping_sub ack seq in
    (behind == 0) || (leb behind ack_bits_window && test_bit bits (behind - 1))

-- A packet that stays in flight has been passed over once more, or is as it was.
unfoldable pub passed : ℕ → ℕ → ℕ → SentPacketRecord → SentPacketRecord
passed ack bits seq r = if is_passed_over ack bits seq then nacked r else r

abbrev pub option_map {ℓ κ} : {A : Type ℓ} {B : Type κ} → (A → B) → Option A → Option B
option_map f none = none
option_map f (some a) = some (f a)

abbrev pub mem : ℕ → List ℕ → Bool
mem s [] = false
mem s (k ∷ ks) = (k == s) || mem s ks

abbrev pub NoRepeat : List ℕ → Type 0
NoRepeat [] = Unit
NoRepeat (k ∷ ks) = (mem k ks ≡ false) × NoRepeat ks

pub mem-keys : (s : ℕ) (m : Map SentPacketRecord) → mem s (keys m) ≡ contains_key s m
unfolding lookup
mem-keys s [] = refl
mem-keys s ((k, r) ∷ m) = ground (arith, mem-keys s m)

pub keys-NoRepeat : (m : Map SentPacketRecord) → Distinct m → NoRepeat (keys m)
keys-NoRepeat [] d = tt
keys-NoRepeat ((k, r) ∷ m) d = (mem-keys k m ∙ (ground (arith, d.0)), keys-NoRepeat m d.1)

pub lookup-nack_one :
    (s ack bits seq : ℕ) (m : Map SentPacketRecord)
    → lookup s (nack_one ack bits seq m).0
      ≡ (if seq == s then option_map (passed ack bits s) (lookup s m) else lookup s m)
unfolding nack_one lookup
lookup-nack_one s ack bits seq m = elim (Option-cases (lookup seq m)) [
  | inl e ↦ rw (e, nack_one) (ground (arith, e))
  | inr (r, e) ↦
      rw (e, nack_one) (unfold passed in ground (arith, e, lookup-insert seq s (nacked r) m))
]

nack_one-Distinct :
    (ack bits seq : ℕ) (m : Map SentPacketRecord)
    → Distinct m
    → Distinct (nack_one ack bits seq m).0
unfolding nack_one
nack_one-Distinct ack bits seq m d = elim (Option-cases (lookup seq m)) [
  | inl e ↦ rw (e, nack_one) d
  | inr (r, e) ↦ rw (e, nack_one) (ground (arith, d, insert-Distinct seq (nacked r) m d))
]

length-nack_one :
    (ack bits seq : ℕ) (m : Map SentPacketRecord) → length (nack_one ack bits seq m).0 ≡ length m
unfolding nack_one
length-nack_one ack bits seq m = elim (Option-cases (lookup seq m)) [
  | inl e ↦ rw (e, nack_one) refl
  | inr (r, e) ↦ rw (e, nack_one) (ground (arith, e, length-insert seq (nacked r) m))
]

pub nack_all-Distinct :
    (ack bits : ℕ) (ks : List ℕ) (m : Map SentPacketRecord)
    → Distinct m
    → Distinct (nack_all ack bits ks m).0
unfolding nack_all
nack_all-Distinct ack bits [] m d = d
nack_all-Distinct ack bits (k ∷ ks) m d =
    nack_all-Distinct ack bits ks (nack_one ack bits k m).0 (nack_one-Distinct ack bits k m d)

pub length-nack_all :
    (ack bits : ℕ) (ks : List ℕ) (m : Map SentPacketRecord)
    → length (nack_all ack bits ks m).0 ≡ length m
unfolding nack_all
length-nack_all ack bits [] m = refl
length-nack_all ack bits (k ∷ ks) m =
    length-nack_all ack bits ks (nack_one ack bits k m).0 ∙ length-nack_one ack bits k m

lookup-nack_all :
    (s ack bits : ℕ) (ks : List ℕ) (m : Map SentPacketRecord)
    → NoRepeat ks
    → lookup s (nack_all ack bits ks m).0
      ≡ (if mem s ks then option_map (passed ack bits s) (lookup s m) else lookup s m)
unfolding nack_all
lookup-nack_all s ack bits [] m u = refl
lookup-nack_all s ack bits (k ∷ ks) m u =
    let here = lookup-nack_one s ack bits k m in
    let below = lookup-nack_all s ack bits ks (nack_one ack bits k m).0 u.1 in
    elim (Bool-cases (k == s)) [
      | inl e ↦
          let same : k ≡ s = ground arith in
          let gone : mem s ks ≡ false = (rw same at u.0) in
          ground (arith, gone, (rw e at here), (rw gone at below))
      | inr e ↦ ground (arith, (rw e at here), (rw (rw e at here) at below))
    ]

-- The numbers that `acked_seqs` collects, as far as they are in flight.
mem-acked_from :
    (s n i ack bits : ℕ) (sent : Map SentPacketRecord)
    → IsSeq s
    → IsSeq ack
    → contains_key s sent ≡ true
    → i + n ≤ ack_bits_window
    → mem s (acked_from n i sent ack bits) ≡ (
        let behind = wrapping_sub ack s in
        ltb i behind && leb behind (i + n) && test_bit bits (behind - 1))
unfolding acked_from
mem-acked_from s zero i ack bits sent p q h w = ground arith
mem-acked_from s (suc n) i ack bits sent p q h w =
    let below = mem-acked_from s n (suc i) ack bits sent p q h (omega arith) in
    let k = wrapping_sub ack (i + 1) in
    let behind = wrapping_sub ack s in
    elim (Bool-cases (k == s)) [
      | inl e ↦
          let same : k ≡ s = ground arith in
          let at : behind ≡ i + 1 = omega (arith, same) in
          let held : contains_key k sent ≡ true = rw same h in
          let bit : behind - 1 ≡ i = omega (arith, at) in
          rw (held, bit) (ground (arith, (rw bit at below), at))
      | inr e ↦
          let apart : behind ≢ i + 1 = λ at. absurd (ground (arith, at)) in
          ground (arith, below, apart)
    ]

pub mem-acked_seqs :
    (s ack bits : ℕ) (sent : Map SentPacketRecord)
    → IsSeq s
    → IsSeq ack
    → contains_key s sent ≡ true
    → mem s (acked_seqs sent ack bits) ≡ acknowledges ack bits s
unfolding acked_seqs acknowledges
mem-acked_seqs s ack bits sent p q h =
    ground (arith, mem-acked_from s ack_bits_window 0 ack bits sent p q h)

module _ {ℓ} {W : Type ℓ} ⦃f : Float W⦄ where
  -- Removing one number takes its record out, and everything else stays in flight.
  pub lookup-ack_all :
      (s now : ℕ) (seqs : List ℕ) (e : ReliableEndpoint W)
      → Distinct e.sent_packets
      → lookup s (ack_all e now seqs).0.sent_packets
        ≡ (if mem s seqs then none else lookup s e.sent_packets)
  unfolding ack_all ack_single update_rtt record_loss_sample
  lookup-ack_all s now [] e d = refl
  lookup-ack_all s now (k ∷ ks) e d = elim (Option-cases (lookup k e.sent_packets)) [
    | inl n ↦ rw (n, ack_single) (ground (arith, lookup-ack_all s now ks e d, n))
    | inr (r, h) ↦
        let e' = acknowledged e now k r in
        let below = lookup-ack_all s now ks e' (remove-Distinct k e.sent_packets d) in
        rw (h, ack_single) (below ∙ ground (arith, lookup-remove k s e.sent_packets d))
  ]

  pub ack_all-Distinct :
      (now : ℕ) (seqs : List ℕ) (e : ReliableEndpoint W)
      → Distinct e.sent_packets
      → Distinct (ack_all e now seqs).0.sent_packets
  unfolding ack_all ack_single update_rtt record_loss_sample
  ack_all-Distinct now [] e d = d
  ack_all-Distinct now (k ∷ ks) e d = elim (Option-cases (lookup k e.sent_packets)) [
    | inl n ↦ rw (n, ack_single) (ack_all-Distinct now ks e d)
    | inr (r, h) ↦
        rw (h, ack_single)
          (ack_all-Distinct now ks (acknowledged e now k r) (remove-Distinct k e.sent_packets d))
  ]

  -- After an acknowledgment no packet that it names is in flight, and every other packet that
  -- was in flight still is, counted as passed over once more where the acknowledgment passes
  -- over it. Numbers are u16, and the packets in flight have different numbers.
  pub lookup-process_acks :
      (s now ack bits : ℕ) (e : ReliableEndpoint W)
      → IsSeq s
      → IsSeq ack
      → Distinct e.sent_packets
      → lookup s (process_acks e now ack bits).0.sent_packets ≡ (
          if acknowledges ack bits s
          then none
          else option_map (passed ack bits s) (lookup s e.sent_packets))
  unfolding process_acks
  lookup-process_acks s now ack bits e p q d =
      let seqs = acked_seqs e.sent_packets ack bits in
      let left = (ack_all e now seqs).0.sent_packets in
      let distinct : Distinct left = ack_all-Distinct now seqs e d in
      let first = lookup-ack_all s now seqs e d in
      let second = lookup-nack_all s ack bits (keys left) left (keys-NoRepeat left distinct) in
      let listed = mem-keys s left in
      let collected = mem-acked_seqs s ack bits e.sent_packets p q in
      ground (arith, first, second, listed, collected)

  -- The packets after an acknowledgment have different numbers too.
  pub process_acks-Distinct :
      (now ack bits : ℕ) (e : ReliableEndpoint W)
      → Distinct e.sent_packets
      → Distinct (process_acks e now ack bits).0.sent_packets
  unfolding process_acks
  process_acks-Distinct now ack bits e d =
      let seqs = acked_seqs e.sent_packets ack bits in
      let left = (ack_all e now seqs).0.sent_packets in
      nack_all-Distinct ack bits (keys left) left (ack_all-Distinct now seqs e d)
