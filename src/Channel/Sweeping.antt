-- ===== src/Channel/Sweeping.antt =====
-- The loop of `Channel::get_retransmit_messages`, gbnet/src/channel.rs.
use gbnet.Prelude.{
  ℕ, ◌≡◌, refl, Bool, true, false, ◌||◌, Option, none, some, List, [], ◌∷◌, ◌⊎◌, inl, inr, arith,
  ◌==◌, if◌then◌else◌, ap, ◌∙◌,
}
use gbnet.Prelude.Maps.{Map, lookup, remove, Distinct, Fresh, lookup-remove, remove-Distinct}
use gbnet.Channel.{
  ChannelMessage, Verdict, keep, expire, resend, verdict, resent, sweep, remove_all, wire_data,
}

verdict_cases : (v : Verdict) → (v ≡ keep) ⊎ ((v ≡ expire) ⊎ (v ≡ resend))
verdict_cases keep = inl refl
verdict_cases expire = inr (inl refl)
verdict_cases resend = inr (inr refl)

-- The frames that carry a number.
abbrev pub framed : ℕ → List (ℕ × List ℕ) → List (List ℕ)
framed k [] = []
framed k ((j, frame) ∷ frames) = if j == k then frame ∷ framed k frames else framed k frames

module _ (max_retries now rto : ℕ) where
  -- What one call does with a pending message: none where it is given up.
  abbrev pub outcome : ChannelMessage → Option ChannelMessage
  outcome m = elim (verdict max_retries now rto m) [
    | keep ↦ some m
    | expire ↦ none
    | resend ↦ some (resent now m)
  ]

  abbrev touched : Option ChannelMessage → Option ChannelMessage
  touched none = none
  touched (some m) = elim (verdict max_retries now rto m) [
    | resend ↦ some (resent now m)
    | _ ↦ some m
  ]

  abbrev expires : Option ChannelMessage → Bool
  expires none = false
  expires (some m) = elim (verdict max_retries now rto m) [ expire ↦ true | _ ↦ false ]

  lookup-sweep :
      (k : ℕ) (ms : Map ChannelMessage)
      → lookup k (sweep max_retries now rto ms).pending ≡ touched (lookup k ms)
  unfolding sweep lookup
  lookup-sweep k [] = refl
  lookup-sweep k ((j, m) ∷ ms) =
      let below = lookup-sweep k ms in
      elim (verdict_cases (verdict max_retries now rto m)) [
        | inl kept ↦ rw (kept, sweep) ground (arith, below)
        | inr (inl expired) ↦ rw (expired, sweep) ground (arith, below)
        | inr (inr again) ↦ rw (again, sweep) ground (arith, below)
      ]

  Fresh-sweep :
      (k : ℕ) (ms : Map ChannelMessage)
      → Fresh k ms
      → Fresh k (sweep max_retries now rto ms).pending
  Fresh-sweep k ms f = lookup-sweep k ms ∙ ap touched f

  pub sweep-Distinct :
      (ms : Map ChannelMessage) → Distinct ms → Distinct (sweep max_retries now rto ms).pending
  unfolding sweep
  sweep-Distinct [] d = tt
  sweep-Distinct ((j, m) ∷ ms) (f, d) = elim (verdict_cases (verdict max_retries now rto m)) [
    | inl kept ↦ rw (kept, sweep) (Fresh-sweep j ms f, sweep-Distinct ms d)
    | inr (inl expired) ↦ rw (expired, sweep) (Fresh-sweep j ms f, sweep-Distinct ms d)
    | inr (inr again) ↦ rw (again, sweep) (Fresh-sweep j ms f, sweep-Distinct ms d)
  ]

  -- A key is among the expired ones where its message has expired.
  abbrev elem : ℕ → List ℕ → Bool
  elem k [] = false
  elem k (j ∷ js) = j == k || elem k js

  elem-sweep :
      (k : ℕ) (ms : Map ChannelMessage)
      → Distinct ms
      → elem k (sweep max_retries now rto ms).expired ≡ expires (lookup k ms)
  unfolding sweep lookup
  elem-sweep k [] d = refl
  elem-sweep k ((j, m) ∷ ms) (f, d) =
      let below = elem-sweep k ms d in
      elim (verdict_cases (verdict max_retries now rto m)) [
        | inl kept ↦ rw (kept, sweep) ground (arith, below, f)
        | inr (inl expired) ↦ rw (expired, sweep) ground (arith, below, f)
        | inr (inr again) ↦ rw (again, sweep) ground (arith, below, f)
      ]

  lookup-remove_all :
      (k : ℕ) (ks : List ℕ) (ms : Map ChannelMessage)
      → Distinct ms
      → lookup k (remove_all ks ms) ≡ (if elem k ks then none else lookup k ms)
  unfolding remove_all
  lookup-remove_all k [] ms d = refl
  lookup-remove_all k (j ∷ ks) ms d =
      let below = lookup-remove_all k ks (remove j ms) (remove-Distinct j ms d) in
      ground (arith, below, lookup-remove j k ms d)

  abbrev pub and_then : Option ChannelMessage → Option ChannelMessage
  and_then none = none
  and_then (some m) = outcome m

  settled : (o : Option ChannelMessage) → (if expires o then none else touched o) ≡ and_then o
  settled none = refl
  settled (some m) = elim (verdict_cases (verdict max_retries now rto m)) [
    | inl kept ↦ rw (kept, touched, expires, and_then, outcome) refl
    | inr (inl expired) ↦ rw (expired, touched, expires, and_then, outcome) refl
    | inr (inr again) ↦ rw (again, touched, expires, and_then, outcome) refl
  ]

  pub lookup-swept :
      (k : ℕ) (ms : Map ChannelMessage)
      → Distinct ms
      → let s = sweep max_retries now rto ms in
        lookup k (remove_all s.expired s.pending) ≡ and_then (lookup k ms)
  lookup-swept k ms d =
      let s = sweep max_retries now rto ms in
      rw
        (
          lookup-remove_all k s.expired s.pending (sweep-Distinct ms d),
          elem-sweep k ms d,
          lookup-sweep k ms,
        )
        (settled (lookup k ms))

  -- the frames in which one call sends message `k` again
  abbrev pub sent_again : ℕ → Option ChannelMessage → List (List ℕ)
  sent_again k none = []
  sent_again k (some m) = elim (verdict max_retries now rto m) [
    | resend ↦ wire_data k m.payload ∷ []
    | _ ↦ []
  ]

  pub framed-retransmits :
      (k : ℕ) (ms : Map ChannelMessage)
      → Distinct ms
      → framed k (sweep max_retries now rto ms).retransmits ≡ sent_again k (lookup k ms)
  unfolding sweep lookup
  framed-retransmits k [] d = refl
  framed-retransmits k ((j, m) ∷ ms) (f, d) =
      let below = framed-retransmits k ms d in
      elim (verdict_cases (verdict max_retries now rto m)) [
        | inl kept ↦ rw (kept, sweep) ground (arith, below, f)
        | inr (inl expired) ↦ rw (expired, sweep) ground (arith, below, f)
        | inr (inr again) ↦ rw (again, sweep) ground (arith, below, f)
      ]
