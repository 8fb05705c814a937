-- ===== src/Channel/Sending.antt =====
-- What becomes of a reliable message that is not acknowledged, gbnet/src/channel.rs.
use gbnet.Prelude.{
  ℕ, ◌+◌, ◌-◌, ◌*◌, ◌^◌, min, ◌≤◌, ◌<◌, ◌≡◌, ◌⊎◌, inl, inr, refl, true, leb, Option, none, some,
  List, [], ◌∷◌, arith, Bool-cases, Option-cases,
}
use gbnet.Prelude.Maps.{Map, lookup, remove, Distinct, remove-Distinct}
use gbnet.Config.{is_reliable}
use gbnet.Channel.{
  ChannelMessage, Channel, keep, expire, resend, verdict, sweep, remove_all,
  get_retransmit_messages, wire_data, backoff_rto,
}
use gbnet.Channel.Sweeping.{
  sweep-Distinct, outcome, and_then, lookup-swept, sent_again, framed, framed-retransmits,
}

-- The timeout of a message has passed: it doubles with every retry, five times at most.
abbrev pub IsDue : ℕ → ℕ → ChannelMessage → Type 0
IsDue now rto m = (t : ℕ) × (m.send_time ≡ some t) × (rto * 2 ^ min m.retry_count 5 ≤ now - t)

-- A message was never sent, or its timeout has not passed.
abbrev pub IsEarly : ℕ → ℕ → ChannelMessage → Type 0
IsEarly now rto m =
    (m.send_time ≡ none)
    ⊎ ((t : ℕ) × (m.send_time ≡ some t) × (now - t < rto * 2 ^ min m.retry_count 5))

-- What becomes of a pending message, and the frames in which it is sent: it is left as it is; or
-- it is due, has retries left, is counted, and is framed once; or it is due and is given up.
abbrev pub IsTreated :
    ℕ → ℕ → ℕ → ℕ → ChannelMessage → Option ChannelMessage → List (List ℕ) → Type 0
IsTreated max_retries now rto k m left frames =
    (IsEarly now rto m × (left ≡ some m) × (frames ≡ []))
    ⊎ (IsDue now rto m
        × (m.retry_count < max_retries)
        × (left ≡ some (record m { retry_count = m.retry_count + 1; send_time = some now }))
        × (frames ≡ wire_data k m.payload ∷ []))
    ⊎ (IsDue now rto m × (max_retries ≤ m.retry_count) × (left ≡ none) × (frames ≡ []))

verdict-meaning :
    (max_retries now rto : ℕ) (m : ChannelMessage)
    → (IsEarly now rto m × (verdict max_retries now rto m ≡ keep))
      ⊎ (IsDue now rto m × (m.retry_count < max_retries) × (verdict max_retries now rto m ≡ resend))
      ⊎ (IsDue now rto m × (max_retries ≤ m.retry_count) × (verdict max_retries now rto m ≡ expire))
unfolding verdict
verdict-meaning max_retries now rto m = elim (Option-cases m.send_time) [
  | inl e ↦ inl (inl e, rw (e) refl)
  | inr (t, e) ↦ elim (Bool-cases (leb (backoff_rto rto m) (now - t))) [
    | inr early ↦ inl (inr (t, e, ground (arith, early)), rw (e) (rw (early) refl))
    | inl late ↦ elim (Bool-cases (leb max_retries m.retry_count)) [
      | inl spent ↦ inr (
          inr ((t, e, ground (arith, late)), ground (arith, spent), rw (e) (rw (late, spent) refl)))
      | inr again ↦ inr (
          inl ((t, e, ground (arith, late)), ground (arith, again), rw (e) (rw (late, again) refl)))
    ]
  ]
]

outcome-IsTreated :
    (max_retries now rto k : ℕ) (m : ChannelMessage)
    → IsTreated max_retries now rto k m
        (and_then max_retries now rto (some m))
        (sent_again max_retries now rto k (some m))
outcome-IsTreated max_retries now rto k m = elim (verdict-meaning max_retries now rto m) [
  | inl (early, v) ↦ rw (v, and_then, outcome, sent_again) (inl (early, refl, refl))
  | inr (inl (due, again, v)) ↦
      rw (v, and_then, outcome, sent_again) (inr (inl (due, again, refl, refl)))
  | inr (inr (due, spent, v)) ↦
      rw (v, and_then, outcome, sent_again) (inr (inr (due, spent, refl, refl)))
]

-- On a reliable channel, whose pending messages have different numbers, a call of
-- `get_retransmit_messages` treats each pending message by itself. One that was never sent, or whose
-- timeout has not passed, stays as it is and is not framed; one that is due and has retries left is
-- counted and framed once; one that is due and has none left is removed and not framed. The timeout
-- is doubled with every retry, five times at most. A number that is not pending is neither added
-- nor sent.
pub get_retransmit_messages-lookup :
    (ch : Channel) (now rto k : ℕ)
    → is_reliable ch.config.delivery_mode ≡ true
    → Distinct ch.pending_ack
    → let (ch', frames) = get_retransmit_messages ch now rto in
      ((lookup k ch.pending_ack ≡ none)
        × (lookup k ch'.pending_ack ≡ none)
        × (framed k frames ≡ []))
      ⊎ ((m : ChannelMessage) × (lookup k ch.pending_ack ≡ some m)
          × IsTreated ch.config.max_reliable_retries now rto k m
              (lookup k ch'.pending_ack)
              (framed k frames))
unfolding get_retransmit_messages
get_retransmit_messages-lookup ch now rto k reliable d =
    let max_retries = ch.config.max_reliable_retries in
    let left = lookup-swept max_retries now rto k ch.pending_ack d in
    let again = framed-retransmits max_retries now rto k ch.pending_ack d in
    rw (reliable, get_retransmit_messages)
      (rw (left, again)
        (elim (Option-cases (lookup k ch.pending_ack)) [
          | inl e ↦ rw e (inl (refl, refl, refl))
          | inr (m, e) ↦ rw e (inr (m, refl, outcome-IsTreated max_retries now rto k m))
        ]))

remove_all-Distinct :
    (ks : List ℕ) (ms : Map ChannelMessage) → Distinct ms → Distinct (remove_all ks ms)
unfolding remove_all
remove_all-Distinct [] ms d = d
remove_all-Distinct (k ∷ ks) ms d = remove_all-Distinct ks (remove k ms) (remove-Distinct k ms d)

pub get_retransmit_messages-Distinct :
    (ch : Channel) (now rto : ℕ)
    → is_reliable ch.config.delivery_mode ≡ true
    → Distinct ch.pending_ack
    → Distinct (get_retransmit_messages ch now rto).0.pending_ack
      × ((get_retransmit_messages ch now rto).0.config ≡ ch.config)
unfolding get_retransmit_messages
get_retransmit_messages-Distinct ch now rto reliable d =
    rw (reliable, get_retransmit_messages)
      (
        remove_all-Distinct (sweep ch.config.max_reliable_retries now rto ch.pending_ack).expired
            (sweep ch.config.max_reliable_retries now rto ch.pending_ack).pending
            (sweep-Distinct ch.config.max_reliable_retries now rto ch.pending_ack d),
        refl,
      )
