-- ===== src/Channel/Retries.antt =====
-- How often a reliable message is sent again, gbnet/src/channel.rs.
use gbnet.Prelude.{
  ℕ, ◌+◌, ◌≤◌, ◌≡◌, ◌⊎◌, inl, inr, refl, true, none, some, List, [], ◌∷◌, ◌++◌, length, arith, ap,
  ◌∙◌,
}
use gbnet.Prelude.Maps.{lookup, Distinct}
use gbnet.Config.{is_reliable}
use gbnet.Channel.{ChannelMessage, Channel, get_retransmit_messages}
use gbnet.Channel.Sweeping.{framed}
use gbnet.Channel.Sending.{get_retransmit_messages-lookup, get_retransmit_messages-Distinct}

-- A channel whose messages are not acknowledged: the calls of `get_retransmit_messages` at the given
-- times, with the timeouts at these, and all the frames that they give.
abbrev pub retransmit_at : Channel → List (ℕ × ℕ) → Channel × List (ℕ × List ℕ)
retransmit_at ch [] = (ch, [])
retransmit_at ch ((now, rto) ∷ calls) =
    let (ch', frames) = get_retransmit_messages ch now rto in
    let (ch'', more) = retransmit_at ch' calls in (ch'', frames ++ more)

-- A message was sent again no more often than the retries that it had left, and if it is still
-- pending, each time was counted.
pub record WithinRetries (max_retries k : ℕ) (m : ChannelMessage) (ch : Channel)
    (frames : List (ℕ × List ℕ)) : Type 0 where
  pub within : m.retry_count + length (framed k frames) ≤ max_retries
  pub counted :
      (lookup k ch.pending_ack ≡ none)
      ⊎ ((m' : ChannelMessage) × (lookup k ch.pending_ack ≡ some m')
          × (m'.retry_count ≡ m.retry_count + length (framed k frames)))

length-framed-append :
    (k : ℕ) (xs ys : List (ℕ × List ℕ))
    → length (framed k (xs ++ ys)) ≡ length (framed k xs) + length (framed k ys)
length-framed-append k [] ys = ground arith
length-framed-append k ((j, frame) ∷ xs) ys = ground (arith, length-framed-append k xs ys)

-- What is not pending is not sent.
retransmit_at-absent :
    (ch : Channel) (calls : List (ℕ × ℕ)) (k : ℕ)
    → is_reliable ch.config.delivery_mode ≡ true
    → Distinct ch.pending_ack
    → lookup k ch.pending_ack ≡ none
    → (lookup k (retransmit_at ch calls).0.pending_ack ≡ none)
      × (length (framed k (retransmit_at ch calls).1) ≡ 0)
retransmit_at-absent ch [] k reliable d e = (e, refl)
retransmit_at-absent ch ((now, rto) ∷ calls) k reliable d e =
    let (ch', frames) = get_retransmit_messages ch now rto in
    let (d', same) = get_retransmit_messages-Distinct ch now rto reliable d in
    elim (get_retransmit_messages-lookup ch now rto k reliable d) [
      | inr (m, h, _) ↦ absurd cc
      | inl (_, gone, quiet) ↦
          let (still, none_later) = retransmit_at-absent ch' calls k (rw same reliable) d' gone in
          (
            still,
            length-framed-append k frames (retransmit_at ch' calls).1
                ∙ omega (arith, ap length quiet, none_later),
          )
    ]

-- Frames that were counted before count on.
WithinRetries-append :
    (max_retries k : ℕ) (m m₁ : ChannelMessage) (ch : Channel) (frames more : List (ℕ × List ℕ))
    → m₁.retry_count ≡ m.retry_count + length (framed k frames)
    → WithinRetries max_retries k m₁ ch more
    → WithinRetries max_retries k m ch (frames ++ more)
WithinRetries-append max_retries k m m₁ ch frames more e w =
    let both = length-framed-append k frames more in
    record {
      within = omega (arith, both, e, w.within);
      counted = elim w.counted [
        | inl gone ↦ inl gone
        | inr (m', at, count) ↦ inr (m', at, omega (arith, both, e, count))
      ];
    }

-- However often, whenever and with whatever timeouts a reliable channel, whose pending messages have
-- different numbers, is asked for retransmissions, let a pending message be within
-- `max_reliable_retries`: the frames in which it is sent again, and the times that it was sent again
-- before, are together no more than this; and if it is still pending then, its count has grown by
-- their number.
pub retransmit_at-WithinRetries :
    (ch : Channel) (calls : List (ℕ × ℕ)) (k : ℕ) (m : ChannelMessage)
    → is_reliable ch.config.delivery_mode ≡ true
    → Distinct ch.pending_ack
    → lookup k ch.pending_ack ≡ some m
    → m.retry_count ≤ ch.config.max_reliable_retries
    → let (ch', frames) = retransmit_at ch calls in
      WithinRetries ch.config.max_reliable_retries k m ch' frames
retransmit_at-WithinRetries ch [] k m reliable d e h = record {
  within = omega (arith, h);
  counted = inr (m, e, omega arith);
}
retransmit_at-WithinRetries ch ((now, rto) ∷ calls) k m reliable d e h =
    let (ch', frames) = get_retransmit_messages ch now rto in
    let (d', same) = get_retransmit_messages-Distinct ch now rto reliable d in
    let more = (retransmit_at ch' calls).1 in
    let reliable' : is_reliable ch'.config.delivery_mode ≡ true = rw same reliable in
    elim (get_retransmit_messages-lookup ch now rto k reliable d) [
      | inl (gone, _, _) ↦ absurd cc
      | inr (m₀, e₀, inl (_, left, quiet)) ↦
          let one : m₀ ≡ m = cc in
          let bound : m₀.retry_count ≤ ch'.config.max_reliable_retries = rw same (rw one h) in
          let later = retransmit_at-WithinRetries ch' calls k m₀ reliable' d' left bound in
          WithinRetries-append _ k m m₀ _ frames more (rw one omega (arith, ap length quiet))
            (rw same at later)
      | inr (m₀, e₀, inr (inl (_, room, left, sent))) ↦
          let one : m₀ ≡ m = cc in
          let m₁ = record m₀ { retry_count = m₀.retry_count + 1; send_time = some now } in
          let bound : m₁.retry_count ≤ ch'.config.max_reliable_retries =
            rw same omega (arith, room) in
          let later = retransmit_at-WithinRetries ch' calls k m₁ reliable' d' left bound in
          WithinRetries-append _ k m m₁ _ frames more (rw one omega (arith, ap length sent))
            (rw same at later)
      | inr (m₀, e₀, inr (inr (_, _, left, quiet))) ↦
          let (still, none_later) = retransmit_at-absent ch' calls k reliable' d' left in
          let both = length-framed-append k frames more in
          record {
            within = omega (arith, both, ap length quiet, none_later, h);
            counted = inl still;
          }
    ]
