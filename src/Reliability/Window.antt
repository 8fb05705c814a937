-- ===== src/Reliability/Window.antt =====
-- What `on_packet_received` of gbnet/src/reliability.rs makes of the acknowledgment that goes out.
use Prim.Native.Nat.{bit_or}
use gbnet.Prelude.{
  ℕ, ◌+◌, ◌-◌, ◌*◌, ◌%◌, ◌^◌, ◌≤◌, ◌<◌, ◌≡◌, ◌⊎◌, inl, inr, Bool, true, false, ◌&&◌, ◌||◌, arith,
  leb, ltb, ◌==◌, if◌then◌else◌, Bool-cases,
}
use gbnet.Prelude.Int.{pos_part, neg_part}
use gbnet.Prelude.Bits.{test_bit, test_bit-or, test_bit-pow, test_bit-shift, test_bit-mod}
use gbnet.Config.{default_max_sequence_distance}
use gbnet.Float.{Float}
use gbnet.Sequence.{IsSeq, sequence_greater_than, sequence_diff}
use gbnet.SequenceBuffer
use gbnet.SequenceBuffer.{exists}
use gbnet.Reliability.{
  ReliableEndpoint, wrapping_sub, shift_left, one_bit, ack_window, on_packet_received, get_ack_info,
}
use gbnet.Reliability.Acks.{acknowledges}

-- The bits after a packet that is `d` newer: the old ones move up, and one is set for the
-- number that was the newest.
test_bit-newer :
    (bits d i : ℕ)
    → 0 < d
    → d < 64
    → i < 64
    → test_bit (bit_or (shift_left bits d) (one_bit (d - 1))) i
      ≡ (if ltb i d then i + 1 == d else test_bit bits (i - d))
test_bit-newer bits d i h k l =
    let (e, e') : (d % 64 ≡ d) × ((d - 1) % 64 ≡ d - 1) = (omega arith, omega arith) in
    rw (test_bit-or (shift_left bits d) (one_bit (d - 1)) i, e, e')
      (ground
        (arith, test_bit-mod (bits * 2 ^ d) 64 i, test_bit-shift bits d i, test_bit-pow (d - 1) i))

test_bit-older :
    (bits d i : ℕ)
    → 0 < d
    → d ≤ 64
    → test_bit (bit_or bits (one_bit (d - 1))) i ≡ (test_bit bits i || i + 1 == d)
test_bit-older bits d i h k =
    let e : (d - 1) % 64 ≡ d - 1 = omega arith in
    rw (test_bit-or bits (one_bit (d - 1)) i, e) (ground (arith, test_bit-pow (d - 1) i))

-- A packet that is newer by less than 64.
acknowledges-newer :
    (bits s t r : ℕ)
    → IsSeq s
    → IsSeq t
    → IsSeq r
    → 0 < wrapping_sub s r
    → wrapping_sub s r < 64
    → wrapping_sub s t ≤ 64
    → let d = wrapping_sub s r in
      acknowledges s (bit_or (shift_left bits d) (one_bit (d - 1))) t
      ≡ (s == t || acknowledges r bits t)
unfolding acknowledges
acknowledges-newer bits s t r p q o h k w =
    let d = wrapping_sub s r in
    let b' = wrapping_sub s t in
    let b = wrapping_sub r t in
    elim (Bool-cases (ltb b' d)) [
      | inl between ↦
          let far : b ≡ b' + 65536 - d = ground arith in
          ground (arith, far, test_bit-newer bits d (b' - 1) h k)
      | inr past ↦
          let near : b ≡ b' - d = ground arith in
          let bit : b - 1 ≡ b' - 1 - d = omega (arith, near) in
          rw bit (ground (arith, near, test_bit-newer bits d (b' - 1) h k))
    ]

-- A packet that is older by at most 64.
acknowledges-older :
    (bits s t r : ℕ)
    → IsSeq s
    → IsSeq t
    → IsSeq r
    → 0 < wrapping_sub r s
    → wrapping_sub r s ≤ 64
    → acknowledges r (bit_or bits (one_bit (wrapping_sub r s - 1))) t
      ≡ (s == t || acknowledges r bits t)
unfolding acknowledges
acknowledges-older bits s t r p q o h k =
    let same : (wrapping_sub r s == wrapping_sub r t) ≡ (s == t) = ground arith in
    ground (arith, same, test_bit-older bits (wrapping_sub r s) (wrapping_sub r t - 1) h k)

ahead_diff :
    (s r : ℕ)
    → IsSeq s
    → IsSeq r
    → 0 < wrapping_sub s r
    → wrapping_sub s r < 32768
    → (sequence_greater_than s r ≡ true) × (pos_part (sequence_diff s r) ≡ wrapping_sub s r)
unfolding sequence_greater_than sequence_diff
ahead_diff s r p q h k = ground arith

behind_diff :
    (s r : ℕ)
    → IsSeq s
    → IsSeq r
    → wrapping_sub r s < 32768
    → (sequence_greater_than s r ≡ false) × (pos_part (sequence_diff r s) ≡ wrapping_sub r s)
unfolding sequence_greater_than sequence_diff
behind_diff s r p q k = ground arith

distance :
    (s r : ℕ) → let d = sequence_diff s r in IsSeq s → IsSeq r → pos_part d + neg_part d ≤ 32768
unfolding sequence_diff
distance s r p q = ground arith

module _ {ℓ} {W : Type ℓ} ⦃f : Float W⦄ where
  abbrev says : ReliableEndpoint W → ℕ → Bool
  says e t = acknowledges e.remote_sequence e.ack_bits t

  ack_window-newer :
      (s t : ℕ) (e : ReliableEndpoint W)
      → IsSeq s
      → IsSeq t
      → IsSeq e.remote_sequence
      → 0 < wrapping_sub s e.remote_sequence
      → wrapping_sub s e.remote_sequence < 64
      → wrapping_sub s t ≤ 64
      → says (ack_window e s) t ≡ (s == t || says e t)
  unfolding ack_window acknowledges
  ack_window-newer s t e p q o h k w =
      let r = e.remote_sequence in
      let (gt, at) = ahead_diff s r p o h (omega (arith, k)) in
      let small : leb (wrapping_sub s r) 64 ≡ true = ground arith in
      rw gt (rw at (rw small (acknowledges-newer e.ack_bits s t r p q o h k w)))

  ack_window-older :
      (s t : ℕ) (e : ReliableEndpoint W)
      → IsSeq s
      → IsSeq t
      → IsSeq e.remote_sequence
      → wrapping_sub e.remote_sequence s ≤ 64
      → says (ack_window e s) t ≡ (s == t || says e t)
  unfolding ack_window
  ack_window-older s t e p q o k =
      let r = e.remote_sequence in
      let (gt, at) = behind_diff s r p o (omega (arith, k)) in
      elim (Bool-cases (ltb 0 (wrapping_sub r s))) [
        | inl some_behind ↦
            let small : leb (wrapping_sub r s) 64 ≡ true = ground arith in
            rw gt (
              rw at (
                rw some_behind
                  (rw small (acknowledges-older e.ack_bits s t r p q o (ground arith) k))))
        | inr level ↦ rw gt (rw at (rw level (unfold acknowledges in ground arith)))
      ]

  -- Let a packet arrive that is less than 64 newer than the newest, or at most 64 older, and
  -- that the buffer does not hold, and let the endpoint have the default limit on distances.
  -- Then the acknowledgment that goes out names this packet, and of the others that lie at most 64
  -- behind the newest exactly those that it named before.
  pub acknowledges-on_packet_received :
      (s t : ℕ) (e : ReliableEndpoint W)
      → IsSeq s
      → IsSeq t
      → IsSeq e.remote_sequence
      → e.max_sequence_distance ≡ default_max_sequence_distance
      → exists e.received_packets s ≡ false
      → (wrapping_sub s e.remote_sequence < 64) ⊎ (wrapping_sub e.remote_sequence s ≤ 64)
      → wrapping_sub (on_packet_received e s).remote_sequence t ≤ 64
      → let (ack, bits) = get_ack_info e in
        let (ack', bits') = get_ack_info (on_packet_received e s) in
        acknowledges ack' bits' t ≡ (s == t || acknowledges ack bits t)
  unfolding on_packet_received ack_window
  acknowledges-on_packet_received s t e p q o m n near w =
      let r = e.remote_sequence in
      let d = sequence_diff s r in
      let inside : ltb e.max_sequence_distance (pos_part d + neg_part d) ≡ false =
        ground (arith, distance s r p o) in
      let e' = record e { received_packets = SequenceBuffer.insert e.received_packets s true } in
      elim (Bool-cases (ltb 0 (wrapping_sub s r) && ltb (wrapping_sub s r) 64)) [
        | inl newer ↦
            let (gt, at) = ahead_diff s r p o (ground arith) (ground arith) in
            let w' : wrapping_sub s t ≤ 64 = (rw gt at (rw n at (rw inside at w))) in
            rw inside (rw n (ack_window-newer s t e' p q o (ground arith) (ground arith) w'))
        | inr older ↦ rw inside (rw n (ack_window-older s t e' p q o (ground arith)))
      ]
