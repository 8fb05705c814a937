-- ===== src/Channel/Sequenced.antt =====
-- The sequenced modes of a channel, gbnet/src/channel.rs, never go back.
use gbnet.Prelude.{
  ℕ, ◌+◌, ◌%◌, ◌<◌, ◌≡◌, refl, true, false, List, [], ◌∷◌, ◌++◌, inl, inr, arith, ltb, ◌==◌,
  if◌then◌else◌, Bool-cases, append-nil, append_assoc, sym, ap, ◌∙◌,
}
use gbnet.Config.{
  ChannelConfig, DeliveryMode, is_sequenced, unreliable, unreliable_sequenced, reliable_unordered,
  reliable_ordered, reliable_sequenced,
}
use gbnet.Sequence.{sequence_greater_than}
use gbnet.Channel.{Channel, new, wire_data}
use gbnet.Channel.Framing.{counted, on_packet_received-wire_data}
use gbnet.Channel.Receive.{deliver, receive_sequenced, receive_by_mode, on_packet_received}

-- A run of messages, by their numbers in the order of sending, counted from 0.
abbrev pub arrive : (ℕ → List ℕ) → Channel → List ℕ → Channel
arrive m ch [] = ch
arrive m ch (i ∷ arrivals) =
    arrive m (on_packet_received ch 0 (wire_data (i % 65536) (m i))) arrivals

-- What a sequenced receiver should deliver: the first message, then each one that is newer than
-- every message delivered before.
abbrev newest_after : (ℕ → List ℕ) → ℕ → List ℕ → List (List ℕ)
newest_after m latest [] = []
newest_after m latest (i ∷ arrivals) =
    if ltb latest i then m i ∷ newest_after m i arrivals else newest_after m latest arrivals

abbrev pub newest : (ℕ → List ℕ) → List ℕ → List (List ℕ)
newest m [] = []
newest m (i ∷ arrivals) = m i ∷ newest_after m i arrivals

-- Each message is less than half the number space away from the newest one before it.
abbrev pub IsNear : ℕ → List ℕ → Type 0
IsNear latest [] = Unit
IsNear latest (i ∷ arrivals) =
    (i < latest + 32768)
    × (latest < i + 32768)
    × IsNear (if ltb latest i then i else latest) arrivals

by_mode :
    (d : DeliveryMode) (ch : Channel) (now seq : ℕ) (payload : List ℕ)
    → is_sequenced d ≡ true
    → receive_by_mode d ch now seq payload ≡ receive_sequenced ch seq payload
unfolding receive_by_mode
by_mode unreliable ch now seq payload e = cc
by_mode unreliable_sequenced ch now seq payload e = refl
by_mode reliable_unordered ch now seq payload e = cc
by_mode reliable_ordered ch now seq payload e = cc
by_mode reliable_sequenced ch now seq payload e = refl

-- How the numbers of the messages compare, on the wire.
compare_lem :
    (i latest s : ℕ)
    → s ≡ latest % 65536
    → i < latest + 32768
    → latest < i + 32768
    → sequence_greater_than (i % 65536) s ≡ ltb latest i
unfolding sequence_greater_than
compare_lem i latest s at hi lo = ground arith

-- the state of the receiver once `latest` is the newest message delivered
abbrev IsAt : ℕ → Channel → Type 0
IsAt latest ch =
    (ch.last_received_sequence ≡ latest % 65536)
    × (0 < ch.messages_received)
    × (is_sequenced ch.config.delivery_mode ≡ true)

abbrev packet : (ℕ → List ℕ) → Channel → ℕ → Channel
packet m ch i = on_packet_received ch 0 (wire_data (i % 65536) (m i))

-- One message: delivered exactly when it is newer.
packet_lem :
    (m : ℕ → List ℕ) (ch : Channel) (latest i : ℕ)
    → i < latest + 32768
    → latest < i + 32768
    → IsAt latest ch
    → ((packet m ch i).delivery_queue
        ≡ ch.delivery_queue ++ (if ltb latest i then m i ∷ [] else []))
      × IsAt (if ltb latest i then i else latest) (packet m ch i)
unfolding receive_sequenced deliver
packet_lem m ch latest i hi lo (at, some_received, mode) =
    let c = compare_lem i latest ch.last_received_sequence at hi lo in
    let e : (ch.messages_received == 0) ≡ false = ground arith in
    rw
      (
        on_packet_received-wire_data ch 0 (i % 65536) (m i) (omega arith),
        by_mode ch.config.delivery_mode (counted ch (m i)) 0 (i % 65536) (m i) mode,
      )
      (elim (Bool-cases (ltb latest i)) [
        | inl newer ↦ rw (newer, c ∙ newer, receive_sequenced) (refl, (refl, omega arith, mode))
        | inr older ↦
            rw (older, c ∙ older, e, receive_sequenced)
              (sym (append-nil ch.delivery_queue), (at, some_received, mode))
      ])

newest_step :
    (m : ℕ → List ℕ) (latest i : ℕ) (arrivals : List ℕ) (q : List (List ℕ))
    → (q ++ (if ltb latest i then m i ∷ [] else []))
        ++ newest_after m (if ltb latest i then i else latest) arrivals
      ≡ q ++ newest_after m latest (i ∷ arrivals)
newest_step m latest i arrivals q = elim (Bool-cases (ltb latest i)) [
  | inl newer ↦ rw newer (append_assoc q (m i ∷ []) (newest_after m i arrivals))
  | inr older ↦ rw (older, append-nil) refl
]

arrive_lem :
    (m : ℕ → List ℕ) (latest : ℕ) (ch : Channel) (arrivals : List ℕ)
    → IsNear latest arrivals
    → IsAt latest ch
    → (arrive m ch arrivals).delivery_queue ≡ ch.delivery_queue ++ newest_after m latest arrivals
arrive_lem m latest ch [] near at = sym (append-nil ch.delivery_queue)
arrive_lem m latest ch (i ∷ arrivals) (hi, lo, near) at =
    let (q, at') = packet_lem m ch latest i hi lo at in
    let newer = ltb latest i in
    let step : (arrive m (packet m ch i) arrivals).delivery_queue
        ≡ (ch.delivery_queue ++ (if newer then m i ∷ [] else []))
          ++ newest_after m (if newer then i else latest) arrivals =
      arrive_lem m (if newer then i else latest) (packet m ch i) arrivals near at'
      ∙ ap (λ l. l ++ newest_after m (if newer then i else latest) arrivals) q in
    step ∙ newest_step m latest i arrivals ch.delivery_queue

first_lem :
    (m : ℕ → List ℕ) (id i : ℕ) (config : ChannelConfig)
    → is_sequenced config.delivery_mode ≡ true
    → ((packet m (new id config) i).delivery_queue ≡ m i ∷ []) × IsAt i (packet m (new id config) i)
unfolding new receive_sequenced deliver
first_lem m id i config mode =
    rw
      (
        on_packet_received-wire_data (new id config) 0 (i % 65536) (m i) (omega arith),
        by_mode config.delivery_mode (counted (new id config) (m i)) 0 (i % 65536) (m i) mode,
      )
      (elim (Bool-cases (sequence_greater_than (i % 65536) 0)) [
        | inl greater ↦ rw (greater, receive_sequenced) (refl, (refl, omega arith, mode))
        | inr first ↦ rw (first, receive_sequenced) (refl, (refl, omega arith, mode))
      ])

-- On a new channel of either sequenced mode, let a sender's messages arrive in any order, lost
-- or repeated, each less than 2^15 away from the newest that has arrived. Then the channel
-- delivers the first that arrives, and after it exactly those that are newer than all before.
pub sequenced_newest :
    (m : ℕ → List ℕ) (id i : ℕ) (config : ChannelConfig) (arrivals : List ℕ)
    → is_sequenced config.delivery_mode ≡ true
    → IsNear i arrivals
    → (arrive m (new id config) (i ∷ arrivals)).delivery_queue ≡ newest m (i ∷ arrivals)
sequenced_newest m id i config arrivals mode near =
    let (q, at) = first_lem m id i config mode in
    arrive_lem m i (packet m (new id config) i) arrivals near at
    ∙ ap (λ l. l ++ newest_after m i arrivals) q
