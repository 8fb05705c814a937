-- ===== src/Channel/Ordered.antt =====
-- A reliable-ordered channel of gbnet/src/channel.rs delivers a prefix of what was sent.
use gbnet.Prelude.{ℕ, ◌+◌, ◌%◌, ◌<◌, ◌≡◌, refl, List, [], ◌∷◌, arith}
use gbnet.Prelude.Maps.{lookup}
use gbnet.Config.{ChannelConfig, reliable_ordered}
use gbnet.Channel.{Channel, new, wire_data}
use gbnet.Channel.Receive.{on_packet_received}
use gbnet.Channel.Drain.{upto, IsOrdered}
use gbnet.Channel.Step.{on_packet_received-IsOrdered}

-- A run: message `i` arrives at the time `now`, for each of the list in turn.
abbrev pub arrive : (ℕ → List ℕ) → Channel → List (ℕ × ℕ) → Channel
arrive m ch [] = ch
arrive m ch ((i, now) ∷ arrivals) =
    arrive m (on_packet_received ch now (wire_data (i % 65536) (m i))) arrivals

-- Each message that arrives is less than half the number space away from the one waited for.
abbrev pub IsNear : (ℕ → List ℕ) → Channel → List (ℕ × ℕ) → Type 0
IsNear m ch [] = Unit
IsNear m ch ((i, now) ∷ arrivals) =
    (ch.messages_received < i + 32768)
    × (i < ch.messages_received + 32768)
    × IsNear m (on_packet_received ch now (wire_data (i % 65536) (m i))) arrivals

pub arrive-IsOrdered :
    (m : ℕ → List ℕ) (ch : Channel) (arrivals : List (ℕ × ℕ))
    → IsNear m ch arrivals
    → IsOrdered m ch
    → IsOrdered m (arrive m ch arrivals)
arrive-IsOrdered m ch [] near o = o
arrive-IsOrdered m ch ((i, now) ∷ arrivals) (lo, hi, near) o =
    arrive-IsOrdered m (on_packet_received ch now (wire_data (i % 65536) (m i))) arrivals near
      (on_packet_received-IsOrdered m ch now i lo hi o)

pub new-IsOrdered :
    (m : ℕ → List ℕ) (id : ℕ) (config : ChannelConfig)
    → config.delivery_mode ≡ reliable_ordered
    → IsOrdered m (new id config)
unfolding new lookup
new-IsOrdered m id config c = ((refl, omega arith, tt, λ k v l. absurd cc), refl, c)

-- Let a sender number its messages from 0, each number on the wire modulo 2^16, and let them
-- arrive at a new reliable-ordered channel in any order, lost or repeated, each less than 2^15
-- away from the one that is waited for. Then what the channel delivers is the sender's first
-- messages, in order, each once, as many as `messages_received` says, whatever is evicted from
-- the buffer; and the channel waits for the next.
pub reliable_ordered_prefix :
    (m : ℕ → List ℕ) (id : ℕ) (config : ChannelConfig) (arrivals : List (ℕ × ℕ))
    → config.delivery_mode ≡ reliable_ordered
    → IsNear m (new id config) arrivals
    → let ch = arrive m (new id config) arrivals in
      (ch.delivery_queue ≡ upto m ch.messages_received)
      × (ch.receive_sequence ≡ ch.messages_received % 65536)
reliable_ordered_prefix m id config arrivals c near =
    let ((q, r, d, h), w, c') =
      arrive-IsOrdered m (new id config) arrivals near (new-IsOrdered m id config c) in
    (q, r)
