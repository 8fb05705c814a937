-- ===== src/Channel/Framing.antt =====
-- A message that `Channel::get_outgoing_message` of gbnet/src/channel.rs has framed is taken
-- apart again by `on_packet_received`.
use gbnet.Prelude.{ℕ, ◌+◌, ◌<◌, ◌≡◌, refl, false, List, arith, ltb, length}
use gbnet.Prelude.Bytes.{u16_from-to_be_bytes}
use gbnet.Channel.{Channel, wire_data}
use gbnet.Channel.Receive.{receive_by_mode, on_packet_received}

-- `payload.len()` is counted before the message is handled.
abbrev pub counted : Channel → List ℕ → Channel
counted ch payload = record ch { bytes_received = ch.bytes_received + length payload }

-- A framed message is handled, with its number and payload, as the mode of the channel says.
pub on_packet_received-wire_data :
    (ch : Channel) (now seq : ℕ) (payload : List ℕ)
    → seq < 65536
    → on_packet_received ch now (wire_data seq payload)
      ≡ receive_by_mode ch.config.delivery_mode (counted ch payload) now seq payload
unfolding on_packet_received
on_packet_received-wire_data ch now seq payload h =
    let long : ltb (length (wire_data seq payload)) 2 ≡ false = ground arith in
    rw (long, u16_from-to_be_bytes seq h, on_packet_received) refl
