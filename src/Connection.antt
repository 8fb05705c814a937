-- ===== src/Connection.antt =====
-- The state of a connection, gbnet/src/connection/mod.rs: its fields, its creation, and the
-- operations that do not depend on its state machine. Each `Instant::now()` is an argument.
-- The addresses are not among the fields, nor is the state of the encryption, since only input
-- and output read them. Floats are a parameter: `V` stands for f32 and `W` for f64.
pub mod Operations
pub mod Handshake
pub mod Sending
pub mod Tick
pub mod Io
pub mod Datagrams
pub mod Machine
pub mod Still
pub mod Refine
pub mod Rounds
pub mod Run
pub mod Closing
mod Tests
use Prim.Native.Nat.{bit_xor}
use gbnet.Prelude.{
  ℕ, zero, suc, ◌+◌, ◌-◌, ◌*◌, ◌%◌, ◌≡◌, Bool, true, false, not, ◌&&◌, Option, none, some, List, [],
  ◌∷◌, ◌++◌, Result, ok, err, ltb, leb, ◌==◌, if◌then◌else◌, length, set, get_or, map,
}
use gbnet.Prelude.Maps.{Map, retain}
use gbnet.Float.{Float}
use gbnet.Config.{ChannelConfig, secs}
use gbnet.Config.Network.{NetworkConfig}
use gbnet.Sequence.{next_seq, sequence_greater_than}
use gbnet.Channel
use gbnet.Channel.{Channel, ChannelError}
use gbnet.Channel.Receive
use gbnet.Congestion.{CongestionController, new_controller}
use gbnet.Congestion.Cwnd
use gbnet.Congestion.Cwnd.{CongestionWindow}
use gbnet.Congestion.Bandwidth
use gbnet.Congestion.Bandwidth.{BandwidthTracker}
use gbnet.Fragment.{FragmentAssembler, new_assembler}
use gbnet.Mtu
use gbnet.Mtu.{MtuDiscovery, min_mtu_bytes}
use gbnet.Packet.{Packet, PacketHeader}
use gbnet.Stats.{NetworkStats}
use gbnet.Reliability
use gbnet.Reliability.{ReliableEndpoint}

pub data ConnectionState : Type 0 where
  disconnected connecting challenge_response connected disconnecting : ConnectionState

-- The error that wraps one of the socket is left to input and output.
pub data ConnectionError : Type 0 where
  not_connected already_connected timeout protocol_mismatch invalid_packet message_too_large :
      ConnectionError
  connection_denied invalid_channel : ℕ → ConnectionError
  channel_error : ChannelError → ConnectionError

pub data DisconnectReason : Type 0 where
  timed_out requested kicked server_full mismatch : DisconnectReason
  unknown : ℕ → DisconnectReason

-- `From<u8>`
abbrev pub reason_of : ℕ → DisconnectReason
reason_of code =
    if code == 0
    then timed_out
    else if code == 1
    then requested
    else if code == 2
    then kicked
    else if code == 3
    then server_full
    else if code == 4
    then mismatch
    else unknown code

pub record Connection {ℓ κ} (V : Type ℓ) (W : Type κ) : Type (ℓ ⊔ κ) where
  pub config : NetworkConfig V
  pub state : ConnectionState
  pub client_salt : ℕ
  pub server_salt : ℕ
  pub last_packet_send_time : ℕ
  pub last_packet_recv_time : ℕ
  pub connection_start_time : Option ℕ
  pub connection_request_time : Option ℕ
  pub connection_retry_count : ℕ
  pub local_sequence : ℕ
  pub remote_sequence : ℕ
  pub ack_bits : ℕ
  pub reliability : ReliableEndpoint W
  pub channels : List Channel
  pub send_queue : List Packet
  pub recv_queue : List Packet
  pub congestion : CongestionController V W
  pub cwnd : Option (CongestionWindow W)
  pub bandwidth_up : BandwidthTracker
  pub bandwidth_down : BandwidthTracker
  pub fragment_assembler : FragmentAssembler
  pub mtu_discovery : MtuDiscovery
  pub channel_priority_order : List ℕ
  pub stats : NetworkStats V
  pub disconnect_retry_count : ℕ
  pub disconnect_time : Option ℕ
  pub pending_ack_send : Bool
  pub data_sent_this_tick : Bool
  pub next_fragment_id : ℕ
  -- packet number, fragment index and data
  pub pending_fragments : Map (List (ℕ × ℕ × List ℕ))

-- The channels from number `i` on: the configured ones, then `n` more by default.
unfoldable pub default_channels : ℕ → ℕ → ChannelConfig → List Channel
default_channels zero i config = []
default_channels (suc n) i config = Channel.new (i % 256) config ∷ default_channels n (i + 1) config

unfoldable pub configured_channels : ℕ → List ChannelConfig → List Channel
configured_channels i [] = []
configured_channels i (config ∷ configs) =
    Channel.new (i % 256) config ∷ configured_channels (i + 1) configs

-- A stable sort by priority: an index goes before those of a greater priority.
unfoldable pub insert_by_priority : ℕ × ℕ → List (ℕ × ℕ) → List (ℕ × ℕ)
insert_by_priority x [] = x ∷ []
insert_by_priority (i, p) ((j, q) ∷ rest) =
    let below = insert_by_priority (i, p) rest in
    if leb p q then (i, p) ∷ (j, q) ∷ rest else (j, q) ∷ below

unfoldable pub sort_by_priority : ℕ → List Channel → List (ℕ × ℕ)
unfolding insert_by_priority
sort_by_priority i [] = []
sort_by_priority i (ch ∷ chs) =
    insert_by_priority (i, ch.config.priority) (sort_by_priority (i + 1) chs)

-- An operation on the channel with a number, where there is one.
unfoldable pub at_channel : ℕ → (Channel → Channel) → List Channel → List Channel
at_channel i f [] = []
at_channel zero f (ch ∷ chs) = f ch ∷ chs
at_channel (suc i) f (ch ∷ chs) = ch ∷ at_channel i f chs

unfoldable pub find_channel : ℕ → List Channel → Option Channel
find_channel i [] = none
find_channel zero (ch ∷ chs) = some ch
find_channel (suc i) (ch ∷ chs) = find_channel i chs
