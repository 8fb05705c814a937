-- ===== src/Channel.antt =====
-- Message channels, gbnet/src/channel.rs: the state of a channel and its sending side. Each
-- `Instant::now()` is an argument. The counters of messages and bytes are u64 that a program
-- does not exhaust, and are plain numbers here; sequence numbers wrap.
pub mod Receive
pub mod Framing
pub mod Drain
pub mod Step
pub mod Ordered
pub mod Keep
pub mod Complete
pub mod Flush
pub mod Sequenced
pub mod Enqueue
pub mod Sweeping
pub mod Sending
pub mod Retries
mod Tests
use gbnet.Prelude.{
  ℕ, zero, suc, ◌+◌, ◌-◌, ◌*◌, ◌^◌, min, Bool, true, false, not, ◌&&◌, Option, none, some, List, [],
  ◌∷◌, ◌++◌, Result, ok, err, ltb, leb, ◌==◌, if◌then◌else◌, length, tail,
}
use gbnet.Prelude.Bytes.{u16_to_be_bytes}
use gbnet.Prelude.Maps.{Map, lookup, insert, remove}
use gbnet.Config.{ChannelConfig, is_reliable, max_backoff_exponent, secs}
use gbnet.Sequence.{next_seq}

pub data ChannelError : Type 0 where
  buffer_full message_too_large invalid_sequence : ChannelError

abbrev pub sequence_bytes : ℕ
sequence_bytes = 2

pub record ChannelMessage : Type 0 where
  pub sequence : ℕ
  pub payload : List ℕ
  pub send_time : Option ℕ
  pub acked : Bool
  pub retry_count : ℕ
  pub reliable : Bool

pub record Channel : Type 0 where
  pub id : ℕ
  pub config : ChannelConfig
  pub send_sequence : ℕ
  pub send_buffer : List ChannelMessage
  pub pending_ack : Map ChannelMessage
  pub receive_sequence : ℕ
  pub last_received_sequence : ℕ
  pub ordered_receive_buffer : Map (List ℕ × ℕ)
  pub delivery_queue : List (List ℕ)
  pub messages_sent : ℕ
  pub messages_received : ℕ
  pub bytes_sent : ℕ
  pub bytes_received : ℕ
  pub gap_sequences_skipped : ℕ
  pub messages_dropped : ℕ

unfoldable pub new : ℕ → ChannelConfig → Channel
new id config = record {
  id = id;
  config = config;
  send_sequence = 0;
  send_buffer = [];
  pending_ack = [];
  receive_sequence = 0;
  last_received_sequence = 0;
  ordered_receive_buffer = [];
  delivery_queue = [];
  messages_sent = 0;
  messages_received = 0;
  bytes_sent = 0;
  bytes_received = 0;
  gap_sequences_skipped = 0;
  messages_dropped = 0;
}

-- The message that `send` queues.
unfoldable pub queued_message : ℕ → List ℕ → Bool → ChannelMessage
queued_message seq payload reliable = record {
  sequence = seq;
  payload = payload;
  send_time = none;
  acked = false;
  retry_count = 0;
  reliable = reliable;
}

abbrev pub is_full : Channel → Bool
is_full ch = leb ch.config.message_buffer_size (length ch.send_buffer)

-- `send` past its guards; a full buffer has lost its oldest message.
unfoldable pub enqueue : Channel → List ℕ → Bool → Channel
enqueue ch payload reliable = record ch {
  send_sequence = next_seq ch.send_sequence;
  send_buffer =
      (if is_full ch then tail ch.send_buffer else ch.send_buffer)
      ++ (queued_message ch.send_sequence payload reliable ∷ []);
  messages_sent = ch.messages_sent + 1;
  bytes_sent = ch.bytes_sent + length payload;
}

unfoldable pub send : Channel → List ℕ → Bool → Channel × Result (Unit {0}) ChannelError
send ch payload reliable =
    if ltb ch.config.max_message_size (length payload)
    then (ch, err message_too_large)
    else if is_full ch && ch.config.block_on_full
    then (ch, err buffer_full)
    else (enqueue ch payload reliable, ok tt)

-- [u16 sequence, big endian][payload]
abbrev pub wire_data : ℕ → List ℕ → List ℕ
wire_data seq payload = u16_to_be_bytes seq ++ payload

-- A message has left the send buffer; a reliable one is kept until it is acknowledged.
unfoldable pub track_sent : Channel → ℕ → List ChannelMessage → ChannelMessage → Channel
track_sent ch now rest m =
    if m.reliable
    then record ch {
      send_buffer = rest;
      pending_ack = insert m.sequence (record m { send_time = some now }) ch.pending_ack;
    }
    else record ch { send_buffer = rest }

unfoldable pub get_outgoing_message : Channel → ℕ → Channel × Option (ℕ × List ℕ)
get_outgoing_message ch now = elim ch.send_buffer [
  | [] ↦ (ch, none)
  | m ∷ rest ↦ (track_sent ch now rest m, some (m.sequence, wire_data m.sequence m.payload))
]

-- What the loop of `get_retransmit_messages` does with one pending message.
pub data Verdict : Type 0 where
  keep expire resend : Verdict

abbrev backoff_rto : ℕ → ChannelMessage → ℕ
backoff_rto rto m = rto * 2 ^ min m.retry_count max_backoff_exponent

unfoldable pub verdict : ℕ → ℕ → ℕ → ChannelMessage → Verdict
verdict max_retries now rto m = elim m.send_time [
  | none ↦ keep
  | some t ↦
      if leb (backoff_rto rto m) (now - t)
      then if leb max_retries m.retry_count then expire else resend
      else keep
]

abbrev pub resent : ℕ → ChannelMessage → ChannelMessage
resent now m = record m { retry_count = m.retry_count + 1; send_time = some now }

-- The loop: the messages as it leaves them, the expired keys, and what is sent again.
pub record Sweep : Type 0 where
  pub pending : Map ChannelMessage
  pub expired : List ℕ
  pub retransmits : List (ℕ × List ℕ)

unfoldable pub sweep : ℕ → ℕ → ℕ → Map ChannelMessage → Sweep
sweep max_retries now rto [] = record { pending = []; expired = []; retransmits = [] }
sweep max_retries now rto ((seq, m) ∷ ms) =
    let s = sweep max_retries now rto ms in
    elim (verdict max_retries now rto m) [
      | keep ↦ record s { pending = (seq, m) ∷ s.pending }
      | expire ↦ record s { pending = (seq, m) ∷ s.pending; expired = seq ∷ s.expired }
      | resend ↦ record s {
        pending = (seq, resent now m) ∷ s.pending;
        retransmits = (seq, wire_data seq m.payload) ∷ s.retransmits;
      }
    ]

-- `for seq in expired { self.pending_ack.remove(&seq); }`
unfoldable pub remove_all : List ℕ → Map ChannelMessage → Map ChannelMessage
remove_all [] m = m
remove_all (k ∷ ks) m = remove_all ks (remove k m)

unfoldable pub get_retransmit_messages : Channel → ℕ → ℕ → Channel × List (ℕ × List ℕ)
get_retransmit_messages ch now rto =
    let s = sweep ch.config.max_reliable_retries now rto ch.pending_ack in
    if not (is_reliable ch.config.delivery_mode)
    then (ch, [])
    else (record ch { pending_ack = remove_all s.expired s.pending }, s.retransmits)

unfoldable pub acknowledge_message : Channel → ℕ → Channel
acknowledge_message ch seq = record ch { pending_ack = remove seq ch.pending_ack }

-- An instant that lies 60 seconds back, on a clock that has run for longer.
unfoldable pub mark_for_fast_retransmit : Channel → ℕ → ℕ → Channel
mark_for_fast_retransmit ch now seq = elim (lookup seq ch.pending_ack) [
  | none ↦ ch
  | some m ↦ record ch {
    pending_ack = insert seq (record m { send_time = some (now - secs 60) }) ch.pending_ack;
  }
]
