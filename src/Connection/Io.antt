-- ===== src/Connection/Io.antt =====
-- The part of a connection that reads and writes the socket, gbnet/src/connection/io.rs. A datagram
-- is its sender and its bytes. Sending is an output, of a socket that takes every datagram; the
-- datagrams that wait at the socket are an argument, and what is left of them a result. Encryption
-- is not modelled.
use gbnet.Prelude.{
  ℕ, Option, none, some, Result, ok, err, List, [], ◌∷◌, ◌==◌, if◌then◌else◌, length,
}
use gbnet.Float.{Float, Narrowing}
use gbnet.Packet.{Packet}
use gbnet.Packet.Wire.{serialize, deserialize}
use gbnet.Security.Crc.{append_crc32, validate_and_strip_crc32}
use gbnet.Connection.{Connection, ConnectionError, invalid_packet}
use gbnet.Connection.Operations.{record_bytes_sent, record_bytes_received}
use gbnet.Connection.Handshake.{handle_packet}
use gbnet.Connection.Tick.{update_tick}

-- A connection after an operation, what it has sent, what is left at the socket, and the result.
pub record Io {ℓ κ} (V : Type ℓ) (W : Type κ) : Type (ℓ ⊔ κ) where
  pub connection : Connection V W
  pub sent : List (List ℕ)
  pub waiting : List (ℕ × List ℕ)
  pub result : Result (Unit {0}) ConnectionError

module _ {ℓ κ} {V : Type ℓ} {W : Type κ} ⦃v : Float V⦄ ⦃f : Float W⦄ where
  -- `while let Some(packet) = self.send_queue.pop_front()`, over the queue
  unfoldable pub send_all :
      Connection V W
      → ℕ
      → List Packet
      → Connection V W × List (List ℕ) × Result (Unit {0}) ConnectionError
  send_all c now [] = (record c { send_queue = [] }, [], ok tt)
  send_all c now (packet ∷ queue) = elim (serialize packet) [
    | err _ ↦ (record c { send_queue = queue }, [], err invalid_packet)
    | ok written ↦
        let wire = append_crc32 written in
        let (c', sent, result) = send_all (record_bytes_sent c now (length wire)) now queue in
        (c', wire ∷ sent, result)
  ]

  -- What a datagram from an address is taken for: a packet of the protocol, or nothing.
  unfoldable pub accepted : Connection V W → ℕ → ℕ → List ℕ → Option Packet
  accepted c remote sender bytes =
      if sender == remote
      then elim (validate_and_strip_crc32 bytes) [
        | none ↦ none
        | some validated ↦ elim (deserialize validated) [
          | err _ ↦ none
          | ok packet ↦
              if packet.header.protocol_id == c.config.protocol_id then some packet else none
        ]
      ]
      else none

  -- the packet is counted, and handled
  unfoldable pub take_packet :
      Connection V W → ℕ → ℕ → Packet → Connection V W × Result (Unit {0}) ConnectionError
  unfolding handle_packet
  take_packet c now bytes packet =
      handle_packet (record (record_bytes_received c now bytes) { last_packet_recv_time = now }) now
        packet

  unfoldable pub receive_packets : Connection V W → ℕ → ℕ → List (ℕ × List ℕ) → Io V W
  unfolding accepted take_packet
  receive_packets c remote now [] = record {
    connection = c;
    sent = [];
    waiting = [];
    result = ok tt;
  }
  receive_packets c remote now ((sender, bytes) ∷ waiting) =
      let skipped = receive_packets c remote now waiting in
      elim (accepted c remote sender bytes) [
        | none ↦ skipped
        | some packet ↦
            let (c', result) = take_packet c now (length bytes) packet in
            let rest = receive_packets c' remote now waiting in
            elim result [
              | err e ↦ record { connection = c'; sent = []; waiting = waiting; result = err e }
              | ok _ ↦ rest
            ]
      ]

module _ {ℓ κ} {V : Type ℓ} {W : Type κ} ⦃v : Float V⦄ ⦃f : Float W⦄ ⦃n : Narrowing W V⦄ where
  -- The steps of `update` after the tick, each where the one before it has succeeded.
  unfoldable pub after_tick : Connection V W → ℕ → ℕ → List (ℕ × List ℕ) → Io V W
  unfolding send_all receive_packets
  after_tick c remote now waiting =
      let (c', sent, result) = send_all c now c.send_queue in
      elim result [
        | err e ↦ record { connection = c'; sent = sent; waiting = waiting; result = err e }
        | ok _ ↦ record (receive_packets c' remote now waiting) { sent = sent }
      ]

  unfoldable pub update : Connection V W → ℕ → ℕ → List (ℕ × List ℕ) → Io V W
  unfolding update_tick after_tick
  update c remote now waiting =
      let (c', result) = update_tick c now in
      elim result [
        | err e ↦ record { connection = c'; sent = []; waiting = waiting; result = err e }
        | ok _ ↦ after_tick c' remote now waiting
      ]
