-- ===== src/Connection/Datagrams.antt =====
-- What a connection makes of the datagrams at its socket, gbnet/src/connection/io.rs.
use gbnet.Prelude.{ℕ, ◌≡◌, refl, false, some, ok, List, [], ◌∷◌, ◌==◌, ==_refl, All}
use gbnet.Float.{Float}
use gbnet.Packet.{Packet}
use gbnet.Packet.Wire.{serialize}
use gbnet.Packet.RoundTrip.{IsWritable, deserialize-serialize_packet}
use gbnet.Security.Crc.{append_crc32, validate-append}
use gbnet.Connection.{Connection}
use gbnet.Connection.Io.{accepted, receive_packets}

module _ {ℓ κ} {V : Type ℓ} {W : Type κ} ⦃v : Float V⦄ ⦃f : Float W⦄ where
  -- A packet each of whose fields fits into its bits, of the protocol of the receiver, is what the
  -- receiver takes the datagram for that the packet is sent in: the bytes of the packet, and their
  -- CRC.
  pub accepted-append_crc32 :
      (c : Connection V W) (remote : ℕ) (p : Packet)
      → IsWritable p
      → p.header.protocol_id ≡ c.config.protocol_id
      → (bytes : List ℕ) × (serialize p ≡ ok bytes)
        × (accepted c remote remote (append_crc32 bytes) ≡ some p)
  unfolding accepted
  accepted-append_crc32 c remote p w same =
      let (bytes, e, d) = deserialize-serialize_packet p w in
      (
        bytes,
        e,
        simp
            (==_refl remote, validate-append bytes, d, same, ==_refl c.config.protocol_id, accepted)
            refl,
      )

  -- Datagrams of other senders are taken from the socket, and nothing is done with them.
  pub receive_packets-others :
      (c : Connection V W) (remote now : ℕ) (waiting : List (ℕ × List ℕ))
      → All (λ d. (d.0 == remote) ≡ false) waiting
      → receive_packets c remote now waiting
        ≡ record { connection = c; sent = []; waiting = []; result = ok tt }
  unfolding receive_packets accepted
  receive_packets-others c remote now [] h = refl
  receive_packets-others c remote now ((sender, bytes) ∷ waiting) (h, hs) =
      simp (h, accepted, receive_packets) (receive_packets-others c remote now waiting hs)
