-- ===== src/Packet/Reading.antt =====
-- What the reader of a packet, gbnet/src/packet.rs, makes of fields that come in the buffer.
use gbnet.Prelude.{
  ℕ, zero, suc, ◌+◌, ◌*◌, ◌/◌, ◌%◌, ◌^◌, ◌<◌, ◌≤◌, ◌≡◌, refl, true, false, not, ok, Bool-cases, inl,
  inr, List, ◌∷◌, ◌++◌, leb, ◌==◌, length, All, All-append, arith,
}
use gbnet.Serialize.{BitBuffer, read_bit}
use gbnet.Serialize.Fields.{total}
use gbnet.Serialize.Value.{bits_in}
use gbnet.Serialize.Numbers.{Fits}
use gbnet.Serialize.RoundTrip.{advance, Comes, read_bits-Comes}
use gbnet.Packet.{
  PacketHeader, PacketType, connection_request, connection_challenge, connection_response,
  connection_accept, connection_deny, disconnect, keep_alive, payload_of, batched_payload,
  mtu_probe, mtu_probe_ack, ack_only, connection_cookie, connection_request_with_cookie,
}
use gbnet.Packet.Wire.{
  header_fields, variant_index, variant_fields, read_one, read_two, read_variant, read_type,
  read_header, align_rounds,
}

-- The position has moved on in the same buffer, to where the other fields come.
pub record Moved (b b' : BitBuffer) (bits : ℕ) (fields : List (ℕ × ℕ)) (q rest : ℕ) : Type 0 where
  pub same : b'.buffer ≡ b.buffer
  pub moved : b'.read_pos ≡ b.read_pos + bits
  pub comes : Comes b' fields q rest

pub index-Fits : (t : PacketType) → Fits (4, variant_index t)
index-Fits connection_request = omega arith
index-Fits t = omega arith

module _ (q rest : ℕ) (r : rest < 2 ^ q) (fields : List (ℕ × ℕ)) (fits : All Fits fields) where
  read_one_lem {ℓ} :
      {A : Type ℓ} (b : BitBuffer) (bits val : ℕ) (f : ℕ → A)
      → Comes b ((bits, val) ∷ fields) q rest
      → Fits (bits, val)
      → (b' : BitBuffer) × (read_one b bits f ≡ ok (f val, b')) × Moved b b' bits fields q rest
  unfolding read_one
  read_one_lem b bits val f c fit =
      let (e, a) = read_bits-Comes b bits val fields q rest c fit fits r in
      (advance b bits, rw (e) refl, record { same = refl; moved = refl; comes = a })

  read_two_lem {ℓ} :
      {A : Type ℓ} (b : BitBuffer) (bits val bits' val' : ℕ) (f : ℕ → ℕ → A)
      → Comes b ((bits, val) ∷ (bits', val') ∷ fields) q rest
      → Fits (bits, val)
      → Fits (bits', val')
      → (b' : BitBuffer) × (read_two b bits bits' f ≡ ok (f val val', b'))
        × Moved b b' (bits + bits') fields q rest
  unfolding read_two
  read_two_lem b bits val bits' val' f c fit fit' =
      let (e, a) =
        read_bits-Comes b bits val ((bits', val') ∷ fields) q rest c fit (fit', fits) r in
      let (b', e', m) = read_one_lem (advance b bits) bits' val' (f val) a fit' in
      (b', rw (e) e', record { same = m.same; moved = omega (arith, m.moved); comes = m.comes })

  stay : (b : BitBuffer) → Comes b fields q rest → Moved b b 0 fields q rest
  stay b c = record { same = refl; moved = omega arith; comes = c }

  read_variant_lem :
      (t : PacketType) (b : BitBuffer)
      → Comes b (variant_fields t ++ fields) q rest
      → All Fits (variant_fields t)
      → (b' : BitBuffer) × (read_variant b (variant_index t) ≡ ok (t, b'))
        × Moved b b' (total (variant_fields t)) fields q rest
  unfolding read_variant
  read_variant_lem connection_request b c h = (b, refl, stay b c)
  read_variant_lem (connection_challenge s) b c (h, _) =
      read_one_lem b 64 s connection_challenge c h
  read_variant_lem (connection_response s) b c (h, _) = read_one_lem b 64 s connection_response c h
  read_variant_lem connection_accept b c h = (b, refl, stay b c)
  read_variant_lem (connection_deny n) b c (h, _) = read_one_lem b 8 n connection_deny c h
  read_variant_lem (disconnect n) b c (h, _) = read_one_lem b 8 n disconnect c h
  read_variant_lem keep_alive b c h = (b, refl, stay b c)
  read_variant_lem (payload_of ch true) b c (h, (k, _)) =
      read_two_lem b 3 ch 1 1 (λ channel bit. payload_of channel (not (bit == 0))) c h k
  read_variant_lem (payload_of ch false) b c (h, (k, _)) =
      read_two_lem b 3 ch 1 0 (λ channel bit. payload_of channel (not (bit == 0))) c h k
  read_variant_lem (batched_payload ch) b c (h, _) = read_one_lem b 3 ch batched_payload c h
  read_variant_lem (mtu_probe n) b c (h, _) = read_one_lem b 16 n mtu_probe c h
  read_variant_lem (mtu_probe_ack n) b c (h, _) = read_one_lem b 16 n mtu_probe_ack c h
  read_variant_lem ack_only b c h = (b, refl, stay b c)
  read_variant_lem (connection_cookie m n) b c (h, (k, _)) =
      read_two_lem b 64 m 64 n connection_cookie c h k
  read_variant_lem (connection_request_with_cookie m n) b c (h, (k, _)) =
      read_two_lem b 64 m 64 n connection_request_with_cookie c h k

  pub read_type_lem :
      (t : PacketType) (b : BitBuffer)
      → Comes b ((4, variant_index t) ∷ (variant_fields t ++ fields)) q rest
      → All Fits (variant_fields t)
      → (b' : BitBuffer) × (read_type b ≡ ok (t, b'))
        × Moved b b' (4 + total (variant_fields t)) fields q rest
  unfolding read_type
  read_type_lem t b c h =
      let (e, a) =
        read_bits-Comes b 4 (variant_index t) (variant_fields t ++ fields) q rest c (index-Fits t)
          (All-append Fits (variant_fields t) fields h fits) r in
      let (b', e', m) = read_variant_lem t (advance b 4) a h in
      (b', rw (e) e', record { same = m.same; moved = omega (arith, m.moved); comes = m.comes })

  pub read_header_lem :
      (h : PacketHeader) (b : BitBuffer)
      → Comes b (header_fields h ++ fields) q rest
      → All Fits (header_fields h)
      → (b' : BitBuffer) × (read_header b ≡ ok (h, b')) × Moved b b' 128 fields q rest
  unfolding read_header
  read_header_lem h b c (f1, (f2, (f3, (f4, _)))) =
      let four = (64, h.ack_bits) ∷ fields in
      let three = (16, h.ack) ∷ four in
      let two = (16, h.sequence) ∷ three in
      let (e1, a1) = read_bits-Comes b 32 h.protocol_id two q rest c f1 (f2, (f3, (f4, fits))) r in
      let (e2, a2) = read_bits-Comes _ 16 h.sequence three q rest a1 f2 (f3, (f4, fits)) r in
      let (e3, a3) = read_bits-Comes _ 16 h.ack four q rest a2 f3 (f4, fits) r in
      let (e4, a4) = read_bits-Comes _ 64 h.ack_bits fields q rest a3 f4 fits r in
      (
        advance (advance (advance (advance b 32) 16) 16) 64,
        rw (e1, e2, e3, e4) refl,
        record { same = refl; moved = omega arith; comes = a4 },
      )

-- The position moves on to the next whole byte.
pub align_rounds_lem :
    (n : ℕ) (b : BitBuffer)
    → (b.read_pos + 7) / 8 * 8 ≤ b.read_pos + n
    → (b.read_pos + 7) / 8 * 8 ≤ bits_in b.buffer
    → align_rounds n b ≡ ok (record b { read_pos = (b.read_pos + 7) / 8 * 8 })
unfolding align_rounds read_bit
align_rounds_lem zero b h k =
    let there : (b.read_pos + 7) / 8 * 8 ≡ b.read_pos = omega arith in rw (there) refl
align_rounds_lem (suc n) b h k = elim (Bool-cases (b.read_pos % 8 == 0)) [
  | inl e ↦
      let there : (b.read_pos + 7) / 8 * 8 ≡ b.read_pos = ground arith in
      rw (e, there, align_rounds) refl
  | inr e ↦
      let within : 0 < b.read_pos % 8 = ground arith in
      let some : leb (length b.buffer) (b.read_pos / 8) ≡ false = ground arith in
      let up : (b.read_pos + 1 + 7) / 8 * 8 ≡ (b.read_pos + 7) / 8 * 8 = omega arith in
      let next = align_rounds_lem n (advance b 1) (omega arith) (omega arith) in
      rw (e, some, align_rounds) (rw (up) at next)
]
