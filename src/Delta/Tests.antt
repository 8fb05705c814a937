-- ===== src/Delta/Tests.antt =====
-- Runs of the delta compression of gbnet/src/delta.rs, for a flag: its delta says whether it changed.
use gbnet.Prelude.{
  ℕ, ◌≡◌, refl, Bool, true, false, some, not, ◌==◌, inl, inr, ok, err, List, [], ◌∷◌, All, arith,
}
use gbnet.Delta.{
  NetworkDelta, BitCodec, DeltaTracker, BaselineManager, new_tracker, new_manager, on_ack, take_out,
  drop_older, store_pending, push_snapshot, evict_expired, get_baseline, youngest, write_message,
  encode, decode,
}
use gbnet.Packet.Wire.{bit_of}
use gbnet.Serialize.{BitBuffer, unexpected_eof, read_bits, write_bits, into_bytes}
use gbnet.Serialize.Fields.{◌>>=◌, write_field, write_fields, read_fields}
use gbnet.Serialize.Numbers.{Fits}
use gbnet.Serialize.RoundTrip.{widths, values}
use gbnet.Connection.Still.{Result-cases}
use gbnet.Delta.RoundTrip.{IsCodec, IsDelta, decode-encode}

abbrev differs : Bool → Bool → Bool
differs true true = false
differs true false = true
differs false b = b

instance abbrev flag_delta : NetworkDelta Bool Bool
flag_delta = record { diff = differs; apply = differs }

abbrev flag_fields : Bool → List (ℕ × ℕ)
flag_fields b = (1, bit_of b) ∷ []

instance abbrev flag_codec : BitCodec Bool
flag_codec = record {
  bit_serialize = λ flag b. write_fields b (flag_fields flag);
  bit_deserialize = λ b. read_bits b 1 >>= λ (r : ℕ × BitBuffer). ok (not (r.0 == 0), r.1);
}

not-bit_of : (flag : Bool) → not (bit_of flag == 0) ≡ flag
not-bit_of true = refl
not-bit_of false = refl

flag-Fits : (flag : Bool) → All Fits (flag_fields flag)
flag-Fits true = ((omega arith, omega arith), tt)
flag-Fits false = ((omega arith, omega arith), tt)

flag-read :
    (flag : Bool) (b b' : BitBuffer)
    → read_fields b (widths (flag_fields flag)) ≡ ok (values (flag_fields flag), b')
    → flag_codec.bit_deserialize b ≡ ok (flag, b')
unfolding read_fields
flag-read flag b b' e = elim (Result-cases (read_bits b 1)) [
  | inl ((bit, next), g) ↦
      let done : ok (bit ∷ [], next) ≡ ok (bit_of flag ∷ [], b') = rw (g) at e in
      let (x, y) : (bit ≡ bit_of flag) × (next ≡ b') = (cc done, cc done) in
      rw (g, x, y) (rw (not-bit_of flag) refl)
  | inr (_, g) ↦ absurd cc
]

flag-IsCodec : IsCodec Bool
flag-IsCodec = record {
  fields = flag_fields;
  fit = flag-Fits;
  written = λ _ _. refl;
  read = flag-read;
}

differs-differs : (a b : Bool) → differs b (differs a b) ≡ a
differs-differs true true = refl
differs-differs true false = refl
differs-differs false true = refl
differs-differs false false = refl

flag-IsDelta : IsDelta Bool Bool
flag-IsDelta = record { apply-diff = differs-differs }

-- A sender whose snapshot of number `seq` is acknowledged, and a receiver that has it.
abbrev sender : ℕ → DeltaTracker Bool
sender seq = record { pending = []; confirmed_baseline = some (seq, true); max_pending = 8 }

abbrev receiver : ℕ → BaselineManager Bool
receiver seq = record { snapshots = (seq, true, 0) ∷ []; max_snapshots = 8; timeout = 100 }

sender-on_ack : on_ack (encode Bool (new_tracker 8) 7 true).0 7 ≡ sender 7
unfolding on_ack take_out drop_older encode write_message write_bits write_fields write_field
    store_pending new_tracker
sender-on_ack = refl

receiver-push_snapshot : push_snapshot (new_manager 8 100) 0 7 true ≡ receiver 7
unfolding push_snapshot evict_expired new_manager
receiver-push_snapshot = refl

decode-encode_example :
    (bytes : List ℕ) × ((encode Bool (sender 7) 8 true).1 ≡ ok bytes)
    × (decode Bool bytes (receiver 7) ≡ ok true)
unfolding get_baseline youngest
decode-encode_example =
    decode-encode Bool (sender 7) 8 true (receiver 7) flag-IsCodec flag-IsCodec flag-IsDelta
      (omega arith, refl)

-- With the baseline 65535, the delta is read as a state.
decode-sentinel : (encode Bool (sender 65535) 0 true).1 ≡ ok (255 ∷ 255 ∷ 0 ∷ [])
unfolding encode write_message write_bits write_fields write_field into_bytes
decode-sentinel = refl

decode-misread : decode Bool (255 ∷ 255 ∷ 0 ∷ []) (receiver 65535) ≡ ok false
unfolding decode read_bits
decode-misread = refl

decode-short : decode Bool (7 ∷ []) (receiver 7) ≡ err unexpected_eof
unfolding decode read_bits
decode-short = refl
