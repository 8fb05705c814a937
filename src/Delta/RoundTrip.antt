-- ===== src/Delta/RoundTrip.antt =====
-- The decoding of what the sender has encoded, gbnet/src/delta.rs.
use gbnet.Prelude.{
  ℕ, ◌+◌, ◌*◌, ◌%◌, ◌^◌, ◌<◌, ◌≡◌, refl, ap, ◌∙◌, false, true, Option, none, some, ok, List, [],
  ◌∷◌, ◌++◌, ==_refl, ◌==◌, All, arith,
}
use gbnet.Prelude.Slices.{pow-pos}
use gbnet.Serialize.{BitBuffer, new, from_bytes, into_bytes, write_bits, read_bits}
use gbnet.Serialize.Fields.{write_fields, read_fields, total}
use gbnet.Serialize.Piece.{padding}
use gbnet.Serialize.Write.{write_bits-Wrote}
use gbnet.Serialize.Padding.{into_bytes-Holds}
use gbnet.Serialize.Numbers.{number, Fits, write_fields-Wrote}
use gbnet.Serialize.RoundTrip.{
  widths, values, new-Holds, Holds-Comes-padded, read_bits-Comes, read_fields-Comes,
}
use gbnet.Delta.{
  NetworkDelta, BitCodec, no_baseline, DeltaTracker, BaselineManager, get_baseline, youngest,
  push_snapshot, write_message, encode, decode, read_state,
}

-- What a type writes is fields that fit into their bits, as the derived code does, and where these
-- fields are read it is the type's value that is read.
pub record IsCodec {ℓ} (A : Type ℓ) ⦃c : BitCodec A⦄ : Type ℓ where
  pub fields : A → List (ℕ × ℕ)
  pub fit : (a : A) → All Fits (fields a)
  pub written : (a : A) (b : BitBuffer) → c.bit_serialize a b ≡ write_fields b (fields a)
  pub read :
      (a : A) (b b' : BitBuffer)
      → read_fields b (widths (fields a)) ≡ ok (values (fields a), b')
      → c.bit_deserialize b ≡ ok (a, b')

-- The delta between two states takes the one to the other.
pub record IsDelta {ℓ κ} (T : Type ℓ) (D : Type κ) ⦃n : NetworkDelta T D⦄ : Type ℓ where
  pub apply-diff : (current baseline : T) → n.apply baseline (n.diff current baseline) ≡ current

module _ {ℓ} {T : Type ℓ} where
  -- The receiver has the baseline that the sender encodes against, under a number of its own.
  abbrev pub HasBaseline : Option (ℕ × T) → BaselineManager T → Type ℓ
  HasBaseline none m = Unit
  HasBaseline (some (seq, baseline)) m = (seq < no_baseline) × (get_baseline m seq ≡ some baseline)

  youngest-append :
      (seq now : ℕ) (x : T) (l : List (ℕ × T × ℕ)) → youngest seq (l ++ (seq, x, now) ∷ []) ≡ some x
  unfolding youngest
  youngest-append seq now x [] = simp (==_refl seq) refl
  youngest-append seq now x ((s, y, ts) ∷ l) = simp (youngest-append seq now x l) refl

  -- A snapshot that is pushed is found, whatever was pushed before.
  pub get_baseline-push_snapshot :
      (m : BaselineManager T) (now seq : ℕ) (x : T)
      → get_baseline (push_snapshot m now seq x) seq ≡ some x
  unfolding get_baseline push_snapshot
  get_baseline-push_snapshot m now seq x = youngest-append seq now x _

-- A baseline number and fields behind it: what is written, and what of it is read.
record Sent (seq : ℕ) (fields : List (ℕ × ℕ)) : Type 0 where
  head : BitBuffer
  buf : BitBuffer
  wrote_head : write_bits new seq 16 ≡ ok head
  wrote : write_fields head fields ≡ ok buf
  behind : BitBuffer
  end : BitBuffer
  read_head : read_bits (from_bytes (into_bytes buf true)) 16 ≡ ok (seq, behind)
  read : read_fields behind (widths fields) ≡ ok (values fields, end)

send : (seq : ℕ) (fields : List (ℕ × ℕ)) → seq < 65536 → All Fits fields → Sent seq fields
unfolding number
send seq fields small fits =
    let one : Fits (16, seq) = (omega arith, omega arith) in
    let (head, e, w) = write_bits-Wrote new 0 seq 16 new-Holds (omega arith) (omega arith) in
    let (buf, e', w') = write_fields-Wrote fields head _ w.holds fits in
    let all : List (ℕ × ℕ) = (16, seq) ∷ fields in
    let same : (0 * 2 ^ 16 + seq % 2 ^ 16) * 2 ^ total fields + number fields ≡ number all =
      ap (λ (k : ℕ). k * 2 ^ total fields + number fields) (omega arith) in
    let comes =
      Holds-Comes-padded buf all (rw (same) at w'.holds) (omega (arith, w.moved, w'.moved)) in
    let (r, c) = read_bits-Comes _ 16 seq fields (padding buf) 0 comes one fits (pow-pos _) in
    let (r', _) = read_fields-Comes fields _ (padding buf) 0 c fits (pow-pos _) in
    let bytes = into_bytes-Holds buf _ w'.holds in
    record {
      head = head;
      buf = buf;
      wrote_head = e;
      wrote = e';
      behind = _;
      end = _;
      read_head = rw (bytes) r;
      read = r';
    }

module _ {ℓ κ} {T : Type ℓ} (D : Type κ) ⦃n : NetworkDelta T D⦄ ⦃t : BitCodec T⦄
    ⦃d : BitCodec D⦄ where
  decode-write_message :
      (base : Option (ℕ × T)) (current : T) (m : BaselineManager T)
      → IsCodec T
      → IsCodec D
      → IsDelta T D
      → HasBaseline base m
      → (buf : BitBuffer) × (write_message D base current ≡ ok buf)
        × (decode D (into_bytes buf true) m ≡ ok current)
  unfolding write_message decode read_state
  decode-write_message none current m ct cd law h =
      let s = send no_baseline (ct.fields current) (omega arith) (ct.fit current) in
      (
        s.buf,
        rw (s.wrote_head) (ct.written current s.head ∙ s.wrote),
        rw (s.read_head) (rw (ct.read current s.behind s.end s.read) refl),
      )
  decode-write_message (some (seq, baseline)) current m ct cd law (h, k) =
      let delta = n.diff current baseline in
      let s = send seq (cd.fields delta) (omega arith) (cd.fit delta) in
      let kept : seq % 65536 ≡ seq = omega arith in
      let other : (seq == no_baseline) ≡ false = ground arith in
      (
        s.buf,
        rw (s.wrote_head) (cd.written delta s.head ∙ s.wrote),
        rw (s.read_head) (
            simp
              (
                kept,
                other,
                k,
                cd.read delta s.behind s.end s.read,
                read_state,
                law.apply-diff current baseline,
              )
              refl),
      )

  -- Let a state and a delta be written as fields that fit, as the derived code does, and be read
  -- where these fields are read; let a delta between two states take the one to the other; let the
  -- receiver have the baseline that the sender encodes against, if any, under a number less than
  -- 65535. Then encode gives bytes, and the receiver decodes the current state from them.
  pub decode-encode :
      (tracker : DeltaTracker T) (seq : ℕ) (current : T) (m : BaselineManager T)
      → IsCodec T
      → IsCodec D
      → IsDelta T D
      → HasBaseline tracker.confirmed_baseline m
      → (bytes : List ℕ) × ((encode D tracker seq current).1 ≡ ok bytes)
        × (decode D bytes m ≡ ok current)
  unfolding encode
  decode-encode tracker seq current m ct cd law h =
      let (buf, e, k) = decode-write_message tracker.confirmed_baseline current m ct cd law h in
      (into_bytes buf true, simp (e, encode) refl, k)
