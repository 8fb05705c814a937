-- ===== src/Serialize.antt =====
-- The bit buffer of gbnet/src/serialize/mod.rs, which packets are written to and read from. A mask
-- `x & ((1 << k) - 1)` is the remainder by 2^k. Serialize/Value reads the bytes as one number,
-- Serialize/Piece, Write and Read are about one call, and Serialize/Numbers and RoundTrip about many.
pub mod Value
pub mod Fields
pub mod Piece
pub mod Write
pub mod Read
pub mod Padding
pub mod Numbers
pub mod RoundTrip
mod Tests
use Prim.Native.Nat.{bit_or, bit_and}
use gbnet.Prelude.{
  ℕ, zero, suc, ◌+◌, ◌-◌, ◌*◌, ◌/◌, ◌%◌, ◌^◌, min, Bool, true, false, not, ◌&&◌, ◌||◌, Result, ok,
  err, List, [], ◌∷◌, ◌++◌, ltb, leb, ◌==◌, if◌then◌else◌, length, set, get_or, replicate,
}

-- `io::ErrorKind`
pub data IoError : Type 0 where
  invalid_input unexpected_eof invalid_data : IoError

pub record BitBuffer : Type 0 where
  pub buffer : List ℕ
  pub bit_pos : ℕ
  pub read_pos : ℕ
  pub unpadded_length : ℕ
  pub measure_only : Bool

abbrev pub new : BitBuffer
new = record { buffer = []; bit_pos = 0; read_pos = 0; unpadded_length = 0; measure_only = false }

abbrev pub measure : BitBuffer
measure = record new { measure_only = true }

abbrev pub from_bytes : List ℕ → BitBuffer
from_bytes bytes = record new { buffer = bytes }

abbrev pub is_multiple_of_8 : ℕ → Bool
is_multiple_of_8 n = n % 8 == 0

unfoldable pub serialized_size_bits : BitBuffer → ℕ
serialized_size_bits b = b.unpadded_length

unfoldable pub serialized_size_bytes : BitBuffer → ℕ
serialized_size_bytes b = (b.unpadded_length + 7) / 8

abbrev pub skip : BitBuffer → ℕ → BitBuffer
skip b bits = record b { bit_pos = b.bit_pos + bits; unpadded_length = b.unpadded_length + bits }

-- the `bytes` lowest bytes of a value, the highest first
unfoldable pub be_bytes : ℕ → ℕ → List ℕ
be_bytes zero value = []
be_bytes (suc bytes) value = (value / 2 ^ (8 * bytes) % 256) ∷ be_bytes bytes value

unfoldable pub write_bytes_fast : BitBuffer → ℕ → ℕ → BitBuffer
unfolding be_bytes
write_bytes_fast b value bytes =
    if b.measure_only
    then skip b (bytes * 8)
    else record (skip b (bytes * 8)) { buffer = b.buffer ++ be_bytes bytes value }

-- `while byte_pos >= self.buffer.len() { self.buffer.push(0) }`
unfoldable pub extend : List ℕ → ℕ → List ℕ
extend buffer byte_pos = buffer ++ replicate (byte_pos + 1 - length buffer) 0

-- the width of a piece that stays within a byte
abbrev pub piece : ℕ → ℕ → ℕ
piece pos remaining_bits = min remaining_bits (8 - pos % 8)

-- one round of the loop of `write_bits_optimized`, on the buffer
unfoldable pub write_piece : BitBuffer → ℕ → ℕ → BitBuffer
unfolding extend
write_piece b val remaining_bits =
    let byte_pos = b.bit_pos / 8 in
    let bits_to_write = piece b.bit_pos remaining_bits in
    let buffer = extend b.buffer byte_pos in
    let shift = remaining_bits - bits_to_write in
    let bits_to_write_val = if ltb shift 64 then val / 2 ^ shift % 2 ^ bits_to_write else 0 in
    let byte_shift = 8 - b.bit_pos % 8 - bits_to_write in
    record b {
      buffer =
          set buffer byte_pos
            (bit_or (get_or buffer byte_pos 0) (bits_to_write_val % 256 * 2 ^ byte_shift % 256));
      bit_pos = b.bit_pos + bits_to_write;
    }

-- what is left of the value after a round
abbrev pub rest_of : ℕ → ℕ → ℕ
rest_of val remaining_bits =
    if ltb 0 remaining_bits && ltb remaining_bits 64
    then val % 2 ^ remaining_bits
    else if remaining_bits == 0
    then 0
    else val

-- Each round writes a bit at least, so as many rounds as bits are enough.
unfoldable pub write_pieces : ℕ → BitBuffer → ℕ → ℕ → BitBuffer
unfolding write_piece
write_pieces zero b val remaining_bits = b
write_pieces (suc rounds) b val remaining_bits =
    let remaining' = remaining_bits - piece b.bit_pos remaining_bits in
    let rest =
      write_pieces rounds (write_piece b val remaining_bits) (rest_of val remaining') remaining' in
    if ltb 0 remaining_bits then rest else b

unfoldable pub write_bits_optimized : BitBuffer → ℕ → ℕ → BitBuffer
unfolding write_pieces
write_bits_optimized b value bits =
    let written = write_pieces bits b value bits in
    if b.measure_only
    then skip b bits
    else record written { unpadded_length = written.unpadded_length + bits }

unfoldable pub write_bits : BitBuffer → ℕ → ℕ → Result BitBuffer IoError
unfolding write_bytes_fast write_bits_optimized
write_bits b value bits =
    let val = if leb 64 bits then value else value % 2 ^ bits in
    if ltb 64 bits
    then err invalid_input
    else if bits == 0
    then ok b
    else if is_multiple_of_8 b.bit_pos && is_multiple_of_8 bits
    then ok (write_bytes_fast b val (bits / 8))
    else ok (write_bits_optimized b val bits)

unfoldable pub write_bit : BitBuffer → Bool → BitBuffer
write_bit b bit =
    let byte_pos = b.bit_pos / 8 in
    let buffer = if leb (length b.buffer) byte_pos then b.buffer ++ 0 ∷ [] else b.buffer in
    let mask = 2 ^ (7 - b.bit_pos % 8) in
    let byte = get_or buffer byte_pos 0 in
    if b.measure_only then skip b 1 else record (skip b 1) {
      buffer = set buffer byte_pos (if bit then bit_or byte mask else bit_and byte (255 - mask));
    }

-- `while !self.bit_pos.is_multiple_of(8)`: at most seven rounds
unfoldable pub flush_rounds : ℕ → BitBuffer → BitBuffer
unfolding write_bit
flush_rounds zero b = b
flush_rounds (suc rounds) b =
    let rest = flush_rounds rounds (write_bit b false) in
    if is_multiple_of_8 b.bit_pos then b else rest

unfoldable pub flush : BitBuffer → Bool → BitBuffer
unfolding flush_rounds
flush b pad_to_byte = if pad_to_byte then flush_rounds 7 b else b

unfoldable pub into_bytes : BitBuffer → Bool → List ℕ
unfolding flush
into_bytes b pad_to_byte = (flush b pad_to_byte).buffer

-- `value |= (byte as u64) << (8 * (bytes - 1 - i))` for the `bytes` bytes from `start_byte` on
unfoldable pub read_bytes : List ℕ → ℕ → ℕ → ℕ → ℕ
read_bytes buffer start_byte zero value = value
read_bytes buffer start_byte (suc bytes) value =
    read_bytes buffer (start_byte + 1) bytes
      (bit_or value (get_or buffer start_byte 0 * 2 ^ (8 * bytes) % 2 ^ 64))

unfoldable pub read_bytes_fast : BitBuffer → ℕ → Result (ℕ × BitBuffer) IoError
unfolding read_bytes
read_bytes_fast b bytes =
    let start_byte = b.read_pos / 8 in
    if ltb (length b.buffer) (start_byte + bytes)
    then err unexpected_eof
    else ok (read_bytes b.buffer start_byte bytes 0, record b { read_pos = b.read_pos + bytes * 8 })

-- the bits that one round of the loop of `read_bits_optimized` takes
unfoldable pub read_piece : BitBuffer → ℕ → ℕ
read_piece b remaining_bits =
    let bits_to_read = piece b.read_pos remaining_bits in
    let byte_shift = 8 - b.read_pos % 8 - bits_to_read in
    get_or b.buffer (b.read_pos / 8) 0
    / 2 ^ byte_shift
    % (if leb 8 bits_to_read then 256 else 2 ^ bits_to_read)

-- Each round reads a bit at least, so as many rounds as bits are enough.
unfoldable pub read_pieces : ℕ → BitBuffer → ℕ → ℕ → Result (ℕ × BitBuffer) IoError
unfolding read_piece
read_pieces zero b remaining_bits value = ok (value, b)
read_pieces (suc rounds) b remaining_bits value =
    let bits_to_read = piece b.read_pos remaining_bits in
    let result_shift = remaining_bits - bits_to_read in
    let value' =
      if ltb result_shift 64
      then bit_or value (read_piece b remaining_bits * 2 ^ result_shift % 2 ^ 64)
      else value in
    let rest =
      read_pieces rounds (record b { read_pos = b.read_pos + bits_to_read }) result_shift value' in
    if not (ltb 0 remaining_bits)
    then ok (value, b)
    else if leb (length b.buffer) (b.read_pos / 8)
    then err unexpected_eof
    else rest

unfoldable pub read_bits : BitBuffer → ℕ → Result (ℕ × BitBuffer) IoError
unfolding read_bytes_fast read_pieces
read_bits b bits =
    if ltb 64 bits
    then err invalid_input
    else if bits == 0
    then ok (0, b)
    else if is_multiple_of_8 b.read_pos && is_multiple_of_8 bits
    then read_bytes_fast b (bits / 8)
    else read_pieces bits b bits 0

unfoldable pub read_bit : BitBuffer → Result (Bool × BitBuffer) IoError
read_bit b =
    let byte_pos = b.read_pos / 8 in
    if leb (length b.buffer) byte_pos
    then err unexpected_eof
    else ok (
      not (bit_and (get_or b.buffer byte_pos 0) (2 ^ (7 - b.read_pos % 8)) == 0),
      record b { read_pos = b.read_pos + 1 },
    )
