-- ===== src/Serde/Writer.antt =====
-- shared/serde/src/bit_writer.rs: BitWriter. Bits gather in a 32-bit scratch register that is
-- flushed to the buffer as a little-endian word.
pub mod Contents
pub mod Push
pub mod Bytes
pub mod Capacity
use naia.Base.{
  ℕ, ◌+◌, ◌-◌, ◌*◌, ◌/◌, ◌%◌, ◌^◌, Bool, true, false, List, [], ◌∷◌, ◌++◌, ltb, leb, ◌==◌,
  if◌then◌else◌, length, take, drop, replicate, bit_and, bit_or,
}
use naia.Base.Outcome.{Outcome, ok, panic, ◌>>=◌}
use naia.Serde.Bits.{bit_value}
use naia.Serde.Interface.{BitWrite}

-- 576 - 60 - 8 - 50 - 28
abbrev pub mtu_size_bytes : ℕ
mtu_size_bytes = 430

abbrev pub mtu_size_bits : ℕ
mtu_size_bits = 3440

pub record BitWriter : Type 0 where
  pub scratch : ℕ
  pub scratch_bits : ℕ
  pub buffer : List ℕ
  pub byte_count : ℕ
  pub current_bits : ℕ
  pub max_bits : ℕ

unfoldable pub with_capacity : ℕ → BitWriter
with_capacity bit_capacity = record {
  scratch = 0;
  scratch_bits = 0;
  buffer = replicate mtu_size_bytes 0;
  byte_count = 0;
  current_bits = 0;
  max_bits = bit_capacity;
}

unfoldable pub new : BitWriter
unfolding with_capacity
new = with_capacity mtu_size_bits

unfoldable pub with_max_capacity : BitWriter
unfolding with_capacity
with_max_capacity = with_capacity 4294967295

-- u32::to_le_bytes
abbrev pub to_le_bytes : ℕ → List ℕ
to_le_bytes s = s % 256 ∷ s / 256 % 256 ∷ s / 65536 % 256 ∷ s / 16777216 % 256 ∷ []

-- `buffer[i .. i + bytes.len()].copy_from_slice(bytes)`, which panics if the slice is out of range.
unfoldable pub copy_at : List ℕ → ℕ → List ℕ → Outcome (List ℕ)
copy_at buffer i bytes =
    if leb (i + length bytes) (length buffer)
    then ok (take i buffer ++ (bytes ++ drop (i + length bytes) buffer))
    else panic

unfoldable pub flush_word : BitWriter → Outcome BitWriter
flush_word w = do
  buffer ← copy_at w.buffer w.byte_count (to_le_bytes w.scratch)
  ok (record w { buffer = buffer; byte_count = w.byte_count + 4; scratch = 0; scratch_bits = 0 })

-- usize::div_ceil(8)
abbrev pub div_ceil_eight : ℕ → ℕ
div_ceil_eight n = (n + 7) / 8

unfoldable pub finalize_scratch : BitWriter → Outcome BitWriter
finalize_scratch w = do
  let remaining_bytes = div_ceil_eight w.scratch_bits
  buffer ← copy_at w.buffer w.byte_count (take remaining_bytes (to_le_bytes w.scratch))
  ok (record w { buffer = buffer; byte_count = w.byte_count + remaining_bytes; max_bits = 0 })

unfoldable pub finalize : BitWriter → Outcome BitWriter
unfolding finalize_scratch
finalize w = if ltb 0 w.scratch_bits then finalize_scratch w else ok (record w { max_bits = 0 })

-- What `to_bytes`, `to_packet` and `to_owned_reader` hand on: the first `byte_count` bytes.
unfoldable pub to_bytes : BitWriter → Outcome (List ℕ)
to_bytes w = do w' ← finalize w; ok (take w'.byte_count w'.buffer)

-- These subtractions and this addition over u32 panic on overflow.
unfoldable pub reserve_bits : ℕ → BitWriter → Outcome BitWriter
reserve_bits bits w =
    if leb bits w.max_bits then ok (record w { max_bits = w.max_bits - bits }) else panic

unfoldable pub release_bits : ℕ → BitWriter → Outcome BitWriter
release_bits bits w =
    if ltb (w.max_bits + bits) (2 ^ 32)
    then ok (record w { max_bits = w.max_bits + bits })
    else panic

unfoldable pub bits_free : BitWriter → Outcome ℕ
bits_free w = if leb w.current_bits w.max_bits then ok (w.max_bits - w.current_bits) else panic

-- Flush when the scratch register is full.
unfoldable pub flush_if_full : BitWriter → Outcome BitWriter
flush_if_full w = if w.scratch_bits == 32 then flush_word w else ok w

unfoldable pub write_bit : Bool → BitWriter → Outcome BitWriter
unfolding flush_if_full
write_bit bit w =
    if leb w.max_bits w.current_bits
    then panic
    else flush_if_full (record w {
      scratch = bit_or w.scratch (bit_value bit * 2 ^ w.scratch_bits % 2 ^ 32);
      scratch_bits = w.scratch_bits + 1;
      current_bits = w.current_bits + 1;
    })

-- The byte fits the scratch register.
unfoldable pub write_byte_within : ℕ → BitWriter → Outcome BitWriter
unfolding flush_if_full
write_byte_within byte w = flush_if_full (record w {
  scratch = bit_or w.scratch (byte * 2 ^ w.scratch_bits % 2 ^ 32);
  scratch_bits = w.scratch_bits + 8;
})

-- The byte spans a word boundary.
unfoldable pub write_byte_across : ℕ → ℕ → BitWriter → Outcome BitWriter
write_byte_across available byte w = do
  let lo = bit_and byte (2 ^ available - 1)
  w' ← flush_word (record w { scratch = bit_or w.scratch (lo * 2 ^ w.scratch_bits % 2 ^ 32) })
  ok (record w' { scratch = byte / 2 ^ available; scratch_bits = 8 - available })

unfoldable pub write_byte : ℕ → BitWriter → Outcome BitWriter
unfolding write_byte_within write_byte_across
write_byte byte w =
    if ltb w.max_bits (w.current_bits + 8)
    then panic
    else let available = 32 - w.scratch_bits in
      let w' : BitWriter = record w { current_bits = w.current_bits + 8 } in
      if leb 8 available then write_byte_within byte w' else write_byte_across available byte w'

unfoldable pub bit_writer : BitWrite BitWriter
bit_writer = record {
  write_bit = write_bit;
  write_byte = write_byte;
  is_counter = λ _. false;
  count_bits = λ _ _. panic;
}
