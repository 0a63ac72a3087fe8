-- ===== src/Tests/SerdeRuns.antt =====
-- shared/serde/src and shared/src/wrapping_number.rs on concrete input.
use naia.Base.{
  ℕ, ◌≤◌, ◌<◌, ◌≡◌, refl, ◌≢◌, ◌↔◌, ◌⊎◌, true, false, List, [], ◌∷◌, ◌++◌, arith, length, ltb,
}
use naia.Base.Int.{pos, negsuc}
use naia.Base.Outcome.{ok}
use naia.Serde.Bits.{to_bits, byte_bits}
use naia.Serde.Interface.{write_bits}
use naia.Serde.Writer
use naia.Serde.Writer.{BitWriter, write_byte, bit_writer, to_bytes, with_capacity, mtu_size_bits}
use naia.Serde.Writer.Contents.{with_capacity-IsValid}
use naia.Serde.Writer.Bytes.{write_byte-bits}
use naia.Serde.Reader
use naia.Serde.Reader.{BitReader}
use naia.Serde.Reader.Remaining.{Reads, remaining, new-IsValid}
use naia.Serde.Number
use naia.Serde.Number.{
  SerdeNumberInner, ser, de, new_unchecked, bit_length, set_value, count_chunks,
}
use naia.Serde.Number.Encode.{IsNumber, number_bits, chunk_bits}
use naia.Serde.Number.Construct.{new_iff, IsAccepted}
use naia.Serde.Number.RoundTrip.{IsReadable, number_round_trip, bit_length-counted}
use naia.Serde.Wire.{number_over_wire}
use naia.Sequence.{sequence_greater_than, sequence_less_than, wrapping_diff}
use naia.Sequence.Order.{
  sequence_trichotomy, offset, greater-offset, wrapping_diff-signed_distance, signed_distance,
}
use naia.Serde.Counter
use naia.Serde.Counter.{BitCounter, bit_counter, bits_needed}

-- -1000 in variable chunks of five bits.
abbrev minus_1000 : SerdeNumberInner
minus_1000 = record {
  inner_value = negsuc 999;
  signed = true;
  variable = true;
  bits = 5;
  fraction_digits = 0;
}

minus_1000-IsNumber : IsNumber minus_1000
minus_1000-IsNumber = record {
  some_bits = omega arith;
  sign = λ e. cc;
  small = omega arith;
  fits = λ e. cc;
}

minus_1000-IsReadable : IsReadable minus_1000
minus_1000-IsReadable = (omega arith, λ _. omega arith)

minus_1000-short : length (number_bits minus_1000) ≤ mtu_size_bits
unfolding number_bits chunk_bits to_bits
minus_1000-short = omega arith

number_over_wire_example :
    (w : BitWriter) × (bytes : List ℕ) × (r : BitReader) × (ser bit_writer minus_1000 Writer.new
      ≡ ok w)
    × (to_bytes w ≡ ok bytes)
    × (de true true 5 0 (Reader.new bytes) ≡ ok (minus_1000, r))
number_over_wire_example =
    number_over_wire minus_1000 minus_1000-IsNumber minus_1000-IsReadable minus_1000-short

-- 200 in eight bits, from a byte.
abbrev two_hundred : SerdeNumberInner
two_hundred = record {
  inner_value = pos 200;
  signed = false;
  variable = false;
  bits = 8;
  fraction_digits = 0;
}

two_hundred-IsNumber : IsNumber two_hundred
two_hundred-IsNumber = record {
  some_bits = omega arith;
  sign = λ _. refl;
  small = omega arith;
  fits = λ _. omega arith;
}

two_hundred_left : remaining (Reader.new (200 ∷ [])) ≡ number_bits two_hundred ++ []
unfolding Reader.new remaining number_bits byte_bits to_bits
two_hundred_left = refl

number_round_trip_example : Reads (de false false 8 0 (Reader.new (200 ∷ []))) two_hundred []
number_round_trip_example =
    number_round_trip two_hundred (Reader.new (200 ∷ [])) [] two_hundred-IsNumber
      (omega arith, λ e. cc) (new-IsValid (200 ∷ [])) two_hundred_left

bit_length-counted_example :
    (c : BitCounter) × (Number.ser bit_counter minus_1000 (Counter.new 0 0 3440) ≡ ok c)
    × (bits_needed c ≡ ok (bit_length minus_1000))
bit_length-counted_example = bit_length-counted minus_1000 0 3440 minus_1000-IsNumber

new_iff_example :
    (Number.new false false 8 0 (pos 200) ≡ ok two_hundred)
    ↔ (IsAccepted false false 8 (pos 200) × (two_hundred ≡ new_unchecked false false 8 0 (pos 200)))
new_iff_example = new_iff false false 8 0 (pos 200) two_hundred

write_byte-bits_example :
    write_byte 171 (with_capacity 3440) ≡ write_bits bit_writer (to_bits 8 171) (with_capacity 3440)
write_byte-bits_example =
    write_byte-bits 171 (with_capacity 3440) (omega arith) (with_capacity-IsValid 3440)

abbrev last_number : ℕ
last_number = 65535

abbrev first_number : ℕ
first_number = 0

sequence_trichotomy_example :
    (((last_number ≡ first_number)
        × (sequence_greater_than last_number first_number ≡ false)
        × (sequence_less_than last_number first_number ≡ false))
      ⊎ ((last_number ≢ first_number)
          × (sequence_greater_than last_number first_number ≡ true)
          × (sequence_less_than last_number first_number ≡ false))
      ⊎ ((last_number ≢ first_number)
          × (sequence_greater_than last_number first_number ≡ false)
          × (sequence_less_than last_number first_number ≡ true)))
    × (offset first_number last_number ≡ 32768
        → sequence_greater_than last_number first_number ≡ ltb first_number last_number)
sequence_trichotomy_example =
    sequence_trichotomy last_number first_number (omega arith) (omega arith)

greater-offset_example :
    (sequence_greater_than 3 65530 ≡ true) ↔ (offset 65000 65530 < offset 65000 3)
greater-offset_example =
    greater-offset 65000 3 65530 (omega arith) (omega arith) (omega arith) (omega arith)
      (omega arith)

wrapping_diff-signed_distance_example : wrapping_diff 65535 0 ≡ ok (signed_distance 65535 0)
wrapping_diff-signed_distance_example =
    wrapping_diff-signed_distance 65535 0 (omega arith) (omega arith)

-- An unsigned number of variable width that `set` made negative: `bit_length` says one chunk of seven
-- bits, and `ser` writes nineteen.
abbrev set_negative : SerdeNumberInner
set_negative = set_value (negsuc 0) (new_unchecked false true 7 0 (pos 0))

negative_length : bit_length set_negative ≡ 8
unfolding bit_length count_chunks set_value new_unchecked
negative_length = refl

negative_written :
    Number.ser bit_counter set_negative (naia.Serde.Counter.new 0 0 3440)
    ≡ ok (naia.Serde.Counter.new 0 152 3440)
unfolding Number.ser Number.ser_sign Number.magnitude Number.ser_chunks Number.write_lsb bit_counter
    naia.Serde.Counter.write_bit naia.Serde.Counter.new set_value new_unchecked
negative_written = refl
