-- ===== src/Serde/Number.antt =====
-- shared/serde/src/number.rs: SerdeNumberInner, behind SerdeInteger and SerdeFloat. The value is an
-- i128 that is kept with its format.
pub mod Encode
mod Wide
mod Decode
pub mod Construct
pub mod RoundTrip
use naia.Base.{
  ℕ, zero, suc, ◌+◌, ◌-◌, ◌*◌, ◌/◌, ◌%◌, ◌^◌, ◌≤◌, ◌<◌, min, max, bit_and, bit_or, ◌≡◌, refl, sym,
  ap, ◌∙◌, ◌≢◌, ◌↔◌, ◌⊎◌, inl, inr, Bool, true, false, not, ◌&&◌, ◌||◌, Option, none, some, List,
  [], ◌∷◌, ◌++◌, map, append_assoc, append-nil, arith, ltb, leb, ◌==◌, if◌then◌else◌, length,
  get_elem?, set, get_or, take, drop, replicate, All,
}
use naia.Base.Int.{
  ℤ, pos, negsuc, as_u128, as_i128, neg_i128, unsigned_abs, is_negative, ltb_ℤ, leb_ℤ,
}
use mathlib.Core.List.{reverse}
use naia.Base.Outcome.{Outcome, ok, err, panic, ◌>>=◌}
use naia.Serde.Bits.{to_bits, from_bits}
use naia.Serde.Interface.{BitWrite}
use naia.Serde.Reader.{BitReader, read_bit, read_lsb}

pub record SerdeNumberInner : Type 0 where
  pub inner_value : ℤ
  pub signed : Bool
  pub variable : Bool
  pub bits : ℕ
  pub fraction_digits : ℕ

-- `2_i128.pow(bits)`, which overflows from 127 on.
abbrev pub pow_two_i128 : ℕ → Outcome ℤ
pow_two_i128 bits = if ltb bits 127 then ok (pos (2 ^ bits)) else panic

unfoldable pub new_unchecked : Bool → Bool → ℕ → ℕ → ℤ → SerdeNumberInner
new_unchecked signed variable bits fraction_digits value = record {
  inner_value = value;
  signed = signed;
  variable = variable;
  bits = bits;
  fraction_digits = fraction_digits;
}

-- The lower end of a signed fixed width: -(2^bits) < value.
unfoldable pub check_low : ℕ → ℤ → Outcome ℤ
check_low bits value = do
  max_value ← pow_two_i128 bits
  min_value ← neg_i128 max_value
  if leb_ℤ value min_value then panic else ok value

-- The range of a fixed width: value < 2^bits, and the lower end for a signed negative value.
unfoldable pub check_range : Bool → ℕ → ℤ → Outcome ℤ
unfolding check_low
check_range signed bits value = do
  max_value ← pow_two_i128 bits
  if leb_ℤ max_value value
      then panic
      else (if signed && is_negative value then check_low bits value else ok value)

unfoldable pub new : Bool → Bool → ℕ → ℕ → ℤ → Outcome SerdeNumberInner
unfolding new_unchecked check_range
new signed variable bits fraction_digits value =
    if bits == 0
    then panic
    else if ltb 127 bits
    then panic
    else if not signed && is_negative value
    then panic
    else if variable
    then ok (new_unchecked signed variable bits fraction_digits value)
    else (check_range signed bits value >>= λ v.
        ok (new_unchecked signed variable bits fraction_digits v))

-- `set` stores what it is given, with no check.
unfoldable pub set_value : ℤ → SerdeNumberInner → SerdeNumberInner
set_value value n = record n { inner_value = value }

-- What is written after the sign: the absolute value as u128.
unfoldable pub magnitude : SerdeNumberInner → Outcome ℕ
magnitude n =
    if n.signed && is_negative n.inner_value
    then (neg_i128 n.inner_value >>= λ m. ok (as_u128 m))
    else ok (as_u128 n.inner_value)

module _ {W : Type 0} (o : BitWrite W) where
  -- `for _ in 0..n { writer.write_bit(value & 1 != 0); value >>= 1; }`
  unfoldable pub write_lsb : ℕ → ℕ → W → Outcome W
  write_lsb zero value w = ok w
  write_lsb (suc n) value w = do
    w' ← o.write_bit (not (bit_and value 1 == 0)) w
    write_lsb n (value / 2) w'

  -- The loop over chunks of `bits` bits, on fuel; after a chunk `value` has been shifted by `bits`.
  -- `bits` is below 128, as `new` sees to: from there on the source's shift would overflow.
  unfoldable pub ser_chunks : ℕ → ℕ → ℕ → W → Outcome W
  unfolding write_lsb
  ser_chunks zero bits value w = panic
  ser_chunks (suc fuel) bits value w = do
    let proceed = leb (2 ^ bits) value
    w' ← o.write_bit proceed w
    w'' ← write_lsb bits value w'
    elim proceed [ true ↦ ser_chunks fuel bits (value / 2 ^ bits) w'' | false ↦ ok w'' ]

  unfoldable pub ser_sign : SerdeNumberInner → W → Outcome W
  ser_sign n w = if n.signed then o.write_bit (is_negative n.inner_value) w else ok w

  unfoldable pub ser : SerdeNumberInner → W → Outcome W
  unfolding ser_sign magnitude ser_chunks
  ser n w = do
    w' ← ser_sign n w
    value ← magnitude n
    if n.variable then ser_chunks 128 n.bits value w' else write_lsb n.bits value w'

-- u128::reverse_bits
abbrev pub reverse_bits : ℕ → ℕ
reverse_bits n = from_bits (reverse (to_bits 128 n))

-- `for _ in 0..n { raw <<= 1; if read_bit()? { raw |= 1 } }` over u128.
unfoldable pub read_msb : ℕ → ℕ → BitReader → Outcome (ℕ × BitReader)
read_msb zero raw r = ok (raw, r)
read_msb (suc n) raw r = do
  (bit, r') ← read_bit r
  let raw' = raw * 2 % 2 ^ 128
  read_msb n (if bit then bit_or raw' 1 else raw') r'

-- The branch for more than 64 bits, of at most 128, which every accepted number has: with more bits
-- the source's `128 - bits` would panic.
unfoldable pub de_wide : ℕ → BitReader → Outcome (ℕ × BitReader)
unfolding read_msb
de_wide bits r = do
  (raw, r') ← read_msb bits 0 r
  ok (reverse_bits (raw * 2 ^ (128 - bits) % 2 ^ 128), r')

unfoldable pub de_fixed : ℕ → BitReader → Outcome (ℕ × BitReader)
unfolding de_wide
de_fixed bits r =
    if leb bits 32
    then read_lsb 32 bits 0 0 r
    else if leb bits 64
    then read_lsb 64 bits 0 0 r
    else de_wide bits r

-- `output |= (chunk as u128) << shift`, which panics for a shift of 128 or more.
unfoldable pub or_shifted : ℕ → ℕ → ℕ → Outcome ℕ
or_shifted output chunk shift =
    if ltb shift 128 then ok (bit_or output (chunk * 2 ^ shift % 2 ^ 128)) else panic

-- The loop over chunks, on fuel.
unfoldable pub de_chunks : ℕ → ℕ → ℕ → ℕ → BitReader → Outcome (ℕ × BitReader)
unfolding or_shifted
de_chunks zero bits output shift r = err
de_chunks (suc fuel) bits output shift r = do
  (proceed, r') ← read_bit r
  (chunk, r'') ← read_lsb 32 bits 0 0 r'
  output' ← or_shifted output chunk shift
  elim proceed [ true ↦ de_chunks fuel bits output' (shift + bits) r'' | false ↦ ok (output', r'') ]

-- A chunk takes a bit of the buffer at least, so this many rounds are enough.
abbrev pub rounds : BitReader → ℕ
rounds r = 8 * length r.buffer + 9

unfoldable pub de_magnitude : Bool → ℕ → BitReader → Outcome (ℕ × BitReader)
unfolding de_chunks de_fixed
de_magnitude variable bits r = if variable then de_chunks (rounds r) bits 0 0 r else de_fixed bits r

unfoldable pub de_sign : Bool → BitReader → Outcome (Bool × BitReader)
de_sign signed r = if signed then read_bit r else ok (false, r)

abbrev pub apply_sign : Bool → ℤ → Outcome ℤ
apply_sign negative value = if negative then neg_i128 value else ok value

unfoldable pub de : Bool → Bool → ℕ → ℕ → BitReader → Outcome (SerdeNumberInner × BitReader)
unfolding new_unchecked de_sign de_magnitude
de signed variable bits fraction_digits r = do
  (negative, r') ← de_sign signed r
  (output, r'') ← de_magnitude variable bits r'
  value ← apply_sign negative (as_i128 output)
  ok (new_unchecked signed variable bits fraction_digits value, r'')

-- The loop of `bit_length` over chunks, on fuel.
unfoldable pub count_chunks : ℕ → ℕ → ℕ → ℕ → ℕ
count_chunks zero bits value output = output
count_chunks (suc fuel) bits value output = elim (leb (2 ^ bits) value) [
  | true ↦ count_chunks fuel bits (value / 2 ^ bits) (output + 1 + bits)
  | false ↦ output + 1 + bits
]

unfoldable pub bit_length : SerdeNumberInner → ℕ
bit_length n =
    let output = if n.signed then 1 else 0 in
    if n.variable
    then count_chunks 128 n.bits (unsigned_abs n.inner_value) output
    else output + n.bits
