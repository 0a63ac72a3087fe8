-- ===== src/Serde/Counter.antt =====
-- shared/serde/src/bit_counter.rs: BitCounter, a BitWrite that only counts. A measurement runs the
-- same serialization over it.
use naia.Base.{
  ℕ, suc, ◌+◌, ◌-◌, ◌<◌, max, ◌≡◌, ◌∙◌, ◌↔◌, Bool, true, List, [], ◌∷◌, arith, ltb, leb,
  if◌then◌else◌, length,
}
use naia.Base.Outcome.{Outcome, ok, panic}
use naia.Serde.Bits.{to_bits, length-to_bits}
use naia.Serde.Interface.{BitWrite, IsBitWrite, write_bits, Emits}

-- The u32 counters, whose overflow is left out: it takes 2^32 bits.
pub record BitCounter : Type 0 where
  pub start_bits : ℕ
  pub current_bits : ℕ
  pub max_bits : ℕ

unfoldable pub new : ℕ → ℕ → ℕ → BitCounter
new start_bits current_bits max_bits = record {
  start_bits = start_bits;
  current_bits = current_bits;
  max_bits = max_bits;
}

unfoldable pub overflowed : BitCounter → Bool
overflowed c = ltb c.max_bits c.current_bits

-- A subtraction over u32.
unfoldable pub bits_needed : BitCounter → Outcome ℕ
bits_needed c =
    if leb c.start_bits c.current_bits then ok (c.current_bits - c.start_bits) else panic

unfoldable pub write_bit : Bool → BitCounter → Outcome BitCounter
write_bit bit c = ok (record c { current_bits = c.current_bits + 1 })

unfoldable pub write_byte : ℕ → BitCounter → Outcome BitCounter
write_byte byte c = ok (record c { current_bits = c.current_bits + 8 })

unfoldable pub count_bits : ℕ → BitCounter → Outcome BitCounter
count_bits bits c = ok (record c { current_bits = c.current_bits + bits })

unfoldable pub bit_counter : BitWrite BitCounter
bit_counter = record {
  write_bit = write_bit;
  write_byte = write_byte;
  is_counter = λ _. true;
  count_bits = count_bits;
}

write_bits-counts :
    (bs : List Bool) (c : BitCounter)
    → write_bits bit_counter bs c ≡ ok (record c { current_bits = c.current_bits + length bs })
unfolding write_bits bit_counter write_bit
write_bits-counts [] c = let e : c.current_bits + 0 ≡ c.current_bits = omega arith in rw e
write_bits-counts (b ∷ bs) c =
    let e : c.current_bits + 1 + length bs ≡ c.current_bits + suc (length bs) = omega arith in
    rw (write_bits-counts bs (record c { current_bits = c.current_bits + 1 }), e)

write_byte-counts :
    (n : ℕ) (c : BitCounter) → bit_counter.write_byte n c ≡ write_bits bit_counter (to_bits 8 n) c
unfolding bit_counter write_byte
write_byte-counts n c = rw (write_bits-counts (to_bits 8 n) c, length-to_bits 8 n)

pub bit_counter-IsBitWrite : IsBitWrite bit_counter
bit_counter-IsBitWrite = record {
  Valid = λ _. Unit;
  write_bit-Valid = λ _ _ _ _ _. tt;
  write_byte-bits = λ n c _ _. write_byte-counts n c;
}

-- Code that emits the bits `bs` from every valid writer makes a counter count their number: the
-- bits that it needs are `length bs`, and the counter overflows exactly if they do not fit below
-- `max_bits` behind the bits counted before.
pub emitted-counted :
    (f : BitCounter → Outcome BitCounter) (bs : List Bool) (start max : ℕ)
    → Emits bit_counter-IsBitWrite f bs
    → (c : BitCounter) × (f (new start start max) ≡ ok c)
      × (bits_needed c ≡ ok (length bs))
      × ((overflowed c ≡ true) ↔ (max < start + length bs))
unfolding bit_counter-IsBitWrite new bits_needed overflowed
emitted-counted f bs start max emits = (
  new start (start + length bs) max,
  emits (new start start max) tt ∙ write_bits-counts bs (new start start max),
  ground arith,
  ground arith,
)
