-- ===== src/Serde/Reader.antt =====
-- shared/serde/src/bit_reader.rs: BitReader. Bits leave a scratch register that is refilled one
-- byte at a time. OwnedBitReader is the same state with its own copy of the buffer.
pub mod Remaining
pub mod Loops
use naia.Base.{
  ℕ, zero, suc, ◌+◌, ◌-◌, ◌*◌, ◌/◌, ◌%◌, ◌^◌, ◌≤◌, ◌<◌, min, max, bit_and, bit_or, ◌≡◌, refl, sym,
  ap, ◌∙◌, ◌≢◌, ◌↔◌, ◌⊎◌, inl, inr, Bool, true, false, not, ◌&&◌, ◌||◌, Option, none, some, List,
  [], ◌∷◌, ◌++◌, map, append_assoc, append-nil, arith, ltb, leb, ◌==◌, if◌then◌else◌, length,
  get_elem?, set, get_or, take, drop, replicate, All,
}
use naia.Base.Outcome.{Outcome, ok, err, panic, ◌>>=◌}

pub record BitReaderState : Type 0 where
  pub scratch : ℕ
  pub scratch_bits : ℕ
  pub buffer_index : ℕ

pub record BitReader : Type 0 where
  pub state : BitReaderState
  pub open state use *
  pub buffer : List ℕ

unfoldable pub new : List ℕ → BitReader
new buffer = record {
  state = record { scratch = 0; scratch_bits = 0; buffer_index = 0 };
  buffer = buffer;
}

-- The lowest bit of the register, which is shifted down.
unfoldable pub take_bit : BitReader → Bool × BitReader
take_bit r = (
  not (bit_and r.scratch 1 == 0),
  record r {
    state = record {
      scratch = r.scratch / 2;
      scratch_bits = r.scratch_bits - 1;
      buffer_index = r.buffer_index;
    };
  },
)

unfoldable pub refill : BitReader → Outcome BitReader
refill r =
    if r.buffer_index == length r.buffer then err else elim (get_elem? r.buffer r.buffer_index) [
      | none ↦ panic
      | some byte ↦ ok (record r {
        state = record { scratch = byte; scratch_bits = 8; buffer_index = r.buffer_index + 1 };
      })
    ]

unfoldable pub read_bit : BitReader → Outcome (Bool × BitReader)
unfolding take_bit refill
read_bit r = if r.scratch_bits == 0 then (refill r >>= λ r'. ok (take_bit r')) else ok (take_bit r)

-- `1 << i` in a type of `width` bits, which panics for a shift of the whole width.
unfoldable pub shl_one : ℕ → ℕ → Outcome ℕ
shl_one width i = if ltb i width then ok (2 ^ i) else panic

-- `if bit { raw |= 1 << i }`
unfoldable pub or_bit : ℕ → Bool → ℕ → ℕ → Outcome ℕ
unfolding shl_one
or_bit width true i raw = shl_one width i >>= λ m. ok (bit_or raw m)
or_bit width false i raw = ok raw

-- `for i in i..i + n { if read_bit()? { raw |= 1 << i } }` over an integer of `width` bits.
unfoldable pub read_lsb : ℕ → ℕ → ℕ → ℕ → BitReader → Outcome (ℕ × BitReader)
unfolding or_bit
read_lsb width zero i raw r = ok (raw, r)
read_lsb width (suc n) i raw r = do
  (bit, r') ← read_bit r
  raw' ← or_bit width bit i raw
  read_lsb width n (i + 1) raw' r'

unfoldable pub read_byte : BitReader → Outcome (ℕ × BitReader)
unfolding read_lsb
read_byte r =
    if leb 8 r.scratch_bits
    then ok (
      bit_and r.scratch 0xff,
      record r {
        state = record {
          scratch = r.scratch / 256;
          scratch_bits = r.scratch_bits - 8;
          buffer_index = r.buffer_index;
        };
      },
    )
    else read_lsb 8 8 0 0 r
