-- ===== src/Connection/PacketType.antt =====
-- shared/src/connection/packet_type.rs: PacketType and its serialization.
use naia.Base.{
  ℕ, zero, suc, ◌+◌, ◌≤◌, ◌<◌, max, ◌≡◌, refl, Bool, true, false, List, [], ◌∷◌, ◌++◌, arith,
  if◌then◌else◌, length,
}
use naia.Base.Int.{ℤ, pos}
use naia.Base.Outcome.{Outcome, ok, panic, ◌>>=◌}
use naia.Serde.Interface.{BitWrite, IsBitWrite, Emits, Emits-bit, Emits-seq, Emits-nil}
use naia.Serde.Reader.{BitReader, read_bit}
use naia.Serde.Reader.Remaining.{IsValid, remaining, Reads, read_bit-Reads}
use naia.Serde.Number
use naia.Serde.Number.{SerdeNumberInner, new_unchecked}
use naia.Serde.Number.Encode.{number_bits, IsNumber, ser-Emits}
use naia.Serde.Number.Construct.{new_iff}
use naia.Serde.Number.RoundTrip.{number_round_trip, IsReadable}
use naia.Serde.Counter
use naia.Serde.Counter.{BitCounter, bit_counter, bits_needed}
use naia.Serde.Codec.Wire.{codec_counted}
use naia.Serde.Codec.{Serde, IsSerde}
use naia.Serde.Bits.{to_bits}

pub data PacketType : Type 0 where
  data_packet heartbeat handshake ping pong : PacketType

abbrev pub is_data : PacketType → Bool
is_data data_packet = true
is_data _ = false

-- The match of `ser` behind the test for Data.
abbrev type_index : PacketType → Outcome ℤ
type_index data_packet = panic
type_index heartbeat = ok (pos 0)
type_index handshake = ok (pos 1)
type_index ping = ok (pos 2)
type_index pong = ok (pos 3)

unfoldable pub ser : {W : Type 0} → BitWrite W → PacketType → W → Outcome W
ser o t w = do
  w' ← o.write_bit (is_data t) w
  if is_data t
      then ok w'
      else (do index ← type_index t; n ← Number.new false false 2 0 index; Number.ser o n w')

-- The match of `de` on the index.
abbrev from_index : ℤ → Outcome PacketType
from_index (pos zero) = ok heartbeat
from_index (pos (suc zero)) = ok handshake
from_index (pos (suc (suc zero))) = ok ping
from_index (pos (suc (suc (suc zero)))) = ok pong
from_index _ = panic

unfoldable pub de : BitReader → Outcome (PacketType × BitReader)
de r = do
  (is_data, r') ← read_bit r
  elim is_data [
    | true ↦ ok (data_packet, r')
    | false ↦ do (n, r'') ← Number.de false false 2 0 r'; t ← from_index n.inner_value; ok (t, r'')
  ]

-- The length of an `UnsignedInteger<4>` behind the bit for Data.
unfoldable pub bit_length : PacketType → ℕ
bit_length t = if is_data t then 1 else 1 + 4

unfoldable pub packet_type_serde : Serde PacketType
unfolding ser de bit_length
packet_type_serde = record { ser = ser; de = de; bit_length = bit_length }

-- The number that stands for a type that is not Data.
abbrev index_number : ℕ → SerdeNumberInner
index_number n = record {
  inner_value = pos n;
  signed = false;
  variable = false;
  bits = 2;
  fraction_digits = 0;
}

abbrev packet_type_bits : PacketType → List Bool
packet_type_bits data_packet = true ∷ []
packet_type_bits heartbeat = false ∷ number_bits (index_number 0)
packet_type_bits handshake = false ∷ number_bits (index_number 1)
packet_type_bits ping = false ∷ number_bits (index_number 2)
packet_type_bits pong = false ∷ number_bits (index_number 3)

index_number-IsNumber : (n : ℕ) → n < 4 → IsNumber (index_number n) × IsReadable (index_number n)
index_number-IsNumber n small = (
  record {
    some_bits = omega arith;
    sign = λ _. refl;
    small = omega arith;
    fits = λ _. omega arith;
  },
  (omega arith, λ e. cc),
)

index_number-new : (n : ℕ) → n < 4 → Number.new false false 2 0 (pos n) ≡ ok (index_number n)
unfolding new_unchecked
index_number-new n small = (new_iff false false 2 0 (pos n) (index_number n)).1 (
  record {
    some_bits = omega arith;
    few_bits = omega arith;
    sign = λ _. refl;
    range = λ _. omega arith;
  },
  refl,
)

module _ {W : Type 0} {o : BitWrite W} (l : IsBitWrite o) where
  index-Emits :
      (n : ℕ)
      → n < 4
      → Emits l
          (λ w. Number.new false false 2 0 (pos n) >>= λ m. Number.ser o m w)
          (number_bits (index_number n))
  index-Emits n small =
      rw (index_number-new n small) (ser-Emits l (index_number n) (index_number-IsNumber n small).0)

  other-Emits :
      (n : ℕ)
      → n < 4
      → Emits l
          (λ w. o.write_bit false w >>= λ w'.
            Number.new false false 2 0 (pos n) >>= λ m. Number.ser o m w')
          (false ∷ number_bits (index_number n))
  other-Emits n small =
      Emits-seq l (o.write_bit false) _ (false ∷ []) _ (Emits-bit l false) (index-Emits n small)

  type-Emits : (t : PacketType) → Emits l (ser o t) (packet_type_bits t)
  unfolding ser
  type-Emits data_packet =
      Emits-seq l (o.write_bit true) ok (true ∷ []) [] (Emits-bit l true) (Emits-nil l)
  type-Emits heartbeat = other-Emits 0 (omega arith)
  type-Emits handshake = other-Emits 1 (omega arith)
  type-Emits ping = other-Emits 2 (omega arith)
  type-Emits pong = other-Emits 3 (omega arith)

other-Reads :
    (n : ℕ) (t : PacketType) (r : BitReader) (rest : List Bool)
    → n < 4
    → from_index (pos n) ≡ ok t
    → IsValid r
    → remaining r ≡ false ∷ number_bits (index_number n) ++ rest
    → Reads (de r) t rest
unfolding de
other-Reads n t r rest small found h e =
    let (r1, p1, h1, e1) = read_bit-Reads r false (number_bits (index_number n) ++ rest) h e in
    let (number, readable) = index_number-IsNumber n small in
    let (r2, p2, h2, e2) = number_round_trip (index_number n) r1 rest number readable h1 e1 in
    (r2, rw (p1, p2, found), h2, e2)

type-Reads :
    (t : PacketType) (r : BitReader) (rest : List Bool)
    → IsValid r
    → remaining r ≡ packet_type_bits t ++ rest
    → Reads (de r) t rest
unfolding de
type-Reads data_packet r rest h e =
    let (r1, p1, h1, e1) = read_bit-Reads r true rest h e in (r1, rw p1, h1, e1)
type-Reads heartbeat r rest h e = other-Reads 0 heartbeat r rest (omega arith) refl h e
type-Reads handshake r rest h e = other-Reads 1 handshake r rest (omega arith) refl h e
type-Reads ping r rest h e = other-Reads 2 ping r rest (omega arith) refl h e
type-Reads pong r rest h e = other-Reads 3 pong r rest (omega arith) refl h e

-- Every packet type is read back from what is written for it.
pub packet_type_serde-IsSerde : IsSerde packet_type_serde
unfolding packet_type_serde
packet_type_serde-IsSerde = record {
  Fits = λ _. Unit;
  bits = packet_type_bits;
  ser-Emits = λ l t _. type-Emits l t;
  de-Reads = λ t r rest _ h e. type-Reads t r rest h e;
}

pub any_type : (t : PacketType) → packet_type_serde-IsSerde.Fits t
unfolding packet_type_serde-IsSerde
any_type t = tt

pub packet_type-short : (t : PacketType) → length (packet_type_serde-IsSerde.bits t) ≤ 3
unfolding packet_type_serde-IsSerde number_bits to_bits
packet_type-short data_packet = omega arith
packet_type-short heartbeat = omega arith
packet_type-short handshake = omega arith
packet_type-short ping = omega arith
packet_type-short pong = omega arith

over_length :
    (t : PacketType)
    → bit_length t ≡ length (packet_type_serde-IsSerde.bits t) + (if is_data t then 0 else 2)
unfolding bit_length packet_type_serde-IsSerde number_bits to_bits
over_length data_packet = refl
over_length heartbeat = omega arith
over_length handshake = omega arith
over_length ping = omega arith
over_length pong = omega arith

-- `bit_length` of a packet type against what `ser` writes, measured with a BitCounter: they agree
-- for Data, and for every other type `bit_length` is two bits too long.
pub packet_type-bit_length :
    (t : PacketType) (start max : ℕ)
    → (c : BitCounter) × (k : ℕ) × (ser bit_counter t (Counter.new start start max) ≡ ok c)
      × (bits_needed c ≡ ok k)
      × (bit_length t ≡ k + (if is_data t then 0 else 2))
unfolding packet_type_serde
packet_type-bit_length t start max =
    let (c, written, needed, _) =
      codec_counted packet_type_serde packet_type_serde-IsSerde t start max (any_type t) in
    (c, length (packet_type_serde-IsSerde.bits t), written, needed, over_length t)
