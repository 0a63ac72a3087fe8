-- ===== src/Serde/Codec/Primitives.antt =====
-- bool, u8, the little-endian unsigned integers of `impl_serde_for`, and Option.
use naia.Base.{
  ℕ, zero, suc, ◌+◌, ◌*◌, ◌/◌, ◌%◌, ◌^◌, ◌<◌, ◌≡◌, refl, sym, ap, ◌∙◌, Bool, true, false, Option,
  none, some, List, [], ◌∷◌, ◌++◌, append_assoc, arith, length,
}
use naia.Base.Outcome.{Outcome, ok, ◌>>=◌}
use naia.Serde.Bits.{to_bits, length-to_bits, to_bits-split}
use naia.Serde.Interface.{BitWrite, IsBitWrite, Emits, Emits-bit, Emits-byte, Emits-seq, Emits-nil}
use naia.Serde.Reader.{BitReader, read_bit, read_byte}
use naia.Serde.Reader.Remaining.{IsValid, remaining, Reads, read_bit-Reads}
use naia.Serde.Reader.Loops.{read_byte-Reads}
use naia.Serde.Codec.{Serde, IsSerde, IsMeasured}
use naia.Base.Bits.{div-pow-lt}

unfoldable pub bool_serde : Serde Bool
bool_serde = record { ser = λ o b. o.write_bit b; de = read_bit; bit_length = λ _. 1 }

pub bool_serde-IsSerde : IsSerde bool_serde
unfolding bool_serde
bool_serde-IsSerde = record {
  Fits = λ _. Unit;
  bits = λ b. b ∷ [];
  ser-Emits = λ l b _. Emits-bit l b;
  de-Reads = λ b r rest _ h e. read_bit-Reads r b rest h e;
}

-- The bytes of a value in memory, the lowest first, and the value of such bytes.
unfoldable pub ser_bytes : {W : Type 0} → BitWrite W → ℕ → ℕ → W → Outcome W
ser_bytes o zero n w = ok w
ser_bytes o (suc count) n w = do w' ← o.write_byte (n % 256) w; ser_bytes o count (n / 256) w'

unfoldable pub de_bytes : ℕ → BitReader → Outcome (ℕ × BitReader)
de_bytes zero r = ok (0, r)
de_bytes (suc count) r = do
  (byte, r') ← read_byte r
  (n, r'') ← de_bytes count r'
  ok (byte + n * 256, r'')

-- An unsigned integer of `count` bytes: u8, u16, u32, u64.
unfoldable pub uint_serde : ℕ → Serde ℕ
unfolding ser_bytes de_bytes
uint_serde count = record {
  ser = λ o. ser_bytes o count;
  de = de_bytes count;
  bit_length = λ _. count * 8;
}

ser_bytes-Emits :
    {W : Type 0} {o : BitWrite W} (l : IsBitWrite o) (count n : ℕ)
    → Emits l (ser_bytes o count n) (to_bits (count * 8) n)
unfolding ser_bytes to_bits
ser_bytes-Emits l zero n = Emits-nil l
ser_bytes-Emits {o = o} l (suc count) n =
    let e : suc count * 8 ≡ 8 + count * 8 = omega arith in
    rw (e, to_bits-split 8 (count * 8) n)
      (Emits-seq l (o.write_byte (n % 256)) _ _ _ (Emits-byte l (n % 256) (omega arith))
        (ser_bytes-Emits l count (n / 256)))

de_bytes-Reads :
    (count n : ℕ) (r : BitReader) (rest : List Bool)
    → n < 2 ^ (count * 8)
    → IsValid r
    → remaining r ≡ to_bits (count * 8) n ++ rest
    → Reads (de_bytes count r) n rest
unfolding de_bytes
de_bytes-Reads zero n r rest small h e =
    let z : 0 ≡ n = omega arith in
    let none_left : to_bits 0 n ≡ [] = unfold to_bits in refl in
    (r, ap (λ (x : ℕ). ok (x, r)) z, h, e ∙ ap (λ (bs : List Bool). bs ++ rest) none_left)
de_bytes-Reads (suc count) n r rest small h e =
    let eight : suc count * 8 ≡ 8 + count * 8 = omega arith in
    let e' : remaining r ≡ to_bits 8 (n % 256) ++ (to_bits (count * 8) (n / 256) ++ rest) =
      e ∙ rw (eight, to_bits-split 8 (count * 8) n, append_assoc) in
    let (r1, p1, h1, e1) = read_byte-Reads (n % 256) r _ (omega arith) h e' in
    let split : suc count * 8 ≡ count * 8 + 8 = omega arith in
    let below : n / 256 < 2 ^ (count * 8) = div-pow-lt 8 (count * 8) n (rw split at small) in
    let (r2, p2, h2, e2) = de_bytes-Reads count (n / 256) r1 rest below h1 e1 in
    let value : n % 256 + n / 256 * 256 ≡ n = omega arith in (r2, rw (p1, p2, value), h2, e2)

pub uint_serde-IsSerde : (count : ℕ) → IsSerde (uint_serde count)
unfolding uint_serde
uint_serde-IsSerde count = record {
  Fits = λ n. n < 2 ^ (count * 8);
  bits = to_bits (count * 8);
  ser-Emits = λ l n _. ser_bytes-Emits l count n;
  de-Reads = λ n r rest. de_bytes-Reads count n r rest;
}

pub uint-Fits : (count n : ℕ) → n < 2 ^ (count * 8) → (uint_serde-IsSerde count).Fits n
unfolding uint_serde-IsSerde
uint-Fits count n h = h

pub uint_bits-length : (count n : ℕ) → length ((uint_serde-IsSerde count).bits n) ≡ count * 8
unfolding uint_serde-IsSerde
uint_bits-length count n = length-to_bits (count * 8) n

pub uint_serde-IsMeasured : (count : ℕ) → IsMeasured (uint_serde count) (uint_serde-IsSerde count)
unfolding uint_serde uint_serde-IsSerde
uint_serde-IsMeasured count n h = sym (length-to_bits (count * 8) n)

module _ {T : Type 0} (s : Serde T) where
  unfoldable pub ser_option : {W : Type 0} → BitWrite W → Option T → W → Outcome W
  ser_option o (some value) w = do w' ← o.write_bit true w; s.ser o value w'
  ser_option o none w = o.write_bit false w

  unfoldable pub de_option : BitReader → Outcome (Option T × BitReader)
  de_option r = do
    (is_some, r') ← read_bit r
    elim is_some [ true ↦ do (value, r'') ← s.de r'; ok (some value, r'') | false ↦ ok (none, r') ]

  unfoldable pub option_length : Option T → ℕ
  option_length (some value) = 1 + s.bit_length value
  option_length none = 1

  unfoldable pub option_serde : Serde (Option T)
  unfolding ser_option de_option option_length
  option_serde = record { ser = ser_option; de = de_option; bit_length = option_length }

module _ {T : Type 0} {s : Serde T} (l : IsSerde s) where
  abbrev OptionFits : Option T → Type 0
  OptionFits none = Unit
  OptionFits (some x) = l.Fits x

  abbrev option_bits : Option T → List Bool
  option_bits none = false ∷ []
  option_bits (some x) = true ∷ l.bits x

  ser_option-Emits :
      {W : Type 0} {o : BitWrite W} (k : IsBitWrite o) (x : Option T)
      → OptionFits x
      → Emits k (ser_option s o x) (option_bits x)
  unfolding ser_option
  ser_option-Emits k none h = Emits-bit k false
  ser_option-Emits {o = o} k (some x) h =
      Emits-seq k (o.write_bit true) (s.ser o x) _ _ (Emits-bit k true) (l.ser-Emits k x h)

  de_option-Reads :
      (x : Option T) (r : BitReader) (rest : List Bool)
      → OptionFits x
      → IsValid r
      → remaining r ≡ option_bits x ++ rest
      → Reads (de_option s r) x rest
  unfolding de_option
  de_option-Reads none r rest fits h e =
      let (r1, p1, h1, e1) = read_bit-Reads r false rest h e in (r1, rw p1, h1, e1)
  de_option-Reads (some x) r rest fits h e =
      let (r1, p1, h1, e1) = read_bit-Reads r true (l.bits x ++ rest) h e in
      let (r2, p2, h2, e2) = l.de-Reads x r1 rest fits h1 e1 in (r2, rw (p1, p2), h2, e2)

  -- An Option over a type that meets the laws of a round trip meets them.
  pub option_serde-IsSerde : IsSerde (option_serde s)
  unfolding option_serde
  option_serde-IsSerde = record {
    Fits = OptionFits;
    bits = option_bits;
    ser-Emits = ser_option-Emits;
    de-Reads = de_option-Reads;
  }
