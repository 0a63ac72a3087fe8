-- ===== src/Serde/Reader/Loops.antt =====
-- The bit loops that the decoders run on a BitReader.
use naia.Base.{
  ℕ, ◌+◌, ◌*◌, ◌^◌, ◌≤◌, ◌<◌, bit_or, ◌≡◌, ap, ◌∙◌, Bool, true, false, List, [], ◌∷◌, ◌++◌, arith,
  ltb, leb, length,
}
use native.Mathlib.Numerals.{add-one}
use naia.Base.Outcome.{ok}
use naia.Serde.Bits.{to_bits, from_bits, bit_value, IsByte, length-to_bits, from_bits-to_bits}
use naia.Serde.Reader.{BitReader, shl_one, or_bit, read_lsb, read_byte}
use naia.Serde.Reader.Remaining.{IsValid, remaining, Reads, read_bit-Reads}
use naia.Base.Bits.{bit_or_shifted}
use native.Mathlib.Nat.{pow-suc}
use mathlib.Core.Path.{subst}

or_bit-ok :
    (width : ℕ) (b : Bool) (i raw : ℕ)
    → i < width
    → raw < 2 ^ i
    → or_bit width b i raw ≡ ok (raw + bit_value b * 2 ^ i)
unfolding or_bit shl_one
or_bit-ok width true i raw h hr =
    let t : ltb i width ≡ true = ground arith in
    let e : 2 ^ i ≡ 1 * 2 ^ i = omega arith in
    rw t (ap ok (ap (bit_or raw) e ∙ bit_or_shifted i 1 raw hr))
or_bit-ok width false i raw h hr = ap ok (omega arith)

bit-le : (b : Bool) (i : ℕ) → bit_value b * 2 ^ i ≤ 2 ^ i
bit-le true i = omega arith
bit-le false i = omega arith

-- Reading `n` bits into an integer of `width` bits adds the value of the bits, shifted by `i`.
pub read_lsb-Reads :
    (width i raw : ℕ) (bs : List Bool) (r : BitReader) (rest : List Bool)
    → i + length bs ≤ width
    → raw < 2 ^ i
    → IsValid r
    → remaining r ≡ bs ++ rest
    → Reads (read_lsb width (length bs) i raw r) (raw + from_bits bs * 2 ^ i) rest
unfolding read_lsb from_bits
read_lsb-Reads width i raw [] r rest fits hr h e =
    (r, ap (λ (n : ℕ). ok (n, r)) (omega arith), h, e)
read_lsb-Reads width i raw (b ∷ bs) r rest fits hr h e =
    let (r', got, h', e') = read_bit-Reads r b (bs ++ rest) h e in
    let raw' : ℕ = raw + bit_value b * 2 ^ i in
    let twice : 2 ^ (i + 1) ≡ 2 * 2 ^ i = rw add-one (omega (arith, pow-suc 2 i)) in
    let below : raw' < 2 ^ (i + 1) = omega (arith, twice, bit-le b i) in
    let (r'', done, h'', e'') =
      read_lsb-Reads width (i + 1) raw' bs r' rest (omega arith) below h' e' in
    let value : raw' + from_bits bs * 2 ^ (i + 1) ≡ raw + (bit_value b + 2 * from_bits bs) * 2 ^ i =
      omega (arith, ap (λ (t : ℕ). from_bits bs * t) twice) in
    (
      r'',
      rw (got, or_bit-ok width b i raw (omega arith) hr) (done ∙ ap (λ (n : ℕ). ok (n, r'')) value),
      h'',
      e'',
    )

-- From no bits read, the loop over the bits of a number gives the number.
pub read_lsb_value :
    (width n v : ℕ) (r : BitReader) (rest : List Bool)
    → n ≤ width
    → v < 2 ^ n
    → IsValid r
    → remaining r ≡ to_bits n v ++ rest
    → Reads (read_lsb width n 0 0 r) v rest
read_lsb_value width n v r rest fits hv h e =
    let count : length (to_bits n v) ≡ n = length-to_bits n v in
    let value : 0 + from_bits (to_bits n v) * 2 ^ 0 ≡ v = omega (arith, from_bits-to_bits n v hv) in
    subst (λ (k : ℕ). Reads (read_lsb width k 0 0 r) v rest) count
      (subst (λ (u : ℕ). Reads (read_lsb width (length (to_bits n v)) 0 0 r) u rest) value
        (read_lsb-Reads width 0 0 (to_bits n v) r rest (omega arith) (omega arith) h e))

-- `read_byte` gives the next eight bits as a byte.
pub read_byte-Reads :
    (n : ℕ) (r : BitReader) (rest : List Bool)
    → IsByte n
    → IsValid r
    → remaining r ≡ to_bits 8 n ++ rest
    → Reads (read_byte r) n rest
unfolding read_byte
read_byte-Reads n r rest hn h e =
    let slow : leb 8 r.scratch_bits ≡ false = ground (arith, h.low) in
    rw slow (read_lsb_value 8 8 n r rest (omega arith) hn h e)
