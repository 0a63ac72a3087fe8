-- ===== src/Serde/Number/Wide.antt =====
-- The decoder of widths above 64: bits are read with the highest first and reversed at the end.
use naia.Base.{
  ℕ, zero, suc, ◌+◌, ◌-◌, ◌*◌, ◌%◌, ◌^◌, ◌≤◌, ◌<◌, bit_or, ◌≡◌, refl, ap, ◌∙◌, Bool, true, false,
  List, [], ◌∷◌, ◌++◌, arith, if◌then◌else◌, length, ap₂,
}
use mathlib.Core.List.{reverse, reverse-append, reverse-cons, reverse-reverse}
use native.Mathlib.Numerals.{add-one}
use naia.Base.{length-reverse}
use naia.Base.Outcome.{ok}
use naia.Serde.Bits.{
  to_bits, from_bits, bit_value, from_bits-append, from_bits-lt, to_bits-append, to_bits-from_bits,
}
use naia.Serde.Reader.{BitReader}
use naia.Serde.Reader.Remaining.{IsValid, remaining, Reads, read_bit-Reads}
use naia.Serde.Number.{read_msb, de_wide, reverse_bits}
use naia.Base.Bits.{bit_or-double, shifted-lt}
use native.Mathlib.Nat.{mod-eq_of_lt, pow-suc, pow-le-pow_right, one-le-pow}

push_low :
    (b : Bool) (raw : ℕ)
    → raw * 2 < 2 ^ 128
    → (if b then bit_or (raw * 2 % 2 ^ 128) 1 else raw * 2 % 2 ^ 128) ≡ raw * 2 + bit_value b
push_low b raw h = rw (mod-eq_of_lt h) (go b)
  where
    go : (b : Bool) → (if b then bit_or (raw * 2) 1 else raw * 2) ≡ raw * 2 + bit_value b
    go true = bit_or-double raw
    go false = omega arith

one_bit : (b : Bool) → from_bits (b ∷ []) ≡ bit_value b
unfolding from_bits
one_bit b = omega arith

read_msb-Reads :
    (k raw : ℕ) (bs : List Bool) (r : BitReader) (rest : List Bool)
    → k + length bs ≤ 128
    → raw < 2 ^ k
    → IsValid r
    → remaining r ≡ bs ++ rest
    → Reads (read_msb (length bs) raw r) (raw * 2 ^ length bs + from_bits (reverse bs)) rest
unfolding read_msb from_bits
read_msb-Reads k raw [] r rest fits hr h e = (r, ap (λ (n : ℕ). ok (n, r)) (omega arith), h, e)
read_msb-Reads k raw (b ∷ bs) r rest fits hr h e =
    let (r', got, h', e') = read_bit-Reads r b (bs ++ rest) h e in
    let raw' : ℕ = raw * 2 + bit_value b in
    let twice : 2 ^ (k + 1) ≡ 2 * 2 ^ k = rw add-one (omega (arith, pow-suc 2 k)) in
    let below : raw' < 2 ^ (k + 1) = ground (arith, twice) in
    let le : 2 ^ (k + 1) ≤ 2 ^ 128 =
      pow-le-pow_right {n = 2} (omega arith) {i = k + 1} {j = 128} (omega arith) in
    let (r'', done, h'', e'') = read_msb-Reads (k + 1) raw' bs r' rest (omega arith) below h' e' in
    let flipped : from_bits (reverse (b ∷ bs))
        ≡ from_bits (reverse bs) + bit_value b * 2 ^ length bs =
      cc
        (reverse-cons b bs, from_bits-append (reverse bs) (b ∷ []), one_bit b, length-reverse bs) in
    let value : raw' * 2 ^ length bs + from_bits (reverse bs)
        ≡ raw * 2 ^ suc (length bs) + from_bits (reverse (b ∷ bs)) =
      omega (arith, flipped, ap (λ (t : ℕ). raw * t) (pow-suc 2 (length bs))) in
    (
      r'',
      rw (got, push_low b raw (omega arith)) (done ∙ ap (λ (n : ℕ). ok (n, r'')) value),
      h'',
      e'',
    )

from_bits-zeros : (k : ℕ) → from_bits (reverse (to_bits k 0)) ≡ 0
unfolding to_bits from_bits
from_bits-zeros zero = refl
from_bits-zeros (suc k) =
    rw (reverse-cons false (to_bits k 0), from_bits-append)
      (omega (arith, from_bits-zeros k, one_false))
  where
    one_false : from_bits (false ∷ []) ≡ 0
    one_false = one_bit false

-- Shifting to the top and reversing all 128 bits undoes the order of reading.
reversed_value :
    (bs : List Bool)
    → length bs ≤ 128
    → reverse_bits (from_bits (reverse bs) * 2 ^ (128 - length bs) % 2 ^ 128) ≡ from_bits bs
reversed_value bs fits =
    rw (mod-eq_of_lt in_range, all_bits, reverse-append, reverse-reverse, from_bits-append)
      (omega (arith, ap (λ (t : ℕ). t * 2 ^ length bs) (from_bits-zeros (128 - length bs))))
  where
    v : ℕ
    v = from_bits (reverse bs)

    k : ℕ
    k = 128 - length bs

    v-lt : v < 2 ^ length bs
    v-lt = rw (length-reverse bs) at (from_bits-lt (reverse bs))

    in_range : v * 2 ^ k < 2 ^ 128
    in_range = shifted-lt v k (length bs) 128 v-lt (omega arith)

    whole : 128 ≡ k + length bs
    whole = omega arith

    all_bits : to_bits 128 (v * 2 ^ k) ≡ to_bits k 0 ++ reverse bs
    all_bits =
        ap₂ to_bits whole (omega arith)
        ∙ to_bits-append k (length bs) 0 v (one-le-pow k 2 (omega arith))
        ∙ ap (◌++◌ (to_bits k 0)) (rw (length-reverse bs) at (to_bits-from_bits (reverse bs)))

-- Widths of up to 128 bits: the number read is the value of the bits.
pub de_wide-Reads :
    (bs : List Bool) (r : BitReader) (rest : List Bool)
    → length bs ≤ 128
    → IsValid r
    → remaining r ≡ bs ++ rest
    → Reads (de_wide (length bs) r) (from_bits bs) rest
unfolding de_wide
de_wide-Reads bs r rest fits h e =
    let (r', got, h', e') = read_msb-Reads 0 0 bs r rest (omega arith) (omega arith) h e in
    (
      r',
      rw got (
          ap (λ (n : ℕ). ok (n, r'))
            (ap (λ (n : ℕ). reverse_bits (n * 2 ^ (128 - length bs) % 2 ^ 128)) (omega arith)
              ∙ reversed_value bs fits)),
      h',
      e',
    )
