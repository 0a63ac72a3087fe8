-- ===== src/Serde/Number/RoundTrip.antt =====
-- The wire format of a number is read back, and `bit_length` against what is written.
use naia.Base.{
  ℕ, zero, suc, ◌+◌, ◌*◌, ◌/◌, ◌^◌, ◌≤◌, ◌<◌, ◌≡◌, refl, sym, ap, ◌∙◌, inl, inr, Bool, true, List,
  [], ◌∷◌, ◌++◌, append_assoc, arith, if◌then◌else◌, length, drop, length-append, Bool-cases,
  length-drop,
}
use naia.Base.Int.{ℤ, pos, negsuc, as_i128, unsigned_abs, is_negative}
use naia.Base.Outcome.{ok}
use naia.Serde.Bits.{to_bits, byte_bits, length-to_bits}
use naia.Serde.Reader.{BitReader}
use naia.Serde.Reader.Remaining.{IsValid, remaining, Reads, read_bit-Reads}
use naia.Serde.Counter
use naia.Serde.Counter.{
  BitCounter, bits_needed, bit_counter, bit_counter-IsBitWrite, emitted-counted,
}
use naia.Serde.Number.{
  SerdeNumberInner, ser, de, de_magnitude, de_sign, bit_length, rounds, apply_sign, count_chunks,
  de_chunks,
}
use naia.Serde.Number.Encode.{
  IsNumber, number_bits, sign_bits, magnitude_bits, chunk_bits, wide_enough, ser-Emits,
}
use naia.Serde.Number.Decode.{de_chunks-Reads, fixed-Reads}
use mathlib.Core.Path.{subst}

length-byte_bits : (bs : List ℕ) → length (byte_bits bs) ≡ 8 * length bs
unfolding byte_bits
length-byte_bits [] = refl
length-byte_bits (b ∷ bs) =
    omega
      (arith, length-append (to_bits 8 b) (byte_bits bs), length-to_bits 8 b, length-byte_bits bs)

remaining-lt-rounds : (r : BitReader) → IsValid r → length (remaining r) < rounds r
unfolding remaining
remaining-lt-rounds r h = omega (
  arith,
  h.low,
  length-append (to_bits r.scratch_bits r.scratch) (byte_bits (drop r.buffer_index r.buffer)),
  length-to_bits r.scratch_bits r.scratch,
  length-byte_bits (drop r.buffer_index r.buffer),
  length-drop r.buffer_index r.buffer,
)

-- The formats whose decoder reads what the encoder wrote: chunks are at most 32 bits wide.
abbrev pub IsReadable : SerdeNumberInner → Type 0
IsReadable n = (n.bits ≤ 127) × (n.variable ≡ true → n.bits ≤ 32)

magnitude-Reads :
    (n : SerdeNumberInner) (r : BitReader) (rest : List Bool)
    → IsNumber n
    → IsReadable n
    → IsValid r
    → remaining r ≡ magnitude_bits n ++ rest
    → Reads (de_magnitude n.variable n.bits r) (unsigned_abs n.inner_value) rest
unfolding de_magnitude
magnitude-Reads n r rest hn (h127, h32) h e = elim (Bool-cases n.variable) [
  | inl v ↦
      let e1 : remaining r ≡ chunk_bits 128 n.bits (unsigned_abs n.inner_value) ++ rest =
        rw v at e in
      let value : 0 + unsigned_abs n.inner_value * 2 ^ 0 ≡ unsigned_abs n.inner_value =
        omega arith in
      rw v (
        subst (λ (x : ℕ). Reads (de_chunks (rounds r) n.bits 0 0 r) x rest) value
          (de_chunks-Reads 128 (rounds r) n.bits (unsigned_abs n.inner_value) 0 0 r rest
            hn.some_bits (h32 v) (omega arith) (wide_enough n.bits _ hn.some_bits hn.small)
            (rw (← e1) (remaining-lt-rounds r h)) (omega arith) (omega arith)
            (omega (arith, hn.small)) h e1))
  | inr f ↦ rw f (
      fixed-Reads n.bits (unsigned_abs n.inner_value) r rest (omega arith) (hn.fits f) h
        (rw f at e))
]

sign-Reads :
    (n : SerdeNumberInner) (r : BitReader) (rest : List Bool)
    → IsNumber n
    → IsValid r
    → remaining r ≡ sign_bits n ++ rest
    → Reads (de_sign n.signed r) (is_negative n.inner_value) rest
unfolding de_sign
sign-Reads n r rest hn h e = elim (Bool-cases n.signed) [
  | inl s ↦ rw s (read_bit-Reads r (is_negative n.inner_value) rest h (rw s at e))
  | inr u ↦ rw (u, hn.sign u) (r, refl, h, rw u at e)
]

apply_sign-ok :
    (z : ℤ)
    → unsigned_abs z < 2 ^ 127
    → apply_sign (is_negative z) (as_i128 (unsigned_abs z)) ≡ ok z
apply_sign-ok (pos n) h = ground arith
apply_sign-ok (negsuc n) h = ground arith

-- For every number that `new` accepts (with a magnitude below 2^127), of at most 127 bits and of
-- at most 32 bits a chunk when it is variable: from a reader whose remaining bits begin with the
-- number's bits, `de` with the number's format returns the number and leaves the bits behind it.
pub number_round_trip :
    (n : SerdeNumberInner) (r : BitReader) (rest : List Bool)
    → IsNumber n
    → IsReadable n
    → IsValid r
    → remaining r ≡ number_bits n ++ rest
    → Reads (de n.signed n.variable n.bits n.fraction_digits r) n rest
unfolding de number_bits
number_round_trip n r rest hn hr h e =
    let (r1, s1, h1, e1) =
      sign-Reads n r (magnitude_bits n ++ rest) hn h
        (e ∙ append_assoc (sign_bits n) (magnitude_bits n) rest) in
    let (r2, s2, h2, e2) = magnitude-Reads n r1 rest hn hr h1 e1 in
    (r2, rw (s1, s2, apply_sign-ok n.inner_value hn.small), h2, e2)

count_chunks-length :
    (fuel bits value output : ℕ)
    → count_chunks fuel bits value output ≡ output + length (chunk_bits fuel bits value)
unfolding count_chunks chunk_bits
count_chunks-length zero bits value output = omega arith
count_chunks-length (suc fuel) bits value output = ground (
  arith,
  count_chunks-length fuel bits (value / 2 ^ bits) (output + 1 + bits),
  length-append (to_bits bits value) (chunk_bits fuel bits (value / 2 ^ bits)),
  length-append {A = Bool} (to_bits bits value) [],
  length-to_bits bits value,
)

length-sign_bits : (n : SerdeNumberInner) → length (sign_bits n) ≡ (if n.signed then 1 else 0)
length-sign_bits n = elim (Bool-cases n.signed) [ inl s ↦ rw s | inr u ↦ rw u ]

-- `bit_length` counts the bits of the wire format.
pub length-number_bits : (n : SerdeNumberInner) → bit_length n ≡ length (number_bits n)
unfolding bit_length number_bits
length-number_bits n = elim (Bool-cases n.variable) [
  | inl v ↦ rw v (
      omega (
        arith,
        length-append (sign_bits n) (chunk_bits 128 n.bits m),
        length-sign_bits n,
        count_chunks-length 128 n.bits m (if n.signed then 1 else 0),
      ))
  | inr f ↦ rw f (
      omega (
        arith,
        length-append (sign_bits n) (to_bits n.bits m),
        length-sign_bits n,
        length-to_bits n.bits m,
      ))
]
  where
    m : ℕ
    m = unsigned_abs n.inner_value

-- For every number that `new` accepts (with a magnitude below 2^127), in every format: `ser` into a
-- BitCounter succeeds, and the bits that the counter then needs are those that `bit_length` says.
pub bit_length-counted :
    (n : SerdeNumberInner) (start max : ℕ)
    → IsNumber n
    → (c : BitCounter) × (ser bit_counter n (Counter.new start start max) ≡ ok c)
      × (bits_needed c ≡ ok (bit_length n))
bit_length-counted n start max h =
    let (c, written, needed, _) =
      emitted-counted (ser bit_counter n) (number_bits n) start max
        (ser-Emits bit_counter-IsBitWrite n h) in
    (c, written, needed ∙ ap ok (sym (length-number_bits n)))
