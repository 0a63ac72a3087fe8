-- ===== src/Serde/Number/Encode.antt =====
-- The bits that a number is written as, and that `ser` writes them.
use naia.Base.{
  ℕ, zero, suc, ◌+◌, ◌*◌, ◌/◌, ◌%◌, ◌^◌, ◌≤◌, ◌<◌, bit_and, ◌≡◌, refl, inl, inr, Bool, true, false,
  not, ◌&&◌, List, [], ◌∷◌, ◌++◌, arith, leb, ◌==◌, if◌then◌else◌, Bool-cases, leb→le,
}
use naia.Base.Int.{ℤ, pos, negsuc, as_u128, neg_i128, unsigned_abs, is_negative}
use naia.Base.Outcome.{ok, ◌>>=◌}
use naia.Serde.Bits.{to_bits}
use naia.Serde.Interface.{BitWrite, IsBitWrite, Emits, Emits-nil, Emits-bit, Emits-seq}
use naia.Serde.Number.{SerdeNumberInner, write_lsb, ser_chunks, ser_sign, magnitude, ser}
use naia.Base.Bits.{bit_and-one, div-pow-lt}
use native.Mathlib.Nat.{pow-le-pow_right}

-- Chunks of `bits` bits, the lowest first, each behind a bit that says whether another follows.
unfoldable pub chunk_bits : ℕ → ℕ → ℕ → List Bool
chunk_bits zero bits value = []
chunk_bits (suc fuel) bits value =
    let rest = chunk_bits fuel bits (value / 2 ^ bits) in
    leb (2 ^ bits) value ∷ (to_bits bits value ++ (if leb (2 ^ bits) value then rest else []))

abbrev pub sign_bits : SerdeNumberInner → List Bool
sign_bits n = if n.signed then is_negative n.inner_value ∷ [] else []

abbrev pub magnitude_bits : SerdeNumberInner → List Bool
magnitude_bits n =
    if n.variable
    then chunk_bits 128 n.bits (unsigned_abs n.inner_value)
    else to_bits n.bits (unsigned_abs n.inner_value)

-- What a number is on the wire.
unfoldable pub number_bits : SerdeNumberInner → List Bool
number_bits n = sign_bits n ++ magnitude_bits n

-- What `new` ensures of a number, except that a variable magnitude is below 2^127 by the type.
pub record IsNumber (n : SerdeNumberInner) : Type 0 where
  pub some_bits : 0 < n.bits
  pub sign : n.signed ≡ false → is_negative n.inner_value ≡ false
  pub small : unsigned_abs n.inner_value < 2 ^ 127
  pub fits : n.variable ≡ false → unsigned_abs n.inner_value < 2 ^ n.bits

magnitude-ok : (n : SerdeNumberInner) → IsNumber n → magnitude n ≡ ok (unsigned_abs n.inner_value)
unfolding magnitude
magnitude-ok n h = go n.inner_value n.signed h.sign h.small
  where
    go :
        (z : ℤ) (signed : Bool)
        → (signed ≡ false → is_negative z ≡ false)
        → unsigned_abs z < 2 ^ 127
        → (if signed && is_negative z then (neg_i128 z >>= λ m. ok (as_u128 m)) else ok (as_u128 z))
          ≡ ok (unsigned_abs z)
    go (pos n) true h lt = refl
    go (pos n) false h lt = refl
    go (negsuc n) true h lt = ground arith
    go (negsuc n) false h lt = cc (h refl)

pub one_round :
    (fuel bits value : ℕ) → value < 2 ^ (suc fuel * bits) → value < 2 ^ (fuel * bits + bits)
one_round fuel bits value h =
    let e : suc fuel * bits ≡ fuel * bits + bits = omega arith in rw e at h

-- A value with another chunk leaves fuel for it.
pub fuel_left : (fuel bits value : ℕ) → value < 2 ^ (suc fuel * bits) → 2 ^ bits ≤ value → 0 < fuel
fuel_left zero bits value h le =
    let e : 1 * bits ≡ bits = omega arith in
    let h' : value < 2 ^ bits = rw e at h in absurd (omega arith)
fuel_left (suc fuel) bits value h le = omega arith

-- An i128 magnitude has at most 128 chunks.
pub wide_enough : (bits value : ℕ) → 0 < bits → value < 2 ^ 127 → value < 2 ^ (128 * bits)
wide_enough bits value some_bits h =
    let le : 2 ^ 127 ≤ 2 ^ (128 * bits) =
      pow-le-pow_right {n = 2} (omega arith) {i = 127} {j = 128 * bits} (omega arith) in
    omega (arith, le)

module _ {W : Type 0} {o : BitWrite W} (l : IsBitWrite o) where
  write_lsb-Emits : (n value : ℕ) → Emits l (write_lsb o n value) (to_bits n value)
  unfolding write_lsb to_bits
  write_lsb-Emits zero value = Emits-nil l
  write_lsb-Emits (suc n) value =
      let low : not (bit_and value 1 == 0) ≡ (value % 2 == 1) = ground (arith, bit_and-one value) in
      rw low (
        Emits-seq l (o.write_bit (value % 2 == 1)) (write_lsb o n (value / 2)) _ _ (Emits-bit l _)
          (write_lsb-Emits n (value / 2)))

  ser_chunks-Emits :
      (fuel bits value : ℕ)
      → value < 2 ^ (fuel * bits)
      → 0 < fuel
      → Emits l (ser_chunks o fuel bits value) (chunk_bits fuel bits value)
  unfolding ser_chunks chunk_bits
  ser_chunks-Emits zero bits value h some_fuel = absurd (omega arith)
  ser_chunks-Emits (suc fuel) bits value h some_fuel = elim (Bool-cases (leb (2 ^ bits) value)) [
    | inl more ↦ rw more (
        Emits-seq l (o.write_bit true) _ (true ∷ []) _ (Emits-bit l true) (
          Emits-seq l (write_lsb o bits value) _ _ _ (write_lsb-Emits bits value) (
            ser_chunks-Emits fuel bits (value / 2 ^ bits)
              (div-pow-lt bits (fuel * bits) value (one_round fuel bits value h))
              (fuel_left fuel bits value h (leb→le _ _ more)))))
    | inr last ↦ rw last (
        Emits-seq l (o.write_bit false) _ (false ∷ []) _ (Emits-bit l false)
          (Emits-seq l (write_lsb o bits value) ok _ [] (write_lsb-Emits bits value) (Emits-nil l)))
  ]

  ser_sign-Emits : (n : SerdeNumberInner) → Emits l (ser_sign o n) (sign_bits n)
  unfolding ser_sign
  ser_sign-Emits n = elim (Bool-cases n.signed) [
    | inl s ↦ rw s (Emits-bit l (is_negative n.inner_value))
    | inr u ↦ rw u (Emits-nil l)
  ]

  ser_rest-Emits :
      (n : SerdeNumberInner)
      → IsNumber n
      → Emits l
          (λ w.
            if n.variable
            then ser_chunks o 128 n.bits (unsigned_abs n.inner_value) w
            else write_lsb o n.bits (unsigned_abs n.inner_value) w)
          (magnitude_bits n)
  ser_rest-Emits n h = elim (Bool-cases n.variable) [
    | inl v ↦ rw v (
        ser_chunks-Emits 128 n.bits (unsigned_abs n.inner_value)
          (wide_enough n.bits (unsigned_abs n.inner_value) h.some_bits h.small) (omega arith))
    | inr f ↦ rw f (write_lsb-Emits n.bits (unsigned_abs n.inner_value))
  ]

  pub ser-Emits : (n : SerdeNumberInner) → IsNumber n → Emits l (ser o n) (number_bits n)
  unfolding ser number_bits
  ser-Emits n h = rw (magnitude-ok n h) (
      Emits-seq l (ser_sign o n) _ (sign_bits n) (magnitude_bits n) (ser_sign-Emits n)
        (ser_rest-Emits n h))
