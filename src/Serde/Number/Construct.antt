-- ===== src/Serde/Number/Construct.antt =====
-- What `SerdeNumberInner::new` accepts.
use naia.Base.{
  ℕ, suc, ◌^◌, ◌≤◌, ◌<◌, ◌≡◌, refl, sym, ap, ◌∙◌, ◌↔◌, Bool, true, false, not, ◌&&◌, arith, ltb,
  ◌==◌, if◌then◌else◌,
}
use naia.Base.Int.{ℤ, pos, negsuc, unsigned_abs, is_negative}
use naia.Base.Outcome.{ok, ◌>>=◌, >>=-eq-ok, guard-ok}
use naia.Serde.Number.{SerdeNumberInner, new, new_unchecked, check_range, check_low}
use naia.Serde.Number.Encode.{IsNumber}

-- A signed number may be anything, an unsigned one is not negative.
abbrev pub IsSignOk : Bool → ℤ → Type 0
IsSignOk signed value = signed ≡ false → is_negative value ≡ false

sign_test :
    (signed : Bool) (value : ℤ) → IsSignOk signed value → (not signed && is_negative value) ≡ false
sign_test true value h = refl
sign_test false value h = h refl

sign_test-IsSignOk :
    (signed : Bool) (value : ℤ) → (not signed && is_negative value) ≡ false → IsSignOk signed value
sign_test-IsSignOk true value h = λ e. cc
sign_test-IsSignOk false value h = λ e. h

check_low-ok :
    (bits n : ℕ) → bits < 127 → suc n < 2 ^ bits → check_low bits (negsuc n) ≡ ok (negsuc n)
unfolding check_low
check_low-ok bits n small h = ground (arith, small)

check_range-ok :
    (signed : Bool) (bits : ℕ) (value : ℤ)
    → bits < 127
    → unsigned_abs value < 2 ^ bits
    → check_range signed bits value ≡ ok value
unfolding check_range
check_range-ok signed bits (pos n) small h = ground arith
check_range-ok signed bits (negsuc n) small h = ground (arith, check_low-ok bits n small h)

check_range-lt :
    (signed : Bool) (bits : ℕ) (value v : ℤ)
    → (signed ≡ false → is_negative value ≡ false)
    → check_range signed bits value ≡ ok v
    → (bits < 127) × (unsigned_abs value < 2 ^ bits) × (value ≡ v)
unfolding check_range check_low
check_range-lt true bits (pos n) v s h = ground arith
check_range-lt false bits (pos n) v s h = ground arith
check_range-lt true bits (negsuc n) v s h = ground arith
check_range-lt false bits (negsuc n) v s h = cc (s refl)

-- The formats and values that `new` takes.
pub record IsAccepted (signed variable : Bool) (bits : ℕ) (value : ℤ) : Type 0 where
  pub some_bits : 0 < bits
  pub few_bits : bits ≤ 127
  pub sign : IsSignOk signed value
  pub range : variable ≡ false → (bits < 127) × (unsigned_abs value < 2 ^ bits)

accepted-ok :
    (signed variable : Bool) (bits fraction_digits : ℕ) (value : ℤ)
    → IsAccepted signed variable bits value
    → new signed variable bits fraction_digits value
      ≡ ok (new_unchecked signed variable bits fraction_digits value)
unfolding new
accepted-ok signed true bits fraction_digits value h =
    let zero_bits : (bits == 0) ≡ false = ground (arith, h.some_bits) in
    let many_bits : ltb 127 bits ≡ false = ground (arith, h.few_bits) in
    rw (zero_bits, many_bits, sign_test signed value h.sign)
accepted-ok signed false bits fraction_digits value h =
    let zero_bits : (bits == 0) ≡ false = ground (arith, h.some_bits) in
    let many_bits : ltb 127 bits ≡ false = ground (arith, h.few_bits) in
    let (small, range) = h.range refl in
    let checked = check_range-ok signed bits value small range in
    rw (zero_bits, many_bits, sign_test signed value h.sign, checked)

within_range :
    (signed variable : Bool) (bits fraction_digits : ℕ) (value : ℤ) (n : SerdeNumberInner)
    → IsSignOk signed value
    → (if variable
        then ok (new_unchecked signed variable bits fraction_digits value)
        else (check_range signed bits value >>= λ v.
            ok (new_unchecked signed variable bits fraction_digits v)))
      ≡ ok n
    → (variable ≡ false → (bits < 127) × (unsigned_abs value < 2 ^ bits))
      × (n ≡ new_unchecked signed variable bits fraction_digits value)
within_range signed true bits fraction_digits value n s e = (λ f. cc, cc)
within_range signed false bits fraction_digits value n s e =
    let (v, checked, built) = >>=-eq-ok (check_range signed bits value) _ e in
    let (small, range, same) = check_range-lt signed bits value v s checked in
    (λ f. (small, range), cc)

ok-IsAccepted :
    (signed variable : Bool) (bits fraction_digits : ℕ) (value : ℤ) (n : SerdeNumberInner)
    → new signed variable bits fraction_digits value ≡ ok n
    → IsAccepted signed variable bits value
      × (n ≡ new_unchecked signed variable bits fraction_digits value)
unfolding new
ok-IsAccepted signed variable bits fraction_digits value n e =
    let (some_bits, e1) = guard-ok (bits == 0) _ e in
    let (few_bits, e2) = guard-ok (ltb 127 bits) _ e1 in
    let (sign, e3) = guard-ok (not signed && is_negative value) _ e2 in
    let sign_ok = sign_test-IsSignOk signed value sign in
    let (range, built) = within_range signed variable bits fraction_digits value n sign_ok e3 in
    (
      record {
        some_bits = ground (arith, some_bits);
        few_bits = ground (arith, few_bits);
        sign = sign_ok;
        range = range;
      },
      built,
    )

-- `new` takes a value exactly if its format has 1 to 127 bits, an unsigned value is not negative,
-- and a value of fixed width has less than 127 bits and a magnitude below 2^bits; the number that
-- it returns has this format and this value.
pub new_iff :
    (signed variable : Bool) (bits fraction_digits : ℕ) (value : ℤ) (n : SerdeNumberInner)
    → (new signed variable bits fraction_digits value ≡ ok n) ↔ (
        IsAccepted signed variable bits value
        × (n ≡ new_unchecked signed variable bits fraction_digits value))
new_iff signed variable bits fraction_digits value n = (
  λ e. ok-IsAccepted signed variable bits fraction_digits value n e,
  λ h. accepted-ok signed variable bits fraction_digits value h.0 ∙ ap ok (sym h.1),
)

-- An accepted value whose magnitude is below 2^127 makes a number that is read back.
pub accepted-IsNumber :
    (signed variable : Bool) (bits fraction_digits : ℕ) (value : ℤ)
    → IsAccepted signed variable bits value
    → unsigned_abs value < 2 ^ 127
    → IsNumber (new_unchecked signed variable bits fraction_digits value)
unfolding new_unchecked
accepted-IsNumber signed variable bits fraction_digits value h small = record {
  some_bits = h.some_bits;
  sign = h.sign;
  small = small;
  fits = λ f. (h.range f).1;
}
