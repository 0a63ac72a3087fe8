-- ===== src/Base/Bits.antt =====
-- `|` of disjoint fields and `&` with low masks as arithmetic, from the recursion on digits that the
-- native operations stand for.
use Prim.Native.Nat.{
  ℕ, zero, suc, ◌+◌, ◌*◌, ◌/◌, ◌%◌, ◌^◌, ◌≤◌, ◌-◌, ◌<◌, min, max, digits, bitwise, bit_and, bit_or,
  bit_and-bitwise, bit_or-bitwise,
}
use mathlib.Core.Path.{◌≡◌, refl, ap, ◌∙◌}
use native.Mathlib.Nat.{pow-suc, one-le-pow, pow-le-pow_right, mul-le-mul_right, div-add-mod}
use native.Mathlib.Omega.{arith}
use native.Mathlib.Decide.{dec_lt}

module _ (rest : ℕ → ℕ) (op : ℕ → ℕ → ℕ) where
  more_fuel : (n a b : ℕ) → a ≤ n → digits rest op (suc n) a b ≡ digits rest op n a b
  more_fuel zero zero b le = refl
  more_fuel (suc n) zero b le = refl
  more_fuel zero (suc a) b le = absurd (omega arith)
  more_fuel (suc n) (suc a) b le = rw (more_fuel n (suc a / 2) (b / 2) (omega arith))

  spare_fuel : (spare a b : ℕ) → digits rest op (spare + a) a b ≡ bitwise rest op a b
  spare_fuel zero a b = ap (λ (n : ℕ). digits rest op n a b) (omega arith)
  spare_fuel (suc spare) a b =
      let e : suc spare + a ≡ suc (spare + a) = omega arith in
      rw e (more_fuel (spare + a) a b (omega arith) ∙ spare_fuel spare a b)

  lowest_digit :
      (a b : ℕ)
      → bitwise rest op (suc a) b ≡ op (suc a % 2) (b % 2) + 2 * bitwise rest op (suc a / 2) (b / 2)
  lowest_digit a b =
      let spare : ℕ = a - suc a / 2 in
      let fuel : spare + suc a / 2 ≡ a = omega arith in
      let q = rw fuel at (spare_fuel spare (suc a / 2) (b / 2)) in omega (arith, q)

pub bit_or-lowest : (a b : ℕ) → bit_or a b ≡ max (a % 2) (b % 2) + 2 * bit_or (a / 2) (b / 2)
bit_or-lowest (suc a) b = simp bit_or-bitwise (lowest_digit (λ n. n) max a b)
bit_or-lowest zero b = simp bit_or-bitwise (omega arith)

pub bit_and-lowest : (a b : ℕ) → bit_and a b ≡ min (a % 2) (b % 2) + 2 * bit_and (a / 2) (b / 2)
bit_and-lowest (suc a) b = simp bit_and-bitwise (lowest_digit (λ n. 0) min a b)
bit_and-lowest zero b = simp bit_and-bitwise (omega arith)

zero-bit_or : (b : ℕ) → bit_or 0 b ≡ b
zero-bit_or b = bit_or-bitwise 0 b

zero_below : (bound a : ℕ) → a < bound → bit_and a 0 ≡ 0
zero_below zero a h = elim h [ ]
zero_below (suc bound) zero h = refl
zero_below (suc bound) (suc a) h =
    omega (arith, bit_and-lowest (suc a) 0, zero_below bound (suc a / 2) (omega arith))

pub bit_and-zero : (a : ℕ) → bit_and a 0 ≡ 0
bit_and-zero a = zero_below (suc a) a (omega arith)

pub mul-pow-suc : (q k : ℕ) → q * 2 ^ suc k ≡ 2 * (q * 2 ^ k)
mul-pow-suc q k = omega (arith, ap (λ (t : ℕ). q * t) (pow-suc 2 k))

-- `r | (q << k)` is a sum when `r` fits `k` bits.
pub bit_or_shifted : (k q r : ℕ) → r < 2 ^ k → bit_or r (q * 2 ^ k) ≡ r + q * 2 ^ k
bit_or_shifted zero q r fits = ground (arith, zero-bit_or (q * 2 ^ 0))
bit_or_shifted (suc k) q r fits = ground (
  arith,
  bit_or-lowest r (q * 2 ^ suc k),
  mul-pow-suc q k,
  bit_or_shifted k q (r / 2) (omega arith),
)

pub bit_and-one : (a : ℕ) → bit_and a 1 ≡ a % 2
bit_and-one a = omega (arith, bit_and-lowest a 1, bit_and-zero (a / 2))

bit_and_fields : (k q r : ℕ) → r < 2 ^ k → bit_and (q * 2 ^ k + r) (2 ^ k - 1) ≡ r
bit_and_fields zero q r fits = rw bit_and-zero (omega arith)
bit_and_fields (suc k) q r fits = ground (
  arith,
  bit_and-lowest (q * 2 ^ suc k + r) (2 ^ suc k - 1),
  mul-pow-suc q k,
  pow-suc 2 k,
  bit_and_fields k q (r / 2) (omega arith),
)

-- A mask of `k` ones is the remainder by `2 ^ k`.
pub bit_and_mask : (k a : ℕ) → bit_and a (2 ^ k - 1) ≡ a % 2 ^ k
bit_and_mask k a = ground (arith, one-le-pow k 2, bit_and_fields k (a / 2 ^ k) (a % 2 ^ k))

pub pow_add : (n k : ℕ) → 2 ^ (n + k) ≡ 2 ^ n * 2 ^ k
pow_add zero k = let e : zero + k ≡ k = omega arith in rw e (omega arith)
pow_add (suc n) k =
    let e : suc n + k ≡ suc (n + k) = omega arith in
    rw e (omega (arith, pow-suc 2 (n + k), pow_add n k, ap (λ (t : ℕ). t * 2 ^ k) (pow-suc 2 n)))

-- A value of `n` bits shifted by `k` stays below `2 ^ m`, where the two fit `m` bits.
pub shifted-lt : (v k n m : ℕ) → v < 2 ^ n → n + k ≤ m → v * 2 ^ k < 2 ^ m
shifted-lt v k n m h le =
    let wide : 2 ^ (n + k) ≤ 2 ^ m = pow-le-pow_right {n = 2} (omega arith) le in
    let step : suc v * 2 ^ k ≤ 2 ^ n * 2 ^ k = mul-le-mul_right (2 ^ k) h in
    omega (arith, wide, step, pow_add n k, one-le-pow k 2 (omega arith))

pub div-pow-lt : (k m n : ℕ) → n < 2 ^ (m + k) → n / 2 ^ k < 2 ^ m
div-pow-lt k m n h = elim (dec_lt (n / 2 ^ k) (2 ^ m)) [
  | yes lt ↦ lt
  | no ge ↦
      let le : 2 ^ m * 2 ^ k ≤ n / 2 ^ k * 2 ^ k = mul-le-mul_right (2 ^ k) (omega arith) in
      absurd (omega (arith, le, pow_add m k, div-add-mod n (2 ^ k)))
]

same_below : (bound a : ℕ) → a < bound → bit_or a 0 ≡ a
same_below zero a h = elim h [ ]
same_below (suc bound) zero h = refl
same_below (suc bound) (suc a) h =
    omega (arith, bit_or-lowest (suc a) 0, same_below bound (suc a / 2) (omega arith))

pub bit_or-zero : (a : ℕ) → bit_or a 0 ≡ a
bit_or-zero a = same_below (suc a) a (omega arith)

pub bit_or-double : (a : ℕ) → bit_or (a * 2) 1 ≡ a * 2 + 1
bit_or-double a =
    let e : a * 2 / 2 ≡ a = omega arith in
    bit_or-lowest (a * 2) 1 ∙ rw e (omega (arith, bit_or-zero a))

-- A field of `n` bits above one of `k` bits fits `k + n` bits.
pub fields-lt : (s k v n : ℕ) → s < 2 ^ k → v < 2 ^ n → s + v * 2 ^ k < 2 ^ (k + n)
fields-lt s k v n hs hv =
    let step : suc v * 2 ^ k ≤ 2 ^ n * 2 ^ k = mul-le-mul_right (2 ^ k) hv in
    let e : k + n ≡ n + k = omega arith in rw e (omega (arith, hs, step, pow_add n k))
