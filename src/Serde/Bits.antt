-- ===== src/Serde/Bits.antt =====
-- Numbers as lists of bits, the lowest first, as BitWriter puts them on the wire.
use native.Mathlib.Nat.{pow-suc, pow-le-pow_right, one-le-pow, div-add-mod, mod-lt}
use naia.Base.{
  ℕ, zero, suc, ◌+◌, ◌*◌, ◌/◌, ◌%◌, ◌^◌, ◌<◌, ◌≤◌, ◌≡◌, refl, ap, ◌∙◌, Bool, true, false, List, [],
  ◌∷◌, ◌++◌, arith, ◌==◌, length, append_assoc,
}
use naia.Base.Bits.{mul-pow-suc}

-- `bit as u32`
abbrev pub bit_value : Bool → ℕ
bit_value true = 1
bit_value false = 0

unfoldable pub to_bits : ℕ → ℕ → List Bool
to_bits zero n = []
to_bits (suc w) n = (n % 2 == 1) ∷ to_bits w (n / 2)

unfoldable pub from_bits : List Bool → ℕ
from_bits [] = 0
from_bits (b ∷ bs) = bit_value b + 2 * from_bits bs

abbrev pub IsByte : ℕ → Type 0
IsByte b = b < 256

-- The bits of a list of bytes.
unfoldable pub byte_bits : List ℕ → List Bool
byte_bits [] = []
byte_bits (b ∷ bs) = to_bits 8 b ++ byte_bits bs

pub length-to_bits : (w n : ℕ) → length (to_bits w n) ≡ w
unfolding to_bits
length-to_bits zero n = refl
length-to_bits (suc w) n = ap suc (length-to_bits w (n / 2))

pub from_bits-lt : (bs : List Bool) → from_bits bs < 2 ^ length bs
unfolding from_bits
from_bits-lt [] = omega arith
from_bits-lt (true ∷ bs) = omega (arith, from_bits-lt bs, pow-suc 2 (length bs))
from_bits-lt (false ∷ bs) = omega (arith, from_bits-lt bs, pow-suc 2 (length bs))

pub from_bits-to_bits : (w n : ℕ) → n < 2 ^ w → from_bits (to_bits w n) ≡ n
unfolding from_bits to_bits
from_bits-to_bits zero n h = omega arith
from_bits-to_bits (suc w) n h =
    ground (arith, from_bits-to_bits w (n / 2) (omega (arith, pow-suc 2 w)))

pub to_bits-from_bits : (bs : List Bool) → to_bits (length bs) (from_bits bs) ≡ bs
unfolding from_bits to_bits
to_bits-from_bits [] = refl
to_bits-from_bits (true ∷ bs) = ground (arith, to_bits-from_bits bs)
to_bits-from_bits (false ∷ bs) = ground (arith, to_bits-from_bits bs)

pub from_bits-append :
    (xs ys : List Bool) → from_bits (xs ++ ys) ≡ from_bits xs + from_bits ys * 2 ^ length xs
unfolding from_bits
from_bits-append [] ys = omega arith
from_bits-append (x ∷ xs) ys =
    omega (arith, from_bits-append xs ys, ap (λ (t : ℕ). from_bits ys * t) (pow-suc 2 (length xs)))

-- The low `w` bits and the next `v` bits.
pub to_bits-append :
    (w v r q : ℕ) → r < 2 ^ w → to_bits (w + v) (r + q * 2 ^ w) ≡ to_bits w r ++ to_bits v q
unfolding to_bits
to_bits-append zero v r q h =
    let e : 0 + v ≡ v = omega arith in let n : r + q * 2 ^ 0 ≡ q = omega arith in rw (e, n)
to_bits-append (suc w) v r q h =
    let e : suc w + v ≡ suc (w + v) = omega arith in
    let low : (r + q * 2 ^ suc w) % 2 ≡ r % 2 = omega (arith, mul-pow-suc q w) in
    let high : (r + q * 2 ^ suc w) / 2 ≡ r / 2 + q * 2 ^ w = omega (arith, mul-pow-suc q w) in
    rw (e, to_bits, low, high, to_bits-append w v (r / 2) q (omega (arith, pow-suc 2 w)))

pub pow-lt : (s n : ℕ) → s < n → 2 * 2 ^ s ≤ 2 ^ n
pow-lt s n h =
    omega (arith, pow-le-pow_right {n = 2} (omega arith) {i = suc s} {j = n} h, pow-suc 2 s)

pub byte_bits-append : (xs ys : List ℕ) → byte_bits (xs ++ ys) ≡ byte_bits xs ++ byte_bits ys
unfolding byte_bits
byte_bits-append [] ys = refl
byte_bits-append (x ∷ xs) ys = simp (byte_bits-append xs ys, append_assoc)

pub to_bits-split : (w v n : ℕ) → to_bits (w + v) n ≡ to_bits w (n % 2 ^ w) ++ to_bits v (n / 2 ^ w)
to_bits-split w v n =
    let e : n ≡ n % 2 ^ w + n / 2 ^ w * 2 ^ w = omega (arith, div-add-mod n (2 ^ w)) in
    ap (to_bits (w + v)) e
    ∙ to_bits-append w v (n % 2 ^ w) (n / 2 ^ w) (mod-lt n (one-le-pow w 2 (omega arith)))
