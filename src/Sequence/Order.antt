-- ===== src/Sequence/Order.antt =====
-- shared/src/wrapping_number.rs: what the wrapping comparisons and the wrapping difference mean.
use naia.Base.{ℕ, ◌+◌, ◌-◌, ◌%◌, ◌<◌, ◌≡◌, ◌≢◌, ◌⊎◌, ◌↔◌, true, false, ltb, arith, if◌then◌else◌}
use naia.Base.Int.{ℤ, pos, negsuc, ◌≤ℤ◌}
use naia.Base.Outcome.{ok}
use naia.Sequence.{IsU16, wrapping_add, sequence_greater_than, sequence_less_than, wrapping_diff}

-- The distance from `base` up to `s`, going round.
abbrev pub offset : ℕ → ℕ → ℕ
offset base s = (s + 65536 - base) % 65536

-- Of two u16 sequence numbers exactly one of equal, greater and less holds, also where they are
-- exactly half the range apart: there the one that is greater as a plain number is the greater.
pub sequence_trichotomy :
    (a b : ℕ)
    → IsU16 a
    → IsU16 b
    → (((a ≡ b) × (sequence_greater_than a b ≡ false) × (sequence_less_than a b ≡ false))
        ⊎ ((a ≢ b) × (sequence_greater_than a b ≡ true) × (sequence_less_than a b ≡ false))
        ⊎ ((a ≢ b) × (sequence_greater_than a b ≡ false) × (sequence_less_than a b ≡ true)))
      × (offset b a ≡ 32768 → sequence_greater_than a b ≡ ltb b a)
unfolding sequence_greater_than sequence_less_than
sequence_trichotomy a b ha hb = (ground arith, λ half. ground arith)

-- Within half the range above any `base`, the comparison is that of the distances from `base`.
pub greater-offset :
    (base a b : ℕ)
    → IsU16 base
    → IsU16 a
    → IsU16 b
    → offset base a < 32768
    → offset base b < 32768
    → (sequence_greater_than a b ≡ true) ↔ (offset base b < offset base a)
unfolding sequence_greater_than
greater-offset base a b hs ha hb wa wb = ground arith

pub greater-wrapping_add :
    (s k : ℕ) → IsU16 s → 0 < k → k < 32768 → sequence_greater_than (wrapping_add s k) s ≡ true
unfolding sequence_greater_than
greater-wrapping_add s k hs h0 hk = ground arith

-- The distance from `a` to `b` read as a two's complement i16.
abbrev pub signed_distance : ℕ → ℕ → ℤ
signed_distance a b = let o = offset a b in if ltb o 32768 then pos o else negsuc (65536 - o - 1)

-- For all u16 `a` and `b`, `wrapping_diff` does not panic and returns the distance from `a` to `b`
-- as a two's complement i16.
pub wrapping_diff-signed_distance :
    (a b : ℕ) → IsU16 a → IsU16 b → wrapping_diff a b ≡ ok (signed_distance a b)
unfolding wrapping_diff
wrapping_diff-signed_distance a b ha hb = ground arith

-- Away from the antipode, `a` is greater than `b` exactly if the wrapping difference from `b` to
-- `a` is positive.
pub greater-wrapping_diff :
    (a b : ℕ) (d : ℤ)
    → IsU16 a
    → IsU16 b
    → wrapping_diff b a ≡ ok d
    → d ≢ negsuc 32767
    → (sequence_greater_than a b ≡ true) ↔ (pos 1 ≤ℤ d)
unfolding wrapping_diff sequence_greater_than
greater-wrapping_diff a b d ha hb e h = ground arith

-- Numbers that lie less than half the range apart compare as their wrapped forms do.
pub greater-unwrapped :
    (a b : ℕ)
    → a < b + 32768
    → b < a + 32768
    → sequence_greater_than (a % 65536) (b % 65536) ≡ ltb b a
unfolding sequence_greater_than
greater-unwrapped a b near_a near_b = ground arith
