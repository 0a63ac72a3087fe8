-- ===== src/Sequence.antt =====
-- shared/src/wrapping_number.rs: 16-bit sequence numbers that wrap.
pub mod Order
use naia.Base.{ℕ, ◌+◌, ◌-◌, ◌%◌, ◌<◌, Bool, ◌&&◌, ◌||◌, ltb, leb, ◌==◌, if◌then◌else◌}
use naia.Base.Int.{ℤ, pos, negsuc, sub_ℕ, leb_ℤ}
use naia.Base.Outcome.{Outcome, ok, panic}

abbrev pub IsU16 : ℕ → Type 0
IsU16 n = n < 65536

-- u16::wrapping_add and u16::wrapping_sub.
abbrev pub wrapping_add : ℕ → ℕ → ℕ
wrapping_add a b = (a + b) % 65536

abbrev pub wrapping_sub : ℕ → ℕ → ℕ
wrapping_sub a b = (a + 65536 - b % 65536) % 65536

-- u8::wrapping_add.
abbrev pub wrapping_add_u8 : ℕ → ℕ → ℕ
wrapping_add_u8 a b = (a + b) % 256

unfoldable pub sequence_greater_than : ℕ → ℕ → Bool
sequence_greater_than s1 s2 =
    (ltb s2 s1 && leb (s1 - s2) 32768) || (ltb s1 s2 && ltb 32768 (s2 - s1))

unfoldable pub sequence_equal_or_greater_than : ℕ → ℕ → Bool
unfolding sequence_greater_than
sequence_equal_or_greater_than s1 s2 = s1 == s2 || sequence_greater_than s1 s2

unfoldable pub sequence_less_than : ℕ → ℕ → Bool
unfolding sequence_greater_than
sequence_less_than s1 s2 = sequence_greater_than s2 s1

unfoldable pub sequence_equal_or_less_than : ℕ → ℕ → Bool
unfolding sequence_less_than
sequence_equal_or_less_than s1 s2 = s1 == s2 || sequence_less_than s1 s2

abbrev in_i16 : ℤ → Bool
in_i16 r = leb_ℤ (negsuc 32767) r && leb_ℤ r (pos 32767)

-- The subtractions are over i32, where no value of two u16 overflows.
unfoldable pub wrapping_diff : ℕ → ℕ → Outcome ℤ
wrapping_diff a b =
    let result = sub_ℕ b a in
    if in_i16 result
    then ok result
    else if ltb a b
    then (let r = sub_ℕ b (a + 65536) in if in_i16 r then ok r else panic)
    else (let r = sub_ℕ (b + 65536) a in if in_i16 r then ok r else panic)
