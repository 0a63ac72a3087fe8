-- ===== src/Serde/Writer/Push.antt =====
-- `write_bit` of BitWriter, and runs of it, as pushes into the scratch register.
use mathlib.Core.Path.{ap₂}
use naia.Base.{
  ℕ, zero, suc, ◌+◌, ◌-◌, ◌*◌, ◌/◌, ◌%◌, ◌^◌, ◌≤◌, ◌<◌, ◌≡◌, ap, ◌∙◌, ◌≢◌, ◌⊎◌, inl, inr, Bool,
  true, false, List, [], ◌∷◌, ◌++◌, arith, leb, ◌==◌, length, dec_lt,
}
use naia.Base.Outcome.{ok, panic, >>=-ok, err, Outcome-cases}
use naia.Base.Bits.{pow_add}
use naia.Serde.Bits.{
  bit_value, to_bits, from_bits, to_bits-split, length-to_bits, from_bits-to_bits,
}
use naia.Serde.Interface.{write_bits}
use naia.Serde.Writer.{BitWriter, flush_word, flush_if_full, write_bit, bit_writer, copy_at}
use naia.Serde.Writer.Contents.{
  IsValid, contents, pushed, bit_or-scratch, flush_if_full-contents, pushed-IsValid,
}

pub bit_value-lt : (b : Bool) → bit_value b < 2 ^ 1
bit_value-lt true = omega arith
bit_value-lt false = omega arith

pub write_bit-pushed :
    (b : Bool) (w : BitWriter)
    → IsValid w
    → w.current_bits < w.max_bits
    → write_bit b w ≡ flush_if_full (pushed 1 (bit_value b) w)
unfolding write_bit
write_bit-pushed b w h lt =
    let e : leb w.max_bits w.current_bits ≡ false = ground arith in
    rw (
      e,
      bit_or-scratch w.scratch w.scratch_bits (bit_value b) 1 h.low (bit_value-lt b)
          (omega (arith, h.room)),
    )

pub write_bit_full :
    (b : Bool) (w : BitWriter) → w.max_bits ≤ w.current_bits → write_bit b w ≡ panic
unfolding write_bit
write_bit_full b w le = let e : leb w.max_bits w.current_bits ≡ true = ground arith in rw e

write_bit-ne-err : (b : Bool) (w : BitWriter) → write_bit b w ≢ err
unfolding write_bit flush_if_full flush_word copy_at
write_bit-ne-err b w e = ground arith

-- `write_bit` writes or panics.
pub bit-cases :
    (b : Bool) (w : BitWriter)
    → ((w' : BitWriter) × (write_bit b w ≡ ok w')) ⊎ (write_bit b w ≡ panic)
bit-cases b w = elim (Outcome-cases (write_bit b w)) [
  | inl r ↦ inl r
  | inr (inl e) ↦ absurd (write_bit-ne-err b w e)
  | inr (inr e) ↦ inr e
]

-- A written bit is the last of the contents, and the invariant is kept.
pub write_bit-contents :
    (b : Bool) (w w' : BitWriter)
    → IsValid w
    → write_bit b w ≡ ok w'
    → IsValid w' × (contents w' ≡ contents w ++ (b ∷ []))
write_bit-contents b w w' h e = elim (dec_lt w.current_bits w.max_bits) [
  | yes lt ↦
      let (valid, grown) =
        flush_if_full-contents 1 (bit_value b) w w' h (bit_value-lt b) (omega (arith, h.room))
          (rw (← write_bit-pushed b w h lt) e) in
      (valid, grown ∙ ap (◌++◌ (contents w)) (one b))
  | no full ↦ ground (arith, write_bit_full b w (omega arith))
]
  where
    one : (b : Bool) → to_bits 1 (bit_value b) ≡ b ∷ []
    one b = unfold to_bits in ground arith

pub flush_if_full_room : (w : BitWriter) → w.scratch_bits < 32 → flush_if_full w ≡ ok w
unfolding flush_if_full
flush_if_full_room w h = ground arith

-- Two pushes are one.
pushed-pushed :
    (n v m u : ℕ) (w : BitWriter) → pushed m u (pushed n v w) ≡ pushed (n + m) (v + u * 2 ^ n) w
pushed-pushed n v m u w =
    let e : 2 ^ (w.scratch_bits + n) ≡ 2 ^ w.scratch_bits * 2 ^ n = pow_add w.scratch_bits n in
    let p : u * 2 ^ (w.scratch_bits + n) ≡ u * (2 ^ w.scratch_bits * 2 ^ n) = ap (◌*◌ u) e in
    ground (arith, p)

-- Bits that fill the register at most are written by one push.
write_bits-pushed :
    (b : Bool) (bs : List Bool) (w : BitWriter)
    → IsValid w
    → w.scratch_bits + suc (length bs) ≤ 32
    → w.current_bits + suc (length bs) ≤ w.max_bits
    → write_bits bit_writer (b ∷ bs) w
      ≡ flush_if_full (pushed (suc (length bs)) (from_bits (b ∷ bs)) w)
unfolding write_bits bit_writer from_bits
write_bits-pushed b [] w h fits room =
    rw (>>=-ok, write_bit-pushed b w h (omega arith))
      (ap (λ (v : ℕ). flush_if_full (pushed 1 v w)) (omega arith))
write_bits-pushed b (c ∷ bs) w h fits room =
    let w' : BitWriter = pushed 1 (bit_value b) w in
    let h' : IsValid w' = pushed-IsValid 1 (bit_value b) w h (bit_value-lt b) (omega arith) in
    rw (write_bit-pushed b w h (omega arith), flush_if_full_room w' (omega arith))
      (write_bits-pushed c bs w' h' (omega arith) (omega arith)
        ∙ ap flush_if_full (pushed-pushed 1 (bit_value b) (suc (length bs)) (from_bits (c ∷ bs)) w)
        ∙ ap₂ (λ (n v : ℕ). flush_if_full (pushed n v w)) (omega arith) (omega arith))

pub write_bit_counts :
    (b : Bool) (w w' : BitWriter)
    → write_bit b w ≡ ok w'
    → (w'.current_bits ≡ w.current_bits + 1) × (w'.max_bits ≡ w.max_bits)
unfolding write_bit flush_if_full flush_word
write_bit_counts b w w' e = ground arith

-- Bits beyond the capacity end in a panic.
pub write_bits_full :
    (bs : List Bool) (w : BitWriter)
    → w.current_bits ≤ w.max_bits
    → w.max_bits < w.current_bits + length bs
    → write_bits bit_writer bs w ≡ panic
unfolding write_bits bit_writer
write_bits_full [] w le lt = absurd (omega arith)
write_bits_full (b ∷ bs) w le lt = elim (dec_lt w.current_bits w.max_bits) [
  | yes room ↦ elim (bit-cases b w) [
    | inl (w', e) ↦
        let (c, m) = write_bit_counts b w w' e in
        rw e (write_bits_full bs w' (omega arith) (omega arith))
    | inr stopped ↦ rw stopped
  ]
  | no full ↦ rw (write_bit_full b w (omega arith))
]

-- The low bits of a byte and the rest.
pub byte_split :
    (k n : ℕ) → k ≤ 8 → to_bits 8 n ≡ to_bits k (n % 2 ^ k) ++ to_bits (8 - k) (n / 2 ^ k)
byte_split k n h =
    let e : 8 ≡ k + (8 - k) = omega arith in
    ap (λ (t : ℕ). to_bits t n) e ∙ to_bits-split k (8 - k) n

-- All bits of a list in one push, when the list is not empty.
pub write_bits-pushed_all :
    (n v : ℕ) (w : BitWriter)
    → IsValid w
    → v < 2 ^ n
    → 0 < n
    → w.scratch_bits + n ≤ 32
    → w.current_bits + n ≤ w.max_bits
    → write_bits bit_writer (to_bits n v) w ≡ flush_if_full (pushed n v w)
unfolding to_bits
write_bits-pushed_all zero v w h hv pos fits room = absurd (omega arith)
write_bits-pushed_all (suc n) v w h hv pos fits room =
    let len : length (to_bits n (v / 2)) ≡ n = length-to_bits n (v / 2) in
    write_bits-pushed (v % 2 == 1) (to_bits n (v / 2)) w h (omega arith) (omega arith)
    ∙ ap₂ (λ (k u : ℕ). flush_if_full (pushed k u w)) (ap suc len) (from_bits-to_bits (suc n) v hv)
