-- ===== src/Serde/Reader/Remaining.antt =====
-- What a BitReader has still to give, and what its operations take from it.
use naia.Base.{
  ℕ, suc, ◌+◌, ◌-◌, ◌%◌, ◌≤◌, ◌<◌, ◌≡◌, refl, ap, ◌∙◌, Bool, true, false, not, List, [], ◌∷◌, ◌++◌,
  arith, ◌==◌, length, drop, drop-get_elem?, dec_lt, ℕ_discrete, drop_past,
}
use naia.Base.Outcome.{Outcome, ok, err}
use naia.Serde.Bits.{to_bits, byte_bits}
use naia.Serde.Reader.{BitReader, new, take_bit, refill, read_bit}
use naia.Base.Bits.{bit_and-one}

pub record IsValid (r : BitReader) : Type 0 where
  pub low : r.scratch_bits < 8
  pub in_range : r.buffer_index ≤ length r.buffer

-- The bits that are still to be read.
unfoldable pub remaining : BitReader → List Bool
remaining r = to_bits r.scratch_bits r.scratch ++ byte_bits (drop r.buffer_index r.buffer)

pub new-IsValid : (buffer : List ℕ) → IsValid (new buffer)
unfolding new
new-IsValid buffer = omega arith

pub remaining-new : (buffer : List ℕ) → remaining (new buffer) ≡ byte_bits buffer
unfolding new remaining to_bits
remaining-new buffer = refl

-- A reading of `m` that gives `x` and leaves `rest`, with the invariant kept.
abbrev pub Reads {ℓ} : {A : Type ℓ} → Outcome (A × BitReader) → A → List Bool → Type ℓ
Reads m x rest = (r : BitReader) × (m ≡ ok (x, r)) × IsValid r × (remaining r ≡ rest)

take_bit-remaining :
    (r : BitReader) (k : ℕ)
    → r.scratch_bits ≡ suc k
    → remaining r ≡ (take_bit r).0 ∷ remaining (take_bit r).1
unfolding take_bit remaining to_bits
take_bit-remaining r k h =
    let e : suc k - 1 ≡ k = omega arith in
    let b : (r.scratch % 2 == 1) ≡ not (r.scratch % 2 == 0) = ground arith in
    rw (h, bit_and-one, e, to_bits, b)

refill-remaining :
    (r : BitReader)
    → r.scratch_bits ≡ 0
    → r.buffer_index < length r.buffer
    → (r' : BitReader) × (refill r ≡ ok r')
      × (r'.scratch_bits ≡ 8)
      × (r'.buffer_index ≤ length r'.buffer)
      × (remaining r' ≡ remaining r)
unfolding refill remaining byte_bits
refill-remaining r h lt =
    let (byte, got, rest) = drop-get_elem? r.buffer r.buffer_index lt in
    let more : (r.buffer_index == length r.buffer) ≡ false = ground arith in
    (
      record r {
        state = record { scratch = byte; scratch_bits = 8; buffer_index = r.buffer_index + 1 };
      },
      rw (more, got),
      refl,
      omega arith,
      rw (h, rest, empty r.scratch),
    )
  where
    empty : (n : ℕ) → to_bits 0 n ≡ []
    empty n = unfold to_bits in refl

remaining_end :
    (r : BitReader) → r.scratch_bits ≡ 0 → length r.buffer ≤ r.buffer_index → remaining r ≡ []
unfolding remaining to_bits byte_bits
remaining_end r h le = rw (h, drop_past r.buffer r.buffer_index le)

take_bit-IsValid :
    (r : BitReader) → r.scratch_bits ≤ 8 → r.buffer_index ≤ length r.buffer → IsValid (take_bit r).1
unfolding take_bit
take_bit-IsValid r low in_range = omega arith

-- From a register that holds bits, the first bit that remains is taken.
take_bit-Reads :
    (r : BitReader) (b : Bool) (rest : List Bool)
    → 0 < r.scratch_bits
    → r.scratch_bits ≤ 8
    → r.buffer_index ≤ length r.buffer
    → remaining r ≡ b ∷ rest
    → Reads (ok (take_bit r)) b rest
take_bit-Reads r b rest pos low in_range e =
    let split = take_bit-remaining r (r.scratch_bits - 1) (omega arith) in
    let p : (take_bit r).0 ≡ b = cc split in
    (
      (take_bit r).1,
      ap (λ (c : Bool). ok (c, (take_bit r).1)) p,
      take_bit-IsValid r low in_range,
      cc split,
    )

-- While bits remain `read_bit` gives the first of them and leaves the others.
pub read_bit-Reads :
    (r : BitReader) (b : Bool) (rest : List Bool)
    → IsValid r
    → remaining r ≡ b ∷ rest
    → Reads (read_bit r) b rest
unfolding read_bit
read_bit-Reads r b rest h e = elim (ℕ_discrete r.scratch_bits 0) [
  | no some_bits ↦
      let t : (r.scratch_bits == 0) ≡ false = ground arith in
      rw t (take_bit-Reads r b rest (omega arith) (omega (arith, h.low)) h.in_range e)
  | yes empty ↦
      let t : (r.scratch_bits == 0) ≡ true = ground arith in
      let (r', filled, eight, in_range, same) = refill-remaining r empty (more empty) in
      rw (t, filled) (take_bit-Reads r' b rest (omega arith) (omega arith) in_range (same ∙ e))
]
  where
    more : r.scratch_bits ≡ 0 → r.buffer_index < length r.buffer
    more empty = elim (dec_lt r.buffer_index (length r.buffer)) [
      | yes lt ↦ lt
      | no past ↦ cc (remaining_end r empty (omega arith))
    ]

-- With no bit left `read_bit` is an error.
pub read_bit_end : (r : BitReader) → IsValid r → remaining r ≡ [] → read_bit r ≡ err
unfolding read_bit
read_bit_end r h e = elim (ℕ_discrete r.scratch_bits 0) [
  | no some_bits ↦ cc (take_bit-remaining r (r.scratch_bits - 1) (omega arith))
  | yes empty ↦ elim (dec_lt r.buffer_index (length r.buffer)) [
    | yes lt ↦
        let (r', filled, eight, in_range, same) = refill-remaining r empty lt in
        cc (take_bit-remaining r' 7 eight)
    | no past ↦
        let t : (r.scratch_bits == 0) ≡ true = ground arith in
        let u : (r.buffer_index == length r.buffer) ≡ true = ground (arith, h.in_range) in rw (t, u)
  ]
]
