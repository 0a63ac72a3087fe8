-- ===== src/Serde/Writer/Bytes.antt =====
-- `write_byte` of BitWriter is eight calls of `write_bit`, also across a word boundary.
use naia.Base.{
  ℕ, ◌+◌, ◌-◌, ◌/◌, ◌%◌, ◌^◌, ◌≤◌, ◌<◌, ◌≡◌, refl, sym, ap, ◌∙◌, inl, inr, Bool, true, false, List,
  ◌∷◌, arith, ltb, leb, ◌==◌, dec_le,
}
use naia.Base.Outcome.{Outcome, ok, panic, ◌>>=◌, Outcome-cases}
use naia.Serde.Bits.{to_bits, IsByte, length-to_bits}
use naia.Serde.Interface.{IsBitWrite, write_bits, write_bits-append}
use naia.Serde.Writer.{
  BitWriter, flush_word, flush_if_full, write_byte, bit_writer, write_byte_across, copy_at,
  to_le_bytes,
}
use naia.Serde.Writer.Contents.{IsValid, pushed, bit_or-scratch, take-copy_at}
use naia.Serde.Writer.Push.{
  write_bits-pushed_all, byte_split, flush_if_full_room, write_bit-contents, write_bit_full,
  write_bits_full,
}
use native.Mathlib.Nat.{mod-lt, one-le-pow}
use naia.Base.Bits.{bit_and_mask, div-pow-lt}

write_byte_within-bits :
    (n : ℕ) (w : BitWriter)
    → IsByte n
    → IsValid w
    → w.scratch_bits + 8 ≤ 32
    → w.current_bits + 8 ≤ w.max_bits
    → write_byte n w ≡ write_bits bit_writer (to_bits 8 n) w
unfolding write_byte
write_byte_within-bits n w hn h fits room =
    let a : ltb w.max_bits (w.current_bits + 8) ≡ false = ground arith in
    let b : leb 8 (32 - w.scratch_bits) ≡ true = ground arith in
    rw (
      a,
      b,
      write_bits-pushed_all 8 n w h hn (omega arith) fits room,
      bit_or-scratch w.scratch w.scratch_bits n 8 h.low hn (omega arith),
    )

-- The high part of a byte goes into the empty register.
write_high :
    (m v : ℕ) (w : BitWriter)
    → IsValid w
    → w.scratch_bits ≡ 0
    → w.scratch ≡ 0
    → v < 2 ^ m
    → 0 < m
    → m < 32
    → w.current_bits + m ≤ w.max_bits
    → write_bits bit_writer (to_bits m v) w
      ≡ ok (record w { scratch = v; scratch_bits = m; current_bits = w.current_bits + m })
write_high m v w h e s hv pos fits room =
    write_bits-pushed_all m v w h hv pos (omega arith) room
    ∙ flush_if_full_room (pushed m v w) (omega arith)
    ∙ ap ok (rw (e, s) (ground arith))

module _ (k n : ℕ) (w : BitWriter) (h : IsValid w) (fills : w.scratch_bits + k ≡ 32) where
  lo : ℕ
  lo = n % 2 ^ k

  full : BitWriter
  unfolding lo
  full = pushed k lo w

  write_low :
      0 < k
      → w.current_bits + k ≤ w.max_bits
      → write_bits bit_writer (to_bits k (n % 2 ^ k)) w ≡ flush_word full
  unfolding full flush_if_full
  write_low pos room =
      rw
        (write_bits-pushed_all k lo w h (mod-lt n (one-le-pow k 2 (omega arith))) pos (omega arith)
          room)
        (ground arith)

  across_bits :
      n < 2 ^ 8
      → 0 < k
      → k < 8
      → w.current_bits + 8 ≤ w.max_bits
      → write_byte_across k n (record w { current_bits = w.current_bits + 8 }) ≡ (
          write_bits bit_writer (to_bits k (n % 2 ^ k)) w
          >>= write_bits bit_writer (to_bits (8 - k) (n / 2 ^ k)))
  unfolding write_byte_across flush_word full lo
  across_bits hn pos le room =
      rw
        (
          write_low pos (omega arith),
          bit_and_mask k n,
          bit_or-scratch w.scratch w.scratch_bits lo k h.low lo-lt (omega arith),
        )
        (elim (Outcome-cases copied) [
          | inl (out, e) ↦
              let high =
                write_high (8 - k) (n / 2 ^ k) (flushed out) (flushed-IsValid out e) refl refl
                  (div-pow-lt k (8 - k) n (pow8 le hn)) (omega arith) (omega arith) (omega arith) in
              rw e (ground (arith, high))
          | inr (inl e) ↦ rw e
          | inr (inr e) ↦ rw e
        ])
    where
      copied : Outcome (List ℕ)
      copied = copy_at w.buffer w.byte_count (to_le_bytes full.scratch)

      lo-lt : lo < 2 ^ k
      lo-lt = mod-lt n (one-le-pow k 2 (omega arith))

      flushed : List ℕ → BitWriter
      flushed out = record full {
        buffer = out;
        byte_count = w.byte_count + 4;
        scratch = 0;
        scratch_bits = 0;
      }

      flushed-IsValid : (out : List ℕ) → copied ≡ ok out → IsValid (flushed out)
      flushed-IsValid out e =
          let (t, size, in_range) =
            take-copy_at w.buffer (to_le_bytes full.scratch) out w.byte_count e in
          omega (arith, h.buffer_size, h.counted, size, in_range)

      pow8 : k < 8 → n < 2 ^ 8 → n < 2 ^ (8 - k + k)
      pow8 le hn = let p : 8 - k + k ≡ 8 = omega arith in rw p hn

write_byte_across-bits :
    (n : ℕ) (w : BitWriter)
    → IsByte n
    → IsValid w
    → 24 < w.scratch_bits
    → w.current_bits + 8 ≤ w.max_bits
    → write_byte n w ≡ write_bits bit_writer (to_bits 8 n) w
unfolding write_byte
write_byte_across-bits n w hn h high room =
    let k : ℕ = 32 - w.scratch_bits in
    let a : ltb w.max_bits (w.current_bits + 8) ≡ false = ground arith in
    let b : leb 8 (32 - w.scratch_bits) ≡ false = ground arith in
    rw (a, b, byte_split k n (omega arith), write_bits-append)
      (across_bits k n w h (omega arith) hn (omega (arith, h.room)) (omega arith) room)

write_byte_panics :
    (n : ℕ) (w : BitWriter) → w.max_bits < w.current_bits + 8 → write_byte n w ≡ panic
unfolding write_byte
write_byte_panics n w lt = ground arith

write_byte_full :
    (n : ℕ) (w : BitWriter)
    → w.max_bits < w.current_bits + 8
    → write_byte n w ≡ write_bits bit_writer (to_bits 8 n) w
unfolding to_bits
write_byte_full n w lt = elim (dec_le w.current_bits w.max_bits) [
  | yes le ↦
      write_byte_panics n w lt
      ∙ sym (write_bits_full (to_bits 8 n) w le (omega (arith, length-to_bits 8 n)))
  | no past ↦ write_byte_panics n w lt ∙ sym (panics_at_once (omega arith) (to_bits 7 (n / 2)))
]
  where
    panics_at_once :
        w.max_bits ≤ w.current_bits
        → (bs : List Bool) → write_bits bit_writer ((n % 2 == 1) ∷ bs) w ≡ panic
    panics_at_once le bs = unfold write_bits bit_writer in rw (write_bit_full (n % 2 == 1) w le)

-- For every valid BitWriter, `write_byte` of a byte has the result of eight calls of `write_bit`
-- with its bits, the lowest first: the same state, or a panic in both.
pub write_byte-bits :
    (n : ℕ) (w : BitWriter)
    → IsByte n
    → IsValid w
    → write_byte n w ≡ write_bits bit_writer (to_bits 8 n) w
write_byte-bits n w hn h = elim (dec_le (w.current_bits + 8) w.max_bits) [
  | no full ↦ write_byte_full n w (omega arith)
  | yes room ↦ elim (dec_le (w.scratch_bits + 8) 32) [
    | yes fits ↦ write_byte_within-bits n w hn h fits room
    | no across ↦ write_byte_across-bits n w hn h (omega arith) room
  ]
]

unfoldable pub bit_writer-IsBitWrite : IsBitWrite bit_writer
unfolding bit_writer
bit_writer-IsBitWrite = record {
  Valid = IsValid;
  write_bit-Valid = λ b w w' h e. (write_bit-contents b w w' h e).0;
  write_byte-bits = write_byte-bits;
}
