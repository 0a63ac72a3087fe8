-- ===== src/Serde/Writer/Capacity.antt =====
-- With a capacity of at most one packet a BitWriter takes all the bits that fit: it never runs over
-- the end of its buffer, and what it hands on is what was written, padded to a whole byte.
use naia.Base.{
  ℕ, ◌+◌, ◌≤◌, ◌<◌, ◌≡◌, refl, sym, ◌∙◌, Bool, List, [], ◌∷◌, ◌++◌, append_assoc, append-nil, arith,
  length, take, drop, dec_lt,
}
use naia.Base.Outcome.{ok}
use naia.Serde.Bits.{bit_value}
use naia.Serde.Interface.{write_bits}
use naia.Serde.Writer.{
  BitWriter, mtu_size_bits, write_bit, bit_writer, copy_at, flush_word, flush_if_full,
  mtu_size_bytes, to_le_bytes,
}
use naia.Serde.Writer.Contents.{IsValid, contents, pushed}
use naia.Serde.Writer.Push.{
  write_bit-contents, write_bit_counts, write_bit-pushed, flush_if_full_room,
}

pub copy_at-ok :
    (buffer bytes : List ℕ) (i : ℕ)
    → i + length bytes ≤ length buffer
    → (out : List ℕ) × (copy_at buffer i bytes ≡ ok out)
unfolding copy_at
copy_at-ok buffer bytes i h =
    (take i buffer ++ (bytes ++ drop (i + length bytes) buffer), ground arith)

flush_word-ok :
    (w : BitWriter)
    → length w.buffer ≡ mtu_size_bytes
    → w.byte_count + 4 ≤ mtu_size_bytes
    → (w' : BitWriter) × (flush_word w ≡ ok w')
unfolding flush_word
flush_word-ok w size room =
    let (out, e) = copy_at-ok w.buffer (to_le_bytes w.scratch) w.byte_count (omega arith) in
    (record w { buffer = out; byte_count = w.byte_count + 4; scratch = 0; scratch_bits = 0 }, rw e)

flush_if_full_now : (w : BitWriter) → w.scratch_bits ≡ 32 → flush_if_full w ≡ flush_word w
unfolding flush_if_full
flush_if_full_now w h = ground arith

-- With room left and a capacity of at most a packet, `write_bit` writes.
write_bit-ok :
    (b : Bool) (w : BitWriter)
    → IsValid w
    → w.max_bits ≤ mtu_size_bits
    → w.current_bits < w.max_bits
    → (w' : BitWriter) × (write_bit b w ≡ ok w')
write_bit-ok b w h cap room = elim (dec_lt (w.scratch_bits + 1) 32) [
  | yes fits ↦ (pushed 1 (bit_value b) w, write_bit-pushed b w h room ∙ flush_if_full_room _ fits)
  | no full ↦
      let w1 : BitWriter = pushed 1 (bit_value b) w in
      let (w', e) = flush_word-ok w1 h.buffer_size (omega (arith, h.counted)) in
      (w', write_bit-pushed b w h room ∙ flush_if_full_now w1 (omega (arith, h.room)) ∙ e)
]

pub write_bits-contents :
    (bs : List Bool) (w : BitWriter)
    → IsValid w
    → w.max_bits ≤ mtu_size_bits
    → w.current_bits + length bs ≤ w.max_bits
    → (w' : BitWriter) × (write_bits bit_writer bs w ≡ ok w')
      × IsValid w'
      × (contents w' ≡ contents w ++ bs)
      × (w'.current_bits ≡ w.current_bits + length bs)
unfolding write_bits bit_writer
write_bits-contents [] w h cap room = (w, refl, h, sym (append-nil (contents w)), omega arith)
write_bits-contents (b ∷ bs) w h cap room =
    let (u, p) = write_bit-ok b w h cap (omega arith) in
    let (valid, grown) = write_bit-contents b w u h p in
    let (c, m) = write_bit_counts b w u p in
    let (w', q, valid', grown', count) =
      write_bits-contents bs u valid (omega arith) (omega arith) in
    (w', rw p q, valid', grown' ∙ rw (grown, append_assoc), omega arith)
