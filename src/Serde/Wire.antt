-- ===== src/Serde/Wire.antt =====
-- What a BitWriter hands on: `to_bytes`, and from there to a BitReader.
use naia.Serde.Writer
use naia.Serde.Reader
use naia.Base.{
  ℕ, zero, suc, ◌+◌, ◌-◌, ◌*◌, ◌/◌, ◌%◌, ◌^◌, ◌≤◌, ◌<◌, ◌≡◌, refl, ap, ◌∙◌, Bool, true, false, List,
  [], ◌∷◌, ◌++◌, append_assoc, append-nil, arith, ltb, length, take, replicate, length-take, dec_lt,
}
use naia.Base.Outcome.{ok, Outcome}
use naia.Serde.Bits.{to_bits, byte_bits, to_bits-append, to_bits-split, byte_bits-append}
use naia.Serde.Writer.{
  BitWriter, mtu_size_bytes, mtu_size_bits, to_le_bytes, copy_at, div_ceil_eight, finalize_scratch,
  finalize, to_bytes, bit_writer, with_capacity,
}
use naia.Serde.Writer.Contents.{
  IsValid, contents, take-copy_at, to_le_bytes-bits, with_capacity-IsValid,
}
use naia.Serde.Writer.Capacity.{copy_at-ok, write_bits-contents}
use native.Mathlib.Nat.{pow-le-pow_right}
use naia.Serde.Number.{SerdeNumberInner, ser, de}
use naia.Serde.Number.Encode.{IsNumber, number_bits, ser-Emits}
use naia.Serde.Number.RoundTrip.{IsReadable, number_round_trip}
use naia.Serde.Reader.{BitReader}
use naia.Serde.Interface.{Emits}
use naia.Serde.Writer.Bytes.{bit_writer-IsBitWrite}
use naia.Serde.Reader.Remaining.{remaining, new-IsValid, remaining-new}

-- Only the lowest `w` bits count.
to_bits_mod : (w n : ℕ) → to_bits w n ≡ to_bits w (n % 2 ^ w)
unfolding to_bits
to_bits_mod w n =
    let e : w + 0 ≡ w = omega arith in let s = rw (e, append-nil) at (to_bits-split w 0 n) in s

-- The whole bytes that hold the lowest bits of a word.
le_bytes-bits :
    (k s : ℕ) → k ≤ 4 → s < 2 ^ 32 → byte_bits (take k (to_le_bytes s)) ≡ to_bits (8 * k) s
unfolding byte_bits to_bits
le_bytes-bits zero s le h = refl
le_bytes-bits (suc zero) s le h = rw (to_bits_mod 8 s, append-nil)
le_bytes-bits (suc (suc zero)) s le h =
    rw (to_bits-split 8 8 s, to_bits_mod 8 (s / 256), append-nil)
le_bytes-bits (suc (suc (suc zero))) s le h =
    let b : s / 256 / 256 ≡ s / 65536 = omega arith in
    rw (to_bits-split 8 16 s, to_bits-split 8 8 (s / 256), b, to_bits_mod 8 (s / 65536), append-nil)
le_bytes-bits (suc (suc (suc (suc zero)))) s le h = to_le_bytes-bits s h
le_bytes-bits (suc (suc (suc (suc (suc k))))) s le h = absurd (omega arith)

to_bits-zero : (k : ℕ) → to_bits k 0 ≡ replicate k false
unfolding to_bits
to_bits-zero zero = refl
to_bits-zero (suc k) = ap (◌∷◌ false) (to_bits-zero k)

-- A number in more bits than it has ends in zeros.
to_bits-padded :
    (w pad n : ℕ) → n < 2 ^ w → to_bits (w + pad) n ≡ to_bits w n ++ replicate pad false
to_bits-padded w pad n h =
    let e : n + 0 * 2 ^ w ≡ n = omega arith in
    rw (← to_bits-zero pad, ← to_bits-append w pad n 0 h, e)

last_bytes-bits :
    (k pad w n : ℕ)
    → w ≤ 31
    → 8 * k ≡ w + pad
    → k ≤ 4
    → n < 2 ^ w
    → byte_bits (take k (to_le_bytes n)) ≡ to_bits w n ++ replicate pad false
last_bytes-bits k pad w n hw e hk h =
    let small : n < 2 ^ 32 =
      omega (arith, h, pow-le-pow_right {n = 2} (omega arith) {i = w} {j = 32} (omega arith)) in
    rw (le_bytes-bits k n hk small, e, to_bits-padded w pad n h)

finalize_scratch-bytes :
    (w : BitWriter)
    → IsValid w
    → w.current_bits ≤ mtu_size_bits
    → (w' : BitWriter) × (finalize_scratch w ≡ ok w')
      × (take w'.byte_count w'.buffer
          ≡ take w.byte_count w.buffer
            ++ take (div_ceil_eight w.scratch_bits) (to_le_bytes w.scratch))
unfolding finalize_scratch
finalize_scratch-bytes w h cap =
    let k : ℕ = div_ceil_eight w.scratch_bits in
    let bytes : List ℕ = take k (to_le_bytes w.scratch) in
    let n : length bytes ≡ k = omega (arith, length-take k (to_le_bytes w.scratch), h.room) in
    let (out, e) =
      copy_at-ok w.buffer bytes w.byte_count (omega (arith, h.buffer_size, h.counted)) in
    let (t, _, _) = take-copy_at w.buffer bytes out w.byte_count e in
    (record w { buffer = out; byte_count = w.byte_count + k; max_bits = 0 }, rw e, rw n at t)

-- A BitWriter that holds at most one packet hands its bytes on without a panic, and their bits are
-- the bits that were written, padded with less than eight zeros.
pub to_bytes-contents :
    (w : BitWriter)
    → IsValid w
    → w.current_bits ≤ mtu_size_bits
    → (bytes : List ℕ) × (pad : ℕ) × (to_bytes w ≡ ok bytes)
      × (pad < 8)
      × (byte_bits bytes ≡ contents w ++ replicate pad false)
unfolding to_bytes finalize contents byte_bits to_bits
to_bytes-contents w h small = elim (dec_lt 0 w.scratch_bits) [
  | yes some_bits ↦
      let k : ℕ = div_ceil_eight w.scratch_bits in
      let pad : ℕ = 8 * k - w.scratch_bits in
      let (w', e, t) = finalize_scratch-bytes w h small in
      let c : ltb 0 w.scratch_bits ≡ true = ground arith in
      let n : 8 * k ≡ w.scratch_bits + pad = omega arith in
      (
        take w'.byte_count w'.buffer,
        pad,
        rw (c, e),
        omega arith,
        rw (
          t,
          byte_bits-append,
          last_bytes-bits k pad w.scratch_bits w.scratch (omega (arith, h.room)) n
              (omega (arith, h.room)) h.low,
          append_assoc,
        ),
      )
  | no none_left ↦
      let c : ltb 0 w.scratch_bits ≡ false = ground arith in
      let z : w.scratch_bits ≡ 0 = omega arith in
      (take w.byte_count w.buffer, 0, rw c, omega arith, rw (z, append-nil, append-nil))
]

-- A new BitWriter is empty.
new_empty :
    IsValid Writer.new
    × (contents Writer.new ≡ [])
    × (Writer.new.current_bits ≡ 0)
    × (Writer.new.max_bits ≡ mtu_size_bits)
unfolding Writer.new with_capacity contents byte_bits to_bits
new_empty = (with_capacity-IsValid mtu_size_bits, refl, refl, refl)

-- What a piece of code emits into a new BitWriter reaches a BitReader over the bytes handed on.
pub emitted-received :
    (f : BitWriter → Outcome BitWriter) (bs : List Bool)
    → Emits bit_writer-IsBitWrite f bs
    → length bs ≤ mtu_size_bits
    → (w : BitWriter) × (bytes : List ℕ) × (pad : ℕ) × (f Writer.new ≡ ok w)
      × (to_bytes w ≡ ok bytes)
      × (remaining (Reader.new bytes) ≡ bs ++ replicate pad false)
unfolding bit_writer-IsBitWrite
emitted-received f bs emits fits =
    let (valid, empty, none_yet, room) = new_empty in
    let (w, written, hw, grown, count) =
      write_bits-contents bs Writer.new valid (omega arith) (omega arith) in
    let (bytes, pad, handed, _, padded) = to_bytes-contents w hw (omega arith) in
    (
      w,
      bytes,
      pad,
      emits Writer.new valid ∙ written,
      handed,
      remaining-new bytes
          ∙ padded
          ∙ ap (λ (z : List Bool). z ++ replicate pad false)
              (grown ∙ ap (λ (z : List Bool). z ++ bs) empty),
    )

-- The way over the wire: for every number that `new` accepts (with a magnitude below 2^127), of at
-- most 127 bits and of at most 32 bits a chunk when it is variable, whose bits fit one packet,
-- `ser` into a new BitWriter succeeds, `to_bytes` hands on bytes, and `de` from a BitReader over
-- these bytes returns the number.
pub number_over_wire :
    (n : SerdeNumberInner)
    → IsNumber n
    → IsReadable n
    → length (number_bits n) ≤ mtu_size_bits
    → (w : BitWriter) × (bytes : List ℕ) × (r : BitReader) × (ser bit_writer n Writer.new ≡ ok w)
      × (to_bytes w ≡ ok bytes)
      × (de n.signed n.variable n.bits n.fraction_digits (Reader.new bytes) ≡ ok (n, r))
number_over_wire n hn hr fits =
    let (w, bytes, pad, written, handed, left) =
      emitted-received (ser bit_writer n) (number_bits n) (ser-Emits bit_writer-IsBitWrite n hn)
        fits in
    let (r, read, _, _) =
      number_round_trip n (Reader.new bytes) (replicate pad false) hn hr (new-IsValid bytes) left in
    (w, bytes, r, written, handed, read)
