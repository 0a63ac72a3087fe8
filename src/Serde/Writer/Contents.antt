-- ===== src/Serde/Writer/Contents.antt =====
-- What a BitWriter holds, its invariant, and the effect of `write_bit` and `write_bits` on both.
use mathlib.Core.Path.{subst}
use native.Mathlib.Nat.{mod-eq_of_lt}
use naia.Base.{
  ℕ, ◌+◌, ◌*◌, ◌/◌, ◌%◌, ◌^◌, ◌≤◌, ◌<◌, ◌≡◌, refl, ap, ◌∙◌, Bool, List, [], ◌++◌, leb, ◌==◌, length,
  take, drop, arith, append_assoc, append-nil, Bool-cases, inl, inr, bit_or, length-append,
  length-take, length-drop, leb→le, take-append_three, ==_iff,
}
use naia.Base.Bits.{bit_or_shifted, shifted-lt, fields-lt}
use naia.Base.Outcome.{ok, >>=-eq-ok}
use naia.Serde.Bits.{to_bits, byte_bits, byte_bits-append, to_bits-append, to_bits-split}
use naia.Serde.Writer.{
  BitWriter, mtu_size_bytes, with_capacity, to_le_bytes, copy_at, flush_word, flush_if_full,
}

pub record IsValid (w : BitWriter) : Type 0 where
  pub buffer_size : length w.buffer ≡ mtu_size_bytes
  pub fits : w.byte_count ≤ mtu_size_bytes
  pub room : w.scratch_bits < 32
  pub low : w.scratch < 2 ^ w.scratch_bits
  pub counted : w.current_bits ≡ w.byte_count * 8 + w.scratch_bits

-- The bits written so far.
unfoldable pub contents : BitWriter → List Bool
contents w = byte_bits (take w.byte_count w.buffer) ++ to_bits w.scratch_bits w.scratch

pub with_capacity-IsValid : (n : ℕ) → IsValid (with_capacity n)
unfolding with_capacity
with_capacity-IsValid n = omega arith

-- A bit or a byte shifted into the free part of the register is added to it, and nothing is cut.
pub bit_or-scratch :
    (s k v n : ℕ)
    → s < 2 ^ k
    → v < 2 ^ n
    → k + n ≤ 32
    → bit_or s (v * 2 ^ k % 2 ^ 32) ≡ s + v * 2 ^ k
bit_or-scratch s k v n hs hv hk =
    rw (mod-eq_of_lt (shifted-lt v k n 32 hv (omega arith))) (bit_or_shifted k v s hs)

-- A copied slice stands behind the first `i` bytes, which stay; the length stays too.
pub take-copy_at :
    (buffer bytes out : List ℕ) (i : ℕ)
    → copy_at buffer i bytes ≡ ok out
    → (take (i + length bytes) out ≡ take i buffer ++ bytes)
      × (length out ≡ length buffer)
      × (i + length bytes ≤ length buffer)
unfolding copy_at
take-copy_at buffer bytes out i e = elim (Bool-cases (leb (i + length bytes) (length buffer))) [
  | inl fits ↦
      let le : i + length bytes ≤ length buffer = leb→le _ _ fits in
      let p : front ++ (bytes ++ rest) ≡ out = ground (arith, fits) in
      let n : length front ≡ i = omega (arith, length-take i buffer) in
      (
        subst (λ (z : List ℕ). take (i + length bytes) z ≡ front ++ bytes) p
            (take-append_three (i + length bytes) front bytes rest (omega arith)),
        rw (← p) (
            omega (
              arith,
              length-append front (bytes ++ rest),
              length-append bytes rest,
              length-drop (i + length bytes) buffer,
            )),
        le,
      )
  | inr outside ↦ ground (arith, outside)
]
  where
    front : List ℕ
    front = take i buffer

    rest : List ℕ
    rest = drop (i + length bytes) buffer

-- Four little-endian bytes are the 32 bits of the word.
pub to_le_bytes-bits : (s : ℕ) → s < 2 ^ 32 → byte_bits (to_le_bytes s) ≡ to_bits 32 s
unfolding byte_bits
to_le_bytes-bits s h =
    let b1 : s / 256 / 256 ≡ s / 65536 = omega arith in
    let b2 : s / 65536 / 256 ≡ s / 16777216 = omega arith in
    let b3 : s / 16777216 / 256 ≡ 0 = omega arith in
    rw (
      to_bits-split 8 24 s,
      to_bits-split 8 16 (s / 256),
      b1,
      to_bits-split 8 8 (s / 65536),
      b2,
      last,
      append-nil,
    )
  where
    last : to_bits 8 (s / 16777216) ≡ to_bits 8 (s / 16777216 % 256)
    last = ap (to_bits 8) (omega arith)

-- Flushing a full register moves its 32 bits to the buffer.
pub flush_word-contents :
    (w w' : BitWriter)
    → length w.buffer ≡ mtu_size_bytes
    → w.scratch < 2 ^ 32
    → w.current_bits ≡ w.byte_count * 8 + 32
    → flush_word w ≡ ok w'
    → (IsValid w') × (contents w' ≡ byte_bits (take w.byte_count w.buffer) ++ to_bits 32 w.scratch)
unfolding flush_word contents
flush_word-contents w w' hb hs hc e =
    let (out, copied, done) =
      >>=-eq-ok (copy_at w.buffer w.byte_count (to_le_bytes w.scratch)) _ e in
    let (t, n, le) = take-copy_at w.buffer (to_le_bytes w.scratch) out w.byte_count copied in
    let next : BitWriter = record w {
      buffer = out;
      byte_count = w.byte_count + 4;
      scratch = 0;
      scratch_bits = 0;
    } in
    let moved : contents next ≡ byte_bits (take w.byte_count w.buffer) ++ to_bits 32 w.scratch =
      rw (t, byte_bits-append, to_le_bytes-bits w.scratch hs, none_left, append-nil) in
    subst P {x = next} (cc) (omega arith, moved)
  where
    P : BitWriter → Type 0
    P v = IsValid v × (contents v ≡ byte_bits (take w.byte_count w.buffer) ++ to_bits 32 w.scratch)

    none_left : to_bits 0 0 ≡ []
    none_left = unfold to_bits in refl

-- `n` more bits, of value `v`, in the scratch register.
abbrev pub pushed : ℕ → ℕ → BitWriter → BitWriter
pushed n v w = record w {
  scratch = w.scratch + v * 2 ^ w.scratch_bits;
  scratch_bits = w.scratch_bits + n;
  current_bits = w.current_bits + n;
}

pub pushed-IsValid :
    (n v : ℕ) (w : BitWriter)
    → IsValid w
    → v < 2 ^ n
    → w.scratch_bits + n < 32
    → IsValid (pushed n v w)
pushed-IsValid n v w h hv hn = record {
  buffer_size = h.buffer_size;
  fits = h.fits;
  room = hn;
  low = fields-lt w.scratch w.scratch_bits v n h.low hv;
  counted = omega (arith, h.counted);
}

pub pushed-contents :
    (n v : ℕ) (w : BitWriter) → IsValid w → contents (pushed n v w) ≡ contents w ++ to_bits n v
unfolding contents
pushed-contents n v w h = rw (to_bits-append w.scratch_bits n w.scratch v h.low, append_assoc)

-- After `n` more bits that fill the register at most, the flush keeps the invariant and the
-- contents have grown by those bits.
pub flush_if_full-contents :
    (n v : ℕ) (w w' : BitWriter)
    → IsValid w
    → v < 2 ^ n
    → w.scratch_bits + n ≤ 32
    → flush_if_full (pushed n v w) ≡ ok w'
    → IsValid w' × (contents w' ≡ contents w ++ to_bits n v)
unfolding flush_if_full contents
flush_if_full-contents n v w w' h hv hn e = elim (Bool-cases (w.scratch_bits + n == 32)) [
  | inl full ↦
      let k : w.scratch_bits + n ≡ 32 = (==_iff _ 32).0 full in
      let low : w.scratch + v * 2 ^ w.scratch_bits < 2 ^ 32 =
        rw k at (fields-lt w.scratch w.scratch_bits v n h.low hv) in
      let flushed : flush_word (pushed n v w) ≡ ok w' = ground (arith, full) in
      let (valid, moved) =
        flush_word-contents (pushed n v w) w' h.buffer_size low (omega (arith, h.counted))
          flushed in
      (valid, moved ∙ (rw k at (pushed-contents n v w h)))
  | inr room ↦
      let p : pushed n v w ≡ w' = ground (arith, room) in
      subst P p (pushed-IsValid n v w h hv (ground (arith, room)), pushed-contents n v w h)
]
  where
    P : BitWriter → Type 0
    P u = IsValid u × (contents u ≡ contents w ++ to_bits n v)
