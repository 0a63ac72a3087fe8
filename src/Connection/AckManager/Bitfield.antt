-- ===== src/Connection/AckManager/Bitfield.antt =====
-- The bitfield that an outgoing header carries.
use naia.Base.{
  ℕ, zero, suc, ◌+◌, ◌*◌, ◌%◌, ◌^◌, ◌≤◌, ◌<◌, bit_or, ◌≡◌, refl, sym, ap, ◌∙◌, Bool, true, false,
  List, [], ◌∷◌, arith, if◌then◌else◌, length,
}
use naia.Serde.Bits.{to_bits, from_bits, bit_value, to_bits-from_bits, from_bits-lt}
use naia.Sequence.{wrapping_sub}
use naia.Connection.SequenceBuffer.{exists}
use naia.Connection.AckManager.{AckManager, ack_bits, ack_bitfield, redundant_packet_acks_size}
use naia.Base.Bits.{bit_or_shifted, fields-lt, pow_add}
use native.Mathlib.Nat.{pow-le-pow_right}

-- Which of the packets before the last one, from the `i`-th on, are held, the nearest first.
unfoldable pub held : AckManager → ℕ → ℕ → List Bool
held m i zero = []
held m i (suc count) =
    exists m.received_packets (wrapping_sub m.last_recv_packet_index i) ∷ held m (i + 1) count

pub length-held : (m : AckManager) (i count : ℕ) → length (held m i count) ≡ count
unfolding held
length-held m i zero = refl
length-held m i (suc count) = ap suc (length-held m (i + 1) count)

or_mask :
    (b : Bool) (k acc : ℕ)
    → acc < 2 ^ k
    → (if b then bit_or acc (2 ^ k) else acc) ≡ acc + bit_value b * 2 ^ k
or_mask true k acc h =
    let e : 2 ^ k ≡ 1 * 2 ^ k = omega arith in ap (bit_or acc) e ∙ bit_or_shifted k 1 acc h
or_mask false k acc h = omega arith

bit_value-lt : (b : Bool) → bit_value b < 2 ^ 1
bit_value-lt true = omega arith
bit_value-lt false = omega arith

next_mask : (k count : ℕ) → k + suc count ≤ 32 → 0 < count → 2 ^ k * 2 % 2 ^ 32 ≡ 2 ^ (k + 1)
next_mask k count fits more =
    let le : 2 ^ (k + 1) ≤ 2 ^ 31 =
      pow-le-pow_right {n = 2} (omega arith) {i = k + 1} {j = 31} (omega arith) in
    omega (arith, le, pow_add k 1)

shift_sum : (acc v f p q : ℕ) → q ≡ p * 2 ^ 1 → acc + v * p + f * q ≡ acc + (v + 2 * f) * p
shift_sum acc v f p q e = rw e (omega arith)

ack_bits-held :
    (count k mask acc : ℕ) (m : AckManager)
    → k + count ≤ 32
    → acc < 2 ^ k
    → (0 < count → mask ≡ 2 ^ k)
    → ack_bits count (k + 1) mask acc m ≡ acc + from_bits (held m (k + 1) count) * 2 ^ k
unfolding ack_bits held from_bits
ack_bits-held zero k mask acc m fits small at = omega arith
ack_bits-held (suc count) k mask acc m fits small at =
    let b : Bool = exists m.received_packets (wrapping_sub m.last_recv_packet_index (k + 1)) in
    let here = or_mask b k acc small in
    let v : ℕ = bit_value b in
    let f : ℕ = from_bits (held m (k + 1 + 1) count) in
    let ih =
      ack_bits-held count (k + 1) (2 ^ k * 2 % 2 ^ 32) (acc + v * 2 ^ k) m (omega arith)
        (fields-lt acc k v 1 small (bit_value-lt b)) (next_mask k count fits) in
    rw (at (omega arith), here) (ih ∙ shift_sum acc v f (2 ^ k) (2 ^ (k + 1)) (pow_add k 1))

-- Bit `i` of the bitfield of 32 bits tells whether the packet `i + 1` before the last one received
-- is held.
pub ack_bitfield-held :
    (m : AckManager)
    → (ack_bitfield m < 2 ^ 32)
      × (to_bits 32 (ack_bitfield m) ≡ held m 1 redundant_packet_acks_size)
unfolding ack_bitfield
ack_bitfield-held m =
    let bits : List Bool = held m 1 redundant_packet_acks_size in
    let n : length bits ≡ 32 = length-held m 1 redundant_packet_acks_size in
    let e : ack_bits 32 1 1 0 m ≡ from_bits bits =
      ack_bits-held 32 0 1 0 m (omega arith) (omega arith) (λ _. refl) ∙ (omega arith) in
    let lt : from_bits bits < 2 ^ 32 = rw n at (from_bits-lt bits) in
    (rw e lt, rw e (ap (λ (k : ℕ). to_bits k (from_bits bits)) (sym n) ∙ to_bits-from_bits bits))
