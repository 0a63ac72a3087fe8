-- ===== src/Connection/AckManager/Acknowledged.antt =====
-- What an outgoing header acknowledges, in numbers that do not wrap: `top` is one more than the
-- highest number received, 65536 being the first.
use naia.Base.{
  ℕ, zero, suc, ◌+◌, ◌-◌, ◌%◌, ◌<◌, max, ◌≡◌, refl, ap, ◌∙◌, ◌⊎◌, inl, inr, true, false, arith, ltb,
  if◌then◌else◌, length, get_or, dec_le, lt→ltb, ltb-false,
}
use naia.Serde.Bits.{to_bits}
use naia.Sequence.{wrapping_sub, sequence_greater_than}
use naia.Sequence.Order.{greater-unwrapped}
use naia.Connection.PacketType.{PacketType}
use naia.Connection.SequenceBuffer.{exists, with_capacity}
use naia.Connection.SequenceBuffer.Received.{Tracks, with_capacity-Tracks, exists-Received}
use naia.Connection.SequenceBuffer.Insert.{insert-Tracks}
use naia.Connection.SequenceBuffer.Present.{insert-length}
use naia.Connection.AckManager.{
  AckManager, new, receive_packet, next_outgoing_packet_header, redundant_packet_acks_size,
}
use naia.Connection.AckManager.Bitfield.{held, ack_bitfield-held}

pub record Follows (Received : ℕ → Type 0) (top : ℕ) (m : AckManager) : Type 0 where
  pub tracks : Tracks Received top m.received_packets
  pub slots : length m.received_packets.entry_sequences ≡ redundant_packet_acks_size + 1
  pub last : m.last_recv_packet_index ≡ (top + 65535) % 65536
  pub highest : (top ≡ 65536) ⊎ Received (top - 1)

pub new-Follows : Follows (λ n. ⊥) 65536 new
unfolding new with_capacity
new-Follows = record {
  tracks = with_capacity-Tracks {T = Unit} (λ n. ⊥) 33 (omega arith) (omega arith);
  slots = refl;
  last = refl;
  highest = inl refl;
}

-- The number `n` arrives, in any order, away from the top by less than half the range.
pub receive_packet-Follows :
    (Received : ℕ → Type 0) (top n : ℕ) (m : AckManager)
    → Follows Received top m
    → n + 33 < top + 32768
    → top < n + 32768
    → Follows (λ k. Received k ⊎ (k ≡ n)) (max top (n + 1)) (receive_packet (n % 65536) m)
unfolding receive_packet
receive_packet-Follows Received top n m h close late =
    let (last, highest) = last_cases in
    record {
      tracks =
          insert-Tracks Received top m.received_packets n tt h.tracks (omega (arith, h.slots))
            (omega arith);
      slots =
          insert-length Received top m.received_packets n tt h.tracks (omega arith) (omega arith)
          ∙ h.slots;
      last = last;
      highest = highest;
    }
  where
    test : sequence_greater_than (n % 65536) m.last_recv_packet_index ≡ ltb (top - 1) n
    test =
        let at : m.last_recv_packet_index ≡ (top - 1) % 65536 =
          omega (arith, h.last, h.tracks.first_turn) in
        ap (sequence_greater_than (n % 65536)) at
        ∙ greater-unwrapped n (top - 1) (omega arith) (omega (arith, h.tracks.first_turn))

    last_cases :
        ((if sequence_greater_than (n % 65536) m.last_recv_packet_index
            then n % 65536
            else m.last_recv_packet_index)
          ≡ (max top (n + 1) + 65535) % 65536)
        × ((max top (n + 1) ≡ 65536) ⊎ (Received (max top (n + 1) - 1) ⊎ (max top (n + 1) - 1 ≡ n)))
    last_cases = elim (dec_le top n) [
      | yes le ↦
          let t : ltb (top - 1) n ≡ true = lt→ltb _ _ (omega (arith, h.tracks.first_turn)) in
          (rw (test, t) (omega arith), inr (inr (omega arith)))
      | no lt ↦
          let t : ltb (top - 1) n ≡ false = ltb-false _ _ (omega arith) in
          let p : max top (n + 1) ≡ top = omega arith in
          (
            rw (test, t, p) h.last,
            elim h.highest [ inl first ↦ inl (omega arith) | inr r ↦ inr (inl (rw p r)) ],
          )
    ]

pub Follows-same :
    (Received : ℕ → Type 0) (top : ℕ) (m m' : AckManager)
    → Follows Received top m
    → m'.received_packets ≡ m.received_packets
    → m'.last_recv_packet_index ≡ m.last_recv_packet_index
    → Follows Received top m'
Follows-same Received top m m' h b l = record {
  tracks = rw b h.tracks;
  slots = rw b h.slots;
  last = l ∙ h.last;
  highest = h.highest;
}

held-get_or :
    (m : AckManager) (i count j : ℕ)
    → get_or (held m i count) j false ≡ true
    → exists m.received_packets (wrapping_sub m.last_recv_packet_index (i + j)) ≡ true
unfolding held
held-get_or m i zero j e = cc
held-get_or m i (suc count) zero e =
    ap (λ (k : ℕ). exists m.received_packets (wrapping_sub m.last_recv_packet_index k))
      (omega arith)
    ∙ e
held-get_or m i (suc count) (suc j) e =
    ap (λ (k : ℕ). exists m.received_packets (wrapping_sub m.last_recv_packet_index k))
      (omega arith)
    ∙ held-get_or m (i + 1) count j e

-- No packet is acknowledged that was not received: with `top - 1` the highest number received, a
-- header that goes out names it as `sender_ack_index`, and for each bit `i` that is set in the
-- bitfield, the number `top - 2 - i` was received.
pub acknowledged-Received :
    (Received : ℕ → Type 0) (top : ℕ) (m : AckManager) (t : PacketType)
    → Follows Received top m
    → ((next_outgoing_packet_header t m).0.sender_ack_index ≡ (top - 1) % 65536)
      × ((top ≡ 65536) ⊎ Received (top - 1))
      × ((i : ℕ)
          → i < 32
          → get_or (to_bits 32 (next_outgoing_packet_header t m).0.sender_ack_bitfield) i false
            ≡ true
          → Received (top - 2 - i))
unfolding next_outgoing_packet_header
acknowledged-Received Received top m t h = (
  omega (arith, h.last, h.tracks.first_turn),
  h.highest,
  λ i small set_bit.
      let e : exists m.received_packets (wrapping_sub m.last_recv_packet_index (1 + i)) ≡ true =
        held-get_or m 1 32 i (rw (ack_bitfield-held m).1 at set_bit) in
      let p : wrapping_sub m.last_recv_packet_index (1 + i) ≡ (top - 2 - i) % 65536 =
        omega (arith, h.last, h.tracks.first_turn) in
      exists-Received Received top m.received_packets (top - 2 - i) h.tracks (omega arith)
        (omega (arith, h.tracks.first_turn)) (rw p at e),
)
