-- ===== src/Connection/AckManager.antt =====
-- shared/src/connection/ack_manager.rs: AckManager. The packet notifiables are told the same
-- indices in the same order; what they are told is a list that the handler returns.
pub mod Bitfield
pub mod Acknowledged
pub mod Deliveries
pub mod Processing
pub mod Incoming
pub mod History
use naia.Base.{
  ℕ, zero, suc, ◌+◌, ◌-◌, ◌*◌, ◌/◌, ◌%◌, ◌^◌, ◌≤◌, ◌<◌, min, max, bit_and, bit_or, ◌≡◌, refl, sym,
  ap, ◌∙◌, ◌≢◌, ◌↔◌, ◌⊎◌, inl, inr, Bool, true, false, not, ◌&&◌, ◌||◌, Option, none, some, List,
  [], ◌∷◌, ◌++◌, map, append_assoc, append-nil, arith, ltb, leb, ◌==◌, if◌then◌else◌, length,
  get_elem?, set, get_or, take, drop, replicate, All,
}
use naia.Base.Assoc.{lookup, insert_key, remove_key}
use naia.Base.Outcome.{Outcome, ok, panic, ◌>>=◌}
use naia.Sequence.{wrapping_add, wrapping_sub, sequence_greater_than}
use naia.Connection.PacketType.{PacketType, is_data}
use naia.Connection.Header.{StandardHeader}
use naia.Connection.LossMonitor
use naia.Connection.LossMonitor.{LossMonitor, record_acked, record_lost}
use naia.Connection.SequenceBuffer.{SequenceBuffer, with_capacity, exists, insert}

abbrev pub redundant_packet_acks_size : ℕ
redundant_packet_acks_size = 32

pub record AckManager : Type 0 where
  pub next_packet_index : ℕ
  pub last_recv_packet_index : ℕ
  pub sent_packets : List (ℕ × PacketType)
  pub received_packets : SequenceBuffer Unit
  pub should_send_empty_ack : Bool
  pub loss_monitor : LossMonitor

unfoldable pub new : AckManager
new = record {
  next_packet_index = 0;
  last_recv_packet_index = 65535;
  sent_packets = [];
  received_packets = with_capacity (redundant_packet_acks_size + 1);
  should_send_empty_ack = false;
  loss_monitor = LossMonitor.new;
}

unfoldable pub mark_should_send_empty_ack : AckManager → AckManager
mark_should_send_empty_ack m = record m { should_send_empty_ack = true }

unfoldable pub clear_should_send_empty_ack : AckManager → AckManager
clear_should_send_empty_ack m = record m { should_send_empty_ack = false }

unfoldable pub take_should_send_empty_ack : AckManager → Bool × AckManager
take_should_send_empty_ack m = (m.should_send_empty_ack, record m { should_send_empty_ack = false })

-- A packet that the other side acknowledges or reports as missing, if it is still tracked.
unfoldable pub record_report : Bool → PacketType → LossMonitor → Outcome LossMonitor
record_report acked packet_type l =
    if is_data packet_type then (if acked then record_acked l else record_lost l) else ok l

unfoldable pub resolve : ℕ → Bool → AckManager × List ℕ → Outcome (AckManager × List ℕ)
unfolding record_report
resolve packet_index acked (m, delivered) = elim (lookup packet_index m.sent_packets) [
  | none ↦ ok (m, delivered)
  | some packet_type ↦ do
    loss_monitor ← record_report acked packet_type m.loss_monitor
    ok (
      record m {
        sent_packets = remove_key packet_index m.sent_packets;
        loss_monitor = loss_monitor;
      },
      if is_data packet_type && acked then delivered ++ (packet_index ∷ []) else delivered,
    )
]

-- The loop over the bitfield from bit `i - 1` on, of `count` rounds.
unfoldable pub resolve_bits : ℕ → ℕ → ℕ → ℕ → AckManager × List ℕ → Outcome (AckManager × List ℕ)
unfolding resolve
resolve_bits zero i ack_index bitfield s = ok s
resolve_bits (suc count) i ack_index bitfield s = do
  s' ← resolve (wrapping_sub ack_index i) (bit_and bitfield 1 == 1) s
  resolve_bits count (i + 1) ack_index (bitfield / 2) s'

-- The packet is noted as received.
unfoldable pub receive_packet : ℕ → AckManager → AckManager
receive_packet packet_index m = record m {
  received_packets = (insert packet_index tt m.received_packets).1;
  last_recv_packet_index =
      if sequence_greater_than packet_index m.last_recv_packet_index
      then packet_index
      else m.last_recv_packet_index;
}

unfoldable pub process_incoming_header : StandardHeader → AckManager → Outcome (AckManager × List ℕ)
unfolding receive_packet resolve_bits
process_incoming_header header m = do
  s ← resolve header.sender_ack_index true (receive_packet header.sender_packet_index m, [])
  resolve_bits redundant_packet_acks_size 1 header.sender_ack_index header.sender_ack_bitfield s

unfoldable pub track_packet : PacketType → ℕ → AckManager → AckManager
track_packet packet_type packet_index m = record m {
  sent_packets = insert_key packet_index packet_type m.sent_packets;
}

unfoldable pub increment_local_packet_index : AckManager → AckManager
increment_local_packet_index m = record m { next_packet_index = wrapping_add m.next_packet_index 1 }

-- The loop over the last packets received, of `count` rounds.
unfoldable pub ack_bits : ℕ → ℕ → ℕ → ℕ → AckManager → ℕ
ack_bits zero i mask bitfield m = bitfield
ack_bits (suc count) i mask bitfield m =
    ack_bits count (i + 1) (mask * 2 % 2 ^ 32)
      (if exists m.received_packets (wrapping_sub m.last_recv_packet_index i)
        then bit_or bitfield mask
        else bitfield)
      m

unfoldable pub ack_bitfield : AckManager → ℕ
unfolding ack_bits
ack_bitfield m = ack_bits redundant_packet_acks_size 1 1 0 m

unfoldable pub next_outgoing_packet_header : PacketType → AckManager → StandardHeader × AckManager
unfolding ack_bitfield track_packet increment_local_packet_index
next_outgoing_packet_header packet_type m = (
  record {
    packet_type = packet_type;
    sender_packet_index = m.next_packet_index;
    sender_ack_index = m.last_recv_packet_index;
    sender_ack_bitfield = ack_bitfield m;
  },
  increment_local_packet_index (track_packet packet_type m.next_packet_index m),
)
