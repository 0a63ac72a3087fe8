-- ===== src/Tests/ConnectionRuns.antt =====
-- shared/src/connection on concrete input.
use naia.Base.{
  ℕ, ◌+◌, ◌-◌, ◌%◌, ◌^◌, ◌≤◌, ◌<◌, min, max, ◌≡◌, refl, ◌≢◌, ◌⊎◌, Bool, true, false, List, [], ◌∷◌,
  ◌++◌, arith, if◌then◌else◌, length, get_or, take, length-append,
}
use naia.Base.Outcome.{ok}
use naia.Serde.Bits.{to_bits}
use naia.Serde.Counter
use naia.Serde.Counter.{BitCounter, bit_counter, bits_needed}
use naia.Serde.Codec.Primitives.{uint_serde, uint_serde-IsSerde, uint-Fits, uint_bits-length}
use naia.Serde.Codec.Lists.{list_serde, ListFits, list_bits, items_bits}
use naia.Serde.Codec.Wire.{Arrives, list_over_wire}
use naia.Sequence.{sequence_less_than}
use naia.Connection.PacketType
use naia.Connection.PacketType.{PacketType, data_packet, ping, is_data, packet_type-bit_length}
use naia.Connection.Header.{StandardHeader, header_serde, header_over_wire}
use naia.Connection.LossMonitor.{LossMonitor, window}
use naia.Connection.LossMonitor.Window.{record_all, record_all-counts, count_acked}
use naia.Connection.SequenceBuffer.{SequenceBuffer, with_capacity, insert, exists, index}
use naia.Connection.SequenceBuffer.Received.{Tracks, with_capacity-Tracks}
use naia.Connection.SequenceBuffer.Present.{insert-Present}
use naia.Connection.AckManager
use naia.Connection.AckManager.{
  AckManager, process_incoming_header, next_outgoing_packet_header, ack_bitfield,
  redundant_packet_acks_size,
}
use naia.Connection.AckManager.Bitfield.{held, ack_bitfield-held}
use naia.Connection.AckManager.Incoming.{Processed, process_incoming_header-Processed}
use naia.Connection.AckManager.History.{Run, start, arrive, IsIn, Run-acknowledges, new-Monitors}
use naia.Serde.Number.Encode.{number_bits, chunk_bits}

-- A header that a client may send first: its packet 0, acknowledging nothing yet.
abbrev first_header : StandardHeader
first_header = record {
  packet_type = data_packet;
  sender_packet_index = 0;
  sender_ack_index = 65535;
  sender_ack_bitfield = 0;
}

header_over_wire_example : Arrives header_serde first_header
header_over_wire_example = header_over_wire first_header (omega arith)

packet_type-bit_length_example :
    (c : BitCounter) × (k : ℕ) × (PacketType.ser bit_counter ping (Counter.new 0 0 3440) ≡ ok c)
    × (bits_needed c ≡ ok k)
    × (PacketType.bit_length ping ≡ k + (if is_data ping then 0 else 2))
packet_type-bit_length_example = packet_type-bit_length ping 0 3440

record_all-counts_example :
    (m : LossMonitor) × (record_all (true ∷ false ∷ true ∷ []) ≡ ok m)
    × (m.total ≡ min window 3)
    × (m.acked_count ≡ count_acked (take window (true ∷ false ∷ true ∷ [])))
record_all-counts_example = record_all-counts (true ∷ false ∷ true ∷ [])

two_numbers-fit : ListFits 2 (uint_serde-IsSerde 2) (513 ∷ 7 ∷ [])
two_numbers-fit =
    ((uint-Fits 2 513 (omega arith), (uint-Fits 2 7 (omega arith), tt)), omega arith, omega arith)

two_numbers-short : length (list_bits 2 (uint_serde-IsSerde 2) (513 ∷ 7 ∷ [])) ≤ 3440
unfolding number_bits chunk_bits to_bits items_bits
two_numbers-short = omega (
  arith,
  uint_bits-length 2 513,
  uint_bits-length 2 7,
  length-append ((uint_serde-IsSerde 2).bits 513) ((uint_serde-IsSerde 2).bits 7 ++ []),
  length-append {A = Bool} ((uint_serde-IsSerde 2).bits 7) [],
)

list_over_wire_example : Arrives (list_serde 2 (uint_serde 2)) (513 ∷ 7 ∷ [])
list_over_wire_example =
    list_over_wire 2 (uint_serde 2) (uint_serde-IsSerde 2) (513 ∷ 7 ∷ []) two_numbers-fit
      two_numbers-short

abbrev slots : SequenceBuffer Unit
slots = with_capacity 33

slots-Tracks : Tracks (λ n. ⊥) 65536 slots
slots-Tracks = with_capacity-Tracks {T = Unit} (λ n. ⊥) 33 (omega arith) (omega arith)

slots-length : length slots.entry_sequences ≡ 33
unfolding with_capacity
slots-length = refl

accepted : (insert (65538 % 65536) tt slots).0 ≡ true
unfolding insert sequence_less_than with_capacity
accepted = refl

insert-Present_example :
    Tracks (λ m. ⊥ ⊎ (m ≡ 65538)) (max 65536 (65538 + 1)) (insert (65538 % 65536) tt slots).1
    × ((insert (65538 % 65536) tt slots).0 ≡ false → (insert (65538 % 65536) tt slots).1 ≡ slots)
    × ((insert (65538 % 65536) tt slots).0 ≡ true
        → (exists (insert (65538 % 65536) tt slots).1 (65538 % 65536) ≡ true)
          × ((m : ℕ)
              → 65538 < 65536 + length slots.entry_sequences
              → m < 65536
              → 65538 < m + 65536
              → index slots (65538 % 65536) ≢ index slots (m % 65536)
              → exists slots (m % 65536) ≡ true
              → exists (insert (65538 % 65536) tt slots).1 (m % 65536) ≡ true))
insert-Present_example =
    insert-Present (λ n. ⊥) 65536 slots 65538 tt slots-Tracks (omega (arith, slots-length))
      (omega arith)

process_incoming_header-Processed_example :
    (m' : AckManager) × (delivered : List ℕ) × (process_incoming_header first_header AckManager.new
      ≡ ok (m', delivered))
    × Processed first_header AckManager.new m' delivered
process_incoming_header-Processed_example =
    process_incoming_header-Processed first_header AckManager.new (omega arith) new-Monitors

abbrev after_first : AckManager
after_first =
    (process_incoming_header-Processed first_header AckManager.new (omega arith) new-Monitors).0

abbrev first_delivered : List ℕ
first_delivered =
    (process_incoming_header-Processed first_header AckManager.new (omega arith) new-Monitors).1

abbrev next_number : ℕ
next_number = 65537

one_arrival : Run (65536 ∷ []) next_number after_first
one_arrival =
    arrive {n = 65536} first_header first_delivered start (omega arith) refl (omega arith)
      (omega arith)
      (process_incoming_header-Processed first_header AckManager.new (omega arith) new-Monitors).2

Run-acknowledges_example :
    ((next_outgoing_packet_header data_packet after_first).0.sender_ack_index
      ≡ (next_number - 1) % 65536)
    × ((next_number ≡ 65536) ⊎ IsIn (65536 ∷ []) (next_number - 1))
    × ((i : ℕ)
        → i < 32
        → get_or
            (to_bits 32 (next_outgoing_packet_header data_packet after_first).0.sender_ack_bitfield)
            i
            false
          ≡ true
        → IsIn (65536 ∷ []) (next_number - 2 - i))
Run-acknowledges_example =
    Run-acknowledges (65536 ∷ []) next_number after_first data_packet one_arrival

ack_bitfield-held_example :
    (ack_bitfield AckManager.new < 2 ^ 32)
    × (to_bits 32 (ack_bitfield AckManager.new) ≡ held AckManager.new 1 redundant_packet_acks_size)
ack_bitfield-held_example = ack_bitfield-held AckManager.new
