-- ===== src/Connection/AckManager/Incoming.antt =====
-- What an incoming header does to the packets that were sent.
use naia.Base.{
  ℕ, ◌+◌, ◌-◌, ◌≡◌, refl, ap, ◌∙◌, ◌≢◌, Bool, true, false, ◌&&◌, ◌||◌, none, List, [], arith, leb,
  ◌==◌, if◌then◌else◌, ℕ_discrete, ==_refl, ==_false,
}
use naia.Base.Assoc.{lookup}
use naia.Base.Outcome.{ok}
use naia.Sequence.{IsU16}
use naia.Connection.Header.{StandardHeader}
use naia.Connection.AckManager.{AckManager, receive_packet, process_incoming_header}
use naia.Connection.AckManager.Deliveries.{
  occurrences, is_tracked_data, as_number, Monitors, Resolved, resolve-Resolved, is_some_data,
}
use naia.Connection.AckManager.Processing.{age, in_rounds, bit_of, Rounds, resolve_bits-Rounds}

-- The header acknowledges the packet: it is the one named, or the bit of its age is set.
abbrev pub acknowledges : StandardHeader → ℕ → Bool
acknowledges header n =
    let d = age header.sender_ack_index n in
    d == 0 || ((leb 1 d && leb d 32) && bit_of header.sender_ack_bitfield (d - 1))

-- The header says of the packet whether it arrived.
abbrev pub reports : StandardHeader → ℕ → Bool
reports header n = leb (age header.sender_ack_index n) 32

receive_packet-monitor :
    (n : ℕ) (m : AckManager) → (receive_packet n m).loss_monitor ≡ m.loss_monitor
unfolding receive_packet
receive_packet-monitor n m = refl

receive_packet-sent : (n : ℕ) (m : AckManager) → (receive_packet n m).sent_packets ≡ m.sent_packets
unfolding receive_packet
receive_packet-sent n m = refl

-- `m'` and `delivered` are what `m` and a header result in.
pub record Processed (header : StandardHeader) (m m' : AckManager) (delivered : List ℕ)
    : Type 0 where
  pub monitors : Monitors m'
  pub counts :
      (n : ℕ)
      → IsU16 n
      → occurrences n delivered ≡ as_number (acknowledges header n && is_tracked_data m n)
  pub sent :
      (n : ℕ)
      → IsU16 n
      → lookup n m'.sent_packets ≡ (if reports header n then none else lookup n m.sent_packets)
  pub same_buffer :
      m'.received_packets ≡ (receive_packet header.sender_packet_index m).received_packets
  pub same_last :
      m'.last_recv_packet_index
      ≡ (receive_packet header.sender_packet_index m).last_recv_packet_index

later_acknowledges :
    (d : ℕ) (b t : Bool)
    → d ≢ 0
    → (in_rounds 32 1 d && (b && t)) ≡ ((d == 0 || ((leb 1 d && leb d 32) && b)) && t)
later_acknowledges d true true ne = ground arith
later_acknowledges d true false ne = ground arith
later_acknowledges d false true ne = ground arith
later_acknowledges d false false ne = ground arith

zero_plus : (n : ℕ) → 0 + n ≡ n
zero_plus n = omega arith

both-Processed :
    (header : StandardHeader) (m m1 m2 : AckManager) (d1 d2 : List ℕ)
    → IsU16 header.sender_ack_index
    → Resolved header.sender_ack_index true (receive_packet header.sender_packet_index m) [] m1 d1
    → Rounds 32 1 header.sender_ack_index header.sender_ack_bitfield m1 d1 m2 d2
    → Processed header m m2 d2
unfolding occurrences
both-Processed header m m1 m2 d1 d2 small r1 r2 = record {
  monitors = r2.monitors;
  counts = counts;
  sent = sent;
  same_buffer = r2.same_buffer ∙ r1.same_buffer;
  same_last = r2.same_last ∙ r1.same_last;
}
  where
    k : ℕ
    k = header.sender_ack_index

    sent :
        (n : ℕ)
        → IsU16 n
        → lookup n m2.sent_packets ≡ (if reports header n then none else lookup n m.sent_packets)
    sent n hn = elim (ℕ_discrete k n) [
      | yes here ↦
          let a : age k n ≡ 0 = omega arith in
          let g : lookup n m1.sent_packets ≡ none = rw (← here) r1.gone in
          let r = rw (a, g) at (r2.sent n hn) in rw a r
      | no there ↦
          let a : age k n ≢ 0 = λ p. there (omega arith) in
          let same : in_rounds 32 1 (age k n) ≡ leb (age k n) 32 = ground arith in
          let kept =
            r1.kept n there ∙ ap (lookup n) (receive_packet-sent header.sender_packet_index m) in
          r2.sent n hn ∙ rw (same, kept)
    ]

    counts :
        (n : ℕ)
        → IsU16 n
        → occurrences n d2 ≡ as_number (acknowledges header n && is_tracked_data m n)
    counts n hn = elim (ℕ_discrete k n) [
      | yes here ↦
          let a : age k n ≡ 0 = omega arith in
          let first =
            rw (here, ==_refl n, receive_packet-sent header.sender_packet_index m) at
              (r1.counts n) in
          let rest = rw a at (r2.counts n hn) in rw a (omega (arith, first, rest))
      | no there ↦
          let none_yet : occurrences n d1 ≡ 0 = rw (==_false k n there) at (r1.counts n) in
          let t : is_tracked_data m1 n ≡ is_tracked_data m n =
            ap is_some_data (
              r1.kept n there ∙ ap (lookup n) (receive_packet-sent header.sender_packet_index m)) in
          r2.counts n hn
          ∙ rw (none_yet, t)
              (zero_plus _
                ∙ ap as_number (
                    later_acknowledges (age k n) (bit_of header.sender_ack_bitfield (age k n - 1))
                      (is_tracked_data m n) (λ p. there (omega arith))))
    ]

-- From a manager whose loss monitor has recorded some history, a header is processed without a
-- panic. A packet index is then reported as delivered once if the header acknowledges it and it is
-- that of a data packet sent and still tracked, and else not at all; and what the manager tracks
-- are the packets tracked before of which the header says nothing.
pub process_incoming_header-Processed :
    (header : StandardHeader) (m : AckManager)
    → IsU16 header.sender_ack_index
    → Monitors m
    → (m' : AckManager) × (delivered : List ℕ) × (process_incoming_header header m
        ≡ ok (m', delivered))
      × Processed header m m' delivered
unfolding process_incoming_header
process_incoming_header-Processed header m small h =
    let h1 : Monitors (receive_packet header.sender_packet_index m) =
      rw (receive_packet-monitor header.sender_packet_index m) h in
    let (m1, d1, e1, r1) =
      resolve-Resolved header.sender_ack_index true (receive_packet header.sender_packet_index m) []
        h1 in
    let (m2, d2, e2, r2) =
      resolve_bits-Rounds 32 1 header.sender_ack_index header.sender_ack_bitfield m1 d1 small
        (omega arith) (omega arith) r1.monitors in
    (m2, d2, rw (e1, e2), both-Processed header m m1 m2 d1 d2 small r1 r2)
