-- ===== src/Connection/AckManager/History.antt =====
-- The histories of an AckManager.
use naia.Base.{
  ℕ, ◌+◌, ◌-◌, ◌%◌, ◌<◌, max, ◌≡◌, refl, sym, ◌∙◌, ◌⊎◌, true, false, List, [], ◌∷◌, get_or,
}
use naia.Base.Outcome.{ok}
use naia.Serde.Bits.{to_bits}
use naia.Sequence.{IsU16}
use naia.Connection.PacketType.{PacketType}
use naia.Connection.Header.{StandardHeader}
use naia.Connection.LossMonitor.Window.{new-Holds}
use naia.Connection.AckManager.{
  AckManager, new, receive_packet, process_incoming_header, next_outgoing_packet_header,
  track_packet, increment_local_packet_index,
}
use naia.Connection.AckManager.Deliveries.{Monitors}
use naia.Connection.AckManager.Acknowledged.{
  Follows, Follows-same, new-Follows, receive_packet-Follows, acknowledged-Received,
}
use naia.Connection.AckManager.Incoming.{process_incoming_header-Processed}
use mathlib.Core.Path.{subst}

-- A manager in use, from its creation on: headers arrive, with packet indices that are the numbers
-- given modulo 65536 (65536 for the first), and headers go out. A number that arrives is at most 32735
-- above the highest so far, or at most 32766 below it. One from farther ahead is too old for the
-- buffer but new for the manager, which can then acknowledge numbers that never arrived.
pub data Run : List ℕ → ℕ → AckManager → Type 0 where
  start : Run [] 65536 new
  arrive :
      {ns : List ℕ} {top n : ℕ} {m m' : AckManager} (header : StandardHeader) (delivered : List ℕ)
      → Run ns top m
      → IsU16 header.sender_ack_index
      → header.sender_packet_index ≡ n % 65536
      → n + 33 < top + 32768
      → top < n + 32768
      → process_incoming_header header m ≡ ok (m', delivered)
      → Run (n ∷ ns) (max top (n + 1)) m'
  depart :
      {ns : List ℕ} {top : ℕ} {m : AckManager} (t : PacketType)
      → Run ns top m
      → Run ns top (next_outgoing_packet_header t m).1

-- The number is one of the list.
abbrev pub IsIn : List ℕ → ℕ → Type 0
IsIn [] k = ⊥
IsIn (n ∷ ns) k = IsIn ns k ⊎ (k ≡ n)

pub new-Monitors : Monitors new
unfolding new
new-Monitors = ([], new-Holds)

pub depart-same :
    (t : PacketType) (m : AckManager)
    → ((next_outgoing_packet_header t m).1.received_packets ≡ m.received_packets)
      × ((next_outgoing_packet_header t m).1.last_recv_packet_index ≡ m.last_recv_packet_index)
      × ((next_outgoing_packet_header t m).1.loss_monitor ≡ m.loss_monitor)
unfolding next_outgoing_packet_header track_packet increment_local_packet_index
depart-same t m = (refl, refl, refl)

injection : {x y : AckManager × List ℕ} → ok x ≡ ok y → x.0 ≡ y.0
injection e = cc

-- In every history of an AckManager, its loss monitor has recorded some history, and it follows
-- the numbers that arrived.
Run-sound :
    {ns : List ℕ} {top : ℕ} {m : AckManager} → Run ns top m → Monitors m × Follows (IsIn ns) top m
Run-sound start = (new-Monitors, new-Follows)
Run-sound (arrive {ns} {top} {n} {m} {m'} header delivered r small at close late e) =
    let (monitors, follows) = Run-sound r in
    let (m1, d1, e1, p) = process_incoming_header-Processed header m small monitors in
    let same : m1 ≡ m' = injection (sym e1 ∙ e) in
    let f : Follows (IsIn (n ∷ ns)) (max top (n + 1))
        (receive_packet header.sender_packet_index m) =
      rw at (receive_packet-Follows (IsIn ns) top n m follows close late) in
    subst (λ (x : AckManager). Monitors x × Follows (IsIn (n ∷ ns)) (max top (n + 1)) x) same
      (p.monitors, Follows-same _ _ _ m1 f p.same_buffer p.same_last)
Run-sound (depart {ns} {top} {m} t r) =
    let (monitors, follows) = Run-sound r in
    let (b, l, k) = depart-same t m in (rw k monitors, Follows-same _ _ m _ follows b l)

-- In a history of a manager, from its creation on, in which every packet that arrives is at most 32735
-- above the highest so far, or at most 32766 below it (where before the first the number before it
-- counts as the highest): the next header that goes out acknowledges none but numbers that arrived. It
-- names the highest of them (or, before any, the number before the first), and where bit `i` of its
-- bitfield is set, the number `i + 1` below the highest arrived.
pub Run-acknowledges :
    (ns : List ℕ) (top : ℕ) (m : AckManager) (t : PacketType)
    → Run ns top m
    → ((next_outgoing_packet_header t m).0.sender_ack_index ≡ (top - 1) % 65536)
      × ((top ≡ 65536) ⊎ IsIn ns (top - 1))
      × ((i : ℕ)
          → i < 32
          → get_or (to_bits 32 (next_outgoing_packet_header t m).0.sender_ack_bitfield) i false
            ≡ true
          → IsIn ns (top - 2 - i))
Run-acknowledges ns top m t r = acknowledged-Received (IsIn ns) top m t (Run-sound r).1
