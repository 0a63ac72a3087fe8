-- ===== src/Connection/PingStore.antt =====
-- shared/src/connection/ping_store.rs: PingStore, when the last pings were sent. A GameInstant is a
-- number.
pub mod Answered
use naia.Base.{ℕ, Bool, Option, none, some, List, [], ◌∷◌, take, ◌==◌, if◌then◌else◌}
use naia.Sequence.{wrapping_add, sequence_greater_than}

abbrev pub sent_pings_history_size : ℕ
sent_pings_history_size = 32

pub record PingStore : Type 0 where
  pub ping_index : ℕ
  pub buffer : List (ℕ × ℕ)

abbrev pub new_pings : PingStore
new_pings = record { ping_index = 0; buffer = [] }

-- The buffer is pruned at its back.
unfoldable pub push_new : ℕ → PingStore → ℕ × PingStore
push_new now s = (
  s.ping_index,
  record {
    ping_index = wrapping_add s.ping_index 1;
    buffer = take sent_pings_history_size ((s.ping_index, now) ∷ s.buffer);
  },
)

-- How far the loop of `remove`, from the back, has come: past some entries, to an entry that is too
-- big, or to the entry that it looks for, with the time and the entries without it.
pub data Scan : Type 0 where
  passed gave_up : Scan
  found : ℕ → List (ℕ × ℕ) → Scan

unfoldable pub scan_next : ℕ → ℕ × ℕ → List (ℕ × ℕ) → Scan → Scan
scan_next ping_index entry behind (found instant rest) = found instant (entry ∷ rest)
scan_next ping_index entry behind gave_up = gave_up
scan_next ping_index (old_index, instant) behind passed =
    if old_index == ping_index
    then found instant behind
    else if sequence_greater_than old_index ping_index
    then gave_up
    else passed

unfoldable pub scan_pings : ℕ → List (ℕ × ℕ) → Scan
scan_pings ping_index [] = passed
scan_pings ping_index (entry ∷ behind) =
    scan_next ping_index entry behind (scan_pings ping_index behind)

abbrev pub remove_scanned : PingStore → Scan → Option ℕ × PingStore
remove_scanned s (found instant rest) = (some instant, record s { buffer = rest })
remove_scanned s gave_up = (none, s)
remove_scanned s passed = (none, s)

unfoldable pub remove_ping : ℕ → PingStore → Option ℕ × PingStore
remove_ping ping_index s = remove_scanned s (scan_pings ping_index s.buffer)

unfoldable pub clear_pings : PingStore → PingStore
clear_pings s = record s { buffer = [] }
