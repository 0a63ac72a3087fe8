-- ===== src/Tests/PingRuns.antt =====
-- Runs of a PingStore.
use naia.Base.{◌≡◌, ◌≤◌, ◌%◌, refl, none, some, [], ◌∷◌, map, arith, length}
use naia.Sequence.{sequence_greater_than}
use naia.Connection.PingStore.{PingStore, new_pings, push_new, scan_pings, scan_next, remove_ping}
use naia.Connection.PingStore.Answered.{wrap, remove_ping-found, begins, pushes, PingRun-bounded}

abbrev three_pings : PingStore
three_pings = record { ping_index = 3; buffer = (2, 50) ∷ (1, 40) ∷ (0, 30) ∷ [] }

remove_ping-found_example :
    remove_ping (1 % 65536) three_pings
    ≡ (some 40, record three_pings { buffer = map wrap ((2, 50) ∷ (0, 30) ∷ []) })
remove_ping-found_example =
    remove_ping-found 1 40 ((2, 50) ∷ []) ((0, 30) ∷ []) three_pings
      ((omega arith, omega arith), tt) refl

PingRun-bounded_example : length (push_new 30 new_pings).1.buffer ≤ 32
PingRun-bounded_example = PingRun-bounded (push_new 30 new_pings).1 (pushes 30 new_pings begins)

abbrev one_unanswered : PingStore
one_unanswered = record { ping_index = 40001; buffer = (40000, 50) ∷ (0, 30) ∷ [] }

-- A ping that nobody answered, from 40000 pings ago, hides the last one.
hidden : remove_ping 40000 one_unanswered ≡ (none, one_unanswered)
unfolding remove_ping scan_pings scan_next sequence_greater_than
hidden = refl
