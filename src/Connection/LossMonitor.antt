-- ===== src/Connection/LossMonitor.antt =====
-- shared/src/connection/loss_monitor.rs: LossMonitor, a ring of the outcomes of the last 64 packets
-- with a running count.
pub mod Window
use naia.Base.{
  ℕ, zero, suc, ◌+◌, ◌-◌, ◌*◌, ◌/◌, ◌%◌, ◌^◌, ◌≤◌, ◌<◌, min, max, bit_and, bit_or, ◌≡◌, refl, sym,
  ap, ◌∙◌, ◌≢◌, ◌↔◌, ◌⊎◌, inl, inr, Bool, true, false, not, ◌&&◌, ◌||◌, Option, none, some, List,
  [], ◌∷◌, ◌++◌, map, append_assoc, append-nil, arith, ltb, leb, ◌==◌, if◌then◌else◌, length,
  get_elem?, set, get_or, take, drop, replicate, All,
}
use naia.Base.Outcome.{Outcome, ok, panic, ◌>>=◌}

abbrev pub window : ℕ
window = 64

pub record LossMonitor : Type 0 where
  pub outcomes : List Bool
  pub write_pos : ℕ
  pub total : ℕ
  pub acked_count : ℕ

unfoldable pub new : LossMonitor
new = record { outcomes = replicate window false; write_pos = 0; total = 0; acked_count = 0 }

-- A full ring gives up its oldest outcome. The subtraction is over usize.
unfoldable pub evict : LossMonitor → Outcome LossMonitor
evict m =
    if m.total == window
    then (if get_or m.outcomes m.write_pos false
        then (if leb 1 m.acked_count
            then ok (record m { acked_count = m.acked_count - 1 })
            else panic)
        else ok m)
    else ok (record m { total = m.total + 1 })

unfoldable pub record_outcome : Bool → LossMonitor → Outcome LossMonitor
unfolding evict
record_outcome acked m = do
  m' ← evict m
  ok (record m' {
    outcomes = set m'.outcomes m'.write_pos acked;
    acked_count = if acked then m'.acked_count + 1 else m'.acked_count;
    write_pos = (m'.write_pos + 1) % window;
  })

unfoldable pub record_acked : LossMonitor → Outcome LossMonitor
unfolding record_outcome
record_acked m = record_outcome true m

unfoldable pub record_lost : LossMonitor → Outcome LossMonitor
unfolding record_outcome
record_lost m = record_outcome false m

-- `packet_loss_pct` as a fraction: lost over total, and 0 over 1 for no packet.
unfoldable pub packet_loss : LossMonitor → ℕ × ℕ
packet_loss m = if m.total == 0 then (0, 1) else (m.total - m.acked_count, m.total)
