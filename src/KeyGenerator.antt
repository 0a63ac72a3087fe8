-- ===== src/KeyGenerator.antt =====
-- shared/src/key_generator.rs: KeyGenerator, which gives out u16 keys and gives them out again some
-- time after they are recycled. An Instant and a Duration are numbers.
pub mod Unique
use naia.Base.{ℕ, ◌+◌, ◌-◌, Bool, List, [], ◌∷◌, ◌++◌, ltb, if◌then◌else◌}
use naia.Base.Outcome.{Outcome, ok, panic}

pub record KeyGenerator : Type 0 where
  pub recycling_keys : List (ℕ × ℕ)
  pub recycled_keys : List ℕ
  pub recycle_timeout : ℕ
  pub next_new_key : ℕ

unfoldable pub new_generator : ℕ → KeyGenerator
new_generator recycle_timeout = record {
  recycling_keys = [];
  recycled_keys = [];
  recycle_timeout = recycle_timeout;
  next_new_key = 0;
}

-- The loop of `generate`: the keys whose time has passed may be given out again.
unfoldable pub recycle_due : ℕ → ℕ → List (ℕ × ℕ) → List ℕ → List (ℕ × ℕ) × List ℕ
recycle_due now timeout [] recycled = ([], recycled)
recycle_due now timeout ((key, instant) ∷ keys) recycled =
    let rest = recycle_due now timeout keys (recycled ++ (key ∷ [])) in
    if ltb (now - instant) timeout then ((key, instant) ∷ keys, recycled) else rest

-- A recycled key, or else a new one, with `checked_add` on a u16.
unfoldable pub take_key : List ℕ → KeyGenerator → Outcome (ℕ × KeyGenerator)
take_key (key ∷ keys) g = ok (key, record g { recycled_keys = keys })
take_key [] g =
    if ltb g.next_new_key 65535
    then ok (g.next_new_key, record g { next_new_key = g.next_new_key + 1 })
    else panic

unfoldable pub generate : ℕ → KeyGenerator → Outcome (ℕ × KeyGenerator)
generate now g =
    let due = recycle_due now g.recycle_timeout g.recycling_keys g.recycled_keys in
    take_key due.1 (record g { recycling_keys = due.0; recycled_keys = due.1 })

unfoldable pub recycle_key : ℕ → ℕ → KeyGenerator → KeyGenerator
recycle_key now key g = record g { recycling_keys = g.recycling_keys ++ ((key, now) ∷ []) }
