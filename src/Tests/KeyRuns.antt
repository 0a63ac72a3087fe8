-- ===== src/Tests/KeyRuns.antt =====
-- Runs of a KeyGenerator.
use naia.Base.{ℕ, ◌≡◌, refl, false, [], ◌∷◌}
use naia.Base.Outcome.{ok}
use naia.Base.Assoc.{contains}
use naia.KeyGenerator.{KeyGenerator, new_generator, recycle_due, take_key, generate, recycle_key}
use naia.KeyGenerator.Unique.{Used, starts, generates, recycles, generate_unique}

abbrev after_keys : ℕ → KeyGenerator
after_keys next = record {
  recycling_keys = [];
  recycled_keys = [];
  recycle_timeout = 5;
  next_new_key = next;
}

abbrev one_recycling : KeyGenerator
one_recycling = record (after_keys 2) { recycling_keys = (0, 1) ∷ [] }

one_recycling-Used : Used (1 ∷ []) one_recycling
unfolding generate recycle_due take_key new_generator recycle_key
one_recycling-Used =
    recycles 1 0 (1 ∷ []) [] (after_keys 2)
      (generates 0 1 (after_keys 2) (generates 0 0 (after_keys 1) (starts 5) refl) refl)

early : generate 2 one_recycling ≡ ok (2, record one_recycling { next_new_key = 3 })
unfolding generate recycle_due take_key
early = refl

recycled : generate 9 one_recycling ≡ ok (0, after_keys 2)
unfolding generate recycle_due take_key
recycled = refl

generate_unique_example : contains 0 (1 ∷ []) ≡ false
generate_unique_example =
    generate_unique (1 ∷ []) one_recycling (after_keys 2) 9 0 one_recycling-Used recycled
