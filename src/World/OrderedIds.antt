-- ===== src/World/OrderedIds.antt =====
-- shared/src/world/sync/ordered_ids.rs: OrderedIds, items in the order of their wrapping ids.
pub mod Order
pub mod Numbers
use naia.Base.{
  ℕ, zero, suc, ◌+◌, ◌-◌, ◌*◌, ◌/◌, ◌%◌, ◌^◌, ◌≤◌, ◌<◌, min, max, bit_and, bit_or, ◌≡◌, refl, sym,
  ap, ◌∙◌, ◌≢◌, ◌↔◌, ◌⊎◌, inl, inr, Bool, true, false, not, ◌&&◌, ◌||◌, Option, none, some, List,
  [], ◌∷◌, ◌++◌, map, append_assoc, append-nil, arith, ltb, leb, ◌==◌, if◌then◌else◌, length,
  get_elem?, set, get_or, take, drop, replicate, All,
}
use naia.Sequence.{sequence_less_than}

pub record OrderedIds (P : Type 0) : Type 0 where
  pub inner : List (ℕ × P)

module _ {P : Type 0} where
  abbrev pub no_ids : OrderedIds P
  no_ids = record { inner = [] }

  -- An item goes behind the last one with a smaller id, if there is one behind this one.
  abbrev pub behind_last :
      ℕ × P → ℕ × P → List (ℕ × P) → Option (List (ℕ × P)) → Option (List (ℕ × P))
  behind_last old new rest (some rest') = some (old ∷ rest')
  behind_last old new rest none =
      if sequence_less_than old.0 new.0 then some (old ∷ new ∷ rest) else none

  -- The loop of `push_back` over all but the front: the last item is looked at first. None where no
  -- item has a smaller id.
  unfoldable pub insert_behind : ℕ × P → List (ℕ × P) → Option (List (ℕ × P))
  insert_behind new [] = none
  insert_behind new (old ∷ rest) = behind_last old new rest (insert_behind new rest)

  abbrev pub or_front : ℕ × P → List (ℕ × P) → Option (List (ℕ × P)) → List (ℕ × P)
  or_front new items none = new ∷ items
  or_front new items (some items') = items'

  -- The loop of `push_back`, which ends at the front.
  unfoldable pub push_loop : ℕ × P → List (ℕ × P) → List (ℕ × P)
  push_loop new items = or_front new items (insert_behind new items)

  unfoldable pub push_back : ℕ → P → OrderedIds P → OrderedIds P
  unfolding push_loop
  push_back message_index item o = record o { inner = push_loop (message_index, item) o.inner }

  unfoldable pub peek_front : OrderedIds P → Option (ℕ × P)
  peek_front o = elim o.inner [ [] ↦ none | item ∷ rest ↦ some item ]

  unfoldable pub pop_front : OrderedIds P → Option (ℕ × P) × OrderedIds P
  pop_front o = elim o.inner [
    | [] ↦ (none, o)
    | item ∷ rest ↦ (some item, record o { inner = rest })
  ]

  unfoldable pub pop_loop : ℕ → Bool → List (ℕ × P) → List (ℕ × P)
  pop_loop index including [] = []
  pop_loop index including ((old_index, item) ∷ rest) =
      let popped = pop_loop index including rest in
      if sequence_less_than old_index index || (including && old_index == index)
      then popped
      else (old_index, item) ∷ rest

  unfoldable pub pop_front_until : ℕ → Bool → OrderedIds P → OrderedIds P
  unfolding pop_loop
  pop_front_until index including o = record o { inner = pop_loop index including o.inner }

  unfoldable pub pop_front_until_and_including : ℕ → OrderedIds P → OrderedIds P
  unfolding pop_front_until
  pop_front_until_and_including index o = pop_front_until index true o

  unfoldable pub pop_front_until_and_excluding : ℕ → OrderedIds P → OrderedIds P
  unfolding pop_front_until
  pop_front_until_and_excluding index o = pop_front_until index false o

  unfoldable pub clear_ids : OrderedIds P → OrderedIds P
  clear_ids o = record o { inner = [] }
