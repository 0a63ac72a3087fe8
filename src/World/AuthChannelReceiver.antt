-- ===== src/World/AuthChannelReceiver.antt =====
-- shared/src/world/sync/auth_channel_receiver.rs: AuthChannelReceiver, which hands the messages about
-- publication and authority on in the order of their subcommand ids, a u8 that wraps.
pub mod InOrder
use naia.Base.{
  ℕ, zero, suc, ◌+◌, ◌-◌, ◌*◌, ◌/◌, ◌%◌, ◌^◌, ◌≤◌, ◌<◌, min, max, bit_and, bit_or, ◌≡◌, refl, sym,
  ap, ◌∙◌, ◌≢◌, ◌↔◌, ◌⊎◌, inl, inr, Bool, true, false, not, ◌&&◌, ◌||◌, Option, none, some, List,
  [], ◌∷◌, ◌++◌, map, append_assoc, append-nil, arith, ltb, leb, ◌==◌, if◌then◌else◌, length,
  get_elem?, set, get_or, take, drop, replicate, All,
}
use naia.Base.Outcome.{Outcome, ok, panic, ◌>>=◌}
use naia.Sequence.{wrapping_add_u8}
use naia.World.EntityMessage.{EntityMessage, subcommand_id}
use naia.World.EntityChannelState.{EntityChannelState, spawned, is_spawned}
use naia.World.OrderedIds.{OrderedIds, no_ids, push_back, pop_front_until_and_including}

abbrev pub Message : Type 0
Message = EntityMessage (Unit {0})

pub record AuthChannelReceiver : Type 0 where
  pub next_subcommand_id : ℕ
  pub buffered_messages : OrderedIds Message
  pub incoming_messages : List Message

unfoldable pub new_receiver : AuthChannelReceiver
new_receiver = record { next_subcommand_id = 0; buffered_messages = no_ids; incoming_messages = [] }

unfoldable pub set_next_subcommand_id : ℕ → AuthChannelReceiver → AuthChannelReceiver
set_next_subcommand_id id r = record r { next_subcommand_id = id }

unfoldable pub drain_receiver_into :
    List Message → AuthChannelReceiver → List Message × AuthChannelReceiver
drain_receiver_into outgoing r =
    (outgoing ++ r.incoming_messages, record r { incoming_messages = [] })

unfoldable pub buffer_pop_front_until_and_including : ℕ → AuthChannelReceiver → AuthChannelReceiver
buffer_pop_front_until_and_including id r = record r {
  buffered_messages = pop_front_until_and_including id r.buffered_messages;
}

-- The next id, what stays buffered, and what has come in.
abbrev Round : Type 0
Round = ℕ × List (ℕ × Message) × List Message

-- The branch of the loop on the subcommand id of the front message.
abbrev pub on_subcommand : ℕ → Option ℕ → Outcome Round → Outcome Round → Outcome Round
on_subcommand next none move stay = panic
on_subcommand next (some id) move stay = if id == next then move else stay

-- The loop of `process_messages`: each round takes the front message.
unfoldable pub process_loop : ℕ → List (ℕ × Message) → List Message → Outcome Round
process_loop next [] incoming = ok (next, [], incoming)
process_loop next ((id, msg) ∷ rest) incoming =
    let move = process_loop (wrapping_add_u8 next 1) rest (incoming ++ (msg ∷ [])) in
    on_subcommand next (subcommand_id msg) move (ok (next, (id, msg) ∷ rest, incoming))

abbrev pub after_round : AuthChannelReceiver → Round → AuthChannelReceiver
after_round r (next, items, incoming) = record {
  next_subcommand_id = next;
  buffered_messages = record { inner = items };
  incoming_messages = incoming;
}

abbrev pub may_process : Option EntityChannelState → Bool
may_process none = true
may_process (some state) = is_spawned state

unfoldable pub process_messages :
    Option EntityChannelState → AuthChannelReceiver → Outcome AuthChannelReceiver
unfolding process_loop
process_messages entity_state r =
    if may_process entity_state
    then process_loop r.next_subcommand_id r.buffered_messages.inner r.incoming_messages
      >>= (λ round. ok (after_round r round))
    else ok r

unfoldable pub receive_message :
    Option EntityChannelState → ℕ → Message → AuthChannelReceiver → Outcome AuthChannelReceiver
unfolding process_messages
receive_message entity_state id msg r =
    process_messages entity_state
      (record r { buffered_messages = push_back id msg r.buffered_messages })
