-- ===== src/World/RemoteComponentChannel.antt =====
-- shared/src/world/sync/remote_component_channel.rs: RemoteComponentChannel, which turns the inserts
-- and removes of one component, as they arrive, into a sequence that can be applied.
pub mod Toggling
pub mod Converging
use naia.Base.{
  ℕ, zero, suc, ◌+◌, ◌-◌, ◌*◌, ◌/◌, ◌%◌, ◌^◌, ◌≤◌, ◌<◌, min, max, bit_and, bit_or, ◌≡◌, refl, sym,
  ap, ◌∙◌, ◌≢◌, ◌↔◌, ◌⊎◌, inl, inr, Bool, true, false, not, ◌&&◌, ◌||◌, Option, none, some, List,
  [], ◌∷◌, ◌++◌, map, append_assoc, append-nil, arith, ltb, leb, ◌==◌, if◌then◌else◌, length,
  get_elem?, set, get_or, take, drop, replicate, All,
}
use naia.Base.Outcome.{Outcome, ok, panic, ◌>>=◌}
use naia.Sequence.{sequence_equal_or_less_than}
use naia.World.EntityMessageType.{EntityMessageType}
use naia.World.EntityMessage.{
  EntityMessage, insert_component, remove_component, with_component_kind,
}
use naia.World.EntityChannelState.{EntityChannelState, spawned, is_spawned}
use naia.World.OrderedIds.{OrderedIds, no_ids, push_back, pop_front_until_and_excluding}
use naia.World.AuthChannelReceiver.{Message}

pub record RemoteComponentChannel : Type 0 where
  pub inserted : Bool
  pub last_epoch_id : Option ℕ
  pub buffered_messages : OrderedIds Bool
  pub incoming_messages : List EntityMessageType

unfoldable pub new : RemoteComponentChannel
new = record {
  inserted = false;
  last_epoch_id = none;
  buffered_messages = no_ids;
  incoming_messages = [];
}

-- The loop that gives the message types their component kind.
unfoldable pub with_kinds : ℕ → List EntityMessageType → Outcome (List Message)
with_kinds kind [] = ok []
with_kinds kind (t ∷ ts) = do
  message ← with_component_kind kind t
  messages ← with_kinds kind ts
  ok (message ∷ messages)

unfoldable pub drain_component_into :
    ℕ → List Message → RemoteComponentChannel → Outcome (List Message × RemoteComponentChannel)
unfolding with_kinds
drain_component_into kind outgoing c = do
  received ← with_kinds kind c.incoming_messages
  ok (outgoing ++ received, record c { incoming_messages = [] })

unfoldable pub buffer_pop_front_until_and_excluding :
    ℕ → RemoteComponentChannel → RemoteComponentChannel
buffer_pop_front_until_and_excluding id c = record c {
  buffered_messages = pop_front_until_and_excluding id c.buffered_messages;
}

unfoldable pub set_inserted : Bool → ℕ → RemoteComponentChannel → RemoteComponentChannel
set_inserted inserted id c = record c { inserted = inserted; last_epoch_id = some id }

unfoldable pub is_inserted : RemoteComponentChannel → Bool
is_inserted c = c.inserted

abbrev pub type_of : Bool → EntityMessageType
type_of true = EntityMessageType.insert_component
type_of false = EntityMessageType.remove_component

abbrev pub same_flag : Bool → Bool → Bool
same_flag true b = b
same_flag false b = not b

-- A round of the loops: the flag and the id are set, and the message type is handed on.
unfoldable pub toggle : Bool → ℕ → RemoteComponentChannel → RemoteComponentChannel
unfolding set_inserted
toggle insert id c = record (set_inserted insert id c) {
  incoming_messages = c.incoming_messages ++ (type_of insert ∷ []);
}

-- The loop of `process_messages`, over the buffered items: it stops at an insert of what is inserted
-- and at a remove of what is not.
unfoldable pub process_loop : List (ℕ × Bool) → RemoteComponentChannel → RemoteComponentChannel
unfolding toggle
process_loop [] c = record c { buffered_messages = record { inner = [] } }
process_loop ((id, insert) ∷ rest) c =
    let moved = process_loop rest (toggle insert id c) in
    if same_flag insert c.inserted
    then record c { buffered_messages = record { inner = (id, insert) ∷ rest } }
    else moved

unfoldable pub process_messages :
    EntityChannelState → RemoteComponentChannel → RemoteComponentChannel
unfolding process_loop
process_messages state c = if is_spawned state then process_loop c.buffered_messages.inner c else c

-- The guard against messages that are no newer than the last one that was valid.
abbrev pub is_stale : ℕ → Option ℕ → Bool
is_stale id none = false
is_stale id (some last_epoch_id) = sequence_equal_or_less_than id last_epoch_id

-- Whether a message inserts; other messages panic.
abbrev pub insert_of : Message → Outcome Bool
insert_of (insert_component e kind) = ok true
insert_of (remove_component e kind) = ok false
insert_of _ = panic

unfoldable pub accept_message :
    EntityChannelState → ℕ → Message → RemoteComponentChannel → Outcome RemoteComponentChannel
unfolding process_messages
accept_message state id msg c = if is_stale id c.last_epoch_id then ok c else (do
  insert ← insert_of msg
  ok (
      process_messages state
        (record c { buffered_messages = push_back id insert c.buffered_messages })))

-- The loop of `force_drain_buffers`.
unfoldable pub drain_loop : List (ℕ × Bool) → RemoteComponentChannel → RemoteComponentChannel
unfolding toggle
drain_loop [] c = record c { buffered_messages = record { inner = [] } }
drain_loop ((id, insert) ∷ rest) c = drain_loop rest (toggle insert id c)

unfoldable pub force_drain_buffers : RemoteComponentChannel → RemoteComponentChannel
unfolding drain_loop
force_drain_buffers c = drain_loop c.buffered_messages.inner c
