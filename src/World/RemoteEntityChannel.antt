-- ===== src/World/RemoteEntityChannel.antt =====
-- shared/src/world/sync/remote_entity_channel.rs: RemoteEntityChannel, which brings the messages about
-- one entity, as they arrive, into an order in which they can be applied. The HashMap of the
-- component channels is an association list, gone through in the order of the list.
pub mod Migration
pub mod Ending
pub mod Receiving
pub mod Lifetime
pub mod Rounds
pub mod Progress
pub mod Branches
use naia.Base.{
  ℕ, zero, suc, ◌+◌, ◌-◌, ◌*◌, ◌/◌, ◌%◌, ◌^◌, ◌≤◌, ◌<◌, min, max, bit_and, bit_or, ◌≡◌, refl, sym,
  ap, ◌∙◌, ◌≢◌, ◌↔◌, ◌⊎◌, inl, inr, Bool, true, false, not, ◌&&◌, ◌||◌, Option, none, some, List,
  [], ◌∷◌, ◌++◌, map, append_assoc, append-nil, arith, ltb, leb, ◌==◌, if◌then◌else◌, length,
  get_elem?, set, get_or, take, drop, replicate, All,
}
use naia.Base.Outcome.{Outcome, ok, panic, ◌>>=◌}
use naia.Base.Assoc.{lookup, insert_key}
use naia.Sequence.{sequence_less_than}
use naia.World.Authority.{HostType}
use naia.World.EntityCommand.{EntityCommand}
use naia.World.EntityMessage.{
  EntityMessage, spawn, despawn, spawn_with_components, insert_component, remove_component, publish,
  unpublish, enable_delegation, disable_delegation, set_authority, request_authority,
  release_authority, enable_delegation_response, migrate_response, noop, with_entity,
}
use naia.World.EntityChannelState.{EntityChannelState, despawned, spawned, is_spawned}
use naia.World.OrderedIds.{
  OrderedIds, no_ids, push_back, peek_front, pop_front, pop_front_until_and_excluding, clear_ids,
}
use naia.World.AuthChannelReceiver.{Message}
use naia.World.AuthChannel
use naia.World.AuthChannel.{
  AuthChannel, reset, receiver_drain_messages_into, receiver_buffer_pop_front_until_and_including,
  receiver_receive_message, receiver_process_messages,
}
use naia.World.RemoteComponentChannel
use naia.World.RemoteComponentChannel.{
  RemoteComponentChannel, drain_component_into, buffer_pop_front_until_and_excluding,
  process_messages, set_inserted, accept_message,
}

pub record RemoteEntityChannel : Type 0 where
  pub state : EntityChannelState
  pub last_epoch_id : Option ℕ
  pub component_channels : List (ℕ × RemoteComponentChannel)
  pub auth_channel : AuthChannel
  pub buffered_messages : OrderedIds Message
  pub incoming_messages : List Message
  pub outgoing_commands : List EntityCommand

unfoldable pub new : HostType → RemoteEntityChannel
unfolding AuthChannel.new
new host = record {
  state = despawned;
  last_epoch_id = none;
  component_channels = [];
  auth_channel = AuthChannel.new host;
  buffered_messages = no_ids;
  incoming_messages = [];
  outgoing_commands = [];
}

abbrev pub pop_from :
    List (ℕ × Message) → RemoteEntityChannel → Outcome (ℕ × Message × RemoteEntityChannel)
pop_from [] c = panic
pop_from ((id, msg) ∷ rest) c =
    ok (id, msg, record c { buffered_messages = record { inner = rest } })

-- The front message and the channel without it, or the panic of `unwrap`.
unfoldable pub pop_message : RemoteEntityChannel → Outcome (ℕ × Message × RemoteEntityChannel)
pop_message c = pop_from c.buffered_messages.inner c

unfoldable pub pop_front_into_outgoing : RemoteEntityChannel → Outcome RemoteEntityChannel
unfolding pop_message
pop_front_into_outgoing c = do
  popped ← pop_message c
  ok (record popped.2 { incoming_messages = popped.2.incoming_messages ++ (popped.1 ∷ []) })

unfoldable pub drain_auth : RemoteEntityChannel → RemoteEntityChannel
unfolding receiver_drain_messages_into
drain_auth c =
    let (incoming, auth) = receiver_drain_messages_into c.incoming_messages c.auth_channel in
    record c { incoming_messages = incoming; auth_channel = auth }

-- What a spawn with the id makes of the auth channel.
unfoldable pub wake_auth : ℕ → RemoteEntityChannel → Outcome RemoteEntityChannel
unfolding drain_auth
wake_auth id c = do
  auth ←
      receiver_process_messages spawned
        (receiver_buffer_pop_front_until_and_including id c.auth_channel)
  ok (drain_auth (record c { auth_channel = auth }))

-- The loop of a spawn over the component channels.
unfoldable pub wake_loop :
    ℕ
    → List (ℕ × RemoteComponentChannel)
    → List Message
    → Outcome (List (ℕ × RemoteComponentChannel) × List Message)
wake_loop id [] incoming = ok ([], incoming)
wake_loop id ((kind, channel) ∷ channels) incoming = do
  drained ←
      drain_component_into kind incoming
        (process_messages spawned (buffer_pop_front_until_and_excluding id channel))
  woken ← wake_loop id channels drained.0
  ok ((kind, drained.1) ∷ woken.0, woken.1)

unfoldable pub wake_components : ℕ → RemoteEntityChannel → Outcome RemoteEntityChannel
unfolding wake_loop
wake_components id c = do
  woken ← wake_loop id c.component_channels c.incoming_messages
  ok (record c { component_channels = woken.0; incoming_messages = woken.1 })

abbrev pub or_new : Option RemoteComponentChannel → RemoteComponentChannel
or_new none = RemoteComponentChannel.new
or_new (some channel) = channel

-- `component_channels.entry(kind).or_insert_with(new)`.
unfoldable pub channel_of : ℕ → List (ℕ × RemoteComponentChannel) → RemoteComponentChannel
channel_of kind channels = or_new (lookup kind channels)

-- The loop of `SpawnWithComponents` over the kinds.
unfoldable pub insert_kinds : ℕ → List ℕ → RemoteEntityChannel → RemoteEntityChannel
unfolding channel_of
insert_kinds id [] c = c
insert_kinds id (kind ∷ kinds) c =
    let channel = set_inserted true id (channel_of kind c.component_channels) in
    insert_kinds id kinds (record c {
      component_channels = insert_key kind channel c.component_channels;
      incoming_messages = c.incoming_messages ++ (insert_component tt kind ∷ []);
    })

-- The new state of the entity with the id of its message, and the buffer from this id on.
unfoldable pub begin : ℕ → RemoteEntityChannel → RemoteEntityChannel
begin id c = record c {
  state = spawned;
  last_epoch_id = some id;
  buffered_messages = pop_front_until_and_excluding id c.buffered_messages;
}

-- A round of the loop of `process_messages`: whether the loop goes on, and the channel.
abbrev pub Round : Type 0
Round = Outcome (Bool × RemoteEntityChannel)

unfoldable pub on_spawn : ℕ → RemoteEntityChannel → Round
unfolding begin pop_front_into_outgoing wake_auth wake_components
on_spawn id c = if is_spawned c.state then ok (false, c) else (do
  begun ← pop_front_into_outgoing (begin id c)
  authorised ← wake_auth id begun
  woken ← wake_components id authorised
  ok (true, woken))

unfoldable pub on_spawn_with_components : ℕ → List ℕ → RemoteEntityChannel → Round
unfolding begin pop_message insert_kinds wake_auth wake_components
on_spawn_with_components id kinds c = if is_spawned c.state then ok (false, c) else (do
  popped ← pop_message (begin id c)
  woken ←
      wake_components id
        (record popped.2 { incoming_messages = popped.2.incoming_messages ++ (spawn tt ∷ []) })
  authorised ← wake_auth id (insert_kinds id kinds woken)
  ok (true, authorised))

unfoldable pub on_despawn : ℕ → RemoteEntityChannel → Round
unfolding pop_front_into_outgoing reset
on_despawn id c =
    if is_spawned c.state
    then (do
      popped ← pop_front_into_outgoing (record c {
        state = despawned;
        last_epoch_id = some id;
        auth_channel = reset c.auth_channel;
        component_channels = [];
      })
      ok (true, record popped { buffered_messages = clear_ids popped.buffered_messages }))
    else ok (false, c)

unfoldable pub on_component : ℕ → ℕ → Message → RemoteEntityChannel → Round
unfolding pop_message channel_of
on_component id kind msg c = do
  popped ← pop_message c
  channel ← accept_message c.state id msg (channel_of kind c.component_channels)
  drained ← drain_component_into kind c.incoming_messages channel
  ok (
    true,
    record popped.2 {
      component_channels = insert_key kind drained.1 c.component_channels;
      incoming_messages = drained.0;
    },
  )

unfoldable pub on_auth : ℕ → Message → RemoteEntityChannel → Round
unfolding pop_message drain_auth
on_auth id msg c = do
  popped ← pop_message c
  auth ← receiver_receive_message (some c.state) id msg c.auth_channel
  let received = record popped.2 { auth_channel = auth }
  ok (true, if is_spawned c.state then drain_auth received else received)

-- A noop is not taken from the buffer.
unfoldable pub on_message : ℕ → Message → RemoteEntityChannel → Round
unfolding on_spawn on_spawn_with_components on_despawn on_component on_auth
on_message id (spawn e) c = on_spawn id c
on_message id (spawn_with_components e kinds) c = on_spawn_with_components id kinds c
on_message id (despawn e) c = on_despawn id c
on_message id (insert_component e kind) c = on_component id kind (insert_component e kind) c
on_message id (remove_component e kind) c = on_component id kind (remove_component e kind) c
on_message id (publish n e) c = on_auth id (publish n e) c
on_message id (unpublish n e) c = on_auth id (unpublish n e) c
on_message id (enable_delegation n e) c = on_auth id (enable_delegation n e) c
on_message id (disable_delegation n e) c = on_auth id (disable_delegation n e) c
on_message id (release_authority n e) c = on_auth id (release_authority n e) c
on_message id (set_authority n e status) c = on_auth id (set_authority n e status) c
on_message id noop c = ok (true, c)
on_message id (request_authority n e) c = panic
on_message id (enable_delegation_response n e) c = panic
on_message id (migrate_response n e other) c = panic

abbrev pub on_front : List (ℕ × Message) → RemoteEntityChannel → Round
on_front [] c = ok (false, c)
on_front ((id, msg) ∷ rest) c = on_message id msg c

-- The loop of `process_messages` on rounds; none where they do not suffice.
unfoldable pub process_loop : ℕ → RemoteEntityChannel → Outcome (Option RemoteEntityChannel)
unfolding on_message
process_loop zero c = ok none
process_loop (suc fuel) c = do
  round ← on_front c.buffered_messages.inner c
  if round.0 then process_loop fuel round.1 else ok (some round.1)

-- One round more than there are messages in the buffer.
unfoldable pub process_entity : RemoteEntityChannel → Outcome (Option RemoteEntityChannel)
process_entity c = process_loop (suc (length c.buffered_messages.inner)) c

abbrev pub same_epoch : ℕ → Option ℕ → Bool
same_epoch id none = false
same_epoch id (some last_epoch_id) = last_epoch_id == id

abbrev pub before_epoch : ℕ → Option ℕ → Bool
before_epoch id none = false
before_epoch id (some last_epoch_id) = sequence_less_than id last_epoch_id

unfoldable pub receive_message :
    ℕ → Message → RemoteEntityChannel → Outcome (Option RemoteEntityChannel)
unfolding process_entity
receive_message id msg c =
    if same_epoch id c.last_epoch_id
    then panic
    else if before_epoch id c.last_epoch_id
    then ok (some c)
    else process_entity (record c { buffered_messages = push_back id msg c.buffered_messages })
