-- ===== src/World/RemoteEntityChannel/Migration.antt =====
-- shared/src/world/sync/remote_entity_channel.rs: the other operations of RemoteEntityChannel, most of
-- them for the migration of an entity.
use naia.Base.{ℕ, Bool, true, false, Option, none, some, List, [], ◌∷◌, ◌++◌, if◌then◌else◌}
use naia.Base.Assoc.{lookup, insert_key, remove_key}
use naia.Base.Outcome.{Outcome, ok, panic, ◌>>=◌}
use naia.World.Authority.{HostType, EntityAuthStatus}
use naia.World.EntityCommand.{EntityCommand}
use naia.World.EntityMessage.{EntityMessage, with_entity}
use naia.World.EntityChannelState.{spawned, is_spawned}
use naia.World.AuthChannelReceiver.{Message}
use naia.World.AuthChannel.{
  is_delegated, force_publish, force_enable_delegation, force_set_auth_status,
  receiver_set_next_subcommand_id, send_command, sender_drain_messages_into,
}
use naia.World.RemoteComponentChannel
use naia.World.RemoteComponentChannel.{
  RemoteComponentChannel, set_inserted, is_inserted, force_drain_buffers,
}
use naia.World.RemoteEntityChannel
use naia.World.RemoteEntityChannel.{RemoteEntityChannel, channel_of}

unfoldable pub configure_as_delegated : RemoteEntityChannel → RemoteEntityChannel
configure_as_delegated c = record c {
  auth_channel =
      receiver_set_next_subcommand_id 1 (force_enable_delegation (force_publish c.auth_channel));
}

unfoldable pub new_delegated : HostType → RemoteEntityChannel
unfolding configure_as_delegated
new_delegated host = configure_as_delegated (RemoteEntityChannel.new host)

unfoldable pub update_auth_status : EntityAuthStatus → RemoteEntityChannel → RemoteEntityChannel
update_auth_status status c = record c {
  auth_channel = force_set_auth_status status c.auth_channel;
}

unfoldable pub auth_status : RemoteEntityChannel → Option EntityAuthStatus
auth_status c = c.auth_channel.auth_status

unfoldable pub is_delegated_entity : RemoteEntityChannel → Bool
is_delegated_entity c = is_delegated c.auth_channel.state

unfoldable pub send_auth : EntityCommand → RemoteEntityChannel → Outcome RemoteEntityChannel
send_auth command c = do
  auth ← send_command command c.auth_channel
  let drained = sender_drain_messages_into c.outgoing_commands auth
  ok (record c { outgoing_commands = drained.0; auth_channel = drained.1 })

-- The loop that gives the messages their entity.
unfoldable pub with_entities : {E : Type 0} → E → List Message → Outcome (List (EntityMessage E))
with_entities entity [] = ok []
with_entities entity (m ∷ ms) = do
  m' ← with_entity entity m
  ms' ← with_entities entity ms
  ok (m' ∷ ms')

unfoldable pub drain_incoming_messages_into :
    {E : Type 0}
    → E
    → List (EntityMessage E)
    → RemoteEntityChannel
    → Outcome (List (EntityMessage E) × RemoteEntityChannel)
unfolding with_entities
drain_incoming_messages_into entity events c = do
  received ← with_entities entity c.incoming_messages
  ok (events ++ received, record c { incoming_messages = [] })

unfoldable pub drain_outgoing_messages_into :
    List EntityCommand → RemoteEntityChannel → List EntityCommand × RemoteEntityChannel
drain_outgoing_messages_into commands c =
    (commands ++ c.outgoing_commands, record c { outgoing_commands = [] })

abbrev pub is_there : {V : Type 0} → Option V → Bool
is_there none = false
is_there (some v) = true

unfoldable pub has_component_kind : ℕ → RemoteEntityChannel → Bool
has_component_kind kind c = is_there (lookup kind c.component_channels)

-- The kinds of the channels that are inserted.
unfoldable pub inserted_kinds : List (ℕ × RemoteComponentChannel) → List ℕ
inserted_kinds [] = []
inserted_kinds ((kind, channel) ∷ channels) =
    let rest = inserted_kinds channels in if is_inserted channel then kind ∷ rest else rest

unfoldable pub extract_inserted_component_kinds : RemoteEntityChannel → List ℕ
unfolding inserted_kinds
extract_inserted_component_kinds c = inserted_kinds c.component_channels

unfoldable pub drain_channels :
    List (ℕ × RemoteComponentChannel) → List (ℕ × RemoteComponentChannel)
drain_channels [] = []
drain_channels ((kind, channel) ∷ channels) =
    (kind, force_drain_buffers channel) ∷ drain_channels channels

-- The messages with no ids.
unfoldable pub messages_of : List (ℕ × Message) → List Message
messages_of [] = []
messages_of ((id, m) ∷ items) = m ∷ messages_of items

unfoldable pub force_drain_all_buffers : RemoteEntityChannel → RemoteEntityChannel
unfolding drain_channels messages_of
force_drain_all_buffers c = record c {
  incoming_messages = c.incoming_messages ++ messages_of c.buffered_messages.inner;
  buffered_messages = record { inner = [] };
  component_channels = drain_channels c.component_channels;
}

unfoldable pub insert_component : ℕ → RemoteEntityChannel → RemoteEntityChannel
insert_component kind c = record c {
  component_channels = insert_key kind (channel_of kind c.component_channels) c.component_channels;
}

unfoldable pub remove_component : ℕ → RemoteEntityChannel → RemoteEntityChannel
remove_component kind c = record c { component_channels = remove_key kind c.component_channels }

unfoldable pub set_spawned : ℕ → RemoteEntityChannel → Outcome RemoteEntityChannel
set_spawned epoch_id c =
    if is_spawned c.state
    then panic
    else ok (record c { state = spawned; last_epoch_id = some epoch_id })

unfoldable pub insert_component_channel_as_inserted :
    ℕ → ℕ → RemoteEntityChannel → RemoteEntityChannel
insert_component_channel_as_inserted kind epoch_id c = record c {
  component_channels =
      insert_key kind (set_inserted true epoch_id RemoteComponentChannel.new) c.component_channels;
}

unfoldable pub take_incoming_events : RemoteEntityChannel → List Message × RemoteEntityChannel
take_incoming_events c = (c.incoming_messages, record c { incoming_messages = [] })
