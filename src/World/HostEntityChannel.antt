-- ===== src/World/HostEntityChannel.antt =====
-- shared/src/world/sync/host_entity_channel.rs: HostEntityChannel, which checks the commands about an
-- entity of this host before they are sent, and takes the answers in.
pub mod Commands
use naia.Base.{
  ℕ, zero, suc, ◌+◌, ◌-◌, ◌*◌, ◌/◌, ◌%◌, ◌^◌, ◌≤◌, ◌<◌, min, max, bit_and, bit_or, ◌≡◌, refl, sym,
  ap, ◌∙◌, ◌≢◌, ◌↔◌, ◌⊎◌, inl, inr, Bool, true, false, not, ◌&&◌, ◌||◌, Option, none, some, List,
  [], ◌∷◌, ◌++◌, map, append_assoc, append-nil, arith, ltb, leb, ◌==◌, if◌then◌else◌, length,
  get_elem?, set, get_or, take, drop, replicate, All,
}
use naia.Base.Assoc.{contains, remove_member}
use naia.Base.Outcome.{Outcome, ok, panic, ◌>>=◌}
use naia.World.Authority.{HostType}
use naia.World.EntityCommand
use naia.World.EntityCommand.{EntityCommand}
use naia.World.EntityMessage.{
  EntityMessage, request_authority, release_authority, enable_delegation_response, migrate_response,
  noop,
}
use naia.World.RemoteEntityChannel.Migration.{with_entities}
use naia.World.OrderedIds.{OrderedIds, no_ids, push_back}
use naia.World.AuthChannelReceiver.{Message}
use naia.World.AuthChannel
use naia.World.AuthChannel.{
  AuthChannel, EntityAuthChannelState, is_delegated, validate_command, send_command,
  sender_drain_messages_into, receiver_receive_message, receiver_drain_messages_into, force_publish,
  force_enable_delegation,
}

-- The set of component kinds is a list.
pub record HostEntityChannel : Type 0 where
  pub component_channels : List ℕ
  pub auth_channel : AuthChannel
  pub buffered_messages : OrderedIds Message
  pub incoming_messages : List Message
  pub outgoing_commands : List EntityCommand

unfoldable pub new_with_components : HostType → List ℕ → HostEntityChannel
new_with_components host kinds = record {
  component_channels = kinds;
  auth_channel = AuthChannel.new host;
  buffered_messages = no_ids;
  incoming_messages = [];
  outgoing_commands = [];
}

unfoldable pub new_host_channel : HostType → HostEntityChannel
unfolding new_with_components
new_host_channel host = new_with_components host []

abbrev pub push_command : EntityCommand → HostEntityChannel → HostEntityChannel
push_command command c = record c { outgoing_commands = c.outgoing_commands ++ (command ∷ []) }

-- A command goes through the auth channel.
unfoldable pub send_authority : EntityCommand → HostEntityChannel → Outcome HostEntityChannel
send_authority command c = do
  validated ← validate_command command c.auth_channel
  sent ← send_command command validated
  let drained = sender_drain_messages_into c.outgoing_commands sent
  ok (record c { outgoing_commands = drained.0; auth_channel = drained.1 })

unfoldable pub send_host_command : EntityCommand → HostEntityChannel → Outcome HostEntityChannel
unfolding send_authority contains remove_member
send_host_command (EntityCommand.spawn e) c = panic
send_host_command (EntityCommand.spawn_with_components e kinds) c = panic
send_host_command (EntityCommand.despawn e) c = panic
send_host_command (EntityCommand.insert_component e kind) c =
    if contains kind c.component_channels
    then panic
    else ok (
        push_command (EntityCommand.insert_component e kind)
          (record c { component_channels = kind ∷ c.component_channels }))
send_host_command (EntityCommand.remove_component e kind) c =
    if contains kind c.component_channels
    then ok (
        push_command (EntityCommand.remove_component e kind)
          (record c { component_channels = remove_member kind c.component_channels }))
    else panic
send_host_command command c = send_authority command c

-- A round of the loop of `process_messages` that takes an answer: it goes through the auth channel.
unfoldable pub take_answer :
    ℕ → Message → List (ℕ × Message) → HostEntityChannel → Outcome (Bool × HostEntityChannel)
take_answer id m rest c = do
  received ← receiver_receive_message none id m c.auth_channel
  let drained = receiver_drain_messages_into c.incoming_messages received
  ok (
    true,
    record c {
      buffered_messages = record { inner = rest };
      incoming_messages = drained.0;
      auth_channel = drained.1;
    },
  )

-- A noop is not taken from the buffer.
abbrev pub on_answer : List (ℕ × Message) → HostEntityChannel → Outcome (Bool × HostEntityChannel)
on_answer [] c = ok (false, c)
on_answer ((id, request_authority n e) ∷ rest) c = take_answer id (request_authority n e) rest c
on_answer ((id, release_authority n e) ∷ rest) c = take_answer id (release_authority n e) rest c
on_answer ((id, enable_delegation_response n e) ∷ rest) c =
    take_answer id (enable_delegation_response n e) rest c
on_answer ((id, migrate_response n e other) ∷ rest) c =
    take_answer id (migrate_response n e other) rest c
on_answer ((id, noop) ∷ rest) c = ok (true, c)
on_answer (item ∷ rest) c = panic

-- The loop of `process_messages` on rounds; none where they do not suffice.
unfoldable pub answer_loop : ℕ → HostEntityChannel → Outcome (Option HostEntityChannel)
unfolding take_answer
answer_loop zero c = ok none
answer_loop (suc fuel) c = do
  round ← on_answer c.buffered_messages.inner c
  if round.0 then answer_loop fuel round.1 else ok (some round.1)

-- One round more than there are messages in the buffer.
unfoldable pub receive_answer : ℕ → Message → HostEntityChannel → Outcome (Option HostEntityChannel)
unfolding answer_loop
receive_answer id m c =
    let pushed = record c { buffered_messages = push_back id m c.buffered_messages } in
    answer_loop (suc (length pushed.buffered_messages.inner)) pushed

unfoldable pub drain_incoming_messages_into :
    {E : Type 0}
    → E
    → List (EntityMessage E)
    → HostEntityChannel
    → Outcome (List (EntityMessage E) × HostEntityChannel)
drain_incoming_messages_into entity events c = do
  received ← with_entities entity c.incoming_messages
  ok (events ++ received, record c { incoming_messages = [] })

unfoldable pub drain_outgoing_messages_into :
    List EntityCommand → HostEntityChannel → List EntityCommand × HostEntityChannel
drain_outgoing_messages_into commands c =
    (commands ++ c.outgoing_commands, record c { outgoing_commands = [] })

unfoldable pub extract_outgoing_commands :
    HostEntityChannel → List EntityCommand × HostEntityChannel
extract_outgoing_commands c = (c.outgoing_commands, record c { outgoing_commands = [] })

unfoldable pub local_enable_delegation : HostEntityChannel → HostEntityChannel
local_enable_delegation c = record c {
  auth_channel = force_enable_delegation (force_publish c.auth_channel);
}

unfoldable pub is_delegated_channel : HostEntityChannel → Bool
is_delegated_channel c = is_delegated c.auth_channel.state

unfoldable pub auth_channel_state : HostEntityChannel → EntityAuthChannelState
auth_channel_state c = c.auth_channel.state
