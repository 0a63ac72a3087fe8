-- ===== src/World/AuthChannel.antt =====
-- shared/src/world/sync/auth_channel.rs and auth_channel_sender.rs: AuthChannel, the lifecycle of an
-- entity's publication and delegation, with its sender and its receiver.
pub mod Lifecycle
pub mod Reachable
use naia.Base.{
  ℕ, zero, suc, ◌+◌, ◌-◌, ◌*◌, ◌/◌, ◌%◌, ◌^◌, ◌≤◌, ◌<◌, min, max, bit_and, bit_or, ◌≡◌, refl, sym,
  ap, ◌∙◌, ◌≢◌, ◌↔◌, ◌⊎◌, inl, inr, Bool, true, false, not, ◌&&◌, ◌||◌, Option, none, some, List,
  [], ◌∷◌, ◌++◌, map, append_assoc, append-nil, arith, ltb, leb, ◌==◌, if◌then◌else◌, length,
  get_elem?, set, get_or, take, drop, replicate, All,
}
use naia.Base.Outcome.{Outcome, ok, panic, ◌>>=◌}
use naia.Sequence.{wrapping_add_u8}
use naia.World.EntityChannelState.{EntityChannelState}
use naia.World.AuthChannelReceiver.{
  AuthChannelReceiver, Message, new_receiver, drain_receiver_into,
  buffer_pop_front_until_and_including, receive_message, process_messages, set_next_subcommand_id,
}
use naia.World.Authority.{
  HostType, server, client, EntityAuthStatus, available, requested, granted, releasing, denied,
}
use naia.World.EntityCommand.{
  EntityCommand, publish, unpublish, enable_delegation, disable_delegation, set_authority,
  request_authority, release_authority, enable_delegation_response, migrate_response,
  set_subcommand_id,
}

pub record AuthChannelSender : Type 0 where
  pub next_subcommand_id : ℕ
  pub outgoing_commands : List EntityCommand

abbrev pub new_sender : AuthChannelSender
new_sender = record { next_subcommand_id = 0; outgoing_commands = [] }

unfoldable pub sender_send_command : EntityCommand → AuthChannelSender → Outcome AuthChannelSender
sender_send_command command s = do
  command' ← set_subcommand_id s.next_subcommand_id command
  ok (record {
    next_subcommand_id = wrapping_add_u8 s.next_subcommand_id 1;
    outgoing_commands = s.outgoing_commands ++ (command' ∷ []);
  })

-- The commands with those that were there, and the sender that is left.
unfoldable pub drain_messages_into :
    List EntityCommand → AuthChannelSender → List EntityCommand × AuthChannelSender
drain_messages_into commands s =
    (commands ++ s.outgoing_commands, record s { outgoing_commands = [] })

pub data EntityAuthChannelState : Type 0 where
  unpublished published delegated : EntityAuthChannelState

abbrev pub is_unpublished : EntityAuthChannelState → Bool
is_unpublished unpublished = true
is_unpublished _ = false

abbrev pub is_published : EntityAuthChannelState → Bool
is_published published = true
is_published _ = false

abbrev pub is_delegated : EntityAuthChannelState → Bool
is_delegated delegated = true
is_delegated _ = false

pub record AuthChannel : Type 0 where
  pub host_type : HostType
  pub state : EntityAuthChannelState
  pub auth_status : Option EntityAuthStatus
  pub sender : AuthChannelSender
  pub receiver : AuthChannelReceiver

abbrev pub first_state : HostType → EntityAuthChannelState
first_state client = unpublished
first_state server = published

unfoldable pub new : HostType → AuthChannel
unfolding new_receiver
new host = record {
  host_type = host;
  state = first_state host;
  auth_status = none;
  sender = new_sender;
  receiver = new_receiver;
}

-- The match on the status before and after.
abbrev pub valid_transition : EntityAuthStatus → EntityAuthStatus → Bool
valid_transition available requested = true
valid_transition available granted = true
valid_transition available denied = true
valid_transition requested granted = true
valid_transition requested denied = true
valid_transition requested available = true
valid_transition denied granted = true
valid_transition denied available = true
valid_transition granted available = true
valid_transition granted denied = true
valid_transition granted releasing = true
valid_transition releasing available = true
valid_transition releasing denied = true
valid_transition _ _ = false

-- `self.auth_status.unwrap()`, the check of the transition, and the new status.
unfoldable pub change_status : EntityAuthStatus → AuthChannel → Outcome AuthChannel
change_status next_status c = elim c.auth_status [
  | none ↦ panic
  | some from_status ↦
      if valid_transition from_status next_status
      then ok (record c { auth_status = some next_status })
      else panic
]

-- The panic of a command that comes in a wrong state.
abbrev pub require : Bool → Outcome AuthChannel → Outcome AuthChannel
require holds next = if holds then next else panic

unfoldable pub validate_command : EntityCommand → AuthChannel → Outcome AuthChannel
unfolding change_status
validate_command (publish id e) c =
    require (is_unpublished c.state) (ok (record c { state = published }))
validate_command (unpublish id e) c =
    require (is_published c.state) (ok (record c { state = unpublished }))
validate_command (enable_delegation id e) c =
    require (is_published c.state)
      (ok (record c { state = delegated; auth_status = some available }))
validate_command (disable_delegation id e) c =
    require (is_delegated c.state) (ok (record c { state = published }))
validate_command (release_authority id e) c =
    require (is_delegated c.state) (ok (record c { auth_status = some available }))
validate_command (set_authority id e status) c =
    require (is_delegated c.state) (change_status status c)
validate_command (request_authority id e) c = require (is_delegated c.state) (ok c)
validate_command (enable_delegation_response id e) c = require (is_delegated c.state) (ok c)
validate_command (migrate_response id e remote host) c = require (is_delegated c.state) (ok c)
validate_command _ c = panic

unfoldable pub send_command : EntityCommand → AuthChannel → Outcome AuthChannel
unfolding sender_send_command
send_command command c = do
  sender ← sender_send_command command c.sender
  ok (record c { sender = sender })

unfoldable pub reset : AuthChannel → AuthChannel
unfolding new
reset c = new c.host_type

unfoldable pub force_publish : AuthChannel → AuthChannel
force_publish c = record c { state = published }

unfoldable pub force_enable_delegation : AuthChannel → AuthChannel
force_enable_delegation c = record c { state = delegated; auth_status = some available }

unfoldable pub force_set_auth_status : EntityAuthStatus → AuthChannel → AuthChannel
force_set_auth_status status c = record c { auth_status = some status }

unfoldable pub sender_drain_messages_into :
    List EntityCommand → AuthChannel → List EntityCommand × AuthChannel
unfolding drain_messages_into
sender_drain_messages_into commands c =
    let (commands', sender) = drain_messages_into commands c.sender in
    (commands', record c { sender = sender })

unfoldable pub receiver_drain_messages_into :
    List Message → AuthChannel → List Message × AuthChannel
unfolding drain_receiver_into
receiver_drain_messages_into outgoing c =
    let (outgoing', receiver) = drain_receiver_into outgoing c.receiver in
    (outgoing', record c { receiver = receiver })

unfoldable pub receiver_buffer_pop_front_until_and_including : ℕ → AuthChannel → AuthChannel
receiver_buffer_pop_front_until_and_including id c = record c {
  receiver = buffer_pop_front_until_and_including id c.receiver;
}

unfoldable pub receiver_receive_message :
    Option EntityChannelState → ℕ → Message → AuthChannel → Outcome AuthChannel
receiver_receive_message entity_state id msg c = do
  receiver ← receive_message entity_state id msg c.receiver
  ok (record c { receiver = receiver })

unfoldable pub receiver_process_messages : EntityChannelState → AuthChannel → Outcome AuthChannel
receiver_process_messages entity_state c = do
  receiver ← process_messages (some entity_state) c.receiver
  ok (record c { receiver = receiver })

unfoldable pub receiver_set_next_subcommand_id : ℕ → AuthChannel → AuthChannel
receiver_set_next_subcommand_id id c = record c { receiver = set_next_subcommand_id id c.receiver }
