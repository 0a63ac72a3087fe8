-- ===== src/World/AuthChannel/Reachable.antt =====
-- The channels that the operations of AuthChannel make.
use naia.Base.{ℕ, ◌≡◌, refl, Option, List}
use naia.World.EntityChannelState.{EntityChannelState}
use naia.World.AuthChannelReceiver.{AuthChannelReceiver, Message}
use naia.Base.Outcome.{Outcome, ok, ◌>>=◌, >>=-eq-ok}
use naia.World.Authority.{client, server, EntityAuthStatus, available}
use naia.World.EntityCommand.{EntityCommand}
use naia.World.AuthChannel.{
  AuthChannel, validate_command, HostType, new, send_command, force_set_auth_status, reset,
  force_publish, AuthChannelSender, force_enable_delegation, sender_send_command,
  sender_drain_messages_into, receiver_receive_message, receiver_process_messages,
  receiver_drain_messages_into, receiver_buffer_pop_front_until_and_including,
  receiver_set_next_subcommand_id,
}
use mathlib.Core.Path.{subst}
use naia.World.AuthChannel.Lifecycle.{Phase, hidden, visible, shared, StandsFor, valid-Moves}

-- The channels that the operations make.
pub data Reached : AuthChannel → Type 0 where
  created : (host : HostType) → Reached (new host)
  validated :
      {c c' : AuthChannel} (command : EntityCommand)
      → Reached c
      → validate_command command c ≡ ok c'
      → Reached c'
  sent :
      {c c' : AuthChannel} (command : EntityCommand)
      → Reached c
      → send_command command c ≡ ok c'
      → Reached c'
  restarted : {c : AuthChannel} → Reached c → Reached (reset c)
  published_now : {c : AuthChannel} → Reached c → Reached (force_publish c)
  delegated_now : {c : AuthChannel} → Reached c → Reached (force_enable_delegation c)
  drained :
      {c : AuthChannel} (commands : List EntityCommand)
      → Reached c
      → Reached (sender_drain_messages_into commands c).1
  received :
      {c c' : AuthChannel} (state : Option EntityChannelState) (id : ℕ) (msg : Message)
      → Reached c
      → receiver_receive_message state id msg c ≡ ok c'
      → Reached c'
  processed :
      {c c' : AuthChannel} (state : EntityChannelState)
      → Reached c
      → receiver_process_messages state c ≡ ok c'
      → Reached c'
  handed_on :
      {c : AuthChannel} (outgoing : List Message)
      → Reached c
      → Reached (receiver_drain_messages_into outgoing c).1
  popped :
      {c : AuthChannel} (id : ℕ)
      → Reached c
      → Reached (receiver_buffer_pop_front_until_and_including id c)
  renumbered :
      {c : AuthChannel} (id : ℕ) → Reached c → Reached (receiver_set_next_subcommand_id id c)
  status_now :
      {c : AuthChannel} (s : EntityAuthStatus) → Reached c → Reached (force_set_auth_status s c)

new-StandsFor : (host : HostType) → (p : Phase) × StandsFor (new host) p
unfolding new
new-StandsFor client = (hidden, refl)
new-StandsFor server = (visible, refl)

sender-StandsFor :
    (s : AuthChannelSender) (c : AuthChannel) (p : Phase)
    → StandsFor c p
    → StandsFor (record c { sender = s }) p
sender-StandsFor s c hidden h = h
sender-StandsFor s c visible h = h
sender-StandsFor s c (shared t) h = h

receiver-StandsFor :
    (r : AuthChannelReceiver) (c : AuthChannel) (p : Phase)
    → StandsFor c p
    → StandsFor (record c { receiver = r }) p
receiver-StandsFor r c hidden h = h
receiver-StandsFor r c visible h = h
receiver-StandsFor r c (shared t) h = h

-- A step of the receiver that succeeds leaves the phase.
received-StandsFor :
    (m : Outcome AuthChannelReceiver) (c c' : AuthChannel) (p : Phase)
    → (m >>= λ r. ok (record c { receiver = r })) ≡ ok c'
    → StandsFor c p
    → StandsFor c' p
received-StandsFor m c c' p e h =
    let (r, e1, e2) = >>=-eq-ok m _ e in
    let same : record c { receiver = r } ≡ c' = cc in
    subst (λ (x : AuthChannel). StandsFor x p) same (receiver-StandsFor r c p h)

send-StandsFor :
    (command : EntityCommand) (c c' : AuthChannel) (p : Phase)
    → send_command command c ≡ ok c'
    → StandsFor c p
    → StandsFor c' p
unfolding send_command
send-StandsFor command c c' p e h =
    let (s, e1, e2) = >>=-eq-ok (sender_send_command command c.sender) _ e in
    let same : record c { sender = s } ≡ c' = cc in
    subst (λ (x : AuthChannel). StandsFor x p) same (sender-StandsFor s c p h)

status-StandsFor :
    (s : EntityAuthStatus) (c : AuthChannel) (p : Phase)
    → StandsFor c p
    → (q : Phase) × StandsFor (force_set_auth_status s c) q
unfolding force_set_auth_status
status-StandsFor s c hidden h = (hidden, h)
status-StandsFor s c visible h = (visible, h)
status-StandsFor s c (shared t) h = (shared s, (h.0, refl))

-- Every channel that the operations make stands for a phase: a delegated entity always has an
-- authority status, so that the `unwrap` of SetAuthority never panics.
pub Reached-StandsFor : {c : AuthChannel} → Reached c → (p : Phase) × StandsFor c p
unfolding reset force_publish force_enable_delegation sender_drain_messages_into
    receiver_receive_message receiver_process_messages receiver_drain_messages_into
    receiver_buffer_pop_front_until_and_including receiver_set_next_subcommand_id
Reached-StandsFor (created host) = new-StandsFor host
Reached-StandsFor (validated {c} {c'} command r e) =
    let (p, h) = Reached-StandsFor r in
    let (q, move, h') = valid-Moves command p c c' h e in (q, h')
Reached-StandsFor (sent {c} {c'} command r e) =
    let (p, h) = Reached-StandsFor r in (p, send-StandsFor command c c' p e h)
Reached-StandsFor (restarted {c} r) = new-StandsFor c.host_type
Reached-StandsFor (published_now r) = (visible, refl)
Reached-StandsFor (delegated_now r) = (shared available, (refl, refl))
Reached-StandsFor (drained {c} commands r) =
    let (p, h) = Reached-StandsFor r in
    (p, sender-StandsFor ((sender_drain_messages_into commands c).1.sender) c p h)
Reached-StandsFor (received {c} {c'} state id msg r e) =
    let (p, h) = Reached-StandsFor r in (p, received-StandsFor _ c c' p e h)
Reached-StandsFor (processed {c} {c'} state r e) =
    let (p, h) = Reached-StandsFor r in (p, received-StandsFor _ c c' p e h)
Reached-StandsFor (handed_on {c} outgoing r) =
    let (p, h) = Reached-StandsFor r in
    (p, receiver-StandsFor ((receiver_drain_messages_into outgoing c).1.receiver) c p h)
Reached-StandsFor (popped {c} id r) =
    let (p, h) = Reached-StandsFor r in
    (p, receiver-StandsFor ((receiver_buffer_pop_front_until_and_including id c).receiver) c p h)
Reached-StandsFor (renumbered {c} id r) =
    let (p, h) = Reached-StandsFor r in
    (p, receiver-StandsFor ((receiver_set_next_subcommand_id id c).receiver) c p h)
Reached-StandsFor (status_now {c} s r) =
    let (p, h) = Reached-StandsFor r in status-StandsFor s c p h
