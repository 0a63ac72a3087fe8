-- ===== src/Tests/WorldRuns.antt =====
-- shared/src/world and shared/src/messages/channels on concrete input.
use naia.Base.{
  ℕ, ◌%◌, ◌≡◌, refl, ◌⊎◌, Bool, true, false, not, none, some, [], ◌∷◌, ◌++◌, arith, ltb,
  if◌then◌else◌,
}
use naia.Base.Outcome.{ok}
use naia.World.Authority.{
  client, available, granted, releasing, requested, can_mutate, can_read, can_release, can_request,
  can_write, client_view, client-rights,
}
use naia.World.EntityCommand.{set_authority}
use naia.World.AuthChannel
use naia.World.AuthChannel.{
  AuthChannel, validate_command, force_publish, force_enable_delegation, delegated,
}
use naia.World.AuthChannel.Lifecycle.{Phase, shared, Moves, StandsFor, validate_command-refines}
use naia.World.AuthChannel.Reachable.{created, delegated_now, Reached-StandsFor}
use naia.Channels.ReliableSender
use naia.Channels.ReliableSender.{
  ReliableSender, full_scan, collect_messages, send_message, notify_message_delivered,
}
use naia.Channels.ReliableSender.Reachable.{created, sent, collected, notified, Reached-IsTracked}
use naia.Channels.ReliableSender.Collect.{IsTracked, collect_messages-scan}
use naia.Channels.ReliableReceiver
use naia.Channels.ReliableReceiver.{ReliableReceiver, buffer_message}
use naia.Channels.ReliableReceiver.Record.{with_number}
use naia.Channels.ReliableReceiver.ExactlyOnce.{Holds, new-Holds, buffer_message-once}

client-rights_example :
    (can_mutate (client_view granted) ≡ not (can_read (client_view granted)))
    × (can_release (client_view granted) ≡ ok (can_mutate (client_view granted)))
    × (can_request (client_view granted) ≡ ok true
        → (can_mutate (client_view granted) ≡ false) × (can_write (client_view granted) ≡ false))
    × (can_write (client_view granted) ≡ true → (granted ≡ granted) ⊎ (granted ≡ releasing))
client-rights_example = client-rights granted

-- An entity that a client may request.
abbrev shared_entity : AuthChannel
shared_entity = force_enable_delegation (AuthChannel.new client)

shared_entity-StandsFor : StandsFor shared_entity (shared available)
unfolding force_enable_delegation
shared_entity-StandsFor = (refl, refl)

validate_command-refines_example :
    ((c' : AuthChannel)
      → validate_command (set_authority none 7 requested) shared_entity ≡ ok c'
      → (q : Phase) × Moves (set_authority none 7 requested) (shared available) q × StandsFor c' q)
    × ((q : Phase)
        → Moves (set_authority none 7 requested) (shared available) q
        → (c' : AuthChannel) × (validate_command (set_authority none 7 requested) shared_entity
            ≡ ok c')
          × StandsFor c' q)
validate_command-refines_example =
    validate_command-refines (set_authority none 7 requested) (shared available) shared_entity
      shared_entity-StandsFor

Reached-StandsFor_example : (p : Phase) × StandsFor shared_entity p
Reached-StandsFor_example = Reached-StandsFor {c = shared_entity} (delegated_now (created client))

abbrev before_all : ℕ → Bool
before_all k = ltb k 65536

abbrev no_messages : ReliableReceiver ℕ
no_messages = ReliableReceiver.new

buffer_message-once_example :
    (r' : ReliableReceiver ℕ) × (base' : ℕ) × (buffer_message (65538 % 65536) 42 no_messages
      ≡ some r')
    × Holds (with_number 65538 before_all) base' r'
    × (r'.incoming_messages ≡ (
        if before_all 65538
        then no_messages.incoming_messages
        else no_messages.incoming_messages ++ ((65538 % 65536, 42) ∷ [])))
buffer_message-once_example =
    buffer_message-once before_all 65536 65538 42 no_messages (new-Holds ℕ) (omega arith)
      (omega arith)

-- A sender whose only message went out at time 100.
abbrev sent_at_100 : ReliableSender ℕ
sent_at_100 = record {
  sending_messages = some (record { message_index = 0; last_sent = some 100; message = 7 }) ∷ [];
  next_send_message_index = 1;
  outgoing_messages = [];
  min_last_sent = some 100;
  has_unsent = false;
  max_queue_depth = none;
}

sent_at_100-IsTracked : IsTracked sent_at_100
sent_at_100-IsTracked = λ _. (omega arith, tt)

collect_messages-scan_example :
    ((collect_messages 150 200 sent_at_100).sending_messages
      ≡ (full_scan 150 200 sent_at_100).sending_messages)
    × ((collect_messages 150 200 sent_at_100).outgoing_messages
        ≡ (full_scan 150 200 sent_at_100).outgoing_messages)
    × IsTracked (collect_messages 150 200 sent_at_100)
collect_messages-scan_example = collect_messages-scan 150 200 sent_at_100 sent_at_100-IsTracked

-- Two messages sent, the first of them delivered.
abbrev one_of_two_delivered : ReliableSender ℕ
one_of_two_delivered =
    notify_message_delivered 0
      (collect_messages 100 50 ((send_message 8 ((send_message 7 (ReliableSender.new none)).1)).1))

Reached-IsTracked_example : IsTracked one_of_two_delivered
Reached-IsTracked_example =
    Reached-IsTracked (notified 0 (collected 100 50 (sent 8 (sent 7 (created none)))))
