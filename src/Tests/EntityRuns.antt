-- ===== src/Tests/EntityRuns.antt =====
-- shared/src/world/sync on concrete input.
use naia.Base.{
  ℕ, ◌+◌, ◌%◌, ◌≡◌, refl, ◌≢◌, false, not, ◌||◌, none, some, List, [], ◌∷◌, ◌++◌, arith, ltb, ◌==◌,
}
use naia.Base.Outcome.{ok}
use naia.Channels.ReliableReceiver.Record.{with_number}
use naia.World.Authority.{client, server}
use naia.World.EntityCommand
use naia.World.EntityMessage.{spawn, publish, noop, is_noop, subcommand_id}
use naia.World.EntityChannelState.{spawned}
use naia.World.OrderedIds.{
  no_ids, push_back, insert_behind, pop_front_until_and_excluding, pop_front_until_and_including,
}
use naia.Sequence.{sequence_less_than}
use naia.World.OrderedIds.Order.{wrapped, insert_sorted, push_back-sorted}
use naia.World.OrderedIds.Numbers.{has}
use naia.World.AuthChannel
use naia.World.AuthChannelReceiver
use naia.World.AuthChannelReceiver.{AuthChannelReceiver, Message, new_receiver}
use naia.World.AuthChannelReceiver.InOrder.{Sent, HoldsBack, run, receive_message-InOrder}
use naia.World.RemoteComponentChannel
use naia.World.RemoteComponentChannel.{RemoteComponentChannel, accept_message}
use naia.World.RemoteComponentChannel.Toggling.{
  odd, Turns, message_of, Receives, Handled, accept_message-Toggling, Toggles,
}
use naia.World.RemoteComponentChannel.Converging.{deliver, Arrivals, deliver-converges}
use naia.World.RemoteEntityChannel
use naia.World.RemoteEntityChannel.{RemoteEntityChannel, receive_message, process_loop}
use naia.World.RemoteEntityChannel.Rounds.{NoNoop, Quiet, Hands}
use naia.World.RemoteEntityChannel.Receiving.{receive_message-ends, receive_message-Lifetime}
use naia.World.HostEntityChannel.{HostEntityChannel, send_host_command, new_host_channel}
use naia.World.HostEntityChannel.Commands.{SendsInTurn, send_host_command-SendsInTurn}

abbrev two_ids : List (ℕ × ℕ)
two_ids = (65530, 1) ∷ (65540, 2) ∷ []

push_back-sorted_example :
    push_back (65537 % 65536) 3 (record { inner = wrapped two_ids })
    ≡ record { inner = wrapped (insert_sorted 65537 3 two_ids) }
push_back-sorted_example = push_back-sorted 65537 3 two_ids (omega arith) (omega arith)

-- The sender that publishes again and again.
publishes : Sent
unfolding subcommand_id
publishes = record {
  items = record { value = λ k. publish (k % 256) tt; index = λ k. k; ascending = λ j k lt. lt };
  numbered = λ k. refl;
}

new_receiver-HoldsBack : HoldsBack publishes 0 [] new_receiver
unfolding new_receiver
new_receiver-HoldsBack = record { next = refl; buffered = refl; later = tt; near = tt }

receive_message-InOrder_example :
    (count : ℕ) × (ks' : List ℕ) × (r' : AuthChannelReceiver) × (AuthChannelReceiver.receive_message
        (some spawned)
        (publishes.items.index 1 % 65536)
        (publishes.items.value 1)
        new_receiver
      ≡ ok r')
    × (r'.incoming_messages ≡ new_receiver.incoming_messages ++ run publishes 0 count)
    × HoldsBack publishes (0 + count) ks' r'
    × ((k : ℕ) → (ltb k (0 + count) || has k ks') ≡ (k == 1 || (ltb k 0 || has k [])))
receive_message-InOrder_example =
    receive_message-InOrder publishes 0 1 [] (some spawned) new_receiver refl new_receiver-HoldsBack
      (omega arith) (omega arith) refl tt

abbrev turns : Turns
turns = record {
  items = record { value = λ k. not (odd k); index = λ k. k; ascending = λ j k lt. lt };
  in_turn = λ k. refl;
}

new-Receives : Receives turns (λ k. false) 0 [] RemoteComponentChannel.new
unfolding RemoteComponentChannel.new
new-Receives = record {
  flag = refl;
  epoch = refl;
  buffered = refl;
  later = tt;
  held = λ j le. refl;
  known = tt;
}

accept_message-Toggling_example :
    (c' : RemoteComponentChannel) × (accept_message spawned
        (turns.items.index 2 % 65536)
        (message_of 4 (turns.items.value 2))
        RemoteComponentChannel.new
      ≡ ok c')
    × Handled turns (with_number 2 (λ k. false)) 0 RemoteComponentChannel.new c'
accept_message-Toggling_example =
    accept_message-Toggling turns (λ k. false) 4 0 2 [] RemoteComponentChannel.new new-Receives refl
      tt tt

two_first-Arrivals : Arrivals turns 4 (1 ∷ 0 ∷ [])
two_first-Arrivals = (refl, λ j there. ground arith, (refl, λ j there. cc, tt))

deliver-converges_example :
    (c : RemoteComponentChannel) × (deliver turns 4 (1 ∷ 0 ∷ []) RemoteComponentChannel.new ≡ ok c)
    × (c.inserted ≡ odd 2)
    × (c.buffered_messages ≡ record { inner = [] })
    × Toggles false c.incoming_messages c.inserted
deliver-converges_example =
    deliver-converges turns 4 2 (1 ∷ 0 ∷ []) two_first-Arrivals (λ k. ground arith)

abbrev unknown_entity : RemoteEntityChannel
unknown_entity = RemoteEntityChannel.new client

receive_message-ends_example :
    (is_noop {E = Unit {0}} (spawn tt) ≡ false
      → NoNoop unknown_entity.buffered_messages.inner
      → (receive_message 3 (spawn tt) unknown_entity ≢ ok none)
        × ((c' : RemoteEntityChannel)
            → receive_message 3 (spawn tt) unknown_entity ≡ ok (some c')
            → NoNoop c'.buffered_messages.inner))
    × ((rest : List (ℕ × Message))
        → unknown_entity.buffered_messages.inner ≡ (3, noop) ∷ rest
        → (fuel : ℕ) → process_loop fuel unknown_entity ≡ ok none)
receive_message-ends_example = receive_message-ends 3 (spawn tt) unknown_entity

abbrev known_entity : RemoteEntityChannel
known_entity = record {
  state = spawned;
  last_epoch_id = some 3;
  component_channels = [];
  auth_channel = AuthChannel.new client;
  buffered_messages = no_ids;
  incoming_messages = spawn tt ∷ [];
  outgoing_commands = [];
}

unknown_entity-Quiet : Quiet unknown_entity
unfolding RemoteEntityChannel.new
unknown_entity-Quiet = record { auth = refl; components = tt }

unknown_entity-spawn : receive_message 3 (spawn tt) unknown_entity ≡ ok (some known_entity)
unfolding RemoteEntityChannel.new receive_message process_loop push_back insert_behind
    pop_front_until_and_excluding sequence_less_than AuthChannel.receiver_process_messages
    AuthChannelReceiver.process_messages AuthChannel.receiver_buffer_pop_front_until_and_including
    AuthChannelReceiver.buffer_pop_front_until_and_including pop_front_until_and_including
unknown_entity-spawn = refl

receive_message-Lifetime_example : Quiet known_entity × Hands unknown_entity known_entity
receive_message-Lifetime_example =
    receive_message-Lifetime 3 (spawn tt) unknown_entity known_entity unknown_entity-Quiet
      unknown_entity-spawn

abbrev host_entity : HostEntityChannel
host_entity = new_host_channel server

abbrev host_entity_with_four : HostEntityChannel
host_entity_with_four = record host_entity {
  component_channels = 4 ∷ [];
  outgoing_commands = EntityCommand.insert_component 0 4 ∷ [];
}

host_entity-inserts :
    send_host_command (EntityCommand.insert_component 0 4) host_entity ≡ ok host_entity_with_four
unfolding new_host_channel send_host_command
host_entity-inserts = refl

host_entity-empty : host_entity.auth_channel.sender.outgoing_commands ≡ []
unfolding new_host_channel AuthChannel.new
host_entity-empty = refl

send_host_command-SendsInTurn_example : SendsInTurn 4 host_entity host_entity_with_four
send_host_command-SendsInTurn_example =
    send_host_command-SendsInTurn 4 (EntityCommand.insert_component 0 4) host_entity
      host_entity_with_four host_entity-empty host_entity-inserts
