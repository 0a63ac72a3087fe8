-- ===== src/World/RemoteEntityChannel/Branches.antt =====
-- The other rounds of the loop of a RemoteEntityChannel, and all of them together.
use naia.Base.{
  ℕ, ◌≡◌, refl, sym, ap, ◌∙◌, inl, inr, Bool, true, false, some, List, [], ◌∷◌, ◌++◌, append-nil,
  arith, if◌then◌else◌, length, Bool-cases,
}
use naia.Base.Assoc.{insert_key}
use naia.Base.Outcome.{ok, >>=-eq-ok}
use naia.World.EntityMessage.{despawn}
use naia.World.EntityChannelState.{EntityChannelState, despawned, spawned, is_spawned}
use naia.World.OrderedIds.{clear_ids, push_back}
use naia.World.AuthChannel
use naia.World.AuthChannel.{
  AuthChannel, reset, receiver_process_messages, receiver_drain_messages_into,
  receiver_receive_message, receiver_buffer_pop_front_until_and_including,
}
use naia.World.AuthChannelReceiver
use naia.World.AuthChannelReceiver.{
  AuthChannelReceiver, Message, after_round, may_process, drain_receiver_into, new_receiver,
}
use naia.World.RemoteComponentChannel
use naia.World.RemoteComponentChannel.{
  RemoteComponentChannel, set_inserted, accept_message, drain_component_into, with_kinds,
}
use naia.World.RemoteEntityChannel
use naia.World.RemoteEntityChannel.{
  RemoteEntityChannel, pop_message, pop_front_into_outgoing, drain_auth, wake_auth, wake_loop,
  wake_components, channel_of, insert_kinds, begin, on_spawn, on_spawn_with_components, on_despawn,
  on_component, on_auth, on_message,
}
use naia.World.RemoteEntityChannel.Lifetime.{
  after, Adds, drain-Adds, insert_key-Drained, channel_of-Drained,
}
use mathlib.Core.Path.{subst}
use naia.World.RemoteEntityChannel.Rounds.{
  spawned-of, despawned-of, Hands-Adds, Hands-nothing, receiver_process-Adds, Adds-front,
}
use naia.World.RemoteEntityChannel.Progress.{
  Progress, taken, stays, popped_front, pop_front_into_outgoing-front,
}

pop_message-front :
    (c : RemoteEntityChannel) (id : ℕ) (m : Message) (rest : List (ℕ × Message))
    → c.buffered_messages.inner ≡ (id, m) ∷ rest
    → pop_message c ≡ ok (id, m, record c { buffered_messages = record { inner = rest } })
unfolding pop_message
pop_message-front c id m rest front = ap (λ items. RemoteEntityChannel.pop_from items c) front

pub on_despawn-Progress :
    (id : ℕ) (rest : List (ℕ × Message)) (c c' : RemoteEntityChannel) (b : Bool)
    → c.buffered_messages.inner ≡ (id, despawn tt) ∷ rest
    → on_despawn id c ≡ ok (b, c')
    → Progress b c c'
unfolding on_despawn popped_front reset AuthChannel.new new_receiver clear_ids
on_despawn-Progress id rest c c' b front e = elim (Bool-cases (is_spawned c.state)) [
  | inr gone ↦ stays c c' b (rw gone at e)
  | inl there ↦
      let next = rw there at e in
      let ended : RemoteEntityChannel = record c {
        state = despawned;
        last_epoch_id = some id;
        auth_channel = reset c.auth_channel;
        component_channels = [];
      } in
      let (popped, e1, r1) = >>=-eq-ok (pop_front_into_outgoing ended) _ next in
      let first =
        pop_front_into_outgoing-front id (despawn tt) rest ended
          (pop_message-front ended id (despawn tt) rest front) in
      let same : popped ≡ popped_front id (despawn tt) rest ended = cc in
      let last : record popped { buffered_messages = clear_ids popped.buffered_messages } ≡ c' =
        cc in
      let result =
        ap
          (λ (x : RemoteEntityChannel). record x {
            buffered_messages = clear_ids x.buffered_messages;
          })
          (sym same)
        ∙ last in
      subst (Progress b c) result (
        λ t. omega (arith, ap length front),
        λ h. tt,
        λ q. (
          record { auth = refl; components = tt },
          (
            despawn tt ∷ [],
            refl,
            (
              despawned,
              ap (λ (t : EntityChannelState). after t (despawn tt)) (spawned-of c.state there),
              refl,
            ),
          ),
        ),
      )
]

accept-despawned :
    (id : ℕ) (m : Message) (channel channel' : RemoteComponentChannel)
    → accept_message despawned id m channel ≡ ok channel'
    → channel'.incoming_messages ≡ channel.incoming_messages
unfolding accept_message RemoteComponentChannel.process_messages
accept-despawned id m channel channel' e =
    elim (Bool-cases (RemoteComponentChannel.is_stale id channel.last_epoch_id)) [
      | inl stale ↦
          let f = rw stale at e in
          let same : channel ≡ channel' = cc in
          ap (λ (x : RemoteComponentChannel). x.incoming_messages) (sym same)
      | inr newer ↦
          let f = rw newer at e in
          let (insert, e1, r1) = >>=-eq-ok (RemoteComponentChannel.insert_of m) _ f in
          let same : record channel {
            buffered_messages = push_back id insert channel.buffered_messages;
          }
              ≡ channel' =
            cc in
          ap (λ (x : RemoteComponentChannel). x.incoming_messages) (sym same)
    ]

drain_nothing :
    (kind : ℕ) (incoming incoming' : List Message) (channel channel' : RemoteComponentChannel)
    → channel.incoming_messages ≡ []
    → drain_component_into kind incoming channel ≡ ok (incoming', channel')
    → incoming' ≡ incoming
unfolding drain_component_into with_kinds
drain_nothing kind incoming incoming' channel channel' empty e =
    let (ms, e1, r1) = >>=-eq-ok (with_kinds kind channel.incoming_messages) _ e in
    let none_there : with_kinds kind channel.incoming_messages ≡ ok [] =
      ap (with_kinds kind) empty in
    let nothing : ms ≡ [] = cc in
    let grown : incoming ++ ms ≡ incoming' = cc in
    sym grown ∙ ap (λ (l : List Message). incoming ++ l) nothing ∙ append-nil incoming

pub on_component-Progress :
    (id kind : ℕ) (m : Message) (rest : List (ℕ × Message)) (c c' : RemoteEntityChannel) (b : Bool)
    → c.buffered_messages.inner ≡ (id, m) ∷ rest
    → on_component id kind m c ≡ ok (b, c')
    → Progress b c c'
unfolding on_component
on_component-Progress id kind m rest c c' b front e =
    let channel : RemoteComponentChannel = channel_of kind c.component_channels in
    let (popped, e1, r1) = >>=-eq-ok (pop_message c) _ e in
    let (accepted, e2, r2) = >>=-eq-ok (accept_message c.state id m channel) _ r1 in
    let (drained, e3, r3) =
      >>=-eq-ok (drain_component_into kind c.incoming_messages accepted) _ r2 in
    let first = pop_message-front c id m rest front in
    let rest0 : RemoteEntityChannel = record c { buffered_messages = record { inner = rest } } in
    let same : popped.2 ≡ rest0 = cc in
    let last : record popped.2 {
      component_channels = insert_key kind drained.1 c.component_channels;
      incoming_messages = drained.0;
    }
        ≡ c' =
      cc in
    let result =
      ap
        (λ (x : RemoteEntityChannel). record x {
          component_channels = insert_key kind drained.1 c.component_channels;
          incoming_messages = drained.0;
        })
        (sym same)
      ∙ last in
    let (added, empty) = drain-Adds kind c.incoming_messages drained.0 accepted drained.1 e3 in
    let c0 : RemoteEntityChannel = record c {
      component_channels = insert_key kind drained.1 c.component_channels;
      incoming_messages = drained.0;
      buffered_messages = record { inner = rest };
    } in
    subst (Progress b c) result (
      λ t. (taken c c0 id m rest front refl).0,
      (taken c c0 id m rest front refl).1,
      λ q. (
        record {
          auth = q.auth;
          components = insert_key-Drained kind drained.1 c.component_channels empty q.components;
        },
        elim (Bool-cases (is_spawned c.state)) [
          | inl there ↦ Hands-Adds c c0 (spawned-of c.state there) (spawned-of c.state there) added
          | inr gone ↦
              let at_rest =
                ap (λ (t : EntityChannelState). accept_message t id m channel)
                  (sym (despawned-of c.state gone))
                ∙ e2 in
              let quiet =
                accept-despawned id m channel accepted at_rest
                ∙ channel_of-Drained kind c.component_channels q.components in
              Hands-nothing c c0 refl
                (drain_nothing kind c.incoming_messages drained.0 accepted drained.1 quiet e3)
        ],
      ),
    )

receive-Adds :
    (t : EntityChannelState) (id : ℕ) (m : Message) (a a' : AuthChannel)
    → receiver_receive_message (some t) id m a ≡ ok a'
    → (is_spawned t ≡ true → Adds a.receiver.incoming_messages a'.receiver.incoming_messages)
      × (is_spawned t ≡ false → a'.receiver.incoming_messages ≡ a.receiver.incoming_messages)
unfolding receiver_receive_message receiver_process_messages AuthChannelReceiver.receive_message
    AuthChannelReceiver.process_messages
receive-Adds spawned id m a a' e =
    let pushed : AuthChannel = record a {
      receiver = record a.receiver {
        buffered_messages = push_back id m a.receiver.buffered_messages;
      };
    } in
    (λ t. receiver_process-Adds pushed a' e, λ t. cc)
receive-Adds despawned id m a a' e =
    let same : record a {
      receiver = record a.receiver {
        buffered_messages = push_back id m a.receiver.buffered_messages;
      };
    }
        ≡ a' =
      cc in
    (λ t. cc, λ t. ap (λ (x : AuthChannel). x.receiver.incoming_messages) (sym same))

pub on_auth-Progress :
    (id : ℕ) (m : Message) (rest : List (ℕ × Message)) (c c' : RemoteEntityChannel) (b : Bool)
    → c.buffered_messages.inner ≡ (id, m) ∷ rest
    → on_auth id m c ≡ ok (b, c')
    → Progress b c c'
unfolding on_auth drain_auth receiver_drain_messages_into drain_receiver_into
on_auth-Progress id m rest c c' b front e =
    let (popped, e1, r1) = >>=-eq-ok (pop_message c) _ e in
    let (a, e2, r2) =
      >>=-eq-ok (receiver_receive_message (some c.state) id m c.auth_channel) _ r1 in
    let first = pop_message-front c id m rest front in
    let rest0 : RemoteEntityChannel = record c { buffered_messages = record { inner = rest } } in
    let same : popped.2 ≡ rest0 = cc in
    let outcome = λ (x : RemoteEntityChannel) (t : Bool).
      if t then drain_auth (record x { auth_channel = a }) else record x { auth_channel = a } in
    let last : outcome popped.2 (is_spawned c.state) ≡ c' = cc in
    let (grows, keeps) = receive-Adds c.state id m c.auth_channel a e2 in
    elim (Bool-cases (is_spawned c.state)) [
      | inl there ↦
          let c0 : RemoteEntityChannel = outcome rest0 true in
          let result : c0 ≡ c' =
            ap (outcome rest0) (sym there)
            ∙ ap (λ (x : RemoteEntityChannel). outcome x (is_spawned c.state)) (sym same)
            ∙ last in
          subst (Progress b c) result (
            λ t. (taken c c0 id m rest front refl).0,
            (taken c c0 id m rest front refl).1,
            λ q. (
              record { auth = refl; components = q.components },
              Hands-Adds c c0 (spawned-of c.state there) (spawned-of c.state there)
                  (Adds-front c.incoming_messages _ _ q.auth (grows there)),
            ),
          )
      | inr gone ↦
          let c0 : RemoteEntityChannel = outcome rest0 false in
          let result : c0 ≡ c' =
            ap (outcome rest0) (sym gone)
            ∙ ap (λ (x : RemoteEntityChannel). outcome x (is_spawned c.state)) (sym same)
            ∙ last in
          subst (Progress b c) result (
            λ t. (taken c c0 id m rest front refl).0,
            (taken c c0 id m rest front refl).1,
            λ q. (
              record { auth = keeps gone ∙ q.auth; components = q.components },
              Hands-nothing c c0 refl refl,
            ),
          )
    ]
