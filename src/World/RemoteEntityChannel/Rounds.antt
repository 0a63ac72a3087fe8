-- ===== src/World/RemoteEntityChannel/Rounds.antt =====
-- What a round of the loop of a RemoteEntityChannel does to its buffer and to what it hands on.
use naia.Base.{
  ℕ, ◌≤◌, ◌≡◌, refl, sym, ap, ◌∙◌, inl, inr, Bool, true, false, ◌&&◌, ◌||◌, some, List, [], ◌∷◌,
  ◌++◌, append_assoc, append-nil, arith, ◌==◌, length, All, Bool-cases,
}
use naia.Base.Assoc.{insert_key}
use naia.Base.Outcome.{ok, >>=-eq-ok}
use naia.World.EntityMessage.{insert_component, is_noop}
use naia.World.EntityChannelState.{EntityChannelState, despawned, spawned, is_spawned}
use naia.World.OrderedIds.{pop_loop}
use naia.World.AuthChannel.{
  AuthChannel, receiver_process_messages, receiver_drain_messages_into,
  receiver_buffer_pop_front_until_and_including,
}
use naia.World.AuthChannelReceiver
use naia.World.AuthChannelReceiver.{
  AuthChannelReceiver, Message, after_round, may_process, drain_receiver_into, new_receiver,
}
use naia.World.RemoteComponentChannel.{set_inserted}
use naia.World.RemoteEntityChannel.{
  RemoteEntityChannel, drain_auth, wake_auth, wake_loop, wake_components, channel_of, insert_kinds,
}
use naia.World.RemoteEntityChannel.Lifetime.{
  after, Lifetime, Adds, Adds-trans, auth_loop-Adds, Drained, wake_loop-Adds, insert_key-Drained,
  channel_of-Drained,
}
use naia.Sequence.{sequence_less_than}
use mathlib.Core.Path.{subst}

abbrev pub NoNoop : List (ℕ × Message) → Type 0
NoNoop [] = Unit
NoNoop ((id, m) ∷ items) = (is_noop m ≡ false) × NoNoop items

-- No more messages than before, and none that is a noop if none was.
abbrev pub Within : List (ℕ × Message) → List (ℕ × Message) → Type 0
Within later before = (length later ≤ length before) × (NoNoop before → NoNoop later)

pub pop_loop-Within :
    (id : ℕ) (including : Bool) (items : List (ℕ × Message))
    → Within (pop_loop id including items) items
unfolding pop_loop
pop_loop-Within id including [] = (omega arith, λ h. h)
pop_loop-Within id including ((old, m) ∷ items) =
    let (a, b) = pop_loop-Within id including items in
    elim (Bool-cases (sequence_less_than old id || (including && old == id))) [
      | inl popped ↦ rw popped (omega arith, λ h. b h.1)
      | inr kept ↦ rw kept (omega arith, λ h. h)
    ]

pub Within-eq : (later before : List (ℕ × Message)) → later ≡ before → Within later before
Within-eq later before e = (
  omega (arith, ap length e),
  subst (λ (l : List (ℕ × Message)). NoNoop before → NoNoop l) (sym e) (λ h. h),
)

-- Nothing is left to be drained from the channels of the components and of authority.
pub record Quiet (c : RemoteEntityChannel) : Type 0 where
  pub auth : c.auth_channel.receiver.incoming_messages ≡ []
  pub components : All Drained c.component_channels

-- What is handed on may be applied, from the state before to the state after.
abbrev pub Hands : RemoteEntityChannel → RemoteEntityChannel → Type 0
Hands c c' =
    (ms : List Message) × (c'.incoming_messages ≡ c.incoming_messages ++ ms)
    × Lifetime c.state ms c'.state

pub spawned-of : (t : EntityChannelState) → is_spawned t ≡ true → t ≡ spawned
spawned-of spawned h = refl
spawned-of despawned h = cc

pub despawned-of : (t : EntityChannelState) → is_spawned t ≡ false → t ≡ despawned
despawned-of spawned h = cc
despawned-of despawned h = refl

-- A message is handed on, and after it such as may be applied while the entity is there.
pub Hands-after :
    (c c' : RemoteEntityChannel) (s : EntityChannelState) (m : Message)
    → c.state ≡ s
    → after s m ≡ some spawned
    → c'.state ≡ spawned
    → Adds (c.incoming_messages ++ (m ∷ [])) c'.incoming_messages
    → Hands c c'
Hands-after c c' s m e a e' (ms, grown, l) = (
  m ∷ ms,
  grown ∙ append_assoc c.incoming_messages (m ∷ []) ms,
  (
    spawned,
    ap (λ (t : EntityChannelState). after t m) e ∙ a,
    subst (λ (t : EntityChannelState). Lifetime spawned ms t) (sym e') l,
  ),
)

pub Hands-Adds :
    (c c' : RemoteEntityChannel)
    → c.state ≡ spawned
    → c'.state ≡ spawned
    → Adds c.incoming_messages c'.incoming_messages
    → Hands c c'
Hands-Adds c c' e e' (ms, grown, l) = (
  ms,
  grown,
  subst (λ (t : EntityChannelState). Lifetime t ms c'.state) (sym e)
      (subst (λ (t : EntityChannelState). Lifetime spawned ms t) (sym e') l),
)

pub Hands-nothing :
    (c c' : RemoteEntityChannel)
    → c'.state ≡ c.state
    → c'.incoming_messages ≡ c.incoming_messages
    → Hands c c'
Hands-nothing c c' e i = ([], i ∙ sym (append-nil c.incoming_messages), sym e)

-- The auth channel is brought up to the present and drained.
abbrev pub AuthStage : RemoteEntityChannel → RemoteEntityChannel → Type 0
AuthStage c c' =
    (c'.buffered_messages ≡ c.buffered_messages)
    × (c'.state ≡ c.state)
    × (c'.component_channels ≡ c.component_channels)
    × (c.auth_channel.receiver.incoming_messages ≡ []
        → Adds c.incoming_messages c'.incoming_messages)
    × (c'.auth_channel.receiver.incoming_messages ≡ [])

-- The component channels are brought up to the present and drained.
abbrev pub ComponentStage : RemoteEntityChannel → RemoteEntityChannel → Type 0
ComponentStage c c' =
    (c'.buffered_messages ≡ c.buffered_messages)
    × (c'.state ≡ c.state)
    × (c'.auth_channel ≡ c.auth_channel)
    × Adds c.incoming_messages c'.incoming_messages
    × (All Drained c.component_channels → All Drained c'.component_channels)

pub receiver_process-Adds :
    (a a' : AuthChannel)
    → receiver_process_messages spawned a ≡ ok a'
    → Adds a.receiver.incoming_messages a'.receiver.incoming_messages
unfolding receiver_process_messages AuthChannelReceiver.process_messages
receiver_process-Adds a a' e =
    let (r, e1, r1) =
      >>=-eq-ok (AuthChannelReceiver.process_messages (some spawned) a.receiver) _ e in
    let (round, e2, r2) =
      >>=-eq-ok
        (AuthChannelReceiver.process_loop a.receiver.next_subcommand_id
          a.receiver.buffered_messages.inner a.receiver.incoming_messages)
        _ e1 in
    let same : after_round a.receiver round ≡ r = cc in
    let same' : record a { receiver = r } ≡ a' = cc in
    let added =
      auth_loop-Adds a.receiver.buffered_messages.inner a.receiver.next_subcommand_id
        a.receiver.incoming_messages round.0 round.1 round.2 e2 in
    subst (λ (x : AuthChannel). Adds a.receiver.incoming_messages x.receiver.incoming_messages)
      same'
      (subst (λ (x : AuthChannelReceiver). Adds a.receiver.incoming_messages x.incoming_messages)
        same added)

pub Adds-front : (before a b : List Message) → a ≡ [] → Adds a b → Adds before (before ++ b)
Adds-front before a b e (ms, f, l) =
    (ms, ap (λ (x : List Message). before ++ x) (f ∙ ap (λ (x : List Message). x ++ ms) e), l)

pub wake_auth-AuthStage :
    (id : ℕ) (c c' : RemoteEntityChannel) → wake_auth id c ≡ ok c' → AuthStage c c'
unfolding wake_auth drain_auth receiver_drain_messages_into drain_receiver_into
    receiver_buffer_pop_front_until_and_including
    AuthChannelReceiver.buffer_pop_front_until_and_including
wake_auth-AuthStage id c c' e =
    let popped = receiver_buffer_pop_front_until_and_including id c.auth_channel in
    let (a, e1, r1) = >>=-eq-ok (receiver_process_messages spawned popped) _ e in
    let same : drain_auth (record c { auth_channel = a }) ≡ c' = cc in
    subst (AuthStage c) same (
      refl,
      refl,
      refl,
      λ q. Adds-front c.incoming_messages _ _ q (receiver_process-Adds popped a e1),
      refl,
    )

pub wake_components-ComponentStage :
    (id : ℕ) (c c' : RemoteEntityChannel) → wake_components id c ≡ ok c' → ComponentStage c c'
unfolding wake_components
wake_components-ComponentStage id c c' e =
    let (woken, e1, r1) = >>=-eq-ok (wake_loop id c.component_channels c.incoming_messages) _ e in
    let same : record c { component_channels = woken.0; incoming_messages = woken.1 } ≡ c' = cc in
    let (added, drained) =
      wake_loop-Adds id c.component_channels woken.0 c.incoming_messages woken.1 e1 in
    subst (ComponentStage c) same (refl, refl, refl, added, λ q. drained)

pub insert_kinds-ComponentStage :
    (id : ℕ) (kinds : List ℕ) (c : RemoteEntityChannel) → ComponentStage c (insert_kinds id kinds c)
unfolding insert_kinds set_inserted
insert_kinds-ComponentStage id [] c = (refl, refl, refl, ([], sym (append-nil _), refl), λ q. q)
insert_kinds-ComponentStage id (kind ∷ kinds) c =
    let c1 : RemoteEntityChannel = record c {
      component_channels =
          insert_key kind (set_inserted true id (channel_of kind c.component_channels))
            c.component_channels;
      incoming_messages = c.incoming_messages ++ (insert_component tt kind ∷ []);
    } in
    let (b, s, a, added, drained) = insert_kinds-ComponentStage id kinds c1 in
    (
      b,
      s,
      a,
      Adds-trans c.incoming_messages c1.incoming_messages _
          (insert_component tt kind ∷ [], refl, (spawned, refl, refl)) added,
      λ q. drained (
          insert_key-Drained kind _ c.component_channels
            (channel_of-Drained kind c.component_channels q) q),
    )
