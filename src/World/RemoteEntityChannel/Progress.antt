-- ===== src/World/RemoteEntityChannel/Progress.antt =====
-- Each round of the loop of a RemoteEntityChannel takes a message from the buffer or ends the loop, and
-- hands on what may be applied.
use naia.Base.{
  ℕ, ◌<◌, ◌≡◌, refl, sym, ap, ◌∙◌, inl, inr, Bool, true, false, List, [], ◌∷◌, ◌++◌, arith, length,
  All, Bool-cases,
}
use naia.Base.Outcome.{ok, >>=-eq-ok}
use naia.World.EntityMessage.{spawn, spawn_with_components}
use naia.World.EntityChannelState.{despawned, spawned, is_spawned}
use naia.World.OrderedIds.{OrderedIds, pop_loop, pop_front_until, pop_front_until_and_excluding}
use naia.World.AuthChannel.{AuthChannel}
use naia.World.AuthChannelReceiver.{Message}
use naia.World.RemoteEntityChannel
use naia.World.RemoteEntityChannel.{
  RemoteEntityChannel, pop_message, pop_front_into_outgoing, drain_auth, wake_auth, wake_loop,
  wake_components, channel_of, insert_kinds, begin, on_spawn, on_spawn_with_components, on_despawn,
  on_component, on_auth, on_message,
}
use naia.World.RemoteEntityChannel.Lifetime.{Adds, Adds-trans, Drained}
use naia.Sequence.{sequence_less_than, sequence_greater_than}
use mathlib.Core.Path.{subst}
use naia.World.RemoteEntityChannel.Rounds.{
  NoNoop, Quiet, Hands, despawned-of, Hands-after, Hands-nothing, AuthStage, ComponentStage,
  wake_auth-AuthStage, wake_components-ComponentStage, insert_kinds-ComponentStage,
}
use naia.Sequence.{sequence_greater_than}

-- A round that does not end the loop leaves fewer messages; every round leaves no noop if there was
-- none, leaves nothing to be drained, and hands on what may be applied.
abbrev pub Progress : Bool → RemoteEntityChannel → RemoteEntityChannel → Type 0
Progress b c c' =
    (b ≡ true → length c'.buffered_messages.inner < length c.buffered_messages.inner)
    × (NoNoop c.buffered_messages.inner → NoNoop c'.buffered_messages.inner)
    × (Quiet c → Quiet c' × Hands c c')

-- The front message is taken.
pub taken :
    (c c' : RemoteEntityChannel) (id : ℕ) (m : Message) (rest : List (ℕ × Message))
    → c.buffered_messages.inner ≡ (id, m) ∷ rest
    → c'.buffered_messages.inner ≡ rest
    → (length c'.buffered_messages.inner < length c.buffered_messages.inner)
      × (NoNoop c.buffered_messages.inner → NoNoop c'.buffered_messages.inner)
taken c c' id m rest front left = (
  omega (arith, ap length front, ap length left),
  λ h. subst NoNoop (sym left) (subst NoNoop front h).1,
)

pub stays :
    (c c' : RemoteEntityChannel) (b : Bool)
    → ◌≡◌ {A = RemoteEntityChannel.Round} (ok (false, c)) (ok (b, c'))
    → Progress b c c'
stays c c' b e =
    let f : false ≡ b = cc in
    let same : c ≡ c' = cc in
    (
      λ t. cc,
      λ n. subst (λ (x : RemoteEntityChannel). NoNoop x.buffered_messages.inner) same n,
      λ q. (
        subst Quiet same q,
        Hands-nothing c c' (ap (λ (x : RemoteEntityChannel). x.state) (sym same))
            (ap (λ (x : RemoteEntityChannel). x.incoming_messages) (sym same)),
      ),
    )

not_below_itself : (id : ℕ) → sequence_less_than id id ≡ false
unfolding sequence_less_than sequence_greater_than
not_below_itself id = ground arith

-- A spawn in front is in front of the buffer from its id on.
front-begin :
    (id : ℕ) (m : Message) (rest items : List (ℕ × Message))
    → items ≡ (id, m) ∷ rest
    → pop_loop id false items ≡ (id, m) ∷ rest
unfolding pop_loop
front-begin id m rest items e = ap (pop_loop id false) e ∙ rw (not_below_itself id)

pop_message-begin :
    (c : RemoteEntityChannel) (id : ℕ) (m : Message) (rest : List (ℕ × Message))
    → c.buffered_messages.inner ≡ (id, m) ∷ rest
    → pop_message (begin id c)
      ≡ ok (id, m, record (begin id c) { buffered_messages = record { inner = rest } })
unfolding pop_message begin pop_front_until_and_excluding pop_front_until
pop_message-begin c id m rest front =
    ap (λ items. RemoteEntityChannel.pop_from items (begin id c))
      (front-begin id m rest c.buffered_messages.inner front)

unfoldable pub popped_front :
    ℕ → Message → List (ℕ × Message) → RemoteEntityChannel → RemoteEntityChannel
popped_front id m rest c = record c {
  buffered_messages = record { inner = rest };
  incoming_messages = c.incoming_messages ++ (m ∷ []);
}

pub pop_front_into_outgoing-front :
    (id : ℕ) (m : Message) (rest : List (ℕ × Message)) (c : RemoteEntityChannel)
    → pop_message c ≡ ok (id, m, record c { buffered_messages = record { inner = rest } })
    → pop_front_into_outgoing c ≡ ok (popped_front id m rest c)
unfolding pop_front_into_outgoing popped_front
pop_front_into_outgoing-front id m rest c e = rw e

-- A woken channel, from one in which the spawn has just been taken.
woken-Progress :
    (id : ℕ) (m : Message) (rest : List (ℕ × Message)) (c begun c' : RemoteEntityChannel) (b : Bool)
    → c.buffered_messages.inner ≡ (id, m) ∷ rest
    → c.state ≡ despawned
    → begun.buffered_messages.inner ≡ rest
    → begun.state ≡ spawned
    → begun.auth_channel ≡ c.auth_channel
    → begun.component_channels ≡ c.component_channels
    → begun.incoming_messages ≡ c.incoming_messages ++ (spawn tt ∷ [])
    → c'.buffered_messages ≡ begun.buffered_messages
    → c'.state ≡ begun.state
    → (begun.auth_channel.receiver.incoming_messages ≡ []
        → Adds begun.incoming_messages c'.incoming_messages)
    → (Quiet begun → Quiet c')
    → Progress b c c'
woken-Progress id m rest c begun c' b front gone left there auth channels grown buffer same added
      quiet =
    (
      λ t. (taken c c' id m rest front (ap (λ (o : OrderedIds Message). o.inner) buffer ∙ left)).0,
      (taken c c' id m rest front (ap (λ (o : OrderedIds Message). o.inner) buffer ∙ left)).1,
      λ q.
          let q' : Quiet begun = record {
            auth = ap (λ (a : AuthChannel). a.receiver.incoming_messages) auth ∙ q.auth;
            components = subst (All Drained) (sym channels) q.components;
          } in
          (
            quiet q',
            Hands-after c c' despawned (spawn tt) gone refl (same ∙ there)
                (subst (λ (l : List Message). Adds l c'.incoming_messages) grown (added q'.auth)),
          ),
    )

pub on_spawn-Progress :
    (id : ℕ) (rest : List (ℕ × Message)) (c c' : RemoteEntityChannel) (b : Bool)
    → c.buffered_messages.inner ≡ (id, spawn tt) ∷ rest
    → on_spawn id c ≡ ok (b, c')
    → Progress b c c'
unfolding on_spawn popped_front begin
on_spawn-Progress id rest c c' b front e = elim (Bool-cases (is_spawned c.state)) [
  | inl there ↦ stays c c' b (rw there at e)
  | inr gone ↦
      let next = rw gone at e in
      let (begun, e1, r1) = >>=-eq-ok (pop_front_into_outgoing (begin id c)) _ next in
      let (authorised, e2, r2) = >>=-eq-ok (wake_auth id begun) _ r1 in
      let (woken, e3, r3) = >>=-eq-ok (wake_components id authorised) _ r2 in
      let first =
        pop_front_into_outgoing-front id (spawn tt) rest (begin id c)
          (pop_message-begin c id (spawn tt) rest front) in
      let begun0 : RemoteEntityChannel = popped_front id (spawn tt) rest (begin id c) in
      let same : begun ≡ begun0 = cc in
      let last : woken ≡ c' = cc in
      let (b1, s1, c1, a1, q1) =
        subst (λ (x : RemoteEntityChannel). AuthStage x authorised) same
          (wake_auth-AuthStage id begun authorised e2) in
      let (b2, s2, k2, a2, q2) =
        subst (ComponentStage authorised) last
          (wake_components-ComponentStage id authorised woken e3) in
      woken-Progress id (spawn tt) rest c begun0 c' b front (despawned-of c.state gone) refl refl
        refl refl refl (b2 ∙ b1) (s2 ∙ s1)
        (λ q. Adds-trans _ authorised.incoming_messages _ (a1 q) a2)
        (λ q. record {
          auth = ap (λ (a : AuthChannel). a.receiver.incoming_messages) k2 ∙ q1;
          components = q2 (subst (All Drained) (sym c1) q.components);
        })
]

pub on_spawn_with_components-Progress :
    (id : ℕ) (kinds : List ℕ) (rest : List (ℕ × Message)) (c c' : RemoteEntityChannel) (b : Bool)
    → c.buffered_messages.inner ≡ (id, spawn_with_components tt kinds) ∷ rest
    → on_spawn_with_components id kinds c ≡ ok (b, c')
    → Progress b c c'
unfolding on_spawn_with_components popped_front begin
on_spawn_with_components-Progress id kinds rest c c' b front e =
    elim (Bool-cases (is_spawned c.state)) [
      | inl there ↦ stays c c' b (rw there at e)
      | inr gone ↦
          let next = rw gone at e in
          let m : Message = spawn_with_components tt kinds in
          let (popped, e1, r1) = >>=-eq-ok (pop_message (begin id c)) _ next in
          let begun0 : RemoteEntityChannel = popped_front id (spawn tt) rest (begin id c) in
          let was : RemoteEntityChannel = record popped.2 {
            incoming_messages = popped.2.incoming_messages ++ (spawn tt ∷ []);
          } in
          let (woken, e2, r2) = >>=-eq-ok (wake_components id was) _ r1 in
          let filled : RemoteEntityChannel = insert_kinds id kinds woken in
          let (authorised, e3, r3) = >>=-eq-ok (wake_auth id filled) _ r2 in
          let first = pop_message-begin c id m rest front in
          let rest0 : RemoteEntityChannel = record (begin id c) {
            buffered_messages = record { inner = rest };
          } in
          let same : popped.2 ≡ rest0 = cc in
          let begun_is : was ≡ begun0 =
            ap
              (λ (x : RemoteEntityChannel). record x {
                incoming_messages = x.incoming_messages ++ (spawn tt ∷ []);
              })
              same in
          let last : authorised ≡ c' = cc in
          let (b1, s1, k1, a1, q1) =
            subst (λ (x : RemoteEntityChannel). ComponentStage x woken) begun_is
              (wake_components-ComponentStage id was woken e2) in
          let (b2, s2, k2, a2, q2) = insert_kinds-ComponentStage id kinds woken in
          let (b3, s3, c3, a3, q3) =
            subst (AuthStage filled) last (wake_auth-AuthStage id filled authorised e3) in
          let auth_same = k2 ∙ k1 in
          woken-Progress id m rest c begun0 c' b front (despawned-of c.state gone) refl refl refl
            refl refl (b3 ∙ b2 ∙ b1) (s3 ∙ s2 ∙ s1)
            (λ q.
              Adds-trans _ filled.incoming_messages _ (Adds-trans _ woken.incoming_messages _ a1 a2)
                (a3 (ap (λ (a : AuthChannel). a.receiver.incoming_messages) auth_same ∙ q)))
            (λ q. record {
              auth = q3;
              components = subst (All Drained) (sym c3) (q2 (q1 q.components));
            })
    ]
