-- ===== src/World/RemoteEntityChannel/Ending.antt =====
-- The loop of a RemoteEntityChannel ends, and what it hands on makes up lifetimes of the entity.
use naia.Base.{
  ℕ, zero, suc, ◌<◌, ◌≡◌, refl, sym, ap, ◌∙◌, ◌≢◌, inl, inr, Bool, true, false, none, some, List,
  [], ◌∷◌, ◌++◌, append_assoc, arith, if◌then◌else◌, length, Bool-cases,
}
use naia.Base.Outcome.{ok, ◌>>=◌, >>=-eq-ok}
use naia.World.EntityMessage.{
  spawn, despawn, spawn_with_components, insert_component, remove_component, publish, unpublish,
  enable_delegation, disable_delegation, set_authority, request_authority, release_authority,
  enable_delegation_response, migrate_response, noop, is_noop,
}
use naia.World.AuthChannelReceiver.{Message}
use naia.World.RemoteEntityChannel
use naia.World.RemoteEntityChannel.{
  RemoteEntityChannel, pop_message, pop_front_into_outgoing, drain_auth, wake_auth, wake_loop,
  wake_components, channel_of, insert_kinds, begin, on_spawn, on_spawn_with_components, on_despawn,
  on_component, on_auth, on_message,
}
use naia.World.RemoteEntityChannel.Lifetime.{Lifetime-append}
use mathlib.Core.Path.{subst}
use naia.World.RemoteEntityChannel.Rounds.{NoNoop, Quiet, Hands, Hands-nothing}
use naia.World.RemoteEntityChannel.Progress.{
  Progress, stays, on_spawn-Progress, on_spawn_with_components-Progress,
}
use naia.World.RemoteEntityChannel.Branches.{
  on_despawn-Progress, on_component-Progress, on_auth-Progress,
}
use naia.World.RemoteEntityChannel.{process_loop, process_entity, receive_message, on_front}

on_message-Progress :
    (id : ℕ) (m : Message) (rest : List (ℕ × Message)) (c c' : RemoteEntityChannel) (b : Bool)
    → is_noop m ≡ false
    → c.buffered_messages.inner ≡ (id, m) ∷ rest
    → on_message id m c ≡ ok (b, c')
    → Progress b c c'
unfolding on_message
on_message-Progress id (spawn e) rest c c' b n f h = on_spawn-Progress id rest c c' b f h
on_message-Progress id (spawn_with_components e kinds) rest c c' b n f h =
    on_spawn_with_components-Progress id kinds rest c c' b f h
on_message-Progress id (despawn e) rest c c' b n f h = on_despawn-Progress id rest c c' b f h
on_message-Progress id (insert_component e kind) rest c c' b n f h =
    on_component-Progress id kind (insert_component e kind) rest c c' b f h
on_message-Progress id (remove_component e kind) rest c c' b n f h =
    on_component-Progress id kind (remove_component e kind) rest c c' b f h
on_message-Progress id (publish k e) rest c c' b n f h =
    on_auth-Progress id (publish k e) rest c c' b f h
on_message-Progress id (unpublish k e) rest c c' b n f h =
    on_auth-Progress id (unpublish k e) rest c c' b f h
on_message-Progress id (enable_delegation k e) rest c c' b n f h =
    on_auth-Progress id (enable_delegation k e) rest c c' b f h
on_message-Progress id (disable_delegation k e) rest c c' b n f h =
    on_auth-Progress id (disable_delegation k e) rest c c' b f h
on_message-Progress id (set_authority k e status) rest c c' b n f h =
    on_auth-Progress id (set_authority k e status) rest c c' b f h
on_message-Progress id (release_authority k e) rest c c' b n f h =
    on_auth-Progress id (release_authority k e) rest c c' b f h
on_message-Progress id (request_authority k e) rest c c' b n f h = cc
on_message-Progress id (enable_delegation_response k e) rest c c' b n f h = cc
on_message-Progress id (migrate_response k e other) rest c c' b n f h = cc
on_message-Progress id noop rest c c' b n f h = unfold is_noop in cc

noop-stays :
    (id : ℕ) (m : Message) (c c' : RemoteEntityChannel) (b : Bool)
    → is_noop m ≡ true
    → on_message id m c ≡ ok (b, c')
    → c ≡ c'
unfolding on_message is_noop
noop-stays id noop c c' b n h = cc
noop-stays id m c c' b n h = cc

Hands-trans : (a b c : RemoteEntityChannel) → Hands a b → Hands b c → Hands a c
Hands-trans a b c (ms, e, l) (ns, f, k) = (
  ms ++ ns,
  f ∙ ap (λ (x : List Message). x ++ ns) e ∙ append_assoc a.incoming_messages ms ns,
  Lifetime-append a.state b.state c.state ms ns l k,
)

-- Whatever is in front, what is handed on may be applied.
front-Hands :
    (items : List (ℕ × Message)) (c c' : RemoteEntityChannel) (b : Bool)
    → c.buffered_messages.inner ≡ items
    → on_front items c ≡ ok (b, c')
    → Quiet c
    → Quiet c' × Hands c c'
front-Hands [] c c' b f h q = (stays c c' b h).2 q
front-Hands ((id, m) ∷ items) c c' b f h q = elim (Bool-cases (is_noop m)) [
  | inr other ↦ (on_message-Progress id m items c c' b other f h).2 q
  | inl nothing ↦
      let same = noop-stays id m c c' b nothing h in
      (
        subst Quiet same q,
        Hands-nothing c c' (ap (λ (x : RemoteEntityChannel). x.state) (sym same))
            (ap (λ (x : RemoteEntityChannel). x.incoming_messages) (sym same)),
      )
]

front-NoNoop :
    (items : List (ℕ × Message)) (c c' : RemoteEntityChannel) (b : Bool)
    → c.buffered_messages.inner ≡ items
    → NoNoop items
    → on_front items c ≡ ok (b, c')
    → (b ≡ true → length c'.buffered_messages.inner < length items)
      × NoNoop c'.buffered_messages.inner
front-NoNoop [] c c' b f n h =
    let kept = subst NoNoop (sym f) n in (λ t. cc, (stays c c' b h).1 kept)
front-NoNoop ((id, m) ∷ items) c c' b f n h =
    let (lt, keeps, hands) = on_message-Progress id m items c c' b n.0 f h in
    (λ t. omega (arith, ap length f, lt t), keeps (subst NoNoop (sym f) n))

pub process_loop-Hands :
    (fuel : ℕ) (c c' : RemoteEntityChannel)
    → process_loop fuel c ≡ ok (some c')
    → Quiet c
    → Quiet c' × Hands c c'
unfolding process_loop
process_loop-Hands zero c c' e q = cc
process_loop-Hands (suc fuel) c c' e q =
    let (round, e1, r1) = >>=-eq-ok (on_front c.buffered_messages.inner c) _ e in
    let (q1, h1) = front-Hands c.buffered_messages.inner c round.1 round.0 refl e1 q in
    elim (Bool-cases round.0) [
      | inl more ↦
          let (q2, h2) = process_loop-Hands fuel round.1 c' (rw more at r1) q1 in
          (q2, Hands-trans c round.1 c' h1 h2)
      | inr done ↦
          let f = rw done at r1 in
          let same : round.1 ≡ c' = cc in
          subst (λ (x : RemoteEntityChannel). Quiet x × Hands c x) same (q1, h1)
    ]

pub process_loop-ends :
    (fuel : ℕ) (c : RemoteEntityChannel)
    → length c.buffered_messages.inner < fuel
    → NoNoop c.buffered_messages.inner
    → process_loop fuel c ≢ ok none
unfolding process_loop
process_loop-ends zero c lt n e = elim lt [ ]
process_loop-ends (suc fuel) c lt n e =
    let (round, e1, r1) = >>=-eq-ok (on_front c.buffered_messages.inner c) _ e in
    let (fewer, n') = front-NoNoop c.buffered_messages.inner c round.1 round.0 refl n e1 in
    elim (Bool-cases round.0) [
      | inl more ↦
          let less = fewer more in process_loop-ends fuel round.1 (omega arith) n' (rw more at r1)
      | inr done ↦ let f = rw done at r1 in cc
    ]

pub process_loop-NoNoop :
    (fuel : ℕ) (c c' : RemoteEntityChannel)
    → process_loop fuel c ≡ ok (some c')
    → NoNoop c.buffered_messages.inner
    → NoNoop c'.buffered_messages.inner
unfolding process_loop
process_loop-NoNoop zero c c' e n = cc
process_loop-NoNoop (suc fuel) c c' e n =
    let (round, e1, r1) = >>=-eq-ok (on_front c.buffered_messages.inner c) _ e in
    let (fewer, n') = front-NoNoop c.buffered_messages.inner c round.1 round.0 refl n e1 in
    elim (Bool-cases round.0) [
      | inl more ↦ process_loop-NoNoop fuel round.1 c' (rw more at r1) n'
      | inr done ↦
          let f = rw done at r1 in
          let same : round.1 ≡ c' = cc in
          subst (λ (x : RemoteEntityChannel). NoNoop x.buffered_messages.inner) same n'
    ]

-- A noop in front is not taken: no number of rounds is enough.
pub noop-endless :
    (fuel id : ℕ) (rest : List (ℕ × Message)) (c : RemoteEntityChannel)
    → c.buffered_messages.inner ≡ (id, noop) ∷ rest
    → process_loop fuel c ≡ ok none
unfolding process_loop on_message
noop-endless zero id rest c f = refl
noop-endless (suc fuel) id rest c f =
    let round : on_front c.buffered_messages.inner c ≡ ok (true, c) =
      ap (λ items. on_front items c) f in
    let again : process_loop fuel c ≡ ok none = noop-endless fuel id rest c f in
    ap
      (λ (r : RemoteEntityChannel.Round).
        r >>= λ x. if x.0 then process_loop fuel x.1 else ok (some x.1))
      round
    ∙ again
