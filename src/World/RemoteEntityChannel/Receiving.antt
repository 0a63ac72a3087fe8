-- ===== src/World/RemoteEntityChannel/Receiving.antt =====
-- `receive_message` of a RemoteEntityChannel ends, and what it hands on makes up lifetimes.
use naia.Base.{
  ℕ, ◌≡◌, refl, ◌≢◌, inl, inr, false, Option, none, some, List, [], ◌∷◌, arith, Bool-cases,
}
use naia.Base.Outcome.{ok}
use naia.World.EntityMessage.{noop, is_noop}
use naia.World.OrderedIds.{OrderedIds, push_back, push_loop, behind_last, insert_behind, or_front}
use naia.World.AuthChannelReceiver.{Message}
use naia.World.RemoteEntityChannel
use naia.World.RemoteEntityChannel.{
  RemoteEntityChannel, pop_message, pop_front_into_outgoing, drain_auth, wake_auth, wake_loop,
  wake_components, channel_of, insert_kinds, begin, on_spawn, on_spawn_with_components, on_despawn,
  on_component, on_auth, on_message,
}
use naia.Sequence.{sequence_less_than}
use mathlib.Core.Path.{subst}
use naia.World.RemoteEntityChannel.Rounds.{NoNoop, Quiet, Hands, Hands-nothing}
use naia.World.RemoteEntityChannel.{process_loop, process_entity, receive_message, on_front}
use naia.World.RemoteEntityChannel.Ending.{
  process_loop-ends, process_loop-NoNoop, process_loop-Hands, noop-endless,
}

abbrev NoNoop? : Option (List (ℕ × Message)) → Type 0
NoNoop? none = Unit
NoNoop? (some items) = NoNoop items

behind_last-NoNoop :
    (old new : ℕ × Message) (rest : List (ℕ × Message)) (o : Option (List (ℕ × Message)))
    → NoNoop (old ∷ new ∷ rest)
    → NoNoop? o
    → NoNoop? (behind_last old new rest o)
behind_last-NoNoop old new rest (some items) n k = (n.0, k)
behind_last-NoNoop old new rest none n k = elim (Bool-cases (sequence_less_than old.0 new.0)) [
  | inl less ↦ rw less n
  | inr other ↦ rw other tt
]

insert_behind-NoNoop :
    (new : ℕ × Message) (items : List (ℕ × Message))
    → is_noop new.1 ≡ false
    → NoNoop items
    → NoNoop? (insert_behind new items)
unfolding insert_behind
insert_behind-NoNoop new [] h n = tt
insert_behind-NoNoop new (old ∷ items) h n =
    behind_last-NoNoop old new items (insert_behind new items) (n.0, (h, n.1))
      (insert_behind-NoNoop new items h n.1)

or_front-NoNoop :
    (new : ℕ × Message) (items : List (ℕ × Message)) (o : Option (List (ℕ × Message)))
    → is_noop new.1 ≡ false
    → NoNoop items
    → NoNoop? o
    → NoNoop (or_front new items o)
or_front-NoNoop new items none h n k = (h, n)
or_front-NoNoop new items (some items') h n k = k

pushed-NoNoop :
    (id : ℕ) (m : Message) (o : OrderedIds Message)
    → is_noop m ≡ false
    → NoNoop o.inner
    → NoNoop (push_back id m o).inner
unfolding push_back push_loop
pushed-NoNoop id m o h n =
    or_front-NoNoop (id, m) o.inner (insert_behind (id, m) o.inner) h n
      (insert_behind-NoNoop (id, m) o.inner h n)

-- A message that is not a noop, with none in the buffer: `receive_message` ends, by a result or a
-- panic, and no noop is in the buffer then. With a noop in front of the buffer, the loop of
-- `process_messages` never ends, however many rounds it is given.
pub receive_message-ends :
    (id : ℕ) (m : Message) (c : RemoteEntityChannel)
    → (is_noop m ≡ false
        → NoNoop c.buffered_messages.inner
        → (receive_message id m c ≢ ok none)
          × ((c' : RemoteEntityChannel)
              → receive_message id m c ≡ ok (some c')
              → NoNoop c'.buffered_messages.inner))
      × ((rest : List (ℕ × Message))
          → c.buffered_messages.inner ≡ (id, noop) ∷ rest
          → (fuel : ℕ) → process_loop fuel c ≡ ok none)
unfolding receive_message process_entity
receive_message-ends id m c = (
  λ h n.
      let pushed : RemoteEntityChannel = record c {
        buffered_messages = push_back id m c.buffered_messages;
      } in
      let n' = pushed-NoNoop id m c.buffered_messages h n in
      elim (Bool-cases (RemoteEntityChannel.same_epoch id c.last_epoch_id)) [
        | inl twice ↦ rw twice (λ e. cc, λ c' e. cc)
        | inr new_one ↦ elim (Bool-cases (RemoteEntityChannel.before_epoch id c.last_epoch_id)) [
          | inl old ↦
              rw (new_one, old)
                (
                  λ e. cc,
                  λ c' e.
                      let same : c ≡ c' = cc in
                      subst (λ (x : RemoteEntityChannel). NoNoop x.buffered_messages.inner) same n,
                )
          | inr newer ↦
              rw (new_one, newer)
                (
                  process_loop-ends _ pushed (omega arith) n',
                  λ c' e. process_loop-NoNoop _ pushed c' e n',
                )
        ]
      ],
  λ rest front fuel. noop-endless fuel id rest c front,
)

-- `receive_message`, with nothing left to be drained from the channels of the components and of
-- authority: nothing is left there after it, and what it hands on may be applied one by one, from the
-- state before to the state after. An entity that is not there is spawned before anything else is
-- handed on, and one that is there is not spawned again before it is despawned.
pub receive_message-Lifetime :
    (id : ℕ) (m : Message) (c c' : RemoteEntityChannel)
    → Quiet c
    → receive_message id m c ≡ ok (some c')
    → Quiet c' × Hands c c'
unfolding receive_message process_entity
receive_message-Lifetime id m c c' q e =
    elim (Bool-cases (RemoteEntityChannel.same_epoch id c.last_epoch_id)) [
      | inl twice ↦ let f = rw twice at e in cc
      | inr new_one ↦ elim (Bool-cases (RemoteEntityChannel.before_epoch id c.last_epoch_id)) [
        | inl old ↦
            let f = rw (new_one, old) at e in
            let same : c ≡ c' = cc in
            subst (λ (x : RemoteEntityChannel). Quiet x × Hands c x) same
              (q, Hands-nothing c c refl refl)
        | inr newer ↦
            let pushed : RemoteEntityChannel = record c {
              buffered_messages = push_back id m c.buffered_messages;
            } in
            let q' : Quiet pushed = record { auth = q.auth; components = q.components } in
            let (q1, h1) = process_loop-Hands _ pushed c' (rw (new_one, newer) at e) q' in (q1, h1)
      ]
    ]
