-- ===== src/World/RemoteEntityChannel/Lifetime.antt =====
-- What the parts of a RemoteEntityChannel hand on, against the lifetimes of an entity.
use naia.Base.{
  ℕ, ◌≡◌, refl, sym, ap, ◌∙◌, inl, inr, Option, none, some, List, [], ◌∷◌, ◌++◌, append_assoc,
  append-nil, ◌==◌, All, Bool-cases, Option-cases,
}
use naia.Base.Assoc.{lookup, insert_key, remove_key}
use naia.Base.Outcome.{Outcome, ok, ◌>>=◌, >>=-eq-ok}
use naia.World.EntityMessageType.{EntityMessageType}
use naia.World.EntityMessage.{
  spawn, despawn, spawn_with_components, insert_component, remove_component, publish, unpublish,
  enable_delegation, disable_delegation, set_authority, request_authority, release_authority,
  enable_delegation_response, migrate_response, noop, subcommand_id, with_component_kind,
}
use naia.World.EntityChannelState.{EntityChannelState, despawned, spawned}
use naia.World.AuthChannelReceiver
use naia.World.AuthChannelReceiver.{AuthChannelReceiver, Message, on_subcommand, after_round}
use naia.World.RemoteComponentChannel
use naia.World.RemoteComponentChannel.{
  RemoteComponentChannel, with_kinds, drain_component_into, process_messages,
  buffer_pop_front_until_and_excluding,
}
use naia.World.RemoteEntityChannel.{wake_loop, channel_of, or_new}
use mathlib.Core.Path.{subst}
use naia.Sequence.{wrapping_add_u8}

-- The state of an entity after a message that may be applied in a state: an entity that is not there
-- can only be spawned, and one that is there cannot be spawned again.
abbrev pub after : EntityChannelState → Message → Option EntityChannelState
after despawned (spawn e) = some spawned
after despawned _ = none
after spawned (spawn e) = none
after spawned (spawn_with_components e kinds) = none
after spawned noop = none
after spawned (despawn e) = some despawned
after spawned _ = some spawned

-- The messages may be applied one after another, from one state to another.
abbrev pub Lifetime : EntityChannelState → List Message → EntityChannelState → Type 0
Lifetime s [] s' = s ≡ s'
Lifetime s (m ∷ ms) s' = (t : EntityChannelState) × (after s m ≡ some t) × Lifetime t ms s'

pub Lifetime-append :
    (s t u : EntityChannelState) (ms ns : List Message)
    → Lifetime s ms t
    → Lifetime t ns u
    → Lifetime s (ms ++ ns) u
Lifetime-append s t u [] ns h k = subst (λ (x : EntityChannelState). Lifetime x ns u) (sym h) k
Lifetime-append s t u (m ∷ ms) ns h k = let (v, e, r) = h in (v, e, Lifetime-append v t u ms ns r k)

-- Messages that are added, and may be applied while the entity is there.
abbrev pub Adds : List Message → List Message → Type 0
Adds before later = (ms : List Message) × (later ≡ before ++ ms) × Lifetime spawned ms spawned

pub Adds-trans : (a b c : List Message) → Adds a b → Adds b c → Adds a c
Adds-trans a b c (ms, e, l) (ns, f, k) = (
  ms ++ ns,
  f ∙ ap (λ (x : List Message). x ++ ns) e ∙ append_assoc a ms ns,
  Lifetime-append spawned spawned spawned ms ns l k,
)

numbered-after : (m : Message) (id : ℕ) → subcommand_id m ≡ some id → after spawned m ≡ some spawned
unfolding subcommand_id
numbered-after (spawn e) id h = cc
numbered-after (despawn e) id h = cc
numbered-after (spawn_with_components e kinds) id h = cc
numbered-after (insert_component e kind) id h = refl
numbered-after (remove_component e kind) id h = refl
numbered-after (publish n e) id h = refl
numbered-after (unpublish n e) id h = refl
numbered-after (enable_delegation n e) id h = refl
numbered-after (disable_delegation n e) id h = refl
numbered-after (set_authority n e status) id h = refl
numbered-after (request_authority n e) id h = refl
numbered-after (release_authority n e) id h = refl
numbered-after (enable_delegation_response n e) id h = refl
numbered-after (migrate_response n e other) id h = refl
numbered-after noop id h = cc

unchanged-Adds : (a b : List Message) → a ≡ b → Adds a b
unchanged-Adds a b e = ([], sym e ∙ sym (append-nil a), refl)

auth_step-Adds :
    (id next : ℕ) (msg : Message) (rest : List (ℕ × Message)) (incoming : List Message) (next' : ℕ)
    (items' : List (ℕ × Message)) (incoming' : List Message)
    (move : Outcome (ℕ × List (ℕ × Message) × List Message)) (found : Option ℕ)
    → subcommand_id msg ≡ found
    → (move ≡ ok (next', items', incoming') → Adds (incoming ++ (msg ∷ [])) incoming')
    → on_subcommand next found move (ok (next, (id, msg) ∷ rest, incoming))
      ≡ ok (next', items', incoming')
    → Adds incoming incoming'
auth_step-Adds id next msg rest incoming next' items' incoming' move none h ih e = cc
auth_step-Adds id next msg rest incoming next' items' incoming' move (some n) h ih e =
    elim (Bool-cases (n == next)) [
      | inl due ↦
          Adds-trans incoming (incoming ++ (msg ∷ [])) incoming'
            (msg ∷ [], refl, (spawned, numbered-after msg n h, refl)) (ih (rw due at e))
      | inr not_due ↦ unchanged-Adds incoming incoming' (let f = rw not_due at e in cc)
    ]

pub auth_loop-Adds :
    (items : List (ℕ × Message)) (next : ℕ) (incoming : List Message) (next' : ℕ)
    (items' : List (ℕ × Message)) (incoming' : List Message)
    → AuthChannelReceiver.process_loop next items incoming ≡ ok (next', items', incoming')
    → Adds incoming incoming'
unfolding AuthChannelReceiver.process_loop
auth_loop-Adds [] next incoming next' items' incoming' e = unchanged-Adds incoming incoming' (cc)
auth_loop-Adds ((id, msg) ∷ rest) next incoming next' items' incoming' e =
    auth_step-Adds id next msg rest incoming next' items' incoming'
      (AuthChannelReceiver.process_loop (wrapping_add_u8 next 1) rest (incoming ++ (msg ∷ [])))
      (subcommand_id msg) refl
      (auth_loop-Adds rest (wrapping_add_u8 next 1) (incoming ++ (msg ∷ [])) next' items' incoming')
      e

one_more :
    (m : Message) (rest : Outcome (List Message)) (ms : List Message)
    → after spawned m ≡ some spawned
    → ((ns : List Message) → rest ≡ ok ns → Lifetime spawned ns spawned)
    → (rest >>= λ ns. ok (m ∷ ns)) ≡ ok ms
    → Lifetime spawned ms spawned
one_more m rest ms h ih e =
    let (ns, e1, e2) = >>=-eq-ok rest _ e in
    let same : m ∷ ns ≡ ms = cc in
    subst (λ (l : List Message). Lifetime spawned l spawned) same (spawned, h, ih ns e1)

with_kinds-Lifetime :
    (kind : ℕ) (ts : List EntityMessageType) (ms : List Message)
    → with_kinds kind ts ≡ ok ms
    → Lifetime spawned ms spawned
unfolding with_kinds with_component_kind
with_kinds-Lifetime kind [] ms e =
    let same : [] ≡ ms = cc in subst (λ (l : List Message). Lifetime spawned l spawned) same refl
with_kinds-Lifetime kind (EntityMessageType.insert_component ∷ ts) ms e =
    one_more (insert_component tt kind) (with_kinds kind ts) ms refl
      (λ ns. with_kinds-Lifetime kind ts ns) e
with_kinds-Lifetime kind (EntityMessageType.remove_component ∷ ts) ms e =
    one_more (remove_component tt kind) (with_kinds kind ts) ms refl
      (λ ns. with_kinds-Lifetime kind ts ns) e
with_kinds-Lifetime kind (t ∷ ts) ms e = cc

-- A component channel that holds nothing back to be drained.
abbrev pub Drained : ℕ × RemoteComponentChannel → Type 0
Drained (kind, channel) = channel.incoming_messages ≡ []

pub drain-Adds :
    (kind : ℕ) (incoming incoming' : List Message) (channel channel' : RemoteComponentChannel)
    → drain_component_into kind incoming channel ≡ ok (incoming', channel')
    → Adds incoming incoming' × (channel'.incoming_messages ≡ [])
unfolding drain_component_into
drain-Adds kind incoming incoming' channel channel' e =
    let (ms, e1, e2) = >>=-eq-ok (with_kinds kind channel.incoming_messages) _ e in
    let grown : incoming ++ ms ≡ incoming' = cc in
    let same : record channel { incoming_messages = [] } ≡ channel' = cc in
    (
      (ms, sym grown, with_kinds-Lifetime kind channel.incoming_messages ms e1),
      sym (ap (λ (c : RemoteComponentChannel). c.incoming_messages) same),
    )

pub wake_loop-Adds :
    (id : ℕ) (channels channels' : List (ℕ × RemoteComponentChannel))
    (incoming incoming' : List Message)
    → wake_loop id channels incoming ≡ ok (channels', incoming')
    → Adds incoming incoming' × All Drained channels'
unfolding wake_loop
wake_loop-Adds id [] channels' incoming incoming' e =
    let a : incoming ≡ incoming' = cc in
    let b : [] ≡ channels' = cc in (unchanged-Adds incoming incoming' a, subst (All Drained) b tt)
wake_loop-Adds id ((kind, channel) ∷ channels) channels' incoming incoming' e =
    let (drained, e1, r1) =
      >>=-eq-ok
        (drain_component_into kind incoming
          (process_messages spawned (buffer_pop_front_until_and_excluding id channel)))
        _ e in
    let (woken, e2, r2) = >>=-eq-ok (wake_loop id channels drained.0) _ r1 in
    let first = drain-Adds kind incoming drained.0 _ drained.1 e1 in
    let rest = wake_loop-Adds id channels woken.0 drained.0 woken.1 e2 in
    let a : woken.1 ≡ incoming' = cc in
    let b : (kind, drained.1) ∷ woken.0 ≡ channels' = cc in
    (
      Adds-trans incoming drained.0 incoming' first.0 (subst (Adds drained.0) a rest.0),
      subst (All Drained) b (first.1, rest.1),
    )

pub lookup-Drained :
    (kind : ℕ) (channels : List (ℕ × RemoteComponentChannel)) (channel : RemoteComponentChannel)
    → All Drained channels
    → lookup kind channels ≡ some channel
    → channel.incoming_messages ≡ []
unfolding lookup
lookup-Drained kind [] channel h e = cc
lookup-Drained kind ((k, c) ∷ channels) channel h e = elim (Bool-cases (k == kind)) [
  | inl here ↦
      let same : c ≡ channel = (let f = rw here at e in cc) in
      sym (ap (λ (x : RemoteComponentChannel). x.incoming_messages) same) ∙ h.0
  | inr other ↦ lookup-Drained kind channels channel h.1 (rw other at e)
]

pub remove_key-Drained :
    (kind : ℕ) (channels : List (ℕ × RemoteComponentChannel))
    → All Drained channels
    → All Drained (remove_key kind channels)
unfolding remove_key
remove_key-Drained kind [] h = tt
remove_key-Drained kind ((k, c) ∷ channels) h = elim (Bool-cases (k == kind)) [
  | inl here ↦ rw here (remove_key-Drained kind channels h.1)
  | inr other ↦ rw other (h.0, remove_key-Drained kind channels h.1)
]

pub insert_key-Drained :
    (kind : ℕ) (channel : RemoteComponentChannel) (channels : List (ℕ × RemoteComponentChannel))
    → channel.incoming_messages ≡ []
    → All Drained channels
    → All Drained (insert_key kind channel channels)
unfolding insert_key
insert_key-Drained kind channel channels e h = (e, remove_key-Drained kind channels h)

pub channel_of-Drained :
    (kind : ℕ) (channels : List (ℕ × RemoteComponentChannel))
    → All Drained channels
    → (channel_of kind channels).incoming_messages ≡ []
unfolding channel_of RemoteComponentChannel.new
channel_of-Drained kind channels h = elim (Option-cases (lookup kind channels)) [
  | inl missing ↦ ap (λ (o : Option RemoteComponentChannel). (or_new o).incoming_messages) missing
  | inr (channel, found) ↦
      ap (λ (o : Option RemoteComponentChannel). (or_new o).incoming_messages) found
      ∙ lookup-Drained kind channels channel h found
]
