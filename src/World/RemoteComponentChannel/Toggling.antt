-- ===== src/World/RemoteComponentChannel/Toggling.antt =====
-- A RemoteComponentChannel hands on inserts and removes in turn.
use naia.Base.{
  ℕ, zero, suc, ◌+◌, ◌%◌, ◌≤◌, ◌<◌, ◌≡◌, refl, sym, ap, ◌∙◌, ◌≢◌, inl, inr, Bool, true, false, not,
  ◌||◌, Option, none, some, List, [], ◌∷◌, ◌++◌, append_assoc, append-nil, arith, ltb, ◌==◌,
  ==_refl, ==_false, Bool-cases, dec_lt, ltb-false, lt→ltb, ℕ_discrete, ==_iff,
}
use naia.Base.Outcome.{ok}
use naia.Sequence.{sequence_equal_or_less_than, sequence_less_than}
use naia.Channels.ReliableReceiver.Record.{with_number}
use naia.World.EntityMessageType.{EntityMessageType}
use naia.World.EntityMessage.{insert_component, remove_component}
use naia.World.EntityChannelState.{spawned}
use naia.World.AuthChannelReceiver.{Message}
use naia.World.OrderedIds.{OrderedIds, push_back}
use naia.World.OrderedIds.Order.{wrapped, Near, less-unwrapped}
use naia.World.OrderedIds.Numbers.{
  Numbered, Ascending, has, insert_number, Ascending-le, has-insert_number, insert_number-Ascending,
  entries, push-number, ltb-index,
}
use naia.World.RemoteComponentChannel
use naia.World.RemoteComponentChannel.{
  RemoteComponentChannel, toggle, process_loop, process_messages, accept_message, type_of,
  same_flag, is_stale, insert_of,
}
use native.Mathlib.Nat.{le_refl}

abbrev pub odd : ℕ → Bool
odd n = n % 2 == 1

odd-suc : (n : ℕ) → not (odd n) ≡ odd (suc n)
odd-suc n = ground arith

differs : (a b : Bool) → same_flag a b ≡ false → a ≡ not b
differs true true h = cc
differs true false h = refl
differs false true h = refl
differs false false h = cc

never_same : (b : Bool) → same_flag (not b) b ≡ false
never_same true = refl
never_same false = refl

-- The types are handed on in turn, from one flag to another.
abbrev pub Toggles : Bool → List EntityMessageType → Bool → Type 0
Toggles b [] b' = b ≡ b'
Toggles b (t ∷ ts) b' = (t ≡ type_of (not b)) × Toggles (not b) ts b'

-- The messages of a sender about one component: inserts and removes in turn, an insert first.
pub record Turns : Type 0 where
  pub items : Numbered Bool
  pub in_turn : (k : ℕ) → items.value k ≡ not (odd k)

abbrev pub message_of : ℕ → Bool → Message
message_of kind true = insert_component tt kind
message_of kind false = remove_component tt kind

abbrev pub Known : ℕ → (ℕ → Bool) → Type 0
Known zero got = Unit
Known (suc p) got = got p ≡ true

Known-with_number : (m n : ℕ) (got : ℕ → Bool) → Known n got → Known n (with_number m got)
Known-with_number m zero got h = tt
Known-with_number m (suc p) got h = rw h (ground arith)

insert_of-message_of : (kind : ℕ) (b : Bool) → insert_of (message_of kind b) ≡ ok b
insert_of-message_of kind true = refl
insert_of-message_of kind false = refl

module _ (s : Turns) where
  -- The id of the message before the `n`th one.
  abbrev pub id_before : ℕ → Option ℕ
  id_before zero = none
  id_before (suc p) = some (s.items.index p % 65536)

  -- Of the messages that have arrived, `got`, the last that was valid is the one before the `n`th;
  -- those from the `n`th on are held back, with the numbers `ks`, and the `n`th has not arrived.
  pub record Receives (got : ℕ → Bool) (n : ℕ) (ks : List ℕ) (c : RemoteComponentChannel)
      : Type 0 where
    pub flag : c.inserted ≡ odd n
    pub epoch : c.last_epoch_id ≡ id_before n
    pub buffered : c.buffered_messages ≡ record { inner = wrapped (entries s.items ks) }
    pub later : Ascending (n + 1) ks
    pub held : (j : ℕ) → n ≤ j → has j ks ≡ got j
    pub known : Known n got

  -- The channel has moved on from the `n`th message, and what it has handed on since is in turn.
  abbrev pub Handled : (ℕ → Bool) → ℕ → RemoteComponentChannel → RemoteComponentChannel → Type 0
  Handled got n c c' =
      (n' : ℕ) × (ks' : List ℕ) × (ts : List EntityMessageType) × Receives got n' ks' c'
      × (n ≤ n')
      × (c'.incoming_messages ≡ c.incoming_messages ++ ts)
      × Toggles c.inserted ts c'.inserted

  process-Receives :
      (got : ℕ → Bool) (n : ℕ) (ks : List ℕ) (c : RemoteComponentChannel)
      → c.inserted ≡ odd n
      → c.last_epoch_id ≡ id_before n
      → Ascending n ks
      → ((j : ℕ) → n ≤ j → has j ks ≡ got j)
      → Known n got
      → Handled got n c (process_loop (wrapped (entries s.items ks)) c)
  unfolding process_loop toggle RemoteComponentChannel.set_inserted
  process-Receives got n [] c flag epoch up held known = (
    n,
    [],
    [],
    record { flag = flag; epoch = epoch; buffered = refl; later = tt; held = held; known = known },
    le_refl n,
    sym (append-nil c.incoming_messages),
    refl,
  )
  process-Receives got n (k ∷ ks) c flag epoch up held known =
      elim (Bool-cases (same_flag (s.items.value k) c.inserted)) [
        | inl stop ↦
            let apart : k ≢ n = λ e. stopped k n c.inserted flag e stop in
            rw stop (
              n,
              k ∷ ks,
              [],
              record {
                flag = flag;
                epoch = epoch;
                buffered = refl;
                later = (omega arith, up.1);
                held = held;
                known = known;
              },
              le_refl n,
              sym (append-nil c.incoming_messages),
              refl,
            )
        | inr go ↦
            let there : got k ≡ true = sym (held k up.0) ∙ rw (==_refl k) in
            let turn = differs (s.items.value k) c.inserted go in
            let (n', ks', ts, r, le, e, t) =
              process-Receives got (suc k) ks (toggle (s.items.value k) (s.items.index k % 65536) c)
                (s.in_turn k ∙ odd-suc k) refl (Ascending-le (suc k) (k + 1) ks (omega arith) up.1)
                (λ j ge. skip j k ks ge ∙ held j (omega arith)) there in
            rw go (
              n',
              ks',
              type_of (s.items.value k) ∷ ts,
              r,
              omega arith,
              e ∙ append_assoc c.incoming_messages (type_of (s.items.value k) ∷ []) ts,
              (ap type_of turn, rw (sym turn) t),
            )
      ]
    where
      stopped : (k n : ℕ) (b : Bool) → b ≡ odd n → k ≡ n → same_flag (s.items.value k) b ≡ true → ⊥
      stopped k n b flag e stop =
          let v = s.in_turn k ∙ ap (λ (j : ℕ). not (odd j)) e in
          cc (
            sym (never_same (odd n))
            ∙ sym (ap (same_flag (not (odd n))) flag)
            ∙ sym (ap (λ (x : Bool). same_flag x b) v)
            ∙ stop)

      skip : (j k : ℕ) (ks : List ℕ) → k < j → has j ks ≡ has j (k ∷ ks)
      skip j k ks lt = rw (==_false j k (omega arith))

  -- The index of a message is less than half the range from that of the message before the `n`th.
  abbrev pub NearLast : ℕ → ℕ → Type 0
  NearLast m zero = Unit
  NearLast m (suc p) =
      (s.items.index p < s.items.index m + 32768) × (s.items.index m < s.items.index p + 32768)

  wrapped_apart :
      (m p : ℕ) → m ≢ p → NearLast m (suc p) → s.items.index m % 65536 ≢ s.items.index p % 65536
  wrapped_apart m p ne near e = elim (dec_lt m p) [
    | yes lt ↦ let up = s.items.ascending m p lt in omega arith
    | no ge ↦ let up = s.items.ascending p m (omega arith) in omega arith
  ]

  stale-lt : (m n : ℕ) → NearLast m n → is_stale (s.items.index m % 65536) (id_before n) ≡ ltb m n
  unfolding sequence_equal_or_less_than sequence_less_than
  stale-lt m zero near = sym (ltb-false m 0 (omega arith))
  stale-lt m (suc p) near =
      let less = less-unwrapped (s.items.index m) (s.items.index p) near.0 near.1 in
      elim (ℕ_discrete m p) [
        | yes e ↦
            let same = (==_iff _ _).1 (ap (λ (j : ℕ). s.items.index j % 65536) e) in
            rw same (sym (lt→ltb m (suc p) (omega arith)))
        | no ne ↦
            let other = ==_false _ _ (wrapped_apart m p ne near) in
            rw (other, less, ltb-index s.items m p) (ground arith)
      ]

  -- For a sender whose messages about a component insert it and remove it in turn, an insert first:
  -- a channel has come to the `n`th of them, which has not arrived, and holds back those that have
  -- arrived after it. The message `m`, which has not arrived before, arrives while the entity is
  -- spawned, with an index less than half the range from those held back and from the last that was
  -- valid. The channel does
  -- not panic, has received `m` too, goes on from the message that it was at or from a later one, and
  -- what it hands on is inserts and removes in turn, from the flag before to the flag after.
  pub accept_message-Toggling :
      (got : ℕ → Bool) (kind n m : ℕ) (ks : List ℕ) (c : RemoteComponentChannel)
      → Receives got n ks c
      → got m ≡ false
      → Near (s.items.index m) (entries s.items ks)
      → NearLast m n
      → (c' : RemoteComponentChannel) × (accept_message spawned
            (s.items.index m % 65536)
            (message_of kind (s.items.value m))
            c
          ≡ ok c')
        × Handled (with_number m got) n c c'
  unfolding accept_message process_messages
  accept_message-Toggling got kind n m ks c r fresh close last = elim (dec_lt m n) [
    | yes old ↦
        let stale =
          ap (is_stale (s.items.index m % 65536)) r.epoch ∙ stale-lt m n last ∙ lt→ltb m n old in
        (
          c,
          rw stale,
          (
            n,
            ks,
            [],
            record {
              flag = r.flag;
              epoch = r.epoch;
              buffered = r.buffered;
              later = r.later;
              held = λ j ge. rw (==_false j m (omega arith)) (r.held j ge);
              known = Known-with_number m n got r.known;
            },
            le_refl n,
            sym (append-nil c.incoming_messages),
            refl,
          ),
        )
    | no newer ↦
        let fresh_here : has m ks ≡ false = r.held m (omega arith) ∙ fresh in
        let stale =
          ap (is_stale (s.items.index m % 65536)) r.epoch
          ∙ stale-lt m n last
          ∙ ltb-false m n (omega arith) in
        let pushed =
          ap (λ (o : OrderedIds Bool). push_back (s.items.index m % 65536) (s.items.value m) o)
            r.buffered
          ∙ push-number s.items (n + 1) m ks r.later close in
        let all : List (ℕ × Bool) = wrapped (entries s.items (insert_number m ks)) in
        (
          process_loop all (record c { buffered_messages = record { inner = all } }),
          rw (stale, insert_of-message_of kind (s.items.value m), pushed),
          process-Receives (with_number m got) n (insert_number m ks)
              (record c { buffered_messages = record { inner = all } }) r.flag r.epoch
              (insert_number-Ascending n m ks (omega arith)
                (Ascending-le n (n + 1) ks (omega arith) r.later) fresh_here)
              (λ j ge. has-insert_number j m ks ∙ ap (λ (b : Bool). j == m || b) (r.held j ge))
              (Known-with_number m n got r.known),
        )
  ]
