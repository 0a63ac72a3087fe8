-- ===== src/World/AuthChannelReceiver/InOrder.antt =====
-- AuthChannelReceiver hands messages on in the order in which they were sent.
use naia.Base.{
  ℕ, zero, suc, ◌+◌, ◌%◌, ◌≤◌, ◌<◌, ◌≡◌, refl, sym, ap, ◌∙◌, Bool, true, false, ◌||◌, Option, some,
  List, [], ◌∷◌, ◌++◌, append_assoc, append-nil, arith, ltb, ◌==◌, ℕ_discrete, ==_iff, ==_false,
}
use naia.Base.Outcome.{Outcome, ok, ◌>>=◌}
use naia.World.OrderedIds.{OrderedIds, push_back}
use naia.World.OrderedIds.Order.{wrapped, Near}
use naia.World.OrderedIds.Numbers.{
  Numbered, Ascending, Below, has, insert_number, Below-le, Ascending-le, or_swap, next_or_after,
  has-insert_number, insert_number-Below, insert_number-Ascending, entries, push-number,
}
use naia.World.EntityMessage.{subcommand_id}
use naia.World.EntityChannelState.{EntityChannelState}
use naia.World.AuthChannelReceiver.{
  AuthChannelReceiver, Message, process_loop, process_messages, receive_message, may_process,
  after_round, wrapping_add_u8,
}

-- The messages of a sender: the `k`th one, from 0 on, has the subcommand id `k` as a u8.
pub record Sent : Type 0 where
  pub items : Numbered Message
  pub numbered : (k : ℕ) → subcommand_id (items.value k) ≡ some (k % 256)

module _ (s : Sent) where
  -- `count` messages from the `n`th on.
  unfoldable pub run : ℕ → ℕ → List Message
  run n zero = []
  run n (suc count) = s.items.value n ∷ run (n + 1) count

  process-here :
      (n k count : ℕ) (ks ks' : List ℕ) (incoming : List Message)
      → k ≡ n
      → process_loop
          ((n + 1) % 256)
          (wrapped (entries s.items ks))
          (incoming ++ (s.items.value k ∷ []))
        ≡ ok (
          (n + 1 + count) % 256,
          wrapped (entries s.items ks'),
          (incoming ++ (s.items.value k ∷ [])) ++ run (n + 1) count,
        )
      → process_loop (n % 256) (wrapped (entries s.items (k ∷ ks))) incoming
        ≡ ok ((n + suc count) % 256, wrapped (entries s.items ks'), incoming ++ run n (suc count))
  unfolding process_loop run
  process-here n k count ks ks' incoming here e =
      let same : (k % 256 == n % 256) ≡ true = (==_iff _ _).1 (omega arith) in
      let next : wrapping_add_u8 (n % 256) 1 ≡ (n + 1) % 256 = omega arith in
      let sum : n + 1 + count ≡ n + suc count = omega arith in
      let grown =
        append_assoc incoming (s.items.value k ∷ []) (run (n + 1) count)
        ∙ ap (λ (j : ℕ). incoming ++ (s.items.value j ∷ run (n + 1) count)) here in
      rw (s.numbered k, same, next)
        (e
          ∙ ap
              (λ (c : ℕ). ok (
                c % 256,
                wrapped (entries s.items ks'),
                (incoming ++ (s.items.value k ∷ [])) ++ run (n + 1) count,
              ))
              sum
          ∙ ap (λ (m : List Message). ok ((n + suc count) % 256, wrapped (entries s.items ks'), m))
              grown)

  -- From the `n`th message on: the messages that are there without a gap are taken.
  process-run :
      (n : ℕ) (ks : List ℕ) (incoming : List Message)
      → Ascending n ks
      → Below (n + 256) ks
      → (count : ℕ) × (ks' : List ℕ) × (process_loop
            (n % 256)
            (wrapped (entries s.items ks))
            incoming
          ≡ ok ((n + count) % 256, wrapped (entries s.items ks'), incoming ++ run n count))
        × Ascending (n + count + 1) ks'
        × Below (n + count + 256) ks'
        × ((k : ℕ) → (ltb k (n + count) || has k ks') ≡ (ltb k n || has k ks))
  unfolding process_loop run
  process-run n [] incoming up near =
      let z : n + 0 ≡ n = omega arith in
      (0, [], rw z (ap (λ m. ok (n % 256, [], m)) (sym (append-nil incoming))), tt, tt, λ k. rw z)
  process-run n (k ∷ ks) incoming up near = elim (ℕ_discrete k n) [
    | yes here ↦
        let up' : Ascending (n + 1) ks = rw here at up.1 in
        let near' : Below (n + 1 + 256) ks =
          Below-le (n + 256) (n + 1 + 256) ks (omega arith) near.1 in
        let (count, ks', e, a, b, c) =
          process-run (n + 1) ks (incoming ++ (s.items.value k ∷ [])) up' near' in
        let sum : n + 1 + count ≡ n + suc count = omega arith in
        (
          suc count,
          ks',
          process-here n k count ks ks' incoming here e,
          rw sum at a,
          rw sum at b,
          λ j.
              ap (λ m. ltb j m || has j ks') (sym sum)
              ∙ c j
              ∙ next_or_after j n (has j ks)
              ∙ ap (λ m. ltb j n || (j == m || has j ks)) (sym here),
        )
    | no ahead ↦
        let other : (k % 256 == n % 256) ≡ false = ==_false _ _ (λ e. omega arith) in
        let z : n + 0 ≡ n = omega arith in
        (
          0,
          k ∷ ks,
          rw (z, s.numbered k, other)
              (ap (λ m. ok (n % 256, wrapped (entries s.items (k ∷ ks)), m))
                (sym (append-nil incoming))),
          (omega arith, up.1),
          Below-le (n + 256) (n + 0 + 256) (k ∷ ks) (omega arith) near,
          λ j. rw z,
        )
  ]

  -- The receiver has handed on the first `n` messages and holds back those with the numbers `ks`,
  -- of which none is the next one.
  pub record HoldsBack (n : ℕ) (ks : List ℕ) (r : AuthChannelReceiver) : Type 0 where
    pub next : r.next_subcommand_id ≡ n % 256
    pub buffered : r.buffered_messages ≡ record { inner = wrapped (entries s.items ks) }
    pub later : Ascending (n + 1) ks
    pub near : Below (n + 256) ks

  -- For a sender whose messages have the subcommand ids 0, 1, and so on, as u8, and ascending indices,
  -- and that need not follow the lifecycle of publication and delegation, whose state the channel does
  -- not keep: the receiver has handed on the first `n` and holds back some later ones, not the next.
  -- The message `m`, which is not before the `n`th, arrives while messages are processed: like those
  -- held back it is less than 256 messages ahead, it is not there before, and its index is less than
  -- half the range from theirs. Then exactly the messages that have no gap before them any more are
  -- handed on, in the order in which they were sent, and the others are held back: what was handed on
  -- or is held back is what was before, and `m`.
  pub receive_message-InOrder :
      (n m : ℕ) (ks : List ℕ) (state : Option EntityChannelState) (r : AuthChannelReceiver)
      → may_process state ≡ true
      → HoldsBack n ks r
      → n ≤ m
      → m < n + 256
      → has m ks ≡ false
      → Near (s.items.index m) (entries s.items ks)
      → (count : ℕ) × (ks' : List ℕ) × (r' : AuthChannelReceiver) × (receive_message state
            (s.items.index m % 65536)
            (s.items.value m)
            r
          ≡ ok r')
        × (r'.incoming_messages ≡ r.incoming_messages ++ run n count)
        × HoldsBack (n + count) ks' r'
        × ((k : ℕ) → (ltb k (n + count) || has k ks') ≡ (k == m || (ltb k n || has k ks)))
  unfolding receive_message process_messages
  receive_message-InOrder n m ks state r may h ge near fresh close =
      let up =
        insert_number-Ascending n m ks ge (Ascending-le n (n + 1) ks (omega arith) h.later) fresh in
      let low = insert_number-Below (n + 256) m ks near h.near in
      let (count, ks', e, a, b, c) =
        process-run n (insert_number m ks) r.incoming_messages up low in
      let pushed =
        ap (λ (o : OrderedIds Message). push_back (s.items.index m % 65536) (s.items.value m) o)
          h.buffered
        ∙ push-number s.items (n + 1) m ks h.later close in
      (
        count,
        ks',
        after_round r
            ((n + count) % 256, wrapped (entries s.items ks'), r.incoming_messages ++ run n count),
        rw (may, pushed, h.next)
            (ap
              (λ (o : Outcome (ℕ × List (ℕ × Message) × List Message)).
                o >>= (λ round. ok (after_round r round)))
              e),
        refl,
        record { next = refl; buffered = refl; later = a; near = b },
        λ k.
            c k
            ∙ ap (λ (t : Bool). ltb k n || t) (has-insert_number k m ks)
            ∙ or_swap (ltb k n) (k == m) (has k ks),
      )
