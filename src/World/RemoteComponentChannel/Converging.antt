-- ===== src/World/RemoteComponentChannel/Converging.antt =====
-- A RemoteComponentChannel comes to the last state that its peer sent.
use naia.Base.{
  ℕ, zero, suc, ◌+◌, ◌%◌, ◌≤◌, ◌<◌, ◌≡◌, refl, sym, ap, ◌∙◌, inl, inr, Bool, true, false, not, ◌||◌,
  List, [], ◌∷◌, ◌++◌, append_assoc, append-nil, arith, ltb, ◌==◌, ==_refl, ==_false, Bool-cases,
  dec_lt, ltb-false, ltb→lt, lt→ltb, ==_iff,
}
use naia.Base.Bools.{or-true}
use naia.Channels.ReliableReceiver.Record.{with_number}
use naia.World.EntityMessageType.{EntityMessageType}
use naia.World.EntityChannelState.{spawned}
use naia.World.OrderedIds.Order.{wrapped, Near}
use naia.World.OrderedIds.Numbers.{Ascending, has, entries}
use naia.World.RemoteComponentChannel
use naia.World.RemoteComponentChannel.{
  RemoteComponentChannel, toggle, process_loop, process_messages, accept_message, type_of,
  same_flag, is_stale, insert_of,
}
use native.Mathlib.Nat.{le_refl}
use naia.World.RemoteComponentChannel.Toggling.{
  odd, Toggles, Turns, message_of, Known, Receives, NearLast, accept_message-Toggling,
}
use naia.Base.Outcome.{Outcome, ok, ◌>>=◌}
use mathlib.Core.Path.{subst}

Known-le : (n total : ℕ) → Known n (λ k. ltb k total) → n ≤ total
Known-le zero total h = omega arith
Known-le (suc p) total h = ltb→lt p total h

Ascending-has : (j b : ℕ) (ks : List ℕ) → j < b → Ascending b ks → has j ks ≡ false
Ascending-has j b [] lt up = refl
Ascending-has j b (k ∷ ks) lt up =
    rw (==_false j k (omega arith)) (Ascending-has j (k + 1) ks (omega arith) up.1)

none_held :
    (n total : ℕ) (ks : List ℕ)
    → total ≤ n
    → Ascending (n + 1) ks
    → ((j : ℕ) → n ≤ j → has j ks ≡ ltb j total)
    → ks ≡ []
none_held n total [] le up held = refl
none_held n total (k ∷ ks) le up held =
    let there : has k (k ∷ ks) ≡ true = rw (==_refl k) in
    absurd (cc (sym there ∙ held k (omega arith) ∙ ltb-false k total (omega arith)))

or-false_right : (a : Bool) → (a || false) ≡ a
or-false_right true = refl
or-false_right false = refl

or_swap_left : (a b c : Bool) → ((a || b) || c) ≡ (b || (a || c))
or_swap_left true true c = refl
or_swap_left true false c = refl
or_swap_left false b c = refl

differ : (j m : ℕ) (ms : List ℕ) → has m ms ≡ false → has j ms ≡ true → (j == m) ≡ false
differ j m ms new there = ==_false j m (λ same. let f = ap (λ i. has i ms) same in cc)

module _ (s : Turns) (kind : ℕ) where
  Receives-converged :
      (total n : ℕ) (ks : List ℕ) (c : RemoteComponentChannel)
      → Receives s (λ k. ltb k total) n ks c
      → (c.inserted ≡ odd total) × (c.buffered_messages ≡ record { inner = [] })
  Receives-converged total n ks c r = elim (dec_lt n total) [
    | yes lt ↦ absurd (
        cc (
          sym (lt→ltb n total lt)
          ∙ sym (r.held n (le_refl n))
          ∙ Ascending-has n (n + 1) ks (omega arith) r.later))
    | no ge ↦
        let le = Known-le n total r.known in
        let e : n ≡ total = omega arith in
        let empty = none_held n total ks (omega arith) r.later r.held in
        (
          r.flag ∙ ap odd e,
          r.buffered ∙ ap (λ (l : List ℕ). record { inner = wrapped (entries s.items l) }) empty,
        )
  ]

  -- The messages with the given numbers arrive one after the other, from an entity that is spawned.
  unfoldable pub deliver : List ℕ → RemoteComponentChannel → Outcome RemoteComponentChannel
  deliver [] c = ok c
  deliver (m ∷ ms) c =
      accept_message spawned (s.items.index m % 65536) (message_of kind (s.items.value m)) c
      >>= deliver ms

  -- The indices of two messages are less than half the range apart.
  abbrev pub Close : ℕ → ℕ → Type 0
  Close j m =
      (s.items.index j < s.items.index m + 32768) × (s.items.index m < s.items.index j + 32768)

  -- No message arrives twice, and any two are close.
  abbrev pub Arrivals : List ℕ → Type 0
  Arrivals [] = Unit
  Arrivals (m ∷ ms) = (has m ms ≡ false) × ((j : ℕ) → has j ms ≡ true → Close m j) × Arrivals ms

  Near-entries :
      (m : ℕ) (ks : List ℕ)
      → ((j : ℕ) → has j ks ≡ true → Close j m)
      → Near (s.items.index m) (entries s.items ks)
  Near-entries m [] close = tt
  Near-entries m (k ∷ ks) close =
      let here = close k (rw (==_refl k)) in
      (here.1, here.0, Near-entries m ks (λ j there. close j (or-true (j == k) (has j ks) there)))

  near_last :
      (m n : ℕ) (got : ℕ → Bool)
      → Known n got
      → ((j : ℕ) → got j ≡ true → Close j m)
      → NearLast s m n
  near_last m zero got known close = tt
  near_last m (suc p) got known close = close p known

  held-got :
      (n : ℕ) (ks : List ℕ) (got : ℕ → Bool)
      → Ascending (n + 1) ks
      → ((j : ℕ) → n ≤ j → has j ks ≡ got j)
      → (j : ℕ) → has j ks ≡ true
      → got j ≡ true
  held-got n ks got up held j there = elim (dec_lt j n) [
    | no ge ↦ sym (held j (omega arith)) ∙ there
    | yes lt ↦ let f = Ascending-has j (n + 1) ks (omega arith) up in cc
  ]

  Toggles-append :
      (a b d : Bool) (ts us : List EntityMessageType)
      → Toggles a ts b
      → Toggles b us d
      → Toggles a (ts ++ us) d
  Toggles-append a b d [] us h k = subst (λ x. Toggles x us d) (sym h) k
  Toggles-append a b d (t ∷ ts) us h k = (h.0, Toggles-append (not a) b d ts us h.1 k)

  -- The channel after some arrivals: what it has received is what it had and they.
  record Delivered (ms : List ℕ) (got : ℕ → Bool) (c : RemoteComponentChannel) : Type 0 where
    after : RemoteComponentChannel
    returned : deliver ms c ≡ ok after
    new_got : ℕ → Bool
    all : (k : ℕ) → new_got k ≡ (got k || has k ms)
    next : ℕ
    held_back : List ℕ
    receives : Receives s new_got next held_back after
    handed_on : List EntityMessageType
    grown : after.incoming_messages ≡ c.incoming_messages ++ handed_on
    in_turn : Toggles c.inserted handed_on after.inserted

  deliver-Delivered :
      (ms : List ℕ) (got : ℕ → Bool) (n : ℕ) (ks : List ℕ) (c : RemoteComponentChannel)
      → Arrivals ms
      → ((j : ℕ) → has j ms ≡ true → got j ≡ false)
      → ((j m : ℕ) → got j ≡ true → has m ms ≡ true → Close j m)
      → Receives s got n ks c
      → Delivered ms got c
  unfolding deliver
  deliver-Delivered [] got n ks c arrive fresh close r = record {
    after = c;
    returned = refl;
    new_got = got;
    all = λ k. sym (or-false_right (got k));
    next = n;
    held_back = ks;
    receives = r;
    handed_on = [];
    grown = sym (append-nil c.incoming_messages);
    in_turn = refl;
  }
  deliver-Delivered (m ∷ ms) got n ks c (new, near, arrive) fresh close r =
      let here : has m (m ∷ ms) ≡ true = rw (==_refl m) in
      let (c1, e1, handled) =
        accept_message-Toggling s got kind n m ks c r (fresh m here)
          (Near-entries m ks (λ j there. close j m (held-got n ks got r.later r.held j there) here))
          (near_last m n got r.known (λ j is. close j m is here)) in
      let (n1, ks1, ts1, r1, le1, g1, t1) = handled in
      let d =
        deliver-Delivered ms (with_number m got) n1 ks1 c1 arrive
          (λ j there.
            let apart = differ j m ms new there in
            rw apart (fresh j (or-true (j == m) (has j ms) there)))
          (λ j k is there. elim (Bool-cases (j == m)) [
            | inl same ↦ subst (λ x. Close x k) (sym ((==_iff j m).0 same)) (near k there)
            | inr ne ↦ close j k (rw ne at is) (or-true (k == m) (has k ms) there)
          ])
          r1 in
      record {
        after = d.after;
        returned = rw e1 d.returned;
        new_got = d.new_got;
        all = λ k. d.all k ∙ or_swap_left (k == m) (got k) (has k ms);
        next = d.next;
        held_back = d.held_back;
        receives = d.receives;
        handed_on = ts1 ++ d.handed_on;
        grown =
            d.grown
            ∙ ap (λ l. l ++ d.handed_on) g1
            ∙ append_assoc c.incoming_messages ts1 d.handed_on;
        in_turn =
            Toggles-append c.inserted c1.inserted d.after.inserted ts1 d.handed_on t1 d.in_turn;
      }

  new-Receives : Receives s (λ k. false) 0 [] RemoteComponentChannel.new
  unfolding RemoteComponentChannel.new
  new-Receives = record {
    flag = refl;
    epoch = refl;
    buffered = refl;
    later = tt;
    held = λ j le. refl;
    known = tt;
  }

  counted :
      (total n : ℕ) (ks : List ℕ) (got : ℕ → Bool) (c : RemoteComponentChannel)
      → ((k : ℕ) → got k ≡ ltb k total)
      → Receives s got n ks c
      → Receives s (λ k. ltb k total) n ks c
  counted total n ks got c all r = record {
    flag = r.flag;
    epoch = r.epoch;
    buffered = r.buffered;
    later = r.later;
    held = λ j ge. r.held j ge ∙ all j;
    known = known_all n r.known;
  }
    where
      known_all : (n : ℕ) → Known n got → Known n (λ k. ltb k total)
      known_all zero known = tt
      known_all (suc p) known = sym (all p) ∙ known

  -- For a sender whose messages about a component insert it and remove it in turn, an insert first:
  -- the first `total` of them arrive at a new channel while the entity is spawned, each once and in
  -- any order, with indices less than half the range apart. None of them makes the channel panic,
  -- none is held back in the end, the component is then inserted exactly if the last message that was
  -- sent inserts it, and what is handed on is inserts and removes in turn, from not inserted to that.
  pub deliver-converges :
      (total : ℕ) (ms : List ℕ)
      → Arrivals ms
      → ((k : ℕ) → has k ms ≡ ltb k total)
      → (c : RemoteComponentChannel) × (deliver ms RemoteComponentChannel.new ≡ ok c)
        × (c.inserted ≡ odd total)
        × (c.buffered_messages ≡ record { inner = [] })
        × Toggles false c.incoming_messages c.inserted
  unfolding RemoteComponentChannel.new
  deliver-converges total ms arrive first =
      let d =
        deliver-Delivered ms (λ k. false) 0 [] RemoteComponentChannel.new arrive (λ j there. refl)
          (λ j m is there. cc) new-Receives in
      let (flag, empty) =
        Receives-converged total d.next d.held_back d.after (
          counted total d.next d.held_back d.new_got d.after (λ k. d.all k ∙ first k) d.receives) in
      (
        d.after,
        d.returned,
        flag,
        empty,
        subst (λ l. Toggles false l d.after.inserted) (sym d.grown) d.in_turn,
      )
