-- ===== src/Channels/ReliableReceiver/ExactlyOnce.antt =====
-- A ReliableReceiver takes every message once, in numbers that do not wrap.
use naia.Base.{
  ℕ, suc, ◌+◌, ◌-◌, ◌%◌, ◌≤◌, ◌<◌, max, ◌≡◌, refl, sym, ap, ◌∙◌, inl, inr, Bool, true, false, some,
  List, [], ◌∷◌, ◌++◌, arith, ltb, if◌then◌else◌, ℕ_discrete, dec_lt, ==_iff, lt→ltb, ==_false,
  ltb-false, Bool-cases,
}
use naia.Sequence.{sequence_less_than, sequence_greater_than}
use naia.Sequence.Order.{greater-unwrapped}
use naia.Channels.ReliableReceiver.{
  ReliableReceiver, new, place, already, placed, clear_old_messages, buffer_message,
}
use naia.Channels.ReliableReceiver.Record.{
  slots_of, with_number, place-slots, clear-slots, slots_of-same,
}

-- The receiver has exactly the numbers `got`: all below `base`, and those that its record marks.
pub record Holds {M : Type 0} (got : ℕ → Bool) (base : ℕ) (r : ReliableReceiver M) : Type 0 where
  pub count : ℕ
  pub oldest : r.oldest_received_message_index ≡ base % 65536
  pub slots : r.message_record ≡ slots_of got base count
  pub below : (k : ℕ) → k < base → got k ≡ true
  pub beyond : (k : ℕ) → base + count ≤ k → got k ≡ false
  pub few : count ≤ 32768

pub new-Holds : (M : Type 0) → Holds {M = M} (λ k. ltb k 65536) 65536 new
unfolding new slots_of
new-Holds M = record {
  count = 0;
  oldest = refl;
  slots = refl;
  below = λ k lt. ground arith;
  beyond = λ k le. ground arith;
  few = omega arith;
}

with_number-same : (got : ℕ → Bool) (n : ℕ) → got n ≡ true → (k : ℕ) → with_number n got k ≡ got k
with_number-same got n had k = elim (ℕ_discrete k n) [
  | yes p ↦ rw ((==_iff k n).1 p) (sym (ap got p ∙ had))
  | no ne ↦ rw (==_false k n ne)
]

module _ {M : Type 0} (got : ℕ → Bool) (base n : ℕ) (message : M) (r : ReliableReceiver M) where
  -- A message that is there changes nothing.
  unchanged : got n ≡ true → Holds got base r → Holds (with_number n got) base r
  unchanged had h = record {
    count = h.count;
    oldest = h.oldest;
    slots =
        h.slots
        ∙ slots_of-same got (with_number n got) base h.count
            (λ k. sym (with_number-same got n had k));
    below = λ k lt. with_number-same got n had k ∙ h.below k lt;
    beyond = λ k le. with_number-same got n had k ∙ h.beyond k le;
    few = h.few;
  }

  old_test :
      base < n + 32768
      → n < base + 32768
      → Holds got base r
      → sequence_less_than (n % 65536) r.oldest_received_message_index ≡ ltb n base
  unfolding sequence_less_than
  old_test late near h =
      ap (λ (c : ℕ). sequence_greater_than c (n % 65536)) h.oldest
      ∙ greater-unwrapped base n late near

  abbrev grown : List (ℕ × Bool) → ReliableReceiver M
  grown slots = record r {
    message_record = slots;
    incoming_messages = r.incoming_messages ++ ((n % 65536, message) ∷ []);
  }

  cleared-Holds :
      (count : ℕ)
      → r.oldest_received_message_index ≡ base % 65536
      → ((k : ℕ) → k < base → with_number n got k ≡ true)
      → ((k : ℕ) → base + count ≤ k → with_number n got k ≡ false)
      → count ≤ 32768
      → (base' : ℕ) × Holds
          (with_number n got)
          base'
          (clear_old_messages (grown (slots_of (with_number n got) base count)))
        × ((clear_old_messages (grown (slots_of (with_number n got) base count))).incoming_messages
            ≡ r.incoming_messages ++ ((n % 65536, message) ∷ []))
  unfolding clear_old_messages
  cleared-Holds count oldest below beyond few =
      let (moved, le, e, all) = clear-slots count (with_number n got) base in
      (
        base + moved,
        record {
          count = count - moved;
          oldest = rw (oldest, e);
          slots = rw (oldest, e);
          below = λ k lt. elim (dec_lt k base) [
            | yes old ↦ below k old
            | no newer ↦ all k (omega arith) lt
          ];
          beyond = λ k ge. beyond k (omega arith);
          few = omega arith;
        },
        refl,
      )

-- The message `n` arrives, within half the range of the oldest number that is missing: the receiver
-- then has the numbers from before and `n`, and the message is handed on if it was missing, and else
-- nothing is.
pub buffer_message-once :
    {M : Type 0} (got : ℕ → Bool) (base n : ℕ) (message : M) (r : ReliableReceiver M)
    → Holds got base r
    → base < n + 32768
    → n < base + 32768
    → (r' : ReliableReceiver M) × (base' : ℕ) × (buffer_message (n % 65536) message r ≡ some r')
      × Holds (with_number n got) base' r'
      × (r'.incoming_messages ≡ (
          if got n
          then r.incoming_messages
          else r.incoming_messages ++ ((n % 65536, message) ∷ [])))
unfolding buffer_message
buffer_message-once got base n message r h late near = elim (dec_lt n base) [
  | yes old ↦
      let t : ltb n base ≡ true = lt→ltb n base old in
      let had : got n ≡ true = h.below n old in
      (
        r,
        base,
        rw (old_test got base n message r late near h, t),
        unchanged got base n message r had h,
        rw had,
      )
  | no newer ↦
      let t : ltb n base ≡ false = ltb-false n base (omega arith) in
      let z : base + 0 ≡ base = omega arith in
      let p0 =
        place-slots h.count got r.oldest_received_message_index base 0 n h.oldest (omega arith)
          (omega arith) (omega (arith, h.few)) (λ k le. h.beyond k (omega arith)) in
      let p1 = rw z at p0 in
      elim (Bool-cases (got n)) [
        | inl had ↦
            let p : place r.message_record r.oldest_received_message_index 0 (n % 65536) ≡ already =
              ap (λ (s : List (ℕ × Bool)). place s r.oldest_received_message_index 0 (n % 65536))
                h.slots
              ∙ p1
              ∙ rw had in
            (
              r,
              base,
              rw (old_test got base n message r late near h, t, p),
              unchanged got base n message r had h,
              rw had,
            )
        | inr fresh ↦
            let count : ℕ = max h.count (suc (n - base)) in
            let p : place r.message_record r.oldest_received_message_index 0 (n % 65536)
                ≡ placed (slots_of (with_number n got) base count) =
              ap (λ (s : List (ℕ × Bool)). place s r.oldest_received_message_index 0 (n % 65536))
                h.slots
              ∙ p1
              ∙ rw fresh in
            let (base', h', incoming) =
              cleared-Holds got base n message r count h.oldest
                (λ k lt. rw (==_false k n (omega arith), h.below k lt))
                (λ k le. rw (==_false k n (omega arith), h.beyond k (omega arith)))
                (omega (arith, h.few)) in
            (
              clear_old_messages
                  (grown got base n message r (slots_of (with_number n got) base count)),
              base',
              rw (old_test got base n message r late near h, t, p),
              h',
              rw fresh incoming,
            )
      ]
]
