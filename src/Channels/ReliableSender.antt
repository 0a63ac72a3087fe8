-- ===== src/Channels/ReliableSender.antt =====
-- shared/src/messages/channels/senders/reliable_sender.rs: ReliableSender, which sends every message
-- again until it is delivered. An Instant is a number of time units; `resend_duration`, which the
-- code computes from the round trip time in floating point, is an argument.
pub mod Collect
pub mod Reachable
use naia.Base.{
  ℕ, zero, suc, ◌+◌, ◌-◌, ◌*◌, ◌/◌, ◌%◌, ◌^◌, ◌≤◌, ◌<◌, min, max, bit_and, bit_or, ◌≡◌, refl, sym,
  ap, ◌∙◌, ◌≢◌, ◌↔◌, ◌⊎◌, inl, inr, Bool, true, false, not, ◌&&◌, ◌||◌, Option, none, some, List,
  [], ◌∷◌, ◌++◌, map, append_assoc, append-nil, arith, ltb, leb, ◌==◌, if◌then◌else◌, length,
  get_elem?, set, get_or, take, drop, replicate, All,
}
use naia.Sequence.{wrapping_add}

-- A message with its index and the time when it was last sent.
pub record Pending (P : Type 0) : Type 0 where
  pub message_index : ℕ
  pub last_sent : Option ℕ
  pub message : P

pub record ReliableSender (P : Type 0) : Type 0 where
  pub sending_messages : List (Option (Pending P))
  pub next_send_message_index : ℕ
  pub outgoing_messages : List (ℕ × P)
  pub min_last_sent : Option ℕ
  pub has_unsent : Bool
  pub max_queue_depth : Option ℕ

-- Instant::elapsed(now), which is zero for an instant that has not come.
abbrev pub elapsed : ℕ → ℕ → ℕ
elapsed t now = now - t

-- The message was never sent, or so long ago that it has to be sent again.
abbrev pub is_due : ℕ → ℕ → Option ℕ → Bool
is_due now resend_duration none = true
is_due now resend_duration (some t) = leb resend_duration (elapsed t now)

-- The running minimum over the times of the last sending.
abbrev pub lower : Option ℕ → Option ℕ → Option ℕ
lower none m = m
lower (some t) none = some t
lower (some t) (some cur) = if ltb t cur then some t else some cur

abbrev pub at_capacity : Option ℕ → ℕ → Bool
at_capacity none n = false
at_capacity (some m) n = leb m n

-- `min.elapsed(now) < resend_duration`, with a minimum.
abbrev pub is_early : ℕ → ℕ → Option ℕ → Bool
is_early now resend_duration none = false
is_early now resend_duration (some t) = ltb (elapsed t now) resend_duration

module _ {P : Type 0} where
  unfoldable pub new : Option ℕ → ReliableSender P
  new max_queue_depth = record {
    sending_messages = [];
    next_send_message_index = 0;
    outgoing_messages = [];
    min_last_sent = none;
    has_unsent = false;
    max_queue_depth = max_queue_depth;
  }

  unfoldable pub cleanup_loop : List (Option (Pending P)) → List (Option (Pending P))
  cleanup_loop [] = []
  cleanup_loop (none ∷ ms) = cleanup_loop ms
  cleanup_loop (some m ∷ ms) = some m ∷ ms

  unfoldable pub take_next_messages : ReliableSender P → List (ℕ × P) × ReliableSender P
  take_next_messages s = (s.outgoing_messages, record s { outgoing_messages = [] })

  -- The message found behind a slot that stays.
  abbrev pub kept_slot :
      Option (Pending P)
      → Option (P × List (Option (Pending P)))
      → Option (P × List (Option (Pending P)))
  kept_slot slot none = none
  kept_slot slot (some (message, ms)) = some (message, slot ∷ ms)

  -- The loop of `deliver_message`: the message found and what is left in its place.
  unfoldable pub take_message :
      ℕ → List (Option (Pending P)) → Option (P × List (Option (Pending P)))
  take_message message_index [] = none
  take_message message_index (none ∷ ms) = kept_slot none (take_message message_index ms)
  take_message message_index (some m ∷ ms) =
      let rest = take_message message_index ms in
      if message_index == m.message_index
      then some (m.message, none ∷ ms)
      else kept_slot (some m) rest

  -- The message found and the sender without it.
  abbrev pub settled :
      ReliableSender P → Option (P × List (Option (Pending P))) → Option P × ReliableSender P
  settled s none = (none, s)
  settled s (some (message, ms)) = (some message, record s { sending_messages = cleanup_loop ms })

  unfoldable pub deliver_message : ℕ → ReliableSender P → Option P × ReliableSender P
  deliver_message message_index s = settled s (take_message message_index s.sending_messages)

  unfoldable pub send_message : P → ReliableSender P → Bool × ReliableSender P
  send_message message s =
      if at_capacity s.max_queue_depth (length s.sending_messages) then (false, s) else (
        true,
        record s {
          sending_messages =
              s.sending_messages
              ++ (some (record {
                message_index = s.next_send_message_index;
                last_sent = none;
                message = message;
              })
                  ∷ []);
          next_send_message_index = wrapping_add s.next_send_message_index 1;
          has_unsent = true;
        },
      )

  -- The loop of `collect_messages`, over the messages, those going out and the minimum.
  unfoldable pub scan :
      ℕ
      → ℕ
      → List (Option (Pending P))
      → List (ℕ × P)
      → Option ℕ
      → List (Option (Pending P)) × List (ℕ × P) × Option ℕ
  scan now resend_duration [] outgoing new_min = ([], outgoing, new_min)
  scan now resend_duration (none ∷ ms) outgoing new_min =
      let (ms', outgoing', new_min') = scan now resend_duration ms outgoing new_min in
      (none ∷ ms', outgoing', new_min')
  scan now resend_duration (some m ∷ ms) outgoing new_min =
      let due = is_due now resend_duration m.last_sent in
      let last_sent' : Option ℕ = if due then some now else m.last_sent in
      let sent = if due then outgoing ++ ((m.message_index, m.message) ∷ []) else outgoing in
      let (ms', outgoing', new_min') =
        scan now resend_duration ms sent (lower last_sent' new_min) in
      (some (record m { last_sent = last_sent' }) ∷ ms', outgoing', new_min')

  abbrev pub is_empty : List (Option (Pending P)) → Bool
  is_empty [] = true
  is_empty (m ∷ ms) = false

  -- Nothing can be due for sending.
  unfoldable pub nothing_due : ℕ → ℕ → ReliableSender P → Bool
  nothing_due now resend_duration s =
      not s.has_unsent
      && (is_empty s.sending_messages || is_early now resend_duration s.min_last_sent)

  unfoldable pub full_scan : ℕ → ℕ → ReliableSender P → ReliableSender P
  unfolding scan
  full_scan now resend_duration s =
      let (ms, outgoing, new_min) =
        scan now resend_duration s.sending_messages s.outgoing_messages none in
      record s {
        sending_messages = ms;
        outgoing_messages = outgoing;
        min_last_sent = new_min;
        has_unsent = false;
      }

  unfoldable pub collect_messages : ℕ → ℕ → ReliableSender P → ReliableSender P
  unfolding nothing_due full_scan
  collect_messages now resend_duration s =
      if nothing_due now resend_duration s then s else full_scan now resend_duration s

  unfoldable pub has_messages : ReliableSender P → Bool
  has_messages s = elim s.outgoing_messages [ [] ↦ false | m ∷ ms ↦ true ]

  unfoldable pub notify_message_delivered : ℕ → ReliableSender P → ReliableSender P
  unfolding deliver_message
  notify_message_delivered message_index s = (deliver_message message_index s).1
