-- ===== src/Channels/ReliableSender/Reachable.antt =====
-- ReliableSender of shared/src/messages/channels/senders over every history of calls.
use naia.Base.{
  ℕ, ◌≡◌, inl, inr, false, Option, none, some, List, [], ◌∷◌, ◌==◌, length, All, Bool-cases,
}
use naia.Channels.ReliableSender
use naia.Channels.ReliableSender.{
  Pending, ReliableSender, take_message, cleanup_loop, kept_slot, settled, deliver_message,
  send_message, full_scan, collect_messages, notify_message_delivered, take_next_messages,
  at_capacity,
}
use naia.Channels.ReliableSender.Collect.{IsTimed, IsTracked, collect_messages-scan}

-- A sender as calls leave it, from the new one on.
pub data Reached (P : Type 0) : ReliableSender P → Type 0 where
  created : (max_queue_depth : Option ℕ) → Reached P (ReliableSender.new max_queue_depth)
  sent : {s : ReliableSender P} (message : P) → Reached P s → Reached P ((send_message message s).1)
  collected :
      {s : ReliableSender P} (now resend_duration : ℕ)
      → Reached P s
      → Reached P (collect_messages now resend_duration s)
  taken : {s : ReliableSender P} → Reached P s → Reached P ((take_next_messages s).1)
  notified :
      {s : ReliableSender P} (message_index : ℕ)
      → Reached P s
      → Reached P (notify_message_delivered message_index s)

send_message-IsTracked :
    {P : Type 0} (message : P) (s : ReliableSender P)
    → IsTracked s
    → IsTracked ((send_message message s).1)
unfolding send_message
send_message-IsTracked message s tracked =
    elim (Bool-cases (at_capacity s.max_queue_depth (length s.sending_messages))) [
      | inl full ↦ rw full tracked
      | inr room ↦ rw room (λ h. cc)
    ]

cleanup_loop-All :
    {P : Type 0} (m : Option ℕ) (ms : List (Option (Pending P)))
    → All (IsTimed m) ms
    → All (IsTimed m) (cleanup_loop ms)
unfolding cleanup_loop
cleanup_loop-All m [] h = h
cleanup_loop-All m (none ∷ ms) h = cleanup_loop-All m ms h.1
cleanup_loop-All m (some p ∷ ms) h = h

-- What is left of the messages when one is taken.
abbrev rest_of :
    {P : Type 0}
    → List (Option (Pending P))
    → Option (P × List (Option (Pending P)))
    → List (Option (Pending P))
rest_of ms none = ms
rest_of ms (some (message, ms')) = ms'

kept_slot-All :
    {P : Type 0} (m : Option ℕ) (slot : Option (Pending P)) (ms : List (Option (Pending P)))
    (found : Option (P × List (Option (Pending P))))
    → IsTimed m slot
    → All (IsTimed m) ms
    → All (IsTimed m) (rest_of ms found)
    → All (IsTimed m) (rest_of (slot ∷ ms) (kept_slot slot found))
kept_slot-All m slot ms none h hs hr = (h, hs)
kept_slot-All m slot ms (some (message, ms')) h hs hr = (h, hr)

take_message-All :
    {P : Type 0} (message_index : ℕ) (m : Option ℕ) (ms : List (Option (Pending P)))
    → All (IsTimed m) ms
    → All (IsTimed m) (rest_of ms (take_message message_index ms))
unfolding take_message
take_message-All message_index m [] h = h
take_message-All message_index m (none ∷ ms) h =
    kept_slot-All m none ms (take_message message_index ms) h.0 h.1
      (take_message-All message_index m ms h.1)
take_message-All message_index m (some p ∷ ms) h =
    elim (Bool-cases (message_index == p.message_index)) [
      | inl found ↦ rw found (tt, h.1)
      | inr other ↦ rw other (
          kept_slot-All m (some p) ms (take_message message_index ms) h.0 h.1
            (take_message-All message_index m ms h.1))
    ]

notify-IsTracked :
    {P : Type 0} (message_index : ℕ) (s : ReliableSender P)
    → IsTracked s
    → IsTracked (notify_message_delivered message_index s)
unfolding notify_message_delivered deliver_message
notify-IsTracked {P = P} message_index s tracked =
    go (take_message message_index s.sending_messages)
      (λ h. take_message-All message_index s.min_last_sent s.sending_messages (tracked h))
  where
    go :
        (found : Option (P × List (Option (Pending P))))
        → (s.has_unsent ≡ false → All (IsTimed s.min_last_sent) (rest_of s.sending_messages found))
        → IsTracked ((settled s found).1)
    go none h = tracked
    go (some (message, ms)) h = λ e. cleanup_loop-All s.min_last_sent ms (h e)

-- After any calls of `send_message`, `collect_messages`, `take_next_messages` and
-- `notify_message_delivered`, in any order and at any times, the minimum is a lower bound of the
-- times of sending, if no message is unsent.
pub Reached-IsTracked : {P : Type 0} {s : ReliableSender P} → Reached P s → IsTracked s
unfolding ReliableSender.new take_next_messages
Reached-IsTracked (created max_queue_depth) = λ _. tt
Reached-IsTracked (sent {s} message before) =
    send_message-IsTracked message s (Reached-IsTracked before)
Reached-IsTracked (collected {s} now resend_duration before) =
    let (_, _, tracked) = collect_messages-scan now resend_duration s (Reached-IsTracked before) in
    tracked
Reached-IsTracked (taken before) = Reached-IsTracked before
Reached-IsTracked (notified {s} message_index before) =
    notify-IsTracked message_index s (Reached-IsTracked before)
