-- ===== src/Channels/ReliableSender/Collect.antt =====
-- The fast path of `collect_messages` against the scan of all messages.
use naia.Base.{
  ℕ, ◌≤◌, ◌≡◌, refl, sym, ap, inl, inr, Bool, true, false, ◌||◌, Option, none, some, List, [], ◌∷◌,
  ◌++◌, arith, ltb, leb, if◌then◌else◌, All, dec_lt, Bool-cases, lt→ltb, ltb-false,
}
use naia.Channels.ReliableSender.{
  Pending, ReliableSender, elapsed, is_due, lower, scan, is_empty, is_early, nothing_due, full_scan,
  collect_messages,
}
use native.Mathlib.Nat.{le_refl}

-- The minimum is there and not above the time.
abbrev pub IsBelow : Option ℕ → Option ℕ → Type 0
IsBelow none last = ⊥
IsBelow (some m) none = ⊥
IsBelow (some m) (some t) = m ≤ t

-- A message that is pending was sent, not before the minimum.
abbrev pub IsTimed : {P : Type 0} → Option ℕ → Option (Pending P) → Type 0
IsTimed m none = Unit
IsTimed m (some p) = IsBelow m p.last_sent

-- If no message is unsent, the minimum is a lower bound of the times of sending.
abbrev pub IsTracked : {P : Type 0} → ReliableSender P → Type 0
IsTracked s = s.has_unsent ≡ false → All (IsTimed s.min_last_sent) s.sending_messages

below-not_due :
    (now resend_duration : ℕ) (m last : Option ℕ)
    → is_early now resend_duration m ≡ true
    → IsBelow m last
    → is_due now resend_duration last ≡ false
below-not_due now resend_duration none last early h = elim h [ ]
below-not_due now resend_duration (some m) none early h = elim h [ ]
below-not_due now resend_duration (some m) (some t) early h = ground arith

-- A scan with nothing due sends nothing.
scan-nothing :
    {P : Type 0} (now resend_duration : ℕ) (m : Option ℕ) (ms : List (Option (Pending P)))
    (outgoing : List (ℕ × P)) (new_min : Option ℕ)
    → is_early now resend_duration m ≡ true
    → All (IsTimed m) ms
    → ((scan now resend_duration ms outgoing new_min).0 ≡ ms)
      × ((scan now resend_duration ms outgoing new_min).1 ≡ outgoing)
unfolding scan
scan-nothing now resend_duration m [] outgoing new_min early h = (refl, refl)
scan-nothing now resend_duration m (none ∷ ms) outgoing new_min early h =
    let (a, b) = scan-nothing now resend_duration m ms outgoing new_min early h.1 in
    (ap (◌∷◌ none) a, b)
scan-nothing now resend_duration m (some p ∷ ms) outgoing new_min early h =
    let quiet = below-not_due now resend_duration m p.last_sent early h.0 in
    let (a, b) =
      scan-nothing now resend_duration m ms outgoing (lower p.last_sent new_min) early h.1 in
    (rw (quiet, a), rw (quiet, b))

lower-IsBelow : (last m : Option ℕ) (t : ℕ) → last ≡ some t → IsBelow (lower last m) last
lower-IsBelow none m t e = cc
lower-IsBelow (some t) none u e = le_refl t
lower-IsBelow (some t) (some cur) u e = elim (dec_lt t cur) [
  | yes lt ↦ let c : ltb t cur ≡ true = lt→ltb t cur lt in rw c (le_refl t)
  | no ge ↦ let c : ltb t cur ≡ false = ltb-false t cur (omega arith) in rw c (omega arith)
]

lower-keeps : (last m other : Option ℕ) → IsBelow m other → IsBelow (lower last m) other
lower-keeps last none other h = elim h [ ]
lower-keeps last (some m) none h = elim h [ ]
lower-keeps none (some m) (some t) h = h
lower-keeps (some l) (some m) (some t) h = elim (dec_lt l m) [
  | yes lt ↦ let c : ltb l m ≡ true = lt→ltb l m lt in rw c (omega arith)
  | no ge ↦ let c : ltb l m ≡ false = ltb-false l m (omega arith) in rw c h
]

sent_at :
    (now resend_duration : ℕ) (last : Option ℕ)
    → (t : ℕ) × ((if is_due now resend_duration last then some now else last) ≡ some t)
sent_at now resend_duration none = (now, refl)
sent_at now resend_duration (some t) = elim (Bool-cases (leb resend_duration (elapsed t now))) [
  | inl due ↦ (now, rw due)
  | inr early ↦ (t, rw early)
]

-- After a scan every message is timed by the new minimum, and what was above the old one is above
-- the new one.
scan-IsTimed :
    {P : Type 0} (now resend_duration : ℕ) (ms : List (Option (Pending P)))
    (outgoing : List (ℕ × P)) (new_min : Option ℕ)
    → All
        (IsTimed (scan now resend_duration ms outgoing new_min).2)
        (scan now resend_duration ms outgoing new_min).0
      × ((other : Option ℕ)
          → IsBelow new_min other
          → IsBelow (scan now resend_duration ms outgoing new_min).2 other)
unfolding scan
scan-IsTimed {P} now resend_duration [] outgoing new_min = (tt, λ other h. h)
scan-IsTimed {P} now resend_duration (none ∷ ms) outgoing new_min =
    let (timed, keeps) = scan-IsTimed now resend_duration ms outgoing new_min in
    ((tt, timed), keeps)
scan-IsTimed {P} now resend_duration (some p ∷ ms) outgoing new_min =
    let due : Bool = is_due now resend_duration p.last_sent in
    let last : Option ℕ = if due then some now else p.last_sent in
    let sent : List (ℕ × P) =
      if due then outgoing ++ ((p.message_index, p.message) ∷ []) else outgoing in
    let (timed, keeps) = scan-IsTimed now resend_duration ms sent (lower last new_min) in
    let (t, at) = sent_at now resend_duration p.last_sent in
    (
      (keeps last (lower-IsBelow last new_min t at), timed),
      λ other h. keeps other (lower-keeps last new_min other h),
    )

full_scan-IsTracked :
    {P : Type 0} (now resend_duration : ℕ) (s : ReliableSender P)
    → IsTracked (full_scan now resend_duration s)
unfolding full_scan
full_scan-IsTracked now resend_duration s e =
    (scan-IsTimed now resend_duration s.sending_messages s.outgoing_messages none).0

quiet-scan :
    {P : Type 0} (now resend_duration : ℕ) (s : ReliableSender P)
    → IsTracked s
    → nothing_due now resend_duration s ≡ true
    → ((full_scan now resend_duration s).sending_messages ≡ s.sending_messages)
      × ((full_scan now resend_duration s).outgoing_messages ≡ s.outgoing_messages)
unfolding nothing_due full_scan
quiet-scan {P} now resend_duration s tracked e = elim (Bool-cases s.has_unsent) [
  | inl unsent ↦ cc (rw unsent at e)
  | inr all_sent ↦ go s.sending_messages (rw all_sent at e) (tracked all_sent)
]
  where
    go :
        (ms : List (Option (Pending P)))
        → (is_empty ms || is_early now resend_duration s.min_last_sent) ≡ true
        → All (IsTimed s.min_last_sent) ms
        → ((scan now resend_duration ms s.outgoing_messages none).0 ≡ ms)
          × ((scan now resend_duration ms s.outgoing_messages none).1 ≡ s.outgoing_messages)
    go [] early h = unfold scan in (refl, refl)
    go (m ∷ ms) early h =
        scan-nothing now resend_duration s.min_last_sent (m ∷ ms) s.outgoing_messages none early h

-- With a minimum that is a lower bound of the times of sending, `collect_messages` has the result of
-- a scan of all messages, its fast path included: the same messages go out and the same are pending;
-- and its minimum is a lower bound again.
pub collect_messages-scan :
    {P : Type 0} (now resend_duration : ℕ) (s : ReliableSender P)
    → IsTracked s
    → ((collect_messages now resend_duration s).sending_messages
        ≡ (full_scan now resend_duration s).sending_messages)
      × ((collect_messages now resend_duration s).outgoing_messages
          ≡ (full_scan now resend_duration s).outgoing_messages)
      × IsTracked (collect_messages now resend_duration s)
unfolding collect_messages
collect_messages-scan now resend_duration s tracked =
    elim (Bool-cases (nothing_due now resend_duration s)) [
      | inl quiet ↦
          let (a, b) = quiet-scan now resend_duration s tracked quiet in
          rw quiet (sym a, sym b, tracked)
      | inr some_due ↦ rw some_due (refl, refl, full_scan-IsTracked now resend_duration s)
    ]
