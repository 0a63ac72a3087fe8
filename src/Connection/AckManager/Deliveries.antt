-- ===== src/Connection/AckManager/Deliveries.antt =====
-- What a packet index gets when one report about it is resolved.
use naia.Base.{
  ℕ, ◌+◌, ◌≡◌, refl, ◌∙◌, ◌≢◌, inl, inr, Bool, true, false, ◌&&◌, Option, none, some, List, [], ◌∷◌,
  ◌++◌, arith, ◌==◌, if◌then◌else◌, Bool-cases, Option-cases,
}
use naia.Base.Assoc.{lookup, remove_key, lookup-remove_key_self, lookup-remove_key_ne}
use naia.Base.Outcome.{ok}
use naia.Connection.PacketType.{PacketType, is_data}
use naia.Connection.LossMonitor.{LossMonitor, record_acked, record_lost, record_outcome}
use naia.Connection.LossMonitor.Window.{Holds, record_outcome-Holds}
use naia.Connection.AckManager.{AckManager, resolve, record_report}

-- How often a number occurs in a list.
unfoldable pub occurrences : ℕ → List ℕ → ℕ
occurrences n [] = 0
occurrences n (k ∷ ks) = (if k == n then 1 else 0) + occurrences n ks

pub occurrences-append :
    (n : ℕ) (xs ys : List ℕ) → occurrences n (xs ++ ys) ≡ occurrences n xs + occurrences n ys
unfolding occurrences
occurrences-append n [] ys = omega arith
occurrences-append n (x ∷ xs) ys = omega (arith, occurrences-append n xs ys)

abbrev pub is_some_data : Option PacketType → Bool
is_some_data none = false
is_some_data (some t) = is_data t

-- A data packet of this index was sent and has not been resolved.
abbrev pub is_tracked_data : AckManager → ℕ → Bool
is_tracked_data m n = is_some_data (lookup n m.sent_packets)

abbrev pub as_number : Bool → ℕ
as_number b = if b then 1 else 0

-- The loss monitor is one that has recorded some history.
abbrev pub Monitors : AckManager → Type 0
Monitors m = (bs : List Bool) × Holds bs m.loss_monitor

record_report-Holds :
    (acked : Bool) (t : PacketType) (bs : List Bool) (l : LossMonitor)
    → Holds bs l
    → (l' : LossMonitor) × (record_report acked t l ≡ ok l') × ((cs : List Bool) × Holds cs l')
unfolding record_report record_acked record_lost
record_report-Holds acked t bs l h = elim (Bool-cases (is_data t)) [
  | inr other ↦ (l, rw other, (bs, h))
  | inl data_type ↦
      let (l', e, h') = record_outcome-Holds acked bs l h in
      (l', rw data_type (both acked ∙ e), (acked ∷ bs, h'))
]
  where
    both :
        (b : Bool)
        → (if b then record_outcome true l else record_outcome false l) ≡ record_outcome b l
    both true = refl
    both false = refl

-- `m'` and `delivered'` are `m` and `delivered` after a report on `k`.
pub record Resolved (k : ℕ) (acked : Bool) (m : AckManager) (delivered : List ℕ) (m' : AckManager)
    (delivered' : List ℕ) : Type 0 where
  pub monitors : Monitors m'
  pub counts :
      (n : ℕ)
      → occurrences n delivered'
        ≡ occurrences n delivered + as_number ((k == n) && (acked && is_tracked_data m k))
  pub gone : lookup k m'.sent_packets ≡ none
  pub kept : (n : ℕ) → k ≢ n → lookup n m'.sent_packets ≡ lookup n m.sent_packets
  pub same_buffer : m'.received_packets ≡ m.received_packets
  pub same_last : m'.last_recv_packet_index ≡ m.last_recv_packet_index

no_delivery : (k n : ℕ) (acked : Bool) (c : ℕ) → c ≡ c + as_number ((k == n) && (acked && false))
no_delivery k n true c = ground arith
no_delivery k n false c = ground arith

delivery-counts :
    (n k : ℕ) (acked data_type : Bool) (delivered : List ℕ)
    → occurrences n (if data_type && acked then delivered ++ (k ∷ []) else delivered)
      ≡ occurrences n delivered + as_number ((k == n) && (acked && data_type))
unfolding occurrences
delivery-counts n k true true delivered = ground (arith, occurrences-append n delivered (k ∷ []))
delivery-counts n k true false delivered = ground arith
delivery-counts n k false true delivered = ground arith
delivery-counts n k false false delivered = ground arith

pub resolve-Resolved :
    (k : ℕ) (acked : Bool) (m : AckManager) (delivered : List ℕ)
    → Monitors m
    → (m' : AckManager) × (delivered' : List ℕ) × (resolve k acked (m, delivered)
        ≡ ok (m', delivered'))
      × Resolved k acked m delivered m' delivered'
unfolding resolve
resolve-Resolved k acked m delivered (bs, h) = elim (Option-cases (lookup k m.sent_packets)) [
  | inl untracked ↦ (
    m,
    delivered,
    rw (resolve, untracked),
    record {
      monitors = (bs, h);
      counts = λ n. rw untracked (no_delivery k n acked (occurrences n delivered));
      gone = untracked;
      kept = λ n ne. refl;
      same_buffer = refl;
      same_last = refl;
    },
  )
  | inr (t, tracked) ↦
      let (l, e, hl) = record_report-Holds acked t bs m.loss_monitor h in
      (
        record m { sent_packets = remove_key k m.sent_packets; loss_monitor = l },
        if is_data t && acked then delivered ++ (k ∷ []) else delivered,
        rw (resolve, tracked, e),
        record {
          monitors = hl;
          counts = λ n. rw tracked (delivery-counts n k acked (is_data t) delivered);
          gone = lookup-remove_key_self k m.sent_packets;
          kept = λ n ne. lookup-remove_key_ne k n m.sent_packets ne;
          same_buffer = refl;
          same_last = refl;
        },
      )
]
