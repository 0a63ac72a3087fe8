-- ===== src/Connection/AckManager/Processing.antt =====
-- What `process_incoming_header` reports as delivered and what it forgets.
use naia.Base.{
  ℕ, zero, suc, ◌+◌, ◌-◌, ◌/◌, ◌%◌, ◌^◌, ◌≤◌, ◌<◌, bit_and, ◌≡◌, refl, ap, ◌∙◌, ◌≢◌, inl, inr, Bool,
  true, false, ◌&&◌, none, List, arith, ltb, leb, ◌==◌, if◌then◌else◌, ℕ_discrete, Bool-cases,
  ==_refl, ==_false,
}
use naia.Base.Assoc.{lookup}
use naia.Base.Outcome.{ok}
use naia.Sequence.{IsU16, wrapping_sub}
use naia.Connection.AckManager.{AckManager, resolve_bits}
use naia.Connection.AckManager.Deliveries.{
  occurrences, is_tracked_data, as_number, Monitors, Resolved, resolve-Resolved,
}
use naia.Base.Bits.{bit_and-one}
use native.Mathlib.Nat.{div-div-eq-div-mul, pow-suc}

-- How far a packet index lies before the acknowledged one.
abbrev pub age : ℕ → ℕ → ℕ
age ack_index n = wrapping_sub ack_index n

-- The indices of the rounds from `i` on, and those of them whose bit is set.
abbrev pub in_rounds : ℕ → ℕ → ℕ → Bool
in_rounds count i d = leb i d && ltb d (i + count)

abbrev pub bit_of : ℕ → ℕ → Bool
bit_of bitfield j = bitfield / 2 ^ j % 2 == 1

-- `m'` and `delivered'` are `m` and `delivered` after the rounds.
pub record Rounds (count i ack_index bitfield : ℕ) (m : AckManager) (delivered : List ℕ)
    (m' : AckManager) (delivered' : List ℕ) : Type 0 where
  pub monitors : Monitors m'
  pub counts :
      (n : ℕ)
      → IsU16 n
      → occurrences n delivered'
        ≡ occurrences n delivered
          + as_number (
              in_rounds count i (age ack_index n)
              && (bit_of bitfield (age ack_index n - i) && is_tracked_data m n))
  pub sent :
      (n : ℕ)
      → IsU16 n
      → lookup n m'.sent_packets
        ≡ (if in_rounds count i (age ack_index n) then none else lookup n m.sent_packets)
  pub same_buffer : m'.received_packets ≡ m.received_packets
  pub same_last : m'.last_recv_packet_index ≡ m.last_recv_packet_index

no_rounds : (i d : ℕ) → in_rounds zero i d ≡ false
no_rounds i d = ground arith

own_age :
    (ack_index i : ℕ) → IsU16 ack_index → i < 65536 → age ack_index (wrapping_sub ack_index i) ≡ i
own_age ack_index i small h = omega arith

other_age :
    (ack_index i n : ℕ)
    → IsU16 ack_index
    → IsU16 n
    → i < 65536
    → wrapping_sub ack_index i ≢ n
    → age ack_index n ≢ i
other_age ack_index i n small hn h ne p = ne (omega arith)

first_round : (count i : ℕ) → in_rounds (suc count) i i ≡ true
first_round count i = ground arith

round_past : (count i : ℕ) → in_rounds count (i + 1) i ≡ false
round_past count i = ground arith

later_round : (count i d : ℕ) → d ≢ i → in_rounds (suc count) i d ≡ in_rounds count (i + 1) d
later_round count i d ne = ground arith

lowest_bit : (bitfield i : ℕ) → bit_of bitfield (i - i) ≡ (bit_and bitfield 1 == 1)
lowest_bit bitfield i =
    let z : i - i ≡ 0 = omega arith in
    let one : bitfield / 2 ^ 0 ≡ bitfield = omega arith in rw (z, one, bit_and-one)

shifted_bit :
    (bitfield i d : ℕ) → i < d → bit_of (bitfield / 2) (d - (i + 1)) ≡ bit_of bitfield (d - i)
shifted_bit bitfield i d lt =
    let e : d - i ≡ suc (d - (i + 1)) = omega arith in
    let p : bitfield / 2 / 2 ^ (d - (i + 1)) ≡ bitfield / 2 ^ suc (d - (i + 1)) =
      div-div-eq-div-mul bitfield 2 (2 ^ (d - (i + 1)))
      ∙ ap (λ (x : ℕ). bitfield / x) (omega (arith, pow-suc 2 (d - (i + 1)))) in
    rw (e, p)

same_bits :
    (count i bitfield d : ℕ) (t : Bool)
    → (in_rounds count (i + 1) d && (bit_of (bitfield / 2) (d - (i + 1)) && t))
      ≡ (in_rounds count (i + 1) d && (bit_of bitfield (d - i) && t))
same_bits count i bitfield d t = elim (Bool-cases (in_rounds count (i + 1) d)) [
  | inl inside ↦ rw (inside, shifted_bit bitfield i d (ground (arith, inside)))
  | inr outside ↦ rw outside
]

-- A report, and the rounds behind it.
one_more :
    (count i ack_index bitfield : ℕ) (m : AckManager) (d : List ℕ) (m1 : AckManager) (d1 : List ℕ)
    (m2 : AckManager) (d2 : List ℕ)
    → IsU16 ack_index
    → 0 < i
    → i + suc count ≤ 65536
    → Resolved (wrapping_sub ack_index i) (bit_and bitfield 1 == 1) m d m1 d1
    → Rounds count (i + 1) ack_index (bitfield / 2) m1 d1 m2 d2
    → Rounds (suc count) i ack_index bitfield m d m2 d2
one_more count i ack_index bitfield m d m1 d1 m2 d2 small pos fits r1 r2 = record {
  monitors = r2.monitors;
  counts = counts;
  sent = sent;
  same_buffer = r2.same_buffer ∙ r1.same_buffer;
  same_last = r2.same_last ∙ r1.same_last;
}
  where
    k : ℕ
    k = wrapping_sub ack_index i

    sent :
        (n : ℕ)
        → IsU16 n
        → lookup n m2.sent_packets
          ≡ (if in_rounds (suc count) i (age ack_index n) then none else lookup n m.sent_packets)
    sent n hn = elim (ℕ_discrete k n) [
      | yes here ↦
          let a : age ack_index n ≡ i = omega arith in
          let r = r2.sent n hn in
          let g : lookup n m1.sent_packets ≡ none = rw (← here) r1.gone in
          rw (a, first_round count i) (rw (a, round_past count i, g) at r)
      | no there ↦
          let ne = other_age ack_index i n small hn (omega arith) there in
          r2.sent n hn ∙ rw (later_round count i (age ack_index n) ne, r1.kept n there)
    ]

    counts :
        (n : ℕ)
        → IsU16 n
        → occurrences n d2
          ≡ occurrences n d
            + as_number (
                in_rounds (suc count) i (age ack_index n)
                && (bit_of bitfield (age ack_index n - i) && is_tracked_data m n))
    counts n hn = elim (ℕ_discrete k n) [
      | yes here ↦
          let a : age ack_index n ≡ i = omega arith in
          let first : occurrences n d1
              ≡ occurrences n d + as_number ((bit_and bitfield 1 == 1) && is_tracked_data m n) =
            rw (here, ==_refl n) at (r1.counts n) in
          let rest : occurrences n d2 ≡ occurrences n d1 =
            let r = rw (a, round_past count i) at (r2.counts n hn) in omega (arith, r) in
          rw (a, first_round count i, lowest_bit bitfield i) (rest ∙ first)
      | no there ↦
          let ne = other_age ack_index i n small hn (omega arith) there in
          let first : occurrences n d1 ≡ occurrences n d =
            let r = rw (==_false k n there) at (r1.counts n) in omega (arith, r) in
          r2.counts n hn
          ∙ rw (
            first,
            r1.kept n there,
            later_round count i (age ack_index n) ne,
            same_bits count i bitfield (age ack_index n) (is_tracked_data m n),
          )
    ]

pub resolve_bits-Rounds :
    (count i ack_index bitfield : ℕ) (m : AckManager) (delivered : List ℕ)
    → IsU16 ack_index
    → 0 < i
    → i + count ≤ 65536
    → Monitors m
    → (m' : AckManager) × (delivered' : List ℕ) × (resolve_bits count i ack_index bitfield
          (m, delivered)
        ≡ ok (m', delivered'))
      × Rounds count i ack_index bitfield m delivered m' delivered'
unfolding resolve_bits
resolve_bits-Rounds zero i ack_index bitfield m delivered small pos fits h = (
  m,
  delivered,
  refl,
  record {
    monitors = h;
    counts = λ n hn. rw (no_rounds i (age ack_index n)) (omega arith);
    sent = λ n hn. rw (no_rounds i (age ack_index n));
    same_buffer = refl;
    same_last = refl;
  },
)
resolve_bits-Rounds (suc count) i ack_index bitfield m delivered small pos fits h =
    let k : ℕ = wrapping_sub ack_index i in
    let (m1, d1, e1, r1) = resolve-Resolved k (bit_and bitfield 1 == 1) m delivered h in
    let (m2, d2, e2, r2) =
      resolve_bits-Rounds count (i + 1) ack_index (bitfield / 2) m1 d1 small (omega arith)
        (omega arith) r1.monitors in
    (
      m2,
      d2,
      rw (e1, e2),
      one_more count i ack_index bitfield m delivered m1 d1 m2 d2 small pos fits r1 r2,
    )
