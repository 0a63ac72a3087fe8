-- ===== src/Connection/LossMonitor/Window.antt =====
-- What a LossMonitor that has recorded a history of outcomes holds.
use naia.Base.{
  ℕ, zero, suc, ◌+◌, ◌-◌, ◌%◌, ◌<◌, min, ◌≡◌, refl, ◌∙◌, ◌≢◌, inl, inr, Bool, true, false, List, [],
  ◌∷◌, arith, leb, ◌==◌, if◌then◌else◌, length, set, get_or, take, ℕ_discrete, get_or-set_self,
  length-set, ==_iff, get_or-set_ne, Bool-cases, get_or_past, le→leb,
}
use naia.Base.Outcome.{Outcome, ok, ◌>>=◌}
use naia.Connection.LossMonitor.{LossMonitor, window, new, evict, record_outcome}

-- A history has the newest outcome first.
unfoldable pub count_acked : List Bool → ℕ
count_acked [] = 0
count_acked (true ∷ bs) = suc (count_acked bs)
count_acked (false ∷ bs) = count_acked bs

unfoldable pub record_all : List Bool → Outcome LossMonitor
record_all [] = ok new
record_all (b ∷ bs) = record_all bs >>= record_outcome b

abbrev pub as_count : Bool → ℕ
as_count true = 1
as_count false = 0

pub record Holds (bs : List Bool) (m : LossMonitor) : Type 0 where
  pub size : length m.outcomes ≡ window
  pub position : m.write_pos < window
  pub total : m.total ≡ min window (length bs)
  pub acked : m.acked_count ≡ count_acked (take window bs)
  pub entries :
      (i : ℕ)
      → i < m.total
      → get_or m.outcomes ((m.write_pos + 63 - i) % window) false ≡ get_or bs i false

count_acked-take-suc :
    (n : ℕ) (bs : List Bool)
    → count_acked (take (suc n) bs) ≡ count_acked (take n bs) + as_count (get_or bs n false)
unfolding count_acked
count_acked-take-suc zero [] = refl
count_acked-take-suc zero (true ∷ bs) = refl
count_acked-take-suc zero (false ∷ bs) = refl
count_acked-take-suc (suc n) [] = refl
count_acked-take-suc (suc n) (true ∷ bs) = omega (arith, count_acked-take-suc n bs)
count_acked-take-suc (suc n) (false ∷ bs) = count_acked-take-suc n bs

count_acked-cons :
    (b : Bool) (bs : List Bool)
    → count_acked (take window (b ∷ bs)) ≡ as_count b + count_acked (take 63 bs)
unfolding count_acked
count_acked-cons true bs = omega arith
count_acked-cons false bs = omega arith

pub new-Holds : Holds [] new
unfolding new count_acked
new-Holds = record {
  size = refl;
  position = omega arith;
  total = refl;
  acked = refl;
  entries = λ i h. elim h [ ];
}

-- The count that is left when a full ring has given up its oldest outcome.
evict-ok :
    (bs : List Bool) (m : LossMonitor)
    → Holds bs m
    → evict m
      ≡ ok (record m {
        total = min window (suc (length bs));
        acked_count = count_acked (take 63 bs);
      })
unfolding evict
evict-ok bs m h = elim (ℕ_discrete m.total window) [
  | yes full ↦
      let at : (m.write_pos + 63 - 63) % window ≡ m.write_pos = omega (arith, h.position) in
      let oldest : get_or m.outcomes m.write_pos false ≡ get_or bs 63 false =
        rw at at (h.entries 63 (omega arith)) in
      let t : (m.total == window) ≡ true = (==_iff _ _).1 full in
      let n : m.total ≡ min window (suc (length bs)) = omega (arith, h.total) in
      let c = count_acked-take-suc 63 bs in
      elim (Bool-cases (get_or bs 63 false)) [
        | inl was_acked ↦
            let k : m.acked_count ≡ count_acked (take 63 bs) + 1 = h.acked ∙ c ∙ rw was_acked in
            let l : leb 1 m.acked_count ≡ true = le→leb 1 m.acked_count (omega (arith, k)) in
            let d : m.acked_count - 1 ≡ count_acked (take 63 bs) = omega arith in
            rw (t, oldest, was_acked, l, d, ← n)
        | inr was_lost ↦
            let k : m.acked_count ≡ count_acked (take 63 bs) =
              h.acked ∙ c ∙ (rw was_lost (omega arith)) in
            rw (t, oldest, was_lost, ← k, ← n)
      ]
  | no room ↦
      let t : (m.total == window) ≡ false = ground arith in
      let n : m.total + 1 ≡ min window (suc (length bs)) = omega (arith, h.total) in
      let past : get_or bs 63 false ≡ false = get_or_past bs 63 false (omega (arith, h.total)) in
      let k : m.acked_count ≡ count_acked (take 63 bs) =
        h.acked ∙ count_acked-take-suc 63 bs ∙ (rw past (omega arith)) in
      rw (t, n, ← k)
]

next-entries :
    (b : Bool) (bs : List Bool) (outcomes : List Bool) (pos total i : ℕ)
    → length outcomes ≡ window
    → pos < window
    → total ≡ min window (length bs)
    → ((j : ℕ) → j < total → get_or outcomes ((pos + 63 - j) % window) false ≡ get_or bs j false)
    → i < min window (suc (length bs))
    → get_or (set outcomes pos b) (((pos + 1) % window + 63 - i) % window) false
      ≡ get_or (b ∷ bs) i false
next-entries b bs outcomes pos total zero size at count h lt =
    let e : ((pos + 1) % window + 63 - 0) % window ≡ pos = omega arith in
    rw (e, get_or-set_self outcomes pos b false (omega arith))
next-entries b bs outcomes pos total (suc j) size at count h lt =
    let e : ((pos + 1) % window + 63 - suc j) % window ≡ (pos + 63 - j) % window = omega arith in
    let ne : pos ≢ (pos + 63 - j) % window = λ same. omega arith in
    rw (e, get_or-set_ne outcomes pos ((pos + 63 - j) % window) b false ne) (h j (omega arith))

pub record_outcome-Holds :
    (b : Bool) (bs : List Bool) (m : LossMonitor)
    → Holds bs m
    → (m' : LossMonitor) × (record_outcome b m ≡ ok m') × Holds (b ∷ bs) m'
unfolding record_outcome
record_outcome-Holds b bs m h = (
  record {
    outcomes = set m.outcomes m.write_pos b;
    write_pos = (m.write_pos + 1) % window;
    total = min window (suc (length bs));
    acked_count = if b then count_acked (take 63 bs) + 1 else count_acked (take 63 bs);
  },
  rw (evict-ok bs m h),
  record {
    size = length-set m.outcomes m.write_pos b ∙ h.size;
    position = omega arith;
    total = refl;
    acked = next_count b;
    entries =
        λ i. next-entries b bs m.outcomes m.write_pos m.total i h.size h.position h.total h.entries;
  },
)
  where
    next_count :
        (c : Bool)
        → (if c then count_acked (take 63 bs) + 1 else count_acked (take 63 bs))
          ≡ count_acked (take window (c ∷ bs))
    next_count true = omega (arith, count_acked-cons true bs)
    next_count false = omega (arith, count_acked-cons false bs)

record_all-Holds : (bs : List Bool) → (m : LossMonitor) × (record_all bs ≡ ok m) × Holds bs m
unfolding record_all
record_all-Holds [] = (new, refl, new-Holds)
record_all-Holds (b ∷ bs) =
    let (m, e, h) = record_all-Holds bs in
    let (m', e', h') = record_outcome-Holds b bs m h in (m', rw (e, e'), h')

-- A monitor records every history of outcomes without a panic; it then counts the last 64 outcomes
-- (all of them, if there are fewer), and of these the acknowledged ones.
pub record_all-counts :
    (bs : List Bool)
    → (m : LossMonitor) × (record_all bs ≡ ok m)
      × (m.total ≡ min window (length bs))
      × (m.acked_count ≡ count_acked (take window bs))
record_all-counts bs = let (m, e, h) = record_all-Holds bs in (m, e, h.total, h.acked)
