-- ===== src/World/OrderedIds/Order.antt =====
-- OrderedIds against sorted lists of numbers that do not wrap.
use naia.Base.{
  ℕ, ◌+◌, ◌%◌, ◌≤◌, ◌<◌, ◌≡◌, refl, ap, inl, inr, true, false, none, some, List, [], ◌∷◌, arith,
  ltb, ◌==◌, if◌then◌else◌, ltb-false, lt→ltb, dec_lt, Bool-cases, ℕ_discrete, ==_iff, ==_false,
}
use naia.World.OrderedIds.{
  insert_behind, push_loop, push_back, pop_loop, pop_front_until, or_front,
  pop_front_until_and_excluding, pop_front_until_and_including,
}
use naia.Sequence.{sequence_less_than}
use naia.Sequence.Order.{greater-unwrapped}

-- The items under the wrapped forms of their numbers.
abbrev pub wrapped : {P : Type 0} → List (ℕ × P) → List (ℕ × P)
wrapped [] = []
wrapped ((n, p) ∷ es) = (n % 65536, p) ∷ wrapped es

-- Every number of the list is less than half the range from `n`.
abbrev pub Near : {P : Type 0} → ℕ → List (ℕ × P) → Type 0
Near n [] = Unit
Near n ((m, p) ∷ es) = (n < m + 32768) × (m < n + 32768) × Near n es

abbrev pub Above : {P : Type 0} → ℕ → List (ℕ × P) → Type 0
Above n [] = Unit
Above n ((m, p) ∷ es) = (n ≤ m) × Above n es

-- The numbers ascend.
abbrev pub IsSorted : {P : Type 0} → List (ℕ × P) → Type 0
IsSorted [] = Unit
IsSorted ((n, p) ∷ es) = Above n es × IsSorted es

-- Insertion into a sorted list, from the front.
unfoldable pub insert_sorted : {P : Type 0} → ℕ → P → List (ℕ × P) → List (ℕ × P)
insert_sorted n p [] = (n, p) ∷ []
insert_sorted n p ((m, q) ∷ es) =
    let rest = insert_sorted n p es in if ltb m n then (m, q) ∷ rest else (n, p) ∷ (m, q) ∷ es

pub less-unwrapped :
    (m n : ℕ) → n < m + 32768 → m < n + 32768 → sequence_less_than (m % 65536) (n % 65536) ≡ ltb m n
unfolding sequence_less_than
less-unwrapped m n a b = greater-unwrapped n m a b

Above-trans : {P : Type 0} (n m : ℕ) (es : List (ℕ × P)) → n ≤ m → Above m es → Above n es
Above-trans n m [] le h = tt
Above-trans n m ((k, q) ∷ es) le h = (omega arith, Above-trans n m es le h.1)

-- Where no number is smaller, the loop from the back comes to the front.
insert_behind-Above :
    {P : Type 0} (n : ℕ) (p : P) (es : List (ℕ × P))
    → Near n es
    → Above n es
    → insert_behind (n % 65536, p) (wrapped es) ≡ none
unfolding insert_behind
insert_behind-Above n p [] near h = refl
insert_behind-Above n p ((m, q) ∷ es) near h =
    let e = insert_behind-Above n p es near.2 h.1 in
    let t : ltb m n ≡ false = ltb-false m n h.0 in rw (e, less-unwrapped m n near.0 near.1, t)

insert_sorted-Above :
    {P : Type 0} (n : ℕ) (p : P) (es : List (ℕ × P))
    → Above n es
    → insert_sorted n p es ≡ (n, p) ∷ es
unfolding insert_sorted
insert_sorted-Above n p [] h = refl
insert_sorted-Above n p ((m, q) ∷ es) h = rw (ltb-false m n h.0)

insert_behind-lt :
    {P : Type 0} (n m : ℕ) (p q : P) (es : List (ℕ × P))
    → m < n
    → n < m + 32768
    → Near n es
    → IsSorted es
    → insert_behind (n % 65536, p) ((m % 65536, q) ∷ wrapped es)
      ≡ some (wrapped (insert_sorted n p ((m, q) ∷ es)))
unfolding insert_behind insert_sorted
insert_behind-lt n m p q [] lt close near sorted =
    let t : ltb m n ≡ true = lt→ltb m n lt in rw (less-unwrapped m n close (omega arith), t)
insert_behind-lt n m p q ((k, r) ∷ es) lt close near sorted =
    let t : ltb m n ≡ true = lt→ltb m n lt in
    elim (dec_lt k n) [
      | yes below ↦ rw (t, insert_behind-lt n k p r es below near.0 near.2 sorted.1)
      | no above ↦
          let up : Above n ((k, r) ∷ es) =
            (omega arith, Above-trans n k es (omega arith) sorted.0) in
          rw (
            insert_behind-Above n p ((k, r) ∷ es) near up,
            less-unwrapped m n close (omega arith),
            t,
            ltb-false k n (omega arith),
          )
    ]

-- `push_back` of a number into numbers that ascend, all less than half the range from it, has the
-- result of an insertion in order from the front.
pub push_back-sorted :
    {P : Type 0} (n : ℕ) (p : P) (es : List (ℕ × P))
    → IsSorted es
    → Near n es
    → push_back (n % 65536) p (record { inner = wrapped es })
      ≡ record { inner = wrapped (insert_sorted n p es) }
unfolding push_back push_loop insert_sorted
push_back-sorted n p [] sorted near = unfold insert_behind in refl
push_back-sorted n p ((m, q) ∷ es) sorted near = elim (dec_lt m n) [
  | yes lt ↦
      let e = insert_behind-lt n m p q es lt near.0 near.2 sorted.1 in
      ap (λ o. record { inner = or_front (n % 65536, p) (wrapped ((m, q) ∷ es)) o }) e
  | no ge ↦
      let up : Above n ((m, q) ∷ es) = (omega arith, Above-trans n m es (omega arith) sorted.0) in
      let e = insert_behind-Above n p ((m, q) ∷ es) near up in
      rw (ltb-false m n (omega arith))
        (ap (λ o. record { inner = or_front (n % 65536, p) (wrapped ((m, q) ∷ es)) o }) e)
]

pub Above-insert_sorted :
    {P : Type 0} (b n : ℕ) (p : P) (es : List (ℕ × P))
    → b ≤ n
    → Above b es
    → Above b (insert_sorted n p es)
unfolding insert_sorted
Above-insert_sorted b n p [] le h = (le, tt)
Above-insert_sorted b n p ((m, q) ∷ es) le h = elim (Bool-cases (ltb m n)) [
  | inl lt ↦ rw lt (h.0, Above-insert_sorted b n p es le h.1)
  | inr ge ↦ rw ge (le, h)
]

pub insert_sorted-IsSorted :
    {P : Type 0} (n : ℕ) (p : P) (es : List (ℕ × P)) → IsSorted es → IsSorted (insert_sorted n p es)
unfolding insert_sorted
insert_sorted-IsSorted n p [] h = (tt, tt)
insert_sorted-IsSorted n p ((m, q) ∷ es) h = elim (dec_lt m n) [
  | yes lt ↦
      rw (lt→ltb m n lt)
        (Above-insert_sorted m n p es (omega arith) h.0, insert_sorted-IsSorted n p es h.1)
  | no ge ↦
      rw (ltb-false m n (omega arith)) ((omega arith, Above-trans n m es (omega arith) h.0), h)
]

-- The items from the number `n` on.
unfoldable pub from_number : {P : Type 0} → ℕ → List (ℕ × P) → List (ℕ × P)
from_number n [] = []
from_number n ((m, q) ∷ es) = let rest = from_number n es in if ltb m n then rest else (m, q) ∷ es

from_number-Above :
    {P : Type 0} (n m : ℕ) (es : List (ℕ × P)) → n ≤ m → Above m es → from_number n es ≡ es
unfolding from_number
from_number-Above n m [] le h = refl
from_number-Above n m ((k, q) ∷ es) le h = rw (ltb-false k n (omega arith))

pop_loops :
    {P : Type 0} (n : ℕ) (es : List (ℕ × P))
    → Near n es
    → IsSorted es
    → (pop_loop (n % 65536) false (wrapped es) ≡ wrapped (from_number n es))
      × (pop_loop (n % 65536) true (wrapped es) ≡ wrapped (from_number (n + 1) es))
unfolding pop_loop from_number
pop_loops n [] near sorted = (refl, refl)
pop_loops n ((m, q) ∷ es) near sorted =
    let (a, b) = pop_loops n es near.2 sorted.1 in
    let less = less-unwrapped m n near.0 near.1 in
    elim (dec_lt m n) [
      | yes lt ↦
          let t : ltb m n ≡ true = lt→ltb m n lt in
          let t' : ltb m (n + 1) ≡ true = lt→ltb m (n + 1) (omega arith) in rw (less, t, t') (a, b)
      | no ge ↦
          let t : ltb m n ≡ false = ltb-false m n (omega arith) in
          elim (ℕ_discrete m n) [
            | yes e ↦
                let t' : ltb m (n + 1) ≡ true = lt→ltb m (n + 1) (omega arith) in
                let same : (m % 65536 == n % 65536) ≡ true = (==_iff _ _).1 (omega arith) in
                rw (less, t, t', same) (refl, b)
            | no ne ↦
                let t' : ltb m (n + 1) ≡ false = ltb-false m (n + 1) (omega arith) in
                let other : (m % 65536 == n % 65536) ≡ false = ==_false _ _ (λ e. omega arith) in
                rw (less, t, t', other) (refl, refl)
          ]
    ]

-- `pop_front_until_and_excluding` and `pop_front_until_and_including` of a number, where the numbers
-- ascend and are less than half the range from it, leave the items from this number on and from the
-- next one on.
pub pop_front_until-from_number :
    {P : Type 0} (n : ℕ) (es : List (ℕ × P))
    → IsSorted es
    → Near n es
    → (pop_front_until_and_excluding (n % 65536) (record { inner = wrapped es })
        ≡ record { inner = wrapped (from_number n es) })
      × (pop_front_until_and_including (n % 65536) (record { inner = wrapped es })
          ≡ record { inner = wrapped (from_number (n + 1) es) })
unfolding pop_front_until_and_excluding pop_front_until_and_including pop_front_until
pop_front_until-from_number n es sorted near =
    let (a, b) = pop_loops n es near sorted in (rw a, rw b)
