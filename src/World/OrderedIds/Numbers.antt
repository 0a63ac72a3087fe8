-- ===== src/World/OrderedIds/Numbers.antt =====
-- Items under ascending indices, told by their numbers: which of them an OrderedIds holds.
use naia.Base.{
  ℕ, ◌+◌, ◌%◌, ◌≤◌, ◌<◌, ◌≡◌, refl, ap, ◌∙◌, ◌≢◌, inl, inr, Bool, true, false, ◌||◌, List, [], ◌∷◌,
  arith, ltb, ◌==◌, if◌then◌else◌, Bool-cases, ==_iff, dec_lt, lt→ltb, ltb-false, ℕ_discrete,
}
use naia.World.OrderedIds.{push_back}
use naia.World.OrderedIds.Order.{wrapped, Near, Above, IsSorted, insert_sorted, push_back-sorted}
use native.Mathlib.Nat.{le_refl}

-- Numbers that ascend, from `b` on.
abbrev pub Ascending : ℕ → List ℕ → Type 0
Ascending b [] = Unit
Ascending b (k ∷ ks) = (b ≤ k) × Ascending (k + 1) ks

abbrev pub Below : ℕ → List ℕ → Type 0
Below c [] = Unit
Below c (k ∷ ks) = (k < c) × Below c ks

abbrev pub has : ℕ → List ℕ → Bool
has m [] = false
has m (k ∷ ks) = m == k || has m ks

pub Below-le : (c d : ℕ) (ks : List ℕ) → c ≤ d → Below c ks → Below d ks
Below-le c d [] le h = tt
Below-le c d (k ∷ ks) le h = (omega arith, Below-le c d ks le h.1)

pub Ascending-le : (b c : ℕ) (ks : List ℕ) → b ≤ c → Ascending c ks → Ascending b ks
Ascending-le b c [] le h = tt
Ascending-le b c (k ∷ ks) le h = (omega arith, h.1)

Above-le : {P : Type 0} (n m : ℕ) (es : List (ℕ × P)) → n ≤ m → Above m es → Above n es
Above-le n m [] le h = tt
Above-le n m ((k, p) ∷ es) le h = (omega arith, Above-le n m es le h.1)

pub or_swap : (a b c : Bool) → (a || (b || c)) ≡ (b || (a || c))
or_swap true true c = refl
or_swap true false c = refl
or_swap false b c = refl

pub next_or_after : (j n : ℕ) (b : Bool) → (ltb j (n + 1) || b) ≡ (ltb j n || (j == n || b))
next_or_after j n b = ground arith

unfoldable pub insert_number : ℕ → List ℕ → List ℕ
insert_number m [] = m ∷ []
insert_number m (k ∷ ks) = let rest = insert_number m ks in if ltb k m then k ∷ rest else m ∷ k ∷ ks

pub has-insert_number : (k m : ℕ) (ks : List ℕ) → has k (insert_number m ks) ≡ (k == m || has k ks)
unfolding insert_number
has-insert_number k m [] = refl
has-insert_number k m (j ∷ ks) = elim (Bool-cases (ltb j m)) [
  | inl lt ↦ rw (lt, has-insert_number k m ks) (or_swap (k == j) (k == m) (has k ks))
  | inr ge ↦ rw ge
]

pub insert_number-Below :
    (c m : ℕ) (ks : List ℕ) → m < c → Below c ks → Below c (insert_number m ks)
unfolding insert_number
insert_number-Below c m [] lt h = (lt, tt)
insert_number-Below c m (k ∷ ks) lt h = elim (Bool-cases (ltb k m)) [
  | inl below ↦ rw below (h.0, insert_number-Below c m ks lt h.1)
  | inr above ↦ rw above (lt, h)
]

pub apart_of : (m k : ℕ) (ks : List ℕ) → has m (k ∷ ks) ≡ false → m ≢ k
apart_of m k ks fresh e = let t : (m == k) ≡ true = (==_iff m k).1 e in cc (rw t at fresh)

pub insert_number-Ascending :
    (b m : ℕ) (ks : List ℕ)
    → b ≤ m
    → Ascending b ks
    → has m ks ≡ false
    → Ascending b (insert_number m ks)
unfolding insert_number
insert_number-Ascending b m [] le h fresh = (le, tt)
insert_number-Ascending b m (k ∷ ks) le h fresh = elim (dec_lt k m) [
  | yes lt ↦
      let tail : has m ks ≡ false = ground (arith) in
      rw (lt→ltb k m lt) (h.0, insert_number-Ascending (k + 1) m ks (omega arith) h.1 tail)
  | no ge ↦
      let apart : m ≢ k = λ e. apart_of m k ks fresh e in
      rw (ltb-false k m (omega arith)) (le, (omega arith, h.1))
]

-- Items in the order in which they were sent; the index of each, before it is wrapped, is above those
-- of the items before.
pub record Numbered (P : Type 0) : Type 0 where
  pub value : ℕ → P
  pub index : ℕ → ℕ
  pub ascending : (j k : ℕ) → j < k → index j < index k

module _ {P : Type 0} (s : Numbered P) where
  abbrev pub entries : List ℕ → List (ℕ × P)
  entries [] = []
  entries (k ∷ ks) = (s.index k, s.value k) ∷ entries ks

  pub ltb-index : (j k : ℕ) → ltb (s.index j) (s.index k) ≡ ltb j k
  ltb-index j k = elim (dec_lt j k) [
    | yes lt ↦ rw (lt→ltb j k lt, lt→ltb _ _ (s.ascending j k lt))
    | no ge ↦ elim (ℕ_discrete j k) [
      | yes e ↦ rw (
        ltb-false j k (omega arith),
        ltb-false (s.index j) (s.index k) (rw e (le_refl (s.index k))),
      )
      | no ne ↦
          let up : s.index k < s.index j = s.ascending k j (omega arith) in
          rw (ltb-false j k (omega arith), ltb-false (s.index j) (s.index k) (omega arith))
    ]
  ]

  pub insert-entries :
      (m : ℕ) (ks : List ℕ)
      → insert_sorted (s.index m) (s.value m) (entries ks) ≡ entries (insert_number m ks)
  unfolding insert_sorted insert_number
  insert-entries m [] = refl
  insert-entries m (k ∷ ks) = elim (Bool-cases (ltb k m)) [
    | inl lt ↦ rw (ltb-index k m, lt) (ap (◌∷◌ (s.index k, s.value k)) (insert-entries m ks))
    | inr ge ↦ rw (ltb-index k m, ge)
  ]

  pub Ascending-Above :
      (b k : ℕ) (ks : List ℕ) → b ≤ k → Ascending (k + 1) ks → Above (s.index k) (entries ks)
  Ascending-Above b k [] le h = tt
  Ascending-Above b k (j ∷ ks) le h =
      let up : s.index k < s.index j = s.ascending k j (omega arith) in
      (
        omega arith,
        Above-le (s.index k) (s.index j) (entries ks) (omega arith)
            (Ascending-Above b j ks (omega arith) h.1),
      )

  pub entries-IsSorted : (b : ℕ) (ks : List ℕ) → Ascending b ks → IsSorted (entries ks)
  entries-IsSorted b [] h = tt
  entries-IsSorted b (k ∷ ks) h = (Ascending-Above b k ks h.0 h.1, entries-IsSorted (k + 1) ks h.1)

  -- An item is put among those with the numbers `ks`.
  pub push-number :
      (b m : ℕ) (ks : List ℕ)
      → Ascending b ks
      → Near (s.index m) (entries ks)
      → push_back (s.index m % 65536) (s.value m) (record { inner = wrapped (entries ks) })
        ≡ record { inner = wrapped (entries (insert_number m ks)) }
  push-number b m ks up close =
      push_back-sorted (s.index m) (s.value m) (entries ks) (entries-IsSorted b ks up) close
      ∙ ap (λ (es : List (ℕ × P)). record { inner = wrapped es }) (insert-entries m ks)
