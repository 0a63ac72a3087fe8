-- ===== src/KeyGenerator/Unique.antt =====
-- A KeyGenerator does not give out a key that is in use.
use naia.Base.{
  ℕ, ◌+◌, ◌-◌, ◌≤◌, ◌≡◌, refl, ap, ◌∙◌, inl, inr, false, List, [], ◌∷◌, ◌++◌, arith, ltb, ◌==◌,
  if◌then◌else◌, Bool-cases, ==_refl,
}
use mathlib.Core.Path.{subst}
use naia.Base.Outcome.{ok, ok-injective}
use naia.Base.Assoc.{contains}
use naia.KeyGenerator.{KeyGenerator, new_generator, recycle_due, take_key, generate, recycle_key}

-- How often a key is in a list.
unfoldable occurs : ℕ → List ℕ → ℕ
occurs k [] = 0
occurs k (j ∷ js) = (if j == k then 1 else 0) + occurs k js

keys_of : List (ℕ × ℕ) → List ℕ
keys_of [] = []
keys_of ((key, instant) ∷ keys) = key ∷ keys_of keys

occurs-append : (k : ℕ) (js is : List ℕ) → occurs k (js ++ is) ≡ occurs k js + occurs k is
unfolding occurs
occurs-append k [] is = omega arith
occurs-append k (j ∷ js) is = let h = occurs-append k js is in omega arith

keys_of-append :
    (k : ℕ) (a b : List (ℕ × ℕ))
    → occurs k (keys_of (a ++ b)) ≡ occurs k (keys_of a) + occurs k (keys_of b)
unfolding occurs keys_of
keys_of-append k [] b = omega arith
keys_of-append k ((key, instant) ∷ a) b = let h = keys_of-append k a b in omega arith

occurs-contains : (k : ℕ) (js : List ℕ) → occurs k js ≡ 0 → contains k js ≡ false
unfolding occurs contains
occurs-contains k [] h = refl
occurs-contains k (j ∷ js) h = elim (Bool-cases (j == k)) [
  | inl same ↦ let f = rw same at h in absurd (omega arith)
  | inr ne ↦ rw ne (occurs-contains k js (let rest = rw ne at h in omega arith))
]

-- No key is lost or doubled as keys become due.
recycle_due-occurs :
    (k now timeout : ℕ) (keys : List (ℕ × ℕ)) (recycled : List ℕ)
    → occurs k (keys_of (recycle_due now timeout keys recycled).0)
        + occurs k (recycle_due now timeout keys recycled).1
      ≡ occurs k (keys_of keys) + occurs k recycled
unfolding recycle_due occurs keys_of
recycle_due-occurs k now timeout [] recycled = refl
recycle_due-occurs k now timeout ((key, instant) ∷ keys) recycled =
    elim (Bool-cases (ltb (now - instant) timeout)) [
      | inl early ↦ rw early refl
      | inr due ↦
          let rest = recycle_due-occurs k now timeout keys (recycled ++ (key ∷ [])) in
          let more = occurs-append k recycled (key ∷ []) in rw due (omega arith)
    ]

-- Each key below the next new one is in one place, once: it is in use, or will be, or may be, given
-- out again; and no other key is anywhere.
abbrev Accounts : List ℕ → KeyGenerator → Type 0
Accounts used g =
    (k : ℕ)
    → occurs k used + (occurs k (keys_of g.recycling_keys) + occurs k g.recycled_keys)
      ≡ (if ltb k g.next_new_key then 1 else 0)

new_key-count :
    (k next : ℕ)
    → (if next == k then 1 else 0) + (if ltb k next then 1 else 0)
      ≡ (if ltb k (next + 1) then 1 else 0)
new_key-count k next = ground arith

count-bound : (k next : ℕ) → (if ltb k next then 1 else 0) ≤ 1
count-bound k next = ground arith

take_key-Accounts :
    (used recycled : List ℕ) (g g' : KeyGenerator) (key : ℕ)
    → g.recycled_keys ≡ recycled
    → Accounts used g
    → take_key recycled g ≡ ok (key, g')
    → Accounts (key ∷ used) g'
unfolding take_key occurs
take_key-Accounts used (j ∷ js) g g' key is accounts h =
    let pair = ok-injective h in
    subst (λ (p : ℕ × KeyGenerator). Accounts (p.0 ∷ used) p.1) pair
      (λ k. let before = accounts k in let listed = ap (occurs k) is in omega arith)
take_key-Accounts used [] g g' key is accounts h = elim (Bool-cases (ltb g.next_new_key 65535)) [
  | inr full ↦ let f = rw full at h in cc
  | inl free ↦
      subst (λ (p : ℕ × KeyGenerator). Accounts (p.0 ∷ used) p.1) (ok-injective (rw free at h))
        (λ k. let before = accounts k in let count = new_key-count k g.next_new_key in omega arith)
]

generate-Accounts :
    (used : List ℕ) (now key : ℕ) (g g' : KeyGenerator)
    → Accounts used g
    → generate now g ≡ ok (key, g')
    → Accounts (key ∷ used) g'
unfolding generate
generate-Accounts used now key g g' accounts h =
    let due = recycle_due now g.recycle_timeout g.recycling_keys g.recycled_keys in
    take_key-Accounts used due.1 (record g { recycling_keys = due.0; recycled_keys = due.1 }) g' key
      refl
      (λ k.
        let same = recycle_due-occurs k now g.recycle_timeout g.recycling_keys g.recycled_keys in
        ap (λ n. occurs k used + n) same ∙ accounts k)
      h

-- The generators after keys were given out and recycled, with the keys that are in use: a key is
-- recycled while it is in use.
pub data Used : List ℕ → KeyGenerator → Type 0 where
  starts : (timeout : ℕ) → Used [] (new_generator timeout)
  generates :
      {used : List ℕ} {g : KeyGenerator} (now key : ℕ) (g' : KeyGenerator)
      → Used used g
      → generate now g ≡ ok (key, g')
      → Used (key ∷ used) g'
  recycles :
      (now key : ℕ) (before after : List ℕ) (g : KeyGenerator)
      → Used (before ++ (key ∷ after)) g
      → Used (before ++ after) (recycle_key now key g)

Used-Accounts : {used : List ℕ} {g : KeyGenerator} → Used used g → Accounts used g
unfolding new_generator recycle_key occurs keys_of
Used-Accounts (starts timeout) = λ k. ground arith
Used-Accounts (generates {used} {g} now key g' run h) =
    generate-Accounts used now key g g' (Used-Accounts run) h
Used-Accounts (recycles now key before after g run) = λ k.
    let all = Used-Accounts run k in
    let with_key = occurs-append k before (key ∷ after) in
    let without_key = occurs-append k before after in
    let queued = keys_of-append k g.recycling_keys ((key, now) ∷ []) in omega arith

-- After any keys were given out and recycled, each recycled while it was in use, a key that is given
-- out is not in use.
pub generate_unique :
    (used : List ℕ) (g g' : KeyGenerator) (now key : ℕ)
    → Used used g
    → generate now g ≡ ok (key, g')
    → contains key used ≡ false
unfolding occurs
generate_unique used g g' now key run h =
    let after = generate-Accounts used now key g g' (Used-Accounts run) h key in
    let at_most = count-bound key g'.next_new_key in
    occurs-contains key used (let here = rw (==_refl key) at after in omega arith)
