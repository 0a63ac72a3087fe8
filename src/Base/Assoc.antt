-- ===== src/Base/Assoc.antt =====
-- Maps from numbers as association lists, and sets of numbers as lists: HashMap and HashSet as far as
-- the code uses them.
use Prim.Native.Nat.{ℕ}
use mathlib.Core.Path.{◌≡◌, refl, sym, ap, ◌∙◌}
use mathlib.Core.Logic.{◌≢◌, inl, inr}
use mathlib.Core.Bool.{Bool, false, ◌||◌, not, ◌&&◌}
use mathlib.Core.Option.{Option, none, some}
use mathlib.Core.List.{List, [], ◌∷◌}
use naia.Base.Tests.{◌==◌, if◌then◌else◌, ==_refl, ==_iff, ==_false, Bool-cases}
use native.Mathlib.Decide.{ℕ_discrete}
use native.Mathlib.Omega.{arith}

module _ {ℓ} {V : Type ℓ} where
  unfoldable pub lookup : ℕ → List (ℕ × V) → Option V
  lookup k [] = none
  lookup k ((n, v) ∷ es) = if n == k then some v else lookup k es

  unfoldable pub remove_key : ℕ → List (ℕ × V) → List (ℕ × V)
  remove_key k [] = []
  remove_key k ((n, v) ∷ es) = if n == k then remove_key k es else (n, v) ∷ remove_key k es

  unfoldable pub insert_key : ℕ → V → List (ℕ × V) → List (ℕ × V)
  unfolding remove_key
  insert_key k v es = (k, v) ∷ remove_key k es

  pub lookup-remove_key_self : (k : ℕ) (es : List (ℕ × V)) → lookup k (remove_key k es) ≡ none
  unfolding lookup remove_key
  lookup-remove_key_self k [] = refl
  lookup-remove_key_self k ((n, v) ∷ es) = elim (ℕ_discrete n k) [
    | yes e ↦ rw ((==_iff n k).1 e) (lookup-remove_key_self k es)
    | no e ↦ rw (==_false n k e, ==_false n k e) (lookup-remove_key_self k es)
  ]

  pub lookup-remove_key_ne :
      (k j : ℕ) (es : List (ℕ × V)) → k ≢ j → lookup j (remove_key k es) ≡ lookup j es
  unfolding lookup remove_key
  lookup-remove_key_ne k j [] h = refl
  lookup-remove_key_ne k j ((n, v) ∷ es) h = elim (ℕ_discrete n k) [
    | yes e ↦
        rw ((==_iff n k).1 e, ==_false n j (λ p. h (sym e ∙ p))) (lookup-remove_key_ne k j es h)
    | no e ↦ rw (==_false n k e, lookup-remove_key_ne k j es h)
  ]

  pub lookup-insert_key_self :
      (k : ℕ) (v : V) (es : List (ℕ × V)) → lookup k (insert_key k v es) ≡ some v
  unfolding lookup insert_key
  lookup-insert_key_self k v es = rw (==_refl k)

  pub lookup-insert_key_ne :
      (k j : ℕ) (v : V) (es : List (ℕ × V)) → k ≢ j → lookup j (insert_key k v es) ≡ lookup j es
  unfolding lookup insert_key
  lookup-insert_key_ne k j v es h = rw (==_false k j h) (lookup-remove_key_ne k j es h)

unfoldable pub contains : ℕ → List ℕ → Bool
contains k [] = false
contains k (j ∷ js) = j == k || contains k js

unfoldable pub remove_member : ℕ → List ℕ → List ℕ
remove_member k [] = []
remove_member k (j ∷ js) = let rest = remove_member k js in if j == k then rest else j ∷ rest

unfoldable pub insert_member : ℕ → List ℕ → List ℕ
unfolding contains
insert_member k js = if contains k js then js else k ∷ js

pub contains-remove_member :
    (k j : ℕ) (js : List ℕ) → contains j (remove_member k js) ≡ (not (k == j) && contains j js)
unfolding contains remove_member
contains-remove_member k j [] = ground arith
contains-remove_member k j (i ∷ js) = ground (arith, contains-remove_member k j js)

pub contains-insert_member :
    (k j : ℕ) (js : List ℕ) → contains j (insert_member k js) ≡ (k == j || contains j js)
unfolding insert_member contains
contains-insert_member k j js = elim (Bool-cases (contains k js)) [
  | inr missing ↦ rw missing
  | inl there ↦ elim (ℕ_discrete k j) [
    | yes same ↦ rw (there, (==_iff k j).1 same) (ap (λ i. contains i js) (sym same) ∙ there)
    | no ne ↦ rw (there, ==_false k j ne)
  ]
]
