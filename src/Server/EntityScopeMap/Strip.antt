-- ===== src/Server/EntityScopeMap/Strip.antt =====
-- A member is taken out of the sets of some keys, as in the loops of EntityScopeMap.
use naia.Base.Bools.{and-true, and-false, and-merge, let_some}
use naia.Base.{
  ℕ, ◌≡◌, sym, ap, ◌∙◌, inl, inr, Bool, true, false, not, ◌&&◌, Option, none, some, List, [], ◌∷◌,
  ◌==◌, Bool-cases, Option-cases, ℕ_discrete, ==_refl, ==_false,
}
use naia.Base.Assoc.{contains, remove_member, contains-remove_member}
use naia.Server.EntityScopeMap.{put, set_of}

abbrev pub is_some {ℓ} : {A : Type ℓ} → Option A → Bool
is_some none = false
is_some (some a) = true

-- What a set holds after a put of the set without a member.
put_removed :
    (k i : ℕ) (js : List ℕ) (f : ℕ → Option (List ℕ)) (j x : ℕ)
    → f k ≡ some js
    → contains x (set_of (put k (remove_member i js) f j))
      ≡ (not (i == x && k == j) && contains x (set_of (f j)))
put_removed k i js f j x at_k = elim (ℕ_discrete k j) [
  | yes same ↦
      let at_j : f j ≡ some js = ap f (sym same) ∙ at_k in
      rw (at_j, sym same, ==_refl k, contains-remove_member i x js)
        (ap (λ b. not b && contains x js) (and-true (i == x)))
  | no ne ↦
      rw (==_false k j ne) (ap (λ b. not b && contains x (set_of (f j))) (sym (and-false (i == x))))
]

-- A member is taken out of the sets of some keys, where they have one.
abbrev pub strip : ℕ → List ℕ → (ℕ → Option (List ℕ)) → ℕ → Option (List ℕ)
strip i [] f = f
strip i (k ∷ ks) f = strip i ks (let_some (f k) f (λ js. put k (remove_member i js) f))

strip-step :
    (k i : ℕ) (f : ℕ → Option (List ℕ)) (j x : ℕ)
    → contains x (set_of (let_some (f k) f (λ js. put k (remove_member i js) f) j))
      ≡ (not (i == x && k == j) && contains x (set_of (f j)))
unfolding contains
strip-step k i f j x = elim (Option-cases (f k)) [
  | inr (js, at_k) ↦ rw at_k (put_removed k i js f j x at_k)
  | inl missing ↦ elim (ℕ_discrete k j) [
    | yes same ↦
        let at_j : f j ≡ none = ap f (sym same) ∙ missing in
        rw (missing, at_j) (sym (and-false (not (i == x && k == j))))
    | no ne ↦
        rw (missing, ==_false k j ne)
          (ap (λ b. not b && contains x (set_of (f j))) (sym (and-false (i == x))))
  ]
]

pub strip-contains :
    (i : ℕ) (ks : List ℕ) (f : ℕ → Option (List ℕ)) (j x : ℕ)
    → contains x (set_of (strip i ks f j))
      ≡ (not (i == x && contains j ks) && contains x (set_of (f j)))
unfolding contains
strip-contains i [] f j x = ap (λ b. not b && contains x (set_of (f j))) (sym (and-false (i == x)))
strip-contains i (k ∷ ks) f j x =
    strip-contains i ks (let_some (f k) f (λ js. put k (remove_member i js) f)) j x
    ∙ ap (λ b. not (i == x && contains j ks) && b) (strip-step k i f j x)
    ∙ and-merge (i == x) (k == j) (contains j ks) (contains x (set_of (f j)))

-- A key keeps a set.
pub put-is_some :
    {V : Type 0} (k : ℕ) (v : V) (f : ℕ → Option V) (j : ℕ)
    → is_some (f j) ≡ true
    → is_some (put k v f j) ≡ true
put-is_some k v f j h = elim (Bool-cases (k == j)) [ inl e ↦ rw e | inr e ↦ rw e h ]
