-- ===== src/Server/EntityScopeMap/RemoveUser.antt =====
-- `remove_user` of EntityScopeMap.
use naia.Base.Bools.{or-true, not-and}
use naia.Base.{
  ℕ, ◌≡◌, refl, sym, ap, ◌∙◌, inl, inr, true, not, ◌&&◌, none, List, [], ◌∷◌, ◌==◌, if◌then◌else◌,
  Bool-cases, Option-cases, ℕ_discrete, ==_refl, ==_false, ==_iff,
}
use naia.Base.Assoc.{contains, remove_member}
use naia.Server.EntityScopeMap.{
  EntityScopeMap, put, drop, drop_pair, set_of, unlink_user, remove_user,
}
use naia.Server.EntityScopeMap.Strip.{is_some, strip, strip-contains, put-is_some}
use naia.Server.EntityScopeMap.Indexes.{Consistent, if-merge, none-of, some-of}

-- The loop is `strip` on one index and leave the other alone.
unlink_user-strip :
    (u : ℕ) (es : List ℕ) (m : EntityScopeMap)
    → ((unlink_user u es m).users_of_entity ≡ strip u es m.users_of_entity)
      × ((unlink_user u es m).entities_of_user ≡ m.entities_of_user)
unfolding unlink_user
unlink_user-strip u [] m = (refl, refl)
unlink_user-strip u (e ∷ es) m = elim (Option-cases (m.users_of_entity e)) [
  | inl missing ↦ rw (unlink_user, missing) (unlink_user-strip u es m)
  | inr (users, there) ↦
      rw (unlink_user, there)
        (unlink_user-strip u es (record m {
          users_of_entity = put e (remove_member u users) m.users_of_entity;
          main_map = drop_pair u e m.main_map;
        }))
]

unlink_user-main :
    (u : ℕ) (es : List ℕ) (m : EntityScopeMap)
    → ((e : ℕ) → contains e es ≡ true → is_some (m.users_of_entity e) ≡ true)
    → (u' e' : ℕ)
    → (unlink_user u es m).main_map u' e'
      ≡ (if u == u' && contains e' es then none else m.main_map u' e')
unfolding unlink_user contains
unlink_user-main u [] m present u' e' = elim (Bool-cases (u == u')) [
  | inl same ↦ rw same
  | inr ne ↦ rw ne
]
unlink_user-main u (e ∷ es) m present u' e' = elim (Option-cases (m.users_of_entity e)) [
  | inl missing ↦ let there = present e (rw (==_refl e)) in let f = rw missing at there in cc
  | inr (users, there) ↦
      rw (unlink_user, there)
        (unlink_user-main u es
            (record m {
              users_of_entity = put e (remove_member u users) m.users_of_entity;
              main_map = drop_pair u e m.main_map;
            })
            (λ j has.
              put-is_some e (remove_member u users) m.users_of_entity j
                (present j (or-true (e == j) (contains j es) has)))
            u' e'
          ∙ if-merge (u == u') (e == e') (contains e' es) (m.main_map u' e'))
]

-- After `remove_user` nothing is set for the user, and all else is as before.
pub remove_user-get :
    (u : ℕ) (m : EntityScopeMap)
    → Consistent m
    → (u' e' : ℕ) → (remove_user u m).main_map u' e' ≡ (if u == u' then none else m.main_map u' e')
unfolding remove_user
remove_user-get u m c u' e' =
    unlink_user-main u (set_of (m.entities_of_user u)) m
      (λ e has. some-of (m.users_of_entity e) u (sym (c.linked u e) ∙ has)) u' e'
    ∙ elim (ℕ_discrete u u') [
      | no ne ↦ rw (==_false u u' ne)
      | yes same ↦ elim (Bool-cases (contains e' (set_of (m.entities_of_user u)))) [
        | inl has ↦ rw ((==_iff u u').1 same, has)
        | inr has_not ↦
            rw ((==_iff u u').1 same, has_not)
              (none-of (m.main_map u' e') (
                c.recorded u' e'
                ∙ ap (λ v. contains e' (set_of (m.entities_of_user v))) (sym same)
                ∙ has_not))
      ]
    ]

remove_user-linked :
    (u : ℕ) (m : EntityScopeMap)
    → Consistent m
    → (u' e' : ℕ)
    → contains e' (set_of ((remove_user u m).entities_of_user u'))
      ≡ contains u' (set_of ((remove_user u m).users_of_entity e'))
unfolding remove_user contains
remove_user-linked u m c u' e' =
    let es = set_of (m.entities_of_user u) in
    let (stripped, same_entities) = unlink_user-strip u es m in
    ap (λ f. contains e' (set_of (drop u f u'))) same_entities
    ∙ elim (ℕ_discrete u u') [
      | no ne ↦ rw (==_false u u' ne) (c.linked u' e')
      | yes same ↦ rw ((==_iff u u').1 same) (
          sym (not-and (contains e' es))
          ∙ ap (λ b. not (contains e' es) && b)
              (c.linked u e' ∙ ap (λ v. contains v (set_of (m.users_of_entity e'))) same))
    ]
    ∙ sym (strip-contains u es m.users_of_entity e' u')
    ∙ ap (λ f. contains u' (set_of (f e'))) (sym stripped)

pub remove_user-Consistent :
    (u : ℕ) (m : EntityScopeMap) → Consistent m → Consistent (remove_user u m)
unfolding remove_user contains
remove_user-Consistent u m c = record {
  linked = remove_user-linked u m c;
  recorded = λ u' e'. ap is_some (remove_user-get u m c u' e') ∙ elim (ℕ_discrete u u') [
    | yes same ↦ rw ((==_iff u u').1 same) refl
    | no ne ↦ rw (==_false u u' ne) (
        c.recorded u' e'
        ∙ ap (λ f. contains e' (set_of (f u')))
            (sym ((unlink_user-strip u (set_of (m.entities_of_user u)) m).1)))
  ];
}
