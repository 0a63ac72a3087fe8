-- ===== src/Server/EntityScopeMap/RemoveEntity.antt =====
-- `remove_entity` of EntityScopeMap.
use naia.Base.Bools.{and_comm, or-true, not-and}
use naia.Base.{
  ℕ, ◌≡◌, refl, sym, ap, ◌∙◌, inl, inr, true, not, ◌&&◌, none, List, [], ◌∷◌, ◌==◌, if◌then◌else◌,
  Bool-cases, Option-cases, ℕ_discrete, ==_refl, ==_false, ==_iff,
}
use naia.Base.Assoc.{contains, remove_member}
use naia.Server.EntityScopeMap.{
  EntityScopeMap, put, drop, drop_pair, set_of, unlink_entity, remove_entity,
}
use naia.Server.EntityScopeMap.Strip.{is_some, strip, strip-contains, put-is_some}
use naia.Server.EntityScopeMap.Indexes.{Consistent, if-merge, none-of, some-of}

-- The loop is `strip` on one index and leaves the other alone.
unlink_entity-strip :
    (e : ℕ) (us : List ℕ) (m : EntityScopeMap)
    → ((unlink_entity e us m).entities_of_user ≡ strip e us m.entities_of_user)
      × ((unlink_entity e us m).users_of_entity ≡ m.users_of_entity)
unfolding unlink_entity
unlink_entity-strip e [] m = (refl, refl)
unlink_entity-strip e (u ∷ us) m = elim (Option-cases (m.entities_of_user u)) [
  | inl missing ↦ rw (unlink_entity, missing) (unlink_entity-strip e us m)
  | inr (entities, there) ↦
      rw (unlink_entity, there)
        (unlink_entity-strip e us (record m {
          entities_of_user = put u (remove_member e entities) m.entities_of_user;
          main_map = drop_pair u e m.main_map;
        }))
]

unlink_entity-main :
    (e : ℕ) (us : List ℕ) (m : EntityScopeMap)
    → ((u : ℕ) → contains u us ≡ true → is_some (m.entities_of_user u) ≡ true)
    → (u' e' : ℕ)
    → (unlink_entity e us m).main_map u' e'
      ≡ (if e == e' && contains u' us then none else m.main_map u' e')
unfolding unlink_entity contains
unlink_entity-main e [] m present u' e' = elim (Bool-cases (e == e')) [
  | inl same ↦ rw same
  | inr ne ↦ rw ne
]
unlink_entity-main e (u ∷ us) m present u' e' = elim (Option-cases (m.entities_of_user u)) [
  | inl missing ↦ let there = present u (rw (==_refl u)) in let f = rw missing at there in cc
  | inr (entities, there) ↦
      rw (unlink_entity, there)
        (unlink_entity-main e us
            (record m {
              entities_of_user = put u (remove_member e entities) m.entities_of_user;
              main_map = drop_pair u e m.main_map;
            })
            (λ j has.
              put-is_some u (remove_member e entities) m.entities_of_user j
                (present j (or-true (u == j) (contains j us) has)))
            u' e'
          ∙ ap
              (λ b.
                if e == e' && contains u' us then none else if b then none else m.main_map u' e')
              (and_comm (u == u') (e == e'))
          ∙ if-merge (e == e') (u == u') (contains u' us) (m.main_map u' e'))
]

-- After `remove_entity` nothing is set for the entity, and all else is as before.
pub remove_entity-get :
    (e : ℕ) (m : EntityScopeMap)
    → Consistent m
    → (u' e' : ℕ)
    → (remove_entity e m).main_map u' e' ≡ (if e == e' then none else m.main_map u' e')
unfolding remove_entity
remove_entity-get e m c u' e' =
    unlink_entity-main e (set_of (m.users_of_entity e)) m
      (λ u has. some-of (m.entities_of_user u) e (c.linked u e ∙ has)) u' e'
    ∙ elim (ℕ_discrete e e') [
      | no ne ↦ rw (==_false e e' ne)
      | yes same ↦ elim (Bool-cases (contains u' (set_of (m.users_of_entity e)))) [
        | inl has ↦ rw ((==_iff e e').1 same, has)
        | inr has_not ↦
            rw ((==_iff e e').1 same, has_not)
              (none-of (m.main_map u' e') (
                c.recorded u' e'
                ∙ c.linked u' e'
                ∙ ap (λ v. contains u' (set_of (m.users_of_entity v))) (sym same)
                ∙ has_not))
      ]
    ]

remove_entity-linked :
    (e : ℕ) (m : EntityScopeMap)
    → Consistent m
    → (u' e' : ℕ)
    → contains e' (set_of ((remove_entity e m).entities_of_user u'))
      ≡ contains u' (set_of ((remove_entity e m).users_of_entity e'))
unfolding remove_entity contains
remove_entity-linked e m c u' e' =
    let us = set_of (m.users_of_entity e) in
    let (stripped, same_users) = unlink_entity-strip e us m in
    ap (λ f. contains e' (set_of (f u'))) stripped
    ∙ strip-contains e us m.entities_of_user u' e'
    ∙ elim (ℕ_discrete e e') [
      | no ne ↦ rw (==_false e e' ne) (c.linked u' e')
      | yes same ↦ rw ((==_iff e e').1 same) (
          ap (λ b. not (contains u' us) && b)
            (c.linked u' e' ∙ ap (λ v. contains u' (set_of (m.users_of_entity v))) (sym same))
          ∙ not-and (contains u' us))
    ]
    ∙ sym (ap (λ f. contains u' (set_of (drop e f e'))) same_users)

pub remove_entity-Consistent :
    (e : ℕ) (m : EntityScopeMap) → Consistent m → Consistent (remove_entity e m)
unfolding remove_entity contains
remove_entity-Consistent e m c = record {
  linked = remove_entity-linked e m c;
  recorded = λ u' e'. ap is_some (remove_entity-get e m c u' e') ∙ elim (ℕ_discrete e e') [
    | yes same ↦
        rw ((==_iff e e').1 same)
          (sym (remove_entity-linked e m c u' e' ∙ rw ((==_iff e e').1 same) refl))
    | no ne ↦ rw (==_false e e' ne) (
        c.recorded u' e'
        ∙ c.linked u' e'
        ∙ sym (
            remove_entity-linked e m c u' e'
            ∙ ap (λ f. contains u' (set_of (drop e f e')))
                (unlink_entity-strip e (set_of (m.users_of_entity e)) m).1
            ∙ rw (==_false e e' ne) refl))
  ];
}
