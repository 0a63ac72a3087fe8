-- ===== src/Server/EntityScopeMap/Scopes.antt =====
-- EntityScopeMap keeps what the scopes of users were set to, whatever its indexes.
use naia.Base.Bools.{swap}
use naia.Base.{
  ℕ, ◌≡◌, refl, sym, ap, ◌∙◌, Bool, true, false, ◌&&◌, ◌||◌, Option, none, some, List, ◌==◌,
  if◌then◌else◌, ℕ_discrete, ==_false, ==_iff,
}
use naia.Base.Assoc.{contains, insert_member, contains-insert_member}
use naia.Server.EntityScopeMap.{
  EntityScopeMap, new_scopes, put, set_of, get, insert_scope, remove_user, remove_entity,
}
use naia.Server.EntityScopeMap.Strip.{is_some}
use naia.Server.EntityScopeMap.Indexes.{Consistent}
use naia.Server.EntityScopeMap.RemoveUser.{remove_user-get, remove_user-Consistent}
use naia.Server.EntityScopeMap.RemoveEntity.{remove_entity-get, remove_entity-Consistent}

-- The calls that change an EntityScopeMap.
pub data ScopeCall : Type 0 where
  inserts : ℕ → ℕ → Bool → ScopeCall
  removes_user removes_entity : ℕ → ScopeCall

unfoldable pub scope_call : ScopeCall → EntityScopeMap → EntityScopeMap
scope_call (inserts u e b) m = insert_scope u e b m
scope_call (removes_user u) m = remove_user u m
scope_call (removes_entity e) m = remove_entity e m

-- The abstract view: what each scope was set to, since the user and the entity were there.
abbrev pub Scopes : Type 0
Scopes = ℕ → ℕ → Option Bool

unfoldable pub set_scopes : ScopeCall → Scopes → Scopes
set_scopes (inserts user entity b) s u e = if user == u && entity == e then some b else s u e
set_scopes (removes_user user) s u e = if user == u then none else s u e
set_scopes (removes_entity entity) s u e = if entity == e then none else s u e

pub new_scopes-Consistent : Consistent new_scopes
unfolding new_scopes contains
new_scopes-Consistent = record { linked = λ u e. refl; recorded = λ u e. refl }

pub put-contains :
    (k i : ℕ) (f : ℕ → Option (List ℕ)) (j x : ℕ)
    → contains x (set_of (put k (insert_member i (set_of (f k))) f j))
      ≡ ((k == j && i == x) || contains x (set_of (f j)))
put-contains k i f j x = elim (ℕ_discrete k j) [
  | no ne ↦ rw (==_false k j ne)
  | yes same ↦ rw ((==_iff k j).1 same) (
      contains-insert_member i x (set_of (f k))
      ∙ ap (λ v. i == x || contains x (set_of (f v))) same)
]

put-some :
    (p q b : Bool) (o : Option Bool) {x : Bool}
    → is_some o ≡ x
    → is_some (if p && q then some b else o) ≡ ((p && q) || x)
put-some true true b o h = refl
put-some true false b o h = h
put-some false q b o h = h

insert_scope-Consistent :
    (u e : ℕ) (b : Bool) (m : EntityScopeMap) → Consistent m → Consistent (insert_scope u e b m)
unfolding insert_scope
insert_scope-Consistent u e b m c = record {
  linked = λ u' e'.
      put-contains u e m.entities_of_user u' e'
      ∙ swap (u == u') (e == e') (c.linked u' e')
      ∙ sym (put-contains e u m.users_of_entity e' u');
  recorded = λ u' e'.
      put-some (u == u') (e == e') b (m.main_map u' e') (c.recorded u' e')
      ∙ sym (put-contains u e m.entities_of_user u' e');
}

-- From indexes that agree, EntityScopeMap does what the abstract view does on every call, and the
-- indexes agree again: a removal clears the scopes of the user or the entity, all of them and no
-- others.
pub scope_call-refines :
    (c : ScopeCall) (m : EntityScopeMap)
    → Consistent m
    → Consistent (scope_call c m)
      × ((u e : ℕ) → get u e (scope_call c m) ≡ set_scopes c (λ v d. get v d m) u e)
unfolding scope_call set_scopes get
scope_call-refines (inserts user entity b) m c =
    (insert_scope-Consistent user entity b m c, λ u e. unfold insert_scope in refl)
scope_call-refines (removes_user user) m c =
    (remove_user-Consistent user m c, remove_user-get user m c)
scope_call-refines (removes_entity entity) m c =
    (remove_entity-Consistent entity m c, remove_entity-get entity m c)
