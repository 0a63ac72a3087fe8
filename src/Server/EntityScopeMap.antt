-- ===== src/Server/EntityScopeMap.antt =====
-- server/src/world/entity_scope_map.rs: EntityScopeMap, what a user's scope was set to for an entity,
-- with an index by user and one by entity. Its maps are functions, and its sets lists.
pub mod Strip
pub mod Indexes
pub mod RemoveUser
pub mod RemoveEntity
pub mod Scopes
use naia.Base.Bools.{let_some}
use naia.Base.{ℕ, Bool, true, false, ◌&&◌, Option, none, some, List, [], ◌∷◌, ◌==◌, if◌then◌else◌}
use naia.Base.Assoc.{insert_member, remove_member}

pub record EntityScopeMap : Type 0 where
  pub entities_of_user : ℕ → Option (List ℕ)
  pub users_of_entity : ℕ → Option (List ℕ)
  pub main_map : ℕ → ℕ → Option Bool

unfoldable pub new_scopes : EntityScopeMap
new_scopes = record {
  entities_of_user = λ user. none;
  users_of_entity = λ entity. none;
  main_map = λ user entity. none;
}

abbrev pub put {ℓ} : {V : Type ℓ} → ℕ → V → (ℕ → Option V) → ℕ → Option V
put k v m j = if k == j then some v else m j

abbrev pub drop {ℓ} : {V : Type ℓ} → ℕ → (ℕ → Option V) → ℕ → Option V
drop k m j = if k == j then none else m j

abbrev pub put_pair : ℕ → ℕ → Bool → (ℕ → ℕ → Option Bool) → ℕ → ℕ → Option Bool
put_pair user entity b m u e = if user == u && entity == e then some b else m u e

abbrev pub drop_pair : ℕ → ℕ → (ℕ → ℕ → Option Bool) → ℕ → ℕ → Option Bool
drop_pair user entity m u e = if user == u && entity == e then none else m u e

abbrev pub set_of : Option (List ℕ) → List ℕ
set_of o = let_some o [] (λ js. js)

unfoldable pub get : ℕ → ℕ → EntityScopeMap → Option Bool
get user entity m = m.main_map user entity

unfoldable pub insert_scope : ℕ → ℕ → Bool → EntityScopeMap → EntityScopeMap
insert_scope user entity in_scope m = record {
  entities_of_user =
      put user (insert_member entity (set_of (m.entities_of_user user))) m.entities_of_user;
  users_of_entity =
      put entity (insert_member user (set_of (m.users_of_entity entity))) m.users_of_entity;
  main_map = put_pair user entity in_scope m.main_map;
}

-- The loop of `remove_user` over the entities of the user.
unfoldable pub unlink_user : ℕ → List ℕ → EntityScopeMap → EntityScopeMap
unlink_user user [] m = m
unlink_user user (entity ∷ entities) m = unlink_user user entities (
    let_some (m.users_of_entity entity) m (λ users. record m {
      users_of_entity = put entity (remove_member user users) m.users_of_entity;
      main_map = drop_pair user entity m.main_map;
    }))

unfoldable pub remove_user : ℕ → EntityScopeMap → EntityScopeMap
remove_user user m =
    let unlinked = unlink_user user (set_of (m.entities_of_user user)) m in
    record unlinked { entities_of_user = drop user unlinked.entities_of_user }

-- The loop of `remove_entity` over the users of the entity.
unfoldable pub unlink_entity : ℕ → List ℕ → EntityScopeMap → EntityScopeMap
unlink_entity entity [] m = m
unlink_entity entity (user ∷ users) m = unlink_entity entity users (
    let_some (m.entities_of_user user) m (λ entities. record m {
      entities_of_user = put user (remove_member entity entities) m.entities_of_user;
      main_map = drop_pair user entity m.main_map;
    }))

unfoldable pub remove_entity : ℕ → EntityScopeMap → EntityScopeMap
remove_entity entity m =
    let unlinked = unlink_entity entity (set_of (m.users_of_entity entity)) m in
    record unlinked { users_of_entity = drop entity unlinked.users_of_entity }
