-- ===== src/Tests/ServerRuns.antt =====
-- Runs of the server's records and of the handler of the authority.
use naia.Base.{ℕ, ◌≡◌, refl, sym, none, some, [], ◌∷◌, ℕ_discrete, ==_false, true}
use naia.Base.Outcome.{ok}
use naia.Base.Assoc.{lookup, insert_key, remove_key, insert_member}
use naia.World.Authority.{available}
use naia.Server.AuthHandler.{
  accepted, ServerAuthHandler, no_owner, client_owner, register_entity, register_channel,
  deregister_entity, deregister_channel,
}
use naia.Server.AuthHandler.Owners.{Tied, server_view}
use naia.Server.AuthHandler.Decides.{request, register, call, Follows}
use naia.Server.AuthHandler.Calls.{call-Follows}
use naia.Server.AuthHandler.Holders.{Reached, start, calls, Answers, Reached-Answers}
use naia.Server.EntityRecord.{
  server_entity, delegated, public, config, record_with, GlobalEntityRecord,
}
use naia.Server.GlobalWorldManager.{GlobalWorldManager, entity_disable_delegation}
use naia.Server.GlobalWorldManager.Invariant.{WellFormed}
use naia.Server.GlobalWorldManager.Claims.{claim-Follows, ClaimFollows}
use naia.Server.GlobalWorldManager.Operations.{world_call, disables, world_call-WellFormed}
use naia.Server.EntityScopeMap.{
  EntityScopeMap, new_scopes, get, insert_scope, remove_user, unlink_user,
}
use naia.Server.EntityScopeMap.{put}
use naia.Server.Room.{Room, Rooms, new_room}
use naia.Server.Room.Placed.{Placed}
use naia.Server.Room.Places.{Places}
use naia.Server.EntityScopeMap.Indexes.{Consistent}
use naia.Server.EntityScopeMap.Scopes.{
  inserts, removes_user, scope_call, set_scopes, new_scopes-Consistent, scope_call-refines,
}

abbrev one_registered : ServerAuthHandler
one_registered = record {
  host_auth_handler = record { auth_channels = (3, server_view available) ∷ [] };
  entity_auth_map = (3, no_owner) ∷ [];
  user_to_entity_map = [];
}

one_registered-Tied : Tied one_registered
unfolding lookup
one_registered-Tied e = elim (ℕ_discrete 3 e) [
  | yes same ↦ rw (sym same) refl
  | no ne ↦ rw (==_false 3 e ne) refl
]

call-Follows_example : Follows 3 (request (client_owner 7)) one_registered
call-Follows_example =
    call-Follows 3 (request (client_owner 7)) one_registered one_registered-Tied tt

one_registered-Reached : Reached one_registered
unfolding call register_entity register_channel lookup insert_key remove_key
one_registered-Reached = calls 3 register (accepted none) one_registered start refl

Reached-Answers_example : Answers 3 one_registered
Reached-Answers_example = Reached-Answers one_registered one_registered-Reached 3

abbrev delegated_record : GlobalEntityRecord
delegated_record = record_with server_entity (config delegated)

abbrev one_delegated : GlobalWorldManager
one_delegated = record {
  auth_handler = one_registered;
  entity_records = (3, delegated_record) ∷ [];
}

only_record :
    (e : ℕ) (r : GlobalEntityRecord)
    → lookup e one_delegated.entity_records ≡ some r
    → (e ≡ 3) × (r ≡ delegated_record)
unfolding lookup
only_record e r h = elim (ℕ_discrete 3 e) [
  | yes same ↦ let f = rw (sym same) at h in (sym same, cc)
  | no ne ↦ let f = rw (==_false 3 e ne) at h in cc
]

one_delegated-WellFormed : WellFormed one_delegated
unfolding lookup
one_delegated-WellFormed = record {
  fits = λ e r h. rw ((only_record e r h).1) tt;
  covered = λ e r h d. (no_owner, rw ((only_record e r h).0) refl);
  tied = one_registered-Tied;
}

claim-Follows_example : ClaimFollows 3 (request (client_owner 7)) one_delegated
claim-Follows_example =
    claim-Follows 3 (request (client_owner 7)) one_delegated refl one_delegated-WellFormed

abbrev one_public : GlobalWorldManager
one_public = record {
  auth_handler = record one_registered {
    host_auth_handler = record { auth_channels = [] };
    entity_auth_map = [];
  };
  entity_records = (3, record_with server_entity (config public)) ∷ [];
}

disables_one : world_call 3 disables one_delegated ≡ ok one_public
unfolding world_call entity_disable_delegation deregister_entity deregister_channel lookup
    insert_key remove_key
disables_one = refl

world_call-WellFormed_example : WellFormed one_public
world_call-WellFormed_example =
    world_call-WellFormed 3 disables one_delegated one_public one_delegated-WellFormed disables_one

abbrev one_scope : EntityScopeMap
one_scope = scope_call (inserts 1 2 true) new_scopes

one_scope-Consistent : Consistent one_scope
one_scope-Consistent = (scope_call-refines (inserts 1 2 true) new_scopes new_scopes-Consistent).0

scope_call-refines_example :
    Consistent (scope_call (removes_user 1) one_scope)
    × ((u e : ℕ)
        → get u e (scope_call (removes_user 1) one_scope)
          ≡ set_scopes (removes_user 1) (λ v d. get v d one_scope) u e)
scope_call-refines_example = scope_call-refines (removes_user 1) one_scope one_scope-Consistent

cleared : get 1 2 (scope_call (removes_user 1) one_scope) ≡ none
unfolding get scope_call insert_scope new_scopes remove_user unlink_user insert_member
cleared = refl

abbrev one_room : Rooms
one_room = record {
  rooms = put 5 (record new_room { entities = 2 ∷ [] }) (λ k. none);
  entity_room_map = put 2 (5 ∷ []) (λ e. none);
}
