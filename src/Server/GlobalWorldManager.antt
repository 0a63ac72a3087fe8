-- ===== src/Server/GlobalWorldManager.antt =====
-- server/src/world/global_world_manager.rs: GlobalWorldManager, the server's records of its entities,
-- with the handler of the authority over them. The mutation channels of the components,
-- GlobalDiffHandler, are left out.
pub mod Invariant
pub mod Claims
pub mod Records
pub mod Delegation
pub mod Operations
use naia.Base.Bools.{let_some}
use naia.Base.{ℕ, Bool, true, false, not, Option, none, some, List, [], ◌==◌, if◌then◌else◌}
use naia.Base.Outcome.{Outcome, ok, panic, ◌>>=◌}
use naia.Base.Assoc.{lookup, insert_key, remove_key, contains, insert_member, remove_member}
use naia.World.Authority.{EntityAuthStatus, HostEntityAuthStatus}
use naia.Server.AuthHandler
use naia.Server.AuthHandler.{
  Reply, refused, not_delegated, AuthOwner, ServerAuthHandler, new_auth_handler, get_channel,
}
use naia.Server.EntityRecord.{
  EntityOwner, server_entity, local_entity, client_entity, client_waiting, client_public, is_client,
  Publicity, private, public, delegated, is_delegated, is_public_config, ScopeExit,
  ReplicationConfig, GlobalEntityRecord, new_record, new_static,
}

pub record GlobalWorldManager : Type 0 where
  pub auth_handler : ServerAuthHandler
  pub entity_records : List (ℕ × GlobalEntityRecord)

abbrev pub new_world : GlobalWorldManager
new_world = record { auth_handler = new_auth_handler; entity_records = [] }

abbrev pub record_of : ℕ → GlobalWorldManager → Option GlobalEntityRecord
record_of e g = lookup e g.entity_records

-- The record of an entity is changed through a `&mut`.
abbrev pub put : ℕ → GlobalEntityRecord → GlobalWorldManager → GlobalWorldManager
put e r g = record g { entity_records = insert_key e r g.entity_records }

abbrev pub with_publicity : Publicity → GlobalEntityRecord → GlobalEntityRecord
with_publicity p r = record r { replication_config = record r.replication_config { publicity = p } }

unfoldable pub has_entity : ℕ → GlobalWorldManager → Bool
has_entity e g = let_some (record_of e g) false (λ r. true)

unfoldable pub entity_owner : ℕ → GlobalWorldManager → Option EntityOwner
entity_owner e g = let_some (record_of e g) none (λ r. some r.owner)

unfoldable pub insert_entity_record :
    ℕ → EntityOwner → GlobalWorldManager → Outcome GlobalWorldManager
insert_entity_record e owner g =
    let_some (record_of e g) (new_record owner >>= λ r. ok (put e r g)) (λ r. panic)

unfoldable pub insert_static_entity_record :
    ℕ → EntityOwner → GlobalWorldManager → Outcome GlobalWorldManager
insert_static_entity_record e owner g =
    let_some (record_of e g) (new_static owner >>= λ r. ok (put e r g)) (λ r. panic)

unfoldable pub mark_entity_as_static : ℕ → GlobalWorldManager → Outcome GlobalWorldManager
mark_entity_as_static e g =
    let_some (record_of e g) panic (λ r. ok (put e (record r { is_static = true }) g))

unfoldable pub remove_entity_record : ℕ → GlobalWorldManager → Outcome GlobalWorldManager
remove_entity_record e g =
    let_some (record_of e g) panic
      (λ r. ok (record g { entity_records = remove_key e g.entity_records }))

unfoldable pub component_kinds : ℕ → GlobalWorldManager → Option (List ℕ)
component_kinds e g = let_some (record_of e g) none (λ r. some r.component_kinds)

unfoldable pub insert_component_record : ℕ → ℕ → GlobalWorldManager → Outcome GlobalWorldManager
insert_component_record e kind g =
    let_some (record_of e g) panic
      (λ r. ok (put e (record r { component_kinds = insert_member kind r.component_kinds }) g))

unfoldable pub has_component_record : ℕ → ℕ → GlobalWorldManager → Bool
has_component_record e kind g =
    let_some (record_of e g) false (λ r. contains kind r.component_kinds)

unfoldable pub remove_component_record : ℕ → ℕ → GlobalWorldManager → Outcome GlobalWorldManager
remove_component_record e kind g = let_some (record_of e g) panic (λ r.
    if contains kind r.component_kinds
    then ok (put e (record r { component_kinds = remove_member kind r.component_kinds }) g)
    else panic)

-- The owner and the publicity of a record after it is published, and whether it is.
abbrev pub publish_record : GlobalEntityRecord → EntityOwner → Outcome (Bool × GlobalEntityRecord)
publish_record r local_entity = panic
publish_record r server_entity = ok (false, r)
publish_record r (client_waiting u) = panic
publish_record r (client_entity u) =
    ok (true, with_publicity public (record r { owner = client_public u }))
publish_record r (client_public u) =
    ok (true, with_publicity public (record r { owner = client_public u }))

abbrev pub put_published :
    ℕ → GlobalWorldManager → Bool × GlobalEntityRecord → Outcome (Bool × GlobalWorldManager)
put_published e g p = ok (p.0, put e p.1 g)

unfoldable pub entity_publish : ℕ → GlobalWorldManager → Outcome (Bool × GlobalWorldManager)
entity_publish e g =
    let_some (record_of e g) panic (λ r. publish_record r r.owner >>= put_published e g)

abbrev pub unpublish_record : GlobalEntityRecord → EntityOwner → Outcome GlobalEntityRecord
unpublish_record r (client_public u) =
    ok (with_publicity private (record r { owner = client_entity u }))
unpublish_record r _ = panic

unfoldable pub entity_unpublish : ℕ → GlobalWorldManager → Outcome GlobalWorldManager
entity_unpublish e g =
    let_some (record_of e g) panic (λ r. unpublish_record r r.owner >>= λ q. ok (put e q g))

abbrev pub public_owner : EntityOwner → Option ℕ
public_owner (client_public u) = some u
public_owner _ = none

unfoldable pub entity_is_public_and_client_owned : ℕ → GlobalWorldManager → Bool
entity_is_public_and_client_owned e g =
    let_some (record_of e g) false (λ r. let_some (public_owner r.owner) false (λ u. true))

unfoldable pub entity_is_public_and_owned_by_user : ℕ → ℕ → GlobalWorldManager → Bool
entity_is_public_and_owned_by_user user e g =
    let_some (record_of e g) false (λ r. let_some (public_owner r.owner) false (λ u. u == user))

unfoldable pub entity_replication_config : ℕ → GlobalWorldManager → Option ReplicationConfig
entity_replication_config e g = let_some (record_of e g) none (λ r. some r.replication_config)

unfoldable pub entity_set_scope_exit : ℕ → ScopeExit → GlobalWorldManager → GlobalWorldManager
entity_set_scope_exit e exit g = let_some (record_of e g) g (λ r.
    put e (record r { replication_config = record r.replication_config { scope_exit = exit } }) g)

unfoldable pub entity_is_delegated : ℕ → GlobalWorldManager → Bool
entity_is_delegated e g =
    let_some (record_of e g) false (λ r. is_delegated r.replication_config.publicity)

unfoldable pub entity_enable_delegation : ℕ → GlobalWorldManager → Outcome GlobalWorldManager
entity_enable_delegation e g = let_some (record_of e g) panic (λ r.
    if is_public_config r.replication_config.publicity
    then (AuthHandler.register_entity e g.auth_handler >>= λ handler.
        ok (record (put e (with_publicity delegated r) g) { auth_handler = handler }))
    else panic)

unfoldable pub migrate_entity_to_server : ℕ → GlobalWorldManager → Outcome GlobalWorldManager
unfolding is_client
migrate_entity_to_server e g =
    let_some (record_of e g) panic
      (λ r. if is_client r.owner then ok (put e (record r { owner = server_entity }) g) else panic)

unfoldable pub entity_disable_delegation : ℕ → GlobalWorldManager → Outcome GlobalWorldManager
entity_disable_delegation e g = let_some (record_of e g) panic (λ r.
    if is_delegated r.replication_config.publicity
    then ok (record (put e (with_publicity public r) g) {
      auth_handler = AuthHandler.deregister_entity e g.auth_handler;
    })
    else panic)

unfoldable pub entity_authority_status : ℕ → GlobalWorldManager → Option EntityAuthStatus
entity_authority_status e g = AuthHandler.authority_status e g.auth_handler

-- A call of the auth handler about an entity, which is refused unless the entity is delegated.
abbrev pub if_delegated {ℓ} :
    {A : Type ℓ}
    → ℕ
    → (ServerAuthHandler → Outcome (Reply A × ServerAuthHandler))
    → GlobalWorldManager
    → Outcome (Reply A × GlobalWorldManager)
if_delegated e act g =
    if not (entity_is_delegated e g)
    then ok (refused not_delegated, g)
    else (act g.auth_handler >>= λ p. ok (p.0, record g { auth_handler = p.1 }))

unfoldable pub server_take_authority :
    ℕ → GlobalWorldManager → Outcome (Reply AuthOwner × GlobalWorldManager)
server_take_authority e g = if_delegated e (AuthHandler.server_take_authority e) g

unfoldable pub client_request_authority :
    ℕ → AuthOwner → GlobalWorldManager → Outcome (Reply (Unit {0}) × GlobalWorldManager)
client_request_authority e requester g =
    if_delegated e (AuthHandler.client_request_authority e requester) g

unfoldable pub server_give_authority_to_client :
    ℕ → ℕ → GlobalWorldManager → Outcome (Reply AuthOwner × GlobalWorldManager)
server_give_authority_to_client e user g =
    if_delegated e (AuthHandler.server_give_authority_to_client e user) g

unfoldable pub client_release_authority :
    ℕ → AuthOwner → GlobalWorldManager → Outcome (Reply (Unit {0}) × GlobalWorldManager)
client_release_authority e releaser g =
    if_delegated e (AuthHandler.client_release_authority e releaser) g

unfoldable pub user_all_owned_entities : ℕ → GlobalWorldManager → Option (List ℕ)
user_all_owned_entities user g = AuthHandler.user_all_owned_entities user g.auth_handler

unfoldable pub user_is_authority_holder : ℕ → ℕ → GlobalWorldManager → Bool
user_is_authority_holder user e g = AuthHandler.user_is_authority_holder user e g.auth_handler

unfoldable pub entity_has_holder : ℕ → GlobalWorldManager → Bool
entity_has_holder e g = AuthHandler.entity_has_holder e g.auth_handler

unfoldable pub set_replicating : Bool → ℕ → GlobalWorldManager → GlobalWorldManager
set_replicating b e g = let_some (record_of e g) g (λ r. put e (record r { is_replicating = b }) g)

abbrev pub pause_entity_replication : ℕ → GlobalWorldManager → GlobalWorldManager
pause_entity_replication e g = set_replicating false e g

abbrev pub resume_entity_replication : ℕ → GlobalWorldManager → GlobalWorldManager
resume_entity_replication e g = set_replicating true e g

abbrev pub relates : EntityOwner → ℕ → Bool
relates server_entity user = true
relates (client_public u) user = true
relates (client_entity u) user = u == user
relates (client_waiting u) user = u == user
relates local_entity user = false

unfoldable pub entity_can_relate_to_user : ℕ → ℕ → GlobalWorldManager → Bool
entity_can_relate_to_user e user g = let_some (record_of e g) false (λ r. relates r.owner user)

unfoldable pub get_entity_auth_accessor : ℕ → GlobalWorldManager → Outcome HostEntityAuthStatus
get_entity_auth_accessor e g = get_channel e g.auth_handler.host_auth_handler

unfoldable pub entity_is_replicating : ℕ → GlobalWorldManager → Bool
entity_is_replicating e g = let_some (record_of e g) false (λ r. r.is_replicating)

unfoldable pub entity_is_static : ℕ → GlobalWorldManager → Bool
entity_is_static e g = let_some (record_of e g) false (λ r. r.is_static)
