-- ===== src/Server/AuthHandler.antt =====
-- server/src/world/server_auth_handler.rs: ServerAuthHandler, which knows who has the authority over
-- each delegated entity, with HostAuthHandler and the data of its channels
-- (shared/src/world/delegation/host_auth_handler.rs and auth_channel.rs) and AuthorityError
-- (shared/src/world/sync/authority_error.rs).

pub mod Owners
pub mod Decides
pub mod Moves
pub mod Calls
pub mod Holders
use naia.Base.Bools.{let_some}
use naia.Base.{ℕ, Bool, true, false, ◌||◌, Option, none, some, List, [], ◌==◌, if◌then◌else◌}
use naia.Base.Outcome.{Outcome, ok, panic, ◌>>=◌}
use naia.Base.Assoc.{lookup, insert_key, remove_key, insert_member, remove_member}
use naia.World.Authority.{
  HostType, EntityAuthStatus, HostEntityAuthStatus, server, client, available, requested, granted,
  denied,
}

pub data AuthorityError : Type 0 where
  not_delegated not_available not_holder not_in_scope resource_not_present : AuthorityError

-- A Result with an AuthorityError.
pub data Reply {ℓ} (A : Type ℓ) : Type ℓ where
  accepted : A → Reply A
  refused : AuthorityError → Reply A

pub data AuthOwner : Type 0 where
  no_owner server_owner : AuthOwner
  client_owner : ℕ → AuthOwner

abbrev pub owner_eq : AuthOwner → AuthOwner → Bool
owner_eq no_owner no_owner = true
owner_eq server_owner server_owner = true
owner_eq (client_owner u) (client_owner v) = u == v
owner_eq _ _ = false

unfoldable pub from_user_key : Option ℕ → AuthOwner
from_user_key (some user_key) = client_owner user_key
from_user_key none = server_owner

-- The data that the mutator and the accessors of an entity share: it is kept with the entity. An
-- accessor that outlives its entity's registration, and has the last data, is not modelled.
abbrev pub new_data : HostType → HostEntityAuthStatus
new_data server = record { host_type = server; auth_status = available }
new_data client = record { host_type = client; auth_status = requested }

pub record HostAuthHandler : Type 0 where
  pub auth_channels : List (ℕ × HostEntityAuthStatus)

unfoldable pub register_channel : HostType → ℕ → HostAuthHandler → Outcome HostAuthHandler
register_channel host entity h =
    let_some (lookup entity h.auth_channels)
      (ok (record { auth_channels = insert_key entity (new_data host) h.auth_channels }))
      (λ shared. panic)

unfoldable pub deregister_channel : ℕ → HostAuthHandler → HostAuthHandler
deregister_channel entity h = record { auth_channels = remove_key entity h.auth_channels }

unfoldable pub auth_status : ℕ → HostAuthHandler → Option HostEntityAuthStatus
auth_status entity h = lookup entity h.auth_channels

unfoldable pub get_channel : ℕ → HostAuthHandler → Outcome HostEntityAuthStatus
get_channel entity h = let_some (lookup entity h.auth_channels) panic ok

unfoldable pub set_auth_status : ℕ → EntityAuthStatus → HostAuthHandler → Outcome HostAuthHandler
set_auth_status entity status h = let_some (lookup entity h.auth_channels) panic (λ shared.
    ok (record {
      auth_channels = insert_key entity (record shared { auth_status = status }) h.auth_channels;
    }))

pub record ServerAuthHandler : Type 0 where
  pub host_auth_handler : HostAuthHandler
  pub entity_auth_map : List (ℕ × AuthOwner)
  pub user_to_entity_map : List (ℕ × List ℕ)

abbrev pub new_auth_handler : ServerAuthHandler
new_auth_handler = record {
  host_auth_handler = record { auth_channels = [] };
  entity_auth_map = [];
  user_to_entity_map = [];
}

abbrev pub set_owner : ℕ → AuthOwner → ServerAuthHandler → ServerAuthHandler
set_owner entity owner h = record h { entity_auth_map = insert_key entity owner h.entity_auth_map }

unfoldable pub set_status : ℕ → EntityAuthStatus → ServerAuthHandler → Outcome ServerAuthHandler
set_status entity status h = do
  handler ← set_auth_status entity status h.host_auth_handler
  ok (record h { host_auth_handler = handler })

unfoldable pub register_entity : ℕ → ServerAuthHandler → Outcome ServerAuthHandler
register_entity entity h = do
  handler ← register_channel server entity h.host_auth_handler
  ok (set_owner entity no_owner (record h { host_auth_handler = handler }))

unfoldable pub deregister_entity : ℕ → ServerAuthHandler → ServerAuthHandler
deregister_entity entity h = record h {
  host_auth_handler = deregister_channel entity h.host_auth_handler;
  entity_auth_map = remove_key entity h.entity_auth_map;
}

unfoldable pub authority_status : ℕ → ServerAuthHandler → Option EntityAuthStatus
authority_status entity h =
    let_some (auth_status entity h.host_auth_handler) none
      (λ host_status. some host_status.auth_status)

abbrev pub is_held : Option AuthOwner → Bool
is_held (some no_owner) = false
is_held none = false
is_held (some server_owner) = true
is_held (some (client_owner u)) = true

unfoldable pub entity_has_holder : ℕ → ServerAuthHandler → Bool
entity_has_holder entity h = is_held (lookup entity h.entity_auth_map)

abbrev pub entities_of : ℕ → ServerAuthHandler → List ℕ
entities_of user_key h = let_some (lookup user_key h.user_to_entity_map) [] (λ entities. entities)

-- The entity is added to those of the user, `entry(..).or_default().insert(..)`.
abbrev pub list_entity : ℕ → ℕ → ServerAuthHandler → ServerAuthHandler
list_entity user_key entity h = record h {
  user_to_entity_map =
      insert_key user_key (insert_member entity (entities_of user_key h)) h.user_to_entity_map;
}

abbrev pub grant_to : ℕ → AuthOwner → ServerAuthHandler → Outcome ServerAuthHandler
grant_to entity no_owner h = ok h
grant_to entity server_owner h = set_status entity granted (set_owner entity server_owner h)
grant_to entity (client_owner u) h =
    set_status entity denied (list_entity u entity (set_owner entity (client_owner u) h))

-- The entity is taken out of the set of the user, and then the set out of the map.
abbrev pub unlist_user : ℕ → AuthOwner → ServerAuthHandler → ServerAuthHandler
unlist_user entity (client_owner u) h = let_some (lookup u h.user_to_entity_map) h (λ entities.
    record h {
      user_to_entity_map =
          remove_key u (insert_key u (remove_member entity entities) h.user_to_entity_map);
    })
unlist_user entity _ h = h

unfoldable pub release_all_authority :
    ℕ → AuthOwner → ServerAuthHandler → Outcome (Bool × ServerAuthHandler)
release_all_authority entity owner h =
    if owner_eq owner no_owner
    then ok (false, h)
    else (set_status entity available (unlist_user entity owner h) >>= λ released.
        ok (true, released))

unfoldable pub client_request_authority :
    ℕ → AuthOwner → ServerAuthHandler → Outcome (Reply (Unit {0}) × ServerAuthHandler)
client_request_authority entity requester h =
    let_some (lookup entity h.entity_auth_map) (ok (refused not_delegated, h)) (λ owner.
      if owner_eq owner no_owner
      then (grant_to entity requester h >>= λ given. ok (accepted tt, given))
      else ok (refused not_available, h))

unfoldable pub client_release_authority :
    ℕ → AuthOwner → ServerAuthHandler → Outcome (Reply (Unit {0}) × ServerAuthHandler)
client_release_authority entity releaser h =
    let_some (lookup entity h.entity_auth_map) (ok (refused not_delegated, h)) (λ owner.
      if owner_eq owner releaser || owner_eq releaser server_owner
      then (release_all_authority entity owner (set_owner entity no_owner h) >>= λ released.
          ok (accepted tt, released.1))
      else ok (refused not_holder, h))

unfoldable pub server_give_authority_to_client :
    ℕ → ℕ → ServerAuthHandler → Outcome (Reply AuthOwner × ServerAuthHandler)
server_give_authority_to_client entity user h =
    let_some (lookup entity h.entity_auth_map) (ok (refused not_delegated, h)) (λ owner.
      if owner_eq owner (client_owner user)
      then ok (accepted owner, h)
      else (release_all_authority entity owner (set_owner entity (client_owner user) h)
          >>= (λ released.
              set_status entity denied (list_entity user entity released.1) >>= λ given.
              ok (accepted owner, given))))

unfoldable pub server_take_authority :
    ℕ → ServerAuthHandler → Outcome (Reply AuthOwner × ServerAuthHandler)
server_take_authority entity h =
    let_some (lookup entity h.entity_auth_map) (ok (refused not_delegated, h)) (λ owner.
      if owner_eq owner server_owner
      then ok (accepted owner, h)
      else (release_all_authority entity owner (set_owner entity server_owner h) >>= (λ released.
          set_status entity granted released.1 >>= λ taken. ok (accepted owner, taken))))

unfoldable pub user_all_owned_entities : ℕ → ServerAuthHandler → Option (List ℕ)
user_all_owned_entities user_key h = lookup user_key h.user_to_entity_map

unfoldable pub user_is_authority_holder : ℕ → ℕ → ServerAuthHandler → Bool
user_is_authority_holder user_key entity h =
    let_some (lookup entity h.entity_auth_map) false
      (λ owner. owner_eq owner (client_owner user_key))
