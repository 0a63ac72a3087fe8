-- ===== src/World/EntityCommand.antt =====
-- shared/src/world/entity_command.rs: EntityCommand. Entities, component kinds and subcommand ids
-- are numbers.
use naia.Base.{ℕ, Bool, true, false, Option, none, some, List}
use naia.World.EntityMessageType.{EntityMessageType}
use naia.Base.Outcome.{Outcome, ok, panic}
use naia.World.Authority.{EntityAuthStatus}

pub data EntityCommand : Type 0 where
  spawn : ℕ → EntityCommand
  spawn_with_components : ℕ → List ℕ → EntityCommand
  despawn : ℕ → EntityCommand
  insert_component remove_component : ℕ → ℕ → EntityCommand
  publish unpublish enable_delegation disable_delegation : Option ℕ → ℕ → EntityCommand
  set_authority : Option ℕ → ℕ → EntityAuthStatus → EntityCommand
  request_authority release_authority enable_delegation_response : Option ℕ → ℕ → EntityCommand
  migrate_response : Option ℕ → ℕ → ℕ → ℕ → EntityCommand

unfoldable pub entity : EntityCommand → ℕ
entity (spawn e) = e
entity (spawn_with_components e kinds) = e
entity (despawn e) = e
entity (insert_component e kind) = e
entity (remove_component e kind) = e
entity (publish id e) = e
entity (unpublish id e) = e
entity (enable_delegation id e) = e
entity (disable_delegation id e) = e
entity (set_authority id e status) = e
entity (request_authority id e) = e
entity (release_authority id e) = e
entity (enable_delegation_response id e) = e
entity (migrate_response id e remote host) = e

unfoldable pub set_subcommand_id : ℕ → EntityCommand → Outcome EntityCommand
set_subcommand_id n (spawn e) = panic
set_subcommand_id n (spawn_with_components e kinds) = panic
set_subcommand_id n (despawn e) = panic
set_subcommand_id n (insert_component e kind) = panic
set_subcommand_id n (remove_component e kind) = panic
set_subcommand_id n (publish id e) = ok (publish (some n) e)
set_subcommand_id n (unpublish id e) = ok (unpublish (some n) e)
set_subcommand_id n (enable_delegation id e) = ok (enable_delegation (some n) e)
set_subcommand_id n (disable_delegation id e) = ok (disable_delegation (some n) e)
set_subcommand_id n (set_authority id e status) = ok (set_authority (some n) e status)
set_subcommand_id n (request_authority id e) = ok (request_authority (some n) e)
set_subcommand_id n (release_authority id e) = ok (release_authority (some n) e)
set_subcommand_id n (enable_delegation_response id e) = ok (enable_delegation_response (some n) e)
set_subcommand_id n (migrate_response id e remote host) =
    ok (migrate_response (some n) e remote host)

unfoldable pub component_kind : EntityCommand → Option ℕ
component_kind (insert_component e kind) = some kind
component_kind (remove_component e kind) = some kind
component_kind _ = none

unfoldable pub get_type : EntityCommand → EntityMessageType
get_type (spawn e) = EntityMessageType.spawn
get_type (spawn_with_components e kinds) = EntityMessageType.spawn_with_components
get_type (despawn e) = EntityMessageType.despawn
get_type (insert_component e kind) = EntityMessageType.insert_component
get_type (remove_component e kind) = EntityMessageType.remove_component
get_type (publish id e) = EntityMessageType.publish
get_type (unpublish id e) = EntityMessageType.unpublish
get_type (enable_delegation id e) = EntityMessageType.enable_delegation
get_type (disable_delegation id e) = EntityMessageType.disable_delegation
get_type (set_authority id e status) = EntityMessageType.set_authority
get_type (request_authority id e) = EntityMessageType.request_authority
get_type (release_authority id e) = EntityMessageType.release_authority
get_type (enable_delegation_response id e) = EntityMessageType.enable_delegation_response
get_type (migrate_response id e remote host) = EntityMessageType.migrate_response

unfoldable pub is_valid_for_remote_entity : EntityCommand → Bool
is_valid_for_remote_entity (insert_component e kind) = true
is_valid_for_remote_entity (remove_component e kind) = true
is_valid_for_remote_entity (despawn e) = true
is_valid_for_remote_entity _ = false
