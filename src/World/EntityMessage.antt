-- ===== src/World/EntityMessage.antt =====
-- shared/src/world/entity/entity_message.rs: EntityMessage, what the peers tell each other about an
-- entity. Entities are of any type, as in the code; component kinds and subcommand ids are numbers.
use naia.Base.{ℕ, Bool, true, false, Option, none, some, List}
use naia.Base.Outcome.{Outcome, ok, panic}
use naia.World.Authority.{EntityAuthStatus}
use naia.World.EntityMessageType.{EntityMessageType}

pub data EntityMessage (E : Type 0) : Type 0 where
  spawn despawn : E → EntityMessage E
  spawn_with_components : E → List ℕ → EntityMessage E
  insert_component remove_component : E → ℕ → EntityMessage E
  publish unpublish enable_delegation disable_delegation : ℕ → E → EntityMessage E
  set_authority : ℕ → E → EntityAuthStatus → EntityMessage E
  request_authority release_authority enable_delegation_response : ℕ → E → EntityMessage E
  migrate_response : ℕ → E → ℕ → EntityMessage E
  noop : EntityMessage E

module _ {E : Type 0} where
  unfoldable pub entity_of : EntityMessage E → Option E
  entity_of (spawn e) = some e
  entity_of (spawn_with_components e kinds) = some e
  entity_of (despawn e) = some e
  entity_of (insert_component e kind) = some e
  entity_of (remove_component e kind) = some e
  entity_of (publish id e) = some e
  entity_of (unpublish id e) = some e
  entity_of (enable_delegation id e) = some e
  entity_of (disable_delegation id e) = some e
  entity_of (set_authority id e status) = some e
  entity_of (request_authority id e) = some e
  entity_of (release_authority id e) = some e
  entity_of (enable_delegation_response id e) = some e
  entity_of (migrate_response id e other) = some e
  entity_of noop = none

  unfoldable pub is_noop : EntityMessage E → Bool
  is_noop noop = true
  is_noop _ = false

  unfoldable pub component_kind : EntityMessage E → Option ℕ
  component_kind (insert_component e kind) = some kind
  component_kind (remove_component e kind) = some kind
  component_kind _ = none

  unfoldable pub get_type : EntityMessage E → EntityMessageType
  get_type (spawn e) = EntityMessageType.spawn
  get_type (spawn_with_components e kinds) = EntityMessageType.spawn_with_components
  get_type (despawn e) = EntityMessageType.despawn
  get_type (insert_component e kind) = EntityMessageType.insert_component
  get_type (remove_component e kind) = EntityMessageType.remove_component
  get_type (publish id e) = EntityMessageType.publish
  get_type (unpublish id e) = EntityMessageType.unpublish
  get_type (enable_delegation id e) = EntityMessageType.enable_delegation
  get_type (disable_delegation id e) = EntityMessageType.disable_delegation
  get_type (set_authority id e status) = EntityMessageType.set_authority
  get_type (request_authority id e) = EntityMessageType.request_authority
  get_type (release_authority id e) = EntityMessageType.release_authority
  get_type (enable_delegation_response id e) = EntityMessageType.enable_delegation_response
  get_type (migrate_response id e other) = EntityMessageType.migrate_response
  get_type noop = EntityMessageType.noop

  unfoldable pub subcommand_id : EntityMessage E → Option ℕ
  subcommand_id (spawn e) = none
  subcommand_id (spawn_with_components e kinds) = none
  subcommand_id (despawn e) = none
  subcommand_id (insert_component e kind) = none
  subcommand_id (remove_component e kind) = none
  subcommand_id (publish id e) = some id
  subcommand_id (unpublish id e) = some id
  subcommand_id (enable_delegation id e) = some id
  subcommand_id (disable_delegation id e) = some id
  subcommand_id (set_authority id e status) = some id
  subcommand_id (request_authority id e) = some id
  subcommand_id (release_authority id e) = some id
  subcommand_id (enable_delegation_response id e) = some id
  subcommand_id (migrate_response id e other) = some id
  subcommand_id noop = none

  -- The message about another entity.
  unfoldable pub with_entity : {O : Type 0} → O → EntityMessage E → Outcome (EntityMessage O)
  with_entity o (spawn e) = ok (spawn o)
  with_entity o (spawn_with_components e kinds) = ok (spawn_with_components o kinds)
  with_entity o (despawn e) = ok (despawn o)
  with_entity o (insert_component e kind) = ok (insert_component o kind)
  with_entity o (remove_component e kind) = ok (remove_component o kind)
  with_entity o (publish id e) = ok (publish id o)
  with_entity o (unpublish id e) = ok (unpublish id o)
  with_entity o (enable_delegation id e) = ok (enable_delegation id o)
  with_entity o (disable_delegation id e) = ok (disable_delegation id o)
  with_entity o (set_authority id e status) = ok (set_authority id o status)
  with_entity o (request_authority id e) = ok (request_authority id o)
  with_entity o (release_authority id e) = ok (release_authority id o)
  with_entity o (enable_delegation_response id e) = ok (enable_delegation_response id o)
  with_entity o (migrate_response id e other) = ok (migrate_response id o other)
  with_entity o noop = panic

  -- The message with no entity.
  unfoldable pub strip_entity : EntityMessage E → Outcome (EntityMessage (Unit {0}))
  strip_entity (spawn e) = ok (spawn tt)
  strip_entity (spawn_with_components e kinds) = ok (spawn_with_components tt kinds)
  strip_entity (despawn e) = ok (despawn tt)
  strip_entity (insert_component e kind) = ok (insert_component tt kind)
  strip_entity (remove_component e kind) = ok (remove_component tt kind)
  strip_entity (publish id e) = ok (publish id tt)
  strip_entity (unpublish id e) = ok (unpublish id tt)
  strip_entity (enable_delegation id e) = ok (enable_delegation id tt)
  strip_entity (disable_delegation id e) = ok (disable_delegation id tt)
  strip_entity (set_authority id e status) = ok (set_authority id tt status)
  strip_entity (request_authority id e) = ok (request_authority id tt)
  strip_entity (release_authority id e) = ok (release_authority id tt)
  strip_entity (enable_delegation_response id e) = ok (enable_delegation_response id tt)
  strip_entity (migrate_response id e other) = ok (migrate_response id tt other)
  strip_entity noop = panic

unfoldable pub with_component_kind : ℕ → EntityMessageType → Outcome (EntityMessage (Unit {0}))
with_component_kind kind EntityMessageType.insert_component = ok (insert_component tt kind)
with_component_kind kind EntityMessageType.remove_component = ok (remove_component tt kind)
with_component_kind kind _ = panic
