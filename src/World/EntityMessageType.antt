-- ===== src/World/EntityMessageType.antt =====
-- shared/src/world/entity/entity_message_type.rs: the discriminants of EntityMessage.
pub data EntityMessageType : Type 0 where
  spawn spawn_with_components despawn insert_component remove_component : EntityMessageType
  publish unpublish enable_delegation disable_delegation set_authority noop : EntityMessageType
  request_authority release_authority enable_delegation_response : EntityMessageType
  migrate_response : EntityMessageType
