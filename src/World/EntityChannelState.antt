-- ===== src/World/EntityChannelState.antt =====
-- shared/src/world/sync/remote_entity_channel.rs: EntityChannelState, whether an entity is there.
use naia.Base.{Bool, true, false}

pub data EntityChannelState : Type 0 where
  despawned spawned : EntityChannelState

abbrev pub is_spawned : EntityChannelState → Bool
is_spawned spawned = true
is_spawned despawned = false
