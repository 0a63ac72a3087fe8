-- ===== src/Server/EntityRecord.antt =====
-- What the server records of an entity: EntityOwner (server/src/world/entity_owner.rs),
-- ReplicationConfig and ScopeExit (replication_config.rs), GlobalEntityRecord
-- (global_entity_record.rs) and Publicity (shared/src/world/publicity.rs).
use naia.Base.{ℕ, Bool, true, false, List, []}
use naia.Base.Outcome.{Outcome, ok, panic, ◌>>=◌}

pub data EntityOwner : Type 0 where
  server_entity local_entity : EntityOwner
  client_entity client_waiting client_public : ℕ → EntityOwner

unfoldable pub is_server : EntityOwner → Bool
is_server server_entity = true
is_server _ = false

unfoldable pub is_client : EntityOwner → Bool
is_client (client_entity u) = true
is_client (client_public u) = true
is_client (client_waiting u) = true
is_client _ = false

unfoldable pub is_public : EntityOwner → Bool
is_public (client_public u) = true
is_public server_entity = true
is_public _ = false

pub data Publicity : Type 0 where
  private public delegated : Publicity

abbrev pub is_delegated : Publicity → Bool
is_delegated delegated = true
is_delegated _ = false

abbrev pub is_public_config : Publicity → Bool
is_public_config public = true
is_public_config _ = false

pub data ScopeExit : Type 0 where
  despawn persist : ScopeExit

pub record ReplicationConfig : Type 0 where
  pub publicity : Publicity
  pub scope_exit : ScopeExit

abbrev pub config : Publicity → ReplicationConfig
config publicity = record { publicity = publicity; scope_exit = despawn }

unfoldable pub persist_on_scope_exit : ReplicationConfig → ReplicationConfig
persist_on_scope_exit c = record c { scope_exit = persist }

pub record GlobalEntityRecord : Type 0 where
  pub component_kinds : List ℕ
  pub owner : EntityOwner
  pub replication_config : ReplicationConfig
  pub is_replicating : Bool
  pub is_static : Bool

abbrev pub record_with : EntityOwner → ReplicationConfig → GlobalEntityRecord
record_with owner config = record {
  component_kinds = [];
  owner = owner;
  replication_config = config;
  is_replicating = true;
  is_static = false;
}

unfoldable pub new_record : EntityOwner → Outcome GlobalEntityRecord
new_record server_entity = ok (record_with server_entity (config public))
new_record (client_entity u) = ok (record_with (client_entity u) (config private))
new_record (client_waiting u) = ok (record_with (client_waiting u) (config private))
new_record (client_public u) = panic
new_record local_entity = panic

unfoldable pub new_static : EntityOwner → Outcome GlobalEntityRecord
new_static owner = do r ← new_record owner; ok (record r { is_static = true })
