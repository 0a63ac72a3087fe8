-- ===== src/Server.antt =====
-- server/src: what the server knows of its entities: who has the authority over them, whom they are in
-- the scope of, and which rooms they are in.
pub mod AuthHandler
pub mod EntityRecord
pub mod GlobalWorldManager
pub mod EntityScopeMap
pub mod Room
