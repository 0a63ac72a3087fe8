-- ===== src/World.antt =====
-- shared/src/world: the messages and commands about entities, and the channels that carry them.
pub mod Authority
pub mod EntityMessageType
pub mod EntityCommand
pub mod EntityMessage
pub mod OrderedIds
pub mod EntityChannelState
pub mod AuthChannelReceiver
pub mod AuthChannel
pub mod RemoteComponentChannel
pub mod RemoteEntityChannel
pub mod HostEntityChannel
