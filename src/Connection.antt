-- ===== src/Connection.antt =====
-- shared/src/connection: packet headers, acknowledgements and loss.
pub mod PacketType
pub mod Header
pub mod LossMonitor
pub mod SequenceBuffer
pub mod AckManager
pub mod PingStore
