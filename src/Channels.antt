-- ===== src/Channels.antt =====
-- shared/src/messages/channels: messages that arrive in any order and more than once.
pub mod ReliableReceiver
pub mod ReliableSender
