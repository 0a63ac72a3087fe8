-- ===== src/Serde.antt =====
-- shared/serde/src: the bit-level serialization of naia.
pub mod Bits
pub mod Interface
pub mod Writer
pub mod Reader
pub mod Number
pub mod Wire
pub mod Counter
pub mod Codec
