-- ===== src/Message.antt =====
-- rpc-lib/rpc-lib/internal/transfer-message/transfer-message.{h,cpp}: the bytes of the messages
-- that two connections exchange.
pub mod Types
pub mod Endian
pub mod Encode
pub mod Decode
pub mod Layout
pub mod RoundTrip
mod Tests
