-- ===== src/Message.antt =====
-- src/message/: the SFTP messages, their wire format, and the code that encodes and decodes them.
pub mod Types
pub mod Kind
pub mod Format
pub mod Serialize
pub mod Extensions
pub mod Join
pub mod Conversions
pub mod Entries
pub mod Valid
pub mod Encode
pub mod Deserialize
pub mod Decode
