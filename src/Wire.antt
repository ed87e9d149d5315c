-- ===== src/Wire.antt =====
-- src/wire/: the error type of the wire format. The encoder and the decoder are child modules.
pub mod Bytes
pub mod Utf8
pub mod Field
pub mod Encoder
pub mod Decoder
pub mod Scalars
pub mod Error
