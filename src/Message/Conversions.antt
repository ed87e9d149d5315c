-- ===== src/Message/Conversions.antt =====
-- The conversions of src/utils.rs, and those between texts, bytes and the types of src/message/path.rs,
-- data.rs, handle.rs and mod.rs.
use rusftp.Prelude.{ℕ}
use rusftp.Message.Types.{Bytes, FilePath, Data, Handle, Init, Version, Message}
use rusftp.Message.Kind.{kind, MessageKind}
use rusftp.Message.Kind

-- The types that have `IntoBytes`. The texts are the lists of their UTF-8 bytes.
pub data Source : Type 0 where
  of_bytes of_bytes_mut of_vec of_boxed_slice of_slice : Bytes → Source
  of_string of_boxed_str of_str : Bytes → Source

-- `IntoBytes::into_bytes`
unfoldable pub into_bytes : Source → Bytes
into_bytes (Source.of_bytes b) = b
into_bytes (Source.of_bytes_mut b) = b
into_bytes (Source.of_vec b) = b
into_bytes (Source.of_boxed_slice b) = b
into_bytes (Source.of_slice b) = b
into_bytes (Source.of_string text) = text
into_bytes (Source.of_boxed_str text) = text
into_bytes (Source.of_str text) = text

-- `From<T> for Data`
unfoldable pub data_from : Source → Data
unfolding into_bytes
data_from value = record { bytes = into_bytes value }

-- `From<T> for Path`, for what converts into a `String`.
unfoldable pub path_from : Bytes → FilePath
path_from value = record { text = value }

-- `as_ref`, `deref` and `borrow`
unfoldable pub data_as_ref : Data → Bytes
data_as_ref d = d.bytes

unfoldable pub handle_as_ref : Handle → Bytes
handle_as_ref h = h.bytes

unfoldable pub path_as_ref : FilePath → Bytes
path_as_ref p = p.text

-- `From<Init> for Version` and `From<Version> for Init`
unfoldable pub version_from : Init → Version
version_from value = record { version = value.version; extensions = value.extensions }

unfoldable pub init_from : Version → Init
init_from value = record { version = value.version; extensions = value.extensions }

-- `Message::code`
unfoldable pub message_code : Message → ℕ
message_code m = Kind.code (kind m)
