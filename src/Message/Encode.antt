-- ===== src/Message/Encode.antt =====
-- `Message::encode` and the `Serialize` implementations of the macro `messages!`, src/message/mod.rs.
pub mod Frame
use rusftp.Prelude.{ℕ, ◌-◌, ◌%◌, ◌^◌, [], ◌∷◌, ◌++◌, Result, ok, and_then, length, drop, ◌>>◌}
use rusftp.Wire.Error.{Error}
use rusftp.Wire.Bytes.{put_be}
use rusftp.Wire.Encoder.{
  Ser, with_vec, serialize_u8, serialize_u32, serialize_none, serialize_some, serialize_tuple,
  serialize_elements,
}
use rusftp.Message.Types.{Bytes, Message}
use rusftp.Message.Kind.{kind, code}
use rusftp.Message.Serialize.{value}

-- `Serialize for Message`: the code and the content, with no id.
pub serialize_message : Message → Ser
serialize_message m =
    serialize_tuple >> serialize_elements (serialize_u8 (code (kind m)) ∷ value m ∷ [])

-- The `id` of `Serialize for MessageWithId`: an `Option<u32>`.
id_element : ℕ → Message → Ser
id_element id (Message.init m) = serialize_none
id_element id (Message.version m) = serialize_none
id_element id m = serialize_some (serialize_u32 id)

-- `Serialize for MessageWithId`
serialize_with_id : ℕ → Message → Ser
unfolding id_element
serialize_with_id id m =
    serialize_tuple
    >> serialize_elements (serialize_u8 (code (kind m)) ∷ id_element id m ∷ value m ∷ [])

-- `buf.put_u32(frame_length)` at the start of the buffer, where four bytes are reserved. The length
-- is cast by `as u32`.
write_length : Bytes → Bytes
write_length buf = put_be 4 ((length buf - 4) % 2 ^ 32) ++ drop 4 buf

-- `Message::encode`
pub encode : Message → ℕ → Result Bytes Error
unfolding serialize_with_id write_length
encode m id =
    and_then (serialize_with_id id m (with_vec (put_be 4 0))) (λ r. ok (write_length r.1.buf))
