-- ===== src/Message/Decode.antt =====
-- `Message::decode_raw`, `Message::decode` and the `Deserialize` implementations of the macro
-- `messages!`, src/message/mod.rs.
pub mod RoundTrip
pub mod Truncated
pub mod Typed
pub mod Prefix
pub mod Exact
use rusftp.Prelude.{
  ℕ, ◌≤◌, Bool, List, [], ◌∷◌, Option, none, some, Result, ok, err, length, take, drop, ltb, ◌==◌,
  ◌||◌, if◌then◌else◌, pure, ◌>>=◌,
}
use rusftp.Wire.Error.{Error, custom, no_value, invalid_message_type}
use rusftp.Wire.Bytes.{get_be}
use rusftp.Wire.Decoder.{
  De, SeqM, new, decode_u8, decode_u32, deserialize_unit, deserialize_tuple, required,
}
use rusftp.Message.Types.{Bytes, Message}
use rusftp.Message.Kind.{MessageKind, kind_of_code}
use rusftp.Message.Deserialize.{value}

-- `match code { $($discriminant => …,)* _ => return Err(…) }`
unfoldable pub content_of : Option MessageKind → SeqM Message
content_of none s = err (custom invalid_message_type)
content_of (some k) s = required no_value (value k) s

-- `Deserialize for Message`
unfoldable pub deserialize_message : De Message
deserialize_message =
    deserialize_tuple 3 (required no_value decode_u8 >>= λ code. content_of (kind_of_code code))

-- The branch of INIT and VERSION, which have no id …
unfoldable pub without_id : MessageKind → SeqM (ℕ × Message)
without_id k = do
  u ← required no_value deserialize_unit
  m ← required no_value (value k)
  pure (0, m)

-- … and that of the other codes.
unfoldable pub with_id : ℕ → SeqM (ℕ × Message)
with_id code = do
  id ← required no_value decode_u32
  m ← content_of (kind_of_code code)
  pure (id, m)

unfoldable pub id_and_content : ℕ → SeqM (ℕ × Message)
id_and_content code =
    if code == 1
    then without_id MessageKind.init
    else if code == 2
    then without_id MessageKind.version
    else with_id code

-- `Deserialize for MessageWithId`
unfoldable pub deserialize_with_id : De (ℕ × Message)
deserialize_with_id = deserialize_tuple 3 (required no_value decode_u8 >>= id_and_content)

pub record DecodeError : Type 0 where
  pub inner : Error
  pub id : Option ℕ
  pub kind : Option MessageKind

-- `if buf.remaining() >= 1 { if let Ok(kind) = MessageKind::try_from(buf.get_u8()) … }`
unfoldable pub error_kind : Bytes → Option MessageKind
error_kind [] = none
error_kind (b ∷ rest) = kind_of_code b

-- `if buf.remaining() >= 4 { err.id = Some(buf.get_u32()) }`, behind the byte of the type
unfoldable pub error_id : Bytes → Option ℕ
error_id buf = if ltb (length (drop 1 buf)) 4 then none else some (get_be (take 4 (drop 1 buf)))

-- `Message::decode_raw`. What is left of the buffer is dropped.
unfoldable pub decode_raw : Bytes → Result (ℕ × Message) DecodeError
decode_raw buf = elim (deserialize_with_id (new buf)) [
  | ok (m, d) ↦ ok m
  | err e ↦ err (record { inner = e; id = error_id buf; kind = error_kind buf })
]

-- `Message::decode`. `Buf::get_u32` on less than four bytes and the slice `&buf[0..frame_length]`
-- past the end panic.
pub data Decoded : Type 0 where
  panic : Decoded
  returned : Result (ℕ × Message) DecodeError → Decoded

unfoldable pub decode : Bytes → Decoded
decode buf =
    if ltb (length buf) 4
    then panic
    else (let frame_length = get_be (take 4 buf) in
        let body = drop 4 buf in
        if ltb (length body) frame_length
        then panic
        else returned (decode_raw (take frame_length body)))
