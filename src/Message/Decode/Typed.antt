-- ===== src/Message/Decode/Typed.antt =====
-- What `Message::decode_raw`, src/message/mod.rs, accepts has the types of Rust.
use rusftp.Prelude.{
  ℕ, ◌^◌, ◌<◌, ◌≤◌, ◌≡◌, refl, Bool, true, false, Option, none, some, Result, ok, err, length,
  arith, All, ◌==◌, if◌then◌else◌,
}
use rusftp.Wire.Error.{Error, no_value}
use rusftp.Wire.Bytes.{IsByte}
use rusftp.Wire.Encoder.{u32_max}
use rusftp.Wire.Decoder.{Decoder, new, decode_u8, decode_u32, deserialize_unit}
use rusftp.Wire.Decoder.Bounds.{
  Gives, Gives-pure, Gives-bind, IsBuf, IsAccess, decode_u8-Gives, decode_u32-Gives,
}
use rusftp.Wire.Decoder.Bounds.Sequences.{
  deserialize_unit-Gives, deserialize_tuple-Gives, required-Gives,
}
use rusftp.Message.Types.{Bytes, Message}
use rusftp.Message.Kind.{MessageKind, kind_of_code}
use rusftp.Message.Valid.{IsU32, IsValid}
use rusftp.Message.Deserialize.{value}
use rusftp.Message.Deserialize.Bounds.Value.{value-Gives}
use rusftp.Message.Decode.{
  DecodeError, content_of, without_id, with_id, id_and_content, deserialize_with_id, decode_raw,
  error_id, error_kind,
}

abbrev IsTyped : ℕ × Message → Type 0
IsTyped q = IsU32 q.0 × IsValid q.1

content_of-Gives : (o : Option MessageKind) → Gives IsAccess IsValid (content_of o)
unfolding content_of
content_of-Gives none s a s' i e = cc e
content_of-Gives (some k) s a s' i e = required-Gives no_value (value k) (value-Gives k) s a s' i e

without_id-Gives : (k : MessageKind) → Gives IsAccess IsTyped (without_id k)
unfolding without_id
without_id-Gives k =
    Gives-bind _ _ (required-Gives no_value deserialize_unit deserialize_unit-Gives) λ u t.
      Gives-bind _ _ (required-Gives no_value (value k) (value-Gives k))
        λ m p. Gives-pure IsAccess IsTyped (0, m) (omega arith, p)

with_id-Gives : (code : ℕ) → Gives IsAccess IsTyped (with_id code)
unfolding with_id
with_id-Gives code = Gives-bind _ _ (required-Gives no_value decode_u32 decode_u32-Gives) λ id b.
    Gives-bind _ _ (content_of-Gives (kind_of_code code))
      λ m p. Gives-pure IsAccess IsTyped (id, m) (b, p)

id_and_content-Gives : (code : ℕ) → Gives IsAccess IsTyped (id_and_content code)
unfolding id_and_content
id_and_content-Gives code = go (code == 1) (code == 2)
  where
    go :
        (init version : Bool)
        → Gives IsAccess IsTyped (
            if init
            then without_id MessageKind.init
            else if version
            then without_id MessageKind.version
            else with_id code)
    go true version = without_id-Gives MessageKind.init
    go false true = without_id-Gives MessageKind.version
    go false false = with_id-Gives code

deserialize_with_id-Gives : Gives IsBuf IsTyped deserialize_with_id
unfolding deserialize_with_id
deserialize_with_id-Gives = deserialize_tuple-Gives 3 _ (
    Gives-bind _ _ (required-Gives no_value decode_u8 decode_u8-Gives)
      (λ code b. id_and_content-Gives code))

-- Of any bytes, at most 2 ^ 32 - 1, that `decode_raw` accepts: the id has 32 bits, and every part of
-- the message fits its type and the format. Numbers have their width, paths and the texts of a status
-- are UTF-8, byte strings and lists have a length of 32 bits, and the keys of extensions are in order.
pub decode_raw-IsValid :
    (buf : Bytes) (id : ℕ) (m : Message)
    → All IsByte buf
    → length buf ≤ u32_max
    → decode_raw buf ≡ ok (id, m)
    → (id < 2 ^ 32) × IsValid m
unfolding decode_raw new
decode_raw-IsValid buf id m bytes short e = go (deserialize_with_id (new buf)) refl e
  where
    go :
        (r : Result ((ℕ × Message) × Decoder) Error)
        → deserialize_with_id (new buf) ≡ r
        → (elim r as (λ _. Result (ℕ × Message) DecodeError) [
          | ok (q, d) ↦ ok q
          | err x ↦ err (record { inner = x; id = error_id buf; kind = error_kind buf })
        ])
          ≡ ok (id, m)
        → (id < 2 ^ 32) × IsValid m
    go (ok (q, d)) there e =
        let given = deserialize_with_id-Gives (new buf) q d (bytes, short) there in
        let first : q.0 ≡ id = cc e in
        let second : q.1 ≡ m = cc e in (rw (← first) given.1.0, rw (← second) given.1.1)
    go (err x) there e = cc e
