-- ===== src/Message/Serialize/Value.antt =====
-- The content of every message is written in its layout.
use rusftp.Prelude.{refl}
use rusftp.Wire.Field.{has_length}
use rusftp.Wire.Encoder.{serialize_str}
use rusftp.Wire.Encoder.Writes.{
  Writes, Writes-u32, Writes-u64, Writes-fields_nil, Writes-fields_cons, plain_field, Writes-struct,
}
use rusftp.Wire.Encoder.Lengths.{Writes-implicit_bytes}
use rusftp.Message.Types.{Message}
use rusftp.Message.Format
use rusftp.Message.Valid.{IsValid}
use rusftp.Message.Serialize.{value}
use rusftp.Message.Serialize.Layout.{
  bytes_field, path-Writes, handle-Writes, content-Writes, pflags-Writes, attrs-Writes,
  extensions-Writes, name-Writes, status_code-Writes,
}

pub value-Writes : (m : Message) → IsValid m → Writes (value m) (Format.body m)
unfolding value Format.body serialize_str has_length
value-Writes (Message.init m) h = Writes-struct _ _ (
    plain_field _ _ _ _ (Writes-u32 m.version)
      (Writes-fields_cons _ _ _ _ (extensions-Writes m.extensions h.1) Writes-fields_nil))
value-Writes (Message.version m) h = Writes-struct _ _ (
    plain_field _ _ _ _ (Writes-u32 m.version)
      (Writes-fields_cons _ _ _ _ (extensions-Writes m.extensions h.1) Writes-fields_nil))
value-Writes (Message.open_ m) h = Writes-struct _ _ (
    plain_field _ _ _ _ (path-Writes m.filename h.0.0) (
      plain_field _ _ _ _ (pflags-Writes m.pflags)
        (plain_field _ _ _ _ (attrs-Writes m.attrs) Writes-fields_nil)))
value-Writes (Message.close m) h =
    Writes-struct _ _ (plain_field _ _ _ _ (handle-Writes m.handle h) Writes-fields_nil)
value-Writes (Message.read m) h = Writes-struct _ _ (
    plain_field _ _ _ _ (handle-Writes m.handle h.0) (
      plain_field _ _ _ _ (Writes-u64 m.offset)
        (plain_field _ _ _ _ (Writes-u32 m.length) Writes-fields_nil)))
value-Writes (Message.write m) h = Writes-struct _ _ (
    plain_field _ _ _ _ (handle-Writes m.handle h.0) (
      plain_field _ _ _ _ (Writes-u64 m.offset)
        (plain_field _ _ _ _ (content-Writes m.payload h.2) Writes-fields_nil)))
value-Writes (Message.lstat m) h =
    Writes-struct _ _ (plain_field _ _ _ _ (path-Writes m.path h.0) Writes-fields_nil)
value-Writes (Message.fstat m) h =
    Writes-struct _ _ (plain_field _ _ _ _ (handle-Writes m.handle h) Writes-fields_nil)
value-Writes (Message.setstat m) h = Writes-struct _ _ (
    plain_field _ _ _ _ (path-Writes m.path h.0.0)
      (plain_field _ _ _ _ (attrs-Writes m.attrs) Writes-fields_nil))
value-Writes (Message.fsetstat m) h = Writes-struct _ _ (
    plain_field _ _ _ _ (handle-Writes m.handle h.0)
      (plain_field _ _ _ _ (attrs-Writes m.attrs) Writes-fields_nil))
value-Writes (Message.opendir m) h =
    Writes-struct _ _ (plain_field _ _ _ _ (path-Writes m.path h.0) Writes-fields_nil)
value-Writes (Message.readdir m) h =
    Writes-struct _ _ (plain_field _ _ _ _ (handle-Writes m.handle h) Writes-fields_nil)
value-Writes (Message.remove m) h =
    Writes-struct _ _ (plain_field _ _ _ _ (path-Writes m.path h.0) Writes-fields_nil)
value-Writes (Message.mkdir m) h = Writes-struct _ _ (
    plain_field _ _ _ _ (path-Writes m.path h.0.0)
      (plain_field _ _ _ _ (attrs-Writes m.attrs) Writes-fields_nil))
value-Writes (Message.rmdir m) h =
    Writes-struct _ _ (plain_field _ _ _ _ (path-Writes m.path h.0) Writes-fields_nil)
value-Writes (Message.realpath m) h =
    Writes-struct _ _ (plain_field _ _ _ _ (path-Writes m.path h.0) Writes-fields_nil)
value-Writes (Message.stat m) h =
    Writes-struct _ _ (plain_field _ _ _ _ (path-Writes m.path h.0) Writes-fields_nil)
value-Writes (Message.rename m) h = Writes-struct _ _ (
    plain_field _ _ _ _ (path-Writes m.old_path h.0.0)
      (plain_field _ _ _ _ (path-Writes m.new_path h.1.0) Writes-fields_nil))
value-Writes (Message.readlink m) h =
    Writes-struct _ _ (plain_field _ _ _ _ (path-Writes m.path h.0) Writes-fields_nil)
value-Writes (Message.symlink m) h = Writes-struct _ _ (
    plain_field _ _ _ _ (path-Writes m.link_path h.0.0)
      (plain_field _ _ _ _ (path-Writes m.target_path h.1.0) Writes-fields_nil))
value-Writes (Message.status m) h = Writes-struct _ _ (
    plain_field _ _ _ _ (status_code-Writes m.code) (
      Writes-fields_cons _ _ _ _ (bytes_field m.error h.0.0 "error" refl) (
        Writes-fields_cons _ _ _ _ (bytes_field m.language h.1.0 "language" refl)
          Writes-fields_nil)))
value-Writes (Message.handle m) h = handle-Writes m h
value-Writes (Message.content m) h = content-Writes m h
value-Writes (Message.name m) h = name-Writes m h
value-Writes (Message.attrs m) h = attrs-Writes m
value-Writes (Message.extended m) h = Writes-struct _ _ (
    Writes-fields_cons _ _ _ _ (bytes_field m.request h.0 "request" refl) (
      Writes-fields_cons _ _ _ _ (Writes-implicit_bytes m.payload h.1 "data_implicit_length" refl)
        Writes-fields_nil))
value-Writes (Message.extended_reply m) h = Writes-struct _ _ (
    Writes-fields_cons _ _ _ _ (Writes-implicit_bytes m.payload h "data_implicit_length" refl)
      Writes-fields_nil)
