-- ===== src/Message/Deserialize/Bounds/Value.antt =====
-- Every kind of message, src/message/mod.rs, is given with parts that fit their types.
use rusftp.Prelude.{[], ◌∷◌}
use rusftp.Wire.Decoder.{decode_u32, decode_u64, decode_bytes, decode_str}
use rusftp.Wire.Decoder.Bounds.{
  Gives, Gives-pure, Gives-bind, IsBuf, Any, decode_u32-Gives, decode_u64-Gives, decode_bytes-Gives,
  decode_str-Gives,
}
use rusftp.Wire.Decoder.Bounds.Sequences.{deserialize_struct-Gives, unit_enum-Gives}
use rusftp.Message.Types.{Message}
use rusftp.Message.Kind.{MessageKind}
use rusftp.Message.Valid.{IsValid}
use rusftp.Message.Deserialize.{
  path, handle, content, pflags, attrs, extensions, name, status_code, value,
}
use rusftp.Message.Deserialize.Bounds.{
  then_field, ends_with, path-Gives, handle-Gives, content-Gives, pflags-Gives, attrs-Gives,
  extensions-Gives, name-Gives,
}

status_code-Gives : Gives IsBuf Any status_code
unfolding status_code
status_code-Gives = unit_enum-Gives "StatusCode" _ _

pub value-Gives : (k : MessageKind) → Gives IsBuf IsValid (value k)
unfolding value
value-Gives MessageKind.init =
    deserialize_struct-Gives "Init" ("version" ∷ "extensions_implicit_length" ∷ []) _ (
      then_field decode_u32 _ decode_u32-Gives λ a p.
        then_field extensions _ extensions-Gives
          λ b q. ends_with IsValid (Message.init (record { version = a; extensions = b })) (p, q))
value-Gives MessageKind.version =
    deserialize_struct-Gives "Version" ("version" ∷ "extensions_implicit_length" ∷ []) _ (
      then_field decode_u32 _ decode_u32-Gives λ a p.
        then_field extensions _ extensions-Gives λ b q.
          ends_with IsValid (Message.version (record { version = a; extensions = b })) (p, q))
value-Gives MessageKind.open_ =
    deserialize_struct-Gives "Open" ("filename" ∷ "pflags" ∷ "attrs" ∷ []) _ (
      then_field path _ path-Gives λ a p. then_field pflags _ pflags-Gives λ b q.
        then_field attrs _ attrs-Gives λ c r.
          ends_with IsValid (Message.open_ (record { filename = a; pflags = b; attrs = c }))
            (p, q, r))
value-Gives MessageKind.close = deserialize_struct-Gives "Close" ("handle" ∷ []) _ (
    then_field handle _ handle-Gives
      λ a p. ends_with IsValid (Message.close (record { handle = a })) p)
value-Gives MessageKind.read =
    deserialize_struct-Gives "Read" ("handle" ∷ "offset" ∷ "length" ∷ []) _ (
      then_field handle _ handle-Gives λ a p. then_field decode_u64 _ decode_u64-Gives λ b q.
        then_field decode_u32 _ decode_u32-Gives λ c r.
          ends_with IsValid (Message.read (record { handle = a; offset = b; length = c }))
            (p, q, r))
value-Gives MessageKind.write =
    deserialize_struct-Gives "Write" ("handle" ∷ "offset" ∷ "data" ∷ []) _ (
      then_field handle _ handle-Gives λ a p. then_field decode_u64 _ decode_u64-Gives λ b q.
        then_field content _ content-Gives λ c r.
          ends_with IsValid (Message.write (record { handle = a; offset = b; payload = c }))
            (p, q, r))
value-Gives MessageKind.lstat =
    deserialize_struct-Gives "LStat" ("path" ∷ []) _ (
      then_field path _ path-Gives λ a p. ends_with IsValid (Message.lstat (record { path = a })) p)
value-Gives MessageKind.fstat = deserialize_struct-Gives "FStat" ("handle" ∷ []) _ (
    then_field handle _ handle-Gives
      λ a p. ends_with IsValid (Message.fstat (record { handle = a })) p)
value-Gives MessageKind.setstat = deserialize_struct-Gives "SetStat" ("path" ∷ "attrs" ∷ []) _ (
    then_field path _ path-Gives λ a p.
      then_field attrs _ attrs-Gives
        λ b q. ends_with IsValid (Message.setstat (record { path = a; attrs = b })) (p, q))
value-Gives MessageKind.fsetstat = deserialize_struct-Gives "FSetStat" ("handle" ∷ "attrs" ∷ []) _ (
    then_field handle _ handle-Gives λ a p.
      then_field attrs _ attrs-Gives
        λ b q. ends_with IsValid (Message.fsetstat (record { handle = a; attrs = b })) (p, q))
value-Gives MessageKind.opendir = deserialize_struct-Gives "OpenDir" ("path" ∷ []) _ (
    then_field path _ path-Gives λ a p. ends_with IsValid (Message.opendir (record { path = a })) p)
value-Gives MessageKind.readdir = deserialize_struct-Gives "ReadDir" ("handle" ∷ []) _ (
    then_field handle _ handle-Gives
      λ a p. ends_with IsValid (Message.readdir (record { handle = a })) p)
value-Gives MessageKind.remove =
    deserialize_struct-Gives "Remove" ("path" ∷ []) _ (
      then_field path _ path-Gives
        λ a p. ends_with IsValid (Message.remove (record { path = a })) p)
value-Gives MessageKind.mkdir = deserialize_struct-Gives "MkDir" ("path" ∷ "attrs" ∷ []) _ (
    then_field path _ path-Gives λ a p.
      then_field attrs _ attrs-Gives
        λ b q. ends_with IsValid (Message.mkdir (record { path = a; attrs = b })) (p, q))
value-Gives MessageKind.rmdir =
    deserialize_struct-Gives "RmDir" ("path" ∷ []) _ (
      then_field path _ path-Gives λ a p. ends_with IsValid (Message.rmdir (record { path = a })) p)
value-Gives MessageKind.realpath = deserialize_struct-Gives "RealPath" ("path" ∷ []) _ (
    then_field path _ path-Gives
      λ a p. ends_with IsValid (Message.realpath (record { path = a })) p)
value-Gives MessageKind.stat =
    deserialize_struct-Gives "Stat" ("path" ∷ []) _
      (then_field path _ path-Gives λ a p. ends_with IsValid (Message.stat (record { path = a })) p)
value-Gives MessageKind.rename =
    deserialize_struct-Gives "Rename" ("old_path" ∷ "new_path" ∷ []) _ (
      then_field path _ path-Gives λ a p.
        then_field path _ path-Gives
          λ b q. ends_with IsValid (Message.rename (record { old_path = a; new_path = b })) (p, q))
value-Gives MessageKind.readlink = deserialize_struct-Gives "ReadLink" ("path" ∷ []) _ (
    then_field path _ path-Gives
      λ a p. ends_with IsValid (Message.readlink (record { path = a })) p)
value-Gives MessageKind.symlink =
    deserialize_struct-Gives "Symlink" ("link_path" ∷ "target_path" ∷ []) _ (
      then_field path _ path-Gives λ a p. then_field path _ path-Gives λ b q.
        ends_with IsValid (Message.symlink (record { link_path = a; target_path = b })) (p, q))
value-Gives MessageKind.status =
    deserialize_struct-Gives "Status" ("code" ∷ "error" ∷ "language" ∷ []) _ (
      then_field status_code _ status_code-Gives λ a p.
        then_field decode_str _ decode_str-Gives λ b q.
          then_field decode_str _ decode_str-Gives λ c r.
            ends_with IsValid (Message.status (record { code = a; error = b; language = c }))
              (q, r))
value-Gives MessageKind.handle =
    Gives-bind handle _ handle-Gives (λ m p. Gives-pure IsBuf IsValid (Message.handle m) p)
value-Gives MessageKind.content =
    Gives-bind content _ content-Gives (λ m p. Gives-pure IsBuf IsValid (Message.content m) p)
value-Gives MessageKind.name =
    Gives-bind name _ name-Gives (λ m p. Gives-pure IsBuf IsValid (Message.name m) p)
value-Gives MessageKind.attrs =
    Gives-bind attrs _ attrs-Gives (λ m p. Gives-pure IsBuf IsValid (Message.attrs m) p)
value-Gives MessageKind.extended =
    deserialize_struct-Gives "Extended" ("request" ∷ "data_implicit_length" ∷ []) _ (
      then_field decode_bytes _ decode_bytes-Gives λ a p.
        then_field decode_bytes _ decode_bytes-Gives
          λ b q. ends_with IsValid (Message.extended (record { request = a; payload = b })) (p, q))
value-Gives MessageKind.extended_reply =
    deserialize_struct-Gives "ExtendedReply" ("data_implicit_length" ∷ []) _ (
      then_field decode_bytes _ decode_bytes-Gives
        λ a p. ends_with IsValid (Message.extended_reply (record { payload = a })) p)
