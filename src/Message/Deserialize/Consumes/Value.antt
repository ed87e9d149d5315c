-- ===== src/Message/Deserialize/Consumes/Value.antt =====
-- Every kind of message, src/message/mod.rs, whose last field has its length in front: the bytes taken are the
-- body of the message that is given, of this kind.
use rusftp.Prelude.{◌≡◌, refl, true, false, [], ◌∷◌, concat}
use rusftp.Wire.Field.{has_length}
use rusftp.Wire.Decoder.{decode_u32, decode_u64, decode_bytes, decode_str}
use rusftp.Wire.Decoder.Growth.{Every}
use rusftp.Wire.Decoder.Bounds.{Gives, IsBuf, decode_u32-Gives, decode_bytes-Gives}
use rusftp.Wire.Decoder.Bounds.Sequences.{deserialize_struct-Gives}
use rusftp.Wire.Decoder.Consumes.{
  Takes, Consumes-map, decode_u32-Takes, decode_u64-Takes, decode_str-Takes,
}
use rusftp.Wire.Decoder.Consumes.Sequences.{deserialize_struct-Takes}
use rusftp.Message.Types.{Bytes, Handle, Data, PFlags, Message}
use rusftp.Message.Kind.{MessageKind, kind}
use rusftp.Message.Format
use rusftp.Message.Deserialize.{
  path, handle, content, pflags, attrs, extensions, name, status_code, value,
}
use rusftp.Message.Deserialize.Bounds as Bounds
use rusftp.Message.Deserialize.Growth.Value.{is_bounded}
use rusftp.Message.Deserialize.Consumes.{
  then_field, then_counted, ends_with, path-Takes, handle-Takes, content-Takes, pflags-Takes,
  attrs-Takes,
}
use rusftp.Message.Deserialize.Consumes.Lists.{name-Takes, status_code-Takes}

abbrev pub IsBody : MessageKind → Message → Bytes → Type 0
IsBody k m bs = (bs ≡ Format.body m) × (kind m ≡ k)

pub value-Takes : (k : MessageKind) → is_bounded k ≡ true → Takes Every (IsBody k) (value k)
unfolding value is_bounded has_length Format.body concat kind
value-Takes MessageKind.init bounded = cc bounded
value-Takes MessageKind.version bounded = cc bounded
value-Takes MessageKind.open_ bounded =
    deserialize_struct-Takes _ "Open" ("filename" ∷ "pflags" ∷ "attrs" ∷ []) (
      then_field Format.path _ path _ path-Takes λ a.
        then_field (λ (p : PFlags). Format.u32 p.bits) _ pflags _ pflags-Takes
          λ b. then_field Format.attributes _ attrs _ attrs-Takes λ c.
            ends_with _ _ (Message.open_ (record { filename = a; pflags = b; attrs = c }))
              (refl, refl))
value-Takes MessageKind.close bounded = deserialize_struct-Takes _ "Close" ("handle" ∷ []) (
    then_field (λ (h : Handle). Format.string h.bytes) _ handle _ handle-Takes
      λ a. ends_with _ _ (Message.close (record { handle = a })) (refl, refl))
value-Takes MessageKind.read bounded =
    deserialize_struct-Takes _ "Read" ("handle" ∷ "offset" ∷ "length" ∷ []) (
      then_field (λ (h : Handle). Format.string h.bytes) _ handle _ handle-Takes
        λ a. then_field Format.u64 _ decode_u64 _ decode_u64-Takes λ b.
          then_field Format.u32 _ decode_u32 _ decode_u32-Takes λ c.
            ends_with _ _ (Message.read (record { handle = a; offset = b; length = c }))
              (refl, refl))
value-Takes MessageKind.write bounded =
    deserialize_struct-Takes _ "Write" ("handle" ∷ "offset" ∷ "data" ∷ []) (
      then_field (λ (h : Handle). Format.string h.bytes) _ handle _ handle-Takes
        λ a. then_field Format.u64 _ decode_u64 _ decode_u64-Takes λ b.
          then_field (λ (h : Data). Format.string h.bytes) _ content _ content-Takes
            λ c.
              ends_with _ _ (Message.write (record { handle = a; offset = b; payload = c }))
                (refl, refl))
value-Takes MessageKind.lstat bounded = deserialize_struct-Takes _ "LStat" ("path" ∷ []) (
    then_field Format.path _ path _ path-Takes
      λ a. ends_with _ _ (Message.lstat (record { path = a })) (refl, refl))
value-Takes MessageKind.fstat bounded = deserialize_struct-Takes _ "FStat" ("handle" ∷ []) (
    then_field (λ (h : Handle). Format.string h.bytes) _ handle _ handle-Takes
      λ a. ends_with _ _ (Message.fstat (record { handle = a })) (refl, refl))
value-Takes MessageKind.setstat bounded =
    deserialize_struct-Takes _ "SetStat" ("path" ∷ "attrs" ∷ []) (
      then_field Format.path _ path _ path-Takes λ a.
        then_field Format.attributes _ attrs _ attrs-Takes
          λ b. ends_with _ _ (Message.setstat (record { path = a; attrs = b })) (refl, refl))
value-Takes MessageKind.fsetstat bounded =
    deserialize_struct-Takes _ "FSetStat" ("handle" ∷ "attrs" ∷ []) (
      then_field (λ (h : Handle). Format.string h.bytes) _ handle _ handle-Takes
        λ a.
          then_field Format.attributes _ attrs _ attrs-Takes
            λ b. ends_with _ _ (Message.fsetstat (record { handle = a; attrs = b })) (refl, refl))
value-Takes MessageKind.opendir bounded = deserialize_struct-Takes _ "OpenDir" ("path" ∷ []) (
    then_field Format.path _ path _ path-Takes
      λ a. ends_with _ _ (Message.opendir (record { path = a })) (refl, refl))
value-Takes MessageKind.readdir bounded = deserialize_struct-Takes _ "ReadDir" ("handle" ∷ []) (
    then_field (λ (h : Handle). Format.string h.bytes) _ handle _ handle-Takes
      λ a. ends_with _ _ (Message.readdir (record { handle = a })) (refl, refl))
value-Takes MessageKind.remove bounded = deserialize_struct-Takes _ "Remove" ("path" ∷ []) (
    then_field Format.path _ path _ path-Takes
      λ a. ends_with _ _ (Message.remove (record { path = a })) (refl, refl))
value-Takes MessageKind.mkdir bounded = deserialize_struct-Takes _ "MkDir" ("path" ∷ "attrs" ∷ []) (
    then_field Format.path _ path _ path-Takes λ a.
      then_field Format.attributes _ attrs _ attrs-Takes
        λ b. ends_with _ _ (Message.mkdir (record { path = a; attrs = b })) (refl, refl))
value-Takes MessageKind.rmdir bounded = deserialize_struct-Takes _ "RmDir" ("path" ∷ []) (
    then_field Format.path _ path _ path-Takes
      λ a. ends_with _ _ (Message.rmdir (record { path = a })) (refl, refl))
value-Takes MessageKind.realpath bounded = deserialize_struct-Takes _ "RealPath" ("path" ∷ []) (
    then_field Format.path _ path _ path-Takes
      λ a. ends_with _ _ (Message.realpath (record { path = a })) (refl, refl))
value-Takes MessageKind.stat bounded = deserialize_struct-Takes _ "Stat" ("path" ∷ []) (
    then_field Format.path _ path _ path-Takes
      λ a. ends_with _ _ (Message.stat (record { path = a })) (refl, refl))
value-Takes MessageKind.rename bounded =
    deserialize_struct-Takes _ "Rename" ("old_path" ∷ "new_path" ∷ []) (
      then_field Format.path _ path _ path-Takes λ a.
        then_field Format.path _ path _ path-Takes
          λ b. ends_with _ _ (Message.rename (record { old_path = a; new_path = b })) (refl, refl))
value-Takes MessageKind.readlink bounded = deserialize_struct-Takes _ "ReadLink" ("path" ∷ []) (
    then_field Format.path _ path _ path-Takes
      λ a. ends_with _ _ (Message.readlink (record { path = a })) (refl, refl))
value-Takes MessageKind.symlink bounded =
    deserialize_struct-Takes _ "Symlink" ("link_path" ∷ "target_path" ∷ []) (
      then_field Format.path _ path _ path-Takes λ a.
        then_field Format.path _ path _ path-Takes λ b.
          ends_with _ _ (Message.symlink (record { link_path = a; target_path = b })) (refl, refl))
value-Takes MessageKind.status bounded =
    deserialize_struct-Takes _ "Status" ("code" ∷ "error" ∷ "language" ∷ []) (
      then_field (λ c. Format.u32 (Format.status_number c)) _ status_code _ status_code-Takes
        λ a. then_counted Format.string _ decode_str _ refl decode_str-Takes λ b.
          then_counted Format.string _ decode_str _ refl decode_str-Takes λ c.
            ends_with _ _ (Message.status (record { code = a; error = b; language = c }))
              (refl, refl))
value-Takes MessageKind.handle bounded =
    Consumes-map (IsBody MessageKind.handle) handle _ handle-Takes (λ m bs r. (r, refl))
value-Takes MessageKind.content bounded =
    Consumes-map (IsBody MessageKind.content) content _ content-Takes (λ m bs r. (r, refl))
value-Takes MessageKind.name bounded =
    Consumes-map (IsBody MessageKind.name) name _ name-Takes (λ m bs r. (r, refl))
value-Takes MessageKind.attrs bounded =
    Consumes-map (IsBody MessageKind.attrs) attrs _ attrs-Takes (λ m bs r. (r, refl))
value-Takes MessageKind.extended bounded = cc bounded
value-Takes MessageKind.extended_reply bounded = cc bounded

-- The other kinds give messages of their kind, too.
pub unbounded-kind :
    (k : MessageKind) → is_bounded k ≡ false → Gives IsBuf (λ m. kind m ≡ k) (value k)
unfolding value is_bounded kind
unbounded-kind MessageKind.init h =
    deserialize_struct-Gives "Init" ("version" ∷ "extensions_implicit_length" ∷ []) _ (
      Bounds.then_field decode_u32 _ decode_u32-Gives λ a p.
        Bounds.then_field extensions _ Bounds.extensions-Gives λ b q.
          Bounds.ends_with (λ m. kind m ≡ MessageKind.init)
            (Message.init (record { version = a; extensions = b })) refl)
unbounded-kind MessageKind.version h =
    deserialize_struct-Gives "Version" ("version" ∷ "extensions_implicit_length" ∷ []) _ (
      Bounds.then_field decode_u32 _ decode_u32-Gives λ a p.
        Bounds.then_field extensions _ Bounds.extensions-Gives λ b q.
          Bounds.ends_with (λ m. kind m ≡ MessageKind.version)
            (Message.version (record { version = a; extensions = b })) refl)
unbounded-kind MessageKind.extended h =
    deserialize_struct-Gives "Extended" ("request" ∷ "data_implicit_length" ∷ []) _ (
      Bounds.then_field decode_bytes _ decode_bytes-Gives λ a p.
        Bounds.then_field decode_bytes _ decode_bytes-Gives λ b q.
          Bounds.ends_with (λ m. kind m ≡ MessageKind.extended)
            (Message.extended (record { request = a; payload = b })) refl)
unbounded-kind MessageKind.extended_reply h =
    deserialize_struct-Gives "ExtendedReply" ("data_implicit_length" ∷ []) _ (
      Bounds.then_field decode_bytes _ decode_bytes-Gives λ a p.
        Bounds.ends_with (λ m. kind m ≡ MessageKind.extended_reply)
          (Message.extended_reply (record { payload = a })) refl)
unbounded-kind _ h = cc h
