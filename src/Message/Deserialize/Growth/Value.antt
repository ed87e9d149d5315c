-- ===== src/Message/Deserialize/Growth/Value.antt =====
-- Every kind of message, src/message/mod.rs, whose last field has its length in front, on a buffer that grows.
use rusftp.Prelude.{◌≡◌, refl, Bool, true, false, List, ℕ, [], ◌∷◌}
use rusftp.Wire.Field.{has_length}
use rusftp.Wire.Decoder.{decode_u32, decode_u64, decode_str}
use rusftp.Wire.Decoder.Growth.{
  Steady, Steady-pure, Steady-bind, grow, Every, decode_u32-Steady, decode_u64-Steady,
  decode_str-Steady,
}
use rusftp.Wire.Decoder.Growth.Visitors.{deserialize_struct-Steady}
use rusftp.Message.Types.{Message}
use rusftp.Message.Kind.{MessageKind}
use rusftp.Message.Deserialize.{path, handle, content, pflags, attrs, name, status_code, value}
use rusftp.Message.Deserialize.Growth.{
  then_field, then_counted, ends_with, path-Steady, handle-Steady, content-Steady, pflags-Steady,
  attrs-Steady, name-Steady, status_code-Steady,
}

-- The kinds whose messages say themselves where they end: all but those whose last field takes what is left.
unfoldable pub is_bounded : MessageKind → Bool
is_bounded MessageKind.init = false
is_bounded MessageKind.version = false
is_bounded MessageKind.extended = false
is_bounded MessageKind.extended_reply = false
is_bounded _ = true

module _ (x : List ℕ) where
  pub value-Steady : (k : MessageKind) → is_bounded k ≡ true → Steady (grow x) Every Every (value k)
  unfolding value is_bounded has_length
  value-Steady MessageKind.init bounded = cc bounded
  value-Steady MessageKind.version bounded = cc bounded
  value-Steady MessageKind.open_ bounded =
      deserialize_struct-Steady x "Open" ("filename" ∷ "pflags" ∷ "attrs" ∷ []) _ (
        then_field x path _ (path-Steady x) λ a.
          then_field x pflags _ (pflags-Steady x)
            λ b. then_field x attrs _ (attrs-Steady x) λ c. ends_with x _)
  value-Steady MessageKind.close bounded =
      deserialize_struct-Steady x "Close" ("handle" ∷ []) _
        (then_field x handle _ (handle-Steady x) λ a. ends_with x _)
  value-Steady MessageKind.read bounded =
      deserialize_struct-Steady x "Read" ("handle" ∷ "offset" ∷ "length" ∷ []) _ (
        then_field x handle _ (handle-Steady x) λ a.
          then_field x decode_u64 _ (decode_u64-Steady x)
            λ b. then_field x decode_u32 _ (decode_u32-Steady x) λ c. ends_with x _)
  value-Steady MessageKind.write bounded =
      deserialize_struct-Steady x "Write" ("handle" ∷ "offset" ∷ "data" ∷ []) _ (
        then_field x handle _ (handle-Steady x) λ a.
          then_field x decode_u64 _ (decode_u64-Steady x)
            λ b. then_field x content _ (content-Steady x) λ c. ends_with x _)
  value-Steady MessageKind.lstat bounded =
      deserialize_struct-Steady x "LStat" ("path" ∷ []) _
        (then_field x path _ (path-Steady x) λ a. ends_with x _)
  value-Steady MessageKind.fstat bounded =
      deserialize_struct-Steady x "FStat" ("handle" ∷ []) _
        (then_field x handle _ (handle-Steady x) λ a. ends_with x _)
  value-Steady MessageKind.setstat bounded =
      deserialize_struct-Steady x "SetStat" ("path" ∷ "attrs" ∷ []) _ (
        then_field x path _ (path-Steady x)
          λ a. then_field x attrs _ (attrs-Steady x) λ b. ends_with x _)
  value-Steady MessageKind.fsetstat bounded =
      deserialize_struct-Steady x "FSetStat" ("handle" ∷ "attrs" ∷ []) _ (
        then_field x handle _ (handle-Steady x)
          λ a. then_field x attrs _ (attrs-Steady x) λ b. ends_with x _)
  value-Steady MessageKind.opendir bounded =
      deserialize_struct-Steady x "OpenDir" ("path" ∷ []) _
        (then_field x path _ (path-Steady x) λ a. ends_with x _)
  value-Steady MessageKind.readdir bounded =
      deserialize_struct-Steady x "ReadDir" ("handle" ∷ []) _
        (then_field x handle _ (handle-Steady x) λ a. ends_with x _)
  value-Steady MessageKind.remove bounded =
      deserialize_struct-Steady x "Remove" ("path" ∷ []) _
        (then_field x path _ (path-Steady x) λ a. ends_with x _)
  value-Steady MessageKind.mkdir bounded =
      deserialize_struct-Steady x "MkDir" ("path" ∷ "attrs" ∷ []) _ (
        then_field x path _ (path-Steady x)
          λ a. then_field x attrs _ (attrs-Steady x) λ b. ends_with x _)
  value-Steady MessageKind.rmdir bounded =
      deserialize_struct-Steady x "RmDir" ("path" ∷ []) _
        (then_field x path _ (path-Steady x) λ a. ends_with x _)
  value-Steady MessageKind.realpath bounded =
      deserialize_struct-Steady x "RealPath" ("path" ∷ []) _
        (then_field x path _ (path-Steady x) λ a. ends_with x _)
  value-Steady MessageKind.stat bounded =
      deserialize_struct-Steady x "Stat" ("path" ∷ []) _
        (then_field x path _ (path-Steady x) λ a. ends_with x _)
  value-Steady MessageKind.rename bounded =
      deserialize_struct-Steady x "Rename" ("old_path" ∷ "new_path" ∷ []) _ (
        then_field x path _ (path-Steady x)
          λ a. then_field x path _ (path-Steady x) λ b. ends_with x _)
  value-Steady MessageKind.readlink bounded =
      deserialize_struct-Steady x "ReadLink" ("path" ∷ []) _
        (then_field x path _ (path-Steady x) λ a. ends_with x _)
  value-Steady MessageKind.symlink bounded =
      deserialize_struct-Steady x "Symlink" ("link_path" ∷ "target_path" ∷ []) _ (
        then_field x path _ (path-Steady x)
          λ a. then_field x path _ (path-Steady x) λ b. ends_with x _)
  value-Steady MessageKind.status bounded =
      deserialize_struct-Steady x "Status" ("code" ∷ "error" ∷ "language" ∷ []) _ (
        then_field x status_code _ (status_code-Steady x) λ a.
          then_counted x decode_str _ refl (decode_str-Steady x)
            λ b. then_counted x decode_str _ refl (decode_str-Steady x) λ c. ends_with x _)
  value-Steady MessageKind.handle bounded =
      Steady-bind handle _ (handle-Steady x) (λ m. Steady-pure (grow x) Every (Message.handle m))
  value-Steady MessageKind.content bounded =
      Steady-bind content _ (content-Steady x) (λ m. Steady-pure (grow x) Every (Message.content m))
  value-Steady MessageKind.name bounded =
      Steady-bind name _ (name-Steady x) (λ m. Steady-pure (grow x) Every (Message.name m))
  value-Steady MessageKind.attrs bounded =
      Steady-bind attrs _ (attrs-Steady x) (λ m. Steady-pure (grow x) Every (Message.attrs m))
  value-Steady MessageKind.extended bounded = cc bounded
  value-Steady MessageKind.extended_reply bounded = cc bounded
