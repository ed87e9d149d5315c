-- ===== src/Message/Deserialize.antt =====
-- The `Deserialize` implementations of src/message/*.rs: the derived ones, as the calls that the
-- visitors of `#[derive(Deserialize)]` make, and the one that src/message/attrs.rs writes out.
pub mod Layout
pub mod Loops
pub mod Value
pub mod Bounds
pub mod Growth
pub mod Flags
pub mod Consumes
use Prim.Native.Nat.{bit_and}
use rusftp.Prelude.{
  ℕ, zero, suc, Bool, String, List, [], ◌∷◌, Option, none, some, length, not, ◌==◌, if◌then◌else◌,
  err, pure, ◌>>=◌,
}
use rusftp.Wire.Error.{
  Error, not_enough_data, custom, CustomText, invalid_length, invalid_attr, missing_field,
}
use rusftp.Wire.Decoder.{
  De, SeqM, decode_u32, decode_u64, decode_bytes, decode_str, deserialize_unit,
  deserialize_newtype_struct, deserialize_seq, deserialize_map, deserialize_tuple,
  deserialize_struct, next_element, next_entry, required, deserialize_unit_enum,
}
use rusftp.Message.Types.{
  Bytes, Handle, Data, FilePath, Owner, Time, Permissions, PFlags, Attrs, Extensions, StatusCode,
  status_ok, eof, no_such_file, permission_denied, failure, bad_message, no_connection,
  connection_lost, op_unsupported, NameEntry, Name, Message,
}
use rusftp.Message.Extensions.{insert}
use rusftp.Message.Kind.{MessageKind}

-- A field in a derived visitor.
abbrev pub field : {A : Type 0} → De A → SeqM A
field = required invalid_length

unfoldable pub path : De FilePath
path = deserialize_newtype_struct "Path" (decode_str >>= λ text. pure (record { text = text }))

unfoldable pub handle : De Handle
handle =
    deserialize_newtype_struct "Handle" (decode_bytes >>= λ bytes. pure (record { bytes = bytes }))

unfoldable pub content : De Data
content =
    deserialize_newtype_struct "Data" (decode_bytes >>= λ bytes. pure (record { bytes = bytes }))

unfoldable pub owner : De Owner
owner =
    deserialize_struct "Owner" ("uid" ∷ "gid" ∷ [])
      do uid ← field decode_u32; gid ← field decode_u32; pure (record { uid = uid; gid = gid })

unfoldable pub time : De Time
time = deserialize_struct "Time" ("atime" ∷ "mtime" ∷ []) do
  atime ← field decode_u32
  mtime ← field decode_u32
  pure (record { atime = atime; mtime = mtime })

-- `from_bits_retain`: unknown bits are kept.
unfoldable pub permissions : De Permissions
permissions =
    deserialize_newtype_struct "Permisions" (decode_u32 >>= λ bits. pure (record { bits = bits }))

unfoldable pub pflags : De PFlags
pflags = deserialize_newtype_struct "PFlags" (decode_u32 >>= λ bits. pure (record { bits = bits }))

-- `AttrFlags::from_bits`: none if there is an unknown bit.
unfoldable pub known_flags : ℕ → Bool
known_flags flags = bit_and flags 0xF == flags

-- `!(attr_flags & bit).is_empty()`
unfoldable pub has_flag : ℕ → ℕ → Bool
has_flag flags bit = not (bit_and flags bit == 0)

-- `if … { attrs.f = Some(next!(seq, "f")) } else { let () = next!(seq, "f") }`
unfoldable pub optional : {A : Type 0} → Bool → String → De A → SeqM (Option A)
optional here name seed =
    if here
    then (do a ← required (missing_field name) seed; pure (some a))
    else (do u ← required (missing_field name) deserialize_unit; pure none)

unfoldable pub attrs_fields : ℕ → SeqM Attrs
attrs_fields flags = do
  size ← optional (has_flag flags 1) "attr_size" decode_u64
  owns ← optional (has_flag flags 2) "attr_owner" owner
  perms ← optional (has_flag flags 4) "attr_perms" permissions
  times ← optional (has_flag flags 8) "attr_time" time
  pure (record { size = size; owner = owns; perms = perms; time = times })

unfoldable pub attrs_visitor : SeqM Attrs
attrs_visitor = do
  flags ← required (missing_field "attr_flags") decode_u32
  if known_flags flags then attrs_fields flags else λ s. err (custom invalid_attr)

unfoldable pub attrs : De Attrs
attrs = deserialize_tuple 5 attrs_visitor

-- `while let Some((key, value)) = map.next_entry()? { values.insert(key, value) }`. An entry takes
-- bytes from the buffer, so that its length bounds the rounds.
unfoldable pub entries_loop : ℕ → Extensions → SeqM Extensions
entries_loop zero m s = err not_enough_data
entries_loop (suc fuel) m s =
    (next_entry decode_bytes decode_bytes >>= λ o. elim o [
      | none ↦ pure m
      | some (k, v) ↦ entries_loop fuel (insert k v m)
    ])
      s

unfoldable pub extensions : De Extensions
extensions = deserialize_map (λ s. entries_loop (suc (length s.decoder.buf)) [] s)

unfoldable pub name_entry : De NameEntry
name_entry = deserialize_struct "NameEntry" ("filename" ∷ "long_name" ∷ "attrs" ∷ []) do
  filename ← field path
  long_name ← field decode_bytes
  a ← field attrs
  pure (record { filename = filename; long_name = long_name; attrs = a })

-- `while let Some(value) = seq.next_element()? { values.push(value) }`
unfoldable pub elements_loop : {A : Type 0} → De A → ℕ → SeqM (List A)
elements_loop seed zero s = err not_enough_data
elements_loop seed (suc fuel) s =
    (next_element seed >>= λ o. elim o [
      | none ↦ pure []
      | some a ↦ elements_loop seed fuel >>= λ l. pure (a ∷ l)
    ])
      s

unfoldable pub name : De Name
name = deserialize_newtype_struct "Name" (
    deserialize_seq (λ s. elements_loop name_entry (suc (length s.decoder.buf)) s) >>= λ entries.
    pure (record { entries = entries }))

unfoldable pub variant_of : ℕ → Option StatusCode
variant_of n =
    if n == 0
    then some status_ok
    else if n == 1
    then some eof
    else if n == 2
    then some no_such_file
    else if n == 3
    then some permission_denied
    else if n == 4
    then some failure
    else if n == 5
    then some bad_message
    else if n == 6
    then some no_connection
    else if n == 7
    then some connection_lost
    else if n == 8
    then some op_unsupported
    else none

unfoldable pub status_code : De StatusCode
status_code =
    deserialize_unit_enum "StatusCode"
      ("Ok" ∷ "Eof" ∷ "NoSuchFile" ∷ "PermissionDenied" ∷ "Failure" ∷ "BadMessage" ∷ "NoConnection"
        ∷ "ConnectionLost" ∷ "OpUnsupported" ∷ [])
      variant_of

-- The content of a message of each kind: `seq.next_element::<$name>()`, and the `into()` behind it.
unfoldable pub value : MessageKind → De Message
value MessageKind.init =
    deserialize_struct "Init" ("version" ∷ "extensions_implicit_length" ∷ []) do
      a ← field decode_u32
      b ← field extensions
      pure (Message.init (record { version = a; extensions = b }))
value MessageKind.version =
    deserialize_struct "Version" ("version" ∷ "extensions_implicit_length" ∷ []) do
      a ← field decode_u32
      b ← field extensions
      pure (Message.version (record { version = a; extensions = b }))
value MessageKind.open_ = deserialize_struct "Open" ("filename" ∷ "pflags" ∷ "attrs" ∷ []) do
  a ← field path
  b ← field pflags
  c ← field attrs
  pure (Message.open_ (record { filename = a; pflags = b; attrs = c }))
value MessageKind.close =
    deserialize_struct "Close" ("handle" ∷ [])
      do a ← field handle; pure (Message.close (record { handle = a }))
value MessageKind.read = deserialize_struct "Read" ("handle" ∷ "offset" ∷ "length" ∷ []) do
  a ← field handle
  b ← field decode_u64
  c ← field decode_u32
  pure (Message.read (record { handle = a; offset = b; length = c }))
value MessageKind.write = deserialize_struct "Write" ("handle" ∷ "offset" ∷ "data" ∷ []) do
  a ← field handle
  b ← field decode_u64
  c ← field content
  pure (Message.write (record { handle = a; offset = b; payload = c }))
value MessageKind.lstat =
    deserialize_struct "LStat" ("path" ∷ [])
      do a ← field path; pure (Message.lstat (record { path = a }))
value MessageKind.fstat =
    deserialize_struct "FStat" ("handle" ∷ [])
      do a ← field handle; pure (Message.fstat (record { handle = a }))
value MessageKind.setstat =
    deserialize_struct "SetStat" ("path" ∷ "attrs" ∷ [])
      do a ← field path; b ← field attrs; pure (Message.setstat (record { path = a; attrs = b }))
value MessageKind.fsetstat =
    deserialize_struct "FSetStat" ("handle" ∷ "attrs" ∷ []) do
      a ← field handle
      b ← field attrs
      pure (Message.fsetstat (record { handle = a; attrs = b }))
value MessageKind.opendir =
    deserialize_struct "OpenDir" ("path" ∷ [])
      do a ← field path; pure (Message.opendir (record { path = a }))
value MessageKind.readdir =
    deserialize_struct "ReadDir" ("handle" ∷ [])
      do a ← field handle; pure (Message.readdir (record { handle = a }))
value MessageKind.remove =
    deserialize_struct "Remove" ("path" ∷ [])
      do a ← field path; pure (Message.remove (record { path = a }))
value MessageKind.mkdir =
    deserialize_struct "MkDir" ("path" ∷ "attrs" ∷ [])
      do a ← field path; b ← field attrs; pure (Message.mkdir (record { path = a; attrs = b }))
value MessageKind.rmdir =
    deserialize_struct "RmDir" ("path" ∷ [])
      do a ← field path; pure (Message.rmdir (record { path = a }))
value MessageKind.realpath =
    deserialize_struct "RealPath" ("path" ∷ [])
      do a ← field path; pure (Message.realpath (record { path = a }))
value MessageKind.stat =
    deserialize_struct "Stat" ("path" ∷ [])
      do a ← field path; pure (Message.stat (record { path = a }))
value MessageKind.rename =
    deserialize_struct "Rename" ("old_path" ∷ "new_path" ∷ []) do
      a ← field path
      b ← field path
      pure (Message.rename (record { old_path = a; new_path = b }))
value MessageKind.readlink =
    deserialize_struct "ReadLink" ("path" ∷ [])
      do a ← field path; pure (Message.readlink (record { path = a }))
value MessageKind.symlink = deserialize_struct "Symlink" ("link_path" ∷ "target_path" ∷ []) do
  a ← field path
  b ← field path
  pure (Message.symlink (record { link_path = a; target_path = b }))
value MessageKind.status = deserialize_struct "Status" ("code" ∷ "error" ∷ "language" ∷ []) do
  a ← field status_code
  b ← field decode_str
  c ← field decode_str
  pure (Message.status (record { code = a; error = b; language = c }))
value MessageKind.handle = handle >>= λ m. pure (Message.handle m)
value MessageKind.content = content >>= λ m. pure (Message.content m)
value MessageKind.name = name >>= λ m. pure (Message.name m)
value MessageKind.attrs = attrs >>= λ m. pure (Message.attrs m)
value MessageKind.extended =
    deserialize_struct "Extended" ("request" ∷ "data_implicit_length" ∷ []) do
      a ← field decode_bytes
      b ← field decode_bytes
      pure (Message.extended (record { request = a; payload = b }))
value MessageKind.extended_reply =
    deserialize_struct "ExtendedReply" ("data_implicit_length" ∷ [])
      do a ← field decode_bytes; pure (Message.extended_reply (record { payload = a }))
