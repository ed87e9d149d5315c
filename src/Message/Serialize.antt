-- ===== src/Message/Serialize.antt =====
-- The `Serialize` implementations of src/message/*.rs: the derived ones, as the calls that
-- `#[derive(Serialize)]` makes, and the one that src/message/attrs.rs writes out.
pub mod Layout
pub mod Value
use Prim.Native.Nat.{bit_or}
use rusftp.Prelude.{ℕ, [], ◌∷◌, map, Option, none, some, length, pure, ◌>>◌}
use rusftp.Wire.Encoder.{
  Ser, serialize_u32, serialize_u64, serialize_bytes, serialize_str, serialize_none, serialize_some,
  serialize_unit_variant, serialize_newtype_struct, serialize_seq, serialize_map, serialize_tuple,
  serialize_elements, derived_struct, serialize_entry,
}
use rusftp.Message.Types.{
  Handle, Data, FilePath, Owner, Time, Permissions, PFlags, Attrs, Extensions, StatusCode,
  status_ok, eof, no_such_file, permission_denied, failure, bad_message, no_connection,
  connection_lost, op_unsupported, NameEntry, Name, Message,
}

unfoldable pub path : FilePath → Ser
path p = serialize_newtype_struct "Path" (serialize_str p.text)

unfoldable pub handle : Handle → Ser
handle h = serialize_newtype_struct "Handle" (serialize_bytes h.bytes)

unfoldable pub content : Data → Ser
content d = serialize_newtype_struct "Data" (serialize_bytes d.bytes)

unfoldable pub owner : Owner → Ser
owner o = derived_struct "Owner" (("uid", serialize_u32 o.uid) ∷ ("gid", serialize_u32 o.gid) ∷ [])

unfoldable pub time : Time → Ser
time t =
    derived_struct "Time" (("atime", serialize_u32 t.atime) ∷ ("mtime", serialize_u32 t.mtime) ∷ [])

-- A `bitflags!` type is a newtype of its bits.
unfoldable pub permissions : Permissions → Ser
permissions p = serialize_newtype_struct "Permisions" (serialize_u32 p.bits)

unfoldable pub pflags : PFlags → Ser
pflags p = serialize_newtype_struct "PFlags" (serialize_u32 p.bits)

unfoldable pub optional : {A : Type 0} → (A → Ser) → Option A → Ser
optional value none = serialize_none
optional value (some a) = serialize_some (value a)

-- `if field.is_some() { attr_flags |= bit }`
unfoldable pub add_flag : {A : Type 0} → Option A → ℕ → ℕ → ℕ
add_flag none bit flags = flags
add_flag (some a) bit flags = bit_or flags bit

unfoldable pub attr_flags : Attrs → ℕ
attr_flags a = add_flag a.time 8 (add_flag a.perms 4 (add_flag a.owner 2 (add_flag a.size 1 0)))

unfoldable pub attrs : Attrs → Ser
attrs a =
    serialize_tuple
    >> serialize_elements (
        serialize_newtype_struct "AttrFlags" (serialize_u32 (attr_flags a))
        ∷ optional serialize_u64 a.size
        ∷ optional owner a.owner
        ∷ optional permissions a.perms
        ∷ optional time a.time
        ∷ [])

-- The entries of a `BTreeMap<Bytes, Bytes>`.
unfoldable pub entries : Extensions → Ser
entries [] = pure tt
entries ((k, v) ∷ rest) = do serialize_entry (serialize_bytes k) (serialize_bytes v); entries rest

unfoldable pub extensions : Extensions → Ser
extensions m = serialize_map (some (length m)) >> entries m

unfoldable pub name_entry : NameEntry → Ser
name_entry e = derived_struct "NameEntry" (
    ("filename", path e.filename)
    ∷ ("long_name", serialize_bytes e.long_name)
    ∷ ("attrs", attrs e.attrs)
    ∷ [])

unfoldable pub name : Name → Ser
name n =
    serialize_newtype_struct "Name"
      (serialize_seq (some (length n.entries)) >> serialize_elements (map name_entry n.entries))

-- The place of a variant in the enum, which is its discriminant too.
unfoldable pub variant_index : StatusCode → ℕ
variant_index status_ok = 0
variant_index eof = 1
variant_index no_such_file = 2
variant_index permission_denied = 3
variant_index failure = 4
variant_index bad_message = 5
variant_index no_connection = 6
variant_index connection_lost = 7
variant_index op_unsupported = 8

unfoldable pub status_code : StatusCode → Ser
status_code c = serialize_unit_variant (variant_index c)

-- The value of a message: the arms `Message::$name(value) => state.serialize_element(value)?`.
unfoldable pub value : Message → Ser
value (Message.init m) = derived_struct "Init" (
    ("version", serialize_u32 m.version)
    ∷ ("extensions_implicit_length", extensions m.extensions)
    ∷ [])
value (Message.version m) = derived_struct "Version" (
    ("version", serialize_u32 m.version)
    ∷ ("extensions_implicit_length", extensions m.extensions)
    ∷ [])
value (Message.open_ m) =
    derived_struct "Open"
      (("filename", path m.filename) ∷ ("pflags", pflags m.pflags) ∷ ("attrs", attrs m.attrs) ∷ [])
value (Message.close m) = derived_struct "Close" (("handle", handle m.handle) ∷ [])
value (Message.read m) = derived_struct "Read" (
    ("handle", handle m.handle)
    ∷ ("offset", serialize_u64 m.offset)
    ∷ ("length", serialize_u32 m.length)
    ∷ [])
value (Message.write m) = derived_struct "Write" (
    ("handle", handle m.handle)
    ∷ ("offset", serialize_u64 m.offset)
    ∷ ("data", content m.payload)
    ∷ [])
value (Message.lstat m) = derived_struct "LStat" (("path", path m.path) ∷ [])
value (Message.fstat m) = derived_struct "FStat" (("handle", handle m.handle) ∷ [])
value (Message.setstat m) =
    derived_struct "SetStat" (("path", path m.path) ∷ ("attrs", attrs m.attrs) ∷ [])
value (Message.fsetstat m) =
    derived_struct "FSetStat" (("handle", handle m.handle) ∷ ("attrs", attrs m.attrs) ∷ [])
value (Message.opendir m) = derived_struct "OpenDir" (("path", path m.path) ∷ [])
value (Message.readdir m) = derived_struct "ReadDir" (("handle", handle m.handle) ∷ [])
value (Message.remove m) = derived_struct "Remove" (("path", path m.path) ∷ [])
value (Message.mkdir m) =
    derived_struct "MkDir" (("path", path m.path) ∷ ("attrs", attrs m.attrs) ∷ [])
value (Message.rmdir m) = derived_struct "RmDir" (("path", path m.path) ∷ [])
value (Message.realpath m) = derived_struct "RealPath" (("path", path m.path) ∷ [])
value (Message.stat m) = derived_struct "Stat" (("path", path m.path) ∷ [])
value (Message.rename m) =
    derived_struct "Rename" (("old_path", path m.old_path) ∷ ("new_path", path m.new_path) ∷ [])
value (Message.readlink m) = derived_struct "ReadLink" (("path", path m.path) ∷ [])
value (Message.symlink m) =
    derived_struct "Symlink"
      (("link_path", path m.link_path) ∷ ("target_path", path m.target_path) ∷ [])
value (Message.status m) = derived_struct "Status" (
    ("code", status_code m.code)
    ∷ ("error", serialize_str m.error)
    ∷ ("language", serialize_str m.language)
    ∷ [])
value (Message.handle m) = handle m
value (Message.content m) = content m
value (Message.name m) = name m
value (Message.attrs m) = attrs m
value (Message.extended m) = derived_struct "Extended" (
    ("request", serialize_bytes m.request)
    ∷ ("data_implicit_length", serialize_bytes m.payload)
    ∷ [])
value (Message.extended_reply m) =
    derived_struct "ExtendedReply" (("data_implicit_length", serialize_bytes m.payload) ∷ [])
