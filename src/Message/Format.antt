-- ===== src/Message/Format.antt =====
-- The layout of a packet in version 3 of the protocol, for the messages of src/message/: the reference
-- that the encoder and the decoder are held to, written without them. It is not that of the comment
-- "SFTP protocol frame" of src/message/mod.rs in one point: attributes follow the path or the handle
-- at once in SETSTAT, FSETSTAT and MKDIR, where that comment has `u32: attrs length` in between.
-- It has no attributes with the flag EXTENDED (0x80000000), which `Attrs` cannot hold, and it writes
-- extensions in the order of the list.
use rusftp.Prelude.{ℕ, ◌+◌, [], ◌∷◌, ◌++◌, map, Option, none, some, length, concat}
use rusftp.Wire.Bytes.{put_be}
use rusftp.Message.Types.{
  Bytes, FilePath, Owner, Time, Permissions, Attrs, Extensions, StatusCode, status_ok, eof,
  no_such_file, permission_denied, failure, bad_message, no_connection, connection_lost,
  op_unsupported, NameEntry, Message,
}

abbrev pub u8 : ℕ → Bytes
u8 = put_be 1

abbrev pub u32 : ℕ → Bytes
u32 = put_be 4

abbrev pub u64 : ℕ → Bytes
u64 = put_be 8

-- A string: its length, and its bytes.
abbrev pub string : Bytes → Bytes
string s = u32 (length s) ++ s

abbrev pub path : FilePath → Bytes
path p = string p.text

abbrev pub optional : {A : Type 0} → (A → Bytes) → Option A → Bytes
optional layout none = []
optional layout (some a) = layout a

abbrev pub flag : {A : Type 0} → ℕ → Option A → ℕ
flag bit none = 0
flag bit (some a) = bit

-- | u32: attr flags | u64: size | u32: uid | u32: gid | u32: perms | u32: atime | u32: mtime |
pub attr_flags : Attrs → ℕ
attr_flags a = flag 1 a.size + flag 2 a.owner + flag 4 a.perms + flag 8 a.time

abbrev pub owner : Owner → Bytes
owner o = concat (u32 o.uid ∷ u32 o.gid ∷ [])

abbrev pub time : Time → Bytes
time t = concat (u32 t.atime ∷ u32 t.mtime ∷ [])

abbrev pub permissions : Permissions → Bytes
permissions p = u32 p.bits

unfoldable pub attributes : Attrs → Bytes
unfolding attr_flags
attributes a = concat (
    u32 (attr_flags a)
    ∷ optional u64 a.size
    ∷ optional owner a.owner
    ∷ optional permissions a.perms
    ∷ optional time a.time
    ∷ [])

-- Extensions are pairs of strings up to the end of the packet.
unfoldable pub extensions : Extensions → Bytes
extensions [] = []
extensions ((k, v) ∷ rest) = string k ++ (string v ++ extensions rest)

abbrev pub entry : NameEntry → Bytes
entry e = concat (path e.filename ∷ string e.long_name ∷ attributes e.attrs ∷ [])

unfoldable pub status_number : StatusCode → ℕ
status_number status_ok = 0
status_number eof = 1
status_number no_such_file = 2
status_number permission_denied = 3
status_number failure = 4
status_number bad_message = 5
status_number no_connection = 6
status_number connection_lost = 7
status_number op_unsupported = 8

-- The part of a packet behind the type and the id, field by field.
unfoldable pub body : Message → Bytes
body (Message.init m) = concat (u32 m.version ∷ extensions m.extensions ∷ [])
body (Message.version m) = concat (u32 m.version ∷ extensions m.extensions ∷ [])
body (Message.open_ m) = concat (path m.filename ∷ u32 m.pflags.bits ∷ attributes m.attrs ∷ [])
body (Message.close m) = concat (string m.handle.bytes ∷ [])
body (Message.read m) = concat (string m.handle.bytes ∷ u64 m.offset ∷ u32 m.length ∷ [])
body (Message.write m) = concat (string m.handle.bytes ∷ u64 m.offset ∷ string m.payload.bytes ∷ [])
body (Message.lstat m) = concat (path m.path ∷ [])
body (Message.fstat m) = concat (string m.handle.bytes ∷ [])
body (Message.setstat m) = concat (path m.path ∷ attributes m.attrs ∷ [])
body (Message.fsetstat m) = concat (string m.handle.bytes ∷ attributes m.attrs ∷ [])
body (Message.opendir m) = concat (path m.path ∷ [])
body (Message.readdir m) = concat (string m.handle.bytes ∷ [])
body (Message.remove m) = concat (path m.path ∷ [])
body (Message.mkdir m) = concat (path m.path ∷ attributes m.attrs ∷ [])
body (Message.rmdir m) = concat (path m.path ∷ [])
body (Message.realpath m) = concat (path m.path ∷ [])
body (Message.stat m) = concat (path m.path ∷ [])
body (Message.rename m) = concat (path m.old_path ∷ path m.new_path ∷ [])
body (Message.readlink m) = concat (path m.path ∷ [])
body (Message.symlink m) = concat (path m.link_path ∷ path m.target_path ∷ [])
body (Message.status m) =
    concat (u32 (status_number m.code) ∷ string m.error ∷ string m.language ∷ [])
body (Message.handle m) = string m.bytes
body (Message.content m) = string m.bytes
body (Message.name m) = u32 (length m.entries) ++ concat (map entry m.entries)
body (Message.attrs m) = attributes m
body (Message.extended m) = concat (string m.request ∷ m.payload ∷ [])
body (Message.extended_reply m) = concat (m.payload ∷ [])

-- The type of a packet: SSH_FXP_INIT is 1, and so on.
unfoldable pub packet_type : Message → ℕ
packet_type (Message.init m) = 1
packet_type (Message.version m) = 2
packet_type (Message.open_ m) = 3
packet_type (Message.close m) = 4
packet_type (Message.read m) = 5
packet_type (Message.write m) = 6
packet_type (Message.lstat m) = 7
packet_type (Message.fstat m) = 8
packet_type (Message.setstat m) = 9
packet_type (Message.fsetstat m) = 10
packet_type (Message.opendir m) = 11
packet_type (Message.readdir m) = 12
packet_type (Message.remove m) = 13
packet_type (Message.mkdir m) = 14
packet_type (Message.rmdir m) = 15
packet_type (Message.realpath m) = 16
packet_type (Message.stat m) = 17
packet_type (Message.rename m) = 18
packet_type (Message.readlink m) = 19
packet_type (Message.symlink m) = 20
packet_type (Message.status m) = 101
packet_type (Message.handle m) = 102
packet_type (Message.content m) = 103
packet_type (Message.name m) = 104
packet_type (Message.attrs m) = 105
packet_type (Message.extended m) = 200
packet_type (Message.extended_reply m) = 201

-- INIT and VERSION have no id.
unfoldable pub packet_id : ℕ → Message → Bytes
packet_id id (Message.init m) = []
packet_id id (Message.version m) = []
packet_id id m = u32 id

-- A packet without the length of the frame …
unfoldable pub packet : ℕ → Message → Bytes
packet id m = concat (u8 (packet_type m) ∷ packet_id id m ∷ body m ∷ [])

-- … and the frame.
unfoldable pub frame : ℕ → Message → Bytes
unfolding packet
frame id m = string (packet id m)
