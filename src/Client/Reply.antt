-- ===== src/Client/Reply.antt =====
-- src/client/request.rs and src/client/commands.rs: which message a request sends, and what each
-- command makes of the reply.
pub mod Outcome
use rusftp.Prelude.{
  ℕ, ◌≡◌, refl, List, [], ◌∷◌, Option, none, some, Result, ok, err, and_then, String,
}
use rusftp.Message.Types.{
  Bytes, Handle, Data, FilePath, Attrs, Name, NameEntry, ExtendedReply, Status, StatusCode,
  status_ok, bad_message, Message,
}
use rusftp.Client.Error.{Error, sftp, text, to_status}

abbrev pub Reply : Type 0 → Type 0
Reply A = Result A Error

unfoldable pub bad : String → Error
bad msg = sftp (to_status bad_message (text msg))

-- `SftpReply for ()`
unfoldable pub unit_reply : Message → Reply (Unit {0})
unit_reply (Message.status s) = elim s.code [ status_ok ↦ ok tt | _ ↦ err (sftp s) ]
unit_reply m = err (bad "Expected a status")

-- The macro `reply_impl!`, at an output that `view` finds in the message.
unfoldable pub expected : {A : Type 0} → String → (Message → Option A) → Message → Reply A
expected expectation view m = elim (view m) [
  | some a ↦ ok a
  | none ↦ elim m [ Message.status s ↦ err (sftp s) | _ ↦ err (bad expectation) ]
]

unfoldable pub view_attrs : Message → Option Attrs
view_attrs (Message.attrs a) = some a
view_attrs m = none

unfoldable pub view_data : Message → Option Data
view_data (Message.content d) = some d
view_data m = none

unfoldable pub view_handle : Message → Option Handle
view_handle (Message.handle h) = some h
view_handle m = none

unfoldable pub view_name : Message → Option Name
view_name (Message.name n) = some n
view_name m = none

unfoldable pub view_extended : Message → Option ExtendedReply
view_extended (Message.extended_reply r) = some r
view_extended m = none

unfoldable pub attrs_reply : Message → Reply Attrs
attrs_reply = expected "Expected a Attrs or a Status" view_attrs

unfoldable pub data_reply : Message → Reply Data
data_reply = expected "Expected a Data or a Status" view_data

unfoldable pub handle_reply : Message → Reply Handle
handle_reply = expected "Expected a Handle or a Status" view_handle

unfoldable pub name_reply : Message → Reply Name
name_reply = expected "Expected a Name or a Status" view_name

unfoldable pub extended_reply : Message → Reply ExtendedReply
extended_reply = expected "Expected a ExtendedReply or a Status" view_extended

-- The callback of `SftpClient::read`.
unfoldable pub read_callback : Message → Reply Bytes
read_callback m = and_then (handle_reply m) (λ h. ok h.bytes)

-- The callback of `SftpClient::extended`.
unfoldable pub extended_callback : Message → Reply Bytes
extended_callback m = and_then (extended_reply m) (λ r. ok r.payload)

-- `extract_path_from_name_message`, the callback of `readlink` and `realpath`.
unfoldable pub single_path : List NameEntry → Reply FilePath
single_path [] = err (bad "No entry")
single_path (e ∷ []) = ok e.filename
single_path (e ∷ f ∷ rest) = err (bad "Multiple entries")

unfoldable pub path_callback : Message → Reply FilePath
path_callback m = and_then (name_reply m) (λ n. single_path n.entries)
