-- ===== src/Client/Request.antt =====
-- The traits of src/client/request.rs and its table of requests, by the macro `request_impl!`.
pub mod Protocol
use rusftp.Prelude.{Bool, true, false, ok, err}
use rusftp.Message.Types.{
  Open, Close, Read, Write, LStat, FStat, SetStat, FSetStat, OpenDir, ReadDir, Remove, MkDir, RmDir,
  RealPath, Stat, Rename, ReadLink, Symlink, Extended, Handle, Data, Attrs, Name, ExtendedReply,
  Message,
}
use rusftp.Message.Kind.{MessageKind}
use rusftp.Client.Reply.{
  Reply, unit_reply, attrs_reply, data_reply, handle_reply, name_reply, extended_reply,
}
use rusftp.Client.Future.{SftpClient, SftpFuture, request_with}

-- `SftpRequest` at the request `R`, with `SftpReply` at its reply `A`.
pub record SftpRequest (R A : Type 0) : Type 0 where
  pub to_request_message : R → Reply Message
  pub from_reply_message : Message → Reply A

-- `SftpClient::request`
unfoldable pub request : {R A : Type 0} ⦃i : SftpRequest R A⦄ → SftpClient → R → SftpFuture A
request ⦃i⦄ c r = request_with c (i.to_request_message r) i.from_reply_message

instance abbrev pub message_request : SftpRequest Message Message
message_request = record { to_request_message = λ m. ok m; from_reply_message = λ m. ok m }

instance abbrev pub open_request : SftpRequest Open Handle
open_request = record {
  to_request_message = λ r. ok (Message.open_ r);
  from_reply_message = handle_reply;
}

instance abbrev pub close_request : SftpRequest Close (Unit {0})
close_request = record {
  to_request_message = λ r. ok (Message.close r);
  from_reply_message = unit_reply;
}

instance abbrev pub read_request : SftpRequest Read Data
read_request = record {
  to_request_message = λ r. ok (Message.read r);
  from_reply_message = data_reply;
}

instance abbrev pub write_request : SftpRequest Write (Unit {0})
write_request = record {
  to_request_message = λ r. ok (Message.write r);
  from_reply_message = unit_reply;
}

instance abbrev pub lstat_request : SftpRequest LStat Attrs
lstat_request = record {
  to_request_message = λ r. ok (Message.lstat r);
  from_reply_message = attrs_reply;
}

instance abbrev pub fstat_request : SftpRequest FStat Attrs
fstat_request = record {
  to_request_message = λ r. ok (Message.fstat r);
  from_reply_message = attrs_reply;
}

instance abbrev pub setstat_request : SftpRequest SetStat (Unit {0})
setstat_request = record {
  to_request_message = λ r. ok (Message.setstat r);
  from_reply_message = unit_reply;
}

instance abbrev pub fsetstat_request : SftpRequest FSetStat (Unit {0})
fsetstat_request = record {
  to_request_message = λ r. ok (Message.fsetstat r);
  from_reply_message = unit_reply;
}

instance abbrev pub opendir_request : SftpRequest OpenDir Handle
opendir_request = record {
  to_request_message = λ r. ok (Message.opendir r);
  from_reply_message = handle_reply;
}

instance abbrev pub readdir_request : SftpRequest ReadDir Name
readdir_request = record {
  to_request_message = λ r. ok (Message.readdir r);
  from_reply_message = name_reply;
}

instance abbrev pub remove_request : SftpRequest Remove (Unit {0})
remove_request = record {
  to_request_message = λ r. ok (Message.remove r);
  from_reply_message = unit_reply;
}

instance abbrev pub mkdir_request : SftpRequest MkDir (Unit {0})
mkdir_request = record {
  to_request_message = λ r. ok (Message.mkdir r);
  from_reply_message = unit_reply;
}

instance abbrev pub rmdir_request : SftpRequest RmDir (Unit {0})
rmdir_request = record {
  to_request_message = λ r. ok (Message.rmdir r);
  from_reply_message = unit_reply;
}

instance abbrev pub realpath_request : SftpRequest RealPath Name
realpath_request = record {
  to_request_message = λ r. ok (Message.realpath r);
  from_reply_message = name_reply;
}

instance abbrev pub stat_request : SftpRequest Stat Attrs
stat_request = record {
  to_request_message = λ r. ok (Message.stat r);
  from_reply_message = attrs_reply;
}

instance abbrev pub rename_request : SftpRequest Rename (Unit {0})
rename_request = record {
  to_request_message = λ r. ok (Message.rename r);
  from_reply_message = unit_reply;
}

instance abbrev pub readlink_request : SftpRequest ReadLink Name
readlink_request = record {
  to_request_message = λ r. ok (Message.readlink r);
  from_reply_message = name_reply;
}

instance abbrev pub symlink_request : SftpRequest Symlink (Unit {0})
symlink_request = record {
  to_request_message = λ r. ok (Message.symlink r);
  from_reply_message = unit_reply;
}

instance abbrev pub extended_request : SftpRequest Extended ExtendedReply
extended_request = record {
  to_request_message = λ r. ok (Message.extended r);
  from_reply_message = extended_reply;
}

-- Whether a reply is taken for a success by the request of a kind; the other kinds are no requests.
is_ok : {A : Type 0} → Reply A → Bool
is_ok (ok a) = true
is_ok (err e) = false

unfoldable pub is_accepted : MessageKind → Message → Bool
unfolding is_ok
is_accepted MessageKind.open_ m = is_ok (open_request.from_reply_message m)
is_accepted MessageKind.close m = is_ok (close_request.from_reply_message m)
is_accepted MessageKind.read m = is_ok (read_request.from_reply_message m)
is_accepted MessageKind.write m = is_ok (write_request.from_reply_message m)
is_accepted MessageKind.lstat m = is_ok (lstat_request.from_reply_message m)
is_accepted MessageKind.fstat m = is_ok (fstat_request.from_reply_message m)
is_accepted MessageKind.setstat m = is_ok (setstat_request.from_reply_message m)
is_accepted MessageKind.fsetstat m = is_ok (fsetstat_request.from_reply_message m)
is_accepted MessageKind.opendir m = is_ok (opendir_request.from_reply_message m)
is_accepted MessageKind.readdir m = is_ok (readdir_request.from_reply_message m)
is_accepted MessageKind.remove m = is_ok (remove_request.from_reply_message m)
is_accepted MessageKind.mkdir m = is_ok (mkdir_request.from_reply_message m)
is_accepted MessageKind.rmdir m = is_ok (rmdir_request.from_reply_message m)
is_accepted MessageKind.realpath m = is_ok (realpath_request.from_reply_message m)
is_accepted MessageKind.stat m = is_ok (stat_request.from_reply_message m)
is_accepted MessageKind.rename m = is_ok (rename_request.from_reply_message m)
is_accepted MessageKind.readlink m = is_ok (readlink_request.from_reply_message m)
is_accepted MessageKind.symlink m = is_ok (symlink_request.from_reply_message m)
is_accepted MessageKind.extended m = is_ok (extended_request.from_reply_message m)
is_accepted k m = false
