-- ===== src/Client/Commands.antt =====
-- src/client/commands.rs: the commands of the client. The conversions of arguments by `into` change
-- nothing of the model's values.
pub mod Readdir
use rusftp.Prelude.{ℕ, zero, suc, [], ◌++◌, List, Option, none, some, Result, ok, err, and_then}
use rusftp.Message.Types.{
  Bytes, Open, Close, Read, Write, LStat, FStat, SetStat, FSetStat, OpenDir, ReadDir, Remove, MkDir,
  RmDir, RealPath, Stat, Rename, ReadLink, Symlink, Extended, Handle, Data, FilePath, Attrs,
  no_attrs, PFlags, Name, NameEntry, Message, StatusCode, eof, Status,
}
use rusftp.Client.Error.{sftp}
use rusftp.Client.Reply.{
  Reply, handle_reply, read_callback, extended_callback, path_callback, name_reply, unit_reply,
}
use rusftp.Client.Future.{SftpClient, SftpFuture, Slot, Poll, ready, poll, request_with}
use rusftp.Client.Request.{
  SftpRequest, request, open_request, close_request, read_request, write_request, lstat_request,
  fstat_request, setstat_request, fsetstat_request, opendir_request, readdir_request,
  remove_request, mkdir_request, rmdir_request, realpath_request, stat_request, rename_request,
  readlink_request, symlink_request, extended_request,
}
use rusftp.Client.File.{File, new_file}
use rusftp.Client.Dir.{Dir, new_dir}

unfoldable pub close : SftpClient → Handle → SftpFuture (Unit {0})
close c handle = request {R = Close} c (record { handle = handle })

unfoldable pub extended : SftpClient → Bytes → Bytes → SftpFuture Bytes
extended c name payload =
    request_with c
      (extended_request.to_request_message (record { request = name; payload = payload }))
      extended_callback

unfoldable pub fsetstat : SftpClient → Handle → Attrs → SftpFuture (Unit {0})
fsetstat c handle attrs = request {R = FSetStat} c (record { handle = handle; attrs = attrs })

unfoldable pub fstat : SftpClient → Handle → SftpFuture Attrs
fstat c handle = request {R = FStat} c (record { handle = handle })

unfoldable pub lstat : SftpClient → FilePath → SftpFuture Attrs
lstat c path = request {R = LStat} c (record { path = path })

unfoldable pub mkdir_with_attrs : SftpClient → FilePath → Attrs → SftpFuture (Unit {0})
mkdir_with_attrs c path attrs = request {R = MkDir} c (record { path = path; attrs = attrs })

unfoldable pub mkdir : SftpClient → FilePath → SftpFuture (Unit {0})
unfolding mkdir_with_attrs
mkdir c path = mkdir_with_attrs c path no_attrs

unfoldable pub open_handle : SftpClient → FilePath → PFlags → Attrs → SftpFuture Handle
open_handle c filename pflags attrs =
    request {R = Open} c (record { filename = filename; pflags = pflags; attrs = attrs })

unfoldable pub open_with_flags_attrs : SftpClient → FilePath → PFlags → Attrs → SftpFuture File
open_with_flags_attrs c filename pflags attrs =
    request_with c
      (open_request.to_request_message
        (record { filename = filename; pflags = pflags; attrs = attrs }))
      (λ m. and_then (handle_reply m) (λ h. ok (new_file c h)))

abbrev pub no_flags : PFlags
no_flags = record { bits = 0 }

unfoldable pub open_with_flags : SftpClient → FilePath → PFlags → SftpFuture File
unfolding open_with_flags_attrs
open_with_flags c filename pflags = open_with_flags_attrs c filename pflags no_attrs

unfoldable pub open_with_attrs : SftpClient → FilePath → Attrs → SftpFuture File
unfolding open_with_flags_attrs
open_with_attrs c filename attrs = open_with_flags_attrs c filename no_flags attrs

unfoldable pub open_ : SftpClient → FilePath → SftpFuture File
unfolding open_with_flags_attrs
open_ c filename = open_with_flags_attrs c filename no_flags no_attrs

unfoldable pub opendir_handle : SftpClient → FilePath → SftpFuture Handle
opendir_handle c path = request {R = OpenDir} c (record { path = path })

unfoldable pub opendir : SftpClient → FilePath → SftpFuture Dir
opendir c path =
    request_with c (opendir_request.to_request_message (record { path = path }))
      (λ m. and_then (handle_reply m) (λ h. ok (new_dir c h)))

unfoldable pub read : SftpClient → Handle → ℕ → ℕ → SftpFuture Bytes
read c handle offset length =
    request_with c
      (read_request.to_request_message
        (record { handle = handle; offset = offset; length = length }))
      read_callback

unfoldable pub readdir_handle : SftpClient → Handle → SftpFuture Name
readdir_handle c handle = request {R = ReadDir} c (record { handle = handle })

unfoldable pub readlink : SftpClient → FilePath → SftpFuture FilePath
readlink c path =
    request_with c (readlink_request.to_request_message (record { path = path })) path_callback

unfoldable pub realpath : SftpClient → FilePath → SftpFuture FilePath
realpath c path =
    request_with c (realpath_request.to_request_message (record { path = path })) path_callback

unfoldable pub remove : SftpClient → FilePath → SftpFuture (Unit {0})
remove c path = request {R = Remove} c (record { path = path })

unfoldable pub rename : SftpClient → FilePath → FilePath → SftpFuture (Unit {0})
rename c old_path new_path =
    request {R = Rename} c (record { old_path = old_path; new_path = new_path })

unfoldable pub rmdir : SftpClient → FilePath → SftpFuture (Unit {0})
rmdir c path = request {R = RmDir} c (record { path = path })

unfoldable pub setstat : SftpClient → FilePath → Attrs → SftpFuture (Unit {0})
setstat c path attrs = request {R = SetStat} c (record { path = path; attrs = attrs })

unfoldable pub stat : SftpClient → FilePath → SftpFuture Attrs
stat c path = request {R = Stat} c (record { path = path })

unfoldable pub symlink : SftpClient → FilePath → FilePath → SftpFuture (Unit {0})
symlink c link_path target_path =
    request {R = Symlink} c (record { link_path = link_path; target_path = target_path })

unfoldable pub write : SftpClient → Handle → ℕ → Data → SftpFuture (Unit {0})
write c handle offset payload =
    request {R = Write} c (record { handle = handle; offset = offset; payload = payload })
