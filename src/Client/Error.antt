-- ===== src/Client/Error.antt =====
-- src/client/error.rs, and how src/message/status.rs makes and prints a status.
use Prim.Native.Char.{code}
use rusftp.Prelude.{String, [], ◌∷◌, ◌++◌, ◌==◌, length, if◌then◌else◌}
use rusftp.Wire
use rusftp.Message.Types.{
  Bytes, Status, StatusCode, status_ok, eof, no_such_file, permission_denied, failure, bad_message,
  no_connection, connection_lost, op_unsupported,
}
use rusftp.Message.Decode.{DecodeError}

-- The bytes of an ASCII text.
abbrev pub text : String → Bytes
text String.[] = []
text (String.◌∷◌ c s) = code c ∷ text s

-- The kinds of `std::io::ErrorKind` that the client makes or looks at.
pub data IoKind : Type 0 where
  not_found io_permission_denied connection_reset broken_pipe would_block invalid_data timed_out :
      IoKind
  write_zero interrupted io_unsupported unexpected_eof out_of_memory other : IoKind

-- `russh::Error`, a type of a library: the variant `IO`, which the client looks for, and any other by
-- the text that it prints.
pub data SshError : Type 0 where
  ssh_io : IoKind → Bytes → SshError
  ssh_other : Bytes → SshError

pub data Error : Type 0 where
  sftp : Status → Error
  wire_format : Wire.Error.Error → Error
  ssh : SshError → Error
  io : IoKind → Bytes → Error

-- `From<russh::Error> for Error`
unfoldable pub of_ssh_error : SshError → Error
of_ssh_error (ssh_io k msg) = io k msg
of_ssh_error (ssh_other msg) = ssh (ssh_other msg)

-- `From<DecodeError> for Error`
unfoldable pub of_decode_error : DecodeError → Error
of_decode_error e = wire_format e.inner

-- `Display` of a status code
unfoldable pub display : StatusCode → Bytes
display status_ok = text "Ok"
display eof = text "Eof"
display no_such_file = text "NoSuchFile"
display permission_denied = text "PermissionDenied"
display failure = text "Failure"
display bad_message = text "BadMessage"
display no_connection = text "NoConnection"
display connection_lost = text "ConnectionLost"
display op_unsupported = text "OpUnsupported"

-- `Display` of a status, where `from_utf8_lossy` is `String::from_utf8_lossy`.
unfoldable pub display_status : (Bytes → Bytes) → Status → Bytes
unfolding display
display_status from_utf8_lossy s =
    if length s.error == 0
    then display s.code
    else display s.code ++ text ": " ++ from_utf8_lossy s.error

-- `StatusCode::to_status`
unfoldable pub to_status : StatusCode → Bytes → Status
to_status c msg = record {
  code = c;
  error = if length msg == 0 then display c else msg;
  language = text "en";
}

-- `From<Error> for std::io::Error`: the kind of the error that is made.
unfoldable pub io_kind : Error → IoKind
io_kind (sftp s) = elim s.code [
  | status_ok ↦ other
  | eof ↦ unexpected_eof
  | no_such_file ↦ not_found
  | permission_denied ↦ io_permission_denied
  | failure ↦ other
  | bad_message ↦ invalid_data
  | no_connection ↦ other
  | connection_lost ↦ other
  | op_unsupported ↦ io_unsupported
]
io_kind (wire_format w) = other
io_kind (ssh (ssh_io k msg)) = k
io_kind (ssh (ssh_other msg)) = other
io_kind (io k msg) = k
