-- ===== src/Client/File/Direct.antt =====
-- The requests of src/client/file/ that do not move a file: `File::read`, `File::write`, `File::stat`
-- and `File::set_stat`.
use rusftp.Prelude.{ℕ, none, some}
use rusftp.Message.Types.{Bytes, Data, Attrs, FStat, FSetStat}
use rusftp.Client.Error.{Error, io, IoKind, text}
use rusftp.Client.Future.{SftpFuture}
use rusftp.Client.Request.{request, fstat_request, fsetstat_request}
use rusftp.Client.Commands
use rusftp.Client.File.{File}

abbrev pub already_closed_error : Error
already_closed_error = io IoKind.broken_pipe (text "File was already closed")

-- `File::read`
unfoldable pub read : File → ℕ → ℕ → SftpFuture Bytes
read f offset length = elim f.handle [
  | some h ↦ Commands.read f.client h offset length
  | none ↦ SftpFuture.failed already_closed_error
]

-- `File::write`
unfoldable pub write : File → ℕ → Data → SftpFuture (Unit {0})
write f offset payload = elim f.handle [
  | some h ↦ Commands.write f.client h offset payload
  | none ↦ SftpFuture.failed already_closed_error
]

-- `File::stat`
unfoldable pub stat : File → SftpFuture Attrs
stat f = elim f.handle [
  | some h ↦ request {R = FStat} f.client (record { handle = h })
  | none ↦ SftpFuture.failed already_closed_error
]

-- `File::set_stat`
unfoldable pub set_stat : File → Attrs → SftpFuture (Unit {0})
set_stat f attrs = elim f.handle [
  | some h ↦ request {R = FSetStat} f.client (record { handle = h; attrs = attrs })
  | none ↦ SftpFuture.failed already_closed_error
]
