-- ===== src/Client/Connect.antt =====
-- `SftpClient::with_stream` of src/client/mod.rs and `read_msg` of src/client/receiver.rs: the
-- handshake. Channel is about the SSH channel under the stream.
pub mod Handshake
pub mod Channel
use rusftp.Prelude.{ℕ, ◌==◌, true, [], Result, ok, err, if◌then◌else◌}
use rusftp.Wire.Bytes.{get_be}
use rusftp.Message.Types.{Bytes, Message, bad_message}
use rusftp.Message.Decode.{decode_raw}
use rusftp.Client.Error.{Error, sftp, of_decode_error, to_status, text}
use rusftp.Client.Future.{SftpClient}
use rusftp.Client.Receiver.{Stream, Receiver, new_receiver, write_msg}

-- `AsyncReadExt::read_exact`; `read_u32` reads four bytes by it.
pub record Source (S : Type 0) : Type 0 where
  pub read_exact : ℕ → S → Result Bytes Error × S

unfoldable pub decoded : {S : Type 0} → Result Bytes Error × S → Result (ℕ × Message) Error × S
decoded (err e, s) = (err e, s)
decoded (ok bytes, s) =
    (elim (decode_raw bytes) [ ok m ↦ ok m | err e ↦ err (of_decode_error e) ], s)

-- What follows the length of the frame.
unfoldable pub read_body :
    {S : Type 0} → Source S → Result Bytes Error × S → Result (ℕ × Message) Error × S
unfolding decoded
read_body source (err e, s) = (err e, s)
read_body source (ok bytes, s) = decoded (source.read_exact (get_be bytes) s)

-- `read_msg`
unfoldable pub read_msg : {S : Type 0} → Source S → S → Result (ℕ × Message) Error × S
unfolding read_body
read_msg source s = read_body source (source.read_exact 4 s)

abbrev pub hello : Message
hello = Message.init (record { version = 3; extensions = [] })

-- The client and the receiver task that is spawned with it.
abbrev pub Session : Type 0 → Type 0
Session S = SftpClient × Receiver S

unfoldable pub start_session : {S : Type 0} → Bytes → S → Session S
start_session closed_text s = (
  record { commands = true; request_processor = true; receiving = true; closed_text = closed_text },
  new_receiver s,
)

-- `match receiver::read_msg(&mut stream).await? { … }`
unfoldable pub check_version :
    {S : Type 0} → Bytes → Result (ℕ × Message) Error × S → Result (Session S) Error × S
unfolding start_session
check_version closed_text (err e, s) = (err e, s)
check_version closed_text (ok (id, Message.version v), s) = (
  if v.version == 3
      then ok (start_session closed_text s)
      else err (sftp (to_status bad_message (text "Invalid sftp version"))),
  s,
)
check_version closed_text (ok (id, m), s) =
    (err (sftp (to_status bad_message (text "Bad SFTP init"))), s)

unfoldable pub after_hello :
    {S : Type 0} → Bytes → Source S → Result (Unit {0}) Error × S → Result (Session S) Error × S
unfolding check_version
after_hello closed_text source (err e, s) = (err e, s)
after_hello closed_text source (ok u, s) = check_version closed_text (read_msg source s)

-- `SftpClient::with_stream`; `closed_text` is how the error of the command channel prints.
unfoldable pub with_stream :
    {S : Type 0} → Bytes → Stream S → Source S → S → Result (Session S) Error × S
unfolding after_hello
with_stream closed_text stream source s =
    after_hello closed_text source (write_msg stream hello 3 s)
