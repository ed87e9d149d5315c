-- ===== src/Client/Future.antt =====
-- `SftpClient::request_with` and `SftpFuture` of src/client/request.rs.
use rusftp.Prelude.{Bool, false, List, [], ◌∷◌, ok, err, if◌then◌else◌}
use rusftp.Message.Types.{Bytes, Message, status_ok, failure}
use rusftp.Client.Error.{Error, sftp, io, IoKind, text, to_status}
use rusftp.Client.Reply.{Reply, bad}

-- What a poll of the `oneshot` receiver finds: nothing yet, the response of the receiver task, or
-- that the sender is gone.
pub data Slot : Type 0 where
  empty : Slot
  sent : Reply Message → Slot
  dropped : Slot

pub data Poll (A : Type 0) : Type 0 where
  waiting : Poll A
  ready : A → Poll A
  panicked : Poll A

-- The state and the callback of a pending request are one function here. The receiving end of its
-- channel is known by the request that was sent with the other end.
pub data SftpFuture (A : Type 0) : Type 0 where
  failed : Error → SftpFuture A
  pending : Message → (Message → Reply A) → SftpFuture A
  polled : SftpFuture A

-- `Future::poll`, with the future that it leaves.
unfoldable pub poll : {A : Type 0} → SftpFuture A → Slot → Poll (Reply A) × SftpFuture A
poll (failed e) slot = (ready (err e), polled)
poll (pending m f) empty = (waiting, pending m f)
poll (pending m f) (sent (ok reply)) = (ready (f reply), polled)
poll (pending m f) (sent (err e)) = (ready (err e), polled)
poll (pending m f) dropped =
    (ready (err (io IoKind.connection_reset (text "Could not get reply from SFTP client"))), polled)
poll polled slot = (panicked, polled)

-- What the request has put into the channel of the commands.
unfoldable pub submitted : {A : Type 0} → SftpFuture A → List Message
submitted (pending m f) = m ∷ []
submitted future = []

-- `SftpClient`: whether it has its end of the command channel and a reference to the handle of the
-- receiver task, and whether that task still has the other end. `closed_text` is how the channel's
-- send error prints.
pub record SftpClient : Type 0 where
  pub commands : Bool
  pub request_processor : Bool
  pub receiving : Bool
  pub closed_text : Bytes

-- `SftpClient::new_stopped`
abbrev pub new_stopped : SftpClient
new_stopped = record {
  commands = false;
  request_processor = false;
  receiving = false;
  closed_text = [];
}

unfoldable pub send : {A : Type 0} → SftpClient → Message → (Message → Reply A) → SftpFuture A
send c m f = if c.receiving then pending m f else failed (sftp (to_status failure c.closed_text))

-- A status is no request: `Ok` is refused, and another is taken for the error of making one.
unfoldable pub send_request :
    {A : Type 0} → SftpClient → Message → (Message → Reply A) → SftpFuture A
send_request c (Message.status s) f = elim s.code [
  | status_ok ↦ failed (bad "Tried to send an OK status message to the server")
  | _ ↦ failed (sftp s)
]
send_request c m f = send c m f

unfoldable pub request_with :
    {A : Type 0} → SftpClient → Reply Message → (Message → Reply A) → SftpFuture A
request_with c request f =
    if c.commands
    then elim request [ ok m ↦ send_request c m f | err e ↦ failed e ]
    else failed (io IoKind.broken_pipe (text "SFTP client has been stopped"))
