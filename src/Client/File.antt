-- ===== src/Client/File.antt =====
-- src/client/file/mod.rs and read.rs: an open file and its `AsyncRead`. Each poll is given what the
-- channels of the pending operation (`old`) and of a request that it makes (`new`) hold.
pub mod Reading
pub mod Write
pub mod Seek
pub mod Close
pub mod Direct
pub mod Whole
use rusftp.Prelude.{
  ℕ, ◌+◌, ◌%◌, ◌^◌, min, Bool, List, [], ◌∷◌, Option, none, some, Result, ok, err, and_then, length,
  take, leb, if◌then◌else◌,
}
use rusftp.Message.Types.{Bytes, Handle, Data, Attrs, Status, StatusCode, eof, Message}
use rusftp.Client.Error.{Error, sftp, io, IoKind, text}
use rusftp.Client.Reply.{Reply, unit_reply, data_reply, attrs_reply}
use rusftp.Client.Future.{
  Slot, Poll, waiting, ready, panicked, SftpFuture, SftpClient, new_stopped, poll, request_with,
}

pub data PendingOperation : Type 0 where
  idle : PendingOperation
  read : SftpFuture Data → PendingOperation
  seek : SftpFuture ℕ → PendingOperation
  write : SftpFuture ℕ → PendingOperation
  close : SftpFuture (Unit {0}) → PendingOperation

pub data OperationResult : Type 0 where
  idle : OperationResult
  read : Reply Data → OperationResult
  seek : Reply ℕ → OperationResult
  write : Reply ℕ → OperationResult
  close : Reply (Unit {0}) → OperationResult

pub record File : Type 0 where
  pub client : SftpClient
  pub handle : Option Handle
  pub offset : ℕ
  pub pending : PendingOperation

-- `File::new`
unfoldable pub new_file : SftpClient → Handle → File
new_file client handle = record {
  client = client;
  handle = some handle;
  offset = 0;
  pending = PendingOperation.idle;
}

-- `File::new_closed` and `FILE_CLOSED`
abbrev pub closed_file : File
closed_file = record {
  client = new_stopped;
  handle = none;
  offset = 0;
  pending = PendingOperation.idle;
}

-- `File::clone`: the pending operation is not shared.
unfoldable pub clone_file : File → File
clone_file f = record f { pending = PendingOperation.idle }

-- `ready!` on a future of an operation: once it is ready, nothing is pending.
unfoldable pub poll_future :
    {A : Type 0}
    → (Reply A → OperationResult)
    → (SftpFuture A → PendingOperation)
    → SftpFuture A
    → Slot
    → Poll OperationResult × PendingOperation
poll_future result again future slot =
    let (p, future') = poll future slot in
    elim p [
      | waiting ↦ (waiting, again future')
      | ready r ↦ (ready (result r), PendingOperation.idle)
      | panicked ↦ (panicked, again future')
    ]

-- `PendingOperation::poll`
unfoldable pub poll_pending : PendingOperation → Slot → Poll OperationResult × PendingOperation
unfolding poll_future
poll_pending PendingOperation.idle slot = (ready OperationResult.idle, PendingOperation.idle)
poll_pending (PendingOperation.read f) slot =
    poll_future OperationResult.read PendingOperation.read f slot
poll_pending (PendingOperation.seek f) slot =
    poll_future OperationResult.seek PendingOperation.seek f slot
poll_pending (PendingOperation.write f) slot =
    poll_future OperationResult.write PendingOperation.write f slot
poll_pending (PendingOperation.close f) slot =
    poll_future OperationResult.close PendingOperation.close f slot

abbrev pub closed_error : Error
closed_error = io IoKind.broken_pipe (text "File was closed")

-- The end of `poll_read`: `put_slice` panics if the data does not fit the buffer.
unfoldable pub finish_read : ℕ → File → Reply Data → Poll (Reply Bytes) × File
finish_read remaining f (ok d) =
    if leb (length d.bytes) remaining
    then (ready (ok d.bytes), record f { offset = (f.offset + length d.bytes) % 2 ^ 64 })
    else (panicked, f)
finish_read remaining f (err (sftp s)) = elim s.code [
  | eof ↦ (ready (ok []), f)
  | _ ↦ (ready (err (sftp s)), f)
]
finish_read remaining f (err e) = (ready (err e), f)

abbrev pub max_chunk : ℕ
max_chunk = 32768

unfoldable pub read_request : ℕ → File → Handle → Message
read_request remaining f h =
    Message.read (record { handle = h; offset = f.offset; length = min remaining max_chunk })

-- What `poll_read` makes of the first poll of a new request, whose future stays the pending one.
unfoldable pub await_read :
    ℕ → File → Poll (Reply Data) → SftpFuture Data → Poll (Reply Bytes) × File
unfolding finish_read
await_read remaining f p future =
    let f' = record f { pending = PendingOperation.read future } in
    elim p [
      | waiting ↦ (waiting, f')
      | ready r ↦ finish_read remaining f' r
      | panicked ↦ (panicked, f')
    ]

-- A new read: the request and the first poll of its future.
unfoldable pub start_read : ℕ → File → Slot → Poll (Reply Bytes) × File
unfolding await_read
start_read remaining f new = elim f.handle [
  | none ↦ (ready (err closed_error), f)
  | some h ↦
      (let q = poll (request_with f.client (ok (read_request remaining f h)) data_reply) new in
        await_read remaining f q.0 q.1)
]

-- `poll_read`, with `remaining` bytes of room; the bytes that are read stand in the result.
unfoldable pub poll_read : ℕ → File → Slot → Slot → Poll (Reply Bytes) × File
unfolding start_read poll_pending
poll_read remaining f old new =
    let (p, pending) = poll_pending f.pending old in
    let f' = record f { pending = pending } in
    elim p [
      | waiting ↦ (waiting, f')
      | panicked ↦ (panicked, f')
      | ready (OperationResult.read r) ↦ finish_read remaining f' r
      | ready other ↦ start_read remaining f' new
    ]
