-- ===== src/Client/File/Seek.antt =====
-- src/client/file/seek.rs: a file as an `AsyncSeek`.
pub mod Seeking
use rusftp.Prelude.{
  ℕ, suc, ◌+◌, ◌-◌, ◌^◌, Option, none, some, Result, ok, err, and_then, ltb, if◌then◌else◌,
}
use rusftp.Prelude.Int.{ℤ, pos, negsuc}
use rusftp.Message.Types.{Bytes, Handle, Attrs, Message}
use rusftp.Client.Error.{Error, io, IoKind, text}
use rusftp.Client.Reply.{Reply, attrs_reply}
use rusftp.Client.Future.{Slot, Poll, waiting, ready, panicked, SftpFuture, request_with}
use rusftp.Client.File.{PendingOperation, OperationResult, File, poll_pending, closed_error}

-- `u64::checked_add_signed`
unfoldable pub checked_add_signed : ℕ → ℤ → Option ℕ
checked_add_signed n (pos k) = if ltb (n + k) (2 ^ 64) then some (n + k) else none
checked_add_signed n (negsuc k) = if ltb k n then some (n - suc k) else none

-- `std::io::SeekFrom`
pub data SeekFrom : Type 0 where
  start : ℕ → SeekFrom
  end : ℤ → SeekFrom
  current : ℤ → SeekFrom

abbrev pub negative_error : Error
negative_error = io IoKind.invalid_data (text "Would seek to negative position")

abbrev pub no_size_error : Error
no_size_error =
    io IoKind.io_unsupported (text "Unable to seek from the end of file: could not get file size")

abbrev pub busy_error : Error
busy_error = io IoKind.would_block (text "A pending operation must complete before seek")

unfoldable pub target : Option ℕ → Reply ℕ
target none = err negative_error
target (some n) = ok n

-- The callback of the FSTAT of a seek from the end.
unfoldable pub seek_callback : ℤ → Message → Reply ℕ
unfolding target
seek_callback i m =
    and_then (attrs_reply m)
      λ a. elim a.size [ none ↦ err no_size_error | some n ↦ target (checked_add_signed n i) ]

unfoldable pub seek_from_end : File → ℤ → Reply (Unit {0}) × File
seek_from_end f i = elim f.handle [
  | none ↦ (err closed_error, f)
  | some h ↦ (
    ok tt,
    record f {
      pending =
          PendingOperation.seek
            (request_with f.client (ok (Message.fstat (record { handle = h }))) (seek_callback i));
    },
  )
]

-- `match self.offset.checked_add_signed(i) { … }`
unfoldable pub move_to : File → Option ℕ → Reply (Unit {0}) × File
move_to f none = (err negative_error, f)
move_to f (some n) = (ok tt, record f { offset = n })

-- `start_seek`
unfoldable pub start_seek : File → SeekFrom → Reply (Unit {0}) × File
unfolding seek_from_end move_to
start_seek f position = elim f.pending [
  | PendingOperation.idle ↦ elim position [
    | start n ↦ (ok tt, record f { offset = n })
    | end i ↦ seek_from_end f i
    | current i ↦ move_to f (checked_add_signed f.offset i)
  ]
  | _ ↦ (err busy_error, f)
]

-- `poll_complete`
unfoldable pub poll_complete : File → Slot → Poll (Reply ℕ) × File
unfolding poll_pending
poll_complete f old =
    let (p, pending) = poll_pending f.pending old in
    let f' = record f { pending = pending } in
    elim p [
      | waiting ↦ (waiting, f')
      | panicked ↦ (panicked, f')
      | ready (OperationResult.seek (ok n)) ↦ (ready (ok n), record f' { offset = n })
      | ready (OperationResult.seek (err e)) ↦ (ready (err e), f')
      | ready other ↦ (ready (ok f'.offset), f')
    ]
