-- ===== src/Client/File/Write.antt =====
-- src/client/file/write.rs: a file as an `AsyncWrite`.
pub mod Writing
pub mod Whole
use rusftp.Prelude.{
  ℕ, ◌+◌, ◌%◌, ◌^◌, min, Option, none, some, Result, ok, err, and_then, length, take,
}
use rusftp.Message.Types.{Bytes, Handle, Message}
use rusftp.Client.Reply.{Reply, unit_reply}
use rusftp.Client.Future.{Slot, Poll, waiting, ready, panicked, SftpFuture, poll, request_with}
use rusftp.Client.File.{
  PendingOperation, OperationResult, File, poll_pending, closed_error, max_chunk,
}

unfoldable pub write_request : Bytes → File → Handle → Message
write_request buf f h = Message.write (record {
  handle = h;
  offset = f.offset;
  payload = record { bytes = take (min (length buf) max_chunk) buf };
})

-- `|length, msg| { <()>::from_reply_message(msg)?; Ok(length) }`
unfoldable pub write_callback : ℕ → Message → Reply ℕ
write_callback len m = and_then (unit_reply m) (λ u. ok len)

-- The end of `poll_write`
unfoldable pub finish_write : File → Reply ℕ → Poll (Reply ℕ) × File
finish_write f (ok len) = (ready (ok len), record f { offset = (f.offset + len) % 2 ^ 64 })
finish_write f (err e) = (ready (err e), f)

unfoldable pub await_write : File → Poll (Reply ℕ) → SftpFuture ℕ → Poll (Reply ℕ) × File
unfolding finish_write
await_write f p future =
    let f' = record f { pending = PendingOperation.write future } in
    elim p [ waiting ↦ (waiting, f') | ready r ↦ finish_write f' r | panicked ↦ (panicked, f') ]

unfoldable pub start_write : Bytes → File → Slot → Poll (Reply ℕ) × File
unfolding await_write
start_write buf f new = elim f.handle [
  | none ↦ (ready (err closed_error), f)
  | some h ↦
      (let q =
          poll
            (request_with f.client (ok (write_request buf f h))
              (write_callback (min (length buf) max_chunk)))
            new in
        await_write f q.0 q.1)
]

-- `poll_write`
unfoldable pub poll_write : Bytes → File → Slot → Slot → Poll (Reply ℕ) × File
unfolding start_write poll_pending
poll_write buf f old new =
    let (p, pending) = poll_pending f.pending old in
    let f' = record f { pending = pending } in
    elim p [
      | waiting ↦ (waiting, f')
      | panicked ↦ (panicked, f')
      | ready (OperationResult.write r) ↦ finish_write f' r
      | ready other ↦ start_write buf f' new
    ]

-- `poll_flush`
unfoldable pub poll_flush : File → Slot → Poll (Reply (Unit {0})) × File
unfolding poll_pending
poll_flush f old =
    let (p, pending) = poll_pending f.pending old in
    let f' = record f { pending = pending } in
    elim p [
      | waiting ↦ (waiting, f')
      | panicked ↦ (panicked, f')
      | ready (OperationResult.write (ok len)) ↦ (
        ready (ok tt),
        record f' { pending = PendingOperation.idle; offset = (f.offset + len) % 2 ^ 64 },
      )
      | ready (OperationResult.write (err e)) ↦ (ready (err e), f')
      | ready other ↦ (ready (ok tt), f')
    ]

unfoldable pub await_close :
    File → Poll (Reply (Unit {0})) → SftpFuture (Unit {0}) → Poll (Reply (Unit {0})) × File
await_close f p future = (p, record f { pending = PendingOperation.close future })

unfoldable pub start_close : File → Slot → Poll (Reply (Unit {0})) × File
unfolding await_close
start_close f new = elim f.handle [
  | none ↦ (ready (ok tt), f)
  | some h ↦
      (let q =
          poll (request_with f.client (ok (Message.close (record { handle = h }))) unit_reply)
            new in
        await_close f q.0 q.1)
]

-- `poll_shutdown`; the file keeps its handle.
unfoldable pub poll_shutdown : File → Slot → Slot → Poll (Reply (Unit {0})) × File
unfolding start_close poll_pending
poll_shutdown f old new =
    let (p, pending) = poll_pending f.pending old in
    let f' = record f { pending = pending } in
    elim p [
      | waiting ↦ (waiting, f')
      | panicked ↦ (panicked, f')
      | ready (OperationResult.close r) ↦ (ready r, f')
      | ready other ↦ start_close f' new
    ]
