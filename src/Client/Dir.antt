-- ===== src/Client/Dir.antt =====
-- src/client/dir/mod.rs and src/client/dir/stream.rs: an open directory as a stream of entries.
-- Closing it stands in Client/Dir/Close.
pub mod Listing
pub mod Close
pub mod Whole
use rusftp.Prelude.{List, [], ◌∷◌, Option, none, some, Result, ok, err, reverse}
use rusftp.Message.Types.{Handle, NameEntry, Name, Status, StatusCode, eof, Message}
use rusftp.Client.Error.{Error, sftp, io, IoKind, text}
use rusftp.Client.Reply.{Reply, name_reply}
use rusftp.Client.Future.{
  Slot, Poll, waiting, ready, panicked, SftpFuture, SftpClient, new_stopped, poll, request_with,
}

pub record Dir : Type 0 where
  pub client : SftpClient
  pub handle : Option Handle
  pub buffer : Option (List NameEntry)
  pub pending : Option (SftpFuture Name)

-- `Dir::new`
unfoldable pub new_dir : SftpClient → Handle → Dir
new_dir client handle = record {
  client = client;
  handle = some handle;
  buffer = some [];
  pending = none;
}

-- `Dir::new_closed`
abbrev pub closed_dir : Dir
closed_dir = record { client = new_stopped; handle = none; buffer = none; pending = none }

-- `Vec::pop`
unfoldable pub pop : List NameEntry → Option (NameEntry × List NameEntry)
pop [] = none
pop (e ∷ es) = elim (pop es) [ none ↦ some (e, []) | some (l, rest) ↦ some (l, e ∷ rest) ]

abbrev pub Entry : Type 0
Entry = Option (Reply NameEntry)

-- What the stream makes of the reply to a READDIR; nothing is pending any more.
unfoldable pub listed : Dir → Reply Name → Entry × Dir
unfolding pop
listed d (ok n) =
    let d' = record d { pending = none; buffer = none } in
    elim (pop (reverse n.entries)) [
      | some (e, rest) ↦ (some (ok e), record d' { buffer = some rest })
      | none ↦ (
        some (
            err (
              io IoKind.unexpected_eof
                (text "Found no more directory entries while it was expecting some"))),
        d',
      )
    ]
listed d (err (sftp s)) =
    let d' = record d { pending = none; buffer = none } in
    elim s.code [ eof ↦ (none, d') | _ ↦ (some (err (sftp s)), d') ]
listed d (err e) = (some (err e), record d { pending = none; buffer = none })

-- `ready!(Pin::new(pending).poll(cx))`, and what follows
unfoldable pub await_listing : Dir → SftpFuture Name → Slot → Poll Entry × Dir
unfolding listed
await_listing d future slot =
    let (p, future') = poll future slot in
    elim p [
      | waiting ↦ (waiting, record d { pending = some future' })
      | ready r ↦ (let (e, d') = listed d r in (ready e, d'))
      | panicked ↦ (panicked, record d { pending = some future' })
    ]

unfoldable pub poll_listing : Dir → Slot → Poll Entry × Dir
unfolding await_listing
poll_listing d slot = elim d.pending [
  | some future ↦ await_listing d future slot
  | none ↦ elim d.handle [
    | none ↦ (
      ready (some (err (io IoKind.broken_pipe (text "Dir was closed")))),
      record d { buffer = none },
    )
    | some h ↦
        await_listing d
          (request_with d.client (ok (Message.readdir (record { handle = h }))) name_reply) slot
  ]
]

-- `Stream::poll_next`; `slot` is what the channel of the pending or of the new request holds.
unfoldable pub poll_entry : Dir → Slot → Poll Entry × Dir
unfolding pop poll_listing
poll_entry d slot = elim d.buffer [
  | none ↦ (ready none, d)
  | some entries ↦ elim (pop entries) [
    | some (e, rest) ↦ (ready (some (ok e)), record d { buffer = some rest })
    | none ↦ poll_listing d slot
  ]
]
