-- ===== src/Client/File/Close/Closing.antt =====
-- What closing a file comes to, src/client/file/close.rs.
use rusftp.Prelude.{[], ◌∷◌, ◌↔◌, ◌-◌, ◌<◌, ◌≡◌, ◌≢◌, Bool, true, false, none, some, ok, err, arith}
use rusftp.Message.Types.{Handle, Message, Status, status_ok}
use rusftp.Client.Error.{sftp}
use rusftp.Client.Reply.{Reply, unit_reply}
use rusftp.Client.Future.{
  Slot, empty, sent, Poll, waiting, ready, SftpFuture, submitted, poll, request_with, send_request,
  send,
}
use rusftp.Client.Stop.{new_stopping, is_stopped, poll_stopping, drop_stopping}
use rusftp.Client.Request.{request}
use rusftp.Client.Commands.{close}
use rusftp.Client.File.{PendingOperation, File}
use rusftp.Client.File.Close.{
  Refs, ClosingState, FileClosing, stop_client, stop_now, new_closing, poll_stop, poll_closing,
  drop_closing,
}

-- The file `f`, closed, with its client stopped.
abbrev pub IsClosedFrom : File → File → Type 0
IsClosedFrom f g =
    (g.handle ≡ none)
    × (g.pending ≡ PendingOperation.idle)
    × (g.client.commands ≡ false)
    × (g.client.request_processor ≡ false)
    × (g.offset ≡ f.offset)

-- The future of closing `f` after a first poll that finds no reply, and the poll that then finds the
-- status `s`, when `ended` says whether the client's task has ended.
abbrev pub after_reply : File → Refs → Status → Bool → Bool → Poll (Reply (Unit {0})) × FileClosing
after_reply f refs s e ended =
    poll_closing (sent (ok (Message.status s))) ended (poll_closing empty e (new_closing f refs)).1

-- What the future leaves when it is gone: the file closed, its client stopped, no reference to the
-- handle, and this CLOSE the one request that was sent.
abbrev pub IsDone : File → Handle → FileClosing → Type 0
IsDone f h c =
    IsClosedFrom f (drop_closing c).0
    × ((drop_closing c).1.handle ≡ 0)
    × (c.requests ≡ Message.close (record { handle = h }) ∷ [])

-- The last reference to an open file whose client runs, closed: a CLOSE of its handle is sent, and
-- the first poll waits. If the client's task has ended when the status `Ok` is there, the next poll is
-- ready. If it has not, that poll waits exactly if this client holds the last reference to the task,
-- and a poll that finds the task ended is ready then. When the future is gone the file is closed, its
-- client is stopped, no reference to the handle is left, and that CLOSE is all that was sent.
pub close_last :
    (f : File) (h : Handle) (refs : Refs) (s : Status) (slot : Slot) (e : Bool)
    → f.handle ≡ some h
    → refs.handle ≡ 1
    → f.client.commands ≡ true
    → f.client.receiving ≡ true
    → s.code ≡ status_ok
    → ((new_closing f refs).state
        ≡ ClosingState.closing h
            (SftpFuture.pending (Message.close (record { handle = h })) unit_reply))
      × ((poll_closing empty e (new_closing f refs)).0 ≡ waiting)
      × ((after_reply f refs s e true).0 ≡ ready (ok tt))
      × IsDone f h (after_reply f refs s e true).1
      × (((after_reply f refs s e false).0 ≡ waiting)
          ↔ ((f.client.request_processor ≡ true) × (refs.processor ≡ 1)))
      × ((poll_closing slot true (after_reply f refs s e false).1).0 ≡ ready (ok tt))
      × IsDone f h (poll_closing slot true (after_reply f refs s e false).1).1
unfolding new_closing stop_now stop_client poll_closing poll_stop drop_closing new_stopping
    is_stopped poll_stopping drop_stopping close request request_with send_request send poll
    unit_reply submitted
close_last f h refs s slot e opened last running there good = (
  ground arith,
  ground arith,
  ground arith,
  ground arith,
  ground arith,
  ground arith,
  ground arith,
)

-- Another reference than the last: no request is put into the channel, by the closing or by a poll. When
-- the future is gone, dropped at once or after a poll that finds the client's task ended, this file is
-- closed, and the handle has one reference less.
pub close_shared :
    (f : File) (h : Handle) (refs : Refs) (slot : Slot) (e : Bool)
    → f.handle ≡ some h
    → 1 < refs.handle
    → ((new_closing f refs).requests ≡ [])
      × ((poll_closing slot e (new_closing f refs)).1.requests ≡ [])
      × ((poll_closing slot true (new_closing f refs)).0 ≡ ready (ok tt))
      × IsClosedFrom f (drop_closing (poll_closing slot true (new_closing f refs)).1).0
      × ((drop_closing (poll_closing slot true (new_closing f refs)).1).1.handle ≡ refs.handle - 1)
      × ((drop_closing (new_closing f refs)).0.handle ≡ none)
      × ((drop_closing (new_closing f refs)).1.handle ≡ refs.handle - 1)
unfolding new_closing stop_now stop_client poll_closing poll_stop drop_closing new_stopping
    is_stopped poll_stopping drop_stopping
close_shared f h refs slot e opened shared = (
  ground arith,
  ground arith,
  ground arith,
  ground arith,
  ground arith,
  ground arith,
  ground arith,
)

-- The last reference to an open file whose client runs: if the future is dropped before the reply to
-- its CLOSE, the file is open again with the same handle, and to close it sends a second CLOSE of that
-- handle.
pub close_cancelled :
    (f : File) (h : Handle) (refs : Refs)
    → f.handle ≡ some h
    → refs.handle ≡ 1
    → f.client.commands ≡ true
    → f.client.receiving ≡ true
    → ((drop_closing (new_closing f refs)).0 ≡ record f { pending = PendingOperation.idle })
      × ((drop_closing (new_closing f refs)).1 ≡ refs)
      × ((new_closing
            (drop_closing (new_closing f refs)).0
            (drop_closing (new_closing f refs)).1).state
          ≡ ClosingState.closing h
              (SftpFuture.pending (Message.close (record { handle = h })) unit_reply))
unfolding new_closing stop_now stop_client drop_closing new_stopping is_stopped close request
    request_with send_request send
close_cancelled f h refs opened last running there = (ground arith, ground arith, ground arith)

-- The last reference to an open file whose client runs: if the server refuses the CLOSE by a status
-- other than `Ok`, the poll gives that status, and when the future is gone the file is open with the
-- same handle and its client has not been stopped.
pub close_refused :
    (f : File) (h : Handle) (refs : Refs) (s : Status) (e : Bool)
    → f.handle ≡ some h
    → refs.handle ≡ 1
    → f.client.commands ≡ true
    → f.client.receiving ≡ true
    → s.code ≢ status_ok
    → ((poll_closing (sent (ok (Message.status s))) e (new_closing f refs)).0
        ≡ ready (err (sftp s)))
      × ((drop_closing (poll_closing (sent (ok (Message.status s))) e (new_closing f refs)).1).0
          ≡ record f { pending = PendingOperation.idle })
      × ((drop_closing (poll_closing (sent (ok (Message.status s))) e (new_closing f refs)).1).1
          ≡ refs)
unfolding new_closing stop_now stop_client poll_closing drop_closing new_stopping is_stopped close
    request request_with send_request send poll unit_reply
close_refused f h refs s e opened last running there bad =
    (ground arith, ground arith, ground arith)
