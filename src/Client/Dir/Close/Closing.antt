-- ===== src/Client/Dir/Close/Closing.antt =====
-- What closing a directory comes to, src/client/dir/close.rs.
use rusftp.Prelude.{ℕ, ◌≡◌, ◌≢◌, Bool, true, false, none, some, ok, err, arith}
use rusftp.Message.Types.{Handle, Message, Status, status_ok}
use rusftp.Client.Error.{sftp}
use rusftp.Client.Reply.{unit_reply}
use rusftp.Client.Future.{
  empty, sent, waiting, ready, SftpFuture, poll, request_with, send_request, send,
}
use rusftp.Client.Stop.{new_stopping, is_stopped, poll_stopping, drop_stopping}
use rusftp.Client.Request.{request}
use rusftp.Client.Commands.{close}
use rusftp.Client.Dir.{Dir}
use rusftp.Client.Dir.Close.{
  ClosingState, stop_client, new_closing, poll_stop, poll_closing, drop_closing,
}

-- A directory that is closed, with its client stopped.
abbrev pub IsClosedDir : Dir → Type 0
IsClosedDir d =
    (d.handle ≡ none)
    × (d.buffer ≡ none)
    × (d.pending ≡ none)
    × (d.client.commands ≡ false)
    × (d.client.request_processor ≡ false)

-- An open directory whose client runs, closed: a CLOSE of its handle is sent, and the first poll
-- waits; with the status `Ok` from the server and once the client's task has ended, the next poll is
-- ready, and when the future is gone the directory is closed and its client stopped. With another
-- status the poll gives that status, and when the future is gone the directory has its handle again,
-- but neither the entries nor the request that it had.
pub close_open :
    (d : Dir) (h : Handle) (n : ℕ) (s bad : Status) (e : Bool)
    → d.handle ≡ some h
    → d.client.commands ≡ true
    → d.client.receiving ≡ true
    → s.code ≡ status_ok
    → bad.code ≢ status_ok
    → ((new_closing d n).state
        ≡ ClosingState.closing h
            (SftpFuture.pending (Message.close (record { handle = h })) unit_reply))
      × ((poll_closing empty e (new_closing d n)).0 ≡ waiting)
      × ((poll_closing
            (sent (ok (Message.status s)))
            true
            (poll_closing empty e (new_closing d n)).1).0
          ≡ ready (ok tt))
      × IsClosedDir
          (drop_closing
            (poll_closing
              (sent (ok (Message.status s)))
              true
              (poll_closing empty e (new_closing d n)).1).1).0
      × ((poll_closing (sent (ok (Message.status bad))) e (new_closing d n)).0
          ≡ ready (err (sftp bad)))
      × (drop_closing (poll_closing (sent (ok (Message.status bad))) e (new_closing d n)).1
          ≡ (record d { buffer = none; pending = none }, n))
unfolding new_closing stop_client poll_closing poll_stop drop_closing new_stopping is_stopped
    poll_stopping drop_stopping close request request_with send_request send poll unit_reply
close_open d h n s bad e opened running there good refused =
    (ground arith, ground arith, ground arith, ground arith, ground arith, ground arith)
