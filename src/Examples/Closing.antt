-- ===== src/Examples/Closing.antt =====
-- Seeking, closing and stopping at concrete files, directories and clients.
use rusftp.Prelude.{
  ◌^◌, ◌<◌, ◌≡◌, ◌↔◌, refl, true, false, [], ◌∷◌, ◌++◌, none, some, ok, err, arith,
}
use rusftp.Message.Types.{Handle, Attrs, no_attrs, Message, Status, status_ok, failure}
use rusftp.Client.Error.{sftp}
use rusftp.Client.Reply.{unit_reply}
use rusftp.Client.Future.{SftpClient, empty, sent, waiting, ready, SftpFuture}
use rusftp.Client.Stop.{
  new_stopping, stop, poll_stopping, clone_client, drop_client, forget, drop_stopping,
}
use rusftp.Client.Stop.Session.{
  Reach, here, next, clone, leave, holders, poll_waiting, Reach-waits_iff,
}
use rusftp.Client.File.{File, PendingOperation}
use rusftp.Client.File.Seek.{SeekFrom, start_seek, poll_complete}
use rusftp.Prelude.Int.{negsuc}
use rusftp.Client.File.Seek.Seeking.{IsSum, asking_size, seek_current_iff, seek_end_iff}
use rusftp.Client.File.Close.{Refs, ClosingState, new_closing, poll_closing, drop_closing}
use rusftp.Client.File.Close.Closing.{
  IsClosedFrom, IsDone, after_reply, close_last, close_shared, close_cancelled, close_refused,
}
use rusftp.Client.Dir.{Dir}
use rusftp.Client.Dir.Close
use rusftp.Client.Dir.Close.Closing.{IsClosedDir, close_open}

abbrev connected : SftpClient
connected = record { commands = true; request_processor = true; receiving = true; closed_text = [] }

abbrev the_handle : Handle
the_handle = record { bytes = 5 ∷ [] }

abbrev opened : File
opened = record {
  client = connected;
  handle = some the_handle;
  offset = 10;
  pending = PendingOperation.idle;
}

-- Ten bytes back is the start of the file.
seek_current_example :
    (start_seek opened (SeekFrom.current (negsuc 9)) ≡ (ok tt, record opened { offset = 0 }))
    ↔ (IsSum 10 (negsuc 9) 0 × (0 < 2 ^ 64))
seek_current_example = seek_current_iff opened (negsuc 9) 0 (omega arith) refl

abbrev of_size : Attrs
of_size = record no_attrs { size = some 100 }

seek_end_example :
    (start_seek opened (SeekFrom.end (negsuc 0))
      ≡ (ok tt, asking_size opened the_handle (negsuc 0)))
    × ((poll_complete
            (start_seek opened (SeekFrom.end (negsuc 0))).1
            (sent (ok (Message.attrs of_size)))
          ≡ (ready (ok 99), record opened { offset = 99; pending = PendingOperation.idle }))
        ↔ (IsSum 100 (negsuc 0) 99 × (99 < 2 ^ 64)))
seek_end_example =
    seek_end_iff opened the_handle of_size (negsuc 0) 100 99 refl refl refl refl refl (omega arith)

abbrev last_ref : Refs
last_ref = record { handle = 1; processor = 1 }

abbrev done : Status
done = record { code = status_ok; error = []; language = [] }

abbrev refused : Status
refused = record { code = failure; error = []; language = [] }

abbrev close_message : ClosingState
close_message =
    ClosingState.closing the_handle
      (SftpFuture.pending (Message.close (record { handle = the_handle })) unit_reply)

close_last_example :
    ((new_closing opened last_ref).state ≡ close_message)
    × ((poll_closing empty false (new_closing opened last_ref)).0 ≡ waiting)
    × ((after_reply opened last_ref done false true).0 ≡ ready (ok tt))
    × IsDone opened the_handle (after_reply opened last_ref done false true).1
    × (((after_reply opened last_ref done false false).0 ≡ waiting)
        ↔ ((connected.request_processor ≡ true) × (last_ref.processor ≡ 1)))
    × ((poll_closing empty true (after_reply opened last_ref done false false).1).0 ≡ ready (ok tt))
    × IsDone opened the_handle
        (poll_closing empty true (after_reply opened last_ref done false false).1).1
close_last_example = close_last opened the_handle last_ref done empty false refl refl refl refl refl

abbrev two_refs : Refs
two_refs = record { handle = 2; processor = 1 }

close_shared_example :
    ((new_closing opened two_refs).requests ≡ [])
    × ((poll_closing empty false (new_closing opened two_refs)).1.requests ≡ [])
    × ((poll_closing empty true (new_closing opened two_refs)).0 ≡ ready (ok tt))
    × IsClosedFrom opened (drop_closing (poll_closing empty true (new_closing opened two_refs)).1).0
    × ((drop_closing (poll_closing empty true (new_closing opened two_refs)).1).1.handle ≡ 1)
    × ((drop_closing (new_closing opened two_refs)).0.handle ≡ none)
    × ((drop_closing (new_closing opened two_refs)).1.handle ≡ 1)
close_shared_example = close_shared opened the_handle two_refs empty false refl (omega arith)

close_cancelled_example :
    ((drop_closing (new_closing opened last_ref)).0 ≡ opened)
    × ((drop_closing (new_closing opened last_ref)).1 ≡ last_ref)
    × ((new_closing
          (drop_closing (new_closing opened last_ref)).0
          (drop_closing (new_closing opened last_ref)).1).state
        ≡ close_message)
close_cancelled_example = close_cancelled opened the_handle last_ref refl refl refl refl

close_refused_example :
    ((poll_closing (sent (ok (Message.status refused))) true (new_closing opened last_ref)).0
      ≡ ready (err (sftp refused)))
    × ((drop_closing
          (poll_closing
            (sent (ok (Message.status refused)))
            true
            (new_closing opened last_ref)).1).0
        ≡ opened)
    × ((drop_closing
          (poll_closing
            (sent (ok (Message.status refused)))
            true
            (new_closing opened last_ref)).1).1
        ≡ last_ref)
close_refused_example =
    close_refused opened the_handle last_ref refused true refl refl refl refl (λ e. cc e)

abbrev listed : Dir
listed = record { client = connected; handle = some the_handle; buffer = some []; pending = none }

close_open_example :
    ((Close.new_closing listed 1).state
      ≡ Close.ClosingState.closing the_handle
          (SftpFuture.pending (Message.close (record { handle = the_handle })) unit_reply))
    × ((Close.poll_closing empty true (Close.new_closing listed 1)).0 ≡ waiting)
    × ((Close.poll_closing
          (sent (ok (Message.status done)))
          true
          (Close.poll_closing empty true (Close.new_closing listed 1)).1).0
        ≡ ready (ok tt))
    × IsClosedDir
        (Close.drop_closing
          (Close.poll_closing
            (sent (ok (Message.status done)))
            true
            (Close.poll_closing empty true (Close.new_closing listed 1)).1).1).0
    × ((Close.poll_closing (sent (ok (Message.status refused))) true (Close.new_closing listed 1)).0
        ≡ ready (err (sftp refused)))
    × (Close.drop_closing
          (Close.poll_closing
            (sent (ok (Message.status refused)))
            true
            (Close.new_closing listed 1)).1
        ≡ (record listed { buffer = none; pending = none }, 1))
close_open_example =
    close_open listed the_handle 1 done refused true refl refl refl refl (λ e. cc e)

-- A client is cloned, and then one of the two is left.
cloned_and_left :
    Reach
      (record { clients = connected ∷ []; refs = 1 })
      (record { clients = [] ++ connected ∷ []; refs = 1 })
unfolding clone_client drop_client new_stopping forget drop_stopping
cloned_and_left = next (next here (clone [] connected [] 1)) (leave [] connected (connected ∷ []) 2)

Reach-waits_example :
    (((poll_stopping (poll_waiting 2 (stop connected 1).0) false).0 ≡ false)
      ↔ ((connected.request_processor ≡ true) × (holders ([] ++ []) ≡ 0)))
    × ((poll_stopping (poll_waiting 2 (stop connected 1).0) true).0 ≡ true)
Reach-waits_example = Reach-waits_iff connected [] connected [] 1 2 refl cloned_and_left
