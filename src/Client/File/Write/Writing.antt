-- ===== src/Client/File/Write/Writing.antt =====
-- Sequences of polls of a file that is written.
use rusftp.Prelude.{◌+◌, ◌%◌, ◌^◌, ◌≡◌, true, min, some, ok, length, arith}
use rusftp.Message.Types.{Bytes, Handle, Status, status_ok, Message}
use rusftp.Client.Reply.{unit_reply}
use rusftp.Client.Future.{Slot, empty, sent, waiting, ready, poll, request_with, send_request, send}
use rusftp.Client.File.{File, PendingOperation}
use rusftp.Client.File.Write.{poll_write, poll_flush, write_request, write_callback}

-- A write, acknowledged later by the status `Ok`, of an open file with nothing pending, whose client
-- runs: the first poll waits, and then a poll for writing, whatever is to be written then, gives the
-- number of bytes of the first, 32768 at most, where a flush gives its own result; both move the
-- offset by that number (modulo 2 ^ 64) and leave nothing pending.
pub write_in_two_polls :
    (f : File) (h : Handle) (s : Status) (buf later : Bytes) (old new : Slot)
    → f.pending ≡ PendingOperation.idle
    → f.handle ≡ some h
    → f.client.commands ≡ true
    → f.client.receiving ≡ true
    → s.code ≡ status_ok
    → ((poll_write buf f old empty).0 ≡ waiting)
      × (poll_write later (poll_write buf f old empty).1 (sent (ok (Message.status s))) new ≡ (
        ready (ok (min (length buf) 32768)),
        record f {
          offset = (f.offset + min (length buf) 32768) % 2 ^ 64;
          pending = PendingOperation.idle;
        },
      ))
      × (poll_flush (poll_write buf f old empty).1 (sent (ok (Message.status s))) ≡ (
        ready (ok tt),
        record f {
          offset = (f.offset + min (length buf) 32768) % 2 ^ 64;
          pending = PendingOperation.idle;
        },
      ))
unfolding poll_write poll_flush write_request write_callback request_with send_request send poll
    unit_reply
write_in_two_polls f h s buf later old new idle open_ c r good =
    (ground arith, ground arith, ground arith)
