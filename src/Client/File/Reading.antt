-- ===== src/Client/File/Reading.antt =====
-- Sequences of polls of a file that is read.
use rusftp.Prelude.{sym, ◌∙◌, ℕ, ◌+◌, ◌%◌, ◌^◌, ◌≤◌, ◌≡◌, refl, true, some, ok, length, arith}
use rusftp.Message.Types.{Bytes, Handle, Data, Message}
use rusftp.Client.Reply.{Reply, data_reply, expected, view_data}
use rusftp.Client.Future.{
  Slot, empty, sent, Poll, waiting, ready, panicked, SftpFuture, poll, request_with, send_request,
  send,
}
use rusftp.Client.File.{
  File, PendingOperation, poll_read, start_read, await_read, read_request, finish_read,
}

poll_read-idle :
    (n : ℕ) (f : File) (old new : Slot)
    → f.pending ≡ PendingOperation.idle
    → poll_read n f old new ≡ start_read n f new
unfolding poll_read
poll_read-idle n f old new e = rw e

poll_read-polled :
    (n : ℕ) (f : File) (old new : Slot)
    → f.pending ≡ PendingOperation.read SftpFuture.polled
    → (poll_read n f old new).0 ≡ panicked
unfolding poll_read poll
poll_read-polled n f old new e = ground arith

poll-ready-polled :
    {A : Type 0} (u : SftpFuture A) (slot : Slot) {r : Reply A}
    → (poll u slot).0 ≡ ready r
    → (poll u slot).1 ≡ SftpFuture.polled
unfolding poll
poll-ready-polled u slot e = ground arith

pending-finish_read :
    (n : ℕ) (f : File) (r : Reply Data) → (finish_read n f r).1.pending ≡ f.pending
unfolding finish_read
pending-finish_read n f r = ground arith

await_read-polled :
    (n : ℕ) (f f' : File) (p : Poll (Reply Data)) (u : SftpFuture Data) (r : Reply Bytes)
    → ((x : Reply Data) → p ≡ ready x → u ≡ SftpFuture.polled)
    → await_read n f p u ≡ (ready r, f')
    → f'.pending ≡ PendingOperation.read SftpFuture.polled
unfolding await_read
await_read-polled n f f' waiting u r done e = cc
await_read-polled n f f' panicked u r done e = cc
await_read-polled n f f' (ready x) u r done e =
    cc (done x refl, pending-finish_read n (record f { pending = PendingOperation.read u }) x, e)

start_read-open :
    (n : ℕ) (f : File) (h : Handle) (new : Slot)
    → f.handle ≡ some h
    → let q = poll (request_with f.client (ok (read_request n f h)) data_reply) new in
      start_read n f new ≡ await_read n f q.0 q.1
unfolding start_read
start_read-open n f h new open_ = cc

start_read-polled :
    (n : ℕ) (f f' : File) (h : Handle) (new : Slot) (r : Reply Bytes)
    → f.handle ≡ some h
    → start_read n f new ≡ (ready r, f')
    → f'.pending ≡ PendingOperation.read SftpFuture.polled
start_read-polled n f f' h new r open_ e =
    let future = request_with f.client (ok (read_request n f h)) data_reply in
    await_read-polled n f f' (poll future new).0 (poll future new).1 r
      (λ x p. poll-ready-polled future new p) (sym (start_read-open n f h new open_) ∙ e)

-- If a poll of an open file with nothing pending gives a result at once, be it an error of the
-- client, then the next poll for reading panics: the finished future is still in the file.
pub read_twice-panics :
    (f f' : File) (h : Handle) (n n' : ℕ) (old new old' new' : Slot) (r : Reply Bytes)
    → f.pending ≡ PendingOperation.idle
    → f.handle ≡ some h
    → poll_read n f old new ≡ (ready r, f')
    → (poll_read n' f' old' new').0 ≡ panicked
read_twice-panics f f' h n n' old new old' new' r idle open_ first =
    poll_read-polled n' f' old' new'
      (start_read-polled n f f' h new r open_ (sym (poll_read-idle n f old new idle) ∙ first))

-- A read, answered later, of an open file with nothing pending, whose client runs: the first poll
-- waits; the second, with room for the data that has come, gives the data, moves the offset behind
-- it (modulo 2 ^ 64), and leaves nothing pending.
pub read_in_two_polls :
    (f : File) (h : Handle) (d : Data) (n m : ℕ) (old new : Slot)
    → f.pending ≡ PendingOperation.idle
    → f.handle ≡ some h
    → f.client.commands ≡ true
    → f.client.receiving ≡ true
    → length d.bytes ≤ m
    → ((poll_read n f old empty).0 ≡ waiting)
      × (poll_read m (poll_read n f old empty).1 (sent (ok (Message.content d))) new ≡ (
        ready (ok d.bytes),
        record f { offset = (f.offset + length d.bytes) % 2 ^ 64; pending = PendingOperation.idle },
      ))
unfolding poll_read read_request request_with send_request send poll data_reply expected view_data
read_in_two_polls f h d n m old new idle open_ c r fits = (ground arith, ground arith)
