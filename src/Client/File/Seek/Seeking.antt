-- ===== src/Client/File/Seek/Seeking.antt =====
-- Where a seek moves a file, src/client/file/seek.rs.
use mathlib.Core.Logic.Iff
use rusftp.Prelude.{ℕ, suc, ◌+◌, ◌^◌, ◌<◌, ◌≡◌, ◌↔◌, true, Option, none, some, ok, err, arith}
use rusftp.Message.Types.{Handle, Attrs, Message}
use rusftp.Client.Reply.{Reply, attrs_reply, expected, view_attrs}
use rusftp.Client.Future.{sent, Poll, ready, SftpFuture, poll, request_with, send_request, send}
use rusftp.Client.File.{PendingOperation, File, poll_pending}
use rusftp.Client.File.Seek.{
  SeekFrom, checked_add_signed, target, seek_callback, start_seek, poll_complete, move_to,
  negative_error,
}
use rusftp.Prelude.Int.{ℤ, pos, negsuc}

-- `m` is `n + i`, without subtraction.
abbrev pub IsSum : ℕ → ℤ → ℕ → Type 0
IsSum n (pos k) m = m ≡ n + k
IsSum n (negsuc k) m = m + suc k ≡ n

pub checked_add_signed_iff :
    (n : ℕ) (i : ℤ) (m : ℕ)
    → n < 2 ^ 64
    → (checked_add_signed n i ≡ some m) ↔ (IsSum n i m × (m < 2 ^ 64))
unfolding checked_add_signed
checked_add_signed_iff n (pos k) m h = ground arith
checked_add_signed_iff n (negsuc k) m h = ground arith

move_to_iff :
    (f : File) (o : Option ℕ) (m : ℕ)
    → (move_to f o ≡ (ok tt, record f { offset = m })) ↔ (o ≡ some m)
unfolding move_to
move_to_iff f none m = (λ e. cc e, λ e. cc e)
move_to_iff f (some n) m = (λ e. cc e, λ e. cc e)

start_seek-current :
    (f : File) (i : ℤ)
    → f.pending ≡ PendingOperation.idle
    → start_seek f (SeekFrom.current i) ≡ move_to f (checked_add_signed f.offset i)
unfolding start_seek
start_seek-current f i idle = ground arith

-- A seek from the current offset of a file with nothing pending and an offset of 64 bits succeeds
-- with the offset `m`, and nothing else of the file changed, exactly if `m` is the sum and fits 64
-- bits.
pub seek_current_iff :
    (f : File) (i : ℤ) (m : ℕ)
    → f.offset < 2 ^ 64
    → f.pending ≡ PendingOperation.idle
    → (start_seek f (SeekFrom.current i) ≡ (ok tt, record f { offset = m }))
      ↔ (IsSum f.offset i m × (m < 2 ^ 64))
seek_current_iff f i m fits idle = rw (start_seek-current f i idle) (
    Iff.trans (move_to_iff f (checked_add_signed f.offset i) m)
      (checked_add_signed_iff f.offset i m fits))

-- What the completion of a seek from the end gives, by the sum.
completed : File → Option ℕ → Poll (Reply ℕ) × File
completed f none = (ready (err negative_error), record f { pending = PendingOperation.idle })
completed f (some n) = (ready (ok n), record f { offset = n; pending = PendingOperation.idle })

completed_iff :
    (f : File) (o : Option ℕ) (m : ℕ)
    → (completed f o ≡ (ready (ok m), record f { offset = m; pending = PendingOperation.idle }))
      ↔ (o ≡ some m)
unfolding completed
completed_iff f none m = (λ e. cc e, λ e. cc e)
completed_iff f (some n) m = (λ e. cc e, λ e. cc e)

poll_complete-seek_end :
    (f : File) (h : Handle) (a : Attrs) (i : ℤ) (size : ℕ)
    → f.pending ≡ PendingOperation.idle
    → f.handle ≡ some h
    → f.client.commands ≡ true
    → f.client.receiving ≡ true
    → a.size ≡ some size
    → poll_complete (start_seek f (SeekFrom.end i)).1 (sent (ok (Message.attrs a)))
      ≡ completed f (checked_add_signed size i)
unfolding start_seek poll_complete poll_pending poll request_with send_request send seek_callback
    target attrs_reply expected view_attrs completed
poll_complete-seek_end f h a i size idle open_ c r known = ground arith

-- The file `f` while a FSTAT of its handle is under way.
abbrev pub asking_size : File → Handle → ℤ → File
asking_size f h i = record f {
  pending =
      PendingOperation.seek
        (SftpFuture.pending (Message.fstat (record { handle = h })) (seek_callback i));
}

start_seek-end :
    (f : File) (h : Handle) (i : ℤ)
    → f.pending ≡ PendingOperation.idle
    → f.handle ≡ some h
    → f.client.commands ≡ true
    → f.client.receiving ≡ true
    → start_seek f (SeekFrom.end i) ≡ (ok tt, asking_size f h i)
unfolding start_seek request_with send_request send
start_seek-end f h i idle open_ c r = ground arith

-- A seek from the end of an open file with nothing pending, whose client runs, is accepted, and sends
-- a FSTAT of the file's handle, which is then pending, with nothing else of the file changed; once the
-- server has given the attributes, with a size of 64 bits, the poll for its completion gives `m` and
-- moves the offset there exactly if `m` is the sum of the size and the distance and fits 64 bits.
pub seek_end_iff :
    (f : File) (h : Handle) (a : Attrs) (i : ℤ) (size m : ℕ)
    → f.pending ≡ PendingOperation.idle
    → f.handle ≡ some h
    → f.client.commands ≡ true
    → f.client.receiving ≡ true
    → a.size ≡ some size
    → size < 2 ^ 64
    → (start_seek f (SeekFrom.end i) ≡ (ok tt, asking_size f h i))
      × ((poll_complete (start_seek f (SeekFrom.end i)).1 (sent (ok (Message.attrs a)))
            ≡ (ready (ok m), record f { offset = m; pending = PendingOperation.idle }))
          ↔ (IsSum size i m × (m < 2 ^ 64)))
seek_end_iff f h a i size m idle open_ c r known fits = (
  start_seek-end f h i idle open_ c r,
  rw (poll_complete-seek_end f h a i size idle open_ c r known) (
      Iff.trans (completed_iff f (checked_add_signed size i) m)
        (checked_add_signed_iff size i m fits)),
)
