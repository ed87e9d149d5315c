-- ===== src/Client/File/Whole.antt =====
-- A file that is read to its end by polls, src/client/file/read.rs, against a server that has its
-- content.
use rusftp.Prelude.{
  ℕ, zero, suc, true, ◌+◌, ◌^◌, ◌≤◌, ◌<◌, ◌≡◌, refl, sym, ap, ◌∙◌, [], ◌∷◌, ◌++◌, Option, none,
  some, ok, err, length, min, arith, append-nil, append_assoc, length-append,
}
use rusftp.Message.Types.{Bytes, Handle, Message, Status, eof}
use rusftp.Client.Reply.{Reply, data_reply, expected, view_data}
use rusftp.Client.Future.{
  Slot, empty, sent, waiting, ready, panicked, SftpFuture, poll, request_with, send_request, send,
}
use rusftp.Client.File.{File, PendingOperation, poll_read, read_request, max_chunk}

-- What the channel of a pending read holds once the server has answered its request.
unfoldable pub reply_to : (Message → Message) → PendingOperation → Slot
reply_to answer (PendingOperation.read (SftpFuture.pending m f)) = sent (ok (answer m))
reply_to answer p = empty

-- A chunk in front of the rest of a content.
unfoldable pub prepend : Bytes → Option (Reply Bytes) × File → Option (Reply Bytes) × File
prepend bytes (some (ok rest), f) = (some (ok (bytes ++ rest)), f)
prepend bytes r = r

-- A file that is polled in pairs, with the reply to its request in between, until a read gives no
-- byte, for `fuel` pairs at most.
unfoldable pub read_whole : ℕ → ℕ → (Message → Message) → File → Option (Reply Bytes) × File
unfolding reply_to prepend
read_whole zero room answer f = (none, f)
read_whole (suc fuel) room answer f =
    let f' = (poll_read room f empty empty).1 in
    let (p, f'') = poll_read room f' (reply_to answer f'.pending) empty in
    elim p [
      | ready (ok []) ↦ (some (ok []), f'')
      | ready (ok (b ∷ bytes)) ↦ prepend (b ∷ bytes) (read_whole fuel room answer f'')
      | ready (err e) ↦ (some (err e), f'')
      | waiting ↦ (none, f'')
      | panicked ↦ (none, f'')
    ]

-- A server that answers a READ inside the content by some of the bytes that stand there, at least
-- one and at most as many as it is asked for, and a READ at its end by `Eof`.
pub record Serves (h : Handle) (content : Bytes) (answer : Message → Message) : Type 0 where
  pub more :
      (before : Bytes) (b : ℕ) (rest : Bytes) (n : ℕ)
      → 0 < n
      → content ≡ before ++ b ∷ rest
      → (bytes after : Bytes) × (rest ≡ bytes ++ after)
        × (length bytes < n)
        × (answer (Message.read (record { handle = h; offset = length before; length = n }))
            ≡ Message.content (record { bytes = b ∷ bytes }))
  pub done :
      (n : ℕ)
      → (s : Status) × (answer
            (Message.read (record { handle = h; offset = length content; length = n }))
          ≡ Message.status s)
        × (s.code ≡ eof)

module _ (answer : Message → Message) (h : Handle) (room : ℕ) where
  -- The first poll of a pair.
  poll_read-asks :
      (f : File)
      → f.pending ≡ PendingOperation.idle
      → f.handle ≡ some h
      → f.client.commands ≡ true
      → f.client.receiving ≡ true
      → poll_read room f empty empty ≡ (
        waiting,
        record f {
          pending = PendingOperation.read (SftpFuture.pending (read_request room f h) data_reply);
        },
      )
  unfolding poll_read read_request request_with send_request send poll
  poll_read-asks f idle open_ c r = ground arith

  -- The second poll of a pair.
  poll_read-answered :
      (f : File) (m : Message) (d : Bytes)
      → answer m ≡ Message.content (record { bytes = d })
      → length d ≤ room
      → f.offset + length d < 2 ^ 64
      → poll_read room
          (record f { pending = PendingOperation.read (SftpFuture.pending m data_reply) })
          (sent (ok (answer m)))
          empty
        ≡ (ready (ok d), record f { offset = f.offset + length d; pending = PendingOperation.idle })
  unfolding poll_read poll data_reply expected view_data
  poll_read-answered f m d e fits short = ground arith

  poll_read-ended :
      (f : File) (m : Message) (s : Status)
      → answer m ≡ Message.status s
      → s.code ≡ eof
      → poll_read room
          (record f { pending = PendingOperation.read (SftpFuture.pending m data_reply) })
          (sent (ok (answer m)))
          empty
        ≡ (ready (ok []), record f { pending = PendingOperation.idle })
  unfolding poll_read poll data_reply expected view_data
  poll_read-ended f m s e is_eof = ground arith

  -- Both polls, inside the content and at its end.
  read_whole-more :
      (fuel : ℕ) (f : File) (b : ℕ) (bytes : Bytes)
      → f.pending ≡ PendingOperation.idle
      → f.handle ≡ some h
      → f.client.commands ≡ true
      → f.client.receiving ≡ true
      → answer (read_request room f h) ≡ Message.content (record { bytes = b ∷ bytes })
      → length bytes < room
      → f.offset + suc (length bytes) < 2 ^ 64
      → read_whole (suc fuel) room answer f
        ≡ prepend (b ∷ bytes) (
            read_whole fuel room answer (record f {
              offset = f.offset + suc (length bytes);
              pending = PendingOperation.idle;
            }))
  unfolding read_whole reply_to
  read_whole-more fuel f b bytes idle open_ c r e fits short =
      let asks = poll_read-asks f idle open_ c r in
      let answered =
        poll_read-answered f (read_request room f h) (b ∷ bytes) e (omega (arith, fits))
          (omega (arith, short)) in
      rw (read_whole, asks, answered, asks, answered) refl

  read_whole-end :
      (fuel : ℕ) (f : File) (s : Status)
      → f.pending ≡ PendingOperation.idle
      → f.handle ≡ some h
      → f.client.commands ≡ true
      → f.client.receiving ≡ true
      → answer (read_request room f h) ≡ Message.status s
      → s.code ≡ eof
      → read_whole (suc fuel) room answer f
        ≡ (some (ok []), record f { pending = PendingOperation.idle })
  unfolding read_whole reply_to
  read_whole-end fuel f s idle open_ c r e is_eof =
      let asks = poll_read-asks f idle open_ c r in
      let ended = poll_read-ended f (read_request room f h) s e is_eof in
      rw (read_whole, asks, ended, asks, ended) refl

  -- An open file with nothing pending, whose client runs, stands behind the first part of a content
  -- of less than 2 ^ 64 bytes that the server serves; there is room for a byte at least. With fuel
  -- for one pair of polls more than there are bytes left, the pairs give exactly the bytes that are
  -- left, and the file stands at the end with nothing pending.
  pub read_whole-Serves :
      (content : Bytes)
      → Serves h content answer
      → 0 < room
      → length content < 2 ^ 64
      → (fuel : ℕ) (before rest : Bytes) (f : File) → content ≡ before ++ rest
      → f.offset ≡ length before
      → f.pending ≡ PendingOperation.idle
      → f.handle ≡ some h
      → f.client.commands ≡ true
      → f.client.receiving ≡ true
      → length rest < fuel
      → read_whole fuel room answer f
        ≡ (some (ok rest), record f { offset = length content; pending = PendingOperation.idle })
  unfolding prepend read_request
  read_whole-Serves content serves some_room short zero before rest f split here idle open_ c r
        enough =
      absurd (omega (arith, enough))
  read_whole-Serves content serves some_room short (suc fuel) before [] f split here idle open_ c r
        enough =
      let all : content ≡ before = split ∙ append-nil before in
      let at_end : f.offset ≡ length content = here ∙ sym (ap length all) in
      let (s, e, is_eof) = serves.done (min room max_chunk) in
      read_whole-end fuel f s idle open_ c r (rw (at_end) e) is_eof
      ∙ ap (λ (n : ℕ). (some (ok []), record f { offset = n; pending = PendingOperation.idle }))
          at_end
  read_whole-Serves content serves some_room short (suc fuel) before (b ∷ rest) f split here idle
        open_ c r enough =
      let (bytes, after, cut, fits, e) =
        serves.more before b rest (min room max_chunk) (omega (arith, some_room)) split in
      let split' : content ≡ (before ++ b ∷ bytes) ++ after =
        split ∙ ap (λ l. before ++ b ∷ l) cut ∙ sym (append_assoc before (b ∷ bytes) after) in
      let sizes = length-append before (b ∷ bytes) in
      let total = ap length split' ∙ length-append (before ++ b ∷ bytes) after in
      let left = ap length cut ∙ length-append bytes after in
      read_whole-more fuel f b bytes idle open_ c r (rw (here) e) (omega (arith, fits))
        (omega (arith, here, sizes, total, short))
      ∙ ap (prepend (b ∷ bytes)) (
          read_whole-Serves content serves some_room short fuel (before ++ b ∷ bytes) after
            (record f { offset = f.offset + suc (length bytes); pending = PendingOperation.idle })
            split' (omega (arith, here, sizes)) refl open_ c r (omega (arith, enough, left)))
      ∙ ap
          (λ l. (
            some (ok (b ∷ l)),
            record f { offset = length content; pending = PendingOperation.idle },
          ))
          (sym cut)
