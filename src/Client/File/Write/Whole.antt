-- ===== src/Client/File/Write/Whole.antt =====
-- A buffer that is written to the end of a file by polls, src/client/file/write.rs, against a server
-- that stores it.
use rusftp.Prelude.{
  ℕ, zero, suc, ◌+◌, ◌^◌, ◌<◌, ◌≡◌, refl, true, sym, ap, ◌∙◌, [], ◌∷◌, ◌++◌, Option, none, some, ok,
  err, length, take, drop, min, arith, append-nil, append_assoc, length-append, length-take,
  length-drop, take-append-drop,
}
use rusftp.Message.Types.{Bytes, Handle, Message, Status, status_ok}
use rusftp.Client.Reply.{Reply, unit_reply}
use rusftp.Client.Future.{
  Slot, empty, sent, waiting, ready, panicked, SftpFuture, poll, request_with, send_request, send,
}
use rusftp.Client.File.{File, PendingOperation, max_chunk}
use rusftp.Client.File.Write.{poll_write, write_request, write_callback}

-- The server is asked by the pending write.
unfoldable pub answer_to :
    {S : Type 0} → (Message → S → Message × S) → PendingOperation → S → Slot × S
answer_to answer (PendingOperation.write (SftpFuture.pending m f)) s =
    let (reply, t) = answer m s in (sent (ok reply), t)
answer_to answer p s = (empty, s)

-- The rest of a buffer is polled in pairs, with the reply to its request in between, until nothing is
-- left of it, for `fuel` pairs at most.
unfoldable pub write_whole :
    {S : Type 0}
    → ℕ
    → (Message → S → Message × S)
    → Bytes
    → File
    → S
    → Option (Reply (Unit {0})) × File × S
unfolding answer_to
write_whole zero answer buf f s = (none, f, s)
write_whole (suc fuel) answer [] f s = (some (ok tt), f, s)
write_whole (suc fuel) answer (b ∷ buf) f s =
    let f' = (poll_write (b ∷ buf) f empty empty).1 in
    let (slot, t) = answer_to answer f'.pending s in
    let (p, f'') = poll_write (b ∷ buf) f' slot empty in
    elim p [
      | ready (ok n) ↦ write_whole fuel answer (drop n (b ∷ buf)) f'' t
      | ready (err e) ↦ (some (err e), f'', t)
      | waiting ↦ (none, f'', t)
      | panicked ↦ (none, f'', t)
    ]

-- A server whose state holds the content of the file: a WRITE at the end of the content is answered by
-- `Ok`, and its bytes are behind the content then.
abbrev pub Stores : {S : Type 0} → Handle → (S → Bytes) → (Message → S → Message × S) → Type 0
Stores {S} h view answer =
    (s : S) (bytes : Bytes)
    → (status : Status) × (t : S) × (answer
          (Message.write
            (record { handle = h; offset = length (view s); payload = record { bytes = bytes } }))
          s
        ≡ (Message.status status, t))
      × (status.code ≡ status_ok)
      × (view t ≡ view s ++ bytes)

-- A buffer that is stored in two parts.
in_two :
    (n : ℕ) (buf before between after : Bytes)
    → between ≡ before ++ take n buf
    → after ≡ between ++ drop n buf
    → after ≡ before ++ buf
in_two n buf before between after first second =
    second
    ∙ ap (λ l. l ++ drop n buf) first
    ∙ append_assoc before (take n buf) (drop n buf)
    ∙ ap (λ l. before ++ l) (take-append-drop n buf)

module _ {S : Type 0} (answer : Message → S → Message × S) (h : Handle) where
  poll_write-asks :
      (buf : Bytes) (f : File)
      → f.pending ≡ PendingOperation.idle
      → f.handle ≡ some h
      → f.client.commands ≡ true
      → f.client.receiving ≡ true
      → poll_write buf f empty empty ≡ (
        waiting,
        record f {
          pending = PendingOperation.write (
              SftpFuture.pending
                (write_request buf f h)
                (write_callback (min (length buf) max_chunk)));
        },
      )
  unfolding poll_write write_request request_with send_request send poll
  poll_write-asks buf f idle open_ c r = ground arith

  poll_write-answered :
      (buf : Bytes) (f : File) (m : Message) (n : ℕ) (status : Status)
      → status.code ≡ status_ok
      → f.offset + n < 2 ^ 64
      → poll_write buf
          (record f { pending = PendingOperation.write (SftpFuture.pending m (write_callback n)) })
          (sent (ok (Message.status status)))
          empty
        ≡ (ready (ok n), record f { offset = f.offset + n; pending = PendingOperation.idle })
  unfolding poll_write poll write_callback unit_reply
  poll_write-answered buf f m n status good short = ground arith

  write_whole-more :
      (fuel : ℕ) (b : ℕ) (buf : Bytes) (f : File) (s t : S) (status : Status)
      → f.pending ≡ PendingOperation.idle
      → f.handle ≡ some h
      → f.client.commands ≡ true
      → f.client.receiving ≡ true
      → answer (write_request (b ∷ buf) f h) s ≡ (Message.status status, t)
      → status.code ≡ status_ok
      → f.offset + min (length (b ∷ buf)) max_chunk < 2 ^ 64
      → write_whole (suc fuel) answer (b ∷ buf) f s
        ≡ write_whole fuel answer
            (drop (min (length (b ∷ buf)) max_chunk) (b ∷ buf))
            (record f {
              offset = f.offset + min (length (b ∷ buf)) max_chunk;
              pending = PendingOperation.idle;
            })
            t
  unfolding write_whole answer_to
  write_whole-more fuel b buf f s t status idle open_ c r e good short =
      let asks = poll_write-asks (b ∷ buf) f idle open_ c r in
      let answered =
        poll_write-answered (b ∷ buf) f (write_request (b ∷ buf) f h)
          (min (length (b ∷ buf)) max_chunk) status good short in
      rw (write_whole, asks, e, answered, asks, e, answered) refl

  -- An open file with nothing pending, whose client runs, stands at the end of what the server stores,
  -- and what is stored with the buffer behind it is shorter than 2 ^ 64 bytes. With fuel for one pair of
  -- polls more than there are bytes in the buffer, the buffer is written to its end: the server stores
  -- it behind what it had, in as many chunks as it takes, and the file stands behind it with nothing
  -- pending.
  pub write_whole-Stores :
      (view : S → Bytes)
      → Stores h view answer
      → (fuel : ℕ) (buf : Bytes) (f : File) (s : S) → f.offset ≡ length (view s)
      → f.pending ≡ PendingOperation.idle
      → f.handle ≡ some h
      → f.client.commands ≡ true
      → f.client.receiving ≡ true
      → length (view s) + length buf < 2 ^ 64
      → length buf < fuel
      → (t : S) × (write_whole fuel answer buf f s ≡ (
        some (ok tt),
        record f { offset = length (view s) + length buf; pending = PendingOperation.idle },
        t,
      ))
        × (view t ≡ view s ++ buf)
  unfolding write_whole write_request
  write_whole-Stores view stores zero buf f s here idle open_ c r short enough =
      absurd (omega (arith, enough))
  write_whole-Stores view stores (suc fuel) [] f s here idle open_ c r short enough =
      (s, at_end, sym (append-nil (view s)))
    where
      at_end : write_whole (suc fuel) answer [] f s ≡ (
        some (ok tt),
        record f { offset = length (view s) + 0; pending = PendingOperation.idle },
        s,
      )
      at_end =
          ap (λ (k : ℕ). (some (ok tt), record f { offset = k }, s)) (omega (arith, here))
          ∙ ap
              (λ (p : PendingOperation).
                (some (ok tt), record f { offset = length (view s) + 0; pending = p }, s))
              idle
  write_whole-Stores view stores (suc fuel) (b ∷ buf) f s here idle open_ c r short enough =
      let n = min (length (b ∷ buf)) max_chunk in
      let (status, t, e, good, stored) = stores s (take n (b ∷ buf)) in
      let size : length (view t) ≡ length (view s) + n =
        ap length stored
        ∙ length-append (view s) (take n (b ∷ buf))
        ∙ omega (arith, length-take n (b ∷ buf)) in
      let left = length-drop n (b ∷ buf) in
      let (u, goes, all) =
        write_whole-Stores view stores fuel (drop n (b ∷ buf))
          (record f { offset = f.offset + n; pending = PendingOperation.idle }) t
          (omega (arith, here, size)) refl open_ c r (omega (arith, size, left, short))
          (omega (arith, left, enough)) in
      (
        u,
        write_whole-more fuel b buf f s t status idle open_ c r (rw (here) e) good
              (omega (arith, here, short))
            ∙ goes
            ∙ ap
                (λ (k : ℕ).
                  (some (ok tt), record f { offset = k; pending = PendingOperation.idle }, u))
                (omega (arith, size, left)),
        in_two n (b ∷ buf) (view s) (view t) (view u) stored all,
      )
