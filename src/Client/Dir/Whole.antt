-- ===== src/Client/Dir/Whole.antt =====
-- A directory, src/client/dir/stream.rs, that is polled from its first entry to its end.
use rusftp.Prelude.{
  ℕ, zero, suc, ◌≡◌, refl, true, List, [], ◌∷◌, ◌++◌, none, some, ok, length, map, ap, ◌∙◌, arith,
}
use rusftp.Message.Types.{NameEntry, Handle, Message, Status, eof}
use rusftp.Client.Reply.{name_reply, expected, view_name}
use rusftp.Client.Future.{
  Slot, empty, sent, Poll, waiting, ready, SftpFuture, poll, request_with, send_request, send,
}
use rusftp.Client.Dir.{Dir, Entry, listed, await_listing, poll_listing, poll_entry, pop}
use rusftp.Client.Dir.Listing.{poll_all, given, poll_all-batch}

unfoldable pub repeat : {A : Type 0} → ℕ → A → List A
repeat zero a = []
repeat (suc n) a = a ∷ repeat n a

length-repeat : {A : Type 0} (n : ℕ) (a : A) → length (repeat n a) ≡ n
unfolding repeat
length-repeat zero a = refl
length-repeat (suc n) a = omega (arith, length-repeat n a)

-- A reply to a READDIR, with at least one entry, and how often the directory is polled before it
-- has come.
pub record Batch : Type 0 where
  pub waits : ℕ
  pub first : NameEntry
  pub others : List NameEntry

-- What the polls find: each reply once it has come and nothing else, and at the end a status.
unfoldable pub slots_of : List Batch → ℕ → Status → List Slot
unfolding repeat
slots_of [] n end = repeat n empty ++ sent (ok (Message.status end)) ∷ []
slots_of (b ∷ bs) n end =
    repeat b.waits empty
    ++ sent (ok (Message.name (record { entries = b.first ∷ b.others })))
      ∷ (repeat (length b.others) empty ++ slots_of bs n end)

-- What they give: the entries of each reply in order, and then the end of the stream.
unfoldable pub polls_of : List Batch → ℕ → List (Poll Entry)
unfolding repeat
polls_of [] n = repeat n waiting ++ ready none ∷ []
polls_of (b ∷ bs) n = repeat b.waits waiting ++ (map given (b.first ∷ b.others) ++ polls_of bs n)

-- What polls give, with what was given before in front of it.
abbrev behind : List (Poll Entry) → List (Poll Entry) × Dir → List (Poll Entry) × Dir
behind ps q = (ps ++ q.0, q.1)

poll_all-append :
    (xs ys : List Slot) (d : Dir)
    → poll_all (xs ++ ys) d ≡ behind (poll_all xs d).0 (poll_all ys (poll_all xs d).1)
unfolding poll_all
poll_all-append [] ys d = refl
poll_all-append (x ∷ xs) ys d =
    ap (behind ((poll_entry d x).0 ∷ [])) (poll_all-append xs ys (poll_entry d x).1)

-- A directory whose request for more entries has been sent.
abbrev asked : Dir → Handle → Dir
asked d h = record d {
  buffer = some [];
  pending = some (SftpFuture.pending (Message.readdir (record { handle = h })) name_reply);
}

-- An empty directory makes its request in the poll itself.
poll_entry-asked :
    (d : Dir) (h : Handle) (slot : Slot)
    → d.handle ≡ some h
    → d.client.commands ≡ true
    → d.client.receiving ≡ true
    → d.buffer ≡ some []
    → d.pending ≡ none
    → poll_entry d slot ≡ poll_entry (asked d h) slot
unfolding poll_entry poll_listing await_listing listed poll pop request_with send_request send
poll_entry-asked d h slot open_ c r b p = ground arith

poll_all-asked :
    (d : Dir) (h : Handle) (slot : Slot) (slots : List Slot)
    → d.handle ≡ some h
    → d.client.commands ≡ true
    → d.client.receiving ≡ true
    → d.buffer ≡ some []
    → d.pending ≡ none
    → poll_all (slot ∷ slots) d ≡ poll_all (slot ∷ slots) (asked d h)
unfolding poll_all
poll_all-asked d h slot slots open_ c r b p =
    rw (poll_all, poll_entry-asked d h slot open_ c r b p) refl

poll_all-waits :
    (n : ℕ) (d : Dir) (h : Handle) (slots : List Slot)
    → poll_all (repeat n empty ++ slots) (asked d h)
      ≡ behind (repeat n waiting) (poll_all slots (asked d h))
unfolding poll_all repeat poll_entry poll_listing await_listing poll pop
poll_all-waits zero d h slots = refl
poll_all-waits (suc n) d h slots = ap (behind (waiting ∷ [])) (poll_all-waits n d h slots)

module _ (h : Handle) where
  poll_all-wanted :
      (n : ℕ) (d : Dir) (slot : Slot) (slots : List Slot)
      → d.handle ≡ some h
      → d.client.commands ≡ true
      → d.client.receiving ≡ true
      → d.buffer ≡ some []
      → d.pending ≡ none
      → poll_all (repeat n empty ++ slot ∷ slots) d
        ≡ behind (repeat n waiting) (poll_all (slot ∷ slots) (asked d h))
  unfolding repeat
  poll_all-wanted zero d slot slots open_ c r b p = poll_all-asked d h slot slots open_ c r b p
  poll_all-wanted (suc n) d slot slots open_ c r b p =
      poll_all-asked d h empty (repeat n empty ++ slot ∷ slots) open_ c r b p
      ∙ poll_all-waits (suc n) d h (slot ∷ slots)

  poll_all-reply :
      (d : Dir) (e : NameEntry) (es : List NameEntry) (slots : List Slot)
      → poll_all
          (sent (ok (Message.name (record { entries = e ∷ es })))
            ∷ (repeat (length es) empty ++ slots))
          (asked d h)
        ≡ behind
            (map given (e ∷ es))
            (poll_all slots (record d { buffer = some []; pending = none }))
  poll_all-reply d e es slots =
      let first =
        sent (ok (Message.name (record { entries = e ∷ es }))) ∷ repeat (length es) empty in
      poll_all-append first slots (asked d h)
      ∙ ap (λ (q : List (Poll Entry) × Dir). behind q.0 (poll_all slots q.1))
          (poll_all-batch e es (repeat (length es) empty) (asked d h)
            (Message.readdir (record { handle = h })) (length-repeat (length es) empty) refl refl)

  poll_all-eof :
      (d : Dir) (end : Status)
      → end.code ≡ eof
      → poll_all (sent (ok (Message.status end)) ∷ []) (asked d h)
        ≡ (ready none ∷ [], record d { buffer = none; pending = none })
  unfolding poll_all poll_entry poll_listing await_listing listed poll pop name_reply expected
      view_name
  poll_all-eof d end is_eof = ground arith

  -- An open directory of a running client, with nothing pending and no entry left in its buffer. The
  -- replies to its requests bring at least one entry each, the last reply is the status `Eof`, and
  -- the directory is polled any number of times before each reply and once for each entry: the polls
  -- wait until a reply has come, give the entries of all replies in order, and then the end, and the
  -- directory is left without a buffer and with nothing pending.
  pub poll_all-whole :
      (batches : List Batch) (n : ℕ) (end : Status) (d : Dir)
      → end.code ≡ eof
      → d.handle ≡ some h
      → d.client.commands ≡ true
      → d.client.receiving ≡ true
      → d.buffer ≡ some []
      → d.pending ≡ none
      → poll_all (slots_of batches n end) d
        ≡ (polls_of batches n, record d { buffer = none; pending = none })
  unfolding slots_of polls_of
  poll_all-whole [] n end d is_eof open_ c r b p =
      poll_all-wanted n d (sent (ok (Message.status end))) [] open_ c r b p
      ∙ ap (behind (repeat n waiting)) (poll_all-eof d end is_eof)
  poll_all-whole (t ∷ ts) n end d is_eof open_ c r b p =
      poll_all-wanted t.waits d _ _ open_ c r b p
      ∙ ap (behind (repeat t.waits waiting)) (
          poll_all-reply d t.first t.others (slots_of ts n end)
          ∙ ap (behind (map given (t.first ∷ t.others))) (
              poll_all-whole ts n end (record d { buffer = some []; pending = none }) is_eof open_ c
                r refl refl))
