-- ===== src/Client/Dir/Listing.antt =====
-- The order in which a directory, src/client/dir/stream.rs, gives the entries of a reply.
use rusftp.Prelude.{
  ◌≡◌, refl, List, [], ◌∷◌, ◌++◌, Option, none, some, ok, length, map, reverse, ap, sym, ◌∙◌,
  append_assoc, arith,
}
use mathlib.Core.List.{reverse_aux}
use rusftp.Message.Types.{NameEntry, Message}
use rusftp.Client.Reply.{name_reply, expected, view_name}
use rusftp.Client.Future.{Slot, sent, Poll, ready, SftpFuture, poll}
use rusftp.Client.Dir.{Dir, Entry, pop, listed, await_listing, poll_listing, poll_entry}

-- A directory that is polled once for each slot, and what the polls give.
unfoldable pub poll_all : List Slot → Dir → List (Poll Entry) × Dir
unfolding poll_entry
poll_all [] d = ([], d)
poll_all (slot ∷ slots) d =
    let (p, d') = poll_entry d slot in let (ps, d'') = poll_all slots d' in (p ∷ ps, d'')

abbrev pub given : NameEntry → Poll Entry
given e = ready (some (ok e))

pop-snoc : (es : List NameEntry) (e : NameEntry) → pop (es ++ e ∷ []) ≡ some (e, es)
unfolding pop
pop-snoc [] e = refl
pop-snoc (x ∷ es) e = rw (pop, pop-snoc es e) refl

reverse_aux-append : (es acc : List NameEntry) → reverse_aux es acc ≡ reverse_aux es [] ++ acc
reverse_aux-append [] acc = refl
reverse_aux-append (x ∷ es) acc =
    reverse_aux-append es (x ∷ acc)
    ∙ sym (
        ap (λ l. l ++ acc) (reverse_aux-append es (x ∷ []))
        ∙ append_assoc (reverse_aux es []) (x ∷ []) acc)

pop-reverse : (e : NameEntry) (es : List NameEntry) → pop (reverse (e ∷ es)) ≡ some (e, reverse es)
pop-reverse e es = ap pop (reverse_aux-append es (e ∷ [])) ∙ pop-snoc (reverse es) e

poll_all-buffered :
    (es : List NameEntry) (slots : List Slot) (d : Dir)
    → length slots ≡ length es
    → d.buffer ≡ some (reverse es)
    → poll_all slots d ≡ (map given es, record d { buffer = some [] })
unfolding poll_all poll_entry
poll_all-buffered [] [] d h b =
    ap (λ (x : Option (List NameEntry)). ([], record d { buffer = x })) b
poll_all-buffered [] (slot ∷ slots) d h b = absurd (omega (arith, h))
poll_all-buffered (e ∷ es) [] d h b = absurd (omega (arith, h))
poll_all-buffered (e ∷ es) (slot ∷ slots) d h b =
    rw (poll_all, poll_entry, b, pop-reverse e es)
      (ap (λ (q : List (Poll Entry) × Dir). (given e ∷ q.0, q.1))
        (poll_all-buffered es slots (record d { buffer = some (reverse es) }) (omega arith) refl))

-- The reply to a READDIR that is pending, after which the directory is polled once for each further
-- entry: the polls give the entries in the order of the reply, and then the buffer is empty again,
-- with nothing pending.
pub poll_all-batch :
    (e : NameEntry) (es : List NameEntry) (slots : List Slot) (d : Dir) (request : Message)
    → length slots ≡ length es
    → d.buffer ≡ some []
    → d.pending ≡ some (SftpFuture.pending request name_reply)
    → poll_all (sent (ok (Message.name (record { entries = e ∷ es }))) ∷ slots) d
      ≡ (map given (e ∷ es), record d { buffer = some []; pending = none })
unfolding poll_all poll_entry poll_listing await_listing listed poll name_reply expected view_name
    pop
poll_all-batch e es slots d request h b w =
    rw (poll_all, poll_entry, b, poll_listing, w, listed, pop-reverse e es)
      (ap (λ (q : List (Poll Entry) × Dir). (given e ∷ q.0, q.1))
        (poll_all-buffered es slots (record d { buffer = some (reverse es); pending = none }) h
          refl))
