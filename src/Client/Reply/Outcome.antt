-- ===== src/Client/Reply/Outcome.antt =====
-- When the callbacks of the commands succeed.
use rusftp.Prelude.{◌≡◌, ◌≢◌, ◌↔◌, refl, ap, List, [], ◌∷◌, ok, arith}
use rusftp.Message.Types.{Bytes, FilePath, NameEntry, Status, status_ok, Message}
use rusftp.Client.Reply.{
  unit_reply, expected, view_handle, view_name, handle_reply, name_reply, read_callback,
  single_path, path_callback,
}

-- The replies that the protocol has for READ.
abbrev pub IsReadReply : Message → Type 0
IsReadReply (Message.content d) = Unit
IsReadReply (Message.status s) = Unit
IsReadReply m = ⊥

-- The callback of `SftpClient::read` gives no bytes for any reply that the protocol has for READ,
-- a status or data: not for the data that the server sends either.
pub read_callback-fails : (m : Message) (bytes : Bytes) → IsReadReply m → read_callback m ≢ ok bytes
unfolding read_callback handle_reply expected view_handle
read_callback-fails (Message.content d) bytes h e = cc
read_callback-fails (Message.status s) bytes h e = cc
read_callback-fails _ bytes h e = absurd h

-- `readlink` and `realpath` succeed exactly on a NAME with one entry, and give its file name.
pub path_callback_iff :
    (m : Message) (p : FilePath)
    → (path_callback m ≡ ok p)
      ↔ ((e : NameEntry) × (m ≡ Message.name (record { entries = e ∷ [] })) × (e.filename ≡ p))
unfolding path_callback name_reply expected view_name single_path
path_callback_iff m p = (there m p, λ (e, f, g). rw f (rw g))
  where
    one :
        (l : List NameEntry) (p : FilePath)
        → single_path l ≡ ok p
        → (e : NameEntry) × (l ≡ e ∷ []) × (e.filename ≡ p)
    one [] p h = cc
    one (e ∷ []) p h = (e, refl, cc)
    one (e ∷ f ∷ l) p h = cc

    there :
        (m : Message) (p : FilePath)
        → path_callback m ≡ ok p
        → (e : NameEntry) × (m ≡ Message.name (record { entries = e ∷ [] })) × (e.filename ≡ p)
    there (Message.name n) p h =
        let (e, l, g) = one n.entries p h in
        (e, ap (λ (x : List NameEntry). Message.name (record { entries = x })) l, g)
    there _ p h = cc

-- A command that returns nothing succeeds exactly on the status `Ok`.
unit_reply_iff :
    (m : Message)
    → (unit_reply m ≡ ok tt) ↔ ((s : Status) × (m ≡ Message.status s) × (s.code ≡ status_ok))
unfolding unit_reply
unit_reply_iff m = (there m, λ (s, e, c). rw (e) (rw (c, unit_reply)))
  where
    there :
        (m : Message)
        → unit_reply m ≡ ok tt
        → (s : Status) × (m ≡ Message.status s) × (s.code ≡ status_ok)
    there m h = ground arith
