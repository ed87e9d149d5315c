-- ===== src/Client/Commands/Readdir.antt =====
-- `SftpClient::readdir` of src/client/commands.rs, an async function that makes a request, awaits
-- its reply and goes on.
pub mod Listing
use rusftp.Prelude.{ℕ, zero, suc, [], ◌++◌, List, Option, none, some, ok, err}
use rusftp.Message.Types.{Handle, FilePath, Name, NameEntry, Message, StatusCode, eof}
use rusftp.Client.Error.{Error, sftp}
use rusftp.Client.Reply.{Reply}
use rusftp.Client.Future.{SftpClient, SftpFuture, Slot, empty, Poll, ready, poll}
use rusftp.Client.Commands.{opendir_handle, readdir_handle, close}

-- What is at the other end of the channels, the receiver and the server behind it: how a request is
-- answered in the end. An empty slot stands for a request that is never answered.
pub record Peer (S : Type 0) : Type 0 where
  pub answer : Message → S → Slot × S

unfoldable pub arrival : {S A : Type 0} → Peer S → SftpFuture A → S → Slot × S
arrival peer (SftpFuture.pending m f) s = peer.answer m s
arrival peer u s = (empty, s)

unfoldable pub result_of : {A : Type 0} → Poll (Reply A) → Option (Reply A)
result_of (ready r) = some r
result_of p = none

-- `future.await`: nothing if it never returns.
unfoldable pub await : {S A : Type 0} → Peer S → SftpFuture A → S → Option (Reply A) × S
unfolding arrival result_of
await peer u s = let (slot, s') = arrival peer u s in (result_of (poll u slot).0, s')

-- `client.close(handle).await?; Ok(entries)`
unfoldable pub finish_listing :
    {S : Type 0} → Peer S → SftpClient → Handle → List NameEntry → S → Option (Reply Name) × S
finish_listing peer c h entries s =
    let (o, s') = await peer (close c h) s in
    (
      elim o [
        | none ↦ none
        | some (ok u) ↦ some (ok (record { entries = entries }))
        | some (err e) ↦ some (err e)
      ],
      s',
    )

-- `_ = client.close(handle).await; return Err(err)`
unfoldable pub abort_listing :
    {S : Type 0} → Peer S → SftpClient → Handle → Error → S → Option (Reply Name) × S
abort_listing peer c h e s =
    let (o, s') = await peer (close c h) s in (elim o [ none ↦ none | some r ↦ some (err e) ], s')

-- The end of the loop, by the error that ends it.
unfoldable pub end_listing :
    {S : Type 0}
    → Peer S
    → SftpClient
    → Handle
    → List NameEntry
    → Error
    → S
    → Option (Reply Name) × S
unfolding finish_listing abort_listing
end_listing peer c h entries (sftp status) s = elim status.code [
  | eof ↦ finish_listing peer c h entries s
  | _ ↦ abort_listing peer c h (sftp status) s
]
end_listing peer c h entries e s = abort_listing peer c h e s

-- The loop, for `fuel` rounds at most.
unfoldable pub readdir_loop :
    {S : Type 0} → ℕ → Peer S → SftpClient → Handle → List NameEntry → S → Option (Reply Name) × S
unfolding end_listing
readdir_loop zero peer c h entries s = (none, s)
readdir_loop (suc fuel) peer c h entries s =
    let (o, s') = await peer (readdir_handle c h) s in
    elim o [
      | none ↦ (none, s')
      | some (ok chunk) ↦ readdir_loop fuel peer c h (entries ++ chunk.entries) s'
      | some (err e) ↦ end_listing peer c h entries e s'
    ]

-- `SftpClient::readdir`
unfoldable pub readdir :
    {S : Type 0} → ℕ → Peer S → SftpClient → FilePath → S → Option (Reply Name) × S
unfolding readdir_loop
readdir fuel peer c path s =
    let (o, s') = await peer (opendir_handle c path) s in
    elim o [
      | none ↦ (none, s')
      | some (ok h) ↦ readdir_loop fuel peer c h [] s'
      | some (err e) ↦ (some (err e), s')
    ]
