-- ===== src/Client/Commands/Readdir/Listing.antt =====
-- What `SftpClient::readdir`, src/client/commands.rs, makes of a directory that a server lists.
use rusftp.Prelude.{
  ℕ, suc, ◌+◌, ◌-◌, ◌∙◌, ◌≡◌, ◌<◌, ◌≢◌, refl, true, List, [], ◌∷◌, ◌++◌, concat, some, ok, err,
  length, arith, append-nil, append_assoc,
}
use rusftp.Message.Types.{Handle, FilePath, Name, NameEntry, Message, Status, status_ok, eof}
use rusftp.Client.Error.{sftp}
use rusftp.Client.Reply.{unit_reply, handle_reply, name_reply, expected, view_handle, view_name}
use rusftp.Client.Future.{SftpClient, sent, poll, request_with, send_request, send}
use rusftp.Client.Request.{request}
use rusftp.Client.Commands.{opendir_handle, readdir_handle, close}
use rusftp.Client.Commands.Readdir.{
  Peer, arrival, result_of, await, finish_listing, abort_listing, end_listing, readdir_loop,
  readdir,
}

-- In the states from `s` to `t` the server answers one READDIR of `h` after the other by the chunks.
abbrev pub Lists : {S : Type 0} → Peer S → Handle → List (List NameEntry) → S → S → Type 0
Lists peer h [] s t = s ≡ t
Lists {S} peer h (chunk ∷ chunks) s t =
    (u : S) × (peer.answer (Message.readdir (record { handle = h })) s
      ≡ (sent (ok (Message.name (record { entries = chunk }))), u))
    × Lists peer h chunks u t

module _ {S : Type 0} (peer : Peer S) (c : SftpClient) (running : c.commands ≡ true)
    (receiving : c.receiving ≡ true) where
  await-readdir :
      (h : Handle) (s t : S) (n : Name)
      → peer.answer (Message.readdir (record { handle = h })) s ≡ (sent (ok (Message.name n)), t)
      → await peer (readdir_handle c h) s ≡ (some (ok n), t)
  unfolding await arrival result_of readdir_handle request request_with send_request send poll
      name_reply expected view_name
  await-readdir h s t n e = ground arith

  await-readdir_status :
      (h : Handle) (s t : S) (status : Status)
      → peer.answer (Message.readdir (record { handle = h })) s
        ≡ (sent (ok (Message.status status)), t)
      → await peer (readdir_handle c h) s ≡ (some (err (sftp status)), t)
  unfolding await arrival result_of readdir_handle request request_with send_request send poll
      name_reply expected view_name
  await-readdir_status h s t status e = ground arith

  await-opendir :
      (p : FilePath) (h : Handle) (s t : S)
      → peer.answer (Message.opendir (record { path = p })) s ≡ (sent (ok (Message.handle h)), t)
      → await peer (opendir_handle c p) s ≡ (some (ok h), t)
  unfolding await arrival result_of opendir_handle request request_with send_request send poll
      handle_reply expected view_handle
  await-opendir p h s t e = ground arith

  await-close :
      (h : Handle) (s t : S) (status : Status)
      → peer.answer (Message.close (record { handle = h })) s
        ≡ (sent (ok (Message.status status)), t)
      → await peer (close c h) s ≡ (some (unit_reply (Message.status status)), t)
  unfolding await arrival result_of close request request_with send_request send poll
  await-close h s t status e = ground arith

  -- The loop over the chunks of a listing, and what is left of it then.
  readdir_loop-Lists :
      (h : Handle) (chunks : List (List NameEntry)) (n fuel : ℕ) (entries : List NameEntry)
      (s t : S)
      → n ≡ length chunks + fuel
      → Lists peer h chunks s t
      → readdir_loop n peer c h entries s ≡ readdir_loop fuel peer c h (entries ++ concat chunks) t
  unfolding readdir_loop concat
  readdir_loop-Lists h [] n fuel entries s t size e =
      let same : n ≡ fuel = omega (arith, size) in rw (same, e, append-nil entries) refl
  readdir_loop-Lists h (chunk ∷ chunks) n fuel entries s t size (u, e, rest) =
      let more : n ≡ suc (length chunks + fuel) = omega (arith, size) in
      rw
        (
          more,
          readdir_loop,
          await-readdir h s u (record { entries = chunk }) e,
          await-readdir h s u (record { entries = chunk }) e,
        )
        (readdir_loop-Lists h chunks (length chunks + fuel) fuel (entries ++ chunk) u t refl rest
          ∙ rw (append_assoc entries chunk (concat chunks)) refl)

  -- The client runs; OPENDIR gives a handle, the READDIRs that follow give chunks of entries, and then
  -- the status `Eof`, and CLOSE gives `Ok`. With fuel for one round more than there are chunks,
  -- `readdir` gives the entries of all chunks in order.
  pub readdir-Lists :
      (p : FilePath) (h : Handle) (chunks : List (List NameEntry)) (fuel : ℕ) (s t u v w : S)
      (end last : Status)
      → peer.answer (Message.opendir (record { path = p })) s ≡ (sent (ok (Message.handle h)), t)
      → Lists peer h chunks t u
      → peer.answer (Message.readdir (record { handle = h })) u
        ≡ (sent (ok (Message.status end)), v)
      → end.code ≡ eof
      → peer.answer (Message.close (record { handle = h })) v ≡ (sent (ok (Message.status last)), w)
      → last.code ≡ status_ok
      → length chunks < fuel
      → readdir fuel peer c p s ≡ (some (ok (record { entries = concat chunks })), w)
  unfolding readdir readdir_loop end_listing finish_listing unit_reply concat
  readdir-Lists p h chunks fuel s t u v w end last opens lists ends is_eof closes is_ok enough =
      rw (readdir, await-opendir p h s t opens, await-opendir p h s t opens)
        (readdir_loop-Lists h chunks fuel (suc (fuel - suc (length chunks))) [] t u
            (omega (arith, enough)) lists
          ∙ ground (arith, await-readdir_status h u v end ends, await-close h v w last closes))

  -- The client runs; OPENDIR gives a handle, the READDIRs that follow give chunks of entries, and then
  -- a status other than `Eof`, and CLOSE gives a status. With fuel for one round more than there are
  -- chunks, `readdir` gives the status of the last READDIR as its error, and has closed the handle.
  pub readdir-fails :
      (p : FilePath) (h : Handle) (chunks : List (List NameEntry)) (fuel : ℕ) (s t u v w : S)
      (end last : Status)
      → peer.answer (Message.opendir (record { path = p })) s ≡ (sent (ok (Message.handle h)), t)
      → Lists peer h chunks t u
      → peer.answer (Message.readdir (record { handle = h })) u
        ≡ (sent (ok (Message.status end)), v)
      → end.code ≢ eof
      → peer.answer (Message.close (record { handle = h })) v ≡ (sent (ok (Message.status last)), w)
      → length chunks < fuel
      → readdir fuel peer c p s ≡ (some (err (sftp end)), w)
  unfolding readdir readdir_loop end_listing abort_listing
  readdir-fails p h chunks fuel s t u v w end last opens lists ends not_eof closes enough =
      rw (readdir, await-opendir p h s t opens, await-opendir p h s t opens)
        (readdir_loop-Lists h chunks fuel (suc (fuel - suc (length chunks))) [] t u
            (omega (arith, enough)) lists
          ∙ ground (arith, await-readdir_status h u v end ends, await-close h v w last closes))
