-- ===== src/Client/Stop.antt =====
-- src/client/stop.rs, and the clones of a client. The handle of the receiver task is shared by the
-- clones: `refs` is the number of references to it.
pub mod Session
use rusftp.Prelude.{ℕ, ◌+◌, ◌-◌, ◌==◌, Bool, true, false, not, if◌then◌else◌}
use rusftp.Client.Future.{SftpClient}

-- `SftpClientStopping`, as the client it borrows and the handle, if it has that.
pub record Stopping : Type 0 where
  pub client : SftpClient
  pub request_processor : Bool

-- `SftpClientStopping::new`. `Arc::into_inner` gives the handle to the last reference, and drops any
-- other.
unfoldable pub new_stopping : SftpClient → ℕ → Stopping × ℕ
new_stopping c refs =
    let c' = record c { commands = false; request_processor = false } in
    if c.request_processor
    then (if refs == 1
        then (record { client = c'; request_processor = true }, 0)
        else (record { client = c'; request_processor = false }, refs - 1))
    else (record { client = c'; request_processor = false }, refs)

-- `SftpClient::stop`
unfoldable pub stop : SftpClient → ℕ → Stopping × ℕ
unfolding new_stopping
stop c refs = new_stopping c refs

-- `SftpClient::is_stopped`
unfoldable pub client_is_stopped : SftpClient → Bool
client_is_stopped c = not c.commands

-- `SftpClientStopping::is_stopped`
unfoldable pub is_stopped : Stopping → Bool
is_stopped s = not s.request_processor

-- `Future::poll`, where `ended` says whether the task has ended: whether the future is ready.
unfoldable pub poll_stopping : Stopping → Bool → Bool × Stopping
poll_stopping s ended =
    if s.request_processor
    then (if ended then (true, record s { request_processor = false }) else (false, s))
    else (true, s)

-- `Drop for SftpClientStopping`: the client that it has borrowed is free again.
unfoldable pub drop_stopping : Stopping → ℕ → SftpClient × ℕ
drop_stopping s refs =
    if s.request_processor
    then (record s.client { request_processor = true }, 1)
    else (s.client, refs)

-- `SftpClientStopping::forget`
unfoldable pub forget : Stopping → ℕ → SftpClient × ℕ
unfolding drop_stopping
forget s refs = drop_stopping (record s { request_processor = false }) refs

-- `Drop for SftpClient`, with what is left of the references.
unfoldable pub drop_client : SftpClient → ℕ → SftpClient × ℕ
unfolding new_stopping forget
drop_client c refs = let s = new_stopping c refs in forget s.0 s.1

-- `Clone for SftpClient`, derived.
unfoldable pub clone_client : SftpClient → ℕ → SftpClient × ℕ
clone_client c refs = (c, if c.request_processor then refs + 1 else refs)
