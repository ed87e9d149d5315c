-- ===== src/Client/File/Close.antt =====
-- src/client/file/close.rs: closing a file. The handle of the file is shared by its clones, with
-- `handle` references, and the handle of the client's task by the clones of the client, with
-- `processor` references.
pub mod Closing
use rusftp.Prelude.{
  ℕ, ◌-◌, ◌==◌, Bool, true, false, List, [], Option, none, some, ok, err, if◌then◌else◌,
}
use rusftp.Message.Types.{Handle, Message}
use rusftp.Client.Reply.{Reply}
use rusftp.Client.Future.{
  Slot, Poll, waiting, ready, panicked, SftpFuture, SftpClient, poll, submitted,
}
use rusftp.Client.Stop.{
  Stopping, new_stopping, is_stopped, poll_stopping, drop_stopping, forget as forget_stopping,
}
use rusftp.Client.Commands.{close}
use rusftp.Client.File.{PendingOperation, File}

pub record Refs : Type 0 where
  pub handle : ℕ
  pub processor : ℕ

-- `FileClosingState`; the file that is borrowed stands in `FileClosing`.
pub data ClosingState : Type 0 where
  closing : Handle → SftpFuture (Unit {0}) → ClosingState
  stopping : Stopping → ClosingState
  closed : ClosingState

-- `requests` records what this closing has put into the channel of the commands; the code does not
-- read it.
pub record FileClosing : Type 0 where
  pub file : File
  pub refs : Refs
  pub requests : List Message
  pub state : ClosingState

-- `File::is_closed`
unfoldable pub is_closed : File → Bool
is_closed f = elim f.handle [ none ↦ true | some h ↦ false ]

-- The client is stopped, and is lent to the future that stops it.
unfoldable pub stop_client : List Message → File → Refs → Stopping × FileClosing
stop_client requests f refs =
    let (s, n) = new_stopping f.client refs.processor in
    (
      s,
      record {
        file = record f { client = s.client };
        refs = record refs { processor = n };
        requests = requests;
        state = ClosingState.stopping s;
      },
    )

-- The end of `FileClosing::new`, which sends nothing.
unfoldable pub stop_now : File → Refs → FileClosing
unfolding stop_client
stop_now f refs =
    let (s, c) = stop_client [] f refs in
    if is_stopped s then record c { state = ClosingState.closed } else c

-- `FileClosing::new`
unfoldable pub new_closing : File → Refs → FileClosing
unfolding stop_now submitted
new_closing f refs =
    let f' = record f { pending = PendingOperation.idle; handle = none } in
    elim f.handle [
      | none ↦ stop_now f' refs
      | some h ↦
          if refs.handle == 1
          then (let future = close f.client h in
              record {
                file = f';
                refs = record refs { handle = 0 };
                requests = submitted future;
                state = ClosingState.closing h future;
              })
          else stop_now f' (record refs { handle = refs.handle - 1 })
    ]

-- The rounds of the loop of `poll` from the state `Stopping` on.
unfoldable pub poll_stop : Bool → FileClosing → Stopping → Poll (Reply (Unit {0})) × FileClosing
poll_stop ended c s =
    let (done, s') = poll_stopping s ended in
    if done
    then (ready (ok tt), record c { state = ClosingState.closed })
    else (waiting, record c { state = ClosingState.stopping s' })

-- `Future::poll`; `slot` is what the channel of the CLOSE holds, and `ended` says whether the task
-- of the client has ended.
unfoldable pub poll_closing : Slot → Bool → FileClosing → Poll (Reply (Unit {0})) × FileClosing
unfolding poll_stop stop_client
poll_closing slot ended c = elim c.state [
  | ClosingState.closing h future ↦
      (let q = poll future slot in
        elim q.0 [
          | ready (ok u) ↦
              (let (s, c') = stop_client c.requests c.file c.refs in poll_stop ended c' s)
          | ready (err e) ↦ (ready (err e), record c { state = ClosingState.closing h q.1 })
          | waiting ↦ (waiting, record c { state = ClosingState.closing h q.1 })
          | panicked ↦ (panicked, record c { state = ClosingState.closing h q.1 })
        ])
  | ClosingState.stopping s ↦ poll_stop ended c s
  | ClosingState.closed ↦ (ready (ok tt), c)
]

-- `Drop for FileClosing`, and that of the future that stops the client: the file is free again.
unfoldable pub drop_closing : FileClosing → File × Refs
drop_closing c = elim c.state [
  | ClosingState.closing h future ↦
      (record c.file { handle = some h }, record c.refs { handle = 1 })
  | ClosingState.stopping s ↦
      (let (client, n) = drop_stopping s c.refs.processor in
        (record c.file { client = client }, record c.refs { processor = n }))
  | ClosingState.closed ↦ (c.file, c.refs)
]

-- `FileClosing::forget`
unfoldable pub forget : FileClosing → File × Refs
unfolding stop_client
forget c = elim c.state [
  | ClosingState.closing h future ↦
      (let (s, c') = stop_client c.requests c.file c.refs in
        let (client, n) = forget_stopping s c'.refs.processor in
        (record c'.file { client = client }, record c'.refs { processor = n }))
  | ClosingState.stopping s ↦
      (let (client, n) = forget_stopping s c.refs.processor in
        (record c.file { client = client }, record c.refs { processor = n }))
  | ClosingState.closed ↦ (c.file, c.refs)
]

-- `Drop for File`
unfoldable pub drop_file : File → Refs → File × Refs
unfolding new_closing forget
drop_file f refs = forget (new_closing f refs)
