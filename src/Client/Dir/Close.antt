-- ===== src/Client/Dir/Close.antt =====
-- src/client/dir/close.rs: closing a directory. `processor` is the number of references to the handle
-- of the client's task.
pub mod Closing
use rusftp.Prelude.{ℕ, Bool, true, false, Option, none, some, ok, err, if◌then◌else◌}
use rusftp.Message.Types.{Handle, Message}
use rusftp.Client.Reply.{Reply}
use rusftp.Client.Future.{Slot, Poll, waiting, ready, panicked, SftpFuture, poll}
use rusftp.Client.Stop.{
  Stopping, new_stopping, is_stopped, poll_stopping, drop_stopping, forget as forget_stopping,
}
use rusftp.Client.Commands.{close}
use rusftp.Client.Dir.{Dir}

-- `DirClosingState`; the directory that is borrowed stands in `DirClosing`.
pub data ClosingState : Type 0 where
  closing : Handle → SftpFuture (Unit {0}) → ClosingState
  stopping : Stopping → ClosingState
  closed : ClosingState

pub record DirClosing : Type 0 where
  pub dir : Dir
  pub processor : ℕ
  pub state : ClosingState

-- `Dir::is_closed`
unfoldable pub is_closed : Dir → Bool
is_closed d = elim d.handle [ none ↦ true | some h ↦ false ]

unfoldable pub stop_client : Dir → ℕ → Stopping × DirClosing
stop_client d processor =
    let (s, n) = new_stopping d.client processor in
    (
      s,
      record {
        dir = record d { client = s.client };
        processor = n;
        state = ClosingState.stopping s;
      },
    )

-- `DirClosing::new`
unfoldable pub new_closing : Dir → ℕ → DirClosing
unfolding stop_client
new_closing d processor =
    let d' = record d { buffer = none; pending = none; handle = none } in
    elim d.handle [
      | none ↦
          (let (s, c) = stop_client d' processor in
            if is_stopped s then record c { state = ClosingState.closed } else c)
      | some h ↦ record {
        dir = d';
        processor = processor;
        state = ClosingState.closing h (close d.client h);
      }
    ]

-- The rounds of the loop of `poll` from the state `Stopping` on.
unfoldable pub poll_stop : Bool → DirClosing → Stopping → Poll (Reply (Unit {0})) × DirClosing
poll_stop ended c s =
    let (done, s') = poll_stopping s ended in
    if done
    then (ready (ok tt), record c { state = ClosingState.closed })
    else (waiting, record c { state = ClosingState.stopping s' })

-- `Future::poll`
unfoldable pub poll_closing : Slot → Bool → DirClosing → Poll (Reply (Unit {0})) × DirClosing
unfolding poll_stop stop_client
poll_closing slot ended c = elim c.state [
  | ClosingState.closing h future ↦
      (let q = poll future slot in
        elim q.0 [
          | ready (ok u) ↦ (let (s, c') = stop_client c.dir c.processor in poll_stop ended c' s)
          | ready (err e) ↦ (ready (err e), record c { state = ClosingState.closing h q.1 })
          | waiting ↦ (waiting, record c { state = ClosingState.closing h q.1 })
          | panicked ↦ (panicked, record c { state = ClosingState.closing h q.1 })
        ])
  | ClosingState.stopping s ↦ poll_stop ended c s
  | ClosingState.closed ↦ (ready (ok tt), c)
]

-- `Drop for DirClosing`, and that of the future that stops the client.
unfoldable pub drop_closing : DirClosing → Dir × ℕ
drop_closing c = elim c.state [
  | ClosingState.closing h future ↦ (record c.dir { handle = some h }, c.processor)
  | ClosingState.stopping s ↦
      (let (client, n) = drop_stopping s c.processor in (record c.dir { client = client }, n))
  | ClosingState.closed ↦ (c.dir, c.processor)
]

-- `DirClosing::forget`
unfoldable pub forget : DirClosing → Dir × ℕ
unfolding stop_client
forget c = elim c.state [
  | ClosingState.closing h future ↦
      (let (s, c') = stop_client c.dir c.processor in
        let (client, n) = forget_stopping s c'.processor in (record c'.dir { client = client }, n))
  | ClosingState.stopping s ↦
      (let (client, n) = forget_stopping s c.processor in (record c.dir { client = client }, n))
  | ClosingState.closed ↦ (c.dir, c.processor)
]

-- `Drop for Dir`
unfoldable pub drop_dir : Dir → ℕ → Dir × ℕ
unfolding new_closing forget
drop_dir d processor = forget (new_closing d processor)
