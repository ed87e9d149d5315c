-- ===== src/Message/Kind.antt =====
-- `MessageKind` of the macro `messages!` in src/message/mod.rs: kinds and their type codes.
use rusftp.Prelude.{
  ℕ, ◌≡◌, refl, Option, none, some, Option-cases, inl, inr, ◌==◌, ◌↔◌, if◌then◌else◌, arith,
}
use rusftp.Message.Types.{Message}

pub data MessageKind : Type 0 where
  init version open_ close read write lstat fstat setstat fsetstat : MessageKind
  opendir readdir remove mkdir rmdir realpath stat rename readlink symlink : MessageKind
  status handle content name attrs extended extended_reply : MessageKind

-- `Message::kind`
unfoldable pub kind : Message → MessageKind
kind (Message.init m) = MessageKind.init
kind (Message.version m) = MessageKind.version
kind (Message.open_ m) = MessageKind.open_
kind (Message.close m) = MessageKind.close
kind (Message.read m) = MessageKind.read
kind (Message.write m) = MessageKind.write
kind (Message.lstat m) = MessageKind.lstat
kind (Message.fstat m) = MessageKind.fstat
kind (Message.setstat m) = MessageKind.setstat
kind (Message.fsetstat m) = MessageKind.fsetstat
kind (Message.opendir m) = MessageKind.opendir
kind (Message.readdir m) = MessageKind.readdir
kind (Message.remove m) = MessageKind.remove
kind (Message.mkdir m) = MessageKind.mkdir
kind (Message.rmdir m) = MessageKind.rmdir
kind (Message.realpath m) = MessageKind.realpath
kind (Message.stat m) = MessageKind.stat
kind (Message.rename m) = MessageKind.rename
kind (Message.readlink m) = MessageKind.readlink
kind (Message.symlink m) = MessageKind.symlink
kind (Message.status m) = MessageKind.status
kind (Message.handle m) = MessageKind.handle
kind (Message.content m) = MessageKind.content
kind (Message.name m) = MessageKind.name
kind (Message.attrs m) = MessageKind.attrs
kind (Message.extended m) = MessageKind.extended
kind (Message.extended_reply m) = MessageKind.extended_reply

-- `MessageKind::code`
unfoldable pub code : MessageKind → ℕ
code init = 1
code version = 2
code open_ = 3
code close = 4
code read = 5
code write = 6
code lstat = 7
code fstat = 8
code setstat = 9
code fsetstat = 10
code opendir = 11
code readdir = 12
code remove = 13
code mkdir = 14
code rmdir = 15
code realpath = 16
code stat = 17
code rename = 18
code readlink = 19
code symlink = 20
code status = 101
code handle = 102
code content = 103
code name = 104
code attrs = 105
code extended = 200
code extended_reply = 201

low_kind : ℕ → Option MessageKind
low_kind c =
    if c == 1
    then some init
    else if c == 2
    then some version
    else if c == 3
    then some open_
    else if c == 4
    then some close
    else if c == 5
    then some read
    else if c == 6
    then some write
    else if c == 7
    then some lstat
    else if c == 8
    then some fstat
    else if c == 9
    then some setstat
    else if c == 10
    then some fsetstat
    else none

middle_kind : ℕ → Option MessageKind
middle_kind c =
    if c == 11
    then some opendir
    else if c == 12
    then some readdir
    else if c == 13
    then some remove
    else if c == 14
    then some mkdir
    else if c == 15
    then some rmdir
    else if c == 16
    then some realpath
    else if c == 17
    then some stat
    else if c == 18
    then some rename
    else if c == 19
    then some readlink
    else if c == 20
    then some symlink
    else none

high_kind : ℕ → Option MessageKind
high_kind c =
    if c == 101
    then some status
    else if c == 102
    then some handle
    else if c == 103
    then some content
    else if c == 104
    then some name
    else if c == 105
    then some attrs
    else if c == 200
    then some extended
    else if c == 201
    then some extended_reply
    else none

or_else : Option MessageKind → Option MessageKind → Option MessageKind
or_else (some k) o = some k
or_else none o = o

-- `MessageKind::try_from(u8)`; the arms of the one match stand in three groups.
unfoldable pub kind_of_code : ℕ → Option MessageKind
unfolding low_kind middle_kind high_kind or_else
kind_of_code c = or_else (low_kind c) (or_else (middle_kind c) (high_kind c))

-- Every kind is found again by its code.
pub kind_of_code-code : (k : MessageKind) → kind_of_code (code k) ≡ some k
unfolding kind_of_code code
kind_of_code-code init = refl
kind_of_code-code _ = refl

low_kind-code : (c : ℕ) {k : MessageKind} → low_kind c ≡ some k → code k ≡ c
unfolding low_kind code
low_kind-code c h = ground arith

middle_kind-code : (c : ℕ) {k : MessageKind} → middle_kind c ≡ some k → code k ≡ c
unfolding middle_kind code
middle_kind-code c h = ground arith

high_kind-code : (c : ℕ) {k : MessageKind} → high_kind c ≡ some k → code k ≡ c
unfolding high_kind code
high_kind-code c h = ground arith

-- And a code that names a kind is that kind's code.
pub code-kind_of_code : (c : ℕ) (k : MessageKind) → kind_of_code c ≡ some k → code k ≡ c
unfolding kind_of_code
code-kind_of_code c k h = elim (Option-cases (low_kind c)) [
  | inr (a, e) ↦ low_kind-code c (cc)
  | inl e ↦ elim (Option-cases (middle_kind c)) [
    | inr (b, e') ↦ middle_kind-code c (cc)
    | inl e' ↦ high_kind-code c (rw (e, or_else, e', or_else) at h)
  ]
]

-- A code names a kind exactly if it is the code of that kind: no two kinds share a code, every kind
-- is found by its own, and a code of no kind is refused.
pub kind_of_code_iff : (c : ℕ) (k : MessageKind) → (kind_of_code c ≡ some k) ↔ (code k ≡ c)
kind_of_code_iff c k = (code-kind_of_code c k, λ e. rw (← e) (kind_of_code-code k))
