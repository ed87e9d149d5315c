-- ===== src/Client/Request/Protocol.antt =====
-- The replies that the protocol has for each request, from the format comment of
-- src/message/mod.rs, and that the client takes these for a success and no others.
use rusftp.Prelude.{◌≡◌, Bool, true, false, Option, none, some, arith}
use rusftp.Message.Types.{Message, StatusCode, status_ok}
use rusftp.Message.Kind.{MessageKind}
use rusftp.Client.Reply.{
  unit_reply, expected, view_attrs, view_data, view_handle, view_name, view_extended, attrs_reply,
  data_reply, handle_reply, name_reply, extended_reply,
}
use rusftp.Client.Request.{is_accepted}

-- `-> …` of the comment, less the STATUS by which each request can fail.
unfoldable pub expected_reply : MessageKind → Option MessageKind
expected_reply MessageKind.open_ = some MessageKind.handle
expected_reply MessageKind.close = some MessageKind.status
expected_reply MessageKind.read = some MessageKind.content
expected_reply MessageKind.write = some MessageKind.status
expected_reply MessageKind.lstat = some MessageKind.attrs
expected_reply MessageKind.fstat = some MessageKind.attrs
expected_reply MessageKind.setstat = some MessageKind.status
expected_reply MessageKind.fsetstat = some MessageKind.status
expected_reply MessageKind.opendir = some MessageKind.handle
expected_reply MessageKind.readdir = some MessageKind.name
expected_reply MessageKind.remove = some MessageKind.status
expected_reply MessageKind.mkdir = some MessageKind.status
expected_reply MessageKind.rmdir = some MessageKind.status
expected_reply MessageKind.realpath = some MessageKind.name
expected_reply MessageKind.stat = some MessageKind.attrs
expected_reply MessageKind.rename = some MessageKind.status
expected_reply MessageKind.readlink = some MessageKind.name
expected_reply MessageKind.symlink = some MessageKind.status
expected_reply MessageKind.extended = some MessageKind.extended_reply
expected_reply k = none

unfoldable pub is_status_ok : StatusCode → Bool
is_status_ok status_ok = true
is_status_ok c = false

-- A message answers a request that expects a kind of reply: a status if it is `Ok`, and of the other
-- replies each of its kind.
unfoldable pub answers : Option MessageKind → Message → Bool
answers (some MessageKind.status) (Message.status s) = is_status_ok s.code
answers (some MessageKind.handle) (Message.handle h) = true
answers (some MessageKind.content) (Message.content d) = true
answers (some MessageKind.attrs) (Message.attrs a) = true
answers (some MessageKind.name) (Message.name n) = true
answers (some MessageKind.extended_reply) (Message.extended_reply r) = true
answers k m = false

-- For every kind of message and every reply: the request of this kind takes the reply for a success
-- exactly if the reply answers it, by the kind of reply that the format comment has for it.
pub is_accepted-eq :
    (k : MessageKind) (m : Message) → is_accepted k m ≡ answers (expected_reply k) m
unfolding is_accepted expected_reply answers is_status_ok unit_reply expected view_attrs view_data
    view_handle view_name view_extended attrs_reply data_reply handle_reply name_reply
    extended_reply
is_accepted-eq MessageKind.open_ m = ground arith
is_accepted-eq k m = ground arith
