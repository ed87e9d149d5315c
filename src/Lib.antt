-- ===== src/Lib.antt =====
-- rusftp: an SFTP client library in Rust. These modules model its wire format, its messages and
-- the parts of its client that make requests and match replies to them, read, write, seek and close
-- files, list directories, and connect and stop, and prove what they do.
--
-- The program. Messages (src/message/) are structs that serde walks; src/wire/encoder.rs and
-- src/wire/decoder.rs are the serializer and the deserializer that write and read the binary
-- layout. `Message::encode` and `Message::decode` (src/message/mod.rs) put the length, the type
-- and the id of a request around it. The client (src/client/) sends messages over a channel to a
-- task that owns the SSH stream, and makes futures of the replies: src/client/request.rs holds
-- the future and the types of replies, src/client/commands.rs the commands, src/client/file/ a
-- remote file with the traits of tokio.
--
-- The model.
--   Prelude          shared names, Boolean tests, lists and integers over the native numbers, and the
--                    monad `M` of a step that has a state and can fail
--   Wire/Error, Wire/Bytes, Wire/Utf8, Wire/Field
--                    src/wire/error.rs, big-endian integers, the check of `str::from_utf8`, and the
--                    test on a field's name that decides whether a length is written
--   Wire/Encoder     src/wire/encoder.rs; Writes and Lengths say which bytes each method adds, and
--                    Scalars has the methods that no message needs
--   Wire/Decoder     src/wire/decoder.rs; Reads, Sequences and Loops say how each method undoes them,
--                    Bounds what it gives on any buffer, Consumes which bytes it took, Growth what
--                    changes when bytes are added behind the buffer, and Scalars has the methods that
--                    no message needs
--   Wire/Scalars     numbers, characters and Booleans written and read back
--   Message/Types    the structs of src/message/*.rs; Message/Kind the codes of `messages!`
--   Message/Format   the packets of version 3 of the protocol, written without the serializers: what
--                    the encoder is compared with. Its header says where the format comment of
--                    src/message/mod.rs differs
--   Message/Serialize, Message/Deserialize
--                    the implementations of serde's traits, derived or written out; Message/Extensions
--                    the map of src/message/init.rs
--   Message/Encode, Message/Decode
--                    `Message::encode`, `Message::decode_raw` and `Message::decode`; RoundTrip is about
--                    whole frames, Truncated and Prefix about cut ones, Typed and Exact about any bytes
--   Message/Valid    what Rust's types say of a message, and the lengths that the format can hold
--   Client/Error     src/client/error.rs; Client/Reply the callbacks of src/client/commands.rs and
--                    the replies of src/client/request.rs; Client/Future `request_with` and
--                    `SftpFuture::poll`; Client/File src/client/file/mod.rs and read.rs,
--                    and Client/File/Write write.rs beside them
--   Client/Receiver  src/client/receiver.rs, the task that owns the stream: Table is about the
--                    requests in flight, Quiet, Balance and Run about their numbers and
--                    answers, Framing about the frames in the buffer, Pieces and Chunks about frames
--                    that arrive in pieces over several polls, Refused about replies that are cut,
--                    Exchange about a request and its reply from the client's future to the stream
--                    and back
--   Client/Dir       src/client/dir/mod.rs and stream.rs; Listing is about the order of entries, Whole
--                    about all of them, and Close is dir/close.rs
--   Client/Request   the traits of src/client/request.rs and the requests that have them; Protocol
--                    is the table of replies of the format comment
--   Client/Commands  src/client/commands.rs; Readdir its async listing of a directory
--   Client/Stop      src/client/stop.rs; Session is about the clients of one session
--   Client/File/Direct, Client/File/Seek, Client/File/Close
--                    the requests on a file, src/client/file/seek.rs and close.rs; Client/File/Whole
--                    reads one to its end, and Client/File/Write/Whole writes a buffer at its end
--   Client/Connect   the handshake of src/client/mod.rs; Channel is about the SSH channel under it
--   Message/Join     appending to a path, src/message/path.rs
--   Message/Entries, Message/Conversions
--                    src/message/name.rs as a container, and the conversions of src/utils.rs and of
--                    src/message/
--   Examples         the theorems at concrete inputs
--
-- The state. A serializer's method is a step on the `Encoder`, a buffer and the name of the current
-- field; a deserializer's on the `Decoder`; a visitor's on the `SeqAccess` that borrows the
-- decoder. A file is its client, its handle, its offset and the pending operation. A poll is given
-- what the one-shot channel of the request holds at that moment. The receiver is its table of
-- requests in flight, the last id, the stream and the buffer, with records of the requests that it
-- took and the answers that it sent, and the closing of a file has a record of the requests that it
-- sent; a run is given what the channel of the commands holds at each
-- poll, and the stream is a parameter that answers reads and writes. References that are counted (the
-- handle of a file, the handle of the task) are numbers beside the state; an async command runs
-- against a peer, a parameter that answers each request.
--
-- Bounds and fuel. Integers are natural numbers, with the size of their type where the code cuts
-- or compares; a `Vec<u8>` holds 2 ^ 63 - 1 bytes at most, as on a 64-bit target. The loops over
-- the entries of a map and the elements of a sequence have as fuel the length of the buffer and
-- one more; each of their rounds takes a byte at least, or is the last. The loop of `poll_next`,
-- which need not end, has its fuel as an argument, and gives `spinning` when that is used up. The
-- loop of `readdir` has its fuel as an argument too; one round more than the listing has chunks is
-- enough. The readers and writers of whole files, which stand for a caller of the polls, have fuel for
-- pairs of polls; one pair more than there are bytes is enough.
--
-- Not modelled: logging and `Debug`, the hints `is_human_readable` and `size_hint`, the crate root and
-- the examples. russh, tokio, bytes and serde themselves are not modelled; what russh does is a
-- parameter, and of bytes and serde the documented behaviour is used where the source calls them.
pub mod Prelude
pub mod Wire
pub mod Message
pub mod Client
mod Examples
