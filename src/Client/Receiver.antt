-- ===== src/Client/Receiver.antt =====
-- src/client/receiver.rs: the task that owns the stream, numbers the requests and hands out the
-- replies. Logging and the shutdown of the stream, after which nothing happens, are left out.
pub mod Table
pub mod Quiet
pub mod Balance
pub mod Run
pub mod Framing
pub mod Exchange
pub mod Pieces
pub mod Chunks
pub mod Refused
use rusftp.Prelude.{
  ℕ, zero, suc, ◌+◌, ◌-◌, ◌%◌, ◌^◌, Bool, true, false, List, [], ◌∷◌, ◌++◌, Option, none, some,
  Result, ok, err, length, take, drop, leb, ◌==◌, if◌then◌else◌,
}
use Prim.Native.Nat.{max}
use rusftp.Wire.Bytes.{get_be}
use rusftp.Message.Types.{Bytes, Message, StatusCode, connection_lost}
use rusftp.Message.Encode.{encode}
use rusftp.Message.Decode.{DecodeError, decode_raw}
use rusftp.Client.Error.{Error, sftp, wire_format, io, IoKind, of_decode_error, to_status, text}
use rusftp.Client.Reply.{Reply}

-- What `AsyncRead::poll_read` finds: nothing yet, an error, or bytes, which are none at the end.
pub data Reading : Type 0 where
  pending : Reading
  failed : IoKind → Bytes → Reading
  filled : Bytes → Reading

-- The stream, of a library: `poll_read` is given the room of the buffer.
pub record Stream (S : Type 0) : Type 0 where
  pub poll_read : ℕ → S → Reading × S
  pub write_all : Bytes → S → Result (Unit {0}) Error × S

-- The `oneshot` channel of a request, which a number identifies.
abbrev pub Sender : Type 0
Sender = ℕ

-- `HashMap<u32, oneshot::Sender<Response>>`
abbrev pub OnFlight : Type 0
OnFlight = List (ℕ × Sender)

-- The receiver. `accepted` and `answers` record what came out of the channel of the commands and
-- what was sent to the requests; the code does not read them.
pub record Receiver (S : Type 0) : Type 0 where
  pub onflight : OnFlight
  pub next_id : ℕ
  pub stream : S
  pub response_size : Option ℕ
  pub response_buffer : Bytes
  pub accepted : List Sender
  pub answers : List (Sender × Reply Message)

-- `Receiver::new`
unfoldable pub new_receiver : {S : Type 0} → S → Receiver S
new_receiver stream = record {
  onflight = [];
  next_id = 0;
  stream = stream;
  response_size = none;
  response_buffer = [];
  accepted = [];
  answers = [];
}

-- What `poll_recv` finds in the channel of the commands.
pub data CommandPoll : Type 0 where
  received : Message → Sender → CommandPoll
  closed : CommandPoll
  nothing : CommandPoll

pub data StreamItem : Type 0 where
  request : Message → Sender → StreamItem
  response : Bytes → StreamItem
  failure : IoKind → Bytes → StreamItem

-- `Poll<Option<StreamItem>>`, and the loop that has not come to an end with its fuel.
pub data Polled : Type 0 where
  waiting : Polled
  ended : Polled
  item : StreamItem → Polled
  spinning : Polled

-- One round of the loop of `poll_next`: it returns, or goes on.
pub data Round (S : Type 0) : Type 0 where
  returned : Polled → Receiver S → Round S
  again : Receiver S → Round S

-- The end of a round, with `new_len` bytes wanted in the buffer.
unfoldable pub read_more : {S : Type 0} → Stream S → ℕ → Receiver S → Round S
read_more stream new_len r =
    let old_len = length r.response_buffer in
    let (read, s) = stream.poll_read (max new_len 1024 - old_len) r.stream in
    elim read [
      | filled bytes ↦
          (let r' = record r { stream = s; response_buffer = r.response_buffer ++ bytes } in
            if length bytes == old_len then returned ended r' else again r')
      | failed kind msg ↦ returned (item (failure kind msg)) (record r { stream = s })
      | pending ↦ returned waiting (record r { stream = s })
    ]

unfoldable pub round : {S : Type 0} → Stream S → Receiver S → Round S
unfolding read_more
round stream r = elim r.response_size [
  | some size ↦
      if leb size (length r.response_buffer)
      then returned (item (response (take size r.response_buffer)))
          (record r { response_size = none; response_buffer = drop size r.response_buffer })
      else read_more stream size r
  | none ↦
      if leb 4 (length r.response_buffer)
      then again (record r {
        response_size = some (get_be (take 4 r.response_buffer));
        response_buffer = drop 4 r.response_buffer;
      })
      else read_more stream 4 r
]

unfoldable pub poll_stream : {S : Type 0} → ℕ → Stream S → Receiver S → Polled × Receiver S
unfolding round
poll_stream zero stream r = (spinning, r)
poll_stream (suc fuel) stream r = elim (round stream r) [
  | returned p r' ↦ (p, r')
  | again r' ↦ poll_stream fuel stream r'
]

-- `Stream::poll_next`
unfoldable pub poll_next :
    {S : Type 0} → ℕ → Stream S → CommandPoll → Receiver S → Polled × Receiver S
unfolding poll_stream
poll_next fuel stream (received m tx) r =
    (item (request m tx), record r { accepted = tx ∷ r.accepted })
poll_next fuel stream closed r = elim r.onflight [
  | [] ↦ (ended, r)
  | entry ∷ rest ↦ poll_stream fuel stream r
]
poll_next fuel stream nothing r = poll_stream fuel stream r

unfoldable pub send_response : {S : Type 0} → Sender → Reply Message → Receiver S → Receiver S
send_response tx msg r = record r { answers = (tx, msg) ∷ r.answers }

-- `HashMap::get`, `HashMap::remove` and `HashMap::insert`
unfoldable pub find : ℕ → OnFlight → Option Sender
find id [] = none
find id ((k, tx) ∷ rest) = if k == id then some tx else find id rest

unfoldable pub remove : ℕ → OnFlight → OnFlight
remove id [] = []
remove id ((k, tx) ∷ rest) =
    let others = remove id rest in if k == id then others else (k, tx) ∷ others

unfoldable pub insert : ℕ → Sender → OnFlight → OnFlight
unfolding remove
insert id tx entries = (id, tx) ∷ remove id entries

-- `write_msg`
unfoldable pub write_msg : {S : Type 0} → Stream S → Message → ℕ → S → Result (Unit {0}) Error × S
write_msg stream m id s = elim (encode m id) [
  | ok frame ↦ stream.write_all frame s
  | err e ↦ (err (wire_format e), s)
]

-- `match write_msg(…).await { Ok(()) => …, Err(err) => … }`
unfoldable pub settle :
    {S : Type 0} → ℕ → Sender → Result (Unit {0}) Error × S → Receiver S → Receiver S
unfolding insert send_response
settle id tx (ok u, s) r = record r { stream = s; onflight = insert id tx r.onflight }
settle id tx (err e, s) r = send_response tx (err e) (record r { stream = s })

-- `StreamItem::Request`; the addition wraps, as it does without overflow checks.
unfoldable pub handle_request : {S : Type 0} → Stream S → Message → Sender → Receiver S → Receiver S
unfolding write_msg settle
handle_request stream m tx r =
    let id = (r.next_id + 1) % 2 ^ 32 in
    settle id tx (write_msg stream m id r.stream) (record r { next_id = id })

-- `if let Some(tx) = self.onflight.remove(&id) { send_response(tx, …) }`
unfoldable pub answer : {S : Type 0} → ℕ → Reply Message → Receiver S → Receiver S
unfolding find remove send_response
answer id msg r = elim (find id r.onflight) [
  | some tx ↦ send_response tx msg (record r { onflight = remove id r.onflight })
  | none ↦ r
]

-- `StreamItem::Response`
unfoldable pub handle_response : {S : Type 0} → Bytes → Receiver S → Receiver S
unfolding answer
handle_response bytes r = elim (decode_raw bytes) [
  | ok (id, m) ↦ answer id (ok m) r
  | err e ↦ elim e.id [ some id ↦ answer id (err (of_decode_error e)) r | none ↦ r ]
]

-- `StreamItem::Error`: the kinds of errors after which the loop goes on.
unfoldable pub goes_on : IoKind → Bool
goes_on IoKind.would_block = true
goes_on IoKind.timed_out = true
goes_on IoKind.write_zero = true
goes_on IoKind.interrupted = true
goes_on IoKind.out_of_memory = true
goes_on kind = false

-- The body of the loop of `run`: the receiver, and whether the loop goes on.
unfoldable pub handle : {S : Type 0} → Stream S → StreamItem → Receiver S → Bool × Receiver S
unfolding handle_request handle_response goes_on
handle stream (request m tx) r = (true, handle_request stream m tx r)
handle stream (response bytes) r = (true, handle_response bytes r)
handle stream (failure kind msg) r = (goes_on kind, r)

-- The end of `run`: `for (_, tx) in self.onflight { send_response(tx, …) }`
abbrev pub lost : Reply Message
lost =
    err (sftp (to_status connection_lost (text "Could not receive response: SFTP stream stopped")))

unfoldable pub answer_all : OnFlight → List (Sender × Reply Message) → List (Sender × Reply Message)
answer_all [] answers = answers
answer_all ((id, tx) ∷ rest) answers = answer_all rest ((tx, lost) ∷ answers)

unfoldable pub finish : {S : Type 0} → Receiver S → Receiver S
unfolding answer_all
finish r = record r { onflight = []; answers = answer_all r.onflight r.answers }

-- How the task stands: it waits for the next poll, has ended, or is in a loop without end.
pub data Task : Type 0 where
  alive done stuck : Task

-- `run`, polled once for each of the given states of the channel of the commands.
unfoldable pub run : {S : Type 0} → ℕ → Stream S → List CommandPoll → Receiver S → Task × Receiver S
unfolding poll_next handle finish
run fuel stream [] r = (alive, r)
run fuel stream (c ∷ cs) r =
    let (p, r') = poll_next fuel stream c r in
    elim p [
      | waiting ↦ run fuel stream cs r'
      | ended ↦ (done, finish r')
      | spinning ↦ (stuck, r')
      | item i ↦
          (let (on, r'') = handle stream i r' in
            elim on [ true ↦ run fuel stream cs r'' | false ↦ (done, finish r'') ])
    ]
