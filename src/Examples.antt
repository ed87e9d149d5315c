-- ===== src/Examples.antt =====
-- The properties at concrete messages, replies and files.
mod Receiving
mod Commanding
mod Closing
mod Wholes
mod Exchanging
mod Typing
mod Chunking
mod Connecting
mod Converting
use rusftp.Prelude.{
  ◌^◌, ◌%◌, ◌<◌, ◌≡◌, ◌≢◌, ◌↔◌, refl, true, [], ◌∷◌, ◌++◌, some, ok, length, take, arith, concat,
}
use rusftp.Wire.Bytes.{put_be}
use rusftp.Wire.Utf8.{is_utf8}
use rusftp.Message.Types.{Bytes, Message, Data, NameEntry, no_attrs, Status, status_ok}
use rusftp.Message.Kind.{MessageKind, kind_of_code, code, kind_of_code_iff}
use rusftp.Message.Format
use rusftp.Message.Valid.{IsValid}
use rusftp.Message.Encode.{encode}
use rusftp.Message.Encode.Frame.{encode_lem}
use rusftp.Message.Decode.{decode, decode_raw, panic, returned}
use rusftp.Message.Decode.RoundTrip.{id_back, decode-encode, decode_raw-packet}
use rusftp.Message.Decode.Truncated.{decode-truncated}
use rusftp.Client.Reply.{unit_reply, read_callback, path_callback, data_reply, expected, view_data}
use rusftp.Client.Reply.Outcome.{read_callback-fails, path_callback_iff}
use rusftp.Client.Future.{
  empty, sent, waiting, ready, panicked, SftpFuture, poll, request_with, send_request, send,
}
use rusftp.Client.File.{
  File, PendingOperation, poll_read, poll_pending, start_read, await_read, finish_read,
  read_request,
}
use rusftp.Client.File.Write.{poll_write, poll_flush}
use rusftp.Client.File.Write.Writing.{write_in_two_polls}
use rusftp.Client.File.Reading.{read_twice-panics, read_in_two_polls}

-- OPEN of "/a" for reading, with a mode.
abbrev opening : Message
opening = Message.open_ (record {
  filename = record { text = 47 ∷ 97 ∷ [] };
  pflags = record { bits = 1 };
  attrs = record no_attrs { perms = some (record { bits = 420 }) };
})

opening-IsValid : IsValid opening
unfolding is_utf8
opening-IsValid = (
  (omega arith, refl),
  omega arith,
  record { size = tt; owner = tt; perms = omega arith; time = tt },
)

opening-packet :
    Format.packet 7 opening
    ≡ 3 ∷ 0 ∷ 0 ∷ 0 ∷ 7 ∷ 0 ∷ 0 ∷ 0 ∷ 2 ∷ 47 ∷ 97 ∷ 0 ∷ 0 ∷ 0 ∷ 1 ∷ 0 ∷ 0 ∷ 0 ∷ 4 ∷ 0 ∷ 0 ∷ 1 ∷ 164
      ∷ []
unfolding Format.packet Format.packet_type Format.packet_id Format.body Format.attributes put_be
    concat
opening-packet = refl

packet_length : length (Format.packet 7 opening) ≡ 23
packet_length = rw (opening-packet) refl

packet_short : length (Format.packet 7 opening) < 2 ^ 32
packet_short = rw (packet_length) (omega arith)

decode-encode_example :
    (bytes : Bytes) × (encode opening 7 ≡ ok bytes)
    × (decode (bytes ++ 9 ∷ []) ≡ returned (ok (7, opening)))
unfolding id_back
decode-encode_example = decode-encode opening 7 (9 ∷ []) (omega arith) opening-IsValid packet_short

decode_raw-packet_example : decode_raw (Format.packet 7 opening ++ 9 ∷ []) ≡ ok (7, opening)
unfolding id_back
decode_raw-packet_example = decode_raw-packet 7 opening (9 ∷ []) (omega arith) opening-IsValid tt

encode_example :
    encode opening 7
    ≡ ok (put_be 4 (length (Format.packet 7 opening) % 2 ^ 32) ++ Format.packet 7 opening)
encode_example = encode_lem opening 7 opening-IsValid (rw (packet_length) (omega arith))

frame_long : 20 < length (Format.frame 7 opening)
unfolding Format.frame put_be
frame_long = rw (opening-packet) (omega arith)

decode-truncated_example : decode (take 20 (Format.frame 7 opening)) ≡ panic
decode-truncated_example = decode-truncated opening 7 20 packet_short frame_long

kind_of_code_example : (kind_of_code 105 ≡ some MessageKind.attrs) ↔ (code MessageKind.attrs ≡ 105)
kind_of_code_example = kind_of_code_iff 105 MessageKind.attrs

read_callback_example :
    read_callback (Message.content (record { bytes = 1 ∷ 2 ∷ [] })) ≢ ok (1 ∷ 2 ∷ [])
read_callback_example =
    read_callback-fails (Message.content (record { bytes = 1 ∷ 2 ∷ [] })) (1 ∷ 2 ∷ []) tt

abbrev two_entries : Message
two_entries = Message.name (record { entries = entry ∷ entry ∷ [] })
  where
    entry : NameEntry
    entry = record { filename = record { text = 97 ∷ [] }; long_name = []; attrs = no_attrs }

path_callback_example : (path_callback two_entries ≡ ok (record { text = 97 ∷ [] })) ↔ (
    (e : NameEntry) × (two_entries ≡ Message.name (record { entries = e ∷ [] }))
    × (e.filename ≡ record { text = 97 ∷ [] }))
path_callback_example = path_callback_iff two_entries (record { text = 97 ∷ [] })

abbrev done : Message
done = Message.status (record { code = status_ok; error = []; language = [] })

-- A file at offset 10, whose client is connected.
abbrev opened : File
opened = record {
  client = record { commands = true; request_processor = true; receiving = true; closed_text = [] };
  handle = some (record { bytes = 5 ∷ [] });
  offset = 10;
  pending = PendingOperation.idle;
}

abbrev answer : Data
answer = record { bytes = 104 ∷ 105 ∷ [] }

read_in_two_polls_example :
    ((poll_read 8 opened empty empty).0 ≡ waiting)
    × (poll_read 8 (poll_read 8 opened empty empty).1 (sent (ok (Message.content answer))) empty
        ≡ (ready (ok (104 ∷ 105 ∷ [])), record opened { offset = 12 }))
read_in_two_polls_example =
    read_in_two_polls opened (record { bytes = 5 ∷ [] }) answer 8 8 empty empty refl refl refl refl
      (omega arith)

-- The answer is there when the first poll looks.
answered : poll_read 8 opened empty (sent (ok (Message.content answer))) ≡ (
  ready (ok (104 ∷ 105 ∷ [])),
  record opened { offset = 12; pending = PendingOperation.read SftpFuture.polled },
)
unfolding poll_read poll_pending start_read await_read finish_read read_request request_with
    send_request send poll data_reply expected view_data
answered = refl

read_twice-panics_example :
    (poll_read 8
      (record opened { offset = 12; pending = PendingOperation.read SftpFuture.polled })
      empty
      empty).0
    ≡ panicked
read_twice-panics_example =
    read_twice-panics opened
      (record opened { offset = 12; pending = PendingOperation.read SftpFuture.polled })
      (record { bytes = 5 ∷ [] }) 8 8 empty (sent (ok (Message.content answer))) empty empty
      (ok (104 ∷ 105 ∷ [])) refl refl answered

write_in_two_polls_example :
    ((poll_write (7 ∷ 8 ∷ []) opened empty empty).0 ≡ waiting)
    × (poll_write [] (poll_write (7 ∷ 8 ∷ []) opened empty empty).1 (sent (ok done)) empty
        ≡ (ready (ok 2), record opened { offset = 12 }))
    × (poll_flush (poll_write (7 ∷ 8 ∷ []) opened empty empty).1 (sent (ok done))
        ≡ (ready (ok tt), record opened { offset = 12 }))
write_in_two_polls_example =
    write_in_two_polls opened (record { bytes = 5 ∷ [] })
      (record { code = status_ok; error = []; language = [] }) (7 ∷ 8 ∷ []) [] empty empty refl refl
      refl refl refl
