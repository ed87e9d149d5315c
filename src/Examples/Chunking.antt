-- ===== src/Examples/Chunking.antt =====
-- A frame in pieces, and scalars, at concrete values.
use rusftp.Prelude.{
  none, some, ◌^◌, ◌<◌, ◌≡◌, refl, List, [], ◌∷◌, ◌++◌, ok, err, length, take, concat, arith,
}
use rusftp.Prelude.Int.{negsuc}
use rusftp.Wire.Bytes.{put_be}
use rusftp.Wire.Utf8.{is_utf8}
use rusftp.Wire.Scalars.{Scalar, type_of, serialize_scalar, deserialize_scalar}
use rusftp.Wire.Scalars.RoundTrip.{IsReadBack, scalar_round_trip}
use rusftp.Message.Types.{Bytes, Message, status_ok}
use rusftp.Message.Format
use rusftp.Message.Valid.{IsValid}
use rusftp.Message.Decode.RoundTrip.{id_back}
use rusftp.Client.Receiver.{
  Reading, filled, pending, Receiver, Stream, new_receiver, nothing, find, remove, run,
}
use rusftp.Client.Receiver.Pieces.{buffered, asked_for, Arrival, Arrives, arrived, further}
use rusftp.Client.Receiver.Chunks.{run-assembles}
use rusftp.Client.Receiver.Refused.{run-refuses}
use rusftp.Client.Error.{wire_format}
use rusftp.Wire.Error.{not_enough_data}
use rusftp.Message.Kind.{kind}
use rusftp.Message.Deserialize.Growth.Value.{is_bounded}

abbrev scripted : Stream (List Reading)
scripted = record {
  poll_read = λ room readings. elim readings [ [] ↦ (pending, []) | x ∷ rest ↦ (x, rest) ];
  write_all = λ bytes readings. (ok tt, readings);
}

abbrev reply : Message
reply = Message.status (record { code = status_ok; error = []; language = [] })

reply-IsValid : IsValid reply
unfolding is_utf8
reply-IsValid = ((omega arith, refl), (omega arith, refl))

reply_short : length (Format.packet 1 reply) < 2 ^ 32
unfolding Format.packet Format.packet_type Format.packet_id Format.body put_be concat
reply_short = omega arith

-- Three bytes of the length are there, and no more in the first poll; the second finds the fourth with
-- a part of the packet, and no more; the third finds the rest, with a byte of what follows.
abbrev head_chunk : Bytes
head_chunk = 17 ∷ 101 ∷ 0 ∷ 0 ∷ []

abbrev tail_chunk : Bytes
tail_chunk = 0 ∷ 1 ∷ 0 ∷ 0 ∷ 0 ∷ 0 ∷ 0 ∷ 0 ∷ 0 ∷ 0 ∷ 0 ∷ 0 ∷ 0 ∷ 0 ∷ 7 ∷ []

abbrev arrivals : List Arrival
arrivals = none ∷ some head_chunk ∷ none ∷ some tail_chunk ∷ []

abbrev readings : List Reading
readings = pending ∷ filled head_chunk ∷ pending ∷ filled tail_chunk ∷ []

abbrev in_flight : Receiver (List Reading)
in_flight = record (new_receiver readings) {
  onflight = (1, 40) ∷ [];
  next_id = 1;
  response_buffer = 0 ∷ 0 ∷ 0 ∷ [];
  accepted = 40 ∷ [];
}

arrivals-frame : in_flight.response_buffer ++ arrived arrivals ≡ Format.frame 1 reply ++ (7 ∷ [])
unfolding new_receiver arrived concat Format.frame Format.packet Format.packet_type Format.packet_id
    Format.body Format.status_number put_be
arrivals-frame = refl

arrivals-Arrives : Arrives scripted (length (Format.packet 1 reply)) 3 readings arrivals []
unfolding buffered asked_for Format.packet Format.packet_type Format.packet_id Format.body
    Format.status_number put_be concat
arrivals-Arrives = (
  (filled head_chunk ∷ pending ∷ filled tail_chunk ∷ []),
  omega arith,
  refl,
  (
    (pending ∷ filled tail_chunk ∷ []),
    omega arith,
    omega arith,
    refl,
    ((filled tail_chunk ∷ []), omega arith, refl, ([], omega arith, omega arith, refl, refl)),
  ),
)

run-assembles_example :
    run 6 scripted (nothing ∷ nothing ∷ nothing ∷ []) in_flight
    ≡ run 6 scripted [] (record in_flight {
      stream = [];
      response_size = none;
      response_buffer = 7 ∷ [];
      onflight = [];
      answers = (40, ok reply) ∷ [];
    })
unfolding new_receiver find remove id_back further
run-assembles_example =
    run-assembles scripted 6 [] arrivals in_flight reply 1 (7 ∷ []) 40 [] (omega arith)
      reply-IsValid reply_short refl arrivals-frame arrivals-Arrives refl (omega arith)

-- Nine bytes of that reply, in a frame of their own.
abbrev cut_arrivals : List Arrival
cut_arrivals =
    some (0 ∷ 0 ∷ 0 ∷ [])
    ∷ none
    ∷ some (9 ∷ 101 ∷ 0 ∷ 0 ∷ [])
    ∷ some (0 ∷ 1 ∷ 0 ∷ 0 ∷ 0 ∷ 0 ∷ 7 ∷ [])
    ∷ []

abbrev cut_readings : List Reading
cut_readings =
    filled (0 ∷ 0 ∷ 0 ∷ [])
    ∷ pending
    ∷ filled (9 ∷ 101 ∷ 0 ∷ 0 ∷ [])
    ∷ filled (0 ∷ 1 ∷ 0 ∷ 0 ∷ 0 ∷ 0 ∷ 7 ∷ [])
    ∷ []

abbrev expecting : Receiver (List Reading)
expecting = record (new_receiver cut_readings) {
  onflight = (1, 40) ∷ [];
  next_id = 1;
  accepted = 40 ∷ [];
}

cut_arrivals-Arrives : Arrives scripted 9 0 cut_readings cut_arrivals []
unfolding buffered asked_for
cut_arrivals-Arrives = (
  (pending ∷ filled (9 ∷ 101 ∷ 0 ∷ 0 ∷ []) ∷ filled (0 ∷ 1 ∷ 0 ∷ 0 ∷ 0 ∷ 0 ∷ 7 ∷ []) ∷ []),
  omega arith,
  omega arith,
  refl,
  (
    (filled (9 ∷ 101 ∷ 0 ∷ 0 ∷ []) ∷ filled (0 ∷ 1 ∷ 0 ∷ 0 ∷ 0 ∷ 0 ∷ 7 ∷ []) ∷ []),
    omega arith,
    refl,
    (
      (filled (0 ∷ 1 ∷ 0 ∷ 0 ∷ 0 ∷ 0 ∷ 7 ∷ []) ∷ []),
      omega arith,
      omega arith,
      refl,
      ([], omega arith, omega arith, refl, refl),
    ),
  ),
)

cut_arrivals-frame :
    arrived cut_arrivals ≡ put_be 4 9 ++ (take 9 (Format.packet 1 reply) ++ (7 ∷ []))
unfolding arrived concat Format.packet Format.packet_type Format.packet_id Format.body
    Format.status_number put_be
cut_arrivals-frame = refl

run-refuses_example :
    run 6 scripted (nothing ∷ nothing ∷ []) expecting
    ≡ run 6 scripted [] (record expecting {
      stream = [];
      response_size = none;
      response_buffer = 7 ∷ [];
      onflight = [];
      answers = (40, err (wire_format not_enough_data)) ∷ [];
    })
unfolding new_receiver find remove further kind is_bounded
run-refuses_example =
    run-refuses scripted 6 [] cut_arrivals expecting reply 1 9 (7 ∷ []) 40 [] (omega arith)
      reply-IsValid refl nine (omega arith) refl cut_arrivals-frame cut_arrivals-Arrives refl
      (omega arith)
  where
    nine : 9 < length (Format.packet 1 reply)
    nine =
        unfold Format.packet Format.packet_type Format.packet_id Format.body put_be concat in
        omega arith

-- -5 in sixteen bits.
scalar_round_trip_example :
    IsReadBack
      (serialize_scalar (Scalar.i16 (negsuc 4)))
      (deserialize_scalar (type_of (Scalar.i16 (negsuc 4))))
      (Scalar.i16 (negsuc 4))
scalar_round_trip_example = scalar_round_trip (Scalar.i16 (negsuc 4)) (omega arith)
