-- ===== src/Examples/Receiving.antt =====
-- The receiver at concrete streams.
use rusftp.Prelude.{◌+◌, ◌≡◌, refl, List, [], ◌∷◌, ◌++◌, some, Result, ok, arith, concat, ap, err}
use rusftp.Wire.Bytes.{put_be}
use rusftp.Wire
use rusftp.Message.Encode.{encode}
use rusftp.Message.Encode.Frame.{encode-frame}
use rusftp.Message.Types.{Bytes, Message, status_ok}
use rusftp.Message.Format
use rusftp.Client.Error.{IoKind, wire_format}
use rusftp.Client.Receiver.{
  Reading, filled, pending, failed, Receiver, Stream, new_receiver, CommandPoll, nothing, received,
  done, spinning, run, poll_stream, poll_next, round, read_more, handle, handle_request, settle,
  write_msg, goes_on, find, remove, insert,
}
use rusftp.Client.Receiver.Table.{count, waiting_for, taken}
use rusftp.Client.Receiver.Balance.{answered}
use rusftp.Client.Receiver.Run.{run-balanced, run-numbered, run-answers_all}
use rusftp.Client.Receiver.Framing.{run-false_end, poll_stream-spins}

-- A stream that brings the given readings one by one, and accepts all that is written.
abbrev scripted : Stream (List Reading)
scripted = record {
  poll_read = λ room readings. elim readings [ [] ↦ (pending, []) | x ∷ rest ↦ (x, rest) ];
  write_all = λ bytes readings. (ok tt, readings);
}

-- A stream that has ended.
abbrev at_end : Stream (Unit {0})
at_end = record { poll_read = λ room s. (filled [], s); write_all = λ bytes s. (ok tt, s) }

abbrev asked : Message
asked = Message.close (record { handle = record { bytes = 5 ∷ [] } })

abbrev reply : Message
reply = Message.status (record { code = status_ok; error = []; language = [] })

-- Request 1, of the sender 40, is in flight, and its reply stands in the buffer.
abbrev in_flight : Receiver (List Reading)
in_flight = record (new_receiver []) {
  onflight = (1, 40) ∷ [];
  next_id = 1;
  response_buffer = Format.frame 1 reply ++ 7 ∷ [];
  accepted = 40 ∷ [];
}

-- A request, and then an error of the stream.
abbrev commands : List CommandPoll
commands = received asked 40 ∷ nothing ∷ []

abbrev readings : List Reading
readings = failed IoKind.broken_pipe [] ∷ []

asked-frame : encode asked 1 ≡ ok (Format.frame 1 asked)
unfolding Format.packet Format.packet_type Format.packet_id Format.body put_be concat
asked-frame = encode-frame asked 1 (omega arith) (omega arith)

-- The request is in flight once it is written.
written :
    handle_request scripted asked 40 (record (new_receiver readings) { accepted = 40 ∷ [] })
    ≡ record (new_receiver readings) { accepted = 40 ∷ []; next_id = 1; onflight = (1, 40) ∷ [] }
unfolding handle_request settle write_msg new_receiver insert remove
written =
    ap
      (λ (w : Result Bytes Wire.Error.Error).
        settle 1 40
          (elim w [
            | ok frame ↦ scripted.write_all frame readings
            | err e ↦ (err (wire_format e), readings)
          ])
          (record (new_receiver readings) { accepted = 40 ∷ []; next_id = 1 }))
      asked-frame

commands-done : (run 3 scripted commands (new_receiver readings)).0 ≡ done
unfolding run poll_next poll_stream round read_more handle goes_on new_receiver
commands-done = ap (λ (r : Receiver (List Reading)). (run 3 scripted (nothing ∷ []) r).0) written

run-balanced_example :
    count 40 (run 3 scripted commands (new_receiver readings)).1.accepted
    ≡ count 40 (answered (run 3 scripted commands (new_receiver readings)).1.answers)
      + count 40 (waiting_for (run 3 scripted commands (new_receiver readings)).1.onflight)
run-balanced_example = run-balanced 3 scripted commands readings 40 (omega arith)

-- The first request is in flight as request 1.
first_in_flight :
    find 1 (run 3 scripted (received asked 40 ∷ []) (new_receiver readings)).1.onflight ≡ some 40
unfolding run poll_next handle new_receiver find
first_in_flight = ap (λ (r : Receiver (List Reading)). find 1 r.onflight) written

run-numbered_example :
    taken 1 (run 3 scripted (received asked 40 ∷ []) (new_receiver readings)).1.accepted ≡ some 40
run-numbered_example =
    run-numbered 3 scripted (received asked 40 ∷ []) readings 1 40 (omega arith) first_in_flight

run-answers_all_example :
    count 40 (answered (run 3 scripted commands (new_receiver readings)).1.answers)
    ≡ count 40 (run 3 scripted commands (new_receiver readings)).1.accepted
run-answers_all_example =
    run-answers_all 3 scripted commands readings 40 (omega arith) commands-done

-- Two bytes of a length are in the buffer, and a read brings the other two.
abbrev halfway : Receiver (List Reading)
halfway = record in_flight { response_buffer = 0 ∷ 0 ∷ []; stream = filled (0 ∷ 5 ∷ []) ∷ [] }

run-false_end_example : (run 1 scripted (nothing ∷ []) halfway).0 ≡ done
unfolding new_receiver
run-false_end_example =
    run-false_end 0 scripted [] halfway (0 ∷ 5 ∷ []) [] refl (omega arith) refl refl

-- One byte of a length is in the buffer, and the stream has ended.
abbrev cut_off : Receiver (Unit {0})
cut_off = record (new_receiver tt) { response_buffer = 0 ∷ [] }

poll_stream-spins_example : (poll_stream 1000 at_end cut_off).0 ≡ spinning
unfolding new_receiver
poll_stream-spins_example =
    poll_stream-spins 1000 at_end cut_off refl (omega arith) (omega arith) (λ room. refl)
