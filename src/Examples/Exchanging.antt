-- ===== src/Examples/Exchanging.antt =====
-- A request and its reply at a concrete client and stream.
use rusftp.Prelude.{none, ◌^◌, ◌<◌, ◌≡◌, refl, true, List, [], ◌∷◌, ok, length, concat, arith}
use rusftp.Wire.Bytes.{put_be}
use rusftp.Wire.Utf8.{is_utf8}
use rusftp.Message.Types.{Message, status_ok}
use rusftp.Message.Format
use rusftp.Message.Valid.{IsValid}
use rusftp.Message.Decode.RoundTrip.{id_back}
use rusftp.Client.Reply.{unit_reply}
use rusftp.Client.Future.{SftpClient, sent, ready, poll, request_with, send_request, send}
use rusftp.Client.Receiver.{
  Reading, filled, pending, Receiver, Stream, new_receiver, received, nothing, find, run,
}
use rusftp.Client.Receiver.Exchange.{run-exchange}

abbrev connected : SftpClient
connected = record { commands = true; request_processor = true; receiving = true; closed_text = [] }

-- A stream that brings the given readings one by one, and accepts all that is written.
abbrev scripted : Stream (List Reading)
scripted = record {
  poll_read = λ room readings. elim readings [ [] ↦ (pending, []) | x ∷ rest ↦ (x, rest) ];
  write_all = λ bytes readings. (ok tt, readings);
}

abbrev asked : Message
asked = Message.close (record { handle = record { bytes = 5 ∷ [] } })

abbrev reply : Message
reply = Message.status (record { code = status_ok; error = []; language = [] })

reply-IsValid : IsValid reply
unfolding is_utf8
reply-IsValid = ((omega arith, refl), (omega arith, refl))

asked_short : length (Format.packet 1 asked) < 2 ^ 32
unfolding Format.packet Format.packet_type Format.packet_id Format.body put_be concat
asked_short = omega arith

reply_short : length (Format.packet 1 reply) < 2 ^ 32
unfolding Format.packet Format.packet_type Format.packet_id Format.body put_be concat
reply_short = omega arith

abbrev start : Receiver (List Reading)
start = new_receiver (filled (Format.frame 1 reply) ∷ [])

run-exchange_example :
    (run 3 scripted (received asked 40 ∷ nothing ∷ []) start
      ≡ run 3 scripted [] (record start {
        next_id = 1;
        stream = [];
        response_size = none;
        response_buffer = [];
        accepted = 40 ∷ [];
        answers = (40, ok reply) ∷ [];
      }))
    × ((poll (request_with connected (ok asked) unit_reply) (sent (ok reply))).0
        ≡ ready (unit_reply reply))
unfolding request_with send_request send new_receiver find id_back
run-exchange_example =
    run-exchange scripted connected unit_reply 0 [] start asked reply 40
      (filled (Format.frame 1 reply) ∷ []) [] refl (omega arith) refl refl refl (omega arith)
      asked_short refl reply-IsValid reply_short refl refl
