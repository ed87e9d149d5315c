-- ===== src/Client/Receiver/Exchange.antt =====
-- A request and its reply, from the client's future of src/client/request.rs through the receiver of
-- src/client/receiver.rs to the frames on the stream and back.
use rusftp.Prelude.{
  ℕ, Option, suc, ◌+◌, ◌%◌, ◌^◌, ◌≡◌, ◌<◌, refl, false, List, [], ◌∷◌, ◌++◌, none, some, ok, length,
  length-append, arith, ◌∙◌, ap, sym, ◌==◌, ==_refl, append-nil,
}
use native.Mathlib.Nat.{mod-eq_of_lt}
use rusftp.Wire.Bytes.{put_be, length-put_be}
use rusftp.Message.Types.{Bytes, Message}
use rusftp.Message.Format
use rusftp.Message.Valid.{IsValid}
use rusftp.Message.Encode.Frame.{encode-frame}
use rusftp.Message.Decode.RoundTrip.{id_back}
use rusftp.Client.Reply.{Reply}
use rusftp.Client.Future.{SftpClient, SftpFuture, sent, ready, poll, request_with}
use rusftp.Client.Receiver.{
  Sender, OnFlight, Receiver, Stream, filled, CommandPoll, received, nothing, item, response,
  Polled, again, read_more, round, poll_stream, poll_next, find, remove, insert, handle,
  handle_request, write_msg, settle, run,
}
use rusftp.Client.Receiver.Table.{remove-absent}
use rusftp.Client.Receiver.Framing.{poll_stream-frame, handle_response-packet}

module _ {S : Type 0} (stream : Stream S) where
  -- A read of some bytes into an empty buffer.
  round-fills :
      (r : Receiver S) (bytes : Bytes) (t : S)
      → r.response_size ≡ none
      → r.response_buffer ≡ []
      → stream.poll_read 1024 r.stream ≡ (filled bytes, t)
      → (length bytes == 0) ≡ false
      → round stream r
        ≡ again (record r { stream = t; response_size = none; response_buffer = bytes })
  unfolding round read_more
  round-fills r bytes t size buffer read some_bytes =
      rw (round, size, read_more, buffer, read, buffer, read, some_bytes)
        (ap
          (λ (x : Option ℕ).
            again (record r { stream = t; response_size = x; response_buffer = bytes }))
          size)

  -- A frame that arrives whole in one read, with nothing buffered.
  poll_stream-arrives :
      (fuel : ℕ) (r : Receiver S) (id : ℕ) (m : Message) (t : S)
      → length (Format.packet id m) < 2 ^ 32
      → r.response_size ≡ none
      → r.response_buffer ≡ []
      → stream.poll_read 1024 r.stream ≡ (filled (Format.frame id m), t)
      → poll_stream (suc (suc (suc fuel))) stream r ≡ (
        item (response (Format.packet id m)),
        record r { stream = t; response_size = none; response_buffer = [] },
      )
  unfolding poll_stream Format.frame
  poll_stream-arrives fuel r id m t short size buffer read =
      rw (poll_stream, round-fills r (Format.frame id m) t size buffer read some_bytes)
        (poll_stream-frame fuel stream
          (record r { stream = t; response_size = none; response_buffer = Format.frame id m })
          (Format.packet id m) [] short refl
          (ap (λ l. put_be 4 (length (Format.packet id m)) ++ l)
            (sym (append-nil (Format.packet id m)))))
    where
      some_bytes : (length (Format.frame id m) == 0) ≡ false
      some_bytes =
          let e = length-append (put_be 4 (length (Format.packet id m))) (Format.packet id m) in
          let f = length-put_be 4 (length (Format.packet id m)) in ground (arith, e, f)

  -- A request that is taken, numbered and written.
  handle_request-written :
      (r : Receiver S) (m : Message) (tx : Sender) (t : S)
      → r.next_id + 1 < 2 ^ 32
      → IsValid m
      → length (Format.packet (r.next_id + 1) m) < 2 ^ 32
      → find (r.next_id + 1) r.onflight ≡ none
      → stream.write_all (Format.frame (r.next_id + 1) m) r.stream ≡ (ok tt, t)
      → handle_request stream m tx r ≡ record r {
        next_id = r.next_id + 1;
        stream = t;
        onflight = (r.next_id + 1, tx) ∷ r.onflight;
      }
  unfolding handle_request write_msg settle insert
  handle_request-written r m tx t few valid short fresh writes =
      let number : (r.next_id + 1) % 2 ^ 32 ≡ r.next_id + 1 = mod-eq_of_lt few in
      rw
        (
          handle_request,
          number,
          write_msg,
          encode-frame m (r.next_id + 1) valid short,
          writes,
          settle,
          number,
          insert,
          remove-absent (r.next_id + 1) r.onflight fresh,
        )
        refl

  -- A frame that arrives for a request in flight, in one poll of the task.
  run-arrives :
      (fuel : ℕ) (cs : List CommandPoll) (r : Receiver S) (id : ℕ) (m : Message) (tx : Sender)
      (t : S)
      → id < 2 ^ 32
      → IsValid m
      → length (Format.packet id m) < 2 ^ 32
      → r.response_size ≡ none
      → r.response_buffer ≡ []
      → stream.poll_read 1024 r.stream ≡ (filled (Format.frame id m), t)
      → find (id_back id m) r.onflight ≡ some tx
      → run (suc (suc (suc fuel))) stream (nothing ∷ cs) r
        ≡ run (suc (suc (suc fuel))) stream cs (record r {
          stream = t;
          response_size = none;
          response_buffer = [];
          onflight = remove (id_back id m) r.onflight;
          answers = (tx, ok m) ∷ r.answers;
        })
  unfolding run poll_next handle
  run-arrives fuel cs r id m tx t fits valid short size buffer read there =
      let polled = poll_stream-arrives fuel r id m t short size buffer read in
      rw
        (
          run,
          ap (λ (x : Polled × Receiver S). x.0) polled,
          ap (λ (x : Polled × Receiver S). x.1) polled,
          handle_response-packet
              (record r { stream = t; response_size = none; response_buffer = [] }) m id tx fits
              valid there,
        )
        refl

  find-new : (k id : ℕ) (l : OnFlight) (tx : Sender) → k ≡ id → find k ((id, tx) ∷ l) ≡ some tx
  unfolding find
  find-new k id l tx same = rw (same, ==_refl id) refl

  remove-new :
      (k id : ℕ) (l : OnFlight) (tx : Sender)
      → k ≡ id
      → find id l ≡ none
      → remove k ((id, tx) ∷ l) ≡ l
  unfolding remove
  remove-new k id l tx same absent =
      let e = remove-absent k l (rw (same) absent) in ground (arith, e)

  run-takes :
      (fuel : ℕ) (cs : List CommandPoll) (r : Receiver S) (m : Message) (tx : Sender)
      → run fuel stream (received m tx ∷ cs) r
        ≡ run fuel stream cs (handle_request stream m tx (record r { accepted = tx ∷ r.accepted }))
  unfolding run poll_next handle
  run-takes fuel cs r m tx = refl

  -- A receiver with nothing buffered, whose next id has 32 bits and is not in flight, and a
  -- client whose future waits for the reply to a request. The request is taken, and its frame is written under that id; the stream then brings,
  -- in one read, the frame of a reply with that id. The parts of both messages fit their types, and
  -- their packets are shorter than 2 ^ 32 bytes. With fuel for three rounds, the task goes on from a
  -- state in which the reply has been sent to the sender of the request and the table and the buffer
  -- are as before, and the client's future is ready with what its callback makes of the reply.
  pub run-exchange :
      {A : Type 0} (c : SftpClient) (f : Message → Reply A) (fuel : ℕ) (cs : List CommandPoll)
      (r : Receiver S) (m reply : Message) (tx : Sender) (t u : S)
      → request_with c (ok m) f ≡ SftpFuture.pending m f
      → r.next_id + 1 < 2 ^ 32
      → find (r.next_id + 1) r.onflight ≡ none
      → r.response_size ≡ none
      → r.response_buffer ≡ []
      → IsValid m
      → length (Format.packet (r.next_id + 1) m) < 2 ^ 32
      → stream.write_all (Format.frame (r.next_id + 1) m) r.stream ≡ (ok tt, t)
      → IsValid reply
      → length (Format.packet (r.next_id + 1) reply) < 2 ^ 32
      → id_back (r.next_id + 1) reply ≡ r.next_id + 1
      → stream.poll_read 1024 t ≡ (filled (Format.frame (r.next_id + 1) reply), u)
      → (run (suc (suc (suc fuel))) stream (received m tx ∷ nothing ∷ cs) r
          ≡ run (suc (suc (suc fuel))) stream cs (record r {
            next_id = r.next_id + 1;
            stream = u;
            response_size = none;
            response_buffer = [];
            accepted = tx ∷ r.accepted;
            answers = (tx, ok reply) ∷ r.answers;
          }))
        × ((poll (request_with c (ok m) f) (sent (ok reply))).0 ≡ ready (f reply))
  unfolding poll
  run-exchange c f fuel cs r m reply tx t u asked few fresh size buffer valid short writes good
        brief back read =
      (took ∙ arrives, rw (asked) refl)
    where
      r' : Receiver S
      r' = record r {
        accepted = tx ∷ r.accepted;
        next_id = r.next_id + 1;
        stream = t;
        onflight = (r.next_id + 1, tx) ∷ r.onflight;
      }

      took :
          run (suc (suc (suc fuel))) stream (received m tx ∷ nothing ∷ cs) r
          ≡ run (suc (suc (suc fuel))) stream (nothing ∷ cs) r'
      took =
          run-takes (suc (suc (suc fuel))) (nothing ∷ cs) r m tx
          ∙ ap (run (suc (suc (suc fuel))) stream (nothing ∷ cs)) (
              handle_request-written (record r { accepted = tx ∷ r.accepted }) m tx t few valid
                short fresh writes)

      arrives :
          run (suc (suc (suc fuel))) stream (nothing ∷ cs) r'
          ≡ run (suc (suc (suc fuel))) stream cs (record r {
            next_id = r.next_id + 1;
            stream = u;
            response_size = none;
            response_buffer = [];
            accepted = tx ∷ r.accepted;
            answers = (tx, ok reply) ∷ r.answers;
          })
      arrives =
          rw (remove-new (id_back (r.next_id + 1) reply) (r.next_id + 1) r.onflight tx back fresh)
            at
            (run-arrives fuel cs r' (r.next_id + 1) reply tx u few good brief size buffer read
              (find-new (id_back (r.next_id + 1) reply) (r.next_id + 1) r.onflight tx back))
