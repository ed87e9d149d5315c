-- ===== src/Client/Receiver/Framing.antt =====
-- How src/client/receiver.rs cuts the stream into frames, and what it does with one.
use rusftp.Prelude.{
  ℕ, zero, suc, ◌-◌, ◌^◌, ◌≡◌, ◌<◌, refl, false, List, [], ◌∷◌, ◌++◌, Option, none, some, ok,
  length, arith, ap, sym, leb, ◌==◌, ==_refl, le→leb, append-nil, length-append, take-append,
  drop-append,
}
use rusftp.Wire.Bytes.{put_be, length-put_be, get_be-put_be}
use rusftp.Message.Types.{Bytes, Message}
use rusftp.Message.Format
use rusftp.Message.Valid.{IsValid}
use rusftp.Message.Decode.RoundTrip.{id_back, ends, decode_raw-packet}
use rusftp.Client.Receiver.{
  Sender, Receiver, Stream, filled, CommandPoll, nothing, response, item, spinning, returned, again,
  read_more, round, poll_stream, poll_next, find, remove, answer, handle_response, send_response,
  done, run,
}

module _ {S : Type 0} where
  -- The length of a frame that stands whole at the start of the buffer is taken off, …
  round-length :
      (stream : Stream S) (r : Receiver S) (p rest : Bytes)
      → length p < 2 ^ 32
      → r.response_size ≡ none
      → r.response_buffer ≡ put_be 4 (length p) ++ (p ++ rest)
      → round stream r
        ≡ again (record r { response_size = some (length p); response_buffer = p ++ rest })
  unfolding round
  round-length stream r p rest short size buffer =
      rw (round, size, buffer)
        (rw
          (
            le→leb 4 (length (put_be 4 (length p) ++ (p ++ rest))) (
                omega (
                  arith,
                  length-append (put_be 4 (length p)) (p ++ rest),
                  length-put_be 4 (length p),
                )),
            take-append (put_be 4 (length p)) (p ++ rest) (length-put_be 4 (length p)),
            drop-append (put_be 4 (length p)) (p ++ rest) (length-put_be 4 (length p)),
            get_be-put_be 4 (length p) short,
          )
          refl)

  -- … and then its packet is.
  round-packet :
      (stream : Stream S) (r : Receiver S) (p rest : Bytes)
      → round stream (record r { response_size = some (length p); response_buffer = p ++ rest })
        ≡ returned (item (response p)) (record r { response_size = none; response_buffer = rest })
  unfolding round
  round-packet stream r p rest =
      rw
        (
          le→leb (length p) (length (p ++ rest)) (omega (arith, length-append p rest)),
          take-append p rest refl,
          drop-append p rest refl,
        )
        refl

  pub poll_stream-frame :
      (fuel : ℕ) (stream : Stream S) (r : Receiver S) (p rest : Bytes)
      → length p < 2 ^ 32
      → r.response_size ≡ none
      → r.response_buffer ≡ put_be 4 (length p) ++ (p ++ rest)
      → poll_stream (suc (suc fuel)) stream r
        ≡ (item (response p), record r { response_size = none; response_buffer = rest })
  unfolding poll_stream
  poll_stream-frame fuel stream r p rest short size buffer =
      rw (poll_stream, round-length stream r p rest short size buffer, round-packet stream r p rest)
        refl

  pub handle_response-packet :
      (r : Receiver S) (m : Message) (id : ℕ) (tx : Sender)
      → id < 2 ^ 32
      → IsValid m
      → find (id_back id m) r.onflight ≡ some tx
      → handle_response (Format.packet id m) r
        ≡ record r { onflight = remove (id_back id m) r.onflight; answers = (tx, ok m) ∷ r.answers }
  unfolding handle_response answer send_response
  handle_response-packet r m id tx fits valid there =
      rw (← append-nil (Format.packet id m))
        (rw (handle_response, decode_raw-packet id m [] fits valid (ends m), answer, there) refl)

  -- The stream ends for the receiver, and with it the task, as soon as a read for the length of a
  -- frame brings exactly as many bytes as the buffer already holds, none or not.
  pub run-false_end :
      (fuel : ℕ) (stream : Stream S) (cs : List CommandPoll) (r : Receiver S) (bytes : Bytes)
      (s : S)
      → r.response_size ≡ none
      → length r.response_buffer < 4
      → stream.poll_read (1024 - length r.response_buffer) r.stream ≡ (filled bytes, s)
      → length bytes ≡ length r.response_buffer
      → (run (suc fuel) stream (nothing ∷ cs) r).0 ≡ done
  unfolding run poll_next poll_stream round read_more
  run-false_end fuel stream cs r bytes s size few read same =
      rw
        (
          run,
          poll_stream,
          round,
          size,
          not_whole,
          read_more,
          read,
          same,
          ==_refl (length r.response_buffer),
        )
        refl
    where
      not_whole : leb 4 (length r.response_buffer) ≡ false
      not_whole = ground arith

  -- With some bytes of a frame's length in the buffer and a stream that has ended, no number of
  -- rounds brings the loop of `poll_next` to its end.
  pub poll_stream-spins :
      (fuel : ℕ) (stream : Stream S) (r : Receiver S)
      → r.response_size ≡ none
      → 0 < length r.response_buffer
      → length r.response_buffer < 4
      → ((room : ℕ) → stream.poll_read room r.stream ≡ (filled [], r.stream))
      → (poll_stream fuel stream r).0 ≡ spinning
  unfolding poll_stream round read_more
  poll_stream-spins zero stream r size some_bytes few at_end = refl
  poll_stream-spins (suc fuel) stream r size some_bytes few at_end =
      rw (poll_stream, round_again) (poll_stream-spins fuel stream r size some_bytes few at_end)
    where
      not_whole : leb 4 (length r.response_buffer) ≡ false
      not_whole = ground arith

      not_same : (0 == length r.response_buffer) ≡ false
      not_same = ground arith

      round_again : round stream r ≡ again r
      round_again =
          simp (round, size, not_whole, read_more, at_end, not_same, append-nil)
            (ap (λ (x : Option ℕ). again (record r { response_size = x })) (sym size))
