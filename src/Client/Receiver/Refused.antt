-- ===== src/Client/Receiver/Refused.antt =====
-- What src/client/receiver.rs does with a reply that is not whole inside its frame.
use rusftp.Prelude.{
  sym, ℕ, suc, ◌^◌, ◌≡◌, ◌<◌, refl, true, List, ◌∷◌, ◌++◌, none, some, err, length, take, arith,
  ltb, if◌then◌else◌, length-take, Bool-cases, inl, inr,
}
use mathlib.Core.Path.{subst}
use rusftp.Wire.Bytes.{put_be}
use rusftp.Wire.Error.{not_enough_data}
use rusftp.Message.Types.{Bytes, Message}
use rusftp.Message.Format
use rusftp.Message.Kind.{kind}
use rusftp.Message.Valid.{IsValid}
use rusftp.Message.Deserialize.Growth.Value.{is_bounded}
use rusftp.Message.Decode.Prefix.{decode_raw-cut}
use rusftp.Client.Error.{wire_format, of_decode_error}
use rusftp.Client.Receiver.{
  Sender, Receiver, Stream, CommandPoll, nothing, find, remove, answer, send_response,
  handle_response, handle, run,
}
use rusftp.Client.Receiver.Pieces.{Arrival, Arrives, arrived, further, run-continued}
use rusftp.Client.Receiver.Chunks.{assemble}

module _ {S : Type 0} where
  -- The request is refused once its id can be read, and nothing happens before.
  refuse : ℕ → ℕ → Sender → Receiver S → Receiver S
  refuse n id tx r = record r {
    onflight = if ltb n 5 then r.onflight else remove id r.onflight;
    answers = if ltb n 5 then r.answers else (tx, err (wire_format not_enough_data)) ∷ r.answers;
  }

  handle_response-cut :
      (r : Receiver S) (m : Message) (id n : ℕ) (tx : Sender)
      → id < 2 ^ 32
      → IsValid m
      → is_bounded (kind m) ≡ true
      → n < length (Format.packet id m)
      → find id r.onflight ≡ some tx
      → handle_response (take n (Format.packet id m)) r ≡ refuse n id tx r
  unfolding handle_response answer send_response refuse of_decode_error
  handle_response-cut r m id n tx fits valid bounded cut there =
      rw (handle_response, decode_raw-cut m id n fits valid bounded cut)
        (elim (Bool-cases (ltb n 5)) [
          | inl few ↦ rw (few) refl
          | inr many ↦ rw (many, answer, there) refl
        ])

  -- The frame that arrives holds only the first `n` bytes of a packet, fewer than all: it is the packet of
  -- a message whose parts fit their types, of a kind whose last field has its length in front (all but
  -- INIT, VERSION, EXTENDED and EXTENDED_REPLY), with an id of 32 bits for which a request is in flight.
  -- The frame may be cut and spread over any number of polls with no command, as for `run-assembles`,
  -- and the fuel is two rounds more than there are reads. If the packet has its five bytes of type and
  -- id, the sender of the request is given the error that data is missing, and the request is taken out
  -- of the table; else no request is answered, and the table is as before. In both cases the bytes behind
  -- the frame are left in the buffer, and the task goes on.
  pub run-refuses :
      (stream : Stream S) (fuel : ℕ) (cs : List CommandPoll) (es : List Arrival) (r : Receiver S)
      (m : Message) (id n : ℕ) (rest : Bytes) (tx : Sender) (t : S)
      → id < 2 ^ 32
      → IsValid m
      → is_bounded (kind m) ≡ true
      → n < length (Format.packet id m)
      → n < 2 ^ 32
      → r.response_size ≡ none
      → r.response_buffer ++ arrived es ≡ put_be 4 n ++ (take n (Format.packet id m) ++ rest)
      → Arrives stream n (length r.response_buffer) r.stream es t
      → find id r.onflight ≡ some tx
      → suc (length es) < fuel
      → run fuel stream (nothing ∷ further es ++ cs) r
        ≡ run fuel stream cs (record r {
          stream = t;
          response_size = none;
          response_buffer = rest;
          onflight = if ltb n 5 then r.onflight else remove id r.onflight;
          answers =
              if ltb n 5 then r.answers else (tx, err (wire_format not_enough_data)) ∷ r.answers;
        })
  unfolding handle refuse
  run-refuses stream fuel cs es r m id n rest tx t fits valid bounded cut short size all arrives
        there enough =
      rw
        (
          run-continued stream fuel (further es ++ cs) r,
          assemble stream (take n (Format.packet id m)) rest cs fuel es fuel r t
              (omega (arith, whole, short)) size (rw (whole) all)
              (subst (λ k. Arrives stream k (length r.response_buffer) r.stream es t) (sym whole)
                arrives)
              enough enough,
          handle_response-cut
              (record r { stream = t; response_size = none; response_buffer = rest }) m id n tx fits
              valid bounded cut there,
        )
        refl
    where
      whole : length (take n (Format.packet id m)) ≡ n
      whole = omega (arith, cut, length-take n (Format.packet id m))
