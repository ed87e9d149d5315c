-- ===== src/Client/Receiver/Chunks.antt =====
-- A frame that reaches src/client/receiver.rs in pieces, from its first byte to the answer.
use rusftp.Prelude.{
  take-append_inside, drop-append_inside, ℕ, zero, suc, ◌^◌, ◌≡◌, ◌<◌, ◌≤◌, refl, Bool-cases, inl,
  inr, true, List, [], ◌∷◌, ◌++◌, none, some, ok, length, take, drop, arith, ◌∙◌, ap, sym, ltb, leb,
  append_assoc, length-append, length-drop, take-append, drop-append,
}
use mathlib.Core.Path.{subst}
use rusftp.Wire.Bytes.{put_be, length-put_be, get_be-put_be}
use rusftp.Message.Types.{Bytes, Message}
use rusftp.Message.Format
use rusftp.Message.Valid.{IsValid}
use rusftp.Message.Decode.RoundTrip.{id_back}
use rusftp.Client.Receiver.{
  Sender, Receiver, Stream, CommandPoll, nothing, response, item, again, round, poll_stream, find,
  remove, handle, run,
}
use rusftp.Client.Receiver.Framing.{handle_response-packet}
use rusftp.Client.Receiver.Pieces.{
  Arrival, Arrives, arrived, further, buffered_head, asked_for_head, round-head, round-head_waits,
  continued, run-continued, assemble_body,
}

module _ {S : Type 0} (stream : Stream S) where
  -- The length is taken off once its four bytes are there.
  round-strips :
      (r : Receiver S) (p rest later : Bytes)
      → length p < 2 ^ 32
      → r.response_size ≡ none
      → 4 ≤ length r.response_buffer
      → r.response_buffer ++ later ≡ put_be 4 (length p) ++ (p ++ rest)
      → round stream r
        ≡ again (record r {
          response_size = some (length p);
          response_buffer = drop 4 r.response_buffer;
        })
  unfolding round
  round-strips r p rest later short size enough all =
      simp (round, size, whole, first, get_be-put_be 4 (length p) short) refl
    where
      whole : leb 4 (length r.response_buffer) ≡ true
      whole = ground arith

      first : take 4 r.response_buffer ≡ put_be 4 (length p)
      first =
          sym (take-append_inside 4 r.response_buffer later enough)
          ∙ ap (take 4) all
          ∙ take-append (put_be 4 (length p)) (p ++ rest) (length-put_be 4 (length p))

  -- A frame whose length is there.
  assemble_long :
      (p rest : Bytes) (cs : List CommandPoll) (fuel : ℕ) (es : List Arrival) (left : ℕ)
      (r : Receiver S) (t : S)
      → length p < 2 ^ 32
      → r.response_size ≡ none
      → r.response_buffer ++ arrived es ≡ put_be 4 (length p) ++ (p ++ rest)
      → Arrives stream (length p) (length r.response_buffer) r.stream es t
      → suc (length es) < suc left
      → length es < fuel
      → 4 ≤ length r.response_buffer
      → continued stream fuel (further es ++ cs) (poll_stream (suc left) stream r)
        ≡ continued stream fuel cs (
          item (response p),
          record r { stream = t; response_size = none; response_buffer = rest },
        )
  unfolding poll_stream
  assemble_long p rest cs fuel es left r t short size all arrives enough more four =
      rw (poll_stream, round-strips r p rest (arrived es) short size four all)
        (assemble_body stream p rest cs fuel es left
          (record r { response_size = some (length p); response_buffer = drop 4 r.response_buffer })
          t refl
          (sym (drop-append_inside 4 r.response_buffer (arrived es) four)
            ∙ ap (drop 4) all
            ∙ drop-append (put_be 4 (length p)) (p ++ rest) (length-put_be 4 (length p)))
          (subst (λ k. Arrives stream (length p) k r.stream es t)
            (omega (arith, four, length-drop 4 r.response_buffer)) arrives)
          (omega (arith, enough)) more)

  -- A frame from its first byte on.
  pub assemble :
      (p rest : Bytes) (cs : List CommandPoll) (fuel : ℕ) (es : List Arrival) (left : ℕ)
      (r : Receiver S) (t : S)
      → length p < 2 ^ 32
      → r.response_size ≡ none
      → r.response_buffer ++ arrived es ≡ put_be 4 (length p) ++ (p ++ rest)
      → Arrives stream (length p) (length r.response_buffer) r.stream es t
      → suc (length es) < left
      → suc (length es) < fuel
      → continued stream fuel (further es ++ cs) (poll_stream left stream r)
        ≡ continued stream fuel cs (
          item (response p),
          record r { stream = t; response_size = none; response_buffer = rest },
        )
  unfolding poll_stream arrived further
  assemble p rest cs fuel es zero r t short size all arrives enough more =
      absurd (omega (arith, enough))
  assemble p rest cs fuel [] (suc left) r t short size all arrives enough more =
      let sizes = ap length all in
      let e = length-append r.response_buffer [] in
      let f = length-append (put_be 4 (length p)) (p ++ rest) in
      let g = length-put_be 4 (length p) in
      assemble_long p rest cs fuel [] left r t short size all arrives enough (omega (arith, more))
        (omega (arith, sizes, e, f, g))
  assemble p rest cs fuel (some c ∷ es) (suc left) r t short size all (u, there, other, read, later)
        enough more =
      elim (Bool-cases (ltb (length r.response_buffer) 4)) [
        | inl few ↦
            (let low : length r.response_buffer < 4 = ground arith in
              rw
                (
                  poll_stream,
                  round-head stream r c u size low
                      (λ same. other (same ∙ sym (buffered_head (length r.response_buffer) low)))
                      (rw (asked_for_head (length p) (length r.response_buffer) low) at read),
                )
                (assemble p rest cs fuel es left
                  (record r { stream = u; response_buffer = r.response_buffer ++ c }) t short size
                  (append_assoc r.response_buffer c (arrived es) ∙ all)
                  (subst (λ k. Arrives stream (length p) k u es t)
                    (omega (arith, length-append r.response_buffer c)) later)
                  (omega (arith, enough)) (omega (arith, more))))
        | inr many ↦
            assemble_long p rest cs fuel (some c ∷ es) left r t short size all
              (u, there, other, read, later) enough (omega (arith, more)) (ground arith)
      ]
  assemble p rest cs fuel (none ∷ es) (suc left) r t short size all (u, there, read, later) enough
        more =
      elim (Bool-cases (ltb (length r.response_buffer) 4)) [
        | inl few ↦
            (let low : length r.response_buffer < 4 = ground arith in
              rw
                (
                  poll_stream,
                  round-head_waits stream r u size low
                      (rw (asked_for_head (length p) (length r.response_buffer) low) at read),
                  run-continued stream fuel (further es ++ cs) (record r { stream = u }),
                )
                (assemble p rest cs fuel es fuel (record r { stream = u }) t short size all later
                  (omega (arith, more)) (omega (arith, more))))
        | inr many ↦
            assemble_long p rest cs fuel (none ∷ es) left r t short size all (u, there, read, later)
              enough (omega (arith, more)) (ground arith)
      ]

  -- What stands in the buffer and the chunks that the stream then brings are together a frame of the
  -- protocol and bytes behind it, where the frame is whole with the last chunk and not before, and no
  -- chunk is as long as what is buffered when it comes. Before and between the chunks the stream may
  -- have nothing, any number of times; each time ends a poll, and the task is polled again, with no
  -- command. The id has 32 bits and is that of a request in flight, and the message fits its types.
  -- However the frame is cut and spread over the polls, with fuel for two rounds more than there are
  -- reads, these polls give the message to the sender of that request, take the request out of the
  -- table, leave the bytes behind the frame in the buffer, and the task goes on.
  pub run-assembles :
      (fuel : ℕ) (cs : List CommandPoll) (es : List Arrival) (r : Receiver S) (m : Message) (id : ℕ)
      (rest : Bytes) (tx : Sender) (t : S)
      → id < 2 ^ 32
      → IsValid m
      → length (Format.packet id m) < 2 ^ 32
      → r.response_size ≡ none
      → r.response_buffer ++ arrived es ≡ Format.frame id m ++ rest
      → Arrives stream (length (Format.packet id m)) (length r.response_buffer) r.stream es t
      → find (id_back id m) r.onflight ≡ some tx
      → suc (length es) < fuel
      → run fuel stream (nothing ∷ further es ++ cs) r
        ≡ run fuel stream cs (record r {
          stream = t;
          response_size = none;
          response_buffer = rest;
          onflight = remove (id_back id m) r.onflight;
          answers = (tx, ok m) ∷ r.answers;
        })
  unfolding handle Format.frame
  run-assembles fuel cs es r m id rest tx t fits valid short size all arrives there enough =
      rw
        (
          run-continued stream fuel (further es ++ cs) r,
          assemble (Format.packet id m) rest cs fuel es fuel r t short size
              (all
                ∙ append_assoc (put_be 4 (length (Format.packet id m))) (Format.packet id m) rest)
              arrives enough enough,
          handle_response-packet
              (record r { stream = t; response_size = none; response_buffer = rest }) m id tx fits
              valid there,
        )
        refl
