-- ===== src/Client/Receiver/Pieces.antt =====
-- How a frame reaches src/client/receiver.rs in pieces, and how its packet is put together.
use rusftp.Prelude.{
  ℕ, zero, suc, ◌+◌, ◌-◌, ◌≡◌, ◌<◌, ◌≢◌, refl, true, false, List, [], ◌∷◌, ◌++◌, Option, none, some,
  length, arith, ◌∙◌, ap, sym, ltb, leb, ◌==◌, if◌then◌else◌, append-nil, append_assoc,
  length-append, take-append, drop-append,
}
use Prim.Native.Nat.{max}
use mathlib.Core.Path.{subst}
use rusftp.Message.Types.{Bytes}
use rusftp.Client.Receiver.{
  Receiver, Stream, filled, pending, CommandPoll, nothing, Polled, waiting, ended, spinning, item,
  response, again, returned, Task, done, stuck, read_more, round, poll_stream, poll_next, handle,
  finish, run,
}

-- How many of the first `k` bytes of a frame stand in the buffer: its length has been taken off as soon
-- as it was whole.
unfoldable pub buffered : ℕ → ℕ
buffered k = if ltb k 4 then k else k - 4

-- How much the stream is asked for then, for a packet of `n` bytes.
unfoldable pub asked_for : ℕ → ℕ → ℕ
asked_for n k = if ltb k 4 then 1024 - k else max n 1024 - (k - 4)

-- What one read of the stream finds: a chunk, or nothing yet, which ends the poll.
abbrev pub Arrival : Type 0
Arrival = Option Bytes

-- With `k` bytes of a frame there, whose packet has `n`, the stream answers one read after the other,
-- the last of which ends the frame. No chunk is as long as what stands in the buffer when it comes.
abbrev pub Arrives : {S : Type 0} → Stream S → ℕ → ℕ → S → List Arrival → S → Type 0
Arrives stream n k s [] t = s ≡ t
Arrives {S} stream n k s (some c ∷ es) t =
    (u : S) × (k < 4 + n)
    × (length c ≢ buffered k)
    × (stream.poll_read (asked_for n k) s ≡ (filled c, u))
    × Arrives stream n (k + length c) u es t
Arrives {S} stream n k s (none ∷ es) t =
    (u : S) × (k < 4 + n)
    × (stream.poll_read (asked_for n k) s ≡ (pending, u))
    × Arrives stream n k u es t

-- The bytes that arrive, …
unfoldable pub arrived : List Arrival → Bytes
arrived [] = []
arrived (some c ∷ es) = c ++ arrived es
arrived (none ∷ es) = arrived es

-- … and the polls that follow the first one, with no command: one for each time that nothing was there.
unfoldable pub further : List Arrival → List CommandPoll
further [] = []
further (some c ∷ es) = further es
further (none ∷ es) = nothing ∷ further es

pub buffered_head : (k : ℕ) → k < 4 → buffered k ≡ k
unfolding buffered
buffered_head k h = ground arith

buffered_body : (k : ℕ) → buffered (4 + k) ≡ k
unfolding buffered
buffered_body k = ground arith

pub asked_for_head : (n k : ℕ) → k < 4 → asked_for n k ≡ 1024 - k
unfolding asked_for
asked_for_head n k h = ground arith

asked_for_body : (n k : ℕ) → asked_for n (4 + k) ≡ max n 1024 - k
unfolding asked_for
asked_for_body n k = ground arith

module _ {S : Type 0} (stream : Stream S) where
  -- A read for the rest of a packet, …
  round-body :
      (r : Receiver S) (n : ℕ) (c : Bytes) (u : S)
      → r.response_size ≡ some n
      → length r.response_buffer < n
      → length c ≢ length r.response_buffer
      → stream.poll_read (max n 1024 - length r.response_buffer) r.stream ≡ (filled c, u)
      → round stream r ≡ again (record r { stream = u; response_buffer = r.response_buffer ++ c })
  unfolding round read_more
  round-body r n c u size short other read =
      simp (round, size, not_whole, read_more, read, not_same) refl
    where
      not_whole : leb n (length r.response_buffer) ≡ false
      not_whole = ground arith

      not_same : (length c == length r.response_buffer) ≡ false
      not_same = ground arith

  -- … and one for that of a length.
  pub round-head :
      (r : Receiver S) (c : Bytes) (u : S)
      → r.response_size ≡ none
      → length r.response_buffer < 4
      → length c ≢ length r.response_buffer
      → stream.poll_read (1024 - length r.response_buffer) r.stream ≡ (filled c, u)
      → round stream r ≡ again (record r { stream = u; response_buffer = r.response_buffer ++ c })
  unfolding round read_more
  round-head r c u size short other read =
      simp (round, size, not_whole, read_more, read, not_same) refl
    where
      not_whole : leb 4 (length r.response_buffer) ≡ false
      not_whole = ground arith

      not_same : (length c == length r.response_buffer) ≡ false
      not_same = ground arith

  -- A read that finds nothing keeps what is buffered.
  round-body_waits :
      (r : Receiver S) (n : ℕ) (u : S)
      → r.response_size ≡ some n
      → length r.response_buffer < n
      → stream.poll_read (max n 1024 - length r.response_buffer) r.stream ≡ (pending, u)
      → round stream r ≡ returned waiting (record r { stream = u })
  unfolding round read_more
  round-body_waits r n u size short read = simp (round, size, not_whole, read_more, read) refl
    where
      not_whole : leb n (length r.response_buffer) ≡ false
      not_whole = ground arith

  pub round-head_waits :
      (r : Receiver S) (u : S)
      → r.response_size ≡ none
      → length r.response_buffer < 4
      → stream.poll_read (1024 - length r.response_buffer) r.stream ≡ (pending, u)
      → round stream r ≡ returned waiting (record r { stream = u })
  unfolding round read_more
  round-head_waits r u size short read = simp (round, size, not_whole, read_more, read) refl
    where
      not_whole : leb 4 (length r.response_buffer) ≡ false
      not_whole = ground arith

  -- What `run` does with the outcome of a poll, …
  abbrev pub continued : ℕ → List CommandPoll → Polled × Receiver S → Task × Receiver S
  continued fuel cs q = elim q.0 [
    | waiting ↦ run fuel stream cs q.1
    | ended ↦ (done, finish q.1)
    | spinning ↦ (stuck, q.1)
    | item i ↦
        (let (on, r) = handle stream i q.1 in
          elim on [ true ↦ run fuel stream cs r | false ↦ (done, finish r) ])
  ]

  -- … where the poll found no command.
  pub run-continued :
      (fuel : ℕ) (cs : List CommandPoll) (r : Receiver S)
      → run fuel stream (nothing ∷ cs) r ≡ continued fuel cs (poll_stream fuel stream r)
  unfolding run poll_next
  run-continued fuel cs r = refl

  -- The rest of a packet whose length is known, from a poll with fuel `left` on.
  pub assemble_body :
      (p rest : Bytes) (cs : List CommandPoll) (fuel : ℕ) (es : List Arrival) (left : ℕ)
      (r : Receiver S) (t : S)
      → r.response_size ≡ some (length p)
      → r.response_buffer ++ arrived es ≡ p ++ rest
      → Arrives stream (length p) (4 + length r.response_buffer) r.stream es t
      → length es < left
      → length es < fuel
      → continued fuel (further es ++ cs) (poll_stream left stream r)
        ≡ continued fuel cs (
          item (response p),
          record r { stream = t; response_size = none; response_buffer = rest },
        )
  unfolding poll_stream round arrived further
  assemble_body p rest cs fuel es zero r t size all arrives enough more =
      absurd (omega (arith, enough))
  assemble_body p rest cs fuel [] (suc left) r t size all there enough more =
      let here : r.response_buffer ≡ p ++ rest = sym (append-nil r.response_buffer) ∙ all in
      rw (poll_stream, round, size, here, whole, take-append p rest refl, drop-append p rest refl)
        (ap
          (λ (x : S). continued fuel cs (
            item (response p),
            record r { stream = x; response_size = none; response_buffer = rest },
          ))
          there)
    where
      whole : leb (length p) (length (p ++ rest)) ≡ true
      whole = let e = length-append p rest in ground (arith, e)
  assemble_body p rest cs fuel (some c ∷ es) (suc left) r t size all (u, short, other, read, later)
        enough more =
      let e = length-append r.response_buffer c in
      rw
        (
          poll_stream,
          round-body r (length p) c u size (omega (arith, short))
              (λ same. other (same ∙ sym (buffered_body (length r.response_buffer))))
              (rw (asked_for_body (length p) (length r.response_buffer)) at read),
        )
        (assemble_body p rest cs fuel es left
          (record r { stream = u; response_buffer = r.response_buffer ++ c }) t size
          (append_assoc r.response_buffer c (arrived es) ∙ all)
          (subst (λ k. Arrives stream (length p) k u es t) (omega (arith, e)) later)
          (omega (arith, enough)) (omega (arith, more)))
  assemble_body p rest cs fuel (none ∷ es) (suc left) r t size all (u, short, read, later) enough
        more =
      rw
        (
          poll_stream,
          round-body_waits r (length p) u size (omega (arith, short))
              (rw (asked_for_body (length p) (length r.response_buffer)) at read),
          run-continued fuel (further es ++ cs) (record r { stream = u }),
        )
        (assemble_body p rest cs fuel es fuel (record r { stream = u }) t size all later
          (omega (arith, more)) (omega (arith, more)))
