-- ===== src/Client/Receiver/Run.antt =====
-- `run` of src/client/receiver.rs keeps the balance of requests and answers.
use rusftp.Prelude.{
  ℕ, zero, suc, ◌+◌, ◌^◌, ◌≡◌, ◌<◌, refl, Bool, true, false, List, [], ◌∷◌, some, length, arith,
  Bool-cases, inl, inr,
}
use rusftp.Client.Receiver.{
  Sender, OnFlight, Receiver, Stream, CommandPoll, received, closed, nothing, request, response,
  failure, Polled, waiting, ended, item, spinning, Round, returned, again, new_receiver, read_more,
  round, poll_stream, poll_next, find, goes_on, handle, finish, done, run,
}
use rusftp.Client.Receiver.Table.{count, waiting_for, taken}
use rusftp.Client.Receiver.Quiet.{Same, poll_stream-Same}
use rusftp.Client.Receiver.Balance.{
  answered, Valid, Same-Valid, Valid-less, handle_response-Valid, handle_request-Valid,
  finish-Valid,
}

no_request : Polled → Bool
no_request (item (request m tx)) = false
no_request p = true

module _ {S : Type 0} where
  polled_of : Round S → Polled
  polled_of (returned p r) = p
  polled_of (again r) = waiting

  round-no_request :
      (stream : Stream S) (r : Receiver S) → no_request (polled_of (round stream r)) ≡ true
  unfolding round read_more polled_of no_request
  round-no_request stream r = ground arith

  poll_stream-no_request :
      (fuel : ℕ) (stream : Stream S) (r : Receiver S)
      → no_request (poll_stream fuel stream r).0 ≡ true
  unfolding poll_stream polled_of no_request
  poll_stream-no_request zero stream r = refl
  poll_stream-no_request (suc fuel) stream r =
      go (round stream r) refl (poll_stream-no_request fuel stream)
    where
      go :
          (x : Round S)
          → round stream r ≡ x
          → ((r' : Receiver S) → no_request (poll_stream fuel stream r').0 ≡ true)
          → no_request (poll_stream (suc fuel) stream r).0 ≡ true
      go (returned p r') e ih =
          rw (poll_stream, e) (rw (e, polled_of) at (round-no_request stream r))
      go (again r') e ih = rw (poll_stream, e) (ih r')

  closed-Same :
      (fuel : ℕ) (stream : Stream S) (r : Receiver S) → Same r (poll_next fuel stream closed r).1
  unfolding poll_next
  closed-Same fuel stream r = go r.onflight refl
    where
      go : (l : OnFlight) → r.onflight ≡ l → Same r (poll_next fuel stream closed r).1
      go [] e =
          rw (poll_next, e)
            (record { onflight = e; next_id = refl; accepted = refl; answers = refl })
      go (x ∷ l) e = simp (poll_next, e) (poll_stream-Same fuel stream r)

  closed-no_request :
      (fuel : ℕ) (stream : Stream S) (r : Receiver S)
      → no_request (poll_next fuel stream closed r).0 ≡ true
  unfolding poll_next no_request
  closed-no_request fuel stream r = go r.onflight refl
    where
      go : (l : OnFlight) → r.onflight ≡ l → no_request (poll_next fuel stream closed r).0 ≡ true
      go [] e = rw (poll_next, e)
      go (x ∷ l) e = rw (poll_next, e) (poll_stream-no_request fuel stream r)

  -- What follows a poll that took nothing from the channel.
  proceed-Valid :
      (n fuel : ℕ) (stream : Stream S) (c : CommandPoll) (cs : List CommandPoll) (r : Receiver S)
      (p : Polled)
      → (poll_next fuel stream c r).0 ≡ p
      → no_request p ≡ true
      → Valid n (poll_next fuel stream c r).1
      → ((r' : Receiver S) → Valid n r' → Valid 0 (run fuel stream cs r').1)
      → Valid 0 (run fuel stream (c ∷ cs) r).1
  unfolding run no_request handle
  proceed-Valid n fuel stream c cs r waiting e h v ih = rw (run, e) (ih _ v)
  proceed-Valid n fuel stream c cs r ended e h v ih =
      rw (run, e) (Valid-less 0 n _ (omega arith) (finish-Valid n _ v))
  proceed-Valid n fuel stream c cs r spinning e h v ih =
      rw (run, e) (Valid-less 0 n _ (omega arith) v)
  proceed-Valid n fuel stream c cs r (item (response bytes)) e h v ih =
      rw (run, e) (ih _ (handle_response-Valid n bytes _ v))
  proceed-Valid n fuel stream c cs r (item (failure kind msg)) e h v ih =
      elim (Bool-cases (goes_on kind)) [
        | inl on ↦ rw (run, e, handle, on) (ih _ v)
        | inr off ↦ rw (run, e, handle, off) (Valid-less 0 n _ (omega arith) (finish-Valid n _ v))
      ]
  proceed-Valid n fuel stream c cs r (item (request m tx)) e h v ih = cc h

  quiet-Valid : (n : ℕ) (r r' : Receiver S) → Same r r' → Valid (suc n) r → Valid n r'
  quiet-Valid n r r' s v = Valid-less n (suc n) r' (omega arith) (Same-Valid (suc n) r r' s v)

  run-Valid :
      (fuel : ℕ) (stream : Stream S) (cs : List CommandPoll) (r : Receiver S)
      → Valid (length cs) r
      → Valid 0 (run fuel stream cs r).1
  unfolding run handle poll_next
  run-Valid fuel stream [] r v = v
  run-Valid fuel stream (received m tx ∷ cs) r v =
      run-Valid fuel stream cs _ (handle_request-Valid (length cs) stream m tx r v)
  run-Valid fuel stream (closed ∷ cs) r v =
      proceed-Valid (length cs) fuel stream closed cs r _ refl (closed-no_request fuel stream r)
        (quiet-Valid (length cs) r _ (closed-Same fuel stream r) v) (run-Valid fuel stream cs)
  run-Valid fuel stream (nothing ∷ cs) r v =
      proceed-Valid (length cs) fuel stream nothing cs r _ refl
        (poll_stream-no_request fuel stream r)
        (quiet-Valid (length cs) r _ (poll_stream-Same fuel stream r) v) (run-Valid fuel stream cs)

  new_receiver-Valid : (n : ℕ) (s : S) → n < 2 ^ 32 → Valid n (new_receiver s)
  unfolding new_receiver find count answered waiting_for
  new_receiver-Valid n s short = record {
    unique = tt;
    fresh = λ id later. refl;
    bounded = omega (arith, short);
    counted = refl;
    numbered = λ id tx there. cc there;
    balanced = λ t. refl;
  }

  -- From the start of a receiver, over fewer than 2 ^ 32 polls of its commands: as often as a sender
  -- was taken from the channel, it has been answered or waits in the table, however the stream
  -- behaves and whatever it holds.
  pub run-balanced :
      (fuel : ℕ) (stream : Stream S) (cs : List CommandPoll) (s : S) (tx : Sender)
      → length cs < 2 ^ 32
      → count tx (run fuel stream cs (new_receiver s)).1.accepted
        ≡ count tx (answered (run fuel stream cs (new_receiver s)).1.answers)
          + count tx (waiting_for (run fuel stream cs (new_receiver s)).1.onflight)
  run-balanced fuel stream cs s tx short =
      (run-Valid fuel stream cs (new_receiver s) (new_receiver-Valid (length cs) s short)).balanced
        tx

  -- From the start of a receiver, over fewer than 2 ^ 32 polls of its commands: the request that is
  -- in flight under an id is the one that was taken from the channel as that one, counted from 1,
  -- however the stream behaves and whatever it holds.
  pub run-numbered :
      (fuel : ℕ) (stream : Stream S) (cs : List CommandPoll) (s : S) (id : ℕ) (tx : Sender)
      → length cs < 2 ^ 32
      → find id (run fuel stream cs (new_receiver s)).1.onflight ≡ some tx
      → taken id (run fuel stream cs (new_receiver s)).1.accepted ≡ some tx
  run-numbered fuel stream cs s id tx short =
      (run-Valid fuel stream cs (new_receiver s) (new_receiver-Valid (length cs) s short)).numbered
        id tx

  -- A task that has ended has no request left in the table.
  run-empty :
      (fuel : ℕ) (stream : Stream S) (cs : List CommandPoll) (r : Receiver S)
      → (run fuel stream cs r).0 ≡ done
      → (run fuel stream cs r).1.onflight ≡ []
  unfolding run finish
  run-empty fuel stream [] r h = cc h
  run-empty fuel stream (c ∷ cs) r h =
      go (poll_next fuel stream c r).0 refl (run-empty fuel stream cs) h
    where
      go :
          (p : Polled)
          → (poll_next fuel stream c r).0 ≡ p
          → ((r' : Receiver S)
              → (run fuel stream cs r').0 ≡ done
              → (run fuel stream cs r').1.onflight ≡ [])
          → (run fuel stream (c ∷ cs) r).0 ≡ done
          → (run fuel stream (c ∷ cs) r).1.onflight ≡ []
      go waiting e ih h = rw (run, e) (ih _ (rw (run, e) at h))
      go ended e ih h = rw (run, e)
      go spinning e ih h = cc (rw (run, e) at h)
      go (item i) e ih h = elim (Bool-cases (handle stream i (poll_next fuel stream c r).1).0) [
        | inl on ↦ rw (run, e, on) (ih _ (rw (run, e, on) at h))
        | inr off ↦ rw (run, e, off)
      ]

  -- When the task of a receiver has ended within fewer than 2 ^ 32 polls of its commands, every
  -- sender has been answered exactly as often as it was taken from the channel.
  pub run-answers_all :
      (fuel : ℕ) (stream : Stream S) (cs : List CommandPoll) (s : S) (tx : Sender)
      → length cs < 2 ^ 32
      → (run fuel stream cs (new_receiver s)).0 ≡ done
      → count tx (answered (run fuel stream cs (new_receiver s)).1.answers)
        ≡ count tx (run fuel stream cs (new_receiver s)).1.accepted
  unfolding count waiting_for
  run-answers_all fuel stream cs s tx short ends =
      let b = run-balanced fuel stream cs s tx short in
      let e = rw (run-empty fuel stream cs (new_receiver s) ends) at b in omega (arith, e)
