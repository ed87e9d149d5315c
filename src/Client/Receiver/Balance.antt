-- ===== src/Client/Receiver/Balance.antt =====
-- No request is lost or answered twice by the receiver, src/client/receiver.rs.
use rusftp.Prelude.{
  ℕ, suc, ◌+◌, ◌%◌, ◌^◌, ◌≡◌, ◌<◌, ◌≤◌, refl, List, [], ◌∷◌, length, Option, none, some, ok, err,
  arith, ◌∙◌, Option-cases, inl, inr, Result,
}
use native.Mathlib.Nat.{mod-eq_of_lt}
use rusftp.Message.Types.{Bytes, Message}
use rusftp.Message.Decode.{DecodeError, decode_raw}
use rusftp.Client.Error.{Error, of_decode_error}
use rusftp.Client.Reply.{Reply}
use rusftp.Client.Receiver.{
  Sender, OnFlight, Receiver, Stream, send_response, find, remove, insert, handle_request, settle,
  answer, handle_response, answer_all, lost, finish,
}
use rusftp.Client.Receiver.Table.{
  count, waiting_for, IsUnique, remove-absent, find-remove, find-remove_there, remove-IsUnique,
  count-remove, taken,
}
use rusftp.Client.Receiver.Quiet.{Same}

unfoldable pub answered : List (Sender × Reply Message) → List Sender
answered [] = []
answered ((tx, msg) ∷ rest) = tx ∷ answered rest

-- The keys are distinct and at most `next_id`, which has room for `n` more requests and is the number
-- of those taken; each request is in flight under its number, and every request taken from the channel
-- has been answered or is in flight.
pub record Valid {S : Type 0} (n : ℕ) (r : Receiver S) : Type 0 where
  pub unique : IsUnique r.onflight
  pub fresh : (id : ℕ) → r.next_id < id → find id r.onflight ≡ none
  pub bounded : r.next_id + n < 2 ^ 32
  pub counted : r.next_id ≡ length r.accepted
  pub numbered :
      (id : ℕ) (tx : Sender) → find id r.onflight ≡ some tx → taken id r.accepted ≡ some tx
  pub balanced :
      (tx : Sender)
      → count tx r.accepted ≡ count tx (answered r.answers) + count tx (waiting_for r.onflight)

answer_all-balanced :
    (t : Sender) (l : OnFlight) (a : List (Sender × Reply Message))
    → count t (answered (answer_all l a)) ≡ count t (answered a) + count t (waiting_for l)
unfolding answer_all answered count waiting_for
answer_all-balanced t [] a = omega arith
answer_all-balanced t ((id, tx) ∷ rest) a =
    ground (arith, answer_all-balanced t rest ((tx, lost) ∷ a))

module _ {S : Type 0} where
  pub Same-Valid : (n : ℕ) (r r' : Receiver S) → Same r r' → Valid n r → Valid n r'
  Same-Valid n r r' s v = record {
    unique = rw (s.onflight) v.unique;
    fresh = rw (s.onflight, s.next_id) v.fresh;
    bounded = rw (s.next_id) v.bounded;
    counted = rw (s.next_id, s.accepted) v.counted;
    numbered = rw (s.onflight, s.accepted) v.numbered;
    balanced = rw (s.onflight, s.accepted, s.answers) v.balanced;
  }

  pub Valid-less : (m n : ℕ) (r : Receiver S) → m ≤ n → Valid n r → Valid m r
  Valid-less m n r less v = record {
    unique = v.unique;
    fresh = v.fresh;
    bounded = omega (arith, v.bounded);
    counted = v.counted;
    numbered = v.numbered;
    balanced = v.balanced;
  }

  answer-Valid :
      (n id : ℕ) (msg : Reply Message) (r : Receiver S) → Valid n r → Valid n (answer id msg r)
  unfolding answer send_response answered count
  answer-Valid n id msg r v = elim (Option-cases (find id r.onflight)) [
    | inl none_there ↦ rw (answer, none_there) v
    | inr (tx, there) ↦
        rw (answer, there)
          (record {
            unique = remove-IsUnique id r.onflight v.unique;
            fresh = λ k later. find-remove k id r.onflight (v.fresh k later);
            bounded = v.bounded;
            counted = v.counted;
            numbered = λ k t left. v.numbered k t (find-remove_there k id r.onflight t left);
            balanced = λ t. moved t tx there;
          })
  ]
    where
      moved :
          (t tx : Sender)
          → find id r.onflight ≡ some tx
          → count t r.accepted
            ≡ count t (tx ∷ answered r.answers) + count t (waiting_for (remove id r.onflight))
      moved t tx there =
          ground (arith, v.balanced t, count-remove t tx id r.onflight v.unique there)

  pub handle_response-Valid :
      (n : ℕ) (bytes : Bytes) (r : Receiver S) → Valid n r → Valid n (handle_response bytes r)
  unfolding handle_response
  handle_response-Valid n bytes r v = go (decode_raw bytes) refl
    where
      refused :
          (x : DecodeError) (o : Option ℕ)
          → x.id ≡ o
          → Valid n (elim x.id [ some id ↦ answer id (err (of_decode_error x)) r | none ↦ r ])
      refused x none e = rw (e) v
      refused x (some id) e = rw (e) (answer-Valid n id (err (of_decode_error x)) r v)

      go :
          (d : Result (ℕ × Message) DecodeError)
          → decode_raw bytes ≡ d
          → Valid n (handle_response bytes r)
      go (ok (id, m)) e = rw (handle_response, e) (answer-Valid n id (ok m) r v)
      go (err x) e = rw (handle_response, e) (refused x x.id refl)

  sent-Valid :
      (n : ℕ) (tx : Sender) (s : S) (r : Receiver S)
      → Valid (suc n) r
      → Valid n (record r {
        accepted = tx ∷ r.accepted;
        next_id = suc r.next_id;
        stream = s;
        onflight = insert (suc r.next_id) tx r.onflight;
      })
  unfolding insert count waiting_for find taken
  sent-Valid n tx s r v =
      let here = v.fresh (suc r.next_id) (omega arith) in
      rw (remove-absent (suc r.next_id) r.onflight here) (record {
        unique = (here, v.unique);
        fresh = λ id later. let f = v.fresh id in ground arith;
        bounded = omega (arith, v.bounded);
        counted = omega (arith, v.counted);
        numbered = λ id t there. let f = v.numbered id t in let c = v.counted in ground arith;
        balanced = λ t. ground (arith, v.balanced t);
      })

  refused-Valid :
      (n : ℕ) (tx : Sender) (msg : Reply Message) (s : S) (r : Receiver S)
      → Valid (suc n) r
      → Valid n (record r {
        accepted = tx ∷ r.accepted;
        next_id = suc r.next_id;
        stream = s;
        answers = (tx, msg) ∷ r.answers;
      })
  unfolding count answered taken
  refused-Valid n tx msg s r v = record {
    unique = v.unique;
    fresh = λ id later. v.fresh id (omega arith);
    bounded = omega (arith, v.bounded);
    counted = omega (arith, v.counted);
    numbered = λ id t there.
        let f = v.numbered id t there in let g = v.fresh id in let c = v.counted in ground arith;
    balanced = λ t. ground (arith, v.balanced t);
  }

  settle-Valid :
      (n : ℕ) (tx : Sender) (w : Result (Unit {0}) Error × S) (r : Receiver S)
      → Valid (suc n) r
      → Valid n (
          settle
            (suc r.next_id)
            tx
            w
            (record r { accepted = tx ∷ r.accepted; next_id = suc r.next_id }))
  unfolding settle send_response
  settle-Valid n tx (ok u, s) r v = sent-Valid n tx s r v
  settle-Valid n tx (err e, s) r v = refused-Valid n tx (err e) s r v

  pub handle_request-Valid :
      (n : ℕ) (stream : Stream S) (m : Message) (tx : Sender) (r : Receiver S)
      → Valid (suc n) r
      → Valid n (handle_request stream m tx (record r { accepted = tx ∷ r.accepted }))
  unfolding handle_request
  handle_request-Valid n stream m tx r v = rw (handle_request, number) (settle-Valid n tx _ r v)
    where
      number : (r.next_id + 1) % 2 ^ 32 ≡ suc r.next_id
      number = mod-eq_of_lt (omega (arith, v.bounded)) ∙ omega arith

  pub finish-Valid : (n : ℕ) (r : Receiver S) → Valid n r → Valid n (finish r)
  unfolding finish count waiting_for find
  finish-Valid n r v = record {
    unique = tt;
    fresh = λ id later. refl;
    bounded = v.bounded;
    counted = v.counted;
    numbered = λ id tx there. cc there;
    balanced = λ t. omega (arith, v.balanced t, answer_all-balanced t r.onflight r.answers);
  }
