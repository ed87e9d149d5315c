-- ===== src/Client/Receiver/Quiet.antt =====
-- The polls of src/client/receiver.rs that take nothing from the channel of the commands.
use rusftp.Prelude.{ℕ, zero, suc, ◌≡◌, refl, arith, ◌∙◌}
use rusftp.Client.Receiver.{Receiver, Stream, Round, returned, again, read_more, round, poll_stream}

-- Two receivers that differ in their stream and their buffer only.
pub record Same {S : Type 0} (r r' : Receiver S) : Type 0 where
  pub onflight : r'.onflight ≡ r.onflight
  pub next_id : r'.next_id ≡ r.next_id
  pub accepted : r'.accepted ≡ r.accepted
  pub answers : r'.answers ≡ r.answers

module _ {S : Type 0} where
  Same-trans : {r r' r'' : Receiver S} → Same r r' → Same r' r'' → Same r r''
  Same-trans s t = record {
    onflight = t.onflight ∙ s.onflight;
    next_id = t.next_id ∙ s.next_id;
    accepted = t.accepted ∙ s.accepted;
    answers = t.answers ∙ s.answers;
  }

  left : Round S → Receiver S
  left (returned p r) = r
  left (again r) = r

  round-Same : (stream : Stream S) (r : Receiver S) → Same r (left (round stream r))
  unfolding round read_more left
  round-Same stream r = record {
    onflight = ground arith;
    next_id = ground arith;
    accepted = ground arith;
    answers = ground arith;
  }

  pub poll_stream-Same :
      (fuel : ℕ) (stream : Stream S) (r : Receiver S) → Same r (poll_stream fuel stream r).1
  unfolding poll_stream left
  poll_stream-Same zero stream r = record {
    onflight = refl;
    next_id = refl;
    accepted = refl;
    answers = refl;
  }
  poll_stream-Same (suc fuel) stream r = go (round stream r) refl (poll_stream-Same fuel stream)
    where
      go :
          (x : Round S)
          → round stream r ≡ x
          → ((r' : Receiver S) → Same r' (poll_stream fuel stream r').1)
          → Same r (poll_stream (suc fuel) stream r).1
      go (returned p r') e ih = rw (poll_stream, e) (rw (e, left) at (round-Same stream r))
      go (again r') e ih =
          rw (poll_stream, e) (Same-trans (rw (e, left) at (round-Same stream r)) (ih r'))
