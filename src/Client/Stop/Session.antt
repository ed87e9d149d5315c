-- ===== src/Client/Stop/Session.antt =====
-- The clients of a session, src/client/stop.rs, in any order of clones, stops and drops.
use rusftp.Prelude.{
  ℕ, zero, suc, ◌+◌, false, ◌≡◌, ◌↔◌, refl, ◌∙◌, true, false, List, [], ◌∷◌, ◌++◌, if◌then◌else◌,
  arith,
}
use rusftp.Client.Future.{SftpClient}
use rusftp.Client.Stop.{
  Stopping, new_stopping, stop, poll_stopping, drop_stopping, forget, drop_client, clone_client,
}

-- How many clients refer to the handle of the task.
unfoldable pub holders : List SftpClient → ℕ
holders [] = 0
holders (c ∷ cs) = (if c.request_processor then 1 else 0) + holders cs

pub record Session : Type 0 where
  pub clients : List SftpClient
  pub refs : ℕ

-- One client of the session is cloned, is stopped (with the future polled to its end, or dropped
-- at once), or is dropped.
pub data Step : Session → Session → Type 0 where
  clone :
      (xs : List SftpClient) (c : SftpClient) (ys : List SftpClient) (n : ℕ)
      → Step
          (record { clients = xs ++ c ∷ ys; refs = n })
          (record { clients = (clone_client c n).0 ∷ xs ++ c ∷ ys; refs = (clone_client c n).1 })
  finish :
      (xs : List SftpClient) (c : SftpClient) (ys : List SftpClient) (n : ℕ)
      → Step
          (record { clients = xs ++ c ∷ ys; refs = n })
          (let q = stop c n in
            let r = drop_stopping (poll_stopping q.0 true).1 q.1 in
            record { clients = xs ++ r.0 ∷ ys; refs = r.1 })
  cancel :
      (xs : List SftpClient) (c : SftpClient) (ys : List SftpClient) (n : ℕ)
      → Step
          (record { clients = xs ++ c ∷ ys; refs = n })
          (let q = stop c n in
            let r = drop_stopping q.0 q.1 in record { clients = xs ++ r.0 ∷ ys; refs = r.1 })
  leave :
      (xs : List SftpClient) (c : SftpClient) (ys : List SftpClient) (n : ℕ)
      → Step
          (record { clients = xs ++ c ∷ ys; refs = n })
          (record { clients = xs ++ ys; refs = (drop_client c n).1 })

pub data Reach (s : Session) : Session → Type 0 where
  here : Reach s s
  next : {t u : Session} → Reach s t → Step t u → Reach s u

abbrev pub IsCounted : Session → Type 0
IsCounted s = s.refs ≡ holders s.clients

holders-append :
    (xs : List SftpClient) (c : SftpClient) (ys : List SftpClient)
    → holders (xs ++ c ∷ ys) ≡ (if c.request_processor then 1 else 0) + holders (xs ++ ys)
unfolding holders
holders-append [] c ys = refl
holders-append (x ∷ xs) c ys = ground (arith, holders-append xs c ys)

-- One client and the number of references, where `k` others refer to the handle.
abbrev IsCountedWith : ℕ → SftpClient × ℕ → Type 0
IsCountedWith k q = q.1 ≡ (if q.0.request_processor then 1 else 0) + k

finish-IsCounted :
    (c : SftpClient) (n k : ℕ)
    → IsCountedWith k (c, n)
    → IsCountedWith k (drop_stopping (poll_stopping (stop c n).0 true).1 (stop c n).1)
unfolding stop new_stopping poll_stopping drop_stopping
finish-IsCounted c n k h = ground arith

cancel-IsCounted :
    (c : SftpClient) (n k : ℕ)
    → IsCountedWith k (c, n)
    → IsCountedWith k (drop_stopping (stop c n).0 (stop c n).1)
unfolding stop new_stopping drop_stopping
cancel-IsCounted c n k h = ground arith

Step-IsCounted : {s t : Session} → Step s t → IsCounted s → IsCounted t
unfolding holders drop_client new_stopping forget drop_stopping clone_client
Step-IsCounted (clone xs c ys n) h = ground (arith, holders-append xs c ys)
Step-IsCounted (finish xs c ys n) h =
    rw (holders-append xs _ ys)
      (finish-IsCounted c n (holders (xs ++ ys)) (h ∙ holders-append xs c ys))
Step-IsCounted (cancel xs c ys n) h =
    rw (holders-append xs _ ys)
      (cancel-IsCounted c n (holders (xs ++ ys)) (h ∙ holders-append xs c ys))
Step-IsCounted (leave xs c ys n) h = ground (arith, holders-append xs c ys)

Reach-IsCounted : {s t : Session} → IsCounted s → Reach s t → IsCounted t
Reach-IsCounted h here = h
Reach-IsCounted h (next r st) = Step-IsCounted st (Reach-IsCounted h r)

-- The future after a number of polls that do not find the task ended.
unfoldable pub poll_waiting : ℕ → Stopping → Stopping
poll_waiting zero s = s
poll_waiting (suc n) s = poll_waiting n (poll_stopping s false).1

poll_stopping-ended : (s : Stopping) → (poll_stopping s true).0 ≡ true
unfolding poll_stopping
poll_stopping-ended s = ground arith

poll_waiting-same : (n : ℕ) (s : Stopping) → poll_waiting n s ≡ s
unfolding poll_waiting poll_stopping
poll_waiting-same zero s = refl
poll_waiting-same (suc n) s = poll_waiting-same n (poll_stopping s false).1 ∙ ground arith

-- In every session that is reached from one client by clones, stops, cancelled stops and drops, in
-- any order: when a client is stopped, each poll that does not find the task ended, after any number of
-- such polls, waits exactly if this client refers to the task and no other client does; a poll that
-- finds the task ended is ready.
pub Reach-waits_iff :
    (c : SftpClient) (xs : List SftpClient) (d : SftpClient) (ys : List SftpClient) (n waits : ℕ)
    → c.request_processor ≡ true
    → Reach (record { clients = c ∷ []; refs = 1 }) (record { clients = xs ++ d ∷ ys; refs = n })
    → (((poll_stopping (poll_waiting waits (stop d n).0) false).0 ≡ false)
        ↔ ((d.request_processor ≡ true) × (holders (xs ++ ys) ≡ 0)))
      × ((poll_stopping (poll_waiting waits (stop d n).0) true).0 ≡ true)
unfolding stop poll_stopping new_stopping holders
Reach-waits_iff c xs d ys n waits first r =
    let counted = Reach-IsCounted (ground (arith, first)) r in
    let split = holders-append xs d ys in
    rw (poll_waiting-same waits (stop d n).0)
      (ground (arith, counted, split), poll_stopping-ended (stop d n).0)
