-- ===== src/Client/Receiver/Table.antt =====
-- The table of the requests in flight, src/client/receiver.rs: its keys are distinct.
use rusftp.Prelude.{
  ℕ, suc, ◌≡◌, refl, List, [], ◌∷◌, Option, none, some, length, ◌==◌, if◌then◌else◌, arith,
  Bool-cases, inl, inr, ap, ==_iff,
}
use rusftp.Client.Receiver.{Sender, OnFlight, find, remove}

-- How often a sender stands in a list.
unfoldable pub count : Sender → List Sender → ℕ
count tx [] = 0
count tx (t ∷ ts) = let rest = count tx ts in if t == tx then suc rest else rest

unfoldable pub waiting_for : OnFlight → List Sender
waiting_for [] = []
waiting_for ((id, tx) ∷ rest) = tx ∷ waiting_for rest

abbrev pub IsUnique : OnFlight → Type 0
IsUnique [] = Unit
IsUnique ((id, tx) ∷ rest) = (find id rest ≡ none) × IsUnique rest

pub remove-absent : (id : ℕ) (l : OnFlight) → find id l ≡ none → remove id l ≡ l
unfolding find remove
remove-absent id [] h = refl
remove-absent id ((k, tx) ∷ rest) h = elim (Bool-cases (k == id)) [
  | inl same ↦ cc (same, h)
  | inr other ↦
      rw (other) (ap (λ (x : OnFlight). (k, tx) ∷ x) (remove-absent id rest (rw (other) at h)))
]

pub find-remove : (id k : ℕ) (l : OnFlight) → find id l ≡ none → find id (remove k l) ≡ none
unfolding find remove
find-remove id k [] h = refl
find-remove id k ((j, tx) ∷ rest) h = let ih = find-remove id k rest in ground arith

pub remove-IsUnique : (id : ℕ) (l : OnFlight) → IsUnique l → IsUnique (remove id l)
unfolding remove
remove-IsUnique id [] u = tt
remove-IsUnique id ((k, tx) ∷ rest) (absent, u) = elim (Bool-cases (k == id)) [
  | inl same ↦ rw (same) (remove-IsUnique id rest u)
  | inr other ↦ rw (other) (find-remove k id rest absent, remove-IsUnique id rest u)
]

-- Removing an entry takes its sender out once.
pub count-remove :
    (tx t : Sender) (id : ℕ) (l : OnFlight)
    → IsUnique l
    → find id l ≡ some t
    → count tx (waiting_for l) ≡ count tx (t ∷ waiting_for (remove id l))
unfolding find remove count waiting_for
count-remove tx t id [] u h = cc h
count-remove tx t id ((k, s) ∷ rest) (absent, u) h = elim (Bool-cases (k == id)) [
  | inl same ↦
      (let e = remove-absent id rest (rw ((==_iff k id).0 same) at absent) in
        ground (arith, same, e))
  | inr other ↦
      (let ih = count-remove tx t id rest u (rw (other) at h) in ground (arith, other, ih))
]

-- The sender of the request that was taken as the given one, counted from 1; the last one stands in
-- front.
unfoldable pub taken : ℕ → List Sender → Option Sender
taken id [] = none
taken id (tx ∷ older) =
    let before = taken id older in if id == suc (length older) then some tx else before

find-remove_same : (id : ℕ) (l : OnFlight) → find id (remove id l) ≡ none
unfolding find remove
find-remove_same id [] = refl
find-remove_same id ((k, tx) ∷ rest) = let ih = find-remove_same id rest in ground (arith, ih)

-- What is left in a table was there before.
pub find-remove_there :
    (id k : ℕ) (l : OnFlight) (tx : Sender) → find id (remove k l) ≡ some tx → find id l ≡ some tx
unfolding find remove
find-remove_there id k [] tx h = h
find-remove_there id k ((j, t) ∷ rest) tx h =
    let ih = find-remove_there id k rest tx in
    let gone = find-remove_same id rest in ground (arith, ih, gone, h)
