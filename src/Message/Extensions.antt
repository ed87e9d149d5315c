-- ===== src/Message/Extensions.antt =====
-- `BTreeMap<Bytes, Bytes>`, the extensions of INIT and VERSION (src/message/init.rs, version.rs):
-- the order of its keys and insertion.
pub mod Insertion
use Prim.Native.Nat.{compare, Ordering}
use rusftp.Prelude.{ℕ, ◌≡◌, refl, [], ◌∷◌, ◌++◌, ap, All, arith}
use rusftp.Message.Types.{Bytes, Extensions}

pub then_compare : Ordering → Ordering → Ordering
then_compare Ordering.eq o = o
then_compare o p = o

-- The lexicographic order of byte strings.
unfoldable pub compare_bytes : Bytes → Bytes → Ordering
unfolding then_compare
compare_bytes [] [] = Ordering.eq
compare_bytes [] (b ∷ bs) = Ordering.lt
compare_bytes (a ∷ as_) [] = Ordering.gt
compare_bytes (a ∷ as_) (b ∷ bs) = then_compare (compare a b) (compare_bytes as_ bs)

-- `BTreeMap::insert`: the entries stay in the order of their keys, and a key occurs once.
unfoldable pub insert : Bytes → Bytes → Extensions → Extensions
insert k v [] = (k, v) ∷ []
insert k v ((j, w) ∷ m) = elim (compare_bytes k j) [
  | Ordering.lt ↦ (k, v) ∷ (j, w) ∷ m
  | Ordering.eq ↦ (j, v) ∷ m
  | Ordering.gt ↦ (j, w) ∷ insert k v m
]

-- Every key of `m` comes after `k`; before `k`.
abbrev pub AllAfter : Bytes → Extensions → Type 0
AllAfter k m = All (λ (e : Bytes × Bytes). compare_bytes k e.0 ≡ Ordering.lt) m

abbrev pub AllBefore : Bytes → Extensions → Type 0
AllBefore k m = All (λ (e : Bytes × Bytes). compare_bytes k e.0 ≡ Ordering.gt) m

-- What a map keeps: keys in strictly increasing order.
abbrev pub IsSorted : Extensions → Type 0
IsSorted [] = Unit
IsSorted ((k, v) ∷ m) = AllAfter k m × IsSorted m

compare-flip :
    (a b : ℕ) (o p : Ordering)
    → (o ≡ Ordering.lt → p ≡ Ordering.gt)
    → then_compare (compare a b) o ≡ Ordering.lt
    → then_compare (compare b a) p ≡ Ordering.gt
unfolding then_compare
compare-flip a b o p h e = ground arith

pub compare_bytes-flip :
    (x y : Bytes) → compare_bytes x y ≡ Ordering.lt → compare_bytes y x ≡ Ordering.gt
unfolding compare_bytes
compare_bytes-flip [] [] h = ground arith
compare_bytes-flip [] (b ∷ bs) h = refl
compare_bytes-flip (a ∷ as_) [] h = ground arith
compare_bytes-flip (a ∷ as_) (b ∷ bs) h =
    compare-flip a b (compare_bytes as_ bs) (compare_bytes bs as_) (compare_bytes-flip as_ bs) h

-- A key after all others goes to the end.
pub insert-last : (k v : Bytes) (m : Extensions) → AllBefore k m → insert k v m ≡ m ++ (k, v) ∷ []
unfolding insert
insert-last k v [] h = refl
insert-last k v ((j, w) ∷ m) h = rw (h.0, insert) (ap (λ l. (j, w) ∷ l) (insert-last k v m h.1))
