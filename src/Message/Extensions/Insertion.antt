-- ===== src/Message/Extensions/Insertion.antt =====
-- The insertion of an entry into the map of extensions, src/message/init.rs, keeps its keys in order.
use Prim.Native.Nat.{compare, Ordering}
use rusftp.Prelude.{ℕ, suc, ◌≤◌, ◌≡◌, refl, [], ◌∷◌, All, length, arith}
use rusftp.Message.Types.{Bytes, Extensions}
use rusftp.Message.Extensions.{then_compare, compare_bytes, insert, AllAfter, IsSorted}

compare-unflip :
    (a b : ℕ) (o p : Ordering)
    → (o ≡ Ordering.gt → p ≡ Ordering.lt)
    → then_compare (compare a b) o ≡ Ordering.gt
    → then_compare (compare b a) p ≡ Ordering.lt
unfolding then_compare
compare-unflip a b o p h e = ground arith

compare_bytes-unflip :
    (x y : Bytes) → compare_bytes x y ≡ Ordering.gt → compare_bytes y x ≡ Ordering.lt
unfolding compare_bytes
compare_bytes-unflip [] [] h = ground arith
compare_bytes-unflip [] (b ∷ bs) h = ground arith
compare_bytes-unflip (a ∷ as_) [] h = refl
compare_bytes-unflip (a ∷ as_) (b ∷ bs) h =
    compare-unflip a b (compare_bytes as_ bs) (compare_bytes bs as_) (compare_bytes-unflip as_ bs) h

compare_trans :
    (a b c : ℕ) (o p q : Ordering)
    → (o ≡ Ordering.lt → p ≡ Ordering.lt → q ≡ Ordering.lt)
    → then_compare (compare a b) o ≡ Ordering.lt
    → then_compare (compare b c) p ≡ Ordering.lt
    → then_compare (compare a c) q ≡ Ordering.lt
unfolding then_compare
compare_trans a b c o p q h e f = ground arith

compare_bytes_trans :
    (x y z : Bytes)
    → compare_bytes x y ≡ Ordering.lt
    → compare_bytes y z ≡ Ordering.lt
    → compare_bytes x z ≡ Ordering.lt
unfolding compare_bytes
compare_bytes_trans [] [] z h k = ground arith
compare_bytes_trans [] (b ∷ y) [] h k = ground arith
compare_bytes_trans [] (b ∷ y) (c ∷ z) h k = refl
compare_bytes_trans (a ∷ x) [] z h k = ground arith
compare_bytes_trans (a ∷ x) (b ∷ y) [] h k = ground arith
compare_bytes_trans (a ∷ x) (b ∷ y) (c ∷ z) h k =
    compare_trans a b c (compare_bytes x y) (compare_bytes y z) (compare_bytes x z)
      (compare_bytes_trans x y z) h k

AllAfter-less :
    (k j : Bytes) (m : Extensions) → compare_bytes k j ≡ Ordering.lt → AllAfter j m → AllAfter k m
AllAfter-less k j [] h a = tt
AllAfter-less k j ((i, w) ∷ m) h (first, a) =
    (compare_bytes_trans k j i h first, AllAfter-less k j m h a)

-- Of each entry and of a new one, of the map with it.
pub insert-All :
    (P : Bytes × Bytes → Type 0) (k v : Bytes) (m : Extensions)
    → ((j : Bytes) (w : Bytes) → P (j, w) → P (j, v))
    → P (k, v)
    → All P m
    → All P (insert k v m)
unfolding insert
insert-All P k v [] swap p a = (p, tt)
insert-All P k v ((j, w) ∷ m) swap p (first, a) =
    go (compare_bytes k j) refl (insert-All P k v m swap p a)
  where
    go :
        (o : Ordering)
        → compare_bytes k j ≡ o
        → All P (insert k v m)
        → All P (insert k v ((j, w) ∷ m))
    go Ordering.lt e ih = rw (insert, e) (p, (first, a))
    go Ordering.eq e ih = rw (insert, e) (swap j w first, a)
    go Ordering.gt e ih = rw (insert, e) (first, ih)

pub insert-IsSorted : (k v : Bytes) (m : Extensions) → IsSorted m → IsSorted (insert k v m)
unfolding insert
insert-IsSorted k v [] s = (tt, tt)
insert-IsSorted k v ((j, w) ∷ m) (after, s) = go (compare_bytes k j) refl (insert-IsSorted k v m s)
  where
    go :
        (o : Ordering)
        → compare_bytes k j ≡ o
        → IsSorted (insert k v m)
        → IsSorted (insert k v ((j, w) ∷ m))
    go Ordering.lt e ih = rw (insert, e) ((e, AllAfter-less k j m e after), (after, s))
    go Ordering.eq e ih = rw (insert, e) (after, s)
    go Ordering.gt e ih =
        rw (insert, e)
          (
            insert-All (λ (x : Bytes × Bytes). compare_bytes j x.0 ≡ Ordering.lt) k v m (λ i w p. p)
                (compare_bytes-unflip k j e) after,
            ih,
          )

pub length-insert : (k v : Bytes) (m : Extensions) → length (insert k v m) ≤ suc (length m)
unfolding insert
length-insert k v [] = omega arith
length-insert k v ((j, w) ∷ m) = let ih = length-insert k v m in ground (arith, ih)
