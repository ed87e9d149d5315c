-- ===== src/Message/Entries.antt =====
-- `Name`, src/message/name.rs, as a container of its entries.
use rusftp.Prelude.{
  ℕ, zero, suc, ◌-◌, ◌&&◌, List, [], ◌∷◌, Option, none, some, length, take, drop, map, leb,
  if◌then◌else◌,
}
use mathlib.Core.Option.{map as map_option}
use rusftp.Message.Types.{Name, NameEntry}

-- `into_iter`, and `iter` of a borrowed one.
unfoldable pub into_iter : Name → List NameEntry
into_iter n = n.entries

-- A loop over `iter_mut` that changes each entry by `f`.
unfoldable pub for_each_mut : (NameEntry → NameEntry) → Name → Name
for_each_mut f n = record { entries = map f n.entries }

-- `as_ref`, `deref` and `borrow`; what `as_mut`, `deref_mut` and `borrow_mut` give to be changed is the same
-- slice.
unfoldable pub as_ref : Name → List NameEntry
as_ref n = n.entries

-- `FromIterator::from_iter`
unfoldable pub from_iter : List NameEntry → Name
from_iter iter = record { entries = iter }

-- `Index` by a number; out of range it panics, which is `none`.
get_entry : List NameEntry → ℕ → Option NameEntry
get_entry [] i = none
get_entry (e ∷ es) zero = some e
get_entry (e ∷ es) (suc i) = get_entry es i

unfoldable pub index : Name → ℕ → Option NameEntry
unfolding get_entry
index n i = get_entry n.entries i

-- `Index` by a range, which panics if it ends before it starts or behind the last entry.
unfoldable pub index_range : Name → ℕ → ℕ → Option (List NameEntry)
index_range n start end =
    if leb start end && leb end (length n.entries)
    then some (take (end - start) (drop start n.entries))
    else none

-- `IndexMut` by a number, where the entry is then assigned.
set_entry : List NameEntry → ℕ → NameEntry → Option (List NameEntry)
set_entry [] i v = none
set_entry (e ∷ es) zero v = some (v ∷ es)
set_entry (e ∷ es) (suc i) v = map_option (λ es'. e ∷ es') (set_entry es i v)

unfoldable pub index_mut : Name → ℕ → NameEntry → Option Name
unfolding set_entry
index_mut n i v = map_option from_iter (set_entry n.entries i v)
