-- ===== src/Message/Deserialize/Growth.antt =====
-- The `Deserialize` implementations of src/message/*.rs on a buffer that grows: each runs short of bytes, or
-- ends as before and leaves the new ones.
pub mod Value
use rusftp.Prelude.{
  ℕ, zero, suc, ◌+◌, ◌≤◌, ◌≡◌, refl, true, false, Bool, String, List, [], ◌∷◌, ◌++◌, Option, none,
  some, length, length-append, err, ok, if◌then◌else◌, arith, pure, ◌>>=◌,
}
use rusftp.Wire.Error.{missing_field, invalid_length, invalid_attr, custom}
use rusftp.Wire.Field.{has_length}
use rusftp.Wire.Decoder.{
  Decoder, De, SeqM, SeqAccess, decode_u32, decode_u64, decode_bytes, decode_str, deserialize_unit,
  required, next_element, deserialize_newtype_struct, deserialize_struct,
}
use rusftp.Wire.Decoder.Growth.{
  Outcome, short, fails, gives, Steady, Steady-pure, Steady-bind, Outcome-bind, grow, Every,
  IsCounted, decode_u32-Steady, decode_u64-Steady, decode_bytes-Steady, decode_str-Steady,
  deserialize_unit-Steady, newtype-Steady,
}
use rusftp.Wire.Decoder.Growth.Sequences.{
  growing, IsAt, next_name, names_left, required-Steady, next_element-Steady, next_element-none,
}
use rusftp.Wire.Decoder.Growth.Visitors.{
  deserialize_tuple-Steady, deserialize_struct-Steady, deserialize_seq-Steady, unit_enum-Steady,
}
use rusftp.Message.Types.{
  FilePath, Handle, Data, Owner, Time, Permissions, PFlags, Attrs, NameEntry, Name, Message,
}
use rusftp.Message.Deserialize.{
  field, path, handle, content, owner, time, permissions, pflags, has_flag, known_flags, optional,
  attrs_fields, attrs_visitor, attrs, name_entry, elements_loop, name, status_code,
}

counts :
    (name : String) → has_length name ≡ true → (d : Decoder) → d.current_field ≡ name → IsCounted d
counts name counted d e = rw (e) counted

module _ (x : List ℕ) where
  -- One field after another of a struct, …
  pub then_field :
      {A B : Type 0} {Q : SeqAccess → Type 0} {fs : List String} {n : ℕ} (seed : De A)
      (f : A → SeqM B)
      → Steady (grow x) Every Every seed
      → ((a : A) → Steady (growing x) (IsAt (names_left fs) (some n)) Q (f a))
      → Steady (growing x) (IsAt fs (some (suc n))) Q (field seed >>= f)
  then_field {fs = fs} {n} seed f h g = required-Steady x invalid_length seed f fs n (λ d e. tt) h g

  -- … or one whose length is written under its name, …
  pub then_counted :
      {A B : Type 0} {Q : SeqAccess → Type 0} {fs : List String} {n : ℕ} (seed : De A)
      (f : A → SeqM B)
      → has_length (next_name fs) ≡ true
      → Steady (grow x) IsCounted Every seed
      → ((a : A) → Steady (growing x) (IsAt (names_left fs) (some n)) Q (f a))
      → Steady (growing x) (IsAt fs (some (suc n))) Q (field seed >>= f)
  then_counted {fs = fs} {n} seed f counted h g =
      required-Steady x invalid_length seed f fs n (counts (next_name fs) counted) h g

  -- … and the end.
  pub ends_with : {A : Type 0} {P : SeqAccess → Type 0} (a : A) → Steady (growing x) P P (pure a)
  ends_with {P = P} a = Steady-pure (growing x) P a

  -- A value in a wrapper.
  wrapped :
      {A B : Type 0} {P : Decoder → Type 0} (seed : De A) (f : A → B)
      → Steady (grow x) P Every seed
      → Steady (grow x) P Every (seed >>= λ a. pure (f a))
  wrapped seed f h = Steady-bind seed _ h (λ a. Steady-pure (grow x) Every (f a))

  pub path-Steady : Steady (grow x) Every Every path
  unfolding path has_length
  path-Steady = newtype-Steady x "Path" _ refl (wrapped decode_str _ (decode_str-Steady x))

  pub handle-Steady : Steady (grow x) Every Every handle
  unfolding handle has_length
  handle-Steady = newtype-Steady x "Handle" _ refl (wrapped decode_bytes _ (decode_bytes-Steady x))

  pub content-Steady : Steady (grow x) Every Every content
  unfolding content has_length
  content-Steady = newtype-Steady x "Data" _ refl (wrapped decode_bytes _ (decode_bytes-Steady x))

  permissions-Steady : Steady (grow x) Every Every permissions
  unfolding permissions has_length
  permissions-Steady =
      newtype-Steady x "Permisions" _ refl (wrapped decode_u32 _ (λ d c. decode_u32-Steady x d tt))

  pub pflags-Steady : Steady (grow x) Every Every pflags
  unfolding pflags has_length
  pflags-Steady =
      newtype-Steady x "PFlags" _ refl (wrapped decode_u32 _ (λ d c. decode_u32-Steady x d tt))

  owner-Steady : Steady (grow x) Every Every owner
  unfolding owner
  owner-Steady = deserialize_struct-Steady x "Owner" ("uid" ∷ "gid" ∷ []) _ (
      then_field decode_u32 _ (decode_u32-Steady x)
        λ a. then_field decode_u32 _ (decode_u32-Steady x) λ b. ends_with _)

  time-Steady : Steady (grow x) Every Every time
  unfolding time
  time-Steady = deserialize_struct-Steady x "Time" ("atime" ∷ "mtime" ∷ []) _ (
      then_field decode_u32 _ (decode_u32-Steady x)
        λ a. then_field decode_u32 _ (decode_u32-Steady x) λ b. ends_with _)

  -- The values of the attributes stand where their names are not known.
  optional-Steady :
      {A B : Type 0} {Q : SeqAccess → Type 0} (n : ℕ) (here : Bool) (text : String) (seed : De A)
      (f : Option A → SeqM B)
      → Steady (grow x) Every Every seed
      → ((o : Option A) → Steady (growing x) (IsAt [] (some n)) Q (f o))
      → Steady (growing x) (IsAt [] (some (suc n))) Q (optional here text seed >>= f)
  unfolding optional
  optional-Steady n true text seed f h g =
      Steady-bind _ f
        (required-Steady x (missing_field text) seed _ [] n (λ d e. tt) h (λ a. ends_with (some a)))
        g
  optional-Steady n false text seed f h g =
      Steady-bind _ f
        (required-Steady x (missing_field text) deserialize_unit _ [] n (λ d e. tt)
          (deserialize_unit-Steady x) (λ a. ends_with none))
        g

  attrs_fields-Steady :
      (flags : ℕ) → Steady (growing x) (IsAt [] (some 4)) (IsAt [] (some 0)) (attrs_fields flags)
  unfolding attrs_fields
  attrs_fields-Steady flags =
      optional-Steady 3 (has_flag flags 1) "attr_size" decode_u64 _ (decode_u64-Steady x) λ a.
        optional-Steady 2 (has_flag flags 2) "attr_owner" owner _ owner-Steady λ b.
          optional-Steady 1 (has_flag flags 4) "attr_perms" permissions _ permissions-Steady λ c.
            optional-Steady 0 (has_flag flags 8) "attr_time" time _ time-Steady λ d. ends_with _

  pub attrs-Steady : Steady (grow x) Every Every attrs
  unfolding attrs attrs_visitor
  attrs-Steady = deserialize_tuple-Steady x 5 _ (
      required-Steady x (missing_field "attr_flags") decode_u32 _ [] 4 (λ d e. tt)
        (decode_u32-Steady x) (λ flags. chosen flags (known_flags flags)))
    where
      chosen :
          (flags : ℕ) (known : Bool)
          → Steady
              (growing x)
              (IsAt [] (some 4))
              (IsAt [] (some 0))
              (if known then attrs_fields flags else λ s. err (custom invalid_attr))
      chosen flags true s at = attrs_fields-Steady flags s at
      chosen flags false s at = fails (custom invalid_attr) refl refl

  name_entry-Steady : Steady (grow x) Every Every name_entry
  unfolding name_entry has_length
  name_entry-Steady =
      deserialize_struct-Steady x "NameEntry" ("filename" ∷ "long_name" ∷ "attrs" ∷ []) _ (
        then_field path _ path-Steady λ a.
          then_counted decode_bytes _ refl (decode_bytes-Steady x)
            λ b. then_field attrs _ attrs-Steady λ c. ends_with _)

  -- What the loop does with the next element, …
  abbrev more : {A : Type 0} → De A → ℕ → Option A → SeqM (List A)
  more seed n none = pure []
  more seed n (some a) = elements_loop seed n >>= λ l. pure (a ∷ l)

  -- … where the grown buffer allows for more rounds.
  elements_loop-Steady :
      {A : Type 0} (seed : De A)
      → Steady (grow x) Every Every seed
      → (n n' k : ℕ) (s : SeqAccess) → n ≤ n'
      → IsAt [] (some k) s
      → Outcome (growing x) Every (elements_loop seed n s) (elements_loop seed n' (growing x s))
  unfolding elements_loop pure ◌>>=◌
  elements_loop-Steady seed h zero n' k s le at = short refl
  elements_loop-Steady seed h (suc n) zero k s le at = absurd (omega (arith, le))
  elements_loop-Steady seed h (suc n) (suc n') zero s le at =
      let (t, e, e') = next_element-none x seed s at.1 in
      gives [] t tt (rw (elements_loop, ◌>>=◌, e) refl) (rw (elements_loop, ◌>>=◌, e') refl)
  elements_loop-Steady {A} seed h (suc n) (suc n') (suc k) s le at =
      Outcome-bind (next_element seed) (next_element seed) (more seed n) (more seed n') s
        (growing x s) (next_element-Steady x seed [] k (λ d e. tt) h s at)
        (found (λ u there. elements_loop-Steady seed h n n' k u (omega (arith, le)) there))
    where
      found :
          ((u : SeqAccess)
            → IsAt [] (some k) u
            → Outcome
                (growing x)
                Every
                (elements_loop seed n u)
                (elements_loop seed n' (growing x u)))
          → (o : Option A) (u : SeqAccess) → IsAt [] (some k) u
          → Outcome (growing x) Every (more seed n o u) (more seed n' o (growing x u))
      found ih none u there = gives [] u tt refl refl
      found ih (some a) u there =
          Outcome-bind (elements_loop seed n) (elements_loop seed n') (λ l. pure (a ∷ l))
            (λ l. pure (a ∷ l)) u (growing x u) (ih u there) (λ l v p. gives (a ∷ l) v tt refl refl)

  pub name-Steady : Steady (grow x) Every Every name
  unfolding name has_length growing grow
  name-Steady = newtype-Steady x "Name" _ refl (
      Steady-bind _ _
        (deserialize_seq-Steady x _ (λ k s at.
          elements_loop-Steady name_entry name_entry-Steady (suc (length s.decoder.buf))
            (suc (length (s.decoder.buf ++ x))) k s (omega (arith, length-append s.decoder.buf x))
            at))
        (λ l. Steady-pure (grow x) Every (record { entries = l })))

  pub status_code-Steady : Steady (grow x) Every Every status_code
  unfolding status_code
  status_code-Steady = unit_enum-Steady x "StatusCode" _ _
