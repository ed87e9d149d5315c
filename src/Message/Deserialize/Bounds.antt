-- ===== src/Message/Deserialize/Bounds.antt =====
-- What the `Deserialize` implementations of src/message/*.rs give fits the types of Rust.
pub mod Value
use rusftp.Prelude.{
  ℕ, zero, suc, ◌+◌, ◌^◌, ◌<◌, ◌≤◌, ◌≡◌, refl, true, false, if◌then◌else◌, Bool, Bool-cases, inl,
  inr, String, List, [], ◌∷◌, Option, none, some, Result, ok, err, length, arith, All, M, pure,
  ◌>>=◌,
}
use rusftp.Wire.Error.{Error, missing_field, CustomText, invalid_length, custom, invalid_attr}
use rusftp.Wire.Utf8.{is_utf8}
use rusftp.Wire.Encoder.{u32_max}
use rusftp.Wire.Decoder.{
  De, SeqM, SeqAccess, decode_u32, decode_u64, decode_bytes, decode_str, deserialize_unit, required,
  next_element, next_entry, deserialize_newtype_struct, deserialize_struct,
}
use rusftp.Wire.Decoder.Bounds.{
  Gives, Gives-pure, Gives-bind, IsBuf, IsAccess, Any, decode_u32-Gives, decode_u64-Gives,
  decode_bytes-Gives, decode_str-Gives,
}
use rusftp.Wire.Decoder.Bounds.Sequences.{
  IfFound, deserialize_unit-Gives, newtype-Gives, deserialize_tuple-Gives, deserialize_struct-Gives,
  deserialize_seq-Gives, deserialize_map-Gives, next_element-Gives, next_entry-Gives,
  required-Gives, unit_enum-Gives,
}
use rusftp.Message.Types.{
  Bytes, Handle, Data, FilePath, Owner, Time, Permissions, PFlags, Attrs, Extensions, NameEntry,
  Name, Message,
}
use rusftp.Message.Extensions.{insert, IsSorted}
use rusftp.Message.Extensions.Insertion.{insert-All, insert-IsSorted, length-insert}
use rusftp.Message.Kind.{MessageKind}
use rusftp.Message.Valid.{
  IsU32, IsU64, Fits, IsText, IsPath, IfSome, IsOwner, IsTime, IsAttrs, IsEntry, IsExtensions,
  IsValid,
}
use rusftp.Message.Deserialize.{
  field, path, handle, content, owner, time, permissions, pflags, has_flag, known_flags, optional,
  attrs_fields, attrs_visitor, attrs, entries_loop, extensions, name_entry, elements_loop, name,
  status_code, value,
}

-- One field after another of a struct, …
pub then_field :
    {A B : Type 0} {P : A → Type 0} {Q : B → Type 0} (seed : De A) (f : A → SeqM B)
    → Gives IsBuf P seed
    → ((a : A) → P a → Gives IsAccess Q (f a))
    → Gives IsAccess Q (field seed >>= f)
then_field seed f g h = Gives-bind (field seed) f (required-Gives invalid_length seed g) h

-- … and its end.
pub ends_with : {A : Type 0} (P : A → Type 0) (a : A) → P a → Gives IsAccess P (pure a)
ends_with P a p = Gives-pure IsAccess P a p

pub path-Gives : Gives IsBuf IsPath path
unfolding path
path-Gives = newtype-Gives "Path" _ (
    Gives-bind decode_str _ decode_str-Gives
      (λ t p. Gives-pure IsBuf IsPath (record { text = t }) p))

pub handle-Gives : Gives IsBuf (λ (h : Handle). Fits h.bytes) handle
unfolding handle
handle-Gives = newtype-Gives "Handle" _ (
    Gives-bind decode_bytes _ decode_bytes-Gives
      (λ t p. Gives-pure IsBuf (λ (h : Handle). Fits h.bytes) (record { bytes = t }) p))

pub content-Gives : Gives IsBuf (λ (h : Data). Fits h.bytes) content
unfolding content
content-Gives = newtype-Gives "Data" _ (
    Gives-bind decode_bytes _ decode_bytes-Gives
      (λ t p. Gives-pure IsBuf (λ (h : Data). Fits h.bytes) (record { bytes = t }) p))

permissions-Gives : Gives IsBuf (λ (p : Permissions). IsU32 p.bits) permissions
unfolding permissions
permissions-Gives = newtype-Gives "Permisions" _ (
    Gives-bind decode_u32 _ decode_u32-Gives
      (λ t p. Gives-pure IsBuf (λ (p : Permissions). IsU32 p.bits) (record { bits = t }) p))

pub pflags-Gives : Gives IsBuf (λ (p : PFlags). IsU32 p.bits) pflags
unfolding pflags
pflags-Gives = newtype-Gives "PFlags" _ (
    Gives-bind decode_u32 _ decode_u32-Gives
      (λ t p. Gives-pure IsBuf (λ (p : PFlags). IsU32 p.bits) (record { bits = t }) p))

owner-Gives : Gives IsBuf IsOwner owner
unfolding owner
owner-Gives = deserialize_struct-Gives "Owner" ("uid" ∷ "gid" ∷ []) _ (
    then_field decode_u32 _ decode_u32-Gives λ a p.
      then_field decode_u32 _ decode_u32-Gives
        λ b q. ends_with IsOwner (record { uid = a; gid = b }) (p, q))

time-Gives : Gives IsBuf IsTime time
unfolding time
time-Gives = deserialize_struct-Gives "Time" ("atime" ∷ "mtime" ∷ []) _ (
    then_field decode_u32 _ decode_u32-Gives λ a p.
      then_field decode_u32 _ decode_u32-Gives
        λ b q. ends_with IsTime (record { atime = a; mtime = b }) (p, q))

optional-Gives :
    {A : Type 0} {P : A → Type 0} (here : Bool) (text : String) (seed : De A)
    → Gives IsBuf P seed
    → Gives IsAccess (IfSome P) (optional here text seed)
unfolding optional
optional-Gives {A} {P} true text seed g =
    Gives-bind (required (missing_field text) seed) _ (required-Gives (missing_field text) seed g)
      (λ a p. Gives-pure IsAccess (IfSome P) (some a) p)
optional-Gives {A} {P} false text seed g =
    Gives-bind (required (missing_field text) deserialize_unit) _
      (required-Gives (missing_field text) deserialize_unit deserialize_unit-Gives)
      (λ a p. Gives-pure IsAccess (IfSome P) none tt)

attrs_fields-Gives : (flags : ℕ) → Gives IsAccess IsAttrs (attrs_fields flags)
unfolding attrs_fields
attrs_fields-Gives flags =
    Gives-bind _ _ (optional-Gives (has_flag flags 1) "attr_size" decode_u64 decode_u64-Gives)
      λ a p.
        Gives-bind _ _ (optional-Gives (has_flag flags 2) "attr_owner" owner owner-Gives) λ b q.
          Gives-bind _ _
            (optional-Gives (has_flag flags 4) "attr_perms" permissions permissions-Gives)
            λ c r.
              Gives-bind _ _ (optional-Gives (has_flag flags 8) "attr_time" time time-Gives) λ d s.
                ends_with IsAttrs (record { size = a; owner = b; perms = c; time = d })
                  (record { size = p; owner = q; perms = r; time = s })

pub attrs-Gives : Gives IsBuf IsAttrs attrs
unfolding attrs attrs_visitor
attrs-Gives = deserialize_tuple-Gives 5 _ (
    Gives-bind (required (missing_field "attr_flags") decode_u32) _
      (required-Gives (missing_field "attr_flags") decode_u32 decode_u32-Gives)
      (λ flags p. chosen flags (known_flags flags)))
  where
    chosen :
        (flags : ℕ) (known : Bool)
        → Gives IsAccess IsAttrs
            (if known then attrs_fields flags else λ s. err (custom invalid_attr))
    chosen flags true s a s' i e = attrs_fields-Gives flags s a s' i e
    chosen flags false s a s' i e = cc e

abbrev IsPair : Bytes × Bytes → Type 0
IsPair kv = Fits kv.0 × Fits kv.1

-- The rounds of the loop bound what the map can grow to.
entries_loop-Gives :
    (fuel : ℕ) (m : Extensions)
    → length m + fuel ≤ suc u32_max
    → All IsPair m
    → IsSorted m
    → Gives IsAccess IsExtensions (entries_loop fuel m)
unfolding entries_loop
entries_loop-Gives zero m small fit sorted s a s' i e = cc e
entries_loop-Gives (suc fuel) m small fit sorted s a s' i e =
    Gives-bind (next_entry decode_bytes decode_bytes) _
      (next_entry-Gives decode_bytes decode_bytes decode_bytes-Gives decode_bytes-Gives)
      (goes_on (entries_loop-Gives fuel)) s a s' i e
  where
    goes_on :
        ((n : Extensions)
          → length n + fuel ≤ suc u32_max
          → All IsPair n
          → IsSorted n
          → Gives IsAccess IsExtensions (entries_loop fuel n))
        → (o : Option (Bytes × Bytes)) → IfFound (λ (e : Bytes × Bytes). Fits e.0 × Fits e.1) o
        → Gives IsAccess IsExtensions
            (elim o [ none ↦ pure m | some (k, v) ↦ entries_loop fuel (insert k v m) ])
    goes_on ih none p s a s' i e =
        Gives-pure IsAccess IsExtensions m (omega (arith, small), fit, sorted) s a s' i e
    goes_on ih (some (k, v)) p s a s' i e =
        ih (insert k v m) (omega (arith, small, length-insert k v m))
          (insert-All IsPair k v m (λ j w q. (q.0, p.1)) p fit) (insert-IsSorted k v m sorted) s a
          s' i e

pub extensions-Gives : Gives IsBuf IsExtensions extensions
unfolding extensions
extensions-Gives = deserialize_map-Gives _ (λ s a s' i e.
    entries_loop-Gives (suc (length s.decoder.buf)) [] (omega (arith, i.1)) tt tt s a s' i e)

name_entry-Gives : Gives IsBuf IsEntry name_entry
unfolding name_entry
name_entry-Gives =
    deserialize_struct-Gives "NameEntry" ("filename" ∷ "long_name" ∷ "attrs" ∷ []) _ (
      then_field path _ path-Gives λ a p. then_field decode_bytes _ decode_bytes-Gives λ b q.
        then_field attrs _ attrs-Gives λ c r.
          ends_with IsEntry (record { filename = a; long_name = b; attrs = c })
            (record { filename = p; long_name = q; attrs = r }))

-- A list that is shorter than the rounds of the loop.
abbrev IsListed : {A : Type 0} → (A → Type 0) → ℕ → List A → Type 0
IsListed P fuel l = (length l < fuel) × All P l

elements_loop-Gives :
    {A : Type 0} {P : A → Type 0} (seed : De A)
    → Gives IsBuf P seed
    → (fuel : ℕ) → Gives IsAccess (IsListed P fuel) (elements_loop seed fuel)
unfolding elements_loop
elements_loop-Gives {A} {P} seed g zero s a s' i e = cc e
elements_loop-Gives {A} {P} seed g (suc fuel) s a s' i e =
    Gives-bind (next_element seed) _ (next_element-Gives seed g)
      (goes_on (elements_loop-Gives seed g fuel)) s a s' i e
  where
    goes_on :
        Gives IsAccess (IsListed P fuel) (elements_loop seed fuel)
        → (o : Option A) → IfFound P o
        → Gives IsAccess
            (IsListed P (suc fuel))
            (elim o [ none ↦ pure [] | some a ↦ elements_loop seed fuel >>= λ l. pure (a ∷ l) ])
    goes_on ih none p s a s' i e =
        Gives-pure IsAccess (IsListed P (suc fuel)) [] (omega arith, tt) s a s' i e
    goes_on ih (some b) p s a s' i e =
        Gives-bind (elements_loop seed fuel) _ ih
          (λ l q.
            Gives-pure IsAccess (IsListed P (suc fuel)) (b ∷ l) (omega (arith, q.0), (p, q.1)))
          s a s' i e

abbrev IsName : Name → Type 0
IsName n = (length n.entries ≤ u32_max) × All IsEntry n.entries

pub name-Gives : Gives IsBuf IsName name
unfolding name
name-Gives = newtype-Gives "Name" _ (
    Gives-bind _ _
      (deserialize_seq-Gives _ (λ s a s' i e.
        let q =
          elements_loop-Gives name_entry name_entry-Gives (suc (length s.decoder.buf)) s a s' i e in
        (q.0, (bounded (length s.decoder.buf) (length a) i.1 q.1.0, q.1.1))))
      (λ l p. Gives-pure IsBuf IsName (record { entries = l }) p))
  where
    bounded : (n k : ℕ) → n ≤ u32_max → k < suc n → k ≤ u32_max
    bounded n k h l = omega (arith, h, l)
