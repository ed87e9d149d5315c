-- ===== src/Message/Serialize/Layout.antt =====
-- Every serializer writes the layout of Message/Format.
use rusftp.Prelude.{
  ℕ, ◌≡◌, refl, true, String, List, [], ◌∷◌, map, Option, none, some, length, concat, All,
  append_assoc, ◌+◌, arith,
}
use rusftp.Wire.Field.{has_length}
use rusftp.Wire.Encoder.{
  Ser, serialize_bytes, serialize_str, serialize_field, serialize_newtype_struct,
  serialize_elements, serialize_entry,
}
use rusftp.Wire.Encoder.Writes.{
  Writes, Writes-u32, Writes-u64, Writes-unit_variant, Writes-none, Writes-some, Writes-newtype,
  Writes-field, Writes-fields_nil, Writes-fields_cons, Writes-struct, plain_field,
  Writes-elements_nil, Writes-elements_cons, Writes-tuple,
}
use rusftp.Wire.Encoder.Lengths.{
  WritesCounted, WritesCounted-bytes, WritesCounted-bind, WritesCounted-pure, Writes-counted_field,
  Writes-counted_newtype, Writes-implicit_map, Writes-newtype_seq,
}
use rusftp.Message.Types.{
  Bytes, Handle, Data, FilePath, Owner, Time, Permissions, PFlags, Attrs, Extensions, StatusCode,
  status_ok, NameEntry, Name, Message,
}
use rusftp.Message.Format
use rusftp.Message.Valid.{Fits, IsEntry, IsExtensions, IsValid}
use rusftp.Message.Serialize.{
  path, handle, content, owner, time, permissions, pflags, optional, add_flag, attr_flags, attrs,
  entries, extensions, name_entry, name, variant_index, status_code,
}

module _ (bs : Bytes) (fits : Fits bs) where
  pub bytes_field :
      (key : String)
      → has_length key ≡ true
      → Writes (serialize_field key (serialize_bytes bs)) (Format.string bs)
  bytes_field key named = Writes-counted_field (WritesCounted-bytes bs fits) key named

  bytes_newtype :
      (key : String)
      → has_length key ≡ true
      → Writes (serialize_newtype_struct key (serialize_bytes bs)) (Format.string bs)
  bytes_newtype key named = Writes-counted_newtype (WritesCounted-bytes bs fits) key named

pub path-Writes : (p : FilePath) → Fits p.text → Writes (path p) (Format.path p)
unfolding path serialize_str has_length
path-Writes p fits = bytes_newtype p.text fits "Path" refl

pub handle-Writes : (h : Handle) → Fits h.bytes → Writes (handle h) (Format.string h.bytes)
unfolding handle has_length
handle-Writes h fits = bytes_newtype h.bytes fits "Handle" refl

pub content-Writes : (d : Data) → Fits d.bytes → Writes (content d) (Format.string d.bytes)
unfolding content has_length
content-Writes d fits = bytes_newtype d.bytes fits "Data" refl

pub ruleset plain = (
  Writes-u32, Writes-u64, Writes-none, Writes-some, Writes-newtype, Writes-field, Writes-fields_nil,
  Writes-fields_cons, Writes-struct, plain_field, Writes-elements_nil, Writes-elements_cons,
  Writes-tuple,
)

owner-Writes : (o : Owner) → Writes (owner o) (Format.owner o)
unfolding owner
owner-Writes o = search plain depth 12

time-Writes : (t : Time) → Writes (time t) (Format.time t)
unfolding time
time-Writes t = search plain depth 12

permissions-Writes : (p : Permissions) → Writes (permissions p) (Format.permissions p)
unfolding permissions
permissions-Writes p = search plain

pub pflags-Writes : (p : PFlags) → Writes (pflags p) (Format.u32 p.bits)
unfolding pflags
pflags-Writes p = search plain

optional-Writes :
    {A : Type 0} (s : A → Ser) (layout : A → Bytes) (o : Option A)
    → ((a : A) → Writes (s a) (layout a))
    → Writes (optional s o) (Format.optional layout o)
unfolding optional
optional-Writes s layout none w = Writes-none
optional-Writes s layout (some a) w = Writes-some (w a)

-- The bits that `|=` collects are the sum of the flags.
add_flag-sum :
    (size : Option ℕ) (owns : Option Owner) (perms : Option Permissions) (times : Option Time)
    → add_flag times 8 (add_flag perms 4 (add_flag owns 2 (add_flag size 1 0)))
      ≡ Format.flag 1 size + Format.flag 2 owns + Format.flag 4 perms + Format.flag 8 times
unfolding add_flag
add_flag-sum size owns perms times = ground arith

pub attr_flags-eq : (a : Attrs) → attr_flags a ≡ Format.attr_flags a
unfolding attr_flags Format.attributes
attr_flags-eq a = add_flag-sum a.size a.owner a.perms a.time

pub attrs-Writes : (a : Attrs) → Writes (attrs a) (Format.attributes a)
unfolding attrs Format.attributes
attrs-Writes a = rw (← attr_flags-eq a) (
    Writes-tuple _ (
      Writes-elements_cons _ _ (Writes-newtype "AttrFlags" (Writes-u32 _)) (
        Writes-elements_cons _ _ (optional-Writes _ Format.u64 a.size Writes-u64) (
          Writes-elements_cons _ _ (optional-Writes _ Format.owner a.owner owner-Writes) (
            Writes-elements_cons _ _
              (optional-Writes _ Format.permissions a.perms permissions-Writes)
              (Writes-elements_cons _ _ (optional-Writes _ Format.time a.time time-Writes)
                Writes-elements_nil))))))

entries-WritesCounted :
    (m : Extensions)
    → All (λ (kv : Bytes × Bytes). Fits kv.0 × Fits kv.1) m
    → WritesCounted (entries m) (Format.extensions m)
unfolding entries serialize_entry Format.extensions
entries-WritesCounted [] h = WritesCounted-pure
entries-WritesCounted ((k, v) ∷ rest) h = rw (← append_assoc) (
    WritesCounted-bind
      (WritesCounted-bind (WritesCounted-bytes k h.0.0) (WritesCounted-bytes v h.0.1))
      (entries-WritesCounted rest h.1))

pub extensions-Writes :
    (m : Extensions)
    → IsExtensions m
    → Writes (serialize_field "extensions_implicit_length" (extensions m)) (Format.extensions m)
unfolding extensions has_length
extensions-Writes m h =
    Writes-implicit_map (entries-WritesCounted m h.1) "extensions_implicit_length" (length m) refl
      h.0

name_entry-Writes : (e : NameEntry) → IsEntry e → Writes (name_entry e) (Format.entry e)
unfolding name_entry has_length
name_entry-Writes e h = Writes-struct _ _ (
    plain_field _ _ _ _ (path-Writes e.filename h.filename.0) (
      Writes-fields_cons _ _ _ _ (bytes_field e.long_name h.long_name "long_name" refl)
        (plain_field _ _ _ _ (attrs-Writes e.attrs) Writes-fields_nil)))

elements-Writes :
    (l : List NameEntry)
    → All IsEntry l
    → Writes (serialize_elements (map name_entry l)) (concat (map Format.entry l))
elements-Writes [] h = Writes-elements_nil
elements-Writes (e ∷ l) h =
    Writes-elements_cons _ _ (name_entry-Writes e h.0) (elements-Writes l h.1)

pub name-Writes :
    (n : Name) → IsValid (Message.name n) → Writes (name n) (Format.body (Message.name n))
unfolding name has_length Format.body
name-Writes n h =
    Writes-newtype_seq "Name" (length n.entries) refl h.0 (elements-Writes n.entries h.1)

-- The discriminants are the protocol's numbers.
variant_index-eq : (c : StatusCode) → variant_index c ≡ Format.status_number c
unfolding variant_index Format.status_number
variant_index-eq status_ok = refl
variant_index-eq _ = refl

pub status_code-Writes :
    (c : StatusCode) → Writes (status_code c) (Format.u32 (Format.status_number c))
unfolding status_code
status_code-Writes c = rw (← variant_index-eq c) (Writes-unit_variant (variant_index c))
