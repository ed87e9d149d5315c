-- ===== src/Message/Deserialize/Layout.antt =====
-- Every deserializer reads the layout of Message/Format back.
use rusftp.Prelude.{
  ℕ, suc, ◌+◌, ◌^◌, ◌<◌, ◌≡◌, refl, true, false, Bool, String, List, [], ◌∷◌, ◌++◌, Option, none,
  some, ok, concat, arith, pure, ◌>>=◌,
}
use rusftp.Wire.Error.{missing_field}
use rusftp.Wire.Field.{has_length}
use rusftp.Wire.Decoder.{De, SeqM, deserialize_unit, Decoder}
use rusftp.Wire.Decoder.Reads.{
  ReadsAt, Reads, Reads-u32, Reads-u64, ReadsAt-bytes, ReadsAt-str, Reads-newtype, ReadsAt-map,
}
use rusftp.Wire.Decoder.Sequences.{
  SeqReads, SeqReads-pure, SeqReads-field, SeqReads-element, Reads-struct, Reads-tuple,
  concat-cons-append, required-element,
}
use rusftp.Wire.Decoder.Loops.{Reads-unit_enum}
use rusftp.Message.Types.{
  Bytes, Handle, Data, FilePath, Owner, Time, Permissions, PFlags, Attrs, StatusCode, NameEntry,
}
use rusftp.Message.Format
use rusftp.Message.Valid.{Fits, IsPath, IsOwner, IsTime, IsU32, IsU64, IfSome, IsAttrs, IsEntry}
use rusftp.Message.Deserialize.{
  path, handle, content, owner, time, permissions, pflags, known_flags, has_flag, optional,
  attrs_fields, attrs_visitor, attrs, name_entry, variant_of, status_code,
}

module _ (rest : Bytes) where
  pub path-Reads : (p : FilePath) → IsPath p → Reads rest path (Format.path p) p
  unfolding path has_length
  path-Reads p h =
      Reads-newtype "Path" (ReadsAt-map _ (ReadsAt-str "Path" rest p.text refl (omega arith) h.1))

  pub handle-Reads : (h : Handle) → Fits h.bytes → Reads rest handle (Format.string h.bytes) h
  unfolding handle has_length
  handle-Reads h fits =
      Reads-newtype "Handle"
        (ReadsAt-map _ (ReadsAt-bytes "Handle" rest h.bytes refl (omega arith)))

  pub content-Reads : (d : Data) → Fits d.bytes → Reads rest content (Format.string d.bytes) d
  unfolding content has_length
  content-Reads d fits =
      Reads-newtype "Data" (ReadsAt-map _ (ReadsAt-bytes "Data" rest d.bytes refl (omega arith)))

  pub owner-Reads : (o : Owner) → IsOwner o → Reads rest owner (Format.owner o) o
  unfolding owner
  owner-Reads o h = Reads-struct "Owner" _ (
      SeqReads-field _ rest _ _ _ _ _ o.uid o "uid" _ (Reads-u32 _ o.uid h.0 "uid") (
        SeqReads-field _ rest _ _ _ _ _ o.gid o "gid" _ (Reads-u32 _ o.gid h.1 "gid")
          (SeqReads-pure _ _ rest o)))

  pub time-Reads : (t : Time) → IsTime t → Reads rest time (Format.time t) t
  unfolding time
  time-Reads t h = Reads-struct "Time" _ (
      SeqReads-field _ rest _ _ _ _ _ t.atime t "atime" _ (Reads-u32 _ t.atime h.0 "atime") (
        SeqReads-field _ rest _ _ _ _ _ t.mtime t "mtime" _ (Reads-u32 _ t.mtime h.1 "mtime")
          (SeqReads-pure _ _ rest t)))

  pub permissions-Reads :
      (p : Permissions) → IsU32 p.bits → Reads rest permissions (Format.permissions p) p
  unfolding permissions
  permissions-Reads p h =
      Reads-newtype "Permisions" (ReadsAt-map _ (Reads-u32 rest p.bits h "Permisions"))

  pub pflags-Reads : (p : PFlags) → IsU32 p.bits → Reads rest pflags (Format.u32 p.bits) p
  unfolding pflags
  pflags-Reads p h = Reads-newtype "PFlags" (ReadsAt-map _ (Reads-u32 rest p.bits h "PFlags"))

abbrev is_some : {A : Type 0} → Option A → Bool
is_some none = false
is_some (some a) = true

-- The flags of a value say which of its parts are there, and no flag is unknown.
flags_lem :
    (size : Option ℕ) (owns : Option Owner) (perms : Option Permissions) (times : Option Time)
    → let flags =
        Format.flag 1 size + Format.flag 2 owns + Format.flag 4 perms + Format.flag 8 times in
      (known_flags flags ≡ true)
      × (has_flag flags 1 ≡ is_some size)
      × (has_flag flags 2 ≡ is_some owns)
      × (has_flag flags 4 ≡ is_some perms)
      × (has_flag flags 8 ≡ is_some times)
      × (flags < 16)
unfolding known_flags has_flag
flags_lem size owns perms times = ground arith

module _ {A : Type 0} (n : ℕ) (buf : Bytes) (field : String) (here : Bool) (name : String)
    (seed : De A) where
  optional-some :
      {a : A} {d : Decoder}
      → here ≡ true
      → seed (record { buf = buf; current_field = "" }) ≡ ok (a, d)
      → optional here name seed (record {
        decoder = record { buf = buf; current_field = field };
        fields = [];
        nel = some (suc n);
      })
        ≡ ok (some a, record { decoder = d; fields = []; nel = some n })
  unfolding optional ◌>>=◌ pure
  optional-some e r = rw e (rw (◌>>=◌, required-element (missing_field name) seed n buf field r))

  optional-none :
      here ≡ false
      → optional here name seed (record {
        decoder = record { buf = buf; current_field = field };
        fields = [];
        nel = some (suc n);
      })
        ≡ ok (
          none,
          record { decoder = record { buf = buf; current_field = "" }; fields = []; nel = some n },
        )
  unfolding optional ◌>>=◌ pure deserialize_unit
  optional-none e =
      rw e (rw (◌>>=◌, required-element (missing_field name) deserialize_unit n buf field refl))

-- A part that is there, or the unit that stands for one that is not.
SeqReads-optional :
    {A B : Type 0} (n : ℕ) (rest : Bytes) (here : Bool) (name : String) (seed : De A)
    (k : Option A → SeqM B) (layout : A → Bytes) (P : A → Type 0) (o : Option A)
    (pieces : List Bytes) (b : B)
    → here ≡ is_some o
    → IfSome P o
    → ((a : A) → P a → ReadsAt "" (concat pieces ++ rest) seed (layout a) a)
    → SeqReads [] (some n) rest (k o) (concat pieces) b
    → SeqReads []
        (some (suc n))
        rest
        (optional here name seed >>= k)
        (concat (Format.optional layout o ∷ pieces))
        b
unfolding ◌>>=◌
SeqReads-optional n rest here name seed k layout P none pieces b e h r s = record {
  at = λ field.
      let t = s.at "" in
      (
        t.0,
        t.1,
        t.2,
        rw (concat-cons-append [] pieces rest)
            (rw (◌>>=◌, optional-none n (concat pieces ++ rest) field here name seed e) t.3),
      );
}
SeqReads-optional n rest here name seed k layout P (some a) pieces b e h r s = record {
  at = λ field.
      let p = r a h in
      let t = s.at p.after in
      (
        t.0,
        t.1,
        t.2,
        rw (concat-cons-append (layout a) pieces rest) (
            rw
              (
                ◌>>=◌,
                optional-some n (layout a ++ (concat pieces ++ rest)) field here name seed e
                    p.reads,
              )
              t.3),
      );
}

module _ (rest : Bytes) where
  attrs_fields-Reads :
      (a : Attrs)
      → IsAttrs a
      → SeqReads []
          (some 4)
          rest
          (attrs_fields (Format.attr_flags a))
          (concat (
            Format.optional Format.u64 a.size
            ∷ Format.optional Format.owner a.owner
            ∷ Format.optional Format.permissions a.perms
            ∷ Format.optional Format.time a.time
            ∷ []))
          a
  unfolding attrs_fields Format.attributes
  attrs_fields-Reads a h =
      let f = flags_lem a.size a.owner a.perms a.time in
      SeqReads-optional 3 rest _ _ _ _ Format.u64 IsU64 a.size _ a f.1 h.size
        (λ n v. Reads-u64 _ n v "")
        (SeqReads-optional 2 rest _ _ _ _ Format.owner IsOwner a.owner _ a f.2 h.owner
          (λ o v. owner-Reads _ o v "")
          (SeqReads-optional 1 rest _ _ _ _ Format.permissions (λ p. IsU32 p.bits) a.perms _ a f.3
            h.perms (λ p v. permissions-Reads _ p v "")
            (SeqReads-optional 0 rest _ _ _ _ Format.time IsTime a.time _ a f.4 h.time
              (λ t v. time-Reads _ t v "") (SeqReads-pure [] _ rest a))))

  known : (a : Attrs) → known_flags (Format.attr_flags a) ≡ true
  unfolding Format.attributes
  known a = (flags_lem a.size a.owner a.perms a.time).0

  pub attrs-Reads : (a : Attrs) → IsAttrs a → Reads rest attrs (Format.attributes a) a
  unfolding attrs attrs_visitor Format.attributes
  attrs-Reads a h = Reads-tuple 5 (
      SeqReads-element 4 rest _ _ _ _ _ (Format.attr_flags a) a
        (Reads-u32 _ (Format.attr_flags a)
          (omega (arith, (flags_lem a.size a.owner a.perms a.time).5)) "")
        (rw (known a) (attrs_fields-Reads a h)))

module _ (rest : Bytes) where
  pub name_entry-Reads : (e : NameEntry) → IsEntry e → Reads rest name_entry (Format.entry e) e
  unfolding name_entry has_length
  name_entry-Reads e h = Reads-struct "NameEntry" _ (
      SeqReads-field _ rest _ _ _ _ _ e.filename e "filename" _
        (path-Reads _ e.filename h.filename "filename")
        (SeqReads-field _ rest _ _ _ _ _ e.long_name e "long_name" _
          (ReadsAt-bytes "long_name" _ e.long_name refl (omega (arith, h.long_name)))
          (SeqReads-field _ rest _ _ _ _ _ e.attrs e "attrs" _
            (attrs-Reads _ e.attrs h.attrs "attrs") (SeqReads-pure _ _ rest e))))

  pub status_code-Reads :
      (c : StatusCode) → Reads rest status_code (Format.u32 (Format.status_number c)) c
  unfolding status_code
  status_code-Reads c =
      Reads-unit_enum rest "StatusCode" _ variant_of (Format.status_number c) (number_fits c)
        (variant c)
    where
      number_fits : (c : StatusCode) → Format.status_number c < 2 ^ 32
      number_fits c = unfold Format.status_number in ground arith

      variant : (c : StatusCode) → variant_of (Format.status_number c) ≡ some c
      variant c = unfold Format.status_number variant_of in ground arith
