-- ===== src/Message/Deserialize/Consumes.antt =====
-- The bytes that the `Deserialize` implementations of src/message/*.rs take are the layout of what they give.
pub mod Lists
pub mod Value
use rusftp.Prelude.{
  ℕ, zero, suc, ◌+◌, ◌<◌, ◌≡◌, refl, sym, ap, ◌∙◌, true, false, Bool, Bool-cases, inl, inr, String,
  List, [], ◌∷◌, ◌++◌, append-nil, append_assoc, Option, none, some, length, concat, map, err, ok,
  ◌==◌, if◌then◌else◌, arith, pure, ◌>>=◌,
}
use rusftp.Wire.Error.{missing_field, invalid_length, invalid_attr, custom}
use rusftp.Wire.Bytes.{put_be}
use rusftp.Wire.Field.{has_length}
use rusftp.Wire.Decoder.{
  Decoder, De, SeqM, SeqAccess, decode_u32, decode_u64, decode_bytes, decode_str, deserialize_unit,
  required, next_element,
}
use rusftp.Wire.Decoder.Growth.{Every, IsCounted}
use rusftp.Wire.Decoder.Growth.Sequences.{IsAt, next_name, names_left}
use rusftp.Wire.Decoder.Consumes.{
  Consumes, Consumes-pure, Consumes-bind, Consumes-map, Takes, bind-ok, IsPut, IsString,
  decode_u32-Takes, decode_u64-Takes, decode_bytes-Takes, decode_str-Takes, deserialize_unit-Takes,
  newtype-Takes,
}
use rusftp.Wire.Decoder.Consumes.Sequences.{
  Visits, IsFound, next_element-Visits, required-Visits, next_element-ends, deserialize_tuple-Takes,
  deserialize_struct-Takes, deserialize_seq-Takes, unit_enum-Takes,
}
use rusftp.Message.Types.{
  Bytes, FilePath, Handle, Data, Owner, Time, Permissions, PFlags, Attrs, NameEntry, Name,
  StatusCode, Message,
}
use rusftp.Message.Format
use rusftp.Message.Deserialize.{
  field, path, handle, content, owner, time, permissions, pflags, has_flag, known_flags, optional,
  attrs_fields, attrs_visitor, attrs, name_entry, elements_loop, name, status_code, variant_of,
}
use rusftp.Message.Deserialize.Flags.{flag_of, flags_sum}

-- The bytes are the layout of the value.
abbrev pub Is : {A : Type 0} → (A → Bytes) → A → Bytes → Type 0
Is layout a bs = bs ≡ layout a

counts :
    (name : String) → has_length name ≡ true → (d : Decoder) → d.current_field ≡ name → IsCounted d
counts name counted d e = rw (e) counted

abbrev buf_of : SeqAccess → Bytes
buf_of s = s.decoder.buf

-- One field after another of a struct, …
pub then_field :
    {A B : Type 0} {Q : SeqAccess → Type 0} {fs : List String} {n : ℕ} (L : A → Bytes)
    (R : B → Bytes → Type 0) (seed : De A) (f : A → SeqM B)
    → Takes Every (Is L) seed
    → ((a : A) → Visits (IsAt (names_left fs) (some n)) Q (λ b cs. R b (L a ++ cs)) (f a))
    → Visits (IsAt fs (some (suc n))) Q R (field seed >>= f)
then_field {fs = fs} {n} L R seed f h g =
    Consumes-bind R _ f (required-Visits seed fs n (λ d e. tt) h invalid_length)
      (λ a bs is s b t at bytes e.
        let (cs, r, took, q) = g a s b t at bytes e in (cs, rw (is) r, took, q))

-- … or one whose length is written under its name, …
pub then_counted :
    {A B : Type 0} {Q : SeqAccess → Type 0} {fs : List String} {n : ℕ} (L : A → Bytes)
    (R : B → Bytes → Type 0) (seed : De A) (f : A → SeqM B)
    → has_length (next_name fs) ≡ true
    → Takes IsCounted (Is L) seed
    → ((a : A) → Visits (IsAt (names_left fs) (some n)) Q (λ b cs. R b (L a ++ cs)) (f a))
    → Visits (IsAt fs (some (suc n))) Q R (field seed >>= f)
then_counted {fs = fs} {n} L R seed f counted h g =
    Consumes-bind R _ f (required-Visits seed fs n (counts (next_name fs) counted) h invalid_length)
      (λ a bs is s b t at bytes e.
        let (cs, r, took, q) = g a s b t at bytes e in (cs, rw (is) r, took, q))

-- … and the end.
pub ends_with :
    {A : Type 0} (P : SeqAccess → Type 0) (R : A → Bytes → Type 0) (a : A)
    → R a []
    → Visits P P R (pure a)
ends_with P R a r = Consumes-pure buf_of P R a r

pub path-Takes : Takes Every (Is Format.path) path
unfolding path has_length
path-Takes =
    newtype-Takes "Path" _ refl
      (Consumes-map (Is Format.path) decode_str _ decode_str-Takes (λ a bs r. r))

pub handle-Takes : Takes Every (Is (λ (h : Handle). Format.string h.bytes)) handle
unfolding handle has_length
handle-Takes =
    newtype-Takes "Handle" _ refl (Consumes-map _ decode_bytes _ decode_bytes-Takes (λ a bs r. r))

pub content-Takes : Takes Every (Is (λ (h : Data). Format.string h.bytes)) content
unfolding content has_length
content-Takes =
    newtype-Takes "Data" _ refl (Consumes-map _ decode_bytes _ decode_bytes-Takes (λ a bs r. r))

permissions-Takes : Takes Every (Is Format.permissions) permissions
unfolding permissions has_length
permissions-Takes =
    newtype-Takes "Permisions" _ refl
      (Consumes-map _ decode_u32 _ (λ d a d' c. decode_u32-Takes d a d' tt) (λ a bs r. r))

pub pflags-Takes : Takes Every (Is (λ (p : PFlags). Format.u32 p.bits)) pflags
unfolding pflags has_length
pflags-Takes =
    newtype-Takes "PFlags" _ refl
      (Consumes-map _ decode_u32 _ (λ d a d' c. decode_u32-Takes d a d' tt) (λ a bs r. r))

owner-Takes : Takes Every (Is Format.owner) owner
unfolding owner concat
owner-Takes = deserialize_struct-Takes _ "Owner" ("uid" ∷ "gid" ∷ []) (
    then_field Format.u32 _ decode_u32 _ decode_u32-Takes λ a.
      then_field Format.u32 _ decode_u32 _ decode_u32-Takes
        λ b. ends_with _ _ (record { uid = a; gid = b }) refl)

time-Takes : Takes Every (Is Format.time) time
unfolding time concat
time-Takes = deserialize_struct-Takes _ "Time" ("atime" ∷ "mtime" ∷ []) (
    then_field Format.u32 _ decode_u32 _ decode_u32-Takes λ a.
      then_field Format.u32 _ decode_u32 _ decode_u32-Takes
        λ b. ends_with _ _ (record { atime = a; mtime = b }) refl)

-- A value of the attributes, if its flag is set.
abbrev IsOptional : {A : Type 0} → (A → Bytes) → ℕ → Bool → Option A → Bytes → Type 0
IsOptional L bit here o bs =
    (bs ≡ Format.optional L o) × (Format.flag bit o ≡ (if here then bit else 0))

optional-Visits :
    {A : Type 0} (L : A → Bytes) (n bit : ℕ) (here : Bool) (text : String) (seed : De A)
    → Takes Every (Is L) seed
    → Visits
        (IsAt [] (some (suc n)))
        (IsAt [] (some n))
        (IsOptional L bit here)
        (optional here text seed)
unfolding optional
optional-Visits L n bit true text seed h =
    Consumes-map (IsOptional L bit true) (required (missing_field text) seed) _
      (required-Visits seed [] n (λ d e. tt) h (missing_field text)) (λ a bs is. (is, refl))
optional-Visits L n bit false text seed h =
    Consumes-map (IsOptional L bit false) (required (missing_field text) deserialize_unit) _
      (required-Visits deserialize_unit [] n (λ d e. tt) deserialize_unit-Takes
        (missing_field text))
      (λ u bs is. (is, refl))

-- The attributes behind their flags.
abbrev IsRest : ℕ → Attrs → Bytes → Type 0
IsRest flags a bs =
    (bs
      ≡ concat (
          Format.optional Format.u64 a.size
          ∷ Format.optional Format.owner a.owner
          ∷ Format.optional Format.permissions a.perms
          ∷ Format.optional Format.time a.time
          ∷ []))
    × (Format.attr_flags a ≡ flag_of flags 1 + flag_of flags 2 + flag_of flags 4 + flag_of flags 8)

attrs_fields-Visits :
    (flags : ℕ) → Visits (IsAt [] (some 4)) (IsAt [] (some 0)) (IsRest flags) (attrs_fields flags)
unfolding attrs_fields concat Format.attributes
attrs_fields-Visits flags =
    Consumes-bind _ _ _
      (optional-Visits Format.u64 3 1 (has_flag flags 1) "attr_size" decode_u64 decode_u64-Takes)
      λ a bs p.
        Consumes-bind _ _ _
          (optional-Visits Format.owner 2 2 (has_flag flags 2) "attr_owner" owner owner-Takes)
          λ b cs q.
            Consumes-bind _ _ _
              (optional-Visits Format.permissions 1 4 (has_flag flags 4) "attr_perms" permissions
                permissions-Takes)
              λ c ds r.
                Consumes-bind _ _ _
                  (optional-Visits Format.time 0 8 (has_flag flags 8) "attr_time" time time-Takes)
                  λ d es t.
                    ends_with _ _ (record { size = a; owner = b; perms = c; time = d })
                      (rw (p.0, q.0, r.0, t.0) refl, omega (arith, p.1, q.1, r.1, t.1))

pub attrs-Takes : Takes Every (Is Format.attributes) attrs
unfolding attrs attrs_visitor Format.attributes concat
attrs-Takes = deserialize_tuple-Takes _ 5 (
    Consumes-bind (Is Format.attributes) _ _
      (required-Visits decode_u32 [] 4 (λ d e. tt) decode_u32-Takes (missing_field "attr_flags"))
      (λ flags bs put. chosen flags bs put (known_flags flags) refl))
  where
    chosen :
        (flags : ℕ) (bs : Bytes)
        → IsPut 4 flags bs
        → (known : Bool) → known_flags flags ≡ known
        → Visits
            (IsAt [] (some 4))
            (IsAt [] (some 0))
            (λ a cs. Is Format.attributes a (bs ++ cs))
            (if known then attrs_fields flags else λ s. err (custom invalid_attr))
    chosen flags bs put true known s a t at bytes e =
        let (cs, (is, sum), took, q) = attrs_fields-Visits flags s a t at bytes e in
        (cs, rw (put, is, sum ∙ flags_sum flags known) refl, took, q)
    chosen flags bs put false known s a t at bytes e = cc e

pub name_entry-Takes : Takes Every (Is Format.entry) name_entry
unfolding name_entry has_length concat
name_entry-Takes =
    deserialize_struct-Takes _ "NameEntry" ("filename" ∷ "long_name" ∷ "attrs" ∷ []) (
      then_field Format.path _ path _ path-Takes λ a.
        then_counted Format.string _ decode_bytes _ refl decode_bytes-Takes λ b.
          then_field Format.attributes _ attrs _ attrs-Takes
            λ c. ends_with _ _ (record { filename = a; long_name = b; attrs = c }) refl)
