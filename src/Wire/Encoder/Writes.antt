-- ===== src/Wire/Encoder/Writes.antt =====
-- What a serializer appends to the buffer, with a rule for each method of the encoder.
use rusftp.Prelude.{
  ℕ, ◌+◌, ◌≤◌, ◌≡◌, String, List, [], ◌∷◌, ◌++◌, append-nil, append_assoc, length, length-append,
  concat, arith, pure, ◌>>=◌, ◌>>◌, ok, le→leb,
}
use rusftp.Wire.Bytes.{put_be, length-put_be}
use rusftp.Wire.Encoder.{
  Encoder, Ser, isize_max, remaining_mut, set_field, serialize_uint, serialize_u8, serialize_u32,
  serialize_u64, serialize_none, serialize_some, serialize_unit_variant, serialize_newtype_struct,
  serialize_tuple, serialize_struct, serialize_element, serialize_field, serialize_fields,
  derived_struct, serialize_elements,
}

-- `s` appends exactly `bs`, in whatever state of the encoder, if the vector has the room. The four
-- bytes more are what `serialize_bytes` asks for a length that it then leaves out.
pub record Writes (s : Ser) (bs : List ℕ) : Type 0 where
  pub at :
      (e : Encoder)
      → length e.buf + length bs + 4 ≤ isize_max
      → (field : String) × (s e ≡ ok (tt, record { buf = e.buf ++ bs; current_field = field }))

pub Writes-pure : Writes (pure tt) []
unfolding pure
Writes-pure = record { at = λ e room. (e.current_field, rw append-nil) }

pub Writes-bind :
    {s t : Ser} {bs cs : List ℕ} → Writes s bs → Writes t cs → Writes (s >> t) (bs ++ cs)
unfolding ◌>>=◌
Writes-bind {s} {t} {bs} {cs} ws wt = record {
  at = λ e room.
      let a = ws.at e (omega (arith, length-append bs cs)) in
      let b =
        wt.at (record { buf = e.buf ++ bs; current_field = a.0 })
          (omega (arith, length-append bs cs, length-append e.buf bs)) in
      (b.0, rw (a.1, ◌>>=◌) (rw b.1 (rw append_assoc)));
}

-- A serializer that does not look at the field's name may have it set before.
Writes-set_field :
    {s : Ser} {bs : List ℕ} (name : String) → Writes s bs → Writes (set_field name >> s) bs
unfolding set_field ◌>>=◌
Writes-set_field name w = record { at = λ e room. w.at (record e { current_field = name }) room }

pub Writes-uint : (size v : ℕ) → Writes (serialize_uint size v) (put_be size v)
unfolding serialize_uint
Writes-uint size v = record {
  at = λ e room. (
    e.current_field,
    rw (
        le→leb size (remaining_mut e)
          (unfold remaining_mut in omega (arith, length-put_be size v))),
  );
}

pub Writes-u8 : (v : ℕ) → Writes (serialize_u8 v) (put_be 1 v)
unfolding serialize_u8
Writes-u8 = Writes-uint 1

pub Writes-u32 : (v : ℕ) → Writes (serialize_u32 v) (put_be 4 v)
unfolding serialize_u32
Writes-u32 = Writes-uint 4

pub Writes-u64 : (v : ℕ) → Writes (serialize_u64 v) (put_be 8 v)
unfolding serialize_u64
Writes-u64 = Writes-uint 8

pub Writes-unit_variant : (i : ℕ) → Writes (serialize_unit_variant i) (put_be 4 i)
unfolding serialize_unit_variant
Writes-unit_variant = Writes-u32

pub Writes-none : Writes serialize_none []
unfolding serialize_none
Writes-none = Writes-pure

pub Writes-some : {s : Ser} {bs : List ℕ} → Writes s bs → Writes (serialize_some s) bs
unfolding serialize_some
Writes-some w = w

pub Writes-newtype :
    {s : Ser} {bs : List ℕ} (name : String)
    → Writes s bs
    → Writes (serialize_newtype_struct name s) bs
unfolding serialize_newtype_struct
Writes-newtype name w = Writes-set_field name w

pub Writes-field :
    {s : Ser} {bs : List ℕ} (key : String) → Writes s bs → Writes (serialize_field key s) bs
unfolding serialize_field
Writes-field key w = Writes-set_field key w

pub Writes-fields_nil : Writes (serialize_fields []) (concat [])
unfolding serialize_fields concat
Writes-fields_nil = Writes-pure

pub Writes-fields_cons :
    (key : String) (s : Ser) (fields : List (String × Ser)) {bs : List ℕ} (pieces : List (List ℕ))
    → Writes (serialize_field key s) bs
    → Writes (serialize_fields fields) (concat pieces)
    → Writes (serialize_fields ((key, s) ∷ fields)) (concat (bs ∷ pieces))
unfolding serialize_fields concat
Writes-fields_cons key s fields pieces ws wt = Writes-bind ws wt

-- A field of a type whose serializer does not look at the field's name.
pub plain_field :
    (key : String) (s : Ser) (fields : List (String × Ser)) {bs : List ℕ} (pieces : List (List ℕ))
    → Writes s bs
    → Writes (serialize_fields fields) (concat pieces)
    → Writes (serialize_fields ((key, s) ∷ fields)) (concat (bs ∷ pieces))
plain_field key s fields pieces ws wt =
    Writes-fields_cons key s fields pieces (Writes-field key ws) wt

pub Writes-struct :
    (name : String) (fields : List (String × Ser)) {bs : List ℕ}
    → Writes (serialize_fields fields) bs
    → Writes (derived_struct name fields) bs
unfolding derived_struct serialize_struct
Writes-struct name fields w = Writes-set_field name w

pub Writes-elements_nil : Writes (serialize_elements []) (concat [])
unfolding serialize_elements concat
Writes-elements_nil = Writes-pure

pub Writes-elements_cons :
    {s : Ser} (values : List Ser) {bs : List ℕ} (pieces : List (List ℕ))
    → Writes s bs
    → Writes (serialize_elements values) (concat pieces)
    → Writes (serialize_elements (s ∷ values)) (concat (bs ∷ pieces))
unfolding serialize_elements serialize_element concat
Writes-elements_cons values pieces ws wt = Writes-bind ws wt

pub Writes-tuple :
    (values : List Ser) {bs : List ℕ}
    → Writes (serialize_elements values) bs
    → Writes (serialize_tuple >> serialize_elements values) bs
unfolding serialize_tuple
Writes-tuple values w = Writes-set_field "" w
