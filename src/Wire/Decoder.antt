-- ===== src/Wire/Decoder.antt =====
-- src/wire/decoder.rs: the deserializer. A type's `deserialize` is a step `De A` of the decoder,
-- which gives the value; a visitor of a sequence is a step of the access, `SeqM A`.
-- What no message of the protocol needs stands in Scalars.
pub mod Reads
pub mod Sequences
pub mod Loops
pub mod Bounds
pub mod Scalars
pub mod Growth
pub mod Consumes
use rusftp.Prelude.{
  ℕ, zero, suc, Bool, String, List, [], ◌∷◌, Option, none, some, length, take, drop, ltb, ◌==◌, not,
  if◌then◌else◌, M, Result, ok, err, pure, ◌>>=◌, ◌>>◌,
}
use rusftp.Wire.Error.{Error, not_enough_data, invalid_char, custom, CustomText}
use rusftp.Wire.Bytes.{get_be}
use rusftp.Wire.Utf8.{is_utf8}
use rusftp.Wire.Field.{has_length}

pub record Decoder : Type 0 where
  pub buf : List ℕ
  pub current_field : String

abbrev pub De : Type 0 → Type 0
De A = M Error Decoder A

unfoldable pub new : List ℕ → Decoder
new buf = record { buf = buf; current_field = "" }

pub decode_length : Decoder → Bool
decode_length d = has_length d.current_field

-- `Buf::advance`
advance : ℕ → Decoder → Decoder
advance n d = record d { buf = drop n d.buf }

set_field : String → De (Unit {0})
set_field field d = ok (tt, record d { current_field = field })

-- The macro `decode!` at an unsigned type of `size` bytes.
pub decode_uint : ℕ → De ℕ
unfolding advance
decode_uint size d =
    if ltb (length d.buf) size
    then err not_enough_data
    else ok (get_be (take size d.buf), advance size d)

unfoldable pub decode_u8 : De ℕ
unfolding decode_uint
decode_u8 = decode_uint 1

unfoldable pub decode_u32 : De ℕ
unfolding decode_uint
decode_u32 = decode_uint 4

unfoldable pub decode_u64 : De ℕ
unfolding decode_uint
decode_u64 = decode_uint 8

-- `self.buf.get(0..len)`, and the advance past it
take_bytes : ℕ → De (List ℕ)
unfolding advance
take_bytes len d =
    if ltb (length d.buf) len then err not_enough_data else ok (take len d.buf, advance len d)

read_length : De ℕ
unfolding decode_length decode_u32
read_length d = if decode_length d then decode_u32 d else ok (length d.buf, d)

unfoldable pub decode_bytes : De (List ℕ)
unfolding read_length take_bytes
decode_bytes = do len ← read_length; take_bytes len

check_utf8 : List ℕ → De (List ℕ)
check_utf8 bs d = if is_utf8 bs then ok (bs, d) else err invalid_char

unfoldable pub decode_str : De (List ℕ)
unfolding decode_bytes check_utf8
decode_str = do bs ← decode_bytes; check_utf8 bs

unfoldable pub deserialize_bool : De Bool
unfolding decode_u8
deserialize_bool = do b ← decode_u8; pure (not (b == 0))

unfoldable pub deserialize_unit : De (Unit {0})
deserialize_unit = pure tt

unfoldable pub deserialize_newtype_struct : {A : Type 0} → String → De A → De A
unfolding set_field
deserialize_newtype_struct name value = do set_field name; value

-- `SftpDecoderSeq`, with the decoder that it borrows.
pub record SeqAccess : Type 0 where
  pub decoder : Decoder
  pub fields : List String
  pub nel : Option ℕ

abbrev pub SeqM : Type 0 → Type 0
SeqM A = M Error SeqAccess A

-- The end of the borrow: the decoder goes on from where the visitor left it.
unfoldable pub run_visitor : {A : Type 0} → SeqM A → SeqAccess → Result (A × Decoder) Error
run_visitor visitor s = elim (visitor s) [ ok (a, s') ↦ ok (a, s'.decoder) | err e ↦ err e ]

-- `SftpDecoderSeq::new`
pub new_nel : De (Option ℕ)
unfolding decode_length decode_u32
new_nel d = if decode_length d then (do n ← decode_u32; pure (some n)) d else ok (none, d)

-- The visitor of a sequence or of a map, whose access has no fields.
unfoldable pub deserialize_seq : {A : Type 0} → SeqM A → De A
unfolding new_nel set_field run_visitor
deserialize_seq visitor = do
  nel ← new_nel
  set_field ""
  λ d. run_visitor visitor (record { decoder = d; fields = []; nel = nel })

unfoldable pub deserialize_map : {A : Type 0} → SeqM A → De A
unfolding new_nel set_field run_visitor
deserialize_map visitor = do
  nel ← new_nel
  set_field ""
  λ d. run_visitor visitor (record { decoder = d; fields = []; nel = nel })

unfoldable pub deserialize_tuple : {A : Type 0} → ℕ → SeqM A → De A
unfolding run_visitor
deserialize_tuple len visitor d =
    run_visitor visitor
      (record { decoder = record d { current_field = "" }; fields = []; nel = some len })

unfoldable pub deserialize_struct : {A : Type 0} → String → List String → SeqM A → De A
unfolding run_visitor
deserialize_struct name fields visitor d = run_visitor visitor (record {
  decoder = record d { current_field = name };
  fields = fields;
  nel = some (length fields);
})

-- The first `match` of `next_element_seed`: the field's name goes to the decoder.
pub next_field : SeqAccess → SeqAccess
next_field s = elim s.fields [
  | [] ↦ record s { decoder = record s.decoder { current_field = "" } }
  | field ∷ rest ↦ record s { decoder = record s.decoder { current_field = field }; fields = rest }
]

-- `seed.deserialize(&mut *self.decoder)`, where `nel` elements are left after it.
pub element : {A : Type 0} → De A → Option ℕ → SeqM A
element seed nel s = elim (seed s.decoder) [
  | ok (a, d) ↦ ok (a, record s { decoder = d; nel = nel })
  | err e ↦ err e
]

unfoldable pub next_element : {A : Type 0} → De A → SeqM (Option A)
unfolding next_field element
next_element seed s =
    let s' = next_field s in
    elim s.nel [
      | some zero ↦ ok (none, s')
      | some (suc n) ↦ (do a ← element seed (some n); pure (some a)) s'
      | none ↦
          if length s.decoder.buf == 0
          then ok (none, s')
          else (do a ← element seed none; pure (some a)) s'
    ]

-- `MapAccess`: the key counts as the element, the value does not.
unfoldable pub next_entry : {A B : Type 0} → De A → De B → SeqM (Option (A × B))
unfolding next_element element
next_entry key value = do
  k ← next_element key
  λ s. elim k [ none ↦ ok (none, s) | some a ↦ (do b ← element value s.nel; pure (some (a, b))) s ]

-- `seq.next_element()?.ok_or(…)?`, as visitors of structs and tuples call it.
unfoldable pub required : {A : Type 0} → CustomText → De A → SeqM A
unfolding next_element
required missing seed = do
  o ← next_element seed
  λ s. elim o [ none ↦ err (custom missing) | some a ↦ ok (a, s) ]

-- `EnumAccess::variant_seed` with the unit variants of a derived enum: the index selects the
-- variant, and the derived visitor refuses an index that is out of range.
nth_field : List String → ℕ → String
nth_field [] n = ""
nth_field (x ∷ xs) zero = x
nth_field (x ∷ xs) (suc n) = nth_field xs n

unfoldable pub deserialize_unit_enum : {A : Type 0} → String → List String → (ℕ → Option A) → De A
unfolding decode_u32 set_field nth_field
deserialize_unit_enum name variants variant_of = do
  set_field name
  variant ← decode_u32
  set_field (nth_field variants variant)
  λ d. elim (variant_of variant) [
    | none ↦ err (custom (CustomText.invalid_variant variant))
    | some a ↦ ok (a, d)
  ]
