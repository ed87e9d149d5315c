-- ===== src/Wire/Encoder.antt =====
-- src/wire/encoder.rs: the serializer. Each method takes `&mut self`, so it is a step of `Ser`; a
-- value's own `serialize` is a `Ser` too, and is an argument of the methods that take a value.
-- What no message of the protocol needs stands in Scalars.
pub mod Writes
pub mod Lengths
pub mod Scalars
use rusftp.Prelude.{
  ℕ, ◌+◌, ◌-◌, ◌^◌, Bool, String, List, [], ◌∷◌, ◌++◌, Option, none, some, length, leb,
  if◌then◌else◌, M, pure, ◌>>=◌, ◌>>◌, ok, err,
}
use rusftp.Wire.Error.{Error, not_enough_data, unsupported}
use rusftp.Wire.Bytes.{put_be}
use rusftp.Wire.Field.{has_length}

pub record Encoder : Type 0 where
  pub buf : List ℕ
  pub current_field : String

abbrev pub Ser : Type 0
Ser = M Error Encoder (Unit {0})

-- `SftpEncoder::with_vec`; the capacity of the vector is not observable.
unfoldable pub with_vec : List ℕ → Encoder
with_vec buf = record { buf = buf; current_field = "" }

-- A `Vec<u8>` holds `isize::MAX` bytes at most, here on a 64-bit target.
abbrev pub isize_max : ℕ
isize_max = 2 ^ 63 - 1

abbrev pub u32_max : ℕ
u32_max = 2 ^ 32 - 1

-- `BufMut::remaining_mut` of a `Vec<u8>`
remaining_mut : Encoder → ℕ
remaining_mut e = isize_max - length e.buf

encode_length : Encoder → Bool
encode_length e = has_length e.current_field

put : List ℕ → Ser
put bs e = ok (tt, record e { buf = e.buf ++ bs })

set_field : String → Ser
set_field field e = ok (tt, record e { current_field = field })

-- The macro arm `serialize!($serialize, $put, $ty)` at an unsigned type of `size` bytes.
pub serialize_uint : ℕ → ℕ → Ser
unfolding remaining_mut put
serialize_uint size v e =
    if leb size (remaining_mut e) then put (put_be size v) e else err not_enough_data

unfoldable pub serialize_u8 : ℕ → Ser
unfolding serialize_uint
serialize_u8 = serialize_uint 1

unfoldable pub serialize_u32 : ℕ → Ser
unfolding serialize_uint
serialize_u32 = serialize_uint 4

unfoldable pub serialize_u64 : ℕ → Ser
unfolding serialize_uint
serialize_u64 = serialize_uint 8

-- The length prefix of a sequence, map or byte string, unless the field's name rules it out.
put_length : ℕ → Ser
unfolding encode_length put
put_length len e = if encode_length e then put (put_be 4 len) e else ok (tt, e)

unfoldable pub serialize_bytes : List ℕ → Ser
unfolding remaining_mut put_length
serialize_bytes v e =
    if leb (length v) u32_max
    then (if leb (length v + 4) (remaining_mut e)
        then (do put_length (length v); put v) e
        else err not_enough_data)
    else err unsupported

unfoldable pub serialize_str : List ℕ → Ser
unfolding serialize_bytes
serialize_str = serialize_bytes

unfoldable pub serialize_none : Ser
serialize_none = pure tt

unfoldable pub serialize_some : Ser → Ser
serialize_some value = value

pub serialize_unit : Ser
unfolding serialize_none
serialize_unit = serialize_none

unfoldable pub serialize_unit_variant : ℕ → Ser
unfolding serialize_u32
serialize_unit_variant variant_index = serialize_u32 variant_index

unfoldable pub serialize_newtype_struct : String → Ser → Ser
unfolding set_field
serialize_newtype_struct name value = do set_field name; value

pub serialize_newtype_variant : ℕ → String → Ser → Ser
unfolding set_field serialize_u32
serialize_newtype_variant variant_index variant value = do
  set_field variant
  serialize_u32 variant_index
  value

serialize_count : ℕ → Ser
unfolding encode_length serialize_u32
serialize_count len e =
    if leb len u32_max
    then (if encode_length e then serialize_u32 len e else ok (tt, e))
    else err unsupported

-- The start of a sequence; `serialize_map` has the same body.
unfoldable pub serialize_seq : Option ℕ → Ser
unfolding serialize_count set_field
serialize_seq none = set_field ""
serialize_seq (some len) = do serialize_count len; set_field ""

unfoldable pub serialize_map : Option ℕ → Ser
unfolding serialize_count set_field
serialize_map none = set_field ""
serialize_map (some len) = do serialize_count len; set_field ""

unfoldable pub serialize_tuple : Ser
unfolding set_field
serialize_tuple = set_field ""

unfoldable pub serialize_struct : String → Ser
unfolding set_field
serialize_struct name = set_field name

-- The macro arm `serialize!(trait …)`: elements of sequences and tuples, without a key, …
unfoldable pub serialize_element : Ser → Ser
serialize_element value = value

-- … and fields of structs, with one.
unfoldable pub serialize_field : String → Ser → Ser
unfolding set_field
serialize_field key value = do set_field key; value

-- What `#[derive(Serialize)]` makes of a struct: its fields in order, and an `end` that does nothing.
unfoldable pub serialize_fields : List (String × Ser) → Ser
unfolding serialize_field
serialize_fields [] = pure tt
serialize_fields ((key, value) ∷ fields) = do serialize_field key value; serialize_fields fields

unfoldable pub derived_struct : String → List (String × Ser) → Ser
unfolding serialize_struct serialize_fields
derived_struct name fields = do serialize_struct name; serialize_fields fields

-- The elements of a tuple or a sequence.
unfoldable pub serialize_elements : List Ser → Ser
unfolding serialize_element
serialize_elements [] = pure tt
serialize_elements (value ∷ values) = do serialize_element value; serialize_elements values

-- `SerializeMap`: the key and the value of an entry.
unfoldable pub serialize_entry : Ser → Ser → Ser
serialize_entry key value = do key; value
