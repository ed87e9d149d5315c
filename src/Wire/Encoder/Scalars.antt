-- ===== src/Wire/Encoder/Scalars.antt =====
-- The methods of the serializer, src/wire/encoder.rs, that no message of the protocol needs: the other
-- numbers, characters, and the tuples and variants of enums. A float is the pattern of its bits, which
-- `put_f32` and `put_f64` write, and a character its number.
use rusftp.Prelude.{ℕ, ◌^◌, Bool, String, List, [], if◌then◌else◌, ◌>>◌}
use rusftp.Prelude.Int.{ℤ, to_bits}
use rusftp.Wire.Encoder.{
  Encoder, Ser, set_field, serialize_uint, serialize_u8, serialize_u32, serialize_none, with_vec,
}

-- `SftpEncoder::new` and `SftpEncoder::to_vec`
unfoldable pub new : Encoder
unfolding with_vec
new = with_vec []

unfoldable pub to_vec : Encoder → List ℕ
to_vec e = e.buf

-- The macro arm `serialize!($serialize, $put, $ty)` at a signed type of `size` bytes.
unfoldable pub serialize_int : ℕ → ℤ → Ser
unfolding serialize_uint
serialize_int size v = serialize_uint size (to_bits (256 ^ size) v)

unfoldable pub serialize_i8 : ℤ → Ser
unfolding serialize_int
serialize_i8 = serialize_int 1

unfoldable pub serialize_i16 : ℤ → Ser
unfolding serialize_int
serialize_i16 = serialize_int 2

unfoldable pub serialize_i32 : ℤ → Ser
unfolding serialize_int
serialize_i32 = serialize_int 4

unfoldable pub serialize_i64 : ℤ → Ser
unfolding serialize_int
serialize_i64 = serialize_int 8

unfoldable pub serialize_i128 : ℤ → Ser
unfolding serialize_int
serialize_i128 = serialize_int 16

unfoldable pub serialize_u16 : ℕ → Ser
unfolding serialize_uint
serialize_u16 = serialize_uint 2

unfoldable pub serialize_u128 : ℕ → Ser
unfolding serialize_uint
serialize_u128 = serialize_uint 16

unfoldable pub serialize_f32 : ℕ → Ser
unfolding serialize_uint
serialize_f32 = serialize_uint 4

unfoldable pub serialize_f64 : ℕ → Ser
unfolding serialize_uint
serialize_f64 = serialize_uint 8

unfoldable pub serialize_bool : Bool → Ser
unfolding serialize_u8
serialize_bool v = serialize_u8 (if v then 1 else 0)

unfoldable pub serialize_char : ℕ → Ser
unfolding serialize_u32
serialize_char v = serialize_u32 v

unfoldable pub serialize_unit_struct : String → Ser
unfolding serialize_none
serialize_unit_struct name = serialize_none

unfoldable pub serialize_tuple_struct : String → Ser
unfolding set_field
serialize_tuple_struct name = set_field name

unfoldable pub serialize_tuple_variant : ℕ → String → Ser
unfolding set_field serialize_u32
serialize_tuple_variant variant_index variant = do set_field variant; serialize_u32 variant_index

unfoldable pub serialize_struct_variant : ℕ → String → Ser
unfolding set_field serialize_u32
serialize_struct_variant variant_index variant = do set_field variant; serialize_u32 variant_index
