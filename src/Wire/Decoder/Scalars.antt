-- ===== src/Wire/Decoder/Scalars.antt =====
-- The methods of the deserializer, src/wire/decoder.rs, that no message of the protocol needs.
use rusftp.Prelude.{
  ℕ, ◌^◌, ◌&&◌, ◌||◌, Bool, Option, none, some, ltb, leb, if◌then◌else◌, String, List, length, err,
  ok, pure, ◌>>=◌, ◌>>◌,
}
use rusftp.Prelude.Int.{ℤ, of_bits}
use rusftp.Wire.Error.{unsupported, invalid_char, custom, CustomText}
use rusftp.Wire.Decoder.{
  De, SeqM, set_field, decode_uint, decode_u8, decode_u32, decode_u64, deserialize_unit,
  deserialize_tuple, nth_field,
}

unfoldable pub decode_u16 : De ℕ
unfolding decode_uint
decode_u16 = decode_uint 2

unfoldable pub decode_u128 : De ℕ
unfolding decode_uint
decode_u128 = decode_uint 16

-- `get_f32` and `get_f64`: the pattern of the bits.
unfoldable pub decode_f32 : De ℕ
unfolding decode_uint
decode_f32 = decode_uint 4

unfoldable pub decode_f64 : De ℕ
unfolding decode_uint
decode_f64 = decode_uint 8

-- The macro `deserialize!` at a signed type: `self.$decode()? as $ty`.
unfoldable pub signed : ℕ → De ℕ → De ℤ
signed size decode = decode >>= λ bits. pure (of_bits (256 ^ size) bits)

unfoldable pub deserialize_i8 : De ℤ
unfolding signed decode_u8
deserialize_i8 = signed 1 decode_u8

unfoldable pub deserialize_i16 : De ℤ
unfolding signed decode_u16
deserialize_i16 = signed 2 decode_u16

unfoldable pub deserialize_i32 : De ℤ
unfolding signed decode_u32
deserialize_i32 = signed 4 decode_u32

unfoldable pub deserialize_i64 : De ℤ
unfolding signed decode_u64
deserialize_i64 = signed 8 decode_u64

unfoldable pub deserialize_i128 : De ℤ
unfolding signed decode_u128
deserialize_i128 = signed 16 decode_u128

-- `char::from_u32`: the surrogates are no characters.
unfoldable pub is_char : ℕ → Bool
is_char c = ltb c 0xD800 || (leb 0xE000 c && ltb c 0x110000)

unfoldable pub checked_char : ℕ → De ℕ
unfolding is_char
checked_char c d = if is_char c then ok (c, d) else err invalid_char

unfoldable pub deserialize_char : De ℕ
unfolding decode_u32 checked_char
deserialize_char = do c ← decode_u32; checked_char c

unfoldable pub deserialize_unit_struct : String → De (Unit {0})
unfolding deserialize_unit
deserialize_unit_struct name = deserialize_unit

unfoldable pub deserialize_tuple_struct : {A : Type 0} → String → ℕ → SeqM A → De A
unfolding deserialize_tuple set_field
deserialize_tuple_struct name len visitor = do set_field name; deserialize_tuple len visitor

-- `deserialize_any`, `deserialize_option`, `deserialize_identifier` and `deserialize_ignored_any`: the
-- format says nothing of what follows.
unfoldable pub deserialize_unknown : {A : Type 0} → De A
deserialize_unknown d = err unsupported

-- `variant_seed` and the content of the variant: the derived visitor selects it by its index.
unfoldable pub deserialize_enum : {A : Type 0} → String → List String → (ℕ → Option (De A)) → De A
unfolding decode_u32 nth_field set_field
deserialize_enum name variants variant_of = do
  set_field name
  variant ← decode_u32
  set_field (nth_field variants variant)
  λ d. elim (variant_of variant) [
    | none ↦ err (custom (CustomText.invalid_variant variant))
    | some content ↦ content d
  ]

-- `newtype_variant_seed`, `tuple_variant` and `struct_variant`: the names of the fields of a struct
-- variant do not reach the decoder.
unfoldable pub newtype_variant : {A : Type 0} → De A → De A
newtype_variant seed = seed

unfoldable pub tuple_variant : {A : Type 0} → ℕ → SeqM A → De A
unfolding deserialize_tuple set_field
tuple_variant len visitor = deserialize_tuple len visitor

unfoldable pub struct_variant : {A : Type 0} → List String → SeqM A → De A
unfolding deserialize_tuple set_field
struct_variant fields visitor = deserialize_tuple (length fields) visitor
