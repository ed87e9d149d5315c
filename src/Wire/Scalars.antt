-- ===== src/Wire/Scalars.antt =====
-- The scalars of src/wire/: what the serializer writes of a number, a Boolean or a character, the
-- deserializer reads back.
pub mod RoundTrip
use rusftp.Prelude.{
  ℕ, ◌-◌, ◌+◌, ◌*◌, ◌/◌, ◌%◌, ◌^◌, ◌<◌, ◌≤◌, ◌≡◌, refl, Bool, true, false, List, [], ◌∷◌, ◌++◌, ok,
  length, arith, pure, ◌>>=◌, not, ◌==◌, if◌then◌else◌,
}
use native.Mathlib.Nat.{mod-eq_of_lt}
use rusftp.Prelude.Int.{ℤ, pos, negsuc, to_bits, of_bits, IsSigned}
use rusftp.Wire.Bytes.{put_be}
use rusftp.Wire.Encoder.{
  Encoder, Ser, isize_max, serialize_uint, serialize_u8, serialize_u32, serialize_u64,
}
use rusftp.Wire.Encoder.Scalars as Put
use rusftp.Wire.Encoder.Writes.{Writes, Writes-uint}
use rusftp.Wire.Decoder.{
  Decoder, De, decode_uint, decode_u8, decode_u32, decode_u64, deserialize_bool,
}
use rusftp.Wire.Decoder.Scalars as Get
use rusftp.Wire.Decoder.Reads.{Reads, ReadsAt, ReadsAt-uint, ReadsAt-map}

pub data Scalar : Type 0 where
  i8 i16 i32 i64 i128 : ℤ → Scalar
  u8 u16 u32 u64 u128 f32 f64 char : ℕ → Scalar
  bool : Bool → Scalar

-- The values that the types of Rust have; of floats, the patterns of their bits.
abbrev pub IsScalar : Scalar → Type 0
IsScalar (Scalar.i8 v) = IsSigned (256 ^ 1) v
IsScalar (Scalar.i16 v) = IsSigned (256 ^ 2) v
IsScalar (Scalar.i32 v) = IsSigned (256 ^ 4) v
IsScalar (Scalar.i64 v) = IsSigned (256 ^ 8) v
IsScalar (Scalar.i128 v) = IsSigned (256 ^ 16) v
IsScalar (Scalar.u8 v) = v < 256 ^ 1
IsScalar (Scalar.u16 v) = v < 256 ^ 2
IsScalar (Scalar.u32 v) = v < 256 ^ 4
IsScalar (Scalar.u64 v) = v < 256 ^ 8
IsScalar (Scalar.u128 v) = v < 256 ^ 16
IsScalar (Scalar.f32 v) = v < 256 ^ 4
IsScalar (Scalar.f64 v) = v < 256 ^ 8
IsScalar (Scalar.char v) = Get.is_char v ≡ true
IsScalar (Scalar.bool v) = Unit

pub data ScalarType : Type 0 where
  i8 i16 i32 i64 i128 u8 u16 u32 u64 u128 f32 f64 char bool : ScalarType

unfoldable pub type_of : Scalar → ScalarType
type_of (Scalar.i8 v) = ScalarType.i8
type_of (Scalar.i16 v) = ScalarType.i16
type_of (Scalar.i32 v) = ScalarType.i32
type_of (Scalar.i64 v) = ScalarType.i64
type_of (Scalar.i128 v) = ScalarType.i128
type_of (Scalar.u8 v) = ScalarType.u8
type_of (Scalar.u16 v) = ScalarType.u16
type_of (Scalar.u32 v) = ScalarType.u32
type_of (Scalar.u64 v) = ScalarType.u64
type_of (Scalar.u128 v) = ScalarType.u128
type_of (Scalar.f32 v) = ScalarType.f32
type_of (Scalar.f64 v) = ScalarType.f64
type_of (Scalar.char v) = ScalarType.char
type_of (Scalar.bool v) = ScalarType.bool

-- The method that serde calls for each type, …
unfoldable pub serialize_scalar : Scalar → Ser
serialize_scalar (Scalar.i8 v) = Put.serialize_i8 v
serialize_scalar (Scalar.i16 v) = Put.serialize_i16 v
serialize_scalar (Scalar.i32 v) = Put.serialize_i32 v
serialize_scalar (Scalar.i64 v) = Put.serialize_i64 v
serialize_scalar (Scalar.i128 v) = Put.serialize_i128 v
serialize_scalar (Scalar.u8 v) = serialize_u8 v
serialize_scalar (Scalar.u16 v) = Put.serialize_u16 v
serialize_scalar (Scalar.u32 v) = serialize_u32 v
serialize_scalar (Scalar.u64 v) = serialize_u64 v
serialize_scalar (Scalar.u128 v) = Put.serialize_u128 v
serialize_scalar (Scalar.f32 v) = Put.serialize_f32 v
serialize_scalar (Scalar.f64 v) = Put.serialize_f64 v
serialize_scalar (Scalar.char v) = Put.serialize_char v
serialize_scalar (Scalar.bool v) = Put.serialize_bool v

-- … to write it and to read it.
unfoldable pub deserialize_scalar : ScalarType → De Scalar
deserialize_scalar ScalarType.i8 = Get.deserialize_i8 >>= λ v. pure (Scalar.i8 v)
deserialize_scalar ScalarType.i16 = Get.deserialize_i16 >>= λ v. pure (Scalar.i16 v)
deserialize_scalar ScalarType.i32 = Get.deserialize_i32 >>= λ v. pure (Scalar.i32 v)
deserialize_scalar ScalarType.i64 = Get.deserialize_i64 >>= λ v. pure (Scalar.i64 v)
deserialize_scalar ScalarType.i128 = Get.deserialize_i128 >>= λ v. pure (Scalar.i128 v)
deserialize_scalar ScalarType.u8 = decode_u8 >>= λ v. pure (Scalar.u8 v)
deserialize_scalar ScalarType.u16 = Get.decode_u16 >>= λ v. pure (Scalar.u16 v)
deserialize_scalar ScalarType.u32 = decode_u32 >>= λ v. pure (Scalar.u32 v)
deserialize_scalar ScalarType.u64 = decode_u64 >>= λ v. pure (Scalar.u64 v)
deserialize_scalar ScalarType.u128 = Get.decode_u128 >>= λ v. pure (Scalar.u128 v)
deserialize_scalar ScalarType.f32 = Get.decode_f32 >>= λ v. pure (Scalar.f32 v)
deserialize_scalar ScalarType.f64 = Get.decode_f64 >>= λ v. pure (Scalar.f64 v)
deserialize_scalar ScalarType.char = Get.deserialize_char >>= λ v. pure (Scalar.char v)
deserialize_scalar ScalarType.bool = deserialize_bool >>= λ v. pure (Scalar.bool v)

to_bits_lt :
    (values half : ℕ) (v : ℤ) → values ≡ 2 * half → IsSigned values v → to_bits values v < values
unfolding to_bits
to_bits_lt values half (pos n) e h = grind arith
to_bits_lt values half (negsuc n) e h = grind arith

of_bits-to_bits :
    (values half : ℕ) (v : ℤ)
    → values ≡ 2 * half
    → IsSigned values v
    → of_bits values (to_bits values v) ≡ v
unfolding to_bits of_bits
of_bits-to_bits values half (pos n) e h =
    let same : n % values ≡ n = mod-eq_of_lt (omega (arith, e, h)) in ground (arith, same)
of_bits-to_bits values half (negsuc n) e h =
    let same : n % values ≡ n = mod-eq_of_lt (omega (arith, e, h)) in ground (arith, same)
