-- ===== src/Wire/Scalars/RoundTrip.antt =====
-- Every scalar of src/wire/ is read back as it was written.
use rusftp.Prelude.{
  String, ℕ, ◌*◌, ◌^◌, ◌<◌, ◌≡◌, refl, Bool, true, false, List, arith, pure, ◌>>=◌, if◌then◌else◌,
}
use rusftp.Prelude.Int.{ℤ, to_bits, of_bits, IsSigned}
use rusftp.Wire.Bytes.{put_be}
use rusftp.Wire.Encoder.{Ser, serialize_uint, serialize_u8, serialize_u32, serialize_u64}
use rusftp.Wire.Encoder.Scalars as Put
use rusftp.Wire.Encoder.Writes.{Writes, Writes-uint}
use rusftp.Wire.Decoder.{De, decode_uint, decode_u8, decode_u32, decode_u64, deserialize_bool}
use rusftp.Wire.Decoder.Scalars as Get
use rusftp.Wire.Decoder.Reads.{Reads, ReadsAt, ReadsAt-uint, ReadsAt-map, decode_uint-append}
use rusftp.Wire.Scalars.{
  Scalar, IsScalar, type_of, serialize_scalar, deserialize_scalar, to_bits_lt, of_bits-to_bits,
}

-- What is written by `s` is read by `d` as `a`, whatever follows.
abbrev pub IsReadBack : {A : Type 0} → Ser → De A → A → Type 0
IsReadBack s d a = (bs : List ℕ) × Writes s bs × ((rest : List ℕ) → Reads rest d bs a)

uint-IsReadBack :
    (size v : ℕ) (f : ℕ → Scalar)
    → v < 256 ^ size
    → IsReadBack (serialize_uint size v) (decode_uint size >>= λ v. pure (f v)) (f v)
uint-IsReadBack size v f fits = (
  put_be size v,
  Writes-uint size v,
  λ rest field. ReadsAt-map f (ReadsAt-uint field rest size v fits),
)

int-ReadsAt :
    (size half : ℕ) (v : ℤ) (field : String) (rest : List ℕ)
    → 256 ^ size ≡ 2 * half
    → IsSigned (256 ^ size) v
    → ReadsAt field rest
        (Get.signed size (decode_uint size))
        (put_be size (to_bits (256 ^ size) v))
        v
unfolding Get.signed
int-ReadsAt size half v field rest even fits =
    rw (of_bits-to_bits (256 ^ size) half v even fits) at (
      ReadsAt-map (of_bits (256 ^ size)) (
        ReadsAt-uint field rest size (to_bits (256 ^ size) v)
          (to_bits_lt (256 ^ size) half v even fits)))

int-IsReadBack :
    (size half : ℕ) (v : ℤ) (f : ℤ → Scalar)
    → 256 ^ size ≡ 2 * half
    → IsSigned (256 ^ size) v
    → IsReadBack
        (Put.serialize_int size v)
        (Get.signed size (decode_uint size) >>= λ v. pure (f v))
        (f v)
unfolding Put.serialize_int
int-IsReadBack size half v f even fits = (
  put_be size (to_bits (256 ^ size) v),
  Writes-uint size (to_bits (256 ^ size) v),
  λ rest field. ReadsAt-map f (int-ReadsAt size half v field rest even fits),
)

char-ReadsAt :
    (c : ℕ) (field : String) (rest : List ℕ)
    → Get.is_char c ≡ true
    → ReadsAt field rest Get.deserialize_char (put_be 4 c) c
unfolding Get.deserialize_char Get.checked_char decode_u32 ◌>>=◌
char-ReadsAt c field rest good = record {
  after = field;
  reads = rw (◌>>=◌, decode_uint-append field rest 4 c (char_lt c good), good) refl;
}
  where
    char_lt : (c : ℕ) → Get.is_char c ≡ true → c < 256 ^ 4
    char_lt c good = unfold Get.is_char in ground arith

bool-ReadsAt :
    (b : Bool) (field : String) (rest : List ℕ)
    → ReadsAt field rest deserialize_bool (put_be 1 (if b then 1 else 0)) b
unfolding deserialize_bool decode_u8 pure ◌>>=◌
bool-ReadsAt true field rest = record {
  after = field;
  reads = rw (◌>>=◌, decode_uint-append field rest 1 1 (omega arith)) refl;
}
bool-ReadsAt false field rest = record {
  after = field;
  reads = rw (◌>>=◌, decode_uint-append field rest 1 0 (omega arith)) refl;
}

-- Of every scalar of a type of Rust: there are bytes that the serializer appends to any buffer with
-- room for them and four more, and that the deserializer for this type takes from the front of any
-- buffer, under any field's name, and reads as the same scalar.
pub scalar_round_trip :
    (v : Scalar) → IsScalar v → IsReadBack (serialize_scalar v) (deserialize_scalar (type_of v)) v
unfolding serialize_scalar deserialize_scalar type_of serialize_u8 serialize_u32 serialize_u64
    decode_u8 decode_u32 decode_u64 Put.serialize_i8 Put.serialize_i16 Put.serialize_i32
    Put.serialize_i64 Put.serialize_i128 Put.serialize_u16 Put.serialize_u128 Put.serialize_f32
    Put.serialize_f64 Put.serialize_bool Put.serialize_char Get.deserialize_i8 Get.deserialize_i16
    Get.deserialize_i32 Get.deserialize_i64 Get.deserialize_i128 Get.decode_u16 Get.decode_u128
    Get.decode_f32 Get.decode_f64
scalar_round_trip (Scalar.i8 v) h = int-IsReadBack 1 (2 ^ 7) v Scalar.i8 refl h
scalar_round_trip (Scalar.i16 v) h = int-IsReadBack 2 (2 ^ 15) v Scalar.i16 refl h
scalar_round_trip (Scalar.i32 v) h = int-IsReadBack 4 (2 ^ 31) v Scalar.i32 refl h
scalar_round_trip (Scalar.i64 v) h = int-IsReadBack 8 (2 ^ 63) v Scalar.i64 refl h
scalar_round_trip (Scalar.i128 v) h = int-IsReadBack 16 (2 ^ 127) v Scalar.i128 refl h
scalar_round_trip (Scalar.u8 v) h = uint-IsReadBack 1 v Scalar.u8 h
scalar_round_trip (Scalar.u16 v) h = uint-IsReadBack 2 v Scalar.u16 h
scalar_round_trip (Scalar.u32 v) h = uint-IsReadBack 4 v Scalar.u32 h
scalar_round_trip (Scalar.u64 v) h = uint-IsReadBack 8 v Scalar.u64 h
scalar_round_trip (Scalar.u128 v) h = uint-IsReadBack 16 v Scalar.u128 h
scalar_round_trip (Scalar.f32 v) h = uint-IsReadBack 4 v Scalar.f32 h
scalar_round_trip (Scalar.f64 v) h = uint-IsReadBack 8 v Scalar.f64 h
scalar_round_trip (Scalar.char v) h = (
  put_be 4 v,
  Writes-uint 4 v,
  λ rest field. ReadsAt-map Scalar.char (char-ReadsAt v field rest h),
)
scalar_round_trip (Scalar.bool v) h = (
  put_be 1 (if v then 1 else 0),
  Writes-uint 1 (if v then 1 else 0),
  λ rest field. ReadsAt-map Scalar.bool (bool-ReadsAt v field rest),
)
