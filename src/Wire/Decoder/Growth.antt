-- ===== src/Wire/Decoder/Growth.antt =====
-- What a deserializer of src/wire/decoder.rs does when bytes are added behind the buffer: it runs short of
-- bytes before, or it does the same as before and leaves the new bytes.
pub mod Sequences
pub mod Visitors
use rusftp.Prelude.{
  ℕ, zero, suc, ◌-◌, ◌+◌, ◌≤◌, ◌≡◌, refl, ap, true, false, if◌then◌else◌, Bool-cases, inl, inr,
  String, List, [], ◌∷◌, ◌++◌, Result, ok, err, take, drop, length, length-append,
  take-append_inside, drop-append_inside, ltb, le→ltb, ltb→lt, arith, M, pure, ◌>>=◌,
}
use rusftp.Wire.Error.{Error, not_enough_data, invalid_char}
use rusftp.Wire.Bytes.{get_be}
use rusftp.Wire.Utf8.{is_utf8}
use rusftp.Wire.Field.{has_length}
use rusftp.Wire.Decoder.{
  Decoder, De, decode_length, advance, set_field, decode_uint, decode_u8, decode_u32, decode_u64,
  take_bytes, read_length, decode_bytes, check_utf8, decode_str, deserialize_unit,
  deserialize_newtype_struct,
}

-- How a step ends on a state, `r`, and on the grown state, `q`.
pub data Outcome {S A : Type 0} (grow : S → S) (Q : S → Type 0) (r q : Result (A × S) Error)
    : Type 0 where
  short : r ≡ err not_enough_data → Outcome grow Q r q
  fails : (e : Error) → r ≡ err e → q ≡ err e → Outcome grow Q r q
  gives : (a : A) (s : S) → Q s → r ≡ ok (a, s) → q ≡ ok (a, grow s) → Outcome grow Q r q

-- From a state with `P` to one with `Q`.
abbrev pub Steady : {S A : Type 0} → (S → S) → (S → Type 0) → (S → Type 0) → M Error S A → Type 0
Steady {S} grow P Q m = (s : S) → P s → Outcome grow Q (m s) (m (grow s))

pub Steady-pure : {S A : Type 0} (grow : S → S) (P : S → Type 0) (a : A) → Steady grow P P (pure a)
unfolding pure
Steady-pure grow P a s p = gives a s p refl refl

pub Outcome-bind :
    {S A B : Type 0} {grow : S → S} {Q R : S → Type 0} (m m' : M Error S A) (f f' : A → M Error S B)
    (s t : S)
    → Outcome grow Q (m s) (m' t)
    → ((a : A) (u : S) → Q u → Outcome grow R (f a u) (f' a (grow u)))
    → Outcome grow R ((m >>= f) s) ((m' >>= f') t)
unfolding ◌>>=◌
Outcome-bind m m' f f' s t (short e) g = short (rw (◌>>=◌, e) refl)
Outcome-bind m m' f f' s t (fails x e e') g = fails x (rw (◌>>=◌, e) refl) (rw (◌>>=◌, e') refl)
Outcome-bind m m' f f' s t (gives a u q e e') g = rw (◌>>=◌, e, e') (g a u q)

pub Steady-bind :
    {S A B : Type 0} {grow : S → S} {P Q R : S → Type 0} (m : M Error S A) (f : A → M Error S B)
    → Steady grow P Q m
    → ((a : A) → Steady grow Q R (f a))
    → Steady grow P R (m >>= f)
Steady-bind {grow = grow} m f h g s p = Outcome-bind m m f f s (grow s) (h s p) g

-- The bytes `x` behind the buffer of the decoder.
unfoldable pub grow : List ℕ → Decoder → Decoder
grow x d = record d { buf = d.buf ++ x }

abbrev pub Every : {S : Type 0} → S → Type 0
Every s = Unit

abbrev pub IsCounted : Decoder → Type 0
IsCounted d = has_length d.current_field ≡ true

pub decode_u8-empty :
    (field : String) → decode_u8 (record { buf = []; current_field = field }) ≡ err not_enough_data
unfolding decode_u8 decode_uint
decode_u8-empty field = refl

module _ (x : List ℕ) where
  set_field-Steady :
      (name : String) (Q : Decoder → Type 0)
      → ((d : Decoder) → Q (record d { current_field = name }))
      → Steady (grow x) Every Q (set_field name)
  unfolding set_field grow
  set_field-Steady name Q q d p = gives tt (record d { current_field = name }) (q d) refl refl

  -- A step that takes `n` bytes, if there are so many.
  taking-Steady :
      {A : Type 0} (n : ℕ) (f : List ℕ → A) (r : De A)
      → ((e : Decoder)
          → r e ≡ (
              if ltb (length e.buf) n
              then err not_enough_data
              else ok (f (take n e.buf), advance n e)))
      → Steady (grow x) Every Every r
  unfolding advance grow
  taking-Steady n f r is d p = elim (Bool-cases (ltb (length d.buf) n)) [
    | inl less ↦ short (rw (is d, less) refl)
    | inr enough ↦
        let room : n ≤ length d.buf = ground (arith, enough) in
        let more : ltb (length (d.buf ++ x)) n ≡ false =
          le→ltb _ n (omega (arith, length-append d.buf x, room)) in
        gives (f (take n d.buf)) (advance n d) tt (rw (is d, enough) refl) (
          rw
            (
              is (grow x d),
              more,
              take-append_inside n d.buf x room,
              drop-append_inside n d.buf x room,
            )
            refl)
  ]

  decode_uint-Steady : (size : ℕ) → Steady (grow x) Every Every (decode_uint size)
  unfolding decode_uint
  decode_uint-Steady size = taking-Steady size get_be (decode_uint size) (λ e. refl)

  take_bytes-Steady : (n : ℕ) → Steady (grow x) Every Every (take_bytes n)
  unfolding take_bytes
  take_bytes-Steady n = taking-Steady n (λ bs. bs) (take_bytes n) (λ e. refl)

  pub decode_u32-Steady : Steady (grow x) Every Every decode_u32
  unfolding decode_u32
  decode_u32-Steady = decode_uint-Steady 4

  pub decode_u64-Steady : Steady (grow x) Every Every decode_u64
  unfolding decode_u64
  decode_u64-Steady = decode_uint-Steady 8

  -- Under a field's name that asks for a length.
  read_length-Steady : Steady (grow x) IsCounted Every read_length
  unfolding read_length decode_length grow
  read_length-Steady d counted = rw (counted) (decode_u32-Steady d tt)

  pub decode_bytes-Steady : Steady (grow x) IsCounted Every decode_bytes
  unfolding decode_bytes
  decode_bytes-Steady = Steady-bind read_length take_bytes read_length-Steady take_bytes-Steady

  check_utf8-Steady : (bs : List ℕ) → Steady (grow x) Every Every (check_utf8 bs)
  unfolding check_utf8
  check_utf8-Steady bs d p = elim (Bool-cases (is_utf8 bs)) [
    | inl good ↦ gives bs d tt (rw (good) refl) (rw (good) refl)
    | inr bad ↦ fails invalid_char (rw (bad) refl) (rw (bad) refl)
  ]

  pub decode_str-Steady : Steady (grow x) IsCounted Every decode_str
  unfolding decode_str
  decode_str-Steady = Steady-bind decode_bytes check_utf8 decode_bytes-Steady check_utf8-Steady

  pub deserialize_unit-Steady : Steady (grow x) Every Every deserialize_unit
  unfolding deserialize_unit
  deserialize_unit-Steady = Steady-pure (grow x) Every tt

  pub newtype-Steady :
      {A : Type 0} (name : String) (m : De A)
      → has_length name ≡ true
      → Steady (grow x) IsCounted Every m
      → Steady (grow x) Every Every (deserialize_newtype_struct name m)
  unfolding deserialize_newtype_struct
  newtype-Steady name m counted h =
      Steady-bind (set_field name) (λ u. m) (set_field-Steady name IsCounted (λ d. counted))
        (λ u. h)
