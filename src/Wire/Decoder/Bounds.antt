-- ===== src/Wire/Decoder/Bounds.antt =====
-- What a deserializer gives, whatever it finds: numbers of their width, texts, and byte strings that
-- are no longer than the buffer was.
pub mod Sequences
use rusftp.Prelude.{
  ℕ, zero, suc, ◌^◌, ◌<◌, ◌≤◌, ◌≡◌, refl, true, Bool-cases, inl, inr, String, List, [], ◌∷◌, Option,
  none, some, Result, ok, err, take, drop, length, length-take, length-drop, ltb, ◌==◌, All, arith,
  M, pure, ◌>>=◌,
}
use rusftp.Wire.Error.{Error, CustomText, custom}
use rusftp.Wire.Bytes.{IsByte, get_be}
use rusftp.Wire.Utf8.{is_utf8}
use rusftp.Wire.Encoder.{u32_max}
use rusftp.Wire.Decoder.{
  Decoder, De, SeqAccess, SeqM, decode_length, advance, set_field, decode_uint, decode_u8,
  decode_u32, decode_u64, take_bytes, read_length, decode_bytes, check_utf8, decode_str,
  deserialize_unit, deserialize_newtype_struct, run_visitor, new_nel, deserialize_seq,
  deserialize_map, deserialize_tuple, deserialize_struct, next_field, element, next_element,
  next_entry, required, nth_field, deserialize_unit_enum,
}

-- A step that succeeds keeps `I` of its state and gives what has `P`.
abbrev pub Gives : {S A : Type 0} → (S → Type 0) → (A → Type 0) → M Error S A → Type 0
Gives {S} {A} I P m = (s : S) (a : A) (s' : S) → I s → m s ≡ ok (a, s') → I s' × P a

pub Gives-pure : {S A : Type 0} (I : S → Type 0) (P : A → Type 0) (a : A) → P a → Gives I P (pure a)
unfolding pure
Gives-pure I P a p s b s' i e =
    let same : a ≡ b = cc e in let here : s ≡ s' = cc e in (rw (← here) i, rw (← same) p)

pub Gives-bind :
    {S A B : Type 0} {I : S → Type 0} {P : A → Type 0} {Q : B → Type 0} (m : M Error S A)
    (f : A → M Error S B)
    → Gives I P m
    → ((a : A) → P a → Gives I Q (f a))
    → Gives I Q (m >>= f)
unfolding ◌>>=◌
Gives-bind {S} {A} {B} {I} {P} {Q} m f g h s b s' i e = go (m s) refl e
  where
    go :
        (r : Result (A × S) Error)
        → m s ≡ r
        → (elim r [ ok (a, t) ↦ f a t | err x ↦ err x ]) ≡ ok (b, s')
        → I s' × Q b
    go (ok (a, t)) there e = let q = g s a t i there in h a q.1 t b s' q.0 e
    go (err x) there e = cc e

-- A buffer of bytes that is not longer than a `u32` can say.
abbrev pub IsBuf : Decoder → Type 0
IsBuf d = All IsByte d.buf × (length d.buf ≤ u32_max)

abbrev pub IsAccess : SeqAccess → Type 0
IsAccess s = IsBuf s.decoder

abbrev pub Any : {A : Type 0} → A → Type 0
Any a = Unit

All-take : {A : Type 0} (P : A → Type 0) (n : ℕ) (xs : List A) → All P xs → All P (take n xs)
All-take P zero xs h = tt
All-take P (suc n) [] h = tt
All-take P (suc n) (x ∷ xs) h = (h.0, All-take P n xs h.1)

All-drop : {A : Type 0} (P : A → Type 0) (n : ℕ) (xs : List A) → All P xs → All P (drop n xs)
All-drop P zero xs h = h
All-drop P (suc n) [] h = tt
All-drop P (suc n) (x ∷ xs) h = All-drop P n xs h.1

get_be-u32 : (bs : List ℕ) → All IsByte bs → get_be (take 4 bs) < 2 ^ 32
unfolding get_be
get_be-u32 [] h = omega arith
get_be-u32 (a ∷ []) (i, _) = omega (arith, i)
get_be-u32 (a ∷ b ∷ []) (i, (j, _)) = omega (arith, i, j)
get_be-u32 (a ∷ b ∷ c ∷ []) (i, (j, (k, _))) = omega (arith, i, j, k)
get_be-u32 (a ∷ b ∷ c ∷ d ∷ rest) (i, (j, (k, (l, _)))) = omega (arith, i, j, k, l)

get_be-u64 : (bs : List ℕ) → All IsByte bs → get_be (take 8 bs) < 2 ^ 64
unfolding get_be
get_be-u64 [] h = omega arith
get_be-u64 (a ∷ []) (i, _) = omega (arith, i)
get_be-u64 (a ∷ b ∷ []) (i, (j, _)) = omega (arith, i, j)
get_be-u64 (a ∷ b ∷ c ∷ []) (i, (j, (k, _))) = omega (arith, i, j, k)
get_be-u64 (a ∷ b ∷ c ∷ d ∷ []) (i, (j, (k, (l, _)))) = omega (arith, i, j, k, l)
get_be-u64 (a ∷ b ∷ c ∷ d ∷ v ∷ []) (i, (j, (k, (l, (m, _))))) = omega (arith, i, j, k, l, m)
get_be-u64 (a ∷ b ∷ c ∷ d ∷ v ∷ w ∷ []) (i, (j, (k, (l, (m, (n, _)))))) =
    omega (arith, i, j, k, l, m, n)
get_be-u64 (a ∷ b ∷ c ∷ d ∷ v ∷ w ∷ x ∷ []) (i, (j, (k, (l, (m, (n, (o, _))))))) =
    omega (arith, i, j, k, l, m, n, o)
get_be-u64 (a ∷ b ∷ c ∷ d ∷ v ∷ w ∷ x ∷ y ∷ rest) (i, (j, (k, (l, (m, (n, (o, (p, _)))))))) =
    omega (arith, i, j, k, l, m, n, o, p)

advance-IsBuf : (n : ℕ) (d : Decoder) → IsBuf d → IsBuf (advance n d)
unfolding advance
advance-IsBuf n d i = (All-drop IsByte n d.buf i.0, omega (arith, length-drop n d.buf, i.1))

-- A number of `size` bytes, whose bound `B` holds of any bytes.
decode_uint-Gives :
    (size B : ℕ)
    → ((bs : List ℕ) → All IsByte bs → get_be (take size bs) < B)
    → Gives IsBuf (λ n. n < B) (decode_uint size)
unfolding decode_uint
decode_uint-Gives size B bound d n d' i e = elim (Bool-cases (ltb (length d.buf) size)) [
  | inl short ↦ cc (rw (short) at e)
  | inr there ↦ ground (arith, rw (there) at e, advance-IsBuf size d i, bound d.buf i.0)
]

pub decode_u32-Gives : Gives IsBuf (λ n. n < 2 ^ 32) decode_u32
unfolding decode_u32
decode_u32-Gives = decode_uint-Gives 4 (2 ^ 32) get_be-u32

pub decode_u64-Gives : Gives IsBuf (λ n. n < 2 ^ 64) decode_u64
unfolding decode_u64
decode_u64-Gives = decode_uint-Gives 8 (2 ^ 64) get_be-u64

read_length-Gives : Gives IsBuf (λ n. n ≤ u32_max) read_length
unfolding read_length
read_length-Gives d n d' i e = elim (Bool-cases (decode_length d)) [
  | inl on ↦ (let q = decode_u32-Gives d n d' i (rw (on) at e) in (q.0, omega (arith, q.1)))
  | inr off ↦
      Gives-pure IsBuf (λ n. n ≤ u32_max) (length d.buf) i.1 d n d' i (unfold pure in rw (off) at e)
]

-- A byte string that fits the format, and one that is text.
abbrev IsShort : List ℕ → Type 0
IsShort bs = length bs ≤ u32_max

take_bytes-Gives : (n : ℕ) → n ≤ u32_max → Gives IsBuf IsShort (take_bytes n)
unfolding take_bytes
take_bytes-Gives n small d bs d' i e = elim (Bool-cases (ltb (length d.buf) n)) [
  | inl short ↦ cc (rw (short) at e)
  | inr there ↦
      Gives-pure IsBuf IsShort (take n d.buf) (omega (arith, length-take n d.buf, small))
        (advance n d) bs d' (advance-IsBuf n d i) (unfold pure in rw (there) at e)
]

pub decode_bytes-Gives : Gives IsBuf (λ bs. length bs ≤ u32_max) decode_bytes
unfolding decode_bytes
decode_bytes-Gives = Gives-bind read_length take_bytes read_length-Gives take_bytes-Gives

abbrev IsString : List ℕ → Type 0
IsString bs = IsShort bs × (is_utf8 bs ≡ true)

check_utf8-Gives : (bs : List ℕ) → IsShort bs → Gives IsBuf IsString (check_utf8 bs)
unfolding check_utf8
check_utf8-Gives bs short d a d' i e = elim (Bool-cases (is_utf8 bs)) [
  | inl good ↦ Gives-pure IsBuf IsString bs (short, good) d a d' i (unfold pure in rw (good) at e)
  | inr bad ↦ cc (rw (bad) at e)
]

pub decode_str-Gives : Gives IsBuf (λ bs. (length bs ≤ u32_max) × (is_utf8 bs ≡ true)) decode_str
unfolding decode_str
decode_str-Gives = Gives-bind decode_bytes check_utf8 decode_bytes-Gives check_utf8-Gives

get_be-u8 : (bs : List ℕ) → All IsByte bs → get_be (take 1 bs) < 256
unfolding get_be
get_be-u8 [] h = omega arith
get_be-u8 (a ∷ rest) (i, _) = omega (arith, i)

pub decode_u8-Gives : Gives IsBuf (λ n. n < 256) decode_u8
unfolding decode_u8
decode_u8-Gives = decode_uint-Gives 1 256 get_be-u8
