-- ===== src/Wire/Decoder/Consumes.antt =====
-- Which bytes a deserializer of src/wire/decoder.rs took from the front of the buffer, by the value that it
-- gave.
pub mod Sequences
use rusftp.Prelude.{
  ℕ, zero, suc, ◌-◌, ◌+◌, ◌*◌, ◌/◌, ◌%◌, ◌^◌, ◌<◌, ◌≤◌, ◌≡◌, refl, sym, ap, ◌∙◌, true, false,
  Bool-cases, inl, inr, String, List, [], ◌∷◌, ◌++◌, Result, ok, err, take, drop, length,
  length-append, length-take, take-append-drop, append_assoc, append-nil, ltb, All, All-append,
  arith, M, pure, ◌>>=◌, if◌then◌else◌,
}
use rusftp.Wire.Error.{Error, not_enough_data}
use rusftp.Wire.Bytes.{IsByte, put_be, get_be, get_be-append}
use rusftp.Wire.Utf8.{is_utf8}
use rusftp.Wire.Field.{has_length}
use rusftp.Wire.Decoder.{
  Decoder, De, decode_length, advance, set_field, decode_uint, decode_u8, decode_u32, decode_u64,
  take_bytes, read_length, decode_bytes, check_utf8, decode_str, deserialize_unit,
  deserialize_newtype_struct,
}
use rusftp.Wire.Decoder.Growth.{Every, IsCounted}

-- The bytes of a number are the ones that it was read from.
last-split :
    (n : ℕ) (bs : List ℕ)
    → length bs ≡ suc n
    → (xs : List ℕ) × (b : ℕ) × (bs ≡ xs ++ b ∷ []) × (length xs ≡ n)
last-split n [] e = absurd (omega (arith, e))
last-split zero (b ∷ []) e = ([], b, refl, refl)
last-split zero (b ∷ c ∷ bs) e = absurd (omega (arith, e))
last-split (suc n) (b ∷ bs) e =
    let (xs, c, same, long) = last-split n bs (omega (arith, e)) in
    (b ∷ xs, c, ap (λ l. b ∷ l) same, omega (arith, long))

pub All-left :
    {A : Type 0} (P : A → Type 0) (xs ys : List A) → All P (xs ++ ys) → All P xs × All P ys
All-left P [] ys h = (tt, h)
All-left P (x ∷ xs) ys h = let q = All-left P xs ys h.1 in ((h.0, q.0), q.1)

put_be-get_be : (n : ℕ) (bs : List ℕ) → length bs ≡ n → All IsByte bs → put_be n (get_be bs) ≡ bs
unfolding put_be
put_be-get_be zero [] e h = refl
put_be-get_be zero (b ∷ bs) e h = absurd (omega (arith, e))
put_be-get_be (suc n) bs e h =
    let (xs, b, same, long) = last-split n bs e in
    let bytes = All-left IsByte xs (b ∷ []) (rw (same) at h) in
    let value = get_be-append xs b in
    let high : get_be (xs ++ b ∷ []) / 256 ≡ get_be xs = omega (arith, value, bytes.1.0) in
    let low : get_be (xs ++ b ∷ []) % 256 ≡ b = omega (arith, value, bytes.1.0) in
    rw (same) (rw (high, low, put_be-get_be n xs long bytes.0) refl)

-- From a state with `P`, a step that gives `a` takes bytes with `R a` and leaves a state with `Q`.
abbrev pub Consumes :
    {S A : Type 0}
    → (S → List ℕ)
    → (S → Type 0)
    → (S → Type 0)
    → (A → List ℕ → Type 0)
    → M Error S A
    → Type 0
Consumes {S} {A} buf P Q R m =
    (s : S) (a : A) (t : S)
    → P s
    → All IsByte (buf s)
    → m s ≡ ok (a, t)
    → (bs : List ℕ) × R a bs × (buf s ≡ bs ++ buf t) × Q t

-- A chain that succeeds has a first part that does.
pub bind-ok :
    {S A B : Type 0} (m : M Error S A) (f : A → M Error S B) (s : S) (b : B) (u : S)
    → (m >>= f) s ≡ ok (b, u)
    → (a : A) × (t : S) × (m s ≡ ok (a, t)) × (f a t ≡ ok (b, u))
unfolding ◌>>=◌
bind-ok {S} {A} {B} m f s b u e = go (m s) refl e
  where
    go :
        (r : Result (A × S) Error)
        → m s ≡ r
        → (elim r as (λ _. Result (B × S) Error) [ ok (a, t) ↦ f a t | err x ↦ err x ]) ≡ ok (b, u)
        → (a : A) × (t : S) × (m s ≡ ok (a, t)) × (f a t ≡ ok (b, u))
    go (ok (a, t)) there e = (a, t, there, e)
    go (err x) there e = cc e

pub Consumes-pure :
    {S A : Type 0} (buf : S → List ℕ) (P : S → Type 0) (R : A → List ℕ → Type 0) (a : A)
    → R a []
    → Consumes buf P P R (pure a)
unfolding pure
Consumes-pure buf P R a r s b t p bytes e =
    let same : a ≡ b = cc e in
    let here : s ≡ t = cc e in ([], rw (← same) r, ap buf here, rw (← here) p)

pub Consumes-bind :
    {S A B : Type 0} {buf : S → List ℕ} {P Q Q' : S → Type 0} {R : A → List ℕ → Type 0}
    (R' : B → List ℕ → Type 0) (m : M Error S A) (f : A → M Error S B)
    → Consumes buf P Q R m
    → ((a : A) (bs : List ℕ) → R a bs → Consumes buf Q Q' (λ b cs. R' b (bs ++ cs)) (f a))
    → Consumes buf P Q' R' (m >>= f)
Consumes-bind {buf = buf} R' m f h g s b u p bytes e =
    let (a, t, first, second) = bind-ok m f s b u e in
    let (bs, r, took, q) = h s a t p bytes first in
    let later = (All-left IsByte bs (buf t) (rw (took) at bytes)).1 in
    let (cs, r', took', q') = g a bs r t b u q later second in
    (bs ++ cs, r', took ∙ ap (λ l. bs ++ l) took' ∙ sym (append_assoc bs cs (buf u)), q')

-- A value that is only put into another form.
pub Consumes-map :
    {S A B : Type 0} {buf : S → List ℕ} {P Q : S → Type 0} {R : A → List ℕ → Type 0}
    (R' : B → List ℕ → Type 0) (m : M Error S A) (f : A → B)
    → Consumes buf P Q R m
    → ((a : A) (bs : List ℕ) → R a bs → R' (f a) bs)
    → Consumes buf P Q R' (m >>= λ a. pure (f a))
Consumes-map {buf = buf} {Q = Q} R' m f h g =
    Consumes-bind R' m _ h (λ a bs r.
      Consumes-pure buf Q (λ b cs. R' b (bs ++ cs)) (f a) (rw (append-nil bs) (g a bs r)))

abbrev pub Takes : {A : Type 0} → (Decoder → Type 0) → (A → List ℕ → Type 0) → De A → Type 0
Takes P R m = Consumes (λ d. d.buf) P Every R m

set_field-Takes :
    (name : String) (Q : Decoder → Type 0)
    → ((d : Decoder) → Q (record d { current_field = name }))
    → Consumes (λ d. d.buf) Every Q (λ u bs. bs ≡ []) (set_field name)
unfolding set_field
set_field-Takes name Q q d u d' p bytes e =
    let here : record d { current_field = name } ≡ d' = cc e in
    ([], refl, ap (λ (f : Decoder). f.buf) here, rw (← here) (q d))

-- A step that takes `n` bytes, if there are so many.
taking-Takes :
    {A : Type 0} (n : ℕ) (f : List ℕ → A) (R : A → List ℕ → Type 0) (r : De A)
    → ((d : Decoder)
        → r d ≡ (
            if ltb (length d.buf) n
            then err not_enough_data
            else ok (f (take n d.buf), advance n d)))
    → ((bs : List ℕ) → length bs ≡ n → All IsByte bs → R (f bs) bs)
    → Takes Every R r
unfolding advance
taking-Takes n f R r is fits d a d' p bytes e = elim (Bool-cases (ltb (length d.buf) n)) [
  | inl less ↦ cc (rw (is d, less) at e)
  | inr enough ↦
      let done = rw (is d, enough) at e in
      let same : f (take n d.buf) ≡ a = cc done in
      let here : advance n d ≡ d' = cc done in
      let room : n ≤ length d.buf = ground (arith, enough) in
      let split = take-append-drop n d.buf in
      (
        take n d.buf,
        rw (← same) (
            fits (take n d.buf) (omega (arith, room, length-take n d.buf))
              (All-left IsByte (take n d.buf) (drop n d.buf) (rw (← split) at bytes)).0),
        rw (← here) (sym split),
        tt,
      )
]

-- A number of `size` bytes.
abbrev pub IsPut : ℕ → ℕ → List ℕ → Type 0
IsPut size n bs = bs ≡ put_be size n

decode_uint-Takes : (size : ℕ) → Takes Every (IsPut size) (decode_uint size)
unfolding decode_uint
decode_uint-Takes size =
    taking-Takes size get_be (IsPut size) (decode_uint size) (λ d. refl)
      (λ bs e h. sym (put_be-get_be size bs e h))

pub decode_u8-Takes : Takes Every (IsPut 1) decode_u8
unfolding decode_u8
decode_u8-Takes = decode_uint-Takes 1

pub decode_u32-Takes : Takes Every (IsPut 4) decode_u32
unfolding decode_u32
decode_u32-Takes = decode_uint-Takes 4

pub decode_u64-Takes : Takes Every (IsPut 8) decode_u64
unfolding decode_u64
decode_u64-Takes = decode_uint-Takes 8

take_bytes-Takes : (n : ℕ) → Takes Every (λ bs cs. (cs ≡ bs) × (length bs ≡ n)) (take_bytes n)
unfolding take_bytes
take_bytes-Takes n =
    taking-Takes n (λ bs. bs) (λ bs cs. (cs ≡ bs) × (length bs ≡ n)) (take_bytes n) (λ d. refl)
      (λ bs e h. (refl, e))

read_length-Takes : Takes IsCounted (IsPut 4) read_length
unfolding read_length decode_length
read_length-Takes d n d' counted bytes e = decode_u32-Takes d n d' tt bytes (rw (counted) at e)

-- A byte string, with its length in front.
abbrev pub IsString : List ℕ → List ℕ → Type 0
IsString bs cs = cs ≡ put_be 4 (length bs) ++ bs

pub decode_bytes-Takes : Takes IsCounted IsString decode_bytes
unfolding decode_bytes
decode_bytes-Takes = Consumes-bind IsString read_length take_bytes read_length-Takes found
  where
    found :
        (n : ℕ) (bs : List ℕ)
        → IsPut 4 n bs
        → Takes Every (λ b cs. IsString b (bs ++ cs)) (take_bytes n)
    found n bs put d b d' p bytes e =
        let (cs, (same, long), took, q) = take_bytes-Takes n d b d' p bytes e in
        (cs, rw (put, same, long) refl, took, q)

check_utf8-Takes : (bs : List ℕ) → Takes Every (λ a cs. (a ≡ bs) × (cs ≡ [])) (check_utf8 bs)
unfolding check_utf8
check_utf8-Takes bs d a d' p bytes e = elim (Bool-cases (is_utf8 bs)) [
  | inl good ↦
      let done = rw (good) at e in
      let same : bs ≡ a = cc done in
      let here : d ≡ d' = cc done in ([], (sym same, refl), ap (λ (f : Decoder). f.buf) here, tt)
  | inr bad ↦ cc (rw (bad) at e)
]

pub decode_str-Takes : Takes IsCounted IsString decode_str
unfolding decode_str
decode_str-Takes = Consumes-bind IsString decode_bytes check_utf8 decode_bytes-Takes found
  where
    found :
        (bs cs : List ℕ)
        → IsString bs cs
        → Takes Every (λ b ds. IsString b (cs ++ ds)) (check_utf8 bs)
    found bs cs string d b d' p bytes e =
        let (ds, (same, none), took, q) = check_utf8-Takes bs d b d' p bytes e in
        (ds, rw (none, same, append-nil cs) string, took, q)

pub deserialize_unit-Takes : Takes Every (λ u bs. bs ≡ []) deserialize_unit
unfolding deserialize_unit
deserialize_unit-Takes = Consumes-pure (λ (d : Decoder). d.buf) Every (λ u bs. bs ≡ []) tt refl

pub newtype-Takes :
    {A : Type 0} {R : A → List ℕ → Type 0} (name : String) (m : De A)
    → has_length name ≡ true
    → Takes IsCounted R m
    → Takes Every R (deserialize_newtype_struct name m)
unfolding deserialize_newtype_struct
newtype-Takes {R = R} name m counted h =
    Consumes-bind R (set_field name) (λ u. m) (set_field-Takes name IsCounted (λ d. counted))
      (λ u bs none d a d' p bytes e.
        let (cs, r, took, q) = h d a d' p bytes e in (cs, rw (none) r, took, q))
