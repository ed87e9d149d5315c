-- ===== src/Wire/Utf8.antt =====
-- The check of `std::str::from_utf8`, by the table of well-formed UTF-8 byte sequences. A `String`
-- of the source is the list of its bytes.
use rusftp.Prelude.{
  ℕ, Bool, true, false, ◌&&◌, List, [], ◌∷◌, ◌++◌, Option, none, some, leb, ltb, ◌==◌,
  if◌then◌else◌, ◌≡◌, refl, inl, inr, Option-cases, arith,
}

-- What the bytes so far ask of the next one.
pub data Expect : Type 0 where
  start tail1 tail2 tail3 after_e0 after_ed after_f0 after_f4 : Expect

in_range : ℕ → ℕ → ℕ → Bool
in_range lo hi b = leb lo b && leb b hi

lead : ℕ → Option Expect
unfolding in_range
lead b =
    if ltb b 0x80
    then some start
    else if in_range 0xC2 0xDF b
    then some tail1
    else if b == 0xE0
    then some after_e0
    else if b == 0xED
    then some after_ed
    else if in_range 0xE1 0xEF b
    then some tail2
    else if b == 0xF0
    then some after_f0
    else if in_range 0xF1 0xF3 b
    then some tail3
    else if b == 0xF4
    then some after_f4
    else none

continue : ℕ → ℕ → Expect → ℕ → Option Expect
unfolding in_range
continue lo hi next b = if in_range lo hi b then some next else none

advance : Expect → ℕ → Option Expect
unfolding lead continue
advance start b = lead b
advance tail1 b = continue 0x80 0xBF start b
advance tail2 b = continue 0x80 0xBF tail1 b
advance tail3 b = continue 0x80 0xBF tail2 b
advance after_e0 b = continue 0xA0 0xBF tail1 b
advance after_ed b = continue 0x80 0x9F tail1 b
advance after_f0 b = continue 0x90 0xBF tail2 b
advance after_f4 b = continue 0x80 0x8F tail2 b

scan : Expect → List ℕ → Option Expect
scan s [] = some s
scan s (b ∷ bs) = elim (advance s b) [ none ↦ none | some s' ↦ scan s' bs ]

at_start : Option Expect → Bool
at_start (some start) = true
at_start o = false

unfoldable pub is_utf8 : List ℕ → Bool
unfolding scan advance at_start
is_utf8 bs = at_start (scan start bs)

scan-append : (s t : Expect) (xs ys : List ℕ) → scan s xs ≡ some t → scan s (xs ++ ys) ≡ scan t ys
unfolding scan
scan-append s t [] ys h = ground arith
scan-append s t (x ∷ xs) ys h = elim (Option-cases (advance s x)) [
  | inl e ↦ cc (rw (e, scan) at h)
  | inr (u, e) ↦ rw (e, scan) (scan-append u t xs ys (rw (e, scan) at h))
]

at_start-eq_true : (o : Option Expect) → at_start o ≡ true → o ≡ some start
unfolding at_start
at_start-eq_true o h = ground arith

-- Two well-formed texts make one.
pub is_utf8-append :
    (xs ys : List ℕ) → is_utf8 xs ≡ true → is_utf8 ys ≡ true → is_utf8 (xs ++ ys) ≡ true
is_utf8-append xs ys hx hy =
    unfold is_utf8 in rw (scan-append start start xs ys (at_start-eq_true (scan start xs) hx)) hy

is_utf8_text : is_utf8 (0x41 ∷ 0xC3 ∷ 0xA9 ∷ 0xE2 ∷ 0x82 ∷ 0xAC ∷ []) ≡ true
unfolding is_utf8
is_utf8_text = refl

is_utf8_overlong : is_utf8 (0xC0 ∷ 0x80 ∷ []) ≡ false
unfolding is_utf8
is_utf8_overlong = refl
