-- ===== src/Wire/Decoder/Bounds/Sequences.antt =====
-- What structs, sequences, maps and enums give on any buffer, by what their elements give.
use rusftp.Prelude.{
  ℕ, zero, suc, ◌≡◌, refl, Bool-cases, inl, inr, String, List, Option, none, some, Result, ok, err,
  length, ◌==◌, arith, pure, ◌>>=◌,
}
use rusftp.Wire.Error.{Error, CustomText, custom}
use rusftp.Wire.Decoder.{
  Decoder, De, SeqAccess, SeqM, decode_length, set_field, decode_u32, deserialize_unit,
  deserialize_newtype_struct, run_visitor, new_nel, deserialize_seq, deserialize_map,
  deserialize_tuple, deserialize_struct, next_field, element, next_element, next_entry, required,
  nth_field, deserialize_unit_enum,
}
use rusftp.Wire.Decoder.Bounds.{
  Gives, Gives-pure, Gives-bind, IsBuf, IsAccess, Any, decode_u32-Gives,
}

set_field-Gives : (name : String) → Gives IsBuf Any (set_field name)
unfolding set_field
set_field-Gives name d u d' i e =
    (let here : record d { current_field = name } ≡ d' = cc e in rw (← here) i, tt)

pub deserialize_unit-Gives : Gives IsBuf Any deserialize_unit
unfolding deserialize_unit
deserialize_unit-Gives = Gives-pure IsBuf Any tt tt

new_nel-Gives : Gives IsBuf Any new_nel
unfolding new_nel
new_nel-Gives d n d' i e = elim (Bool-cases (decode_length d)) [
  | inl on ↦
      Gives-bind decode_u32 (λ n. pure (some n)) decode_u32-Gives
        (λ n b. Gives-pure IsBuf Any (some n) tt) d n d' i (rw (on) at e)
  | inr off ↦ Gives-pure IsBuf Any none tt d n d' i (unfold pure in rw (off) at e)
]

pub buf-next_field : (s : SeqAccess) → (next_field s).decoder.buf ≡ s.decoder.buf
unfolding next_field
buf-next_field s = ground arith

abbrev pub IfFound : {A : Type 0} → (A → Type 0) → Option A → Type 0
IfFound P none = Unit
IfFound P (some a) = P a

module _ {A : Type 0} {P : A → Type 0} where
  pub newtype-Gives :
      (name : String) (m : De A)
      → Gives IsBuf P m
      → Gives IsBuf P (deserialize_newtype_struct name m)
  unfolding deserialize_newtype_struct
  newtype-Gives name m g = Gives-bind (set_field name) (λ u. m) (set_field-Gives name) (λ u t. g)

  -- A visitor, with whatever access it starts.
  run_visitor-Gives :
      (visitor : SeqM A)
      → Gives IsAccess P visitor
      → (s : SeqAccess) (a : A) (d : Decoder) → IsAccess s
      → run_visitor visitor s ≡ ok (a, d)
      → IsBuf d × P a
  unfolding run_visitor
  run_visitor-Gives visitor g s a d i e = go (visitor s) refl e
    where
      go :
          (r : Result (A × SeqAccess) Error)
          → visitor s ≡ r
          → (elim r as (λ _. Result (A × Decoder) Error) [
            | ok (b, t) ↦ ok (b, t.decoder)
            | err x ↦ err x
          ])
            ≡ ok (a, d)
          → IsBuf d × P a
      go (ok (b, t)) there e =
          let q = g s b t i there in
          let same : b ≡ a = cc e in
          let here : t.decoder ≡ d = cc e in (rw (← here) q.0, rw (← same) q.1)
      go (err x) there e = cc e

  pub deserialize_tuple-Gives :
      (n : ℕ) (visitor : SeqM A)
      → Gives IsAccess P visitor
      → Gives IsBuf P (deserialize_tuple n visitor)
  unfolding deserialize_tuple
  deserialize_tuple-Gives n visitor g d a d' i e = run_visitor-Gives visitor g _ a d' i e

  pub deserialize_struct-Gives :
      (name : String) (fields : List String) (visitor : SeqM A)
      → Gives IsAccess P visitor
      → Gives IsBuf P (deserialize_struct name fields visitor)
  unfolding deserialize_struct
  deserialize_struct-Gives name fields visitor g d a d' i e = run_visitor-Gives visitor g _ a d' i e

  pub deserialize_seq-Gives :
      (visitor : SeqM A) → Gives IsAccess P visitor → Gives IsBuf P (deserialize_seq visitor)
  unfolding deserialize_seq
  deserialize_seq-Gives visitor g = Gives-bind new_nel _ new_nel-Gives (λ nel t.
      Gives-bind (set_field "") _ (set_field-Gives "")
        (λ u t' d a d' i e. run_visitor-Gives visitor g _ a d' i e))

  pub deserialize_map-Gives :
      (visitor : SeqM A) → Gives IsAccess P visitor → Gives IsBuf P (deserialize_map visitor)
  unfolding deserialize_map
  deserialize_map-Gives visitor g = Gives-bind new_nel _ new_nel-Gives (λ nel t.
      Gives-bind (set_field "") _ (set_field-Gives "")
        (λ u t' d a d' i e. run_visitor-Gives visitor g _ a d' i e))

  -- The next element, if there is one.
  element-Gives :
      (seed : De A) (nel : Option ℕ) → Gives IsBuf P seed → Gives IsAccess P (element seed nel)
  unfolding element
  element-Gives seed nel g s a s' i e = go (seed s.decoder) refl e
    where
      go :
          (r : Result (A × Decoder) Error)
          → seed s.decoder ≡ r
          → (elim r as (λ _. Result (A × SeqAccess) Error) [
            | ok (b, d) ↦ ok (b, record s { decoder = d; nel = nel })
            | err x ↦ err x
          ])
            ≡ ok (a, s')
          → IsAccess s' × P a
      go (ok (b, d)) there e =
          let q = g s.decoder b d i there in
          let same : b ≡ a = cc e in
          let here : record s { decoder = d; nel = nel } ≡ s' = cc e in
          (rw (← here) q.0, rw (← same) q.1)
      go (err x) there e = cc e

  element-some-Gives :
      (seed : De A) (nel : Option ℕ)
      → Gives IsBuf P seed
      → Gives IsAccess (IfFound P) (element seed nel >>= λ a. pure (some a))
  element-some-Gives seed nel g =
      Gives-bind (element seed nel) _ (element-Gives seed nel g)
        (λ a p. Gives-pure IsAccess (IfFound P) (some a) p)

  pub next_element-Gives :
      (seed : De A) → Gives IsBuf P seed → Gives IsAccess (IfFound P) (next_element seed)
  unfolding next_element pure
  next_element-Gives seed g s o s' i e = go s.nel refl
    where
      at_field : (nel : Option ℕ) → IsAccess (next_field (record s { nel = nel }))
      at_field nel = rw (buf-next_field (record s { nel = nel })) i

      stops :
          (nel : Option ℕ)
          → pure {E = Error} {A = Option A} none (next_field (record s { nel = nel })) ≡ ok (o, s')
          → IsAccess s' × IfFound P o
      stops nel f =
          Gives-pure IsAccess (IfFound P) none tt (next_field (record s { nel = nel })) o s'
            (at_field nel) f

      goes_on :
          (nel left : Option ℕ)
          → (element seed left >>= λ a. pure (some a)) (next_field (record s { nel = nel }))
            ≡ ok (o, s')
          → IsAccess s' × IfFound P o
      goes_on nel left f =
          element-some-Gives seed left g (next_field (record s { nel = nel })) o s' (at_field nel) f

      go : (nel : Option ℕ) → s.nel ≡ nel → IsAccess s' × IfFound P o
      go none there = elim (Bool-cases (length s.decoder.buf == 0)) [
        | inl over ↦ stops none (rw (there, over) at e)
        | inr more ↦ goes_on none none (rw (there, more) at e)
      ]
      go (some zero) there = stops (some zero) (rw (there) at e)
      go (some (suc n)) there = goes_on (some (suc n)) (some n) (rw (there) at e)

  pub required-Gives :
      (missing : CustomText) (seed : De A)
      → Gives IsBuf P seed
      → Gives IsAccess P (required missing seed)
  unfolding required
  required-Gives missing seed g = Gives-bind (next_element seed) _ (next_element-Gives seed g) there
    where
      there :
          (o : Option A)
          → IfFound P o
          → Gives IsAccess P (λ s. elim o [ none ↦ err (custom missing) | some a ↦ ok (a, s) ])
      there none p s a s' i e = cc e
      there (some b) p s a s' i e =
          let same : b ≡ a = cc e in let here : s ≡ s' = cc e in (rw (← here) i, rw (← same) p)

-- A variant of an enum has no bound of its own.
pub unit_enum-Gives :
    {A : Type 0} (name : String) (variants : List String) (variant_of : ℕ → Option A)
    → Gives IsBuf Any (deserialize_unit_enum name variants variant_of)
unfolding deserialize_unit_enum ◌>>=◌
unit_enum-Gives {A} name variants variant_of =
    Gives-bind (set_field name >>= λ _. decode_u32) _
      (Gives-bind (set_field name) _ (set_field-Gives name) (λ u t. decode_u32-Gives))
      (λ n small.
        Gives-bind (set_field (nth_field variants n)) _ (set_field-Gives (nth_field variants n))
          (λ u t. found n (variant_of n)))
  where
    found :
        (n : ℕ) (o : Option A)
        → Gives IsBuf Any (λ d. elim o [
          | none ↦ err (custom (CustomText.invalid_variant n))
          | some a ↦ ok (a, d)
        ])
    found n none d a d' i e = cc e
    found n (some b) d a d' i e = (let here : d ≡ d' = cc e in rw (← here) i, tt)

pub next_entry-Gives :
    {A B : Type 0} {P : A → Type 0} {Q : B → Type 0} (key : De A) (value : De B)
    → Gives IsBuf P key
    → Gives IsBuf Q value
    → Gives IsAccess (IfFound (λ (e : A × B). P e.0 × Q e.1)) (next_entry key value)
unfolding next_entry
next_entry-Gives {A} {B} {P} {Q} key value g h =
    Gives-bind (next_element key) _ (next_element-Gives key g) paired
  where
    paired :
        (k : Option A)
        → IfFound P k
        → Gives IsAccess (IfFound (λ (e : A × B). P e.0 × Q e.1)) (λ s. elim k [
          | none ↦ ok (none, s)
          | some a ↦ (element value s.nel >>= λ b. pure (some (a, b))) s
        ])
    paired none p s o s' i e =
        let here : s ≡ s' = cc e in let same : none ≡ o = cc e in (rw (← here) i, rw (← same) tt)
    paired (some a) p s o s' i e =
        Gives-bind (element value s.nel) _ (element-Gives value s.nel h)
          (λ b q. Gives-pure IsAccess (IfFound (λ (e : A × B). P e.0 × Q e.1)) (some (a, b)) (p, q))
          s o s' i e
