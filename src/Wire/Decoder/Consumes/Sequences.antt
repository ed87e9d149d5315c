-- ===== src/Wire/Decoder/Consumes/Sequences.antt =====
-- The same of the accesses to sequences and structs, and of enums.
use rusftp.Prelude.{
  ℕ, zero, suc, ◌≡◌, refl, sym, ap, ◌∙◌, String, List, [], ◌++◌, append-nil, Option, none, some,
  Result, ok, err, length, All, pure, ◌>>=◌,
}
use rusftp.Wire.Error.{Error, CustomText, custom}
use rusftp.Wire.Bytes.{IsByte, put_be}
use rusftp.Wire.Decoder.{
  Decoder, De, SeqAccess, SeqM, set_field, decode_u32, run_visitor, deserialize_seq,
  deserialize_tuple, deserialize_struct, next_field, element, next_element, required, nth_field,
  deserialize_unit_enum,
}
use rusftp.Wire.Decoder.Bounds.Sequences.{buf-next_field}
use rusftp.Wire.Decoder.Growth.{Every, IsCounted}
use rusftp.Wire.Decoder.Growth.Sequences.{
  IsAt, next_name, names_left, next_field-IsAt, next_element-element, next_element-over,
}
use rusftp.Wire.Decoder.Growth.Visitors.{elements_of, deserialize_seq-counted}
use rusftp.Wire.Decoder.Consumes.{
  Consumes, Consumes-bind, Takes, bind-ok, set_field-Takes, decode_u32-Takes, IsPut,
}

-- The steps of a visitor.
abbrev pub Visits :
    {A : Type 0}
    → (SeqAccess → Type 0)
    → (SeqAccess → Type 0)
    → (A → List ℕ → Type 0)
    → SeqM A
    → Type 0
Visits P Q R m = Consumes (λ s. s.decoder.buf) P Q R m

element-ok :
    {A : Type 0} (seed : De A) (nel : Option ℕ) (s : SeqAccess) (a : A) (t : SeqAccess)
    → element seed nel s ≡ ok (a, t)
    → (d : Decoder) × (seed s.decoder ≡ ok (a, d)) × (record s { decoder = d; nel = nel } ≡ t)
unfolding element
element-ok {A} seed nel s a t e = go (seed s.decoder) refl e
  where
    go :
        (r : Result (A × Decoder) Error)
        → seed s.decoder ≡ r
        → (elim r as (λ _. Result (A × SeqAccess) Error) [
          | ok (b, d) ↦ ok (b, record s { decoder = d; nel = nel })
          | err x ↦ err x
        ])
          ≡ ok (a, t)
        → (d : Decoder) × (seed s.decoder ≡ ok (a, d)) × (record s { decoder = d; nel = nel } ≡ t)
    go (ok (b, d)) there e = let same : b ≡ a = cc e in (d, there ∙ ap (λ c. ok (c, d)) same, cc e)
    go (err x) there e = cc e

abbrev pub IsFound : {A : Type 0} → (A → List ℕ → Type 0) → Option A → List ℕ → Type 0
IsFound {A} R o bs = (a : A) × (o ≡ some a) × R a bs

module _ {A : Type 0} {P : Decoder → Type 0} {R : A → List ℕ → Type 0} (seed : De A)
    (fs : List String) (n : ℕ) (named : (d : Decoder) → d.current_field ≡ next_name fs → P d)
    (h : Takes P R seed) where
  pub next_element-Visits :
      Visits
        (IsAt fs (some (suc n)))
        (IsAt (names_left fs) (some n))
        (IsFound R)
        (next_element seed)
  next_element-Visits s o t at bytes e =
      let (there, name) = next_field-IsAt [] fs (some (suc n)) s at in
      let same = buf-next_field s in
      let (a, u, first, second) =
        bind-ok (element seed (some n)) (λ a. pure (some a)) (next_field s) o t
          (sym (next_element-element [] seed n s at.1) ∙ e) in
      let (d, given, after) = element-ok seed (some n) (next_field s) a u first in
      let (bs, r, took, q) =
        h (next_field s).decoder a d (named (next_field s).decoder name) (rw (same) bytes) given in
      let found : some a ≡ o = unfold pure in cc second in
      let here : u ≡ t = unfold pure in cc second in
      (
        bs,
        (a, sym found, r),
        sym same ∙ took ∙ ap (λ (v : SeqAccess). bs ++ v.decoder.buf) (after ∙ here),
        rw (← (after ∙ here)) (there.0, refl),
      )

  pub required-Visits :
      (missing : CustomText)
      → Visits (IsAt fs (some (suc n))) (IsAt (names_left fs) (some n)) R (required missing seed)
  unfolding required
  required-Visits missing = Consumes-bind R (next_element seed) _ next_element-Visits found
    where
      found :
          (o : Option A) (bs : List ℕ)
          → IsFound R o bs
          → Visits
              (IsAt (names_left fs) (some n))
              (IsAt (names_left fs) (some n))
              (λ a cs. R a (bs ++ cs))
              (λ s. elim o [ none ↦ err (custom missing) | some a ↦ ok (a, s) ])
      found none bs (a, some_a, r) s b t at bytes e = cc some_a
      found (some c) bs (a, some_a, r) s b t at bytes e =
          let same : a ≡ b = cc (some_a, e) in
          let here : s ≡ t = cc e in
          (
            [],
            rw (append-nil bs) (rw (← same) r),
            ap (λ (v : SeqAccess). v.decoder.buf) here,
            rw (← here) at,
          )

-- When no element is left, none is found and no byte is taken.
module _ {A : Type 0} (seed : De A) where
  pub next_element-ends :
      (s t : SeqAccess) (o : Option A)
      → s.nel ≡ some zero
      → next_element seed s ≡ ok (o, t)
      → (o ≡ none) × (s.decoder.buf ≡ t.decoder.buf)
  next_element-ends s t o nel e =
      let done = sym (next_element-over [] seed s nel) ∙ e in
      let here : next_field s ≡ t = cc done in
      (cc done, sym (buf-next_field s) ∙ ap (λ (v : SeqAccess). v.decoder.buf) here)

visited-ok :
    {A : Type 0} (visitor : SeqM A) (s : SeqAccess) (a : A) (d : Decoder)
    → run_visitor visitor s ≡ ok (a, d)
    → (t : SeqAccess) × (visitor s ≡ ok (a, t)) × (t.decoder ≡ d)
unfolding run_visitor
visited-ok {A} visitor s a d e = go (visitor s) refl e
  where
    go :
        (r : Result (A × SeqAccess) Error)
        → visitor s ≡ r
        → (elim r as (λ _. Result (A × Decoder) Error) [
          | ok (b, t) ↦ ok (b, t.decoder)
          | err x ↦ err x
        ])
          ≡ ok (a, d)
        → (t : SeqAccess) × (visitor s ≡ ok (a, t)) × (t.decoder ≡ d)
    go (ok (b, t)) there e = let same : b ≡ a = cc e in (t, there ∙ ap (λ c. ok (c, t)) same, cc e)
    go (err x) there e = cc e

module _ {A : Type 0} {Q : SeqAccess → Type 0} {R : A → List ℕ → Type 0} (visitor : SeqM A) where
  run_visitor-Takes :
      {P : SeqAccess → Type 0}
      → Visits P Q R visitor
      → (s : SeqAccess) (a : A) (d : Decoder) → P s
      → All IsByte s.decoder.buf
      → run_visitor visitor s ≡ ok (a, d)
      → (bs : List ℕ) × R a bs × (s.decoder.buf ≡ bs ++ d.buf) × Unit {0}
  run_visitor-Takes h s a d p bytes e =
      let (t, given, here) = visited-ok visitor s a d e in
      let (bs, r, took, q) = h s a t p bytes given in
      (bs, r, took ∙ ap (λ (f : Decoder). bs ++ f.buf) here, tt)

  pub deserialize_tuple-Takes :
      (n : ℕ) → Visits (IsAt [] (some n)) Q R visitor → Takes Every R (deserialize_tuple n visitor)
  unfolding deserialize_tuple
  deserialize_tuple-Takes n h d a d' p bytes e = run_visitor-Takes h _ a d' (refl, refl) bytes e

  pub deserialize_struct-Takes :
      (name : String) (fields : List String)
      → Visits (IsAt fields (some (length fields))) Q R visitor
      → Takes Every R (deserialize_struct name fields visitor)
  unfolding deserialize_struct
  deserialize_struct-Takes name fields h d a d' p bytes e =
      run_visitor-Takes h _ a d' (refl, refl) bytes e

-- A tuple that is given is what its visitor gives.
pub tuple-ok :
    {A : Type 0} (n : ℕ) (visitor : SeqM A) (d : Decoder) (a : A) (d' : Decoder)
    → deserialize_tuple n visitor d ≡ ok (a, d')
    → (t : SeqAccess) × (visitor
          (record { decoder = record d { current_field = "" }; fields = []; nel = some n })
        ≡ ok (a, t))
      × (t.decoder ≡ d')
unfolding deserialize_tuple
tuple-ok n visitor d a d' e = visited-ok visitor _ a d' e

-- A sequence, whose length stands in front.
abbrev pub IsSequence : {A : Type 0} → (ℕ → A → List ℕ → Type 0) → A → List ℕ → Type 0
IsSequence R a bs = (n : ℕ) × (cs : List ℕ) × (bs ≡ put_be 4 n ++ cs) × R n a cs

pub deserialize_seq-Takes :
    {A : Type 0} {Q : SeqAccess → Type 0} (R : ℕ → A → List ℕ → Type 0) (visitor : SeqM A)
    → ((n : ℕ) → Visits (IsAt [] (some n)) Q (R n) visitor)
    → Takes IsCounted (IsSequence R) (deserialize_seq visitor)
unfolding elements_of
deserialize_seq-Takes {A} R visitor h d a d' counted bytes e =
    Consumes-bind (IsSequence R) decode_u32 (elements_of [] visitor) decode_u32-Takes found d a d'
      tt bytes (sym (deserialize_seq-counted [] visitor d counted) ∙ e)
  where
    found :
        (n : ℕ) (bs : List ℕ)
        → IsPut 4 n bs
        → Takes Every (λ b cs. IsSequence R b (bs ++ cs)) (elements_of [] visitor n)
    found n bs put d b d' p bytes e =
        let (cs, r, took, q) = run_visitor-Takes visitor (h n) _ b d' (refl, refl) bytes e in
        (cs, (n, cs, ap (λ l. l ++ cs) put, r), took, q)

pub unit_enum-Takes :
    {A : Type 0} (R : A → List ℕ → Type 0) (name : String) (variants : List String)
    (variant_of : ℕ → Option A)
    → ((n : ℕ) (a : A) → variant_of n ≡ some a → R a (put_be 4 n))
    → Takes Every R (deserialize_unit_enum name variants variant_of)
unfolding deserialize_unit_enum ◌>>=◌
unit_enum-Takes {A} R name variants variant_of fits =
    Consumes-bind R (set_field name >>= λ _. decode_u32) _
      (Consumes-bind (IsPut 4) (set_field name) _ (set_field-Takes name Every (λ d. tt))
        (λ u bs none d n d' p bytes e.
          let (cs, r, took, q) = decode_u32-Takes d n d' p bytes e in (cs, rw (none) r, took, q)))
      (λ n bs put.
        Consumes-bind (λ a cs. R a (bs ++ cs)) (set_field (nth_field variants n)) _
          (set_field-Takes (nth_field variants n) Every (λ d. tt))
          (λ u cs none. found n bs cs put none (variant_of n) refl))
  where
    found :
        (n : ℕ) (bs cs : List ℕ)
        → IsPut 4 n bs
        → cs ≡ []
        → (o : Option A) → variant_of n ≡ o
        → Takes Every
            (λ a ds. R a (bs ++ (cs ++ ds)))
            (λ d. elim o [
              | none ↦ err (custom (CustomText.invalid_variant n))
              | some a ↦ ok (a, d)
            ])
    found n bs cs put empty none there d a d' p bytes e = cc e
    found n bs cs put empty (some b) there d a d' p bytes e =
        let same : b ≡ a = cc e in
        let here : d ≡ d' = cc e in
        (
          [],
          rw (empty, append-nil bs, put) (rw (← same) (fits n b there)),
          ap (λ (f : Decoder). f.buf) here,
          tt,
        )
