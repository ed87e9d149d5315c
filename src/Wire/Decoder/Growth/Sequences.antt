-- ===== src/Wire/Decoder/Growth/Sequences.antt =====
-- The same of the accesses to sequences and structs, and of enums, src/wire/decoder.rs.
use rusftp.Prelude.{
  ℕ, zero, suc, ◌≡◌, refl, ap, ◌∙◌, String, List, [], ◌∷◌, Option, none, some, ok, err, pure, ◌>>=◌,
}
use rusftp.Wire.Error.{CustomText, custom}
use rusftp.Wire.Decoder.{Decoder, De, SeqAccess, SeqM, next_field, element, next_element, required}
use rusftp.Wire.Decoder.Growth.{
  Outcome, short, fails, gives, Steady, Steady-pure, Steady-bind, grow, Every,
}

unfoldable pub growing : List ℕ → SeqAccess → SeqAccess
growing x s = record s { decoder = grow x s.decoder }

-- Where an access stands: the fields and the elements that are left.
abbrev pub IsAt : List String → Option ℕ → SeqAccess → Type 0
IsAt fields nel s = (s.fields ≡ fields) × (s.nel ≡ nel)

abbrev pub next_name : List String → String
next_name [] = ""
next_name (field ∷ fields) = field

abbrev pub names_left : List String → List String
names_left [] = []
names_left (field ∷ fields) = fields

module _ (x : List ℕ) where
  next_field-growing : (s : SeqAccess) → next_field (growing x s) ≡ growing x (next_field s)
  unfolding next_field growing grow
  next_field-growing s = go s.fields refl
    where
      go : (fs : List String) → s.fields ≡ fs → next_field (growing x s) ≡ growing x (next_field s)
      go [] e = rw (e) refl
      go (f ∷ fs) e = rw (e) refl

  pub next_field-IsAt :
      (fs : List String) (nel : Option ℕ) (s : SeqAccess)
      → IsAt fs nel s
      → IsAt (names_left fs) nel (next_field s)
        × ((next_field s).decoder.current_field ≡ next_name fs)
  unfolding next_field
  next_field-IsAt [] nel s (e, n) = rw (e) ((refl, n), refl)
  next_field-IsAt (f ∷ fs) nel s (e, n) = rw (e) ((refl, n), refl)

  element-Steady :
      {A : Type 0} {P : Decoder → Type 0} (seed : De A) (fs : List String) (m nel : Option ℕ)
      → Steady (grow x) P Every seed
      → Steady (growing x) (λ s. IsAt fs m s × P s.decoder) (IsAt fs nel) (element seed nel)
  unfolding element growing
  element-Steady {A} {P} seed fs m nel h s (at, p) = go (h s.decoder p)
    where
      go :
          Outcome (grow x) Every (seed s.decoder) (seed (grow x s.decoder))
          → Outcome (growing x) (IsAt fs nel) (element seed nel s) (element seed nel (growing x s))
      go (short e) = short (rw (element, e) refl)
      go (fails y e e') = fails y (rw (element, e) refl) (rw (element, e') refl)
      go (gives a d u e e') =
          gives a (record s { decoder = d; nel = nel }) (at.0, refl) (rw (element, e) refl)
            (rw (element, e') refl)

  pub next_element-element :
      {A : Type 0} (seed : De A) (n : ℕ) (s : SeqAccess)
      → s.nel ≡ some (suc n)
      → next_element seed s ≡ (element seed (some n) >>= λ a. pure (some a)) (next_field s)
  unfolding next_element
  next_element-element seed n s e = simp (next_element, e) refl

  -- While elements are left, the next one is read under the next field's name.
  pub next_element-Steady :
      {A : Type 0} {P : Decoder → Type 0} (seed : De A) (fs : List String) (n : ℕ)
      → ((d : Decoder) → d.current_field ≡ next_name fs → P d)
      → Steady (grow x) P Every seed
      → Steady
          (growing x)
          (IsAt fs (some (suc n)))
          (IsAt (names_left fs) (some n))
          (next_element seed)
  unfolding growing
  next_element-Steady {A} {P} seed fs n named h s at =
      let there = next_field-IsAt fs (some (suc n)) s at in
      rw
        (
          next_element-element seed n s at.1,
          next_element-element seed n (growing x s) at.1,
          next_field-growing s,
        )
        (Steady-bind (element seed (some n)) _
          (element-Steady seed (names_left fs) (some (suc n)) (some n) h)
          (λ a. Steady-pure (growing x) (IsAt (names_left fs) (some n)) (some a)) (next_field s)
          (there.0, named (next_field s).decoder there.1))

  -- When none are left, that is found on both buffers.
  pub next_element-over :
      {A : Type 0} (seed : De A) (s : SeqAccess)
      → s.nel ≡ some zero
      → next_element seed s ≡ ok (none, next_field s)
  unfolding next_element
  next_element-over seed s e = simp (next_element, e) refl

  pub next_element-none :
      {A : Type 0} (seed : De A) (s : SeqAccess)
      → s.nel ≡ some zero
      → (t : SeqAccess) × (next_element seed s ≡ ok (none, t))
        × (next_element seed (growing x s) ≡ ok (none, growing x t))
  unfolding growing
  next_element-none seed s e = (
    next_field s,
    next_element-over seed s e,
    next_element-over seed (growing x s) e ∙ ap (λ u. ok (none, u)) (next_field-growing s),
  )

  -- A field of a struct, or an element of a tuple, and what follows it.
  pub required-Steady :
      {A B : Type 0} {P : Decoder → Type 0} {Q : SeqAccess → Type 0} (missing : CustomText)
      (seed : De A) (f : A → SeqM B) (fs : List String) (n : ℕ)
      → ((d : Decoder) → d.current_field ≡ next_name fs → P d)
      → Steady (grow x) P Every seed
      → ((a : A) → Steady (growing x) (IsAt (names_left fs) (some n)) Q (f a))
      → Steady (growing x) (IsAt fs (some (suc n))) Q (required missing seed >>= f)
  unfolding required
  required-Steady {A} missing seed f fs n named h g =
      Steady-bind _ f
        (Steady-bind (next_element seed) _ (next_element-Steady seed fs n named h) found) g
    where
      found :
          (o : Option A)
          → Steady
              (growing x)
              (IsAt (names_left fs) (some n))
              (IsAt (names_left fs) (some n))
              (λ s. elim o [ none ↦ err (custom missing) | some a ↦ ok (a, s) ])
      found none s at = fails (custom missing) refl refl
      found (some a) s at = gives a s at refl refl
