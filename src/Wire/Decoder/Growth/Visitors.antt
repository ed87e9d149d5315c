-- ===== src/Wire/Decoder/Growth/Visitors.antt =====
-- The end of a visitor on a buffer that grows, and with it tuples, structs, sequences and enums,
-- src/wire/decoder.rs.
use rusftp.Prelude.{
  ℕ, suc, ◌≡◌, refl, String, List, [], ◌++◌, Option, none, some, Result, ok, err, length, pure,
  ◌>>=◌,
}
use rusftp.Wire.Error.{Error, CustomText, custom}
use rusftp.Wire.Decoder.{
  Decoder, De, SeqAccess, SeqM, decode_length, set_field, decode_u32, run_visitor, new_nel,
  deserialize_seq, deserialize_tuple, deserialize_struct, next_field, element, next_element,
  required, nth_field, deserialize_unit_enum,
}
use rusftp.Wire.Decoder.Sequences.{required-element}
use rusftp.Wire.Decoder.Growth.{
  Outcome, short, fails, gives, Steady, Steady-bind, grow, Every, IsCounted, set_field-Steady,
  decode_u32-Steady,
}
use rusftp.Wire.Decoder.Growth.Sequences.{growing, IsAt}

module _ (x : List ℕ) where
  -- The end of a visitor.
  visited :
      {A : Type 0} {Q : SeqAccess → Type 0} (visitor : SeqM A) (s : SeqAccess)
      → Outcome (growing x) Q (visitor s) (visitor (growing x s))
      → Outcome (grow x) Every (run_visitor visitor s) (run_visitor visitor (growing x s))
  unfolding run_visitor growing
  visited visitor s (short e) = short (rw (run_visitor, e) refl)
  visited visitor s (fails y e e') = fails y (rw (run_visitor, e) refl) (rw (run_visitor, e') refl)
  visited visitor s (gives a t q e e') =
      gives a t.decoder tt (rw (run_visitor, e) refl) (rw (run_visitor, e') refl)

  pub deserialize_tuple-Steady :
      {A : Type 0} {Q : SeqAccess → Type 0} (n : ℕ) (visitor : SeqM A)
      → Steady (growing x) (IsAt [] (some n)) Q visitor
      → Steady (grow x) Every Every (deserialize_tuple n visitor)
  unfolding deserialize_tuple growing grow
  deserialize_tuple-Steady n visitor h d p = visited visitor _ (h _ (refl, refl))

  pub deserialize_struct-Steady :
      {A : Type 0} {Q : SeqAccess → Type 0} (name : String) (fields : List String)
      (visitor : SeqM A)
      → Steady (growing x) (IsAt fields (some (length fields))) Q visitor
      → Steady (grow x) Every Every (deserialize_struct name fields visitor)
  unfolding deserialize_struct growing grow
  deserialize_struct-Steady name fields visitor h d p = visited visitor _ (h _ (refl, refl))

  -- The visitor of a sequence that has its length in front, behind that length.
  unfoldable pub elements_of : {A : Type 0} → SeqM A → ℕ → De A
  elements_of visitor n d =
      run_visitor visitor
        (record { decoder = record d { current_field = "" }; fields = []; nel = some n })

  pub deserialize_seq-counted :
      {A : Type 0} (visitor : SeqM A) (d : Decoder)
      → IsCounted d
      → deserialize_seq visitor d ≡ (decode_u32 >>= elements_of visitor) d
  unfolding deserialize_seq new_nel decode_length set_field elements_of pure ◌>>=◌
  deserialize_seq-counted {A} visitor d counted = go (decode_u32 d) refl
    where
      go :
          (r : Result (ℕ × Decoder) Error)
          → decode_u32 d ≡ r
          → deserialize_seq visitor d ≡ (decode_u32 >>= elements_of visitor) d
      go (ok (n, d')) e = simp (deserialize_seq, ◌>>=◌, new_nel, decode_length, counted, e) refl
      go (err y) e = simp (deserialize_seq, ◌>>=◌, new_nel, decode_length, counted, e) refl

  pub deserialize_seq-Steady :
      {A : Type 0} {Q : SeqAccess → Type 0} (visitor : SeqM A)
      → ((n : ℕ) → Steady (growing x) (IsAt [] (some n)) Q visitor)
      → Steady (grow x) IsCounted Every (deserialize_seq visitor)
  unfolding grow growing elements_of
  deserialize_seq-Steady visitor h d counted =
      rw
        (
          deserialize_seq-counted visitor d counted,
          deserialize_seq-counted visitor (grow x d) counted,
        )
        (Steady-bind decode_u32 (elements_of visitor) (decode_u32-Steady x)
          (λ n d' p. visited visitor _ (h n _ (refl, refl))) d tt)

  pub unit_enum-Steady :
      {A : Type 0} (name : String) (variants : List String) (variant_of : ℕ → Option A)
      → Steady (grow x) Every Every (deserialize_unit_enum name variants variant_of)
  unfolding deserialize_unit_enum ◌>>=◌
  unit_enum-Steady {A} name variants variant_of =
      Steady-bind (set_field name >>= λ _. decode_u32) _
        (Steady-bind (set_field name) _ (set_field-Steady x name Every (λ d. tt))
          (λ u. decode_u32-Steady x))
        (λ n.
          Steady-bind (set_field (nth_field variants n)) _
            (set_field-Steady x (nth_field variants n) Every (λ d. tt))
            (λ u. found n (variant_of n)))
    where
      found :
          (n : ℕ) (o : Option A)
          → Steady (grow x) Every Every (λ d. elim o [
            | none ↦ err (custom (CustomText.invalid_variant n))
            | some a ↦ ok (a, d)
          ])
      found n none d p = fails (custom (CustomText.invalid_variant n)) refl refl
      found n (some a) d p = gives a d tt refl refl

  -- A tuple whose first element, read from `q` and from what that grows to, is `a` and decides what follows.
  module _ {A B : Type 0} (missing : CustomText) (seed : De A) (f : A → SeqM B) (n : ℕ) where
    tuple-first :
        (q q' : List ℕ) (a : A)
        → seed (record { buf = q; current_field = "" })
          ≡ ok (a, record { buf = q'; current_field = "" })
        → (required missing seed >>= f) (record {
          decoder = record { buf = q; current_field = "" };
          fields = [];
          nel = some (suc n);
        })
          ≡ f a (record {
            decoder = record { buf = q'; current_field = "" };
            fields = [];
            nel = some n;
          })
    unfolding ◌>>=◌
    tuple-first q q' a e = rw (◌>>=◌, required-element missing seed n q "" e) refl

    pub tuple_first-Steady :
        {Q : SeqAccess → Type 0} (q q' : List ℕ) (a : A)
        → seed (record { buf = q; current_field = "" })
          ≡ ok (a, record { buf = q'; current_field = "" })
        → seed (record { buf = q ++ x; current_field = "" })
          ≡ ok (a, record { buf = q' ++ x; current_field = "" })
        → Steady (growing x) (IsAt [] (some n)) Q (f a)
        → Outcome
            (grow x)
            Every
            (deserialize_tuple
              (suc n)
              (required missing seed >>= f)
              (record { buf = q; current_field = "" }))
            (deserialize_tuple
              (suc n)
              (required missing seed >>= f)
              (record { buf = q ++ x; current_field = "" }))
    unfolding deserialize_tuple growing grow
    tuple_first-Steady {Q} q q' a e e' h =
        visited {Q = Q} (required missing seed >>= f) _
          (rw (tuple-first q q' a e, tuple-first (q ++ x) (q' ++ x) a e') (h _ (refl, refl)))

    pub tuple-fails :
        (q : List ℕ) (y : Error)
        → seed (record { buf = q; current_field = "" }) ≡ err y
        → deserialize_tuple
            (suc n)
            (required missing seed >>= f)
            (record { buf = q; current_field = "" })
          ≡ err y
    unfolding deserialize_tuple run_visitor required next_element next_field element ◌>>=◌
    tuple-fails q y e = cc e
