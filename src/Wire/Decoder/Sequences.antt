-- ===== src/Wire/Decoder/Sequences.antt =====
-- What the visitor of a sequence takes from the front of the buffer, with a rule for each way to ask for
-- an element.
use rusftp.Prelude.{
  ℕ, suc, ◌≡◌, refl, String, List, [], ◌∷◌, ◌++◌, append_assoc, Option, some, length, concat, pure,
  ◌>>=◌, ok,
}
use rusftp.Wire.Error.{CustomText}
use rusftp.Wire.Decoder.{
  Decoder, De, SeqAccess, SeqM, run_visitor, deserialize_tuple, deserialize_struct, next_field,
  element, next_element, required,
}
use rusftp.Wire.Decoder.Reads.{ReadsAt, Reads}

-- The same for the visitor of a sequence, with the fields and the count that its access has left.
pub record SeqReads {A : Type 0} (fields : List String) (nel : Option ℕ) (rest : List ℕ)
    (visitor : SeqM A) (bs : List ℕ) (a : A) : Type 0 where
  pub at :
      (field : String)
      → (after : String) × (fields_left : List String) × (nel_left : Option ℕ) × (visitor (record {
        decoder = record { buf = bs ++ rest; current_field = field };
        fields = fields;
        nel = nel;
      })
          ≡ ok (
            a,
            record {
              decoder = record { buf = rest; current_field = after };
              fields = fields_left;
              nel = nel_left;
            },
          ))

module _ {A : Type 0} (fields : List String) (nel : Option ℕ) (rest : List ℕ) where
  pub SeqReads-pure : (a : A) → SeqReads fields nel rest (pure a) (concat []) a
  unfolding concat pure
  SeqReads-pure a = record { at = λ field. (field, fields, nel, refl) }

pub concat-cons-append :
    (bs : List ℕ) (pieces : List (List ℕ)) (rest : List ℕ)
    → concat (bs ∷ pieces) ++ rest ≡ bs ++ (concat pieces ++ rest)
unfolding concat
concat-cons-append bs pieces rest = append_assoc bs (concat pieces) rest

pub element-eq-ok :
    {A : Type 0} (seed : De A) (nel : Option ℕ) (s : SeqAccess) {a : A} {d : Decoder}
    → seed s.decoder ≡ ok (a, d)
    → element seed nel s ≡ ok (a, record s { decoder = d; nel = nel })
unfolding element
element-eq-ok seed nel s e = rw (e, element)

module _ {A : Type 0} (text : CustomText) (seed : De A) (n : ℕ) (buf : List ℕ)
    (field : String) where
  -- The value of a field is read under the field's name, …
  pub required-field :
      (name : String) (fields : List String) {a : A} {d : Decoder}
      → seed (record { buf = buf; current_field = name }) ≡ ok (a, d)
      → required text seed (record {
        decoder = record { buf = buf; current_field = field };
        fields = name ∷ fields;
        nel = some (suc n);
      })
        ≡ ok (a, record { decoder = d; fields = fields; nel = some n })
  unfolding required next_element next_field ◌>>=◌ pure
  required-field name fields e = rw (
    ◌>>=◌,
    element-eq-ok seed (some n)
        (record {
          decoder = record { buf = buf; current_field = name };
          fields = fields;
          nel = some (suc n);
        })
        e,
  )

  -- … and an element of a tuple under no name.
  pub required-element :
      {a : A} {d : Decoder}
      → seed (record { buf = buf; current_field = "" }) ≡ ok (a, d)
      → required text seed (record {
        decoder = record { buf = buf; current_field = field };
        fields = [];
        nel = some (suc n);
      })
        ≡ ok (a, record { decoder = d; fields = []; nel = some n })
  unfolding required next_element next_field ◌>>=◌ pure
  required-element e = rw (
    ◌>>=◌,
    element-eq-ok seed (some n)
        (record {
          decoder = record { buf = buf; current_field = "" };
          fields = [];
          nel = some (suc n);
        })
        e,
  )

module _ {A B : Type 0} (n : ℕ) (rest : List ℕ) (text : CustomText) (d : De A) (k : A → SeqM B)
    (bs : List ℕ) (pieces : List (List ℕ)) (a : A) (b : B) where
  -- A struct's field: its name is the current one when its value is read.
  pub SeqReads-field :
      (name : String) (fields : List String)
      → ReadsAt name (concat pieces ++ rest) d bs a
      → SeqReads fields (some n) rest (k a) (concat pieces) b
      → SeqReads
          (name ∷ fields)
          (some (suc n))
          rest
          (required text d >>= k)
          (concat (bs ∷ pieces))
          b
  unfolding ◌>>=◌
  SeqReads-field name fields r s = record {
    at = λ field.
        let t = s.at r.after in
        (
          t.0,
          t.1,
          t.2,
          rw (concat-cons-append bs pieces rest) (
              rw
                (
                  ◌>>=◌,
                  required-field text d n (bs ++ (concat pieces ++ rest)) field name fields r.reads,
                )
                t.3),
        );
  }

  -- An element of a tuple.
  pub SeqReads-element :
      ReadsAt "" (concat pieces ++ rest) d bs a
      → SeqReads [] (some n) rest (k a) (concat pieces) b
      → SeqReads [] (some (suc n)) rest (required text d >>= k) (concat (bs ∷ pieces)) b
  unfolding ◌>>=◌
  SeqReads-element r s = record {
    at = λ field.
        let t = s.at r.after in
        (
          t.0,
          t.1,
          t.2,
          rw (concat-cons-append bs pieces rest) (
              rw (◌>>=◌, required-element text d n (bs ++ (concat pieces ++ rest)) field r.reads)
                t.3),
        );
  }

module _ {A : Type 0} {rest : List ℕ} {visitor : SeqM A} {bs : List ℕ} {a : A} where
  pub Reads-struct :
      (name : String) (fields : List String)
      → SeqReads fields (some (length fields)) rest visitor bs a
      → Reads rest (deserialize_struct name fields visitor) bs a
  unfolding deserialize_struct
  Reads-struct name fields s field =
      let t = s.at name in record { after = t.0; reads = rw (run_visitor, t.3) }

  pub Reads-tuple :
      (n : ℕ)
      → SeqReads [] (some n) rest visitor bs a
      → Reads rest (deserialize_tuple n visitor) bs a
  unfolding deserialize_tuple
  Reads-tuple n s field = let t = s.at "" in record { after = t.0; reads = rw (run_visitor, t.3) }

-- The last element of a tuple, with nothing done to it, and the result of a visitor, changed.
pub SeqReads-last :
    {A : Type 0} (n : ℕ) (rest : List ℕ) (text : CustomText) (d : De A) (bs : List ℕ) (a : A)
    → ReadsAt "" (concat [] ++ rest) d bs a
    → SeqReads [] (some (suc n)) rest (required text d) (concat (bs ∷ [])) a
SeqReads-last n rest text d bs a r = record {
  at = λ field. (
    r.after,
    [],
    some n,
    rw (concat-cons-append bs [] rest)
        (required-element text d n (bs ++ (concat [] ++ rest)) field (unfold concat in r.reads)),
  );
}

pub SeqReads-map :
    {A B : Type 0} (f : A → B) {fields : List String} {nel : Option ℕ} {rest : List ℕ}
    {visitor : SeqM A} {bs : List ℕ} {a : A}
    → SeqReads fields nel rest visitor bs a
    → SeqReads fields nel rest (visitor >>= λ x. pure (f x)) bs (f a)
unfolding ◌>>=◌ pure
SeqReads-map f s = record { at = λ field. let t = s.at field in (t.0, t.1, t.2, rw (◌>>=◌, t.3)) }
