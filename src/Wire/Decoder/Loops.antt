-- ===== src/Wire/Decoder/Loops.antt =====
-- Enums, sequences and maps: reading a variant, the next element and the next entry.
use rusftp.Prelude.{
  ℕ, zero, suc, ◌<◌, ◌^◌, ◌≡◌, refl, true, false, ◌==◌, String, List, [], ◌++◌, append_assoc,
  Option, some, none, length, length-append, arith, pure, ◌>>=◌, ok,
}
use rusftp.Wire.Bytes.{put_be, length-put_be}
use rusftp.Wire.Field.{has_length}
use rusftp.Wire.Encoder.Lengths.{counted}
use rusftp.Wire.Decoder.{
  Decoder, De, SeqM, set_field, nth_field, decode_u32, decode_bytes, decode_length,
  deserialize_unit_enum, deserialize_seq, deserialize_map, new_nel, run_visitor, next_field,
  next_element, next_entry,
}
use rusftp.Wire.Decoder.Reads.{ReadsAt, Reads, decode_bytes-counted, decode_uint-append}
use rusftp.Wire.Decoder.Sequences.{SeqReads, element-eq-ok}

-- A variant is read by its number.
pub Reads-unit_enum :
    {A : Type 0} (rest : List ℕ) (name : String) (variants : List String)
    (variant_of : ℕ → Option A) (n : ℕ) {a : A}
    → n < 2 ^ 32
    → variant_of n ≡ some a
    → Reads rest (deserialize_unit_enum name variants variant_of) (put_be 4 n) a
unfolding deserialize_unit_enum set_field ◌>>=◌
Reads-unit_enum rest name variants variant_of n fits e field = record {
  after = nth_field variants n;
  reads = rw (◌>>=◌, decode_uint-append name rest 4 n fits) (unfold set_field in rw e);
}

module _ {A : Type 0} (seed : De A) (buf : List ℕ) (field : String) where
  -- The end of a counted sequence, …
  pub next_element_done :
      next_element seed (record {
        decoder = record { buf = buf; current_field = field };
        fields = [];
        nel = some zero;
      })
      ≡ ok (
        none,
        record { decoder = record { buf = buf; current_field = "" }; fields = []; nel = some zero },
      )
  unfolding next_element next_field
  next_element_done = refl

  -- … and an element of it.
  pub next_element-some :
      (n : ℕ) {a : A} {d : Decoder}
      → seed (record { buf = buf; current_field = "" }) ≡ ok (a, d)
      → next_element seed (record {
        decoder = record { buf = buf; current_field = field };
        fields = [];
        nel = some (suc n);
      })
        ≡ ok (some a, record { decoder = d; fields = []; nel = some n })
  unfolding next_element next_field ◌>>=◌ pure
  next_element-some n e = rw (
    ◌>>=◌,
    element-eq-ok seed (some n)
        (record {
          decoder = record { buf = buf; current_field = "" };
          fields = [];
          nel = some (suc n);
        })
        e,
  )

-- A map without a count ends with the buffer, …
pub next_entry_done :
    {A B : Type 0} (key : De A) (value : De B) (field : String)
    → next_entry key value
        (record { decoder = record { buf = []; current_field = field }; fields = []; nel = none })
      ≡ ok (
        none,
        record { decoder = record { buf = []; current_field = "" }; fields = []; nel = none },
      )
unfolding next_entry next_element next_field ◌>>=◌
next_entry_done key value field = refl

next_element_rest :
    {A : Type 0} (seed : De A) (buf : List ℕ) (field : String) {a : A} {d : Decoder}
    → (length buf == 0) ≡ false
    → seed (record { buf = buf; current_field = "" }) ≡ ok (a, d)
    → next_element seed
        (record { decoder = record { buf = buf; current_field = field }; fields = []; nel = none })
      ≡ ok (some a, record { decoder = d; fields = []; nel = none })
unfolding next_element next_field ◌>>=◌ pure
next_element_rest seed buf field nonempty e = rw nonempty (
    rw (
      ◌>>=◌,
      element-eq-ok seed none
          (record { decoder = record { buf = buf; current_field = "" }; fields = []; nel = none })
          e,
    ))

counted-append-nonempty : (k rest : List ℕ) → (length (counted k ++ rest) == 0) ≡ false
counted-append-nonempty k rest = ground (
  arith,
  length-append (counted k) rest,
  length-append (put_be 4 (length k)) k,
  length-put_be 4 (length k),
)

-- … and gives the pairs of byte strings in it.
pub next_entry_bytes :
    (k v rest : List ℕ) (field : String)
    → length k < 2 ^ 32
    → length v < 2 ^ 32
    → next_entry decode_bytes decode_bytes (record {
      decoder = record { buf = counted k ++ (counted v ++ rest); current_field = field };
      fields = [];
      nel = none;
    })
      ≡ ok (
        some (k, v),
        record { decoder = record { buf = rest; current_field = "" }; fields = []; nel = none },
      )
unfolding next_entry ◌>>=◌ pure
next_entry_bytes k v rest field fk fv =
    rw
      (
        ◌>>=◌,
        next_element_rest decode_bytes (counted k ++ (counted v ++ rest)) field
            (counted-append-nonempty k (counted v ++ rest))
            (decode_bytes-counted "" (counted v ++ rest) k (unfold has_length in refl) fk),
      )
      (rw (
        ◌>>=◌,
        element-eq-ok decode_bytes none
            (record {
              decoder = record { buf = counted v ++ rest; current_field = "" };
              fields = [];
              nel = none;
            })
            (decode_bytes-counted "" rest v (unfold has_length in refl) fv),
      ))

module _ {A : Type 0} (visitor : SeqM A) (a : A) (rest : List ℕ) where
  -- A sequence under a name that asks for its count.
  pub Reads-seq :
      (name : String) (n : ℕ) (bs : List ℕ)
      → has_length name ≡ true
      → n < 2 ^ 32
      → SeqReads [] (some n) rest visitor bs a
      → ReadsAt name rest (deserialize_seq visitor) (put_be 4 n ++ bs) a
  unfolding deserialize_seq set_field ◌>>=◌
  Reads-seq name n bs named fits s =
      let t = s.at "" in
      record {
        after = t.0;
        reads =
            rw (append_assoc (put_be 4 n) bs rest)
              (rw (◌>>=◌, counted_nel) (unfold set_field in rw (run_visitor, t.3)));
      }
    where
      counted_nel :
          new_nel (record { buf = put_be 4 n ++ (bs ++ rest); current_field = name })
          ≡ ok (some n, record { buf = bs ++ rest; current_field = name })
      counted_nel =
          unfold new_nel decode_length decode_u32 pure in
          rw named (rw (◌>>=◌, decode_uint-append name (bs ++ rest) 4 n fits))

  -- A map under a name that leaves the count out.
  pub Reads-implicit_map :
      (name : String) (bs : List ℕ)
      → has_length name ≡ false
      → SeqReads [] none rest visitor bs a
      → ReadsAt name rest (deserialize_map visitor) bs a
  unfolding deserialize_map set_field ◌>>=◌
  Reads-implicit_map name bs bare s =
      let t = s.at "" in
      record { after = t.0; reads = rw (◌>>=◌, no_nel) (unfold set_field in rw (run_visitor, t.3)) }
    where
      no_nel :
          new_nel (record { buf = bs ++ rest; current_field = name })
          ≡ ok (none, record { buf = bs ++ rest; current_field = name })
      no_nel = unfold new_nel decode_length in rw bare
