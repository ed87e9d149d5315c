-- ===== src/Wire/Decoder/Reads.antt =====
-- What a deserializer takes from the front of the buffer, with a rule for each method.
use rusftp.Prelude.{
  ℕ, ◌^◌, ◌<◌, ◌≡◌, refl, true, false, String, List, [], ◌++◌, append_assoc, append-nil, length,
  length-append, take-append, drop-append, take-length, drop-length, arith, pure, ◌>>=◌, ok, le→ltb,
}
use rusftp.Wire.Bytes.{put_be, length-put_be, get_be-put_be}
use rusftp.Wire.Utf8.{is_utf8}
use rusftp.Wire.Field.{has_length}
use rusftp.Wire.Decoder.{
  De, decode_length, set_field, decode_uint, decode_u8, decode_u32, decode_u64, take_bytes,
  read_length, decode_bytes, check_utf8, decode_str, deserialize_unit, deserialize_newtype_struct,
}
use rusftp.Wire.Encoder.Lengths.{counted}

-- With `field` as the current field, `d` takes `bs` from the front, leaves `rest` and gives `a`.
pub record ReadsAt {A : Type 0} (field : String) (rest : List ℕ) (d : De A) (bs : List ℕ) (a : A)
    : Type 0 where
  pub after : String
  pub reads :
      d (record { buf = bs ++ rest; current_field = field })
      ≡ ok (a, record { buf = rest; current_field = after })

abbrev pub Reads : {A : Type 0} → List ℕ → De A → List ℕ → A → Type 0
Reads rest d bs a = (field : String) → ReadsAt field rest d bs a

pub decode_uint-append :
    (field : String) (rest : List ℕ) (size v : ℕ)
    → v < 256 ^ size
    → decode_uint size (record { buf = put_be size v ++ rest; current_field = field })
      ≡ ok (v, record { buf = rest; current_field = field })
unfolding decode_uint
decode_uint-append field rest size v fits =
    rw
      (le→ltb (length (put_be size v ++ rest)) size
        (omega (arith, length-append (put_be size v) rest, length-put_be size v)))
      (rw (take-append (put_be size v) rest (length-put_be size v)) (
        rw (drop-append (put_be size v) rest (length-put_be size v))
          (rw (get_be-put_be size v fits))))

pub ReadsAt-uint :
    (field : String) (rest : List ℕ) (size v : ℕ)
    → v < 256 ^ size
    → ReadsAt field rest (decode_uint size) (put_be size v) v
ReadsAt-uint field rest size v fits = record {
  after = field;
  reads = decode_uint-append field rest size v fits;
}

pub Reads-u8 : (rest : List ℕ) (v : ℕ) → v < 256 → Reads rest decode_u8 (put_be 1 v) v
unfolding decode_u8
Reads-u8 rest v fits field = ReadsAt-uint field rest 1 v fits

pub Reads-u32 : (rest : List ℕ) (v : ℕ) → v < 2 ^ 32 → Reads rest decode_u32 (put_be 4 v) v
unfolding decode_u32
Reads-u32 rest v fits field = ReadsAt-uint field rest 4 v fits

pub Reads-u64 : (rest : List ℕ) (v : ℕ) → v < 2 ^ 64 → Reads rest decode_u64 (put_be 8 v) v
unfolding decode_u64
Reads-u64 rest v fits field = ReadsAt-uint field rest 8 v fits

take_bytes-append :
    (v rest : List ℕ) (field : String)
    → take_bytes (length v) (record { buf = v ++ rest; current_field = field })
      ≡ ok (v, record { buf = rest; current_field = field })
unfolding take_bytes
take_bytes-append v rest field =
    rw (le→ltb (length (v ++ rest)) (length v) (omega (arith, length-append v rest)))
      (rw (take-append v rest refl) (rw (drop-append v rest refl)))

-- The length of a byte string, where the field's name asks for it.
read_length_counted :
    (field : String) (rest : List ℕ) (n : ℕ)
    → has_length field ≡ true
    → n < 2 ^ 32
    → read_length (record { buf = put_be 4 n ++ rest; current_field = field })
      ≡ ok (n, record { buf = rest; current_field = field })
unfolding read_length decode_length decode_u32
read_length_counted field rest n named fits = rw named (decode_uint-append field rest 4 n fits)

pub decode_bytes-counted :
    (field : String) (rest v : List ℕ)
    → has_length field ≡ true
    → length v < 2 ^ 32
    → decode_bytes (record { buf = counted v ++ rest; current_field = field })
      ≡ ok (v, record { buf = rest; current_field = field })
unfolding decode_bytes ◌>>=◌
decode_bytes-counted field rest v named fits = rw append_assoc (
    rw (◌>>=◌, read_length_counted field (v ++ rest) (length v) named fits)
      (take_bytes-append v rest field))

pub ReadsAt-bytes :
    (field : String) (rest v : List ℕ)
    → has_length field ≡ true
    → length v < 2 ^ 32
    → ReadsAt field rest decode_bytes (counted v) v
ReadsAt-bytes field rest v named fits = record {
  after = field;
  reads = decode_bytes-counted field rest v named fits;
}

pub ReadsAt-str :
    (field : String) (rest v : List ℕ)
    → has_length field ≡ true
    → length v < 2 ^ 32
    → is_utf8 v ≡ true
    → ReadsAt field rest decode_str (counted v) v
unfolding decode_str ◌>>=◌
ReadsAt-str field rest v named fits text = record {
  after = field;
  reads = rw (◌>>=◌, decode_bytes-counted field rest v named fits) (unfold check_utf8 in rw text);
}

read_length_bare :
    (field : String) (buf : List ℕ)
    → has_length field ≡ false
    → read_length (record { buf = buf; current_field = field })
      ≡ ok (length buf, record { buf = buf; current_field = field })
unfolding read_length decode_length
read_length_bare field buf bare = rw bare

take_bytes_all :
    (v : List ℕ) (field : String)
    → take_bytes (length v) (record { buf = v; current_field = field })
      ≡ ok (v, record { buf = []; current_field = field })
unfolding take_bytes
take_bytes_all v field =
    rw (le→ltb (length v) (length v) (omega arith)) (rw (take-length v) (rw (drop-length v)))

-- Under the other names a byte string takes all that is left.
pub ReadsAt-implicit_bytes :
    (field : String) (v : List ℕ) → has_length field ≡ false → ReadsAt field [] decode_bytes v v
unfolding decode_bytes ◌>>=◌
ReadsAt-implicit_bytes field v bare = record {
  after = field;
  reads = rw append-nil (rw (◌>>=◌, read_length_bare field v bare) (take_bytes_all v field));
}

pub Reads-newtype :
    {A : Type 0} {rest : List ℕ} {d : De A} {bs : List ℕ} {a : A} (name : String)
    → ReadsAt name rest d bs a
    → Reads rest (deserialize_newtype_struct name d) bs a
unfolding deserialize_newtype_struct set_field ◌>>=◌
Reads-newtype name r field = record { after = r.after; reads = r.reads }

pub Reads-unit : (rest : List ℕ) → Reads rest deserialize_unit [] tt
unfolding deserialize_unit pure
Reads-unit rest field = record { after = field; reads = refl }

-- The value of a deserializer, changed.
pub ReadsAt-map :
    {A B : Type 0} (f : A → B) {field : String} {rest : List ℕ} {d : De A} {bs : List ℕ} {a : A}
    → ReadsAt field rest d bs a
    → ReadsAt field rest (d >>= λ x. pure (f x)) bs (f a)
unfolding ◌>>=◌ pure
ReadsAt-map f r = record { after = r.after; reads = rw (◌>>=◌, r.reads) }
