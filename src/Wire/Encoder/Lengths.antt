-- ===== src/Wire/Encoder/Lengths.antt =====
-- Byte strings, sequences and maps: what they append depends on the field's name.
use rusftp.Prelude.{
  ℕ, ◌+◌, ◌≤◌, ◌≡◌, refl, true, false, String, List, [], ◌++◌, append-nil, append_assoc, some,
  length, length-append, arith, pure, ◌>>=◌, ◌>>◌, ok, le→leb,
}
use rusftp.Wire.Bytes.{put_be, length-put_be}
use rusftp.Wire.Field.{has_length}
use rusftp.Wire.Encoder.{
  Encoder, Ser, isize_max, u32_max, remaining_mut, encode_length, put, set_field, serialize_u32,
  put_length, serialize_bytes, serialize_newtype_struct, serialize_count, serialize_seq,
  serialize_map, serialize_field,
}
use rusftp.Wire.Encoder.Writes.{Writes, Writes-u32}

-- Under a name that asks for lengths, `s` appends `bs` and leaves the name alone.
pub record WritesCounted (s : Ser) (bs : List ℕ) : Type 0 where
  pub at :
      (e : Encoder)
      → has_length e.current_field ≡ true
      → length e.buf + length bs + 4 ≤ isize_max
      → s e ≡ ok (tt, record { buf = e.buf ++ bs; current_field = e.current_field })

-- A byte string under its 32-bit length.
abbrev pub counted : List ℕ → List ℕ
counted v = put_be 4 (length v) ++ v

length-counted : (v : List ℕ) → length (counted v) ≡ 4 + length v
length-counted v = omega (arith, length-append (put_be 4 (length v)) v, length-put_be 4 (length v))

put_length_counted :
    (n : ℕ) (e : Encoder)
    → has_length e.current_field ≡ true
    → put_length n e ≡ ok (tt, record e { buf = e.buf ++ put_be 4 n })
unfolding put_length encode_length put
put_length_counted n e named = rw named

put_length_bare :
    (n : ℕ) (e : Encoder) → has_length e.current_field ≡ false → put_length n e ≡ ok (tt, e)
unfolding put_length encode_length
put_length_bare n e bare = rw bare

serialize_count_counted :
    (n : ℕ) (e : Encoder)
    → n ≤ u32_max
    → has_length e.current_field ≡ true
    → serialize_count n e ≡ serialize_u32 n e
unfolding serialize_count encode_length
serialize_count_counted n e fits named = rw (le→leb n u32_max fits) (rw named)

serialize_count_bare :
    (n : ℕ) (e : Encoder)
    → n ≤ u32_max
    → has_length e.current_field ≡ false
    → serialize_count n e ≡ ok (tt, e)
unfolding serialize_count encode_length
serialize_count_bare n e fits bare = rw (le→leb n u32_max fits) (rw bare)

module _ (v : List ℕ) (fits : length v ≤ u32_max) where
  -- With the two tests passed, `serialize_bytes` is its two writes.
  serialize_bytes_room :
      (e : Encoder)
      → length e.buf + length v + 4 ≤ isize_max
      → serialize_bytes v e ≡ (put_length (length v) >> put v) e
  unfolding serialize_bytes
  serialize_bytes_room e room =
      rw (le→leb (length v) u32_max fits)
        (rw (le→leb (length v + 4) (remaining_mut e) (unfold remaining_mut in omega arith)))

  pub WritesCounted-bytes : WritesCounted (serialize_bytes v) (counted v)
  unfolding ◌>>=◌
  WritesCounted-bytes = record {
    at = λ e named room.
        rw (serialize_bytes_room e (omega (arith, length-counted v)))
          (rw (◌>>=◌, put_length_counted (length v) e named) (unfold put in rw append_assoc));
  }

  -- A byte string that is the last field of a message has no length in front.
  pub Writes-implicit_bytes :
      (key : String) → has_length key ≡ false → Writes (serialize_field key (serialize_bytes v)) v
  unfolding serialize_field set_field ◌>>=◌
  Writes-implicit_bytes key bare = record {
    at = λ e room. (
      key,
      rw (serialize_bytes_room (record e { current_field = key }) room) (
          rw (◌>>=◌, put_length_bare (length v) (record e { current_field = key }) bare)
            (unfold put in refl)),
    );
  }

-- The rules that lead from `WritesCounted` to `Writes` set such a name first.
module _ {s : Ser} {bs : List ℕ} (w : WritesCounted s bs) where
  pub Writes-counted_field :
      (key : String) → has_length key ≡ true → Writes (serialize_field key s) bs
  unfolding serialize_field set_field ◌>>=◌
  Writes-counted_field key named = record {
    at = λ e room. (key, w.at (record e { current_field = key }) named room);
  }

  pub Writes-counted_newtype :
      (name : String) → has_length name ≡ true → Writes (serialize_newtype_struct name s) bs
  unfolding serialize_newtype_struct set_field ◌>>=◌
  Writes-counted_newtype name named = record {
    at = λ e room. (name, w.at (record e { current_field = name }) named room);
  }

  -- An entry of a map, and those after it.
  pub WritesCounted-bind :
      {t : Ser} {cs : List ℕ} → WritesCounted t cs → WritesCounted (s >> t) (bs ++ cs)
  unfolding ◌>>=◌
  WritesCounted-bind {t} {cs} wt = record {
    at = λ e named room.
        rw (◌>>=◌, w.at e named (omega (arith, length-append bs cs)))
          (rw
            (wt.at (record e { buf = e.buf ++ bs }) named
              (omega (arith, length-append bs cs, length-append e.buf bs)))
            (rw append_assoc));
  }

  -- The map of a field whose name leaves the count out: its entries, with lengths again.
  pub Writes-implicit_map :
      (key : String) (n : ℕ)
      → has_length key ≡ false
      → n ≤ u32_max
      → Writes (serialize_field key (serialize_map (some n) >> s)) bs
  unfolding serialize_field set_field serialize_map ◌>>=◌
  Writes-implicit_map key n bare fits = record {
    at = λ e room. (
      "",
      rw (◌>>=◌, serialize_count_bare n (record e { current_field = key }) fits bare)
          (unfold set_field in
            w.at (record e { current_field = "" }) (unfold has_length in refl) room),
    );
  }

pub WritesCounted-pure : WritesCounted (pure tt) []
unfolding pure
WritesCounted-pure = record { at = λ e named room. rw append-nil }

-- A sequence under a name that asks for its count.
pub Writes-newtype_seq :
    {s : Ser} {bs : List ℕ} (name : String) (n : ℕ)
    → has_length name ≡ true
    → n ≤ u32_max
    → Writes s bs
    → Writes (serialize_newtype_struct name (serialize_seq (some n) >> s)) (put_be 4 n ++ bs)
unfolding serialize_newtype_struct set_field serialize_seq ◌>>=◌
Writes-newtype_seq {s} {bs} name n named fits w = record {
  at = λ e room.
      let named_e = record e { current_field = name } in
      let room' = length-append (put_be 4 n) bs in
      let a = (Writes-u32 n).at named_e (omega (arith, room')) in
      let b =
        w.at (record { buf = e.buf ++ put_be 4 n; current_field = "" })
          (omega (arith, room', length-append e.buf (put_be 4 n))) in
      (
        b.0,
        rw (◌>>=◌, serialize_count_counted n named_e fits named)
            (rw (◌>>=◌, a.1) (unfold set_field in rw b.1 (rw append_assoc))),
      );
}
