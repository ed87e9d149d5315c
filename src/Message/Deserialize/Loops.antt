-- ===== src/Message/Deserialize/Loops.antt =====
-- The loops over the entries of a NAME and over the extensions of INIT and VERSION.
use Prim.Native.Nat.{Ordering}
use rusftp.Prelude.{
  ℕ, zero, suc, ◌^◌, ◌≤◌, ◌<◌, ◌≡◌, refl, List, [], ◌∷◌, ◌++◌, map, none, some, length,
  length-append, concat, All, All-append, append_assoc, append-nil, arith, pure, ◌>>=◌,
}
use rusftp.Wire.Bytes.{put_be, length-put_be}
use rusftp.Wire.Field.{has_length}
use rusftp.Wire.Encoder.Lengths.{counted}
use rusftp.Wire.Decoder.Reads.{ReadsAt, Reads, Reads-newtype, ReadsAt-map}
use rusftp.Wire.Decoder.Sequences.{SeqReads}
use rusftp.Wire.Decoder.Loops.{
  next_element_done, next_element-some, next_entry_done, next_entry_bytes, Reads-seq,
  Reads-implicit_map,
}
use rusftp.Message.Types.{Bytes, Extensions, NameEntry, Name}
use rusftp.Message.Format
use rusftp.Message.Valid.{Fits, IsEntry, IsExtensions}
use rusftp.Message.Extensions.{
  insert-last, compare_bytes, compare_bytes-flip, AllAfter, AllBefore, IsSorted,
}
use rusftp.Message.Deserialize.{name_entry, elements_loop, entries_loop, extensions, name}
use rusftp.Message.Deserialize.Layout.{name_entry-Reads}

-- The elements of a counted sequence are read in order, if the fuel exceeds their number.
elements_loop-SeqReads :
    (l : List NameEntry) (fuel : ℕ) (rest : Bytes)
    → length l < fuel
    → All IsEntry l
    → SeqReads []
        (some (length l))
        rest
        (elements_loop name_entry fuel)
        (concat (map Format.entry l))
        l
unfolding elements_loop ◌>>=◌ pure concat
elements_loop-SeqReads l zero rest h v = absurd (omega arith)
elements_loop-SeqReads [] (suc fuel) rest h v = record {
  at = λ field. ("", [], some 0, rw (◌>>=◌, next_element_done name_entry rest field));
}
elements_loop-SeqReads (e ∷ l) (suc fuel) rest h v = record {
  at = λ field.
      let r = name_entry-Reads (concat (map Format.entry l) ++ rest) e v.0 "" in
      let t = (elements_loop-SeqReads l fuel rest (omega arith) v.1).at r.after in
      (
        t.0,
        t.1,
        t.2,
        rw (append_assoc (Format.entry e) (concat (map Format.entry l)) rest) (
            rw
              (
                ◌>>=◌,
                next_element-some name_entry
                    (Format.entry e ++ (concat (map Format.entry l) ++ rest)) field (length l)
                    r.reads,
              )
              (rw (◌>>=◌, t.3))),
      );
}

entry-nonempty : (e : NameEntry) → 4 ≤ length (Format.entry e)
unfolding concat
entry-nonempty e = omega (
  arith,
  length-append (Format.path e.filename) (counted e.long_name ++ (Format.attributes e.attrs ++ [])),
  length-append (put_be 4 (length e.filename.text)) e.filename.text,
  length-put_be 4 (length e.filename.text),
)

nothing_before : (m : Extensions) → All (λ (e : Bytes × Bytes). AllBefore e.0 []) m
nothing_before [] = tt
nothing_before (e ∷ m) = (tt, nothing_before m)

-- Keys after `k` and after all of `done` are after all of `done` and `k`.
before-last :
    (k v : Bytes) (done m : Extensions)
    → All (λ (e : Bytes × Bytes). AllBefore e.0 done) m
    → AllAfter k m
    → All (λ (e : Bytes × Bytes). AllBefore e.0 (done ++ (k, v) ∷ [])) m
before-last k v done [] b a = tt
before-last k v done (e ∷ m) b a = (
  All-append (λ (j : Bytes × Bytes). compare_bytes e.0 j.0 ≡ Ordering.gt) done ((k, v) ∷ []) b.0
      (compare_bytes-flip k e.0 a.0, tt),
  before-last k v done m b.1 a.1,
)

-- The entries of a sorted map are inserted behind those that are there already.
entries_loop-SeqReads :
    (m : Extensions) (fuel : ℕ) (done : Extensions)
    → length m < fuel
    → IsSorted m
    → All (λ (e : Bytes × Bytes). AllBefore e.0 done) m
    → All (λ (e : Bytes × Bytes). Fits e.0 × Fits e.1) m
    → SeqReads [] none [] (entries_loop fuel done) (Format.extensions m) (done ++ m)
unfolding entries_loop ◌>>=◌ pure Format.extensions
entries_loop-SeqReads m zero done h s b f = absurd (omega arith)
entries_loop-SeqReads [] (suc fuel) done h s b f = record {
  at = λ field. ("", [], none, rw (◌>>=◌, next_entry_done _ _ field) (rw (append-nil done)));
}
entries_loop-SeqReads ((k, v) ∷ m) (suc fuel) done h s b f = record {
  at = λ field.
      let later =
        entries_loop-SeqReads m fuel (done ++ (k, v) ∷ []) (omega arith) s.1
          (before-last k v done m b.1 s.0) f.1 in
      let t = later.at "" in
      (
        t.0,
        t.1,
        t.2,
        rw (append_assoc (counted k) (counted v ++ Format.extensions m) []) (
            rw (append_assoc (counted v) (Format.extensions m) []) (
              rw
                (
                  ◌>>=◌,
                  next_entry_bytes k v (Format.extensions m ++ []) field (omega (arith, f.0.0))
                      (omega (arith, f.0.1)),
                )
                (rw (insert-last k v done b.0) (rw (← append_assoc done ((k, v) ∷ []) m) t.3)))),
      );
}

length-le-extensions : (m : Extensions) → length m ≤ length (Format.extensions m)
unfolding Format.extensions
length-le-extensions [] = omega arith
length-le-extensions ((k, v) ∷ m) = omega (
  arith,
  length-le-extensions m,
  length-append (counted k) (counted v ++ Format.extensions m),
  length-append (counted v) (Format.extensions m),
  length-append (put_be 4 (length k)) k,
  length-put_be 4 (length k),
)

pub extensions-ReadsAt :
    (m : Extensions)
    → IsExtensions m
    → ReadsAt "extensions_implicit_length" [] extensions (Format.extensions m) m
unfolding extensions has_length
extensions-ReadsAt m valid =
    Reads-implicit_map _ m [] "extensions_implicit_length" (Format.extensions m) refl (record {
      at = λ field.
          (entries_loop-SeqReads m (suc (length (Format.extensions m ++ []))) []
              (rw (append-nil (Format.extensions m)) (omega (arith, length-le-extensions m)))
              valid.2 (nothing_before m) valid.1).at
            field;
    })

length-le-entries : (l : List NameEntry) → length l ≤ length (concat (map Format.entry l))
unfolding concat
length-le-entries [] = omega arith
length-le-entries (e ∷ l) = omega (
  arith,
  length-le-entries l,
  length-append (Format.entry e) (concat (map Format.entry l)),
  entry-nonempty e,
)

pub name-Reads :
    (rest : Bytes) (n : Name)
    → length n.entries < 2 ^ 32
    → All IsEntry n.entries
    → Reads rest name (Format.u32 (length n.entries) ++ concat (map Format.entry n.entries)) n
unfolding name has_length
name-Reads rest n fits valid = Reads-newtype "Name" (
    ReadsAt-map _ (
      Reads-seq _ n.entries rest "Name" (length n.entries) (concat (map Format.entry n.entries))
        refl fits
        (record {
          at = λ field.
              (elements_loop-SeqReads n.entries
                  (suc (length (concat (map Format.entry n.entries) ++ rest))) rest
                  (omega (
                    arith,
                    length-le-entries n.entries,
                    length-append (concat (map Format.entry n.entries)) rest,
                  ))
                  valid).at
                field;
        })))
