-- ===== src/Message/Decode/Prefix.antt =====
-- `Message::decode_raw`, src/message/mod.rs, on a packet that is cut off.
use rusftp.Prelude.{
  ℕ, String, zero, suc, ◌-◌, ◌^◌, ◌<◌, ◌≡◌, refl, ap, true, [], ◌∷◌, ◌++◌, Option, none, ltb,
  lt→ltb, le→ltb, ◌==◌, if◌then◌else◌, some, ok, err, length, take, drop, length-append,
  length-take, length-drop, take-append-drop, take-append, append-nil, append_assoc, concat, arith,
}
use rusftp.Wire.Error.{no_value, not_enough_data}
use rusftp.Wire.Bytes.{put_be, length-put_be, get_be, get_be-put_be}
use rusftp.Wire.Decoder.{Decoder, new, decode_u8, decode_u32}
use rusftp.Wire.Decoder.Reads.{decode_uint-append}
use rusftp.Wire.Decoder.Growth.{
  Outcome, short, fails, gives, Steady, Steady-pure, grow, Every, decode_u32-Steady,
  decode_u8-empty,
}
use rusftp.Wire.Decoder.Growth.Sequences.{growing, IsAt, required-Steady}
use rusftp.Wire.Decoder.Growth.Visitors.{tuple_first-Steady, tuple-fails}
use rusftp.Message.Types.{Bytes, Message}
use rusftp.Message.Kind.{MessageKind, kind, code, kind_of_code, kind_of_code-code}
use rusftp.Message.Format
use rusftp.Message.Valid.{IsValid}
use rusftp.Message.Deserialize.{value}
use rusftp.Message.Deserialize.Growth.Value.{is_bounded, value-Steady}
use rusftp.Message.Encode.Frame.{code-eq-packet_type}
use rusftp.Message.Decode.{
  content_of, with_id, id_and_content, deserialize_with_id, decode_raw, error_id, error_kind,
}
use rusftp.Message.Decode.Truncated.{take-append_more}
use rusftp.Message.Decode.RoundTrip.{id_back, ends, code_fits, with_id-Reads}
use native.Mathlib.Nat.{mod-eq_of_lt}
use native.Mathlib.Decide.{dec_lt}

with_id-Steady :
    (x : Bytes) (k : MessageKind) (c : ℕ)
    → is_bounded k ≡ true
    → kind_of_code c ≡ some k
    → Steady (growing x) (IsAt [] (some 2)) (IsAt [] (some 0)) (with_id c)
unfolding with_id content_of
with_id-Steady x k c bounded e =
    required-Steady x no_value decode_u32 _ [] 1 (λ d h. tt) (decode_u32-Steady x)
      (λ id. rw (e) (
        required-Steady x no_value (value k) _ [] 0 (λ d h. tt) (value-Steady x k bounded)
          (λ m. Steady-pure (growing x) (IsAt [] (some 0)) (id, m))))

-- Neither INIT nor VERSION is bounded, so there is an id.
id_and_content-with_id :
    (k : MessageKind) → is_bounded k ≡ true → id_and_content (code k) ≡ with_id (code k)
unfolding id_and_content code is_bounded
id_and_content-with_id MessageKind.init bounded = cc bounded
id_and_content-with_id MessageKind.version bounded = cc bounded
id_and_content-with_id _ bounded = refl

decode_u8-append :
    (c : ℕ) (q : Bytes)
    → c < 256
    → decode_u8 (record { buf = put_be 1 c ++ q; current_field = "" })
      ≡ ok (c, record { buf = q; current_field = "" })
unfolding decode_u8
decode_u8-append c q fits = decode_uint-append "" q 1 c fits

-- Bytes that start with the type of a bounded message, and what they grow to.
with_id-Outcome :
    (m : Message) (q x : Bytes)
    → is_bounded (kind m) ≡ true
    → Outcome
        (grow x)
        Every
        (deserialize_with_id (new (put_be 1 (code (kind m)) ++ q)))
        (deserialize_with_id (new ((put_be 1 (code (kind m)) ++ q) ++ x)))
unfolding deserialize_with_id new
with_id-Outcome m q x bounded =
    tuple_first-Steady x no_value decode_u8 id_and_content 2 {Q = IsAt [] (some 0)}
      (put_be 1 (code (kind m)) ++ q) q (code (kind m))
      (decode_u8-append (code (kind m)) q (code_fits m))
      (rw (append_assoc (put_be 1 (code (kind m))) q x)
        (decode_u8-append (code (kind m)) (q ++ x) (code_fits m)))
      (rw (id_and_content-with_id (kind m) bounded)
        (with_id-Steady x (kind m) (code (kind m)) bounded (kind_of_code-code (kind m))))

-- No part of a packet that is followed by something is read as a whole one.
cut-short :
    (m : Message) (id : ℕ) (q x : Bytes)
    → id < 2 ^ 32
    → IsValid m
    → (q ++ x) ≡ Format.packet id m
    → 0 < length x
    → Outcome (grow x) Every (deserialize_with_id (new q)) (deserialize_with_id (new (q ++ x)))
    → deserialize_with_id (new q) ≡ err not_enough_data
unfolding grow new
cut-short m id q x fits valid whole more outcome = go outcome
  where
    after : String
    after = (with_id-Reads id m [] fits valid (ends m) "").after

    done :
        deserialize_with_id (new (q ++ x))
        ≡ ok ((id_back id m, m), record { buf = []; current_field = after })
    done = rw (whole) (
        rw (← append-nil (Format.packet id m)) (with_id-Reads id m [] fits valid (ends m) "").reads)

    the_end :
        (a : ℕ × Message) (d : Decoder)
        → deserialize_with_id (new (q ++ x)) ≡ ok (a, grow x d)
        → grow x d ≡ record { buf = []; current_field = after }
    the_end a d e = cc (e, done)

    go :
        Outcome (grow x) Every (deserialize_with_id (new q)) (deserialize_with_id (new (q ++ x)))
        → deserialize_with_id (new q) ≡ err not_enough_data
    go (short e) = e
    go (fails y e e') = cc (e', done)
    go (gives a d t e e') =
        let same : d.buf ++ x ≡ [] = ap (λ (f : Decoder). f.buf) (the_end a d e') in
        absurd (omega (arith, ap length same, length-append d.buf x, more))

-- The packet behind its type.
unfoldable pub behind_type : ℕ → Message → Bytes
behind_type id m = concat (Format.packet_id id m ∷ Format.body m ∷ [])

pub packet-type :
    (id : ℕ) (m : Message) → Format.packet id m ≡ put_be 1 (code (kind m)) ++ behind_type id m
unfolding Format.packet concat behind_type
packet-type id m = rw (code-eq-packet_type m) refl

take-packet :
    (id n : ℕ) (m : Message)
    → take (suc n) (Format.packet id m) ≡ put_be 1 (code (kind m)) ++ take n (behind_type id m)
take-packet id n m = rw (packet-type id m) (
    take-append_more (suc n) n (put_be 1 (code (kind m))) (behind_type id m)
      (omega (arith, length-put_be 1 (code (kind m)))))

cut-fails :
    (m : Message) (id n : ℕ)
    → id < 2 ^ 32
    → IsValid m
    → is_bounded (kind m) ≡ true
    → n < length (Format.packet id m)
    → deserialize_with_id (new (take n (Format.packet id m))) ≡ err not_enough_data
cut-fails m id zero fits valid bounded cut =
    unfold deserialize_with_id new in
    tuple-fails [] no_value decode_u8 id_and_content 2 [] not_enough_data (decode_u8-empty "")
cut-fails m id (suc n) fits valid bounded cut =
    let p = Format.packet id m in
    cut-short m id (take (suc n) p) (drop (suc n) p) fits valid (take-append-drop (suc n) p)
      (omega (arith, cut, length-drop (suc n) p))
      (rw (take-packet id n m)
        (with_id-Outcome m (take n (behind_type id m)) (drop (suc n) p) bounded))

pub behind_type-id :
    (id : ℕ) (m : Message)
    → is_bounded (kind m) ≡ true
    → behind_type id m ≡ put_be 4 id ++ (Format.body m ++ [])
unfolding behind_type Format.packet_id concat is_bounded kind
behind_type-id id (Message.init m) bounded = cc bounded
behind_type-id id (Message.version m) bounded = cc bounded
behind_type-id id _ bounded = refl

error_kind-cut :
    (m : Message) (r : Bytes) → error_kind (put_be 1 (code (kind m)) ++ r) ≡ some (kind m)
unfolding error_kind put_be
error_kind-cut m r = rw (mod-eq_of_lt (code_fits m)) (kind_of_code-code (kind m))

-- The id is found behind the type, once its four bytes are there.
error_id-behind :
    (c : ℕ) (r : Bytes)
    → error_id (put_be 1 c ++ r) ≡ (if ltb (length r) 4 then none else some (get_be (take 4 r)))
unfolding error_id put_be
error_id-behind c r = refl

error_id-cut :
    (c id n : ℕ) (body : Bytes)
    → id < 2 ^ 32
    → error_id (put_be 1 c ++ take n (put_be 4 id ++ body)) ≡ (if ltb n 4 then none else some id)
error_id-cut c id n body fits = elim (dec_lt n 4) [
  | yes few ↦
      rw
        (
          error_id-behind c (take n (put_be 4 id ++ body)),
          lt→ltb (length (take n (put_be 4 id ++ body))) 4
              (omega (arith, few, length-take n (put_be 4 id ++ body))),
          lt→ltb n 4 few,
        )
        refl
  | no enough ↦
      let r = put_be 4 id ++ take (n - 4) body in
      rw
        (
          take-append_more n (n - 4) (put_be 4 id) body (omega (arith, length-put_be 4 id)),
          error_id-behind c r,
          le→ltb (length r) 4
              (omega (arith, length-append (put_be 4 id) (take (n - 4) body), length-put_be 4 id)),
          take-append (put_be 4 id) (take (n - 4) body) (length-put_be 4 id),
          get_be-put_be 4 id fits,
          le→ltb n 4 (omega (arith, enough)),
        )
        refl
]

shifted :
    {A : Type 0} (n : ℕ) (o : Option A)
    → (if ltb (suc n) 5 then none else o) ≡ (if ltb n 4 then none else o)
shifted n o = ground arith

positive : {A : Type 0} (n : ℕ) (o : Option A) → (if suc n == 0 then none else o) ≡ o
positive n o = ground arith

-- Let the id have 32 bits and the parts of the message fit their types, and let it be of a kind whose
-- last field has its length in front (all but INIT, VERSION, EXTENDED and EXTENDED_REPLY). Its packet,
-- cut at any place before its end, is refused for want of data, never read as another message; and the
-- error has the type of the message once that byte has arrived, and the id once its four bytes have.
pub decode_raw-cut :
    (m : Message) (id n : ℕ)
    → id < 2 ^ 32
    → IsValid m
    → is_bounded (kind m) ≡ true
    → n < length (Format.packet id m)
    → decode_raw (take n (Format.packet id m))
      ≡ err (record {
        inner = not_enough_data;
        id = if ltb n 5 then none else some id;
        kind = if n == 0 then none else some (kind m);
      })
unfolding decode_raw
decode_raw-cut m id zero fits valid bounded cut =
    rw (decode_raw, cut-fails m id zero fits valid bounded cut) (unfold error_id error_kind in refl)
decode_raw-cut m id (suc n) fits valid bounded cut =
    rw
      (
        decode_raw,
        cut-fails m id (suc n) fits valid bounded cut,
        take-packet id n m,
        error_kind-cut m (take n (behind_type id m)),
        behind_type-id id m bounded,
        error_id-cut (code (kind m)) id n (Format.body m ++ []) fits,
        shifted n (some id),
        positive n (some (kind m)),
      )
      refl
