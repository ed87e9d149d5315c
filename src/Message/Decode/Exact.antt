-- ===== src/Message/Decode/Exact.antt =====
-- `Message::decode_raw`, src/message/mod.rs, accepts the packets of the protocol and nothing else.
use rusftp.Prelude.{
  ℕ, ◌^◌, ◌<◌, ◌≤◌, ◌≡◌, ◌↔◌, refl, sym, ap, ◌∙◌, Bool, true, false, Bool-cases, inl, inr, [], ◌++◌,
  append_assoc, append-nil, none, some, Option-cases, Result, ok, err, length, length-append, ◌==◌,
  if◌then◌else◌, arith, All, pure, ◌>>=◌,
}
use rusftp.Wire.Error.{Error, no_value}
use rusftp.Wire.Bytes.{IsByte, put_be}
use rusftp.Wire.Encoder.{u32_max}
use rusftp.Wire.Decoder.{Decoder, SeqAccess, new, decode_u8, decode_u32, deserialize_unit, required}
use rusftp.Wire.Decoder.Bounds.{Gives, Gives-pure, Gives-bind, IsBuf, IsAccess}
use rusftp.Wire.Decoder.Bounds.Sequences.{deserialize_unit-Gives, required-Gives}
use rusftp.Wire.Decoder.Growth.Sequences.{IsAt}
use rusftp.Wire.Decoder.Consumes.{bind-ok, All-left, decode_u8-Takes, decode_u32-Takes}
use rusftp.Wire.Decoder.Consumes.Sequences.{required-Visits, tuple-ok}
use rusftp.Message.Types.{Bytes, Message}
use rusftp.Message.Kind.{MessageKind, kind, code, kind_of_code, kind_of_code_iff}
use rusftp.Message.Format
use rusftp.Message.Valid.{IsValid, EndsPacket}
use rusftp.Message.Deserialize.{value}
use rusftp.Message.Deserialize.Growth.Value.{is_bounded}
use rusftp.Message.Deserialize.Consumes.Value.{value-Takes, unbounded-kind}
use rusftp.Message.Decode.{
  DecodeError, content_of, without_id, with_id, id_and_content, deserialize_with_id, decode_raw,
  error_id, error_kind,
}
use rusftp.Message.Decode.RoundTrip.{id_back, decode_raw-packet}
use rusftp.Message.Decode.Typed.{decode_raw-IsValid}
use rusftp.Message.Decode.Prefix.{packet-type, behind_type-id}

-- What is left of a short buffer of bytes is one.
IsBuf-left : (bs : Bytes) (d d' : Decoder) → d.buf ≡ bs ++ d'.buf → IsBuf d → IsBuf d'
IsBuf-left bs d d' e (bytes, short) = (
  (All-left IsByte bs d'.buf (rw (e) at bytes)).1,
  omega (arith, ap length e, length-append bs d'.buf, short),
)

-- The content of a message by its kind.
content-exact :
    (k : MessageKind) (m : Message) (s t : SeqAccess)
    → IsAt [] (some 1) s
    → IsBuf s.decoder
    → is_bounded (kind m) ≡ true
    → content_of (some k) s ≡ ok (m, t)
    → (kind m ≡ k) × (s.decoder.buf ≡ Format.body m ++ t.decoder.buf)
unfolding content_of
content-exact k m s t at is bounded e = elim (Bool-cases (is_bounded k)) [
  | inl counted ↦
      let (bs, (body, same), took, q) =
        required-Visits (value k) [] 0 (λ d h. tt) (value-Takes k counted) no_value s m t at is.0
          e in
      (same, took ∙ ap (λ l. l ++ t.decoder.buf) body)
  | inr open_ended ↦
      let same = (required-Gives no_value (value k) (unbounded-kind k open_ended) s m t is e).1 in
      let other : true ≡ false = sym bounded ∙ ap is_bounded same ∙ open_ended in cc other
]

-- No content has an unknown kind.
unknown-kind : {A : Type 0} (m : Message) (s t : SeqAccess) → content_of none s ≡ ok (m, t) → A
unfolding content_of
unknown-kind m s t e = cc e

glued : {l bs u p q : Bytes} → l ≡ bs ++ u → bs ≡ p → u ≡ q → l ≡ p ++ q
glued {u = u} {p} took put body = took ∙ ap (λ b. b ++ u) put ∙ ap (λ v. p ++ v) body

content_of-exact :
    (c : ℕ) (m : Message) (s t : SeqAccess)
    → IsAt [] (some 1) s
    → IsBuf s.decoder
    → is_bounded (kind m) ≡ true
    → content_of (kind_of_code c) s ≡ ok (m, t)
    → (code (kind m) ≡ c) × (s.decoder.buf ≡ Format.body m ++ t.decoder.buf)
content_of-exact c m s t at is bounded e = elim (Option-cases (kind_of_code c)) [
  | inl unknown ↦ unknown-kind m s t (rw (unknown) at e)
  | inr (k, known) ↦
      let (of_kind, body) = content-exact k m s t at is bounded (rw (known) at e) in
      (ap code of_kind ∙ (kind_of_code_iff c k).0 known, body)
]

with_id-exact :
    (c id : ℕ) (m : Message) (s t : SeqAccess)
    → IsAt [] (some 2) s
    → IsBuf s.decoder
    → is_bounded (kind m) ≡ true
    → with_id c s ≡ ok ((id, m), t)
    → (code (kind m) ≡ c) × (s.decoder.buf ≡ put_be 4 id ++ (Format.body m ++ t.decoder.buf))
unfolding with_id pure
with_id-exact c id m s t at is bounded e =
    let (i, u, first, second) = bind-ok (required no_value decode_u32) _ s (id, m) t e in
    let (bs, put, took, at') =
      required-Visits decode_u32 [] 1 (λ d h. tt) decode_u32-Takes no_value s i u at is.0 first in
    let (n, v, third, fourth) = bind-ok (content_of (kind_of_code c)) _ u (id, m) t second in
    let same_id : i ≡ id = cc fourth in
    let (of_code, body) =
      content_of-exact c m u t at' (IsBuf-left bs s.decoder u.decoder took is) bounded
        (cc (third, fourth)) in
    (of_code, glued took (put ∙ ap (put_be 4) same_id) body)

-- INIT and VERSION are given by their codes only.
without_id-kind :
    (k : MessageKind)
    → is_bounded k ≡ false
    → Gives IsAccess (λ (q : ℕ × Message). kind q.1 ≡ k) (without_id k)
unfolding without_id
without_id-kind k h =
    Gives-bind _ _ (required-Gives no_value deserialize_unit deserialize_unit-Gives) λ u t.
      Gives-bind _ _ (required-Gives no_value (value k) (unbounded-kind k h))
        λ m p. Gives-pure IsAccess (λ (q : ℕ × Message). kind q.1 ≡ k) (0, m) p

id_and_content-exact :
    (c id : ℕ) (m : Message) (s t : SeqAccess)
    → IsAt [] (some 2) s
    → IsBuf s.decoder
    → is_bounded (kind m) ≡ true
    → id_and_content c s ≡ ok ((id, m), t)
    → (code (kind m) ≡ c) × (s.decoder.buf ≡ put_be 4 id ++ (Format.body m ++ t.decoder.buf))
unfolding id_and_content is_bounded
id_and_content-exact c id m s t at is bounded e = go (c == 1) (c == 2) e
  where
    without :
        (k : MessageKind)
        → is_bounded k ≡ false
        → without_id k s ≡ ok ((id, m), t)
        → (code (kind m) ≡ c) × (s.decoder.buf ≡ put_be 4 id ++ (Format.body m ++ t.decoder.buf))
    without k open_ended f =
        let other : true ≡ false =
          sym bounded
          ∙ ap is_bounded (without_id-kind k open_ended s (id, m) t is f).1
          ∙ open_ended in
        cc other

    go :
        (first second : Bool)
        → (if first
              then without_id MessageKind.init
              else if second
              then without_id MessageKind.version
              else with_id c)
            s
          ≡ ok ((id, m), t)
        → (code (kind m) ≡ c) × (s.decoder.buf ≡ put_be 4 id ++ (Format.body m ++ t.decoder.buf))
    go true second f = without MessageKind.init refl f
    go false true f = without MessageKind.version refl f
    go false false f = with_id-exact c id m s t at is bounded f

-- The pieces are a packet and what is left.
packet-pieces :
    (id : ℕ) (m : Message) (tail : Bytes)
    → is_bounded (kind m) ≡ true
    → put_be 1 (code (kind m)) ++ (put_be 4 id ++ (Format.body m ++ tail))
      ≡ Format.packet id m ++ tail
packet-pieces id m tail bounded =
    rw
      (
        packet-type id m,
        behind_type-id id m bounded,
        append-nil (Format.body m),
        append_assoc (put_be 1 (code (kind m))) (put_be 4 id ++ Format.body m) tail,
        append_assoc (put_be 4 id) (Format.body m) tail,
      )
      refl

-- The bytes are a packet and what is left.
deserialize-exact :
    (buf : Bytes) (id : ℕ) (m : Message) (d : Decoder)
    → IsBuf (new buf)
    → is_bounded (kind m) ≡ true
    → deserialize_with_id (new buf) ≡ ok ((id, m), d)
    → buf ≡ Format.packet id m ++ d.buf
unfolding deserialize_with_id new
deserialize-exact buf id m d is bounded e =
    let (t, given, end) =
      tuple-ok 3 (required no_value decode_u8 >>= id_and_content) _ (id, m) d e in
    let (c, s, first, second) =
      bind-ok (required no_value decode_u8) id_and_content _ (id, m) t given in
    let (bs, put, took, at) =
      required-Visits decode_u8 [] 2 (λ d h. tt) decode_u8-Takes no_value _ c s (refl, refl) is.0
        first in
    let (same, body) =
      id_and_content-exact c id m s t at (IsBuf-left bs (new buf) s.decoder took is) bounded
        second in
    glued took (put ∙ ap (put_be 1) (sym same))
      (body ∙ ap (λ (f : Decoder). put_be 4 id ++ (Format.body m ++ f.buf)) end)
    ∙ packet-pieces id m d.buf bounded

-- What `decode_raw` accepts is what `deserialize_with_id` gives.
accepted :
    (buf : Bytes) (q : ℕ × Message)
    → decode_raw buf ≡ ok q
    → (d : Decoder) × (deserialize_with_id (new buf) ≡ ok (q, d))
unfolding decode_raw
accepted buf q e = go (deserialize_with_id (new buf)) refl e
  where
    go :
        (r : Result ((ℕ × Message) × Decoder) Error)
        → deserialize_with_id (new buf) ≡ r
        → (elim r as (λ _. Result (ℕ × Message) DecodeError) [
          | ok (p, d) ↦ ok p
          | err x ↦ err (record { inner = x; id = error_id buf; kind = error_kind buf })
        ])
          ≡ ok q
        → (d : Decoder) × (deserialize_with_id (new buf) ≡ ok (q, d))
    go (ok (p, d)) there e = let same : p ≡ q = cc e in (d, there ∙ ap (λ c. ok (c, d)) same)
    go (err x) there e = cc e

-- A bounded message ends its packet whatever follows, and has its id in it.
bounded-EndsPacket : (m : Message) (rest : Bytes) → is_bounded (kind m) ≡ true → EndsPacket m rest
unfolding is_bounded kind
bounded-EndsPacket (Message.init m) rest bounded = cc bounded
bounded-EndsPacket (Message.version m) rest bounded = cc bounded
bounded-EndsPacket (Message.extended m) rest bounded = cc bounded
bounded-EndsPacket (Message.extended_reply m) rest bounded = cc bounded
bounded-EndsPacket _ rest bounded = tt

bounded-id_back : (id : ℕ) (m : Message) → is_bounded (kind m) ≡ true → id_back id m ≡ id
unfolding is_bounded kind id_back
bounded-id_back id (Message.init m) bounded = cc bounded
bounded-id_back id (Message.version m) bounded = cc bounded
bounded-id_back id _ bounded = refl

-- Of any bytes, at most 2 ^ 32 - 1, and any message whose last field has its length in front (none of INIT,
-- VERSION, EXTENDED and EXTENDED_REPLY): `decode_raw` gives an id and this message exactly if the id has 32
-- bits, the parts of the message fit their types, and the bytes are the packet of both and any others
-- behind it. So no other bytes are read as this message.
pub decode_raw_iff :
    (buf : Bytes) (id : ℕ) (m : Message)
    → All IsByte buf
    → length buf ≤ u32_max
    → is_bounded (kind m) ≡ true
    → (decode_raw buf ≡ ok (id, m))
      ↔ ((id < 2 ^ 32) × IsValid m × ((rest : Bytes) × (buf ≡ Format.packet id m ++ rest)))
decode_raw_iff buf id m bytes short bounded = (
  λ e.
      let (d, given) = accepted buf (id, m) e in
      let (fits, valid) = decode_raw-IsValid buf id m bytes short e in
      (
        fits,
        valid,
        (d.buf, deserialize-exact buf id m d (unfold new in (bytes, short)) bounded given),
      ),
  λ (fits, valid, (rest, whole)). rw (whole) (
      decode_raw-packet id m rest fits valid (bounded-EndsPacket m rest bounded)
      ∙ ap (λ i. ok (i, m)) (bounded-id_back id m bounded)),
)
