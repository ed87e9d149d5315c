-- ===== src/Message/Decode/RoundTrip.antt =====
-- Packets and frames are read back; `encode` and `decode` are inverse.
use rusftp.Prelude.{
  ℕ, ◌^◌, ◌<◌, ◌≡◌, refl, [], ◌∷◌, ◌++◌, some, ok, length, length-append, concat, append-nil,
  append_assoc, take-append, drop-append, le→ltb, arith,
}
use rusftp.Wire.Bytes.{put_be, length-put_be, get_be-put_be}
use rusftp.Wire.Error.{no_value}
use rusftp.Wire.Decoder.{new}
use rusftp.Wire.Decoder.Reads.{Reads, Reads-u8, Reads-u32, Reads-unit}
use rusftp.Wire.Decoder.Sequences.{
  SeqReads, SeqReads-element, SeqReads-last, SeqReads-map, Reads-tuple,
}
use rusftp.Message.Types.{Bytes, Message}
use rusftp.Message.Kind.{kind, code, kind_of_code, kind_of_code-code}
use rusftp.Message.Format
use rusftp.Message.Valid.{IsValid, EndsPacket}
use rusftp.Message.Deserialize.{value}
use rusftp.Message.Deserialize.Value.{value-Reads}
use rusftp.Message.Encode.{encode}
use rusftp.Message.Encode.Frame.{code-eq-packet_type, encode-frame}
use rusftp.Message.Decode.{
  content_of, without_id, with_id, id_and_content, deserialize_with_id, decode_raw, returned,
  decode,
}

-- The id that comes back: INIT and VERSION have none, and 0 stands for it.
unfoldable pub id_back : ℕ → Message → ℕ
id_back id (Message.init m) = 0
id_back id (Message.version m) = 0
id_back id m = id

-- The content behind the id, by the code.
content-SeqReads :
    (m : Message) (rest : Bytes)
    → IsValid m
    → EndsPacket m rest
    → SeqReads []
        (some 1)
        rest
        (content_of (kind_of_code (code (kind m))))
        (concat (Format.body m ∷ []))
        m
unfolding content_of
content-SeqReads m rest h e = rw (kind_of_code-code (kind m)) (
    SeqReads-last 0 rest no_value (value (kind m)) (Format.body m) m
      (value-Reads m (concat [] ++ rest) h (unfold concat in e) ""))

without_id-SeqReads :
    (m : Message) (rest : Bytes)
    → IsValid m
    → EndsPacket m rest
    → SeqReads [] (some 2) rest (without_id (kind m)) (concat ([] ∷ Format.body m ∷ [])) (0, m)
unfolding without_id
without_id-SeqReads m rest h e =
    SeqReads-element 1 rest _ _ _ _ _ tt (0, m) (Reads-unit _ "")
      (SeqReads-map (λ (x : Message). (0, x))
        (SeqReads-last 0 rest no_value (value (kind m)) (Format.body m) m
          (value-Reads m (concat [] ++ rest) h (unfold concat in e) "")))

with_id-SeqReads :
    (id : ℕ) (m : Message) (rest : Bytes)
    → id < 2 ^ 32
    → IsValid m
    → EndsPacket m rest
    → SeqReads []
        (some 2)
        rest
        (with_id (code (kind m)))
        (concat (Format.u32 id ∷ Format.body m ∷ []))
        (id, m)
unfolding with_id
with_id-SeqReads id m rest fits h e =
    SeqReads-element 1 rest _ _ _ _ _ id (id, m) (Reads-u32 _ id fits "")
      (SeqReads-map (λ (x : Message). (id, x)) (content-SeqReads m rest h e))

id_and_content-SeqReads :
    (id : ℕ) (m : Message) (rest : Bytes)
    → id < 2 ^ 32
    → IsValid m
    → EndsPacket m rest
    → SeqReads []
        (some 2)
        rest
        (id_and_content (code (kind m)))
        (concat (Format.packet_id id m ∷ Format.body m ∷ []))
        (id_back id m, m)
unfolding id_and_content kind code Format.packet_id id_back
id_and_content-SeqReads id (Message.init m) rest f h e =
    without_id-SeqReads (Message.init m) rest h e
id_and_content-SeqReads id (Message.version m) rest f h e =
    without_id-SeqReads (Message.version m) rest h e
id_and_content-SeqReads id m rest f h e = with_id-SeqReads id m rest f h e

pub code_fits : (m : Message) → code (kind m) < 256
unfolding kind code
code_fits (Message.init m) = omega arith
code_fits _ = omega arith

pub with_id-Reads :
    (id : ℕ) (m : Message) (rest : Bytes)
    → id < 2 ^ 32
    → IsValid m
    → EndsPacket m rest
    → Reads rest deserialize_with_id (Format.packet id m) (id_back id m, m)
unfolding deserialize_with_id Format.packet
with_id-Reads id m rest fits h e = rw (← code-eq-packet_type m) (
    Reads-tuple 3 (
      SeqReads-element 2 rest no_value _ _ _ _ (code (kind m)) _
        (Reads-u8 _ (code (kind m)) (code_fits m) "") (id_and_content-SeqReads id m rest fits h e)))

-- The packet that Message/Format lays out for an id of 32 bits and a message whose parts fit their types
-- (the keys of extensions in ascending order, as the map gives them) is read back as the id (0 for INIT
-- and VERSION) and the message, whatever bytes follow it: only after a message whose last field has no
-- length must there be none.
pub decode_raw-packet :
    (id : ℕ) (m : Message) (rest : Bytes)
    → id < 2 ^ 32
    → IsValid m
    → EndsPacket m rest
    → decode_raw (Format.packet id m ++ rest) ≡ ok (id_back id m, m)
unfolding decode_raw new
decode_raw-packet id m rest fits h e = rw ((with_id-Reads id m rest fits h e "").reads, decode_raw)

-- `decode` looks at the bytes that the length in front announces, and at no others.
decode-counted :
    (p rest : Bytes)
    → length p < 2 ^ 32
    → decode (put_be 4 (length p) ++ (p ++ rest)) ≡ returned (decode_raw p)
unfolding decode
decode-counted p rest short =
    rw
      (le→ltb (length (put_be 4 (length p) ++ (p ++ rest))) 4 (
        omega (arith, length-append (put_be 4 (length p)) (p ++ rest), length-put_be 4 (length p))))
      (rw (take-append (put_be 4 (length p)) (p ++ rest) (length-put_be 4 (length p))) (
        rw (drop-append (put_be 4 (length p)) (p ++ rest) (length-put_be 4 (length p))) (
          rw (get_be-put_be 4 (length p) short) (
            rw (le→ltb (length (p ++ rest)) (length p) (omega (arith, length-append p rest)))
              (rw (take-append p rest refl))))))

pub ends : (m : Message) → EndsPacket m []
ends (Message.init m) = refl
ends (Message.version m) = refl
ends (Message.extended m) = refl
ends (Message.extended_reply m) = refl
ends _ = tt

-- For an id of 32 bits and a message whose parts fit their types and whose packet is shorter than
-- 2 ^ 32 bytes, `encode` gives bytes that `decode` reads back as the message, with the id (0 for
-- INIT and VERSION), whatever bytes follow them.
pub decode-encode :
    (m : Message) (id : ℕ) (rest : Bytes)
    → id < 2 ^ 32
    → IsValid m
    → length (Format.packet id m) < 2 ^ 32
    → (bytes : Bytes) × (encode m id ≡ ok bytes)
      × (decode (bytes ++ rest) ≡ returned (ok (id_back id m, m)))
unfolding Format.frame
decode-encode m id rest fits h short = (
  Format.frame id m,
  encode-frame m id h short,
  rw (append_assoc (put_be 4 (length (Format.packet id m))) (Format.packet id m) rest) (
      rw (decode-counted (Format.packet id m) rest short)
        (rw (← append-nil (Format.packet id m)) (rw (decode_raw-packet id m [] fits h (ends m))))),
)
