-- ===== src/Message/Encode/Frame.antt =====
-- `encode` writes the frame of the protocol.
use rusftp.Prelude.{
  ℕ, ◌+◌, ◌-◌, ◌%◌, ◌^◌, ◌≤◌, ◌<◌, ◌≡◌, refl, List, ◌++◌, ok, length, ◌∙◌, length-append,
  drop-append, arith,
}
use rusftp.Wire.Bytes.{put_be, length-put_be}
use native.Mathlib.Nat.{mod-eq_of_lt}
use rusftp.Wire.Encoder.{isize_max, with_vec}
use rusftp.Wire.Encoder.Writes.{
  Writes, Writes-u8, Writes-u32, Writes-none, Writes-some, Writes-elements_nil,
  Writes-elements_cons, Writes-tuple,
}
use rusftp.Message.Types.{Message}
use rusftp.Message.Kind.{kind, code}
use rusftp.Message.Format
use rusftp.Message.Valid.{IsValid}
use rusftp.Message.Serialize.Value.{value-Writes}
use rusftp.Message.Encode.{encode, id_element, serialize_with_id, write_length}

-- The codes of `messages!` are the protocol's packet types.
pub code-eq-packet_type : (m : Message) → code (kind m) ≡ Format.packet_type m
unfolding kind code Format.packet_type
code-eq-packet_type (Message.init m) = refl
code-eq-packet_type _ = refl

id_element-Writes : (id : ℕ) (m : Message) → Writes (id_element id m) (Format.packet_id id m)
unfolding id_element Format.packet_id
id_element-Writes id (Message.init m) = Writes-none
id_element-Writes id (Message.version m) = Writes-none
id_element-Writes id _ = Writes-some (Writes-u32 id)

with_id-Writes :
    (id : ℕ) (m : Message) → IsValid m → Writes (serialize_with_id id m) (Format.packet id m)
unfolding serialize_with_id Format.packet
with_id-Writes id m h = rw (← code-eq-packet_type m) (
    Writes-tuple _ (
      Writes-elements_cons _ _ (Writes-u8 (code (kind m))) (
        Writes-elements_cons _ _ (id_element-Writes id m)
          (Writes-elements_cons _ _ (value-Writes m h) Writes-elements_nil))))

write_length-append :
    (bs : List ℕ) → write_length (put_be 4 0 ++ bs) ≡ put_be 4 (length bs % 2 ^ 32) ++ bs
unfolding write_length
write_length-append bs =
    rw (drop-append (put_be 4 0) bs (length-put_be 4 0)) (rw (length_four) refl)
  where
    length_four : length (put_be 4 0 ++ bs) - 4 ≡ length bs
    length_four = omega (arith, length-append (put_be 4 0) bs, length-put_be 4 0)

-- A message whose parts fit their types, and whose packet leaves 8 bytes of the largest vector, is
-- encoded as the packet of the protocol behind its length, cast to 32 bits.
pub encode_lem :
    (m : Message) (id : ℕ)
    → IsValid m
    → length (Format.packet id m) + 8 ≤ isize_max
    → encode m id ≡ ok (put_be 4 (length (Format.packet id m) % 2 ^ 32) ++ Format.packet id m)
unfolding encode with_vec
encode_lem m id valid room =
    let w =
      (with_id-Writes id m valid).at (record { buf = put_be 4 0; current_field = "" })
        (omega (arith, length-put_be 4 0)) in
    rw w.1 (rw (write_length-append (Format.packet id m)))

-- A packet shorter than 2 ^ 32 bytes gives the frame of the protocol.
pub encode-frame :
    (m : Message) (id : ℕ)
    → IsValid m
    → length (Format.packet id m) < 2 ^ 32
    → encode m id ≡ ok (Format.frame id m)
unfolding Format.frame
encode-frame m id valid short = encode_lem m id valid (omega arith) ∙ rw (mod-eq_of_lt short)
