-- ===== src/Examples/Typing.antt =====
-- A packet at concrete bytes.
use rusftp.Prelude.{
  ◌^◌, ◌<◌, ◌≡◌, refl, [], ◌∷◌, ok, err, some, take, ltb, true, Bool, All, ◌&&◌, ◌↔◌, ◌++◌, concat,
  arith,
}
use rusftp.Wire.Bytes.{put_be, IsByte}
use rusftp.Wire.Utf8.{is_utf8}
use rusftp.Message.Types.{Bytes, Message, status_ok}
use rusftp.Message.Format
use rusftp.Message.Valid.{IsValid}
use rusftp.Message.Decode.{decode_raw}
use rusftp.Wire.Error.{not_enough_data}
use rusftp.Message.Kind.{MessageKind, kind}
use rusftp.Message.Deserialize.Growth.Value.{is_bounded}
use rusftp.Message.Decode.Exact.{decode_raw_iff}
use rusftp.Message.Decode.Prefix.{decode_raw-cut}
use rusftp.Message.Decode.RoundTrip.{id_back, decode_raw-packet}
use rusftp.Message.Decode.Typed.{decode_raw-IsValid}

abbrev reply : Message
reply = Message.status (record { code = status_ok; error = []; language = [] })

abbrev received : Bytes
received = 101 ∷ 0 ∷ 0 ∷ 0 ∷ 7 ∷ 0 ∷ 0 ∷ 0 ∷ 0 ∷ 0 ∷ 0 ∷ 0 ∷ 0 ∷ 0 ∷ 0 ∷ 0 ∷ 0 ∷ []

received-decode_raw : decode_raw received ≡ ok (7, reply)
unfolding Format.packet Format.packet_type Format.packet_id Format.body put_be concat id_back
    is_utf8 Format.status_number
received-decode_raw =
    decode_raw-packet 7 reply [] (omega arith) ((omega arith, refl), (omega arith, refl)) tt

-- The test of a list of bytes.
abbrev all_bytes : Bytes → Bool
all_bytes [] = true
all_bytes (b ∷ bs) = ltb b 256 && all_bytes bs

all_bytes-IsByte : (bs : Bytes) → all_bytes bs ≡ true → All IsByte bs
all_bytes-IsByte [] e = tt
all_bytes-IsByte (b ∷ bs) e = (ground (arith, e), all_bytes-IsByte bs (ground (arith, e)))

decode_raw-IsValid_example : (7 < 2 ^ 32) × IsValid reply
decode_raw-IsValid_example =
    decode_raw-IsValid received 7 reply (all_bytes-IsByte received refl) (omega arith)
      received-decode_raw

decode_raw_iff_example :
    (decode_raw received ≡ ok (7, reply))
    ↔ ((7 < 2 ^ 32) × IsValid reply × ((rest : Bytes) × (received ≡ Format.packet 7 reply ++ rest)))
unfolding kind is_bounded
decode_raw_iff_example =
    decode_raw_iff received 7 reply (all_bytes-IsByte received refl) (omega arith) refl

-- The reply, cut behind its first eight bytes.
decode_raw-cut_example :
    decode_raw (take 8 (Format.packet 7 reply))
    ≡ err (record { inner = not_enough_data; id = some 7; kind = some MessageKind.status })
unfolding Format.packet Format.packet_type Format.packet_id Format.body put_be concat is_utf8
    Format.status_number kind is_bounded
decode_raw-cut_example =
    decode_raw-cut reply 7 8 (omega arith) ((omega arith, refl), (omega arith, refl)) refl
      (omega arith)
