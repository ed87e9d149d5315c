-- ===== src/Client/Connect/Handshake.antt =====
-- Which servers `SftpClient::with_stream`, src/client/mod.rs, connects to.
use rusftp.Prelude.{
  ℕ, ◌^◌, ◌<◌, ◌≡◌, ◌↔◌, refl, ap, sym, ◌∙◌, [], ◌∷◌, ok, length, concat, arith, append-nil,
}
use rusftp.Wire.Bytes.{put_be, get_be-put_be}
use rusftp.Message.Types.{Bytes, Message, Version}
use rusftp.Message.Format
use rusftp.Message.Valid.{IsValid}
use rusftp.Message.Encode.{encode}
use rusftp.Message.Encode.Frame.{encode-frame}
use rusftp.Message.Decode.{decode_raw}
use rusftp.Message.Decode.RoundTrip.{id_back, ends, decode_raw-packet}
use rusftp.Client.Receiver.{Stream, write_msg}
use rusftp.Client.Connect.{
  Source, decoded, read_body, read_msg, hello, start_session, check_version, after_hello,
  with_stream,
}

-- INIT is sent without an id, as the nine bytes of its frame.
hello-frame : encode hello 3 ≡ ok (0 ∷ 0 ∷ 0 ∷ 5 ∷ 1 ∷ 0 ∷ 0 ∷ 0 ∷ 3 ∷ [])
unfolding Format.frame Format.packet Format.packet_type Format.packet_id Format.body
    Format.extensions put_be concat
hello-frame = encode-frame hello 3 (omega arith, (omega arith, tt, tt)) (omega arith)

module _ {S : Type 0} (closed_text : Bytes) (stream : Stream S) (source : Source S) where
  read_msg-packet :
      (id : ℕ) (m : Message) (s t u : S)
      → id < 2 ^ 32
      → IsValid m
      → length (Format.packet id m) < 2 ^ 32
      → source.read_exact 4 s ≡ (ok (put_be 4 (length (Format.packet id m))), t)
      → source.read_exact (length (Format.packet id m)) t ≡ (ok (Format.packet id m), u)
      → read_msg source s ≡ (ok (id_back id m, m), u)
  unfolding read_msg read_body decoded
  read_msg-packet id m s t u fits valid short first second =
      rw
        (
          read_msg,
          first,
          get_be-put_be 4 (length (Format.packet id m)) short,
          second,
          ap decode_raw (sym (append-nil (Format.packet id m)))
              ∙ decode_raw-packet id m [] fits valid (ends m),
        )
        refl

  with_stream-packet :
      (id : ℕ) (m : Message) (s t u v : S)
      → id < 2 ^ 32
      → IsValid m
      → length (Format.packet id m) < 2 ^ 32
      → stream.write_all (0 ∷ 0 ∷ 0 ∷ 5 ∷ 1 ∷ 0 ∷ 0 ∷ 0 ∷ 3 ∷ []) s ≡ (ok tt, t)
      → source.read_exact 4 t ≡ (ok (put_be 4 (length (Format.packet id m))), u)
      → source.read_exact (length (Format.packet id m)) u ≡ (ok (Format.packet id m), v)
      → with_stream closed_text stream source s
        ≡ check_version closed_text (ok (id_back id m, m), v)
  unfolding with_stream after_hello write_msg
  with_stream-packet id m s t u v fits valid short sends first second =
      rw
        (
          with_stream,
          write_msg,
          hello-frame,
          sends,
          after_hello,
          read_msg-packet id m t u v fits valid short first second,
        )
        refl

  check_version_iff :
      (id : ℕ) (m : Message) (v : S)
      → (check_version closed_text (ok (id, m), v) ≡ (ok (start_session closed_text v), v))
        ↔ ((w : Version) × (m ≡ Message.version w) × (w.version ≡ 3))
  check_version_iff id m v = (there m, λ (w, e, three). rw (e) (back w three))
    where
      back :
          (w : Version)
          → w.version ≡ 3
          → check_version closed_text (ok (id, Message.version w), v)
            ≡ (ok (start_session closed_text v), v)
      back w three = unfold check_version in ground arith

      there :
          (m : Message)
          → check_version closed_text (ok (id, m), v) ≡ (ok (start_session closed_text v), v)
          → (w : Version) × (m ≡ Message.version w) × (w.version ≡ 3)
      there (Message.version w) e = (w, refl, unfold check_version in ground arith)
      there _ e = unfold check_version in cc e

  -- The stream takes the frame of INIT with version 3, and what is read then is the frame of a
  -- message whose parts fit their types, with an id of 32 bits: `with_stream` connects, with a client
  -- that runs and a receiver at its start, exactly if that message is a VERSION with version 3.
  pub with_stream_iff :
      (id : ℕ) (m : Message) (s t u v : S)
      → id < 2 ^ 32
      → IsValid m
      → length (Format.packet id m) < 2 ^ 32
      → stream.write_all (0 ∷ 0 ∷ 0 ∷ 5 ∷ 1 ∷ 0 ∷ 0 ∷ 0 ∷ 3 ∷ []) s ≡ (ok tt, t)
      → source.read_exact 4 t ≡ (ok (put_be 4 (length (Format.packet id m))), u)
      → source.read_exact (length (Format.packet id m)) u ≡ (ok (Format.packet id m), v)
      → (with_stream closed_text stream source s ≡ (ok (start_session closed_text v), v))
        ↔ ((w : Version) × (m ≡ Message.version w) × (w.version ≡ 3))
  with_stream_iff id m s t u v fits valid short sends first second =
      rw (with_stream-packet id m s t u v fits valid short sends first second)
        (check_version_iff (id_back id m) m v)
