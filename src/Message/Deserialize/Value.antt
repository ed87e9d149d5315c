-- ===== src/Message/Deserialize/Value.antt =====
-- The content of every message is read back from its layout.
use rusftp.Prelude.{◌≡◌, refl, String, [], ◌++◌, concat, arith}
use rusftp.Wire.Decoder.{De}
use rusftp.Wire.Field.{has_length}
use rusftp.Wire.Decoder.Reads.{
  ReadsAt, Reads, Reads-u32, Reads-u64, ReadsAt-bytes, ReadsAt-str, ReadsAt-implicit_bytes,
  ReadsAt-map,
}
use rusftp.Wire.Decoder.Sequences.{SeqReads-pure, SeqReads-field, Reads-struct}
use rusftp.Message.Types.{Bytes, Message}
use rusftp.Message.Kind.{kind}
use rusftp.Message.Format
use rusftp.Message.Valid.{IsValid, EndsPacket}
use rusftp.Message.Deserialize.{value}
use rusftp.Message.Deserialize.Layout.{
  path-Reads, handle-Reads, content-Reads, pflags-Reads, attrs-Reads, status_code-Reads,
}
use rusftp.Message.Deserialize.Loops.{extensions-ReadsAt, name-Reads}

-- The fields that take all that is left, where nothing follows them.
ReadsAt-at_end :
    {A : Type 0} (field : String) (rest : Bytes) (d : De A) (bs : Bytes) (a : A)
    → rest ≡ []
    → ReadsAt field [] d bs a
    → ReadsAt field (concat [] ++ rest) d bs a
unfolding concat
ReadsAt-at_end field rest d bs a e r = rw e r

pub value-Reads :
    (m : Message) (rest : Bytes)
    → IsValid m
    → EndsPacket m rest
    → Reads rest (value (kind m)) (Format.body m) m
unfolding value kind Format.body has_length
value-Reads (Message.init m) rest h e = Reads-struct "Init" _ (
    SeqReads-field _ rest _ _ _ _ _ m.version _ "version" _ (Reads-u32 _ m.version h.0 "version") (
      SeqReads-field _ rest _ _ _ _ _ m.extensions _ "extensions_implicit_length" _
        (ReadsAt-at_end _ rest _ _ _ e (extensions-ReadsAt m.extensions h.1))
        (SeqReads-pure _ _ rest _)))
value-Reads (Message.version m) rest h e = Reads-struct "Version" _ (
    SeqReads-field _ rest _ _ _ _ _ m.version _ "version" _ (Reads-u32 _ m.version h.0 "version") (
      SeqReads-field _ rest _ _ _ _ _ m.extensions _ "extensions_implicit_length" _
        (ReadsAt-at_end _ rest _ _ _ e (extensions-ReadsAt m.extensions h.1))
        (SeqReads-pure _ _ rest _)))
value-Reads (Message.open_ m) rest h e = Reads-struct "Open" _ (
    SeqReads-field _ rest _ _ _ _ _ m.filename _ "filename" _
      (path-Reads _ m.filename h.0 "filename")
      (SeqReads-field _ rest _ _ _ _ _ m.pflags _ "pflags" _ (pflags-Reads _ m.pflags h.1 "pflags")
        (SeqReads-field _ rest _ _ _ _ _ m.attrs _ "attrs" _ (attrs-Reads _ m.attrs h.2 "attrs")
          (SeqReads-pure _ _ rest _))))
value-Reads (Message.close m) rest h e = Reads-struct "Close" _ (
    SeqReads-field _ rest _ _ _ _ _ m.handle _ "handle" _ (handle-Reads _ m.handle h "handle")
      (SeqReads-pure _ _ rest _))
value-Reads (Message.read m) rest h e = Reads-struct "Read" _ (
    SeqReads-field _ rest _ _ _ _ _ m.handle _ "handle" _ (handle-Reads _ m.handle h.0 "handle") (
      SeqReads-field _ rest _ _ _ _ _ m.offset _ "offset" _ (Reads-u64 _ m.offset h.1 "offset") (
        SeqReads-field _ rest _ _ _ _ _ m.length _ "length" _ (Reads-u32 _ m.length h.2 "length")
          (SeqReads-pure _ _ rest _))))
value-Reads (Message.write m) rest h e = Reads-struct "Write" _ (
    SeqReads-field _ rest _ _ _ _ _ m.handle _ "handle" _ (handle-Reads _ m.handle h.0 "handle") (
      SeqReads-field _ rest _ _ _ _ _ m.offset _ "offset" _ (Reads-u64 _ m.offset h.1 "offset") (
        SeqReads-field _ rest _ _ _ _ _ m.payload _ "data" _ (content-Reads _ m.payload h.2 "data")
          (SeqReads-pure _ _ rest _))))
value-Reads (Message.lstat m) rest h e = Reads-struct "LStat" _ (
    SeqReads-field _ rest _ _ _ _ _ m.path _ "path" _ (path-Reads _ m.path h "path")
      (SeqReads-pure _ _ rest _))
value-Reads (Message.fstat m) rest h e = Reads-struct "FStat" _ (
    SeqReads-field _ rest _ _ _ _ _ m.handle _ "handle" _ (handle-Reads _ m.handle h "handle")
      (SeqReads-pure _ _ rest _))
value-Reads (Message.setstat m) rest h e = Reads-struct "SetStat" _ (
    SeqReads-field _ rest _ _ _ _ _ m.path _ "path" _ (path-Reads _ m.path h.0 "path") (
      SeqReads-field _ rest _ _ _ _ _ m.attrs _ "attrs" _ (attrs-Reads _ m.attrs h.1 "attrs")
        (SeqReads-pure _ _ rest _)))
value-Reads (Message.fsetstat m) rest h e = Reads-struct "FSetStat" _ (
    SeqReads-field _ rest _ _ _ _ _ m.handle _ "handle" _ (handle-Reads _ m.handle h.0 "handle") (
      SeqReads-field _ rest _ _ _ _ _ m.attrs _ "attrs" _ (attrs-Reads _ m.attrs h.1 "attrs")
        (SeqReads-pure _ _ rest _)))
value-Reads (Message.opendir m) rest h e = Reads-struct "OpenDir" _ (
    SeqReads-field _ rest _ _ _ _ _ m.path _ "path" _ (path-Reads _ m.path h "path")
      (SeqReads-pure _ _ rest _))
value-Reads (Message.readdir m) rest h e = Reads-struct "ReadDir" _ (
    SeqReads-field _ rest _ _ _ _ _ m.handle _ "handle" _ (handle-Reads _ m.handle h "handle")
      (SeqReads-pure _ _ rest _))
value-Reads (Message.remove m) rest h e = Reads-struct "Remove" _ (
    SeqReads-field _ rest _ _ _ _ _ m.path _ "path" _ (path-Reads _ m.path h "path")
      (SeqReads-pure _ _ rest _))
value-Reads (Message.mkdir m) rest h e = Reads-struct "MkDir" _ (
    SeqReads-field _ rest _ _ _ _ _ m.path _ "path" _ (path-Reads _ m.path h.0 "path") (
      SeqReads-field _ rest _ _ _ _ _ m.attrs _ "attrs" _ (attrs-Reads _ m.attrs h.1 "attrs")
        (SeqReads-pure _ _ rest _)))
value-Reads (Message.rmdir m) rest h e = Reads-struct "RmDir" _ (
    SeqReads-field _ rest _ _ _ _ _ m.path _ "path" _ (path-Reads _ m.path h "path")
      (SeqReads-pure _ _ rest _))
value-Reads (Message.realpath m) rest h e = Reads-struct "RealPath" _ (
    SeqReads-field _ rest _ _ _ _ _ m.path _ "path" _ (path-Reads _ m.path h "path")
      (SeqReads-pure _ _ rest _))
value-Reads (Message.stat m) rest h e = Reads-struct "Stat" _ (
    SeqReads-field _ rest _ _ _ _ _ m.path _ "path" _ (path-Reads _ m.path h "path")
      (SeqReads-pure _ _ rest _))
value-Reads (Message.rename m) rest h e = Reads-struct "Rename" _ (
    SeqReads-field _ rest _ _ _ _ _ m.old_path _ "old_path" _
      (path-Reads _ m.old_path h.0 "old_path")
      (SeqReads-field _ rest _ _ _ _ _ m.new_path _ "new_path" _
        (path-Reads _ m.new_path h.1 "new_path") (SeqReads-pure _ _ rest _)))
value-Reads (Message.readlink m) rest h e = Reads-struct "ReadLink" _ (
    SeqReads-field _ rest _ _ _ _ _ m.path _ "path" _ (path-Reads _ m.path h "path")
      (SeqReads-pure _ _ rest _))
value-Reads (Message.symlink m) rest h e = Reads-struct "Symlink" _ (
    SeqReads-field _ rest _ _ _ _ _ m.link_path _ "link_path" _
      (path-Reads _ m.link_path h.0 "link_path")
      (SeqReads-field _ rest _ _ _ _ _ m.target_path _ "target_path" _
        (path-Reads _ m.target_path h.1 "target_path") (SeqReads-pure _ _ rest _)))
value-Reads (Message.status m) rest h e = Reads-struct "Status" _ (
    SeqReads-field _ rest _ _ _ _ _ m.code _ "code" _ (status_code-Reads _ m.code "code") (
      SeqReads-field _ rest _ _ _ _ _ m.error _ "error" _
        (ReadsAt-str "error" _ m.error refl (omega (arith, h.0.0)) h.0.1)
        (SeqReads-field _ rest _ _ _ _ _ m.language _ "language" _
          (ReadsAt-str "language" _ m.language refl (omega (arith, h.1.0)) h.1.1)
          (SeqReads-pure _ _ rest _))))
value-Reads (Message.extended m) rest h e = Reads-struct "Extended" _ (
    SeqReads-field _ rest _ _ _ _ _ m.request _ "request" _
      (ReadsAt-bytes "request" _ m.request refl (omega (arith, h.0)))
      (SeqReads-field _ rest _ _ _ _ _ m.payload _ "data_implicit_length" _
        (ReadsAt-at_end _ rest _ _ _ e
          (ReadsAt-implicit_bytes "data_implicit_length" m.payload refl))
        (SeqReads-pure _ _ rest _)))
value-Reads (Message.extended_reply m) rest h e = Reads-struct "ExtendedReply" _ (
    SeqReads-field _ rest _ _ _ _ _ m.payload _ "data_implicit_length" _
      (ReadsAt-at_end _ rest _ _ _ e (ReadsAt-implicit_bytes "data_implicit_length" m.payload refl))
      (SeqReads-pure _ _ rest _))
value-Reads (Message.handle m) rest h e = λ field. ReadsAt-map _ (handle-Reads rest m h field)
value-Reads (Message.content m) rest h e = λ field. ReadsAt-map _ (content-Reads rest m h field)
value-Reads (Message.name m) rest h e =
    λ field. ReadsAt-map _ (name-Reads rest m (omega (arith, h.0)) h.1 field)
value-Reads (Message.attrs m) rest h e = λ field. ReadsAt-map _ (attrs-Reads rest m h field)
