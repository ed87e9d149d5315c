-- ===== src/Examples/Commanding.antt =====
-- Paths, commands and the handshake at concrete inputs.
use rusftp.Prelude.{
  ℕ, ◌+◌, ◌≡◌, ◌↔◌, refl, true, List, [], ◌∷◌, concat, some, ok, err, arith, ◌==◌, if◌then◌else◌,
}
use rusftp.Wire.Bytes.{put_be}
use rusftp.Message.Types.{
  FilePath, Handle, NameEntry, no_attrs, Message, StatusCode, status_ok, eof, failure, Version,
}
use rusftp.Message.Kind.{MessageKind}
use rusftp.Message.Format
use rusftp.Message.Join.{div, div_assign, join, push_separator, last}
use rusftp.Message.Join.Laws.{div_monoid}
use rusftp.Client.Error.{text, sftp}
use rusftp.Client.Future.{SftpClient, sent}
use rusftp.Client.Request.{is_accepted}
use rusftp.Client.Request.Protocol.{answers, expected_reply, is_accepted-eq}
use rusftp.Client.Commands.Readdir.{Peer, readdir}
use rusftp.Client.Commands.Readdir.Listing.{readdir-Lists, readdir-fails}
use rusftp.Client.Receiver.{Stream, pending}
use rusftp.Client.Connect.{Source, start_session, with_stream}
use rusftp.Client.Connect.Handshake.{with_stream_iff}

abbrev abc : FilePath
abc = record { text = text "abc" }

abbrev under_root : FilePath
under_root = record { text = text "/def" }

abbrev def_path : FilePath
def_path = record { text = text "def" }

-- Tests of the repository.
div_relative : div abc def_path ≡ record { text = text "abc/def" }
unfolding div div_assign join push_separator last
div_relative = refl

div_absolute : div abc under_root ≡ under_root
unfolding div div_assign join
div_absolute = refl

div_monoid_example :
    (div (div abc def_path) abc ≡ div abc (div def_path abc))
    × (div (record { text = [] }) abc ≡ abc)
    × (div abc (record { text = [] }) ≡ abc)
div_monoid_example = div_monoid abc def_path abc

is_accepted_example :
    is_accepted MessageKind.read (Message.content (record { bytes = 1 ∷ [] }))
    ≡ answers (expected_reply MessageKind.read) (Message.content (record { bytes = 1 ∷ [] }))
is_accepted_example = is_accepted-eq MessageKind.read (Message.content (record { bytes = 1 ∷ [] }))

abbrev connected : SftpClient
connected = record { commands = true; request_processor = true; receiving = true; closed_text = [] }

abbrev the_handle : Handle
the_handle = record { bytes = 5 ∷ [] }

abbrev entry : ℕ → NameEntry
entry n = record { filename = record { text = n ∷ [] }; long_name = []; attrs = no_attrs }

abbrev status_of : StatusCode → Message
status_of c = Message.status (record { code = c; error = []; language = [] })

-- A server whose state counts the requests: a directory of three entries in two chunks, and then
-- the given status.
abbrev listing_peer : StatusCode → Peer ℕ
listing_peer end = record {
  answer = λ m s. (
    sent (
        ok (
          if s == 0
          then Message.handle the_handle
          else if s == 1
          then Message.name (record { entries = entry 97 ∷ entry 98 ∷ [] })
          else if s == 2
          then Message.name (record { entries = entry 99 ∷ [] })
          else if s == 3
          then status_of end
          else status_of status_ok)),
    s + 1,
  );
}

abbrev chunks : List (List NameEntry)
chunks = (entry 97 ∷ entry 98 ∷ []) ∷ (entry 99 ∷ []) ∷ []

readdir-Lists_example :
    readdir 10 (listing_peer eof) connected abc 0
    ≡ (some (ok (record { entries = concat chunks })), 5)
readdir-Lists_example =
    readdir-Lists (listing_peer eof) connected refl refl abc the_handle chunks 10 0 1 3 4 5
      (record { code = eof; error = []; language = [] })
      (record { code = status_ok; error = []; language = [] }) refl (2, refl, (3, refl, refl)) refl
      refl refl refl (omega arith)

readdir-fails_example :
    readdir 10 (listing_peer failure) connected abc 0
    ≡ (some (err (sftp (record { code = failure; error = []; language = [] }))), 5)
readdir-fails_example =
    readdir-fails (listing_peer failure) connected refl refl abc the_handle chunks 10 0 1 3 4 5
      (record { code = failure; error = []; language = [] })
      (record { code = status_ok; error = []; language = [] }) refl (2, refl, (3, refl, refl)) refl
      (λ e. cc e) refl (omega arith)

-- A stream that takes what is written, and brings the frame of VERSION 3.
abbrev version_three : Message
version_three = Message.version (record { version = 3; extensions = [] })

abbrev sink : Stream ℕ
sink = record { poll_read = λ room s. (pending, s); write_all = λ bytes s. (ok tt, s) }

abbrev greeting : Source ℕ
greeting = record {
  read_exact = λ n s. (ok (if s == 0 then 0 ∷ 0 ∷ 0 ∷ 5 ∷ [] else 2 ∷ 0 ∷ 0 ∷ 0 ∷ 3 ∷ []), s + 1);
}

with_stream_example :
    (with_stream [] sink greeting 0 ≡ (ok (start_session [] 2), 2))
    ↔ ((w : Version) × (version_three ≡ Message.version w) × (w.version ≡ 3))
unfolding Format.packet Format.packet_type Format.packet_id Format.body Format.extensions put_be
    concat
with_stream_example =
    with_stream_iff [] sink greeting 3 version_three 0 0 1 2 (omega arith)
      (omega arith, (omega arith, tt, tt)) (omega arith) refl refl refl
