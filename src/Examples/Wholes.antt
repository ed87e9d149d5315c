-- ===== src/Examples/Wholes.antt =====
-- Whole files and directories at concrete servers.
use rusftp.Prelude.{
  ◌++◌, ℕ, ◌≡◌, refl, true, List, [], ◌∷◌, none, some, ok, length, drop, arith, ap, ◌∙◌,
  drop-append_length, drop-length,
}
use rusftp.Message.Types.{
  Bytes, Handle, NameEntry, no_attrs, Message, StatusCode, status_ok, eof, failure,
}
use rusftp.Client.Future.{SftpClient, waiting, ready}
use rusftp.Client.Dir.{new_dir}
use rusftp.Client.Dir.Listing.{poll_all, given}
use rusftp.Client.Dir.Whole.{Batch, repeat, slots_of, polls_of, poll_all-whole}
use rusftp.Client.File.{PendingOperation, new_file}
use rusftp.Client.File.Write.Whole.{Stores, write_whole, write_whole-Stores}
use rusftp.Client.File.Whole.{Serves, read_whole, read_whole-Serves}

abbrev connected : SftpClient
connected = record { commands = true; request_processor = true; receiving = true; closed_text = [] }

abbrev the_handle : Handle
the_handle = record { bytes = 5 ∷ [] }

abbrev status_of : StatusCode → Message
status_of c = Message.status (record { code = c; error = []; language = [] })

-- A server that gives one byte at a time.
unfoldable slowly : Bytes → Message
slowly [] = status_of eof
slowly (b ∷ rest) = Message.content (record { bytes = b ∷ [] })

unfoldable one_by_one : Bytes → Message → Message
unfolding slowly
one_by_one content (Message.read m) = slowly (drop m.offset content)
one_by_one content m = status_of failure

one_by_one-Serves : (content : Bytes) → Serves the_handle content (one_by_one content)
unfolding one_by_one
one_by_one-Serves content = record {
  more = λ before b rest n some_room split. (
    [],
    rest,
    refl,
    some_room,
    ap slowly (ap (drop (length before)) split ∙ drop-append_length before (b ∷ rest)),
  );
  done = λ n.
      (record { code = eof; error = []; language = [] }, ap slowly (drop-length content), refl);
}

abbrev three_bytes : Bytes
three_bytes = 1 ∷ 2 ∷ 3 ∷ []

read_whole-Serves_example :
    read_whole 4 8192 (one_by_one three_bytes) (new_file connected the_handle) ≡ (
      some (ok three_bytes),
      record {
        client = connected;
        handle = some the_handle;
        offset = 3;
        pending = PendingOperation.idle;
      },
    )
unfolding new_file
read_whole-Serves_example =
    read_whole-Serves (one_by_one three_bytes) the_handle 8192 three_bytes
      (one_by_one-Serves three_bytes) (omega arith) (omega arith) 4 [] three_bytes
      (new_file connected the_handle) refl refl refl refl refl refl (omega arith)

abbrev entry : ℕ → NameEntry
entry n = record { filename = record { text = n ∷ [] }; long_name = []; attrs = no_attrs }

-- Two entries after one poll in vain, a third at once, and the end.
abbrev batches : List Batch
batches =
    record { waits = 1; first = entry 97; others = entry 98 ∷ [] }
    ∷ record { waits = 0; first = entry 99; others = [] }
    ∷ []

poll_all-whole_example :
    poll_all
      (slots_of batches 0 (record { code = eof; error = []; language = [] }))
      (new_dir connected the_handle)
    ≡ (
      waiting ∷ given (entry 97) ∷ given (entry 98) ∷ given (entry 99) ∷ ready none ∷ [],
      record { client = connected; handle = some the_handle; buffer = none; pending = none },
    )
unfolding polls_of repeat new_dir
poll_all-whole_example =
    poll_all-whole the_handle batches 0 (record { code = eof; error = []; language = [] })
      (new_dir connected the_handle) refl refl refl refl refl refl

-- A server whose state is the content, and which takes all.
unfoldable storing : Message → Bytes → Message × Bytes
storing (Message.write m) content = (status_of status_ok, content ++ m.payload.bytes)
storing m content = (status_of failure, content)

storing-Stores : Stores the_handle (λ content. content) storing
unfolding storing
storing-Stores content bytes =
    (record { code = status_ok; error = []; language = [] }, content ++ bytes, refl, refl, refl)

write_whole-Stores_example :
    (t : Bytes) × (write_whole 4 storing three_bytes (new_file connected the_handle) [] ≡ (
      some (ok tt),
      record {
        client = connected;
        handle = some the_handle;
        offset = 3;
        pending = PendingOperation.idle;
      },
      t,
    ))
    × (t ≡ three_bytes)
unfolding new_file
write_whole-Stores_example =
    write_whole-Stores storing the_handle (λ content. content) storing-Stores 4 three_bytes
      (new_file connected the_handle) [] refl refl refl refl refl (omega arith) (omega arith)
