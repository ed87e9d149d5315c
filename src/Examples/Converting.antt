-- ===== src/Examples/Converting.antt =====
-- Tests of the conversions, of `Name` as a container, of how errors print.
use rusftp.Prelude.{ℕ, ◌≡◌, refl, [], ◌∷◌, none, some, err}
use rusftp.Message.Types.{Init, Name, NameEntry, no_attrs, Message, eof, failure}
use rusftp.Message.Conversions.{
  Source, into_bytes, data_from, data_as_ref, path_from, path_as_ref, version_from, init_from,
  message_code,
}
use rusftp.Message.Kind
use rusftp.Message.Entries.{
  into_iter, from_iter, for_each_mut, as_ref, index, index_range, index_mut,
}
use rusftp.Client.Error.{
  ssh_io, ssh_other, IoKind, of_ssh_error, io_kind, display, display_status, to_status, text,
}
use rusftp.Wire.Error.{unsupported}
use rusftp.Wire.Decoder.Scalars.{deserialize_unknown}

from_text : data_as_ref (data_from (Source.of_str (text "abc"))) ≡ text "abc"
unfolding data_as_ref data_from into_bytes
from_text = refl

path_and_back : path_as_ref (path_from (text "a/b")) ≡ text "a/b"
unfolding path_as_ref path_from
path_and_back = refl

abbrev hello : Init
hello = record { version = 3; extensions = [] }

hello_and_back : init_from (version_from hello) ≡ hello
unfolding init_from version_from
hello_and_back = refl

hello_code : message_code (Message.init hello) ≡ 1
unfolding message_code Kind.code Kind.kind
hello_code = refl

abbrev entry_a : NameEntry
entry_a = record { filename = record { text = 97 ∷ [] }; long_name = []; attrs = no_attrs }

abbrev entry_b : NameEntry
entry_b = record { filename = record { text = 98 ∷ [] }; long_name = []; attrs = no_attrs }

abbrev two : Name
two = from_iter (entry_a ∷ entry_b ∷ [])

two_entries : into_iter two ≡ as_ref two
unfolding into_iter as_ref
two_entries = refl

second_entry : index two 1 ≡ some entry_b
unfolding index from_iter
second_entry = refl

-- Out of range.
no_entry : index two 2 ≡ none
unfolding index from_iter
no_entry = refl

last_entry : index_range two 1 2 ≡ some (entry_b ∷ [])
unfolding index_range from_iter
last_entry = refl

assigned : index_mut two 0 entry_b ≡ some (for_each_mut (λ e. entry_b) two)
unfolding index_mut for_each_mut from_iter
assigned = refl

-- A status prints its code, and its text if it has one.
prints_code :
    display_status (λ b. b) (record { code = eof; error = []; language = [] }) ≡ text "Eof"
unfolding display_status display
prints_code = refl

prints_text : display_status (λ b. b) (to_status failure (text "no")) ≡ text "Failure: no"
unfolding display_status display to_status
prints_text = refl

ssh_kind : io_kind (of_ssh_error (ssh_io IoKind.timed_out [])) ≡ IoKind.timed_out
unfolding io_kind of_ssh_error
ssh_kind = refl

other_kind : io_kind (of_ssh_error (ssh_other [])) ≡ IoKind.other
unfolding io_kind of_ssh_error
other_kind = refl

-- An option has no reader.
no_option : deserialize_unknown {A = ℕ} (record { buf = []; current_field = "" }) ≡ err unsupported
unfolding deserialize_unknown
no_option = refl
