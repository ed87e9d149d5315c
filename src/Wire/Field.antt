-- ===== src/Wire/Field.antt =====
-- The naming convention by which encoder and decoder leave a length out: both test whether
-- `current_field` ends in "_implicit_length" (`encode_length`, `decode_length`).
use text.Mathlib.Text.{◌==◌}
use rusftp.Prelude.{String, Bool, true, false, ◌||◌, not, ◌≡◌, refl}

-- `str::ends_with`
ends_with : String → String → Bool
ends_with String.[] t = t == ""
ends_with (String.◌∷◌ c s) t = String.◌∷◌ c s == t || ends_with s t

unfoldable pub has_length : String → Bool
unfolding ends_with
has_length field = not (ends_with field "_implicit_length")

has_length_handle : has_length "handle" ≡ true
unfolding has_length
has_length_handle = refl

has_length_data : has_length "data_implicit_length" ≡ false
unfolding has_length
has_length_data = refl
