-- ===== src/Wire/Error.antt =====
-- src/wire/error.rs: the errors of the wire format.
use rusftp.Prelude.{ℕ, String}

-- The value that is handed to `Error::custom`; the source keeps the text that it prints as. The
-- hand-written visitors give `no_value`, `invalid_message_type`, `invalid_attr` and
-- `missing_field`, the derived ones `invalid_length` and `invalid_variant`.
pub data CustomText : Type 0 where
  no_value invalid_message_type invalid_attr invalid_length : CustomText
  missing_field : String → CustomText
  invalid_variant : ℕ → CustomText

pub data Error : Type 0 where
  not_enough_data unsupported invalid_char : Error
  custom : CustomText → Error
