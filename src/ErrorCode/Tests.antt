-- ===== src/ErrorCode/Tests.antt =====
-- Tests and witnesses for the messages.
use text.Mathlib.Text.{◌==◌ as str_eq}
use ice9_api.Prelude.{◌≡◌, refl, false}
use ice9_api.ErrorCode.{Ice9Error, ice9_error_string}
use ice9_api.ErrorCode.Laws.{error_string_unknown}

message : ice9_error_string Ice9Error.reset_failed ≡ "Reset failed"
unfolding ice9_error_string
message = refl

error_string_unknown_example : str_eq (ice9_error_string Ice9Error.ok) "Unknown" ≡ false
error_string_unknown_example = error_string_unknown Ice9Error.ok
