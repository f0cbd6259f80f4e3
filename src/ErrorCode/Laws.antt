-- ===== src/ErrorCode/Laws.antt =====
-- The messages tell the error codes apart.
use Prim.Native.String.{String}
use text.Mathlib.Text.{◌==◌ as str_eq}
use ice9_api.Prelude.{
  ◌≡◌, refl, Bool, true, false, Option, none, some, List, [], ◌∷◌, if◌then◌else◌,
}
use ice9_api.ErrorCode.{Ice9Error, ice9_error_string}

abbrev pub all_codes : List Ice9Error
all_codes =
    Ice9Error.ok ∷ Ice9Error.error ∷ Ice9Error.unable_to_open_bit_file
    ∷ Ice9Error.download_of_bit_file_failed ∷ Ice9Error.usb_device_not_found
    ∷ Ice9Error.unable_to_open_device ∷ Ice9Error.unable_to_claim_device ∷ Ice9Error.reset_failed
    ∷ Ice9Error.set_baudrate_failed ∷ Ice9Error.get_product_description_failed
    ∷ Ice9Error.get_serial_number_failed ∷ Ice9Error.get_device_list_from_libusb_failed
    ∷ Ice9Error.get_device_descriptor_from_libusb_failed ∷ Ice9Error.ftdi_reset_failed
    ∷ Ice9Error.usb_device_unavailable ∷ Ice9Error.unknown_interface ∷ Ice9Error.device_already_open
    ∷ Ice9Error.cannot_enable_bit_bang_mode ∷ Ice9Error.latency_value_out_of_range
    ∷ Ice9Error.unable_to_set_latency_timer ∷ Ice9Error.usb_release_failed
    ∷ Ice9Error.ftdi_context_invalid ∷ Ice9Error.libusb_io_error
    ∷ Ice9Error.libusb_invalid_parameter ∷ Ice9Error.libusb_access_denied
    ∷ Ice9Error.libusb_no_device_found ∷ Ice9Error.libusb_entity_not_found
    ∷ Ice9Error.libusb_resource_busy ∷ Ice9Error.libusb_timeout ∷ Ice9Error.libusb_overflow
    ∷ Ice9Error.libusb_pipe_error ∷ Ice9Error.libusb_interrupted
    ∷ Ice9Error.libusb_insufficient_memory ∷ Ice9Error.libusb_operation_not_supported
    ∷ Ice9Error.libusb_other_error ∷ Ice9Error.partial_write ∷ Ice9Error.no_data_available
    ∷ Ice9Error.stream_read_complete ∷ Ice9Error.ping_mismatch ∷ []

-- The first of the codes whose message is `s`.
pub search_code : String → List Ice9Error → Option Ice9Error
search_code s [] = none
search_code s (e ∷ es) = if str_eq (ice9_error_string e) s then some e else search_code s es

-- No two error codes have the same message: looking a message up among those of all codes gives
-- back the code that it was made from.
pub search_code-error_string :
    (e : Ice9Error) → search_code (ice9_error_string e) all_codes ≡ some e
unfolding search_code ice9_error_string
search_code-error_string Ice9Error.ok = refl
search_code-error_string _ = refl

abbrev pub is_stream_read_complete : Ice9Error → Bool
is_stream_read_complete Ice9Error.stream_read_complete = true
is_stream_read_complete _ = false

-- `StreamReadComplete` is the one code that has no message of its own.
pub error_string_unknown :
    (e : Ice9Error) → str_eq (ice9_error_string e) "Unknown" ≡ is_stream_read_complete e
unfolding ice9_error_string
error_string_unknown Ice9Error.ok = refl
error_string_unknown _ = refl
