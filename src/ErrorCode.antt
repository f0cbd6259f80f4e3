-- ===== src/ErrorCode.antt =====
-- `enum Ice9Error` of ice9.h, in its order, and `ice9_error_string` of ice9.c.
pub mod Laws
mod Tests
use Prim.Native.String.{String}

pub data Ice9Error : Type 0 where
  ok error unable_to_open_bit_file download_of_bit_file_failed usb_device_not_found : Ice9Error
  unable_to_open_device unable_to_claim_device reset_failed set_baudrate_failed : Ice9Error
  get_product_description_failed get_serial_number_failed : Ice9Error
  get_device_list_from_libusb_failed get_device_descriptor_from_libusb_failed : Ice9Error
  ftdi_reset_failed usb_device_unavailable unknown_interface device_already_open : Ice9Error
  cannot_enable_bit_bang_mode latency_value_out_of_range unable_to_set_latency_timer : Ice9Error
  usb_release_failed ftdi_context_invalid libusb_io_error libusb_invalid_parameter : Ice9Error
  libusb_access_denied libusb_no_device_found libusb_entity_not_found : Ice9Error
  libusb_resource_busy libusb_timeout libusb_overflow libusb_pipe_error : Ice9Error
  libusb_interrupted libusb_insufficient_memory libusb_operation_not_supported : Ice9Error
  libusb_other_error partial_write no_data_available stream_read_complete ping_mismatch : Ice9Error

pub ice9_error_string : Ice9Error → String
ice9_error_string ok = "OK"
ice9_error_string error = "Error"
ice9_error_string unable_to_open_bit_file = "Unable to open program bitfile"
ice9_error_string download_of_bit_file_failed = "Download of bitfile to device failed"
ice9_error_string usb_device_not_found = "USB device not found"
ice9_error_string unable_to_open_device = "Unable to open device"
ice9_error_string unable_to_claim_device = "Unable to claim device"
ice9_error_string reset_failed = "Reset failed"
ice9_error_string set_baudrate_failed = "Set baudrate failed"
ice9_error_string get_product_description_failed = "Get product description failed"
ice9_error_string get_serial_number_failed = "Get serial number failed"
ice9_error_string get_device_list_from_libusb_failed = "Get device list from libusb failed"
ice9_error_string get_device_descriptor_from_libusb_failed =
    "Get device descriptor from libusb failed"
ice9_error_string ftdi_reset_failed = "FTDI Reset failed"
ice9_error_string usb_device_unavailable = "USB Device Unavailable"
ice9_error_string unknown_interface = "Unknown Interface"
ice9_error_string device_already_open = "Device already open"
ice9_error_string cannot_enable_bit_bang_mode = "Cannot enable bitbang mode"
ice9_error_string latency_value_out_of_range = "Latency value out of range"
ice9_error_string unable_to_set_latency_timer = "Unable to set latency timer"
ice9_error_string usb_release_failed = "USB release failed"
ice9_error_string ftdi_context_invalid = "Invalid handle (ftdi context or ice9 handle)"
ice9_error_string libusb_io_error = "LibUSB IO Error"
ice9_error_string libusb_invalid_parameter = "LibUSB Invalid Parameter"
ice9_error_string libusb_access_denied = "LibUSB Access Denied"
ice9_error_string libusb_no_device_found = "LibUSB No Device Found"
ice9_error_string libusb_entity_not_found = "LibUSB Entity Not Found"
ice9_error_string libusb_resource_busy = "LibUSB Resource Busy"
ice9_error_string libusb_timeout = "LibUSB Timeout"
ice9_error_string libusb_overflow = "LibUSB Overflow"
ice9_error_string libusb_pipe_error = "LibUSB Pipe Error"
ice9_error_string libusb_interrupted = "LibUSB Interrupted"
ice9_error_string libusb_insufficient_memory = "LibUSB Insufficient Memory"
ice9_error_string libusb_operation_not_supported = "LibUSB Operation Not Supported"
ice9_error_string libusb_other_error = "LibUSB Other Error"
ice9_error_string partial_write = "Partial write"
ice9_error_string no_data_available = "No Data available for read"
ice9_error_string ping_mismatch = "Ping mismatch"
ice9_error_string _ = "Unknown"
