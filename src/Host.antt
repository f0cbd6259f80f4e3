-- ===== src/Host.antt =====
-- `struct ice9_handle` of ice9.c, the variable `ecode`, and the calls of libusb.
pub mod Keeps
use ice9_api.Prelude.{
  ℕ, ◌*◌, Bool, true, false, List, [], ◌∷◌, ◌++◌, ℤ, Memory, done, blocked, Effect, pure, ◌>>=◌,
  ◌>>◌, if◌then◌else◌,
}
use ice9_api.ErrorCode.{Ice9Error, ok}
use ice9_api.Ring.{Ring}

abbrev pub bank_size : ℕ
bank_size = 1024 * 1024

-- The fields for a stream read by callbacks. `extra_data_read_pointer` is the distance from
-- `extra_data_buffer`, and `stream_data` the block that `stream_data_ptr` points to.
pub record Stream : Type 0 where
  pub stream_bytes_to_read : ℕ
  pub stream_bytes_read_so_far : ℕ
  pub stream_data : Memory
  pub extra_data_buffer : Memory
  pub extra_data_read_pointer : ℕ
  pub extra_data_bytes : ℕ

-- `device` is whether the pointer to the open device is there.
pub record Handle : Type 0 where
  pub device : Bool
  pub ring : Ring
  pub stream : Stream

-- A call of libusb, with the arguments that vary, or of `usleep`.
pub data UsbCall : Type 0 where
  init exit close : UsbCall
  open_device : ℕ → ℕ → UsbCall
  -- request type, request, value, index
  control_transfer : ℕ → ℕ → ℕ → ℕ → UsbCall
  -- endpoint, length
  bulk_in : ℕ → ℕ → UsbCall
  -- endpoint, the bytes sent
  bulk_out : ℕ → List ℕ → UsbCall
  usleep : ℕ → UsbCall

-- What a call of libusb returns. `ret` is its value (negative for the null pointer of
-- `libusb_open_device_with_vid_pid`), `bytes` what a bulk read has put into the buffer, and
-- `actual_length` what a bulk write has sent.
pub record UsbReply : Type 0 where
  pub ret : ℤ
  pub bytes : List ℕ
  pub actual_length : ℕ

-- The handle, `ecode`, and the calls made so far, the latest last.
pub record Host : Type 0 where
  pub handle : Handle
  pub ecode : Ice9Error
  pub calls : List UsbCall

abbrev pub Api {ℓ} : Type ℓ → Type ℓ
Api A = Effect UsbReply Host A

abbrev pub log_call : UsbCall → Host → Host
log_call c h = record h { calls = h.calls ++ c ∷ [] }

-- A call that returns.
abbrev pub usb_call : UsbCall → Api UsbReply
usb_call c [] h = blocked (log_call c h)
usb_call c (r ∷ rs) h = done r rs (log_call c h)

-- A call whose result nobody reads.
abbrev pub usb_do : UsbCall → Api (Unit {0})
usb_do c rs h = done tt rs (log_call c h)

abbrev pub is_ok : Ice9Error → Bool
is_ok ok = true
is_ok _ = false

abbrev pub set_ecode : Ice9Error → Api (Unit {0})
set_ecode e rs h = done tt rs (record h { ecode = e })

-- `lib_try(x); rest`, in a function whose early return of `e` is `early e`.
abbrev pub lib_try {ℓ} : {A : Type ℓ} → Api Ice9Error → (Ice9Error → A) → Api A → Api A
lib_try x early rest = do e ← x; set_ecode e; if is_ok e then rest else pure (early e)

abbrev pub set_handle : (Handle → Handle) → Api (Unit {0})
set_handle f rs h = done tt rs (record h { handle = f h.handle })
