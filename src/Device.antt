-- ===== src/Device.antt =====
-- The functions of ice9.c that make, open, reset and close a handle.
pub mod Script
pub mod Reset
mod Tests
pub mod Keeps
use ice9_api.Prelude.{
  ℕ, zero, suc, ◌≡◌, ◌*◌, Bool, true, false, not, List, [], ◌∷◌, Memory, is_negative, done, pure,
  ◌>>=◌, ◌>>◌, ltb, length, fault, if◌then◌else◌, replicate,
}
use ice9_api.ErrorCode.{
  Ice9Error, ok, usb_device_not_found, reset_failed, cannot_enable_bit_bang_mode,
}
use ice9_api.Ring.{Ring, ring_buffer_size}
use ice9_api.Host.{
  Stream, Handle, Host, UsbReply, UsbCall, init, exit, close, open_device, control_transfer,
  bulk_in, bulk_out, usleep, Api, usb_call, usb_do, set_handle,
}
use ice9_api.Register.{ice9_ping_bridge}

abbrev pub ice9_vendor_id : ℕ
ice9_vendor_id = 0x3524

abbrev pub ice9_data_product_id : ℕ
ice9_data_product_id = 0x0002

-- The handle that `ice9_new` sets up.
abbrev fresh : Memory → Memory → Handle → Handle
fresh read_buffer extra_data_buffer hnd = record hnd {
  ring = record {
    read_buffer = read_buffer;
    read_buffer_size = ring_buffer_size;
    read_buffer_head = 0;
    read_buffer_tail = 0;
  };
  stream = record (hnd.stream) {
    extra_data_buffer = extra_data_buffer;
    extra_data_read_pointer = 0;
    extra_data_bytes = 0;
  };
}

-- Whether the handle is there. Before the call the handle is what `malloc` has returned, and the
-- fields that `ice9_new` does not set stay so; `read_buffer` and `extra_data_buffer` are the blocks
-- allocated for them.
unfoldable pub ice9_new : (read_buffer extra_data_buffer : Memory) → Api Bool
ice9_new read_buffer extra_data_buffer = do
  reply ← usb_call init
  if is_negative reply.ret
      then pure false
      else (set_handle (fresh read_buffer extra_data_buffer) >> pure true)

pub ice9_free : Api (Unit {0})
ice9_free = usb_do exit

unfoldable pub ice9_open : Api Ice9Error
ice9_open = do
  reply ← usb_call (open_device ice9_vendor_id ice9_data_product_id)
  set_handle (λ hnd. record hnd { device = not (is_negative reply.ret) })
  pure (if is_negative reply.ret then usb_device_not_found else ok)

pub ice9_close : Api Ice9Error
ice9_close = do usb_do close; pure ok

-- A control transfer whose failure makes the function return `code`.
abbrev pub control_or : Ice9Error → ℕ → ℕ → Api Ice9Error → Api Ice9Error
control_or code request value rest = do
  reply ← usb_call (control_transfer 0x40 request value 0)
  if is_negative reply.ret then pure code else rest

-- A bulk read into a buffer of 4096 bytes whose failure makes the function return `ResetFailed`.
abbrev pub read_or : Api Ice9Error → Api Ice9Error
read_or rest = do
  reply ← usb_call (bulk_in 0x81 4096)
  if is_negative reply.ret then pure reset_failed else rest

-- `for (i = 0; i < n; i++)` with a control transfer (0x40, 0, 1, 0) and, if `pause`, a sleep.
reset_loop : Bool → ℕ → Api Ice9Error → Api Ice9Error
reset_loop pause zero rest = rest
reset_loop pause (suc n) rest =
    control_or reset_failed 0 1
      ((if pause then usb_do (usleep 1000) else pure tt) >> reset_loop pause n rest)

pub ice9_usb_reset : Api Ice9Error
unfolding reset_loop
ice9_usb_reset =
    control_or reset_failed 0 0
      (usb_do (usleep 1000) >> reset_loop true 2 (read_or (reset_loop false 4 (pure ok))))

-- The results of the write of zeros and of the ping are not looked at.
pub ice9_fifo_mode : Api Ice9Error
ice9_fifo_mode = control_or cannot_enable_bit_bang_mode 0 2 (
    control_or cannot_enable_bit_bang_mode 11 0x00FF (
      control_or cannot_enable_bit_bang_mode 11 0x40FF
        (read_or (do usb_call (bulk_out 0x02 (replicate 4096 0)); ice9_ping_bridge 0x67; pure ok))))
