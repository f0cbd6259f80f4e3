-- ===== src/Mpsse.antt =====
-- The functions of mpsse.c: the MPSSE engine of the FTDI chip, driven through libftdi.
pub mod Frames
pub mod Session
pub mod Failures
pub mod Traffic
pub mod Start
pub mod Trace
mod Tests
use ice9_api.Prelude.{
  ℕ, zero, suc, ◌+◌, ◌-◌, ◌/◌, ◌%◌, Bool, true, false, not, ◌&&◌, List, [], ◌∷◌, ◌++◌, take, drop,
  Option, none, some, ℤ, pos, done, blocked, pure, ◌>>=◌, ◌>>◌, if◌then◌else◌, is_pos, is_negative,
  bit_or, ◌==◌,
}
use ice9_api.Ftdi.{
  FtdiInterface, interface_a, interface_b, interface_c, interface_d, FtdiCall, FtdiReply, Mpsse,
  Ftdi, init, usb_open_string, usb_reset, usb_purge_buffers, get_latency_timer, disable_bitbang,
  usb_close, deinit, set_interface, usb_open, set_latency_timer, set_bitmode, write_data, read_data,
  usleep, log_call, ftdi_call, ftdi_do, get_state, set_state, exit_with, cmd_byte, mc_setb_low,
  mc_readb_low, mc_readb_high, mc_set_clk_div, mc_tck_d5, mc_clk_n, mc_clk_n8, mc_data_in,
  mc_data_out, mc_data_bits, mc_data_ocn,
}

-- `while (1)` up to the first read that gives no byte.
pub mpsse_check_rx : Ftdi (Unit {0})
mpsse_check_rx [] s = blocked (log_call (read_data 1) s)
mpsse_check_rx (r ∷ rs) s = elim (is_negative r.ret) [
  | true ↦ done tt rs (log_call (read_data 1) s)
  | false ↦ elim (is_pos r.ret 0) [
    | true ↦ done tt rs (log_call (read_data 1) s)
    | false ↦ mpsse_check_rx rs (log_call (read_data 1) s)
  ]
]

-- It does not return.
pub mpsse_error {ℓ} : {A : Type ℓ} → ℕ → Ftdi A
mpsse_error status = do
  mpsse_check_rx
  s ← get_state
  if s.is_open
      then ((if s.latency_set then ftdi_do (set_latency_timer s.latency) else pure tt)
          >> ftdi_do usb_close)
      else pure tt
  ftdi_do deinit
  exit_with status

-- `while (1)` up to the first read that gives a byte.
pub mpsse_recv_byte : Ftdi ℕ
mpsse_recv_byte [] s = blocked (log_call (read_data 1) s)
mpsse_recv_byte (r ∷ rs) s = elim (is_negative r.ret) [
  | true ↦ mpsse_error 2 rs (log_call (read_data 1) s)
  | false ↦ elim (is_pos r.ret 1) [
    | true ↦ done r.byte rs (log_call (read_data 1) s)
    | false ↦ mpsse_recv_byte rs (log_call (usleep 100) (log_call (read_data 1) s))
  ]
]

-- A write whose result is not the number of its bytes ends the program.
abbrev pub write_all : List ℕ → ℕ → Ftdi (Unit {0})
write_all bytes n = do
  r ← ftdi_call (write_data bytes)
  if is_pos r.ret n then pure tt else mpsse_error 2

pub mpsse_send_byte : ℕ → Ftdi (Unit {0})
mpsse_send_byte byte = write_all (byte ∷ []) 1

-- The command byte, and the two bytes of `n - 1`.
abbrev send_header : ℕ → ℕ → Ftdi (Unit {0})
send_header command n = do
  mpsse_send_byte command
  mpsse_send_byte ((n - 1) % 256)
  mpsse_send_byte ((n - 1) / 256 % 256)

pub mpsse_send_spi : List ℕ → ℕ → Ftdi (Unit {0})
mpsse_send_spi bytes n =
    if n == 0
    then pure tt
    else (send_header (bit_or mc_data_out mc_data_ocn) n >> write_all (take n bytes) n)

-- `for (int i = 0; i < n; i++) data[i] = mpsse_recv_byte();`
pub recv_bytes : ℕ → Ftdi (List ℕ)
recv_bytes zero = pure []
recv_bytes (suc n) = do byte ← mpsse_recv_byte; rest ← recv_bytes n; pure (byte ∷ rest)

-- What `data` holds afterwards.
pub mpsse_xfer_spi : List ℕ → ℕ → Ftdi (List ℕ)
mpsse_xfer_spi bytes n = if n == 0 then pure bytes else (do
  send_header (bit_or mc_data_in (bit_or mc_data_out mc_data_ocn)) n
  write_all (take n bytes) n
  received ← recv_bytes n
  pure (received ++ drop n bytes))

pub mpsse_xfer_spi_bits : ℕ → ℕ → Ftdi ℕ
mpsse_xfer_spi_bits byte n = if n == 0 then pure 0 else (do
  mpsse_send_byte (bit_or mc_data_in (bit_or mc_data_out (bit_or mc_data_ocn mc_data_bits)))
  mpsse_send_byte ((n - 1) % 256)
  mpsse_send_byte byte
  mpsse_recv_byte)

pub mpsse_set_gpio : ℕ → ℕ → Ftdi (Unit {0})
mpsse_set_gpio gpio direction = do
  mpsse_send_byte (cmd_byte mc_setb_low)
  mpsse_send_byte gpio
  mpsse_send_byte direction

pub mpsse_readb_low : Ftdi ℕ
mpsse_readb_low = do mpsse_send_byte (cmd_byte mc_readb_low); mpsse_recv_byte

pub mpsse_readb_high : Ftdi ℕ
mpsse_readb_high = do mpsse_send_byte (cmd_byte mc_readb_high); mpsse_recv_byte

-- `n - 1` for 0 is 255 in a byte.
pub mpsse_send_dummy_bytes : ℕ → Ftdi (Unit {0})
mpsse_send_dummy_bytes n = do
  mpsse_send_byte (cmd_byte mc_clk_n8)
  mpsse_send_byte ((n + 255) % 256)
  mpsse_send_byte 0x00

pub mpsse_send_dummy_bit : Ftdi (Unit {0})
mpsse_send_dummy_bit = do mpsse_send_byte (cmd_byte mc_clk_n); mpsse_send_byte 0x00

-- The `switch` of `mpsse_init`.
abbrev pub interface_of : ℕ → FtdiInterface
interface_of ifnum =
    if ifnum == 0
    then interface_a
    else if ifnum == 1
    then interface_b
    else if ifnum == 2
    then interface_c
    else if ifnum == 3
    then interface_d
    else interface_a

-- A call whose result, if it is not 0, ends the program.
abbrev require_zero : FtdiCall → Ftdi (Unit {0})
require_zero c = do r ← ftdi_call c; if is_pos r.ret 0 then pure tt else mpsse_error 2

-- A call whose result, if it is negative, ends the program.
abbrev require_not_negative : FtdiCall → Ftdi FtdiReply
require_not_negative c = do r ← ftdi_call c; if is_negative r.ret then mpsse_error 2 else pure r

abbrev usb_open_device : Bool → Ftdi (Unit {0})
usb_open_device true = require_zero usb_open_string
usb_open_device false = do
  r ← ftdi_call (usb_open 0x0403 0x6010)
  if is_pos r.ret 0 then pure tt else require_zero (usb_open 0x0403 0x6014)

-- The divisor of the clock's frequency.
abbrev set_clock : Bool → Ftdi (Unit {0})
set_clock slow_clock = do
  mpsse_send_byte (cmd_byte mc_tck_d5)
  mpsse_send_byte (cmd_byte mc_set_clk_div)
  mpsse_send_byte (if slow_clock then 119 else 0x00)
  mpsse_send_byte 0x00

-- `devstr` is whether a device string is given.
pub mpsse_init : (ifnum : ℕ) (devstr slow_clock : Bool) → Ftdi (Unit {0})
mpsse_init ifnum devstr slow_clock = do
  ftdi_do init
  ftdi_do (set_interface (interface_of ifnum))
  usb_open_device devstr
  set_state (λ s. record s { is_open = true })
  require_zero usb_reset
  require_zero usb_purge_buffers
  r ← require_not_negative get_latency_timer
  set_state (λ s. record s { latency = r.byte })
  require_not_negative (set_latency_timer 1)
  set_state (λ s. record s { latency_set = true })
  require_not_negative (set_bitmode 0xff)
  set_clock slow_clock

pub mpsse_close : Ftdi (Unit {0})
mpsse_close = do
  s ← get_state
  ftdi_do (set_latency_timer s.latency)
  ftdi_do disable_bitbang
  ftdi_do usb_close
  ftdi_do deinit
