-- ===== src/Sram.antt =====
-- The configuration of the FPGA: sram_flash.c, on top of the functions of mpsse.c. `verbose` is
-- false, as the code has it; `connected_device`, which no function reads, is a result.
pub mod Chunks
pub mod File
pub mod Replies
pub mod Pins
pub mod Script
pub mod Orders
pub mod Parts
pub mod Whole
pub mod Flash
pub mod Status
pub mod CutOff
pub mod Traffic
pub mod Ends
mod Tests
use ice9_api.Prelude.{
  length, ℕ, zero, suc, ◌+◌, ◌-◌, ◌*◌, ◌%◌, ◌^◌, Bool, true, false, not, List, [], ◌∷◌, drop,
  Option, none, some, pure, fault, ◌>>=◌, ◌>>◌, if◌then◌else◌, bit_or, bit_and, ◌==◌, ltb,
}
use ice9_api.ErrorCode.{Ice9Error, ok, unable_to_open_bit_file}
use ice9_api.Ftdi.{Ftdi, usleep, ftdi_do, exit_with}
use ice9_api.Mpsse.{
  mpsse_init, mpsse_close, mpsse_send_spi, mpsse_xfer_spi, mpsse_set_gpio, mpsse_readb_low,
}
use ice9_api.Lattice.{
  LatticeCmd, opcode, read_id, lsc_read_status, lsc_refresh, isc_enable, isc_disable, isc_erase,
  lsc_bitstream_burst, lsc_reset_crc, DeviceIdPair, DeviceInfo, DeviceType, type_ecp5, type_nx,
  ecp_devices, nx_devices,
}

pub set_cs_creset : (cs_b creset_b : Bool) → Ftdi (Unit {0})
set_cs_creset cs_b creset_b =
    let gpio = if cs_b then bit_or 0 0x10 else 0 in
    mpsse_set_gpio (if creset_b then bit_or gpio 0x80 else gpio) 0x93

pub get_cdone : Ftdi Bool
get_cdone = do low ← mpsse_readb_low; pure (not (bit_and low 0x40 == 0))

pub sram_reset : Ftdi (Unit {0})
sram_reset = set_cs_creset true false

pub sram_chip_select : Ftdi (Unit {0})
sram_chip_select = set_cs_creset false true

pub sram_chip_deselect : Ftdi (Unit {0})
sram_chip_deselect = set_cs_creset true true

-- The first device of a table with this id.
abbrev search_device : DeviceType → List DeviceIdPair → ℕ → Option DeviceInfo
search_device device_type [] idcode = none
search_device device_type (d ∷ devices) idcode =
    let rest = search_device device_type devices idcode in
    if idcode == d.device_id
    then some (record { name = d.device_name; id = idcode; device_type = device_type })
    else rest

abbrev pub known_device : ℕ → Option DeviceInfo
known_device idcode = elim (search_device type_ecp5 ecp_devices idcode) [
  | some info ↦ some info
  | none ↦ search_device type_nx nx_devices idcode
]

-- An unknown id ends the program.
pub print_idcode : ℕ → Ftdi DeviceInfo
print_idcode idcode = elim (known_device idcode) [ some info ↦ pure info | none ↦ exit_with 1 ]

pub send_byte_command : ℕ → Ftdi (Unit {0})
send_byte_command cmd = mpsse_send_spi (cmd ∷ 0 ∷ 0 ∷ 0 ∷ []) 4

-- `idcode = idcode << 8 | data[i]` for each of the bytes.
abbrev pub join_bytes : ℕ → List ℕ → ℕ
join_bytes idcode [] = idcode
join_bytes idcode (byte ∷ bytes) = join_bytes (bit_or (idcode * 256 % 2 ^ 32) byte) bytes

pub read_word_reply : Ftdi ℕ
read_word_reply = do bytes ← mpsse_xfer_spi (0 ∷ 0 ∷ 0 ∷ 0 ∷ []) 4; pure (join_bytes 0 bytes)

pub sram_prepare : Ftdi (Unit {0})
sram_prepare = do
  sram_chip_select
  send_byte_command (opcode isc_enable)
  sram_chip_deselect
  sram_chip_select
  send_byte_command (opcode isc_erase)
  sram_chip_deselect
  sram_chip_select
  send_byte_command (opcode lsc_reset_crc)
  sram_chip_deselect

-- The status is only printed.
pub sram_read_status : Ftdi (Unit {0})
sram_read_status = do
  sram_chip_select
  send_byte_command (opcode lsc_read_status)
  _ ← read_word_reply
  sram_chip_deselect

pub sram_bitstream_burst : Ftdi (Unit {0})
sram_bitstream_burst = do sram_chip_select; send_byte_command (opcode lsc_bitstream_burst)

pub sram_read_id : Ftdi DeviceInfo
sram_read_id = do
  sram_chip_select
  send_byte_command (opcode read_id)
  idcode ← read_word_reply
  info ← print_idcode idcode
  sram_chip_deselect
  pure info

pub sram_refresh_fpga : Ftdi (Unit {0})
sram_refresh_fpga = do sram_chip_select; send_byte_command (opcode lsc_refresh); sram_chip_deselect

-- `while (bufsize)` of `ice9_flash_fpga_mem`; each round sends a byte or more, so `bufsize` is
-- fuel enough.
pub send_chunks : (fuel : ℕ) → List ℕ → (bufsize : ℕ) → Ftdi (Unit {0})
send_chunks zero buf zero = pure tt
send_chunks zero buf (suc bufsize) = λ rs s. fault
send_chunks (suc fuel) buf bufsize =
    let len = if ltb bufsize (16 * 1024) then bufsize else 16 * 1024 in
    let rest = send_chunks fuel (drop len buf) (bufsize - len) in
    if bufsize == 0 then pure tt else (mpsse_send_spi buf len >> rest)

-- The steps with the open device, with `connected_device`.
abbrev pub configure_board : Ftdi (Unit {0}) → Ftdi DeviceInfo
configure_board send_bitstream = do
  sram_reset
  ftdi_do (usleep 100)
  _ ← get_cdone
  sram_refresh_fpga
  info ← sram_read_id
  sram_read_status
  sram_prepare
  sram_read_status
  sram_bitstream_burst
  send_bitstream
  sram_chip_deselect
  sram_read_status
  sram_chip_select
  send_byte_command (opcode isc_disable)
  sram_chip_deselect
  mpsse_close
  ftdi_do (usleep 1000)
  pure info

-- The steps around the loop that sends the bitstream, with `connected_device`.
abbrev pub configure : Ftdi (Unit {0}) → Ftdi DeviceInfo
configure send_bitstream = do mpsse_init 0 true false; configure_board send_bitstream

-- The error code, and `connected_device`.
pub ice9_flash_fpga_mem : List ℕ → (bufsize : ℕ) → Ftdi (Ice9Error × DeviceInfo)
ice9_flash_fpga_mem buf bufsize = do
  info ← configure (send_chunks bufsize buf bufsize)
  pure (ok, info)

-- The loop of `ice9_flash_fpga`, on what its calls of `fread` return: a read of nothing, as at the
-- end of the list, ends it.
pub send_file : List (List ℕ) → Ftdi (Unit {0})
send_file [] = pure tt
send_file (buffer ∷ reads) =
    let rest = send_file reads in
    let rc = length buffer in if rc == 0 then pure tt else (mpsse_send_spi buffer rc >> rest)

-- `file` is what the reads of the opened file return, or `none` if `fopen` fails; then there is no
-- device.
pub ice9_flash_fpga : (file : Option (List (List ℕ))) → Ftdi (Ice9Error × Option DeviceInfo)
ice9_flash_fpga none = pure (unable_to_open_bit_file, none)
ice9_flash_fpga (some reads) = do info ← configure (send_file reads); pure (ok, some info)
