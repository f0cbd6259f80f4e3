-- ===== src/Lattice.antt =====
-- The commands of the FPGA and the known devices: lattice_cmds.h, and the device types of
-- sram_flash.c.
use ice9_api.Prelude.{ℕ, List, [], ◌∷◌}
use Prim.Native.String.{String}

pub data LatticeCmd : Type 0 where
  isc_noop read_id usercode lsc_read_status lsc_check_busy lsc_refresh : LatticeCmd
  isc_enable isc_enable_x isc_disable isc_program_usercode isc_erase : LatticeCmd
  isc_program_done isc_program_security lsc_init_address lsc_write_address : LatticeCmd
  lsc_bitstream_burst lsc_prog_incr_rti lsc_prog_incr_enc lsc_prog_incr_cmp : LatticeCmd
  lsc_prog_incr_cne lsc_verify_incr_rti lsc_prog_ctrl0 lsc_read_ctrl0 : LatticeCmd
  lsc_reset_crc lsc_read_crc lsc_prog_sed_crc lsc_read_sed_crc : LatticeCmd
  lsc_prog_password lsc_read_password lsc_shift_password lsc_prog_cipher_key : LatticeCmd
  lsc_read_cipher_key lsc_prog_feature lsc_read_feature lsc_prog_feabits : LatticeCmd
  lsc_read_feabits lsc_prog_otp lsc_read_otp : LatticeCmd

abbrev pub opcode : LatticeCmd → ℕ
opcode isc_noop = 0xFF
opcode read_id = 0xE0
opcode usercode = 0xC0
opcode lsc_read_status = 0x3C
opcode lsc_check_busy = 0xF0
opcode lsc_refresh = 0x79
opcode isc_enable = 0xC6
opcode isc_enable_x = 0x74
opcode isc_disable = 0x26
opcode isc_program_usercode = 0xC2
opcode isc_erase = 0x0E
opcode isc_program_done = 0x5E
opcode isc_program_security = 0xCE
opcode lsc_init_address = 0x46
opcode lsc_write_address = 0xB4
opcode lsc_bitstream_burst = 0x7A
opcode lsc_prog_incr_rti = 0x82
opcode lsc_prog_incr_enc = 0xB6
opcode lsc_prog_incr_cmp = 0xB8
opcode lsc_prog_incr_cne = 0xBA
opcode lsc_verify_incr_rti = 0x6A
opcode lsc_prog_ctrl0 = 0x22
opcode lsc_read_ctrl0 = 0x20
opcode lsc_reset_crc = 0x3B
opcode lsc_read_crc = 0x60
opcode lsc_prog_sed_crc = 0xA2
opcode lsc_read_sed_crc = 0xA4
opcode lsc_prog_password = 0xF1
opcode lsc_read_password = 0xF2
opcode lsc_shift_password = 0xBC
opcode lsc_prog_cipher_key = 0xF3
opcode lsc_read_cipher_key = 0xF4
opcode lsc_prog_feature = 0xE4
opcode lsc_read_feature = 0xE7
opcode lsc_prog_feabits = 0xF8
opcode lsc_read_feabits = 0xFB
opcode lsc_prog_otp = 0xF9
opcode lsc_read_otp = 0xFA

pub data DeviceType : Type 0 where
  type_none type_ecp5 type_nx : DeviceType

-- `struct device_id_pair`
pub record DeviceIdPair : Type 0 where
  pub device_name : String
  pub device_id : ℕ

-- `struct device_info`
pub record DeviceInfo : Type 0 where
  pub name : String
  pub id : ℕ
  pub device_type : DeviceType

abbrev pair : String → ℕ → DeviceIdPair
pair device_name device_id = record { device_name = device_name; device_id = device_id }

abbrev pub ecp_devices : List DeviceIdPair
ecp_devices =
    pair "LFE5U-12" 0x21111043
    ∷ pair "LFE5U-25" 0x41111043
    ∷ pair "LFE5U-45" 0x41112043
    ∷ pair "LFE5U-85" 0x41113043
    ∷ pair "LFE5UM-25" 0x01111043
    ∷ pair "LFE5UM-45" 0x01112043
    ∷ pair "LFE5UM-85" 0x01113043
    ∷ pair "LFE5UM5G-25" 0x81111043
    ∷ pair "LFE5UM5G-45" 0x81112043
    ∷ pair "LFE5UM5G-85" 0x81113043
    ∷ []

abbrev pub nx_devices : List DeviceIdPair
nx_devices =
    pair "LIFCL-17" 0x010F0043
    ∷ pair "LIFCL-40-ES" 0x010F1043
    ∷ pair "LIFCL-40" 0x110F1043
    ∷ pair "LFD2NX-17" 0x310F0043
    ∷ pair "LFD2NX-40" 0x310F1043
    ∷ []
