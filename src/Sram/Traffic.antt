-- ===== src/Sram/Traffic.antt =====
-- The functions of sram_flash.c call and end as Mpsse/Traffic.antt says, whatever libftdi answers.
use ice9_api.Prelude.{
  ℕ, zero, suc, ◌-◌, ◌*◌, ◌≤◌, Bool, true, false, List, [], ◌∷◌, ◌++◌, length, drop, arith, ◌>>◌,
  ltb, ◌==◌, if◌then◌else◌, Option-cases, inl, inr, Bool-cases,
}
use ice9_api.Ftdi.{FtdiCall, Ftdi, usleep}
use ice9_api.Mpsse.{mpsse_xfer_spi, mpsse_readb_low}
use ice9_api.Mpsse.Traffic.{
  nothing, IsClean, IsClean-if, IsClean-bind, IsClean-then, IsClean-pure, IsClean-do, IsClean-exit,
}
use ice9_api.Mpsse.Traffic.Bytes.{
  closing, IsClean-close, IsClean-mpsse_send_spi, IsClean-mpsse_xfer_spi, IsClean-mpsse_set_gpio,
  IsClean-mpsse_readb_low,
}
use ice9_api.Lattice.{
  opcode, read_id, lsc_read_status, lsc_refresh, isc_enable, isc_disable, isc_erase,
  lsc_bitstream_burst, lsc_reset_crc,
}
use ice9_api.Sram.{
  set_cs_creset, get_cdone, sram_reset, sram_chip_select, sram_chip_deselect, known_device,
  print_idcode, send_byte_command, join_bytes, read_word_reply, sram_prepare, sram_read_status,
  sram_bitstream_burst, sram_read_id, sram_refresh_fpga, send_chunks, configure_board, send_file,
}

IsClean-set_cs_creset : (cs_b creset_b : Bool) → IsClean nothing (set_cs_creset cs_b creset_b)
unfolding set_cs_creset
IsClean-set_cs_creset cs_b creset_b = IsClean-mpsse_set_gpio _ 0x93

IsClean-get_cdone : IsClean nothing get_cdone
unfolding get_cdone
IsClean-get_cdone =
    IsClean-bind nothing mpsse_readb_low _ IsClean-mpsse_readb_low (λ low. IsClean-pure _)

IsClean-sram_reset : IsClean nothing sram_reset
unfolding sram_reset
IsClean-sram_reset = IsClean-set_cs_creset true false

IsClean-sram_chip_select : IsClean nothing sram_chip_select
unfolding sram_chip_select
IsClean-sram_chip_select = IsClean-set_cs_creset false true

IsClean-sram_chip_deselect : IsClean nothing sram_chip_deselect
unfolding sram_chip_deselect
IsClean-sram_chip_deselect = IsClean-set_cs_creset true true

IsClean-print_idcode : (idcode : ℕ) → IsClean nothing (print_idcode idcode)
unfolding print_idcode
IsClean-print_idcode idcode = elim (Option-cases (known_device idcode)) [
  | inl unknown ↦ rw (print_idcode, unknown) IsClean-exit
  | inr (info, known) ↦ rw (print_idcode, known) (IsClean-pure info)
]

IsClean-send_byte_command : (cmd : ℕ) → IsClean nothing (send_byte_command cmd)
unfolding send_byte_command
IsClean-send_byte_command cmd = IsClean-mpsse_send_spi (cmd ∷ 0 ∷ 0 ∷ 0 ∷ []) 4

IsClean-read_word_reply : IsClean nothing read_word_reply
unfolding read_word_reply
IsClean-read_word_reply =
    IsClean-bind nothing (mpsse_xfer_spi (0 ∷ 0 ∷ 0 ∷ 0 ∷ []) 4) _
      (IsClean-mpsse_xfer_spi (0 ∷ 0 ∷ 0 ∷ 0 ∷ []) 4) (λ bytes. IsClean-pure (join_bytes 0 bytes))

-- A command of its own.
IsClean-order :
    {A : Type 0} {tail : ℕ → List FtdiCall} (cmd : ℕ) {n : Ftdi A}
    → IsClean tail n
    → IsClean tail (sram_chip_select >> (send_byte_command cmd >> (sram_chip_deselect >> n)))
IsClean-order cmd rest =
    IsClean-then IsClean-sram_chip_select
      (IsClean-then (IsClean-send_byte_command cmd) (IsClean-then IsClean-sram_chip_deselect rest))

IsClean-last_order :
    (cmd : ℕ) → IsClean nothing (sram_chip_select >> (send_byte_command cmd >> sram_chip_deselect))
IsClean-last_order cmd =
    IsClean-then IsClean-sram_chip_select
      (IsClean-then (IsClean-send_byte_command cmd) IsClean-sram_chip_deselect)

IsClean-sram_prepare : IsClean nothing sram_prepare
unfolding sram_prepare
IsClean-sram_prepare =
    IsClean-order (opcode isc_enable)
      (IsClean-order (opcode isc_erase) (IsClean-last_order (opcode lsc_reset_crc)))

IsClean-sram_refresh_fpga : IsClean nothing sram_refresh_fpga
unfolding sram_refresh_fpga
IsClean-sram_refresh_fpga = IsClean-last_order (opcode lsc_refresh)

IsClean-sram_read_status : IsClean nothing sram_read_status
unfolding sram_read_status
IsClean-sram_read_status = IsClean-then IsClean-sram_chip_select (
    IsClean-then (IsClean-send_byte_command (opcode lsc_read_status)) (
      IsClean-bind nothing read_word_reply _ IsClean-read_word_reply
        (λ status. IsClean-sram_chip_deselect)))

IsClean-sram_bitstream_burst : IsClean nothing sram_bitstream_burst
unfolding sram_bitstream_burst
IsClean-sram_bitstream_burst =
    IsClean-then IsClean-sram_chip_select (IsClean-send_byte_command (opcode lsc_bitstream_burst))

IsClean-sram_read_id : IsClean nothing sram_read_id
unfolding sram_read_id
IsClean-sram_read_id = IsClean-then IsClean-sram_chip_select (
    IsClean-then (IsClean-send_byte_command (opcode read_id)) (
      IsClean-bind nothing read_word_reply _ IsClean-read_word_reply (λ idcode.
        IsClean-bind nothing (print_idcode idcode) _ (IsClean-print_idcode idcode)
          (λ info. IsClean-then IsClean-sram_chip_deselect (IsClean-pure info)))))

pub IsClean-send_chunks :
    (fuel : ℕ) (buf : List ℕ) (bufsize : ℕ)
    → bufsize ≤ fuel
    → IsClean nothing (send_chunks fuel buf bufsize)
unfolding send_chunks
IsClean-send_chunks zero buf zero le = IsClean-pure tt
IsClean-send_chunks zero buf (suc bufsize) le = absurd (omega (arith, le))
IsClean-send_chunks (suc fuel) buf bufsize le =
    let len = if ltb bufsize (16 * 1024) then bufsize else 16 * 1024 in
    elim (Bool-cases (bufsize == 0)) [
      | inl stop ↦ rw stop (IsClean-pure tt)
      | inr goes_on ↦ rw goes_on (
          IsClean-then (IsClean-mpsse_send_spi buf len)
            (IsClean-send_chunks fuel (drop len buf) (bufsize - len) (ground arith)))
    ]

pub IsClean-send_file : (reads : List (List ℕ)) → IsClean nothing (send_file reads)
unfolding send_file
IsClean-send_file [] = IsClean-pure tt
IsClean-send_file (buffer ∷ reads) =
    IsClean-if nothing (length buffer == 0) _ _ (IsClean-pure tt)
      (IsClean-then (IsClean-mpsse_send_spi buffer (length buffer)) (IsClean-send_file reads))

-- The calls that end a configuration which returns.
abbrev pub ending : ℕ → List FtdiCall
ending latency = closing latency ++ usleep 1000 ∷ []

pub IsClean-configure_board :
    (send_bitstream : Ftdi (Unit {0}))
    → IsClean nothing send_bitstream
    → IsClean ending (configure_board send_bitstream)
IsClean-configure_board send_bitstream sent = IsClean-then IsClean-sram_reset (
    IsClean-then (IsClean-do (usleep 100) tt) (
      IsClean-bind ending get_cdone _ IsClean-get_cdone (λ cdone.
        IsClean-then IsClean-sram_refresh_fpga (
          IsClean-bind ending sram_read_id _ IsClean-sram_read_id (λ info.
            IsClean-then IsClean-sram_read_status (
              IsClean-then IsClean-sram_prepare (
                IsClean-then IsClean-sram_read_status (
                  IsClean-then IsClean-sram_bitstream_burst (
                    IsClean-then sent (
                      IsClean-then IsClean-sram_chip_deselect (
                        IsClean-then IsClean-sram_read_status
                          (IsClean-order (opcode isc_disable) (IsClean-close 1000 info)))))))))))))
