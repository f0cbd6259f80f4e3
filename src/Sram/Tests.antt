-- ===== src/Sram/Tests.antt =====
-- The functions of sram_flash.c run on short inputs.
use ice9_api.Prelude.{
  some, concat, ℕ, ◌≡◌, refl, true, false, List, [], ◌∷◌, ◌++◌, done, exited, arith, negsuc,
}
use ice9_api.ErrorCode.{ok}
use ice9_api.Ftdi.{FtdiCall, FtdiReply, Mpsse, exit}
use ice9_api.Mpsse.Frames.{wrote, add_calls, written}
use ice9_api.Lattice.{type_ecp5, DeviceInfo}
use ice9_api.Mpsse.Session.{init_replies, init_calls}
use ice9_api.Sram.Script.{script_calls, script_replies}
use ice9_api.Sram.Orders.{ask}
use ice9_api.Sram.Whole.{Answers, opening_script}
use ice9_api.Sram.Flash.{
  flash_calls, flash_replies, flash_fpga_mem_configures, flash_fpga_mem_unknown,
}
use ice9_api.Sram.File.{AllFilled}
use ice9_api.Sram.{ice9_flash_fpga_mem, ice9_flash_fpga, send_chunks}
use ice9_api.Sram.Chunks.{Shifts, send_chunks-Shifts}
use ice9_api.Sram.Status.{status_line, line, print_ecp5_status_register}
use ice9_api.Sram.Ends.{GivesBack, flash_fpga_mem-GivesBack, flash_fpga-FileGivesBack}
use ice9_api.Sram.Status.Fields.{field_lines, lower_fields, upper_fields, status_register_fields}

abbrev opened : Mpsse
opened = record { is_open = true; latency_set = true; latency = 16; calls = [] }

send_chunks-Shifts_example :
    (cs : List FtdiCall) × (send_chunks 3
        (7 ∷ 8 ∷ 9 ∷ 10 ∷ [])
        3
        (wrote 1 ∷ wrote 1 ∷ wrote 1 ∷ wrote 3 ∷ [])
        opened
      ≡ done tt [] (add_calls cs opened))
    × Shifts (written cs) (7 ∷ 8 ∷ 9 ∷ [])
send_chunks-Shifts_example =
    send_chunks-Shifts 3 3 (7 ∷ 8 ∷ 9 ∷ 10 ∷ []) [] opened (omega arith) (omega arith)

-- A board with an LFE5U-25, and what it is known as.
abbrev lfe5u_25 : Answers
lfe5u_25 = record { low = 64; idcode = 0x41111043; before = 0; prepared = 16; after = 256 }

abbrev lfe5u_25_info : DeviceInfo
lfe5u_25_info = record { name = "LFE5U-25"; id = 0x41111043; device_type = type_ecp5 }

flash_fpga_mem_configures_example :
    (parts : List (List ℕ)) × (concat parts ≡ 7 ∷ 8 ∷ 9 ∷ [])
    × AllFilled parts
    × ((s' : Mpsse) × (ice9_flash_fpga_mem
            (7 ∷ 8 ∷ 9 ∷ 10 ∷ [])
            3
            (flash_replies 16 lfe5u_25 parts ++ [])
            opened
          ≡ done (ok, lfe5u_25_info) [] s')
        × (s'.calls ≡ opened.calls ++ flash_calls 16 lfe5u_25 parts))
flash_fpga_mem_configures_example =
    flash_fpga_mem_configures (7 ∷ 8 ∷ 9 ∷ 10 ∷ []) 3 16 lfe5u_25 lfe5u_25_info [] opened
      (omega arith)
      (record {
        idcode_fits = omega arith;
        before_fits = omega arith;
        prepared_fits = omega arith;
        after_fits = omega arith;
      })
      refl

-- A board that answers with zeros.
abbrev dead : Answers
dead = record { low = 0; idcode = 0; before = 0; prepared = 0; after = 0 }

flash_fpga_mem_unknown_example :
    let script = opening_script dead ++ ask 0xE0 0 in
    (s' : Mpsse) × (ice9_flash_fpga_mem
        (7 ∷ [])
        1
        (init_replies 16 ++ (script_replies script ++ []))
        opened
      ≡ exited [] s')
    × (s'.calls ≡ opened.calls ++ (init_calls 0 true false ++ script_calls script ++ exit 1 ∷ []))
flash_fpga_mem_unknown_example =
    flash_fpga_mem_unknown (7 ∷ []) 1 16 dead [] opened (omega arith) refl

-- DONE is set, and the error code is that of a CRC error.
status_register_fields_example :
    print_ecp5_status_register true 0x1800100
    ≡ status_line 0x1800100 ∷ field_lines 0x1800100 lower_fields
      ++ line "BSE Error Code:" "CRC Error (0b011)" ∷ field_lines 0x1800100 upper_fields
status_register_fields_example = status_register_fields true 0x1800100

abbrev failed : FtdiReply
failed = record { ret = negsuc 0; byte = 0 }

-- The variables as the program starts with them.
abbrev unopened : Mpsse
unopened = record { is_open = false; latency_set = false; latency = 0; calls = [] }

-- The reset of the device fails, and a byte is still to be read then.
flash_fpga_mem-GivesBack_example :
    GivesBack unopened
      (ice9_flash_fpga_mem (7 ∷ 8 ∷ []) 2 (wrote 0 ∷ failed ∷ wrote 1 ∷ wrote 0 ∷ []) unopened)
flash_fpga_mem-GivesBack_example =
    flash_fpga_mem-GivesBack (7 ∷ 8 ∷ []) (wrote 0 ∷ failed ∷ wrote 1 ∷ wrote 0 ∷ []) unopened

-- A read of the pins fails.
flash_fpga-FileGivesBack_example : GivesBack unopened (
    ice9_flash_fpga
      (some ((7 ∷ 8 ∷ []) ∷ []))
      (init_replies 16 ++ (wrote 1 ∷ wrote 1 ∷ wrote 1 ∷ wrote 1 ∷ failed ∷ wrote 0 ∷ []))
      unopened)
flash_fpga-FileGivesBack_example =
    flash_fpga-FileGivesBack (some ((7 ∷ 8 ∷ []) ∷ []))
      (init_replies 16 ++ (wrote 1 ∷ wrote 1 ∷ wrote 1 ∷ wrote 1 ∷ failed ∷ wrote 0 ∷ [])) unopened
