-- ===== src/Sram/Status.antt =====
-- The report on the status register: `print_ecp5_status_register` of sram_flash.c.
pub mod Fields
use Prim.Native.String.{String}
use ice9_api.Prelude.{
  ℕ, ◌*◌, ◌/◌, ◌%◌, ◌^◌, Bool, not, List, [], ◌∷◌, ◌++◌, bit_and, ◌==◌, if◌then◌else◌,
}

-- What goes to the log: the line with the word, or a label with a text.
pub data Line : Type 0 where
  status_line : ℕ → Line
  line : (label text : String) → Line

-- `status & (mask << n)`, as a test.
pub has_bits : (status mask n : ℕ) → Bool
has_bits status mask n = not (bit_and status (mask * 2 ^ n) == 0)

abbrev yes_no : Bool → String
yes_no set = if set then "Yes" else "No"

-- `switch (bse_error)`
pub bse_lines : ℕ → List Line
bse_lines bse_error =
    let says : String → List Line = λ text. line "BSE Error Code:" text ∷ [] in
    if bse_error == 0b000
    then says "No Error (0b000)"
    else if bse_error == 0b001
    then says "ID Error (0b001)"
    else if bse_error == 0b010
    then says "CMD Error - illegal command (0b010)"
    else if bse_error == 0b011
    then says "CRC Error (0b011)"
    else if bse_error == 0b100
    then says "PRMB Error - preamble error (0b100)"
    else if bse_error == 0b101
    then says "ABRT Error - configuration aborted by the user (0b101)"
    else if bse_error == 0b110
    then says "OVFL Error - data overflow error (0b110)"
    else if bse_error == 0b111
    then says "SDM Error - bitstream pass the size of SRAM array (0b111)"
    else []

pub print_ecp5_status_register : (verbose : Bool) (status : ℕ) → List Line
print_ecp5_status_register verbose status =
    let bse_error = bit_and status (7 * 2 ^ 23) / 2 ^ 23 % 2 ^ 8 in
    status_line status
    ∷ (if verbose
        then line "Transparent Mode:" (yes_no (has_bits status 1 0))
            ∷ line "Config Target:" (if has_bits status 7 1 then "eFuse" else "SRAM")
            ∷ line "JTAG Active:" (yes_no (has_bits status 1 4))
            ∷ line "PWD Protection:" (yes_no (has_bits status 1 5))
            ∷ line "Decrypt Enable:" (yes_no (has_bits status 1 7))
            ∷ line "DONE:" (yes_no (has_bits status 1 8))
            ∷ line "ISC Enable:" (yes_no (has_bits status 1 9))
            ∷ line "Write Enable:" (if has_bits status 1 10 then "Writable" else "Not Writable")
            ∷ line "Read Enable:" (if has_bits status 1 11 then "Readable" else "Not Readable")
            ∷ line "Busy Flag:" (yes_no (has_bits status 1 12))
            ∷ line "Fail Flag:" (yes_no (has_bits status 1 13))
            ∷ line "Feature OTP:" (yes_no (has_bits status 1 14))
            ∷ line "Decrypt Only:" (yes_no (has_bits status 1 15))
            ∷ line "PWD Enable:" (yes_no (has_bits status 1 16))
            ∷ line "Encrypt Preamble:" (yes_no (has_bits status 1 20))
            ∷ line "Std Preamble:" (yes_no (has_bits status 1 21))
            ∷ line "SPIm Fail 1:" (yes_no (has_bits status 1 22))
            ∷ bse_lines bse_error
          ++ line "Execution Error:" (yes_no (has_bits status 1 26))
            ∷ line "ID Error:" (yes_no (has_bits status 1 27))
            ∷ line "Invalid Command:" (yes_no (has_bits status 1 28))
            ∷ line "SED Error:" (yes_no (has_bits status 1 29))
            ∷ line "Bypass Mode:" (yes_no (has_bits status 1 30))
            ∷ line "Flow Through Mode:" (yes_no (has_bits status 1 31))
            ∷ []
        else [])
