-- ===== src/Sram/Status/Fields.antt =====
-- The report on the status register, told by the register's fields.
use Prim.Native.String.{String}
use native.Mathlib.Nat.{one-le-pow}
use ice9_api.Prelude.{
  ℕ, zero, suc, ◌+◌, ◌*◌, ◌/◌, ◌%◌, ◌^◌, ◌<◌, ◌≡◌, refl, ◌∙◌, ap, Bool, true, false, List, [], ◌∷◌,
  ◌++◌, bit_and, bit_and-mask, bit_and-shifted, ◌==◌, if◌then◌else◌, arith, get_or,
}
use ice9_api.Sram.Status.{Line, status_line, line, has_bits, bse_lines, print_ecp5_status_register}

-- A field of the register: its label, its lowest bit and its width, and the texts for a value that
-- is not 0 and for 0.
pub record Field : Type 0 where
  pub label : String
  pub low_bit : ℕ
  pub width : ℕ
  pub if_set : String
  pub if_clear : String

abbrev flag : String → ℕ → Field
flag label n = record { label = label; low_bit = n; width = 1; if_set = "Yes"; if_clear = "No" }

abbrev field_line : ℕ → Field → Line
field_line status f =
    line f.label (if status / 2 ^ f.low_bit % 2 ^ f.width == 0 then f.if_clear else f.if_set)

abbrev pub field_lines : ℕ → List Field → List Line
field_lines status [] = []
field_lines status (f ∷ fields) = field_line status f ∷ field_lines status fields

-- The fields below the error code in the bits 23 to 25, and those above it.
abbrev pub lower_fields : List Field
lower_fields =
    flag "Transparent Mode:" 0
    ∷ record {
      label = "Config Target:";
      low_bit = 1;
      width = 3;
      if_set = "eFuse";
      if_clear = "SRAM";
    }
    ∷ flag "JTAG Active:" 4
    ∷ flag "PWD Protection:" 5
    ∷ flag "Decrypt Enable:" 7
    ∷ flag "DONE:" 8
    ∷ flag "ISC Enable:" 9
    ∷ record {
      label = "Write Enable:";
      low_bit = 10;
      width = 1;
      if_set = "Writable";
      if_clear = "Not Writable";
    }
    ∷ record {
      label = "Read Enable:";
      low_bit = 11;
      width = 1;
      if_set = "Readable";
      if_clear = "Not Readable";
    }
    ∷ flag "Busy Flag:" 12
    ∷ flag "Fail Flag:" 13
    ∷ flag "Feature OTP:" 14
    ∷ flag "Decrypt Only:" 15
    ∷ flag "PWD Enable:" 16
    ∷ flag "Encrypt Preamble:" 20
    ∷ flag "Std Preamble:" 21
    ∷ flag "SPIm Fail 1:" 22
    ∷ []

abbrev pub upper_fields : List Field
upper_fields =
    flag "Execution Error:" 26
    ∷ flag "ID Error:" 27
    ∷ flag "Invalid Command:" 28
    ∷ flag "SED Error:" 29
    ∷ flag "Bypass Mode:" 30
    ∷ flag "Flow Through Mode:" 31
    ∷ []

abbrev pub bse_errors : List String
bse_errors =
    "No Error (0b000)" ∷ "ID Error (0b001)" ∷ "CMD Error - illegal command (0b010)"
    ∷ "CRC Error (0b011)" ∷ "PRMB Error - preamble error (0b100)"
    ∷ "ABRT Error - configuration aborted by the user (0b101)"
    ∷ "OVFL Error - data overflow error (0b110)"
    ∷ "SDM Error - bitstream pass the size of SRAM array (0b111)" ∷ []

-- A field is tested by its value.
is_zero-shifted : (value n : ℕ) → (value * 2 ^ n == 0) ≡ (value == 0)
is_zero-shifted zero n = let e : 0 * 2 ^ n ≡ 0 = omega arith in ground (arith, e)
is_zero-shifted (suc value) n =
    let e : suc value * 2 ^ n ≡ value * 2 ^ n + 2 ^ n = omega arith in
    ground (arith, e, one-le-pow n 2)

text_of_field :
    (status mask n value : ℕ) (set clear : String)
    → bit_and (status / 2 ^ n) mask ≡ value
    → (if has_bits status mask n then set else clear) ≡ (if value == 0 then clear else set)
unfolding has_bits
text_of_field status mask n value set clear e =
    let shifted : bit_and status (mask * 2 ^ n) ≡ value * 2 ^ n =
      bit_and-shifted n status mask ∙ ap (λ (t : ℕ). t * 2 ^ n) e in
    ground (arith, shifted, is_zero-shifted value n)

text_of_bit :
    (status n : ℕ) (set clear : String)
    → (if has_bits status 1 n then set else clear)
      ≡ (if status / 2 ^ n % 2 == 0 then clear else set)
text_of_bit status n set clear =
    text_of_field status 1 n (status / 2 ^ n % 2) set clear (bit_and-mask 1 (status / 2 ^ n))

text_of_three_bits :
    (status n : ℕ) (set clear : String)
    → (if has_bits status 7 n then set else clear)
      ≡ (if status / 2 ^ n % 8 == 0 then clear else set)
text_of_three_bits status n set clear =
    text_of_field status 7 n (status / 2 ^ n % 8) set clear (bit_and-mask 3 (status / 2 ^ n))

bse_field : (status : ℕ) → bit_and status (7 * 2 ^ 23) / 2 ^ 23 % 2 ^ 8 ≡ status / 2 ^ 23 % 8
bse_field status = omega (arith, bit_and-shifted 23 status 7, bit_and-mask 3 (status / 2 ^ 23))

bse_lines-tells :
    (n : ℕ) → n < 8 → bse_lines n ≡ line "BSE Error Code:" (get_or bse_errors n "") ∷ []
unfolding bse_lines
bse_lines-tells zero h = refl
bse_lines-tells (suc zero) h = refl
bse_lines-tells (suc (suc zero)) h = refl
bse_lines-tells (suc (suc (suc zero))) h = refl
bse_lines-tells (suc (suc (suc (suc zero)))) h = refl
bse_lines-tells (suc (suc (suc (suc (suc zero))))) h = refl
bse_lines-tells (suc (suc (suc (suc (suc (suc zero)))))) h = refl
bse_lines-tells (suc (suc (suc (suc (suc (suc (suc zero))))))) h = refl
bse_lines-tells (suc (suc (suc (suc (suc (suc (suc (suc n)))))))) h = absurd (omega arith)

-- Without `verbose` the report is the word alone; with it, that of the fields of the register: each
-- with the text for its value, in the order of their bits, and one line, whatever the register
-- holds, for the error code in the bits 23 to 25.
pub status_register_fields :
    (verbose : Bool) (status : ℕ)
    → print_ecp5_status_register verbose status
      ≡ status_line status
        ∷ (if verbose
            then field_lines status lower_fields
              ++ line "BSE Error Code:" (get_or bse_errors (status / 2 ^ 23 % 8) "")
                ∷ field_lines status upper_fields
            else [])
unfolding print_ecp5_status_register
status_register_fields false status = refl
status_register_fields true status = simp (
  text_of_bit,
  text_of_three_bits,
  bse_field,
  bse_lines-tells (status / 2 ^ 23 % 8) (omega arith),
)
