-- ===== src/Sram/Pins.antt =====
-- The pins for chip select and reset.
use ice9_api.Prelude.{
  ℕ, ◌<◌, ◌≡◌, refl, Bool, true, false, not, List, [], ◌∷◌, done, arith, bit_and, ◌==◌,
}
use ice9_api.Ftdi.{FtdiReply, Mpsse, write_data}
use ice9_api.Mpsse.Frames.{wrote, add_calls, set_gpio_sends}
use ice9_api.Sram.{set_cs_creset}

-- With complete writes `set_cs_creset` sends one command of the engine, for the lower pins (0x80),
-- with a byte whose bit 4 is the chip select and whose bit 7 is the reset, as they are given, and
-- with the directions 0x93.
pub set_cs_creset_sets :
    (cs_b creset_b : Bool) (rs : List FtdiReply) (s : Mpsse)
    → (gpio : ℕ) × (set_cs_creset cs_b creset_b (wrote 1 ∷ wrote 1 ∷ wrote 1 ∷ rs) s
        ≡ done tt rs (
            add_calls
              (write_data (0x80 ∷ []) ∷ write_data (gpio ∷ []) ∷ write_data (0x93 ∷ []) ∷ [])
              s))
      × (not (bit_and gpio 0x10 == 0) ≡ cs_b)
      × (not (bit_and gpio 0x80 == 0) ≡ creset_b)
      × (gpio < 256)
unfolding set_cs_creset
set_cs_creset_sets true true rs s = (_, set_gpio_sends _ 0x93 rs s, refl, refl, omega arith)
set_cs_creset_sets true false rs s = (_, set_gpio_sends _ 0x93 rs s, refl, refl, omega arith)
set_cs_creset_sets false true rs s = (_, set_gpio_sends _ 0x93 rs s, refl, refl, omega arith)
set_cs_creset_sets false false rs s = (_, set_gpio_sends _ 0x93 rs s, refl, refl, omega arith)
