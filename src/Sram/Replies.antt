-- ===== src/Sram/Replies.antt =====
-- The words that the FPGA answers, and the devices that its id stands for.
use ice9_api.Prelude.{
  ℕ, ◌+◌, ◌*◌, ◌/◌, ◌%◌, ◌^◌, ◌<◌, ◌≡◌, refl, ◌∙◌, ap, some, List, [], ◌∷◌, ◌++◌, done, arith,
  bit_or, bit_or-shifted,
}
use ice9_api.Ftdi.{FtdiCall, FtdiReply, Mpsse}
use ice9_api.Mpsse.{mpsse_xfer_spi}
use ice9_api.Mpsse.Frames.{
  mpsse_xfer_spi-parse, parse_transfer, written, wrote, give, reads, add_calls,
}
use ice9_api.Lattice.{DeviceIdPair, DeviceType, type_ecp5, type_nx, ecp_devices, nx_devices}
use ice9_api.Sram.{join_bytes, read_word_reply, print_idcode}

-- A word of 32 bits as the FPGA sends it, with its highest byte first.
abbrev pub big_endian : ℕ → List ℕ
big_endian w = w / 2 ^ 24 ∷ w / 2 ^ 16 % 256 ∷ w / 2 ^ 8 % 256 ∷ w % 256 ∷ []

join_byte :
    (idcode byte : ℕ)
    → idcode < 2 ^ 24
    → byte < 256
    → bit_or (idcode * 256 % 2 ^ 32) byte ≡ idcode * 256 + byte
join_byte idcode byte hi hb =
    let e : idcode * 256 % 2 ^ 32 ≡ idcode * 2 ^ 8 = omega (arith, hi) in
    rw e (bit_or-shifted 8 idcode byte hb)

pub join_bytes-big_endian : (w : ℕ) → w < 2 ^ 32 → join_bytes 0 (big_endian w) ≡ w
join_bytes-big_endian w h =
    let a = join_byte 0 (w / 2 ^ 24) (omega arith) (omega (arith, h)) in
    let e1 : 0 * 256 + w / 2 ^ 24 ≡ w / 2 ^ 24 = omega arith in
    let b = join_byte (w / 2 ^ 24) (w / 2 ^ 16 % 256) (omega (arith, h)) (omega arith) in
    let e2 : w / 2 ^ 24 * 256 + w / 2 ^ 16 % 256 ≡ w / 2 ^ 16 = omega arith in
    let c = join_byte (w / 2 ^ 16) (w / 2 ^ 8 % 256) (omega (arith, h)) (omega arith) in
    let e3 : w / 2 ^ 16 * 256 + w / 2 ^ 8 % 256 ≡ w / 2 ^ 8 = omega arith in
    let d = join_byte (w / 2 ^ 8) (w % 256) (omega (arith, h)) (omega arith) in
    let e4 : w / 2 ^ 8 * 256 + w % 256 ≡ w = omega arith in
    ap (λ x. join_bytes x (w / 2 ^ 16 % 256 ∷ w / 2 ^ 8 % 256 ∷ w % 256 ∷ [])) (a ∙ e1)
    ∙ ap (λ x. join_bytes x (w / 2 ^ 8 % 256 ∷ w % 256 ∷ [])) (b ∙ e2)
    ∙ ap (λ x. join_bytes x (w % 256 ∷ [])) (c ∙ e3)
    ∙ d
    ∙ e4

pub read_word_reply_steps :
    (bytes : List ℕ) (rs rs' : List FtdiReply) (s s' : Mpsse)
    → mpsse_xfer_spi (0 ∷ 0 ∷ 0 ∷ 0 ∷ []) 4 rs s ≡ done bytes rs' s'
    → read_word_reply rs s ≡ done (join_bytes 0 bytes) rs' s'
unfolding read_word_reply
read_word_reply_steps bytes rs rs' s s' e = ground (arith, e)

-- A word of 32 bits that the FPGA shifts out with its highest byte first is the word that
-- `read_word_reply` returns; what it writes for it the engine reads as one transfer in both
-- directions (0x31) of four zeros.
pub read_word_reply-big_endian :
    (w : ℕ) (rs : List FtdiReply) (s : Mpsse)
    → w < 2 ^ 32
    → let answer = big_endian w in
      (cs : List FtdiCall) × (read_word_reply
          (wrote 1 ∷ wrote 1 ∷ wrote 1 ∷ wrote 4 ∷ (give answer ++ rs))
          s
        ≡ done w rs (add_calls (reads answer) (add_calls cs s)))
      × (parse_transfer (written cs ++ []) ≡ some (0x31, 0 ∷ 0 ∷ 0 ∷ 0 ∷ [], []))
read_word_reply-big_endian w rs s h =
    let (cs, run, parse) =
      mpsse_xfer_spi-parse (0 ∷ 0 ∷ 0 ∷ 0 ∷ []) (big_endian w) rs s [] (omega arith) (omega arith)
        (omega arith) in
    (
      cs,
      read_word_reply_steps (big_endian w) _ rs s _ run
          ∙ ap (λ word. done word rs (add_calls (reads (big_endian w)) (add_calls cs s)))
              (join_bytes-big_endian w h),
      parse,
    )

-- Each device of a table is the one found for its id.
abbrev pub AllFound : DeviceType → List DeviceIdPair → List FtdiReply → Mpsse → Type 0
AllFound device_type [] rs s = Unit
AllFound device_type (d ∷ devices) rs s =
    (print_idcode d.device_id rs s
      ≡ done (record { name = d.device_name; id = d.device_id; device_type = device_type }) rs s)
    × AllFound device_type devices rs s

-- For the id of each device of the two tables, `print_idcode` finds this device, as one of its
-- table's type, and makes no call.
pub print_idcode_finds :
    (rs : List FtdiReply) (s : Mpsse)
    → AllFound type_ecp5 ecp_devices rs s × AllFound type_nx nx_devices rs s
unfolding print_idcode
print_idcode_finds rs s = (
  (refl, (refl, (refl, (refl, (refl, (refl, (refl, (refl, (refl, (refl, tt)))))))))),
  (refl, (refl, (refl, (refl, (refl, tt))))),
)
