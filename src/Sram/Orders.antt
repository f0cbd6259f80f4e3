-- ===== src/Sram/Orders.antt =====
-- The scripts of the functions of sram_flash.c.
use ice9_api.Prelude.{
  ℕ, ◌≡◌, refl, true, false, List, [], ◌∷◌, ◌++◌, pure, ◌>>=◌, ◌>>◌, some, arith, ◌<◌, ◌^◌, none,
}
use ice9_api.Ftdi.{log_call, exit, exit_with, Ftdi}
use ice9_api.Lattice.{DeviceInfo}
use ice9_api.Sram.{
  sram_reset, sram_chip_select, sram_chip_deselect, print_idcode, known_device, send_byte_command,
  read_word_reply, sram_prepare, sram_read_status, sram_bitstream_burst, sram_read_id,
  sram_refresh_fpga,
}
use ice9_api.Sram.Replies.{big_endian}
use ice9_api.Sram.Script.{
  Action, pins, send, exchange, Plays, Plays-bind, Plays-then, Plays-nil, Plays-send, Plays-pins,
  Plays-exchange, Plays-exits,
}

-- A command that the FPGA carries out, one that it answers with a word, and their scripts.
abbrev pub order : ℕ → List Action
order cmd = pins false true ∷ send (cmd ∷ 0 ∷ 0 ∷ 0 ∷ []) ∷ pins true true ∷ []

abbrev pub query : ℕ → ℕ → List Action
query cmd answer =
    pins false true
    ∷ send (cmd ∷ 0 ∷ 0 ∷ 0 ∷ [])
    ∷ exchange (0 ∷ 0 ∷ 0 ∷ 0 ∷ []) (big_endian answer)
    ∷ pins true true
    ∷ []

Plays-command :
    (cmd : ℕ) → Plays (send_byte_command cmd) (send (cmd ∷ 0 ∷ 0 ∷ 0 ∷ []) ∷ []) (pure tt)
unfolding send_byte_command
Plays-command cmd = Plays-send (cmd ∷ 0 ∷ 0 ∷ 0 ∷ []) (omega arith)

pub Plays-order :
    {B : Type 0} {cmd : ℕ} {n k : Ftdi B} {script : List Action}
    → Plays n script k
    → Plays
        (sram_chip_select >> (send_byte_command cmd >> (sram_chip_deselect >> n)))
        (order cmd ++ script)
        k
unfolding sram_chip_select sram_chip_deselect
Plays-order {cmd = cmd} p =
    Plays-then (Plays-pins false true)
      (Plays-then (Plays-command cmd) (Plays-then (Plays-pins true true) p))

pub Plays-order_last :
    (cmd : ℕ)
    → Plays
        (sram_chip_select >> (send_byte_command cmd >> sram_chip_deselect))
        (order cmd)
        (pure tt)
unfolding sram_chip_select sram_chip_deselect
Plays-order_last cmd =
    Plays-then (Plays-pins false true) (Plays-then (Plays-command cmd) (Plays-pins true true))

-- The functions that ask and answer.
abbrev pub ask : ℕ → ℕ → List Action
ask cmd answer =
    pins false true
    ∷ send (cmd ∷ 0 ∷ 0 ∷ 0 ∷ [])
    ∷ exchange (0 ∷ 0 ∷ 0 ∷ 0 ∷ []) (big_endian answer)
    ∷ []

pub Plays-ask :
    {B : Type 0} {cmd answer : ℕ} (f : ℕ → Ftdi B) {k : Ftdi B} {script : List Action}
    → answer < 2 ^ 32
    → Plays (f answer) script k
    → Plays
        (sram_chip_select >> (send_byte_command cmd >> (read_word_reply >>= f)))
        (ask cmd answer ++ script)
        k
unfolding sram_chip_select
Plays-ask {cmd = cmd} {answer = answer} f h p =
    Plays-then (Plays-pins false true)
      (Plays-then (Plays-command cmd) (Plays-bind f (Plays-exchange answer h) p))

pub Plays-refresh : Plays sram_refresh_fpga (order 0x79) (pure tt)
unfolding sram_refresh_fpga
Plays-refresh = Plays-order_last 0x79

pub Plays-prepare : Plays sram_prepare (order 0xC6 ++ (order 0x0E ++ order 0x3B)) (pure tt)
unfolding sram_prepare
Plays-prepare = Plays-order (Plays-order (Plays-order_last 0x3B))

pub Plays-status :
    (status : ℕ) → status < 2 ^ 32 → Plays sram_read_status (query 0x3C status) (pure tt)
unfolding sram_read_status sram_chip_deselect
Plays-status status h = Plays-ask (λ w. sram_chip_deselect) h (Plays-pins true true)

pub Plays-burst :
    Plays sram_bitstream_burst (pins false true ∷ send (0x7A ∷ 0 ∷ 0 ∷ 0 ∷ []) ∷ []) (pure tt)
unfolding sram_bitstream_burst sram_chip_select
Plays-burst = Plays-then (Plays-pins false true) (Plays-command 0x7A)

pub Plays-reset : Plays sram_reset (pins true false ∷ []) (pure tt)
unfolding sram_reset
Plays-reset = Plays-pins true false

pub Plays-deselect : Plays sram_chip_deselect (pins true true ∷ []) (pure tt)
unfolding sram_chip_deselect
Plays-deselect = Plays-pins true true

print_idcode_known :
    (idcode : ℕ) (info : DeviceInfo)
    → known_device idcode ≡ some info
    → print_idcode idcode ≡ pure info
unfolding print_idcode
print_idcode_known idcode info e = rw (print_idcode, e) refl

print_idcode_unknown : (idcode : ℕ) → known_device idcode ≡ none → print_idcode idcode ≡ exit_with 1
unfolding print_idcode
print_idcode_unknown idcode e = rw (print_idcode, e) refl

pub Plays-read_id :
    (idcode : ℕ) (info : DeviceInfo)
    → idcode < 2 ^ 32
    → known_device idcode ≡ some info
    → Plays sram_read_id (query 0xE0 idcode) (pure info)
unfolding sram_read_id
Plays-read_id idcode info h e =
    let shown : Plays (print_idcode idcode) [] (pure info) =
      rw (print_idcode_known idcode info e) (Plays-nil (pure info)) in
    Plays-ask (λ w. print_idcode w >>= λ i. sram_chip_deselect >> pure i) h
      (Plays-bind (λ i. sram_chip_deselect >> pure i) shown
        (Plays-then Plays-deselect (Plays-nil (pure info))))

pub Plays-read_unknown_id :
    (idcode : ℕ)
    → idcode < 2 ^ 32
    → known_device idcode ≡ none
    → Plays sram_read_id (ask 0xE0 idcode) (exit_with 1)
unfolding sram_read_id
Plays-read_unknown_id idcode h e =
    let unknown : Plays (print_idcode idcode) [] (exit_with 1) =
      rw (print_idcode_unknown idcode e) (Plays-nil (exit_with 1)) in
    Plays-ask (λ w. print_idcode w >>= λ i. sram_chip_deselect >> pure i) h
      (Plays-exits (λ i. sram_chip_deselect >> pure i) {change = log_call (exit 1)} unknown)
