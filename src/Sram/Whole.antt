-- ===== src/Sram/Whole.antt =====
-- The configuration of the FPGA as a whole.
use ice9_api.Prelude.{
  ℕ, ◌<◌, ◌^◌, ◌≡◌, ◌∙◌, ap, true, false, List, [], ◌∷◌, ◌++◌, append_assoc, done, pure, ◌>>◌,
  >>=-eq-done, some, none,
}
use ice9_api.Ftdi.{
  log_call, exit, FtdiCall, FtdiReply, Mpsse, Ftdi, ftdi_do, usleep, set_latency_timer,
  disable_bitbang, usb_close, deinit, exit_with,
}
use ice9_api.Mpsse.{mpsse_init, mpsse_close}
use ice9_api.Mpsse.Frames.{add_calls}
use ice9_api.Mpsse.Session.{mpsse_close_sends, init_replies, opened, mpsse_init_opens}
use ice9_api.Lattice.{DeviceInfo}
use ice9_api.Sram.{configure, configure_board, known_device}
use ice9_api.Sram.Script.{
  Action, pins, ask_pins, send, pause, script_calls, script_replies, Plays, Plays-bind, Plays-then,
  Plays-nil, Plays-pause, Plays-cdone, Plays-exits,
}
use ice9_api.Sram.Orders.{
  order, query, ask, Plays-order, Plays-refresh, Plays-prepare, Plays-status, Plays-burst,
  Plays-reset, Plays-deselect, Plays-read_id, Plays-read_unknown_id,
}

-- What the board answers: the pins' level, its id, and the status before and after the set-up and
-- at the end.
pub record Answers : Type 0 where
  pub low : ℕ
  pub idcode : ℕ
  pub before : ℕ
  pub prepared : ℕ
  pub after : ℕ

-- The words have 32 bits.
pub record AreWords32 (a : Answers) : Type 0 where
  pub idcode_fits : a.idcode < 2 ^ 32
  pub before_fits : a.before < 2 ^ 32
  pub prepared_fits : a.prepared < 2 ^ 32
  pub after_fits : a.after < 2 ^ 32

-- Up to the id: reset, refresh, and the question for the id.
abbrev pub opening_script : Answers → List Action
opening_script a = pins true false ∷ pause 100 ∷ ask_pins a.low ∷ order 0x79

-- The configuration with this bitstream: the id and the status are read, the SRAM is enabled,
-- erased and its CRC reset, the status is read; then the bitstream follows the burst command, with
-- the chip selected throughout; the status is read, and the configuration mode left.
abbrev pub configuration : Answers → List Action → List Action
configuration a bitstream =
    opening_script a
    ++ (query 0xE0 a.idcode
        ++ (query 0x3C a.before
            ++ ((order 0xC6 ++ (order 0x0E ++ order 0x3B))
                ++ (query 0x3C a.prepared
                    ++ ((pins false true ∷ send (0x7A ∷ 0 ∷ 0 ∷ 0 ∷ []) ∷ [])
                        ++ (bitstream
                            ++ (pins true true ∷ (query 0x3C a.after ++ (order 0x26 ++ [])))))))))

-- What follows: the close.
abbrev pub closing : DeviceInfo → Ftdi DeviceInfo
closing info = mpsse_close >> (ftdi_do (usleep 1000) >> pure info)

pub Plays-configure :
    (a : Answers) (info : DeviceInfo) (send_bitstream : Ftdi (Unit {0})) (bitstream : List Action)
    → AreWords32 a
    → known_device a.idcode ≡ some info
    → Plays send_bitstream bitstream (pure tt)
    → Plays (configure_board send_bitstream) (configuration a bitstream) (closing info)
Plays-configure a info send_bitstream bitstream h known p = Plays-then Plays-reset (
    Plays-then (Plays-pause 100) (
      Plays-bind _ (Plays-cdone a.low) (
        Plays-then Plays-refresh (
          Plays-bind _ (Plays-read_id a.idcode info h.idcode_fits known) (
            Plays-then (Plays-status a.before h.before_fits) (
              Plays-then Plays-prepare (
                Plays-then (Plays-status a.prepared h.prepared_fits) (
                  Plays-then Plays-burst (
                    Plays-then p (
                      Plays-then Plays-deselect (
                        Plays-then (Plays-status a.after h.after_fits)
                          (Plays-order (Plays-nil (closing info))))))))))))))

pub Plays-unknown :
    (a : Answers) (send_bitstream : Ftdi (Unit {0}))
    → a.idcode < 2 ^ 32
    → known_device a.idcode ≡ none
    → Plays (configure_board send_bitstream) (opening_script a ++ ask 0xE0 a.idcode) (exit_with 1)
Plays-unknown a send_bitstream h unknown = Plays-then Plays-reset (
    Plays-then (Plays-pause 100) (
      Plays-bind _ (Plays-cdone a.low) (
        Plays-then Plays-refresh
          (Plays-exits _ {change = log_call (exit 1)} (Plays-read_unknown_id a.idcode h unknown)))))

closing_calls :
    (info : DeviceInfo) (rs : List FtdiReply) (s : Mpsse)
    → closing info rs s
      ≡ done info rs (
          add_calls
            (set_latency_timer s.latency ∷ disable_bitbang ∷ usb_close ∷ deinit ∷ usleep 1000 ∷ [])
            s)
closing_calls info rs s =
    >>=-eq-done mpsse_close (λ u. ftdi_do (usleep 1000) >> pure info) (mpsse_close_sends rs s)
    ∙ ap (λ calls. done info rs (record s { calls = calls })) (simp append_assoc)

-- The state at the end: the calls of the start, of the script, and these.
abbrev pub ended : ℕ → List Action → List FtdiCall → Mpsse → Mpsse
ended latency script calls s =
    add_calls calls (add_calls (script_calls script) (opened 0 true false latency s))

pub configure_runs :
    (a : Answers) (info : DeviceInfo) (send_bitstream : Ftdi (Unit {0})) (bitstream : List Action)
    → (latency : ℕ) (rs : List FtdiReply) (s : Mpsse) → AreWords32 a
    → known_device a.idcode ≡ some info
    → Plays send_bitstream bitstream (pure tt)
    → let script = configuration a bitstream in
      configure send_bitstream (init_replies latency ++ (script_replies script ++ rs)) s
      ≡ done info rs (
          ended latency script
            (set_latency_timer latency ∷ disable_bitbang ∷ usb_close ∷ deinit ∷ usleep 1000 ∷ [])
            s)
configure_runs a info send_bitstream bitstream latency rs s h known p =
    let script = configuration a bitstream in
    >>=-eq-done (mpsse_init 0 true false) (λ u. configure_board send_bitstream)
      (mpsse_init_opens 0 latency true false (script_replies script ++ rs) s)
    ∙ (Plays-configure a info send_bitstream bitstream h known p).runs rs
        (opened 0 true false latency s)
    ∙ closing_calls info rs (add_calls (script_calls script) (opened 0 true false latency s))
