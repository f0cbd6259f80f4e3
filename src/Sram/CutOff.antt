-- ===== src/Sram/CutOff.antt =====
-- What `ice9_flash_fpga` does when a write of the bitstream is cut off.
use ice9_api.Prelude.{
  ℕ, ◌≡◌, ◌≢◌, ◌∙◌, true, false, List, [], ◌∷◌, ◌++◌, append_assoc, length, exited, pure,
  >>=-eq-done, >>=-eq-exited, some, arith, ◌==◌,
}
use ice9_api.Ftdi.{FtdiReply, Mpsse, Ftdi, exit, set_latency_timer, usb_close, deinit}
use ice9_api.Mpsse.{mpsse_init}
use ice9_api.Mpsse.Session.{init_replies, init_calls, opened, mpsse_init_opens}
use ice9_api.ErrorCode.{ok}
use ice9_api.Lattice.{DeviceInfo}
use ice9_api.Sram.{configure, configure_board, known_device, send_file, ice9_flash_fpga}
use ice9_api.Sram.Script.{
  Action, pins, send, cut_off, script_calls, script_replies, Plays, Plays-bind, Plays-then,
  Plays-send, Plays-pause, Plays-cdone, Plays-exits, exits, give_up, Plays-cut_off,
}
use ice9_api.Sram.Orders.{
  order, query, Plays-refresh, Plays-prepare, Plays-status, Plays-burst, Plays-reset, Plays-read_id,
}
use ice9_api.Sram.File.{AllFilled}
use ice9_api.Sram.Whole.{Answers, AreWords32, opening_script}
use ice9_api.Sram.Parts.{sends}

-- The reads `parts` are sent, of the next one only `written` bytes are; the other reads are not
-- looked at.
Plays-send_file_cut_off :
    (parts : List (List ℕ)) (part : List ℕ) (later : List (List ℕ)) (written : ℕ)
    → AllFilled parts
    → length part ≢ 0
    → written ≢ length part
    → Plays
        (send_file (parts ++ part ∷ later))
        (sends parts ++ cut_off part written ∷ [])
        (exits (give_up 2))
unfolding send_file
Plays-send_file_cut_off [] part later written filled ne short =
    let goes_on : length part == 0 ≡ false = ground (arith, ne) in
    rw goes_on (
      Plays-exits (λ u. send_file later) {change = give_up 2} (Plays-cut_off part written ne short))
Plays-send_file_cut_off (first ∷ parts) part later written filled ne short =
    let goes_on : length first == 0 ≡ false = ground (arith, filled.0) in
    rw goes_on (
      Plays-then (Plays-send first filled.0)
        (Plays-send_file_cut_off parts part later written filled.2 ne short))

-- The configuration up to the bitstream, and as much of that as is sent.
abbrev pub configuration_until : Answers → List Action → List Action
configuration_until a bitstream =
    opening_script a
    ++ (query 0xE0 a.idcode
        ++ (query 0x3C a.before
            ++ ((order 0xC6 ++ (order 0x0E ++ order 0x3B))
                ++ (query 0x3C a.prepared
                    ++ ((pins false true ∷ send (0x7A ∷ 0 ∷ 0 ∷ 0 ∷ []) ∷ []) ++ bitstream)))))

Plays-configure_exits :
    (a : Answers) (info : DeviceInfo) (send_bitstream : Ftdi (Unit {0})) (bitstream : List Action)
    → {change : Mpsse → Mpsse} → AreWords32 a
    → known_device a.idcode ≡ some info
    → Plays send_bitstream bitstream (exits change)
    → Plays (configure_board send_bitstream) (configuration_until a bitstream) (exits change)
Plays-configure_exits a info send_bitstream bitstream {change} h known p = Plays-then Plays-reset (
    Plays-then (Plays-pause 100) (
      Plays-bind _ (Plays-cdone a.low) (
        Plays-then Plays-refresh (
          Plays-bind _ (Plays-read_id a.idcode info h.idcode_fits known) (
            Plays-then (Plays-status a.before h.before_fits) (
              Plays-then Plays-prepare (
                Plays-then (Plays-status a.prepared h.prepared_fits)
                  (Plays-then Plays-burst (Plays-exits _ {change = change} p)))))))))

-- A write of the bitstream that is cut off ends the program with status 2, whatever the file holds
-- behind it: the parts before it are sent as they should be, none after it is, and the device is
-- given back as it was, with the latency timer set back and the device closed.
pub flash_fpga_cut_off :
    (parts : List (List ℕ)) (part : List ℕ) (later : List (List ℕ)) (written latency : ℕ)
    → (a : Answers) (info : DeviceInfo) (rs : List FtdiReply) (s : Mpsse) → AllFilled parts
    → length part ≢ 0
    → written ≢ length part
    → AreWords32 a
    → known_device a.idcode ≡ some info
    → let script = configuration_until a (sends parts ++ cut_off part written ∷ []) in
      (s' : Mpsse) × (ice9_flash_fpga
          (some (parts ++ part ∷ later))
          (init_replies latency ++ (script_replies script ++ rs))
          s
        ≡ exited rs s')
      × (s'.calls
          ≡ s.calls
            ++ (init_calls 0 true false
                ++ script_calls script
                ++ set_latency_timer latency ∷ usb_close ∷ deinit ∷ exit 2 ∷ []))
unfolding ice9_flash_fpga
flash_fpga_cut_off parts part later written latency a info rs s filled ne short h known =
    let script = configuration_until a (sends parts ++ cut_off part written ∷ []) in
    let sender = send_file (parts ++ part ∷ later) in
    (
      _,
      >>=-eq-exited (configure sender) (λ i. pure (ok, some i))
          (>>=-eq-done (mpsse_init 0 true false) (λ u. configure_board sender)
              (mpsse_init_opens 0 latency true false (script_replies script ++ rs) s)
            ∙ (Plays-configure_exits a info sender (sends parts ++ cut_off part written ∷ [])
                  {change = give_up 2} h known
                  (Plays-send_file_cut_off parts part later written filled ne short)).runs
                rs (opened 0 true false latency s)),
      simp append_assoc,
    )
