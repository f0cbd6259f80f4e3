-- ===== src/Sram/Flash.antt =====
-- What `ice9_flash_fpga` and `ice9_flash_fpga_mem` do from the start to the end.
use ice9_api.Prelude.{
  concat, ℕ, ◌≤◌, ◌<◌, ◌^◌, ◌≡◌, ◌∙◌, true, false, List, [], ◌∷◌, ◌++◌, append_assoc, length, take,
  done, exited, pure, >>=-eq-done, >>=-eq-exited, some, none, arith,
}
use ice9_api.ErrorCode.{ok}
use ice9_api.Ftdi.{
  FtdiCall, FtdiReply, Mpsse, usleep, exit, set_latency_timer, disable_bitbang, usb_close, deinit,
}
use ice9_api.Mpsse.{mpsse_init}
use ice9_api.Sram.File.{AllFilled}
use ice9_api.Mpsse.Session.{init_replies, init_calls, opened, mpsse_init_opens}
use ice9_api.Lattice.{DeviceInfo}
use ice9_api.Sram.{
  configure, configure_board, known_device, send_chunks, send_file, ice9_flash_fpga_mem,
  ice9_flash_fpga,
}
use ice9_api.Sram.Script.{Action, script_calls, script_replies}
use ice9_api.Sram.Orders.{ask}
use ice9_api.Sram.Whole.{
  Answers, AreWords32, configuration, opening_script, ended, configure_runs, Plays-unknown,
}
use ice9_api.Sram.Parts.{sends, parts_of, concat-parts_of, Plays-send_chunks, Plays-send_file}

-- The calls of a configuration that goes well, with the parts of the bitstream as they are sent.
abbrev pub flash_calls : ℕ → Answers → List (List ℕ) → List FtdiCall
flash_calls latency a parts =
    init_calls 0 true false
    ++ script_calls (configuration a (sends parts))
    ++ set_latency_timer latency ∷ disable_bitbang ∷ usb_close ∷ deinit ∷ usleep 1000 ∷ []

-- The replies to them.
abbrev pub flash_replies : ℕ → Answers → List (List ℕ) → List FtdiReply
flash_replies latency a parts =
    init_replies latency ++ script_replies (configuration a (sends parts))

in_order :
    (latency : ℕ) (script : List Action) (calls : List FtdiCall) (s : Mpsse)
    → (ended latency script calls s).calls
      ≡ s.calls ++ (init_calls 0 true false ++ script_calls script ++ calls)
in_order latency script calls s = simp append_assoc

-- A configuration from memory, of a board that answers with the id of a known device and with
-- complete writes: it returns `OK` and has found the device; what it does on the way is the start,
-- then exactly the script of the configuration, in which the bitstream is sent in parts of 1 to
-- 16384 bytes that together are its first `bufsize` bytes, and then the close, with the latency
-- timer set back.
pub flash_fpga_mem_configures :
    (buf : List ℕ) (bufsize latency : ℕ) (a : Answers) (info : DeviceInfo)
    → (rs : List FtdiReply) (s : Mpsse) → bufsize ≤ length buf
    → AreWords32 a
    → known_device a.idcode ≡ some info
    → (parts : List (List ℕ)) × (concat parts ≡ take bufsize buf)
      × AllFilled parts
      × ((s' : Mpsse) × (ice9_flash_fpga_mem buf bufsize (flash_replies latency a parts ++ rs) s
            ≡ done (ok, info) rs s')
          × (s'.calls ≡ s.calls ++ flash_calls latency a parts))
unfolding ice9_flash_fpga_mem
flash_fpga_mem_configures buf bufsize latency a info rs s have h known =
    let parts = parts_of bufsize buf bufsize in
    let (same, filled) = concat-parts_of bufsize bufsize buf (omega arith) have in
    let sent = Plays-send_chunks bufsize bufsize buf (omega arith) have in
    (
      parts,
      same,
      filled,
      (
        _,
        >>=-eq-done (configure (send_chunks bufsize buf bufsize)) (λ i. pure (ok, i))
            (configure_runs a info (send_chunks bufsize buf bufsize) (sends parts) latency rs s h
              known sent),
        in_order latency (configuration a (sends parts)) _ s,
      ),
    )

-- The same from a file whose reads give 1 to 16384 bytes each: each read is sent by itself.
pub flash_fpga_configures :
    (reads : List (List ℕ)) (latency : ℕ) (a : Answers) (info : DeviceInfo)
    → (rs : List FtdiReply) (s : Mpsse) → AllFilled reads
    → AreWords32 a
    → known_device a.idcode ≡ some info
    → (s' : Mpsse) × (ice9_flash_fpga (some reads) (flash_replies latency a reads ++ rs) s
        ≡ done (ok, some info) rs s')
      × (s'.calls ≡ s.calls ++ flash_calls latency a reads)
unfolding ice9_flash_fpga
flash_fpga_configures reads latency a info rs s filled h known = (
  _,
  >>=-eq-done (configure (send_file reads)) (λ i. pure (ok, some i))
      (configure_runs a info (send_file reads) (sends reads) latency rs s h known
        (Plays-send_file reads filled)),
  in_order latency (configuration a (sends reads)) _ s,
)

-- A board whose id is that of no known device: the program exits with status 1 right after it has
-- read the id; nothing is sent of the bitstream, and the device is left as it is then, selected,
-- open, and with the latency timer changed.
pub flash_fpga_mem_unknown :
    (buf : List ℕ) (bufsize latency : ℕ) (a : Answers) (rs : List FtdiReply) (s : Mpsse)
    → a.idcode < 2 ^ 32
    → known_device a.idcode ≡ none
    → let script = opening_script a ++ ask 0xE0 a.idcode in
      (s' : Mpsse) × (ice9_flash_fpga_mem buf bufsize
          (init_replies latency ++ (script_replies script ++ rs))
          s
        ≡ exited rs s')
      × (s'.calls ≡ s.calls ++ (init_calls 0 true false ++ script_calls script ++ exit 1 ∷ []))
unfolding ice9_flash_fpga_mem
flash_fpga_mem_unknown buf bufsize latency a rs s h unknown =
    let script = opening_script a ++ ask 0xE0 a.idcode in
    (
      _,
      >>=-eq-exited (configure (send_chunks bufsize buf bufsize)) (λ i. pure (ok, i))
          (>>=-eq-done (mpsse_init 0 true false)
              (λ u. configure_board (send_chunks bufsize buf bufsize))
              (mpsse_init_opens 0 latency true false (script_replies script ++ rs) s)
            ∙ (Plays-unknown a (send_chunks bufsize buf bufsize) h unknown).runs rs
                (opened 0 true false latency s)),
      in_order latency script (exit 1 ∷ []) s,
    )
