-- ===== src/Ftdi.antt =====
-- The calls of libftdi that mpsse.c makes, its variables, and the commands of the MPSSE engine.
use ice9_api.Prelude.{ℕ, Bool, List, [], ◌∷◌, ◌++◌, ℤ, done, exited, blocked, Effect}

-- `enum ftdi_interface`, as far as it is used.
pub data FtdiInterface : Type 0 where
  interface_a interface_b interface_c interface_d : FtdiInterface

-- A call of libftdi, with the arguments that vary, or of `usleep` or `exit`.
pub data FtdiCall : Type 0 where
  init usb_open_string usb_reset usb_purge_buffers get_latency_timer : FtdiCall
  disable_bitbang usb_close deinit : FtdiCall
  set_interface : FtdiInterface → FtdiCall
  usb_open : ℕ → ℕ → FtdiCall
  set_latency_timer : ℕ → FtdiCall
  -- the mode is `BITMODE_MPSSE`
  set_bitmode : ℕ → FtdiCall
  write_data : List ℕ → FtdiCall
  read_data : ℕ → FtdiCall
  usleep : ℕ → FtdiCall
  exit : ℕ → FtdiCall

-- What a call of libftdi returns: its value, and the byte written through its pointer (by a read
-- of one byte, and by `ftdi_get_latency_timer`).
pub record FtdiReply : Type 0 where
  pub ret : ℤ
  pub byte : ℕ

-- The variables of mpsse.c, and the calls made so far, the latest last.
pub record Mpsse : Type 0 where
  pub is_open : Bool
  pub latency_set : Bool
  pub latency : ℕ
  pub calls : List FtdiCall

abbrev pub Ftdi {ℓ} : Type ℓ → Type ℓ
Ftdi A = Effect FtdiReply Mpsse A

abbrev pub log_call : FtdiCall → Mpsse → Mpsse
log_call c s = record s { calls = s.calls ++ c ∷ [] }

-- A call that returns.
abbrev pub ftdi_call : FtdiCall → Ftdi FtdiReply
ftdi_call c [] s = blocked (log_call c s)
ftdi_call c (r ∷ rs) s = done r rs (log_call c s)

-- A call whose result nobody reads.
abbrev pub ftdi_do : FtdiCall → Ftdi (Unit {0})
ftdi_do c rs s = done tt rs (log_call c s)

abbrev pub get_state : Ftdi Mpsse
get_state rs s = done s rs s

abbrev pub set_state : (Mpsse → Mpsse) → Ftdi (Unit {0})
set_state f rs s = done tt rs (f s)

abbrev pub exit_with {ℓ} : {A : Type ℓ} → ℕ → Ftdi A
exit_with status rs s = exited rs (log_call (exit status) s)

-- The commands of `enum mpsse_cmd`.
pub data MpsseCmd : Type 0 where
  mc_setb_low mc_readb_low mc_setb_high mc_readb_high mc_loopback_en mc_loopback_dis : MpsseCmd
  mc_set_clk_div mc_flush mc_wait_h mc_wait_l mc_tck_x5 mc_tck_d5 mc_en_3ph_clk : MpsseCmd
  mc_dis_3ph_clk mc_clk_n mc_clk_n8 mc_clk_to_h mc_clk_to_l mc_en_adpt_clk : MpsseCmd
  mc_dis_adpt_clk mc_clk8_to_h mc_clk8_to_l mc_tri : MpsseCmd
  mc_cpu_rs mc_cpu_re mc_cpu_ws mc_cpu_we : MpsseCmd

abbrev pub cmd_byte : MpsseCmd → ℕ
cmd_byte mc_setb_low = 0x80
cmd_byte mc_readb_low = 0x81
cmd_byte mc_setb_high = 0x82
cmd_byte mc_readb_high = 0x83
cmd_byte mc_loopback_en = 0x84
cmd_byte mc_loopback_dis = 0x85
cmd_byte mc_set_clk_div = 0x86
cmd_byte mc_flush = 0x87
cmd_byte mc_wait_h = 0x88
cmd_byte mc_wait_l = 0x89
cmd_byte mc_tck_x5 = 0x8A
cmd_byte mc_tck_d5 = 0x8B
cmd_byte mc_en_3ph_clk = 0x8C
cmd_byte mc_dis_3ph_clk = 0x8D
cmd_byte mc_clk_n = 0x8E
cmd_byte mc_clk_n8 = 0x8F
cmd_byte mc_clk_to_h = 0x94
cmd_byte mc_clk_to_l = 0x95
cmd_byte mc_en_adpt_clk = 0x96
cmd_byte mc_dis_adpt_clk = 0x97
cmd_byte mc_clk8_to_h = 0x9C
cmd_byte mc_clk8_to_l = 0x9D
cmd_byte mc_tri = 0x9E
cmd_byte mc_cpu_rs = 0x90
cmd_byte mc_cpu_re = 0x91
cmd_byte mc_cpu_ws = 0x92
cmd_byte mc_cpu_we = 0x93

-- The bits of a command that transfers data.
abbrev pub mc_data_in : ℕ
mc_data_in = 0x20

abbrev pub mc_data_out : ℕ
mc_data_out = 0x10

abbrev pub mc_data_bits : ℕ
mc_data_bits = 0x02

abbrev pub mc_data_ocn : ℕ
mc_data_ocn = 0x01
