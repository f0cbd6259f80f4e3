-- ===== src/Mpsse/Tests.antt =====
-- The functions of mpsse.c run on short lists of replies.
use ice9_api.Prelude.{
  negsuc, ◌≡◌, refl, true, false, some, List, [], ◌∷◌, ◌++◌, done, exited, pos, arith,
}
use ice9_api.Ftdi.{
  init, set_interface, interface_b, usb_open, usb_reset, usb_purge_buffers, get_latency_timer,
  set_latency_timer, FtdiCall, FtdiReply, Mpsse, exit, usb_close, deinit, read_data,
}
use ice9_api.Mpsse.{mpsse_send_spi, mpsse_xfer_spi, mpsse_init}
use ice9_api.Mpsse.Failures.{init_gives_back, set_latency, as_second}
use ice9_api.Mpsse.Frames.{
  mpsse_send_spi-parse, mpsse_xfer_spi-parse, wrote, give, reads, add_calls, parse_transfer,
  written,
}

-- A device that is open, with the latency timer changed from 16.
abbrev opened : Mpsse
opened = record { is_open = true; latency_set = true; latency = 16; calls = [] }

abbrev empty_read : FtdiReply
empty_read = record { ret = pos 0; byte = 0 }

abbrev failed : FtdiReply
failed = record { ret = negsuc 0; byte = 0 }

abbrev one_byte : FtdiReply
one_byte = record { ret = pos 1; byte = 7 }

mpsse_send_spi-parse_example :
    (cs : List FtdiCall) × (mpsse_send_spi
        (5 ∷ 6 ∷ [])
        2
        (wrote 1 ∷ wrote 1 ∷ wrote 1 ∷ wrote 2 ∷ [])
        opened
      ≡ done tt [] (add_calls cs opened))
    × (parse_transfer (written cs ++ 0x81 ∷ []) ≡ some (0x11, 5 ∷ 6 ∷ [], 0x81 ∷ []))
mpsse_send_spi-parse_example =
    mpsse_send_spi-parse (5 ∷ 6 ∷ []) 2 [] opened (0x81 ∷ []) (omega arith) (omega arith)
      (omega arith)

mpsse_xfer_spi-parse_example :
    (cs : List FtdiCall) × (mpsse_xfer_spi
        (5 ∷ 6 ∷ [])
        2
        (wrote 1 ∷ wrote 1 ∷ wrote 1 ∷ wrote 2 ∷ give (8 ∷ 9 ∷ []))
        opened
      ≡ done (8 ∷ 9 ∷ []) [] (add_calls (reads (8 ∷ 9 ∷ [])) (add_calls cs opened)))
    × (parse_transfer (written cs ++ []) ≡ some (0x31, 5 ∷ 6 ∷ [], []))
mpsse_xfer_spi-parse_example =
    mpsse_xfer_spi-parse (5 ∷ 6 ∷ []) (8 ∷ 9 ∷ []) [] opened [] (omega arith) (omega arith)
      (omega arith)

-- A second start, with the variables as the first has left them; the chip is of the second kind,
-- with the timer at 5, and refuses the timer's new value.
init_gives_back_example :
    (s' : Mpsse) × (mpsse_init 1 false false
        (failed
          ∷ wrote 0
          ∷ wrote 0
          ∷ wrote 0
          ∷ record { ret = pos 0; byte = 5 }
          ∷ failed
          ∷ one_byte
          ∷ wrote 0
          ∷ [])
        opened
      ≡ exited [] s')
    × (s'.calls
        ≡ init
          ∷ set_interface interface_b
          ∷ usb_open 0x0403 0x6010
          ∷ usb_open 0x0403 0x6014
          ∷ usb_reset
          ∷ usb_purge_buffers
          ∷ get_latency_timer
          ∷ set_latency_timer 1
          ∷ read_data 1
          ∷ read_data 1
          ∷ set_latency_timer 5
          ∷ usb_close
          ∷ deinit
          ∷ exit 2
          ∷ [])
init_gives_back_example =
    init_gives_back set_latency (as_second failed) 1 5 false opened failed (one_byte ∷ []) (wrote 0)
      [] refl refl (record { not_negative = refl; not_zero = refl }, tt) refl
