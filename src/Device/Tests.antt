-- ===== src/Device/Tests.antt =====
-- Tests and witnesses for the functions on the device.
use ice9_api.Prelude.{◌≡◌, refl, true, false, [], ◌∷◌, arith, pos, negsuc, done, replicate}
use ice9_api.ErrorCode.{ok, reset_failed, libusb_io_error}
use ice9_api.Host.{Host, UsbReply, bulk_out, control_transfer, usleep, log_call, init}
use ice9_api.Register.{ice9_ping_bridge, ice9_send_ping, ice9_write_word, ice9_write_words}
use ice9_api.Device.{ice9_new, ice9_usb_reset, ice9_fifo_mode}
use ice9_api.Device.Script.{log_calls, script_calls}
use ice9_api.Device.Reset.{fifo_script, usb_reset_fails, fifo_mode_ignores_ping}

-- Memory as `malloc` may return it.
abbrev host : Host
host = record {
  handle = record {
    device = true;
    ring = record {
      read_buffer = λ i. 3;
      read_buffer_size = 5;
      read_buffer_head = 900;
      read_buffer_tail = 7;
    };
    stream = record {
      stream_bytes_to_read = 11;
      stream_bytes_read_so_far = 12;
      stream_data = λ i. 13;
      extra_data_buffer = λ i. 14;
      extra_data_read_pointer = 15;
      extra_data_bytes = 16;
    };
  };
  ecode = ok;
  calls = [];
}

abbrev good : UsbReply
good = record { ret = pos 0; bytes = []; actual_length = 0 }

abbrev bad : UsbReply
bad = record { ret = negsuc 6; bytes = []; actual_length = 0 }

new_fails : ice9_new (λ i. 0) (λ i. 0) (bad ∷ []) host ≡ done false [] (log_call init host)
unfolding ice9_new
new_fails = refl

usb_reset_fails_example :
    ice9_usb_reset (good ∷ bad ∷ []) host
    ≡ done reset_failed [] (
        log_calls
          (control_transfer 0x40 0 0 0 ∷ usleep 1000 ∷ control_transfer 0x40 0 1 0 ∷ [])
          host)
usb_reset_fails_example = usb_reset_fails (good ∷ []) [] bad host (refl, tt) (omega arith) refl

-- The ping's own write fails, after the four good replies and the write of zeros.
abbrev cleared : Host
cleared = log_call (bulk_out 0x02 (replicate 4096 0)) (log_calls (script_calls fifo_script) host)

ping_not_sent :
    ice9_ping_bridge 0x67 (bad ∷ []) cleared
    ≡ done libusb_io_error []
        (record (log_call (bulk_out 0x02 (0x67 ∷ 1 ∷ [])) cleared) { ecode = libusb_io_error })
unfolding ice9_ping_bridge ice9_send_ping ice9_write_word ice9_write_words
ping_not_sent = refl

fifo_mode_ignores_ping_example :
    ice9_fifo_mode (good ∷ good ∷ good ∷ good ∷ bad ∷ bad ∷ []) host
    ≡ done ok []
        (record (log_call (bulk_out 0x02 (0x67 ∷ 1 ∷ [])) cleared) { ecode = libusb_io_error })
fifo_mode_ignores_ping_example =
    fifo_mode_ignores_ping (good ∷ good ∷ good ∷ good ∷ []) (bad ∷ []) [] bad libusb_io_error host _
      (refl, (refl, (refl, (refl, tt)))) refl ping_not_sent
