-- ===== src/Session/Tests.antt =====
-- Witnesses for the calls on a handle.
use ice9_api.Prelude.{◌≡◌, ◌*◌, refl, true, false, [], ◌∷◌, arith, pos, done, List, ℕ, replicate}
use ice9_api.ErrorCode.{ok, partial_write}
use ice9_api.Host.{Host, UsbReply, init, open_device, bulk_out}
use ice9_api.Register.{ice9_write, write_code}
use ice9_api.Device.{ice9_new, ice9_open}
use ice9_api.Session.{write, run, opens, calls, Reach, starts, then_step, IsSound, Reach-IsSound}

-- The memory before `ice9_new`.
abbrev before : Host
before = record {
  handle = record {
    device = false;
    ring = record {
      read_buffer = λ i. 3;
      read_buffer_size = 5;
      read_buffer_head = 9000000;
      read_buffer_tail = 7;
    };
    stream = record {
      stream_bytes_to_read = 11;
      stream_bytes_read_so_far = 12;
      stream_data = λ i. 13;
      extra_data_buffer = λ i. 14;
      extra_data_read_pointer = 15;
      extra_data_bytes = 16;
    };
  };
  ecode = ok;
  calls = [];
}

abbrev reply : List ℕ → ℕ → UsbReply
reply bytes sent = record { ret = pos 0; bytes = bytes; actual_length = sent }

-- The handle after `ice9_new`, and the states after an `ice9_open` and an `ice9_write` of which
-- half the bytes were sent.
abbrev started : Host
started = record {
  handle = record {
    device = false;
    ring = record {
      read_buffer = λ i. 0;
      read_buffer_size = 1024 * 1024;
      read_buffer_head = 0;
      read_buffer_tail = 0;
    };
    stream = record (before.handle.stream) {
      extra_data_buffer = λ i. 1;
      extra_data_read_pointer = 0;
      extra_data_bytes = 0;
    };
  };
  ecode = ok;
  calls = init ∷ [];
}

abbrev opened : Host
opened = record started {
  handle = record (started.handle) { device = true };
  calls = init ∷ open_device 0x3524 2 ∷ [];
}

abbrev written : Host
written = record opened { calls = init ∷ open_device 0x3524 2 ∷ bulk_out 2 (8 ∷ 9 ∷ []) ∷ [] }

new_run : ice9_new (λ i. 0) (λ i. 1) (reply [] 0 ∷ []) before ≡ done true [] started
unfolding ice9_new
new_run = refl

open_run : ice9_open (reply [] 0 ∷ []) started ≡ done ok [] opened
unfolding ice9_open
open_run = refl

write_run : run (write (8 ∷ 9 ∷ []) 2) (reply [] 1 ∷ []) opened ≡ done partial_write [] written
unfolding run ice9_write write_code
write_run = refl

written_reached : Reach written true
written_reached =
    then_step opened written true true
      (then_step started opened false true
        (starts before started (λ i. 0) (λ i. 1) (reply [] 0 ∷ []) [] new_run)
        (opens (reply [] 0 ∷ []) [] open_run))
      (calls (write (8 ∷ 9 ∷ []) 2) partial_write (reply [] 1 ∷ []) [] (omega arith)
        (omega arith, tt) write_run)

Reach-IsSound_example : IsSound written true
Reach-IsSound_example = Reach-IsSound written_reached

-- The FPGA's FIFO gives 600 bytes, which are thrown away, and then the answer to the ping is
-- awaited.
abbrev fifo_replies : List UsbReply
fifo_replies =
    reply [] 0
    ∷ reply [] 0
    ∷ reply [] 0
    ∷ reply (replicate 600 7) 0
    ∷ reply [] 4096
    ∷ reply [] 2
    ∷ []
