-- ===== src/Register/Tests.antt =====
-- Tests and witnesses for the register accesses.
use ice9_api.Prelude.{ℕ, ◌≡◌, refl, true, List, [], ◌∷◌, arith, pos, done}
use ice9_api.ErrorCode.{ok, ping_mismatch}
use ice9_api.Ring.{ring_buffer_size, bytes_in_read_buffer}
use ice9_api.Host.{Host, UsbReply, bulk_out}
use ice9_api.Register.{
  ice9_write_data_to_address, ice9_write_int_to_address, ice9_read_data_from_address,
  ice9_read_int_from_address, ice9_ping_bridge,
}
use ice9_api.Register.Writes.{IsSent}
use ice9_api.Register.DataTrip.{data_round_trip}
use ice9_api.Register.RoundTrip.{IsIdle, packet, int_round_trip, ping_bridge_answer}

abbrev host : Host
host = record {
  handle = record {
    device = true;
    ring = record {
      read_buffer = λ i. 0;
      read_buffer_size = ring_buffer_size;
      read_buffer_head = 9;
      read_buffer_tail = 9;
    };
    stream = record {
      stream_bytes_to_read = 0;
      stream_bytes_read_so_far = 0;
      stream_data = λ i. 0;
      extra_data_buffer = λ i. 0;
      extra_data_read_pointer = 0;
      extra_data_bytes = 0;
    };
  };
  ecode = ok;
  calls = [];
}

host-IsIdle : IsIdle host
unfolding bytes_in_read_buffer
host-IsIdle = record { valid = omega arith; empty = refl }

abbrev sent : ℕ → UsbReply
sent n = record { ret = pos 0; bytes = []; actual_length = n }

sent-IsSent : (n : ℕ) → IsSent n (sent n)
sent-IsSent n = record { succeeds = refl; complete = refl }

int_round_trip_example :
    (bytes : List ℕ) × (h' k' : Host) × (ice9_write_int_to_address 7 0xdeadbeef
        (sent 4 ∷ sent 4 ∷ [])
        host
      ≡ done ok [] h')
    × (h'.calls ≡ bulk_out 0x02 (7 ∷ 3 ∷ 2 ∷ 0 ∷ []) ∷ bulk_out 0x02 bytes ∷ [])
    × (ice9_read_int_from_address 7 (sent 4 ∷ packet 1 96 bytes ∷ []) host
        ≡ done (ok, 0xdeadbeef ∷ []) [] k')
    × IsIdle k'
int_round_trip_example =
    int_round_trip 7 0xdeadbeef 1 96 (sent 4) (sent 4) (sent 4) [] [] host host (omega arith)
      (omega arith) (sent-IsSent 4) (sent-IsSent 4) (sent-IsSent 4) host-IsIdle

ping_bridge_answer_example :
    (h' : Host) × (ice9_ping_bridge 0x67 (sent 2 ∷ packet 1 96 (0x66 ∷ 1 ∷ []) ∷ []) host
      ≡ done ping_mismatch [] h')
    × IsIdle h'
ping_bridge_answer_example =
    ping_bridge_answer 0x67 1 96 0x66 1 (sent 2) [] host (omega arith) (omega arith) (sent-IsSent 2)
      host-IsIdle

-- Three words, of which the first packet of the answer has one and a half.
data_round_trip_example :
    (h' k' : Host) × (ice9_write_data_to_address 7
        (0x0201 ∷ 0x0403 ∷ 0x0605 ∷ [])
        3
        (sent 4 ∷ sent 6 ∷ [])
        host
      ≡ done ok [] h')
    × (h'.calls
        ≡ bulk_out 0x02 (7 ∷ 3 ∷ 3 ∷ 0 ∷ []) ∷ bulk_out 0x02 (1 ∷ 2 ∷ 3 ∷ 4 ∷ 5 ∷ 6 ∷ []) ∷ [])
    × (ice9_read_data_from_address 7 3
          (sent 4 ∷ packet 1 96 (1 ∷ 2 ∷ 3 ∷ []) ∷ packet 1 96 (4 ∷ 5 ∷ 6 ∷ []) ∷ [])
          host
        ≡ done (ok, 0x0201 ∷ 0x0403 ∷ 0x0605 ∷ []) [] k')
    × IsIdle k'
data_round_trip_example =
    data_round_trip 7 (0x0201 ∷ 0x0403 ∷ 0x0605 ∷ []) (sent 4) (sent 6) (sent 4) []
      (packet 1 96 (1 ∷ 2 ∷ 3 ∷ []) ∷ []) (packet 1 96 (4 ∷ 5 ∷ 6 ∷ [])) [] host host (omega arith)
      (omega arith) (omega arith, (omega arith, (omega arith, tt))) (sent-IsSent 4) (sent-IsSent 6)
      (sent-IsSent 4) host-IsIdle
      (record {
        packets = (record { succeeds = refl; fits = omega arith }, tt);
        packet = record { succeeds = refl; fits = omega arith };
        not_empty = omega arith;
        whole = refl;
      })
