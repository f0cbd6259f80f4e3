-- ===== src/FtdiStream/Tests.antt =====
-- Streams of two transfers, with packets of four bytes.
use ice9_api.Prelude.{
  none, ℕ, ◌+◌, ◌*◌, ◌/◌, ◌≡◌, refl, true, false, some, List, [], ◌∷◌, ◌++◌, ℤ, pos, negsuc, is_pos,
  leb, arith, done, get_elem?, ◌%◌, ◌^◌, length,
}
use ice9_api.Transfer.{
  Timeval, Doubles, SizeAndTime, ProgressInfo, Callback, StreamState, in_flight, idle, released,
  Run, completed, other, Completion, Round, Setup, libusb_error_io, libusb_error_no_mem,
}
use ice9_api.Read.Strip.{Packet, frame}
use ice9_api.FtdiStream.{
  packet_loop, ftdi_readstream_cb, handle_events, stream_loop, ftdi_readstream_ice9, after_packets,
  set_up_transfers, transfer_round, round_events, update_progress, timeval_diff,
}
use ice9_api.FtdiStream.Whole.{stream_loop_hands_over}
use ice9_api.FtdiStream.Packets.{hand_over, cb_hands_over}
use ice9_api.FtdiStream.Rounds.{readstream_ends}
use ice9_api.FtdiStream.Ownership.{cb_settles}
use ice9_api.FtdiStream.Held.{AllHeld}
use ice9_api.FtdiStream.Leaks.{readstream_leaks}
use ice9_api.FtdiStream.Errors.{error_forgotten, readstream_abandons}

-- Whole numbers in the place of `double`.
abbrev whole : ℤ → ℕ
whole (pos n) = n
whole (negsuc n) = 0

abbrev numbers : Doubles
numbers = record {
  Double = ℕ;
  of_int = whole;
  of_count = λ n. n;
  micro = 0;
  one = 1;
  plus = λ a b. a + b;
  times = λ a b. a * b;
  over = λ a b. a / b;
  at_least = λ a b. leb b a;
}

-- A callback that keeps what it gets, and wants more.
abbrev keeps : Callback (List (List ℕ)) ℕ
keeps bytes n p got = some (pos 0, got ++ bytes ∷ [])

abbrev midnight : Timeval
midnight = record { tv_sec = 0; tv_usec = 0 }

abbrev no_size : SizeAndTime
no_size = record { total_bytes = 0; time = midnight }

abbrev zeros : ProgressInfo ℕ
zeros = record {
  first = no_size;
  prev = no_size;
  current = no_size;
  total_time = 0;
  total_rate = 0;
  current_rate = 0;
}

-- Two transfers are with libusb, and a third has been freed.
abbrev streaming : Run (List (List ℕ)) ℕ
streaming = record {
  state = record { userdata = []; packetsize = 4; activity = 0; result = pos 0; progress = zeros };
  transfers = in_flight ∷ in_flight ∷ released ∷ [];
  array = true;
}

abbrev packets : List Packet
packets =
    record { modem_status = 1; line_status = 96; payload = 10 ∷ 11 ∷ [] }
    ∷ record { modem_status = 1; line_status = 96; payload = 12 ∷ [] }
    ∷ []

abbrev good : Completion
good = record { place = 1; status = completed; bytes = frame packets; resubmit = pos 0 }

abbrev bad : Completion
bad = record { place = 0; status = other; bytes = []; resubmit = pos 0 }

abbrev after_good : StreamState (List (List ℕ)) ℕ
after_good = record {
  userdata = (10 ∷ 11 ∷ []) ∷ (12 ∷ []) ∷ [];
  packetsize = 4;
  activity = 1;
  result = pos 0;
  progress = record zeros { current = record { total_bytes = 3; time = midnight } };
}

cb_hands_over_example :
    ftdi_readstream_cb numbers keeps good streaming
    ≡ some (after_packets numbers keeps good (pos 0) after_good streaming)
unfolding hand_over
cb_hands_over_example =
    cb_hands_over numbers keeps good packets streaming (pos 0) after_good refl refl (omega arith)
      (omega arith, omega arith) refl

abbrev round_of : List Completion → Round
round_of cs = record {
  events = record { completions = cs; ret = pos 0 };
  again = record { completions = []; ret = pos 0 };
  now = midnight;
}

abbrev set_up_ok : ℕ → Setup
set_up_ok i = record { allocated = true; buffer = true; submit = pos 0 }

readstream_ends_example :
    (code : ℤ) × (rest' : List Round) × (run : Run (List (List ℕ)) ℕ) × (ftdi_readstream_ice9
        numbers keeps 4 [] zeros 2 true set_up_ok midnight
        (round_of (good ∷ []) ∷ round_of [] ∷ round_of [] ∷ [])
      ≡ done code rest' run)
    × (is_pos code 0 ≡ false)
readstream_ends_example =
    readstream_ends numbers keeps 4 [] zeros 2 true set_up_ok midnight (round_of (good ∷ []) ∷ [])
      [] (round_of []) (round_of []) (λ bytes n p got. (pos 0, got ++ bytes ∷ [], refl))
      (omega arith) (record { nothing = refl; nothing_again = refl })
      (record { nothing = refl; nothing_again = refl })

abbrev streamed : Run (List (List ℕ)) ℕ
streamed = after_packets numbers keeps good (pos 0) after_good streaming

cb_settles_example :
    (run' : Run (List (List ℕ)) ℕ) × (ftdi_readstream_cb numbers keeps good streaming ≡ some run')
    × (get_elem? run'.transfers 1 ≡ some in_flight)
    × (run'.state.result ≡ pos 0)
    × (get_elem? run'.transfers 2 ≡ some released)
unfolding hand_over
cb_settles_example =
    cb_settles numbers keeps good packets streaming (pos 0) after_good refl refl (omega arith)
      (omega arith, omega arith) refl refl 2 (omega arith)

error_forgotten_example :
    (run' : Run (List (List ℕ)) ℕ) × (stream_loop numbers keeps
        (round_of (bad ∷ good ∷ []) ∷ [])
        streaming
      ≡ stream_loop numbers keeps [] run')
    × (get_elem? run'.transfers 0 ≡ some idle)
unfolding packet_loop
error_forgotten_example =
    error_forgotten numbers keeps bad good (round_of (bad ∷ good ∷ [])) [] streaming
      (record after_good { activity = 2; result = libusb_error_io })
      (λ bytes n p got. (pos 0, got ++ bytes ∷ [], refl)) (omega arith) refl (omega arith) refl refl
      refl refl refl refl

-- There is no memory for the buffer of the third transfer.
abbrev no_third_buffer : ℕ → Setup
no_third_buffer i = record { allocated = true; buffer = leb i 1; submit = pos 0 }

readstream_abandons_example :
    (run : Run (List (List ℕ)) ℕ) × (ftdi_readstream_ice9 numbers keeps 4 [] zeros 4 true
        no_third_buffer midnight []
      ≡ done libusb_error_no_mem [] run)
    × (run.transfers ≡ in_flight ∷ in_flight ∷ idle ∷ [])
readstream_abandons_example =
    readstream_abandons numbers keeps 4 [] zeros no_third_buffer midnight [] 2 1
      (λ j lt. record { has_transfer = refl; has_buffer = ground arith; submitted = refl }) refl

-- The same, but reports are left alone.
abbrev keeps_bytes : Callback (List (List ℕ)) ℕ
keeps_bytes bytes n p got = elim p [
  | none ↦ some (pos 0, got ++ bytes ∷ [])
  | some report ↦ some (pos 0, got)
]

abbrev now_due : Round
now_due = record (round_of (good ∷ record good { place = 0 } ∷ [])) {
  now = record { tv_sec = 5; tv_usec = 0 };
}

-- A round with one transfer, and one with two, after which a report is due.
stream_loop_hands_over_example :
    (run' : Run (List (List ℕ)) ℕ) × (stream_loop numbers keeps_bytes
        (round_of (good ∷ []) ∷ now_due ∷ [])
        streaming
      ≡ stream_loop numbers keeps_bytes [] run')
    × (run'.state.userdata
        ≡ (10 ∷ 11 ∷ []) ∷ (12 ∷ []) ∷ (10 ∷ 11 ∷ []) ∷ (12 ∷ []) ∷ (10 ∷ 11 ∷ []) ∷ (12 ∷ []) ∷ [])
    × (run'.state.result ≡ pos 0)
    × (run'.state.progress.current.total_bytes % 2 ^ 64 ≡ 9)
stream_loop_hands_over_example =
    stream_loop_hands_over numbers keeps_bytes (round_of (good ∷ []) ∷ now_due ∷ []) []
      ((packets ∷ []) ∷ (packets ∷ packets ∷ []) ∷ []) streaming
      ((10 ∷ 11 ∷ []) ∷ (12 ∷ []) ∷ (10 ∷ 11 ∷ []) ∷ (12 ∷ []) ∷ (10 ∷ 11 ∷ []) ∷ (12 ∷ []) ∷ [])
      (λ p user. (pos 0, refl)) (omega arith) refl
      (
        record {
          carries = (refl, refl, (omega arith, omega arith), tt);
          resubmitted = (refl, tt);
          some_come = omega arith;
          no_error = refl;
        },
        (
          record {
            carries = (
              refl,
              refl,
              (omega arith, omega arith),
              (refl, refl, (omega arith, omega arith), tt),
            );
            resubmitted = (refl, (refl, tt));
            some_come = omega arith;
            no_error = refl;
          },
          tt,
        ),
      )
      refl

-- Two transfers are set up, one of them brings packets, then both are quiet.
abbrev left : Run (List (List ℕ)) ℕ
left = record {
  state = record after_good { activity = 0; result = pos 1 };
  transfers = in_flight ∷ in_flight ∷ [];
  array = false;
}

left_run :
    ftdi_readstream_ice9 numbers keeps 4 [] zeros 2 true set_up_ok midnight
      (round_of (good ∷ []) ∷ round_of [] ∷ [])
    ≡ done (pos 1) [] left
unfolding ftdi_readstream_ice9 set_up_transfers stream_loop transfer_round round_events
    update_progress handle_events ftdi_readstream_cb packet_loop timeval_diff
left_run = refl

readstream_leaks_example :
    AllHeld left.transfers × (length left.transfers ≡ 2) × (left.array ≡ false)
unfolding set_up_transfers
readstream_leaks_example =
    readstream_leaks numbers keeps 4 [] zeros 2 set_up_ok midnight
      (round_of (good ∷ []) ∷ round_of [] ∷ []) [] (pos 1) left
      (record { at = λ bytes n got. refl }) left_run
