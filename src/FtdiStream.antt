-- ===== src/FtdiStream.antt =====
-- The functions of ftdi_stream_ice9.c: streaming reads by asynchronous transfers.
pub mod Packets
pub mod Total
pub mod Rounds
pub mod Ownership
pub mod Stream
pub mod Whole
pub mod Errors
pub mod Held
pub mod Leaks
mod Tests
use ice9_api.Prelude.{
  set, ℕ, zero, suc, ◌+◌, ◌-◌, ◌/◌, ◌%◌, ◌^◌, Bool, true, false, not, Option, none, some, List, [],
  ◌∷◌, ◌++◌, ℤ, pos, negsuc, sub_ℕ, is_pos, length, take, drop, ltb, ◌==◌, if◌then◌else◌, Outcome,
  done, blocked, fault, min_of,
}
use ice9_api.Transfer.{
  Timeval, Doubles, SizeAndTime, ProgressInfo, Callback, StreamState, TransferState, in_flight,
  idle, released, Run, Status, completed, other, Completion, Events, Round, Setup, libusb_error_io,
  libusb_error_interrupted, libusb_error_no_mem,
}

-- `totalBytes += n`, in 64 bits.
abbrev pub add_int : ℕ → ℤ → ℕ
add_int total (pos n) = (total + n) % 2 ^ 64
add_int total (negsuc n) = (total + 2 ^ 64 - (n + 1)) % 2 ^ 64

module _ (D : Doubles) {User : Type 0} (callback : Callback User D.Double) where
  open D use {Double}

  abbrev pub count_bytes : ℤ → StreamState User Double → StreamState User Double
  count_bytes n s = record s {
    progress = record s.progress {
      current = record s.progress.current {
        total_bytes = add_int s.progress.current.total_bytes n;
      };
    };
  }

  -- `for (i = 0; i < numPackets; i++)`, with the rounds left, the bytes from `ptr` on, and `res`.
  pub packet_loop : ℕ → List ℕ → ℤ → StreamState User Double → Option (ℤ × StreamState User Double)
  packet_loop zero ptr res s = some (res, s)
  packet_loop (suc n) ptr res s =
      let packet_len = if ltb s.packetsize (length ptr) then s.packetsize else length ptr in
      let payload_len = sub_ℕ packet_len 2 in
      elim (callback (drop 2 (take packet_len ptr)) payload_len none s.userdata) [
        | none ↦ none
        | some (res', user) ↦
            packet_loop n (drop packet_len ptr) res'
              (record (count_bytes payload_len s) { userdata = user })
      ]

  -- `if (res) { ... } else { ... }` after the loop: the transfer is freed or submitted again.
  abbrev pub after_packets :
      Completion → ℤ → StreamState User Double → Run User Double → Run User Double
  after_packets c res s run =
      if not (is_pos res 0)
      then record run { state = s; transfers = set run.transfers c.place released }
      else record run {
        state = record s { result = c.resubmit };
        transfers = set run.transfers c.place (if is_pos c.resubmit 0 then in_flight else idle);
      }

  -- `none` is what C leaves undefined, such as a packet size of 0.
  pub ftdi_readstream_cb : Completion → Run User Double → Option (Run User Double)
  ftdi_readstream_cb c run =
      let s = record run.state { activity = run.state.activity + 1 } in
      let num_packets = (length c.bytes + s.packetsize - 1) / s.packetsize in
      elim c.status [
        | completed ↦ elim (s.packetsize == 0) [
          | true ↦ none
          | false ↦ elim (packet_loop num_packets c.bytes (pos 0) s) [
            | none ↦ none
            | some (res, s') ↦ some (after_packets c res s' run)
          ]
        ]
        | other ↦ some (record run {
          state = record s { result = libusb_error_io };
          transfers = set run.transfers c.place idle;
        })
      ]

  -- `libusb_handle_events_timeout`: the callbacks of the transfers that it is through with.
  pub handle_events : List Completion → Run User Double → Option (Run User Double)
  handle_events [] run = some run
  handle_events (c ∷ cs) run = elim (ftdi_readstream_cb c run) [
    | none ↦ none
    | some run' ↦ handle_events cs run'
  ]

  pub timeval_diff : Timeval → Timeval → Double
  timeval_diff a b =
      D.plus (D.of_int (sub_ℕ a.tv_sec b.tv_sec))
        (D.times D.micro (D.of_int (sub_ℕ a.tv_usec b.tv_usec)))

  -- The report once enough time has elapsed.
  pub report : Timeval → ProgressInfo Double → ProgressInfo Double
  report now progress =
      let p = record progress {
        current = record progress.current { time = now };
        total_time = timeval_diff now progress.first.time;
      } in
      if p.prev.total_bytes == 0 then p else record p {
        total_rate = D.over (D.of_count p.current.total_bytes) p.total_time;
        current_rate =
            D.over (D.of_count ((p.current.total_bytes + 2 ^ 64 - p.prev.total_bytes) % 2 ^ 64))
              (timeval_diff now p.prev.time);
      }

  -- The callback gets the report; what it returns is not looked at.
  pub update_progress : Timeval → StreamState User Double → Option (StreamState User Double)
  update_progress now s = elim (D.at_least (timeval_diff now s.progress.current.time) D.one) [
    | false ↦ some s
    | true ↦
        let p = report now s.progress in
        elim (callback [] (pos 0) (some p) s.userdata) [
          | none ↦ none
          | some (_, user) ↦
              some (record s { userdata = user; progress = record p { prev = p.current } })
        ]
  ]

  -- What the round makes of the value of `libusb_handle_events_timeout` and of the activity.
  abbrev pub settle : ℤ → StreamState User Double → StreamState User Double
  settle err s =
      let s' = if is_pos s.result 0 then record s { result = err } else s in
      if s'.activity == 0 then record s' { result = pos 1 } else record s' { activity = 0 }

  abbrev pub is_interrupted : ℤ → Bool
  is_interrupted (pos n) = false
  is_interrupted (negsuc n) = n == 9

  -- The transfers of the round, and the value of the last call.
  pub round_events : Round → Run User Double → Option (ℤ × Run User Double)
  round_events r run = elim (handle_events r.events.completions run) [
    | none ↦ none
    | some run' ↦ elim (is_interrupted r.events.ret) [
      | false ↦ some (r.events.ret, run')
      | true ↦ elim (handle_events r.again.completions run') [
        | none ↦ none
        | some run'' ↦ some (r.again.ret, run'')
      ]
    ]
  ]

  -- The body of `do ... while (!state.result)`.
  pub transfer_round : Round → Run User Double → Option (Run User Double)
  transfer_round r run = elim (round_events r run) [
    | none ↦ none
    | some (err, run') ↦ elim (update_progress r.now (settle err run'.state)) [
      | none ↦ none
      | some s ↦ some (record run' { state = s })
    ]
  ]

  pub stream_loop : List Round → Run User Double → Outcome Round (Run User Double) ℤ
  stream_loop [] run = blocked run
  stream_loop (r ∷ rounds) run = elim (transfer_round r run) [
    | none ↦ fault
    | some run' ↦ elim (is_pos run'.state.result 0) [
      | true ↦ stream_loop rounds run'
      | false ↦ done run'.state.result rounds run'
    ]
  ]

  -- `for (xferIndex = 0; xferIndex < numTransfers; xferIndex++)`, with the transfers left, and what
  -- the set-up of each gets: the value of `err`, and the state.
  pub set_up_transfers : ℕ → (ℕ → Setup) → ℕ → Run User Double → ℤ × Run User Double
  set_up_transfers zero setup xfer_index run = (pos 0, run)
  set_up_transfers (suc n) setup xfer_index run =
      let got = setup xfer_index in
      let add : TransferState → Run User Double =
        λ t. record run { transfers = run.transfers ++ t ∷ [] } in
      let rest = set_up_transfers n setup (xfer_index + 1) (add in_flight) in
      if not got.allocated
      then (libusb_error_no_mem, run)
      else if not got.buffer
      then (libusb_error_no_mem, add idle)
      else if not (is_pos got.submit 0)
      then (got.submit, add idle)
      else rest

  -- The state that the function starts with; `zeros` is the report with all fields 0.
  abbrev pub start : User → ℕ → ProgressInfo Double → Run User Double
  start userdata packetsize zeros = record {
    state = record {
      userdata = userdata;
      packetsize = packetsize;
      activity = 1;
      result = pos 0;
      progress = zeros;
    };
    transfers = [];
    array = true;
  }

  abbrev pub set_first_time : Timeval → Run User Double → Run User Double
  set_first_time now run = record run {
    state = record run.state {
      progress = record run.state.progress {
        first = record run.state.progress.first { time = now };
      };
    };
  }

  -- The label `cleanup`: `free(transfers)`.
  abbrev pub cleanup : Outcome Round (Run User Double) ℤ → Outcome Round (Run User Double) ℤ
  cleanup (done code rounds run) = done code rounds (record run { array = false })
  cleanup outcome = outcome

  -- `max_packet_size` is the field of the ftdi context, `array` whether `calloc` gives memory, and
  -- `first` the time when all transfers are set up.
  pub ftdi_readstream_ice9 :
      (max_packet_size : ℕ) (userdata : User) (zeros : ProgressInfo Double)
      → (num_transfers : ℕ) (array : Bool) (setup : ℕ → Setup) (first : Timeval) → List Round
      → Outcome Round (Run User Double) ℤ
  ftdi_readstream_ice9 max_packet_size userdata zeros num_transfers array setup first rounds =
      let run = start userdata max_packet_size zeros in
      if not array
      then done libusb_error_no_mem rounds (record run { array = false })
      else (let (err, run') = set_up_transfers num_transfers setup 0 run in
          if not (is_pos err 0)
          then cleanup (done err rounds run')
          else cleanup (stream_loop rounds (set_first_time first run')))
