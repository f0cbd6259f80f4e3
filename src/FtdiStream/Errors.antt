-- ===== src/FtdiStream/Errors.antt =====
-- Errors of single transfers, and of the set-up.
use ice9_api.Prelude.{
  some_injective, ◌||◌, ℕ, zero, suc, ◌+◌, ◌-◌, ◌/◌, ◌<◌, ◌≡◌, ◌≢◌, refl, ◌∙◌, sym, ap, true, false,
  not, some, List, [], ◌∷◌, ◌++◌, append_assoc, append-nil, ℤ, pos, is_pos, get_elem?, set,
  get_elem?-set_ne, get_elem?-set_self, arith, length, replicate, if◌then◌else◌, done,
}
use ice9_api.Transfer.{
  Timeval, ProgressInfo, Doubles, Callback, StreamState, TransferState, in_flight, idle, Run,
  completed, other, Completion, Round, Setup, libusb_error_io, libusb_error_no_mem,
}
use ice9_api.FtdiStream.{
  ftdi_readstream_cb, packet_loop, handle_events, after_packets, stream_loop, round_events, settle,
  set_up_transfers, start, ftdi_readstream_ice9,
}
use ice9_api.FtdiStream.Total.{
  packet_loop_total, Returns, cb_completed, cb_other, update_progress_total, update_progress_keeps,
  transfer_round_steps,
}
use ice9_api.FtdiStream.Rounds.{loop_goes_on, readstream_set_up_fails, set_up}

module _ (D : Doubles) {User : Type 0} (callback : Callback User D.Double) where
  open D use {Double}

  -- The state after a transfer that has failed.
  abbrev failed : Completion → Run User Double → Run User Double
  failed c run = record run {
    state = record run.state { activity = run.state.activity + 1; result = libusb_error_io };
    transfers = set run.transfers c.place idle;
  }

  handle_two :
      (bad good : Completion) (run mid after : Run User Double)
      → ftdi_readstream_cb D callback bad run ≡ some mid
      → ftdi_readstream_cb D callback good mid ≡ some after
      → handle_events D callback (bad ∷ good ∷ []) run ≡ some after
  unfolding handle_events
  handle_two bad good run mid after e f = rw (handle_events, e, f) refl

  pub events_come :
      (cs : List Completion) (r : Round) (run after : Run User Double)
      → r.events.completions ≡ cs
      → r.events.ret ≡ pos 0
      → handle_events D callback cs run ≡ some after
      → round_events D callback r run ≡ some (pos 0, after)
  unfolding round_events
  events_come cs r run after e ret f =
      rw (round_events, e, f, ret) (ap (λ err. some (err, after)) ret)

  settle_goes_on :
      (s : StreamState User Double)
      → s.result ≡ pos 0
      → s.activity ≢ 0
      → (settle D callback (pos 0) s).result ≡ pos 0
  settle_goes_on s e ne = ground arith

  packet_loop-activity :
      (n : ℕ) (ptr : List ℕ) (res res' : ℤ) (s s' : StreamState User Double)
      → Returns callback
      → packet_loop D callback n ptr res s ≡ some (res', s')
      → s'.activity ≡ s.activity
  packet_loop-activity n ptr res res' s s' total e =
      let (r, t, f, p, q, a) = packet_loop_total D callback total n ptr res s in
      ap (λ (x : ℤ × StreamState User Double). x.1.activity) (some_injective (sym e ∙ f)) ∙ a

  -- The error of a transfer is forgotten if another transfer, in the same round, completes after it
  -- and is submitted again: `result` is 0 again, so the loop goes on, with the failed transfer left
  -- idle.
  pub error_forgotten :
      (bad good : Completion) (r : Round) (rounds : List Round) (run : Run User Double)
      → (s : StreamState User Double) → Returns callback
      → run.state.packetsize ≢ 0
      → get_elem? run.transfers bad.place ≡ some in_flight
      → bad.place ≢ good.place
      → bad.status ≡ other
      → good.status ≡ completed
      → packet_loop D callback
          ((length good.bytes + run.state.packetsize - 1) / run.state.packetsize)
          good.bytes
          (pos 0)
          (record run.state { activity = run.state.activity + 1 + 1; result = libusb_error_io })
        ≡ some (pos 0, s)
      → good.resubmit ≡ pos 0
      → r.events.completions ≡ bad ∷ good ∷ []
      → r.events.ret ≡ pos 0
      → (run' : Run User Double) × (stream_loop D callback (r ∷ rounds) run
          ≡ stream_loop D callback rounds run')
        × (get_elem? run'.transfers bad.place ≡ some idle)
  error_forgotten bad good r rounds run s total ne at apart b g loop resubmit events ret =
      let mid = failed bad run in
      let after = after_packets D callback good (pos 0) s mid in
      let active = packet_loop-activity _ good.bytes (pos 0) (pos 0) _ s total loop in
      let zero_result = settle_goes_on after.state resubmit (omega (arith, active)) in
      let handled =
        handle_two bad good run mid after (cb_other D callback bad run b)
          (cb_completed D callback good mid (pos 0) s g ne loop) in
      let (s', f) =
        update_progress_total D callback total r.now (settle D callback (pos 0) after.state) in
      let (p, res, a) =
        update_progress_keeps D callback r.now (settle D callback (pos 0) after.state) s' f in
      let run' : Run User Double = record after { state = s' } in
      (
        run',
        loop_goes_on D callback r rounds run run'
            (transfer_round_steps D callback r run after (pos 0) s'
              (events_come (bad ∷ good ∷ []) r run after events ret handled) f)
            (ap (λ x. is_pos x 0) (res ∙ zero_result)),
        get_elem?-set_ne mid.transfers good.place bad.place _ (λ z. apart (sym z))
            ∙ get_elem?-set_self run.transfers bad.place idle at,
      )

  -- The set-up of a transfer that goes well, and what is left where it does not.
  pub record IsSetUp (got : Setup) : Type 0 where
    pub has_transfer : got.allocated ≡ true
    pub has_buffer : got.buffer ≡ true
    pub submitted : got.submit ≡ pos 0

  abbrev pub set_up_error : Setup → ℤ
  set_up_error got = if not got.allocated || not got.buffer then libusb_error_no_mem else got.submit

  abbrev pub left_over : Setup → List TransferState
  left_over got = if got.allocated then idle ∷ [] else []

  set_up_good :
      (n : ℕ) (setup : ℕ → Setup) (i : ℕ) (run : Run User Double)
      → IsSetUp (setup i)
      → set_up_transfers D callback (suc n) setup i run
        ≡ set_up_transfers D callback n setup
            (i + 1)
            (record run { transfers = run.transfers ++ in_flight ∷ [] })
  unfolding set_up_transfers
  set_up_good n setup i run good =
      rw (set_up_transfers, good.has_transfer, good.has_buffer, good.submitted) refl

  set_up_bad :
      (n : ℕ) (setup : ℕ → Setup) (i : ℕ) (run : Run User Double)
      → is_pos (set_up_error (setup i)) 0 ≡ false
      → set_up_transfers D callback (suc n) setup i run
        ≡ (set_up_error (setup i), record run { transfers = run.transfers ++ left_over (setup i) })
  unfolding set_up_transfers
  set_up_bad n setup i run bad = ground (arith, append-nil run.transfers)

  set_up_stops :
      (k n : ℕ) (setup : ℕ → Setup) (i : ℕ) (run : Run User Double)
      → ((j : ℕ) → j < k → IsSetUp (setup (i + j)))
      → is_pos (set_up_error (setup (i + k))) 0 ≡ false
      → set_up_transfers D callback (k + suc n) setup i run ≡ (
        set_up_error (setup (i + k)),
        record run {
          transfers = run.transfers ++ replicate k in_flight ++ left_over (setup (i + k));
        },
      )
  set_up_stops zero n setup i run good bad =
      let e : 0 + suc n ≡ suc n = omega arith in
      let f : i + 0 ≡ i = omega arith in
      rw (e, f, append-nil run.transfers) (set_up_bad n setup i run (rw f at bad))
  set_up_stops (suc k) n setup i run good bad =
      let e : suc k + suc n ≡ suc (k + suc n) = omega arith in
      let f : i + suc k ≡ i + 1 + k = omega arith in
      let here : i + 0 ≡ i = omega arith in
      let later : (j : ℕ) → j < k → IsSetUp (setup (i + 1 + j)) =
        λ j lt. let g : i + 1 + j ≡ i + suc j = omega arith in rw g (good (suc j) (omega arith)) in
      rw (e, f)
        (set_up_good (k + suc n) setup i run (rw here at (good 0 (omega arith)))
          ∙ set_up_stops k n setup (i + 1)
              (record run { transfers = run.transfers ++ in_flight ∷ [] }) later (rw f at bad)
          ∙ ap
              (λ (ts : List TransferState). (
                set_up_error (setup (i + 1 + k)),
                record run { transfers = ts ++ left_over (setup (i + 1 + k)) },
              ))
              (append_assoc run.transfers (in_flight ∷ []) (replicate k in_flight)))

  -- If the set-up of one of the transfers fails, `ftdi_readstream_ice9` returns its error at once,
  -- and all the transfers set up before it are still with libusb, with pointers to the stream state
  -- of the call that has ended; the transfer that failed is not freed either.
  pub readstream_abandons :
      (size : ℕ) (userdata : User) (zeros : ProgressInfo Double) (setup : ℕ → Setup)
      → (first : Timeval) (rounds : List Round) (k n : ℕ) → ((j : ℕ) → j < k → IsSetUp (setup j))
      → is_pos (set_up_error (setup k)) 0 ≡ false
      → (run : Run User Double) × (ftdi_readstream_ice9 D callback size userdata zeros
            (k + suc n)
            true
            setup
            first
            rounds
          ≡ done (set_up_error (setup k)) rounds run)
        × (run.transfers ≡ replicate k in_flight ++ left_over (setup k))
  readstream_abandons size userdata zeros setup first rounds k n good bad =
      let shift : (j : ℕ) → 0 + j ≡ j = λ j. omega arith in
      let stops =
        set_up_stops k n setup 0 (start D callback userdata size zeros)
          (λ j lt. rw (shift j) (good j lt)) (rw (shift k) bad) in
      let same : set_up D callback size userdata zeros (k + suc n) setup first ≡ (
        set_up_error (setup k),
        record (start D callback userdata size zeros) {
          transfers = replicate k in_flight ++ left_over (setup k);
        },
      ) =
        rw (shift k) at stops in
      let run : Run User Double =
        record (set_up D callback size userdata zeros (k + suc n) setup first).1 {
          array = false;
        } in
      let code = ap (λ (x : ℤ × Run User Double). x.0) same in
      (
        run,
        readstream_set_up_fails D callback size userdata zeros (k + suc n) setup first rounds
              (ap (λ x. is_pos x 0) code ∙ bad)
            ∙ ap (λ x. done x rounds run) code,
        ap (λ (x : ℤ × Run User Double). x.1.transfers) same,
      )
