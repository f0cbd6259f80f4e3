-- ===== src/FtdiStream/Total.antt =====
-- What a call of libusb, a round of the loop and the progress report keep, and that they go well.
use ice9_api.Prelude.{
  set, zero, ltb, take, drop, sub_ℕ, ℕ, suc, ◌≡◌, ◌≢◌, refl, ◌∙◌, sym, true, false, Option, none,
  some, List, [], ◌∷◌, ℤ, pos, is_pos, ◌==◌, if◌then◌else◌, Bool-cases, inl, inr, arith, length,
  ◌+◌, ◌-◌, ◌/◌,
}
use ice9_api.Transfer.{
  Timeval, Doubles, ProgressInfo, Callback, StreamState, Run, completed, other, Completion, Round,
  Status-cases, libusb_error_io, idle,
}
use ice9_api.FtdiStream.{
  after_packets, count_bytes, packet_loop, ftdi_readstream_cb, handle_events, update_progress,
  settle, round_events, transfer_round, is_interrupted, report, timeval_diff,
}

-- A callback that always returns.
abbrev pub Returns : {User Double : Type 0} → Callback User Double → Type 0
Returns {User} {Double} callback =
    (bytes : List ℕ) (n : ℤ) (p : Option (ProgressInfo Double)) (user : User)
    → (res : ℤ) × (user' : User) × (callback bytes n p user ≡ some (res, user'))

module _ (D : Doubles) {User : Type 0} (callback : Callback User D.Double) where
  open D use {Double}

  -- What the parts of a round leave as it is.
  pub packet_loop_total :
      Returns callback
      → (n : ℕ) (ptr : List ℕ) (res : ℤ) (s : StreamState User Double)
      → (res' : ℤ) × (s' : StreamState User Double) × (packet_loop D callback n ptr res s
          ≡ some (res', s'))
        × (s'.packetsize ≡ s.packetsize)
        × (s'.result ≡ s.result)
        × (s'.activity ≡ s.activity)
  unfolding packet_loop
  packet_loop_total total zero ptr res s = (res, s, refl, refl, refl, refl)
  packet_loop_total total (suc n) ptr res s =
      let packet_len = if ltb s.packetsize (length ptr) then s.packetsize else length ptr in
      let payload_len = sub_ℕ packet_len 2 in
      let (res', user, e) = total (drop 2 (take packet_len ptr)) payload_len none s.userdata in
      let (r, s', run, p, q, a) =
        packet_loop_total total n (drop packet_len ptr) res'
          (record (count_bytes D callback payload_len s) { userdata = user }) in
      (r, s', rw (packet_loop, e) run, p, q, a)

  pub update_progress_keeps :
      (now : Timeval) (s s' : StreamState User Double)
      → update_progress D callback now s ≡ some s'
      → (s'.packetsize ≡ s.packetsize) × (s'.result ≡ s.result) × (s'.activity ≡ s.activity)
  unfolding update_progress
  update_progress_keeps now s s' e = ground (arith, e)

  pub update_progress_total :
      Returns callback
      → (now : Timeval) (s : StreamState User Double)
      → (s' : StreamState User Double) × (update_progress D callback now s ≡ some s')
  unfolding update_progress
  update_progress_total total now s =
      let p = report D callback now s.progress in
      let (res, user, e) = total [] (pos 0) (some p) s.userdata in
      elim (Bool-cases (D.at_least (timeval_diff D callback now s.progress.current.time) D.one)) [
        | inl late ↦ (
          record s { userdata = user; progress = record p { prev = p.current } },
          rw (update_progress, late, e) refl,
        )
        | inr early ↦ (s, rw (update_progress, early) refl)
      ]

  pub settle_lem :
      (err : ℤ) (s : StreamState User Double)
      → ((settle D callback err s).packetsize ≡ s.packetsize)
        × (is_pos (settle D callback err s).result 0 ≡ true
            → (settle D callback err s).activity ≡ 0)
        × (s.activity ≡ 0 → (settle D callback err s).result ≡ pos 1)
  settle_lem err s = (ground arith, λ z. ground arith, λ z. ground arith)

  -- With a callback that returns, and a packet size that is not 0, nothing goes wrong.
  pub cb_completed :
      (c : Completion) (run : Run User Double) (res : ℤ) (s' : StreamState User Double)
      → c.status ≡ completed
      → run.state.packetsize ≢ 0
      → packet_loop D callback
          ((length c.bytes + run.state.packetsize - 1) / run.state.packetsize)
          c.bytes
          (pos 0)
          (record run.state { activity = run.state.activity + 1 })
        ≡ some (res, s')
      → ftdi_readstream_cb D callback c run ≡ some (after_packets D callback c res s' run)
  unfolding ftdi_readstream_cb
  cb_completed c run res s' done_with ne e =
      let ne' : run.state.packetsize == 0 ≡ false = ground arith in
      rw (ftdi_readstream_cb, done_with, ne', e) refl

  pub cb_other :
      (c : Completion) (run : Run User Double)
      → c.status ≡ other
      → ftdi_readstream_cb D callback c run
        ≡ some (record run {
          state = record run.state { activity = run.state.activity + 1; result = libusb_error_io };
          transfers = set run.transfers c.place idle;
        })
  unfolding ftdi_readstream_cb
  cb_other c run bad = rw (ftdi_readstream_cb, bad) refl

  cb_total :
      Returns callback
      → (c : Completion) (run : Run User Double) → run.state.packetsize ≢ 0
      → (run' : Run User Double) × (ftdi_readstream_cb D callback c run ≡ some run')
        × (run'.state.packetsize ≡ run.state.packetsize)
  cb_total total c run ne = elim (Status-cases c.status) [
    | inl done_with ↦
        let (res, s', e, p, q, a) =
          packet_loop_total total
            ((length c.bytes + run.state.packetsize - 1) / run.state.packetsize) c.bytes (pos 0)
            (record run.state { activity = run.state.activity + 1 }) in
        (
          after_packets D callback c res s' run,
          cb_completed c run res s' done_with ne e,
          ground (arith, p),
        )
    | inr bad ↦ (_, cb_other c run bad, refl)
  ]

  pub handle_events_total :
      Returns callback
      → (cs : List Completion) (run : Run User Double) → run.state.packetsize ≢ 0
      → (run' : Run User Double) × (handle_events D callback cs run ≡ some run')
        × (run'.state.packetsize ≡ run.state.packetsize)
  unfolding handle_events
  handle_events_total total [] run ne = (run, refl, refl)
  handle_events_total total (c ∷ cs) run ne =
      let (next, e, p) = cb_total total c run ne in
      let (run', f, q) = handle_events_total total cs next (λ z. ne (sym p ∙ z)) in
      (run', rw (handle_events, e) f, q ∙ p)

  round_events_total :
      Returns callback
      → (r : Round) (run : Run User Double) → run.state.packetsize ≢ 0
      → (err : ℤ) × (run' : Run User Double) × (round_events D callback r run ≡ some (err, run'))
        × (run'.state.packetsize ≡ run.state.packetsize)
  unfolding round_events
  round_events_total total r run ne =
      let (next, e, p) = handle_events_total total r.events.completions run ne in
      let (last, f, q) = handle_events_total total r.again.completions next (λ z. ne (sym p ∙ z)) in
      elim (Bool-cases (is_interrupted D callback r.events.ret)) [
        | inl twice ↦ (r.again.ret, last, rw (round_events, e, twice, f) refl, q ∙ p)
        | inr once ↦ (r.events.ret, next, rw (round_events, e, once) refl, p)
      ]

  pub transfer_round_steps :
      (r : Round) (run next : Run User Double) (err : ℤ) (s : StreamState User Double)
      → round_events D callback r run ≡ some (err, next)
      → update_progress D callback r.now (settle D callback err next.state) ≡ some s
      → transfer_round D callback r run ≡ some (record next { state = s })
  unfolding transfer_round
  transfer_round_steps r run next err s e f = rw (transfer_round, e, f) refl

  pub transfer_round_total :
      Returns callback
      → (r : Round) (run : Run User Double) → run.state.packetsize ≢ 0
      → (run' : Run User Double) × (transfer_round D callback r run ≡ some run')
        × (run'.state.packetsize ≡ run.state.packetsize)
  transfer_round_total total r run ne =
      let (err, next, e, p) = round_events_total total r run ne in
      let (s, f) = update_progress_total total r.now (settle D callback err next.state) in
      let kept = update_progress_keeps r.now (settle D callback err next.state) s f in
      (
        record next { state = s },
        transfer_round_steps r run next err s e f,
        kept.0 ∙ (settle_lem err next.state).0 ∙ p,
      )
