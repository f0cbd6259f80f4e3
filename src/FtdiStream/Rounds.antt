-- ===== src/FtdiStream/Rounds.antt =====
-- The loop of `ftdi_readstream_ice9`: what it returns, and that it ends.
use ice9_api.Prelude.{
  zero, ℕ, suc, ◌≡◌, ◌≢◌, refl, ◌∙◌, sym, ap, Bool, true, false, some, List, [], ◌∷◌, ◌++◌, ℤ, pos,
  is_pos, done, Bool-cases, Option-cases, inl, inr, arith, ◌+◌,
}
use ice9_api.Transfer.{Timeval, Doubles, ProgressInfo, Callback, Run, Round, Setup, in_flight}
use ice9_api.FtdiStream.{
  start, set_first_time, handle_events, settle, round_events, transfer_round, stream_loop,
  set_up_transfers, ftdi_readstream_ice9, is_interrupted,
}
use ice9_api.FtdiStream.Total.{
  Returns, update_progress_keeps, update_progress_total, settle_lem, transfer_round_steps,
  transfer_round_total,
}

-- A round in which libusb is through with no transfer.
pub record IsQuiet (r : Round) : Type 0 where
  pub nothing : r.events.completions ≡ []
  pub nothing_again : r.again.completions ≡ []

module _ (D : Doubles) {User : Type 0} (callback : Callback User D.Double) where
  open D use {Double}

  -- The value of a loop that returns is not 0.
  pub stream_loop-ne_zero :
      (rounds rest : List Round) (run run' : Run User Double) (code : ℤ)
      → stream_loop D callback rounds run ≡ done code rest run'
      → is_pos code 0 ≡ false
  unfolding stream_loop
  stream_loop-ne_zero [] rest run run' code e = cc
  stream_loop-ne_zero (r ∷ rounds) rest run run' code e =
      elim (Option-cases (transfer_round D callback r run)) [
        | inl bad ↦ absurd (ground (arith, bad, e))
        | inr (next, good) ↦ elim (Bool-cases (is_pos next.state.result 0)) [
          | inl goes_on ↦ stream_loop-ne_zero rounds rest next run' code (ground (arith, good, e))
          | inr ends ↦ ground (arith, good, e)
        ]
      ]

  pub loop_goes_on :
      (r : Round) (rounds : List Round) (run next : Run User Double)
      → transfer_round D callback r run ≡ some next
      → is_pos next.state.result 0 ≡ true
      → stream_loop D callback (r ∷ rounds) run ≡ stream_loop D callback rounds next
  unfolding stream_loop
  loop_goes_on r rounds run next e zero_result = rw (stream_loop, e, zero_result) refl

  loop_stops :
      (r : Round) (rounds : List Round) (run next : Run User Double)
      → transfer_round D callback r run ≡ some next
      → is_pos next.state.result 0 ≡ false
      → stream_loop D callback (r ∷ rounds) run ≡ done next.state.result rounds next
  unfolding stream_loop
  loop_stops r rounds run next e not_zero = rw (stream_loop, e, not_zero) refl

  quiet_events :
      (r : Round) (run : Run User Double)
      → IsQuiet r
      → (err : ℤ) × (round_events D callback r run ≡ some (err, run))
  unfolding round_events handle_events
  quiet_events r run quiet = elim (Bool-cases (is_interrupted D callback r.events.ret)) [
    | inl twice ↦ (
      r.again.ret,
      rw (round_events, quiet.nothing, handle_events, twice, quiet.nothing_again) refl,
    )
    | inr once ↦ (r.events.ret, rw (round_events, quiet.nothing, handle_events, once) refl)
  ]

  -- A quiet round takes the activity away, and ends the loop if there is none.
  quiet_round :
      Returns callback
      → (r : Round) (run : Run User Double) → IsQuiet r
      → (run' : Run User Double) × (transfer_round D callback r run ≡ some run')
        × (is_pos run'.state.result 0 ≡ true → run'.state.activity ≡ 0)
        × (run.state.activity ≡ 0 → run'.state.result ≡ pos 1)
  quiet_round total r run quiet =
      let (err, same) = quiet_events r run quiet in
      let (s, f) = update_progress_total D callback total r.now (settle D callback err run.state) in
      let (p, res, act) =
        update_progress_keeps D callback r.now (settle D callback err run.state) s f in
      let (q, ends, one) = settle_lem D callback err run.state in
      (
        record run { state = s },
        transfer_round_steps D callback r run run err s same f,
        λ z. act ∙ ends (ap (λ x. is_pos x 0) (sym res) ∙ z),
        λ z. res ∙ one z,
      )

  loop_ends :
      Returns callback
      → (rounds rest : List Round) (q q' : Round) (run : Run User Double) → run.state.packetsize ≢ 0
      → IsQuiet q
      → IsQuiet q'
      → (code : ℤ) × (rest' : List Round) × (run' : Run User Double) × (stream_loop D callback
            (rounds ++ q ∷ q' ∷ rest)
            run
          ≡ done code rest' run')
  loop_ends total [] rest q q' run ne quiet quiet' =
      let (next, e, calm, one) = quiet_round total q run quiet in
      let (last, e', calm', one') = quiet_round total q' next quiet' in
      elim (Bool-cases (is_pos next.state.result 0)) [
        | inl goes_on ↦ (
          _,
          _,
          _,
          loop_goes_on q (q' ∷ rest) run next e goes_on
              ∙ loop_stops q' rest next last e' (ap (λ x. is_pos x 0) (one' (calm goes_on))),
        )
        | inr ends ↦ (_, _, _, loop_stops q (q' ∷ rest) run next e ends)
      ]
  loop_ends total (r ∷ rounds) rest q q' run ne quiet quiet' =
      let (next, e, p) = transfer_round_total D callback total r run ne in
      elim (Bool-cases (is_pos next.state.result 0)) [
        | inl goes_on ↦
            let (code, rest', run', f) =
              loop_ends total rounds rest q q' next (λ z. ne (sym p ∙ z)) quiet quiet' in
            (code, rest', run', loop_goes_on r (rounds ++ q ∷ q' ∷ rest) run next e goes_on ∙ f)
        | inr ends ↦ (_, _, _, loop_stops r (rounds ++ q ∷ q' ∷ rest) run next e ends)
      ]

  set_up_keeps :
      (n : ℕ) (setup : ℕ → Setup) (i : ℕ) (run : Run User Double)
      → (set_up_transfers D callback n setup i run).1.state ≡ run.state
  unfolding set_up_transfers
  set_up_keeps zero setup i run = refl
  set_up_keeps (suc n) setup i run = ground (
    arith,
    set_up_keeps n setup (i + 1) (record run { transfers = run.transfers ++ in_flight ∷ [] }),
  )

  module _ (size : ℕ) (userdata : User) (zeros : ProgressInfo Double) (n : ℕ) (setup : ℕ → Setup)
      (first : Timeval) where
    -- The error code of the set-up, and the state after it.
    abbrev pub set_up : ℤ × Run User Double
    set_up = set_up_transfers D callback n setup 0 (start D callback userdata size zeros)

    pub readstream_set_up_fails :
        (rounds : List Round)
        → is_pos set_up.0 0 ≡ false
        → ftdi_readstream_ice9 D callback size userdata zeros n true setup first rounds
          ≡ done set_up.0 rounds (record set_up.1 { array = false })
    unfolding ftdi_readstream_ice9
    readstream_set_up_fails rounds bad = rw (ftdi_readstream_ice9, bad) refl

    readstream_loops :
        (rounds rest : List Round) (code : ℤ) (run : Run User Double)
        → is_pos set_up.0 0 ≡ true
        → stream_loop D callback rounds (set_first_time D callback first set_up.1)
          ≡ done code rest run
        → ftdi_readstream_ice9 D callback size userdata zeros n true setup first rounds
          ≡ done code rest (record run { array = false })
    unfolding ftdi_readstream_ice9
    readstream_loops rounds rest code run good e = rw (ftdi_readstream_ice9, good, e) refl

  -- With a callback that returns and a packet size that is not 0, `ftdi_readstream_ice9` returns:
  -- at the latest after the first two rounds in a row in which libusb is through with no transfer.
  -- What it returns is never 0.
  pub readstream_ends :
      (max_packet_size : ℕ) (userdata : User) (zeros : ProgressInfo Double)
      → (num_transfers : ℕ) (array : Bool) (setup : ℕ → Setup) (first : Timeval)
      → (rounds rest : List Round) (q q' : Round) → Returns callback
      → max_packet_size ≢ 0
      → IsQuiet q
      → IsQuiet q'
      → (code : ℤ) × (rest' : List Round) × (run : Run User Double) × (ftdi_readstream_ice9 D
            callback max_packet_size userdata zeros num_transfers array setup first
            (rounds ++ q ∷ q' ∷ rest)
          ≡ done code rest' run)
        × (is_pos code 0 ≡ false)
  unfolding ftdi_readstream_ice9
  readstream_ends size userdata zeros n false setup first rounds rest q q' total ne quiet quiet' =
      (_, _, _, refl, refl)
  readstream_ends size userdata zeros n true setup first rounds rest q q' total ne quiet quiet' =
      let (err, run) = set_up size userdata zeros n setup first in
      let same = set_up_keeps n setup 0 (start D callback userdata size zeros) in
      elim (Bool-cases (is_pos err 0)) [
        | inr bad ↦ (_, _, _, readstream_set_up_fails size userdata zeros n setup first _ bad, bad)
        | inl good ↦
            let begin = set_first_time D callback first run in
            let (code, rest', last, e) =
              loop_ends total rounds rest q q' begin
                (λ z. ne (sym (ap (λ s. s.packetsize) same) ∙ z)) quiet quiet' in
            (
              code,
              rest',
              _,
              readstream_loops size userdata zeros n setup first _ rest' code last good e,
              stream_loop-ne_zero (rounds ++ q ∷ q' ∷ rest) rest' begin last code e,
            )
      ]
