-- ===== src/FtdiStream/Whole.antt =====
-- What a run of the loop hands over, round by round.
use mathlib.Core.Path.{subst}
use ice9_api.Prelude.{
  some_injective, ℕ, ◌+◌, ◌≤◌, ◌<◌, ◌%◌, ◌^◌, ◌≡◌, refl, ◌∙◌, sym, ap, some, List, [], ◌∷◌, ◌++◌,
  concat, concat-append, ℤ, pos, is_pos, length, arith, Bool-cases, inl, inr, ◌==◌,
}
use ice9_api.Transfer.{Timeval, Doubles, ProgressInfo, Callback, StreamState, Run, Round}
use ice9_api.Read.Strip.{Packet}
use ice9_api.FtdiStream.{settle, update_progress, transfer_round, stream_loop, timeval_diff, report}
use ice9_api.FtdiStream.Total.{update_progress_keeps, transfer_round_steps}
use ice9_api.FtdiStream.Rounds.{loop_goes_on}
use ice9_api.FtdiStream.Errors.{events_come}
use ice9_api.FtdiStream.Stream.{
  Carry, Resubmitted, received, received-append, payload_bytes, payload_bytes-append,
  handle_events-Moved,
}

-- A round in which libusb is through with one transfer or more, and nothing goes wrong.
pub record Brings (size : ℕ) (r : Round) (pss : List (List Packet)) : Type 0 where
  pub carries : Carry size r.events.completions pss
  pub resubmitted : Resubmitted r.events.completions
  pub some_come : 0 < length r.events.completions
  pub no_error : r.events.ret ≡ pos 0

abbrev pub AllBring : ℕ → List Round → List (List (List Packet)) → Type 0
AllBring size [] [] = Unit
AllBring size [] (pss ∷ all) = ⊥
AllBring size (r ∷ rounds) [] = ⊥
AllBring size (r ∷ rounds) (pss ∷ all) = Brings size r pss × AllBring size rounds all

-- A callback whose data stay as they are when it gets a report.
abbrev pub IgnoresReports : {User Double : Type 0} → Callback User Double → Type 0
IgnoresReports {User} {Double} callback =
    (p : ProgressInfo Double) (user : User)
    → (res : ℤ) × (callback [] (pos 0) (some p) user ≡ some (res, user))

module _ (D : Doubles) {User : Type 0} (callback : Callback User D.Double) where
  open D use {Double}

  settle_calm :
      (s : StreamState User Double)
      → s.result ≡ pos 0
      → 0 < s.activity
      → settle D callback (pos 0) s ≡ record s { result = pos 0; activity = 0 }
  settle_calm s e busy = ground (arith, e)

  report_counts :
      (now : Timeval) (progress : ProgressInfo Double)
      → (report D callback now progress).current.total_bytes ≡ progress.current.total_bytes
  unfolding report
  report_counts now progress = elim (Bool-cases (progress.prev.total_bytes == 0)) [
    | inl first ↦ rw first refl
    | inr again ↦ rw again refl
  ]

  -- The report leaves the data and the count of bytes.
  update_progress-Ignores :
      IgnoresReports callback
      → (now : Timeval) (s : StreamState User Double)
      → (s' : StreamState User Double) × (update_progress D callback now s ≡ some s')
        × (s'.userdata ≡ s.userdata)
        × (s'.progress.current.total_bytes ≡ s.progress.current.total_bytes)
  unfolding update_progress
  update_progress-Ignores ignores now s =
      let p = report D callback now s.progress in
      let (res, e) = ignores p s.userdata in
      elim (Bool-cases (D.at_least (timeval_diff D callback now s.progress.current.time) D.one)) [
        | inl due ↦ (
          record s { progress = record p { prev = p.current } },
          rw (update_progress, due, e) refl,
          refl,
          report_counts now s.progress,
        )
        | inr early ↦ (s, rw (update_progress, early) refl, refl, refl)
      ]

  -- A round hands over the payloads of its transfers, and the loop goes on.
  round-Moved :
      (r : Round) (pss : List (List Packet)) (run : Run User Double) (user : User)
      → IgnoresReports callback
      → 2 ≤ run.state.packetsize
      → run.state.result ≡ pos 0
      → Brings run.state.packetsize r pss
      → received D callback (concat pss) run.state.userdata ≡ some user
      → (run' : Run User Double) × (transfer_round D callback r run ≡ some run')
        × (run'.state.userdata ≡ user)
        × (run'.state.packetsize ≡ run.state.packetsize)
        × (run'.state.result ≡ pos 0)
        × (run'.state.progress.current.total_bytes % 2 ^ 64
            ≡ (run.state.progress.current.total_bytes + payload_bytes (concat pss)) % 2 ^ 64)
  round-Moved r pss run user ignores two zero_result b e =
      let (run1, handled, m) =
        handle_events-Moved D callback r.events.completions pss run user two b.carries e in
      let settled =
        settle_calm run1.state (m.calm b.resubmitted zero_result)
          (omega (arith, m.busy, b.some_come)) in
      let (s, f, gets, counts) =
        update_progress-Ignores ignores r.now (settle D callback (pos 0) run1.state) in
      let (p, res, a) =
        update_progress_keeps D callback r.now (settle D callback (pos 0) run1.state) s f in
      let coming = events_come D callback r.events.completions r run run1 refl b.no_error handled in
      let kept : (f : StreamState User Double → ℕ)
          → f (settle D callback (pos 0) run1.state)
            ≡ f (record run1.state { result = pos 0; activity = 0 }) =
        λ f. ap f settled in
      (
        record run1 { state = s },
        transfer_round_steps D callback r run run1 (pos 0) s coming f,
        gets ∙ ap (λ s. s.userdata) settled ∙ m.data_is,
        p ∙ kept (λ s. s.packetsize) ∙ m.same_size,
        res ∙ ap (λ s. s.result) settled,
        ap (λ n. n % 2 ^ 64) (counts ∙ kept (λ s. s.progress.current.total_bytes)) ∙ m.counted,
      )

  -- As long as every round brings a transfer or more, all of whole packets and submitted again
  -- without an error, the loop does not end, and loses nothing: from a state without an error it
  -- comes through all these rounds to a state without an error, in which the callback has got the
  -- payloads of all the packets, in their order, whatever reports come in between, and their bytes
  -- are counted, in 64 bits.
  pub stream_loop_hands_over :
      (rounds rest : List Round) (all : List (List (List Packet))) (run : Run User Double)
      → (user : User) → IgnoresReports callback
      → 2 ≤ run.state.packetsize
      → run.state.result ≡ pos 0
      → AllBring run.state.packetsize rounds all
      → received D callback (concat (concat all)) run.state.userdata ≡ some user
      → (run' : Run User Double) × (stream_loop D callback (rounds ++ rest) run
          ≡ stream_loop D callback rest run')
        × (run'.state.userdata ≡ user)
        × (run'.state.result ≡ pos 0)
        × (run'.state.progress.current.total_bytes % 2 ^ 64
            ≡ (run.state.progress.current.total_bytes + payload_bytes (concat (concat all)))
              % 2 ^ 64)
  stream_loop_hands_over [] rest [] run user ignores two zero_result b e =
      (run, refl, some_injective e, zero_result, omega arith)
  stream_loop_hands_over [] rest (pss ∷ all) run user ignores two zero_result b e = absurd b
  stream_loop_hands_over (r ∷ rounds) rest [] run user ignores two zero_result b e = absurd b
  stream_loop_hands_over (r ∷ rounds) rest (pss ∷ all) run user ignores two zero_result (b, bs) e =
      let split = concat-append pss (concat all) in
      let (mid, front, back) =
        received-append D callback (concat pss) (concat (concat all)) run.state.userdata user
          (ap (λ ps. received D callback ps run.state.userdata) (sym split) ∙ e) in
      let (run1, first, gets, size, res, counts) =
        round-Moved r pss run mid ignores two zero_result b front in
      let (run', later, gets', res', counts') =
        stream_loop_hands_over rounds rest all run1 user ignores (rw size two) res
          (subst (λ n. AllBring n rounds all) (sym size) bs)
          (ap (received D callback (concat (concat all))) gets ∙ back) in
      (
        run',
        loop_goes_on D callback r (rounds ++ rest) run run1 first (ap (λ x. is_pos x 0) res)
            ∙ later,
        gets',
        res',
        omega (
          arith,
          counts,
          counts',
          ap payload_bytes split,
          payload_bytes-append (concat pss) (concat (concat all)),
        ),
      )
