-- ===== src/FtdiStream/Held.antt =====
-- The transfers stay allocated as long as the callback returns 0 for every packet.
use mathlib.Core.Path.{subst}
use ice9_api.Prelude.{
  ℕ, zero, suc, ◌+◌, ◌-◌, ◌/◌, ◌≡◌, ◌≢◌, refl, ◌∙◌, ap, Bool, true, false, Option, none, some, List,
  [], ◌∷◌, ◌++◌, ℤ, pos, is_pos, set, sub_ℕ, length, take, drop, ltb, ◌==◌, if◌then◌else◌, arith,
  Option-cases, Bool-cases, inl, inr, Outcome, done,
}
use ice9_api.Transfer.{
  Doubles, Callback, StreamState, TransferState, in_flight, idle, released, Run, Completion, Round,
  Status-cases,
}
use ice9_api.FtdiStream.{
  packet_loop, count_bytes, after_packets, ftdi_readstream_cb, handle_events, round_events,
  update_progress, settle, transfer_round, is_interrupted, stream_loop,
}

-- The transfers that have not been freed.
abbrev pub AllHeld : List TransferState → Type 0
AllHeld [] = Unit
AllHeld (t ∷ ts) = (t ≢ released) × AllHeld ts

set-AllHeld :
    (ts : List TransferState) (i : ℕ) (t : TransferState)
    → t ≢ released
    → AllHeld ts
    → AllHeld (set ts i t)
set-AllHeld [] i t ne held = tt
set-AllHeld (x ∷ ts) zero t ne held = (ne, held.1)
set-AllHeld (x ∷ ts) (suc i) t ne held = (held.0, set-AllHeld ts i t ne held.1)

length-set : (ts : List TransferState) (i : ℕ) (t : TransferState) → length (set ts i t) ≡ length ts
length-set [] i t = refl
length-set (x ∷ ts) zero t = refl
length-set (x ∷ ts) (suc i) t = ap suc (length-set ts i t)

pub AllHeld-append : (ts us : List TransferState) → AllHeld ts → AllHeld us → AllHeld (ts ++ us)
AllHeld-append [] us p q = q
AllHeld-append (t ∷ ts) us p q = (p.0, AllHeld-append ts us p.1 q)

pub in_flight-held : in_flight ≢ released
in_flight-held e = absurd (ground (arith, e))

pub idle-held : idle ≢ released
idle-held e = absurd (ground (arith, e))

either-held : (b : Bool) → (if b then in_flight else idle) ≢ released
either-held true = in_flight-held
either-held false = idle-held

module _ (D : Doubles) {User : Type 0} (callback : Callback User D.Double) where
  open D use {Double}

  -- The callback returns 0 for this packet, if it returns.
  abbrev GoesOn : Option (ℤ × User) → Type 0
  GoesOn none = Unit
  GoesOn (some (res, user)) = res ≡ pos 0

  -- It does for every packet.
  pub record AlwaysGoesOn : Type 0 where
    pub at : (bytes : List ℕ) (len : ℤ) (user : User) → GoesOn (callback bytes len none user)

  -- The transfers are held, and there are `n`.
  pub record Holds (n : ℕ) (run : Run User Double) : Type 0 where
    pub held : AllHeld run.transfers
    pub number : length run.transfers ≡ n

  abbrev HoldsIn : ℕ → Option (Run User Double) → Type 0
  HoldsIn n none = Unit
  HoldsIn n (some run) = Holds n run

  -- What the loop over the packets leaves in `res`.
  abbrev ZeroIn : Option (ℤ × StreamState User Double) → Type 0
  ZeroIn none = Unit
  ZeroIn (some (res, s)) = res ≡ pos 0

  -- If it returns, it holds `n` transfers.
  abbrev pub ReturnsHolding : ℕ → Outcome Round (Run User Double) ℤ → Type 0
  ReturnsHolding n (done code rounds run) = Holds n run
  ReturnsHolding n _ = Unit

  module _ (always : AlwaysGoesOn) where
    packet_loop-zero :
        (n : ℕ) (ptr : List ℕ) (res : ℤ) (s : StreamState User Double)
        → res ≡ pos 0
        → ZeroIn (packet_loop D callback n ptr res s)
    unfolding packet_loop
    packet_loop-zero zero ptr res s e = e
    packet_loop-zero (suc n) ptr res s e =
        let packet_len = if ltb s.packetsize (length ptr) then s.packetsize else length ptr in
        let payload_len = sub_ℕ packet_len 2 in
        let payload = drop 2 (take packet_len ptr) in
        elim (Option-cases (callback payload payload_len none s.userdata)) [
          | inl bad ↦ rw (ZeroIn, packet_loop, bad) tt
          | inr ((res', user), good) ↦
              rw (ZeroIn, packet_loop, good)
                (packet_loop-zero n (drop packet_len ptr) res'
                  (record (count_bytes D callback payload_len s) { userdata = user })
                  (subst GoesOn good (always.at payload payload_len s.userdata)))
        ]

    sets-Holds :
        (n : ℕ) (run : Run User Double) (i : ℕ) (t : TransferState) (s : StreamState User Double)
        → t ≢ released
        → Holds n run
        → Holds n (record run { state = s; transfers = set run.transfers i t })
    sets-Holds n run i t s ne h = record {
      held = set-AllHeld run.transfers i t ne h.held;
      number = length-set run.transfers i t ∙ h.number;
    }

    after_packets-Holds :
        (n : ℕ) (c : Completion) (res : ℤ) (s : StreamState User Double) (run : Run User Double)
        → res ≡ pos 0
        → Holds n run
        → Holds n (after_packets D callback c res s run)
    after_packets-Holds n c res s run e h =
        rw (after_packets, e)
          (sets-Holds n run c.place (if is_pos c.resubmit 0 then in_flight else idle) _
            (either-held (is_pos c.resubmit 0)) h)

    cb-Holds :
        (n : ℕ) (c : Completion) (run : Run User Double)
        → Holds n run
        → HoldsIn n (ftdi_readstream_cb D callback c run)
    unfolding ftdi_readstream_cb
    cb-Holds n c run h = elim (Status-cases c.status) [
      | inr bad ↦
          rw (HoldsIn, ftdi_readstream_cb, bad) (sets-Holds n run c.place idle _ idle-held h)
      | inl whole ↦ elim (Bool-cases (run.state.packetsize == 0)) [
        | inl zero_size ↦ rw (HoldsIn, ftdi_readstream_cb, whole, zero_size) tt
        | inr size ↦
            let s = record run.state { activity = run.state.activity + 1 } in
            let num = (length c.bytes + s.packetsize - 1) / s.packetsize in
            elim (Option-cases (packet_loop D callback num c.bytes (pos 0) s)) [
              | inl bad ↦ rw (HoldsIn, ftdi_readstream_cb, whole, size, bad) tt
              | inr ((res, s'), good) ↦
                  rw (HoldsIn, ftdi_readstream_cb, whole, size, good)
                    (after_packets-Holds n c res s' run
                      (subst ZeroIn good (packet_loop-zero num c.bytes (pos 0) s refl)) h)
            ]
      ]
    ]

    handle_events-Holds :
        (n : ℕ) (cs : List Completion) (run : Run User Double)
        → Holds n run
        → HoldsIn n (handle_events D callback cs run)
    unfolding handle_events
    handle_events-Holds n [] run h = h
    handle_events-Holds n (c ∷ cs) run h =
        elim (Option-cases (ftdi_readstream_cb D callback c run)) [
          | inl bad ↦ rw (HoldsIn, handle_events, bad) tt
          | inr (run', good) ↦
              rw (HoldsIn, handle_events, good)
                (handle_events-Holds n cs run' (subst (HoldsIn n) good (cb-Holds n c run h)))
        ]

    abbrev HoldsWith : ℕ → Option (ℤ × Run User Double) → Type 0
    HoldsWith n none = Unit
    HoldsWith n (some (err, run)) = Holds n run

    round_events-Holds :
        (n : ℕ) (r : Round) (run : Run User Double)
        → Holds n run
        → HoldsWith n (round_events D callback r run)
    unfolding round_events
    round_events-Holds n r run h =
        elim (Option-cases (handle_events D callback r.events.completions run)) [
          | inl bad ↦ rw (HoldsWith, round_events, bad) tt
          | inr (run', good) ↦
              let h' : Holds n run' =
                subst (HoldsIn n) good (handle_events-Holds n r.events.completions run h) in
              elim (Bool-cases (is_interrupted D callback r.events.ret)) [
                | inr whole ↦ rw (HoldsWith, round_events, good, whole) h'
                | inl interrupted ↦
                    elim (Option-cases (handle_events D callback r.again.completions run')) [
                      | inl bad ↦ rw (HoldsWith, round_events, good, interrupted, bad) tt
                      | inr (run'', good') ↦
                          rw (HoldsWith, round_events, good, interrupted, good')
                            (subst (HoldsIn n) good'
                              (handle_events-Holds n r.again.completions run' h'))
                    ]
              ]
        ]

    transfer_round-Holds :
        (n : ℕ) (r : Round) (run : Run User Double)
        → Holds n run
        → HoldsIn n (transfer_round D callback r run)
    unfolding transfer_round
    transfer_round-Holds n r run h = elim (Option-cases (round_events D callback r run)) [
      | inl bad ↦ rw (HoldsIn, transfer_round, bad) tt
      | inr ((err, run'), good) ↦
          let h' : Holds n run' = subst (HoldsWith n) good (round_events-Holds n r run h) in
          elim (Option-cases
            (update_progress D callback r.now (settle D callback err run'.state))) [
              | inl bad ↦ rw (HoldsIn, transfer_round, good, bad) tt
              | inr (s, good') ↦
                  rw (HoldsIn, transfer_round, good, good')
                    record { held = h'.held; number = h'.number }
            ]
    ]

    pub stream_loop-Holds :
        (n : ℕ) (rounds : List Round) (run : Run User Double)
        → Holds n run
        → ReturnsHolding n (stream_loop D callback rounds run)
    unfolding stream_loop
    stream_loop-Holds n [] run h = tt
    stream_loop-Holds n (r ∷ rounds) run h = elim (Option-cases (transfer_round D callback r run)) [
      | inl bad ↦ rw (ReturnsHolding, stream_loop, bad) tt
      | inr (run', good) ↦
          let h' : Holds n run' = subst (HoldsIn n) good (transfer_round-Holds n r run h) in
          elim (Bool-cases (is_pos run'.state.result 0)) [
            | inl goes_on ↦
                rw (ReturnsHolding, stream_loop, good, goes_on) (stream_loop-Holds n rounds run' h')
            | inr ends ↦ rw (ReturnsHolding, stream_loop, good, ends) h'
          ]
    ]
