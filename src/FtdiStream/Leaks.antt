-- ===== src/FtdiStream/Leaks.antt =====
-- What `ftdi_readstream_ice9` leaves behind when the callback never asks for an end.
use mathlib.Core.Path.{subst}
use ice9_api.Prelude.{
  ℕ, zero, suc, ◌+◌, ◌≡◌, ◌≢◌, refl, Bool, true, false, not, List, [], ◌∷◌, ◌++◌, ℤ, is_pos, length,
  if◌then◌else◌, Bool-cases, inl, inr, Outcome, done, exited, blocked, fault,
}
use ice9_api.Transfer.{
  Timeval, ProgressInfo, Doubles, Callback, TransferState, in_flight, idle, released, Run, Round,
  Setup,
}
use ice9_api.FtdiStream.Rounds.{set_up}
use ice9_api.FtdiStream.{
  stream_loop, set_up_transfers, start, set_first_time, ftdi_readstream_ice9, cleanup,
}
use ice9_api.FtdiStream.Held.{
  AllHeld, AllHeld-append, in_flight-held, idle-held, AlwaysGoesOn, ReturnsHolding,
  stream_loop-Holds,
}

module _ (D : Doubles) {User : Type 0} (callback : Callback User D.Double) where
  open D use {Double}

  record HasHeld (result : ℤ × Run User Double) : Type 0 where
    all : AllHeld result.1.transfers

  HasHeld-if :
      (b : Bool) (x y : ℤ × Run User Double) → HasHeld x → HasHeld y → HasHeld (if b then x else y)
  HasHeld-if true x y p q = p
  HasHeld-if false x y p q = q

  set_up_transfers-HasHeld :
      (n : ℕ) (setup : ℕ → Setup) (i : ℕ) (run : Run User Double)
      → AllHeld run.transfers
      → HasHeld (set_up_transfers D callback n setup i run)
  unfolding set_up_transfers
  set_up_transfers-HasHeld zero setup i run h = record { all = h }
  set_up_transfers-HasHeld (suc n) setup i run h =
      let one_more : (t : TransferState) → t ≢ released → AllHeld (run.transfers ++ t ∷ []) =
        λ t ne. AllHeld-append run.transfers (t ∷ []) h (ne, tt) in
      HasHeld-if (not (setup i).allocated) _ _ record { all = h }
        (HasHeld-if (not (setup i).buffer) _ _ record { all = one_more idle idle-held }
          (HasHeld-if (not (is_pos (setup i).submit 0)) _ _ record { all = one_more idle idle-held }
            (set_up_transfers-HasHeld n setup (i + 1) _ (one_more in_flight in_flight-held))))

  -- What `ftdi_readstream_ice9` leaves when it returns.
  abbrev pub Leaves : ℕ → Outcome Round (Run User Double) ℤ → Type 0
  Leaves n (done code rounds run) =
      AllHeld run.transfers × (length run.transfers ≡ n) × (run.array ≡ false)
  Leaves n _ = Unit

  cleanup-Leaves :
      (n : ℕ) (o : Outcome Round (Run User Double) ℤ)
      → ReturnsHolding D callback n o
      → Leaves n (cleanup D callback o)
  cleanup-Leaves n (done code rounds run) h = (h.held, h.number, refl)
  cleanup-Leaves n (exited rounds run) h = tt
  cleanup-Leaves n (blocked run) h = tt
  cleanup-Leaves n fault h = tt

  -- If the callback returns 0 for every packet, then `ftdi_readstream_ice9`, however it ends, has
  -- freed none of the transfers that it has set up; it has freed the array of the pointers to them.
  pub readstream_leaks :
      (size : ℕ) (userdata : User) (zeros : ProgressInfo Double) (n : ℕ) (setup : ℕ → Setup)
      (first : Timeval) (rounds rounds' : List Round) (code : ℤ) (run : Run User Double)
      → AlwaysGoesOn D callback
      → ftdi_readstream_ice9 D callback size userdata zeros n true setup first rounds
        ≡ done code rounds' run
      → AllHeld run.transfers
        × (length run.transfers
            ≡ length (set_up D callback size userdata zeros n setup first).1.transfers)
        × (run.array ≡ false)
  unfolding ftdi_readstream_ice9
  readstream_leaks size userdata zeros n setup first rounds rounds' code run always e =
      let up = set_up D callback size userdata zeros n setup first in
      let number = length up.1.transfers in
      let h : AllHeld up.1.transfers =
        (set_up_transfers-HasHeld n setup 0 (start D callback userdata size zeros) tt).all in
      subst (Leaves number) e (elim (Bool-cases (not (is_pos up.0 0))) [
        | inl bad ↦ rw bad (h, refl, refl)
        | inr good ↦ rw good (
            cleanup-Leaves number
              (stream_loop D callback rounds (set_first_time D callback first up.1))
              (stream_loop-Holds D callback always number rounds _
                record { held = h; number = refl }))
      ])
