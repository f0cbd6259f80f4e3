-- ===== src/Mpsse/Traffic/Errors.antt =====
-- The functions of mpsse.c that can end the program.
use ice9_api.Prelude.{
  ℕ, Bool, true, false, List, [], ◌∷◌, append_assoc, pure, ◌>>=◌, ◌>>◌, if◌then◌else◌, is_negative,
  is_pos, inl, inr, Bool-cases,
}
use ice9_api.Ftdi.{
  FtdiCall, FtdiReply, Mpsse, Ftdi, write_data, read_data, usleep, log_call, ftdi_call, ftdi_do,
  get_state, exit_with, set_latency_timer, usb_close, deinit,
}
use ice9_api.Mpsse.{mpsse_check_rx, mpsse_error, mpsse_recv_byte, write_all}
use ice9_api.Mpsse.Traffic.{
  Traffic-then, nothing, EndsCleanly, IsClean, EndsCleanly-after, IsClean-if, one_call,
  IsClean-bind, IsClean-pure, IsClean-call,
}

IsClean-mpsse_check_rx : IsClean nothing mpsse_check_rx
unfolding mpsse_check_rx
IsClean-mpsse_check_rx = record { at = ends }
  where
    ends : (rs : List FtdiReply) (s : Mpsse) → EndsCleanly nothing s (mpsse_check_rx rs s)
    ends [] s = one_call (read_data 1) s tt
    ends (r ∷ rs) s = elim (Bool-cases (is_negative r.ret)) [
      | inl e ↦ rw (mpsse_check_rx, e) (one_call (read_data 1) s tt)
      | inr ne ↦ elim (Bool-cases (is_pos r.ret 0)) [
        | inl e ↦ rw (mpsse_check_rx, ne, e) (one_call (read_data 1) s tt)
        | inr goes_on ↦
            rw (mpsse_check_rx, ne, goes_on)
              (EndsCleanly-after nothing (mpsse_check_rx rs (log_call (read_data 1) s))
                (one_call (read_data 1) s tt) (ends rs (log_call (read_data 1) s)))
      ]
    ]

-- What `mpsse_error` does once nothing is left to be read.
release_steps : (A : Type 0) → Ftdi A
release_steps A = do
  s ← get_state
  if s.is_open
      then ((if s.latency_set then ftdi_do (set_latency_timer s.latency) else pure tt)
          >> ftdi_do usb_close)
      else pure tt
  ftdi_do deinit
  exit_with 2

release_ends :
    (A : Type 0) (rs : List FtdiReply) (is_open latency_set : Bool) (latency : ℕ)
    (calls : List FtdiCall)
    → let s : Mpsse = record {
      is_open = is_open;
      latency_set = latency_set;
      latency = latency;
      calls = calls;
    } in
      EndsCleanly nothing s (release_steps A rs s)
unfolding release_steps
release_ends A rs false latency_set latency calls =
    inl record { middle = []; harmless = tt; leads = simp append_assoc }
release_ends A rs true false latency calls =
    inl record { middle = []; harmless = tt; leads = simp append_assoc }
release_ends A rs true true latency calls =
    inl record { middle = []; harmless = tt; leads = simp append_assoc }

pub IsClean-mpsse_error : (A : Type 0) → IsClean nothing (mpsse_error {A = A} 2)
unfolding mpsse_error release_steps
IsClean-mpsse_error A =
    IsClean-bind nothing mpsse_check_rx _ IsClean-mpsse_check_rx
      (λ u. record { at = λ rs s. release_ends A rs s.is_open s.latency_set s.latency s.calls })

pub IsClean-mpsse_recv_byte : IsClean nothing mpsse_recv_byte
unfolding mpsse_recv_byte
IsClean-mpsse_recv_byte = record { at = ends }
  where
    ends : (rs : List FtdiReply) (s : Mpsse) → EndsCleanly nothing s (mpsse_recv_byte rs s)
    ends [] s = one_call (read_data 1) s tt
    ends (r ∷ rs) s = elim (Bool-cases (is_negative r.ret)) [
      | inl e ↦
          rw (mpsse_recv_byte, e)
            (EndsCleanly-after nothing (mpsse_error 2 rs (log_call (read_data 1) s))
              (one_call (read_data 1) s tt)
              ((IsClean-mpsse_error ℕ).at rs (log_call (read_data 1) s)))
      | inr ne ↦ elim (Bool-cases (is_pos r.ret 1)) [
        | inl e ↦ rw (mpsse_recv_byte, ne, e) (one_call (read_data 1) s tt)
        | inr goes_on ↦
            let s' = log_call (usleep 100) (log_call (read_data 1) s) in
            rw (mpsse_recv_byte, ne, goes_on)
              (EndsCleanly-after nothing (mpsse_recv_byte rs s')
                (Traffic-then (one_call (read_data 1) s tt)
                  (one_call (usleep 100) (log_call (read_data 1) s) tt))
                (ends rs s'))
      ]
    ]

pub IsClean-write_all : (bytes : List ℕ) (n : ℕ) → IsClean nothing (write_all bytes n)
IsClean-write_all bytes n =
    IsClean-bind nothing (ftdi_call (write_data bytes)) _ (IsClean-call (write_data bytes) tt)
      (λ r. IsClean-if nothing (is_pos r.ret n) _ _ (IsClean-pure tt) (IsClean-mpsse_error Unit))
