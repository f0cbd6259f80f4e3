-- ===== src/Device/Keeps.antt =====
-- The functions of ice9.c that open, reset, close and release a handle keep the ring buffer valid,
-- and `ice9_new` makes it so.
use ice9_api.Prelude.{
  ℕ, zero, suc, ◌≡◌, refl, Bool, true, false, List, [], ◌∷◌, Memory, Outcome, done, exited, blocked,
  fault, arith, inl, inr, Bool-cases, pure, is_negative, replicate, if◌then◌else◌, ◌>>◌,
}
use ice9_api.ErrorCode.{Ice9Error, ok, reset_failed, cannot_enable_bit_bang_mode}
use ice9_api.Host.{
  Host, UsbReply, exit, close, control_transfer, bulk_in, bulk_out, usleep, Api, usb_call, usb_do,
  UsbCall, log_call,
}
use ice9_api.Host.Keeps.{
  AllReplies, AllReplies-any, Holds, EndsUnless, EndsUnless-well, Keeps, IsValidHost, Keeps-pure,
  Keeps-if, Keeps-usb_call, Keeps-usb_do, Keeps-bind,
}
use ice9_api.Read.Keeps.{FitsIn}
use ice9_api.Register.{ice9_ping_bridge}
use ice9_api.Register.Keeps.{Keeps-ice9_ping_bridge}
use ice9_api.Device.{
  ice9_new, ice9_free, ice9_open, ice9_close, control_or, read_or, reset_loop, ice9_usb_reset,
  ice9_fifo_mode,
}

module _ {d : Bool} {Fits : UsbReply → Type 0} where
  Keeps-control_or :
      (code : Ice9Error) (request value : ℕ) (rest : Api Ice9Error)
      → Keeps d Fits rest
      → Keeps d Fits (control_or code request value rest)
  Keeps-control_or code request value rest kept =
      Keeps-bind (usb_call (control_transfer 0x40 request value 0)) _ (Keeps-usb_call _)
        (λ reply. Keeps-if (is_negative reply.ret) _ _ (Keeps-pure code) kept)

  Keeps-read_or : (rest : Api Ice9Error) → Keeps d Fits rest → Keeps d Fits (read_or rest)
  Keeps-read_or rest kept =
      Keeps-bind (usb_call (bulk_in 0x81 4096)) _ (Keeps-usb_call _)
        (λ reply. Keeps-if (is_negative reply.ret) _ _ (Keeps-pure reset_failed) kept)

  Keeps-reset_loop :
      (pause : Bool) (n : ℕ) (rest : Api Ice9Error)
      → Keeps d Fits rest
      → Keeps d Fits (reset_loop pause n rest)
  unfolding reset_loop
  Keeps-reset_loop pause zero rest kept = kept
  Keeps-reset_loop pause (suc n) rest kept = Keeps-control_or reset_failed 0 1 _ (
      Keeps-bind (if pause then usb_do (usleep 1000) else pure tt) _
        (Keeps-if pause _ _ (Keeps-usb_do (usleep 1000)) (Keeps-pure tt))
        (λ u. Keeps-reset_loop pause n rest kept))

  pub Keeps-ice9_free : Keeps d Fits ice9_free
  unfolding ice9_free
  Keeps-ice9_free = Keeps-usb_do exit

  pub Keeps-ice9_close : Keeps d Fits ice9_close
  unfolding ice9_close
  Keeps-ice9_close = Keeps-bind (usb_do close) _ (Keeps-usb_do close) (λ u. Keeps-pure ok)

  pub Keeps-ice9_usb_reset : Keeps d Fits ice9_usb_reset
  unfolding ice9_usb_reset
  Keeps-ice9_usb_reset = Keeps-control_or reset_failed 0 0 _ (
      Keeps-bind (usb_do (usleep 1000)) _ (Keeps-usb_do (usleep 1000)) (λ u.
        Keeps-reset_loop true 2 _ (Keeps-read_or _ (Keeps-reset_loop false 4 _ (Keeps-pure ok)))))

-- A run of `ice9_open` returns, or waits for its reply; if it returns `OK`, the device is there.
abbrev pub OpensWell : Outcome UsbReply Host Ice9Error → Type 0
OpensWell (done code rs h) = IsValidHost h × (code ≡ ok → h.handle.device ≡ true)
OpensWell (exited rs h) = ⊥
OpensWell (blocked h) = IsValidHost h
OpensWell fault = ⊥

pub ice9_open-OpensWell :
    (rs : List UsbReply) (h : Host) → IsValidHost h → OpensWell (ice9_open rs h)
unfolding ice9_open
ice9_open-OpensWell [] h v = v
ice9_open-OpensWell (r ∷ rs) h v = elim (Bool-cases (is_negative r.ret)) [
  | inl bad ↦ rw (OpensWell, bad) (v, λ e. absurd (ground (arith, e)))
  | inr good ↦ rw (OpensWell, good) (v, λ e. refl)
]

-- If `ice9_new` returns a handle, its ring buffer is valid.
abbrev pub StartsWell : Outcome UsbReply Host Bool → Type 0
StartsWell (done true rs h) = IsValidHost h
StartsWell _ = Unit

pub ice9_new-StartsWell :
    (read_buffer extra_data_buffer : Memory) (rs : List UsbReply) (h : Host)
    → StartsWell (ice9_new read_buffer extra_data_buffer rs h)
unfolding ice9_new
ice9_new-StartsWell read_buffer extra_data_buffer [] h = tt
ice9_new-StartsWell read_buffer extra_data_buffer (r ∷ rs) h =
    elim (Bool-cases (is_negative r.ret)) [
      | inl bad ↦ rw (StartsWell, bad) tt
      | inr good ↦ rw (StartsWell, good) record { head_in = omega arith; tail_in = omega arith }
    ]

-- The replies after the first, which may be any.
abbrev pub After : (List UsbReply → Type 0) → List UsbReply → Type 0
After P [] = Unit
After P (r ∷ rs) = P rs

-- The first reply is of at most `n` bytes.
abbrev pub FitsThen : ℕ → (List UsbReply → Type 0) → List UsbReply → Type 0
FitsThen n P [] = Unit
FitsThen n P (r ∷ rs) = FitsIn n r × P rs

-- What libusb promises for the replies to `ice9_fifo_mode`: after those to three control transfers
-- comes that to a bulk read of 4096 bytes, and then one to a bulk write and those to the reads of
-- a ping, of 512 bytes each.
abbrev pub FifoReplies : List UsbReply → Type 0
FifoReplies = After (After (After (FitsThen 4096 (AllReplies (FitsIn 512)))))

-- With replies as `P` tells, `m` ends well.
record KeepsOn (d : Bool) (P : List UsbReply → Type 0) (m : Api Ice9Error) : Type 0 where
  at : (rs : List UsbReply) (h : Host) → Holds d h → P rs → EndsUnless d (λ r. Unit) ⊥ (m rs h)

module _ {d : Bool} {P : List UsbReply → Type 0} where
  -- A call, after which the function returns, or goes on.
  checked_ends :
      (c : UsbCall) (code : Ice9Error) (rest : Api Ice9Error) (r : UsbReply) (rs : List UsbReply)
      (h : Host)
      → KeepsOn d P rest
      → Holds d h
      → P rs
      → EndsUnless d
          (λ r. Unit)
          ⊥
          ((if is_negative r.ret then pure code else rest) rs (log_call c h))
  checked_ends c code rest r rs h kept v good = elim (Bool-cases (is_negative r.ret)) [
    | inl bad ↦ rw (EndsUnless, bad) (v, AllReplies-any rs)
    | inr fine ↦ rw fine (kept.at rs (log_call c h) v good)
  ]

  KeepsOn-control_or :
      (code : Ice9Error) (request value : ℕ) (rest : Api Ice9Error)
      → KeepsOn d P rest
      → KeepsOn d (After P) (control_or code request value rest)
  KeepsOn-control_or code request value rest kept = record { at = ends }
    where
      ends :
          (rs : List UsbReply) (h : Host)
          → Holds d h
          → After P rs
          → EndsUnless d (λ r. Unit) ⊥ (control_or code request value rest rs h)
      ends [] h v good = v
      ends (r ∷ rs) h v good =
          checked_ends (control_transfer 0x40 request value 0) code rest r rs h kept v good

  KeepsOn-read_or :
      (rest : Api Ice9Error) → KeepsOn d P rest → KeepsOn d (FitsThen 4096 P) (read_or rest)
  KeepsOn-read_or rest kept = record { at = ends }
    where
      ends :
          (rs : List UsbReply) (h : Host)
          → Holds d h
          → FitsThen 4096 P rs
          → EndsUnless d (λ r. Unit) ⊥ (read_or rest rs h)
      ends [] h v good = v
      ends (r ∷ rs) h v good =
          checked_ends (bulk_in 0x81 4096) reset_failed rest r rs h kept v good.1

pub fifo_mode_ends :
    {d : Bool} (rs : List UsbReply) (h : Host)
    → Holds d h
    → FifoReplies rs
    → EndsUnless d (λ r. Unit) ⊥ (ice9_fifo_mode rs h)
unfolding ice9_fifo_mode
fifo_mode_ends {d} =
    (KeepsOn-control_or cannot_enable_bit_bang_mode 0 2 _ (
      KeepsOn-control_or cannot_enable_bit_bang_mode 11 0x00FF _ (
        KeepsOn-control_or cannot_enable_bit_bang_mode 11 0x40FF _ (
          KeepsOn-read_or _ (record {
            at = λ rs h v good. EndsUnless-well d (FitsIn 512) _ (rest_keeps.at rs h v good);
          }))))).at
  where
    rest_keeps :
        Keeps d
          (FitsIn 512)
          (do usb_call (bulk_out 0x02 (replicate 4096 0)); ice9_ping_bridge 0x67; pure ok)
    rest_keeps =
        Keeps-bind (usb_call (bulk_out 0x02 (replicate 4096 0))) _ (Keeps-usb_call _) (λ reply.
          Keeps-bind (ice9_ping_bridge 0x67) _ (Keeps-ice9_ping_bridge 0x67)
            (λ code. Keeps-pure ok))
