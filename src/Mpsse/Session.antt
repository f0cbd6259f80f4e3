-- ===== src/Mpsse/Session.antt =====
-- The start and the end of a session: `mpsse_init`, `mpsse_close`, `mpsse_error`.
use ice9_api.Prelude.{
  ◌>>◌, ℕ, suc, ◌≡◌, refl, ◌∙◌, ap, Bool, true, false, List, [], ◌∷◌, ◌++◌, done, exited,
  append_assoc, pos, is_negative, is_pos, if◌then◌else◌, length, replicate, arith,
}
use ice9_api.Ftdi.{
  FtdiCall, FtdiReply, Mpsse, exit, usb_close, deinit, read_data, set_latency_timer,
  disable_bitbang, log_call, init, set_interface, usb_open, usb_open_string, usb_reset,
  usb_purge_buffers, get_latency_timer, set_bitmode, write_data,
}
use ice9_api.Mpsse.{
  interface_of, mpsse_send_byte, mpsse_check_rx, mpsse_error, mpsse_init, mpsse_close,
}

-- A read that gives a byte, and one that gives none.
pub record HasByte (r : FtdiReply) : Type 0 where
  pub not_negative : is_negative r.ret ≡ false
  pub not_zero : is_pos r.ret 0 ≡ false

abbrev pub AllHaveByte : List FtdiReply → Type 0
AllHaveByte [] = Unit
AllHaveByte (r ∷ rs) = HasByte r × AllHaveByte rs

-- The calls that give back the device.
abbrev pub release_calls : Mpsse → List FtdiCall
release_calls s =
    (if s.is_open
      then (if s.latency_set then set_latency_timer s.latency ∷ [] else []) ++ usb_close ∷ []
      else [])
    ++ deinit ∷ []

-- The unread bytes are read, up to the first read that gives none.
pub check_rx_drains :
    (unread : List FtdiReply) (last : FtdiReply) (rs : List FtdiReply) (s : Mpsse)
    → AllHaveByte unread
    → last.ret ≡ pos 0
    → mpsse_check_rx (unread ++ last ∷ rs) s
      ≡ done tt rs (record s { calls = s.calls ++ replicate (suc (length unread)) (read_data 1) })
unfolding mpsse_check_rx
check_rx_drains [] last rs s h e = ground (arith, e)
check_rx_drains (r ∷ unread) last rs s h e =
    rw (mpsse_check_rx, h.0.not_negative, h.0.not_zero)
      (check_rx_drains unread last rs (log_call (read_data 1) s) h.1 e
        ∙ ap (λ calls. done tt rs (record s { calls = calls }))
            (append_assoc s.calls (read_data 1 ∷ []) _))

mpsse_error_steps {ℓ} :
    {A : Type ℓ} (status : ℕ) (rs rs' : List FtdiReply) (s s' : Mpsse)
    → mpsse_check_rx rs s ≡ done tt rs' s'
    → mpsse_error {A = A} status rs s
      ≡ exited rs' (record s' { calls = s'.calls ++ release_calls s' ++ exit status ∷ [] })
unfolding mpsse_error
mpsse_error_steps status rs rs' s s' e = grind (arith, e, append_assoc {A = FtdiCall})

-- `mpsse_error` does not return. It reads the bytes that are still there, up to the first read
-- that gives none; it closes the device if it is open, with the latency timer set back before
-- that if it was changed; and it exits with the status that it is given.
pub mpsse_error_releases {ℓ} :
    {A : Type ℓ} (status : ℕ) (unread : List FtdiReply) (last : FtdiReply) (rs : List FtdiReply)
    (s : Mpsse)
    → AllHaveByte unread
    → last.ret ≡ pos 0
    → mpsse_error {A = A} status (unread ++ last ∷ rs) s
      ≡ exited rs (record s {
        calls =
            s.calls
            ++ replicate (suc (length unread)) (read_data 1)
            ++ release_calls s
            ++ exit status ∷ [];
      })
unfolding mpsse_error
mpsse_error_releases status unread last rs s h e =
    mpsse_error_steps status _ rs s _ (check_rx_drains unread last rs s h e)

-- A good start: the replies to the calls of `mpsse_init`, with the latency that the timer has.
abbrev pub init_replies : ℕ → List FtdiReply
init_replies latency =
    let good : FtdiReply = record { ret = pos 0; byte = 0 } in
    let sent : FtdiReply = record { ret = pos 1; byte = 0 } in
    good
    ∷ good
    ∷ good
    ∷ record { ret = pos 0; byte = latency }
    ∷ good
    ∷ good
    ∷ sent
    ∷ sent
    ∷ sent
    ∷ sent
    ∷ []

-- The bytes that set the clock up: the divisor 5, and 119 or 0 in the clock's own divisor.
abbrev pub clock_calls : Bool → List FtdiCall
clock_calls slow_clock =
    write_data (0x8B ∷ [])
    ∷ write_data (0x86 ∷ [])
    ∷ write_data ((if slow_clock then 119 else 0) ∷ [])
    ∷ write_data (0 ∷ [])
    ∷ []

-- The calls of a start that goes well.
abbrev pub init_calls : ℕ → Bool → Bool → List FtdiCall
init_calls ifnum devstr slow_clock =
    init
    ∷ set_interface (interface_of ifnum)
    ∷ (if devstr then usb_open_string else usb_open 0x0403 0x6010)
    ∷ usb_reset
    ∷ usb_purge_buffers
    ∷ get_latency_timer
    ∷ set_latency_timer 1
    ∷ set_bitmode 0xff
    ∷ clock_calls slow_clock

-- The state after such a start.
abbrev pub opened : ℕ → Bool → Bool → ℕ → Mpsse → Mpsse
opened ifnum devstr slow_clock latency s = record s {
  is_open = true;
  latency_set = true;
  latency = latency;
  calls = s.calls ++ init_calls ifnum devstr slow_clock;
}

pub mpsse_init_opens :
    (ifnum latency : ℕ) (devstr slow_clock : Bool) (rs : List FtdiReply) (s : Mpsse)
    → mpsse_init ifnum devstr slow_clock (init_replies latency ++ rs) s
      ≡ done tt rs (opened ifnum devstr slow_clock latency s)
unfolding mpsse_init mpsse_send_byte
mpsse_init_opens ifnum latency true true rs s = simp append_assoc
mpsse_init_opens ifnum latency true false rs s = simp append_assoc
mpsse_init_opens ifnum latency false true rs s = simp append_assoc
mpsse_init_opens ifnum latency false false rs s = simp append_assoc

pub mpsse_close_sends :
    (rs : List FtdiReply) (s : Mpsse)
    → mpsse_close rs s
      ≡ done tt rs (record s {
        calls = s.calls ++ set_latency_timer s.latency ∷ disable_bitbang ∷ usb_close ∷ deinit ∷ [];
      })
unfolding mpsse_close
mpsse_close_sends rs s = simp append_assoc

-- With good replies `mpsse_init` makes its calls in order and returns, with the device open and
-- the latency of the timer kept; `mpsse_close` after it sets the timer back to that latency,
-- leaves the bit mode and closes the device.
pub mpsse_init-close :
    (ifnum latency : ℕ) (devstr slow_clock : Bool) (rs : List FtdiReply) (s : Mpsse)
    → (s' : Mpsse) × ((mpsse_init ifnum devstr slow_clock >> mpsse_close)
          (init_replies latency ++ rs)
          s
        ≡ done tt rs s')
      × (s'.calls
          ≡ s.calls
            ++ init_calls ifnum devstr slow_clock
            ++ set_latency_timer latency ∷ disable_bitbang ∷ usb_close ∷ deinit ∷ [])
      × (s'.is_open ≡ true)
      × (s'.latency_set ≡ true)
unfolding mpsse_init mpsse_close mpsse_send_byte
mpsse_init-close ifnum latency true true rs s = (_, refl, simp (append_assoc), refl, refl)
mpsse_init-close ifnum latency true false rs s = (_, refl, simp (append_assoc), refl, refl)
mpsse_init-close ifnum latency false true rs s = (_, refl, simp (append_assoc), refl, refl)
mpsse_init-close ifnum latency false false rs s = (_, refl, simp (append_assoc), refl, refl)
