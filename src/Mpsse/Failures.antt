-- ===== src/Mpsse/Failures.antt =====
-- What `mpsse_init` does when one of its calls fails on a device that it has opened.
use ice9_api.Prelude.{
  ◌≢◌, ℕ, suc, ◌≡◌, refl, ◌∙◌, ap, Bool, true, false, List, [], ◌∷◌, ◌++◌, exited, append_assoc,
  pos, ◌>>=◌, ◌>>◌, is_negative, is_pos, if◌then◌else◌, length, replicate, arith, take, ◌+◌,
}
use ice9_api.Ftdi.{
  FtdiCall, FtdiReply, Mpsse, Ftdi, exit, init, set_interface, usb_open, usb_open_string, usb_close,
  usb_reset, usb_purge_buffers, get_latency_timer, set_latency_timer, set_bitmode, deinit,
  write_data, read_data, log_call, set_state,
}
use ice9_api.Mpsse.{
  mpsse_send_spi, mpsse_send_byte, interface_of, require_zero, require_not_negative, set_clock,
  mpsse_error, mpsse_init,
}
use ice9_api.Mpsse.Frames.{wrote, add_calls, transfer_calls}
use ice9_api.Mpsse.Session.{AllHaveByte, release_calls, mpsse_error_releases}

-- How the device is opened: by its string, as the first of the two kinds of chip, or as the second
-- once the first is not found.
pub data Opening : Type 0 where
  by_string as_first : Opening
  as_second : FtdiReply → Opening

abbrev pub devstr_of : Opening → Bool
devstr_of by_string = true
devstr_of _ = false

abbrev pub IsOpening : Opening → Type 0
IsOpening (as_second r) = is_pos r.ret 0 ≡ false
IsOpening _ = Unit

abbrev good : ℕ → FtdiReply
good byte = record { ret = pos 0; byte = byte }

abbrev pub opening_replies : Opening → List FtdiReply
opening_replies (as_second r) = r ∷ good 0 ∷ []
opening_replies _ = good 0 ∷ []

abbrev pub opening_calls : Opening → List FtdiCall
opening_calls by_string = usb_open_string ∷ []
opening_calls as_first = usb_open 0x0403 0x6010 ∷ []
opening_calls (as_second r) = usb_open 0x0403 0x6010 ∷ usb_open 0x0403 0x6014 ∷ []

-- The calls that can fail once the device is open; the last four are the writes for the clock.
pub data Stage : Type 0 where
  reset purge get_latency set_latency bit_mode divide_by_5 divisor low_byte high_byte : Stage

-- The reply that is a failure of the call.
abbrev pub Fails : Stage → FtdiReply → Type 0
Fails reset r = is_pos r.ret 0 ≡ false
Fails purge r = is_pos r.ret 0 ≡ false
Fails get_latency r = is_negative r.ret ≡ true
Fails set_latency r = is_negative r.ret ≡ true
Fails bit_mode r = is_negative r.ret ≡ true
Fails _ r = is_pos r.ret 1 ≡ false

-- Its place among the calls.
abbrev pub place : Stage → ℕ
place reset = 0
place purge = 1
place get_latency = 2
place set_latency = 3
place bit_mode = 4
place divide_by_5 = 5
place divisor = 6
place low_byte = 7
place high_byte = 8

-- The good replies before it, from the opening of the device; `latency` is the timer's.
abbrev pub replies_before : Stage → ℕ → List FtdiReply
replies_before stage latency =
    take (place stage)
      (good 0 ∷ good 0 ∷ good latency ∷ good 0 ∷ good 0 ∷ wrote 1 ∷ wrote 1 ∷ wrote 1 ∷ [])

-- The calls from the opening up to the one that fails.
abbrev pub calls_until : Stage → Bool → List FtdiCall
calls_until stage slow_clock = take (place stage + 1) (
    usb_reset
    ∷ usb_purge_buffers
    ∷ get_latency_timer
    ∷ set_latency_timer 1
    ∷ set_bitmode 0xff
    ∷ write_data (0x8B ∷ [])
    ∷ write_data (0x86 ∷ [])
    ∷ write_data ((if slow_clock then 119 else 0) ∷ [])
    ∷ write_data (0 ∷ [])
    ∷ [])

abbrev timer_back : Bool → ℕ → List FtdiCall
timer_back latency_set latency = if latency_set then set_latency_timer latency ∷ [] else []

-- The timer is set back once it was changed; and earlier too if it was changed at a start before,
-- which the variables do not forget, to the latest value that was asked for.
abbrev pub calls_back : Stage → (latency_set : Bool) → (was latency : ℕ) → List FtdiCall
calls_back reset latency_set was latency = timer_back latency_set was
calls_back purge latency_set was latency = timer_back latency_set was
calls_back get_latency latency_set was latency = timer_back latency_set was
calls_back set_latency latency_set was latency = timer_back latency_set latency
calls_back _ latency_set was latency = set_latency_timer latency ∷ []

-- `mpsse_init` from the opening of the device on.
set_up : Bool → Ftdi (Unit {0})
set_up slow_clock = do
  set_state (λ s. record s { is_open = true })
  require_zero usb_reset
  require_zero usb_purge_buffers
  r ← require_not_negative get_latency_timer
  set_state (λ s. record s { latency = r.byte })
  require_not_negative (set_latency_timer 1)
  set_state (λ s. record s { latency_set = true })
  require_not_negative (set_bitmode 0xff)
  set_clock slow_clock

module _ (ifnum : ℕ) (slow_clock : Bool) (s : Mpsse) where
  abbrev started : Mpsse
  started = log_call (set_interface (interface_of ifnum)) (log_call init s)

  -- The state once the device is open.
  abbrev opened_at : Opening → Mpsse
  opened_at by_string = log_call usb_open_string started
  opened_at as_first = log_call (usb_open 0x0403 0x6010) started
  opened_at (as_second r) =
      log_call (usb_open 0x0403 0x6014) (log_call (usb_open 0x0403 0x6010) started)

  mpsse_init-opening :
      (o : Opening) (rs : List FtdiReply)
      → IsOpening o
      → mpsse_init ifnum (devstr_of o) slow_clock (opening_replies o ++ rs) s
        ≡ set_up slow_clock rs (opened_at o)
  unfolding mpsse_init set_up
  mpsse_init-opening by_string rs i = refl
  mpsse_init-opening as_first rs i = refl
  mpsse_init-opening (as_second r) rs i = ground (arith, i)

  opened_at_lem :
      (o : Opening)
      → opened_at o ≡ record s {
        calls = s.calls ++ (init ∷ set_interface (interface_of ifnum) ∷ []) ++ opening_calls o;
      }
  opened_at_lem by_string = ap (λ cs. record s { calls = cs }) (simp append_assoc)
  opened_at_lem as_first = ap (λ cs. record s { calls = cs }) (simp append_assoc)
  opened_at_lem (as_second r) = ap (λ cs. record s { calls = cs }) (simp append_assoc)

module _ (latency : ℕ) (slow_clock : Bool) (s : Mpsse) where
  -- The state at each failure, from that of one step earlier.
  abbrev at_reset : Mpsse
  at_reset = log_call usb_reset (record s { is_open = true })

  abbrev at_purge : Mpsse
  at_purge = log_call usb_purge_buffers at_reset

  abbrev at_get_latency : Mpsse
  at_get_latency = log_call get_latency_timer at_purge

  abbrev at_set_latency : Mpsse
  at_set_latency = log_call (set_latency_timer 1) (record at_get_latency { latency = latency })

  abbrev at_bit_mode : Mpsse
  at_bit_mode = log_call (set_bitmode 0xff) (record at_set_latency { latency_set = true })

  abbrev at_divide : Mpsse
  at_divide = log_call (write_data (0x8B ∷ [])) at_bit_mode

  abbrev at_divisor : Mpsse
  at_divisor = log_call (write_data (0x86 ∷ [])) at_divide

  abbrev at_low_byte : Mpsse
  at_low_byte = log_call (write_data ((if slow_clock then 119 else 0) ∷ [])) at_divisor

  abbrev stopped : Stage → Mpsse
  stopped reset = at_reset
  stopped purge = at_purge
  stopped get_latency = at_get_latency
  stopped set_latency = at_set_latency
  stopped bit_mode = at_bit_mode
  stopped divide_by_5 = at_divide
  stopped divisor = at_divisor
  stopped low_byte = at_low_byte
  stopped high_byte = log_call (write_data (0 ∷ [])) at_low_byte

  stopped_calls : (stage : Stage) → (stopped stage).calls ≡ s.calls ++ calls_until stage slow_clock
  stopped_calls reset = refl
  stopped_calls purge = simp append_assoc
  stopped_calls get_latency = simp append_assoc
  stopped_calls set_latency = simp append_assoc
  stopped_calls bit_mode = simp append_assoc
  stopped_calls divide_by_5 = simp append_assoc
  stopped_calls divisor = simp append_assoc
  stopped_calls low_byte = simp append_assoc
  stopped_calls high_byte = simp append_assoc

  stopped_release :
      (stage : Stage)
      → release_calls (stopped stage)
        ≡ calls_back stage s.latency_set s.latency latency ++ usb_close ∷ deinit ∷ []
  stopped_release reset = simp append_assoc
  stopped_release purge = simp append_assoc
  stopped_release get_latency = simp append_assoc
  stopped_release set_latency = simp append_assoc
  stopped_release bit_mode = simp append_assoc
  stopped_release divide_by_5 = simp append_assoc
  stopped_release divisor = simp append_assoc
  stopped_release low_byte = simp append_assoc
  stopped_release high_byte = simp append_assoc

  set_up_stops :
      (stage : Stage) (r : FtdiReply) (rs rs' : List FtdiReply) (s' : Mpsse)
      → Fails stage r
      → mpsse_error {A = Unit {0}} 2 rs (stopped stage) ≡ exited rs' s'
      → mpsse_error {A = FtdiReply} 2 rs (stopped stage) ≡ exited rs' s'
      → set_up slow_clock (replies_before stage latency ++ r ∷ rs) s ≡ exited rs' s'
  unfolding set_up mpsse_send_byte
  set_up_stops reset r rs rs' s' fails e f = ground (arith, fails, e, f)
  set_up_stops purge r rs rs' s' fails e f = ground (arith, fails, e, f)
  set_up_stops get_latency r rs rs' s' fails e f = ground (arith, fails, e, f)
  set_up_stops set_latency r rs rs' s' fails e f = ground (arith, fails, e, f)
  set_up_stops bit_mode r rs rs' s' fails e f = ground (arith, fails, e, f)
  set_up_stops divide_by_5 r rs rs' s' fails e f = ground (arith, fails, e, f)
  set_up_stops divisor r rs rs' s' fails e f = ground (arith, fails, e, f)
  set_up_stops low_byte r rs rs' s' fails e f = ground (arith, fails, e, f)
  set_up_stops high_byte r rs rs' s' fails e f = ground (arith, fails, e, f)

-- When a call of `mpsse_init` fails on the device that it has opened, be it one of the five calls
-- that reset and set up the chip or one of the four writes for its clock, and the calls before it
-- went well, `mpsse_init` does not return: it makes no further call of its set-up, reads the bytes
-- that are still there, sets the latency timer back, closes the device, and exits with status 2.
-- The timer is set back to what `mpsse_init` has read if it has changed it; if it has not, it is
-- still set, to the latest value read, when the variables, which `mpsse_close` leaves as they are,
-- say so from a start before.
pub init_gives_back :
    (stage : Stage) (o : Opening) (ifnum latency : ℕ) (slow_clock : Bool) (s : Mpsse)
    → (r : FtdiReply) (unread : List FtdiReply) (last : FtdiReply) (rs : List FtdiReply)
    → IsOpening o
    → Fails stage r
    → AllHaveByte unread
    → last.ret ≡ pos 0
    → (s' : Mpsse) × (mpsse_init ifnum
          (devstr_of o)
          slow_clock
          (opening_replies o ++ (replies_before stage latency ++ r ∷ (unread ++ last ∷ rs)))
          s
        ≡ exited rs s')
      × (s'.calls
          ≡ s.calls
            ++ (init ∷ set_interface (interface_of ifnum) ∷ [])
            ++ opening_calls o
            ++ calls_until stage slow_clock
            ++ replicate (suc (length unread)) (read_data 1)
            ++ calls_back stage s.latency_set s.latency latency
            ++ usb_close ∷ deinit ∷ exit 2 ∷ [])
init_gives_back stage o ifnum latency slow_clock s r unread last rs opens fails bytes e =
    let s1 = record s {
      calls = s.calls ++ (init ∷ set_interface (interface_of ifnum) ∷ []) ++ opening_calls o;
    } in
    let read = replicate (suc (length unread)) (read_data 1) in
    (
      _,
      mpsse_init-opening ifnum slow_clock s o _ opens
          ∙ ap (set_up slow_clock _) (opened_at_lem ifnum slow_clock s o)
          ∙ set_up_stops latency slow_clock s1 stage r (unread ++ last ∷ rs) rs _ fails
              (mpsse_error_releases 2 unread last rs _ bytes e)
              (mpsse_error_releases 2 unread last rs _ bytes e),
      ap (λ cs. (cs ++ read) ++ release_calls (stopped latency slow_clock s1 stage) ++ exit 2 ∷ [])
            (stopped_calls latency slow_clock s1 stage)
          ∙ ap (λ cs. (s1.calls ++ calls_until stage slow_clock ++ read) ++ cs ++ exit 2 ∷ [])
              (stopped_release latency slow_clock s1 stage)
          ∙ simp append_assoc,
    )

-- A transfer of which not all bytes are written goes to `mpsse_error`.
pub send_spi_cut_off :
    (bytes : List ℕ) (n k : ℕ) (rs : List FtdiReply) (s : Mpsse)
    → n ≢ 0
    → k ≢ n
    → mpsse_send_spi bytes n (wrote 1 ∷ wrote 1 ∷ wrote 1 ∷ wrote k ∷ rs) s
      ≡ mpsse_error 2 rs (add_calls (transfer_calls 0x11 n bytes) s)
unfolding mpsse_send_spi mpsse_send_byte
send_spi_cut_off bytes n k rs s ne short = grind (arith, append_assoc {A = FtdiCall})
