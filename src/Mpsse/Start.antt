-- ===== src/Mpsse/Start.antt =====
-- What holds once `mpsse_init` has returned, whatever libftdi answers.
use mathlib.Core.Path.{subst}
use ice9_api.Prelude.{
  ℕ, ◌≡◌, refl, ap, Bool, true, false, List, [], ◌∷◌, Outcome, done, exited, blocked, fault, pure,
  ◌>>=◌, ◌>>◌, if◌then◌else◌, is_negative, is_pos,
}
use ice9_api.Ftdi.{
  FtdiCall, FtdiReply, Mpsse, Ftdi, ftdi_call, ftdi_do, set_state, init, set_interface, usb_open,
  usb_open_string, usb_reset, usb_purge_buffers, get_latency_timer, set_latency_timer, set_bitmode,
}
use ice9_api.Mpsse.{
  mpsse_error, mpsse_send_byte, interface_of, require_zero, require_not_negative, usb_open_device,
  set_clock, mpsse_init,
}
use ice9_api.Mpsse.Traffic.{nothing, IsClean, EndsCleanly}
use ice9_api.Mpsse.Traffic.Errors.{IsClean-mpsse_error}
use ice9_api.Mpsse.Traffic.Bytes.{IsClean-mpsse_send_byte}

-- The variables that tell how the device is to be given back.
abbrev pub Flags : Type 0
Flags = Bool × Bool

abbrev pub flags : Mpsse → Flags
flags s = (s.is_open, s.latency_set)

-- A run that returns has turned the flags `f` into `g`.
abbrev pub SetsIn : {A : Type 0} → Flags → Outcome FtdiReply Mpsse A → Type 0
SetsIn g (done a rs s) = flags s ≡ g
SetsIn g _ = Unit

-- A program that turns the flags into `g`, or leaves them as they are.
record Sets {A : Type 0} (change : Flags → Flags) (m : Ftdi A) : Type 0 where
  at : (rs : List FtdiReply) (s : Mpsse) → SetsIn (change (flags s)) (m rs s)

abbrev same : Flags → Flags
same f = f

module _ {A B : Type 0} (c d : Flags → Flags) where
  then-Sets :
      (f : Flags) (o : Outcome FtdiReply Mpsse A) (k : A → Ftdi B)
      → SetsIn (c f) o
      → ((a : A) → Sets d (k a))
      → SetsIn (d (c f)) (elim o [
        | done a rs s' ↦ k a rs s'
        | exited rs s' ↦ exited rs s'
        | blocked s' ↦ blocked s'
        | fault ↦ fault
      ])
  then-Sets f (done a rs s') k e kk = subst (λ g. SetsIn (d g) (k a rs s')) e ((kk a).at rs s')
  then-Sets f (exited rs s') k e kk = tt
  then-Sets f (blocked s') k e kk = tt
  then-Sets f fault k e kk = tt

  Sets-bind :
      (m : Ftdi A) (k : A → Ftdi B)
      → Sets c m
      → ((a : A) → Sets d (k a))
      → Sets (λ f. d (c f)) (m >>= k)
  Sets-bind m k km kk = record { at = λ rs s. then-Sets (flags s) (m rs s) k (km.at rs s) kk }

Sets-pure : {A : Type 0} (a : A) → Sets same (pure a)
Sets-pure a = record { at = λ rs s. refl }

Sets-if :
    {A : Type 0} (b : Bool) (m n : Ftdi A)
    → Sets same m
    → Sets same n
    → Sets same (if b then m else n)
Sets-if true m n km kn = km
Sets-if false m n km kn = kn

Sets-do : (c : FtdiCall) → Sets same (ftdi_do c)
Sets-do c = record { at = λ rs s. refl }

Sets-call : (c : FtdiCall) → Sets same (ftdi_call c)
Sets-call c = record { at = keeps }
  where
    keeps : (rs : List FtdiReply) (s : Mpsse) → SetsIn (flags s) (ftdi_call c rs s)
    keeps [] s = tt
    keeps (r ∷ rs) s = refl

EndsCleanly-SetsIn :
    {A : Type 0} (s : Mpsse) (o : Outcome FtdiReply Mpsse A)
    → EndsCleanly nothing s o
    → SetsIn (flags s) o
EndsCleanly-SetsIn s (done a rs s') t = ap flags t.leads
EndsCleanly-SetsIn s (exited rs s') t = tt
EndsCleanly-SetsIn s (blocked s') t = tt
EndsCleanly-SetsIn s fault t = tt

IsClean-Sets : {A : Type 0} (m : Ftdi A) → IsClean nothing m → Sets same m
IsClean-Sets m clean = record { at = λ rs s. EndsCleanly-SetsIn s (m rs s) (clean.at rs s) }

Sets-then :
    {A : Type 0} {c d : Flags → Flags} {m : Ftdi (Unit {0})} {n : Ftdi A}
    → Sets c m
    → Sets d n
    → Sets (λ f. d (c f)) (m >> n)
Sets-then {c = c} {d = d} {m = m} {n = n} p q = Sets-bind c d m (λ u. n) p (λ u. q)

Sets-error : {A : Type 0} → Sets same (mpsse_error {A = A} 2)
Sets-error {A} = IsClean-Sets (mpsse_error 2) (IsClean-mpsse_error A)

Sets-require_zero : (c : FtdiCall) → Sets same (require_zero c)
Sets-require_zero c =
    Sets-bind same same (ftdi_call c) _ (Sets-call c)
      (λ r. Sets-if (is_pos r.ret 0) _ _ (Sets-pure tt) Sets-error)

Sets-require_not_negative : (c : FtdiCall) → Sets same (require_not_negative c)
Sets-require_not_negative c =
    Sets-bind same same (ftdi_call c) _ (Sets-call c)
      (λ r. Sets-if (is_negative r.ret) _ _ Sets-error (Sets-pure r))

Sets-usb_open_device : (devstr : Bool) → Sets same (usb_open_device devstr)
Sets-usb_open_device true = Sets-require_zero usb_open_string
Sets-usb_open_device false =
    Sets-bind same same (ftdi_call (usb_open 0x0403 0x6010)) _ (Sets-call _) (λ r.
      Sets-if (is_pos r.ret 0) _ _ (Sets-pure tt) (Sets-require_zero (usb_open 0x0403 0x6014)))

Sets-byte : (byte : ℕ) → Sets same (mpsse_send_byte byte)
Sets-byte byte = IsClean-Sets (mpsse_send_byte byte) (IsClean-mpsse_send_byte byte)

Sets-set_clock : (slow_clock : Bool) → Sets same (set_clock slow_clock)
Sets-set_clock slow_clock =
    Sets-then (Sets-byte _) (Sets-then (Sets-byte _) (Sets-then (Sets-byte _) (Sets-byte 0)))

-- The three assignments.
Sets-is_open : Sets (λ f. (true, f.1)) (set_state (λ s. record s { is_open = true }))
Sets-is_open = record { at = λ rs s. refl }

Sets-latency : (n : ℕ) → Sets same (set_state (λ s. record s { latency = n }))
Sets-latency n = record { at = λ rs s. refl }

Sets-latency_set : Sets (λ f. (f.0, true)) (set_state (λ s. record s { latency_set = true }))
Sets-latency_set = record { at = λ rs s. refl }

Sets-mpsse_init :
    (ifnum : ℕ) (devstr slow_clock : Bool)
    → Sets (λ f. (true, true)) (mpsse_init ifnum devstr slow_clock)
unfolding mpsse_init
Sets-mpsse_init ifnum devstr slow_clock = Sets-then (Sets-do init) (
    Sets-then (Sets-do (set_interface (interface_of ifnum))) (
      Sets-then (Sets-usb_open_device devstr) (
        Sets-then Sets-is_open (
          Sets-then (Sets-require_zero usb_reset) (
            Sets-then (Sets-require_zero usb_purge_buffers) (
              Sets-bind same (λ f. (f.0, true)) (require_not_negative get_latency_timer) _
                (Sets-require_not_negative get_latency_timer)
                (λ r. Sets-then (Sets-latency r.byte) (
                  Sets-bind same (λ f. (f.0, true)) (require_not_negative (set_latency_timer 1)) _
                    (Sets-require_not_negative (set_latency_timer 1))
                    (λ r'. Sets-then Sets-latency_set (
                      Sets-bind same same (require_not_negative (set_bitmode 0xff)) _
                        (Sets-require_not_negative (set_bitmode 0xff))
                        (λ r''. Sets-set_clock slow_clock)))))))))))

-- A start that returns leaves the device to be closed and its latency timer to be set back.
pub mpsse_init-SetsIn :
    (ifnum : ℕ) (devstr slow_clock : Bool) (rs : List FtdiReply) (s : Mpsse)
    → SetsIn (true, true) (mpsse_init ifnum devstr slow_clock rs s)
mpsse_init-SetsIn ifnum devstr slow_clock rs s = (Sets-mpsse_init ifnum devstr slow_clock).at rs s
