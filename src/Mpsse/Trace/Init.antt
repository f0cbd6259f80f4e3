-- ===== src/Mpsse/Trace/Init.antt =====
-- How `mpsse_init` ends.
use ice9_api.Prelude.{
  ℕ, ◌≡◌, refl, ◌∙◌, ap, Bool, true, false, List, [], ◌∷◌, ◌++◌, append-nil, pure, ◌>>=◌, ◌>>◌,
  if◌then◌else◌, is_negative, is_pos,
}
use ice9_api.Ftdi.{
  FtdiCall, FtdiReply, Mpsse, Ftdi, log_call, ftdi_call, set_state, init, set_interface, usb_open,
  usb_open_string, usb_reset, usb_purge_buffers, get_latency_timer, set_latency_timer, set_bitmode,
  write_data,
}
use ice9_api.Mpsse.{
  mpsse_error, mpsse_send_byte, interface_of, require_zero, require_not_negative, usb_open_device,
  set_clock, mpsse_init,
}
use ice9_api.Mpsse.Start.{flags}
use ice9_api.Mpsse.Trace.{
  IsSetUp, mark, Leads, Ends, Tracks, Ends-after, Tracks-bind, Tracks-then, Tracks-if, Tracks-pure,
  IsSilent, Tracks-do, Tracks-call, Tracks-mpsse_error,
}

-- An assignment, and the call after it, which tells of it.
Tracks-set :
    {A B : Type 0} (change : Mpsse → Mpsse) (c : FtdiCall) (check : FtdiReply → Ftdi A)
    (rest : A → Ftdi B)
    → IsSetUp c
    → ((s : Mpsse) → (change s).calls ≡ s.calls)
    → ((s : Mpsse) → flags (change s) ≡ mark c (flags s))
    → ((r : FtdiReply) → Tracks (check r))
    → ((a : A) → Tracks (rest a))
    → Tracks (set_state change >> ((ftdi_call c >>= check) >>= rest))
Tracks-set change c check rest harmless same tells kc kr = record { at = ends }
  where
    leads : (s : Mpsse) → Leads [] s (log_call c (change s))
    leads s = record {
      middle = c ∷ [];
      set_up = (harmless, tt);
      made = ap (λ cs. cs ++ c ∷ []) (same s) ∙ simp append-nil;
      marked = tells s;
    }

    ends :
        (rs : List FtdiReply) (s : Mpsse)
        → Ends s ((set_state change >> ((ftdi_call c >>= check) >>= rest)) rs s)
    ends [] s = leads s
    ends (r ∷ rs) s =
        Ends-after ((check r >>= rest) rs (log_call c (change s))) (leads s)
          ((Tracks-bind (check r) rest (kc r) kr).at rs (log_call c (change s)))

Tracks-zero : (r : FtdiReply) → Tracks (if is_pos r.ret 0 then pure tt else mpsse_error 2)
Tracks-zero r = Tracks-if (is_pos r.ret 0) _ _ (Tracks-pure tt) (Tracks-mpsse_error Unit)

Tracks-not_negative : (r : FtdiReply) → Tracks (if is_negative r.ret then mpsse_error 2 else pure r)
Tracks-not_negative r =
    Tracks-if (is_negative r.ret) _ _ (Tracks-mpsse_error FtdiReply) (Tracks-pure r)

Tracks-require_zero : (c : FtdiCall) → IsSilent c → Tracks (require_zero c)
Tracks-require_zero c i = Tracks-bind (ftdi_call c) _ (Tracks-call c i) Tracks-zero

Tracks-require_not_negative : (c : FtdiCall) → IsSilent c → Tracks (require_not_negative c)
Tracks-require_not_negative c i = Tracks-bind (ftdi_call c) _ (Tracks-call c i) Tracks-not_negative

Tracks-usb_open_device : (devstr : Bool) → Tracks (usb_open_device devstr)
Tracks-usb_open_device true =
    Tracks-require_zero usb_open_string (record { harmless = tt; silent = λ f. refl })
Tracks-usb_open_device false =
    Tracks-bind (ftdi_call (usb_open 0x0403 0x6010)) _
      (Tracks-call _ (record { harmless = tt; silent = λ f. refl }))
      (λ r.
        Tracks-if (is_pos r.ret 0) _ _ (Tracks-pure tt)
          (Tracks-require_zero _ (record { harmless = tt; silent = λ f. refl })))

Tracks-byte : (byte : ℕ) → Tracks (mpsse_send_byte byte)
unfolding mpsse_send_byte
Tracks-byte byte =
    Tracks-bind (ftdi_call (write_data (byte ∷ []))) _
      (Tracks-call _ (record { harmless = tt; silent = λ f. refl }))
      (λ r. Tracks-if (is_pos r.ret 1) _ _ (Tracks-pure tt) (Tracks-mpsse_error Unit))

Tracks-set_clock : (slow_clock : Bool) → Tracks (set_clock slow_clock)
Tracks-set_clock slow_clock =
    Tracks-then (Tracks-byte _)
      (Tracks-then (Tracks-byte _) (Tracks-then (Tracks-byte _) (Tracks-byte 0)))

Tracks-latency : (n : ℕ) → Tracks (set_state (λ s. record s { latency = n }))
Tracks-latency n = record {
  at = λ rs s. record { middle = []; set_up = tt; made = simp append-nil; marked = refl };
}

pub Tracks-mpsse_init :
    (ifnum : ℕ) (devstr slow_clock : Bool) → Tracks (mpsse_init ifnum devstr slow_clock)
unfolding mpsse_init
Tracks-mpsse_init ifnum devstr slow_clock =
    Tracks-then (Tracks-do init (record { harmless = tt; silent = λ f. refl })) (
      Tracks-then
        (Tracks-do (set_interface (interface_of ifnum))
          (record { harmless = tt; silent = λ f. refl }))
        (Tracks-then (Tracks-usb_open_device devstr) (
          Tracks-set (λ s. record s { is_open = true }) usb_reset _ _ tt (λ s. refl) (λ s. refl)
            Tracks-zero
            (λ u.
              Tracks-then
                (Tracks-require_zero usb_purge_buffers
                  (record { harmless = tt; silent = λ f. refl }))
                (Tracks-bind (require_not_negative get_latency_timer) _
                  (Tracks-require_not_negative get_latency_timer
                    (record { harmless = tt; silent = λ f. refl }))
                  (λ r. Tracks-then (Tracks-latency r.byte) (
                    Tracks-bind (require_not_negative (set_latency_timer 1)) _
                      (Tracks-require_not_negative (set_latency_timer 1)
                        (record { harmless = tt; silent = λ f. refl }))
                      (λ r'.
                        Tracks-set (λ s. record s { latency_set = true }) (set_bitmode 0xff) _ _ tt
                          (λ s. refl) (λ s. refl) Tracks-not_negative
                          (λ r''. Tracks-set_clock slow_clock)))))))))
