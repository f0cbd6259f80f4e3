-- ===== src/Mpsse/Trace.antt =====
-- How functions of mpsse.c end that set the device up, whatever libftdi answers and whatever the
-- variables of mpsse.c are.
pub mod Init
use ice9_api.Prelude.{
  ℕ, ◌≡◌, refl, ◌∙◌, sym, ap, Bool, true, false, List, [], ◌∷◌, ◌++◌, append_assoc, append-nil,
  Outcome, done, exited, blocked, fault, pure, ◌>>=◌, ◌>>◌, if◌then◌else◌, is_negative, is_pos, inl,
  inr, Bool-cases,
}
use ice9_api.Ftdi.{
  FtdiCall, FtdiReply, Mpsse, Ftdi, log_call, ftdi_call, ftdi_do, get_state, set_state, exit_with,
  init, set_interface, usb_open, usb_open_string, usb_reset, usb_purge_buffers, get_latency_timer,
  set_latency_timer, set_bitmode, disable_bitbang, usb_close, deinit, exit, write_data, read_data,
}
use ice9_api.Mpsse.{
  mpsse_check_rx, mpsse_error, mpsse_send_byte, interface_of, require_zero, require_not_negative,
  usb_open_device, set_clock, mpsse_init,
}
use ice9_api.Mpsse.Session.{release_calls}
use ice9_api.Mpsse.Start.{Flags, flags}

-- A call that neither gives the device back nor ends the program.
abbrev pub IsSetUp : FtdiCall → Type 0
IsSetUp disable_bitbang = ⊥
IsSetUp usb_close = ⊥
IsSetUp deinit = ⊥
IsSetUp (exit status) = ⊥
IsSetUp _ = Unit

abbrev pub AllSetUp : List FtdiCall → Type 0
AllSetUp [] = Unit
AllSetUp (c ∷ cs) = IsSetUp c × AllSetUp cs

AllSetUp-append : (cs ds : List FtdiCall) → AllSetUp cs → AllSetUp ds → AllSetUp (cs ++ ds)
AllSetUp-append [] ds p q = q
AllSetUp-append (c ∷ cs) ds p q = (p.0, AllSetUp-append cs ds p.1 q)

-- What a call tells of the device: a reset is the first call once it is open, and its mode is set
-- once the latency timer has been changed.
abbrev pub mark : FtdiCall → Flags → Flags
mark usb_reset f = (true, f.1)
mark (set_bitmode mask) f = (f.0, true)
mark _ f = f

abbrev pub marks : Flags → List FtdiCall → Flags
marks f [] = f
marks f (c ∷ cs) = marks (mark c f) cs

marks-append : (f : Flags) (cs ds : List FtdiCall) → marks f (cs ++ ds) ≡ marks (marks f cs) ds
marks-append f [] ds = refl
marks-append f (c ∷ cs) ds = marks-append (mark c f) cs ds

-- From `s` to `s'` there are only such calls, and those of `tail` after them; and whether the
-- device is open, and its timer changed, is as these calls tell.
pub record Leads (tail : List FtdiCall) (s s' : Mpsse) : Type 0 where
  pub middle : List FtdiCall
  pub set_up : AllSetUp middle
  pub made : s'.calls ≡ s.calls ++ middle ++ tail
  pub marked : flags s' ≡ marks (flags s) middle

Leads-then :
    {tail : List FtdiCall} {s s1 s2 : Mpsse} → Leads [] s s1 → Leads tail s1 s2 → Leads tail s s2
Leads-then {tail} {s} {s1} {s2} t u = record {
  middle = t.middle ++ u.middle;
  set_up = AllSetUp-append t.middle u.middle t.set_up u.set_up;
  made = u.made ∙ ap (λ cs. cs ++ u.middle ++ tail) t.made ∙ simp (append_assoc, append-nil);
  marked =
      u.marked
      ∙ ap (λ f. marks f u.middle) t.marked
      ∙ sym (marks-append (flags s) t.middle u.middle);
}

-- A run from `s` returns, or it waits for a reply, or it exits with status 2 once what is open or
-- changed by then is given back.
abbrev pub Ends : {A : Type 0} → Mpsse → Outcome FtdiReply Mpsse A → Type 0
Ends s (done a rs s') = Leads [] s s'
Ends s (exited rs s') = Leads (release_calls s' ++ exit 2 ∷ []) s s'
Ends s (blocked s') = Leads [] s s'
Ends s fault = ⊥

pub record Tracks {A : Type 0} (m : Ftdi A) : Type 0 where
  pub at : (rs : List FtdiReply) (s : Mpsse) → Ends s (m rs s)

pub Ends-after :
    {A : Type 0} {s s1 : Mpsse} (o : Outcome FtdiReply Mpsse A)
    → Leads [] s s1
    → Ends s1 o
    → Ends s o
Ends-after (done a rs s') t e = Leads-then t e
Ends-after (exited rs s') t e = Leads-then t e
Ends-after (blocked s') t e = Leads-then t e
Ends-after fault t e = e

module _ {A B : Type 0} where
  then-Ends :
      (s : Mpsse) (o : Outcome FtdiReply Mpsse A) (f : A → Ftdi B)
      → Ends s o
      → ((a : A) → Tracks (f a))
      → Ends s (elim o [
        | done a rs s' ↦ f a rs s'
        | exited rs s' ↦ exited rs s'
        | blocked s' ↦ blocked s'
        | fault ↦ fault
      ])
  then-Ends s (done a rs s') f e kf = Ends-after (f a rs s') e ((kf a).at rs s')
  then-Ends s (exited rs s') f e kf = e
  then-Ends s (blocked s') f e kf = e
  then-Ends s fault f e kf = e

  pub Tracks-bind :
      (m : Ftdi A) (f : A → Ftdi B) → Tracks m → ((a : A) → Tracks (f a)) → Tracks (m >>= f)
  Tracks-bind m f km kf = record { at = λ rs s. then-Ends s (m rs s) f (km.at rs s) kf }

pub Tracks-then :
    {A : Type 0} {m : Ftdi (Unit {0})} {n : Ftdi A} → Tracks m → Tracks n → Tracks (m >> n)
Tracks-then {m = m} {n = n} p q = Tracks-bind m (λ u. n) p (λ u. q)

pub Tracks-if :
    {A : Type 0} (b : Bool) (m n : Ftdi A) → Tracks m → Tracks n → Tracks (if b then m else n)
Tracks-if true m n km kn = km
Tracks-if false m n km kn = kn

pub Tracks-pure : {A : Type 0} (a : A) → Tracks (pure a)
Tracks-pure a = record {
  at = λ rs s. record { middle = []; set_up = tt; made = simp append-nil; marked = refl };
}

-- A call that tells nothing of the device.
pub record IsSilent (c : FtdiCall) : Type 0 where
  pub harmless : IsSetUp c
  pub silent : (f : Flags) → mark c f ≡ f

one_call : (c : FtdiCall) (s : Mpsse) → IsSilent c → Leads [] s (log_call c s)
one_call c s i = record {
  middle = c ∷ [];
  set_up = (i.harmless, tt);
  made = simp append-nil;
  marked = sym (i.silent (flags s));
}

pub Tracks-do : (c : FtdiCall) → IsSilent c → Tracks (ftdi_do c)
Tracks-do c i = record { at = λ rs s. one_call c s i }

pub Tracks-call : (c : FtdiCall) → IsSilent c → Tracks (ftdi_call c)
Tracks-call c i = record { at = ends }
  where
    ends : (rs : List FtdiReply) (s : Mpsse) → Ends s (ftdi_call c rs s)
    ends [] s = one_call c s i
    ends (r ∷ rs) s = one_call c s i

Tracks-mpsse_check_rx : Tracks mpsse_check_rx
unfolding mpsse_check_rx
Tracks-mpsse_check_rx = record { at = ends }
  where
    reads : IsSilent (read_data 1)
    reads = record { harmless = tt; silent = λ f. refl }

    ends : (rs : List FtdiReply) (s : Mpsse) → Ends s (mpsse_check_rx rs s)
    ends [] s = one_call (read_data 1) s reads
    ends (r ∷ rs) s = elim (Bool-cases (is_negative r.ret)) [
      | inl e ↦ rw (mpsse_check_rx, e) (one_call (read_data 1) s reads)
      | inr ne ↦ elim (Bool-cases (is_pos r.ret 0)) [
        | inl e ↦ rw (mpsse_check_rx, ne, e) (one_call (read_data 1) s reads)
        | inr goes_on ↦
            rw (mpsse_check_rx, ne, goes_on)
              (Ends-after (mpsse_check_rx rs (log_call (read_data 1) s))
                (one_call (read_data 1) s reads) (ends rs (log_call (read_data 1) s)))
      ]
    ]

-- What `mpsse_error` does once nothing is left to be read.
release_steps : (A : Type 0) → Ftdi A
release_steps A = do
  s ← get_state
  if s.is_open
      then ((if s.latency_set then ftdi_do (set_latency_timer s.latency) else pure tt)
          >> ftdi_do usb_close)
      else pure tt
  ftdi_do deinit
  exit_with 2

release_leads :
    (A : Type 0) (rs : List FtdiReply) (is_open latency_set : Bool) (latency : ℕ)
    (calls : List FtdiCall)
    → let s : Mpsse = record {
      is_open = is_open;
      latency_set = latency_set;
      latency = latency;
      calls = calls;
    } in
      Ends s (release_steps A rs s)
unfolding release_steps
release_leads A rs false latency_set latency calls = record {
  middle = [];
  set_up = tt;
  made = simp append_assoc;
  marked = refl;
}
release_leads A rs true false latency calls = record {
  middle = [];
  set_up = tt;
  made = simp append_assoc;
  marked = refl;
}
release_leads A rs true true latency calls = record {
  middle = [];
  set_up = tt;
  made = simp append_assoc;
  marked = refl;
}

pub Tracks-mpsse_error : (A : Type 0) → Tracks (mpsse_error {A = A} 2)
unfolding mpsse_error release_steps
Tracks-mpsse_error A =
    Tracks-bind mpsse_check_rx _ Tracks-mpsse_check_rx
      (λ u. record { at = λ rs s. release_leads A rs s.is_open s.latency_set s.latency s.calls })
