-- ===== src/Mpsse/Traffic.antt =====
-- Programs on an open board: what they call, and how they end, whatever libftdi answers.
pub mod Errors
pub mod Bytes
use mathlib.Core.Path.{subst}
use ice9_api.Prelude.{
  ℕ, zero, suc, ◌-◌, ◌/◌, ◌%◌, ◌≡◌, refl, ◌∙◌, sym, ap, Bool, true, false, List, [], ◌∷◌, ◌++◌,
  append_assoc, append-nil, Outcome, done, exited, blocked, fault, pure, ◌>>=◌, ◌>>◌, if◌then◌else◌,
  is_negative, is_pos, ◌⊎◌, inl, inr, Bool-cases, ◌==◌, take, drop,
}
use ice9_api.Ftdi.{
  FtdiCall, FtdiReply, Mpsse, Ftdi, exit, write_data, read_data, usleep, log_call, ftdi_call,
  ftdi_do, get_state, exit_with, cmd_byte, mc_setb_low, mc_readb_low, set_latency_timer, usb_close,
  deinit, disable_bitbang,
}
use ice9_api.Mpsse.{
  mpsse_check_rx, mpsse_error, mpsse_recv_byte, write_all, mpsse_send_byte, send_header,
  mpsse_send_spi, recv_bytes, mpsse_xfer_spi, mpsse_set_gpio, mpsse_readb_low, mpsse_close,
}
use ice9_api.Mpsse.Frames.{add_calls}
use ice9_api.Mpsse.Session.{release_calls}

-- A call that leaves the device open, and the latency timer and the mode as they are.
abbrev pub IsTraffic : FtdiCall → Type 0
IsTraffic (write_data bytes) = Unit
IsTraffic (read_data n) = Unit
IsTraffic (usleep n) = Unit
IsTraffic _ = ⊥

abbrev pub AllTraffic : List FtdiCall → Type 0
AllTraffic [] = Unit
AllTraffic (c ∷ cs) = IsTraffic c × AllTraffic cs

AllTraffic-append : (cs ds : List FtdiCall) → AllTraffic cs → AllTraffic ds → AllTraffic (cs ++ ds)
AllTraffic-append [] ds p q = q
AllTraffic-append (c ∷ cs) ds p q = (p.0, AllTraffic-append cs ds p.1 q)

-- From `s` to `s'` there are only such calls, and those of `tail` after them.
pub record Traffic (tail : List FtdiCall) (s s' : Mpsse) : Type 0 where
  pub middle : List FtdiCall
  pub harmless : AllTraffic middle
  pub leads : s' ≡ add_calls (middle ++ tail) s

pub Traffic-then :
    {tail : List FtdiCall} {s s1 s2 : Mpsse}
    → Traffic [] s s1
    → Traffic tail s1 s2
    → Traffic tail s s2
Traffic-then {tail} {s} {s1} {s2} t u = record {
  middle = t.middle ++ u.middle;
  harmless = AllTraffic-append t.middle u.middle t.harmless u.harmless;
  leads =
      u.leads
      ∙ ap (add_calls (u.middle ++ tail)) t.leads
      ∙ ap (λ cs. record s { calls = cs }) (simp (append_assoc, append-nil));
}

abbrev pub nothing : ℕ → List FtdiCall
nothing latency = []

-- A run from `s` that ends well: it returns behind the calls of `tail`, or it exits with status 2
-- once the device is given back, or with status 1, or it waits for a reply.
abbrev pub EndsCleanly :
    {A : Type 0} → (ℕ → List FtdiCall) → Mpsse → Outcome FtdiReply Mpsse A → Type 0
EndsCleanly tail s (done a rs s') = Traffic (tail s.latency) s s'
EndsCleanly tail s (exited rs s') =
    Traffic (release_calls s ++ exit 2 ∷ []) s s' ⊎ Traffic (exit 1 ∷ []) s s'
EndsCleanly tail s (blocked s') = Traffic [] s s'
EndsCleanly tail s fault = ⊥

pub record IsClean {A : Type 0} (tail : ℕ → List FtdiCall) (m : Ftdi A) : Type 0 where
  pub at : (rs : List FtdiReply) (s : Mpsse) → EndsCleanly tail s (m rs s)

module _ {A : Type 0} (tail : ℕ → List FtdiCall) where
  pub EndsCleanly-after :
      {s s1 : Mpsse} (o : Outcome FtdiReply Mpsse A)
      → Traffic [] s s1
      → EndsCleanly tail s1 o
      → EndsCleanly tail s o
  EndsCleanly-after {s} {s1} (done a rs s') t e =
      Traffic-then t (subst (λ n. Traffic (tail n) s1 s') (ap (λ x. x.latency) t.leads) e)
  EndsCleanly-after {s} {s1} (exited rs s') t e = elim e [
    | inl two ↦ inl (
        Traffic-then t
          (subst (λ cs. Traffic (cs ++ exit 2 ∷ []) s1 s') (ap release_calls t.leads) two))
    | inr one ↦ inr (Traffic-then t one)
  ]
  EndsCleanly-after (blocked s') t e = Traffic-then t e
  EndsCleanly-after fault t e = e

  pub IsClean-if :
      (b : Bool) (m n : Ftdi A)
      → IsClean tail m
      → IsClean tail n
      → IsClean tail (if b then m else n)
  IsClean-if true m n km kn = km
  IsClean-if false m n km kn = kn

-- A step that makes one such call.
pub one_call : (c : FtdiCall) (s : Mpsse) → IsTraffic c → Traffic [] s (log_call c s)
one_call c s board = record { middle = c ∷ []; harmless = (board, tt); leads = refl }

no_call : (s : Mpsse) → Traffic [] s s
no_call s = record {
  middle = [];
  harmless = tt;
  leads = ap (λ cs. record s { calls = cs }) (sym (append-nil s.calls));
}

module _ {A B : Type 0} (tail : ℕ → List FtdiCall) where
  then_ends :
      (s : Mpsse) (o : Outcome FtdiReply Mpsse A) (f : A → Ftdi B)
      → EndsCleanly nothing s o
      → ((a : A) → IsClean tail (f a))
      → EndsCleanly tail s (elim o [
        | done a rs s' ↦ f a rs s'
        | exited rs s' ↦ exited rs s'
        | blocked s' ↦ blocked s'
        | fault ↦ fault
      ])
  then_ends s (done a rs s') f e kf = EndsCleanly-after tail (f a rs s') e ((kf a).at rs s')
  then_ends s (exited rs s') f e kf = e
  then_ends s (blocked s') f e kf = e
  then_ends s fault f e kf = e

  pub IsClean-bind :
      (m : Ftdi A) (f : A → Ftdi B)
      → IsClean nothing m
      → ((a : A) → IsClean tail (f a))
      → IsClean tail (m >>= f)
  IsClean-bind m f km kf = record { at = λ rs s. then_ends s (m rs s) f (km.at rs s) kf }

pub IsClean-pure : {A : Type 0} (a : A) → IsClean nothing (pure a)
IsClean-pure a = record { at = λ rs s. no_call s }

pub IsClean-do : (c : FtdiCall) → IsTraffic c → IsClean nothing (ftdi_do c)
IsClean-do c board = record { at = λ rs s. one_call c s board }

pub IsClean-call : (c : FtdiCall) → IsTraffic c → IsClean nothing (ftdi_call c)
IsClean-call c board = record { at = ends }
  where
    ends : (rs : List FtdiReply) (s : Mpsse) → EndsCleanly nothing s (ftdi_call c rs s)
    ends [] s = one_call c s board
    ends (r ∷ rs) s = one_call c s board

pub IsClean-then :
    {A : Type 0} {tail : ℕ → List FtdiCall} {m : Ftdi (Unit {0})} {n : Ftdi A}
    → IsClean nothing m
    → IsClean tail n
    → IsClean tail (m >> n)
IsClean-then {tail = tail} {m = m} {n = n} p q = IsClean-bind tail m (λ u. n) p (λ u. q)

pub IsClean-exit : {A : Type 0} → IsClean nothing (exit_with {A = A} 1)
IsClean-exit = record { at = λ rs s. inr record { middle = []; harmless = tt; leads = refl } }
