-- ===== src/Sram/Ends.antt =====
-- How the configuration of the FPGA ends, whatever libftdi answers.
use mathlib.Core.Path.{subst}
use ice9_api.Prelude.{
  refl, sym, ap, ◌∙◌, append_assoc, append-nil, ℕ, ◌≡◌, true, false, List, [], ◌∷◌, ◌++◌, length,
  arith, Option, none, some, pure, ◌>>=◌, inl, inr, Outcome, done, exited, blocked, fault, ◌⊎◌,
}
use ice9_api.ErrorCode.{Ice9Error, ok, unable_to_open_bit_file}
use ice9_api.Ftdi.{FtdiCall, FtdiReply, Mpsse, Ftdi, exit}
use ice9_api.Mpsse.{mpsse_init}
use ice9_api.Mpsse.Session.{release_calls}
use ice9_api.Mpsse.Start.{flags, SetsIn, mpsse_init-SetsIn}
use ice9_api.Mpsse.Trace.{AllSetUp, marks, Leads, Ends}
use ice9_api.Mpsse.Trace.Init.{Tracks-mpsse_init}
use ice9_api.Mpsse.Traffic.{AllTraffic, Traffic, nothing, IsClean, EndsCleanly}
use ice9_api.Lattice.{DeviceInfo}
use ice9_api.Sram.{
  send_chunks, configure_board, configure, ice9_flash_fpga_mem, send_file, ice9_flash_fpga,
}
use ice9_api.Sram.Traffic.{ending, IsClean-send_chunks, IsClean-send_file, IsClean-configure_board}

-- What a configuration does up to its end: the calls of `mpsse_init`; then, once it has returned,
-- calls that only move bytes or pause; and those of `tail`. Whether the device is open, and its
-- latency timer changed, is as the calls of `mpsse_init` tell.
pub record Configures (tail : List FtdiCall) (s s' : Mpsse) : Type 0 where
  pub start : List FtdiCall
  pub traffic : List FtdiCall
  pub set_up : AllSetUp start
  pub harmless : AllTraffic traffic
  pub made : s'.calls ≡ s.calls ++ start ++ traffic ++ tail
  pub marked : flags s' ≡ marks (flags s) start

-- A configuration from the state `s` ends in one of these ways. It returns, and has set the latency
-- timer back, to the latency that mpsse.c has noted, and closed the device. It exits with status 2,
-- and has set the timer back if it has been changed and closed the device if it has been opened. It
-- exits with status 1, with the device open. Or it waits for a reply.
abbrev pub GivesBack : {A : Type 0} → Mpsse → Outcome FtdiReply Mpsse A → Type 0
GivesBack s (done a rs s') = Configures (ending s'.latency) s s' × (flags s' ≡ (true, true))
GivesBack s (exited rs s') =
    Configures (release_calls s' ++ exit 2 ∷ []) s s'
    ⊎ (Configures (exit 1 ∷ []) s s' × (flags s' ≡ (true, true)))
GivesBack s (blocked s') = Configures [] s s'
GivesBack s fault = ⊥

abbrev finish : {A B : Type 0} → (A → B) → Outcome FtdiReply Mpsse A → Outcome FtdiReply Mpsse B
finish f o = elim o [
  | done a rs s ↦ done (f a) rs s
  | exited rs s ↦ exited rs s
  | blocked s ↦ blocked s
  | fault ↦ fault
]

-- The start alone, and the start and what comes after it.
only_start : {tail : List FtdiCall} {s s' : Mpsse} → Leads tail s s' → Configures tail s s'
only_start {tail} {s} {s'} l = record {
  start = l.middle;
  traffic = [];
  set_up = l.set_up;
  harmless = tt;
  made = l.made ∙ simp append-nil;
  marked = l.marked;
}

start_then :
    {tail : List FtdiCall} {s s1 s2 : Mpsse}
    → Leads [] s s1
    → Traffic tail s1 s2
    → Configures tail s s2
start_then {tail} {s} {s1} {s2} l t = record {
  start = l.middle;
  traffic = t.middle;
  set_up = l.set_up;
  harmless = t.harmless;
  made =
      ap (λ x. x.calls) t.leads
      ∙ ap (λ cs. cs ++ (t.middle ++ tail)) l.made
      ∙ simp (append_assoc, append-nil);
  marked = ap flags t.leads ∙ l.marked;
}

board_ends :
    {A B : Type 0} {s s1 : Mpsse} (o : Outcome FtdiReply Mpsse A) (f : A → B)
    → Leads [] s s1
    → flags s1 ≡ (true, true)
    → EndsCleanly ending s1 o
    → GivesBack s (finish f o)
board_ends {s = s} {s1 = s1} (done a rs s') f l opened e = (
  subst (λ n. Configures (ending n) s s') (sym (ap (λ x. x.latency) e.leads)) (start_then l e),
  ap flags e.leads ∙ opened,
)
board_ends {s = s} {s1 = s1} (exited rs s') f l opened e = elim e [
  | inl two ↦ inl (
      subst (λ cs. Configures (cs ++ exit 2 ∷ []) s s') (sym (ap release_calls two.leads))
        (start_then l two))
  | inr one ↦ inr (start_then l one, ap flags one.leads ∙ opened)
]
board_ends (blocked s') f l opened e = start_then l e
board_ends fault f l opened e = e

start_then_board :
    {A B : Type 0} (s : Mpsse) (o : Outcome FtdiReply Mpsse (Unit {0})) (board : Ftdi A) (f : A → B)
    → Ends s o
    → SetsIn (true, true) o
    → IsClean ending board
    → GivesBack s (
        finish f (elim o [
          | done u rs s1 ↦ board rs s1
          | exited rs s1 ↦ exited rs s1
          | blocked s1 ↦ blocked s1
          | fault ↦ fault
        ]))
start_then_board s (done u rs s1) board f l opened clean =
    board_ends (board rs s1) f l opened (clean.at rs s1)
start_then_board s (exited rs s1) board f l opened clean = inl (only_start l)
start_then_board s (blocked s1) board f l opened clean = only_start l
start_then_board s fault board f l opened clean = l

configure-GivesBack :
    {A : Type 0} (sender : Ftdi (Unit {0})) (f : DeviceInfo → A) (rs : List FtdiReply) (s : Mpsse)
    → IsClean nothing sender
    → GivesBack s ((configure sender >>= λ info. pure (f info)) rs s)
configure-GivesBack sender f rs s sent =
    start_then_board s (mpsse_init 0 true false rs s) (configure_board sender) f
      ((Tracks-mpsse_init 0 true false).at rs s) (mpsse_init-SetsIn 0 true false rs s)
      (IsClean-configure_board sender sent)

-- The configuration from memory ends in one of four ways, whatever libftdi answers and wherever it
-- fails: it returns, with the latency timer set to the latency that mpsse.c has noted, and the
-- device closed; it exits with status 2, and before that sets the timer so if a device is open and
-- its timer has been changed, and closes the device if one is open; it exits with status 1, with
-- the device open; or it waits for a reply. Before that it makes set-up calls of `mpsse_init`, and
-- once that has returned it only moves bytes and pauses. Whether a device is open, and its timer
-- changed, is told by the calls, from what the variables of mpsse.c say at the beginning: a reset
-- is made of an open device only, and the mode is set once the timer is changed.
pub flash_fpga_mem-GivesBack :
    (buf : List ℕ) (rs : List FtdiReply) (s : Mpsse)
    → GivesBack s (ice9_flash_fpga_mem buf (length buf) rs s)
unfolding ice9_flash_fpga_mem
flash_fpga_mem-GivesBack buf rs s =
    configure-GivesBack (send_chunks (length buf) buf (length buf)) (λ info. (ok, info)) rs s
      (IsClean-send_chunks (length buf) buf (length buf) (omega arith))

-- The same of the configuration from a file; if the file cannot be opened, the error code is
-- returned at once, with the state as it was.
abbrev pub FileGivesBack :
    Option (List (List ℕ))
    → List FtdiReply
    → Mpsse
    → Outcome FtdiReply Mpsse (Ice9Error × Option DeviceInfo)
    → Type 0
FileGivesBack none rs s o = o ≡ done (unable_to_open_bit_file, none) rs s
FileGivesBack (some reads) rs s o = GivesBack s o

-- The configuration from a file that cannot be opened returns the error code for that, and calls
-- nothing. From one that can be opened it ends in one of four ways, whatever the reads of the file
-- give, whatever libftdi answers, and wherever it fails: it returns, with the latency timer set to
-- the latency that mpsse.c has noted, and the device closed; it exits with status 2, and before
-- that sets the timer so if a device is open and its timer has been changed, and closes the device
-- if one is open; it exits with status 1, with the device open; or it waits for a reply. Before that
-- it makes set-up calls of `mpsse_init`, and once that has returned it only moves bytes and pauses.
-- Whether a device is open, and its timer changed, is told by the calls, from what the variables of
-- mpsse.c say at the beginning.
pub flash_fpga-FileGivesBack :
    (file : Option (List (List ℕ))) (rs : List FtdiReply) (s : Mpsse)
    → FileGivesBack file rs s (ice9_flash_fpga file rs s)
unfolding ice9_flash_fpga
flash_fpga-FileGivesBack none rs s = refl
flash_fpga-FileGivesBack (some reads) rs s =
    configure-GivesBack (send_file reads) (λ info. (ok, some info)) rs s (IsClean-send_file reads)
