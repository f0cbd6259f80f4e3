-- ===== src/Device/Script.antt =====
-- Sequences of calls of libusb that stop at the first failure.
use ice9_api.Prelude.{
  ℕ, zero, suc, ◌<◌, ◌≡◌, ap, true, false, List, [], ◌∷◌, ◌++◌, append-nil, append_assoc, length,
  is_negative, done, pure, ◌>>=◌, ◌>>◌, if◌then◌else◌, arith,
}
use ice9_api.ErrorCode.{Ice9Error, ok}
use ice9_api.Host.{Host, UsbReply, UsbCall, usleep, Api, usb_call, usb_do, log_call}
use ice9_api.Read.View.{AllReplies}

-- A call that must succeed, with the error code of its failure, or a sleep.
pub data Step : Type 0 where
  demand : UsbCall → Ice9Error → Step
  sleep : ℕ → Step

abbrev pub step_call : Step → UsbCall
step_call (demand c code) = c
step_call (sleep n) = usleep n

abbrev pub script_calls : List Step → List UsbCall
script_calls [] = []
script_calls (s ∷ script) = step_call s ∷ script_calls script

-- The number of replies that a script asks for.
abbrev pub demands : List Step → ℕ
demands [] = 0
demands (demand c code ∷ script) = suc (demands script)
demands (sleep n ∷ script) = demands script

-- The script up to and with the call that gets the reply number `k`, counted from 0, and the error
-- code of that call.
abbrev pub until_reply : ℕ → List Step → List Step
until_reply zero [] = []
until_reply (suc k) [] = []
until_reply zero (demand c code ∷ script) = demand c code ∷ []
until_reply (suc k) (demand c code ∷ script) = demand c code ∷ until_reply k script
until_reply zero (sleep n ∷ script) = sleep n ∷ until_reply zero script
until_reply (suc k) (sleep n ∷ script) = sleep n ∷ until_reply (suc k) script

abbrev pub code_of_reply : ℕ → List Step → Ice9Error
code_of_reply zero [] = ok
code_of_reply (suc k) [] = ok
code_of_reply zero (demand c code ∷ script) = code
code_of_reply (suc k) (demand c code ∷ script) = code_of_reply k script
code_of_reply zero (sleep n ∷ script) = code_of_reply zero script
code_of_reply (suc k) (sleep n ∷ script) = code_of_reply (suc k) script

unfoldable pub play : List Step → Api Ice9Error → Api Ice9Error
play [] rest = rest
play (demand c code ∷ script) rest = do
  reply ← usb_call c
  if is_negative reply.ret then pure code else play script rest
play (sleep n ∷ script) rest = usb_do (usleep n) >> play script rest

abbrev pub IsSuccess : UsbReply → Type 0
IsSuccess r = is_negative r.ret ≡ false

abbrev pub log_calls : List UsbCall → Host → Host
log_calls cs h = record h { calls = h.calls ++ cs }

log_calls-cons :
    (c : UsbCall) (cs : List UsbCall) (h : Host)
    → log_calls cs (log_call c h) ≡ log_calls (c ∷ cs) h
log_calls-cons c cs h =
    ap (λ (all : List UsbCall). record h { calls = all }) (append_assoc h.calls (c ∷ []) cs)

log_calls-nil : (h : Host) → log_calls [] h ≡ h
log_calls-nil h = ap (λ (all : List UsbCall). record h { calls = all }) (append-nil h.calls)

pub play_succeeds :
    (script : List Step) (rest : Api Ice9Error) (rs tail : List UsbReply) (h : Host)
    → AllReplies IsSuccess rs
    → length rs ≡ demands script
    → play script rest (rs ++ tail) h ≡ rest tail (log_calls (script_calls script) h)
unfolding play
play_succeeds [] rest [] tail h good e = rw (log_calls-nil h)
play_succeeds [] rest (r ∷ rs) tail h good e = absurd (omega arith)
play_succeeds (demand c code ∷ script) rest [] tail h good e = absurd (omega arith)
play_succeeds (demand c code ∷ script) rest (r ∷ rs) tail h good e = rw (
  good.0,
  play_succeeds script rest rs tail (log_call c h) good.1 (omega arith),
  log_calls-cons c (script_calls script) h,
)
play_succeeds (sleep n ∷ script) rest rs tail h good e = rw (
  play_succeeds script rest rs tail (log_call (usleep n) h) good e,
  log_calls-cons (usleep n) (script_calls script) h,
)

pub play_fails :
    (script : List Step) (rest : Api Ice9Error) (rs tail : List UsbReply) (failure : UsbReply)
    (h : Host)
    → AllReplies IsSuccess rs
    → length rs < demands script
    → is_negative failure.ret ≡ true
    → play script rest (rs ++ failure ∷ tail) h
      ≡ done
          (code_of_reply (length rs) script)
          tail
          (log_calls (script_calls (until_reply (length rs) script)) h)
unfolding play
play_fails [] rest rs tail failure h good lt bad = absurd (omega arith)
play_fails (demand c code ∷ script) rest [] tail failure h good lt bad = rw bad
play_fails (demand c code ∷ script) rest (r ∷ rs) tail failure h good lt bad = rw (
  good.0,
  play_fails script rest rs tail failure (log_call c h) good.1 (omega arith) bad,
  log_calls-cons c (script_calls (until_reply (length rs) script)) h,
)
play_fails (sleep n ∷ script) rest [] tail failure h good lt bad = rw (
  play_fails script rest [] tail failure (log_call (usleep n) h) good lt bad,
  log_calls-cons (usleep n) (script_calls (until_reply 0 script)) h,
)
play_fails (sleep n ∷ script) rest (r ∷ rs) tail failure h good lt bad = rw (
  play_fails script rest (r ∷ rs) tail failure (log_call (usleep n) h) good lt bad,
  log_calls-cons (usleep n) (script_calls (until_reply (suc (length rs)) script)) h,
)

-- All failures of a script have one error code.
abbrev pub HasCode : Ice9Error → List Step → Type 0
HasCode e [] = Unit
HasCode e (demand c code ∷ script) = (code ≡ e) × HasCode e script
HasCode e (sleep n ∷ script) = HasCode e script

pub code_of_reply-HasCode :
    (e : Ice9Error) (k : ℕ) (script : List Step)
    → HasCode e script
    → k < demands script
    → code_of_reply k script ≡ e
code_of_reply-HasCode e k [] has lt = absurd (omega arith)
code_of_reply-HasCode e zero (demand c code ∷ script) has lt = has.0
code_of_reply-HasCode e (suc k) (demand c code ∷ script) has lt =
    code_of_reply-HasCode e k script has.1 (omega arith)
code_of_reply-HasCode e zero (sleep n ∷ script) has lt = code_of_reply-HasCode e zero script has lt
code_of_reply-HasCode e (suc k) (sleep n ∷ script) has lt =
    code_of_reply-HasCode e (suc k) script has lt
