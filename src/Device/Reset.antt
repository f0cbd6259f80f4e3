-- ===== src/Device/Reset.antt =====
-- `ice9_usb_reset` and `ice9_fifo_mode` as sequences of calls.
use ice9_api.Prelude.{
  ℕ, ◌<◌, ◌≡◌, refl, ◌∙◌, true, List, [], ◌∷◌, ◌++◌, length, is_negative, done, replicate, ap, ltb,
  if◌then◌else◌, suc, zero, pure, ◌>>=◌, ◌>>◌, arith,
}
use ice9_api.ErrorCode.{Ice9Error, ok, reset_failed, cannot_enable_bit_bang_mode}
use ice9_api.Host.{Host, UsbReply, control_transfer, bulk_in, bulk_out, Api, usb_call, log_call}
use ice9_api.Register.{ice9_ping_bridge}
use ice9_api.Read.View.{AllReplies}
use ice9_api.Device.{ice9_usb_reset, ice9_fifo_mode}
use ice9_api.Device.Script.{
  Step, demand, sleep, script_calls, until_reply, code_of_reply, code_of_reply-HasCode, play,
  play_succeeds, play_fails, IsSuccess, log_calls,
}

-- A control transfer of `ice9_usb_reset`.
abbrev reset_step : ℕ → Step
reset_step value = demand (control_transfer 0x40 0 value 0) reset_failed

abbrev pub reset_script : List Step
reset_script =
    reset_step 0
    ∷ sleep 1000
    ∷ reset_step 1
    ∷ sleep 1000
    ∷ reset_step 1
    ∷ sleep 1000
    ∷ demand (bulk_in 0x81 4096) reset_failed
    ∷ reset_step 1
    ∷ reset_step 1
    ∷ reset_step 1
    ∷ reset_step 1
    ∷ []

reset-eq-play :
    (rs : List UsbReply) (h : Host) → ice9_usb_reset rs h ≡ play reset_script (pure ok) rs h
unfolding ice9_usb_reset play
reset-eq-play rs h = refl

-- With eight replies that are no failures, the reset makes exactly the calls of its script, sleeps
-- included, in that order, and returns `OK`.
pub usb_reset_succeeds :
    (rs rest : List UsbReply) (h : Host)
    → AllReplies IsSuccess rs
    → length rs ≡ 8
    → ice9_usb_reset (rs ++ rest) h ≡ done ok rest (log_calls (script_calls reset_script) h)
usb_reset_succeeds rs rest h good e =
    reset-eq-play (rs ++ rest) h ∙ play_succeeds reset_script (pure ok) rs rest h good e

-- If the reply after fewer than eight good ones is a failure, the reset returns `ResetFailed`, and
-- makes no call after the one that failed.
pub usb_reset_fails :
    (rs rest : List UsbReply) (failure : UsbReply) (h : Host)
    → AllReplies IsSuccess rs
    → length rs < 8
    → is_negative failure.ret ≡ true
    → ice9_usb_reset (rs ++ failure ∷ rest) h
      ≡ done reset_failed rest (log_calls (script_calls (until_reply (length rs) reset_script)) h)
usb_reset_fails rs rest failure h good lt bad =
    reset-eq-play (rs ++ failure ∷ rest) h
    ∙ play_fails reset_script (pure ok) rs rest failure h good lt bad
    ∙ ap
        (λ code. done code rest (log_calls (script_calls (until_reply (length rs) reset_script)) h))
        (code_of_reply-HasCode reset_failed (length rs) reset_script
          (refl, (refl, (refl, (refl, (refl, (refl, (refl, (refl, tt)))))))) lt)

abbrev pub fifo_script : List Step
fifo_script =
    demand (control_transfer 0x40 0 2 0) cannot_enable_bit_bang_mode
    ∷ demand (control_transfer 0x40 11 0x00FF 0) cannot_enable_bit_bang_mode
    ∷ demand (control_transfer 0x40 11 0x40FF 0) cannot_enable_bit_bang_mode
    ∷ demand (bulk_in 0x81 4096) reset_failed
    ∷ []

-- What `ice9_fifo_mode` does once the mode is set.
abbrev clear_and_ping : Api Ice9Error
clear_and_ping = do usb_call (bulk_out 0x02 (replicate 4096 0)); ice9_ping_bridge 0x67; pure ok

fifo-eq-play :
    (rs : List UsbReply) (h : Host) → ice9_fifo_mode rs h ≡ play fifo_script clear_and_ping rs h
unfolding ice9_fifo_mode play
fifo-eq-play rs h = refl

then_ok :
    (m : Api Ice9Error) (rs rest : List UsbReply) (code : Ice9Error) (h h' : Host)
    → m rs h ≡ done code rest h'
    → (m >> pure ok) rs h ≡ done ok rest h'
then_ok m rs rest code h h' e = rw (e, ◌>>=◌)

clear_then_ok :
    (clear : UsbReply) (tail rest : List UsbReply) (code : Ice9Error) (h h' : Host)
    → ice9_ping_bridge 0x67 tail (log_call (bulk_out 0x02 (replicate 4096 0)) h) ≡ done code rest h'
    → clear_and_ping (clear ∷ tail) h ≡ done ok rest h'
clear_then_ok clear tail rest code h h' pinged =
    then_ok (ice9_ping_bridge 0x67) tail rest code (log_call (bulk_out 0x02 (replicate 4096 0)) h)
      h' pinged

-- After four good replies, `ice9_fifo_mode` sends 4096 zeros and a ping, and whenever the ping
-- returns, with whatever code, it returns `OK`, also if the zeros were not sent.
pub fifo_mode_ignores_ping :
    (rs tail rest : List UsbReply) (clear : UsbReply) (code : Ice9Error) (h h' : Host)
    → AllReplies IsSuccess rs
    → length rs ≡ 4
    → ice9_ping_bridge 0x67 tail
        (log_call (bulk_out 0x02 (replicate 4096 0)) (log_calls (script_calls fifo_script) h))
      ≡ done code rest h'
    → ice9_fifo_mode (rs ++ clear ∷ tail) h ≡ done ok rest h'
fifo_mode_ignores_ping rs tail rest clear code h h' good e pinged =
    fifo-eq-play (rs ++ clear ∷ tail) h
    ∙ play_succeeds fifo_script clear_and_ping rs (clear ∷ tail) h good e
    ∙ clear_then_ok clear tail rest code _ h' pinged

-- A failure of one of the first four calls of `ice9_fifo_mode` ends it there: `CannotEnableBitBangMode`
-- for the three control transfers, and `ResetFailed` for the read.
pub fifo_mode_fails :
    (rs rest : List UsbReply) (failure : UsbReply) (h : Host)
    → AllReplies IsSuccess rs
    → length rs < 4
    → is_negative failure.ret ≡ true
    → ice9_fifo_mode (rs ++ failure ∷ rest) h
      ≡ done
          (if ltb (length rs) 3 then cannot_enable_bit_bang_mode else reset_failed)
          rest
          (log_calls (script_calls (until_reply (length rs) fifo_script)) h)
fifo_mode_fails rs rest failure h good lt bad =
    fifo-eq-play (rs ++ failure ∷ rest) h
    ∙ play_fails fifo_script clear_and_ping rs rest failure h good lt bad
    ∙ ap (λ code. done code rest (log_calls (script_calls (until_reply (length rs) fifo_script)) h))
        (fifo_codes (length rs) lt)
  where
    fifo_codes :
        (k : ℕ)
        → k < 4
        → code_of_reply k fifo_script
          ≡ (if ltb k 3 then cannot_enable_bit_bang_mode else reset_failed)
    fifo_codes zero lt = refl
    fifo_codes (suc zero) lt = refl
    fifo_codes (suc (suc zero)) lt = refl
    fifo_codes (suc (suc (suc zero))) lt = refl
    fifo_codes (suc (suc (suc (suc k)))) lt = absurd (omega arith)
