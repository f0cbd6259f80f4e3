-- ===== src/Session.antt =====
-- The calls of ice9.h that a program makes on one handle, from `ice9_new` on: any of them, in any
-- order, between an `ice9_open` that has returned `OK` and an `ice9_close`.
mod Tests
use mathlib.Core.Path.{subst}
use ice9_api.Prelude.{
  ℕ, ◌≡◌, refl, ◌≢◌, arith, [], ◌∷◌, ◌≤◌, Bool, true, false, List, length, Memory, Outcome, done,
  exited, blocked, fault, pure, ◌>>=◌,
}
use ice9_api.ErrorCode.{Ice9Error, ok}
use ice9_api.Host.{Host, UsbReply, Api}
use ice9_api.Host.Keeps.{
  AllReplies, AllReplies-any, AnyReply, IsValidHost, Holds, EndsWell, EndsUnless, EndsUnless-any,
  EndsUnless-well, Keeps, Keeps-pure, Keeps-bind,
}
use ice9_api.Read.{Reads, ice9_read, ice9_stream_read}
use ice9_api.Read.Keeps.{FitsIn, EndsInOneByte, Keeps-ice9_read, stream_read_ends}
use ice9_api.Register.{
  ice9_write, ice9_write_words, ice9_write_word, ice9_read_words, ice9_write_data_to_address,
  ice9_write_word_to_address, ice9_write_int_to_address, ice9_read_data_from_address,
  ice9_read_int_from_address, ice9_send_ping, ice9_ping_bridge, ice9_enable_streaming,
  ice9_disable_streaming,
}
use ice9_api.Register.Keeps.{
  Keeps-ice9_write, Keeps-ice9_write_words, Keeps-ice9_write_word, Keeps-ice9_read_words,
  Keeps-ice9_write_data_to_address, Keeps-ice9_write_word_to_address,
  Keeps-ice9_write_int_to_address, Keeps-ice9_read_data_from_address,
  Keeps-ice9_read_int_from_address, Keeps-ice9_send_ping, Keeps-ice9_ping_bridge,
  Keeps-ice9_enable_streaming, Keeps-ice9_disable_streaming,
}
use ice9_api.Device.{ice9_new, ice9_open, ice9_close, ice9_usb_reset, ice9_fifo_mode}
use ice9_api.Device.Keeps.{
  OpensWell, StartsWell, ice9_new-StartsWell, ice9_open-OpensWell, Keeps-ice9_close,
  Keeps-ice9_usb_reset, FifoReplies, fifo_mode_ends,
}

-- A call on an open handle. An array of the caller is the list of what is in it.
pub data Op : Type 0 where
  usb_reset fifo_mode disable_streaming : Op
  write write_words : List ℕ → ℕ → Op
  write_word send_ping ping_bridge enable_streaming : ℕ → Op
  read stream_read read_words read_int_from_address : ℕ → Op
  write_data_to_address : ℕ → List ℕ → ℕ → Op
  write_word_to_address write_int_to_address read_data_from_address : ℕ → ℕ → Op

-- The arrays are as long as the caller says.
abbrev pub IsCall : Op → Type 0
IsCall (write bytes n) = n ≤ length bytes
IsCall (write_words words len) = len ≤ length words
IsCall (write_data_to_address address words len) = len ≤ length words
IsCall _ = Unit

-- What libusb promises for the replies to the call: a bulk read gives at most the bytes asked for.
abbrev pub Answered : Op → List UsbReply → Type 0
Answered (stream_read n) = AllReplies (FitsIn 16384)
Answered usb_reset = AllReplies (FitsIn 4096)
Answered fifo_mode = FifoReplies
Answered _ = AllReplies (FitsIn 512)

-- What makes the call copy outside of a buffer: a stream read of a transfer that ends in a packet of
-- one byte.
abbrev pub Blame : Op → List UsbReply → Type 0
Blame (stream_read n) rs = AnyReply EndsInOneByte rs
Blame _ rs = ⊥

-- The call, without what it writes through a pointer.
code_of : Reads → Api Ice9Error
code_of m = m >>= λ answer. pure answer.0

pub run : Op → Api Ice9Error
unfolding code_of
run usb_reset = ice9_usb_reset
run fifo_mode = ice9_fifo_mode
run disable_streaming = ice9_disable_streaming
run (write bytes n) = ice9_write bytes n
run (write_words words len) = ice9_write_words words len
run (write_word word) = ice9_write_word word
run (send_ping pingid) = ice9_send_ping pingid
run (ping_bridge pingid) = ice9_ping_bridge pingid
run (enable_streaming address) = ice9_enable_streaming address
run (read n) = code_of (ice9_read n)
run (stream_read n) = code_of (ice9_stream_read n)
run (read_words len) = code_of (ice9_read_words len)
run (read_int_from_address address) = code_of (ice9_read_int_from_address address)
run (write_data_to_address address words len) = ice9_write_data_to_address address words len
run (write_word_to_address address value) = ice9_write_word_to_address address value
run (write_int_to_address address value) = ice9_write_int_to_address address value
run (read_data_from_address address len) = code_of (ice9_read_data_from_address address len)

Keeps-code_of :
    {d : Bool} {Fits : UsbReply → Type 0} (m : Reads) → Keeps d Fits m → Keeps d Fits (code_of m)
unfolding code_of
Keeps-code_of m kept = Keeps-bind m _ kept (λ answer. Keeps-pure answer.0)

-- The call ends well, unless there is `Blame` for it.
abbrev RunEnds : Op → Type 0
RunEnds op =
    (rs : List UsbReply) (h : Host)
    → Holds true h
    → Answered op rs
    → EndsUnless true (λ r. Unit) (Blame op rs) (run op rs h)

-- A call for which there is none.
kept_ends :
    {Fits : UsbReply → Type 0} (m : Api Ice9Error)
    → Keeps true Fits m
    → (rs : List UsbReply) (h : Host) → Holds true h
    → AllReplies Fits rs
    → EndsUnless true (λ r. Unit) ⊥ (m rs h)
kept_ends {Fits} m kept rs h v good = EndsUnless-well true Fits (m rs h) (kept.at rs h v good)

stream_ends : (n : ℕ) → RunEnds (stream_read n)
unfolding run code_of
stream_ends n rs h v good = without_bytes (ice9_stream_read n rs h) (
    EndsUnless-any true (FitsIn 16384) _ (ice9_stream_read n rs h) (stream_read_ends n rs h v good))
  where
    without_bytes :
        (o : Outcome UsbReply Host (Ice9Error × List ℕ))
        → EndsUnless true (λ r. Unit) (AnyReply EndsInOneByte rs) o
        → EndsUnless true
            (λ r. Unit)
            (AnyReply EndsInOneByte rs)
            (elim o [
              | done answer rs h ↦ pure answer.0 rs h
              | exited rs h ↦ exited rs h
              | blocked h ↦ blocked h
              | fault ↦ fault
            ])
    without_bytes (done answer rs h) e = e
    without_bytes (exited rs h) e = e
    without_bytes (blocked h) e = e
    without_bytes fault e = e

run_ends : (op : Op) → IsCall op → RunEnds op
unfolding run
run_ends usb_reset c = kept_ends _ Keeps-ice9_usb_reset
run_ends fifo_mode c = fifo_mode_ends
run_ends disable_streaming c = kept_ends _ Keeps-ice9_disable_streaming
run_ends (write bytes n) c = kept_ends _ (Keeps-ice9_write bytes n c)
run_ends (write_words words len) c = kept_ends _ (Keeps-ice9_write_words words len c)
run_ends (write_word word) c = kept_ends _ (Keeps-ice9_write_word word)
run_ends (send_ping pingid) c = kept_ends _ (Keeps-ice9_send_ping pingid)
run_ends (ping_bridge pingid) c = kept_ends _ (Keeps-ice9_ping_bridge pingid)
run_ends (enable_streaming address) c = kept_ends _ (Keeps-ice9_enable_streaming address)
run_ends (read n) c = kept_ends _ (Keeps-code_of _ (Keeps-ice9_read n))
run_ends (stream_read n) c = stream_ends n
run_ends (read_words len) c = kept_ends _ (Keeps-code_of _ (Keeps-ice9_read_words len))
run_ends (read_int_from_address address) c =
    kept_ends _ (Keeps-code_of _ (Keeps-ice9_read_int_from_address address))
run_ends (write_data_to_address address words len) c =
    kept_ends _ (Keeps-ice9_write_data_to_address address words len c)
run_ends (write_word_to_address address value) c =
    kept_ends _ (Keeps-ice9_write_word_to_address address value)
run_ends (write_int_to_address address value) c =
    kept_ends _ (Keeps-ice9_write_int_to_address address value)
run_ends (read_data_from_address address len) c =
    kept_ends _ (Keeps-code_of _ (Keeps-ice9_read_data_from_address address len))

-- A state between two calls, and whether the device is open there. A device is opened that is not
-- open; one on which the call has failed may be tried again.
pub data Step (h h' : Host) : Bool → Bool → Type 0 where
  opens : (rs rs' : List UsbReply) → ice9_open rs h ≡ done ok rs' h' → Step h h' false true
  fails_to_open :
      (code : Ice9Error) (rs rs' : List UsbReply)
      → ice9_open rs h ≡ done code rs' h'
      → code ≢ ok
      → Step h h' false false
  closes :
      (code : Ice9Error) (rs rs' : List UsbReply)
      → ice9_close rs h ≡ done code rs' h'
      → Step h h' true false
  calls :
      (op : Op) (code : Ice9Error) (rs rs' : List UsbReply)
      → IsCall op
      → Answered op rs
      → run op rs h ≡ done code rs' h'
      → Step h h' true true

-- The states that calls reach from one that `ice9_new` leaves.
pub data Reach : Host → Bool → Type 0 where
  starts :
      (h h' : Host) (read_buffer extra_data_buffer : Memory) (rs rs' : List UsbReply)
      → ice9_new read_buffer extra_data_buffer rs h ≡ done true rs' h'
      → Reach h' false
  then_step :
      (h h' : Host) (opened opened' : Bool)
      → Reach h opened
      → Step h h' opened opened'
      → Reach h' opened'

-- The ring buffer is valid, and an open handle has its device.
pub record IsSound (h : Host) (opened : Bool) : Type 0 where
  pub valid : IsValidHost h
  pub there : opened ≡ true → h.handle.device ≡ true

Step-IsSound :
    {h h' : Host} {opened opened' : Bool}
    → Step h h' opened opened'
    → IsSound h opened
    → IsSound h' opened'
Step-IsSound {h} (opens rs rs' e) s =
    let o = subst OpensWell e (ice9_open-OpensWell rs h s.valid) in
    record { valid = o.0; there = λ t. o.1 refl }
Step-IsSound {h} (fails_to_open code rs rs' e bad) s =
    let o = subst OpensWell e (ice9_open-OpensWell rs h s.valid) in
    record { valid = o.0; there = λ t. absurd (ground (arith, t)) }
Step-IsSound {h} (closes code rs rs' e) s =
    let o =
      subst (EndsWell true (λ r. Unit)) e
        (Keeps-ice9_close.at rs h (s.valid, s.there refl) (AllReplies-any rs)) in
    record { valid = o.0.0; there = λ t. o.0.1 }
Step-IsSound {h} (calls op code rs rs' c good e) s =
    let o =
      subst (EndsUnless true (λ r. Unit) (Blame op rs)) e
        (run_ends op c rs h (s.valid, s.there refl) good) in
    record { valid = o.0.0; there = λ t. o.0.1 }

-- At each state that calls on the handle reach, where they are made with arrays as long as they say
-- and bulk reads give at most the bytes asked for, both indices of the ring buffer lie inside it,
-- and the pointer to the device is there if the device is open.
pub Reach-IsSound : {h : Host} {opened : Bool} → Reach h opened → IsSound h opened
Reach-IsSound (starts h h' read_buffer extra_data_buffer rs rs' e) = record {
  valid = subst StartsWell e (ice9_new-StartsWell read_buffer extra_data_buffer rs h);
  there = λ t. absurd (ground (arith, t));
}
Reach-IsSound (then_step h h' opened opened' r st) = Step-IsSound st (Reach-IsSound r)

-- A call returns, or waits for libusb; or it copies outside of a buffer, and there is blame for it.
abbrev pub Proceeds : Type 0 → Outcome UsbReply Host Ice9Error → Type 0
Proceeds blame (done code rs h) = Unit
Proceeds blame (exited rs h) = ⊥
Proceeds blame (blocked h) = Unit
Proceeds blame fault = blame
