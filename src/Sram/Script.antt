-- ===== src/Sram/Script.antt =====
-- Programs that play a script of actions on the board, and the single actions.
use ice9_api.Prelude.{
  exited, >>=-eq-done, >>=-eq-exited, ℕ, ◌+◌, ◌≡◌, ◌≢◌, refl, ◌∙◌, sym, ap, Bool, true, false, not,
  List, [], ◌∷◌, ◌++◌, append_assoc, append-nil, length, done, pure, ◌>>=◌, ◌>>◌, bit_and, ◌==◌,
  arith, ◌<◌, ◌^◌, if◌then◌else◌,
}
use ice9_api.Ftdi.{exit, read_data, FtdiCall, FtdiReply, Mpsse, Ftdi, write_data, usleep, ftdi_do}
use ice9_api.Mpsse.{mpsse_send_spi, mpsse_readb_low}
use ice9_api.Mpsse.Session.{release_calls, mpsse_error_releases}
use ice9_api.Mpsse.Failures.{send_spi_cut_off}
use ice9_api.Mpsse.Frames.{
  wrote, add_calls, transfer_calls, give, reads, send_spi_sends, set_gpio_sends, xfer_spi_sends,
  readb_low_sends,
}
use ice9_api.Sram.{set_cs_creset, get_cdone, read_word_reply}
use ice9_api.Sram.Replies.{read_word_reply_steps, big_endian, join_bytes-big_endian}

-- What is done with the board: the two pins are set; the pins are read, with this answer; bytes are
-- sent to the FPGA; bytes are sent to it and as many come back; there is a pause; or bytes are sent
-- to the FPGA, but only so many of them get written, and no byte is left to be read.
pub data Action : Type 0 where
  pins : (cs_b creset_b : Bool) → Action
  ask_pins : ℕ → Action
  send : List ℕ → Action
  exchange : (bytes answer : List ℕ) → Action
  pause : ℕ → Action
  cut_off : (bytes : List ℕ) (written : ℕ) → Action

abbrev gpio_of : Bool → Bool → ℕ
gpio_of cs_b creset_b = (if cs_b then 0x10 else 0) + (if creset_b then 0x80 else 0)

abbrev action_calls : Action → List FtdiCall
action_calls (pins cs_b creset_b) =
    write_data (0x80 ∷ []) ∷ write_data (gpio_of cs_b creset_b ∷ []) ∷ write_data (0x93 ∷ []) ∷ []
action_calls (ask_pins low) = write_data (0x81 ∷ []) ∷ reads (low ∷ [])
action_calls (send bytes) = transfer_calls 0x11 (length bytes) bytes
action_calls (exchange bytes answer) = transfer_calls 0x31 (length bytes) bytes ++ reads answer
action_calls (pause n) = usleep n ∷ []
action_calls (cut_off bytes written) = transfer_calls 0x11 (length bytes) bytes ++ read_data 1 ∷ []

abbrev action_replies : Action → List FtdiReply
action_replies (pins cs_b creset_b) = wrote 1 ∷ wrote 1 ∷ wrote 1 ∷ []
action_replies (ask_pins low) = wrote 1 ∷ give (low ∷ [])
action_replies (send bytes) = wrote 1 ∷ wrote 1 ∷ wrote 1 ∷ wrote (length bytes) ∷ []
action_replies (exchange bytes answer) =
    wrote 1 ∷ wrote 1 ∷ wrote 1 ∷ wrote (length bytes) ∷ give answer
action_replies (pause n) = []
action_replies (cut_off bytes written) = wrote 1 ∷ wrote 1 ∷ wrote 1 ∷ wrote written ∷ wrote 0 ∷ []

abbrev pub script_calls : List Action → List FtdiCall
script_calls [] = []
script_calls (a ∷ script) = action_calls a ++ script_calls script

abbrev pub script_replies : List Action → List FtdiReply
script_replies [] = []
script_replies (a ∷ script) = action_replies a ++ script_replies script

script_calls-append :
    (xs ys : List Action) → script_calls (xs ++ ys) ≡ script_calls xs ++ script_calls ys
script_calls-append [] ys = refl
script_calls-append (a ∷ xs) ys =
    rw
      (script_calls-append xs ys, append_assoc (action_calls a) (script_calls xs) (script_calls ys))
      refl

script_replies-append :
    (xs ys : List Action) → script_replies (xs ++ ys) ≡ script_replies xs ++ script_replies ys
script_replies-append [] ys = refl
script_replies-append (a ∷ xs) ys =
    rw
      (
        script_replies-append xs ys,
        append_assoc (action_replies a) (script_replies xs) (script_replies ys),
      )
      refl

-- With the answers of the script, the program makes the calls of the script, and goes on as `k`.
pub record Plays {A : Type 0} (m : Ftdi A) (script : List Action) (k : Ftdi A) : Type 0 where
  pub runs :
      (rs : List FtdiReply) (s : Mpsse)
      → m (script_replies script ++ rs) s ≡ k rs (add_calls (script_calls script) s)

pub Plays-bind :
    {A B : Type 0} {m : Ftdi A} (f : A → Ftdi B) {xs ys : List Action} {a : A} {k : Ftdi B}
    → Plays m xs (pure a)
    → Plays (f a) ys k
    → Plays (m >>= f) (xs ++ ys) k
Plays-bind {m = m} f {xs = xs} {ys = ys} {k = k} p q = record {
  runs = λ rs s.
      ap (λ all. (m >>= f) (all ++ rs) s) (script_replies-append xs ys)
      ∙ ap (λ all. (m >>= f) all s) (append_assoc (script_replies xs) (script_replies ys) rs)
      ∙ >>=-eq-done m f (p.runs (script_replies ys ++ rs) s)
      ∙ q.runs rs (add_calls (script_calls xs) s)
      ∙ ap (λ calls. k rs (record s { calls = calls }))
          (append_assoc s.calls (script_calls xs) (script_calls ys)
            ∙ ap (λ calls. s.calls ++ calls) (sym (script_calls-append xs ys)));
}

pub Plays-then :
    {B : Type 0} {m : Ftdi (Unit {0})} {n k : Ftdi B} {xs ys : List Action}
    → Plays m xs (pure tt)
    → Plays n ys k
    → Plays (m >> n) (xs ++ ys) k
Plays-then {n = n} p q = Plays-bind (λ u. n) p q

-- With the last action the script is at its end.
pub Plays-nil : {A : Type 0} (k : Ftdi A) → Plays k [] k
Plays-nil k = record {
  runs = λ rs s. ap (λ calls. k rs (record s { calls = calls })) (sym (append-nil s.calls));
}

-- The single actions.
pub Plays-pins :
    (cs_b creset_b : Bool) → Plays (set_cs_creset cs_b creset_b) (pins cs_b creset_b ∷ []) (pure tt)
unfolding set_cs_creset
Plays-pins true true = record { runs = set_gpio_sends _ 0x93 }
Plays-pins true false = record { runs = set_gpio_sends _ 0x93 }
Plays-pins false true = record { runs = set_gpio_sends _ 0x93 }
Plays-pins false false = record { runs = set_gpio_sends _ 0x93 }

pub Plays-pause : (n : ℕ) → Plays (ftdi_do (usleep n)) (pause n ∷ []) (pure tt)
Plays-pause n = record { runs = λ rs s. refl }

pub Plays-send :
    (bytes : List ℕ)
    → length bytes ≢ 0
    → Plays (mpsse_send_spi bytes (length bytes)) (send bytes ∷ []) (pure tt)
Plays-send bytes ne = record {
  runs = λ rs s.
      send_spi_sends bytes (length bytes) rs s ne
      ∙ ap (λ cs. done tt rs (add_calls cs s))
          (sym (append-nil (transfer_calls 0x11 (length bytes) bytes)));
}

pub Plays-exchange :
    (w : ℕ)
    → w < 2 ^ 32
    → Plays read_word_reply (exchange (0 ∷ 0 ∷ 0 ∷ 0 ∷ []) (big_endian w) ∷ []) (pure w)
Plays-exchange w h = record {
  runs = λ rs s.
      read_word_reply_steps (big_endian w) _ rs s _
        (xfer_spi_sends (0 ∷ 0 ∷ 0 ∷ 0 ∷ []) (big_endian w) rs s (omega arith))
      ∙ ap
          (λ word. done word rs (
            add_calls (reads (big_endian w))
              (add_calls (transfer_calls 0x31 4 (0 ∷ 0 ∷ 0 ∷ 0 ∷ [])) s)))
          (join_bytes-big_endian w h)
      ∙ ap (λ calls. done w rs (record s { calls = calls }))
          (append_assoc s.calls (transfer_calls 0x31 4 (0 ∷ 0 ∷ 0 ∷ 0 ∷ []))
            (reads (big_endian w)));
}

pub Plays-cdone :
    (low : ℕ) → Plays get_cdone (ask_pins low ∷ []) (pure (not (bit_and low 0x40 == 0)))
unfolding get_cdone
Plays-cdone low = record {
  runs = λ rs s.
      >>=-eq-done mpsse_readb_low (λ byte. pure (not (bit_and byte 0x40 == 0)))
        (readb_low_sends low rs s);
}

-- A program that exits, with this change to the state, and what would follow.
abbrev pub exits : {A : Type 0} → (Mpsse → Mpsse) → Ftdi A
exits change rs s = exited rs (change s)

pub Plays-exits :
    {A B : Type 0} {m : Ftdi A} (f : A → Ftdi B) {script : List Action} {change : Mpsse → Mpsse}
    → Plays m script (exits change)
    → Plays (m >>= f) script (exits change)
Plays-exits {m = m} f p = record { runs = λ rs s. >>=-eq-exited m f (p.runs rs s) }

-- What `mpsse_error` does to the state once no byte is left to be read.
abbrev pub give_up : ℕ → Mpsse → Mpsse
give_up status s = record s { calls = s.calls ++ release_calls s ++ exit status ∷ [] }

pub Plays-cut_off :
    (bytes : List ℕ) (written : ℕ)
    → length bytes ≢ 0
    → written ≢ length bytes
    → Plays (mpsse_send_spi bytes (length bytes)) (cut_off bytes written ∷ []) (exits (give_up 2))
Plays-cut_off bytes written ne short = record {
  runs = λ rs s.
      send_spi_cut_off bytes (length bytes) written (wrote 0 ∷ rs) s ne short
      ∙ mpsse_error_releases 2 [] (wrote 0) rs
          (add_calls (transfer_calls 0x11 (length bytes) bytes) s) tt refl
      ∙ ap (λ calls. exited rs (record s { calls = calls })) (simp append_assoc);
}
