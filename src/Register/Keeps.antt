-- ===== src/Register/Keeps.antt =====
-- The functions of ice9.c on words and registers keep the ring buffer valid.
use ice9_api.Prelude.{
  ℕ, ◌*◌, ◌≤◌, Bool, List, [], ◌∷◌, length, leb, arith, take, if◌then◌else◌, bit_or, words_to_bytes,
  length-words_to_bytes, bytes_to_words, Bool-cases, inl, inr, bit_and, ◌/◌, ◌^◌,
}
use ice9_api.ErrorCode.{ok}
use ice9_api.Host.{UsbReply, bulk_out, usleep, usb_call, usb_do, set_ecode, is_ok}
use ice9_api.Host.Keeps.{
  Keeps, EndsWell, Keeps-pure, Keeps-if, Keeps-usb_call, Keeps-usb_do, Keeps-set_ecode, Keeps-bind,
  Keeps-lib_try,
}
use ice9_api.Read.{ice9_read}
use ice9_api.Read.Keeps.{FitsIn, Keeps-ice9_read}
use ice9_api.Register.{
  write_code, ice9_write, ice9_write_words, ice9_write_word, ice9_read_words,
  ice9_write_data_to_address, ice9_write_word_to_address, ice9_write_int_to_address,
  ice9_read_data_from_address, join_words, ice9_read_int_from_address, ice9_send_ping, check_ping,
  ice9_ping_bridge, ice9_enable_streaming, ice9_disable_streaming,
}

module _ {d : Bool} {Fits : UsbReply → Type 0} where
  pub Keeps-ice9_write :
      (bytes : List ℕ) (n : ℕ) → n ≤ length bytes → Keeps d Fits (ice9_write bytes n)
  unfolding ice9_write
  Keeps-ice9_write bytes n le = record {
    at = λ rs h v good. elim (Bool-cases (leb n (length bytes))) [
      | inl fit ↦
          rw (EndsWell, fit)
            ((Keeps-bind (usb_call (bulk_out 0x02 (take n bytes))) _
                (Keeps-usb_call (bulk_out 0x02 (take n bytes)))
                (λ reply. Keeps-pure (write_code n reply))).at
              rs h v good)
      | inr more ↦ absurd (ground arith)
    ];
  }

  pub Keeps-ice9_write_words :
      (words : List ℕ) (len : ℕ) → len ≤ length words → Keeps d Fits (ice9_write_words words len)
  unfolding ice9_write_words
  Keeps-ice9_write_words words len le =
      Keeps-ice9_write (words_to_bytes words) (len * 2)
        (omega (arith, le, length-words_to_bytes words))

  pub Keeps-ice9_write_word : (word : ℕ) → Keeps d Fits (ice9_write_word word)
  unfolding ice9_write_word
  Keeps-ice9_write_word word = Keeps-ice9_write_words (word ∷ []) 1 (omega arith)

  pub Keeps-ice9_write_data_to_address :
      (address : ℕ) (words : List ℕ) (len : ℕ)
      → len ≤ length words
      → Keeps d Fits (ice9_write_data_to_address address words len)
  unfolding ice9_write_data_to_address
  Keeps-ice9_write_data_to_address address words len le =
      Keeps-lib_try _ _ _
        (Keeps-ice9_write_words (bit_or 0x0300 address ∷ len ∷ []) 2 (omega arith))
        (Keeps-ice9_write_words words len le)

  pub Keeps-ice9_write_word_to_address :
      (address value : ℕ) → Keeps d Fits (ice9_write_word_to_address address value)
  unfolding ice9_write_word_to_address
  Keeps-ice9_write_word_to_address address value =
      Keeps-ice9_write_data_to_address address (value ∷ []) 1 (omega arith)

  pub Keeps-ice9_write_int_to_address :
      (address value : ℕ) → Keeps d Fits (ice9_write_int_to_address address value)
  unfolding ice9_write_int_to_address
  Keeps-ice9_write_int_to_address address value =
      Keeps-ice9_write_data_to_address address
        (bit_and (value / 2 ^ 16) 0xFFFF ∷ bit_and value 0xFFFF ∷ []) 2 (omega arith)

  pub Keeps-ice9_send_ping : (pingid : ℕ) → Keeps d Fits (ice9_send_ping pingid)
  unfolding ice9_send_ping
  Keeps-ice9_send_ping pingid = Keeps-ice9_write_word (bit_or 0x0100 pingid)

  pub Keeps-ice9_enable_streaming : (address : ℕ) → Keeps d Fits (ice9_enable_streaming address)
  unfolding ice9_enable_streaming
  Keeps-ice9_enable_streaming address = Keeps-ice9_write_word (bit_or 0x0500 address)

  pub Keeps-ice9_disable_streaming : Keeps d Fits ice9_disable_streaming
  unfolding ice9_disable_streaming
  Keeps-ice9_disable_streaming = Keeps-ice9_write_word 0xFFFF

pub Keeps-ice9_read_words : {d : Bool} (len : ℕ) → Keeps d (FitsIn 512) (ice9_read_words len)
unfolding ice9_read_words
Keeps-ice9_read_words len =
    Keeps-bind (ice9_read (len * 2)) _ (Keeps-ice9_read (len * 2))
      (λ answer. Keeps-pure (answer.0, bytes_to_words answer.1))

pub Keeps-ice9_read_data_from_address :
    {d : Bool} (address len : ℕ) → Keeps d (FitsIn 512) (ice9_read_data_from_address address len)
unfolding ice9_read_data_from_address
Keeps-ice9_read_data_from_address address len =
    Keeps-lib_try _ _ _ (Keeps-ice9_write_words (bit_or 0x0200 address ∷ len ∷ []) 2 (omega arith))
      (Keeps-ice9_read_words len)

pub Keeps-ice9_read_int_from_address :
    {d : Bool} (address : ℕ) → Keeps d (FitsIn 512) (ice9_read_int_from_address address)
unfolding ice9_read_int_from_address
Keeps-ice9_read_int_from_address address =
    Keeps-bind (ice9_read_data_from_address address 2) _
      (Keeps-ice9_read_data_from_address address 2)
      (λ answer. Keeps-bind (set_ecode answer.0) _ (Keeps-set_ecode answer.0) (λ u.
        Keeps-if (is_ok answer.0) _ _ (Keeps-pure (ok, join_words answer.1))
          (Keeps-pure (answer.0, []))))

pub Keeps-ice9_ping_bridge :
    {d : Bool} (pingid : ℕ) → Keeps d (FitsIn 512) (ice9_ping_bridge pingid)
unfolding ice9_ping_bridge
Keeps-ice9_ping_bridge pingid = Keeps-lib_try _ _ _ (Keeps-ice9_send_ping pingid) (
    Keeps-bind (usb_do (usleep 1000)) _ (Keeps-usb_do (usleep 1000)) (λ u.
      Keeps-bind (ice9_read_words 1) _ (Keeps-ice9_read_words 1) (λ answer.
        Keeps-bind (set_ecode answer.0) _ (Keeps-set_ecode answer.0)
          (λ u'. Keeps-pure (if is_ok answer.0 then check_ping pingid answer.1 else answer.0)))))
