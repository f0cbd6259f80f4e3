-- ===== src/Register/Writes.antt =====
-- What the writing functions send, and when they report success.
use ice9_api.Prelude.{
  ℕ, ◌+◌, ◌*◌, ◌/◌, ◌%◌, ◌^◌, ◌≤◌, ◌<◌, ◌≡◌, refl, ◌∙◌, ap, ◌↔◌, List, [], ◌∷◌, ◌++◌, append_assoc,
  length, take, arith, is_negative, false, done, bit_or, bit_or-shifted, words_to_bytes,
  length-words_to_bytes, take-words_to_bytes,
}
use ice9_api.ErrorCode.{Ice9Error, ok}
use ice9_api.Host.{Host, UsbReply, bulk_out, log_call}
use ice9_api.Register.{write_code, ice9_write, ice9_write_words, ice9_write_data_to_address}

-- A bulk write that succeeds and sends all of its `n` bytes.
pub record IsSent (n : ℕ) (r : UsbReply) : Type 0 where
  pub succeeds : is_negative r.ret ≡ false
  pub complete : r.actual_length ≡ n

-- `ice9_write` makes one transfer, of exactly the bytes that it is given, and returns `OK` exactly
-- if libusb reports no error and all of them sent.
pub ice9_write_ok :
    (bytes : List ℕ) (n : ℕ) (r : UsbReply) (rs : List UsbReply) (h : Host)
    → n ≤ length bytes
    → (code : Ice9Error) × (ice9_write bytes n (r ∷ rs) h
        ≡ done code rs (log_call (bulk_out 0x02 (take n bytes)) h))
      × ((code ≡ ok) ↔ IsSent n r)
unfolding ice9_write
ice9_write_ok bytes n r rs h le = (write_code n r, ground arith, ground arith)

pub ice9_write_words_sends :
    (words : List ℕ) (len : ℕ) (r : UsbReply) (rs : List UsbReply) (h : Host)
    → len ≤ length words
    → IsSent (len * 2) r
    → ice9_write_words words len (r ∷ rs) h
      ≡ done ok rs (log_call (bulk_out 0x02 (words_to_bytes (take len words))) h)
unfolding ice9_write_words ice9_write
ice9_write_words_sends words len r rs h le sent = ground (
  arith,
  sent.succeeds,
  sent.complete,
  length-words_to_bytes words,
  take-words_to_bytes len words,
)

-- A command word: the upper byte is the command, the lower one its argument.
pub command_word :
    (command argument : ℕ)
    → argument < 256
    → bit_or (command * 256) argument ≡ command * 256 + argument
command_word command argument h = bit_or-shifted 8 command argument h

-- The bytes of a header of two words.
pub header_bytes :
    (command address len : ℕ)
    → command < 256
    → address < 256
    → len < 2 ^ 16
    → words_to_bytes (bit_or (command * 256) address ∷ len ∷ [])
      ≡ address ∷ command ∷ len % 256 ∷ len / 256 ∷ []
header_bytes command address len hc ha hl = ground (arith, command_word command address ha)

-- A write to an address sends two transfers, the header with the address, the command 3 and the
-- number of words, and then these words, each with the lower byte first; with both sent whole it
-- returns `OK`, and the handle is as before.
pub write_data_to_address_sends :
    (address len : ℕ) (words : List ℕ) (r s : UsbReply) (rs : List UsbReply) (h : Host)
    → address < 256
    → len < 2 ^ 16
    → len ≤ length words
    → IsSent 4 r
    → IsSent (len * 2) s
    → let header = address ∷ 3 ∷ len % 256 ∷ len / 256 ∷ [] in
      (h' : Host) × (ice9_write_data_to_address address words len (r ∷ s ∷ rs) h ≡ done ok rs h')
      × (h'.calls
          ≡ h.calls ++ bulk_out 0x02 header ∷ bulk_out 0x02 (words_to_bytes (take len words)) ∷ [])
      × (h'.handle ≡ h.handle)
unfolding ice9_write_data_to_address
write_data_to_address_sends address len words r s rs h ha hl le sent_r sent_s =
    let word = command_word 3 address ha in
    let head =
      ice9_write_words_sends (bit_or 0x0300 address ∷ len ∷ []) 2 r (s ∷ rs) h (omega arith)
        sent_r in
    let h1 = log_call (bulk_out 0x02 (words_to_bytes (bit_or 0x0300 address ∷ len ∷ []))) h in
    let body = ice9_write_words_sends words len s rs (record h1 { ecode = ok }) le sent_s in
    (
      log_call (bulk_out 0x02 (words_to_bytes (take len words))) (record h1 { ecode = ok }),
      ground arith,
      append_assoc h.calls _ _
          ∙ ap
              (λ (header : List ℕ).
                h.calls
                ++ bulk_out 0x02 header ∷ bulk_out 0x02 (words_to_bytes (take len words)) ∷ [])
              (header_bytes 3 address len (omega arith) ha hl),
      refl,
    )
