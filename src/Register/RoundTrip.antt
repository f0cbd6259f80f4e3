-- ===== src/Register/RoundTrip.antt =====
-- Reading a register gives back what the device answers.
use ice9_api.Prelude.{
  AreWords, bytes_to_words-words_to_bytes, ℕ, ◌+◌, ◌-◌, ◌*◌, ◌/◌, ◌^◌, ◌≤◌, ◌<◌, ◌≡◌, refl, ◌∙◌, ap,
  List, [], ◌∷◌, ◌++◌, length, take, take_all, arith, pos, done, bit_or, bit_and, bit_or-shifted,
  bit_and-mask, words_to_bytes, bytes_to_words, if◌then◌else◌, ◌==◌,
}
use ice9_api.ErrorCode.{ok, ping_mismatch}
use ice9_api.Ring.Contents.{contents}
use ice9_api.Host.{Host, UsbReply, bulk_out, usleep, log_call}
use ice9_api.Read.{ice9_read}
use ice9_api.Read.View.{IsValidHost, view}
use ice9_api.Read.Packets.{payload, stored, ice9_read_completes}
use ice9_api.Register.{
  ice9_read_words, ice9_write_int_to_address, ice9_read_data_from_address,
  ice9_read_int_from_address, ice9_write_word, ice9_send_ping, ice9_ping_bridge, join_words,
}
use ice9_api.Register.Writes.{IsSent, ice9_write_words_sends, write_data_to_address_sends}

-- The ring buffer is valid and empty.
pub record IsIdle (h : Host) : Type 0 where
  pub valid : IsValidHost h
  pub empty : contents h.handle.ring ≡ []

-- A packet that succeeds, with two status bytes and this payload.
abbrev pub packet : ℕ → ℕ → List ℕ → UsbReply
packet modem line bytes = record { ret = pos 0; bytes = modem ∷ line ∷ bytes; actual_length = 0 }

pub stored_none : (k : ℕ) (r : UsbReply) → length r.bytes ≤ k + 2 → stored k r ≡ []
stored_none k r h = let e : length r.bytes - 2 - k ≡ 0 = omega arith in rw e

-- A read of exactly the payload of one packet.
ice9_read-packet :
    (n modem line : ℕ) (bytes : List ℕ) (rest : List UsbReply) (h : Host)
    → IsIdle h
    → 0 < n
    → length bytes ≡ n
    → n ≤ 510
    → (h' : Host) × (ice9_read n (packet modem line bytes ∷ rest) h ≡ done (ok, bytes) rest h')
      × IsIdle h'
ice9_read-packet n modem line bytes rest h idle pos_n size fits =
    let nothing : view payload [] h ≡ [] = rw (idle.empty) refl in
    let none_yet : length (view payload [] h) ≡ 0 = rw nothing refl in
    let (h', run, v', kept) =
      ice9_read_completes n [] (packet modem line bytes) rest h idle.valid tt
        (record { succeeds = refl; fits = omega arith }) (omega arith) (omega arith) in
    let whole : take (n - 0) bytes ≡ bytes = take_all (n - 0) bytes (omega arith) in
    (
      h',
      run ∙ ap (λ (read : List ℕ). done (ok, read) rest h') (rw nothing whole),
      record { valid = v'; empty = kept ∙ stored_none _ (packet modem line bytes) (omega arith) },
    )

-- A read of exactly the words of one packet.
ice9_read_words-packet :
    (len modem line : ℕ) (bytes : List ℕ) (rest : List UsbReply) (h : Host)
    → IsIdle h
    → 0 < len
    → length bytes ≡ len * 2
    → len * 2 ≤ 510
    → (h' : Host) × (ice9_read_words len (packet modem line bytes ∷ rest) h
        ≡ done (ok, bytes_to_words bytes) rest h')
      × IsIdle h'
unfolding ice9_read_words
ice9_read_words-packet len modem line bytes rest h idle pos_len size fits =
    let (h', run, idle') =
      ice9_read-packet (len * 2) modem line bytes rest h idle (omega arith) size fits in
    (h', ground arith, idle')

-- The two words of a value of 32 bits, the upper one first, as `ice9_write_int_to_address` sends
-- them.
abbrev pub int_words : ℕ → List ℕ
int_words value = bit_and (value / 2 ^ 16) 0xFFFF ∷ bit_and value 0xFFFF ∷ []

int_words-AreWords : (value : ℕ) → AreWords (int_words value)
int_words-AreWords value =
    (omega (arith, bit_and-mask 16 (value / 2 ^ 16)), (omega (arith, bit_and-mask 16 value), tt))

join_words-int_words : (value : ℕ) → value < 2 ^ 32 → join_words (int_words value) ≡ value ∷ []
unfolding join_words
join_words-int_words value h = ground (
  arith,
  bit_and-mask 16 (value / 2 ^ 16),
  bit_and-mask 16 value,
  bit_or-shifted 16 (bit_and (value / 2 ^ 16) 0xFFFF) (bit_and value 0xFFFF),
)

read_int-of_data :
    (address : ℕ) (words : List ℕ) (rs rest : List UsbReply) (h h' : Host)
    → ice9_read_data_from_address address 2 rs h ≡ done (ok, words) rest h'
    → ice9_read_int_from_address address rs h
      ≡ done (ok, join_words words) rest (record h' { ecode = ok })
unfolding ice9_read_int_from_address
read_int-of_data address words rs rest h h' e = ground arith

module _ (address : ℕ) (ack : UsbReply) (modem line : ℕ) (rest : List UsbReply) (h : Host)
    (ha : address < 256) (idle : IsIdle h) (sent : IsSent 4 ack) where
  -- The device takes the request for `len` words and answers with a packet of `bytes`.
  pub read_data_from_address_returns :
      (len : ℕ) (bytes : List ℕ)
      → 0 < len
      → length bytes ≡ len * 2
      → len * 2 ≤ 510
      → (h' : Host) × (ice9_read_data_from_address address len
            (ack ∷ packet modem line bytes ∷ rest)
            h
          ≡ done (ok, bytes_to_words bytes) rest h')
        × IsIdle h'
  unfolding ice9_read_data_from_address
  read_data_from_address_returns len bytes pos_len size fits =
      let request =
        ice9_write_words_sends (bit_or 0x0200 address ∷ len ∷ []) 2 ack
          (packet modem line bytes ∷ rest) h (omega arith) sent in
      let h1 = log_call (bulk_out 0x02 (words_to_bytes (bit_or 0x0200 address ∷ len ∷ []))) h in
      let (h', run, idle') =
        ice9_read_words-packet len modem line bytes rest (record h1 { ecode = ok })
          (record { valid = idle.valid; empty = idle.empty }) pos_len size fits in
      (h', ground arith, idle')

  pub read_int_from_address_returns :
      (value : ℕ)
      → value < 2 ^ 32
      → (h' : Host) × (ice9_read_int_from_address address
            (ack ∷ packet modem line (words_to_bytes (int_words value)) ∷ rest)
            h
          ≡ done (ok, value ∷ []) rest h')
        × IsIdle h'
  read_int_from_address_returns value hv =
      let (h', run, idle') =
        read_data_from_address_returns 2 (words_to_bytes (int_words value)) (omega arith)
          (omega arith) (omega arith) in
      let words = bytes_to_words-words_to_bytes (int_words value) (int_words-AreWords value) in
      (
        record h' { ecode = ok },
        read_int-of_data address _ _ rest h h' run
            ∙ ap (λ (read : List ℕ). done (ok, read) rest (record h' { ecode = ok }))
                (ap join_words words ∙ join_words-int_words value hv),
        record { valid = idle'.valid; empty = idle'.empty },
      )

-- A value of 32 bits written to an address, and read back from a device that answers with the
-- bytes that were sent behind the header: the read returns `OK` with that value, and leaves the
-- ring buffer empty.
pub int_round_trip :
    (address value modem line : ℕ) (header body ack : UsbReply) (rs rest : List UsbReply)
    (h k : Host)
    → address < 256
    → value < 2 ^ 32
    → IsSent 4 header
    → IsSent 4 body
    → IsSent 4 ack
    → IsIdle k
    → (bytes : List ℕ) × (h' k' : Host) × (ice9_write_int_to_address address value
          (header ∷ body ∷ rs)
          h
        ≡ done ok rs h')
      × (h'.calls ≡ h.calls ++ bulk_out 0x02 (address ∷ 3 ∷ 2 ∷ 0 ∷ []) ∷ bulk_out 0x02 bytes ∷ [])
      × (ice9_read_int_from_address address (ack ∷ packet modem line bytes ∷ rest) k
          ≡ done (ok, value ∷ []) rest k')
      × IsIdle k'
unfolding ice9_write_int_to_address
int_round_trip address value modem line header body ack rs rest h k ha hv sent_header sent_body
      sent_ack idle =
    let (h', written, calls, same) =
      write_data_to_address_sends address 2 (int_words value) header body rs h ha (omega arith)
        (omega arith) sent_header sent_body in
    let (k', read, idle') =
      read_int_from_address_returns address ack modem line rest k ha idle sent_ack value hv in
    (words_to_bytes (int_words value), h', k', written, calls, read, idle')

send_ping_sends :
    (pingid : ℕ) (ack : UsbReply) (rs : List UsbReply) (h : Host)
    → IsSent 2 ack
    → ice9_send_ping pingid (ack ∷ rs) h
      ≡ done ok rs (log_call (bulk_out 0x02 (words_to_bytes (bit_or 0x0100 pingid ∷ []))) h)
unfolding ice9_send_ping ice9_write_word
send_ping_sends pingid ack rs h sent =
    ice9_write_words_sends (bit_or 0x0100 pingid ∷ []) 1 ack rs h (omega arith) sent

-- A ping whose answer is one packet with one word: `OK` exactly if the lower byte of the word is the
-- id that was sent, and otherwise `PingMismatch`; the upper byte does not count.
pub ping_bridge_answer :
    (pingid modem line low high : ℕ) (ack : UsbReply) (rest : List UsbReply) (h : Host)
    → pingid < 256
    → low < 256
    → IsSent 2 ack
    → IsIdle h
    → (h' : Host) × (ice9_ping_bridge pingid (ack ∷ packet modem line (low ∷ high ∷ []) ∷ rest) h
        ≡ done (if low == pingid then ok else ping_mismatch) rest h')
      × IsIdle h'
unfolding ice9_ping_bridge
ping_bridge_answer pingid modem line low high ack rest h hp hl sent idle =
    let request = send_ping_sends pingid ack (packet modem line (low ∷ high ∷ []) ∷ rest) h sent in
    let h1 = record (log_call (bulk_out 0x02 (words_to_bytes (bit_or 0x0100 pingid ∷ []))) h) {
      ecode = ok;
    } in
    let (h', run, idle') =
      ice9_read_words-packet 1 modem line (low ∷ high ∷ []) rest (log_call (usleep 1000) h1)
        (record { valid = idle.valid; empty = idle.empty }) (omega arith) refl (omega arith) in
    (
      record h' { ecode = ok },
      ground (arith, bit_and-mask 8 (low + high * 256)),
      record { valid = idle'.valid; empty = idle'.empty },
    )
