-- ===== src/Register.antt =====
-- The writing functions of ice9.c, and the registers that the bridge on the FPGA reads and writes
-- for a command word: 0x01 ping, 0x02 read, 0x03 write, 0x05 stream, in the upper byte.
mod Tests
pub mod Writes
pub mod RoundTrip
pub mod DataTrip
pub mod Keeps
use ice9_api.Prelude.{
  ℕ, ◌+◌, ◌*◌, ◌/◌, ◌%◌, ◌^◌, ◌≡◌, Bool, true, false, not, List, [], ◌∷◌, length, take, is_negative,
  done, fault, pure, ◌>>=◌, ◌>>◌, leb, ◌==◌, if◌then◌else◌, bit_or, bit_and, words_to_bytes,
  bytes_to_words,
}
use ice9_api.ErrorCode.{Ice9Error, ok, libusb_io_error, partial_write, ping_mismatch}
use ice9_api.Host.{
  Host, UsbReply, UsbCall, bulk_out, usleep, Api, usb_call, usb_do, set_ecode, is_ok, lib_try,
}
use ice9_api.Read.{Reads, ice9_read}

-- What a bulk write of `num_bytes` bytes with this result makes `ice9_write` return.
unfoldable pub write_code : ℕ → UsbReply → Ice9Error
write_code num_bytes reply =
    if is_negative reply.ret
    then libusb_io_error
    else if not (reply.actual_length == num_bytes)
    then partial_write
    else ok

-- A write of more bytes than the block `bytes` holds is undefined.
unfoldable pub ice9_write : List ℕ → ℕ → Api Ice9Error
unfolding write_code
ice9_write bytes num_bytes rs h = elim (leb num_bytes (length bytes)) [
  | true ↦
      (usb_call (bulk_out 0x02 (take num_bytes bytes)) >>= λ reply.
      pure (write_code num_bytes reply))
        rs h
  | false ↦ fault
]

unfoldable pub ice9_write_words : List ℕ → ℕ → Api Ice9Error
unfolding ice9_write
ice9_write_words words len = ice9_write (words_to_bytes words) (len * 2)

unfoldable pub ice9_write_word : ℕ → Api Ice9Error
ice9_write_word word = ice9_write_words (word ∷ []) 1

-- With the words that are complete in the caller's array.
pub ice9_read_words : ℕ → Reads
ice9_read_words len = do (code, bytes) ← ice9_read (len * 2); pure (code, bytes_to_words bytes)

pub ice9_write_data_to_address : ℕ → List ℕ → ℕ → Api Ice9Error
ice9_write_data_to_address address words len =
    lib_try (ice9_write_words (bit_or 0x0300 address ∷ len ∷ []) 2) (λ e. e)
      (ice9_write_words words len)

pub ice9_write_word_to_address : ℕ → ℕ → Api Ice9Error
unfolding ice9_write_data_to_address
ice9_write_word_to_address address value = ice9_write_data_to_address address (value ∷ []) 1

-- `(value >> 16) & 0xFFFF` and `value & 0xFFFF`
pub ice9_write_int_to_address : ℕ → ℕ → Api Ice9Error
unfolding ice9_write_data_to_address
ice9_write_int_to_address address value =
    ice9_write_data_to_address address (bit_and (value / 2 ^ 16) 0xFFFF ∷ bit_and value 0xFFFF ∷ [])
      2

pub ice9_read_data_from_address : ℕ → ℕ → Reads
ice9_read_data_from_address address len =
    lib_try (ice9_write_words (bit_or 0x0200 address ∷ len ∷ []) 2) (λ e. (e, []))
      (ice9_read_words len)

-- `data[0] = (reply[0] << 16) | reply[1]`. A read that returns `OK` has filled both words; the
-- other clause is for an array that it has not.
join_words : List ℕ → List ℕ
join_words (high ∷ low ∷ rest) = bit_or (high * 2 ^ 16) low ∷ []
join_words words = []

-- What is written to `data` is the list; it is empty on an early return.
pub ice9_read_int_from_address : ℕ → Reads
unfolding join_words
ice9_read_int_from_address address = do
  (code, reply) ← ice9_read_data_from_address address 2
  set_ecode code
  if is_ok code then pure (ok, join_words reply) else pure (code, [])

unfoldable pub ice9_send_ping : ℕ → Api Ice9Error
ice9_send_ping pingid = ice9_write_word (bit_or 0x0100 pingid)

-- `pingret & 0xFF` against the id sent; `pingret` is 0 where no word was read.
check_ping : ℕ → List ℕ → Ice9Error
check_ping pingid [] = if not (pingid == 0) then ping_mismatch else ok
check_ping pingid (pingret ∷ rest) =
    if not (bit_and pingret 0xFF == pingid) then ping_mismatch else ok

unfoldable pub ice9_ping_bridge : ℕ → Api Ice9Error
unfolding check_ping
ice9_ping_bridge pingid =
    lib_try (ice9_send_ping pingid) (λ e. e)
      (do
        usb_do (usleep 1000)
        (code, words) ← ice9_read_words 1
        set_ecode code
        pure (if is_ok code then check_ping pingid words else code))

pub ice9_enable_streaming : ℕ → Api Ice9Error
unfolding ice9_write_word
ice9_enable_streaming address = ice9_write_word (bit_or 0x0500 address)

pub ice9_disable_streaming : Api Ice9Error
unfolding ice9_write_word
ice9_disable_streaming = ice9_write_word 0xFFFF
