-- ===== src/Callback.antt =====
-- The callback of a stream read: `transfer_bytes`, `bank_bytes` and `read_callback` of ice9.c.
pub mod Bank
pub mod Delivery
pub mod Overflow
pub mod Packet
pub mod Sequence
mod Tests
use ice9_api.Prelude.{
  ℕ, ◌+◌, ◌-◌, ◌&&◌, not, Option, none, some, List, ℤ, pos, negsuc, slice, patch, load, store, drop,
  length, leb, ◌==◌, if◌then◌else◌, min_of,
}
use ice9_api.Host.{Stream, bank_size}

-- The number of bytes copied, and the state afterwards. The caller's block, `stream_data`, has
-- room for the bytes still to be read; `bytes` are those that `ptr` points to.
pub transfer_bytes : Stream → List ℕ → ℕ → ℕ × Stream
transfer_bytes s bytes available =
    let n = min_of s.stream_bytes_to_read available in
    (
      n,
      record s {
        stream_data = patch s.stream_data s.stream_bytes_read_so_far bytes n;
        stream_bytes_read_so_far = s.stream_bytes_read_so_far + n;
        stream_bytes_to_read = s.stream_bytes_to_read - n;
      },
    )

-- `none` is a `memcpy` outside of the extra data buffer.
pub bank_bytes : Stream → List ℕ → ℕ → Option (ℤ × Stream)
bank_bytes s bytes to_bank =
    let bank_used = s.extra_data_read_pointer in
    if leb bank_size (to_bank + bank_used)
    then some (negsuc 0, s)
    else elim (store bank_size s.extra_data_buffer (s.extra_data_read_pointer + s.extra_data_bytes)
        bytes to_bank) [
          | none ↦ none
          | some buffer ↦ some (
            pos 1,
            record s {
              extra_data_buffer = buffer;
              extra_data_bytes = s.extra_data_bytes + to_bank;
            },
          )
        ]

-- The extra data buffer is set to 0 once its last byte is taken.
reset_bank : Stream → ℕ → Stream
reset_bank s was =
    if not (was == 0) && s.extra_data_bytes == 0
    then record s { extra_data_read_pointer = 0; extra_data_buffer = λ i. 0 }
    else s

-- The state once `bytes` of the extra data buffer are copied.
take_from_store : Stream → List ℕ → Stream
unfolding transfer_bytes
take_from_store s bytes =
    let (copied, s') = transfer_bytes s bytes s.extra_data_bytes in
    record s' {
      extra_data_read_pointer = s'.extra_data_read_pointer + copied;
      extra_data_bytes = s'.extra_data_bytes - copied;
    }

-- The first part of `read_callback`: bytes from the extra data buffer.
pub transfer_from_store : Stream → Option Stream
unfolding take_from_store reset_bank
transfer_from_store s =
    elim (load bank_size s.extra_data_buffer s.extra_data_read_pointer
      (min_of s.stream_bytes_to_read s.extra_data_bytes)) [
        | none ↦ none
        | some bytes ↦ some (reset_bank (take_from_store s bytes) s.extra_data_bytes)
      ]

-- The rest of it: bytes from the packet, and what is left of that to the bank.
pub transfer_from_packet : Stream → List ℕ → ℕ → Option (ℤ × Stream)
unfolding transfer_bytes bank_bytes
transfer_from_packet s buffer length =
    let (copied, s') = transfer_bytes s buffer length in
    if not (s'.stream_bytes_to_read == 0)
    then some (pos 0, s')
    else if length - copied == 0
    then some (pos 1, s')
    else bank_bytes s' (drop copied buffer) (length - copied)

pub read_callback : Stream → List ℕ → ℕ → Option (ℤ × Stream)
read_callback s buffer length = elim (transfer_from_store s) [
  | none ↦ none
  | some s' ↦ transfer_from_packet s' buffer length
]
