-- ===== src/Ring.antt =====
-- The ring buffer of ice9.c: the four `read_buffer` fields of `struct ice9_handle`, and the four
-- helper functions at the top of the file.
pub mod Queue
pub mod Contents
pub mod Refine
pub mod Abstract
pub mod Trip
mod Tests
use ice9_api.Prelude.{
  ℕ, ◌+◌, ◌-◌, ◌*◌, ◌%◌, Option, none, some, List, ◌++◌, Memory, load, store, drop, min_of,
}

abbrev pub ring_buffer_size : ℕ
ring_buffer_size = 1024 * 1024

-- `read_buffer` points to a block of `ring_buffer_size` bytes.
pub record Ring : Type 0 where
  pub read_buffer : Memory
  pub read_buffer_size : ℕ
  pub read_buffer_head : ℕ
  pub read_buffer_tail : ℕ

unfoldable pub bytes_in_read_buffer : Ring → ℕ
bytes_in_read_buffer r =
    (r.read_buffer_head + ring_buffer_size - r.read_buffer_tail) % ring_buffer_size

pub free_space_in_read_buffer : Ring → ℕ
unfolding bytes_in_read_buffer
free_space_in_read_buffer r = ring_buffer_size - 1 - bytes_in_read_buffer r

infixl 5 ◌>>=◌
abbrev ◌>>=◌ {ℓ κ} : {A : Type ℓ} {B : Type κ} → Option A → (A → Option B) → Option B
none >>= k = none
some a >>= k = k a

-- The number of bytes transferred, the bytes written to `dest`, and the ring afterwards. `none`
-- is a `memcpy` outside of the buffer.
pub drain_from_read_buffer : Ring → ℕ → Option (ℕ × List ℕ × Ring)
drain_from_read_buffer r count = do
  let in_buffer = bytes_in_read_buffer r
  let count' = min_of count in_buffer
  let first_transfer = min_of count' (ring_buffer_size - r.read_buffer_tail)
  first ← load ring_buffer_size r.read_buffer r.read_buffer_tail first_transfer
  let tail = (r.read_buffer_tail + first_transfer) % ring_buffer_size
  let second_transfer = count' - first_transfer
  second ← load ring_buffer_size r.read_buffer tail second_transfer
  some (count', first ++ second, record r { read_buffer_tail = tail + second_transfer })

-- `src` is the block that the argument points to.
pub enqueue_to_read_buffer : Ring → List ℕ → ℕ → Option (ℕ × Ring)
enqueue_to_read_buffer r src count = do
  let buffer_space = free_space_in_read_buffer r
  let count' = min_of count buffer_space
  let first_transfer = min_of count' (ring_buffer_size - r.read_buffer_head)
  buffer ← store ring_buffer_size r.read_buffer r.read_buffer_head src first_transfer
  let head = (r.read_buffer_head + first_transfer) % ring_buffer_size
  let second_transfer = count' - first_transfer
  buffer' ← store ring_buffer_size buffer head (drop first_transfer src) second_transfer
  some (count', record r { read_buffer = buffer'; read_buffer_head = head + second_transfer })
