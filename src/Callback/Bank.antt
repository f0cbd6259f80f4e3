-- ===== src/Callback/Bank.antt =====
-- The extra data buffer, and when a packet overflows it.
use ice9_api.Prelude.{
  min, min_of, ℕ, ◌+◌, ◌-◌, ◌≤◌, ◌<◌, ◌≡◌, ◌↔◌, refl, ◌∙◌, ap, none, some, List, ◌++◌, pos, slice,
  length, take, arith, slice-patch, patch,
}
use ice9_api.Host.{Stream, bank_size}
use ice9_api.Callback.{transfer_bytes, bank_bytes}

-- The banked bytes lie in the extra data buffer, and from its start if there are none.
pub record IsBanked (s : Stream) : Type 0 where
  pub inside : s.extra_data_read_pointer + s.extra_data_bytes ≤ bank_size
  pub rewound : s.extra_data_bytes ≡ 0 → s.extra_data_read_pointer ≡ 0

-- The bytes in the bank, and those written to the caller's block.
abbrev pub banked : Stream → List ℕ
banked s = slice s.extra_data_buffer s.extra_data_read_pointer s.extra_data_bytes

abbrev pub delivered : Stream → List ℕ
delivered s = slice s.stream_data 0 s.stream_bytes_read_so_far

-- The copy goes past the end of the extra data buffer when the new bytes fit behind the read
-- pointer but not behind the bytes in the bank, and at no other time.
pub bank_bytes-none :
    (s : Stream) (bytes : List ℕ) (to_bank : ℕ)
    → to_bank ≤ length bytes
    → (bank_bytes s bytes to_bank ≡ none) ↔ (
        (to_bank + s.extra_data_read_pointer < bank_size)
        × (bank_size < s.extra_data_read_pointer + s.extra_data_bytes + to_bank))
unfolding bank_bytes
bank_bytes-none s bytes to_bank have = (λ e. ground arith, λ (passes, over). ground arith)

pub bank_bytes_keeps :
    (s : Stream) (bytes : List ℕ) (to_bank : ℕ)
    → s.extra_data_read_pointer + s.extra_data_bytes + to_bank < bank_size
    → to_bank ≤ length bytes
    → (s' : Stream) × (bank_bytes s bytes to_bank ≡ some (pos 1, s'))
      × (banked s' ≡ banked s ++ take to_bank bytes)
      × (delivered s' ≡ delivered s)
      × (s'.extra_data_read_pointer ≡ s.extra_data_read_pointer)
      × (s'.extra_data_bytes ≡ s.extra_data_bytes + to_bank)
      × (s'.stream_bytes_to_read ≡ s.stream_bytes_to_read)
      × (s'.stream_bytes_read_so_far ≡ s.stream_bytes_read_so_far)
unfolding bank_bytes
bank_bytes_keeps s bytes to_bank room have = (
  record s {
    extra_data_buffer =
        patch s.extra_data_buffer (s.extra_data_read_pointer + s.extra_data_bytes) bytes to_bank;
    extra_data_bytes = s.extra_data_bytes + to_bank;
  },
  ground arith,
  slice-patch s.extra_data_buffer s.extra_data_read_pointer s.extra_data_bytes to_bank
      (s.extra_data_read_pointer + s.extra_data_bytes) bytes refl have,
  refl,
  refl,
  refl,
  refl,
  refl,
)

pub transfer_bytes_delivers :
    (s : Stream) (bytes : List ℕ) (available : ℕ)
    → min s.stream_bytes_to_read available ≤ length bytes
    → let n = min s.stream_bytes_to_read available in
      let (copied, s') = transfer_bytes s bytes available in
      (copied ≡ n)
      × (delivered s' ≡ delivered s ++ take n bytes)
      × (s'.stream_bytes_to_read ≡ s.stream_bytes_to_read - n)
      × (s'.stream_bytes_read_so_far ≡ s.stream_bytes_read_so_far + n)
unfolding transfer_bytes
transfer_bytes_delivers s bytes available have = (
  ground arith,
  ap
        (λ n.
          slice (patch s.stream_data s.stream_bytes_read_so_far bytes n) 0
            (s.stream_bytes_read_so_far + n))
        count
      ∙ slice-patch s.stream_data 0 s.stream_bytes_read_so_far
          (min s.stream_bytes_to_read available) s.stream_bytes_read_so_far bytes (omega arith)
          have,
  ground arith,
  ground arith,
)
  where
    count : min_of s.stream_bytes_to_read available ≡ min s.stream_bytes_to_read available
    count = ground arith
