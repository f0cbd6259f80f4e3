-- ===== src/Callback/Tests.antt =====
-- The stream callback run on short packets.
use ice9_api.Prelude.{
  ℕ, ◌+◌, ◌-◌, ◌<◌, ◌↔◌, ◌≡◌, refl, Option, none, some, List, [], ◌∷◌, ℤ, pos, slice, arith,
}
use ice9_api.Host.{Stream, bank_size}
use ice9_api.Callback.{read_callback, transfer_from_store, transfer_from_packet}
use ice9_api.Callback.Overflow.{read_callback-none}
use ice9_api.Callback.Delivery.{Delivers}
use ice9_api.Callback.Packet.{read_callback-Delivers}
use ice9_api.Callback.Sequence.{read_callbacks, read_callbacks-Delivers}

-- Three bytes are wanted, and one (its value 5) is in the bank.
abbrev three_wanted : Stream
three_wanted = record {
  stream_bytes_to_read = 3;
  stream_bytes_read_so_far = 0;
  stream_data = λ i. 0;
  extra_data_buffer = λ i. 5;
  extra_data_read_pointer = 2;
  extra_data_bytes = 1;
}

abbrev packet : List ℕ
packet = 6 ∷ 7 ∷ 8 ∷ 9 ∷ []

abbrev view : Option (ℤ × Stream) → Option (ℤ × List ℕ × List ℕ)
view none = none
view (some (code, s)) = some (
  code,
  slice s.stream_data 0 s.stream_bytes_read_so_far,
  slice s.extra_data_buffer s.extra_data_read_pointer s.extra_data_bytes,
)

read_callback_run :
    view (read_callback three_wanted packet 4) ≡ some (pos 1, 5 ∷ 6 ∷ 7 ∷ [], 8 ∷ 9 ∷ [])
unfolding read_callback transfer_from_store transfer_from_packet
read_callback_run = refl

read_callback-Delivers_example :
    (code : ℤ) × (s' : Stream) × (read_callback three_wanted packet 4 ≡ some (code, s'))
    × Delivers three_wanted packet code s'
read_callback-Delivers_example =
    read_callback-Delivers three_wanted packet
      (record { inside = omega arith; rewound = λ z. absurd (omega arith) }) (omega arith)

-- The caller wants nothing more, and all but one byte of the extra data buffer is in the bank.
abbrev nearly_full : Stream
nearly_full = record {
  stream_bytes_to_read = 0;
  stream_bytes_read_so_far = 0;
  stream_data = λ i. 0;
  extra_data_buffer = λ i. 5;
  extra_data_read_pointer = 0;
  extra_data_bytes = bank_size - 1;
}

read_callback-none_example :
    (read_callback nearly_full (6 ∷ 7 ∷ []) 2 ≡ none)
    ↔ ((0 < bank_size - 1) × (2 + 0 + 0 < bank_size) × (bank_size < 0 + (bank_size - 1) + 2))
read_callback-none_example =
    read_callback-none nearly_full (6 ∷ 7 ∷ [])
      (record { inside = omega arith; rewound = λ z. refl })

-- So the two bytes are written, the second of them past the end.
nearly_full_overflows : read_callback nearly_full (6 ∷ 7 ∷ []) 2 ≡ none
nearly_full_overflows = read_callback-none_example.1 (omega arith)

read_callbacks-Delivers_example :
    (code : ℤ) × (s' : Stream) × (read_callbacks three_wanted
        ((6 ∷ []) ∷ (7 ∷ 8 ∷ []) ∷ (9 ∷ []) ∷ [])
        (pos 0)
      ≡ some (code, s'))
    × Delivers three_wanted packet code s'
read_callbacks-Delivers_example =
    read_callbacks-Delivers three_wanted (6 ∷ []) ((7 ∷ 8 ∷ []) ∷ (9 ∷ []) ∷ []) (pos 0)
      (record { inside = omega arith; rewound = λ z. absurd (omega arith) }) (omega arith)
