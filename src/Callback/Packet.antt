-- ===== src/Callback/Packet.antt =====
-- The part of `read_callback` that takes a packet, and the whole of it.
use ice9_api.Prelude.{
  take-min, ℕ, ◌+◌, ◌-◌, ◌≤◌, ◌<◌, ◌≡◌, ◌≢◌, refl, ◌∙◌, sym, ap, ap₂, min, some, List, ◌++◌, ℤ, pos,
  length, take, drop, arith, if◌then◌else◌, ◌==◌, take_all, drop_all, length-drop, append-nil,
  Bool-cases, inl, inr,
}
use ice9_api.Host.{Stream, bank_size}
use ice9_api.Callback.{
  transfer_bytes, bank_bytes, transfer_from_store, transfer_from_packet, read_callback,
}
use ice9_api.Callback.Bank.{IsBanked, banked, delivered, bank_bytes_keeps, transfer_bytes_delivers}
use ice9_api.Callback.Delivery.{FromStore, Delivers, joined, transfer_from_store-FromStore}

module _ (s : Stream) (packet : List ℕ) where
  -- The state once the packet's bytes are copied, and their number.
  abbrev pub moved : Stream
  moved = (transfer_bytes s packet (length packet)).1

  abbrev pub copied : ℕ
  copied = (transfer_bytes s packet (length packet)).0

  pub moved_bank :
      (banked moved ≡ banked s)
      × (moved.extra_data_read_pointer ≡ s.extra_data_read_pointer)
      × (moved.extra_data_bytes ≡ s.extra_data_bytes)
  unfolding transfer_bytes
  moved_bank = (refl, refl, refl)

  pub moved_delivers :
      (copied ≡ min s.stream_bytes_to_read (length packet))
      × (delivered moved ≡ delivered s ++ take s.stream_bytes_to_read packet)
      × (moved.stream_bytes_to_read ≡ s.stream_bytes_to_read - length packet)
      × (moved.stream_bytes_read_so_far + moved.stream_bytes_to_read
          ≡ s.stream_bytes_read_so_far + s.stream_bytes_to_read)
  moved_delivers =
      let m = transfer_bytes_delivers s packet (length packet) (omega arith) in
      (
        m.0,
        m.1 ∙ ap (λ given. delivered s ++ given) (take-min s.stream_bytes_to_read packet),
        omega (arith, m),
        omega (arith, m),
      )

  -- The three ways that the packet's part can go.
  pub packet_wanted :
      moved.stream_bytes_to_read ≢ 0
      → transfer_from_packet s packet (length packet) ≡ some (pos 0, moved)
  unfolding transfer_from_packet
  packet_wanted ne = ground arith

  pub packet_exact :
      moved.stream_bytes_to_read ≡ 0
      → length packet - copied ≡ 0
      → transfer_from_packet s packet (length packet) ≡ some (pos 1, moved)
  unfolding transfer_from_packet
  packet_exact e d = ground arith

  pub packet_over :
      moved.stream_bytes_to_read ≡ 0
      → length packet - copied ≢ 0
      → transfer_from_packet s packet (length packet)
        ≡ bank_bytes moved (drop copied packet) (length packet - copied)
  unfolding transfer_from_packet
  packet_over e d = ground arith

pub read_callback_steps :
    (s s1 : Stream) (packet : List ℕ)
    → transfer_from_store s ≡ some s1
    → read_callback s packet (length packet) ≡ transfer_from_packet s1 packet (length packet)
unfolding read_callback
read_callback_steps s s1 packet stored = rw (read_callback, stored) refl

-- A bank of the same extent is as valid.
IsBanked-same :
    (s s' : Stream)
    → s'.extra_data_read_pointer ≡ s.extra_data_read_pointer
    → s'.extra_data_bytes ≡ s.extra_data_bytes
    → IsBanked s
    → IsBanked s'
IsBanked-same s s' p b v = record {
  inside = omega (arith, p, b, v.inside);
  rewound = λ z. p ∙ v.rewound (sym b ∙ z);
}

module _ (s s1 : Stream) (packet : List ℕ) (f : FromStore s s1) where
  -- When nothing is left over, the state is the one after the copy.
  nothing_over :
      (code : ℤ)
      → length packet ≤ s1.stream_bytes_to_read
      → code ≡ (if (moved s1 packet).stream_bytes_to_read == 0 then pos 1 else pos 0)
      → Delivers s packet code (moved s1 packet)
  nothing_over code fits answer =
      let (size, gives, rest, total) = moved_delivers s1 packet in
      let (bank, at_pointer, in_bank) = moved_bank s1 packet in
      let none_left = drop_all s1.stream_bytes_to_read packet fits in
      joined s s1 (moved s1 packet) packet code f
        (IsBanked-same s1 (moved s1 packet) at_pointer in_bank f.valid) gives
        (bank ∙ sym (ap (λ l. banked s1 ++ l) none_left ∙ append-nil (banked s1))) rest total
        (omega (arith, at_pointer, in_bank)) answer

  -- When some is left over, it goes to the bank.
  some_over :
      s1.extra_data_read_pointer + s1.extra_data_bytes + length packet < bank_size
      → (moved s1 packet).stream_bytes_to_read ≡ 0
      → length packet - copied s1 packet ≢ 0
      → (s' : Stream) × (bank_bytes
            (moved s1 packet)
            (drop (copied s1 packet) packet)
            (length packet - copied s1 packet)
          ≡ some (pos 1, s'))
        × Delivers s packet (pos 1) s'
  some_over room e over =
      let (size, gives, rest, total) = moved_delivers s1 packet in
      let (bank, at_pointer, in_bank) = moved_bank s1 packet in
      let left = drop (copied s1 packet) packet in
      let long = length-drop (copied s1 packet) packet in
      let all : copied s1 packet ≡ s1.stream_bytes_to_read = omega (arith, size, rest, e) in
      let (s', run, keeps, same, p, b, w, r) =
        bank_bytes_keeps (moved s1 packet) left (length packet - copied s1 packet)
          (omega (arith, room, at_pointer, in_bank)) (omega (arith, long)) in
      (
        s',
        run,
        joined s s1 s' packet (pos 1) f
            (record {
              inside = omega (arith, room, at_pointer, in_bank, p, b);
              rewound = λ z. absurd (over (omega (arith, z, b)));
            })
            (same ∙ gives)
            (keeps
              ∙ ap₂ ◌++◌ bank (take_all _ left (omega (arith, long)) ∙ ap (λ n. drop n packet) all))
            (w ∙ rest) (omega (arith, w, r, total)) (omega (arith, p, b, at_pointer, in_bank))
            (ground (arith, w, e)),
      )

  -- The packet's part, after the store's.
  packet_part :
      s1.extra_data_read_pointer + s1.extra_data_bytes + length packet < bank_size
      → (code : ℤ) × (s' : Stream) × (transfer_from_packet s1 packet (length packet)
          ≡ some (code, s'))
        × Delivers s packet code s'
  packet_part room =
      let (size, gives, rest, total) = moved_delivers s1 packet in
      elim (Bool-cases ((moved s1 packet).stream_bytes_to_read == 0)) [
        | inr wanted ↦
            let ne : (moved s1 packet).stream_bytes_to_read ≢ 0 = ground arith in
            (
              pos 0,
              moved s1 packet,
              packet_wanted s1 packet ne,
              nothing_over (pos 0) (omega (arith, rest, ne)) (ground arith),
            )
        | inl finished ↦
            let e : (moved s1 packet).stream_bytes_to_read ≡ 0 = ground arith in
            elim (Bool-cases (length packet - copied s1 packet == 0)) [
              | inl exact ↦
                  let d : length packet - copied s1 packet ≡ 0 = ground arith in
                  (
                    pos 1,
                    moved s1 packet,
                    packet_exact s1 packet e d,
                    nothing_over (pos 1) (omega (arith, size, d)) (ground arith),
                  )
              | inr more ↦
                  let over : length packet - copied s1 packet ≢ 0 = ground arith in
                  let (s', run, d) = some_over room e over in
                  (pos 1, s', packet_over s1 packet e over ∙ run, d)
            ]
      ]

-- While the bank and the packet fit the extra data buffer, `read_callback` copies out of bounds
-- nowhere and loses nothing: the caller's block gets the bytes of the bank and the packet, in
-- order, as many as are wanted; the bank keeps the others; and the answer is 1 exactly when the
-- caller has all.
pub read_callback-Delivers :
    (s : Stream) (packet : List ℕ)
    → IsBanked s
    → s.extra_data_read_pointer + s.extra_data_bytes + length packet < bank_size
    → (code : ℤ) × (s' : Stream) × (read_callback s packet (length packet) ≡ some (code, s'))
      × Delivers s packet code s'
read_callback-Delivers s packet v room =
    let (s1, stored, f) = transfer_from_store-FromStore s v in
    let (code, s', run, d) = packet_part s s1 packet f (omega (arith, f.room)) in
    (code, s', read_callback_steps s s1 packet stored ∙ run, d)
