-- ===== src/Callback/Overflow.antt =====
-- The packets for which `read_callback` writes past the end of the extra data buffer.
use ice9_api.Prelude.{
  ℕ, ◌+◌, ◌-◌, ◌≤◌, ◌<◌, ◌≡◌, ◌≢◌, ◌∙◌, sym, ◌↔◌, none, List, length, drop, length-drop, arith,
  ◌==◌, ltb, Bool-cases, inl, inr,
}
use ice9_api.Host.{Stream, bank_size}
use ice9_api.Callback.{read_callback, transfer_from_packet}
use ice9_api.Callback.Bank.{IsBanked, bank_bytes-none}
use ice9_api.Callback.Delivery.{transfer_from_store-FromStore}
use ice9_api.Callback.Packet.{
  moved, copied, moved_bank, moved_delivers, packet_wanted, packet_exact, packet_over,
  read_callback_steps,
}

-- Bytes are left of the packet once the caller has all, and they pass the guard of `bank_bytes`,
-- but do not fit behind those in the bank.
transfer_from_packet-none :
    (s : Stream) (packet : List ℕ)
    → (transfer_from_packet s packet (length packet) ≡ none) ↔ (
        (s.stream_bytes_to_read < length packet)
        × (length packet - s.stream_bytes_to_read + s.extra_data_read_pointer < bank_size)
        × (bank_size
            < s.extra_data_read_pointer
              + s.extra_data_bytes
              + (length packet - s.stream_bytes_to_read)))
transfer_from_packet-none s packet =
    let (size, gives, rest, total) = moved_delivers s packet in
    let (bank, at_pointer, in_bank) = moved_bank s packet in
    elim (Bool-cases ((moved s packet).stream_bytes_to_read == 0)) [
      | inr wanted ↦
          let ne : (moved s packet).stream_bytes_to_read ≢ 0 = ground arith in
          let run = packet_wanted s packet ne in
          (λ e. absurd (ground (arith, run, e)), λ h. absurd (omega (arith, rest, ne, h)))
      | inl finished ↦
          let z : (moved s packet).stream_bytes_to_read ≡ 0 = ground arith in
          elim (Bool-cases (length packet - copied s packet == 0)) [
            | inl exact ↦
                let d : length packet - copied s packet ≡ 0 = ground arith in
                let run = packet_exact s packet z d in
                (λ e. absurd (ground (arith, run, e)), λ h. absurd (omega (arith, size, d, h)))
            | inr more ↦
                let over : length packet - copied s packet ≢ 0 = ground arith in
                let run = packet_over s packet z over in
                let long = length-drop (copied s packet) packet in
                let iff =
                  bank_bytes-none (moved s packet) (drop (copied s packet) packet)
                    (length packet - copied s packet) (omega (arith, long)) in
                (
                  λ e.
                      let h = iff.0 (sym run ∙ e) in
                      omega (arith, size, rest, z, over, at_pointer, in_bank, h),
                  λ h. run ∙ iff.1 (omega (arith, size, rest, z, over, at_pointer, in_bank, h)),
                )
          ]
    ]

-- For a bank whose bytes lie in the extra data buffer, `read_callback` writes past the end of that
-- buffer if and only if the caller wants fewer bytes than the bank has, the packet fits behind the
-- place where the rest of the bank then starts, so that the guard of `bank_bytes` lets it through,
-- and it does not fit behind the end of the bank.
pub read_callback-none :
    (s : Stream) (packet : List ℕ)
    → IsBanked s
    → (read_callback s packet (length packet) ≡ none) ↔ (
        (s.stream_bytes_to_read < s.extra_data_bytes)
        × (length packet + s.extra_data_read_pointer + s.stream_bytes_to_read < bank_size)
        × (bank_size < s.extra_data_read_pointer + s.extra_data_bytes + length packet))
read_callback-none s packet v =
    let (s1, stored, f) = transfer_from_store-FromStore s v in
    let steps = read_callback_steps s s1 packet stored in
    let iff = transfer_from_packet-none s1 packet in
    elim (Bool-cases (ltb s.stream_bytes_to_read s.extra_data_bytes)) [
      | inl fewer ↦
          let lt : s.stream_bytes_to_read < s.extra_data_bytes = ground arith in
          let place = f.pointer lt in
          (
            λ e. let h = iff.0 (sym steps ∙ e) in omega (arith, h, place, lt, f.wanted, f.left),
            λ h. steps ∙ iff.1 (omega (arith, h, place, lt, f.wanted, f.left)),
          )
      | inr all ↦
          let ge : s.extra_data_bytes ≤ s.stream_bytes_to_read = ground arith in
          let start = f.valid.rewound (omega (arith, f.left, ge)) in
          (
            λ e.
                let h = iff.0 (sym steps ∙ e) in
                absurd (omega (arith, h, start, f.left, ge, f.wanted)),
            λ h. absurd (omega (arith, h, ge)),
          )
    ]
