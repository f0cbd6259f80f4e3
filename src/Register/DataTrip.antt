-- ===== src/Register/DataTrip.antt =====
-- Words written to an address, and read back over any number of packets.
use ice9_api.Prelude.{
  AreWords, bytes_to_words-words_to_bytes, length-words_to_bytes, ℕ, ◌+◌, ◌-◌, ◌*◌, ◌/◌, ◌%◌, ◌^◌,
  ◌<◌, ◌≡◌, ◌∙◌, sym, ap, List, [], ◌∷◌, ◌++◌, length, length-append, length-drop, take, take_all,
  arith, done, bit_or, words_to_bytes,
}
use ice9_api.ErrorCode.{ok}
use ice9_api.Host.{Host, UsbReply, bulk_out, log_call}
use ice9_api.Read.{ice9_read}
use ice9_api.Read.View.{view, payloads, AllReplies}
use ice9_api.Read.Packets.{IsPacket, payload, ice9_read_completes}
use ice9_api.Register.{ice9_read_words, ice9_write_data_to_address, ice9_read_data_from_address}
use ice9_api.Register.Writes.{IsSent, ice9_write_words_sends, write_data_to_address_sends}
use ice9_api.Register.RoundTrip.{IsIdle, stored_none}

-- A device answers with the packets `first` and then `last`, whose payloads are these bytes.
pub record AnswersWith (bytes : List ℕ) (first : List UsbReply) (last : UsbReply) : Type 0 where
  pub packets : AllReplies IsPacket first
  pub packet : IsPacket last
  pub not_empty : 0 < length (payload last)
  pub whole : payloads payload first ++ payload last ≡ bytes

-- A read of exactly the payloads of an answer.
ice9_read-answer :
    (bytes : List ℕ) (first : List UsbReply) (last : UsbReply) (rest : List UsbReply) (h : Host)
    → IsIdle h
    → AnswersWith bytes first last
    → (h' : Host) × (ice9_read (length bytes) (first ++ last ∷ rest) h ≡ done (ok, bytes) rest h')
      × IsIdle h'
ice9_read-answer bytes first last rest h idle a =
    let before : view payload first h ≡ payloads payload first =
      ap (λ q. q ++ payloads payload first) idle.empty in
    let size : length (payloads payload first) + length (payload last) ≡ length bytes =
      sym (length-append (payloads payload first) (payload last)) ∙ ap length a.whole in
    let size_before : length (view payload first h) ≡ length (payloads payload first) =
      ap length before in
    let (h', run, v', kept) =
      ice9_read_completes (length bytes) first last rest h idle.valid a.packets a.packet
        (omega (arith, a.not_empty)) (omega arith) in
    let k = length bytes - length (view payload first h) in
    let all : take k (payload last) ≡ payload last = take_all k (payload last) (omega arith) in
    (
      h',
      run ∙ ap (λ (read : List ℕ). done (ok, read) rest h') (rw (all, before) a.whole),
      record {
        valid = v';
        empty = kept ∙ stored_none k last (omega (arith, length-drop 2 last.bytes));
      },
    )

read_data_from_address-answer :
    (address : ℕ) (words : List ℕ) (ack : UsbReply) (first : List UsbReply) (last : UsbReply)
    (rest : List UsbReply) (h : Host)
    → AreWords words
    → IsSent 4 ack
    → IsIdle h
    → AnswersWith (words_to_bytes words) first last
    → (h' : Host) × (ice9_read_data_from_address address
          (length words)
          (ack ∷ (first ++ last ∷ rest))
          h
        ≡ done (ok, words) rest h')
      × IsIdle h'
unfolding ice9_read_data_from_address ice9_read_words
read_data_from_address-answer address words ack first last rest h fit sent idle a =
    let header = bit_or 0x0200 address ∷ length words ∷ [] in
    let request = ice9_write_words_sends header 2 ack (first ++ last ∷ rest) h (omega arith) sent in
    let h1 = log_call (bulk_out 0x02 (words_to_bytes header)) h in
    let (h', run, idle') =
      ice9_read-answer (words_to_bytes words) first last rest (record h1 { ecode = ok })
        (record { valid = idle.valid; empty = idle.empty }) a in
    let size = length-words_to_bytes words in
    let back = bytes_to_words-words_to_bytes words fit in (h', ground arith, idle')

-- Fewer than `2 ^ 16` words of 16 bits, written to an address below 256 by transfers that are sent
-- whole, and read back from a device that answers with the bytes that were sent behind the header,
-- in packets of any sizes: the write returns `OK`, the read returns `OK` with these words, and the
-- ring buffer, empty before the read, is empty after it.
pub data_round_trip :
    (address : ℕ) (words : List ℕ) (header body ack : UsbReply) (rs first : List UsbReply)
    (last : UsbReply) (rest : List UsbReply) (h k : Host)
    → address < 256
    → length words < 2 ^ 16
    → AreWords words
    → IsSent 4 header
    → IsSent (length words * 2) body
    → IsSent 4 ack
    → IsIdle k
    → AnswersWith (words_to_bytes words) first last
    → (h' k' : Host) × (ice9_write_data_to_address address words
          (length words)
          (header ∷ body ∷ rs)
          h
        ≡ done ok rs h')
      × (h'.calls
          ≡ h.calls
            ++ bulk_out 0x02 (address ∷ 3 ∷ length words % 256 ∷ length words / 256 ∷ [])
              ∷ bulk_out 0x02 (words_to_bytes words)
              ∷ [])
      × (ice9_read_data_from_address address (length words) (ack ∷ (first ++ last ∷ rest)) k
          ≡ done (ok, words) rest k')
      × IsIdle k'
data_round_trip address words header body ack rs first last rest h k ha hl fit sent_header sent_body
      sent_ack idle a =
    let (h', written, calls, same) =
      write_data_to_address_sends address (length words) words header body rs h ha hl (omega arith)
        sent_header sent_body in
    let (k', read, idle') =
      read_data_from_address-answer address words ack first last rest k fit sent_ack idle a in
    let all = take_all (length words) words (omega arith) in
    (h', k', written, rw all at calls, read, idle')
