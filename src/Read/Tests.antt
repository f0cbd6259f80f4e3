-- ===== src/Read/Tests.antt =====
-- Tests and witnesses for the reading functions.
use ice9_api.Prelude.{
  ℕ, ◌≡◌, refl, true, ◌≢◌, ◌↔◌, ◌%◌, none, List, [], ◌∷◌, ◌++◌, arith, pos, negsuc, done,
}
use ice9_api.ErrorCode.{ok, error}
use ice9_api.Ring.{Ring, ring_buffer_size, bytes_in_read_buffer}
use ice9_api.Ring.Contents.{IsValid, contents}
use ice9_api.Host.{Stream, Host, UsbReply}
use ice9_api.Read.{strip_status, ice9_read, ice9_stream_read}
use ice9_api.Read.Strip.{Packet, strip_status-none}
use ice9_api.Read.View.{Gives, AllReplies}
use ice9_api.Read.Stream.{IsTransfer, stripped, ice9_stream_read-Gives, ice9_stream_read_fails}
use ice9_api.Read.Fills.{Fills, reads-Fills}
use ice9_api.Read.Sequence.{read_all, read_all-Gives}
use ice9_api.Read.Packets.{IsPacket, ice9_read_completes, ice9_read_misplaces}

-- A ring buffer with the bytes 5 and 6.
abbrev ring : Ring
ring = record {
  read_buffer = λ i. i;
  read_buffer_size = ring_buffer_size;
  read_buffer_head = 7;
  read_buffer_tail = 5;
}

abbrev stream : Stream
stream = record {
  stream_bytes_to_read = 0;
  stream_bytes_read_so_far = 0;
  stream_data = λ i. 0;
  extra_data_buffer = λ i. 0;
  extra_data_read_pointer = 0;
  extra_data_bytes = 0;
}

abbrev host : Host
host = record {
  handle = record { device = true; ring = ring; stream = stream };
  ecode = ok;
  calls = [];
}

abbrev transfer : List ℕ → UsbReply
transfer bytes = record { ret = pos 0; bytes = bytes; actual_length = 0 }

abbrev broken : UsbReply
broken = record { ret = negsuc 3; bytes = []; actual_length = 0 }

-- A packet with only status bytes, then one with a payload of four bytes.
abbrev replies : List UsbReply
replies = transfer (1 ∷ 96 ∷ []) ∷ transfer (1 ∷ 96 ∷ 10 ∷ 11 ∷ 12 ∷ 13 ∷ []) ∷ []

host-IsValid : IsValid ring
host-IsValid = omega arith

short_packet : Packet
short_packet = record { modem_status = 1; line_status = 96; payload = 10 ∷ 11 ∷ [] }

strip_status-none_example : (strip_status (7 ∷ []) ≡ none) ↔ (1 % 512 ≡ 1)
strip_status-none_example = strip_status-none (7 ∷ [])

replies-AllReplies : AllReplies IsTransfer replies
replies-AllReplies = (
  record { succeeds = refl; fits = omega arith; whole = omega arith },
  (record { succeeds = refl; fits = omega arith; whole = omega arith }, tt),
)

packets-AllReplies : AllReplies IsPacket (transfer (1 ∷ 96 ∷ []) ∷ [])
packets-AllReplies = (record { succeeds = refl; fits = omega arith }, tt)

full-IsPacket : IsPacket (transfer (1 ∷ 96 ∷ 10 ∷ 11 ∷ 12 ∷ 13 ∷ []))
full-IsPacket = record { succeeds = refl; fits = omega arith }

ice9_stream_read-Gives_example :
    Gives stripped IsTransfer 4 []
      (5 ∷ 6 ∷ 10 ∷ 11 ∷ 12 ∷ 13 ∷ [])
      (ice9_stream_read 4 replies host)
unfolding bytes_in_read_buffer strip_status
ice9_stream_read-Gives_example =
    ice9_stream_read-Gives 4 replies host host-IsValid replies-AllReplies (omega arith)

ice9_stream_read_fails_example :
    (h' : Host) × (ice9_stream_read 9 (replies ++ broken ∷ []) host
      ≡ done (error, 5 ∷ 6 ∷ 10 ∷ 11 ∷ 12 ∷ 13 ∷ []) [] h')
    × IsValid h'.handle.ring
    × (contents h'.handle.ring ≡ [])
unfolding bytes_in_read_buffer strip_status
ice9_stream_read_fails_example =
    ice9_stream_read_fails 9 replies host host-IsValid replies-AllReplies (omega arith) broken []
      refl

-- Three bytes: two from the ring buffer, and 10. What is left should be 11, 12, 13.
ice9_read_completes_example :
    (h' : Host) × (ice9_read 3 replies host ≡ done (ok, 5 ∷ 6 ∷ 10 ∷ []) [] h')
    × IsValid h'.handle.ring
    × (contents h'.handle.ring ≡ 96 ∷ 10 ∷ 11 ∷ [])
unfolding bytes_in_read_buffer
ice9_read_completes_example =
    ice9_read_completes 3 (transfer (1 ∷ 96 ∷ []) ∷ []) (transfer (1 ∷ 96 ∷ 10 ∷ 11 ∷ 12 ∷ 13 ∷ []))
      [] host host-IsValid packets-AllReplies full-IsPacket (omega arith) (omega arith)

ice9_read_misplaces_example :
    (h' : Host) × (ice9_read 3 replies host ≡ done (ok, 5 ∷ 6 ∷ 10 ∷ []) [] h')
    × (contents h'.handle.ring ≢ 11 ∷ 12 ∷ 13 ∷ [])
unfolding bytes_in_read_buffer
ice9_read_misplaces_example =
    ice9_read_misplaces 3 (transfer (1 ∷ 96 ∷ []) ∷ []) (transfer (1 ∷ 96 ∷ 10 ∷ 11 ∷ 12 ∷ 13 ∷ []))
      [] host host-IsValid packets-AllReplies full-IsPacket (omega arith) (omega arith)
      (omega arith) (omega arith)

read_all-Gives_example :
    Gives stripped IsTransfer 5 []
      (5 ∷ 6 ∷ 10 ∷ 11 ∷ 12 ∷ 13 ∷ [])
      (read_all (1 ∷ 3 ∷ 0 ∷ 1 ∷ []) replies host)
unfolding bytes_in_read_buffer strip_status
read_all-Gives_example =
    read_all-Gives (1 ∷ 3 ∷ 0 ∷ 1 ∷ []) replies host host-IsValid replies-AllReplies (omega arith)

-- The second transfer fails.
reads-Fills_example :
    Fills 4 (ice9_read 4 (transfer (1 ∷ 96 ∷ 10 ∷ []) ∷ broken ∷ []) host)
    × Fills 4 (ice9_stream_read 4 (transfer (1 ∷ 96 ∷ 10 ∷ []) ∷ broken ∷ []) host)
reads-Fills_example = reads-Fills 4 (transfer (1 ∷ 96 ∷ 10 ∷ []) ∷ broken ∷ []) host host-IsValid
