-- ===== src/Sram/File.antt =====
-- The bitstream from a file is sent read by read, each one transfer.
use ice9_api.Prelude.{
  concat, some, ℕ, ◌≤◌, ◌≡◌, ◌≢◌, ◌∙◌, sym, ap, List, [], ◌∷◌, ◌++◌, length, take_all, done,
  append_assoc, append-nil, arith,
}
use ice9_api.Ftdi.{FtdiCall, FtdiReply, Mpsse}
use ice9_api.Mpsse.Frames.{
  parse_transfer-written, written, wrote, add_calls, transfer_calls, send_spi_sends,
}
use ice9_api.Sram.{send_file}
use ice9_api.Sram.Chunks.{Shifts, nothing, transfer, written-transfer}

-- Each read gives from 1 to 16384 bytes, as those of a file do before its end.
abbrev pub AllFilled : List (List ℕ) → Type 0
AllFilled [] = Unit
AllFilled (buffer ∷ reads) = (length buffer ≢ 0) × (length buffer ≤ 16384) × AllFilled reads

-- The bytes of the file.
-- The replies to complete writes of all of it.
abbrev pub file_replies : List (List ℕ) → List FtdiReply
file_replies [] = []
file_replies (buffer ∷ reads) =
    wrote 1 ∷ wrote 1 ∷ wrote 1 ∷ wrote (length buffer) ∷ file_replies reads

send_file_step :
    (buffer : List ℕ) (reads : List (List ℕ)) (rs rs' : List FtdiReply) (s s' : Mpsse)
    → length buffer ≢ 0
    → send_file reads rs (add_calls (transfer_calls 0x11 (length buffer) buffer) s) ≡ done tt rs' s'
    → send_file (buffer ∷ reads) (wrote 1 ∷ wrote 1 ∷ wrote 1 ∷ wrote (length buffer) ∷ rs) s
      ≡ done tt rs' s'
unfolding send_file
send_file_step buffer reads rs rs' s s' ne e =
    ground (arith, e, send_spi_sends buffer (length buffer) rs s ne)

-- With complete writes, the loop of `ice9_flash_fpga` sends the whole file: what it writes the
-- engine reads as transfers to the chip of at most 16384 bytes each, whose data together are
-- exactly the contents of the file, in order.
pub send_file-Shifts :
    (reads : List (List ℕ)) (rs : List FtdiReply) (s : Mpsse)
    → AllFilled reads
    → (cs : List FtdiCall) × (send_file reads (file_replies reads ++ rs) s
        ≡ done tt rs (add_calls cs s))
      × Shifts (written cs) (concat reads)
unfolding send_file
send_file-Shifts [] rs s filled =
    ([], ap (λ calls. done tt rs (record s { calls = calls })) (sym (append-nil s.calls)), nothing)
send_file-Shifts (buffer ∷ reads) rs s filled =
    let n = length buffer in
    let (cs, run, shifts) =
      send_file-Shifts reads rs (add_calls (transfer_calls 0x11 n buffer) s) filled.2 in
    let parse =
      parse_transfer-written 0x11 n buffer (written cs) filled.0 (omega (arith, filled))
        (omega arith) in
    (
      transfer_calls 0x11 n buffer ++ cs,
      send_file_step buffer reads (file_replies reads ++ rs) rs s _ filled.0 run
          ∙ ap (λ calls. done tt rs (record s { calls = calls }))
              (append_assoc s.calls (transfer_calls 0x11 n buffer) cs),
      rw (written-transfer 0x11 n buffer cs) (
          transfer _ buffer (written cs) _
            (parse ∙ ap (λ l. some (0x11, l, written cs)) (take_all n buffer (omega arith)))
            (omega (arith, filled)) shifts),
    )
