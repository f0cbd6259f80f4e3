-- ===== src/Sram/Chunks.antt =====
-- The bitstream is sent in chunks, each one transfer.
use ice9_api.Prelude.{
  take-append-drop, take-append, take_all, ap₂, ◌%◌, ◌/◌, ℕ, zero, suc, ◌-◌, ◌*◌, ◌≤◌, ◌≡◌, ◌≢◌,
  refl, ◌∙◌, sym, ap, some, List, [], ◌∷◌, ◌++◌, length, take, drop, done, append_assoc, append-nil,
  length-take, length-drop, arith, ltb, ◌==◌, if◌then◌else◌,
}
use ice9_api.Ftdi.{FtdiCall, FtdiReply, Mpsse}
use ice9_api.Mpsse.Frames.{
  parse_transfer, parse_transfer-written, written, wrote, add_calls, transfer_calls, send_spi_sends,
}
use ice9_api.Sram.{send_chunks}

-- The size of the next chunk.
abbrev pub chunk_size : ℕ → ℕ
chunk_size bufsize = if ltb bufsize (16 * 1024) then bufsize else 16 * 1024

-- The replies to complete writes of all the chunks.
abbrev pub chunk_replies : (fuel bufsize : ℕ) → List FtdiReply
chunk_replies zero bufsize = []
chunk_replies (suc fuel) bufsize =
    let len = chunk_size bufsize in
    let rest = chunk_replies fuel (bufsize - len) in
    if bufsize == 0 then [] else wrote 1 ∷ wrote 1 ∷ wrote 1 ∷ wrote len ∷ rest

-- The engine reads all of what is written as transfers to the chip (0x11), none of more than 16384
-- bytes, and their data together are `sent`.
pub data Shifts : List ℕ → List ℕ → Type 0 where
  nothing : Shifts [] []
  transfer :
      (stream chunk rest sent : List ℕ)
      → parse_transfer stream ≡ some (0x11, chunk, rest)
      → length chunk ≤ 16384
      → Shifts rest sent
      → Shifts stream (chunk ++ sent)

pub written-transfer :
    (command n : ℕ) (bytes : List ℕ) (cs : List FtdiCall)
    → written (transfer_calls command n bytes ++ cs)
      ≡ written (transfer_calls command n bytes) ++ written cs
written-transfer command n bytes cs =
    ap (λ sent. command ∷ (n - 1) % 256 ∷ (n - 1) / 256 % 256 ∷ (sent ++ written cs))
      (sym (append-nil (take n bytes)))

pub take-split :
    (n len : ℕ) (xs : List ℕ)
    → len ≤ n
    → n ≤ length xs
    → take len xs ++ take (n - len) (drop len xs) ≡ take n xs
take-split n len xs le have =
    let size = length-take len xs in
    let e : n - length (take len xs) ≡ n - len = omega (arith, size) in
    sym (
      ap (take n) (sym (take-append-drop len xs))
      ∙ take-append n (take len xs) (drop len xs)
      ∙ ap₂ (λ front k. front ++ take k (drop len xs))
          (take_all n (take len xs) (omega (arith, size))) e)

pub chunk_size-bounds :
    (bufsize : ℕ)
    → bufsize ≢ 0
    → (chunk_size bufsize ≢ 0) × (chunk_size bufsize ≤ 16384) × (chunk_size bufsize ≤ bufsize)
chunk_size-bounds bufsize ne = (ground arith, ground arith, ground arith)

send_chunks_stop :
    (fuel : ℕ) (buf : List ℕ) (rs : List FtdiReply) (s : Mpsse)
    → send_chunks fuel buf 0 rs s ≡ done tt rs s
unfolding send_chunks
send_chunks_stop zero buf rs s = refl
send_chunks_stop (suc fuel) buf rs s = refl

chunk_replies_stop : (fuel : ℕ) → chunk_replies fuel 0 ≡ []
chunk_replies_stop zero = refl
chunk_replies_stop (suc fuel) = refl

send_chunks_step :
    (fuel bufsize : ℕ) (buf : List ℕ) (rs rs' : List FtdiReply) (s s' : Mpsse)
    → bufsize ≢ 0
    → let len = chunk_size bufsize in
      send_chunks fuel
          (drop len buf)
          (bufsize - len)
          (chunk_replies fuel (bufsize - len) ++ rs)
          (add_calls (transfer_calls 0x11 len buf) s)
        ≡ done tt rs' s'
      → send_chunks (suc fuel) buf bufsize (chunk_replies (suc fuel) bufsize ++ rs) s
        ≡ done tt rs' s'
unfolding send_chunks
send_chunks_step fuel bufsize buf rs rs' s s' ne e =
    let len = chunk_size bufsize in
    ground (
      arith,
      e,
      send_spi_sends buf len (chunk_replies fuel (bufsize - len) ++ rs) s
          (chunk_size-bounds bufsize ne).0,
    )

-- With complete writes, the loop of `ice9_flash_fpga_mem` ends, and what it has written the engine
-- reads as transfers to the chip of at most 16384 bytes each, whose data together are exactly the
-- first `bufsize` bytes of the bitstream, in order.
pub send_chunks-Shifts :
    (fuel bufsize : ℕ) (buf : List ℕ) (rs : List FtdiReply) (s : Mpsse)
    → bufsize ≤ fuel
    → bufsize ≤ length buf
    → (cs : List FtdiCall) × (send_chunks fuel buf bufsize (chunk_replies fuel bufsize ++ rs) s
        ≡ done tt rs (add_calls cs s))
      × Shifts (written cs) (take bufsize buf)
send_chunks-Shifts fuel zero buf rs s enough have =
    ([], rw (chunk_replies_stop fuel, append-nil s.calls) (send_chunks_stop fuel buf rs s), nothing)
send_chunks-Shifts zero (suc bufsize) buf rs s enough have = absurd (omega arith)
send_chunks-Shifts (suc fuel) (suc bufsize) buf rs s enough have =
    let len = chunk_size (suc bufsize) in
    let (ne, small, le) = chunk_size-bounds (suc bufsize) (omega arith) in
    let size = length-take len buf in
    let (cs, run, shifts) =
      send_chunks-Shifts fuel (suc bufsize - len) (drop len buf) rs
        (add_calls (transfer_calls 0x11 len buf) s) (omega arith)
        (omega (arith, length-drop len buf)) in
    (
      transfer_calls 0x11 len buf ++ cs,
      send_chunks_step fuel (suc bufsize) buf rs rs s _ (omega arith) run
          ∙ ap (λ calls. done tt rs (record s { calls = calls }))
              (append_assoc s.calls (transfer_calls 0x11 len buf) cs),
      rw (written-transfer 0x11 len buf cs, sym (take-split (suc bufsize) len buf le have))
          (transfer _ (take len buf) (written cs) _
            (parse_transfer-written 0x11 len buf (written cs) ne (omega (arith, small))
              (omega (arith, le, have)))
            (omega (arith, size, small)) shifts),
    )
