-- ===== src/Sram/Parts.antt =====
-- The loops that send a bitstream, as scripts.
use ice9_api.Prelude.{
  concat, ◌%◌, ◌/◌, ℕ, zero, suc, ◌-◌, ◌≤◌, ◌≡◌, ◌≢◌, refl, ◌∙◌, sym, ap, false, List, [], ◌∷◌,
  ◌++◌, length, take, drop, take_all, length-take, length-drop, done, pure, arith, ◌==◌,
}
use ice9_api.Ftdi.{write_data}
use ice9_api.Mpsse.{mpsse_send_spi}
use ice9_api.Mpsse.Frames.{add_calls, wrote, send_spi_sends, transfer_calls}
use ice9_api.Sram.Chunks.{chunk_size, chunk_size-bounds, take-split}
use ice9_api.Sram.File.{AllFilled}
use ice9_api.Sram.{send_chunks, send_file}
use ice9_api.Sram.Script.{Action, send, Plays, Plays-then, Plays-nil, Plays-send}

-- The bitstream as it is sent: each part by itself.
abbrev pub sends : List (List ℕ) → List Action
sends [] = []
sends (part ∷ parts) = send part ∷ sends parts

Plays-send_part :
    (buf : List ℕ) (len : ℕ)
    → len ≢ 0
    → len ≤ length buf
    → Plays (mpsse_send_spi buf len) (send (take len buf) ∷ []) (pure tt)
Plays-send_part buf len ne have =
    let size : length (take len buf) ≡ len = omega (arith, length-take len buf) in
    let same : take len (take len buf) ≡ take len buf =
      take_all len (take len buf) (omega (arith, size)) in
    record {
      runs = λ rs s.
          ap (λ n. mpsse_send_spi buf len (wrote 1 ∷ wrote 1 ∷ wrote 1 ∷ wrote n ∷ rs) s) size
          ∙ send_spi_sends buf len rs s ne
          ∙ ap (λ cs. done tt rs (add_calls cs s))
              (ap
                  (λ sent.
                    write_data (0x11 ∷ [])
                    ∷ write_data ((len - 1) % 256 ∷ [])
                    ∷ write_data ((len - 1) / 256 % 256 ∷ [])
                    ∷ write_data sent
                    ∷ [])
                  (sym same)
                ∙ ap (λ n. transfer_calls 0x11 n (take len buf)) (sym size));
    }

-- The parts of a bitstream in memory.
abbrev pub parts_of : (fuel : ℕ) → List ℕ → ℕ → List (List ℕ)
parts_of zero buf bufsize = []
parts_of (suc fuel) buf zero = []
parts_of (suc fuel) buf (suc k) =
    let len = chunk_size (suc k) in take len buf ∷ parts_of fuel (drop len buf) (suc k - len)

pub Plays-send_chunks :
    (fuel bufsize : ℕ) (buf : List ℕ)
    → bufsize ≤ fuel
    → bufsize ≤ length buf
    → Plays (send_chunks fuel buf bufsize) (sends (parts_of fuel buf bufsize)) (pure tt)
unfolding send_chunks
Plays-send_chunks zero zero buf enough have = Plays-nil (pure tt)
Plays-send_chunks zero (suc bufsize) buf enough have = absurd (omega arith)
Plays-send_chunks (suc fuel) zero buf enough have = Plays-nil (pure tt)
Plays-send_chunks (suc fuel) (suc bufsize) buf enough have =
    let (ne, small, le) = chunk_size-bounds (suc bufsize) (omega arith) in
    let len = chunk_size (suc bufsize) in
    let goes_on : suc bufsize == 0 ≡ false = ground arith in
    rw goes_on (
      Plays-then (Plays-send_part buf len ne (omega (arith, le, have))) (
        Plays-send_chunks fuel (suc bufsize - len) (drop len buf) (omega (arith, ne, le))
          (omega (arith, length-drop len buf))))

pub concat-parts_of :
    (fuel bufsize : ℕ) (buf : List ℕ)
    → bufsize ≤ fuel
    → bufsize ≤ length buf
    → (concat (parts_of fuel buf bufsize) ≡ take bufsize buf)
      × AllFilled (parts_of fuel buf bufsize)
concat-parts_of zero zero buf enough have = (refl, tt)
concat-parts_of (suc fuel) zero buf enough have = (refl, tt)
concat-parts_of zero (suc bufsize) buf enough have = absurd (omega arith)
concat-parts_of (suc fuel) (suc bufsize) buf enough have =
    let (ne, small, le) = chunk_size-bounds (suc bufsize) (omega arith) in
    let len = chunk_size (suc bufsize) in
    let (same, filled) =
      concat-parts_of fuel (suc bufsize - len) (drop len buf) (omega (arith, ne, le))
        (omega (arith, length-drop len buf)) in
    let size : length (take len buf) ≡ len = omega (arith, length-take len buf, le) in
    (
      ap (λ rest. take len buf ++ rest) same ∙ take-split (suc bufsize) len buf le have,
      (λ z. ne (sym size ∙ z), omega (arith, size, small), filled),
    )

pub Plays-send_file :
    (reads : List (List ℕ)) → AllFilled reads → Plays (send_file reads) (sends reads) (pure tt)
unfolding send_file
Plays-send_file [] h = Plays-nil (pure tt)
Plays-send_file (buffer ∷ reads) h =
    let goes_on : length buffer == 0 ≡ false = ground (arith, h.0) in
    rw goes_on (Plays-then (Plays-send buffer h.0) (Plays-send_file reads h.2))
