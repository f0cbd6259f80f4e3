-- ===== src/Mpsse/Frames.antt =====
-- What mpsse.c sends to the engine, read by the format that its comments give: a command byte,
-- the number of the data bytes less 1 with its lower byte first, and the data.
use ice9_api.Prelude.{
  replicate, ℕ, zero, suc, ◌+◌, ◌-◌, ◌*◌, ◌/◌, ◌%◌, ◌≤◌, ◌≡◌, ◌≢◌, refl, ◌∙◌, sym, ap, ap₂, false,
  Option, none, some, List, [], ◌∷◌, ◌++◌, length, take, drop, done, append_assoc, append-nil,
  length-take, arith, pos, is_pos,
}
use ice9_api.Ftdi.{FtdiCall, FtdiReply, Mpsse, write_data, read_data, usleep, log_call}
use ice9_api.Mpsse.{
  mpsse_readb_low, mpsse_set_gpio, mpsse_error, mpsse_send_byte, mpsse_send_spi, mpsse_recv_byte,
  recv_bytes, mpsse_xfer_spi,
}

-- The engine's reading of one transfer of bytes: the command, the data, and what follows.
abbrev pub parse_transfer : List ℕ → Option (ℕ × List ℕ × List ℕ)
parse_transfer (command ∷ lower ∷ upper ∷ rest) =
    let size = lower + upper * 256 + 1 in some (command, take size rest, drop size rest)
parse_transfer _ = none

-- All the bytes that calls write.
abbrev pub written : List FtdiCall → List ℕ
written [] = []
written (write_data bytes ∷ cs) = bytes ++ written cs
written (_ ∷ cs) = written cs

-- The reply to a write of `n` bytes that are all written.
abbrev pub wrote : ℕ → FtdiReply
wrote n = record { ret = pos n; byte = 0 }

abbrev pub add_calls : List FtdiCall → Mpsse → Mpsse
add_calls cs s = record s { calls = s.calls ++ cs }

-- The writes of a transfer of `n` bytes.
abbrev pub transfer_calls : ℕ → ℕ → List ℕ → List FtdiCall
transfer_calls command n bytes =
    write_data (command ∷ [])
    ∷ write_data ((n - 1) % 256 ∷ [])
    ∷ write_data ((n - 1) / 256 % 256 ∷ [])
    ∷ write_data (take n bytes)
    ∷ []

take_exactly : (xs ys : List ℕ) → take (length xs) (xs ++ ys) ≡ xs
take_exactly [] ys = refl
take_exactly (x ∷ xs) ys = ap (λ l. x ∷ l) (take_exactly xs ys)

drop_exactly : (xs ys : List ℕ) → drop (length xs) (xs ++ ys) ≡ ys
drop_exactly [] ys = refl
drop_exactly (x ∷ xs) ys = drop_exactly xs ys

pub parse_transfer-written :
    (command n : ℕ) (bytes follows : List ℕ)
    → n ≢ 0
    → n ≤ 65536
    → n ≤ length bytes
    → parse_transfer (written (transfer_calls command n bytes) ++ follows)
      ≡ some (command, take n bytes, follows)
parse_transfer-written command n bytes follows ne small have =
    let size : (n - 1) % 256 + (n - 1) / 256 % 256 * 256 + 1 ≡ n = omega (arith, ne, small) in
    let long = length-take n bytes in
    let all : (n - 1) % 256 + (n - 1) / 256 % 256 * 256 + 1 ≡ length (take n bytes) =
      omega (arith, size, long, have) in
    rw (append-nil (take n bytes), all)
      (ap₂ (λ sent rest. some (command, sent, rest)) (take_exactly (take n bytes) follows)
        (drop_exactly (take n bytes) follows))

pub send_spi_sends :
    (bytes : List ℕ) (n : ℕ) (rs : List FtdiReply) (s : Mpsse)
    → n ≢ 0
    → mpsse_send_spi bytes n (wrote 1 ∷ wrote 1 ∷ wrote 1 ∷ wrote n ∷ rs) s
      ≡ done tt rs (add_calls (transfer_calls 0x11 n bytes) s)
unfolding mpsse_send_spi mpsse_send_byte
send_spi_sends bytes n rs s ne = grind (arith, append_assoc {A = FtdiCall})

pub set_gpio_sends :
    (gpio direction : ℕ) (rs : List FtdiReply) (s : Mpsse)
    → mpsse_set_gpio gpio direction (wrote 1 ∷ wrote 1 ∷ wrote 1 ∷ rs) s
      ≡ done tt rs (
          add_calls
            (write_data (0x80 ∷ []) ∷ write_data (gpio ∷ []) ∷ write_data (direction ∷ []) ∷ [])
            s)
unfolding mpsse_set_gpio mpsse_send_byte
set_gpio_sends gpio direction rs s = simp append_assoc

-- A transfer to the chip of 1 to 65536 bytes, with each write complete, makes four writes, and the
-- engine reads them as the command to shift out (0x11) with exactly the first `n` bytes, whatever
-- is sent after them.
pub mpsse_send_spi-parse :
    (bytes : List ℕ) (n : ℕ) (rs : List FtdiReply) (s : Mpsse) (follows : List ℕ)
    → n ≢ 0
    → n ≤ 65536
    → n ≤ length bytes
    → (cs : List FtdiCall) × (mpsse_send_spi bytes n (wrote 1 ∷ wrote 1 ∷ wrote 1 ∷ wrote n ∷ rs) s
        ≡ done tt rs (add_calls cs s))
      × (parse_transfer (written cs ++ follows) ≡ some (0x11, take n bytes, follows))
mpsse_send_spi-parse bytes n rs s follows ne small have = (
  transfer_calls 0x11 n bytes,
  send_spi_sends bytes n rs s ne,
  parse_transfer-written 0x11 n bytes follows ne small have,
)

-- The replies to reads that each give one of these bytes.
abbrev pub give : List ℕ → List FtdiReply
give [] = []
give (b ∷ bs) = record { ret = pos 1; byte = b } ∷ give bs

-- Each of these reads asks for one byte.
abbrev pub reads : List ℕ → List FtdiCall
reads [] = []
reads (b ∷ bs) = read_data 1 ∷ reads bs

recv_bytes_step :
    (b n : ℕ) (bs : List ℕ) (rs rs' : List FtdiReply) (s s' : Mpsse)
    → recv_bytes n rs (log_call (read_data 1) s) ≡ done bs rs' s'
    → recv_bytes (suc n) (record { ret = pos 1; byte = b } ∷ rs) s ≡ done (b ∷ bs) rs' s'
unfolding recv_bytes mpsse_recv_byte
recv_bytes_step b n bs rs rs' s s' e = ground (arith, e)

pub recv_bytes-give :
    (answer : List ℕ) (rs : List FtdiReply) (s : Mpsse)
    → recv_bytes (length answer) (give answer ++ rs) s ≡ done answer rs (add_calls (reads answer) s)
unfolding recv_bytes mpsse_recv_byte
recv_bytes-give [] rs s =
    ap (λ calls. done [] rs (record s { calls = calls })) (sym (append-nil s.calls))
recv_bytes-give (b ∷ answer) rs s =
    recv_bytes_step b (length answer) answer (give answer ++ rs) rs s _
      (recv_bytes-give answer rs (log_call (read_data 1) s))
    ∙ ap (λ calls. done (b ∷ answer) rs (record s { calls = calls }))
        (append_assoc s.calls (read_data 1 ∷ []) (reads answer))

xfer_spi_steps :
    (bytes answer : List ℕ) (n : ℕ) (replies rs : List FtdiReply) (s s' : Mpsse)
    → n ≢ 0
    → recv_bytes n replies (add_calls (transfer_calls 0x31 n bytes) s) ≡ done answer rs s'
    → mpsse_xfer_spi bytes n (wrote 1 ∷ wrote 1 ∷ wrote 1 ∷ wrote n ∷ replies) s
      ≡ done (answer ++ drop n bytes) rs s'
unfolding mpsse_xfer_spi mpsse_send_byte
xfer_spi_steps bytes answer n replies rs s s' ne e = grind (arith, e, append_assoc {A = FtdiCall})

pub xfer_spi_sends :
    (bytes answer : List ℕ) (rs : List FtdiReply) (s : Mpsse)
    → length answer ≢ 0
    → let n = length answer in
      mpsse_xfer_spi bytes n (wrote 1 ∷ wrote 1 ∷ wrote 1 ∷ wrote n ∷ (give answer ++ rs)) s
      ≡ done
          (answer ++ drop n bytes)
          rs
          (add_calls (reads answer) (add_calls (transfer_calls 0x31 n bytes) s))
xfer_spi_sends bytes answer rs s ne =
    let n = length answer in
    xfer_spi_steps bytes answer n (give answer ++ rs) rs s _ ne
      (recv_bytes-give answer rs (add_calls (transfer_calls 0x31 n bytes) s))

pub readb_low_sends :
    (low : ℕ) (rs : List FtdiReply) (s : Mpsse)
    → mpsse_readb_low (wrote 1 ∷ (give (low ∷ []) ++ rs)) s
      ≡ done low rs (add_calls (write_data (0x81 ∷ []) ∷ reads (low ∷ [])) s)
unfolding mpsse_readb_low mpsse_send_byte mpsse_recv_byte
readb_low_sends low rs s = simp append_assoc

-- A transfer in both directions of 1 to 65536 bytes, with each write complete and `n` bytes of
-- answer, replaces the first `n` bytes of the caller's by the answer, in order; the engine reads
-- what is written as the command to shift out and in (0x31) with exactly the first `n` bytes; and
-- each byte of the answer is read after all the writes.
pub mpsse_xfer_spi-parse :
    (bytes answer : List ℕ) (rs : List FtdiReply) (s : Mpsse) (follows : List ℕ)
    → length answer ≢ 0
    → length answer ≤ 65536
    → length answer ≤ length bytes
    → let n = length answer in
      (cs : List FtdiCall) × (mpsse_xfer_spi bytes n
          (wrote 1 ∷ wrote 1 ∷ wrote 1 ∷ wrote n ∷ (give answer ++ rs))
          s
        ≡ done (answer ++ drop n bytes) rs (add_calls (reads answer) (add_calls cs s)))
      × (parse_transfer (written cs ++ follows) ≡ some (0x31, take n bytes, follows))
mpsse_xfer_spi-parse bytes answer rs s follows ne small have =
    let n = length answer in
    (
      transfer_calls 0x31 n bytes,
      xfer_spi_sends bytes answer rs s ne,
      parse_transfer-written 0x31 n bytes follows ne small have,
    )

-- The calls of a wait for a byte that comes after `k` empty reads.
abbrev pub polls : ℕ → List FtdiCall
polls zero = read_data 1 ∷ []
polls (suc k) = read_data 1 ∷ usleep 100 ∷ polls k

-- `mpsse_recv_byte` waits: it reads again after each read that gives nothing, with a sleep
-- between, however many these are, and returns the first byte that comes.
pub recv_byte_waits :
    (k byte : ℕ) (rs : List FtdiReply) (s : Mpsse)
    → mpsse_recv_byte (replicate k (wrote 0) ++ record { ret = pos 1; byte = byte } ∷ rs) s
      ≡ done byte rs (add_calls (polls k) s)
unfolding mpsse_recv_byte
recv_byte_waits zero byte rs s = refl
recv_byte_waits (suc k) byte rs s =
    recv_byte_waits k byte rs (log_call (usleep 100) (log_call (read_data 1) s))
    ∙ ap (λ calls. done byte rs (record s { calls = calls }))
        (append_assoc (s.calls ++ read_data 1 ∷ []) (usleep 100 ∷ []) (polls k)
          ∙ append_assoc s.calls (read_data 1 ∷ []) (usleep 100 ∷ polls k))

-- A write of one byte that is not complete does not return: `mpsse_error` takes over at once, with
-- status 2.
pub send_byte_fails :
    (byte : ℕ) (r : FtdiReply) (rs : List FtdiReply) (s : Mpsse)
    → is_pos r.ret 1 ≡ false
    → mpsse_send_byte byte (r ∷ rs) s ≡ mpsse_error 2 rs (log_call (write_data (byte ∷ [])) s)
unfolding mpsse_send_byte
send_byte_fails byte r rs s e = ground arith
