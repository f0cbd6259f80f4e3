-- ===== src/Read.antt =====
-- The reading functions of ice9.c: `ice9_read` and `ice9_stream_read`.
mod Tests
pub mod Strip
pub mod View
pub mod Stream
pub mod Short
pub mod Packets
pub mod Sequence
pub mod Keeps
pub mod Fills
use ice9_api.Prelude.{
  ℕ, suc, zero, ◌+◌, ◌-◌, Bool, true, false, ◌&&◌, not, Option, none, some, List, [], ◌∷◌, ◌++◌,
  length, take, drop, is_negative, done, blocked, fault, pure, ◌>>=◌, ◌>>◌, ltb, leb, ◌==◌,
  if◌then◌else◌, min_of,
}
use ice9_api.ErrorCode.{Ice9Error, ok, error}
use ice9_api.Ring.{Ring, drain_from_read_buffer, enqueue_to_read_buffer}
use ice9_api.Host.{Handle, Host, UsbReply, bulk_in, Api, log_call, set_handle}

-- A C function that returns an error code, and writes through a pointer.
abbrev pub Reads : Type 0
Reads = Api (Ice9Error × List ℕ)

abbrev with_ring : Host → Ring → Host
with_ring h r = record h { handle = record h.handle { ring = r } }

-- One round of the loop of a read: it goes on with the bytes still wanted, those written to the
-- caller's buffer, and the state; it returns `Error`; or it does what C leaves undefined.
pub data Round : Type 0 where
  more : ℕ → List ℕ → Host → Round
  failed undefined : Round

-- The bytes left over in `src` go to the ring buffer.
abbrev stash : Host → ℕ → List ℕ → List ℕ → ℕ → Round
stash h num_bytes written src leftover = elim (enqueue_to_read_buffer h.handle.ring src leftover) [
  | none ↦ undefined
  | some (_, r) ↦ more num_bytes written (with_ring h r)
]

-- `while (num_bytes > 0)` with a bulk transfer of at most `size` bytes from endpoint 0x81 at the
-- head of each round.
pub read_loop : (ℕ → List ℕ → UsbReply → Host → Round) → ℕ → ℕ → List ℕ → Reads
read_loop round size num_bytes written [] h =
    if num_bytes == 0 then done (ok, written) [] h else blocked (log_call (bulk_in 0x81 size) h)
read_loop round size num_bytes written (reply ∷ rs) h = elim (num_bytes == 0) [
  | true ↦ done (ok, written) (reply ∷ rs) h
  | false ↦ elim (round num_bytes written reply (log_call (bulk_in 0x81 size) h)) [
    | more num_bytes' written' h' ↦ read_loop round size num_bytes' written' rs h'
    | failed ↦ done (error, written) rs (log_call (bulk_in 0x81 size) h)
    | undefined ↦ fault
  ]
]

-- Both functions first take what the ring buffer holds.
pub read_with : (ℕ → List ℕ → UsbReply → Host → Round) → ℕ → ℕ → Reads
unfolding read_loop
read_with round size num_bytes rs h = elim (drain_from_read_buffer h.handle.ring num_bytes) [
  | none ↦ fault
  | some (from_cache, written, r) ↦
      read_loop round size (num_bytes - from_cache) written rs (with_ring h r)
]

-- A round of `ice9_read`. A transfer of more bytes than the buffer holds is undefined.
pub read_round : ℕ → List ℕ → UsbReply → Host → Round
read_round num_bytes written reply h =
    let bytes_read = length reply.bytes in
    let pass_through = min_of num_bytes (bytes_read - 2) in
    let leftover = bytes_read - 2 - pass_through in
    let written' = written ++ take pass_through (drop 2 reply.bytes) in
    let num_bytes' = num_bytes - pass_through in
    if is_negative reply.ret
    then failed
    else if ltb 512 bytes_read
    then undefined
    else if not (ltb 2 bytes_read)
    then more num_bytes written h
    else if num_bytes' == 0 && ltb 0 leftover
    then stash h num_bytes' written' (drop pass_through reply.bytes) leftover
    else more num_bytes' written' h

pub ice9_read : ℕ → Reads
unfolding read_with
ice9_read = read_with read_round 512

-- The bytes written before those of a later round, unless that is undefined.
abbrev put_front : List ℕ → Option (List ℕ) → Option (List ℕ)
put_front xs none = none
put_front xs (some ys) = some (xs ++ ys)

-- The loop that strips the two status bytes of each packet of at most 512 bytes, on the bytes not
-- yet read; each round takes two bytes or more, so `fuel` is at least their number. A packet of
-- one byte has the length -1 copied, which is undefined.
strip_loop : ℕ → List ℕ → Option (List ℕ)
strip_loop fuel [] = some []
strip_loop zero (a ∷ rest) = none
strip_loop (suc fuel) (a ∷ []) = none
strip_loop (suc fuel) (a ∷ b ∷ rest) =
    let to_copy = min_of 510 (length rest) in
    put_front (take to_copy rest) (strip_loop fuel (drop to_copy rest))

pub strip_status : List ℕ → Option (List ℕ)
unfolding strip_loop
strip_status bytes = strip_loop (length bytes) bytes

-- A round of `ice9_stream_read`.
pub stream_round : ℕ → List ℕ → UsbReply → Host → Round
stream_round num_bytes written reply h =
    if is_negative reply.ret
    then failed
    else if ltb 16384 (length reply.bytes)
    then undefined
    else elim (strip_status reply.bytes) [
      | none ↦ undefined
      | some stripped ↦
          let valid_read = length stripped in
          let pass_through =
            if ltb 0 valid_read && ltb 0 num_bytes then min_of num_bytes valid_read else 0 in
          let num_bytes' = num_bytes - pass_through in
          let valid_read' = valid_read - pass_through in
          let written' = written ++ take pass_through stripped in
          if num_bytes' == 0 && not (valid_read' == 0)
          then stash h num_bytes' written' (drop pass_through stripped) valid_read'
          else more num_bytes' written' h
    ]

pub ice9_stream_read : ℕ → Reads
unfolding read_with
ice9_stream_read = read_with stream_round 16384
