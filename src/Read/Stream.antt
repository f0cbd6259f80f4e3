-- ===== src/Read/Stream.antt =====
-- `ice9_stream_read` loses no byte.
use ice9_api.Prelude.{
  ℕ, ◌-◌, ◌≤◌, ◌<◌, ◌%◌, ◌≡◌, ◌≢◌, List, [], ◌∷◌, ◌++◌, done, blocked, append-nil, length, take,
  drop, arith, length-drop, some, none, is_negative, true, false, Option-cases, inl, inr,
  Bool-cases, ltb, drop_all, take_all, ap, min, ◌∙◌, sym,
}
use ice9_api.Ring.{Ring, enqueue_to_read_buffer}
use ice9_api.Ring.Queue
use ice9_api.Ring.Contents.{IsValid, contents}
use ice9_api.Ring.Refine.{enqueue_refines}
use ice9_api.ErrorCode.{error}
use ice9_api.Host.{Host, UsbReply, bulk_in, log_call}
use ice9_api.Read.Short.{read_with-short}
use ice9_api.Read.{read_loop, with_ring, more, strip_status, stream_round, ice9_stream_read}
use ice9_api.Read.Strip.{strip_status-none, length-strip_status}
use ice9_api.Read.View.{Takes, Gives, view, AllReplies, IsValidHost, read_with-Gives}

-- A bulk transfer that succeeds, fits the buffer, and does not end in a packet of one byte.
pub record IsTransfer (r : UsbReply) : Type 0 where
  pub succeeds : is_negative r.ret ≡ false
  pub fits : length r.bytes ≤ 16384
  pub whole : length r.bytes % 512 ≢ 1

-- The bytes of a transfer without the status bytes.
abbrev pub stripped : UsbReply → List ℕ
stripped r = elim (strip_status r.bytes) [ none ↦ [] | some bytes ↦ bytes ]

-- What an empty ring keeps of bytes that it has space for.
pub enqueue_all :
    {r : Ring} (bytes : List ℕ)
    → IsValid r
    → contents r ≡ []
    → length bytes ≤ 16384
    → (n : ℕ) × (r' : Ring) × (enqueue_to_read_buffer r bytes (length bytes) ≡ some (n, r'))
      × IsValid r'
      × (contents r' ≡ bytes)
enqueue_all {r} bytes v empty le =
    let (r', queued, v', kept) = enqueue_refines bytes (length bytes) v (omega arith) in
    let space : length bytes ≤ min (length bytes) (Queue.capacity - length (contents r)) =
      rw empty (omega arith) in
    (_, r', queued, v', kept ∙ rw (empty) (take_all _ bytes (rw empty at space)))

-- The transfer is longer than what is wanted.
stream_round_over :
    (n : ℕ) (written bytes : List ℕ) (r : UsbReply) (h : Host) {k : ℕ} {ring : Ring}
    → IsTransfer r
    → 0 < n
    → n < length bytes
    → strip_status r.bytes ≡ some bytes
    → enqueue_to_read_buffer h.handle.ring (drop n bytes) (length (drop n bytes)) ≡ some (k, ring)
    → stream_round n written r h
      ≡ more (n - length bytes) (written ++ take n bytes) (with_ring h ring)
unfolding stream_round
stream_round_over n written bytes r h good pos over found queued =
    let size : length bytes - n ≡ length (drop n bytes) = omega (arith, length-drop n bytes) in
    ground (arith, good.succeeds, good.fits)

stream_round_under :
    (n : ℕ) (written bytes : List ℕ) (r : UsbReply) (h : Host)
    → IsTransfer r
    → 0 < n
    → length bytes ≤ n
    → strip_status r.bytes ≡ some bytes
    → stream_round n written r h ≡ more (n - length bytes) (written ++ take n bytes) h
unfolding stream_round
stream_round_under n written bytes r h good pos under found =
    ground (arith, good.succeeds, good.fits, take_all n bytes, take_all (length bytes) bytes)

stream_round_of :
    (n : ℕ) (written bytes : List ℕ) (r : UsbReply) (h : Host)
    → IsTransfer r
    → 0 < n
    → IsValidHost h
    → contents h.handle.ring ≡ []
    → strip_status r.bytes ≡ some bytes
    → Takes n written bytes (stream_round n written r h)
stream_round_of n written bytes r h good pos v empty found =
    elim (Bool-cases (ltb n (length bytes))) [
      | inl over ↦
          let small : length (drop n bytes) ≤ 16384 =
            omega
              (arith, length-strip_status r.bytes bytes found, length-drop n bytes, good.fits) in
          let (k, ring, queued, v', kept) = enqueue_all (drop n bytes) v empty small in
          (
            with_ring h ring,
            stream_round_over n written bytes r h good pos (ground arith) found queued,
            v',
            kept,
          )
      | inr under ↦
          let short : length bytes ≤ n = ground arith in
          (
            h,
            stream_round_under n written bytes r h good pos short found,
            v,
            empty ∙ sym (drop_all n bytes short),
          )
    ]

strip_status-stripped : (r : UsbReply) → IsTransfer r → strip_status r.bytes ≡ some (stripped r)
strip_status-stripped r good = elim (Option-cases (strip_status r.bytes)) [
  | inl missing ↦ absurd (good.whole ((strip_status-none r.bytes).0 missing))
  | inr (bytes, found) ↦ ground arith
]

stream_round-Takes :
    (n : ℕ) (written : List ℕ) (r : UsbReply) (h : Host)
    → IsTransfer r
    → 0 < n
    → IsValidHost h
    → contents h.handle.ring ≡ []
    → Takes n written (stripped r) (stream_round n written r h)
stream_round-Takes n written r h good pos v empty =
    stream_round_of n written (stripped r) r h good pos v empty (strip_status-stripped r good)

-- Reading `n` bytes of a stream that has them: `ice9_stream_read` returns `OK` with the first `n`
-- bytes of the ring buffer and the stripped transfers, in order, and the other bytes stay to be
-- read, none lost and none twice, for any transfers that succeed, fit the buffer and do not end in
-- a packet of one byte.
pub ice9_stream_read-Gives :
    (n : ℕ) (rs : List UsbReply) (h : Host)
    → IsValidHost h
    → AllReplies IsTransfer rs
    → n ≤ length (view stripped rs h)
    → Gives stripped IsTransfer n [] (view stripped rs h) (ice9_stream_read n rs h)
unfolding ice9_stream_read
ice9_stream_read-Gives = read_with-Gives stream_round 16384 stripped IsTransfer stream_round-Takes

stream_round_absorbs :
    (n : ℕ) (written : List ℕ) (r : UsbReply) (h : Host)
    → IsTransfer r
    → 0 < n
    → length (stripped r) ≤ n
    → stream_round n written r h ≡ more (n - length (stripped r)) (written ++ stripped r) h
stream_round_absorbs n written r h good pos le =
    stream_round_under n written (stripped r) r h good pos le (strip_status-stripped r good)
    ∙ ap (λ bytes. more (n - length (stripped r)) (written ++ bytes) h) (take_all n (stripped r) le)

last_fails :
    (n : ℕ) (written : List ℕ) (failure : UsbReply) (rest : List UsbReply) (h : Host)
    → 0 < n
    → is_negative failure.ret ≡ true
    → read_loop stream_round 16384 n written (failure ∷ rest) h
      ≡ done (error, written) rest (log_call (bulk_in 0x81 16384) h)
unfolding read_loop stream_round
last_fails n written failure rest h pos bad = ground arith

last_waits :
    (n : ℕ) (written : List ℕ) (h : Host)
    → 0 < n
    → read_loop stream_round 16384 n written [] h ≡ blocked (log_call (bulk_in 0x81 16384) h)
unfolding read_loop
last_waits n written h pos = ground arith

module _ (n : ℕ) (rs : List UsbReply) (h : Host) (v : IsValidHost h)
    (good : AllReplies IsTransfer rs) (short : length (view stripped rs h) < n) where
  -- The transfers bring fewer than `n` bytes and the next one fails: `ice9_stream_read` returns
  -- `Error`, with the bytes so far written to the caller's buffer, and leaves an empty, valid ring
  -- buffer and the replies behind the failure.
  pub ice9_stream_read_fails :
      (failure : UsbReply) (rest : List UsbReply)
      → is_negative failure.ret ≡ true
      → (h' : Host) × (ice9_stream_read n (rs ++ failure ∷ rest) h
          ≡ done (error, view stripped rs h) rest h')
        × IsValidHost h'
        × (contents h'.handle.ring ≡ [])
  unfolding ice9_stream_read
  ice9_stream_read_fails failure rest bad =
      let (h', run, v', empty) =
        read_with-short stream_round 16384 stripped IsTransfer stream_round_absorbs n rs
          (failure ∷ rest) h v good short in
      (
        log_call (bulk_in 0x81 16384) h',
        run
            ∙ last_fails (n - length (view stripped rs h)) (view stripped rs h) failure rest h'
                (omega arith) bad,
        v',
        empty,
      )

  -- The transfers bring fewer than `n` bytes and no other comes: `ice9_stream_read` does not
  -- return.
  pub ice9_stream_read_waits : (h' : Host) × (ice9_stream_read n rs h ≡ blocked h')
  unfolding ice9_stream_read
  ice9_stream_read_waits =
      let (h', run, v', empty) =
        read_with-short stream_round 16384 stripped IsTransfer stream_round_absorbs n rs [] h v good
          short in
      (
        log_call (bulk_in 0x81 16384) h',
        ap (λ replies. ice9_stream_read n replies h) (sym (append-nil rs))
            ∙ run
            ∙ last_waits (n - length (view stripped rs h)) (view stripped rs h) h' (omega arith),
      )
