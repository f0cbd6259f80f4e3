-- ===== src/Read/Packets.antt =====
-- `ice9_read`, which takes one packet at a time.
use ice9_api.Prelude.{
  ℕ, ◌+◌, ◌-◌, ◌≤◌, ◌<◌, ◌≡◌, ◌≢◌, refl, sym, ap, ◌∙◌, List, [], ◌∷◌, ◌++◌, append-nil, length,
  take, drop, arith, length-drop, some, min, is_negative, false, Bool-cases, ltb, inl, inr,
  take_all, drop_all, done, get_or, get_or-drop, get_or-take,
}
use ice9_api.ErrorCode.{ok}
use ice9_api.Ring.{Ring, enqueue_to_read_buffer}
use ice9_api.Ring.Queue
use ice9_api.Ring.Contents.{contents}
use ice9_api.Ring.Refine.{enqueue_refines}
use ice9_api.Host.{Host, UsbReply, bulk_in, log_call}
use ice9_api.Read.{Round, more, read_loop, with_ring, read_round, ice9_read}
use ice9_api.Read.View.{view, AllReplies, IsValidHost, read_loop-zero}
use ice9_api.Read.Short.{read_with-short}

-- A transfer that succeeds and fits the buffer of one packet.
pub record IsPacket (r : UsbReply) : Type 0 where
  pub succeeds : is_negative r.ret ≡ false
  pub fits : length r.bytes ≤ 512

-- The bytes of a packet behind the two status bytes.
abbrev pub payload : UsbReply → List ℕ
payload r = drop 2 r.bytes

read_round_absorbs :
    (n : ℕ) (written : List ℕ) (r : UsbReply) (h : Host)
    → IsPacket r
    → 0 < n
    → length (payload r) ≤ n
    → read_round n written r h ≡ more (n - length (payload r)) (written ++ payload r) h
unfolding read_round
read_round_absorbs n written r h good pos le = elim (Bool-cases (ltb 2 (length r.bytes))) [
  | inl long ↦ ground (
    arith,
    good.succeeds,
    good.fits,
    length-drop 2 r.bytes,
    take_all (length r.bytes - 2) (drop 2 r.bytes),
  )
  | inr empty ↦ ground (
    arith,
    good.succeeds,
    good.fits,
    length-drop 2 r.bytes,
    drop_all 2 r.bytes,
    append-nil written,
  )
]

-- The bytes that `ice9_read` stores when the packet holds more than the `k` bytes still wanted.
abbrev pub stored : ℕ → UsbReply → List ℕ
stored k r = take (length r.bytes - 2 - k) (drop k r.bytes)

read_round_over :
    (n : ℕ) (written : List ℕ) (r : UsbReply) (h : Host) {m : ℕ} {ring : Ring}
    → IsPacket r
    → 0 < n
    → n < length (payload r)
    → enqueue_to_read_buffer h.handle.ring (drop n r.bytes) (length r.bytes - 2 - n)
      ≡ some (m, ring)
    → read_round n written r h ≡ more 0 (written ++ take n (payload r)) (with_ring h ring)
unfolding read_round
read_round_over n written r h good pos over queued =
    ground (arith, good.succeeds, good.fits, length-drop 2 r.bytes)

read_round_exact :
    (n : ℕ) (written : List ℕ) (r : UsbReply) (h : Host)
    → IsPacket r
    → 0 < n
    → n ≡ length (payload r)
    → read_round n written r h ≡ more 0 (written ++ take n (payload r)) h
read_round_exact n written r h good pos e =
    let done_with : n - length (payload r) ≡ 0 = omega arith in
    let whole : take n (payload r) ≡ payload r = take_all n (payload r) (omega arith) in
    rw (whole, ← done_with) (read_round_absorbs n written r h good pos (omega arith))

-- What becomes of the packet that completes a read.
abbrev Completes : ℕ → List ℕ → UsbReply → Round → Type 0
Completes n written r result =
    (h' : Host) × (result ≡ more 0 (written ++ take n (payload r)) h')
    × IsValidHost h'
    × (contents h'.handle.ring ≡ stored n r)

read_round-Completes :
    (n : ℕ) (written : List ℕ) (r : UsbReply) (h : Host)
    → IsPacket r
    → 0 < n
    → n ≤ length (payload r)
    → IsValidHost h
    → contents h.handle.ring ≡ []
    → Completes n written r (read_round n written r h)
read_round-Completes n written r h good pos le v empty =
    elim (Bool-cases (ltb n (length (payload r)))) [
      | inl over ↦
          let left = length r.bytes - 2 - n in
          let (ring, queued, v', kept) =
            enqueue_refines (drop n r.bytes) left v (omega (arith, length-drop n r.bytes)) in
          let room : min left (Queue.capacity - length (contents h.handle.ring)) ≡ left =
            rw empty (omega (arith, good.fits)) in
          (
            with_ring h ring,
            read_round_over n written r h good pos (ground arith) queued,
            v',
            rw room at kept ∙ ap (λ q. q ++ stored n r) empty,
          )
      | inr exact ↦
          let e : n ≡ length (payload r) = ground arith in
          let none_left : length r.bytes - 2 - n ≡ 0 = omega (arith, length-drop 2 r.bytes) in
          (
            h,
            read_round_exact n written r h good pos e,
            v,
            empty ∙ ap (λ k. take k (drop n r.bytes)) (sym none_left),
          )
    ]

read_loop_completes :
    (n : ℕ) (written : List ℕ) (r : UsbReply) (rest : List UsbReply) (h h' : Host)
    → 0 < n
    → read_round n written r (log_call (bulk_in 0x81 512) h)
      ≡ more 0 (written ++ take n (payload r)) h'
    → read_loop read_round 512 n written (r ∷ rest) h
      ≡ done (ok, written ++ take n (payload r)) rest h'
unfolding read_loop
read_loop_completes n written r rest h h' pos e =
    let stop = read_loop-zero read_round 512 0 (written ++ take n (payload r)) rest h' refl in
    ground arith

module _ (n : ℕ) (rs : List UsbReply) (r : UsbReply) (rest : List UsbReply) (h : Host)
    (v : IsValidHost h) (good : AllReplies IsPacket rs) (last : IsPacket r)
    (short : length (view payload rs h) < n)
    (enough : n ≤ length (view payload rs h) + length (payload r)) where
  -- A read that the packet `r` completes returns `OK` with the first `n` bytes of the ring buffer
  -- and the payloads, in order, and asks for no other transfer. The ring buffer then holds the
  -- bytes of the packet from index `k` on, `k` being what was wanted of it, as many as the
  -- payload has left.
  pub ice9_read_completes :
      let k = n - length (view payload rs h) in
      (h' : Host) × (ice9_read n (rs ++ r ∷ rest) h
        ≡ done (ok, view payload rs h ++ take k (payload r)) rest h')
      × IsValidHost h'
      × (contents h'.handle.ring ≡ stored k r)
  unfolding ice9_read
  ice9_read_completes =
      let k = n - length (view payload rs h) in
      let (h1, run, v1, empty) =
        read_with-short read_round 512 payload IsPacket read_round_absorbs n rs (r ∷ rest) h v good
          short in
      let (h', round, v', kept) =
        read_round-Completes k (view payload rs h) r (log_call (bulk_in 0x81 512) h1) last
          (omega arith) (omega arith) v1 empty in
      (
        h',
        run ∙ read_loop_completes k (view payload rs h) r rest h1 h' (omega arith) round,
        v',
        kept,
      )

  -- If the packet that completes the read has bytes left over, and its byte at index `k` is not the
  -- one at index `k + 2`, then what the ring buffer holds afterwards is not what the stream goes on
  -- with: `ice9_read` stashes from the wrong place of the packet.
  pub ice9_read_misplaces :
      let k = n - length (view payload rs h) in
      k < length (payload r)
      → get_or r.bytes k 0 ≢ get_or r.bytes (k + 2) 0
      → (h' : Host) × (ice9_read n (rs ++ r ∷ rest) h
          ≡ done (ok, view payload rs h ++ take k (payload r)) rest h')
        × (contents h'.handle.ring ≢ drop k (payload r))
  ice9_read_misplaces over differ =
      let k = n - length (view payload rs h) in
      let (h', run, v', kept) = ice9_read_completes in
      let some_left : 0 < length r.bytes - 2 - k = omega (arith, length-drop 2 r.bytes) in
      let first =
        get_or-take (length r.bytes - 2 - k) (drop k r.bytes) 0 some_left
        ∙ get_or-drop k 0 r.bytes 0 in
      let second = get_or-drop k 0 (payload r) 0 ∙ get_or-drop 2 (k + 0) r.bytes 0 in
      (
        h',
        run,
        λ e. differ (
            ap (λ i. get_or r.bytes i 0) {x = k} {y = k + 0} (omega arith)
            ∙ sym first
            ∙ ap (λ q. get_or q 0 0) (sym kept ∙ e)
            ∙ second
            ∙ ap (λ i. get_or r.bytes i 0) {x = 2 + (k + 0)} {y = k + 2} (omega arith)),
      )
