-- ===== src/Read/Short.antt =====
-- Reads of more bytes than the transfers so far have brought.
use ice9_api.Prelude.{
  ℕ, ◌-◌, ◌≤◌, ◌<◌, ◌≡◌, refl, sym, ap, ap₂, ap₂, ◌∙◌, List, [], ◌∷◌, ◌++◌, append-nil,
  append_assoc, length, take, arith, length-append, take_all, drop_all,
}
use ice9_api.Ring.Contents.{contents}
use ice9_api.Ring.Refine.{drain_refines}
use ice9_api.Host.{Host, UsbReply, bulk_in, log_call}
use ice9_api.Read.{Round, more, read_loop, read_with, with_ring}
use ice9_api.Read.View.{view, payloads, AllReplies, IsValidHost, read_with-drained}

module _ (round : ℕ → List ℕ → UsbReply → Host → Round) (size : ℕ) (payload : UsbReply → List ℕ)
    (IsGood : UsbReply → Type 0)
    (absorbs : (n : ℕ) (written : List ℕ) (r : UsbReply) (h : Host)
      → IsGood r
      → 0 < n
      → length (payload r) ≤ n
      → round n written r h ≡ more (n - length (payload r)) (written ++ payload r) h) where
  abbrev logged : Host → Host
  logged h = log_call (bulk_in 0x81 size) h

  read_loop-absorbs :
      (n : ℕ) (written : List ℕ) (r : UsbReply) (rs : List UsbReply) (h : Host)
      → IsGood r
      → length (payload r) < n
      → read_loop round size n written (r ∷ rs) h
        ≡ read_loop round size (n - length (payload r)) (written ++ payload r) rs (logged h)
  unfolding read_loop
  read_loop-absorbs n written r rs h good lt =
      let taken = absorbs n written r (logged h) good (omega arith) (omega arith) in ground arith

  read_loop-short :
      (rs tail : List UsbReply) (n : ℕ) (written : List ℕ) (h : Host)
      → AllReplies IsGood rs
      → length (payloads payload rs) < n
      → (h' : Host) × (read_loop round size n written (rs ++ tail) h
          ≡ read_loop round size
              (n - length (payloads payload rs))
              (written ++ payloads payload rs)
              tail
              h')
        × (h'.handle ≡ h.handle)
  read_loop-short [] tail n written h good lt =
      let e : n - 0 ≡ n = omega arith in (h, rw (e, append-nil), refl)
  read_loop-short (r ∷ rs) tail n written h good lt =
      let p = payload r in
      let ps = payloads payload rs in
      let sum = length-append p ps in
      let e : n - length (p ++ ps) ≡ n - length p - length ps = omega arith in
      let (h', later, same) =
        read_loop-short rs tail (n - length p) (written ++ p) (logged h) good.1 (omega arith) in
      (
        h',
        read_loop-absorbs n written r (rs ++ tail) h good.0 (omega arith)
            ∙ later
            ∙ rw (e, append_assoc written p ps),
        same,
      )

  -- The ring buffer and the good transfers before `tail` hold fewer than `n` bytes: a read of `n`
  -- bytes has written them all when it comes to `tail`, and the ring buffer is empty.
  pub read_with-short :
      (n : ℕ) (rs tail : List UsbReply) (h : Host)
      → IsValidHost h
      → AllReplies IsGood rs
      → length (view payload rs h) < n
      → (h' : Host) × (read_with round size n (rs ++ tail) h
          ≡ read_loop round size (n - length (view payload rs h)) (view payload rs h) tail h')
        × IsValidHost h'
        × (contents h'.handle.ring ≡ [])
  read_with-short n rs tail h v good lt =
      let q = contents h.handle.ring in
      let ps = payloads payload rs in
      let sum = length-append q ps in
      let (ring, drained, v', left) = drain_refines n v in
      let (h', later, same) =
        read_loop-short rs tail (n - length q) (take n q) (with_ring h ring) good (omega arith) in
      let e : n - length (q ++ ps) ≡ n - length q - length ps = omega arith in
      let all : take n q ≡ q = take_all n q (omega arith) in
      (
        h',
        read_with-drained round size n (rs ++ tail) h ring drained
            ∙ later
            ∙ ap₂ (λ k written. read_loop round size k written tail h') (sym e)
                (ap (λ written. written ++ ps) all),
        rw same v',
        rw same (left ∙ drop_all n q (omega arith)),
      )
