-- ===== src/Read/View.antt =====
-- A read as a client sees it: a stream of bytes, those in the ring buffer first, then the payloads
-- of the transfers to come.
use ice9_api.Prelude.{
  ℕ, ◌-◌, ◌≤◌, ◌<◌, ◌≡◌, refl, ap, ◌∙◌, false, List, [], ◌∷◌, ◌++◌, append-nil, append_assoc,
  length, take, drop, arith, length-append, drop_all, take_twice, drop_twice, sym, ◌⊎◌, some, min,
  Outcome, Bool-cases, inl, inr, ltb, ◌==◌, done,
}
use ice9_api.ErrorCode.{Ice9Error, ok}
use ice9_api.Ring.{Ring, drain_from_read_buffer}
use ice9_api.Ring.Contents.{contents}
use ice9_api.Ring.Refine.{drain_refines}
pub use ice9_api.Host.Keeps.{AllReplies, IsValidHost}
use ice9_api.Host.{Host, UsbReply, bulk_in, log_call}
use ice9_api.Read.{read_loop, Round, more, read_with, with_ring}

module _ (payload : UsbReply → List ℕ) where
  abbrev pub payloads : List UsbReply → List ℕ
  payloads [] = []
  payloads (r ∷ rs) = payload r ++ payloads rs

  -- The bytes that reads from this state on are to give.
  abbrev pub view : List UsbReply → Host → List ℕ
  view rs h = contents h.handle.ring ++ payloads rs

-- A round that takes a good transfer: the bytes wanted are written, and the others are in the
-- ring buffer, which was empty.
abbrev pub Takes : ℕ → List ℕ → List ℕ → Round → Type 0
Takes n written bytes result =
    (h' : Host) × (result ≡ more (n - length bytes) (written ++ take n bytes) h')
    × IsValidHost h'
    × (contents h'.handle.ring ≡ drop n bytes)

pub read_loop-zero :
    (round : ℕ → List ℕ → UsbReply → Host → Round) (size n : ℕ) (written : List ℕ)
    (rs : List UsbReply) (h : Host)
    → n ≡ 0
    → read_loop round size n written rs h ≡ done (ok, written) rs h
unfolding read_loop
read_loop-zero round size n written [] h e = ground arith
read_loop-zero round size n written (r ∷ rs) h e = ground arith

-- What a read that is to give `n` bytes of the view `bytes`, behind `written`, does: it returns
-- `OK` with these bytes, and leaves a state whose view is the others.
abbrev pub Gives :
    (UsbReply → List ℕ)
    → (UsbReply → Type 0)
    → ℕ
    → List ℕ
    → List ℕ
    → Outcome UsbReply Host (Ice9Error × List ℕ)
    → Type 0
Gives payload IsGood n written bytes result =
    (rs' : List UsbReply) × (h' : Host) × (result ≡ done (ok, written ++ take n bytes) rs' h')
    × IsValidHost h'
    × AllReplies IsGood rs'
    × (view payload rs' h' ≡ drop n bytes)

module _ (payload : UsbReply → List ℕ) (IsGood : UsbReply → Type 0) where
  -- Once the bytes `first` are written, as many of them as are wanted, the rest remains.
  Gives-first :
      (n : ℕ) (written first rest : List ℕ) (result : Outcome UsbReply Host (Ice9Error × List ℕ))
      → Gives payload IsGood
          (n - length first)
          (written ++ take n first)
          (drop n first ++ rest)
          result
      → Gives payload IsGood n written (first ++ rest) result
  Gives-first n written first rest result (rs', h', returns, v, good, left) = (
    rs',
    h',
    rw take_twice (
        returns
        ∙ ap (λ bytes. done (ok, bytes) rs' h')
            (append_assoc written (take n first) (take (n - length first) (drop n first ++ rest)))),
    v,
    good,
    left ∙ sym (drop_twice n first rest),
  )

module _ (round : ℕ → List ℕ → UsbReply → Host → Round) (size : ℕ) where
  pub read_with-drained :
      (n : ℕ) (rs : List UsbReply) (h : Host) (ring : Ring)
      → drain_from_read_buffer h.handle.ring n
        ≡ some (min n (length (contents h.handle.ring)), take n (contents h.handle.ring), ring)
      → read_with round size n rs h
        ≡ read_loop round size
            (n - length (contents h.handle.ring))
            (take n (contents h.handle.ring))
            rs
            (with_ring h ring)
  unfolding read_with
  read_with-drained n rs h ring e =
      let rest : n - min n (length (contents h.handle.ring)) ≡ n - length (contents h.handle.ring) =
        omega arith in
      ground arith

module _ (round : ℕ → List ℕ → UsbReply → Host → Round) (size : ℕ) (payload : UsbReply → List ℕ)
    (IsGood : UsbReply → Type 0)
    (takes : (n : ℕ) (written : List ℕ) (r : UsbReply) (h : Host)
      → IsGood r
      → 0 < n
      → IsValidHost h
      → contents h.handle.ring ≡ []
      → Takes n written (payload r) (round n written r h)) where
  Gives-zero :
      (n : ℕ) (written : List ℕ) (rs : List UsbReply) (h : Host)
      → n ≡ 0
      → IsValidHost h
      → AllReplies IsGood rs
      → Gives payload IsGood n written (view payload rs h) (read_loop round size n written rs h)
  Gives-zero n written rs h e v good = (
    rs,
    h,
    rw e (
        read_loop-zero round size 0 written rs h refl
        ∙ ap (λ bytes. done (ok, bytes) rs h) (sym (append-nil written))),
    v,
    good,
    rw e,
  )

  -- The ring buffer holds no byte, or none is wanted: the loop starts so, and each round keeps it.
  abbrev IsDrained : ℕ → Host → Type 0
  IsDrained n h = (contents h.handle.ring ≡ []) ⊎ (n ≡ 0)

  IsDrained-drop :
      (n : ℕ) (bytes : List ℕ) (h : Host)
      → contents h.handle.ring ≡ drop n bytes
      → IsDrained (n - length bytes) h
  IsDrained-drop n bytes h e = elim (Bool-cases (ltb n (length bytes))) [
    | inl less ↦ inr (ground arith)
    | inr enough ↦ inl (e ∙ drop_all n bytes (ground arith))
  ]

  abbrev logged : Host → Host
  logged h = log_call (bulk_in 0x81 size) h

  read_loop-more :
      (n : ℕ) (written : List ℕ) (r : UsbReply) (rs : List UsbReply) (h h1 : Host)
      → n == 0 ≡ false
      → round n written r (logged h)
        ≡ more (n - length (payload r)) (written ++ take n (payload r)) h1
      → read_loop round size n written (r ∷ rs) h
        ≡ read_loop round size (n - length (payload r)) (written ++ take n (payload r)) rs h1
  unfolding read_loop
  read_loop-more n written r rs h h1 go e = ground arith

  read_loop-Gives :
      (rs : List UsbReply) (n : ℕ) (written : List ℕ) (h : Host)
      → IsValidHost h
      → IsDrained n h
      → AllReplies IsGood rs
      → n ≤ length (view payload rs h)
      → Gives payload IsGood n written (view payload rs h) (read_loop round size n written rs h)
  read_loop-Gives rs n written h v (inr e) good le = Gives-zero n written rs h e v good
  read_loop-Gives [] n written h v (inl empty) good le =
      let e : view payload [] h ≡ [] = rw empty in
      Gives-zero n written [] h (omega (arith, ap length e)) v good
  read_loop-Gives (r ∷ rs) n written h v (inl empty) good le = elim (Bool-cases (n == 0)) [
    | inl stop ↦ Gives-zero n written (r ∷ rs) h (ground arith) v good
    | inr go ↦
        let positive : 0 < n = ground arith in
        let (h1, stepped, v1, left) = takes n written r (logged h) good.0 positive v empty in
        let e : view payload (r ∷ rs) h ≡ payload r ++ payloads payload rs = rw empty in
        let enough : n - length (payload r) ≤ length (view payload rs h1) = rw left (
          omega (
            arith,
            ap length e,
            length-append (payload r) (payloads payload rs),
            length-append (drop n (payload r)) (payloads payload rs),
          )) in
        let later =
          read_loop-Gives rs (n - length (payload r)) (written ++ take n (payload r)) h1 v1
            (IsDrained-drop n (payload r) h1 left) good.1 enough in
        rw (e, read_loop-more n written r rs h h1 go stepped)
          (Gives-first payload IsGood n written (payload r) (payloads payload rs) _
            (rw left at later))
  ]

  -- A read of as many bytes as the view has, or fewer, gives the first ones and leaves the others.
  pub read_with-Gives :
      (n : ℕ) (rs : List UsbReply) (h : Host)
      → IsValidHost h
      → AllReplies IsGood rs
      → n ≤ length (view payload rs h)
      → Gives payload IsGood n [] (view payload rs h) (read_with round size n rs h)
  read_with-Gives n rs h v good le =
      let q = contents h.handle.ring in
      let (ring, drained, v', left) = drain_refines n v in
      let h' = with_ring h ring in
      let enough : n - length q ≤ length (view payload rs h') = rw left (
        omega (
          arith,
          length-append q (payloads payload rs),
          length-append (drop n q) (payloads payload rs),
        )) in
      let later =
        read_loop-Gives rs (n - length q) (take n q) h' v' (IsDrained-drop n q h' left) good
          enough in
      rw (read_with-drained round size n rs h ring drained)
        (Gives-first payload IsGood n [] q (payloads payload rs) _ (rw left at later))
