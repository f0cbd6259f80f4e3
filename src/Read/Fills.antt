-- ===== src/Read/Fills.antt =====
-- How many bytes a read writes to the caller's buffer.
use mathlib.Core.Path.{subst}
use ice9_api.Prelude.{
  ℕ, ◌+◌, ◌-◌, ◌≤◌, ◌≡◌, ◌≢◌, refl, ◌↔◌, Bool, true, false, List, [], ◌∷◌, ◌++◌, length, take, drop,
  arith, Outcome, done, fault, Bool-cases, Option-cases, inl, inr, ltb, ◌==◌, is_negative,
  if◌then◌else◌, length-append, length-drop, length-take, min_of, min, not, ◌&&◌,
}
use ice9_api.ErrorCode.{Ice9Error, ok, error}
use ice9_api.Ring.{enqueue_to_read_buffer}
use ice9_api.Ring.Contents.{contents}
use ice9_api.Ring.Refine.{drain_refines}
use ice9_api.Host.{Host, UsbReply, bulk_in, log_call}
use ice9_api.Read.{
  Round, more, failed, undefined, read_loop, read_with, with_ring, stash, read_round, stream_round,
  ice9_read, ice9_stream_read, strip_status,
}
use ice9_api.Read.View.{IsValidHost}

-- A round that goes on still wants what is missing from `total` bytes.
abbrev RoundCounts : ℕ → Round → Type 0
RoundCounts total (more n written h) = length written + n ≡ total
RoundCounts total failed = Unit
RoundCounts total undefined = Unit

record Counts (total : ℕ) (result : Round) : Type 0 where
  count : RoundCounts total result

Counts-if :
    (total : ℕ) (b : Bool) (x y : Round)
    → Counts total x
    → Counts total y
    → Counts total (if b then x else y)
Counts-if total true x y p q = p
Counts-if total false x y p q = q

stash-Counts :
    (h : Host) (n : ℕ) (written src : List ℕ) (leftover : ℕ)
    → Counts (length written + n) (stash h n written src leftover)
stash-Counts h n written src leftover =
    elim (Option-cases (enqueue_to_read_buffer h.handle.ring src leftover)) [
      | inl bad ↦ rw (stash, bad) record { count = tt }
      | inr ((m, r), good) ↦ rw (stash, good) record { count = refl }
    ]

-- What a read that is to give `n` bytes does if it returns: it has written at most `n`, and
-- exactly `n` if and only if it returns `OK`.
abbrev pub Fills : ℕ → Outcome UsbReply Host (Ice9Error × List ℕ) → Type 0
Fills n (done answer rs h) = (length answer.1 ≤ n) × ((answer.0 ≡ ok) ↔ (length answer.1 ≡ n))
Fills n _ = Unit

module _ (n k : ℕ) (written src : List ℕ) (le : k ≤ n) (has : k ≤ length src) where
  passed : length (written ++ take k src) + (n - k) ≡ length written + n
  passed = omega (arith, length-append written (take k src), length-take k src)

  -- A round that passes `k` of the bytes of `src` on, and stashes others if `b`.
  passes-Counts :
      (b : Bool) (h : Host) (from : List ℕ) (leftover : ℕ)
      → Counts (length written + n) (
          if b
          then stash h (n - k) (written ++ take k src) from leftover
          else more (n - k) (written ++ take k src) h)
  passes-Counts b h from leftover =
      Counts-if (length written + n) b _ _
        (subst (λ t. Counts t (stash h (n - k) (written ++ take k src) from leftover)) passed
          (stash-Counts h (n - k) (written ++ take k src) from leftover))
        record { count = passed }

read_round-Counts :
    (n : ℕ) (written : List ℕ) (r : UsbReply) (h : Host)
    → Counts (length written + n) (read_round n written r h)
unfolding read_round
read_round-Counts n written r h =
    let k = min_of n (length r.bytes - 2) in
    let total = length written + n in
    Counts-if total (is_negative r.ret) _ _ record { count = tt }
      (Counts-if total (ltb 512 (length r.bytes)) _ _ record { count = tt }
        (Counts-if total (not (ltb 2 (length r.bytes))) _ _ record { count = refl }
          (passes-Counts n k written (drop 2 r.bytes) (grind arith)
            (grind (arith, length-drop 2 r.bytes)) ((n - k) == 0 && ltb 0 (length r.bytes - 2 - k))
            h (drop k r.bytes) (length r.bytes - 2 - k))))

stream_round-Counts :
    (n : ℕ) (written : List ℕ) (r : UsbReply) (h : Host)
    → Counts (length written + n) (stream_round n written r h)
unfolding stream_round
stream_round-Counts n written r h =
    let total = length written + n in
    Counts-if total (is_negative r.ret) _ _ record { count = tt }
      (Counts-if total (ltb 16384 (length r.bytes)) _ _ record { count = tt }
        (elim (Option-cases (strip_status r.bytes)) [
          | inl bad ↦ rw bad record { count = tt }
          | inr (stripped, found) ↦
              let k =
                if ltb 0 (length stripped) && ltb 0 n then min_of n (length stripped) else 0 in
              rw found (
                passes-Counts n k written stripped (ground arith) (ground arith)
                  ((n - k) == 0 && not ((length stripped - k) == 0)) h (drop k stripped)
                  (length stripped - k))
        ]))

module _ (round : ℕ → List ℕ → UsbReply → Host → Round) (size : ℕ)
    (counts : (n : ℕ) (written : List ℕ) (r : UsbReply) (h : Host)
      → Counts (length written + n) (round n written r h)) where
  finished :
      (written : List ℕ) (n : ℕ) (rs : List UsbReply) (h : Host)
      → n ≡ 0
      → Fills (length written + n) (done (ok, written) rs h)
  finished written n rs h e = (omega arith, ((λ same. omega arith), λ full. refl))

  after_round :
      (result : Round) (total n : ℕ) (written : List ℕ) (rs : List UsbReply) (h : Host)
      → RoundCounts total result
      → total ≡ length written + n
      → n ≢ 0
      → ((n' : ℕ) (written' : List ℕ) (h' : Host)
          → Fills (length written' + n') (read_loop round size n' written' rs h'))
      → Fills total (elim result [
        | more n' written' h' ↦ read_loop round size n' written' rs h'
        | failed ↦ done (error, written) rs h
        | undefined ↦ fault
      ])
  after_round (more n' written' h') total n written rs h c e ne later =
      subst (λ t. Fills t (read_loop round size n' written' rs h')) c (later n' written' h')
  after_round failed total n written rs h c e ne later =
      (omega arith, ((λ is. absurd (ground (arith, is))), λ full. absurd (omega arith)))
  after_round undefined total n written rs h c e ne later = tt

  read_loop-Fills :
      (rs : List UsbReply) (n : ℕ) (written : List ℕ) (h : Host)
      → Fills (length written + n) (read_loop round size n written rs h)
  unfolding read_loop
  read_loop-Fills [] n written h = elim (Bool-cases (n == 0)) [
    | inl stop ↦ rw (Fills, read_loop, stop) (finished written n [] h (ground arith))
    | inr go ↦ rw (Fills, read_loop, go) tt
  ]
  read_loop-Fills (r ∷ rs) n written h = elim (Bool-cases (n == 0)) [
    | inl stop ↦ rw (Fills, read_loop, stop) (finished written n (r ∷ rs) h (ground arith))
    | inr go ↦
        let h1 = log_call (bulk_in 0x81 size) h in
        rw (Fills, read_loop, go)
          (after_round (round n written r h1) (length written + n) n written rs h1
            (counts n written r h1).count refl (ground arith)
            (λ n' written' h'. read_loop-Fills rs n' written' h'))
  ]

  read_with-Fills :
      (n : ℕ) (rs : List UsbReply) (h : Host)
      → IsValidHost h
      → Fills n (read_with round size n rs h)
  unfolding read_with
  read_with-Fills n rs h v =
      let (ring, drained, v', left) = drain_refines n v in
      let held = contents h.handle.ring in
      let all : length (take n held) + (n - min n (length held)) ≡ n =
        omega (arith, length-take n held) in
      rw (Fills, read_with, drained)
        (subst
          (λ t.
            Fills t
              (read_loop round size (n - min n (length held)) (take n held) rs (with_ring h ring)))
          all (read_loop-Fills rs (n - min n (length held)) (take n held) (with_ring h ring)))

-- Whatever libusb answers, `ice9_read` and `ice9_stream_read` of `n` bytes, from a state with a
-- valid ring buffer, have written at most `n` bytes to the caller's buffer when they return, and
-- exactly `n` if and only if they return `OK`.
pub reads-Fills :
    (n : ℕ) (rs : List UsbReply) (h : Host)
    → IsValidHost h
    → Fills n (ice9_read n rs h) × Fills n (ice9_stream_read n rs h)
unfolding ice9_read ice9_stream_read
reads-Fills n rs h v = (
  read_with-Fills read_round 512 read_round-Counts n rs h v,
  read_with-Fills stream_round 16384 stream_round-Counts n rs h v,
)
