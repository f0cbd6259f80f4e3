-- ===== src/Read/Keeps.antt =====
-- The reading functions keep the ring buffer valid, and copy inside of their buffers.
use ice9_api.Prelude.{
  ℕ, ◌-◌, ◌≤◌, ◌%◌, ◌≡◌, refl, Bool, true, false, List, [], ◌∷◌, ◌++◌, length, take, drop, arith,
  done, fault, Bool-cases, Option-cases, inl, inr, ltb, ◌==◌, is_negative, if◌then◌else◌,
  length-drop, min_of, not, ◌&&◌,
}
use ice9_api.ErrorCode.{error}
use ice9_api.Ring.Refine.{drain_refines, enqueue_refines}
use ice9_api.Host.{Host, UsbReply, bulk_in, log_call}
use ice9_api.Host.Keeps.{
  AllReplies, AnyReply, Holds, EndsUnless, EndsUnless-widen, EndsWell-unless, Keeps,
}
use ice9_api.Read.{
  Round, more, failed, undefined, read_loop, read_with, with_ring, stash, read_round, stream_round,
  ice9_read, ice9_stream_read, strip_status,
}
use ice9_api.Read.Strip.{strip_status-none}

-- A bulk read of at most `n` bytes gives no more.
abbrev pub FitsIn : ℕ → UsbReply → Type 0
FitsIn n r = length r.bytes ≤ n

-- The transfer ends in a packet of one byte.
abbrev pub EndsInOneByte : UsbReply → Type 0
EndsInOneByte r = length r.bytes % 512 ≡ 1

-- A round keeps the ring buffer valid, and does not go wrong unless there is `Excuse` for it.
abbrev RoundEndsWell : Bool → Type 0 → Round → Type 0
RoundEndsWell d Excuse (more n written h) = Holds d h
RoundEndsWell d Excuse failed = Unit
RoundEndsWell d Excuse undefined = Excuse

record RoundKeeps (d : Bool) (Excuse : Type 0) (result : Round) : Type 0 where
  fine : RoundEndsWell d Excuse result

module _ {d : Bool} where
  RoundKeeps-if :
      {E : Type 0} (b : Bool) (x y : Round)
      → (b ≡ true → RoundKeeps d E x)
      → (b ≡ false → RoundKeeps d E y)
      → RoundKeeps d E (if b then x else y)
  RoundKeeps-if true x y f g = f refl
  RoundKeeps-if false x y f g = g refl

  stash-Keeps :
      {E : Type 0} (h : Host) (n : ℕ) (written src : List ℕ) (leftover : ℕ)
      → Holds d h
      → leftover ≤ length src
      → RoundKeeps d E (stash h n written src leftover)
  stash-Keeps h n written src leftover v le =
      let (r', e, v', kept) = enqueue_refines src leftover v.0 le in
      rw (stash, e) record { fine = (v', v.1) }

  read_round-Keeps :
      (n : ℕ) (written : List ℕ) (r : UsbReply) (h : Host)
      → Holds d h
      → FitsIn 512 r
      → RoundKeeps d ⊥ (read_round n written r h)
  unfolding read_round
  read_round-Keeps n written r h v fits =
      let k = min_of n (length r.bytes - 2) in
      RoundKeeps-if (is_negative r.ret) _ _ (λ e. record { fine = tt })
        (λ ok.
          RoundKeeps-if (ltb 512 (length r.bytes)) _ _ (λ long. absurd (ground arith))
            (λ short.
              RoundKeeps-if (not (ltb 2 (length r.bytes))) _ _ (λ empty. record { fine = v })
                (λ full.
                  RoundKeeps-if ((n - k) == 0 && ltb 0 (length r.bytes - 2 - k)) _ _
                    (λ over.
                      stash-Keeps h (n - k) (written ++ take k (drop 2 r.bytes)) (drop k r.bytes)
                        (length r.bytes - 2 - k) v (omega (arith, length-drop k r.bytes)))
                    (λ exact. record { fine = v }))))

  stripped-Keeps :
      {E : Type 0} (n : ℕ) (written : List ℕ) (stripped : List ℕ) (h : Host) (k : ℕ)
      → Holds d h
      → RoundKeeps d E (
          if (n - k) == 0 && not ((length stripped - k) == 0)
          then stash h (n - k) (written ++ take k stripped) (drop k stripped) (length stripped - k)
          else more (n - k) (written ++ take k stripped) h)
  stripped-Keeps n written stripped h k v =
      RoundKeeps-if ((n - k) == 0 && not ((length stripped - k) == 0)) _ _
        (λ over.
          stash-Keeps h (n - k) (written ++ take k stripped) (drop k stripped) (length stripped - k)
            v (omega (arith, length-drop k stripped)))
        (λ exact. record { fine = v })

  stream_round-Keeps :
      (n : ℕ) (written : List ℕ) (r : UsbReply) (h : Host)
      → Holds d h
      → FitsIn 16384 r
      → RoundKeeps d (EndsInOneByte r) (stream_round n written r h)
  unfolding stream_round
  stream_round-Keeps n written r h v fits =
      RoundKeeps-if (is_negative r.ret) _ _ (λ e. record { fine = tt })
        (λ ok.
          RoundKeeps-if (ltb 16384 (length r.bytes)) _ _ (λ long. absurd (ground arith))
            (λ short. elim (Option-cases (strip_status r.bytes)) [
              | inl bad ↦ rw bad (record { fine = (strip_status-none r.bytes).0 bad })
              | inr (stripped, found) ↦ rw found (
                  stripped-Keeps n written stripped h
                    (if ltb 0 (length stripped) && ltb 0 n then min_of n (length stripped) else 0)
                    v)
            ]))

module _ {d : Bool} (round : ℕ → List ℕ → UsbReply → Host → Round) (size : ℕ)
    (Fits Bad : UsbReply → Type 0)
    (ends : (n : ℕ) (written : List ℕ) (r : UsbReply) (h : Host)
      → Holds d h
      → Fits r
      → RoundEndsWell d (Bad r) (round n written r h)) where
  -- What a round that has ended well goes on with.
  goes_on :
      (result : Round) (r : UsbReply) (rs : List UsbReply) (h : Host)
      → RoundEndsWell d (Bad r) result
      → Holds d h
      → AllReplies Fits rs
      → ((n : ℕ) (written : List ℕ) (h' : Host)
          → Holds d h'
          → EndsUnless d Fits (AnyReply Bad rs) (read_loop round size n written rs h'))
      → (written : List ℕ)
      → EndsUnless d Fits (AnyReply Bad (r ∷ rs)) (elim result [
        | more n written' h' ↦ read_loop round size n written' rs h'
        | failed ↦ done (error, written) rs h
        | undefined ↦ fault
      ])
  goes_on (more n written' h') r rs h e v good later written =
      EndsUnless-widen d Fits (read_loop round size n written' rs h') (λ bad. inr bad)
        (later n written' h' e)
  goes_on failed r rs h e v good later written = (v, good)
  goes_on undefined r rs h e v good later written = inl e

  read_loop_ends :
      (rs : List UsbReply) (n : ℕ) (written : List ℕ) (h : Host)
      → Holds d h
      → AllReplies Fits rs
      → EndsUnless d Fits (AnyReply Bad rs) (read_loop round size n written rs h)
  unfolding read_loop
  read_loop_ends [] n written h v good = elim (Bool-cases (n == 0)) [
    | inl stop ↦ rw (EndsUnless, read_loop, stop) (v, tt)
    | inr go ↦ rw (EndsUnless, read_loop, go) v
  ]
  read_loop_ends (r ∷ rs) n written h v good = elim (Bool-cases (n == 0)) [
    | inl stop ↦ rw (EndsUnless, read_loop, stop) (v, good)
    | inr go ↦
        let h1 = log_call (bulk_in 0x81 size) h in
        rw (EndsUnless, read_loop, go)
          (goes_on (round n written r h1) r rs h1 (ends n written r h1 v good.0) v good.1
            (λ n' written' h' v'. read_loop_ends rs n' written' h' v' good.1) written)
  ]

  read_with_ends :
      (n : ℕ) (rs : List UsbReply) (h : Host)
      → Holds d h
      → AllReplies Fits rs
      → EndsUnless d Fits (AnyReply Bad rs) (read_with round size n rs h)
  unfolding read_with
  read_with_ends n rs h v good =
      let (ring, drained, v', left) = drain_refines n v.0 in
      rw (EndsUnless, read_with, drained) (read_loop_ends rs _ _ (with_ring h ring) (v', v.1) good)

none_bad : (rs : List UsbReply) → ¬ (AnyReply (λ r. ⊥) rs)
none_bad [] e = e
none_bad (r ∷ rs) e = elim e [ inl bad ↦ bad | inr bad ↦ none_bad rs bad ]

-- A read of packets, and one of a stream.
pub Keeps-ice9_read : {d : Bool} (n : ℕ) → Keeps d (FitsIn 512) (ice9_read n)
unfolding ice9_read
Keeps-ice9_read {d} n = record {
  at = λ rs h v good. EndsWell-unless d (FitsIn 512) (ice9_read n rs h) (none_bad rs) (
      read_with_ends read_round 512 (FitsIn 512) (λ r. ⊥)
        (λ n written r h v fits. (read_round-Keeps n written r h v fits).fine) n rs h v good);
}

pub stream_read_ends :
    {d : Bool} (n : ℕ) (rs : List UsbReply) (h : Host)
    → Holds d h
    → AllReplies (FitsIn 16384) rs
    → EndsUnless d (FitsIn 16384) (AnyReply EndsInOneByte rs) (ice9_stream_read n rs h)
unfolding ice9_stream_read
stream_read_ends n =
    read_with_ends stream_round 16384 (FitsIn 16384) EndsInOneByte
      (λ n written r h v fits. (stream_round-Keeps n written r h v fits).fine) n
