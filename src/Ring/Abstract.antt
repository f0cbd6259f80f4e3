-- ===== src/Ring/Abstract.antt =====
-- The ring buffer as those see it who only enqueue and drain: the bytes that it holds, and not
-- where they lie in the buffer.
use mathlib.Core.List
use mathlib.Core.List.{List}
use mathlib.Core.Quot
use mathlib.Core.Quot.{Quot}
use native.Mathlib.Nat.{ℕ_set}
use ice9_api.Prelude.{ℕ, ◌≤◌, ◌≡◌, ◌∙◌, sym, ap, length, some, min, drop, take}
use ice9_api.Ring.{Ring, drain_from_read_buffer, enqueue_to_read_buffer}
use ice9_api.Ring.Queue
use ice9_api.Ring.Contents.{IsValid, contents}
use ice9_api.Ring.Refine.{drain_refines, enqueue_refines}

abbrev pub ValidRing : Type 0
ValidRing = (r : Ring) × IsValid r

abbrev pub SameContents : ValidRing → ValidRing → Type 0
SameContents a b = contents a.0 ≡ contents b.0

-- Two valid rings with the same contents are one.
abbrev pub Fifo : Type 0
Fifo = Quot SameContents

-- The bytes of the queue, oldest first.
bytes_of : Fifo → List ℕ
bytes_of = Quot.lift (List.is_set ℕ_set) (λ a. contents a.0) (λ a b e. e)

abbrev pub fifo : ValidRing → Fifo
fifo a = Quot.mk a

fifo_exact : (a b : ValidRing) → fifo a ≡ fifo b → contents a.0 ≡ contents b.0
unfolding bytes_of
fifo_exact a b e = ap bytes_of e

-- Valid rings that are the same queue cannot be told apart: a drain of at most `count` bytes gives
-- the same bytes from both, an enqueue of `count` bytes, which `src` has, takes the same number of
-- them into both, and both are the same queue afterwards.
pub rings_indistinguishable :
    (count : ℕ) (src : List ℕ) (a b : ValidRing)
    → count ≤ length src
    → fifo a ≡ fifo b
    → ((n : ℕ) × (bytes : List ℕ) × (a' b' : ValidRing) × (drain_from_read_buffer a.0 count
          ≡ some (n, bytes, a'.0))
        × (drain_from_read_buffer b.0 count ≡ some (n, bytes, b'.0))
        × (fifo a' ≡ fifo b'))
      × ((n : ℕ) × (a' b' : ValidRing) × (enqueue_to_read_buffer a.0 src count ≡ some (n, a'.0))
          × (enqueue_to_read_buffer b.0 src count ≡ some (n, b'.0))
          × (fifo a' ≡ fifo b'))
rings_indistinguishable count src a b fits e =
    let same = fifo_exact a b e in
    let (da, run_a, va, left_a) = drain_refines count a.1 in
    let (db, run_b, vb, left_b) = drain_refines count b.1 in
    let (ea, put_a, wa, held_a) = enqueue_refines src count a.1 fits in
    let (eb, put_b, wb, held_b) = enqueue_refines src count b.1 fits in
    (
      (
        _,
        _,
        (da, va),
        (db, vb),
        run_a,
        run_b ∙ ap (λ q. some (min count (length q), take count q, db)) (sym same),
        Quot.sound (left_a ∙ ap (drop count) same ∙ sym left_b),
      ),
      (
        _,
        (ea, wa),
        (eb, wb),
        put_a,
        put_b ∙ ap (λ q. some ((Queue.enqueue q src count).0, eb)) (sym same),
        Quot.sound (held_a ∙ ap (λ q. (Queue.enqueue q src count).1) same ∙ sym held_b),
      ),
    )
