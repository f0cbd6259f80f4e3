-- ===== src/Ring/Trip.antt =====
-- An enqueue and then a drain of the ring buffer.
use ice9_api.Prelude.{
  ℕ, ◌+◌, ◌-◌, ◌*◌, ◌≤◌, ◌≡◌, ◌∙◌, sym, ap, ap₂, length, some, min, take, take_all, drop_all,
  length-append, length-take, take-min, take-append, List, [], ◌++◌, arith,
}
use ice9_api.Ring.{Ring, drain_from_read_buffer, enqueue_to_read_buffer}
use ice9_api.Ring.Queue
use ice9_api.Ring.Contents.{IsValid, contents}
use ice9_api.Ring.Refine.{drain_refines, enqueue_refines, length-contents, free_space-add-bytes}

-- A drain of at least as many bytes as a valid ring holds gives them all, and leaves none.
drain_all :
    (r : Ring) (count : ℕ)
    → IsValid r
    → length (contents r) ≤ count
    → (r' : Ring) × (drain_from_read_buffer r count ≡ some (length (contents r), contents r, r'))
      × IsValid r'
      × (contents r' ≡ [])
drain_all r count v le =
    let (r', run, v', left) = drain_refines count v in
    let number : min count (length (contents r)) ≡ length (contents r) = omega (arith, le) in
    (
      r',
      run ∙ ap₂ (λ n q. some (n, q, r')) number (take_all count (contents r) le),
      v',
      left ∙ drop_all count (contents r) le,
    )

contents-bounded : (r : Ring) → IsValid r → length (contents r) ≤ Queue.capacity
contents-bounded r v = omega (arith, length-contents r, free_space-add-bytes v)

-- What is added to a queue is what fits of it.
joins :
    (q src : List ℕ)
    → length q ≤ Queue.capacity
    → q ++ take (min (length src) (Queue.capacity - length q)) src ≡ take Queue.capacity (q ++ src)
joins q src le =
    let swap : min (length src) (Queue.capacity - length q)
        ≡ min (Queue.capacity - length q) (length src) =
      omega arith in
    ap (λ n. q ++ take n src) swap
    ∙ ap₂ ◌++◌ (sym (take_all Queue.capacity q le)) (take-min (Queue.capacity - length q) src)
    ∙ sym (take-append Queue.capacity q src)

-- Bytes are enqueued to a valid ring, and it is drained of as many bytes as it had and are offered,
-- or more: the drain gives the bytes that were there and then those offered, in order, up to
-- 1024 * 1024 - 1 bytes in all, and leaves the ring valid and empty.
pub enqueue_then_drain :
    (r : Ring) (src : List ℕ) (count : ℕ)
    → IsValid r
    → length (contents r) + length src ≤ count
    → (n m : ℕ) × (bytes : List ℕ) × (r1 r2 : Ring) × (enqueue_to_read_buffer r src (length src)
        ≡ some (n, r1))
      × (drain_from_read_buffer r1 count ≡ some (m, bytes, r2))
      × (bytes ≡ take (1024 * 1024 - 1) (contents r ++ src))
      × (m ≡ length (contents r) + n)
      × IsValid r2
      × (contents r2 ≡ [])
enqueue_then_drain r src count v le =
    let (r1, put, v1, held) = enqueue_refines src (length src) v (omega arith) in
    let q = contents r in
    let whole : q ++ take (min (length src) (Queue.capacity - length q)) src
        ≡ take Queue.capacity (q ++ src) =
      joins q src (contents-bounded r v) in
    let size = ap length held ∙ length-append q _ in
    let few = length-take (min (length src) (Queue.capacity - length q)) src in
    let (r2, run, v2, left) = drain_all r1 count v1 (omega (arith, size, few, le)) in
    (_, _, _, r1, r2, put, run, held ∙ whole, omega (arith, size, few), v2, left)
