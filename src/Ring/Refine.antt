-- ===== src/Ring/Refine.antt =====
-- The ring buffer implements the bounded queue of its contents.
use ice9_api.Prelude.{
  ℕ, ◌+◌, ◌-◌, ◌%◌, ◌≤◌, ◌<◌, ◌≡◌, refl, ap, ◌∙◌, min, some, List, ◌++◌, arith, length,
  length-slice, take, drop, slice, take-slice, slice_cong, drop-slice, patch, length-drop, Memory,
}
use ice9_api.Ring.{
  Ring, ring_buffer_size, bytes_in_read_buffer, free_space_in_read_buffer, drain_from_read_buffer,
  enqueue_to_read_buffer,
}
use ice9_api.Ring.Queue
use ice9_api.Ring.Contents.{IsValid, around, contents, slice-around, filled, slice-filled}

pub length-contents : (r : Ring) → length (contents r) ≡ bytes_in_read_buffer r
length-contents r = length-slice (around r.read_buffer) r.read_buffer_tail (bytes_in_read_buffer r)

-- A valid ring holds at most one byte less than its size, and the bytes in it and the free
-- space make up that capacity.
pub free_space-add-bytes :
    {r : Ring} → IsValid r → free_space_in_read_buffer r + bytes_in_read_buffer r ≡ Queue.capacity
unfolding free_space_in_read_buffer bytes_in_read_buffer
free_space-add-bytes v = omega arith

bytes-lt-size : (r : Ring) → bytes_in_read_buffer r < ring_buffer_size
unfolding bytes_in_read_buffer
bytes-lt-size r = omega arith

-- The two transfers of a drain, in a valid ring.
drain_runs :
    {r : Ring} (count c a : ℕ)
    → IsValid r
    → c ≡ min count (bytes_in_read_buffer r)
    → a ≡ min c (ring_buffer_size - r.read_buffer_tail)
    → drain_from_read_buffer r count
      ≡ some (
        c,
        slice r.read_buffer r.read_buffer_tail a
            ++ slice r.read_buffer ((r.read_buffer_tail + a) % ring_buffer_size) (c - a),
        record r { read_buffer_tail = (r.read_buffer_tail + c) % ring_buffer_size },
      )
unfolding drain_from_read_buffer
drain_runs {r} count c a v ec ea = ground (arith, bytes-lt-size r)

-- What is left in the ring after a drain.
bytes_in-drained :
    (r : Ring) (n count : ℕ)
    → IsValid r
    → n ≡ bytes_in_read_buffer r
    → bytes_in_read_buffer
        (record r { read_buffer_tail = (r.read_buffer_tail + min count n) % ring_buffer_size })
      ≡ n - count
unfolding bytes_in_read_buffer
bytes_in-drained r n count v e = omega arith

-- A drain of a valid ring stays inside the buffer and is the queue's: it hands over the oldest
-- bytes of the contents, at most `count` of them, and leaves a valid ring with the others.
pub drain_refines :
    {r : Ring} (count : ℕ)
    → IsValid r
    → let (n, bytes, left) = Queue.drain (contents r) count in
      (r' : Ring) × (drain_from_read_buffer r count ≡ some (n, bytes, r'))
      × IsValid r'
      × (contents r' ≡ left)
drain_refines {r} count v = (
  after,
  rw (length-contents r, taken, ← bytes) (drain_runs count c a v refl refl),
  record { head_in = v.head_in; tail_in = omega arith },
  rw (drop-slice (around r.read_buffer) r.read_buffer_tail (bytes_in_read_buffer r) count)
      slice_left,
)
  where
    c : ℕ
    c = min count (bytes_in_read_buffer r)

    a : ℕ
    a = min c (ring_buffer_size - r.read_buffer_tail)

    after : Ring
    after = record r { read_buffer_tail = (r.read_buffer_tail + c) % ring_buffer_size }

    bytes :
        slice r.read_buffer r.read_buffer_tail a
          ++ slice r.read_buffer ((r.read_buffer_tail + a) % ring_buffer_size) (c - a)
        ≡ slice (around r.read_buffer) r.read_buffer_tail c
    bytes =
        let whole : a + (c - a) ≡ c = omega arith in
        let small = bytes-lt-size r in
        slice-around r.read_buffer r.read_buffer_tail a (c - a) v.tail_in (omega arith)
          (omega arith) (λ lt. omega arith)
        ∙ ap (slice (around r.read_buffer) r.read_buffer_tail) whole

    taken : take count (contents r) ≡ slice (around r.read_buffer) r.read_buffer_tail c
    taken = take-slice (around r.read_buffer) r.read_buffer_tail (bytes_in_read_buffer r) count

    slice_left :
        contents after
        ≡ slice (around r.read_buffer) (r.read_buffer_tail + c) (bytes_in_read_buffer r - count)
    slice_left = rw (bytes_in-drained r (bytes_in_read_buffer r) count v refl) (
        slice_cong (around r.read_buffer) (around r.read_buffer)
          ((r.read_buffer_tail + c) % ring_buffer_size) (r.read_buffer_tail + c)
          (bytes_in_read_buffer r - count) (λ k lt. ap r.read_buffer (omega arith)))

-- The two transfers of an enqueue, in a valid ring.
enqueue_runs :
    {r : Ring} (src : List ℕ) (count c a : ℕ)
    → IsValid r
    → count ≤ length src
    → c ≡ min count (Queue.capacity - bytes_in_read_buffer r)
    → a ≡ min c (ring_buffer_size - r.read_buffer_head)
    → enqueue_to_read_buffer r src count
      ≡ some (
        c,
        record r {
          read_buffer =
              patch
                (patch r.read_buffer r.read_buffer_head src a)
                ((r.read_buffer_head + a) % ring_buffer_size)
                (drop a src)
                (c - a);
          read_buffer_head = (r.read_buffer_head + c) % ring_buffer_size;
        },
      )
unfolding enqueue_to_read_buffer
enqueue_runs {r} src count c a v fits ec ea =
    ground (arith, bytes-lt-size r, length-drop a src, free_space-add-bytes v)

bytes_in-filled :
    (r : Ring) (n c : ℕ) (buffer : Memory)
    → IsValid r
    → n ≡ bytes_in_read_buffer r
    → n + c < ring_buffer_size
    → bytes_in_read_buffer (record r {
      read_buffer = buffer;
      read_buffer_head = (r.read_buffer_head + c) % ring_buffer_size;
    })
      ≡ n + c
unfolding bytes_in_read_buffer
bytes_in-filled r n c buffer v e lt = omega arith

head-eq :
    (r : Ring)
    → IsValid r
    → (r.read_buffer_tail + bytes_in_read_buffer r) % ring_buffer_size ≡ r.read_buffer_head
unfolding bytes_in_read_buffer
head-eq r v = omega arith

-- An enqueue to a valid ring stays inside the buffer and is the queue's: it puts the first bytes
-- of `src` behind the contents, as many as there is space for, and leaves a valid ring.
pub enqueue_refines :
    {r : Ring} (src : List ℕ) (count : ℕ)
    → IsValid r
    → count ≤ length src
    → let (n, queue) = Queue.enqueue (contents r) src count in
      (r' : Ring) × (enqueue_to_read_buffer r src count ≡ some (n, r'))
      × IsValid r'
      × (contents r' ≡ queue)
enqueue_refines {r} src count v fits = (
  after,
  rw (length-contents r) (enqueue_runs src count c a v fits refl refl),
  record { head_in = omega arith; tail_in = v.tail_in },
  rw (length-contents r, bytes_in-filled r n c after.read_buffer v refl small) filled_contents,
)
  where
    n : ℕ
    n = bytes_in_read_buffer r

    c : ℕ
    c = min count (Queue.capacity - n)

    a : ℕ
    a = min c (ring_buffer_size - r.read_buffer_head)

    small : n + c < ring_buffer_size
    small = omega (arith, bytes-lt-size r)

    after : Ring
    after = record r {
      read_buffer = filled r.read_buffer r.read_buffer_head src a c;
      read_buffer_head = (r.read_buffer_head + c) % ring_buffer_size;
    }

    filled_contents :
        slice (around after.read_buffer) r.read_buffer_tail (n + c) ≡ contents r ++ take c src
    filled_contents =
        slice-filled r.read_buffer src r.read_buffer_tail n r.read_buffer_head a c v.tail_in
          (head-eq r v) small (omega arith) (omega arith) (λ lt. omega arith) (omega arith)
