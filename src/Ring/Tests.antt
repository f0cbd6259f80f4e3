-- ===== src/Ring/Tests.antt =====
-- Tests and witnesses for the ring buffer.
use ice9_api.Prelude.{ℕ, ◌+◌, ◌-◌, ◌%◌, ◌≡◌, refl, some, List, [], ◌∷◌, arith, ◌==◌, if◌then◌else◌}
use ice9_api.Ring.{
  Ring, ring_buffer_size, bytes_in_read_buffer, drain_from_read_buffer, enqueue_to_read_buffer,
}
use ice9_api.Ring.Contents.{IsValid, contents}
use mathlib.Core.Quot
use ice9_api.Ring.Abstract.{ValidRing, fifo, rings_indistinguishable}
use ice9_api.Ring.Trip.{enqueue_then_drain}
use ice9_api.Ring.Refine.{drain_refines, enqueue_refines}

-- Three bytes, the last two of them behind the end of the buffer.
abbrev wrapped : Ring
wrapped = record {
  read_buffer = λ i. i % 251;
  read_buffer_size = ring_buffer_size;
  read_buffer_head = 2;
  read_buffer_tail = ring_buffer_size - 1;
}

wrapped-IsValid : IsValid wrapped
wrapped-IsValid = omega arith

contents-wrapped : contents wrapped ≡ 148 ∷ 0 ∷ 1 ∷ []
unfolding bytes_in_read_buffer
contents-wrapped = refl

drain_two :
    drain_from_read_buffer wrapped 2
    ≡ some (2, 148 ∷ 0 ∷ [], record wrapped { read_buffer_tail = 1 })
unfolding drain_from_read_buffer bytes_in_read_buffer
drain_two = refl

drain_refines_example :
    (r' : Ring) × (drain_from_read_buffer wrapped 2 ≡ some (2, 148 ∷ 0 ∷ [], r'))
    × IsValid r'
    × (contents r' ≡ 1 ∷ [])
unfolding bytes_in_read_buffer
drain_refines_example = drain_refines 2 wrapped-IsValid

enqueue_refines_example :
    (r' : Ring) × (enqueue_to_read_buffer wrapped (7 ∷ 8 ∷ []) 2 ≡ some (2, r'))
    × IsValid r'
    × (contents r' ≡ 148 ∷ 0 ∷ 1 ∷ 7 ∷ 8 ∷ [])
unfolding bytes_in_read_buffer
enqueue_refines_example = enqueue_refines (7 ∷ 8 ∷ []) 2 wrapped-IsValid (omega arith)

-- The bytes of `wrapped`, at the start of a buffer.
abbrev straight : Ring
straight = record {
  read_buffer = λ i. if i == 0 then 148 else i - 1;
  read_buffer_size = ring_buffer_size;
  read_buffer_head = 3;
  read_buffer_tail = 0;
}

straight-IsValid : IsValid straight
straight-IsValid = record { head_in = omega arith; tail_in = omega arith }

one_queue : fifo (wrapped, wrapped-IsValid) ≡ fifo (straight, straight-IsValid)
unfolding bytes_in_read_buffer
one_queue = Quot.sound refl

rings_indistinguishable_example :
    ((n : ℕ) × (bytes : List ℕ) × (a' b' : ValidRing) × (drain_from_read_buffer wrapped 2
        ≡ some (n, bytes, a'.0))
      × (drain_from_read_buffer straight 2 ≡ some (n, bytes, b'.0))
      × (fifo a' ≡ fifo b'))
    × ((n : ℕ) × (a' b' : ValidRing) × (enqueue_to_read_buffer wrapped (7 ∷ 8 ∷ []) 2
          ≡ some (n, a'.0))
        × (enqueue_to_read_buffer straight (7 ∷ 8 ∷ []) 2 ≡ some (n, b'.0))
        × (fifo a' ≡ fifo b'))
rings_indistinguishable_example =
    rings_indistinguishable 2 (7 ∷ 8 ∷ []) (wrapped, wrapped-IsValid) (straight, straight-IsValid)
      (omega arith) one_queue

-- Two bytes more than the three that it has.
enqueue_then_drain_example :
    (n m : ℕ) × (bytes : List ℕ) × (r1 r2 : Ring) × (enqueue_to_read_buffer wrapped (7 ∷ 8 ∷ []) 2
      ≡ some (n, r1))
    × (drain_from_read_buffer r1 5 ≡ some (m, bytes, r2))
    × (bytes ≡ 148 ∷ 0 ∷ 1 ∷ 7 ∷ 8 ∷ [])
    × (m ≡ 3 + n)
    × IsValid r2
    × (contents r2 ≡ [])
unfolding bytes_in_read_buffer
enqueue_then_drain_example = enqueue_then_drain wrapped (7 ∷ 8 ∷ []) 5 wrapped-IsValid (omega arith)
