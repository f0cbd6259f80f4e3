-- ===== src/Ring/Queue.antt =====
-- What the ring buffer promises: a first-in first-out queue of at most `ring_buffer_size - 1`
-- bytes, oldest first.
use ice9_api.Prelude.{ℕ, ◌-◌, ◌*◌, min, List, ◌++◌, length, take, drop}

abbrev pub Queue : Type 0
Queue = List ℕ

abbrev pub capacity : ℕ
capacity = 1024 * 1024 - 1

-- The number of bytes handed over, these bytes, and the queue left.
abbrev pub drain : Queue → ℕ → ℕ × List ℕ × Queue
drain q count = (min count (length q), take count q, drop count q)

-- The number of bytes taken in, and the queue afterwards.
abbrev pub enqueue : Queue → List ℕ → ℕ → ℕ × Queue
enqueue q src count = let n = min count (capacity - length q) in (n, q ++ take n src)
