-- ===== src/Ring/Contents.antt =====
-- The bytes that a ring holds, and the positions of its buffer that a transfer reads or writes.
use ice9_api.Prelude.{
  ℕ, ◌+◌, ◌-◌, ◌%◌, ◌≤◌, ◌<◌, ◌≡◌, ap, ap₂, List, ◌++◌, arith, Memory, slice, patch, length, take,
  drop, get_or, slice_cong, slice-add, slice-eq-take, get_or-drop,
}
use ice9_api.Ring.{Ring, ring_buffer_size, bytes_in_read_buffer}

-- Both indices lie inside the buffer.
pub record IsValid (r : Ring) : Type 0 where
  pub head_in : r.read_buffer_head < ring_buffer_size
  pub tail_in : r.read_buffer_tail < ring_buffer_size

-- The bytes from index `o` on, going round at the end of the buffer.
abbrev pub around : Memory → Memory
around m i = m (i % ring_buffer_size)

abbrev pub contents : Ring → List ℕ
contents r = slice (around r.read_buffer) r.read_buffer_tail (bytes_in_read_buffer r)

-- Reading `n` bytes round the end is reading the two runs that `memcpy` is called for.
pub slice-around :
    (m : Memory) (t a b : ℕ)
    → t < ring_buffer_size
    → t + a ≤ ring_buffer_size
    → b ≤ t
    → (0 < b → t + a ≡ ring_buffer_size)
    → slice m t a ++ slice m ((t + a) % ring_buffer_size) b ≡ slice (around m) t (a + b)
slice-around m t a b ht ha hb full = rw slice-add (
    ap₂ ◌++◌ (slice_cong m (around m) t t a (λ k lt. ap m (omega arith)))
      (slice_cong m (around m) ((t + a) % ring_buffer_size) (t + a) b (λ k lt. ap m (before k lt))))
  where
    before : (k : ℕ) → k < b → (t + a) % ring_buffer_size + k ≡ (t + a + k) % ring_buffer_size
    before k lt = omega arith

-- The buffer after the two transfers of an enqueue of `c` bytes, `a` of them in the first.
abbrev pub filled : Memory → ℕ → List ℕ → ℕ → ℕ → Memory
filled m h src a c = patch (patch m h src a) ((h + a) % ring_buffer_size) (drop a src) (c - a)

module _ (m : Memory) (src : List ℕ) (t n h a c : ℕ) (ht : t < ring_buffer_size)
    (eh : (t + n) % ring_buffer_size ≡ h) (fits : n + c < ring_buffer_size) (part : a ≤ c)
    (first : h + a ≤ ring_buffer_size) (full : a < c → h + a ≡ ring_buffer_size) where
  -- They leave the bytes in the buffer alone.
  filled_old : (k : ℕ) → k < n → around (filled m h src a c) (t + k) ≡ around m (t + k)
  filled_old k lt = ground arith

  -- They put the bytes of `src` behind them.
  filled_new : (k : ℕ) → k < c → around (filled m h src a c) (t + n + k) ≡ get_or src k 0
  filled_new k lt = ground (arith, get_or-drop a (k - a) src 0)

  pub slice-filled :
      c ≤ length src
      → slice (around (filled m h src a c)) t (n + c) ≡ slice (around m) t n ++ take c src
  slice-filled le = rw slice-add (
      ap₂ ◌++◌ (slice_cong (around (filled m h src a c)) (around m) t t n filled_old)
        (slice-eq-take (around (filled m h src a c)) (t + n) c src le filled_new))
