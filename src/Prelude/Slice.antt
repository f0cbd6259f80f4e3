-- ===== src/Prelude/Slice.antt =====
-- Memory as a function from addresses to bytes, and the `memcpy` of a C program on it.
use Prim.Native.Nat.{ℕ, zero, suc, ◌+◌, ◌-◌, ◌≤◌, ◌<◌, min}
use mathlib.Core.Path.{◌≡◌, refl, ap, ap₂, ◌∙◌}
use mathlib.Core.Bool.{◌&&◌}
use mathlib.Core.Option.{Option, none, some}
use mathlib.Core.List.{List, [], ◌∷◌, ◌++◌}
use native.Mathlib.Omega.{arith}
use ice9_api.Prelude.Tests.{ltb, leb, if◌then◌else◌}
use ice9_api.Prelude.Lists.{length, get_or, take, drop}

abbrev pub Memory : Type 0
Memory = ℕ → ℕ

-- The `n` bytes from address `o` on.
abbrev pub slice : Memory → ℕ → ℕ → List ℕ
slice m o zero = []
slice m o (suc n) = m o ∷ slice m (o + 1) n

-- The bytes of `src[0..n)` at the addresses `o .. o + n`, the rest as before.
abbrev pub patch : Memory → ℕ → List ℕ → ℕ → Memory
patch m o src n i = if leb o i && ltb i (o + n) then get_or src (i - o) 0 else m i

-- `memcpy(dest, m + o, n)` from a block of `size` bytes; `none` is a read outside of it.
abbrev pub load : ℕ → Memory → ℕ → ℕ → Option (List ℕ)
load size m o n = if leb (o + n) size then some (slice m o n) else none

-- `memcpy(m + o, src, n)` into a block of `size` bytes; `none` is an access outside of a block.
abbrev pub store : ℕ → Memory → ℕ → List ℕ → ℕ → Option Memory
store size m o src n =
    if leb (o + n) size && leb n (length src) then some (patch m o src n) else none

pub length-slice : (m : Memory) (o n : ℕ) → length (slice m o n) ≡ n
length-slice m o zero = refl
length-slice m o (suc n) = ap suc (length-slice m (o + 1) n)

-- Slices of equal bytes are equal.
pub slice_cong :
    (f g : Memory) (o p n : ℕ)
    → ((k : ℕ) → k < n → f (o + k) ≡ g (p + k))
    → slice f o n ≡ slice g p n
slice_cong f g o p zero h = refl
slice_cong f g o p (suc n) h =
    ap₂ ◌∷◌ (ap f (omega arith) ∙ h 0 (omega arith) ∙ ap g (omega arith)) (
      slice_cong f g (o + 1) (p + 1) n
        (λ k lt. ap f (omega arith) ∙ h (k + 1) (omega arith) ∙ ap g (omega arith)))

pub slice-add : (f : Memory) (o a b : ℕ) → slice f o (a + b) ≡ slice f o a ++ slice f (o + a) b
slice-add f o zero b = ap₂ (slice f) (omega arith) (omega arith)
slice-add f o (suc a) b =
    let front : suc a + b ≡ suc (a + b) = omega arith in
    let middle : o + 1 + a ≡ o + suc a = omega arith in
    rw front (ap (λ xs. f o ∷ xs) (rw (← middle) (slice-add f (o + 1) a b)))

-- A slice that holds the bytes of a list.
pub slice-eq-take :
    (f : Memory) (o n : ℕ) (src : List ℕ)
    → n ≤ length src
    → ((k : ℕ) → k < n → f (o + k) ≡ get_or src k 0)
    → slice f o n ≡ take n src
slice-eq-take f o zero src h e = refl
slice-eq-take f o (suc n) [] h e = absurd (omega arith)
slice-eq-take f o (suc n) (x ∷ src) h e = ap₂ ◌∷◌ (ap f (omega arith) ∙ e 0 (omega arith)) (
    slice-eq-take f (o + 1) n src (omega arith)
      (λ k lt. ap f (omega arith) ∙ e (suc k) (omega arith)))

-- A prefix of a slice, and what follows it.
pub take-slice : (f : Memory) (o n count : ℕ) → take count (slice f o n) ≡ slice f o (min count n)
take-slice f o zero zero = refl
take-slice f o zero (suc count) = let e : min (suc count) zero ≡ 0 = omega arith in rw e
take-slice f o (suc n) zero = let e : min zero (suc n) ≡ 0 = omega arith in rw e
take-slice f o (suc n) (suc count) =
    let e : min (suc count) (suc n) ≡ suc (min count n) = omega arith in
    rw e (ap (λ xs. f o ∷ xs) (take-slice f (o + 1) n count))

pub drop-slice :
    (f : Memory) (o n count : ℕ) → drop count (slice f o n) ≡ slice f (o + min count n) (n - count)
drop-slice f o zero zero = refl
drop-slice f o zero (suc count) = let e : zero - suc count ≡ 0 = omega arith in rw e
drop-slice f o (suc n) zero =
    let e : o + min zero (suc n) ≡ o = omega arith in
    let k : suc n - zero ≡ suc n = omega arith in rw (e, k)
drop-slice f o (suc n) (suc count) =
    let e : o + min (suc count) (suc n) ≡ o + 1 + min count n = omega arith in
    let k : suc n - suc count ≡ n - count = omega arith in rw (e, k) (drop-slice f (o + 1) n count)

-- Bytes put behind a slice.
pub slice-patch :
    (m : Memory) (o a n p : ℕ) (src : List ℕ)
    → p ≡ o + a
    → n ≤ length src
    → slice (patch m p src n) o (a + n) ≡ slice m o a ++ take n src
slice-patch m o a n p src e h =
    slice-add (patch m p src n) o a n
    ∙ ap₂ ◌++◌ (slice_cong (patch m p src n) m o o a (λ k lt. ground arith))
        (slice-eq-take (patch m p src n) (o + a) n src h (λ k lt. ground (arith, offset k)))
  where
    offset : (k : ℕ) → get_or src (o + a + k - p) 0 ≡ get_or src k 0
    offset k = let i : o + a + k - p ≡ k = omega arith in rw i
