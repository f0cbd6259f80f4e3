-- ===== src/Prelude/Bits.antt =====
-- `|` of fields that do not overlap, and `&` with a mask of low bits, as arithmetic.
use Prim.Native.Nat.{
  ℕ, zero, suc, ◌+◌, ◌-◌, ◌*◌, ◌/◌, ◌%◌, ◌^◌, ◌≤◌, ◌<◌, min, max, bit_and, bit_or, digits, bitwise,
  bit_and-bitwise, bit_or-bitwise,
}
use mathlib.Core.Path.{◌≡◌, refl, sym, ap, ◌∙◌}
use native.Mathlib.Nat.{div-div-eq-div-mul, pow-suc, one-le-pow}
use native.Mathlib.Omega.{arith}

module _ (base : ℕ → ℕ) (digit : ℕ → ℕ → ℕ) where
  -- More fuel than the number's own size changes nothing.
  enough_fuel : (m n a b : ℕ) → a ≤ m → a ≤ n → digits base digit m a b ≡ digits base digit n a b
  enough_fuel zero zero a b hm hn = refl
  enough_fuel (suc m) zero zero b hm hn = refl
  enough_fuel (suc m) zero (suc a) b hm hn = absurd (omega arith)
  enough_fuel zero (suc n) zero b hm hn = refl
  enough_fuel zero (suc n) (suc a) b hm hn = absurd (omega arith)
  enough_fuel (suc m) (suc n) zero b hm hn = refl
  enough_fuel (suc m) (suc n) (suc a) b hm hn =
      rw (enough_fuel m n (suc a / 2) (b / 2) (omega arith) (omega arith))

  low_digit :
      (a b : ℕ)
      → bitwise base digit (suc a) b
        ≡ bitwise base digit (suc a / 2) (b / 2) * 2 + digit (suc a % 2) (b % 2)
  low_digit a b =
      omega (arith, enough_fuel a (suc a / 2) (suc a / 2) (b / 2) (omega arith) (omega arith))

-- One step down the binary digits.
bit_or_halves : (a b : ℕ) → bit_or a b ≡ bit_or (a / 2) (b / 2) * 2 + max (a % 2) (b % 2)
bit_or_halves zero b = simp bit_or-bitwise (omega arith)
bit_or_halves (suc a) b = simp bit_or-bitwise (low_digit (λ b. b) max a b)

bit_and_halves : (a b : ℕ) → bit_and a b ≡ bit_and (a / 2) (b / 2) * 2 + min (a % 2) (b % 2)
bit_and_halves zero b = simp bit_and-bitwise (omega arith)
bit_and_halves (suc a) b = simp bit_and-bitwise (low_digit (λ b. 0) min a b)

bit_or-zero : (bound a : ℕ) → a ≤ bound → bit_or a 0 ≡ a
bit_or-zero bound zero h = refl
bit_or-zero zero (suc a) h = absurd (omega arith)
bit_or-zero (suc bound) (suc a) h =
    omega (arith, bit_or_halves (suc a) 0, bit_or-zero bound (suc a / 2) (omega arith))

bit_and-zero : (bound a : ℕ) → a ≤ bound → bit_and a 0 ≡ 0
bit_and-zero bound zero h = refl
bit_and-zero zero (suc a) h = absurd (omega arith)
bit_and-zero (suc bound) (suc a) h =
    omega (arith, bit_and_halves (suc a) 0, bit_and-zero bound (suc a / 2) (omega arith))

-- `(high << k) | low`, where `low` has `k` bits.
pub bit_or-shifted : (k high low : ℕ) → low < 2 ^ k → bit_or (high * 2 ^ k) low ≡ high * 2 ^ k + low
bit_or-shifted zero high low h = ground (arith, bit_or-zero high high (omega arith))
bit_or-shifted (suc k) high low h = ground (
  arith,
  bit_or_halves (high * 2 ^ suc k) low,
  ap (λ (t : ℕ). high * t) (pow-suc 2 k),
  bit_or-shifted k high (low / 2) (omega (arith, pow-suc 2 k)),
)

bit_and_fields : (k high low : ℕ) → low < 2 ^ k → bit_and (high * 2 ^ k + low) (2 ^ k - 1) ≡ low
bit_and_fields zero high low h =
    let e : high * 1 + low ≡ high = omega arith in
    rw e (bit_and-zero high high (omega arith) ∙ omega arith)
bit_and_fields (suc k) high low h = ground (
  arith,
  bit_and_halves (high * 2 ^ suc k + low) (2 ^ suc k - 1),
  ap (λ (t : ℕ). high * t) (pow-suc 2 k),
  pow-suc 2 k,
  one-le-pow k 2,
  bit_and_fields k high (low / 2) (omega (arith, pow-suc 2 k)),
)

-- `a & (2 ^ k - 1)`
pub bit_and-mask : (k a : ℕ) → bit_and a (2 ^ k - 1) ≡ a % 2 ^ k
bit_and-mask k a = ground (arith, one-le-pow k 2, bit_and_fields k (a / 2 ^ k) (a % 2 ^ k))

-- `a & (mask << k)`
pub bit_and-shifted : (k a mask : ℕ) → bit_and a (mask * 2 ^ k) ≡ bit_and (a / 2 ^ k) mask * 2 ^ k
bit_and-shifted zero a mask =
    let e : mask * 1 ≡ mask = omega arith in
    let f : a / 1 ≡ a = omega arith in rw (e, f) (omega arith)
bit_and-shifted (suc k) a mask =
    let double : (n : ℕ) → n * 2 ^ suc k ≡ n * 2 ^ k * 2 =
      λ n. ap (λ (t : ℕ). n * t) (pow-suc 2 k) ∙ omega arith in
    let again : bit_and (a / 2 / 2 ^ k) mask ≡ bit_and (a / 2 ^ suc k) mask =
      ap (λ (t : ℕ). bit_and t mask)
        (div-div-eq-div-mul a 2 (2 ^ k) ∙ ap (λ (t : ℕ). a / t) (omega (arith, pow-suc 2 k))) in
    let low : bit_and a (mask * 2 ^ k * 2) ≡ bit_and (a / 2) (mask * 2 ^ k) * 2 =
      let half : mask * 2 ^ k * 2 / 2 ≡ mask * 2 ^ k = omega arith in
      bit_and_halves a (mask * 2 ^ k * 2) ∙ omega (arith, ap (λ (t : ℕ). bit_and (a / 2) t) half) in
    ap (bit_and a) (double mask)
    ∙ low
    ∙ ap (λ (t : ℕ). t * 2) (bit_and-shifted k (a / 2) mask)
    ∙ ap (λ (t : ℕ). t * 2 ^ k * 2) again
    ∙ sym (double (bit_and (a / 2 ^ suc k) mask))
