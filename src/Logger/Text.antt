-- ===== src/Logger/Text.antt =====
-- The string that is in a block after `vsnprintf`.
use ice9_api.Prelude.{
  ℕ, zero, suc, ◌+◌, ◌-◌, ◌<◌, ◌≡◌, ◌≢◌, ◌∙◌, ap, some, List, [], ◌∷◌, ℤ, pos, Memory, slice,
  slice_cong, length, take, arith,
}
use ice9_api.Logger.{c_string, end_buf, buf_size}

-- A text has no byte 0.
abbrev pub HasNoZero : List ℕ → Type 0
HasNoZero [] = Unit
HasNoZero (x ∷ xs) = (x ≢ 0) × HasNoZero xs

pub take-HasNoZero : (n : ℕ) (xs : List ℕ) → HasNoZero xs → HasNoZero (take n xs)
take-HasNoZero zero xs h = tt
take-HasNoZero (suc n) [] h = tt
take-HasNoZero (suc n) (x ∷ xs) h = (h.0, take-HasNoZero n xs h.1)

-- A text with a 0 behind it is the string.
pub c_string_reads :
    (fuel : ℕ) (buf : Memory) (i : ℕ) (text : List ℕ)
    → slice buf i (length text) ≡ text
    → HasNoZero text
    → buf (i + length text) ≡ 0
    → length text < fuel
    → c_string fuel buf i ≡ some text
c_string_reads zero buf i text same h e lt = absurd (omega arith)
c_string_reads (suc fuel) buf i [] same h e lt =
    let zero_byte : buf i ≡ 0 = ap buf (omega arith) ∙ e in ground arith
c_string_reads (suc fuel) buf i (x ∷ xs) same h e lt =
    let byte : buf i ≡ x = cc in
    let later : slice buf (i + 1) (length xs) ≡ xs = cc in
    let end : buf (i + 1 + length xs) ≡ 0 = ap buf (omega arith) ∙ e in
    let rest = c_string_reads fuel buf (i + 1) xs later h.1 end (omega arith) in
    let ne = h.0 in ground arith

-- What the logger then finds in its block, in which it has put a 0 at the end.
pub c_string-end_buf :
    (buf : Memory) (text : List ℕ)
    → slice buf 0 (length text) ≡ text
    → HasNoZero text
    → buf (length text) ≡ 0
    → length text < buf_size
    → c_string buf_size (end_buf buf) 0 ≡ some text
c_string-end_buf buf text same h e lt =
    c_string_reads buf_size (end_buf buf) 0 text
      (slice_cong (end_buf buf) buf 0 0 (length text) (λ k less. ground arith) ∙ same) h
      (let at_end : end_buf buf (length text) ≡ 0 = ground arith in
        ap (end_buf buf) (omega arith) ∙ at_end)
      lt

-- What C says of `vsnprintf` with a text: `n - 1` bytes of it and no more are put in the block, and a 0
-- behind them; and the value is the length of the whole text.
pub record Formats {Message : Type 0} (text : Message → List ℕ)
    (vsnprintf : ℕ → Message → Memory → ℤ × Memory) : Type 0 where
  pub value :
      (n : ℕ) (m : Message) (buf : Memory) → n ≢ 0 → (vsnprintf n m buf).0 ≡ pos (length (text m))
  pub writes :
      (n : ℕ) (m : Message) (buf : Memory)
      → n ≢ 0
      → slice (vsnprintf n m buf).1 0 (length (take (n - 1) (text m))) ≡ take (n - 1) (text m)
  pub ends :
      (n : ℕ) (m : Message) (buf : Memory)
      → n ≢ 0
      → (vsnprintf n m buf).1 (length (take (n - 1) (text m))) ≡ 0
