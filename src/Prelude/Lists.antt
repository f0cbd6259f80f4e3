-- ===== src/Prelude/Lists.antt =====
-- Lists measured and indexed by native numbers, under the library's names.
use Prim.Native.Nat.{ℕ, zero, suc, ◌+◌, ◌-◌, ◌≤◌, ◌<◌, min}
use mathlib.Core.Path.{◌≡◌, refl, ap, sym, ◌∙◌}
use mathlib.Core.List.{List, [], ◌∷◌, ◌++◌, append_assoc}
use native.Mathlib.Omega.{arith}

module _ {ℓ} {A : Type ℓ} where
  abbrev pub length : List A → ℕ
  length [] = 0
  length (x ∷ xs) = suc (length xs)

  abbrev pub get_or : List A → ℕ → A → A
  get_or [] i d = d
  get_or (x ∷ xs) zero d = x
  get_or (x ∷ xs) (suc i) d = get_or xs i d

  abbrev pub take : ℕ → List A → List A
  take zero xs = []
  take (suc n) [] = []
  take (suc n) (x ∷ xs) = x ∷ take n xs

  abbrev pub drop : ℕ → List A → List A
  drop zero xs = xs
  drop (suc n) [] = []
  drop (suc n) (x ∷ xs) = drop n xs

  abbrev pub concat : List (List A) → List A
  concat [] = []
  concat (xs ∷ lists) = xs ++ concat lists

  abbrev pub replicate : ℕ → A → List A
  replicate zero a = []
  replicate (suc n) a = a ∷ replicate n a

module _ {ℓ} {A : Type ℓ} where
  pub length-append : (xs ys : List A) → length (xs ++ ys) ≡ length xs + length ys
  length-append [] ys = omega arith
  length-append (x ∷ xs) ys = omega (arith, length-append xs ys)

  pub length-take : (n : ℕ) (xs : List A) → length (take n xs) ≡ min n (length xs)
  length-take zero xs = omega arith
  length-take (suc n) [] = omega arith
  length-take (suc n) (x ∷ xs) = omega (arith, length-take n xs)

  pub length-drop : (n : ℕ) (xs : List A) → length (drop n xs) ≡ length xs - n
  length-drop zero xs = omega arith
  length-drop (suc n) [] = omega arith
  length-drop (suc n) (x ∷ xs) = omega (arith, length-drop n xs)

  pub take-append-drop : (n : ℕ) (xs : List A) → take n xs ++ drop n xs ≡ xs
  take-append-drop zero xs = refl
  take-append-drop (suc n) [] = refl
  take-append-drop (suc n) (x ∷ xs) = rw (take-append-drop n xs)

  pub take_all : (n : ℕ) (xs : List A) → length xs ≤ n → take n xs ≡ xs
  take_all zero [] h = refl
  take_all zero (x ∷ xs) h = absurd (omega arith)
  take_all (suc n) [] h = refl
  take_all (suc n) (x ∷ xs) h = ap (λ ys. x ∷ ys) (take_all n xs (omega arith))

  pub drop_all : (n : ℕ) (xs : List A) → length xs ≤ n → drop n xs ≡ []
  drop_all zero [] h = refl
  drop_all zero (x ∷ xs) h = absurd (omega arith)
  drop_all (suc n) [] h = refl
  drop_all (suc n) (x ∷ xs) h = drop_all n xs (omega arith)

  -- A prefix of an append, and what follows it, once the first list is used up.
  pub take-append :
      (n : ℕ) (xs ys : List A) → take n (xs ++ ys) ≡ take n xs ++ take (n - length xs) ys
  take-append n [] ys = let e : n - 0 ≡ n = omega arith in rw e (take_nil n ys)
    where
      take_nil : (k : ℕ) (zs : List A) → take k zs ≡ take k [] ++ take k zs
      take_nil zero zs = refl
      take_nil (suc k) zs = refl
  take-append zero (x ∷ xs) ys = let e : 0 - suc (length xs) ≡ 0 = omega arith in rw e
  take-append (suc n) (x ∷ xs) ys =
      let e : suc n - suc (length xs) ≡ n - length xs = omega arith in
      rw e (ap (λ zs. x ∷ zs) (take-append n xs ys))

  pub drop-append :
      (n : ℕ) (xs ys : List A) → drop n (xs ++ ys) ≡ drop n xs ++ drop (n - length xs) ys
  drop-append n [] ys = let e : n - 0 ≡ n = omega arith in rw e (drop_nil n ys)
    where
      drop_nil : (k : ℕ) (zs : List A) → drop k zs ≡ drop k [] ++ drop k zs
      drop_nil zero zs = refl
      drop_nil (suc k) zs = refl
  drop-append zero (x ∷ xs) ys = let e : 0 - suc (length xs) ≡ 0 = omega arith in rw e
  drop-append (suc n) (x ∷ xs) ys =
      let e : suc n - suc (length xs) ≡ n - length xs = omega arith in rw e (drop-append n xs ys)

  pub take-add : (m n : ℕ) (xs : List A) → take (m + n) xs ≡ take m xs ++ take n (drop m xs)
  take-add zero n xs = ap (λ k. take k xs) (omega arith)
  take-add (suc m) n [] = let e : suc m + n ≡ suc (m + n) = omega arith in rw e (take_none n)
    where
      take_none : (k : ℕ) → ◌≡◌ {A = List A} [] (take k [])
      take_none zero = refl
      take_none (suc k) = refl
  take-add (suc m) n (x ∷ xs) =
      let e : suc m + n ≡ suc (m + n) = omega arith in rw e (ap (λ zs. x ∷ zs) (take-add m n xs))

  pub drop-add : (m n : ℕ) (xs : List A) → drop (m + n) xs ≡ drop n (drop m xs)
  drop-add zero n xs = ap (λ k. drop k xs) (omega arith)
  drop-add (suc m) n [] = let e : suc m + n ≡ suc (m + n) = omega arith in rw e (drop_none n)
    where
      drop_none : (k : ℕ) → ◌≡◌ {A = List A} [] (drop k [])
      drop_none zero = refl
      drop_none (suc k) = refl
  drop-add (suc m) n (x ∷ xs) =
      let e : suc m + n ≡ suc (m + n) = omega arith in rw e (drop-add m n xs)

  pub concat-append : (xs ys : List (List A)) → concat (xs ++ ys) ≡ concat xs ++ concat ys
  concat-append [] ys = refl
  concat-append (x ∷ xs) ys =
      ap (λ zs. x ++ zs) (concat-append xs ys) ∙ sym (append_assoc x (concat xs) (concat ys))

  -- More is taken of a list after `n` have been dropped.
  pub take-after_drop :
      (n : ℕ) (xs ys : List A) → take (n - length xs) (drop n xs ++ ys) ≡ take (n - length xs) ys
  take-after_drop zero [] ys = refl
  take-after_drop (suc n) [] ys = refl
  take-after_drop zero (x ∷ xs) ys = let e : 0 - suc (length xs) ≡ 0 = omega arith in rw e
  take-after_drop (suc n) (x ∷ xs) ys =
      let e : suc n - suc (length xs) ≡ n - length xs = omega arith in
      rw e (take-after_drop n xs ys)

  pub drop-after_drop :
      (n : ℕ) (xs ys : List A)
      → drop (n - length xs) (drop n xs ++ ys) ≡ drop n xs ++ drop (n - length xs) ys
  drop-after_drop zero [] ys = refl
  drop-after_drop (suc n) [] ys = refl
  drop-after_drop zero (x ∷ xs) ys = let e : 0 - suc (length xs) ≡ 0 = omega arith in rw e
  drop-after_drop (suc n) (x ∷ xs) ys =
      let e : suc n - suc (length xs) ≡ n - length xs = omega arith in
      rw e (drop-after_drop n xs ys)

  pub length-replicate : (n : ℕ) (a : A) → length (replicate n a) ≡ n
  length-replicate zero a = refl
  length-replicate (suc n) a = ap suc (length-replicate n a)

module _ {ℓ} {A : Type ℓ} where
  pub get_or-drop : (n i : ℕ) (xs : List A) (d : A) → get_or (drop n xs) i d ≡ get_or xs (n + i) d
  get_or-drop zero i xs d = ap (λ k. get_or xs k d) (sym_zero i)
    where
      sym_zero : (k : ℕ) → k ≡ zero + k
      sym_zero k = omega arith
  get_or-drop (suc n) i [] d = refl
  get_or-drop (suc n) i (x ∷ xs) d =
      let e : suc n + i ≡ suc (n + i) = omega arith in rw e (get_or-drop n i xs d)

module _ {ℓ} {A : Type ℓ} where
  -- A list taken off the front of an append, and what is left.
  pub take-append_front : (n : ℕ) (xs ys : List A) → n ≡ length xs → take n (xs ++ ys) ≡ xs
  take-append_front zero [] ys e = refl
  take-append_front zero (x ∷ xs) ys e = absurd (omega arith)
  take-append_front (suc n) [] ys e = absurd (omega arith)
  take-append_front (suc n) (x ∷ xs) ys e =
      ap (λ zs. x ∷ zs) (take-append_front n xs ys (omega arith))

  pub drop-append_front : (n : ℕ) (xs ys : List A) → n ≡ length xs → drop n (xs ++ ys) ≡ ys
  drop-append_front zero [] ys e = refl
  drop-append_front zero (x ∷ xs) ys e = absurd (omega arith)
  drop-append_front (suc n) [] ys e = absurd (omega arith)
  drop-append_front (suc n) (x ∷ xs) ys e = drop-append_front n xs ys (omega arith)

module _ {ℓ} {A : Type ℓ} where
  -- Taking `n` off `xs ++ ys` in two steps: first off `xs`, then what is still wanted off the rest.
  pub take_twice :
      (n : ℕ) (xs ys : List A)
      → take n (xs ++ ys) ≡ take n xs ++ take (n - length xs) (drop n xs ++ ys)
  take_twice n [] ys = let e : n - 0 ≡ n = omega arith in rw e (empty n)
    where
      empty : (k : ℕ) → take k ys ≡ take k [] ++ take k (drop k [] ++ ys)
      empty zero = refl
      empty (suc k) = refl
  take_twice zero (x ∷ xs) ys = let e : 0 - suc (length xs) ≡ 0 = omega arith in rw e
  take_twice (suc n) (x ∷ xs) ys =
      let e : suc n - suc (length xs) ≡ n - length xs = omega arith in
      rw e (ap (λ zs. x ∷ zs) (take_twice n xs ys))

  pub drop_twice :
      (n : ℕ) (xs ys : List A) → drop n (xs ++ ys) ≡ drop (n - length xs) (drop n xs ++ ys)
  drop_twice n [] ys = let e : n - 0 ≡ n = omega arith in rw e (empty n)
    where
      empty : (k : ℕ) → drop k ys ≡ drop k (drop k [] ++ ys)
      empty zero = refl
      empty (suc k) = refl
  drop_twice zero (x ∷ xs) ys = let e : 0 - suc (length xs) ≡ 0 = omega arith in rw e
  drop_twice (suc n) (x ∷ xs) ys =
      let e : suc n - suc (length xs) ≡ n - length xs = omega arith in rw e (drop_twice n xs ys)

module _ {ℓ} {A : Type ℓ} where
  pub get_or-take : (n : ℕ) (xs : List A) (d : A) → 0 < n → get_or (take n xs) 0 d ≡ get_or xs 0 d
  get_or-take zero xs d h = absurd (omega arith)
  get_or-take (suc n) [] d h = refl
  get_or-take (suc n) (x ∷ xs) d h = refl

module _ {ℓ} {A : Type ℓ} where
  -- Taking no more than there is.
  pub take-min : (n : ℕ) (xs : List A) → take (min n (length xs)) xs ≡ take n xs
  take-min zero xs = let e : min zero (length xs) ≡ 0 = omega arith in rw e
  take-min (suc n) [] = let e : min (suc n) 0 ≡ 0 = omega arith in rw e
  take-min (suc n) (x ∷ xs) =
      let e : min (suc n) (suc (length xs)) ≡ suc (min n (length xs)) = omega arith in
      rw (e, take-min n xs)
