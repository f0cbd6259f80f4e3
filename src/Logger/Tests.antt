-- ===== src/Logger/Tests.antt =====
-- The loggers run with a `vsnprintf` on lists of bytes.
use ice9_api.Prelude.{
  ℕ, ◌-◌, ◌≡◌, refl, ◌∙◌, ap, some, List, [], ◌∷◌, ℤ, pos, ◌==◌, if◌then◌else◌, Memory, slice,
  slice_cong, slice-patch, patch, length, take, take_all, arith,
}
use ice9_api.Logger.{lock, unlock, printf, fprintf, vfprintf, ice9_log_info, ice9_log_error}
use ice9_api.Logger.Text.{Formats}
use ice9_api.Logger.Print.{log_info_prints, log_error_prints}

-- A message is its text.
abbrev put_text : ℕ → List ℕ → Memory → ℤ × Memory
put_text n text buf =
    let shown = take (n - 1) text in
    (pos (length text), λ i. if i == length shown then 0 else patch buf 0 shown (length shown) i)

put_text-Formats : Formats (λ (m : List ℕ). m) put_text
put_text-Formats = record {
  value = λ n m buf ne. refl;
  writes = λ n m buf ne.
      slice_cong (put_text n m buf).1 (patch buf 0 (take (n - 1) m) (length (take (n - 1) m))) 0 0
        (length (take (n - 1) m)) (λ k less. ground arith)
      ∙ ap (slice (patch buf 0 (take (n - 1) m) (length (take (n - 1) m))) 0) (omega arith)
      ∙ slice-patch buf 0 0 (length (take (n - 1) m)) 0 (take (n - 1) m) refl (omega arith)
      ∙ take_all (length (take (n - 1) m)) (take (n - 1) m) (omega arith);
  ends = λ n m buf ne. ground arith;
}

abbrev hello : List ℕ
hello = 104 ∷ 105 ∷ []

abbrev place : List ℕ
place = 102 ∷ 58 ∷ 55 ∷ 32 ∷ []

abbrev unset : Memory
unset i = 7

log_info_prints_example :
    ice9_log_info put_text hello unset ≡ some (lock ∷ printf hello ∷ unlock ∷ [])
log_info_prints_example =
    log_info_prints (λ m. m) put_text put_text-Formats hello unset (omega arith, (omega arith, tt))

log_error_prints_example :
    ice9_log_error put_text place hello hello unset
    ≡ some (vfprintf hello ∷ lock ∷ fprintf hello ∷ unlock ∷ [])
log_error_prints_example =
    log_error_prints (λ m. m) put_text put_text-Formats place hello hello unset
      (omega arith, (omega arith, (omega arith, (omega arith, tt))))
      (omega arith, (omega arith, tt))
