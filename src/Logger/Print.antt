-- ===== src/Logger/Print.antt =====
-- What the two loggers of logger.c print.
use ice9_api.Prelude.{
  ℕ, ◌-◌, ◌≤◌, ◌<◌, ◌≡◌, ◌≢◌, refl, ◌∙◌, ap, true, false, some, List, [], ◌∷◌, ℤ, pos, ltb,
  if◌then◌else◌, Memory, length, length-take, take, arith, Bool-cases, inl, inr,
}
use ice9_api.Logger.{
  lock, unlock, printf, fprintf, vfprintf, buf_size, c_string, end_buf, ice9_log_info,
  ice9_log_error,
}
use ice9_api.Logger.Text.{HasNoZero, take-HasNoZero, c_string-end_buf, Formats}

module _ {Message : Type 0} (text : Message → List ℕ)
    (vsnprintf : ℕ → Message → Memory → ℤ × Memory) (F : Formats text vsnprintf) where
  -- A message put at the start of the block, with room for `n` bytes, is the string of the block.
  formatted :
      (n : ℕ) (m : Message) (buf : Memory)
      → n ≢ 0
      → n ≤ buf_size
      → HasNoZero (text m)
      → c_string buf_size (end_buf (vsnprintf n m buf).1) 0 ≡ some (take (n - 1) (text m))
  formatted n m buf ne le h =
      c_string-end_buf (vsnprintf n m buf).1 (take (n - 1) (text m)) (F.writes n m buf ne)
        (take-HasNoZero (n - 1) (text m) h) (F.ends n m buf ne)
        (omega (arith, length-take (n - 1) (text m)))

  -- Whatever is in the block before: `ice9_log_info` reads nothing past its end, and prints, while
  -- it holds the lock, the first 255 bytes of the message.
  pub log_info_prints :
      (m : Message) (buf : Memory)
      → HasNoZero (text m)
      → ice9_log_info vsnprintf m buf ≡ some (lock ∷ printf (take 255 (text m)) ∷ unlock ∷ [])
  unfolding ice9_log_info
  log_info_prints m buf h =
      rw (ice9_log_info, formatted buf_size m buf (omega arith) (omega arith) h) refl

  -- The two ways of `ice9_log_error`.
  module _ (place message again : Message) (buf : Memory) (n : ℕ) where
    abbrev placed : ℤ × Memory
    placed = vsnprintf buf_size place buf

    place_fits :
        (shown : List ℕ)
        → placed.0 ≡ pos n
        → ltb n 255 ≡ true
        → c_string buf_size (end_buf (vsnprintf (buf_size - n) again placed.1).1) 0 ≡ some shown
        → ice9_log_error vsnprintf place message again buf
          ≡ some (vfprintf message ∷ lock ∷ fprintf shown ∷ unlock ∷ [])
    unfolding ice9_log_error
    place_fits shown e fits printed = ground (arith, e, fits, printed)

    place_too_long :
        (shown : List ℕ)
        → placed.0 ≡ pos n
        → ltb n 255 ≡ false
        → c_string buf_size (end_buf placed.1) 0 ≡ some shown
        → ice9_log_error vsnprintf place message again buf
          ≡ some (lock ∷ fprintf shown ∷ unlock ∷ [])
    unfolding ice9_log_error
    place_too_long shown e long printed = ground (arith, e, long, printed)

  -- `ice9_log_error` reads nothing past the end of its block either. If the file and the line take
  -- less than 255 bytes, they are not printed: the message goes to the standard error without
  -- the lock, and then with the lock a second time, without the file and the line, and cut off at
  -- 255 bytes less theirs. If they take more, their first 255 bytes are all that is printed.
  pub log_error_prints :
      (place message again : Message) (buf : Memory)
      → HasNoZero (text place)
      → HasNoZero (text again)
      → let n = length (text place) in
        ice9_log_error vsnprintf place message again buf
        ≡ some (
            if ltb n 255
            then vfprintf message ∷ lock ∷ fprintf (take (255 - n) (text again)) ∷ unlock ∷ []
            else lock ∷ fprintf (take 255 (text place)) ∷ unlock ∷ [])
  log_error_prints place message again buf h h' =
      let n = length (text place) in
      let value = F.value buf_size place buf (omega arith) in
      let buf' = (vsnprintf buf_size place buf).1 in
      elim (Bool-cases (ltb n 255)) [
        | inl fits ↦
            let lt : n < 255 = ground arith in
            let room : 256 - n - 1 ≡ 255 - n = omega arith in
            let printed = formatted (256 - n) again buf' (omega arith) (omega arith) h' in
            rw fits (
              place_fits place message again buf n (take (255 - n) (text again)) value fits
                (printed ∙ ap (λ k. some (take k (text again))) room))
        | inr long ↦ rw long (
            place_too_long place message again buf n (take 255 (text place)) value long
              (formatted buf_size place buf (omega arith) (omega arith) h))
      ]
