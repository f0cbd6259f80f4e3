-- ===== src/Read/Sequence.antt =====
-- Calls of `ice9_stream_read`, one after the other.
use ice9_api.Prelude.{
  ℕ, ◌+◌, ◌≤◌, ◌≡◌, refl, ◌∙◌, sym, ap, List, [], ◌∷◌, ◌++◌, length, take, drop, arith, done, pure,
  ◌>>=◌, >>=-eq-done, length-drop, take-add, drop-add,
}
use ice9_api.ErrorCode.{Ice9Error, ok}
use ice9_api.Host.{Host, UsbReply}
use ice9_api.Read.{Reads, ice9_stream_read}
use ice9_api.Read.View.{Gives, view, AllReplies, IsValidHost}
use ice9_api.Read.Stream.{IsTransfer, stripped, ice9_stream_read-Gives}

abbrev pub sum : List ℕ → ℕ
sum [] = 0
sum (n ∷ sizes) = n + sum sizes

-- What follows a read that has returned `OK`; the bytes of all go into one buffer.
abbrev and_then : Reads → Ice9Error × List ℕ → Reads
and_then rest (ok, bytes) = rest >>= λ later. pure (later.0, bytes ++ later.1)
and_then rest (code, bytes) = pure (code, bytes)

-- A client that reads blocks of these sizes until a read does not return `OK`.
unfoldable pub read_all : List ℕ → Reads
read_all [] = pure (ok, [])
read_all (n ∷ sizes) = ice9_stream_read n >>= and_then (read_all sizes)

read_all_steps :
    (n : ℕ) (sizes : List ℕ) (rs : List UsbReply) (h : Host) {rs' rs'' : List UsbReply}
    → {h' h'' : Host} {bytes later : List ℕ} → ice9_stream_read n rs h ≡ done (ok, bytes) rs' h'
    → read_all sizes rs' h' ≡ done (ok, later) rs'' h''
    → read_all (n ∷ sizes) rs h ≡ done (ok, bytes ++ later) rs'' h''
unfolding read_all
read_all_steps n sizes rs h {bytes = bytes} e f =
    >>=-eq-done (ice9_stream_read n) (and_then (read_all sizes)) e
    ∙ >>=-eq-done (read_all sizes) (λ later. pure (later.0, bytes ++ later.1)) f

-- However the reads are cut: calls of `ice9_stream_read` for blocks of any sizes, which the stream
-- has bytes enough for, all return `OK`, and together give and leave what one call for all the
-- bytes gives and leaves.
pub read_all-Gives :
    (sizes : List ℕ) (rs : List UsbReply) (h : Host)
    → IsValidHost h
    → AllReplies IsTransfer rs
    → sum sizes ≤ length (view stripped rs h)
    → Gives stripped IsTransfer (sum sizes) [] (view stripped rs h) (read_all sizes rs h)
unfolding read_all
read_all-Gives [] rs h v good enough = (rs, h, refl, v, good, refl)
read_all-Gives (n ∷ sizes) rs h v good enough =
    let all = view stripped rs h in
    let (rs', h', run, v', good', left) = ice9_stream_read-Gives n rs h v good (omega arith) in
    let (rs'', h'', run', v'', good'', left') =
      read_all-Gives sizes rs' h' v' good'
        (omega (arith, enough, ap length left, length-drop n all)) in
    (
      rs'',
      h'',
      read_all_steps n sizes rs h run run'
          ∙ ap (λ bytes. done (ok, take n all ++ take (sum sizes) bytes) rs'' h'') left
          ∙ ap (λ bytes. done (ok, bytes) rs'' h'') (sym (take-add n (sum sizes) all)),
      v'',
      good'',
      left' ∙ ap (drop (sum sizes)) left ∙ sym (drop-add n (sum sizes) all),
    )
