-- ===== src/Prelude/Words.antt =====
-- Words of 16 bits as pairs of bytes, least significant first, as on the hosts of the library.
use Prim.Native.Nat.{ℕ, zero, suc, ◌+◌, ◌*◌, ◌/◌, ◌%◌, ◌^◌, ◌<◌}
use mathlib.Core.Path.{◌≡◌, refl}
use mathlib.Core.List.{List, [], ◌∷◌}
use native.Mathlib.Omega.{arith}
use ice9_api.Prelude.Lists.{length, take}

abbrev pub words_to_bytes : List ℕ → List ℕ
words_to_bytes [] = []
words_to_bytes (w ∷ ws) = w % 256 ∷ w / 256 % 256 ∷ words_to_bytes ws

-- A last byte without a partner is not a word.
abbrev pub bytes_to_words : List ℕ → List ℕ
bytes_to_words [] = []
bytes_to_words (a ∷ []) = []
bytes_to_words (a ∷ b ∷ rest) = (a + b * 256) ∷ bytes_to_words rest

abbrev pub AreWords : List ℕ → Type 0
AreWords [] = Unit
AreWords (w ∷ ws) = (w < 2 ^ 16) × AreWords ws

pub length-words_to_bytes : (ws : List ℕ) → length (words_to_bytes ws) ≡ length ws * 2
length-words_to_bytes [] = refl
length-words_to_bytes (w ∷ ws) = omega (arith, length-words_to_bytes ws)

pub bytes_to_words-words_to_bytes :
    (ws : List ℕ) → AreWords ws → bytes_to_words (words_to_bytes ws) ≡ ws
bytes_to_words-words_to_bytes [] h = refl
bytes_to_words-words_to_bytes (w ∷ ws) h =
    let e : w % 256 + w / 256 % 256 * 256 ≡ w = omega (arith, h.0) in
    rw (e, bytes_to_words-words_to_bytes ws h.1)

pub take-words_to_bytes :
    (n : ℕ) (ws : List ℕ) → take (n * 2) (words_to_bytes ws) ≡ words_to_bytes (take n ws)
take-words_to_bytes zero ws = refl
take-words_to_bytes (suc n) [] = let e : suc n * 2 ≡ suc (suc (n * 2)) = omega arith in rw e
take-words_to_bytes (suc n) (w ∷ ws) =
    let e : suc n * 2 ≡ suc (suc (n * 2)) = omega arith in rw (e, take-words_to_bytes n ws)
