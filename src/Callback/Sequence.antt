-- ===== src/Callback/Sequence.antt =====
-- Calls of `read_callback`, one after the other.
use mathlib.Core.Path.{subst}
use ice9_api.Prelude.{
  ℕ, ◌+◌, ◌-◌, ◌<◌, ◌≡◌, refl, ◌∙◌, sym, ap, ap₂, Option, none, some, List, [], ◌∷◌, ◌++◌, concat,
  ℤ, length, take, drop, arith, length-append, length-drop, append-nil, append_assoc, take-append,
  drop-append, take-after_drop, drop-after_drop,
}
use ice9_api.Host.{Stream, bank_size}
use ice9_api.Callback.{read_callback}
use ice9_api.Callback.Bank.{IsBanked, banked, delivered}
use ice9_api.Callback.Delivery.{Delivers}
use ice9_api.Callback.Packet.{read_callback-Delivers}

-- A packet for each call; the value of the last one.
unfoldable pub read_callbacks : Stream → List (List ℕ) → ℤ → Option (ℤ × Stream)
read_callbacks s [] code = some (code, s)
read_callbacks s (packet ∷ packets) code = elim (read_callback s packet (length packet)) [
  | none ↦ none
  | some (code', s') ↦ read_callbacks s' packets code'
]

-- Two packets delivered are one packet of the bytes of both.
Delivers-join :
    {s s1 s' : Stream} {packet rest : List ℕ} {code1 code : ℤ}
    → Delivers s packet code1 s1
    → Delivers s1 rest code s'
    → Delivers s (packet ++ rest) code s'
Delivers-join {s} {s1} {s'} {packet} {rest} {code1} {code} d d' =
    let n = s.stream_bytes_to_read in
    let bytes = banked s ++ packet in
    let all : banked s ++ (packet ++ rest) ≡ bytes ++ rest =
      sym (append_assoc (banked s) packet rest) in
    record {
      valid = d'.valid;
      gives =
          d'.gives
          ∙ ap₂ ◌++◌ d.gives
              (ap₂ (λ k xs. take k (xs ++ rest)) d.wanted d.keeps ∙ take-after_drop n bytes rest)
          ∙ append_assoc (delivered s) (take n bytes) (take (n - length bytes) rest)
          ∙ ap (λ xs. delivered s ++ xs) (sym (ap (take n) all ∙ take-append n bytes rest));
      keeps =
          d'.keeps
          ∙ ap₂ (λ k xs. drop k (xs ++ rest)) d.wanted d.keeps
          ∙ drop-after_drop n bytes rest
          ∙ sym (ap (drop n) all ∙ drop-append n bytes rest);
      wanted = omega (
        arith,
        d.wanted,
        d'.wanted,
        length-append (banked s1) rest,
        ap length d.keeps,
        length-drop n bytes,
        length-append bytes rest,
        ap length all,
      );
      total = d'.total ∙ d.total;
      room = omega (arith, d.room, d'.room, length-append packet rest);
      answer = d'.answer;
    }

read_callbacks_goes_on :
    (s s' : Stream) (packet : List ℕ) (packets : List (List ℕ)) (code code' : ℤ)
    → read_callback s packet (length packet) ≡ some (code', s')
    → read_callbacks s (packet ∷ packets) code ≡ read_callbacks s' packets code'
unfolding read_callbacks
read_callbacks_goes_on s s' packet packets code code' e = rw (read_callbacks, e) refl

-- However a stream of bytes is cut into packets: while the bank and all of them fit the extra data
-- buffer, the calls of `read_callback` with one packet after the other, those after the caller has
-- all included, do what one call with all the bytes does. So the caller's block gets the bytes in
-- order, as many as are wanted, the bank keeps the others, and the last answer is 1 exactly when
-- the caller has all.
pub read_callbacks-Delivers :
    (s : Stream) (packet : List ℕ) (packets : List (List ℕ)) (code : ℤ)
    → IsBanked s
    → s.extra_data_read_pointer + s.extra_data_bytes + length (concat (packet ∷ packets))
      < bank_size
    → (code' : ℤ) × (s' : Stream) × (read_callbacks s (packet ∷ packets) code ≡ some (code', s'))
      × Delivers s (concat (packet ∷ packets)) code' s'
unfolding read_callbacks
read_callbacks-Delivers s packet [] code v room =
    let (code', s', run, d) =
      read_callback-Delivers s packet v (omega (arith, room, length-append packet [])) in
    (
      code',
      s',
      read_callbacks_goes_on s s' packet [] code code' run,
      subst (λ bytes. Delivers s bytes code' s') (sym (append-nil packet)) d,
    )
read_callbacks-Delivers s packet (next ∷ packets) code v room =
    let long = length-append packet (concat (next ∷ packets)) in
    let (code1, s1, run, d) = read_callback-Delivers s packet v (omega (arith, room, long)) in
    let (code', s', run', d') =
      read_callbacks-Delivers s1 next packets code1 d.valid (omega (arith, room, long, d.room)) in
    (
      code',
      s',
      read_callbacks_goes_on s s1 packet (next ∷ packets) code code1 run ∙ run',
      Delivers-join d d',
    )
