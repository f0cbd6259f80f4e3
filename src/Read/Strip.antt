-- ===== src/Read/Strip.antt =====
-- The loop of `ice9_stream_read` that strips the status bytes.
use ice9_api.Prelude.{
  ℕ, suc, zero, ◌-◌, ◌%◌, ◌≤◌, ◌≡◌, refl, ◌↔◌, Option, none, some, List, [], ◌∷◌, ◌++◌, append-nil,
  length, take, drop, arith, length-append, length-take, length-drop, take-append_front,
  drop-append_front, Option-cases, Bool-cases, ltb, inl, inr, min_of,
}
use ice9_api.Read.{put_front, strip_loop, strip_status}

-- A packet of the FTDI chip: two status bytes, then the payload.
pub record Packet : Type 0 where
  pub modem_status : ℕ
  pub line_status : ℕ
  pub payload : List ℕ

abbrev pub frame : List Packet → List ℕ
frame [] = []
frame (p ∷ ps) = p.modem_status ∷ p.line_status ∷ (p.payload ++ frame ps)

abbrev pub payload_of : List Packet → List ℕ
payload_of [] = []
payload_of (p ∷ ps) = p.payload ++ payload_of ps

-- Every packet but the last is full, and the last is no longer.
abbrev pub IsFramed : List Packet → Type 0
IsFramed [] = Unit
IsFramed (p ∷ []) = length p.payload ≤ 510
IsFramed (p ∷ q ∷ ps) = (length p.payload ≡ 510) × IsFramed (q ∷ ps)

take-frame :
    (p : Packet) (ps : List Packet)
    → IsFramed (p ∷ ps)
    → let k = min_of 510 (length (p.payload ++ frame ps)) in
      (take k (p.payload ++ frame ps) ≡ p.payload) × (drop k (p.payload ++ frame ps) ≡ frame ps)
take-frame p ps h =
    (take-append_front k p.payload (frame ps) e, drop-append_front k p.payload (frame ps) e)
  where
    k : ℕ
    k = min_of 510 (length (p.payload ++ frame ps))

    payload_length :
        (qs : List Packet)
        → IsFramed (p ∷ qs)
        → min_of 510 (length (p.payload ++ frame qs)) ≡ length p.payload
    payload_length [] framed = ground (arith, append-nil p.payload)
    payload_length (q ∷ qs) framed = ground (arith, length-append p.payload (frame (q ∷ qs)))

    e : k ≡ length p.payload
    e = payload_length ps h

IsFramed-tail : (p : Packet) (ps : List Packet) → IsFramed (p ∷ ps) → IsFramed ps
IsFramed-tail p [] h = tt
IsFramed-tail p (q ∷ ps) h = h.1

strip_loop-frame :
    (fuel : ℕ) (ps : List Packet)
    → IsFramed ps
    → length (frame ps) ≤ fuel
    → strip_loop fuel (frame ps) ≡ some (payload_of ps)
unfolding strip_loop
strip_loop-frame zero [] h lt = refl
strip_loop-frame (suc fuel) [] h lt = refl
strip_loop-frame zero (p ∷ ps) h lt = absurd (omega arith)
strip_loop-frame (suc fuel) (p ∷ ps) h lt =
    let cut = take-frame p ps h in
    let short : length (frame ps) ≤ fuel = omega (arith, length-append p.payload (frame ps)) in
    ground (arith, cut, strip_loop-frame fuel ps (IsFramed-tail p ps h) short)

put_front-none : (xs : List ℕ) (o : Option (List ℕ)) → (put_front xs o ≡ none) ↔ (o ≡ none)
put_front-none xs none = (λ e. refl, λ e. refl)
put_front-none xs (some ys) = (λ e. cc, λ e. cc)

packet_length : (n k : ℕ) → k ≡ n - min_of 510 n → (k % 512 ≡ 1) ↔ (suc (suc n) % 512 ≡ 1)
packet_length n k e = elim (Bool-cases (ltb 510 n)) [
  | inl full ↦ let e' : k ≡ n - 510 = rw full at e in (ground arith)
  | inr last ↦ ground arith
]

strip_loop-none :
    (fuel : ℕ) (bytes : List ℕ)
    → length bytes ≤ fuel
    → (strip_loop fuel bytes ≡ none) ↔ (length bytes % 512 ≡ 1)
unfolding strip_loop
strip_loop-none zero [] lt = ((λ e. cc), λ e. absurd (omega arith))
strip_loop-none zero (a ∷ bytes) lt = absurd (omega arith)
strip_loop-none (suc fuel) [] lt = ((λ e. cc), λ e. absurd (omega arith))
strip_loop-none (suc fuel) (a ∷ []) lt = ((λ e. omega arith), λ e. refl)
strip_loop-none (suc fuel) (a ∷ b ∷ rest) lt =
    let k = min_of 510 (length rest) in
    let short : length (drop k rest) ≤ fuel = omega (arith, length-drop k rest) in
    let here = put_front-none (take k rest) (strip_loop fuel (drop k rest)) in
    let later = strip_loop-none fuel (drop k rest) short in
    let size = packet_length (length rest) (length (drop k rest)) (length-drop k rest) in
    (λ e. size.0 (later.0 (here.0 e)), λ e. here.1 (later.1 (size.1 e)))

strip_loop-length :
    (fuel : ℕ) (bytes stripped : List ℕ)
    → strip_loop fuel bytes ≡ some stripped
    → length stripped ≤ length bytes
unfolding strip_loop
strip_loop-length zero [] stripped e = ground arith
strip_loop-length zero (a ∷ bytes) stripped e = ground arith
strip_loop-length (suc fuel) [] stripped e = ground arith
strip_loop-length (suc fuel) (a ∷ []) stripped e = ground arith
strip_loop-length (suc fuel) (a ∷ b ∷ rest) stripped e =
    let k = min_of 510 (length rest) in
    elim (Option-cases (strip_loop fuel (drop k rest))) [
      | inl missing ↦ ground arith
      | inr (more, found) ↦ ground (
        arith,
        length-append (take k rest) more,
        length-take k rest,
        length-drop k rest,
        strip_loop-length fuel (drop k rest) more found,
      )
    ]

-- Stripping a transfer of well-formed packets gives exactly their payloads, in order.
pub strip_status-frame :
    (ps : List Packet) → IsFramed ps → strip_status (frame ps) ≡ some (payload_of ps)
unfolding strip_status
strip_status-frame ps h = strip_loop-frame (length (frame ps)) ps h (omega arith)

-- The loop copies a length of -1 exactly when the last packet of the transfer is one byte long,
-- whatever the bytes are.
pub strip_status-none : (bytes : List ℕ) → (strip_status bytes ≡ none) ↔ (length bytes % 512 ≡ 1)
unfolding strip_status
strip_status-none bytes = strip_loop-none (length bytes) bytes (omega arith)

pub length-strip_status :
    (bytes stripped : List ℕ) → strip_status bytes ≡ some stripped → length stripped ≤ length bytes
unfolding strip_status
length-strip_status bytes stripped e = strip_loop-length (length bytes) bytes stripped e
