-- ===== src/FtdiStream/Packets.antt =====
-- What a completed transfer of packets hands over.
use native.Mathlib.Nat.{div-eq-sub-div, div-eq_of_lt}
use ice9_api.Prelude.{
  Option-cases, inl, inr, ℕ, suc, ◌+◌, ◌-◌, ◌/◌, ◌≤◌, ◌≡◌, refl, ◌∙◌, ap, Option, none, some, List,
  [], ◌∷◌, ℤ, pos, sub_ℕ, length, take, drop, length-append, take-append_front, drop-append_front,
  arith, ltb, if◌then◌else◌,
}
use ice9_api.Transfer.{Doubles, Callback, StreamState, Run, completed, Completion}
use ice9_api.Read.Strip.{Packet, frame}
use ice9_api.FtdiStream.{packet_loop, ftdi_readstream_cb, count_bytes, after_packets}
use ice9_api.FtdiStream.Total.{cb_completed}

-- Every packet but the last has `size` bytes with its status, and the last no more.
abbrev pub FillPackets : ℕ → List Packet → Type 0
FillPackets size [] = Unit
FillPackets size (p ∷ []) = length p.payload + 2 ≤ size
FillPackets size (p ∷ q ∷ ps) = (length p.payload + 2 ≡ size) × FillPackets size (q ∷ ps)

abbrev packet_count : List Packet → ℕ
packet_count [] = 0
packet_count (p ∷ ps) = suc (packet_count ps)

FillPackets-tail :
    (size : ℕ) (p : Packet) (ps : List Packet) → FillPackets size (p ∷ ps) → FillPackets size ps
FillPackets-tail size p [] h = tt
FillPackets-tail size p (q ∷ ps) h = h.1

-- The number of packets that the callback computes from the length.
packets_in_frame :
    (size : ℕ) (ps : List Packet)
    → 2 ≤ size
    → FillPackets size ps
    → (length (frame ps) + size - 1) / size ≡ packet_count ps
packets_in_frame size [] two h = div-eq_of_lt (omega arith)
packets_in_frame size (p ∷ []) two h =
    let long = length-append p.payload [] in
    div-eq-sub-div (omega arith) (omega (arith, long))
    ∙ ap (λ n. n + 1) (div-eq_of_lt (omega (arith, long)))
    ∙ omega arith
packets_in_frame size (p ∷ q ∷ ps) two h =
    let long = length-append p.payload (frame (q ∷ ps)) in
    let rest : length (frame (p ∷ q ∷ ps)) + size - 1 - size ≡ length (frame (q ∷ ps)) + size - 1 =
      omega (arith, long, h) in
    div-eq-sub-div (omega arith) (omega (arith, long, h))
    ∙ ap (λ n. n / size + 1) rest
    ∙ omega (arith, packets_in_frame size (q ∷ ps) two h.1)

-- The length that the loop takes for the packet, and the cut that it makes.
cut_packet :
    (size : ℕ) (p : Packet) (ps : List Packet)
    → FillPackets size (p ∷ ps)
    → let bytes = frame (p ∷ ps) in
      let n = if ltb size (length bytes) then size else length bytes in
      (n ≡ length p.payload + 2)
      × (drop 2 (take n bytes) ≡ p.payload)
      × (drop n bytes ≡ frame ps)
      × (sub_ℕ n 2 ≡ pos (length p.payload))
cut_packet size p ps h =
    let e = packet_length size p ps h in
    let e' : length p.payload + 2 ≡ suc (suc (length p.payload)) = omega arith in
    let whole = frame (p ∷ ps) in
    (
      e,
      ap (λ n. drop 2 (take n whole)) (e ∙ e')
          ∙ take-append_front (length p.payload) p.payload (frame ps) refl,
      ap (λ n. drop n whole) (e ∙ e')
          ∙ drop-append_front (length p.payload) p.payload (frame ps) refl,
      ap (λ n. sub_ℕ n 2) e ∙ ground arith,
    )
  where
    packet_length :
        (size : ℕ) (p : Packet) (ps : List Packet)
        → FillPackets size (p ∷ ps)
        → (if ltb size (length (frame (p ∷ ps))) then size else length (frame (p ∷ ps)))
          ≡ length p.payload + 2
    packet_length size p [] fill = ground (arith, length-append p.payload [])
    packet_length size p (q ∷ ps) fill = ground (arith, length-append p.payload (frame (q ∷ ps)))

module _ (D : Doubles) {User : Type 0} (callback : Callback User D.Double) where
  open D use {Double}

  -- One packet after the other is handed over: the callback gets its payload and the length of
  -- that, which is added to the bytes counted; what it returned last, and the state.
  unfoldable pub hand_over :
      List Packet → ℤ → StreamState User Double → Option (ℤ × StreamState User Double)
  hand_over [] res s = some (res, s)
  hand_over (p ∷ ps) res s =
      let n = pos (length p.payload) in
      elim (callback p.payload n none s.userdata) [
        | none ↦ none
        | some (res', user) ↦
            hand_over ps res' (record (count_bytes D callback n s) { userdata = user })
      ]

  -- A round of the packet loop, from the payload, its length and the bytes after it.
  abbrev hand_packet :
      ℕ → List ℕ → List ℕ → ℤ → StreamState User Double → Option (ℤ × StreamState User Double)
  hand_packet n payload rest len s = elim (callback payload len none s.userdata) [
    | none ↦ none
    | some (res, user) ↦
        packet_loop D callback n rest res
          (record (count_bytes D callback len s) { userdata = user })
  ]

  packet_loop_step :
      (n : ℕ) (ptr payload rest : List ℕ) (len res : ℤ) (s : StreamState User Double)
      → let k = if ltb s.packetsize (length ptr) then s.packetsize else length ptr in
        drop 2 (take k ptr) ≡ payload
        → drop k ptr ≡ rest
        → sub_ℕ k 2 ≡ len
        → packet_loop D callback (suc n) ptr res s ≡ hand_packet n payload rest len s
  unfolding packet_loop
  packet_loop_step n ptr payload rest len res s e f g =
      let k = if ltb s.packetsize (length ptr) then s.packetsize else length ptr in
      ap (λ bytes. hand_packet n bytes (drop k ptr) (sub_ℕ k 2) s) e
      ∙ ap (λ bytes. hand_packet n payload bytes (sub_ℕ k 2) s) f
      ∙ ap (λ size. hand_packet n payload rest size s) g

  packet_loop-frame :
      (ps : List Packet) (res : ℤ) (s : StreamState User Double)
      → FillPackets s.packetsize ps
      → packet_loop D callback (packet_count ps) (frame ps) res s ≡ hand_over ps res s
  unfolding packet_loop hand_over
  packet_loop-frame [] res s h = refl
  packet_loop-frame (p ∷ ps) res s h =
      let (e, f, g, l) = cut_packet s.packetsize p ps h in
      let n = pos (length p.payload) in
      packet_loop_step (packet_count ps) (frame (p ∷ ps)) p.payload (frame ps) n res s f g l
      ∙ elim (Option-cases (callback p.payload n none s.userdata)) [
        | inl bad ↦ rw (hand_packet, hand_over, bad) refl
        | inr ((res', user), good) ↦
            rw (hand_packet, hand_over, good)
              (packet_loop-frame ps res' (record (count_bytes D callback n s) { userdata = user })
                (FillPackets-tail s.packetsize p ps h))
      ]

  -- A transfer that has come with whole packets: the callback gets the payload of each packet, in
  -- order and without the status bytes, and these are all the bytes counted; what it returned for
  -- the last packet decides alone whether the transfer is freed or submitted again.
  pub cb_hands_over :
      (c : Completion) (ps : List Packet) (run : Run User Double) (res : ℤ)
      → (s : StreamState User Double) → c.status ≡ completed
      → c.bytes ≡ frame ps
      → 2 ≤ run.state.packetsize
      → FillPackets run.state.packetsize ps
      → hand_over ps (pos 0) (record run.state { activity = run.state.activity + 1 })
        ≡ some (res, s)
      → ftdi_readstream_cb D callback c run ≡ some (after_packets D callback c res s run)
  cb_hands_over c ps run res s whole e two h handed =
      let size = run.state.packetsize in
      let start = record run.state { activity = run.state.activity + 1 } in
      cb_completed D callback c run res s whole (omega arith) (
        ap (λ bytes. packet_loop D callback ((length bytes + size - 1) / size) bytes (pos 0) start)
          e
        ∙ ap (λ n. packet_loop D callback n (frame ps) (pos 0) start)
            (packets_in_frame size ps two h)
        ∙ packet_loop-frame ps (pos 0) start h
        ∙ handed)
