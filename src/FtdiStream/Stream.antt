-- ===== src/FtdiStream/Stream.antt =====
-- What the transfers of a round hand over, one after the other.
use mathlib.Core.Path.{subst}
use ice9_api.Prelude.{
  some_injective, ℕ, ◌+◌, ◌≤◌, ◌%◌, ◌^◌, ◌≡◌, refl, ◌∙◌, sym, ap, Option, none, some, List, [], ◌∷◌,
  ◌++◌, concat, ℤ, pos, is_pos, length, arith, Option-cases, Bool-cases, inl, inr,
}
use ice9_api.Transfer.{Doubles, Callback, StreamState, Run, completed, Completion}
use ice9_api.Read.Strip.{Packet, frame}
use ice9_api.FtdiStream.{ftdi_readstream_cb, handle_events, after_packets, count_bytes}
use ice9_api.FtdiStream.Packets.{FillPackets, hand_over, cb_hands_over}

-- The bytes of the payloads.
abbrev pub payload_bytes : List Packet → ℕ
payload_bytes [] = 0
payload_bytes (p ∷ ps) = length p.payload + payload_bytes ps

pub payload_bytes-append :
    (ps qs : List Packet) → payload_bytes (ps ++ qs) ≡ payload_bytes ps + payload_bytes qs
payload_bytes-append [] qs = omega arith
payload_bytes-append (p ∷ ps) qs = omega (arith, payload_bytes-append ps qs)

-- The transfers have all come with whole packets, these ones.
abbrev pub Carry : ℕ → List Completion → List (List Packet) → Type 0
Carry size [] [] = Unit
Carry size [] (ps ∷ pss) = ⊥
Carry size (c ∷ cs) [] = ⊥
Carry size (c ∷ cs) (ps ∷ pss) =
    (c.status ≡ completed) × (c.bytes ≡ frame ps) × FillPackets size ps × Carry size cs pss

-- They are all submitted again, if at all, without an error.
abbrev pub Resubmitted : List Completion → Type 0
Resubmitted [] = Unit
Resubmitted (c ∷ cs) = (c.resubmit ≡ pos 0) × Resubmitted cs

module _ (D : Doubles) {User : Type 0} (callback : Callback User D.Double) where
  open D use {Double}

  -- The caller's data after the callback has got the payloads of these packets, one by one.
  abbrev pub received : List Packet → User → Option User
  received [] user = some user
  received (p ∷ ps) user = elim (callback p.payload (pos (length p.payload)) none user) [
    | none ↦ none
    | some (res, user') ↦ received ps user'
  ]

  received_step :
      (p : Packet) (ps : List Packet) (user user' : User) (res : ℤ)
      → callback p.payload (pos (length p.payload)) none user ≡ some (res, user')
      → received (p ∷ ps) user ≡ received ps user'
  received_step p ps user user' res good = rw (received, good) refl

  pub received-append :
      (ps qs : List Packet) (user last : User)
      → received (ps ++ qs) user ≡ some last
      → (mid : User) × (received ps user ≡ some mid) × (received qs mid ≡ some last)
  received-append [] qs user last e = (user, refl, e)
  received-append (p ∷ ps) qs user last e =
      elim (Option-cases (callback p.payload (pos (length p.payload)) none user)) [
        | inl bad ↦ absurd (ground (arith, bad, e))
        | inr ((res, user'), good) ↦
            let (mid, front, back) =
              received-append ps qs user' last
                (sym (received_step p (ps ++ qs) user user' res good) ∙ e) in
            (mid, received_step p ps user user' res good ∙ front, back)
      ]

  -- What a state has of another one after these transfers, with `n` bytes.
  pub record Moved (cs : List Completion) (n : ℕ) (user : User) (s s' : StreamState User Double)
      : Type 0 where
    pub data_is : s'.userdata ≡ user
    pub same_size : s'.packetsize ≡ s.packetsize
    pub counted :
        s'.progress.current.total_bytes % 2 ^ 64 ≡ (s.progress.current.total_bytes + n) % 2 ^ 64
    pub busy : s.activity + length cs ≤ s'.activity
    pub calm : Resubmitted cs → s.result ≡ pos 0 → s'.result ≡ pos 0

  hand_over-Moved :
      (ps : List Packet) (res : ℤ) (s : StreamState User Double) (user : User)
      → received ps s.userdata ≡ some user
      → (res' : ℤ) × (s' : StreamState User Double) × (hand_over D callback ps res s
          ≡ some (res', s'))
        × Moved [] (payload_bytes ps) user s s'
  unfolding hand_over
  hand_over-Moved [] res s user e = (
    res,
    s,
    refl,
    record {
      data_is = some_injective e;
      same_size = refl;
      counted = omega arith;
      busy = omega arith;
      calm = λ t z. z;
    },
  )
  hand_over-Moved (p ∷ ps) res s user e =
      let n = length p.payload in
      elim (Option-cases (callback p.payload (pos n) none s.userdata)) [
        | inl bad ↦ absurd (ground (arith, bad, e))
        | inr ((res1, user1), good) ↦
            let next : StreamState User Double = record (count_bytes D callback (pos n) s) {
              userdata = user1;
            } in
            let (res', s', run, m) =
              hand_over-Moved ps res1 next user
                (sym (received_step p ps s.userdata user1 res1 good) ∙ e) in
            (
              res',
              s',
              rw (hand_over, good) run,
              record {
                data_is = m.data_is;
                same_size = m.same_size;
                counted = omega (arith, m.counted);
                busy = m.busy;
                calm = m.calm;
              },
            )
      ]

  -- Whether the transfer is freed or submitted again, the data are those after the packets.
  after_packets-Moved :
      (c : Completion) (res : ℤ) {n : ℕ} {user : User} {s' : StreamState User Double}
      → (run : Run User Double)
      → Moved [] n user (record run.state { activity = run.state.activity + 1 }) s'
      → Moved (c ∷ []) n user run.state (after_packets D callback c res s' run).state
  after_packets-Moved c res run m = elim (Bool-cases (is_pos res 0)) [
    | inl wanted ↦ rw wanted (record {
      data_is = m.data_is;
      same_size = m.same_size;
      counted = m.counted;
      busy = omega (arith, m.busy);
      calm = λ (again, t) z. again;
    })
    | inr finished ↦ rw finished (record {
      data_is = m.data_is;
      same_size = m.same_size;
      counted = m.counted;
      busy = omega (arith, m.busy);
      calm = λ t z. m.calm tt z;
    })
  ]

  cb-Moved :
      (c : Completion) (ps : List Packet) (run : Run User Double) (user : User)
      → c.status ≡ completed
      → c.bytes ≡ frame ps
      → 2 ≤ run.state.packetsize
      → FillPackets run.state.packetsize ps
      → received ps run.state.userdata ≡ some user
      → (run' : Run User Double) × (ftdi_readstream_cb D callback c run ≡ some run')
        × Moved (c ∷ []) (payload_bytes ps) user run.state run'.state
  cb-Moved c ps run user whole same two fill e =
      let begin : StreamState User Double = record run.state {
        activity = run.state.activity + 1;
      } in
      let (res, s', handed, m) = hand_over-Moved ps (pos 0) begin user e in
      (
        after_packets D callback c res s' run,
        cb_hands_over D callback c ps run res s' whole same two fill handed,
        after_packets-Moved c res run m,
      )

  handle_events_steps :
      (c : Completion) (cs : List Completion) (run mid run' : Run User Double)
      → ftdi_readstream_cb D callback c run ≡ some mid
      → handle_events D callback cs mid ≡ some run'
      → handle_events D callback (c ∷ cs) run ≡ some run'
  unfolding handle_events
  handle_events_steps c cs run mid run' e f = rw (handle_events, e) f

  -- One transfer after the other: the callback gets the payloads of all the packets in order.
  pub handle_events-Moved :
      (cs : List Completion) (pss : List (List Packet)) (run : Run User Double) (user : User)
      → 2 ≤ run.state.packetsize
      → Carry run.state.packetsize cs pss
      → received (concat pss) run.state.userdata ≡ some user
      → (run' : Run User Double) × (handle_events D callback cs run ≡ some run')
        × Moved cs (payload_bytes (concat pss)) user run.state run'.state
  unfolding handle_events
  handle_events-Moved [] [] run user two carry e = (
    run,
    refl,
    record {
      data_is = some_injective e;
      same_size = refl;
      counted = omega arith;
      busy = omega arith;
      calm = λ t z. z;
    },
  )
  handle_events-Moved [] (ps ∷ pss) run user two carry e = absurd carry
  handle_events-Moved (c ∷ cs) [] run user two carry e = absurd carry
  handle_events-Moved (c ∷ cs) (ps ∷ pss) run user two (whole, same, fill, carry) e =
      let (mid, front, back) = received-append ps (concat pss) run.state.userdata user e in
      let (run1, first, m) = cb-Moved c ps run mid whole same two fill front in
      let (run', rest, m') =
        handle_events-Moved cs pss run1 user (rw m.same_size two)
          (subst (λ size. Carry size cs pss) (sym m.same_size) carry)
          (ap (received (concat pss)) m.data_is ∙ back) in
      (
        run',
        handle_events_steps c cs run run1 run' first rest,
        record {
          data_is = m'.data_is;
          same_size = m'.same_size ∙ m.same_size;
          counted = omega (arith, m'.counted, m.counted, payload_bytes-append ps (concat pss));
          busy = omega (arith, m.busy, m'.busy);
          calm = λ (again, others) z. m'.calm others (m.calm (again, tt) z);
        },
      )
