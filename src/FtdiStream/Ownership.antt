-- ===== src/FtdiStream/Ownership.antt =====
-- What becomes of a transfer of whole packets once its callback has run.
use ice9_api.Prelude.{
  not, ℕ, ◌+◌, ◌≡◌, ◌≢◌, ◌∙◌, sym, ap, some, List, ℤ, pos, is_pos, get_elem?, set, get_elem?-set_ne,
  get_elem?-set_self, arith, negsuc, zero, suc, ◌≤◌, refl, if◌then◌else◌,
}
use ice9_api.Transfer.{
  Doubles, Callback, StreamState, TransferState, in_flight, idle, released, completed, Run,
  Completion,
}
use ice9_api.FtdiStream.{ftdi_readstream_cb, after_packets}
use ice9_api.Read.Strip.{Packet, frame}
use ice9_api.FtdiStream.Packets.{FillPackets, hand_over, cb_hands_over}

module _ (D : Doubles) {User : Type 0} (callback : Callback User D.Double) where
  open D use {Double}

  abbrev next_owner : Completion → ℤ → TransferState
  next_owner c res =
      if not (is_pos res 0) then released else if is_pos c.resubmit 0 then in_flight else idle

  after_packets_sets :
      (c : Completion) (res : ℤ) (s : StreamState User Double) (run : Run User Double)
      → (after_packets D callback c res s run).transfers
        ≡ set run.transfers c.place (next_owner c res)
  after_packets_sets c res s run = ground arith

  -- Who has a transfer of whole packets afterwards, by what the callback has returned for its last
  -- packet and what `libusb_submit_transfer` would: after 0 it is submitted again, and libusb has
  -- it if that goes well; after anything else it is freed.
  abbrev pub owner : ℤ → ℤ → TransferState
  owner (pos zero) (pos zero) = in_flight
  owner (pos zero) (pos (suc n)) = idle
  owner (pos zero) (negsuc n) = idle
  owner (pos (suc n)) resubmit = released
  owner (negsuc n) resubmit = released

  -- `result` afterwards.
  abbrev pub outcome : ℤ → ℤ → ℤ → ℤ
  outcome (pos zero) resubmit was = resubmit
  outcome (pos (suc n)) resubmit was = was
  outcome (negsuc n) resubmit was = was

  next_owner-owner : (c : Completion) (res : ℤ) → next_owner c res ≡ owner res c.resubmit
  next_owner-owner c (pos zero) = by_resubmit c.resubmit
    where
      by_resubmit : (r : ℤ) → (if is_pos r 0 then in_flight else idle) ≡ owner (pos zero) r
      by_resubmit (pos zero) = refl
      by_resubmit (pos (suc n)) = ground arith
      by_resubmit (negsuc n) = refl
  next_owner-owner c (pos (suc n)) = ground arith
  next_owner-owner c (negsuc n) = refl

  after_packets_result :
      (c : Completion) (res : ℤ) (s : StreamState User Double) (run : Run User Double)
      → (after_packets D callback c res s run).state.result ≡ outcome res c.resubmit s.result
  after_packets_result c (pos zero) s run = refl
  after_packets_result c (pos (suc n)) s run = ground arith
  after_packets_result c (negsuc n) s run = refl

  -- libusb completes a transfer that it has, with whole packets, to the last of which the callback
  -- returns `res`. If `res` is not 0, the transfer is freed, and `result` is as the packets have
  -- left it. If it is 0, the transfer is submitted again: then libusb has it if that goes well, and
  -- it is idle if not, and `result` is what `libusb_submit_transfer` returned. Each other transfer
  -- stays as it is.
  pub cb_settles :
      (c : Completion) (ps : List Packet) (run : Run User Double) (res : ℤ)
      → (s : StreamState User Double) → c.status ≡ completed
      → c.bytes ≡ frame ps
      → 2 ≤ run.state.packetsize
      → FillPackets run.state.packetsize ps
      → hand_over D callback ps (pos 0) (record run.state { activity = run.state.activity + 1 })
        ≡ some (res, s)
      → get_elem? run.transfers c.place ≡ some in_flight
      → (i : ℕ) → i ≢ c.place
      → (run' : Run User Double) × (ftdi_readstream_cb D callback c run ≡ some run')
        × (get_elem? run'.transfers c.place ≡ some (owner res c.resubmit))
        × (run'.state.result ≡ outcome res c.resubmit s.result)
        × (get_elem? run'.transfers i ≡ get_elem? run.transfers i)
  cb_settles c ps run res s whole e two h handed has i ne =
      let run' = after_packets D callback c res s run in
      let sets =
        after_packets_sets c res s run ∙ ap (set run.transfers c.place) (next_owner-owner c res) in
      (
        run',
        cb_hands_over D callback c ps run res s whole e two h handed,
        ap (λ ts. get_elem? ts c.place) sets
            ∙ get_elem?-set_self run.transfers c.place (owner res c.resubmit) has,
        after_packets_result c res s run,
        ap (λ ts. get_elem? ts i) sets
            ∙ get_elem?-set_ne run.transfers c.place i (owner res c.resubmit) (λ z. ne (sym z)),
      )
