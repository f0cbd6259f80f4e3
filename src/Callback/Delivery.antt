-- ===== src/Callback/Delivery.antt =====
-- What `read_callback` makes of a packet.
use ice9_api.Prelude.{
  ◌≢◌, ◌⊎◌, ℕ, ◌+◌, ◌-◌, ◌≤◌, ◌<◌, ◌≡◌, refl, ◌∙◌, sym, ap, ap₂, min, min_of, some, List, [], ◌++◌,
  ℤ, pos, slice, length, take, drop, arith, if◌then◌else◌, ◌==◌, take_all, drop-slice, take-slice,
  length-slice, length-append, take-append, drop-append, append_assoc, Bool-cases, inl, inr,
}
use ice9_api.Host.{Stream}
use ice9_api.Callback.{take_from_store, reset_bank, transfer_from_store}
use ice9_api.Callback.Bank.{IsBanked, banked, delivered, transfer_bytes_delivers}

-- What comes from the bank: `wanted` bytes of it, or all.
pub record FromStore (s s' : Stream) : Type 0 where
  pub valid : IsBanked s'
  pub gives : delivered s' ≡ delivered s ++ take s.stream_bytes_to_read (banked s)
  pub keeps : banked s' ≡ drop s.stream_bytes_to_read (banked s)
  pub wanted : s'.stream_bytes_to_read ≡ s.stream_bytes_to_read - s.extra_data_bytes
  pub total :
      s'.stream_bytes_read_so_far + s'.stream_bytes_to_read
      ≡ s.stream_bytes_read_so_far + s.stream_bytes_to_read
  pub left : s'.extra_data_bytes ≡ s.extra_data_bytes - s.stream_bytes_to_read
  pub room :
      s'.extra_data_read_pointer + s'.extra_data_bytes
      ≤ s.extra_data_read_pointer + s.extra_data_bytes
  pub pointer :
      s.stream_bytes_to_read < s.extra_data_bytes
      → s'.extra_data_read_pointer ≡ s.extra_data_read_pointer + s.stream_bytes_to_read

-- Before the buffer is set to 0.
record Taken (s s' : Stream) : Type 0 where
  gives : delivered s' ≡ delivered s ++ take s.stream_bytes_to_read (banked s)
  keeps : banked s' ≡ drop s.stream_bytes_to_read (banked s)
  wanted : s'.stream_bytes_to_read ≡ s.stream_bytes_to_read - s.extra_data_bytes
  total :
      s'.stream_bytes_read_so_far + s'.stream_bytes_to_read
      ≡ s.stream_bytes_read_so_far + s.stream_bytes_to_read
  left : s'.extra_data_bytes ≡ s.extra_data_bytes - s.stream_bytes_to_read
  pointer :
      s'.extra_data_read_pointer
      ≡ s.extra_data_read_pointer + min s.stream_bytes_to_read s.extra_data_bytes

module _ (s : Stream) where
  abbrev count : ℕ
  count = min_of s.stream_bytes_to_read s.extra_data_bytes

  abbrev bytes : List ℕ
  bytes = slice s.extra_data_buffer s.extra_data_read_pointer count

  take_from_store-Taken : Taken s (take_from_store s bytes)
  unfolding take_from_store
  take_from_store-Taken =
      let e : count ≡ min s.stream_bytes_to_read s.extra_data_bytes = ground arith in
      let size = length-slice s.extra_data_buffer s.extra_data_read_pointer count in
      let moved = transfer_bytes_delivers s bytes s.extra_data_bytes (omega arith) in
      let same =
        take-slice s.extra_data_buffer s.extra_data_read_pointer s.extra_data_bytes
          s.stream_bytes_to_read in
      let from : s.extra_data_read_pointer + count
          ≡ s.extra_data_read_pointer + min s.stream_bytes_to_read s.extra_data_bytes =
        omega (arith, e) in
      let size_left : s.extra_data_bytes - count ≡ s.extra_data_bytes - s.stream_bytes_to_read =
        omega (arith, e) in
      record {
        gives =
            moved.1
            ∙ ap (λ given. delivered s ++ given)
                (take_all _ bytes (omega arith)
                  ∙ ap (slice s.extra_data_buffer s.extra_data_read_pointer) e
                  ∙ sym same);
        keeps =
            ap₂ (slice s.extra_data_buffer) from size_left
            ∙ sym (
                drop-slice s.extra_data_buffer s.extra_data_read_pointer s.extra_data_bytes
                  s.stream_bytes_to_read);
        wanted = omega (arith, moved);
        total = omega (arith, moved);
        left = omega (arith, e);
        pointer = omega (arith, e);
      }

-- Rewinding the empty bank changes nothing that counts.
reset_bank_rewinds :
    (s : Stream) (was : ℕ)
    → was ≢ 0
    → s.extra_data_bytes ≡ 0
    → reset_bank s was ≡ record s { extra_data_read_pointer = 0; extra_data_buffer = λ i. 0 }
unfolding reset_bank
reset_bank_rewinds s was ne e = ground arith

reset_bank_waits :
    (s : Stream) (was : ℕ) → (was ≡ 0) ⊎ (s.extra_data_bytes ≢ 0) → reset_bank s was ≡ s
unfolding reset_bank
reset_bank_waits s was h = ground arith

reset_bank-FromStore :
    (s s' : Stream) → IsBanked s → Taken s s' → FromStore s (reset_bank s' s.extra_data_bytes)
reset_bank-FromStore s s' v t = elim (Bool-cases (s.extra_data_bytes == 0)) [
  | inl none_before ↦
      let e : s.extra_data_bytes ≡ 0 = ground arith in
      let p = v.rewound e in
      rw (reset_bank_waits s' s.extra_data_bytes (inl e)) (same (λ z. omega (arith, t.pointer)))
  | inr some_before ↦ elim (Bool-cases (s'.extra_data_bytes == 0)) [
    | inl none_after ↦
        let e : s'.extra_data_bytes ≡ 0 = ground arith in
        let nothing : banked s' ≡ [] =
          ap (slice s'.extra_data_buffer s'.extra_data_read_pointer) e in
        rw (reset_bank_rewinds s' s.extra_data_bytes (ground arith) e) (record {
          valid = record { inside = omega (arith, v.inside); rewound = λ z. refl };
          gives = t.gives;
          keeps = ap (slice (λ i. 0) 0) e ∙ sym nothing ∙ t.keeps;
          wanted = t.wanted;
          total = t.total;
          left = t.left;
          room = omega (arith, t.left);
          pointer = λ lt. absurd (omega (arith, t.left, e));
        })
    | inr some_after ↦
        rw (reset_bank_waits s' s.extra_data_bytes (inr (ground arith)))
          (same (λ z. absurd (ground arith)))
  ]
]
  where
    same : (s'.extra_data_bytes ≡ 0 → s'.extra_data_read_pointer ≡ 0) → FromStore s s'
    same rewound = record {
      valid = record { inside = omega (arith, t.left, t.pointer, v.inside); rewound = rewound };
      gives = t.gives;
      keeps = t.keeps;
      wanted = t.wanted;
      total = t.total;
      left = t.left;
      room = omega (arith, t.left, t.pointer);
      pointer = λ lt. omega (arith, t.pointer);
    }

pub transfer_from_store-FromStore :
    (s : Stream) → IsBanked s → (s' : Stream) × (transfer_from_store s ≡ some s') × FromStore s s'
unfolding transfer_from_store
transfer_from_store-FromStore s v = (
  reset_bank (take_from_store s (bytes s)) s.extra_data_bytes,
  ground (arith, v.inside),
  reset_bank-FromStore s (take_from_store s (bytes s)) v (take_from_store-Taken s),
)

-- What `read_callback` has done with a packet: the bytes in the bank and then those of the packet
-- go to the caller's block, as many as are wanted, and the others to the bank; the answer is 0
-- while bytes are still wanted, and then 1. The bank grows by no more than the packet.
pub record Delivers (s : Stream) (packet : List ℕ) (code : ℤ) (s' : Stream) : Type 0 where
  pub valid : IsBanked s'
  pub gives : delivered s' ≡ delivered s ++ take s.stream_bytes_to_read (banked s ++ packet)
  pub keeps : banked s' ≡ drop s.stream_bytes_to_read (banked s ++ packet)
  pub wanted : s'.stream_bytes_to_read ≡ s.stream_bytes_to_read - length (banked s ++ packet)
  pub total :
      s'.stream_bytes_read_so_far + s'.stream_bytes_to_read
      ≡ s.stream_bytes_read_so_far + s.stream_bytes_to_read
  pub room :
      s'.extra_data_read_pointer + s'.extra_data_bytes
      ≤ s.extra_data_read_pointer + s.extra_data_bytes + length packet
  pub answer : code ≡ (if s'.stream_bytes_to_read == 0 then pos 1 else pos 0)

-- Both parts together.
pub joined :
    (s s1 s' : Stream) (packet : List ℕ) (code : ℤ)
    → FromStore s s1
    → IsBanked s'
    → delivered s' ≡ delivered s1 ++ take s1.stream_bytes_to_read packet
    → banked s' ≡ banked s1 ++ drop s1.stream_bytes_to_read packet
    → s'.stream_bytes_to_read ≡ s1.stream_bytes_to_read - length packet
    → s'.stream_bytes_read_so_far + s'.stream_bytes_to_read
      ≡ s1.stream_bytes_read_so_far + s1.stream_bytes_to_read
    → s'.extra_data_read_pointer + s'.extra_data_bytes
      ≤ s1.extra_data_read_pointer + s1.extra_data_bytes + length packet
    → code ≡ (if s'.stream_bytes_to_read == 0 then pos 1 else pos 0)
    → Delivers s packet code s'
joined s s1 s' packet code f v gives keeps wanted total room answer =
    let size = length-slice s.extra_data_buffer s.extra_data_read_pointer s.extra_data_bytes in
    let rest : s1.stream_bytes_to_read ≡ s.stream_bytes_to_read - length (banked s) =
      omega (arith, f.wanted) in
    record {
      valid = v;
      gives =
          gives
          ∙ ap₂ ◌++◌ f.gives (ap (λ n. take n packet) rest)
          ∙ append_assoc (delivered s) (take s.stream_bytes_to_read (banked s)) _
          ∙ ap (λ given. delivered s ++ given)
              (sym (take-append s.stream_bytes_to_read (banked s) packet));
      keeps =
          keeps
          ∙ ap₂ ◌++◌ f.keeps (ap (λ n. drop n packet) rest)
          ∙ sym (drop-append s.stream_bytes_to_read (banked s) packet);
      wanted = omega (arith, f.wanted, length-append (banked s) packet);
      total = total ∙ f.total;
      room = omega (arith, room, f.room);
      answer = answer;
    }
