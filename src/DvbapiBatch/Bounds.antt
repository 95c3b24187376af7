-- ===== src/DvbapiBatch/Bounds.antt =====
-- The bounds of the batch of src/decrypt/dvbapi/ClientProperties.cpp, and that there is a key
-- whenever a batch is decrypted.
use satpi.Base.{
  ℕ, zero, suc, ◌+◌, ◌-◌, ◌<◌, ◌≤◌, ◌≡◌, ◌≢◌, inl, inr, refl, sym, ap, ◌∙◌, ◌⊎◌, ltb, arith, Bool,
  Option, none, some, List, [], ◌∷◌, ◌++◌, Ptr, update, Bool-cases, Option-cases, some_injective,
  ne→==, ==_refl,
}
use native.Mathlib.Decide.{ℕ_discrete}
use mathlib.Core.Path.{subst}
use satpi.DvbapiBatch.{
  Batch, back, keep_last, set_key, get_key, stop_oscam_filters, set_batch_data, clear_flags,
  each_packet, payloads, decrypt_batch, parity_of, skip_of, add_packet, is_due, decrypt_scrambled,
  new_batch,
}

-- A batch has no more packets than it may, a packet in each entry up to its count, and a key for them.
pub record IsBounded {K : Type 0} (b : Batch K) : Type 0 where
  pub room : 0 < b.batch_size
  pub within : b.batch_count ≤ b.batch_size
  pub filled : (i : ℕ) → i < b.batch_count → b.ts i ≢ none
  pub keyed : 0 < b.batch_count → back (b.keys b.parity) ≢ none

-- The loop over the packets ends at an entry without one.
pub each_packet_ends :
    (change : ℕ → Ptr → Ptr) (ts : ℕ → Option ℕ) (i left n : ℕ) (mem : Ptr)
    → i ≤ n
    → n < i + left
    → ts n ≡ none
    → (mem' : Ptr) × (each_packet change ts i left mem ≡ some mem')
unfolding each_packet
each_packet_ends change ts i zero n mem lo hi e = absurd (omega arith)
each_packet_ends change ts i (suc left) n mem lo hi e = elim (Option-cases (ts i)) [
  | inl f ↦ (mem, rw (f, each_packet) refl)
  | inr (packet, f) ↦ elim (ℕ_discrete i n) [
    | yes same ↦ absurd (cc)
    | no ne ↦
        let (mem', run) =
          each_packet_ends change ts (suc i) left n (change packet mem) (omega arith) (omega arith)
            e in
        (mem', rw (f, each_packet) run)
  ]
]

module _ {K : Type 0} where
  back-keep_last : (ks : List K) (k : K) → back (keep_last (ks ++ (k ∷ []))) ≡ some k
  back-keep_last [] k = refl
  back-keep_last (l ∷ []) k = refl
  back-keep_last (l ∷ m ∷ ks) k = back-keep_last (m ∷ ks) k

  abbrev with_key : K → ℕ → Batch K → Batch K
  with_key key parity b = record b {
    keys = update b.keys parity (keep_last (b.keys parity ++ (key ∷ [])));
  }

  with_key-IsBounded :
      (key : K) (parity : ℕ) {b : Batch K} → IsBounded b → IsBounded (with_key key parity b)
  with_key-IsBounded key parity {b} v = record {
    room = v.room;
    within = v.within;
    filled = v.filled;
    keyed = λ lo. elim (ℕ_discrete b.parity parity) [
      | yes e ↦ rw (e, ==_refl parity, back-keep_last (b.keys parity) key) (λ n. cc)
      | no ne ↦ rw (ne→== b.parity parity ne) (v.keyed lo)
    ];
  }

  set_key-IsBounded :
      (key : K) (parity : ℕ) {b b' : Batch K}
      → IsBounded b
      → set_key key parity b ≡ some b'
      → IsBounded b'
  unfolding set_key
  set_key-IsBounded key parity {b} {b'} v run = elim (Bool-cases (ltb parity 2)) [
    | inl e ↦
        let taken : set_key key parity b ≡ some (with_key key parity b) = rw e refl in
        subst IsBounded (some_injective _ _ (sym taken ∙ run)) (with_key-IsBounded key parity v)
    | inr e ↦ absurd (ground arith)
  ]

  -- Inside the array the key is taken, and else it is written behind it.
  set_key-cases :
      {b : Batch K}
      → IsBounded b
      → (k : K) (parity : ℕ)
      → ((b' : Batch K) × (parity < 2) × (set_key k parity b ≡ some b') × IsBounded b')
        ⊎ ((2 ≤ parity) × (set_key k parity b ≡ none))
  unfolding set_key
  set_key-cases {b} v k parity = elim (Bool-cases (ltb parity 2)) [
    | inl e ↦ inl (with_key k parity b, ground arith, rw e refl, with_key-IsBounded k parity v)
    | inr e ↦ inr (ground arith, rw e refl)
  ]

  stop_oscam_filters-IsBounded : {b : Batch K} → IsBounded b → IsBounded (stop_oscam_filters b)
  unfolding stop_oscam_filters
  stop_oscam_filters-IsBounded v = record {
    room = v.room;
    within = omega arith;
    filled = λ i lt. absurd (omega arith);
    keyed = λ lt. absurd (omega arith);
  }

  -- Another packet, with a key, in a batch that has room for it and is empty or of its parity.
  set_batch_data-IsBounded :
      (ptr : Option ℕ) (len parity packet : ℕ) {b : Batch K}
      → IsBounded b
      → b.batch_count < b.batch_size
      → back (b.keys parity) ≢ none
      → IsBounded (set_batch_data ptr len parity (some packet) b)
  unfolding set_batch_data
  set_batch_data-IsBounded ptr len parity packet {b} v less key = record {
    room = v.room;
    within = omega arith;
    filled = λ i lt. elim (ℕ_discrete i b.batch_count) [
      | yes e ↦ rw (e, ==_refl b.batch_count) (λ n. cc)
      | no ne ↦ rw (ne→== i b.batch_count ne) (v.filled i (omega arith))
    ];
    keyed = λ lo. key;
  }

  module _ (bs_decrypt : K → List (ℕ × ℕ) → Ptr → Ptr) where
    -- A batch with packets is decrypted, with its key, and is empty after that.
    pub decrypt_batch_lem :
        (b : Batch K) (mem : Ptr)
        → IsBounded b
        → 0 < b.batch_count
        → (key : K) × (b' : Batch K) × (mem' : Ptr) × (get_key b.parity b ≡ some key)
          × (each_packet clear_flags (update b.ts b.batch_count none) 0 (b.batch_size + 1) (
                bs_decrypt key
                  (payloads (update b.batch b.batch_count (none, 0)) 0 (b.batch_size + 1))
                  mem)
              ≡ some mem')
          × (decrypt_batch bs_decrypt b mem ≡ some (b', mem'))
          × IsBounded b'
          × (b'.batch_count ≡ 0)
          × (b'.keys ≡ b.keys)
          × (b'.batch_size ≡ b.batch_size)
    unfolding decrypt_batch get_key set_batch_data
    decrypt_batch_lem b mem v lo = elim (Option-cases (back (b.keys b.parity))) [
      | inl e ↦ absurd (v.keyed lo e)
      | inr (key, e) ↦
          let (mem', run) =
            each_packet_ends clear_flags (update b.ts b.batch_count none) 0 (b.batch_size + 1)
              b.batch_count
              (bs_decrypt key
                (payloads (update b.batch b.batch_count (none, 0)) 0 (b.batch_size + 1)) mem)
              (omega arith) (omega (arith, v.within)) (rw (==_refl b.batch_count) refl) in
          (
            key,
            record (set_batch_data none 0 b.parity none b) { batch_count = 0 },
            mem',
            e,
            run,
            rw (e, run) refl,
            record {
              room = v.room;
              within = omega arith;
              filled = λ i lt. absurd (omega arith);
              keyed = λ lt. absurd (omega arith);
            },
            refl,
            refl,
            refl,
          )
    ]

    add_packet-IsBounded :
        (packet : ℕ) (b : Batch K) (mem : Ptr)
        → IsBounded b
        → b.batch_count < b.batch_size
        → IsBounded (add_packet bs_decrypt packet (b, mem)).0
    unfolding add_packet get_key
    add_packet-IsBounded packet b mem v less =
        let parity = parity_of bs_decrypt mem packet in
        elim (Option-cases (back (b.keys parity))) [
          | inl e ↦ rw (e, add_packet) v
          | inr (key, e) ↦
              rw (e, add_packet)
                (set_batch_data-IsBounded (some (packet + skip_of bs_decrypt mem packet))
                  (188 - skip_of bs_decrypt mem packet) parity packet v less (λ n. cc))
        ]

    pub decrypt_scrambled-IsBounded :
        (packet : ℕ) (b : Batch K) (mem : Ptr)
        → IsBounded b
        → (b' : Batch K) × (mem' : Ptr) × (pending : Bool) × (decrypt_scrambled bs_decrypt packet b
              mem
            ≡ some (b', mem', pending))
          × IsBounded b'
    unfolding decrypt_scrambled
    decrypt_scrambled-IsBounded packet b mem v =
        elim (Bool-cases (is_due bs_decrypt (parity_of bs_decrypt mem packet) b)) [
          | inl e ↦
              let lo : 0 < b.batch_count = ground arith in
              let (key, b', mem', k, run, done, v', zero_, ks, size) =
                decrypt_batch_lem b mem v lo in
              let r = add_packet bs_decrypt packet (b', mem') in
              (
                r.0,
                r.1,
                r.2,
                rw (e, done) refl,
                add_packet-IsBounded packet b' mem' v' (omega (arith, v'.room)),
              )
          | inr e ↦
              let r = add_packet bs_decrypt packet (b, mem) in
              let less : b.batch_count < b.batch_size = ground (arith, v.room) in
              (r.0, r.1, r.2, rw e refl, add_packet-IsBounded packet b mem v less)
        ]

    -- What a batch goes through: scrambled packets, keys of the server that are written inside the
    -- array, and the stop of its filters.
    pub data Reach (start : Batch K) : Batch K → Type 0 where
      here : Reach start start
      scrambled :
          {before after : Batch K} (packet : ℕ) (mem mem' : Ptr) (pending : Bool)
          → Reach start before
          → decrypt_scrambled bs_decrypt packet before mem ≡ some (after, mem', pending)
          → Reach start after
      key :
          {before after : Batch K} (k : K) (parity : ℕ)
          → Reach start before
          → set_key k parity before ≡ some after
          → Reach start after
      stop : {before : Batch K} → Reach start before → Reach start (stop_oscam_filters before)

    states : {start b : Batch K} → IsBounded start → Reach start b → IsBounded b
    states v here = v
    states v (scrambled p mem mem' pending r run) =
        let (b', m', f, ran, v') = decrypt_scrambled-IsBounded p _ mem (states v r) in
        rw (ap (λ (r : Batch K × Ptr × Bool). r.0) (some_injective _ _ (sym run ∙ ran))) v'
    states v (key k parity r run) = set_key-IsBounded k parity (states v r) run
    states v (stop r) = stop_oscam_filters-IsBounded (states v r)

    -- From a new object whose batch may have a packet on, whatever packets and stops there were, and
    -- whatever keys of which none was written behind the array of keys (that is, of parity 0 or 1):
    -- the batch stays in its arrays, has a key as long as it has packets, and the next scrambled packet
    -- is taken without a read behind the arrays; a key of parity 0 or 1 is taken next, and one of
    -- another parity is a write behind the array.
    pub Reach-IsBounded :
        (size : ℕ) (batch : ℕ → Option ℕ × ℕ) (ts : ℕ → Option ℕ) (b : Batch K) (packet : ℕ)
        (mem : Ptr)
        → 0 < size
        → Reach (new_batch size batch ts) b
        → IsBounded b
          × ((b' : Batch K) × (mem' : Ptr) × (pending : Bool) × (decrypt_scrambled bs_decrypt packet
                  b mem
                ≡ some (b', mem', pending))
              × IsBounded b')
          × ((k : K) (parity : ℕ)
              → ((b' : Batch K) × (parity < 2) × (set_key k parity b ≡ some b') × IsBounded b')
                ⊎ ((2 ≤ parity) × (set_key k parity b ≡ none)))
    Reach-IsBounded size batch ts b packet mem lo r =
        let v =
          states
            record {
              room = lo;
              within = omega arith;
              filled = λ i lt. absurd (omega arith);
              keyed = λ lt. absurd (omega arith);
            }
            r in
        (v, decrypt_scrambled-IsBounded packet b mem v, set_key-cases v)
