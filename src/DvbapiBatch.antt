-- ===== src/DvbapiBatch.antt =====
-- src/decrypt/dvbapi/ClientProperties.{h,cpp} and Keys.cpp, and the part of `decrypt` of
-- src/decrypt/dvbapi/Client.cpp for a scrambled packet: packets are collected into a batch, which is
-- decrypted at once. Memory is a map from the address, and a packet is the address of its first byte.
-- The library libdvbcsa is a parameter, `bs_decrypt`; the times of the keys and the ICAM option are
-- left out.
pub mod Bounds
pub mod Flags
mod Tests
use satpi.Base.{
  ℕ, zero, suc, ◌+◌, ◌-◌, ◌*◌, ◌/◌, ◌%◌, ◌^◌, Bool, true, false, not, ◌&&◌, ◌||◌, if◌then◌else◌,
  ◌==◌, ltb, leb, Option, none, some, List, [], ◌∷◌, ◌++◌, Ptr, update, length, has_bit, ◌>>=◌,
}

-- `_batch` and `_ts` are arrays of one entry more than a batch may have. Of the two queues of keys
-- the last is at the end.
pub record Batch (K : Type 0) : Type 0 where
  pub batch_size : ℕ
  pub batch : ℕ → Option ℕ × ℕ
  pub ts : ℕ → Option ℕ
  pub batch_count : ℕ
  pub parity : ℕ
  pub keys : ℕ → List K

module _ {K : Type 0} where
  abbrev pub back : List K → Option K
  back [] = none
  back (k ∷ []) = some k
  back (k ∷ l ∷ ks) = back (l ∷ ks)

  -- Keys in front of the last are removed.
  abbrev pub keep_last : List K → List K
  keep_last [] = []
  keep_last (k ∷ []) = k ∷ []
  keep_last (k ∷ l ∷ ks) = keep_last (l ∷ ks)

  -- A new object; its arrays hold what the memory held.
  abbrev pub new_batch : ℕ → (ℕ → Option ℕ × ℕ) → (ℕ → Option ℕ) → Batch K
  new_batch size batch ts = record {
    batch_size = size;
    batch = batch;
    ts = ts;
    batch_count = 0;
    parity = 0;
    keys = λ p. [];
  }

  -- `_key` is an array of two queues: none is a write behind it. The parity comes as an `int`; a
  -- negative one, a write before the array, is not modelled.
  unfoldable pub set_key : K → ℕ → Batch K → Option (Batch K)
  set_key key parity b =
      if ltb parity 2
      then some (record b { keys = update b.keys parity (keep_last (b.keys parity ++ (key ∷ []))) })
      else none

  unfoldable pub get_key : ℕ → Batch K → Option K
  get_key parity b = back (b.keys parity)

  -- `freeKeys` empties the queues of both parities.
  unfoldable pub stop_oscam_filters : Batch K → Batch K
  stop_oscam_filters b = record b {
    keys = update (update b.keys 0 []) 1 [];
    batch_count = 0;
    parity = 0;
  }

  unfoldable pub set_batch_data : Option ℕ → ℕ → ℕ → Option ℕ → Batch K → Batch K
  set_batch_data ptr len parity original_ptr b = record b {
    batch = update b.batch b.batch_count (ptr, len);
    ts = update b.ts b.batch_count original_ptr;
    parity = parity;
    batch_count = b.batch_count + 1;
  }

-- `data[3] &= 0x3F`: no longer scrambled.
abbrev pub clear_flags : ℕ → Ptr → Ptr
clear_flags packet mem = update mem (packet + 3) (mem (packet + 3) % 2 ^ 6)

-- The packet gets the PID of a null packet.
abbrev pub set_null : ℕ → Ptr → Ptr
set_null packet mem =
    update (update mem (packet + 1) (mem (packet + 1) / 2 ^ 5 * 2 ^ 5 + 0x1f)) (packet + 2) 0xff

abbrev pub set_failed : ℕ → Ptr → Ptr
set_failed packet mem = clear_flags packet (set_null packet mem)

-- The loops over the packets of a batch, from entry `i` on, up to the entry without a packet; none is
-- a read behind the array, of which `left` entries are left.
unfoldable pub each_packet : (ℕ → Ptr → Ptr) → (ℕ → Option ℕ) → ℕ → ℕ → Ptr → Option Ptr
each_packet change ts i zero mem = none
each_packet change ts i (suc left) mem = elim (ts i) [
  | none ↦ some mem
  | some packet ↦ each_packet change ts (suc i) left (change packet mem)
]

-- The payloads of a batch, as `dvbcsa_bs_decrypt` reads them: up to the entry without data.
abbrev pub payloads : (ℕ → Option ℕ × ℕ) → ℕ → ℕ → List (ℕ × ℕ)
payloads batch i zero = []
payloads batch i (suc left) =
    let rest = payloads batch (suc i) left in
    let len = (batch i).1 in elim ((batch i).0) [ none ↦ [] | some ptr ↦ (ptr, len) ∷ rest ]

module _ {K : Type 0} (bs_decrypt : K → List (ℕ × ℕ) → Ptr → Ptr) where
  abbrev pub decrypt_with : Option K → Batch K → Ptr → Option (Batch K × Ptr)
  decrypt_with (some key) b mem =
      let b' = set_batch_data none 0 b.parity none b in
      do
        mem' ←
            each_packet clear_flags b'.ts 0 (b.batch_size + 1)
              (bs_decrypt key (payloads b'.batch 0 (b.batch_size + 1)) mem)
        some (record b' { batch_count = 0 }, mem')
  decrypt_with none b mem = do
    mem' ← each_packet set_failed b.ts 0 (b.batch_size + 1) mem
    some (record b { batch_count = 0 }, mem')

  unfoldable pub decrypt_batch : Batch K → Ptr → Option (Batch K × Ptr)
  unfolding set_batch_data each_packet get_key
  decrypt_batch b mem = decrypt_with (get_key b.parity b) b mem

  -- Where the payload of a packet begins: behind its header and its adaptation field.
  abbrev pub skip_of : Ptr → ℕ → ℕ
  skip_of mem packet =
      if has_bit (mem (packet + 3)) 5 && ltb (mem (packet + 4)) 183 then mem (packet + 4) + 5 else 4

  abbrev pub parity_of : Ptr → ℕ → ℕ
  parity_of mem packet = if has_bit (mem (packet + 3)) 6 then 1 else 0

  -- The packet joins the batch, if there is a key for it; the flag is that of `setDecryptPending`.
  unfoldable pub add_packet : ℕ → Batch K × Ptr → Batch K × Ptr × Bool
  unfolding set_batch_data get_key
  add_packet packet (b, mem) =
      let parity = parity_of mem packet in
      let skip = skip_of mem packet in
      elim (get_key parity b) [
        | some key ↦
            (set_batch_data (some (packet + skip)) (188 - skip) parity (some packet) b, mem, true)
        | none ↦ (b, set_failed packet mem, false)
      ]

  -- A batch of another parity, or a full one, is decrypted first.
  abbrev pub is_due : ℕ → Batch K → Bool
  is_due parity b =
      not (b.batch_count == 0) && (not (parity == b.parity) || leb b.batch_size b.batch_count)

  unfoldable pub decrypt_scrambled : ℕ → Batch K → Ptr → Option (Batch K × Ptr × Bool)
  unfolding decrypt_batch add_packet
  decrypt_scrambled packet b mem = do
    bm ← if is_due (parity_of mem packet) b then decrypt_batch b mem else some (b, mem)
    some (add_packet packet bm)
